-- ===== src/Stations/Part6.antt =====
-- Part 6 of the map `CoastStations` of src/coast_stations.cpp, from MMSI to name.
use Prim.Native.String.{String}
use mathlib.Core.List.{List, [], ◌∷◌}

abbrev pub stations_6 : List (String × String)
stations_6 =
    ("002731108", "SOCHI AKHUN MTN KRAS")
    ∷ ("004402603", "SOKCHO/SUHYUP")
    ∷ ("002320011", "SOLENT")
    ∷ ("005250011", "SORONG RADIO / PKY4")
    ∷ ("002380100", "SPLIT RADIO")
    ∷ ("003751001", "ST. VINCENT AND THE GRENADINES COAST GUARD")
    ∷ ("005330196", "STESEN PANTAI KUALA MUDA")
    ∷ ("005330188", "STESEN PEMANCAR PERMATANG PAUH, P. PINANG")
    ∷ ("005330184", "STESEN PEMANCAR STAPOK")
    ∷ ("005330193", "STESEN PEMANCAR TUARAN")
    ∷ ("005330199", "STESEN PENERIMAAN RADIO TANJUNG ARU")
    ∷ ("005330200", "STESEN PENERIMAAN SEMANTAN")
    ∷ ("005330198", "STESEN SATELLITE BUMI BESERAH")
    ∷ ("002320024", "STORNOWAY")
    ∷ ("007600127", "SUPE RADIO")
    ∷ ("005250001", "SURABAYA RADIO / PKD")
    ∷ ("002733733", "SVOBODNYY SAKH")
    ∷ ("003160017", "SYDNEY COAST GUARD RADIO")
    ∷ ("006191000", "TABOU RADIO")
    ∷ ("004402201", "TAEAN/SUHYUP")
    ∷ ("004402202", "TAEAN/SUHYUP")
    ∷ ("004402203", "TAEAN/SUHYUP")
    ∷ ("004402204", "TAEAN/SUHYUP")
    ∷ ("002734487", "TAGANROG RADIO")
    ∷ ("002734487", "TAGANROG ROST/TAGANROG-RADIO-1")
    ∷ ("005250024", "TAHUNA RADIO")
    ∷ ("007600122", "TALARA RADIO")
    ∷ ("007250170", "TALCAHUANO ZONAL RADIO")
    ∷ ("002761000", "TALLINN RADIO")
    ∷ ("007250060", "TALTAL RADIO")
    ∷ ("003450110", "TAMPICO, TAMAULIPAS RADIO")
    ∷ ("005330187", "TANJUNG LOBANG")
    ∷ ("005251506", "TANJUNG UBAN RADIO / PKJ")
    ∷ ("005251502", "TAPAK TUAN RADIO")
    ∷ ("005250017", "TARAKAN RADIO / PKO")
    ∷ ("002241026", "TARIFA RADIO")
    ∷ ("004680012", "TARTOUS RADIO")
    ∷ ("005120010", "TAUPO MARITIME RADIO")
    ∷ ("005251513", "TEGAL RADIO / PKR26")
    ∷ ("005251075", "TELUK BAYUR RADIO / PKP20")
    ∷ ("005250075", "TELUK BAYUR RADIO / PKV")
    ∷ ("005250094", "TEMBILAHAN RADIO")
    ∷ ("006052113", "TENES RADIO")
    ∷ ("005250020", "TERNATE RADIO / PKE5")
    ∷ ("002470099", "TERRASINI")
    ∷ ("005330014", "TG TARAS")
    ∷ ("005741060", "THANH HOA RADIO")
    ∷ ("005743100", "THO CHU RADIO")
    ∷ ("004121100", "TIANJIN RADIO")
    ∷ ("002734449", "TIKSI MRSC")
    ∷ ("002731196", "TIKSI-3 YAK")
    ∷ ("002733718", "TIKSI-3 YAK")
    ∷ ("004225309", "TIYAB RADIO")
    ∷ ("007250030", "TOCOPILLA RADIO")
    ∷ ("004310001", "TOKYO COAST GUARD RADIO")
    ∷ ("005251528", "TOLI-TOLI RADIO")
    ∷ ("004402105", "TONGYEONG/SUHYUP")
    ∷ ("004402108", "TONGYEONG/SUHYUP")
    ∷ ("004402109", "TONGYEONG/SUHYUP")
    ∷ ("004402110", "TONGYEONG/SUHYUP")
    ∷ ("002311000", "TORSHAVN RADIO")
    ∷ ("002470135", "TRIESTE RADIO")
    ∷ ("005330194", "TRIG HILL")
    ∷ ("005251530", "TUAL RADIO")
    ∷ ("002734413", "TUAPSE KRAS/TUAPSE-CENTR")
    ∷ ("002300230", "TURKU RADIO")
    ∷ ("002734448", "UGOLNYE KOPI 3-Y CHAO/MARIYA-RADIO")
    ∷ ("002731178", "UGOLNYE KOPI CHAO")
    ∷ ("004402404", "ULLENG/SUHYUP")
    ∷ ("004402405", "ULLENG/SUHYUP")
    ∷ ("004402406", "ULLENG/SUHYUP")
    ∷ ("004400403", "ULREUNG RADIO")
    ∷ ("004400404", "ULREUNG RADIO")
    ∷ ("004400102", "ULSAN RADIO")
    ∷ ("004402102", "ULSAN/SUHYUP")
    ∷ ("004402104", "ULSAN/SUHYUP")
    ∷ ("005330004", "ULU KALI")
    ∷ ("004030000", "UMM LAJJ RADIO")
    ∷ ("007250220", "VALDIVIA RADIO")
    ∷ ("007251860", "VALPARAISO PLAYA ANCHA RADIO")
    ∷ ("002734421", "VANINO RADIO")
    ∷ ("002070810", "VARNA RADIO")
    ∷ ("003450310", "VERACRUZ, VERACRUZ RADIO")
    ∷ ("002770090", "VESSEL TRAFFIC MONITORING")
    ∷ ("002770100", "VESSEL TRAFFIC MONITORING")
    ∷ ("002770110", "VESSEL TRAFFIC MONITORING")
    ∷ ("002770120", "VESSEL TRAFFIC MONITORING")
    ∷ ("002770130", "VESSEL TRAFFIC MONITORING")
    ∷ ("002510100", "VESTMANNAEYJAR RADIO")
    ∷ ("002633070", "VIANA DO CASTELO")
    ∷ ("003160011", "VICTORIA COAST GUARD RADIO")
    ∷ ("002734412", "VLADIVOSTOCK RADIO MRCC")
    ∷ ("005743020", "VUNG TAU RADIO")
    ∷ ("002734451", "VYSOTSK LEN")
    ∷ ("005788020", "WALLIS RADIO")
    ∷ ("004121403", "WEI FANG")
    ∷ ("004121404", "WEIHAI")
    ∷ ("004402403", "WHOPO/SUHYUP")
    ∷ ("004402407", "WHOPO/SUHYUP")
    ∷ ("004403408", "WHOPO/SUHYUP")
    ∷ ("007250430", "WOLLASTON RADIO")
    ∷ ("004122700", "XIAMEN RADIO")
    ∷ ("004030000", "YANBU RADIO")
    ∷ ("005060100", "YANGON RADIO")
    ∷ ("004121400", "YANTAI RADIO")
    ∷ ("004400305", "YEOSU RADIO")
    ∷ ("004400306", "YEOSU RADIO")
    ∷ ("004402303", "YEOSU/SUHYUP")
    ∷ ("004402304", "YEOSU/SUHYUP")
    ∷ ("004402307", "YEOSU/SUHYUP")
    ∷ ("002712000", "YILDIZTEPE RADIO")
    ∷ ("004310301", "YOKOHAMA COAST GUARD RADIO")
    ∷ ("002713000", "YUMRUTEPE RADIO")
    ∷ ("002711000", "YUSA RADIO")
    ∷ ("002050480", "ZEEBRUGGE RADIO")
    ∷ ("004123300", "ZHANJIANG RADIO")
    ∷ ("004125725", "ZHANJIANG RADIO")
    ∷ ("002712000", "ZONGULDAK RADIO")
    ∷ ("007600120", "ZORRITOS RADIO")
    ∷ ("004472188", "KUWAIT")
    ∷ ("002241078", "MADRID RADIO")
    ∷ ("002640570", "CONSTANTA RADIO")
    ∷ ("004280001", "HAIFA RADIO")
    ∷ ("004634060", "MRCC KARACHI")
    ∷ []
