-- ===== src/Stations/Part5.antt =====
-- Part 5 of the map `CoastStations` of src/coast_stations.cpp, from MMSI to name.
use Prim.Native.String.{String}
use mathlib.Core.List.{List, [], ◌∷◌}

abbrev pub stations_5 : List (String × String)
stations_5 =
    ("005251508", "PANGKAL BALAM RADIO")
    ∷ ("005250013", "PANJANG RADIO / PKC4")
    ∷ ("005250018", "PANTOLOAN RADIO")
    ∷ ("005251525", "PARE-PARE RADIO / PKF23")
    ∷ ("007250100", "PASCUA ZONAL RADIO")
    ∷ ("002712000", "PAZAR RADIO")
    ∷ ("005330192", "PENGERANG")
    ∷ ("002470131", "PESCARA RADIO")
    ∷ ("002734418", "PETROPAVLOVSK-KAMCHATSKIY")
    ∷ ("002731117", "PEVEK CHAO")
    ∷ ("002733730", "PEVEK CHAO")
    ∷ ("005742100", "PHAN RANG RADIO")
    ∷ ("005743010", "PHAN THIET RADIO")
    ∷ ("005743110", "PHU QUOC RADIO")
    ∷ ("005742070", "PHU YEN RADIO")
    ∷ ("002633040", "PICOTO")
    ∷ ("007600123", "PIMENTEL RADIO")
    ∷ ("002392000", "PIRAEUS RADIO")
    ∷ ("007600130", "PISCO RADIO")
    ∷ ("003160019", "PLACENTIA COAST GUARD RADIO")
    ∷ ("005250084", "PLAJU RADIO")
    ∷ ("002734442", "PLASTUN RADIO")
    ∷ ("004400401", "POHANG RADIO")
    ∷ ("004400402", "POHANG RADIO")
    ∷ ("004403401", "POHANG RADIO")
    ∷ ("004402402", "POHANG/SUHYUP")
    ∷ ("003621001", "POINT FORTIN")
    ∷ ("002618102", "POLISH RESCUE RADIO")
    ∷ ("002633100", "PONTA DO ALTAR")
    ∷ ("005250016", "PONTIANAK RADIO / PKS")
    ∷ ("003160018", "PORT AUX BASQUES COAST GUARD RADIO")
    ∷ ("004702007", "PORT OF FUJAIRAH")
    ∷ ("004702008", "PORT OF FUJAIRAH")
    ∷ ("006221113", "PORT SAID RADIO")
    ∷ ("002470132", "PORTO CERVO RADIO")
    ∷ ("002470097", "PORTO NOGARO")
    ∷ ("002470133", "PORTO TORRES RADIO")
    ∷ ("002470098", "PORTOSCUSO")
    ∷ ("005251527", "POSO RADIO")
    ∷ ("003160029", "PRESCOTT COAST GUARD RADIO")
    ∷ ("003160013", "PRINCE RUPERT COAST GUARD RADIO")
    ∷ ("003450910", "PROGRESO, YUCATAN RADIO")
    ∷ ("007250294", "PUERTO AGUIRRE RADIO")
    ∷ ("007354757", "PUERTO AYORA RADIO")
    ∷ ("007250300", "PUERTO AYSEN RADIO")
    ∷ ("007354756", "PUERTO BOLIVAR RADIO")
    ∷ ("007250298", "PUERTO CHACABUCO RADIO")
    ∷ ("007250330", "PUERTO EDEN RADIO")
    ∷ ("007250230", "PUERTO MONTT ZONAL RADIO")
    ∷ ("007250340", "PUERTO NATALES RADIO")
    ∷ ("003451210", "PUERTO VALLARTA, JALISCO RADIO")
    ∷ ("007250420", "PUERTO WILLIAMS RADIO")
    ∷ ("005330006", "PULAU TIOMAN")
    ∷ ("007600134", "PUNO RADIO")
    ∷ ("004400101", "PUSAN RADIO")
    ∷ ("004400103", "PUSAN RADIO")
    ∷ ("004400104", "PUSAN RADIO")
    ∷ ("004400105", "PUSAN RADIO")
    ∷ ("004400106", "PUSAN RADIO")
    ∷ ("004403102", "PUSAN RADIO")
    ∷ ("004122200", "QINGDAO RADIO")
    ∷ ("004121200", "QINHUANGDAO RADIO")
    ∷ ("003160027", "QUEBEC COAST GUARD RADIO")
    ∷ ("007250270", "QUELLON RADIO")
    ∷ ("004224304", "QUESHM RADIO")
    ∷ ("007250125", "QUINTERO RADIO")
    ∷ ("005742060", "QUY NHON RADIO")
    ∷ ("004030000", "RABIGH RADIO")
    ∷ ("002733728", "RADUZHNYY MAGADAN")
    ∷ ("003669991", "RCC BOSTON")
    ∷ ("004401002", "RCC DONGHAE")
    ∷ ("004401001", "RCC INCHEON")
    ∷ ("004401005", "RCC JEJU")
    ∷ ("003669997", "RCC MIAMI")
    ∷ ("004401004", "RCC NAMHAE")
    ∷ ("003669998", "RCC NEW ORLEANS")
    ∷ ("003669992", "RCC SAN JUAN")
    ∷ ("004401003", "RCC SEOHAE")
    ∷ ("007100002", "RECIFE BONGI")
    ∷ ("002510100", "REYKJAVIK RADIO")
    ∷ ("004122201", "RI ZHAO")
    ∷ ("002750100", "RIGA RESCUE RADIO")
    ∷ ("002380200", "RIJEKA RADIO")
    ∷ ("007100001", "RIO DE JANEIRO (SANTA CRUZ)")
    ∷ ("007010010", "RIO GALLEGOS PREFECTURA NAVAL RADIO")
    ∷ ("006341000", "RMRCC MOMBASA")
    ∷ ("002470001", "ROMA RADIO")
    ∷ ("003621001", "RUNNEMEDE")
    ∷ ("007250140", "S. ANTONIO RADIO")
    ∷ ("002470134", "S. BENEDETTO DEL TRONTO RADIO")
    ∷ ("007600131", "S. JUAN RADIO")
    ∷ ("007250320", "S. PEDRO RADIO")
    ∷ ("002733700", "S. PETERSBURG RADIO MRCC")
    ∷ ("005251501", "SABANG RADIO / PKA4")
    ∷ ("002731177", "SABETTA PT YNAO")
    ∷ ("002731187", "SABETTA PT YNAO")
    ∷ ("002731197", "SABETTA PT YNAO")
    ∷ ("002733733", "SAKHALIN RADIO SPC")
    ∷ ("007600124", "SALAVERRY RADIO")
    ∷ ("007354755", "SALINAS RADIO")
    ∷ ("005251524", "SAMARINDA RADIO / PKN6")
    ∷ ("004402106", "SAMCHEONPO/SUHYUP")
    ∷ ("004402112", "SAMCHEONPO/SUHYUP")
    ∷ ("005251521", "SAMPIT RADIO")
    ∷ ("002712000", "SAMSUN TURK RADIO")
    ∷ ("007010006", "SAN BLAS PREFECTURA NAVAL RADIO")
    ∷ ("003669990", "SAN FRANCISCO")
    ∷ ("005250025", "SANANA RADIO")
    ∷ ("006191000", "SAN-PEDRO RADIO")
    ∷ ("004123700", "SANYA RADIO")
    ∷ ("002711000", "SARKOY RADIO")
    ∷ ("003160030", "SARNIA COAST GUARD RADIO")
    ∷ ("006191000", "SASSANDRA RADIO")
    ∷ ("005251531", "SAUMLAKI RADIO")
    ∷ ("005250029", "SEI KOLAK KIJANG RADIO")
    ∷ ("005250090", "SEI PAKNING RADIO")
    ∷ ("005250008", "SEMARANG RADIO / PKR")
    ∷ ("004400002", "SEOUL RADIO")
    ∷ ("004122100", "SHANGHAI RADIO")
    ∷ ("004123200", "SHANTOU RADIO")
    ∷ ("004123106", "SHENZHEN RADIO")
    ∷ ("002320001", "SHETLAND")
    ∷ ("004310201", "SHIOGAMA COAST GUARD RADIO")
    ∷ ("004030000", "SHUAIBA RADIO")
    ∷ ("004030000", "SHUQAIQ RADIO")
    ∷ ("005250028", "SIBOLGA RADIO / PKB3")
    ∷ ("002510100", "SIGLUFJOERDUR RADIO")
    ∷ ("005630002", "SINGAPORE PORT OPERATIONS CONTROL")
    ∷ ("002734417", "SINYAVINO KLN/KALININGRAD-1")
    ∷ ("005250047", "SIPORA RADIO")
    ∷ []
