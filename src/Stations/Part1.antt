-- ===== src/Stations/Part1.antt =====
-- Part 1 of the map `CoastStations` of src/coast_stations.cpp, from MMSI to name.
use Prim.Native.String.{String}
use mathlib.Core.List.{List, [], ◌∷◌}

abbrev pub stations_1 : List (String × String)
stations_1 =
    ("003311000", "AASIAAT RADIO")
    ∷ ("004224102", "ABADAN RADIO")
    ∷ ("004224300", "ABBAS RADIO")
    ∷ ("004225300", "ABBAS RADIO")
    ∷ ("002320004", "ABERDEEN")
    ∷ ("006191000", "ABIDJAN RADIO")
    ∷ ("004225310", "ABOMUSA RADIO")
    ∷ ("003451810", "ACAPULCO, GUERRERO RADIO")
    ∷ ("004224311", "AFTAB RADIO")
    ∷ ("006052110", "AIN TAYA RADIO")
    ∷ ("005251558", "AIR BANGIS RADIO")
    ∷ ("002711000", "AKCAKOCA RADIO")
    ∷ ("002711000", "AKDAG RADIO")
    ∷ ("004030000", "AL BIRK RADIO")
    ∷ ("004030000", "AL LITH RADIO")
    ∷ ("004030000", "AL QUNFUDHAH RADIO")
    ∷ ("004030000", "AL WAJH RADIO")
    ∷ ("006221111", "ALEXANDRIA RADIO")
    ∷ ("006052110", "ALGER RADIO")
    ∷ ("002470064", "ALNG SHORE BASE")
    ∷ ("002470063", "ALNG TERMINAL")
    ∷ ("005250006", "AMBOINA RADIO / PKE")
    ∷ ("004225601", "AMIRABAD RADIO")
    ∷ ("002713000", "ANAMUR RADIO")
    ∷ ("002470119", "ANCONA RADIO")
    ∷ ("007250240", "ANCUD RADIO")
    ∷ ("006053814", "ANNABA RADIO")
    ∷ ("002713000", "ANTALYA TURK RADIO")
    ∷ ("007250050", "ANTOFAGASTA ZONAL RADIO")
    ∷ ("002050485", "ANTWERPEN RADIO")
    ∷ ("004224500", "ANZALI RADIO")
    ∷ ("004225500", "ANZALI RADIO")
    ∷ ("004381234", "AQABA COASTAL RADIO STATION/JYO - AQABA PORT CONTROL/JYP")
    ∷ ("002633000", "ARGA")
    ∷ ("007010111", "ARGENTINA RADIO")
    ∷ ("007250010", "ARICA RADIO")
    ∷ ("002734414", "ARKHANGELSK RADIO")
    ∷ ("002241026", "ARRECIFE RADIO")
    ∷ ("004224202", "ASALUYEH RADIO")
    ∷ ("004225202", "ASALUYEH RADIO")
    ∷ ("002391000", "ASPROPYRGOS ATTIKIS RADIO")
    ∷ ("004224501", "ASTARA RADIO")
    ∷ ("002731147", "ASTRAKHAN AMP")
    ∷ ("002734419", "ASTRAKHAN RADIO MRCC")
    ∷ ("002470120", "AUGUSTA RADIO")
    ∷ ("002711000", "AYVALIK RADIO")
    ∷ ("005743040", "BAC LIEU RADIO")
    ∷ ("005741050", "BACH LONG VY RADIO")
    ∷ ("007250370", "BAHIA FELIX RADIO")
    ∷ ("007250450", "BAHIA FILDES RADIO")
    ∷ ("007250470", "BAHIA PARAISO RADIO")
    ∷ ("007354753", "BAHIA RADIO")
    ∷ ("004224301", "BAHONAR RADIO")
    ∷ ("004231000", "BAKU TRAFFIC CONTROL")
    ∷ ("004233000", "BAKU TRAFFIC CONTROL")
    ∷ ("004234000", "BAKU TRAFFIC CONTROL")
    ∷ ("004235000", "BAKU TRAFFIC CONTROL")
    ∷ ("004236000", "BAKU TRAFFIC CONTROL")
    ∷ ("004237000", "BAKU TRAFFIC CONTROL")
    ∷ ("004238000", "BAKU TRAFFIC CONTROL")
    ∷ ("004239000", "BAKU TRAFFIC CONTROL")
    ∷ ("004232000", "BAKU TRAFFIC CONTROL")
    ∷ ("005250009", "BALIKPAPAN RADIO / PKN")
    ∷ ("005250087", "BALIKPAPAN RADIO / PKN2")
    ∷ ("002711000", "BANDIRMA RADIO")
    ∷ ("005671000", "BANGKOK RADIO")
    ∷ ("005251520", "BANJARMASIN RADIO / PKG")
    ∷ ("002620001", "BAR RADIO")
    ∷ ("002620002", "BAR RADIO")
    ∷ ("002620003", "BAR RADIO")
    ∷ ("002470121", "BARI RADIO")
    ∷ ("004123600", "BASUO RADIO")
    ∷ ("005250012", "BATU AMPAR RADIO")
    ∷ ("005251526", "BAU-BAU RADIO")
    ∷ ("004123400", "BEIHAI RADIO")
    ∷ ("005250003", "BELAWAN RADIO / PKB")
    ∷ ("002320021", "BELFAST")
    ∷ ("005741070", "BEN THUY RADIO")
    ∷ ("005250088", "BENETE RADIO")
    ∷ ("005250034", "BENGKALIS RADIO")
    ∷ ("005250062", "BENGKULU RADIO")
    ∷ ("005250014", "BENOA RADIO / PKD5")
    ∷ ("002723672", "BERDYANSK RADIO")
    ∷ ("005250031", "BIAK RADIO / PKY2")
    ∷ ("005251516", "BIMA RADIO")
    ∷ ("005250026", "BINTUNI RADIO")
    ∷ ("005250005", "BITUNG RADIO / PKM")
    ∷ ("002713000", "BODRUM RADIO")
    ∷ ("005250089", "BONTANG RADIO")
    ∷ ("002470094", "BOSA")
    ∷ ("002111240", "BREMEN RESCUE RADIO")
    ∷ ("003621001", "BRIGAND HILL")
    ∷ ("007010001", "BUENOS AIRES PREFECTURA NAVAL RADIO")
    ∷ ("002731243", "BUKHTA SEVER KRASNOYARSK/BUKHTA-SEVER")
    ∷ ("005330195", "BUKIT ANDRASY")
    ∷ ("005330010", "BUKIT BAKAR")
    ∷ ("005330009", "BUKIT BESAR")
    ∷ ("005330189", "BUKIT KAYU MALAM")
    ∷ ("005330185", "BUKIT KELAPA")
    ∷ ("005330013", "BUKIT KERATONG")
    ∷ ("005330186", "BUKIT LIMA")
    ∷ ("005330012", "BUKIT NYABAU")
    ∷ ("004402101", "BUSAN/SUHYUP")
    ∷ ("004402107", "BUSAN/SUHYUP")
    ∷ ("004402111", "BUSAN/SUHYUP")
    ∷ ("004224200", "BUSHEHR RADIO")
    ∷ ("004225200", "BUSHEHR RADIO")
    ∷ ("005743070", "CA MAU RADIO")
    ∷ ("002241024", "CABO DE GATA RADIO")
    ∷ ("002241026", "CABO DE GATA RADIO")
    ∷ ("002241024", "CABO LA NAO RADIO")
    ∷ ("002470122", "CAGLIARI RADIO")
    ∷ ("007250080", "CALDERA RADIO")
    ∷ ("007600125", "CALLAO RADIO")
    ∷ ("005742090", "CAM RANH RADIO")
    ∷ ("002711000", "CAMLICA RADIO")
    ∷ ("005743050", "CAN THO RADIO")
    ∷ ("002633020", "CANDEEIROS")
    ∷ ("004121203", "CANGZHOU")
    ∷ ("004121202", "CAO FEI DIAN")
    ∷ ("006010001", "CAPE TOWN RADIO")
    ∷ ("007250250", "CASTRO RADIO")
    ∷ ("002470095", "CESENATICO")
    ∷ ("004224401", "CHABAHAR RADIO")
    ∷ ("004225400", "CHABAHAR RADIO")
    ∷ ("007250260", "CHAITEN RADIO")
    ∷ ("007250070", "CHANARAL RADIO")
    ∷ ("007600135", "CHANCAY RADIO")
    ∷ ("006052111", "CHERCHELL RADIO")
    ∷ ("003451120", "CHETUMAL, QUINTANA ROO RADIO")
    ∷ []
