-- ===== src/Stations/Part2.antt =====
-- Part 2 of the map `CoastStations` of src/coast_stations.cpp, from MMSI to name.
use Prim.Native.String.{String}
use mathlib.Core.List.{List, [], ◌∷◌}

abbrev pub stations_2 : List (String × String)
stations_2 =
    ("007600126", "CHIMBOTE RADIO")
    ∷ ("005250033", "CIGADING RADIO")
    ∷ ("005250030", "CILACAP RADIO / PKR3")
    ∷ ("005250089", "CILACAP RADIO / PKR6")
    ∷ ("005250032", "CIREBON RADIO")
    ∷ ("003450710", "CIUDAD DEL CARMEN, CAMPECHE RADIO")
    ∷ ("002470123", "CIVITAVECCHIA RADIO")
    ∷ ("003621111", "COAST GUARD CONTROL")
    ∷ ("003621112", "COAST GUARD CONTROL")
    ∷ ("003621113", "COAST GUARD CONTROL")
    ∷ ("003621114", "COAST GUARD CONTROL")
    ∷ ("003621117", "COAST GUARD CONTROL")
    ∷ ("003621118", "COAST GUARD CONTROL")
    ∷ ("003621119", "COAST GUARD CONTROL")
    ∷ ("003621120", "COAST GUARD CONTROL")
    ∷ ("003450320", "COATZACOALCOS, VERACRUZ RADIO")
    ∷ ("002713000", "COBANDEDE RADIO")
    ∷ ("007010008", "COMODORO RIVADAVIA PREFECTURA NAVAL RADIO")
    ∷ ("005743060", "CON DAO RADIO")
    ∷ ("007250150", "CONSTITUCION RADIO")
    ∷ ("007250110", "COQUIMBO RADIO")
    ∷ ("007250210", "CORRAL RADIO")
    ∷ ("002241022", "CORUNA RADIO")
    ∷ ("003451110", "COZUMEL, QUINTANA ROO RADIO")
    ∷ ("002470124", "CROTONE RADIO")
    ∷ ("005741020", "CUA ONG RADIO")
    ∷ ("005742010", "CUA VIET RADIO")
    ∷ ("002091000", "CYPRUS RADIO")
    ∷ ("005742030", "DA NANG RADIO")
    ∷ ("005251559", "DABO SINGKEP RADIO")
    ∷ ("004121300", "DALIAN RADIO")
    ∷ ("004030000", "DAMMAM RADIO")
    ∷ ("004224203", "DAYER RADIO")
    ∷ ("004225203", "DAYER RADIO")
    ∷ ("002734427", "DE KASTRI TERMINAL")
    ∷ ("002734447", "DE-KASTRI KHAB/DE-KASTRI-RADIOCENTR")
    ∷ ("007250390", "DELGADA RADIO")
    ∷ ("006052112", "DELLYS RADIO")
    ∷ ("004224205", "DEYLAM RADIO")
    ∷ ("004225205", "DEYLAM RADIO")
    ∷ ("007250440", "DIEGO RAMIREZ RADIO")
    ∷ ("002712000", "DIKMENTEPE RADIO")
    ∷ ("002731107", "DIKSON TAO")
    ∷ ("002733717", "DIKSON TAO")
    ∷ ("002713000", "DILEKTEPE RADIO")
    ∷ ("006211000", "DJIBOUTI RADIO")
    ∷ ("004661010", "DOHA RADIO")
    ∷ ("004121402", "DONG YING RADIO")
    ∷ ("004402606", "DONGHAE/SUHYUP")
    ∷ ("004402607", "DONGHAE/SUHYUP")
    ∷ ("002320010", "DOVER")
    ∷ ("004030000", "DUBA RADIO")
    ∷ ("002380300", "DUBROVNIK RADIO")
    ∷ ("005250004", "DUMAI RADIO / PKP")
    ∷ ("005250083", "DUMAI RADIO / PKP4")
    ∷ ("005742040", "DUNG QUAT RADIO")
    ∷ ("002712000", "DUTMEN RADIO")
    ∷ ("007300301", "ECTVM - BARRANQUILLA - CP03")
    ∷ ("007300101", "ECTVM - BUENAVENTURA- CP01")
    ∷ ("007300501", "ECTVM - CARTAGENA - CP05")
    ∷ ("007300901", "ECTVM - COVENAS - CP09")
    ∷ ("007300401", "ECTVM - SANTA MARTA - CP04")
    ∷ ("007300201", "ECTVM - TUMACO - CP02")
    ∷ ("007300801", "ECTVM - TURBO - CP08")
    ∷ ("004700000", "EMIRATES RADIO")
    ∷ ("004701001", "EMIRATES RESCUE (JRCCAD)")
    ∷ ("005251517", "ENDE RADIO / PKD20")
    ∷ ("003450210", "ENSENADA, BAJA CALIFORNIA RADIO")
    ∷ ("007354752", "ESMERALDAS RADIO")
    ∷ ("002734422", "EYSK RADIO CENTR/EYSK-RADIO-CENTR")
    ∷ ("005250026", "FAK-FAK RADIO")
    ∷ ("002320014", "FALMOUTH")
    ∷ ("007250235", "FARO CORONA RADIO")
    ∷ ("007250400", "FARO DUNGENESS RADIO")
    ∷ ("007250410", "FARO ESPIRITU SANTO RADIO")
    ∷ ("007250350", "FARO EVANGELISTAS RADIO")
    ∷ ("007250360", "FARO FAIRWAY RADIO")
    ∷ ("007250290", "FARO GUAFO RADIO")
    ∷ ("007250310", "FARO RAPER RADIO")
    ∷ ("002633090", "FIGUEIRA DA FOZ")
    ∷ ("002241022", "FINISTERRE RADIO")
    ∷ ("002633050", "FOIA")
    ∷ ("002633010", "FREITA")
    ∷ ("003621001", "FRENCH FORT")
    ∷ ("004122600", "FUZHOU RADIO")
    ∷ ("005330190", "GEBENG")
    ∷ ("004224206", "GENAVEH RADIO")
    ∷ ("004225206", "GENAVEH RADIO")
    ∷ ("002470125", "GENOVA RADIO")
    ∷ ("006054119", "GHAZAOUET RADIO")
    ∷ ("002361001", "GIBRALTAR PORT AUTHORITY")
    ∷ ("002734468", "GORKI LEN")
    ∷ ("002733700", "GORKI LEN")
    ∷ ("006191000", "GRAND LAHOU RADIO")
    ∷ ("004123100", "GUANGZHOU RADIO")
    ∷ ("007354750", "GUAYAQUIL RADIO")
    ∷ ("004400201", "GUNSAN RADIO")
    ∷ ("004400501", "GUNSAN RADIO")
    ∷ ("004403501", "GUNSAN RADIO")
    ∷ ("004402501", "GUNSAN/SUHYUP")
    ∷ ("004402502", "GUNSAN/SUHYUP")
    ∷ ("004402503", "GUNSAN/SUHYUP")
    ∷ ("004402504", "GUNSAN/SUHYUP")
    ∷ ("005330003", "GUNUNG BRINCHANG")
    ∷ ("005330001", "GUNUNG JERAI")
    ∷ ("005330005", "GUNUNG LEDANG")
    ∷ ("005251556", "GUNUNG SITOLI RADIO / PKB29")
    ∷ ("005743090", "HA TIEN RADIO")
    ∷ ("005741040", "HAI PHONG RADIO")
    ∷ ("003160016", "HALIFAX COAST GUARD RADIO")
    ∷ ("004310601", "HIROSHIMA COAST GUARD RADIO")
    ∷ ("004030000", "HMB (AZIZYA) RADIO")
    ∷ ("005743030", "HO CHI MINH RADIO")
    ∷ ("004310101", "HOKKAIDO COAST GUARD RADIO")
    ∷ ("002320018", "HOLYHEAD")
    ∷ ("005741030", "HON GAI RADIO")
    ∷ ("005741080", "HON LA RADIO")
    ∷ ("003669993", "HONOLULU")
    ∷ ("002510100", "HORNAFJOERDUR RADIO")
    ∷ ("007600128", "HUACHO RADIO")
    ∷ ("007250090", "HUASCO RADIO")
    ∷ ("005742020", "HUE RADIO")
    ∷ ("002320007", "HUMBER")
    ∷ ("007600132", "ILO RADIO")
    ∷ ("004400003", "INCHEON RADIO")
    ∷ ("004400004", "INCHEON RADIO")
    ∷ ("004403001", "INCHEON RADIO")
    ∷ ("004402001", "INCHEON/SUHYUP")
    ∷ ("004402002", "INCHEON/SUHYUP")
    ∷ ("004402003", "INCHEON/SUHYUP")
    ∷ []
