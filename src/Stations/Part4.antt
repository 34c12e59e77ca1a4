-- ===== src/Stations/Part4.antt =====
-- Part 4 of the map `CoastStations` of src/coast_stations.cpp, from MMSI to name.
use Prim.Native.String.{String}
use mathlib.Core.List.{List, [], ◌∷◌}

abbrev pub stations_4 : List (String × String)
stations_4 =
    ("004402308", "MOKPO/SUHYUP")
    ∷ ("004402309", "MOKPO/SUHYUP")
    ∷ ("004402310", "MOKPO/SUHYUP")
    ∷ ("004402311", "MOKPO/SUHYUP")
    ∷ ("004402312", "MOKPO/SUHYUP")
    ∷ ("007600129", "MOLLENDO RADIO")
    ∷ ("005741010", "MONG CAI RADIO")
    ∷ ("002633060", "MONTE FIGO")
    ∷ ("002633030", "MONTE FUNCHAL")
    ∷ ("007703870", "MONTEVIDEO ARMADA RADIO")
    ∷ ("006054118", "MOSTAGANEM RADIO")
    ∷ ("005061411", "MRCC AYEYARWADY")
    ∷ ("004194401", "MRCC CHENNAI")
    ∷ ("002275300", "MRCC CORSEN")
    ∷ ("006631008", "MRCC DAKAR")
    ∷ ("002275000", "MRCC ETEL")
    ∷ ("002275010", "MRCC ETEL")
    ∷ ("002130100", "MRCC GEORGIA")
    ∷ ("002275100", "MRCC GRIS-NEZ")
    ∷ ("004773500", "MRCC HONG KONG")
    ∷ ("002275200", "MRCC JOBOURG")
    ∷ ("002275400", "MRCC LA GARDE")
    ∷ ("002630100", "MRCC LISBOA")
    ∷ ("002633040", "MRCC LISBOA")
    ∷ ("004550191", "MRCC MALE")
    ∷ ("004192203", "MRCC MUMBAI")
    ∷ ("005401000", "MRCC NOUMEA")
    ∷ ("005461000", "MRCC PAPEETE")
    ∷ ("002040100", "MRCC PONTA DELGADA")
    ∷ ("004194409", "MRCC PORT BLAIR")
    ∷ ("006601000", "MRCC REUNION")
    ∷ ("002470010", "MRCC ROMA")
    ∷ ("002301000", "MRCC TURKU")
    ∷ ("002050480", "MRCC-OOSTENDE RADIO")
    ∷ ("002059981", "MRCC-OOSTENDE RADIO")
    ∷ ("002275420", "MRSC AJACCIO")
    ∷ ("002470017", "MRSC ANCONA")
    ∷ ("004192209", "MRSC ANDROTH")
    ∷ ("002470016", "MRSC BARI")
    ∷ ("004192205", "MRSC BEYPORE")
    ∷ ("002470023", "MRSC CAGLIARI")
    ∷ ("004194408", "MRSC CAMPBELL BAY")
    ∷ ("002470021", "MRSC CATANIA")
    ∷ ("004192203", "MRSC DAHANU")
    ∷ ("004192201", "MRSC DAMAN")
    ∷ ("004194407", "MRSC DIGLIPUR")
    ∷ ("004194404", "MRSC FRAZERGANJ")
    ∷ ("002470011", "MRSC GENOVA")
    ∷ ("004192206", "MRSC GOA")
    ∷ ("004194403", "MRSC GOPALPUR")
    ∷ ("004194404", "MRSC HALDIA")
    ∷ ("002302000", "MRSC HELSINKI")
    ∷ ("004194409", "MRSC HUTBAY")
    ∷ ("004192208", "MRSC JAKHAU")
    ∷ ("004194402", "MRSC KAKINADA")
    ∷ ("004194408", "MRSC KAMORTA")
    ∷ ("004194405", "MRSC KARAIKAL")
    ∷ ("004192204", "MRSC KARWAR")
    ∷ ("004192209", "MRSC KAVARATTI")
    ∷ ("004192205", "MRSC KOCHI")
    ∷ ("004194402", "MRSC KRISHNAPATNAM")
    ∷ ("002470012", "MRSC LIVORNO")
    ∷ ("002500100", "MRSC MALIN HEAD RADIO")
    ∷ ("004194406", "MRSC MANDAPAM")
    ∷ ("004194407", "MRSC MAYABUNDAR")
    ∷ ("004192209", "MRSC MINICOY")
    ∷ ("004192207", "MRSC MUNDRA")
    ∷ ("004192203", "MRSC MURUD JANJIRA")
    ∷ ("002470014", "MRSC NAPOLI")
    ∷ ("004192204", "MRSC NEW MANGALORE")
    ∷ ("004194402", "MRSC NIZAMPATNAM")
    ∷ ("004192207", "MRSC OKHA")
    ∷ ("002470022", "MRSC PALERMO")
    ∷ ("004194403", "MRSC PARADIP")
    ∷ ("004192207", "MRSC PIPAVAV")
    ∷ ("004192202", "MRSC PORBANDAR")
    ∷ ("004194401", "MRSC PUDUCHERRY")
    ∷ ("004192203", "MRSC RATNAGIRI")
    ∷ ("002470018", "MRSC RAVENNA")
    ∷ ("002470015", "MRSC REGGIO CALABRIA")
    ∷ ("002470013", "MRSC ROMA")
    ∷ ("002470020", "MRSC TRIESTE")
    ∷ ("004194405", "MRSC TUTICORIN")
    ∷ ("004192210", "MRSC VADINAR")
    ∷ ("002500200", "MRSC VALENTIA RADIO")
    ∷ ("002470019", "MRSC VENEZIA")
    ∷ ("004192207", "MRSC VERAVAL")
    ∷ ("004194402", "MRSC VISHAKHAPATNAM")
    ∷ ("004192205", "MRSC VIZHINJAM")
    ∷ ("005250546", "MUNTOK RADIO")
    ∷ ("002734441", "MURMANSK RADIO 30")
    ∷ ("002734420", "MURMANSK RADIO MRCC")
    ∷ ("005060200", "MYEIK RADIO")
    ∷ ("004310401", "NAGOYA COAST GUARD RADIO")
    ∷ ("002470130", "NAPOLI RADIO")
    ∷ ("002500300", "NATIONAL MARITIME OPERATIONS CENTRE (MRCC DUBLIN)")
    ∷ ("005251505", "NATUNA RADIO")
    ∷ ("006459022", "NCG")
    ∷ ("004224602", "NEKA RADIO")
    ∷ ("005330183", "NENASI")
    ∷ ("002510100", "NESKAUPSTADUR RADIO")
    ∷ ("002442000", "NETHERLANDS COAST GUARD RADIO")
    ∷ ("005742080", "NHA TRANG RADIO")
    ∷ ("004310901", "NIIGATA COAST GUARD RADIO")
    ∷ ("004122400", "NINGBO RADIO")
    ∷ ("003621001", "NORTH POST RADIO STATION")
    ∷ ("002570000", "NORWEGIAN COASTAL RADIO NORTH")
    ∷ ("002570300", "NORWEGIAN COASTAL RADIO, SOUTH")
    ∷ ("002570000", "NORWEGIAN COASTAL RADIO, SOUTH")
    ∷ ("002731223", "NOVAYA ZEMLYA ARKH/NOVAYA ZEMLYA-RADIO")
    ∷ ("002734411", "NOVOROSSIYSK RADIO MRCC/NOVOROSSIYSK-RADIO-SKC")
    ∷ ("004224600", "NOWSHAHR RADIO")
    ∷ ("004225600", "NOWSHAHR RADIO")
    ∷ ("004030000", "OBHUR RADIO")
    ∷ ("002723660", "ODESSA MRCC")
    ∷ ("004311101", "OKINAWA COAST GUARD RADIO")
    ∷ ("002371000", "OLYMPIA RADIO NOC")
    ∷ ("004610013", "OMAN COAST RADIO/A4A20 (MUSCAT)")
    ∷ ("004610014", "OMAN COAST RADIO/A4A21 (SALALAH)")
    ∷ ("004610015", "OMAN COAST RADIO/A4A22 (KHASAB)")
    ∷ ("004610016", "OMAN COAST RADIO/A4A23 (ASHKARAH)")
    ∷ ("006054117", "ORAN RADIO")
    ∷ ("002713000", "OREN RADIO")
    ∷ ("002734426", "ORLAN RADIO")
    ∷ ("007600121", "PAITA RADIO")
    ∷ ("002713000", "PALAMUT RADIO")
    ∷ ("005251507", "PALEMBANG RADIO")
    ∷ ("002470002", "PALERMO RADIO")
    ∷ ("002241024", "PALMA RADIO")
    ∷ ("005250071", "PALOPO RADIO")
    ∷ []
