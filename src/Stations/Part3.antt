-- ===== src/Stations/Part3.antt =====
-- Part 3 of the map `CoastStations` of src/coast_stations.cpp, from MMSI to name.
use Prim.Native.String.{String}
use mathlib.Core.List.{List, [], ◌∷◌}

abbrev pub stations_3 : List (String × String)
stations_3 =
    ("004402004", "INCHEON/SUHYUP")
    ∷ ("002712000", "INEBOLU RADIO")
    ∷ ("003160023", "IQALUIT COAST GUARD RADIO")
    ∷ ("007250020", "IQUIQUE RADIO")
    ∷ ("007600133", "IQUITOS RADIO")
    ∷ ("002510100", "ISAFJOERDUR RADIO")
    ∷ ("002711000", "ISTANBUL TURK RADIO")
    ∷ ("002715000", "IZMIR TURK RADIO")
    ∷ ("005250000", "JAKARTA RADIO / PKX")
    ∷ ("005250086", "JAKARTA RADIO / PKX2")
    ∷ ("005251510", "JAMBI RADIO")
    ∷ ("004225308", "JASK RADIO")
    ∷ ("005250007", "JAYAPURA RADIO / PNK")
    ∷ ("004030000", "JEDDAH RADIO")
    ∷ ("004400701", "JEJU RADIO")
    ∷ ("004400702", "JEJU RADIO")
    ∷ ("004403701", "JEJU RADIO")
    ∷ ("004402701", "JEJU/SUHYUP")
    ∷ ("004402702", "JEJU/SUHYUP")
    ∷ ("004402703", "JEJU/SUHYUP")
    ∷ ("005251583", "JEPARA RADIO")
    ∷ ("002470096", "JESOLO")
    ∷ ("004126620", "JIANGYIN RADIO")
    ∷ ("004030000", "JIZAN RADIO")
    ∷ ("005030001", "JRCC AUSTRALIA")
    ∷ ("003061000", "JRCC CURACAO/DUTCH CARIBBEAN COAST GUARD")
    ∷ ("002653000", "JRCC SWEDEN")
    ∷ ("002760100", "JRCC TALLINN")
    ∷ ("007250130", "JUAN FERNANDEZ RADIO")
    ∷ ("004030000", "JUBAIL RADIO")
    ∷ ("004402602", "JUMOONJIN/SUHYUP")
    ∷ ("004402604", "JUMOONJIN/SUHYUP")
    ∷ ("004311001", "KAGOSHIMA COAST GUARD RADIO")
    ∷ ("005251514", "KALIANGET RADIO")
    ∷ ("002731188", "KAMENNYY C YNAO")
    ∷ ("002731198", "KAMENNYY C YNAO")
    ∷ ("004400602", "KANGNUNG RADIO")
    ∷ ("004400603", "KANGNUNG RADIO")
    ∷ ("004400604", "KANGNUNG RADIO")
    ∷ ("005251582", "KARIMUNJAWA RADIO")
    ∷ ("002711000", "KARTEPE RADIO")
    ∷ ("002711000", "KAYALIDAG RADIO")
    ∷ ("002713000", "KAZAKIN RADIO")
    ∷ ("005330008", "KEMUNING")
    ∷ ("005250019", "KENDARI RADIO / PKF3")
    ∷ ("005251503", "KETAPANG RADIO")
    ∷ ("004030000", "KHAFJI RADIO")
    ∷ ("004224201", "KHARK RADIO")
    ∷ ("004225201", "KHARK RADIO")
    ∷ ("002734429", "KHOLMSK RADIO")
    ∷ ("004225100", "KHOMEINI RADIO")
    ∷ ("004224103", "KHORMUSA RADIO")
    ∷ ("004224101", "KHORRAMSHAHR RADIO")
    ∷ ("004225101", "KHORRAMSHAHR RADIO")
    ∷ ("005743080", "KIEN GIANG RADIO")
    ∷ ("004224303", "KISH RADIO")
    ∷ ("002770330", "KLAIPEDA RESCUE RADIO")
    ∷ ("004310501", "KOBE COAST GUARD RADIO")
    ∷ ("003669899", "KODIAK RADIO")
    ∷ ("005251575", "KOLAKA RADIO")
    ∷ ("006221112", "KOSSEIR RADIO")
    ∷ ("006191000", "KOUAKRO RADIO")
    ∷ ("002734417", "KRASNOE KAL/KALININGRAD RADIO-SKC")
    ∷ ("005330007", "KUALA ROMPIN")
    ∷ ("005251504", "KUALA TANJUNG RADIO")
    ∷ ("005251511", "KUALA TUNGKAL RADIO")
    ∷ ("005251522", "KUMAI RADIO")
    ∷ ("005250010", "KUPANG RADIO / PKK")
    ∷ ("005259991", "KWANDANG RADIO")
    ∷ ("003160022", "LABRADOR COAST GUARD RADIO")
    ∷ ("002470126", "LAMPEDUSA RADIO")
    ∷ ("002241026", "LAS PALMAS RADIO")
    ∷ ("004680011", "LATTAKIA RADIO")
    ∷ ("004224204", "LAVAR RADIO")
    ∷ ("004225204", "LAVAR RADIO")
    ∷ ("003451610", "LAZARO CARDENAS, MICHOACAN RADIO")
    ∷ ("005250022", "LEMBAR RADIO / PKD3")
    ∷ ("004224302", "LENGEH RADIO")
    ∷ ("003160026", "LES ESCOUMINS COAST GUARD RADIO")
    ∷ ("004122300", "LIANYUNGANG RADIO")
    ∷ ("002470127", "LIVORNO RADIO")
    ∷ ("002050480", "LOMBARDSIJDE RADIO")
    ∷ ("002320063", "LONDON COASTGUARD")
    ∷ ("007250120", "LOS VILOS RADIO")
    ∷ ("005330011", "LOWER SERAPI")
    ∷ ("005250005", "LUWUK RADIO")
    ∷ ("005742050", "LY SON RADIO")
    ∷ ("002191000", "LYNGBY RADIO")
    ∷ ("002241022", "MACHICHACO RADIO")
    ∷ ("002712000", "MACKA R/L")
    ∷ ("002241022", "MADRID RADIO")
    ∷ ("002734416", "MAGADAN 4")
    ∷ ("007250380", "MAGALLANES ZONAL RADIO")
    ∷ ("002711000", "MAHYADAG RADIO")
    ∷ ("004310801", "MAIZURU COAST GUARD RADIO")
    ∷ ("005250002", "MAKASSAR RADIO / PKF")
    ∷ ("002734423", "MAKHACHKALA DAG/MAHACHKALA-RADIOCENTR")
    ∷ ("002734489", "MAKHACHKALA DAG/MAHACHKALA-RADIOCENTR")
    ∷ ("002150100", "MALTA RADIO")
    ∷ ("005251529", "MANADO RADIO")
    ∷ ("007100003", "MANAUS-RADIO (VALDIR LEAL)")
    ∷ ("005250023", "MANOKWARI RADIO")
    ∷ ("007354754", "MANTA RADIO")
    ∷ ("003451410", "MANZANILLO, COLIMA RADIO")
    ∷ ("007010003", "MAR DEL PLATA PREFECTURA NAVAL RADIO")
    ∷ ("007010221", "MAR DEL PLATA RADIO")
    ∷ ("002723650", "MARIUPOL RSC")
    ∷ ("002713000", "MARKIZ RADIO")
    ∷ ("005251518", "MAUMERE RADIO")
    ∷ ("006452700", "MAURITIUS RADIO")
    ∷ ("002470128", "MAZARA DEL VALLO RADIO")
    ∷ ("003450810", "MAZATLAN, SINALOA RADIO")
    ∷ ("007250040", "MEJILLONES RADIO")
    ∷ ("005030126", "MELBOURNE (SANDRINGHAM)")
    ∷ ("007250280", "MELINKA RADIO")
    ∷ ("005251518", "MENENG RADIO")
    ∷ ("005250021", "MERAUKE RADIO")
    ∷ ("002470129", "MESSINA RADIO")
    ∷ ("002320017", "MILFORD HAVEN")
    ∷ ("003660003", "MOBILE, ALABAMA RADIO / WLO")
    ∷ ("004310701", "MOJI COAST GUARD RADIO")
    ∷ ("004400304", "MOKPO RADIO")
    ∷ ("004400307", "MOKPO RADIO")
    ∷ ("004400308", "MOKPO RADIO")
    ∷ ("004400309", "MOKPO RADIO")
    ∷ ("004400310", "MOKPO RADIO")
    ∷ ("004403301", "MOKPO RADIO")
    ∷ ("004402301", "MOKPO/SUHYUP")
    ∷ ("004402302", "MOKPO/SUHYUP")
    ∷ ("004402305", "MOKPO/SUHYUP")
    ∷ []
