-- ===== src/Stations.antt =====
-- `CoastStations` of src/coast_stations.cpp: the names of the coast stations. The constructor of
-- `std::map` keeps the first of several entries of one key, which is the one that `find_station` finds.
pub mod Part1
pub mod Part2
pub mod Part3
pub mod Part4
pub mod Part5
pub mod Part6
pub mod Laws
use Prim.Native.String.{String}
use ubersdr_dsc.Base.{if◌then◌else◌, Option, none, some, List, [], ◌∷◌, ◌++◌}
use ubersdr_dsc.Base.Text.{Text, codes, text_eq}
use Part1.{stations_1}
use Part2.{stations_2}
use Part3.{stations_3}
use Part4.{stations_4}
use Part5.{stations_5}
use Part6.{stations_6}

abbrev pub coast_stations : List (String × String)
coast_stations = stations_1 ++ stations_2 ++ stations_3 ++ stations_4 ++ stations_5 ++ stations_6

-- `CoastStations.find(mmsi)`
unfoldable pub find_station : Text → List (String × String) → Option String
find_station mmsi [] = none
find_station mmsi ((key, name) ∷ rest) =
    if text_eq (codes key) mmsi then some name else find_station mmsi rest
