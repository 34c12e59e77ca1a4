-- ===== src/Stations/Laws.antt =====
-- The table of coast stations against the other part of the program that reads MMSIs, `MMSI`.
use Prim.Native.String.{String}
use ubersdr_dsc.Base.{
  ◌≡◌, refl, arith, Bool, true, false, ◌&&◌, ◌==◌, not, List, [], ◌∷◌, some, length, if◌then◌else◌,
  Bool-cases, inl, inr, subst,
}
use ubersdr_dsc.Base.Text.{Text, codes, text_eq, text_eq_sound, is_empty}
use ubersdr_dsc.Base.Result.{Result, ok, out_of_bounds, out_of_range, overflow}
use ubersdr_dsc.Mmsi.{get_mid, get_country, get_category}
use ubersdr_dsc.Stations.{coast_stations, find_station}

-- A country is found.
abbrev has_country : Text → Bool
has_country mmsi = elim (get_country mmsi) [
  | ok c ↦ not (is_empty c)
  | out_of_bounds ↦ false
  | out_of_range ↦ false
  | overflow ↦ false
]

abbrev is_coast : Text → Bool
is_coast mmsi = length mmsi == 9 && text_eq (get_category mmsi) (codes "Coast") && has_country mmsi

all_coast : List (String × String) → Bool
all_coast [] = true
all_coast ((key, name) ∷ rest) = is_coast (codes key) && all_coast rest

table : all_coast coast_stations ≡ true
unfolding all_coast get_mid get_country get_category
table = refl

found_coast :
    (m : List (String × String)) (mmsi : Text) (name : String)
    → all_coast m ≡ true
    → find_station mmsi m ≡ some name
    → is_coast mmsi ≡ true
unfolding all_coast find_station
found_coast [] mmsi name h e = cc
found_coast ((key, v) ∷ rest) mmsi name h e = elim (Bool-cases (text_eq (codes key) mmsi)) [
  | inl p ↦ subst (λ (t : Text). is_coast t ≡ true) (text_eq_sound (codes key) mmsi p) (first h)
  | inr p ↦
      found_coast rest mmsi name (others h)
        (subst (λ (b : Bool). (if b then some v else find_station mmsi rest) ≡ some name) p e)
]
  where
    first : (is_coast (codes key) && all_coast rest) ≡ true → is_coast (codes key) ≡ true
    first h' = ground arith

    others : (is_coast (codes key) && all_coast rest) ≡ true → all_coast rest ≡ true
    others h' = ground arith

-- An identity with nine digits, of the category of a coast station, and of a known country.
abbrev pub IsCoastStation : Text → Type 0
IsCoastStation mmsi =
    (length mmsi ≡ 9)
    × (get_category mmsi ≡ codes "Coast")
    × ((c : Text) × (get_country mmsi ≡ ok c) × (is_empty c ≡ false))

has_country_lem :
    (mmsi : Text)
    → has_country mmsi ≡ true
    → (c : Text) × (get_country mmsi ≡ ok c) × (is_empty c ≡ false)
has_country_lem mmsi h = go (get_country mmsi) refl
  where
    go :
        (r : Result Text)
        → get_country mmsi ≡ r
        → (c : Text) × (get_country mmsi ≡ ok c) × (is_empty c ≡ false)
    go (ok c) e = (c, e, ground arith)
    go out_of_bounds e = absurd (ground arith)
    go out_of_range e = absurd (ground arith)
    go overflow e = absurd (ground arith)

-- Whatever address has a name in the table of coast stations is an MMSI of nine digits, which
-- `MMSI::getCategory` puts among the coast stations and for which `MMSI::getCountry` has a country.
pub find_station-IsCoastStation :
    (mmsi : Text) (name : String)
    → find_station mmsi coast_stations ≡ some name
    → IsCoastStation mmsi
find_station-IsCoastStation mmsi name e =
    let h : is_coast mmsi ≡ true = found_coast coast_stations mmsi name table e in
    (
      ground arith,
      text_eq_sound (get_category mmsi) (codes "Coast") (ground arith),
      has_country_lem mmsi (ground arith),
    )
