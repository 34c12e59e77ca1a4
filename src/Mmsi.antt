-- ===== src/Mmsi.antt =====
-- `MMSI` of src/mmsi.cpp: the country and the category of a maritime mobile service identity.
-- A `std::map` is an association list; its keys are distinct.
pub mod Countries
pub mod MoreCountries
pub mod Laws
use Prim.Native.String.{String}
use ubersdr_dsc.Base.{
  ℕ, ◌+◌, ◌-◌, ◌*◌, ◌==◌, leb, if◌then◌else◌, Bool, true, false, ◌&&◌, ◌||◌, none, some, List, [],
  ◌∷◌, ◌++◌, get_elem?, take,
}
use ubersdr_dsc.Base.Int.{ℤ, pos, negsuc, neg}
use ubersdr_dsc.Base.Text.{Text, codes, text_eq, is_empty}
use ubersdr_dsc.Base.Result.{Result, ok, ◌>>=◌}
use ubersdr_dsc.Tables.{find}
use ubersdr_dsc.Message.Digits.{char_at, substr}
use Countries.{mid_2xx, mid_3xx}
use MoreCountries.{mid_4xx, mid_5xx, mid_6xx, mid_7xx}

-- `m_mid`
abbrev pub mid : List (ℕ × String)
mid = mid_2xx ++ mid_3xx ++ mid_4xx ++ mid_5xx ++ mid_6xx ++ mid_7xx

-- `mmsi.compare(0, count, start) == 0`, for a `start` of `count` characters.
abbrev pub starts_with : Text → ℕ → String → Bool
starts_with mmsi count start = text_eq (take count mmsi) (codes start)

-- The identification digits after a first character `first`.
abbrev mid_after : Text → ℕ → Result Text
mid_after mmsi first =
    if first == b'0' || first == b'8'
    then substr mmsi 1 3
    else if starts_with mmsi 3 "111"
    then substr mmsi 3 3
    else substr mmsi 0 3

unfoldable pub get_mid : Text → Result Text
get_mid mmsi =
    if starts_with mmsi 2 "00" || starts_with mmsi 2 "99" || starts_with mmsi 2 "98"
    then substr mmsi 2 3
    else char_at mmsi 0 >>= mid_after mmsi

-- `std::atoi`: white space, a sign, and digits.
abbrev is_digit : ℕ → Bool
is_digit c = leb b'0' c && leb c b'9'

abbrev is_space : ℕ → Bool
is_space c = c == b' ' || (leb 9 c && leb c 13)

abbrev atoi_digits : ℕ → Text → ℕ
atoi_digits acc [] = acc
atoi_digits acc (c ∷ s) =
    let rest = atoi_digits (acc * 10 + (c - b'0')) s in if is_digit c then rest else acc

abbrev atoi_signed : Text → ℤ
atoi_signed [] = pos 0
atoi_signed (c ∷ s) =
    if c == b'-'
    then neg (pos (atoi_digits 0 s))
    else if c == b'+'
    then pos (atoi_digits 0 s)
    else pos (atoi_digits 0 (c ∷ s))

unfoldable pub atoi : Text → ℤ
atoi [] = pos 0
atoi (c ∷ s) = let rest = atoi s in if is_space c then rest else atoi_signed (c ∷ s)

-- The country of a number; there is none for a negative one.
abbrev pub country_of : ℤ → Text
country_of (pos n) = elim (find n mid) [ none ↦ [] | some v ↦ codes v ]
country_of (negsuc n) = []

unfoldable pub get_country : Text → Result Text
unfolding atoi find
get_country mmsi = get_mid mmsi >>= λ s. ok (country_of (atoi s))

-- `mmsi.size() > i && mmsi[i] == c`
abbrev pub has_at : Text → ℕ → ℕ → Bool
has_at mmsi i c = elim (get_elem? mmsi i) [ none ↦ false | some x ↦ x == c ]

abbrev aton_category : Text → Text
aton_category mmsi =
    if has_at mmsi 5 b'1'
    then codes "Physical AtoN"
    else if has_at mmsi 5 b'6'
    then codes "Virtual AtoN"
    else if has_at mmsi 5 b'8'
    then codes "Mobile AtoN"
    else codes "AtoN"

abbrev rescue_category : Text → Text
rescue_category mmsi =
    if has_at mmsi 6 b'1'
    then codes "SAR Aircraft"
    else if has_at mmsi 6 b'5'
    then codes "SAR Helicopter"
    else codes "SAR"

abbrev device_category : Text → Text
device_category mmsi =
    if starts_with mmsi 3 "970"
    then codes "SAR"
    else if starts_with mmsi 3 "972"
    then codes "Man overboard"
    else if starts_with mmsi 3 "974"
    then codes "EPIRB"
    else if starts_with mmsi 3 "979"
    then codes "AMRD"
    else if starts_with mmsi 2 "98"
    then codes "Craft with parent ship"
    else if starts_with mmsi 2 "99"
    then aton_category mmsi
    else codes "Unknown"

unfoldable pub get_category : Text → Text
get_category [] = codes "Unknown"
get_category (c ∷ s) =
    let mmsi = c ∷ s in
    if c == b'0'
    then (if starts_with mmsi 2 "00" then codes "Coast" else codes "Group")
    else if c == b'1'
    then rescue_category mmsi
    else if c == b'8'
    then codes "Handheld"
    else if c == b'9'
    then device_category mmsi
    else codes "Ship"
