-- ===== src/Message/Digits.antt =====
-- The digits of a message: `symbolsToDigits`, both `formatCoordinates`, `formatAddress` and
-- `checkECC` of src/dsc.cpp.
use ubersdr_dsc.Base.{
  ℕ, zero, suc, ◌+◌, ◌-◌, ◌==◌, ◌!=◌, ltb, leb, if◌then◌else◌, List, [], ◌∷◌, ◌++◌, length,
  get_elem?, take, drop, bit_xor,
}
use ubersdr_dsc.Base.Int.{ℤ, neg, is_nonneg, pos_part}
use ubersdr_dsc.Base.Text.{Text, codes, text_eq, digit, decimal_fuel}
use ubersdr_dsc.Base.Result.{Result, ok, out_of_range, in_bounds, ◌>>=◌}

-- `data[idx]` of a vector.
abbrev pub byte : List ℕ → ℕ → Result ℕ
byte bytes idx = in_bounds (get_elem? bytes idx)

-- `s[i]` of a string: a read at its size gives the closing zero.
abbrev pub char_at : Text → ℕ → Result ℕ
char_at s i = if i == length s then ok 0 else in_bounds (get_elem? s i)

-- `s.substr(from, count)`
abbrev pub substr : Text → ℕ → ℕ → Result Text
substr s from count = if ltb (length s) from then out_of_range else ok (take count (drop from s))

-- `s.substr(from)`
abbrev pub substr_from : Text → ℕ → Result Text
substr_from s from = if ltb (length s) from then out_of_range else ok (drop from s)

-- `%02d` of a byte.
abbrev pub two_digits : ℕ → Text
two_digits n = if ltb n 10 then b'0' ∷ digit n ∷ [] else decimal_fuel 3 n

-- `%d` of an `int` that is not negative.
abbrev pub decimal : ℕ → Text
decimal n = decimal_fuel 10 n

unfoldable pub symbols_to_digits : List ℕ → ℕ → ℕ → Result Text
symbols_to_digits bytes start zero = ok []
symbols_to_digits bytes start (suc n) = do
  symbol ← byte bytes start
  rest ← symbols_to_digits bytes (start + 1) n
  ok (two_digits symbol ++ rest)

-- The degree sign in UTF-8, and a letter.
abbrev pub degree : ℕ → Text
degree letter = 0xc2 ∷ 0xb0 ∷ letter ∷ []

unfoldable pub format_area_corner : ℤ → ℤ → Text
format_area_corner latitude longitude =
    (if is_nonneg latitude
      then decimal (pos_part latitude) ++ degree b'N'
      else decimal (pos_part (neg latitude)) ++ degree b'S')
    ++ b' '
      ∷ (if is_nonneg longitude
          then decimal (pos_part longitude) ++ degree b'E'
          else decimal (pos_part (neg longitude)) ++ degree b'W')

-- The letters of the quadrant of a position.
abbrev pub quadrant_letters : ℕ → Text × Text
quadrant_letters quadrant =
    if quadrant == b'0'
    then (b'N' ∷ [], b'E' ∷ [])
    else if quadrant == b'1'
    then (b'N' ∷ [], b'W' ∷ [])
    else if quadrant == b'2'
    then (b'S' ∷ [], b'E' ∷ [])
    else if quadrant == b'3'
    then (b'S' ∷ [], b'W' ∷ [])
    else ([], [])

-- Degrees and minutes, with the letter of the hemisphere.
abbrev pub degrees_minutes : Text → Text → Text → Text
degrees_minutes degrees minutes letter = degrees ++ 0xc2 ∷ 0xb0 ∷ (minutes ++ codes "'" ++ letter)

unfoldable pub format_known : Text → Result Text
format_known coords = do
  quadrant ← char_at coords 0
  lat_degrees ← substr coords 1 2
  lat_minutes ← substr coords 3 2
  lon_degrees ← substr coords 1 3
  lon_minutes ← substr coords 4 2
  let letters = quadrant_letters quadrant
  ok (
      degrees_minutes lat_degrees lat_minutes letters.0
      ++ b' ' ∷ degrees_minutes lon_degrees lon_minutes letters.1)

unfoldable pub format_coordinates : Text → Result Text
unfolding format_known
format_coordinates coords =
    if text_eq coords (codes "9999999999") then ok (codes "Not available") else format_known coords

-- The first nine digits; a last digit that is not 0 is set off by a dash.
unfoldable pub format_address : Text → Result Text
format_address address = do
  tenth ← if leb 10 (length address) then char_at address 9 else ok b'0'
  head ← substr address 0 9
  last ← if tenth != b'0' then substr address 9 1 else ok []
  ok (if tenth != b'0' then head ++ b'-' ∷ last else head)

-- `m_calculatedECC`: every byte but the first and the last.
unfoldable pub xor_all : ℕ → List ℕ → ℕ
xor_all acc [] = acc
xor_all acc (x ∷ xs) = xor_all (bit_xor acc x) xs

unfoldable pub calculate_ecc : List ℕ → ℕ
unfolding xor_all
calculate_ecc bytes = xor_all 0 (take (length bytes - 2) (drop 1 bytes))
