-- ===== src/Output.antt =====
-- The names and numbers that `DSCMessage` of src/dsc.cpp prints.
pub mod Lines
pub mod Json
pub mod Reader
pub mod Members
pub mod Shown
pub mod Numerals
pub mod Reading
pub mod Roundtrip
use Prim.Native.String.{String}
use ubersdr_dsc.Base.{
  ℕ, zero, suc, ◌+◌, ◌-◌, ◌/◌, ◌%◌, Bool, true, false, if◌then◌else◌, ltb, Option, none, some, List,
  [], ◌∷◌, ◌++◌,
}
use ubersdr_dsc.Base.Int.{ℤ, pos, negsuc}
use ubersdr_dsc.Base.Text.{Text, codes, decimal_fuel}
use ubersdr_dsc.Message.{Message}
use ubersdr_dsc.Tables.{
  find, format_specifier_strings, format_specifier_short_strings, category_strings,
  category_short_strings, telecommand1_strings, telecommand1_short_strings, telecommand2_strings,
  telecommand2_short_strings, distress_nature_strings, end_of_signal_strings,
  end_of_signal_short_strings,
}

-- `%d` and `%lld` of a number below 10 ^ 20.
unfoldable pub decimal : ℕ → Text
decimal n = decimal_fuel 20 n

unfoldable pub decimal_int : ℤ → Text
unfolding decimal
decimal_int (pos n) = decimal n
decimal_int (negsuc n) = b'-' ∷ decimal (n + 1)

-- A `signed char`, of its bit pattern.
unfoldable pub signed_char : ℕ → ℤ
signed_char n = if ltb (n % 256) 128 then pos (n % 256) else negsuc (255 - n % 256)

short_name : Option String → Text
short_name none = codes "UNK/ERR"
short_name (some s) = codes s

long_name : ℕ → Option String → Text
unfolding decimal
long_name code none = codes "Unknown (" ++ (decimal code ++ codes ")")
long_name code (some s) = codes s

unfoldable pub format_specifier : Bool → Message → Text
unfolding short_name long_name
format_specifier short_string m =
    if short_string
    then short_name (find m.format_specifier format_specifier_short_strings)
    else long_name m.format_specifier (find m.format_specifier format_specifier_strings)

unfoldable pub category : Bool → Message → Text
unfolding short_name long_name
category short_string m =
    if short_string
    then short_name (find m.category category_short_strings)
    else if m.has_category
    then long_name m.category (find m.category category_strings)
    else codes "N/A"

unfoldable pub telecommand1 : Bool → ℕ → Text
unfolding short_name long_name
telecommand1 short_string telecommand =
    if short_string
    then short_name (find telecommand telecommand1_short_strings)
    else long_name telecommand (find telecommand telecommand1_strings)

unfoldable pub telecommand2 : Bool → ℕ → Text
unfolding short_name long_name
telecommand2 short_string telecommand =
    if short_string
    then short_name (find telecommand telecommand2_short_strings)
    else long_name telecommand (find telecommand telecommand2_strings)

unfoldable pub distress_nature : ℕ → Text
unfolding long_name
distress_nature nature = long_name nature (find nature distress_nature_strings)

unfoldable pub end_of_signal : Bool → ℕ → Text
unfolding short_name long_name
end_of_signal short_string eos =
    if short_string
    then short_name (find eos end_of_signal_short_strings)
    else long_name eos (find eos end_of_signal_strings)

-- What an optional statement appends.
abbrev pub when {ℓ} : {A : Type ℓ} → Bool → List A → List A
when b xs = if b then xs else []

-- The loop that puts a separator between the parts.
unfoldable pub join : Text → List Text → Text
join separator [] = []
join separator (s ∷ []) = s
join separator (s ∷ t ∷ rest) = s ++ (separator ++ join separator (t ∷ rest))
