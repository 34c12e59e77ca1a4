-- ===== src/Escape.antt =====
-- `jsonEscape` of src/dsc.cpp: a text as the inside of a JSON string.
pub mod Laws
use ubersdr_dsc.Base.{ℕ, ◌+◌, ◌-◌, ◌/◌, ◌%◌, ◌==◌, ltb, if◌then◌else◌, List, [], ◌∷◌, ◌++◌}
use ubersdr_dsc.Base.Text.{Text, codes}

-- `%x` of a number below 16.
abbrev pub hex_digit : ℕ → ℕ
hex_digit n = if ltb n 10 then b'0' + n else b'a' + (n - 10)

-- `\u%04x` of a byte.
abbrev pub hex_escape : ℕ → Text
hex_escape c = b'\\' ∷ b'u' ∷ b'0' ∷ b'0' ∷ hex_digit (c / 16 % 16) ∷ hex_digit (c % 16) ∷ []

abbrev pub escape_char : ℕ → Text
escape_char c =
    if c == b'"'
    then b'\\' ∷ b'"' ∷ []
    else if c == b'\\'
    then b'\\' ∷ b'\\' ∷ []
    else if c == 8
    then b'\\' ∷ b'b' ∷ []
    else if c == 12
    then b'\\' ∷ b'f' ∷ []
    else if c == 10
    then b'\\' ∷ b'n' ∷ []
    else if c == 13
    then b'\\' ∷ b'r' ∷ []
    else if c == 9
    then b'\\' ∷ b't' ∷ []
    else if ltb c 0x20
    then hex_escape c
    else c ∷ []

unfoldable pub json_escape : Text → Text
json_escape [] = []
json_escape (c ∷ s) = escape_char c ++ json_escape s
