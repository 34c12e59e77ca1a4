-- ===== src/Output/Reader.antt =====
-- A reader of JSON objects without nesting, for what `toJson` of src/dsc.cpp writes.
use ubersdr_dsc.Base.{
  ℕ, zero, suc, ◌+◌, ◌*◌, ◌==◌, ltb, leb, if◌then◌else◌, Bool, true, false, ◌&&◌, Option, none,
  some, List, [], ◌∷◌, length,
}
use ubersdr_dsc.Base.Text.{Text}
use ubersdr_dsc.Escape.Laws.{Place, plain, escaped, digit_of, hex_value, short_escape}

pub data Value : Type 0 where
  string : Text → Value
  number : Text → Value
  boolean : Bool → Value

abbrev pub Field : Type 0
Field = Text × Value

infixl 5 ◌>>=◌
abbrev pub ◌>>=◌ {ℓ κ} : {A : Type ℓ} {B : Type κ} → Option A → (A → Option B) → Option B
none >>= f = none
some a >>= f = f a

abbrev pub cons : ℕ → Option (Text × Text) → Option (Text × Text)
cons c none = none
cons c (some (s, rest)) = some (c ∷ s, rest)

-- The inside of a string up to its closing quote, and what follows the quote; a control character is
-- refused.
unfoldable pub read_string : Place → Text → Option (Text × Text)
read_string plain [] = none
read_string escaped [] = none
read_string (digit_of k acc) [] = none
read_string plain (c ∷ s) =
    let after = read_string escaped s in
    let rest = cons c (read_string plain s) in
    if c == b'\\'
    then after
    else if c == b'"'
    then some ([], s)
    else if ltb c 0x20
    then none
    else rest
read_string escaped (c ∷ s) =
    let number = read_string (digit_of 3 0) s in
    let rest = read_string plain s in
    if c == b'u' then number else (short_escape c >>= λ d. cons d rest)
read_string (digit_of zero acc) (c ∷ s) =
    hex_value c >>= λ d. cons (acc * 16 + d) (read_string plain s)
read_string (digit_of (suc k) acc) (c ∷ s) =
    hex_value c >>= λ d. read_string (digit_of k (acc * 16 + d)) s

abbrev pub is_digit : ℕ → Bool
is_digit c = leb b'0' c && leb c b'9'

-- The digits that a text starts with, and what follows them.
unfoldable pub read_digits : Text → Text × Text
read_digits [] = ([], [])
read_digits (c ∷ s) =
    let more = read_digits s in if is_digit c then (c ∷ more.0, more.1) else ([], c ∷ s)

abbrev pub some_digits : Text × Text → Option (Text × Text)
some_digits ([], rest) = none
some_digits (d ∷ ds, rest) = some (d ∷ ds, rest)

-- After a sign, or at the start of a number.
unfoldable pub read_number : Text → Option (Text × Text)
unfolding read_digits
read_number t = some_digits (read_digits t)

abbrev pub expect : ℕ → Text → Option Text
expect c [] = none
expect c (d ∷ s) = if c == d then some s else none

unfoldable pub expect_all : Text → Text → Option Text
expect_all [] s = some s
expect_all (c ∷ cs) s = expect c s >>= expect_all cs

abbrev pub as_string : Option (Text × Text) → Option (Value × Text)
as_string none = none
as_string (some (s, rest)) = some (string s, rest)

abbrev pub as_number : Option (Text × Text) → Option (Value × Text)
as_number none = none
as_number (some (s, rest)) = some (number s, rest)

abbrev pub as_boolean : Bool → Option Text → Option (Value × Text)
as_boolean b none = none
as_boolean b (some rest) = some (boolean b, rest)

unfoldable pub read_value : Text → Option (Value × Text)
unfolding read_string read_number expect_all
read_value [] = none
read_value (c ∷ s) =
    if c == b'"'
    then as_string (read_string plain s)
    else if c == b't'
    then as_boolean true (expect_all (b'r' ∷ b'u' ∷ b'e' ∷ []) s)
    else if c == b'f'
    then as_boolean false (expect_all (b'a' ∷ b'l' ∷ b's' ∷ b'e' ∷ []) s)
    else if c == b'-'
    then as_number (cons b'-' (read_number s))
    else as_number (read_number (c ∷ s))

-- A key, a colon and a value.
unfoldable pub read_member : Text → Option (Field × Text)
unfolding read_string read_value
read_member t = do
  s ← expect b'"' t
  key ← read_string plain s
  after ← expect b':' key.1
  value ← read_value after
  some ((key.0, value.0), value.1)

-- What follows a member: the end of the object and of the text, or a comma.
abbrev pub after_member : (Text → Option (List Field)) → Text → Option (List Field)
after_member next [] = none
after_member next (c ∷ []) = if c == b'}' then some [] else none
after_member next (c ∷ d ∷ s) = if c == b',' then next (d ∷ s) else none

-- The members of an object after its brace, up to a number of them.
unfoldable pub read_members : ℕ → Text → Option (List Field)
unfolding read_member
read_members zero t = none
read_members (suc n) t = do
  first ← read_member t
  others ← after_member (read_members n) first.1
  some (first.0 ∷ others)

-- A whole object: a text has fewer members than characters.
unfoldable pub read_object : Text → Option (List Field)
unfolding read_members
read_object t = do s ← expect b'{' t; read_members (length s) s
