-- ===== src/Escape/Laws.antt =====
-- `jsonEscape` of src/dsc.cpp against a reader of JSON strings.
use ubersdr_dsc.Base.{
  ℕ, zero, suc, ◌+◌, ◌-◌, ◌*◌, ◌/◌, ◌%◌, ◌<◌, ◌==◌, ◌≡◌, refl, arith, ◌∙◌, ap, ltb, leb,
  if◌then◌else◌, Bool, true, false, ◌&&◌, ◌||◌, [], ◌∷◌, ◌++◌, Option, none, some, ltb→lt,
}
use ubersdr_dsc.Base.Text.{Text}
use ubersdr_dsc.Escape.{escape_char, hex_digit, hex_escape, json_escape}

-- Where the reader is: between characters, after a backslash, or at a digit of `\u`, with the number
-- of digits after it and the value of those before.
pub data Place : Type 0 where
  plain escaped : Place
  digit_of : ℕ → ℕ → Place

abbrev cons : ℕ → Option Text → Option Text
cons c none = none
cons c (some s) = some (c ∷ s)

abbrev pub hex_value : ℕ → Option ℕ
hex_value c =
    if leb b'0' c && leb c b'9'
    then some (c - b'0')
    else if leb b'a' c && leb c b'f'
    then some (c - b'a' + 10)
    else none

abbrev pub short_escape : ℕ → Option ℕ
short_escape c =
    if c == b'"'
    then some b'"'
    else if c == b'\\'
    then some b'\\'
    else if c == b'b'
    then some 8
    else if c == b'f'
    then some 12
    else if c == b'n'
    then some 10
    else if c == b'r'
    then some 13
    else if c == b't'
    then some 9
    else none

abbrev cons? : Option ℕ → Option Text → Option Text
cons? none s = none
cons? (some c) s = cons c s

abbrev at_digit : (ℕ → Option Text) → Option ℕ → Option Text
at_digit next none = none
at_digit next (some d) = next d

-- What a JSON reader takes the inside of a string for; a quote and a control character are refused.
pub unescape : Place → Text → Option Text
unescape plain [] = some []
unescape escaped [] = none
unescape (digit_of k acc) [] = none
unescape plain (c ∷ s) =
    let after = unescape escaped s in
    let rest = cons c (unescape plain s) in
    if c == b'\\' then after else if c == b'"' || ltb c 0x20 then none else rest
unescape escaped (c ∷ s) =
    let number = unescape (digit_of 3 0) s in
    let rest = unescape plain s in if c == b'u' then number else cons? (short_escape c) rest
unescape (digit_of zero acc) (c ∷ s) =
    at_digit (λ d. cons (acc * 16 + d) (unescape plain s)) (hex_value c)
unescape (digit_of (suc k) acc) (c ∷ s) =
    at_digit (λ d. unescape (digit_of k (acc * 16 + d)) s) (hex_value c)

pub hex_value_lem : (n : ℕ) → n < 16 → hex_value (hex_digit n) ≡ some n
hex_value_lem n h = ground arith

control :
    (c : ℕ) (s : Text) → c < 32 → unescape plain (hex_escape c ++ s) ≡ cons c (unescape plain s)
unfolding unescape
control c s h =
    rw (hex_value_lem (c / 16 % 16) (omega arith), hex_value_lem (c % 16) (omega arith))
      (ap (λ (t : ℕ). cons t (unescape plain s)) value)
  where
    value : (0 + c / 16 % 16) * 16 + c % 16 ≡ c
    value = omega arith

split_if :
    (b : Bool) (x y : Text) (P : Text → Type 0)
    → (b ≡ true → P x)
    → (b ≡ false → P y)
    → P (if b then x else y)
split_if true x y P h k = h refl
split_if false x y P h k = k refl

-- The three forms of an escaped character: a backslash and a letter that stands for it, the digits
-- of a control character, and the character itself.
pub escape_char-cases :
    (c : ℕ) (P : Text → Type 0)
    → ((l : ℕ) → (l == b'u') ≡ false → short_escape l ≡ some c → P (b'\\' ∷ l ∷ []))
    → (c < 32 → P (hex_escape c))
    → ((c == b'"') ≡ false → (c == b'\\') ≡ false → ltb c 0x20 ≡ false → P (c ∷ []))
    → P (escape_char c)
escape_char-cases c P letter digits itself =
    split_if (c == b'"') _ _ P (special b'"' b'"' refl refl) λ n34.
      split_if (c == b'\\') _ _ P (special b'\\' b'\\' refl refl) λ n92.
        split_if (c == 8) _ _ P (special 8 b'b' refl refl) λ n8.
          split_if (c == 12) _ _ P (special 12 b'f' refl refl) λ n12.
            split_if (c == 10) _ _ P (special 10 b'n' refl refl) λ n10.
              split_if (c == 13) _ _ P (special 13 b'r' refl refl) λ n13.
                split_if (c == 9) _ _ P (special 9 b't' refl refl) λ n9.
                  split_if (ltb c 0x20) _ _ P (λ e. digits (ltb→lt c 32 e))
                    λ n32. itself n34 n92 n32
  where
    special :
        (k l : ℕ)
        → (l == b'u') ≡ false
        → short_escape l ≡ some k
        → (c == k) ≡ true
        → P (b'\\' ∷ l ∷ [])
    special k l not_u stands e = letter l not_u (stands ∙ ap some same)
      where
        same : k ≡ c
        same = ground arith

unescape-escape_char :
    (c : ℕ) (s : Text) → unescape plain (escape_char c ++ s) ≡ cons c (unescape plain s)
unfolding unescape
unescape-escape_char c s =
    escape_char-cases c (λ t. unescape plain (t ++ s) ≡ cons c (unescape plain s))
      (λ l not_u stands. rw (not_u, stands) refl) (control c s)
      λ n34 n92 n32. rw (n92, n34, n32) refl

-- A reader of JSON strings, which refuses quotes and control characters, takes what `jsonEscape`
-- writes for the text that it was given, whatever its bytes.
pub unescape-json_escape : (s : Text) → unescape plain (json_escape s) ≡ some s
unfolding unescape json_escape
unescape-json_escape [] = refl
unescape-json_escape (c ∷ s) =
    unescape-escape_char c (json_escape s) ∙ ap (cons c) (unescape-json_escape s)
