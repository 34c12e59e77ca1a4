-- ===== src/Output/Reading.antt =====
-- The reader on strings, numbers and truth values that `toJson` of src/dsc.cpp writes.
use ubersdr_dsc.Base.{
  ℕ, ◌+◌, ◌*◌, ◌/◌, ◌%◌, ◌<◌, ◌==◌, ◌≡◌, refl, ap, sym, ◌∙◌, arith, subst, Bool-cases, inl, inr,
  ==_iff, Bool, true, false, ◌&&◌, ◌||◌, Option, some, [], ◌∷◌, ◌++◌,
}
use mathlib.Core.List.{append_assoc}
use ubersdr_dsc.Base.Text.{Text}
use ubersdr_dsc.Escape.{json_escape, escape_char, hex_escape}
use ubersdr_dsc.Escape.Laws.{plain, escape_char-cases, hex_value_lem}
use ubersdr_dsc.Output.Reader.{
  Value, string, number, boolean, cons, is_digit, read_string, read_digits, read_number, read_value,
  some_digits, as_number, as_string,
}
use ubersdr_dsc.Output.Members.{
  print_value, IsCleanValue, all_digits, is_unsigned, is_numeral, all_plain,
}
use ubersdr_dsc.Output.Shown.{json_escape_plain, and_both}

read_control :
    (c : ℕ) (s : Text)
    → c < 32
    → read_string plain (hex_escape c ++ s) ≡ cons c (read_string plain s)
unfolding read_string
read_control c s h =
    rw (hex_value_lem (c / 16 % 16) (omega arith), hex_value_lem (c % 16) (omega arith))
      (ap (λ (t : ℕ). cons t (read_string plain s)) value)
  where
    value : (0 + c / 16 % 16) * 16 + c % 16 ≡ c
    value = omega arith

read_string-json_escape :
    (s rest : Text) → read_string plain (json_escape s ++ b'"' ∷ rest) ≡ some (s, rest)
unfolding read_string json_escape
read_string-json_escape [] rest = refl
read_string-json_escape (c ∷ s) rest =
    ap (read_string plain) (append_assoc (escape_char c) (json_escape s) (b'"' ∷ rest))
    ∙ escape_char-cases c (λ t. read_string plain (t ++ after) ≡ cons c (read_string plain after))
        (λ l not_u stands. rw (not_u, stands) refl) (read_control c after)
        (λ n34 n92 n32. rw (n92, n34, n32) refl)
    ∙ ap (cons c) (read_string-json_escape s rest)
  where
    after : Text
    after = json_escape s ++ b'"' ∷ rest

-- A key is read as itself.
pub read_key :
    (key rest : Text)
    → all_plain key ≡ true
    → read_string plain (key ++ b'"' ∷ rest) ≡ some (key, rest)
read_key key rest h =
    ap (λ (t : Text). read_string plain (t ++ b'"' ∷ rest)) (sym (json_escape_plain key h))
    ∙ read_string-json_escape key rest

-- After the digits of a number comes a character that is none.
read_digits_lem :
    (t : Text) (c : ℕ) (rest : Text)
    → all_digits t ≡ true
    → is_digit c ≡ false
    → read_digits (t ++ c ∷ rest) ≡ (t, c ∷ rest)
unfolding read_digits
read_digits_lem [] c rest h e = rw e refl
read_digits_lem (d ∷ t) c rest h e =
    rw
      (
        (and_both (is_digit d) (all_digits t) h).0,
        read_digits_lem t c rest (and_both (is_digit d) (all_digits t) h).1 e,
      )
      refl

read_number_lem :
    (t : Text) (c : ℕ) (rest : Text)
    → is_unsigned t ≡ true
    → is_digit c ≡ false
    → read_number (t ++ c ∷ rest) ≡ some (t, c ∷ rest)
unfolding read_number
read_number_lem [] c rest h e = cc
read_number_lem (d ∷ t) c rest h e = ap some_digits (read_digits_lem (d ∷ t) c rest h e)

read_value_digit :
    (d : ℕ) (s : Text) → is_digit d ≡ true → read_value (d ∷ s) ≡ as_number (read_number (d ∷ s))
unfolding read_value
read_value_digit d s h = rw (quote, t, f, minus) refl
  where
    quote : (d == b'"') ≡ false
    quote = ground arith

    t : (d == b't') ≡ false
    t = ground arith

    f : (d == b'f') ≡ false
    f = ground arith

    minus : (d == b'-') ≡ false
    minus = ground arith

read_value_minus : (s : Text) → read_value (b'-' ∷ s) ≡ as_number (cons b'-' (read_number s))
unfolding read_value
read_value_minus s = refl

read_value_number :
    (t : Text) (c : ℕ) (rest : Text)
    → is_numeral t ≡ true
    → is_digit c ≡ false
    → read_value (t ++ c ∷ rest) ≡ some (number t, c ∷ rest)
read_value_number [] c rest h e = cc
read_value_number (d ∷ t) c rest h e = elim (Bool-cases (is_unsigned (d ∷ t))) [
  | inl unsigned ↦
      read_value_digit d (t ++ c ∷ rest) (and_both (is_digit d) (all_digits t) unsigned).0
      ∙ ap as_number (read_number_lem (d ∷ t) c rest unsigned e)
  | inr signed ↦
      negative (subst (λ (b : Bool). (b || (d == b'-' && is_unsigned t)) ≡ true) signed h)
]
  where
    negative :
        (d == b'-' && is_unsigned t) ≡ true
        → read_value (d ∷ (t ++ c ∷ rest)) ≡ some (number (d ∷ t), c ∷ rest)
    negative both =
        subst (λ (k : ℕ). read_value (k ∷ (t ++ c ∷ rest)) ≡ some (number (k ∷ t), c ∷ rest))
          (sym is_minus)
          (read_value_minus (t ++ c ∷ rest)
            ∙ ap (λ (o : Option (Text × Text)). as_number (cons b'-' o))
                (read_number_lem t c rest (and_both (d == b'-') (is_unsigned t) both).1 e))
      where
        is_minus : d ≡ b'-'
        is_minus = (==_iff d b'-').0 (and_both (d == b'-') (is_unsigned t) both).0

pub read_value_lem :
    (v : Value) (c : ℕ) (rest : Text)
    → IsCleanValue v
    → is_digit c ≡ false
    → read_value (print_value v ++ c ∷ rest) ≡ some (v, c ∷ rest)
unfolding read_value
read_value_lem (string s) c rest h e =
    ap (λ (t : Text). as_string (read_string plain t))
      (append_assoc (json_escape s) (b'"' ∷ []) (c ∷ rest))
    ∙ ap as_string (read_string-json_escape s (c ∷ rest))
read_value_lem (number t) c rest h e = read_value_number t c rest h e
read_value_lem (boolean true) c rest h e = refl
read_value_lem (boolean false) c rest h e = refl
