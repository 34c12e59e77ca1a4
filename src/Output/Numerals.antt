-- ===== src/Output/Numerals.antt =====
-- The numbers of src/dsc.cpp in decimal digits are numerals.
use ubersdr_dsc.Base.{
  ℕ, zero, suc, ◌+◌, ◌/◌, ◌==◌, ◌≡◌, refl, ap, sym, subst, Bool-cases, inl, inr, if-true, if-false,
  arith, ltb, Bool, true, false, ◌&&◌, ◌||◌, [], ◌∷◌, ◌++◌,
}
use ubersdr_dsc.Base.Text.{Text, digit, decimal_fuel, is_empty}
use ubersdr_dsc.Base.Int.{ℤ, pos, negsuc}
use ubersdr_dsc.Output.{decimal, decimal_int}
use ubersdr_dsc.Output.Reader.{is_digit}
use ubersdr_dsc.Output.Members.{all_digits, is_unsigned, is_numeral}

all_digits-append :
    (s t : Text) → all_digits s ≡ true → all_digits t ≡ true → all_digits (s ++ t) ≡ true
all_digits-append [] t h k = k
all_digits-append (c ∷ s) t h k = ground (arith, all_digits-append s t)

digit_lem : (n : ℕ) → is_digit (digit n) ≡ true
digit_lem n = ground arith

digits-decimal_fuel : (f n : ℕ) → all_digits (decimal_fuel f n) ≡ true
digits-decimal_fuel zero n = refl
digits-decimal_fuel (suc f) n = elim (Bool-cases (ltb n 10)) [
  | inl last ↦
      subst (λ (t : Text). all_digits t ≡ true) (sym (if-true _ _ (ltb n 10) last))
        (rw (digit_lem n) refl)
  | inr more ↦
      subst (λ (t : Text). all_digits t ≡ true) (sym (if-false _ _ (ltb n 10) more))
        (all_digits-append (decimal_fuel f (n / 10)) (digit n ∷ []) (digits-decimal_fuel f (n / 10))
          (rw (digit_lem n) refl))
]

not_empty : (s : Text) (c : ℕ) → is_empty (s ++ c ∷ []) ≡ false
not_empty [] c = refl
not_empty (d ∷ s) c = refl

some_digit : (f n : ℕ) → is_empty (decimal_fuel (suc f) n) ≡ false
some_digit f n = elim (Bool-cases (ltb n 10)) [
  | inl last ↦ subst (λ (t : Text). is_empty t ≡ false) (sym (if-true _ _ (ltb n 10) last)) refl
  | inr more ↦
      subst (λ (t : Text). is_empty t ≡ false) (sym (if-false _ _ (ltb n 10) more))
        (not_empty (decimal_fuel f (n / 10)) (digit n))
]

unsigned_lem : (t : Text) → is_empty t ≡ false → all_digits t ≡ true → is_unsigned t ≡ true
unsigned_lem [] h k = cc
unsigned_lem (c ∷ s) h k = k

numeral_lem : (t : Text) → is_unsigned t ≡ true → is_numeral t ≡ true
numeral_lem [] h = cc
numeral_lem (c ∷ s) h = ap (λ (b : Bool). b || (c == b'-' && is_unsigned s)) h

unsigned-decimal : (n : ℕ) → is_unsigned (decimal n) ≡ true
unfolding decimal
unsigned-decimal n = unsigned_lem (decimal_fuel 20 n) (some_digit 19 n) (digits-decimal_fuel 20 n)

pub numeral-decimal : (n : ℕ) → is_numeral (decimal n) ≡ true
numeral-decimal n = numeral_lem (decimal n) (unsigned-decimal n)

pub numeral-decimal_int : (n : ℤ) → is_numeral (decimal_int n) ≡ true
unfolding decimal_int
numeral-decimal_int (pos n) = numeral-decimal n
numeral-decimal_int (negsuc n) = unsigned-decimal (n + 1)
