-- ===== src/Message/Ecc.antt =====
-- The check symbol of a message: `checkECC` of src/dsc.cpp.
use ubersdr_dsc.Base.{
  ℕ, suc, ◌-◌, ◌≡◌, ◌≢◌, refl, sym, ap, ◌∙◌, arith, List, [], ◌∷◌, ◌++◌, length, length-append,
  take, bit_xor,
}
use ubersdr_dsc.Base.Bits.{bit_xor_comm, bit_xor_assoc, bit_xor_self, bit_xor-zero, zero-bit_xor}
use ubersdr_dsc.Message.Digits.{calculate_ecc, xor_all}

xor_all_from : (acc : ℕ) (xs : List ℕ) → xor_all acc xs ≡ bit_xor acc (xor_all 0 xs)
unfolding xor_all
xor_all_from acc [] = sym (bit_xor-zero acc)
xor_all_from acc (x ∷ xs) =
    xor_all_from (bit_xor acc x) xs
    ∙ bit_xor_assoc acc x (xor_all 0 xs)
    ∙ ap (bit_xor acc)
        (sym (xor_all_from x xs) ∙ ap (λ (t : ℕ). xor_all t xs) (sym (zero-bit_xor x)))

xor_all-append :
    (acc : ℕ) (xs ys : List ℕ) → xor_all acc (xs ++ ys) ≡ bit_xor (xor_all acc xs) (xor_all 0 ys)
unfolding xor_all
xor_all-append acc [] ys = xor_all_from acc ys
xor_all-append acc (x ∷ xs) ys = xor_all-append (bit_xor acc x) xs ys

take_all : (xs ys : List ℕ) → take (length xs) (xs ++ ys) ≡ xs
take_all [] ys = refl
take_all (x ∷ xs) ys = ap (λ (t : List ℕ). x ∷ t) (take_all xs ys)

-- The first byte and the last are not part of it.
calculate_ecc-framed : (a z : ℕ) (xs : List ℕ) → calculate_ecc (a ∷ (xs ++ z ∷ [])) ≡ xor_all 0 xs
unfolding calculate_ecc
calculate_ecc-framed a z xs =
    ap (λ (k : ℕ). xor_all 0 (take k (xs ++ z ∷ []))) size ∙ ap (xor_all 0) (take_all xs (z ∷ []))
  where
    size : suc (length (xs ++ z ∷ [])) - 2 ≡ length xs
    size = omega (arith, length-append xs (z ∷ []))

cancel_left : (a b c : ℕ) → bit_xor a b ≡ bit_xor a c → b ≡ c
cancel_left a b c e = sym (undo b) ∙ ap (bit_xor a) e ∙ undo c
  where
    undo : (t : ℕ) → bit_xor a (bit_xor a t) ≡ t
    undo t =
        sym (bit_xor_assoc a a t) ∙ ap (λ (u : ℕ). bit_xor u t) (bit_xor_self a) ∙ zero-bit_xor t

-- One wrong byte is detected: of two messages that differ in one byte between the first and the
-- last, the check symbol fits one at most.
pub one_wrong_byte_detected :
    (a z x y : ℕ) (before after : List ℕ)
    → x ≢ y
    → calculate_ecc (a ∷ ((before ++ x ∷ after) ++ z ∷ [])) ≡ z
    → calculate_ecc (a ∷ ((before ++ y ∷ after) ++ z ∷ [])) ≢ z
unfolding xor_all
one_wrong_byte_detected a z x y before after wrong e e' = wrong (recovered (sides ∙ sym sides'))
  where
    sides : bit_xor (xor_all 0 before) (xor_all 0 (x ∷ after)) ≡ z
    sides =
        sym (xor_all-append 0 before (x ∷ after))
        ∙ sym (calculate_ecc-framed a z (before ++ x ∷ after))
        ∙ e

    sides' : bit_xor (xor_all 0 before) (xor_all 0 (y ∷ after)) ≡ z
    sides' =
        sym (xor_all-append 0 before (y ∷ after))
        ∙ sym (calculate_ecc-framed a z (before ++ y ∷ after))
        ∙ e'

    split : (t : ℕ) → xor_all 0 (t ∷ after) ≡ bit_xor (xor_all 0 after) t
    split t =
        ap (λ (u : ℕ). xor_all u after) (zero-bit_xor t)
        ∙ xor_all_from t after
        ∙ bit_xor_comm t (xor_all 0 after)

    recovered :
        bit_xor (xor_all 0 before) (xor_all 0 (x ∷ after))
          ≡ bit_xor (xor_all 0 before) (xor_all 0 (y ∷ after))
        → x ≡ y
    recovered s =
        cancel_left (xor_all 0 after) x y
          (sym (split x) ∙ cancel_left (xor_all 0 before) _ _ s ∙ split y)
