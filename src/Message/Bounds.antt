-- ===== src/Message/Bounds.antt =====
-- What the reads of `DSCMessage::decode` in src/dsc.cpp need of the size of a message, as rules for
-- the results that they are composed of.
use ubersdr_dsc.Base.{
  ℕ, zero, suc, ◌+◌, ◌*◌, ◌/◌, ◌≤◌, ◌<◌, ◌==◌, ◌≡◌, refl, arith, ltb, if◌then◌else◌, Bool, true,
  false, List, [], ◌∷◌, length, length-append, get_elem?, get_elem?_in_range, get_elem?_beyond,
  Bool-cases, inl, inr, ltb→lt, some,
}
use ubersdr_dsc.Base.Text.{Text, digit, decimal_fuel}
use ubersdr_dsc.Base.Result.{Result, ok, out_of_bounds, out_of_range, overflow, ◌>>=◌}
use ubersdr_dsc.Message.Digits.{byte, char_at, substr, substr_from, symbols_to_digits, two_digits}

-- What a run gives is as `P` says, and it leaves an array or a string only where `F` holds.
abbrev pub Good {ℓ} : {A : Type ℓ} → Type 0 → (A → Type 0) → Result A → Type 0
Good F P (ok a) = P a
Good F P out_of_bounds = F
Good F P out_of_range = F
Good F P overflow = Unit

pub Good-bind {ℓ κ} :
    {A : Type ℓ} {B : Type κ} (F : Type 0) (P : A → Type 0) (Q : B → Type 0) (r : Result A)
    (f : A → Result B)
    → Good F P r
    → ((a : A) → P a → Good F Q (f a))
    → Good F Q (r >>= f)
Good-bind F P Q (ok a) f h k = k a h
Good-bind F P Q out_of_bounds f h k = h
Good-bind F P Q out_of_range f h k = h
Good-bind F P Q overflow f h k = h

-- Where a failure is allowed, any run will do.
pub Good-any {ℓ} : {A : Type ℓ} (F : Type 0) (r : Result A) → F → Good F (λ a. Unit) r
Good-any F (ok a) h = tt
Good-any F out_of_bounds h = h
Good-any F out_of_range h = h
Good-any F overflow h = tt

pub Good-weaken {ℓ} :
    {A : Type ℓ} (F : Type 0) (P Q : A → Type 0) (r : Result A)
    → Good F P r
    → ((a : A) → P a → Q a)
    → Good F Q r
Good-weaken F P Q (ok a) h k = k a h
Good-weaken F P Q out_of_bounds h k = h
Good-weaken F P Q out_of_range h k = h
Good-weaken F P Q overflow h k = h

pub Good-if {ℓ} :
    {A : Type ℓ} (F : Type 0) (P : A → Type 0) (b : Bool) (x y : Result A)
    → (b ≡ true → Good F P x)
    → (b ≡ false → Good F P y)
    → Good F P (if b then x else y)
Good-if F P true x y h k = h refl
Good-if F P false x y h k = k refl

decimal_fuel-nonempty : (f n : ℕ) → 1 ≤ length (decimal_fuel (suc f) n)
decimal_fuel-nonempty f n = ground (arith, length-append (decimal_fuel f (n / 10)) (digit n ∷ []))

pub two_digits-long : (x : ℕ) → 2 ≤ length (two_digits x)
two_digits-long x = ground (
  arith,
  length-append (decimal_fuel 2 (x / 10)) (digit x ∷ []),
  decimal_fuel-nonempty 1 (x / 10),
)

module _ (F : Type 0) (bytes : List ℕ) where
  pub byte-Good :
      (i : ℕ)
      → (length bytes ≤ i → F)
      → Good F (λ x. (i < length bytes) × (get_elem? bytes i ≡ some x)) (byte bytes i)
  byte-Good i h = elim (Bool-cases (ltb i (length bytes))) [
    | inl p ↦
        let (x, e) = get_elem?_in_range bytes i (ltb→lt i (length bytes) p) in
        rw e (ltb→lt i (length bytes) p, refl)
    | inr p ↦ rw (get_elem?_beyond bytes i (ground arith)) (h (ground arith))
  ]

  -- Each symbol has two digits or more.
  pub digits-Good :
      (k start : ℕ)
      → (length bytes < start + k → F)
      → Good F
          (λ (s : Text). (2 * k ≤ length s) × (0 < k → start + k ≤ length bytes))
          (symbols_to_digits bytes start k)
  unfolding symbols_to_digits
  digits-Good zero start h = ground arith
  digits-Good (suc k) start h =
      Good-bind _ _ _ (byte bytes start) _ (byte-Good start λ p. h (omega arith)) λ x p.
        Good-bind _ _ _ (symbols_to_digits bytes (start + 1) k) _
          (digits-Good k (start + 1) (λ q. h (omega arith)))
          λ s q. (omega (arith, length-append (two_digits x) s, two_digits-long x), ground arith)

-- Reads within a string.
module _ (F : Type 0) where
  pub char_at-Good : (s : Text) (i : ℕ) → i ≤ length s → Good F (λ c. Unit) (char_at s i)
  char_at-Good s i h = elim (Bool-cases (i == length s)) [
    | inl p ↦ rw p tt
    | inr p ↦ let (x, e) = get_elem?_in_range s i (ground arith) in rw (p, e) tt
  ]

  pub substr-Good :
      (s : Text) (from count : ℕ) → from ≤ length s → Good F (λ t. Unit) (substr s from count)
  substr-Good s from count h = ground arith

  pub substr_from-Good :
      (s : Text) (from : ℕ) → from ≤ length s → Good F (λ t. Unit) (substr_from s from)
  substr_from-Good s from h = ground arith
