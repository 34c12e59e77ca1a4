-- ===== src/Pcm/Rice/Bits.antt =====
-- The accumulator of the Rice decoder in src/pcm_v4.hpp as a list of bits.
use ubersdr_dsc.Base.{
  ℕ, zero, suc, ◌+◌, ◌-◌, ◌*◌, ◌/◌, ◌%◌, ◌^◌, ◌≤◌, ◌<◌, ◌≡◌, refl, ap, sym, ◌∙◌, arith, bit_or,
  if◌then◌else◌, ◌==◌, Bool-cases, inl, inr, ◌∷◌, ◌++◌,
}
use ubersdr_dsc.Base.Bits.{bit_or_step, zero-bit_or}
use ubersdr_dsc.Pcm.Arith.{trailing_zeros, trailing_zeros_fuel}
use ubersdr_dsc.Pcm.Rice.Spec.{bits_low}
use native.Mathlib.Nat.{pow-suc, one-le-pow, suc-add}

-- Powers of two.
pub pow-positive : (n : ℕ) → 0 < 2 ^ n
pow-positive n = omega (arith, one-le-pow n 2 (omega arith))

pub doubled : (b n : ℕ) → b * 2 ^ suc n ≡ 2 * (b * 2 ^ n)
doubled b n = grind (arith, pow-suc 2 n)

pub halved : (a b : ℕ) → (a + 2 * b) / 2 ≡ a / 2 + b
halved a b = omega arith

-- Bits above the accumulator's are added by `|`.
pub bit_or_above : (n a b : ℕ) → a < 2 ^ n → bit_or a (b * 2 ^ n) ≡ a + b * 2 ^ n
bit_or_above zero a b h =
    let none : a ≡ 0 = omega arith in
    ap (λ (t : ℕ). bit_or t (b * 2 ^ zero)) none ∙ zero-bit_or (b * 2 ^ zero) ∙ omega arith
bit_or_above (suc n) a b h =
    let even : b * 2 ^ suc n / 2 ≡ b * 2 ^ n = omega (arith, doubled b n) in
    ground (
      arith,
      bit_or_step a (b * 2 ^ suc n),
      doubled b n,
      ap (bit_or (a / 2)) even,
      bit_or_above n (a / 2) b (omega (arith, pow-suc 2 n)),
    )

pub bits_low-append :
    (n m a b : ℕ) → a < 2 ^ n → bits_low (n + m) (a + b * 2 ^ n) ≡ bits_low n a ++ bits_low m b
bits_low-append zero m a b h = rw (none_before m, above a b (omega arith)) refl
  where
    none_before : (k : ℕ) → 0 + k ≡ k
    none_before k = omega arith

    above : (x y : ℕ) → x ≡ 0 → x + y * 1 ≡ y
    above x y e = omega arith
bits_low-append (suc n) m a b h =
    rw (suc-add n m, doubled b n, halved a (b * 2 ^ n), parity a (b * 2 ^ n))
      (ap (λ l. (a % 2 == 1) ∷ l) (bits_low-append n m (a / 2) b (omega (arith, pow-suc 2 n))))
  where
    parity : (x y : ℕ) → (x + 2 * y) % 2 ≡ x % 2
    parity x y = omega arith

-- The number of trailing ones among the lowest `k` bits.
abbrev pub ones : ℕ → ℕ → ℕ
ones zero a = 0
ones (suc k) a = let more = ones k (a / 2) in if a % 2 == 1 then more + 1 else 0

pub ones-le : (k a : ℕ) → ones k a ≤ k
ones-le zero a = omega arith
ones-le (suc k) a = ground (arith, ones-le k (a / 2))

-- Trailing zeros of the complement are trailing ones.
complement : (k a : ℕ) → a < 2 ^ k → trailing_zeros_fuel k (2 ^ k - 1 - a) ≡ ones k a
unfolding trailing_zeros_fuel
complement zero a h = refl
complement (suc k) a h =
    let next : (2 ^ suc k - 1 - a) / 2 ≡ 2 ^ k - 1 - a / 2 = omega (arith, pow-suc 2 k) in
    ground (
      arith,
      pow-suc 2 k,
      ap (trailing_zeros_fuel k) next,
      complement k (a / 2) (omega (arith, pow-suc 2 k)),
    )

all_zeros : (k : ℕ) → trailing_zeros_fuel k 0 ≡ k
unfolding trailing_zeros_fuel
all_zeros zero = refl
all_zeros (suc k) = ground (arith, all_zeros k)

pub trailing_zeros-complement : (a : ℕ) → a < 2 ^ 64 → trailing_zeros (2 ^ 64 - 1 - a) ≡ ones 64 a
unfolding trailing_zeros
trailing_zeros-complement a h = elim (Bool-cases (2 ^ 64 - 1 - a == 0)) [
  | inl full ↦
      let nothing : 0 ≡ 2 ^ 64 - 1 - a = ground arith in
      rw full (sym (all_zeros 64) ∙ ap (trailing_zeros_fuel 64) nothing ∙ complement 64 a h)
  | inr some_zero ↦ rw some_zero (complement 64 a h)
]
