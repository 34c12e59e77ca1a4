-- ===== src/Pcm/Rice/Runs.antt =====
-- What the bit-list decoder of the Rice code in src/pcm_v4.hpp finds in an accumulator.
use ubersdr_dsc.Base.{
  ℕ, zero, suc, ◌+◌, ◌-◌, ◌*◌, ◌/◌, ◌%◌, ◌^◌, ◌≤◌, ◌<◌, ◌≡◌, refl, ap, ◌∙◌, arith, Bool,
  if◌then◌else◌, ◌==◌, ltb, Bool-cases, inl, inr, List, [], ◌++◌,
}
use ubersdr_dsc.Base.Bits.{mod_double}
use ubersdr_dsc.Pcm.Attempt.{Attempt, done, failed, truncated_remainder}
use ubersdr_dsc.Pcm.Rice.Spec.{bits_low, bit, count_ones, take_bits}
use ubersdr_dsc.Pcm.Rice.Bits.{ones, pow-positive}
use native.Mathlib.Nat.{pow-suc, div-div-eq-div-mul}

div-pow_suc : (a n : ℕ) → a / 2 / 2 ^ n ≡ a / 2 ^ suc n
div-pow_suc a n =
    div-div-eq-div-mul a 2 (2 ^ n) ∙ ap (λ (t : ℕ). a / t) (omega (arith, pow-suc 2 n))

div-pow_add_one : (a n : ℕ) → a / 2 / 2 ^ n ≡ a / 2 ^ (n + 1)
div-pow_add_one a n = div-pow_suc a n ∙ ap (λ (t : ℕ). a / 2 ^ t) (omega arith)

same_rest :
    (p q n m a b : ℕ) (tail : List Bool)
    → p ≡ q
    → n ≡ m
    → a ≡ b
    → ◌≡◌ {A = Attempt (ℕ × List Bool)}
        (done (p, bits_low n a ++ tail))
        (done (q, bits_low m b ++ tail))
same_rest p q n m a b tail e f g = cc

pub count_ones-bits_low :
    (k n a q : ℕ) (tail : List Bool)
    → n ≤ k
    → count_ones q (bits_low n a ++ tail) ≡ (
        if ltb (ones k a) n
        then done (q + ones k a, bits_low (n - (ones k a + 1)) (a / 2 ^ (ones k a + 1)) ++ tail)
        else count_ones (q + n) tail)
unfolding count_ones
count_ones-bits_low k zero a q tail h =
    ground (arith, ap (λ (t : ℕ). count_ones t tail) (plus_none q))
  where
    plus_none : (n : ℕ) → n + 0 ≡ n
    plus_none n = omega arith
count_ones-bits_low zero (suc n) a q tail h = absurd (omega arith)
count_ones-bits_low (suc k) (suc n) a q tail h = elim (Bool-cases (a % 2 == 1)) [
  | inl odd ↦ rw odd (
      ground (
        arith,
        count_ones-bits_low k n (a / 2) (q + 1) tail (omega arith),
        same_rest (q + 1 + ones k (a / 2)) (q + (ones k (a / 2) + 1)) (n - (ones k (a / 2) + 1))
            (suc n - (ones k (a / 2) + 1 + 1)) (a / 2 / 2 ^ (ones k (a / 2) + 1))
            (a / 2 ^ (ones k (a / 2) + 1 + 1)) tail (omega arith) (omega arith)
            (div-pow_add_one a (ones k (a / 2) + 1)),
        ap (λ (t : ℕ). count_ones t tail) (regroup q n),
      ))
  | inr even ↦ rw even (
      ground (
        arith,
        same_rest q (q + 0) n (suc n - 1) (a / 2) (a / 2) tail (omega arith) (omega arith) refl,
      ))
]
  where
    regroup : (x y : ℕ) → x + 1 + y ≡ x + suc y
    regroup x y = omega arith

pub take_bits-bits_low :
    (k n a : ℕ) (tail : List Bool)
    → k ≤ n
    → take_bits k (bits_low n a ++ tail) ≡ done (a % 2 ^ k, bits_low (n - k) (a / 2 ^ k) ++ tail)
unfolding take_bits
take_bits-bits_low zero n a tail h =
    same_rest 0 (a % 1) n (n - 0) a (a / 1) tail (omega arith) (omega arith) (omega arith)
take_bits-bits_low (suc k) zero a tail h = absurd (omega arith)
take_bits-bits_low (suc k) (suc n) a tail h =
    rw (take_bits-bits_low k n (a / 2) tail (omega arith)) (
      same_rest (bit (a % 2 == 1) + 2 * (a / 2 % 2 ^ k)) (a % 2 ^ suc k) (n - k) (suc n - suc k)
        (a / 2 / 2 ^ k) (a / 2 ^ suc k) tail
        (ground (arith, pow-suc 2 k, lowest k, mod_double a (2 ^ k) (pow-positive k))) (omega arith)
        (div-pow_suc a k))
  where
    lowest : (n' : ℕ) → a % 2 ^ suc n' ≡ a % (2 * 2 ^ n')
    lowest n' = ap (λ (t : ℕ). a % t) (omega (arith, pow-suc 2 n'))

pub take_bits_short :
    (k n a : ℕ) → n < k → take_bits k (bits_low n a ++ []) ≡ failed truncated_remainder
unfolding take_bits
take_bits_short zero n a h = absurd (omega arith)
take_bits_short (suc k) zero a h = refl
take_bits_short (suc k) (suc n) a h = rw (take_bits_short k n (a / 2) (omega arith)) refl
