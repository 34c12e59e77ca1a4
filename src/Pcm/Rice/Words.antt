-- ===== src/Pcm/Rice/Words.antt =====
-- The words of the Rice decoder in src/pcm_v4.hpp: powers of two, the parts of a code's value.
use ubersdr_dsc.Base.{
  ℕ, zero, suc, ◌+◌, ◌-◌, ◌*◌, ◌/◌, ◌%◌, ◌^◌, ◌≤◌, ◌<◌, ◌≡◌, ap, sym, ◌∙◌, arith, bit_or, bit_and,
}
use ubersdr_dsc.Base.Bits.{bit_or_step, bit_or-zero, bit_and_mask}
use ubersdr_dsc.Pcm.Rice.Bits.{pow-positive, doubled}
use native.Mathlib.Nat.{
  pow-suc, mul-add-mod_self_left, mod-eq_of_lt, mod-lt, mul-lt-mul_of_pos_right, div-add-mod,
  div-lt_iff_lt-mul,
}

pub pow_split : (n m : ℕ) → m ≤ n → 2 ^ n ≡ 2 ^ (n - m) * 2 ^ m
pow_split n zero h = grind (arith, minus_none n)
  where
    minus_none : (k : ℕ) → 2 ^ (k - 0) ≡ 2 ^ k
    minus_none k = ap (λ (t : ℕ). 2 ^ t) (omega arith)
pow_split zero (suc m) h = absurd (omega arith)
pow_split (suc n) (suc m) h = grind (
  arith,
  pow-suc 2 n,
  pow-suc 2 m,
  pow_split n m (omega arith),
  ap (λ (t : ℕ). 2 ^ t) (both_less n m),
)
  where
    both_less : (a b : ℕ) → suc a - suc b ≡ a - b
    both_less a b = omega arith

pub div-lt_pow : (n m a : ℕ) → m ≤ n → a < 2 ^ n → a / 2 ^ m < 2 ^ (n - m)
div-lt_pow n m a h k =
    (div-lt_iff_lt-mul {k = 2 ^ m} {x = a} {y = 2 ^ (n - m)} (pow-positive m)).1
      (omega (arith, pow_split n m h))

-- Bits below a shifted word are added by `|`.
pub bit_or_below : (n b a : ℕ) → a < 2 ^ n → bit_or (b * 2 ^ n) a ≡ b * 2 ^ n + a
bit_or_below zero b a h =
    let none : a ≡ 0 = omega arith in
    ap (bit_or (b * 2 ^ zero)) none ∙ bit_or-zero (b * 2 ^ zero) ∙ omega arith
bit_or_below (suc n) b a h =
    let even : b * 2 ^ suc n / 2 ≡ b * 2 ^ n = omega (arith, doubled b n) in
    ground (
      arith,
      bit_or_step (b * 2 ^ suc n) a,
      doubled b n,
      ap (λ (t : ℕ). bit_or t (a / 2)) even,
      bit_or_below n b (a / 2) (omega (arith, pow-suc 2 n)),
    )

scaled-mod : (x y p : ℕ) → 0 < y → 0 < p → x * p % (y * p) ≡ x % y * p
scaled-mod x y p h k =
    ap (λ (t : ℕ). t % (y * p)) parts
    ∙ mul-add-mod_self_left (y * p) (x / y) (x % y * p)
    ∙ mod-eq_of_lt (mul-lt-mul_of_pos_right {k = p} (mod-lt x h) k)
  where
    parts : x * p ≡ y * p * (x / y) + x % y * p
    parts = grind (arith, ap (λ (t : ℕ). t * p) (div-add-mod x y))

-- The two parts of a code's value lie side by side.
pub value_parts :
    (k q a : ℕ)
    → k ≤ 30
    → bit_or (q * 2 ^ k % 2 ^ 32) (bit_and a (2 ^ k - 1)) ≡ q * 2 ^ k % 2 ^ 32 + a % 2 ^ k
value_parts k q a h =
    let high : q * 2 ^ k % 2 ^ 32 ≡ q % 2 ^ (32 - k) * 2 ^ k =
      ap (λ (t : ℕ). q * 2 ^ k % t) (pow_split 32 k (omega arith))
      ∙ scaled-mod q (2 ^ (32 - k)) (2 ^ k) (pow-positive (32 - k)) (pow-positive k) in
    ap (bit_or (q * 2 ^ k % 2 ^ 32)) (bit_and_mask k a)
    ∙ ap (λ (t : ℕ). bit_or t (a % 2 ^ k)) high
    ∙ bit_or_below k (q % 2 ^ (32 - k)) (a % 2 ^ k) (mod-lt a (pow-positive k))
    ∙ ap (λ (t : ℕ). t + a % 2 ^ k) (sym high)
