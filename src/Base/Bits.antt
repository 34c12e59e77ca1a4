-- ===== src/Base/Bits.antt =====
-- Laws of C's `^`, from the digit recursion of the native operation.
use Prim.Native.Nat.{
  ℕ, zero, suc, ◌+◌, ◌*◌, ◌/◌, ◌%◌, ◌≤◌, ◌<◌, bit_xor, digits, differ, bit_xor-bitwise, bit_or,
  bit_and, bit_or-bitwise, bit_and-bitwise, min, max, ◌-◌, ◌^◌,
}
use mathlib.Core.Path.{◌≡◌, refl, ◌∙◌, ap, sym}
use native.Mathlib.Nat.{
  mul-add-mod_self_left, mod-eq_of_lt, mod-lt, div-add-mod, pow-suc, one-le-pow,
}
use native.Mathlib.Omega.{arith}

differ_bits : (x y : ℕ) → x < 2 → y < 2 → differ x y ≡ (x + y) % 2
differ_bits zero zero h k = refl
differ_bits zero (suc zero) h k = refl
differ_bits zero (suc (suc y)) h k = absurd (omega arith)
differ_bits (suc zero) zero h k = refl
differ_bits (suc zero) (suc zero) h k = refl
differ_bits (suc zero) (suc (suc y)) h k = absurd (omega arith)
differ_bits (suc (suc x)) y h k = absurd (omega arith)

-- The recursion's fuel may be any number that the first argument does not exceed.
module _ (z : ℕ → ℕ) (f : ℕ → ℕ → ℕ) where
  enough_digits : (n m a b : ℕ) → a ≤ n → a ≤ m → digits z f n a b ≡ digits z f m a b
  enough_digits n m zero b p q = no_digits n ∙ sym (no_digits m)
    where
      no_digits : (k : ℕ) → digits z f k zero b ≡ z b
      no_digits zero = refl
      no_digits (suc k) = refl
  enough_digits zero m (suc a) b p q = absurd (omega arith)
  enough_digits (suc n) zero (suc a) b p q = absurd (omega arith)
  enough_digits (suc n) (suc m) (suc a) b p q =
      omega (arith, enough_digits n m (suc a / 2) (b / 2) (omega arith) (omega arith))

pub zero-bit_xor : (b : ℕ) → bit_xor 0 b ≡ b
zero-bit_xor b = bit_xor-bitwise 0 b

-- One equation for the lowest digit.
pub bit_xor_step : (a b : ℕ) → bit_xor a b ≡ bit_xor (a / 2) (b / 2) * 2 + (a % 2 + b % 2) % 2
bit_xor_step zero b = omega (arith, zero-bit_xor b, zero-bit_xor (b / 2))
bit_xor_step (suc a) b = omega (
  arith,
  bit_xor-bitwise (suc a) b,
  bit_xor-bitwise (suc a / 2) (b / 2),
  enough_digits (λ y. y) differ a (suc a / 2) (suc a / 2) (b / 2) (omega arith) (omega arith),
  differ_bits (suc a % 2) (b % 2) (omega arith) (omega arith),
)

xor_comm_fuel : (n a b : ℕ) → a + b ≤ n → bit_xor a b ≡ bit_xor b a
xor_comm_fuel zero zero zero h = refl
xor_comm_fuel zero zero (suc b) h = absurd (omega arith)
xor_comm_fuel zero (suc a) b h = absurd (omega arith)
xor_comm_fuel (suc n) a b h =
    omega (arith, bit_xor_step a b, bit_xor_step b a, xor_comm_fuel n (a / 2) (b / 2) (omega arith))

pub bit_xor_comm : (a b : ℕ) → bit_xor a b ≡ bit_xor b a
bit_xor_comm a b = xor_comm_fuel (a + b) a b (omega arith)

pub bit_xor-zero : (a : ℕ) → bit_xor a 0 ≡ a
bit_xor-zero a = bit_xor_comm a 0 ∙ zero-bit_xor a

xor_self_fuel : (n a : ℕ) → a ≤ n → bit_xor a a ≡ 0
xor_self_fuel n zero h = refl
xor_self_fuel zero (suc a) h = absurd (omega arith)
xor_self_fuel (suc n) (suc a) h =
    omega (arith, bit_xor_step (suc a) (suc a), xor_self_fuel n (suc a / 2) (omega arith))

pub bit_xor_self : (a : ℕ) → bit_xor a a ≡ 0
bit_xor_self a = xor_self_fuel a a (omega arith)

-- The lowest digit and the rest of `a ^ b`.
xor-div : (a b : ℕ) → bit_xor a b / 2 ≡ bit_xor (a / 2) (b / 2)
xor-div a b = omega (arith, bit_xor_step a b)

xor-mod : (a b : ℕ) → bit_xor a b % 2 ≡ (a % 2 + b % 2) % 2
xor-mod a b = omega (arith, bit_xor_step a b)

xor_assoc_fuel : (n a b c : ℕ) → a + b + c ≤ n → bit_xor (bit_xor a b) c ≡ bit_xor a (bit_xor b c)
xor_assoc_fuel zero zero zero zero h = refl
xor_assoc_fuel zero zero zero (suc c) h = absurd (omega arith)
xor_assoc_fuel zero zero (suc b) c h = absurd (omega arith)
xor_assoc_fuel zero (suc a) b c h = absurd (omega arith)
xor_assoc_fuel (suc n) a b c h = omega (
  arith,
  bit_xor_step (bit_xor a b) c,
  bit_xor_step a (bit_xor b c),
  ap (λ (t : ℕ). bit_xor t (c / 2)) (xor-div a b),
  ap (λ (t : ℕ). bit_xor (a / 2) t) (xor-div b c),
  xor-mod a b,
  xor-mod b c,
  xor_assoc_fuel n (a / 2) (b / 2) (c / 2) (omega arith),
)

pub bit_xor_assoc : (a b c : ℕ) → bit_xor (bit_xor a b) c ≡ bit_xor a (bit_xor b c)
bit_xor_assoc a b c = xor_assoc_fuel (a + b + c) a b c (omega arith)

-- What is taken in twice is taken out again.
pub bit_xor_cancel : (a b : ℕ) → bit_xor (bit_xor a b) b ≡ a
bit_xor_cancel a b = bit_xor_assoc a b b ∙ ap (bit_xor a) (bit_xor_self b) ∙ bit_xor-zero a

-- The same for the other two operations, by their larger and their smaller digits.
pub bit_and_step : (x y : ℕ) → bit_and x y ≡ min (x % 2) (y % 2) + 2 * bit_and (x / 2) (y / 2)
bit_and_step (suc x) y = omega (
  arith,
  enough_digits (λ t. 0) min x (suc x / 2) (suc x / 2) (y / 2) (omega arith) (omega arith),
  bit_and-bitwise (suc x / 2) (y / 2),
  bit_and-bitwise (suc x) y,
)
bit_and_step zero y = omega (arith, bit_and-bitwise 0 (y / 2), bit_and-bitwise 0 y)

pub bit_or_step : (x y : ℕ) → bit_or x y ≡ max (x % 2) (y % 2) + 2 * bit_or (x / 2) (y / 2)
bit_or_step (suc x) y = omega (
  arith,
  enough_digits (λ t. t) max x (suc x / 2) (suc x / 2) (y / 2) (omega arith) (omega arith),
  bit_or-bitwise (suc x / 2) (y / 2),
  bit_or-bitwise (suc x) y,
)
bit_or_step zero y = omega (arith, bit_or-bitwise 0 (y / 2), bit_or-bitwise 0 y)

pub zero-bit_or : (b : ℕ) → bit_or 0 b ≡ b
zero-bit_or b = bit_or-bitwise 0 b

bit_or-zero_fuel : (n a : ℕ) → a ≤ n → bit_or a 0 ≡ a
bit_or-zero_fuel n zero h = refl
bit_or-zero_fuel zero (suc a) h = absurd (omega arith)
bit_or-zero_fuel (suc n) (suc a) h =
    omega (arith, bit_or_step (suc a) 0, bit_or-zero_fuel n (suc a / 2) (omega arith))

pub bit_or-zero : (a : ℕ) → bit_or a 0 ≡ a
bit_or-zero a = bit_or-zero_fuel a a (omega arith)

-- A bit shifted in from the right.
pub bit_or_shifted : (x b : ℕ) → b < 2 → bit_or (x * 2) b ≡ x * 2 + b
bit_or_shifted x b h = ground (
  arith,
  bit_or_step (x * 2) b,
  bit_or-zero_fuel x x,
  ap (λ (t : ℕ). bit_or t (b / 2)) (half x),
  ap (bit_or x) (none_left b h),
)
  where
    half : (n : ℕ) → n * 2 / 2 ≡ n
    half n = omega arith

    none_left : (n : ℕ) → n < 2 → n / 2 ≡ 0
    none_left n h' = omega arith

-- Nothing is left under a mask of zeros.
bit_and-zero : (x : ℕ) → bit_and x 0 ≡ 0
bit_and-zero x = below x x (omega arith)
  where
    below : (limit y : ℕ) → y ≤ limit → bit_and y 0 ≡ 0
    below limit zero h = refl
    below (suc limit) (suc y) h =
        omega (arith, below limit (suc y / 2) (omega arith), bit_and_step (suc y) 0)
    below zero (suc y) h = absurd (omega arith)

pub mod_double : (a p : ℕ) → 0 < p → a % (2 * p) ≡ a / 2 % p * 2 + a % 2
mod_double a p h =
    ap (λ (t : ℕ). t % (2 * p)) regrouped
    ∙ mul-add-mod_self_left (2 * p) (a / 2 / p) (a / 2 % p * 2 + a % 2)
    ∙ mod-eq_of_lt (omega (arith, mod-lt (a / 2) h))
  where
    regrouped : a ≡ 2 * p * (a / 2 / p) + (a / 2 % p * 2 + a % 2)
    regrouped = omega (arith, div-add-mod (a / 2) p)

-- A mask of `k` ones takes the remainder by `2 ^ k`.
pub bit_and_mask : (k a : ℕ) → bit_and a (2 ^ k - 1) ≡ a % 2 ^ k
bit_and_mask zero a = omega (arith, bit_and-zero a)
bit_and_mask (suc k) a = ground (
  arith,
  bit_and_step a (2 ^ suc k - 1),
  pow-suc 2 k,
  one-le-pow k 2,
  bit_and_mask k (a / 2),
  mod_double a (2 ^ k),
)
