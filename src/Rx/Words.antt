-- ===== src/Rx/Words.antt =====
-- The shift register of `receiveBit` in src/dsc_rx.cpp.
use ubersdr_dsc.Base.{
  ℕ, zero, suc, ◌+◌, ◌-◌, ◌*◌, ◌/◌, ◌%◌, ◌^◌, ◌≤◌, ◌==◌, ◌≡◌, refl, sym, ap, subst, ◌∙◌, arith,
  Bool, true, false, List, [], ◌∷◌, length, if◌then◌else◌,
}
use ubersdr_dsc.Base.Bits.{bit_or_shifted, mod_double}
use ubersdr_dsc.Rx.{shift_in}
use Prim.Native.Nat.{◌∣◌}
use native.Mathlib.Nat.{
  pow-suc, one-le-pow, div-div-eq-div-mul, mod-mod_of_dvd, dvd_refl, dvd-mul_right_of_dvd, div-one,
  pow-succ',
}

-- The lowest `n` bits of a word, the highest of them first.
abbrev pub bits_of : ℕ → ℕ → List Bool
bits_of zero c = []
bits_of (suc n) c = (c / 2 ^ n % 2 == 1) ∷ bits_of n c

abbrev pub shift_all : ℕ → List Bool → ℕ
shift_all v [] = v
shift_all v (b ∷ rest) = shift_all (shift_in v b) rest

pub length-bits_of : (n c : ℕ) → length (bits_of n c) ≡ n
length-bits_of zero c = refl
length-bits_of (suc n) c = ap suc (length-bits_of n c)

even_mod : (v : ℕ) → v * 2 % 2 ^ 32 ≡ v % 2 ^ 31 * 2
even_mod v = omega arith

shift_in_lem : (v : ℕ) (b : Bool) → shift_in v b ≡ v % 2 ^ 31 * 2 + (if b then 1 else 0)
shift_in_lem v true = rw (even_mod v) (bit_or_shifted (v % 2 ^ 31) 1 (omega arith))
shift_in_lem v false = rw (even_mod v) (bit_or_shifted (v % 2 ^ 31) 0 (omega arith))

bit_value : (x : ℕ) → (if x % 2 == 1 then 1 else 0) ≡ x % 2
bit_value x = ground arith

pow_dvd : (k m n : ℕ) → n ≡ k + m → 2 ^ m ∣ 2 ^ n
pow_dvd zero m n e = subst (λ (t : ℕ). 2 ^ m ∣ 2 ^ t) same (dvd_refl (2 ^ m))
  where
    same : m ≡ n
    same = omega arith
pow_dvd (suc k) m n e =
    subst (λ (t : ℕ). 2 ^ m ∣ t) (sym (pow-suc 2 (k + m)) ∙ ap (λ (t : ℕ). 2 ^ t) next)
      (dvd-mul_right_of_dvd (2 ^ m) (pow_dvd k m (k + m) refl) 2)
  where
    next : suc (k + m) ≡ n
    next = omega arith

-- The register's places below `m`, up to 31, do not feel the cut at 32.
low_places : (m v : ℕ) → m ≤ 31 → v % 2 ^ 31 % 2 ^ m ≡ v % 2 ^ m
low_places m v h = mod-mod_of_dvd (2 ^ m) v (pow_dvd (31 - m) m 31 (omega arith))

-- One more bit of the word `c` in the low places.
grow :
    (m n v c : ℕ)
    → m ≤ 31
    → v % 2 ^ m ≡ c / 2 ^ suc n % 2 ^ m
    → shift_in v (c / 2 ^ n % 2 == 1) % 2 ^ suc m ≡ c / 2 ^ n % 2 ^ suc m
grow m n v c h e = rw (
  pow-succ' 2 m,
  mod_double w (2 ^ m) (one-le-pow m 2 (omega arith)),
  halved,
  odd,
  low_places m v h,
  e,
  mod_double (c / 2 ^ n) (2 ^ m) (one-le-pow m 2 (omega arith)),
  high,
)
  where
    w : ℕ
    w = shift_in v (c / 2 ^ n % 2 == 1)

    w_lem : w ≡ v % 2 ^ 31 * 2 + c / 2 ^ n % 2
    w_lem =
        shift_in_lem v (c / 2 ^ n % 2 == 1)
        ∙ ap (λ (t : ℕ). v % 2 ^ 31 * 2 + t) (bit_value (c / 2 ^ n))

    halved : w / 2 ≡ v % 2 ^ 31
    halved = omega (arith, w_lem)

    odd : w % 2 ≡ c / 2 ^ n % 2
    odd = omega (arith, w_lem)

    high : c / 2 ^ n / 2 ≡ c / 2 ^ suc n
    high = div-div-eq-div-mul c (2 ^ n) 2 ∙ ap (λ (t : ℕ). c / t) (sym (pow-suc 2 n))

shift_all-bits_of_from :
    (n m k v c : ℕ)
    → k ≡ n + m
    → k ≤ 32
    → v % 2 ^ m ≡ c / 2 ^ n % 2 ^ m
    → shift_all v (bits_of n c) % 2 ^ k ≡ c % 2 ^ k
shift_all-bits_of_from zero m k v c d h e =
    subst (λ (t : ℕ). v % 2 ^ t ≡ c % 2 ^ t) same (e ∙ ap (λ (t : ℕ). t % 2 ^ m) (div-one c))
  where
    same : m ≡ k
    same = omega arith
shift_all-bits_of_from (suc n) m k v c d h e =
    shift_all-bits_of_from n (suc m) k _ c (omega arith) h (grow m n v c (omega arith) e)

-- Whatever the register held, `n` bits of a word, up to 32, fill its lowest `n` places with the
-- lowest places of the word.
pub shift_all-bits_of : (n v c : ℕ) → n ≤ 32 → shift_all v (bits_of n c) % 2 ^ n ≡ c % 2 ^ n
shift_all-bits_of n v c h = shift_all-bits_of_from n 0 n v c (omega arith) h (omega arith)
