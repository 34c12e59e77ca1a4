-- ===== src/Pcm/Rice/Roundtrip.antt =====
-- The Rice code of src/pcm_v4.hpp written and read back.
use ubersdr_dsc.Base.{
  ℕ, zero, suc, ◌+◌, ◌-◌, ◌*◌, ◌/◌, ◌%◌, ◌^◌, ◌≤◌, ◌<◌, ◌≡◌, refl, ap, ◌∙◌, arith, bit_xor, Bool,
  true, false, ltb, List, [], ◌∷◌, ◌++◌, All, length,
}
use ubersdr_dsc.Base.Int.{ℤ, pos, negsuc}
use ubersdr_dsc.Base.Bits.{bit_xor_step, bit_xor-zero}
use ubersdr_dsc.Pcm.Attempt.{done}
use ubersdr_dsc.Pcm.Arith.{unzigzag, to_int}
use ubersdr_dsc.Pcm.Window.{replicate}
use ubersdr_dsc.Pcm.Rice.{rice_decode}
use ubersdr_dsc.Pcm.Rice.Spec.{
  bits_low, byte_bits, count_ones, read_code, read_codes, zigzag, write_code, write_codes,
}
use ubersdr_dsc.Pcm.Rice.Runs.{take_bits-bits_low}
use ubersdr_dsc.Pcm.Rice.Bits.{pow-positive}
use ubersdr_dsc.Pcm.Rice.Laws.{rice_reference, rice_decode-eq-rice_reference}
use native.Mathlib.Nat.{pow-suc, div-add-mod', mod-eq_of_lt, div-le_self}
use mathlib.Core.List.{append_assoc}

-- `^` with ones is the complement.
pub bit_xor_ones : (k a : ℕ) → a < 2 ^ k → bit_xor a (2 ^ k - 1) ≡ 2 ^ k - 1 - a
bit_xor_ones zero a h = omega (arith, bit_xor-zero a)
bit_xor_ones (suc k) a h =
    let below : (2 ^ suc k - 1) / 2 ≡ 2 ^ k - 1 = omega (arith, pow-suc 2 k, pow-positive k) in
    ground (
      arith,
      bit_xor_step a (2 ^ suc k - 1),
      pow-suc 2 k,
      pow-positive k,
      ap (bit_xor (a / 2)) below,
      bit_xor_ones k (a / 2) (omega (arith, pow-suc 2 k)),
    )

-- The value of a residual's zigzag, from its 32-bit and from its 64-bit word.
abbrev zigzag_word : ℕ → ℕ → ℕ
zigzag_word bits u = bit_xor (u / 2) ((2 ^ bits - u % 2) % 2 ^ bits)

pub unzigzag-zigzag : (e : ℤ) → zigzag e < 2 ^ 32 → unzigzag 32 (zigzag e) ≡ e
unfolding unzigzag zigzag to_int
unzigzag-zigzag (pos n) h =
    let word : zigzag_word 32 (2 * n) ≡ n =
      ap (λ (t : ℕ). bit_xor t ((2 ^ 32 - 2 * n % 2) % 2 ^ 32)) (half n)
      ∙ ap (bit_xor n) (no_mask n)
      ∙ bit_xor-zero n in
    rw word (ground arith)
  where
    half : (m : ℕ) → 2 * m / 2 ≡ m
    half m = omega arith

    no_mask : (m : ℕ) → (2 ^ 32 - 2 * m % 2) % 2 ^ 32 ≡ 0
    no_mask m = omega arith
unzigzag-zigzag (negsuc n) h =
    let word : zigzag_word 32 (2 * n + 1) ≡ 2 ^ 32 - 1 - n =
      ap (λ (t : ℕ). bit_xor t ((2 ^ 32 - (2 * n + 1) % 2) % 2 ^ 32)) (half n)
      ∙ ap (bit_xor n) (mask n)
      ∙ bit_xor_ones 32 n (omega arith) in
    rw word (ground arith)
  where
    half : (m : ℕ) → (2 * m + 1) / 2 ≡ m
    half m = omega arith

    mask : (m : ℕ) → (2 ^ 32 - (2 * m + 1) % 2) % 2 ^ 32 ≡ 2 ^ 32 - 1
    mask m = omega arith

count_ones-replicate :
    (n q : ℕ) (tail : List Bool)
    → count_ones q (replicate n true ++ false ∷ tail) ≡ done (q + n, tail)
unfolding count_ones
count_ones-replicate zero q tail = ap (λ (t : ℕ). done (t, tail)) (none q)
  where
    none : (m : ℕ) → m ≡ m + 0
    none m = omega arith
count_ones-replicate (suc n) q tail =
    count_ones-replicate n (q + 1) tail ∙ ap (λ (t : ℕ). done (t, tail)) (one_more q n)
  where
    one_more : (a b : ℕ) → a + 1 + b ≡ a + suc b
    one_more a b = omega arith

-- The parts of a word below `2 ^ 32`, put together.
joined : (k u : ℕ) → u < 2 ^ 32 → u / 2 ^ k % 2 ^ 32 * 2 ^ k % 2 ^ 32 + u % 2 ^ k ≡ u
joined k u h =
    let high : u / 2 ^ k % 2 ^ 32 ≡ u / 2 ^ k =
      mod-eq_of_lt (omega (arith, div-le_self u (2 ^ k))) in
    let whole : u / 2 ^ k * 2 ^ k % 2 ^ 32 ≡ u / 2 ^ k * 2 ^ k =
      mod-eq_of_lt (omega (arith, div-add-mod' u (2 ^ k))) in
    ap (λ (t : ℕ). t * 2 ^ k % 2 ^ 32 + u % 2 ^ k) high
    ∙ ap (λ (t : ℕ). t + u % 2 ^ k) whole
    ∙ div-add-mod' u (2 ^ k)

nothing_left : (k u : ℕ) (tail : List Bool) → bits_low (k - k) (u / 2 ^ k) ++ tail ≡ tail
nothing_left k u tail = ap (λ (n : ℕ). bits_low n (u / 2 ^ k) ++ tail) (none k)
  where
    none : (n : ℕ) → n - n ≡ 0
    none n = omega arith

read-write_code :
    (k : ℕ) (e : ℤ) (tail : List Bool)
    → zigzag e < 2 ^ 32
    → read_code k (write_code k e ++ tail) ≡ done (e, tail)
unfolding read_code write_code
read-write_code k e tail h =
    rw
      (
        append_assoc (replicate (zigzag e / 2 ^ k) true) (false ∷ bits_low k (zigzag e)) tail,
        count_ones-replicate (zigzag e / 2 ^ k) 0 (bits_low k (zigzag e) ++ tail),
        take_bits-bits_low k k (zigzag e) tail (omega arith),
        nothing_left k (zigzag e) tail,
        none_before (zigzag e / 2 ^ k),
        joined k (zigzag e) h,
        unzigzag-zigzag e h,
      )
      refl
  where
    none_before : (n : ℕ) → 0 + n ≡ n
    none_before n = omega arith

read-write_codes :
    (k : ℕ) (es : List ℤ) (tail : List Bool)
    → All (λ e. zigzag e < 2 ^ 32) es
    → read_codes k (length es) (write_codes k es ++ tail) ≡ done es
unfolding read_codes write_codes
read-write_codes k [] tail small = refl
read-write_codes k (e ∷ es) tail small =
    rw
      (
        append_assoc (write_code k e) (write_codes k es) tail,
        read-write_code k e (write_codes k es ++ tail) small.0,
        read-write_codes k es tail small.1,
      )
      refl

-- Residuals of `int32_t` coded with a parameter `k` of at most 30 come back: a body of `k` and of
-- bytes whose bits begin with the residuals' codes decodes to exactly these residuals, whatever
-- bits follow.
pub rice_decode-write_codes :
    (k : ℕ) (bytes : List ℕ) (es : List ℤ) (padding : List Bool)
    → k ≤ 30
    → All (λ b. b < 256) bytes
    → All (λ e. zigzag e < 2 ^ 32) es
    → byte_bits bytes ≡ write_codes k es ++ padding
    → rice_decode (k ∷ bytes) (length es) ≡ done es
unfolding rice_reference
rice_decode-write_codes k bytes es padding small are_bytes fit coded =
    let valid : ltb 30 k ≡ false = ground arith in
    rice_decode-eq-rice_reference (k ∷ bytes) (length es) (omega arith, are_bytes)
    ∙ rw (valid, coded) (read-write_codes k es padding fit)
