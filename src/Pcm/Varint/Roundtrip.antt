-- ===== src/Pcm/Varint/Roundtrip.antt =====
-- Varints and little-endian words of src/pcm_v4.hpp, written and read back.
use ubersdr_dsc.Base.{
  ℕ, zero, suc, ◌+◌, ◌*◌, ◌/◌, ◌%◌, ◌^◌, ◌≤◌, ◌<◌, ◌≡◌, refl, ap, ◌∙◌, subst, arith, bit_or,
  bit_and, false, ◌&&◌, if◌then◌else◌, ltb, ◌==◌, Bool-cases, inl, inr, some, List, [], ◌∷◌, ◌++◌,
}
use ubersdr_dsc.Base.Bits.{bit_and_mask}
use ubersdr_dsc.Pcm.Varint.{uvarint, read_uvarint}
use ubersdr_dsc.Pcm.Rice.Bits.{bit_or_above}
use native.Mathlib.Nat.{mod-eq_of_lt, mul-le-mul_right}
use native.Mathlib.Numerals.{towards_suc}

-- The bytes of a number, up to `left` of them.
unfoldable pub write_uvarint_fuel : ℕ → ℕ → List ℕ
write_uvarint_fuel zero u = []
write_uvarint_fuel (suc left) u =
    let more = write_uvarint_fuel left (u / 128) in
    if ltb u 128 then u ∷ [] else (u % 128 + 128) ∷ more

unfoldable pub write_uvarint : ℕ → List ℕ
unfolding write_uvarint_fuel
write_uvarint u = write_uvarint_fuel 10 u

seven_more : (n : ℕ) → 2 ^ (n + 7) ≡ 128 * 2 ^ n
seven_more n = simp towards_suc (omega arith)

-- The lowest bits put above those read before.
put_above :
    (x low shift : ℕ)
    → x < 2 ^ shift
    → low * 2 ^ shift < 2 ^ 64
    → bit_or x (low * 2 ^ shift % 2 ^ 64) ≡ x + low * 2 ^ shift
put_above x low shift below fits =
    ap (bit_or x) (mod-eq_of_lt fits) ∙ bit_or_above shift x low below

low_seven : (u : ℕ) → bit_and (u % 128 + 128) 0x7f ≡ u % 128
low_seven u = bit_and_mask 7 (u % 128 + 128) ∙ omega arith

last_small :
    (left shift u : ℕ)
    → shift + 7 * suc left ≡ 70
    → u * 2 ^ shift < 2 ^ 64
    → (left == 0 && ltb 1 u) ≡ false
last_small zero shift u e h =
    let here : shift ≡ 63 = omega arith in
    let small : u * 2 ^ 63 < 2 ^ 64 = subst (λ (n : ℕ). u * 2 ^ n < 2 ^ 64) here h in ground arith
last_small (suc left) shift u e h = ground arith

-- A long number is not at its tenth byte.
more_left :
    (left shift u : ℕ) → shift + 7 * suc left ≡ 70 → 128 ≤ u → u * 2 ^ shift < 2 ^ 64 → 0 < left
more_left zero shift u e large h =
    let here : shift ≡ 63 = omega arith in
    let small : u * 2 ^ 63 < 2 ^ 64 = subst (λ (n : ℕ). u * 2 ^ n < 2 ^ 64) here h in
    absurd (omega arith)
more_left (suc left) shift u e large h = omega arith

-- The seven bits and the rest of a number, in their places.
module _ (x u shift : ℕ) (below : x < 2 ^ shift) (fits : u * 2 ^ shift < 2 ^ 64) where
  split : u * 2 ^ shift ≡ u % 128 * 2 ^ shift + u / 128 * 2 ^ (shift + 7)
  split = omega (
    arith,
    ap (λ (t : ℕ). u / 128 * t) (seven_more shift),
    ap (λ (t : ℕ). t * 2 ^ shift) (parts u),
  )
    where
      parts : (n : ℕ) → n ≡ n % 128 + 128 * (n / 128)
      parts n = omega arith

  low_below : x + u % 128 * 2 ^ shift < 2 ^ (shift + 7)
  low_below = grind (arith, seven_more shift, mul-le-mul_right (2 ^ shift) (at_most u))
    where
      at_most : (n : ℕ) → n % 128 ≤ 127
      at_most n = omega arith

  joined : x + u % 128 * 2 ^ shift + u / 128 * 2 ^ (shift + 7) ≡ x + u * 2 ^ shift
  joined = omega (arith, split)

uvarint-write :
    (left shift x u : ℕ) (rest : List ℕ)
    → shift + 7 * left ≡ 70
    → 0 < left
    → x < 2 ^ shift
    → u * 2 ^ shift < 2 ^ 64
    → uvarint left shift x (write_uvarint_fuel left u ++ rest) ≡ some (x + u * 2 ^ shift, rest)
unfolding uvarint write_uvarint_fuel
uvarint-write zero shift x u rest e some_left below fits = absurd (omega arith)
uvarint-write (suc left) shift x u rest e some_left below fits = elim (Bool-cases (ltb u 128)) [
  | inl one ↦ rw (one, one, last_small left shift u e fits, put_above x u shift below fits) refl
  | inr more ↦
      let large : 128 ≤ u = ground arith in
      let long : ltb (u % 128 + 128) 128 ≡ false = ground arith in
      rw
        (
          more,
          long,
          low_seven u,
          put_above x (u % 128) shift below (omega (arith, split x u shift below fits)),
        )
        (uvarint-write left (shift + 7) (x + u % 128 * 2 ^ shift) (u / 128) rest (omega arith)
            (more_left left shift u e large fits) (low_below x u shift below fits)
            (omega (arith, split x u shift below fits))
          ∙ ap (λ (t : ℕ). some (t, rest)) (joined x u shift below fits))
]

-- Every number of 64 bits, written as a varint, is read back, and what follows it is left.
pub read-write_uvarint :
    (u : ℕ) (rest : List ℕ) → u < 2 ^ 64 → read_uvarint (write_uvarint u ++ rest) ≡ some (u, rest)
unfolding read_uvarint write_uvarint
read-write_uvarint u rest h =
    uvarint-write 10 0 0 u rest (omega arith) (omega arith) (omega arith) (omega arith)
    ∙ ap (λ (t : ℕ). some (t, rest)) (whole u)
  where
    whole : (n : ℕ) → 0 + n * 2 ^ 0 ≡ n
    whole n = omega arith
