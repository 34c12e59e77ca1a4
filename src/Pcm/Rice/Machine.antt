-- ===== src/Pcm/Rice/Machine.antt =====
-- The accumulator of the Rice decoder in src/pcm_v4.hpp beside the list of its bits.
use ubersdr_dsc.Base.{
  ℕ, ◌+◌, ◌-◌, ◌*◌, ◌/◌, ◌%◌, ◌^◌, ◌≤◌, ◌<◌, ◌≡◌, refl, ap, sym, ◌∙◌, arith, bit_or, Bool, true,
  false, if◌then◌else◌, leb, Bool-cases, ◌⊎◌, inl, inr, List, [], ◌∷◌, ◌++◌, All, length,
}
use ubersdr_dsc.Pcm.Rice.{Reader, refill, ones_run, after_run}
use ubersdr_dsc.Pcm.Rice.Spec.{bits_low, byte_bits}
use ubersdr_dsc.Pcm.Rice.Bits.{ones, bit_or_above, bits_low-append, trailing_zeros-complement}
use ubersdr_dsc.Pcm.Rice.Words.{div-lt_pow}
use native.Mathlib.Nat.{pow-le-pow_right, mul-le-mul, mod-eq_of_lt, div-eq_of_lt}
use native.Mathlib.Numerals.{towards_suc}
use mathlib.Core.List.{append_assoc}

abbrev pub reader_bits : Reader → List Bool
reader_bits r = bits_low r.nbits r.acc ++ byte_bits r.rest

-- No bits above the accumulator's number of bits, and bytes.
pub record IsReady (r : Reader) : Type 0 where
  pub below : r.acc < 2 ^ r.nbits
  pub few : r.nbits ≤ 64
  pub bytes : All (λ b. b < 256) r.rest

pub pow_mono : (i j : ℕ) → i ≤ j → 2 ^ i ≤ 2 ^ j
pow_mono i j h = pow-le-pow_right (omega arith) h

eight_more : (n : ℕ) → 2 ^ (n + 8) ≡ 256 * 2 ^ n
eight_more n = simp towards_suc (omega arith)

-- One byte above the accumulator's bits.
module _ (acc nbits b : ℕ) (below : acc < 2 ^ nbits) (room : nbits ≤ 56) (byte : b < 256) where
  small_power : 2 ^ nbits ≤ 2 ^ 56
  small_power = pow_mono nbits 56 room

  added : bit_or acc (b * 2 ^ nbits % 2 ^ 64) ≡ acc + b * 2 ^ nbits
  added =
      let byte_le : b ≤ 255 = omega arith in
      let fits : b * 2 ^ nbits < 2 ^ 64 =
        omega (arith, small_power, mul-le-mul byte_le small_power) in
      ap (bit_or acc) (mod-eq_of_lt fits) ∙ bit_or_above nbits acc b below

  added_below : acc + b * 2 ^ nbits < 2 ^ (nbits + 8)
  added_below = grind (arith, eight_more nbits)

-- How full a refill leaves the accumulator.
abbrev pub IsFull : Reader → Type 0
IsFull r = (r.rest ≡ []) ⊎ (57 ≤ r.nbits)

abbrev pub Refilled : Reader → List Bool → Type 0
Refilled r bits = (reader_bits r ≡ bits) × IsReady r × IsFull r

retarget : (r : Reader) (xs ys : List Bool) → Refilled r xs → xs ≡ ys → Refilled r ys
retarget r xs ys h e = (h.0 ∙ e, h.1, h.2)

pub refill_lem :
    (acc nbits : ℕ) (bs : List ℕ)
    → acc < 2 ^ nbits
    → nbits ≤ 64
    → All (λ b. b < 256) bs
    → Refilled (refill acc nbits bs) (bits_low nbits acc ++ byte_bits bs)
unfolding refill
refill_lem acc nbits [] below few bytes =
    (refl, record { below = below; few = few; bytes = tt }, inl refl)
refill_lem acc nbits (b ∷ bs) below few bytes = elim (Bool-cases (leb nbits 56)) [
  | inl room ↦
      rw (room, added acc nbits b below (ground arith) bytes.0)
        (retarget (refill (acc + b * 2 ^ nbits) (nbits + 8) bs)
          (bits_low (nbits + 8) (acc + b * 2 ^ nbits) ++ byte_bits bs)
          (bits_low nbits acc ++ (bits_low 8 b ++ byte_bits bs))
          (refill_lem (acc + b * 2 ^ nbits) (nbits + 8) bs
            (added_below acc nbits b below (ground arith) bytes.0) (ground arith) bytes.1)
          (ap (λ l. l ++ byte_bits bs) (bits_low-append nbits 8 acc b below)
            ∙ append_assoc (bits_low nbits acc) (bits_low 8 b) (byte_bits bs)))
  | inr full ↦
      rw full (refl, record { below = below; few = few; bytes = bytes }, inr (ground arith))
]

-- A refill takes at least one byte, where there is one and room for it.
length-refill : (acc nbits : ℕ) (bs : List ℕ) → length (refill acc nbits bs).rest ≤ length bs
unfolding refill
length-refill acc nbits [] = omega arith
length-refill acc nbits (b ∷ bs) =
    ground (arith, length-refill (bit_or acc (b * 2 ^ nbits % 2 ^ 64)) (nbits + 8) bs)

pub taken_some : (b : ℕ) (bs : List ℕ) → length (refill 0 0 (b ∷ bs)).rest ≤ length bs
unfolding refill
taken_some b bs = length-refill (bit_or 0 (b * 2 ^ 0 % 2 ^ 64)) (0 + 8) bs

-- The run counted, as the accumulator's trailing ones.
module _ (r : Reader) (ready : IsReady r) where
  word : r.acc < 2 ^ 64
  word = omega (arith, ready.below, pow_mono r.nbits 64 ready.few)

  pub ones_run_lem : ones_run r ≡ ones 64 r.acc
  unfolding ones_run
  ones_run_lem = trailing_zeros-complement r.acc word

  -- The accumulator shifted, also by 64.
  shifted : leb 64 (ones_run r + 1) ≡ true → r.acc / 2 ^ (ones_run r + 1) ≡ 0
  shifted h = div-eq_of_lt (omega (arith, word, pow_mono 64 (ones_run r + 1) (ground arith)))

  pub after_run_lem :
      ones_run r < r.nbits
      → (reader_bits (after_run r)
          ≡ bits_low (r.nbits - (ones_run r + 1)) (r.acc / 2 ^ (ones_run r + 1))
            ++ byte_bits r.rest)
        × IsReady (after_run r)
  unfolding after_run
  after_run_lem inside = rw (chosen (leb 64 (ones_run r + 1)) refl) (
    refl,
    record {
      below = div-lt_pow r.nbits (ones_run r + 1) r.acc (omega arith) ready.below;
      few = omega (arith, ready.few);
      bytes = ready.bytes;
    },
  )
    where
      chosen :
          (b : Bool)
          → leb 64 (ones_run r + 1) ≡ b
          → (if b then 0 else r.acc / 2 ^ (ones_run r + 1)) ≡ r.acc / 2 ^ (ones_run r + 1)
      chosen true e = sym (shifted e)
      chosen false e = refl
