-- ===== src/Pcm/Rice/Refinement.antt =====
-- The Rice decoder of src/pcm_v4.hpp beside the decoder on a list of bits.
use ubersdr_dsc.Base.{
  ℕ, zero, suc, ◌+◌, ◌-◌, ◌/◌, ◌%◌, ◌^◌, ◌≤◌, ◌<◌, ◌≡◌, refl, ap, sym, ◌∙◌, subst, arith, Bool,
  true, false, if◌then◌else◌, ltb, leb, ltb→lt, Bool-cases, ◌⊎◌, inl, inr, List, [], ◌∷◌, ◌++◌, All,
  length,
}
use ubersdr_dsc.Base.Int.{ℤ}
use ubersdr_dsc.Pcm.Attempt.{Attempt, done, failed, ◌>>=◌, truncated_bitstream, truncated_remainder}
use ubersdr_dsc.Pcm.Rice.{Reader, refill, refill_below, ones_run, unary, remainder}
use ubersdr_dsc.Pcm.Rice.Spec.{bits_low, byte_bits, count_ones, take_bits, code_value}
use ubersdr_dsc.Pcm.Rice.Runs.{count_ones-bits_low, take_bits-bits_low, take_bits_short}
use ubersdr_dsc.Pcm.Rice.Words.{div-lt_pow, value_parts}
use ubersdr_dsc.Pcm.Rice.Machine.{
  reader_bits, IsReady, refill_lem, taken_some, ones_run_lem, after_run_lem,
}

-- Both decoders fail alike, or both return values that are related.
abbrev pub Alike {ℓ κ} :
    {A : Type ℓ} {B : Type κ} → (A → B → Type 0) → Attempt A → Attempt B → Type 0
Alike R (done a) (done b) = R a b
Alike R (failed e) (failed e') = e ≡ e'
Alike R (done a) (failed e) = ⊥
Alike R (failed e) (done b) = ⊥

-- The count in 32 bits, and the same bits left.
abbrev pub SameCount : ℕ × Reader → ℕ × List Bool → Type 0
SameCount (q, r) (p, bits) = (q ≡ p % 2 ^ 32) × (reader_bits r ≡ bits) × IsReady r

abbrev pub SameValue : ℤ × Reader → ℤ × List Bool → Type 0
SameValue (v, r) (u, bits) = (v ≡ u) × (reader_bits r ≡ bits) × IsReady r

wrapped : (p c : ℕ) → (p % 2 ^ 32 + c) % 2 ^ 32 ≡ (p + c) % 2 ^ 32
wrapped p c = omega arith

-- The run goes on in the bytes that are left.
go_on :
    (fuel n p : ℕ) (bs : List ℕ)
    → length bs < suc fuel
    → All (λ b. b < 256) bs
    → ((r : Reader)
        → IsReady r
        → length r.rest < fuel
        → Alike SameCount (unary fuel r (n % 2 ^ 32)) (count_ones n (reader_bits r)))
    → p ≡ n % 2 ^ 32
    → Alike SameCount
        (if leb (length bs) 0 then failed truncated_bitstream else unary fuel (refill 0 0 bs) p)
        (count_ones n (byte_bits bs))
unfolding count_ones
go_on fuel n p [] k bytes next e = refl
go_on fuel n p (b ∷ bs) k bytes next e =
    let filled = refill_lem 0 0 (b ∷ bs) (omega arith) (omega arith) bytes in
    let more : leb (length (b ∷ bs)) 0 ≡ false = ground arith in
    rw (more, e)
      (subst (λ l. Alike SameCount (unary fuel (refill 0 0 (b ∷ bs)) (n % 2 ^ 32)) (count_ones n l))
        filled.0 (next (refill 0 0 (b ∷ bs)) filled.1 (omega (arith, taken_some b bs))))

module _ (r : Reader) (p : ℕ) (ready : IsReady r) where
  counted : count_ones p (reader_bits r) ≡ (
      if ltb (ones_run r) r.nbits
      then done (
        p + ones_run r,
        bits_low (r.nbits - (ones_run r + 1)) (r.acc / 2 ^ (ones_run r + 1)) ++ byte_bits r.rest,
      )
      else count_ones (p + r.nbits) (byte_bits r.rest))
  counted =
      rw (ones_run_lem r ready)
        (count_ones-bits_low 64 r.nbits r.acc p (byte_bits r.rest) ready.few)

  counted_inside :
      ltb (ones_run r) r.nbits ≡ true
      → count_ones p (reader_bits r)
        ≡ done (
          p + ones_run r,
          bits_low (r.nbits - (ones_run r + 1)) (r.acc / 2 ^ (ones_run r + 1)) ++ byte_bits r.rest,
        )
  counted_inside h = counted ∙ rw h refl

  counted_beyond :
      ltb (ones_run r) r.nbits ≡ false
      → count_ones p (reader_bits r) ≡ count_ones (p + r.nbits) (byte_bits r.rest)
  counted_beyond h = counted ∙ rw h refl

pub unary_lem :
    (fuel : ℕ) (r : Reader) (p : ℕ)
    → IsReady r
    → length r.rest < fuel
    → Alike SameCount (unary fuel r (p % 2 ^ 32)) (count_ones p (reader_bits r))
unfolding unary
unary_lem zero r p ready h = absurd (omega arith)
unary_lem (suc fuel) r p ready h = elim (Bool-cases (ltb (ones_run r) r.nbits)) [
  | inl inside ↦
      let after = after_run_lem r ready (ltb→lt (ones_run r) r.nbits inside) in
      rw (inside, counted_inside r p ready inside) (wrapped p (ones_run r), after.0, after.1)
  | inr beyond ↦
      rw (beyond, counted_beyond r p ready beyond)
        (go_on fuel (p + r.nbits) ((p % 2 ^ 32 + r.nbits) % 2 ^ 32) r.rest h ready.bytes
          (λ r'. unary_lem fuel r' (p + r.nbits)) (wrapped p r.nbits))
]

pub refill_below_lem :
    (wanted : ℕ) (r : Reader)
    → IsReady r
    → (reader_bits (refill_below wanted r) ≡ reader_bits r)
      × IsReady (refill_below wanted r)
      × (((refill_below wanted r).rest ≡ [])
          ⊎ (57 ≤ (refill_below wanted r).nbits)
          ⊎ (wanted ≤ (refill_below wanted r).nbits))
unfolding refill_below
refill_below_lem wanted r ready = elim (Bool-cases (ltb r.nbits wanted)) [
  | inl low ↦
      let filled = refill_lem r.acc r.nbits r.rest ready.below ready.few ready.bytes in
      rw low (filled.0, filled.1, elim filled.2 [ inl e ↦ inl e | inr e ↦ inr (inl e) ])
  | inr enough ↦ rw enough (refl, ready, inr (inr (ground arith)))
]

-- The low bits of a ready accumulator, with enough bits and with too few.
module _ (k p : ℕ) (r : Reader) (ready : IsReady r) (small : k ≤ 30) where
  taken_off : Reader
  taken_off = record r { acc = r.acc / 2 ^ k; nbits = r.nbits - k }

  enough_bits :
      k ≤ r.nbits
      → (take_bits k (reader_bits r) ≡ done (r.acc % 2 ^ k, reader_bits taken_off))
        × IsReady taken_off
  unfolding taken_off
  enough_bits h = (
    take_bits-bits_low k r.nbits r.acc (byte_bits r.rest) h,
    record {
      below = div-lt_pow r.nbits k r.acc h ready.below;
      few = omega (arith, ready.few);
      bytes = ready.bytes;
    },
  )

  too_few : r.nbits < k → r.rest ≡ [] → take_bits k (reader_bits r) ≡ failed truncated_remainder
  too_few h none =
      ap (λ l. take_bits k (bits_low r.nbits r.acc ++ byte_bits l)) none
      ∙ take_bits_short k r.nbits r.acc h

-- The part of the bit decoder after the unary run.
abbrev pub low_part : ℕ → ℕ → List Bool → Attempt (ℤ × List Bool)
low_part k p bits = take_bits k bits >>= λ low. done (code_value k (p % 2 ^ 32) low.0, low.1)

pub remainder_lem :
    (k p q : ℕ) (r : Reader) (bits : List Bool)
    → k ≤ 30
    → IsReady r
    → q ≡ p % 2 ^ 32
    → reader_bits r ≡ bits
    → Alike SameValue (remainder k (q, r)) (low_part k p bits)
unfolding remainder taken_off
remainder_lem k p q r bits small ready e same =
    let filled = refill_below_lem k r ready in
    let from : reader_bits (refill_below k r) ≡ bits = filled.0 ∙ same in
    elim (Bool-cases (ltb (refill_below k r).nbits k)) [
      | inl short ↦
          rw
            (
              short,
              sym from,
              too_few k p (refill_below k r) filled.1 small (ltb→lt _ k short)
                  (drained k _ _ small (ltb→lt _ k short) filled.2),
            )
            refl
      | inr long ↦
          let off = enough_bits k p (refill_below k r) filled.1 small (ground arith) in
          rw (long, sym from, off.0, value_parts k q (refill_below k r).acc small, e)
            (refl, refl, off.1)
    ]
  where
    drained :
        (k' n : ℕ) (rest : List ℕ)
        → k' ≤ 30
        → n < k'
        → ((rest ≡ []) ⊎ (57 ≤ n) ⊎ (k' ≤ n))
        → rest ≡ []
    drained k' n rest a b (inl h) = h
    drained k' n rest a b (inr (inl h)) = absurd (omega arith)
    drained k' n rest a b (inr (inr h)) = absurd (omega arith)
