-- ===== src/Pcm/Rice.antt =====
-- The Rice decoder of src/pcm_v4.hpp: riceDecodeResiduals, with its 64-bit accumulator.
pub mod Spec
pub mod Bits
pub mod Runs
pub mod Words
pub mod Machine
pub mod Refinement
pub mod Laws
pub mod Roundtrip
use ubersdr_dsc.Base.{
  ℕ, zero, suc, ◌+◌, ◌-◌, ◌*◌, ◌/◌, ◌%◌, ◌^◌, bit_or, bit_and, Bool, true, false, if◌then◌else◌,
  ltb, leb, List, [], ◌∷◌, length,
}
use ubersdr_dsc.Base.Int.{ℤ}
use ubersdr_dsc.Pcm.Arith.{trailing_zeros, unzigzag}
use ubersdr_dsc.Pcm.Attempt.{
  Attempt, done, failed, ◌>>=◌, empty_bitstream, invalid_k, truncated_bitstream,
  truncated_remainder,
}

-- The accumulator, its number of bits, and the bytes that are left.
pub record Reader : Type 0 where
  pub acc : ℕ
  pub nbits : ℕ
  pub rest : List ℕ

unfoldable pub refill : ℕ → ℕ → List ℕ → Reader
refill acc nbits [] = record { acc = acc; nbits = nbits; rest = [] }
refill acc nbits (b ∷ bs) =
    let more = refill (bit_or acc (b * 2 ^ nbits % 2 ^ 64)) (nbits + 8) bs in
    if leb nbits 56 then more else record { acc = acc; nbits = nbits; rest = b ∷ bs }

unfoldable pub refill_below : ℕ → Reader → Reader
unfolding refill
refill_below wanted r = if ltb r.nbits wanted then refill r.acc r.nbits r.rest else r

-- The trailing ones of the accumulator.
unfoldable pub ones_run : Reader → ℕ
ones_run r = trailing_zeros (2 ^ 64 - 1 - r.acc)

-- The run and its stop bit taken off.
unfoldable pub after_run : Reader → Reader
unfolding ones_run
after_run r =
    let sh = ones_run r + 1 in
    record r { acc = if leb 64 sh then 0 else r.acc / 2 ^ sh; nbits = r.nbits - sh }

-- The unary part, whose run may go on in the bytes after the accumulator.
unfoldable pub unary : ℕ → Reader → ℕ → Attempt (ℕ × Reader)
unfolding after_run refill
unary zero r q = failed truncated_bitstream
unary (suc fuel) r q =
    let further = unary fuel (refill 0 0 r.rest) ((q + r.nbits) % 2 ^ 32) in
    if ltb (ones_run r) r.nbits
    then done ((q + ones_run r) % 2 ^ 32, after_run r)
    else if leb (length r.rest) 0
    then failed truncated_bitstream
    else further

-- The low bits and the value, after the unary part.
unfoldable pub remainder : ℕ → ℕ × Reader → Attempt (ℤ × Reader)
unfolding refill_below
remainder k (q, r) =
    let filled = refill_below k r in
    if ltb filled.nbits k
    then failed truncated_remainder
    else done (
      unzigzag 32 (bit_or (q * 2 ^ k % 2 ^ 32) (bit_and filled.acc (2 ^ k - 1))),
      record filled { acc = filled.acc / 2 ^ k; nbits = filled.nbits - k },
    )

unfoldable pub residual_code : ℕ → Reader → Attempt (ℤ × Reader)
unfolding unary remainder refill_below
residual_code k r =
    let ready = refill_below 48 r in unary (suc (length ready.rest)) ready 0 >>= remainder k

unfoldable pub residual_codes : ℕ → ℕ → Reader → Attempt (List ℤ)
unfolding residual_code
residual_codes k zero r = done []
residual_codes k (suc count) r = do
  first ← residual_code k r
  more ← residual_codes k count first.1
  done (first.0 ∷ more)

unfoldable pub rice_decode : List ℕ → ℕ → Attempt (List ℤ)
unfolding residual_codes refill
rice_decode [] count = failed empty_bitstream
rice_decode (k ∷ bytes) count =
    if ltb 30 k then failed invalid_k else residual_codes k count (refill 0 0 bytes)
