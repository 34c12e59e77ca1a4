-- ===== src/Pcm/Rice/Laws.antt =====
-- The Rice decoder of src/pcm_v4.hpp on whole bodies, and with the code that its comments describe.
use ubersdr_dsc.Base.{
  ℕ, zero, suc, ◌%◌, ◌^◌, ◌≤◌, ◌<◌, ◌≡◌, refl, ap, ◌∙◌, subst, arith, Bool, if◌then◌else◌, ltb,
  Bool-cases, inl, inr, List, [], ◌∷◌, All, length,
}
use ubersdr_dsc.Base.Int.{ℤ}
use ubersdr_dsc.Pcm.Attempt.{Attempt, done, failed, ◌>>=◌, empty_bitstream, invalid_k}
use ubersdr_dsc.Pcm.Rice.{
  Reader, refill, refill_below, unary, remainder, residual_code, residual_codes, rice_decode,
}
use ubersdr_dsc.Pcm.Rice.Spec.{byte_bits, count_ones, take_bits, code_value, read_code, read_codes}
use ubersdr_dsc.Pcm.Rice.Machine.{reader_bits, IsReady, refill_lem}
use ubersdr_dsc.Pcm.Rice.Refinement.{
  Alike, SameCount, SameValue, unary_lem, refill_below_lem, remainder_lem,
}

Alike-bind :
    {A B C D : Type 0} (R : A → B → Type 0) (S : C → D → Type 0) (m : Attempt A) (n : Attempt B)
    (f : A → Attempt C) (g : B → Attempt D)
    → Alike R m n
    → ((a : A) (b : B) → R a b → Alike S (f a) (g b))
    → Alike S (m >>= f) (n >>= g)
Alike-bind R S (done a) (done b) f g h k = k a b h
Alike-bind R S (failed e) (failed e') f g h k = h
Alike-bind R S (done a) (failed e) f g h k = absurd h
Alike-bind R S (failed e) (done b) f g h k = absurd h

residual_code_lem :
    (k : ℕ) (r : Reader) (bits : List Bool)
    → k ≤ 30
    → IsReady r
    → reader_bits r ≡ bits
    → Alike SameValue (residual_code k r) (read_code k bits)
unfolding residual_code read_code
residual_code_lem k r bits small ready same =
    let filled = refill_below_lem 48 r ready in
    let start : reader_bits (refill_below 48 r) ≡ bits = filled.0 ∙ same in
    Alike-bind SameCount SameValue
      (unary (suc (length (refill_below 48 r).rest)) (refill_below 48 r) 0) (count_ones 0 bits)
      (remainder k)
      (λ high. take_bits k high.1 >>= λ low. done (code_value k (high.0 % 2 ^ 32) low.0, low.1))
      (subst
        (λ l.
          Alike SameCount (unary (suc (length (refill_below 48 r).rest)) (refill_below 48 r) 0)
            (count_ones 0 l))
        start
        (unary_lem (suc (length (refill_below 48 r).rest)) (refill_below 48 r) 0 filled.1
          (omega arith)))
      (λ a b related. remainder_lem k b.0 a.0 a.1 b.1 small related.2 related.0 related.1)

residual_codes_lem :
    (k count : ℕ) (r : Reader) (bits : List Bool)
    → k ≤ 30
    → IsReady r
    → reader_bits r ≡ bits
    → Alike (λ a b. a ≡ b) (residual_codes k count r) (read_codes k count bits)
unfolding residual_codes read_codes
residual_codes_lem k zero r bits small ready same = refl
residual_codes_lem k (suc count) r bits small ready same =
    Alike-bind SameValue (λ a b. a ≡ b) (residual_code k r) (read_code k bits)
      (λ first. residual_codes k count first.1 >>= λ more. done (first.0 ∷ more))
      (λ first. read_codes k count first.1 >>= λ more. done (first.0 ∷ more))
      (residual_code_lem k r bits small ready same)
      (λ a b related.
        Alike-bind (λ x y. x ≡ y) (λ x y. x ≡ y) (residual_codes k count a.1)
          (read_codes k count b.1) (λ more. done (a.0 ∷ more)) (λ more. done (b.0 ∷ more))
          (residual_codes_lem k count a.1 b.1 small related.2 related.1)
          (λ x y e. pair related.0 e))
  where
    pair : {x y : ℤ} {xs ys : List ℤ} → x ≡ y → xs ≡ ys → x ∷ xs ≡ y ∷ ys
    pair e h = cc

Alike-eq : {A : Type 0} (m n : Attempt A) → Alike (λ a b. a ≡ b) m n → m ≡ n
Alike-eq (done a) (done b) h = ap done h
Alike-eq (failed e) (failed e') h = ap failed h
Alike-eq (done a) (failed e) h = absurd h
Alike-eq (failed e) (done b) h = absurd h

-- The decoder on the list of the body's bits.
unfoldable pub rice_reference : List ℕ → ℕ → Attempt (List ℤ)
unfolding read_codes
rice_reference [] count = failed empty_bitstream
rice_reference (k ∷ bytes) count =
    if ltb 30 k then failed invalid_k else read_codes k count (byte_bits bytes)

-- For every body of bytes and every number of residuals, the decoder with the 64-bit accumulator,
-- its refills and its runs across them returns exactly what the decoder on the list of the body's
-- bits returns: the same residuals, or the same error.
pub rice_decode-eq-rice_reference :
    (body : List ℕ) (count : ℕ)
    → All (λ b. b < 256) body
    → rice_decode body count ≡ rice_reference body count
unfolding rice_decode rice_reference
rice_decode-eq-rice_reference [] count bytes = refl
rice_decode-eq-rice_reference (k ∷ body) count bytes = elim (Bool-cases (ltb 30 k)) [
  | inl large ↦ rw large refl
  | inr small ↦
      let filled = refill_lem 0 0 body (omega arith) (omega arith) bytes.1 in
      rw small (
        Alike-eq (residual_codes k count (refill 0 0 body)) (read_codes k count (byte_bits body)) (
          residual_codes_lem k count (refill 0 0 body) (byte_bits body) (ground arith) filled.1
            filled.0))
]
