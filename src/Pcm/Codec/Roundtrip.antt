-- ===== src/Pcm/Codec/Roundtrip.antt =====
-- Packets of the codec in src/pcm_v4.hpp, coded and decoded.
use ubersdr_dsc.Base.{
  ℕ, if-true, if-false, ◌/◌, ◌%◌, ◌^◌, ◌≤◌, ◌<◌, ◌≡◌, refl, ap, sym, ◌∙◌, subst, arith, Bool, false,
  Bool-cases, inl, inr, List, ◌∷◌, ◌++◌, All, length,
}
use ubersdr_dsc.Base.Int.{ℤ}
use ubersdr_dsc.Pcm.Attempt.{done}
use ubersdr_dsc.Pcm.Codec.{
  PredictiveCodec, pass_all, undo_all, begin_packet, samples_per_step, bad_count, coded, coded_body,
  decode_body,
}
use ubersdr_dsc.Pcm.Codec.Encoder.{residuals, residuals_real, residuals_complex}
use ubersdr_dsc.Pcm.Codec.Undo.{
  undo_all_complex, undo_all_real, even-IsWhole, length-residuals_real, length-residuals_complex,
  step_complex,
}
use ubersdr_dsc.Pcm.Codec.Stages.{IsInt16}
use ubersdr_dsc.Pcm.Rice.{rice_decode}
use ubersdr_dsc.Pcm.Rice.Spec.{zigzag, write_codes, byte_bits}
use ubersdr_dsc.Pcm.Rice.Roundtrip.{rice_decode-write_codes}

-- Residuals of whole steps: as many as samples, and undone to the samples.
undone_whole :
    (c : PredictiveCodec) (samples : List ℤ)
    → length samples % samples_per_step c ≡ 0
    → All IsInt16 samples
    → (length (residuals c samples) ≡ length samples)
      × (undo_all c (residuals c samples) ≡ (pass_all c samples, samples))
unfolding residuals
undone_whole c samples whole fit = elim (Bool-cases c.complex) [
  | inl complex ↦
      let even =
        even-IsWhole samples
          (subst (λ (n : ℕ). length samples % n ≡ 0) (step_complex c complex) whole) in
      (
        ap (λ l. length l)
              (if-true (residuals_complex c.cx samples) (residuals_real c.rl samples) c.complex
                complex)
            ∙ length-residuals_complex c.cx samples even,
        undo_all_complex c samples complex even fit,
      )
  | inr real ↦ (
    ap (λ l. length l)
          (if-false (residuals_complex c.cx samples) (residuals_real c.rl samples) c.complex real)
        ∙ length-residuals_real c.rl samples,
    undo_all_real c samples real fit,
  )
]

same_step : (n : ℕ) (c : PredictiveCodec) → samples_per_step (begin_packet n c) ≡ samples_per_step c
unfolding samples_per_step begin_packet
same_step n c = refl

good_count :
    (n : ℕ) (c : PredictiveCodec) → 0 < n → n % samples_per_step c ≡ 0 → bad_count n c ≡ false
unfolding bad_count
good_count n c some_samples whole = ground arith

-- For a codec in any state, samples of 16 bits that fill whole steps, and a Rice parameter of at
-- most 30: the residuals that the filters' forward direction gives for the samples, each within
-- 32 bits and coded with the parameter into the body's bits, whatever follows them, decode to
-- exactly the samples, and leave the codec in the state that passing over the samples leaves, as
-- an escaped packet does.
pub decode_body-residuals :
    (c : PredictiveCodec) (samples : List ℤ) (k : ℕ) (bytes : List ℕ) (padding : List Bool)
    → 0 < length samples
    → length samples % samples_per_step c ≡ 0
    → All IsInt16 samples
    → k ≤ 30
    → All (λ b. b < 256) bytes
    → All
        (λ e. zigzag e < 2 ^ 32)
        (residuals (begin_packet (length samples / samples_per_step c) c) samples)
    → byte_bits bytes
      ≡ write_codes k (residuals (begin_packet (length samples / samples_per_step c) c) samples)
        ++ padding
    → decode_body (length samples) false c (k ∷ bytes)
      ≡ (pass_all (begin_packet (length samples / samples_per_step c) c) samples, done samples)
unfolding decode_body coded_body coded
decode_body-residuals c samples k bytes padding some_samples whole fit small are_bytes in_range
      codes =
    let start = begin_packet (length samples / samples_per_step c) c in
    let undone =
      undone_whole start samples
        (ap (λ (n : ℕ). length samples % n) (same_step (length samples / samples_per_step c) c)
          ∙ whole)
        fit in
    let read : rice_decode (k ∷ bytes) (length samples) ≡ done (residuals start samples) =
      ap (rice_decode (k ∷ bytes)) (sym undone.0)
      ∙ rice_decode-write_codes k bytes (residuals start samples) padding small are_bytes in_range
          codes in
    rw (good_count (length samples) c some_samples whole, read, undone.1) refl
