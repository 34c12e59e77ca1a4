-- ===== src/Pcm/Complex/Equivalence.antt =====
-- Streams of packets through ComplexStage and through the filter in `int64_t` of src/pcm_v4.hpp.
use ubersdr_dsc.Base.{
  ℕ, suc, if-true, if-false, ◌+◌, ◌*◌, ◌≡◌, refl, ap, sym, ◌∙◌, subst, arith, true, false,
  Bool-cases, inl, inr, List, [], ◌∷◌, length,
}
use native.Mathlib.Nat.{mul-suc}
use ubersdr_dsc.Base.Int.{◌+ℤ◌, ◌-ℤ◌}
use ubersdr_dsc.Pcm.Wide.{Wide, Pair, forward_wide, inverse_wide, predict_wide}
use ubersdr_dsc.Pcm.Complex.{
  ComplexStage, forward_complex, inverse_complex, narrow_forward, narrow_inverse, in_wide,
}
use ubersdr_dsc.Pcm.Complex.Room.{HasRoom}
use ubersdr_dsc.Pcm.Complex.Reference.{reference}
use ubersdr_dsc.Pcm.Complex.Sound.{
  IsSound, moved_on, moved_on-HasRoom, reference_wide, push_wide-mu, adapt_wide-mu,
  narrow_step-reference, narrow_step-IsSound, narrow_predict,
}
use ubersdr_dsc.Pcm.Complex.Run.{Frame, residual, sample, complex_frame, wide_frame, run}

-- The error and the sample of a frame.
frame_parts : Wide → Frame → Pair × Pair
frame_parts w (residual e) = let p = predict_wide w in (e, (e.0 +ℤ p.0, e.1 +ℤ p.1))
frame_parts w (sample x) = let p = predict_wide w in ((x.0 -ℤ p.0, x.1 -ℤ p.1), x)

abbrev result_of : Frame → Pair × Pair → Pair
result_of (residual e) parts = parts.1
result_of (sample x) parts = parts.0

wide_frame_lem :
    (w : Wide) (f : Frame)
    → wide_frame w f
      ≡ (result_of f (frame_parts w f), moved_on (frame_parts w f).0 (frame_parts w f).1 w)
unfolding wide_frame frame_parts inverse_wide forward_wide
wide_frame_lem w (residual e) = refl
wide_frame_lem w (sample x) = refl

residual_lem : (w : Wide) (e : Pair) → wide_frame w (residual e) ≡ inverse_wide w e
unfolding wide_frame
residual_lem w e = refl

sample_lem : (w : Wide) (x : Pair) → wide_frame w (sample x) ≡ forward_wide w x
unfolding wide_frame
sample_lem w x = refl

-- How a frame of the stage and of its reference are related.
abbrev Agree : ℕ → ℕ → Pair × ComplexStage → Pair × Wide → Type 0
Agree mu slack done expected =
    (done.0 ≡ expected.0) × (reference done.1 ≡ expected.1) × IsSound mu slack done.1

module _ (mu slack : ℕ) (s : ComplexStage) (sound : IsSound mu (slack + 2 * mu) s) where
  -- A stage that has gone wide hands the frame on.
  wide_agrees :
      (done : Pair × Wide) (f : Frame)
      → s.gone_wide ≡ true
      → wide_frame s.wide_stage f ≡ done
      → Agree mu slack (in_wide s done) (wide_frame (reference s) f)
  unfolding in_wide
  wide_agrees done f gone e =
      let back : wide_frame (reference s) f ≡ done =
        ap (λ w. wide_frame w f) (reference_wide s gone) ∙ e in
      let after : reference (record s { wide_stage = done.1 }) ≡ done.1 =
        reference_wide (record s { wide_stage = done.1 }) gone in
      let moves : done.1
          ≡ moved_on (frame_parts (reference s) f).0 (frame_parts (reference s) f).1 (reference s) =
        ap (λ (p : Pair × Wide). p.1) (sym back ∙ wide_frame_lem (reference s) f) in
      (
        ap (λ (p : Pair × Wide). p.0) (sym back),
        after ∙ ap (λ (p : Pair × Wide). p.1) (sym back),
        record {
          same_mu =
              ap (λ (w : Wide). w.mu) (after ∙ moves)
              ∙ push_wide-mu _ _
              ∙ adapt_wide-mu _ _
              ∙ sound.same_mu;
          room = subst (HasRoom slack) (sym (after ∙ moves)) (
              moved_on-HasRoom mu slack (frame_parts (reference s) f).0
                (frame_parts (reference s) f).1 (reference s) sound.same_mu sound.room);
          narrow = λ stays. absurd (both_ways (sym gone ∙ stays));
        },
      )
    where
      both_ways : true ≡ false → ⊥
      both_ways e' = cc

  -- In `int32_t` the frame is the reference's.
  narrow_residual :
      s.gone_wide ≡ false
      → (e : Pair) → Agree mu slack (narrow_inverse s e) (wide_frame (reference s) (residual e))
  unfolding narrow_inverse wide_frame inverse_wide
  narrow_residual stays e = rw (narrow_predict mu slack s sound stays) (
    refl,
    narrow_step-reference mu slack s sound stays e _,
    narrow_step-IsSound mu slack s sound stays e _,
  )

  narrow_sample :
      s.gone_wide ≡ false
      → (x : Pair) → Agree mu slack (narrow_forward s x) (wide_frame (reference s) (sample x))
  unfolding narrow_forward wide_frame forward_wide
  narrow_sample stays x = rw (narrow_predict mu slack s sound stays) (
    refl,
    narrow_step-reference mu slack s sound stays _ x,
    narrow_step-IsSound mu slack s sound stays _ x,
  )

  frame_agrees : (f : Frame) → Agree mu slack (complex_frame s f) (wide_frame (reference s) f)
  unfolding complex_frame inverse_complex forward_complex
  frame_agrees (residual e) = elim (Bool-cases s.gone_wide) [
    | inl gone ↦
        subst (λ d. Agree mu slack d (wide_frame (reference s) (residual e)))
          (sym (if-true _ _ s.gone_wide gone))
          (wide_agrees (inverse_wide s.wide_stage e) (residual e) gone
            (residual_lem s.wide_stage e))
    | inr stays ↦
        subst (λ d. Agree mu slack d (wide_frame (reference s) (residual e)))
          (sym (if-false _ _ s.gone_wide stays)) (narrow_residual stays e)
  ]
  frame_agrees (sample x) = elim (Bool-cases s.gone_wide) [
    | inl gone ↦
        subst (λ d. Agree mu slack d (wide_frame (reference s) (sample x)))
          (sym (if-true _ _ s.gone_wide gone))
          (wide_agrees (forward_wide s.wide_stage x) (sample x) gone (sample_lem s.wide_stage x))
    | inr stays ↦
        subst (λ d. Agree mu slack d (wide_frame (reference s) (sample x)))
          (sym (if-false _ _ s.gone_wide stays)) (narrow_sample stays x)
  ]

-- The room that `n` frames need.
pub frames_room : (mu n : ℕ) → 2 * mu * suc n ≡ 2 * mu * n + 2 * mu
frames_room mu n = mul-suc (2 * mu) n

-- A packet's frames, from a stage with room for them.
pub run_agrees :
    (mu : ℕ) (s : ComplexStage) (fs : List Frame)
    → IsSound mu (2 * mu * length fs) s
    → ((run complex_frame s fs).0 ≡ (run wide_frame (reference s) fs).0)
      × (reference (run complex_frame s fs).1 ≡ (run wide_frame (reference s) fs).1)
      × IsSound mu 0 (run complex_frame s fs).1
run_agrees mu s [] sound = (refl, refl, subst (λ (n : ℕ). IsSound mu n s) (omega arith) sound)
run_agrees mu s (f ∷ fs) sound =
    let first =
      frame_agrees mu (2 * mu * length fs) s
        (subst (λ (n : ℕ). IsSound mu n s) (frames_room mu (length fs)) sound) f in
    let rest = run_agrees mu (complex_frame s f).1 fs first.2 in
    (
      rw (sym first.0, sym first.1) (ap (λ l. (complex_frame s f).0 ∷ l) rest.0),
      rw (sym first.1) rest.1,
      rest.2,
    )
