-- ===== src/Pcm/Codec/Undo.antt =====
-- Residuals of the codec in src/pcm_v4.hpp taken back to samples.
use ubersdr_dsc.Base.{
  ℕ, suc, if-true, if-false, ◌%◌, ◌≡◌, refl, ap, sym, ◌∙◌, arith, Bool, true, false, List, [], ◌∷◌,
  All, length,
}
use ubersdr_dsc.Base.Int.{ℤ, pos}
use ubersdr_dsc.Pcm.Real.{RealStage, forward_cascade}
use ubersdr_dsc.Pcm.Complex.{ComplexStage}
use ubersdr_dsc.Pcm.Codec.{
  PredictiveCodec, forward_complexes, pass_over, pass_real, pass_complex, pass_all, undo_real,
  undo_complex, undo_all, samples_per_step,
}
use ubersdr_dsc.Pcm.Codec.Encoder.{residuals, residuals_real, residuals_complex}
use ubersdr_dsc.Pcm.Codec.Stages.{
  inverse-forward_cascade, inverse-forward_complexes, IsInt16, to_int16-eq,
}

-- The stages after samples that they pass over.
after_real : List RealStage → List ℤ → List RealStage
after_real rl [] = rl
after_real rl (x ∷ xs) = after_real (forward_cascade rl x).1 xs

after_complex : List ComplexStage → List ℤ → List ComplexStage
after_complex cx (a ∷ b ∷ rest) = after_complex (forward_complexes cx (a, b)).1 rest
after_complex cx [] = cx
after_complex cx (a ∷ []) = cx

-- Residuals give the samples, and leave the stages that passing over the samples leaves.
undo-residuals_real :
    (rl : List RealStage) (samples : List ℤ)
    → All IsInt16 samples
    → undo_real rl (residuals_real rl samples) ≡ (samples, after_real rl samples)
unfolding undo_real residuals_real after_real
undo-residuals_real rl [] fit = refl
undo-residuals_real rl (x ∷ xs) fit =
    rw
      (
        inverse-forward_cascade rl x,
        to_int16-eq x fit.0,
        undo-residuals_real (forward_cascade rl x).1 xs fit.1,
      )
      refl

abbrev pub IsWhole : List ℤ → Type 0
IsWhole [] = Unit
IsWhole (a ∷ []) = ⊥
IsWhole (a ∷ b ∷ rest) = IsWhole rest

undo-residuals_complex :
    (cx : List ComplexStage) (samples : List ℤ)
    → IsWhole samples
    → All IsInt16 samples
    → undo_complex cx (residuals_complex cx samples) ≡ (samples, after_complex cx samples)
unfolding undo_complex residuals_complex after_complex
undo-residuals_complex cx [] whole fit = refl
undo-residuals_complex cx (a ∷ []) whole fit = absurd whole
undo-residuals_complex cx (a ∷ b ∷ rest) whole fit =
    rw
      (
        inverse-forward_complexes cx (a, b),
        to_int16-eq a fit.0,
        to_int16-eq b fit.1.0,
        undo-residuals_complex (forward_complexes cx (a, b)).1 rest whole fit.1.1,
      )
      refl

pass_over_real :
    (c : PredictiveCodec) (a b : ℤ)
    → c.complex ≡ false
    → pass_over c (a, b) ≡ record c { rl = (forward_cascade c.rl a).1 }
unfolding pass_over
pass_over_real c a b real = if-false _ _ c.complex real

pass_over_complex :
    (c : PredictiveCodec) (a b : ℤ)
    → c.complex ≡ true
    → pass_over c (a, b) ≡ record c { cx = (forward_complexes c.cx (a, b)).1 }
unfolding pass_over
pass_over_complex c a b complex = if-true _ _ c.complex complex

pass_real_lem :
    (c : PredictiveCodec) (xs : List ℤ)
    → c.complex ≡ false
    → pass_real c xs ≡ record c { rl = after_real c.rl xs }
unfolding pass_real after_real
pass_real_lem c [] real = refl
pass_real_lem c (x ∷ xs) real =
    ap (λ s. pass_real s xs) (pass_over_real c x (pos 0) real)
    ∙ pass_real_lem (record c { rl = (forward_cascade c.rl x).1 }) xs real

pass_complex_lem :
    (c : PredictiveCodec) (xs : List ℤ)
    → c.complex ≡ true
    → pass_complex c xs ≡ record c { cx = after_complex c.cx xs }
unfolding pass_complex after_complex
pass_complex_lem c [] complex = refl
pass_complex_lem c (a ∷ []) complex = refl
pass_complex_lem c (a ∷ b ∷ rest) complex =
    ap (λ s. pass_complex s rest) (pass_over_complex c a b complex)
    ∙ pass_complex_lem (record c { cx = (forward_complexes c.cx (a, b)).1 }) rest complex

-- The frames of a complex codec are whole.
abbrev FitsCodec : Bool → List ℤ → Type 0
FitsCodec true samples = IsWhole samples
FitsCodec false samples = Unit

pub undo_all_complex :
    (c : PredictiveCodec) (samples : List ℤ)
    → c.complex ≡ true
    → IsWhole samples
    → All IsInt16 samples
    → undo_all c (residuals c samples) ≡ (pass_all c samples, samples)
unfolding undo_all residuals pass_all
undo_all_complex c samples complex whole fit =
    let undone = undo-residuals_complex c.cx samples whole fit in
    ap (undo_all c)
      (if-true (residuals_complex c.cx samples) (residuals_real c.rl samples) c.complex complex)
    ∙ if-true _ _ c.complex complex
    ∙ ap (λ (u : List ℤ × List ComplexStage). (record c { cx = u.1 }, u.0)) undone
    ∙ ap (λ s. (s, samples))
        (sym (pass_complex_lem c samples complex)
          ∙ sym (if-true (pass_complex c samples) (pass_real c samples) c.complex complex))

pub undo_all_real :
    (c : PredictiveCodec) (samples : List ℤ)
    → c.complex ≡ false
    → All IsInt16 samples
    → undo_all c (residuals c samples) ≡ (pass_all c samples, samples)
unfolding undo_all residuals pass_all
undo_all_real c samples real fit =
    let undone = undo-residuals_real c.rl samples fit in
    ap (undo_all c)
      (if-false (residuals_complex c.cx samples) (residuals_real c.rl samples) c.complex real)
    ∙ if-false _ _ c.complex real
    ∙ ap (λ (u : List ℤ × List RealStage). (record c { rl = u.1 }, u.0)) undone
    ∙ ap (λ s. (s, samples))
        (sym (pass_real_lem c samples real)
          ∙ sym (if-false (pass_complex c samples) (pass_real c samples) c.complex real))

-- A number of samples that fills its steps.
pub even-IsWhole : (samples : List ℤ) → length samples % 2 ≡ 0 → IsWhole samples
even-IsWhole [] e = tt
even-IsWhole (a ∷ []) e = absurd (omega arith)
even-IsWhole (a ∷ b ∷ rest) e = even-IsWhole rest (omega arith)

pub length-residuals_real :
    (rl : List RealStage) (samples : List ℤ) → length (residuals_real rl samples) ≡ length samples
unfolding residuals_real
length-residuals_real rl [] = refl
length-residuals_real rl (x ∷ xs) = ap suc (length-residuals_real (forward_cascade rl x).1 xs)

pub length-residuals_complex :
    (cx : List ComplexStage) (samples : List ℤ)
    → IsWhole samples
    → length (residuals_complex cx samples) ≡ length samples
unfolding residuals_complex
length-residuals_complex cx [] whole = refl
length-residuals_complex cx (a ∷ []) whole = absurd whole
length-residuals_complex cx (a ∷ b ∷ rest) whole =
    ap (λ (n : ℕ). suc (suc n))
      (length-residuals_complex (forward_complexes cx (a, b)).1 rest whole)

pub step_complex : (c : PredictiveCodec) → c.complex ≡ true → samples_per_step c ≡ 2
unfolding samples_per_step
step_complex c e = if-true 2 1 c.complex e

pub step_real : (c : PredictiveCodec) → c.complex ≡ false → samples_per_step c ≡ 1
unfolding samples_per_step
step_real c e = if-false 2 1 c.complex e
