-- ===== src/Pcm/Complex/Sound.antt =====
-- Steps of ComplexStage in src/pcm_v4.hpp beside those of the filter in `int64_t`.
use ubersdr_dsc.Base.{
  ℕ, ◌+◌, ◌*◌, ◌≡◌, refl, ap, sym, ◌∙◌, subst, true, false, ◌&&◌, Bool-cases, inl, inr,
}
use ubersdr_dsc.Pcm.Real.{is_zero}
use ubersdr_dsc.Pcm.Wide.{Wide, Pair, predict_wide, adapt_wide, push_wide}
use ubersdr_dsc.Pcm.Complex.{ComplexStage, load, predict_complex, adapt_complex, push_complex}
use ubersdr_dsc.Pcm.Complex.Room.{HasRoom, adapt_wide-HasRoom, push_wide-HasRoom}
use ubersdr_dsc.Pcm.Complex.Reference.{
  reference, IsNarrow, predict-load, adapt-load, adapt-IsNarrow, push-reference, push-IsNarrow,
}

-- The flag of an update and the steps it takes.
adapt-kept :
    (e : Pair) (s : ComplexStage)
    → ((adapt_complex e s).gone_wide ≡ s.gone_wide) × ((adapt_complex e s).mu ≡ s.mu)
unfolding adapt_complex
adapt-kept (er, ei) s = elim (Bool-cases (is_zero er && is_zero ei)) [
  | inl zero_error ↦ rw zero_error (refl, refl)
  | inr moves ↦ rw moves (refl, refl)
]

pub adapt_wide-mu : (e : Pair) (s : Wide) → (adapt_wide e s).mu ≡ s.mu
unfolding adapt_wide
adapt_wide-mu (er, ei) s = elim (Bool-cases (is_zero er && is_zero ei)) [
  | inl zero_error ↦ rw zero_error refl
  | inr moves ↦ rw moves refl
]

pub push_wide-mu : (x : Pair) (s : Wide) → (push_wide x s).mu ≡ s.mu
unfolding push_wide
push_wide-mu (xr, xi) s = refl

-- A stage beside its reference, with room for updates of `slack` in all.
pub record IsSound (mu slack : ℕ) (s : ComplexStage) : Type 0 where
  pub same_mu : (reference s).mu ≡ mu
  pub room : HasRoom slack (reference s)
  pub narrow : s.gone_wide ≡ false → IsNarrow s

-- The update and the push, with the error `e` and the sample `x`.
abbrev pub moved_on : Pair → Pair → Wide → Wide
moved_on e x w = push_wide x (adapt_wide e w)

pub moved_on-HasRoom :
    (mu slack : ℕ) (e x : Pair) (w : Wide)
    → w.mu ≡ mu
    → HasRoom (slack + 2 * mu) w
    → HasRoom slack (moved_on e x w)
moved_on-HasRoom mu slack (er, ei) x w same room =
    push_wide-HasRoom slack x (adapt_wide (er, ei) w) (
      adapt_wide-HasRoom slack w er ei
        (subst (λ (m : ℕ). HasRoom (slack + 2 * m) w) (sym same) room))

pub reference_narrow : (s : ComplexStage) → s.gone_wide ≡ false → reference s ≡ load s
unfolding reference
reference_narrow s e = rw e refl

pub reference_wide : (s : ComplexStage) → s.gone_wide ≡ true → reference s ≡ s.wide_stage
unfolding reference
reference_wide s e = rw e refl

module _ (mu slack : ℕ) (s : ComplexStage) (sound : IsSound mu (slack + 2 * mu) s)
    (stays : s.gone_wide ≡ false) where
  room_here : HasRoom (slack + 2 * mu) (load s)
  room_here = subst (HasRoom (slack + 2 * mu)) (reference_narrow s stays) sound.room

  -- One step in `int32_t` is the reference's step.
  pub narrow_step-reference :
      (e x : Pair) → reference (push_complex x (adapt_complex e s)) ≡ moved_on e x (reference s)
  narrow_step-reference e x =
      push-reference x (adapt_complex e s) ((adapt-kept e s).0 ∙ stays)
      ∙ ap (push_wide x) (sym (adapt-load (slack + 2 * mu) s (sound.narrow stays) room_here e))
      ∙ ap (λ w. moved_on e x w) (sym (reference_narrow s stays))

  pub narrow_step-IsSound : (e x : Pair) → IsSound mu slack (push_complex x (adapt_complex e s))
  narrow_step-IsSound e x = record {
    same_mu =
        ap (λ (w : Wide). w.mu) (narrow_step-reference e x)
        ∙ push_wide-mu x (adapt_wide e (reference s))
        ∙ adapt_wide-mu e (reference s)
        ∙ sound.same_mu;
    room =
        subst (HasRoom slack) (sym (narrow_step-reference e x))
          (moved_on-HasRoom mu slack e x (reference s) sound.same_mu sound.room);
    narrow = λ still.
        push-IsNarrow x (adapt_complex e s)
          (adapt-IsNarrow (slack + 2 * mu) s (sound.narrow stays) room_here e) still;
  }

  pub narrow_predict : predict_complex s ≡ predict_wide (reference s)
  narrow_predict =
      sym (predict-load (slack + 2 * mu) s (sound.narrow stays) room_here)
      ∙ ap predict_wide (sym (reference_narrow s stays))
