-- ===== src/Pcm/Complex/Reference.antt =====
-- ComplexStage of src/pcm_v4.hpp beside the filter in `int64_t` throughout.
use ubersdr_dsc.Base.{
  ℕ, ◌^◌, ◌≤◌, ◌<◌, ◌≡◌, refl, sym, ◌∙◌, arith, Bool, true, false, ◌&&◌, if◌then◌else◌, Bool-cases,
  inl, inr, List, All, All-weaken, length,
}
use ubersdr_dsc.Base.Int.{ℤ, magnitude, pos, negsuc, neg, ◌*ℤ◌}
use ubersdr_dsc.Pcm.Arith.{sign, wrap_32}
use ubersdr_dsc.Pcm.Arith.Laws.{mul-one-sign, wrap_32-eq_of_lt}
use ubersdr_dsc.Pcm.Window.{window, Fits, Fits-store, length-store, All-window, All-store}
use ubersdr_dsc.Pcm.Window.Map.{window-map, store-map}
use ubersdr_dsc.Pcm.Real.{is_zero}
use ubersdr_dsc.Pcm.Wide.{Wide, Pair, predict_wide, adapt_wide, push_wide, wide_tap_r, wide_tap_i}
use ubersdr_dsc.Pcm.Complex.{
  ComplexStage, load, predict_complex, adapt_complex, push_complex, tap_r, tap_i, fits_32,
}
use ubersdr_dsc.Pcm.Complex.Sums.{sums-agree, IsSmall}
use ubersdr_dsc.Pcm.Complex.Room.{HasRoom}
use ubersdr_dsc.Pcm.Complex.Taps.{InRoom, tap_r_lem, tap_i_lem, update_taps-eq, length-update_taps}

-- The filter that a stage stands for.
unfoldable pub reference : ComplexStage → Wide
unfolding load
reference s = if s.gone_wide then s.wide_stage else load s

-- What a stage in `int32_t` keeps: room for its window, few taps, and samples that fit.
pub record IsNarrow (s : ComplexStage) : Type 0 where
  pub fits : Fits s.order s.idx s.hist_r
  pub longer : s.order < length s.hist_r
  pub same_length : length s.hist_i ≡ length s.hist_r
  pub few : length s.taps_r ≤ 64
  pub small_step : s.mu ≤ 2 ^ 29
  pub small_r : All (IsSmall (2 ^ 31)) s.hist_r
  pub small_i : All (IsSmall (2 ^ 31)) s.hist_i

within_limit :
    (fast : Bool) (slack : ℕ) (ws : List ℤ) → All (InRoom fast slack) ws → All (IsSmall (2 ^ 24)) ws
within_limit fast slack ws =
    All-weaken (InRoom fast slack) (IsSmall (2 ^ 24)) (λ w h. omega arith) ws

module _ (slack : ℕ) (s : ComplexStage) (narrow : IsNarrow s) (room : HasRoom slack (load s)) where
  open narrow use {fits, longer, same_length, few, small_step, small_r, small_i}

  IsSmall-taps_r : All (IsSmall (2 ^ 24)) s.taps_r
  unfolding load
  IsSmall-taps_r = within_limit s.fast slack s.taps_r room.taps_r

  IsSmall-taps_i : All (IsSmall (2 ^ 24)) s.taps_i
  unfolding load
  IsSmall-taps_i = within_limit s.fast slack s.taps_i room.taps_i

  pub predict-load : predict_wide (load s) ≡ predict_complex s
  unfolding predict_wide predict_complex load
  predict-load =
      let agree =
        sums-agree s.taps_r s.taps_i (window s.order s.idx s.hist_r) (window s.order s.idx s.hist_i)
          few IsSmall-taps_r IsSmall-taps_i
          (All-window (IsSmall (2 ^ 31)) s.order s.idx s.hist_r small_r)
          (All-window (IsSmall (2 ^ 31)) s.order s.idx s.hist_i small_i) in
      rw (agree.0, agree.1) refl

  -- The steps are not cut.
  step_small : (e : ℤ) → magnitude (pos s.mu *ℤ sign e) ≤ 2 ^ 29
  step_small e = omega (arith, mul-one-sign s.mu e, small_step)

  step_kept : (e : ℤ) → wrap_32 (pos s.mu *ℤ sign e) ≡ pos s.mu *ℤ sign e
  step_kept e = wrap_32-eq_of_lt (pos s.mu *ℤ sign e) (omega (arith, step_small e))

  pub adapt-load : (e : Pair) → adapt_wide e (load s) ≡ load (adapt_complex e s)
  unfolding adapt_wide adapt_complex load
  adapt-load (er, ei) = elim (Bool-cases (is_zero er && is_zero ei)) [
    | inl zero_error ↦ rw zero_error refl
    | inr moves ↦
        rw
          (
            moves,
            step_kept er,
            step_kept ei,
            window-map sign s.order s.idx s.hist_r,
            window-map sign s.order s.idx s.hist_i,
            update_taps-eq
                (λ sr si w.
                  wide_tap_r s.fast (pos s.mu *ℤ sign er) (pos s.mu *ℤ sign ei) sr (neg si) w)
                (λ hr hi w. tap_r s.fast (pos s.mu *ℤ sign er) (pos s.mu *ℤ sign ei) hr hi w)
                (IsSmall (2 ^ 24)) sign
                (λ hr hi w h.
                  tap_r_lem (pos s.mu *ℤ sign er) (pos s.mu *ℤ sign ei) hr hi w h (step_small er)
                    (step_small ei) s.fast)
                s.taps_r (window s.order s.idx s.hist_r) (window s.order s.idx s.hist_i)
                IsSmall-taps_r,
            update_taps-eq
                (λ sr si w.
                  wide_tap_i s.fast (pos s.mu *ℤ sign er) (pos s.mu *ℤ sign ei) sr (neg si) w)
                (λ hr hi w. tap_i s.fast (pos s.mu *ℤ sign er) (pos s.mu *ℤ sign ei) hr hi w)
                (IsSmall (2 ^ 24)) sign
                (λ hr hi w h.
                  tap_i_lem (pos s.mu *ℤ sign er) (pos s.mu *ℤ sign ei) hr hi w h (step_small er)
                    (step_small ei) s.fast)
                s.taps_i (window s.order s.idx s.hist_r) (window s.order s.idx s.hist_i)
                IsSmall-taps_i,
          )
          refl
  ]

  length-adapt : (e : Pair) → length (adapt_complex e s).taps_r ≡ length s.taps_r
  unfolding adapt_complex
  length-adapt (er, ei) = elim (Bool-cases (is_zero er && is_zero ei)) [
    | inl zero_error ↦ rw zero_error refl
    | inr moves ↦ rw moves (length-update_taps _ s.taps_r _ _)
  ]

  -- An update leaves the window and the samples alone.
  pub adapt-IsNarrow : (e : Pair) → IsNarrow (adapt_complex e s)
  unfolding adapt_complex
  adapt-IsNarrow (er, ei) = elim (Bool-cases (is_zero er && is_zero ei)) [
    | inl zero_error ↦ rw zero_error narrow
    | inr moves ↦ rw moves (record {
      fits = fits;
      longer = longer;
      same_length = same_length;
      few = omega (
        arith,
        length-update_taps _ s.taps_r (window s.order s.idx s.hist_r)
            (window s.order s.idx s.hist_i),
      );
      small_step = small_step;
      small_r = small_r;
      small_i = small_i;
    })
  ]

fits_32-IsSmall : (a : ℤ) → fits_32 a ≡ true → IsSmall (2 ^ 31) a
unfolding fits_32
fits_32-IsSmall (pos n) h = ground arith
fits_32-IsSmall (negsuc n) h = ground arith

both : (a b : Bool) → (a && b) ≡ true → (a ≡ true) × (b ≡ true)
both true true h = (refl, refl)
both true false h = cc
both false b h = cc

goes_wide :
    (xr xi : ℤ) (s : ComplexStage)
    → (fits_32 xr && fits_32 xi) ≡ false
    → (push_complex (xr, xi) s).gone_wide ≡ true
unfolding push_complex
goes_wide xr xi s overflows = rw overflows refl

both_ways : true ≡ false → ⊥
both_ways e = cc

-- Pushing a sample keeps this, unless the stage goes wide.
pub push-IsNarrow :
    (x : Pair) (s : ComplexStage)
    → IsNarrow s
    → (push_complex x s).gone_wide ≡ false
    → IsNarrow (push_complex x s)
unfolding push_complex
push-IsNarrow (xr, xi) s narrow stays = elim (Bool-cases (fits_32 xr && fits_32 xi)) [
  | inl fit ↦
      let fit_both = both (fits_32 xr) (fits_32 xi) fit in
      rw fit (record {
        fits = Fits-store s.order s.idx s.hist_r xr narrow.fits narrow.longer;
        longer = omega (arith, length-store s.order s.idx s.hist_r xr narrow.fits, narrow.longer);
        same_length =
            length-store s.order s.idx s.hist_i xi
              (narrow.fits.0, narrow.fits.1, omega (arith, narrow.same_length, narrow.fits))
            ∙ narrow.same_length
            ∙ sym (length-store s.order s.idx s.hist_r xr narrow.fits);
        few = narrow.few;
        small_step = narrow.small_step;
        small_r =
            All-store (IsSmall (2 ^ 31)) s.order s.idx s.hist_r xr narrow.small_r
              (fits_32-IsSmall xr fit_both.0);
        small_i =
            All-store (IsSmall (2 ^ 31)) s.order s.idx s.hist_i xi narrow.small_i
              (fits_32-IsSmall xi fit_both.1);
      })
  | inr overflows ↦ absurd (both_ways (sym (goes_wide xr xi s overflows) ∙ stays))
]

-- Pushing a sample, whether the stage goes wide or not.
pub push-reference :
    (x : Pair) (s : ComplexStage)
    → s.gone_wide ≡ false
    → reference (push_complex x s) ≡ push_wide x (load s)
unfolding push_complex reference push_wide load
push-reference (xr, xi) s narrow = elim (Bool-cases (fits_32 xr && fits_32 xi)) [
  | inl fit ↦
      rw
        (
          fit,
          narrow,
          store-map sign s.order s.idx s.hist_r xr,
          store-map sign s.order s.idx s.hist_i xi,
        )
        refl
  | inr overflows ↦ rw overflows refl
]
