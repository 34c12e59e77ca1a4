-- ===== src/Pcm/Complex/Clamp.antt =====
-- The fast path of the complex filter in src/pcm_v4.hpp, which leaves the clamp out.
use ubersdr_dsc.Base.{
  ℕ, ◌+◌, ◌*◌, ◌≡◌, refl, ap, sym, ◌∙◌, subst, arith, false, List, [], ◌∷◌, length,
}
use ubersdr_dsc.Pcm.Wide.{
  Wide, Pair, begin_wide, push_wide, inverse_wide, forward_wide, predict_wide,
}
use ubersdr_dsc.Pcm.Complex.{load, new_complex}
use ubersdr_dsc.Pcm.Complex.Room.{HasRoom, adapt_wide_unclamped}
use ubersdr_dsc.Pcm.Complex.Sound.{moved_on, moved_on-HasRoom, push_wide-mu, adapt_wide-mu}
use ubersdr_dsc.Pcm.Complex.Equivalence.{frames_room}
use ubersdr_dsc.Pcm.Complex.Streams.{begin_wide-HasRoom, new_complex-HasRoom}
use ubersdr_dsc.Pcm.Complex.Run.{
  Frame, residual, sample, run, wide_frame, wide_stream, clamped_stream,
}

-- The filter with its fast path off.
abbrev slow : Wide → Wide
slow w = record w { fast = false }

slow-moved_on :
    (slack : ℕ) (e x : Pair) (w : Wide)
    → HasRoom (slack + 2 * w.mu) w
    → slow (moved_on e x w) ≡ moved_on e x (slow w)
unfolding push_wide
slow-moved_on slack (er, ei) (xr, xi) w room =
    ap (push_wide (xr, xi)) (adapt_wide_unclamped slack w er ei room)

-- A frame's outcome, with and without the fast path.
abbrev Same : ℕ → ℕ → Pair × Wide → Pair × Wide → Type 0
Same mu slack done expected =
    (done.0 ≡ expected.0) × (slow done.1 ≡ expected.1) × (done.1.mu ≡ mu) × HasRoom slack done.1

frame-Same :
    (mu slack : ℕ) (w : Wide) (f : Frame)
    → w.mu ≡ mu
    → HasRoom (slack + 2 * mu) w
    → Same mu slack (wide_frame w f) (wide_frame (slow w) f)
unfolding wide_frame inverse_wide forward_wide predict_wide
frame-Same mu slack w (residual e) same room = (
  refl,
  slow-moved_on slack e _ w (subst (λ (m : ℕ). HasRoom (slack + 2 * m) w) (sym same) room),
  push_wide-mu _ _ ∙ adapt_wide-mu e w ∙ same,
  moved_on-HasRoom mu slack e _ w same room,
)
frame-Same mu slack w (sample x) same room = (
  refl,
  slow-moved_on slack _ x w (subst (λ (m : ℕ). HasRoom (slack + 2 * m) w) (sym same) room),
  push_wide-mu _ _ ∙ adapt_wide-mu _ w ∙ same,
  moved_on-HasRoom mu slack _ x w same room,
)

run_same :
    (mu : ℕ) (w : Wide) (fs : List Frame)
    → w.mu ≡ mu
    → HasRoom (2 * mu * length fs) w
    → ((run wide_frame w fs).0 ≡ (run wide_frame (slow w) fs).0)
      × (slow (run wide_frame w fs).1 ≡ (run wide_frame (slow w) fs).1)
      × ((run wide_frame w fs).1.mu ≡ mu)
      × HasRoom 0 (run wide_frame w fs).1
run_same mu w [] same room = (refl, refl, same, subst (λ (n : ℕ). HasRoom n w) (omega arith) room)
run_same mu w (f ∷ fs) same room =
    let first =
      frame-Same mu (2 * mu * length fs) w f same
        (subst (λ (n : ℕ). HasRoom n w) (frames_room mu (length fs)) room) in
    let rest = run_same mu (wide_frame w f).1 fs first.2 first.3 in
    (
      rw (sym first.0, sym first.1) (ap (λ l. (wide_frame w f).0 ∷ l) rest.0),
      rw (sym first.1) rest.1,
      rest.2,
      rest.3,
    )

begin-slow : (n : ℕ) (w : Wide) → (slow (begin_wide n w) ≡ slow w) × ((begin_wide n w).mu ≡ w.mu)
unfolding begin_wide
begin-slow n w = (refl, refl)

streams_same :
    (w v : Wide) (ps : List (List Frame))
    → slow w ≡ slow v
    → HasRoom 0 w
    → (wide_stream w ps).0 ≡ (clamped_stream v ps).0
unfolding wide_stream clamped_stream
streams_same w v [] same room = refl
streams_same w v (p ∷ ps) same room =
    let begun = begin-slow (length p) w in
    let first =
      run_same w.mu (begin_wide (length p) w) p begun.1 (begin_wide-HasRoom (length p) w room) in
    let start : slow (begin_wide (length p) w) ≡ slow v = begun.0 ∙ same in
    let ends : slow (run wide_frame (begin_wide (length p) w) p).1
        ≡ slow (run wide_frame (slow v) p).1 =
      ap slow (first.1 ∙ ap (λ u. (run wide_frame u p).1) start) in
    let rest =
      streams_same (run wide_frame (begin_wide (length p) w) p).1 (run wide_frame (slow v) p).1 ps
        ends first.3 in
    pairs (first.0 ∙ ap (λ u. (run wide_frame u p).0) start) rest
  where
    pairs : {a b : List Pair} {as' bs' : List (List Pair)} → a ≡ b → as' ≡ bs' → a ∷ as' ≡ b ∷ bs'
    pairs e h = cc

-- For every stream of packets through a new complex filter, whatever its order and step, the filter that skips
-- the clamp in the packets whose beginning allows it returns exactly what the filter that clamps
-- every update returns.
pub wide_stream-eq-clamped_stream :
    (order mu : ℕ) (packets : List (List Frame))
    → (wide_stream (load (new_complex order mu)) packets).0
      ≡ (clamped_stream (load (new_complex order mu)) packets).0
wide_stream-eq-clamped_stream order mu packets =
    streams_same (load (new_complex order mu)) (load (new_complex order mu)) packets refl
      (new_complex-HasRoom order mu)
