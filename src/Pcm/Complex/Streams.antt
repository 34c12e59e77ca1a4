-- ===== src/Pcm/Complex/Streams.antt =====
-- Whole streams through the complex filter of src/pcm_v4.hpp: in `int32_t`, in `int64_t`, and with
-- every update clamped.
use ubersdr_dsc.Base.{
  ℕ, zero, suc, ◌+◌, ◌*◌, ◌^◌, ◌≤◌, ◌<◌, ◌≡◌, refl, ap, sym, ◌∙◌, subst, arith, Bool, true, false,
  if◌then◌else◌, Bool-cases, inl, inr, List, [], ◌∷◌, All, All-weaken, length, leb, map,
}
use ubersdr_dsc.Base.Int.{ℤ, pos, magnitude}
use ubersdr_dsc.Pcm.Arith.{tap_limit, sign, history_len}
use ubersdr_dsc.Pcm.Window.{replicate, length-replicate, All-replicate}
use ubersdr_dsc.Pcm.Real.{max_abs}
use ubersdr_dsc.Pcm.Wide.{Wide, begin_wide}
use ubersdr_dsc.Pcm.Complex.{ComplexStage, load, begin_complex, new_complex}
use ubersdr_dsc.Pcm.Complex.Taps.{InRoom}
use ubersdr_dsc.Pcm.Complex.Room.{HasRoom, begun_room, IsSign}
use ubersdr_dsc.Pcm.Complex.Reference.{reference, IsNarrow}
use ubersdr_dsc.Pcm.Complex.Sound.{IsSound}
use ubersdr_dsc.Pcm.Complex.Equivalence.{run_agrees}
use ubersdr_dsc.Pcm.Complex.Run.{Frame, run, complex_frame, complex_stream, wide_stream}

within : (fast : Bool) (w : ℤ) → InRoom fast 0 w → InRoom false 0 w
within true w h = h
within false w h = h

pub begin_wide-HasRoom : (n : ℕ) (w : Wide) → HasRoom 0 w → HasRoom (2 * w.mu * n) (begin_wide n w)
unfolding begin_wide
begin_wide-HasRoom n w room =
    let taps =
      begun_room (2 * w.mu * n)
        (leb (max_abs (max_abs 0 w.taps_r) w.taps_i + 2 * w.mu * n) tap_limit) w.taps_r w.taps_i
        refl (All-weaken (InRoom w.fast 0) (InRoom false 0) (within w.fast) w.taps_r room.taps_r)
        (All-weaken (InRoom w.fast 0) (InRoom false 0) (within w.fast) w.taps_i room.taps_i) in
    record { taps_r = taps.0; taps_i = taps.1; signs_r = room.signs_r; signs_i = room.signs_i }

begin-reference :
    (n : ℕ) (s : ComplexStage) → reference (begin_complex n s) ≡ begin_wide n (reference s)
unfolding reference begin_complex begin_wide load
begin-reference n s = elim (Bool-cases s.gone_wide) [
  | inl gone ↦ simp gone refl
  | inr stays ↦ simp stays refl
]

begin-IsNarrow :
    (n : ℕ) (s : ComplexStage) → IsNarrow s → s.gone_wide ≡ false → IsNarrow (begin_complex n s)
unfolding begin_complex
begin-IsNarrow n s narrow stays = subst IsNarrow (sym (chosen s.gone_wide stays)) (record {
  fits = narrow.fits;
  longer = narrow.longer;
  same_length = narrow.same_length;
  few = narrow.few;
  small_step = narrow.small_step;
  small_r = narrow.small_r;
  small_i = narrow.small_i;
})
  where
    chosen :
        (b : Bool)
        → b ≡ false
        → (if b then record s { wide_stage = begin_wide n s.wide_stage } else record s {
          fast = leb (max_abs (max_abs 0 s.taps_r) s.taps_i + 2 * s.mu * n) tap_limit;
        })
          ≡ record s { fast = leb (max_abs (max_abs 0 s.taps_r) s.taps_i + 2 * s.mu * n) tap_limit }
    chosen b e = rw e refl

begin-gone : (n : ℕ) (s : ComplexStage) → (begin_complex n s).gone_wide ≡ s.gone_wide
unfolding begin_complex
begin-gone n s = elim (Bool-cases s.gone_wide) [
  | inl gone ↦ simp gone refl
  | inr stays ↦ simp stays refl
]

begin_wide-mu : (n : ℕ) (w : Wide) → (begin_wide n w).mu ≡ w.mu
unfolding begin_wide
begin_wide-mu n w = refl

-- A packet begins with room for its frames.
begin-IsSound :
    (mu n : ℕ) (s : ComplexStage) → IsSound mu 0 s → IsSound mu (2 * mu * n) (begin_complex n s)
begin-IsSound mu n s sound = record {
  same_mu =
      ap (λ (w : Wide). w.mu) (begin-reference n s) ∙ begin_wide-mu n (reference s) ∙ sound.same_mu;
  room = subst (HasRoom (2 * mu * n)) (sym (begin-reference n s)) (
      subst (λ (m : ℕ). HasRoom (2 * m * n) (begin_wide n (reference s))) sound.same_mu
        (begin_wide-HasRoom n (reference s) sound.room));
  narrow = λ stays.
      begin-IsNarrow n s (sound.narrow (sym (begin-gone n s) ∙ stays))
        (sym (begin-gone n s) ∙ stays);
}

stream_agrees :
    (mu : ℕ) (s : ComplexStage) (ps : List (List Frame))
    → IsSound mu 0 s
    → (complex_stream s ps).0 ≡ (wide_stream (reference s) ps).0
unfolding complex_stream wide_stream
stream_agrees mu s [] sound = refl
stream_agrees mu s (p ∷ ps) sound =
    let first =
      run_agrees mu (begin_complex (length p) s) p (begin-IsSound mu (length p) s sound) in
    let rest = stream_agrees mu (run complex_frame (begin_complex (length p) s) p).1 ps first.2 in
    rw (sym (begin-reference (length p) s), sym first.0, sym first.1)
      (ap (λ l. (run complex_frame (begin_complex (length p) s) p).0 ∷ l) rest)

-- The stage that a stream leaves behind.
stream-IsSound :
    (mu : ℕ) (s : ComplexStage) (ps : List (List Frame))
    → IsSound mu 0 s
    → IsSound mu 0 (complex_stream s ps).1
unfolding complex_stream
stream-IsSound mu s [] sound = sound
stream-IsSound mu s (p ∷ ps) sound =
    stream-IsSound mu (run complex_frame (begin_complex (length p) s) p).1 ps
      (run_agrees mu (begin_complex (length p) s) p (begin-IsSound mu (length p) s sound)).2

All-sign-replicate : (n : ℕ) → All IsSign (map sign (replicate n (pos 0)))
unfolding sign
All-sign-replicate zero = tt
All-sign-replicate (suc n) = (omega arith, All-sign-replicate n)

pub new_complex-HasRoom : (order mu : ℕ) → HasRoom 0 (load (new_complex order mu))
unfolding load new_complex
new_complex-HasRoom order mu = record {
  taps_r = All-replicate (InRoom false 0) order (pos 0) (omega arith);
  taps_i = All-replicate (InRoom false 0) order (pos 0) (omega arith);
  signs_r = All-sign-replicate (history_len order);
  signs_i = All-sign-replicate (history_len order);
}

longer_history :
    (order : ℕ) → order ≤ 64 → 0 < order → order < length (replicate (history_len order) (pos 0))
unfolding history_len
longer_history order h k = ground (
  arith,
  length-replicate (history_len order) (pos 0),
  length-replicate 64 (pos 0),
  length-replicate (order * 8) (pos 0),
)

new_complex-IsNarrow :
    (order mu : ℕ) → 0 < order → order ≤ 63 → mu ≤ 2 ^ 29 → IsNarrow (new_complex order mu)
unfolding new_complex
new_complex-IsNarrow order mu some_taps few small = record {
  small_step = small;
  fits = (some_taps, omega arith, longer_history order (omega arith) some_taps);
  longer = longer_history order (omega arith) some_taps;
  same_length = refl;
  few = omega (arith, length-replicate order (pos 0));
  small_r = All-replicate (λ h. magnitude h ≤ 2 ^ 31) (history_len order) (pos 0) (omega arith);
  small_i = All-replicate (λ h. magnitude h ≤ 2 ^ 31) (history_len order) (pos 0) (omega arith);
}

narrow_reference : (order mu : ℕ) → reference (new_complex order mu) ≡ load (new_complex order mu)
unfolding reference new_complex
narrow_reference order mu = refl

new_complex-IsSound :
    (order mu : ℕ) → 0 < order → order ≤ 63 → mu ≤ 2 ^ 29 → IsSound mu 0 (new_complex order mu)
unfolding new_complex load
new_complex-IsSound order mu some_taps few small = record {
  same_mu = ap (λ (w : Wide). w.mu) (narrow_reference order mu);
  room = subst (HasRoom 0) (sym (narrow_reference order mu)) (new_complex-HasRoom order mu);
  narrow = λ _. new_complex-IsNarrow order mu some_taps few small;
}

-- A new complex filter of 1 to 63 taps with a step of at most 2 ^ 29: for every stream of packets, of any
-- residuals and samples, the stage in `int32_t`, which goes over to `int64_t` when a sample leaves
-- that type, returns exactly what the filter in `int64_t` throughout returns.
pub complex_stream-eq-wide_stream :
    (order mu : ℕ)
    → 0 < order
    → order ≤ 63
    → mu ≤ 2 ^ 29
    → (packets : List (List Frame))
    → (complex_stream (new_complex order mu) packets).0
      ≡ (wide_stream (load (new_complex order mu)) packets).0
complex_stream-eq-wide_stream order mu some_taps few small packets =
    stream_agrees mu (new_complex order mu) packets
      (new_complex-IsSound order mu some_taps few small)
    ∙ ap (λ w. (wide_stream w packets).0) (narrow_reference order mu)

-- After every stream of packets through a new complex filter of 1 to 63 taps with a step of at most
-- 2 ^ 29, whose updates are cut to `int32_t`, both parts of every
-- tap have a magnitude of at most 2 ^ 24, in the stage or, once it has gone wide, in its
-- `int64_t` filter.
pub complex_stream_taps :
    (order mu : ℕ)
    → 0 < order
    → order ≤ 63
    → mu ≤ 2 ^ 29
    → (packets : List (List Frame))
    → All
        (λ w. magnitude w ≤ tap_limit)
        (reference (complex_stream (new_complex order mu) packets).1).taps_r
      × All
          (λ w. magnitude w ≤ tap_limit)
          (reference (complex_stream (new_complex order mu) packets).1).taps_i
complex_stream_taps order mu some_taps few small packets =
    let after =
      stream-IsSound mu (new_complex order mu) packets
        (new_complex-IsSound order mu some_taps few small) in
    let w = reference (complex_stream (new_complex order mu) packets).1 in
    (
      All-weaken (InRoom w.fast 0) (λ t. magnitude t ≤ tap_limit) (λ t h. omega arith) w.taps_r
          after.room.taps_r,
      All-weaken (InRoom w.fast 0) (λ t. magnitude t ≤ tap_limit) (λ t h. omega arith) w.taps_i
          after.room.taps_i,
    )
