-- ===== src/Pcm/Real.antt =====
-- The adaptive filter for mono audio: RealStage of src/pcm_v4.hpp.
use ubersdr_dsc.Base.{ℕ, ◌+◌, ◌*◌, ◌%◌, ◌^◌, Bool, false, if◌then◌else◌, ltb, leb, List, [], ◌∷◌}
use ubersdr_dsc.Base.Int.{ℤ, pos, magnitude, ◌+ℤ◌, ◌-ℤ◌, ◌*ℤ◌}
use ubersdr_dsc.Pcm.Arith.{
  tap_shift, tap_limit, leak_shift_real, sign, round_shift, leak, clamp_tap, to_uint, to_int,
  history_len,
}
use ubersdr_dsc.Pcm.Window.{replicate, window, store, advance}

pub record RealStage : Type 0 where
  pub order : ℕ
  pub mu : ℕ
  -- This packet's updates may skip the clamp.
  pub fast : Bool
  pub idx : ℕ
  pub taps : List ℤ
  pub history : List ℤ
  -- The signs of the history.
  pub signs : List ℤ

unfoldable pub new_real : ℕ → ℕ → RealStage
new_real order mu = record {
  order = order;
  mu = mu;
  fast = false;
  idx = order;
  taps = replicate order (pos 0);
  history = replicate (history_len order) (pos 0);
  signs = replicate (history_len order) (pos 0);
}

-- The largest magnitude among the taps, from a first one.
unfoldable pub max_abs : ℕ → List ℤ → ℕ
max_abs most [] = most
max_abs most (w ∷ ws) = max_abs (if ltb most (magnitude w) then magnitude w else most) ws

unfoldable pub begin_real : ℕ → RealStage → RealStage
begin_real steps s = record s { fast = leb (max_abs 0 s.taps + s.mu * steps) tap_limit }

-- The sum of products in `uint64_t`, which wraps.
unfoldable pub wrapped_dot : ℕ → List ℤ → List ℤ → ℕ
wrapped_dot sum [] hs = sum
wrapped_dot sum (w ∷ ws) [] = sum
wrapped_dot sum (w ∷ ws) (h ∷ hs) = wrapped_dot ((sum + to_uint 64 w * to_uint 64 h) % 2 ^ 64) ws hs

unfoldable pub predict_real : RealStage → ℤ
unfolding wrapped_dot
predict_real s =
    round_shift (to_int 64 (wrapped_dot 0 s.taps (window s.order s.idx s.history))) tap_shift

-- The update of one tap, by `m` and the sign of its history sample.
unfoldable pub real_tap : Bool → ℤ → ℤ → ℤ → ℤ
real_tap fast m w sgn =
    if fast
    then w +ℤ (m *ℤ sgn -ℤ leak w leak_shift_real)
    else clamp_tap (w +ℤ m *ℤ sgn -ℤ leak w leak_shift_real)

unfoldable pub real_taps : Bool → ℤ → List ℤ → List ℤ → List ℤ
unfolding real_tap
real_taps fast m [] sgns = []
real_taps fast m (w ∷ ws) [] = w ∷ ws
real_taps fast m (w ∷ ws) (sgn ∷ sgns) = real_tap fast m w sgn ∷ real_taps fast m ws sgns

-- Tests of an integer against zero.
unfoldable pub is_zero : ℤ → Bool
is_zero v = leb (magnitude v) 0

unfoldable pub adapt_real : ℤ → RealStage → RealStage
unfolding real_taps is_zero
adapt_real e s = if is_zero e then s else record s {
  taps = real_taps s.fast (pos s.mu *ℤ sign e) s.taps (window s.order s.idx s.signs);
}

unfoldable pub push_real : ℤ → RealStage → RealStage
push_real x s = record s {
  history = store s.order s.idx s.history x;
  signs = store s.order s.idx s.signs (sign x);
  idx = advance s.order s.idx s.history;
}

-- The residual of a sample.
unfoldable pub forward_real : RealStage → ℤ → ℤ × RealStage
forward_real s x = let e = x -ℤ predict_real s in (e, push_real x (adapt_real e s))

-- The sample of a residual.
unfoldable pub inverse_real : RealStage → ℤ → ℤ × RealStage
inverse_real s e = let x = e +ℤ predict_real s in (x, push_real x (adapt_real e s))

-- The cascade in the encoder's direction: each stage takes what the one before it left.
unfoldable pub forward_cascade : List RealStage → ℤ → ℤ × List RealStage
forward_cascade [] x = (x, [])
forward_cascade (s ∷ rest) x =
    let done = forward_real s x in
    let others = forward_cascade rest done.0 in (others.0, done.1 ∷ others.1)

-- The cascade undone: the last stage first.
unfoldable pub inverse_cascade : List RealStage → ℤ → ℤ × List RealStage
inverse_cascade [] e = (e, [])
inverse_cascade (s ∷ rest) e =
    let others = inverse_cascade rest e in
    let done = inverse_real s others.0 in (done.0, done.1 ∷ others.1)
