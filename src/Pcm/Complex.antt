-- ===== src/Pcm/Complex.antt =====
-- The complex filter in `int32_t`, which goes over to `Wide` for good when a sample leaves that
-- type: ComplexStage of src/pcm_v4.hpp.
pub mod Sums
pub mod Taps
pub mod Room
pub mod Reference
pub mod Sound
pub mod Run
pub mod Equivalence
pub mod Streams
pub mod Clamp
use ubersdr_dsc.Base.{
  ℕ, ◌+◌, ◌-◌, ◌*◌, ◌/◌, ◌^◌, bit_xor, Bool, true, false, if◌then◌else◌, leb, ltb, ◌&&◌, ◌||◌, List,
  [], ◌∷◌, map,
}
use ubersdr_dsc.Base.Int.{ℤ, pos, negsuc, neg, ltb_ℤ, ◌+ℤ◌, ◌-ℤ◌, ◌*ℤ◌}
use ubersdr_dsc.Pcm.Arith.{
  tap_shift, tap_limit, leak_shift_complex, sign, round_shift, clamp_tap, history_len, wrap_32,
}
use ubersdr_dsc.Pcm.Window.{replicate, window, store, advance}
use ubersdr_dsc.Pcm.Real.{max_abs, is_zero}
use ubersdr_dsc.Pcm.Wide.{
  Wide, Pair, begin_wide, push_wide, forward_wide, inverse_wide, update_taps,
}

pub record ComplexStage : Type 0 where
  pub order : ℕ
  pub mu : ℕ
  pub fast : Bool
  pub idx : ℕ
  pub taps_r : List ℤ
  pub taps_i : List ℤ
  pub hist_r : List ℤ
  pub hist_i : List ℤ
  -- Set for good by the first sample outside `int32_t`.
  pub gone_wide : Bool
  pub wide_stage : Wide

unfoldable pub load : ComplexStage → Wide
load s = record {
  order = s.order;
  mu = s.mu;
  fast = s.fast;
  idx = s.idx;
  taps_r = s.taps_r;
  taps_i = s.taps_i;
  hist_r = s.hist_r;
  hist_i = s.hist_i;
  signs_r = map sign s.hist_r;
  signs_i = map sign s.hist_i;
}

abbrev empty_wide : Wide
empty_wide = record {
  order = 0;
  mu = 0;
  fast = false;
  idx = 0;
  taps_r = [];
  taps_i = [];
  hist_r = [];
  hist_i = [];
  signs_r = [];
  signs_i = [];
}

unfoldable pub new_complex : ℕ → ℕ → ComplexStage
new_complex order mu = record {
  order = order;
  mu = mu;
  fast = false;
  idx = order;
  taps_r = replicate order (pos 0);
  taps_i = replicate order (pos 0);
  hist_r = replicate (history_len order) (pos 0);
  hist_i = replicate (history_len order) (pos 0);
  gone_wide = false;
  wide_stage = empty_wide;
}

unfoldable pub begin_complex : ℕ → ComplexStage → ComplexStage
begin_complex steps s =
    if s.gone_wide then record s { wide_stage = begin_wide steps s.wide_stage } else record s {
      fast = leb (max_abs (max_abs 0 s.taps_r) s.taps_i + 2 * s.mu * steps) tap_limit;
    }

-- `int32_t` shifted right, which keeps the sign, and its `^`.
shift_right : ℤ → ℕ → ℤ
shift_right (pos n) k = pos (n / 2 ^ k)
shift_right (negsuc n) k = negsuc (n / 2 ^ k)

xor_ℤ : ℤ → ℤ → ℤ
xor_ℤ (pos a) (pos b) = pos (bit_xor a b)
xor_ℤ (pos a) (negsuc b) = negsuc (bit_xor a b)
xor_ℤ (negsuc a) (pos b) = negsuc (bit_xor a b)
xor_ℤ (negsuc a) (negsuc b) = pos (bit_xor a b)

-- The leakage without a branch.
unfoldable pub branchless_leak : ℤ → ℤ
unfolding shift_right xor_ℤ
branchless_leak w =
    let s = shift_right w 31 in xor_ℤ (shift_right (xor_ℤ w s -ℤ s) leak_shift_complex) s -ℤ s

-- The sums of products, exact in `int64_t`.
unfoldable pub exact_sums : ℤ → ℤ → List ℤ → List ℤ → List ℤ → List ℤ → Pair
exact_sums pr pi (wr ∷ wrs) (wi ∷ wis) (hr ∷ hrs) (hi ∷ his) =
    exact_sums (pr +ℤ (wr *ℤ hr -ℤ wi *ℤ hi)) (pi +ℤ (wr *ℤ hi +ℤ wi *ℤ hr)) wrs wis hrs his
exact_sums pr pi [] wis hrs his = (pr, pi)
exact_sums pr pi (wr ∷ wrs) [] hrs his = (pr, pi)
exact_sums pr pi (wr ∷ wrs) (wi ∷ wis) [] his = (pr, pi)
exact_sums pr pi (wr ∷ wrs) (wi ∷ wis) (hr ∷ hrs) [] = (pr, pi)

unfoldable pub predict_complex : ComplexStage → Pair
unfolding exact_sums
predict_complex s =
    let sums =
      exact_sums (pos 0) (pos 0) s.taps_r s.taps_i (window s.order s.idx s.hist_r)
        (window s.order s.idx s.hist_i) in
    (round_shift sums.0 tap_shift, round_shift sums.1 tap_shift)

-- The updates of a tap's parts from the history samples, in `int32_t`: the sums are cut at its width.
unfoldable pub tap_r : Bool → ℤ → ℤ → ℤ → ℤ → ℤ → ℤ
unfolding branchless_leak
tap_r fast mr mi hr hi r =
    let nr = wrap_32 (r +ℤ mr *ℤ sign hr +ℤ mi *ℤ sign hi -ℤ branchless_leak r) in
    if fast then nr else clamp_tap nr

unfoldable pub tap_i : Bool → ℤ → ℤ → ℤ → ℤ → ℤ → ℤ
unfolding branchless_leak
tap_i fast mr mi hr hi i =
    let ni = wrap_32 (i +ℤ mi *ℤ sign hr -ℤ mr *ℤ sign hi -ℤ branchless_leak i) in
    if fast then ni else clamp_tap ni

unfoldable pub adapt_complex : Pair → ComplexStage → ComplexStage
unfolding is_zero update_taps tap_r tap_i
adapt_complex (er, ei) s =
    let mr = wrap_32 (pos s.mu *ℤ sign er) in
    let mi = wrap_32 (pos s.mu *ℤ sign ei) in
    let hrs = window s.order s.idx s.hist_r in
    let his = window s.order s.idx s.hist_i in
    if is_zero er && is_zero ei then s else record s {
      taps_r = update_taps (λ hr hi w. tap_r s.fast mr mi hr hi w) s.taps_r hrs his;
      taps_i = update_taps (λ hr hi w. tap_i s.fast mr mi hr hi w) s.taps_i hrs his;
    }

-- Within `int32_t`.
unfoldable pub fits_32 : ℤ → Bool
fits_32 (pos n) = ltb n (2 ^ 31)
fits_32 (negsuc n) = ltb n (2 ^ 31)

unfoldable pub push_complex : Pair → ComplexStage → ComplexStage
unfolding fits_32
push_complex (xr, xi) s =
    if fits_32 xr && fits_32 xi
    then record s {
      hist_r = store s.order s.idx s.hist_r xr;
      hist_i = store s.order s.idx s.hist_i xi;
      idx = advance s.order s.idx s.hist_r;
    }
    else record s { gone_wide = true; wide_stage = push_wide (xr, xi) (load s) }

unfoldable pub narrow_forward : ComplexStage → Pair → Pair × ComplexStage
narrow_forward s x =
    let p = predict_complex s in
    let e : Pair = (x.0 -ℤ p.0, x.1 -ℤ p.1) in (e, push_complex x (adapt_complex e s))

unfoldable pub narrow_inverse : ComplexStage → Pair → Pair × ComplexStage
narrow_inverse s e =
    let p = predict_complex s in
    let x : Pair = (e.0 +ℤ p.0, e.1 +ℤ p.1) in (x, push_complex x (adapt_complex e s))

-- What a stage that has gone wide returns, put back into it.
unfoldable pub in_wide : ComplexStage → Pair × Wide → Pair × ComplexStage
in_wide s done = (done.0, record s { wide_stage = done.1 })

unfoldable pub forward_complex : ComplexStage → Pair → Pair × ComplexStage
unfolding narrow_forward in_wide
forward_complex s x =
    if s.gone_wide then in_wide s (forward_wide s.wide_stage x) else narrow_forward s x

unfoldable pub inverse_complex : ComplexStage → Pair → Pair × ComplexStage
unfolding narrow_inverse in_wide
inverse_complex s e =
    if s.gone_wide then in_wide s (inverse_wide s.wide_stage e) else narrow_inverse s e
