-- ===== src/Pcm/Wide.antt =====
-- The complex filter in `int64_t` throughout: ComplexStage::Wide of src/pcm_v4.hpp.
use ubersdr_dsc.Base.{ℕ, ◌+◌, ◌-◌, ◌*◌, ◌%◌, ◌^◌, Bool, if◌then◌else◌, leb, ◌&&◌, List, [], ◌∷◌}
use ubersdr_dsc.Base.Int.{ℤ, pos, neg, ◌+ℤ◌, ◌-ℤ◌, ◌*ℤ◌}
use ubersdr_dsc.Pcm.Arith.{
  tap_shift, tap_limit, leak_shift_complex, sign, round_shift, leak, clamp_tap, to_uint, to_int,
}
use ubersdr_dsc.Pcm.Window.{window, store, advance}
use ubersdr_dsc.Pcm.Real.{max_abs, is_zero}

-- A complex sample, residual or prediction: its real and its imaginary part.
abbrev pub Pair : Type 0
Pair = ℤ × ℤ

pub record Wide : Type 0 where
  pub order : ℕ
  pub mu : ℕ
  pub fast : Bool
  pub idx : ℕ
  pub taps_r : List ℤ
  pub taps_i : List ℤ
  pub hist_r : List ℤ
  pub hist_i : List ℤ
  pub signs_r : List ℤ
  pub signs_i : List ℤ

unfoldable pub begin_wide : ℕ → Wide → Wide
begin_wide steps s = record s {
  fast = leb (max_abs (max_abs 0 s.taps_r) s.taps_i + 2 * s.mu * steps) tap_limit;
}

-- The difference of two products in `uint64_t`, added to a sum, and the sum of two.
unfoldable pub add_difference : ℕ → ℕ → ℕ → ℕ → ℕ → ℕ
add_difference sum a b c d = (sum + a * b % 2 ^ 64 + 2 ^ 64 - c * d % 2 ^ 64) % 2 ^ 64

unfoldable pub add_sum : ℕ → ℕ → ℕ → ℕ → ℕ → ℕ
add_sum sum a b c d = (sum + a * b + c * d) % 2 ^ 64

-- Taps and history of both parts, walked together.
unfoldable pub wide_sums : ℕ → ℕ → List ℤ → List ℤ → List ℤ → List ℤ → ℕ × ℕ
unfolding add_difference add_sum
wide_sums pr pi (wr ∷ wrs) (wi ∷ wis) (hr ∷ hrs) (hi ∷ his) =
    wide_sums (add_difference pr (to_uint 64 wr) (to_uint 64 hr) (to_uint 64 wi) (to_uint 64 hi))
      (add_sum pi (to_uint 64 wr) (to_uint 64 hi) (to_uint 64 wi) (to_uint 64 hr)) wrs wis hrs his
wide_sums pr pi [] wis hrs his = (pr, pi)
wide_sums pr pi (wr ∷ wrs) [] hrs his = (pr, pi)
wide_sums pr pi (wr ∷ wrs) (wi ∷ wis) [] his = (pr, pi)
wide_sums pr pi (wr ∷ wrs) (wi ∷ wis) (hr ∷ hrs) [] = (pr, pi)

unfoldable pub predict_wide : Wide → Pair
unfolding wide_sums
predict_wide s =
    let sums =
      wide_sums 0 0 s.taps_r s.taps_i (window s.order s.idx s.hist_r)
        (window s.order s.idx s.hist_i) in
    (round_shift (to_int 64 sums.0) tap_shift, round_shift (to_int 64 sums.1) tap_shift)

-- The updates of a tap's parts: `mr`, `mi` from the error, `hrs`, `his` the conjugate's signs.
unfoldable pub wide_tap_r : Bool → ℤ → ℤ → ℤ → ℤ → ℤ → ℤ
wide_tap_r fast mr mi hrs his w =
    if fast
    then w +ℤ (mr *ℤ hrs -ℤ mi *ℤ his -ℤ leak w leak_shift_complex)
    else clamp_tap (w +ℤ mr *ℤ hrs -ℤ mi *ℤ his -ℤ leak w leak_shift_complex)

unfoldable pub wide_tap_i : Bool → ℤ → ℤ → ℤ → ℤ → ℤ → ℤ
wide_tap_i fast mr mi hrs his w =
    if fast
    then w +ℤ (mr *ℤ his +ℤ mi *ℤ hrs -ℤ leak w leak_shift_complex)
    else clamp_tap (w +ℤ mr *ℤ his +ℤ mi *ℤ hrs -ℤ leak w leak_shift_complex)

-- One part of all taps, by the update of that part.
unfoldable pub update_taps : (ℤ → ℤ → ℤ → ℤ) → List ℤ → List ℤ → List ℤ → List ℤ
update_taps update [] srs sis = []
update_taps update (w ∷ ws) [] sis = w ∷ ws
update_taps update (w ∷ ws) (sr ∷ srs) [] = w ∷ ws
update_taps update (w ∷ ws) (sr ∷ srs) (si ∷ sis) = update sr si w ∷ update_taps update ws srs sis

unfoldable pub adapt_wide : Pair → Wide → Wide
unfolding is_zero update_taps wide_tap_r wide_tap_i
adapt_wide (er, ei) s =
    let mr = pos s.mu *ℤ sign er in
    let mi = pos s.mu *ℤ sign ei in
    let srs = window s.order s.idx s.signs_r in
    let sis = window s.order s.idx s.signs_i in
    if is_zero er && is_zero ei then s else record s {
      taps_r = update_taps (λ sr si w. wide_tap_r s.fast mr mi sr (neg si) w) s.taps_r srs sis;
      taps_i = update_taps (λ sr si w. wide_tap_i s.fast mr mi sr (neg si) w) s.taps_i srs sis;
    }

unfoldable pub push_wide : Pair → Wide → Wide
push_wide (xr, xi) s = record s {
  hist_r = store s.order s.idx s.hist_r xr;
  hist_i = store s.order s.idx s.hist_i xi;
  signs_r = store s.order s.idx s.signs_r (sign xr);
  signs_i = store s.order s.idx s.signs_i (sign xi);
  idx = advance s.order s.idx s.hist_r;
}

unfoldable pub forward_wide : Wide → Pair → Pair × Wide
forward_wide s x =
    let p = predict_wide s in
    let e : Pair = (x.0 -ℤ p.0, x.1 -ℤ p.1) in (e, push_wide x (adapt_wide e s))

unfoldable pub inverse_wide : Wide → Pair → Pair × Wide
inverse_wide s e =
    let p = predict_wide s in
    let x : Pair = (e.0 +ℤ p.0, e.1 +ℤ p.1) in (x, push_wide x (adapt_wide e s))
