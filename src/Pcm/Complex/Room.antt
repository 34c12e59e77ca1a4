-- ===== src/Pcm/Complex/Room.antt =====
-- The taps of the complex filter of src/pcm_v4.hpp within their limit, with and without the clamp.
use ubersdr_dsc.Base.{
  ℕ, ◌+◌, ◌*◌, ◌≤◌, ◌≡◌, refl, subst, arith, Bool, true, false, ◌&&◌, if◌then◌else◌, leb, ltb,
  Bool-cases, inl, inr, List, [], ◌∷◌, All, All-weaken,
}
use ubersdr_dsc.Base.Int.{ℤ, pos, neg, magnitude, magnitude-neg, ◌*ℤ◌}
use ubersdr_dsc.Pcm.Arith.{sign, tap_limit}
use ubersdr_dsc.Pcm.Arith.Laws.{magnitude-sign, mul-one-sign}
use ubersdr_dsc.Pcm.Window.{window, All-window, All-store}
use ubersdr_dsc.Pcm.Real.{is_zero, max_abs}
use ubersdr_dsc.Pcm.Wide.{Wide, Pair, adapt_wide, push_wide, wide_tap_r, wide_tap_i}
use ubersdr_dsc.Pcm.Complex.Taps.{
  InRoom, Small, wide_tap_r-InRoom, wide_tap_i-InRoom, wide_tap_r_unclamped, wide_tap_i_unclamped,
  update_taps-All, update_taps-same,
}

abbrev pub IsSign : ℤ → Type 0
IsSign s = magnitude s ≤ 1

-- Taps in room, and signs for a history of signs.
pub record HasRoom (slack : ℕ) (s : Wide) : Type 0 where
  pub taps_r : All (InRoom s.fast slack) s.taps_r
  pub taps_i : All (InRoom s.fast slack) s.taps_i
  pub signs_r : All IsSign s.signs_r
  pub signs_i : All IsSign s.signs_i

less_room :
    (fast : Bool) (slack more : ℕ) (w : ℤ) → InRoom fast (slack + more) w → InRoom fast slack w
less_room true slack more w h = omega arith
less_room false slack more w h = h

-- The largest magnitude is at least the first one and each of them.
max_abs-le : (most : ℕ) (ws : List ℤ) → most ≤ max_abs most ws
unfolding max_abs
max_abs-le most [] = omega arith
max_abs-le most (w ∷ ws) = ground (arith, max_abs-le (magnitude w) ws, max_abs-le most ws)

pub max_abs-All :
    (most slack : ℕ) (ws : List ℤ)
    → max_abs most ws + slack ≤ tap_limit
    → All (λ w. magnitude w + slack ≤ tap_limit) ws
unfolding max_abs
max_abs-All most slack [] h = tt
max_abs-All most slack (w ∷ ws) h = elim (Bool-cases (ltb most (magnitude w))) [
  | inl larger ↦
      let rest =
        subst (λ (b : Bool). max_abs (if b then magnitude w else most) ws + slack ≤ tap_limit)
          larger h in
      (omega (arith, max_abs-le (magnitude w) ws), max_abs-All (magnitude w) slack ws rest)
  | inr smaller ↦
      let rest =
        subst (λ (b : Bool). max_abs (if b then magnitude w else most) ws + slack ≤ tap_limit)
          smaller h in
      (ground (arith, max_abs-le most ws), max_abs-All most slack ws rest)
]

-- Both parts' taps after the test that begins a packet.
pub begun_room :
    (slack : ℕ) (fast : Bool) (rs is' : List ℤ)
    → leb (max_abs (max_abs 0 rs) is' + slack) tap_limit ≡ fast
    → All (InRoom false 0) rs
    → All (InRoom false 0) is'
    → All (InRoom fast slack) rs × All (InRoom fast slack) is'
begun_room slack true rs is' e h k = (
  max_abs-All 0 slack rs (ground (arith, max_abs-le (max_abs 0 rs) is')),
  max_abs-All (max_abs 0 rs) slack is' (ground arith),
)
begun_room slack false rs is' e h k = (h, k)

module _ (slack : ℕ) (s : Wide) (er ei : ℤ) (room : HasRoom (slack + 2 * s.mu) s) where
  open room use {taps_r, taps_i, signs_r, signs_i}

  small :
      (a b : ℤ)
      → IsSign a
      → IsSign b
      → Small s.mu (pos s.mu *ℤ sign er) (pos s.mu *ℤ sign ei) a (neg b)
  small a b h k = (mul-one-sign s.mu er, mul-one-sign s.mu ei, h, omega (arith, magnitude-neg b))

  -- An update keeps every tap in room.
  pub adapt_wide-HasRoom : HasRoom slack (adapt_wide (er, ei) s)
  unfolding adapt_wide
  adapt_wide-HasRoom = elim (Bool-cases (is_zero er && is_zero ei)) [
    | inl zero_error ↦ rw zero_error (record {
      taps_r =
          All-weaken (InRoom s.fast (slack + 2 * s.mu)) (InRoom s.fast slack)
            (less_room s.fast slack (2 * s.mu)) s.taps_r taps_r;
      taps_i =
          All-weaken (InRoom s.fast (slack + 2 * s.mu)) (InRoom s.fast slack)
            (less_room s.fast slack (2 * s.mu)) s.taps_i taps_i;
      signs_r = signs_r;
      signs_i = signs_i;
    })
    | inr moves ↦ rw moves (record {
      taps_r =
          update_taps-All
            (λ sr si w. wide_tap_r s.fast (pos s.mu *ℤ sign er) (pos s.mu *ℤ sign ei) sr (neg si) w)
            (InRoom s.fast (slack + 2 * s.mu)) (InRoom s.fast slack)
            (λ a b w h k p.
              wide_tap_r-InRoom s.mu (pos s.mu *ℤ sign er) (pos s.mu *ℤ sign ei) a (neg b)
                (small a b h k) w s.fast slack p)
            (less_room s.fast slack (2 * s.mu)) s.taps_r (window s.order s.idx s.signs_r)
            (window s.order s.idx s.signs_i) taps_r
            (All-window IsSign s.order s.idx s.signs_r signs_r)
            (All-window IsSign s.order s.idx s.signs_i signs_i);
      taps_i =
          update_taps-All
            (λ sr si w. wide_tap_i s.fast (pos s.mu *ℤ sign er) (pos s.mu *ℤ sign ei) sr (neg si) w)
            (InRoom s.fast (slack + 2 * s.mu)) (InRoom s.fast slack)
            (λ a b w h k p.
              wide_tap_i-InRoom s.mu (pos s.mu *ℤ sign er) (pos s.mu *ℤ sign ei) a (neg b)
                (small a b h k) w s.fast slack p)
            (less_room s.fast slack (2 * s.mu)) s.taps_i (window s.order s.idx s.signs_r)
            (window s.order s.idx s.signs_i) taps_i
            (All-window IsSign s.order s.idx s.signs_r signs_r)
            (All-window IsSign s.order s.idx s.signs_i signs_i);
      signs_r = signs_r;
      signs_i = signs_i;
    })
  ]

  -- The clamp would have changed nothing.
  pub adapt_wide_unclamped :
      record (adapt_wide (er, ei) s) { fast = false }
      ≡ adapt_wide (er, ei) (record s { fast = false })
  unfolding adapt_wide
  adapt_wide_unclamped = elim (Bool-cases (is_zero er && is_zero ei)) [
    | inl zero_error ↦ rw zero_error refl
    | inr moves ↦
        rw
          (
            moves,
            update_taps-same
                (λ sr si w.
                  wide_tap_r s.fast (pos s.mu *ℤ sign er) (pos s.mu *ℤ sign ei) sr (neg si) w)
                (λ sr si w.
                  wide_tap_r false (pos s.mu *ℤ sign er) (pos s.mu *ℤ sign ei) sr (neg si) w)
                (InRoom s.fast (slack + 2 * s.mu))
                (λ a b w h k p.
                  wide_tap_r_unclamped s.mu (pos s.mu *ℤ sign er) (pos s.mu *ℤ sign ei) a (neg b)
                    (small a b h k) w s.fast slack p)
                s.taps_r (window s.order s.idx s.signs_r) (window s.order s.idx s.signs_i) taps_r
                (All-window IsSign s.order s.idx s.signs_r signs_r)
                (All-window IsSign s.order s.idx s.signs_i signs_i),
            update_taps-same
                (λ sr si w.
                  wide_tap_i s.fast (pos s.mu *ℤ sign er) (pos s.mu *ℤ sign ei) sr (neg si) w)
                (λ sr si w.
                  wide_tap_i false (pos s.mu *ℤ sign er) (pos s.mu *ℤ sign ei) sr (neg si) w)
                (InRoom s.fast (slack + 2 * s.mu))
                (λ a b w h k p.
                  wide_tap_i_unclamped s.mu (pos s.mu *ℤ sign er) (pos s.mu *ℤ sign ei) a (neg b)
                    (small a b h k) w s.fast slack p)
                s.taps_i (window s.order s.idx s.signs_r) (window s.order s.idx s.signs_i) taps_i
                (All-window IsSign s.order s.idx s.signs_r signs_r)
                (All-window IsSign s.order s.idx s.signs_i signs_i),
          )
          refl
  ]

pub push_wide-HasRoom :
    (slack : ℕ) (x : Pair) (s : Wide) → HasRoom slack s → HasRoom slack (push_wide x s)
unfolding push_wide
push_wide-HasRoom slack (xr, xi) s room = record {
  taps_r = room.taps_r;
  taps_i = room.taps_i;
  signs_r = All-store IsSign s.order s.idx s.signs_r (sign xr) room.signs_r (magnitude-sign xr);
  signs_i = All-store IsSign s.order s.idx s.signs_i (sign xi) room.signs_i (magnitude-sign xi);
}
