-- ===== src/Pcm/Complex/Sums.antt =====
-- The prediction sums of ComplexStage and of Wide in src/pcm_v4.hpp.
use ubersdr_dsc.Base.{
  ℕ, ◌+◌, ◌-◌, ◌*◌, ◌%◌, ◌^◌, ◌≤◌, ◌≡◌, refl, ap, subst, ◌∙◌, arith, List, [], ◌∷◌, length, All,
}
use ubersdr_dsc.Base.Int.{
  ℤ, pos, magnitude, ◌+ℤ◌, ◌-ℤ◌, ◌*ℤ◌, magnitude-add, magnitude-sub, magnitude-mul,
}
use ubersdr_dsc.Pcm.Arith.{to_uint, to_int}
use ubersdr_dsc.Pcm.Words.{
  Stands, Stands-add, Stands-sub, Stands-mul, Stands-mod, Stands-eq, to_uint-Stands, to_int-to_uint,
}
use ubersdr_dsc.Pcm.Wide.{wide_sums, add_difference, add_sum}
use ubersdr_dsc.Pcm.Complex.{exact_sums}
use native.Mathlib.Nat.{mul-le-mul}

abbrev pub IsSmall : ℕ → ℤ → Type 0
IsSmall limit w = magnitude w ≤ limit

add_difference_lem :
    (p a b c d : ℤ)
    → add_difference (to_uint 64 p) (to_uint 64 a) (to_uint 64 b) (to_uint 64 c) (to_uint 64 d)
      ≡ to_uint 64 (p +ℤ (a *ℤ b -ℤ c *ℤ d))
unfolding add_difference
add_difference_lem p a b c d = Stands-eq _ (p +ℤ (a *ℤ b -ℤ c *ℤ d)) (omega arith) (
    Stands-mod _ (p +ℤ (a *ℤ b -ℤ c *ℤ d)) (
      subst (λ (t : ℕ). Stands t (p +ℤ (a *ℤ b -ℤ c *ℤ d)))
        (regroup (to_uint 64 p) (to_uint 64 a * to_uint 64 b % 2 ^ 64)
          (to_uint 64 c * to_uint 64 d % 2 ^ 64) (omega arith))
        (Stands-add (to_uint 64 p)
          (to_uint 64 a * to_uint 64 b % 2 ^ 64 + 2 ^ 64 - to_uint 64 c * to_uint 64 d % 2 ^ 64) p
          (a *ℤ b -ℤ c *ℤ d) (to_uint-Stands p)
          (Stands-sub (to_uint 64 a * to_uint 64 b % 2 ^ 64) (to_uint 64 c * to_uint 64 d % 2 ^ 64)
            (a *ℤ b) (c *ℤ d) (omega arith) (product a b) (product c d)))))
  where
    regroup : (x y z : ℕ) → z ≤ 2 ^ 64 → x + (y + 2 ^ 64 - z) ≡ x + y + 2 ^ 64 - z
    regroup x y z h = omega arith

    product : (x y : ℤ) → Stands (to_uint 64 x * to_uint 64 y % 2 ^ 64) (x *ℤ y)
    product x y =
        Stands-mod (to_uint 64 x * to_uint 64 y) (x *ℤ y)
          (Stands-mul (to_uint 64 x) (to_uint 64 y) x y (to_uint-Stands x) (to_uint-Stands y))

add_sum_lem :
    (p a b c d : ℤ)
    → add_sum (to_uint 64 p) (to_uint 64 a) (to_uint 64 b) (to_uint 64 c) (to_uint 64 d)
      ≡ to_uint 64 (p +ℤ (a *ℤ b +ℤ c *ℤ d))
unfolding add_sum
add_sum_lem p a b c d = Stands-eq _ (p +ℤ (a *ℤ b +ℤ c *ℤ d)) (omega arith) (
    Stands-mod _ (p +ℤ (a *ℤ b +ℤ c *ℤ d)) (
      subst (λ (t : ℕ). Stands t (p +ℤ (a *ℤ b +ℤ c *ℤ d)))
        (regroup (to_uint 64 p) (to_uint 64 a * to_uint 64 b) (to_uint 64 c * to_uint 64 d))
        (Stands-add (to_uint 64 p) (to_uint 64 a * to_uint 64 b + to_uint 64 c * to_uint 64 d) p
          (a *ℤ b +ℤ c *ℤ d) (to_uint-Stands p)
          (Stands-add (to_uint 64 a * to_uint 64 b) (to_uint 64 c * to_uint 64 d) (a *ℤ b) (c *ℤ d)
            (product a b) (product c d)))))
  where
    regroup : (x y z : ℕ) → x + (y + z) ≡ x + y + z
    regroup x y z = omega arith

    product : (x y : ℤ) → Stands (to_uint 64 x * to_uint 64 y) (x *ℤ y)
    product x y = Stands-mul (to_uint 64 x) (to_uint 64 y) x y (to_uint-Stands x) (to_uint-Stands y)

-- The wrapped sums are the words of the exact ones.
wide_sums_lem :
    (pr pi : ℤ) (wrs wis hrs his : List ℤ)
    → wide_sums (to_uint 64 pr) (to_uint 64 pi) wrs wis hrs his ≡ (
      to_uint 64 (exact_sums pr pi wrs wis hrs his).0,
      to_uint 64 (exact_sums pr pi wrs wis hrs his).1,
    )
unfolding wide_sums exact_sums
wide_sums_lem pr pi [] wis hrs his = refl
wide_sums_lem pr pi (wr ∷ wrs) [] hrs his = refl
wide_sums_lem pr pi (wr ∷ wrs) (wi ∷ wis) [] his = refl
wide_sums_lem pr pi (wr ∷ wrs) (wi ∷ wis) (hr ∷ hrs) [] = refl
wide_sums_lem pr pi (wr ∷ wrs) (wi ∷ wis) (hr ∷ hrs) (hi ∷ his) =
    rw (add_difference_lem pr wr hr wi hi, add_sum_lem pi wr hi wi hr)
      (wide_sums_lem (pr +ℤ (wr *ℤ hr -ℤ wi *ℤ hi)) (pi +ℤ (wr *ℤ hi +ℤ wi *ℤ hr)) wrs wis hrs his)

-- Products of small taps and small samples.
small_product : (w h : ℤ) → IsSmall (2 ^ 24) w → IsSmall (2 ^ 31) h → magnitude (w *ℤ h) ≤ 2 ^ 55
small_product w h p q = omega (arith, magnitude-mul w h, mul-le-mul p q)

grown :
    (p x y : ℤ)
    → magnitude x ≤ 2 ^ 55
    → magnitude y ≤ 2 ^ 55
    → (magnitude (p +ℤ (x +ℤ y)) ≤ magnitude p + 2 ^ 56)
      × (magnitude (p +ℤ (x -ℤ y)) ≤ magnitude p + 2 ^ 56)
grown p x y h k = (
  omega (arith, magnitude-add p (x +ℤ y), magnitude-add x y),
  omega (arith, magnitude-add p (x -ℤ y), magnitude-sub x y),
)

-- Each step of the sums adds at most `2 ^ 56`.
exact_sums_bounds :
    (pr pi : ℤ) (wrs wis hrs his : List ℤ)
    → All (IsSmall (2 ^ 24)) wrs
    → All (IsSmall (2 ^ 24)) wis
    → All (IsSmall (2 ^ 31)) hrs
    → All (IsSmall (2 ^ 31)) his
    → (magnitude (exact_sums pr pi wrs wis hrs his).0 ≤ magnitude pr + length wrs * 2 ^ 56)
      × (magnitude (exact_sums pr pi wrs wis hrs his).1 ≤ magnitude pi + length wrs * 2 ^ 56)
unfolding exact_sums
exact_sums_bounds pr pi [] wis hrs his a b c d = (omega arith, omega arith)
exact_sums_bounds pr pi (wr ∷ wrs) [] hrs his a b c d = (omega arith, omega arith)
exact_sums_bounds pr pi (wr ∷ wrs) (wi ∷ wis) [] his a b c d = (omega arith, omega arith)
exact_sums_bounds pr pi (wr ∷ wrs) (wi ∷ wis) (hr ∷ hrs) [] a b c d = (omega arith, omega arith)
exact_sums_bounds pr pi (wr ∷ wrs) (wi ∷ wis) (hr ∷ hrs) (hi ∷ his) a b c d =
    let rest =
      exact_sums_bounds (pr +ℤ (wr *ℤ hr -ℤ wi *ℤ hi)) (pi +ℤ (wr *ℤ hi +ℤ wi *ℤ hr)) wrs wis hrs
        his a.1 b.1 c.1 d.1 in
    let real =
      grown pr (wr *ℤ hr) (wi *ℤ hi) (small_product wr hr a.0 c.0) (small_product wi hi b.0 d.0) in
    let imaginary =
      grown pi (wr *ℤ hi) (wi *ℤ hr) (small_product wr hi a.0 d.0) (small_product wi hr b.0 c.0) in
    (omega (arith, rest.0, real.1), omega (arith, rest.1, imaginary.0))

-- Up to 64 small taps over samples of `int32_t`: nothing wraps.
pub sums-agree :
    (wrs wis hrs his : List ℤ)
    → length wrs ≤ 64
    → All (IsSmall (2 ^ 24)) wrs
    → All (IsSmall (2 ^ 24)) wis
    → All (IsSmall (2 ^ 31)) hrs
    → All (IsSmall (2 ^ 31)) his
    → (to_int 64 (wide_sums 0 0 wrs wis hrs his).0 ≡ (exact_sums (pos 0) (pos 0) wrs wis hrs his).0)
      × (to_int 64 (wide_sums 0 0 wrs wis hrs his).1
          ≡ (exact_sums (pos 0) (pos 0) wrs wis hrs his).1)
unfolding to_uint
sums-agree wrs wis hrs his n a b c d =
    let bounds = exact_sums_bounds (pos 0) (pos 0) wrs wis hrs his a b c d in
    let words = wide_sums_lem (pos 0) (pos 0) wrs wis hrs his in
    (
      ap (λ (p : ℕ × ℕ). to_int 64 p.0) words
          ∙ to_int-to_uint (exact_sums (pos 0) (pos 0) wrs wis hrs his).0 (omega (arith, bounds.0)),
      ap (λ (p : ℕ × ℕ). to_int 64 p.1) words
          ∙ to_int-to_uint (exact_sums (pos 0) (pos 0) wrs wis hrs his).1 (omega (arith, bounds.1)),
    )
