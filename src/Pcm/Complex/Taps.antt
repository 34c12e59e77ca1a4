-- ===== src/Pcm/Complex/Taps.antt =====
-- The tap updates of ComplexStage and of Wide in src/pcm_v4.hpp.
use ubersdr_dsc.Base.{
  ℕ, suc, ◌+◌, ◌*◌, ◌/◌, ◌^◌, ◌≤◌, ◌<◌, subst, ◌≡◌, refl, ap, sym, ◌∙◌, All-weaken, arith, Bool,
  true, false, if◌then◌else◌, List, [], ◌∷◌, All, length, map,
}
use ubersdr_dsc.Base.Int.{
  ℤ, pos, negsuc, neg, magnitude, ◌+ℤ◌, ◌-ℤ◌, ◌*ℤ◌, magnitude-add, magnitude-mul, magnitude-neg,
  mul-neg, int_laws, eq_of_parts,
}
use ubersdr_dsc.Base.Bits.{bit_xor-zero}
use ubersdr_dsc.Pcm.Arith.{leak, sign, clamp_tap, tap_limit, leak_shift_complex, wrap_32}
use ubersdr_dsc.Pcm.Arith.Laws.{
  magnitude-leak, magnitude-clamp_tap, clamp_tap-eq_of_le, magnitude-sign, wrap_32-eq_of_lt,
}
use ubersdr_dsc.Pcm.Wide.{wide_tap_r, wide_tap_i, update_taps}
use ubersdr_dsc.Pcm.Complex.{branchless_leak, shift_right, xor_ℤ, tap_r, tap_i}
use native.Mathlib.Nat.{mul-le-mul}

minus_zero : (a : ℤ) → a -ℤ pos 0 ≡ a
minus_zero a = omega int_laws

minus_ones : (n : ℕ) → pos n -ℤ negsuc 0 ≡ pos (suc n)
minus_ones n = omega int_laws

negated_minus_ones : (n : ℕ) → negsuc n -ℤ negsuc 0 ≡ neg (pos n)
negated_minus_ones n = omega int_laws

-- Below the limit the sign mask is all zeros or all ones.
pub branchless_leak_lem :
    (w : ℤ) → magnitude w ≤ tap_limit → branchless_leak w ≡ leak w leak_shift_complex
unfolding branchless_leak shift_right xor_ℤ leak
branchless_leak_lem (pos n) h =
    rw (mask n (omega arith), bit_xor-zero n, minus_zero (pos n), bit_xor-zero (n / 2 ^ 14))
      (minus_zero (pos (n / 2 ^ 14)))
  where
    mask : (k : ℕ) → k ≤ tap_limit → k / 2 ^ 31 ≡ 0
    mask k p = omega arith
branchless_leak_lem (negsuc n) h =
    rw (mask n (omega arith), bit_xor-zero n, minus_ones n, bit_xor-zero (suc n / 2 ^ 14))
      (negated_minus_ones (suc n / 2 ^ 14))
  where
    mask : (k : ℕ) → k ≤ tap_limit → k / 2 ^ 31 ≡ 0
    mask k p = omega arith

-- A tap's magnitude, with what this packet's later updates may add to it, is within the limit.
abbrev pub InRoom : Bool → ℕ → ℤ → Type 0
InRoom fast slack w = magnitude w + (if fast then slack else 0) ≤ tap_limit

-- The unclamped update by two steps.
abbrev moved : ℤ → ℤ → ℤ → ℤ
moved w a b = w -ℤ leak w leak_shift_complex +ℤ a +ℤ b

moved_bound :
    (mu : ℕ) (w a b : ℤ)
    → magnitude a ≤ mu
    → magnitude b ≤ mu
    → magnitude (moved w a b) ≤ magnitude w + 2 * mu
moved_bound mu w a b small_a small_b = omega (
  arith,
  magnitude-add (w -ℤ leak w leak_shift_complex +ℤ a) b,
  magnitude-add (w -ℤ leak w leak_shift_complex) a,
  magnitude-leak w leak_shift_complex,
)

step_bound : (mu : ℕ) (m s : ℤ) → magnitude m ≤ mu → magnitude s ≤ 1 → magnitude (m *ℤ s) ≤ mu
step_bound mu m s h k = omega (arith, magnitude-mul m s, mul-le-mul h k)

module _ (mr mi hrs his w : ℤ) where
  -- Both forms of an update, as `moved`.
  fast_r : wide_tap_r true mr mi hrs his w ≡ moved w (mr *ℤ hrs) (neg (mi *ℤ his))
  unfolding wide_tap_r
  fast_r = omega (arith, int_laws)

  fast_i : wide_tap_i true mr mi hrs his w ≡ moved w (mr *ℤ his) (mi *ℤ hrs)
  unfolding wide_tap_i
  fast_i = omega (arith, int_laws)

  clamped_r : wide_tap_r false mr mi hrs his w ≡ clamp_tap (moved w (mr *ℤ hrs) (neg (mi *ℤ his)))
  unfolding wide_tap_r
  clamped_r = ap clamp_tap (omega (arith, int_laws))

  clamped_i : wide_tap_i false mr mi hrs his w ≡ clamp_tap (moved w (mr *ℤ his) (mi *ℤ hrs))
  unfolding wide_tap_i
  clamped_i = ap clamp_tap (omega (arith, int_laws))

-- The factors of an update: steps of at most `mu`, signs of the history.
abbrev pub Small : ℕ → ℤ → ℤ → ℤ → ℤ → Type 0
Small mu mr mi hrs his =
    (magnitude mr ≤ mu) × (magnitude mi ≤ mu) × (magnitude hrs ≤ 1) × (magnitude his ≤ 1)

module _ (mu : ℕ) (mr mi hrs his : ℤ) (small : Small mu mr mi hrs his) (w : ℤ) where
  moved_r : magnitude (moved w (mr *ℤ hrs) (neg (mi *ℤ his))) ≤ magnitude w + 2 * mu
  moved_r =
      moved_bound mu w (mr *ℤ hrs) (neg (mi *ℤ his)) (step_bound mu mr hrs small.0 small.2)
        (omega (arith, magnitude-neg (mi *ℤ his), step_bound mu mi his small.1 small.3))

  moved_i : magnitude (moved w (mr *ℤ his) (mi *ℤ hrs)) ≤ magnitude w + 2 * mu
  moved_i =
      moved_bound mu w (mr *ℤ his) (mi *ℤ hrs) (step_bound mu mr his small.0 small.3)
        (step_bound mu mi hrs small.1 small.2)

  -- An update keeps a tap in room; within the limit the clamp changes nothing.
  pub wide_tap_r-InRoom :
      (fast : Bool) (slack : ℕ)
      → InRoom fast (slack + 2 * mu) w
      → InRoom fast slack (wide_tap_r fast mr mi hrs his w)
  wide_tap_r-InRoom true slack room = rw (fast_r mr mi hrs his w) (omega (arith, moved_r))
  wide_tap_r-InRoom false slack room =
      rw (clamped_r mr mi hrs his w)
        (omega (arith, magnitude-clamp_tap (moved w (mr *ℤ hrs) (neg (mi *ℤ his)))))

  pub wide_tap_i-InRoom :
      (fast : Bool) (slack : ℕ)
      → InRoom fast (slack + 2 * mu) w
      → InRoom fast slack (wide_tap_i fast mr mi hrs his w)
  wide_tap_i-InRoom true slack room = rw (fast_i mr mi hrs his w) (omega (arith, moved_i))
  wide_tap_i-InRoom false slack room =
      rw (clamped_i mr mi hrs his w)
        (omega (arith, magnitude-clamp_tap (moved w (mr *ℤ his) (mi *ℤ hrs))))

  pub wide_tap_r_unclamped :
      (fast : Bool) (slack : ℕ)
      → InRoom fast (slack + 2 * mu) w
      → wide_tap_r fast mr mi hrs his w ≡ wide_tap_r false mr mi hrs his w
  wide_tap_r_unclamped true slack room =
      fast_r mr mi hrs his w
      ∙ sym (clamp_tap-eq_of_le (moved w (mr *ℤ hrs) (neg (mi *ℤ his))) (omega (arith, moved_r)))
      ∙ sym (clamped_r mr mi hrs his w)
  wide_tap_r_unclamped false slack room = refl

  pub wide_tap_i_unclamped :
      (fast : Bool) (slack : ℕ)
      → InRoom fast (slack + 2 * mu) w
      → wide_tap_i fast mr mi hrs his w ≡ wide_tap_i false mr mi hrs his w
  wide_tap_i_unclamped true slack room =
      fast_i mr mi hrs his w
      ∙ sym (clamp_tap-eq_of_le (moved w (mr *ℤ his) (mi *ℤ hrs)) (omega (arith, moved_i)))
      ∙ sym (clamped_i mr mi hrs his w)
  wide_tap_i_unclamped false slack room = refl

-- The `int32_t` forms, for a tap within the limit and steps of at most 2 ^ 29: no sum is cut.
module _ (mr mi hr hi w : ℤ) (within : magnitude w ≤ tap_limit) (small_r : magnitude mr ≤ 2 ^ 29)
    (small_i : magnitude mi ≤ 2 ^ 29) where
  abbrev sum_r : ℤ
  sum_r = w +ℤ mr *ℤ sign hr +ℤ mi *ℤ sign hi -ℤ branchless_leak w

  abbrev sum_i : ℤ
  sum_i = w +ℤ mi *ℤ sign hr -ℤ mr *ℤ sign hi -ℤ branchless_leak w

  signs : Small (2 ^ 29) mr mi (sign hr) (neg (sign hi))
  signs = (
    small_r,
    small_i,
    magnitude-sign hr,
    omega (arith, magnitude-neg (sign hi), magnitude-sign hi),
  )

  exact_r : moved w (mr *ℤ sign hr) (neg (mi *ℤ neg (sign hi))) ≡ sum_r
  exact_r =
      rw (branchless_leak_lem w within, mul-neg mi (sign hi)) (eq_of_parts _ _ (omega int_laws))

  exact_i : moved w (mr *ℤ neg (sign hi)) (mi *ℤ sign hr) ≡ sum_i
  exact_i =
      rw (branchless_leak_lem w within, mul-neg mr (sign hi)) (eq_of_parts _ _ (omega int_laws))

  fits_r : wrap_32 sum_r ≡ sum_r
  fits_r = wrap_32-eq_of_lt sum_r (
      subst (λ (v : ℤ). magnitude v < 2 ^ 31) exact_r
        (omega (arith, moved_r (2 ^ 29) mr mi (sign hr) (neg (sign hi)) signs w)))

  fits_i : wrap_32 sum_i ≡ sum_i
  fits_i = wrap_32-eq_of_lt sum_i (
      subst (λ (v : ℤ). magnitude v < 2 ^ 31) exact_i
        (omega (arith, moved_i (2 ^ 29) mr mi (sign hr) (neg (sign hi)) signs w)))

  pub tap_r_lem :
      (fast : Bool) → wide_tap_r fast mr mi (sign hr) (neg (sign hi)) w ≡ tap_r fast mr mi hr hi w
  unfolding tap_r
  tap_r_lem true = fast_r mr mi (sign hr) (neg (sign hi)) w ∙ exact_r ∙ sym fits_r
  tap_r_lem false =
      clamped_r mr mi (sign hr) (neg (sign hi)) w ∙ ap clamp_tap (exact_r ∙ sym fits_r)

  pub tap_i_lem :
      (fast : Bool) → wide_tap_i fast mr mi (sign hr) (neg (sign hi)) w ≡ tap_i fast mr mi hr hi w
  unfolding tap_i
  tap_i_lem true = fast_i mr mi (sign hr) (neg (sign hi)) w ∙ exact_i ∙ sym fits_i
  tap_i_lem false =
      clamped_i mr mi (sign hr) (neg (sign hi)) w ∙ ap clamp_tap (exact_i ∙ sym fits_i)

pub length-update_taps :
    (f : ℤ → ℤ → ℤ → ℤ) (ws xs ys : List ℤ) → length (update_taps f ws xs ys) ≡ length ws
unfolding update_taps
length-update_taps f [] xs ys = refl
length-update_taps f (w ∷ ws) [] ys = refl
length-update_taps f (w ∷ ws) (x ∷ xs) [] = refl
length-update_taps f (w ∷ ws) (x ∷ xs) (y ∷ ys) = ap suc (length-update_taps f ws xs ys)

-- One part's update over all taps.
module _ (f : ℤ → ℤ → ℤ → ℤ) (P Q : ℤ → Type 0) where
  -- One update carries a property of the tap over to another one.
  pub update_taps-All :
      ((a b w : ℤ) → magnitude a ≤ 1 → magnitude b ≤ 1 → P w → Q (f a b w))
      → ((w : ℤ) → P w → Q w)
      → (ws xs ys : List ℤ) → All P ws
      → All (λ a. magnitude a ≤ 1) xs
      → All (λ a. magnitude a ≤ 1) ys
      → All Q (update_taps f ws xs ys)
  unfolding update_taps
  update_taps-All step keep [] xs ys p q r = tt
  update_taps-All step keep (w ∷ ws) [] ys p q r = All-weaken P Q keep (w ∷ ws) p
  update_taps-All step keep (w ∷ ws) (x ∷ xs) [] p q r = All-weaken P Q keep (w ∷ ws) p
  update_taps-All step keep (w ∷ ws) (x ∷ xs) (y ∷ ys) p q r =
      (step x y w q.0 r.0 p.0, update_taps-All step keep ws xs ys p.1 q.1 r.1)

module _ (f g : ℤ → ℤ → ℤ → ℤ) (P : ℤ → Type 0) where
  -- Two updates that agree at such taps agree on all of them.
  pub update_taps-eq :
      (h : ℤ → ℤ)
      → ((a b w : ℤ) → P w → f (h a) (h b) w ≡ g a b w)
      → (ws xs ys : List ℤ) → All P ws
      → update_taps f ws (map h xs) (map h ys) ≡ update_taps g ws xs ys
  unfolding update_taps
  update_taps-eq h same [] xs ys p = refl
  update_taps-eq h same (w ∷ ws) [] ys p = refl
  update_taps-eq h same (w ∷ ws) (x ∷ xs) [] p = refl
  update_taps-eq h same (w ∷ ws) (x ∷ xs) (y ∷ ys) p =
      rw (same x y w p.0, update_taps-eq h same ws xs ys p.1) refl

  pub update_taps-same :
      ((a b w : ℤ) → magnitude a ≤ 1 → magnitude b ≤ 1 → P w → f a b w ≡ g a b w)
      → (ws xs ys : List ℤ) → All P ws
      → All (λ a. magnitude a ≤ 1) xs
      → All (λ a. magnitude a ≤ 1) ys
      → update_taps f ws xs ys ≡ update_taps g ws xs ys
  unfolding update_taps
  update_taps-same same [] xs ys p q r = refl
  update_taps-same same (w ∷ ws) [] ys p q r = refl
  update_taps-same same (w ∷ ws) (x ∷ xs) [] p q r = refl
  update_taps-same same (w ∷ ws) (x ∷ xs) (y ∷ ys) p q r =
      rw (same x y w q.0 r.0 p.0, update_taps-same same ws xs ys p.1 q.1 r.1) refl
