-- ===== src/Pcm/Codec/Stages.antt =====
-- The filters of the codec in src/pcm_v4.hpp in both directions.
use ubersdr_dsc.Base.{
  ◌^◌, ◌<◌, ◌≡◌, refl, ap, arith, Bool, true, false, if◌then◌else◌, List, [], ◌∷◌,
}
use ubersdr_dsc.Base.Int.{ℤ, pos, negsuc}
use ubersdr_dsc.Pcm.Arith.{to_int, to_uint}
use ubersdr_dsc.Pcm.Arith.Laws.{sub-add}
use ubersdr_dsc.Pcm.Real.{
  RealStage, forward_real, inverse_real, forward_cascade, inverse_cascade, predict_real,
}
use ubersdr_dsc.Pcm.Wide.{Wide, Pair, forward_wide, inverse_wide, predict_wide}
use ubersdr_dsc.Pcm.Complex.{
  ComplexStage, forward_complex, inverse_complex, narrow_forward, narrow_inverse, in_wide,
  predict_complex,
}
use ubersdr_dsc.Pcm.Codec.{forward_complexes, inverse_complexes, to_int16}

-- The residual and the prediction give the sample, and the same update and push.
pub inverse-forward_real :
    (s : RealStage) (x : ℤ) → inverse_real s (forward_real s x).0 ≡ (x, (forward_real s x).1)
unfolding inverse_real forward_real
inverse-forward_real s x = rw (sub-add x (predict_real s)) refl

inverse-forward_wide :
    (s : Wide) (x : Pair) → inverse_wide s (forward_wide s x).0 ≡ (x, (forward_wide s x).1)
unfolding inverse_wide forward_wide
inverse-forward_wide s (a, b) = rw (sub-add a (predict_wide s).0, sub-add b (predict_wide s).1) refl

inverse-forward_narrow :
    (s : ComplexStage) (x : Pair)
    → narrow_inverse s (narrow_forward s x).0 ≡ (x, (narrow_forward s x).1)
unfolding narrow_inverse narrow_forward
inverse-forward_narrow s (a, b) =
    rw (sub-add a (predict_complex s).0, sub-add b (predict_complex s).1) refl

pub inverse-forward_complex :
    (s : ComplexStage) (x : Pair)
    → inverse_complex s (forward_complex s x).0 ≡ (x, (forward_complex s x).1)
unfolding inverse_complex forward_complex in_wide
inverse-forward_complex s x = both s.gone_wide
  where
    both :
        (b : Bool)
        → (if b
            then in_wide s (
                inverse_wide s.wide_stage
                  (if b then in_wide s (forward_wide s.wide_stage x) else narrow_forward s x).0)
            else narrow_inverse s
                (if b then in_wide s (forward_wide s.wide_stage x) else narrow_forward s x).0)
          ≡ (x, (if b then in_wide s (forward_wide s.wide_stage x) else narrow_forward s x).1)
    both true = ap (in_wide s) (inverse-forward_wide s.wide_stage x)
    both false = inverse-forward_narrow s x

pub inverse-forward_cascade :
    (rl : List RealStage) (x : ℤ)
    → inverse_cascade rl (forward_cascade rl x).0 ≡ (x, (forward_cascade rl x).1)
unfolding inverse_cascade forward_cascade
inverse-forward_cascade [] x = refl
inverse-forward_cascade (s ∷ rest) x =
    rw (inverse-forward_cascade rest (forward_real s x).0, inverse-forward_real s x) refl

pub inverse-forward_complexes :
    (cx : List ComplexStage) (x : Pair)
    → inverse_complexes cx (forward_complexes cx x).0 ≡ (x, (forward_complexes cx x).1)
unfolding inverse_complexes forward_complexes
inverse-forward_complexes [] x = refl
inverse-forward_complexes (s ∷ rest) x =
    rw (inverse-forward_complexes rest (forward_complex s x).0, inverse-forward_complex s x) refl

-- A sample of 16 bits.
abbrev pub IsInt16 : ℤ → Type 0
IsInt16 (pos n) = n < 2 ^ 15
IsInt16 (negsuc n) = n < 2 ^ 15

pub to_int16-eq : (v : ℤ) → IsInt16 v → to_int16 v ≡ v
unfolding to_int16 to_int to_uint
to_int16-eq (pos n) h = ground arith
to_int16-eq (negsuc n) h = ground arith
