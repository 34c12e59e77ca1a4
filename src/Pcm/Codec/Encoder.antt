-- ===== src/Pcm/Codec/Encoder.antt =====
-- The encoder's side of the codec in src/pcm_v4.hpp: residuals of known samples, by the filters' forward direction.
use ubersdr_dsc.Base.{if◌then◌else◌, List, [], ◌∷◌}
use ubersdr_dsc.Base.Int.{ℤ}
use ubersdr_dsc.Pcm.Real.{RealStage, forward_cascade}
use ubersdr_dsc.Pcm.Complex.{ComplexStage}
use ubersdr_dsc.Pcm.Codec.{PredictiveCodec, forward_complexes}

unfoldable pub residuals_real : List RealStage → List ℤ → List ℤ
residuals_real rl [] = []
residuals_real rl (x ∷ xs) = let first = forward_cascade rl x in first.0 ∷ residuals_real first.1 xs

unfoldable pub residuals_complex : List ComplexStage → List ℤ → List ℤ
residuals_complex cx (a ∷ b ∷ rest) =
    let first = forward_complexes cx (a, b) in
    first.0.0 ∷ first.0.1 ∷ residuals_complex first.1 rest
residuals_complex cx [] = []
residuals_complex cx (a ∷ []) = []

unfoldable pub residuals : PredictiveCodec → List ℤ → List ℤ
unfolding residuals_real residuals_complex
residuals c samples =
    if c.complex then residuals_complex c.cx samples else residuals_real c.rl samples
