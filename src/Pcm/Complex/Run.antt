-- ===== src/Pcm/Complex/Run.antt =====
-- A complex filter of src/pcm_v4.hpp over the packets of a stream: residuals that it takes back to
-- samples, and known samples that it passes over.
use ubersdr_dsc.Base.{ℕ, false, List, [], ◌∷◌, length}
use ubersdr_dsc.Pcm.Wide.{Wide, Pair, begin_wide, forward_wide, inverse_wide}
use ubersdr_dsc.Pcm.Complex.{ComplexStage, begin_complex, forward_complex, inverse_complex}

-- What a frame of a packet asks of the filter.
pub data Frame : Type 0 where
  -- The residual of a coded packet's frame.
  residual : Pair → Frame
  -- The sample of an escaped or a silent packet's frame.
  sample : Pair → Frame

unfoldable pub complex_frame : ComplexStage → Frame → Pair × ComplexStage
complex_frame s (residual e) = inverse_complex s e
complex_frame s (sample x) = forward_complex s x

unfoldable pub wide_frame : Wide → Frame → Pair × Wide
wide_frame s (residual e) = inverse_wide s e
wide_frame s (sample x) = forward_wide s x

module _ {ℓ} {S : Type ℓ} where
  -- Frames in their order, with the filter handed on.
  abbrev pub run : (S → Frame → Pair × S) → S → List Frame → List Pair × S
  run step s [] = ([], s)
  run step s (f ∷ fs) =
      let first = step s f in let rest = run step first.1 fs in (first.0 ∷ rest.0, rest.1)

  -- Packets: each begins with the number of its frames.
  abbrev pub stream :
      (ℕ → S → S) → (S → Frame → Pair × S) → S → List (List Frame) → List (List Pair) × S
  stream start step s [] = ([], s)
  stream start step s (p ∷ ps) =
      let first = run step (start (length p) s) p in
      let rest = stream start step first.1 ps in (first.0 ∷ rest.0, rest.1)

unfoldable pub complex_stream : ComplexStage → List (List Frame) → List (List Pair) × ComplexStage
unfolding complex_frame
complex_stream = stream begin_complex complex_frame

unfoldable pub wide_stream : Wide → List (List Frame) → List (List Pair) × Wide
unfolding wide_frame
wide_stream = stream begin_wide wide_frame

-- The same filter without the fast path: every update is clamped.
unfoldable pub clamped_stream : Wide → List (List Frame) → List (List Pair) × Wide
unfolding wide_frame
clamped_stream = stream (λ steps s. record s { fast = false }) wide_frame
