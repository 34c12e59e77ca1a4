-- ===== src/Pcm/Codec.antt =====
-- The payload codec of src/pcm_v4.hpp: PredictiveCodec.
pub mod Encoder
pub mod Stages
pub mod Undo
pub mod Roundtrip
pub mod Failure
use ubersdr_dsc.Base.{
  ℕ, zero, suc, ◌+◌, ◌*◌, ◌/◌, ◌%◌, ◌^◌, Bool, true, false, ◌||◌, not, if◌then◌else◌, ltb, leb,
  ◌==◌, ◌!=◌, List, [], ◌∷◌, map, length, bit_or,
}
use ubersdr_dsc.Base.Int.{ℤ, pos}
use ubersdr_dsc.Pcm.Arith.{to_int, to_uint}
use ubersdr_dsc.Pcm.Real.{RealStage, new_real, begin_real, forward_cascade, inverse_cascade}
use ubersdr_dsc.Pcm.Wide.{Pair}
use ubersdr_dsc.Pcm.Complex.{
  ComplexStage, new_complex, begin_complex, forward_complex, inverse_complex,
}
use ubersdr_dsc.Pcm.Rice.{rice_decode}
use ubersdr_dsc.Pcm.Attempt

abbrev pub profile_iq : ℕ
profile_iq = 0

abbrev pub profile_audio : ℕ
profile_audio = 1

abbrev pub profile_iq_scaled : ℕ
profile_iq_scaled = 2

pub record PredictiveCodec : Type 0 where
  pub id : ℕ
  pub complex : Bool
  pub cx : List ComplexStage
  pub rl : List RealStage

abbrev pub new_codec : PredictiveCodec
new_codec = record { id = 0xff; complex = false; cx = []; rl = [] }

iq_codec : ℕ → PredictiveCodec
iq_codec id = record { id = id; complex = true; cx = new_complex 16 16 ∷ []; rl = [] }

audio_codec : ℕ → PredictiveCodec
audio_codec id = record {
  id = id;
  complex = false;
  cx = [];
  rl = new_real 8 16 ∷ new_real 8 16 ∷ new_real 4 32 ∷ new_real 2 32 ∷ [];
}

abbrev pub CodecOutcome : Type 0 → Type 0
CodecOutcome A = PredictiveCodec × Attempt.Attempt A

-- Build for a profile; nothing is done where the profile stays.
unfoldable pub configure : ℕ → PredictiveCodec → CodecOutcome (Unit {0})
unfolding iq_codec audio_codec
configure profile c =
    if c.id == profile
    then (c, Attempt.done tt)
    else if profile == profile_iq || profile == profile_iq_scaled
    then (iq_codec profile, Attempt.done tt)
    else if profile == profile_audio
    then (audio_codec profile, Attempt.done tt)
    else (
      record { id = 0xff; complex = c.complex; cx = []; rl = [] },
      Attempt.failed Attempt.unknown_profile,
    )

unfoldable pub samples_per_step : PredictiveCodec → ℕ
samples_per_step c = if c.complex then 2 else 1

-- Every stage decides once whether the packet may skip the clamp.
unfoldable pub begin_packet : ℕ → PredictiveCodec → PredictiveCodec
begin_packet steps c = record c {
  cx = map (begin_complex steps) c.cx;
  rl = map (begin_real steps) c.rl;
}

unfoldable pub forward_complexes : List ComplexStage → Pair → Pair × List ComplexStage
forward_complexes [] x = (x, [])
forward_complexes (s ∷ rest) x =
    let first = forward_complex s x in
    let others = forward_complexes rest first.0 in (others.0, first.1 ∷ others.1)

-- The stages undone: the last first.
unfoldable pub inverse_complexes : List ComplexStage → Pair → Pair × List ComplexStage
inverse_complexes [] e = (e, [])
inverse_complexes (s ∷ rest) e =
    let others = inverse_complexes rest e in
    let first = inverse_complex s others.0 in (first.0, first.1 ∷ others.1)

-- A sample position whose samples are known.
unfoldable pub pass_over : PredictiveCodec → Pair → PredictiveCodec
unfolding forward_complexes
pass_over c (a, b) =
    if c.complex
    then record c { cx = (forward_complexes c.cx (a, b)).1 }
    else record c { rl = (forward_cascade c.rl a).1 }

-- Samples, two to a step in a complex codec.
unfoldable pub pass_complex : PredictiveCodec → List ℤ → PredictiveCodec
unfolding pass_over
pass_complex c (a ∷ b ∷ rest) = pass_complex (pass_over c (a, b)) rest
pass_complex c [] = c
pass_complex c (a ∷ []) = c

unfoldable pub pass_real : PredictiveCodec → List ℤ → PredictiveCodec
unfolding pass_over
pass_real c [] = c
pass_real c (a ∷ rest) = pass_real (pass_over c (a, pos 0)) rest

unfoldable pub pass_all : PredictiveCodec → List ℤ → PredictiveCodec
unfolding pass_complex pass_real
pass_all c samples = if c.complex then pass_complex c samples else pass_real c samples

zeros : ℕ → List ℤ
zeros zero = []
zeros (suc n) = pos 0 ∷ zeros n

bad_count : ℕ → PredictiveCodec → Bool
unfolding samples_per_step
bad_count count c = count == 0 || count % samples_per_step c != 0

-- `count` zeros passed over.
unfoldable pub advance_silence : ℕ → PredictiveCodec → CodecOutcome (Unit {0})
unfolding bad_count begin_packet pass_all zeros samples_per_step
advance_silence count c =
    if bad_count count c
    then (c, Attempt.failed Attempt.bad_sample_count)
    else (pass_all (begin_packet (count / samples_per_step c) c) (zeros count), Attempt.done tt)

-- `(int16_t)` of an integer.
unfoldable pub to_int16 : ℤ → ℤ
to_int16 v = to_int 16 (to_uint 16 v)

-- Verbatim samples, two bytes each.
unfoldable pub verbatim : ℕ → List ℕ → List ℤ
verbatim zero bytes = []
verbatim (suc n) (low ∷ high ∷ rest) = to_int 16 (bit_or low (high * 2 ^ 8)) ∷ verbatim n rest
verbatim (suc n) [] = []
verbatim (suc n) (low ∷ []) = []

unfoldable pub undo_complex : List ComplexStage → List ℤ → List ℤ × List ComplexStage
unfolding inverse_complexes to_int16
undo_complex cx (a ∷ b ∷ rest) =
    let frame = inverse_complexes cx (a, b) in
    let others = undo_complex frame.1 rest in
    (to_int16 frame.0.0 ∷ to_int16 frame.0.1 ∷ others.0, others.1)
undo_complex cx [] = ([], cx)
undo_complex cx (a ∷ []) = ([], cx)

unfoldable pub undo_real : List RealStage → List ℤ → List ℤ × List RealStage
unfolding to_int16
undo_real rl [] = ([], rl)
undo_real rl (a ∷ rest) =
    let first = inverse_cascade rl a in
    let others = undo_real first.1 rest in (to_int16 first.0 ∷ others.0, others.1)

-- Residuals taken back to samples.
unfoldable pub undo_all : PredictiveCodec → List ℤ → PredictiveCodec × List ℤ
unfolding undo_complex undo_real
undo_all c residuals =
    if c.complex
    then (record c { cx = (undo_complex c.cx residuals).1 }, (undo_complex c.cx residuals).0)
    else (record c { rl = (undo_real c.rl residuals).1 }, (undo_real c.rl residuals).0)

coded : ℕ → PredictiveCodec → Attempt.Attempt (List ℤ) → CodecOutcome (List ℤ)
unfolding begin_packet undo_all samples_per_step
coded count c (Attempt.failed e) = (c, Attempt.failed e)
coded count c (Attempt.done residuals) =
    let end = undo_all (begin_packet (count / samples_per_step c) c) residuals in
    (end.0, Attempt.done end.1)

escaped : ℕ → PredictiveCodec → List ℕ → CodecOutcome (List ℤ)
unfolding begin_packet pass_all verbatim samples_per_step
escaped count c body =
    if ltb (length body) (count * 2) then (c, Attempt.failed Attempt.escape_truncated) else (
      pass_all (begin_packet (count / samples_per_step c) c) (verbatim count body),
      Attempt.done (verbatim count body),
    )

coded_body : ℕ → PredictiveCodec → List ℕ → CodecOutcome (List ℤ)
unfolding coded
coded_body count c [] = (c, Attempt.failed Attempt.empty_payload)
coded_body count c (k ∷ bytes) = coded count c (rice_decode (k ∷ bytes) count)

-- One packet's body.
unfoldable pub decode_body : ℕ → Bool → PredictiveCodec → List ℕ → CodecOutcome (List ℤ)
unfolding bad_count escaped coded_body
decode_body count escape c body =
    if bad_count count c
    then (c, Attempt.failed Attempt.bad_sample_count)
    else if escape
    then escaped count c body
    else coded_body count c body
