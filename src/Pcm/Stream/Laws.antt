-- ===== src/Pcm/Stream/Laws.antt =====
-- Packets that are refused, and the scale undone, in src/pcm_v4.hpp.
use ubersdr_dsc.Base.{
  ℕ, if-true, if-false, ◌≡◌, refl, ap, sym, subst, ltb, ◌==◌, Bool-cases, inl, inr, List, [], ◌∷◌,
}
use ubersdr_dsc.Base.Int.{pos_part}
use ubersdr_dsc.Pcm.Attempt.{Attempt, done, failed, ◌>>=◌, PcmError}
use ubersdr_dsc.Pcm.Header.{PcmHeader, decode_header}
use ubersdr_dsc.Pcm.Codec.{
  PredictiveCodec, configure, decode_body, advance_silence, profile_iq_scaled,
}
use ubersdr_dsc.Pcm.Codec.Failure.{Untouched, decode_body-Untouched, advance_silence-Untouched}
use ubersdr_dsc.Pcm.Stream.{
  StreamDecoder, StreamOutcome, Packet, decode_packet, packet_body, configured, silent_packet,
  scaled_packet, with_shift, max_shift, lossy_restore,
}

-- An outcome that fails only with the given codec.
abbrev Keeps : PredictiveCodec → StreamOutcome → Type 0
Keeps c (d, done p) = Unit
Keeps c (d, failed e) = d.codec ≡ c

-- What follows a codec's step fails only where the step does.
then-Keeps {ℓ} :
    {A : Type ℓ} (d : StreamDecoder) (moved : PredictiveCodec × Attempt A) (next : A → Packet)
    → Untouched d.codec moved
    → Keeps d.codec (record d { codec = moved.0 }, moved.1 >>= λ a. done (next a))
then-Keeps d (c, done a) next h = tt
then-Keeps d (c, failed e) next h = h

with_shift-Keeps :
    (d : StreamDecoder) (h : PcmHeader) (shift : ℕ) (body : List ℕ)
    → Keeps d.codec (with_shift d h shift body)
unfolding with_shift
with_shift-Keeps d h shift body =
    then-Keeps d (decode_body (pos_part h.sample_count) h.escape d.codec body)
      (λ samples. (h, lossy_restore shift samples))
      (decode_body-Untouched (pos_part h.sample_count) h.escape d.codec body)

scaled-Keeps :
    (d : StreamDecoder) (h : PcmHeader) (body : List ℕ) → Keeps d.codec (scaled_packet d h body)
unfolding scaled_packet
scaled-Keeps d h [] = refl
scaled-Keeps d h (shift ∷ body) = elim (Bool-cases (ltb max_shift shift)) [
  | inl large ↦ rw large refl
  | inr small ↦ rw small (with_shift-Keeps d (record h { shift = shift }) shift body)
]

silent-Keeps :
    (d : StreamDecoder) (h : PcmHeader) (body : List ℕ) → Keeps d.codec (silent_packet d h body)
unfolding silent_packet
silent-Keeps d h (b ∷ body) = refl
silent-Keeps d h [] =
    then-Keeps d (advance_silence (pos_part h.sample_count) d.codec) (λ _. (h, _))
      (advance_silence-Untouched (pos_part h.sample_count) d.codec)

configured-Keeps :
    (d : StreamDecoder) (h : PcmHeader) (body : List ℕ) → Keeps d.codec (configured d h body)
unfolding configured
configured-Keeps d h body = elim (Bool-cases h.silent) [
  | inl silent ↦ subst (Keeps d.codec) (sym (if-true _ _ h.silent silent)) (silent-Keeps d h body)
  | inr heard ↦
      subst (Keeps d.codec) (sym (if-false _ _ h.silent heard))
        (elim (Bool-cases (h.profile == profile_iq_scaled)) [
          | inl scaled ↦
              subst (Keeps d.codec) (sym (if-true _ _ (h.profile == profile_iq_scaled) scaled))
                (scaled-Keeps d h body)
          | inr plain ↦
              subst (Keeps d.codec) (sym (if-false _ _ (h.profile == profile_iq_scaled) plain))
                (with_shift-Keeps d h 0 body)
        ])
]

-- The codec of a refused packet: untouched where the header was refused; else as `configure` leaves
-- it for the profile that the header names, and no further.
abbrev pub OnlyConfigured :
    PredictiveCodec → Attempt (PcmHeader × List ℕ) → PredictiveCodec → Type 0
OnlyConfigured c (failed e) after = after ≡ c
OnlyConfigured c (done (h, body)) after = after ≡ (configure h.profile c).0

abbrev Refusal : PredictiveCodec → Attempt (PcmHeader × List ℕ) → StreamOutcome → Type 0
Refusal c read (d, done p) = Unit
Refusal c read (d, failed e) = OnlyConfigured c read d.codec

after_configure :
    (c : PredictiveCodec) (h : PcmHeader) (body : List ℕ) (outcome : StreamOutcome)
    → Keeps (configure h.profile c).0 outcome
    → Refusal c (done (h, body)) outcome
after_configure c h body (d, done p) k = tt
after_configure c h body (d, failed e) k = k

packet_body-Refusal :
    (d : StreamDecoder) (read : Attempt (PcmHeader × List ℕ))
    → Refusal d.codec read (packet_body d read)
unfolding packet_body
packet_body-Refusal d (failed e) = refl
packet_body-Refusal d (done (h, body)) = by_result (configure h.profile d.codec) refl
  where
    by_result :
        (c : PredictiveCodec × Attempt (Unit {0}))
        → configure h.profile d.codec ≡ c
        → Refusal d.codec (done (h, body)) (elim c.1 as (λ _. StreamOutcome) [
          | failed e ↦ (record d { codec = c.0 }, failed e)
          | done _ ↦ configured (record d { codec = c.0 }) h body
        ])
    by_result (c, failed e) same = ap (λ (p : PredictiveCodec × Attempt (Unit {0})). p.0) (sym same)
    by_result (c, done _) same =
        after_configure d.codec h body (configured (record d { codec = c }) h body) (
          subst (λ s. Keeps s (configured (record d { codec = c }) h body))
            (ap (λ (p : PredictiveCodec × Attempt (Unit {0})). p.0) (sym same))
            (configured-Keeps (record d { codec = c }) h body))

-- A packet that is refused, for whatever error, moves no filter: where its header is refused the
-- codec is the one from before the packet, and else it is what configuring that one for the
-- packet's own profile makes of it.
pub decode_packet-refused :
    (d after : StreamDecoder) (pkt : List ℕ) (e : PcmError)
    → decode_packet d pkt ≡ (after, failed e)
    → OnlyConfigured d.codec (decode_header d.header pkt).1 after.codec
unfolding decode_packet
decode_packet-refused d after pkt e refused =
    subst (Refusal d.codec (decode_header d.header pkt).1) refused (
      packet_body-Refusal (record d { header = (decode_header d.header pkt).0 })
        (decode_header d.header pkt).1)
