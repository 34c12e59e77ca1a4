-- ===== src/Pcm/Stream.antt =====
-- The packet decoder of src/pcm_v4.hpp: PCMv4StreamDecoder.
pub mod Laws
use ubersdr_dsc.Base.{
  ℕ, zero, ◌*◌, ◌^◌, Bool, true, false, ◌&&◌, if◌then◌else◌, ltb, leb, ◌==◌, List, [], ◌∷◌, map,
  length,
}
use ubersdr_dsc.Base.Int.{ℤ, pos, negsuc, pos_part, ltb_ℤ, ◌*ℤ◌}
use ubersdr_dsc.Pcm.Window.{replicate}
use ubersdr_dsc.Pcm.Header.{
  HeaderState, PcmHeader, reset_header, decode_header, read_magic, pcm_v4_magic, zstd_magic,
}
use ubersdr_dsc.Pcm.Codec.{
  PredictiveCodec, new_codec, configure, advance_silence, decode_body, profile_iq_scaled,
}
use ubersdr_dsc.Pcm.Attempt
use ubersdr_dsc.Pcm.Attempt.{◌>>=◌}

abbrev pub max_shift : ℕ
max_shift = 15

pub record StreamDecoder : Type 0 where
  pub header : HeaderState
  pub codec : PredictiveCodec

abbrev pub reset_stream : StreamDecoder
reset_stream = record { header = reset_header; codec = new_codec }

unfoldable pub is_v4_frame : List ℕ → Bool
is_v4_frame pkt = leb 4 (length pkt) && read_magic pkt == pcm_v4_magic

unfoldable pub is_zstd_frame : List ℕ → Bool
is_zstd_frame pkt = leb 4 (length pkt) && read_magic pkt == zstd_magic

-- A sample scaled back, saturated to `int16_t`.
unfoldable pub restored : ℕ → ℤ → ℤ
restored shift v =
    let r = v *ℤ pos (2 ^ shift) in
    if ltb_ℤ (pos 32767) r then pos 32767 else if ltb_ℤ r (negsuc 32767) then negsuc 32767 else r

unfoldable pub lossy_restore : ℕ → List ℤ → List ℤ
unfolding restored
lossy_restore shift samples = if shift == 0 then samples else map (restored shift) samples

abbrev pub Packet : Type 0
Packet = PcmHeader × List ℤ

abbrev pub StreamOutcome : Type 0
StreamOutcome = StreamDecoder × Attempt.Attempt Packet

silent_packet : StreamDecoder → PcmHeader → List ℕ → StreamOutcome
silent_packet d h (b ∷ body) = (d, Attempt.failed Attempt.silent_with_body)
silent_packet d h [] =
    let moved = advance_silence (pos_part h.sample_count) d.codec in
    (
      record d { codec = moved.0 },
      moved.1 >>= λ _. Attempt.done (h, replicate (pos_part h.sample_count) (pos 0)),
    )

with_shift : StreamDecoder → PcmHeader → ℕ → List ℕ → StreamOutcome
unfolding lossy_restore
with_shift d h shift body =
    let moved = decode_body (pos_part h.sample_count) h.escape d.codec body in
    (
      record d { codec = moved.0 },
      moved.1 >>= λ samples. Attempt.done (h, lossy_restore shift samples),
    )

scaled_packet : StreamDecoder → PcmHeader → List ℕ → StreamOutcome
unfolding with_shift
scaled_packet d h [] = (d, Attempt.failed Attempt.no_shift)
scaled_packet d h (shift ∷ body) =
    if ltb max_shift shift
    then (d, Attempt.failed Attempt.shift_out_of_range)
    else with_shift d (record h { shift = shift }) shift body

configured : StreamDecoder → PcmHeader → List ℕ → StreamOutcome
unfolding silent_packet scaled_packet with_shift
configured d h body =
    if h.silent
    then silent_packet d h body
    else if h.profile == profile_iq_scaled
    then scaled_packet d h body
    else with_shift d h 0 body

-- After the header: the profile it names, then the body.
packet_body : StreamDecoder → Attempt.Attempt (PcmHeader × List ℕ) → StreamOutcome
unfolding configured
packet_body d (Attempt.failed e) = (d, Attempt.failed e)
packet_body d (Attempt.done (h, body)) =
    let c = configure h.profile d.codec in
    let ready = record d { codec = c.0 } in
    elim c.1 [
      | Attempt.failed e ↦ (ready, Attempt.failed e)
      | Attempt.done _ ↦ configured ready h body
    ]

-- One packet: its header and its samples, or the error.
unfoldable pub decode_packet : StreamDecoder → List ℕ → StreamOutcome
unfolding packet_body
decode_packet d pkt =
    let read = decode_header d.header pkt in packet_body (record d { header = read.0 }) read.1
