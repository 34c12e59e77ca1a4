-- ===== src/Examples/Packets.antt =====
-- The theorems about src/pcm_v4.hpp at concrete packets.
use ubersdr_dsc.Base.{
  ℕ, ◌/◌, ◌^◌, ◌≤◌, ◌<◌, ◌≡◌, refl, arith, true, false, some, List, [], ◌∷◌, ◌++◌, All, drop,
}
use ubersdr_dsc.Base.Int.{ℤ, pos, negsuc, magnitude, ◌+ℤ◌, ◌-ℤ◌, ◌*ℤ◌}
use ubersdr_dsc.Pcm.Attempt.{done, failed, bad_magic}
use ubersdr_dsc.Pcm.Arith.{sign, leak, to_uint, to_int, round_shift, history_len, tap_limit}
use ubersdr_dsc.Pcm.Window.{window, advance, store, window-store}
use ubersdr_dsc.Pcm.Real.{
  new_real, begin_real, forward_cascade, forward_real, predict_real, adapt_real, push_real, max_abs,
}
use ubersdr_dsc.Pcm.Complex.{load, new_complex}
use ubersdr_dsc.Pcm.Complex.Run.{
  Frame, residual, sample, complex_stream, wide_stream, clamped_stream,
}
use ubersdr_dsc.Pcm.Complex.Reference.{reference}
use ubersdr_dsc.Pcm.Complex.Streams.{complex_stream-eq-wide_stream, complex_stream_taps}
use ubersdr_dsc.Pcm.Complex.Clamp.{wide_stream-eq-clamped_stream}
use ubersdr_dsc.Pcm.Rice.{rice_decode}
use ubersdr_dsc.Pcm.Rice.Spec.{write_codes, write_code, zigzag, byte_bits}
use ubersdr_dsc.Pcm.Rice.Laws.{rice_reference, rice_decode-eq-rice_reference}
use ubersdr_dsc.Pcm.Rice.Roundtrip.{rice_decode-write_codes}
use ubersdr_dsc.Pcm.Varint.{read_uvarint}
use ubersdr_dsc.Pcm.Varint.Roundtrip.{write_uvarint, read-write_uvarint}
use ubersdr_dsc.Pcm.Header.{decode_header, reset_header, read_magic, has_flag}
use ubersdr_dsc.Pcm.Header.Layout.{write_resync}
use ubersdr_dsc.Pcm.Header.Resync.{decode_header-write_resync, resynced, resync_header}
use ubersdr_dsc.Pcm.Codec.{PredictiveCodec, begin_packet, samples_per_step, pass_all, decode_body}
use ubersdr_dsc.Pcm.Codec.Encoder.{residuals}
use ubersdr_dsc.Pcm.Codec.Roundtrip.{decode_body-residuals}
use ubersdr_dsc.Pcm.Stream.{decode_packet, reset_stream}
use ubersdr_dsc.Pcm.Stream.Laws.{decode_packet-refused, OnlyConfigured}

abbrev four : List ℕ
four = 5 ∷ 6 ∷ 7 ∷ 8 ∷ []

window-store_example :
    window 2 (advance 2 3 four) (store 2 3 four 9) ≡ drop 1 (window 2 3 four) ++ 9 ∷ []
window-store_example = window-store 2 3 four 9 (omega arith)

read-write_uvarint_example : read_uvarint (write_uvarint 300 ++ 7 ∷ []) ≡ some (300, 7 ∷ [])
read-write_uvarint_example = read-write_uvarint 300 (7 ∷ []) (omega arith)

abbrev two_residuals : List ℤ
two_residuals = pos 3 ∷ negsuc 1 ∷ []

small_residuals : All (λ e. zigzag e < 2 ^ 32) two_residuals
unfolding zigzag
small_residuals = (omega arith, (omega arith, tt))

two_codes : byte_bits (105 ∷ []) ≡ write_codes 2 two_residuals ++ false ∷ []
unfolding write_codes write_code zigzag
two_codes = refl

rice_decode-write_codes_example : rice_decode (2 ∷ 105 ∷ []) 2 ≡ done two_residuals
rice_decode-write_codes_example =
    rice_decode-write_codes 2 (105 ∷ []) two_residuals (false ∷ []) (omega arith) (omega arith)
      small_residuals two_codes

rice_decode-eq-rice_reference_example :
    rice_decode (2 ∷ 105 ∷ []) 3 ≡ rice_reference (2 ∷ 105 ∷ []) 3
rice_decode-eq-rice_reference_example = rice_decode-eq-rice_reference (2 ∷ 105 ∷ []) 3 (omega arith)

-- A packet whose second frame leaves `int32_t`.
abbrev loud_packets : List (List Frame)
loud_packets =
    (residual (pos 5, negsuc 2) ∷ residual (pos 0x8000_0000, pos 1) ∷ sample (pos 1, pos 0) ∷ [])
    ∷ (residual (pos 1, pos 1) ∷ [])
    ∷ []

complex_stream-eq-wide_stream_example :
    (complex_stream (new_complex 2 16) loud_packets).0
    ≡ (wide_stream (load (new_complex 2 16)) loud_packets).0
complex_stream-eq-wide_stream_example =
    complex_stream-eq-wide_stream 2 16 (omega arith) (omega arith) (omega arith) loud_packets

complex_stream_taps_example :
    All
      (λ w. magnitude w ≤ tap_limit)
      (reference (complex_stream (new_complex 2 16) loud_packets).1).taps_r
    × All
        (λ w. magnitude w ≤ tap_limit)
        (reference (complex_stream (new_complex 2 16) loud_packets).1).taps_i
complex_stream_taps_example =
    complex_stream_taps 2 16 (omega arith) (omega arith) (omega arith) loud_packets

wide_stream-eq-clamped_stream_example :
    (wide_stream (load (new_complex 2 16)) loud_packets).0
    ≡ (clamped_stream (load (new_complex 2 16)) loud_packets).0
wide_stream-eq-clamped_stream_example = wide_stream-eq-clamped_stream 2 16 loud_packets

flags_set :
    (has_flag 0x68 0x20 ≡ true)
    × (has_flag 0x68 8 ≡ true)
    × (has_flag 0x68 0x40 ≡ true)
    × (has_flag 0x68 0x80 ≡ false)
unfolding has_flag
flags_set = (refl, refl, refl, refl)

decode_header-write_resync_example :
    decode_header reset_header
      (write_resync 0x68 123456789 480 48000 2 (negsuc 4999) (negsuc 32767) (1 ∷ 2 ∷ []))
    ≡ (
      resynced reset_header 123456789 480 48000 2 (negsuc 4999) (negsuc 32767),
      done (resync_header 0x68 123456789 480 48000 2 (negsuc 4999) (negsuc 32767), 1 ∷ 2 ∷ []),
    )
decode_header-write_resync_example =
    decode_header-write_resync reset_header 0x68 123456789 480 48000 2 (negsuc 4999) (negsuc 32767)
      (1 ∷ 2 ∷ []) flags_set.0 flags_set.1 flags_set.2 (rw flags_set.3 refl) (omega arith)
      (omega arith) (omega arith) (omega arith) (omega arith)

wrong_magic : decode_packet reset_stream (1 ∷ 2 ∷ 3 ∷ 4 ∷ 5 ∷ []) ≡ (reset_stream, failed bad_magic)
unfolding decode_packet decode_header read_magic
wrong_magic = refl

decode_packet-refused_example :
    OnlyConfigured reset_stream.codec
      (decode_header reset_stream.header (1 ∷ 2 ∷ 3 ∷ 4 ∷ 5 ∷ [])).1
      reset_stream.codec
decode_packet-refused_example =
    decode_packet-refused reset_stream reset_stream (1 ∷ 2 ∷ 3 ∷ 4 ∷ 5 ∷ []) bad_magic wrong_magic

-- A codec of one short real stage.
abbrev small_codec : PredictiveCodec
small_codec = record { id = 1; complex = false; cx = []; rl = new_real 2 32 ∷ [] }

two_predicted : residuals (begin_packet 2 small_codec) two_residuals ≡ two_residuals
unfolding residuals sign leak begin_packet begin_real new_real history_len forward_cascade
    forward_real predict_real adapt_real push_real max_abs round_shift window store advance to_int
    to_uint ◌+ℤ◌ ◌-ℤ◌ ◌*ℤ◌
two_predicted = refl

one_step : samples_per_step small_codec ≡ 1
unfolding samples_per_step
one_step = refl

decode_body-residuals_example : decode_body 2 false small_codec (2 ∷ 105 ∷ []) ≡ (
  pass_all (begin_packet (2 / samples_per_step small_codec) small_codec) two_residuals,
  done two_residuals,
)
decode_body-residuals_example =
    decode_body-residuals small_codec two_residuals 2 (105 ∷ []) (false ∷ []) (omega arith)
      (rw one_step refl) (omega arith) (omega arith) (omega arith)
      (rw (one_step, two_predicted) small_residuals) (rw (one_step, two_predicted) two_codes)
