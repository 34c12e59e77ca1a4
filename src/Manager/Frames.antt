-- ===== src/Manager/Frames.antt =====
-- The binary frames of a channel's socket in src/channel_manager.cpp: decode_pcm_v4_frame, and what
-- the callback in channelLoop does with its samples.
pub mod Calls
pub mod Laws
use ubersdr_dsc.Base.{
  ℕ, ◌+◌, ◌/◌, ◌%◌, ◌^◌, Bool, true, false, ◌&&◌, not, ◌==◌, ◌!=◌, if◌then◌else◌, Option, none,
  some, List, [], ◌∷◌, ◌++◌, length,
}
use ubersdr_dsc.Base.Int.{ℤ, pos, ltb_ℤ}
use ubersdr_dsc.Pcm.Arith.{to_uint, to_int}
use ubersdr_dsc.Pcm.Header.{PcmHeader}
use ubersdr_dsc.Pcm.Attempt.{Attempt, done, failed}
use ubersdr_dsc.Pcm.Stream.{
  StreamDecoder, StreamOutcome, reset_stream, decode_packet, is_zstd_frame,
}
use ubersdr_dsc.Manager.{equals}

-- Power and noise as in the header, `none` for its value without a reading.
pub record PcmMeta : Type 0 where
  pub sample_rate : ℕ
  pub channels : ℕ
  pub baseband_power : Option ℤ
  pub noise_dbfs : Option ℤ
  pub has_signal_quality : Bool
  pub decode_errors : ℕ

abbrev no_meta : PcmMeta
no_meta = record {
  sample_rate = 0;
  channels = 0;
  baseband_power = some (pos 0);
  noise_dbfs = some (pos 0);
  has_signal_quality = false;
  decode_errors = 0;
}

is_reading : Option ℤ → Bool
is_reading none = false
is_reading (some p) = true

refused : PcmMeta → PcmMeta
refused meta = record meta { decode_errors = (meta.decode_errors + 1) % 2 ^ 64 }

accepted : PcmHeader → PcmMeta
unfolding is_reading
accepted h = record {
  sample_rate = to_uint 32 h.sample_rate;
  channels = to_uint 8 h.channels;
  baseband_power = h.baseband_power;
  noise_dbfs = h.noise;
  has_signal_quality = is_reading h.baseband_power;
  decode_errors = 0;
}

unfoldable pub samples_given : PcmHeader → List ℤ → List ℤ
samples_given h samples = if ltb_ℤ (pos 0) h.sample_count then samples else []

-- The result `false` is `none`; the samples are those in pcm_le.
pub record FrameResult : Type 0 where
  pub dec : StreamDecoder
  pub meta : PcmMeta
  pub pcm : Option (List ℤ)

frame_result : PcmMeta → StreamOutcome → FrameResult
unfolding refused accepted samples_given
frame_result meta (d, failed e) = record { dec = d; meta = refused meta; pcm = none }
frame_result meta (d, done (h, samples)) = record {
  dec = d;
  meta = accepted h;
  pcm = some (samples_given h samples);
}

decode_pcm_v4_frame : StreamDecoder → List ℕ → PcmMeta → FrameResult
unfolding frame_result refused
decode_pcm_v4_frame dec frame meta =
    if is_zstd_frame frame
    then record { dec = dec; meta = refused meta; pcm = none }
    else frame_result meta (decode_packet dec frame)

-- What channelLoop keeps from one frame of a socket to the next.
pub record FrameLoop : Type 0 where
  pub v4 : StreamDecoder
  pub meta : PcmMeta
  pub current_sample_rate : ℤ
  pub warned_channels : Bool

abbrev pub new_loop : FrameLoop
new_loop = record {
  v4 = reset_stream;
  meta = no_meta;
  current_sample_rate = pos 10000;
  warned_channels = false;
}

-- The calls that the callback makes: a new dsc_rx for a rate, dsc_rx::process, the audio callback.
pub data LoopCall : Type 0 where
  rebuild : ℤ → LoopCall
  process : ℕ → List ℤ → LoopCall
  audio : List ℤ → LoopCall

pub adapt_rate : FrameLoop → FrameLoop × List LoopCall
adapt_rate l =
    let rate = to_int 32 l.meta.sample_rate in
    if l.meta.sample_rate != 0 && not (equals rate l.current_sample_rate)
    then (record l { current_sample_rate = rate }, rebuild rate ∷ [])
    else (l, [])

pub feed_samples : Bool → FrameLoop → List ℤ → FrameLoop × List LoopCall
feed_samples on_audio l [] = (l, [])
feed_samples on_audio l (s ∷ ss) =
    if l.meta.channels != 2 then (record l { warned_channels = true }, []) else (
      record l { warned_channels = false },
      process (length (s ∷ ss) / l.meta.channels) (s ∷ ss)
          ∷ (if on_audio then audio (s ∷ ss) ∷ [] else []),
    )

take_result : Bool → FrameLoop → Option (List ℤ) → FrameLoop × List LoopCall
unfolding adapt_rate feed_samples
take_result on_audio l none = (l, [])
take_result on_audio l (some pcm) =
    let adapted = adapt_rate l in
    let fed = feed_samples on_audio adapted.0 pcm in (fed.0, adapted.1 ++ fed.1)

unfoldable pub binary_frame : Bool → FrameLoop → List ℕ → FrameLoop × List LoopCall
unfolding take_result decode_pcm_v4_frame
binary_frame on_audio l frame =
    let r = decode_pcm_v4_frame l.v4 frame l.meta in
    take_result on_audio (record l { v4 = r.dec; meta = r.meta }) r.pcm

-- The frames of one socket in their order.
unfoldable pub binary_frames : Bool → FrameLoop → List (List ℕ) → FrameLoop × List LoopCall
unfolding binary_frame
binary_frames on_audio l [] = (l, [])
binary_frames on_audio l (frame ∷ frames) =
    let first = binary_frame on_audio l frame in
    let others = binary_frames on_audio first.0 frames in (others.0, first.1 ++ others.1)
