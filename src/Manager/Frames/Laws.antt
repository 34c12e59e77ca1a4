-- ===== src/Manager/Frames/Laws.antt =====
-- The samples that reach dsc_rx from the frames of a socket in src/channel_manager.cpp, and its rate.
use ubersdr_dsc.Base.{
  ℕ, ◌≡◌, refl, ap, ◌∙◌, subst, Bool, true, false, if◌then◌else◌, none, some, List, [], ◌∷◌, ◌++◌,
}
use mathlib.Core.List.{append_assoc}
use ubersdr_dsc.Base.Int.{ℤ}
use ubersdr_dsc.Pcm.Header.{PcmHeader}
use ubersdr_dsc.Pcm.Attempt.{done, failed}
use ubersdr_dsc.Pcm.Stream.{StreamDecoder, StreamOutcome, decode_packet, is_zstd_frame}
use ubersdr_dsc.Manager.Frames.{
  FrameLoop, LoopCall, FrameResult, refused, accepted, samples_given, frame_result,
  decode_pcm_v4_frame, adapt_rate, feed_samples, take_result, binary_frame, binary_frames,
}
use ubersdr_dsc.Manager.Frames.Calls.{
  Sent, received, sent, next_rate, rate_after, batch, sent_packet, sent_frame, adapt_rate_lem,
  feed_samples_lem,
}

-- What a frame does: the rate and the stream decoder after it, and the samples it gives.
abbrev Follows : FrameLoop → FrameLoop × List LoopCall → Sent → Type 0
Follows l out expected =
    (out.0.current_sample_rate ≡ expected.1.0)
    × (out.0.v4 ≡ expected.1.1)
    × ((calls : List LoopCall)
        → received l.current_sample_rate (out.1 ++ calls)
          ≡ expected.0 ++ received expected.1.0 calls)

accepted-Follows :
    (on_audio : Bool) (l : FrameLoop) (d : StreamDecoder) (h : PcmHeader) (pcm : List ℤ)
    → Follows l
        (take_result on_audio (record l { v4 = d; meta = accepted h }) (some pcm))
        (batch (rate_after l.current_sample_rate h) h pcm, (rate_after l.current_sample_rate h, d))
unfolding take_result accepted next_rate
accepted-Follows on_audio l d h pcm = (
  fed_rate ∙ ap (λ (x : FrameLoop). x.current_sample_rate) same,
  fed_decoder ∙ ap (λ (x : FrameLoop). x.v4) same,
  λ calls.
      ap (received l.current_sample_rate)
        (append_assoc (adapt_rate ready).1 (feed_samples on_audio (adapt_rate ready).0 pcm).1 calls)
      ∙ (adapt_rate_lem ready ((feed_samples on_audio (adapt_rate ready).0 pcm).1 ++ calls)).1
      ∙ (feed_samples_lem on_audio (adapt_rate ready).0 h pcm (next_rate ready) calls
          (ap (λ (x : FrameLoop). x.meta.channels) same)).2,
)
  where
    ready : FrameLoop
    ready = record l { v4 = d; meta = accepted h }

    same : (adapt_rate ready).0 ≡ record ready { current_sample_rate = next_rate ready }
    same = (adapt_rate_lem ready []).0

    fed_rate :
        (feed_samples on_audio (adapt_rate ready).0 pcm).0.current_sample_rate
        ≡ (adapt_rate ready).0.current_sample_rate
    fed_rate =
        (feed_samples_lem on_audio (adapt_rate ready).0 h pcm (next_rate ready) []
          (ap (λ (x : FrameLoop). x.meta.channels) same)).0

    fed_decoder : (feed_samples on_audio (adapt_rate ready).0 pcm).0.v4 ≡ (adapt_rate ready).0.v4
    fed_decoder =
        (feed_samples_lem on_audio (adapt_rate ready).0 h pcm (next_rate ready) []
          (ap (λ (x : FrameLoop). x.meta.channels) same)).1

result-Follows :
    (on_audio : Bool) (l : FrameLoop) (out : StreamOutcome)
    → Follows l
        (take_result on_audio
          (record l { v4 = (frame_result l.meta out).dec; meta = (frame_result l.meta out).meta })
          (frame_result l.meta out).pcm)
        (sent_packet l.current_sample_rate out)
unfolding frame_result take_result
result-Follows on_audio l (d, failed e) = (refl, refl, λ calls. refl)
result-Follows on_audio l (d, done (h, samples)) =
    accepted-Follows on_audio l d h (samples_given h samples)

either-Follows :
    (on_audio : Bool) (l : FrameLoop) (r q : FrameResult) (s t : Sent) (first : Bool)
    → Follows l (take_result on_audio (record l { v4 = r.dec; meta = r.meta }) r.pcm) s
    → Follows l (take_result on_audio (record l { v4 = q.dec; meta = q.meta }) q.pcm) t
    → Follows l
        (take_result on_audio
          (record l { v4 = (if first then r else q).dec; meta = (if first then r else q).meta })
          (if first then r else q).pcm)
        (if first then s else t)
either-Follows on_audio l r q s t true h k = h
either-Follows on_audio l r q s t false h k = k

frame-Follows :
    (on_audio : Bool) (l : FrameLoop) (frame : List ℕ)
    → Follows l (binary_frame on_audio l frame) (sent_frame l.current_sample_rate l.v4 frame)
unfolding binary_frame decode_pcm_v4_frame take_result
frame-Follows on_audio l frame =
    either-Follows on_audio l (record { dec = l.v4; meta = refused l.meta; pcm = none })
      (frame_result l.meta (decode_packet l.v4 frame)) ([], (l.current_sample_rate, l.v4))
      (sent_packet l.current_sample_rate (decode_packet l.v4 frame)) (is_zstd_frame frame)
      (refl, refl, λ calls. refl) (result-Follows on_audio l (decode_packet l.v4 frame))

-- From the frames of a socket in their order, dsc_rx is given the samples of exactly the accepted
-- packets of two channels, half as many pairs as samples, each at the rate that the packet's
-- header names, or where it names none at the rate before; whatever the frames are, refused ones
-- and those of older versions among them, and with the audio callback or without it.
pub binary_frames-sent :
    (on_audio : Bool) (l : FrameLoop) (frames : List (List ℕ))
    → received l.current_sample_rate (binary_frames on_audio l frames).1
      ≡ sent l.current_sample_rate l.v4 frames
unfolding binary_frames
binary_frames-sent on_audio l [] = refl
binary_frames-sent on_audio l (frame ∷ frames) =
    step.2 (binary_frames on_audio next frames).1
    ∙ ap (λ bs. (sent_frame l.current_sample_rate l.v4 frame).0 ++ bs)
        (subst
          (λ (r : ℤ).
            received r (binary_frames on_audio next frames).1
            ≡ sent r (sent_frame l.current_sample_rate l.v4 frame).1.1 frames)
          step.0
          (subst
            (λ (d : StreamDecoder).
              received next.current_sample_rate (binary_frames on_audio next frames).1
              ≡ sent next.current_sample_rate d frames)
            step.1 (binary_frames-sent on_audio next frames)))
  where
    next : FrameLoop
    next = (binary_frame on_audio l frame).0

    step : Follows l (binary_frame on_audio l frame) (sent_frame l.current_sample_rate l.v4 frame)
    step = frame-Follows on_audio l frame
