-- ===== src/Manager/Frames/Calls.antt =====
-- What the frames of a socket in src/channel_manager.cpp give to dsc_rx, and the calls that do so.
use ubersdr_dsc.Base.{
  ℕ, ◌/◌, ◌≡◌, refl, ap, sym, ◌∙◌, subst, arith, Bool, true, false, ◌&&◌, not, ◌==◌, ◌!=◌,
  if◌then◌else◌, if-true, if-false, Bool-cases, inl, inr, List, [], ◌∷◌, ◌++◌, length,
}
use ubersdr_dsc.Base.Int.{ℤ, pos_part, neg_part, int_laws}
use ubersdr_dsc.Pcm.Arith.{to_uint, to_int}
use ubersdr_dsc.Pcm.Header.{PcmHeader}
use ubersdr_dsc.Pcm.Attempt.{done, failed}
use ubersdr_dsc.Pcm.Stream.{StreamDecoder, StreamOutcome, decode_packet, is_zstd_frame}
use ubersdr_dsc.Manager.{equals}
use ubersdr_dsc.Manager.Frames.{
  FrameLoop, LoopCall, rebuild, process, audio, samples_given, adapt_rate, feed_samples,
}

-- The rate that a dsc_rx was built for, the number of pairs and the samples that it is given.
abbrev pub Batch : Type 0
Batch = ℤ × (ℕ × List ℤ)

-- What dsc_rx gets, where the first is built for a rate.
abbrev pub received : ℤ → List LoopCall → List Batch
received rate [] = []
received rate (rebuild r ∷ calls) = received r calls
received rate (process n samples ∷ calls) = (rate, (n, samples)) ∷ received rate calls
received rate (audio samples ∷ calls) = received rate calls

-- The rate after an accepted packet: its own, if it names one.
abbrev pub rate_after : ℤ → PcmHeader → ℤ
rate_after rate h =
    if to_uint 32 h.sample_rate == 0 then rate else to_int 32 (to_uint 32 h.sample_rate)

abbrev pub batch : ℤ → PcmHeader → List ℤ → List Batch
batch rate h [] = []
batch rate h (s ∷ ss) =
    if to_uint 8 h.channels == 2 then (rate, (length (s ∷ ss) / 2, s ∷ ss)) ∷ [] else []

-- What is sent: the samples of each accepted packet of two channels, at the rate of that packet.
abbrev pub Sent : Type 0
Sent = List Batch × (ℤ × StreamDecoder)

abbrev pub sent_packet : ℤ → StreamOutcome → Sent
sent_packet rate (d, failed e) = ([], (rate, d))
sent_packet rate (d, done (h, samples)) =
    (batch (rate_after rate h) h (samples_given h samples), (rate_after rate h, d))

abbrev pub sent_frame : ℤ → StreamDecoder → List ℕ → Sent
sent_frame rate d frame =
    if is_zstd_frame frame then ([], (rate, d)) else sent_packet rate (decode_packet d frame)

abbrev pub sent : ℤ → StreamDecoder → List (List ℕ) → List Batch
sent rate d [] = []
sent rate d (frame ∷ frames) =
    let first = sent_frame rate d frame in first.0 ++ sent first.1.0 first.1.1 frames

equals_same : (a b : ℤ) → equals a b ≡ true → a ≡ b
unfolding equals
equals_same a b e =
    let same_pos : pos_part a ≡ pos_part b = ground arith in
    let same_neg : neg_part a ≡ neg_part b = ground arith in
    omega (arith, int_laws, same_pos, same_neg)

unfoldable pub next_rate : FrameLoop → ℤ
next_rate l =
    if l.meta.sample_rate == 0 then l.current_sample_rate else to_int 32 l.meta.sample_rate

pub adapt_rate_lem :
    (l : FrameLoop) (calls : List LoopCall)
    → ((adapt_rate l).0 ≡ record l { current_sample_rate = next_rate l })
      × (received l.current_sample_rate ((adapt_rate l).1 ++ calls) ≡ received (next_rate l) calls)
unfolding adapt_rate next_rate
adapt_rate_lem l calls = elim (Bool-cases (l.meta.sample_rate == 0)) [
  | inl none_named ↦
      subst Adapted (sym (if-false _ _ rebuilds (ground arith))) (stays (kept none_named))
  | inr named ↦ elim (Bool-cases (equals (to_int 32 l.meta.sample_rate) l.current_sample_rate)) [
    | inl same ↦
        subst Adapted (sym (if-false _ _ rebuilds (ground arith)))
          (stays (taken named ∙ equals_same _ _ same))
    | inr other ↦ subst Adapted (sym (if-true _ _ rebuilds (ground arith))) (
      ap (λ (r : ℤ). record l { current_sample_rate = r }) (sym (taken named)),
      ap (λ (r : ℤ). received r calls) (sym (taken named)),
    )
  ]
]
  where
    rebuilds : Bool
    rebuilds =
        l.meta.sample_rate != 0 && not (equals (to_int 32 l.meta.sample_rate) l.current_sample_rate)

    Adapted : FrameLoop × List LoopCall → Type 0
    Adapted out =
        (out.0 ≡ record l { current_sample_rate = next_rate l })
        × (received l.current_sample_rate (out.1 ++ calls) ≡ received (next_rate l) calls)

    kept : l.meta.sample_rate == 0 ≡ true → next_rate l ≡ l.current_sample_rate
    kept e = if-true _ _ _ e

    taken : l.meta.sample_rate == 0 ≡ false → next_rate l ≡ to_int 32 l.meta.sample_rate
    taken e = if-false _ _ _ e

    stays : next_rate l ≡ l.current_sample_rate → Adapted (l, [])
    stays e = (
      ap (λ (r : ℤ). record l { current_sample_rate = r }) (sym e),
      ap (λ (r : ℤ). received r calls) (sym e),
    )

audio_calls :
    (on_audio : Bool) (samples : List ℤ) (rate : ℤ) (calls : List LoopCall)
    → received rate ((if on_audio then audio samples ∷ [] else []) ++ calls) ≡ received rate calls
audio_calls true samples rate calls = refl
audio_calls false samples rate calls = refl

pub feed_samples_lem :
    (on_audio : Bool) (l : FrameLoop) (h : PcmHeader) (pcm : List ℤ) (rate : ℤ)
    (calls : List LoopCall)
    → l.meta.channels ≡ to_uint 8 h.channels
    → ((feed_samples on_audio l pcm).0.current_sample_rate ≡ l.current_sample_rate)
      × ((feed_samples on_audio l pcm).0.v4 ≡ l.v4)
      × (received rate ((feed_samples on_audio l pcm).1 ++ calls)
          ≡ batch rate h pcm ++ received rate calls)
unfolding feed_samples
feed_samples_lem on_audio l h [] rate calls e = (refl, refl, refl)
feed_samples_lem on_audio l h (s ∷ ss) rate calls e =
    elim (Bool-cases (to_uint 8 h.channels == 2)) [
      | inl two ↦ subst Fed (sym (if-false _ _ (l.meta.channels != 2) (ground arith))) (
        refl,
        refl,
        ap
              (λ (n : ℕ).
                (rate, (n, s ∷ ss))
                ∷ received rate ((if on_audio then audio (s ∷ ss) ∷ [] else []) ++ calls))
              (halved two)
            ∙ ap (λ cs. (rate, (length (s ∷ ss) / 2, s ∷ ss)) ∷ cs)
                (audio_calls on_audio (s ∷ ss) rate calls)
            ∙ ap (λ cs. cs ++ received rate calls)
                (sym (if-true _ _ (to_uint 8 h.channels == 2) two)),
      )
      | inr more ↦ subst Fed (sym (if-true _ _ (l.meta.channels != 2) (ground arith))) (
        refl,
        refl,
        ap (λ cs. cs ++ received rate calls) (sym (if-false _ _ (to_uint 8 h.channels == 2) more)),
      )
    ]
  where
    Fed : FrameLoop × List LoopCall → Type 0
    Fed out =
        (out.0.current_sample_rate ≡ l.current_sample_rate)
        × (out.0.v4 ≡ l.v4)
        × (received rate (out.1 ++ calls) ≡ batch rate h (s ∷ ss) ++ received rate calls)

    halved :
        to_uint 8 h.channels == 2 ≡ true → length (s ∷ ss) / l.meta.channels ≡ length (s ∷ ss) / 2
    halved two = ap (λ (n : ℕ). length (s ∷ ss) / n) channels_two
      where
        channels_two : l.meta.channels ≡ 2
        channels_two = ground arith
