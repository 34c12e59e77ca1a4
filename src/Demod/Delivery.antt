-- ===== src/Demod/Delivery.antt =====
-- From the samples of a burst to the callback: `dsc_rx` of src/dsc_rx.cpp as a whole.
use ubersdr_dsc.Base.{
  ℕ, suc, ◌+◌, ◌<◌, ◌^◌, ◌≡◌, refl, ap, sym, ◌∙◌, subst, Bool, true, false, if-true, if◌then◌else◌,
  List, [], ◌∷◌,
}
use ubersdr_dsc.Base.Int.{ℤ, pos}
use ubersdr_dsc.Base.Text.{Text}
use ubersdr_dsc.Base.Result.{Result, ok, out_of_bounds, out_of_range, overflow}
use ubersdr_dsc.Decoder.{Decoder}
use ubersdr_dsc.Decoder.Spec.{tabulate, total, corrected, disagreements, fill_errors}
use ubersdr_dsc.Message.{Message}
use ubersdr_dsc.Message.Decode.{dsc_message}
use ubersdr_dsc.Rx.{Rx, Event, init, receive_bits}
use ubersdr_dsc.Rx.Config.{RateConfig, rate_config_for}
use ubersdr_dsc.Rx.Framing.{fresh}
use ubersdr_dsc.Rx.Delivery.{IsBurst, Delivers, signal, receive_bits-burst}
use ubersdr_dsc.Demod.{Signals, Demod, new_demod, process}
use ubersdr_dsc.Demod.Framing.{
  Framing, Heard, framing, seen_by, seen, seen-receive_bits, receive_framings,
}
use ubersdr_dsc.Demod.Ready.{IsReady, new_demod-IsReady}
use ubersdr_dsc.Demod.Bits.{sampled_bits, seen-process_pairs}

-- One call of the callback, with a message and a count of errors, by a receiver that hunts again.
abbrev pub HearsOnce : Message → ℕ → Result Heard → Type 0
HearsOnce m errors (ok (f, c ∷ [])) = (c ≡ (m, errors)) × (f.got_sop ≡ false) × (f.bit_count ≡ 0)
HearsOnce m errors _ = ⊥

delivers-HearsOnce :
    {R : Type 0} (m : Message) (errors : ℕ) (r : Result (Rx R × List (Event R)))
    → Delivers m errors r
    → HearsOnce m errors (seen r)
delivers-HearsOnce m errors (ok (rx, e ∷ [])) h = (cc, h.2, h.3)
delivers-HearsOnce m errors (ok (rx, [])) h = absurd h
delivers-HearsOnce m errors (ok (rx, e ∷ f ∷ es)) h = absurd h
delivers-HearsOnce m errors out_of_bounds h = absurd h
delivers-HearsOnce m errors out_of_range h = absurd h
delivers-HearsOnce m errors overflow h = absurd h

module _ {R C : Type 0} (signals : Signals R C) (time_to_iso8601 : ℕ → Text) (now : ℕ) where
  -- What `process` leaves of the framing and calls the callback with is what `receiveBit` does with
  -- the sampled bits one after another: for a receiver with a supported rate, whose place in the
  -- table of the exponential is inside it, the floating-point numbers decide by these bits alone.
  pub process-eq-receive_bits :
      (d : Demod R C) (pairs : List (ℤ × ℤ))
      → IsReady d
      → d.rx.rate.supported ≡ true
      → seen_by (λ (x : Demod R C). framing x.rx) (process signals time_to_iso8601 now d pairs)
        ≡ seen (
            receive_bits signals.reals time_to_iso8601 now d.rx
              (sampled_bits signals time_to_iso8601 now d pairs))
  unfolding process
  process-eq-receive_bits d pairs ready supported =
      ap (seen_by (λ (x : Demod R C). framing x.rx)) (if-true _ _ d.rx.rate.supported supported)
      ∙ seen-process_pairs signals time_to_iso8601 now pairs d ready
      ∙ sym (
          seen-receive_bits time_to_iso8601 now signals.reals
            (sampled_bits signals time_to_iso8601 now d pairs) d.rx)

  module _ (decoder : Decoder) (taps : RateConfig → List R) (n : ℕ) where
    abbrev pub built : Demod R C
    built = new_demod signals time_to_iso8601 now decoder taps (pos n)

    blank : Rx R
    blank = record {
      rate = rate_config_for (pos n);
      exp_idx = 0;
      clock_count = signals.reals.nought;
      data_bit = false;
      data_prev = false;
      dsc_decoder = decoder;
      bits = 0;
      bit_count = 0;
      got_sop = false;
      rssi_mag_sq_sum = signals.reals.nought;
      rssi_mag_sq_count = 0;
    }

    built-supported : (rate_config_for (pos n)).supported ≡ true → built.rx.rate.supported ≡ true
    unfolding new_demod init blank
    built-supported s = either (rate_config_for (pos n)).supported
      where
        either :
            (b : Bool)
            → (if b then init signals.reals time_to_iso8601 now blank else blank).rate.supported
              ≡ true
        either true = s
        either false = s

    pub built-fresh : framing (fresh built.rx) ≡ framing built.rx
    unfolding new_demod init blank
    built-fresh = either (rate_config_for (pos n)).supported
      where
        either :
            (b : Bool)
            → framing (fresh (if b then init signals.reals time_to_iso8601 now blank else blank))
              ≡ framing (if b then init signals.reals time_to_iso8601 now blank else blank)
        either true = refl
        either false = refl

    -- The samples of a burst, given to a receiver that was just built for a supported rate below
    -- 2 ^ 31, whose sampled bits are the codewords of the burst from one of the first ten places of
    -- its phasing sequence on, bring about one call of the callback, with the message that the
    -- corrected symbols are, if they can be read as one, and the errors that were counted; and the
    -- receiver looks for the next phasing sequence.
    pub process-burst :
        (pairs : List (ℤ × ℤ)) (i : ℕ) (ws : List ℕ) (first second : ℕ → ℕ) (f g k : ℕ)
        (m : Message)
        → n < 2 ^ 31
        → (rate_config_for (pos n)).supported ≡ true
        → sampled_bits signals time_to_iso8601 now built pairs ≡ signal i ws
        → IsBurst i ws first second f g k
        → dsc_message time_to_iso8601 (tabulate (corrected first second) 0 (suc (suc k))) now ≡ ok m
        → HearsOnce m (fill_errors f g + total (disagreements first second) 0 (suc (suc k))) (
            seen_by
              (λ (x : Demod R C). framing x.rx)
              (process signals time_to_iso8601 now built pairs))
    process-burst pairs i ws first second f g k m small s sampled h dm =
        subst (HearsOnce m (fill_errors f g + total (disagreements first second) 0 (suc (suc k))))
          (sym same)
          (delivers-HearsOnce m _
            (receive_bits signals.reals time_to_iso8601 now (fresh built.rx) (signal i ws))
            (receive_bits-burst signals.reals time_to_iso8601 now built.rx i ws first second f g k m
              h dm))
      where
        bits_seen : List Bool → Framing → Result Heard
        bits_seen bs start = receive_framings time_to_iso8601 now start bs

        same :
            seen_by
              (λ (x : Demod R C). framing x.rx)
              (process signals time_to_iso8601 now built pairs)
            ≡ seen (receive_bits signals.reals time_to_iso8601 now (fresh built.rx) (signal i ws))
        same =
            process-eq-receive_bits built pairs
              (new_demod-IsReady signals time_to_iso8601 now decoder taps n small s)
              (built-supported s)
            ∙ ap
                (λ (bs : List Bool).
                  seen (receive_bits signals.reals time_to_iso8601 now built.rx bs))
                sampled
            ∙ seen-receive_bits time_to_iso8601 now signals.reals (signal i ws) built.rx
            ∙ ap (bits_seen (signal i ws)) (sym built-fresh)
            ∙ sym
                (seen-receive_bits time_to_iso8601 now signals.reals (signal i ws) (fresh built.rx))
