-- ===== src/Rx/Delivery.antt =====
-- From the bits of a burst to the callback: `receiveBit` of src/dsc_rx.cpp as a whole.
use ubersdr_dsc.Base.{
  ℕ, zero, suc, ◌+◌, ◌-◌, ◌/◌, ◌%◌, ◌^◌, ◌<◌, ◌==◌, ◌≡◌, refl, sym, ap, ◌∙◌, arith, Bool, true,
  false, ◌&&◌, List, [], ◌∷◌, ◌++◌, length, none, some, map, All, take, ltb, subst, ◌⊎◌, inl, inr,
}
use ubersdr_dsc.Base.Text.{Text}
use ubersdr_dsc.Base.Check.{all_below, all_below_sound}
use ubersdr_dsc.Base.Result.{Result, ok, out_of_bounds}
use ubersdr_dsc.Decoder.Symbol.{bits_to_symbol, symbol_to_bits}
use ubersdr_dsc.Decoder.{Decoder, decode_all, Run, fault, unfinished, complete, done}
use ubersdr_dsc.Decoder as Decoder
use ubersdr_dsc.Decoder.Phasing.{phasing_patterns, window}
use ubersdr_dsc.Decoder.Clean.{phasing_tail, phased, decode_all-phasing}
use ubersdr_dsc.Decoder.Spec.{
  tabulate, total, burst, corrected, disagreements, fill_errors, EndsAfter, Reports,
}
use ubersdr_dsc.Decoder.Refinement.{decode_all-burst}
use ubersdr_dsc.Tables.Values.{distress_alert}
use ubersdr_dsc.Message.{Message}
use ubersdr_dsc.Message.Decode.{dsc_message}
use ubersdr_dsc.Message.Short.{IsShort, dsc_message-IsShort}
use ubersdr_dsc.Rx.{init, Reals, Rx, Event, receive_bit, receive_bits, deliver, search_patterns}
use ubersdr_dsc.Rx.Words.{bits_of, shift_all}
use ubersdr_dsc.Rx.Framing.{
  aligned, fresh, frames, low_thirty, conclusion, OnTime, receive_bits-frames, quiet, no_events,
}

found_at : ℕ → Bool
found_at i = elim (search_patterns (window i) phasing_patterns) [
  | none ↦ false
  | some offset ↦ offset == 9 - i && ltb (window i) (2 ^ 30)
]

found_table : all_below 10 found_at ≡ true
unfolding all_below found_at search_patterns symbol_to_bits
found_table = refl

found :
    (i : ℕ)
    → i < 10
    → (search_patterns (window i) phasing_patterns ≡ some (9 - i)) × (window i < 2 ^ 30)
unfolding found_at
found i h = ground (arith, all_below_sound 10 found_at i found_table h)

-- Thirty bits of the phasing sequence, from its place `i` on, and then the bits of the words `ws`.
abbrev pub signal : ℕ → List ℕ → List Bool
signal i ws = bits_of 30 (window i) ++ frames ws

-- The words are read as the rest of the phasing sequence and a burst, whose corrected symbol `n`
-- is the first to end a call.
abbrev pub IsBurst : ℕ → List ℕ → (ℕ → ℕ) → (ℕ → ℕ) → ℕ → ℕ → ℕ → Type 0
IsBurst i ws first second f g n =
    (i < 10)
    × All (λ w. w < 1024) ws
    × (map bits_to_symbol ws ≡ phasing_tail (9 - i) ++ burst first second f g (suc n))
    × (n < 40)
    × EndsAfter (corrected first second) 0 n

-- A call whose last symbol `n` is one of the first five, or one of the first eleven of a distress
-- alert.
abbrev pub EndsEarly : (ℕ → ℕ) → ℕ → Type 0
EndsEarly s n = (n < 5) ⊎ ((s 0 ≡ distress_alert) × (n < 11))

length-tabulate : (s : ℕ → ℕ) (k n : ℕ) → length (tabulate s k n) ≡ n
length-tabulate s k zero = refl
length-tabulate s k (suc n) = ap suc (length-tabulate s (suc k) n)

early-IsShort : (s : ℕ → ℕ) (n : ℕ) → EndsEarly s n → IsShort (tabulate s 0 (suc (suc n)))
early-IsShort s n (inl h) = inl (omega (arith, length-tabulate s 0 (suc (suc n))))
early-IsShort s n (inr h) = inr (ap some h.0, omega (arith, length-tabulate s 0 (suc (suc n))))

-- One call of the callback, with a message and a count of errors, and the receiver hunts again.
abbrev pub Delivers : {R : Type 0} → Message → ℕ → Result (Rx R × List (Event R)) → Type 0
Delivers m errors (ok (rx, e ∷ [])) =
    (e.message ≡ m) × (e.errors ≡ errors) × (rx.got_sop ≡ false) × (rx.bit_count ≡ 0)
Delivers m errors _ = ⊥

module _ {R : Type 0} (reals : Reals R) (time_to_iso8601 : ℕ → Text) (now : ℕ) where
  -- The receiver that has found the phasing.
  abbrev pub locked : Rx R → Rx R
  locked rx = record rx { rssi_mag_sq_sum = reals.nought; rssi_mag_sq_count = 0 }

  -- Three codewords of the phasing sequence, from any of its first ten places on, are found by a
  -- receiver that has no bits yet, and start the decoder with what is left of the sequence.
  pub receive_bits-window :
      (rx : Rx R) (i : ℕ) (rest : List Bool)
      → i < 10
      → receive_bits reals time_to_iso8601 now (fresh rx) (bits_of 30 (window i) ++ rest)
        ≡ receive_bits reals time_to_iso8601 now
            (aligned
              (locked rx)
              (Decoder.init rx.dsc_decoder (9 - i))
              (shift_all rx.bits (bits_of 30 (window i))))
            rest
  unfolding receive_bits receive_bit
  receive_bits-window rx i rest h =
      quiet reals time_to_iso8601 now (take 29 (bits_of 30 (window i))) (fresh rx)
        ((window i / 2 ^ 0 % 2 == 1) ∷ rest) 29 refl (omega arith)
      ∙ rw (low_thirty rx.bits (window i) (found i h).1, (found i h).0)
          (no_events reals time_to_iso8601 now _)

  deliver-Delivers :
      (rx : Rx R) (m : Message)
      → dsc_message time_to_iso8601 rx.dsc_decoder.bytes now ≡ ok m
      → Delivers m rx.dsc_decoder.errors (deliver reals time_to_iso8601 now rx)
  unfolding init
  deliver-Delivers rx m e = rw e (refl, refl, refl, refl)

  -- A run that reports is a delivery.
  reported :
      (rx : Rx R) (v : ℕ) (m : Message) (st : Decoder.State) (bytes : List ℕ) (errors : ℕ) (r : Run)
      → dsc_message time_to_iso8601 bytes now ≡ ok m
      → Reports st bytes errors r
      → Delivers m errors (conclusion reals time_to_iso8601 now rx v r)
  reported rx v m st bytes errors fault e h = absurd h
  reported rx v m st bytes errors (unfinished d) e h = absurd h
  reported rx v m st bytes errors (complete d left) e h =
      subst
        (λ (k : ℕ).
          Delivers m k (deliver reals time_to_iso8601 now (record rx { dsc_decoder = d })))
        h.3
        (deliver-Delivers (record rx { dsc_decoder = d }) m
          (ap (λ (b : List ℕ). dsc_message time_to_iso8601 b now) h.2 ∙ e))

  on_time :
      (st : Decoder.State) (bytes : List ℕ) (errors : ℕ) (r : Run)
      → Reports st bytes errors r
      → OnTime r
  on_time st bytes errors fault h = tt
  on_time st bytes errors (unfinished d) h = tt
  on_time st bytes errors (complete d left) h = h.0

  -- Of a short message, a byte past the last is read.
  deliver-short :
      (rx : Rx R)
      → IsShort rx.dsc_decoder.bytes
      → deliver reals time_to_iso8601 now rx ≡ out_of_bounds
  deliver-short rx h = rw (dsc_message-IsShort time_to_iso8601 rx.dsc_decoder.bytes now h) refl

  lost :
      (rx : Rx R) (v : ℕ) (st : Decoder.State) (bytes : List ℕ) (errors : ℕ) (run : Run)
      → IsShort bytes
      → Reports st bytes errors run
      → conclusion reals time_to_iso8601 now rx v run ≡ out_of_bounds
  lost rx v st bytes errors fault l h = absurd h
  lost rx v st bytes errors (unfinished d) l h = absurd h
  lost rx v st bytes errors (complete d left) l h =
      deliver-short (record rx { dsc_decoder = d }) (subst IsShort (sym h.2) l)

  module _ (rx : Rx R) (i : ℕ) (ws : List ℕ) (first second : ℕ → ℕ) (f g n : ℕ) where
    run :
        IsBurst i ws first second f g n
        → Reports done
            (tabulate (corrected first second) 0 (suc (suc n)))
            (fill_errors f g + total (disagreements first second) 0 (suc (suc n)))
            (decode_all (Decoder.init rx.dsc_decoder (9 - i)) (map bits_to_symbol ws))
    run h =
        rw
          (
            h.2,
            decode_all-phasing rx.dsc_decoder (9 - i) (burst first second f g (suc n))
                (omega arith),
          )
          (decode_all-burst first second (phased rx.dsc_decoder (9 - i)) f g n h.3 h.4)

    signal_lem :
        (h : IsBurst i ws first second f g n)
        → (v : ℕ) × (receive_bits reals time_to_iso8601 now (fresh rx) (signal i ws)
            ≡ conclusion reals time_to_iso8601 now
                (locked rx)
                v
                (decode_all (Decoder.init rx.dsc_decoder (9 - i)) (map bits_to_symbol ws)))
    signal_lem h = (
      _,
      receive_bits-window rx i (frames ws) h.0
          ∙ receive_bits-frames reals time_to_iso8601 now ws (locked rx)
              (Decoder.init rx.dsc_decoder (9 - i)) _ h.1 (on_time done _ _ _ (run h)),
    )

    -- The bits of a burst, after any three codewords of its phasing sequence that a receiver with no
    -- bits yet gets first, bring about one call of the callback, with the message that the corrected
    -- symbols are, if they can be read as one, and the errors that were counted; and the receiver
    -- looks for the next phasing sequence.
    pub receive_bits-burst :
        (m : Message)
        → IsBurst i ws first second f g n
        → dsc_message time_to_iso8601 (tabulate (corrected first second) 0 (suc (suc n))) now ≡ ok m
        → Delivers m
            (fill_errors f g + total (disagreements first second) 0 (suc (suc n)))
            (receive_bits reals time_to_iso8601 now (fresh rx) (signal i ws))
    receive_bits-burst m h dm =
        let (v, e) = signal_lem h in rw e (reported (locked rx) v m done _ _ _ dm (run h))

    -- A burst that ends at one of its first five symbols, or a distress alert that ends at one of its
    -- first eleven, makes the receiver read past the end of the message's bytes, whose size is not
    -- checked: it ends in that read, with no call of the callback.
    pub receive_bits-short_burst :
        IsBurst i ws first second f g n
        → EndsEarly (corrected first second) n
        → receive_bits reals time_to_iso8601 now (fresh rx) (signal i ws) ≡ out_of_bounds
    receive_bits-short_burst h early =
        let (v, e) = signal_lem h in
        e ∙ lost (locked rx) v done _ _ _ (early-IsShort (corrected first second) n early) (run h)
