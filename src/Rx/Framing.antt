-- ===== src/Rx/Framing.antt =====
-- How `receiveBit` of src/dsc_rx.cpp cuts the received bits into symbols.
use ubersdr_dsc.Base.{
  ℕ, ◌+◌, ◌/◌, ◌%◌, ◌^◌, ◌<◌, ◌==◌, ◌≡◌, refl, ap, ◌∙◌, arith, Bool, true, false, List, [], ◌∷◌,
  ◌++◌, length, if◌then◌else◌, Option, none, some, bit_and, Bool-cases, inl, inr, subst, take, map,
  All,
}
use ubersdr_dsc.Base.Text.{Text}
use ubersdr_dsc.Base.Result.{Result, ok, out_of_bounds, out_of_range, overflow, in_bounds, ◌>>=◌}
use ubersdr_dsc.Base.Bits.{bit_and_mask}
use ubersdr_dsc.Decoder.{
  Decoder, decode_bits, decode_symbol, decode_all, Run, fault, unfinished, complete, resume,
}
use ubersdr_dsc.Decoder.Symbol.{bits_to_symbol}
use ubersdr_dsc.Rx.{init, Reals, Rx, Event, receive_bit, receive_bits, deliver, collect, shift_in}
use ubersdr_dsc.Rx.Words.{bits_of, shift_all, shift_all-bits_of}
use native.Mathlib.Nat.{mod-eq_of_lt}

-- A receiver that has found the phasing, between two symbols.
abbrev pub aligned : {R : Type 0} → Rx R → Decoder → ℕ → Rx R
aligned rx d bits = record rx { dsc_decoder = d; bits = bits; bit_count = 0; got_sop = true }

-- A receiver that looks for the phasing and has no bits yet.
abbrev pub fresh : {R : Type 0} → Rx R → Rx R
fresh rx = record rx { bit_count = 0; got_sop = false }

-- The codewords of ten bits, one after another.
abbrev pub frames : List ℕ → List Bool
frames [] = []
frames (w ∷ ws) = bits_of 10 w ++ frames ws

-- A message is completed by the last symbol, or not at all.
abbrev pub OnTime : Run → Type 0
OnTime fault = Unit
OnTime (unfinished e) = Unit
OnTime (complete e left) = left ≡ 0

append_nil {ℓ} : {A : Type ℓ} (xs : List A) → xs ++ [] ≡ xs
append_nil [] = refl
append_nil (x ∷ xs) = ap (λ t. x ∷ t) (append_nil xs)

low_ten : (v w : ℕ) → w < 1024 → bit_and (shift_all v (bits_of 10 w)) 0x3FF ≡ w
low_ten v w h =
    bit_and_mask 10 (shift_all v (bits_of 10 w))
    ∙ shift_all-bits_of 10 v w (omega arith)
    ∙ mod-eq_of_lt h

pub low_thirty : (v w : ℕ) → w < 2 ^ 30 → bit_and (shift_all v (bits_of 30 w)) 0x3FFFFFFF ≡ w
low_thirty v w h =
    bit_and_mask 30 (shift_all v (bits_of 30 w))
    ∙ shift_all-bits_of 30 v w (omega arith)
    ∙ mod-eq_of_lt h

module _ {R : Type 0} (reals : Reals R) (time_to_iso8601 : ℕ → Text) (now : ℕ) where
  abbrev Received : Type 0
  Received = Result (Rx R × List (Event R))

  pub no_events : (m : Received) → (m >>= λ others. ok (others.0, [] ++ others.1)) ≡ m
  no_events (ok f) = refl
  no_events out_of_bounds = refl
  no_events out_of_range = refl
  no_events overflow = refl

  -- A bit that ends no symbol, and before the phasing one that fills no thirty, is only counted.
  quiet_bit :
      (rx : Rx R) (b : Bool)
      → rx.bit_count + 1 < (if rx.got_sop then 10 else 30)
      → receive_bit reals time_to_iso8601 now rx b
        ≡ ok (record rx { bits = shift_in rx.bits b; bit_count = rx.bit_count + 1 }, [])
  unfolding receive_bit
  quiet_bit rx b h = elim (Bool-cases rx.got_sop) [
    | inl locked ↦
        rw
          (
            locked,
            not_yet 10 (subst (λ (s : Bool). rx.bit_count + 1 < (if s then 10 else 30)) locked h),
          )
          refl
    | inr looking ↦
        rw
          (
            looking,
            not_yet 30 (subst (λ (s : Bool). rx.bit_count + 1 < (if s then 10 else 30)) looking h),
          )
          refl
  ]
    where
      not_yet : (n : ℕ) → rx.bit_count + 1 < n → (rx.bit_count + 1 == n) ≡ false
      not_yet n h' = ground arith

  pub quiet :
      (bs : List Bool) (rx : Rx R) (rest : List Bool) (k : ℕ)
      → k ≡ rx.bit_count + length bs
      → k < (if rx.got_sop then 10 else 30)
      → receive_bits reals time_to_iso8601 now rx (bs ++ rest)
        ≡ receive_bits reals time_to_iso8601 now
            (record rx { bits = shift_all rx.bits bs; bit_count = k })
            rest
  unfolding receive_bits
  quiet [] rx rest k e h =
      ap (λ (n : ℕ). receive_bits reals time_to_iso8601 now (record rx { bit_count = n }) rest) same
    where
      same : rx.bit_count ≡ k
      same = omega arith
  quiet (b ∷ bs) rx rest k e h = rw (quiet_bit rx b (omega arith)) (
      no_events _
      ∙ quiet bs (record rx { bits = shift_in rx.bits b; bit_count = rx.bit_count + 1 }) rest k
          (omega arith) h)

  then_nothing : (m : Received) → (m >>= λ first. ok (first.0, first.1 ++ [])) ≡ m
  then_nothing (ok f) = ap (λ (es : List (Event R)). ok (f.0, es)) (append_nil f.1)
  then_nothing out_of_bounds = refl
  then_nothing out_of_range = refl
  then_nothing overflow = refl

  -- The ten bits of a word are one symbol for the decoder.
  word :
      (rx : Rx R) (d : Decoder) (v w : ℕ) (rest : List Bool)
      → w < 1024
      → receive_bits reals time_to_iso8601 now (aligned rx d v) (bits_of 10 w ++ rest) ≡ (
          collect reals time_to_iso8601 now
            (record (aligned rx d (shift_all v (bits_of 10 w))) { bit_count = 10 })
          >>= λ first. receive_bits reals time_to_iso8601 now first.0 rest >>= λ others.
              ok (others.0, first.1 ++ others.1))
  unfolding receive_bits receive_bit
  word rx d v w rest h =
      quiet (take 9 (bits_of 10 w)) (aligned rx d v) ((w / 2 ^ 0 % 2 == 1) ∷ rest) 9 refl
        (omega arith)

  -- What the receiver makes of a run of the decoder.
  abbrev pub conclusion : Rx R → ℕ → Run → Received
  conclusion rx v fault = out_of_bounds
  conclusion rx v (unfinished e) = ok (aligned rx e v, [])
  conclusion rx v (complete e left) =
      deliver reals time_to_iso8601 now (record rx { dsc_decoder = e })

  follow :
      (rx : Rx R) (d : Decoder) (u : ℕ) (ws : List ℕ) (o : Option (Decoder × Bool))
      → ((e : Decoder)
          → OnTime (decode_all e (map bits_to_symbol ws))
          → receive_bits reals time_to_iso8601 now (aligned rx e u) (frames ws)
            ≡ conclusion rx (shift_all u (frames ws)) (decode_all e (map bits_to_symbol ws)))
      → OnTime
          (resume (λ e. decode_all e (map bits_to_symbol ws)) (length (map bits_to_symbol ws)) o)
      → ((in_bounds o >>= λ step.
            if step.1
            then deliver reals time_to_iso8601 now (record rx { dsc_decoder = step.0 })
            else ok (aligned rx step.0 u, []))
          >>= λ first. receive_bits reals time_to_iso8601 now first.0 (frames ws) >>= λ others.
              ok (others.0, first.1 ++ others.1))
        ≡ conclusion rx
            (shift_all u (frames ws))
            (resume (λ e. decode_all e (map bits_to_symbol ws)) (length (map bits_to_symbol ws)) o)
  unfolding receive_bits
  follow rx d u ws none ih t = refl
  follow rx d u [] (some (e, true)) ih t = then_nothing _
  follow rx d u (w ∷ ws) (some (e, true)) ih t = absurd (omega arith)
  follow rx d u ws (some (e, false)) ih t = no_events _ ∙ ih e t

  -- Once the phasing is found, the receiver is the decoder: for the bits of words of ten bits, on
  -- which the decoder completes no message before the last, it does what the decoder does with
  -- the symbols they are read as, and delivers the message that is completed with the last.
  pub receive_bits-frames :
      (ws : List ℕ) (rx : Rx R) (d : Decoder) (v : ℕ)
      → All (λ w. w < 1024) ws
      → OnTime (decode_all d (map bits_to_symbol ws))
      → receive_bits reals time_to_iso8601 now (aligned rx d v) (frames ws)
        ≡ conclusion rx (shift_all v (frames ws)) (decode_all d (map bits_to_symbol ws))
  unfolding receive_bits decode_all decode_bits init
  receive_bits-frames [] rx d v h t = refl
  receive_bits-frames (w ∷ ws) rx d v h t =
      word rx d v w (frames ws) h.0
      ∙ (rw (low_ten v w h.0) (
          follow rx d (shift_all v (bits_of 10 w)) ws (decode_symbol d (bits_to_symbol w))
            (λ e. receive_bits-frames ws rx e (shift_all v (bits_of 10 w)) h.1) t))
