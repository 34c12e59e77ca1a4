-- ===== src/Demod/Framing.antt =====
-- What `receiveBit` of src/dsc_rx.cpp does whatever the floating-point numbers are: the part of its
-- state that decides, and the messages with their errors.
use ubersdr_dsc.Base.{
  ℕ, ◌+◌, ◌-◌, ◌==◌, ◌≡◌, refl, ap, ◌∙◌, Bool, true, false, if◌then◌else◌, Option, none, some, List,
  [], ◌∷◌, ◌++◌, bit_and,
}
use ubersdr_dsc.Base.Text.{Text}
use ubersdr_dsc.Base.Result.{Result, ok, out_of_bounds, out_of_range, overflow, in_bounds, ◌>>=◌}
use ubersdr_dsc.Decoder as Decoder
use ubersdr_dsc.Decoder.{Decoder, decode_bits}
use ubersdr_dsc.Decoder.Phasing.{phasing_patterns}
use ubersdr_dsc.Message.{Message}
use ubersdr_dsc.Message.Decode.{dsc_message}
use ubersdr_dsc.Rx.{
  Reals, Rx, Event, receive_bit, receive_bits, search_patterns, shift_in, init, deliver, collect,
  hunt,
}

pub record Framing : Type 0 where
  pub dsc_decoder : Decoder
  pub bits : ℕ
  pub bit_count : ℕ
  pub got_sop : Bool

abbrev pub Heard : Type 0
Heard = Framing × List (Message × ℕ)

abbrev pub framing : {R : Type 0} → Rx R → Framing
framing rx = record {
  dsc_decoder = rx.dsc_decoder;
  bits = rx.bits;
  bit_count = rx.bit_count;
  got_sop = rx.got_sop;
}

abbrev pub calls : {R : Type 0} → List (Event R) → List (Message × ℕ)
calls [] = []
calls (e ∷ es) = (e.message, e.errors) ∷ calls es

-- A run with events, as its framing and its calls.
abbrev pub seen_by : {R S : Type 0} → (S → Framing) → Result (S × List (Event R)) → Result Heard
seen_by view (ok (s, es)) = ok (view s, calls es)
seen_by view out_of_bounds = out_of_bounds
seen_by view out_of_range = out_of_range
seen_by view overflow = overflow

abbrev pub seen : {R : Type 0} → Result (Rx R × List (Event R)) → Result Heard
seen run = seen_by framing run

calls-append : {R : Type 0} (es fs : List (Event R)) → calls (es ++ fs) ≡ calls es ++ calls fs
calls-append [] fs = refl
calls-append (e ∷ es) fs = ap (λ l. (e.message, e.errors) ∷ l) (calls-append es fs)

module _ {R S : Type 0} (view : S → Framing) where
  pub seen-others :
      (m : Result (S × List (Event R))) (es : List (Event R))
      → seen_by view (m >>= λ others. ok (others.0, es ++ others.1))
        ≡ (seen_by view m >>= λ others. ok (others.0, calls es ++ others.1))
  seen-others (ok (s, fs)) es = ap (λ (c : List (Message × ℕ)). ok (view s, c)) (calls-append es fs)
  seen-others out_of_bounds es = refl
  seen-others out_of_range es = refl
  seen-others overflow es = refl

  -- Two parts of a run, one seen after the other, where the second is seen as what follows the
  -- framing that the first leaves.
  pub seen-then :
      (m : Result (S × List (Event R))) (next : S → Result (S × List (Event R)))
      (follow : Framing → Result Heard)
      → ((s : S) → seen_by view (next s) ≡ follow (view s))
      → seen_by view (m >>= λ first. next first.0 >>= λ others. ok (others.0, first.1 ++ others.1))
        ≡ (seen_by view m >>= λ first.
            follow first.0 >>= λ others. ok (others.0, first.1 ++ others.1))
  seen-then (ok (s, es)) next follow h =
      seen-others (next s) es
      ∙ ap (λ (r : Result Heard). r >>= λ others. ok (others.0, calls es ++ others.1)) (h s)
  seen-then out_of_bounds next follow h = refl
  seen-then out_of_range next follow h = refl
  seen-then overflow next follow h = refl

-- `seen` goes through a chain, a test and a search.
seen-bind :
    {R A : Type 0} (m : Result A) (f : A → Result (Rx R × List (Event R))) (g : A → Result Heard)
    → ((a : A) → seen (f a) ≡ g a)
    → seen (m >>= f) ≡ (m >>= g)
seen-bind (ok a) f g h = h a
seen-bind out_of_bounds f g h = refl
seen-bind out_of_range f g h = refl
seen-bind overflow f g h = refl

seen-if :
    {R : Type 0} (b : Bool) (x y : Result (Rx R × List (Event R))) (v w : Result Heard)
    → seen x ≡ v
    → seen y ≡ w
    → seen (if b then x else y) ≡ (if b then v else w)
seen-if true x y v w h k = h
seen-if false x y v w h k = k

framing-if :
    {R : Type 0} (b : Bool) (x y : Rx R) (v w : Framing)
    → framing x ≡ v
    → framing y ≡ w
    → framing (if b then x else y) ≡ (if b then v else w)
framing-if true x y v w h k = h
framing-if false x y v w h k = k

framing-elim :
    {R : Type 0} (o : Option ℕ) (x : Rx R) (f : ℕ → Rx R) (v : Framing) (g : ℕ → Framing)
    → framing x ≡ v
    → ((n : ℕ) → framing (f n) ≡ g n)
    → framing (elim o as (λ p. Rx R) [ none ↦ x | some n ↦ f n ])
      ≡ (elim o as (λ p. Framing) [ none ↦ v | some n ↦ g n ])
framing-elim none x f v g h k = h
framing-elim (some n) x f v g h k = k n

module _ (time_to_iso8601 : ℕ → Text) (now : ℕ) where
  abbrev hunting : Framing → Framing
  hunting f =
      let slid = record f { bit_count = f.bit_count - 1 } in
      let found : Framing = elim (search_patterns (bit_and f.bits 0x3FFFFFFF) phasing_patterns) [
        | none ↦ slid
        | some offset ↦ record f {
          dsc_decoder = Decoder.init f.dsc_decoder offset;
          got_sop = true;
          bit_count = 0;
        }
      ] in
      if f.bit_count == 30 then found else f

  abbrev delivered : Framing → Result Heard
  delivered f = dsc_message time_to_iso8601 f.dsc_decoder.bytes now >>= λ m.
      ok (record f { bits = 0; bit_count = 0; got_sop = false }, (m, f.dsc_decoder.errors) ∷ [])

  abbrev after_symbol : Framing → Decoder × Bool → Result Heard
  after_symbol f step =
      let f' = record f { dsc_decoder = step.0 } in
      if step.1 then delivered f' else ok (record f' { bit_count = 0 }, [])

  abbrev collected : Framing → Result Heard
  collected f =
      let symbol : Result Heard =
        (in_bounds (decode_bits f.dsc_decoder (bit_and f.bits 0x3FF)) >>= after_symbol f) in
      if f.bit_count == 10 then symbol else ok (f, [])

  unfoldable pub receive_framing : Framing → Bool → Result Heard
  receive_framing f bit =
      let shifted = record f { bits = shift_in f.bits bit; bit_count = f.bit_count + 1 } in
      if f.got_sop then collected shifted else ok (hunting shifted, [])

  -- Bits one after another.
  unfoldable pub receive_framings : Framing → List Bool → Result Heard
  receive_framings f [] = ok (f, [])
  receive_framings f (b ∷ rest) = receive_framing f b >>= λ first.
      receive_framings first.0 rest >>= λ others. ok (others.0, first.1 ++ others.1)

  module _ {R : Type 0} (reals : Reals R) where
    seen-deliver :
        (rx : Rx R) → seen (deliver reals time_to_iso8601 now rx) ≡ delivered (framing rx)
    unfolding init
    seen-deliver rx =
        seen-bind (dsc_message time_to_iso8601 rx.dsc_decoder.bytes now) _ _ (λ m. refl)

    seen-collect :
        (rx : Rx R) → seen (collect reals time_to_iso8601 now rx) ≡ collected (framing rx)
    seen-collect rx =
        seen-if (rx.bit_count == 10) _ _ _ _
          (seen-bind (in_bounds (decode_bits rx.dsc_decoder (bit_and rx.bits 0x3FF))) _
            (after_symbol (framing rx))
            (λ step.
              seen-if step.1 _ _ _ _ (seen-deliver (record rx { dsc_decoder = step.0 })) refl))
          refl

    framing-hunt : (rx : Rx R) → framing (hunt reals time_to_iso8601 now rx) ≡ hunting (framing rx)
    framing-hunt rx =
        framing-if (rx.bit_count == 30) _ _ _ _
          (framing-elim (search_patterns (bit_and rx.bits 0x3FFFFFFF) phasing_patterns) _ _ _ _ refl
            (λ n. refl))
          refl

    pub seen-receive_bit :
        (rx : Rx R) (b : Bool)
        → seen (receive_bit reals time_to_iso8601 now rx b) ≡ receive_framing (framing rx) b
    unfolding receive_bit receive_framing
    seen-receive_bit rx b =
        seen-if rx.got_sop _ _ _ _
          (seen-collect (record rx { bits = shift_in rx.bits b; bit_count = rx.bit_count + 1 }))
          (ap (λ (f : Framing). ok (f, []))
            (framing-hunt (record rx { bits = shift_in rx.bits b; bit_count = rx.bit_count + 1 })))

    -- The messages of a run of `receiveBit` and their errors do not depend on floating-point numbers.
    pub seen-receive_bits :
        (bs : List Bool) (rx : Rx R)
        → seen (receive_bits reals time_to_iso8601 now rx bs) ≡ receive_framings (framing rx) bs
    unfolding receive_bits receive_framings
    seen-receive_bits [] rx = refl
    seen-receive_bits (b ∷ bs) rx =
        seen-then framing (receive_bit reals time_to_iso8601 now rx b)
          (λ x. receive_bits reals time_to_iso8601 now x bs) (λ f. receive_framings f bs)
          (λ x. seen-receive_bits bs x)
        ∙ ap
            (λ (r : Result Heard). r >>= λ first.
              receive_framings first.0 bs >>= λ others. ok (others.0, first.1 ++ others.1))
            (seen-receive_bit rx b)
