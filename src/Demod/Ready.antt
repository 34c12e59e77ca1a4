-- ===== src/Demod/Ready.antt =====
-- The table of the exponential in src/dsc_rx.cpp: `processOneSample` never reads outside it.
use ubersdr_dsc.Base.{
  ℕ, zero, suc, ◌+◌, ◌%◌, ◌^◌, ◌≤◌, ◌<◌, ◌==◌, ◌≡◌, refl, ap, sym, ◌∙◌, subst, arith, Bool, true,
  false, Bool-cases, inl, inr, if-true, if-false, if◌then◌else◌, Option, none, some, List, [], ◌∷◌,
  length, get_elem?, bit_and,
}
use ubersdr_dsc.Base.Int.{pos}
use ubersdr_dsc.Base.Text.{Text}
use ubersdr_dsc.Base.Result.{
  Result, ok, out_of_bounds, out_of_range, overflow, in_bounds, ◌>>=◌, >>=-eq-ok,
}
use ubersdr_dsc.Decoder.{Decoder, decode_bits}
use ubersdr_dsc.Decoder.Phasing.{phasing_patterns}
use ubersdr_dsc.Message.Decode.{dsc_message}
use ubersdr_dsc.Rx.{
  Reals, Rx, Event, receive_bit, search_patterns, shift_in, init, deliver, collect,
}
use ubersdr_dsc.Rx.Config.{RateConfig, rate_config_for, rate_config_for-IsTuned}
use ubersdr_dsc.Demod.{
  Signals, Demod, tune, tuned, take_bit, exp_table, new_demod, clocked, is_middle,
}
use ubersdr_dsc.Demod.Framing.{framing}

pub record IsReady {R C : Type 0} (d : Demod R C) : Type 0 where
  pub table : length d.exp ≡ d.rx.rate.exp_length
  pub within : d.rx.exp_idx < d.rx.rate.exp_length

pub elem_within {ℓ} :
    {A : Type ℓ} (xs : List A) (i : ℕ) → i < length xs → (x : A) × (get_elem? xs i ≡ some x)
elem_within [] i h = absurd (omega arith)
elem_within (x ∷ xs) zero h = (x, refl)
elem_within (x ∷ xs) (suc i) h = elem_within xs i (omega arith)

-- A step of the receiver that keeps its rate, and goes no further in the table.
abbrev pub Keeps : {R : Type 0} → Rx R → Rx R → Type 0
Keeps rx x = (x.rate ≡ rx.rate) × (x.exp_idx ≤ rx.exp_idx)

abbrev pub AllKept : {R : Type 0} → Rx R → Result (Rx R × List (Event R)) → Type 0
AllKept rx (ok (x, es)) = Keeps rx x
AllKept rx out_of_bounds = Unit
AllKept rx out_of_range = Unit
AllKept rx overflow = Unit

kept-bind :
    {R A : Type 0} (rx : Rx R) (m : Result A) (f : A → Result (Rx R × List (Event R)))
    → ((a : A) → AllKept rx (f a))
    → AllKept rx (m >>= f)
kept-bind rx (ok a) f h = h a
kept-bind rx out_of_bounds f h = tt
kept-bind rx out_of_range f h = tt
kept-bind rx overflow f h = tt

kept-if :
    {R : Type 0} (rx : Rx R) (b : Bool) (x y : Result (Rx R × List (Event R)))
    → AllKept rx x
    → AllKept rx y
    → AllKept rx (if b then x else y)
kept-if rx true x y h k = h
kept-if rx false x y h k = k

Keeps-if :
    {R : Type 0} (rx : Rx R) (b : Bool) (x y : Rx R)
    → Keeps rx x
    → Keeps rx y
    → Keeps rx (if b then x else y)
Keeps-if rx true x y h k = h
Keeps-if rx false x y h k = k

Keeps-elim :
    {R : Type 0} (rx : Rx R) (o : Option ℕ) (x : Rx R) (f : ℕ → Rx R)
    → Keeps rx x
    → ((n : ℕ) → Keeps rx (f n))
    → Keeps rx (elim o as (λ p. Rx R) [ none ↦ x | some n ↦ f n ])
Keeps-elim rx none x f h k = h
Keeps-elim rx (some n) x f h k = k n

module _ {R : Type 0} (reals : Reals R) (time_to_iso8601 : ℕ → Text) (now : ℕ) where
  deliver-AllKept : (rx : Rx R) → AllKept rx (deliver reals time_to_iso8601 now rx)
  unfolding init
  deliver-AllKept rx =
      kept-bind rx (dsc_message time_to_iso8601 rx.dsc_decoder.bytes now) _
        (λ m. (refl, omega arith))

  collect-AllKept : (rx : Rx R) → AllKept rx (collect reals time_to_iso8601 now rx)
  collect-AllKept rx =
      kept-if rx (rx.bit_count == 10) _ _
        (kept-bind rx (in_bounds (decode_bits rx.dsc_decoder (bit_and rx.bits 0x3FF))) _ (λ step.
          kept-if rx step.1 _ _ (deliver-AllKept (record rx { dsc_decoder = step.0 }))
            (refl, omega arith)))
        (refl, omega arith)

  pub receive_bit-AllKept :
      (rx : Rx R) (b : Bool) → AllKept rx (receive_bit reals time_to_iso8601 now rx b)
  unfolding receive_bit
  receive_bit-AllKept rx b =
      kept-if rx rx.got_sop _ _
        (collect-AllKept (record rx { bits = shift_in rx.bits b; bit_count = rx.bit_count + 1 }))
        (Keeps-if rx (rx.bit_count + 1 == 30) _ _
          (Keeps-elim rx
            (search_patterns (bit_and (shift_in rx.bits b) 0x3FFFFFFF) phasing_patterns) _ _
            (refl, omega arith) (λ n. (refl, omega arith)))
          (refl, omega arith))

mod-lt : (a n : ℕ) {k : ℕ} → k < n → a % n < n
mod-lt a n h = grind arith

ok_value : {A : Type 0} {a b : A} → ok a ≡ ok b → a ≡ b
ok_value e = cc

module _ {R C : Type 0} (signals : Signals R C) (time_to_iso8601 : ℕ → Text) (now : ℕ) where
  pub tuned-IsReady :
      (d : Demod R C) (c e : C)
      → IsReady d
      → IsReady (tuned signals time_to_iso8601 now d c e)
        × (framing (tuned signals time_to_iso8601 now d c e).rx ≡ framing d.rx)
  unfolding tuned
  tuned-IsReady d c e ready = (record { table = ready.table; within = below }, refl)
    where
      below : (d.rx.exp_idx + 1) % d.rx.rate.exp_length < d.rx.rate.exp_length
      below = mod-lt (d.rx.exp_idx + 1) d.rx.rate.exp_length ready.within

  -- `tune` gives a result, which is ready again, and leaves what the framing reads.
  pub tune-IsReady :
      (d : Demod R C) (c : C)
      → IsReady d
      → (t : Demod R C) × (tune signals time_to_iso8601 now d c ≡ ok t)
        × IsReady t
        × (framing t.rx ≡ framing d.rx)
  unfolding tune
  tune-IsReady d c ready =
      let found =
        elem_within d.exp d.rx.exp_idx
          (subst (λ (n : ℕ). d.rx.exp_idx < n) (sym ready.table) ready.within) in
      let same = tuned-IsReady d c found.0 ready in
      (
        tuned signals time_to_iso8601 now d c found.0,
        ap (λ (o : Option C). in_bounds o >>= λ e. ok (tuned signals time_to_iso8601 now d c e))
            found.1,
        same.0,
        same.1,
      )

  pub take_bit-IsReady :
      (t x : Demod R C) (es : List (Event R))
      → IsReady t
      → take_bit signals time_to_iso8601 now t ≡ ok (x, es)
      → IsReady x
  unfolding take_bit
  take_bit-IsReady t x es ready e = elim (Bool-cases (is_middle signals time_to_iso8601 now t)) [
    | inl middle ↦
        let step =
          >>=-eq-ok (receive_bit signals.reals time_to_iso8601 now t.rx t.rx.data_bit) _
            (sym (if-true _ _ (is_middle signals time_to_iso8601 now t) middle) ∙ e) in
        let kept : Keeps t.rx step.0.0 =
          subst (AllKept t.rx) step.1
            (receive_bit-AllKept signals.reals time_to_iso8601 now t.rx t.rx.data_bit) in
        subst IsReady (ap pair_first (ok_value step.2)) (moved step.0.0 kept)
    | inr early ↦
        subst IsReady
          (ap pair_first
            (ok_value (sym (if-false _ _ (is_middle signals time_to_iso8601 now t) early) ∙ e)))
          ready
  ]
    where
      pair_first : Demod R C × List (Event R) → Demod R C
      pair_first p = p.0

      moved : (rx : Rx R) → Keeps t.rx rx → IsReady (clocked signals time_to_iso8601 now t rx)
      moved rx kept = record {
        table = ready.table ∙ ap (λ (r : RateConfig). r.exp_length) (sym kept.0);
        within =
            subst (λ (r : RateConfig). rx.exp_idx < r.exp_length) (sym kept.0)
              (omega (arith, ready.within, kept.1));
      }

  length-exp_table :
      (rate : RateConfig) (n : ℕ) (f0 : R)
      → length (exp_table signals time_to_iso8601 now rate n f0) ≡ n
  unfolding exp_table
  length-exp_table rate zero f0 = refl
  length-exp_table rate (suc n) f0 = ap suc (length-exp_table rate n (signals.advanced rate f0))

  -- A receiver that is built for a supported rate is ready.
  pub new_demod-IsReady :
      (decoder : Decoder) (taps : RateConfig → List R) (n : ℕ)
      → n < 2 ^ 31
      → (rate_config_for (pos n)).supported ≡ true
      → IsReady (new_demod signals time_to_iso8601 now decoder taps (pos n))
  unfolding new_demod init rate_config_for
  new_demod-IsReady decoder taps n h s = rw s (record {
    table =
        length-exp_table (rate_config_for (pos n)) (rate_config_for (pos n)).exp_length
          signals.phase_nought;
    within = (rate_config_for-IsTuned n h s).nonempty;
  })
