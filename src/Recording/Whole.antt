-- ===== src/Recording/Whole.antt =====
-- How src/dsc_rx_from_file.cpp reads a file does not matter, as long as each read ends with a pair.
use ubersdr_dsc.Base.{
  ℕ, ◌≡◌, ◌+◌, refl, ap, sym, ◌∙◌, Bool, true, false, if-true, if-false, Bool-cases, inl, inr,
  Option, none, some, List, [], ◌∷◌, ◌++◌, map, get_elem?, if◌then◌else◌, All,
}
use mathlib.Core.List.{append_assoc}
use ubersdr_dsc.Base.Int.{ℤ}
use ubersdr_dsc.Base.Text.{Text, is_empty}
use ubersdr_dsc.Base.Result.{Result, ok, out_of_bounds, out_of_range, overflow, in_bounds, ◌>>=◌}
use ubersdr_dsc.Output.Json.{concat}
use ubersdr_dsc.Rx.{Rx, Event, receive_bit}
use ubersdr_dsc.Rx.Config.{RateConfig}
use ubersdr_dsc.Demod.{
  Signals, Demod, tune, tuned, take_bit, clocked, is_middle, process_one_sample, process_pairs,
  process,
}
use ubersdr_dsc.Demod.Ready.{AllKept, receive_bit-AllKept}
use ubersdr_dsc.Recording.{chunk, int16, pairs_of, read_loop}

-- Bytes of whole pairs of samples.
abbrev pub IsWhole : Text → Type 0
IsWhole [] = Unit
IsWhole (a ∷ b ∷ c ∷ d ∷ bytes) = IsWhole bytes
IsWhole _ = ⊥

pairs_of-append : (s t : Text) → IsWhole s → pairs_of (s ++ t) ≡ pairs_of s ++ pairs_of t
unfolding pairs_of
pairs_of-append [] t h = refl
pairs_of-append (a ∷ b ∷ c ∷ d ∷ s) t h = ap ((int16 a b, int16 c d) ∷◌) (pairs_of-append s t h)
pairs_of-append (a ∷ []) t h = absurd h
pairs_of-append (a ∷ b ∷ []) t h = absurd h
pairs_of-append (a ∷ b ∷ c ∷ []) t h = absurd h

module _ {R C : Type 0} (signals : Signals R C) (time_to_iso8601 : ℕ → Text) (now : ℕ) where
  abbrev Run : Type 0
  Run = Result (Demod R C × List (Event R))

  -- A run that ends with a receiver for the same rate.
  abbrev SameRate : Demod R C → Run → Type 0
  SameRate d (ok (x, es)) = x.rx.rate ≡ d.rx.rate
  SameRate d _ = Unit

  abbrev run : Demod R C → List (ℤ × ℤ) → Run
  run d pairs = process_pairs signals time_to_iso8601 now d pairs

  -- One run, and another after it.
  abbrev then_run : Run → (Demod R C → Run) → Run
  then_run m next = m >>= λ first. next first.0 >>= λ others. ok (others.0, first.1 ++ others.1)

  abbrev after_events : List (Event R) → Run → Run
  after_events es m = m >>= λ others. ok (others.0, es ++ others.1)

  no_events : (m : Run) → after_events [] m ≡ m
  no_events (ok x) = refl
  no_events out_of_bounds = refl
  no_events out_of_range = refl
  no_events overflow = refl

  events-append :
      (es fs : List (Event R)) (m : Run)
      → after_events (es ++ fs) m ≡ after_events es (after_events fs m)
  events-append es fs (ok (x, gs)) = ap (λ (l : List (Event R)). ok (x, l)) (append_assoc es fs gs)
  events-append es fs out_of_bounds = refl
  events-append es fs out_of_range = refl
  events-append es fs overflow = refl

  events-then_run :
      (es : List (Event R)) (m : Run) (next : Demod R C → Run)
      → then_run (after_events es m) next ≡ after_events es (then_run m next)
  events-then_run es (ok (x, fs)) next = events-append es fs (next x)
  events-then_run es out_of_bounds next = refl
  events-then_run es out_of_range next = refl
  events-then_run es overflow next = refl

  taken-SameRate :
      (d t : Demod R C)
      → t.rx.rate ≡ d.rx.rate
      → (r : Result (Rx R × List (Event R))) → AllKept t.rx r
      → SameRate d (r >>= λ step. ok (clocked signals time_to_iso8601 now t step.0, step.1))
  taken-SameRate d t e (ok (x, es)) kept = kept.0 ∙ e
  taken-SameRate d t e out_of_bounds kept = tt
  taken-SameRate d t e out_of_range kept = tt
  taken-SameRate d t e overflow kept = tt

  SameRate-if :
      (d : Demod R C) (b : Bool) (x y : Run)
      → SameRate d x
      → SameRate d y
      → SameRate d (if b then x else y)
  SameRate-if d true x y h k = h
  SameRate-if d false x y h k = k

  take_bit-SameRate :
      (d t : Demod R C)
      → t.rx.rate ≡ d.rx.rate
      → SameRate d (take_bit signals time_to_iso8601 now t)
  unfolding take_bit
  take_bit-SameRate d t e =
      SameRate-if d (is_middle signals time_to_iso8601 now t) _ _
        (taken-SameRate d t e (receive_bit signals.reals time_to_iso8601 now t.rx t.rx.data_bit)
          (receive_bit-AllKept signals.reals time_to_iso8601 now t.rx t.rx.data_bit))
        e

  tuned_rate :
      (d : Demod R C) (c e : C) → (tuned signals time_to_iso8601 now d c e).rx.rate ≡ d.rx.rate
  unfolding tuned
  tuned_rate d c e = refl

  process_one_sample-SameRate :
      (d : Demod R C) (c : C) → SameRate d (process_one_sample signals time_to_iso8601 now d c)
  unfolding process_one_sample tune
  process_one_sample-SameRate d c = either (get_elem? d.exp d.rx.exp_idx)
    where
      either :
          (o : Option C)
          → SameRate d (
              (in_bounds o >>= λ e. ok (tuned signals time_to_iso8601 now d c e))
              >>= take_bit signals time_to_iso8601 now)
      either none = tt
      either (some e) =
          take_bit-SameRate d (tuned signals time_to_iso8601 now d c e) (tuned_rate d c e)

  -- The pairs after a sample.
  step_then :
      (d : Demod R C) (r : Run) (next last : Demod R C → Run) (whole : Demod R C → Run)
      → SameRate d r
      → ((x : Demod R C) → x.rx.rate ≡ d.rx.rate → whole x ≡ then_run (next x) last)
      → then_run r whole ≡ then_run (then_run r next) last
  step_then d (ok (x, es)) next last whole same h =
      ap (after_events es) (h x same) ∙ sym (events-then_run es (next x) last)
  step_then d out_of_bounds next last whole same h = refl
  step_then d out_of_range next last whole same h = refl
  step_then d overflow next last whole same h = refl

  abbrev given : Demod R C → List (ℤ × ℤ) → Run
  given d pairs = process signals time_to_iso8601 now d pairs

  given_supported :
      (d : Demod R C) (pairs : List (ℤ × ℤ))
      → d.rx.rate.supported ≡ true
      → given d pairs ≡ run d pairs
  unfolding process
  given_supported d pairs h = if-true _ _ d.rx.rate.supported h

  given_refused :
      (d : Demod R C) (pairs : List (ℤ × ℤ))
      → d.rx.rate.supported ≡ false
      → given d pairs ≡ ok (d, [])
  unfolding process
  given_refused d pairs h = if-false _ _ d.rx.rate.supported h

  run-append :
      (ps qs : List (ℤ × ℤ)) (d : Demod R C)
      → d.rx.rate.supported ≡ true
      → run d (ps ++ qs) ≡ then_run (run d ps) (λ x. given x qs)
  unfolding process_pairs
  run-append [] qs d h = sym (given_supported d qs h) ∙ sym (no_events (given d qs))
  run-append ((i, q) ∷ ps) qs d h =
      step_then d (process_one_sample signals time_to_iso8601 now d (signals.from_pair i q))
        (λ x. run (counted x) ps) (λ x. given x qs) (λ x. run (counted x) (ps ++ qs))
        (process_one_sample-SameRate d (signals.from_pair i q))
        (λ x e. run-append ps qs (counted x) (ap (λ (r : RateConfig). r.supported) e ∙ h))
    where
      counted : Demod R C → Demod R C
      counted x = record x { dbg_sample_count = x.dbg_sample_count + 1 }

  -- Pairs in two parts.
  given-append :
      (d : Demod R C) (ps qs : List (ℤ × ℤ))
      → given d (ps ++ qs) ≡ then_run (given d ps) (λ x. given x qs)
  given-append d ps qs = elim (Bool-cases (d.rx.rate.supported)) [
    | inl h ↦
        given_supported d (ps ++ qs) h
        ∙ run-append ps qs d h
        ∙ ap (λ (r : Run). then_run r (λ x. given x qs)) (sym (given_supported d ps h))
    | inr h ↦
        given_refused d (ps ++ qs) h
        ∙ sym (given_refused d qs h)
        ∙ sym (no_events (given d qs))
        ∙ ap (λ (r : Run). then_run r (λ x. given x qs)) (sym (given_refused d ps h))
  ]

  -- A run over the whole file.
  abbrev Session : Type 0
  Session = Result (Demod R C × List (Event R) × Bool)

  abbrev ended : Run → Session
  ended m = m >>= λ r. ok (r.0, r.1, true)

  later_reads :
      (r : Run) (next : Demod R C → Session) (later : Demod R C → Run)
      → ((x : Demod R C) → next x ≡ ended (later x))
      → (r >>= λ first. next first.0 >>= λ others. ok (others.0, first.1 ++ others.1, others.2))
        ≡ ended (then_run r later)
  later_reads (ok (x, es)) next later h =
      ap (λ (m : Session). m >>= λ others. ok (others.0, es ++ others.1, others.2)) (h x)
      ∙ swap (later x)
    where
      swap :
          (m : Run)
          → (ended m >>= λ others. ok (others.0, es ++ others.1, others.2))
            ≡ ended (after_events es m)
      swap (ok y) = refl
      swap out_of_bounds = refl
      swap out_of_range = refl
      swap overflow = refl
  later_reads out_of_bounds next later h = refl
  later_reads out_of_range next later h = refl
  later_reads overflow next later h = refl

  both_branches : (b : Bool) (x : Run) → (if b then x else x) ≡ x
  both_branches true x = refl
  both_branches false x = refl

  nothing_given : (d : Demod R C) → given d (pairs_of []) ≡ ok (d, [])
  unfolding process process_pairs pairs_of
  nothing_given d = both_branches d.rx.rate.supported (ok (d, []))

  -- Where each read gives some bytes that are whole pairs of samples, the program does what `process`
  -- does with the pairs of all the bytes at once: the same calls of the callback, and the same errors;
  -- and it ends at the end of the file.
  pub read_loop-whole :
      (cs : List Text) (d : Demod R C)
      → All (λ c. (is_empty c ≡ false) × IsWhole c) cs
      → read_loop signals time_to_iso8601 now d (map chunk cs) ≡ (
          process signals time_to_iso8601 now d (pairs_of (concat cs)) >>= λ r. ok (r.0, r.1, true))
  unfolding read_loop
  read_loop-whole [] d h = ap ended (sym (nothing_given d))
  read_loop-whole ([] ∷ cs) d h = cc
  read_loop-whole ((b ∷ bytes) ∷ cs) d h =
      later_reads (given d (pairs_of (b ∷ bytes)))
        (λ x. read_loop signals time_to_iso8601 now x (map chunk cs))
        (λ x. given x (pairs_of (concat cs))) (λ x. read_loop-whole cs x h.1)
      ∙ ap ended (
          sym (given-append d (pairs_of (b ∷ bytes)) (pairs_of (concat cs)))
          ∙ ap (given d) (sym (pairs_of-append (b ∷ bytes) (concat cs) h.0.1)))
