-- ===== src/Demod/Bits.antt =====
-- From the samples of `dsc_rx::process` in src/dsc_rx.cpp to the calls of the callback, by way of the
-- bits that are sampled.
use ubersdr_dsc.Base.{
  ℕ, ◌+◌, ◌≡◌, refl, ap, sym, ◌∙◌, Bool, true, false, if◌then◌else◌, List, [], ◌∷◌, ◌++◌,
}
use mathlib.Core.Path.{fun_ext}
use mathlib.Core.List.{append-nil, append_assoc}
use ubersdr_dsc.Base.Int.{ℤ}
use ubersdr_dsc.Base.Text.{Text}
use ubersdr_dsc.Base.Result.{Result, ok, out_of_bounds, out_of_range, overflow, ◌>>=◌}
use ubersdr_dsc.Message.{Message}
use ubersdr_dsc.Rx.{Rx, Event, receive_bit}
use ubersdr_dsc.Demod.{
  Signals, Demod, tune, take_bit, process_one_sample, process_pairs, is_middle, clocked,
}
use ubersdr_dsc.Demod.Framing.{
  Framing, Heard, framing, calls, seen_by, seen, seen-others, seen-receive_bit, receive_framing,
  receive_framings,
}
use ubersdr_dsc.Demod.Ready.{IsReady, tune-IsReady, take_bit-IsReady}

-- Two parts of a run, one after the other.
abbrev and_then : Result Heard → (Framing → Result Heard) → Result Heard
and_then m next = m >>= λ first. next first.0 >>= λ others. ok (others.0, first.1 ++ others.1)

abbrev after_calls : List (Message × ℕ) → Result Heard → Result Heard
after_calls es m = m >>= λ others. ok (others.0, es ++ others.1)

after_calls-append :
    (es fs : List (Message × ℕ)) (m : Result Heard)
    → after_calls (es ++ fs) m ≡ after_calls es (after_calls fs m)
after_calls-append es fs (ok (h, gs)) =
    ap (λ (l : List (Message × ℕ)). ok (h, l)) (append_assoc es fs gs)
after_calls-append es fs out_of_bounds = refl
after_calls-append es fs out_of_range = refl
after_calls-append es fs overflow = refl

after_calls-and_then :
    (es : List (Message × ℕ)) (m : Result Heard) (last : Framing → Result Heard)
    → and_then (after_calls es m) last ≡ after_calls es (and_then m last)
after_calls-and_then es (ok (g, fs)) last = after_calls-append es fs (last g)
after_calls-and_then es out_of_bounds last = refl
after_calls-and_then es out_of_range last = refl
after_calls-and_then es overflow last = refl

and_then_assoc :
    (m : Result Heard) (next last : Framing → Result Heard)
    → and_then (and_then m next) last ≡ and_then m (λ f. and_then (next f) last)
and_then_assoc (ok (f, es)) next last = after_calls-and_then es (next f) last
and_then_assoc out_of_bounds next last = refl
and_then_assoc out_of_range next last = refl
and_then_assoc overflow next last = refl

no_calls : (m : Result Heard) → after_calls [] m ≡ m
no_calls (ok f) = refl
no_calls out_of_bounds = refl
no_calls out_of_range = refl
no_calls overflow = refl

-- Bits in two parts.
receive_framings-append :
    (time_to_iso8601 : ℕ → Text) (now : ℕ) (bs cs : List Bool) (f : Framing)
    → receive_framings time_to_iso8601 now f (bs ++ cs)
      ≡ and_then
          (receive_framings time_to_iso8601 now f bs)
          (λ g. receive_framings time_to_iso8601 now g cs)
unfolding receive_framings
receive_framings-append time_to_iso8601 now [] cs f =
    sym (no_calls (receive_framings time_to_iso8601 now f cs))
receive_framings-append time_to_iso8601 now (b ∷ bs) cs f =
    ap (and_then (receive_framing time_to_iso8601 now f b))
      (fun_ext (receive_framings-append time_to_iso8601 now bs cs))
    ∙ sym (
        and_then_assoc (receive_framing time_to_iso8601 now f b)
          (λ g. receive_framings time_to_iso8601 now g bs)
          (λ g. receive_framings time_to_iso8601 now g cs))

module _ {R C : Type 0} (signals : Signals R C) (time_to_iso8601 : ℕ → Text) (now : ℕ) where
  abbrev pub counted : Demod R C → Demod R C
  counted d = record d { dbg_sample_count = d.dbg_sample_count + 1 }

  abbrev pub later_bits : (Demod R C → List Bool) → Result (Demod R C × List (Event R)) → List Bool
  later_bits rest (ok (d, es)) = rest (counted d)
  later_bits rest out_of_bounds = []
  later_bits rest out_of_range = []
  later_bits rest overflow = []

  abbrev pub bit_now : Demod R C → List Bool
  bit_now t = if is_middle signals time_to_iso8601 now t then t.rx.data_bit ∷ [] else []

  abbrev pub bits_from : (Demod R C → List Bool) → Result (Demod R C) → List Bool
  bits_from rest (ok t) = bit_now t ++ later_bits rest (take_bit signals time_to_iso8601 now t)
  bits_from rest out_of_bounds = []
  bits_from rest out_of_range = []
  bits_from rest overflow = []

  -- The bits that are sampled from some pairs: the decision after each sample at which the clock has
  -- come to the middle of a bit.
  unfoldable pub sampled_bits : Demod R C → List (ℤ × ℤ) → List Bool
  sampled_bits d [] = []
  sampled_bits d ((i, q) ∷ pairs) =
      bits_from (λ x. sampled_bits x pairs)
        (tune signals time_to_iso8601 now d (signals.from_pair i q))

  abbrev view : Demod R C → Framing
  view d = framing d.rx

  -- What a run sees after some bits, and the rest of it.
  settle :
      (r : Result (Demod R C × List (Event R))) (bs : List Bool) (f : Framing)
      (next : Demod R C → Result (Demod R C × List (Event R))) (rest : Demod R C → List Bool)
      → seen_by view r ≡ receive_framings time_to_iso8601 now f bs
      → ((x : Demod R C) (es : List (Event R))
          → r ≡ ok (x, es)
          → seen_by view (next (counted x))
            ≡ receive_framings time_to_iso8601 now (view x) (rest (counted x)))
      → seen_by view
          (r >>= λ first. next (counted first.0) >>= λ others. ok (others.0, first.1 ++ others.1))
        ≡ receive_framings time_to_iso8601 now f (bs ++ later_bits rest r)
  settle (ok (x, es)) bs f next rest h k =
      seen-others view (next (counted x)) es
      ∙ ap (after_calls (calls es)) (k x es refl)
      ∙ ap
          (λ (m : Result Heard).
            and_then m (λ g. receive_framings time_to_iso8601 now g (rest (counted x))))
          h
      ∙ sym (receive_framings-append time_to_iso8601 now bs (rest (counted x)) f)
  settle out_of_bounds bs f next rest h k =
      h ∙ ap (receive_framings time_to_iso8601 now f) (sym (append-nil bs))
  settle out_of_range bs f next rest h k =
      h ∙ ap (receive_framings time_to_iso8601 now f) (sym (append-nil bs))
  settle overflow bs f next rest h k =
      h ∙ ap (receive_framings time_to_iso8601 now f) (sym (append-nil bs))

  -- A bit that is taken, or none.
  seen-take_bit :
      (t : Demod R C)
      → seen_by view (take_bit signals time_to_iso8601 now t)
        ≡ receive_framings time_to_iso8601 now (view t) (bit_now t)
  unfolding take_bit receive_framings
  seen-take_bit t = either (is_middle signals time_to_iso8601 now t)
    where
      clock :
          (r : Result (Rx R × List (Event R)))
          → seen_by view (r >>= λ step. ok (clocked signals time_to_iso8601 now t step.0, step.1))
            ≡ seen r
      clock (ok r) = refl
      clock out_of_bounds = refl
      clock out_of_range = refl
      clock overflow = refl

      one : (m : Result Heard) → m ≡ and_then m (λ g. receive_framings time_to_iso8601 now g [])
      one (ok (f, es)) = ap (λ (l : List (Message × ℕ)). ok (f, l)) (sym (append-nil es))
      one out_of_bounds = refl
      one out_of_range = refl
      one overflow = refl

      either :
          (b : Bool)
          → seen_by view (
              if b
              then (receive_bit signals.reals time_to_iso8601 now t.rx t.rx.data_bit >>= λ step.
                  ok (clocked signals time_to_iso8601 now t step.0, step.1))
              else ok (t, []))
            ≡ receive_framings time_to_iso8601 now (view t) (if b then t.rx.data_bit ∷ [] else [])
      either true =
          clock (receive_bit signals.reals time_to_iso8601 now t.rx t.rx.data_bit)
          ∙ seen-receive_bit time_to_iso8601 now signals.reals t.rx t.rx.data_bit
          ∙ one (receive_framing time_to_iso8601 now (view t) t.rx.data_bit)
      either false = refl

  -- The loop of `process` for a receiver that is ready.
  pub seen-process_pairs :
      (pairs : List (ℤ × ℤ)) (d : Demod R C)
      → IsReady d
      → seen_by view (process_pairs signals time_to_iso8601 now d pairs)
        ≡ receive_framings time_to_iso8601 now (view d) (sampled_bits d pairs)
  unfolding process_pairs sampled_bits process_one_sample receive_framings
  seen-process_pairs [] d ready = refl
  seen-process_pairs ((i, q) ∷ pairs) d ready =
      let step = tune-IsReady signals time_to_iso8601 now d (signals.from_pair i q) ready in
      let t = step.0 in
      let later = λ (x : Demod R C). process_pairs signals time_to_iso8601 now x pairs in
      ap
        (λ (m : Result (Demod R C)). seen_by view (
          (m >>= take_bit signals time_to_iso8601 now) >>= λ first.
          later (counted first.0) >>= λ others. ok (others.0, first.1 ++ others.1)))
        step.1
      ∙ settle (take_bit signals time_to_iso8601 now t) (bit_now t) (view d) later
          (λ x. sampled_bits x pairs)
          (seen-take_bit t
            ∙ ap (λ (f : Framing). receive_framings time_to_iso8601 now f (bit_now t)) step.3)
          (λ x es e.
            let counted-IsReady : IsReady (counted x) = record {
              table = (take_bit-IsReady signals time_to_iso8601 now t x es step.2 e).table;
              within = (take_bit-IsReady signals time_to_iso8601 now t x es step.2 e).within;
            } in
            seen-process_pairs pairs (counted x) counted-IsReady)
      ∙ ap
          (λ (m : Result (Demod R C)).
            receive_framings time_to_iso8601 now (view d) (bits_from (λ x. sampled_bits x pairs) m))
          (sym step.1)
