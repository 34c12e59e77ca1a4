-- ===== src/Examples/Samples.antt =====
-- The theorems about the demodulation of src/dsc_rx.cpp, with whole numbers in place of the
-- floating-point ones, at one sample to a bit.
use ubersdr_dsc.Demod.Maximum.{set_size, get_maximum}
use ubersdr_dsc.Demod.Maximum.Laws.{IsGreatest, push_all, get_maximum-IsGreatest}
use ubersdr_dsc.Base.{
  ltb, lasts, Bool, false, ◌+◌, ◌*◌, ℕ, ◌≡◌, refl, arith, true, List, [], ◌∷◌, ap, sym, ◌∙◌, map,
}
use ubersdr_dsc.Demod.Filter.{Products, new_filter}
use ubersdr_dsc.Demod.Filter.Convolution.{filter_all, responses, filter_all-eq-responses}
use ubersdr_dsc.Base.Int.{ℤ, pos}
use ubersdr_dsc.Demod.{Demod, process, new_demod}
use ubersdr_dsc.Rx.{init, receive_bits, Rx, Event}
use ubersdr_dsc.Rx.Config.{rate_config_for}
use ubersdr_dsc.Demod.Framing.{
  framing, seen, seen_by, Heard, Framing, receive_framings, seen-receive_bits,
}
use ubersdr_dsc.Demod.Ready.{IsReady, new_demod-IsReady}
use ubersdr_dsc.Demod.Bits.{sampled_bits}
use ubersdr_dsc.Demod.Delivery.{
  built, process-eq-receive_bits, HearsOnce, process-burst, built-fresh,
}
use ubersdr_dsc.Examples.{whole_numbers, any_time, decoder, alert_bytes, words, at}
use ubersdr_dsc.Examples.Tones.{on_off, pair, IsClear, sampled_bits-pairs}
use ubersdr_dsc.Examples.Reception.{alert, alert-IsBurst, alert_read}
use ubersdr_dsc.Message.{Message}
use ubersdr_dsc.Base.Text.{Text}
use ubersdr_dsc.Output.Json.{concat}
use ubersdr_dsc.Recording.{chunk, pairs_of, read_loop}
use ubersdr_dsc.Recording.Whole.{read_loop-whole}
use ubersdr_dsc.Base.Result.{◌>>=◌, Result, ok, out_of_bounds, out_of_range, overflow}
use ubersdr_dsc.Rx.Delivery.{Delivers, signal, receive_bits-burst}
use ubersdr_dsc.Rx.Framing.{fresh}

abbrev small_receiver : Demod ℕ ℕ
small_receiver = built on_off any_time 0 decoder (λ rate. 1 ∷ []) 1000

abbrev three_pairs : List (ℤ × ℤ)
three_pairs = (pos 1, pos 0) ∷ (pos 0, pos 0) ∷ (pos 1, pos 0) ∷ []

one_thousand : (rate_config_for (pos 1000)).supported ≡ true
unfolding rate_config_for
one_thousand = refl

small_receiver-IsReady : IsReady small_receiver
small_receiver-IsReady =
    new_demod-IsReady on_off any_time 0 decoder (λ rate. 1 ∷ []) 1000 (omega arith) one_thousand

small_receiver_supported : small_receiver.rx.rate.supported ≡ true
unfolding new_demod rate_config_for init
small_receiver_supported = refl

process-eq-receive_bits_example :
    seen_by (λ (x : Demod ℕ ℕ). framing x.rx) (process on_off any_time 0 small_receiver three_pairs)
    ≡ seen (
        receive_bits whole_numbers any_time 0 small_receiver.rx
          (sampled_bits on_off any_time 0 small_receiver three_pairs))
process-eq-receive_bits_example =
    process-eq-receive_bits on_off any_time 0 small_receiver three_pairs small_receiver-IsReady
      small_receiver_supported

small_receiver-IsClear : IsClear small_receiver
unfolding new_demod rate_config_for new_filter init
small_receiver-IsClear = record {
  one_tap = refl;
  inside = omega arith;
  ready = small_receiver-IsReady;
}

alert_delivered : Delivers alert 2 (
    receive_bits whole_numbers any_time 0
      (fresh small_receiver.rx)
      (signal 0 (words alert_bytes 16)))
alert_delivered =
    receive_bits-burst whole_numbers any_time 0 small_receiver.rx 0 (words alert_bytes 16)
      (at alert_bytes) (at alert_bytes) 105 104 16 alert alert-IsBurst alert_read

heard_of :
    (m : Message) (n : ℕ) (r : Result (Rx ℕ × List (Event ℕ)))
    → Delivers m n r
    → (h : Heard) × (seen r ≡ ok h)
heard_of m n (ok out) h = (_, refl)
heard_of m n out_of_bounds h = absurd h
heard_of m n out_of_range h = absurd h
heard_of m n overflow h = absurd h

alert_heard :
    (h : Heard) × (receive_framings any_time 0
        (framing small_receiver.rx)
        (signal 0 (words alert_bytes 16))
      ≡ ok h)
alert_heard = (
  found.0,
  ap (λ (f : Framing). receive_framings any_time 0 f (signal 0 (words alert_bytes 16)))
        (sym (built-fresh on_off any_time 0 decoder (λ rate. 1 ∷ []) 1000))
      ∙ sym (
          seen-receive_bits any_time 0 whole_numbers (signal 0 (words alert_bytes 16))
            (fresh small_receiver.rx))
      ∙ found.1,
)
  where
    found :
        (h : Heard) × (seen (
            receive_bits whole_numbers any_time 0
              (fresh small_receiver.rx)
              (signal 0 (words alert_bytes 16)))
          ≡ ok h)
    found = heard_of alert 2 _ alert_delivered

abbrev alert_pairs : List (ℤ × ℤ)
alert_pairs = map pair (signal 0 (words alert_bytes 16))

alert_sampled :
    sampled_bits on_off any_time 0 small_receiver alert_pairs ≡ signal 0 (words alert_bytes 16)
alert_sampled =
    sampled_bits-pairs (signal 0 (words alert_bytes 16)) small_receiver alert_heard.0
      small_receiver-IsClear alert_heard.1

process-burst_example : HearsOnce alert 2 (
    seen_by
      (λ (x : Demod ℕ ℕ). framing x.rx)
      (process on_off any_time 0 small_receiver alert_pairs))
process-burst_example =
    process-burst on_off any_time 0 decoder (λ rate. 1 ∷ []) 1000 alert_pairs 0
      (words alert_bytes 16) (at alert_bytes) (at alert_bytes) 105 104 16 alert (omega arith)
      one_thousand alert_sampled alert-IsBurst alert_read

abbrev sums : Products ℕ ℕ
sums = record { nothing = 0; plus = ◌+◌; scaled = ◌*◌ }

filter_all-eq-responses_example :
    filter_all sums (new_filter sums (1 ∷ 2 ∷ 3 ∷ []) 5) (1 ∷ 0 ∷ 0 ∷ 7 ∷ [])
    ≡ responses sums 5 (1 ∷ 2 ∷ 3 ∷ []) [] (1 ∷ 0 ∷ 0 ∷ 7 ∷ [])
filter_all-eq-responses_example =
    filter_all-eq-responses sums (1 ∷ 2 ∷ 3 ∷ []) 5 (1 ∷ 0 ∷ 0 ∷ 7 ∷ []) (omega arith) (omega arith)

abbrev above : ℕ → ℕ → Bool
above x y = ltb y x

above_irreflexive : (x : ℕ) → above x x ≡ false
above_irreflexive x = ground arith

above_transitive : (x y z : ℕ) → above x y ≡ true → above y z ≡ true → above x z ≡ true
above_transitive x y z h k = ground arith

get_maximum-IsGreatest_example :
    IsGreatest above
      (get_maximum 0 above (push_all (set_size 2) (9 ∷ 3 ∷ 5 ∷ [])))
      (lasts 2 (9 ∷ 3 ∷ 5 ∷ []))
get_maximum-IsGreatest_example =
    get_maximum-IsGreatest 0 above above_irreflexive above_transitive 2 (9 ∷ 3 ∷ 5 ∷ [])
      (omega arith) (omega arith)

-- Two reads of a file, of one pair and of two.
abbrev two_reads : List Text
two_reads = (1 ∷ 0 ∷ 0 ∷ 0 ∷ []) ∷ (255 ∷ 255 ∷ 0 ∷ 0 ∷ 7 ∷ 1 ∷ 0 ∷ 0 ∷ []) ∷ []

read_loop-whole_example : read_loop on_off any_time 0 small_receiver (map chunk two_reads) ≡ (
    process on_off any_time 0 small_receiver (pairs_of (concat two_reads)) >>= λ r.
    ok (r.0, r.1, true))
read_loop-whole_example =
    read_loop-whole on_off any_time 0 two_reads small_receiver ((refl, tt), ((refl, tt), tt))
