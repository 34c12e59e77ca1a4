-- ===== src/Demod.antt =====
-- `dsc_rx` of src/dsc_rx.cpp from the samples to the bits: `process` and `processOneSample`.
-- Floating-point numbers are an abstract type with the operations that the code uses.
pub mod Filter
pub mod Maximum
pub mod Framing
pub mod Ready
pub mod Bits
pub mod Delivery
use ubersdr_dsc.Base.{
  ℕ, zero, suc, ◌+◌, ◌-◌, ◌%◌, Bool, true, false, ◌&&◌, not, ltb, if◌then◌else◌, Option, none, some,
  List, [], ◌∷◌, ◌++◌, length, get_elem?,
}
use ubersdr_dsc.Base.Int.{ℤ}
use ubersdr_dsc.Base.Text.{Text}
use ubersdr_dsc.Base.Result.{Result, ok, in_bounds, ◌>>=◌}
use ubersdr_dsc.Rx.{Reals, Rx, Event, receive_bit, init}
use ubersdr_dsc.Rx as Rx
use ubersdr_dsc.Rx.Config.{RateConfig, rate_config_for}
use ubersdr_dsc.Decoder.{Decoder}
use Filter.{Products, FirFilter, filter, new_filter}
use Maximum.{MovingMaximum, set_size, push, get_maximum}

-- `double` and `std::complex`: what the demodulation does with them.
pub record Signals (R : Type 0) (C : Type 0) : Type 0 where
  pub reals : Reals R
  pub products : Products R C
  pub plus : R → R → R
  pub minus : R → R → R
  pub half : R → R
  pub greater : R → R → Bool
  -- x - x * 0.25
  pub pulled : R → R
  pub one_later : R → R
  -- x >= n / 2.0 - 1.0, and x - n
  pub at_middle : R → ℕ → Bool
  pub less : R → ℕ → R
  -- A pair of `int16_t`, each times 1.0 / 32768.0
  pub from_pair : ℤ → ℤ → C
  pub times : C → C → C
  pub conj : C → C
  pub abs : C → R
  -- The sum of the squares of the parts
  pub mag_sq : C → R
  -- The phase 0.0; one step on, less a turn; its cosine and sine
  pub phase_nought : R
  pub advanced : RateConfig → R → R
  pub turned : R → C

pub record Demod (R : Type 0) (C : Type 0) : Type 0 where
  pub rx : Rx R
  pub exp : List C
  pub lpf_mark : FirFilter R C
  pub lpf_space : FirFilter R C
  pub mov_max_mark : MovingMaximum R
  pub mov_max_space : MovingMaximum R
  pub mark_env : R
  pub space_env : R
  pub dbg_sample_count : ℕ

pub record DecoderStats (R : Type 0) : Type 0 where
  pub signal_level : R
  pub mark_level : R
  pub space_level : R
  pub receiving : Bool
  pub bit_count : ℕ
  pub rssi_db : R

module _ {R C : Type 0} (signals : Signals R C) (time_to_iso8601 : ℕ → Text) (now : ℕ) where
  -- The table of the exponential.
  unfoldable pub exp_table : RateConfig → ℕ → R → List C
  exp_table rate zero f0 = []
  exp_table rate (suc n) f0 = signals.turned f0 ∷ exp_table rate n (signals.advanced rate f0)

  -- The constructor; `taps` is the low-pass filter of 301 taps for a rate, and `decoder` a decoder
  -- before any `init`. Of an unsupported rate there is no table, no filter and no window.
  unfoldable pub new_demod : Decoder → (RateConfig → List R) → ℤ → Demod R C
  unfolding exp_table
  new_demod decoder taps sample_rate =
      let rate = rate_config_for sample_rate in
      let blank : Rx R = record {
        rate = rate;
        exp_idx = 0;
        clock_count = signals.reals.nought;
        data_bit = false;
        data_prev = false;
        dsc_decoder = decoder;
        bits = 0;
        bit_count = 0;
        got_sop = false;
        rssi_mag_sq_sum = signals.reals.nought;
        rssi_mag_sq_count = 0;
      } in
      let filter_of =
        λ (n : ℕ). new_filter signals.products (if rate.supported then taps rate else []) n in
      record {
        rx = if rate.supported then init signals.reals time_to_iso8601 now blank else blank;
        exp = exp_table rate rate.exp_length signals.phase_nought;
        lpf_mark = filter_of (if rate.supported then 301 else 0);
        lpf_space = filter_of (if rate.supported then 301 else 0);
        mov_max_mark = set_size (if rate.supported then rate.movmax_window else 1);
        mov_max_space = set_size (if rate.supported then rate.movmax_window else 1);
        mark_env = signals.reals.nought;
        space_env = signals.reals.nought;
        dbg_sample_count = 0;
      }

  -- The sum for the signal strength, while a message comes in.
  abbrev pub strengthened : C → Rx R → Rx R
  strengthened ci rx = record rx {
    rssi_mag_sq_sum =
        if rx.got_sop
        then signals.plus rx.rssi_mag_sq_sum (signals.mag_sq ci)
        else rx.rssi_mag_sq_sum;
    rssi_mag_sq_count = if rx.got_sop then rx.rssi_mag_sq_count + 1 else rx.rssi_mag_sq_count;
  }

  -- Both filters and their envelopes, and the biased difference of the two tones.
  abbrev pub envelopes : C → C → Demod R C → R × Demod R C
  envelopes exp_val ci d =
      let mark = filter signals.products d.lpf_mark (signals.times ci exp_val) in
      let space = filter signals.products d.lpf_space (signals.times ci (signals.conj exp_val)) in
      let abs1 = signals.abs mark.0 in
      let abs2 = signals.abs space.0 in
      let max1 = push d.mov_max_mark abs1 in
      let max2 = push d.mov_max_space abs2 in
      let env1 = get_maximum signals.reals.nought signals.greater max1 in
      let env2 = get_maximum signals.reals.nought signals.greater max2 in
      let bias1 = signals.minus abs1 (signals.half env1) in
      let bias2 = signals.minus abs2 (signals.half env2) in
      (
        signals.minus bias1 bias2,
        record d {
          lpf_mark = mark.1;
          lpf_space = space.1;
          mov_max_mark = max1;
          mov_max_space = max2;
          mark_env = env1;
          space_env = env2;
        },
      )

  -- The bit decision, and the clock, which a rising edge pulls.
  abbrev pub decide : R → Rx R → Rx R
  decide biased rx =
      let bit = signals.greater biased signals.reals.nought in
      let pulled =
        if bit && not rx.data_bit then signals.pulled rx.clock_count else rx.clock_count in
      record rx { data_prev = rx.data_bit; data_bit = bit; clock_count = signals.one_later pulled }

  -- `processOneSample` up to the test of the clock, with the value of the table.
  unfoldable pub tuned : Demod R C → C → C → Demod R C
  tuned d ci exp_val =
      let strong = strengthened ci d.rx in
      let moved = record strong { exp_idx = (strong.exp_idx + 1) % strong.rate.exp_length } in
      let heard = envelopes exp_val ci d in record (heard.1) { rx = decide heard.0 moved }

  unfoldable pub tune : Demod R C → C → Result (Demod R C)
  unfolding tuned
  tune d ci = in_bounds (get_elem? d.exp d.rx.exp_idx) >>= λ exp_val. ok (tuned d ci exp_val)

  abbrev pub is_middle : Demod R C → Bool
  is_middle d = signals.at_middle d.rx.clock_count d.rx.rate.samples_per_bit

  abbrev pub clocked : Demod R C → Rx R → Demod R C
  clocked d rx = record d {
    rx = record rx { clock_count = signals.less rx.clock_count rx.rate.samples_per_bit };
  }

  -- The rest of it: a bit in the middle of its time.
  unfoldable pub take_bit : Demod R C → Result (Demod R C × List (Event R))
  take_bit d =
      let bit =
        (receive_bit signals.reals time_to_iso8601 now d.rx d.rx.data_bit >>= λ step.
        ok (clocked d step.0, step.1)) in
      if is_middle d then bit else ok (d, [])

  unfoldable pub process_one_sample : Demod R C → C → Result (Demod R C × List (Event R))
  unfolding tune take_bit
  process_one_sample d ci = tune d ci >>= take_bit

  -- The loop of `process` over the pairs.
  unfoldable pub process_pairs : Demod R C → List (ℤ × ℤ) → Result (Demod R C × List (Event R))
  unfolding process_one_sample
  process_pairs d [] = ok (d, [])
  process_pairs d ((i, q) ∷ pairs) = process_one_sample d (signals.from_pair i q) >>= λ first.
      let counted = record (first.0) { dbg_sample_count = first.0.dbg_sample_count + 1 } in
      (process_pairs counted pairs >>= λ others. ok (others.0, first.1 ++ others.1))

  unfoldable pub process : Demod R C → List (ℤ × ℤ) → Result (Demod R C × List (Event R))
  unfolding process_pairs
  process d pairs = if d.rx.rate.supported then process_pairs d pairs else ok (d, [])

  unfoldable pub get_stats : Demod R C → DecoderStats R
  get_stats d = record {
    signal_level = signals.minus d.mark_env d.space_env;
    mark_level = d.mark_env;
    space_level = d.space_env;
    receiving = d.rx.got_sop;
    bit_count = d.rx.bit_count;
    rssi_db =
        if d.rx.got_sop
        then Rx.rssi_of signals.reals time_to_iso8601 now d.rx
        else signals.reals.minus_hundred;
  }
