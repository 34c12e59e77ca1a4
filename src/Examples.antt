-- ===== src/Examples.antt =====
-- Concrete messages, bursts and receivers, and the runs of the code of src/ on them.
mod Symbols
mod Reception
mod Messages
mod Packets
mod Channels
mod Tones
mod Samples
mod Clients
use ubersdr_dsc.Base.{
  ℕ, zero, suc, ◌<◌, ◌≡◌, refl, arith, Bool, true, false, List, [], ◌∷◌, ◌++◌, none, some, map, All,
  get_elem?, ltb, ◌&&◌, not,
}
use ubersdr_dsc.Base.Int.{pos}
use ubersdr_dsc.Base.Text.{Text}
use ubersdr_dsc.Tables.{is_end_of_signal}
use ubersdr_dsc.Decoder.{Decoder, phasing}
use ubersdr_dsc.Decoder.Symbol.{symbol_to_bits}
use ubersdr_dsc.Decoder.Spec.{burst, EndsAfter}
use ubersdr_dsc.Decoder.Clean.{phasing_tail}
use ubersdr_dsc.Rx.{Reals, Rx}
use ubersdr_dsc.Rx.Config.{rate_config_for}

-- Symbol `k` of a message, and 0 after its end.
abbrev at : List ℕ → ℕ → ℕ
at bytes k = elim (get_elem? bytes k) [ none ↦ 0 | some b ↦ b ]

-- A distress alert; a call to all ships that ends after its category; a message that does not end.
abbrev alert_bytes : List ℕ
alert_bytes =
    112 ∷ 112 ∷ 0 ∷ 23 ∷ 20 ∷ 0 ∷ 10 ∷ 100 ∷ 0 ∷ 51 ∷ 23 ∷ 0 ∷ 12 ∷ 12 ∷ 34 ∷ 100 ∷ 127 ∷ 0 ∷ []

-- The symbols of test/dsc_rate_test.cpp, up to the one after the end.
abbrev cut_bytes : List ℕ
cut_bytes = 112 ∷ 70 ∷ 71 ∷ 72 ∷ 73 ∷ 74 ∷ 75 ∷ 127 ∷ 76 ∷ []

-- The distress alert with symbol 3 received with an error.
abbrev damaged_bytes : List ℕ
damaged_bytes =
    112 ∷ 112 ∷ 0 ∷ 255 ∷ 20 ∷ 0 ∷ 10 ∷ 100 ∷ 0 ∷ 51 ∷ 23 ∷ 0 ∷ 12 ∷ 12 ∷ 34 ∷ 100 ∷ 127 ∷ 0 ∷ []

-- The codewords of a burst after the first three phasing symbols.
abbrev words : List ℕ → ℕ → List ℕ
words bytes n = map symbol_to_bits (phasing_tail 9 ++ burst (at bytes) (at bytes) 105 104 (suc n))

abbrev decoder : Decoder
decoder = record {
  buf = record { at0 = 0; at1 = 0; at2 = 0 };
  state = phasing;
  idx = 0;
  errors = 0;
  phase_idx = 0;
  eos = false;
  bytes = [];
}

-- Numbers in place of the floating-point ones.
abbrev whole_numbers : Reals ℕ
whole_numbers = record {
  nought = 0;
  minus_hundred = 0;
  minus_half = λ n. n;
  mean = λ x n. x;
  is_positive = λ x. ltb 0 x;
  decibels = λ x. x;
}

abbrev any_time : ℕ → Text
any_time n = []

abbrev receiver : Rx ℕ
receiver = record {
  rate = rate_config_for (pos 12000);
  exp_idx = 0;
  clock_count = 0;
  data_bit = false;
  data_prev = false;
  dsc_decoder = decoder;
  bits = 0;
  bit_count = 0;
  got_sop = false;
  rssi_mag_sq_sum = 0;
  rssi_mag_sq_count = 0;
}

all_lt : ℕ → List ℕ → Bool
all_lt b [] = true
all_lt b (x ∷ xs) = ltb x b && all_lt b xs

all_lt_sound : (b : ℕ) (xs : List ℕ) → all_lt b xs ≡ true → All (λ x. x < b) xs
unfolding all_lt
all_lt_sound b [] e = tt
all_lt_sound b (x ∷ xs) e = (ground arith, all_lt_sound b xs (ground arith))

ends_after : (ℕ → ℕ) → ℕ → ℕ → Bool
ends_after f k zero = is_end_of_signal (f k)
ends_after f k (suc n) = not (is_end_of_signal (f k)) && ends_after f (suc k) n

ends_after_sound : (f : ℕ → ℕ) (k n : ℕ) → ends_after f k n ≡ true → EndsAfter f k n
unfolding ends_after
ends_after_sound f k zero e = e
ends_after_sound f k (suc n) e = (ground arith, ends_after_sound f (suc k) n (ground arith))
