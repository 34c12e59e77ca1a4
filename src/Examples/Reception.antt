-- ===== src/Examples/Reception.antt =====
-- Runs of the receiver on concrete bits.
use ubersdr_dsc.Base.{inr, ℕ, ◌<◌, ◌≡◌, refl, arith, true, map, All, List, [], ◌∷◌, ◌++◌}
use ubersdr_dsc.Base.Result.{Result, ok, out_of_bounds, out_of_range, overflow}
use ubersdr_dsc.Tables.{is_end_of_signal, contains}
use ubersdr_dsc.Base.Int.{pos}
use ubersdr_dsc.Decoder as Decoder
use ubersdr_dsc.Decoder.{decode_all, decode_symbol}
use ubersdr_dsc.Decoder.Phasing.{window}
use ubersdr_dsc.Rx.Config.{rate_config_for, IsTuned, rate_config_for-IsTuned}
use ubersdr_dsc.Decoder.Symbol.{symbol_to_bits, bits_to_symbol}
use ubersdr_dsc.Message.{Message, initial}
use ubersdr_dsc.Message.Decode.{dsc_message}
use ubersdr_dsc.Message.Head.{
  decode_format, decode_address, decode_self_id, decode_telecommands, decode_distress_id,
}
use ubersdr_dsc.Message.Body.{
  decode_payload, decode_number, decode_time, decode_subsequence_comms, decode_end, read_distress,
  is_valid_message, has_invalid_byte,
}
use ubersdr_dsc.Message.Digits.{
  symbols_to_digits, format_address, format_coordinates, calculate_ecc,
}
use ubersdr_dsc.Rx.{receive_bits}
use ubersdr_dsc.Rx.Framing.{fresh, aligned, frames, conclusion, OnTime, receive_bits-frames}
use ubersdr_dsc.Rx.Words.{bits_of, shift_all}
use ubersdr_dsc.Rx.Delivery.{
  IsBurst, Delivers, signal, locked, receive_bits-burst, receive_bits-short_burst,
  receive_bits-window,
}
use ubersdr_dsc.Examples.{
  at, alert_bytes, cut_bytes, words, whole_numbers, any_time, receiver, all_lt, all_lt_sound,
  ends_after, ends_after_sound, decoder,
}

alert_words : all_lt 1024 (words alert_bytes 16) ≡ true
unfolding all_lt symbol_to_bits
alert_words = refl

pub alert-IsBurst : IsBurst 0 (words alert_bytes 16) (at alert_bytes) (at alert_bytes) 105 104 16
unfolding symbol_to_bits bits_to_symbol is_end_of_signal ends_after
alert-IsBurst = (
  omega arith,
  all_lt_sound 1024 (words alert_bytes 16) alert_words,
  refl,
  omega arith,
  ends_after_sound (at alert_bytes) 0 16 refl,
)

abbrev read : Result Message → Message
read (ok m) = m
read out_of_bounds = initial [] []
read out_of_range = initial [] []
read overflow = initial [] []

abbrev pub alert : Message
alert = read (dsc_message any_time alert_bytes 0)

pub alert_read : dsc_message any_time alert_bytes 0 ≡ ok alert
unfolding dsc_message decode_format decode_address decode_self_id decode_telecommands
    decode_distress_id decode_payload decode_number decode_time decode_subsequence_comms decode_end
    read_distress symbols_to_digits format_address format_coordinates calculate_ecc is_valid_message
    has_invalid_byte contains
alert_read = refl

receive_bits-burst_example :
    Delivers alert 2
      (receive_bits whole_numbers any_time 0 (fresh receiver) (signal 0 (words alert_bytes 16)))
receive_bits-burst_example =
    receive_bits-burst whole_numbers any_time 0 receiver 0 (words alert_bytes 16) (at alert_bytes)
      (at alert_bytes) 105 104 16 alert alert-IsBurst alert_read

cut_words : all_lt 1024 (words cut_bytes 7) ≡ true
unfolding all_lt symbol_to_bits
cut_words = refl

cut-IsBurst : IsBurst 0 (words cut_bytes 7) (at cut_bytes) (at cut_bytes) 105 104 7
unfolding symbol_to_bits bits_to_symbol is_end_of_signal ends_after
cut-IsBurst = (
  omega arith,
  all_lt_sound 1024 (words cut_bytes 7) cut_words,
  refl,
  omega arith,
  ends_after_sound (at cut_bytes) 0 7 refl,
)

receive_bits-short_burst_example :
    receive_bits whole_numbers any_time 0 (fresh receiver) (signal 0 (words cut_bytes 7))
    ≡ out_of_bounds
receive_bits-short_burst_example =
    receive_bits-short_burst whole_numbers any_time 0 receiver 0 (words cut_bytes 7) (at cut_bytes)
      (at cut_bytes) 105 104 7 cut-IsBurst (inr (refl, omega arith))

receive_bits-window_example :
    receive_bits whole_numbers any_time 0 (fresh receiver) (bits_of 30 (window 3) ++ true ∷ [])
    ≡ receive_bits whole_numbers any_time 0
        (aligned
          (locked whole_numbers any_time 0 receiver)
          (Decoder.init decoder 6)
          (shift_all 0 (bits_of 30 (window 3))))
        (true ∷ [])
receive_bits-window_example =
    receive_bits-window whole_numbers any_time 0 receiver 3 (true ∷ []) (omega arith)

-- The rest of the phasing and the first symbols of the alert, in codewords.
abbrev first_words : List ℕ
first_words = map symbol_to_bits (110 ∷ 125 ∷ 109 ∷ [])

first_words_lt : All (λ w. w < 1024) first_words
unfolding symbol_to_bits
first_words_lt = omega arith

first_words_run : OnTime (decode_all (Decoder.init decoder 9) (map bits_to_symbol first_words))
unfolding decode_all decode_symbol Decoder.init bits_to_symbol symbol_to_bits
first_words_run = tt

receive_bits-frames_example :
    receive_bits whole_numbers any_time 0
      (aligned receiver (Decoder.init decoder 9) 0)
      (frames first_words)
    ≡ conclusion whole_numbers any_time 0 receiver
        (shift_all 0 (frames first_words))
        (decode_all (Decoder.init decoder 9) (map bits_to_symbol first_words))
receive_bits-frames_example =
    receive_bits-frames whole_numbers any_time 0 first_words receiver (Decoder.init decoder 9) 0
      first_words_lt first_words_run

twelve_thousand : (rate_config_for (pos 12000)).supported ≡ true
unfolding rate_config_for
twelve_thousand = refl

rate_config_for-IsTuned_example : IsTuned 12000 (rate_config_for (pos 12000))
rate_config_for-IsTuned_example = rate_config_for-IsTuned 12000 (omega arith) twelve_thousand
