-- ===== src/Message/Body.antt =====
-- The second half of `DSCMessage::decode` of src/dsc.cpp: from the nature of distress, the position
-- or the frequencies to the end of the call and its validity.
use ubersdr_dsc.Base.{
  ℕ, ◌+◌, ◌-◌, ◌==◌, ◌!=◌, ltb, if◌then◌else◌, Bool, true, false, ◌&&◌, ◌||◌, not, List, [], ◌∷◌,
  ◌++◌, length,
}
use ubersdr_dsc.Base.Text.{codes, text_eq, is_empty}
use ubersdr_dsc.Base.Result.{Result, ok, ◌>>=◌}
use ubersdr_dsc.Tables.{
  contains, format_specifier_strings, category_strings, telecommand1_strings, telecommand2_strings,
  distress_nature_strings, end_of_signal_strings,
}
use ubersdr_dsc.Tables.Values.{distress_alert, automatic_call, distress}
use ubersdr_dsc.Decoder.{max_bytes}
use ubersdr_dsc.Message.{Message}
use ubersdr_dsc.Message.Digits.{
  byte, substr, substr_from, symbols_to_digits, format_coordinates, calculate_ecc,
}
use ubersdr_dsc.Message.Frequency.{decode_frequency}
use ubersdr_dsc.Message.Head.{Cursor, in_distress}

-- No frequency and no channel.
abbrev pub without_frequencies : Message → Message
without_frequencies m = record m {
  has_frequency1 = false;
  has_channel1 = false;
  has_frequency2 = false;
  has_channel2 = false;
}

abbrev pub read_position : List ℕ → Cursor → Result Cursor
read_position bytes c = do
  digits ← symbols_to_digits bytes c.idx 5
  position ← format_coordinates digits
  ok (record {
    idx = c.idx + 5;
    message = without_frequencies (record c.message { position = position; has_position = true });
  })

-- The distress alert's nature and position.
unfoldable pub read_distress : List ℕ → Cursor → Result Cursor
read_distress bytes c = do
  nature ← byte bytes c.idx
  read_position bytes (record {
    idx = c.idx + 1;
    message = record c.message { distress_nature = nature; has_distress_nature = true };
  })

abbrev pub first_frequency : List ℕ → Cursor → Result Cursor
first_frequency bytes c = do
  f ← decode_frequency bytes (record { idx = c.idx; frequency = 0; channel = c.message.channel1 })
  ok (record {
    idx = f.idx;
    message = record c.message {
      has_position = false;
      frequency1 = f.frequency;
      channel1 = f.channel;
      has_frequency1 = f.frequency != 0;
      has_channel1 = not (is_empty f.channel);
    };
  })

abbrev pub second_frequency : List ℕ → Cursor → Result Cursor
second_frequency bytes c = do
  f ← decode_frequency bytes (record { idx = c.idx; frequency = 0; channel = c.message.channel2 })
  ok (record {
    idx = f.idx;
    message = record c.message {
      frequency2 = f.frequency;
      channel2 = f.channel;
      has_frequency2 = f.frequency != 0;
      has_channel2 = not (is_empty f.channel);
    };
  })

unfoldable pub read_frequencies : List ℕ → Cursor → Result Cursor
read_frequencies bytes c = do
  d ← first_frequency bytes c
  if d.message.format_specifier != automatic_call
      then second_frequency bytes d
      else ok
          (record d { message = record d.message { has_frequency2 = false; has_channel2 = false } })

-- A position is announced by 55; anything else is a frequency.
abbrev pub read_payload : List ℕ → Cursor → Result Cursor
read_payload bytes c = do
  first ← byte bytes c.idx
  if first == 55 then read_position bytes c else read_frequencies bytes c

abbrev pub no_payload : Cursor → Cursor
no_payload c = record c {
  message =
      without_frequencies (record c.message { has_distress_nature = false; has_position = false });
}

unfoldable pub decode_payload : List ℕ → Cursor → Result Cursor
decode_payload bytes c =
    if c.message.format_specifier == distress_alert
    then read_distress bytes c
    else if c.message.has_category && c.message.category != distress
    then read_payload bytes
        (record c { message = record c.message { has_distress_nature = false } })
    else ok (no_payload c)

-- A phone number: a byte that says whether its first digit is dropped, and the digits up to the end
-- of the call and the check symbol. A length below 0 is a loop that does nothing, and the index is
-- then the size less 2 all the same.
abbrev pub read_number : List ℕ → Cursor → Result Cursor
read_number bytes c = do
  odd_even ← byte bytes c.idx
  digits ← symbols_to_digits bytes (c.idx + 1) (length bytes - (c.idx + 1) - 2)
  number ← if odd_even == 105 then substr_from digits 1 else ok digits
  ok (record {
    idx = length bytes - 2;
    message = record c.message { number = number; has_number = true };
  })

unfoldable pub decode_number : List ℕ → Cursor → Result Cursor
decode_number bytes c =
    if c.message.format_specifier == automatic_call
    then read_number bytes c
    else ok (record c { message = record c.message { has_number = false } })

-- A distress alert, or another call in distress.
abbrev pub is_timed : Message → Bool
is_timed m = m.format_specifier == distress_alert || in_distress m

abbrev pub read_time : List ℕ → Cursor → Result Cursor
read_time bytes c = do
  digits ← symbols_to_digits bytes c.idx 2
  hours ← substr digits 0 2
  minutes ← substr digits 2 2
  ok (record {
    idx = c.idx + 2;
    message =
        if text_eq digits (codes "8888")
        then record c.message { has_time = false }
        else record c.message { time = hours ++ codes ":" ++ minutes; has_time = true };
  })

unfoldable pub decode_time : List ℕ → Cursor → Result Cursor
decode_time bytes c =
    if is_timed c.message
    then read_time bytes c
    else ok (record c { message = record c.message { has_time = false } })

abbrev pub read_subsequence_comms : List ℕ → Cursor → Result Cursor
read_subsequence_comms bytes c = do
  b ← byte bytes c.idx
  ok (record {
    idx = c.idx + 1;
    message = record c.message { subsequence_comms = b; has_subsequence_comms = true };
  })

unfoldable pub decode_subsequence_comms : List ℕ → Cursor → Result Cursor
decode_subsequence_comms bytes c =
    if is_timed c.message
    then read_subsequence_comms bytes c
    else ok (record c { message = record c.message { has_subsequence_comms = false } })

-- The end of the call and the check symbol; `checkECC`.
unfoldable pub decode_end : List ℕ → Cursor → Result Message
decode_end bytes c = do
  eos ← byte bytes c.idx
  ecc ← byte bytes (c.idx + 1)
  ok (record c.message {
    eos = eos;
    ecc = ecc;
    calculated_ecc = calculate_ecc bytes;
    ecc_ok = calculate_ecc bytes == ecc;
  })

-- `hasInvalidByte`
unfoldable pub has_invalid_byte : List ℕ → Bool
has_invalid_byte [] = false
has_invalid_byte (x ∷ xs) = x == 0xff || has_invalid_byte xs

-- `m_valid`
unfoldable pub is_valid_message : List ℕ → Message → Bool
is_valid_message bytes m =
    contains m.format_specifier format_specifier_strings
    && (not m.has_category || contains m.category category_strings)
    && (not m.has_telecommand1 || contains m.telecommand1 telecommand1_strings)
    && (not m.has_telecommand2 || contains m.telecommand2 telecommand2_strings)
    && (not m.has_distress_nature || contains m.distress_nature distress_nature_strings)
    && contains m.eos end_of_signal_strings
    && not (has_invalid_byte bytes)
    && ltb (length bytes) max_bytes
    && m.ecc_ok
