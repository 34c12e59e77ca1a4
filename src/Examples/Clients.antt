-- ===== src/Examples/Clients.antt =====
-- A message sent to the clients of src/dsc_rx_from_ubersdr.cpp.
use ubersdr_dsc.Base.{ℕ, ◌≡◌, refl, arith, true, false, none, some, List, [], ◌∷◌, lasts}
use ubersdr_dsc.Base.Int.{pos}
use ubersdr_dsc.Base.Text.{Text, codes}
use ubersdr_dsc.Base.Result.{ok, ◌>>=◌}
use ubersdr_dsc.Message.{initial}
use ubersdr_dsc.Manager.{DecodedMessage}
use ubersdr_dsc.Output.{decimal}
use ubersdr_dsc.Hub.{BroadcastHub, text, msg_history_max, send_history_to}
use ubersdr_dsc.Hub.Message.{Formats}
use ubersdr_dsc.Hub.Envelope.{history_object}
use ubersdr_dsc.Hub.History.{objects, send_all, send_history_to-sent}
use ubersdr_dsc.Hub.Frequencies.{
  parse_freq_list, frequencies_of, split_commas, frequency_of, sort, unique, insert_sorted, has,
  IsRising,
}
use ubersdr_dsc.Hub.Frequencies.Written.{
  Entry, unsigned, plus, minus, line, names, parse_freq_list-line,
}
use ubersdr_dsc.Examples.{alert_bytes}

abbrev plain_formats : Formats ℕ
plain_formats = record { level = λ n. decimal n; megahertz = λ f. codes "2.1875" }

abbrev heard_message : DecodedMessage ℕ
heard_message = record {
  message = initial alert_bytes (codes "2024-05-01T12:00:00Z");
  errors = 2;
  rssi = 40;
  frequency_hz = pos 2187500;
  received_at = pos 1714564800;
}

abbrev new_hub : BroadcastHub
new_hub = record { has_server = true; audio_subs = []; history = [] }

send_history_to-sent_example :
    (os : List Text) × (objects plain_formats (heard_message ∷ heard_message ∷ []) ≡ ok os)
    × ((send_all plain_formats new_hub (3 ∷ []) (heard_message ∷ heard_message ∷ []) >>= λ h.
          ok (send_history_to h 5))
        ≡ ok ((5, text (history_object (lasts msg_history_max os))) ∷ []))
send_history_to-sent_example =
    send_history_to-sent plain_formats (heard_message ∷ heard_message ∷ []) new_hub (3 ∷ []) 5 refl
      (omega arith)

abbrev listed : Text
listed = codes "2187500, 16804500,x, 2187500,-4"

listed_frequencies : parse_freq_list listed ≡ 2187500 ∷ 16804500 ∷ []
unfolding parse_freq_list split_commas frequencies_of frequency_of sort unique insert_sorted
listed_frequencies = refl

-- 2187500, +16804500 with blanks around it, 7x and -4.
abbrev listed_entries : List Entry
listed_entries =
    record {
      before = [];
      sign = unsigned;
      first_digit = 2;
      digits = 1 ∷ 8 ∷ 7 ∷ 5 ∷ 0 ∷ 0 ∷ [];
      junk = none;
      after = [];
    }
    ∷ record {
      before = true ∷ [];
      sign = plus;
      first_digit = 1;
      digits = 6 ∷ 8 ∷ 0 ∷ 4 ∷ 5 ∷ 0 ∷ 0 ∷ [];
      junk = none;
      after = false ∷ [];
    }
    ∷ record {
      before = [];
      sign = unsigned;
      first_digit = 7;
      digits = [];
      junk = some b'x';
      after = [];
    }
    ∷ record { before = []; sign = minus; first_digit = 4; digits = []; junk = none; after = [] }
    ∷ []

parse_freq_list-line_example :
    IsRising (parse_freq_list (line listed_entries))
    × ((f : ℕ) → has f (parse_freq_list (line listed_entries)) ≡ has f (names listed_entries))
parse_freq_list-line_example = parse_freq_list-line listed_entries (
    (
      (
        (
          omega arith,
          (
            omega arith,
            (omega arith, (omega arith, (omega arith, (omega arith, (omega arith, tt))))),
          ),
        ),
        tt,
      ),
      (
        (
          (
            omega arith,
            (
              omega arith,
              (
                omega arith,
                (omega arith, (omega arith, (omega arith, (omega arith, (omega arith, tt))))),
              ),
            ),
          ),
          tt,
        ),
        (((omega arith, tt), (refl, refl, refl)), (((omega arith, tt), tt), tt)),
      ),
    ))
