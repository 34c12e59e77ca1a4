-- ===== src/Recording.antt =====
-- The program src/dsc_rx_from_file.cpp: its loop over what `read` gives, and what it prints of a
-- message.
pub mod Whole
use ubersdr_dsc.Base.{
  ℕ, ◌+◌, ◌*◌, ltb, ◌&&◌, ◌||◌, not, if◌then◌else◌, Bool, true, false, none, some, List, [], ◌∷◌,
  ◌++◌,
}
use ubersdr_dsc.Base.Int.{ℤ, pos_part}
use ubersdr_dsc.Base.Text.{Text, codes, is_empty}
use ubersdr_dsc.Base.Result.{Result, ok, ◌>>=◌}
use ubersdr_dsc.Message.{Message}
use ubersdr_dsc.Mmsi.{get_country, get_category}
use ubersdr_dsc.Stations.{coast_stations, find_station}
use ubersdr_dsc.Output.{
  decimal, decimal_int, when, format_specifier, category, telecommand1, telecommand2,
  distress_nature, end_of_signal,
}
use ubersdr_dsc.Output.Json.{concat, to_json}
use ubersdr_dsc.Pcm.Arith.{to_int}
use ubersdr_dsc.Rx.{Event}
use ubersdr_dsc.Demod.{Signals, Demod, process}

-- What one call of `read` gives: bytes, none at the end of the file; or an error.
pub data Read : Type 0 where
  chunk : Text → Read
  failed : Read

abbrev pub int16 : ℕ → ℕ → ℤ
int16 low high = to_int 16 (low + 256 * high)

-- The whole pairs of samples at the front of the buffer.
unfoldable pub pairs_of : Text → List (ℤ × ℤ)
pairs_of (a ∷ b ∷ c ∷ d ∷ bytes) = (int16 a b, int16 c d) ∷ pairs_of bytes
pairs_of _ = []

module _ {R C : Type 0} (signals : Signals R C) (time_to_iso8601 : ℕ → Text) (now : ℕ) where
  -- The loop, with the calls of the callback, and whether it ended at the end of the file.
  unfoldable pub read_loop : Demod R C → List Read → Result (Demod R C × List (Event R) × Bool)
  unfolding pairs_of
  read_loop d [] = ok (d, [], true)
  read_loop d (failed ∷ reads) = ok (d, [], false)
  read_loop d (chunk [] ∷ reads) = ok (d, [], true)
  read_loop d (chunk (b ∷ bytes) ∷ reads) =
      process signals time_to_iso8601 now d (pairs_of (b ∷ bytes)) >>= λ first.
      read_loop first.0 reads >>= λ others. ok (others.0, first.1 ++ others.1, others.2)

-- A line with a value in its column.
abbrev pub human_line : Text → Text → Text
human_line label value = label ++ (value ++ codes "\n")

-- The country and the category of the station that sends.
abbrev pub human_station : Text → Text → Text
human_station country kind =
    when (not (is_empty country)) (codes "  (" ++ country)
    ++ (when (not (is_empty kind)) (codes ", " ++ kind)
        ++ when (not (is_empty country) || not (is_empty kind)) (codes ")"))

abbrev pub human_country : Text → Text
human_country country = when (not (is_empty country)) (codes "  (" ++ (country ++ codes ")"))

abbrev pub human_name : Text → Text
human_name mmsi = elim (find_station mmsi coast_stations) [
  | none ↦ []
  | some name ↦ codes "  [" ++ (codes name ++ codes "]")
]

module _ {R : Type 0} (level : R → Text) where
  unfoldable pub human_lines : Message → ℕ → R → ℤ → Text → Text → Text → List Text
  human_lines m errors rssi frequency_hz country ac dc =
      codes "=== DSC Message ===\n"
      ∷ human_line (codes "  Format:      ") (format_specifier false m)
      ∷ when m.has_category (human_line (codes "  Category:    ") (category false m))
      ∷ human_line (codes "  Self ID:     ")
          (m.self_id ++ human_station country (get_category m.self_id))
      ∷ when m.has_address (
          human_line (codes "  Address:     ")
            (m.address ++ (human_country ac ++ human_name m.address)))
      ∷ when m.has_telecommand1
          (human_line (codes "  Telecommand1: ") (telecommand1 false m.telecommand1))
      ∷ when m.has_telecommand2
          (human_line (codes "  Telecommand2: ") (telecommand2 false m.telecommand2))
      ∷ when m.has_distress_id
          (human_line (codes "  Distress ID: ") (m.distress_id ++ human_country dc))
      ∷ when m.has_distress_nature
          (human_line (codes "  Distress:    ") (distress_nature m.distress_nature))
      ∷ when m.has_position (human_line (codes "  Position:    ") m.position)
      ∷ when m.has_time (human_line (codes "  Time:        ") m.time)
      ∷ human_line (codes "  EOS:         ") (end_of_signal false m.eos)
      ∷ human_line (codes "  ECC:         ") (if m.ecc_ok then codes "OK" else codes "ERROR")
      ∷ human_line (codes "  Valid:       ") (if m.valid then codes "yes" else codes "no")
      ∷ human_line (codes "  Errors:      ") (decimal errors)
      ∷ human_line (codes "  RSSI:        ") (level rssi ++ codes " dB")
      ∷ when (ltb 0 (pos_part frequency_hz))
          (human_line (codes "  Frequency:   ") (decimal_int frequency_hz ++ codes " Hz"))
      ∷ human_line (codes "  Received:    ") m.received_at
      ∷ codes "===================\n\n"
      ∷ []

  abbrev pub country_when : Bool → Text → Result Text
  country_when b mmsi = if b then get_country mmsi else ok []

  unfoldable pub print_message_human : Message → ℕ → R → ℤ → Result Text
  unfolding human_lines
  print_message_human m errors rssi frequency_hz = get_country m.self_id >>= λ country.
      country_when m.has_address m.address >>= λ ac.
      country_when m.has_distress_id m.distress_id >>= λ dc.
      ok (concat (human_lines m errors rssi frequency_hz country ac dc))

  -- The callback: the frequency is written into the message, which is then printed.
  unfoldable pub on_message : Bool → ℤ → Event R → Result Text
  unfolding print_message_human
  on_message json_mode frequency_hz e =
      let m = record (e.message) { frequency_hz = frequency_hz } in
      if json_mode
      then ok (to_json m ++ codes "\n")
      else print_message_human m e.errors e.rssi frequency_hz
