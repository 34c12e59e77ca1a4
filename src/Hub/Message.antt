-- ===== src/Hub/Message.antt =====
-- The text of a decoded message in src/dsc_rx_from_ubersdr.cpp: `build_message_json` and its helpers.
use Prim.Native.String.{String}
use ubersdr_dsc.Base.{
  ℕ, ◌*◌, ◌==◌, ltb, not, if◌then◌else◌, Bool, true, none, some, List, [], ◌∷◌, ◌++◌,
}
use ubersdr_dsc.Base.Int.{ℤ, pos, negsuc}
use ubersdr_dsc.Base.Text.{Text, codes, is_empty}
use ubersdr_dsc.Base.Result.{Result, ok, ◌>>=◌}
use ubersdr_dsc.Escape.{hex_escape}
use ubersdr_dsc.Manager.{DecodedMessage}
use ubersdr_dsc.Mmsi.{get_country, get_category}
use ubersdr_dsc.Stations.{coast_stations, find_station}
use ubersdr_dsc.Output.{decimal, decimal_int, when}
use ubersdr_dsc.Output.Json.{plain_member, concat, to_json}

-- What printf writes for a level (%.1f), and for a frequency in megahertz (%.4f).
pub record Formats (R : Type 0) : Type 0 where
  pub level : R → Text
  pub megahertz : ℤ → Text

-- f / 1e6 < m: the quotient is rounded to a `double`, which keeps it below a whole number.
abbrev pub under : ℤ → ℕ → Bool
under (pos f) m = ltb f (m * 1000000)
under (negsuc f) m = true

unfoldable pub freq_band_name : ℤ → String
freq_band_name f =
    if under f 3
    then "MF"
    else if under f 5
    then "4 MHz"
    else if under f 7
    then "6 MHz"
    else if under f 10
    then "8 MHz"
    else if under f 14
    then "12 MHz"
    else if under f 18
    then "16 MHz"
    else if under f 20
    then "18 MHz"
    else if under f 24
    then "22 MHz"
    else if under f 30
    then "25 MHz"
    else "HF"

unfoldable pub escape_char : ℕ → Text
escape_char c =
    if c == b'"'
    then b'\\' ∷ b'"' ∷ []
    else if c == b'\\'
    then b'\\' ∷ b'\\' ∷ []
    else if c == 10
    then b'\\' ∷ b'n' ∷ []
    else if c == 13
    then b'\\' ∷ b'r' ∷ []
    else if c == 9
    then b'\\' ∷ b't' ∷ []
    else if ltb c 0x20
    then hex_escape c
    else c ∷ []

unfoldable pub json_escape : Text → Text
unfolding escape_char
json_escape [] = []
json_escape (c ∷ s) = escape_char c ++ json_escape s

-- `,"key":"text"`
abbrev pub quoted : String → Text → Text
quoted key value = plain_member key (b'"' ∷ (json_escape value ++ codes "\""))

-- The last character taken off, if it is a closing brace.
abbrev pub drop_brace : Text → Text
drop_brace [] = []
drop_brace (c ∷ []) = if c == b'}' then [] else c ∷ []
drop_brace (c ∷ d ∷ s) = c ∷ drop_brace (d ∷ s)

-- The name of a coast station, or no name.
abbrev pub station_name : Text → Text
station_name mmsi = elim (find_station mmsi coast_stations) [ none ↦ [] | some name ↦ codes name ]

module _ {R : Type 0} (formats : Formats R) where
  -- What is appended after the members of the message; `dc` and `ac` are countries.
  unfoldable pub added_statements : DecodedMessage R → Text → Text → Text → List Text
  unfolding freq_band_name json_escape
  added_statements dm sc ac dc =
      let m = dm.message in
      let cs = station_name m.address in
      let dcs = station_name m.distress_id in
      quoted "selfCountry" sc
      ∷ quoted "selfCategory" (get_category m.self_id)
      ∷ when m.has_address
          (quoted "addressCountry" ac ++ when (not (is_empty cs)) (quoted "coastStation" cs))
      ∷ when m.has_distress_id (
          quoted "distressCountry" dc
          ++ when (not (is_empty dcs)) (quoted "distressCoastStation" dcs))
      ∷ plain_member "rxErrors" (decimal dm.errors)
      ∷ plain_member "rxRssi" (formats.level dm.rssi)
      ∷ plain_member "rxFrequencyHz" (decimal_int dm.frequency_hz)
      ∷ plain_member "rxFrequencyMHz" (b'"' ∷ (formats.megahertz dm.frequency_hz ++ codes "\""))
      ∷ quoted "rxBand" (codes (freq_band_name dm.frequency_hz))
      ∷ []

  -- A country that is looked up under a condition.
  abbrev pub country_when : Bool → Text → Result Text
  country_when b mmsi = if b then get_country mmsi else ok []

  unfoldable pub build_message_json : DecodedMessage R → Result Text
  unfolding added_statements
  build_message_json dm = get_country dm.message.self_id >>= λ sc.
      country_when dm.message.has_address dm.message.address >>= λ ac.
      country_when dm.message.has_distress_id dm.message.distress_id >>= λ dc. ok (
        drop_brace (codes "{\"type\":\"message\",\"data\":" ++ to_json dm.message)
        ++ (concat (added_statements dm sc ac dc) ++ codes "}}"))
