-- ===== src/Output/Json.antt =====
-- `toJson` of src/dsc.cpp.
use Prim.Native.String.{String}
use ubersdr_dsc.Base.{ℕ, ◌/◌, ◌%◌, ◌==◌, Bool, false, ◌&&◌, if◌then◌else◌, List, [], ◌∷◌, ◌++◌}
use ubersdr_dsc.Base.Text.{Text, codes}
use ubersdr_dsc.Escape.{json_escape, hex_digit}
use ubersdr_dsc.Message.{Message}
use ubersdr_dsc.Tables.Values.{geographic_call}
use ubersdr_dsc.Output.{
  decimal, decimal_int, signed_char, format_specifier, category, telecommand1, telecommand2,
  distress_nature, end_of_signal, when,
}

-- `,"key":` and `,"key":"` with the rest of a statement.
abbrev pub plain_member : String → Text → Text
plain_member key value = codes ",\"" ++ (codes key ++ (codes "\":" ++ value))

abbrev pub text_member : String → Text → Text
text_member key value = plain_member key (b'"' ∷ (json_escape value ++ codes "\""))

abbrev pub truth : Bool → Text
truth b = if b then codes "true" else codes "false"

-- `%02x` of each byte.
unfoldable pub hex_bytes : List ℕ → Text
hex_bytes [] = []
hex_bytes (b ∷ bs) = hex_digit (b / 16 % 16) ∷ hex_digit (b % 16) ∷ hex_bytes bs

abbrev pub concat : List Text → Text
concat [] = []
concat (t ∷ ts) = t ++ concat ts

-- What each statement appends, in their order.
unfoldable pub identity_statements : Message → List Text
identity_statements m =
    plain_member "frequencyHz" (decimal_int m.frequency_hz)
    ∷ plain_member "valid" (truth m.valid)
    ∷ plain_member "eccOk" (truth m.ecc_ok)
    ∷ plain_member "ecc" (decimal_int (signed_char m.ecc))
    ∷ plain_member "calculatedECC" (decimal_int (signed_char m.calculated_ecc))
    ∷ text_member "formatSpecifier" (format_specifier false m)
    ∷ plain_member "formatSpecifierCode" (decimal m.format_specifier)
    ∷ plain_member "hasAddress" (truth m.has_address)
    ∷ when m.has_address (text_member "address" m.address)
    ∷ when (m.format_specifier == geographic_call && m.has_address) (
        concat (
          plain_member "addressLatitude" (decimal_int m.address_latitude)
          ∷ plain_member "addressLongitude" (decimal_int m.address_longitude)
          ∷ plain_member "addressLatAngle" (decimal_int m.address_lat_angle)
          ∷ plain_member "addressLonAngle" (decimal_int m.address_lon_angle)
          ∷ []))
    ∷ plain_member "hasCategory" (truth m.has_category)
    ∷ when m.has_category (
        concat (
          text_member "category" (category false m)
          ∷ plain_member "categoryCode" (decimal m.category)
          ∷ []))
    ∷ text_member "selfId" m.self_id
    ∷ []

unfoldable pub call_statements : Message → List Text
call_statements m =
    plain_member "hasTelecommand1" (truth m.has_telecommand1)
    ∷ when m.has_telecommand1 (
        concat (
          text_member "telecommand1" (telecommand1 false m.telecommand1)
          ∷ plain_member "telecommand1Code" (decimal m.telecommand1)
          ∷ []))
    ∷ plain_member "hasTelecommand2" (truth m.has_telecommand2)
    ∷ when m.has_telecommand2 (
        concat (
          text_member "telecommand2" (telecommand2 false m.telecommand2)
          ∷ plain_member "telecommand2Code" (decimal m.telecommand2)
          ∷ []))
    ∷ plain_member "hasDistressId" (truth m.has_distress_id)
    ∷ when m.has_distress_id (text_member "distressId" m.distress_id)
    ∷ plain_member "hasDistressNature" (truth m.has_distress_nature)
    ∷ when m.has_distress_nature (
        concat (
          text_member "distressNature" (distress_nature m.distress_nature)
          ∷ plain_member "distressNatureCode" (decimal m.distress_nature)
          ∷ []))
    ∷ plain_member "hasPosition" (truth m.has_position)
    ∷ when m.has_position (text_member "position" m.position)
    ∷ []

unfoldable pub channel_statements : Message → List Text
channel_statements m =
    plain_member "hasFrequency1" (truth m.has_frequency1)
    ∷ when m.has_frequency1 (plain_member "frequency1" (decimal m.frequency1))
    ∷ plain_member "hasChannel1" (truth m.has_channel1)
    ∷ when m.has_channel1 (text_member "channel1" m.channel1)
    ∷ plain_member "hasFrequency2" (truth m.has_frequency2)
    ∷ when m.has_frequency2 (plain_member "frequency2" (decimal m.frequency2))
    ∷ plain_member "hasChannel2" (truth m.has_channel2)
    ∷ when m.has_channel2 (text_member "channel2" m.channel2)
    ∷ []

unfoldable pub closing_statements : Message → List Text
unfolding hex_bytes
closing_statements m =
    plain_member "hasNumber" (truth m.has_number)
    ∷ when m.has_number (text_member "number" m.number)
    ∷ plain_member "hasTime" (truth m.has_time)
    ∷ when m.has_time (text_member "time" m.time)
    ∷ plain_member "hasSubsequenceComms" (truth m.has_subsequence_comms)
    ∷ when m.has_subsequence_comms (
        concat (
          text_member "subsequenceComms" (telecommand1 false m.subsequence_comms)
          ∷ plain_member "subsequenceCommsCode" (decimal m.subsequence_comms)
          ∷ []))
    ∷ text_member "eos" (end_of_signal false m.eos)
    ∷ plain_member "eosCode" (decimal m.eos)
    ∷ plain_member "rawData" (b'"' ∷ (hex_bytes m.data_bytes ++ codes "\""))
    ∷ []

-- `receivedAt` comes first, without a comma.
unfoldable pub to_json : Message → Text
to_json m =
    codes "{\"receivedAt\":\""
    ++ (json_escape m.received_at
        ++ (codes "\""
            ++ (concat (identity_statements m)
                ++ (concat (call_statements m)
                    ++ (concat (channel_statements m)
                        ++ (concat (closing_statements m) ++ codes "}"))))))
