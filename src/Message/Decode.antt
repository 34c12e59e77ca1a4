-- ===== src/Message/Decode.antt =====
-- `DSCMessage::decode` of src/dsc.cpp as a whole, and the constructor that calls it.
use ubersdr_dsc.Base.{ℕ, List}
use ubersdr_dsc.Base.Text.{Text}
use ubersdr_dsc.Base.Result.{Result, ok, ◌>>=◌}
use ubersdr_dsc.Message.{Message, initial}
use ubersdr_dsc.Message.Head.{
  Cursor, decode_format, decode_address, decode_self_id, decode_telecommands, decode_distress_id,
}
use ubersdr_dsc.Message.Body.{
  decode_payload, decode_number, decode_time, decode_subsequence_comms, decode_end,
  is_valid_message,
}

unfoldable pub decode : List ℕ → Message → Result Message
decode bytes m = do
  let start : Cursor = record { idx = 0; message = m }
  format ← decode_format bytes start
  address ← decode_address bytes format
  self_id ← decode_self_id bytes address
  telecommands ← decode_telecommands bytes self_id
  distress_id ← decode_distress_id bytes telecommands
  payload ← decode_payload bytes distress_id
  number ← decode_number bytes payload
  time ← decode_time bytes number
  comms ← decode_subsequence_comms bytes time
  read ← decode_end bytes comms
  ok (record read { valid = is_valid_message bytes read })

-- `DSCMessage(data, timestamp)`.
unfoldable pub dsc_message : (ℕ → Text) → List ℕ → ℕ → Result Message
unfolding decode
dsc_message time_to_iso8601 bytes timestamp =
    decode bytes (initial bytes (time_to_iso8601 timestamp))
