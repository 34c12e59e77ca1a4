-- ===== src/Message/Head.antt =====
-- The first half of `DSCMessage::decode` of src/dsc.cpp, up to the id of the source of distress.
-- Each part reads at the index where the one before it stopped, and sets the fields that it reads.
use ubersdr_dsc.Base.{ℕ, ◌+◌, ◌==◌, ◌!=◌, if◌then◌else◌, Bool, true, false, ◌&&◌, ◌||◌, List, ◌++◌}
use ubersdr_dsc.Base.Int.{ℤ, pos, neg, sub_ℕ, ◌+ℤ◌, ◌*ℤ◌}
use ubersdr_dsc.Base.Text.{Text, codes}
use ubersdr_dsc.Base.Result.{Result, ok, ◌>>=◌}
use ubersdr_dsc.Tables.Values.{distress_alert, all_ships, selective_call, geographic_call, distress}
use ubersdr_dsc.Message.{Message}
use ubersdr_dsc.Message.Digits.{
  byte, char_at, symbols_to_digits, format_area_corner, format_address,
}

-- The index and the fields read so far.
pub record Cursor : Type 0 where
  pub idx : ℕ
  pub message : Message

-- Format specifier.
unfoldable pub decode_format : List ℕ → Cursor → Result Cursor
decode_format bytes c = do
  a ← byte bytes c.idx
  b ← byte bytes (c.idx + 1)
  ok (record {
    idx = c.idx + 2;
    message = record c.message { format_specifier = a; format_specifier_match = a == b };
  })

-- `m_address[i] - '0'`
abbrev pub digit_at : Text → ℕ → Result ℤ
digit_at s i = char_at s i >>= λ c. ok (sub_ℕ c b'0')

-- Numbers of two and of three digits of the address.
abbrev pub two_at : Text → ℕ → Result ℤ
two_at s i = do a ← digit_at s i; b ← digit_at s (i + 1); ok (a *ℤ pos 10 +ℤ b)

abbrev pub three_at : Text → ℕ → Result ℤ
three_at s i = do
  a ← digit_at s i
  b ← digit_at s (i + 1)
  c ← digit_at s (i + 2)
  ok (a *ℤ pos 100 +ℤ b *ℤ pos 10 +ℤ c)

-- The signs of the azimuth sector.
abbrev is_south : ℕ → Bool
is_south sector = sector == b'2' || sector == b'3'

abbrev is_west : ℕ → Bool
is_west sector = sector == b'1' || sector == b'3'

-- The area of a geographic call.
unfoldable pub decode_area : Text → Message → Result Message
decode_area address m = do
  sector ← char_at address 0
  lat ← two_at address 1
  lon ← three_at address 3
  lat_angle ← two_at address 6
  lon_angle ← two_at address 8
  let latitude = if is_south sector then neg lat else lat
  let longitude = if is_west sector then neg lon else lon
  ok (record m {
    address =
        format_area_corner latitude longitude
        ++ codes " - "
        ++ format_area_corner (latitude +ℤ lat_angle) (longitude +ℤ lon_angle);
    address_latitude = latitude;
    address_longitude = longitude;
    address_lat_angle = lat_angle;
    address_lon_angle = lon_angle;
  })

abbrev pub set_address : Message → Result Text → Result Message
set_address m s = s >>= λ t. ok (record m { address = t })

-- What becomes of the digits of an address.
abbrev pub by_format : Text → Message → Result Message
by_format address m =
    if m.format_specifier == selective_call
    then set_address m (format_address address)
    else if m.format_specifier == geographic_call
    then decode_area address m
    else ok (record m { address = address })

abbrev pub read_address : List ℕ → Cursor → Result Cursor
read_address bytes c = do
  digits ← symbols_to_digits bytes c.idx 5
  m ← by_format digits (record c.message { address = digits; has_address = true })
  ok (record { idx = c.idx + 5; message = m })

abbrev pub read_category : List ℕ → Cursor → Result Cursor
read_category bytes c = do
  b ← byte bytes c.idx
  ok (record { idx = c.idx + 1; message = record c.message { category = b; has_category = true } })

-- Address and category.
unfoldable pub decode_address : List ℕ → Cursor → Result Cursor
decode_address bytes c =
    let m = c.message in
    if m.format_specifier != distress_alert
    then ((if m.format_specifier != all_ships
          then read_address bytes c
          else ok (record c { message = record m { has_address = false } }))
        >>= read_category bytes)
    else ok (record c { message = record m { has_address = false; has_category = true } })

-- Self id.
unfoldable pub decode_self_id : List ℕ → Cursor → Result Cursor
decode_self_id bytes c = do
  digits ← symbols_to_digits bytes c.idx 5
  self_id ← format_address digits
  ok (record { idx = c.idx + 5; message = record c.message { self_id = self_id } })

abbrev pub read_telecommand2 : List ℕ → Cursor → Result Cursor
read_telecommand2 bytes c = do
  b ← byte bytes c.idx
  ok (record {
    idx = c.idx + 1;
    message = record c.message { telecommand2 = b; has_telecommand2 = true };
  })

abbrev pub read_telecommands : List ℕ → Cursor → Result Cursor
read_telecommands bytes c = do
  a ← byte bytes c.idx
  let d : Cursor = record {
    idx = c.idx + 1;
    message = record c.message { telecommand1 = a; has_telecommand1 = true };
  }
  if c.message.category != distress
      then read_telecommand2 bytes d
      else ok (record d { message = record d.message { has_telecommand2 = false } })

-- Telecommands.
unfoldable pub decode_telecommands : List ℕ → Cursor → Result Cursor
decode_telecommands bytes c =
    if c.message.format_specifier != distress_alert
    then read_telecommands bytes c
    else ok (record c {
      message = record c.message { has_telecommand1 = false; has_telecommand2 = false };
    })

-- `m_hasCategory && m_category == DISTRESS`
abbrev pub in_distress : Message → Bool
in_distress m = m.has_category && m.category == distress

abbrev pub read_distress_id : List ℕ → Cursor → Result Cursor
read_distress_id bytes c = do
  digits ← symbols_to_digits bytes c.idx 5
  id ← format_address digits
  ok (record {
    idx = c.idx + 5;
    message = record c.message { distress_id = id; has_distress_id = true };
  })

-- Id of the source of distress, for relays and acknowledgements.
unfoldable pub decode_distress_id : List ℕ → Cursor → Result Cursor
decode_distress_id bytes c =
    if in_distress c.message
    then read_distress_id bytes c
    else ok (record c { message = record c.message { has_distress_id = false } })
