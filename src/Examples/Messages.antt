-- ===== src/Examples/Messages.antt =====
-- Runs of the reading of a message on concrete bytes.
use ubersdr_dsc.Base.{◌≡◌, ◌≢◌, some, map, refl, arith, [], ◌∷◌, ◌++◌}
use ubersdr_dsc.Base.Text.{codes}
use ubersdr_dsc.Base.Result.{ok}
use ubersdr_dsc.Message.Bounds.{Good}
use ubersdr_dsc.Message.Decode.{dsc_message}
use ubersdr_dsc.Message.Digits.{format_coordinates, calculate_ecc, degrees_minutes}
use ubersdr_dsc.Message.Ecc.{one_wrong_byte_detected}
use ubersdr_dsc.Message.Needs.{dsc_message-Good, Lacking, Enough}
use ubersdr_dsc.Message.Position.{format_coordinates_ignores_longitude}
use ubersdr_dsc.Stations.{coast_stations, find_station}
use ubersdr_dsc.Stations.Laws.{IsCoastStation, find_station-IsCoastStation}
use ubersdr_dsc.Escape.{json_escape}
use ubersdr_dsc.Escape.Laws.{plain, unescape, unescape-json_escape}
use ubersdr_dsc.Message.{Message, initial}
use ubersdr_dsc.Output.Json.{to_json}
use ubersdr_dsc.Output.Reader.{string, read_object}
use ubersdr_dsc.Output.Members.{identity_members, call_members, channel_members, closing_members}
use ubersdr_dsc.Output.Roundtrip.{keyed, read_object-to_json}
use ubersdr_dsc.Examples.{alert_bytes, any_time}

dsc_message-Good_example :
    Good (Lacking alert_bytes) (λ m. Enough alert_bytes) (dsc_message any_time alert_bytes 0)
dsc_message-Good_example = dsc_message-Good any_time alert_bytes 0

three_bytes : calculate_ecc (112 ∷ 5 ∷ 6 ∷ 7 ∷ 4 ∷ []) ≡ 4
unfolding calculate_ecc
three_bytes = refl

one_wrong_byte_detected_example : calculate_ecc (112 ∷ 5 ∷ 8 ∷ 7 ∷ 4 ∷ []) ≢ 4
one_wrong_byte_detected_example =
    one_wrong_byte_detected 112 4 6 8 (5 ∷ []) (7 ∷ []) (omega arith) three_bytes

-- 51°23'N 001°23'W
format_coordinates_ignores_longitude_example :
    format_coordinates (codes "1512300123")
    ≡ ok (
        degrees_minutes (codes "51") (codes "23") (codes "N")
        ++ b' ' ∷ degrees_minutes (codes "512") (codes "30") (codes "W"))
format_coordinates_ignores_longitude_example =
    format_coordinates_ignores_longitude b'1' b'5' b'1' b'2' b'3' b'0' (codes "0123") (omega arith)

aberdeen : find_station (codes "002320004") coast_stations ≡ some "ABERDEEN"
unfolding find_station
aberdeen = refl

find_station-IsCoastStation_example : IsCoastStation (codes "002320004")
find_station-IsCoastStation_example =
    find_station-IsCoastStation (codes "002320004") "ABERDEEN" aberdeen

unescape-json_escape_example :
    unescape plain (json_escape (10 ∷ 1 ∷ codes "a\"b")) ≡ some (10 ∷ 1 ∷ codes "a\"b")
unescape-json_escape_example = unescape-json_escape (10 ∷ 1 ∷ codes "a\"b")

abbrev blank_alert : Message
blank_alert = initial alert_bytes (codes "2024-05-01T12:00:00Z")

read_object-to_json_example :
    read_object (to_json blank_alert)
    ≡ some (
        map keyed (
          ("receivedAt", string blank_alert.received_at)
          ∷ (identity_members blank_alert
              ++ (call_members blank_alert
                  ++ (channel_members blank_alert ++ closing_members blank_alert)))))
read_object-to_json_example = read_object-to_json blank_alert
