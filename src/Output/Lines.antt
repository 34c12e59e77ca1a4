-- ===== src/Output/Lines.antt =====
-- `toString` and `toYaddNetFormat` of src/dsc.cpp.
use ubersdr_dsc.Base.{ℕ, ◌==◌, true, false, ◌&&◌, if◌then◌else◌, ltb, List, [], ◌∷◌, ◌++◌}
use ubersdr_dsc.Base.Int.{ℤ, magnitude, is_nonneg}
use ubersdr_dsc.Base.Text.{Text, codes}
use ubersdr_dsc.Message.{Message}
use ubersdr_dsc.Tables.Values.{geographic_call}
use ubersdr_dsc.Output.{
  signed_char, decimal, decimal_int, format_specifier, category, telecommand1, telecommand2,
  distress_nature, end_of_signal, when, join,
}

-- A line with a label.
abbrev line : Text → Text → List Text
line label value = (label ++ value) ∷ []

abbrev distress_lines : Message → List Text
distress_lines m =
    line (codes "Distress nature: ") (distress_nature m.distress_nature)
    ++ line (codes "Distress coordinates: ") m.position

pub lines_of : Message → List Text
lines_of m =
    line (codes "Format specifier: ") (format_specifier false m)
    ++ (when m.has_address (line (codes "Address: ") m.address)
        ++ (when m.has_category (line (codes "Category: ") (category false m))
            ++ (line (codes "Self Id: ") m.self_id
                ++ (when m.has_telecommand1
                      (line (codes "Telecommand 1: ") (telecommand1 false m.telecommand1))
                    ++ (when m.has_telecommand2
                          (line (codes "Telecommand 2: ") (telecommand2 false m.telecommand2))
                        ++ (when m.has_distress_id (line (codes "Distress Id: ") m.distress_id)
                            ++ ((if m.has_distress_nature
                                  then distress_lines m
                                  else when m.has_position (line (codes "Position: ") m.position))
                                ++ (when m.has_frequency1 (
                                      line (codes "RX Frequency: ")
                                        (decimal m.frequency1 ++ codes "Hz"))
                                    ++ (when m.has_channel1 (line (codes "RX Channel: ") m.channel1)
                                        ++ (when m.has_frequency2 (
                                              line (codes "TX Frequency: ")
                                                (decimal m.frequency2 ++ codes "Hz"))
                                            ++ (when m.has_channel2
                                                  (line (codes "TX Channel: ") m.channel2)
                                                ++ (when m.has_number
                                                      (line (codes "Phone Number: ") m.number)
                                                    ++ (when m.has_time
                                                          (line (codes "Time: ") m.time)
                                                        ++ when m.has_subsequence_comms (
                                                            line (codes "Subsequent comms: ") (
                                                            telecommand1 false
                                                            m.subsequence_comms)))))))))))))))

pub to_string : Text → Message → Text
unfolding lines_of join
to_string separator m = join separator (lines_of m)

-- printf with floating-point numbers: `%.1f` of a float divided by 1000.0f, `%07.1f` of a double
-- divided by 1000.0.
pub record Formats : Type 0 where
  pub kilohertz : ℤ → Text
  pub padded_kilohertz : ℕ → Text

-- `%02d` and `%03d`.
abbrev at_least_two : ℤ → Text
at_least_two n = if is_nonneg n && ltb (magnitude n) 10 then b'0' ∷ decimal_int n else decimal_int n

abbrev at_least_three : ℤ → Text
at_least_three n =
    if is_nonneg n && ltb (magnitude n) 100 then b'0' ∷ at_least_two n else decimal_int n

abbrev pub degree : Text
degree = 0xC2 ∷ 0xB0 ∷ []

pub area_text : Message → Text
area_text m =
    let lat : ℤ = ℤ.pos (magnitude m.address_latitude) in
    let lon : ℤ = ℤ.pos (magnitude m.address_longitude) in
    let ns : ℕ = if is_nonneg m.address_latitude then b'N' else b'S' in
    let ew : ℕ = if is_nonneg m.address_longitude then b'E' else b'W' in
    codes "AREA "
    ++ (at_least_two lat
        ++ (degree
            ++ (ns
                ∷ (codes "=>"
                    ++ (at_least_two m.address_lat_angle
                        ++ (degree
                            ++ (b' '
                                ∷ (at_least_three lon
                                    ++ (degree
                                        ++ (ew
                                            ∷ (codes "=>"
                                                ++ (at_least_two m.address_lon_angle
                                                    ++ degree))))))))))))

pub yadd_address : Message → Text
unfolding area_text
yadd_address m =
    if m.has_address
    then if m.format_specifier == geographic_call then area_text m else m.address
    else []

pub yadd_frequency : Formats → Message → Text
yadd_frequency formats m =
    if m.has_frequency1 && m.has_frequency2
    then formats.padded_kilohertz m.frequency1
      ++ (b'/' ∷ formats.padded_kilohertz m.frequency2 ++ codes "KHz")
    else if m.has_frequency1
    then formats.padded_kilohertz m.frequency1 ++ codes "KHz"
    else if m.has_frequency2
    then formats.padded_kilohertz m.frequency2 ++ codes "KHz"
    else if m.has_channel1 && m.has_channel2
    then m.channel1 ++ (b'/' ∷ m.channel2)
    else if m.has_channel1
    then m.channel1
    else if m.has_channel2
    then m.channel2
    else codes "--"

pub yadd_fields : Formats → Text → ℤ → Message → List Text
unfolding yadd_address yadd_frequency
yadd_fields formats id frequency m =
    (b'[' ∷ id ++ codes "]")
    ∷ formats.kilohertz frequency
    ∷ format_specifier true m
    ∷ yadd_address m
    ∷ category true m
    ∷ m.self_id
    ∷ (if m.has_telecommand1 then telecommand1 true m.telecommand1 else codes "--")
    ∷ (if m.has_telecommand2 then telecommand2 true m.telecommand2 else codes "--")
    ∷ yadd_frequency formats m
    ∷ (if m.has_position then m.position else codes "--")
    ∷ end_of_signal true m.eos
    ∷ (codes "ECC "
        ++ (decimal_int (signed_char m.calculated_ecc)
            ++ (b' ' ∷ (if m.ecc_ok then codes "OK" else codes "ERR"))))
    ∷ []

pub to_yadd_net_format : Formats → Text → ℤ → Message → Text
unfolding yadd_fields join
to_yadd_net_format formats id frequency m = join (codes ";") (yadd_fields formats id frequency m)
