-- ===== src/Tables.antt =====
-- The lookup maps of `DSCMessage` in src/dsc.cpp, from a value to its name, and `find` on them.
-- A `std::map` is an association list; the keys of each map are distinct.
pub mod Values
pub mod Laws
use Prim.Native.String.{String}
use ubersdr_dsc.Base.{ℕ, ◌==◌, Bool, true, false, if◌then◌else◌, Option, none, some, List, [], ◌∷◌}
use Values.{
  geographic_call, distress_alert, group_call, all_ships, selective_call, automatic_call, routine,
  safety, urgency, distress, f3e_g3e_all_modes_tp, f3e_g3e_duplex_tp, polling, unable_to_comply,
  end_of_call, data_command, j3e_tp, distress_acknowledgement, distress_alert_relay,
  f1b_j2b_tty_fec, f1b_j2b_tty_aqr, test, position_update, no_information, no_reason, congestion,
  busy, queue, barred, no_operator, operator_unavailable, equipment_disabled, unable_to_use_channel,
  unable_to_use_mode, not_parties_to_conflict, medical_transports, pay_phone, fax, no_information_2,
  fire, flooding, collision, grounding, listing, sinking, adrift, undesignated, abandoning_ship,
  piracy, man_overboard, epirb, req, ack, eos,
}

-- `map.find(key)`: the value, where the key is there.
unfoldable pub find : ℕ → List (ℕ × String) → Option String
find key [] = none
find key ((k, v) ∷ rest) = if k == key then some v else find key rest

-- `map.find(key) != map.end()`
unfoldable pub contains : ℕ → List (ℕ × String) → Bool
unfolding find
contains key m = elim (find key m) [ none ↦ false | some v ↦ true ]

abbrev pub format_specifier_strings : List (ℕ × String)
format_specifier_strings =
    (geographic_call, "Geographic call")
    ∷ (distress_alert, "Distress alert")
    ∷ (group_call, "Group call")
    ∷ (all_ships, "All ships")
    ∷ (selective_call, "Selective call")
    ∷ (automatic_call, "Automatic call")
    ∷ []

abbrev pub format_specifier_short_strings : List (ℕ × String)
format_specifier_short_strings =
    (geographic_call, "AREA")
    ∷ (distress_alert, "DIS")
    ∷ (group_call, "GRP")
    ∷ (all_ships, "ALL")
    ∷ (selective_call, "SEL")
    ∷ (automatic_call, "AUT")
    ∷ []

abbrev pub category_strings : List (ℕ × String)
category_strings =
    (routine, "Routine") ∷ (safety, "Safety") ∷ (urgency, "Urgency") ∷ (distress, "Distress") ∷ []

abbrev pub category_short_strings : List (ℕ × String)
category_short_strings =
    (routine, "RTN") ∷ (safety, "SAF") ∷ (urgency, "URG") ∷ (distress, "DIS") ∷ []

abbrev pub telecommand1_strings : List (ℕ × String)
telecommand1_strings =
    (f3e_g3e_all_modes_tp, "F3E (FM speech)/G3E (phase modulated speech) all modes telephony")
    ∷ (f3e_g3e_duplex_tp, "F3E (FM speech)/G3E (phase modulated speech) duplex telephony")
    ∷ (polling, "Polling")
    ∷ (unable_to_comply, "Unable to comply")
    ∷ (end_of_call, "End of call")
    ∷ (data_command, "Data")
    ∷ (j3e_tp, "J3E (SSB) telephony")
    ∷ (distress_acknowledgement, "Distress acknowledgement")
    ∷ (distress_alert_relay, "Distress alert relay")
    ∷ (f1b_j2b_tty_fec, "F1B (FSK) J2B (FSK via SSB) TTY FEC")
    ∷ (f1b_j2b_tty_aqr, "F1B (FSK) J2B (FSK via SSB) TTY AQR")
    ∷ (test, "Test")
    ∷ (position_update, "Position update")
    ∷ (no_information, "No information")
    ∷ []

abbrev pub telecommand1_short_strings : List (ℕ × String)
telecommand1_short_strings =
    (f3e_g3e_all_modes_tp, "F3E/G3E")
    ∷ (f3e_g3e_duplex_tp, "F3E/G3E, Duplex TP")
    ∷ (polling, "POLL")
    ∷ (unable_to_comply, "UNABLE TO COMPLY")
    ∷ (end_of_call, "EOC")
    ∷ (data_command, "DATA")
    ∷ (j3e_tp, "J3E TP")
    ∷ (distress_acknowledgement, "DISTRESS ACK")
    ∷ (distress_alert_relay, "DISTRESS RELAY")
    ∷ (f1b_j2b_tty_fec, "F1B/J2B TTY-FEC")
    ∷ (f1b_j2b_tty_aqr, "F1B/J2B TTY-ARQ")
    ∷ (test, "TEST")
    ∷ (position_update, "POSUPD")
    ∷ (no_information, "NOINF")
    ∷ []

abbrev pub telecommand2_strings : List (ℕ × String)
telecommand2_strings =
    (no_reason, "No reason")
    ∷ (congestion, "Congestion at switching centre")
    ∷ (busy, "Busy")
    ∷ (queue, "Queue indication")
    ∷ (barred, "Station barred")
    ∷ (no_operator, "No operator available")
    ∷ (operator_unavailable, "Operator temporarily unavailable")
    ∷ (equipment_disabled, "Equipment disabled")
    ∷ (unable_to_use_channel, "Unable to use proposed channel")
    ∷ (unable_to_use_mode, "Unable to use proposed mode")
    ∷ (not_parties_to_conflict, "Ships and aircraft of States not parties to an armed conflict")
    ∷ (medical_transports, "Medical transports")
    ∷ (pay_phone, "Pay-phone/public call office")
    ∷ (fax, "Facsimile")
    ∷ (no_information_2, "No information")
    ∷ []

abbrev pub telecommand2_short_strings : List (ℕ × String)
telecommand2_short_strings =
    (no_reason, "NO REASON GIVEN")
    ∷ (congestion, "CONGESTION AT MARITIME CENTRE")
    ∷ (busy, "BUSY")
    ∷ (queue, "QUEUE INDICATION")
    ∷ (barred, "STATION BARRED")
    ∷ (no_operator, "NO OPERATOR AVAILABLE")
    ∷ (operator_unavailable, "OPERATOR TEMPORARILY UNAVAILABLE")
    ∷ (equipment_disabled, "EQUIPMENT DISABLED")
    ∷ (unable_to_use_channel, "UNABLE TO USE PROPOSED CHANNEL")
    ∷ (unable_to_use_mode, "UNABLE TO USE PROPOSED MODE")
    ∷ (not_parties_to_conflict, "SHIPS/AIRCRAFT OF STATES NOT PARTIES TO ARMED CONFLICT")
    ∷ (medical_transports, "MEDICAL TRANSPORTS")
    ∷ (pay_phone, "PAY-PHONE/PUBLIC CALL OFFICE")
    ∷ (fax, "FAX/DATA ACCORDING ITU-R M1081")
    ∷ (no_information_2, "NOINF")
    ∷ []

abbrev pub distress_nature_strings : List (ℕ × String)
distress_nature_strings =
    (fire, "Fire, explosion")
    ∷ (flooding, "Flooding")
    ∷ (collision, "Collision")
    ∷ (grounding, "Grounding")
    ∷ (listing, "Listing")
    ∷ (sinking, "Sinking")
    ∷ (adrift, "Adrift")
    ∷ (undesignated, "Undesignated")
    ∷ (abandoning_ship, "Abandoning ship")
    ∷ (piracy, "Piracy, armed attack")
    ∷ (man_overboard, "Man overboard")
    ∷ (epirb, "EPIRB")
    ∷ []

abbrev pub end_of_signal_strings : List (ℕ × String)
end_of_signal_strings = (req, "Req ACK") ∷ (ack, "ACK") ∷ (eos, "EOS") ∷ []

abbrev pub end_of_signal_short_strings : List (ℕ × String)
end_of_signal_short_strings = (req, "REQ") ∷ (ack, "ACK") ∷ (eos, "EOS") ∷ []

-- `DSCMessage::isEndOfSignal`
unfoldable pub is_end_of_signal : ℕ → Bool
unfolding contains
is_end_of_signal value = contains value end_of_signal_strings
