-- ===== src/Tables/Values.antt =====
-- The enumerations of `DSCMessage` in src/dsc.h. A byte is cast to an enumeration whatever its
-- value, so an enumeration is the numbers, and its enumerators are names for some of them.
use Prim.Native.Nat.{ℕ}

-- `enum FormatSpecifier`
abbrev pub geographic_call : ℕ
geographic_call = 102

abbrev pub distress_alert : ℕ
distress_alert = 112

abbrev pub group_call : ℕ
group_call = 114

abbrev pub all_ships : ℕ
all_ships = 116

abbrev pub selective_call : ℕ
selective_call = 120

abbrev pub automatic_call : ℕ
automatic_call = 123

-- `enum Category`
abbrev pub routine : ℕ
routine = 100

abbrev pub safety : ℕ
safety = 108

abbrev pub urgency : ℕ
urgency = 110

abbrev pub distress : ℕ
distress = 112

-- `enum FirstTelecommand`
abbrev pub f3e_g3e_all_modes_tp : ℕ
f3e_g3e_all_modes_tp = 100

abbrev pub f3e_g3e_duplex_tp : ℕ
f3e_g3e_duplex_tp = 101

abbrev pub polling : ℕ
polling = 103

abbrev pub unable_to_comply : ℕ
unable_to_comply = 104

abbrev pub end_of_call : ℕ
end_of_call = 105

abbrev pub data_command : ℕ
data_command = 106

abbrev pub j3e_tp : ℕ
j3e_tp = 109

abbrev pub distress_acknowledgement : ℕ
distress_acknowledgement = 110

abbrev pub distress_alert_relay : ℕ
distress_alert_relay = 112

abbrev pub f1b_j2b_tty_fec : ℕ
f1b_j2b_tty_fec = 113

abbrev pub f1b_j2b_tty_aqr : ℕ
f1b_j2b_tty_aqr = 115

abbrev pub test : ℕ
test = 118

abbrev pub position_update : ℕ
position_update = 121

abbrev pub no_information : ℕ
no_information = 126

-- `enum SecondTelecommand`
abbrev pub no_reason : ℕ
no_reason = 100

abbrev pub congestion : ℕ
congestion = 101

abbrev pub busy : ℕ
busy = 102

abbrev pub queue : ℕ
queue = 103

abbrev pub barred : ℕ
barred = 104

abbrev pub no_operator : ℕ
no_operator = 105

abbrev pub operator_unavailable : ℕ
operator_unavailable = 106

abbrev pub equipment_disabled : ℕ
equipment_disabled = 107

abbrev pub unable_to_use_channel : ℕ
unable_to_use_channel = 108

abbrev pub unable_to_use_mode : ℕ
unable_to_use_mode = 109

abbrev pub not_parties_to_conflict : ℕ
not_parties_to_conflict = 110

abbrev pub medical_transports : ℕ
medical_transports = 111

abbrev pub pay_phone : ℕ
pay_phone = 112

abbrev pub fax : ℕ
fax = 113

abbrev pub no_information_2 : ℕ
no_information_2 = 126

-- `enum DistressNature`
abbrev pub fire : ℕ
fire = 100

abbrev pub flooding : ℕ
flooding = 101

abbrev pub collision : ℕ
collision = 102

abbrev pub grounding : ℕ
grounding = 103

abbrev pub listing : ℕ
listing = 104

abbrev pub sinking : ℕ
sinking = 105

abbrev pub adrift : ℕ
adrift = 106

abbrev pub undesignated : ℕ
undesignated = 107

abbrev pub abandoning_ship : ℕ
abandoning_ship = 108

abbrev pub piracy : ℕ
piracy = 109

abbrev pub man_overboard : ℕ
man_overboard = 110

abbrev pub epirb : ℕ
epirb = 112

-- `enum EndOfSignal`
abbrev pub req : ℕ
req = 117

abbrev pub ack : ℕ
ack = 122

abbrev pub eos : ℕ
eos = 127
