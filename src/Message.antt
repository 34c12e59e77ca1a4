-- ===== src/Message.antt =====
-- `DSCMessage` of src/dsc.h and src/dsc.cpp: the fields of a message, and how they start.
-- A byte is a number below 256, a `signed char` its bit pattern, a `std::string` its bytes.
pub mod Digits
pub mod Frequency
pub mod Head
pub mod Body
pub mod Decode
pub mod Bounds
pub mod Length
pub mod Stages
pub mod FrequencyLength
pub mod Ending
pub mod Numbering
pub mod Needs
pub mod Short
pub mod Ecc
pub mod Position
use ubersdr_dsc.Base.{ℕ, Bool, false, List, []}
use ubersdr_dsc.Base.Int.{ℤ, pos}
use ubersdr_dsc.Base.Text.{Text}
use ubersdr_dsc.Tables.Values.{
  selective_call, routine, no_information, no_information_2, undesignated, eos,
}

pub record Message : Type 0 where
  pub format_specifier : ℕ
  pub format_specifier_match : Bool
  pub address : Text
  pub has_address : Bool
  pub address_latitude : ℤ
  pub address_longitude : ℤ
  pub address_lat_angle : ℤ
  pub address_lon_angle : ℤ
  pub category : ℕ
  pub has_category : Bool
  pub self_id : Text
  pub telecommand1 : ℕ
  pub has_telecommand1 : Bool
  pub telecommand2 : ℕ
  pub has_telecommand2 : Bool
  pub distress_id : Text
  pub has_distress_id : Bool
  pub distress_nature : ℕ
  pub has_distress_nature : Bool
  pub position : Text
  pub has_position : Bool
  pub frequency1 : ℕ
  pub has_frequency1 : Bool
  pub channel1 : Text
  pub has_channel1 : Bool
  pub frequency2 : ℕ
  pub has_frequency2 : Bool
  pub channel2 : Text
  pub has_channel2 : Bool
  pub number : Text
  pub has_number : Bool
  pub time : Text
  pub has_time : Bool
  pub subsequence_comms : ℕ
  pub has_subsequence_comms : Bool
  pub eos : ℕ
  pub ecc : ℕ
  pub calculated_ecc : ℕ
  pub ecc_ok : Bool
  pub valid : Bool
  pub received_at : Text
  pub frequency_hz : ℤ
  pub data_bytes : List ℕ

-- The constructor's initialisers; `received_at` is what `timeToISO8601` (gmtime and strftime of the
-- C library) makes of the time of reception.
abbrev pub initial : List ℕ → Text → Message
initial bytes received_at = record {
  format_specifier = selective_call;
  format_specifier_match = false;
  address = [];
  has_address = false;
  address_latitude = pos 0;
  address_longitude = pos 0;
  address_lat_angle = pos 0;
  address_lon_angle = pos 0;
  category = routine;
  has_category = false;
  self_id = [];
  telecommand1 = no_information;
  has_telecommand1 = false;
  telecommand2 = no_information_2;
  has_telecommand2 = false;
  distress_id = [];
  has_distress_id = false;
  distress_nature = undesignated;
  has_distress_nature = false;
  position = [];
  has_position = false;
  frequency1 = 0;
  has_frequency1 = false;
  channel1 = [];
  has_channel1 = false;
  frequency2 = 0;
  has_frequency2 = false;
  channel2 = [];
  has_channel2 = false;
  number = [];
  has_number = false;
  time = [];
  has_time = false;
  subsequence_comms = no_information;
  has_subsequence_comms = false;
  eos = eos;
  ecc = 0;
  calculated_ecc = 0;
  ecc_ok = false;
  valid = false;
  received_at = received_at;
  frequency_hz = pos 0;
  data_bytes = bytes;
}
