-- ===== src/Output/Members.antt =====
-- The members of the object that `toJson` of src/dsc.cpp writes, as keys with values.
use Prim.Native.String.{String}
use ubersdr_dsc.Base.{
  ℕ, ◌==◌, ◌≡◌, refl, ap, sym, subst, ◌∙◌, ltb, Bool, true, false, ◌&&◌, ◌||◌, not, List, [], ◌∷◌,
  ◌++◌, map, All, All-append,
}
use mathlib.Core.List.{append_assoc}
use ubersdr_dsc.Base.Text.{Text, codes, is_empty}
use ubersdr_dsc.Base.Int.{ℤ}
use ubersdr_dsc.Escape.{json_escape}
use ubersdr_dsc.Message.{Message}
use ubersdr_dsc.Tables.Values.{geographic_call}
use ubersdr_dsc.Output.{
  decimal, decimal_int, signed_char, format_specifier, category, telecommand1, telecommand2,
  distress_nature, end_of_signal, when,
}
use ubersdr_dsc.Output.Json.{plain_member, truth, hex_bytes, concat}
use ubersdr_dsc.Output.Reader.{Value, string, number, boolean, is_digit}

abbrev pub Member : Type 0
Member = String × Value

abbrev pub num : String → ℕ → Member
num key n = (key, number (decimal n))

abbrev pub int : String → ℤ → Member
int key n = (key, number (decimal_int n))

abbrev pub flag : String → Bool → Member
flag key b = (key, boolean b)

abbrev pub text : String → Text → Member
text key s = (key, string s)

abbrev pub area_members : Message → List Member
area_members m =
    int "addressLatitude" m.address_latitude
    ∷ int "addressLongitude" m.address_longitude
    ∷ int "addressLatAngle" m.address_lat_angle
    ∷ int "addressLonAngle" m.address_lon_angle
    ∷ []

abbrev pub identity_members : Message → List Member
identity_members m =
    int "frequencyHz" m.frequency_hz
    ∷ flag "valid" m.valid
    ∷ flag "eccOk" m.ecc_ok
    ∷ int "ecc" (signed_char m.ecc)
    ∷ int "calculatedECC" (signed_char m.calculated_ecc)
    ∷ text "formatSpecifier" (format_specifier false m)
    ∷ num "formatSpecifierCode" m.format_specifier
    ∷ flag "hasAddress" m.has_address
    ∷ (when m.has_address (text "address" m.address ∷ [])
        ++ (when (m.format_specifier == geographic_call && m.has_address) (area_members m)
            ++ (flag "hasCategory" m.has_category
                ∷ (when m.has_category
                      (text "category" (category false m) ∷ num "categoryCode" m.category ∷ [])
                    ++ (text "selfId" m.self_id ∷ [])))))

abbrev pub call_members : Message → List Member
call_members m =
    flag "hasTelecommand1" m.has_telecommand1
    ∷ (when m.has_telecommand1 (
          text "telecommand1" (telecommand1 false m.telecommand1)
          ∷ num "telecommand1Code" m.telecommand1
          ∷ [])
        ++ (flag "hasTelecommand2" m.has_telecommand2
            ∷ (when m.has_telecommand2 (
                  text "telecommand2" (telecommand2 false m.telecommand2)
                  ∷ num "telecommand2Code" m.telecommand2
                  ∷ [])
                ++ (flag "hasDistressId" m.has_distress_id
                    ∷ (when m.has_distress_id (text "distressId" m.distress_id ∷ [])
                        ++ (flag "hasDistressNature" m.has_distress_nature
                            ∷ (when m.has_distress_nature (
                                  text "distressNature" (distress_nature m.distress_nature)
                                  ∷ num "distressNatureCode" m.distress_nature
                                  ∷ [])
                                ++ (flag "hasPosition" m.has_position
                                    ∷ (when m.has_position (text "position" m.position ∷ [])
                                        ++ [])))))))))

abbrev pub channel_members : Message → List Member
channel_members m =
    flag "hasFrequency1" m.has_frequency1
    ∷ (when m.has_frequency1 (num "frequency1" m.frequency1 ∷ [])
        ++ (flag "hasChannel1" m.has_channel1
            ∷ (when m.has_channel1 (text "channel1" m.channel1 ∷ [])
                ++ (flag "hasFrequency2" m.has_frequency2
                    ∷ (when m.has_frequency2 (num "frequency2" m.frequency2 ∷ [])
                        ++ (flag "hasChannel2" m.has_channel2
                            ∷ (when m.has_channel2 (text "channel2" m.channel2 ∷ []) ++ [])))))))

abbrev pub closing_members : Message → List Member
closing_members m =
    flag "hasNumber" m.has_number
    ∷ (when m.has_number (text "number" m.number ∷ [])
        ++ (flag "hasTime" m.has_time
            ∷ (when m.has_time (text "time" m.time ∷ [])
                ++ (flag "hasSubsequenceComms" m.has_subsequence_comms
                    ∷ (when m.has_subsequence_comms (
                          text "subsequenceComms" (telecommand1 false m.subsequence_comms)
                          ∷ num "subsequenceCommsCode" m.subsequence_comms
                          ∷ [])
                        ++ (text "eos" (end_of_signal false m.eos)
                            ∷ num "eosCode" m.eos
                            ∷ text "rawData" (hex_bytes m.data_bytes)
                            ∷ []))))))

-- A member as it is written, after a comma.
abbrev pub print_value : Value → Text
print_value (string s) = b'"' ∷ (json_escape s ++ codes "\"")
print_value (number t) = t
print_value (boolean b) = truth b

abbrev pub print_member : Member → Text
print_member (key, v) = plain_member key (print_value v)

abbrev pub print_members : List Member → Text
print_members [] = []
print_members (m ∷ ms) = print_member m ++ print_members ms

-- Characters that stand for themselves in a JSON string.
abbrev pub is_plain : ℕ → Bool
is_plain c = not (c == b'"' || (c == b'\\' || ltb c 0x20))

abbrev pub all_plain : Text → Bool
all_plain [] = true
all_plain (c ∷ s) = is_plain c && all_plain s

abbrev pub all_digits : Text → Bool
all_digits [] = true
all_digits (c ∷ s) = is_digit c && all_digits s

abbrev pub is_unsigned : Text → Bool
is_unsigned t = not (is_empty t) && all_digits t

-- One digit or more, perhaps after a minus sign.
abbrev pub is_numeral : Text → Bool
is_numeral [] = false
is_numeral (c ∷ s) = is_unsigned (c ∷ s) || (c == b'-' && is_unsigned s)

abbrev pub IsCleanValue : Value → Type 0
IsCleanValue (string s) = Unit
IsCleanValue (number t) = is_numeral t ≡ true
IsCleanValue (boolean b) = Unit

-- A member that a reader takes back: a key that needs no escapes, and a number of digits.
abbrev pub IsClean : Member → Type 0
IsClean (key, v) = (all_plain (codes key) ≡ true) × IsCleanValue v

-- Statements that write some members.
pub record Shows (texts : List Text) (ms : List Member) : Type 0 where
  pub printed : concat texts ≡ print_members ms
  pub all_clean : All IsClean ms

pub print_members-append :
    (ms ns : List Member) → print_members (ms ++ ns) ≡ print_members ms ++ print_members ns
print_members-append [] ns = refl
print_members-append (m ∷ ms) ns =
    ap (λ t. print_member m ++ t) (print_members-append ms ns)
    ∙ sym (append_assoc (print_member m) (print_members ms) (print_members ns))

pub Shows-none : Shows [] []
Shows-none = record { printed = refl; all_clean = tt }

-- A statement for one member.
module _ (f : Member) (clean : IsClean f) {texts : List Text} {ms : List Member}
    (rest : Shows texts ms) where
  pub Shows-one : Shows (print_member f ∷ texts) (f ∷ ms)
  Shows-one = record {
    printed = ap (λ t. print_member f ++ t) rest.printed;
    all_clean = (clean, rest.all_clean);
  }

  pub Shows-as : (t : Text) → t ≡ print_member f → Shows (t ∷ texts) (f ∷ ms)
  Shows-as t e = subst (λ (u : Text). Shows (u ∷ texts) (f ∷ ms)) (sym e) Shows-one

  pub Shows-when : (b : Bool) → Shows (when b (print_member f) ∷ texts) (when b (f ∷ []) ++ ms)
  Shows-when true = Shows-one
  Shows-when false = record { printed = rest.printed; all_clean = rest.all_clean }

concat-map : (fs : List Member) → concat (map print_member fs) ≡ print_members fs
concat-map [] = refl
concat-map (f ∷ fs) = ap (λ t. print_member f ++ t) (concat-map fs)

-- A statement, or several under one condition, for several members.
pub Shows-All :
    (b : Bool) (fs : List Member)
    → All IsClean fs
    → {texts : List Text} {ms : List Member} → Shows texts ms
    → Shows (when b (concat (map print_member fs)) ∷ texts) (when b fs ++ ms)
Shows-All true fs clean {texts} {ms} rest = record {
  printed =
      ap (λ t. t ++ concat texts) (concat-map fs)
      ∙ ap (λ t. print_members fs ++ t) rest.printed
      ∙ sym (print_members-append fs ms);
  all_clean = All-append IsClean fs ms clean rest.all_clean;
}
Shows-All false fs clean rest = record { printed = rest.printed; all_clean = rest.all_clean }
