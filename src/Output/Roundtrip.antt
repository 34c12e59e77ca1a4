-- ===== src/Output/Roundtrip.antt =====
-- What `toJson` of src/dsc.cpp writes, read back.
use ubersdr_dsc.Base.{
  ℕ, zero, suc, ◌<◌, ◌≤◌, ◌≡◌, refl, ap, sym, ◌∙◌, arith, false, Option, some, List, [], ◌∷◌, ◌++◌,
  map, All, All-append, length, length-append,
}
use mathlib.Core.List.{append_assoc}
use ubersdr_dsc.Base.Text.{Text, codes}
use ubersdr_dsc.Escape.{json_escape}
use ubersdr_dsc.Message.{Message}
use ubersdr_dsc.Output.Json.{
  concat, to_json, identity_statements, call_statements, channel_statements, closing_statements,
}
use ubersdr_dsc.Output.Reader.{
  string, Field, is_digit, read_member, read_members, read_object, ◌>>=◌,
}
use ubersdr_dsc.Output.Members.{
  Member, print_value, print_member, print_members, IsClean, Shows, print_members-append,
  identity_members, call_members, channel_members, closing_members,
}
use ubersdr_dsc.Output.Shown.{identity-Shows, call-Shows, channel-Shows, closing-Shows}
use ubersdr_dsc.Output.Reading.{read_key, read_value_lem}

-- A member after its comma.
abbrev bare : Member → Text
bare (key, v) = b'"' ∷ (codes key ++ (codes "\":" ++ print_value v))

abbrev pub keyed : Member → Field
keyed (key, v) = (codes key, v)

read_member_lem :
    (f : Member) (c : ℕ) (rest : Text)
    → IsClean f
    → is_digit c ≡ false
    → read_member (bare f ++ c ∷ rest) ≡ some (keyed f, c ∷ rest)
unfolding read_member
read_member_lem (key, v) c rest h e =
    rw
      (
        append_assoc (codes key) (b'"' ∷ b':' ∷ print_value v) (c ∷ rest),
        read_key (codes key) (b':' ∷ (print_value v ++ c ∷ rest)) h.0,
        read_value_lem v c rest h.1 e,
      )
      refl

read_members_lem :
    (n : ℕ) (f : Member) (fs : List Member)
    → length fs < n
    → IsClean f
    → All IsClean fs
    → read_members n (bare f ++ (print_members fs ++ codes "}")) ≡ some (map keyed (f ∷ fs))
unfolding read_members
read_members_lem zero f fs h clean all = absurd (omega arith)
read_members_lem (suc n) f [] h clean all = rw (read_member_lem f b'}' [] clean refl) refl
read_members_lem (suc n) f (g ∷ gs) h clean all =
    rw (read_member_lem f b',' ((bare g ++ print_members gs) ++ codes "}") clean refl) (
      ap (λ (o : Option (List Field)). o >>= λ others. some (keyed f ∷ others))
        (ap (read_members n) (append_assoc (bare g) (print_members gs) (codes "}"))
          ∙ read_members_lem n g gs (omega arith) all.0 all.1))

members_fit : (fs : List Member) → length fs ≤ length (print_members fs)
members_fit [] = omega arith
members_fit (f ∷ fs) =
    omega (arith, members_fit fs, length-append {0} (print_member f) (print_members fs))

gather :
    {texts : List Text} {ms : List Member} (ns : List Member) (tail : Text)
    → Shows texts ms
    → tail ≡ print_members ns ++ codes "}"
    → concat texts ++ tail ≡ print_members (ms ++ ns) ++ codes "}"
gather {texts} {ms} ns tail shown e =
    ap (λ t. concat texts ++ t) e
    ∙ ap (λ t. t ++ (print_members ns ++ codes "}")) shown.printed
    ∙ sym (append_assoc (print_members ms) (print_members ns) (codes "}"))
    ∙ ap (λ t. t ++ codes "}") (sym (print_members-append ms ns))

received : Message → Member
received m = ("receivedAt", string m.received_at)

other_members : Message → List Member
other_members m = identity_members m ++ (call_members m ++ (channel_members m ++ closing_members m))

rest_of_object : Message → Text
rest_of_object m =
    concat (identity_statements m)
    ++ (concat (call_statements m)
        ++ (concat (channel_statements m) ++ (concat (closing_statements m) ++ codes "}")))

rest_of_object_lem : (m : Message) → rest_of_object m ≡ print_members (other_members m) ++ codes "}"
unfolding rest_of_object other_members
rest_of_object_lem m =
    gather (call_members m ++ (channel_members m ++ closing_members m)) _ (identity-Shows m) (
      gather (channel_members m ++ closing_members m) _ (call-Shows m) (
        gather (closing_members m) _ (channel-Shows m)
          (ap (λ t. t ++ codes "}") (closing-Shows m).printed)))

to_json_lem : (m : Message) → to_json m ≡ b'{' ∷ (bare (received m) ++ rest_of_object m)
unfolding to_json rest_of_object received
to_json_lem m =
    ap (λ t. codes "{\"receivedAt\":\"" ++ t)
      (sym (append_assoc (json_escape m.received_at) (codes "\"") _))

others-AllClean : (m : Message) → All IsClean (other_members m)
unfolding other_members
others-AllClean m =
    All-append IsClean (identity_members m)
      (call_members m ++ (channel_members m ++ closing_members m)) (identity-Shows m).all_clean
      (All-append IsClean (call_members m) (channel_members m ++ closing_members m)
        (call-Shows m).all_clean
        (All-append IsClean (channel_members m) (closing_members m) (channel-Shows m).all_clean
          (closing-Shows m).all_clean))

-- A reader of JSON objects takes the text that `toJson` writes for a message, whatever the message,
-- back to its members in their order: the time of reception; the frequency, validity and check
-- symbols, the latter as signed numbers; and the fields that the call has, the others being left out; each text with the
-- characters that it had.
pub read_object-to_json :
    (m : Message)
    → read_object (to_json m)
      ≡ some (
          map keyed (
            ("receivedAt", string m.received_at)
            ∷ (identity_members m ++ (call_members m ++ (channel_members m ++ closing_members m)))))
unfolding read_object received other_members
read_object-to_json m =
    ap read_object
      (to_json_lem m ∙ ap (λ t. b'{' ∷ (bare (received m) ++ t)) (rest_of_object_lem m))
    ∙ read_members_lem
        (length (bare (received m) ++ (print_members (other_members m) ++ codes "}"))) (received m)
        (other_members m) enough (refl, tt) (others-AllClean m)
  where
    enough :
        length (other_members m)
        < length (bare (received m) ++ (print_members (other_members m) ++ codes "}"))
    enough = omega (
      arith,
      members_fit (other_members m),
      length-append {0} (bare (received m)) (print_members (other_members m) ++ codes "}"),
      length-append {0} (print_members (other_members m)) (codes "}"),
    )
