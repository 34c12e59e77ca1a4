-- ===== src/Output/Shown.antt =====
-- What the statements of `toJson` in src/dsc.cpp write, one after the other.
use ubersdr_dsc.Base.{
  ℕ, ◌/◌, ◌%◌, ◌<◌, ◌≡◌, refl, ap, sym, arith, Bool, true, ◌&&◌, List, [], ◌∷◌, ◌++◌,
}
use ubersdr_dsc.Base.Text.{Text, codes}
use ubersdr_dsc.Escape.{json_escape, escape_char, hex_digit}
use ubersdr_dsc.Message.{Message}
use ubersdr_dsc.Output.Json.{
  hex_bytes, identity_statements, call_statements, channel_statements, closing_statements,
}
use ubersdr_dsc.Output.Members.{
  identity_members, call_members, channel_members, closing_members, area_members, is_plain,
  all_plain, Shows, Shows-none, Shows-one, Shows-when, Shows-as, Shows-All,
}
use ubersdr_dsc.Output.Numerals.{numeral-decimal, numeral-decimal_int}

pub and_both : (a b : Bool) → (a && b) ≡ true → (a ≡ true) × (b ≡ true)
and_both a b h = ground arith

hex_digit_plain : (n : ℕ) → n < 16 → is_plain (hex_digit n) ≡ true
hex_digit_plain n h = ground arith

escape_char_plain : (c : ℕ) → is_plain c ≡ true → escape_char c ≡ c ∷ []
escape_char_plain c h = ground arith

-- A text of plain characters stands for itself.
pub json_escape_plain : (s : Text) → all_plain s ≡ true → json_escape s ≡ s
unfolding json_escape
json_escape_plain [] h = refl
json_escape_plain (c ∷ s) h =
    rw
      (
        escape_char_plain c (and_both (is_plain c) (all_plain s) h).0,
        json_escape_plain s (and_both (is_plain c) (all_plain s) h).1,
      )
      refl

plain-hex_bytes : (bs : List ℕ) → all_plain (hex_bytes bs) ≡ true
unfolding hex_bytes
plain-hex_bytes [] = refl
plain-hex_bytes (b ∷ bs) =
    rw (hex_digit_plain (b / 16 % 16) (omega arith), hex_digit_plain (b % 16) (omega arith))
      (plain-hex_bytes bs)

raw :
    (bs : List ℕ)
    → codes ",\"rawData\":\"" ++ (hex_bytes bs ++ codes "\"")
      ≡ codes ",\"rawData\":\"" ++ (json_escape (hex_bytes bs) ++ codes "\"")
raw bs =
    ap (λ (t : Text). codes ",\"rawData\":\"" ++ (t ++ codes "\""))
      (sym (json_escape_plain (hex_bytes bs) (plain-hex_bytes bs)))

pub identity-Shows : (m : Message) → Shows (identity_statements m) (identity_members m)
unfolding identity_statements
identity-Shows m =
    Shows-one _ (refl, numeral-decimal_int _)
      (Shows-one _ (refl, tt)
        (Shows-one _ (refl, tt)
          (Shows-one _ (refl, numeral-decimal_int _)
            (Shows-one _ (refl, numeral-decimal_int _)
              (Shows-one _ (refl, tt)
                (Shows-one _ (refl, numeral-decimal _)
                  (Shows-one _ (refl, tt)
                    (Shows-when _ (refl, tt)
                      (Shows-All _ (area_members m)
                        (
                          (refl, numeral-decimal_int _),
                          (
                            (refl, numeral-decimal_int _),
                            ((refl, numeral-decimal_int _), ((refl, numeral-decimal_int _), tt)),
                          ),
                        )
                        (Shows-one _ (refl, tt)
                          (Shows-All _ (_ ∷ _ ∷ []) ((refl, tt), ((refl, numeral-decimal _), tt))
                            (Shows-one _ (refl, tt) Shows-none))))
                      _))))))))

pub call-Shows : (m : Message) → Shows (call_statements m) (call_members m)
unfolding call_statements
call-Shows m =
    Shows-one _ (refl, tt)
      (Shows-All _ (_ ∷ _ ∷ []) ((refl, tt), ((refl, numeral-decimal _), tt))
        (Shows-one _ (refl, tt)
          (Shows-All _ (_ ∷ _ ∷ []) ((refl, tt), ((refl, numeral-decimal _), tt))
            (Shows-one _ (refl, tt)
              (Shows-when _ (refl, tt)
                (Shows-one _ (refl, tt)
                  (Shows-All _ (_ ∷ _ ∷ []) ((refl, tt), ((refl, numeral-decimal _), tt))
                    (Shows-one _ (refl, tt) (Shows-when _ (refl, tt) Shows-none _))))
                _)))))

pub channel-Shows : (m : Message) → Shows (channel_statements m) (channel_members m)
unfolding channel_statements
channel-Shows m =
    Shows-one _ (refl, tt)
      (Shows-when _ (refl, numeral-decimal _)
        (Shows-one _ (refl, tt)
          (Shows-when _ (refl, tt)
            (Shows-one _ (refl, tt)
              (Shows-when _ (refl, numeral-decimal _)
                (Shows-one _ (refl, tt) (Shows-when _ (refl, tt) Shows-none _)) _))
            _))
        _)

pub closing-Shows : (m : Message) → Shows (closing_statements m) (closing_members m)
unfolding closing_statements
closing-Shows m =
    Shows-one _ (refl, tt)
      (Shows-when _ (refl, tt)
        (Shows-one _ (refl, tt)
          (Shows-when _ (refl, tt)
            (Shows-one _ (refl, tt)
              (Shows-All _ (_ ∷ _ ∷ []) ((refl, tt), ((refl, numeral-decimal _), tt))
                (Shows-one _ (refl, tt)
                  (Shows-one _ (refl, numeral-decimal _)
                    (Shows-as _ (refl, tt) Shows-none _ (raw m.data_bytes))))))
            _))
        _)
