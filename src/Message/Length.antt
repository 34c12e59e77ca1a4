-- ===== src/Message/Length.antt =====
-- The texts that `DSCMessage::decode` of src/dsc.cpp formats: what their reads need.
use ubersdr_dsc.Base.{
  ℕ, ◌+◌, ◌≤◌, ◌==◌, ◌!=◌, ◌≡◌, refl, arith, leb, if◌then◌else◌, [], length, Bool-cases, inl, inr,
}
use ubersdr_dsc.Base.Text.{Text, text_eq, codes}
use ubersdr_dsc.Base.Result.{ok}
use ubersdr_dsc.Tables.Values.{selective_call, geographic_call}
use ubersdr_dsc.Message.{Message}
use ubersdr_dsc.Message.Digits.{char_at, substr, format_address, format_coordinates, format_known}
use ubersdr_dsc.Message.Head.{decode_area, by_format, digit_at, two_at, three_at}
use ubersdr_dsc.Message.Bounds.{Good, Good-if, Good-bind, char_at-Good, substr-Good}

-- A text of ten digits or more.
module _ (F : Type 0) (s : Text) (long : 10 ≤ length s) where
  pub format_address-Good : Good F (λ t. Unit) (format_address s)
  unfolding format_address
  format_address-Good =
      Good-bind _ (λ c. Unit) _ (if leb 10 (length s) then char_at s 9 else ok b'0') _
        (Good-if _ _ (leb 10 (length s)) _ _ (λ b. char_at-Good F s 9 (omega arith)) λ b. tt)
        λ tenth p.
          Good-bind _ (λ c. Unit) _ (substr s 0 9) _ (substr-Good F s 0 9 (omega arith))
            λ head q.
              Good-bind _ (λ c. Unit) _ (if tenth != b'0' then substr s 9 1 else ok []) _
                (Good-if _ _ (tenth != b'0') _ _ (λ b. substr-Good F s 9 1 (omega arith)) λ b. tt)
                λ last r. tt

  pub format_coordinates-Good : Good F (λ t. Unit) (format_coordinates s)
  unfolding format_coordinates format_known
  format_coordinates-Good = elim (Bool-cases (text_eq s (codes "9999999999"))) [
    | inl p ↦ rw p tt
    | inr p ↦ rw p (
        Good-bind _ _ _ (char_at s 0) _ (char_at-Good F s 0 (omega arith)) λ c p0.
          Good-bind _ _ _ (substr s 1 2) _ (substr-Good F s 1 2 (omega arith)) λ c1 p1.
            Good-bind _ _ _ (substr s 3 2) _ (substr-Good F s 3 2 (omega arith)) λ c2 p2.
              Good-bind _ _ _ (substr s 1 3) _ (substr-Good F s 1 3 (omega arith)) λ c3 p3.
                Good-bind _ _ _ (substr s 4 2) _ (substr-Good F s 4 2 (omega arith)) λ c4 p4. tt)
  ]

  digit_at-Good : (i : ℕ) → i ≤ 10 → Good F (λ z. Unit) (digit_at s i)
  digit_at-Good i h = Good-bind _ _ _ (char_at s i) _ (char_at-Good F s i (omega arith)) λ c p. tt

  two_at-Good : (i : ℕ) → i ≤ 9 → Good F (λ z. Unit) (two_at s i)
  two_at-Good i h =
      Good-bind _ _ _ (digit_at s i) _ (digit_at-Good i (omega arith)) λ a p.
        Good-bind _ _ _ (digit_at s (i + 1)) _ (digit_at-Good (i + 1) (omega arith)) λ b q. tt

  three_at-Good : (i : ℕ) → i ≤ 8 → Good F (λ z. Unit) (three_at s i)
  three_at-Good i h = Good-bind _ _ _ (digit_at s i) _ (digit_at-Good i (omega arith)) λ a p.
      Good-bind _ _ _ (digit_at s (i + 1)) _ (digit_at-Good (i + 1) (omega arith)) λ b q.
        Good-bind _ _ _ (digit_at s (i + 2)) _ (digit_at-Good (i + 2) (omega arith)) λ c r. tt

  abbrev SameFormat : Message → Message → Type 0
  SameFormat m m' = m'.format_specifier ≡ m.format_specifier

  decode_area-Good : (m : Message) → Good F (SameFormat m) (decode_area s m)
  unfolding decode_area
  decode_area-Good m = Good-bind _ _ _ (char_at s 0) _ (char_at-Good F s 0 (omega arith)) λ c p0.
      Good-bind _ _ _ (two_at s 1) _ (two_at-Good 1 (omega arith)) λ c1 p1.
        Good-bind _ _ _ (three_at s 3) _ (three_at-Good 3 (omega arith)) λ c2 p2.
          Good-bind _ _ _ (two_at s 6) _ (two_at-Good 6 (omega arith))
            λ c3 p3. Good-bind _ _ _ (two_at s 8) _ (two_at-Good 8 (omega arith)) λ c4 p4. refl

  pub by_format-Good : (m : Message) → Good F (SameFormat m) (by_format s m)
  by_format-Good m =
      Good-if _ _ (m.format_specifier == selective_call) _ _
        (λ b. Good-bind _ _ _ (format_address s) _ format_address-Good λ t p. refl)
        λ b.
          Good-if _ _ (m.format_specifier == geographic_call) _ _ (λ b'. decode_area-Good m)
            λ b'. refl
