-- ===== src/Message/Numbering.antt =====
-- The phone number of an automatic call in `DSCMessage::decode` of src/dsc.cpp, which takes the call to
-- its end.
use ubersdr_dsc.Base.{
  ℕ, ◌+◌, ◌-◌, ◌*◌, ◌≤◌, ◌<◌, ◌==◌, ◌≡◌, ◌≢◌, arith, leb, if◌then◌else◌, List, length, Bool-cases,
  inl, inr, some, get_elem?, subst,
}
use ubersdr_dsc.Base.Text.{Text}
use ubersdr_dsc.Base.Result.{ok}
use ubersdr_dsc.Tables.Values.{automatic_call, distress}
use ubersdr_dsc.Message.Digits.{byte, symbols_to_digits, substr_from}
use ubersdr_dsc.Message.Head.{Cursor}
use ubersdr_dsc.Message.Body.{read_number, decode_number}
use ubersdr_dsc.Message.Bounds.{
  Good, Good-bind, Good-any, Good-if, byte-Good, digits-Good, substr_from-Good,
}
use ubersdr_dsc.Message.Stages.{InDistress, Ordinary, Between, Known, Placed}
use ubersdr_dsc.Message.Ending.{Paid}

-- An automatic call whose category is distress.
abbrev pub AutomaticDistress : List ℕ → Type 0
AutomaticDistress bytes =
    (get_elem? bytes 0 ≡ some automatic_call) × (get_elem? bytes 7 ≡ some distress)

-- From the number on, which takes an automatic call to its last two bytes; `left` are the bytes that
-- an automatic call in distress has left.
abbrev pub Numbered : List ℕ → ℕ → ℕ → ℕ → ℕ → Cursor → Type 0
Numbered bytes alert from to left c =
    Known bytes c
    × (c.message.format_specifier ≢ automatic_call
        → Placed (Between alert alert) (Between from to) (Between 15 23) (λ i. Unit) c)
    × (c.message.format_specifier ≡ automatic_call
        → (InDistress c.message → c.idx + left ≡ length bytes)
          × (Ordinary c.message → (c.idx + 2 ≡ length bytes) × (19 ≤ length bytes)))

module _ (F : Type 0) (bytes : List ℕ) (short : length bytes < 25 → F)
    (confused : AutomaticDistress bytes → F) where
  pub confusion :
      (c : Cursor)
      → Known bytes c
      → c.message.format_specifier ≡ automatic_call
      → c.message.category ≡ distress
      → F
  confusion c k a d = confused (
    subst (λ (t : ℕ). get_elem? bytes 0 ≡ some t) a k.0,
    subst (λ (t : ℕ). get_elem? bytes 7 ≡ some t) d (k.3 a),
  )

  -- A failure within an automatic call whose number begins at byte 20 or before.
  number_fails :
      (c : Cursor)
      → Paid F bytes short c
      → c.message.format_specifier ≡ automatic_call
      → length bytes ≤ c.idx + 3
      → F
  number_fails c h a p = elim (Bool-cases (c.message.category == distress)) [
    | inl d ↦ confusion c h.0 a (ground arith)
    | inr d ↦ short (ground arith)
  ]

  read_number-Good :
      (c : Cursor)
      → Paid F bytes short c
      → c.message.format_specifier ≡ automatic_call
      → Good F (Numbered bytes 13 14 19 2) (read_number bytes c)
  read_number-Good c h a =
      Good-bind _ _ (Numbered bytes 13 14 19 2) (byte bytes c.idx) _
        (byte-Good F bytes c.idx λ p. number_fails c h a (omega arith))
        λ odd p.
          Good-bind _ _ (Numbered bytes 13 14 19 2)
            (symbols_to_digits bytes (c.idx + 1) (length bytes - (c.idx + 1) - 2)) _
            (digits-Good F bytes (length bytes - (c.idx + 1) - 2) (c.idx + 1)
              λ q. number_fails c h a (omega arith))
            λ s q.
              Good-bind _ (λ t. Unit) (Numbered bytes 13 14 19 2)
                (if odd == 105 then substr_from s 1 else ok s) _
                (Good-if _ _ (odd == 105) _ _ (λ x. drop_first s q.0) λ x. tt)
                λ t r. (
                  h.0,
                  λ e. absurd (e a),
                  λ e. (λ o. ground arith, λ o. (ground arith, ground arith)),
                )
    where
      drop_first :
          (s : Text)
          → 2 * (length bytes - (c.idx + 1) - 2) ≤ length s
          → Good F (λ t. Unit) (substr_from s 1)
      drop_first s l = elim (Bool-cases (leb (length bytes) (c.idx + 3))) [
        | inl x ↦ Good-any F (substr_from s 1) (number_fails c h a (ground arith))
        | inr x ↦ substr_from-Good F s 1 (ground arith)
      ]

  pub decode_number-Good :
      (c : Cursor)
      → Paid F bytes short c
      → Good F (Numbered bytes 13 14 19 2) (decode_number bytes c)
  unfolding decode_number
  decode_number-Good c h =
      Good-if _ (Numbered bytes 13 14 19 2) (c.message.format_specifier == automatic_call) _ _
        (λ x. read_number-Good c h (ground arith))
        λ x. (h.0, λ y. (h.1.0, h.1.1, h.1.2, λ o e. tt), λ y. ground arith)
