-- ===== src/Message/Needs.antt =====
-- The reads of `DSCMessage::decode` of src/dsc.cpp, as a whole.
use ubersdr_dsc.Base.{
  ℕ, ◌+◌, ◌≤◌, ◌<◌, ◌==◌, ◌≡◌, ◌≢◌, ◌⊎◌, refl, sym, ◌∙◌, arith, true, List, length, Bool-cases, inl,
  inr, some,
}
use ubersdr_dsc.Base.Text.{Text, text_eq, codes}
use ubersdr_dsc.Tables.Values.{automatic_call, distress, routine}
use ubersdr_dsc.Message.{Message, initial}
use ubersdr_dsc.Message.Decode.{decode, dsc_message}
use ubersdr_dsc.Message.Digits.{byte, symbols_to_digits, substr}
use ubersdr_dsc.Message.Head.{
  Cursor, decode_format, decode_address, decode_self_id, decode_telecommands, decode_distress_id,
}
use ubersdr_dsc.Message.Body.{
  decode_payload, decode_number, is_timed, read_time, decode_time, decode_subsequence_comms,
  decode_end,
}
use ubersdr_dsc.Message.Bounds.{Good, Good-bind, Good-if, byte-Good, digits-Good, substr-Good}
use ubersdr_dsc.Message.Stages.{
  Alert, InDistress, Ordinary, Between, Known, Placed, decode_format-Good, decode_address-Good,
  decode_self_id-Good, decode_telecommands-Good, decode_distress_id-Good,
}
use ubersdr_dsc.Message.Ending.{decode_payload-Good}
use ubersdr_dsc.Message.Numbering.{AutomaticDistress, Numbered, confusion, decode_number-Good}

-- What a message that is read has.
abbrev pub Enough : List ℕ → Type 0
Enough bytes = (¬ AutomaticDistress bytes) × (17 ≤ length bytes)

-- What a failure comes from, but for a number that is too large.
abbrev pub Lacking : List ℕ → Type 0
Lacking bytes = (length bytes < 25) ⊎ AutomaticDistress bytes

module _ (F : Type 0) (bytes : List ℕ) (short : length bytes < 25 → F)
    (confused : AutomaticDistress bytes → F) where
  timed_cases : (c : Cursor) → is_timed c.message ≡ true → Alert c.message ⊎ InDistress c.message
  timed_cases c e = ground arith

  -- A stage of a call with a time, of `k` bytes.
  timed_fails :
      (alert from to left k : ℕ) (c : Cursor)
      → Numbered bytes alert from to left c
      → is_timed c.message ≡ true
      → alert + k ≤ 25
      → to + k ≤ 25
      → length bytes < c.idx + k
      → F
  timed_fails alert from to left k c h timed l l' p = elim (timed_cases c timed) [
    | inl a ↦ short (ground arith)
    | inr d ↦ elim (Bool-cases (c.message.format_specifier == automatic_call)) [
      | inl x ↦ confusion F bytes short confused c h.0 (ground arith) d.1
      | inr x ↦ short (ground arith)
    ]
  ]

  read_time-Good :
      (c : Cursor)
      → Numbered bytes 13 14 19 2 c
      → is_timed c.message ≡ true
      → Good F (Numbered bytes 15 16 21 0) (read_time bytes c)
  read_time-Good c h timed =
      Good-bind _ _ (Numbered bytes 15 16 21 0) (symbols_to_digits bytes c.idx 2) _
        (digits-Good F bytes 2 c.idx
          λ p. timed_fails 13 14 19 2 2 c h timed (omega arith) (omega arith) p)
        λ s p.
          Good-bind _ _ (Numbered bytes 15 16 21 0) (substr s 0 2) _
            (substr-Good F s 0 2 (omega arith))
            λ hours q.
              Good-bind _ _ (Numbered bytes 15 16 21 0) (substr s 2 2) _
                (substr-Good F s 2 2 (omega arith))
                λ minutes r. elim (Bool-cases (text_eq s (codes "8888"))) [
                  | inl e ↦ rw e (h.0, placed, ends)
                  | inr e ↦ rw e (h.0, placed, ends)
                ]
    where
      placed :
          c.message.format_specifier ≢ automatic_call
          → Placed
              (Between 15 15)
              (Between 16 21)
              (Between 15 23)
              (λ i. Unit)
              (record c { idx = c.idx + 2 })
      placed x = ground arith

      ends :
          c.message.format_specifier ≡ automatic_call
          → (InDistress c.message → c.idx + 2 + 0 ≡ length bytes)
            × (Ordinary c.message → (c.idx + 2 + 2 ≡ length bytes) × (19 ≤ length bytes))
      ends x = ground arith

  abbrev Timed : Cursor → Type 0
  Timed c = Numbered bytes 15 16 21 0 c

  decode_time-Good : (c : Cursor) → Numbered bytes 13 14 19 2 c → Good F Timed (decode_time bytes c)
  unfolding decode_time
  decode_time-Good c h =
      Good-if _ Timed (is_timed c.message) _ _ (λ x. read_time-Good c h x)
        λ x. (h.0, ground arith, ground arith)

  -- Before the end of the call.
  abbrev Closed : Cursor → Type 0
  Closed c =
      (¬ AutomaticDistress bytes)
      × (Between 17 25 (c.idx + 2) ⊎ ((c.idx + 2 ≡ length bytes) × (19 ≤ length bytes)))

  not_confused :
      (c : Cursor)
      → Known bytes c
      → (c.message.format_specifier ≡ automatic_call → c.message.category ≢ distress)
      → ¬ AutomaticDistress bytes
  not_confused c k h a = h (same (sym k.0 ∙ a.0)) (same (sym (k.3 (same (sym k.0 ∙ a.0))) ∙ a.1))
    where
      same : {x y : ℕ} → some x ≡ some y → x ≡ y
      same e = cc

  decode_subsequence_comms-Good :
      (c : Cursor) → Timed c → Good F Closed (decode_subsequence_comms bytes c)
  unfolding decode_subsequence_comms
  decode_subsequence_comms-Good c h =
      Good-if _ Closed (is_timed c.message) _ _
        (λ x.
          Good-bind _ _ Closed (byte bytes c.idx) _
            (byte-Good F bytes c.idx
              λ p. timed_fails 15 16 21 0 1 c h x (omega arith) (omega arith) (omega arith))
            λ b p. (not_confused c h.0 (ground arith), ground arith))
        λ x. (not_confused c h.0 (ground arith), ground arith)

  decode_end-Good : (c : Cursor) → Closed c → Good F (λ m. Enough bytes) (decode_end bytes c)
  unfolding decode_end
  decode_end-Good c h =
      Good-bind _ _ (λ m. Enough bytes) (byte bytes c.idx) _
        (byte-Good F bytes c.idx λ p. short (ground arith))
        λ a p.
          Good-bind _ _ (λ m. Enough bytes) (byte bytes (c.idx + 1)) _
            (byte-Good F bytes (c.idx + 1) λ p. short (ground arith)) λ b q. (h.0, ground arith)

  decode-Good : (m : Message) → m.category ≡ routine → Good F (λ m. Enough bytes) (decode bytes m)
  unfolding decode
  decode-Good m e =
      Good-bind _ _ (λ m. Enough bytes) (decode_format bytes (record { idx = 0; message = m })) _
        (decode_format-Good F bytes short m e)
        λ c0 h0.
          Good-bind _ _ (λ m. Enough bytes) (decode_address bytes c0) _
            (decode_address-Good F bytes short c0 h0)
            λ c1 h1.
              Good-bind _ _ (λ m. Enough bytes) (decode_self_id bytes c1) _
                (decode_self_id-Good F bytes short c1 h1)
                λ c2 h2.
                  Good-bind _ _ (λ m. Enough bytes) (decode_telecommands bytes c2) _
                    (decode_telecommands-Good F bytes short c2 h2)
                    λ c3 h3.
                      Good-bind _ _ (λ m. Enough bytes) (decode_distress_id bytes c3) _
                        (decode_distress_id-Good F bytes short c3 h3)
                        λ c4 h4.
                          Good-bind _ _ (λ m. Enough bytes) (decode_payload bytes c4) _
                            (decode_payload-Good F bytes short c4 h4)
                            λ c5 h5.
                              Good-bind _ _ (λ m. Enough bytes) (decode_number bytes c5) _
                                (decode_number-Good F bytes short confused c5 h5)
                                λ c6 h6.
                                  Good-bind _ _ (λ m. Enough bytes) (decode_time bytes c6) _
                                    (decode_time-Good c6 h6)
                                    λ c7 h7.
                                      Good-bind _ _ (λ m. Enough bytes)
                                        (decode_subsequence_comms bytes c7) _
                                        (decode_subsequence_comms-Good c7 h7)
                                        λ c8 h8.
                                          Good-bind _ _ (λ m. Enough bytes) (decode_end bytes c8) _
                                            (decode_end-Good c8 h8) λ m' h9. h9

-- A message is read only if it has 17 bytes or more and is not an automatic call of the category
-- distress. The reading of a message of 25 bytes or more that is not such a call never leaves an
-- array or a string, and ends with a message or by an overflow of an `int`.
pub dsc_message-Good :
    (time_to_iso8601 : ℕ → Text) (bytes : List ℕ) (timestamp : ℕ)
    → Good (Lacking bytes) (λ m. Enough bytes) (dsc_message time_to_iso8601 bytes timestamp)
unfolding dsc_message
dsc_message-Good time_to_iso8601 bytes timestamp =
    decode-Good (Lacking bytes) bytes inl inr (initial bytes (time_to_iso8601 timestamp)) refl
