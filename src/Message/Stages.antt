-- ===== src/Message/Stages.antt =====
-- The stages of `DSCMessage::decode` in src/dsc.cpp: where in a message each of them stops.
use ubersdr_dsc.Base.{
  ℕ, ◌+◌, ◌≤◌, ◌<◌, ◌==◌, ◌!=◌, ◌≡◌, ◌≢◌, refl, sym, ◌∙◌, arith, if◌then◌else◌, true, false, List,
  length, some, get_elem?, subst,
}
use ubersdr_dsc.Base.Result.{Result, ok}
use ubersdr_dsc.Tables.Values.{distress_alert, all_ships, automatic_call, distress, routine}
use ubersdr_dsc.Message.{Message}
use ubersdr_dsc.Message.Digits.{byte, symbols_to_digits, format_address}
use ubersdr_dsc.Message.Head.{
  Cursor, decode_format, decode_address, decode_self_id, decode_telecommands, decode_distress_id,
  by_format, read_address, read_category, in_distress,
}
use ubersdr_dsc.Message.Bounds.{Good, Good-bind, Good-if, byte-Good, digits-Good}
use ubersdr_dsc.Message.Length.{format_address-Good, by_format-Good}

-- The index is in one of three ranges, by the kind of the call.
abbrev pub Alert : Message → Type 0
Alert m = m.format_specifier ≡ distress_alert

abbrev pub InDistress : Message → Type 0
InDistress m = (m.format_specifier ≢ distress_alert) × (m.category ≡ distress)

abbrev pub Ordinary : Message → Type 0
Ordinary m = (m.format_specifier ≢ distress_alert) × (m.category ≢ distress)

abbrev pub Between : ℕ → ℕ → ℕ → Type 0
Between lo hi i = (lo ≤ i) × (i ≤ hi)

-- What the address tells of the rest: the format is the first byte, an alert has the category that
-- a message starts with, and the category of an automatic call is byte 7.
abbrev pub Known : List ℕ → Cursor → Type 0
Known bytes c =
    (get_elem? bytes 0 ≡ some c.message.format_specifier)
    × (c.message.has_category ≡ true)
    × (Alert c.message → c.message.category ≡ routine)
    × (c.message.format_specifier ≡ automatic_call → get_elem? bytes 7 ≡ some c.message.category)

-- The index is within a range that the kind of the call gives; an ordinary automatic call has one
-- of its own.
abbrev pub Placed : (ℕ → Type 0) → (ℕ → Type 0) → (ℕ → Type 0) → (ℕ → Type 0) → Cursor → Type 0
Placed alert in_distress ordinary automatic c =
    (Alert c.message → alert c.idx)
    × (InDistress c.message → in_distress c.idx)
    × (Ordinary c.message → ordinary c.idx)
    × (Ordinary c.message → c.message.format_specifier ≡ automatic_call → automatic c.idx)

module _ (F : Type 0) (bytes : List ℕ) (short : length bytes < 25 → F) where
  abbrev pub Formatted : Cursor → Type 0
  Formatted c =
      (get_elem? bytes 0 ≡ some c.message.format_specifier)
      × (c.idx ≡ 2)
      × (c.message.category ≡ routine)

  pub decode_format-Good :
      (m : Message)
      → m.category ≡ routine
      → Good F Formatted (decode_format bytes (record { idx = 0; message = m }))
  unfolding decode_format
  decode_format-Good m e =
      Good-bind _ _ _ (byte bytes 0) _ (byte-Good F bytes 0 λ p. short (omega arith)) λ a p.
        Good-bind _ _ _ (byte bytes 1) _ (byte-Good F bytes 1 λ q. short (omega arith))
          λ b q. (p.1, refl, e)

  -- Where the address and the category end.
  abbrev pub head_length : ℕ → ℕ
  head_length f = if f == distress_alert then 2 else if f == all_ships then 3 else 8

  abbrev pub Addressed : Cursor → Type 0
  Addressed c = Known bytes c × (c.idx ≡ head_length c.message.format_specifier)

  -- After the address, and before the category.
  abbrev AtCategory : Cursor → Type 0
  AtCategory c =
      (get_elem? bytes 0 ≡ some c.message.format_specifier)
      × (c.message.format_specifier ≢ distress_alert)
      × (c.idx + 1 ≡ head_length c.message.format_specifier)

  read_address-Good :
      (c : Cursor)
      → Formatted c
      → c.message.format_specifier ≢ distress_alert
      → c.message.format_specifier ≢ all_ships
      → Good F AtCategory (read_address bytes c)
  read_address-Good c h x y =
      Good-bind _ _ _ (symbols_to_digits bytes c.idx 5) _
        (digits-Good F bytes 5 c.idx λ p. short (omega arith))
        λ s p.
          let m : Message = record c.message { address = s; has_address = true } in
          Good-bind _ _ _ (by_format s m) _ (by_format-Good F s (omega arith) m) λ m' q. (
            subst (λ (t : ℕ). get_elem? bytes 0 ≡ some t) (sym q) h.0,
            λ e. x (sym q ∙ e),
            subst (λ (t : ℕ). c.idx + 5 + 1 ≡ head_length t) (sym q) (ground arith),
          )

  read_category-Good : (c : Cursor) → AtCategory c → Good F Addressed (read_category bytes c)
  read_category-Good c h =
      Good-bind _ _ _ (byte bytes c.idx) _ (byte-Good F bytes c.idx λ p. short (ground arith))
        λ b p. ((h.0, refl, λ x. absurd (h.1 x), λ x. category_at c.idx b (seven x) p.1), h.2)
    where
      seven : c.message.format_specifier ≡ automatic_call → c.idx ≡ 7
      seven x = ground arith

      category_at : (i b : ℕ) → i ≡ 7 → get_elem? bytes i ≡ some b → get_elem? bytes 7 ≡ some b
      category_at i b e k = subst (λ (j : ℕ). get_elem? bytes j ≡ some b) e k

  -- An address, except in a call to all ships.
  abbrev optional_address : Cursor → Result Cursor
  optional_address c =
      if c.message.format_specifier != all_ships
      then read_address bytes c
      else ok (record c { message = record c.message { has_address = false } })

  optional_address-Good :
      (c : Cursor)
      → Formatted c
      → c.message.format_specifier ≢ distress_alert
      → Good F AtCategory (optional_address c)
  optional_address-Good c h x =
      Good-if _ _ (c.message.format_specifier != all_ships) _ _
        (λ y. read_address-Good c h x (ground arith)) λ y. (h.0, x, ground arith)

  pub decode_address-Good : (c : Cursor) → Formatted c → Good F Addressed (decode_address bytes c)
  unfolding decode_address
  decode_address-Good c h =
      Good-if _ _ (c.message.format_specifier != distress_alert) _ _
        (λ x.
          Good-bind F AtCategory Addressed (optional_address c) (read_category bytes)
            (optional_address-Good c h (ground arith)) read_category-Good)
        λ x. ((h.0, refl, λ y. h.2, λ y. ground arith), ground arith)

  -- After the own identity, and after the telecommands.
  abbrev pub Identified : Cursor → Type 0
  Identified c = Known bytes c × (c.idx ≡ head_length c.message.format_specifier + 5)

  pub decode_self_id-Good : (c : Cursor) → Addressed c → Good F Identified (decode_self_id bytes c)
  unfolding decode_self_id
  decode_self_id-Good c h =
      Good-bind _ _ _ (symbols_to_digits bytes c.idx 5) _
        (digits-Good F bytes 5 c.idx λ p. short (ground arith))
        λ s p.
          Good-bind _ _ _ (format_address s) _ (format_address-Good F s (omega arith))
            λ t q. (h.0, omega arith)

  abbrev pub Commanded : Cursor → Type 0
  Commanded c =
      Known bytes c × Placed (Between 7 7) (Between 9 14) (Between 10 15) (Between 15 15) c

  pub decode_telecommands-Good :
      (c : Cursor) → Identified c → Good F Commanded (decode_telecommands bytes c)
  unfolding decode_telecommands
  decode_telecommands-Good c h =
      Good-if _ _ (c.message.format_specifier != distress_alert) _ _
        (λ x.
          Good-bind _ _ Commanded (byte bytes c.idx) _
            (byte-Good F bytes c.idx λ p. short (ground arith))
            λ a p.
              Good-if _ Commanded (c.message.category != distress) _ _
                (λ y.
                  Good-bind _ _ Commanded (byte bytes (c.idx + 1)) _
                    (byte-Good F bytes (c.idx + 1) λ p. short (ground arith))
                    λ b q. (h.0, ground arith))
                λ y. (h.0, ground arith))
        λ x. (h.0, ground arith)

  -- Before the nature, position and frequencies.
  abbrev pub Opened : Cursor → Type 0
  Opened c = Known bytes c × Placed (Between 7 7) (Between 14 19) (Between 10 15) (Between 15 15) c

  pub decode_distress_id-Good :
      (c : Cursor) → Commanded c → Good F Opened (decode_distress_id bytes c)
  unfolding decode_distress_id
  decode_distress_id-Good c h =
      Good-if _ _ (in_distress c.message) _ _
        (λ x.
          Good-bind _ _ Opened (symbols_to_digits bytes c.idx 5) _
            (digits-Good F bytes 5 c.idx λ p. short (ground arith))
            λ s p.
              Good-bind _ _ Opened (format_address s) _ (format_address-Good F s (omega arith))
                λ t q. (h.0, ground arith))
        λ x. (h.0, ground arith)
