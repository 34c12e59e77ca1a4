-- ===== src/Message/Ending.antt =====
-- The later stages of `DSCMessage::decode` in src/dsc.cpp: where in a message each of them stops.
use ubersdr_dsc.Base.{
  ℕ, ◌+◌, ◌≤◌, ◌<◌, ◌==◌, ◌!=◌, ◌≡◌, ◌≢◌, refl, sym, ◌∙◌, arith, true, false, ◌&&◌, List, length,
  some, get_elem?, subst,
}
use ubersdr_dsc.Tables.Values.{distress_alert, automatic_call, distress}
use ubersdr_dsc.Message.Digits.{byte, symbols_to_digits, format_coordinates}
use ubersdr_dsc.Message.Frequency.{decode_frequency}
use ubersdr_dsc.Message.Head.{Cursor}
use ubersdr_dsc.Message.Body.{
  read_position, read_distress, first_frequency, second_frequency, read_frequencies, read_payload,
  decode_payload,
}
use ubersdr_dsc.Message.Bounds.{Good, Good-bind, Good-if, Good-weaken, byte-Good, digits-Good}
use ubersdr_dsc.Message.Length.{format_coordinates-Good}
use ubersdr_dsc.Message.FrequencyLength.{decode_frequency-Good}
use ubersdr_dsc.Message.Stages.{Ordinary, Between, Known, Placed, Opened}

-- What a stage leaves as it is, and how far it goes.
abbrev pub Moves : ℕ → ℕ → Cursor → Cursor → Type 0
Moves lo hi c d =
    (d.message.format_specifier ≡ c.message.format_specifier)
    × (d.message.has_category ≡ c.message.has_category)
    × (d.message.category ≡ c.message.category)
    × Between (c.idx + lo) (c.idx + hi) d.idx

module _ (F : Type 0) (bytes : List ℕ) (short : length bytes < 25 → F) where
  read_position-Good : (c : Cursor) → c.idx + 5 ≤ 25 → Good F (Moves 5 5 c) (read_position bytes c)
  read_position-Good c h =
      Good-bind _ _ (Moves 5 5 c) (symbols_to_digits bytes c.idx 5) _
        (digits-Good F bytes 5 c.idx λ p. short (omega arith))
        λ s p.
          Good-bind _ _ (Moves 5 5 c) (format_coordinates s) _
            (format_coordinates-Good F s (omega arith)) λ t q. (refl, refl, refl, omega arith)

  first_frequency-Good :
      (c : Cursor) → c.idx + 4 ≤ 25 → Good F (Moves 3 4 c) (first_frequency bytes c)
  first_frequency-Good c h =
      Good-bind _ _ (Moves 3 4 c)
        (decode_frequency bytes
          (record { idx = c.idx; frequency = 0; channel = c.message.channel1 }))
        _ (decode_frequency-Good F bytes _ λ p. short (omega arith)) λ f p. (refl, refl, refl, p)

  second_frequency-Good :
      (c : Cursor) → c.idx + 4 ≤ 25 → Good F (Moves 3 4 c) (second_frequency bytes c)
  second_frequency-Good c h =
      Good-bind _ _ (Moves 3 4 c)
        (decode_frequency bytes
          (record { idx = c.idx; frequency = 0; channel = c.message.channel2 }))
        _ (decode_frequency-Good F bytes _ λ p. short (omega arith)) λ f p. (refl, refl, refl, p)

  -- After the nature, position and frequencies.
  abbrev pub Paid : Cursor → Type 0
  Paid c = Known bytes c × Placed (Between 13 13) (Between 14 19) (Between 15 23) (Between 18 20) c

  Known-after : (lo hi : ℕ) (c d : Cursor) → Moves lo hi c d → Known bytes c → Known bytes d
  Known-after lo hi c d m k = (
    subst (λ (t : ℕ). get_elem? bytes 0 ≡ some t) (sym m.0) k.0,
    m.1 ∙ k.1,
    λ e. m.2 ∙ k.2 (sym m.0 ∙ e),
    λ e. subst (λ (t : ℕ). get_elem? bytes 7 ≡ some t) (sym m.2) (k.3 (sym m.0 ∙ e)),
  )

  read_frequencies-Good :
      (c : Cursor)
      → c.idx + 8 ≤ 25
      → Good F
          (λ d.
            Moves 3 8 c d
            × (c.message.format_specifier ≡ automatic_call → d.idx ≤ c.idx + 4)
            × (c.message.format_specifier ≢ automatic_call → c.idx + 6 ≤ d.idx))
          (read_frequencies bytes c)
  unfolding read_frequencies
  read_frequencies-Good c h =
      Good-bind _ _ Result (first_frequency bytes c) _ (first_frequency-Good c (omega arith)) λ d p.
        Good-if _ Result (d.message.format_specifier != automatic_call) _ _
          (λ x.
            Good-weaken _ (Moves 3 4 d) Result (second_frequency bytes d)
              (second_frequency-Good d (omega arith))
              λ e q. ((q.0 ∙ p.0, q.1 ∙ p.1, q.2 ∙ p.2, omega arith), ground arith, ground arith))
          λ x. ((p.0, p.1, p.2, omega arith), ground arith, ground arith)
    where
      Result : Cursor → Type 0
      Result d =
          Moves 3 8 c d
          × (c.message.format_specifier ≡ automatic_call → d.idx ≤ c.idx + 4)
          × (c.message.format_specifier ≢ automatic_call → c.idx + 6 ≤ d.idx)

  read_distress-Good : (c : Cursor) → c.idx + 6 ≤ 25 → Good F (Moves 6 6 c) (read_distress bytes c)
  unfolding read_distress
  read_distress-Good c h =
      Good-bind _ _ (Moves 6 6 c) (byte bytes c.idx) _
        (byte-Good F bytes c.idx λ p. short (omega arith))
        λ nature p.
          let d : Cursor = record {
            idx = c.idx + 1;
            message = record c.message { distress_nature = nature; has_distress_nature = true };
          } in
          Good-weaken _ (Moves 5 5 d) (Moves 6 6 c) (read_position bytes d)
            (read_position-Good d (omega arith)) λ e m. (m.0, m.1, m.2, omega arith)

  read_payload-Good :
      (c : Cursor)
      → Opened F bytes short c
      → Ordinary c.message
      → Good F Paid (read_payload bytes c)
  read_payload-Good c h o =
      Good-bind _ _ Paid (byte bytes c.idx) _ (byte-Good F bytes c.idx λ p. short (ground arith))
        λ first p.
          Good-if _ Paid (first == 55) _ _
            (λ x.
              Good-weaken _ (Moves 5 5 c) Paid (read_position bytes c)
                (read_position-Good c (ground arith))
                λ d m. (Known-after _ _ c d m h.0, ground arith))
            λ x.
              Good-weaken _ _ Paid (read_frequencies bytes c)
                (read_frequencies-Good c (ground arith))
                λ d m. (Known-after _ _ c d m.0 h.0, ground arith)

  pub decode_payload-Good :
      (c : Cursor) → Opened F bytes short c → Good F Paid (decode_payload bytes c)
  unfolding decode_payload
  decode_payload-Good c h =
      Good-if _ Paid (c.message.format_specifier == distress_alert) _ _
        (λ x.
          Good-weaken _ (Moves 6 6 c) Paid (read_distress bytes c)
            (read_distress-Good c (ground arith)) λ d m. (Known-after _ _ c d m h.0, ground arith))
        λ x.
          Good-if _ Paid (c.message.has_category && c.message.category != distress) _ _
            (λ y.
              read_payload-Good
                (record c { message = record c.message { has_distress_nature = false } }) h
                (ground arith))
            λ y. (h.0, ground arith)
