-- ===== src/Manager/Laws.antt =====
-- The channels and the messages that ChannelManager of src/channel_manager.cpp keeps.
use ubersdr_dsc.Base.{
  ℕ, zero, suc, ◌-◌, ◌≤◌, ◌<◌, ◌≡◌, refl, ap, ◌∙◌, arith, ◌||◌, if◌then◌else◌, if-true, if-false,
  ltb, leb, ◌==◌, Bool-cases, inl, inr, List, [], ◌∷◌, ◌++◌, length, drop, take,
}
use ubersdr_dsc.Base.Int.{pos}
use ubersdr_dsc.Base.Text.{Text}
use ubersdr_dsc.Manager.{ChannelManager, DecodedMessage, get_messages}

module _ {R : Type 0} where
  -- Messages from before a point of the list and those after it.
  take-drop : (n : ℕ) (ms : List (DecodedMessage R)) → take n ms ++ drop n ms ≡ ms
  take-drop zero ms = refl
  take-drop (suc n) [] = refl
  take-drop (suc n) (m ∷ ms) = ap (λ l. m ∷ l) (take-drop n ms)

  length-drop : (n : ℕ) (ms : List (DecodedMessage R)) → length (drop n ms) ≡ length ms - n
  length-drop zero ms = omega arith
  length-drop (suc n) [] = omega arith
  length-drop (suc n) (m ∷ ms) = omega (arith, length-drop n ms)

  all_given :
      (count : ℕ) (m : ChannelManager R)
      → length m.messages ≤ count
      → get_messages (pos count) m ≡ m.messages
  unfolding get_messages
  all_given count m all = if-true _ _ (count == 0 || leb (length m.messages) count) (ground arith)

  newest_given :
      (count : ℕ) (m : ChannelManager R)
      → 0 < count
      → count < length m.messages
      → get_messages (pos count) m ≡ drop (length m.messages - count) m.messages
  unfolding get_messages
  newest_given count m some_asked more =
      if-false _ _ (count == 0 || leb (length m.messages) count) (ground arith)

  -- Asked for at most `count` messages, a positive number, the manager gives the newest ones: as
  -- many as asked for or, where it stores fewer, all of them, with only older ones left out.
  pub get_messages_lem :
      (count : ℕ) (m : ChannelManager R)
      → 0 < count
      → (older : List (DecodedMessage R)) × (older ++ get_messages (pos count) m ≡ m.messages)
        × (length (get_messages (pos count) m)
            ≡ (if ltb count (length m.messages) then count else length m.messages))
  get_messages_lem count m some_asked = elim (Bool-cases (leb (length m.messages) count)) [
    | inl all ↦
        let fits : length m.messages ≤ count = ground arith in
        ([], all_given count m fits, ap length (all_given count m fits) ∙ ground arith)
    | inr more ↦
        let over : count < length m.messages = ground arith in
        (
          take (length m.messages - count) m.messages,
          ap (λ l. take (length m.messages - count) m.messages ++ l)
                (newest_given count m some_asked over)
              ∙ take-drop (length m.messages - count) m.messages,
          ap length (newest_given count m some_asked over)
              ∙ length-drop (length m.messages - count) m.messages
              ∙ ground arith,
        )
  ]
