-- ===== src/Hub/Envelope.antt =====
-- The texts of messages that the hub of src/dsc_rx_from_ubersdr.cpp keeps, and what it takes out of
-- them for the history.
use ubersdr_dsc.Base.{
  ℕ, zero, suc, ◌-◌, ◌<◌, ◌≡◌, refl, ap, sym, ◌∙◌, arith, Bool-cases, inl, inr, if-true, if-false,
  leb, List, [], ◌∷◌, ◌++◌, map, length, drop, length-drop, lasts, lasts_room, lasts_full,
}
use ubersdr_dsc.Base.Text.{Text, codes}
use ubersdr_dsc.Base.Result.{Result, ok, out_of_bounds, out_of_range, overflow, ◌>>=◌, IsOk}
use ubersdr_dsc.Output.{join}
use ubersdr_dsc.Hub.{
  BroadcastHub, text, msg_history_max, remember, send_history_to, data_of, drop_last, find_after,
}

-- The text of a message around its object.
abbrev pub envelope : Text → Text
envelope o = codes "{\"type\":\"message\",\"data\":" ++ (o ++ codes "}")

-- A history that holds the last of some texts.
pub remember-lasts :
    (seen : List Text) (j : Text)
    → remember (lasts msg_history_max seen) j ≡ lasts msg_history_max (seen ++ j ∷ [])
unfolding remember
remember-lasts seen j =
    elim (Bool-cases (leb msg_history_max (length (lasts msg_history_max seen)))) [
      | inl full ↦
          if-true _ _ (leb msg_history_max (length (lasts msg_history_max seen))) full
          ∙ sym (
              lasts_full msg_history_max seen j (omega arith)
                (ground (arith, length-drop (length seen - msg_history_max) seen)))
      | inr room ↦
          if-false _ _ (leb msg_history_max (length (lasts msg_history_max seen))) room
          ∙ sym (
              lasts_room msg_history_max seen j
                (ground (arith, length-drop (length seen - msg_history_max) seen)))
    ]

drop_last-append : (s : Text) (c : ℕ) → drop_last (s ++ c ∷ []) ≡ s
drop_last-append [] c = refl
drop_last-append (d ∷ []) c = refl
drop_last-append (d ∷ e ∷ s) c = ap (d ∷◌) (drop_last-append (e ∷ s) c)

data_of-envelope : (o : Text) → data_of (envelope o) ≡ o
unfolding data_of find_after
data_of-envelope o = drop_last-append o b'}'

map-data_of : (os : List Text) → map data_of (map envelope os) ≡ os
map-data_of [] = refl
map-data_of (o ∷ os) =
    ap (λ (d : Text). d ∷ map data_of (map envelope os)) (data_of-envelope o)
    ∙ ap (o ∷◌) (map-data_of os)

map-drop : (k : ℕ) (os : List Text) → map envelope (drop k os) ≡ drop k (map envelope os)
map-drop zero os = refl
map-drop (suc k) [] = refl
map-drop (suc k) (o ∷ os) = map-drop k os

length-map : (os : List Text) → length (map envelope os) ≡ length os
length-map [] = refl
length-map (o ∷ os) = ap suc (length-map os)

pub map-lasts : (n : ℕ) (os : List Text) → map envelope (lasts n os) ≡ lasts n (map envelope os)
map-lasts n os =
    map-drop (length os - n) os
    ∙ ap (λ (k : ℕ). drop (k - n) (map envelope os)) (sym (length-map os))

pub map-append : (os ps : List Text) → map envelope (os ++ ps) ≡ map envelope os ++ map envelope ps
map-append [] ps = refl
map-append (o ∷ os) ps = ap (envelope o ∷◌) (map-append os ps)

-- What a new client gets for some objects, if there are any.
abbrev pub history_object : List Text → Text
history_object os = codes "{\"type\":\"history\",\"data\":[" ++ (join (codes ",") os ++ codes "]}")

pub replay :
    (hub : BroadcastHub) (ws : ℕ) (os : List Text)
    → hub.history ≡ map envelope os
    → 0 < length os
    → send_history_to hub ws ≡ (ws, text (history_object os)) ∷ []
unfolding send_history_to
replay hub ws [] e h = absurd (omega arith)
replay hub ws (o ∷ os) e h =
    ap (λ (entries : List Text). send_history_to (record hub { history = entries }) ws) e
    ∙ ap (λ (ds : List Text). (ws, text (history_object ds)) ∷ []) (map-data_of (o ∷ os))

-- Three lookups, and what is made of them in two steps.
pub three_steps :
    (a b c : Result Text) (f g : Text → Text → Text → Text)
    → ((x y z : Text) → f x y z ≡ envelope (g x y z))
    → (a >>= λ x. b >>= λ y. c >>= λ z. ok (f x y z))
      ≡ ((a >>= λ x. b >>= λ y. c >>= λ z. ok (g x y z)) >>= λ o. ok (envelope o))
three_steps (ok x) (ok y) (ok z) f g h = ap (λ (t : Text). ok t) (h x y z)
three_steps (ok x) (ok y) out_of_bounds f g h = refl
three_steps (ok x) (ok y) out_of_range f g h = refl
three_steps (ok x) (ok y) overflow f g h = refl
three_steps (ok x) out_of_bounds c f g h = refl
three_steps (ok x) out_of_range c f g h = refl
three_steps (ok x) overflow c f g h = refl
three_steps out_of_bounds b c f g h = refl
three_steps out_of_range b c f g h = refl
three_steps overflow b c f g h = refl

pub value_of : (r : Result Text) → IsOk r → (t : Text) × (r ≡ ok t)
value_of (ok t) h = (t, refl)
value_of out_of_bounds h = absurd h
value_of out_of_range h = absurd h
value_of overflow h = absurd h

pub some_last : (os : List Text) → 0 < length os → 0 < length (lasts msg_history_max os)
some_last os h = ground (arith, length-drop (length os - msg_history_max) os)
