-- ===== src/Hub/History.antt =====
-- The history that a new client gets from `send_history_to` of src/dsc_rx_from_ubersdr.cpp.
use ubersdr_dsc.Base.{
  ℕ, suc, ◌<◌, ◌≡◌, refl, ap, sym, ◌∙◌, subst, Bool, true, false, List, [], ◌∷◌, ◌++◌, map, length,
  lasts,
}
use mathlib.Core.List.{append_assoc, append-nil}
use ubersdr_dsc.Base.Text.{Text, codes}
use ubersdr_dsc.Base.Result.{Result, ok, ◌>>=◌, >>=-eq-ok, IsOk, IsOk-bind}
use ubersdr_dsc.Manager.{DecodedMessage}
use ubersdr_dsc.Mmsi.{get_country}
use ubersdr_dsc.Mmsi.Laws.{get_country-IsOk}
use ubersdr_dsc.Output.Json.{concat, to_json}
use ubersdr_dsc.Hub.{
  BroadcastHub, Frame, text, msg_history_max, remember, send_message, send_json, send_history_to,
}
use ubersdr_dsc.Hub.Message.{
  Formats, build_message_json, country_when, added_statements, drop_brace,
}
use ubersdr_dsc.Hub.Envelope.{
  envelope, history_object, remember-lasts, map-lasts, map-append, replay, three_steps, value_of,
  some_last,
}

module _ {R : Type 0} (formats : Formats R) where
  abbrev object_of : DecodedMessage R → Text → Text → Text → Text
  object_of dm sc ac dc =
      drop_brace (to_json dm.message)
      ++ (concat (added_statements formats dm sc ac dc) ++ codes "}")

  -- The object of a message: the members that `toJson` writes, and those that are added.
  abbrev pub object : DecodedMessage R → Result Text
  object dm = get_country dm.message.self_id >>= λ sc.
      country_when formats dm.message.has_address dm.message.address >>= λ ac.
      country_when formats dm.message.has_distress_id dm.message.distress_id >>= λ dc.
      ok (object_of dm sc ac dc)

  build_message_json-object :
      (dm : DecodedMessage R) → build_message_json formats dm ≡ (object dm >>= λ o. ok (envelope o))
  unfolding build_message_json to_json
  build_message_json-object dm =
      three_steps (get_country dm.message.self_id)
        (country_when formats dm.message.has_address dm.message.address)
        (country_when formats dm.message.has_distress_id dm.message.distress_id) _ (object_of dm)
        (λ sc ac dc.
          ap (λ (t : Text). codes "{\"type\":\"message\",\"data\":" ++ t)
            (ap (λ (t : Text). drop_brace (to_json dm.message) ++ t)
                (sym (
                  append_assoc (concat (added_statements formats dm sc ac dc)) (codes "}")
                    (codes "}")))
              ∙ sym (
                  append_assoc (drop_brace (to_json dm.message))
                    (concat (added_statements formats dm sc ac dc) ++ codes "}") (codes "}"))))

  -- `send_message` for some messages, one after another.
  abbrev pub send_all : BroadcastHub → List ℕ → List (DecodedMessage R) → Result BroadcastHub
  send_all hub clients [] = ok hub
  send_all hub clients (dm ∷ dms) =
      send_message formats hub clients dm >>= λ sent. send_all sent.0 clients dms

  abbrev pub objects : List (DecodedMessage R) → Result (List Text)
  objects [] = ok []
  objects (dm ∷ dms) = object dm >>= λ o. objects dms >>= λ os. ok (o ∷ os)

  sent_message :
      (hub : BroadcastHub) (clients : List ℕ) (dm : DecodedMessage R) (o : Text)
      → object dm ≡ ok o
      → send_message formats hub clients dm
        ≡ ok (
          record hub { history = remember hub.history (envelope o) },
          send_json hub clients (envelope o),
        )
  unfolding send_message
  sent_message hub clients dm o e =
      ap
        (λ (r : Result Text).
          r >>= λ j. ok (record hub { history = remember hub.history j }, send_json hub clients j))
        (build_message_json-object dm ∙ ap (λ (r : Result Text). r >>= λ t. ok (envelope t)) e)

  abbrev texts_of : Result (List Text) → List Text
  texts_of (ok os) = os
  texts_of _ = []

  send_all-history :
      (dms : List (DecodedMessage R)) (hub : BroadcastHub) (clients : List ℕ) (seen os : List Text)
      → hub.history ≡ lasts msg_history_max (map envelope seen)
      → objects dms ≡ ok os
      → (h : BroadcastHub) × (send_all hub clients dms ≡ ok h)
        × (h.history ≡ lasts msg_history_max (map envelope (seen ++ os)))
  send_all-history [] hub clients seen os e k = (
    hub,
    refl,
    e
        ∙ ap (λ (ts : List Text). lasts msg_history_max (map envelope ts))
            (sym (append-nil seen) ∙ ap (λ (ts : List Text). seen ++ ts) (ap texts_of k)),
  )
  send_all-history (dm ∷ dms) hub clients seen os e k =
      let first = >>=-eq-ok (object dm) _ k in
      let others = >>=-eq-ok (objects dms) _ first.2 in
      let next : BroadcastHub = record hub { history = remember hub.history (envelope first.0) } in
      let remembered =
        ap (λ (h : List Text). remember h (envelope first.0)) e
        ∙ remember-lasts (map envelope seen) (envelope first.0)
        ∙ ap (lasts msg_history_max) (sym (map-append seen (first.0 ∷ []))) in
      let rest =
        send_all-history dms next clients (seen ++ first.0 ∷ []) others.0 remembered others.1 in
      (
        rest.0,
        ap
              (λ (r : Result (BroadcastHub × List (ℕ × Frame))).
                r >>= λ sent. send_all sent.0 clients dms)
              (sent_message hub clients dm first.0 first.1)
            ∙ rest.1,
        rest.2
            ∙ ap (λ (ts : List Text). lasts msg_history_max (map envelope ts))
                (append_assoc seen (first.0 ∷ []) others.0
                  ∙ ap (λ (ts : List Text). seen ++ ts) (ap texts_of others.2)),
      )

  object-IsOk : (dm : DecodedMessage R) → IsOk (object dm)
  object-IsOk dm =
      IsOk-bind (get_country dm.message.self_id) _ (get_country-IsOk dm.message.self_id) (λ sc.
        IsOk-bind (country_when formats dm.message.has_address dm.message.address) _
          (country_when-IsOk dm.message.has_address dm.message.address)
          (λ ac.
            IsOk-bind (country_when formats dm.message.has_distress_id dm.message.distress_id) _
              (country_when-IsOk dm.message.has_distress_id dm.message.distress_id) (λ dc. tt)))
    where
      country_when-IsOk : (b : Bool) (mmsi : Text) → IsOk (country_when formats b mmsi)
      country_when-IsOk true mmsi = get_country-IsOk mmsi
      country_when-IsOk false mmsi = tt

  objects_total :
      (dms : List (DecodedMessage R))
      → (os : List Text) × (objects dms ≡ ok os) × (length os ≡ length dms)
  objects_total [] = ([], refl, refl)
  objects_total (dm ∷ dms) =
      let first = value_of (object dm) (object-IsOk dm) in
      let others = objects_total dms in
      (
        first.0 ∷ others.0,
        ap (λ (r : Result Text). r >>= λ o. objects dms >>= λ os. ok (o ∷ os)) first.1
            ∙ ap (λ (r : Result (List Text)). r >>= λ os. ok (first.0 ∷ os)) others.1,
        ap suc others.2,
      )

  -- Messages, one or more, are all sent, with a hub whose history is empty; and a client that connects
  -- then gets one text: the history with the objects of the last 500 of them, the oldest first.
  pub send_history_to-sent :
      (dms : List (DecodedMessage R)) (hub : BroadcastHub) (clients : List ℕ) (ws : ℕ)
      → hub.history ≡ []
      → 0 < length dms
      → (os : List Text) × (objects dms ≡ ok os)
        × ((send_all hub clients dms >>= λ h. ok (send_history_to h ws))
            ≡ ok ((ws, text (history_object (lasts msg_history_max os))) ∷ []))
  send_history_to-sent dms hub clients ws e l =
      let all = objects_total dms in
      let sent = send_all-history dms hub clients [] all.0 e all.1 in
      let some = subst (λ (n : ℕ). 0 < n) (sym all.2) l in
      (
        all.0,
        all.1,
        ap (λ (r : Result BroadcastHub). r >>= λ h. ok (send_history_to h ws)) sent.1
            ∙ ap (λ (fs : List (ℕ × Frame)). ok fs)
                (replay sent.0 ws (lasts msg_history_max all.0)
                  (sent.2 ∙ sym (map-lasts msg_history_max all.0)) (some_last all.0 some)),
      )
