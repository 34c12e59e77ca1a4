-- ===== src/Hub.antt =====
-- `BroadcastHub` of src/dsc_rx_from_ubersdr.cpp: the messages that are remembered for new clients,
-- and what is sent to which client. A client is a number; the list of the clients is the web server's.
pub mod Message
pub mod Envelope
pub mod History
pub mod Metrics
pub mod Frequencies
use ubersdr_dsc.Base.{
  ℕ, zero, suc, ◌/◌, ◌%◌, ◌^◌, ◌==◌, leb, ◌&&◌, ◌||◌, not, if◌then◌else◌, Bool, true, false, Option,
  none, some, List, [], ◌∷◌, ◌++◌, map, length, drop,
}
use ubersdr_dsc.Base.Int.{ℤ}
use ubersdr_dsc.Base.Text.{Text, codes, is_empty}
use ubersdr_dsc.Base.Result.{Result, ok, ◌>>=◌}
use ubersdr_dsc.Pcm.Arith.{to_uint}
use ubersdr_dsc.Manager.{DecodedMessage, equals}
use ubersdr_dsc.Output.{join}
use ubersdr_dsc.Output.Json.{concat}
use Message.{Formats, build_message_json}

abbrev pub msg_history_max : ℕ
msg_history_max = 500

pub record BroadcastHub : Type 0 where
  pub has_server : Bool
  pub audio_subs : List (ℕ × ℤ)
  -- The oldest first
  pub history : List Text

abbrev is_none {ℓ} : {A : Type ℓ} → List A → Bool
is_none [] = true
is_none (x ∷ xs) = false

-- A text frame or a binary frame.
pub data Frame : Type 0 where
  text : Text → Frame
  binary : Text → Frame

-- `std::map` by its entries: at most one for each client.
unfoldable pub unsub_audio : ℕ → List (ℕ × ℤ) → List (ℕ × ℤ)
unsub_audio ws [] = []
unsub_audio ws ((w, f) ∷ subs) =
    let others = unsub_audio ws subs in if w == ws then others else (w, f) ∷ others

unfoldable pub sub_audio : ℕ → ℤ → List (ℕ × ℤ) → List (ℕ × ℤ)
unfolding unsub_audio
sub_audio ws f subs = (ws, f) ∷ unsub_audio ws subs

unfoldable pub find_sub : ℕ → List (ℕ × ℤ) → Option ℤ
find_sub ws [] = none
find_sub ws ((w, f) ∷ subs) = if w == ws then some f else find_sub ws subs

abbrev pub hears : List (ℕ × ℤ) → ℤ → ℕ → Bool
hears subs freq ws = elim (find_sub ws subs) [ none ↦ false | some f ↦ equals f freq ]

abbrev pub listeners : List (ℕ × ℤ) → ℤ → List ℕ → List ℕ
listeners subs freq [] = []
listeners subs freq (ws ∷ clients) =
    let others = listeners subs freq clients in if hears subs freq ws then ws ∷ others else others

-- The lowest `n` bytes of a word, the lowest one first.
unfoldable pub low_bytes : ℕ → ℕ → Text
low_bytes zero w = []
low_bytes (suc n) w = w % 256 ∷ low_bytes n (w / 256)

-- The type of the frame, the frequency and the samples, as they are in memory.
unfoldable pub audio_frame : ℤ → List ℤ → Text
unfolding low_bytes
audio_frame freq pcm =
    4 ∷ (low_bytes 8 (to_uint 64 freq) ++ concat (map (λ s. low_bytes 2 (to_uint 16 s)) pcm))

unfoldable pub send_audio : BroadcastHub → List ℕ → ℤ → List ℤ → List (ℕ × Frame)
unfolding audio_frame find_sub
send_audio hub clients freq pcm =
    if hub.has_server && (not (is_none pcm) && not (is_none hub.audio_subs))
    then map (λ ws. (ws, binary (audio_frame freq pcm))) (listeners hub.audio_subs freq clients)
    else []

unfoldable pub send_json : BroadcastHub → List ℕ → Text → List (ℕ × Frame)
send_json hub clients j = if hub.has_server then map (λ ws. (ws, text j)) clients else []

-- The history with one text more.
unfoldable pub remember : List Text → Text → List Text
remember history j =
    if leb msg_history_max (length history) then drop 1 history ++ j ∷ [] else history ++ j ∷ []

unfoldable pub send_message :
    {R : Type 0}
    → Formats R
    → BroadcastHub
    → List ℕ
    → DecodedMessage R
    → Result (BroadcastHub × List (ℕ × Frame))
unfolding build_message_json remember send_json
send_message formats hub clients dm = build_message_json formats dm >>= λ j.
    ok (record hub { history = remember hub.history j }, send_json hub clients j)

abbrev pub starts_with : Text → Text → Bool
starts_with [] s = true
starts_with (k ∷ key) [] = false
starts_with (k ∷ key) (c ∷ s) = k == c && starts_with key s

-- What comes after the first place where a text is found.
unfoldable pub find_after : Text → Text → Option Text
find_after key [] = if starts_with key [] then some [] else none
find_after key (c ∷ s) =
    let later = find_after key s in
    if starts_with key (c ∷ s) then some (drop (length key) (c ∷ s)) else later

abbrev pub drop_last : Text → Text
drop_last [] = []
drop_last (c ∷ []) = []
drop_last (c ∷ d ∷ s) = c ∷ drop_last (d ∷ s)

unfoldable pub data_of : Text → Text
unfolding find_after
data_of entry = elim (find_after (codes "\"data\":") entry) [
  | none ↦ codes "{}"
  | some rest ↦ drop_last rest
]

unfoldable pub send_history_to : BroadcastHub → ℕ → List (ℕ × Frame)
unfolding data_of
send_history_to hub ws = elim (hub.history) [
  | [] ↦ []
  | entry ∷ entries ↦
      (
        ws,
        text (
            codes "{\"type\":\"history\",\"data\":["
            ++ (join (codes ",") (map data_of (entry ∷ entries)) ++ codes "]}")),
      )
      ∷ []
]
