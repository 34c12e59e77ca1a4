-- ===== src/Manager.antt =====
-- ChannelManager of src/channel_manager.h and src/channel_manager.cpp: its channels, the messages
-- that it stores and the counters of each channel. Threads, sockets and the requests to the server
-- are not modelled; their callbacks and ends are steps, which the environment takes in any order.
pub mod Steps
pub mod Channels
pub mod Counters
pub mod Laws
pub mod Frames
use ubersdr_dsc.Base.{
  ℕ, ◌+◌, ◌-◌, Bool, true, false, ◌&&◌, ◌||◌, not, ltb, leb, ◌==◌, if◌then◌else◌, List, [], ◌∷◌,
  ◌++◌, map, length, drop, take,
}
use ubersdr_dsc.Base.Int.{ℤ, pos, negsuc, pos_part, neg_part}
use ubersdr_dsc.Base.Text.{Text, codes, text_eq, is_empty}
use ubersdr_dsc.Message.{Message}

-- Equality of integers.
unfoldable pub equals : ℤ → ℤ → Bool
equals a b = pos_part a == pos_part b && neg_part a == neg_part b

unfoldable pub http_to_ws : Text → Text
http_to_ws url =
    if text_eq (take 8 url) (codes "https://")
    then codes "wss://" ++ drop 8 url
    else if text_eq (take 7 url) (codes "http://")
    then codes "ws://" ++ drop 7 url
    else url

unfoldable pub strip_slash : Text → Text
strip_slash [] = []
strip_slash (c ∷ []) = if c == b'/' then [] else c ∷ []
strip_slash (c ∷ d ∷ rest) = c ∷ strip_slash (d ∷ rest)

-- `float` and `double`: what the counters do with them.
pub record Levels (R : Type 0) : Type 0 where
  pub nought : R
  pub plus : R → R → R

pub record ChannelMetrics (R : Type 0) : Type 0 where
  pub frequency_hz : ℤ
  pub message_count : ℕ
  pub valid_message_count : ℕ
  pub total_errors : ℕ
  pub rssi_sum : R
  pub rssi_count : ℕ
  pub last_message_time : ℤ
  pub enabled : Bool
  pub connected : Bool
  pub reconnect_count : ℕ

pub record Channel (R : Type 0) : Type 0 where
  pub frequency_hz : ℤ
  pub session_id : Text
  pub connected : Bool
  pub should_run : Bool
  pub enabled : Bool
  pub metrics : ChannelMetrics R

pub record DecodedMessage (R : Type 0) : Type 0 where
  pub message : Message
  pub errors : ℕ
  pub rssi : R
  pub frequency_hz : ℤ
  pub received_at : ℤ

pub record ChannelManager (R : Type 0) : Type 0 where
  pub channels : List (Channel R)
  pub messages : List (DecodedMessage R)

unfoldable pub no_channels : {R : Type 0} → ChannelManager R
no_channels = record { channels = []; messages = [] }

-- The first channel on a frequency, changed.
unfoldable pub update_channel :
    {R : Type 0} → ℤ → (Channel R → Channel R) → List (Channel R) → List (Channel R)
unfolding equals
update_channel f change [] = []
update_channel f change (c ∷ cs) =
    if equals c.frequency_hz f then change c ∷ cs else c ∷ update_channel f change cs

unfoldable pub has_channel : {R : Type 0} → ℤ → List (Channel R) → Bool
unfolding equals
has_channel f [] = false
has_channel f (c ∷ cs) = equals c.frequency_hz f || has_channel f cs

unfoldable pub new_channel : {R : Type 0} → Levels R → Text → ℤ → Channel R
new_channel levels session f = record {
  frequency_hz = f;
  session_id = session;
  connected = false;
  should_run = false;
  enabled = true;
  metrics = record {
    frequency_hz = f;
    message_count = 0;
    valid_message_count = 0;
    total_errors = 0;
    rssi_sum = levels.nought;
    rssi_count = 0;
    last_message_time = pos 0;
    enabled = true;
    connected = false;
    reconnect_count = 0;
  };
}

unfoldable pub add_channel :
    {R : Type 0} → Levels R → Text → ℤ → ChannelManager R → ChannelManager R
unfolding has_channel new_channel
add_channel levels session f m =
    if has_channel f m.channels
    then m
    else record m { channels = m.channels ++ new_channel levels session f ∷ [] }

-- The first channel on a frequency taken out.
unfoldable pub erase_channel : {R : Type 0} → ℤ → List (Channel R) → List (Channel R)
unfolding equals
erase_channel f [] = []
erase_channel f (c ∷ cs) = if equals c.frequency_hz f then cs else c ∷ erase_channel f cs

unfoldable pub remove_channel : {R : Type 0} → ℤ → ChannelManager R → ChannelManager R
unfolding erase_channel
remove_channel f m = record m { channels = erase_channel f m.channels }

pub enabled_as : {R : Type 0} → Bool → Channel R → Channel R
enabled_as on c = record c { enabled = on; metrics = record (c.metrics) { enabled = on } }

unfoldable pub enable_channel : {R : Type 0} → ℤ → Bool → ChannelManager R → ChannelManager R
unfolding update_channel enabled_as
enable_channel f on m = record m { channels = update_channel f (enabled_as on) m.channels }

pub runs_as : {R : Type 0} → Bool → Channel R → Channel R
runs_as on c = record c { should_run = on }

unfoldable pub start_all : {R : Type 0} → ChannelManager R → ChannelManager R
unfolding runs_as
start_all m = record m { channels = map (runs_as true) m.channels }

unfoldable pub stop_all : {R : Type 0} → ChannelManager R → ChannelManager R
unfolding runs_as
stop_all m = record m { channels = map (runs_as false) m.channels }

pub connected_as : {R : Type 0} → Bool → Channel R → Channel R
connected_as on c = record c { connected = on; metrics = record (c.metrics) { connected = on } }

-- The socket's callbacks for an opened and for a closed connection.
unfoldable pub socket_changed : {R : Type 0} → ℤ → Bool → ChannelManager R → ChannelManager R
unfolding update_channel connected_as
socket_changed f on m = record m { channels = update_channel f (connected_as on) m.channels }

pub after_session : {R : Type 0} → Channel R → Channel R
unfolding connected_as
after_session c =
    let off = connected_as false c in
    if c.should_run
    then record off {
      metrics = record (off.metrics) { reconnect_count = off.metrics.reconnect_count + 1 };
    }
    else off

-- The end of a session in the channel's loop.
unfoldable pub session_ended : {R : Type 0} → ℤ → ChannelManager R → ChannelManager R
unfolding update_channel after_session
session_ended f m = record m { channels = update_channel f after_session m.channels }

pub counted : {R : Type 0} → Levels R → DecodedMessage R → Channel R → Channel R
counted levels dm c = record c {
  metrics = record (c.metrics) {
    message_count = c.metrics.message_count + 1;
    valid_message_count =
        c.metrics.valid_message_count + (if dm.message.valid && dm.message.ecc_ok then 1 else 0);
    total_errors = c.metrics.total_errors + dm.errors;
    rssi_sum = levels.plus c.metrics.rssi_sum dm.rssi;
    rssi_count = c.metrics.rssi_count + 1;
    last_message_time = dm.received_at;
  };
}

-- The decoder's callback of a channel has two critical sections: the counters of the channel, and
-- then the list of all messages.
unfoldable pub message_counted :
    {R : Type 0} → Levels R → DecodedMessage R → ChannelManager R → ChannelManager R
unfolding update_channel counted
message_counted levels dm m = record m {
  channels = update_channel dm.frequency_hz (counted levels dm) m.channels;
}

unfoldable pub message_stored :
    {R : Type 0} → DecodedMessage R → ChannelManager R → ChannelManager R
message_stored dm m = record m { messages = m.messages ++ dm ∷ [] }

unfoldable pub get_metrics : {R : Type 0} → ChannelManager R → List (ChannelMetrics R)
get_metrics {R} m = map (λ (c : Channel R). c.metrics) m.channels

-- The last messages, or all of them.
unfoldable pub get_messages : {R : Type 0} → ℤ → ChannelManager R → List (DecodedMessage R)
get_messages (negsuc n) m = m.messages
get_messages (pos n) m =
    if n == 0 || leb (length m.messages) n
    then m.messages
    else drop (length m.messages - n) m.messages
