-- ===== src/Manager/Steps.antt =====
-- What may happen to ChannelManager of src/channel_manager.cpp: calls of its operations by the program,
-- and callbacks of its channels' sockets, decoders and loops, in any order. The callback of a decoder
-- is two steps, since other threads may come between its two critical sections.
use ubersdr_dsc.Base.{Bool, ◌≡◌, List, [], ◌∷◌, ◌++◌}
use ubersdr_dsc.Base.Int.{ℤ}
use ubersdr_dsc.Base.Text.{Text}
use ubersdr_dsc.Manager.{
  ChannelManager, DecodedMessage, Levels, add_channel, remove_channel, enable_channel, start_all,
  stop_all, socket_changed, session_ended, message_counted, message_stored, no_channels,
}

-- The manager, and the messages that are counted and not stored yet.
pub record Running (R : Type 0) : Type 0 where
  pub manager : ChannelManager R
  pub underway : List (DecodedMessage R)

-- Another manager, with the same messages underway.
abbrev pub with : {R : Type 0} → Running R → ChannelManager R → Running R
with r m = record r { manager = m }

pub data Step {R : Type 0} (levels : Levels R) : Running R → Running R → Type 0 where
  adds :
      (r : Running R) (session : Text) (f : ℤ)
      → Step levels r (with r (add_channel levels session f r.manager))
  removes : (r : Running R) (f : ℤ) → Step levels r (with r (remove_channel f r.manager))
  enables :
      (r : Running R) (f : ℤ) (on : Bool) → Step levels r (with r (enable_channel f on r.manager))
  starts : (r : Running R) → Step levels r (with r (start_all r.manager))
  stops : (r : Running R) → Step levels r (with r (stop_all r.manager))
  connects :
      (r : Running R) (f : ℤ) (on : Bool) → Step levels r (with r (socket_changed f on r.manager))
  ends : (r : Running R) (f : ℤ) → Step levels r (with r (session_ended f r.manager))
  counts :
      (r : Running R) (dm : DecodedMessage R)
      → Step levels r (record {
        manager = message_counted levels dm r.manager;
        underway = r.underway ++ dm ∷ [];
      })
  stores :
      (m : ChannelManager R) (before others : List (DecodedMessage R)) (dm : DecodedMessage R)
      → Step levels
          (record { manager = m; underway = before ++ dm ∷ others })
          (record { manager = message_stored dm m; underway = before ++ others })

-- What steps lead to from a new manager.
pub data Reachable {R : Type 0} (levels : Levels R) : Running R → Type 0 where
  fresh : (r : Running R) → r ≡ record { manager = no_channels; underway = [] } → Reachable levels r
  after : {r s : Running R} → Reachable levels r → Step levels r s → Reachable levels s
