-- ===== src/Examples/Channels.antt =====
-- The theorems about src/channel_manager.cpp on a manager with one channel.
use ubersdr_dsc.Base.{
  ℕ, ◌+◌, ◌≡◌, refl, arith, true, List, [], ◌∷◌, ◌++◌, length, ltb, if◌then◌else◌,
}
use ubersdr_dsc.Base.Int.{pos, negsuc}
use ubersdr_dsc.Message.{initial}
use ubersdr_dsc.Manager.{
  ChannelManager, DecodedMessage, Levels, no_channels, add_channel, start_all, socket_changed,
  message_counted, message_stored, get_messages,
}
use ubersdr_dsc.Manager.Steps.{Running}
use ubersdr_dsc.Pcm.Arith.{to_int, to_uint}
use ubersdr_dsc.Pcm.Varint.{read_uvarint}
use ubersdr_dsc.Pcm.Varint.Roundtrip.{write_uvarint}
use ubersdr_dsc.Pcm.Codec.{configure, decode_body}
use ubersdr_dsc.Pcm.Header.{decode_header}
use ubersdr_dsc.Pcm.Header.Layout.{write_resync}
use ubersdr_dsc.Pcm.Stream.{is_zstd_frame, decode_packet}
use ubersdr_dsc.Manager.Frames.{new_loop, samples_given, binary_frames}
use ubersdr_dsc.Manager.Frames.Calls.{received, sent}
use ubersdr_dsc.Manager.Frames.Laws.{binary_frames-sent}
use ubersdr_dsc.Manager.Laws.{get_messages_lem}

abbrev levels : Levels ℕ
levels = record { nought = 0; plus = ◌+◌ }

abbrev heard : DecodedMessage ℕ
heard = record {
  message = initial (112 ∷ 112 ∷ 0 ∷ []) [];
  errors = 2;
  rssi = 7;
  frequency_hz = pos 2187500;
  received_at = pos 1000;
}

abbrev started : ChannelManager ℕ
started = start_all (add_channel levels [] (pos 2187500) no_channels)

abbrev quiet : ChannelManager ℕ → Running ℕ
quiet m = record { manager = m; underway = [] }

abbrev connected : ChannelManager ℕ
connected = socket_changed (pos 2187500) true started

-- Two messages counted, and the first of them stored.
abbrev one_underway : Running ℕ
one_underway = record {
  manager =
      message_stored heard (message_counted levels heard (message_counted levels heard connected));
  underway = heard ∷ [];
}

abbrev after_two : ChannelManager ℕ
after_two = message_stored heard one_underway.manager

get_messages_lem_example :
    (older : List (DecodedMessage ℕ)) × (older ++ get_messages (pos 1) after_two
      ≡ after_two.messages)
    × (length (get_messages (pos 1) after_two)
        ≡ (if ltb 1 (length after_two.messages) then 1 else length after_two.messages))
get_messages_lem_example = get_messages_lem 1 after_two (omega arith)

-- A frame of an older version, one too short, and two pairs of samples sent as they are, at 12 kHz.
abbrev frames : List (List ℕ)
frames =
    (0x28 ∷ 0xB5 ∷ 0x2F ∷ 0xFD ∷ 0 ∷ [])
    ∷ (0x50 ∷ [])
    ∷ write_resync 0xE8 1 4 12000 2 (negsuc 4999) (negsuc 5999)
        (1 ∷ 0 ∷ 2 ∷ 0 ∷ 3 ∷ 0 ∷ 255 ∷ 255 ∷ [])
    ∷ []

binary_frames-sent_example :
    received (pos 10000) (binary_frames true new_loop frames).1
    ≡ sent (pos 10000) new_loop.v4 frames
binary_frames-sent_example = binary_frames-sent true new_loop frames

pairs_sent :
    sent (pos 10000) new_loop.v4 frames
    ≡ (pos 12000, (2, pos 1 ∷ pos 2 ∷ pos 3 ∷ negsuc 0 ∷ [])) ∷ []
unfolding is_zstd_frame decode_packet decode_header samples_given write_resync write_uvarint
    read_uvarint to_int configure decode_body to_uint
pairs_sent = refl
