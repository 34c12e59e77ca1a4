-- ===== src/Hub/Metrics.antt =====
-- `send_metrics` of src/dsc_rx_from_ubersdr.cpp: the counters of the channels for the clients.
use ubersdr_dsc.Base.{ℕ, ltb, if◌then◌else◌, List, [], ◌∷◌, ◌++◌, map}
use ubersdr_dsc.Base.Text.{Text, codes}
use ubersdr_dsc.Manager.{ChannelMetrics}
use ubersdr_dsc.Output.{decimal, decimal_int, join}
use ubersdr_dsc.Output.Json.{plain_member, truth, concat}
use ubersdr_dsc.Hub.{BroadcastHub, Frame, send_json}
use ubersdr_dsc.Hub.Message.{Formats, freq_band_name}

-- What is done with `double` numbers: 0.0, a sum by a count, and a part of a count in percent.
pub record Averages (R : Type 0) : Type 0 where
  pub nought : R
  pub mean : R → ℕ → R
  pub percent : ℕ → ℕ → R

module _ {R : Type 0} (formats : Formats R) (averages : Averages R) where
  unfoldable pub metrics_entry : ChannelMetrics R → Text
  unfolding freq_band_name
  metrics_entry m =
      let ar =
        if ltb 0 m.rssi_count then averages.mean m.rssi_sum m.rssi_count else averages.nought in
      let er =
        if ltb 0 m.message_count
        then averages.percent m.total_errors m.message_count
        else averages.nought in
      codes "{\"frequencyHz\":"
      ++ (decimal_int m.frequency_hz
          ++ concat (
              plain_member "frequencyMHz" (b'"' ∷ (formats.megahertz m.frequency_hz ++ codes "\""))
              ∷ plain_member "band" (b'"' ∷ (codes (freq_band_name m.frequency_hz) ++ codes "\""))
              ∷ plain_member "connected" (truth m.connected)
              ∷ plain_member "enabled" (truth m.enabled)
              ∷ plain_member "messageCount" (decimal m.message_count)
              ∷ plain_member "validMessageCount" (decimal m.valid_message_count)
              ∷ plain_member "totalErrors" (decimal m.total_errors)
              ∷ plain_member "errorRate" (formats.level er)
              ∷ plain_member "avgRssi" (formats.level ar)
              ∷ plain_member "lastMessageTime" (decimal_int m.last_message_time)
              ∷ plain_member "reconnectCount" (decimal m.reconnect_count)
              ∷ codes "}"
              ∷ []))

  unfoldable pub send_metrics : BroadcastHub → List ℕ → List (ChannelMetrics R) → List (ℕ × Frame)
  unfolding metrics_entry send_json
  send_metrics hub clients metrics =
      if hub.has_server
      then send_json hub clients (
          codes "{\"type\":\"metrics\",\"data\":["
          ++ (join (codes ",") (map metrics_entry metrics) ++ codes "]}"))
      else []
