-- ===== src/Client/SharePaste/Realtime.antt =====
-- The realtime loop (apps/client-cli/src/core/sharepaste-client.ts). The messages of one stream are
-- handled one after the other; the reconnecting of the loop is in Connections.
use Prim.Native.String.{◌++◌}
use sharepaste.Prelude.{String, true, false, Option, none, some, if◌then◌else◌}
use sharepaste.Client.Types.{ClipboardPayload}
use sharepaste.Client.Task.{Task, done, asks, reads, changes, catches, ◌>>=◌, ◌>>◌, Client}
use sharepaste.Client.Ports.{Ports, RealtimeMessage, KeyUpdate, PairingNotice}
use sharepaste.Client.SharePaste.Keys.{get_group_key, apply_group_key_update}
use sharepaste.Client.SharePaste.Items.{tell, apply_incoming, sync_offline}
use sharepaste.Client.SharePaste.Bootstrap.{refresh_current_state}

module _ {X : Type 0} (ports : Ports X) where
  unfoldable pub on_key_update : Option KeyUpdate → Task (Client X) (Unit {0})
  on_key_update none = done tt
  on_key_update (some update) = do apply_group_key_update ports update; done tt

  unfoldable pub on_clipboard : String → Option ClipboardPayload → Task (Client X) (Unit {0})
  on_clipboard device_id none = done tt
  on_clipboard device_id (some item) = do
    key ← get_group_key ports
    apply_incoming ports item key
    asks (ports.transport.ack_item device_id item.item_id)

  unfoldable pub on_pairing : Option PairingNotice → Task (Client X) (Unit {0})
  on_pairing none = done tt
  on_pairing (some notice) = do
    tell ports.around.on_pairing_request notice
    changes λ c. record c {
      outside =
          ports.around.info
            ("pair request from " ++ notice.requester_name ++ " (" ++ notice.requester_platform
              ++ "), request_id=" ++ notice.request_id)
            c.outside;
    }

  unfoldable pub handle_realtime_message : String → RealtimeMessage → Task (Client X) (Unit {0})
  unfolding on_key_update on_clipboard on_pairing
  handle_realtime_message device_id message = do
    on_key_update message.group_key_update
    on_clipboard device_id message.clipboard
    on_pairing message.pairing_request

  -- connectOnce's onData: an error is logged and ends the wait for the stream, but its handlers
  -- stay.
  unfoldable pub on_message : String → RealtimeMessage → Task (Client X) (Unit {0})
  unfolding handle_realtime_message
  on_message device_id message = catches (handle_realtime_message device_id message) λ error.
      changes λ c. record c {
        outside = ports.around.error "realtime stream processing failed" error c.outside;
      }

  unfoldable pub start_realtime : Task (Client X) (Unit {0})
  start_realtime = do
    running ← reads λ c. c.realtime_loop
    if running then done tt else (do
      refresh_current_state ports
      sync_offline ports
      asks ports.around.start_clipboard
      changes λ c. record c { stop_requested = false; realtime_loop = true })

  unfoldable pub stop_realtime : Task (Client X) (Unit {0})
  stop_realtime = changes λ c. record c {
    stop_requested = true;
    realtime_loop = false;
    outside = ports.around.stop_clipboard c.outside;
  }
