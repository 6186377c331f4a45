-- ===== src/Client/SharePaste/Coherence/Calls.antt =====
-- The session and the flag of the loop through the calls for a device and the realtime loop
-- (apps/client-cli/src/core/sharepaste-client.ts).
use sharepaste.Client.SharePaste.Realtime.{
  on_key_update, on_clipboard, on_pairing, handle_realtime_message, on_message, start_realtime,
  stop_realtime,
}
use sharepaste.Client.SharePaste.Coherence.Registration.{refresh_current_state-KeepsSane}
use sharepaste.Client.SharePaste.Coherence.Items.{
  tell-KeepsSane, apply_incoming-KeepsSane, sync_offline-KeepsSane,
}
use sharepaste.Client.SharePaste.Requests.{
  client_create_bind_code, client_request_bind, client_confirm_bind, client_list_devices,
  client_remove_device, client_get_policy, client_update_policy,
}
use sharepaste.Prelude.{◌≡◌, refl, String, Bool, true, false, Option, none, some}
use sharepaste.Types.{PolicyPatch}
use sharepaste.Client.Types.{ClipboardPayload}
use sharepaste.Client.Task.{Client, asks, changes, ◌>>◌}
use sharepaste.Client.Task.Outcomes.{Leaves, Leaves-bind, Leaves-if, Leaves-reads}
use sharepaste.Client.Ports.{Ports, RealtimeMessage, KeyUpdate, PairingNotice}
use sharepaste.Client.SharePaste.Items.{sync_offline}
use sharepaste.Client.SharePaste.Bootstrap.{refresh_current_state}
use sharepaste.Client.SharePaste.Coherence.{
  Sane, KeepsSane, bind-KeepsSane, done-KeepsSane, asks-KeepsSane, if-KeepsSane, catches-KeepsSane,
  aside-KeepsSane, current_state-KeepsSane, get_group_key-KeepsSane, Task, Leaves-changes_last,
  apply_group_key_update-KeepsSane,
}

module _ {X : Type 0} {loop : Bool} (ports : Ports X) where
  pub client_create_bind_code-KeepsSane : KeepsSane loop (client_create_bind_code ports)
  unfolding client_create_bind_code
  client_create_bind_code-KeepsSane =
      bind-KeepsSane _ _ current_state-KeepsSane λ state. asks-KeepsSane _

  pub client_request_bind-KeepsSane :
      (code : String) → KeepsSane loop (client_request_bind ports code)
  unfolding client_request_bind
  client_request_bind-KeepsSane code =
      bind-KeepsSane _ _ current_state-KeepsSane λ state. asks-KeepsSane _

  pub client_confirm_bind-KeepsSane :
      (request : String) (approve : Bool)
      → KeepsSane loop (client_confirm_bind ports request approve)
  unfolding client_confirm_bind
  client_confirm_bind-KeepsSane request approve =
      bind-KeepsSane _ _ current_state-KeepsSane λ state.
        bind-KeepsSane _ _ (asks-KeepsSane _) λ result.
          bind-KeepsSane _ _
            (if-KeepsSane _ _ _
              (bind-KeepsSane _ _ (apply_group_key_update-KeepsSane ports _) λ s. done-KeepsSane tt)
              (done-KeepsSane tt))
            λ applied. done-KeepsSane _

  pub client_list_devices-KeepsSane : KeepsSane loop (client_list_devices ports)
  unfolding client_list_devices
  client_list_devices-KeepsSane =
      bind-KeepsSane _ _ current_state-KeepsSane λ state. asks-KeepsSane _

  pub client_remove_device-KeepsSane :
      (target : String) → KeepsSane loop (client_remove_device ports target)
  unfolding client_remove_device
  client_remove_device-KeepsSane target =
      bind-KeepsSane _ _ current_state-KeepsSane λ state. asks-KeepsSane _

  pub client_get_policy-KeepsSane : KeepsSane loop (client_get_policy ports)
  unfolding client_get_policy
  client_get_policy-KeepsSane = bind-KeepsSane _ _ current_state-KeepsSane λ state. asks-KeepsSane _

  pub client_update_policy-KeepsSane :
      (patch : PolicyPatch) → KeepsSane loop (client_update_policy ports patch)
  unfolding client_update_policy
  client_update_policy-KeepsSane patch = bind-KeepsSane _ _ current_state-KeepsSane λ state.
      bind-KeepsSane _ _ (asks-KeepsSane _)
        λ current. bind-KeepsSane _ _ (asks-KeepsSane _) λ updated. done-KeepsSane tt

  on_key_update-KeepsSane :
      (update : Option KeyUpdate) → KeepsSane loop (on_key_update ports update)
  unfolding on_key_update
  on_key_update-KeepsSane none = done-KeepsSane tt
  on_key_update-KeepsSane (some update) =
      bind-KeepsSane _ _ (apply_group_key_update-KeepsSane ports update) λ s. done-KeepsSane tt

  on_clipboard-KeepsSane :
      (id : String) (item : Option ClipboardPayload) → KeepsSane loop (on_clipboard ports id item)
  unfolding on_clipboard
  on_clipboard-KeepsSane id none = done-KeepsSane tt
  on_clipboard-KeepsSane id (some item) = bind-KeepsSane _ _ (get_group_key-KeepsSane ports) λ key.
      bind-KeepsSane _ _ (apply_incoming-KeepsSane ports item key) λ applied. asks-KeepsSane _

  on_pairing-KeepsSane : (notice : Option PairingNotice) → KeepsSane loop (on_pairing ports notice)
  unfolding on_pairing
  on_pairing-KeepsSane none = done-KeepsSane tt
  on_pairing-KeepsSane (some notice) =
      bind-KeepsSane _ _ (tell-KeepsSane _ notice) λ told. aside-KeepsSane _ (λ c. refl) (λ c. refl)

  handle_realtime_message-KeepsSane :
      (id : String) (message : RealtimeMessage)
      → KeepsSane loop (handle_realtime_message ports id message)
  unfolding handle_realtime_message
  handle_realtime_message-KeepsSane id message =
      bind-KeepsSane _ _ (on_key_update-KeepsSane _) λ updated.
        bind-KeepsSane _ _ (on_clipboard-KeepsSane id _) λ applied. on_pairing-KeepsSane _

  pub on_message-KeepsSane :
      (id : String) (message : RealtimeMessage) → KeepsSane loop (on_message ports id message)
  unfolding on_message
  on_message-KeepsSane id message =
      catches-KeepsSane _ _ (handle_realtime_message-KeepsSane id message)
        λ error. aside-KeepsSane _ (λ c. refl) (λ c. refl)

module _ {X : Type 0} (ports : Ports X) where
  abbrev listen : Task (Client X) (Unit {0})
  listen = do
    refresh_current_state ports
    sync_offline ports
    asks ports.around.start_clipboard
    changes λ c. record c { stop_requested = false; realtime_loop = true }

  -- The loop is set last, so an error leaves it off.
  listen-Sane :
      {loop : Bool} (c : Client X) → Sane loop c → Leaves (Sane true) (Sane loop) (listen c)
  listen-Sane {loop} c v =
      Leaves-bind _ (Sane loop) _ c (refresh_current_state-KeepsSane ports c v) λ state c1 v1.
        Leaves-bind _ (Sane loop) _ c1 (sync_offline-KeepsSane ports c1 v1) λ synced c2 v2.
          Leaves-bind _ (Sane loop) _ c2 (asks-KeepsSane _ c2 v2)
            λ started c3 v3. Leaves-changes_last _ c3 (record { fits = v3.fits; loops = refl })

  pub start_realtime-Sane :
      {loop : Bool} (c : Client X)
      → Sane loop c
      → loop ≡ false
      → Leaves (Sane true) (Sane loop) (start_realtime ports c)
  unfolding start_realtime
  start_realtime-Sane c v off =
      let still = v.loops in
      Leaves-reads _ _ c
        (Leaves-if c.realtime_loop _ _ c (λ e. absurd (cc (e, still, off))) λ e. listen-Sane c v)

  pub stop_realtime-Sane :
      {loop : Bool} (c : Client X)
      → Sane loop c
      → Leaves (Sane false) (Sane loop) (stop_realtime ports c)
  unfolding stop_realtime
  stop_realtime-Sane c v = Leaves-changes_last _ c (record { fits = v.fits; loops = refl })
