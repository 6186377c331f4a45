-- ===== src/Tests/BridgeRuns.antt =====
-- The theorems on the client and the bridge at runs that meet their hypotheses.
use sharepaste.Client.Bridge.Options.{
  RuntimeOptions, parse_args, parse_args-written, name_is, resets,
}
use sharepaste.Client.SharePaste.Repeats.{apply_incoming_again}
use sharepaste.Client.SharePaste.Rotations.{updated, with_state, rotated_key_is_used}
use sharepaste.Client.Session.{attach, require_state}
use sharepaste.Client.Types.{PersistedState}
use sharepaste.Client.Ports.{KeyUpdate}
use sharepaste.Env.{hash_recovery_phrase}
use sharepaste.Handlers.Errors.{details_of}
use sharepaste.Store.Common.{cleanup_expired, require_device}
use sharepaste.Store.Devices.{get_device_context, recover_group}
use sharepaste.Handlers.Unary.{get_device_context_handler, recover_group_handler}
use sharepaste.Client.SharePaste.Refusals.{attached, recovery_refused, bootstrap_refused}
use sharepaste.Client.Ports.{Ports}
use sharepaste.Client.SharePaste.Losses.{after_failure, failed_item_is_lost}
use sharepaste.Client.SharePaste.Bootstrap.{
  placeholder, stale_device_state, says_not_found, bootstrap, recover_group_client,
}
use sharepaste.Client.SharePaste.Items.{apply_all, apply_incoming}
use sharepaste.Client.SyncEngine.{new_engine}
use sharepaste.SeenItems.{seen_capacity}
use sharepaste.Map.{get, empty, size, size-empty, has, set, values}
use sharepaste.Client.Grpc.Server.{grpc_transport}
use sharepaste.Prelude.{
  ◌≡◌, String, true, none, some, List, [], ◌∷◌, pos, ◌==◌, ◌<◌, refl, false, arith, if◌then◌else◌,
}
use sharepaste.Exec.{World}
use sharepaste.Exec
use sharepaste.Client.StateFile.{no_fields}
use sharepaste.Client.Session.Coherence.{coherent}
use sharepaste.Client.Task.{Client, thrown, asks, ◌>>◌, settle, done, ◌>>=◌, returned}
use sharepaste.Client.SharePaste.Keys.{
  new_client, extract_group_key, open_sealed, get_group_key, apply_group_key_update,
}
use sharepaste.Client.Bridge.Handlers.{Bridge, BridgeRequest, Conversions}
use sharepaste.Client.Bridge.Dispatch.{Arrival, requested, received, after_arrivals, new_bridge}
use sharepaste.Client.Bridge.Coherence.Arrivals.{bridge_in_step}
use sharepaste.Tests.Worlds.{office, payload}
use sharepaste.Tests.ClientPorts.{sample_ports, sample_identity, stored}

abbrev sample_conversions : Conversions
sample_conversions = record { trim = λ s. s; number_of = λ json. pos 0; is_zero = λ s. s == "0" }

abbrev asks_for : String → BridgeRequest
asks_for method = record { id = "1"; method = method; params = no_fields }

abbrev morning : List Arrival
morning =
    requested (asks_for "startRealtime")
    ∷ received "z"
        (record { group_key_update = none; pairing_request = none; clipboard = some payload })
    ∷ requested (asks_for "stopRealtime")
    ∷ []

abbrev after_morning : Bridge World
after_morning = after_arrivals sample_ports sample_conversions "desk" morning (new_bridge office)

bridge_in_step_example :
    (after_morning.realtime_running ≡ after_morning.client.realtime_loop)
    × (coherent after_morning.client.session.state after_morning.client.session.sync_engine ≡ true)
bridge_in_step_example = bridge_in_step sample_ports sample_conversions "desk" morning office

abbrev fresh : Client World
fresh = new_client office

abbrev refused_world : World
refused_world = (sample_ports.transport.recover_group "words" "desk" "linux" "key" office).1

refuses_words :
    sample_ports.transport.recover_group "words" "desk" "linux" "key" office
    ≡ (thrown "recovery phrase invalid", refused_world)
unfolding grpc_transport recover_group_handler recover_group Exec.◌>>=◌ cleanup_expired get set
    empty details_of hash_recovery_phrase values
refuses_words = refl

recovery_refused_example : recover_group_client sample_ports "words" "desk" fresh ≡ (
  thrown "recovery phrase invalid",
  attached sample_ports (placeholder "desk" "linux" "words" sample_identity) refused_world fresh,
)
unfolding new_client
recovery_refused_example =
    recovery_refused sample_ports "words" "desk" "recovery phrase invalid" sample_identity fresh
      office refused_world refl refuses_words

abbrev unknown_world : World
unknown_world = (sample_ports.transport.get_device_context "z" office).1

z_unknown :
    sample_ports.transport.get_device_context "z" office
    ≡ (thrown "device not found", unknown_world)
unfolding grpc_transport get_device_context_handler get_device_context Exec.◌>>=◌ cleanup_expired
    require_device get set empty details_of
z_unknown = refl

-- Without the flag.
abbrev careful_ports : Ports World
careful_ports = record sample_ports { reset_stale_state = false }

bootstrap_refused_example : bootstrap careful_ports "desk" fresh ≡ (
  thrown (
      if says_not_found careful_ports "device not found"
      then stale_device_state
      else "device not found"),
  attached careful_ports stored unknown_world fresh,
)
unfolding new_client
bootstrap_refused_example =
    bootstrap_refused careful_ports "desk" "device not found" stored fresh office unknown_world refl
      z_unknown refl refl

abbrev at_home : Client World
at_home = record fresh {
  session = record { state = some stored; sync_engine = some (new_engine "z") };
}

has_room : size (new_engine "z").recently_seen < seen_capacity
unfolding new_engine
has_room = omega (arith, size-empty (Unit {0}))

is_away : (payload.source_device_id == (new_engine "z").local_device_id) ≡ false
unfolding new_engine
is_away = refl

is_new : has payload.item_id (new_engine "z").recently_seen ≡ false
unfolding new_engine get empty
is_new = refl

abbrev without_note : Client World
without_note = after_failure sample_ports payload (new_engine "z") office at_home

failed_item_is_lost_example :
    (apply_all sample_ports "z" [] (payload ∷ []) at_home ≡ (thrown "bad tag", without_note))
    × (apply_all sample_ports "z" [] (payload ∷ []) without_note
        ≡ (do
          asks (sample_ports.transport.ack_item "z" payload.item_id)
          apply_all sample_ports "z" [] [])
            without_note)
unfolding new_client
failed_item_is_lost_example =
    failed_item_is_lost sample_ports "z" payload [] [] at_home (new_engine "z") "bad tag" office
      refl has_room is_away is_new refl

abbrev new_key : KeyUpdate
new_key = record { group_id = "g"; sealed_group_key = "s"; group_key_version = 2 }

abbrev key_state : PersistedState
key_state = updated sample_ports stored new_key []

abbrev ready_to_update : Client World
ready_to_update = record at_home { session = attach stored at_home.session }

is_known : require_state at_home.session ≡ some stored
unfolding require_state
is_known = refl

opens_key : extract_group_key sample_ports "s" ready_to_update ≡ (returned [], ready_to_update)
unfolding extract_group_key open_sealed ◌>>=◌ settle done
opens_key = refl

rotated_key_is_used_example :
    let c2 = with_state sample_ports key_state office ready_to_update in
    (apply_group_key_update sample_ports new_key at_home ≡ (returned key_state, c2))
    × (get_group_key sample_ports c2 ≡ (returned [], c2))
unfolding new_client
rotated_key_is_used_example =
    rotated_key_is_used sample_ports new_key stored [] at_home ready_to_update office is_known
      opens_key refl refl refl

apply_incoming_again_example :
    let c1 = (apply_incoming sample_ports payload [] at_home).1 in
    apply_incoming sample_ports payload [] c1 ≡ (returned tt, c1)
apply_incoming_again_example =
    apply_incoming_again sample_ports payload [] at_home (new_engine "z") refl has_room

abbrev usual : RuntimeOptions
usual = record {
  server = "127.0.0.1:50052";
  state_path = none;
  default_name = "desk";
  reset_stale_state = false;
}

parse_args-written_example :
    parse_args ("--name" ∷ "den" ∷ "--reset-stale-state" ∷ "--name" ∷ "hall" ∷ []) usual
    ≡ record usual { default_name = "hall"; reset_stale_state = true }
parse_args-written_example =
    parse_args-written (name_is "den" ∷ resets ∷ name_is "hall" ∷ []) usual refl
