-- ===== src/Tests/StartRuns.antt =====
-- The theorem on a bootstrap that starts over, at ports of which the outside is the stored state.
use sharepaste.Prelude.{◌≡◌, refl, true, none, some, Option, []}
use sharepaste.Client.Types.{PersistedState}
use sharepaste.Client.Task.{Outcome, returned, thrown}
use sharepaste.Client.Ports.{Ports, Registration, Platform, Transport, Surroundings}
use sharepaste.Client.SharePaste.Keys.{new_client}
use sharepaste.Client.SharePaste.Bootstrap.{bootstrap}
use sharepaste.Client.SharePaste.StartingOver.{
  Registers, registered, with_session, bootstrap_starts_over,
}
use sharepaste.Tests.ClientPorts.{sample_identity, stored}

abbrev Shelf : Type 0
Shelf = Option PersistedState

abbrev welcome : Registration
welcome = record {
  device = record {
    device_id = "n";
    group_id = "h";
    pubkey = "key";
    name = "desk";
    platform = "linux";
  };
  group_id = "h";
  recovery_phrase = "new words";
  sealed_group_key = "sealed";
}

abbrev unreached : {A : Type 0} → Shelf → Outcome A × Shelf
unreached x = (thrown "unavailable", x)

-- A server that knows no device.
abbrev new_server : Transport Shelf
new_server = record {
  register_device = λ name platform key x. (returned welcome, x);
  get_device_context = λ id x. (thrown "device not found", x);
  list_devices = λ id. unreached;
  remove_device = λ id target. unreached;
  recover_group = λ phrase name platform key. unreached;
  create_bind_code = λ id. unreached;
  request_bind = λ code id. unreached;
  confirm_bind = λ request id approve. unreached;
  get_policy = λ id. unreached;
  update_policy = λ id policy. unreached;
  push_clipboard_item = λ id item. unreached;
  fetch_offline = λ id limit. unreached;
  ack_item = λ id item. unreached;
}

abbrev shelf_platform : Platform Shelf
shelf_platform = record {
  name = "linux";
  date_now = λ x. (returned 1000, x);
  read_file = λ path x. (returned [], x);
  utf8_bytes = λ s. [];
  utf8_text = λ bytes. "";
  base64url_bytes = λ s. [];
  base64url_text = λ bytes. "k";
  parse_sealed = λ s.
      returned
        (record { group_key_base64 = none; epk = some "e"; nonce = some "n"; ciphertext = some s });
  lower = λ s. s;
  digest_16 = λ bytes at. "d";
  nanoid = λ size x. (returned "n", x);
}

abbrev shelf_surroundings : Surroundings Shelf
shelf_surroundings = record {
  start_clipboard = unreached;
  stop_clipboard = λ x. x;
  write_text = λ s. unreached;
  materialize = λ item bytes. unreached;
  on_incoming_clipboard = none;
  on_pairing_request = none;
  info = λ message x. x;
  error = λ message error x. x;
}

abbrev shelf_ports : Ports Shelf
shelf_ports = record {
  transport = new_server;
  state_store = record {
    load = λ x. (returned x, x);
    save = λ s x. (returned tt, some s);
    clear = λ x. (returned tt, none);
  };
  crypto = record {
    create_identity = λ x. (returned sample_identity, x);
    encrypt_clipboard = λ key plaintext. unreached;
    decrypt_clipboard = λ key envelope. unreached;
    unseal_group_key_for_device = λ sealed private x. (returned [], x);
  };
  around = shelf_surroundings;
  node = shelf_platform;
  reset_stale_state = true;
}

abbrev desk_state : PersistedState
desk_state = registered shelf_ports "desk" sample_identity welcome []

answers : Registers shelf_ports "desk" (some stored) sample_identity welcome [] (some desk_state)
answers = record {
  x1 = none;
  x2 = none;
  x3 = none;
  x4 = none;
  parsed = record {
    group_key_base64 = none;
    epk = some "e";
    nonce = some "n";
    ciphertext = some "sealed";
  };
  cleared = refl;
  created = refl;
  answered = refl;
  reads_it = refl;
  complete = refl;
  unsealed = refl;
  stored = refl;
}

bootstrap_starts_over_example : bootstrap shelf_ports "desk" (new_client (some stored)) ≡ (
  returned desk_state,
  with_session shelf_ports desk_state (some desk_state) (new_client (some stored)),
)
unfolding new_client
bootstrap_starts_over_example =
    bootstrap_starts_over shelf_ports "desk" "device not found" stored (new_client (some stored))
      (some stored) (some stored) (some desk_state) sample_identity welcome [] refl refl refl refl
      refl answers
