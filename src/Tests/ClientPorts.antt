-- ===== src/Tests/ClientPorts.antt =====
-- Ports of a client of which the outside is the world of a server.
use sharepaste.Prelude.{String, true, Option, none, some, []}
use sharepaste.Exec.{World}
use sharepaste.Client.Types.{PersistedState, DeviceIdentity}
use sharepaste.Client.Task.{returned, thrown}
use sharepaste.Client.Ports.{Ports, Platform}
use sharepaste.Client.Grpc.Server.{Wire, grpc_transport}
use sharepaste.Tests.Samples.{sample_env}

-- An error is told by its details.
abbrev details_or : Option String → String
details_or none = "error"
details_or (some s) = s

abbrev pub sample_wire : Wire World
sample_wire = record {
  world = λ x. x;
  put = λ w x. w;
  message_of = λ status details. details_or details;
  decimal = λ n. "0";
}

abbrev pub sample_identity : DeviceIdentity
sample_identity = record {
  sign_public_key = "p";
  sign_private_key = "q";
  wrap_public_key = "key";
  wrap_private_key = "key";
}

-- Of a device that the server does not know.
abbrev pub stored : PersistedState
stored = record {
  device_id = "z";
  group_id = "g";
  device_name = "desk";
  platform = "linux";
  recovery_phrase = "words";
  sealed_group_key = "s";
  identity = sample_identity;
  group_key_base64 = some "k";
  group_key_version = some 1;
}

abbrev sample_platform : Platform World
sample_platform = record {
  name = "linux";
  date_now = λ x. (returned 1000, x);
  read_file = λ path x. (returned [], x);
  utf8_bytes = λ s. [];
  utf8_text = λ bytes. "";
  base64url_bytes = λ s. [];
  base64url_text = λ bytes. "k";
  parse_sealed = λ s.
      returned (record { group_key_base64 = some s; epk = none; nonce = none; ciphertext = none });
  lower = λ s. s;
  digest_16 = λ bytes at. "d";
  nanoid = λ size x. (returned "n", x);
}

-- The cipher decrypts nothing.
abbrev pub sample_ports : Ports World
sample_ports = record {
  transport = grpc_transport sample_env 3 sample_wire;
  state_store = record {
    load = λ x. (returned (some stored), x);
    save = λ s x. (returned tt, x);
    clear = λ x. (returned tt, x);
  };
  crypto = record {
    create_identity = λ x. (returned sample_identity, x);
    encrypt_clipboard =
        λ key plaintext x. (returned (record { nonce = []; ciphertext = plaintext }), x);
    decrypt_clipboard = λ key envelope x. (thrown "bad tag", x);
    unseal_group_key_for_device = λ sealed private x. (returned [], x);
  };
  around = record {
    start_clipboard = λ x. (returned tt, x);
    stop_clipboard = λ x. x;
    write_text = λ s x. (returned tt, x);
    materialize = λ item bytes x. (returned "path", x);
    on_incoming_clipboard = none;
    on_pairing_request = none;
    info = λ message x. x;
    error = λ message error x. x;
  };
  node = sample_platform;
  reset_stale_state = true;
}
