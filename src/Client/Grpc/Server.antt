-- ===== src/Client/Grpc/Server.antt =====
-- The methods of `SharePasteGrpcClient` (apps/client-cli/src/core/grpc-client.ts) with the handlers of
-- the server at the other end. `X` holds the server's world; `message_of` is the message that
-- grpc-js gives an error with a code and details.
use sharepaste.Prelude.{ℕ, String, Bool, Option, List, ℤ, pos, map}
use sharepaste.Types.{Device, DeviceContext, Policy, RegisterDeviceResult}
use sharepaste.Env.{Env}
use sharepaste.Exec.{World}
use sharepaste.Handlers.Errors.{Reply, payload, failure}
use sharepaste.Handlers.Unary.{
  RecoverReply, BindCodeReply, BindRequestReply, ConfirmReply, register_device_handler,
  get_device_context_handler, list_devices_handler, remove_device_handler, recover_group_handler,
  create_bind_code_handler, request_bind_handler, confirm_bind_handler, get_policy_handler,
  update_policy_handler, push_clipboard_item_handler, ack_item_handler, fetch_offline_handler,
}
use sharepaste.Client.Types.{ClipboardPayload, SharePolicy}
use sharepaste.Client.Task.{Outcome, returned, thrown, Outside}
use sharepaste.Client.Ports.{Transport, DeviceRecord, DeviceContextResult}
use sharepaste.Client.Grpc.Messages.{item_message, payload_of}

abbrev pub device_record : Device → DeviceRecord
device_record d = record {
  device_id = d.device_id;
  group_id = d.group_id;
  pubkey = d.pubkey;
  name = d.name;
  platform = d.platform;
}

abbrev pub share_policy : Policy → SharePolicy
share_policy p = record {
  allow_text = p.allow_text;
  allow_image = p.allow_image;
  allow_file = p.allow_file;
  max_file_size_bytes = p.max_file_size_bytes;
  version = p.version;
}

-- Where the world of the server is, the message of an error, and how a number is written.
pub record Wire (X : Type 0) : Type 0 where
  pub world : X → World
  pub put : World → X → X
  pub message_of : ℕ → Option String → String
  pub decimal : ℕ → String

module _ {X : Type 0} (env : Env) (fuel : ℕ) (wire : Wire X) where
  abbrev outcome_of : {A B : Type 0} → Reply A → (A → B) → Outcome B
  outcome_of (payload a) f = returned (f a)
  outcome_of (failure code details) f = thrown (wire.message_of code details)

  unfoldable pub call : {A B : Type 0} → (World → Reply A × World) → (A → B) → Outside X B
  call handler f x = let (r, w) = handler (wire.world x) in (outcome_of r f, wire.put w x)

  unfoldable pub server_push : String → ClipboardPayload → Outside X Bool
  unfolding call
  server_push id item =
      call (push_clipboard_item_handler env id (item_message item)) λ accepted. accepted

  unfoldable pub server_fetch : String → ℤ → Outside X (List ClipboardPayload)
  unfolding call
  server_fetch id limit = call (fetch_offline_handler env id limit) (map payload_of)

  unfoldable pub server_context : String → Outside X DeviceContextResult
  unfolding call
  server_context id = call (get_device_context_handler env id) λ (c : DeviceContext). record {
    device = device_record c.device;
    group_id = c.group_id;
    sealed_group_key = c.sealed_group_key;
    group_key_version = c.group_key_version;
  }

  unfoldable pub grpc_transport : Transport X
  unfolding server_push server_fetch server_context
  grpc_transport = record {
    register_device = λ name platform pubkey.
        call (register_device_handler env name platform pubkey "" "") λ (r : RegisterDeviceResult).
          record {
            device = device_record r.device;
            group_id = r.group_id;
            recovery_phrase = r.recovery_phrase;
            sealed_group_key = r.sealed_group_key;
          };
    get_device_context = server_context;
    list_devices = λ id. call (list_devices_handler env id) (map device_record);
    remove_device = λ id target. call (remove_device_handler env id target) λ gone. gone;
    recover_group = λ phrase name platform pubkey.
        call (recover_group_handler env phrase name platform pubkey) λ (r : RecoverReply). record {
          device = device_record r.device;
          group_id = r.group_id;
          recovery_phrase = "";
          sealed_group_key = r.sealed_group_key;
        };
    create_bind_code = λ id. call (create_bind_code_handler env fuel id) λ (c : BindCodeReply).
        record {
          code = c.code;
          expires_at_unix = wire.decimal c.expires_at_unix;
          attempts_left = c.attempts_left;
        };
    request_bind = λ code id. call (request_bind_handler env code id) λ (r : BindRequestReply).
        record { request_id = r.request_id; expires_at_unix = wire.decimal r.expires_at_unix };
    confirm_bind = λ request id approve.
        call (confirm_bind_handler env request id approve) λ (r : ConfirmReply). record {
          approved = r.approved;
          group_id = r.group_id;
          sealed_group_key = r.sealed_group_key;
          group_key_version = r.group_key_version;
        };
    get_policy = λ id. call (get_policy_handler env id) share_policy;
    update_policy = λ id (p : SharePolicy).
        call
          (update_policy_handler env id (pos p.version) (record {
            allow_text = p.allow_text;
            allow_image = p.allow_image;
            allow_file = p.allow_file;
            max_file_size_bytes = p.max_file_size_bytes;
          }))
          share_policy;
    push_clipboard_item = server_push;
    fetch_offline = server_fetch;
    ack_item = λ id item. call (ack_item_handler env id item) λ done. tt;
  }
