-- ===== src/Handlers/Unary.antt =====
-- The unary handlers of apps/server/src/services/handlers.ts. A field of a request that was left
-- out is the empty text, zero or false, as the protocol has it.
use sharepaste.Prelude.{
  ℕ, String, Bool, false, Option, none, some, List, ℤ, pos, eq_ℤ, find, map, ◌==◌, if◌then◌else◌,
}
use sharepaste.Types.{Device, DeviceContext, Policy, PolicyPatch, RegisterDeviceResult}
use sharepaste.Env.{Env}
use sharepaste.Exec.{World, pure, ◌>>=◌}
use sharepaste.Store.Devices.{
  register_device, recover_group, get_device_context, list_devices, rename_device, remove_device,
}
use sharepaste.Store.Pairing.{create_bind_code, request_bind, confirm_bind}
use sharepaste.Store.PolicyUpdates.{get_policy, update_policy}
use sharepaste.Store.Clipboard.{push_clipboard_item, ack_item, fetch_offline}
use sharepaste.Handlers.Errors.{Reply, run_unary}
use sharepaste.Handlers.Items.{ItemMessage, to_clipboard_item, from_clipboard_item}

-- x || undefined
abbrev pub non_empty : String → Option String
non_empty s = if s == "" then none else some s

pub record RecoverReply : Type 0 where
  pub device : Device
  pub group_id : String
  pub sealed_group_key : String

pub record BindCodeReply : Type 0 where
  pub code : String
  pub expires_at_unix : ℕ
  pub attempts_left : ℕ

pub record BindRequestReply : Type 0 where
  pub request_id : String
  pub issuer_device : Option Device
  pub expires_at_unix : ℕ

pub record ConfirmReply : Type 0 where
  pub approved : Bool
  pub group_id : String
  pub sealed_group_key : String
  pub group_key_version : ℕ

abbrev text_or_empty : Option String → String
text_or_empty none = ""
text_or_empty (some s) = s

abbrev number_or_zero : Option ℕ → ℕ
number_or_zero none = 0
number_or_zero (some n) = n

abbrev is_true : Option Bool → Bool
is_true none = false
is_true (some b) = b

module _ (env : Env) where
  unfoldable pub register_device_handler :
      String → String → String → String → String → World → Reply RegisterDeviceResult × World
  unfolding run_unary
  register_device_handler name platform pubkey group_id phrase = run_unary (
      register_device env (record {
        device_name = name;
        platform = platform;
        pubkey = pubkey;
        group_id = non_empty group_id;
        recovery_phrase = non_empty phrase;
      }))

  unfoldable pub get_device_context_handler : String → World → Reply DeviceContext × World
  unfolding run_unary
  get_device_context_handler id = run_unary (get_device_context env id)

  unfoldable pub list_devices_handler : String → World → Reply (List Device) × World
  unfolding run_unary
  list_devices_handler id = run_unary (list_devices env id)

  unfoldable pub rename_device_handler : String → String → World → Reply Device × World
  unfolding run_unary
  rename_device_handler id name = run_unary (rename_device env id name)

  unfoldable pub remove_device_handler : String → String → World → Reply Bool × World
  unfolding run_unary
  remove_device_handler id target = run_unary (remove_device env id target)

  unfoldable pub recover_group_handler :
      String → String → String → String → World → Reply RecoverReply × World
  unfolding run_unary
  recover_group_handler phrase name platform pubkey = run_unary do
    result ← recover_group env name platform pubkey phrase
    pure (record {
      device = result.device;
      group_id = result.group_id;
      sealed_group_key = result.sealed_group_key;
    })

  unfoldable pub create_bind_code_handler : ℕ → String → World → Reply BindCodeReply × World
  unfolding run_unary
  create_bind_code_handler fuel id = run_unary do
    c ← create_bind_code env fuel id
    pure (record {
      code = c.code;
      expires_at_unix = c.expires_at_unix;
      attempts_left = c.attempts_left;
    })

  unfoldable pub request_bind_handler : String → String → World → Reply BindRequestReply × World
  unfolding run_unary
  request_bind_handler code id = run_unary do
    bind ← request_bind env code id
    devices ← list_devices env bind.issuer_device_id
    pure (record {
      request_id = bind.request_id;
      issuer_device = find (λ (d : Device). d.device_id == bind.issuer_device_id) devices;
      expires_at_unix = bind.expires_at_unix;
    })

  unfoldable pub confirm_bind_handler : String → String → Bool → World → Reply ConfirmReply × World
  unfolding run_unary
  confirm_bind_handler request issuer approve = run_unary do
    confirmation ← confirm_bind env request issuer approve
    pure (record {
      approved = is_true confirmation.approved;
      group_id = text_or_empty confirmation.group_id;
      sealed_group_key = text_or_empty confirmation.sealed_group_key;
      group_key_version = number_or_zero confirmation.group_key_version;
    })

  unfoldable pub get_policy_handler : String → World → Reply Policy × World
  unfolding run_unary
  get_policy_handler id = run_unary (get_policy id)

  unfoldable pub update_policy_handler : String → ℤ → PolicyPatch → World → Reply Policy × World
  unfolding run_unary
  update_policy_handler id version patch = run_unary (update_policy env id version patch)

  unfoldable pub push_clipboard_item_handler : String → ItemMessage → World → Reply Bool × World
  unfolding run_unary
  push_clipboard_item_handler id item =
      run_unary
        do result ← push_clipboard_item env id (to_clipboard_item item); pure result.accepted

  unfoldable pub ack_item_handler : String → String → World → Reply Bool × World
  unfolding run_unary
  ack_item_handler id item = run_unary (ack_item id item)

  -- Number(limit || 100)
  unfoldable pub fetch_offline_handler : String → ℤ → World → Reply (List ItemMessage) × World
  unfolding run_unary
  fetch_offline_handler id limit = run_unary do
    items ← fetch_offline env id (if eq_ℤ limit (pos 0) then pos 100 else limit)
    pure (map from_clipboard_item items)
