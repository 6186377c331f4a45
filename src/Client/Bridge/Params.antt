-- ===== src/Client/Bridge/Params.antt =====
-- The parameters of a request and the snapshot of a state (apps/client-cli/src/runtime/
-- runtime-bridge.ts and bridge-protocol.ts).
use sharepaste.Prelude.{ℕ, String, Bool, true, false, Option, none, some, ◌==◌, not, if◌then◌else◌}
use sharepaste.Client.Types.{PersistedState}
use sharepaste.Client.StateFile.{
  Json, null, boolean, number, text_value, array, object, Fields, field_of,
}

pub record StateSnapshot : Type 0 where
  pub device_id : String
  pub group_id : String
  pub device_name : String
  pub platform : String
  pub recovery_phrase : String
  pub group_key_version : Option ℕ

unfoldable pub snapshot_state : PersistedState → StateSnapshot
snapshot_state state = record {
  device_id = state.device_id;
  group_id = state.group_id;
  device_name = state.device_name;
  platform = state.platform;
  recovery_phrase = state.recovery_phrase;
  group_key_version = state.group_key_version;
}

abbrev text_or_empty : Option Json → String
text_or_empty (some (text_value s)) = s
text_or_empty _ = ""

-- typeof params.key === "string" ? params.key : ""
unfoldable pub text_param : String → Fields → String
text_param key params = text_or_empty (field_of key params)

abbrev or_default : String → String → String
or_default s fallback = if s == "" then fallback else s

-- The text, or the default for one that is missing or empty.
unfoldable pub text_param_or : String → String → Fields → String
unfolding text_param
text_param_or key fallback params = or_default (text_param key params) fallback

unfoldable pub trimmed_param_or : (String → String) → String → String → Fields → String
unfolding text_param
trimmed_param_or trim key fallback params = or_default (trim (text_param key params)) fallback

-- Boolean(value): zero is a number whose text the parser reads as zero.
abbrev truthy_json : (String → Bool) → Option Json → Bool
truthy_json is_zero none = false
truthy_json is_zero (some null) = false
truthy_json is_zero (some (boolean b)) = b
truthy_json is_zero (some (number n)) = not (is_zero n)
truthy_json is_zero (some (text_value s)) = not (s == "")
truthy_json is_zero (some (array _)) = true
truthy_json is_zero (some (object _)) = true

unfoldable pub boolean_param : (String → Bool) → String → Fields → Bool
boolean_param is_zero key params = truthy_json is_zero (field_of key params)
