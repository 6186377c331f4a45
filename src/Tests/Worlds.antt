-- ===== src/Tests/Worlds.antt =====
-- A group of two devices, and what they share.
use sharepaste.Prelude.{◌≡◌, refl, true, none, some, [], ◌∷◌, pos}
use sharepaste.Map.{get, set, empty, add, StringSet}
use sharepaste.Types.{
  Device, GroupState, PolicyPatch, BindCode, BindRequest, ClipboardItem, OfflineEnvelope, text,
}
use sharepaste.Policy.{default_policy}
use sharepaste.Exec.{World}
use sharepaste.Store.Calls.{new_store}
use sharepaste.Client.Types.{ClipboardPayload}

abbrev pub desk : Device
desk = record {
  device_id = "a";
  group_id = "g";
  pubkey = "key";
  name = "desk";
  platform = "linux";
  last_seen_unix = 0;
  active = true;
}

abbrev pub phone : Device
phone = record {
  device_id = "b";
  group_id = "g";
  pubkey = "key";
  name = "phone";
  platform = "ios";
  last_seen_unix = 0;
  active = true;
}

abbrev pub guest : Device
guest = record {
  device_id = "c";
  group_id = "h";
  pubkey = "key";
  name = "guest";
  platform = "ios";
  last_seen_unix = 0;
  active = true;
}

abbrev pub home : GroupState
home = record {
  group_id = "g";
  recovery_phrase_hash = "hash";
  group_key_version = 1;
  group_key_base64 = "k";
  policy = default_policy "system" 0;
}

abbrev pub code : BindCode
code = record { code = "x"; issuer_device_id = "a"; expires_at_unix = 5000; attempts_left = 1 }

abbrev pub request : BindRequest
request = record {
  request_id = "r";
  code = "x";
  issuer_device_id = "a";
  requester_device_id = "c";
  expires_at_unix = 5000;
  approved = none;
  group_id = none;
  sealed_group_key = none;
  group_key_version = none;
}

abbrev pub note : ClipboardItem
note = record {
  item_id = "i";
  kind = text;
  size_bytes = pos 5;
  mime = "text/plain";
  cipher_ref = "";
  ciphertext = [];
  nonce = [];
  created_at_unix = pos 9;
  source_device_id = "a";
}

abbrev pub older_note : ClipboardItem
older_note = record note { item_id = "j"; created_at_unix = pos 3 }

abbrev pub envelope_of : ClipboardItem → OfflineEnvelope
envelope_of item = record { item = item; target_device_id = "b"; expires_at_unix = 5000 }

abbrev pub members : StringSet
members = add "b" (add "a" empty)

abbrev pub office : World
office = record {
  store = record new_store {
    devices = set "c" guest (set "b" phone (set "a" desk empty));
    groups = set "g" home empty;
    group_devices = set "g" members empty;
    bind_codes = set "x" code empty;
    bind_requests = set "r" request empty;
    offline = set "b" (envelope_of note ∷ envelope_of older_note ∷ []) empty;
    seen_items = set "g" empty empty;
  };
  draws = 0;
  sent = [];
}

pub office-desk : get "a" office.devices ≡ some desk
unfolding get set empty
office-desk = refl

pub office-phone : get "b" office.devices ≡ some phone
unfolding get set empty
office-phone = refl

pub office-home : get "g" office.groups ≡ some home
unfolding get set empty
office-home = refl

abbrev pub generous : PolicyPatch
generous = record {
  allow_text = true;
  allow_image = true;
  allow_file = true;
  max_file_size_bytes = pos 9;
}

abbrev pub payload : ClipboardPayload
payload = record {
  item_id = "i";
  kind = text;
  mime = "text/plain";
  size_bytes = pos 5;
  created_at_unix = pos 9;
  source_device_id = "a";
  cipher_ref = "";
  ciphertext = [];
  nonce = [];
}
