-- ===== src/Client/StateFile.antt =====
-- What `StateStore.load` makes of the state file (apps/client-cli/src/core/state-store.ts). The
-- file system and `JSON.parse` give a `Reading`.
use sharepaste.Prelude.{String, Bool, true, false, Option, none, some, ◌&&◌, ◌==◌, if◌then◌else◌}

-- A parsed value. A number stands as it is written; an object names a key once.
mutual
  pub data Json : Type 0 where
    null : Json
    boolean : Bool → Json
    number : String → Json
    text_value : String → Json
    array : Elements → Json
    object : Fields → Json

  pub data Elements : Type 0 where
    no_elements : Elements
    element : Json → Elements → Elements

  pub data Fields : Type 0 where
    no_fields : Fields
    field : String → Json → Fields → Fields

-- candidate[key], on an object; `none` is undefined
unfoldable pub field_of : String → Fields → Option Json
field_of key no_fields = none
field_of key (field k v rest) = if k == key then some v else field_of key rest

-- typeof value === "string"
abbrev pub is_text : Option Json → Bool
is_text (some (text_value s)) = true
is_text _ = false

-- The fields of a value with typeof "object" that is not null; those of an array have no names of
-- ours.
abbrev pub fields_of : Option Json → Option Fields
fields_of (some (object fields)) = some fields
fields_of (some (array _)) = some no_fields
fields_of _ = none

abbrev pub optional_text : Option Json → Bool
optional_text none = true
optional_text (some v) = is_text (some v)

abbrev pub optional_number : Option Json → Bool
optional_number none = true
optional_number (some (number n)) = true
optional_number (some _) = false

abbrev identity_fields : Option Fields → Bool
identity_fields none = false
identity_fields (some fs) =
    is_text (field_of "signPublicKey" fs)
    && is_text (field_of "signPrivateKey" fs)
    && is_text (field_of "wrapPublicKey" fs)
    && is_text (field_of "wrapPrivateKey" fs)

unfoldable pub is_device_identity : Option Json → Bool
unfolding field_of
is_device_identity value = identity_fields (fields_of value)

abbrev state_fields : Option Fields → Bool
state_fields none = false
state_fields (some fs) =
    is_text (field_of "deviceId" fs)
    && is_text (field_of "groupId" fs)
    && is_text (field_of "deviceName" fs)
    && is_text (field_of "platform" fs)
    && is_text (field_of "recoveryPhrase" fs)
    && is_text (field_of "sealedGroupKey" fs)
    && is_device_identity (field_of "identity" fs)
    && optional_text (field_of "groupKeyBase64" fs)
    && optional_number (field_of "groupKeyVersion" fs)

unfoldable pub is_persisted_state : Json → Bool
unfolding is_device_identity
is_persisted_state value = state_fields (fields_of (some value))

-- What the file system and the parser give: ENOENT, another error, a SyntaxError, or a value.
pub data Reading : Type 0 where
  missing unreadable malformed : Reading
  parsed : Json → Reading

-- The result of `load`: null, the state, STATE_FILE_INVALID, or the error that was caught.
pub data Loaded : Type 0 where
  no_state state_file_invalid rethrown : Loaded
  loaded : Json → Loaded

unfoldable pub load : Reading → Loaded
unfolding is_persisted_state
load missing = no_state
load unreadable = rethrown
load malformed = state_file_invalid
load (parsed value) = if is_persisted_state value then loaded value else state_file_invalid
