-- ===== src/Client/SharePaste/Keys.antt =====
-- The session of the client and the key of its group (apps/client-cli/src/core/
-- sharepaste-client.ts). `extractGroupKey` rethrows the message that it caught, so its `catch` is
-- not written out.
use sharepaste.Prelude.{
  String, Bool, false, Option, none, some, ◌&&◌, ◌==◌, not, if◌then◌else◌, ◌≡◌, refl,
}
use sharepaste.Client.Types.{PersistedState, DeviceIdentity}
use sharepaste.Client.SyncEngine.{SyncEngine}
use sharepaste.Client.History.{new_history}
use sharepaste.Client.Session.{new_session, attach, clear, require_state, require_sync_engine}
use sharepaste.Client.Task.{
  Client, Task, done, throw, settle, or_throw, reads, asks, changes, ◌>>=◌, ◌>>◌, returned,
}
use sharepaste.Client.Ports.{Ports, Bytes, KeyUpdate, SealedFields}

-- A text that is there and not empty.
abbrev pub present : Option String → Bool
present none = false
present (some s) = not (s == "")

abbrev pub not_bootstrapped : String
not_bootstrapped = "CLIENT_NOT_BOOTSTRAPPED"

abbrev pub invalid_sealed_group_key : String
invalid_sealed_group_key = "INVALID_SEALED_GROUP_KEY"

unfoldable pub new_client : {X : Type 0} → X → Client X
new_client x = record {
  session = new_session;
  history = new_history 50;
  realtime_loop = false;
  stop_requested = false;
  outside = x;
}

abbrev pub identity_of : Option PersistedState → Option DeviceIdentity
identity_of none = none
identity_of (some state) = some state.identity

abbrev pub key_of : Option PersistedState → Option String
key_of none = none
key_of (some state) = state.group_key_base64

abbrev pub text_of : Option String → String
text_of none = ""
text_of (some s) = s

module _ {X : Type 0} where
  unfoldable pub attach_state : PersistedState → Task (Client X) PersistedState
  attach_state state = do changes λ c. record c { session = attach state c.session }; done state

  unfoldable pub clear_session : Task (Client X) (Unit {0})
  clear_session = changes λ c. record c { session = clear c.session }

  unfoldable pub current_state : Task (Client X) PersistedState
  current_state = do
    found ← reads λ c. require_state c.session
    settle (or_throw found not_bootstrapped)

  unfoldable pub current_engine : Task (Client X) SyncEngine
  current_engine = do
    found ← reads λ c. require_sync_engine c.session
    settle (or_throw found not_bootstrapped)

  -- What a method of the engine leaves of it.
  unfoldable pub write_engine : SyncEngine → Task (Client X) (Unit {0})
  write_engine e = changes λ c. record c { session = record c.session { sync_engine = some e } }

module _ {X : Type 0} (ports : Ports X) where
  -- What `extractGroupKey` does with the parsed text.
  unfoldable pub open_sealed : String → SealedFields → Task (Client X) Bytes
  open_sealed sealed parsed =
      if present parsed.epk && present parsed.nonce && present parsed.ciphertext
      then (do
        found ← reads λ c. identity_of c.session.state
        identity ← settle (or_throw found not_bootstrapped)
        asks (ports.crypto.unseal_group_key_for_device sealed identity.wrap_private_key))
      else if present parsed.group_key_base64
      then done (ports.node.base64url_bytes (text_of parsed.group_key_base64))
      else throw invalid_sealed_group_key

  unfoldable pub extract_group_key : String → Task (Client X) Bytes
  unfolding open_sealed
  extract_group_key sealed = do
    parsed ← settle (ports.node.parse_sealed sealed)
    open_sealed sealed parsed

  unfoldable pub get_group_key : Task (Client X) Bytes
  get_group_key = do
    state ← current_state
    if present state.group_key_base64
        then done (ports.node.base64url_bytes (text_of state.group_key_base64))
        else extract_group_key state.sealed_group_key

  -- From the state that is given; `apply_group_key_update` is that from the session's.
  unfoldable pub update_group_key : KeyUpdate → PersistedState → Task (Client X) PersistedState
  update_group_key update current = do
    attach_state current
    key ← extract_group_key update.sealed_group_key
    let next : PersistedState = record current {
      group_id = update.group_id;
      sealed_group_key = update.sealed_group_key;
      group_key_base64 = some (ports.node.base64url_text key);
      group_key_version = some update.group_key_version;
    }
    asks (ports.state_store.save next)
    attach_state next

  unfoldable pub apply_group_key_update : KeyUpdate → Task (Client X) PersistedState
  unfolding update_group_key
  apply_group_key_update update = do current ← current_state; update_group_key update current

pub attach_state_step :
    {X : Type 0} (state : PersistedState) (c : Client X)
    → attach_state state c ≡ (returned state, record c { session = attach state c.session })
unfolding attach_state ◌>>=◌
attach_state_step state c = refl
