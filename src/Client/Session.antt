-- ===== src/Client/Session.antt =====
-- apps/client-cli/src/core/client-session.ts
pub mod Coherence
use sharepaste.Prelude.{String, Bool, true, Option, none, some, not, ◌==◌, if◌then◌else◌}
use sharepaste.Client.Types.{PersistedState}
use sharepaste.Client.SyncEngine.{SyncEngine, new_engine}

pub record ClientSession : Type 0 where
  pub state : Option PersistedState
  pub sync_engine : Option SyncEngine

abbrev pub new_session : ClientSession
new_session = record { state = none; sync_engine = none }

-- this.state?.deviceId !== state.deviceId
abbrev pub device_changed : Option PersistedState → PersistedState → Bool
device_changed none state = true
device_changed (some old) state = not (old.device_id == state.device_id)

abbrev pub engine_for : Option SyncEngine → Bool → String → SyncEngine
engine_for none changed id = new_engine id
engine_for (some engine) changed id = if changed then new_engine id else engine

unfoldable pub attach : PersistedState → ClientSession → ClientSession
attach state s = record {
  state = some state;
  sync_engine = some (engine_for s.sync_engine (device_changed s.state state) state.device_id);
}

unfoldable pub clear : ClientSession → ClientSession
clear s = new_session

-- `none`: CLIENT_NOT_BOOTSTRAPPED is thrown.
unfoldable pub require_state : ClientSession → Option PersistedState
require_state s = s.state

unfoldable pub require_sync_engine : ClientSession → Option SyncEngine
require_sync_engine s = s.sync_engine
