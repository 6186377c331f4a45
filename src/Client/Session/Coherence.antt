-- ===== src/Client/Session/Coherence.antt =====
-- Runs of a session (apps/client-cli/src/core/client-session.ts).
use sharepaste.Prelude.{
  ◌≡◌, refl, Bool, true, false, Option, none, some, List, [], ◌∷◌, arith, eq_iff, ◌==◌,
}
use sharepaste.Client.Types.{PersistedState}
use sharepaste.Client.SyncEngine.{SyncEngine, new_engine}
use sharepaste.Client.Session.{
  engine_for, device_changed, ClientSession, new_session, attach, clear, require_state,
  require_sync_engine,
}

pub data Action : Type 0 where
  attaches : PersistedState → Action
  clears : Action

unfoldable pub act : Action → ClientSession → ClientSession
unfolding attach clear
act (attaches state) s = attach state s
act clears s = clear s

-- The session after the actions.
unfoldable pub session_after : List Action → ClientSession → ClientSession
unfolding act
session_after [] s = s
session_after (a ∷ rest) s = session_after rest (act a s)

-- Both are there, for one device, or neither is.
abbrev pub coherent : Option PersistedState → Option SyncEngine → Bool
coherent none none = true
coherent none (some e) = false
coherent (some s) none = false
coherent (some s) (some e) = s.device_id == e.local_device_id

pub attached-coherent :
    (old : Option PersistedState) (e : Option SyncEngine) (state : PersistedState)
    → coherent old e ≡ true
    → state.device_id ≡ (engine_for e (device_changed old state) state.device_id).local_device_id
unfolding new_engine
attached-coherent none none state h = refl
attached-coherent (some old) none state h = refl
attached-coherent none (some e) state h = cc
attached-coherent (some old) (some e) state h =
    ground (arith, eq_iff old.device_id state.device_id, eq_iff old.device_id e.local_device_id)

act-coherent :
    (a : Action) (s : ClientSession)
    → coherent s.state s.sync_engine ≡ true
    → coherent (act a s).state (act a s).sync_engine ≡ true
unfolding act attach clear
act-coherent (attaches state) s h = ground (
  arith,
  eq_iff state.device_id
      (engine_for s.sync_engine (device_changed s.state state) state.device_id).local_device_id,
  attached-coherent s.state s.sync_engine state h,
)
act-coherent clears s h = refl

after-coherent :
    (actions : List Action) (s : ClientSession)
    → coherent s.state s.sync_engine ≡ true
    → coherent (session_after actions s).state (session_after actions s).sync_engine ≡ true
unfolding session_after
after-coherent [] s h = h
after-coherent (a ∷ rest) s h = after-coherent rest (act a s) (act-coherent a s h)

-- After any attachments and clearings of a new session, `requireState` and `requireSyncEngine`
-- both throw, or both return and the engine is that of the state's device.
pub session-coherent :
    (actions : List Action)
    → coherent
        (require_state (session_after actions new_session))
        (require_sync_engine (session_after actions new_session))
      ≡ true
unfolding require_state require_sync_engine
session-coherent actions = after-coherent actions new_session refl
