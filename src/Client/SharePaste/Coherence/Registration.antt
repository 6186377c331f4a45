-- ===== src/Client/SharePaste/Coherence/Registration.antt =====
-- The session and the flag of the loop through registering and refreshing
-- (apps/client-cli/src/core/sharepaste-client.ts).
use sharepaste.Prelude.{String, Bool, Option, none, some}
use sharepaste.Client.Types.{PersistedState, DeviceIdentity}
use sharepaste.Client.Ports.{Ports, Registration}
use sharepaste.Client.SharePaste.Bootstrap.{
  build_registered_state, keep_state, register_fresh_device, recover_group_client,
  refresh_persisted_state, reset_or_throw, bootstrap_from, bootstrap, refresh_current_state,
}
use sharepaste.Client.SharePaste.Coherence.{
  KeepsSane, bind-KeepsSane, done-KeepsSane, throw-KeepsSane, asks-KeepsSane, if-KeepsSane,
  catches-KeepsSane, attach_state-KeepsSane, clear_session-KeepsSane, current_state-KeepsSane,
  extract_group_key-KeepsSane, update_group_key-KeepsSane,
}

module _ {X : Type 0} {loop : Bool} (ports : Ports X) where
  build_registered_state-KeepsSane :
      (name phrase : String) (identity : DeviceIdentity) (r : Registration)
      → KeepsSane loop (build_registered_state ports name phrase identity r)
  unfolding build_registered_state
  build_registered_state-KeepsSane name phrase identity r =
      bind-KeepsSane _ _ (extract_group_key-KeepsSane ports _) λ key. done-KeepsSane _

  keep_state-KeepsSane : (state : PersistedState) → KeepsSane loop (keep_state ports state)
  unfolding keep_state
  keep_state-KeepsSane state =
      bind-KeepsSane _ _ (asks-KeepsSane _) λ saved. attach_state-KeepsSane state

  register_fresh_device-KeepsSane :
      (name : String) → KeepsSane loop (register_fresh_device ports name)
  unfolding register_fresh_device
  register_fresh_device-KeepsSane name = bind-KeepsSane _ _ (asks-KeepsSane _) λ identity.
      bind-KeepsSane _ _ (attach_state-KeepsSane _) λ attached.
        bind-KeepsSane _ _ (asks-KeepsSane _) λ registration.
          bind-KeepsSane _ _ (build_registered_state-KeepsSane name _ identity registration)
            keep_state-KeepsSane

  pub recover_group_client-KeepsSane :
      (phrase name : String) → KeepsSane loop (recover_group_client ports phrase name)
  unfolding recover_group_client
  recover_group_client-KeepsSane phrase name = bind-KeepsSane _ _ (asks-KeepsSane _) λ identity.
      bind-KeepsSane _ _ (attach_state-KeepsSane _) λ attached.
        bind-KeepsSane _ _ (asks-KeepsSane _) λ registration.
          bind-KeepsSane _ _ (build_registered_state-KeepsSane name phrase identity registration)
            keep_state-KeepsSane

  refresh_persisted_state-KeepsSane :
      (existing : PersistedState) → KeepsSane loop (refresh_persisted_state ports existing)
  unfolding refresh_persisted_state
  refresh_persisted_state-KeepsSane existing =
      bind-KeepsSane _ _
        (catches-KeepsSane _ _
          (bind-KeepsSane _ _ (attach_state-KeepsSane existing) λ attached. asks-KeepsSane _)
          λ message. throw-KeepsSane _)
        λ context. update_group_key-KeepsSane ports _ _

  reset_or_throw-KeepsSane :
      (name message : String) → KeepsSane loop (reset_or_throw ports name message)
  unfolding reset_or_throw
  reset_or_throw-KeepsSane name message =
      if-KeepsSane _ _ _
        (bind-KeepsSane _ _ (asks-KeepsSane _) λ removed.
          bind-KeepsSane _ _ clear_session-KeepsSane
            λ cleared. register_fresh_device-KeepsSane name)
        (throw-KeepsSane message)

  bootstrap_from-KeepsSane :
      (name : String) (existing : Option PersistedState)
      → KeepsSane loop (bootstrap_from ports name existing)
  unfolding bootstrap_from
  bootstrap_from-KeepsSane name none = register_fresh_device-KeepsSane name
  bootstrap_from-KeepsSane name (some existing) =
      catches-KeepsSane _ _
        (bind-KeepsSane _ _ (refresh_persisted_state-KeepsSane existing) attach_state-KeepsSane)
        (reset_or_throw-KeepsSane name)

  pub bootstrap-KeepsSane : (name : String) → KeepsSane loop (bootstrap ports name)
  unfolding bootstrap
  bootstrap-KeepsSane name = bind-KeepsSane _ _ (asks-KeepsSane _) (bootstrap_from-KeepsSane name)

  pub refresh_current_state-KeepsSane : KeepsSane loop (refresh_current_state ports)
  unfolding refresh_current_state
  refresh_current_state-KeepsSane =
      bind-KeepsSane _ _ current_state-KeepsSane
        λ state. bind-KeepsSane _ _ (refresh_persisted_state-KeepsSane state) attach_state-KeepsSane
