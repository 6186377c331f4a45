-- ===== src/Client/SharePaste/Refusals.antt =====
-- Registrations and refreshes that the server refuses (apps/client-cli/src/core/
-- sharepaste-client.ts).
use sharepaste.Client.Task.Steps.{
  bind_thrown, bind_returned, catches_thrown, asks_returned, asks_thrown,
}
use sharepaste.Prelude.{
  ◌≡◌, refl, String, Bool, true, false, some, arith, ◌==◌, ◌∙◌, if◌then◌else◌, ◌&&◌,
}
use sharepaste.Client.Types.{PersistedState, DeviceIdentity}
use sharepaste.Client.Session.{attach}
use sharepaste.Client.Task.{Client, Task, returned, thrown, throw, asks, ◌>>◌}
use sharepaste.Client.Ports.{Ports}
use sharepaste.Client.SharePaste.Keys.{clear_session, attach_state_step}
use sharepaste.Client.SharePaste.Bootstrap.{
  placeholder, stale_device_state, says_not_found, register_fresh_device, recover_group_client,
  refresh_persisted_state, reset_or_throw, bootstrap_from, bootstrap,
}

module _ {X : Type 0} (ports : Ports X) where
  abbrev pub attached : PersistedState → X → Client X → Client X
  attached state x c = record c { session = attach state c.session; outside = x }

  -- If the server refuses a recovery, it throws, and the client is left with a state in its session
  -- whose device and group are the empty text.
  pub recovery_refused :
      (phrase name message : String) (identity : DeviceIdentity) (c : Client X) (x1 x2 : X)
      → ports.crypto.create_identity c.outside ≡ (returned identity, x1)
      → ports.transport.recover_group phrase name ports.node.name identity.wrap_public_key x1
        ≡ (thrown message, x2)
      → recover_group_client ports phrase name c
        ≡ (thrown message, attached (placeholder name ports.node.name phrase identity) x2 c)
  unfolding recover_group_client
  recovery_refused phrase name message identity c x1 x2 created refused =
      bind_returned _ _ c _ identity (asks_returned _ c x1 identity created)
      ∙ bind_returned _ _ _ _ _ (attach_state_step _ _)
      ∙ bind_thrown _ _ _ _ message (asks_thrown _ _ x2 message refused)

  refresh_unknown :
      (existing : PersistedState) (message : String) (c : Client X) (x : X)
      → ports.transport.get_device_context existing.device_id c.outside ≡ (thrown message, x)
      → refresh_persisted_state ports existing c ≡ (
        thrown (if says_not_found ports message then stale_device_state else message),
        attached existing x c,
      )
  unfolding refresh_persisted_state throw
  refresh_unknown existing message c x unknown = bind_thrown _ _ c _ _ (
      catches_thrown _ _ c _ message (
        bind_returned _ _ c _ existing (attach_state_step existing c)
        ∙ asks_thrown _ _ x message unknown))

  abbrev pub start_over : String → Task (Client X) PersistedState
  start_over name = do asks ports.state_store.clear; clear_session; register_fresh_device ports name

  with_flag :
      (flag : Bool) (m n : Task (Client X) PersistedState) (c : Client X)
      → (if flag && true then m else n) c ≡ (if flag then m else n) c
  with_flag true m n c = refl
  with_flag false m n c = refl

  reset_or_throw-cases :
      (name message : String) (c : Client X) (unknown : Bool)
      → (message == stale_device_state) ≡ false
      → reset_or_throw ports name (if unknown then stale_device_state else message) c
        ≡ (if unknown
              then (if ports.reset_stale_state then start_over name else throw stale_device_state)
              else throw message)
            c
  unfolding reset_or_throw
  reset_or_throw-cases name message c true other = with_flag ports.reset_stale_state _ _ c
  reset_or_throw-cases name message c false other = ground arith

  -- The whole of a bootstrap whose stored state is refused.
  pub bootstrap_outcome :
      (name message : String) (existing : PersistedState) (c : Client X) (x1 x2 : X)
      → ports.state_store.load c.outside ≡ (returned (some existing), x1)
      → ports.transport.get_device_context existing.device_id x1 ≡ (thrown message, x2)
      → (message == stale_device_state) ≡ false
      → bootstrap ports name c
        ≡ (if says_not_found ports message
              then (if ports.reset_stale_state then start_over name else throw stale_device_state)
              else throw message)
            (attached existing x2 c)
  unfolding bootstrap bootstrap_from
  bootstrap_outcome name message existing c x1 x2 loaded unknown other =
      bind_returned _ _ c _ (some existing) (asks_returned _ c x1 (some existing) loaded)
      ∙ catches_thrown _ _ _ _ _
          (bind_thrown _ _ _ _ _ (refresh_unknown existing message _ x2 unknown))
      ∙ reset_or_throw-cases name message (attached existing x2 c) (says_not_found ports message)
          other

  flagged :
      (unknown flag : Bool) (m : Task (Client X) PersistedState) (stale message : String)
      (c : Client X)
      → (unknown && flag) ≡ false
      → (if unknown then (if flag then m else throw stale) else throw message) c
        ≡ (thrown (if unknown then stale else message), c)
  unfolding throw
  flagged true true m stale message c h = absurd (cc h)
  flagged true false m stale message c h = refl
  flagged false flag m stale message c h = refl

  -- If there is a stored state and the server answers a bootstrap with an error, the bootstrap
  -- throws, unless the server does not know the device and the flag is set: it throws
  -- STALE_DEVICE_STATE if the server does not know the device, and else the same error. The stored
  -- state is neither cleared nor written, and it is in the session.
  pub bootstrap_refused :
      (name message : String) (existing : PersistedState) (c : Client X) (x1 x2 : X)
      → ports.state_store.load c.outside ≡ (returned (some existing), x1)
      → ports.transport.get_device_context existing.device_id x1 ≡ (thrown message, x2)
      → (message == stale_device_state) ≡ false
      → (says_not_found ports message && ports.reset_stale_state) ≡ false
      → bootstrap ports name c ≡ (
        thrown (if says_not_found ports message then stale_device_state else message),
        attached existing x2 c,
      )
  bootstrap_refused name message existing c x1 x2 loaded unknown other kept =
      bootstrap_outcome name message existing c x1 x2 loaded unknown other
      ∙ flagged (says_not_found ports message) ports.reset_stale_state (start_over name) _ message _
          kept
