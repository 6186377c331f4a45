-- ===== src/Client/SharePaste/StartingOver.antt =====
-- A bootstrap that gives up the stored state (apps/client-cli/src/core/sharepaste-client.ts).
use sharepaste.Client.Task.Steps.{bind_returned, asks_returned}
use sharepaste.Prelude.{
  ◌≡◌, refl, ap, String, Bool, true, false, some, ◌==◌, ◌&&◌, ◌∙◌, not, if◌then◌else◌, arith,
  eq_iff,
}
use sharepaste.Client.Types.{PersistedState, DeviceIdentity}
use sharepaste.Client.SyncEngine.{new_engine}
use sharepaste.Client.Session.{ClientSession, new_session, attach, clear, engine_for}
use sharepaste.Client.Task.{Client, Task, returned, thrown, done, changes, ◌>>=◌}
use sharepaste.Client.Ports.{Ports, Bytes, Registration, SealedFields}
use sharepaste.Client.SharePaste.Keys.{
  clear_session, attach_state, attach_state_step, extract_group_key, open_sealed, present,
}
use sharepaste.Client.SharePaste.Bootstrap.{
  placeholder, stale_device_state, says_not_found, register_fresh_device, build_registered_state,
  keep_state, bootstrap,
}
use sharepaste.Client.SharePaste.Refusals.{attached, start_over, bootstrap_outcome}

-- A session of one state, with an engine that has seen nothing.
abbrev pub session_of : PersistedState → ClientSession
session_of state = record { state = some state; sync_engine = some (new_engine state.device_id) }

engine_of : (a b : String) → engine_for (some (new_engine a)) (not (a == b)) b ≡ new_engine b
engine_of a b = ground (arith, eq_iff a b)

attach-session_of : (old new : PersistedState) → attach new (session_of old) ≡ session_of new
unfolding attach
attach-session_of old new =
    ap (λ e. record { state = some new; sync_engine = some e })
      (engine_of old.device_id new.device_id)

module _ {X : Type 0} (ports : Ports X) where
  -- The state of a device that was registered now.
  abbrev pub registered : String → DeviceIdentity → Registration → Bytes → PersistedState
  registered name identity registration key = record {
    device_id = registration.device.device_id;
    group_id = registration.group_id;
    device_name = name;
    platform = ports.node.name;
    recovery_phrase = registration.recovery_phrase;
    sealed_group_key = registration.sealed_group_key;
    identity = identity;
    group_key_base64 = some (ports.node.base64url_text key);
    group_key_version = some 1;
  }

  abbrev pub with_session : PersistedState → X → Client X → Client X
  with_session state x c = record c { session = session_of state; outside = x }

  extracted :
      (sealed : String) (parsed : SealedFields) (state : PersistedState) (key : Bytes)
      (c : Client X) (x1 x2 : X)
      → ports.node.parse_sealed sealed ≡ returned parsed
      → (present parsed.epk && present parsed.nonce && present parsed.ciphertext) ≡ true
      → ports.crypto.unseal_group_key_for_device sealed state.identity.wrap_private_key x1
        ≡ (returned key, x2)
      → extract_group_key ports sealed (with_session state x1 c)
        ≡ (returned key, with_session state x2 c)
  unfolding extract_group_key open_sealed ◌>>=◌
  extracted sealed parsed state key c x1 x2 reads_it complete unsealed =
      rw (reads_it, complete, unsealed) refl

  cleared_step :
      (c : Client X) → clear_session c ≡ (returned tt, record c { session = new_session })
  unfolding clear_session changes clear
  cleared_step c = refl

  first_step :
      (state : PersistedState) (c : Client X) (x : X)
      → attach_state state (record c { session = new_session; outside = x })
        ≡ (returned state, with_session state x c)
  unfolding attach
  first_step state c x = attach_state_step state _

  next_step :
      (old new : PersistedState) (c : Client X) (x : X)
      → attach_state new (with_session old x c) ≡ (returned new, with_session new x c)
  next_step old new c x =
      attach_state_step new (with_session old x c)
      ∙ ap (λ s. (returned new, record c { session = s; outside = x })) (attach-session_of old new)

  taken :
      (b flag : Bool) (m n o : Task (Client X) PersistedState) (c : Client X)
      → b ≡ true
      → flag ≡ true
      → (if b then (if flag then m else n) else o) c ≡ m c
  taken true true m n o c h k = refl
  taken true false m n o c h k = absurd (cc k)
  taken false flag m n o c h k = absurd (cc h)

  -- What the ports answer while a device is registered and its state is stored.
  pub record Registers (name : String) (x0 : X) (identity : DeviceIdentity)
      (registration : Registration) (key : Bytes) (x5 : X) : Type 0 where
    pub x1 : X
    pub x2 : X
    pub x3 : X
    pub x4 : X
    pub parsed : SealedFields
    pub cleared : ports.state_store.clear x0 ≡ (returned tt, x1)
    pub created : ports.crypto.create_identity x1 ≡ (returned identity, x2)
    pub answered :
        ports.transport.register_device name ports.node.name identity.wrap_public_key x2
        ≡ (returned registration, x3)
    pub reads_it : ports.node.parse_sealed registration.sealed_group_key ≡ returned parsed
    pub complete : (present parsed.epk && present parsed.nonce && present parsed.ciphertext) ≡ true
    pub unsealed :
        ports.crypto.unseal_group_key_for_device registration.sealed_group_key
          identity.wrap_private_key x3
        ≡ (returned key, x4)
    pub stored :
        ports.state_store.save (registered name identity registration key) x4 ≡ (returned tt, x5)

  register_step :
      (name : String) (c : Client X) (x0 x5 : X) (identity : DeviceIdentity)
      (registration : Registration) (key : Bytes)
      → (a : Registers name x0 identity registration key x5)
      → register_fresh_device ports name (record c { session = new_session; outside = a.x1 }) ≡ (
        returned (registered name identity registration key),
        with_session (registered name identity registration key) x5 c,
      )
  unfolding register_fresh_device build_registered_state keep_state done
  register_step name c x0 x5 identity registration key a =
      let held = placeholder name ports.node.name "" identity in
      let new = registered name identity registration key in
      bind_returned _ _ _ _ identity (asks_returned _ _ a.x2 identity a.created)
      ∙ bind_returned _ _ _ _ held (first_step held c a.x2)
      ∙ bind_returned _ _ _ _ registration
          (asks_returned _ (with_session held a.x2 c) a.x3 registration a.answered)
      ∙ bind_returned _ _ _ _ new (
          bind_returned _ _ _ _ key (
            extracted registration.sealed_group_key a.parsed held key c a.x3 a.x4 a.reads_it
              a.complete a.unsealed)
          ∙ refl)
      ∙ bind_returned _ _ _ _ tt (asks_returned _ (with_session held a.x4 c) x5 tt a.stored)
      ∙ next_step held new c x5

  start_over_step :
      (name : String) (existing : PersistedState) (c : Client X) (x0 x5 : X)
      (identity : DeviceIdentity) (registration : Registration) (key : Bytes)
      → Registers name x0 identity registration key x5
      → start_over ports name (attached ports existing x0 c) ≡ (
        returned (registered name identity registration key),
        with_session (registered name identity registration key) x5 c,
      )
  start_over_step name existing c x0 x5 identity registration key a =
      bind_returned _ _ _ _ tt (asks_returned _ (attached ports existing x0 c) a.x1 tt a.cleared)
      ∙ bind_returned _ _ _ _ tt (cleared_step (attached ports existing a.x1 c))
      ∙ register_step name c x0 x5 identity registration key a

  -- If the server does not know the device of the stored state, the flag is set, and the ports
  -- answer, the bootstrap returns the state of the device that the server registers now, under the
  -- key that is unsealed with its new identity. This is the state that is stored, after the old one
  -- was cleared, and the session has it, with an engine that has seen nothing.
  pub bootstrap_starts_over :
      (name message : String) (existing : PersistedState) (c : Client X) (x x0 x5 : X)
      (identity : DeviceIdentity) (registration : Registration) (key : Bytes)
      → ports.state_store.load c.outside ≡ (returned (some existing), x)
      → ports.transport.get_device_context existing.device_id x ≡ (thrown message, x0)
      → (message == stale_device_state) ≡ false
      → says_not_found ports message ≡ true
      → ports.reset_stale_state ≡ true
      → Registers name x0 identity registration key x5
      → bootstrap ports name c ≡ (
        returned (registered name identity registration key),
        with_session (registered name identity registration key) x5 c,
      )
  bootstrap_starts_over name message existing c x x0 x5 identity registration key loaded refused
        other unknown flag a =
      bootstrap_outcome ports name message existing c x x0 loaded refused other
      ∙ taken (says_not_found ports message) ports.reset_stale_state _ _ _ _ unknown flag
      ∙ start_over_step name existing c x0 x5 identity registration key a
