-- ===== src/Client/SharePaste/Rotations.antt =====
-- Updates of the group key (apps/client-cli/src/core/sharepaste-client.ts).
use sharepaste.Prelude.{◌≡◌, refl, ap, ◌∙◌, String, false, some, ◌==◌, if◌then◌else◌}
use sharepaste.Client.Types.{PersistedState}
use sharepaste.Client.Session.{attach, require_state, ClientSession}
use sharepaste.Client.Task.{Client, returned, done, or_throw, settle, ◌>>=◌}
use sharepaste.Client.Task.Steps.{bind_returned, asks_returned}
use sharepaste.Client.Ports.{Ports, Bytes, KeyUpdate}
use sharepaste.Client.SharePaste.Keys.{
  attach_state_step, current_state, not_bootstrapped, present, text_of, extract_group_key,
  get_group_key, update_group_key, apply_group_key_update,
}

current_state_step :
    {X : Type 0} (c : Client X) (state : PersistedState)
    → require_state c.session ≡ some state
    → current_state c ≡ (returned state, c)
unfolding current_state ◌>>=◌ or_throw settle
current_state_step c state h = ap (λ found. (or_throw found not_bootstrapped, c)) h

attached_state :
    (state : PersistedState) (s : ClientSession) → require_state (attach state s) ≡ some state
unfolding require_state attach
attached_state state s = refl

module _ {X : Type 0} (ports : Ports X) where
  abbrev pub updated : PersistedState → KeyUpdate → Bytes → PersistedState
  updated current update key = record current {
    group_id = update.group_id;
    sealed_group_key = update.sealed_group_key;
    group_key_base64 = some (ports.node.base64url_text key);
    group_key_version = some update.group_key_version;
  }

  abbrev pub with_state : PersistedState → X → Client X → Client X
  with_state state x c = record c { session = attach state c.session; outside = x }

  use_key :
      (text : String) (seal : String) (c : Client X)
      → (text == "") ≡ false
      → (if present (some text)
            then done (ports.node.base64url_bytes (text_of (some text)))
            else extract_group_key ports seal)
          c
        ≡ (returned (ports.node.base64url_bytes text), c)
  unfolding done
  use_key text seal c h = rw h refl

  -- Once an update of the group key has been opened and saved, the state of the session has the
  -- group, the sealed key and the version of the update, and the key that the client encrypts and
  -- decrypts with is the one that was sealed in it. Premises: the text of the key is not empty and
  -- is decoded to the key.
  pub rotated_key_is_used :
      (update : KeyUpdate) (current : PersistedState) (key : Bytes) (c c1 : Client X) (x : X)
      → require_state c.session ≡ some current
      → extract_group_key ports update.sealed_group_key
          (record c { session = attach current c.session })
        ≡ (returned key, c1)
      → ports.state_store.save (updated current update key) c1.outside ≡ (returned tt, x)
      → (ports.node.base64url_text key == "") ≡ false
      → ports.node.base64url_bytes (ports.node.base64url_text key) ≡ key
      → let c2 = with_state (updated current update key) x c1 in
        (apply_group_key_update ports update c ≡ (returned (updated current update key), c2))
        × (get_group_key ports c2 ≡ (returned key, c2))
  unfolding apply_group_key_update update_group_key get_group_key
  rotated_key_is_used update current key c c1 x known opened saved named decoded =
      let c2 = with_state (updated current update key) x c1 in
      (
        bind_returned _ _ c c current (current_state_step c current known)
            ∙ bind_returned _ _ c _ current (attach_state_step current c)
            ∙ bind_returned _ _ _ c1 key opened
            ∙ bind_returned _ _ c1 _ tt (asks_returned _ c1 x tt saved)
            ∙ attach_state_step _ _,
        bind_returned _ _ c2 c2 (updated current update key)
              (current_state_step c2 _ (attached_state _ c1.session))
            ∙ use_key _ _ c2 named
            ∙ ap (λ k. (returned k, c2)) decoded,
      )
