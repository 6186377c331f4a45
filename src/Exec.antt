-- ===== src/Exec.antt =====
-- Methods that mutate the store and may throw. What was written before a throw stays written, so
-- the world comes back beside the error too.
use sharepaste.Prelude.{ℕ, suc, Bool, true, false, Option, none, some, List, ◌∷◌}
use sharepaste.Types.{Store, PresenceEvent}

-- The messages of the errors that the server throws. `type_error`: a `!` on a missing entry was
-- dereferenced. `invalid_public_key`: `createPublicKey` threw. `storage_failed`: the database
-- rejected a write. `out_of_fuel` is of the model: the
-- search for an unused bind code did not end within its bound.
pub data Error : Type 0 where
  device_not_found group_not_found recovery_phrase_invalid group_mismatch : Error
  group_device_limit_reached bind_code_expired bind_code_exhausted bind_request_expired : Error
  already_bound not_authorized policy_version_conflict invalid_max_file_size : Error
  policy_rejected source_device_mismatch rate_limited : Error
  type_error invalid_public_key storage_failed out_of_fuel : Error

pub data Result {ℓ} (A : Type ℓ) : Type ℓ where
  ok : A → Result A
  err : Error → Result A

-- The store, the number of values drawn from the environment, and the events that callbacks were
-- given, with their streams, the latest first.
pub record World : Type 0 where
  pub store : Store
  pub open store use *
  pub draws : ℕ
  pub sent : List (ℕ × PresenceEvent)

abbrev pub Exec : Type 0 → Type 0
Exec A = World → Result A × World

module _ {A : Type 0} where
  unfoldable pub pure : A → Exec A
  pure a w = (ok a, w)

  unfoldable pub raise : Error → Exec A
  raise e w = (err e, w)

  unfoldable pub lift : Result A → Exec A
  lift r w = (r, w)

  -- A missing value is the error.
  unfoldable pub or_fail : Option A → Error → Result A
  or_fail none e = err e
  or_fail (some a) e = ok a

  unfoldable pub gets : (World → A) → Exec A
  gets f w = (ok (f w), w)

  -- The next value of the environment.
  unfoldable pub draw : (ℕ → A) → Exec A
  draw f w = (ok (f w.draws), record w { draws = suc w.draws })

unfoldable pub guard : Error → Bool → Result (Unit {0})
guard e true = ok tt
guard e false = err e

unfoldable pub modify : (Store → Store) → Exec (Unit {0})
modify f w = (ok tt, record w { store = f w.store })

unfoldable pub emit : ℕ → PresenceEvent → Exec (Unit {0})
emit stream event w = (ok tt, record w { sent = (stream, event) ∷ w.sent })

module _ {A B : Type 0} where
  unfoldable pub continue : Result A → (A → Exec B) → Exec B
  continue (ok a) f w = f a w
  continue (err e) f w = (err e, w)

  infixl 10 ◌>>=◌ ◌>>◌
  -- To open this is to open all of the above.
  unfoldable pub ◌>>=◌ : Exec A → (A → Exec B) → Exec B
  unfolding continue pure raise lift or_fail gets draw guard modify emit
  ◌>>=◌ m f w = let r = m w in continue r.0 f r.1

  abbrev pub ◌>>◌ : Exec A → Exec B → Exec B
  m >> n = m >>= λ _. n
