-- ===== src/Store/Behaviour/QueueLaws.antt =====
-- Offline queues (`fetchOffline` of apps/server/src/store/sharepaste-store.ts).
use sharepaste.Prelude.{
  ℕ, suc, zero, ◌≤◌, ◌≡◌, refl, String, Bool, true, some, List, [], ◌∷◌, arith, not, filter, map,
  length, take, ℤ, pos, ltb_ℤ, if◌then◌else◌, length-map, length-take-le, ltb, ◌&&◌,
}
use sharepaste.Map.{get, get-map_values}
use sharepaste.Types.{Device, ClipboardItem, OfflineEnvelope}
use sharepaste.Env.{Env, now_unix}
use sharepaste.Exec.{World, ok, ◌>>=◌}
use sharepaste.Store.Common.{queue_of, require_device, find_device, cleanup_expired, drop_expired}
use sharepaste.Store.Clipboard.{insert_envelope, sort_queue, fetch_offline, slice_to}

-- No item was made before the one that stands before it.
abbrev pub in_order : List ClipboardItem → Bool
in_order [] = true
in_order (a ∷ []) = true
in_order (a ∷ b ∷ rest) = not (ltb_ℤ b.created_at_unix a.created_at_unix) && in_order (b ∷ rest)

abbrev pub item_of : OfflineEnvelope → ClipboardItem
item_of e = e.item

-- How many items pass the test.
abbrev pub count_items : (ClipboardItem → Bool) → List ClipboardItem → ℕ
count_items p [] = 0
count_items p (a ∷ rest) = if p a then suc (count_items p rest) else count_items p rest

insert_envelope-in_order :
    (e : OfflineEnvelope) (q : List OfflineEnvelope)
    → in_order (map item_of q) ≡ true
    → in_order (map item_of (insert_envelope e q)) ≡ true
unfolding insert_envelope
insert_envelope-in_order e [] h = refl
insert_envelope-in_order e (a ∷ []) h = ground arith
insert_envelope-in_order e (a ∷ b ∷ q) h = ground (arith, insert_envelope-in_order e (b ∷ q))

pub sort_queue-in_order : (q : List OfflineEnvelope) → in_order (map item_of (sort_queue q)) ≡ true
unfolding sort_queue
sort_queue-in_order [] = refl
sort_queue-in_order (a ∷ q) = insert_envelope-in_order a (sort_queue q) (sort_queue-in_order q)

insert_envelope-count :
    (p : ClipboardItem → Bool) (e : OfflineEnvelope) (q : List OfflineEnvelope)
    → count_items p (map item_of (insert_envelope e q)) ≡ count_items p (map item_of (e ∷ q))
unfolding insert_envelope
insert_envelope-count p e [] = refl
insert_envelope-count p e (a ∷ q) = ground (arith, insert_envelope-count p e q)

pub sort_queue-count :
    (p : ClipboardItem → Bool) (q : List OfflineEnvelope)
    → count_items p (map item_of (sort_queue q)) ≡ count_items p (map item_of q)
unfolding sort_queue
sort_queue-count p [] = refl
sort_queue-count p (a ∷ q) =
    ground (arith, insert_envelope-count p a (sort_queue q), sort_queue-count p q)

take-in_order :
    (n : ℕ) (q : List OfflineEnvelope)
    → in_order (map item_of q) ≡ true
    → in_order (map item_of (take n q)) ≡ true
take-in_order zero q h = refl
take-in_order (suc n) [] h = refl
take-in_order (suc zero) (a ∷ q) h = refl
take-in_order (suc (suc n)) (a ∷ []) h = refl
take-in_order (suc (suc n)) (a ∷ b ∷ q) h = ground (arith, take-in_order (suc n) (b ∷ q))

length-take_all : {A : Type 0} (n : ℕ) (xs : List A) → length xs ≤ n → take n xs ≡ xs
length-take_all zero [] h = refl
length-take_all zero (x ∷ xs) h = ground arith
length-take_all (suc n) [] h = refl
length-take_all (suc n) (x ∷ xs) h = ground (arith, length-take_all n xs)

length-insert_envelope :
    (e : OfflineEnvelope) (q : List OfflineEnvelope) → length (insert_envelope e q) ≡ suc (length q)
unfolding insert_envelope
length-insert_envelope e [] = refl
length-insert_envelope e (a ∷ q) = ground (arith, length-insert_envelope e q)

length-sort_queue : (q : List OfflineEnvelope) → length (sort_queue q) ≡ length q
unfolding sort_queue
length-sort_queue [] = refl
length-sort_queue (a ∷ q) =
    ground (arith, length-insert_envelope a (sort_queue q), length-sort_queue q)

-- What is in the queue of a device and has not expired.
abbrev pub pending : Env → String → World → List OfflineEnvelope
pending env id w =
    filter (λ e. ltb (now_unix env w.draws) e.expires_at_unix) (queue_of (get id w.offline))

module _ (env : Env) (id : String) (w : World) (d : Device) (known : get id w.devices ≡ some d)
    (active : d.active ≡ true) where
  fetch_offline-result :
      (limit : ℤ)
      → (fetch_offline env id limit w).0
        ≡ ok (map item_of (slice_to limit (sort_queue (pending env id w))))
  unfolding fetch_offline require_device find_device cleanup_expired drop_expired ◌>>=◌
  fetch_offline-result limit = ground (
    arith,
    get-map_values (filter λ e. ltb (now_unix env w.draws) e.expires_at_unix) id w.offline,
  )

  -- An active device that fetches with a limit `n` gets at most `n` items, oldest first.
  pub fetch_offline-oldest_first :
      (n : ℕ)
      → (items : List ClipboardItem) × ((fetch_offline env id (pos n) w).0 ≡ ok items)
        × (in_order items ≡ true)
        × (length items ≤ n)
  fetch_offline-oldest_first n =
      let q = sort_queue (pending env id w) in
      (
        map item_of (take n q),
        fetch_offline-result (pos n),
        take-in_order n q (sort_queue-in_order (pending env id w)),
        omega (arith, length-map item_of (take n q), length-take-le n q),
      )

  -- If no more than `n` envelopes of an active device have not expired, then with the limit `n` it
  -- gets all of their items, each as often as it is queued: any test is passed by as many items.
  pub fetch_offline_complete :
      (n : ℕ) (p : ClipboardItem → Bool)
      → length (pending env id w) ≤ n
      → (items : List ClipboardItem) × ((fetch_offline env id (pos n) w).0 ≡ ok items)
        × (count_items p items ≡ count_items p (map item_of (pending env id w)))
  fetch_offline_complete n p h =
      let q = pending env id w in
      let whole : take n (sort_queue q) ≡ sort_queue q =
        length-take_all n (sort_queue q) (omega (arith, h, length-sort_queue q)) in
      (
        map item_of (take n (sort_queue q)),
        fetch_offline-result (pos n),
        rw whole (sort_queue-count p q),
      )
