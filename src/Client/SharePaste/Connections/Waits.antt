-- ===== src/Client/SharePaste/Connections/Waits.antt =====
-- The streams that the realtime loop waits for (apps/client-cli/src/core/sharepaste-client.ts).
use sharepaste.Prelude.{
  ℕ, suc, ◌<◌, ◌≤◌, ◌≡◌, refl, ap, Bool, true, false, Option, none, some, arith, ◌∙◌, Bool-cases,
  inl, subst, sym, inr, if◌then◌else◌,
}
use sharepaste.Client.SharePaste.Connections.{
  Connections, mark, connect_once, unless_is, clean_up, cancel, request_stop, Place, testing,
  waiting, pausing, finished, resume, leaves, resumes, wakes, Step, connects, ends, stops, Reached,
  starts, then_step,
}

-- A stream that is opened and unresolved is the one that the loop waits for; the stream that it waits
-- for is the last; the current one is the last, unresolved and not cancelled; and no mark is on a
-- stream that is not opened yet.
pub record InOrder (l : Connections) : Type 0 where
  pub waited : (i : ℕ) → i < l.opened → l.resolved i ≡ false → l.place ≡ waiting i
  pub last : (i : ℕ) → l.place ≡ waiting i → suc i ≡ l.opened
  pub at_last :
      (i : ℕ)
      → l.current ≡ some i
      → (suc i ≡ l.opened) × (l.resolved i ≡ false) × (l.cancelled i ≡ false)
  pub fresh : (i : ℕ) → l.opened ≤ i → (l.resolved i ≡ false) × (l.cancelled i ≡ false)

mark-other : (i j : ℕ) (marked : ℕ → Bool) → ¬ (i ≡ j) → mark i marked j ≡ marked j
mark-other i j marked other = ground arith

unmarked : (i j : ℕ) (marked : ℕ → Bool) → mark i marked j ≡ false → marked j ≡ false
unmarked i j marked h = ground arith

unless_is-some : (i j : ℕ) (o : Option ℕ) → unless_is i o ≡ some j → (o ≡ some j) × (¬ (i ≡ j))
unless_is-some i j none h = absurd (cc h)
unless_is-some i j (some k) h = ground arith

unless_is_self : (i : ℕ) → unless_is i (some i) ≡ none
unless_is_self i = ground arith

opened_last :
    (l : Connections)
    → InOrder l
    → (i : ℕ) → some l.opened ≡ some i
    → (suc i ≡ suc l.opened) × (l.resolved i ≡ false) × (l.cancelled i ≡ false)
opened_last l v i h =
    let e : i ≡ l.opened = cc h in
    let (unresolved, kept) = v.fresh l.opened (omega arith) in
    (ap suc e, ap l.resolved e ∙ unresolved, ap l.cancelled e ∙ kept)

abbrev stream_of : Place → ℕ
stream_of testing = 0
stream_of (waiting i) = i
stream_of pausing = 0
stream_of finished = 0

waiting_injective : (i j : ℕ) → waiting i ≡ waiting j → i ≡ j
waiting_injective i j h = ap stream_of h

last_of : (i n : ℕ) → i < suc n → ¬ (i < n) → i ≡ n
last_of i n low high = omega arith

nowhere : (stopped : Bool) (j : ℕ) → ¬ ((if stopped then testing else pausing) ≡ waiting j)
nowhere true j h = cc
nowhere false j h = cc

-- At the test of the loop each stream that was opened has resolved.
all_resolved :
    (l : Connections)
    → InOrder l
    → l.place ≡ testing
    → (i : ℕ) → i < suc l.opened
    → l.resolved i ≡ false
    → i ≡ l.opened
all_resolved l v at i low idle =
    last_of i l.opened low (λ below. absurd (let busy = v.waited i below idle in cc (at, busy)))

connected-InOrder : (l : Connections) → InOrder l → l.place ≡ testing → InOrder (connect_once l)
unfolding connect_once
connected-InOrder l v at = record {
  waited = λ i low idle. ap waiting (sym (all_resolved l v at i low idle));
  last = λ i h. ap suc (sym (waiting_injective l.opened i h));
  at_last = λ i h. opened_last l v i h;
  fresh = λ i h. v.fresh i (omega arith);
}

-- The loop goes on from a place where it waits for no stream that is unresolved.
moved-InOrder :
    (l : Connections) (p : Place)
    → InOrder l
    → ((i : ℕ) → l.place ≡ waiting i → l.resolved i ≡ true)
    → ((i : ℕ) → ¬ (p ≡ waiting i))
    → InOrder (record l { place = p })
moved-InOrder l p v done elsewhere = record {
  waited = λ i low idle. absurd (let busy = done i (v.waited i low idle) in cc (busy, idle));
  last = λ i h. absurd (elsewhere i h);
  at_last = v.at_last;
  fresh = v.fresh;
}

resumed-InOrder :
    (l : Connections) (i : ℕ)
    → InOrder l
    → l.place ≡ waiting i
    → l.resolved i ≡ true
    → InOrder (resume l)
unfolding resume
resumed-InOrder l i v at done =
    moved-InOrder l _ v
      (λ j h. subst (λ k. l.resolved k ≡ true) (waiting_injective i j (sym at ∙ h)) done)
      (λ j h. nowhere l.stop_requested j h)

clean_up-resolved : (i : ℕ) (l : Connections) → l.resolved i ≡ true → clean_up i l ≡ l
unfolding clean_up
clean_up-resolved i l h = rw h

clean_up-unresolved :
    (i : ℕ) (l : Connections)
    → l.resolved i ≡ false
    → clean_up i l ≡ record l { resolved = mark i l.resolved; current = unless_is i l.current }
unfolding clean_up
clean_up-unresolved i l h = rw h

unresolved-InOrder :
    (l : Connections) (i : ℕ)
    → i < l.opened
    → InOrder l
    → InOrder (record l { resolved = mark i l.resolved; current = unless_is i l.current })
unresolved-InOrder l i low v = record {
  waited = λ j h idle. v.waited j h (unmarked i j l.resolved idle);
  last = v.last;
  at_last = λ j h.
      let (at, other) = unless_is-some i j l.current h in
      let (last, unresolved, kept) = v.at_last j at in
      (last, mark-other i j l.resolved other ∙ unresolved, kept);
  fresh = λ j h. (mark-other i j l.resolved (omega arith) ∙ (v.fresh j h).0, (v.fresh j h).1);
}

cleaned-InOrder : (l : Connections) (i : ℕ) → i < l.opened → InOrder l → InOrder (clean_up i l)
cleaned-InOrder l i low v = elim (Bool-cases (l.resolved i)) [
  | inl h ↦ subst InOrder (sym (clean_up-resolved i l h)) v
  | inr h ↦ subst InOrder (sym (clean_up-unresolved i l h)) (unresolved-InOrder l i low v)
]

not_opened : {i j n : ℕ} → suc j ≡ n → n ≤ i → ¬ (j ≡ i)
not_opened last h = omega arith

cancel-fresh :
    (current : Option ℕ) (cancelled : ℕ → Bool) (n i : ℕ)
    → ((j : ℕ) → current ≡ some j → suc j ≡ n)
    → n ≤ i
    → cancel current cancelled i ≡ cancelled i
cancel-fresh none cancelled n i last h = refl
cancel-fresh (some j) cancelled n i last h = mark-other j i cancelled (not_opened (last j refl) h)

stopped-InOrder : (l : Connections) → InOrder l → InOrder (request_stop l)
unfolding request_stop
stopped-InOrder l v = record {
  waited = v.waited;
  last = v.last;
  at_last = λ i h. absurd (cc h);
  fresh = λ i h. (
    (v.fresh i h).0,
    cancel-fresh l.current l.cancelled l.opened i (λ j at. (v.at_last j at).0) h ∙ (v.fresh i h).1,
  );
}

Step-InOrder : {l l' : Connections} → Step l l' → InOrder l → InOrder l'
Step-InOrder (connects l at going) v = connected-InOrder l v at
Step-InOrder (leaves l at stopped) v =
    moved-InOrder l finished v (λ i h. absurd (cc (at, h))) (λ i h. absurd (cc h))
Step-InOrder (resumes l i at done) v = resumed-InOrder l i v at done
Step-InOrder (wakes l at) v =
    moved-InOrder l testing v (λ i h. absurd (cc (at, h))) (λ i h. absurd (cc h))
Step-InOrder (ends l i low) v = cleaned-InOrder l i low v
Step-InOrder (stops l) v = stopped-InOrder l v

stop_after_failure :
    (l : Connections) (i : ℕ)
    → l.current ≡ some i
    → l.resolved i ≡ false
    → l.cancelled i ≡ false
    → (request_stop (clean_up i l)).cancelled i ≡ false
unfolding request_stop
stop_after_failure l i at unresolved kept =
    rw (clean_up-unresolved i l unresolved, at, unless_is_self i, kept)

Reached-InOrder : {l : Connections} → Reached l → InOrder l
Reached-InOrder starts = record {
  waited = λ i h idle. absurd (omega arith);
  last = λ i h. absurd (cc h);
  at_last = λ i h. absurd (cc h);
  fresh = λ i h. (refl, refl);
}
Reached-InOrder (then_step l l' r s) = Step-InOrder s (Reached-InOrder r)

-- In every reached state a stream that is opened and has not resolved is the last one, and the loop
-- waits for it.
pub one_wait :
    (l : Connections)
    → Reached l
    → (i : ℕ) → i < l.opened
    → l.resolved i ≡ false
    → (suc i ≡ l.opened) × (l.place ≡ waiting i)
one_wait l r i low idle =
    let v = Reached-InOrder r in let at = v.waited i low idle in (v.last i at, at)

-- In every reached state, when the current stream is cleaned up, as it is when a message's handling
-- fails, and the loop is stopped then, this stream is not cancelled.
pub failed_stream_is_kept :
    (l : Connections) (i : ℕ)
    → Reached l
    → l.current ≡ some i
    → (request_stop (clean_up i l)).cancelled i ≡ false
failed_stream_is_kept l i r h =
    let (last, unresolved, kept) = (Reached-InOrder r).at_last i h in
    stop_after_failure l i h unresolved kept
