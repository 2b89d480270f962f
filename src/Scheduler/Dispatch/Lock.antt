-- ===== src/Scheduler/Dispatch/Lock.antt =====
-- The lock of a firing: who holds it, and until when.
use constructor.Prelude.{
  ℕ, ◌+◌, ◌*◌, ◌≤◌, ◌<◌, String, ◌≡◌, ◌≢◌, refl, sym, ◌∙◌, ap, subst, true, false, none, some, ◌++◌,
  ◌⊎◌, inl, inr, arith, Dict, lookup, insert, erase, lookup-erase_self, lookup-erase, lookup-insert,
  lookup-insert_self, All, All-map, length, List, lt→ltb, eq_iff,
}
use constructor.Workflows.Steps.{Uuid}
use constructor.Scheduler.Dispatch.{
  Platform, Request, Instance, lock_ttl, lock_key, is_held, acquire, release, dispatch_with_retry,
  dispatch,
}
use constructor.Scheduler.Dispatch.Attempts.{Slowest, attempts-now, attempts-Requests, IsDuring}

acquire-held : (key : String) (i : Instance) → is_held key i ≡ true → acquire key i ≡ (false, i)
unfolding acquire
acquire-held key i held = rw (held, acquire) refl

abbrev pub with_lock : String → Instance → Instance
with_lock key i = record i { locks = insert key (i.now + lock_ttl) i.locks }

acquire-free :
    (key : String) (i : Instance) → is_held key i ≡ false → acquire key i ≡ (true, with_lock key i)
unfolding acquire
acquire-free key i free = rw (free, acquire) refl

is_held-before :
    (key : String) (i : Instance) {expires : ℕ}
    → lookup key i.locks ≡ some expires
    → i.now < expires
    → is_held key i ≡ true
unfolding is_held
is_held-before key i found early = rw (found, is_held) (lt→ltb _ _ early)

is_held-absent : (key : String) (i : Instance) → lookup key i.locks ≡ none → is_held key i ≡ false
unfolding is_held
is_held-absent key i absent = rw (absent, is_held) refl

module _ (platform : Platform) (workflow_id : Uuid) where
  dispatch-held :
      (i : Instance) → is_held (lock_key workflow_id) i ≡ true → dispatch platform workflow_id i ≡ i
  unfolding dispatch
  dispatch-held i held = rw (acquire-held (lock_key workflow_id) i held, dispatch) refl

  -- The instance in the middle of a firing, at its end before the lock is released.
  abbrev pub fired : Instance → Instance
  fired i = dispatch_with_retry platform workflow_id (with_lock (lock_key workflow_id) i)

  dispatch-free :
      (i : Instance)
      → is_held (lock_key workflow_id) i ≡ false
      → dispatch platform workflow_id i ≡ release (lock_key workflow_id) (fired i)
  unfolding dispatch
  dispatch-free i free = rw (acquire-free (lock_key workflow_id) i free, dispatch) refl

  -- What one firing does, when nothing holds the lock.
  pub record Fires (i i' : Instance) : Type 0 where
    pub requests : List Request
    pub sent : i'.sent ≡ i.sent ++ requests
    pub between : (1 ≤ length requests) × (length requests ≤ 3)
    pub during :
        All
          (IsDuring platform workflow_id (with_lock (lock_key workflow_id) i).locks i.now i'.now)
          requests
    pub released : is_held (lock_key workflow_id) i' ≡ false
    pub other_locks :
        (key : String) → key ≢ lock_key workflow_id → lookup key i'.locks ≡ lookup key i.locks

  other_lock :
      (key : String) (i : Instance) (locks : Dict ℕ)
      → key ≢ lock_key workflow_id
      → locks ≡ insert (lock_key workflow_id) (i.now + lock_ttl) i.locks
      → lookup key (erase (lock_key workflow_id) locks) ≡ lookup key i.locks
  other_lock key i locks other same = rw same (
      ground (
        arith,
        eq_iff (lock_key workflow_id) key,
        lookup-erase (lock_key workflow_id) key
            (insert (lock_key workflow_id) (i.now + lock_ttl) i.locks),
        lookup-insert (lock_key workflow_id) key (i.now + lock_ttl) i.locks,
      ))

  dispatch-Fires :
      (i : Instance)
      → is_held (lock_key workflow_id) i ≡ false
      → Fires i (dispatch platform workflow_id i)
  dispatch-Fires i free =
      let key = lock_key workflow_id in
      let requests = attempts-Requests platform workflow_id 3 0 (with_lock key i) in
      subst (Fires i) (sym (dispatch-free i free)) (
        unfold dispatch_with_retry release in
        record {
          requests = requests.requests;
          sent = requests.sent;
          during = requests.each;
          between = (at_least requests.at_least, requests.at_most);
          released = is_held-absent key _ (lookup-erase_self key _);
          other_locks = λ other differs. other_lock other i _ differs requests.same_locks;
        })
    where
      at_least : {n : ℕ} → (◌≡◌ {A = ℕ} 3 0) ⊎ (1 ≤ n) → 1 ≤ n
      at_least (inl none_left) = absurd (omega (arith, none_left))
      at_least (inr some_sent) = some_sent

  dispatch-now :
      (slowest : ℕ) (i : Instance)
      → is_held (lock_key workflow_id) i ≡ false
      → Slowest platform workflow_id slowest
      → (dispatch platform workflow_id i).now ≤ i.now + 3 * slowest + 6
  unfolding dispatch_with_retry release
  dispatch-now slowest i free slow =
      subst (λ i'. i'.now ≤ i.now + 3 * slowest + 6) (sym (dispatch-free i free))
        (attempts-now platform workflow_id slowest 3 0 (with_lock (lock_key workflow_id) i) slow)

  -- Another instance that finds the locks under which a request was sent does nothing.
  abbrev pub KeepsOut : ℕ → Request → Type 0
  KeepsOut until r =
      (j : Instance) → j.locks ≡ r.locks → j.now ≤ until → dispatch platform workflow_id j ≡ j

  during-KeepsOut :
      (i : Instance) (until : ℕ) (r : Request)
      → until ≤ i.now + 54
      → IsDuring platform workflow_id (with_lock (lock_key workflow_id) i).locks i.now until r
      → KeepsOut until r
  during-KeepsOut i until r in_time (same, under, after, before) j finds early = dispatch-held j (
      is_held-before (lock_key workflow_id) j
        (ap (lookup (lock_key workflow_id)) (finds ∙ under)
          ∙ lookup-insert_self (lock_key workflow_id) (i.now + lock_ttl) i.locks)
        (omega (arith, early, in_time)))

  -- One firing, if the lock is free and each request takes at most 16 seconds: between one and three
  -- requests are sent, all for the workflow and under its lock, between the start and the end of the
  -- firing, which are at most 54 seconds apart; and the lock has not expired by then, so that another
  -- instance that finds the locks of Redis as they are when one of the requests is sent, at any time
  -- until the end, sends nothing and changes nothing. At the end the lock is released, and the other
  -- locks are as before.
  pub dispatch-excludes :
      (i : Instance)
      → is_held (lock_key workflow_id) i ≡ false
      → Slowest platform workflow_id 16
      → (fires : Fires i (dispatch platform workflow_id i)) × ((dispatch platform workflow_id i).now
          ≤ i.now + 54)
        × All (KeepsOut (dispatch platform workflow_id i).now) fires.requests
  dispatch-excludes i free slow =
      let fires = dispatch-Fires i free in
      let in_time = dispatch-now 16 i free slow in
      (
        fires,
        omega (arith, in_time),
        All-map _ _ fires.requests
            (λ r.
              during-KeepsOut i (dispatch platform workflow_id i).now r (omega (arith, in_time)))
            fires.during,
      )

  -- Two instances that fire the same workflow one after the other both send a request: after the
  -- first firing, which sends one at least, the lock is not held, and the second sends one at least
  -- after those of the first. Condition: the lock is free before the first.
  pub dispatch_twice-sent :
      (i : Instance)
      → is_held (lock_key workflow_id) i ≡ false
      → let first = dispatch platform workflow_id i in
        let second = dispatch platform workflow_id first in
        (one : List Request) × (two : List Request) × (1 ≤ length one)
        × (1 ≤ length two)
        × (first.sent ≡ i.sent ++ one)
        × (is_held (lock_key workflow_id) first ≡ false)
        × (second.sent ≡ first.sent ++ two)
        × All (λ r. r.workflow_id ≡ workflow_id) one
        × All (λ r. r.workflow_id ≡ workflow_id) two
  dispatch_twice-sent i free =
      let first = dispatch-Fires i free in
      let second = dispatch-Fires (dispatch platform workflow_id i) first.released in
      (
        first.requests,
        second.requests,
        first.between.0,
        second.between.0,
        first.sent,
        first.released,
        second.sent,
        All-map _ _ first.requests (λ r d. d.0) first.during,
        All-map _ _ second.requests (λ r d. d.0) second.during,
      )
