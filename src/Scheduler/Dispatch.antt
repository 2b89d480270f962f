-- ===== src/Scheduler/Dispatch.antt =====
-- services/scheduler-service/src/dispatcher.py: one firing of a schedule, under a lock in Redis.
pub mod Attempts
pub mod Lock
use constructor.Prelude.{
  ℕ, zero, suc, ◌+◌, ◌^◌, ◌-◌, String, Bool, true, false, none, some, List, [], ◌∷◌, ◌++◌, Dict,
  lookup, insert, erase, ltb, if◌then◌else◌,
}
use constructor.Outcome.{Outcome, return, raise, concat}
use constructor.Workflows.Steps.{Uuid}

abbrev pub lock_ttl : ℕ
lock_ttl = 55

abbrev pub max_retries : ℕ
max_retries = 3

-- A request to the platform: its workflow, and the second and the locks of Redis when it is sent.
pub record Request : Type 0 where
  pub workflow_id : Uuid
  pub sent_at : ℕ
  pub locks : Dict ℕ

-- Redis, which all instances share: its clock in seconds, and the locks with the times at which they
-- expire; and the requests that this instance has sent.
pub record Instance : Type 0 where
  pub now : ℕ
  pub locks : Dict ℕ
  pub sent : List Request

-- The answer to a request to the platform, `raise` for an error or a status that is one, and the
-- seconds that it takes.
abbrev pub Platform : Type 0
Platform = ℕ → Uuid → Outcome (Unit {0}) × ℕ

-- `f"scheduler:lock:{workflow_id}"`
abbrev pub lock_key : Uuid → String
lock_key workflow_id = concat "scheduler:lock:" workflow_id ""

-- Whether a key is there: an expired one is not.
unfoldable pub is_held : String → Instance → Bool
is_held key i = elim (lookup key i.locks) [ none ↦ false | some expires ↦ ltb i.now expires ]

-- `redis.set(lock_key, "1", nx=True, ex=_LOCK_TTL)`
unfoldable pub acquire : String → Instance → Bool × Instance
unfolding is_held
acquire key i =
    if is_held key i
    then (false, i)
    else (true, record i { locks = insert key (i.now + lock_ttl) i.locks })

-- `redis.delete(lock_key)`
unfoldable pub release : String → Instance → Instance
release key i = record i { locks = erase key i.locks }

module _ (platform : Platform) where
  abbrev pub request_of : Uuid → Instance → Request
  request_of workflow_id i = record { workflow_id = workflow_id; sent_at = i.now; locks = i.locks }

  -- `client.post` and `raise_for_status`
  unfoldable pub post : Uuid → Instance → Outcome (Unit {0}) × Instance
  post workflow_id i =
      let (answer, seconds) = platform i.now workflow_id in
      (answer, record i { now = i.now + seconds; sent = i.sent ++ request_of workflow_id i ∷ [] })

  -- The loop from `attempt` on, with `left` attempts left: 2 and 4 seconds between attempts.
  unfoldable pub attempts : ℕ → ℕ → Uuid → Instance → Instance
  unfolding post
  attempts zero attempt workflow_id i = i
  attempts (suc left) attempt workflow_id i =
      let (answer, i') = post workflow_id i in
      let waited = if ltb attempt (max_retries - 1) then 2 ^ (attempt + 1) else 0 in
      elim answer [
        | return _ ↦ i'
        | raise _ ↦ attempts left (suc attempt) workflow_id (record i' { now = i'.now + waited })
      ]

  -- Every exception of an attempt is caught, and the last one is logged.
  unfoldable pub dispatch_with_retry : Uuid → Instance → Instance
  unfolding attempts
  dispatch_with_retry workflow_id i = attempts max_retries 0 workflow_id i

  unfoldable pub dispatch : Uuid → Instance → Instance
  unfolding acquire dispatch_with_retry release
  dispatch workflow_id i =
      let (acquired, i') = acquire (lock_key workflow_id) i in
      if acquired then release (lock_key workflow_id) (dispatch_with_retry workflow_id i') else i'
