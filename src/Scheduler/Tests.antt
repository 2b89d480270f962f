-- ===== src/Scheduler/Tests.antt =====
-- The theorems about schedules at two workflows.
use constructor.Prelude.{
  ◌+◌, ◌≤◌, ◌≡◌, ◌++◌, refl, String, true, false, List, map, length, All, [], ◌∷◌, Dict, lookup,
  insert, if◌then◌else◌, ltb, arith, keys, elem,
}
use constructor.Prelude.Int.{pos}
use constructor.Json.{Value, str, num, end, field, get}
use constructor.Outcome.{return, raise, value_error, raised}
use constructor.Scheduler.Dispatch.{Platform, Request, Instance, lock_key, is_held, dispatch}
use constructor.Scheduler.Dispatch.Attempts.{Slowest}
use constructor.Scheduler.Dispatch.Lock.{Fires, KeepsOut, dispatch-excludes, dispatch_twice-sent}
use constructor.Scheduler.Jobs.{Row, interval, Job, Readers, load_jobs, row_ids, build_trigger}
use constructor.Scheduler.Worker.{Poll, jobs_after}
use constructor.Scheduler.Worker.Origin.{HasOrigin, last_rows, jobs_after-HasOrigin}
use constructor.Scheduler.Jobs.Synced.{or_else, new_job, load_jobs-synced}

-- The platform refuses until second 1002, and takes 2 seconds for each answer.
abbrev platform : Platform
platform now workflow = (if ltb now 1002 then raise (raised "503") else return tt, 2)

abbrev instance_at : Instance
instance_at = record { now = 1000; locks = []; sent = [] }

fires : map (λ r. r.sent_at) (dispatch platform "w1" instance_at).sent ≡ 1000 ∷ 1004 ∷ []
unfolding dispatch is_held lookup
fires = refl

slow : Slowest platform "w1" 16
slow now = omega arith

free : is_held (lock_key "w1") instance_at ≡ false
unfolding is_held lookup
free = refl

dispatch-excludes_example :
    (fires : Fires platform "w1" instance_at (dispatch platform "w1" instance_at)) × ((dispatch
        platform "w1" instance_at).now
      ≤ 1000 + 54)
    × All (KeepsOut platform "w1" (dispatch platform "w1" instance_at).now) fires.requests
dispatch-excludes_example = dispatch-excludes platform "w1" instance_at free slow

dispatch_twice-sent_example :
    let first = dispatch platform "w1" instance_at in
    let second = dispatch platform "w1" first in
    (one : List Request) × (two : List Request) × (1 ≤ length one)
    × (1 ≤ length two)
    × (first.sent ≡ [] ++ one)
    × (is_held (lock_key "w1") first ≡ false)
    × (second.sent ≡ first.sent ++ two)
    × All (λ r. r.workflow_id ≡ "w1") one
    × All (λ r. r.workflow_id ≡ "w1") two
dispatch_twice-sent_example = dispatch_twice-sent platform "w1" instance_at free

abbrev readers : Readers
readers = record {
  is_crontab = λ crontab zone. true;
  is_timedelta = λ n. true;
  to_int = λ v. elim v [ num n ↦ return n | _ ↦ raise (value_error "invalid literal for int()") ];
}

abbrev row_of : String → Value → Row
row_of id minutes = record {
  id = id;
  tenant_id = "t1";
  trigger_config = field "type" (str "schedule") (field "interval_minutes" minutes end);
}

abbrev old_job : Job
old_job = record {
  trigger = interval (pos 5);
  workflow_id = "w1";
  tenant_id = "t1";
  started_at = 7;
}

abbrev jobs : Dict Job
jobs = ("w0", old_job) ∷ ("w1", old_job) ∷ []

abbrev rows : List Row
rows = row_of "w1" (num (pos 9)) ∷ row_of "w2" (num (pos 15)) ∷ []

load_jobs-synced_example :
    lookup "w2" (load_jobs readers 100 rows jobs).1
    ≡ or_else (lookup "w2" jobs) (new_job readers 100 (row_of "w2" (num (pos 15))))
unfolding elem load_jobs keys build_trigger get
load_jobs-synced_example = load_jobs-synced readers 100 rows jobs "w2" (refl, (refl, tt)) refl

-- Two loads, at the second of which the minutes of "w1" have changed, and one whose query failed.
abbrev polls : List Poll
polls =
    record { now = 300; rows = raise (raised "no connection") }
    ∷ record { now = 200; rows = return rows }
    ∷ record { now = 100; rows = return (row_of "w1" (num (pos 3)) ∷ []) }
    ∷ []

abbrev first_job : Job
first_job = record {
  trigger = interval (pos 3);
  workflow_id = "w1";
  tenant_id = "t1";
  started_at = 100;
}

jobs_after-HasOrigin_example :
    HasOrigin readers polls "w1" first_job
    × (elem "w1" (row_ids readers (last_rows readers polls)) ≡ true)
unfolding jobs_after elem lookup build_trigger get load_jobs keys insert
jobs_after-HasOrigin_example = jobs_after-HasOrigin readers polls "w1" first_job refl
