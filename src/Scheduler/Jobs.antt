-- ===== src/Scheduler/Jobs.antt =====
-- services/scheduler-service/src/job_loader.py: the jobs of the scheduler follow the workflows of the
-- database.
pub mod Synced
pub mod Stopped
use constructor.Prelude.{
  ℕ, String, Bool, Option, none, some, List, [], ◌∷◌, map, Dict, insert, erase, keys, elem, get_or,
  if◌then◌else◌,
}
use constructor.Prelude.Int.{ℤ}
use constructor.Json.{Value, Fields, str, get}
use constructor.Outcome.{Outcome, return, raise, raised, ◌>>=◌}
use constructor.Workflows.Steps.{Uuid}

-- A row of the query: the definitions whose trigger is a schedule.
pub record Row : Type 0 where
  pub id : Uuid
  pub tenant_id : Uuid
  pub trigger_config : Fields

-- APScheduler's triggers, made of a crontab and a time zone, or of minutes.
pub data Trigger : Type 0 where
  cron : Value → Value → Trigger
  interval : ℤ → Trigger

-- A job of APScheduler: its trigger, its arguments, and when its timer was started.
pub record Job : Type 0 where
  pub trigger : Trigger
  pub workflow_id : Uuid
  pub tenant_id : Uuid
  pub started_at : ℕ

-- What APScheduler and Python take as a crontab in a time zone, and as minutes; and whether as many
-- minutes are a `timedelta`.
pub record Readers : Type 0 where
  pub is_crontab : Value → Value → Bool
  pub to_int : Value → Outcome ℤ
  pub is_timedelta : ℤ → Bool

module _ (rd : Readers) where
  -- `CronTrigger.from_crontab`; an exception is logged.
  cron_trigger : Value → Value → Option Trigger
  cron_trigger crontab zone = if rd.is_crontab crontab zone then some (cron crontab zone) else none

  interval_trigger : Option Value → Outcome (Option Trigger)
  interval_trigger none = return none
  interval_trigger (some minutes) = do
    n ← rd.to_int minutes
    if rd.is_timedelta n then return (some (interval n)) else raise (raised "OverflowError")

  -- `int(…)` is not in the `try`: its exception goes through.
  unfoldable pub build_trigger : Fields → Outcome (Option Trigger)
  unfolding cron_trigger interval_trigger
  build_trigger config = elim (get "cron" config) [
    | some crontab ↦ return (cron_trigger crontab (get_or (str "UTC") (get "timezone" config)))
    | none ↦ interval_trigger (get "interval_minutes" config)
  ]

  -- `for job in scheduler.get_jobs(): if job.id not in db_ids: job.remove()`
  unfoldable pub remove_jobs : List String → List String → Dict Job → Dict Job
  remove_jobs db_ids [] jobs = jobs
  remove_jobs db_ids (id ∷ ids) jobs =
      remove_jobs db_ids ids (if elem id db_ids then jobs else erase id jobs)

  -- `scheduler.add_job(…, replace_existing=True)`
  unfoldable pub add_job : ℕ → Row → Option Trigger → Dict Job → Dict Job
  add_job now row none jobs = jobs
  add_job now row (some trigger) jobs =
      insert row.id
        (record {
          trigger = trigger;
          workflow_id = row.id;
          tenant_id = row.tenant_id;
          started_at = now;
        })
        jobs

  unfoldable pub add_row :
      ℕ → Row → Outcome (Option Trigger) → Dict Job → Outcome (Unit {0}) × Dict Job
  unfolding add_job
  add_row now row (raise e) jobs = (raise e, jobs)
  add_row now row (return trigger) jobs = (return tt, add_job now row trigger jobs)

  -- The body of the second loop.
  unfoldable pub sync_row : ℕ → List String → Row → Dict Job → Outcome (Unit {0}) × Dict Job
  unfolding add_row build_trigger
  sync_row now existing_ids row jobs =
      if elem row.id existing_ids
      then (return tt, jobs)
      else add_row now row (build_trigger row.trigger_config) jobs

  -- The second loop: an exception leaves it, and the jobs that it has added stay.
  unfoldable pub sync_rows : ℕ → List String → List Row → Dict Job → Outcome (Unit {0}) × Dict Job
  unfolding sync_row
  sync_rows now existing_ids [] jobs = (return tt, jobs)
  sync_rows now existing_ids (row ∷ rows) jobs =
      let (done, jobs') = sync_row now existing_ids row jobs in
      elim done [ raise e ↦ (raise e, jobs') | return _ ↦ sync_rows now existing_ids rows jobs' ]

  abbrev pub row_ids : List Row → List String
  row_ids rows = map (λ r. r.id) rows

  -- `load_jobs`, on the rows that the query found. The jobs of the scheduler go by their ids.
  unfoldable pub load_jobs : ℕ → List Row → Dict Job → Outcome (Unit {0}) × Dict Job
  unfolding remove_jobs sync_rows
  load_jobs now rows jobs =
      sync_rows now (keys jobs) rows (remove_jobs (row_ids rows) (keys jobs) jobs)
