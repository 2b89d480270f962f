-- ===== src/Scheduler/Worker.antt =====
-- services/scheduler-service/src/worker.py: the load at the start and the endless reloads after it.
pub mod Origin
use constructor.Prelude.{ℕ, List, [], ◌∷◌, Dict}
use constructor.Outcome.{Outcome, return, raise}
use constructor.Scheduler.Jobs.{Row, Job, Readers, load_jobs}

-- A load: when it is made, and what the query of load_jobs comes to.
pub record Poll : Type 0 where
  pub now : ℕ
  pub rows : Outcome (List Row)

module _ (rd : Readers) where
  -- `load_jobs` with its query, whose exception goes through.
  unfoldable pub load : ℕ → Outcome (List Row) → Dict Job → Outcome (Unit {0}) × Dict Job
  unfolding load_jobs
  load now (raise e) jobs = (raise e, jobs)
  load now (return rows) jobs = load_jobs rd now rows jobs

  -- `except Exception as exc: logger.error(…)`: what was done stays.
  unfoldable pub log_error : Outcome (Unit {0}) × Dict Job → Dict Job
  log_error (return _, jobs) = jobs
  log_error (raise e, jobs) = jobs

  -- The body of the loop, and the load at the start.
  unfoldable pub reload : Poll → Dict Job → Dict Job
  unfolding log_error load
  reload poll jobs = log_error (load poll.now poll.rows jobs)

  -- The jobs of the scheduler after the loads of `main` and of `_periodic_reload` so far, the last
  -- one first.
  unfoldable pub jobs_after : List Poll → Dict Job
  unfolding reload
  jobs_after [] = []
  jobs_after (poll ∷ polls) = reload poll (jobs_after polls)
