-- ===== src/Scheduler/Jobs/Stopped.antt =====
-- A load that an unreadable row stops.
use constructor.Prelude.{
  ℕ, String, ◌≡◌, refl, ◌∙◌, ap, false, Option, none, List, ◌∷◌, Dict, lookup, keys, elem,
  if◌then◌else◌,
}
use constructor.Outcome.{Outcome, return, raise, Exception}
use constructor.Scheduler.Jobs.{
  Row, Trigger, Job, Readers, build_trigger, remove_jobs, add_row, sync_rows, row_ids, load_jobs,
}
use constructor.Scheduler.Jobs.Synced.{kept_jobs-lookup, sync_row-eq}

module _ (rd : Readers) (now : ℕ) where
  add_row-raises :
      (row : Row) (jobs : Dict Job) {t : Outcome (Option Trigger)} {e : Exception}
      → t ≡ raise e
      → add_row rd now row t jobs ≡ (raise e, jobs)
  unfolding add_row
  add_row-raises row jobs h = rw h refl

  sync_rows-raises :
      (existing : List String) (row : Row) (rows : List Row) (jobs : Dict Job) {e : Exception}
      → elem row.id existing ≡ false
      → build_trigger rd row.trigger_config ≡ raise e
      → sync_rows rd now existing (row ∷ rows) jobs ≡ (raise e, jobs)
  unfolding sync_rows
  sync_rows-raises existing row rows jobs fresh unreadable =
      ap
        (λ out. elim out.0 as (λ _. Outcome (Unit {0}) × Dict Job) [
          | raise e ↦ (raise e, out.1)
          | return _ ↦ sync_rows rd now existing rows out.1
        ])
        (sync_row-eq rd now existing row jobs fresh ∙ add_row-raises row jobs unreadable)

  -- A new row whose minutes are no number stops a load at once: the exception goes through, the rows
  -- after it have no new jobs, and only the old jobs that the rows keep are left.
  pub load_jobs-raises :
      (row : Row) (rows : List Row) (jobs : Dict Job) (e : Exception)
      → elem row.id (keys jobs) ≡ false
      → build_trigger rd row.trigger_config ≡ raise e
      → ((load_jobs rd now (row ∷ rows) jobs).0 ≡ raise e)
        × ((k : String)
            → lookup k (load_jobs rd now (row ∷ rows) jobs).1
              ≡ (if elem k (row_ids rd (row ∷ rows)) then lookup k jobs else none))
  unfolding load_jobs
  load_jobs-raises row rows jobs e fresh unreadable =
      let kept = remove_jobs rd (row_ids rd (row ∷ rows)) (keys jobs) jobs in
      let stopped = sync_rows-raises (keys jobs) row rows kept fresh unreadable in
      (
        ap (λ out. out.0) stopped,
        λ k.
            ap (λ out. lookup k out.1) stopped
            ∙ kept_jobs-lookup rd (row_ids rd (row ∷ rows)) k jobs,
      )
