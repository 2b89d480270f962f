-- ===== src/Scheduler/Worker/Origin.antt =====
-- Where the jobs of a scheduler that has reloaded many times come from.
use constructor.Prelude.{
  arith, ℕ, String, ◌≡◌, refl, sym, ◌∙◌, ap, subst, Bool, true, false, Bool-cases, Option, none,
  some, List, [], ◌∷◌, Dict, lookup, keys, elem, ◌⊎◌, inl, inr, ◌==◌, eq_iff, lookup-insert,
  if◌then◌else◌,
}
use constructor.Outcome.{Outcome, return, raise}
use constructor.Scheduler.Jobs.{
  Row, Trigger, Job, Readers, build_trigger, add_row, sync_row, sync_rows, row_ids, load_jobs,
}
use constructor.Scheduler.Jobs.Synced.{sync_row-eq, kept_jobs-lookup}
use constructor.Scheduler.Worker.{Poll, load, log_error, reload, jobs_after}

module _ (rd : Readers) where
  -- The job has the id, the tenant and the trigger of the row, and was added at the time.
  pub record IsMadeOf (now : ℕ) (row : Row) (k : String) (job : Job) : Type 0 where
    pub same_id : row.id ≡ k
    pub trigger : build_trigger rd row.trigger_config ≡ return (some job.trigger)
    pub workflow : job.workflow_id ≡ row.id
    pub tenant : job.tenant_id ≡ row.tenant_id
    pub started : job.started_at ≡ now

  -- One of the rows has made the job.
  abbrev pub IsNew : ℕ → List Row → String → Job → Type 0
  IsNew now [] k job = ⊥
  IsNew now (row ∷ rows) k job = IsMadeOf now row k job ⊎ IsNew now rows k job

  abbrev pub IsNewIn : ℕ → Outcome (List Row) → String → Job → Type 0
  IsNewIn now (raise e) k job = ⊥
  IsNewIn now (return rows) k job = IsNew now rows k job

  -- One of the loads has made the job.
  abbrev pub HasOrigin : List Poll → String → Job → Type 0
  HasOrigin [] k job = ⊥
  HasOrigin (poll ∷ polls) k job = IsNewIn poll.now poll.rows k job ⊎ HasOrigin polls k job

  -- The rows of the last query that was answered.
  abbrev pub answered_or : Outcome (List Row) → List Row → List Row
  answered_or (raise e) before = before
  answered_or (return rows) before = rows

  abbrev pub last_rows : List Poll → List Row
  last_rows [] = []
  last_rows (poll ∷ polls) = answered_or poll.rows (last_rows polls)

  add_row-IsMadeOf :
      (now : ℕ) (row : Row) (t : Outcome (Option Trigger)) (k : String) (jobs : Dict Job)
      {job : Job}
      → build_trigger rd row.trigger_config ≡ t
      → lookup k (add_row rd now row t jobs).1 ≡ some job
      → (lookup k jobs ≡ some job) ⊎ IsMadeOf now row k job
  unfolding add_row
  add_row-IsMadeOf now row (raise e) k jobs built h = inl h
  add_row-IsMadeOf now row (return none) k jobs built h = inl h
  add_row-IsMadeOf now row (return (some trigger)) k jobs {job} built h =
      elim (Bool-cases (row.id == k)) [
        | inr other ↦ inl (rw other at (sym (lookup-insert row.id k _ jobs) ∙ h))
        | inl same ↦
            inr (
              made ((eq_iff row.id k).0 same)
                (rw same at (sym (lookup-insert row.id k _ jobs) ∙ h)))
      ]
    where
      made :
          row.id ≡ k
          → some (record {
            trigger = trigger;
            workflow_id = row.id;
            tenant_id = row.tenant_id;
            started_at = now;
          })
            ≡ some job
          → IsMadeOf now row k job
      made same e =
          subst (λ o. elim o as (λ _. Type 0) [ none ↦ ⊥ | some j ↦ IsMadeOf now row k j ]) e
            (record {
              same_id = same;
              trigger = built;
              workflow = refl;
              tenant = refl;
              started = refl;
            })

  sync_row-IsMadeOf :
      (now : ℕ) (existing : List String) (row : Row) (k : String) (jobs : Dict Job) {job : Job}
      → lookup k (sync_row rd now existing row jobs).1 ≡ some job
      → (lookup k jobs ≡ some job) ⊎ IsMadeOf now row k job
  sync_row-IsMadeOf now existing row k jobs h = elim (Bool-cases (elem row.id existing)) [
    | inl held ↦ inl (rw (sync_row-eq rd now existing row jobs held) at h)
    | inr fresh ↦
        add_row-IsMadeOf now row _ k jobs refl
          (rw (sync_row-eq rd now existing row jobs fresh) at h)
  ]

  sync_rows-IsNew :
      (now : ℕ) (existing : List String) (rows : List Row) (k : String) (jobs : Dict Job)
      {job : Job}
      → lookup k (sync_rows rd now existing rows jobs).1 ≡ some job
      → (lookup k jobs ≡ some job) ⊎ IsNew now rows k job
  unfolding sync_rows
  sync_rows-IsNew now existing [] k jobs h = inl h
  sync_rows-IsNew now existing (row ∷ rows) k jobs {job} h =
      elim (later (sync_row rd now existing row jobs) (λ js. sync_rows-IsNew now existing rows k js)
        h) [
          | inr new ↦ inr (inr new)
          | inl before ↦ elim (sync_row-IsMadeOf now existing row k jobs before) [
            | inl old ↦ inl old
            | inr made ↦ inr (inl made)
          ]
        ]
    where
      later :
          (out : Outcome (Unit {0}) × Dict Job)
          → ((js : Dict Job)
              → lookup k (sync_rows rd now existing rows js).1 ≡ some job
              → (lookup k js ≡ some job) ⊎ IsNew now rows k job)
          → lookup k
              (elim out.0 as (λ _. Outcome (Unit {0}) × Dict Job) [
                | raise e ↦ (raise e, out.1)
                | return _ ↦ sync_rows rd now existing rows out.1
              ]).1
            ≡ some job
          → (lookup k out.1 ≡ some job) ⊎ IsNew now rows k job
      later (raise e, jobs') rest h = inl h
      later (return _, jobs') rest h = rest jobs' h

  IsNew-elem :
      (now : ℕ) (rows : List Row) (k : String) (job : Job)
      → IsNew now rows k job
      → elem k (row_ids rd rows) ≡ true
  unfolding elem
  IsNew-elem now [] k job new = absurd new
  IsNew-elem now (row ∷ rows) k job (inl made) = ground (arith, eq_iff row.id k, made.same_id)
  IsNew-elem now (row ∷ rows) k job (inr new) = ground (arith, IsNew-elem now rows k job new)

  load_jobs-IsNew :
      (now : ℕ) (rows : List Row) (k : String) (jobs : Dict Job) {job : Job}
      → lookup k (load_jobs rd now rows jobs).1 ≡ some job
      → ((lookup k jobs ≡ some job) ⊎ IsNew now rows k job) × (elem k (row_ids rd rows) ≡ true)
  unfolding load_jobs
  load_jobs-IsNew now rows k jobs {job} h = elim (sync_rows-IsNew now (keys jobs) rows k _ h) [
    | inr new ↦ (inr new, IsNew-elem now rows k job new)
    | inl kept ↦
        kept_before (elem k (row_ids rd rows)) refl
          (sym (kept_jobs-lookup rd (row_ids rd rows) k jobs) ∙ kept)
  ]
    where
      kept_before :
          (b : Bool)
          → elem k (row_ids rd rows) ≡ b
          → (if b then lookup k jobs else none) ≡ some job
          → ((lookup k jobs ≡ some job) ⊎ IsNew now rows k job) × (elem k (row_ids rd rows) ≡ true)
      kept_before true listed h = (inl h, listed)
      kept_before false listed h = cc

  log_error-eq : (out : Outcome (Unit {0}) × Dict Job) → log_error rd out ≡ out.1
  unfolding log_error
  log_error-eq (return _, jobs) = refl
  log_error-eq (raise e, jobs) = refl

  -- A load keeps the origins of the jobs before it.
  reload-HasOrigin :
      (poll : Poll) (polls : List Poll) (k : String) (job : Job)
      → lookup k (reload rd poll (jobs_after rd polls)) ≡ some job
      → (lookup k (jobs_after rd polls) ≡ some job
          → HasOrigin polls k job × (elem k (row_ids rd (last_rows polls)) ≡ true))
      → HasOrigin (poll ∷ polls) k job × (elem k (row_ids rd (last_rows (poll ∷ polls))) ≡ true)
  unfolding reload load
  reload-HasOrigin poll polls k job h before =
      go poll.rows
        (sym (ap (lookup k) (log_error-eq (load rd poll.now poll.rows (jobs_after rd polls)))) ∙ h)
    where
      go :
          (rows : Outcome (List Row))
          → lookup k (load rd poll.now rows (jobs_after rd polls)).1 ≡ some job
          → (IsNewIn poll.now rows k job ⊎ HasOrigin polls k job)
            × (elem k (row_ids rd (answered_or rows (last_rows polls))) ≡ true)
      go (raise e) h = let (origin, listed) = before h in (inr origin, listed)
      go (return rows) h =
          let (made, listed) = load_jobs-IsNew poll.now rows k (jobs_after rd polls) h in
          (elim made [ inl old ↦ inr (before old).0 | inr new ↦ inl new ], listed)

  -- Whatever the loads found and whichever failed, every job was made of a row that one of the
  -- queries answered with: it has its id, its tenant and its trigger, and the time of that load. And
  -- its id is still one of those in the last answer, so no workflow is left that was removed.
  pub jobs_after-HasOrigin :
      (polls : List Poll) (k : String) (job : Job)
      → lookup k (jobs_after rd polls) ≡ some job
      → HasOrigin polls k job × (elem k (row_ids rd (last_rows polls)) ≡ true)
  unfolding jobs_after lookup
  jobs_after-HasOrigin [] k job h = let impossible : ⊥ = cc in absurd impossible
  jobs_after-HasOrigin (poll ∷ polls) k job h =
      reload-HasOrigin poll polls k job h (jobs_after-HasOrigin polls k job)
