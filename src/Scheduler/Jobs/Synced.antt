-- ===== src/Scheduler/Jobs/Synced.antt =====
-- After a load, the jobs are those of the rows.
use constructor.Prelude.{
  ℕ, String, ◌≡◌, refl, sym, ◌∙◌, ap, subst, Bool, true, false, not, ◌&&◌, Option, none, some, List,
  [], ◌∷◌, Dict, lookup, erase, keys, elem, if◌then◌else◌, ◌==◌, eq_iff, arith, lookup-insert,
  lookup-erase, elem-keys, is_some, Unique, Bool-cases, inl, inr,
}
use constructor.Outcome.{Outcome, return, raise, Outcome-cases}
use constructor.Scheduler.Jobs.{
  Row, Trigger, Job, Readers, build_trigger, remove_jobs, add_row, sync_row, sync_rows, row_ids,
  load_jobs,
}

-- The row of an id.
abbrev pub find_row : String → List Row → Option Row
find_row k [] = none
find_row k (row ∷ rows) = if row.id == k then some row else find_row k rows

abbrev pub or_else : Option Job → Option Job → Option Job
or_else none other = other
or_else (some job) other = some job

remove_jobs-lookup :
    (rd : Readers) (db_ids ids : List String) (k : String) (jobs : Dict Job)
    → lookup k (remove_jobs rd db_ids ids jobs)
      ≡ (if elem k ids && not (elem k db_ids) then none else lookup k jobs)
unfolding remove_jobs elem
remove_jobs-lookup rd db_ids [] k jobs = refl
remove_jobs-lookup rd db_ids (id ∷ ids) k jobs = elim (Bool-cases (elem id db_ids)) [
  | inl kept ↦
      rw (kept, remove_jobs)
        (remove_jobs-lookup rd db_ids ids k jobs ∙ ground (arith, kept, eq_iff id k, same))
  | inr gone ↦
      rw (gone, remove_jobs)
        (remove_jobs-lookup rd db_ids ids k (erase id jobs)
          ∙ ground (arith, gone, eq_iff id k, same, lookup-erase id k jobs))
]
  where
    same : id ≡ k → elem id db_ids ≡ elem k db_ids
    same e = ap (λ x. elem x db_ids) e

-- The old jobs whose ids the rows have.
pub kept_jobs-lookup :
    (rd : Readers) (db_ids : List String) (k : String) (jobs : Dict Job)
    → lookup k (remove_jobs rd db_ids (keys jobs) jobs)
      ≡ (if elem k db_ids then lookup k jobs else none)
kept_jobs-lookup rd db_ids k jobs =
    remove_jobs-lookup rd db_ids (keys jobs) k jobs
    ∙ rw (elem-keys k jobs) (here (lookup k jobs) (elem k db_ids))
  where
    here :
        (o : Option Job) (b : Bool)
        → (if is_some o && not b then none else o) ≡ (if b then o else none)
    here none true = refl
    here none false = refl
    here (some job) true = refl
    here (some job) false = refl

elem-row_ids :
    (rd : Readers) (k : String) (rows : List Row)
    → elem k (row_ids rd rows) ≡ is_some (find_row k rows)
unfolding elem
elem-row_ids rd k [] = refl
elem-row_ids rd k (row ∷ rows) = ground (arith, elem-row_ids rd k rows)

module _ (rd : Readers) (now : ℕ) where
  -- The job of a new row, if its trigger can be built.
  abbrev pub job_of_trigger : Row → Outcome (Option Trigger) → Option Job
  job_of_trigger row (return (some trigger)) = some (record {
    trigger = trigger;
    workflow_id = row.id;
    tenant_id = row.tenant_id;
    started_at = now;
  })
  job_of_trigger row _ = none

  abbrev pub new_job : Row → Option Job
  new_job row = job_of_trigger row (build_trigger rd row.trigger_config)

  add_row-lookup :
      (row : Row) (t : Outcome (Option Trigger)) (k : String) (jobs : Dict Job)
      → (add_row rd now row t jobs).0 ≡ return tt
      → lookup k (add_row rd now row t jobs).1
        ≡ (if row.id == k then or_else (job_of_trigger row t) (lookup k jobs) else lookup k jobs)
  unfolding add_row
  add_row-lookup row (raise e) k jobs h = cc
  add_row-lookup row (return none) k jobs h = ground arith
  add_row-lookup row (return (some trigger)) k jobs h = lookup-insert row.id k _ jobs

  pub sync_row-eq :
      (existing : List String) (row : Row) (jobs : Dict Job) {b : Bool}
      → elem row.id existing ≡ b
      → sync_row rd now existing row jobs ≡ (
          if b
          then (return tt, jobs)
          else add_row rd now row (build_trigger rd row.trigger_config) jobs)
  unfolding sync_row
  sync_row-eq existing row jobs same = rw (same, sync_row) refl

  sync_row-lookup :
      (existing : List String) (row : Row) (k : String) (jobs : Dict Job)
      → (sync_row rd now existing row jobs).0 ≡ return tt
      → lookup k (sync_row rd now existing row jobs).1 ≡ (
          if row.id == k
          then (if elem k existing then lookup k jobs else or_else (new_job row) (lookup k jobs))
          else lookup k jobs)
  sync_row-lookup existing row k jobs h = elim (Bool-cases (elem row.id existing)) [
    | inl held ↦
        rw (sync_row-eq existing row jobs held) (ground (arith, held, same, eq_iff row.id k))
    | inr fresh ↦
        let step = sync_row-eq existing row jobs fresh in
        rw step (
          add_row-lookup row (build_trigger rd row.trigger_config) k jobs (rw step at h)
          ∙ ground (arith, fresh, same, eq_iff row.id k))
  ]
    where
      same : row.id ≡ k → elem row.id existing ≡ elem k existing
      same e = ap (λ x. elem x existing) e

  sync_rows-step :
      (existing : List String) (row : Row) (rows : List Row) (jobs : Dict Job)
      → (sync_rows rd now existing (row ∷ rows) jobs).0 ≡ return tt
      → ((sync_row rd now existing row jobs).0 ≡ return tt)
        × (sync_rows rd now existing (row ∷ rows) jobs
            ≡ sync_rows rd now existing rows (sync_row rd now existing row jobs).1)
  unfolding sync_rows
  sync_rows-step existing row rows jobs h =
      elim (Outcome-cases (sync_row rd now existing row jobs).0) [
        | inl (u, done) ↦ (done, rw (done, sync_rows) refl)
        | inr (e, raised) ↦ cc (rw (raised, sync_rows) at h)
      ]

  -- What the second loop makes of the entry of an id.
  abbrev synced : List String → Option Row → String → Option Job → Option Job
  synced existing none k old = old
  synced existing (some row) k old = if elem k existing then old else or_else (new_job row) old

  sync_rows-lookup :
      (existing : List String) (rows : List Row) (k : String) (jobs : Dict Job)
      → Unique (row_ids rd rows)
      → (sync_rows rd now existing rows jobs).0 ≡ return tt
      → lookup k (sync_rows rd now existing rows jobs).1
        ≡ synced existing (find_row k rows) k (lookup k jobs)
  sync_rows-lookup existing [] k jobs unique h = unfold sync_rows in refl
  sync_rows-lookup existing (row ∷ rows) k jobs (absent, unique) h =
      let (done, stepped) = sync_rows-step existing row rows jobs h in
      let rest =
        sync_rows-lookup existing rows k (sync_row rd now existing row jobs).1 unique
          (sym (ap (λ r. r.0) stepped) ∙ h) in
      let placed = sync_row-lookup existing row k jobs done in
      rw stepped (
        rest ∙ elim (Bool-cases (row.id == k)) [
          | inl here ↦
              let gone = none_left ((eq_iff row.id k).0 here) in
              rw (gone, synced) (rw here (rw here at placed))
          | inr there ↦ rw there (ap (synced existing (find_row k rows) k) (rw there at placed))
        ])
    where
      is_none : (o : Option Row) → is_some o ≡ false → o ≡ none
      is_none none h = refl
      is_none (some r) h = cc

      none_left : row.id ≡ k → find_row k rows ≡ none
      none_left e =
          subst (λ j. find_row j rows ≡ none) e
            (is_none (find_row row.id rows) (sym (elem-row_ids rd row.id rows) ∙ absent))

  -- A load that returns leaves exactly the jobs of the rows: an id that no row has has no job; a job
  -- that was there stays as it is, with its timer; and a new row has a job that starts now, if its
  -- trigger can be built. Condition: the ids of the rows differ, as a primary key does.
  pub load_jobs-synced :
      (rows : List Row) (jobs : Dict Job) (k : String)
      → Unique (row_ids rd rows)
      → (load_jobs rd now rows jobs).0 ≡ return tt
      → lookup k (load_jobs rd now rows jobs).1
        ≡ elim (find_row k rows) [ none ↦ none | some row ↦ or_else (lookup k jobs) (new_job row) ]
  unfolding load_jobs
  load_jobs-synced rows jobs k unique h =
      sync_rows-lookup (keys jobs) rows k _ unique h
      ∙ (ap (synced (keys jobs) (find_row k rows) k) (kept_jobs-lookup rd (row_ids rd rows) k jobs)
          ∙ (ap (λ b. synced (keys jobs) (find_row k rows) k (if b then lookup k jobs else none))
                (elem-row_ids rd k rows)
              ∙ final (find_row k rows) (lookup k jobs) (elem-keys k jobs)))
    where
      final :
          (found : Option Row) (old : Option Job)
          → elem k (keys jobs) ≡ is_some old
          → synced (keys jobs) found k (if is_some found then old else none)
            ≡ elim found as (λ _. Option Job) [ none ↦ none | some row ↦ or_else old (new_job row) ]
      final none old known = refl
      final (some row) none known = rw known (right (new_job row))
        where
          right : (o : Option Job) → or_else o none ≡ o
          right none = refl
          right (some job) = refl
      final (some row) (some job) known = rw known refl
