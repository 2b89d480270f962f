-- ===== src/Migrations/Chain/Stages.antt =====
-- Every way up and down ends at the schema of a version.
use constructor.Prelude.{
  ◌≡◌, refl, String, Bool, true, false, Option, none, some, List, [], ◌∷◌, ◌++◌, All, Dict, elem,
  get_or, ◌⊎◌, inl, inr, Bool-cases, and-eq-true, ◌&&◌, if◌then◌else◌,
}
use constructor.Migrations.{Table, Operation, Revision, has_column, empty, run}
use constructor.Migrations.Access.{initial_schema, rls_policies, audit_log}
use constructor.Migrations.Workflows.{workflows, executions}
use constructor.Migrations.Chain.{
  versions, Database, new_database, Move, up, down, migrate, migrate_all,
}

-- What a database can be: at a version, or at the first one again after row security was there.
pub data Stage : Type 0 where
  base initial reopened secured audited with_workflows with_executions with_triggers : Stage

-- The operations that build the schema of a stage.
abbrev upgrades : List Revision → List Operation
upgrades [] = []
upgrades (r ∷ rs) = r.upgrade ++ upgrades rs

abbrev pub built_by : Stage → List Operation
built_by base = []
built_by initial = initial_schema.upgrade
built_by reopened = initial_schema.upgrade ++ (rls_policies.upgrade ++ rls_policies.downgrade)
built_by secured = upgrades (initial_schema ∷ rls_policies ∷ [])
built_by audited = upgrades (initial_schema ∷ rls_policies ∷ audit_log ∷ [])
built_by with_workflows = upgrades (initial_schema ∷ rls_policies ∷ audit_log ∷ workflows ∷ [])
built_by with_executions =
    upgrades (initial_schema ∷ rls_policies ∷ audit_log ∷ workflows ∷ executions ∷ [])
built_by with_triggers = upgrades versions

abbrev pub version_of : Stage → Option String
version_of base = none
version_of initial = some "f1f69d2642ac"
version_of reopened = some "f1f69d2642ac"
version_of secured = some "e2f6a5d27807"
version_of audited = some "8cf4fdbc5d3c"
version_of with_workflows = some "2960e743b868"
version_of with_executions = some "a1b2c3d4e5f6"
version_of with_triggers = some "c3d4e5f6a7b8"

unfoldable pub at_stage : Stage → Database
unfolding run
at_stage st = record { version = version_of st; schema = get_or empty (run (built_by st) empty) }

abbrev pub move_of : Move → Stage → Stage
move_of up base = initial
move_of up initial = secured
move_of up reopened = secured
move_of up secured = audited
move_of up audited = with_workflows
move_of up with_workflows = with_executions
move_of up with_executions = with_triggers
move_of up with_triggers = with_triggers
move_of down base = base
move_of down initial = base
move_of down reopened = base
move_of down secured = reopened
move_of down audited = secured
move_of down with_workflows = audited
move_of down with_executions = with_workflows
move_of down with_triggers = with_executions

abbrev pub stage_after : List Move → Stage → Stage
stage_after [] st = st
stage_after (m ∷ ms) st = stage_after ms (move_of m st)

-- A table of tenants' rows has row security, forced, and the policy.
abbrev pub IsProtected : Table → Type 0
IsProtected t =
    (has_column "tenant_id" t.columns ≡ false)
    ⊎ ((t.row_security ≡ true) × (t.forced ≡ true) × (elem "tenant_isolation" t.policies ≡ true))

abbrev pub AllProtected : Database → Type 0
AllProtected db = All (λ (e : String × Table). IsProtected e.1) db.schema.tables

-- From the second version on every such table is protected.
abbrev pub Guards : Stage → Type 0
Guards base = Unit
Guards initial = Unit
Guards reopened = Unit
Guards secured = AllProtected (at_stage secured)
Guards audited = AllProtected (at_stage audited)
Guards with_workflows = AllProtected (at_stage with_workflows)
Guards with_executions = AllProtected (at_stage with_executions)
Guards with_triggers = AllProtected (at_stage with_triggers)

migrate-up : (st : Stage) → migrate up (at_stage st) ≡ some (at_stage (move_of up st))
unfolding migrate at_stage
migrate-up base = refl
migrate-up initial = refl
migrate-up reopened = refl
migrate-up secured = refl
migrate-up audited = refl
migrate-up with_workflows = refl
migrate-up with_executions = refl
migrate-up with_triggers = refl

migrate-down : (st : Stage) → migrate down (at_stage st) ≡ some (at_stage (move_of down st))
unfolding migrate at_stage
migrate-down base = refl
migrate-down initial = refl
migrate-down reopened = refl
migrate-down secured = refl
migrate-down audited = refl
migrate-down with_workflows = refl
migrate-down with_executions = refl
migrate-down with_triggers = refl

migrate-at_stage :
    (m : Move) (st : Stage) → migrate m (at_stage st) ≡ some (at_stage (move_of m st))
migrate-at_stage up st = migrate-up st
migrate-at_stage down st = migrate-down st

migrate_all-at_stage :
    (ms : List Move) (st : Stage)
    → migrate_all ms (at_stage st) ≡ some (at_stage (stage_after ms st))
unfolding migrate_all
migrate_all-at_stage [] st = refl
migrate_all-at_stage (m ∷ ms) st =
    rw (migrate-at_stage m st, migrate_all) (migrate_all-at_stage ms (move_of m st))

is_protected : Table → Bool
unfolding elem
is_protected t =
    if has_column "tenant_id" t.columns
    then t.row_security && (t.forced && elem "tenant_isolation" t.policies)
    else true

is_protected-IsProtected : (t : Table) → is_protected t ≡ true → IsProtected t
unfolding is_protected
is_protected-IsProtected t h = elim (Bool-cases (has_column "tenant_id" t.columns)) [
  | inr e ↦ inl e
  | inl e ↦
      let (secure, others) = and-eq-true _ _ (rw e at h) in
      let (forced, policy) = and-eq-true _ _ others in inr (secure, forced, policy)
]

all_protected : Dict Table → Bool
unfolding is_protected
all_protected [] = true
all_protected ((name, t) ∷ tables) = is_protected t && all_protected tables

all_protected-All :
    (tables : Dict Table)
    → all_protected tables ≡ true
    → All (λ (e : String × Table). IsProtected e.1) tables
unfolding all_protected
all_protected-All [] h = tt
all_protected-All ((name, t) ∷ tables) h =
    let (one, others) = and-eq-true _ _ h in
    (is_protected-IsProtected t one, all_protected-All tables others)

at_stage-Guards : (st : Stage) → Guards st
unfolding at_stage all_protected
at_stage-Guards base = tt
at_stage-Guards initial = tt
at_stage-Guards reopened = tt
at_stage-Guards secured = all_protected-All ((at_stage secured).schema.tables) refl
at_stage-Guards audited = all_protected-All ((at_stage audited).schema.tables) refl
at_stage-Guards with_workflows = all_protected-All ((at_stage with_workflows).schema.tables) refl
at_stage-Guards with_executions = all_protected-All ((at_stage with_executions).schema.tables) refl
at_stage-Guards with_triggers = all_protected-All ((at_stage with_triggers).schema.tables) refl

-- However the versions are run up and down from an empty database, the database refuses none of
-- their statements, and its schema is that of the version it is at, built by the upgrades alone; only
-- at the first version it may also have the flags that force row security, which no downgrade takes
-- back. From the second version on, every table with rows of tenants has row security, forced, and
-- the policy.
pub migrate_all-stages :
    (ms : List Move)
    → (migrate_all ms new_database ≡ some (at_stage (stage_after ms base)))
      × Guards (stage_after ms base)
unfolding at_stage
migrate_all-stages ms = (migrate_all-at_stage ms base, at_stage-Guards (stage_after ms base))
