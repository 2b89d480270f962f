-- ===== src/Workflows/Definitions/Created.antt =====
-- A created definition is one that the executor can run.
use constructor.Prelude.{
  suc, ◌<◌, All, ℕ, ◌≡◌, ◌≢◌, refl, sym, ◌∙◌, ap, subst, Bool, true, false, some, List, [], ◌∷◌,
  map, Dict, lookup, insert, elem, lookup-insert, lookup-insert_self, eq_iff, Bool-cases, arith,
  ◌⊎◌, inl, inr,
}
use constructor.Outcome.{return}
use constructor.Workflows.Steps.{Uuid, ProcessDefinition, valid_on_error}
use constructor.Workflows.Validator.{StepError, validate_steps}
use constructor.Workflows.Validator.Spec.{IsWellFormed}
use constructor.Workflows.Validator.WellFormed.{validate_steps-eq-nil_iff}
use constructor.Access.Users.{Response, ok, http_error}
use constructor.Executions.Events.{ProcessExecution}
use constructor.Executions.Session.{World, Handlers, System}
use constructor.Json.{Value}
use constructor.Executions.Executor.{execute_workflow, first_step}
use constructor.Executions.Executor.Termination.{execute_workflow-terminates, Falls}
use constructor.Executions.Executor.Finished.{IsFinished}
use constructor.Executions.Executor.Ends.{HaveIds, execute_workflow-IsFinished}
use constructor.Workflows.Definitions.{
  StepSchema, ProcessDefinitionCreate, dump, is_valid, new_process, create_process, create,
}

is_valid-parts :
    (body : ProcessDefinitionCreate)
    → is_valid body ≡ true
    → (validate_steps (map dump body.steps) ≡ []) × (elem body.on_error valid_on_error ≡ true)
unfolding is_valid
is_valid-parts body h = go (validate_steps (map dump body.steps)) refl h
  where
    go :
        (es : List StepError)
        → validate_steps (map dump body.steps) ≡ es
        → elim es as (λ _. Bool) [ [] ↦ elem body.on_error valid_on_error | e ∷ rest ↦ false ]
          ≡ true
        → (validate_steps (map dump body.steps) ≡ []) × (elem body.on_error valid_on_error ≡ true)
    go [] none_found h = (none_found, h)
    go (e ∷ es) found h = cc

pub map-dump-HaveIds : (steps : List StepSchema) → HaveIds (map dump steps)
map-dump-HaveIds [] = tt
map-dump-HaveIds (s ∷ ss) = ((λ e. cc), map-dump-HaveIds ss)

-- A definition of the tenant, with well-formed steps, is stored under its id, and the others stay.
pub record IsStored (tenant_id user_id : Uuid) (ds : Dict ProcessDefinition) (d : ProcessDefinition)
    (ds' : Dict ProcessDefinition) : Type 0 where
  pub steps : IsWellFormed d.steps
  pub ids : HaveIds d.steps
  pub on_error : elem d.on_error valid_on_error ≡ true
  pub owner : (d.tenant_id ≡ tenant_id) × (d.created_by ≡ user_id)
  pub stored : lookup d.id ds' ≡ some d
  pub others : (j : Uuid) → j ≢ d.id → lookup j ds' ≡ lookup j ds

new_process-IsStored :
    (id : Uuid) (body : ProcessDefinitionCreate) (tenant_id user_id : Uuid)
    (ds : Dict ProcessDefinition)
    → is_valid body ≡ true
    → let d = new_process id body tenant_id user_id in
      IsStored tenant_id user_id ds d (insert id d ds)
unfolding new_process
new_process-IsStored id body tenant_id user_id ds valid =
    let d = new_process id body tenant_id user_id in
    let (sound, listed) = is_valid-parts body valid in
    record {
      steps = (validate_steps-eq-nil_iff (map dump body.steps)).0 sound;
      ids = map-dump-HaveIds body.steps;
      on_error = listed;
      owner = (refl, refl);
      stored = lookup-insert_self id d ds;
      others = λ j other.
          lookup-insert id j d ds ∙ ground (arith, eq_iff id j, λ (e : id ≡ j). other (sym e));
    }

pub create-valid :
    (id : Uuid) (body : ProcessDefinitionCreate) (tenant_id user_id : Uuid)
    (ds : Dict ProcessDefinition)
    → is_valid body ≡ true
    → let d = new_process id body tenant_id user_id in
      create id body tenant_id user_id ds ≡ (ok d, insert id d ds)
unfolding create create_process
create-valid id body tenant_id user_id ds valid = rw (valid, create) refl

create-wrong :
    (id : Uuid) (body : ProcessDefinitionCreate) (tenant_id user_id : Uuid)
    (ds : Dict ProcessDefinition)
    → is_valid body ≡ false
    → create id body tenant_id user_id ds ≡ (http_error 422, ds)
unfolding create
create-wrong id body tenant_id user_id ds wrong = rw (wrong, create) refl

-- What the endpoint answers: a stored definition, or a refusal that changes nothing.
abbrev pub Answer :
    ProcessDefinitionCreate
    → Uuid
    → Uuid
    → Dict ProcessDefinition
    → Response ProcessDefinition × Dict ProcessDefinition
    → Type 0
Answer body tenant_id user_id ds r =
    ((d : ProcessDefinition) × (r.0 ≡ ok d) × IsStored tenant_id user_id ds d r.1)
    ⊎ ((is_valid body ≡ false) × (r ≡ (http_error 422, ds)))

-- Every definition that the endpoint answers with has well-formed steps, is of the tenant and
-- the user of the request and is stored under its id beside the others; a request that is
-- refused is not valid and changes nothing.
pub create-Answer :
    (id : Uuid) (body : ProcessDefinitionCreate) (tenant_id user_id : Uuid)
    (ds : Dict ProcessDefinition)
    → Answer body tenant_id user_id ds (create id body tenant_id user_id ds)
create-Answer id body tenant_id user_id ds = elim (Bool-cases (is_valid body)) [
  | inl valid ↦
      subst (Answer body tenant_id user_id ds)
        (sym (create-valid id body tenant_id user_id ds valid))
        (inl (_, refl, new_process-IsStored id body tenant_id user_id ds valid))
  | inr wrong ↦ inr (wrong, create-wrong id body tenant_id user_id ds wrong)
]

-- An execution of a definition that was created ends and is finished: completed without a current
-- step, or failed with its error. Conditions: the definition is stored as it was created, and the
-- execution under its id; a measure falls along every `next` and every outcome of a condition; and
-- the fuel is more than the measure of the first step.
pub create-execute_workflow :
    (w : World) (h : Handlers) (rank : Value → ℕ) (fuel : ℕ) (id : Uuid)
    (body : ProcessDefinitionCreate) (tenant_id user_id : Uuid) (ds : Dict ProcessDefinition)
    (s : System) (x : ProcessExecution)
    → is_valid body ≡ true
    → s.definitions ≡ (create id body tenant_id user_id ds).1
    → lookup x.id s.executions ≡ some x
    → All (Falls w h rank) (map dump body.steps)
    → suc (rank (first_step (map dump body.steps))) < fuel
    → (s' : System) × (execute_workflow w h fuel x.id id s ≡ some (return tt, s'))
      × IsFinished s x s'
unfolding new_process
create-execute_workflow w h rank fuel id body tenant_id user_id ds s x valid table stored falls
      enough =
    let d = new_process id body tenant_id user_id in
    let ids = map-dump-HaveIds body.steps in
    let defined =
      ap (lookup id) (table ∙ ap (λ r. r.1) (create-valid id body tenant_id user_id ds valid))
      ∙ lookup-insert_self id d ds in
    let ((o, s'), ran) =
      execute_workflow-terminates w h rank fuel id s x d stored defined ids falls enough in
    let (quiet, finished) =
      execute_workflow-IsFinished w h fuel id s s' x d o stored defined ids ran in
    (s', ran ∙ ap (λ o'. some (o', s')) quiet, finished)
