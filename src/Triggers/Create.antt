-- ===== src/Triggers/Create.antt =====
-- services/platform-api/src/executions/service.py, `create_execution`, and the internal endpoint of
-- internal/router.py.
pub mod Created
use constructor.Prelude.{
  ℕ, suc, String, Bool, true, false, Option, none, some, List, [], ◌∷◌, ◌++◌, Dict, lookup, insert,
  ◌==◌, if◌then◌else◌,
}
use constructor.Json.{Fields}
use constructor.Outcome.{Outcome, return, raise, attribute_error}
use constructor.Triggers.Digest.{compare_digest}
use constructor.Workflows.Steps.{Uuid, ProcessDefinition}
use constructor.Executions.Events.{ProcessExecution, pending}
use constructor.Access.Users.{Response, ok, http_error, crash}

pub record ExecutionCreate : Type 0 where
  pub process_definition_id : Uuid
  pub context : Fields

-- A task that runs `_run_workflow`.
pub record Started : Type 0 where
  pub execution_id : Uuid
  pub process_id : Uuid
  pub tenant_id : Uuid

-- The tables, the setting `app.current_tenant` of the session, the tasks in the background, and a
-- counter for new ids and times.
pub record Store : Type 0 where
  pub definitions : Dict ProcessDefinition
  pub executions : Dict ProcessExecution
  pub current_tenant : String
  pub started : List Started
  pub effects : ℕ

-- `uuid.uuid4` and the clock of the database.
pub record Fresh : Type 0 where
  pub new_uuid : ℕ → Uuid
  pub clock : ℕ → ℕ

-- The definition with the id, if it is the tenant's.
unfoldable pub find_definition : Uuid → Uuid → Dict ProcessDefinition → Option ProcessDefinition
find_definition id tenant_id definitions = elim (lookup id definitions) [
  | none ↦ none
  | some d ↦ if d.tenant_id == tenant_id then some d else none
]

module _ (fr : Fresh) where
  unfoldable pub new_execution :
      ExecutionCreate → Uuid → Option Uuid → String → ℕ → ProcessExecution
  new_execution data_ tenant_id triggered_by trigger_type n = record {
    id = fr.new_uuid n;
    tenant_id = tenant_id;
    process_definition_id = data_.process_definition_id;
    status = pending;
    context = data_.context;
    current_step_id = none;
    triggered_by = triggered_by;
    trigger_type = trigger_type;
    started_at = none;
    completed_at = none;
    created_at = fr.clock n;
  }

  -- Store the row, and start its workflow.
  unfoldable pub add_execution : ProcessExecution → ProcessDefinition → Store → Store
  add_execution x d s = record s {
    executions = insert x.id x s.executions;
    started =
        s.started
        ++ record { execution_id = x.id; process_id = d.id; tenant_id = x.tenant_id } ∷ [];
    effects = suc s.effects;
  }

  unfoldable pub create_execution :
      ExecutionCreate → Uuid → Option Uuid → String → Store → Option ProcessExecution × Store
  unfolding find_definition new_execution add_execution
  create_execution data_ tenant_id triggered_by trigger_type s =
      let x = new_execution data_ tenant_id triggered_by trigger_type s.effects in
      elim (find_definition data_.process_definition_id tenant_id s.definitions) [
        | none ↦ (none, s)
        | some d ↦ (some x, add_execution x d s)
      ]

  -- `SELECT set_config('app.current_tenant', …, false)`
  abbrev pub set_tenant : Uuid → Store → Store
  set_tenant tenant_id s = record s { current_tenant = tenant_id }

  -- `execution.id`, which raises for `None`.
  unfoldable pub answer : Option ProcessExecution × Store → Response ProcessExecution × Store
  answer (none, s) = (crash attribute_error, s)
  answer (some x, s) = (ok x, s)

  -- `not x_internal_secret or not hmac.compare_digest(…)`
  unfoldable pub is_trusted : String → Option String → Outcome Bool
  unfolding compare_digest
  is_trusted internal_secret none = return false
  is_trusted internal_secret (some text) =
      if text == "" then return false else compare_digest text internal_secret

  -- The part of `internal_trigger` after the test on the secret.
  unfoldable pub trigger_workflow : ExecutionCreate → Store → Response ProcessExecution × Store
  unfolding answer create_execution
  trigger_workflow body s = elim (lookup body.process_definition_id s.definitions) [
    | none ↦ (http_error 404, s)
    | some d ↦ answer (create_execution body d.tenant_id none "schedule" (set_tenant d.tenant_id s))
  ]

  unfoldable pub after_test :
      ExecutionCreate → Outcome Bool → Store → Response ProcessExecution × Store
  unfolding trigger_workflow
  after_test body (raise e) s = (crash e, s)
  after_test body (return true) s = trigger_workflow body s
  after_test body (return false) s = (http_error 401, s)

  unfoldable pub internal_trigger :
      String → Option String → ExecutionCreate → Store → Response ProcessExecution × Store
  unfolding is_trusted after_test
  internal_trigger internal_secret header body s =
      after_test body (is_trusted internal_secret header) s
