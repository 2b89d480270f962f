-- ===== src/Executions/Tests.antt =====
-- A small workflow, run; and the theorems about executions at it.
pub mod Examples
use constructor.Prelude.{
  ltb, ◌+◌, ℕ, String, ◌≡◌, refl, true, false, Option, some, none, List, [], ◌∷◌, lookup, length,
  insert, if◌then◌else◌,
}
use constructor.Prelude.Int.{pos}
use constructor.Json.{Value, Fields, null, num, str, obj, end, field, get, put, is_true}
use constructor.Json.Compare.{ordered}
use constructor.Outcome.{Outcome, return, Exception, value_error}
use constructor.Workflows.Steps.{Step, ProcessDefinition}
use constructor.Executions.Condition.{evaluate_condition}
use constructor.Executions.Events.{ProcessExecution, pending, completed}
use constructor.Executions.Dispatcher.{register_pending}
use constructor.Executions.Session.{World, Handlers, System, commit, publish_status_change, ◌>>=◌}
use constructor.Executions.AgentStep.{dispatch_agent_step}
use constructor.Executions.Executor.{execute_workflow}

abbrev pub text_of_value : Value → String
text_of_value (str s) = s
text_of_value _ = "?"

abbrev pub text_of_error : Exception → String
text_of_error (value_error s) = s
text_of_error _ = "error"

-- `search` finds a key of the context.
abbrev pub key_search : Value → Fields → Outcome Value
key_search (str k) context = elim (get k context) [ none ↦ return null | some v ↦ return v ]
key_search _ context = return null

-- Redis refuses every write from `refuses` on; an agent answers at once.
abbrev pub world : ℕ → World
world refuses = record {
  clock = λ n. 100 + n;
  accepts = λ n. if ltb n refuses then true else false;
  new_uuid = λ n. "task";
  text_of = text_of_error;
  format = text_of_value;
  to_text = λ v. return (text_of_value v);
  to_texts = λ v. return [];
  to_int = λ v. return (pos 20);
  await_future = λ n task d. (return (field "text" (str task.step_id) end), d);
}

abbrev pub handlers : Handlers
handlers = record {
  evaluate_condition = λ config context. evaluate_condition key_search text_of_value config context;
  apply_transform = λ config context. return (put "copied" (str "yes") context);
}

abbrev pub plain_step : String → String → Fields → Value → Step
plain_step id type config next = record {
  id = some id;
  type = some type;
  config = some config;
  next = next;
  timeout_seconds = some (pos 60);
}

-- "ask" an agent, "check" a number of the context, and "tell" if it is more than 5.
abbrev pub check_config : Fields
check_config = field "expression" (str "amount") (
    field "operator" (str ">") (
      field "value" (num (pos 5))
        (field "branches" (obj (field "true" (str "tell") (field "false" (str "") end))) end)))

abbrev pub steps : List Step
steps =
    plain_step "ask" "agent" end (str "check")
    ∷ plain_step "check" "condition" check_config null
    ∷ plain_step "tell" "notify" end null
    ∷ []

abbrev pub definition : ProcessDefinition
definition = record {
  id = "p1";
  tenant_id = "t1";
  name = "demo";
  trigger_config = end;
  steps = steps;
  on_error = "stop";
  version = 1;
  created_by = "u1";
}

abbrev pub execution : ProcessExecution
execution = record {
  id = "e1";
  tenant_id = "t1";
  process_definition_id = "p1";
  status = pending;
  context = field "amount" (num (pos 7)) end;
  current_step_id = none;
  triggered_by = none;
  trigger_type = "manual";
  started_at = none;
  completed_at = none;
  created_at = 1;
}

abbrev pub before : System
before = record {
  executions = ("e1", execution) ∷ [];
  definitions = ("p1", definition) ∷ [];
  statuses = [];
  tasks = [];
  dispatcher = record { pending = []; futures = [] };
  effects = 0;
}

-- The row, and the statuses of the events, after a run.
abbrev pub view : Option (Outcome (Unit {0}) × System) → Option (Option ProcessExecution × ℕ × ℕ)
view none = none
view (some (o, s)) = some (lookup "e1" s.executions, length s.statuses, length s.tasks)

runs :
    view (execute_workflow (world 100) handlers 5 "e1" "p1" before)
    ≡ some (
      some (record execution {
        status = completed;
        started_at = some 100;
        completed_at = some 107;
        context = put "ask" (obj (field "text" (str "ask") end)) execution.context;
      }),
      5,
      1,
    )
unfolding execute_workflow evaluate_condition ordered lookup insert get put is_true commit
    publish_status_change ◌>>=◌ dispatch_agent_step register_pending
runs = refl
