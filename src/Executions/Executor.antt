-- ===== src/Executions/Executor.antt =====
-- services/platform-api/src/executions/executor.py, `execute_workflow`. The loop runs on fuel: `none`
-- is an execution that is still running when the fuel is spent.
pub mod Progress
pub mod Loop
pub mod Finished
pub mod Ends
pub mod Rounds
pub mod Termination
pub mod Cycle
pub mod Declared
use mathlib.Core.Option
use constructor.Prelude.{
  ℕ, zero, suc, String, true, false, Option, none, some, List, [], ◌∷◌, Dict, lookup, insert,
  get_or, if◌then◌else◌, ◌==◌,
}
use constructor.Json.{Value, Fields, null, str, arr, obj, put, is_true}
use constructor.Outcome.{
  Exception, timeout_error, type_error, key_error, value_error, Outcome, return, raise,
  or_key_error, concat, ◌>>=◌ as ◌⟫◌,
}
use constructor.Workflows.Steps.{Uuid, Step, ProcessDefinition}
use constructor.Executions.Events.{running, completed, failed, ProcessExecution}
use constructor.Executions.Session.{
  ◌>>=◌, ◌>>◌, World, Handlers, System, Run, Action, pure, lift, reads, modify, commit,
  publish_status_change,
}
use constructor.Executions.AgentStep.{dispatch_agent_step}

-- `{s["id"]: s for s in definition.steps}`, from the entries that are there already.
insert_step : Option String → Step → Dict Step → Outcome (Dict Step)
insert_step none s m = raise (key_error "id")
insert_step (some id) s m = return (insert id s m)

unfoldable pub steps_map : Dict Step → List Step → Outcome (Dict Step)
unfolding insert_step
steps_map m [] = return m
steps_map m (s ∷ ss) = insert_step s.id s m ⟫ λ m'. steps_map m' ss

-- `definition.steps[0]["id"] if definition.steps else None`
unfoldable pub first_step : List Step → Value
first_step [] = null
first_step (s ∷ ss) = elim s.id [ none ↦ null | some id ↦ str id ]

module _ (w : World) (h : Handlers) where
  -- `raise ValueError(f"Step '{current_step_id}' not in definition")`
  unfoldable pub not_in_definition : Value → Exception
  not_in_definition cursor = value_error (concat "Step '" (w.format cursor) "' not in definition")

  -- `steps_map.get(current_step_id)` and the test on it. A list or dict is no key of a dict.
  unfoldable pub find_step : Dict Step → Value → Outcome Step
  unfolding not_in_definition
  find_step m (str k) = elim (lookup k m) [
    | none ↦ raise (not_in_definition (str k))
    | some step ↦ return step
  ]
  find_step m (arr _) = raise type_error
  find_step m (obj _) = raise type_error
  find_step m v = raise (not_in_definition v)

  -- The id that `find_step` found: only a text finds a step.
  abbrev pub cursor_id : Value → Option String
  cursor_id (str k) = some k
  cursor_id _ = none

  -- `execution.context = {**execution.context, step["id"]: result}`
  set_output : String → Fields → Action (Unit {0})
  set_output id result = modify λ r. record r {
    execution = record r.execution { context = put id (obj result) r.execution.context };
  }

  set_current : Value → Action (Unit {0})
  set_current cursor =
      modify λ r. record r { execution = record r.execution { current_step_id = cursor_id cursor } }

  set_context : Fields → Action (Unit {0})
  set_context context =
      modify λ r. record r { execution = record r.execution { context = context } }

  -- The cases of the `match` that go on to `step.get("next")`.
  perform : String → Step → Action (Unit {0})
  unfolding set_context set_output
  perform type step =
      if type == "transform"
      then (do
        config ← lift (or_key_error "config" step.config)
        context ← reads (λ r. h.apply_transform config r.execution.context)
        set_context context)
      else if type == "agent"
      then (do
        result ← dispatch_agent_step w step
        id ← lift (or_key_error "id" step.id)
        set_output id result)
      else pure tt

  evaluate : Step → Action Value
  evaluate step = do
    config ← lift (or_key_error "config" step.config)
    reads (λ r. h.evaluate_condition config r.execution.context)

  advance : String → Step → Action Value
  unfolding perform
  advance type step = do perform type step; commit; pure step.next

  enter : Value → Action (Unit {0})
  unfolding set_current
  enter cursor = do set_current cursor; commit; publish_status_change w

  -- The body of the loop, at a cursor that is true: the next value of `current_step_id`.
  unfoldable pub iterate : Dict Step → Value → Action Value
  unfolding find_step enter evaluate advance
  iterate m cursor = do
    step ← lift (find_step m cursor)
    enter cursor
    type ← lift (or_key_error "type" step.type)
    if type == "condition" then evaluate step else advance type step

  unfoldable pub loop : ℕ → Dict Step → Value → Run → Option (Outcome (Unit {0}) × Run)
  unfolding iterate
  loop zero m cursor r = none
  loop (suc fuel) m cursor r = elim (is_true cursor) [
    | false ↦ some (return tt, r)
    | true ↦
        let (next, r') = iterate m cursor r in
        elim next [ return cursor' ↦ loop fuel m cursor' r' | raise e ↦ some (raise e, r') ]
  ]

  -- `datetime.now(timezone.utc)`
  now : Action ℕ
  now r = (
    return (w.clock r.effects),
    record r { system = record r.system { effects = suc r.effects } },
  )

  set_execution : (ProcessExecution → ProcessExecution) → Action (Unit {0})
  set_execution f = modify λ r. record r { execution = f r.execution }

  unfoldable pub start : Action (Unit {0})
  unfolding now set_execution
  start = do
    set_execution λ x. record x { status = running }
    time ← now
    set_execution λ x. record x { started_at = some time }
    commit
    publish_status_change w

  unfoldable pub finish : Action (Unit {0})
  unfolding now set_execution
  finish = do
    set_execution λ x. record x { status = completed; current_step_id = none }
    time ← now
    set_execution λ x. record x { completed_at = some time }
    commit
    publish_status_change w

  -- The text of `_error`.
  error_text : Exception → ProcessExecution → String
  error_text timeout_error x = concat "Timeout on step '" (get_or "None" x.current_step_id) "'"
  error_text e x = w.text_of e

  -- Both handlers of the `try`.
  unfoldable pub fail : Exception → Action (Unit {0})
  unfolding error_text set_execution
  fail e = do
    set_execution
        λ x. record x { status = failed; context = put "_error" (str (error_text e x)) x.context }
    commit
    publish_status_change w

  -- What follows the loop, by how it ended.
  unfoldable pub conclude : Outcome (Unit {0}) → Run → Run
  unfolding finish fail
  conclude (return done) r = (finish r).1
  conclude (raise e) r = (fail e r).1

  -- What follows a loop that ended within the fuel.
  after_loop : Option (Outcome (Unit {0}) × Run) → Option (Outcome (Unit {0}) × Run)
  unfolding conclude
  after_loop none = none
  after_loop (some ended) = some (return tt, conclude ended.0 ended.1)

  -- The `try` statement. An exception of `steps_map` is raised before it.
  run_steps : ℕ → Outcome (Dict Step) → Value → Run → Option (Outcome (Unit {0}) × Run)
  unfolding start loop after_loop
  run_steps fuel (raise e) cursor r = some (raise e, r)
  run_steps fuel (return m) cursor r = after_loop (loop fuel m cursor (start r).1)

  -- The execution of a definition, from the building of `steps_map` on.
  unfoldable pub run_definition : ℕ → List Step → Run → Option (Outcome (Unit {0}) × Run)
  unfolding steps_map first_step run_steps
  run_definition fuel steps r = run_steps fuel (steps_map [] steps) (first_step steps) r

  -- `if not execution or not definition`, and the rest.
  execute_found :
      ℕ
      → Option ProcessExecution
      → Option ProcessDefinition
      → System
      → Option (Outcome (Unit {0}) × System)
  unfolding run_definition
  execute_found fuel (some x) (some d) s =
      Option.map (λ ended. (ended.0, ended.1.system))
        (run_definition fuel d.steps (record { execution = x; system = s }))
  execute_found fuel _ _ s = some (return tt, s)

  unfoldable pub execute_workflow : ℕ → Uuid → Uuid → System → Option (Outcome (Unit {0}) × System)
  unfolding execute_found
  execute_workflow fuel execution_id process_id s =
      execute_found fuel (lookup execution_id s.executions) (lookup process_id s.definitions) s
