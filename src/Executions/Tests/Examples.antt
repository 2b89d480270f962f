-- ===== src/Executions/Tests/Examples.antt =====
-- The theorems about executions at the workflow of the tests.
use constructor.Prelude.{
  ℕ, ◌<◌, String, ◌≡◌, refl, sym, ap, subst, true, Option, some, none, List, [], ◌∷◌, Dict, lookup,
  All, elem, arith, insert, if◌then◌else◌, ◌==◌, get_elem?, get_or, eq_iff,
}
use constructor.Json.{Value, str, end, field, get, put, is_true}
use constructor.Json.Compare.{ordered}
use constructor.Outcome.{Outcome, return}
use constructor.Workflows.Steps.{Step, ids}
use constructor.Workflows.Validator.{is_valid_type, validate_steps}
use constructor.Executions.Condition.{evaluate_condition}
use constructor.Executions.Events.{AgentResult, ResultStatus}
use constructor.Executions.Dispatcher.{Dispatcher, unsettled, result, register_pending}
use constructor.Executions.Dispatcher.Settled.{
  register, resolve, reject, time_out, calls, calls-keeps_done,
}
use constructor.Executions.ResultConsumer.{Entry, Consumer}
use constructor.Executions.Session.{Handlers, System, Run, commit, publish_status_change, ◌>>=◌}
use constructor.Executions.AgentStep.{dispatch_agent_step}
use constructor.Executions.Executor.{
  execute_workflow, run_definition, iterate, find_step, steps_map, first_step,
}
use constructor.Executions.Executor.Finished.{IsFinished}
use constructor.Executions.Executor.Ends.{HaveIds, execute_workflow-IsFinished}
use constructor.Executions.Executor.Rounds.{by_next, by_condition}
use constructor.Executions.Executor.Termination.{execute_workflow-terminates, Falls}
use constructor.Executions.Executor.Cycle.{self_loop, validate_steps-run_definition_cycle}
use constructor.Executions.Executor.Declared.{
  BranchesDeclared, Reach, at_start, after_round, find_step-returns_when_valid,
}
use constructor.Executions.Tests.{world, handlers, steps, definition, execution, before}

abbrev system_of : Option (Outcome (Unit {0}) × System) → System
system_of none = before
system_of (some (o, s)) = s

-- The system after the run; Redis fails from the third write on.
abbrev after : System
after = system_of (execute_workflow (world 3) handlers 5 "e1" "p1" before)

ran : execute_workflow (world 3) handlers 5 "e1" "p1" before ≡ some (return tt, after)
unfolding execute_workflow evaluate_condition ordered lookup insert get put is_true commit
    publish_status_change ◌>>=◌ dispatch_agent_step register_pending
ran = refl

found : lookup "e1" before.executions ≡ some execution
unfolding lookup
found = refl

known : lookup "p1" before.definitions ≡ some definition
unfolding lookup
known = refl

have_ids : HaveIds steps
have_ids = ((λ e. cc), ((λ e. cc), ((λ e. cc), tt)))

execute_workflow-IsFinished_example :
    (return tt ≡ return (tt {0})) × IsFinished before execution after
execute_workflow-IsFinished_example =
    execute_workflow-IsFinished (world 3) handlers 5 "p1" before after execution definition
      (return tt) found known have_ids ran

-- Conditions that always choose "tell".
abbrev chooses_tell : Handlers
chooses_tell = record handlers { evaluate_condition = λ config context. return (str "tell") }

abbrev rank : Value → ℕ
rank (str k) = if k == "ask" then 3 else if k == "check" then 2 else if k == "tell" then 1 else 0
rank _ = 0

chosen : {next : Value} → return (str "tell") ≡ return next → str "tell" ≡ next
chosen e = cc

abbrev get_step : ℕ → Step
get_step n = from_some (get_elem? steps n)
  where
    from_some : Option Step → Step
    from_some none = self_loop "" ""
    from_some (some s) = s

Falls-of :
    (s : Step) (k : String)
    → s.id ≡ some k
    → (is_true s.next ≡ true → rank s.next < rank (str k))
    → (s.type ≡ some "condition" → 1 < rank (str k))
    → Falls (world 3) chooses_tell rank s
Falls-of s k named along over next (by_next e) t = rw named (rw e (along (rw e at t)))
Falls-of s k named along over next (by_condition config context typed configured gives) t =
    rw named (subst (λ v. rank v < rank (str k)) (chosen gives) (over typed))

falls : All (Falls (world 3) chooses_tell rank) steps
unfolding is_true
falls = (
  Falls-of _ "ask" refl (λ t. omega arith) (λ e. omega arith),
  (
    Falls-of _ "check" refl (λ t. cc) (λ e. omega arith),
    (Falls-of _ "tell" refl (λ t. cc) (λ e. absurd (not_condition e)), tt),
  ),
)
  where
    not_condition : ¬ (◌≡◌ {A = Option String} (some "notify") (some "condition"))
    not_condition e = cc ((eq_iff "notify" "condition").1 (ap (get_or "") e))

execute_workflow-terminates_example :
    (ended : Outcome (Unit {0}) × System) × (execute_workflow
        (world 3)
        chooses_tell
        5
        "e1"
        "p1"
        before
      ≡ some ended)
unfolding first_step
execute_workflow-terminates_example =
    execute_workflow-terminates (world 3) chooses_tell rank 5 "p1" before execution definition found
      known have_ids falls (omega arith)

validate_steps-run_definition_cycle_example :
    let poll = self_loop "poll" "wait" ∷ [] in
    (validate_steps poll ≡ [])
    × ((fuel : ℕ) (r : Run) → run_definition (world 3) handlers fuel poll r ≡ none)
validate_steps-run_definition_cycle_example =
    validate_steps-run_definition_cycle (world 3) handlers "poll" "wait" refl
      (unfold is_valid_type in refl) (refl, refl, refl)

abbrev steps_by_id : Dict Step
steps_by_id = ("ask", get_step 0) ∷ ("check", get_step 1) ∷ ("tell", get_step 2) ∷ []

built : steps_map [] steps ≡ return steps_by_id
unfolding steps_map insert
built = refl

abbrev began : Run
began = record { execution = execution; system = before }

-- One round on, at "check".
reached :
    Reach
      (world 3)
      chooses_tell
      steps_by_id
      (first_step steps)
      began
      (str "check")
      (iterate (world 3) chooses_tell steps_by_id (first_step steps) began).1
unfolding iterate first_step ◌>>=◌ commit publish_status_change dispatch_agent_step register_pending
    insert lookup is_true get
reached = after_round (str "check") at_start refl refl

branches_declared : All (BranchesDeclared (world 3) chooses_tell (ids steps)) steps
branches_declared = (tell (get_step 0), (tell (get_step 1), (tell (get_step 2), tt)))
  where
    tell : (s : Step) → BranchesDeclared (world 3) chooses_tell (ids steps) s
    tell s config context next typed configured gives t =
        ("tell", sym (chosen gives), unfold elem in refl)

find_step-returns_when_valid_example :
    (step : Step) × (find_step (world 3) chooses_tell steps_by_id (str "check") ≡ return step)
find_step-returns_when_valid_example =
    find_step-returns_when_valid (world 3) chooses_tell steps steps_by_id began _ (str "check")
      (unfold validate_steps elem in refl) (tt, (tt, (tt, tt))) branches_declared built reached
      (unfold is_true in refl)

-- A dispatcher whose future 0 is done and whose future 1 waits for execution "e2".
abbrev pub waiting : Dispatcher
waiting = record {
  pending = ("e2", 1) ∷ [];
  futures = result (field "text" (str "done") end) ∷ unsettled ∷ [];
}

calls-keeps_done_example :
    get_elem?
      (calls
        (reject "e1" "late" ∷ time_out 0 ∷ register "e1" ∷ resolve "e2" end ∷ [])
        waiting).futures
      0
    ≡ some (result (field "text" (str "done") end))
calls-keeps_done_example =
    calls-keeps_done (reject "e1" "late" ∷ time_out 0 ∷ register "e1" ∷ resolve "e2" end ∷ [])
      waiting 0 {w = result (field "text" (str "done") end)} refl refl

-- The text "ok" stands for a completed result of execution "e2".
abbrev pub parse : String → Option AgentResult
parse text = if text == "ok" then some agent_result else none
  where
    agent_result : AgentResult
    agent_result = record {
      task_id = "task";
      execution_id = "e2";
      tenant_id = "t1";
      step_id = "ask";
      status = ResultStatus.completed;
      output = end;
      tokens_used = 10;
      model_used = "stub";
      iterations = 1;
      error = none;
    }

abbrev pub entries : List Entry
entries =
    record { entry_id = "1-0"; body = some "ok" }
    ∷ record { entry_id = "2-0"; body = some "not json" }
    ∷ record { entry_id = "3-0"; body = none }
    ∷ []

abbrev pub consumer : Consumer
consumer = record { dispatcher = waiting; acked = "0-0" ∷ [] }
