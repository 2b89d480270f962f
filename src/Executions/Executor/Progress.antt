-- ===== src/Executions/Executor/Progress.antt =====
-- The loop keeps `Progress`, and what a finished workflow leaves behind.
use constructor.Prelude.{ℕ, String, ◌≡◌, refl, ◌∙◌, Option, Dict}
use constructor.Json.{Value, Fields, obj, put}
use constructor.Workflows.Steps.{Step}
use constructor.Executions.Events.{ProcessExecution, Status}
use constructor.Executions.Session.{
  World, Handlers, System, Run, ◌>>=◌, modify, commit, publish_status_change,
}
use constructor.Executions.Session.Keeps.{Keeps, Keeps-modify, keeps_rules}
use constructor.Executions.Session.Progress.{
  Progress, SameExecution, commit-Progress, publish-Progress, Extends-refl,
}
use constructor.Executions.AgentStep.Progress.{dispatch-Progress}
use constructor.Executions.Executor.{
  cursor_id, set_output, set_current, set_context, perform, evaluate, advance, enter, iterate,
  start,
}

-- The fields that the executor writes do not matter.
pub same_fields :
    {x y : ProcessExecution} {context : Fields} {current : Option String} {now : Status}
    {completion : Option ℕ}
    → SameExecution x y
    → SameExecution x (record y {
      context = context;
      current_step_id = current;
      status = now;
      completed_at = completion;
    })
same_fields p = record {
  id = p.id;
  tenant_id = p.tenant_id;
  process_definition_id = p.process_definition_id;
  triggered_by = p.triggered_by;
  trigger_type = p.trigger_type;
  created_at = p.created_at;
}

module _ (w : World) (h : Handlers) (s : System) (x : ProcessExecution) where
  -- A change of the execution that keeps its identity and its status.
  modify-Progress :
      (f : Run → ProcessExecution)
      → ((r : Run) → SameExecution x r.execution → SameExecution x (f r))
      → ((r : Run) → (f r).status ≡ r.execution.status)
      → Keeps (Progress s x) (modify (λ r. record r { execution = f r }))
  modify-Progress f same status = Keeps-modify _ λ r p. record {
    same = same r p.same;
    status = status r ∙ p.status;
    rows = p.rows;
    definitions = p.definitions;
    events = p.events;
    tasks = p.tasks;
  }

  set_context-Progress : (c : Fields) → Keeps (Progress s x) (set_context w h c)
  unfolding set_context
  set_context-Progress c =
      modify-Progress (λ r. record r.execution { context = c }) (λ r p. same_fields p) (λ r. refl)

  set_output-Progress : (id : String) (c : Fields) → Keeps (Progress s x) (set_output w h id c)
  unfolding set_output
  set_output-Progress id c =
      modify-Progress (λ r. record r.execution { context = put id (obj c) r.execution.context })
        (λ r p. same_fields p) (λ r. refl)

  set_current-Progress : (cursor : Value) → Keeps (Progress s x) (set_current w h cursor)
  unfolding set_current
  set_current-Progress cursor =
      modify-Progress (λ r. record r.execution { current_step_id = cursor_id w h cursor })
        (λ r p. same_fields p) (λ r. refl)

  ruleset progress_rules = (
    keeps_rules, commit-Progress, publish-Progress, dispatch-Progress, set_context-Progress,
    set_output-Progress, set_current-Progress,
  )

  perform-Progress : (type : String) (step : Step) → Keeps (Progress s x) (perform w h type step)
  unfolding perform
  perform-Progress type step = search progress_rules depth 9

  evaluate-Progress : (step : Step) → Keeps (Progress s x) (evaluate w h step)
  unfolding evaluate
  evaluate-Progress step = search progress_rules

  enter-Progress : (cursor : Value) → Keeps (Progress s x) (enter w h cursor)
  unfolding enter
  enter-Progress cursor = search progress_rules

  advance-Progress : (type : String) (step : Step) → Keeps (Progress s x) (advance w h type step)
  unfolding advance
  advance-Progress type step = search (progress_rules, perform-Progress)

  pub iterate-Progress :
      (m : Dict Step) (cursor : Value) → Keeps (Progress s x) (iterate w h m cursor)
  unfolding iterate
  iterate-Progress m cursor =
      search (progress_rules, evaluate-Progress, enter-Progress, advance-Progress) depth 8

  -- `start` leads from any state of the row to progress.
  pub start-Progress : Progress s x (start w h (record { execution = x; system = s })).1
  unfolding start ◌>>=◌ publish_status_change commit
  start-Progress = (publish-Progress s x w).at _ (
      (commit-Progress s x).at _ (record {
        same = record {
          id = refl;
          tenant_id = refl;
          process_definition_id = refl;
          triggered_by = refl;
          trigger_type = refl;
          created_at = refl;
        };
        status = refl;
        rows = λ j other. refl;
        definitions = refl;
        events = Extends-refl _ s.statuses;
        tasks = Extends-refl _ s.tasks;
      }))
