-- ===== src/Executions/Executor/Finished.antt =====
-- What a finished workflow leaves behind.
use constructor.Prelude.{
  ℕ, suc, ◌≤◌, ◌≡◌, ◌≢◌, refl, ◌∙◌, Bool, true, false, some, none, List, [], ◌∷◌, Dict, lookup,
  lookup-insert_self, All, arith, if◌then◌else◌, is_some, ◌⊎◌, inl, inr, length,
}
use constructor.Json.{str, get, put, get-put}
use constructor.Outcome.{Outcome, return, raise, Exception}
use constructor.Workflows.Steps.{Uuid, Step}
use constructor.Executions.Events.{ProcessExecution, StatusEvent, running, completed, failed}
use constructor.Executions.Session.{
  World, Handlers, System, Run, ◌>>=◌, commit, publish_status_change, event_of,
}
use constructor.Executions.Session.Progress.{
  Progress, SameExecution, IsEventOf, IsTaskOf, Extends, lookup-insert_ne,
}
use constructor.Executions.Executor.{finish, error_text, fail, conclude}
use constructor.Executions.Executor.Progress.{same_fields, iterate-Progress}
use constructor.Executions.Executor.Loop.{LoopRule}

-- How an execution ends: completed, with no current step and a time of completion, or failed, with
-- an error in its context.
abbrev pub HasEnded : ProcessExecution → Type 0
HasEnded x =
    (x.status ≡ completed) × (x.current_step_id ≡ none) × (is_some x.completed_at ≡ true)
    ⊎ (x.status ≡ failed) × (is_some (get "_error" x.context) ≡ true)

-- The system after the workflow of execution `x` ran from system `s`: the row of the execution has
-- ended, the other rows and the definitions are as before, and the streams have grown by events and
-- tasks of this execution alone, first events that say "running" and then at most one, which has the
-- final status.
pub record IsFinished (s : System) (x : ProcessExecution) (s' : System) : Type 0 where
  pub row : ProcessExecution
  pub stored : lookup x.id s'.executions ≡ some row
  pub same : SameExecution x row
  pub ended : HasEnded row
  pub rows : (j : Uuid) → j ≢ x.id → lookup j s'.executions ≡ lookup j s.executions
  pub definitions : s'.definitions ≡ s.definitions
  pub while_running : List StatusEvent
  pub events : Extends (IsEventOf x running) s.statuses while_running
  pub last_event : Extends (IsEventOf x row.status) while_running s'.statuses
  pub one_last : length last_event.more ≤ 1
  pub tasks : Extends (IsTaskOf x) s.tasks s'.tasks

module _ (w : World) (s : System) (x : ProcessExecution) where
  -- The end of both ways out: a commit of the row, and its event.
  close :
      (r : Run) (row : ProcessExecution) (n : ℕ)
      → Progress s x r
      → SameExecution x row
      → HasEnded row
      → IsFinished s x
          (publish_status_change w
            (commit
              (record { execution = row; system = record r.system { effects = n } })).1).1.system
  unfolding publish_status_change commit
  close r row n p same ended = record {
    row = row;
    stored = rw (← same.id) (lookup-insert_self row.id row r.executions);
    same = same;
    ended = ended;
    rows = λ j other.
        lookup-insert_ne row.id j row r.executions (λ e. other (e ∙ same.id)) ∙ p.rows j other;
    definitions = p.definitions;
    while_running = r.statuses;
    events = p.events;
    last_event = record { more = last (w.accepts n); appended = refl; each = each (w.accepts n) };
    one_last = at_most_one (w.accepts n);
    tasks = p.tasks;
  }
    where
      last : Bool → List StatusEvent
      last b = if b then event_of w row n ∷ [] else []

      each : (b : Bool) → All (IsEventOf x row.status) (last b)
      each true = (record { execution_id = same.id; tenant_id = same.tenant_id; status = refl }, tt)
      each false = tt

      at_most_one : (b : Bool) → length (last b) ≤ 1
      at_most_one true = omega arith
      at_most_one false = omega arith

module _ (w : World) (h : Handlers) (s : System) (x : ProcessExecution) where
  finish-IsFinished : (r : Run) → Progress s x r → IsFinished s x (finish w h r).1.system
  unfolding finish ◌>>=◌ commit publish_status_change
  finish-IsFinished r p =
      close w s x r
        (record r.execution {
          status = completed;
          current_step_id = none;
          completed_at = some (w.clock r.effects);
        })
        (suc r.effects) p (same_fields p.same) (inl (refl, refl, refl))

  fail-IsFinished :
      (e : Exception) (r : Run) → Progress s x r → IsFinished s x (fail w h e r).1.system
  unfolding fail ◌>>=◌ commit publish_status_change
  fail-IsFinished e r p =
      close w s x r
        (record r.execution {
          status = failed;
          context = put "_error" (str (error_text w h e r.execution)) r.execution.context;
        })
        r.effects p (same_fields p.same) (inr (refl, simp get-put))

  pub conclude-IsFinished :
      (o : Outcome (Unit {0})) (r : Run) → Progress s x r → IsFinished s x (conclude w h o r).system
  unfolding conclude
  conclude-IsFinished (return done) r p = finish-IsFinished r p
  conclude-IsFinished (raise e) r p = fail-IsFinished e r p

  pub loop-Progress : (m : Dict Step) → LoopRule w h m (λ _. Progress s x) (λ _. Progress s x)
  loop-Progress m = record {
    leaves = λ cursor r p _. p;
    raises = λ cursor r e p _ _. (iterate-Progress w h s x m cursor).at r p;
    goes_on = λ cursor r next p _ _. (iterate-Progress w h s x m cursor).at r p;
  }
