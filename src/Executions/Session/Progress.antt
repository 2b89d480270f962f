-- ===== src/Executions/Session/Progress.antt =====
-- What holds of a run between two statements of the loop, compared with the start of the workflow.
use mathlib.Core.List.{append_assoc, append-nil}
use constructor.Prelude.{
  String, ◌≡◌, sym, ◌∙◌, ◌≢◌, Bool, true, false, List, [], ◌∷◌, ◌++◌, lookup, insert, lookup-insert,
  All, All-append, eq_iff, arith, if◌then◌else◌,
}
use constructor.Workflows.Steps.{Uuid}
use constructor.Executions.Events.{AgentTask, Status, running, ProcessExecution, StatusEvent}
use constructor.Executions.Session.{World, System, Run, commit, publish_status_change, event_of}
use constructor.Executions.Session.Keeps.{Keeps}

-- The two are one execution: what never changes after its creation is the same.
pub record SameExecution (x y : ProcessExecution) : Type 0 where
  pub id : y.id ≡ x.id
  pub tenant_id : y.tenant_id ≡ x.tenant_id
  pub process_definition_id : y.process_definition_id ≡ x.process_definition_id
  pub triggered_by : y.triggered_by ≡ x.triggered_by
  pub trigger_type : y.trigger_type ≡ x.trigger_type
  pub created_at : y.created_at ≡ x.created_at

-- The event is about the execution, under its tenant, and has the status.
pub record IsEventOf (x : ProcessExecution) (reported : Status) (e : StatusEvent) : Type 0 where
  pub execution_id : e.execution_id ≡ x.id
  pub tenant_id : e.tenant_id ≡ x.tenant_id
  pub status : e.status ≡ reported

pub record IsTaskOf (x : ProcessExecution) (t : AgentTask) : Type 0 where
  pub execution_id : t.execution_id ≡ x.id
  pub tenant_id : t.tenant_id ≡ x.tenant_id

-- `ys` is `xs` with more entries behind, all of which have `P`.
pub record Extends {A : Type 0} (P : A → Type 0) (xs ys : List A) : Type 0 where
  pub more : List A
  pub appended : ys ≡ xs ++ more
  pub each : All P more

module _ {A : Type 0} (P : A → Type 0) where
  pub Extends-refl : (xs : List A) → Extends P xs xs
  Extends-refl xs = record { more = []; appended = sym (append-nil xs); each = tt }

  pub Extends-append : (xs ys zs : List A) → Extends P xs ys → All P zs → Extends P xs (ys ++ zs)
  Extends-append xs ys zs e new = record {
    more = e.more ++ zs;
    appended = rw e.appended (append_assoc xs e.more zs);
    each = All-append P e.more zs e.each new;
  }

-- Since the workflow began in system `s` with execution `x`: the execution is still the same one and
-- is running, no other row has changed, and only its own events and tasks were written.
pub record Progress (s : System) (x : ProcessExecution) (r : Run) : Type 0 where
  pub same : SameExecution x r.execution
  pub status : r.execution.status ≡ running
  pub rows : (j : Uuid) → j ≢ x.id → lookup j r.executions ≡ lookup j s.executions
  pub definitions : r.definitions ≡ s.definitions
  pub events : Extends (IsEventOf x running) s.statuses r.statuses
  pub tasks : Extends (IsTaskOf x) s.tasks r.tasks

pub lookup-insert_ne :
    {V : Type 0} (k j : String) (v : V) (d : List (String × V))
    → j ≢ k
    → lookup j (insert k v d) ≡ lookup j d
lookup-insert_ne k j v d h = simp lookup-insert (ground (arith, eq_iff k j))

module _ (s : System) (x : ProcessExecution) where
  pub commit-Progress : Keeps (Progress s x) commit
  unfolding commit
  commit-Progress = record {
    at = λ r p. record {
      same = p.same;
      status = p.status;
      rows = λ j other.
          lookup-insert_ne r.execution.id j r.execution r.executions (λ e. other (e ∙ p.same.id))
          ∙ p.rows j other;
      definitions = p.definitions;
      events = p.events;
      tasks = p.tasks;
    };
  }

  pub publish-Progress : (w : World) → Keeps (Progress s x) (publish_status_change w)
  unfolding publish_status_change
  publish-Progress w = record {
    at = λ r p. record {
      same = p.same;
      status = p.status;
      rows = p.rows;
      definitions = p.definitions;
      events =
          Extends-append (IsEventOf x running) s.statuses r.statuses _ p.events
            (sent r p (w.accepts r.effects));
      tasks = p.tasks;
    };
  }
    where
      sent :
          (r : Run) (p : Progress s x r) (b : Bool)
          → All (IsEventOf x running) (if b then event_of w r.execution r.effects ∷ [] else [])
      sent r p true =
          (record { execution_id = p.same.id; tenant_id = p.same.tenant_id; status = p.status }, tt)
      sent r p false = tt
