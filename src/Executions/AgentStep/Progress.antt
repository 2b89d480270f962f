-- ===== src/Executions/AgentStep/Progress.antt =====
-- An agent step writes only tasks of its execution.
use constructor.Prelude.{ℕ, ◌≡◌, ◌∙◌, [], ◌∷◌, inl, inr, Bool-cases, arith}
use constructor.Outcome.{return}
use constructor.Workflows.Steps.{Step}
use constructor.Executions.Events.{AgentTask, ProcessExecution}
use constructor.Executions.Session.{World, System, Run}
use constructor.Executions.Session.Keeps.{Keeps, Keeps-bind, Keeps-bind-reads}
use constructor.Executions.Session.Progress.{Progress, IsTaskOf, Extends-append}
use constructor.Executions.AgentStep.{
  agent_task, publish_task, register, wait_for_result, dispatch_agent_step,
}

-- The task names the execution that it was made for.
agent_task-own :
    (w : World) (x : ProcessExecution) (step : Step) (n : ℕ) (t : AgentTask)
    → agent_task w x step n ≡ return t
    → IsTaskOf x t
unfolding agent_task
agent_task-own w x step n t h = ground arith

module _ (w : World) (s : System) (x : ProcessExecution) where
  register-Progress : Keeps (Progress s x) register
  unfolding register
  register-Progress = record {
    at = λ r p. record {
      same = p.same;
      status = p.status;
      rows = p.rows;
      definitions = p.definitions;
      events = p.events;
      tasks = p.tasks;
    };
  }

  wait-Progress : (task : AgentTask) → Keeps (Progress s x) (wait_for_result w task)
  unfolding wait_for_result
  wait-Progress task = record {
    at = λ r p. record {
      same = p.same;
      status = p.status;
      rows = p.rows;
      definitions = p.definitions;
      events = p.events;
      tasks = p.tasks;
    };
  }

  publish_task-Progress :
      (task : AgentTask) → IsTaskOf x task → Keeps (Progress s x) (publish_task w task)
  unfolding publish_task
  publish_task-Progress task own = record {
    at = λ r p. elim (Bool-cases (w.accepts r.effects)) [
      | inl yes' ↦ rw yes' (record {
        same = p.same;
        status = p.status;
        rows = p.rows;
        definitions = p.definitions;
        events = p.events;
        tasks = Extends-append (IsTaskOf x) s.tasks r.tasks (task ∷ []) p.tasks (own, tt);
      })
      | inr no' ↦ rw no' (record {
        same = p.same;
        status = p.status;
        rows = p.rows;
        definitions = p.definitions;
        events = p.events;
        tasks = p.tasks;
      })
    ];
  }

  own_task :
      (step : Step) (r : Run) (t : AgentTask)
      → Progress s x r
      → agent_task w r.execution step r.effects ≡ return t
      → IsTaskOf x t
  own_task step r t p made =
      let own = agent_task-own w r.execution step r.effects t made in
      record {
        execution_id = own.execution_id ∙ p.same.id;
        tenant_id = own.tenant_id ∙ p.same.tenant_id;
      }

  pub dispatch-Progress : (step : Step) → Keeps (Progress s x) (dispatch_agent_step w step)
  unfolding dispatch_agent_step
  dispatch-Progress step =
      Keeps-bind-reads (λ r. agent_task w r.execution step r.effects) _ (own_task step)
        λ task own. Keeps-bind register _ register-Progress (λ _.
          Keeps-bind (publish_task w task) _ (publish_task-Progress task own)
            (λ _. wait-Progress task))
