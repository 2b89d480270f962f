-- ===== src/Executions/AgentStep.antt =====
-- services/platform-api/src/executions/executor.py, `dispatch_agent_step`: the task for the agents,
-- and the wait for its result.
pub mod Progress
use constructor.Prelude.{ℕ, suc, String, Option, none, some, [], ◌∷◌, ◌++◌, get_or, if◌then◌else◌}
use constructor.Prelude.Int.{pos}
use constructor.Json.{Value, Fields, null, str, num, arr, nil, get}
use constructor.Outcome.{raised, Outcome, return, raise, or_key_error, map_return, ◌>>=◌ as ◌⟫◌}
use constructor.Workflows.Steps.{Step}
use constructor.Executions.Events.{AgentTask, ProcessExecution}
use constructor.Executions.Dispatcher.{register_pending}
use constructor.Executions.Session.{◌>>=◌, ◌>>◌, World, Action, reads}

-- `register_pending(execution.id)`
register : Action (Unit {0})
register r = (
  return tt,
  record r {
    system = record r.system { dispatcher = (register_pending r.execution.id r.dispatcher).1 };
  },
)

module _ (w : World) where
  -- `config.get(k, default)`, converted by pydantic
  text_option : Fields → String → String → Outcome String
  text_option config k default = w.to_text (get_or (str default) (get k config))

  -- `model_override`: a text or `None`
  override_option : Option Value → Outcome (Option String)
  override_option none = return none
  override_option (some null) = return none
  override_option (some v) = map_return some (w.to_text v)

  -- `AgentTask(…)`
  unfoldable pub agent_task : ProcessExecution → Step → ℕ → Outcome AgentTask
  unfolding text_option override_option
  agent_task x step n = or_key_error "id" step.id ⟫ λ id.
      or_key_error "config" step.config ⟫ λ config.
      text_option config "task_type" "default" ⟫ λ task_type.
      text_option config "prompt" "" ⟫ λ prompt.
      w.to_texts (get_or (arr nil) (get "tools_allowed" config)) ⟫ λ tools.
      override_option (get "model_override" config) ⟫ λ override.
      w.to_int (get_or (num (pos 20)) (get "max_iterations" config)) ⟫ λ iterations.
      return (record {
        task_id = w.new_uuid n;
        execution_id = x.id;
        tenant_id = x.tenant_id;
        step_id = id;
        task_type = task_type;
        prompt = prompt;
        context = x.context;
        tools_allowed = tools;
        model_override = override;
        timeout_seconds = get_or (pos 300) step.timeout_seconds;
        max_iterations = iterations;
      })

  -- `redis.xadd(TASK_STREAM, …)`
  publish_task : AgentTask → Action (Unit {0})
  publish_task task r =
      if w.accepts r.effects
      then (
        return tt,
        record r {
          system = record r.system { tasks = r.tasks ++ task ∷ []; effects = suc r.effects };
        },
      )
      else (
        raise (raised "redis"),
        record r { system = record r.system { effects = suc r.effects } },
      )

  wait_for_result : AgentTask → Action Fields
  wait_for_result task r =
      let (result, dispatcher) = w.await_future r.effects task r.dispatcher in
      (
        result,
        record r { system = record r.system { dispatcher = dispatcher; effects = suc r.effects } },
      )

  unfoldable pub dispatch_agent_step : Step → Action Fields
  unfolding agent_task publish_task register wait_for_result
  dispatch_agent_step step = do
    task ← reads (λ r. agent_task r.execution step r.effects)
    register
    publish_task task
    wait_for_result task
