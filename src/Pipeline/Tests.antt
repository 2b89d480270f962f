-- ===== src/Pipeline/Tests.antt =====
-- One agent step, its run and its future, where the log refuses its rows.
use constructor.Prelude.{
  ◌≡◌, refl, String, true, false, Option, none, some, List, [], ◌∷◌, lookup, get_elem?, ◌==◌,
  if◌then◌else◌,
}
use constructor.Prelude.Int.{pos}
use constructor.Json.{null, end, get}
use constructor.Outcome.{return}
use constructor.Workflows.Steps.{Step}
use constructor.Executions.Events.{AgentTask, AgentResult}
use constructor.Executions.Dispatcher.{Dispatcher, register_pending}
use constructor.Executions.Dispatcher.Settled.{resolve, time_out, calls}
use constructor.Executions.ResultConsumer.{Entry, Consumer, process_entries, read_result}
use constructor.Executions.AgentStep.{agent_task}
use constructor.Executions.Tests.{world, plain_step, execution}
use constructor.Agents.Runner.{run}
use constructor.Agents.ModelRouter.{get_model, resolve_model_id, instantiate}
use constructor.Agents.Graph.{run_graph}
use constructor.Agents.Consumer.{Services, process, read_task}
use constructor.Agents.Tests.{runtime, registry, worker, ask}
use constructor.Pipeline.Settles.{settled_by, answer_at, agent_step-settles}

abbrev step : Step
step = plain_step "ask" "agent" end null

abbrev task : AgentTask
task = record {
  task_id = "task";
  execution_id = "e1";
  tenant_id = "t1";
  step_id = "ask";
  task_type = "default";
  prompt = "";
  context = execution.context;
  tools_allowed = [];
  model_override = none;
  timeout_seconds = pos 60;
  max_iterations = pos 20;
}

made : agent_task (world 100) execution step 0 ≡ return task
unfolding agent_task get
made = refl

abbrev services : Services
services = record {
  stream_accepts = λ n. true;
  log_accepts = λ n. false;
  parse = λ text. if text == "ask" then some task else none;
}

-- The results that the agent service publishes.
abbrev results : List AgentResult
results = (process runtime registry services ask worker).published

abbrev read : String → Option AgentResult
read text = if text == "first" then get_elem? results 0 else get_elem? results 1

abbrev idle : Dispatcher
idle = record { pending = []; futures = [] }

abbrev consumer : Consumer
consumer = record { dispatcher = (register_pending "e1" idle).1; acked = [] }

abbrev entries : List Entry
entries =
    record { entry_id = "1-0"; body = some "first" }
    ∷ record { entry_id = "2-0"; body = some "second" }
    ∷ []

agent_step-settles_example :
    get_elem?
      (calls
        (time_out 0 ∷ resolve "e1" end ∷ [])
        (process_entries read entries consumer).dispatcher).futures
      (register_pending "e1" idle).0
    ≡ some (settled_by (answer_at runtime registry services task worker))
unfolding read_task run get_model run_graph resolve_model_id instantiate lookup process read_result
agent_step-settles_example =
    agent_step-settles runtime registry services (world 100) execution step 0 task idle ask worker
      read entries consumer (time_out 0 ∷ resolve "e1" end ∷ []) (λ old new. refl) (λ m. refl) made
      refl refl refl
