-- ===== src/Agents/Tests.antt =====
-- A model that calls a tool once and then answers; and the theorems about agents at it.
use constructor.Prelude.{
  ◌≡◌, refl, Bool, true, false, none, some, [], ◌∷◌, ◌++◌, lookup, ◌==◌, if◌then◌else◌, arith,
}
use constructor.Prelude.Int.{pos}
use constructor.Json.{str, end, field}
use constructor.Outcome.{return, raise, raised, value_error}
use constructor.Executions.Events.{AgentTask, AgentResult, completed}
use constructor.Executions.ResultConsumer.{Entry}
use constructor.Agents.Tools.{Tool, ToolRegistry}
use constructor.Agents.ModelRouter.{ModelRouter, google, instantiate, get_model, resolve_model_id}
use constructor.Agents.Graph.{Model, Library, call_model, run_graph}
use constructor.Agents.Graph.Bound.{ReturnsOrModelRaised, run_graph-enough}
use constructor.Agents.Runner.{Runtime, initial, config_of, run}
use constructor.Agents.Runner.Results.{IsResult, run-IsResult}
use constructor.Agents.StubModel.{local}
use constructor.Agents.StubModel.Completes.{stub_result, run-stub_result}
use constructor.Agents.Consumer.{Worker, Services, process, read_task, failed_result}
use constructor.Agents.Consumer.Answers.{Answers, process-Answers, process-two_results}

abbrev pub library : Library
library = record {
  add_messages = λ old new. old ++ new;
  text_of = λ e. "error";
  format = λ out. "{}";
}

-- The model calls "clock" when it sees one message, and answers when it sees more.
abbrev pub model : Model
model moment tools (m ∷ []) = return (record {
  content = str "";
  tool_calls = record { id = "c1"; name = "clock"; args = end } ∷ [];
  usage = some 7;
})
model moment tools _ = return (record { content = str "noon"; tool_calls = []; usage = some 5 })

abbrev pub clock : Tool
clock = record {
  name = "clock";
  description = "the time";
  input_schema = end;
  execute = λ moment inputs tenant. raise (value_error "no battery");
}

abbrev pub registry : ToolRegistry
registry = ("clock", clock) ∷ []

abbrev pub runtime : Runtime
runtime = record {
  library = library;
  recursion_limit = 25;
  chat_model = λ id. model;
  use_stub_model = false;
  in_time = λ moment task. true;
  format_int = λ n. "60";
}

abbrev task : AgentTask
task = record {
  task_id = "task";
  execution_id = "e1";
  tenant_id = "t1";
  step_id = "ask";
  task_type = "summarization";
  prompt = "When?";
  context = end;
  tools_allowed = "clock" ∷ [];
  model_override = none;
  timeout_seconds = pos 60;
  max_iterations = pos 5;
}

abbrev pub router : ModelRouter
router = record { last_model_used = "" }

abbrev answered : AgentResult
answered = record {
  task_id = "task";
  execution_id = "e1";
  tenant_id = "t1";
  step_id = "ask";
  status = completed;
  output = field "text" (str "noon") end;
  tokens_used = 12;
  model_used = "gemini-2.0-flash";
  iterations = 2;
  error = none;
}

abbrev flash : ModelRouter
flash = record { last_model_used = "gemini-2.0-flash" }

answers_noon : run runtime registry [] task router ≡ (return answered, flash)
unfolding run get_model run_graph resolve_model_id instantiate lookup
answers_noon = refl

run-IsResult_example :
    (r : AgentResult) × (router' : ModelRouter) × (run runtime registry [] task router
      ≡ (return r, router'))
    × IsResult runtime registry task r
unfolding get_model resolve_model_id instantiate lookup
run-IsResult_example = run-IsResult runtime registry task [] router (λ old new. refl) refl

run_graph-enough_example :
    ReturnsOrModelRaised (config_of runtime registry (google, "gemini-2.0-flash") task) (
      run_graph library
        (config_of runtime registry (google, "gemini-2.0-flash") task)
        25
        []
        call_model
        (initial runtime registry task))
unfolding initial
run_graph-enough_example =
    run_graph-enough library (config_of runtime registry (google, "gemini-2.0-flash") task)
      (λ old new. refl) 25 [] call_model (initial runtime registry task) tt (omega arith)

-- The text "ask" stands for the task; the log of the database takes rows or not.
abbrev services : Bool → Services
services logs = record {
  stream_accepts = λ n. true;
  log_accepts = λ n. logs;
  parse = λ text. if text == "ask" then some task else none;
}

abbrev pub worker : Worker
worker = record { router = router; published = []; log = []; acked = []; effects = 0 }

abbrev pub ask : Entry
ask = record { entry_id = "1-0"; body = some "ask" }

process-Answers_example :
    Answers runtime registry
      (services true)
      task
      []
      (process runtime registry (services true) ask worker).published
unfolding read_task
process-Answers_example =
    process-Answers runtime registry (services true) ask task worker (λ old new. refl) (λ n. refl)
      refl

process-two_results_example :
    (process runtime registry (services false) ask worker).published
    ≡ answered ∷ failed_result runtime registry (services false) task (raised "database") ∷ []
unfolding read_task run get_model run_graph resolve_model_id instantiate lookup
process-two_results_example =
    process-two_results runtime registry (services false) ask task worker answered (λ n. refl)
      (λ n. refl) refl refl

-- An override that no other deployment takes, and no round allowed at all.
abbrev unknown : AgentTask
unknown = record task { model_override = some "llama"; max_iterations = pos 0 }

run-stub_result_example :
    run (local runtime) registry [] unknown router
    ≡ (return (stub_result unknown "llama"), record { last_model_used = "llama" })
unfolding resolve_model_id
run-stub_result_example =
    run-stub_result runtime registry [] unknown router (λ old new. refl) refl refl
