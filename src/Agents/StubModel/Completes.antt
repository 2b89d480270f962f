-- ===== src/Agents/StubModel/Completes.antt =====
-- Every task that a local deployment runs completes.
use constructor.Prelude.{ℕ, suc, String, true, none, [], ◌∷◌, ◌≡◌, refl, ap}
use constructor.Json.{str, end, field}
use constructor.Outcome.{return}
use constructor.Executions.Events.{AgentTask, AgentResult, completed}
use constructor.Agents.Tools.{Moment, ToolRegistry}
use constructor.Agents.ModelRouter.{stub, ModelRouter, get_model, instantiate, resolve_model_id}
use constructor.Agents.Graph.{Reply, AgentState, Config, call_model, run_graph, wants_tool}
use constructor.Agents.Graph.Steps.{Appends, with_reply, step-call_model}
use constructor.Agents.Runner.{
  Runtime, initial, config_of, invoke, run, result_of, final_result, last_ai, last_ai_from,
  count_tokens, tokens_of, is_cut_off, text_of_reply,
}
use constructor.Agents.StubModel.{stub_response, generate, stub_chat_model, with_stub, local}

abbrev pub stub_result : AgentTask → String → AgentResult
stub_result task model_used = record {
  task_id = task.task_id;
  execution_id = task.execution_id;
  tenant_id = task.tenant_id;
  step_id = task.step_id;
  status = completed;
  output = field "text" (str stub_response) end;
  tokens_used = 0;
  model_used = model_used;
  iterations = 1;
  error = none;
}

module _ (rt : Runtime) (registry : ToolRegistry) where
  abbrev stub_reply : Reply
  stub_reply = record { content = str stub_response; tool_calls = []; usage = none }

  abbrev config : AgentTask → String → Config
  config task id = config_of (local rt) registry (stub, id) task

  -- The state after the one call.
  abbrev ended : AgentTask → String → AgentState
  ended task id =
      with_reply rt.library (config task id) (initial (local rt) registry task) stub_reply

  run_graph-stub :
      (n : ℕ) (moment : Moment) (task : AgentTask) (id : String)
      → Appends rt.library
      → run_graph rt.library
          (config task id)
          (suc n)
          moment
          call_model
          (initial (local rt) registry task)
        ≡ return (ended task id)
  unfolding run_graph config_of with_stub stub_chat_model generate wants_tool
  run_graph-stub n moment task id appends =
      rw
        (
          step-call_model rt.library (config task id) (n ∷ moment)
              (initial (local rt) registry task) stub_reply appends refl,
          run_graph,
        )
        refl

  invoke-stub :
      (moment : Moment) (task : AgentTask) (id : String) {n : ℕ}
      → Appends rt.library
      → rt.recursion_limit ≡ suc n
      → rt.in_time moment task ≡ true
      → invoke (local rt) registry moment (stub, id) task ≡ return (ended task id)
  unfolding invoke
  invoke-stub moment task id {n} appends limit in_time =
      rw in_time (rw limit (run_graph-stub n moment task id appends))

  -- With the stub every task that is given the time for one call completes after one round, with the
  -- fixed text and no tokens, whatever its prompt, its tools and its bound on rounds; even a model
  -- that the router would refuse is answered for, and the result names the model that was asked for.
  -- Conditions: LangGraph's reducer appends, and its limit allows a step.
  pub run-stub_result :
      (moment : Moment) (task : AgentTask) (router : ModelRouter) {n : ℕ}
      → Appends rt.library
      → rt.recursion_limit ≡ suc n
      → rt.in_time moment task ≡ true
      → run (local rt) registry moment task router ≡ (
        return (stub_result task (resolve_model_id task.task_type task.model_override)),
        record { last_model_used = resolve_model_id task.task_type task.model_override },
      )
  unfolding run get_model instantiate initial result_of final_result last_ai last_ai_from
      count_tokens tokens_of is_cut_off text_of_reply
  run-stub_result moment task router appends limit in_time =
      let id = resolve_model_id task.task_type task.model_override in
      ap
        (λ out.
          (return (result_of (local rt) registry task id out), record { last_model_used = id }))
        (invoke-stub moment task id appends limit in_time)
