-- ===== src/Agents/Runner.antt =====
-- services/agent-orchestration/src/runner/agent_runner.py: a task becomes a run of the graph, and
-- its end a result.
pub mod Results
use Prim.Native.String.{◌++◌ as join}
use constructor.Prelude.{
  ℕ, ◌+◌, String, Bool, false, not, Option, none, some, List, [], ◌∷◌, get_or, if◌then◌else◌,
}
use constructor.Prelude.Int.{ℤ, pos, ltb_ℤ}
use constructor.Json.{Value, str, end, field}
use constructor.Outcome.{Exception, timeout_error, Outcome, return, raise, concat, ◌>>=◌}
use constructor.Executions.Events.{AgentTask, AgentResult, completed, failed, timeout}
use constructor.Agents.Tools.{Moment, Tool, ToolRegistry, get_tool}
use constructor.Agents.ModelRouter.{Provider, ModelRouter, get_model}
use constructor.Agents.Graph.{
  Message, human, ai, Reply, AgentState, Model, Config, Library, call_model, run_graph,
}

-- What a run takes from outside: LangGraph and its `recursion_limit`, the classes of chat models,
-- the setting `use_stub_model`, whether the graph ends before the timeout, and texts.
pub record Runtime : Type 0 where
  pub library : Library
  pub recursion_limit : ℕ
  pub chat_model : Provider × String → Model
  pub use_stub_model : Bool
  pub in_time : Moment → AgentTask → Bool
  pub format_int : ℤ → String

-- `[t for name in tools_allowed if (t := registry.get(name))]`
unfoldable pub allowed_tools : ToolRegistry → List String → List Tool
unfolding get_tool
allowed_tools registry [] = []
allowed_tools registry (name ∷ names) =
    let rest = allowed_tools registry names in
    elim (get_tool name registry) [ none ↦ rest | some t ↦ t ∷ rest ]

unfoldable pub tokens_of : Message → ℕ
tokens_of (ai reply) = get_or 0 reply.usage
tokens_of _ = 0

unfoldable pub count_tokens : List Message → ℕ
unfolding tokens_of
count_tokens [] = 0
count_tokens (m ∷ ms) = tokens_of m + count_tokens ms

-- `next((m for m in reversed(messages) if isinstance(m, AIMessage)), None)`, with `found` for the
-- messages before.
unfoldable pub last_ai_from : Option Reply → List Message → Option Reply
last_ai_from found [] = found
last_ai_from found (ai reply ∷ ms) = last_ai_from (some reply) ms
last_ai_from found (_ ∷ ms) = last_ai_from found ms

unfoldable pub last_ai : List Message → Option Reply
unfolding last_ai_from
last_ai ms = last_ai_from none ms

module _ (rt : Runtime) (registry : ToolRegistry) where
  unfoldable pub initial : AgentTask → AgentState
  initial task = record {
    messages =
        human
          (join "<context>" (concat (rt.library.format task.context) "</context>\n\n" task.prompt))
        ∷ [];
    iterations = 0;
    max_iterations = task.max_iterations;
    context = task.context;
    tools_allowed = task.tools_allowed;
    task_id = task.task_id;
    tenant_id = task.tenant_id;
  }

  unfoldable pub config_of : Provider × String → AgentTask → Config
  unfolding allowed_tools
  config_of model task = record {
    model = rt.chat_model model;
    tools = allowed_tools registry task.tools_allowed;
    registry = registry;
  }

  -- `asyncio.wait_for(graph.ainvoke(…), timeout)`
  unfoldable pub invoke : Moment → Provider × String → AgentTask → Outcome AgentState
  unfolding initial config_of
  invoke moment model task =
      if rt.in_time moment task
      then run_graph rt.library (config_of model task) rt.recursion_limit moment call_model
          (initial task)
      else raise timeout_error

  -- The result of a run that raised.
  unfoldable pub raised_result : AgentTask → String → Exception → AgentResult
  raised_result task model_used e = record {
    task_id = task.task_id;
    execution_id = task.execution_id;
    tenant_id = task.tenant_id;
    step_id = task.step_id;
    status = elim e [ timeout_error ↦ timeout | _ ↦ failed ];
    output = end;
    tokens_used = 0;
    model_used = model_used;
    iterations = 0;
    error = some (elim e [
      | timeout_error ↦ concat "Timed out after " (rt.format_int task.timeout_seconds) "s"
      | other ↦ rt.library.text_of other
    ]);
  }

  -- `last_ai and last_ai.tool_calls and final["iterations"] >= task.max_iterations`
  unfoldable pub is_cut_off : AgentTask → AgentState → Option Reply → Bool
  is_cut_off task final none = false
  is_cut_off task final (some reply) = elim reply.tool_calls [
    | [] ↦ false
    | c ∷ cs ↦ not (ltb_ℤ (pos final.iterations) task.max_iterations)
  ]

  -- `last_ai.content if last_ai else ""`
  unfoldable pub text_of_reply : Option Reply → Value
  text_of_reply none = str ""
  text_of_reply (some reply) = reply.content

  -- The result of a run that ended.
  unfoldable pub final_result : AgentTask → String → AgentState → AgentResult
  unfolding is_cut_off last_ai count_tokens text_of_reply
  final_result task model_used final =
      let reply = last_ai final.messages in
      let cut_off = is_cut_off task final reply in
      record {
        task_id = task.task_id;
        execution_id = task.execution_id;
        tenant_id = task.tenant_id;
        step_id = task.step_id;
        status = if cut_off then failed else completed;
        output = if cut_off then end else field "text" (text_of_reply reply) end;
        tokens_used = count_tokens final.messages;
        model_used = model_used;
        iterations = final.iterations;
        error = if cut_off then some "max_iterations_reached" else none;
      }

  unfoldable pub result_of : AgentTask → String → Outcome AgentState → AgentResult
  unfolding raised_result final_result
  result_of task model_used (return final) = final_result task model_used final
  result_of task model_used (raise e) = raised_result task model_used e

  -- An exception of `get_model` is raised before the `try`.
  unfoldable pub run : Moment → AgentTask → ModelRouter → Outcome AgentResult × ModelRouter
  unfolding invoke result_of
  run moment task router =
      let (model, router') =
        get_model rt.use_stub_model task.task_type task.model_override router in
      (
        model >>= λ m. return (result_of task router'.last_model_used (invoke moment m task)),
        router',
      )
