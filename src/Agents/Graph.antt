-- ===== src/Agents/Graph.antt =====
-- services/agent-orchestration/src/runner/{state,nodes}.py and the graph of agent_runner.py: the
-- model and the tools take turns until the model asks for no tool.
pub mod Steps
pub mod Dialogue
pub mod Bound
use constructor.Prelude.{
  ℕ, zero, suc, String, Option, none, some, List, [], ◌∷◌, map, get_or, if◌then◌else◌,
}
use constructor.Prelude.Int.{ℤ, pos, ltb_ℤ}
use constructor.Json.{Value, Fields, str, end, field}
use constructor.Outcome.{Exception, attribute_error, raised, Outcome, return, raise, concat, ◌>>=◌}
use constructor.Agents.Tools.{Moment, Tool, ToolRegistry, as_openai_tool, get_tool}

pub record ToolCall : Type 0 where
  pub id : String
  pub name : String
  pub args : Fields

-- `AIMessage`; `usage` is the number of total tokens, if the model tells it.
pub record Reply : Type 0 where
  pub content : Value
  pub tool_calls : List ToolCall
  pub usage : Option ℕ

pub data Message : Type 0 where
  human : String → Message
  ai : Reply → Message
  tool : String → String → Message

-- `AgentState`
pub record AgentState : Type 0 where
  pub messages : List Message
  pub iterations : ℕ
  pub max_iterations : ℤ
  pub context : Fields
  pub tools_allowed : List String
  pub task_id : String
  pub tenant_id : String

-- What a chat model answers: to the tools that are bound and the messages so far.
abbrev pub Model : Type 0
Model = Moment → List Fields → List Message → Outcome Reply

-- `config["configurable"]`
pub record Config : Type 0 where
  pub model : Model
  pub tools : List Tool
  pub registry : ToolRegistry

-- What the nodes and the graph take from outside: LangGraph's reducer of messages, and texts.
pub record Library : Type 0 where
  pub add_messages : List Message → List Message → List Message
  pub text_of : Exception → String
  pub format : Fields → String

-- The dict that a node returns.
pub record Update : Type 0 where
  pub new_messages : List Message
  pub new_iterations : Option ℕ

-- `messages[-1]`
unfoldable pub last : List Message → Option Message
last [] = none
last (m ∷ []) = some m
last (m ∷ n ∷ ms) = last (n ∷ ms)

abbrev pub index_error : Exception
index_error = raised "list index out of range"

pub data Node : Type 0 where
  call_model execute_tool : Node

module _ (lib : Library) (config : Config) where
  unfoldable pub call_model_node : Moment → AgentState → Outcome Update
  call_model_node moment s = do
    response ← config.model moment (map as_openai_tool config.tools) s.messages
    return (record { new_messages = ai response ∷ []; new_iterations = some (suc s.iterations) })

  -- The text of what a tool returns or raises.
  content_of : Outcome Fields → String
  content_of (return out) = lib.format out
  content_of (raise e) = concat "Error: " (lib.text_of e) ""

  -- The message that answers one call.
  unfoldable pub answer : Moment → String → ToolCall → Message
  unfolding get_tool content_of
  answer moment tenant_id call =
      tool
        (elim (get_tool call.name config.registry) [
          | none ↦ concat "Error: tool '" call.name "' not registered"
          | some t ↦ content_of (t.execute moment call.args (field "tenant_id" (str tenant_id) end))
        ])
        call.id

  unfoldable pub answers : ℕ → Moment → String → List ToolCall → List Message
  unfolding answer
  answers i moment tenant_id [] = []
  answers i moment tenant_id (c ∷ cs) =
      answer (i ∷ moment) tenant_id c ∷ answers (suc i) moment tenant_id cs

  -- Only an `AIMessage` has `tool_calls`.
  unfoldable pub execute_tool_node : Moment → AgentState → Outcome Update
  unfolding answers last
  execute_tool_node moment s = elim (last s.messages) [
    | none ↦ raise index_error
    | some (ai reply) ↦ return (record {
      new_messages = answers 0 moment s.tenant_id reply.tool_calls;
      new_iterations = none;
    })
    | some _ ↦ raise attribute_error
  ]

  -- `none` is `END`.
  unfoldable pub wants_tool : AgentState → Message → Option Node
  wants_tool s (ai reply) = elim reply.tool_calls [
    | [] ↦ none
    | c ∷ cs ↦ if ltb_ℤ (pos s.iterations) s.max_iterations then some execute_tool else none
  ]
  wants_tool s _ = none

  unfoldable pub should_continue : AgentState → Outcome (Option Node)
  unfolding last wants_tool
  should_continue s = elim (last s.messages) [
    | none ↦ raise index_error
    | some m ↦ return (wants_tool s m)
  ]

  -- The reducers of `AgentState`: messages are added, other keys are overwritten.
  unfoldable pub apply_update : AgentState → Update → AgentState
  apply_update s u = record s {
    messages = lib.add_messages s.messages u.new_messages;
    iterations = get_or s.iterations u.new_iterations;
  }

  -- One step of the graph: a node, and the edge that leaves it.
  unfoldable pub step : Moment → Node → AgentState → Outcome (Option Node × AgentState)
  unfolding call_model_node execute_tool_node should_continue apply_update
  step moment call_model s = do
    u ← call_model_node moment s
    next ← should_continue (apply_update s u)
    return (next, apply_update s u)
  step moment execute_tool s = do
    u ← execute_tool_node moment s
    return (some call_model, apply_update s u)

  -- LangGraph runs at most `limit` steps (its `recursion_limit`) and raises if more are left.
  unfoldable pub run_graph : ℕ → Moment → Node → AgentState → Outcome AgentState
  unfolding step
  run_graph zero moment node s = raise (raised "GraphRecursionError")
  run_graph (suc limit) moment node s = do
    out ← step (limit ∷ moment) node s
    elim out.0 [ none ↦ return out.1 | some next ↦ run_graph limit moment next out.1 ]
