-- ===== src/Agents/Graph/Steps.antt =====
-- The steps of the graph, for a reducer that appends new messages.
use constructor.Prelude.{
  ℕ, suc, String, ◌≡◌, ◌≢◌, refl, ap, Bool, true, false, Option, none, some, List, [], ◌∷◌, ◌++◌,
  map, ◌⊎◌, inl, inr,
}
use constructor.Prelude.Int.{pos, ltb_ℤ}
use constructor.Outcome.{Outcome, return, raise, Exception}
use constructor.Agents.Tools.{Moment, as_openai_tool}
use constructor.Agents.Graph.{
  ToolCall, Reply, Message, ai, tool, AgentState, Config, Library, last, call_model, execute_tool,
  Node, call_model_node, execute_tool_node, should_continue, apply_update, wants_tool, answer,
  answers, step, run_graph,
}

pub last-append_end : (ms : List Message) (m : Message) → last (ms ++ m ∷ []) ≡ some m
unfolding last
last-append_end [] m = refl
last-append_end (a ∷ []) m = refl
last-append_end (a ∷ b ∷ ms) m = last-append_end (b ∷ ms) m

-- The call that a message answers.
abbrev pub tool_call_id : Message → Option String
tool_call_id (tool content id) = some id
tool_call_id _ = none

-- LangGraph's reducer puts messages that are new at the end.
abbrev pub Appends : Library → Type 0
Appends lib = (old new : List Message) → lib.add_messages old new ≡ old ++ new

module _ (lib : Library) (config : Config) where
  pub answers-ids :
      (i : ℕ) (moment : Moment) (tenant_id : String) (calls : List ToolCall)
      → map tool_call_id (answers lib config i moment tenant_id calls) ≡ map (λ c. some c.id) calls
  unfolding answers answer
  answers-ids i moment tenant_id [] = refl
  answers-ids i moment tenant_id (c ∷ cs) =
      ap (λ ids. some c.id ∷ ids) (answers-ids (suc i) moment tenant_id cs)

  -- The model's answer to the messages of a state.
  abbrev pub response : Moment → AgentState → Outcome Reply
  response moment s = config.model moment (map as_openai_tool config.tools) s.messages

  -- The state after the model, and after the tools, for messages that are appended.
  abbrev pub with_reply : AgentState → Reply → AgentState
  with_reply s r = record s { messages = s.messages ++ ai r ∷ []; iterations = suc s.iterations }

  abbrev pub with_answers : Moment → AgentState → Reply → AgentState
  with_answers moment s r = record s {
    messages = s.messages ++ answers lib config 0 moment s.tenant_id r.tool_calls;
  }

  pub step-call_model :
      (moment : Moment) (s : AgentState) (r : Reply)
      → Appends lib
      → response moment s ≡ return r
      → step lib config moment call_model s
        ≡ return (wants_tool lib config (with_reply s r) (ai r), with_reply s r)
  unfolding step call_model_node should_continue apply_update
  step-call_model moment s r appends said = rw said (simp (appends, last-append_end))

  pub step-call_model_raises :
      (moment : Moment) (s : AgentState) (e : Exception)
      → response moment s ≡ raise e
      → step lib config moment call_model s ≡ raise e
  unfolding step call_model_node
  step-call_model_raises moment s e said = rw said refl

  pub step-execute_tool :
      (moment : Moment) (s : AgentState) (r : Reply)
      → Appends lib
      → last s.messages ≡ some (ai r)
      → step lib config moment execute_tool s ≡ return (some call_model, with_answers moment s r)
  unfolding step execute_tool_node apply_update
  step-execute_tool moment s r appends asked = rw (asked, execute_tool_node) (simp appends)

  -- Where the graph goes after a reply.
  pub wants_tool-cases :
      (s : AgentState) (r : Reply)
      → ((wants_tool lib config s (ai r) ≡ none)
          × ((r.tool_calls ≡ []) ⊎ (ltb_ℤ (pos s.iterations) s.max_iterations ≡ false)))
        ⊎ ((wants_tool lib config s (ai r) ≡ some execute_tool)
            × (r.tool_calls ≢ [])
            × (ltb_ℤ (pos s.iterations) s.max_iterations ≡ true))
  unfolding wants_tool
  wants_tool-cases s r = cases r.tool_calls refl (ltb_ℤ (pos s.iterations) s.max_iterations) refl
    where
      cases :
          (calls : List ToolCall)
          → r.tool_calls ≡ calls
          → (b : Bool) → ltb_ℤ (pos s.iterations) s.max_iterations ≡ b
          → ((wants_tool lib config s (ai r) ≡ none)
              × ((r.tool_calls ≡ []) ⊎ (ltb_ℤ (pos s.iterations) s.max_iterations ≡ false)))
            ⊎ ((wants_tool lib config s (ai r) ≡ some execute_tool)
                × (r.tool_calls ≢ [])
                × (ltb_ℤ (pos s.iterations) s.max_iterations ≡ true))
      cases [] none_asked b small = inl ((rw none_asked refl), inl none_asked)
      cases (c ∷ cs) asked true small = inr ((rw asked (rw small refl)), (λ e. cc), small)
      cases (c ∷ cs) asked false small = inl ((rw asked (rw small refl)), inr small)

  pub run_graph-ends :
      (limit : ℕ) (moment : Moment) (node : Node) (s : AgentState) {s' : AgentState}
      → step lib config (limit ∷ moment) node s ≡ return (none, s')
      → run_graph lib config (suc limit) moment node s ≡ return s'
  unfolding run_graph
  run_graph-ends limit moment node s stepped = rw stepped refl

  pub run_graph-goes_on :
      (limit : ℕ) (moment : Moment) (node : Node) (s : AgentState) {next : Node} {s' : AgentState}
      → step lib config (limit ∷ moment) node s ≡ return (some next, s')
      → run_graph lib config (suc limit) moment node s ≡ run_graph lib config limit moment next s'
  unfolding run_graph
  run_graph-goes_on limit moment node s stepped = rw stepped refl

  pub run_graph-raises :
      (limit : ℕ) (moment : Moment) (node : Node) (s : AgentState) {e : Exception}
      → step lib config (limit ∷ moment) node s ≡ raise e
      → run_graph lib config (suc limit) moment node s ≡ raise e
  unfolding run_graph
  run_graph-raises limit moment node s stepped = rw stepped refl
