-- ===== src/Agents/Graph/Dialogue.antt =====
-- What a run of the graph leaves: a dialogue in which the tools answer every call of the model.
use constructor.Prelude.{
  ℕ, zero, suc, ◌≡◌, ◌≢◌, refl, sym, ◌∙◌, subst, true, false, some, List, [], ◌∷◌, ◌++◌, map, ◌⊎◌,
  inl, inr,
}
use constructor.Prelude.Int.{ℤ, pos, ltb_ℤ}
use constructor.Outcome.{return, Outcome-cases}
use constructor.Agents.Tools.{Moment}
use constructor.Agents.Graph.{
  Reply, Message, ai, AgentState, Config, Library, last, Node, call_model, execute_tool, run_graph,
}
use constructor.Agents.Graph.Steps.{
  Appends, tool_call_id, last-append_end, answers-ids, response, with_reply, with_answers,
  step-call_model, step-call_model_raises, step-execute_tool, wants_tool-cases, run_graph-ends,
  run_graph-goes_on, run_graph-raises,
}

-- The messages so far, the number of replies in them, and the node that is next: the model has
-- replied within the bound, and one message answers each of its calls, in their order.
pub data Dialogue (start : List Message) (bound : ℤ) : Node → ℕ → List Message → Type 0 where
  begin : Dialogue start bound call_model 0 start
  replied :
      {n : ℕ} {ms ms' : List Message} (r : Reply)
      → Dialogue start bound call_model n ms
      → ms' ≡ ms ++ ai r ∷ []
      → r.tool_calls ≢ []
      → ltb_ℤ (pos (suc n)) bound ≡ true
      → Dialogue start bound execute_tool (suc n) ms'
  answered :
      {n : ℕ} {ms ms' : List Message} (r : Reply) (given : List Message)
      → Dialogue start bound execute_tool n ms
      → last ms ≡ some (ai r)
      → map tool_call_id given ≡ map (λ c. some c.id) r.tool_calls
      → ms' ≡ ms ++ given
      → Dialogue start bound call_model n ms'

-- The end of a dialogue: a reply that asks for no tool, or that reaches the bound.
pub record IsFinal (start : List Message) (bound : ℤ) (final : AgentState) : Type 0 where
  pub rounds : ℕ
  pub before : List Message
  pub reply : Reply
  pub dialogue : Dialogue start bound call_model rounds before
  pub messages : final.messages ≡ before ++ ai reply ∷ []
  pub iterations : final.iterations ≡ suc rounds
  pub stops : (reply.tool_calls ≡ []) ⊎ (ltb_ℤ (pos (suc rounds)) bound ≡ false)

-- The model has replied once, or within the bound each time.
pub Dialogue-within :
    {start : List Message} {bound : ℤ} {node : Node} {n : ℕ} {ms : List Message}
    → Dialogue start bound node n ms
    → (n ≡ 0) ⊎ (ltb_ℤ (pos n) bound ≡ true)
Dialogue-within begin = inl refl
Dialogue-within (replied r d grown asked within) = inr within
Dialogue-within (answered r given d asked ids grown) = Dialogue-within d

pub return-injective : {A : Type 0} {a b : A} → return a ≡ return b → a ≡ b
return-injective e = cc

asks :
    {start : List Message} {bound : ℤ} {n : ℕ} {ms : List Message}
    → Dialogue start bound execute_tool n ms
    → (r : Reply) × (last ms ≡ some (ai r))
asks (replied {ms = ms} r d grown asked within) = (r, rw grown (last-append_end ms (ai r)))

-- The state is in the dialogue.
pub record IsIn (start : List Message) (bound : ℤ) (node : Node) (s : AgentState) : Type 0 where
  pub dialogue : Dialogue start bound node s.iterations s.messages
  pub same_bound : s.max_iterations ≡ bound

module _ (lib : Library) (config : Config) (start : List Message) (bound : ℤ)
    (appends : Appends lib) where
  reply-IsIn :
      (s : AgentState) (r : Reply)
      → IsIn start bound call_model s
      → r.tool_calls ≢ []
      → ltb_ℤ (pos (suc s.iterations)) s.max_iterations ≡ true
      → IsIn start bound execute_tool (with_reply lib config s r)
  reply-IsIn s r h asked within = record {
    dialogue =
        replied r h.dialogue refl asked
          (subst (λ b. ltb_ℤ (pos (suc s.iterations)) b ≡ true) h.same_bound within);
    same_bound = h.same_bound;
  }

  answers-IsIn :
      (moment : Moment) (s : AgentState) (r : Reply)
      → IsIn start bound execute_tool s
      → last s.messages ≡ some (ai r)
      → IsIn start bound call_model (with_answers lib config moment s r)
  answers-IsIn moment s r h asked = record {
    dialogue =
        answered r _ h.dialogue asked (answers-ids lib config 0 moment s.tenant_id r.tool_calls)
          refl;
    same_bound = h.same_bound;
  }

  reply-IsFinal :
      (s : AgentState) (r : Reply)
      → IsIn start bound call_model s
      → (r.tool_calls ≡ []) ⊎ (ltb_ℤ (pos (suc s.iterations)) s.max_iterations ≡ false)
      → IsFinal start bound (with_reply lib config s r)
  reply-IsFinal s r h stops = record {
    rounds = s.iterations;
    before = s.messages;
    reply = r;
    dialogue = h.dialogue;
    messages = refl;
    iterations = refl;
    stops =
        subst (λ b. (r.tool_calls ≡ []) ⊎ (ltb_ℤ (pos (suc s.iterations)) b ≡ false)) h.same_bound
          stops;
  }

  -- A run of the graph that ends leaves a finished dialogue: each call of a tool is answered, the
  -- last message is a reply, and the number of replies is in `iterations`.
  pub run_graph-IsFinal :
      (limit : ℕ) (moment : Moment) (node : Node) (s : AgentState) {final : AgentState}
      → IsIn start bound node s
      → run_graph lib config limit moment node s ≡ return final
      → IsFinal start bound final
  unfolding run_graph
  run_graph-IsFinal zero moment node s h ran = cc
  run_graph-IsFinal (suc limit) moment call_model s h ran =
      elim (Outcome-cases (response lib config (limit ∷ moment) s)) [
        | inr (e, said) ↦
            let stepped = step-call_model_raises lib config (limit ∷ moment) s e said in
            cc (run_graph-raises lib config limit moment call_model s stepped)
        | inl (r, said) ↦ elim (wants_tool-cases lib config (with_reply lib config s r) r) [
          | inl (ends, stops) ↦
              let stepped = step-call_model lib config (limit ∷ moment) s r appends said in
              let done = run_graph-ends lib config limit moment call_model s (rw ends at stepped) in
              subst (IsFinal start bound) (return-injective (sym done ∙ ran))
                (reply-IsFinal s r h stops)
          | inr (goes, asked, within) ↦
              let stepped = step-call_model lib config (limit ∷ moment) s r appends said in
              let on =
                run_graph-goes_on lib config limit moment call_model s (rw goes at stepped) in
              run_graph-IsFinal limit moment execute_tool (with_reply lib config s r)
                (reply-IsIn s r h asked within) (sym on ∙ ran)
        ]
      ]
  run_graph-IsFinal (suc limit) moment execute_tool s h ran =
      let (r, asked) = asks h.dialogue in
      let stepped = step-execute_tool lib config (limit ∷ moment) s r appends asked in
      let on = run_graph-goes_on lib config limit moment execute_tool s stepped in
      run_graph-IsFinal limit moment call_model (with_answers lib config (limit ∷ moment) s r)
        (answers-IsIn (limit ∷ moment) s r h asked) (sym on ∙ ran)
