-- ===== src/Agents/Graph/Bound.antt =====
-- How many steps a run of the graph takes: two for each round, and one for the last reply.
use constructor.Prelude.{
  ℕ, zero, suc, ◌*◌, ◌-◌, ◌≤◌, ◌≡◌, sym, subst, true, some, List, ◌∷◌, map, ◌⊎◌, inl, inr, arith,
}
use constructor.Prelude.Int.{ℤ, pos, negsuc, ltb_ℤ, pos_part}
use constructor.Outcome.{Outcome, return, raise, Exception, Outcome-cases}
use constructor.Agents.Tools.{Moment, as_openai_tool}
use constructor.Agents.Graph.{
  Reply, Message, ai, AgentState, Config, Library, last, Node, call_model, execute_tool, run_graph,
}
use constructor.Agents.Graph.Steps.{
  Appends, last-append_end, response, with_reply, with_answers, step-call_model,
  step-call_model_raises, step-execute_tool, wants_tool-cases, run_graph-ends, run_graph-goes_on,
  run_graph-raises,
}

-- The steps that are left at a node, after `iterations` replies.
abbrev pub steps_left : Node → AgentState → ℕ
steps_left call_model s = suc (2 * (pos_part s.max_iterations - suc s.iterations))
steps_left execute_tool s = suc (suc (2 * (pos_part s.max_iterations - suc s.iterations)))

-- The model's exception, if the run did not return.
abbrev pub ReturnsOrModelRaised : Config → Outcome AgentState → Type 0
ReturnsOrModelRaised config o =
    ((final : AgentState) × (o ≡ return final))
    ⊎ ((e : Exception) × (moment : Moment) × (messages : List Message) × (o ≡ raise e)
        × (config.model moment (map as_openai_tool config.tools) messages ≡ raise e))

-- A state at which the tools are next has a reply at its end.
abbrev pub IsReady : Node → AgentState → Type 0
IsReady call_model s = Unit
IsReady execute_tool s = (r : Reply) × (last s.messages ≡ some (ai r))

within-pos_part : (n : ℕ) (bound : ℤ) → ltb_ℤ (pos n) bound ≡ true → suc n ≤ pos_part bound
within-pos_part n (pos m) h = ground arith
within-pos_part n (negsuc m) h = ground arith

module _ (lib : Library) (config : Config) (appends : Appends lib) where
  -- A limit of one step and of two more for each round that is left is enough: the run returns a
  -- state, or raises what a call of the model raised, and is never stopped by the limit. No
  -- exception of a tool ends the run. Conditions: LangGraph's reducer appends, and where the
  -- tools are next the last message is a reply.
  pub run_graph-enough :
      (limit : ℕ) (moment : Moment) (node : Node) (s : AgentState)
      → IsReady node s
      → steps_left node s ≤ limit
      → ReturnsOrModelRaised config (run_graph lib config limit moment node s)
  run_graph-enough zero moment call_model s ready enough = absurd (omega (arith, enough))
  run_graph-enough zero moment execute_tool s ready enough = absurd (omega (arith, enough))
  run_graph-enough (suc limit) moment call_model s ready enough =
      elim (Outcome-cases (response lib config (limit ∷ moment) s)) [
        | inr (e, said) ↦
            let stepped = step-call_model_raises lib config (limit ∷ moment) s e said in
            inr (
              e,
              limit ∷ moment,
              s.messages,
              run_graph-raises lib config limit moment call_model s stepped,
              said,
            )
        | inl (r, said) ↦
            let stepped = step-call_model lib config (limit ∷ moment) s r appends said in
            elim (wants_tool-cases lib config (with_reply lib config s r) r) [
              | inl (ends, stops) ↦ inl (
                with_reply lib config s r,
                run_graph-ends lib config limit moment call_model s (rw ends at stepped),
              )
              | inr (goes, asked, within) ↦
                  let more = within-pos_part (suc s.iterations) s.max_iterations within in
                  subst (ReturnsOrModelRaised config)
                    (sym
                      (run_graph-goes_on lib config limit moment call_model s (rw goes at stepped)))
                    (run_graph-enough limit moment execute_tool (with_reply lib config s r)
                      (r, last-append_end s.messages (ai r)) (omega (arith, enough, more)))
            ]
      ]
  run_graph-enough (suc limit) moment execute_tool s (r, asked) enough =
      let stepped = step-execute_tool lib config (limit ∷ moment) s r appends asked in
      subst (ReturnsOrModelRaised config)
        (sym (run_graph-goes_on lib config limit moment execute_tool s stepped))
        (run_graph-enough limit moment call_model (with_answers lib config (limit ∷ moment) s r) tt
          (omega (arith, enough)))
