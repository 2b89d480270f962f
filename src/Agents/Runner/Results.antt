-- ===== src/Agents/Runner/Results.antt =====
-- What the result of a task says about the run of its graph.
use constructor.Prelude.{
  suc, String, ◌≡◌, ◌≢◌, refl, sym, ◌∙◌, ap, subst, true, false, Option, none, some, List, [], ◌∷◌,
  ◌++◌, ◌⊎◌, inl, inr, is_some, Bool-cases,
}
use constructor.Prelude.Int.{pos, ltb_ℤ}
use constructor.Json.{end, field}
use constructor.Outcome.{timeout_error, Outcome, return, raise, Exception, ◌>>=◌}
use constructor.Executions.Events.{AgentTask, AgentResult, completed, failed}
use constructor.Agents.Tools.{Moment, ToolRegistry}
use constructor.Agents.ModelRouter.{Provider, ModelRouter, get_model}
use constructor.Agents.Graph.{ToolCall, Reply, Message, human, ai, tool, AgentState, call_model}
use constructor.Agents.Graph.Steps.{Appends}
use constructor.Agents.Graph.Dialogue.{return-injective, IsFinal, begin, run_graph-IsFinal}
use constructor.Agents.Runner.{
  Runtime, count_tokens, last_ai, last_ai_from, initial, config_of, invoke, raised_result,
  is_cut_off, final_result, result_of, run, text_of_reply,
}

last_ai_from-append :
    (found : Option Reply) (ms : List Message) (r : Reply)
    → last_ai_from found (ms ++ ai r ∷ []) ≡ some r
unfolding last_ai_from
last_ai_from-append found [] r = refl
last_ai_from-append found (human text ∷ ms) r = last_ai_from-append found ms r
last_ai_from-append found (ai reply ∷ ms) r = last_ai_from-append (some reply) ms r
last_ai_from-append found (tool text id ∷ ms) r = last_ai_from-append found ms r

pub record SameTask (task : AgentTask) (r : AgentResult) : Type 0 where
  pub task_id : r.task_id ≡ task.task_id
  pub execution_id : r.execution_id ≡ task.execution_id
  pub tenant_id : r.tenant_id ≡ task.tenant_id
  pub step_id : r.step_id ≡ task.step_id

module _ (rt : Runtime) (registry : ToolRegistry) (task : AgentTask) where
  -- What the result tells of the dialogue that the run left.
  pub record Tells (r : AgentResult) : Type 0 where
    pub final : AgentState
    pub dialogue : IsFinal (initial rt registry task).messages task.max_iterations final
    pub iterations : r.iterations ≡ suc dialogue.rounds
    pub tokens_used : r.tokens_used ≡ count_tokens final.messages

  -- The model's last reply asks for no tool, and its content is the output.
  pub record Completed (r : AgentResult) : Type 0 where
    pub tells : Tells r
    pub no_calls : tells.dialogue.reply.tool_calls ≡ []
    pub status : r.status ≡ completed
    pub output : r.output ≡ field "text" tells.dialogue.reply.content end
    pub error : r.error ≡ none

  -- The model still asks for tools, and its replies have reached the bound.
  pub record CutOff (r : AgentResult) : Type 0 where
    pub tells : Tells r
    pub calls : tells.dialogue.reply.tool_calls ≢ []
    pub reached : ltb_ℤ (pos r.iterations) task.max_iterations ≡ false
    pub status : r.status ≡ failed
    pub output : r.output ≡ end
    pub error : r.error ≡ some "max_iterations_reached"

  -- The run raised or was too slow.
  pub record Raised (r : AgentResult) : Type 0 where
    pub status : r.status ≢ completed
    pub output : r.output ≡ end
    pub error : is_some r.error ≡ true

  -- A result of the task, of one of the three kinds.
  pub record IsResult (r : AgentResult) : Type 0 where
    pub same : SameTask task r
    pub kind : Completed r ⊎ (CutOff r ⊎ Raised r)

  raised-IsResult :
      (used : String) (e : Exception) → IsResult (raised_result rt registry task used e)
  unfolding raised_result
  raised-IsResult used e = record {
    same = record { task_id = refl; execution_id = refl; tenant_id = refl; step_id = refl };
    kind = inr (inr (record { status = not_completed e; output = refl; error = refl }));
  }
    where
      not_completed : (e : Exception) → (raised_result rt registry task used e).status ≢ completed
      not_completed timeout_error h = cc
      not_completed _ h = cc

  last_reply :
      (final : AgentState)
      → (d : IsFinal (initial rt registry task).messages task.max_iterations final)
      → last_ai final.messages ≡ some d.reply
  unfolding last_ai
  last_reply final d = rw d.messages (last_ai_from-append none d.before d.reply)

  cut_off_no_calls :
      (final : AgentState) (reply : Reply)
      → reply.tool_calls ≡ []
      → is_cut_off rt registry task final (some reply) ≡ false
  unfolding is_cut_off
  cut_off_no_calls final reply none_asked = rw none_asked refl

  cut_off_at_bound :
      (final : AgentState) (reply : Reply) {c : ToolCall} {cs : List ToolCall}
      → reply.tool_calls ≡ c ∷ cs
      → ltb_ℤ (pos final.iterations) task.max_iterations ≡ false
      → is_cut_off rt registry task final (some reply) ≡ true
  unfolding is_cut_off
  cut_off_at_bound final reply asked reached = rw asked (rw reached refl)

  module _ (used : String) (final : AgentState)
      (d : IsFinal (initial rt registry task).messages task.max_iterations final) where
    abbrev tells :
        (r : AgentResult)
        → r.iterations ≡ final.iterations
        → r.tokens_used ≡ count_tokens final.messages
        → Tells r
    tells r iterations tokens = record {
      final = final;
      dialogue = d;
      iterations = iterations ∙ d.iterations;
      tokens_used = tokens;
    }

    final_result-Completed :
        d.reply.tool_calls ≡ [] → Completed (final_result rt registry task used final)
    unfolding final_result text_of_reply
    final_result-Completed no_calls =
        let not_cut = cut_off_no_calls final d.reply no_calls in
        record {
          tells = tells _ refl refl;
          no_calls = no_calls;
          status = rw (last_reply final d) (rw not_cut refl);
          output = rw (last_reply final d) (rw not_cut refl);
          error = rw (last_reply final d) (rw not_cut refl);
        }

    final_result-CutOff :
        {c : ToolCall} {cs : List ToolCall}
        → d.reply.tool_calls ≡ c ∷ cs
        → ltb_ℤ (pos final.iterations) task.max_iterations ≡ false
        → CutOff (final_result rt registry task used final)
    unfolding final_result
    final_result-CutOff asked reached =
        let cut = cut_off_at_bound final d.reply asked reached in
        record {
          tells = tells _ refl refl;
          calls = λ e. cc (sym e ∙ asked);
          reached = reached;
          status = rw (last_reply final d) (rw cut refl);
          output = rw (last_reply final d) (rw cut refl);
          error = rw (last_reply final d) (rw cut refl);
        }

    final-kind :
        (calls : List ToolCall)
        → d.reply.tool_calls ≡ calls
        → (d.reply.tool_calls ≡ []) ⊎ (ltb_ℤ (pos (suc d.rounds)) task.max_iterations ≡ false)
        → Completed (final_result rt registry task used final)
          ⊎ (CutOff (final_result rt registry task used final)
              ⊎ Raised (final_result rt registry task used final))
    final-kind [] none_asked stops = inl (final_result-Completed none_asked)
    final-kind (c ∷ cs) asked (inl none_asked) = cc
    final-kind (c ∷ cs) asked (inr reached) =
        inr (inl (final_result-CutOff asked (rw d.iterations reached)))

    final-IsResult : IsResult (final_result rt registry task used final)
    unfolding final_result
    final-IsResult = record {
      same = record { task_id = refl; execution_id = refl; tenant_id = refl; step_id = refl };
      kind = final-kind d.reply.tool_calls refl d.stops;
    }

  outcome-IsResult :
      (used : String) (o : Outcome AgentState)
      → ((final : AgentState)
          → o ≡ return final
          → IsFinal (initial rt registry task).messages task.max_iterations final)
      → IsResult (result_of rt registry task used o)
  unfolding result_of
  outcome-IsResult used (return final) ends = final-IsResult used final (ends final refl)
  outcome-IsResult used (raise e) ends = raised-IsResult used e

  invoke-IsFinal :
      (moment : Moment) (model : Provider × String) (final : AgentState)
      → Appends rt.library
      → invoke rt registry moment model task ≡ return final
      → IsFinal (initial rt registry task).messages task.max_iterations final
  unfolding invoke initial
  invoke-IsFinal moment model final appends ran = elim (Bool-cases (rt.in_time moment task)) [
    | inl fast ↦
        run_graph-IsFinal rt.library (config_of rt registry model task) _ _ appends
          rt.recursion_limit moment call_model (initial rt registry task)
          (record { dialogue = begin; same_bound = refl }) (rw fast at ran)
    | inr slow ↦ cc (rw slow at ran)
  ]

  model_found-IsResult :
      (moment : Moment) (used : String) (model : Outcome (Provider × String)) {r : AgentResult}
      → Appends rt.library
      → (model >>= λ m. return (result_of rt registry task used (invoke rt registry moment m task)))
        ≡ return r
      → IsResult r
  model_found-IsResult moment used (return model) appends ran =
      subst IsResult (return-injective ran) (
        outcome-IsResult used (invoke rt registry moment model task)
          (λ final. invoke-IsFinal moment model final appends))
  model_found-IsResult moment used (raise e) appends ran = cc

  pub run_returns-IsResult :
      (moment : Moment) (router router' : ModelRouter) (r : AgentResult)
      → Appends rt.library
      → run rt registry moment task router ≡ (return r, router')
      → IsResult r
  unfolding run
  run_returns-IsResult moment router router' r appends ran =
      let got = get_model rt.use_stub_model task.task_type task.model_override router in
      model_found-IsResult moment got.1.last_model_used got.0 appends (ap (λ p. p.0) ran)

  -- A task whose model is found has a result, whatever the model, the tools and the clock do, and no
  -- exception leaves the run. The result carries the ids of the task and is completed, with the last
  -- reply of the model as its output and no call of a tool left open; or failed at the bound of the
  -- replies; or failed or timed out without output. Conditions: LangGraph's reducer appends.
  pub run-IsResult :
      (moment : Moment) (router : ModelRouter) {model : Provider × String}
      → Appends rt.library
      → (get_model rt.use_stub_model task.task_type task.model_override router).0 ≡ return model
      → (r : AgentResult) × (router' : ModelRouter) × (run rt registry moment task router
          ≡ (return r, router'))
        × IsResult r
  unfolding run
  run-IsResult moment router {model} appends found =
      let got = get_model rt.use_stub_model task.task_type task.model_override router in
      let ran =
        ap
          (λ o. (
            o >>= λ m. return (
                result_of rt registry task got.1.last_model_used
                  (invoke rt registry moment m task)),
            got.1,
          ))
          found in
      (_, _, ran, run_returns-IsResult moment router _ _ appends ran)
