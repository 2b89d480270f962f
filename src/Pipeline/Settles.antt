-- ===== src/Pipeline/Settles.antt =====
-- The future of an agent step gets the answer of the agent service.
use constructor.Prelude.{
  ℕ, suc, String, ◌≡◌, refl, sym, ◌∙◌, ap, subst, true, Option, some, List, [], ◌∷◌, ◌++◌,
  get_elem?, Bool-cases, inl, inr,
}
use constructor.Prelude.{arith}
use constructor.Outcome.{Outcome, return, raise, runtime_error}
use constructor.Workflows.Steps.{Step}
use constructor.Executions.Events.{
  AgentTask, AgentResult, ProcessExecution, ResultStatus, completed, failed, timeout,
}
use constructor.Executions.Dispatcher.{
  Future, result, exception, is_done, Dispatcher, register_pending, settle, resolve_pending,
  reject_pending,
}
use constructor.Executions.Dispatcher.Settled.{
  Call, calls, calls-keeps_done, settle-keeps_done, register-settle,
}
use constructor.Executions.ResultConsumer.{
  Entry, Consumer, error_text, settle_by_status, handle_result, process_entries,
}
use constructor.Executions.ResultConsumer.Acks.{readable, handle_results, process_entries-effect}
use constructor.Executions.Session.{World}
use constructor.Executions.AgentStep.{agent_task}
use constructor.Agents.Tools.{ToolRegistry}
use constructor.Agents.Graph.Steps.{Appends}
use constructor.Agents.Runner.{Runtime, run}
use constructor.Agents.Runner.Results.{SameTask, run_returns-IsResult}
use constructor.Agents.Consumer.{Worker, Services, failed_result, read_task, process}
use constructor.Agents.Consumer.Answers.{
  delivered, delivered-raise, delivered-logged, delivered-refused, answer_of, failed-SameTask,
}

-- The outcome that a result gives its future.
abbrev pub settled_as : ResultStatus → AgentResult → Future
settled_as completed r = result r.output
settled_as failed r = exception (runtime_error (error_text r))
settled_as timeout r = exception (runtime_error (error_text r))

abbrev pub settled_by : AgentResult → Future
settled_by r = settled_as r.status r

settled_as-done : (s : ResultStatus) (r : AgentResult) → is_done (settled_as s r) ≡ true
settled_as-done completed r = refl
settled_as-done failed r = refl
settled_as-done timeout r = refl

settle_by_status-settle :
    (s : ResultStatus) (r : AgentResult) (d : Dispatcher)
    → settle_by_status s r d ≡ (settle r.execution_id (settled_as s r) d).1
unfolding resolve_pending reject_pending
settle_by_status-settle completed r d = refl
settle_by_status-settle failed r d = refl
settle_by_status-settle timeout r d = refl

handle_result-settle :
    (r : AgentResult) (d : Dispatcher)
    → handle_result r d ≡ (settle r.execution_id (settled_by r) d).1
unfolding handle_result
handle_result-settle r d = settle_by_status-settle r.status r d

handle_results-keeps_done :
    (rs : List AgentResult) (d : Dispatcher) (i : ℕ) {v : Future}
    → get_elem? d.futures i ≡ some v
    → is_done v ≡ true
    → get_elem? (handle_results rs d).futures i ≡ some v
handle_results-keeps_done [] d i found done = found
handle_results-keeps_done (r ∷ rs) d i {v} found done =
    handle_results-keeps_done rs (handle_result r d) i
      (subst (λ (d' : Dispatcher). get_elem? d'.futures i ≡ some v) (sym (handle_result-settle r d))
        (settle-keeps_done r.execution_id (settled_by r) d i found done))
      done

append-cancel : (old new rest : List AgentResult) → old ++ new ≡ old ++ rest → new ≡ rest
append-cancel [] new rest same = same
append-cancel (x ∷ old) new rest same = append-cancel old new rest (cc)

agent_task-execution_id :
    (w : World) (x : ProcessExecution) (step : Step) (n : ℕ) {task : AgentTask}
    → agent_task w x step n ≡ return task
    → task.execution_id ≡ x.id
unfolding agent_task
agent_task-execution_id w x step n made = ground arith

-- The result that the agent service answers a task with, for the outcome of its run.
abbrev pub answer :
    Runtime → ToolRegistry → Services → AgentTask → Outcome AgentResult → AgentResult
answer rt registry sv task (return r) = r
answer rt registry sv task (raise e) = failed_result rt registry sv task e

module _ (rt : Runtime) (registry : ToolRegistry) (sv : Services) where
  -- A task is answered first with the result of its run, and with more only if the log fails.
  delivered-answer :
      (task : AgentTask) (o : Outcome AgentResult) (w : Worker)
      → ((n : ℕ) → sv.stream_accepts n ≡ true)
      → (rest : List AgentResult) × ((delivered rt registry sv task o w).published
          ≡ w.published ++ answer rt registry sv task o ∷ rest)
  delivered-answer task (raise e) w open_ = ([], delivered-raise rt registry sv task open_ e w)
  delivered-answer task (return r) w open_ = elim (Bool-cases (sv.log_accepts (suc w.effects))) [
    | inl logs ↦ ([], delivered-logged rt registry sv task open_ r w logs)
    | inr refuses ↦ (_, delivered-refused rt registry sv task open_ r w refuses)
  ]

  -- The answer of the agent service to an entry, at the state of the service.
  abbrev pub answer_at : AgentTask → Worker → AgentResult
  answer_at task w = answer rt registry sv task (run rt registry (w.effects ∷ []) task w.router).0

  process-answer :
      (e : Entry) (task : AgentTask) (w : Worker)
      → ((n : ℕ) → sv.stream_accepts n ≡ true)
      → read_task rt registry sv e ≡ some task
      → (rest : List AgentResult) × ((process rt registry sv e w).published
          ≡ w.published ++ answer_at task w ∷ rest)
  unfolding process
  process-answer e task w open_ read =
      let (rest, delivers) =
        delivered-answer task (run rt registry (w.effects ∷ []) task w.router).0
          (record w {
            router = (run rt registry (w.effects ∷ []) task w.router).1;
            effects = suc w.effects;
          })
          open_ in
      (
        rest,
        rw (read, process) (ap (λ w'. w'.published) (answer_of rt registry sv task w) ∙ delivers),
      )

  answer-SameTask :
      (task : AgentTask) (w : Worker) → Appends rt.library → SameTask task (answer_at task w)
  answer-SameTask task w appends = go _ refl
    where
      go :
          (o : Outcome AgentResult)
          → (run rt registry (w.effects ∷ []) task w.router).0 ≡ o
          → SameTask task (answer rt registry sv task o)
      go (raise e) ran = failed-SameTask rt registry sv task e
      go (return r) ran =
          (run_returns-IsResult rt registry task (w.effects ∷ []) w.router
            (run rt registry (w.effects ∷ []) task w.router).1 r appends
            (ap (λ o. (o, (run rt registry (w.effects ∷ []) task w.router).1)) ran)).same

  -- An agent step of the executor that has made its task and registered its future: once the agent
  -- service has processed the entry of the task, and the consumer of results has handled a batch with
  -- what the service published, the future has the output of the run, or an exception if the run did
  -- not complete; and no later call changes that, also if the service has published a second result
  -- since the log refused the first. Conditions: the stream of results takes every entry, each side
  -- reads what the other wrote, and LangGraph's reducer appends.
  pub agent_step-settles :
      (wd : World) (x : ProcessExecution) (step : Step) (n : ℕ) (task : AgentTask) (d : Dispatcher)
      (e : Entry) (w : Worker) (parse : String → Option AgentResult) (es : List Entry)
      (c : Consumer) (cs : List Call)
      → Appends rt.library
      → ((m : ℕ) → sv.stream_accepts m ≡ true)
      → agent_task wd x step n ≡ return task
      → read_task rt registry sv e ≡ some task
      → c.dispatcher ≡ (register_pending x.id d).1
      → (process rt registry sv e w).published ≡ w.published ++ readable parse es
      → get_elem?
          (calls cs (process_entries parse es c).dispatcher).futures
          (register_pending x.id d).0
        ≡ some (settled_by (answer_at task w))
  agent_step-settles wd x step n task d e w parse es c cs appends open_ made read registered
        brings =
      let i = (register_pending x.id d).0 in
      let first = answer_at task w in
      let (rest, published) = process-answer e task w open_ read in
      let batch =
        append-cancel w.published (readable parse es) (first ∷ rest) (sym brings ∙ published) in
      let id =
        (answer-SameTask task w appends).execution_id ∙ agent_task-execution_id wd x step n made in
      let settled = (register-settle x.id (settled_by first) d).2 in
      let handled =
        subst (λ (d' : Dispatcher). get_elem? d'.futures i ≡ some (settled_by first))
          (ap (λ k. (settle k (settled_by first) (register_pending x.id d).1).1) (sym id)
            ∙ sym (handle_result-settle first (register_pending x.id d).1))
          settled in
      let after_batch =
        subst (λ (d' : Dispatcher). get_elem? d'.futures i ≡ some (settled_by first))
          (sym (
            (process_entries-effect parse es c).0
            ∙ (ap (λ rs. handle_results rs c.dispatcher) batch
                ∙ ap (handle_results (first ∷ rest)) registered)))
          (handle_results-keeps_done rest _ i handled (settled_as-done first.status first)) in
      calls-keeps_done cs (process_entries parse es c).dispatcher i after_batch
        (settled_as-done first.status first)
