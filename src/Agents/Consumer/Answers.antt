-- ===== src/Agents/Consumer/Answers.antt =====
-- Every entry is acknowledged, and every task that can be read is answered.
use mathlib.Core.List.{append_assoc, append-nil}
use constructor.Prelude.{
  ℕ, suc, ◌≡◌, refl, sym, ◌∙◌, ap, subst, true, false, Option, none, some, List, [], ◌∷◌, ◌++◌, map,
  All, Bool-cases, inl, inr, arith,
}
use constructor.Outcome.{Exception, raised, Outcome, return, raise}
use constructor.Executions.Events.{AgentTask, AgentResult}
use constructor.Executions.ResultConsumer.{Entry}
use constructor.Agents.Tools.{ToolRegistry}
use constructor.Agents.Graph.Steps.{Appends}
use constructor.Agents.Runner.{Runtime, run}
use constructor.Agents.Runner.Results.{SameTask, run_returns-IsResult}
use constructor.Agents.Consumer.{
  Worker, Services, deliver_if_run, attempt, failed_result, recover, work, read_task, process,
  process_all,
}

module _ (rt : Runtime) (registry : ToolRegistry) (sv : Services) where
  abbrev pub delivered : AgentTask → Outcome AgentResult → Worker → Worker
  delivered task o w = recover rt registry sv task (deliver_if_run rt registry sv task o w)

  module _ (task : AgentTask) (open_ : (n : ℕ) → sv.stream_accepts n ≡ true) where
    pub delivered-raise :
        (e : Exception) (w : Worker)
        → (delivered task (raise e) w).published
          ≡ w.published ++ failed_result rt registry sv task e ∷ []
    unfolding recover deliver_if_run
    delivered-raise e w = ground (arith, open_ w.effects)

    pub delivered-logged :
        (r : AgentResult) (w : Worker)
        → sv.log_accepts (suc w.effects) ≡ true
        → (delivered task (return r) w).published ≡ w.published ++ r ∷ []
    unfolding recover deliver_if_run
    delivered-logged r w logs = ground (arith, open_ w.effects)

    pub delivered-refused :
        (r : AgentResult) (w : Worker)
        → sv.log_accepts (suc w.effects) ≡ false
        → (delivered task (return r) w).published
          ≡ w.published ++ r ∷ failed_result rt registry sv task (raised "database") ∷ []
    unfolding recover deliver_if_run
    delivered-refused r w refuses = ground (
      arith,
      open_ w.effects,
      open_ (suc (suc w.effects)),
      append_assoc w.published (r ∷ [])
          (failed_result rt registry sv task (raised "database") ∷ []),
    )

  pub answer_of :
      (task : AgentTask) (w : Worker)
      → work rt registry sv (some task) w
        ≡ delivered task (run rt registry (w.effects ∷ []) task w.router).0 (record w {
          router = (run rt registry (w.effects ∷ []) task w.router).1;
          effects = suc w.effects;
        })
  unfolding work attempt
  answer_of task w = refl

  -- The results that a task is answered with.
  pub record Answers (task : AgentTask) (old new : List AgentResult) : Type 0 where
    pub first : AgentResult
    pub rest : List AgentResult
    pub published : new ≡ old ++ first ∷ rest
    pub same : SameTask task first
    pub same_rest : All (SameTask task) rest
    pub logged : ((n : ℕ) → sv.log_accepts n ≡ true) → rest ≡ []

  pub failed-SameTask :
      (task : AgentTask) (e : Exception) → SameTask task (failed_result rt registry sv task e)
  unfolding failed_result
  failed-SameTask task e = record {
    task_id = refl;
    execution_id = refl;
    tenant_id = refl;
    step_id = refl;
  }

  delivered-Answers :
      (task : AgentTask) (o : Outcome AgentResult) (w : Worker)
      → ((n : ℕ) → sv.stream_accepts n ≡ true)
      → ((r : AgentResult) → o ≡ return r → SameTask task r)
      → Answers task w.published (delivered task o w).published
  delivered-Answers task (raise e) w open_ same = record {
    first = failed_result rt registry sv task e;
    rest = [];
    published = delivered-raise task open_ e w;
    same = failed-SameTask task e;
    same_rest = tt;
    logged = λ _. refl;
  }
  delivered-Answers task (return r) w open_ same =
      elim (Bool-cases (sv.log_accepts (suc w.effects))) [
        | inl logs ↦ record {
          first = r;
          rest = [];
          published = delivered-logged task open_ r w logs;
          same = same r refl;
          same_rest = tt;
          logged = λ _. refl;
        }
        | inr refuses ↦ record {
          first = r;
          rest = failed_result rt registry sv task (raised "database") ∷ [];
          published = delivered-refused task open_ r w refuses;
          same = same r refl;
          same_rest = (failed-SameTask task (raised "database"), tt);
          logged = λ logs. cc (logs (suc w.effects));
        }
      ]

  -- A task that can be read is answered by at least one result with its ids, whatever its run does,
  -- and by exactly one if the log takes every row. Conditions: the stream of results takes every
  -- entry, and LangGraph's reducer appends.
  pub process-Answers :
      (e : Entry) (task : AgentTask) (w : Worker)
      → Appends rt.library
      → ((n : ℕ) → sv.stream_accepts n ≡ true)
      → read_task rt registry sv e ≡ some task
      → Answers task w.published (process rt registry sv e w).published
  unfolding process
  process-Answers e task w appends open_ read =
      let ran = run rt registry (w.effects ∷ []) task w.router in
      rw (read, process)
        (subst (λ w'. Answers task w.published w'.published) (sym (answer_of task w))
          (delivered-Answers task ran.0 _ open_ (λ r returned.
            (run_returns-IsResult rt registry task (w.effects ∷ []) w.router ran.1 r appends
              (ap (λ o. (o, ran.1)) returned)).same)))

  -- When the log refuses the row of a result, the task has a second result, which says that it
  -- failed, after the first. Conditions: the task can be read and its run returns, the stream
  -- takes every entry and the log none.
  pub process-two_results :
      (e : Entry) (task : AgentTask) (w : Worker) (r : AgentResult)
      → ((n : ℕ) → sv.stream_accepts n ≡ true)
      → ((n : ℕ) → sv.log_accepts n ≡ false)
      → read_task rt registry sv e ≡ some task
      → (run rt registry (w.effects ∷ []) task w.router).0 ≡ return r
      → (process rt registry sv e w).published
        ≡ w.published ++ r ∷ failed_result rt registry sv task (raised "database") ∷ []
  unfolding process
  process-two_results e task w r open_ refuses read returned =
      rw (read, process)
        (ap (λ w'. w'.published) (answer_of task w)
          ∙ rw returned (delivered-refused task open_ r _ (refuses _)))

  delivered-acked :
      (task : AgentTask) (o : Outcome AgentResult) (w : Worker)
      → (delivered task o w).acked ≡ w.acked
  unfolding recover deliver_if_run
  delivered-acked task (raise e) w = ground arith
  delivered-acked task (return r) w = ground arith

  work-acked : (task : Option AgentTask) (w : Worker) → (work rt registry sv task w).acked ≡ w.acked
  unfolding work
  work-acked none w = refl
  work-acked (some task) w = ap (λ w'. w'.acked) (answer_of task w) ∙ delivered-acked task _ _

  process-acked :
      (e : Entry) (w : Worker) → (process rt registry sv e w).acked ≡ w.acked ++ e.entry_id ∷ []
  unfolding process
  process-acked e w =
      ap (λ acks. acks ++ e.entry_id ∷ []) (work-acked (read_task rt registry sv e) w)

  -- Whatever a batch holds and whatever fails, each entry is acknowledged once, in order.
  pub process_all-acked :
      (es : List Entry) (w : Worker)
      → (process_all rt registry sv es w).acked ≡ w.acked ++ map (λ e. e.entry_id) es
  unfolding process_all
  process_all-acked [] w = sym (append-nil w.acked)
  process_all-acked (e ∷ es) w =
      process_all-acked es (process rt registry sv e w)
      ∙ (ap (λ acks. acks ++ map (λ x. x.entry_id) es) (process-acked e w)
          ∙ append_assoc w.acked (e.entry_id ∷ []) (map (λ x. x.entry_id) es))
