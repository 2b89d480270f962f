-- ===== src/Agents/Consumer.antt =====
-- services/agent-orchestration/src/consumer/redis_consumer.py, with what it writes to: the stream of
-- results (publisher/result_publisher.py) and the log of the database (memory/long_term.py).
-- Acknowledging an entry is taken to succeed.
pub mod Answers
use constructor.Prelude.{
  ℕ, suc, String, Bool, Option, none, some, List, [], ◌∷◌, ◌++◌, if◌then◌else◌,
}
use constructor.Json.{end}
use constructor.Outcome.{Exception, raised, Outcome, return, raise}
use constructor.Workflows.Steps.{Uuid}
use constructor.Executions.Events.{AgentTask, AgentResult, ResultStatus, failed}
use constructor.Executions.ResultConsumer.{Entry}
use constructor.Agents.Tools.{ToolRegistry}
use constructor.Agents.ModelRouter.{ModelRouter}
use constructor.Agents.Runner.{Runtime, run}

-- A row of `agent_execution_logs`.
pub record LogRow : Type 0 where
  pub tenant_id : Uuid
  pub execution_id : Uuid
  pub step_id : String
  pub task_id : Uuid
  pub model_used : String
  pub tokens_used : ℕ
  pub iterations : ℕ
  pub status : ResultStatus

pub record Worker : Type 0 where
  pub router : ModelRouter
  pub published : List AgentResult
  pub log : List LogRow
  pub acked : List String
  pub effects : ℕ

-- Whether the stream and the database take a write, and `AgentTask.model_validate_json`.
pub record Services : Type 0 where
  pub stream_accepts : ℕ → Bool
  pub log_accepts : ℕ → Bool
  pub parse : String → Option AgentTask

module _ (rt : Runtime) (registry : ToolRegistry) (sv : Services) where
  -- `publisher.publish`
  unfoldable pub publish : AgentResult → Worker → Outcome (Unit {0}) × Worker
  publish r w =
      if sv.stream_accepts w.effects
      then (return tt, record w { published = w.published ++ r ∷ []; effects = suc w.effects })
      else (raise (raised "redis"), record w { effects = suc w.effects })

  -- `long_term.write`
  unfoldable pub write_log : AgentTask → AgentResult → Worker → Outcome (Unit {0}) × Worker
  write_log task r w =
      if sv.log_accepts w.effects
      then (
        return tt,
        record w {
          log =
              w.log
              ++ record {
                tenant_id = task.tenant_id;
                execution_id = task.execution_id;
                step_id = task.step_id;
                task_id = task.task_id;
                model_used = r.model_used;
                tokens_used = r.tokens_used;
                iterations = r.iterations;
                status = r.status;
              }
                ∷ [];
          effects = suc w.effects;
        },
      )
      else (raise (raised "database"), record w { effects = suc w.effects })

  -- What follows a result: publish it, then log it.
  unfoldable pub deliver : AgentTask → AgentResult → Worker → Outcome (Unit {0}) × Worker
  unfolding publish write_log
  deliver task r w =
      let (sent, w') = publish r w in
      elim sent [ raise e ↦ (raise e, w') | return _ ↦ write_log task r w' ]

  unfoldable pub deliver_if_run :
      AgentTask → Outcome AgentResult → Worker → Outcome (Unit {0}) × Worker
  unfolding deliver
  deliver_if_run task (raise e) w = (raise e, w)
  deliver_if_run task (return r) w = deliver task r w

  -- The body of the `try`, once the task is read.
  unfoldable pub attempt : AgentTask → Worker → Outcome (Unit {0}) × Worker
  unfolding deliver_if_run
  attempt task w =
      let (result, router) = run rt registry (w.effects ∷ []) task w.router in
      deliver_if_run task result (record w { router = router; effects = suc w.effects })

  unfoldable pub failed_result : AgentTask → Exception → AgentResult
  failed_result task e = record {
    task_id = task.task_id;
    execution_id = task.execution_id;
    tenant_id = task.tenant_id;
    step_id = task.step_id;
    status = failed;
    output = end;
    tokens_used = 0;
    model_used = "";
    iterations = 0;
    error = some (rt.library.text_of e);
  }

  -- The handler of exceptions; its own failure to publish is only logged.
  unfoldable pub recover : AgentTask → Outcome (Unit {0}) × Worker → Worker
  unfolding publish failed_result
  recover task (return _, w) = w
  recover task (raise e, w) = (publish (failed_result task e) w).1

  unfoldable pub work : Option AgentTask → Worker → Worker
  unfolding attempt recover
  work none w = w
  work (some task) w = recover task (attempt task w)

  -- `fields["data"]`, read as a task.
  unfoldable pub read_task : Entry → Option AgentTask
  read_task e = elim e.body [ none ↦ none | some text ↦ sv.parse text ]

  -- `_process`
  unfoldable pub process : Entry → Worker → Worker
  unfolding work read_task
  process e w = let w' = work (read_task e) w in record w' { acked = w'.acked ++ e.entry_id ∷ [] }

  -- The entries of one reading of the stream.
  unfoldable pub process_all : List Entry → Worker → Worker
  unfolding process
  process_all [] w = w
  process_all (e ∷ es) w = process_all es (process e w)
