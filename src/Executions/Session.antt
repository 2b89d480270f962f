-- ===== src/Executions/Session.antt =====
-- services/platform-api/src/executions/executor.py, lines 17 to 35: what an execution of a workflow
-- stands in (the session of the database, the streams of Redis, the dispatcher), and the statements
-- that every part of the executor uses.
pub mod Keeps
pub mod Progress
use constructor.Prelude.{ℕ, suc, String, Bool, List, [], ◌∷◌, ◌++◌, Dict, insert, if◌then◌else◌}
use constructor.Prelude.Int.{ℤ}
use constructor.Json.{Value, Fields}
use constructor.Outcome.{Exception, Outcome, return, raise}
use constructor.Workflows.Steps.{Uuid, ProcessDefinition}
use constructor.Executions.Events.{AgentTask, ProcessExecution, StatusEvent}
use constructor.Executions.Dispatcher.{Dispatcher}

-- What the executor takes from outside. Times, UUIDs and the success of a write to Redis are read
-- at a counter of effects, so that two uses may differ.
pub record World : Type 0 where
  -- `datetime.now`
  pub clock : ℕ → ℕ
  -- whether `xadd` succeeds
  pub accepts : ℕ → Bool
  -- `uuid.uuid4`
  pub new_uuid : ℕ → Uuid
  -- `str(exc)`
  pub text_of : Exception → String
  -- a value in an f-string
  pub format : Value → String
  -- pydantic's conversions of the fields of `AgentTask`
  pub to_text : Value → Outcome String
  pub to_texts : Value → Outcome (List String)
  pub to_int : Value → Outcome ℤ
  -- What the wait for a future brings: the output, or the exception of the future, or
  -- `TimeoutError`; and the dispatcher as the other tasks leave it meanwhile.
  pub await_future : ℕ → AgentTask → Dispatcher → Outcome Fields × Dispatcher

-- The steps that compute: `evaluate_condition` and `apply_transform`.
pub record Handlers : Type 0 where
  pub evaluate_condition : Fields → Fields → Outcome Value
  pub apply_transform : Fields → Fields → Outcome Fields

-- The two tables, the streams with the entries of this execution, the dispatcher, and the counter.
pub record System : Type 0 where
  pub executions : Dict ProcessExecution
  pub definitions : Dict ProcessDefinition
  pub statuses : List StatusEvent
  pub tasks : List AgentTask
  pub dispatcher : Dispatcher
  pub effects : ℕ

-- The object `execution` of the session, with what it stands in.
pub record Run : Type 0 where
  pub execution : ProcessExecution
  pub system : System
  pub open system use *

abbrev pub Action : Type 0 → Type 0
Action A = Run → Outcome A × Run

module _ {A : Type 0} where
  pub pure : A → Action A
  pure a r = (return a, r)

  pub lift : Outcome A → Action A
  lift o r = (o, r)

  -- A call that reads the state.
  pub reads : (Run → Outcome A) → Action A
  reads f r = (f r, r)

pub modify : (Run → Run) → Action (Unit {0})
modify f r = (return tt, f r)

module _ {A B : Type 0} where
  abbrev pub and_then : Outcome A → (A → Action B) → Action B
  and_then (return a) f r = f a r
  and_then (raise e) f r = (raise e, r)

  infixl 10 ◌>>=◌ ◌>>◌
  -- Opening this opens `pure`, `lift`, `reads` and `modify` too.
  unfoldable pub ◌>>=◌ : Action A → (A → Action B) → Action B
  unfolding pure lift reads modify
  ◌>>=◌ m f r = let (o, r') = m r in and_then o f r'

  abbrev pub ◌>>◌ : Action A → Action B → Action B
  m >> k = m >>= λ _. k

-- `await db.commit()`: the row of the execution is written. A commit is taken to succeed.
unfoldable pub commit : Action (Unit {0})
commit r = (
  return tt,
  record r {
    system = record r.system { executions = insert r.execution.id r.execution r.system.executions };
  },
)

module _ (w : World) where
  pub event_of : ProcessExecution → ℕ → StatusEvent
  event_of x n = record {
    execution_id = x.id;
    tenant_id = x.tenant_id;
    status = x.status;
    current_step_id = x.current_step_id;
    context = x.context;
    timestamp = w.clock n;
  }

  -- `_publish_status_change`: a failure of Redis is logged and goes no further.
  unfoldable pub publish_status_change : Action (Unit {0})
  unfolding event_of
  publish_status_change r = (
    return tt,
    record r {
      system = record r.system {
        statuses =
            r.statuses ++ (if w.accepts r.effects then event_of r.execution r.effects ∷ [] else []);
        effects = suc r.effects;
      };
    },
  )
