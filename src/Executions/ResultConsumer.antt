-- ===== src/Executions/ResultConsumer.antt =====
-- services/platform-api/src/executions/redis_consumer.py: the entries of the result stream settle
-- the futures. Here `xack` does not fail; Loop has one that does, and the readings of the stream.
pub mod Acks
pub mod Loop
use constructor.Prelude.{String, Option, none, some, List, [], ◌∷◌, ◌++◌, ◌==◌, if◌then◌else◌}
use constructor.Outcome.{concat}
use constructor.Executions.Events.{AgentResult, ResultStatus, completed, failed, timeout}
use constructor.Executions.Dispatcher.{Dispatcher, resolve_pending, reject_pending}

-- One entry of the stream: its id, and the text of its field "data", if it has one.
pub record Entry : Type 0 where
  pub entry_id : String
  pub body : Option String

pub record Consumer : Type 0 where
  pub dispatcher : Dispatcher
  pub acked : List String

abbrev status_text : ResultStatus → String
status_text completed = "completed"
status_text failed = "failed"
status_text timeout = "timeout"

-- `result.error or f"Agent {result.status}"`
unfoldable pub error_text : AgentResult → String
error_text r = elim r.error [
  | none ↦ concat "Agent " (status_text r.status) ""
  | some e ↦ if e == "" then concat "Agent " (status_text r.status) "" else e
]

abbrev pub settle_by_status : ResultStatus → AgentResult → Dispatcher → Dispatcher
settle_by_status completed r d = (resolve_pending r.execution_id r.output d).1
settle_by_status _ r d = (reject_pending r.execution_id (error_text r) d).1

unfoldable pub handle_result : AgentResult → Dispatcher → Dispatcher
unfolding error_text
handle_result r d = settle_by_status r.status r d

-- An entry that cannot be read raises, and the handler of the exception only logs it.
unfoldable pub handle_if_read : Option AgentResult → Dispatcher → Dispatcher
unfolding handle_result
handle_if_read none d = d
handle_if_read (some r) d = handle_result r d

-- `parse` is `AgentResult.model_validate_json`, with `none` for a text that it refuses.
module _ (parse : String → Option AgentResult) where
  unfoldable pub read_result : Entry → Option AgentResult
  read_result e = elim e.body [ none ↦ none | some text ↦ parse text ]

  -- The body of the inner loop: an entry that cannot be read is acknowledged too.
  unfoldable pub process_entry : Entry → Consumer → Consumer
  unfolding handle_if_read read_result
  process_entry e c = record {
    dispatcher = handle_if_read (read_result e) c.dispatcher;
    acked = c.acked ++ e.entry_id ∷ [];
  }

  -- The entries of one reading of the stream.
  unfoldable pub process_entries : List Entry → Consumer → Consumer
  unfolding process_entry
  process_entries [] c = c
  process_entries (e ∷ es) c = process_entries es (process_entry e c)
