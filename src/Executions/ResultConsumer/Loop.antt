-- ===== src/Executions/ResultConsumer/Loop.antt =====
-- services/platform-api/src/executions/redis_consumer.py: the endless loop around the readings of the
-- stream, and what a refused acknowledgement does to it.
pub mod Prefixes
pub mod Tests
use constructor.Prelude.{ℕ, suc, String, Option, none, some, List, [], ◌∷◌, ◌++◌}
use constructor.Executions.Events.{AgentResult}
use constructor.Executions.ResultConsumer.{Entry, Consumer, read_result, handle_result}

-- What `xreadgroup` comes to: entries that nobody has read before, an exception of Redis, or that of
-- the end of the service.
pub data Reading : Type 0 where
  entries : List Entry → Reading
  redis_error cancelled : Reading

-- What `xack` comes to: it returns, raises an exception of Redis, or the end of the service reaches
-- it (`CancelledError`, which is no `Exception`).
pub data Ack : Type 0 where
  taken refused ended : Ack

-- How the handling of an entry, or of a reading, is left: at its end, by an exception, or by the end
-- of the service.
pub data Left : Type 0 where
  went_on failed stopped : Left

-- The consumer, and the number of acknowledgements that it has tried.
pub record Group : Type 0 where
  pub consumer : Consumer
  pub tried : ℕ

abbrev pub left_by : Ack → Left
left_by taken = went_on
left_by refused = failed
left_by ended = stopped

abbrev pub acked_by : Ack → Entry → List String → List String
acked_by taken e ids = ids ++ e.entry_id ∷ []
acked_by refused e ids = ids
acked_by ended e ids = ids

-- `parse` is `AgentResult.model_validate_json`, and `acks` what the acknowledgements come to, by their
-- number.
module _ (parse : String → Option AgentResult) (acks : ℕ → Ack) where
  unfoldable pub xack : Entry → Group → Left × Group
  xack e g = (
    left_by (acks g.tried),
    record {
      consumer = record {
        dispatcher = g.consumer.dispatcher;
        acked = acked_by (acks g.tried) e g.consumer.acked;
      };
      tried = suc g.tried;
    },
  )

  -- The `try` of the inner loop and its `except`, which acknowledges the entry again; what that
  -- raises goes on to the outer loop.
  unfoldable pub retry : Entry → Left × Group → Left × Group
  unfolding xack
  retry e (went_on, g) = (went_on, g)
  retry e (failed, g) = xack e g
  retry e (stopped, g) = (stopped, g)

  unfoldable pub process_read : Entry → Option AgentResult → Group → Left × Group
  unfolding retry handle_result
  process_read e none g = xack e g
  process_read e (some r) g = retry e (
      xack e (record g {
        consumer = record {
          dispatcher = handle_result r g.consumer.dispatcher;
          acked = g.consumer.acked;
        };
      }))

  -- The entries of a reading: an exception leaves the rest of them.
  unfoldable pub process_batch : List Entry → Group → Left × Group
  unfolding process_read read_result
  process_batch [] g = (went_on, g)
  process_batch (e ∷ es) g =
      let (left, g') = process_read e (read_result parse e) g in
      elim left [ went_on ↦ process_batch es g' | failed ↦ (failed, g') | stopped ↦ (stopped, g') ]

  -- `start_result_consumer`: an exception is logged, and the next reading follows; the end of the
  -- service leaves the loop.
  unfoldable pub consume : List Reading → Group → Group
  unfolding process_batch
  consume [] g = g
  consume (entries es ∷ readings) g =
      let (left, g') = process_batch es g in
      elim left [ went_on ↦ consume readings g' | failed ↦ consume readings g' | stopped ↦ g' ]
  consume (redis_error ∷ readings) g = consume readings g
  consume (cancelled ∷ readings) g = g
