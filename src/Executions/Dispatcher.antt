-- ===== src/Executions/Dispatcher.antt =====
-- services/platform-api/src/executions/dispatcher.py: the futures that wait for agent results. A
-- future is an object that the executor and the table `_pending` share, so the futures live on a
-- heap and are named by their index.
pub mod Settled
use constructor.Prelude.{
  set, ℕ, String, Bool, true, false, none, some, List, [], ◌∷◌, ◌++◌, length, get_elem?, Dict,
  lookup, insert, erase,
}
use constructor.Json.{Fields}
use constructor.Workflows.Steps.{Uuid}
use constructor.Outcome.{Exception, runtime_error}

pub data Future : Type 0 where
  unsettled : Future
  result : Fields → Future
  exception : Exception → Future
  cancelled : Future

-- `future.done()`
abbrev pub is_done : Future → Bool
is_done unsettled = false
is_done _ = true

pub record Dispatcher : Type 0 where
  pub pending : Dict ℕ
  pub futures : List Future

unfoldable pub register_pending : Uuid → Dispatcher → ℕ × Dispatcher
register_pending execution_id d =
    let future = length d.futures in
    (
      future,
      record {
        pending = insert execution_id future d.pending;
        futures = d.futures ++ unsettled ∷ [];
      },
    )

-- `if not future.done()`: settle it, and say whether that was done.
unfoldable pub settle_future : Future → ℕ → List Future → Bool × List Future
settle_future outcome i fs = elim (get_elem? fs i) [
  | some unsettled ↦ (true, set fs i outcome)
  | _ ↦ (false, fs)
]

-- The part that `resolve_pending` and `reject_pending` share: take the future out of the table, and
-- settle it unless it is done.
unfoldable pub settle : Uuid → Future → Dispatcher → Bool × Dispatcher
unfolding settle_future
settle execution_id outcome d =
    let rest = erase execution_id d.pending in
    elim (lookup execution_id d.pending) [
      | none ↦ (false, record d { pending = rest })
      | some i ↦
          let (settled, fs) = settle_future outcome i d.futures in
          (settled, record { pending = rest; futures = fs })
    ]

unfoldable pub resolve_pending : Uuid → Fields → Dispatcher → Bool × Dispatcher
unfolding settle
resolve_pending execution_id output d = settle execution_id (result output) d

unfoldable pub reject_pending : Uuid → String → Dispatcher → Bool × Dispatcher
unfolding settle
reject_pending execution_id error d = settle execution_id (exception (runtime_error error)) d

-- What `asyncio.wait_for` does to the future at its timeout. The table keeps its entry.
unfoldable pub cancel : ℕ → Dispatcher → Dispatcher
unfolding settle_future
cancel i d = record d { futures = (settle_future cancelled i d.futures).1 }
