-- ===== src/Executions/Dispatcher/Settled.antt =====
-- Futures are settled at most once, whatever results arrive and in whatever order.
use constructor.Prelude.{
  set, get_elem?-set_self, ℕ, zero, suc, String, ◌≡◌, refl, true, false, none, some, List, [], ◌∷◌,
  ◌++◌, length, get_elem?, Option-cases, inl, inr, lookup, erase, arith, erase_absent,
  lookup-erase_self, lookup-insert_self,
}
use constructor.Json.{Fields}
use constructor.Workflows.Steps.{Uuid}
use constructor.Outcome.{runtime_error}
use constructor.Executions.Dispatcher.{
  Future, unsettled, result, exception, cancelled, is_done, settle_future, Dispatcher,
  register_pending, settle, resolve_pending, reject_pending, cancel,
}

-- A future that is done keeps its outcome when an unsettled one is written.
get_elem?-set_done :
    (fs : List Future) (i j : ℕ) (v : Future) {w : Future}
    → get_elem? fs i ≡ some unsettled
    → get_elem? fs j ≡ some w
    → is_done w ≡ true
    → get_elem? (set fs i v) j ≡ some w
get_elem?-set_done [] i j v hi hj d = cc
get_elem?-set_done (f ∷ fs) zero zero v hi hj d = ground arith
get_elem?-set_done (f ∷ fs) zero (suc j) v hi hj d = hj
get_elem?-set_done (f ∷ fs) (suc i) zero v hi hj d = hj
get_elem?-set_done (f ∷ fs) (suc i) (suc j) v hi hj d = get_elem?-set_done fs i j v hi hj d

get_elem?-append_left :
    (fs gs : List Future) (j : ℕ) {w : Future}
    → get_elem? fs j ≡ some w
    → get_elem? (fs ++ gs) j ≡ some w
get_elem?-append_left [] gs j h = cc
get_elem?-append_left (f ∷ fs) gs zero h = h
get_elem?-append_left (f ∷ fs) gs (suc j) h = get_elem?-append_left fs gs j h

pub get_elem?-append_end :
    (fs : List Future) (v : Future) → get_elem? (fs ++ v ∷ []) (length fs) ≡ some v
get_elem?-append_end [] v = refl
get_elem?-append_end (f ∷ fs) v = get_elem?-append_end fs v

-- One call of the dispatcher, by the executor or by the consumer of results.
pub data Call : Type 0 where
  register : Uuid → Call
  resolve : Uuid → Fields → Call
  reject : Uuid → String → Call
  time_out : ℕ → Call

unfoldable pub call : Call → Dispatcher → Dispatcher
call (register id) d = (register_pending id d).1
call (resolve id output) d = (resolve_pending id output d).1
call (reject id error) d = (reject_pending id error d).1
call (time_out future) d = cancel future d

unfoldable pub calls : List Call → Dispatcher → Dispatcher
unfolding call
calls [] d = d
calls (c ∷ cs) d = calls cs (call c d)

settle_future-keeps_done :
    (v : Future) (i : ℕ) (fs : List Future) (j : ℕ) {w : Future}
    → get_elem? fs j ≡ some w
    → is_done w ≡ true
    → get_elem? (settle_future v i fs).1 j ≡ some w
unfolding settle_future
settle_future-keeps_done v i fs j {w} h done = ground (arith, get_elem?-set_done fs i j v {w = w})

settle_future-unsettled :
    (v : Future) (i : ℕ) (fs : List Future)
    → get_elem? fs i ≡ some unsettled
    → ((settle_future v i fs).0 ≡ true) × (get_elem? (settle_future v i fs).1 i ≡ some v)
unfolding settle_future
settle_future-unsettled v i fs h = ground (arith, get_elem?-set_self fs i v {w = unsettled})

pub settle-found :
    (id : Uuid) (v : Future) (d : Dispatcher) (i : ℕ)
    → lookup id d.pending ≡ some i
    → settle id v d ≡ (
      (settle_future v i d.futures).0,
      record { pending = erase id d.pending; futures = (settle_future v i d.futures).1 },
    )
unfolding settle
settle-found id v d i found = rw (found, settle)

pub settle-absent :
    (id : Uuid) (v : Future) (d : Dispatcher)
    → lookup id d.pending ≡ none
    → settle id v d ≡ (false, d)
unfolding settle
settle-absent id v d absent = rw (absent, settle) (rw (erase_absent id d.pending absent))

pub settle-keeps_done :
    (id : Uuid) (v : Future) (d : Dispatcher) (j : ℕ) {w : Future}
    → get_elem? d.futures j ≡ some w
    → is_done w ≡ true
    → get_elem? (settle id v d).1.futures j ≡ some w
settle-keeps_done id v d j h done = elim (Option-cases (lookup id d.pending)) [
  | inl absent ↦ rw (settle-absent id v d absent) h
  | inr (i, found) ↦
      rw (settle-found id v d i found) (settle_future-keeps_done v i d.futures j h done)
]

call-keeps_done :
    (c : Call) (d : Dispatcher) (j : ℕ) {w : Future}
    → get_elem? d.futures j ≡ some w
    → is_done w ≡ true
    → get_elem? (call c d).futures j ≡ some w
unfolding call register_pending resolve_pending reject_pending cancel
call-keeps_done (register id) d j h done = get_elem?-append_left d.futures _ j h
call-keeps_done (resolve id output) d j h done = settle-keeps_done id (result output) d j h done
call-keeps_done (reject id error) d j h done =
    settle-keeps_done id (exception (runtime_error error)) d j h done
call-keeps_done (time_out i) d j h done = settle_future-keeps_done cancelled i d.futures j h done

-- A future that has a result, has an exception or is cancelled stays as it is through any calls of
-- the dispatcher: registrations, resolutions, rejections and timeouts in any order.
pub calls-keeps_done :
    (cs : List Call) (d : Dispatcher) (j : ℕ) {w : Future}
    → get_elem? d.futures j ≡ some w
    → is_done w ≡ true
    → get_elem? (calls cs d).futures j ≡ some w
unfolding calls
calls-keeps_done [] d j h done = h
calls-keeps_done (c ∷ cs) d j h done =
    calls-keeps_done cs (call c d) j (call-keeps_done c d j h done) done

settle-takes_out :
    (id : Uuid) (v : Future) (d : Dispatcher) → lookup id (settle id v d).1.pending ≡ none
settle-takes_out id v d = elim (Option-cases (lookup id d.pending)) [
  | inl absent ↦ rw (settle-absent id v d absent) absent
  | inr (i, found) ↦ rw (settle-found id v d i found) (lookup-erase_self id d.pending)
]

-- The result that arrives second for an execution, whatever the first and the second are, answers
-- `false` and changes nothing, unless the execution is registered again in between.
settle_twice :
    (id : Uuid) (first second : Future) (d : Dispatcher)
    → settle id second (settle id first d).1 ≡ (false, (settle id first d).1)
settle_twice id first second d =
    settle-absent id second (settle id first d).1 (settle-takes_out id first d)

-- Right after a registration, a result settles the registered future: the answer is `true`, and the
-- future, which was new and unsettled, has the outcome.
pub register-settle :
    (id : Uuid) (v : Future) (d : Dispatcher)
    → let (future, registered) = register_pending id d in
      ((settle id v registered).0 ≡ true)
      × (get_elem? registered.futures future ≡ some unsettled)
      × (get_elem? (settle id v registered).1.futures future ≡ some v)
unfolding register_pending
register-settle id v d =
    let i = length d.futures in
    let registered = (register_pending id d).1 in
    let new = get_elem?-append_end d.futures unsettled in
    let settled = settle_future-unsettled v i (d.futures ++ unsettled ∷ []) new in
    rw (settle-found id v registered i (lookup-insert_self id i d.pending))
      (settled.0, new, settled.1)
