-- ===== src/Sockets/Reachable.antt =====
-- What the server can do, in any order, and that its rooms stay isolated.
use constructor.Prelude.{String, ◌≡◌, refl, false, Option, none, some, [], All, ◌==◌}
use constructor.Json.{Value}
use constructor.Executions.Events.{StatusEvent}
use constructor.Executions.ResultConsumer.{Entry}
use constructor.Sockets.{
  Server, Outside, connect, join_execution, leave_execution, disconnect, emit, event_of, process,
}
use constructor.Sockets.Invariant.{
  IsIsolated, join-IsIsolated, leave_execution-IsIsolated, disconnect-IsIsolated,
  connect-IsIsolated,
}

module _ (out : Outside) where
  -- One thing that happens to the server. A client that connects has a new id, which is in no room.
  pub data Move : Server → Server → Type 0 where
    connects :
        {s : Server} (sid : String) (auth : Value)
        → All (λ m. (m.sid == sid) ≡ false) s.members
        → Move s (connect out sid auth s).1
    disconnects : {s : Server} (sid : String) → Move s (disconnect out sid s)
    joins :
        {s : Server} (sid : String) (request : Value) → Move s (join_execution out sid request s)
    leaves :
        {s : Server} (sid : String) (request : Value) → Move s (leave_execution out sid request s)
    processes : {s : Server} (e : Entry) → Move s (process out e s)

  -- What a server that starts without clients comes to.
  pub data Reachable : Server → Type 0 where
    starts : (s : Server) → s.members ≡ [] → Reachable s
    goes_on : {s s' : Server} → Reachable s → Move s s' → Reachable s'

  process-same :
      (e : Entry) (s : Server)
      → ((process out e s).members ≡ s.members) × ((process out e s).sessions ≡ s.sessions)
  unfolding process
  process-same e s = go (event_of out e)
    where
      go :
          (o : Option StatusEvent)
          → ((emit out o s).members ≡ s.members) × ((emit out o s).sessions ≡ s.sessions)
      go none = (refl, refl)
      go (some event) = (refl, refl)

  Move-IsIsolated : {s s' : Server} → Move s s' → IsIsolated out s → IsIsolated out s'
  Move-IsIsolated (connects {s = s} sid auth fresh) h = connect-IsIsolated out sid auth s fresh h
  Move-IsIsolated (disconnects {s = s} sid) h = disconnect-IsIsolated out sid s h
  Move-IsIsolated (joins {s = s} sid request) h = join-IsIsolated out sid request s h
  Move-IsIsolated (leaves {s = s} sid request) h = leave_execution-IsIsolated out sid request s h
  Move-IsIsolated (processes {s = s} e) h =
      let (members, sessions) = process-same e s in rw members (rw sessions h)

  pub Reachable-IsIsolated : {s : Server} → Reachable s → IsIsolated out s
  Reachable-IsIsolated (starts s none_in) = rw none_in tt
  Reachable-IsIsolated (goes_on before step) = Move-IsIsolated step (Reachable-IsIsolated before)
