-- ===== src/Sockets/Isolation.antt =====
-- Clients see the executions of their own tenant alone.
use constructor.Prelude.{
  String, ◌≡◌, refl, sym, ap, subst, Bool, true, some, List, [], ◌∷◌, ◌++◌, ◌⊎◌, Dict, elem,
  eq_refl, All, All-map, if◌then◌else◌, Bool-cases, inl, inr, arith,
}
use constructor.Json.{str}
use constructor.Json.Compare.{value_eq}
use constructor.Executions.Events.{StatusEvent}
use constructor.Executions.ResultConsumer.{Entry}
use constructor.Sockets.{
  Session, Member, update, Server, Outside, clients_in, emit, event_of, process,
}
use constructor.Sockets.Invariant.{value_eq-str, Owns}
use constructor.Sockets.Reachable.{Reachable, Reachable-IsIsolated}

module _ (out : Outside) where
  clients-own :
      (sessions : Dict Session) (x : String) (ms : List Member)
      → All (λ m. Owns out sessions m.sid m.room) ms
      → All (λ sid. Owns out sessions sid (str x)) (clients_in (str x) ms)
  unfolding clients_in
  clients-own sessions x [] all = tt
  clients-own sessions x (m ∷ ms) (o, os) = elim (Bool-cases (value_eq m.room (str x))) [
    | inl here ↦
        rw (here, clients_in)
          (
            subst (Owns out sessions m.sid) (value_eq-str m.room x here) o,
            clients-own sessions x ms os,
          )
    | inr there ↦ rw (there, clients_in) (clients-own sessions x ms os)
  ]

  -- A member of the room is among its clients.
  abbrev pub IsReached : String → List String → Member → Type 0
  IsReached x clients m = value_eq m.room (str x) ≡ true → elem m.sid clients ≡ true

  -- A client is a member of the room.
  abbrev pub IsIn : String → List Member → String → Type 0
  IsIn x [] sid = ⊥
  IsIn x (m ∷ ms) sid = ((m.sid ≡ sid) × (m.room ≡ str x)) ⊎ IsIn x ms sid

  clients-IsIn : (x : String) (ms : List Member) → All (IsIn x ms) (clients_in (str x) ms)
  unfolding clients_in
  clients-IsIn x [] = tt
  clients-IsIn x (m ∷ ms) =
      let rest =
        All-map (IsIn x ms) (IsIn x (m ∷ ms)) (clients_in (str x) ms) (λ sid there. inr there)
          (clients-IsIn x ms) in
      elim (Bool-cases (value_eq m.room (str x))) [
        | inl here ↦ rw (here, clients_in) (inl (refl, value_eq-str m.room x here), rest)
        | inr other ↦ rw (other, clients_in) rest
      ]

  clients_in-eq :
      (x : String) (m : Member) (ms : List Member) {b : Bool}
      → value_eq m.room (str x) ≡ b
      → clients_in (str x) (m ∷ ms)
        ≡ (if b then m.sid ∷ clients_in (str x) ms else clients_in (str x) ms)
  unfolding clients_in
  clients_in-eq x m ms same = rw (same, clients_in) refl

  IsReached-by_more :
      (x : String) (sid : String) (clients : List String) (m : Member)
      → IsReached x clients m
      → IsReached x (sid ∷ clients) m
  unfolding elem
  IsReached-by_more x sid clients m reached at_room = rw (reached at_room) (ground arith)

  clients-IsReached : (x : String) (ms : List Member) → All (IsReached x (clients_in (str x) ms)) ms
  clients-IsReached x [] = tt
  clients-IsReached x (m ∷ ms) = elim (Bool-cases (value_eq m.room (str x))) [
    | inl here ↦
        subst (λ cs. All (IsReached x cs) (m ∷ ms)) (sym (clients_in-eq x m ms here))
          (
            λ _. unfold elem in ground (arith, eq_refl m.sid),
            All-map _ _ ms (IsReached-by_more x m.sid (clients_in (str x) ms))
                (clients-IsReached x ms),
          )
    | inr there ↦
        subst (λ cs. All (IsReached x cs) (m ∷ ms)) (sym (clients_in-eq x m ms there))
          ((λ at_room. cc), clients-IsReached x ms)
  ]

  -- In whatever order clients connect, join, leave and go and events arrive: an event of an execution
  -- is emitted to clients that are connected and whose session has the tenant that owns the
  -- execution, to all that are in its room and to no others; and its entry is acknowledged.
  pub process-isolates :
      (s : Server) (e : Entry) (event : StatusEvent)
      → Reachable out s
      → event_of out e ≡ some event
      → (clients : List String) × ((process out e s).emitted
          ≡ s.emitted ++ update event clients ∷ [])
        × ((process out e s).acked ≡ s.acked ++ e.entry_id ∷ [])
        × All (λ sid. Owns out s.sessions sid (str event.execution_id)) clients
        × All (IsIn event.execution_id s.members) clients
        × All (IsReached event.execution_id clients) s.members
  unfolding process
  process-isolates s e event reached read = (
    clients_in (str event.execution_id) s.members,
    ap (λ o. (emit out o s).emitted) read,
    ap (λ o. (emit out o s).acked ++ e.entry_id ∷ []) read,
    clients-own s.sessions event.execution_id s.members (Reachable-IsIsolated out reached),
    clients-IsIn event.execution_id s.members,
    clients-IsReached event.execution_id s.members,
  )
