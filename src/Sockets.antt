-- ===== src/Sockets.antt =====
-- services/websocket-service/src/{main,auth}.py and consumer/redis_consumer.py: clients join the rooms
-- of executions, and the events of the executions go to the rooms.
pub mod Invariant
pub mod Reachable
pub mod Isolation
pub mod Tests
use constructor.Prelude.{
  ℕ, String, Bool, false, not, ◌&&◌, Option, none, some, List, [], ◌∷◌, ◌++◌, Dict, lookup, insert,
  erase, ◌==◌, if◌then◌else◌,
}
use constructor.Json.{Value, Fields, null, str, obj, get, is_true}
use constructor.Json.Compare.{value_eq}
use constructor.Outcome.{raised, Outcome, return, raise, or_key_error, ◌>>=◌}
use constructor.Executions.Events.{StatusEvent}
use constructor.Executions.ResultConsumer.{Entry}

-- The session of a client.
pub record Session : Type 0 where
  pub tenant_id : Value
  pub user_id : Value

-- A client in a room.
pub record Member : Type 0 where
  pub sid : String
  pub room : Value

-- An error that was emitted to one client, and an event that was emitted to a room, with the clients
-- that were in it.
pub data Emission : Type 0 where
  error_to : String → ℕ → Emission
  update : StatusEvent → List String → Emission

pub record Server : Type 0 where
  pub sessions : Dict Session
  pub members : List Member
  pub emitted : List Emission
  pub acked : List String

-- `jwt.decode` of a token, with the exceptions that `verify_token` makes of its own; the query of the
-- owner of an execution; and `ExecutionStatusEvent.model_validate_json`.
pub record Outside : Type 0 where
  pub verify_token : Value → Outcome Fields
  pub tenant_of : Value → Outcome (Option String)
  pub parse_event : String → Option StatusEvent

-- Whether a member is not the client in the room.
abbrev pub is_other : String → Value → Member → Bool
is_other sid room m = not ((m.sid == sid) && value_eq m.room room)

unfoldable pub keep : (Member → Bool) → List Member → List Member
keep test [] = []
keep test (m ∷ ms) = let rest = keep test ms in if test m then m ∷ rest else rest

-- `sio.leave_room`
unfoldable pub leave_room : String → Value → List Member → List Member
unfolding keep
leave_room sid room ms = keep (is_other sid room) ms

-- `sio.enter_room`: a client is in a room once.
unfoldable pub enter_room : String → Value → List Member → List Member
unfolding leave_room
enter_room sid room ms = record { sid = sid; room = room } ∷ leave_room sid room ms

-- The clients in a room.
unfoldable pub clients_in : Value → List Member → List String
clients_in room [] = []
clients_in room (m ∷ ms) =
    let rest = clients_in room ms in if value_eq m.room room then m.sid ∷ rest else rest

module _ (out : Outside) where
  unfoldable pub refuse : String → ℕ → Server → Server
  refuse sid code s = record s { emitted = s.emitted ++ error_to sid code ∷ [] }

  -- `auth["token"]`, where it is there.
  unfoldable pub token_of : Value → Outcome Value
  token_of (obj auth) = elim (get "token" auth) [
    | none ↦ raise (raised "Missing token")
    | some token ↦ return token
  ]
  token_of _ = raise (raised "Missing token")

  unfoldable pub session_of : Fields → Outcome Session
  session_of payload = do
    tenant_id ← or_key_error "tenant_id" (get "tenant_id" payload)
    user_id ← or_key_error "sub" (get "sub" payload)
    return (record { tenant_id = tenant_id; user_id = user_id })

  -- `connect`: the session is written if the token is good, and else the connection is refused.
  unfoldable pub connect : String → Value → Server → Outcome (Unit {0}) × Server
  unfolding token_of session_of
  connect sid auth s =
      let session = token_of auth >>= λ token. out.verify_token token >>= session_of in
      elim session [
        | raise e ↦ (raise e, s)
        | return session ↦ (return tt, record s { sessions = insert sid session s.sessions })
      ]

  -- `data.get("execution_id") if isinstance(data, dict) else None`
  unfoldable pub execution_id_of : Value → Value
  execution_id_of (obj fields) = elim (get "execution_id" fields) [ none ↦ null | some v ↦ v ]
  execution_id_of _ = null

  -- Whether the client's tenant owns the execution.
  unfoldable pub owns : Option String → Option Session → Bool
  owns none session = false
  owns (some tenant) session =
      value_eq (str tenant) (elim session [ none ↦ null | some x ↦ x.tenant_id ])

  -- The part after the query of the owner.
  unfoldable pub admit : String → Value → Option String → Server → Server
  unfolding refuse owns enter_room
  admit sid execution_id tenant s =
      if owns tenant (lookup sid s.sessions)
      then record s { members = enter_room sid execution_id s.members }
      else refuse sid 403 s

  -- `join_execution`: a failure of the query raises out of the handler.
  unfoldable pub join_execution : String → Value → Server → Server
  unfolding execution_id_of admit refuse
  join_execution sid request s =
      let id = execution_id_of request in
      if is_true id
      then elim (out.tenant_of id) [ raise e ↦ s | return tenant ↦ admit sid id tenant s ]
      else refuse sid 400 s

  unfoldable pub leave_execution : String → Value → Server → Server
  unfolding execution_id_of leave_room
  leave_execution sid request s =
      let id = execution_id_of request in
      if is_true id then record s { members = leave_room sid id s.members } else s

  -- `disconnect` only logs; the library forgets the client's rooms and session.
  unfoldable pub disconnect : String → Server → Server
  unfolding keep
  disconnect sid s = record s {
    sessions = erase sid s.sessions;
    members = keep (λ m. not (m.sid == sid)) s.members;
  }

  unfoldable pub emit : Option StatusEvent → Server → Server
  emit none s = s
  emit (some event) s = record s {
    emitted = s.emitted ++ update event (clients_in (str event.execution_id) s.members) ∷ [];
  }

  -- `fields["data"]`, read as an event.
  unfoldable pub event_of : Entry → Option StatusEvent
  event_of e = elim e.body [ none ↦ none | some text ↦ out.parse_event text ]

  -- `_process`: an entry that cannot be read, or cannot be emitted, is acknowledged too.
  unfoldable pub process : Entry → Server → Server
  unfolding emit event_of
  process e s = let s' = emit (event_of e) s in record s' { acked = s'.acked ++ e.entry_id ∷ [] }
