-- ===== src/Sockets/Tests.antt =====
-- The theorem about rooms at two clients.
use constructor.Prelude.{
  String, ◌≡◌, refl, none, some, List, [], ◌∷◌, ◌++◌, All, lookup, insert, ◌==◌, if◌then◌else◌,
}
use constructor.Json.{Value, str, obj, end, field, get, is_true}
use constructor.Json.Compare.{value_eq}
use constructor.Outcome.{return}
use constructor.Executions.Events.{StatusEvent, running}
use constructor.Executions.ResultConsumer.{Entry}
use constructor.Sockets.{
  Server, Outside, update, Emission, connect, join_execution, process, keep, event_of, clients_in,
}
use constructor.Sockets.Invariant.{Owns}
use constructor.Sockets.Reachable.{Reachable, starts, goes_on, connects, joins}
use constructor.Sockets.Isolation.{IsIn, IsReached, process-isolates}

abbrev event : StatusEvent
event = record {
  execution_id = "e1";
  tenant_id = "t1";
  status = running;
  current_step_id = none;
  context = end;
  timestamp = 5;
}

-- A token is the name of a tenant; tenant "t1" owns execution "e1".
abbrev outside : Outside
outside = record {
  verify_token = λ token. return (field "tenant_id" token (field "sub" (str "u") end));
  tenant_of = λ id. if value_eq id (str "e1") then return (some "t1") else return none;
  parse_event = λ text. if text == "running" then some event else none;
}

abbrev empty : Server
empty = record { sessions = []; members = []; emitted = []; acked = [] }

abbrev token : String → Value
token tenant = obj (field "token" (str tenant) end)

abbrev request : Value
request = obj (field "execution_id" (str "e1") end)

abbrev two_clients : Server
two_clients = (connect outside "s2" (token "t2") (connect outside "s1" (token "t1") empty).1).1

abbrev joined : Server
joined = join_execution outside "s2" request (join_execution outside "s1" request two_clients)

joined-Reachable : Reachable outside joined
unfolding connect get
joined-Reachable =
    goes_on
      (goes_on
        (goes_on (goes_on (starts empty refl) (connects "s1" (token "t1") tt))
          (connects "s2" (token "t2") tt))
        (joins "s1" request))
      (joins "s2" request)

abbrev entry : Entry
entry = record { entry_id = "1-0"; body = some "running" }

-- Only the client of "t1" has the event; the other one has an error.
emitted :
    (process outside entry joined).emitted
    ≡ Emission.error_to "s2" 403 ∷ update event ("s1" ∷ []) ∷ []
unfolding process connect join_execution clients_in keep value_eq lookup insert get is_true
emitted = refl

process-isolates_example :
    (clients : List String) × ((process outside entry joined).emitted
      ≡ joined.emitted ++ update event clients ∷ [])
    × ((process outside entry joined).acked ≡ joined.acked ++ "1-0" ∷ [])
    × All (λ sid. Owns outside joined.sessions sid (str "e1")) clients
    × All (IsIn outside "e1" joined.members) clients
    × All (IsReached outside "e1" clients) joined.members
unfolding event_of
process-isolates_example = process-isolates outside joined entry event joined-Reachable refl
