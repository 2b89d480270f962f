-- ===== src/Access/Sessions.antt =====
-- services/platform-api/src/database.py, get_scoped_db of auth/dependencies.py, and where the other
-- requests set the tenant: the setting `app.current_tenant` of a connection that requests use one
-- after the other. A session is taken to get back the connection that it has released.
pub mod Leftover
pub mod Tests
use constructor.Prelude.{String, Bool, List, [], ◌∷◌, ◌++◌, if◌then◌else◌}
use constructor.Workflows.Steps.{Uuid}

-- The setting as the last commit left it, and as the transaction sees it; and what the queries saw.
-- `SET` belongs to its transaction: it stays if that commits, and is taken back if it does not.
pub record Connection : Type 0 where
  pub stored : String
  pub setting : String
  pub seen : List String

-- What an endpoint has the database do: a query, or `db.commit()`.
pub data Statement : Type 0 where
  query commit : Statement

abbrev pub set_config : String → Connection → Connection
set_config value c = record c { setting = value }

unfoldable pub execute : Statement → Connection → Connection
execute query c = record c { seen = c.seen ++ c.setting ∷ [] }
execute commit c = record c { stored = c.setting }

unfoldable pub execute_all : List Statement → Connection → Connection
unfolding execute
execute_all [] c = c
execute_all (s ∷ ss) c = execute_all ss (execute s c)

-- `rollback()`, and the end of a session.
abbrev pub rollback : Connection → Connection
rollback c = record c { setting = c.stored }

-- The statements of an endpoint, and whether it raises at the end.
pub record Endpoint : Type 0 where
  pub statements : List Statement
  pub raises : Bool

-- A part of a request: whether it raised, and the connection after it.
abbrev pub Part : Type 0
Part = Connection → Bool × Connection

unfoldable pub run_endpoint : Endpoint → Part
unfolding execute_all
run_endpoint e c = (e.raises, execute_all e.statements c)

-- `except Exception: await session.rollback(); raise`
unfoldable pub roll_back_raised : Bool × Connection → Bool × Connection
roll_back_raised (raised, c) = (raised, if raised then rollback c else c)

-- `get_db` around the rest of a request, which ends with the session.
unfoldable pub get_db : Part → Part
unfolding roll_back_raised
get_db rest c = let (raised, c') = roll_back_raised (rest c) in (raised, rollback c')

-- `get_scoped_db`, where a failure to clear the tenant is ignored: `clears` says whether it works.
unfoldable pub get_scoped_db : Bool → Uuid → Part → Part
unfolding roll_back_raised
get_scoped_db clears tenant_id rest c =
    let (raised, c') = roll_back_raised (rest (set_config tenant_id c)) in
    (raised, if clears then set_config "" c' else c')

-- `_run_workflow`: its own session, with the tenant of the execution.
unfoldable pub run_workflow : Uuid → Endpoint → Connection → Connection
unfolding run_endpoint
run_workflow tenant_id e c = rollback (run_endpoint e (set_config tenant_id c)).1

-- A request of a user, behind `get_current_user`; one of nobody, like a login; one that an outside
-- trigger makes, which finds its tenant by a query and sets it; and `_run_workflow`.
pub data Request : Type 0 where
  scoped : Bool → Uuid → Endpoint → Request
  plain : Endpoint → Request
  triggered background : Uuid → Endpoint → Request

unfoldable pub handle : Request → Connection → Connection
unfolding get_db get_scoped_db run_endpoint execute run_workflow
handle (scoped clears tenant_id e) c =
    (get_db (λ c'. get_scoped_db clears tenant_id (run_endpoint e) (execute query c')) c).1
handle (plain e) c = (get_db (run_endpoint e) c).1
handle (triggered tenant_id e) c =
    (get_db (λ c'. run_endpoint e (set_config tenant_id (execute query c'))) c).1
handle (background tenant_id e) c = run_workflow tenant_id e c

unfoldable pub handle_all : List Request → Connection → Connection
unfolding handle
handle_all [] c = c
handle_all (r ∷ rs) c = handle_all rs (handle r c)
