-- ===== src/Triggers/Endpoints/Tests.antt =====
-- A workflow of two steps that a tenant's administrator creates and starts.
use constructor.Prelude.{refl, some, [], elem, lookup, arith}
use constructor.Json.{end, get}
use constructor.Executions.Executor.{first_step}
use constructor.Executions.Session.{System}
use constructor.Executions.Tests.{world, handlers, before}
use constructor.Access.Permissions.{has_permission}
use constructor.Access.Users.{guard}
use constructor.Workflows.Definitions.Tests.{body, rank, valid, falls}
use constructor.Triggers.Tests.{fresh, store, readers, admins, postgres}
use constructor.Triggers.Endpoints.Runs.{create_and_start, Ends, create_and_start-Ends}

abbrev sys : System
sys = record before {
  definitions =
      (create_and_start postgres fresh admins readers (some "token") (some "token") "p7" body end
        store).1.definitions;
  executions =
      (create_and_start postgres fresh admins readers (some "token") (some "token") "p7" body end
        store).1.executions;
}

create_and_start-Ends_example :
    Ends postgres fresh admins readers (world 100) handlers 4 "p7" [] sys (
      create_and_start postgres fresh admins readers
        (some "token")
        (some "token")
        "p7"
        body
        end
        store)
unfolding guard get has_permission lookup elem first_step
create_and_start-Ends_example =
    create_and_start-Ends postgres fresh admins readers (world 100) handlers rank 4 (some "token")
      (some "token") "p7" body end store sys refl refl refl valid refl refl falls (omega arith)
