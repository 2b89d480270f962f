-- ===== src/Workflows/Endpoints.antt =====
-- services/platform-api/src/workflows/router.py: the endpoints of the definitions, behind their guards.
use constructor.Prelude.{String, Option, List, Dict}
use constructor.Workflows.Steps.{Uuid, ProcessDefinition}
use constructor.Workflows.Definitions.{ProcessDefinitionCreate, create, list_processes, get_one}
use constructor.Access.Permissions.{workflow_create, workflow_read}
use constructor.Access.Users.{User, Response, ok, Security, guard, guarded}

module _ (sec : Security) (credentials : Option String) (users : List User) where
  -- `POST /workflows`, with the id of the new row
  unfoldable pub post_workflow :
      Uuid
      → ProcessDefinitionCreate
      → Dict ProcessDefinition
      → Response ProcessDefinition × Dict ProcessDefinition
  unfolding create
  post_workflow id body ds =
      guarded (guard sec workflow_create credentials users)
        (λ current ds. create id body current.tenant_id current.id ds) ds

  -- `GET /workflows`
  unfoldable pub get_workflows :
      Dict ProcessDefinition → Response (List ProcessDefinition) × Dict ProcessDefinition
  unfolding list_processes
  get_workflows ds =
      guarded (guard sec workflow_read credentials users)
        (λ current ds. (ok (list_processes current.tenant_id ds), ds)) ds

  -- `GET /workflows/{workflow_id}`
  unfoldable pub get_workflow :
      Uuid → Dict ProcessDefinition → Response ProcessDefinition × Dict ProcessDefinition
  unfolding get_one
  get_workflow id ds =
      guarded (guard sec workflow_read credentials users) (λ current ds. (get_one id ds, ds)) ds
