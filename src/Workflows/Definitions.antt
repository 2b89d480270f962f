-- ===== src/Workflows/Definitions.antt =====
-- services/platform-api/src/workflows/{schemas,service,router}.py: how definitions are created, and
-- what is read of them.
pub mod Created
pub mod Tests
use constructor.Prelude.{
  String, Bool, false, none, some, List, [], ◌∷◌, map, Dict, lookup, insert, elem, ◌==◌,
  if◌then◌else◌,
}
use constructor.Prelude.Int.{ℤ}
use constructor.Json.{Value, Fields, null, str, obj}
use constructor.Workflows.Steps.{Uuid, Step, ProcessDefinition, valid_on_error}
use constructor.Workflows.Validator.{validate_steps}
use constructor.Access.Users.{Response, ok, http_error}

-- `next: str | dict | None`
pub data Next : Type 0 where
  no_next : Next
  next_step : String → Next
  next_branches : Fields → Next

-- The body of a request, once pydantic has read its fields and put in the defaults.
pub record StepSchema : Type 0 where
  pub id : String
  pub type : String
  pub config : Fields
  pub next : Next
  pub timeout_seconds : ℤ

pub record ProcessDefinitionCreate : Type 0 where
  pub name : String
  pub trigger : Fields
  pub steps : List StepSchema
  pub on_error : String

abbrev pub dump_next : Next → Value
dump_next no_next = null
dump_next (next_step id) = str id
dump_next (next_branches branches) = obj branches

-- `model_dump()`
abbrev pub dump : StepSchema → Step
dump s = record {
  id = some s.id;
  type = some s.type;
  config = some s.config;
  next = dump_next s.next;
  timeout_seconds = some s.timeout_seconds;
}

-- Whether both field validators pass.
unfoldable pub is_valid : ProcessDefinitionCreate → Bool
is_valid body = elim (validate_steps (map dump body.steps)) [
  | [] ↦ elem body.on_error valid_on_error
  | e ∷ es ↦ false
]

unfoldable pub new_process : Uuid → ProcessDefinitionCreate → Uuid → Uuid → ProcessDefinition
new_process id body tenant_id user_id = record {
  id = id;
  tenant_id = tenant_id;
  name = body.name;
  trigger_config = body.trigger;
  steps = map dump body.steps;
  on_error = body.on_error;
  version = 1;
  created_by = user_id;
}

-- `create_process`, with the id of the new row, and the commit of the endpoint.
unfoldable pub create_process :
    Uuid
    → ProcessDefinitionCreate
    → Uuid
    → Uuid
    → Dict ProcessDefinition
    → ProcessDefinition × Dict ProcessDefinition
unfolding new_process
create_process id body tenant_id user_id ds =
    let d = new_process id body tenant_id user_id in (d, insert id d ds)

-- `POST /workflows`, behind its guard: a body that is not valid is answered with 422.
unfoldable pub create :
    Uuid
    → ProcessDefinitionCreate
    → Uuid
    → Uuid
    → Dict ProcessDefinition
    → Response ProcessDefinition × Dict ProcessDefinition
unfolding is_valid create_process
create id body tenant_id user_id ds =
    if is_valid body
    then (let (d, ds') = create_process id body tenant_id user_id ds in (ok d, ds'))
    else (http_error 422, ds)

-- `list_processes`
unfoldable pub list_processes : Uuid → Dict ProcessDefinition → List ProcessDefinition
list_processes tenant_id [] = []
list_processes tenant_id ((id, d) ∷ ds) =
    let rest = list_processes tenant_id ds in if d.tenant_id == tenant_id then d ∷ rest else rest

-- `get_process` and the 404 of its endpoint.
unfoldable pub get_one : Uuid → Dict ProcessDefinition → Response ProcessDefinition
get_one id ds = elim (lookup id ds) [ none ↦ http_error 404 | some d ↦ ok d ]
