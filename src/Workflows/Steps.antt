-- ===== src/Workflows/Steps.antt =====
-- services/platform-api/src/workflows/{schemas,models,validator}.py: a step as the `dict` that the
-- validator and the executor read, and the stored definition. A UUID is its canonical text.
use constructor.Prelude.{ℕ, String, Option, List, [], ◌∷◌, map, get_or}
use constructor.Prelude.Int.{ℤ}
use constructor.Json.{Value, Fields}

abbrev pub Uuid : Type 0
Uuid = String

-- `none` is a missing key. The key `next` is read only by `step.get("next")`, which takes a missing
-- key for `None`.
pub record Step : Type 0 where
  pub id : Option String
  pub type : Option String
  pub config : Option Fields
  pub next : Value
  pub timeout_seconds : Option ℤ

pub record ProcessDefinition : Type 0 where
  pub id : Uuid
  pub tenant_id : Uuid
  pub name : String
  pub trigger_config : Fields
  pub steps : List Step
  pub on_error : String
  pub version : ℕ
  pub created_by : Uuid

abbrev pub valid_step_types : List String
valid_step_types = "agent" ∷ "condition" ∷ "transform" ∷ "notify" ∷ "wait" ∷ "human_approval" ∷ []

abbrev pub valid_on_error : List String
valid_on_error = "stop" ∷ "skip" ∷ "retry" ∷ "fallback" ∷ []

-- The ids that the steps declare.
abbrev pub ids : List Step → List String
ids steps = map (λ s. get_or "" s.id) steps
