-- ===== src/Workflows/Validator/Spec.antt =====
-- What the validator is to accept: a description of well-formed steps that does not go by its loops.
use constructor.Prelude.{
  String, ◌≡◌, ◌≢◌, true, false, none, List, [], ◌==◌, elem, get_or, All, Unique,
}
use constructor.Prelude.Int.{pos, ◌<ℤ◌}
use constructor.Json.{Value, str}
use constructor.Workflows.Steps.{Step, ids}
use constructor.Workflows.Validator.{is_valid_type}

-- One step: a type of the list, an id that is there and not empty, a positive timeout.
pub record IsSound (step : Step) : Type 0 where
  pub type_known : is_valid_type step.type ≡ true
  pub named : step.id ≢ none
  pub id_not_empty : (get_or "" step.id == "") ≡ false
  pub timeout_positive : pos 0 <ℤ get_or (pos 60) step.timeout_seconds

-- A text `next` names a declared step. Nothing is asked of a `next` of another type.
abbrev pub NextDeclared : List String → Value → Type 0
NextDeclared declared (str n) = elem n declared ≡ true
NextDeclared declared _ = Unit

pub record IsWellFormed (steps : List Step) : Type 0 where
  pub some_step : steps ≢ []
  pub sound : All IsSound steps
  pub unique : Unique (ids steps)
  pub targets : All (λ s. NextDeclared (ids steps) s.next) steps
