-- ===== src/Workflows/Validator.antt =====
-- services/platform-api/src/workflows/validator.py
pub mod Spec
mod Loops
pub mod WellFormed
use constructor.Prelude.{
  ℕ, suc, String, Bool, false, Option, none, some, List, [], ◌∷◌, ◌++◌, ◌==◌, elem, get_or,
  if◌then◌else◌,
}
use constructor.Prelude.Int.{pos, leb_ℤ}
use constructor.Json.{Value, str}
use constructor.Workflows.Steps.{Step, valid_step_types}

-- The messages, each with the values that its text shows.
pub data StepError : Type 0 where
  no_steps : StepError
  invalid_type : ℕ → Option String → StepError
  id_required : ℕ → StepError
  duplicate_id : ℕ → String → StepError
  timeout_not_positive : ℕ → StepError
  unknown_next : ℕ → String → StepError

-- `step.get("type") in VALID_STEP_TYPES`
unfoldable pub is_valid_type : Option String → Bool
unfolding elem
is_valid_type none = false
is_valid_type (some t) = elem t valid_step_types

pub type_errors : ℕ → Step → List StepError
unfolding is_valid_type
type_errors i step = if is_valid_type step.type then [] else invalid_type i step.type ∷ []

-- The tests on the id: its errors, and `seen_ids` afterwards.
pub id_errors : ℕ → List String → Option String → List StepError × List String
id_errors i seen none = (id_required i ∷ [], seen)
id_errors i seen (some id) =
    if id == ""
    then (id_required i ∷ [], seen)
    else if elem id seen
    then (duplicate_id i id ∷ [], seen)
    else ([], id ∷ seen)

pub timeout_errors : ℕ → Step → List StepError
timeout_errors i step =
    if leb_ℤ (get_or (pos 60) step.timeout_seconds) (pos 0) then timeout_not_positive i ∷ [] else []

-- The first loop, from step `i` on: the errors that it appends, and `seen_ids` at its end.
pub scan : ℕ → List String → List Step → List StepError × List String
unfolding type_errors id_errors timeout_errors
scan i seen [] = ([], seen)
scan i seen (step ∷ steps) =
    let (errors, seen') = id_errors i seen step.id in
    let (rest, final) = scan (suc i) seen' steps in
    (type_errors i step ++ (errors ++ (timeout_errors i step ++ rest)), final)

-- `isinstance(next_val, str) and next_val not in seen_ids`
pub next_errors : ℕ → List String → Value → List StepError
next_errors i seen (str n) = if elem n seen then [] else unknown_next i n ∷ []
next_errors i seen _ = []

-- The second loop.
pub scan_next : ℕ → List String → List Step → List StepError
unfolding next_errors
scan_next i seen [] = []
scan_next i seen (step ∷ steps) = next_errors i seen step.next ++ scan_next (suc i) seen steps

-- `if not errors:` before the second loop
pub then_next : List StepError × List String → List Step → List StepError
unfolding scan_next
then_next ([], seen) steps = scan_next 0 seen steps
then_next (e ∷ es, seen) steps = e ∷ es

unfoldable pub validate_steps : List Step → List StepError
unfolding scan then_next
validate_steps [] = no_steps ∷ []
validate_steps (step ∷ steps) = then_next (scan 0 [] (step ∷ steps)) (step ∷ steps)
