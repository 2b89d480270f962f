-- ===== src/Workflows/Tests.antt =====
-- The theorem about the validator at two steps.
use constructor.Prelude.{◌≡◌, ◌↔◌, some, List, [], ◌∷◌}
use constructor.Prelude.Int.{pos}
use constructor.Json.{null, str, end}
use constructor.Workflows.Steps.{Step}
use constructor.Workflows.Validator.{validate_steps}
use constructor.Workflows.Validator.Spec.{IsWellFormed}
use constructor.Workflows.Validator.WellFormed.{validate_steps-eq-nil_iff}

abbrev two_steps : List Step
two_steps =
    record {
      id = some "ask";
      type = some "agent";
      config = some end;
      next = str "tell";
      timeout_seconds = some (pos 30);
    }
    ∷ record {
      id = some "tell";
      type = some "notify";
      config = some end;
      next = null;
      timeout_seconds = some (pos 60);
    }
    ∷ []

validate_steps-eq-nil_iff_example : (validate_steps two_steps ≡ []) ↔ IsWellFormed two_steps
validate_steps-eq-nil_iff_example = validate_steps-eq-nil_iff two_steps
