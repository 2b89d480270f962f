-- ===== src/Workflows/Definitions/Tests.antt =====
-- A request that creates a workflow, and the theorems about it.
use constructor.Prelude.{
  ℕ, String, ◌<◌, ◌≡◌, refl, sym, ◌∙◌, ap, true, false, some, [], ◌∷◌, map, All, if◌then◌else◌,
  ◌==◌, get_or, eq_iff, arith,
}
use constructor.Prelude.Int.{pos}
use constructor.Json.{Value, str, end, is_true}
use constructor.Workflows.Steps.{Step}
use constructor.Workflows.Validator.{validate_steps}
use constructor.Executions.Executor.Rounds.{by_next, by_condition}
use constructor.Executions.Executor.Termination.{Falls}
use constructor.Executions.Tests.{world, handlers}
use constructor.Workflows.Definitions.{
  ProcessDefinitionCreate, dump, is_valid, create, next_step, no_next,
}
use constructor.Workflows.Definitions.Created.{Answer, create-Answer}

abbrev pub body : ProcessDefinitionCreate
body = record {
  name = "demo";
  trigger = end;
  steps =
      record {
        id = "ask";
        type = "agent";
        config = end;
        next = next_step "tell";
        timeout_seconds = pos 60;
      }
      ∷ record {
        id = "tell";
        type = "notify";
        config = end;
        next = no_next;
        timeout_seconds = pos 60;
      }
      ∷ [];
  on_error = "stop";
}

pub valid : is_valid body ≡ true
unfolding is_valid validate_steps
valid = refl

refused : is_valid (record body { on_error = "ignore" }) ≡ false
unfolding is_valid validate_steps
refused = refl

create-Answer_example : Answer body "t1" "u1" [] (create "p1" body "t1" "u1" [])
create-Answer_example = create-Answer "p1" body "t1" "u1" []

abbrev pub rank : Value → ℕ
rank (str k) = if k == "ask" then 2 else if k == "tell" then 1 else 0
rank _ = 0

Falls-of :
    (s : Step) (k type : String)
    → s.id ≡ some k
    → s.type ≡ some type
    → (type == "condition") ≡ false
    → (is_true s.next ≡ true → rank s.next < rank (str k))
    → Falls (world 100) handlers rank s
Falls-of s k type named typed plain along next (by_next e) t = rw named (rw e (along (rw e at t)))
Falls-of s k type named typed plain along next
      (by_condition config context chooses configured gives) t =
    absurd (cc (plain, (eq_iff type "condition").1 (ap (get_or "") (sym typed ∙ chooses))))

pub falls : All (Falls (world 100) handlers rank) (map dump body.steps)
unfolding is_true
falls = (
  Falls-of _ "ask" "agent" refl refl refl (λ t. omega arith),
  (Falls-of _ "tell" "notify" refl refl refl (λ t. cc), tt),
)
