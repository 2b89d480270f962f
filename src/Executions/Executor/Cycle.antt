-- ===== src/Executions/Executor/Cycle.antt =====
-- The validator accepts cycles of `next`, and the executor never leaves one.
use constructor.Prelude.{
  ℕ, zero, suc, String, ◌≡◌, refl, ap, ◌∙◌, true, false, some, none, List, [], ◌∷◌, Dict, lookup,
  insert, arith, ◌==◌, eq_refl, elem, lookup-insert_self,
}
use constructor.Json.{str, is_true, end}
use constructor.Outcome.{return}
use constructor.Workflows.Steps.{Step}
use constructor.Workflows.Validator.{is_valid_type, validate_steps}
use constructor.Workflows.Validator.WellFormed.{validate_steps-eq-nil_iff}
use constructor.Executions.Session.{World, Handlers, Run, ◌>>=◌, commit, publish_status_change}
use constructor.Executions.Executor.{
  find_step, enter, advance, perform, iterate, loop, start, insert_step, steps_map, first_step,
  after_loop, run_steps, run_definition,
}
use constructor.Executions.Executor.Loop.{loop_spent, loop_goes_on}

-- The types that the executor only passes over.
abbrev pub IsPassive : String → Type 0
IsPassive type =
    ((type == "condition") ≡ false) × ((type == "transform") ≡ false) × ((type == "agent") ≡ false)

abbrev pub self_loop : String → String → Step
self_loop k type = record {
  id = some k;
  type = some type;
  config = some end;
  next = str k;
  timeout_seconds = none;
}

named_true : (k : String) → (k == "") ≡ false → is_true (str k) ≡ true
unfolding is_true
named_true k h = rw h

elem_self : (k : String) → elem k (k ∷ []) ≡ true
unfolding elem
elem_self k = rw (eq_refl k)

self_loop-valid :
    (k type : String)
    → (k == "") ≡ false
    → is_valid_type (some type) ≡ true
    → validate_steps (self_loop k type ∷ []) ≡ []
self_loop-valid k type named known = (validate_steps-eq-nil_iff (self_loop k type ∷ [])).1 (record {
  some_step = λ e. cc;
  sound = (
    record {
      type_known = known;
      named = λ e. cc;
      id_not_empty = named;
      timeout_positive = omega arith;
    },
    tt,
  );
  unique = (unfold elem in refl, tt);
  targets = (elem_self k, tt);
})

module _ (w : World) (h : Handlers) where
  iterate-passive :
      (m : Dict Step) (k type : String) (step : Step) (r : Run)
      → lookup k m ≡ some step
      → step.type ≡ some type
      → IsPassive type
      → (iterate w h m (str k) r).0 ≡ return step.next
  unfolding iterate find_step enter advance perform ◌>>=◌ commit publish_status_change
  iterate-passive m k type step r found typed (a, b, c) = ground arith

  loop-cycle :
      (m : Dict Step) (k type : String) (step : Step)
      → lookup k m ≡ some step
      → step.type ≡ some type
      → IsPassive type
      → step.next ≡ str k
      → is_true (str k) ≡ true
      → (fuel : ℕ) (r : Run) → loop w h fuel m (str k) r ≡ none
  loop-cycle m k type step found typed passive back t zero r = loop_spent w h m (str k) r
  loop-cycle m k type step found typed passive back t (suc fuel) r =
      loop_goes_on w h m fuel (str k) r t
        (iterate-passive m k type step r found typed passive ∙ ap return back)
      ∙ loop-cycle m k type step found typed passive back t fuel (iterate w h m (str k) r).1

  never_ends :
      (k type : String)
      → IsPassive type
      → is_true (str k) ≡ true
      → (fuel : ℕ) (r : Run) → run_definition w h fuel (self_loop k type ∷ []) r ≡ none
  unfolding run_definition run_steps steps_map insert_step first_step after_loop
  never_ends k type passive t fuel r =
      let step = self_loop k type in
      ap (after_loop w h) (
        loop-cycle (insert k step []) k type step (lookup-insert_self k step []) refl passive refl t
          fuel (start w h r).1)

  -- A workflow of one step that names itself as its successor, of a type that the executor only
  -- passes over, is valid, and no amount of fuel brings its execution to an end.
  pub validate_steps-run_definition_cycle :
      (k type : String)
      → (k == "") ≡ false
      → is_valid_type (some type) ≡ true
      → IsPassive type
      → let steps = self_loop k type ∷ [] in
        (validate_steps steps ≡ [])
        × ((fuel : ℕ) (r : Run) → run_definition w h fuel steps r ≡ none)
  validate_steps-run_definition_cycle k type named known passive =
      (self_loop-valid k type named known, never)
    where
      steps : List Step
      steps = self_loop k type ∷ []

      never : (fuel : ℕ) (r : Run) → run_definition w h fuel steps r ≡ none
      never fuel r = never_ends k type passive (named_true k named) fuel r
