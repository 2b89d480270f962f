-- ===== src/Executions/Executor/Termination.antt =====
-- Workflows that end: a measure on the cursors that falls along every `next` and every condition.
use mathlib.Core.Path.{ap₂}
use mathlib.Core.Option
use mathlib.Core.Option.{some-injective}
use constructor.Prelude.{
  ℕ, zero, suc, ◌<◌, String, ◌≡◌, refl, sym, ap, subst, ◌∙◌, true, Option, some, none, List, [],
  ◌∷◌, Dict, lookup, insert, lookup-insert, All, arith, if◌then◌else◌, ◌==◌, eq_iff, inl, inr,
  Bool-cases, get_or,
}
use constructor.Json.{Value, str, is_true}
use constructor.Outcome.{Outcome, return, raise, Outcome-cases, ◌>>=◌ as ◌⟫◌}
use constructor.Workflows.Steps.{Uuid, Step, ProcessDefinition}
use constructor.Executions.Events.{ProcessExecution}
use constructor.Executions.Session.{World, Handlers, System, Run}
use constructor.Executions.Executor.{
  iterate, loop, start, insert_step, steps_map, first_step, after_loop, conclude, run_steps,
  run_definition, execute_found, execute_workflow,
}
use constructor.Executions.Executor.Rounds.{Successor, Round, iterate-Round}
use constructor.Executions.Executor.Loop.{loop_done, loop_raises, loop_goes_on}
use constructor.Executions.Executor.Ends.{HaveIds, steps_map-returns}

pub return-injective : {A : Type 0} {a b : A} → return a ≡ return b → a ≡ b
return-injective e = cc

-- Every entry of the map has `P`, and stands under its own id.
abbrev pub IsMapOf : (Step → Type 0) → Dict Step → Type 0
IsMapOf P m = (k : String) (s : Step) → lookup k m ≡ some s → P s × (s.id ≡ some k)

insert-IsMapOf :
    (P : Step → Type 0) (k : String) (s : Step) (m : Dict Step)
    → P s
    → s.id ≡ some k
    → IsMapOf P m
    → IsMapOf P (insert k s m)
insert-IsMapOf P k s m p named all j t found =
    let found' = sym (lookup-insert k j s m) ∙ found in
    elim (Bool-cases (k == j)) [
      | inl same ↦
          let e = some-injective s t (rw same at found') in
          (subst P e p, ap (λ (z : Step). z.id) (sym e) ∙ (named ∙ ap some ((eq_iff k j).0 same)))
      | inr other ↦ all j t (rw other at found')
    ]

insert_step-IsMapOf :
    (P : Step → Type 0) (o : Option String) (s : Step) (m : Dict Step) {m' : Dict Step}
    → s.id ≡ o
    → P s
    → IsMapOf P m
    → insert_step o s m ≡ return m'
    → IsMapOf P m'
unfolding insert_step
insert_step-IsMapOf P none s m named p all made = cc
insert_step-IsMapOf P (some k) s m named p all made =
    subst (IsMapOf P) (return-injective made) (insert-IsMapOf P k s m p named all)

pub then-returns :
    {A B : Type 0} (o : Outcome A) (f : A → Outcome B) {b : B}
    → (o ⟫ f) ≡ return b
    → (a : A) × (o ≡ return a) × (f a ≡ return b)
then-returns (return a) f h = (a, refl, h)
then-returns (raise e) f h = cc

pub steps_map-IsMapOf :
    (P : Step → Type 0) (m : Dict Step) (steps : List Step) {m' : Dict Step}
    → IsMapOf P m
    → All P steps
    → steps_map m steps ≡ return m'
    → IsMapOf P m'
unfolding steps_map
steps_map-IsMapOf P m [] all each made = subst (IsMapOf P) (return-injective made) all
steps_map-IsMapOf P m (s ∷ ss) all each made =
    let (m₁, inserted, rest) = then-returns (insert_step s.id s m) (λ m₂. steps_map m₂ ss) made in
    steps_map-IsMapOf P m₁ ss (insert_step-IsMapOf P s.id s m refl each.0 all inserted) each.1 rest

-- What `execute_workflow` reports of a run.
abbrev report : Option (Outcome (Unit {0}) × Run) → Option (Outcome (Unit {0}) × System)
report = Option.map (λ ended. (ended.0, ended.1.system))

module _ (w : World) (h : Handlers) (rank : Value → ℕ) where
  -- Every true successor of the step has a smaller rank than the id of the step.
  abbrev pub Falls : Step → Type 0
  Falls s =
      (next : Value)
      → Successor w h s next
      → is_true next ≡ true
      → rank next < rank (str (get_or "" s.id))

  -- The rounds that a loop needs at a cursor.
  abbrev rounds : Value → ℕ
  rounds cursor = if is_true cursor then suc (rank cursor) else 0

  rounds-fall :
      (m : Dict Step) (cursor next : Value)
      → IsMapOf Falls m
      → Round w h m cursor next
      → rounds next < suc (rank cursor)
  rounds-fall m cursor next all round = elim (Bool-cases (is_true next)) [
    | inl t ↦
        let (falls, named) = all round.key round.step round.found in
        let lt =
          subst (λ o. rank next < rank (str (get_or "" o))) named (falls next round.successor t) in
        rw t (rw round.at_key (omega (arith, lt)))
    | inr f ↦ rw f (omega arith)
  ]

  loop_terminates :
      (m : Dict Step) (fuel : ℕ) (cursor : Value) (r : Run)
      → IsMapOf Falls m
      → rounds cursor < fuel
      → (left : Outcome (Unit {0}) × Run) × (loop w h fuel m cursor r ≡ some left)
  loop_terminates m zero cursor r all enough = absurd (omega arith)
  loop_terminates m (suc fuel) cursor r all enough = elim (Bool-cases (is_true cursor)) [
    | inr f ↦ ((return tt, r), loop_done w h m fuel cursor r f)
    | inl t ↦ elim (Outcome-cases (iterate w h m cursor r).0) [
      | inr (e, raised) ↦
          ((raise e, (iterate w h m cursor r).1), loop_raises w h m fuel cursor r t raised)
      | inl (next, went_on) ↦
          let falls = rounds-fall m cursor next all (iterate-Round w h m cursor r next went_on) in
          let enough' : suc (rank cursor) < suc fuel = rw t at enough in
          let (left, ended) =
            loop_terminates m fuel next (iterate w h m cursor r).1 all (omega arith) in
          (left, loop_goes_on w h m fuel cursor r t went_on ∙ ended)
    ]
  ]

  none_yet : IsMapOf Falls []
  unfolding lookup
  none_yet k t e = cc

  needs : (cursor : Value) {fuel : ℕ} → suc (rank cursor) < fuel → rounds cursor < fuel
  needs cursor enough = elim (Bool-cases (is_true cursor)) [
    | inl t ↦ rw t enough
    | inr f ↦ rw f (omega arith)
  ]

  -- A workflow on which some measure falls along every `next` and every outcome of a condition
  -- ends, if the fuel is more than the measure of its first step by more than one, for a stored
  -- execution with its id and a stored definition whose steps have ids.
  pub execute_workflow-terminates :
      (fuel : ℕ) (process_id : Uuid) (s : System) (x : ProcessExecution) (d : ProcessDefinition)
      → lookup x.id s.executions ≡ some x
      → lookup process_id s.definitions ≡ some d
      → HaveIds d.steps
      → All Falls d.steps
      → suc (rank (first_step d.steps)) < fuel
      → (ended : Outcome (Unit {0}) × System) × (execute_workflow w h fuel x.id process_id s
          ≡ some ended)
  unfolding execute_workflow execute_found run_definition run_steps after_loop
  execute_workflow-terminates fuel process_id s x d stored defined ids falls enough =
      let r : Run = record { execution = x; system = s } in
      let (m, made) = steps_map-returns [] d.steps ids in
      let all = steps_map-IsMapOf Falls [] d.steps none_yet falls made in
      let (left, ended) =
        loop_terminates m fuel (first_step d.steps) (start w h r).1 all
          (needs (first_step d.steps) enough) in
      (
        (return tt, (conclude w h left.0 left.1).system),
        ap₂ (λ found known. execute_found w h fuel found known s) stored defined
            ∙ (ap (λ made'. report (run_steps w h fuel made' (first_step d.steps) r)) made
                ∙ ap (λ l. report (after_loop w h l)) ended),
      )
