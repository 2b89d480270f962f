-- ===== src/Executions/Executor/Ends.antt =====
-- From the end of the loop to the end of `execute_workflow`.
use mathlib.Core.Path.{ap₂}
use mathlib.Core.Option
use constructor.Prelude.{
  subst, ℕ, String, ◌≡◌, ◌≢◌, refl, sym, ap, ◌∙◌, Option, some, none, List, [], ◌∷◌, Dict, lookup,
  insert, All,
}
use constructor.Outcome.{Outcome, return, ◌>>=◌ as ◌⟫◌}
use constructor.Workflows.Steps.{Uuid, Step, ProcessDefinition}
use constructor.Executions.Events.{ProcessExecution}
use constructor.Executions.Session.{World, Handlers, System, Run}
use constructor.Executions.Executor.{
  steps_map, first_step, loop, start, conclude, insert_step, after_loop, run_steps, execute_found,
  run_definition, execute_workflow,
}
use constructor.Executions.Executor.Progress.{start-Progress}
use constructor.Executions.Executor.Finished.{IsFinished, conclude-IsFinished, loop-Progress}
use constructor.Executions.Executor.Loop.{loop_induction}

-- Every step has an id, which every definition that passed the validator has.
abbrev pub HaveIds : List Step → Type 0
HaveIds = All (λ s. s.id ≢ none)

insert_step-returns :
    (o : Option String) (s : Step) (m : Dict Step)
    → o ≢ none
    → (m' : Dict Step) × (insert_step o s m ≡ return m')
unfolding insert_step
insert_step-returns none s m named = absurd (named refl)
insert_step-returns (some id) s m named = (insert id s m, refl)

pub steps_map-returns :
    (m : Dict Step) (steps : List Step)
    → HaveIds steps
    → (m' : Dict Step) × (steps_map m steps ≡ return m')
unfolding steps_map
steps_map-returns m [] ids = (m, refl)
steps_map-returns m (s ∷ ss) ids =
    let (m₁, inserted) = insert_step-returns s.id s m ids.0 in
    let (m', made) = steps_map-returns m₁ ss ids.1 in
    (m', ap (λ o. o ⟫ λ m₂. steps_map m₂ ss) inserted ∙ made)

map-some :
    (l : Option (Outcome (Unit {0}) × Run)) {o : Outcome (Unit {0})} {s : System}
    → Option.map {B = Outcome (Unit {0}) × System} (λ ended. (ended.0, ended.1.system)) l
      ≡ some (o, s)
    → (o' : Outcome (Unit {0})) × (r' : Run) × (l ≡ some (o', r')) × (o' ≡ o) × (r'.system ≡ s)
map-some none e = cc
map-some (some (o', r')) e = (o', r', refl, cc, cc)

module _ (w : World) (h : Handlers) where
  after_loop-ends :
      (l : Option (Outcome (Unit {0}) × Run)) {o : Outcome (Unit {0})} {r' : Run}
      → after_loop w h l ≡ some (o, r')
      → (left : Outcome (Unit {0}) × Run) × (l ≡ some left)
        × (o ≡ return tt)
        × (r' ≡ conclude w h left.0 left.1)
  unfolding after_loop
  after_loop-ends none ends = cc
  after_loop-ends (some left) ends = (left, refl, cc, cc)

  -- A run that ends, ends by its loop.
  pub run_definition-ends :
      (fuel : ℕ) (steps : List Step) (r : Run) (m : Dict Step) {o : Outcome (Unit {0})} {r' : Run}
      → steps_map [] steps ≡ return m
      → run_definition w h fuel steps r ≡ some (o, r')
      → (left : Outcome (Unit {0}) × Run) × (loop w h fuel m (first_step steps) (start w h r).1
          ≡ some left)
        × (o ≡ return tt)
        × (r' ≡ conclude w h left.0 left.1)
  unfolding run_definition run_steps
  run_definition-ends fuel steps r m made ends =
      after_loop-ends (loop w h fuel m (first_step steps) (start w h r).1)
        (ap (λ made'. run_steps w h fuel made' (first_step steps) r) (sym made) ∙ ends)

  abbrev start_of : ProcessExecution → System → Run
  start_of x s = record { execution = x; system = s }

  execute_workflow-ran :
      (fuel : ℕ) (process_id : Uuid) (s s' : System) (x : ProcessExecution) (d : ProcessDefinition)
      (o : Outcome (Unit {0}))
      → lookup x.id s.executions ≡ some x
      → lookup process_id s.definitions ≡ some d
      → execute_workflow w h fuel x.id process_id s ≡ some (o, s')
      → (o' : Outcome (Unit {0})) × (r' : Run) × (run_definition w h fuel d.steps (start_of x s)
          ≡ some (o', r'))
        × (o' ≡ o)
        × (r'.system ≡ s')
  unfolding execute_workflow execute_found
  execute_workflow-ran fuel process_id s s' x d o stored defined ends =
      map-some (run_definition w h fuel d.steps (start_of x s)) (
        ap₂ (λ found known. execute_found w h fuel found known s) (sym stored) (sym defined) ∙ ends)

  -- A workflow that ends returns, and leaves a finished execution, for a stored execution with
  -- its id and a stored definition whose steps have ids: the row is completed, with no current
  -- step and a time of completion, or failed, with an error in its context; the other rows and
  -- the definitions are as before; and the streams have grown by events and tasks of this
  -- execution alone, first events that say "running" and then at most one, which has the final
  -- status.
  pub execute_workflow-IsFinished :
      (fuel : ℕ) (process_id : Uuid) (s s' : System) (x : ProcessExecution) (d : ProcessDefinition)
      (o : Outcome (Unit {0}))
      → lookup x.id s.executions ≡ some x
      → lookup process_id s.definitions ≡ some d
      → HaveIds d.steps
      → execute_workflow w h fuel x.id process_id s ≡ some (o, s')
      → (o ≡ return tt) × IsFinished s x s'
  execute_workflow-IsFinished fuel process_id s s' x d o stored defined ids ends =
      let r = start_of x s in
      let (m, made) = steps_map-returns [] d.steps ids in
      let (o', r', ran, same_o, same_s) =
        execute_workflow-ran fuel process_id s s' x d o stored defined ends in
      let (left, looped, returned, concluded) = run_definition-ends fuel d.steps r m made ran in
      let progress =
        loop_induction w h m (loop-Progress w h s x m) fuel (first_step d.steps) (start w h r).1
          left.0 left.1 (start-Progress w h s x) looped in
      (
        sym same_o ∙ returned,
        subst (IsFinished s x) (ap (λ (z : Run). z.system) (sym concluded) ∙ same_s)
            (conclude-IsFinished w h s x left.0 left.1 progress),
      )
