-- ===== src/Executions/Executor/Rounds.antt =====
-- One round of the loop that goes on: the step that was found, and where its successor comes from.
use constructor.Prelude.{
  String, ◌≡◌, refl, ap, ◌∙◌, Option, some, Dict, lookup, arith, if◌then◌else◌, ◌==◌, eq_iff, inl,
  inr, Bool-cases,
}
use constructor.Json.{Value, Fields, null, str}
use constructor.Outcome.{Outcome, return, raise, or_key_error}
use constructor.Workflows.Steps.{Step}
use constructor.Executions.Session.{
  World, Handlers, Run, Action, pure, lift, reads, and_then, ◌>>=◌, commit,
}
use constructor.Executions.Executor.{find_step, evaluate, advance, enter, perform, iterate}

module _ {A B : Type 0} where
  and_then-returns :
      (o : Outcome A) (f : A → Action B) (r : Run) {b : B}
      → (and_then o f r).0 ≡ return b
      → (a : A) × (o ≡ return a) × ((f a r).0 ≡ return b)
  and_then-returns (return a) f r h = (a, refl, h)
  and_then-returns (raise e) f r h = cc

  -- A block that returns is a first part that returns, and a rest that returns from there.
  pub bind-returns :
      (m : Action A) (f : A → Action B) (r : Run) {b : B}
      → ((m >>= f) r).0 ≡ return b
      → (a : A) × ((m r).0 ≡ return a) × ((f a (m r).1).0 ≡ return b)
  unfolding ◌>>=◌
  bind-returns m f r h = and_then-returns (m r).0 f (m r).1 h

pure-returns : {A : Type 0} (a : A) (r : Run) {b : A} → (pure a r).0 ≡ return b → b ≡ a
unfolding ◌>>=◌
pure-returns a r e = cc

lift-returns :
    {A : Type 0} (o : Outcome A) (r : Run) {b : A} → (lift o r).0 ≡ return b → o ≡ return b
unfolding ◌>>=◌
lift-returns o r e = e

reads-returns :
    {A : Type 0} (f : Run → Outcome A) (r : Run) {b : A} → (reads f r).0 ≡ return b → f r ≡ return b
unfolding ◌>>=◌
reads-returns f r e = e

module _ (w : World) (h : Handlers) where
  -- The next cursor of a step: its `next`, or what its condition gives.
  pub data Successor (step : Step) (next : Value) : Type 0 where
    by_next : next ≡ step.next → Successor step next
    by_condition :
        (config context : Fields)
        → step.type ≡ some "condition"
        → step.config ≡ some config
        → h.evaluate_condition config context ≡ return next
        → Successor step next

  pub record Round (m : Dict Step) (cursor next : Value) : Type 0 where
    pub key : String
    pub step : Step
    pub at_key : cursor ≡ str key
    pub found : lookup key m ≡ some step
    pub successor : Successor step next

  find_step-returns :
      (m : Dict Step) (cursor : Value) {step : Step}
      → find_step w h m cursor ≡ return step
      → (key : String) × (cursor ≡ str key) × (lookup key m ≡ some step)
  unfolding find_step
  find_step-returns m (str k) e = (k, refl, ground arith)
  find_step-returns m null e = cc
  find_step-returns m _ e = cc

  or_key_error-returns :
      {A : Type 0} (k : String) (o : Option A) {a : A} → or_key_error k o ≡ return a → o ≡ some a
  or_key_error-returns k o e = ground arith

  advance-returns :
      (type : String) (step : Step) (r : Run) {next : Value}
      → (advance w h type step r).0 ≡ return next
      → next ≡ step.next
  unfolding advance
  advance-returns type step r e =
      let (_, _, committed) = bind-returns (perform w h type step) _ r e in
      let (_, _, moved) = bind-returns commit (λ _. pure step.next) _ committed in
      pure-returns step.next _ moved

  evaluate-returns :
      (step : Step) (r : Run) {next : Value}
      → step.type ≡ some "condition"
      → (evaluate w h step r).0 ≡ return next
      → Successor step next
  unfolding evaluate
  evaluate-returns step r is_condition e =
      let (config, has_config, rest) =
        bind-returns (lift (or_key_error "config" step.config)) _ r e in
      by_condition config _ is_condition
        (or_key_error-returns "config" step.config (lift-returns _ r has_config))
        (reads-returns _ _ rest)

  go_on :
      (type : String) (step : Step) (r : Run) {next : Value}
      → step.type ≡ some type
      → ((if type == "condition" then evaluate w h step else advance w h type step) r).0
        ≡ return next
      → Successor step next
  go_on type step r has_type e = elim (Bool-cases (type == "condition")) [
    | inl is_condition ↦
        evaluate-returns step r (has_type ∙ ap some ((eq_iff type "condition").0 is_condition))
          (rw is_condition at e)
    | inr other ↦ by_next (advance-returns type step r (rw other at e))
  ]

  -- A round that goes on found a step at a text cursor, and the next cursor is a successor of it.
  pub iterate-Round :
      (m : Dict Step) (cursor : Value) (r : Run) (next : Value)
      → (iterate w h m cursor r).0 ≡ return next
      → Round m cursor next
  unfolding iterate
  iterate-Round m cursor r next e =
      let (step, found, rest₁) = bind-returns (lift (find_step w h m cursor)) _ r e in
      let (_, _, rest₂) = bind-returns (enter w h cursor) _ _ rest₁ in
      let (type, has_type, rest₃) = bind-returns (lift (or_key_error "type" step.type)) _ _ rest₂ in
      let (key, at_key, in_map) = find_step-returns m cursor (lift-returns _ r found) in
      record {
        key = key;
        step = step;
        at_key = at_key;
        found = in_map;
        successor =
            go_on type step _ (or_key_error-returns "type" step.type (lift-returns _ _ has_type))
              rest₃;
      }
