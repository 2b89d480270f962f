-- ===== src/Executions/Executor/Loop.antt =====
-- The loop of `execute_workflow`, one round at a time, and its proof rule.
use mathlib.Core.Option.{some-injective}
use constructor.Prelude.{
  subst, ℕ, zero, suc, ◌≡◌, refl, true, false, Option, some, none, Dict, Bool-cases, inl, inr, sym,
  ◌∙◌,
}
use constructor.Json.{Value, is_true}
use constructor.Outcome.{Outcome, return, raise, Exception, Outcome-cases}
use constructor.Workflows.Steps.{Step}
use constructor.Executions.Session.{World, Handlers, Run}
use constructor.Executions.Executor.{iterate, loop}

module _ (w : World) (h : Handlers) (m : Dict Step) where
  pub loop_spent : (cursor : Value) (r : Run) → loop w h zero m cursor r ≡ none
  unfolding loop
  loop_spent cursor r = refl

  pub loop_done :
      (fuel : ℕ) (cursor : Value) (r : Run)
      → is_true cursor ≡ false
      → loop w h (suc fuel) m cursor r ≡ some (return tt, r)
  unfolding loop
  loop_done fuel cursor r e = rw (e, loop)

  pub loop_raises :
      (fuel : ℕ) (cursor : Value) (r : Run) {e : Exception}
      → is_true cursor ≡ true
      → (iterate w h m cursor r).0 ≡ raise e
      → loop w h (suc fuel) m cursor r ≡ some (raise e, (iterate w h m cursor r).1)
  unfolding loop
  loop_raises fuel cursor r t e = rw (t, e, loop)

  pub loop_goes_on :
      (fuel : ℕ) (cursor : Value) (r : Run) {next : Value}
      → is_true cursor ≡ true
      → (iterate w h m cursor r).0 ≡ return next
      → loop w h (suc fuel) m cursor r ≡ loop w h fuel m next (iterate w h m cursor r).1
  unfolding loop
  loop_goes_on fuel cursor r t e = rw (t, e, loop)

  -- `P` holds at the head of the loop and `Q` when it is left. If `Q` follows from `P` in each of the
  -- ways to leave and `P` is kept by a round that goes on, then `Q` holds of any loop that ends.
  pub record LoopRule (P : Value → Run → Type 0) (Q : Outcome (Unit {0}) → Run → Type 0)
      : Type 0 where
    pub leaves : (cursor : Value) (r : Run) → P cursor r → is_true cursor ≡ false → Q (return tt) r
    pub raises :
        (cursor : Value) (r : Run) (e : Exception)
        → P cursor r
        → is_true cursor ≡ true
        → (iterate w h m cursor r).0 ≡ raise e
        → Q (raise e) (iterate w h m cursor r).1
    pub goes_on :
        (cursor : Value) (r : Run) (next : Value)
        → P cursor r
        → is_true cursor ≡ true
        → (iterate w h m cursor r).0 ≡ return next
        → P next (iterate w h m cursor r).1

  module _ {P : Value → Run → Type 0} {Q : Outcome (Unit {0}) → Run → Type 0}
      (rule : LoopRule P Q) where
    at_end :
        {o o' : Outcome (Unit {0})} {r r' : Run}
        → ◌≡◌ {A = Option (Outcome (Unit {0}) × Run)} (some (o, r)) (some (o', r'))
        → Q o r
        → Q o' r'
    at_end e q =
        subst (λ (ended : Outcome (Unit {0}) × Run). Q ended.0 ended.1) (some-injective _ _ e) q

    pub loop_induction :
        (fuel : ℕ) (cursor : Value) (r : Run) (o : Outcome (Unit {0})) (r' : Run)
        → P cursor r
        → loop w h fuel m cursor r ≡ some (o, r')
        → Q o r'
    loop_induction zero cursor r o r' p ends = absurd (cc (loop_spent cursor r))
    loop_induction (suc fuel) cursor r o r' p ends = elim (Bool-cases (is_true cursor)) [
      | inr f ↦ at_end (sym (loop_done fuel cursor r f) ∙ ends) (rule.leaves cursor r p f)
      | inl t ↦ elim (Outcome-cases (iterate w h m cursor r).0) [
        | inl (next, e) ↦
            loop_induction fuel next (iterate w h m cursor r).1 o r'
              (rule.goes_on cursor r next p t e) (sym (loop_goes_on fuel cursor r t e) ∙ ends)
        | inr (x, e) ↦
            at_end (sym (loop_raises fuel cursor r t e) ∙ ends) (rule.raises cursor r x p t e)
      ]
    ]
