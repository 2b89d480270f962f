-- ===== src/Executions/Session/Keeps.antt =====
-- Invariants of actions: one rule for each way to build an action.
use constructor.Prelude.{◌≡◌, refl, Bool, true, false, if◌then◌else◌}
use constructor.Outcome.{Outcome, return, raise}
use constructor.Executions.Session.{Run, Action, pure, lift, reads, modify, ◌>>=◌, and_then}

-- `m` keeps `P`, whether it returns or raises.
pub record Keeps {A : Type 0} (P : Run → Type 0) (m : Action A) : Type 0 where
  pub at : (r : Run) → P r → P (m r).1

module _ {A : Type 0} {P : Run → Type 0} where
  pub Keeps-pure : (a : A) → Keeps P (pure a)
  unfolding pure
  Keeps-pure a = record { at = λ r p. p }

  pub Keeps-lift : (o : Outcome A) → Keeps P (lift o)
  unfolding lift
  Keeps-lift o = record { at = λ r p. p }

  pub Keeps-reads : (f : Run → Outcome A) → Keeps P (reads f)
  unfolding reads
  Keeps-reads f = record { at = λ r p. p }

  pub Keeps-if : (b : Bool) (m n : Action A) → Keeps P m → Keeps P n → Keeps P (if b then m else n)
  Keeps-if true m n km kn = km
  Keeps-if false m n km kn = kn

pub Keeps-modify :
    {P : Run → Type 0} (f : Run → Run) → ((r : Run) → P r → P (f r)) → Keeps P (modify f)
unfolding modify
Keeps-modify f k = record { at = k }

module _ {A B : Type 0} {P : Run → Type 0} where
  and_then-keeps :
      (o : Outcome A) (f : A → Action B) (r : Run)
      → P r
      → ((a : A) → Keeps P (f a))
      → P (and_then o f r).1
  and_then-keeps (return a) f r p k = (k a).at r p
  and_then-keeps (raise e) f r p k = p

  pub Keeps-bind :
      (first : Action A) (rest : A → Action B)
      → Keeps P first
      → ((a : A) → Keeps P (rest a))
      → Keeps P (first >>= rest)
  unfolding ◌>>=◌
  Keeps-bind first rest kept goes_on = record {
    at = λ r p. and_then-keeps (first r).0 rest (first r).1 (kept.at r p) goes_on;
  }

  -- What was read from the state before is known of the rest of the block.
  pub Keeps-bind-reads :
      (f : Run → Outcome A) (g : A → Action B) {Q : A → Type 0}
      → ((r : Run) (a : A) → P r → f r ≡ return a → Q a)
      → ((a : A) → Q a → Keeps P (g a))
      → Keeps P (reads f >>= g)
  unfolding ◌>>=◌
  Keeps-bind-reads f g {Q} known kg = record { at = λ r p. go r p (f r) (known r) }
    where
      go :
          (r : Run)
          → P r
          → (o : Outcome A) → ((a : A) → P r → o ≡ return a → Q a)
          → P (and_then o g r).1
      go r p (return a) q = (kg a (q a p refl)).at r p
      go r p (raise e) q = p

pub ruleset keeps_rules = (Keeps-pure, Keeps-lift, Keeps-reads, Keeps-if, Keeps-bind)
