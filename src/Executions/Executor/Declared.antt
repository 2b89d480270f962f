-- ===== src/Executions/Executor/Declared.antt =====
-- Validation and execution together: the loop finds a step at every cursor that it reaches.
use constructor.Prelude.{
  String, ◌≡◌, ◌≢◌, refl, sym, ap, subst, ◌∙◌, true, ◌||◌, Option, some, none, List, [], ◌∷◌, Dict,
  lookup, lookup-insert, All, arith, ◌==◌, eq_refl, elem, get_or, is_some, inl, inr, Option-cases,
}
use constructor.Json.{Value, Fields, null, str, is_true}
use constructor.Outcome.{return}
use constructor.Workflows.Steps.{Step, ids}
use constructor.Workflows.Validator.{validate_steps}
use constructor.Workflows.Validator.Spec.{IsSound, NextDeclared}
use constructor.Workflows.Validator.WellFormed.{validate_steps-eq-nil_iff}
use constructor.Executions.Session.{World, Handlers, Run}
use constructor.Executions.Executor.{find_step, iterate, insert_step, steps_map, first_step}
use constructor.Executions.Executor.Rounds.{Successor, by_next, by_condition, Round, iterate-Round}
use constructor.Executions.Executor.Termination.{
  IsMapOf, steps_map-IsMapOf, then-returns, return-injective,
}

-- The steps that `steps_map` has seen are in the map that it returns.
insert_step-has :
    (k : String) (o : Option String) (s : Step) (m : Dict Step) {m' : Dict Step}
    → insert_step o s m ≡ return m'
    → (get_or "" o == k || is_some (lookup k m)) ≡ true
    → is_some (lookup k m') ≡ true
unfolding insert_step
insert_step-has k none s m made old = cc
insert_step-has k (some id) s m {m'} made old =
    subst (λ (d : Dict Step). is_some (lookup k d) ≡ true) (return-injective made)
      (rw (lookup-insert id k s m) (ground arith))

steps_map-has :
    (k : String) (m : Dict Step) (steps : List Step) {m' : Dict Step}
    → steps_map m steps ≡ return m'
    → (elem k (ids steps) || is_some (lookup k m)) ≡ true
    → is_some (lookup k m') ≡ true
unfolding steps_map elem
steps_map-has k m [] made old =
    subst (λ (d : Dict Step). is_some (lookup k d) ≡ true) (return-injective made) old
steps_map-has k m (s ∷ ss) made old =
    let (m₁, inserted, rest) = then-returns (insert_step s.id s m) (λ m₂. steps_map m₂ ss) made in
    steps_map-has k m₁ ss rest (ground (arith, insert_step-has k s.id s m {m' = m₁} inserted))

-- The value, if it is true, is the id of a declared step.
abbrev pub Names : List String → Value → Type 0
Names declared v = is_true v ≡ true → (k : String) × (v ≡ str k) × (elem k declared ≡ true)

-- `next` is a text or `None`; the schema lets a dict through as well.
abbrev pub IsTextOrNull : Value → Type 0
IsTextOrNull null = Unit
IsTextOrNull (str _) = Unit
IsTextOrNull _ = ⊥

null_false : ¬ (is_true null ≡ true)
unfolding is_true
null_false t = cc

Names-of_next :
    (declared : List String) (v : Value)
    → IsTextOrNull v
    → NextDeclared declared v
    → Names declared v
Names-of_next declared (str k) text known t = (k, refl, known)
Names-of_next declared null text known t = absurd (null_false t)
Names-of_next declared _ text known t = absurd text

All-zip :
    (P Q R : Step → Type 0) (xs : List Step)
    → All P xs
    → All Q xs
    → All R xs
    → All (λ s. P s × Q s × R s) xs
All-zip P Q R [] p q r = tt
All-zip P Q R (x ∷ xs) p q r = ((p.0, q.0, r.0), All-zip P Q R xs p.1 q.1 r.1)

some_of_is_some : {A : Type 0} (o : Option A) → is_some o ≡ true → (a : A) × (o ≡ some a)
some_of_is_some none h = cc
some_of_is_some (some a) h = (a, refl)

first-Names :
    (steps : List Step) → steps ≢ [] → All IsSound steps → Names (ids steps) (first_step steps)
unfolding first_step elem
first-Names [] some_step sound t = absurd (some_step refl)
first-Names (s ∷ ss) some_step sound t = elim (Option-cases s.id) [
  | inl missing ↦ absurd (sound.0.named missing)
  | inr (id, e) ↦ (id, ground arith, ground (arith, eq_refl id))
]

module _ (w : World) (h : Handlers) where
  -- Every outcome of the step's condition, if it has one, is the id of a declared step or ends the
  -- workflow.
  abbrev pub BranchesDeclared : List String → Step → Type 0
  BranchesDeclared declared s =
      (config context : Fields) (next : Value)
      → s.type ≡ some "condition"
      → s.config ≡ some config
      → h.evaluate_condition config context ≡ return next
      → Names declared next

  -- The heads of the loop that an execution comes to.
  pub data Reach (m : Dict Step) (first : Value) (began : Run) : Value → Run → Type 0 where
    at_start : Reach m first began first began
    after_round :
        {cursor : Value} {r : Run} (next : Value)
        → Reach m first began cursor r
        → is_true cursor ≡ true
        → (iterate w h m cursor r).0 ≡ return next
        → Reach m first began next (iterate w h m cursor r).1

  -- What the loop needs of each step of a definition with these ids.
  abbrev LeadsOn : List String → Step → Type 0
  LeadsOn declared s =
      IsTextOrNull s.next × NextDeclared declared s.next × BranchesDeclared declared s

  Round-Names :
      (m : Dict Step) (declared : List String) {cursor next : Value}
      → IsMapOf (LeadsOn declared) m
      → Round w h m cursor next
      → Names declared next
  Round-Names m declared all round =
      let ((text, known, branches), _) = all round.key round.step round.found in
      go round.step round.successor text known branches
    where
      go :
          (s : Step) {v : Value}
          → Successor w h s v
          → IsTextOrNull s.next
          → NextDeclared declared s.next
          → BranchesDeclared declared s
          → Names declared v
      go s (by_next e) text known branches =
          subst (Names declared) (sym e) (Names-of_next declared s.next text known)
      go s {v} (by_condition config context typed configured gives) text known branches =
          branches config context v typed configured gives

  module _ {m : Dict Step} {first : Value} {began : Run} (declared : List String)
      (all : IsMapOf (LeadsOn declared) m) (start_named : Names declared first) where
    Reach-Names : {cursor : Value} {r : Run} → Reach m first began cursor r → Names declared cursor
    Reach-Names at_start = start_named
    Reach-Names (after_round {cursor} {r} next before t went_on) =
        Round-Names m declared all (iterate-Round w h m cursor r next went_on)

  none_yet : (P : Step → Type 0) → IsMapOf P []
  unfolding lookup
  none_yet P k t e = cc

  find_step-found :
      (m : Dict Step) (k : String) (step : Step)
      → lookup k m ≡ some step
      → find_step w h m (str k) ≡ return step
  unfolding find_step
  find_step-found m k step found = rw (found, find_step)

  -- For steps that pass the validator, with texts or null as `next` and with conditions that
  -- choose declared steps: at every head of the loop that an execution comes to, the cursor is
  -- false or its step is found, so the error "not in definition" is never raised.
  pub find_step-returns_when_valid :
      (steps : List Step) (m : Dict Step) (began r : Run) (cursor : Value)
      → validate_steps steps ≡ []
      → All (λ s. IsTextOrNull s.next) steps
      → All (BranchesDeclared (ids steps)) steps
      → steps_map [] steps ≡ return m
      → Reach m (first_step steps) began cursor r
      → is_true cursor ≡ true
      → (step : Step) × (find_step w h m cursor ≡ return step)
  find_step-returns_when_valid steps m began r cursor valid texts branches made reached t =
      let good = (validate_steps-eq-nil_iff steps).0 valid in
      let all =
        steps_map-IsMapOf (LeadsOn (ids steps)) [] steps (none_yet _)
          (All-zip _ _ _ steps texts good.targets branches) made in
      let (k, at_k, declared) =
        Reach-Names (ids steps) all (first-Names steps good.some_step good.sound) reached t in
      let (step, found) = some_of_is_some (lookup k m) (
        steps_map-has k [] steps made (ap (λ b. b || is_some (lookup {V = Step} k [])) declared)) in
      (step, ap (find_step w h m) at_k ∙ find_step-found m k step found)
