-- ===== src/Workflows/Validator/WellFormed.antt =====
-- `validate_steps` decides whether the steps are well formed.
use constructor.Prelude.{
  String, ◌≡◌, refl, sym, subst, ◌↔◌, false, List, [], ◌∷◌, elem, All, All-map,
}
use constructor.Workflows.Steps.{Step, ids}
use constructor.Workflows.Validator.{StepError, scan, scan_next, then_next, validate_steps}
use constructor.Workflows.Validator.Spec.{IsWellFormed}
use constructor.Workflows.Validator.Loops.{
  declare, AllNew-parts, AllNew-of_parts, scan-eq-nil, scan-AllNew, scan_next-eq-nil, declared_iff,
}

All-absent : (xs : List String) → All (λ x. elem x [] ≡ false) xs
unfolding elem
All-absent [] = tt
All-absent (x ∷ xs) = (refl, All-absent xs)

then_next-eq-nil :
    (r : List StepError × List String) (steps : List Step)
    → then_next r steps ≡ []
    → (r.0 ≡ []) × (scan_next 0 r.1 steps ≡ [])
unfolding then_next
then_next-eq-nil ([], seen) steps h = (refl, h)
then_next-eq-nil (e ∷ es, seen) steps h = cc

validate_steps-IsWellFormed : (steps : List Step) → validate_steps steps ≡ [] → IsWellFormed steps
unfolding validate_steps
validate_steps-IsWellFormed [] h = cc
validate_steps-IsWellFormed (s ∷ ss) h =
    let steps = s ∷ ss in
    let (no_error, no_next_error) = then_next-eq-nil (scan 0 [] steps) steps h in
    let (new, final) = scan-eq-nil 0 [] steps no_error in
    let (sound, unique, _) = AllNew-parts [] steps new in
    let targets = (scan_next-eq-nil 0 (declare [] steps) steps).0 (rw final at no_next_error) in
    record {
      some_step = λ e. cc;
      sound = sound;
      unique = unique;
      targets = All-map _ _ steps (λ x. (declared_iff steps x.next).0) targets;
    }

IsWellFormed-validate_steps : (steps : List Step) → IsWellFormed steps → validate_steps steps ≡ []
unfolding validate_steps
IsWellFormed-validate_steps [] h = absurd (h.some_step refl)
IsWellFormed-validate_steps (s ∷ ss) h =
    let steps = s ∷ ss in
    let new = AllNew-of_parts [] steps h.sound h.unique (All-absent (ids steps)) in
    let targets = All-map _ _ steps (λ x. (declared_iff steps x.next).1) h.targets in
    subst (λ r. then_next r steps ≡ []) (sym (scan-AllNew 0 [] steps new))
      ((scan_next-eq-nil 0 (declare [] steps) steps).1 targets)

-- The validator reports no error exactly for well-formed steps: at least one step, each with a
-- known type, a nonempty id and a positive timeout, no id twice, and every text in `next` the id
-- of a step.
pub validate_steps-eq-nil_iff :
    (steps : List Step) → (validate_steps steps ≡ []) ↔ IsWellFormed steps
validate_steps-eq-nil_iff steps =
    (validate_steps-IsWellFormed steps, IsWellFormed-validate_steps steps)
