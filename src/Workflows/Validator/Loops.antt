-- ===== src/Workflows/Validator/Loops.antt =====
-- The two loops of `validate_steps`, step by step.
use constructor.Prelude.{
  ℕ, suc, String, ◌≡◌, refl, ◌↔◌, false, List, [], ◌∷◌, ◌++◌, elem, eq_iff, get_or, All, All-map,
  Unique, arith, ◌||◌,
}
use constructor.Json.{Value, null, str}
use constructor.Workflows.Steps.{Step, ids}
use constructor.Workflows.Validator.{
  type_errors, id_errors, timeout_errors, scan, next_errors, scan_next,
}
use constructor.Workflows.Validator.Spec.{IsSound, NextDeclared}

-- The ids are new: none is in `seen`, and no two are equal.
abbrev pub AllNew : List String → List Step → Type 0
AllNew seen [] = Unit
AllNew seen (s ∷ ss) =
    IsSound s × (elem (get_or "" s.id) seen ≡ false) × AllNew (get_or "" s.id ∷ seen) ss

append-eq-nil : {A : Type 0} (xs ys : List A) → xs ++ ys ≡ [] → (xs ≡ []) × (ys ≡ [])
append-eq-nil [] ys h = (refl, h)
append-eq-nil (x ∷ xs) ys h = cc

step_no_errors :
    (i : ℕ) (seen : List String) (s : Step)
    → (type_errors i s ≡ []) × ((id_errors i seen s.id).0 ≡ []) × (timeout_errors i s ≡ [])
    → IsSound s
      × (elem (get_or "" s.id) seen ≡ false)
      × ((id_errors i seen s.id).1 ≡ get_or "" s.id ∷ seen)
unfolding type_errors id_errors timeout_errors
step_no_errors i seen s h = ground arith

step_sound :
    (i : ℕ) (seen : List String) (s : Step)
    → IsSound s
    → elem (get_or "" s.id) seen ≡ false
    → (type_errors i s ≡ [])
      × (id_errors i seen s.id ≡ ([], get_or "" s.id ∷ seen))
      × (timeout_errors i s ≡ [])
unfolding type_errors id_errors timeout_errors
step_sound i seen s h new = ground arith

-- The ids of the steps, put in front of `seen` one by one.
pub declare : List String → List Step → List String
declare seen [] = seen
declare seen (s ∷ ss) = declare (get_or "" s.id ∷ seen) ss

pub scan-eq-nil :
    (i : ℕ) (seen : List String) (ss : List Step)
    → (scan i seen ss).0 ≡ []
    → AllNew seen ss × ((scan i seen ss).1 ≡ declare seen ss)
unfolding scan declare
scan-eq-nil i seen [] h = (tt, refl)
scan-eq-nil i seen (s ∷ ss) h =
    let (no_type, r1) = append-eq-nil (type_errors i s) _ h in
    let (no_id, r2) = append-eq-nil (id_errors i seen s.id).0 _ r1 in
    let (no_timeout, r3) = append-eq-nil (timeout_errors i s) _ r2 in
    let (sound, new, seen') = step_no_errors i seen s (no_type, no_id, no_timeout) in
    let (rest, final) = scan-eq-nil (suc i) (get_or "" s.id ∷ seen) ss (rw seen' at r3) in
    ((sound, new, rest), rw seen' final)

pub scan-AllNew :
    (i : ℕ) (seen : List String) (ss : List Step)
    → AllNew seen ss
    → scan i seen ss ≡ ([], declare seen ss)
unfolding scan declare
scan-AllNew i seen [] h = refl
scan-AllNew i seen (s ∷ ss) h =
    let p = step_sound i seen s h.0 h.1 in
    ground (arith, p, scan-AllNew (suc i) (get_or "" s.id ∷ seen) ss h.2)

elem-declare :
    (x : String) (seen : List String) (ss : List Step)
    → elem x (declare seen ss) ≡ (elem x (ids ss) || elem x seen)
unfolding declare elem
elem-declare x seen [] = refl
elem-declare x seen (s ∷ ss) = ground (arith, elem-declare x (get_or "" s.id ∷ seen) ss)

next_errors-eq-nil :
    (i : ℕ) (seen : List String) (v : Value) → (next_errors i seen v ≡ []) ↔ NextDeclared seen v
unfolding next_errors
next_errors-eq-nil i seen (str n) = ground arith
next_errors-eq-nil i seen null = (λ _. tt, λ _. refl)
next_errors-eq-nil i seen _ = (λ _. tt, λ _. refl)

pub scan_next-eq-nil :
    (i : ℕ) (seen : List String) (ss : List Step)
    → (scan_next i seen ss ≡ []) ↔ All (λ s. NextDeclared seen s.next) ss
unfolding scan_next
scan_next-eq-nil i seen [] = (λ _. tt, λ _. refl)
scan_next-eq-nil i seen (s ∷ ss) =
    let here = next_errors-eq-nil i seen s.next in
    let rest = scan_next-eq-nil (suc i) seen ss in
    (
      λ h. let (a, b) = append-eq-nil (next_errors i seen s.next) _ h in (here.0 a, rest.0 b),
      λ h. rw (here.1 h.0) (rest.1 h.1),
    )

elem-tail : (x y : String) (l : List String) → elem x (y ∷ l) ≡ false → elem x l ≡ false
unfolding elem
elem-tail x y l h = ground arith

-- If no `x` of `xs` is among `y ∷ seen`, then `y` is not among `xs`.
new_head :
    (y : String) (seen xs : List String)
    → All (λ x. elem x (y ∷ seen) ≡ false) xs
    → elem y xs ≡ false
unfolding elem
new_head y seen [] h = refl
new_head y seen (x ∷ xs) h = ground (arith, eq_iff x y, eq_iff y x, new_head y seen xs h.1)

add_head :
    (y : String) (seen xs : List String)
    → elem y xs ≡ false
    → All (λ x. elem x seen ≡ false) xs
    → All (λ x. elem x (y ∷ seen) ≡ false) xs
unfolding elem
add_head y seen [] h all = tt
add_head y seen (x ∷ xs) h all =
    (ground (arith, eq_iff x y, eq_iff y x), add_head y seen xs (ground arith) all.1)

-- `AllNew`, taken apart.
pub AllNew-parts :
    (seen : List String) (ss : List Step)
    → AllNew seen ss
    → All IsSound ss × Unique (ids ss) × All (λ x. elem x seen ≡ false) (ids ss)
AllNew-parts seen [] h = (tt, tt, tt)
AllNew-parts seen (s ∷ ss) h =
    let (sound, unique, new) = AllNew-parts (get_or "" s.id ∷ seen) ss h.2 in
    (
      (h.0, sound),
      (new_head (get_or "" s.id) seen (ids ss) new, unique),
      (h.1, All-map _ _ (ids ss) (λ x. elem-tail x _ seen) new),
    )

pub AllNew-of_parts :
    (seen : List String) (ss : List Step)
    → All IsSound ss
    → Unique (ids ss)
    → All (λ x. elem x seen ≡ false) (ids ss)
    → AllNew seen ss
AllNew-of_parts seen [] sound unique new = tt
AllNew-of_parts seen (s ∷ ss) sound unique new = (
  sound.0,
  new.0,
  AllNew-of_parts (get_or "" s.id ∷ seen) ss sound.1 unique.1
      (add_head (get_or "" s.id) seen (ids ss) unique.0 new.1),
)

pub declared_iff :
    (steps : List Step) (v : Value) → NextDeclared (declare [] steps) v ↔ NextDeclared (ids steps) v
unfolding elem
declared_iff steps (str n) = ground (arith, elem-declare n [] steps)
declared_iff steps null = (λ h. h, λ h. h)
declared_iff steps _ = (λ h. h, λ h. h)
