-- ===== src/Prelude/Lists.antt =====
-- Lists over the native numbers, and predicates on lists by recursion.
use Prim.Native.Nat.{ℕ, zero, suc, ◌+◌, ◌<◌}
use Prim.Native.String.{String}
use mathlib.Core.Path.{◌≡◌, refl, ap, subst, ◌∙◌}
use mathlib.Core.Logic.{◌≢◌}
use mathlib.Core.Bool.{Bool, false, ◌||◌}
use mathlib.Core.Option.{Option, none, some}
use mathlib.Core.List.{List, [], ◌∷◌, ◌++◌}
use native.Mathlib.Omega.{arith}
use text.Mathlib.Text.{◌==◌}

module _ {ℓ} {A : Type ℓ} where
  abbrev pub length : List A → ℕ
  length [] = 0
  length (x ∷ xs) = suc (length xs)

  abbrev pub get_elem? : List A → ℕ → Option A
  get_elem? [] i = none
  get_elem? (x ∷ xs) zero = some x
  get_elem? (x ∷ xs) (suc i) = get_elem? xs i

  -- A write out of bounds changes nothing.
  abbrev pub set : List A → ℕ → A → List A
  set [] i v = []
  set (x ∷ xs) zero v = v ∷ xs
  set (x ∷ xs) (suc i) v = x ∷ set xs i v

  pub length-set : (xs : List A) (i : ℕ) (v : A) → length (set xs i v) ≡ length xs
  length-set [] i v = refl
  length-set (x ∷ xs) zero v = refl
  length-set (x ∷ xs) (suc i) v = ap suc (length-set xs i v)

  pub get_elem?-set_self :
      (xs : List A) (i : ℕ) (v : A) {w : A}
      → get_elem? xs i ≡ some w
      → get_elem? (set xs i v) i ≡ some v
  get_elem?-set_self [] i v there = cc
  get_elem?-set_self (x ∷ xs) zero v there = refl
  get_elem?-set_self (x ∷ xs) (suc i) v there = get_elem?-set_self xs i v there

  -- What a write leaves at its place, if anything is there, is what was written.
  pub get_elem?-set_inv :
      (xs : List A) (i : ℕ) (v : A) {w : A} → get_elem? (set xs i v) i ≡ some w → v ≡ w
  get_elem?-set_inv [] i v found = cc
  get_elem?-set_inv (x ∷ xs) zero v found = cc
  get_elem?-set_inv (x ∷ xs) (suc i) v found = get_elem?-set_inv xs i v found

  pub get_elem?-set_other :
      (xs : List A) (i j : ℕ) (v : A) → i ≢ j → get_elem? (set xs i v) j ≡ get_elem? xs j
  get_elem?-set_other [] i j v other = refl
  get_elem?-set_other (x ∷ xs) zero zero v other = absurd (other refl)
  get_elem?-set_other (x ∷ xs) zero (suc j) v other = refl
  get_elem?-set_other (x ∷ xs) (suc i) zero v other = refl
  get_elem?-set_other (x ∷ xs) (suc i) (suc j) v other =
      get_elem?-set_other xs i j v (λ e. other (ap suc e))

  pub get_elem?-append_left :
      (xs ys : List A) (i : ℕ) → i < length xs → get_elem? (xs ++ ys) i ≡ get_elem? xs i
  get_elem?-append_left [] ys i within = absurd (omega arith)
  get_elem?-append_left (x ∷ xs) ys zero within = refl
  get_elem?-append_left (x ∷ xs) ys (suc i) within = get_elem?-append_left xs ys i (omega arith)

  pub get_elem?-append_right :
      (xs ys : List A) (i : ℕ) → get_elem? (xs ++ ys) (length xs + i) ≡ get_elem? ys i
  get_elem?-append_right [] ys i = let e : 0 + i ≡ i = omega arith in ap (get_elem? ys) e
  get_elem?-append_right (x ∷ xs) ys i =
      let e : suc (length xs) + i ≡ suc (length xs + i) = omega arith in
      ap (get_elem? (x ∷ (xs ++ ys))) e ∙ get_elem?-append_right xs ys i

  pub get_elem?-lt_length : (xs : List A) (i : ℕ) {x : A} → get_elem? xs i ≡ some x → i < length xs
  get_elem?-lt_length [] i found = cc
  get_elem?-lt_length (x ∷ xs) zero found = omega arith
  get_elem?-lt_length (x ∷ xs) (suc i) found = omega (arith, get_elem?-lt_length xs i found)

  pub length-append : (xs ys : List A) → length (xs ++ ys) ≡ length xs + length ys
  length-append [] ys = omega arith
  length-append (x ∷ xs) ys = omega (arith, length-append xs ys)

  abbrev pub All {κ} : (A → Type κ) → List A → Type κ
  All P [] = Unit
  All P (x ∷ xs) = P x × All P xs

  pub All-get_elem? {κ} :
      (P : A → Type κ) (xs : List A) (i : ℕ) {x : A} → All P xs → get_elem? xs i ≡ some x → P x
  All-get_elem? P [] i all found = cc
  All-get_elem? P (x ∷ xs) zero all found = subst P (some_injective found) all.0
    where
      some_injective : {a b : A} → some a ≡ some b → a ≡ b
      some_injective e = cc
  All-get_elem? P (x ∷ xs) (suc i) all found = All-get_elem? P xs i all.1 found

  pub All-append {κ} :
      (P : A → Type κ) (front back : List A) → All P front → All P back → All P (front ++ back)
  All-append P [] back f b = b
  All-append P (x ∷ front) back (p, f) b = (p, All-append P front back f b)

  pub All-map {κ μ} :
      (P : A → Type κ) (Q : A → Type μ) (xs : List A) → ((x : A) → P x → Q x) → All P xs → All Q xs
  All-map P Q [] f h = tt
  All-map P Q (x ∷ xs) f h = (f x h.0, All-map P Q xs f h.1)

-- `x in seen`, for a list or a set of texts.
unfoldable pub elem : String → List String → Bool
elem k [] = false
elem k (j ∷ js) = j == k || elem k js

-- The set holds every text once.
abbrev pub Unique : List String → Type 0
Unique [] = Unit
Unique (x ∷ xs) = (elem x xs ≡ false) × Unique xs
