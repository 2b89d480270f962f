-- ===== src/Executions/Transform/Sharing.antt =====
-- What a transform step does to the objects of the context.
use constructor.Prelude.{
  ℕ, ◌+◌, ◌-◌, ◌≤◌, ◌<◌, String, ◌≡◌, refl, sym, ◌∙◌, ap, subst, Option, none, some, List, [], ◌∷◌,
  ◌++◌, inl, inr, Dict, lookup, insert, length, get_elem?, set, All, arith, length-set,
  length-append, get_elem?-set_other, get_elem?-append_left, get_elem?-append_right, Option-cases,
  eqb, eqb_iff, ltb, ltb→lt, Bool-cases, ◌==◌, get_elem?-set_inv, All-get_elem?,
}
use constructor.Outcome.{Outcome, return, raise, Outcome-cases}
use constructor.Executions.Transform.{
  Cell, null, bool, num, float, str, ref, Object, dict, list, Heap, default_in, set_default,
  item_in, set_item, set_keys,
}

-- The first objects of the heap are the same, and none is lost.
pub record Keeps (n : ℕ) (h h' : Heap) : Type 0 where
  pub grows : length h ≤ length h'
  pub same : (a : ℕ) → a < n → get_elem? h' a ≡ get_elem? h a

pub Keeps-refl : (n : ℕ) (h : Heap) → Keeps n h h
Keeps-refl n h = record { grows = omega arith; same = λ a below. refl }

pub Keeps-trans : (n : ℕ) {h h' h'' : Heap} → Keeps n h h' → Keeps n h' h'' → Keeps n h h''
Keeps-trans n first second = record {
  grows = omega (arith, first.grows, second.grows);
  same = λ a below. second.same a below ∙ first.same a below;
}

pub Keeps-append : (n : ℕ) (h extra : Heap) → n ≤ length h → Keeps n h (h ++ extra)
Keeps-append n h extra inside = record {
  grows = omega (arith, length-append h extra);
  same = λ a below. get_elem?-append_left h extra a (omega arith);
}

pub Keeps-set : (n : ℕ) (h : Heap) (p : ℕ) (o : Object) → n ≤ p → Keeps n h (set h p o)
Keeps-set n h p o outside = record {
  grows = omega (arith, length-set h p o);
  same = λ a below. get_elem?-set_other h p a o (λ e. absurd (omega arith));
}

-- The value is no object below the address `n`.
abbrev pub Above : ℕ → Cell → Type 0
Above n (ref p) = n ≤ p
Above n null = Unit
Above n (bool b) = Unit
Above n (num z) = Unit
Above n (float f) = Unit
Above n (str s) = Unit

-- The entries of a dict are no objects below `n`. Items of a list do not matter: a path does not
-- walk through a list.
abbrev pub EntriesAbove : ℕ → Object → Type 0
EntriesAbove n (dict d) = All (λ e. Above n e.1) d
EntriesAbove n (list xs) = Unit

-- No dict from `n` on has an entry below `n`.
abbrev pub Closed : ℕ → Heap → Type 0
Closed n h = (a : ℕ) (o : Object) → n ≤ a → get_elem? h a ≡ some o → EntriesAbove n o

Above-lookup :
    (n : ℕ) (d : Dict Cell) (k : String) {v : Cell}
    → All (λ e. Above n e.1) d
    → lookup k d ≡ some v
    → Above n v
unfolding lookup
Above-lookup n [] k above found = cc
Above-lookup n ((j, w) ∷ d) k {v} above found = elim (Bool-cases (j == k)) [
  | inl e ↦ subst (Above n) (some_injective (rw e at found)) above.0
  | inr e ↦ Above-lookup n d k above.1 (rw e at found)
]
  where
    some_injective : {a b : Cell} → some a ≡ some b → a ≡ b
    some_injective e = cc

Above-insert :
    (n : ℕ) (d : Dict Cell) (k : String) (v : Cell)
    → All (λ e. Above n e.1) d
    → Above n v
    → All (λ e. Above n e.1) (insert k v d)
unfolding insert
Above-insert n [] k v above it = (it, tt)
Above-insert n ((j, w) ∷ d) k v above it = elim (Bool-cases (j == k)) [
  | inl e ↦ rw e (it, above.1)
  | inr e ↦ rw e (above.0, Above-insert n d k v above.1 it)
]

Closed-set :
    (n : ℕ) (h : Heap) (p : ℕ) (o : Object) → Closed n h → EntriesAbove n o → Closed n (set h p o)
Closed-set n h p o closed above a o' over found = elim (Bool-cases (eqb p a)) [
  | inl e ↦
      subst (EntriesAbove n)
        (get_elem?-set_inv h p o
          (subst (λ i. get_elem? (set h p o) i ≡ some o') (sym ((eqb_iff p a).0 e)) found))
        above
  | inr e ↦
      closed a o' over
        (sym (get_elem?-set_other h p a o (λ same. cc (e, (eqb_iff p a).1 same))) ∙ found)
]

pub Closed-append :
    (n : ℕ) (h extra : Heap) → Closed n h → All (EntriesAbove n) extra → Closed n (h ++ extra)
Closed-append n h extra closed above a o over found = elim (Bool-cases (ltb a (length h))) [
  | inl e ↦ closed a o over (sym (get_elem?-append_left h extra a (ltb→lt a (length h) e)) ∙ found)
  | inr e ↦
      let at_end : a ≡ length h + (a - length h) = ground arith in
      All-get_elem? (EntriesAbove n) extra (a - length h) above (
        sym (get_elem?-append_right h extra (a - length h))
        ∙ (ap (get_elem? (h ++ extra)) (sym at_end) ∙ found))
]

-- Writes stay in the closed part.
pub record Inside (n : ℕ) (h h' : Heap) : Type 0 where
  pub keeps : Keeps n h h'
  pub closed : Closed n h'

Inside-refl : (n : ℕ) (h : Heap) → Closed n h → Inside n h h
Inside-refl n h closed = record { keeps = Keeps-refl n h; closed = closed }

pub Inside-trans : (n : ℕ) {h h' h'' : Heap} → Inside n h h' → Inside n h' h'' → Inside n h h''
Inside-trans n first second = record {
  keeps = Keeps-trans n first.keeps second.keeps;
  closed = second.closed;
}

pub Inside-append :
    (n : ℕ) (h extra : Heap)
    → n ≤ length h
    → Closed n h
    → All (EntriesAbove n) extra
    → Inside n h (h ++ extra)
Inside-append n h extra inside closed above = record {
  keeps = Keeps-append n h extra inside;
  closed = Closed-append n h extra closed above;
}

Inside-set :
    (n : ℕ) (h : Heap) (p : ℕ) (o : Object)
    → n ≤ p
    → Closed n h
    → EntriesAbove n o
    → Inside n h (set h p o)
Inside-set n h p o outside closed above = record {
  keeps = Keeps-set n h p o outside;
  closed = Closed-set n h p o closed above;
}

abbrev ResultAbove : ℕ → Outcome Cell → Type 0
ResultAbove n (return v) = Above n v
ResultAbove n (raise e) = Unit

module _ (n : ℕ) (h : Heap) (inside : n ≤ length h) (closed : Closed n h) where
  default_in-Inside :
      (key : String) (p : ℕ) (o : Option Object)
      → n ≤ p
      → get_elem? h p ≡ o
      → Inside n h (default_in key p o h).1 × ResultAbove n (default_in key p o h).0
  unfolding default_in
  default_in-Inside key p none outside at_p = (Inside-refl n h closed, tt)
  default_in-Inside key p (some (list xs)) outside at_p = (Inside-refl n h closed, tt)
  default_in-Inside key p (some (dict d)) outside at_p = elim (Option-cases (lookup key d)) [
    | inl absent ↦
        rw (absent, default_in)
          (
            Inside-trans n (Inside-append n h (dict [] ∷ []) inside closed (tt, tt)) (
                Inside-set n (h ++ dict [] ∷ []) p _ outside
                  (Closed-append n h (dict [] ∷ []) closed (tt, tt))
                  (Above-insert n d key (ref (length h)) (closed p (dict d) outside at_p) inside)),
            inside,
          )
    | inr (v, found) ↦
        rw (found, default_in)
          (Inside-refl n h closed, Above-lookup n d key (closed p (dict d) outside at_p) found)
  ]

  set_default-Inside :
      (key : String) (current : Cell)
      → Above n current
      → Inside n h (set_default key current h).1 × ResultAbove n (set_default key current h).0
  unfolding set_default
  set_default-Inside key (ref p) above = default_in-Inside key p _ above refl
  set_default-Inside key null above = (Inside-refl n h closed, tt)
  set_default-Inside key (bool b) above = (Inside-refl n h closed, tt)
  set_default-Inside key (num z) above = (Inside-refl n h closed, tt)
  set_default-Inside key (float f) above = (Inside-refl n h closed, tt)
  set_default-Inside key (str s) above = (Inside-refl n h closed, tt)

  item_in-Inside :
      (key : String) (v : Cell) (p : ℕ) (o : Option Object)
      → Above n v
      → n ≤ p
      → get_elem? h p ≡ o
      → Inside n h (item_in key v p o h).1
  unfolding item_in
  item_in-Inside key v p none it outside at_p = Inside-refl n h closed
  item_in-Inside key v p (some (list xs)) it outside at_p = Inside-refl n h closed
  item_in-Inside key v p (some (dict d)) it outside at_p =
      Inside-set n h p _ outside closed (Above-insert n d key v (closed p (dict d) outside at_p) it)

  set_item-Inside :
      (key : String) (v current : Cell)
      → Above n v
      → Above n current
      → Inside n h (set_item key v current h).1
  unfolding set_item
  set_item-Inside key v (ref p) it above = item_in-Inside key v p _ it above refl
  set_item-Inside key v null it above = Inside-refl n h closed
  set_item-Inside key v (bool b) it above = Inside-refl n h closed
  set_item-Inside key v (num z) it above = Inside-refl n h closed
  set_item-Inside key v (float f) it above = Inside-refl n h closed
  set_item-Inside key v (str s) it above = Inside-refl n h closed

pub set_keys-Inside :
    (n : ℕ) (keys : List String) (v current : Cell) (h : Heap)
    → n ≤ length h
    → Closed n h
    → Above n v
    → Above n current
    → Inside n h (set_keys keys v current h).1
unfolding set_keys
set_keys-Inside n [] v current h inside closed it above = Inside-refl n h closed
set_keys-Inside n (key ∷ []) v current h inside closed it above =
    set_item-Inside n h inside closed key v current it above
set_keys-Inside n (key ∷ next ∷ keys) v current h inside closed it above =
    let (step, its) = set_default-Inside n h inside closed key current above in
    elim (Outcome-cases (set_default key current h).0) [
      | inr (e, raised) ↦ rw (raised, set_keys) step
      | inl (inner, returned) ↦
          rw (returned, set_keys)
            (Inside-trans n step (
              set_keys-Inside n (next ∷ keys) v inner (set_default key current h).1
                (omega (arith, step.keeps.grows)) step.closed it
                (subst (ResultAbove n) returned its)))
    ]
