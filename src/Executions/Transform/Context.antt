-- ===== src/Executions/Transform/Context.antt =====
-- When a transform step leaves the context alone, and when it does not.
use constructor.Prelude.{
  Option, ℕ, ◌≤◌, String, ◌≡◌, subst, some, none, List, [], ◌∷◌, ◌++◌, map, ◌⊎◌, inl, inr, Dict,
  length, All, All-map, arith, get_elem?-lt_length,
}
use constructor.Json.{Value, Fields, end, field}
use constructor.Outcome.{Outcome, return, raise, Outcome-cases}
use constructor.Executions.Transform.{
  Cell, null, bool, num, float, str, ref, Object, dict, list, Heap, Search, shift, shift_object,
  deepcopy, item_in, set_item, set_keys, split_dots, set_nested, apply_entry, apply_entries,
  apply_transform,
}
use constructor.Executions.Transform.Sharing.{
  Keeps, Keeps-refl, Keeps-trans, Keeps-append, Keeps-set, Above, EntriesAbove, Closed,
  Closed-append, Inside, Inside-trans, Inside-append, set_keys-Inside,
}

Above-shift : (n : ℕ) (c : Cell) → Above n (shift n c)
Above-shift n (ref p) = omega arith
Above-shift n null = tt
Above-shift n (bool b) = tt
Above-shift n (num z) = tt
Above-shift n (float f) = tt
Above-shift n (str s) = tt

entries-shift :
    (n : ℕ) (d : Dict Cell)
    → All (λ (e : String × Cell). Above n e.1) (map (λ e. (e.0, shift n e.1)) d)
entries-shift n [] = tt
entries-shift n ((k, c) ∷ d) = (Above-shift n c, entries-shift n d)

EntriesAbove-shift : (n : ℕ) (h : Heap) → All (EntriesAbove n) (map (shift_object n) h)
EntriesAbove-shift n [] = tt
EntriesAbove-shift n (dict d ∷ h) = (entries-shift n d, EntriesAbove-shift n h)
EntriesAbove-shift n (list xs ∷ h) = (tt, EntriesAbove-shift n h)

Above-mono : (m n : ℕ) (c : Cell) → n ≤ m → Above m c → Above n c
Above-mono m n (ref p) le above = omega arith
Above-mono m n null le above = tt
Above-mono m n (bool b) le above = tt
Above-mono m n (num z) le above = tt
Above-mono m n (float f) le above = tt
Above-mono m n (str s) le above = tt

EntriesAbove-mono : (m n : ℕ) (o : Object) → n ≤ m → EntriesAbove m o → EntriesAbove n o
EntriesAbove-mono m n (dict d) le above =
    All-map (λ (e : String × Cell). Above m e.1) (λ e. Above n e.1) d (λ e. Above-mono m n e.1 le)
      above
EntriesAbove-mono m n (list xs) le above = tt

-- The copies are apart from what was copied.
deepcopy-Closed : (p : ℕ) (h : Heap) → Closed (length h) (deepcopy p h).1
unfolding deepcopy
deepcopy-Closed p h =
    Closed-append (length h) h (map (shift_object (length h)) h)
      (λ a o over found. absurd (omega (arith, get_elem?-lt_length h a found)))
      (EntriesAbove-shift (length h) h)

deepcopy-Keeps : (p : ℕ) (h : Heap) → Keeps (length h) h (deepcopy p h).1
unfolding deepcopy
deepcopy-Keeps p h = Keeps-append (length h) h _ (omega arith)

-- A predicate on the entries of a configuration.
abbrev pub Entries : (String → Value → Type 0) → Fields → Type 0
Entries P end = Unit
Entries P (field path expression config) = P path expression × Entries P config

-- The path has one key.
abbrev pub OneKey : String → Value → Type 0
OneKey path expression = (key : String) × (split_dots path ≡ key ∷ [])

-- What a search finds is no object that was there: a plain value, or an object that it makes.
abbrev pub Apart : ℕ → Outcome (Cell × List Object) → Type 0
Apart n (raise e) = Unit
Apart n (return (v, made)) = Above n v × All (EntriesAbove n) made

abbrev pub MakesNew : Search → String → Value → Type 0
MakesNew search path expression =
    (h : Heap) (context : ℕ) → Apart (length h) (search expression h context)

item_in-Keeps :
    (n : ℕ) (key : String) (v : Cell) (p : ℕ) (o : Option Object) (h : Heap)
    → n ≤ p
    → Keeps n h (item_in key v p o h).1
unfolding item_in
item_in-Keeps n key v p none h outside = Keeps-refl n h
item_in-Keeps n key v p (some (list xs)) h outside = Keeps-refl n h
item_in-Keeps n key v p (some (dict d)) h outside = Keeps-set n h p _ outside

module _ (search : Search) (n : ℕ) (context result : ℕ) (outside : n ≤ result) where
  apply_entry-Keeps :
      (path : String) (expression : Value) (h : Heap)
      → OneKey path expression
      → n ≤ length h
      → Keeps n h (apply_entry search path expression context result h).1
  unfolding apply_entry set_nested set_keys set_item
  apply_entry-Keeps path expression h (key, one) inside =
      elim (Outcome-cases (search expression h context)) [
        | inr (e, raised) ↦ rw (raised, apply_entry) (Keeps-refl n h)
        | inl ((v, made), found) ↦
            rw (found, apply_entry)
              (rw (one, set_keys)
                (Keeps-trans n (Keeps-append n h made inside)
                  (item_in-Keeps n key v result _ (h ++ made) outside)))
      ]

  apply_entry-Inside :
      (path : String) (expression : Value) (h : Heap)
      → MakesNew search path expression
      → n ≤ length h
      → Closed n h
      → Inside n h (apply_entry search path expression context result h).1
  unfolding apply_entry set_nested
  apply_entry-Inside path expression h new inside closed =
      elim (Outcome-cases (search expression h context)) [
        | inr (e, raised) ↦
            rw (raised, apply_entry) (record { keeps = Keeps-refl n h; closed = closed })
        | inl ((v, made), found) ↦
            let (it, objects) = subst (Apart (length h)) found (new h context) in
            let above =
              All-map (EntriesAbove (length h)) (EntriesAbove n) made
                (λ o. EntriesAbove-mono (length h) n o inside) objects in
            let step = Inside-append n h made inside closed above in
            rw (found, apply_entry)
              (Inside-trans n step (
                set_keys-Inside n (split_dots path) v (ref result) (h ++ made)
                  (omega (arith, step.keeps.grows)) step.closed
                  (Above-mono (length h) n v inside it) outside))
      ]

  apply_entries-Keeps :
      (config : Fields) (h : Heap)
      → Entries OneKey config
      → n ≤ length h
      → Keeps n h (apply_entries search config context result h).1
  unfolding apply_entries
  apply_entries-Keeps end h one inside = Keeps-refl n h
  apply_entries-Keeps (field path expression config) h one inside =
      let step = apply_entry-Keeps path expression h one.0 inside in
      elim (Outcome-cases (apply_entry search path expression context result h).0) [
        | inr (e, raised) ↦ rw (raised, apply_entries) step
        | inl (done, returned) ↦
            rw (returned, apply_entries)
              (Keeps-trans n step (
                apply_entries-Keeps config (apply_entry search path expression context result h).1
                  one.1 (omega (arith, step.grows))))
      ]

  apply_entries-Inside :
      (config : Fields) (h : Heap)
      → Entries (MakesNew search) config
      → n ≤ length h
      → Closed n h
      → Inside n h (apply_entries search config context result h).1
  unfolding apply_entries
  apply_entries-Inside end h new inside closed = record { keeps = Keeps-refl n h; closed = closed }
  apply_entries-Inside (field path expression config) h new inside closed =
      let step = apply_entry-Inside path expression h new.0 inside closed in
      elim (Outcome-cases (apply_entry search path expression context result h).0) [
        | inr (e, raised) ↦ rw (raised, apply_entries) step
        | inl (done, returned) ↦
            rw (returned, apply_entries)
              (Inside-trans n step (
                apply_entries-Inside config (apply_entry search path expression context result h).1
                  new.1 (omega (arith, step.keeps.grows)) step.closed))
      ]

-- A transform step changes no object that was there before it, the context and all that it reaches
-- included, whether it returns or raises. Condition: every destination has one key; or every
-- expression, in whatever heap and context it is searched, finds a plain value or an object that the
-- search makes, and no dict that it makes has an object of that heap for a value.
pub apply_transform-Keeps :
    (search : Search) (config : Fields) (context : ℕ) (h : Heap)
    → Entries OneKey config ⊎ Entries (MakesNew search) config
    → Keeps (length h) h (apply_transform search config context h).1
unfolding apply_transform
apply_transform-Keeps search config context h safe =
    let copied = deepcopy-Keeps context h in
    Keeps-trans (length h) copied (elim safe [
      | inl one ↦
          apply_entries-Keeps search (length h) context (deepcopy context h).0 (outside context h)
            config (deepcopy context h).1 one copied.grows
      | inr new ↦
          (apply_entries-Inside search (length h) context (deepcopy context h).0 (outside context h)
            config (deepcopy context h).1 new copied.grows (deepcopy-Closed context h)).keeps
    ])
  where
    outside : (p : ℕ) (h : Heap) → length h ≤ (deepcopy p h).0
    outside p h = omega arith
