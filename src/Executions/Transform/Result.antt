-- ===== src/Executions/Transform/Result.antt =====
-- The result of a transform step, and how a shared object is written.
use constructor.Prelude.{
  ℕ, zero, suc, ◌+◌, ◌≤◌, String, ◌≡◌, ◌≢◌, refl, ◌∙◌, ap, Option, some, List, [], ◌∷◌, ◌++◌, map,
  Dict, lookup, insert, length, get_elem?, set, arith, append-nil, get_elem?-set_self,
  get_elem?-append_right, get_elem?-lt_length, lookup-insert_self,
}
use mathlib.Core.Option
use constructor.Json.{Value, Fields, end, field}
use constructor.Outcome.{Outcome, return, raise}
use constructor.Executions.Transform.{
  Cell, ref, Object, dict, Heap, Search, shift, shift_object, deepcopy, default_in, set_default,
  item_in, set_item, set_keys, split_dots, set_nested, apply_entry, apply_entries, apply_transform,
}
use constructor.Executions.Transform.Sharing.{Keeps, Keeps-trans, Keeps-append, Keeps-set}

-- The entries of the copy of a dict.
abbrev pub shift_entries : ℕ → Dict Cell → Dict Cell
shift_entries n d = map (λ e. (e.0, shift n e.1)) d

get_elem?-map :
    (f : Object → Object) (h : Heap) (p : ℕ) {o : Object}
    → get_elem? h p ≡ some o
    → get_elem? (map f h) p ≡ some (f o)
get_elem?-map f [] p found = cc
get_elem?-map f (x ∷ h) zero found = ap (λ (o : Option Object). Option.map f o) found
get_elem?-map f (x ∷ h) (suc p) found = get_elem?-map f h p found

deepcopy-dict :
    (p : ℕ) (h : Heap) (d : Dict Cell)
    → get_elem? h p ≡ some (dict d)
    → get_elem? (deepcopy p h).1 (deepcopy p h).0 ≡ some (dict (shift_entries (length h) d))
unfolding deepcopy
deepcopy-dict p h d found =
    let swapped : p + length h ≡ length h + p = omega arith in
    ap (get_elem? (h ++ map (shift_object (length h)) h)) swapped
    ∙ (get_elem?-append_right h (map (shift_object (length h)) h) p
        ∙ get_elem?-map (shift_object (length h)) h p found)

set_default-found :
    (key : String) (p : ℕ) (h : Heap) (c : Dict Cell) {v : Cell}
    → get_elem? h p ≡ some (dict c)
    → lookup key c ≡ some v
    → set_default key (ref p) h ≡ (return v, h)
unfolding set_default default_in
set_default-found key p h c at_p inner = rw (at_p, default_in) (rw inner refl)

set_keys-step :
    (key next : String) (keys : List String) (v current : Cell) (h : Heap) {inner : Cell}
    {h' : Heap}
    → set_default key current h ≡ (return inner, h')
    → set_keys (key ∷ next ∷ keys) v current h ≡ set_keys (next ∷ keys) v inner h'
unfolding set_keys
set_keys-step key next keys v current h found =
    ap
      (λ (r : Outcome Cell × Heap). elim r.0 as (λ _. Outcome (Unit {0}) × Heap) [
        | raise e ↦ (raise e, r.1)
        | return inner ↦ set_keys (next ∷ keys) v inner r.1
      ])
      found

module _ (search : Search) (context result : ℕ) where
  apply_entries-step :
      (path : String) (expression : Value) (config : Fields) (h : Heap) {h' : Heap}
      → apply_entry search path expression context result h ≡ (return tt, h')
      → apply_entries search (field path expression config) context result h
        ≡ apply_entries search config context result h'
  unfolding apply_entries
  apply_entries-step path expression config h applied =
      ap
        (λ (r : Outcome (Unit {0}) × Heap). elim r.0 as (λ _. Outcome (Unit {0}) × Heap) [
          | raise e ↦ (raise e, r.1)
          | return done ↦ apply_entries search config context result r.1
        ])
        applied

  -- An entry with one key, in a heap where the search finds a value.
  apply_entry-insert :
      (path key : String) (expression : Value) (v : Cell) (h : Heap) (d : Dict Cell)
      → split_dots path ≡ key ∷ []
      → search expression h context ≡ return (v, [])
      → get_elem? h result ≡ some (dict d)
      → apply_entry search path expression context result h
        ≡ (return tt, set h result (dict (insert key v d)))
  unfolding apply_entry set_nested set_keys set_item item_in
  apply_entry-insert path key expression v h d one found at_result =
      rw (found, apply_entry)
        (rw (append-nil h) (rw (one, set_keys) (rw (at_result, item_in) refl)))

  -- An entry with two keys, where the first leads to a dict.
  apply_entry-insert_inner :
      (path outer key : String) (expression : Value) (v : Cell) (h : Heap) (c d : Dict Cell) (q : ℕ)
      → split_dots path ≡ outer ∷ key ∷ []
      → search expression h context ≡ return (v, [])
      → get_elem? h result ≡ some (dict c)
      → lookup outer c ≡ some (ref q)
      → get_elem? h q ≡ some (dict d)
      → apply_entry search path expression context result h
        ≡ (return tt, set h q (dict (insert key v d)))
  unfolding apply_entry set_nested set_item item_in
  apply_entry-insert_inner path outer key expression v h c d q two found at_result inner at_q =
      rw (found, apply_entry)
        (rw (append-nil h) (
          rw two (
            set_keys-step outer key [] v (ref result) h
              (set_default-found outer result h c at_result inner)
            ∙ rw (at_q, item_in) refl)))

-- The entries that a configuration with paths of one key writes, in order: the search finds them in
-- every heap where the objects of the first one are the same.
abbrev pub Finds : Search → ℕ → Heap → Fields → Dict Cell → Type 0
Finds search context h end [] = Unit
Finds search context h end (e ∷ entries) = ⊥
Finds search context h (field path expression config) [] = ⊥
Finds search context h (field path expression config) ((key, v) ∷ entries) =
    (split_dots path ≡ key ∷ [])
    × ((h' : Heap) → Keeps (length h) h h' → search expression h' context ≡ return (v, []))
    × Finds search context h config entries

-- `d[k] = v` for each entry, in order.
abbrev pub insert_all : Dict Cell → Dict Cell → Dict Cell
insert_all [] d = d
insert_all ((k, v) ∷ entries) d = insert_all entries (insert k v d)

module _ (search : Search) (context result : ℕ) (h : Heap) (outside : length h ≤ result) where
  apply_entries-insert_all :
      (config : Fields) (entries : Dict Cell) (h' : Heap) (d : Dict Cell)
      → Finds search context h config entries
      → Keeps (length h) h h'
      → get_elem? h' result ≡ some (dict d)
      → (end_ : Heap) × (apply_entries search config context result h' ≡ (return tt, end_))
        × Keeps (length h) h end_
        × (get_elem? end_ result ≡ some (dict (insert_all entries d)))
  unfolding apply_entries
  apply_entries-insert_all end [] h' d finds keeps at_result = (h', refl, keeps, at_result)
  apply_entries-insert_all end (e ∷ entries) h' d finds keeps at_result = absurd finds
  apply_entries-insert_all (field path expression config) [] h' d finds keeps at_result =
      absurd finds
  apply_entries-insert_all (field path expression config) ((key, v) ∷ entries) h' d finds keeps
        at_result =
      let written = set h' result (dict (insert key v d)) in
      let step =
        apply_entry-insert search context result path key expression v h' d finds.0
          (finds.1 h' keeps) at_result in
      let (end_, ran, kept, at_end) =
        apply_entries-insert_all config entries written (insert key v d) finds.2
          (Keeps-trans (length h) keeps (Keeps-set (length h) h' result _ outside))
          (get_elem?-set_self h' result _ at_result) in
      (
        end_,
        apply_entries-step search context result path expression config h' step ∙ ran,
        kept,
        at_end,
      )

-- A transform step whose destinations have one key returns a new dict: the copy of the context with
-- the values that are found, written in order, a later one over an earlier one. The objects that
-- were there stay as they are. Condition: the search finds the same values in every heap that has
-- these objects.
pub apply_transform-insert_all :
    (search : Search) (config : Fields) (entries : Dict Cell) (context : ℕ) (h : Heap)
    (d : Dict Cell)
    → get_elem? h context ≡ some (dict d)
    → Finds search context h config entries
    → (h' : Heap) × (apply_transform search config context h ≡ (return (context + length h), h'))
      × Keeps (length h) h h'
      × (get_elem? h' (context + length h)
          ≡ some (dict (insert_all entries (shift_entries (length h) d))))
unfolding apply_transform deepcopy
apply_transform-insert_all search config entries context h d at_context finds =
    let (h', ran, kept, at_end) =
      apply_entries-insert_all search context (context + length h) h (omega arith) config entries
        (deepcopy context h).1 (shift_entries (length h) d) finds
        (Keeps-append (length h) h _ (omega arith)) (deepcopy-dict context h d at_context) in
    (h', rw (ran, apply_transform) refl, kept, at_end)

-- Two destinations, the second a key below the first: if the first value is a dict of the context,
-- the second is written into that dict, so the step changes the context that it was given.
pub apply_transform-writes_context :
    (search : Search) (first second outer key : String) (one two : Value) (v : Cell) (q context : ℕ)
    (h : Heap) (c d : Dict Cell)
    → split_dots first ≡ outer ∷ []
    → split_dots second ≡ outer ∷ key ∷ []
    → get_elem? h context ≡ some (dict c)
    → get_elem? h q ≡ some (dict d)
    → ((h' : Heap) → Keeps (length h) h h' → search one h' context ≡ return (ref q, []))
    → ((h' : Heap) → Keeps (length h) h h' → search two h' context ≡ return (v, []))
    → (h' : Heap) × (apply_transform search (field first one (field second two end)) context h
        ≡ (return (context + length h), h'))
      × (get_elem? h' q ≡ some (dict (insert key v d)))
unfolding apply_transform apply_entries deepcopy
apply_transform-writes_context search first second outer key one two v q context h c d is_first
      is_second at_context at_q finds_one finds_two =
    let n = length h in
    let r = context + n in
    let copied = (deepcopy context h).1 in
    let apart : r ≢ q = λ e. absurd (omega (arith, get_elem?-lt_length h q at_q)) in
    let kept = Keeps-append n h (map (shift_object n) h) (omega arith) in
    let root = deepcopy-dict context h c at_context in
    let entries = insert outer (ref q) (shift_entries n c) in
    let written = set copied r (dict entries) in
    let still = Keeps-set n copied r (dict entries) (omega arith) in
    let step_one =
      apply_entry-insert search context r first outer one (ref q) copied (shift_entries n c)
        is_first (finds_one copied kept) root in
    let at_q' = (Keeps-trans n kept still).same q (get_elem?-lt_length h q at_q) ∙ at_q in
    let step_two =
      apply_entry-insert_inner search context r second outer key two v written entries d q is_second
        (finds_two written (Keeps-trans n kept still))
        (get_elem?-set_self copied r (dict entries) root)
        (lookup-insert_self outer (ref q) (shift_entries n c)) at_q' in
    let ran =
      apply_entries-step search context r first one (field second two end) copied step_one
      ∙ apply_entries-step search context r second two end written step_two in
    (
      set written q (dict (insert key v d)),
      rw (ran, apply_transform) refl,
      get_elem?-set_self written q (dict (insert key v d)) at_q',
    )
