-- ===== src/Executions/Transform/Tests.antt =====
-- Transform steps on a small context, and the theorems about them there.
use constructor.Prelude.{
  String, ◌≡◌, refl, some, none, [], Dict, lookup, insert, get_elem?, arith, inl, inr, length, ◌∷◌,
}
use constructor.Prelude.Int.{pos}
use constructor.Json
use constructor.Json.{Fields, end, field}
use constructor.Outcome.{return, raise, type_error}
use constructor.Executions.Transform.{
  Cell, null, num, str, ref, Object, dict, list, Heap, Search, split_dots, apply_transform,
}
use constructor.Executions.Transform.Sharing.{Keeps}
use constructor.Executions.Transform.Context.{MakesNew, apply_transform-Keeps}
use constructor.Executions.Transform.Result.{
  shift_entries, insert_all, apply_transform-insert_all, apply_transform-writes_context,
}

abbrev person : Dict Cell
person = ("name", str "Ana") ∷ []

abbrev root : Dict Cell
root = ("user", ref 1) ∷ ("total", num (pos 7)) ∷ []

abbrev context : Heap
context = dict root ∷ dict person ∷ []

abbrev found_in : String → Object → Cell
found_in key (dict d) = elim (lookup key d) [ none ↦ null | some v ↦ v ]
found_in key (list xs) = null

-- An expression that is a key of the context.
abbrev key_search : Search
key_search (Json.str key) h p = elim (get_elem? h p) [
  | none ↦ return (null, [])
  | some o ↦ return (found_in key o, [])
]
key_search _ h p = return (null, [])

abbrev copies : Fields
copies = field "owner" (Json.str "user") (field "owner.checked" (Json.str "total") end)

-- The dict of the context has a new entry.
writes : apply_transform key_search copies 0 context ≡ (
  return 2,
  dict root
      ∷ dict (("name", str "Ana") ∷ ("checked", num (pos 7)) ∷ [])
      ∷ dict (("user", ref 3) ∷ ("total", num (pos 7)) ∷ ("owner", ref 1) ∷ [])
      ∷ dict person
      ∷ [],
)
unfolding apply_transform lookup insert split_dots
writes = refl

-- A write into a number, or a new dict on the way.
stops :
    (apply_transform key_search (field "total.x" (Json.str "user") end) 0 context).0
    ≡ raise type_error
unfolding apply_transform lookup insert split_dots
stops = refl

nests : (apply_transform key_search (field "a.b" (Json.str "total") end) 0 context).1 ≡ (
    dict root
    ∷ dict person
    ∷ dict (("user", ref 3) ∷ ("total", num (pos 7)) ∷ ("a", ref 4) ∷ [])
    ∷ dict person
    ∷ dict (("b", num (pos 7)) ∷ [])
    ∷ [])
unfolding apply_transform lookup insert split_dots
nests = refl

abbrev plain : Fields
plain = field "owner" (Json.str "user") (field "sum" (Json.str "total") end)

one_key-Keeps : Keeps 2 context (apply_transform key_search plain 0 context).1
unfolding split_dots
one_key-Keeps =
    apply_transform-Keeps key_search plain 0 context (inl (("owner", refl), (("sum", refl), tt)))

-- A search that makes a new dict, into which the second destination is written.
abbrev make_dict : Search
make_dict expression h p = return (ref (length h), dict (("total", num (pos 7)) ∷ []) ∷ [])

abbrev nested : Fields
nested = field "made" (Json.str "{total: `7`}") (field "made.total" (Json.str "{total: `7`}") end)

makes_new : (path : String) (expression : Json.Value) → MakesNew make_dict path expression
makes_new path expression h p = (omega arith, ((tt, tt), tt))

apply_transform-Keeps_example : Keeps 2 context (apply_transform make_dict nested 0 context).1
apply_transform-Keeps_example = apply_transform-Keeps make_dict nested 0 context (
    inr (
      makes_new "made" (Json.str "{total: `7`}"),
      (makes_new "made.total" (Json.str "{total: `7`}"), tt),
    ))

finds_user : (h : Heap) → Keeps 2 context h → key_search (Json.str "user") h 0 ≡ return (ref 1, [])
unfolding lookup
finds_user h keeps = rw (keeps.same 0 (omega arith), key_search) refl

finds_total :
    (h : Heap) → Keeps 2 context h → key_search (Json.str "total") h 0 ≡ return (num (pos 7), [])
unfolding lookup
finds_total h keeps = rw (keeps.same 0 (omega arith), key_search) refl

apply_transform-insert_all_example :
    (h' : Heap) × (apply_transform key_search plain 0 context ≡ (return 2, h'))
    × Keeps 2 context h'
    × (get_elem? h' 2
        ≡ some (
            dict
              (insert_all (("owner", ref 1) ∷ ("sum", num (pos 7)) ∷ []) (shift_entries 2 root))))
unfolding split_dots
apply_transform-insert_all_example =
    apply_transform-insert_all key_search plain (("owner", ref 1) ∷ ("sum", num (pos 7)) ∷ []) 0
      context root refl (refl, finds_user, (refl, finds_total, tt))

apply_transform-writes_context_example :
    (h' : Heap) × (apply_transform key_search copies 0 context ≡ (return 2, h'))
    × (get_elem? h' 1 ≡ some (dict (insert "checked" (num (pos 7)) person)))
unfolding split_dots
apply_transform-writes_context_example =
    apply_transform-writes_context key_search "owner" "owner.checked" "owner" "checked"
      (Json.str "user") (Json.str "total") (num (pos 7)) 1 0 context root person refl refl refl refl
      finds_user finds_total
