-- ===== src/Executions/Transform.antt =====
-- services/platform-api/src/executions/transform.py. The context, the copy of it and the values that
-- are extracted share their dicts and lists, so the objects stand on a heap.
pub mod Sharing
pub mod Context
pub mod Result
pub mod Tests
use Prim.Native.Char.{code}
use Prim.Native.String
use constructor.Prelude.{
  ℕ, ◌+◌, String, Bool, Option, none, some, List, [], ◌∷◌, ◌++◌, map, Dict, lookup, insert, length,
  get_elem?, set, eqb, if◌then◌else◌,
}
use constructor.Prelude.Int.{ℤ}
use constructor.Json.{Float, Value, Fields, end, field}
use constructor.Outcome.{Outcome, return, raise, attribute_error, type_error}

-- What a name, an entry or an item holds: `ref` is the address of a dict or a list.
pub data Cell : Type 0 where
  null : Cell
  bool : Bool → Cell
  num : ℤ → Cell
  float : Float → Cell
  str : String → Cell
  ref : ℕ → Cell

pub data Object : Type 0 where
  dict : Dict Cell → Object
  list : List Cell → Object

-- An object's address is its place.
abbrev pub Heap : Type 0
Heap = List Object

-- `jmespath.search(expression, context)` on a heap: the value, which may be an object of the context,
-- and the objects that it makes. It changes no object.
abbrev pub Search : Type 0
Search = Value → Heap → ℕ → Outcome (Cell × List Object)

abbrev pub shift : ℕ → Cell → Cell
shift n null = null
shift n (bool b) = bool b
shift n (num z) = num z
shift n (float f) = float f
shift n (str s) = str s
shift n (ref p) = ref (p + n)

abbrev pub shift_object : ℕ → Object → Object
shift_object n (dict d) = dict (map (λ e. (e.0, shift n e.1)) d)
shift_object n (list xs) = list (map (shift n) xs)

-- `copy.deepcopy`: what the object shares within itself, the copy shares too. All of the heap is
-- copied; the copies that the new object does not reach are garbage.
unfoldable pub deepcopy : ℕ → Heap → ℕ × Heap
deepcopy p h = (p + length h, h ++ map (shift_object (length h)) h)

-- `dict.setdefault(key, {})` on the object at an address.
unfoldable pub default_in : String → ℕ → Option Object → Heap → Outcome Cell × Heap
default_in key p (some (dict d)) h = elim (lookup key d) [
  | some v ↦ (return v, h)
  | none ↦
      (return (ref (length h)), set (h ++ dict [] ∷ []) p (dict (insert key (ref (length h)) d)))
]
default_in key p (some (list xs)) h = (raise attribute_error, h)
default_in key p none h = (raise attribute_error, h)

unfoldable pub set_default : String → Cell → Heap → Outcome Cell × Heap
unfolding default_in
set_default key (ref p) h = default_in key p (get_elem? h p) h
set_default key null h = (raise attribute_error, h)
set_default key (bool b) h = (raise attribute_error, h)
set_default key (num z) h = (raise attribute_error, h)
set_default key (float f) h = (raise attribute_error, h)
set_default key (str s) h = (raise attribute_error, h)

-- `current[key] = value`, with a text as the key.
unfoldable pub item_in : String → Cell → ℕ → Option Object → Heap → Outcome (Unit {0}) × Heap
item_in key v p (some (dict d)) h = (return tt, set h p (dict (insert key v d)))
item_in key v p (some (list xs)) h = (raise type_error, h)
item_in key v p none h = (raise type_error, h)

unfoldable pub set_item : String → Cell → Cell → Heap → Outcome (Unit {0}) × Heap
unfolding item_in
set_item key v (ref p) h = item_in key v p (get_elem? h p) h
set_item key v null h = (raise type_error, h)
set_item key v (bool b) h = (raise type_error, h)
set_item key v (num z) h = (raise type_error, h)
set_item key v (float f) h = (raise type_error, h)
set_item key v (str s) h = (raise type_error, h)

-- The loop of `_set_nested` and its last line, over the keys of the path.
unfoldable pub set_keys : List String → Cell → Cell → Heap → Outcome (Unit {0}) × Heap
unfolding set_default set_item
set_keys [] v current h = (return tt, h)
set_keys (key ∷ []) v current h = set_item key v current h
set_keys (key ∷ next ∷ keys) v current h = elim (set_default key current h).0 [
  | raise e ↦ (raise e, (set_default key current h).1)
  | return inner ↦ set_keys (next ∷ keys) v inner (set_default key current h).1
]

-- `path.split(".")`
abbrev push_char : Prim.Native.Char.Char → List String → List String
push_char c [] = String.◌∷◌ c "" ∷ []
push_char c (w ∷ ws) = String.◌∷◌ c w ∷ ws

unfoldable pub split_dots : String → List String
split_dots String.[] = "" ∷ []
split_dots (String.◌∷◌ c s) =
    let rest = split_dots s in if eqb (code c) b'.' then "" ∷ rest else push_char c rest

unfoldable pub set_nested : String → Cell → Cell → Heap → Outcome (Unit {0}) × Heap
unfolding set_keys
set_nested path v data_ h = set_keys (split_dots path) v data_ h

module _ (search : Search) where
  -- One entry: the search is in the context, and the write in the result.
  unfoldable pub apply_entry : String → Value → ℕ → ℕ → Heap → Outcome (Unit {0}) × Heap
  unfolding set_nested
  apply_entry path expression context result h = elim (search expression h context) [
    | raise e ↦ (raise e, h)
    | return (v, made) ↦ set_nested path v (ref result) (h ++ made)
  ]

  unfoldable pub apply_entries : Fields → ℕ → ℕ → Heap → Outcome (Unit {0}) × Heap
  unfolding apply_entry
  apply_entries end context result h = (return tt, h)
  apply_entries (field path expression config) context result h =
      elim (apply_entry path expression context result h).0 [
        | raise e ↦ (raise e, (apply_entry path expression context result h).1)
        | return done ↦
            apply_entries config context result (apply_entry path expression context result h).1
      ]

  -- The address of the result, or the exception; and the heap, also after an exception.
  unfoldable pub apply_transform : Fields → ℕ → Heap → Outcome ℕ × Heap
  unfolding deepcopy apply_entries
  apply_transform config context h =
      let (result, copied) = deepcopy context h in
      let (o, h') = apply_entries config context result copied in
      (elim o [ raise e ↦ raise e | return done ↦ return result ], h')
