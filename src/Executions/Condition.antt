-- ===== src/Executions/Condition.antt =====
-- services/platform-api/src/executions/condition.py
pub mod Negation
pub mod Tests
use constructor.Prelude.{String, Bool, true, false, not, Option, none, some, ◌==◌, if◌then◌else◌}
use constructor.Json.{Value, Fields, str, arr, obj, get}
use constructor.Json.Compare.{gt, ge, lt, le, ordered, value_eq, contains}
use constructor.Outcome.{
  ◌>>=◌, Outcome, return, raise, type_error, key_error, or_key_error, map_return,
}

-- `_OPERATORS`, by its key.
unfoldable pub operators : String → Option (Value → Value → Outcome Bool)
operators k =
    if k == ">"
    then some (ordered gt)
    else if k == ">="
    then some (ordered ge)
    else if k == "<"
    then some (ordered lt)
    else if k == "<="
    then some (ordered le)
    else if k == "=="
    then some (λ a b. return (value_eq a b))
    else if k == "!="
    then some (λ a b. return (not (value_eq a b)))
    else if k == "in"
    then some contains
    else if k == "not_in"
    then some (λ a b. map_return not (contains a b))
    else none

-- `_OPERATORS[k]`, for a key from the configuration: a list or dict is no key of any dict.
unfoldable pub find_operator : (Value → String) → Value → Outcome (Value → Value → Outcome Bool)
unfolding operators
find_operator format (str k) = or_key_error k (operators k)
find_operator format (arr _) = raise type_error
find_operator format (obj _) = raise type_error
find_operator format v = raise (key_error (format v))

-- `v[k]` for a text `k`.
unfoldable pub item : String → Value → Outcome Value
item k (obj d) = or_key_error k (get k d)
item k _ = raise type_error

-- `search` is `jmespath.search`, and `format` is Python's text of a value.
module _ (search : Value → Fields → Outcome Value) (format : Value → String) where
  unfoldable pub evaluate_condition : Fields → Fields → Outcome Value
  unfolding find_operator item
  evaluate_condition config context = do
    expression ← or_key_error "expression" (get "expression" config)
    extracted ← search expression context
    operator ← or_key_error "operator" (get "operator" config)
    compare_fn ← find_operator format operator
    value ← or_key_error "value" (get "value" config)
    result ← compare_fn extracted value
    branches ← or_key_error "branches" (get "branches" config)
    item (if result then "true" else "false") branches
