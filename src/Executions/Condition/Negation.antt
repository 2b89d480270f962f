-- ===== src/Executions/Condition/Negation.antt =====
-- A condition, its negation, and the branch that is taken.
use constructor.Prelude.{
  String, ◌≡◌, refl, sym, ◌∙◌, Bool, true, false, not, Option, none, some, if◌then◌else◌, arith,
}
use constructor.Json.{Value, Fields, str, obj, get, put, get-put}
use constructor.Json.Compare.{gt, ge, lt, le, ordered, value_eq, contains}
use constructor.Json.Compare.Order.{HasNoNan, ordered-opposite}
use constructor.Executions.Condition.{operators, item, evaluate_condition}
use constructor.Outcome.{Outcome, return, raise, or_key_error, map_return, ◌>>=◌}

-- The keys of `_OPERATORS`.
pub data Operator : Type 0 where
  greater greater_equal less less_equal equal not_equal is_in not_in : Operator

abbrev pub key : Operator → String
key greater = ">"
key greater_equal = ">="
key less = "<"
key less_equal = "<="
key equal = "=="
key not_equal = "!="
key is_in = "in"
key not_in = "not_in"

abbrev pub negation : Operator → Operator
negation greater = less_equal
negation greater_equal = less
negation less = greater_equal
negation less_equal = greater
negation equal = not_equal
negation not_equal = equal
negation is_in = not_in
negation not_in = is_in

abbrev function_of : Operator → Value → Value → Outcome Bool
function_of greater a b = ordered gt a b
function_of greater_equal a b = ordered ge a b
function_of less a b = ordered lt a b
function_of less_equal a b = ordered le a b
function_of equal a b = return (value_eq a b)
function_of not_equal a b = return (not (value_eq a b))
function_of is_in a b = contains a b
function_of not_in a b = map_return not (contains a b)

operators-key : (o : Operator) → operators (key o) ≡ some (function_of o)
unfolding operators
operators-key greater = refl
operators-key _ = refl

-- The operands of a comparison of size hold no NaN.
abbrev pub IsTotal : Operator → Value → Value → Type 0
IsTotal greater a b = HasNoNan a × HasNoNan b
IsTotal greater_equal a b = HasNoNan a × HasNoNan b
IsTotal less a b = HasNoNan a × HasNoNan b
IsTotal less_equal a b = HasNoNan a × HasNoNan b
IsTotal _ a b = Unit

function_of-negation :
    (o : Operator) (a b : Value)
    → IsTotal o a b
    → function_of (negation o) a b ≡ map_return not (function_of o a b)
function_of-negation greater a b total = ordered-opposite gt a b total.0 total.1
function_of-negation greater_equal a b total = ordered-opposite ge a b total.0 total.1
function_of-negation less a b total = ordered-opposite lt a b total.0 total.1
function_of-negation less_equal a b total = ordered-opposite le a b total.0 total.1
function_of-negation equal a b total = refl
function_of-negation not_equal a b total = ground arith
function_of-negation is_in a b total = refl
function_of-negation not_in a b total = ground arith

-- `branches` with the targets of "true" and "false" exchanged.
abbrev pub swapped : Value → Value → Fields → Fields
swapped t f branches = put "true" f (put "false" t branches)

-- `config` with the negated operator and the branches exchanged.
abbrev pub negated : Operator → Value → Value → Fields → Fields → Fields
negated o t f branches config =
    put "operator" (str (key (negation o))) (put "branches" (obj (swapped t f branches)) config)

take_branch :
    (t f : Value) (branches : Fields) (r : Outcome Bool)
    → get "true" branches ≡ some t
    → get "false" branches ≡ some f
    → (map_return not r >>= λ b. item (if b then "true" else "false") (obj (swapped t f branches)))
      ≡ (r >>= λ b. item (if b then "true" else "false") (obj branches))
unfolding item
take_branch t f branches (return true) ht hf = simp get-put (ground arith)
take_branch t f branches (return false) ht hf = simp get-put (ground arith)
take_branch t f branches (raise e) ht hf = refl

-- The condition after its operator and branches are found: `e` and `v` are the entries of
-- "expression" and "value".
module _ (search : Value → Fields → Outcome Value) (context : Fields) where
  abbrev with_entries :
      (Value → Value → Outcome Bool) → Value → Option Value → Option Value → Outcome Value
  with_entries compare_fn branches e v = do
    expression ← or_key_error "expression" e
    extracted ← search expression context
    value ← or_key_error "value" v
    result ← compare_fn extracted value
    item (if result then "true" else "false") branches

  with_entries-negation :
      (o : Operator) (t f : Value) (branches : Fields) (e v : Option Value)
      → ((expression x value : Value)
          → e ≡ some expression
          → search expression context ≡ return x
          → v ≡ some value
          → IsTotal o x value)
      → get "true" branches ≡ some t
      → get "false" branches ≡ some f
      → with_entries (function_of (negation o)) (obj (swapped t f branches)) e v
        ≡ with_entries (function_of o) (obj branches) e v
  with_entries-negation o t f branches none v total ht hf = refl
  with_entries-negation o t f branches (some e) v total ht hf =
      rest (search e context) v (λ x value found given. total e x value refl found given)
    where
      rest :
          (x : Outcome Value) (v : Option Value)
          → ((extracted value : Value)
              → x ≡ return extracted
              → v ≡ some value
              → IsTotal o extracted value)
          → (x >>= λ extracted. or_key_error "value" v >>= λ value.
              function_of (negation o) extracted value >>= λ result.
              item (if result then "true" else "false") (obj (swapped t f branches)))
            ≡ (x >>= λ extracted. or_key_error "value" v >>= λ value.
                function_of o extracted value >>= λ result.
                item (if result then "true" else "false") (obj branches))
      rest (raise err) v total = refl
      rest (return x) none total = refl
      rest (return x) (some v) total =
          rw (function_of-negation o x v (total x v refl refl))
            (take_branch t f branches (function_of o x v) ht hf)

module _ (search : Value → Fields → Outcome Value) (format : Value → String) where
  evaluate_condition-with_entries :
      (o : Operator) (branches : Value) (config context : Fields)
      → get "operator" config ≡ some (str (key o))
      → get "branches" config ≡ some branches
      → evaluate_condition search format config context
        ≡ with_entries search context
            (function_of o)
            branches
            (get "expression" config)
            (get "value" config)
  unfolding evaluate_condition
  evaluate_condition-with_entries o branches config context ho hb = simp (ho, hb, operators-key)

  -- A condition whose operator is one of the table and whose branches have both targets chooses the
  -- same step as the condition with the negated operator and the branches exchanged, or raises the
  -- same exception: `>` and `<=`, `>=` and `<`, `==` and `!=`, `in` and `not_in` are negations.
  -- Condition: if the operator compares by size, neither what the expression finds nor the value to
  -- compare it with is NaN or holds one.
  pub evaluate_condition-negated :
      (o : Operator) (t f : Value) (branches config context : Fields)
      → ((expression x value : Value)
          → get "expression" config ≡ some expression
          → search expression context ≡ return x
          → get "value" config ≡ some value
          → IsTotal o x value)
      → get "operator" config ≡ some (str (key o))
      → get "branches" config ≡ some (obj branches)
      → get "true" branches ≡ some t
      → get "false" branches ≡ some f
      → evaluate_condition search format (negated o t f branches config) context
        ≡ evaluate_condition search format config context
  evaluate_condition-negated o t f branches config context total ho hb ht hf =
      evaluate_condition-with_entries (negation o) (obj (swapped t f branches)) _ context
        (simp get-put) (simp get-put)
      ∙ (simp get-put (
            with_entries-negation search context o t f branches (get "expression" config)
              (get "value" config) total ht hf)
          ∙ sym (evaluate_condition-with_entries o (obj branches) config context ho hb))
