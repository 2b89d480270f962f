-- ===== src/Executions/Condition/Tests.antt =====
-- The condition of the workflow of the tests, and its negation.
use constructor.Prelude.{◌≡◌, refl, sym, subst, some}
use constructor.Json.{Value, Fields, nan, float, num, str, end, field, get, put}
use constructor.Json.Compare.{ordered}
use constructor.Json.Compare.Order.{HasNoNan}
use constructor.Prelude.Int.{pos}
use constructor.Outcome.{return}
use constructor.Executions.Condition.{evaluate_condition}
use constructor.Executions.Condition.Negation.{
  greater, negated, IsTotal, evaluate_condition-negated,
}
use constructor.Executions.Tests.{execution, check_config, key_search, text_of_value}

abbrev branches : Fields
branches = field "true" (str "tell") (field "false" (str "") end)

finds_amount :
    (expression x value : Value)
    → get "expression" check_config ≡ some expression
    → key_search expression execution.context ≡ return x
    → get "value" check_config ≡ some value
    → IsTotal greater x value
unfolding get
finds_amount expression x value asked found given =
    let same : ◌≡◌ {A = Value} (str "amount") expression = cc in
    let amount : ◌≡◌ {A = Value} (num (pos 7)) x =
      cc (subst (λ e. key_search e execution.context ≡ return x) (sym same) found) in
    let five : ◌≡◌ {A = Value} (num (pos 5)) value = cc in
    (subst HasNoNan amount tt, subst HasNoNan five tt)

-- "amount" is at most 5: then "", and else "tell".
evaluate_condition-negated_example :
    evaluate_condition key_search text_of_value
      (negated greater (str "tell") (str "") branches check_config)
      execution.context
    ≡ evaluate_condition key_search text_of_value check_config execution.context
unfolding get
evaluate_condition-negated_example =
    evaluate_condition-negated key_search text_of_value greater (str "tell") (str "") branches
      check_config execution.context finds_amount refl refl refl refl

-- With NaN both conditions are false: the condition and its negation choose different steps.
abbrev nan_context : Fields
nan_context = field "amount" (float nan) end

is_false : evaluate_condition key_search text_of_value check_config nan_context ≡ return (str "")
unfolding evaluate_condition ordered get
is_false = refl

negation_is_false :
    evaluate_condition key_search text_of_value
      (negated greater (str "tell") (str "") branches check_config)
      nan_context
    ≡ return (str "tell")
unfolding evaluate_condition ordered get put
negation_is_false = refl
