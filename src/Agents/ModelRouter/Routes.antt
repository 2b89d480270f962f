-- ===== src/Agents/ModelRouter/Routes.antt =====
-- Every type of task has a model.
use constructor.Prelude.{
  String, ◌≡◌, refl, ◌∙◌, ap, Bool, true, false, Option, none, some, lookup, if◌then◌else◌, All,
  ◌⊎◌, inl, inr, arith,
}
use constructor.Outcome.{Outcome, return}
use constructor.Agents.ModelRouter.{
  Provider, stub, google, ModelRouter, fallback_chain, route, resolve_model_id, instantiate,
  get_model,
}

pub route-default : (task_type : String) → route task_type ≡ "gemini-2.0-flash"
unfolding route lookup
route-default task_type = ground arith

-- The class of the models of the table and of the chain.
abbrev pub default_provider : Bool → Provider
default_provider use_stub = if use_stub then stub else google

instantiate-default :
    (use_stub : Bool)
    → instantiate use_stub "gemini-2.0-flash"
      ≡ return (default_provider use_stub, "gemini-2.0-flash")
unfolding instantiate
instantiate-default true = refl
instantiate-default false = refl

instantiate-fallback_chain :
    (use_stub : Bool)
    → All (λ id. instantiate use_stub id ≡ return (default_provider use_stub, id)) fallback_chain
unfolding instantiate
instantiate-fallback_chain true = (refl, (refl, (refl, tt)))
instantiate-fallback_chain false = (refl, (refl, (refl, tt)))

-- Without an override, or with an empty one, every type of task runs on the default model: the router
-- never raises, and remembers that model. The models of the fallback chain can be built as well.
pub get_model-default :
    (use_stub : Bool) (task_type : String) (override : Option String) (router : ModelRouter)
    → (override ≡ none) ⊎ (override ≡ some "")
    → (get_model use_stub task_type override router ≡ (
      return (default_provider use_stub, "gemini-2.0-flash"),
      record { last_model_used = "gemini-2.0-flash" },
    ))
      × All (λ id. instantiate use_stub id ≡ return (default_provider use_stub, id)) fallback_chain
unfolding get_model resolve_model_id
get_model-default use_stub task_type override router absent =
    (rest override absent, instantiate-fallback_chain use_stub)
  where
    expected : Outcome (Provider × String) × ModelRouter
    expected = (
      return (default_provider use_stub, "gemini-2.0-flash"),
      record { last_model_used = "gemini-2.0-flash" },
    )

    by_id :
        (id : String)
        → id ≡ "gemini-2.0-flash"
        → (instantiate use_stub id, record { last_model_used = id }) ≡ expected
    by_id id same = rw same (
        ap (λ o. (o, record { last_model_used = "gemini-2.0-flash" }))
          (instantiate-default use_stub))

    is_empty : {id : String} → (some id ≡ none) ⊎ (some id ≡ some "") → id ≡ ""
    is_empty (inl e) = cc
    is_empty (inr e) = cc

    empty : {id : String} → id ≡ "" → resolve_model_id task_type (some id) ≡ route task_type
    empty e = rw e refl

    rest :
        (override : Option String)
        → (override ≡ none) ⊎ (override ≡ some "")
        → get_model use_stub task_type override router ≡ expected
    rest none absent = by_id (route task_type) (route-default task_type)
    rest (some id) absent =
        by_id (resolve_model_id task_type (some id))
          (empty (is_empty absent) ∙ route-default task_type)
