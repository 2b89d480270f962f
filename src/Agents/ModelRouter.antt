-- ===== src/Agents/ModelRouter.antt =====
-- services/agent-orchestration/src/router/model_router.py: which model a task runs on.
pub mod Routes
use text.Mathlib.Text.{starts_with, find?}
use constructor.Prelude.{
  String, Bool, ◌||◌, Option, none, some, List, [], ◌∷◌, Dict, lookup, get_or, ◌==◌, if◌then◌else◌,
  is_some,
}
use constructor.Outcome.{Outcome, return, raise, value_error, concat}

abbrev pub routing_table : Dict String
routing_table =
    ("code_analysis", "gemini-2.0-flash")
    ∷ ("security_scan", "gemini-2.0-flash")
    ∷ ("summarization", "gemini-2.0-flash")
    ∷ ("ocr_extraction", "gemini-2.0-flash")
    ∷ ("default", "gemini-2.0-flash")
    ∷ []

abbrev pub fallback_chain : List String
fallback_chain = "gemini-2.0-flash" ∷ "gemini-2.0-flash-lite" ∷ "gemini-1.5-flash-latest" ∷ []

-- The classes of chat models.
pub data Provider : Type 0 where
  stub anthropic openai google : Provider

pub record ModelRouter : Type 0 where
  pub last_model_used : String

-- `ROUTING_TABLE.get(task_type, ROUTING_TABLE["default"])`
unfoldable pub route : String → String
route task_type =
    get_or (get_or "" (lookup "default" routing_table)) (lookup task_type routing_table)

-- `model_override or …`: an empty text counts as none.
unfoldable pub resolve_model_id : String → Option String → String
unfolding route
resolve_model_id task_type none = route task_type
resolve_model_id task_type (some id) = if id == "" then route task_type else id

-- `part in text`
abbrev pub has : String → String → Bool
has part text = is_some (find? text part)

-- `use_stub` is the setting `use_stub_model`.
unfoldable pub instantiate : Bool → String → Outcome (Provider × String)
instantiate use_stub id =
    if use_stub || (id == "stub")
    then return (stub, id)
    else if starts_with id "claude"
    then return (anthropic, id)
    else if has "gpt" id || (starts_with id "o1" || starts_with id "o3")
    then return (openai, id)
    else if has "gemini" id
    then return (google, id)
    else raise (value_error (concat "Unsupported model id: " id ""))

unfoldable pub get_model :
    Bool → String → Option String → ModelRouter → Outcome (Provider × String) × ModelRouter
unfolding resolve_model_id instantiate
get_model use_stub task_type override router =
    let id = resolve_model_id task_type override in
    (instantiate use_stub id, record { last_model_used = id })
