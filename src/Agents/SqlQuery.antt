-- ===== src/Agents/SqlQuery.antt =====
-- services/agent-orchestration/src/tools/sql_query.py: the tool that runs a query, and its guard.
pub mod Raises
use constructor.Prelude.{
  ℕ, suc, String, Bool, true, false, not, ◌&&◌, Option, none, some, List, [], ◌∷◌, get_or, ◌==◌,
  if◌then◌else◌,
}
use constructor.Prelude.Int.{pos}
use constructor.Json.{Value, Items, Fields, str, num, arr, obj, nil, cons, end, field, get}
use constructor.Outcome.{Outcome, return, raise, value_error, attribute_error, or_key_error, ◌>>=◌}
use constructor.Agents.Tools.{Moment, Tool, property}

-- A statement that `sqlparse.parse` returns: its `get_type()`, and its text.
pub record Statement : Type 0 where
  pub type : Option String
  pub text : String

-- The words of `_DML_PATTERN`.
abbrev pub forbidden_words : List String
forbidden_words =
    "INSERT" ∷ "UPDATE" ∷ "DELETE" ∷ "DROP" ∷ "CREATE" ∷ "ALTER" ∷ "TRUNCATE" ∷ "GRANT" ∷ "REVOKE"
    ∷ "EXEC" ∷ "EXECUTE" ∷ []

-- `sqlparse.parse` of a stripped query; whether a text has one of some words, as whole words in any
-- case; the text of a tenant's id; and `session.execute`: the rows of a statement with its parameters.
pub record Database : Type 0 where
  pub sql_parse : String → List Statement
  pub has_word : List String → String → Bool
  pub to_text : Value → String
  pub statement : Moment → String → Value → Outcome Items

abbrev pub set_tenant : String
set_tenant = "SET app.current_tenant = :tid"

abbrev pub count : Items → ℕ
count nil = 0
count (cons v vs) = suc (count vs)

module _ (db : Database) where
  unfoldable pub is_select : Option String → Bool
  is_select none = true
  is_select (some t) = t == "SELECT"

  unfoldable pub all_select : List Statement → Bool
  unfolding is_select
  all_select [] = true
  all_select (s ∷ ss) =
      is_select s.type && (not (db.has_word forbidden_words s.text) && all_select ss)

  -- `if not statements`, and the loop.
  unfoldable pub is_some_select : List Statement → Bool
  unfolding all_select
  is_some_select [] = false
  is_some_select (s ∷ ss) = all_select (s ∷ ss)

  unfoldable pub is_select_only : String → Bool
  unfolding is_some_select
  is_select_only query = is_some_select (db.sql_parse query)

  -- `query.strip()` needs a text.
  unfoldable pub query_text : Value → Outcome String
  query_text (str query) = return query
  query_text _ = raise attribute_error

  -- `{"tid": str(tenant_context.get("tenant_id", ""))}`
  abbrev pub tid : Fields → Value
  tid tenant_context =
      obj (field "tid" (str (db.to_text (get_or (str "") (get "tenant_id" tenant_context)))) end)

  -- The two statements of the session: the setting of the tenant, and the query.
  unfoldable pub run_query : Moment → String → Value → Fields → Outcome Fields
  run_query moment query params tenant_context = do
    set ← db.statement (0 ∷ moment) set_tenant (tid tenant_context)
    rows ← db.statement (1 ∷ moment) query params
    return (field "rows" (arr rows) (field "row_count" (num (pos (count rows))) end))

  unfoldable pub guarded : Moment → String → Value → Fields → Outcome Fields
  unfolding is_select_only run_query
  guarded moment query params tenant_context =
      if is_select_only query
      then run_query moment query params tenant_context
      else raise (value_error "Only SELECT queries are allowed. DML and DDL are rejected.")

  unfoldable pub execute : Moment → Fields → Fields → Outcome Fields
  unfolding query_text guarded
  execute moment inputs tenant_context = do
    value ← or_key_error "query" (get "query" inputs)
    query ← query_text value
    guarded moment query (get_or (obj end) (get "params" inputs)) tenant_context

  abbrev input_schema : Fields
  input_schema = field "type" (str "object") (
      field "properties"
        (obj (
          field "query" (property "string" "SQL SELECT query")
            (field "params" (property "object" "Named query parameters") end)))
        (field "required" (arr (cons (str "query") nil)) end))

  -- `SqlQueryTool`
  abbrev pub sql_query : Tool
  sql_query = record {
    name = "sql_query";
    description = "Execute a read-only SQL SELECT query on the tenant database";
    input_schema = input_schema;
    execute = execute;
  }
