-- ===== src/Agents/Tools.antt =====
-- services/agent-orchestration/src/tools/{base,registry}.py: what a tool is, and the registry.
use constructor.Prelude.{ℕ, String, Option, List, Dict, lookup, insert, keys, map}
use constructor.Json.{Value, Fields, str, obj, end, field}
use constructor.Outcome.{Outcome}

-- When a call to the outside is made, so that two calls may have different answers.
abbrev pub Moment : Type 0
Moment = List ℕ

-- `BaseTool`: `execute` has the inputs and the context of the tenant.
pub record Tool : Type 0 where
  pub name : String
  pub description : String
  pub input_schema : Fields
  pub execute : Moment → Fields → Fields → Outcome Fields

unfoldable pub as_openai_tool : Tool → Fields
as_openai_tool t = field "type" (str "function") (
    field "function"
      (obj (
        field "name" (str t.name)
          (field "description" (str t.description) (field "parameters" (obj t.input_schema) end))))
      end)

-- `ToolRegistry`, by its `_tools`.
abbrev pub ToolRegistry : Type 0
ToolRegistry = Dict Tool

unfoldable pub register : Tool → ToolRegistry → ToolRegistry
register t registry = insert t.name t registry

unfoldable pub get_tool : String → ToolRegistry → Option Tool
get_tool name registry = lookup name registry

unfoldable pub list_names : ToolRegistry → List String
list_names registry = keys registry

unfoldable pub get_all : ToolRegistry → List Tool
get_all registry = map (λ e. e.1) registry

-- A property of a JSON schema.
abbrev pub property : String → String → Value
property type description =
    obj (field "type" (str type) (field "description" (str description) end))
