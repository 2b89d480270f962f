-- ===== src/Agents/StubModel.antt =====
-- services/agent-orchestration/src/router/stub_model.py: the chat model of a local deployment, and what
-- a task comes to with it.
pub mod Completes
use Prim.Native.String.{◌++◌ as join}
use constructor.Prelude.{String, true, none, List, []}
use constructor.Json.{str}
use constructor.Outcome.{Outcome, return}
use constructor.Agents.ModelRouter.{Provider, stub, anthropic, openai, google}
use constructor.Agents.Graph.{Message, Reply, Model}
use constructor.Agents.Runner.{Runtime}

-- `_STUB_RESPONSE`
abbrev pub stub_response : String
stub_response = join "**Análisis de póliza (stub)**\n\n" (
    join "Este es un modelo stub para desarrollo local. " (
      join "La póliza recibida ha sido procesada correctamente. "
        "En producción este campo contendrá el análisis real generado por el LLM."))

-- `_generate`: neither the messages nor the tools are read.
unfoldable pub generate : List Message → Outcome Reply
generate messages = return (record { content = str stub_response; tool_calls = []; usage = none })

-- `bind_tools` returns the model itself, so the tools are dropped.
unfoldable pub stub_chat_model : Model
unfolding generate
stub_chat_model moment tools messages = generate messages

-- The classes of chat models, with the stub for its own.
unfoldable pub with_stub : (Provider × String → Model) → Provider × String → Model
with_stub others (stub, id) = stub_chat_model
with_stub others (anthropic, id) = others (anthropic, id)
with_stub others (openai, id) = others (openai, id)
with_stub others (google, id) = others (google, id)

-- The setting `USE_STUB_MODEL=true`.
abbrev pub local : Runtime → Runtime
local rt = record rt { chat_model = with_stub rt.chat_model; use_stub_model = true }
