-- ===== src/Agents.antt =====
-- services/agent-orchestration: the agents that work on the tasks of the workflows.
pub mod Tools
pub mod ModelRouter
pub mod Graph
pub mod Runner
pub mod StubModel
pub mod Consumer
pub mod HttpGeneric
pub mod SqlQuery
pub mod Tests
pub mod ToolTests
