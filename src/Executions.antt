-- ===== src/Executions.antt =====
-- services/platform-api/src/executions: the workflow executor, its steps, and the futures through
-- which the results of agents come back.
pub mod Condition
pub mod Transform
pub mod Events
pub mod Dispatcher
pub mod ResultConsumer
pub mod Session
pub mod AgentStep
pub mod Executor
pub mod Tests
