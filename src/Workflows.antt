-- ===== src/Workflows.antt =====
-- services/platform-api/src/workflows: the steps of a workflow, their validation, and the records
-- that hold definitions and executions.
pub mod Steps
pub mod Validator
pub mod Definitions
pub mod Endpoints
pub mod Tests
