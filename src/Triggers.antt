-- ===== src/Triggers.antt =====
-- services/platform-api/src/executions/service.py, webhooks and internal: what starts an execution.
pub mod Digest
pub mod Create
pub mod Webhooks
pub mod Endpoints
pub mod Tests
