-- ===== src/Pipeline.antt =====
-- services/agent-orchestration/src/consumer/redis_consumer.py and services/platform-api/src/executions:
-- an agent step, from its task to its future, through both streams.
pub mod Settles
pub mod Tests
