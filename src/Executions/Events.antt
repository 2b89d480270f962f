-- ===== src/Executions/Events.antt =====
-- services/platform-api/src/executions/events.py and workflows/models.py: the messages of the
-- streams and the stored execution. services/agent-orchestration/src/events.py has the same contract.
use constructor.Prelude.{ℕ, String, Option, List}
use constructor.Prelude.Int.{ℤ}
use constructor.Json.{Fields}
use constructor.Workflows.Steps.{Uuid}

pub record AgentTask : Type 0 where
  pub task_id : Uuid
  pub execution_id : Uuid
  pub tenant_id : Uuid
  pub step_id : String
  pub task_type : String
  pub prompt : String
  pub context : Fields
  pub tools_allowed : List String
  pub model_override : Option String
  pub timeout_seconds : ℤ
  pub max_iterations : ℤ

pub data ResultStatus : Type 0 where
  completed failed timeout : ResultStatus

pub record AgentResult : Type 0 where
  pub task_id : Uuid
  pub execution_id : Uuid
  pub tenant_id : Uuid
  pub step_id : String
  pub status : ResultStatus
  pub output : Fields
  pub tokens_used : ℕ
  pub model_used : String
  pub iterations : ℕ
  pub error : Option String

-- The values that the code writes to the column `status`.
pub data Status : Type 0 where
  pending running completed failed : Status

-- A time is a number of clock ticks.
pub record ProcessExecution : Type 0 where
  pub id : Uuid
  pub tenant_id : Uuid
  pub process_definition_id : Uuid
  pub status : Status
  pub context : Fields
  pub current_step_id : Option String
  pub triggered_by : Option Uuid
  pub trigger_type : String
  pub started_at : Option ℕ
  pub completed_at : Option ℕ
  pub created_at : ℕ

-- The event that `_publish_status_change` writes.
pub record StatusEvent : Type 0 where
  pub execution_id : Uuid
  pub tenant_id : Uuid
  pub status : Status
  pub current_step_id : Option String
  pub context : Fields
  pub timestamp : ℕ
