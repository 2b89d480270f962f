-- ===== src/Migrations/Workflows.antt =====
-- services/platform-api/migrations/versions: 004_workflows.py, 005_executions.py and 006_triggers.py.
use constructor.Prelude.{true, false, some, [], ◌∷◌, ◌++◌}
use constructor.Migrations.{
  column, optional, with_default, uuid, text, json, boolean, integer, string, date_time,
  create_table, drop_table, add_column, drop_column, create_index, drop_index, drop_policy, protect,
  Revision,
}
use constructor.Migrations.Access.{unprotect}

abbrev pub workflows : Revision
workflows = record {
  revision = "2960e743b868";
  down_revision = some "8cf4fdbc5d3c";
  upgrade =
      create_table "process_definitions"
        (column "id" uuid
          ∷ column "tenant_id" uuid
          ∷ column "name" (string 255)
          ∷ column "trigger_config" json
          ∷ column "steps" json
          ∷ with_default false "on_error" (string 20) "stop"
          ∷ with_default false "version" integer "1"
          ∷ column "created_by" uuid
          ∷ with_default true "created_at" (date_time true) "now()"
          ∷ with_default true "updated_at" (date_time true) "now()"
          ∷ [])
        (("tenant_id", "tenants") ∷ ("created_by", "users") ∷ []) []
      ∷ create_table "process_executions"
          (column "id" uuid
            ∷ column "tenant_id" uuid
            ∷ column "process_definition_id" uuid
            ∷ with_default false "status" (string 30) "pending"
            ∷ optional "context" json
            ∷ optional "triggered_by" uuid
            ∷ optional "started_at" (date_time true)
            ∷ optional "completed_at" (date_time true)
            ∷ with_default true "created_at" (date_time true) "now()"
            ∷ [])
          (("tenant_id", "tenants")
            ∷ ("process_definition_id", "process_definitions")
            ∷ ("triggered_by", "users")
            ∷ [])
          []
      ∷ (protect "process_definitions" ++ protect "process_executions");
  downgrade =
      drop_policy "tenant_isolation" "process_executions"
      ∷ drop_policy "tenant_isolation" "process_definitions"
      ∷ drop_table "process_executions"
      ∷ drop_table "process_definitions"
      ∷ [];
}

abbrev pub executions : Revision
executions = record {
  revision = "a1b2c3d4e5f6";
  down_revision = some "2960e743b868";
  upgrade =
      add_column "process_executions" (optional "current_step_id" (string 255))
      ∷ create_table "agent_execution_logs"
          (column "id" uuid
            ∷ column "tenant_id" uuid
            ∷ column "execution_id" uuid
            ∷ column "step_id" (string 255)
            ∷ column "task_id" uuid
            ∷ column "model_used" (string 100)
            ∷ with_default false "tokens_used" integer "0"
            ∷ with_default false "iterations" integer "0"
            ∷ column "status" (string 20)
            ∷ with_default true "created_at" (date_time true) "now()"
            ∷ [])
          (("tenant_id", "tenants") ∷ ("execution_id", "process_executions") ∷ []) []
      ∷ protect "agent_execution_logs";
  downgrade =
      unprotect "agent_execution_logs"
      ++ drop_table "agent_execution_logs"
        ∷ drop_column "process_executions" "current_step_id"
        ∷ [];
}

abbrev pub triggers : Revision
triggers = record {
  revision = "c3d4e5f6a7b8";
  down_revision = some "a1b2c3d4e5f6";
  upgrade =
      add_column "process_executions" (with_default false "trigger_type" (string 20) "manual")
      ∷ create_table "webhook_configs"
          (with_default false "id" uuid "gen_random_uuid()"
            ∷ column "tenant_id" uuid
            ∷ column "workflow_id" uuid
            ∷ column "name" text
            ∷ column "secret" text
            ∷ with_default false "payload_mapping" json "'{}'::json"
            ∷ with_default false "is_active" boolean "true"
            ∷ with_default false "created_at" (date_time true) "now()"
            ∷ with_default false "updated_at" (date_time true) "now()"
            ∷ [])
          (("tenant_id", "tenants") ∷ ("workflow_id", "process_definitions") ∷ []) []
      ∷ create_index "ix_webhook_configs_tenant_id" "webhook_configs"
      ∷ create_index "ix_webhook_configs_workflow_id" "webhook_configs"
      ∷ protect "webhook_configs";
  downgrade =
      unprotect "webhook_configs"
      ++ drop_index "ix_webhook_configs_workflow_id" "webhook_configs"
        ∷ drop_index "ix_webhook_configs_tenant_id" "webhook_configs"
        ∷ drop_table "webhook_configs"
        ∷ drop_column "process_executions" "trigger_type"
        ∷ [];
}
