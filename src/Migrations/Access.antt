-- ===== src/Migrations/Access.antt =====
-- services/platform-api/migrations/versions: f1f69d2642ac_initial_schema.py,
-- e2f6a5d27807_rls_policies.py and 003_audit_log.py.
use constructor.Prelude.{String, true, false, none, some, List, [], ◌∷◌, ◌++◌}
use constructor.Migrations.{
  column, optional, with_default, uuid, json, boolean, string, date_time, Operation, create_table,
  drop_table, create_index, drop_index, disable_row_security, drop_policy, insert_roles,
  delete_roles, protect, Revision,
}

abbrev pub initial_schema : Revision
initial_schema = record {
  revision = "f1f69d2642ac";
  down_revision = none;
  upgrade =
      create_table "roles"
        (column "id" uuid
          ∷ column "name" (string 50)
          ∷ with_default false "description" (string 255) ""
          ∷ [])
        [] (("name" ∷ []) ∷ [])
      ∷ create_table "tenants"
          (column "id" uuid
            ∷ column "name" (string 255)
            ∷ column "slug" (string 100)
            ∷ with_default false "status" (string 20) "active"
            ∷ column "config" json
            ∷ with_default false "created_at" (date_time false) "now()"
            ∷ with_default false "updated_at" (date_time false) "now()"
            ∷ [])
          [] (("slug" ∷ []) ∷ [])
      ∷ create_table "users"
          (column "id" uuid
            ∷ column "tenant_id" uuid
            ∷ column "email" (string 255)
            ∷ column "hashed_password" (string 255)
            ∷ with_default false "is_active" boolean "true"
            ∷ with_default false "created_at" (date_time false) "now()"
            ∷ [])
          (("tenant_id", "tenants") ∷ []) []
      ∷ create_index "ix_users_email" "users"
      ∷ create_table "refresh_tokens"
          (column "id" uuid
            ∷ column "user_id" uuid
            ∷ column "tenant_id" uuid
            ∷ column "token_hash" (string 255)
            ∷ column "expires_at" (date_time false)
            ∷ with_default false "revoked" boolean "false"
            ∷ with_default false "created_at" (date_time false) "now()"
            ∷ [])
          (("user_id", "users") ∷ ("tenant_id", "tenants") ∷ []) (("token_hash" ∷ []) ∷ [])
      ∷ create_table "user_roles"
          (column "id" uuid
            ∷ column "user_id" uuid
            ∷ column "tenant_id" uuid
            ∷ column "role_id" uuid
            ∷ [])
          (("role_id", "roles") ∷ ("tenant_id", "tenants") ∷ ("user_id", "users") ∷ [])
          (("user_id" ∷ "tenant_id" ∷ "role_id" ∷ []) ∷ [])
      ∷ [];
  downgrade =
      drop_table "user_roles"
      ∷ drop_table "refresh_tokens"
      ∷ drop_index "ix_users_email" "users"
      ∷ drop_table "users"
      ∷ drop_table "tenants"
      ∷ drop_table "roles"
      ∷ [];
}

abbrev system_roles : List String
system_roles =
    "super_admin" ∷ "tenant_admin" ∷ "developer" ∷ "project_manager" ∷ "analyst" ∷ "viewer" ∷ []

-- Without row security, and without its policy; the flag that forces it stays.
abbrev pub unprotect : String → List Operation
unprotect table = drop_policy "tenant_isolation" table ∷ disable_row_security table ∷ []

abbrev pub rls_policies : Revision
rls_policies = record {
  revision = "e2f6a5d27807";
  down_revision = some "f1f69d2642ac";
  upgrade =
      protect "users"
      ++ (protect "user_roles" ++ (protect "refresh_tokens" ++ insert_roles system_roles ∷ []));
  downgrade =
      unprotect "users"
      ++ (unprotect "user_roles" ++ (unprotect "refresh_tokens" ++ delete_roles system_roles ∷ []));
}

abbrev pub audit_log : Revision
audit_log = record {
  revision = "8cf4fdbc5d3c";
  down_revision = some "e2f6a5d27807";
  upgrade =
      create_table "audit_logs"
        (column "id" uuid
          ∷ column "tenant_id" uuid
          ∷ optional "user_id" uuid
          ∷ column "action" (string 100)
          ∷ column "resource_type" (string 50)
          ∷ optional "resource_id" (string 255)
          ∷ optional "metadata" json
          ∷ with_default true "created_at" (date_time true) "now()"
          ∷ [])
        (("tenant_id", "tenants") ∷ ("user_id", "users") ∷ []) []
      ∷ protect "audit_logs";
  downgrade = drop_policy "tenant_isolation" "audit_logs" ∷ drop_table "audit_logs" ∷ [];
}
