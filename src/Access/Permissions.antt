-- ===== src/Access/Permissions.antt =====
-- services/platform-api/src/rbac/permissions.py: the permissions, and the roles that have them.
pub mod Roles
use constructor.Prelude.{String, Bool, false, ◌||◌, List, [], ◌∷◌, map, Dict, lookup, get_or, elem}

pub data Permission : Type 0 where
  workflow_create workflow_read workflow_update workflow_delete workflow_trigger : Permission
  agent_create agent_read agent_update agent_delete : Permission
  user_manage user_read tenant_config approval_manage audit_read report_read : Permission

-- The value of the enumeration.
abbrev pub value : Permission → String
value workflow_create = "workflow:create"
value workflow_read = "workflow:read"
value workflow_update = "workflow:update"
value workflow_delete = "workflow:delete"
value workflow_trigger = "workflow:trigger"
value agent_create = "agent:create"
value agent_read = "agent:read"
value agent_update = "agent:update"
value agent_delete = "agent:delete"
value user_manage = "user:manage"
value user_read = "user:read"
value tenant_config = "tenant:config"
value approval_manage = "approval:manage"
value audit_read = "audit:read"
value report_read = "report:read"

-- `set(Permission)`
abbrev pub all_permissions : List Permission
all_permissions =
    workflow_create ∷ workflow_read ∷ workflow_update ∷ workflow_delete ∷ workflow_trigger
    ∷ agent_create ∷ agent_read ∷ agent_update ∷ agent_delete ∷ user_manage ∷ user_read
    ∷ tenant_config ∷ approval_manage ∷ audit_read ∷ report_read ∷ []

abbrev pub role_permissions : Dict (List Permission)
role_permissions =
    ("super_admin", all_permissions)
    ∷ (
      "tenant_admin",
      workflow_create ∷ workflow_read ∷ workflow_update ∷ workflow_delete ∷ workflow_trigger
          ∷ agent_create ∷ agent_read ∷ agent_update ∷ agent_delete ∷ user_manage ∷ user_read
          ∷ tenant_config ∷ approval_manage ∷ audit_read ∷ report_read ∷ [],
    )
    ∷ (
      "developer",
      workflow_create ∷ workflow_read ∷ workflow_update ∷ workflow_delete ∷ workflow_trigger
          ∷ agent_create ∷ agent_read ∷ agent_update ∷ agent_delete ∷ user_read ∷ report_read ∷ [],
    )
    ∷ (
      "project_manager",
      workflow_read ∷ workflow_trigger ∷ agent_read ∷ approval_manage ∷ report_read ∷ [],
    )
    ∷ ("analyst", workflow_read ∷ approval_manage ∷ audit_read ∷ report_read ∷ [])
    ∷ ("viewer", workflow_read ∷ report_read ∷ [])
    ∷ []

-- `permission in ROLE_PERMISSIONS.get(role, set())`
unfoldable pub grants : String → Permission → Bool
grants role permission =
    elem (value permission) (map value (get_or [] (lookup role role_permissions)))

unfoldable pub has_permission : List String → Permission → Bool
unfolding grants
has_permission [] permission = false
has_permission (role ∷ roles) permission = grants role permission || has_permission roles permission
