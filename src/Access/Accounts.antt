-- ===== src/Access/Accounts.antt =====
-- services/platform-api/src/{users,tenants,audit}: the creation of users and tenants, the reads of
-- them, and the audit log; with the tables of rbac/models.py and of the refresh tokens.
pub mod Created
use constructor.Prelude.{
  ℕ, ◌+◌, String, Bool, true, false, Option, none, some, List, [], ◌∷◌, ◌++◌, ◌==◌, if◌then◌else◌,
  get_or,
}
use constructor.Json.{Fields, end}
use constructor.Outcome.{Outcome, return, raise, value_error, raised, concat}
use constructor.Workflows.Steps.{Uuid}
use constructor.Access.Permissions.{user_manage, tenant_config}
use constructor.Access.Users.{
  User, Tenant, CurrentUser, Response, ok, http_error, crash, Security, find_user, find_tenant,
  get_current_user, guard, guarded,
}

pub record Role : Type 0 where
  pub id : Uuid
  pub name : String
  pub description : String

pub record UserRole : Type 0 where
  pub id : Uuid
  pub user_id : Uuid
  pub tenant_id : Uuid
  pub role_id : Uuid

pub record RefreshToken : Type 0 where
  pub id : Uuid
  pub user_id : Uuid
  pub tenant_id : Uuid
  pub token_hash : String
  pub expires_at : ℕ
  pub revoked : Bool

pub record AuditLog : Type 0 where
  pub id : Uuid
  pub tenant_id : Uuid
  pub user_id : Option Uuid
  pub action : String
  pub resource_type : String
  pub resource_id : Option String
  pub log_metadata : Fields
  pub created_at : ℕ

-- The tables, and a counter for new ids, salts and times.
pub record Database : Type 0 where
  pub users : List User
  pub tenants : List Tenant
  pub roles : List Role
  pub user_roles : List UserRole
  pub refresh_tokens : List RefreshToken
  pub audit_logs : List AuditLog
  pub effects : ℕ

-- `uuid.uuid4`, the clock in seconds, and bcrypt's hash of a password with a fresh salt.
pub record Fresh : Type 0 where
  pub new_uuid : ℕ → Uuid
  pub clock : ℕ → ℕ
  pub hash : ℕ → String → String

pub record UserCreate : Type 0 where
  pub email : String
  pub password : String
  pub role : String

pub record TenantCreate : Type 0 where
  pub name : String
  pub slug : String
  pub config : Fields

-- `db.scalar(select(Role).where(Role.name == …))`
unfoldable pub find_role : String → List Role → Option Role
find_role name [] = none
find_role name (r ∷ rs) = if r.name == name then some r else find_role name rs

module _ (fr : Fresh) where
  -- `log_action`: an entry is appended, and the caller commits.
  unfoldable pub log_action :
      Uuid → String → String → Option Uuid → Option String → Option Fields → Database → Database
  log_action tenant_id action resource_type user_id resource_id metadata db = record db {
    audit_logs =
        db.audit_logs
        ++ record {
          id = fr.new_uuid db.effects;
          tenant_id = tenant_id;
          user_id = user_id;
          action = action;
          resource_type = resource_type;
          resource_id = resource_id;
          log_metadata = get_or end metadata;
          created_at = fr.clock db.effects;
        }
          ∷ [];
    effects = db.effects + 1;
  }

  unfoldable pub new_user : UserCreate → Uuid → ℕ → User
  new_user body tenant_id n = record {
    id = fr.new_uuid n;
    tenant_id = tenant_id;
    email = body.email;
    hashed_password = fr.hash n body.password;
    is_active = true;
  }

  -- The rows of the user and of its role.
  unfoldable pub add_user : User → Role → Database → Database
  add_user user role db = record db {
    users = db.users ++ user ∷ [];
    user_roles =
        db.user_roles
        ++ record {
          id = fr.new_uuid (db.effects + 1);
          user_id = user.id;
          tenant_id = user.tenant_id;
          role_id = role.id;
        }
          ∷ [];
    effects = db.effects + 2;
  }

  -- The flushes are taken to succeed: the rows have fresh ids.
  unfoldable pub create_user : UserCreate → Uuid → Database → Outcome User × Database
  unfolding find_role new_user add_user log_action
  create_user body tenant_id db = elim (find_role body.role db.roles) [
    | none ↦ (raise (value_error (concat "Role '" body.role "' not found")), db)
    | some role ↦
        let user = new_user body tenant_id db.effects in
        (
          return user,
          log_action tenant_id "user.created" "user" none (some user.id) none
              (add_user user role db),
        )
  ]

  -- The body of `POST /users`: a `ValueError` is answered with 400, and what raises is rolled back.
  unfoldable pub answer_created : Outcome User × Database → Database → Response User × Database
  answer_created (return user, db') db = (ok user, db')
  answer_created (raise (value_error text), db') db = (http_error 400, db)
  answer_created (raise e, db') db = (crash e, db)

  unfoldable pub create :
      Security → Option String → UserCreate → Database → Response User × Database
  unfolding create_user answer_created
  create sec credentials body db =
      guarded (guard sec user_manage credentials db.users)
        (λ current s. answer_created (create_user body current.tenant_id s) s) db

  unfoldable pub new_tenant : TenantCreate → ℕ → Tenant
  new_tenant body n = record {
    id = fr.new_uuid n;
    name = body.name;
    slug = body.slug;
    status = "active";
    config = body.config;
  }

  -- `flush` refuses a second tenant with the slug.
  unfoldable pub create_tenant : TenantCreate → Database → Outcome Tenant × Database
  unfolding find_tenant new_tenant
  create_tenant body db = elim (find_tenant body.slug db.tenants) [
    | some t ↦ (raise (raised "IntegrityError"), db)
    | none ↦
        let tenant = new_tenant body db.effects in
        (return tenant, record db { tenants = db.tenants ++ tenant ∷ []; effects = db.effects + 1 })
  ]

  -- `POST /tenants`
  unfoldable pub answer_tenant : Outcome Tenant × Database → Database → Response Tenant × Database
  answer_tenant (return tenant, db') db = (ok tenant, db')
  answer_tenant (raise e, db') db = (crash e, db)

  unfoldable pub post_tenant :
      Security → Option String → TenantCreate → Database → Response Tenant × Database
  unfolding create_tenant answer_tenant
  post_tenant sec credentials body db =
      guarded (guard sec tenant_config credentials db.users)
        (λ current s. answer_tenant (create_tenant body s) s) db

unfoldable pub get_user_by_id : Uuid → List User → Option User
unfolding find_user
get_user_by_id user_id users = find_user (λ u. u.id == user_id) users

pub record UserMe : Type 0 where
  pub id : Uuid
  pub email : String
  pub tenant_id : Uuid
  pub is_active : Bool
  pub roles : List String

-- `GET /users/me`
unfoldable pub me_of : CurrentUser → Option User → UserMe
me_of current row = record {
  id = current.id;
  email = current.email;
  tenant_id = current.tenant_id;
  is_active = elim row [ none ↦ false | some u ↦ u.is_active ];
  roles = current.roles;
}

unfoldable pub me : Security → Option String → Database → Response UserMe × Database
unfolding get_current_user get_user_by_id me_of
me sec credentials db =
    guarded (get_current_user sec credentials db.users)
      (λ current s. (ok (me_of current (get_user_by_id current.id s.users)), s)) db

unfoldable pub get_tenant_by_id : Uuid → List Tenant → Option Tenant
get_tenant_by_id tenant_id [] = none
get_tenant_by_id tenant_id (t ∷ ts) =
    if t.id == tenant_id then some t else get_tenant_by_id tenant_id ts

-- `GET /tenants`: the tenant of the user, also for a super admin.
abbrev pub one_or_none {ℓ} : {A : Type ℓ} → Option A → List A
one_or_none none = []
one_or_none (some a) = a ∷ []

unfoldable pub list_tenants :
    Security → Option String → Database → Response (List Tenant) × Database
unfolding get_current_user get_tenant_by_id
list_tenants sec credentials db =
    guarded (get_current_user sec credentials db.users)
      (λ current s. (ok (one_or_none (get_tenant_by_id current.tenant_id s.tenants)), s)) db
