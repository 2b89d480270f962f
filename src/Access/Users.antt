-- ===== src/Access/Users.antt =====
-- services/platform-api/src/auth/{dependencies,service}.py and rbac/dependencies.py: the user of a
-- token, the login, the guard of the endpoints, and the session that is set to a tenant.
pub mod Guard
pub mod Account
use constructor.Prelude.{
  ℕ, String, Bool, ◌&&◌, Option, none, some, List, [], ◌∷◌, ◌==◌, if◌then◌else◌,
}
use constructor.Json.{Value, Fields, get}
use constructor.Outcome.{
  Exception, key_error, value_error, Outcome, return, raise, or_key_error, ◌>>=◌,
}
use constructor.Workflows.Steps.{Uuid}
use constructor.Access.Permissions.{Permission, has_permission}

pub record User : Type 0 where
  pub id : Uuid
  pub tenant_id : Uuid
  pub email : String
  pub hashed_password : String
  pub is_active : Bool

pub record Tenant : Type 0 where
  pub id : Uuid
  pub name : String
  pub slug : String
  pub status : String
  pub config : Fields

pub record CurrentUser : Type 0 where
  pub id : Uuid
  pub email : String
  pub tenant_id : Uuid
  pub roles : List String

-- The answer of a dependency or an endpoint: a value, an `HTTPException` with its status, or another
-- exception.
pub data Response {ℓ} (A : Type ℓ) : Type ℓ where
  ok : A → Response A
  http_error : ℕ → Response A
  crash : Exception → Response A

-- `decode_access_token`, `uuid.UUID`, pydantic's reading of `roles`, bcrypt's check of a password
-- against a hash, and the hash that stands in for that of an unknown user.
pub record Security : Type 0 where
  pub decode_access_token : String → Outcome Fields
  pub to_uuid : Value → Outcome Uuid
  pub to_roles : Option Value → Outcome (List String)
  pub verify_password : String → String → Bool
  pub dummy_hash : String

-- `db.scalar(select(User).where(…))`: the first row that passes.
unfoldable pub find_user : (User → Bool) → List User → Option User
find_user test [] = none
find_user test (u ∷ us) = if test u then some u else find_user test us

abbrev pub is_user : Uuid → Uuid → User → Bool
is_user user_id tenant_id u = (u.id == user_id) && ((u.tenant_id == tenant_id) && u.is_active)

abbrev pub has_email : String → Uuid → User → Bool
has_email email tenant_id u = (u.email == email) && ((u.tenant_id == tenant_id) && u.is_active)

unfoldable pub find_tenant : String → List Tenant → Option Tenant
find_tenant slug [] = none
find_tenant slug (t ∷ ts) = if t.slug == slug then some t else find_tenant slug ts

module _ (sec : Security) where
  -- The ids in the payload of a token.
  unfoldable pub identity : String → Outcome (Uuid × Uuid × Fields)
  identity token = do
    payload ← sec.decode_access_token token
    sub ← or_key_error "sub" (get "sub" payload)
    user_id ← sec.to_uuid sub
    tenant ← or_key_error "tenant_id" (get "tenant_id" payload)
    tenant_id ← sec.to_uuid tenant
    return (user_id, tenant_id, payload)

  -- `except (ValueError, KeyError)`
  unfoldable pub unauthorized : {A : Type 0} → Exception → Response A
  unauthorized (value_error text) = http_error 401
  unauthorized (key_error k) = http_error 401
  unauthorized e = crash e

  -- The roles are read from the token, and not from the database.
  unfoldable pub current_user : Uuid → Uuid → Fields → Option User → Response CurrentUser
  current_user user_id tenant_id payload none = http_error 401
  current_user user_id tenant_id payload (some u) = elim (sec.to_roles (get "roles" payload)) [
    | raise e ↦ crash e
    | return roles ↦
        ok (record { id = user_id; email = u.email; tenant_id = tenant_id; roles = roles })
  ]

  unfoldable pub get_current_user : Option String → List User → Response CurrentUser
  unfolding identity unauthorized current_user find_user
  get_current_user none users = http_error 401
  get_current_user (some token) users = elim (identity token) [
    | raise e ↦ unauthorized e
    | return found ↦
        current_user found.0 found.1 found.2 (find_user (is_user found.0 found.1) users)
  ]

  -- The user of an email in a tenant, if both are there.
  unfoldable pub find_account : String → String → List Tenant → List User → Option User
  unfolding find_tenant find_user
  find_account email tenant_slug tenants users = elim (find_tenant tenant_slug tenants) [
    | none ↦ none
    | some t ↦ find_user (has_email email t.id) users
  ]

  -- `user.hashed_password if user else _get_dummy_hash()`
  unfoldable pub candidate_hash : Option User → String
  candidate_hash none = sec.dummy_hash
  candidate_hash (some u) = u.hashed_password

  unfoldable pub authenticate_user :
      String → String → String → List Tenant → List User → Option User
  unfolding find_account candidate_hash
  authenticate_user email password tenant_slug tenants users =
      let user = find_account email tenant_slug tenants users in
      if sec.verify_password password (candidate_hash user) then user else none

-- `require_permission`
unfoldable pub require_permission : Permission → CurrentUser → Response CurrentUser
require_permission permission user =
    if has_permission user.roles permission then ok user else http_error 403

-- An endpoint's guard: the user of the token, if a role gives the permission.
unfoldable pub guard : Security → Permission → Option String → List User → Response CurrentUser
unfolding get_current_user require_permission
guard sec permission credentials users = elim (get_current_user sec credentials users) [
  | ok user ↦ require_permission permission user
  | http_error code ↦ http_error code
  | crash e ↦ crash e
]

-- An endpoint behind its guard: whoever does not pass is answered, and nothing changes.
abbrev pub guarded {ℓ κ} :
    {A : Type ℓ} {S : Type κ}
    → Response CurrentUser
    → (CurrentUser → S → Response A × S)
    → S
    → Response A × S
guarded (ok user) endpoint s = endpoint user s
guarded (http_error code) endpoint s = (http_error code, s)
guarded (crash e) endpoint s = (crash e, s)
