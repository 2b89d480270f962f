-- ===== src/Access/Login/FirstLogin.antt =====
-- From the creation of a user to the guard of the endpoints.
use constructor.Prelude.{
  ℕ, ◌+◌, ◌*◌, ◌<◌, String, ◌≡◌, refl, sym, ◌∙◌, ap, subst, true, false, none, some, List, [], ◌∷◌,
  ◌++◌, map, ◌==◌, if◌then◌else◌, All, Unique, elem, Bool-cases, eq_iff, eq_refl, inl, inr,
}
use constructor.Workflows.Steps.{Uuid}
use constructor.Access.Permissions.{Permission, grants, has_permission}
use constructor.Access.Users.{
  User, Tenant, ok, http_error, find_user, has_email, find_tenant, find_account, candidate_hash,
  authenticate_user, require_permission, guard,
}
use constructor.Access.Users.Guard.{IsAmong}
use constructor.Access.Accounts.{Role, UserRole, Database, Fresh, UserCreate, find_role, new_user}
use constructor.Access.Accounts.Created.{find_user-append, find_role-some, IsCreated}
use constructor.Access.Login.{
  Library, Settings, TokenResponse, Cookie, names_of, get_user_roles, has_hash, security_at,
  roles_of, token_response, refresh_row, create_tokens, cookie_of, answer_tokens, login,
}
use constructor.Access.Login.SignedIn.{IsJwt, signed_in, get_current_user-create, with_refresh}

names_of-absent :
    (id : Uuid) (rs : List Role) → elem id (map (λ r. r.id) rs) ≡ false → names_of id rs ≡ []
unfolding names_of elem
names_of-absent id [] absent = refl
names_of-absent id (r ∷ rs) absent = elim (Bool-cases (r.id == id)) [
  | inl e ↦ cc (rw e at absent)
  | inr e ↦ rw e (names_of-absent id rs (rw e at absent))
]

names_of-find_role :
    (name : String) (rs : List Role) (r : Role)
    → find_role name rs ≡ some r
    → Unique (map (λ x. x.id) rs)
    → names_of r.id rs ≡ name ∷ []
unfolding names_of find_role
names_of-find_role name [] r found unique = cc
names_of-find_role name (x ∷ xs) r found unique = elim (Bool-cases (x.name == name)) [
  | inl named ↦
      let same = some_injective (rw (named, find_role) at found) in
      subst (λ y. names_of y.id (x ∷ xs) ≡ name ∷ []) same
        (rw (eq_refl x.id)
          (rw (names_of-absent x.id xs unique.0) (ap (λ n. n ∷ []) ((eq_iff x.name name).0 named))))
  | inr other ↦
      let found' = rw (other, find_role) at found in
      elim (Bool-cases (x.id == r.id)) [
        | inl e ↦ cc (
          unique.0,
          subst (λ i. elem i (map (λ y. y.id) xs) ≡ true) (sym ((eq_iff x.id r.id).0 e))
              (find_role-some name xs found').1,
        )
        | inr e ↦ rw e (names_of-find_role name xs r found' unique.1)
      ]
]
  where
    some_injective : {a b : Role} → some a ≡ some b → a ≡ b
    some_injective e = cc

-- The roles of a user without rows, after one row is added.
get_user_roles-append :
    (rows : List UserRole) (r : UserRole) (roles : List Role)
    → All (λ x. (x.user_id == r.user_id) ≡ false) rows
    → get_user_roles r.user_id r.tenant_id (rows ++ r ∷ []) roles ≡ names_of r.role_id roles ++ []
unfolding get_user_roles
get_user_roles-append [] r roles others = rw (eq_refl r.user_id) (rw (eq_refl r.tenant_id) refl)
get_user_roles-append (x ∷ rows) r roles others =
    rw (others.0) (get_user_roles-append rows r roles others.1)

module _ (lib : Library) (set : Settings) (fr : Fresh) (dummy_hash : String) where
  authenticate_user-finds :
      (now : ℕ) (email password tenant_slug : String) (tenants : List Tenant) (us : List User)
      {t : Tenant} {u : User}
      → find_tenant tenant_slug tenants ≡ some t
      → find_user (has_email email t.id) us ≡ some u
      → lib.verify password u.hashed_password ≡ true
      → authenticate_user (security_at lib set now dummy_hash) email password tenant_slug tenants us
        ≡ some u
  unfolding authenticate_user find_account candidate_hash security_at
  authenticate_user-finds now email password tenant_slug tenants us tenant account fits =
      rw (tenant, find_account) (rw account (rw fits refl))

  login-computes :
      (email password tenant_slug : String) (db : Database) {u : User}
      → authenticate_user
          (security_at lib set (fr.clock db.effects) dummy_hash)
          email
          password
          tenant_slug
          db.tenants
          db.users
        ≡ some u
      → has_hash (refresh_row lib set fr u db).token_hash db.refresh_tokens ≡ false
      → login lib set fr dummy_hash email password tenant_slug db ≡ (
        ok (token_response lib set fr u db, cookie_of lib set fr (fr.new_uuid db.effects)),
        with_refresh lib set fr dummy_hash u db,
      )
  unfolding login answer_tokens create_tokens
  login-computes email password tenant_slug db found free =
      rw (found, login) (rw (free, create_tokens) refl)

-- The circumstances of a first login: the database after the creation, the time of the requests, and
-- the slug that is given.
pub record IsNew (lib : Library) (set : Settings) (fr : Fresh) (body : UserCreate)
    (tenant_id : Uuid) (db : Database) (tenant_slug : String) (user : User) (db' : Database)
    : Type 0 where
  pub tenant : Tenant
  pub named : find_tenant tenant_slug db.tenants ≡ some tenant
  pub its_id : tenant.id ≡ tenant_id
  -- No active account of the tenant has the email.
  pub no_account : find_user (has_email body.email tenant_id) db.users ≡ none
  pub no_roles : All (λ r. (r.user_id == user.id) ≡ false) db.user_roles
  -- The primary keys, and a refresh token whose hash is new.
  pub user_ids : Unique (map (λ u. u.id) db'.users)
  pub role_ids : Unique (map (λ r. r.id) db.roles)
  pub free : has_hash (refresh_row lib set fr user db').token_hash db'.refresh_tokens ≡ false
  -- bcrypt accepts the password that a hash was made of.
  pub fits : lib.verify body.password (fr.hash db.effects body.password) ≡ true

IsAmong-append : (us : List User) (u : User) → IsAmong u (us ++ u ∷ [])
IsAmong-append [] u = inl refl
IsAmong-append (v ∷ us) u = inr (IsAmong-append us u)

require_permission-one :
    (role : String) (p : Permission) (user : User)
    → require_permission p (signed_in user (role ∷ []))
      ≡ (if grants role p then ok (signed_in user (role ∷ [])) else http_error 403)
unfolding require_permission has_permission
require_permission-one role p user = elim (Bool-cases (grants role p)) [
  | inl e ↦ rw e refl
  | inr e ↦ rw e refl
]

module _ (lib : Library) (set : Settings) (fr : Fresh) (dummy_hash : String) where
  module _ (body : UserCreate) (tenant_id : Uuid) (db db' : Database) (user : User)
      (tenant_slug : String) (made : IsCreated fr body tenant_id db user db')
      (fresh : IsNew lib set fr body tenant_id db tenant_slug user db') where
    its_users : db'.users ≡ db.users ++ user ∷ []
    its_users = made.users

    its_tenants : db'.tenants ≡ db.tenants
    its_tenants = made.others.0

    its_roles :
        get_user_roles user.id user.tenant_id db'.user_roles db'.roles
        ≡ names_of made.role.id db.roles ++ []
    its_roles =
        ap (λ roles. get_user_roles user.id user.tenant_id db'.user_roles roles) made.others.1
        ∙ (ap (λ rows. get_user_roles user.id user.tenant_id rows db.roles) made.user_roles
            ∙ get_user_roles-append db.user_roles _ db.roles fresh.no_roles)

    is_new_account : has_email body.email fresh.tenant.id user ≡ true
    unfolding new_user
    is_new_account =
        subst (λ (u : User). has_email body.email fresh.tenant.id u ≡ true) (sym made.row)
          (rw (eq_refl body.email)
            (rw ((eq_iff tenant_id fresh.tenant.id).1 (sym fresh.its_id)) refl))

    fits_hash : lib.verify body.password user.hashed_password ≡ true
    unfolding new_user
    fits_hash =
        subst (λ (u : User). lib.verify body.password u.hashed_password ≡ true) (sym made.row)
          fresh.fits

    is_active : user.is_active ≡ true
    unfolding new_user
    is_active = ap (λ u. u.is_active) made.row

    account : find_user (has_email body.email fresh.tenant.id) db'.users ≡ some user
    account =
        ap (find_user (has_email body.email fresh.tenant.id)) its_users
        ∙ find_user-append (has_email body.email fresh.tenant.id) db.users user
            (subst (λ i. find_user (has_email body.email i) db.users ≡ none) (sym fresh.its_id)
              fresh.no_account)
            is_new_account

    authenticated :
        authenticate_user
          (security_at lib set (fr.clock db'.effects) dummy_hash)
          body.email
          body.password
          tenant_slug
          db'.tenants
          db'.users
        ≡ some user
    authenticated =
        authenticate_user-finds lib set fr dummy_hash (fr.clock db'.effects) body.email
          body.password tenant_slug db'.tenants db'.users
          (ap (find_tenant tenant_slug) its_tenants ∙ fresh.named) account fits_hash

    has_role : roles_of lib set user db' ≡ body.role ∷ []
    has_role =
        its_roles
        ∙ ap (λ names. names ++ [])
            (names_of-find_role body.role db.roles made.role made.found fresh.role_ids)

    among : IsAmong user db'.users
    among = subst (IsAmong user) (sym its_users) (IsAmong-append db.users user)

  -- A user that was created can log in with the password of the request, and until the token expires
  -- passes the guard of an endpoint exactly if the role of the request grants the permission.
  -- Conditions: the slug is that of the tenant, which has no active account of the email; ids and
  -- hashes are new; PyJWT, bcrypt and the conversions do what they document.
  pub create_user-login-guard :
      (body : UserCreate) (tenant_id : Uuid) (db db' : Database) (user : User)
      (tenant_slug : String) (p : Permission) (now : ℕ)
      → IsCreated fr body tenant_id db user db'
      → IsNew lib set fr body tenant_id db tenant_slug user db'
      → IsJwt lib set db'.users
          (λ u. roles_of lib set u db')
          (fr.clock db'.effects + set.jwt_access_token_expire_minutes * 60)
          now
      → now < fr.clock db'.effects + set.jwt_access_token_expire_minutes * 60
      → (a : TokenResponse × Cookie) × (db'' : Database) × (login lib set fr dummy_hash body.email
            body.password tenant_slug db'
          ≡ (ok a, db''))
        × (guard (security_at lib set now dummy_hash) p (some a.0.access_token) db''.users
            ≡ (if grants body.role p then ok (signed_in user (body.role ∷ [])) else http_error 403))
  unfolding guard token_response
  create_user-login-guard body tenant_id db db' user tenant_slug p now made fresh jwt early =
      let found = authenticated body tenant_id db db' user tenant_slug made fresh in
      let roles = has_role body tenant_id db db' user tenant_slug made fresh in
      let current =
        get_current_user-create lib set db'.users (λ u. roles_of lib set u db')
          (fr.clock db'.effects) (set.jwt_access_token_expire_minutes * 60) now jwt user dummy_hash
          (among body tenant_id db db' user tenant_slug made fresh)
          (is_active body tenant_id db db' user tenant_slug made fresh) fresh.user_ids early in
      (
        _,
        _,
        login-computes lib set fr dummy_hash body.email body.password tenant_slug db' found
            fresh.free,
        rw (current, guard)
            (ap (λ names. require_permission p (signed_in user names)) roles
              ∙ require_permission-one body.role p user),
      )
