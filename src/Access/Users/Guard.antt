-- ===== src/Access/Users/Guard.antt =====
-- Who passes the guard of an endpoint, and who can log in.
use constructor.Prelude.{
  String, ◌≡◌, refl, sym, subst, Bool, true, Option, none, some, List, [], ◌∷◌, ◌⊎◌, inl, inr,
  eq_iff, Bool-cases, and-eq-true, elem,
}
use constructor.Json.{Fields, get}
use constructor.Outcome.{Exception, Outcome, return, raise, Outcome-cases, key_error, value_error}
use constructor.Workflows.Steps.{Uuid}
use constructor.Access.Permissions.{Permission, grants, has_permission}
use constructor.Access.Permissions.Roles.{has_permission_iff}
use constructor.Access.Users.{
  User, CurrentUser, Response, ok, http_error, crash, Security, find_user, is_user, identity,
  unauthorized, current_user, get_current_user, require_permission, guard,
}

-- The user is one of the rows.
abbrev pub IsAmong : User → List User → Type 0
IsAmong u [] = ⊥
IsAmong u (v ∷ vs) = (u ≡ v) ⊎ IsAmong u vs

pub find_user-some :
    (test : User → Bool) (us : List User) {u : User}
    → find_user test us ≡ some u
    → (test u ≡ true) × IsAmong u us
unfolding find_user
find_user-some test [] h = cc
find_user-some test (v ∷ vs) {u} h = elim (Bool-cases (test v)) [
  | inl passes ↦
      let same = some_injective (rw (passes, find_user) at h) in
      (subst (λ x. test x ≡ true) same passes, inl (sym same))
  | inr fails ↦
      let (tested, among) = find_user-some test vs (rw (fails, find_user) at h) in
      (tested, inr among)
]
  where
    some_injective : {a b : User} → some a ≡ some b → a ≡ b
    some_injective e = cc

-- An active user of the tenant.
pub record IsActive (users : List User) (user_id tenant_id : Uuid) (u : User) : Type 0 where
  pub among : IsAmong u users
  pub id : u.id ≡ user_id
  pub tenant : u.tenant_id ≡ tenant_id
  pub active : u.is_active ≡ true

pub find_user-IsActive :
    (users : List User) (user_id tenant_id : Uuid) {u : User}
    → find_user (is_user user_id tenant_id) users ≡ some u
    → IsActive users user_id tenant_id u
find_user-IsActive users user_id tenant_id {u} found =
    let (tested, among) = find_user-some (is_user user_id tenant_id) users found in
    let (same_id, others) = and-eq-true _ _ tested in
    let (same_tenant, active) = and-eq-true _ _ others in
    record {
      among = among;
      id = (eq_iff u.id user_id).0 same_id;
      tenant = (eq_iff u.tenant_id tenant_id).0 same_tenant;
      active = active;
    }

module _ (sec : Security) (users : List User) where
  -- The user that a token stands for: the ids are those of the token, and an active user has them.
  pub record Authenticated (credentials : Option String) (user : CurrentUser) : Type 0 where
    pub token : String
    pub payload : Fields
    pub row : User
    pub given : credentials ≡ some token
    pub identity : identity sec token ≡ return (user.id, user.tenant_id, payload)
    pub active : IsActive users user.id user.tenant_id row
    pub roles : sec.to_roles (get "roles" payload) ≡ return user.roles

  current_user-Authenticated :
      (token : String) (user_id tenant_id : Uuid) (payload : Fields) (o : Option User)
      {user : CurrentUser}
      → identity sec token ≡ return (user_id, tenant_id, payload)
      → find_user (is_user user_id tenant_id) users ≡ o
      → current_user sec user_id tenant_id payload o ≡ ok user
      → Authenticated (some token) user
  unfolding current_user
  current_user-Authenticated token user_id tenant_id payload none known found h = cc
  current_user-Authenticated token user_id tenant_id payload (some u) {user} known found h =
      elim (Outcome-cases (sec.to_roles (get "roles" payload))) [
        | inr (e, raised) ↦ cc (rw (raised, current_user) at h)
        | inl (roles, read) ↦
            let same = ok_injective (rw (read, current_user) at h) in
            subst (Authenticated (some token)) same (record {
              token = token;
              payload = payload;
              row = u;
              given = refl;
              identity = known;
              active = find_user-IsActive users user_id tenant_id found;
              roles = read;
            })
      ]
    where
      ok_injective : {a b : CurrentUser} → ok a ≡ ok b → a ≡ b
      ok_injective e = cc

  unauthorized-refuses : {A : Type 0} (e : Exception) {a : A} → ¬ (unauthorized sec e ≡ ok a)
  unfolding unauthorized
  unauthorized-refuses (value_error text) h = cc
  unauthorized-refuses (key_error k) h = cc
  unauthorized-refuses _ h = cc

  get_current_user-Authenticated :
      (credentials : Option String) {user : CurrentUser}
      → get_current_user sec credentials users ≡ ok user
      → Authenticated credentials user
  unfolding get_current_user
  get_current_user-Authenticated none h = cc
  get_current_user-Authenticated (some token) {user} h = go (identity sec token) refl h
    where
      go :
          (o : Outcome (Uuid × Uuid × Fields))
          → identity sec token ≡ o
          → elim o as (λ _. Response CurrentUser) [
            | raise e ↦ unauthorized sec e
            | return found ↦
                current_user sec found.0 found.1 found.2 (find_user (is_user found.0 found.1) users)
          ]
            ≡ ok user
          → Authenticated (some token) user
      go (raise e) known h = absurd (unauthorized-refuses e h)
      go (return (user_id, tenant_id, payload)) known h =
          current_user-Authenticated token user_id tenant_id payload _ known refl h

  require_permission-ok :
      (permission : Permission) (user : CurrentUser) {passed : CurrentUser}
      → require_permission permission user ≡ ok passed
      → (user ≡ passed) × (has_permission user.roles permission ≡ true)
  unfolding require_permission
  require_permission-ok permission user h =
      elim (Bool-cases (has_permission user.roles permission)) [
        | inl has ↦ (cc (rw (has, require_permission) at h), has)
        | inr lacks ↦ cc (rw (lacks, require_permission) at h)
      ]

  -- Whoever passes the guard of an endpoint has a token whose ids are those of an active user of that
  -- tenant, and one of the roles in the token grants the permission.
  pub guard-Authenticated :
      (permission : Permission) (credentials : Option String) {user : CurrentUser}
      → guard sec permission credentials users ≡ ok user
      → Authenticated credentials user
        × ((role : String) × (elem role user.roles ≡ true) × (grants role permission ≡ true))
  unfolding guard
  guard-Authenticated permission credentials {user} h =
      go (get_current_user sec credentials users) refl h
    where
      go :
          (o : Response CurrentUser)
          → get_current_user sec credentials users ≡ o
          → elim o as (λ _. Response CurrentUser) [
            | ok user ↦ require_permission permission user
            | http_error code ↦ http_error code
            | crash e ↦ crash e
          ]
            ≡ ok user
          → Authenticated credentials user
            × ((role : String) × (elem role user.roles ≡ true) × (grants role permission ≡ true))
      go (http_error code) known h = cc
      go (crash e) known h = cc
      go (ok found) known h =
          let (same, has) = require_permission-ok permission found h in
          let (role, among, granted) = (has_permission_iff found.roles permission).0.0 has in
          (
            subst (Authenticated credentials) same
                (get_current_user-Authenticated credentials known),
            (role, subst (λ u. elem role u.roles ≡ true) same among, granted),
          )
