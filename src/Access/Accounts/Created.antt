-- ===== src/Access/Accounts/Created.antt =====
-- A user that was created: its row, its role and its entry in the audit log.
use constructor.Prelude.{
  ◌+◌, String, ◌≡◌, refl, subst, Bool, true, none, some, List, [], ◌∷◌, ◌++◌, map, ◌==◌, ◌||◌, ◌⊎◌,
  inl, inr, elem, Bool-cases, eq_iff, eq_refl,
}
use constructor.Json.{end}
use constructor.Workflows.Steps.{Uuid}
use constructor.Access.Users.{User, CurrentUser, Response, ok, http_error, crash, find_user}
use constructor.Access.Accounts.{Role, Database, Fresh, UserCreate, find_role}

pub find_user-append :
    (test : User → Bool) (us : List User) (u : User)
    → find_user test us ≡ none
    → test u ≡ true
    → find_user test (us ++ u ∷ []) ≡ some u
unfolding find_user
find_user-append test [] u absent passes = rw passes refl
find_user-append test (v ∷ vs) u absent passes = elim (Bool-cases (test v)) [
  | inl found ↦ cc (rw found at absent)
  | inr skipped ↦ rw skipped (find_user-append test vs u (rw skipped at absent) passes)
]

-- A name is found in a role of that name, among the rows.
pub find_role-some :
    (name : String) (rs : List Role) {r : Role}
    → find_role name rs ≡ some r
    → (r.name ≡ name) × (elem r.id (map (λ x. x.id) rs) ≡ true)
unfolding find_role elem
find_role-some name [] found = cc
find_role-some name (x ∷ xs) {r} found = elim (Bool-cases (x.name == name)) [
  | inl named ↦
      let same = some_injective (rw (named, find_role) at found) in
      subst (λ y. (y.name ≡ name) × ((x.id == y.id || elem y.id (map (λ z. z.id) xs)) ≡ true)) same
        ((eq_iff x.name name).0 named, rw (eq_refl x.id) refl)
  | inr other ↦
      let (named, among) = find_role-some name xs (rw (other, find_role) at found) in
      (named, elim (Bool-cases (x.id == r.id)) [ inl e ↦ rw e refl | inr e ↦ rw e among ])
]
  where
    some_injective : {a b : Role} → some a ≡ some b → a ≡ b
    some_injective e = cc

-- What `POST /users` does when it answers with a user: a row in the tenant of whoever asks, with the
-- role of the request, and an entry in the audit log.
pub record IsCreated (fr : Fresh) (body : UserCreate) (tenant_id : Uuid) (db : Database)
    (user : User) (db' : Database) : Type 0 where
  pub role : Role
  pub found : find_role body.role db.roles ≡ some role
  pub row : user ≡ record {
    id = fr.new_uuid db.effects;
    tenant_id = tenant_id;
    email = body.email;
    hashed_password = fr.hash db.effects body.password;
    is_active = true;
  }
  pub users : db'.users ≡ db.users ++ user ∷ []
  pub user_roles :
      db'.user_roles
      ≡ db.user_roles
        ++ record {
          id = fr.new_uuid (db.effects + 1);
          user_id = user.id;
          tenant_id = user.tenant_id;
          role_id = role.id;
        }
          ∷ []
  pub audit_logs :
      db'.audit_logs
      ≡ db.audit_logs
        ++ record {
          id = fr.new_uuid (db.effects + 2);
          tenant_id = tenant_id;
          user_id = none;
          action = "user.created";
          resource_type = "user";
          resource_id = some user.id;
          log_metadata = end;
          created_at = fr.clock (db.effects + 2);
        }
          ∷ []
  pub others :
      (db'.tenants ≡ db.tenants) × (db'.roles ≡ db.roles) × (db'.refresh_tokens ≡ db.refresh_tokens)

module _ (fr : Fresh) (body : UserCreate) where
  -- What `POST /users` answers to whoever the guard says.
  abbrev pub Answer : Response CurrentUser → Database → Response User × Database → Type 0
  Answer (ok current) db r =
      ((user : User) × (r.0 ≡ ok user) × IsCreated fr body current.tenant_id db user r.1)
      ⊎ ((find_role body.role db.roles ≡ none) × (r ≡ (http_error 400, db)))
  Answer (http_error code) db r = r ≡ (http_error code, db)
  Answer (crash e) db r = r ≡ (crash e, db)
