-- ===== src/Access/Login/SignedIn.antt =====
-- The token of a login stands for the user that logged in.
use constructor.Prelude.{
  ℕ, ◌+◌, ◌<◌, String, ◌≡◌, refl, sym, ap, subst, Bool, true, Option, none, some, List, [], ◌∷◌,
  ◌++◌, map, ◌==◌, inl, inr, Unique, elem, Bool-cases, eq_iff, eq_refl, and-eq-true,
}
use constructor.Prelude.Int.{pos}
use constructor.Json.{Fields, str, num, arr, get, put}
use constructor.Outcome.{return}
use constructor.Access.Users.{
  User, CurrentUser, Response, ok, http_error, find_user, is_user, identity, current_user,
  get_current_user, authenticate_user,
}
use constructor.Access.Users.Guard.{IsAmong}
use constructor.Access.Accounts.{Database, Fresh}
use constructor.Access.Login.{
  Library, Settings, TokenResponse, Cookie, claims, algorithm, required, items_of, has_hash,
  create_access_token, decode_access_token, security_at, claims_of, token_response, refresh_row,
  create_tokens, cookie_of, answer_tokens, login,
}

elem-id : (us : List User) (u : User) → IsAmong u us → elem u.id (map (λ v. v.id) us) ≡ true
unfolding elem
elem-id [] u among = absurd among
elem-id (v ∷ vs) u (inl same) = rw same (rw (eq_refl v.id))
elem-id (v ∷ vs) u (inr among) = elim (Bool-cases (v.id == u.id)) [
  | inl e ↦ rw e
  | inr e ↦ rw e (elem-id vs u among)
]

-- Among rows with different ids, a query by the id finds the row.
pub find_user-Unique :
    (test : User → Bool) (us : List User) {u : User}
    → IsAmong u us
    → Unique (map (λ v. v.id) us)
    → test u ≡ true
    → ((v : User) → test v ≡ true → v.id ≡ u.id)
    → find_user test us ≡ some u
unfolding find_user
find_user-Unique test [] among unique passes same_id = absurd among
find_user-Unique test (v ∷ vs) (inl same) unique passes same_id =
    rw (subst (λ x. test x ≡ true) same passes) (ap some (sym same))
find_user-Unique test (v ∷ vs) {u} (inr among) unique passes same_id = elim (Bool-cases (test v)) [
  | inl found ↦ cc (
    unique.0,
    subst (λ i. elem i (map (λ x. x.id) vs) ≡ true) (sym (same_id v found)) (elem-id vs u among),
  )
  | inr skipped ↦ rw skipped (find_user-Unique test vs among unique.1 passes same_id)
]

-- The claims of a token that the service has made.
abbrev pub token_content : Library → Settings → User → List String → ℕ → Fields
token_content lib set user roles expires =
    put "exp" (num (pos expires)) (claims_of lib set user roles)

-- What PyJWT, `uuid.UUID` and pydantic do with what the service has written itself, for the users of
-- a table: a token is read with the key of the pair, before it expires, as its claims.
pub record IsJwt (lib : Library) (set : Settings) (us : List User) (roles_at : User → List String)
    (expires now : ℕ) : Type 0 where
  pub decodes :
      (u : User)
      → IsAmong u us
      → now < expires
      → lib.decode now
          (lib.encode (token_content lib set u (roles_at u) expires) set.jwt_private_key algorithm)
          set.jwt_public_key
          (algorithm ∷ [])
          required
        ≡ claims (token_content lib set u (roles_at u) expires)
  pub ids :
      (u : User)
      → IsAmong u us
      → (lib.to_uuid (str u.id) ≡ return u.id)
        × (lib.to_uuid (str u.tenant_id) ≡ return u.tenant_id)
  pub roles : (names : List String) → lib.to_roles (some (arr (items_of names))) ≡ return names

abbrev pub signed_in : User → List String → CurrentUser
signed_in user roles = record {
  id = user.id;
  email = user.email;
  tenant_id = user.tenant_id;
  roles = roles;
}

module _ (lib : Library) (set : Settings) (us : List User) (roles_at : User → List String)
    (made seconds now : ℕ) (jwt : IsJwt lib set us roles_at (made + seconds) now) where
  abbrev written_token : User → String
  written_token user =
      create_access_token lib set (claims_of lib set user (roles_at user)) made seconds

  abbrev read_of : User → Fields
  read_of user = token_content lib set user (roles_at user) (made + seconds)

  decode_access_token-create :
      (user : User)
      → IsAmong user us
      → now < made + seconds
      → decode_access_token lib set now (written_token user) ≡ return (read_of user)
  unfolding create_access_token decode_access_token
  decode_access_token-create user among early =
      rw (jwt.decodes user among early, decode_access_token) refl

  identity-create :
      (user : User) (dummy_hash : String)
      → IsAmong user us
      → now < made + seconds
      → identity (security_at lib set now dummy_hash) (written_token user)
        ≡ return (user.id, user.tenant_id, read_of user)
  unfolding identity security_at get put
  identity-create user dummy_hash among early =
      let (id, tenant) = jwt.ids user among in
      rw (decode_access_token-create user among early, identity) (rw id (rw tenant refl))

  pub get_current_user-create :
      (user : User) (dummy_hash : String)
      → IsAmong user us
      → user.is_active ≡ true
      → Unique (map (λ v. v.id) us)
      → now < made + seconds
      → get_current_user (security_at lib set now dummy_hash) (some (written_token user)) us
        ≡ ok (signed_in user (roles_at user))
  unfolding get_current_user current_user security_at get put
  get_current_user-create user dummy_hash among active unique early =
      let found =
        find_user-Unique (is_user user.id user.tenant_id) us among unique
          (rw (eq_refl user.id) (rw (eq_refl user.tenant_id) (rw active refl)))
          (λ v passes. (eq_iff v.id user.id).0 (and-eq-true _ _ passes).0) in
      rw (identity-create user dummy_hash among early, get_current_user)
        (rw (found, current_user) (rw (jwt.roles (roles_at user)) refl))

module _ (lib : Library) (set : Settings) (fr : Fresh) (dummy_hash : String) where
  -- The database after the tokens of the user are made.
  abbrev pub with_refresh : User → Database → Database
  with_refresh user db = record db {
    refresh_tokens = db.refresh_tokens ++ refresh_row lib set fr user db ∷ [];
    effects = db.effects + 2;
  }

  abbrev Answered : User → Database → Response (TokenResponse × Cookie) × Database → Type 0
  Answered user db r = r ≡ (
    ok (token_response lib set fr user db, cookie_of lib set fr (fr.new_uuid db.effects)),
    with_refresh user db,
  )

  answer_tokens-ok :
      (user : User) (db db' : Database) {a : TokenResponse × Cookie}
      → answer_tokens lib set fr (create_tokens lib set fr user db) db ≡ (ok a, db')
      → Answered user db (ok a, db')
  unfolding answer_tokens create_tokens
  answer_tokens-ok user db db' answered =
      elim (Bool-cases (has_hash (refresh_row lib set fr user db).token_hash db.refresh_tokens)) [
        | inl clash ↦ cc (rw clash at answered)
        | inr free ↦ cc (rw free at answered)
      ]

  pub login-ok :
      (email password tenant_slug : String) (db db' : Database) {a : TokenResponse × Cookie}
      → login lib set fr dummy_hash email password tenant_slug db ≡ (ok a, db')
      → (user : User) × (authenticate_user
            (security_at lib set (fr.clock db.effects) dummy_hash)
            email
            password
            tenant_slug
            db.tenants
            db.users
          ≡ some user)
        × Answered user db (ok a, db')
  unfolding login
  login-ok email password tenant_slug db db' {a} logged_in = go _ refl logged_in
    where
      go :
          (o : Option User)
          → authenticate_user
              (security_at lib set (fr.clock db.effects) dummy_hash)
              email
              password
              tenant_slug
              db.tenants
              db.users
            ≡ o
          → elim o as (λ _. Response (TokenResponse × Cookie) × Database) [
            | none ↦ (http_error 401, db)
            | some user ↦ answer_tokens lib set fr (create_tokens lib set fr user db) db
          ]
            ≡ (ok a, db')
          → (user : User) × (authenticate_user
                (security_at lib set (fr.clock db.effects) dummy_hash)
                email
                password
                tenant_slug
                db.tenants
                db.users
              ≡ some user)
            × Answered user db (ok a, db')
      go none found answered = cc
      go (some user) found answered = (user, found, answer_tokens-ok user db db' answered)
