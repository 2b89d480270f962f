-- ===== src/Access/Login/RoundTrip.antt =====
-- A login, and the requests that are made with its token.
use constructor.Prelude.{
  ℕ, ◌+◌, ◌*◌, ◌<◌, String, ◌≡◌, inl, inr, refl, sym, subst, true, some, List, [], ◌∷◌, ◌++◌, map,
  ◌==◌, Unique, elem, Bool-cases, eq_refl,
}
use constructor.Access.Users.{User, Response, ok, get_current_user}
use constructor.Access.Users.Account.{IsAccount, authenticate_user-some}
use constructor.Access.Accounts.{RefreshToken, Database, Fresh}
use constructor.Access.Login.{
  Library, Settings, TokenResponse, Cookie, has_hash, security_at, roles_of, token_response,
  refresh_row, login,
}
use constructor.Access.Login.SignedIn.{IsJwt, signed_in, get_current_user-create, login-ok}

has_hash-append :
    (row : RefreshToken) (rows : List RefreshToken)
    → has_hash row.token_hash (rows ++ row ∷ []) ≡ true
unfolding has_hash elem
has_hash-append row [] = rw (eq_refl row.token_hash) refl
has_hash-append row (r ∷ rows) = elim (Bool-cases (r.token_hash == row.token_hash)) [
  | inl e ↦ rw e refl
  | inr e ↦ rw e (has_hash-append row rows)
]

ok-eq :
    {a b : TokenResponse × Cookie} {d e : Database}
    → ◌≡◌ {A = Response (TokenResponse × Cookie) × Database} (ok a, d) (ok b, e)
    → ◌≡◌ {A = (TokenResponse × Cookie) × Database} (a, d) (b, e)
ok-eq same = cc

-- What a successful login gives.
pub record SignedIn (lib : Library) (set : Settings) (fr : Fresh) (dummy_hash : String)
    (email password tenant_slug : String) (db : Database) (a : TokenResponse × Cookie)
    (db' : Database) (now : ℕ) : Type 0 where
  pub user : User
  pub account :
      IsAccount
        (security_at lib set (fr.clock db.effects) dummy_hash)
        db.users
        email
        tenant_slug
        db.tenants
        user
  pub fits : lib.verify password user.hashed_password ≡ true
  pub session :
      get_current_user (security_at lib set now dummy_hash) (some a.0.access_token) db'.users
      ≡ ok (signed_in user (roles_of lib set user db))
  pub remembered : has_hash (lib.sha256 a.1.value) db'.refresh_tokens ≡ true

module _ (lib : Library) (set : Settings) (fr : Fresh) (dummy_hash : String) where
  -- The token of a successful login stands, until it expires, for the active account of the email in
  -- the tenant, whose password was given, with the roles that the account has in the database; and
  -- the hash of the refresh token in the cookie is stored. Conditions: PyJWT and the conversions do
  -- what they document, and the ids of users are different.
  pub login-get_current_user :
      (email password tenant_slug : String) (db db' : Database) (a : TokenResponse × Cookie)
      (now : ℕ)
      → IsJwt lib set db.users
          (λ u. roles_of lib set u db)
          (fr.clock db.effects + set.jwt_access_token_expire_minutes * 60)
          now
      → Unique (map (λ u. u.id) db.users)
      → login lib set fr dummy_hash email password tenant_slug db ≡ (ok a, db')
      → now < fr.clock db.effects + set.jwt_access_token_expire_minutes * 60
      → SignedIn lib set fr dummy_hash email password tenant_slug db a db' now
  unfolding token_response refresh_row security_at
  login-get_current_user email password tenant_slug db db' a now jwt unique logged_in early =
      let sec = security_at lib set (fr.clock db.effects) dummy_hash in
      let (user, found, answered) =
        login-ok lib set fr dummy_hash email password tenant_slug db db' logged_in in
      let (same, fits, account) =
        authenticate_user-some sec db.users email password tenant_slug db.tenants found in
      let token =
        get_current_user-create lib set db.users (λ u. roles_of lib set u db) (fr.clock db.effects)
          (set.jwt_access_token_expire_minutes * 60) now jwt user dummy_hash account.2 account.5
          unique early in
      let same_pair = sym (ok-eq answered) in
      record {
        user = user;
        account = account;
        fits = fits;
        session =
            subst
              (λ (x : (TokenResponse × Cookie) × Database).
                get_current_user (security_at lib set now dummy_hash) (some x.0.0.access_token)
                  x.1.users
                ≡ ok (signed_in user (roles_of lib set user db)))
              same_pair token;
        remembered =
            subst
              (λ (x : (TokenResponse × Cookie) × Database).
                has_hash (lib.sha256 x.0.1.value) x.1.refresh_tokens ≡ true)
              same_pair (has_hash-append (refresh_row lib set fr user db) db.refresh_tokens);
      }
