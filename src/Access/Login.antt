-- ===== src/Access/Login.antt =====
-- services/platform-api/src/auth/{jwt,service,router}.py: the making and the reading of tokens, and
-- the login endpoint.
pub mod SignedIn
pub mod RoundTrip
pub mod FirstLogin
pub mod Tests
use constructor.Prelude.{
  ℕ, ◌+◌, ◌*◌, String, Bool, true, false, not, Option, none, some, List, [], ◌∷◌, ◌++◌, map, ◌==◌,
  ◌&&◌, if◌then◌else◌, elem,
}
use constructor.Prelude.Int.{pos}
use constructor.Json.{Value, Fields, Items, nil, cons, str, num, arr, end, field, put}
use constructor.Outcome.{Outcome, return, raise, value_error, raised, concat}
use constructor.Workflows.Steps.{Uuid}
use constructor.Access.Users.{User, Response, ok, http_error, crash, Security, authenticate_user}
use constructor.Access.Accounts.{Role, UserRole, RefreshToken, Database, Fresh}

-- What `jwt.decode` brings.
pub data Decoded : Type 0 where
  claims : Fields → Decoded
  expired_signature : Decoded
  invalid_token : String → Decoded

-- PyJWT, hashlib and the conversions. `decode` has the time, the token, the key, the algorithms and
-- the claims that are required.
pub record Library : Type 0 where
  pub encode : Fields → String → String → String
  pub decode : ℕ → String → String → List String → List String → Decoded
  pub sha256 : String → String
  pub verify : String → String → Bool
  pub to_uuid : Value → Outcome Uuid
  pub to_roles : Option Value → Outcome (List String)

pub record Settings : Type 0 where
  pub jwt_private_key : String
  pub jwt_public_key : String
  pub jwt_access_token_expire_minutes : ℕ
  pub jwt_refresh_token_expire_days : ℕ
  pub environment : String

pub record TokenResponse : Type 0 where
  pub access_token : String
  pub token_type : String
  pub expires_in : ℕ

-- `response.set_cookie`
pub record Cookie : Type 0 where
  pub key : String
  pub value : String
  pub httponly : Bool
  pub secure : Bool
  pub samesite : String
  pub max_age : ℕ

abbrev pub algorithm : String
algorithm = "RS256"

abbrev pub required : List String
required = "exp" ∷ "sub" ∷ "tenant_id" ∷ []

abbrev pub items_of : List String → Items
items_of [] = nil
items_of (s ∷ ss) = cons (str s) (items_of ss)

-- `select(Role.name).join(…)`: the names of the roles with an id.
unfoldable pub names_of : Uuid → List Role → List String
names_of role_id [] = []
names_of role_id (r ∷ rs) =
    let rest = names_of role_id rs in if r.id == role_id then r.name ∷ rest else rest

unfoldable pub get_user_roles : Uuid → Uuid → List UserRole → List Role → List String
unfolding names_of
get_user_roles user_id tenant_id [] roles = []
get_user_roles user_id tenant_id (r ∷ rs) roles =
    let rest = get_user_roles user_id tenant_id rs roles in
    if (r.user_id == user_id) && (r.tenant_id == tenant_id)
    then names_of r.role_id roles ++ rest
    else rest

-- The row breaks the unique constraint.
unfoldable pub has_hash : String → List RefreshToken → Bool
has_hash token_hash tokens = elem token_hash (map (λ t. t.token_hash) tokens)

module _ (lib : Library) (set : Settings) where
  -- `create_access_token`, at a time, for a number of seconds.
  unfoldable pub create_access_token : Fields → ℕ → ℕ → String
  create_access_token content now seconds =
      lib.encode (put "exp" (num (pos (now + seconds))) content) set.jwt_private_key algorithm

  unfoldable pub decode_access_token : ℕ → String → Outcome Fields
  decode_access_token now token =
      elim (lib.decode now token set.jwt_public_key (algorithm ∷ []) required) [
        | claims payload ↦ return payload
        | expired_signature ↦ raise (value_error "Token expired")
        | invalid_token text ↦ raise (value_error (concat "Invalid token: " text ""))
      ]

  -- The functions of auth/ and of bcrypt that a request uses, at a time.
  unfoldable pub security_at : ℕ → String → Security
  unfolding decode_access_token
  security_at now dummy_hash = record {
    decode_access_token = decode_access_token now;
    to_uuid = lib.to_uuid;
    to_roles = lib.to_roles;
    verify_password = lib.verify;
    dummy_hash = dummy_hash;
  }

  abbrev pub claims_of : User → List String → Fields
  claims_of user roles =
      field "sub" (str user.id)
        (field "tenant_id" (str user.tenant_id) (field "roles" (arr (items_of roles)) end))

  abbrev pub roles_of : User → Database → List String
  roles_of user db = get_user_roles user.id user.tenant_id db.user_roles db.roles

  module _ (fr : Fresh) where
    unfoldable pub token_response : User → Database → TokenResponse
    unfolding create_access_token get_user_roles
    token_response user db = record {
      access_token =
          create_access_token (claims_of user (roles_of user db)) (fr.clock db.effects)
            (set.jwt_access_token_expire_minutes * 60);
      token_type = "bearer";
      expires_in = set.jwt_access_token_expire_minutes * 60;
    }

    unfoldable pub refresh_row : User → Database → RefreshToken
    refresh_row user db = record {
      id = fr.new_uuid (db.effects + 1);
      user_id = user.id;
      tenant_id = user.tenant_id;
      token_hash = lib.sha256 (fr.new_uuid db.effects);
      expires_at = fr.clock db.effects + set.jwt_refresh_token_expire_days * 86400;
      revoked = false;
    }

    -- `create_tokens`: the response, the raw refresh token, and the row; `flush` refuses a hash that
    -- is there.
    unfoldable pub create_tokens : User → Database → Outcome (TokenResponse × String) × Database
    unfolding token_response refresh_row has_hash
    create_tokens user db =
        let row = refresh_row user db in
        if has_hash row.token_hash db.refresh_tokens
        then (raise (raised "IntegrityError"), db)
        else (
          return (token_response user db, fr.new_uuid db.effects),
          record db { refresh_tokens = db.refresh_tokens ++ row ∷ []; effects = db.effects + 2 },
        )

    abbrev pub cookie_of : String → Cookie
    cookie_of raw_refresh = record {
      key = "refresh_token";
      value = raw_refresh;
      httponly = true;
      secure = not (set.environment == "development");
      samesite = "strict";
      max_age = set.jwt_refresh_token_expire_days * 86400;
    }

    -- The end of the endpoint: what raises is rolled back.
    unfoldable pub answer_tokens :
        Outcome (TokenResponse × String) × Database
        → Database
        → Response (TokenResponse × Cookie) × Database
    answer_tokens (return (response, raw_refresh), db') db =
        (ok (response, cookie_of raw_refresh), db')
    answer_tokens (raise e, db') db = (crash e, db)

    -- `POST /auth/login`
    unfoldable pub login :
        String → String → String → String → Database → Response (TokenResponse × Cookie) × Database
    unfolding create_tokens answer_tokens authenticate_user security_at
    login dummy_hash email password tenant_slug db =
        let found =
          authenticate_user (security_at (fr.clock db.effects) dummy_hash) email password
            tenant_slug db.tenants db.users in
        elim found [
          | none ↦ (http_error 401, db)
          | some user ↦ answer_tokens (create_tokens user db) db
        ]
