-- ===== src/Access/Login/Tests.antt =====
-- A tenant with one administrator, who creates a developer; and the theorems about logins there.
pub mod NewUser
use constructor.Prelude.{
  ℕ, ◌+◌, String, ◌≡◌, refl, sym, ap, subst, true, false, Option, some, List, [], ◌∷◌, ◌==◌,
  if◌then◌else◌, eqb, elem, inl, inr, arith,
}
use Prim.Native.String.{◌++◌ as join}
use constructor.Prelude.Int.{pos}
use constructor.Json.{Value, Fields, Items, nil, cons, str, num, arr, end, field, get, put}
use constructor.Outcome.{return}
use constructor.Access.Users.{User, Tenant, ok}
use constructor.Access.Accounts.{Database, Fresh}
use constructor.Access.Login.{
  Library, Settings, TokenResponse, Cookie, claims, items_of, names_of, get_user_roles, roles_of,
  login, required,
}
use constructor.Access.Login.SignedIn.{IsJwt, token_content}
use constructor.Access.Login.RoundTrip.{SignedIn, login-get_current_user}

abbrev pub ana : User
ana = record {
  id = "u1";
  tenant_id = "t1";
  email = "ana@example.com";
  hashed_password = "#secret";
  is_active = true;
}

abbrev pub acme : Tenant
acme = record { id = "t1"; name = "Acme"; slug = "acme"; status = "active"; config = end }

abbrev pub before : Database
before = record {
  users = ana ∷ [];
  tenants = acme ∷ [];
  roles =
      record { id = "r1"; name = "tenant_admin"; description = "" }
      ∷ record { id = "r2"; name = "developer"; description = "" }
      ∷ [];
  user_roles = record { id = "x1"; user_id = "u1"; tenant_id = "t1"; role_id = "r1" } ∷ [];
  refresh_tokens = [];
  audit_logs = [];
  effects = 0;
}

abbrev pub fresh : Fresh
fresh = record {
  new_uuid = λ n. if eqb n 0 then "u2" else if eqb n 3 then "f3" else "other";
  clock = λ n. 100 + n;
  hash = λ n password. join "#" password;
}

abbrev pub settings : Settings
settings = record {
  jwt_private_key = "private";
  jwt_public_key = "public";
  jwt_access_token_expire_minutes = 15;
  jwt_refresh_token_expire_days = 7;
  environment = "production";
}

abbrev pub content : String → String → ℕ → Fields
content id role expires = field "sub" (str id) (
    field "tenant_id" (str "t1")
      (field "roles" (arr (items_of (role ∷ []))) (field "exp" (num (pos expires)) end)))

abbrev pub text_of : Option Value → String
text_of (some (str s)) = s
text_of _ = ""

abbrev pub texts_of : Items → List String
texts_of nil = []
texts_of (cons (str s) xs) = s ∷ texts_of xs
texts_of (cons _ xs) = texts_of xs

pub texts_of-items_of : (names : List String) → texts_of (items_of names) ≡ names
texts_of-items_of [] = refl
texts_of-items_of (n ∷ names) = ap (λ ns. n ∷ ns) (texts_of-items_of names)

-- A token is the id of its user, and there are two users.
abbrev pub library : ℕ → Library
library expires = record {
  encode = λ c key alg. text_of (get "sub" c);
  decode = λ now token key algs required.
      if token == "u1"
      then claims (content "u1" "tenant_admin" expires)
      else claims (content "u2" "developer" expires);
  sha256 = λ s. join "sha" s;
  verify = λ plain hash. hash == join "#" plain;
  to_uuid = λ v. return (text_of (some v));
  to_roles = λ roles. elim roles [ some (arr xs) ↦ return (texts_of xs) | _ ↦ return [] ];
}

-- Reading back the token of one user.
abbrev pub ReadsBack : ℕ → ℕ → Database → User → Type 0
ReadsBack expires now db u =
    let lib = library expires in
    let c = token_content lib settings u (roles_of lib settings u db) expires in
    lib.decode now (lib.encode c "private" "RS256") "public" ("RS256" ∷ []) required ≡ claims c

abbrev pub Reads : ℕ → ℕ → Database → Type 0
Reads expires now db =
    IsJwt (library expires) settings db.users (λ u. roles_of (library expires) settings u db)
      expires now

pub ana-Reads : (now : ℕ) → Reads 1000 now before
unfolding get put get_user_roles names_of
ana-Reads now = record {
  decodes = λ u among early. elim among [
    | inl same ↦ subst (ReadsBack 1000 now before) (sym same) refl
    | inr none_left ↦ absurd none_left
  ];
  ids = λ u among. (refl, refl);
  roles = λ names. ap return (texts_of-items_of names);
}

abbrev pub ana_login : (TokenResponse × Cookie) × Database
ana_login = (
  (
    record { access_token = "u1"; token_type = "bearer"; expires_in = 900 },
    record {
      key = "refresh_token";
      value = "u2";
      httponly = true;
      secure = true;
      samesite = "strict";
      max_age = 604800;
    },
  ),
  record before {
    refresh_tokens =
        record {
          id = "other";
          user_id = "u1";
          tenant_id = "t1";
          token_hash = "shau2";
          expires_at = 604900;
          revoked = false;
        }
        ∷ [];
    effects = 2;
  },
)

ana_logs_in :
    login (library 1000) settings fresh "#dummy" "ana@example.com" "secret" "acme" before
    ≡ (ok ana_login.0, ana_login.1)
unfolding login get put get_user_roles names_of elem
ana_logs_in = refl

login-get_current_user_example :
    SignedIn
      (library 1000)
      settings
      fresh
      "#dummy"
      "ana@example.com"
      "secret"
      "acme"
      before
      ana_login.0
      ana_login.1
      999
unfolding elem
login-get_current_user_example =
    login-get_current_user (library 1000) settings fresh "#dummy" "ana@example.com" "secret" "acme"
      before ana_login.1 ana_login.0 999 (ana-Reads 999) (refl, tt) ana_logs_in (omega arith)
