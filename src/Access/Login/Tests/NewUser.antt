-- ===== src/Access/Login/Tests/NewUser.antt =====
-- A user that an administrator creates, and who then logs in.
use constructor.Prelude.{
  ℕ, ◌≡◌, refl, sym, ap, subst, true, none, some, [], ◌∷◌, if◌then◌else◌, lookup, elem, inl, inr,
  arith,
}
use constructor.Json.{end, get, put}
use constructor.Outcome.{return}
use constructor.Access.Permissions.{workflow_create, grants, has_permission}
use constructor.Access.Users.{User, ok, http_error, find_user, find_tenant, guard}
use constructor.Access.Accounts.{
  Database, UserCreate, find_role, new_user, add_user, log_action, create,
}
use constructor.Access.Accounts.Created.{IsCreated}
use constructor.Access.Login.{
  TokenResponse, Cookie, names_of, get_user_roles, has_hash, security_at, refresh_row, login,
}
use constructor.Access.Login.SignedIn.{signed_in}
use constructor.Access.Login.FirstLogin.{IsNew, create_user-login-guard}
use constructor.Access.Login.Tests.{
  ana, acme, before, fresh, settings, library, ReadsBack, Reads, texts_of-items_of,
}

abbrev body : UserCreate
body = record { email = "bob@example.com"; password = "hunter2"; role = "developer" }

abbrev bob : User
bob = record {
  id = "u2";
  tenant_id = "t1";
  email = "bob@example.com";
  hashed_password = "#hunter2";
  is_active = true;
}

abbrev with_bob : Database
with_bob = record before {
  users = ana ∷ bob ∷ [];
  user_roles =
      record { id = "x1"; user_id = "u1"; tenant_id = "t1"; role_id = "r1" }
      ∷ record { id = "other"; user_id = "u2"; tenant_id = "t1"; role_id = "r2" }
      ∷ [];
  audit_logs =
      record {
        id = "other";
        tenant_id = "t1";
        user_id = none;
        action = "user.created";
        resource_type = "user";
        resource_id = some "u2";
        log_metadata = end;
        created_at = 102;
      }
      ∷ [];
  effects = 3;
}

-- The administrator creates Bob.
bob_made :
    create fresh (security_at (library 1000) settings 999 "#dummy") (some "u1") body before
    ≡ (ok bob, with_bob)
unfolding create guard get has_permission lookup elem security_at
bob_made = refl

is_created : IsCreated fresh body "t1" before bob with_bob
unfolding find_role new_user add_user log_action
is_created = record {
  role = record { id = "r2"; name = "developer"; description = "" };
  found = refl;
  row = refl;
  users = refl;
  user_roles = refl;
  audit_logs = refl;
  others = (refl, refl, refl);
}

is_new : IsNew (library 1003) settings fresh body "t1" before "acme" bob with_bob
unfolding find_tenant find_user elem has_hash refresh_row
is_new = record {
  tenant = acme;
  named = refl;
  its_id = refl;
  no_account = refl;
  no_roles = (refl, tt);
  user_ids = (refl, (refl, tt));
  role_ids = (refl, (refl, tt));
  free = refl;
  fits = refl;
}

bob-Reads : (now : ℕ) → Reads 1003 now with_bob
unfolding get put get_user_roles names_of
bob-Reads now = record {
  decodes = λ u among early. elim among [
    | inl same ↦ subst (ReadsBack 1003 now with_bob) (sym same) refl
    | inr (inl same) ↦ subst (ReadsBack 1003 now with_bob) (sym same) refl
    | inr (inr none_left) ↦ absurd none_left
  ];
  ids = λ u among. (refl, refl);
  roles = λ names. ap return (texts_of-items_of names);
}

create_user-login-guard_example :
    (a : TokenResponse × Cookie) × (db'' : Database) × (login
        (library 1003)
        settings
        fresh
        "#dummy"
        "bob@example.com"
        "hunter2"
        "acme"
        with_bob
      ≡ (ok a, db''))
    × (guard
          (security_at (library 1003) settings 500 "#dummy")
          workflow_create
          (some a.0.access_token)
          db''.users
        ≡ (if grants "developer" workflow_create
            then ok (signed_in bob ("developer" ∷ []))
            else http_error 403))
create_user-login-guard_example =
    create_user-login-guard (library 1003) settings fresh "#dummy" body "t1" before with_bob bob
      "acme" workflow_create 500 is_created is_new (bob-Reads 500) (omega arith)
