-- ===== src/Access/Tests.antt =====
-- The theorems about access at one user.
use constructor.Prelude.{
  String, ◌≡◌, ◌↔◌, refl, true, false, some, List, [], ◌∷◌, lookup, elem, is_some, ◌==◌,
  if◌then◌else◌,
}
use constructor.Json.{str, end, field, get}
use constructor.Outcome.{return, raise, value_error}
use constructor.Access.Permissions.{
  workflow_read, workflow_create, report_read, role_permissions, grants, has_permission,
}
use constructor.Access.Permissions.Roles.{has_permission_iff}
use constructor.Access.Users.{
  User, Tenant, CurrentUser, Security, find_account, authenticate_user, guard,
}
use constructor.Access.Users.Guard.{Authenticated, guard-Authenticated}
use constructor.Access.Users.Account.{IsAccount, authenticate_user-some}

has_permission_iff_example :
    ((has_permission ("viewer" ∷ "developer" ∷ []) workflow_create ≡ true) ↔ (
      (role : String) × (elem role ("viewer" ∷ "developer" ∷ []) ≡ true)
      × (grants role workflow_create ≡ true)))
    × (grants "tenant_admin" workflow_create ≡ true)
    × (grants "super_admin" workflow_create ≡ true)
    × ((role : String)
        → is_some (lookup role role_permissions) ≡ true
        → (grants role workflow_read ≡ true) × (grants role report_read ≡ true))
has_permission_iff_example = has_permission_iff ("viewer" ∷ "developer" ∷ []) workflow_create

abbrev ana : User
ana = record {
  id = "u1";
  tenant_id = "t1";
  email = "ana@example.com";
  hashed_password = "#secret";
  is_active = true;
}

abbrev users : List User
users = record ana { id = "u0"; is_active = false } ∷ ana ∷ []

abbrev acme : Tenant
acme = record { id = "t1"; name = "Acme"; slug = "acme"; status = "active"; config = end }

-- The only good token is that of Ana, and a hash is the password after "#".
abbrev security : Security
security = record {
  decode_access_token = λ token.
      if token == "ana"
      then return (field "sub" (str "u1") (field "tenant_id" (str "t1") end))
      else raise (value_error "Invalid token");
  to_uuid = λ v. elim v [ str s ↦ return s | _ ↦ raise (value_error "badly formed") ];
  to_roles = λ roles. return ("developer" ∷ []);
  verify_password = λ plain hash. if plain == "secret" then hash == "#secret" else false;
  dummy_hash = "#dummy";
}

abbrev current : CurrentUser
current = record {
  id = "u1";
  email = "ana@example.com";
  tenant_id = "t1";
  roles = "developer" ∷ [];
}

guard-Authenticated_example :
    Authenticated security users (some "ana") current
    × ((role : String) × (elem role ("developer" ∷ []) ≡ true)
        × (grants role workflow_create ≡ true))
unfolding guard get has_permission lookup elem
guard-Authenticated_example = guard-Authenticated security users workflow_create (some "ana") refl

authenticate_user-some_example :
    (find_account security "ana@example.com" "acme" (acme ∷ []) users ≡ some ana)
    × (true ≡ true)
    × IsAccount security users "ana@example.com" "acme" (acme ∷ []) ana
unfolding authenticate_user
authenticate_user-some_example =
    authenticate_user-some security users "ana@example.com" "secret" "acme" (acme ∷ []) refl
