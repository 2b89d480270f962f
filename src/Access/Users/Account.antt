-- ===== src/Access/Users/Account.antt =====
-- Whose account a login is to.
use constructor.Prelude.{
  String, ◌≡◌, refl, ◌∙◌, subst, Bool, true, false, Option, none, some, List, eq_iff, if◌then◌else◌,
  and-eq-true,
}
use constructor.Access.Users.{
  User, Tenant, Security, find_user, has_email, find_tenant, find_account, candidate_hash,
  authenticate_user,
}
use constructor.Access.Users.Guard.{IsAmong, find_user-some}

module _ (sec : Security) (users : List User) where
  -- An active account of the email in the tenant with the slug.
  abbrev pub IsAccount : String → String → List Tenant → User → Type 0
  IsAccount email tenant_slug tenants user =
      (t : Tenant) × (find_tenant tenant_slug tenants ≡ some t)
      × IsAmong user users
      × (user.email ≡ email)
      × (user.tenant_id ≡ t.id)
      × (user.is_active ≡ true)

  find_account-IsAccount :
      (email tenant_slug : String) (tenants : List Tenant) {user : User}
      → find_account sec email tenant_slug tenants users ≡ some user
      → IsAccount email tenant_slug tenants user
  unfolding find_account
  find_account-IsAccount email tenant_slug tenants {user} h =
      go (find_tenant tenant_slug tenants) refl h
    where
      go :
          (o : Option Tenant)
          → find_tenant tenant_slug tenants ≡ o
          → elim o as (λ _. Option User) [
            | none ↦ none
            | some t ↦ find_user (has_email email t.id) users
          ]
            ≡ some user
          → IsAccount email tenant_slug tenants user
      go none found h = cc
      go (some t) found h =
          let (tested, among) = find_user-some (has_email email t.id) users h in
          let (same_email, others) = and-eq-true _ _ tested in
          let (same_tenant, active) = and-eq-true _ _ others in
          (
            t,
            found,
            among,
            (eq_iff user.email email).0 same_email,
            (eq_iff user.tenant_id t.id).0 same_tenant,
            active,
          )

  -- A login that succeeds is one to the account of the email in the tenant with the slug: an active
  -- user of that tenant, whose own hash the password fits. The hash that stands in for that of an
  -- unknown user lets nobody in.
  pub authenticate_user-some :
      (email password tenant_slug : String) (tenants : List Tenant) {user : User}
      → authenticate_user sec email password tenant_slug tenants users ≡ some user
      → (find_account sec email tenant_slug tenants users ≡ some user)
        × (sec.verify_password password user.hashed_password ≡ true)
        × IsAccount email tenant_slug tenants user
  unfolding authenticate_user
  authenticate_user-some email password tenant_slug tenants {user} h =
      go (find_account sec email tenant_slug tenants users) refl h
    where
      fits :
          (o : Option User) (b : Bool)
          → sec.verify_password password (candidate_hash sec o) ≡ b
          → (if b then o else none) ≡ some user
          → (o ≡ some user) × (sec.verify_password password (candidate_hash sec (some user)) ≡ true)
      fits o true verified h =
          (h, subst (λ x. sec.verify_password password (candidate_hash sec x) ≡ true) h verified)
      fits o false verified h = cc

      go :
          (o : Option User)
          → find_account sec email tenant_slug tenants users ≡ o
          → (if sec.verify_password password (candidate_hash sec o) then o else none) ≡ some user
          → (find_account sec email tenant_slug tenants users ≡ some user)
            × (sec.verify_password password user.hashed_password ≡ true)
            × IsAccount email tenant_slug tenants user
      go o found h =
          let (same, verified) = fits o _ refl h in
          (found ∙ same, verified, find_account-IsAccount email tenant_slug tenants (found ∙ same))
