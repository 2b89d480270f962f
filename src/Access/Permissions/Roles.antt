-- ===== src/Access/Permissions/Roles.antt =====
-- How the roles compare.
use constructor.Prelude.{
  String, ◌≡◌, refl, ◌↔◌, Bool, true, false, ◌||◌, List, [], ◌∷◌, lookup, elem, is_some, ◌==◌,
  eq_iff, eq_refl, arith, inl, inr, Bool-cases, subst, sym,
}
use constructor.Access.Permissions.{
  Permission, workflow_create, workflow_read, report_read, role_permissions, grants, has_permission,
}

tenant_admin-grants : (p : Permission) → grants "tenant_admin" p ≡ true
unfolding grants lookup elem
tenant_admin-grants workflow_create = refl
tenant_admin-grants _ = refl

super_admin-grants : (p : Permission) → grants "super_admin" p ≡ true
unfolding grants lookup elem
super_admin-grants workflow_create = refl
super_admin-grants _ = refl

-- Every role of the table reads workflows and reports.
known-reads :
    (role : String)
    → is_some (lookup role role_permissions) ≡ true
    → (grants role workflow_read ≡ true) × (grants role report_read ≡ true)
unfolding grants lookup elem
known-reads role known = (ground arith, ground arith)

head : (role : String) (roles : List String) → elem role (role ∷ roles) ≡ true
unfolding elem
head role roles = ground (arith, eq_refl role)

tail :
    (other role : String) (roles : List String)
    → elem other roles ≡ true
    → elem other (role ∷ roles) ≡ true
unfolding elem
tail other role roles h = rw h (ground arith)

later :
    (role : String) (roles : List String) (p : Permission)
    → grants role p ≡ false
    → has_permission (role ∷ roles) p ≡ true
    → has_permission roles p ≡ true
unfolding has_permission
later role roles p refused h = rw refused at h

nobody : (p : Permission) → ¬ (has_permission [] p ≡ true)
unfolding has_permission
nobody p h = cc

has_permission-grants :
    (roles : List String) (p : Permission)
    → has_permission roles p ≡ true
    → (role : String) × (elem role roles ≡ true) × (grants role p ≡ true)
has_permission-grants [] p h = absurd (nobody p h)
has_permission-grants (role ∷ roles) p h = elim (Bool-cases (grants role p)) [
  | inl granted ↦ (role, head role roles, granted)
  | inr refused ↦
      let (other, among, granted) = has_permission-grants roles p (later role roles p refused h) in
      (other, tail other role roles among, granted)
]

grants-has_permission :
    (roles : List String) (p : Permission) (role : String)
    → elem role roles ≡ true
    → grants role p ≡ true
    → has_permission roles p ≡ true
unfolding has_permission elem
grants-has_permission [] p role among granted = cc
grants-has_permission (first ∷ roles) p role among granted = elim (Bool-cases (first == role)) [
  | inl same ↦
      or_left _ _ (subst (λ r. grants r p ≡ true) (sym ((eq_iff first role).0 same)) granted)
  | inr other ↦ or_right _ _ (grants-has_permission roles p role (rw other at among) granted)
]
  where
    or_left : (a b : Bool) → a ≡ true → (a || b) ≡ true
    or_left a b h = rw h refl

    or_right : (a b : Bool) → b ≡ true → (a || b) ≡ true
    or_right true b h = refl
    or_right false b h = h

-- A user has a permission exactly if one of the roles grants it. The roles `tenant_admin` and
-- `super_admin` grant every permission, so no list of roles gives more than either; and every role of
-- the table grants the reading of workflows and of reports.
pub has_permission_iff :
    (roles : List String) (p : Permission)
    → ((has_permission roles p ≡ true)
        ↔ ((role : String) × (elem role roles ≡ true) × (grants role p ≡ true)))
      × (grants "tenant_admin" p ≡ true)
      × (grants "super_admin" p ≡ true)
      × ((role : String)
          → is_some (lookup role role_permissions) ≡ true
          → (grants role workflow_read ≡ true) × (grants role report_read ≡ true))
has_permission_iff roles p = (
  (has_permission-grants roles p, λ h. grants-has_permission roles p h.0 h.1 h.2),
  tenant_admin-grants p,
  super_admin-grants p,
  known-reads,
)
