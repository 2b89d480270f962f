-- ===== src/Triggers/Endpoints/Pages.antt =====
-- What a page of executions holds.
use constructor.Prelude.{
  ℕ, zero, suc, ◌≤◌, String, ◌≡◌, ◌≢◌, refl, ap, subst, Bool, true, Option, none, some, List, [],
  ◌∷◌, ◌==◌, eq_iff, All, All-map, length, Bool-cases, inl, inr, arith, and-eq-true,
}
use constructor.Prelude.Int.{ℤ, pos, negsuc, ltb_ℤ}
use constructor.Workflows.Steps.{Uuid}
use constructor.Executions.Events.{ProcessExecution}
use constructor.Access.Permissions.{workflow_read}
use constructor.Access.Users.{User, CurrentUser, ok, Security, guard}
use constructor.Triggers.Endpoints.{
  take, drop, Postgres, is_visible, has_status, has_definition, is_asked, select, page,
  list_executions, answer_list, list_checked, list_all,
}

-- The same rows in another order.
pub data Rearranged : List ProcessExecution → List ProcessExecution → Type 0 where
  same : (xs : List ProcessExecution) → Rearranged xs xs
  keep :
      (x : ProcessExecution) {xs ys : List ProcessExecution}
      → Rearranged xs ys
      → Rearranged (x ∷ xs) (x ∷ ys)
  swap :
      (x y : ProcessExecution) (xs : List ProcessExecution) → Rearranged (x ∷ y ∷ xs) (y ∷ x ∷ xs)
  then_ :
      {xs ys zs : List ProcessExecution} → Rearranged xs ys → Rearranged ys zs → Rearranged xs zs

-- No row is older than a later one.
abbrev pub Newest : List ProcessExecution → Type 0
Newest [] = Unit
Newest (x ∷ xs) = All (λ y. y.created_at ≤ x.created_at) xs × Newest xs

-- What the database does with `ORDER BY created_at DESC` on some rows.
pub record IsOrdered (pg : Postgres) (rows : List ProcessExecution) : Type 0 where
  pub newest : Newest (pg.newest_first rows)
  pub rearranged : Rearranged rows (pg.newest_first rows)

All-Rearranged :
    (P : ProcessExecution → Type 0) {xs ys : List ProcessExecution}
    → Rearranged xs ys
    → All P xs
    → All P ys
All-Rearranged P (same xs) all = all
All-Rearranged P (keep x r) all = (all.0, All-Rearranged P r all.1)
All-Rearranged P (swap x y xs) all = (all.1.0, (all.0, all.1.1))
All-Rearranged P (then_ r s) all = All-Rearranged P s (All-Rearranged P r all)

All-take :
    (P : ProcessExecution → Type 0) (n : ℕ) (xs : List ProcessExecution)
    → All P xs
    → All P (take n xs)
All-take P zero xs all = tt
All-take P (suc n) [] all = tt
All-take P (suc n) (x ∷ xs) all = (all.0, All-take P n xs all.1)

All-drop :
    (P : ProcessExecution → Type 0) (n : ℕ) (xs : List ProcessExecution)
    → All P xs
    → All P (drop n xs)
All-drop P zero xs all = all
All-drop P (suc n) [] all = tt
All-drop P (suc n) (x ∷ xs) all = All-drop P n xs all.1

Newest-take : (n : ℕ) (xs : List ProcessExecution) → Newest xs → Newest (take n xs)
Newest-take zero xs newest = tt
Newest-take (suc n) [] newest = tt
Newest-take (suc n) (x ∷ xs) newest = (All-take _ n xs newest.0, Newest-take n xs newest.1)

Newest-drop : (n : ℕ) (xs : List ProcessExecution) → Newest xs → Newest (drop n xs)
Newest-drop zero xs newest = newest
Newest-drop (suc n) [] newest = tt
Newest-drop (suc n) (x ∷ xs) newest = Newest-drop n xs newest.1

length-take : (n : ℕ) (xs : List ProcessExecution) → length (take n xs) ≤ n
length-take zero xs = omega arith
length-take (suc n) [] = omega arith
length-take (suc n) (x ∷ xs) = omega (arith, length-take n xs)

module _ (pg : Postgres) where
  All-select :
      (test : ProcessExecution → Bool) (xs : List ProcessExecution)
      → All (λ x. test x ≡ true) (select pg test xs)
  unfolding select
  All-select test [] = tt
  All-select test (x ∷ xs) = elim (Bool-cases (test x)) [
    | inl e ↦ rw e (e, All-select test xs)
    | inr e ↦ rw e (All-select test xs)
  ]

  -- What the user may see and has asked for.
  pub record IsAskedFor (current_tenant : Uuid) (status : Option String)
      (definition_id : Option Uuid) (x : ProcessExecution) : Type 0 where
    pub tenant : pg.is_bound ≡ true → x.tenant_id ≡ current_tenant
    pub its_status :
        (text : String) → status ≡ some text → text ≢ "" → pg.status_text x.status ≡ text
    pub definition : (id : Uuid) → definition_id ≡ some id → x.process_definition_id ≡ id

  is_visible-tenant :
      (current_tenant : Uuid) (x : ProcessExecution)
      → is_visible pg current_tenant x ≡ true
      → pg.is_bound ≡ true
      → x.tenant_id ≡ current_tenant
  unfolding is_visible
  is_visible-tenant current_tenant x visible is_bound =
      (eq_iff x.tenant_id current_tenant).0 (rw is_bound at visible)

  has_status-text :
      (status : Option String) (x : ProcessExecution) (text : String)
      → has_status pg status x ≡ true
      → status ≡ some text
      → text ≢ ""
      → pg.status_text x.status ≡ text
  unfolding has_status
  has_status-text none x text has given filled = cc
  has_status-text (some s) x text has given filled = elim (Bool-cases (s == "")) [
    | inl e ↦ absurd (filled (cc (given, (eq_iff s "").0 e)))
    | inr e ↦ cc (given, (eq_iff (pg.status_text x.status) s).0 (rw e at has))
  ]

  has_definition-id :
      (definition_id : Option Uuid) (x : ProcessExecution) (id : Uuid)
      → has_definition pg definition_id x ≡ true
      → definition_id ≡ some id
      → x.process_definition_id ≡ id
  unfolding has_definition
  has_definition-id none x id has given = cc
  has_definition-id (some i) x id has given = cc (given, (eq_iff x.process_definition_id i).0 has)

  is_asked-IsAskedFor :
      (current_tenant : Uuid) (status : Option String) (definition_id : Option Uuid)
      (x : ProcessExecution)
      → is_asked pg current_tenant status definition_id x ≡ true
      → IsAskedFor current_tenant status definition_id x
  unfolding is_asked
  is_asked-IsAskedFor current_tenant status definition_id x asked =
      let (visible, others) = and-eq-true _ _ asked in
      let (by_status, by_definition) = and-eq-true _ _ others in
      record {
        tenant = is_visible-tenant current_tenant x visible;
        its_status = λ text. has_status-text status x text by_status;
        definition = λ id. has_definition-id definition_id x id by_definition;
      }

  -- A page that the endpoint answers with.
  pub record IsPage (current : CurrentUser) (status : Option String) (definition_id : Option Uuid)
      (limit : ℤ) (page_ : List ProcessExecution) : Type 0 where
    pub bound : ℕ
    pub is_limit : limit ≡ pos bound
    pub at_most_200 : bound ≤ 200
    pub short : length page_ ≤ bound
    pub asked : All (IsAskedFor current.tenant_id status definition_id) page_
    pub newest : Newest page_

  list_checked-IsPage :
      (current : CurrentUser) (rows : List ProcessExecution) (status : Option String)
      (definition_id : Option Uuid) (limit offset : ℤ) {page_ : List ProcessExecution}
      → IsOrdered pg (select pg (is_asked pg current.tenant_id status definition_id) rows)
      → list_checked pg current rows status definition_id limit offset ≡ ok page_
      → IsPage current status definition_id limit page_
  unfolding list_checked list_executions answer_list page
  list_checked-IsPage current rows status definition_id (negsuc n) offset ordered answered =
      elim (Bool-cases (ltb_ℤ (pos 200) (negsuc n))) [
        | inl e ↦ cc (rw e at answered)
        | inr e ↦ cc (rw e at answered)
      ]
  list_checked-IsPage current rows status definition_id (pos limit) (negsuc n) ordered answered =
      elim (Bool-cases (ltb_ℤ (pos 200) (pos limit))) [
        | inl e ↦ cc (rw e at answered)
        | inr e ↦ cc (rw e at answered)
      ]
  list_checked-IsPage current rows status definition_id (pos limit) (pos offset) ordered answered =
      let asked = is_asked pg current.tenant_id status definition_id in
      let found = select pg asked rows in
      let all =
        All-map (λ x. asked x ≡ true) (IsAskedFor current.tenant_id status definition_id) _
          (is_asked-IsAskedFor current.tenant_id status definition_id)
          (All-Rearranged (λ x. asked x ≡ true) ordered.rearranged (All-select asked rows)) in
      let sorted = pg.newest_first found in
      elim (Bool-cases (ltb_ℤ (pos 200) (pos limit))) [
        | inl e ↦ cc (rw e at answered)
        | inr e ↦
            subst (IsPage current status definition_id (pos limit))
              (ok-injective (rw e at answered))
              (record {
                bound = limit;
                is_limit = refl;
                at_most_200 = ground arith;
                short = length-take limit (drop offset sorted);
                asked = All-take _ limit (drop offset sorted) (All-drop _ offset sorted all);
                newest =
                    Newest-take limit (drop offset sorted)
                      (Newest-drop offset sorted ordered.newest);
              })
      ]
    where
      ok-injective : {a b : List ProcessExecution} → ok a ≡ ok b → a ≡ b
      ok-injective same_answer = cc

  -- Every page that the endpoint answers with has at most as many rows as were asked for, and at most
  -- 200, the newest first; and every row has the status, unless that is empty, and the definition that
  -- were asked for, and is of the tenant of the user, if the policies bind the role of the database.
  -- Conditions: the user passes the guard, and the database orders the rows as the query says.
  pub list_all-IsPage :
      (sec : Security) (credentials : Option String) (users : List User) (current : CurrentUser)
      (rows : List ProcessExecution) (status : Option String) (definition_id : Option Uuid)
      (limit offset : ℤ) (page_ : List ProcessExecution)
      → guard sec workflow_read credentials users ≡ ok current
      → IsOrdered pg (select pg (is_asked pg current.tenant_id status definition_id) rows)
      → list_all pg sec credentials users status definition_id limit offset rows ≡ (ok page_, rows)
      → IsPage current status definition_id limit page_
  unfolding list_all
  list_all-IsPage sec credentials users current rows status definition_id limit offset page_ passed
        ordered answered =
      list_checked-IsPage current rows status definition_id limit offset ordered
        (ap (λ r. r.0) (rw passed at answered))
