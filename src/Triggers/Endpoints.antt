-- ===== src/Triggers/Endpoints.antt =====
-- services/platform-api/src/executions/router.py, and the queries get_execution and list_executions
-- of executions/service.py, with the policy of migrations/versions/004_workflows.py.
pub mod Pages
pub mod Runs
pub mod Tests
use constructor.Prelude.{
  ℕ, zero, suc, String, Bool, true, ◌&&◌, Option, none, some, List, [], ◌∷◌, ◌==◌, if◌then◌else◌,
}
use constructor.Prelude.Int.{ℤ, pos, negsuc, ltb_ℤ}
use constructor.Outcome.{Outcome, return, raise, raised}
use constructor.Workflows.Steps.{Uuid}
use constructor.Executions.Events.{ProcessExecution, Status}
use constructor.Access.Permissions.{workflow_read, workflow_trigger}
use constructor.Access.Users.{
  User, CurrentUser, Response, ok, http_error, crash, Security, guard, guarded,
}
use constructor.Triggers.Create.{ExecutionCreate, Store, Fresh, create_execution}

-- `xs[:n]` and `xs[n:]`
module _ {ℓ} {A : Type ℓ} where
  abbrev pub take : ℕ → List A → List A
  take zero xs = []
  take (suc n) [] = []
  take (suc n) (x ∷ xs) = x ∷ take n xs

  abbrev pub drop : ℕ → List A → List A
  drop zero xs = xs
  drop (suc n) [] = []
  drop (suc n) (x ∷ xs) = drop n xs

-- What the database does: whether the row-level policies bind its role, how it orders rows by
-- `created_at`, the newest first, and the texts of the column `status`.
pub record Postgres : Type 0 where
  pub is_bound : Bool
  pub newest_first : List ProcessExecution → List ProcessExecution
  pub status_text : Status → String

module _ (pg : Postgres) where
  -- `USING (tenant_id = current_setting('app.current_tenant', TRUE)::uuid)`
  unfoldable pub is_visible : Uuid → ProcessExecution → Bool
  is_visible current_tenant x = if pg.is_bound then x.tenant_id == current_tenant else true

  -- `if status: q = q.where(…)`
  unfoldable pub has_status : Option String → ProcessExecution → Bool
  has_status none x = true
  has_status (some text) x = if text == "" then true else pg.status_text x.status == text

  unfoldable pub has_definition : Option Uuid → ProcessExecution → Bool
  has_definition none x = true
  has_definition (some id) x = x.process_definition_id == id

  unfoldable pub is_asked : Uuid → Option String → Option Uuid → ProcessExecution → Bool
  unfolding is_visible has_status has_definition
  is_asked current_tenant status definition_id x =
      is_visible current_tenant x && (has_status status x && has_definition definition_id x)

  unfoldable pub select : (ProcessExecution → Bool) → List ProcessExecution → List ProcessExecution
  select test [] = []
  select test (x ∷ xs) = let rest = select test xs in if test x then x ∷ rest else rest

  -- `LIMIT` and `OFFSET`, which the database refuses if they are negative.
  unfoldable pub page : ℤ → ℤ → List ProcessExecution → Outcome (List ProcessExecution)
  page (negsuc n) offset xs = raise (raised "LIMIT must not be negative")
  page (pos limit) (negsuc n) xs = raise (raised "OFFSET must not be negative")
  page (pos limit) (pos offset) xs = return (take limit (drop offset xs))

  unfoldable pub list_executions :
      Uuid
      → List ProcessExecution
      → Option String
      → Option Uuid
      → ℤ
      → ℤ
      → Outcome (List ProcessExecution)
  unfolding is_asked select page
  list_executions current_tenant rows status definition_id limit offset =
      page limit offset
        (pg.newest_first (select (is_asked current_tenant status definition_id) rows))

  unfoldable pub answer_list : Outcome (List ProcessExecution) → Response (List ProcessExecution)
  answer_list (return rows) = ok rows
  answer_list (raise e) = crash e

  -- `Query(default=50, le=200)`
  unfoldable pub list_checked :
      CurrentUser
      → List ProcessExecution
      → Option String
      → Option Uuid
      → ℤ
      → ℤ
      → Response (List ProcessExecution)
  unfolding list_executions answer_list
  list_checked current rows status definition_id limit offset =
      if ltb_ℤ (pos 200) limit
      then http_error 422
      else answer_list (list_executions current.tenant_id rows status definition_id limit offset)

  -- `GET /executions`
  unfoldable pub list_all :
      Security
      → Option String
      → List User
      → Option String
      → Option Uuid
      → ℤ
      → ℤ
      → List ProcessExecution
      → Response (List ProcessExecution) × List ProcessExecution
  unfolding list_checked
  list_all sec credentials users status definition_id limit offset rows =
      guarded (guard sec workflow_read credentials users)
        (λ current s. (list_checked current s status definition_id limit offset, s)) rows

  -- `get_execution`
  unfoldable pub get_execution : Uuid → Uuid → List ProcessExecution → Option ProcessExecution
  unfolding is_visible
  get_execution current_tenant id [] = none
  get_execution current_tenant id (x ∷ xs) =
      if (x.id == id) && is_visible current_tenant x
      then some x
      else get_execution current_tenant id xs

  unfoldable pub answer_found : Option ProcessExecution → Response ProcessExecution
  answer_found none = http_error 404
  answer_found (some x) = ok x

  -- `GET /executions/{execution_id}`
  unfoldable pub get_one :
      Security
      → Option String
      → List User
      → Uuid
      → List ProcessExecution
      → Response ProcessExecution × List ProcessExecution
  unfolding get_execution answer_found
  get_one sec credentials users id rows =
      guarded (guard sec workflow_read credentials users)
        (λ current s. (answer_found (get_execution current.tenant_id id s), s)) rows

  -- `POST /executions`
  unfoldable pub answer_started :
      Option ProcessExecution × Store → Response ProcessExecution × Store
  unfolding answer_found
  answer_started (x, s) = (answer_found x, s)

  unfoldable pub post_execution :
      Fresh
      → Security
      → Option String
      → List User
      → ExecutionCreate
      → Store
      → Response ProcessExecution × Store
  unfolding answer_started create_execution
  post_execution fr sec credentials users body s =
      guarded (guard sec workflow_trigger credentials users)
        (λ current s'.
          answer_started (create_execution fr body current.tenant_id (some current.id) "manual" s'))
        s
