-- ===== src/Access/Sessions/Leftover.antt =====
-- What tenant the queries of a connection see, request after request.
use mathlib.Core.List.{append_assoc, append-nil}
use constructor.Prelude.{
  String, Bool, true, false, List, [], ◌∷◌, ◌++◌, ◌≡◌, refl, sym, ◌∙◌, ap, if◌then◌else◌,
}
use constructor.Access.Sessions.{
  Connection, Statement, query, commit, set_config, execute, execute_all, rollback, run_endpoint,
  run_workflow, roll_back_raised, get_db, get_scoped_db, Request, scoped, plain, triggered,
  background, handle, handle_all,
}

abbrev pub commits : List Statement → Bool
commits [] = false
commits (query ∷ ss) = commits ss
commits (commit ∷ ss) = true

-- One text for each query.
abbrev pub views : List Statement → String → List String
views [] tenant = []
views (query ∷ ss) tenant = tenant ∷ views ss tenant
views (commit ∷ ss) tenant = views ss tenant

-- The tenant that a request leaves to the next one: its own, if it has one and commits.
abbrev pub left_by : Request → String → String
left_by (scoped clears tenant_id e) before = if commits e.statements then tenant_id else before
left_by (plain e) before = before
left_by (triggered tenant_id e) before = if commits e.statements then tenant_id else before
left_by (background tenant_id e) before = if commits e.statements then tenant_id else before

-- What the queries of a request see.
abbrev pub seen_by : Request → String → List String
seen_by (scoped clears tenant_id e) before = before ∷ views e.statements tenant_id
seen_by (plain e) before = views e.statements before
seen_by (triggered tenant_id e) before = before ∷ views e.statements tenant_id
seen_by (background tenant_id e) before = views e.statements tenant_id

abbrev pub left_by_all : List Request → String → String
left_by_all [] before = before
left_by_all (r ∷ rs) before = left_by_all rs (left_by r before)

abbrev pub seen_by_all : List Request → String → List String
seen_by_all [] before = []
seen_by_all (r ∷ rs) before = seen_by r before ++ seen_by_all rs (left_by r before)

-- A connection between two requests.
abbrev pub idle : String → List String → Connection
idle tenant seen = record { stored = tenant; setting = tenant; seen = seen }

if-same : (b : Bool) (tenant : String) → (if b then tenant else tenant) ≡ tenant
if-same true tenant = refl
if-same false tenant = refl

execute_all-eq :
    (ss : List Statement) (stored setting : String) (seen : List String)
    → execute_all ss (record { stored = stored; setting = setting; seen = seen }) ≡ record {
      stored = if commits ss then setting else stored;
      setting = setting;
      seen = seen ++ views ss setting;
    }
unfolding execute_all execute
execute_all-eq [] stored setting seen =
    ap (λ l. record { stored = stored; setting = setting; seen = l }) (sym (append-nil seen))
execute_all-eq (query ∷ ss) stored setting seen =
    execute_all-eq ss stored setting (seen ++ setting ∷ [])
    ∙ ap
        (λ l. record {
          stored = if commits ss then setting else stored;
          setting = setting;
          seen = l;
        })
        (append_assoc seen (setting ∷ []) (views ss setting))
execute_all-eq (commit ∷ ss) stored setting seen =
    execute_all-eq ss setting setting seen
    ∙ ap (λ t. record { stored = t; setting = setting; seen = seen ++ views ss setting })
        (if-same (commits ss) setting)

-- A rollback undoes a rollback or a setting before it.
rollback-rollback :
    (b : Bool) (c : Connection) → rollback (if b then rollback c else c) ≡ rollback c
rollback-rollback true c = refl
rollback-rollback false c = refl

rollback-set_config :
    (b : Bool) (c : Connection) → rollback (if b then set_config "" c else c) ≡ rollback c
rollback-set_config true c = refl
rollback-set_config false c = refl

-- The statements of a request, in a tenant, on a connection that another one was left on.
ends :
    (ss : List Statement) (stored setting : String) (seen : List String)
    → rollback (execute_all ss (record { stored = stored; setting = setting; seen = seen }))
      ≡ idle (if commits ss then setting else stored) (seen ++ views ss setting)
ends ss stored setting seen = ap rollback (execute_all-eq ss stored setting seen)

after_query :
    (ss : List Statement) (tenant_id tenant : String) (seen : List String)
    → rollback (
        execute_all ss
          (record { stored = tenant; setting = tenant_id; seen = seen ++ tenant ∷ [] }))
      ≡ idle (if commits ss then tenant_id else tenant) (seen ++ tenant ∷ views ss tenant_id)
after_query ss tenant_id tenant seen =
    ends ss tenant tenant_id (seen ++ tenant ∷ [])
    ∙ ap (idle (if commits ss then tenant_id else tenant))
        (append_assoc seen (tenant ∷ []) (views ss tenant_id))

handle-eq :
    (r : Request) (tenant : String) (seen : List String)
    → handle r (idle tenant seen) ≡ idle (left_by r tenant) (seen ++ seen_by r tenant)
unfolding handle run_workflow get_db get_scoped_db run_endpoint roll_back_raised execute
handle-eq (scoped clears tenant_id e) tenant seen =
    rollback-rollback e.raises _
    ∙ (rollback-set_config clears _
        ∙ (rollback-rollback e.raises _ ∙ after_query e.statements tenant_id tenant seen))
handle-eq (plain e) tenant seen =
    rollback-rollback e.raises _
    ∙ (ends e.statements tenant tenant seen
        ∙ ap (λ t. idle t (seen ++ views e.statements tenant))
            (if-same (commits e.statements) tenant))
handle-eq (triggered tenant_id e) tenant seen =
    rollback-rollback e.raises _ ∙ after_query e.statements tenant_id tenant seen
handle-eq (background tenant_id e) tenant seen = ends e.statements tenant tenant_id seen

-- The queries of an endpoint in the scope of its user see the tenant of that user, and those of a
-- triggered or background run the tenant that it sets, whatever ran before on the connection. All
-- other queries, the one for the user of a request included, see the tenant of the last request that
-- committed, and so does the next request: that a request clears the setting at its end, or fails
-- to, changes nothing.
pub handle_all-left_by_all :
    (rs : List Request) (tenant : String) (seen : List String)
    → handle_all rs (idle tenant seen)
      ≡ idle (left_by_all rs tenant) (seen ++ seen_by_all rs tenant)
unfolding handle_all
handle_all-left_by_all [] tenant seen = ap (idle tenant) (sym (append-nil seen))
handle_all-left_by_all (r ∷ rs) tenant seen =
    ap (handle_all rs) (handle-eq r tenant seen)
    ∙ (handle_all-left_by_all rs (left_by r tenant) (seen ++ seen_by r tenant)
        ∙ ap (idle (left_by_all rs (left_by r tenant)))
            (append_assoc seen (seen_by r tenant) (seen_by_all rs (left_by r tenant))))
