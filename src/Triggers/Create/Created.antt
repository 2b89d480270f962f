-- ===== src/Triggers/Create/Created.antt =====
-- What the start of an execution leaves in the store.
use constructor.Prelude.{
  String, ◌≡◌, ◌≢◌, refl, sym, ◌∙◌, ap, subst, true, false, ◌&&◌, ◌==◌, Option, none, some, [], ◌∷◌,
  ◌++◌, Dict, lookup, insert, lookup-insert, lookup-insert_self, eq_iff, eq_refl, ◌⊎◌, inl, inr,
  Bool-cases, Option-cases, arith,
}
use constructor.Workflows.Steps.{Uuid, ProcessDefinition}
use constructor.Executions.Events.{ProcessExecution, pending}
use constructor.Outcome.{return, raise, Exception, type_error, Outcome-cases}
use constructor.Access.Users.{Response, ok, http_error, crash}
use constructor.Triggers.Digest.{
  is_ascii, compare_digest, compare_digest-same, compare_digest-differs,
}
use constructor.Triggers.Create.{
  ExecutionCreate, Store, Fresh, find_definition, new_execution, add_execution, create_execution,
  set_tenant, answer, is_trusted, after_test, trigger_workflow, internal_trigger,
}

-- A pending execution of a definition of the tenant is stored, under its id, and its workflow is
-- started; the other executions and the definitions stay.
pub record IsCreated (body : ExecutionCreate) (tenant_id : Uuid) (by : Option Uuid) (type : String)
    (s : Store) (x : ProcessExecution) (s' : Store) : Type 0 where
  pub definition : ProcessDefinition
  pub found : find_definition body.process_definition_id tenant_id s.definitions ≡ some definition
  pub tenant : x.tenant_id ≡ tenant_id
  pub process : x.process_definition_id ≡ body.process_definition_id
  pub status : x.status ≡ pending
  pub context : x.context ≡ body.context
  pub triggered : (x.triggered_by ≡ by) × (x.trigger_type ≡ type)
  pub stored : lookup x.id s'.executions ≡ some x
  pub others : (j : Uuid) → j ≢ x.id → lookup j s'.executions ≡ lookup j s.executions
  pub definitions : s'.definitions ≡ s.definitions
  pub started :
      s'.started
      ≡ s.started
        ++ record { execution_id = x.id; process_id = definition.id; tenant_id = tenant_id } ∷ []

module _ (fr : Fresh) where
  lookup-other :
      (x : ProcessExecution) (j : Uuid) (rows : Dict ProcessExecution)
      → j ≢ x.id
      → lookup j (insert x.id x rows) ≡ lookup j rows
  lookup-other x j rows other =
      lookup-insert x.id j x rows ∙ ground (arith, eq_iff x.id j, λ (e : x.id ≡ j). other (sym e))

  pub create_execution-some :
      (body : ExecutionCreate) (tenant_id : Uuid) (by : Option Uuid) (type : String) (s : Store)
      {d : ProcessDefinition}
      → find_definition body.process_definition_id tenant_id s.definitions ≡ some d
      → let x = new_execution fr body tenant_id by type s.effects in
        (create_execution fr body tenant_id by type s ≡ (some x, add_execution fr x d s))
        × IsCreated body tenant_id by type s x (add_execution fr x d s)
  unfolding create_execution new_execution add_execution
  create_execution-some body tenant_id by type s {d} found =
      let x = new_execution fr body tenant_id by type s.effects in
      (
        rw (found, create_execution) refl,
        record {
          definition = d;
          found = found;
          tenant = refl;
          process = refl;
          status = refl;
          context = refl;
          triggered = (refl, refl);
          stored = lookup-insert_self x.id x s.executions;
          others = λ j other. lookup-other x j s.executions other;
          definitions = refl;
          started = refl;
        },
      )

  pub create_execution-none :
      (body : ExecutionCreate) (tenant_id : Uuid) (by : Option Uuid) (type : String) (s : Store)
      → find_definition body.process_definition_id tenant_id s.definitions ≡ none
      → create_execution fr body tenant_id by type s ≡ (none, s)
  unfolding create_execution
  create_execution-none body tenant_id by type s absent = rw (absent, create_execution) refl

  find_definition-own :
      (id : Uuid) (definitions : Dict ProcessDefinition) {d : ProcessDefinition}
      → lookup id definitions ≡ some d
      → find_definition id d.tenant_id definitions ≡ some d
  unfolding find_definition
  find_definition-own id definitions {d} found =
      rw (found, find_definition) (rw (eq_refl d.tenant_id) refl)

  -- The header is the secret of the settings, and that is not empty.
  abbrev pub IsRight : String → Option String → Type 0
  IsRight secret header = (header ≡ some secret) × (secret ≢ "")

  is_trusted-IsRight :
      (secret : String) (header : Option String)
      → is_trusted fr secret header ≡ return true
      → IsRight secret header
  unfolding is_trusted
  is_trusted-IsRight secret none h = cc
  is_trusted-IsRight secret (some text) h = elim (Bool-cases (text == "")) [
    | inl missing ↦ cc (rw missing at h)
    | inr given ↦
        let same = compare_digest-same text secret (rw given at h) in
        (ap some same, λ empty. cc ((eq_iff text "").1 (same ∙ empty), given))
  ]

  is_trusted-not_IsRight :
      (secret : String) (header : Option String)
      → is_trusted fr secret header ≡ return false
      → ¬ IsRight secret header
  unfolding is_trusted
  is_trusted-not_IsRight secret none h (given, full) = cc
  is_trusted-not_IsRight secret (some text) h (given, full) =
      let same : text ≡ secret = cc in
      elim (Bool-cases (text == "")) [
        | inl missing ↦ absurd (full (sym same ∙ (eq_iff text "").0 missing))
        | inr present ↦ absurd (compare_digest-differs text secret (rw present at h) same)
      ]

  internal_trigger-wrong :
      (secret : String) (header : Option String) (body : ExecutionCreate) (s : Store)
      → is_trusted fr secret header ≡ return false
      → internal_trigger fr secret header body s ≡ (http_error 401, s)
  unfolding internal_trigger after_test
  internal_trigger-wrong secret header body s wrong = ap (λ o. after_test fr body o s) wrong

  internal_trigger-raises :
      (secret : String) (header : Option String) (body : ExecutionCreate) (s : Store)
      {e : Exception}
      → is_trusted fr secret header ≡ raise e
      → ((text : String) × (header ≡ some text) × ((is_ascii text && is_ascii secret) ≡ false))
        × (internal_trigger fr secret header body s ≡ (crash type_error, s))
  unfolding internal_trigger after_test is_trusted compare_digest
  internal_trigger-raises secret none body s h = cc
  internal_trigger-raises secret (some text) body s h = elim (Bool-cases (text == "")) [
    | inl missing ↦ cc (rw missing at h)
    | inr given ↦ elim (Bool-cases (is_ascii text && is_ascii secret)) [
      | inl ascii ↦ cc (rw (ascii, compare_digest) at (rw given at h))
      | inr other ↦ ((text, refl, other), rw given (rw (other, compare_digest) refl))
    ]
  ]

  internal_trigger-trusted :
      (secret : String) (header : Option String) (body : ExecutionCreate) (s : Store)
      → is_trusted fr secret header ≡ return true
      → internal_trigger fr secret header body s ≡ trigger_workflow fr body s
  unfolding internal_trigger after_test
  internal_trigger-trusted secret header body s trusted = ap (λ o. after_test fr body o s) trusted

  trigger_workflow-absent :
      (body : ExecutionCreate) (s : Store)
      → lookup body.process_definition_id s.definitions ≡ none
      → trigger_workflow fr body s ≡ (http_error 404, s)
  unfolding trigger_workflow
  trigger_workflow-absent body s absent = rw (absent, trigger_workflow) refl

  trigger_workflow-found :
      (body : ExecutionCreate) (s : Store) {d : ProcessDefinition} {x : ProcessExecution}
      {s' : Store}
      → lookup body.process_definition_id s.definitions ≡ some d
      → create_execution fr body d.tenant_id none "schedule" (set_tenant fr d.tenant_id s)
        ≡ (some x, s')
      → trigger_workflow fr body s ≡ (ok x, s')
  unfolding trigger_workflow answer
  trigger_workflow-found body s found made = rw (found, trigger_workflow) (ap (answer fr) made)

  -- What the internal endpoint answers.
  abbrev pub InternalAnswer :
      String → Option String → ExecutionCreate → Store → Response ProcessExecution × Store → Type 0
  InternalAnswer secret header body s r =
      ((¬ IsRight secret header) × (r ≡ (http_error 401, s)))
      ⊎ (((text : String) × (header ≡ some text)
            × ((is_ascii text && is_ascii secret) ≡ false)
            × (r ≡ (crash type_error, s)))
          ⊎ ((IsRight secret header
                × (lookup body.process_definition_id s.definitions ≡ none)
                × (r ≡ (http_error 404, s)))
              ⊎ ((d : ProcessDefinition) × (x : ProcessExecution) × IsRight secret header
                  × (lookup body.process_definition_id s.definitions ≡ some d)
                  × (r.0 ≡ ok x)
                  × IsCreated body d.tenant_id none "schedule" (set_tenant fr d.tenant_id s) x
                      r.1)))

  -- The internal endpoint answers 401 if the header is not the secret of the settings, or the
  -- secret is empty; or, with the right header, answers 404 for an unknown workflow, in both
  -- cases with the store as it was; or, with the right header, it starts an execution for the
  -- tenant of the workflow; or it fails with a TypeError, with the store as it was, which it
  -- does only if a header is given and the header or the secret is not ASCII.
  pub internal_trigger-answers :
      (secret : String) (header : Option String) (body : ExecutionCreate) (s : Store)
      → InternalAnswer secret header body s (internal_trigger fr secret header body s)
  internal_trigger-answers secret header body s =
      elim (Outcome-cases (is_trusted fr secret header)) [
        | inr (e, raised) ↦
            let ((text, given, other), failed) =
              internal_trigger-raises secret header body s raised in
            inr (inl (text, given, other, failed))
        | inl (false, wrong) ↦ inl (
          is_trusted-not_IsRight secret header wrong,
          internal_trigger-wrong secret header body s wrong,
        )
        | inl (true, trusted) ↦
            let start = internal_trigger-trusted secret header body s trusted in
            let right = is_trusted-IsRight secret header trusted in
            inr (
              inr (elim (Option-cases (lookup body.process_definition_id s.definitions)) [
                | inl absent ↦ inl (right, absent, start ∙ trigger_workflow-absent body s absent)
                | inr (d, found) ↦
                    let own = find_definition-own body.process_definition_id s.definitions found in
                    let (made, created) =
                      create_execution-some body d.tenant_id none "schedule"
                        (set_tenant fr d.tenant_id s) own in
                    let answered = start ∙ trigger_workflow-found body s found made in
                    inr (
                      d,
                      _,
                      right,
                      found,
                      ap (λ r. r.0) answered,
                      subst
                          (IsCreated body d.tenant_id none "schedule" (set_tenant fr d.tenant_id s)
                            _)
                          (sym (ap (λ r. r.1) answered)) created,
                    )
              ]))
      ]
