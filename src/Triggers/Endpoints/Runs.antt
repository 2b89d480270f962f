-- ===== src/Triggers/Endpoints/Runs.antt =====
-- A workflow from its creation through the start of an execution to the end of it.
use constructor.Prelude.{
  suc, ℕ, ◌<◌, ◌≡◌, refl, sym, ◌∙◌, ap, String, true, Option, some, List, [], ◌∷◌, ◌++◌, map, Dict,
  lookup, lookup-insert_self, eq_refl, All,
}
use constructor.Json.{Value, Fields}
use constructor.Outcome.{return}
use constructor.Workflows.Steps.{Uuid, ProcessDefinition}
use constructor.Workflows.Definitions.{ProcessDefinitionCreate, dump, is_valid, new_process, create}
use constructor.Workflows.Definitions.Created.{create-valid, create-execute_workflow}
use constructor.Workflows.Endpoints.{post_workflow}
use constructor.Executions.Events.{ProcessExecution}
use constructor.Executions.Session.{World, Handlers, System}
use constructor.Executions.Executor.{execute_workflow, first_step}
use constructor.Executions.Executor.Termination.{Falls}
use constructor.Executions.Executor.Finished.{IsFinished}
use constructor.Access.Permissions.{workflow_create, workflow_trigger}
use constructor.Access.Users.{User, CurrentUser, Response, ok, Security, guard}
use constructor.Triggers.Create.{
  ExecutionCreate, Store, Fresh, Started, find_definition, new_execution, add_execution,
}
use constructor.Triggers.Create.Created.{IsCreated, create_execution-some}
use constructor.Triggers.Endpoints.{Postgres, post_execution, answer_started, answer_found}

module _ (pg : Postgres) (fr : Fresh) (sec : Security) (users : List User) where
  -- The store after a request that creates a workflow.
  abbrev pub with_workflow : Option String → Uuid → ProcessDefinitionCreate → Store → Store
  with_workflow author id body s = record s {
    definitions = (post_workflow sec author users id body s.definitions).1;
  }

  -- What a request that starts the workflow comes to after it.
  abbrev pub create_and_start :
      Option String
      → Option String
      → Uuid
      → ProcessDefinitionCreate
      → Fields
      → Store
      → Response ProcessExecution × Store
  create_and_start author runner id body context s =
      post_execution pg fr sec runner users
        (record { process_definition_id = id; context = context }) (with_workflow author id body s)

  -- The execution was answered with and put in the background, and the executor brings it to an end.
  pub record Ends (w : World) (h : Handlers) (fuel : ℕ) (id : Uuid) (before : List Started)
      (sys : System) (r : Response ProcessExecution × Store) : Type 0 where
    pub execution : ProcessExecution
    pub answered : r.0 ≡ ok execution
    pub started :
        r.1.started
        ≡ before
          ++ record {
            execution_id = execution.id;
            process_id = id;
            tenant_id = execution.tenant_id;
          }
            ∷ []
    pub finally : System
    pub ran : execute_workflow w h fuel execution.id id sys ≡ some (return tt, finally)
    pub finished : IsFinished sys execution finally

  with_workflow-definitions :
      (author : Option String) (id : Uuid) (body : ProcessDefinitionCreate) (s : Store)
      {maker : CurrentUser}
      → guard sec workflow_create author users ≡ ok maker
      → (with_workflow author id body s).definitions
        ≡ (create id body maker.tenant_id maker.id s.definitions).1
  unfolding post_workflow
  with_workflow-definitions author id body s passed = rw passed refl

  find_definition-created :
      (id tenant_id user_id : Uuid) (body : ProcessDefinitionCreate) (ds : Dict ProcessDefinition)
      → is_valid body ≡ true
      → find_definition id tenant_id (create id body tenant_id user_id ds).1
        ≡ some (new_process id body tenant_id user_id)
  unfolding find_definition new_process
  find_definition-created id tenant_id user_id body ds valid =
      let d = new_process id body tenant_id user_id in
      rw (create-valid id body tenant_id user_id ds valid)
        (rw (lookup-insert_self id d ds, find_definition) (rw (eq_refl tenant_id) refl))

  start-created :
      (author runner : Option String) (id : Uuid) (body : ProcessDefinitionCreate)
      (context : Fields) (s : Store) {starter : CurrentUser} {d : ProcessDefinition}
      → guard sec workflow_trigger runner users ≡ ok starter
      → find_definition id starter.tenant_id (with_workflow author id body s).definitions ≡ some d
      → let s₁ = with_workflow author id body s in
        let data_ : ExecutionCreate = record { process_definition_id = id; context = context } in
        let x = new_execution fr data_ starter.tenant_id (some starter.id) "manual" s₁.effects in
        (create_and_start author runner id body context s ≡ (ok x, add_execution fr x d s₁))
        × IsCreated data_ starter.tenant_id
            (some starter.id)
            "manual"
            s₁
            x
            (add_execution fr x d s₁)
  unfolding post_execution answer_started answer_found
  start-created author runner id body context s {starter} passed found =
      let (made, created) =
        create_execution-some fr (record { process_definition_id = id; context = context })
          starter.tenant_id (some starter.id) "manual" (with_workflow author id body s) found in
      (rw passed (ap (answer_started pg) made), created)

  -- A valid workflow that a user has created, and that another user of the tenant, or the same one,
  -- starts afterwards: the answer is an execution, which is put in the background, and the executor
  -- brings it to an end, completed without a current step or failed with its error. Conditions: the
  -- first user may create workflows and the second start them; the executor finds the two tables as
  -- the request left them; a measure falls along every `next` and every outcome of a condition; and
  -- the fuel is more than the measure of the first step by more than one.
  pub create_and_start-Ends :
      (w : World) (h : Handlers) (rank : Value → ℕ) (fuel : ℕ) (author runner : Option String)
      (id : Uuid) (body : ProcessDefinitionCreate) (context : Fields) (s : Store) (sys : System)
      {maker starter : CurrentUser}
      → guard sec workflow_create author users ≡ ok maker
      → guard sec workflow_trigger runner users ≡ ok starter
      → maker.tenant_id ≡ starter.tenant_id
      → is_valid body ≡ true
      → sys.definitions ≡ (create_and_start author runner id body context s).1.definitions
      → sys.executions ≡ (create_and_start author runner id body context s).1.executions
      → All (Falls w h rank) (map dump body.steps)
      → suc (rank (first_step (map dump body.steps))) < fuel
      → Ends w h fuel id s.started sys (create_and_start author runner id body context s)
  unfolding add_execution new_process
  create_and_start-Ends w h rank fuel author runner id body context s sys {maker} {starter} creates
        starts same valid definitions executions falls enough =
      let written = with_workflow-definitions author id body s creates in
      let found : find_definition id starter.tenant_id (with_workflow author id body s).definitions
          ≡ some (new_process id body maker.tenant_id maker.id) =
        ap (find_definition id starter.tenant_id) written
        ∙ (ap (λ t. find_definition id t (create id body maker.tenant_id maker.id s.definitions).1)
              (sym same)
            ∙ find_definition-created id maker.tenant_id maker.id body s.definitions valid) in
      let (answered, created) = start-created author runner id body context s starts found in
      let (finally, ran, finished) =
        create-execute_workflow w h rank fuel id body maker.tenant_id maker.id s.definitions sys _
          valid
          (definitions ∙ (ap (λ r. r.1.definitions) answered ∙ (created.definitions ∙ written)))
          (ap (lookup _) (executions ∙ ap (λ r. r.1.executions) answered) ∙ created.stored) falls
          enough in
      record {
        execution = _;
        answered = ap (λ r. r.0) answered;
        started = ap (λ r. r.1.started) answered;
        finally = finally;
        ran = ran;
        finished = finished;
      }
