-- ===== src/Triggers/Webhooks/Authentic.antt =====
-- Which requests start the workflow of a webhook.
use Prim.Native.String.{◌++◌ as join}
use constructor.Prelude.{
  String, ◌≡◌, refl, sym, ◌∙◌, ap, subst, true, false, Option, none, some, Dict, lookup,
  lookup-insert_self, inl, inr, Bool-cases, Option-cases,
}
use constructor.Json.{Fields}
use constructor.Outcome.{Outcome, return, raise, attribute_error, Outcome-cases}
use constructor.Triggers.Digest.{compare_digest-same}
use constructor.Workflows.Steps.{Uuid}
use constructor.Executions.Events.{ProcessExecution}
use constructor.Access.Users.{ok, http_error, crash}
use constructor.Triggers.Create.{ExecutionCreate, Store, Fresh, find_definition, set_tenant, answer}
use constructor.Triggers.Create.Created.{IsCreated, create_execution-some, create_execution-none}
use constructor.Triggers.Webhooks.{
  WebhookConfig, Codecs, verify_signature, context_of, find_webhook, deactivate_webhook,
  start_workflow, after_test, trigger_found, trigger,
}

module _ (co : Codecs) (fr : Fresh) where
  abbrev pub request_of : WebhookConfig → Fields → ExecutionCreate
  request_of w context = record { process_definition_id = w.workflow_id; context = context }

  -- The request is signed with the secret of an active webhook, and has started its workflow for its
  -- tenant, with the context that the mapping makes of the body.
  pub record IsAuthentic (id : Uuid) (body signature : String) (ws : Dict WebhookConfig) (s : Store)
      (x : ProcessExecution) (s' : Store) : Type 0 where
    pub webhook : WebhookConfig
    pub found : lookup id ws ≡ some webhook
    pub active : webhook.is_active ≡ true
    pub signed : join "sha256=" (co.hexdigest webhook.secret body) ≡ signature
    pub mapped : Fields
    pub context : context_of co body webhook.payload_mapping ≡ return mapped
    pub created :
        IsCreated
          (request_of webhook mapped)
          webhook.tenant_id
          none
          "webhook"
          (set_tenant fr webhook.tenant_id s)
          x
          s'

  start_workflow-ok :
      (w : WebhookConfig) (c : Outcome Fields) (s : Store) {x : ProcessExecution} {s' : Store}
      → start_workflow co fr w c s ≡ (ok x, s')
      → (context : Fields) × (c ≡ return context)
        × IsCreated
            (request_of w context)
            w.tenant_id
            none
            "webhook"
            (set_tenant fr w.tenant_id s)
            x
            s'
  unfolding start_workflow answer
  start_workflow-ok w (raise e) s h = cc (ap (λ r. r.0) h)
  start_workflow-ok w (return context) s {x} {s'} h =
      let s₁ = set_tenant fr w.tenant_id s in
      elim (Option-cases (find_definition w.workflow_id w.tenant_id s₁.definitions)) [
        | inl absent ↦
            let nothing =
              create_execution-none fr (request_of w context) w.tenant_id none "webhook" s₁
                absent in
            cc (sym (ap (λ r. (answer fr r).0) nothing) ∙ ap (λ r. r.0) h)
        | inr (d, found) ↦
            let (made, created) =
              create_execution-some fr (request_of w context) w.tenant_id none "webhook" s₁ found in
            let same = sym (ap (answer fr) made) ∙ h in
            (
              context,
              refl,
              subst (λ y. IsCreated (request_of w context) w.tenant_id none "webhook" s₁ y s')
                  (ok_injective (ap (λ r. r.0) same))
                  (subst (IsCreated (request_of w context) w.tenant_id none "webhook" s₁ _)
                    (ap (λ r. r.1) same) created),
            )
      ]
    where
      ok_injective : {a b : ProcessExecution} → ok a ≡ ok b → a ≡ b
      ok_injective e = cc

  pub trigger-at :
      (id : Uuid) (body signature : String) (ws : Dict WebhookConfig) (s : Store)
      {o : Option WebhookConfig}
      → lookup id ws ≡ o
      → trigger co fr id body signature ws s ≡ trigger_found co fr o body signature s
  unfolding trigger
  trigger-at id body signature ws s found = ap (λ o. trigger_found co fr o body signature s) found

  missing-refused :
      (body signature : String) (s : Store) {x : ProcessExecution} {s' : Store}
      → ¬ (trigger_found co fr none body signature s ≡ (ok x, s'))
  unfolding trigger_found
  missing-refused body signature s h = cc (ap (λ r. r.0) h)

  inactive-refused :
      (w : WebhookConfig) (body signature : String) (s : Store)
      → trigger_found co fr (some (record w { is_active = false })) body signature s
        ≡ (http_error 404, s)
  unfolding trigger_found
  inactive-refused w body signature s = refl

  signed-starts :
      (w : WebhookConfig) (body signature : String) (s : Store)
      → w.is_active ≡ true
      → verify_signature co w.secret body signature ≡ return true
      → trigger_found co fr (some w) body signature s
        ≡ start_workflow co fr w (context_of co body w.payload_mapping) s
  unfolding trigger_found after_test
  signed-starts w body signature s active signed =
      rw active (ap (λ o. after_test co fr w body o s) signed)

  foreign-crashes :
      (w : WebhookConfig) (context : Fields) (s : Store)
      → find_definition w.workflow_id w.tenant_id s.definitions ≡ none
      → start_workflow co fr w (return context) s
        ≡ (crash attribute_error, set_tenant fr w.tenant_id s)
  unfolding start_workflow answer
  foreign-crashes w context s foreign = ap (answer fr) (
      create_execution-none fr (request_of w context) w.tenant_id none "webhook"
        (set_tenant fr w.tenant_id s) foreign)

  trigger_found-ok :
      (w : WebhookConfig) (body signature : String) (s : Store) {x : ProcessExecution} {s' : Store}
      → trigger_found co fr (some w) body signature s ≡ (ok x, s')
      → (w.is_active ≡ true)
        × (join "sha256=" (co.hexdigest w.secret body) ≡ signature)
        × (start_workflow co fr w (context_of co body w.payload_mapping) s ≡ (ok x, s'))
  unfolding trigger_found after_test verify_signature
  trigger_found-ok w body signature s h = elim (Bool-cases w.is_active) [
    | inr inactive ↦ cc (ap (λ r. r.0) (rw inactive at h))
    | inl active ↦ elim (Outcome-cases (verify_signature co w.secret body signature)) [
      | inr (e, raised) ↦ cc (ap (λ r. r.0) (rw (raised, after_test) at (rw active at h)))
      | inl (false, wrong) ↦ cc (ap (λ r. r.0) (rw (wrong, after_test) at (rw active at h)))
      | inl (true, signed) ↦ (
        active,
        compare_digest-same (join "sha256=" (co.hexdigest w.secret body)) signature signed,
        sym (signed-starts w body signature s active signed) ∙ h,
      )
    ]
  ]

  -- A trigger that is answered with an execution comes from who knows the secret of an active
  -- webhook, and has started the workflow of that webhook for its tenant, with the mapped body.
  pub trigger-IsAuthentic :
      (id : Uuid) (body signature : String) (ws : Dict WebhookConfig) (s : Store)
      {x : ProcessExecution} {s' : Store}
      → trigger co fr id body signature ws s ≡ (ok x, s')
      → IsAuthentic id body signature ws s x s'
  trigger-IsAuthentic id body signature ws s {x} {s'} h =
      go (lookup id ws) refl (sym (trigger-at id body signature ws s refl) ∙ h)
    where
      go :
          (o : Option WebhookConfig)
          → lookup id ws ≡ o
          → trigger_found co fr o body signature s ≡ (ok x, s')
          → IsAuthentic id body signature ws s x s'
      go none found h = absurd (missing-refused body signature s h)
      go (some w) found h =
          let (active, same, started) = trigger_found-ok w body signature s h in
          let (mapped, context, created) =
            start_workflow-ok w (context_of co body w.payload_mapping) s started in
          record {
            webhook = w;
            found = found;
            active = active;
            signed = same;
            mapped = mapped;
            context = context;
            created = created;
          }

  -- Once a tenant has deactivated a webhook, no request starts its workflow, whatever its signature:
  -- the answer is 404, and the store stays as it is.
  pub deactivate_webhook-trigger :
      (id tenant_id : Uuid) (ws : Dict WebhookConfig) (body signature : String) (s : Store)
      → (deactivate_webhook co id tenant_id ws).0 ≡ true
      → trigger co fr id body signature (deactivate_webhook co id tenant_id ws).1 s
        ≡ (http_error 404, s)
  unfolding deactivate_webhook
  deactivate_webhook-trigger id tenant_id ws body signature s h =
      elim (Option-cases (find_webhook co id tenant_id ws)) [
        | inl absent ↦ cc (rw (absent, deactivate_webhook) at h)
        | inr (w, found) ↦
            rw (found, deactivate_webhook)
              (trigger-at id body signature _ s
                  (lookup-insert_self id (record w { is_active = false }) ws)
                ∙ inactive-refused w body signature s)
      ]

  -- A webhook whose workflow is not a definition of its tenant fails with an exception at each
  -- well-signed request whose body can be mapped, and starts nothing.
  pub trigger-crashes :
      (id : Uuid) (body signature : String) (ws : Dict WebhookConfig) (s : Store)
      {w : WebhookConfig} {context : Fields}
      → lookup id ws ≡ some w
      → w.is_active ≡ true
      → verify_signature co w.secret body signature ≡ return true
      → context_of co body w.payload_mapping ≡ return context
      → find_definition w.workflow_id w.tenant_id s.definitions ≡ none
      → trigger co fr id body signature ws s ≡ (crash attribute_error, set_tenant fr w.tenant_id s)
  trigger-crashes id body signature ws s {w} {context} found active signed mapped foreign =
      trigger-at id body signature ws s found
      ∙ (signed-starts w body signature s active signed
          ∙ (ap (λ c. start_workflow co fr w c s) mapped ∙ foreign-crashes w context s foreign))
