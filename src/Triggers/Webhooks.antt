-- ===== src/Triggers/Webhooks.antt =====
-- services/platform-api/src/webhooks/{models,service,router}.py: the webhooks of a tenant, and the
-- public endpoint that starts their workflows.
pub mod Authentic
pub mod Endpoints
use Prim.Native.String.{◌++◌ as join}
use constructor.Prelude.{
  ℕ, String, Bool, true, false, Option, none, some, Dict, lookup, insert, ◌==◌, if◌then◌else◌,
}
use constructor.Json.{Value, Fields, null, obj, end, field, put}
use constructor.Outcome.{Outcome, return, raise, ◌>>=◌}
use constructor.Workflows.Steps.{Uuid}
use constructor.Executions.Events.{ProcessExecution}
use constructor.Access.Users.{Response, http_error, crash}
use constructor.Triggers.Digest.{compare_digest}
use constructor.Triggers.Create.{Fresh, Store, create_execution, answer, set_tenant}

pub record WebhookConfig : Type 0 where
  pub id : Uuid
  pub tenant_id : Uuid
  pub workflow_id : Uuid
  pub name : String
  pub secret : String
  pub payload_mapping : Fields
  pub is_active : Bool
  pub created_at : ℕ

pub record WebhookConfigCreate : Type 0 where
  pub workflow_id : Uuid
  pub name : String
  pub payload_mapping : Fields

-- HMAC-SHA256 in hexadecimal digits, of a secret and a body; `json.loads`; `jmespath.search`, with an
-- expression and a body; and `secrets.token_hex`.
pub record Codecs : Type 0 where
  pub hexdigest : String → String → String
  pub loads : String → Outcome Value
  pub search : Value → Value → Outcome Value
  pub token_hex : ℕ → String

module _ (co : Codecs) where
  unfoldable pub verify_signature : String → String → String → Outcome Bool
  unfolding compare_digest
  verify_signature secret body signature =
      compare_digest (join "sha256=" (co.hexdigest secret body)) signature

  -- `if value is not None: context[key] = value`
  put_found : String → Value → Fields → Fields
  put_found key null context = context
  put_found key v context = put key v context

  -- The loop over the mapping, with the context so far.
  unfoldable pub map_payload : Value → Fields → Fields → Outcome Fields
  unfolding put_found
  map_payload body end context = return context
  map_payload body (field key expression mapping) context =
      co.search expression body >>= λ v. map_payload body mapping (put_found key v context)

  unfoldable pub apply_payload_mapping : Value → Fields → Outcome Fields
  unfolding map_payload
  apply_payload_mapping body mapping = map_payload body mapping end

  -- The context of the new execution: `json.loads(body_bytes) if body_bytes else {}`, mapped.
  unfoldable pub context_of : String → Fields → Outcome Fields
  unfolding apply_payload_mapping
  context_of body mapping = (if body == "" then return (obj end) else co.loads body) >>= λ v.
      apply_payload_mapping v mapping

  unfoldable pub create_webhook :
      Uuid
      → ℕ
      → ℕ
      → WebhookConfigCreate
      → Uuid
      → Dict WebhookConfig
      → (WebhookConfig × String) × Dict WebhookConfig
  create_webhook id n now body tenant_id ws =
      let secret = co.token_hex n in
      let webhook : WebhookConfig = record {
        id = id;
        tenant_id = tenant_id;
        workflow_id = body.workflow_id;
        name = body.name;
        secret = secret;
        payload_mapping = body.payload_mapping;
        is_active = true;
        created_at = now;
      } in
      ((webhook, secret), insert id webhook ws)

  -- The webhook with the id, if it is the tenant's.
  unfoldable pub find_webhook : Uuid → Uuid → Dict WebhookConfig → Option WebhookConfig
  find_webhook id tenant_id ws = elim (lookup id ws) [
    | none ↦ none
    | some w ↦ if w.tenant_id == tenant_id then some w else none
  ]

  unfoldable pub deactivate_webhook : Uuid → Uuid → Dict WebhookConfig → Bool × Dict WebhookConfig
  unfolding find_webhook
  deactivate_webhook id tenant_id ws = elim (find_webhook id tenant_id ws) [
    | none ↦ (false, ws)
    | some w ↦ (true, insert id (record w { is_active = false }) ws)
  ]

  unfoldable pub rotate_secret :
      ℕ → Uuid → Uuid → Dict WebhookConfig → Option (WebhookConfig × String) × Dict WebhookConfig
  unfolding find_webhook
  rotate_secret n id tenant_id ws = elim (find_webhook id tenant_id ws) [
    | none ↦ (none, ws)
    | some w ↦
        let rotated = record w { secret = co.token_hex n } in
        (some (rotated, co.token_hex n), insert id rotated ws)
  ]

  module _ (fr : Fresh) where
    -- The part of `trigger` after the tests.
    unfoldable pub start_workflow :
        WebhookConfig → Outcome Fields → Store → Response ProcessExecution × Store
    unfolding answer create_execution
    start_workflow w (raise e) s = (crash e, s)
    start_workflow w (return context) s = answer fr (
        create_execution fr (record { process_definition_id = w.workflow_id; context = context })
          w.tenant_id none "webhook" (set_tenant fr w.tenant_id s))

    -- The part after the test on the signature.
    unfoldable pub after_test :
        WebhookConfig → String → Outcome Bool → Store → Response ProcessExecution × Store
    unfolding context_of start_workflow
    after_test w body (raise e) s = (crash e, s)
    after_test w body (return true) s = start_workflow w (context_of body w.payload_mapping) s
    after_test w body (return false) s = (http_error 401, s)

    -- The part after `get_webhook`.
    unfoldable pub trigger_found :
        Option WebhookConfig → String → String → Store → Response ProcessExecution × Store
    unfolding verify_signature after_test
    trigger_found none body signature s = (http_error 404, s)
    trigger_found (some w) body signature s =
        if w.is_active
        then after_test w body (verify_signature w.secret body signature) s
        else (http_error 404, s)

    -- `trigger`, with the text of the header, which is empty if it is missing.
    unfoldable pub trigger :
        Uuid → String → String → Dict WebhookConfig → Store → Response ProcessExecution × Store
    unfolding trigger_found
    trigger id body signature ws s = trigger_found (lookup id ws) body signature s
