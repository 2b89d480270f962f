-- ===== src/Triggers/Webhooks/Endpoints/Rotated.antt =====
-- What a rotation of a secret changes for the requests that come after it.
use constructor.Prelude.{
  arith, ℕ, String, Bool-cases, ◌&&◌, if◌then◌else◌, Option, some, Option-cases, inl, inr, List,
  Dict, lookup, insert, ◌≡◌, refl, sym, ◌∙◌, ap, ◌==◌, eq_iff, lookup-insert, lookup-insert_self,
}
use constructor.Workflows.Steps.{Uuid}
use constructor.Access.Permissions.{workflow_create}
use constructor.Access.Users.{
  User, CurrentUser, Response, ok, http_error, crash, Security, guard, guarded,
}
use constructor.Triggers.Digest.{is_ascii, compare_digest}
use constructor.Triggers.Create.{Fresh, Store}
use constructor.Executions.Events.{ProcessExecution}
use constructor.Outcome.{type_error}
use Prim.Native.String.{◌++◌ as join}
use constructor.Triggers.Webhooks.{
  WebhookConfig, Codecs, verify_signature, after_test, context_of, find_webhook, rotate_secret,
  start_workflow, trigger, trigger_found,
}
use constructor.Triggers.Webhooks.Endpoints.{WebhookConfigPublic, answer_rotated, rotate}
use constructor.Triggers.Webhooks.Authentic.{trigger-at}

module _ (co : Codecs) (fr : Fresh) (sec : Security) (users : List User) where
  abbrev pub digest : WebhookConfig → String → String
  digest w body = join "sha256=" (co.hexdigest w.secret body)

  -- A request to a webhook: 404 if it is not active; a TypeError if the signature is not ASCII; 401 if
  -- it is not that of the secret; and otherwise the start of the workflow.
  abbrev pub checked : WebhookConfig → String → String → Store → Response ProcessExecution × Store
  checked w body signature s =
      if w.is_active
      then (if is_ascii (digest w body) && is_ascii signature
          then (if digest w body == signature
              then start_workflow co fr w (context_of co body w.payload_mapping) s
              else (http_error 401, s))
          else (crash type_error, s))
      else (http_error 404, s)

  -- The webhook is the tenant's and has the shown secret, which from then on decides which requests
  -- start its workflow; the other webhooks work as before.
  pub record IsRotated (credentials : Option String) (id secret : String)
      (ws ws' : Dict WebhookConfig) : Type 0 where
    pub current : CurrentUser
    pub passed : guard sec workflow_create credentials users ≡ ok current
    pub webhook : WebhookConfig
    pub found : lookup id ws ≡ some webhook
    pub same_tenant : webhook.tenant_id ≡ current.tenant_id
    pub stored : lookup id ws' ≡ some (record webhook { secret = secret })
    pub answers :
        (body signature : String) (s : Store)
        → trigger co fr id body signature ws' s
          ≡ checked (record webhook { secret = secret }) body signature s
    pub others :
        (other body signature : String) (s : Store)
        → ¬ (id ≡ other)
        → trigger co fr other body signature ws' s ≡ trigger co fr other body signature ws s

  -- What an answer of the endpoint means.
  abbrev pub Answered :
      ℕ
      → Option String
      → Uuid
      → Dict WebhookConfig
      → Response WebhookConfigPublic × Dict WebhookConfig
      → Type 0
  Answered n credentials id ws (ok public, ws') =
      (public.secret ≡ co.token_hex n) × IsRotated credentials id public.secret ws ws'
  Answered n credentials id ws (http_error code, ws') = ws' ≡ ws
  Answered n credentials id ws (crash e, ws') = ws' ≡ ws

  trigger_found-some :
      (w : WebhookConfig) (body signature : String) (s : Store)
      → trigger_found co fr (some w) body signature s ≡ checked w body signature s
  unfolding trigger_found after_test verify_signature compare_digest
  trigger_found-some w body signature s =
      let ascii = is_ascii (digest w body) && is_ascii signature in
      elim (Bool-cases ascii) [
        | inr other ↦ rw (other, compare_digest) refl
        | inl both ↦ elim (Bool-cases (digest w body == signature)) [
          | inl same ↦ rw (both, compare_digest) (rw same refl)
          | inr differ ↦ rw (both, compare_digest) (rw differ refl)
        ]
      ]

  find_webhook-found :
      (id tenant_id : Uuid) (ws : Dict WebhookConfig) {w : WebhookConfig}
      → find_webhook co id tenant_id ws ≡ some w
      → (lookup id ws ≡ some w) × (w.tenant_id ≡ tenant_id)
  unfolding find_webhook
  find_webhook-found id tenant_id ws {w} h = elim (Option-cases (lookup id ws)) [
    | inl absent ↦ cc (rw (absent, find_webhook) at h)
    | inr (v, there) ↦ elim (Bool-cases (v.tenant_id == tenant_id)) [
      | inr differ ↦ cc (rw differ at (rw (there, find_webhook) at h))
      | inl same ↦
          let is_w : v ≡ w = cc (rw same at (rw (there, find_webhook) at h)) in
          (
            there ∙ ap some is_w,
            ap (λ x. x.tenant_id) (sym is_w) ∙ (eq_iff v.tenant_id tenant_id).0 same,
          )
    ]
  ]

  lookup-other :
      (id other : String) (w : WebhookConfig) (ws : Dict WebhookConfig)
      → ¬ (id ≡ other)
      → lookup other (insert id w ws) ≡ lookup other ws
  lookup-other id other w ws differ = lookup-insert id other w ws ∙ ground (arith, eq_iff id other)

  rotated-Answered :
      (n : ℕ) (credentials : Option String) (id : Uuid) (ws : Dict WebhookConfig)
      (current : CurrentUser)
      → guard sec workflow_create credentials users ≡ ok current
      → Answered n credentials id ws (answer_rotated (rotate_secret co n id current.tenant_id ws))
  unfolding rotate_secret answer_rotated
  rotated-Answered n credentials id ws current passed =
      elim (Option-cases (find_webhook co id current.tenant_id ws)) [
        | inl absent ↦ rw (absent, rotate_secret, answer_rotated) refl
        | inr (w, found) ↦ rw (found, rotate_secret, answer_rotated) (refl, is_rotated w found)
      ]
    where
      is_rotated :
          (w : WebhookConfig)
          → find_webhook co id current.tenant_id ws ≡ some w
          → IsRotated credentials id
              (co.token_hex n)
              ws
              (insert id (record w { secret = co.token_hex n }) ws)
      is_rotated w found =
          let rotated : WebhookConfig = record w { secret = co.token_hex n } in
          let stored = lookup-insert_self id rotated ws in
          let (there, same) = find_webhook-found id current.tenant_id ws found in
          record {
            current = current;
            passed = passed;
            webhook = w;
            found = there;
            same_tenant = same;
            stored = stored;
            answers = λ body signature s.
                trigger-at co fr id body signature _ s stored
                ∙ trigger_found-some rotated body signature s;
            others = λ other body signature s differ.
                trigger-at co fr other body signature _ s (lookup-other id other rotated ws differ)
                ∙ sym (trigger-at co fr other body signature ws s refl);
          }

  -- A rotation that is answered with a secret was asked for by a user with the permission to create
  -- workflows, for a webhook of the tenant of that user. The secret is the new one, and from then on
  -- it decides on the requests to the webhook, if that is active: a signature that is not ASCII ends in
  -- a TypeError, one that is not made with the secret is refused, and one that is goes on to the start
  -- of the workflow; while the other webhooks work as before. Any other answer leaves all webhooks as
  -- they were.
  pub rotate-Answered :
      (n : ℕ) (credentials : Option String) (id : Uuid) (ws : Dict WebhookConfig)
      → Answered n credentials id ws (rotate co sec n credentials users id ws)
  unfolding rotate
  rotate-Answered n credentials id ws = go (guard sec workflow_create credentials users) refl
    where
      go :
          (g : Response CurrentUser)
          → guard sec workflow_create credentials users ≡ g
          → Answered n credentials id ws (
              guarded g
                (λ current ws. answer_rotated (rotate_secret co n id current.tenant_id ws))
                ws)
      go (ok current) passed = rotated-Answered n credentials id ws current passed
      go (http_error code) passed = refl
      go (crash e) passed = refl
