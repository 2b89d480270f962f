-- ===== src/Triggers/Webhooks/Endpoints.antt =====
-- services/platform-api/src/webhooks/router.py: the endpoints with which a tenant manages its
-- webhooks, and list_webhooks of webhooks/service.py.
pub mod Rotated
use constructor.Prelude.{
  ℕ, String, Bool, Option, none, some, List, [], ◌∷◌, Dict, ◌==◌, if◌then◌else◌,
}
use constructor.Json.{Fields}
use constructor.Workflows.Steps.{Uuid}
use constructor.Access.Permissions.{workflow_create, workflow_read}
use constructor.Access.Users.{User, Response, ok, http_error, Security, guard, guarded}
use constructor.Triggers.Webhooks.{
  WebhookConfig, WebhookConfigCreate, Codecs, create_webhook, deactivate_webhook, rotate_secret,
}

-- What a list shows of a webhook.
pub record WebhookConfigRead : Type 0 where
  pub id : Uuid
  pub tenant_id : Uuid
  pub workflow_id : Uuid
  pub name : String
  pub payload_mapping : Fields
  pub is_active : Bool
  pub created_at : ℕ

-- What the creation and the rotation show: the secret too.
pub record WebhookConfigPublic : Type 0 where
  pub shown : WebhookConfigRead
  pub secret : String

abbrev pub shown_of : WebhookConfig → WebhookConfigRead
shown_of w = record {
  id = w.id;
  tenant_id = w.tenant_id;
  workflow_id = w.workflow_id;
  name = w.name;
  payload_mapping = w.payload_mapping;
  is_active = w.is_active;
  created_at = w.created_at;
}

-- `WebhookConfigPublic.model_validate(webhook)`, and `data.secret = plain_secret`
abbrev pub public_of : WebhookConfig × String → WebhookConfigPublic
public_of (w, plain_secret) = record { shown = shown_of w; secret = plain_secret }

-- The rows of a tenant.
unfoldable pub webhooks_of : Uuid → Dict WebhookConfig → List WebhookConfig
webhooks_of tenant_id [] = []
webhooks_of tenant_id ((id, w) ∷ ws) =
    let rest = webhooks_of tenant_id ws in if w.tenant_id == tenant_id then w ∷ rest else rest

-- `list_webhooks`, with what the database does for `ORDER BY created_at DESC`.
unfoldable pub list_webhooks :
    (List WebhookConfig → List WebhookConfig) → Uuid → Dict WebhookConfig → List WebhookConfig
unfolding webhooks_of
list_webhooks newest_first tenant_id ws = newest_first (webhooks_of tenant_id ws)

unfoldable pub read_all : List WebhookConfig → List WebhookConfigRead
read_all [] = []
read_all (w ∷ ws) = shown_of w ∷ read_all ws

unfoldable pub answer_webhook :
    (WebhookConfig × String) × Dict WebhookConfig
    → Response WebhookConfigPublic × Dict WebhookConfig
answer_webhook (created, ws) = (ok (public_of created), ws)

unfoldable pub answer_rotated :
    Option (WebhookConfig × String) × Dict WebhookConfig
    → Response WebhookConfigPublic × Dict WebhookConfig
answer_rotated (none, ws) = (http_error 404, ws)
answer_rotated (some rotated, ws) = (ok (public_of rotated), ws)

unfoldable pub answer_deleted : Bool × Dict WebhookConfig → Response {0} Unit × Dict WebhookConfig
answer_deleted (deleted, ws) = (if deleted then ok tt else http_error 404, ws)

module _ (co : Codecs) (sec : Security) where
  -- `POST /webhooks`, with the new id, the number of the secret and the time.
  unfoldable pub create :
      Uuid
      → ℕ
      → ℕ
      → Option String
      → List User
      → WebhookConfigCreate
      → Dict WebhookConfig
      → Response WebhookConfigPublic × Dict WebhookConfig
  unfolding answer_webhook create_webhook
  create id n now credentials users body ws =
      guarded (guard sec workflow_create credentials users)
        (λ current ws. answer_webhook (create_webhook co id n now body current.tenant_id ws)) ws

  -- `GET /webhooks`
  unfoldable pub list_all :
      (List WebhookConfig → List WebhookConfig)
      → Option String
      → List User
      → Dict WebhookConfig
      → Response (List WebhookConfigRead) × Dict WebhookConfig
  unfolding list_webhooks read_all
  list_all newest_first credentials users ws =
      guarded (guard sec workflow_read credentials users)
        (λ current ws. (ok (read_all (list_webhooks newest_first current.tenant_id ws)), ws)) ws

  -- `DELETE /webhooks/{webhook_id}`
  unfoldable pub delete :
      Option String → List User → Uuid → Dict WebhookConfig → Response {0} Unit × Dict WebhookConfig
  unfolding answer_deleted deactivate_webhook
  delete credentials users id ws =
      guarded (guard sec workflow_create credentials users)
        (λ current ws. answer_deleted (deactivate_webhook co id current.tenant_id ws)) ws

  -- `POST /webhooks/{webhook_id}/rotate`
  unfoldable pub rotate :
      ℕ
      → Option String
      → List User
      → Uuid
      → Dict WebhookConfig
      → Response WebhookConfigPublic × Dict WebhookConfig
  unfolding answer_rotated rotate_secret
  rotate n credentials users id ws =
      guarded (guard sec workflow_create credentials users)
        (λ current ws. answer_rotated (rotate_secret co n id current.tenant_id ws)) ws
