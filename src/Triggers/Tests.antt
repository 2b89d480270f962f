-- ===== src/Triggers/Tests.antt =====
-- The theorems about triggers at one webhook and one workflow.
use constructor.Prelude.{
  arith, elem, false, List, ◌≡◌, refl, true, none, some, [], ◌∷◌, Dict, lookup, insert,
}
use constructor.Json.{null, str, obj, end, field, put, get}
use constructor.Outcome.{return}
use constructor.Executions.Events.{ProcessExecution, pending}
use constructor.Executions.Tests.{definition}
use constructor.Access.Users.{http_error, ok}
use constructor.Prelude.Int.{pos}
use mathlib.Core.List.{reverse}
use constructor.Executions.Events.{running, completed, failed}
use constructor.Executions.Tests.{execution}
use constructor.Access.Permissions.{has_permission}
use constructor.Access.Users.{User, CurrentUser, Security, guard}
use constructor.Triggers.Endpoints.{Postgres, is_asked, select, list_all}
use constructor.Triggers.Endpoints.Pages.{IsPage, swap, list_all-IsPage}
use constructor.Triggers.Create.{Store, Fresh, internal_trigger}
use constructor.Triggers.Create.Created.{InternalAnswer, internal_trigger-answers}
use constructor.Triggers.Webhooks.{
  WebhookConfig, Codecs, deactivate_webhook, trigger, find_webhook, rotate_secret,
}
use constructor.Triggers.Webhooks.Endpoints.{public_of, answer_rotated, rotate}
use constructor.Triggers.Webhooks.Endpoints.Rotated.{Answered, rotate-Answered}
use constructor.Triggers.Webhooks.Authentic.{
  IsAuthentic, trigger-IsAuthentic, deactivate_webhook-trigger,
}

abbrev pub fresh : Fresh
fresh = record { new_uuid = λ n. "e9"; clock = λ n. n }

abbrev pub store : Store
store = record {
  definitions = ("p1", definition) ∷ [];
  executions = [];
  current_tenant = "";
  started = [];
  effects = 0;
}

internal_trigger-answers_example :
    InternalAnswer fresh "s3cret"
      (some "s3cret")
      (record { process_definition_id = "p1"; context = end })
      store
      (internal_trigger fresh "s3cret"
        (some "s3cret")
        (record { process_definition_id = "p1"; context = end })
        store)
internal_trigger-answers_example =
    internal_trigger-answers fresh "s3cret" (some "s3cret")
      (record { process_definition_id = "p1"; context = end }) store

-- The digest is the secret, and the search finds a key of the body.
abbrev codecs : Codecs
codecs = record {
  hexdigest = λ secret body. secret;
  loads = λ text. return (obj (field "amount" (str text) end));
  search = λ expression body. elim body [ obj d ↦ return (str "7") | _ ↦ return null ];
  token_hex = λ n. "abc";
}

abbrev hook : WebhookConfig
hook = record {
  id = "h1";
  tenant_id = "t1";
  workflow_id = "p1";
  name = "orders";
  secret = "k";
  payload_mapping = field "total" (str "amount") end;
  is_active = true;
  created_at = 0;
}

abbrev hooks : Dict WebhookConfig
hooks = ("h1", hook) ∷ []

abbrev created : ProcessExecution
created = record {
  id = "e9";
  tenant_id = "t1";
  process_definition_id = "p1";
  status = pending;
  context = field "total" (str "7") end;
  current_step_id = none;
  triggered_by = none;
  trigger_type = "webhook";
  started_at = none;
  completed_at = none;
  created_at = 0;
}

abbrev store_after : Store
store_after = record {
  definitions = ("p1", definition) ∷ [];
  executions = ("e9", created) ∷ [];
  current_tenant = "t1";
  started = record { execution_id = "e9"; process_id = "p1"; tenant_id = "t1" } ∷ [];
  effects = 1;
}

trigger-IsAuthentic_example :
    IsAuthentic codecs fresh "h1" "7" "sha256=k" hooks store created store_after
unfolding trigger lookup insert put
trigger-IsAuthentic_example = trigger-IsAuthentic codecs fresh "h1" "7" "sha256=k" hooks store refl

deactivate_webhook-trigger_example :
    trigger codecs fresh "h1" "7" "sha256=k" (deactivate_webhook codecs "h1" "t1" hooks).1 store
    ≡ (http_error 404, store)
unfolding deactivate_webhook lookup
deactivate_webhook-trigger_example =
    deactivate_webhook-trigger codecs fresh "h1" "t1" hooks "7" "sha256=k" store refl

abbrev admin_security : Security
admin_security = record {
  decode_access_token = λ token. return (field "sub" (str "u1") (field "tenant_id" (str "t1") end));
  to_uuid = λ v. elim v [ str s ↦ return s | _ ↦ return "" ];
  to_roles = λ roles. return ("viewer" ∷ []);
  verify_password = λ plain hash. false;
  dummy_hash = "";
}

abbrev reader : CurrentUser
reader = record { id = "u1"; email = "a@b.c"; tenant_id = "t1"; roles = "viewer" ∷ [] }

abbrev pub readers : List User
readers =
    record { id = "u1"; tenant_id = "t1"; email = "a@b.c"; hashed_password = ""; is_active = true }
    ∷ []

-- Rows are stored as they are created.
abbrev pub postgres : Postgres
postgres = record {
  is_bound = true;
  newest_first = reverse;
  status_text = λ s. elim s [
    | pending ↦ "pending"
    | running ↦ "running"
    | completed ↦ "completed"
    | failed ↦ "failed"
  ];
}

abbrev older : ProcessExecution
older = record execution { id = "e2"; created_at = 1 }

abbrev newer : ProcessExecution
newer = record execution { id = "e3"; created_at = 2 }

abbrev rows : List ProcessExecution
rows = older ∷ record execution { id = "e4"; tenant_id = "t2" } ∷ newer ∷ []

abbrev pub admins : Security
admins = record admin_security { to_roles = λ roles. return ("tenant_admin" ∷ []) }

rotate-Answered_example :
    Answered codecs fresh admins readers 0
      (some "token")
      "h1"
      hooks
      (rotate codecs admins 0 (some "token") readers "h1" hooks)
rotate-Answered_example = rotate-Answered codecs fresh admins readers 0 (some "token") "h1" hooks

rotates :
    (rotate codecs admins 0 (some "token") readers "h1" hooks).0
    ≡ ok (public_of (record hook { secret = "abc" }, "abc"))
unfolding rotate guard get has_permission lookup elem rotate_secret answer_rotated find_webhook
rotates = refl

list_all-IsPage_example : IsPage postgres reader (some "pending") none (pos 50) (newer ∷ older ∷ [])
unfolding guard get has_permission lookup elem select is_asked list_all
list_all-IsPage_example =
    list_all-IsPage postgres admin_security (some "token") readers reader rows (some "pending") none
      (pos 50) (pos 0) (newer ∷ older ∷ []) refl
      (record { newest = ((omega arith, tt), (tt, tt)); rearranged = swap older newer [] }) refl
