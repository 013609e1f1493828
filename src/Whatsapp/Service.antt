-- ===== src/Whatsapp/Service.antt =====
-- internal/service/service.go: templates, and what is sent to leads.
use lead.Prelude.{
  ℕ, ◌+◌, String, Bool, true, false, ◌||◌, none, some, List, [], ◌∷◌, Dict, Result, ok, err, Error,
  rejected, opted_out, consent_blocked, claim_blocked, rate_limited, if◌then◌else◌, ◌==◌, string_eq,
}
use lead.Pgkv.{Action, ◌>>=◌, ◌>>◌, pure, throw}
use lead.Whatsapp.Model.{
  Template, Thread, Message, Outgoing, RemoteTemplate, Client, Services, Direction, MessageKind,
  MessageStatus, validate_category, prebuilt,
}
use lead.Whatsapp.Durable.{
  Tables, find_template_by_name, is_opted_out, get_credential, save_template, enqueue_retry,
}

abbrev pub default_to : String → String → String
default_to s t = if t == "" then s else t

abbrev pub lift_result : {A : Type 0} → Result A → Action Tables A
lift_result (ok a) = pure a
lift_result (err e) = throw e

-- An error is turned into a result: the caller goes on.
abbrev pub attempt : {A : Type 0} → Action Tables A → Action Tables (Result A)
attempt m q = let (r, q') = m q in (ok r, q')

abbrev pub allowed_or : Error → Bool → Action Tables (Unit {0})
allowed_or e true = pure tt
allowed_or e false = throw e

abbrev pub refused_if : Error → Bool → Action Tables (Unit {0})
refused_if e true = throw e
refused_if e false = pure tt

-- `clientForTenant`
abbrev pub client_for_tenant : Services → String → Client
client_for_tenant svc tenant_id = if svc.demo_tenant tenant_id then svc.demo_meta else svc.meta

abbrev pub no_message : Message
no_message = record {
  id = "";
  tenant_id = "";
  thread_id = "";
  lead_id = "";
  phone = "";
  direction = Direction.outbound;
  kind = MessageKind.text;
  body = "";
  template_id = "";
  flow_id = "";
  attachments = [];
  status = MessageStatus.sent;
  meta_message_id = "";
  created_at = none;
}

-- `ensureClaimAllowed`; without a client every text is allowed, and an error blocks.
abbrev pub claim_answer : Result Bool → Action Tables (Unit {0})
claim_answer (ok b) = allowed_or claim_blocked b
claim_answer (err e) = throw claim_blocked

abbrev pub merge_remote : ℕ → RemoteTemplate → Template → Template
merge_remote now item t = record t {
  category = item.category;
  status = item.status;
  body = item.body;
  meta_name = item.name;
  remote_id = item.remote_id;
  synced_at = some now;
}

abbrev pub blank_template : String → RemoteTemplate → Template
blank_template tenant_id item = record {
  id = "";
  tenant_id = tenant_id;
  name = item.name;
  language = item.language;
  category = "";
  body = "";
  status = "";
  meta_name = "";
  variables = [];
  created_at = none;
  updated_at = none;
  synced_at = none;
  remote_id = "";
  remote_note = "";
}

abbrev pub or_blank : String → RemoteTemplate → Result Template → Template
or_blank tenant_id item (ok t) = t
or_blank tenant_id item (err e) = blank_template tenant_id item

abbrev pub new_thread : String → String → String → ℕ → Thread
new_thread tenant_id lead_id phone now = record {
  id = "";
  tenant_id = tenant_id;
  lead_id = lead_id;
  phone = phone;
  last_inbound_at = none;
  service_window_until = none;
  created_at = some now;
  updated_at = some now;
}

abbrev pub is_ok : Result (Unit {0}) → Bool
is_ok (ok u) = true
is_ok (err e) = false

module _ (new_id : ℕ → String) (now : ℕ) where
  -- `RegisterTemplate`
  unfoldable pub register_template : Template → Action Tables Template
  register_template t =
      if t.tenant_id == "" || (t.name == "" || t.language == "")
      then throw rejected
      else (lift_result (validate_category t.category)
          >> save_template new_id now (record t {
            status = default_to "draft" t.status;
            meta_name = default_to t.name t.meta_name;
          }))

  unfoldable pub register_all : List Template → Action Tables (Unit {0})
  register_all [] = pure tt
  register_all (t ∷ ts) = register_template t >>= λ saved. register_all ts

  -- `SeedPrebuiltTemplates`
  unfoldable pub seed_prebuilt_templates : String → Action Tables (Unit {0})
  seed_prebuilt_templates tenant_id = register_all (prebuilt tenant_id)

  -- `enqueueRateLimitRetry`: only for a rate limit, and its own error is ignored.
  unfoldable pub enqueue_rate_limit_retry :
      String → String → Dict String → Error → Action Tables (Unit {0})
  enqueue_rate_limit_retry tenant_id operation payload (rate_limited delay) =
      attempt (
        enqueue_retry new_id now (record {
          id = "";
          tenant_id = tenant_id;
          operation = operation;
          payload = payload;
          run_after = now + delay;
          attempts = 1;
          created_at = some now;
        }))
      >>= λ r. pure tt
  enqueue_rate_limit_retry tenant_id operation payload e = pure tt

  -- An answer of Meta: an error may be tried again later, and a call that it accepts is on record.
  unfoldable pub deliver :
      String
      → String
      → Dict String
      → String
      → String
      → Outgoing
      → Result String
      → Action Tables String
  deliver tenant_id operation payload lead_id phone call (err e) q =
      (enqueue_rate_limit_retry tenant_id operation payload e >> throw e) q
  deliver tenant_id operation payload lead_id phone call (ok message_id) q = (
    ok message_id,
    record q {
      accepted =
          record { tenant_id = tenant_id; lead_id = lead_id; phone = phone; call = call }
          ∷ q.accepted;
    },
  )

  module _ (svc : Services) where
    -- `ensureCanContact`
    unfoldable pub ensure_can_contact : String → String → String → Action Tables (Unit {0})
    ensure_can_contact tenant_id lead_id phone = do
      out ← is_opted_out tenant_id lead_id
      refused_if opted_out out
      allowed ← lift_result (
          svc.check_outreach_allowed (record {
            tenant_id = tenant_id;
            lead_id = lead_id;
            phone = phone;
            channel = "whatsapp";
            requested_time = now;
          }))
      allowed_or consent_blocked allowed

    -- `ensureClaimAllowed`
    unfoldable pub ensure_claim_allowed :
        String → String → String → String → Action Tables (Unit {0})
    ensure_claim_allowed tenant_id project_id lead_id text = elim svc.claims [
      | none ↦ pure tt
      | some check ↦ claim_answer (
          check (record {
            tenant_id = tenant_id;
            project_id = project_id;
            lead_id = lead_id;
            channel = "whatsapp";
            text = text;
          }))
    ]

    -- A listed template, then the others; one of another category is left out.
    unfoldable pub merge_one :
        String
        → RemoteTemplate
        → Action Tables (List Template)
        → Result (Unit {0})
        → Action Tables (List Template)
    merge_one tenant_id item rest (err e) = rest
    merge_one tenant_id item rest (ok u) =
        attempt (find_template_by_name tenant_id item.name item.language) >>= λ found.
        save_template new_id now (merge_remote now item (or_blank tenant_id item found))
        >>= λ saved. rest >>= λ others. pure (saved ∷ others)

    unfoldable pub merge_all : String → List RemoteTemplate → Action Tables (List Template)
    merge_all tenant_id [] = pure []
    merge_all tenant_id (item ∷ items) =
        merge_one tenant_id item (merge_all tenant_id items) (validate_category item.category)

    -- The templates that Meta lists, or its error.
    unfoldable pub synced : String → Result (List RemoteTemplate) → Action Tables (List Template)
    synced tenant_id (err e) = enqueue_rate_limit_retry tenant_id "sync_templates" [] e >> throw e
    synced tenant_id (ok items) = merge_all tenant_id items

    -- `SyncTemplates`
    unfoldable pub sync_templates : String → Action Tables (List Template)
    sync_templates tenant_id = get_credential tenant_id >>= λ cred.
        synced tenant_id ((client_for_tenant svc tenant_id).sync_templates cred)
