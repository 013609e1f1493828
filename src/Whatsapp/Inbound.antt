-- ===== src/Whatsapp/Inbound.antt =====
-- internal/service/service.go: `ProcessWebhook` and what an event changes.
use lead.Prelude.{
  ℕ, String, Bool, true, false, ◌&&◌, ◌||◌, not, Option, none, some, List, [], ◌∷◌, Result, ok, err,
  not_found, malformed, invalid_signature, if◌then◌else◌, ◌==◌, string_eq,
}
use lead.Pgkv.{Action, ◌>>=◌, ◌>>◌, pure, throw}
use lead.Whatsapp.Model.{Thread, Message, Services, Direction, MessageStatus, WhatsAppOptOut, until}
use lead.Whatsapp.Durable.{
  Tables, find_thread_by_phone, get_credential, save_thread, save_message, record_webhook_event,
  add_opt_out, add_consent_ledger, add_outbox_event,
}
use lead.Whatsapp.Webhook.{NormalizedEvent, reply, opt_out, delivery, read_event}
use lead.Whatsapp.Service.{attempt, no_message, new_thread}

-- A phone without a thread is no error here, but every other error is.
abbrev pub or_absent : Result Thread → Action Tables (Option Thread)
or_absent (ok t) = pure (some t)
or_absent (err not_found) = pure none
or_absent (err e) = throw e

-- `meta.VerifySignature`: without a secret every body passes.
abbrev pub verify_signature : Services → String → String → String → Bool
verify_signature svc secret body header = secret == "" || svc.signature secret body == header

module _ (new_id : ℕ → String) (now : ℕ) where
  abbrev pub reached : NormalizedEvent → Thread → Thread
  reached e t = record t {
    last_inbound_at = e.timestamp;
    service_window_until = until e.timestamp;
    lead_id = if not (e.lead_id == "") && t.lead_id == "" then e.lead_id else t.lead_id;
  }

  abbrev pub first_thread : NormalizedEvent → Thread
  first_thread e =
      record (new_thread e.tenant_id (if e.lead_id == "" then e.phone else e.lead_id) e.phone now) {
        last_inbound_at = e.timestamp;
        service_window_until = until e.timestamp;
      }

  abbrev pub inbound_thread : NormalizedEvent → Option Thread → Thread
  inbound_thread e none = first_thread e
  inbound_thread e (some t) = reached e t

  -- `threadForInbound`
  unfoldable pub thread_for_inbound : NormalizedEvent → Action Tables Thread
  unfolding until
  thread_for_inbound e = attempt (find_thread_by_phone e.tenant_id e.phone) >>= λ r.
      or_absent r >>= λ found. save_thread new_id now (inbound_thread e found)

  abbrev pub opt_out_record : Thread → NormalizedEvent → WhatsAppOptOut
  opt_out_record t e = record {
    id = "";
    tenant_id = t.tenant_id;
    lead_id = t.lead_id;
    phone = t.phone;
    channel = "whatsapp";
    reason = e.body;
    created_at = some now;
  }

  -- `recordOptOut`
  unfoldable pub record_opt_out : Thread → NormalizedEvent → Action Tables (Unit {0})
  record_opt_out t e = do
    opted ← add_opt_out new_id now (opt_out_record t e)
    entry ← add_consent_ledger new_id now (record {
      id = "";
      tenant_id = t.tenant_id;
      lead_id = t.lead_id;
      channel = "whatsapp";
      basis = "withdrawal";
      source = "whatsapp_reply";
      reason = e.body;
      created_at = some now;
    })
    noticed ← add_outbox_event new_id now (record {
      id = "";
      tenant_id = t.tenant_id;
      subject = "tenant.inbox.notice";
      type = "whatsapp.opt_out";
      payload =
          ("lead_id", t.lead_id)
          ∷ ("thread_id", t.id)
          ∷ ("phone", t.phone)
          ∷ ("reason", e.body)
          ∷ [];
      created_at = some now;
    })
    pure tt

  abbrev pub reply_message : NormalizedEvent → Thread → Message
  reply_message e t = record no_message {
    tenant_id = e.tenant_id;
    thread_id = t.id;
    lead_id = t.lead_id;
    phone = t.phone;
    direction = Direction.inbound;
    body = e.body;
    status = MessageStatus.received;
    meta_message_id = e.message_id;
    created_at = e.timestamp;
  }

  abbrev pub opt_out_of : Thread → NormalizedEvent → Action Tables (Unit {0})
  opt_out_of t e = if e.type == opt_out then record_opt_out t e else pure tt

  -- The case of a reply or an opt-out.
  unfoldable pub apply_reply : NormalizedEvent → Action Tables (Unit {0})
  apply_reply e = do
    t ← thread_for_inbound e
    msg ← save_message new_id now (reply_message e t)
    told ← add_outbox_event new_id now (record {
      id = "";
      tenant_id = e.tenant_id;
      subject = "whatsapp.reply";
      type = "whatsapp.reply";
      payload =
          ("lead_id", t.lead_id) ∷ ("thread_id", t.id) ∷ ("phone", t.phone) ∷ ("body", e.body) ∷ [];
      created_at = some now;
    })
    opt_out_of t e

  -- The case of a status.
  unfoldable pub apply_status : NormalizedEvent → Action Tables (Unit {0})
  apply_status e = do
    told ← add_outbox_event new_id now (record {
      id = "";
      tenant_id = e.tenant_id;
      subject = "whatsapp.status";
      type = e.type;
      payload = ("message_id", e.message_id) ∷ ("status", e.status) ∷ ("phone", e.phone) ∷ [];
      created_at = some now;
    })
    pure tt

  -- `applyWebhookEvent`
  unfoldable pub apply_webhook_event : NormalizedEvent → Action Tables (Unit {0})
  apply_webhook_event e =
      if e.type == reply || e.type == opt_out
      then apply_reply e
      else (if e.type == read_event || e.type == delivery then apply_status e else pure tt)

  abbrev pub if_new : NormalizedEvent → Bool → Action Tables (Unit {0})
  if_new e false = pure tt
  if_new e true = apply_webhook_event e

  abbrev pub named : String → NormalizedEvent → NormalizedEvent
  named tenant_id e = record e { tenant_id = if e.tenant_id == "" then tenant_id else e.tenant_id }

  -- One event: it is recorded by its id, and applied if it is new.
  unfoldable pub process_event : String → NormalizedEvent → Action Tables (Unit {0})
  process_event body e =
      record_webhook_event new_id now (record {
        id = "";
        tenant_id = e.tenant_id;
        idempotency_key = e.id;
        event_type = e.type;
        payload = body;
        received_at = some now;
      })
      >>= if_new e

  -- The loop of `ProcessWebhook`: an error ends it.
  unfoldable pub process_events : String → String → List NormalizedEvent → Action Tables (Unit {0})
  process_events tenant_id body [] = pure tt
  process_events tenant_id body (e ∷ es) =
      process_event body (named tenant_id e) >> process_events tenant_id body es

  abbrev pub whose : String → List NormalizedEvent → String
  whose tenant_id [] = tenant_id
  whose tenant_id (e ∷ es) = if tenant_id == "" then e.tenant_id else tenant_id

  module _ (svc : Services) where
    -- `ProcessWebhook`, on a body and the events that `Normalize` makes of it, if it can.
    unfoldable pub process_webhook :
        String → String → String → Option (List NormalizedEvent) → Action Tables (Unit {0})
    process_webhook tenant_id body header none = throw malformed
    process_webhook tenant_id body header (some es) =
        get_credential (whose tenant_id es) >>= λ cred.
        if verify_signature svc cred.app_secret body header
        then process_events (whose tenant_id es) body es
        else throw invalid_signature
