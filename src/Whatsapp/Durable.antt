-- ===== src/Whatsapp/Durable.antt =====
-- internal/store/postgres.go: templates, threads, messages and records over the key-value table.
pub mod Records
use lead.Prelude.{
  ℕ, zero, suc, String, Bool, true, false, ◌||◌, not, Option, none, some, List, [], ◌∷◌, ◌^^◌, keep,
  Dict, if◌then◌else◌, ◌==◌, string_eq, text_ltb, sort_by, ltb, Result, ok, err, not_found,
  rejected,
}
use lead.Pgkv.{Kv, Action, ◌>>=◌, ◌>>◌, pure, throw, put, get, list, insert_new}
use lead.Whatsapp.Model.{
  Template, Thread, Message, WebhookEvent, WhatsAppOptOut, OutboxEvent, UsageEvent,
  ConsentLedgerEntry, VaultCredential, RetryTask, Outgoing,
}

-- A call that Meta or the demo client has accepted.
pub record Accepted : Type 0 where
  pub tenant_id : String
  pub lead_id : String
  pub phone : String
  pub call : Outgoing

-- The tables, the number of ids that `NewID` has made, and the accepted calls, the last one first.
pub record Tables : Type 0 where
  pub templates : Kv Template
  pub templates_by_name : Kv Template
  pub threads : Kv Thread
  pub threads_by_lead : Kv Thread
  pub threads_by_phone : Kv Thread
  pub messages : Kv Message
  pub webhook_events : Kv WebhookEvent
  pub opt_outs : Kv WhatsAppOptOut
  pub consent_ledger : Kv ConsentLedgerEntry
  pub outbox : Kv OutboxEvent
  pub usage_events : Kv UsageEvent
  pub credentials : Kv VaultCredential
  pub retries : Kv RetryTask
  pub ids_made : ℕ
  pub accepted : List Accepted

module _ {ℓ} {A : Type ℓ} where
  abbrev pub on_templates : Action (Kv Template) A → Action Tables A
  on_templates m q = let (r, s) = m q.templates in (r, record q { templates = s })

  abbrev pub on_names : Action (Kv Template) A → Action Tables A
  on_names m q = let (r, s) = m q.templates_by_name in (r, record q { templates_by_name = s })

  abbrev pub on_threads : Action (Kv Thread) A → Action Tables A
  on_threads m q = let (r, s) = m q.threads in (r, record q { threads = s })

  abbrev pub on_leads : Action (Kv Thread) A → Action Tables A
  on_leads m q = let (r, s) = m q.threads_by_lead in (r, record q { threads_by_lead = s })

  abbrev pub on_phones : Action (Kv Thread) A → Action Tables A
  on_phones m q = let (r, s) = m q.threads_by_phone in (r, record q { threads_by_phone = s })

  abbrev pub on_messages : Action (Kv Message) A → Action Tables A
  on_messages m q = let (r, s) = m q.messages in (r, record q { messages = s })

  abbrev pub on_webhooks : Action (Kv WebhookEvent) A → Action Tables A
  on_webhooks m q = let (r, s) = m q.webhook_events in (r, record q { webhook_events = s })

  abbrev pub on_opt_outs : Action (Kv WhatsAppOptOut) A → Action Tables A
  on_opt_outs m q = let (r, s) = m q.opt_outs in (r, record q { opt_outs = s })

  abbrev pub on_ledger : Action (Kv ConsentLedgerEntry) A → Action Tables A
  on_ledger m q = let (r, s) = m q.consent_ledger in (r, record q { consent_ledger = s })

  abbrev pub on_outbox : Action (Kv OutboxEvent) A → Action Tables A
  on_outbox m q = let (r, s) = m q.outbox in (r, record q { outbox = s })

  abbrev pub on_usage : Action (Kv UsageEvent) A → Action Tables A
  on_usage m q = let (r, s) = m q.usage_events in (r, record q { usage_events = s })

  abbrev pub on_credentials : Action (Kv VaultCredential) A → Action Tables A
  on_credentials m q = let (r, s) = m q.credentials in (r, record q { credentials = s })

  abbrev pub on_retries : Action (Kv RetryTask) A → Action Tables A
  on_retries m q = let (r, s) = m q.retries in (r, record q { retries = s })

  -- What a read found, or the error `ErrNotFound`.
  abbrev pub or_missing : Option A → Action Tables A
  or_missing none = throw not_found
  or_missing (some a) = pure a

-- `if x.CreatedAt.IsZero() { x.CreatedAt = now }`
abbrev pub first_time : ℕ → Option ℕ → Option ℕ
first_time now none = some now
first_time now (some t) = some t

abbrev pub key : String → String → String
key tenant_id id = tenant_id ^^ (":" ^^ id)

abbrev pub name_key : String → String → String → String
name_key tenant_id name language = tenant_id ^^ (":" ^^ (name ^^ (":" ^^ language)))

abbrev pub opt_out_key : String → String → String → String
opt_out_key tenant_id lead_id channel = tenant_id ^^ (":" ^^ (lead_id ^^ (":" ^^ channel)))

abbrev pub of_tenant : String → String → Bool
of_tenant tenant_id found = tenant_id == "" || found == tenant_id

-- An entry of an index is written only under a key that is not empty.
abbrev pub unless_empty : String → Action Tables (Unit {0}) → Action Tables (Unit {0})
unless_empty s m = if s == "" then pure tt else m

-- `GetTemplate`
unfoldable pub get_template : String → Action Tables Template
get_template id = on_templates (get id) >>= or_missing

-- `FindTemplateByName`
unfoldable pub find_template_by_name : String → String → String → Action Tables Template
find_template_by_name tenant_id name language =
    on_names (get (name_key tenant_id name language)) >>= or_missing

-- `ListTemplates`
unfoldable pub list_templates : String → Action Tables (List Template)
list_templates tenant_id = do
  ts ← on_templates list
  pure (
      sort_by (λ a b. text_ltb a.name b.name)
        (keep (λ (t : Template). of_tenant tenant_id t.tenant_id) ts))

-- `GetThread`
unfoldable pub get_thread : String → Action Tables Thread
get_thread id = on_threads (get id) >>= or_missing

-- `FindThreadByLead`
unfoldable pub find_thread_by_lead : String → String → Action Tables Thread
find_thread_by_lead tenant_id lead_id = on_leads (get (key tenant_id lead_id)) >>= or_missing

-- `FindThreadByPhone`
unfoldable pub find_thread_by_phone : String → String → Action Tables Thread
find_thread_by_phone tenant_id phone = on_phones (get (key tenant_id phone)) >>= or_missing

-- Of two times, whether the first is later; the zero time is the earliest.
abbrev pub after : Option ℕ → Option ℕ → Bool
after none t = false
after (some s) none = true
after (some s) (some t) = ltb t s

-- `ListThreads`, the latest first.
unfoldable pub list_threads : String → Action Tables (List Thread)
list_threads tenant_id = do
  ts ← on_threads list
  pure (
      sort_by (λ a b. after a.updated_at b.updated_at)
        (keep (λ (t : Thread). of_tenant tenant_id t.tenant_id) ts))

-- `ListMessages`, the earliest first.
unfoldable pub list_messages : String → Action Tables (List Message)
list_messages thread_id = do
  ms ← on_messages list
  pure (
      sort_by (λ a b. after b.created_at a.created_at)
        (keep (λ (m : Message). m.thread_id == thread_id) ms))

abbrev pub is_there : {A : Type 0} → Option A → Bool
is_there none = false
is_there (some a) = true

-- `IsOptedOut`
unfoldable pub is_opted_out : String → String → Action Tables Bool
is_opted_out tenant_id lead_id = do
  found ← on_opt_outs (get (opt_out_key tenant_id lead_id "whatsapp"))
  pure (is_there found)

-- `GetCredential`
unfoldable pub get_credential : String → Action Tables VaultCredential
get_credential tenant_id = on_credentials (get tenant_id) >>= or_missing

abbrev pub store_credential : ℕ → VaultCredential → Action Tables VaultCredential
store_credential now cred =
    on_credentials (put cred.tenant_id (record cred { updated_at = some now }))
    >> pure (record cred { updated_at = some now })

-- `UpsertCredential`
unfoldable pub upsert_credential : ℕ → VaultCredential → Action Tables VaultCredential
upsert_credential now cred =
    if cred.tenant_id == "" then throw rejected else store_credential now cred

abbrev pub stamped_thread : ℕ → Thread → String → Thread
stamped_thread now t id = record t {
  id = id;
  created_at = first_time now t.created_at;
  updated_at = some now;
}

unfoldable pub write_thread : Thread → Action Tables Thread
write_thread t = do
  on_threads (put t.id t)
  unless_empty t.lead_id (on_leads (put (key t.tenant_id t.lead_id) t))
  unless_empty t.phone (on_phones (put (key t.tenant_id t.phone) t))
  pure t

module _ (new_id : ℕ → String) where
  -- `if x.ID == "" { x.ID = pgkv.NewID("") }`
  unfoldable pub identified : String → Action Tables String
  identified id q =
      if id == ""
      then (ok (new_id q.ids_made), record q { ids_made = suc q.ids_made })
      else (ok id, q)

  -- `SaveTemplate`
  unfoldable pub save_template : ℕ → Template → Action Tables Template
  save_template now t = do
    id ← identified t.id
    let t' : Template = record t {
      id = id;
      created_at = first_time now t.created_at;
      updated_at = some now;
    }
    on_templates (put id t')
    on_names (put (name_key t.tenant_id t.name t.language) t')
    pure t'

  -- `SaveThread`
  unfoldable pub save_thread : ℕ → Thread → Action Tables Thread
  save_thread now t = do id ← identified t.id; write_thread (stamped_thread now t id)

  -- `SaveMessage`
  unfoldable pub save_message : ℕ → Message → Action Tables Message
  save_message now m = do
    id ← identified m.id
    let m' : Message = record m { id = id; created_at = first_time now m.created_at }
    on_messages (put id m')
    pure m'

  -- `RecordWebhookEvent`: whether the event is new.
  unfoldable pub record_webhook_event : ℕ → WebhookEvent → Action Tables Bool
  record_webhook_event now e =
      if e.idempotency_key == ""
      then throw rejected
      else identified e.id >>= λ id. on_webhooks (
          insert_new e.idempotency_key
            (record e { id = id; received_at = first_time now e.received_at }))

  -- `AddOptOut`
  unfoldable pub add_opt_out : ℕ → WhatsAppOptOut → Action Tables WhatsAppOptOut
  add_opt_out now o = do
    id ← identified o.id
    let o' : WhatsAppOptOut = record o {
      id = id;
      channel = if o.channel == "" then "whatsapp" else o.channel;
      created_at = first_time now o.created_at;
    }
    on_opt_outs (put (opt_out_key o'.tenant_id o'.lead_id o'.channel) o')
    pure o'

  -- `AddConsentLedger`
  unfoldable pub add_consent_ledger : ℕ → ConsentLedgerEntry → Action Tables ConsentLedgerEntry
  add_consent_ledger now e = do
    id ← identified e.id
    let e' : ConsentLedgerEntry = record e { id = id; created_at = first_time now e.created_at }
    on_ledger (put id e')
    pure e'

  -- `AddOutboxEvent`
  unfoldable pub add_outbox_event : ℕ → OutboxEvent → Action Tables OutboxEvent
  add_outbox_event now e = do
    id ← identified e.id
    let e' : OutboxEvent = record e { id = id; created_at = first_time now e.created_at }
    on_outbox (put id e')
    pure e'

  -- `AddUsageEvent`
  unfoldable pub add_usage_event : ℕ → UsageEvent → Action Tables UsageEvent
  add_usage_event now e = do
    id ← identified e.id
    let e' : UsageEvent = record e {
      id = id;
      quantity = elim e.quantity [ zero ↦ 1 | suc n ↦ suc n ];
      created_at = first_time now e.created_at;
    }
    on_usage (put id e')
    pure e'

  -- `EnqueueRetry`
  unfoldable pub enqueue_retry : ℕ → RetryTask → Action Tables RetryTask
  enqueue_retry now t = do
    id ← identified t.id
    let t' : RetryTask = record t { id = id; created_at = first_time now t.created_at }
    on_retries (put id t')
    pure t'
