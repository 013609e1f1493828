-- ===== src/Whatsapp/Stopped.antt =====
-- internal/service/service.go: a lead who has opted out is not written to. Here, what each write of
-- the store keeps of that.
pub mod Checks
pub mod Sends
pub mod Events
pub mod Forever
pub mod Heard
use lead.Prelude.{
  ◌≡◌, ◌≢◌, refl, arith, inl, inr, sym, ◌∙◌, subst, ℕ, String, Bool, true, false, Option, none,
  some, List, [], ◌∷◌, ◌++◌, All, Dict, lookup, insert, lookup-insert, if◌then◌else◌, ◌==◌,
  string_eq, eq_iff, Bool-cases, Result, ok, err, Error, rejected,
}
use lead.Pgkv.{pure, throw, Kv, Action, and_then, put, get, insert_new}
use lead.Pgkv.Post.{Post, Post-and_then, Post-lift, Post-put, Post-get}
use lead.Whatsapp.Model.{
  Template, Thread, Message, WebhookEvent, WhatsAppOptOut, OutboxEvent, UsageEvent,
  ConsentLedgerEntry, RetryTask, VaultCredential,
}
use lead.Whatsapp.Durable.{
  Tables, Accepted, opt_out_key, unless_empty, or_missing, first_time, is_there, is_opted_out,
  identified, save_template, stamped_thread, write_thread, save_thread, save_message,
  record_webhook_event, add_opt_out, add_consent_ledger, add_outbox_event, add_usage_event,
  enqueue_retry, upsert_credential, get_template, get_thread, find_template_by_name,
  find_thread_by_lead, find_thread_by_phone, get_credential, store_credential,
}

-- Whom a call is for, as the list of opt-outs knows him.
abbrev pub addressee : Accepted → String
addressee c = opt_out_key c.tenant_id c.lead_id "whatsapp"

-- The calls since `base` are for others than `k`.
abbrev pub SparedSince : String → List Accepted → List Accepted → Type 0
SparedSince k base log =
    (calls : List Accepted) × (log ≡ calls ++ base) × All (λ c. addressee c ≢ k) calls

module _ (k : String) (base : List Accepted) where
  -- `k` has opted out, and since `base` no call was for him.
  abbrev pub IsSpared : Tables → Type 0
  IsSpared q = (lookup k q.opt_outs.table ≢ none) × (SparedSince k base q.accepted)

  abbrev pub Spared {ℓ} : {A : Type ℓ} → Result A × Tables → Type 0
  Spared = Post (λ a. IsSpared) IsSpared

  -- A sequence, and an action on a table of which nothing is said.
  pub in_turn {ℓ κ} :
      {A : Type ℓ} {B : Type κ} (x : Result A × Tables) (f : A → Action Tables B)
      → Spared x
      → ((a : A) (q : Tables) → IsSpared q → Spared (f a q))
      → Spared (and_then x f)
  in_turn x f = Post-and_then (λ a. IsSpared) (λ b. IsSpared) IsSpared x f

  pub on_table {ℓ κ} :
      {A : Type ℓ} {R : Type κ} (g : R → Tables) (x : Result A × R)
      → ((s : R) → IsSpared (g s))
      → Spared (x.0, g x.1)
  on_table g (ok a, s) h = h s
  on_table g (err e, s) h = h s

  pub branch {ℓ} :
      {A : Type ℓ} (b : Bool) (m n : Action Tables A) (q : Tables)
      → Spared (m q)
      → Spared (n q)
      → Spared ((if b then m else n) q)
  branch true m n q h h' = h
  branch false m n q h h' = h'

  pub or_missing-Spared :
      {A : Type 0} (found : Option A) (q : Tables) → IsSpared q → Spared (or_missing found q)
  or_missing-Spared none q h = h
  or_missing-Spared (some a) q h = h

  module _ (q : Tables) (h : IsSpared q) where
    pub get_template-Spared : (id : String) → Spared (get_template id q)
    unfolding get_template
    get_template-Spared id =
        in_turn _ _ (on_table (λ s. record q { templates = s }) _ λ s. h) or_missing-Spared

    pub find_template_by_name-Spared :
        (tenant_id name language : String)
        → Spared (find_template_by_name tenant_id name language q)
    unfolding find_template_by_name
    find_template_by_name-Spared tenant_id name language =
        in_turn _ _ (on_table (λ s. record q { templates_by_name = s }) _ λ s. h) or_missing-Spared

    pub get_thread-Spared : (id : String) → Spared (get_thread id q)
    unfolding get_thread
    get_thread-Spared id =
        in_turn _ _ (on_table (λ s. record q { threads = s }) _ λ s. h) or_missing-Spared

    pub find_thread_by_lead-Spared :
        (tenant_id lead_id : String) → Spared (find_thread_by_lead tenant_id lead_id q)
    unfolding find_thread_by_lead
    find_thread_by_lead-Spared tenant_id lead_id =
        in_turn _ _ (on_table (λ s. record q { threads_by_lead = s }) _ λ s. h) or_missing-Spared

    pub find_thread_by_phone-Spared :
        (tenant_id phone : String) → Spared (find_thread_by_phone tenant_id phone q)
    unfolding find_thread_by_phone
    find_thread_by_phone-Spared tenant_id phone =
        in_turn _ _ (on_table (λ s. record q { threads_by_phone = s }) _ λ s. h) or_missing-Spared

    pub get_credential-Spared : (tenant_id : String) → Spared (get_credential tenant_id q)
    unfolding get_credential
    get_credential-Spared tenant_id =
        in_turn _ _ (on_table (λ s. record q { credentials = s }) _ λ s. h) or_missing-Spared

    store_credential-Spared :
        (now : ℕ) (cred : VaultCredential) → Spared (store_credential now cred q)
    store_credential-Spared now cred =
        in_turn _ _ (on_table (λ s. record q { credentials = s }) (put _ _ q.credentials) λ s. h)
          λ u r g. g

    pub upsert_credential-Spared :
        (now : ℕ) (cred : VaultCredential) → Spared (upsert_credential now cred q)
    unfolding upsert_credential
    upsert_credential-Spared now cred =
        branch (cred.tenant_id == "") (throw rejected) (store_credential now cred) q h
          (store_credential-Spared now cred)

    unless_empty-Spared :
        (s : String) (m : Action Tables (Unit {0})) → Spared (m q) → Spared (unless_empty s m q)
    unless_empty-Spared s m run = branch (s == "") (pure tt) m q h run

  write_thread-Spared : (t : Thread) (q : Tables) → IsSpared q → Spared (write_thread t q)
  unfolding write_thread
  write_thread-Spared t q h =
      in_turn _ _ (on_table (λ s. record q { threads = s }) (put _ _ q.threads) λ s. h) λ u r g.
        in_turn _ _
          (unless_empty-Spared r g t.lead_id _
            (on_table (λ s. record r { threads_by_lead = s }) (put _ _ r.threads_by_lead) λ s. g))
          λ u' r' g'.
            in_turn _ _
              (unless_empty-Spared r' g' t.phone _ (
                on_table (λ s. record r' { threads_by_phone = s }) (put _ _ r'.threads_by_phone)
                  λ s. g'))
              λ u'' r'' g''. g''

  -- An opt-out more leaves `k` opted out.
  still_opted :
      (j : String) (o : WhatsAppOptOut) (d : Dict WhatsAppOptOut)
      → lookup k d ≢ none
      → lookup k (insert j o d) ≢ none
  still_opted j o d there gone = ground (arith, lookup-insert j k o d, there, gone)

  module _ (new_id : ℕ → String) where
    identified-Spared : (id : String) (q : Tables) → IsSpared q → Spared (identified new_id id q)
    unfolding identified
    identified-Spared id q h = elim (Bool-cases (id == "")) [ inl e ↦ rw e h | inr e ↦ rw e h ]

    module _ (now : ℕ) (q : Tables) (h : IsSpared q) where
      pub save_template-Spared : (t : Template) → Spared (save_template new_id now t q)
      unfolding save_template
      save_template-Spared t = in_turn _ _ (identified-Spared t.id q h) λ id r g.
          in_turn _ _ (on_table (λ s. record r { templates = s }) (put _ _ r.templates) λ s. g)
            λ u r' g'.
              in_turn _ _
                (on_table (λ s. record r' { templates_by_name = s }) (put _ _ r'.templates_by_name)
                  λ s. g')
                λ u' r'' g''. g''

      pub save_thread-Spared : (t : Thread) → Spared (save_thread new_id now t q)
      unfolding save_thread
      save_thread-Spared t =
          in_turn _ _ (identified-Spared t.id q h)
            λ id r g. write_thread-Spared (stamped_thread now t id) r g

      pub save_message-Spared : (m : Message) → Spared (save_message new_id now m q)
      unfolding save_message
      save_message-Spared m = in_turn _ _ (identified-Spared m.id q h) λ id r g.
          in_turn _ _ (on_table (λ s. record r { messages = s }) (put _ _ r.messages) λ s. g)
            λ u r' g'. g'

      pub record_webhook_event-Spared :
          (e : WebhookEvent) → Spared (record_webhook_event new_id now e q)
      unfolding record_webhook_event
      record_webhook_event-Spared e = branch (e.idempotency_key == "") (throw rejected) _ q h (
          in_turn _ _ (identified-Spared e.id q h) λ id r g.
            on_table (λ s. record r { webhook_events = s }) (insert_new _ _ r.webhook_events)
              λ s. g)

      pub add_opt_out-Spared : (o : WhatsAppOptOut) → Spared (add_opt_out new_id now o q)
      unfolding add_opt_out
      add_opt_out-Spared o = in_turn _ _ (identified-Spared o.id q h) λ id r g.
          in_turn _ _
            (Post-lift (λ u. IsSpared) IsSpared (λ s. record r { opt_outs = s }) _
              (Post-put _ _ _ _ r.opt_outs g (still_opted _ _ r.opt_outs.table g.0, g.1)))
            λ u r' g'. g'

      pub add_consent_ledger-Spared :
          (e : ConsentLedgerEntry) → Spared (add_consent_ledger new_id now e q)
      unfolding add_consent_ledger
      add_consent_ledger-Spared e = in_turn _ _ (identified-Spared e.id q h) λ id r g.
          in_turn _ _
            (on_table (λ s. record r { consent_ledger = s }) (put _ _ r.consent_ledger) λ s. g)
            λ u r' g'. g'

      pub add_outbox_event-Spared : (e : OutboxEvent) → Spared (add_outbox_event new_id now e q)
      unfolding add_outbox_event
      add_outbox_event-Spared e = in_turn _ _ (identified-Spared e.id q h) λ id r g.
          in_turn _ _ (on_table (λ s. record r { outbox = s }) (put _ _ r.outbox) λ s. g)
            λ u r' g'. g'

      pub add_usage_event-Spared : (e : UsageEvent) → Spared (add_usage_event new_id now e q)
      unfolding add_usage_event
      add_usage_event-Spared e = in_turn _ _ (identified-Spared e.id q h) λ id r g.
          in_turn _ _
            (on_table (λ s. record r { usage_events = s }) (put _ _ r.usage_events) λ s. g)
            λ u r' g'. g'

      pub enqueue_retry-Spared : (t : RetryTask) → Spared (enqueue_retry new_id now t q)
      unfolding enqueue_retry
      enqueue_retry-Spared t = in_turn _ _ (identified-Spared t.id q h) λ id r g.
          in_turn _ _ (on_table (λ s. record r { retries = s }) (put _ _ r.retries) λ s. g)
            λ u r' g'. g'
