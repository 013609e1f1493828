-- ===== src/Whatsapp/Stopped/Heard.antt =====
-- internal/service/service.go: a STOP that was processed is an opt-out from then on.
use lead.Prelude.{
  suc, sym, subst, ◌≡◌, ◌≢◌, refl, arith, inl, inr, ap, ℕ, String, true, Option, none, some, List,
  [], lookup, insert, lookup-insert, Bool-cases, ◌==◌, string_eq, eq_iff, Result, ok, err,
}
use lead.Pgkv.{Action, and_then, put, get-cases}
use lead.Pgkv.Post.{Post, Post-and_then, Post-lift, Post-put, Post-mono}
use lead.Whatsapp.Model.{Thread, WhatsAppOptOut, ConsentLedgerEntry, OutboxEvent, Services}
use lead.Whatsapp.Durable.{
  Tables, key, unless_empty, on_threads, on_leads, on_phones, opt_out_key, identified, add_opt_out,
  add_consent_ledger, add_outbox_event, stamped_thread, save_thread, save_message,
  find_thread_by_phone, write_thread, or_missing,
}
use lead.Whatsapp.Webhook.{NormalizedEvent, reply, opt_out}
use lead.Whatsapp.Inbound.{
  opt_out_record, inbound_thread, or_absent, thread_for_inbound, record_opt_out, reply_message,
  opt_out_of, apply_reply, apply_webhook_event,
}
use lead.Whatsapp.Stopped.{
  SparedSince, IsSpared, Spared, add_consent_ledger-Spared, add_outbox_event-Spared,
}
use lead.Whatsapp.Stopped.Forever.{Request, serve_all, opted_out_forever}

-- Nothing is said of a failure.
abbrev Any : Tables → Type 0
Any q = Unit

abbrev pub HasOptedOut : Thread → Tables → Type 0
HasOptedOut t q = lookup (opt_out_key t.tenant_id t.lead_id "whatsapp") q.opt_outs.table ≢ none

-- What every way of going on gives, the whole gives.
after_all :
    {A B : Type 0} (T : B → Tables → Type 0) (x : Result A × Tables) (f : A → Action Tables B)
    → ((a : A) (q : Tables) → Post T Any (f a q))
    → Post T Any (and_then x f)
after_all T (ok a, q) f next = next a q
after_all T (err e, q) f next = tt

module _ (new_id : ℕ → String) (now : ℕ) where
  add_opt_out-HasOptedOut :
      (t : Thread) (e : NormalizedEvent) (q : Tables)
      → Post (λ o. HasOptedOut t) Any (add_opt_out new_id now (opt_out_record new_id now t e) q)
  unfolding add_opt_out identified
  add_opt_out-HasOptedOut t e q =
      let k = opt_out_key t.tenant_id t.lead_id "whatsapp" in
      let o : WhatsAppOptOut = record (opt_out_record new_id now t e) { id = new_id q.ids_made } in
      let there : lookup k (insert k o q.opt_outs.table) ≢ none =
        λ gone. ground (arith, lookup-insert k k o q.opt_outs.table, eq_iff k k, gone) in
      Post-and_then (λ u. HasOptedOut t) (λ o. HasOptedOut t) Any _ _
        (Post-lift (λ u. HasOptedOut t) Any
          (λ s. record q { ids_made = suc q.ids_made; opt_outs = s }) _
          (Post-put _ _ _ _ q.opt_outs tt there))
        λ u r g. g

  module _ (t : Thread) where
    -- What keeps every opt-out keeps this one.
    kept {ℓ} :
        {A : Type ℓ} (q : Tables) (x : Result A × Tables)
        → (IsSpared (opt_out_key t.tenant_id t.lead_id "whatsapp") q.accepted q
            → Spared (opt_out_key t.tenant_id t.lead_id "whatsapp") q.accepted x)
        → HasOptedOut t q
        → Post (λ a. HasOptedOut t) Any x
    kept q x run h = Post-mono _ _ _ _ x (λ a r g. g.0) (λ r g. tt) (run (h, ([], refl, tt)))

    ledger-HasOptedOut :
        (c : ConsentLedgerEntry) (q : Tables)
        → HasOptedOut t q
        → Post (λ a. HasOptedOut t) Any (add_consent_ledger new_id now c q)
    ledger-HasOptedOut c q =
        kept q (add_consent_ledger new_id now c q)
          λ h. add_consent_ledger-Spared _ _ new_id now q h c

    outbox-HasOptedOut :
        (o : OutboxEvent) (q : Tables)
        → HasOptedOut t q
        → Post (λ a. HasOptedOut t) Any (add_outbox_event new_id now o q)
    outbox-HasOptedOut o q =
        kept q (add_outbox_event new_id now o q) λ h. add_outbox_event-Spared _ _ new_id now q h o

    record_opt_out-HasOptedOut :
        (e : NormalizedEvent) (q : Tables)
        → Post (λ u. HasOptedOut t) Any (record_opt_out new_id now t e q)
    unfolding record_opt_out
    record_opt_out-HasOptedOut e q =
        Post-and_then (λ o. HasOptedOut t) (λ u. HasOptedOut t) Any _ _
          (add_opt_out-HasOptedOut t e q)
          λ o r g.
            Post-and_then (λ c. HasOptedOut t) (λ u. HasOptedOut t) Any _ _
              (ledger-HasOptedOut _ r g)
              λ c r' g'.
                Post-and_then (λ n. HasOptedOut t) (λ u. HasOptedOut t) Any _ _
                  (outbox-HasOptedOut _ r' g') λ n r'' g''. g''

  -- The sender's thread: the one that is stored for the phone, marked as reached, or a new one.
  abbrev pub senders_thread : NormalizedEvent → Tables → Thread
  senders_thread e q =
      inbound_thread new_id now e (lookup (key e.tenant_id e.phone) q.threads_by_phone.table)

  opt_out_of-HasOptedOut :
      (t : Thread) (e : NormalizedEvent) (q : Tables)
      → (e.type == opt_out) ≡ true
      → Post (λ u. HasOptedOut t) Any (opt_out_of new_id now t e q)
  opt_out_of-HasOptedOut t e q is_stop = rw is_stop (record_opt_out-HasOptedOut t e q)

  -- A thread that is stored keeps its tenant and its lead.
  abbrev IsOwned : Thread → Thread → Tables → Type 0
  IsOwned t t' q = (t'.tenant_id ≡ t.tenant_id) × (t'.lead_id ≡ t.lead_id)

  write_thread-same : (t : Thread) (q : Tables) → Post (λ t' r. t' ≡ t) Any (write_thread t q)
  unfolding write_thread
  write_thread-same t q =
      after_all (λ t' r. t' ≡ t) (on_threads (put t.id t) q) _
        λ u r.
          after_all (λ t' r. t' ≡ t)
            (unless_empty t.lead_id (on_leads (put (key t.tenant_id t.lead_id) t)) r) _
            λ u' r'.
              after_all (λ t' r. t' ≡ t)
                (unless_empty t.phone (on_phones (put (key t.tenant_id t.phone) t)) r') _
                λ u'' r''. refl

  save_thread-IsOwned :
      (t : Thread) (q : Tables) → Post (IsOwned t) Any (save_thread new_id now t q)
  unfolding save_thread
  save_thread-IsOwned t q = after_all (IsOwned t) (identified new_id t.id q) _ λ id r.
      Post-mono (λ t' r. t' ≡ stamped_thread now t id) (IsOwned t) Any Any _
        (λ t' r' e. (ap (λ (x : Thread). x.tenant_id) e, ap (λ (x : Thread). x.lead_id) e))
        (λ r' f. tt) (write_thread-same (stamped_thread now t id) r)

  by_row :
      (row : Option Thread) (r : Tables)
      → Post (λ found q. found ≡ row) Any (or_absent (or_missing row r).0 (or_missing row r).1)
  by_row none r = refl
  by_row (some t) r = refl

  -- A read of the phone that ends well tells what is stored for it.
  read_phone :
      (tenant_id phone : String) (q : Tables)
      → Post
          (λ found r. found ≡ lookup (key tenant_id phone) q.threads_by_phone.table)
          Any
          (or_absent
            (find_thread_by_phone tenant_id phone q).0
            (find_thread_by_phone tenant_id phone q).1)
  unfolding find_thread_by_phone
  read_phone tenant_id phone q =
      let k = key tenant_id phone in
      elim (get-cases k q.threads_by_phone) [
        | inl e ↦ rw e tt
        | inr e ↦ rw e (by_row (lookup k q.threads_by_phone.table) _)
      ]

  thread_for_inbound-IsOwned :
      (e : NormalizedEvent) (q : Tables)
      → Post (IsOwned (senders_thread e q)) Any (thread_for_inbound new_id now e q)
  unfolding thread_for_inbound
  thread_for_inbound-IsOwned e q =
      Post-and_then (λ found r. found ≡ lookup (key e.tenant_id e.phone) q.threads_by_phone.table)
        (IsOwned (senders_thread e q)) Any
        (or_absent (find_thread_by_phone e.tenant_id e.phone q).0
          (find_thread_by_phone e.tenant_id e.phone q).1)
        _ (read_phone e.tenant_id e.phone q)
        λ found r same.
          subst
            (λ row.
              Post (IsOwned (inbound_thread new_id now e row)) Any
                (save_thread new_id now (inbound_thread new_id now e found) r))
            same (save_thread-IsOwned (inbound_thread new_id now e found) r)

  owner_opted : (t t' : Thread) (q : Tables) → IsOwned t t' q → HasOptedOut t' q → HasOptedOut t q
  owner_opted t t' q (tenant, lead) there gone = there (
      subst (λ i. lookup (opt_out_key i t'.lead_id "whatsapp") q.opt_outs.table ≡ none) (sym tenant)
        (subst (λ i. lookup (opt_out_key t.tenant_id i "whatsapp") q.opt_outs.table ≡ none)
          (sym lead) gone))

  apply_reply-HasOptedOut :
      (e : NormalizedEvent) (q : Tables)
      → (e.type == opt_out) ≡ true
      → Post (λ u. HasOptedOut (senders_thread e q)) Any (apply_reply new_id now e q)
  unfolding apply_reply
  apply_reply-HasOptedOut e q is_stop =
      let T : Unit {0} → Tables → Type 0 = λ u. HasOptedOut (senders_thread e q) in
      Post-and_then (IsOwned (senders_thread e q)) T Any _ _ (thread_for_inbound-IsOwned e q)
        λ t r own. after_all T (save_message new_id now (reply_message new_id now e t) r) _ λ m r'.
          after_all T (add_outbox_event new_id now _ r') _ λ o r''.
            Post-mono (λ u. HasOptedOut t) T Any Any _
              (λ u s opted. owner_opted (senders_thread e q) t s own opted) (λ s f. tt)
              (opt_out_of-HasOptedOut t e r'' is_stop)

  apply_webhook_event-HasOptedOut :
      (e : NormalizedEvent) (q : Tables)
      → (e.type == opt_out) ≡ true
      → Post (λ u. HasOptedOut (senders_thread e q)) Any (apply_webhook_event new_id now e q)
  unfolding apply_webhook_event
  apply_webhook_event-HasOptedOut e q is_stop = elim (Bool-cases (e.type == reply)) [
    | inl y ↦ rw y (apply_reply-HasOptedOut e q is_stop)
    | inr n ↦ rw (n, is_stop) (apply_reply-HasOptedOut e q is_stop)
  ]

-- A STOP is heard: when an opt-out event is applied without an error, then the lead of the thread
-- that is stored for its phone, or else of the new thread, has opted out; this stays so, and of the
-- calls that Meta accepts from then on, whatever requests and webhooks come, none is for that lead of
-- that tenant.
pub stop_is_heard :
    (new_id : ℕ → String) (now : ℕ) (e : NormalizedEvent) (rs : List (Request × ℕ × Services))
    (q q' : Tables)
    → (e.type == opt_out) ≡ true
    → apply_webhook_event new_id now e q ≡ (ok tt, q')
    → let t = senders_thread new_id now e q in
      HasOptedOut t q'
      × HasOptedOut t (serve_all new_id rs q')
      × SparedSince
          (opt_out_key t.tenant_id t.lead_id "whatsapp")
          q'.accepted
          (serve_all new_id rs q').accepted
stop_is_heard new_id now e rs q q' is_stop done =
    let t = senders_thread new_id now e q in
    let opted : HasOptedOut t q' =
      subst (Post (λ u. HasOptedOut t) Any) done
        (apply_webhook_event-HasOptedOut new_id now e q is_stop) in
    let (still, spared) = opted_out_forever new_id t.tenant_id t.lead_id rs q' opted in
    (opted, still, spared)
