-- ===== src/Whatsapp/Redelivered.antt =====
-- internal/service/service.go: a webhook that is sent again.
use lead.Prelude.{
  ◌≡◌, ◌≢◌, refl, sym, subst, ◌∙◌, arith, inl, inr, ℕ, suc, String, false, ◌||◌, Option, none, some,
  Dict, lookup, insert, lookup-insert, ◌==◌, string_eq, eq_iff, string_beq_refl, Result, ok, err,
  Bool-cases, Option-cases,
}
use lead.Pgkv.{up, Action, and_then, put, get, insert_new}
use lead.Whatsapp.Model.{
  WebhookEvent, Thread, Message, OutboxEvent, WhatsAppOptOut, ConsentLedgerEntry,
}
use lead.Whatsapp.Durable.{
  Tables, identified, record_webhook_event, key, unless_empty, on_threads, on_leads, on_phones,
  on_messages, on_outbox, on_opt_outs, on_ledger, or_missing, write_thread, stamped_thread,
  save_thread, save_message, add_outbox_event, add_opt_out, add_consent_ledger,
  find_thread_by_phone,
}
use lead.Whatsapp.Webhook.{NormalizedEvent, reply, opt_out, read_event, delivery}
use lead.Whatsapp.Inbound.{
  or_absent, inbound_thread, thread_for_inbound, record_opt_out, opt_out_record, opt_out_of,
  reply_message, apply_reply, apply_status, apply_webhook_event, process_event,
}

-- The tables with a list of recorded events that can be reached; the others may fail.
abbrev pub with_events : Tables → Dict WebhookEvent → Tables
with_events q ws = record q { webhook_events = up ws }

-- An event has an id, under which it is on record.
abbrev IsKnown : Dict WebhookEvent → NormalizedEvent → Type 0
IsKnown ws e = ((e.id == "") ≡ false) × ((w : WebhookEvent) × (lookup e.id ws ≡ some w))

module _ (new_id : ℕ → String) (now : ℕ) where
  known_event :
      (body : String) (e : NormalizedEvent) (q : Tables) (ws : Dict WebhookEvent)
      → IsKnown ws e
      → process_event new_id now body e (with_events q ws)
        ≡ (ok tt, with_events (record q { ids_made = suc q.ids_made }) ws)
  unfolding process_event record_webhook_event identified insert_new
  known_event body e q ws (has_id, (w, there)) = rw (has_id, there) refl

  -- The same of a table that is given by an equation.
  known_again :
      (body : String) (e : NormalizedEvent) (q : Tables) (ws : Dict WebhookEvent)
      → q.webhook_events ≡ up ws
      → IsKnown ws e
      → process_event new_id now body e q ≡ (ok tt, record q { ids_made = suc q.ids_made })
  known_again body e q ws same known =
      subst
        (λ s.
          process_event new_id now body e (record q { webhook_events = s })
          ≡ (ok tt, record q { webhook_events = s; ids_made = suc q.ids_made }))
        (sym same) (known_event body e q ws known)

-- The recorded events after an action are those before it.
abbrev Keeps {ℓ} : {A : Type ℓ} → Result A × Tables → Tables → Type 0
Keeps x q = x.1.webhook_events ≡ q.webhook_events

in_turn {ℓ κ} :
    {A : Type ℓ} {B : Type κ} (x : Result A × Tables) (f : A → Action Tables B) (q : Tables)
    → Keeps x q
    → ((a : A) (r : Tables) → Keeps (f a r) r)
    → Keeps (and_then x f) q
in_turn (ok a, r) f q kept next = next a r ∙ kept
in_turn (err e, r) f q kept next = kept

unless_empty-Keeps :
    (s : String) (m : Action Tables (Unit {0})) (q : Tables)
    → Keeps (m q) q
    → Keeps (unless_empty s m q) q
unless_empty-Keeps s m q kept = elim (Bool-cases (s == "")) [
  | inl e ↦ rw e refl
  | inr e ↦ rw e kept
]

write_thread-Keeps : (t : Thread) (q : Tables) → Keeps (write_thread t q) q
unfolding write_thread
write_thread-Keeps t q = in_turn (on_threads (put t.id t) q) _ q refl λ u r.
    in_turn (unless_empty t.lead_id (on_leads (put (key t.tenant_id t.lead_id) t)) r) _ r
      (unless_empty-Keeps t.lead_id (on_leads (put (key t.tenant_id t.lead_id) t)) r refl)
      λ u' r'.
        in_turn (unless_empty t.phone (on_phones (put (key t.tenant_id t.phone) t)) r') _ r'
          (unless_empty-Keeps t.phone (on_phones (put (key t.tenant_id t.phone) t)) r' refl)
          λ u'' r''. refl

or_absent-Keeps : (x : Result Thread) (q : Tables) → Keeps (or_absent x q) q
or_absent-Keeps (ok t) q = refl
or_absent-Keeps (err e) q = ground arith

or_missing-Keeps : (found : Option Thread) (q : Tables) → Keeps (or_missing found q) q
or_missing-Keeps none q = refl
or_missing-Keeps (some t) q = refl

module _ (new_id : ℕ → String) where
  identified-Keeps : (id : String) (q : Tables) → Keeps (identified new_id id q) q
  unfolding identified
  identified-Keeps id q = elim (Bool-cases (id == "")) [ inl e ↦ rw e refl | inr e ↦ rw e refl ]

  module _ (now : ℕ) where
    save_message-Keeps : (m : Message) (q : Tables) → Keeps (save_message new_id now m q) q
    unfolding save_message
    save_message-Keeps m q =
        in_turn _ _ q (identified-Keeps m.id q)
          λ id r. in_turn (on_messages (put id _) r) _ r refl λ u s. refl

    add_outbox_event-Keeps :
        (o : OutboxEvent) (q : Tables) → Keeps (add_outbox_event new_id now o q) q
    unfolding add_outbox_event
    add_outbox_event-Keeps o q =
        in_turn _ _ q (identified-Keeps o.id q)
          λ id r. in_turn (on_outbox (put id _) r) _ r refl λ u s. refl

    add_opt_out-Keeps : (o : WhatsAppOptOut) (q : Tables) → Keeps (add_opt_out new_id now o q) q
    unfolding add_opt_out
    add_opt_out-Keeps o q =
        in_turn _ _ q (identified-Keeps o.id q)
          λ id r. in_turn (on_opt_outs (put _ _) r) _ r refl λ u s. refl

    add_consent_ledger-Keeps :
        (c : ConsentLedgerEntry) (q : Tables) → Keeps (add_consent_ledger new_id now c q) q
    unfolding add_consent_ledger
    add_consent_ledger-Keeps c q =
        in_turn _ _ q (identified-Keeps c.id q)
          λ id r. in_turn (on_ledger (put id _) r) _ r refl λ u s. refl

    find_thread-Keeps :
        (tenant_id phone : String) (q : Tables) → Keeps (find_thread_by_phone tenant_id phone q) q
    unfolding find_thread_by_phone
    find_thread-Keeps tenant_id phone q =
        in_turn (on_phones (get (key tenant_id phone)) q) _ q refl or_missing-Keeps

    save_thread-Keeps : (t : Thread) (q : Tables) → Keeps (save_thread new_id now t q) q
    unfolding save_thread
    save_thread-Keeps t q =
        in_turn (identified new_id t.id q) _ q (identified-Keeps t.id q)
          λ id r. write_thread-Keeps (stamped_thread now t id) r

    thread_for_inbound-Keeps :
        (e : NormalizedEvent) (q : Tables) → Keeps (thread_for_inbound new_id now e q) q
    unfolding thread_for_inbound
    thread_for_inbound-Keeps e q =
        let x = find_thread_by_phone e.tenant_id e.phone q in
        in_turn (or_absent x.0 x.1)
          (λ found. save_thread new_id now (inbound_thread new_id now e found)) q
          (or_absent-Keeps x.0 x.1 ∙ find_thread-Keeps e.tenant_id e.phone q)
          λ found s. save_thread-Keeps (inbound_thread new_id now e found) s

    record_opt_out-Keeps :
        (t : Thread) (e : NormalizedEvent) (q : Tables) → Keeps (record_opt_out new_id now t e q) q
    unfolding record_opt_out
    record_opt_out-Keeps t e q =
        in_turn (add_opt_out new_id now (opt_out_record new_id now t e) q) _ q
          (add_opt_out-Keeps _ q)
          λ o r.
            in_turn (add_consent_ledger new_id now _ r) _ r (add_consent_ledger-Keeps _ r) λ c r'.
              in_turn (add_outbox_event new_id now _ r') _ r' (add_outbox_event-Keeps _ r')
                λ n s. refl

    opt_out_of-Keeps :
        (t : Thread) (e : NormalizedEvent) (q : Tables) → Keeps (opt_out_of new_id now t e q) q
    opt_out_of-Keeps t e q = elim (Bool-cases (e.type == opt_out)) [
      | inl stop ↦ rw stop (record_opt_out-Keeps t e q)
      | inr other ↦ rw other refl
    ]

    apply_reply-Keeps : (e : NormalizedEvent) (q : Tables) → Keeps (apply_reply new_id now e q) q
    unfolding apply_reply
    apply_reply-Keeps e q =
        in_turn (thread_for_inbound new_id now e q) _ q (thread_for_inbound-Keeps e q) λ t r.
          in_turn (save_message new_id now (reply_message new_id now e t) r) _ r
            (save_message-Keeps _ r)
            λ m r'.
              in_turn (add_outbox_event new_id now _ r') (λ o. opt_out_of new_id now t e) r'
                (add_outbox_event-Keeps _ r') λ o s. opt_out_of-Keeps t e s

    apply_status-Keeps : (e : NormalizedEvent) (q : Tables) → Keeps (apply_status new_id now e q) q
    unfolding apply_status
    apply_status-Keeps e q =
        in_turn (add_outbox_event new_id now _ q) _ q (add_outbox_event-Keeps _ q) λ o s. refl

    apply_webhook_event-Keeps :
        (e : NormalizedEvent) (q : Tables) → Keeps (apply_webhook_event new_id now e q) q
    unfolding apply_webhook_event
    apply_webhook_event-Keeps e q = elim (Bool-cases (e.type == reply || e.type == opt_out)) [
      | inl talks ↦ rw talks (apply_reply-Keeps e q)
      | inr other ↦ rw other (elim (Bool-cases (e.type == read_event || e.type == delivery)) [
        | inl status ↦ rw status (apply_status-Keeps e q)
        | inr neither ↦ rw neither refl
      ])
    ]

    -- After a delivery of an event with an id, it is on record.
    recorded_after :
        (body : String) (e : NormalizedEvent) (q : Tables) (ws : Dict WebhookEvent)
        → (e.id == "") ≡ false
        → (ws' : Dict WebhookEvent) × ((process_event new_id now body e
              (with_events q ws)).1.webhook_events
            ≡ up ws')
          × IsKnown ws' e
    unfolding process_event record_webhook_event identified insert_new
    recorded_after body e q ws has_id = elim (Option-cases (lookup e.id ws)) [
      | inr (w, there) ↦ rw (has_id, there) (ws, refl, (refl, (w, there)))
      | inl new ↦
          let w : WebhookEvent = record {
            id = new_id q.ids_made;
            tenant_id = e.tenant_id;
            idempotency_key = e.id;
            event_type = e.type;
            payload = body;
            received_at = some now;
          } in
          rw (has_id, new)
            (
              insert e.id w ws,
              apply_webhook_event-Keeps e _,
              (refl, (w, ground (arith, lookup-insert e.id e.id w ws, string_beq_refl e.id))),
            )
    ]

-- While the recorded events can be read and written, an event is handled once, even if it was not
-- handled well: however the first delivery of an event with an id ended, with an error of any other
-- table or without one, a later delivery of an event with that id succeeds, applies nothing, and
-- leaves every table as it is. Only an id is made for it.
pub process_event_once :
    (new_id : ℕ → String) (now now' : ℕ) (body body' : String) (e e' : NormalizedEvent) (q : Tables)
    (ws : Dict WebhookEvent)
    → e.id ≢ ""
    → e'.id ≡ e.id
    → let q' = (process_event new_id now body e (with_events q ws)).1 in
      process_event new_id now' body' e' q' ≡ (ok tt, record q' { ids_made = suc q'.ids_made })
process_event_once new_id now now' body body' e e' q ws has_id same =
    let (ws', recorded, known) =
      recorded_after new_id now body e q ws (ground (arith, eq_iff e.id "", has_id)) in
    known_again new_id now' body' e' (process_event new_id now body e (with_events q ws)).1 ws'
      recorded
      (
        subst (λ id. (id == "") ≡ false) (sym same) known.0,
        (known.1.0, subst (λ id. lookup id ws' ≡ some known.1.0) (sym same) known.1.1),
      )
