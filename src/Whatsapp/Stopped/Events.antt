-- ===== src/Whatsapp/Stopped/Events.antt =====
-- internal/service/service.go: webhooks and templates call nobody, and take no opt-out back.
use lead.Prelude.{
  ℕ, String, Bool, true, false, ◌||◌, Option, none, some, List, [], ◌∷◌, if◌then◌else◌, ◌==◌,
  string_eq, Result, ok, err, rate_limited, not_found, backend, rejected, malformed, limit_reached,
  opted_out, consent_blocked, outside_service_window, claim_blocked, invalid_signature,
}
use lead.Pgkv.{Action, pure, throw}
use lead.Whatsapp.Model.{Template, Thread, RemoteTemplate, Services, validate_category, prebuilt}
use lead.Whatsapp.Durable.{Tables, Accepted}
use lead.Whatsapp.Webhook.{NormalizedEvent, reply, opt_out, delivery, read_event}
use lead.Whatsapp.Service.{
  register_template, register_all, seed_prebuilt_templates, merge_one, merge_all, synced,
  sync_templates,
}
use lead.Whatsapp.Inbound.{
  or_absent, verify_signature, inbound_thread, thread_for_inbound, record_opt_out, reply_message,
  opt_out_of, apply_reply, apply_status, apply_webhook_event, if_new, named, process_event,
  process_events, whose, process_webhook,
}
use lead.Whatsapp.Stopped.{
  IsSpared, Spared, in_turn, branch, find_thread_by_phone-Spared, find_template_by_name-Spared,
  get_credential-Spared, save_template-Spared, save_thread-Spared, save_message-Spared,
  record_webhook_event-Spared, add_opt_out-Spared, add_consent_ledger-Spared,
  add_outbox_event-Spared,
}
use lead.Whatsapp.Stopped.Checks.{lift_result-Spared, attempt-Spared, enqueue-Spared}

module _ (k : String) (base : List Accepted) where
  or_absent-Spared :
      (r : Result Thread) (q : Tables) → IsSpared k base q → Spared k base (or_absent r q)
  or_absent-Spared (ok t) q h = h
  or_absent-Spared (err not_found) q h = h
  or_absent-Spared (err backend) q h = h
  or_absent-Spared (err rejected) q h = h
  or_absent-Spared (err malformed) q h = h
  or_absent-Spared (err limit_reached) q h = h
  or_absent-Spared (err opted_out) q h = h
  or_absent-Spared (err consent_blocked) q h = h
  or_absent-Spared (err outside_service_window) q h = h
  or_absent-Spared (err claim_blocked) q h = h
  or_absent-Spared (err invalid_signature) q h = h
  or_absent-Spared (err (rate_limited n)) q h = h

  module _ (new_id : ℕ → String) (now : ℕ) where
    thread_for_inbound-Spared :
        (e : NormalizedEvent) (q : Tables)
        → IsSpared k base q
        → Spared k base (thread_for_inbound new_id now e q)
    unfolding thread_for_inbound
    thread_for_inbound-Spared e q h =
        in_turn k base _ _
          (or_absent-Spared _ _
            (attempt-Spared k base _ (find_thread_by_phone-Spared k base q h e.tenant_id e.phone)))
          λ found r g. save_thread-Spared k base new_id now r g (inbound_thread new_id now e found)

    record_opt_out-Spared :
        (t : Thread) (e : NormalizedEvent) (q : Tables)
        → IsSpared k base q
        → Spared k base (record_opt_out new_id now t e q)
    unfolding record_opt_out
    record_opt_out-Spared t e q h =
        in_turn k base _ _ (add_opt_out-Spared k base new_id now q h _) λ o r g.
          in_turn k base _ _ (add_consent_ledger-Spared k base new_id now r g _) λ c r' g'.
            in_turn k base _ _ (add_outbox_event-Spared k base new_id now r' g' _) λ n r'' g''. g''

    opt_out_of-Spared :
        (t : Thread) (e : NormalizedEvent) (q : Tables)
        → IsSpared k base q
        → Spared k base (opt_out_of new_id now t e q)
    opt_out_of-Spared t e q h =
        branch k base (e.type == opt_out) (record_opt_out new_id now t e) (pure tt) q
          (record_opt_out-Spared t e q h) h

    apply_reply-Spared :
        (e : NormalizedEvent) (q : Tables)
        → IsSpared k base q
        → Spared k base (apply_reply new_id now e q)
    unfolding apply_reply
    apply_reply-Spared e q h = in_turn k base _ _ (thread_for_inbound-Spared e q h) λ t r g.
        in_turn k base _ _
          (save_message-Spared k base new_id now r g (reply_message new_id now e t))
          λ m r' g'.
            in_turn k base _ _ (add_outbox_event-Spared k base new_id now r' g' _)
              λ o r'' g''. opt_out_of-Spared t e r'' g''

    apply_status-Spared :
        (e : NormalizedEvent) (q : Tables)
        → IsSpared k base q
        → Spared k base (apply_status new_id now e q)
    unfolding apply_status
    apply_status-Spared e q h =
        in_turn k base _ _ (add_outbox_event-Spared k base new_id now q h _) λ o r g. g

    apply_webhook_event-Spared :
        (e : NormalizedEvent) (q : Tables)
        → IsSpared k base q
        → Spared k base (apply_webhook_event new_id now e q)
    unfolding apply_webhook_event
    apply_webhook_event-Spared e q h =
        branch k base (e.type == reply || e.type == opt_out) (apply_reply new_id now e)
          (if e.type == read_event || e.type == delivery
            then apply_status new_id now e
            else pure tt)
          q (apply_reply-Spared e q h)
          (branch k base (e.type == read_event || e.type == delivery) (apply_status new_id now e)
            (pure tt) q (apply_status-Spared e q h) h)

    if_new-Spared :
        (e : NormalizedEvent) (b : Bool) (q : Tables)
        → IsSpared k base q
        → Spared k base (if_new new_id now e b q)
    if_new-Spared e false q h = h
    if_new-Spared e true q h = apply_webhook_event-Spared e q h

    process_event-Spared :
        (body : String) (e : NormalizedEvent) (q : Tables)
        → IsSpared k base q
        → Spared k base (process_event new_id now body e q)
    unfolding process_event
    process_event-Spared body e q h =
        in_turn k base _ _ (record_webhook_event-Spared k base new_id now q h _) (if_new-Spared e)

    process_events-Spared :
        (tenant_id body : String) (es : List NormalizedEvent) (q : Tables)
        → IsSpared k base q
        → Spared k base (process_events new_id now tenant_id body es q)
    unfolding process_events
    process_events-Spared tenant_id body [] q h = h
    process_events-Spared tenant_id body (e ∷ es) q h =
        in_turn k base _ _ (process_event-Spared body (named new_id now tenant_id e) q h)
          λ u r g. process_events-Spared tenant_id body es r g

    module _ (svc : Services) where
      pub process_webhook-Spared :
          (tenant_id body header : String) (es : Option (List NormalizedEvent)) (q : Tables)
          → IsSpared k base q
          → Spared k base (process_webhook new_id now svc tenant_id body header es q)
      unfolding process_webhook
      process_webhook-Spared tenant_id body header none q h = h
      process_webhook-Spared tenant_id body header (some es) q h =
          in_turn k base _ _ (get_credential-Spared k base q h (whose new_id now tenant_id es))
            λ cred r g.
              branch k base (verify_signature svc cred.app_secret body header)
                (process_events new_id now (whose new_id now tenant_id es) body es)
                (throw invalid_signature) r
                (process_events-Spared (whose new_id now tenant_id es) body es r g) g

    pub register_template-Spared :
        (t : Template) (q : Tables)
        → IsSpared k base q
        → Spared k base (register_template new_id now t q)
    unfolding register_template
    register_template-Spared t q h =
        branch k base (t.tenant_id == "" || (t.name == "" || t.language == "")) (throw rejected) _ q
          h
          (in_turn k base _ _ (lift_result-Spared k base (validate_category t.category) q h)
            λ u r g. save_template-Spared k base new_id now r g _)

    register_all-Spared :
        (ts : List Template) (q : Tables)
        → IsSpared k base q
        → Spared k base (register_all new_id now ts q)
    unfolding register_all
    register_all-Spared [] q h = h
    register_all-Spared (t ∷ ts) q h =
        in_turn k base _ _ (register_template-Spared t q h) λ saved r g. register_all-Spared ts r g

    pub seed_prebuilt_templates-Spared :
        (tenant_id : String) (q : Tables)
        → IsSpared k base q
        → Spared k base (seed_prebuilt_templates new_id now tenant_id q)
    unfolding seed_prebuilt_templates
    seed_prebuilt_templates-Spared tenant_id q h = register_all-Spared (prebuilt tenant_id) q h

    merge_one-Spared :
        (svc : Services) (tenant_id : String) (item : RemoteTemplate)
        (rest : Action Tables (List Template)) (valid : Result (Unit {0}))
        → ((q : Tables) → IsSpared k base q → Spared k base (rest q))
        → (q : Tables) → IsSpared k base q
        → Spared k base (merge_one new_id now svc tenant_id item rest valid q)
    unfolding merge_one
    merge_one-Spared svc tenant_id item rest (err e) others q h = others q h
    merge_one-Spared svc tenant_id item rest (ok u) others q h =
        in_turn k base _ _
          (save_template-Spared k base new_id now _
            (attempt-Spared k base _
              (find_template_by_name-Spared k base q h tenant_id item.name item.language))
            _)
          λ saved r g. in_turn k base _ _ (others r g) λ ts r' g'. g'

    merge_all-Spared :
        (svc : Services) (tenant_id : String) (items : List RemoteTemplate) (q : Tables)
        → IsSpared k base q
        → Spared k base (merge_all new_id now svc tenant_id items q)
    unfolding merge_all
    merge_all-Spared svc tenant_id [] q h = h
    merge_all-Spared svc tenant_id (item ∷ items) q h =
        merge_one-Spared svc tenant_id item (merge_all new_id now svc tenant_id items)
          (validate_category item.category) (merge_all-Spared svc tenant_id items) q h

    synced-Spared :
        (svc : Services) (tenant_id : String) (r : Result (List RemoteTemplate)) (q : Tables)
        → IsSpared k base q
        → Spared k base (synced new_id now svc tenant_id r q)
    unfolding synced
    synced-Spared svc tenant_id (ok items) q h = merge_all-Spared svc tenant_id items q h
    synced-Spared svc tenant_id (err e) q h =
        in_turn k base _ _ (enqueue-Spared k base new_id now tenant_id "sync_templates" [] e q h)
          λ u r g. g

    pub sync_templates-Spared :
        (svc : Services) (tenant_id : String) (q : Tables)
        → IsSpared k base q
        → Spared k base (sync_templates new_id now svc tenant_id q)
    unfolding sync_templates
    sync_templates-Spared svc tenant_id q h =
        in_turn k base _ _ (get_credential-Spared k base q h tenant_id)
          λ cred r g. synced-Spared svc tenant_id _ r g
