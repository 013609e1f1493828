-- ===== src/Whatsapp/Tests.antt =====
-- services/whatsapp-adapter: the theorems and the code on one lead, who writes STOP.
use lead.Prelude.{
  ◌≡◌, ◌≢◌, refl, ℕ, zero, suc, String, true, false, none, some, [], ◌∷◌, ok, err, lookup, insert,
  length, opted_out, backend, string_eq,
}
use lead.Pgkv.{up, put, get}
use lead.Whatsapp.Model.{
  Template, VaultCredential, Client, Services, SendTemplateRequest, SendMessageRequest,
  SendFlowRequest, until, validate_category, template_cost,
}
use lead.Whatsapp.Durable.{
  Tables, opt_out_key, get_template, find_thread_by_lead, find_thread_by_phone, get_credential,
  is_opted_out, save_thread, write_thread, identified, save_message, add_opt_out,
  add_consent_ledger, add_outbox_event, add_usage_event,
}
use lead.Whatsapp.Webhook.{
  NormalizedEvent, Texts, RawEvent, opt_out, reply, normalize, from_events, from_event,
  from_entries, completed,
}
use lead.Whatsapp.Service.{ensure_can_contact, ensure_claim_allowed, deliver}
use lead.Whatsapp.Sending.{
  send_template, send_found_template, keep_template, thread_for_outbound, thread_by_phone,
  send_message, send_flow,
}
use lead.Whatsapp.Inbound.{
  thread_for_inbound, apply_reply, apply_webhook_event, record_opt_out, process_event,
}
use lead.Whatsapp.Stopped.{SparedSince}
use lead.Whatsapp.Stopped.Forever.{Request, serve_all, opted_out_forever}
use lead.Whatsapp.Stopped.Heard.{senders_thread, HasOptedOut, stop_is_heard}
use lead.Whatsapp.Closed.{Refused, no_consent_no_call}
use lead.Whatsapp.Redelivered.{with_events, process_event_once}

abbrev letters : ℕ → String
letters zero = ""
letters (suc n) = String.◌∷◌ "x" (letters n)

abbrev accepting : Client
accepting = record { send = λ cred call. ok "wamid"; sync_templates = λ cred. ok [] }

abbrev willing : Services
willing = record {
  check_outreach_allowed = λ r. ok true;
  claims = none;
  meta = accepting;
  demo_meta = accepting;
  demo_tenant = λ t. false;
  signature = λ secret body. "";
}

-- The consent service cannot be reached.
abbrev unreachable : Services
unreachable = record willing { check_outreach_allowed = λ r. err backend }

abbrev a_credential : VaultCredential
a_credential = record {
  tenant_id = "acme";
  phone_number_id = "";
  business_account_id = "";
  access_token = "";
  verify_token = "";
  app_secret = "";
  updated_at = none;
}

abbrev a_template : Template
a_template = record {
  id = "t1";
  tenant_id = "acme";
  name = "hello";
  language = "en";
  category = "utility";
  body = "Hello";
  status = "approved";
  meta_name = "hello";
  variables = [];
  created_at = none;
  updated_at = none;
  synced_at = none;
  remote_id = "";
  remote_note = "";
}

abbrev stored : Tables
stored = record {
  templates = up (("t1", a_template) ∷ []);
  templates_by_name = up [];
  threads = up [];
  threads_by_lead = up [];
  threads_by_phone = up [];
  messages = up [];
  webhook_events = up [];
  opt_outs = up [];
  consent_ledger = up [];
  outbox = up [];
  usage_events = up [];
  credentials = up (("acme", a_credential) ∷ []);
  retries = up [];
  ids_made = 0;
  accepted = [];
}

abbrev to_ann : SendTemplateRequest
to_ann = record {
  tenant_id = "acme";
  project_id = "";
  lead_id = "ann";
  phone = "+911";
  template_id = "t1";
  language = "";
  variables = [];
}

abbrev a_message : SendMessageRequest
a_message = record {
  tenant_id = "acme";
  project_id = "";
  thread_id = "th";
  body = "Hi";
  attachments = [];
}

abbrev a_flow : SendFlowRequest
a_flow = record { tenant_id = "acme"; lead_id = "ann"; phone = "+911"; flow_id = "f"; payload = "" }

abbrev stop_event : NormalizedEvent
stop_event = record {
  id = "e1";
  type = opt_out;
  tenant_id = "acme";
  lead_id = "ann";
  phone = "+911";
  body = "STOP";
  message_id = "e1";
  status = "";
  timestamp = some 50;
}

-- The tables after the STOP.
abbrev stopped : Tables
stopped = (apply_webhook_event letters 60 stop_event stored).1

sent_before : length (send_template letters 60 willing to_ann stored).1.accepted ≡ 1
unfolding send_template send_found_template keep_template thread_for_outbound thread_by_phone
    get_template get_credential is_opted_out ensure_can_contact ensure_claim_allowed deliver
    validate_category template_cost find_thread_by_lead find_thread_by_phone save_thread
    write_thread identified save_message add_usage_event get put lookup insert
sent_before = refl

blocked_after : (send_template letters 70 willing to_ann stopped).0 ≡ err opted_out
unfolding send_template send_found_template get_template is_opted_out ensure_can_contact
    validate_category apply_webhook_event apply_reply thread_for_inbound find_thread_by_phone
    save_thread write_thread identified save_message add_outbox_event record_opt_out add_opt_out
    add_consent_ledger get put lookup insert until
blocked_after = refl

stop_is_heard_example :
    let t = senders_thread letters 60 stop_event stored in
    let q = serve_all letters ((Request.template to_ann, 70, willing) ∷ []) stopped in
    HasOptedOut t stopped
    × HasOptedOut t q
    × SparedSince (opt_out_key t.tenant_id t.lead_id "whatsapp") stopped.accepted q.accepted
unfolding apply_webhook_event apply_reply thread_for_inbound find_thread_by_phone save_thread
    write_thread identified save_message add_outbox_event record_opt_out add_opt_out
    add_consent_ledger get put lookup insert until
stop_is_heard_example =
    stop_is_heard letters 60 stop_event ((Request.template to_ann, 70, willing) ∷ []) stored stopped
      refl refl

abbrev ann_opted : Tables
ann_opted = record stored {
  opt_outs = up (
      (
        opt_out_key "acme" "ann" "whatsapp",
        record {
          id = "o1";
          tenant_id = "acme";
          lead_id = "ann";
          phone = "+911";
          channel = "whatsapp";
          reason = "STOP";
          created_at = some 50;
        },
      )
      ∷ []);
}

opted_out_forever_example :
    let q' = serve_all letters ((Request.template to_ann, 70, willing) ∷ []) ann_opted in
    let k = opt_out_key "acme" "ann" "whatsapp" in
    (lookup k q'.opt_outs.table ≢ none) × (SparedSince k ann_opted.accepted q'.accepted)
unfolding lookup
opted_out_forever_example =
    opted_out_forever letters "acme" "ann" ((Request.template to_ann, 70, willing) ∷ []) ann_opted
      (λ gone. cc)

no_consent_no_call_example :
    Refused stored (send_template letters 60 unreachable to_ann stored)
    × Refused stored (send_message letters 60 unreachable a_message stored)
    × Refused stored (send_flow letters 60 unreachable a_flow stored)
no_consent_no_call_example =
    no_consent_no_call letters 60 unreachable (λ r same. cc) stored to_ann a_message a_flow

process_event_once_example :
    let q' = (process_event letters 60 "" stop_event (with_events stored [])).1 in
    process_event letters 70 "" stop_event q' ≡ (ok tt, record q' { ids_made = suc q'.ids_made })
process_event_once_example =
    process_event_once letters 60 70 "" "" stop_event stop_event stored [] (λ same. cc) refl

-- A body with one reply that says STOP.
abbrev plain_texts : Texts
plain_texts = record {
  trimmed_lower = λ s. "stop";
  parse_rfc3339 = λ s. none;
  sum = λ body byte. "hash";
}

abbrev raw_stop : RawEvent
raw_stop = record {
  id = "";
  type = reply;
  tenant_id = "";
  lead_id = "ann";
  phone = "+911";
  body = "STOP!";
  message_id = "m1";
  status = "";
  timestamp = "";
}

normalized_stop :
    normalize plain_texts "body" 60
      (some (record { tenant_id = "acme"; lead_id = ""; events = raw_stop ∷ []; entry = [] }))
    ≡ some (
        record {
          id = "hash";
          type = opt_out;
          tenant_id = "acme";
          lead_id = "ann";
          phone = "+911";
          body = "STOP!";
          message_id = "m1";
          status = "";
          timestamp = some 60;
        }
        ∷ [])
unfolding normalize from_events from_event from_entries completed
normalized_stop = refl
