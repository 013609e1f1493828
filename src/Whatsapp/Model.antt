-- ===== src/Whatsapp/Model.antt =====
-- internal/model/model.go, internal/meta/meta.go, internal/consent, internal/claimcontrol: the data
-- of the adapter, and what it asks of the services around it.
use lead.Prelude.{
  ℕ, ◌+◌, String, Bool, false, ◌||◌, Option, none, some, List, [], ◌∷◌, Dict, Result, ok, err,
  rejected, if◌then◌else◌, ◌==◌, string_eq, leb,
}

pub data Direction : Type 0 where
  inbound outbound : Direction

pub data MessageKind : Type 0 where
  text template flow : MessageKind

pub data MessageStatus : Type 0 where
  queued sent delivered read failed received : MessageStatus

-- A category is any text; `none` is the zero time or a nil time.
pub record Template : Type 0 where
  pub id : String
  pub tenant_id : String
  pub name : String
  pub language : String
  pub category : String
  pub body : String
  pub status : String
  pub meta_name : String
  pub variables : List String
  pub created_at : Option ℕ
  pub updated_at : Option ℕ
  pub synced_at : Option ℕ
  pub remote_id : String
  pub remote_note : String

pub record Thread : Type 0 where
  pub id : String
  pub tenant_id : String
  pub lead_id : String
  pub phone : String
  pub last_inbound_at : Option ℕ
  pub service_window_until : Option ℕ
  pub created_at : Option ℕ
  pub updated_at : Option ℕ

pub record Attachment : Type 0 where
  pub type : String
  pub url : String
  pub name : String

pub record Message : Type 0 where
  pub id : String
  pub tenant_id : String
  pub thread_id : String
  pub lead_id : String
  pub phone : String
  pub direction : Direction
  pub kind : MessageKind
  pub body : String
  pub template_id : String
  pub flow_id : String
  pub attachments : List Attachment
  pub status : MessageStatus
  pub meta_message_id : String
  pub created_at : Option ℕ

pub record WebhookEvent : Type 0 where
  pub id : String
  pub tenant_id : String
  pub idempotency_key : String
  pub event_type : String
  pub payload : String
  pub received_at : Option ℕ

pub record WhatsAppOptOut : Type 0 where
  pub id : String
  pub tenant_id : String
  pub lead_id : String
  pub phone : String
  pub channel : String
  pub reason : String
  pub created_at : Option ℕ

-- The values of the payload are texts in every event that the code writes.
pub record OutboxEvent : Type 0 where
  pub id : String
  pub tenant_id : String
  pub subject : String
  pub type : String
  pub payload : Dict String
  pub created_at : Option ℕ

-- Costs are whole numbers of paise.
pub record UsageEvent : Type 0 where
  pub id : String
  pub tenant_id : String
  pub lead_id : String
  pub message_id : String
  pub event_type : String
  pub quantity : ℕ
  pub unit_cost : ℕ
  pub total_cost : ℕ
  pub created_at : Option ℕ

pub record ConsentLedgerEntry : Type 0 where
  pub id : String
  pub tenant_id : String
  pub lead_id : String
  pub channel : String
  pub basis : String
  pub source : String
  pub reason : String
  pub created_at : Option ℕ

pub record VaultCredential : Type 0 where
  pub tenant_id : String
  pub phone_number_id : String
  pub business_account_id : String
  pub access_token : String
  pub verify_token : String
  pub app_secret : String
  pub updated_at : Option ℕ

-- A task to send again; the text of the error is left out.
pub record RetryTask : Type 0 where
  pub id : String
  pub tenant_id : String
  pub operation : String
  pub payload : Dict String
  pub run_after : ℕ
  pub attempts : ℕ
  pub created_at : Option ℕ

pub record SendTemplateRequest : Type 0 where
  pub tenant_id : String
  pub project_id : String
  pub lead_id : String
  pub phone : String
  pub template_id : String
  pub language : String
  pub variables : Dict String

pub record SendMessageRequest : Type 0 where
  pub tenant_id : String
  pub project_id : String
  pub thread_id : String
  pub body : String
  pub attachments : List Attachment

-- The payload is the JSON text of a flow.
pub record SendFlowRequest : Type 0 where
  pub tenant_id : String
  pub lead_id : String
  pub phone : String
  pub flow_id : String
  pub payload : String

pub record OutreachRequest : Type 0 where
  pub tenant_id : String
  pub lead_id : String
  pub phone : String
  pub channel : String
  pub requested_time : ℕ

pub record CheckRequest : Type 0 where
  pub tenant_id : String
  pub project_id : String
  pub lead_id : String
  pub channel : String
  pub text : String

-- What Meta is asked to send, to whom.
pub data Outgoing : Type 0 where
  template_call : String → String → String → Dict String → Outgoing
  text_call : String → String → Outgoing
  flow_call : String → String → String → Outgoing

pub record RemoteTemplate : Type 0 where
  pub name : String
  pub language : String
  pub category : String
  pub status : String
  pub body : String
  pub remote_id : String

-- A client of Meta: a message's id, or an error, for a call; and its list of templates.
pub record Client : Type 0 where
  pub send : VaultCredential → Outgoing → Result String
  pub sync_templates : VaultCredential → Result (List RemoteTemplate)

-- The service's parts outside the adapter. A check answers whether it allows.
pub record Services : Type 0 where
  pub check_outreach_allowed : OutreachRequest → Result Bool
  pub claims : Option (CheckRequest → Result Bool)
  pub meta : Client
  pub demo_meta : Client
  pub demo_tenant : String → Bool
  pub signature : String → String → String

-- `window.ServiceWindow`, in seconds.
abbrev pub service_window : ℕ
service_window = 86400

-- `window.Until`
unfoldable pub until : Option ℕ → Option ℕ
until none = none
until (some t) = some (t + service_window)

-- `window.IsOpen`
unfoldable pub is_open : ℕ → Option ℕ → Bool
is_open now none = false
is_open now (some t) = leb now (t + service_window)

-- `templates.ValidateCategory`
unfoldable pub validate_category : String → Result (Unit {0})
validate_category c =
    if c == "marketing" || (c == "utility" || c == "authentication") then ok tt else err rejected

-- `cost.TemplateCostINR`, in paise.
unfoldable pub template_cost : String → Result ℕ
template_cost c =
    if c == "marketing"
    then ok 78
    else (if c == "utility" then ok 35 else (if c == "authentication" then ok 28 else err rejected))

abbrev prebuilt_one : String → String → String → String → List String → Template
prebuilt_one tenant_id name category body variables = record {
  id = "";
  tenant_id = tenant_id;
  name = name;
  language = "en";
  category = category;
  body = body;
  status = "draft";
  meta_name = "";
  variables = variables;
  created_at = none;
  updated_at = none;
  synced_at = none;
  remote_id = "";
  remote_note = "";
}

-- `templates.Prebuilt`
unfoldable pub prebuilt : String → List Template
prebuilt tenant_id =
    prebuilt_one tenant_id "lead-warm-up" "marketing"
      "Hi {{lead_name}}, thanks for your interest. We can help with {{project_name}}."
      ("lead_name" ∷ "project_name" ∷ [])
    ∷ prebuilt_one tenant_id "site-visit-reminder" "utility"
        "Reminder: your site visit for {{project_name}} is scheduled at {{visit_time}}."
        ("project_name" ∷ "visit_time" ∷ [])
    ∷ prebuilt_one tenant_id "post-call-summary" "utility"
        "Summary of our call: {{summary}}. Reply here for help." ("summary" ∷ [])
    ∷ prebuilt_one tenant_id "handover-intro" "utility"
        "Introducing {{owner_name}} from our team for your next steps." ("owner_name" ∷ [])
    ∷ []
