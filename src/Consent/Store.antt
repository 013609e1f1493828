-- ===== src/Consent/Store.antt =====
-- internal/model/model.go, internal/store/store.go, internal/store/fake.go: the consent ledger, the
-- suppression list and what is known of leads and campaigns.
use lead.Prelude.{
  ℕ, String, Bool, true, false, Option, none, some, List, ◌^^◌, ◌==◌, string_eq, if◌then◌else◌,
  Dict, lookup, insert, erase, values, keep, Result, ok, err, not_found, rejected,
}
use lead.Pgkv.{Action}

-- A basis and a channel are any texts; these are the ones that the code names.
abbrev pub withdrawal : String
withdrawal = "withdrawal"

abbrev pub phone_channel : String
phone_channel = "phone"

-- `none` is the zero time.
pub record ConsentRecord : Type 0 where
  pub id : String
  pub lead_id : String
  pub basis : String
  pub source : String
  pub notice_version : String
  pub evidence_url : String
  pub created_at : Option ℕ
  pub pii_redacted : Bool
  pub redacted_at : Option ℕ

pub record Suppression : Type 0 where
  pub id : String
  pub phone : String
  pub reason : String
  pub ticket_id : String
  pub created_at : ℕ

pub record KnowledgeBase : Type 0 where
  pub approved : Bool
  pub rera_number : String
  pub has_brochure : Bool
  pub has_price_sheet : Bool
  pub has_disclaimers : Bool

-- What the checks ask of a store with states `Q`.
pub record Store (Q : Type 0) : Type 0 where
  pub is_suppressed : String → Action Q Bool
  pub is_opted_out : String → String → Action Q Bool
  pub get_approved_kb : String → Action Q (Option KnowledgeBase)

abbrev pub is_some {ℓ} : {A : Type ℓ} → Option A → Bool
is_some none = false
is_some (some a) = true

abbrev pub opt_out_key : String → String → String
opt_out_key lead_id channel = lead_id ^^ (":" ^^ channel)

abbrev pub time_or : ℕ → Option ℕ → Option ℕ
time_or now none = some now
time_or now (some t) = some t

-- A record that gets an id and a time where it has none.
unfoldable pub completed : String → ℕ → ConsentRecord → ConsentRecord
completed id now rec = record rec {
  id = if rec.id == "" then id else rec.id;
  created_at = time_or now rec.created_at;
}

unfoldable pub redacted : ℕ → ConsentRecord → ConsentRecord
redacted now rec = record rec {
  pii_redacted = true;
  redacted_at = some now;
  evidence_url = "[REDACTED]";
}

-- What a withdrawal writes to the ledger.
abbrev pub withdrawal_of : String → String → String → ConsentRecord
withdrawal_of lead_id channel reason = record {
  id = "";
  lead_id = lead_id;
  basis = withdrawal;
  source = channel;
  notice_version = "withdrawal:" ^^ reason;
  evidence_url = "";
  created_at = none;
  pii_redacted = false;
  redacted_at = none;
}

abbrev pub suppression_of : String → ℕ → String → String → Suppression
suppression_of id now phone reason = record {
  id = id;
  phone = phone;
  reason = reason;
  ticket_id = "";
  created_at = now;
}

-- The in-memory store.
pub record Fake : Type 0 where
  pub ledger : Dict ConsentRecord
  pub suppressions : Dict Suppression
  pub opt_outs : Dict (Unit {0})
  pub kbs : Dict KnowledgeBase
  pub lead_phones : Dict String
  pub erasures : Dict String

abbrev fake_is_suppressed : String → Action Fake Bool
fake_is_suppressed phone f = (ok (is_some (lookup phone f.suppressions)), f)

abbrev fake_is_opted_out : String → String → Action Fake Bool
fake_is_opted_out lead_id channel f =
    (ok (is_some (lookup (opt_out_key lead_id channel) f.opt_outs)), f)

abbrev fake_get_approved_kb : String → Action Fake (Option KnowledgeBase)
fake_get_approved_kb campaign_id f = (ok (lookup campaign_id f.kbs), f)

abbrev pub fake_store : Store Fake
fake_store = record {
  is_suppressed = fake_is_suppressed;
  is_opted_out = fake_is_opted_out;
  get_approved_kb = fake_get_approved_kb;
}

-- `RecordConsent`, with the id that `uuid` makes and the time.
unfoldable pub record_consent : String → ℕ → ConsentRecord → Action Fake (Unit {0})
unfolding completed
record_consent id now rec f =
    let c = completed id now rec in (ok tt, record f { ledger = insert c.id c f.ledger })

-- `UpdateConsent`
unfoldable pub update_consent : String → Action Fake (Unit {0})
update_consent id f = (err rejected, f)

-- `GetConsentTrail`
unfoldable pub get_consent_trail : String → Action Fake (List ConsentRecord)
get_consent_trail lead_id f = (ok (keep (λ r. r.lead_id == lead_id) (values f.ledger)), f)

abbrev pub redact_found : String → ℕ → Option ConsentRecord → Action Fake (Unit {0})
redact_found ledger_id now none f = (err not_found, f)
redact_found ledger_id now (some rec) f =
    (ok tt, record f { ledger = insert ledger_id (redacted now rec) f.ledger })

-- `RedactConsentPII`
unfoldable pub redact_consent_pii : String → ℕ → Action Fake (Unit {0})
unfolding redacted
redact_consent_pii ledger_id now f = redact_found ledger_id now (lookup ledger_id f.ledger) f

-- `AddSuppression`
unfoldable pub add_suppression : String → ℕ → String → String → Action Fake (Unit {0})
add_suppression id now phone reason f = (
  ok tt,
  record f { suppressions = insert phone (suppression_of id now phone reason) f.suppressions },
)

abbrev pub remove_found : String → Option Suppression → Action Fake (Unit {0})
remove_found phone none f = (err not_found, f)
remove_found phone (some s) f = (ok tt, record f { suppressions = erase phone f.suppressions })

-- `RemoveSuppression`
unfoldable pub remove_suppression : String → Action Fake (Unit {0})
remove_suppression phone f = remove_found phone (lookup phone f.suppressions) f

-- The end of a withdrawal: the phone of the lead is suppressed, if there is one.
abbrev pub suppress_phone : String → ℕ → String → Option String → Action Fake (Unit {0})
suppress_phone id now reason none f = (ok tt, f)
suppress_phone id now reason (some phone) f =
    if phone == ""
    then (ok tt, f)
    else add_suppression id now phone ("consent_withdrawn:" ^^ reason) f

-- `WithdrawConsent`, with the ids of the ledger row and of the suppression.
unfoldable pub withdraw_consent :
    String → String → ℕ → String → String → String → Action Fake (Unit {0})
unfolding record_consent add_suppression
withdraw_consent id id' now lead_id channel reason f =
    let (r, f') = record_consent id now (withdrawal_of lead_id channel reason) f in
    suppress_phone id' now reason (lookup lead_id f'.lead_phones) f'

-- `RequestErasure`, with the id that `uuid` makes.
unfoldable pub request_erasure : String → String → Action Fake String
request_erasure id lead_id f =
    let wf_id = "erasure-" ^^ id in
    (ok wf_id, record f { erasures = insert lead_id wf_id f.erasures })

abbrev pub phone_found : Option String → Result String
phone_found none = err not_found
phone_found (some phone) = ok phone

-- `GetLeadPhone`
unfoldable pub get_lead_phone : String → Action Fake String
get_lead_phone lead_id f = (phone_found (lookup lead_id f.lead_phones), f)

-- `SetLeadPhone`
unfoldable pub set_lead_phone : String → String → Fake → Fake
set_lead_phone lead_id phone f = record f { lead_phones = insert lead_id phone f.lead_phones }

-- `SetApprovedKB`
unfoldable pub set_approved_kb : String → KnowledgeBase → Fake → Fake
set_approved_kb campaign_id kb f = record f { kbs = insert campaign_id kb f.kbs }

-- `AddOptOut`
unfoldable pub add_opt_out : String → String → Fake → Fake
add_opt_out lead_id channel f = record f {
  opt_outs = insert (opt_out_key lead_id channel) tt f.opt_outs;
}
