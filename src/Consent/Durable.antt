-- ===== src/Consent/Durable.antt =====
-- internal/store/postgres.go: the same store over the collections of the key-value table.
use lead.Prelude.{
  ℕ, String, Bool, Option, none, some, List, ◌^^◌, ◌==◌, string_eq, if◌then◌else◌, keep, Result, ok,
  err, not_found, rejected,
}
use lead.Pgkv.{Kv, Action, ◌>>=◌, ◌>>◌, pure, throw, put, get, list, delete}
use lead.Consent.Store.{
  ConsentRecord, Suppression, KnowledgeBase, Store, completed, redacted, withdrawal_of,
  suppression_of, is_some, opt_out_key,
}

-- The collections. `phones` holds the field `phone` of a row of `lead_phones`.
pub record Tables : Type 0 where
  pub consent_ledger : Kv ConsentRecord
  pub suppressions : Kv Suppression
  pub suppression_removals : Kv Suppression
  pub opt_outs : Kv (Unit {0})
  pub approved_kbs : Kv KnowledgeBase
  pub erasures : Kv String
  pub lead_phones : Kv String

abbrev pub on_ledger {ℓ} : {A : Type ℓ} → Action (Kv ConsentRecord) A → Action Tables A
on_ledger m q = let (r, s) = m q.consent_ledger in (r, record q { consent_ledger = s })

abbrev pub on_suppressions {ℓ} : {A : Type ℓ} → Action (Kv Suppression) A → Action Tables A
on_suppressions m q = let (r, s) = m q.suppressions in (r, record q { suppressions = s })

abbrev pub on_removals {ℓ} : {A : Type ℓ} → Action (Kv Suppression) A → Action Tables A
on_removals m q =
    let (r, s) = m q.suppression_removals in (r, record q { suppression_removals = s })

abbrev pub on_opt_outs {ℓ} : {A : Type ℓ} → Action (Kv (Unit {0})) A → Action Tables A
on_opt_outs m q = let (r, s) = m q.opt_outs in (r, record q { opt_outs = s })

abbrev pub on_kbs {ℓ} : {A : Type ℓ} → Action (Kv KnowledgeBase) A → Action Tables A
on_kbs m q = let (r, s) = m q.approved_kbs in (r, record q { approved_kbs = s })

abbrev pub on_erasures {ℓ} : {A : Type ℓ} → Action (Kv String) A → Action Tables A
on_erasures m q = let (r, s) = m q.erasures in (r, record q { erasures = s })

abbrev pub on_phones {ℓ} : {A : Type ℓ} → Action (Kv String) A → Action Tables A
on_phones m q = let (r, s) = m q.lead_phones in (r, record q { lead_phones = s })

abbrev pub found {ℓ} : {A : Type ℓ} → Option A → Action Tables A
found none = throw not_found
found (some a) = pure a

-- `RecordConsent`, with the id that `NewID` makes and the time.
unfoldable pub record_consent : String → ℕ → ConsentRecord → Action Tables (Unit {0})
unfolding completed put
record_consent id now rec = let c = completed id now rec in on_ledger (put c.id c)

-- `UpdateConsent`
unfoldable pub update_consent : String → Action Tables (Unit {0})
update_consent id = throw rejected

-- `GetConsentTrail`
unfoldable pub get_consent_trail : String → Action Tables (List ConsentRecord)
unfolding list
get_consent_trail lead_id = on_ledger list >>= λ recs. pure (keep (λ r. r.lead_id == lead_id) recs)

-- `RedactConsentPII`
unfoldable pub redact_consent_pii : String → ℕ → Action Tables (Unit {0})
unfolding redacted get put
redact_consent_pii ledger_id now =
    on_ledger (get ledger_id) >>= found >>= λ rec. on_ledger (put ledger_id (redacted now rec))

-- `IsSuppressed`
unfoldable pub is_suppressed : String → Action Tables Bool
unfolding get
is_suppressed phone = on_suppressions (get phone) >>= λ s. pure (is_some s)

-- `AddSuppression`, with the id that `NewID` makes and the time.
unfoldable pub add_suppression : String → ℕ → String → String → Action Tables (Unit {0})
unfolding put
add_suppression id now phone reason =
    on_suppressions (put phone (suppression_of id now phone reason))

-- `RemoveSuppression`: what is removed is kept with the ticket.
unfoldable pub remove_suppression : String → String → Action Tables (Unit {0})
unfolding get put delete
remove_suppression phone ticket_id = on_suppressions (get phone) >>= found >>= λ s.
    on_removals (put s.id (record s { ticket_id = ticket_id })) >> on_suppressions (delete phone)

-- `IsOptedOut`
unfoldable pub is_opted_out : String → String → Action Tables Bool
unfolding get
is_opted_out lead_id channel =
    on_opt_outs (get (opt_out_key lead_id channel)) >>= λ o. pure (is_some o)

-- `GetApprovedKB`
unfoldable pub get_approved_kb : String → Action Tables (Option KnowledgeBase)
unfolding get
get_approved_kb campaign_id = on_kbs (get campaign_id)

abbrev pub durable_store : Store Tables
durable_store = record {
  is_suppressed = is_suppressed;
  is_opted_out = is_opted_out;
  get_approved_kb = get_approved_kb;
}

-- `RequestErasure`, with the id that `NewID` makes. The code returns the id also when the write
-- fails, and its only caller drops it then.
unfoldable pub request_erasure : String → String → Action Tables String
unfolding put
request_erasure id lead_id =
    let wf_id = "erasure-" ^^ id in on_erasures (put lead_id wf_id) >> pure wf_id

-- `GetLeadPhone`
unfoldable pub get_lead_phone : String → Action Tables String
unfolding get
get_lead_phone lead_id = on_phones (get lead_id) >>= found

-- The end of a withdrawal: a lead without a phone, or whose phone cannot be read, is let be.
abbrev pub suppress_phone :
    String → ℕ → String → Result String × Tables → Result (Unit {0}) × Tables
suppress_phone id now reason (ok phone, q) =
    if phone == ""
    then (ok tt, q)
    else add_suppression id now phone ("consent_withdrawn:" ^^ reason) q
suppress_phone id now reason (err e, q) = (ok tt, q)

-- `WithdrawConsent`, with the ids of the ledger row and of the suppression.
unfoldable pub withdraw_consent :
    String → String → ℕ → String → String → String → Action Tables (Unit {0})
unfolding record_consent get_lead_phone add_suppression
withdraw_consent id id' now lead_id channel reason =
    record_consent id now (withdrawal_of lead_id channel reason) >>= λ _ q.
    suppress_phone id' now reason (get_lead_phone lead_id q)
