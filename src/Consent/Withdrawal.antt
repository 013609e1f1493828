-- ===== src/Consent/Withdrawal.antt =====
-- Withdrawals of consent and the check of an outreach that follows (internal/store, with
-- internal/compliance and internal/handler).
use lead.Prelude.{
  ℕ, ◌≡◌, refl, ◌≢◌, String, false, some, List, [], ◌∷◌, ◌^^◌, arith, ◌==◌, string_eq, eq_iff,
  string_beq_refl, ok, lookup, insert, lookup-insert,
}
use lead.Dispatcher.Window.{Calendar}
use lead.Consent.Store.{
  ConsentRecord, Fake, fake_store, withdraw_consent, withdrawal_of, suppression_of, completed,
}
use lead.Consent.Durable.{Tables, durable_store}
use lead.Consent.Durable
use lead.Consent.Gates.{
  suppression, rera_gate, allowed, blocked, OutreachRequest, real_estate, suppression_gate,
  opt_out_gate, check_rera_gate, check_outreach_allowed,
}

-- The state that a withdrawal leaves if the phone is known.
withdraw_consent-known :
    (f : Fake) (id id' : String) (now : ℕ) (lead_id channel reason phone : String)
    → (phone == "") ≡ false
    → lookup lead_id f.lead_phones ≡ some phone
    → withdraw_consent id id' now lead_id channel reason f ≡ (
      ok tt,
      record f {
        ledger = insert id (completed id now (withdrawal_of lead_id channel reason)) f.ledger;
        suppressions =
            insert phone
              (suppression_of id' now phone ("consent_withdrawn:" ^^ reason))
              f.suppressions;
      },
    )
unfolding withdraw_consent
withdraw_consent-known f id id' now lead_id channel reason phone nonempty known =
    rw (known, nonempty) refl

nonempty_test : (s : String) → s ≢ "" → (s == "") ≡ false
nonempty_test s h = ground (arith, eq_iff s "")

-- Over the in-memory store: if the lead's phone is known, a withdrawal on any channel, for any
-- reason, succeeds, puts a row of the withdrawal into the ledger, and from then on every request for
-- that phone is blocked by the suppression list, whatever else the request says.
pub withdraw_consent_lem :
    {L : Type 0} (cal : Calendar L) (ist : L) (req : OutreachRequest L) (f : Fake) (id id' : String)
    (now : ℕ) (lead_id channel reason : String)
    → req.phone ≢ ""
    → lookup lead_id f.lead_phones ≡ some req.phone
    → ((withdraw_consent id id' now lead_id channel reason f).0 ≡ ok tt)
      × (lookup id (withdraw_consent id id' now lead_id channel reason f).1.ledger
          ≡ some (completed id now (withdrawal_of lead_id channel reason)))
      × ((check_outreach_allowed cal ist fake_store req
            (withdraw_consent id id' now lead_id channel reason f).1).0
          ≡ blocked suppression)
unfolding check_outreach_allowed suppression_gate
withdraw_consent_lem cal ist req f id id' now lead_id channel reason nonempty known =
    let full = nonempty_test req.phone nonempty in
    let s = suppression_of id' now req.phone ("consent_withdrawn:" ^^ reason) in
    let rec = completed id now (withdrawal_of lead_id channel reason) in
    rw (withdraw_consent-known f id id' now lead_id channel reason req.phone full known) (
      refl,
      rw (lookup-insert id id rec f.ledger, string_beq_refl id) refl,
      rw (full, lookup-insert req.phone req.phone s f.suppressions, string_beq_refl req.phone) refl,
    )

-- The collections that only the gates read.
abbrev pub Unwritten : Tables → Type 0
Unwritten q = (q.opt_outs.table ≡ []) × (q.approved_kbs.table ≡ []) × (q.lead_phones.table ≡ [])

-- Every call of the service that can write.
pub data Op : Type 0 where
  record_op : String → ℕ → ConsentRecord → Op
  redact_op : String → ℕ → Op
  withdraw_op : String → String → ℕ → String → String → String → Op
  suppress_op : String → ℕ → String → String → Op
  unsuppress_op : String → String → Op
  erase_op : String → String → Op

unfoldable pub apply : Op → Tables → Tables
apply (record_op id now rec) q = (Durable.record_consent id now rec q).1
apply (redact_op id now) q = (Durable.redact_consent_pii id now q).1
apply (withdraw_op id id' now l c r) q = (Durable.withdraw_consent id id' now l c r q).1
apply (suppress_op id now p r) q = (Durable.add_suppression id now p r q).1
apply (unsuppress_op p t) q = (Durable.remove_suppression p t q).1
apply (erase_op id l) q = (Durable.request_erasure id l q).1

unfoldable pub apply_all : List Op → Tables → Tables
unfolding apply
apply_all [] q = q
apply_all (o ∷ os) q = apply_all os (apply o q)

record_consent-Unwritten :
    (id : String) (now : ℕ) (rec : ConsentRecord) (q : Tables)
    → Unwritten q
    → Unwritten (Durable.record_consent id now rec q).1
unfolding Durable.record_consent
record_consent-Unwritten id now rec q h = h

redact_consent_pii-Unwritten :
    (id : String) (now : ℕ) (q : Tables)
    → Unwritten q
    → Unwritten (Durable.redact_consent_pii id now q).1
unfolding Durable.redact_consent_pii
redact_consent_pii-Unwritten id now q h = ground arith

withdraw_consent-Unwritten :
    (id id' : String) (now : ℕ) (l c r : String) (q : Tables)
    → Unwritten q
    → Unwritten (Durable.withdraw_consent id id' now l c r q).1
unfolding Durable.withdraw_consent
withdraw_consent-Unwritten id id' now l c r q h = ground arith

remove_suppression-Unwritten :
    (p t : String) (q : Tables) → Unwritten q → Unwritten (Durable.remove_suppression p t q).1
unfolding Durable.remove_suppression
remove_suppression-Unwritten p t q h = ground arith

request_erasure-Unwritten :
    (id l : String) (q : Tables) → Unwritten q → Unwritten (Durable.request_erasure id l q).1
unfolding Durable.request_erasure
request_erasure-Unwritten id l q h = ground arith

apply-Unwritten : (o : Op) (q : Tables) → Unwritten q → Unwritten (apply o q)
unfolding apply Durable.add_suppression
apply-Unwritten (record_op id now rec) q h = record_consent-Unwritten id now rec q h
apply-Unwritten (redact_op id now) q h = redact_consent_pii-Unwritten id now q h
apply-Unwritten (withdraw_op id id' now l c r) q h = withdraw_consent-Unwritten id id' now l c r q h
apply-Unwritten (suppress_op id now p r) q h = h
apply-Unwritten (unsuppress_op p t) q h = remove_suppression-Unwritten p t q h
apply-Unwritten (erase_op id l) q h = request_erasure-Unwritten id l q h

apply_all-Unwritten : (os : List Op) (q : Tables) → Unwritten q → Unwritten (apply_all os q)
unfolding apply_all
apply_all-Unwritten [] q h = h
apply_all-Unwritten (o ∷ os) q h = apply_all-Unwritten os (apply o q) (apply-Unwritten o q h)

-- A withdrawal where no phone is stored writes no suppression.
withdraw_unknown :
    (id id' : String) (now : ℕ) (lead_id channel reason : String) (q : Tables)
    → q.lead_phones.table ≡ []
    → (Durable.withdraw_consent id id' now lead_id channel reason q).1.suppressions ≡ q.suppressions
unfolding Durable.withdraw_consent lookup
withdraw_unknown id id' now lead_id channel reason q h = ground arith

opt_out_unknown :
    (lead_id channel : String) (q : Tables)
    → q.opt_outs.table ≡ []
    → (opt_out_gate durable_store lead_id channel q).0 ≡ allowed
unfolding opt_out_gate Durable.is_opted_out lookup
opt_out_unknown lead_id channel q h = ground arith

kb_unknown :
    (campaign_id : String) (q : Tables)
    → q.approved_kbs.table ≡ []
    → (check_rera_gate durable_store campaign_id real_estate q).0 ≡ blocked rera_gate
unfolding check_rera_gate Durable.get_approved_kb lookup
kb_unknown campaign_id q h = ground arith

-- Over the durable store, from tables in which no phone of a lead, no opt-out and no knowledge base
-- stands, and after any sequence of the calls that write, with any faults: a withdrawal never adds
-- to the suppression list, whatever lead, channel and reason it names; the gate on opt-outs lets
-- every lead pass; and the gate on knowledge bases blocks every real-estate campaign.
pub withdrawals_unheard :
    (os : List Op) (q : Tables) (id id' : String) (now : ℕ)
    (lead_id channel reason campaign_id : String)
    → Unwritten q
    → ((Durable.withdraw_consent id id' now lead_id channel reason (apply_all os q)).1.suppressions
        ≡ (apply_all os q).suppressions)
      × ((opt_out_gate durable_store lead_id channel (apply_all os q)).0 ≡ allowed)
      × ((check_rera_gate durable_store campaign_id real_estate (apply_all os q)).0
          ≡ blocked rera_gate)
withdrawals_unheard os q id id' now lead_id channel reason campaign_id h =
    let (outs, kbs, phones) = apply_all-Unwritten os q h in
    let q' = apply_all os q in
    (
      withdraw_unknown id id' now lead_id channel reason q' phones,
      opt_out_unknown lead_id channel q' outs,
      kb_unknown campaign_id q' kbs,
    )
