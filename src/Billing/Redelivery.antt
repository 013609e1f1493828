-- ===== src/Billing/Redelivery.antt =====
-- One usage that is reported twice: with a key over both stores, and through the consumer, which sets
-- none (internal/service/service.go, internal/store, cmd/server/consumer.go).
use lead.Prelude.{
  ℕ, ◌+◌, ◌*◌, ◌≡◌, refl, ◌≢◌, subst, sym, ap, ◌∙◌, inl, inr, String, Bool, true, false, ◌||◌, none,
  some, [], arith, ◌==◌, string_eq, eq_iff, string_beq_refl, Dict, lookup, lookup-insert, Result,
  ok, err, backend, Bool-cases,
}
use lead.Pgkv.{and_then, ◌>>◌, pure, next_fails}
use lead.Billing.Store.{
  UsageType, UsageEvent, CostEvent, Summary, Fake, fake_store, plus, summary_or_zero, write_cost,
  record_usage_cost, is_seen,
}
use lead.Billing.Service.{
  CallEvent, cost_for, record_usage, after_record, handle_usage, is_unset, time_or, usage_of,
}
use lead.Billing.Durable.{Tables}
use lead.Billing.Durable
use lead.Billing.Ledger.{after_record-pure-SameBooks, lookup-add_summary}

and_then-pure {κ μ} :
    {Q : Type 0} {A : Type κ} {B : Type μ} (p : Result A × Q) (b : B)
    → (and_then p (λ _. pure b)).1 ≡ p.1
and_then-pure (ok a, q) b = refl
and_then-pure (err e, q) b = refl

-- What the sums of a tenant are.
abbrev pub spent : String → Fake → Summary
spent id f = summary_or_zero (lookup id f.tenant_summary)

module _ (sprint : String → ℕ → String) where
  -- A valid usage without a key is recorded, and nothing after that touches the books.
  record_usage-unkeyed :
      (now : ℕ) (u : UsageEvent) (f : Fake)
      → (u.tenant_id == "") ≡ false
      → is_unset u.type ≡ false
      → (u.idempotency_key == "") ≡ true
      → spent u.tenant_id (record_usage (fake_store sprint) now u f).1
        ≡ plus (spent u.tenant_id f) (cost_for now u).total
  unfolding record_usage cost_for record_usage_cost
  record_usage-unkeyed now u f tenant type key =
      let v = record u { occurred_at = time_or now u.occurred_at } in
      let g = write_cost sprint v (cost_for now v) f in
      let books = after_record-pure-SameBooks sprint now v true (cost_for now v) g in
      rw (tenant, type, key)
        (ap (λ (d : Dict Summary). summary_or_zero (lookup u.tenant_id d)) books.1
          ∙ lookup-add_summary u.tenant_id u.tenant_id (cost_for now u).total f.tenant_summary
          ∙ rw (string_beq_refl u.tenant_id) refl)

  handle_usage-spent :
      (now : ℕ) (type : UsageType) (ev : CallEvent) (f : Fake)
      → (ev.tenant_id == "") ≡ false
      → is_unset type ≡ false
      → spent ev.tenant_id (handle_usage (fake_store sprint) now type (some ev) f).1
        ≡ plus (spent ev.tenant_id f) (cost_for now (usage_of type ev)).total
  unfolding handle_usage
  handle_usage-spent now type ev f tenant kind = rw tenant (
      ap (spent ev.tenant_id)
        (and_then-pure (record_usage (fake_store sprint) now (usage_of type ev) f) tt)
      ∙ record_usage-unkeyed now (usage_of type ev) f tenant kind refl)

  -- The consumer bills an event once for each time that it is delivered: an event that names a tenant
  -- and is handled twice, at any times and for any type of usage that is set, raises the count of that
  -- tenant by two and its total by twice the price of the usage.
  pub handle_usage_twice :
      (now now' : ℕ) (type : UsageType) (ev : CallEvent) (f : Fake)
      → ev.tenant_id ≢ ""
      → is_unset type ≡ false
      → let f1 = (handle_usage (fake_store sprint) now type (some ev) f).1 in
        let f2 = (handle_usage (fake_store sprint) now' type (some ev) f1).1 in
        let price = (cost_for now (usage_of type ev)).total in
        ((spent ev.tenant_id f2).usage_count ≡ (spent ev.tenant_id f).usage_count + 2)
        × ((spent ev.tenant_id f2).total_cost ≡ (spent ev.tenant_id f).total_cost + 2 * price)
  unfolding cost_for
  handle_usage_twice now now' type ev f named kind =
      let tenant : (ev.tenant_id == "") ≡ false = ground (arith, eq_iff ev.tenant_id "") in
      let f1 = (handle_usage (fake_store sprint) now type (some ev) f).1 in
      let e1 = handle_usage-spent now type ev f tenant kind in
      let e2 = handle_usage-spent now' type ev f1 tenant kind in
      rw (e2, e1) (omega arith, omega arith)

  -- The state after a call of the store with a key: the key is there.
  record_usage_cost-seen :
      (u : UsageEvent) (cost : CostEvent) (f : Fake)
      → (u.idempotency_key == "") ≡ false
      → is_seen (lookup u.idempotency_key (record_usage_cost sprint u cost f).1.idempotency) ≡ true
  unfolding record_usage_cost write_cost
  record_usage_cost-seen u cost f key = ground (
    arith,
    lookup-insert u.idempotency_key u.idempotency_key tt f.idempotency,
    string_beq_refl u.idempotency_key,
  )

  finish-seen :
      (now : ℕ) (k : String) (u : UsageEvent) (cost : CostEvent) (p : Result Bool × Fake)
      → is_seen (lookup k p.1.idempotency) ≡ true
      → is_seen (
          lookup k
            (and_then p
              λ created. after_record (fake_store sprint) now u created >> pure cost).1.idempotency)
        ≡ true
  finish-seen now k u cost (err e, f) h = h
  finish-seen now k u cost (ok created, f) h =
      ap (λ (d : Dict (Unit {0})). is_seen (lookup k d))
        (after_record-pure-SameBooks sprint now u created cost f).3
      ∙ h

  record_usage-seen :
      (now : ℕ) (u : UsageEvent) (f : Fake)
      → (u.tenant_id == "") ≡ false
      → is_unset u.type ≡ false
      → (u.idempotency_key == "") ≡ false
      → is_seen (lookup u.idempotency_key (record_usage (fake_store sprint) now u f).1.idempotency)
        ≡ true
  unfolding record_usage
  record_usage-seen now u f tenant type key =
      let v = record u { occurred_at = time_or now u.occurred_at } in
      rw (tenant, type)
        (finish-seen now u.idempotency_key v (cost_for now v)
          (record_usage_cost sprint v (cost_for now v) f)
          (record_usage_cost-seen v (cost_for now v) f key))

  -- A usage whose key has been seen changes nothing.
  record_usage-replayed :
      (now : ℕ) (u : UsageEvent) (f : Fake)
      → (u.idempotency_key == "") ≡ false
      → is_seen (lookup u.idempotency_key f.idempotency) ≡ true
      → (record_usage (fake_store sprint) now u f).1 ≡ f
  unfolding record_usage record_usage_cost after_record
  record_usage-replayed now u f key seen =
      elim (Bool-cases (u.tenant_id == "" || is_unset u.type)) [
        | inl e ↦ rw e refl
        | inr e ↦ rw (e, key, seen) refl
      ]

  -- Over the in-memory store, a valid usage with a key is recorded at most once: a later usage with the same key, whatever else
  -- it says, that comes right after it leaves the store as it is, costs, sums, signals and
  -- all.
  pub record_usage_once :
      (now now' : ℕ) (u u' : UsageEvent) (f : Fake)
      → u.tenant_id ≢ ""
      → is_unset u.type ≡ false
      → u.idempotency_key ≢ ""
      → u'.idempotency_key ≡ u.idempotency_key
      → let f1 = (record_usage (fake_store sprint) now u f).1 in
        (record_usage (fake_store sprint) now' u' f1).1 ≡ f1
  record_usage_once now now' u u' f named kind keyed same =
      let tenant : (u.tenant_id == "") ≡ false = ground (arith, eq_iff u.tenant_id "") in
      let key : (u.idempotency_key == "") ≡ false = ground (arith, eq_iff u.idempotency_key "") in
      let f1 = (record_usage (fake_store sprint) now u f).1 in
      record_usage-replayed now' u' f1 (subst (λ k. (k == "") ≡ false) (sym same) key) (
        subst (λ k. is_seen (lookup k f1.idempotency) ≡ true) (sym same)
          (record_usage-seen now u f tenant kind key))

-- Over the durable store: the key is written before the usage, so that a usage whose first write
-- fails is refused with an error the first time and, when it is sent again with the same key, taken
-- for recorded; no cost is ever written.
pub record_usage_cost_lost :
    (new_id : String → ℕ → String) (u u' : UsageEvent) (cost cost' : CostEvent) (q : Tables)
    → u.idempotency_key ≢ ""
    → u'.idempotency_key ≡ u.idempotency_key
    → lookup u.idempotency_key q.idempotency_keys.table ≡ none
    → q.idempotency_keys.faults ≡ []
    → next_fails q.usage_events.faults ≡ true
    → let first = Durable.record_usage_cost new_id u cost q in
      let again = Durable.record_usage_cost new_id u' cost' first.1 in
      (first.0 ≡ err backend) × (again.0 ≡ ok false) × (again.1.cost_events ≡ q.cost_events)
unfolding Durable.record_usage_cost
record_usage_cost_lost new_id u u' cost cost' q keyed same unseen up fails = ground (
  arith,
  eq_iff u.idempotency_key "",
  eq_iff u'.idempotency_key u.idempotency_key,
  lookup-insert u.idempotency_key u'.idempotency_key tt q.idempotency_keys.table,
  string_beq_refl u.idempotency_key,
)
