-- ===== src/Billing/Ledger.antt =====
-- internal/service/service.go over internal/store/fake.go: the running sums of the in-memory store
-- against the sums over all costs that internal/store/postgres.go takes.
use lead.Prelude.{
  ℕ, ◌≡◌, refl, ap, ◌∙◌, ◌⊎◌, inl, inr, String, Bool, true, false, ◌||◌, Option, none, some, List,
  [], ◌∷◌, ◌++◌, arith, ℤ, if◌then◌else◌, ◌==◌, string_eq, eq_iff, Dict, lookup, insert,
  lookup-insert, Result, ok, err, Bool-cases,
}
use lead.Pgkv.{Action, and_then, ◌>>◌, pure}
use lead.Billing.Store.{
  UsageEvent, CostEvent, Summary, Caps, set_caps, SignalType, Scope, tenant, campaign, Fake,
  fake_store, no_usage, plus, summary_or_zero, add_summary, named, no_caps, is_seen, new_fake,
  write_cost, record_usage_cost, add_signal, get_summary, get_caps,
}
use lead.Billing.Service.{
  cost_for, emit_cap_signals, evaluate_scope, evaluate_caps, evaluate_runtime_cutoff, after_record,
  record_usage, signal, is_call, check_cap, positive, is_unset, time_or, or_else,
}
use lead.Billing.Durable.{summarize, in_scope}

summarize-append :
    (scope : Scope) (id : String) (s : Summary) (cs : List CostEvent) (c : CostEvent)
    → summarize scope id s (cs ++ (c ∷ [])) ≡ (
        if in_scope scope id c
        then plus (summarize scope id s cs) c.total
        else summarize scope id s cs)
unfolding summarize
summarize-append scope id s [] c = ground arith
summarize-append scope id s (d ∷ cs) c =
    summarize-append scope id (if in_scope scope id d then plus s d.total else s) cs c

pub lookup-add_summary :
    (k id : String) (total : ℕ) (d : Dict Summary)
    → summary_or_zero (lookup id (add_summary k total d)) ≡ (
        if k == id
        then plus (summary_or_zero (lookup id d)) total
        else summary_or_zero (lookup id d))
unfolding add_summary
lookup-add_summary k id total d =
    ground (arith, lookup-insert k id (plus (summary_or_zero (lookup k d)) total) d, eq_iff k id)

-- The sums of one tenant and of one campaign are those over all costs.
abbrev pub Tallied : String → Fake → Type 0
Tallied id f =
    (summary_or_zero (lookup id f.tenant_summary) ≡ summarize tenant id no_usage f.cost_events)
    × ((id ≡ "")
        ⊎ (summary_or_zero (lookup id f.campaign_summary)
            ≡ summarize campaign id no_usage f.cost_events))

-- The same costs, sums and keys.
abbrev pub SameBooks : Fake → Fake → Type 0
SameBooks f g =
    (g.cost_events ≡ f.cost_events)
    × (g.tenant_summary ≡ f.tenant_summary)
    × (g.campaign_summary ≡ f.campaign_summary)
    × (g.idempotency ≡ f.idempotency)

SameBooks-trans : (f g h : Fake) → SameBooks f g → SameBooks g h → SameBooks f h
SameBooks-trans f g h a b = (b.0 ∙ a.0, b.1 ∙ a.1, b.2 ∙ a.2, b.3 ∙ a.3)

-- What follows an action that keeps the books keeps them too.
and_then-SameBooks {κ μ} :
    {A : Type κ} {B : Type μ} (f : Fake) (p : Result A × Fake) (k : Action Fake B)
    → SameBooks f p.1
    → ((g : Fake) → SameBooks g (k g).1)
    → SameBooks f (and_then p (λ _. k)).1
and_then-SameBooks f (ok a, g) k h hk = SameBooks-trans f g (k g).1 h (hk g)
and_then-SameBooks f (err e, g) k h hk = h

SameBooks-Tallied : (id : String) (f g : Fake) → SameBooks f g → Tallied id f → Tallied id g
SameBooks-Tallied id f g b h = rw (b.0, b.1, b.2) h

-- What is asked of the service and of its store: to record a usage, with the time at which it runs, or
-- to set caps.
pub data Request : Type 0 where
  recorded : ℕ → UsageEvent → Request
  capped_at : Caps → Request

module _ (sprint : String → ℕ → String) where
  write_cost-Tallied :
      (id : String) (usage : UsageEvent) (cost : CostEvent) (f : Fake)
      → cost.tenant_id ≡ usage.tenant_id
      → cost.campaign_id ≡ usage.campaign_id
      → Tallied id f
      → Tallied id (write_cost sprint usage cost f)
  unfolding write_cost
  write_cost-Tallied id usage cost f et ec h =
      let c : CostEvent = record cost {
        id = (named sprint "cost" cost.id (named sprint "usage" usage.id f.seq).1).0;
        usage_event_id = (named sprint "usage" usage.id f.seq).0;
      } in
      ground (
        arith,
        summarize-append tenant id no_usage f.cost_events c,
        summarize-append campaign id no_usage f.cost_events c,
        lookup-add_summary usage.tenant_id id cost.total f.tenant_summary,
        lookup-add_summary usage.campaign_id id cost.total f.campaign_summary,
        eq_iff usage.campaign_id "",
        eq_iff usage.campaign_id id,
        eq_iff usage.tenant_id id,
      )

  signal-SameBooks :
      (now : ℕ) (t c : String) (type : SignalType) (used limit : ℤ) (f : Fake)
      → SameBooks f (signal (fake_store sprint) now t c type used limit f).1
  unfolding add_signal
  signal-SameBooks now t c type used limit f = ground arith

  emit_cap_signals-SameBooks :
      (now : ℕ) (t c : String) (cap used : ℕ) (f : Fake)
      → SameBooks f (emit_cap_signals (fake_store sprint) now t c cap used f).1
  unfolding emit_cap_signals add_signal
  emit_cap_signals-SameBooks now t c cap used f = ground arith

  evaluate_scope-SameBooks :
      (now : ℕ) (scope : Scope) (i t c : String) (f : Fake)
      → SameBooks f (evaluate_scope (fake_store sprint) now scope i t c f).1
  unfolding evaluate_scope get_caps
  evaluate_scope-SameBooks now scope i t c f =
      capped scope (positive (or_else no_caps (get_caps t c f).0).monthly)
    where
      capped :
          (sc : Scope) (m : Option ℕ)
          → SameBooks f (check_cap (fake_store sprint) now sc i t c m f).1
      capped sc none = (refl, refl, refl, refl)
      capped tenant (some cap) = unfold get_summary in emit_cap_signals-SameBooks now t c cap _ f
      capped campaign (some cap) = unfold get_summary in emit_cap_signals-SameBooks now t c cap _ f

  evaluate_caps-SameBooks :
      (now : ℕ) (u : UsageEvent) (f : Fake)
      → SameBooks f (evaluate_caps (fake_store sprint) now u f).1
  unfolding evaluate_caps
  evaluate_caps-SameBooks now u f =
      and_then-SameBooks f
        (evaluate_scope (fake_store sprint) now tenant u.tenant_id u.tenant_id "" f) _
        (evaluate_scope-SameBooks now tenant u.tenant_id u.tenant_id "" f)
        (λ g. elim (Bool-cases (u.campaign_id == "")) [
          | inl e ↦ rw e (refl, refl, refl, refl)
          | inr e ↦
              rw e (evaluate_scope-SameBooks now campaign u.campaign_id u.tenant_id u.campaign_id g)
        ])

  evaluate_runtime_cutoff-SameBooks :
      (now : ℕ) (u : UsageEvent) (f : Fake)
      → SameBooks f (evaluate_runtime_cutoff (fake_store sprint) now u f).1
  unfolding evaluate_runtime_cutoff get_caps add_signal
  evaluate_runtime_cutoff-SameBooks now u f = ground arith

  after_record-SameBooks :
      (now : ℕ) (u : UsageEvent) (created : Bool) (f : Fake)
      → SameBooks f (after_record (fake_store sprint) now u created f).1
  unfolding after_record
  after_record-SameBooks now u false f = (refl, refl, refl, refl)
  after_record-SameBooks now u true f =
      and_then-SameBooks f (evaluate_caps (fake_store sprint) now u f) _
        (evaluate_caps-SameBooks now u f)
        (λ g. elim (Bool-cases (is_call u.type)) [
          | inl e ↦ rw e (evaluate_runtime_cutoff-SameBooks now u g)
          | inr e ↦ rw e (refl, refl, refl, refl)
        ])

  record_usage_cost-Tallied :
      (id : String) (usage : UsageEvent) (cost : CostEvent) (f : Fake)
      → cost.tenant_id ≡ usage.tenant_id
      → cost.campaign_id ≡ usage.campaign_id
      → Tallied id f
      → Tallied id (record_usage_cost sprint usage cost f).1
  unfolding record_usage_cost
  record_usage_cost-Tallied id usage cost f et ec h =
      elim (Bool-cases (usage.idempotency_key == "")) [
        | inl e ↦ rw e (write_cost-Tallied id usage cost f et ec h)
        | inr e ↦ elim (Bool-cases (is_seen (lookup usage.idempotency_key f.idempotency))) [
          | inl seen ↦ rw (e, seen) h
          | inr new ↦
              rw (e, new)
                (write_cost-Tallied id usage cost
                  (record f { idempotency = insert usage.idempotency_key tt f.idempotency }) et ec
                  h)
        ]
      ]

  pub after_record-pure-SameBooks :
      (now : ℕ) (u : UsageEvent) (created : Bool) (cost : CostEvent) (f : Fake)
      → SameBooks f (and_then (after_record (fake_store sprint) now u created f) (λ _. pure cost)).1
  after_record-pure-SameBooks now u created cost f =
      and_then-SameBooks f (after_record (fake_store sprint) now u created f) (pure cost)
        (after_record-SameBooks now u created f) (λ g. (refl, refl, refl, refl))

  -- The end of `RecordUsage` once the cost is recorded.
  finish-Tallied :
      (id : String) (now : ℕ) (u : UsageEvent) (cost : CostEvent) (p : Result Bool × Fake)
      → Tallied id p.1
      → Tallied id
          (and_then p λ created. after_record (fake_store sprint) now u created >> pure cost).1
  finish-Tallied id now u cost (err e, f) h = h
  finish-Tallied id now u cost (ok created, f) h =
      SameBooks-Tallied id f
        (and_then (after_record (fake_store sprint) now u created f) (λ _. pure cost)).1
        (after_record-pure-SameBooks now u created cost f) h

  record_usage-Tallied :
      (id : String) (now : ℕ) (usage : UsageEvent) (f : Fake)
      → Tallied id f
      → Tallied id (record_usage (fake_store sprint) now usage f).1
  unfolding record_usage
  record_usage-Tallied id now usage f h =
      let u = record usage { occurred_at = time_or now usage.occurred_at } in
      elim (Bool-cases (usage.tenant_id == "" || is_unset usage.type)) [
        | inl e ↦ rw e h
        | inr e ↦ rw e (
            finish-Tallied id now u (cost_for now u) (record_usage_cost sprint u (cost_for now u) f)
              (record_usage_cost-Tallied id u (cost_for now u) f refl refl h))
      ]

  abbrev pub serve : Request → Fake → Fake
  serve (recorded now u) f = (record_usage (fake_store sprint) now u f).1
  serve (capped_at c) f = set_caps c f

  unfoldable pub record_all : List Request → Fake → Fake
  unfolding record_usage set_caps
  record_all [] f = f
  record_all (r ∷ rs) f = record_all rs (serve r f)

  record_all-Tallied :
      (id : String) (rs : List Request) (f : Fake) → Tallied id f → Tallied id (record_all rs f)
  unfolding record_all set_caps
  record_all-Tallied id [] f h = h
  record_all-Tallied id (recorded now u ∷ rs) f h =
      record_all-Tallied id rs _ (record_usage-Tallied id now u f h)
  record_all-Tallied id (capped_at c ∷ rs) f h = record_all-Tallied id rs (set_caps c f) h

  -- However many usages are recorded and caps set on a new in-memory store, in any order, and whatever
  -- their types, prices, keys and caps: the summary that it answers for a tenant is the one that the
  -- Postgres store would take from the same costs, and so is that of a campaign with a non-empty id.
  pub record_all_summarized :
      (rs : List Request) (id : String)
      → let f = record_all rs new_fake in
        ((get_summary tenant id f).0 ≡ ok (summarize tenant id no_usage f.cost_events))
        × ((id ≡ "")
            ⊎ ((get_summary campaign id f).0 ≡ ok (summarize campaign id no_usage f.cost_events)))
  unfolding get_summary
  record_all_summarized rs id =
      let (h, k) = record_all-Tallied id rs new_fake new_fake-Tallied in
      (ap ok h, elim k [ inl e ↦ inl e | inr c ↦ inr (ap ok c) ])
    where
      new_fake-Tallied : Tallied id new_fake
      new_fake-Tallied = unfold lookup summarize in (refl, inr refl)
