-- ===== src/Billing/Durable.antt =====
-- internal/store/postgres.go: the store over the collections of the key-value table, which keeps every
-- cost and adds them up when it is asked.
use lead.Prelude.{
  ℕ, suc, String, Bool, true, false, ◌||◌, List, [], ◌∷◌, ℤ, pos, ◌+ℤ◌, if◌then◌else◌, ◌==◌,
  string_eq, keep, ok,
}
use lead.Pgkv.{Kv, Action, ◌>>=◌, ◌>>◌, pure, put, get, list, insert_new}
use lead.Billing.Store.{
  UsageEvent, CostEvent, Summary, Caps, Signal, Scope, tenant, campaign, Store, no_usage, plus,
  cap_key, caps_or_zero,
}

pub record CreditLedgerEntry : Type 0 where
  pub id : String
  pub tenant_id : String
  pub amount : ℤ
  pub reason : String
  pub created_at : ℕ

-- `drawn` counts the ids that `NewID` has made.
pub record Tables : Type 0 where
  pub drawn : ℕ
  pub idempotency_keys : Kv (Unit {0})
  pub usage_events : Kv UsageEvent
  pub cost_events : Kv CostEvent
  pub caps : Kv Caps
  pub credits : Kv CreditLedgerEntry
  pub signals : Kv Signal

abbrev pub on_keys {ℓ} : {A : Type ℓ} → Action (Kv (Unit {0})) A → Action Tables A
on_keys m q = let (r, s) = m q.idempotency_keys in (r, record q { idempotency_keys = s })

abbrev pub on_usage {ℓ} : {A : Type ℓ} → Action (Kv UsageEvent) A → Action Tables A
on_usage m q = let (r, s) = m q.usage_events in (r, record q { usage_events = s })

abbrev pub on_costs {ℓ} : {A : Type ℓ} → Action (Kv CostEvent) A → Action Tables A
on_costs m q = let (r, s) = m q.cost_events in (r, record q { cost_events = s })

abbrev pub on_caps {ℓ} : {A : Type ℓ} → Action (Kv Caps) A → Action Tables A
on_caps m q = let (r, s) = m q.caps in (r, record q { caps = s })

abbrev pub on_credits {ℓ} : {A : Type ℓ} → Action (Kv CreditLedgerEntry) A → Action Tables A
on_credits m q = let (r, s) = m q.credits in (r, record q { credits = s })

abbrev pub on_signals {ℓ} : {A : Type ℓ} → Action (Kv Signal) A → Action Tables A
on_signals m q = let (r, s) = m q.signals in (r, record q { signals = s })

-- A cost counts for a scope that it names.
abbrev pub in_scope : Scope → String → CostEvent → Bool
in_scope tenant id c = c.tenant_id == id
in_scope campaign id c = c.campaign_id == id

-- The loop of `GetSummary`.
unfoldable pub summarize : Scope → String → Summary → List CostEvent → Summary
summarize scope id s [] = s
summarize scope id s (c ∷ cs) =
    summarize scope id (if in_scope scope id c then plus s c.total else s) cs

-- `GetSummary`
unfoldable pub get_summary : Scope → String → Action Tables Summary
unfolding list summarize
get_summary scope id = on_costs list >>= λ costs. pure (summarize scope id no_usage costs)

-- `SetCaps`
unfoldable pub set_caps : Caps → Action Tables (Unit {0})
unfolding put
set_caps c = on_caps (put (cap_key c.tenant_id c.campaign_id) c)

-- `GetCaps`
unfoldable pub get_caps : String → String → Action Tables Caps
unfolding get
get_caps tenant_id campaign_id =
    on_caps (get (cap_key tenant_id campaign_id)) >>= λ c. pure (caps_or_zero c)

-- The loop of `GetBalance`.
unfoldable pub balance_of : String → ℤ → List CreditLedgerEntry → ℤ
balance_of tenant_id b [] = b
balance_of tenant_id b (e ∷ es) =
    balance_of tenant_id (if e.tenant_id == tenant_id then b +ℤ e.amount else b) es

-- `GetBalance`
unfoldable pub get_balance : String → Action Tables ℤ
unfolding list balance_of
get_balance tenant_id = on_credits list >>= λ es. pure (balance_of tenant_id (pos 0) es)

-- `ListSignals`; the empty tenant stands for all of them.
unfoldable pub list_signals : String → Action Tables (List Signal)
unfolding list
list_signals tenant_id =
    on_signals list >>= λ ss. pure (keep (λ s. tenant_id == "" || s.tenant_id == tenant_id) ss)

-- `ListCostEvents`
unfoldable pub list_cost_events : String → Action Tables (List CostEvent)
unfolding list
list_cost_events tenant_id =
    on_costs list >>= λ cs. pure (keep (λ c. tenant_id == "" || c.tenant_id == tenant_id) cs)

-- `new_id` is what `NewID` makes of a prefix on its n-th call.
module _ (new_id : String → ℕ → String) where
  abbrev pub draw : String → String → Action Tables String
  draw prefix id q =
      if id == ""
      then (ok (new_id prefix q.drawn), record q { drawn = suc q.drawn })
      else (ok id, q)

  -- What `RecordUsageCost` writes once the key is new.
  unfoldable pub write_cost : UsageEvent → CostEvent → Action Tables Bool
  unfolding put
  write_cost usage cost = draw "usage" usage.id >>= λ usage_id. draw "cost" cost.id >>= λ cost_id.
      on_usage (put usage_id (record usage { id = usage_id }))
      >> on_costs (put cost_id (record cost { id = cost_id; usage_event_id = usage_id }))
      >> pure true

  abbrev pub if_new : UsageEvent → CostEvent → Bool → Action Tables Bool
  if_new usage cost false = pure false
  if_new usage cost true = write_cost usage cost

  -- `RecordUsageCost`
  unfoldable pub record_usage_cost : UsageEvent → CostEvent → Action Tables Bool
  unfolding write_cost insert_new
  record_usage_cost usage cost =
      if usage.idempotency_key == ""
      then write_cost usage cost
      else on_keys (insert_new usage.idempotency_key tt) >>= if_new usage cost

  -- `AddSignal`
  unfoldable pub add_signal : Signal → Action Tables Signal
  unfolding put
  add_signal s = draw "signal" s.id >>= λ id.
      on_signals (put id (record s { id = id })) >> pure (record s { id = id })

  -- `AddCredit`
  unfoldable pub add_credit : CreditLedgerEntry → Action Tables CreditLedgerEntry
  unfolding put
  add_credit e = draw "credit" e.id >>= λ id.
      on_credits (put id (record e { id = id })) >> pure (record e { id = id })

  abbrev pub durable_store : Store Tables
  durable_store = record {
    record_usage_cost = record_usage_cost;
    get_summary = get_summary;
    get_caps = get_caps;
    add_signal = add_signal;
  }
