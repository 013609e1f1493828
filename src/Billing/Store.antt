-- ===== src/Billing/Store.antt =====
-- internal/model/model.go, internal/store/store.go, internal/store/fake.go: usage, costs, caps and
-- signals, and the in-memory store.
use lead.Prelude.{
  ℕ, suc, ◌+◌, String, Bool, true, false, ◌||◌, Option, none, some, List, [], ◌∷◌, ◌++◌, ◌^^◌, ℤ,
  pos, ◌+ℤ◌, if◌then◌else◌, ◌==◌, string_eq, Dict, lookup, insert, keep, ok,
}
use lead.Pgkv.{Action}

-- `unset` is the empty type, and `other` any that the code does not price.
pub data UsageType : Type 0 where
  unset call_completed whatsapp tts stt llm : UsageType
  other : String → UsageType

-- `none` is the zero time.
pub record UsageEvent : Type 0 where
  pub id : String
  pub tenant_id : String
  pub campaign_id : String
  pub type : UsageType
  pub quantity : ℤ
  pub category : String
  pub occurred_at : Option ℕ
  pub idempotency_key : String

pub record CostEvent : Type 0 where
  pub id : String
  pub tenant_id : String
  pub campaign_id : String
  pub usage_event_id : String
  pub type : UsageType
  pub quantity : ℕ
  pub unit_cost : ℕ
  pub total : ℕ
  pub created_at : ℕ

pub record Summary : Type 0 where
  pub usage_count : ℕ
  pub total_cost : ℕ

pub record Caps : Type 0 where
  pub tenant_id : String
  pub campaign_id : String
  pub monthly : ℤ
  pub max_call_seconds : ℤ

pub data SignalType : Type 0 where
  cap_warning cap_reached auto_pause_requested call_cutoff : SignalType

-- The payload holds what was used and the limit on it.
pub record Signal : Type 0 where
  pub id : String
  pub tenant_id : String
  pub campaign_id : String
  pub type : SignalType
  pub used : ℤ
  pub limit : ℤ
  pub created_at : ℕ

pub data Scope : Type 0 where
  tenant campaign : Scope

abbrev pub no_usage : Summary
no_usage = record { usage_count = 0; total_cost = 0 }

abbrev pub no_caps : Caps
no_caps = record { tenant_id = ""; campaign_id = ""; monthly = pos 0; max_call_seconds = pos 0 }

-- What the service asks of a store with states `Q`.
pub record Store (Q : Type 0) : Type 0 where
  pub record_usage_cost : UsageEvent → CostEvent → Action Q Bool
  pub get_summary : Scope → String → Action Q Summary
  pub get_caps : String → String → Action Q Caps
  pub add_signal : Signal → Action Q Signal

-- The key of the caps of a campaign does not hold its tenant.
abbrev pub cap_key : String → String → String
cap_key tenant_id campaign_id =
    if campaign_id == "" then "tenant:" ^^ tenant_id else "campaign:" ^^ campaign_id

-- A summary with one more cost.
abbrev pub plus : Summary → ℕ → Summary
plus s total = record { usage_count = s.usage_count + 1; total_cost = s.total_cost + total }

abbrev pub summary_or_zero : Option Summary → Summary
summary_or_zero none = no_usage
summary_or_zero (some s) = s

-- `addSummary`
unfoldable pub add_summary : String → ℕ → Dict Summary → Dict Summary
add_summary id total d = insert id (plus (summary_or_zero (lookup id d)) total) d

pub record Fake : Type 0 where
  pub seq : ℕ
  pub idempotency : Dict (Unit {0})
  pub cost_events : List CostEvent
  pub tenant_summary : Dict Summary
  pub campaign_summary : Dict Summary
  pub caps : Dict Caps
  pub credits : Dict ℤ
  pub signals : List Signal

-- `NewFake`
abbrev pub new_fake : Fake
new_fake = record {
  seq = 0;
  idempotency = [];
  cost_events = [];
  tenant_summary = [];
  campaign_summary = [];
  caps = [];
  credits = [];
  signals = [];
}

abbrev pub is_seen : Option (Unit {0}) → Bool
is_seen none = false
is_seen (some u) = true

abbrev pub caps_or_zero : Option Caps → Caps
caps_or_zero none = no_caps
caps_or_zero (some c) = c

abbrev pub int_or_zero : Option ℤ → ℤ
int_or_zero none = pos 0
int_or_zero (some z) = z

-- `sprint` is what `fmt.Sprintf` makes of a prefix and a number.
module _ (sprint : String → ℕ → String) where
  -- An id where there is none yet, and the counter after it.
  abbrev pub named : String → String → ℕ → String × ℕ
  named prefix id seq = if id == "" then (sprint prefix (suc seq), suc seq) else (id, seq)

  -- What `RecordUsageCost` writes once the key is new.
  unfoldable pub write_cost : UsageEvent → CostEvent → Fake → Fake
  unfolding add_summary
  write_cost usage cost f =
      let (usage_id, seq1) = named "usage" usage.id f.seq in
      let (cost_id, seq2) = named "cost" cost.id seq1 in
      record f {
        seq = seq2;
        cost_events =
            f.cost_events ++ (record cost { id = cost_id; usage_event_id = usage_id } ∷ []);
        tenant_summary = add_summary usage.tenant_id cost.total f.tenant_summary;
        campaign_summary =
            if usage.campaign_id == ""
            then f.campaign_summary
            else add_summary usage.campaign_id cost.total f.campaign_summary;
      }

  -- `RecordUsageCost`
  unfoldable pub record_usage_cost : UsageEvent → CostEvent → Action Fake Bool
  unfolding write_cost
  record_usage_cost usage cost f =
      if usage.idempotency_key == ""
      then (ok true, write_cost usage cost f)
      else (if is_seen (lookup usage.idempotency_key f.idempotency) then (ok false, f) else (
        ok true,
        write_cost usage cost
            (record f { idempotency = insert usage.idempotency_key tt f.idempotency }),
      ))

  -- `AddSignal`
  unfoldable pub add_signal : Signal → Action Fake Signal
  add_signal s f =
      let (id, seq) = named "signal" s.id f.seq in
      (
        ok (record s { id = id }),
        record f { seq = seq; signals = f.signals ++ (record s { id = id } ∷ []) },
      )

-- `GetSummary`
unfoldable pub get_summary : Scope → String → Action Fake Summary
get_summary tenant id f = (ok (summary_or_zero (lookup id f.tenant_summary)), f)
get_summary campaign id f = (ok (summary_or_zero (lookup id f.campaign_summary)), f)

-- `SetCaps`
unfoldable pub set_caps : Caps → Fake → Fake
set_caps c f = record f { caps = insert (cap_key c.tenant_id c.campaign_id) c f.caps }

-- `GetCaps`
unfoldable pub get_caps : String → String → Action Fake Caps
get_caps tenant_id campaign_id f =
    (ok (caps_or_zero (lookup (cap_key tenant_id campaign_id) f.caps)), f)

-- `AddCredit`: the amount goes to the balance, and the entry itself is not kept.
unfoldable pub add_credit : String → ℤ → Fake → Fake
add_credit tenant_id amount f = record f {
  credits = insert tenant_id (int_or_zero (lookup tenant_id f.credits) +ℤ amount) f.credits;
}

-- `GetBalance`
unfoldable pub get_balance : String → Fake → ℤ
get_balance tenant_id f = int_or_zero (lookup tenant_id f.credits)

-- `ListSignals`; the empty tenant stands for all of them.
unfoldable pub list_signals : String → Fake → List Signal
list_signals tenant_id f = keep (λ s. tenant_id == "" || s.tenant_id == tenant_id) f.signals

-- `ListCostEvents`
unfoldable pub list_cost_events : String → Fake → List CostEvent
list_cost_events tenant_id f = keep (λ c. tenant_id == "" || c.tenant_id == tenant_id) f.cost_events

abbrev pub fake_store : (String → ℕ → String) → Store Fake
fake_store sprint = record {
  record_usage_cost = record_usage_cost sprint;
  get_summary = get_summary;
  get_caps = get_caps;
  add_signal = add_signal sprint;
}
