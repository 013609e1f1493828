-- ===== src/Billing/Tests.antt =====
-- services/billing-meter: the theorems and the code on one tenant.
use lead.Prelude.{
  ℕ, ◌≡◌, refl, ◌≢◌, ◌⊎◌, String, true, false, none, some, List, [], ◌∷◌, pos, eq_iff, ok, err,
  backend, lookup, insert, map,
}
use lead.Pgkv.{up}
use lead.Billing.Store.{
  Caps, call_completed, whatsapp, UsageEvent, tenant, campaign, fake_store, new_fake, no_usage,
  get_summary, record_usage_cost, get_caps, add_signal, set_caps, cap_warning, cap_reached,
  auto_pause_requested,
}
use lead.Billing.Service.{CallEvent, cost_for, record_usage}
use lead.Billing.Durable.{Tables, summarize}
use lead.Billing.Durable
use lead.Billing.Ledger.{Request, recorded, capped_at, record_all, record_all_summarized}
use lead.Billing.Redelivery.{record_usage_once, record_usage_cost_lost}

-- Ids that only name their kind.
abbrev sprint : String → ℕ → String
sprint prefix n = prefix

abbrev a_call : UsageEvent
a_call = record {
  id = "";
  tenant_id = "acme";
  campaign_id = "camp";
  type = call_completed;
  quantity = pos 61;
  category = "";
  occurred_at = none;
  idempotency_key = "k1";
}

abbrev a_message : UsageEvent
a_message = record a_call {
  type = whatsapp;
  quantity = pos 2;
  category = "utility";
  idempotency_key = "k2";
}

abbrev usages : List Request
usages = recorded 5 a_call ∷ recorded 6 a_message ∷ recorded 7 a_call ∷ []

-- A cap of three rupees.
abbrev low_cap : Caps
low_cap = record {
  tenant_id = "acme";
  campaign_id = "";
  monthly = pos 300000;
  max_call_seconds = pos 0;
}

-- A call of 61 seconds costs two minutes; two messages cost 0.70; the key of the third is used.
totals :
    (get_summary tenant "acme" (record_all sprint usages new_fake)).0
    ≡ ok (record { usage_count = 2; total_cost = 310000 })
unfolding get_summary record_all lookup record_usage_cost get_caps insert
totals = refl

-- The cap is warned of by the call, and reached with the messages.
signals :
    map (λ s. s.type) (record_all sprint (capped_at low_cap ∷ usages) new_fake).signals
    ≡ cap_warning ∷ cap_warning ∷ cap_reached ∷ auto_pause_requested ∷ []
unfolding set_caps record_all record_usage_cost lookup get_caps insert get_summary add_signal
signals = refl

abbrev acme : String
acme = "acme"

record_all_summarized_example :
    let f = record_all sprint (capped_at low_cap ∷ usages) new_fake in
    ((get_summary tenant "acme" f).0 ≡ ok (summarize tenant "acme" no_usage f.cost_events))
    × ((acme ≡ "")
        ⊎ ((get_summary campaign "acme" f).0
            ≡ ok (summarize campaign "acme" no_usage f.cost_events)))
record_all_summarized_example = record_all_summarized sprint (capped_at low_cap ∷ usages) "acme"

abbrev an_event : CallEvent
an_event = record {
  session_id = "s1";
  tenant_id = "acme";
  campaign_id = "camp";
  duration_seconds = pos 61;
  ended_at = some 3;
}

acme_named : acme ≢ ""
acme_named h = let k : false ≡ true = (eq_iff acme "").1 h in cc

abbrev a_key : String
a_key = "k1"

a_key_named : a_key ≢ ""
a_key_named h = let k : false ≡ true = (eq_iff a_key "").1 h in cc

record_usage_once_example :
    let f1 = (record_usage (fake_store sprint) 5 a_call new_fake).1 in
    (record_usage (fake_store sprint) 7 a_call f1).1 ≡ f1
record_usage_once_example =
    record_usage_once sprint 5 7 a_call a_call new_fake acme_named refl a_key_named refl

abbrev failing : Tables
failing = record {
  drawn = 0;
  idempotency_keys = up [];
  usage_events = record { table = []; faults = true ∷ [] };
  cost_events = up [];
  caps = up [];
  credits = up [];
  signals = up [];
}

record_usage_cost_lost_example :
    let first = Durable.record_usage_cost sprint a_call (cost_for 5 a_call) failing in
    let again = Durable.record_usage_cost sprint a_call (cost_for 7 a_call) first.1 in
    (first.0 ≡ err backend) × (again.0 ≡ ok false) × (again.1.cost_events ≡ failing.cost_events)
unfolding lookup
record_usage_cost_lost_example =
    record_usage_cost_lost sprint a_call a_call (cost_for 5 a_call) (cost_for 7 a_call) failing
      a_key_named refl refl refl refl
