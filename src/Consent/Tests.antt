-- ===== src/Consent/Tests.antt =====
-- services/consent-compliance: the theorems and the code on one lead and one campaign.
use lead.Prelude.{
  ◌+◌, ◌*◌, ◌/◌, ◌%◌, ◌≡◌, refl, ◌≢◌, String, true, false, some, List, [], ◌∷◌, eq_iff, lookup,
}
use lead.Pgkv.{up}
use lead.Dispatcher.Window.{Calendar}
use lead.Consent.Store.{KnowledgeBase, Fake, fake_store}
use lead.Consent.Durable.{Tables, durable_store}
use lead.Consent.Durable
use lead.Consent.Gates.{
  calling_window, holiday, trai_140_series, rera_gate, OutreachResult, allowed, blocked,
  OutreachRequest, real_estate, suppression_gate, time_gates, check_trai, opt_out_gate,
  check_rera_gate, check_outreach_allowed, default_window_config,
}
use lead.Consent.Verdict.{Judged, check_outreach_allowed_lem}
use lead.Consent.Withdrawal.{Op, withdraw_op, suppress_op, apply_all, withdrawals_unheard}
use lead.Consent.Faults.{check_outreach_allowed-fails_open}

-- Instants in hours, in one location.
abbrev hours : Calendar (Unit {0})
hours = record {
  utc = tt;
  load_location = λ name. some tt;
  hour = λ t loc. t % 24;
  day = λ t loc. t / 24;
  date = λ d h loc. d * 24 + h;
}

abbrev a_kb : KnowledgeBase
a_kb = record {
  approved = true;
  rera_number = "P-1";
  has_brochure = true;
  has_price_sheet = true;
  has_disclaimers = true;
}

abbrev a_request : OutreachRequest (Unit {0})
a_request = record {
  lead_id = "lead";
  phone = "9100";
  channel = "phone";
  at_time = some 34;
  campaign_id = "camp";
  campaign_type = "real_estate";
  caller_id = "1400123";
  holidays = 60 ∷ [];
  window_cfg = default_window_config hours tt;
}

abbrev empty_store : Fake
empty_store = record {
  ledger = [];
  suppressions = [];
  opt_outs = [];
  kbs = ("camp", a_kb) ∷ [];
  lead_phones = ("lead", "9100") ∷ [];
  erasures = [];
}

verdict : OutreachRequest (Unit {0}) → OutreachResult
verdict req = (check_outreach_allowed hours tt fake_store req empty_store).0

verdicts :
    (verdict a_request ≡ allowed)
    × (verdict (record a_request { at_time = some 32 }) ≡ blocked calling_window)
    × (verdict (record a_request { at_time = some 58 }) ≡ blocked holiday)
    × (verdict (record a_request { caller_id = "14" }) ≡ blocked trai_140_series)
    × (verdict (record a_request { campaign_id = "other" }) ≡ blocked rera_gate)
unfolding verdict check_outreach_allowed suppression_gate opt_out_gate time_gates check_trai
    check_rera_gate lookup
verdicts = (refl, refl, refl, refl, refl)

check_outreach_allowed_lem_example :
    Judged hours tt a_request empty_store
      (check_outreach_allowed hours tt fake_store a_request empty_store).0
check_outreach_allowed_lem_example = check_outreach_allowed_lem hours tt a_request empty_store

abbrev a_phone : String
a_phone = "9100"

full : a_phone ≢ ""
full h = let k : false ≡ true = (eq_iff a_phone "").1 h in cc

abbrev no_tables : Tables
no_tables = record {
  consent_ledger = up [];
  suppressions = up [];
  suppression_removals = up [];
  opt_outs = up [];
  approved_kbs = up [];
  erasures = up [];
  lead_phones = up [];
}

abbrev two_ops : List Op
two_ops = suppress_op "s" 3 "9100" "asked" ∷ withdraw_op "r" "s2" 4 "lead" "phone" "stop" ∷ []

withdrawals_unheard_example :
    ((Durable.withdraw_consent "row" "sup" 7 "lead" "phone" "stop"
        (apply_all two_ops no_tables)).1.suppressions
      ≡ (apply_all two_ops no_tables).suppressions)
    × ((opt_out_gate durable_store "lead" "phone" (apply_all two_ops no_tables)).0 ≡ allowed)
    × ((check_rera_gate durable_store "camp" real_estate (apply_all two_ops no_tables)).0
        ≡ blocked rera_gate)
withdrawals_unheard_example =
    withdrawals_unheard two_ops no_tables "row" "sup" 7 "lead" "phone" "stop" "camp"
      (refl, refl, refl)

abbrev down : Tables
down = record no_tables {
  suppressions = record { table = []; faults = true ∷ [] };
  opt_outs = record { table = []; faults = true ∷ [] };
}

check_outreach_allowed-fails_open_example :
    (check_outreach_allowed hours tt durable_store a_request down).0
    ≡ (check_outreach_allowed hours tt durable_store
        (record a_request { phone = ""; lead_id = "" })
        down).0
check_outreach_allowed-fails_open_example =
    check_outreach_allowed-fails_open hours tt a_request down refl refl
