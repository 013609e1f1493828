-- ===== src/Picker/Tests.antt =====
-- services/scheduler/internal/picker and internal/store: the theorems and the code on a queue of
-- three leads.
use lead.Prelude.{
  ◌≡◌, refl, String, none, some, List, [], ◌∷◌, pos, Dict, values, map, ok, err, not_found, sort_by,
  lookup,
}
use lead.Pgkv.{up}
use lead.Picker.Store.{
  Lead, pending, unset, Fake, comes_before, leased, choose, lease_all, pick_and_claim, pick_next,
  add_leads, mark_attempt, get_queue_depth,
}
use lead.Picker.Durable
use lead.Picker.Claims.{Pick, pick_all, AllApart, pick_all-AllApart}
use lead.Picker.Refinement.{Filed, Distinct, pick_and_claim_refines}
use lead.Picker.Races.{Claim, race, race_shares}

abbrev a_lead : Lead
a_lead = record {
  id = "lead-a";
  campaign_id = "camp";
  tenant_id = "tenant";
  priority_score = pos 5;
  last_attempt_at = none;
  retry_count = 0;
  status = unset;
  processing_until = none;
  worker_id = "";
}

abbrev b_lead : Lead
b_lead = record a_lead { id = "lead-b"; priority_score = pos 9; status = pending }

abbrev c_lead : Lead
c_lead = record a_lead { id = "lead-c"; last_attempt_at = some 40; status = pending }

abbrev empty_store : Fake
empty_store = record { leads = []; sessions = [] }

abbrev three_leads : List Lead
three_leads = record a_lead { status = pending } ∷ b_lead ∷ c_lead ∷ []

abbrev a_store : Fake
a_store = record { leads = three_leads; sessions = [] }

abbrev a_table : Dict Lead
a_table =
    ("lead-a", record a_lead { status = pending }) ∷ ("lead-b", b_lead) ∷ ("lead-c", c_lead) ∷ []

abbrev two_calls : List Pick
two_calls =
    record { campaign_id = "camp"; worker_id = "w1"; batch_size = pos 2; now = 100 }
    ∷ record { campaign_id = "camp"; worker_id = "w2"; batch_size = pos 5; now = 900 }
    ∷ []

abbrev ids : List Lead → List String
ids ls = map (λ l. l.id) ls

-- A lead that comes without a status is pending.
add_leads_pending : (add_leads (a_lead ∷ b_lead ∷ c_lead ∷ []) empty_store).leads ≡ three_leads
unfolding add_leads
add_leads_pending = refl

-- The best two go to the first worker, and the one that is left to the second.
pick_next_order :
    map ids (pick_all two_calls a_store) ≡ ("lead-b" ∷ "lead-a" ∷ []) ∷ ("lead-c" ∷ []) ∷ []
unfolding pick_all sort_by comes_before leased
pick_next_order = refl

mark_attempt_unknown : (mark_attempt "call" "failed" 200 a_store).0 ≡ err not_found
unfolding mark_attempt lookup
mark_attempt_unknown = refl

queue_depth_claimed : get_queue_depth "tenant" (pick_next "camp" "w1" (pos 2) 100 a_store).1 ≡ 1
unfolding get_queue_depth pick_next sort_by comes_before leased
queue_depth_claimed = refl

pick_all-AllApart_example : AllApart (pick_all two_calls a_store)
pick_all-AllApart_example = pick_all-AllApart two_calls a_store

a_table-Filed : Filed a_table
a_table-Filed = (refl, (refl, (refl, tt)))

a_table-Distinct : Distinct (values a_table)
a_table-Distinct = ((refl, (refl, tt)), ((refl, tt), (tt, tt)))

pick_and_claim_refines_example :
    (d' : Dict Lead) × (Durable.pick_and_claim "camp" "w1" 2 100 300 (up a_table)
      ≡ (ok (pick_and_claim "camp" "w1" 2 100 300 a_store).0, up d'))
    × (values d' ≡ (pick_and_claim "camp" "w1" 2 100 300 a_store).1.leads)
    × Filed d'
pick_and_claim_refines_example =
    pick_and_claim_refines "camp" "w1" 2 100 300 a_table a_store a_table-Filed a_table-Distinct refl

abbrev first_call : Claim
first_call = record { worker_id = "w1"; batch_size = 2; now = 100; lease_ttl = 300 }

abbrev second_call : Claim
second_call = record first_call { worker_id = "w2" }

race_shares_example : (race "camp" first_call second_call (up a_table)).0 ≡ (
  ok (lease_all "w1" 400 (choose "camp" 2 100 three_leads)),
  ok (lease_all "w2" 400 (choose "camp" 2 100 three_leads)),
)
race_shares_example = race_shares "camp" first_call second_call a_table
