-- ===== src/Handoff/Tests.antt =====
-- services/handoff: the theorems and the code on a team of two.
use lead.Prelude.{
  ℕ, ◌≡◌, refl, ◌≢◌, String, true, false, none, some, List, [], ◌∷◌, pos, eq_iff, Result, ok, err,
  lookup, insert, map, sort_by,
}
use lead.Handoff.Store.{
  Salesperson, ScoringSnapshot, hot, self_use, Handoff, pending_ack, acknowledged, SlaEvent, Fake,
  count_open_tasks, list_salespeople,
}
use lead.Handoff.Assignment.{select, goes_first}
use lead.Handoff.Service.{
  CreateHandoffRequest, create_handoff, acknowledge_handoff, reassign_handoff, evaluate_slas,
  sla_duration,
}
use lead.Handoff.Once.{Once}
use lead.Handoff.Alarms.{Op, create_op, evaluate_op, apply_all, apply_all-Once}
use lead.Handoff.Chosen.{Assigned, select_lem}
use lead.Handoff.Reassigned.{reassigned_stays_open}

-- Ids that only name their kind.
abbrev sprint : String → ℕ → String
sprint prefix n = prefix

abbrev no_data : Fake
no_data = record {
  seq = 0;
  reps = [];
  snapshots = [];
  handoffs = [];
  assignments = [];
  tasks = [];
  task_events = [];
  sla_events = [];
}

abbrev ann : Salesperson
ann = record {
  id = "ann";
  tenant_id = "acme";
  team_id = "north";
  manager_id = "max";
  performance_score = pos 150;
  max_open_tasks = pos 1;
  active = true;
}

abbrev bob : Salesperson
bob = record ann { id = "bob"; performance_score = pos 90 }

abbrev a_snapshot : ScoringSnapshot
a_snapshot = record {
  id = "snap";
  tenant_id = "acme";
  lead_id = "lead";
  team_id = "north";
  temperature = hot;
  buyer_type = self_use;
  should_create_site_visit = false;
}

abbrev a_team : Fake
a_team = record no_data {
  reps = ("ann", ann) ∷ ("bob", bob) ∷ [];
  snapshots = ("snap", a_snapshot) ∷ [];
}

abbrev a_request : CreateHandoffRequest
a_request = record {
  tenant_id = "";
  lead_id = "lead";
  reason = "hot lead";
  summary = "";
  scoring_snapshot_id = "snap";
}

abbrev assigned_to : Result Handoff → String
assigned_to (ok h) = h.assigned_user_id
assigned_to (err e) = ""

-- The better salesperson gets the hot lead, and the other one the next, since the first is full.
two_handoffs :
    (assigned_to (create_handoff sprint 0 a_request a_team).0 ≡ "ann")
    × (assigned_to
          (create_handoff sprint 5 a_request (create_handoff sprint 0 a_request a_team).1).0
        ≡ "bob")
unfolding create_handoff lookup select sort_by list_salespeople count_open_tasks goes_first insert
two_handoffs = (refl, refl)

select_lem_example : Assigned a_team (ann ∷ bob ∷ []) (select (ann ∷ bob ∷ []) hot a_team)
select_lem_example = select_lem a_team (ann ∷ bob ∷ []) hot

abbrev some_ops : List Op
some_ops =
    create_op 0 a_request ∷ evaluate_op 301 301 ∷ evaluate_op 700 700 ∷ evaluate_op 1300 1300 ∷ []

abbrev stage_and_type : SlaEvent → String × String
stage_and_type e = (e.stage, e.type)

alarms :
    map stage_and_type (apply_all sprint some_ops a_team).sla_events
    ≡ ("rep", "sla_started")
      ∷ ("rep", "sla_missed")
      ∷ ("manager", "escalated")
      ∷ ("manager", "sla_missed")
      ∷ ("tenant_owner", "alerted")
      ∷ []
unfolding apply_all evaluate_slas create_handoff lookup select sort_by list_salespeople
    count_open_tasks goes_first insert
alarms = refl

apply_all-Once_example : Once "handoff" (apply_all sprint some_ops a_team)
apply_all-Once_example = apply_all-Once sprint "handoff" some_ops a_team refl

abbrev a_handoff : Handoff
a_handoff = record {
  id = "handoff";
  tenant_id = "acme";
  lead_id = "lead";
  reason = "hot lead";
  summary = "";
  scoring_snapshot_id = "snap";
  assigned_user_id = "ann";
  manager_user_id = "max";
  status = pending_ack;
  sla_deadline = some 300;
  created_at = 0;
  acknowledged_at = none;
  escalated_at = none;
}

abbrev handed : Fake
handed = (create_handoff sprint 0 a_request a_team).1

abbrev bob_id : String
bob_id = "bob"

abbrev ann_id : String
ann_id = "ann"

id_set : a_handoff.id ≢ ""
id_set h = let k : false ≡ true = (eq_iff a_handoff.id "").1 h in cc

bob_set : bob_id ≢ ""
bob_set h = let k : false ≡ true = (eq_iff bob_id "").1 h in cc

apart : ann_id ≢ bob_id
apart h = let k : false ≡ true = (eq_iff ann_id bob_id).1 h in cc

ann_still_full : count_open_tasks "ann" handed ≡ 1
unfolding create_handoff lookup select sort_by list_salespeople count_open_tasks goes_first insert
ann_still_full = refl

reassigned_stays_open_example :
    let f1 = (reassign_handoff sprint 100 "handoff" "bob" handed).1 in
    let (r, f2) = acknowledge_handoff sprint 200 "handoff" "bob" f1 in
    (count_open_tasks "ann" f2 ≡ count_open_tasks "ann" handed)
    × ((h' : Handoff) × (r ≡ ok h') × (h'.status ≡ acknowledged) × (h'.assigned_user_id ≡ bob_id))
unfolding create_handoff lookup select sort_by list_salespeople count_open_tasks goes_first insert
    sla_duration
reassigned_stays_open_example =
    reassigned_stays_open sprint 100 200 "bob" "ann" a_handoff handed refl id_set bob_set apart
