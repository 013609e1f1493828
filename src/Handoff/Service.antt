-- ===== src/Handoff/Service.antt =====
-- internal/service/service.go over the in-memory store. `clock` is the service's own clock.
use lead.Prelude.{
  ℕ, ◌+◌, String, Bool, true, false, ◌&&◌, ◌||◌, not, none, some, List, [], ◌∷◌, leb, if◌then◌else◌,
  ◌==◌, string_eq, Result, ok, err, rejected,
}
use lead.Pgkv.{Action, ◌>>=◌, throw}
use lead.Handoff.Store.{
  BuyerType, broker, fake, HandoffStatus, pending_ack, acknowledged, escalated, reassigned,
  suppression_suggested, open_task, Salesperson, ScoringSnapshot, Handoff, Fake, list_salespeople,
  get_scoring_snapshot, get_handoff, list_handoffs, close_tasks_for_handoff, has_sla_event,
  save_handoff, save_lead_assignment, save_task, add_task_event, add_sla_event,
}
use lead.Handoff.Assignment.{is_hot, select}

pub record CreateHandoffRequest : Type 0 where
  pub tenant_id : String
  pub lead_id : String
  pub reason : String
  pub summary : String
  pub scoring_snapshot_id : String

-- `slaDuration`, in seconds: a site visit makes no difference.
unfoldable pub sla_duration : CreateHandoffRequest → ScoringSnapshot → ℕ
sla_duration req snapshot =
    if is_hot snapshot.temperature
    then 300
    else (if req.reason == "site_visit_booking" || snapshot.should_create_site_visit
        then 1800
        else 1800)

abbrev pub is_no_buyer : BuyerType → Bool
is_no_buyer broker = true
is_no_buyer fake = true
is_no_buyer t = false

abbrev pub is_watched : HandoffStatus → Bool
is_watched pending_ack = true
is_watched escalated = true
is_watched s = false

-- `now.Sub(handoff.CreatedAt) >= seconds`
abbrev pub has_waited : ℕ → ℕ → Handoff → Bool
has_waited now seconds h = leb (h.created_at + seconds) now

module _ (sprint : String → ℕ → String) where
  abbrev pub task_event : String → String → String → String → ℕ → Fake → Fake
  task_event tenant_id task_id handoff_id type now = add_task_event sprint (record {
    id = "";
    tenant_id = tenant_id;
    task_id = task_id;
    handoff_id = handoff_id;
    type = type;
    created_at = now;
  })

  abbrev pub sla_event : Handoff → String → String → String → ℕ → Fake → Fake
  sla_event h stage type user_id now = add_sla_event sprint (record {
    id = "";
    tenant_id = h.tenant_id;
    handoff_id = h.id;
    stage = stage;
    type = type;
    user_id = user_id;
    created_at = now;
  })

  -- The handoff that a request asks for, before it has an id.
  abbrev pub new_handoff : CreateHandoffRequest → String → HandoffStatus → ℕ → Handoff
  new_handoff req tenant_id status now = record {
    id = "";
    tenant_id = tenant_id;
    lead_id = req.lead_id;
    reason = req.reason;
    summary = req.summary;
    scoring_snapshot_id = req.scoring_snapshot_id;
    assigned_user_id = "";
    manager_user_id = "";
    status = status;
    sla_deadline = none;
    created_at = now;
    acknowledged_at = none;
    escalated_at = none;
  }

  -- A broker or a fake buyer is handed to nobody.
  unfoldable pub suggest_suppression : CreateHandoffRequest → String → ℕ → Fake → Handoff × Fake
  unfolding save_handoff add_task_event
  suggest_suppression req tenant_id now f =
      let (h, f1) = save_handoff sprint (new_handoff req tenant_id suppression_suggested now) f in
      (h, task_event tenant_id "" h.id "suppression_suggested" now f1)

  -- The writes once a salesperson is found.
  unfoldable pub hand_to :
      CreateHandoffRequest → String → ScoringSnapshot → ℕ → Salesperson → Fake → Handoff × Fake
  unfolding save_handoff save_task save_lead_assignment add_task_event add_sla_event
  hand_to req tenant_id snapshot now rep f =
      let deadline = now + sla_duration req snapshot in
      let (h, f1) =
        save_handoff sprint
          (record (new_handoff req tenant_id pending_ack now) {
            assigned_user_id = rep.id;
            manager_user_id = rep.manager_id;
            sla_deadline = some deadline;
          })
          f in
      let (t, f2) =
        save_task sprint
          (record {
            id = "";
            tenant_id = tenant_id;
            handoff_id = h.id;
            lead_id = req.lead_id;
            user_id = rep.id;
            type = "ack_handoff";
            status = open_task;
            due_at = deadline;
            created_at = now;
            closed_at = none;
          })
          f1 in
      let f3 =
        save_lead_assignment sprint
          (record {
            id = "";
            tenant_id = tenant_id;
            lead_id = req.lead_id;
            user_id = rep.id;
            handoff_id = h.id;
            assigned_at = now;
          })
          f2 in
      (
        h,
        sla_event h "rep" "sla_started" rep.id now
            (task_event tenant_id t.id h.id "handoff_created" now f3),
      )

  abbrev pub on_rep :
      CreateHandoffRequest → String → ScoringSnapshot → ℕ → Result Salesperson → Action Fake Handoff
  on_rep req tenant_id snapshot now (err e) f = (err e, f)
  on_rep req tenant_id snapshot now (ok rep) f =
      let (h, f') = hand_to req tenant_id snapshot now rep f in (ok h, f')

  abbrev pub on_snapshot : CreateHandoffRequest → ℕ → ScoringSnapshot → Action Fake Handoff
  on_snapshot req now snapshot f =
      let tenant_id = if req.tenant_id == "" then snapshot.tenant_id else req.tenant_id in
      if is_no_buyer snapshot.buyer_type
      then (let (h, f') = suggest_suppression req tenant_id now f in (ok h, f'))
      else on_rep req tenant_id snapshot now
          (select (list_salespeople tenant_id snapshot.team_id f) snapshot.temperature f) f

  -- `CreateHandoff`
  unfoldable pub create_handoff : ℕ → CreateHandoffRequest → Action Fake Handoff
  unfolding suggest_suppression hand_to
  create_handoff now req =
      if req.lead_id == "" || req.scoring_snapshot_id == ""
      then throw rejected
      else get_scoring_snapshot req.scoring_snapshot_id >>= on_snapshot req now

  unfoldable pub acknowledge_found : ℕ → String → Handoff → Action Fake Handoff
  unfolding close_tasks_for_handoff save_handoff add_task_event
  acknowledge_found now user_id h f =
      if h.assigned_user_id == user_id
      then (let (h', f') =
            save_handoff sprint (record h { status = acknowledged; acknowledged_at = some now })
              (close_tasks_for_handoff h.id user_id now f) in
          (ok h', task_event h'.tenant_id "" h'.id "handoff_acknowledged" now f'))
      else (err rejected, f)

  -- `AcknowledgeHandoff`
  unfoldable pub acknowledge_handoff : ℕ → String → String → Action Fake Handoff
  unfolding acknowledge_found
  acknowledge_handoff now handoff_id user_id =
      get_handoff handoff_id >>= acknowledge_found now user_id

  -- `escalate`
  unfoldable pub escalate : ℕ → Handoff → Fake → Handoff × Fake
  unfolding save_handoff add_task_event add_sla_event
  escalate clock h f =
      let (h', f') =
        save_handoff sprint (record h { status = escalated; escalated_at = some clock }) f in
      (
        h',
        sla_event h' "manager" "escalated" h'.manager_user_id clock
            (task_event h'.tenant_id "" h'.id "handoff_escalated" clock f'),
      )

  -- `EscalateHandoff`
  unfoldable pub escalate_handoff : ℕ → String → Action Fake Handoff
  unfolding escalate
  escalate_handoff clock handoff_id =
      get_handoff handoff_id >>= λ h f. let (h', f') = escalate clock h f in (ok h', f')

  unfoldable pub reassign_found : ℕ → String → Handoff → Action Fake Handoff
  unfolding save_handoff save_lead_assignment add_task_event
  reassign_found now user_id h f =
      let (h', f1) =
        save_handoff sprint
          (record h {
            assigned_user_id = user_id;
            status = reassigned;
            sla_deadline = some (now + 300);
          })
          f in
      let f2 =
        save_lead_assignment sprint
          (record {
            id = "";
            tenant_id = h'.tenant_id;
            lead_id = h'.lead_id;
            user_id = user_id;
            handoff_id = h'.id;
            assigned_at = now;
          })
          f1 in
      (ok h', task_event h'.tenant_id "" h'.id "handoff_reassigned" now f2)

  -- `ReassignHandoff`
  unfoldable pub reassign_handoff : ℕ → String → String → Action Fake Handoff
  unfolding reassign_found
  reassign_handoff now handoff_id user_id = get_handoff handoff_id >>= reassign_found now user_id

  -- The three stages of a handoff that waits; each event is written once.
  unfoldable pub rep_stage : ℕ → ℕ → Handoff → Fake → Fake
  unfolding escalate add_sla_event has_sla_event
  rep_stage clock now h f =
      if has_waited now 300 h && not (has_sla_event h.id "rep" "sla_missed" f)
      then (escalate clock h (sla_event h "rep" "sla_missed" h.assigned_user_id now f)).1
      else f

  unfoldable pub manager_stage : ℕ → Handoff → Fake → Fake
  unfolding add_sla_event has_sla_event
  manager_stage now h f =
      if has_waited now 600 h && not (has_sla_event h.id "manager" "sla_missed" f)
      then sla_event h "manager" "sla_missed" h.manager_user_id now f
      else f

  unfoldable pub owner_stage : ℕ → Handoff → Fake → Fake
  unfolding add_sla_event has_sla_event
  owner_stage now h f =
      if has_waited now 1200 h && not (has_sla_event h.id "tenant_owner" "alerted" f)
      then sla_event h "tenant_owner" "alerted" "" now f
      else f

  unfoldable pub evaluate_one : ℕ → ℕ → Handoff → Fake → Fake
  unfolding rep_stage manager_stage owner_stage
  evaluate_one clock now h f =
      if is_watched h.status
      then owner_stage now h (manager_stage now h (rep_stage clock now h f))
      else f

  unfoldable pub evaluate_all : ℕ → ℕ → List Handoff → Fake → Fake
  unfolding evaluate_one
  evaluate_all clock now [] f = f
  evaluate_all clock now (h ∷ hs) f = evaluate_all clock now hs (evaluate_one clock now h f)

  -- `EvaluateSLAs`; over this store no write fails.
  unfoldable pub evaluate_slas : ℕ → ℕ → Fake → Fake
  unfolding evaluate_all list_handoffs
  evaluate_slas clock now f = evaluate_all clock now (list_handoffs "" f) f
