-- ===== src/Handoff/Store.antt =====
-- internal/model/model.go and internal/store/fake.go: salespeople, handoffs, tasks and their events.
-- The payloads of events are not kept.
use lead.Prelude.{
  ℕ, zero, suc, String, Bool, true, false, ◌&&◌, ◌||◌, Option, none, some, List, [], ◌∷◌, ◌++◌, ℤ,
  pos, if◌then◌else◌, ◌==◌, string_eq, Dict, lookup, insert, values, keep, count_if, sort_by,
  text_ltb, Result, ok, err, not_found,
}
use lead.Pgkv.{Action}

pub data Temperature : Type 0 where
  super_hot hot warm cold bad : Temperature

pub data BuyerType : Type 0 where
  self_use investment broker fake : BuyerType

pub data HandoffStatus : Type 0 where
  pending_ack acknowledged escalated reassigned suppression_suggested : HandoffStatus

pub data TaskStatus : Type 0 where
  open_task closed : TaskStatus

-- A score is a whole number of hundredths.
pub record Salesperson : Type 0 where
  pub id : String
  pub tenant_id : String
  pub team_id : String
  pub manager_id : String
  pub performance_score : ℤ
  pub max_open_tasks : ℤ
  pub active : Bool

pub record ScoringSnapshot : Type 0 where
  pub id : String
  pub tenant_id : String
  pub lead_id : String
  pub team_id : String
  pub temperature : Temperature
  pub buyer_type : BuyerType
  pub should_create_site_visit : Bool

-- `none` is the zero time or a `nil` pointer to one.
pub record Handoff : Type 0 where
  pub id : String
  pub tenant_id : String
  pub lead_id : String
  pub reason : String
  pub summary : String
  pub scoring_snapshot_id : String
  pub assigned_user_id : String
  pub manager_user_id : String
  pub status : HandoffStatus
  pub sla_deadline : Option ℕ
  pub created_at : ℕ
  pub acknowledged_at : Option ℕ
  pub escalated_at : Option ℕ

pub record LeadAssignment : Type 0 where
  pub id : String
  pub tenant_id : String
  pub lead_id : String
  pub user_id : String
  pub handoff_id : String
  pub assigned_at : ℕ

pub record Task : Type 0 where
  pub id : String
  pub tenant_id : String
  pub handoff_id : String
  pub lead_id : String
  pub user_id : String
  pub type : String
  pub status : TaskStatus
  pub due_at : ℕ
  pub created_at : ℕ
  pub closed_at : Option ℕ

pub record TaskEvent : Type 0 where
  pub id : String
  pub tenant_id : String
  pub task_id : String
  pub handoff_id : String
  pub type : String
  pub created_at : ℕ

pub record SlaEvent : Type 0 where
  pub id : String
  pub tenant_id : String
  pub handoff_id : String
  pub stage : String
  pub type : String
  pub user_id : String
  pub created_at : ℕ

pub record Fake : Type 0 where
  pub seq : ℕ
  pub reps : Dict Salesperson
  pub snapshots : Dict ScoringSnapshot
  pub handoffs : Dict Handoff
  pub assignments : List LeadAssignment
  pub tasks : Dict Task
  pub task_events : List TaskEvent
  pub sla_events : List SlaEvent

abbrev pub is_open : TaskStatus → Bool
is_open open_task = true
is_open closed = false

abbrev pub nonzero_or : ℤ → ℤ → ℤ
nonzero_or (pos zero) d = d
nonzero_or z d = z

abbrev pub found {ℓ} : {A : Type ℓ} → Option A → Result A
found none = err not_found
found (some a) = ok a

-- `ListSalespeople`: the active ones of the team, by their ids.
unfoldable pub list_salespeople : String → String → Fake → List Salesperson
list_salespeople tenant_id team_id f =
    sort_by (λ a b. text_ltb a.id b.id)
      (keep (λ r. r.tenant_id == tenant_id && (r.team_id == team_id && r.active)) (values f.reps))

-- `CountOpenTasks`
unfoldable pub count_open_tasks : String → Fake → ℕ
count_open_tasks user_id f =
    count_if (λ t. t.user_id == user_id && is_open t.status) (values f.tasks)

-- `GetScoringSnapshot`
abbrev pub get_scoring_snapshot : String → Action Fake ScoringSnapshot
get_scoring_snapshot id f = (found (lookup id f.snapshots), f)

-- `GetHandoff`
abbrev pub get_handoff : String → Action Fake Handoff
get_handoff id f = (found (lookup id f.handoffs), f)

-- `ListHandoffs`; the empty tenant stands for all of them.
unfoldable pub list_handoffs : String → Fake → List Handoff
list_handoffs tenant_id f =
    keep (λ h. tenant_id == "" || h.tenant_id == tenant_id) (values f.handoffs)

abbrev pub is_closing : String → String → Task → Bool
is_closing handoff_id user_id t =
    t.handoff_id == handoff_id && (user_id == "" || t.user_id == user_id)

abbrev pub close_task : ℕ → Task → Task
close_task now t = record t { status = closed; closed_at = some now }

unfoldable pub close_all : String → String → ℕ → Dict Task → Dict Task
close_all handoff_id user_id now [] = []
close_all handoff_id user_id now ((k, t) ∷ d) =
    (k, if is_closing handoff_id user_id t then close_task now t else t)
    ∷ close_all handoff_id user_id now d

-- `CloseTasksForHandoff`
unfoldable pub close_tasks_for_handoff : String → String → ℕ → Fake → Fake
unfolding close_all
close_tasks_for_handoff handoff_id user_id now f = record f {
  tasks = close_all handoff_id user_id now f.tasks;
}

abbrev pub is_event : String → String → String → SlaEvent → Bool
is_event handoff_id stage type e =
    e.handoff_id == handoff_id && (e.stage == stage && e.type == type)

abbrev pub any_event : String → String → String → List SlaEvent → Bool
any_event handoff_id stage type [] = false
any_event handoff_id stage type (e ∷ es) =
    is_event handoff_id stage type e || any_event handoff_id stage type es

-- `HasSLAEvent`
unfoldable pub has_sla_event : String → String → String → Fake → Bool
has_sla_event handoff_id stage type f = any_event handoff_id stage type f.sla_events

-- `sprint` is what `fmt.Sprintf` makes of a prefix and a number.
module _ (sprint : String → ℕ → String) where
  -- An id where there is none yet, and the counter after it.
  abbrev pub numbered : String → String → ℕ → String × ℕ
  numbered prefix id seq = if id == "" then (sprint prefix (suc seq), suc seq) else (id, seq)

  -- `SaveSalesperson`: no limit stands for 100.
  unfoldable pub save_salesperson : Salesperson → Fake → Fake
  save_salesperson rep f =
      let (id, seq) = numbered "rep" rep.id f.seq in
      record f {
        seq = seq;
        reps =
            insert id
              (record rep { id = id; max_open_tasks = nonzero_or rep.max_open_tasks (pos 100) })
              f.reps;
      }

  -- `SaveScoringSnapshot`
  unfoldable pub save_scoring_snapshot : ScoringSnapshot → Fake → Fake
  save_scoring_snapshot s f =
      let (id, seq) = numbered "score" s.id f.seq in
      record f { seq = seq; snapshots = insert id (record s { id = id }) f.snapshots }

  -- `SaveHandoff`
  unfoldable pub save_handoff : Handoff → Fake → Handoff × Fake
  save_handoff h f =
      let (id, seq) = numbered "handoff" h.id f.seq in
      let h' = record h { id = id } in
      (h', record f { seq = seq; handoffs = insert id h' f.handoffs })

  -- `SaveLeadAssignment`
  unfoldable pub save_lead_assignment : LeadAssignment → Fake → Fake
  save_lead_assignment a f =
      let (id, seq) = numbered "assignment" a.id f.seq in
      record f { seq = seq; assignments = f.assignments ++ (record a { id = id } ∷ []) }

  -- `SaveTask`
  unfoldable pub save_task : Task → Fake → Task × Fake
  save_task t f =
      let (id, seq) = numbered "task" t.id f.seq in
      let t' = record t { id = id } in (t', record f { seq = seq; tasks = insert id t' f.tasks })

  -- `AddTaskEvent`
  unfoldable pub add_task_event : TaskEvent → Fake → Fake
  add_task_event e f =
      let (id, seq) = numbered "task_event" e.id f.seq in
      record f { seq = seq; task_events = f.task_events ++ (record e { id = id } ∷ []) }

  -- `AddSLAEvent`
  unfoldable pub add_sla_event : SlaEvent → Fake → Fake
  add_sla_event e f =
      let (id, seq) = numbered "sla_event" e.id f.seq in
      record f { seq = seq; sla_events = f.sla_events ++ (record e { id = id } ∷ []) }
