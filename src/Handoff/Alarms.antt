-- ===== src/Handoff/Alarms.antt =====
-- internal/service/service.go: the alarms that any run of the service raises.
use lead.Prelude.{
  ℕ, ◌≡◌, refl, inl, inr, String, ◌||◌, Option, none, some, List, [], ◌∷◌, arith, ◌==◌, string_eq,
  Result, ok, err, Bool-cases, lookup,
}
use lead.Pgkv.{Action, and_then}
use lead.Handoff.Store.{Salesperson, ScoringSnapshot, Handoff, Fake, list_handoffs, found}
use lead.Handoff.Service.{
  hand_to, on_rep, on_snapshot, suggest_suppression, is_no_buyer, acknowledge_found, reassign_found,
  CreateHandoffRequest, create_handoff, acknowledge_handoff, escalate_handoff, reassign_handoff,
  evaluate_slas,
}
use lead.Handoff.Once.{Once, quiet, escalate-Once, evaluate_all-Once}

-- Every operation of the service that writes, with the times of its clocks.
pub data Op : Type 0 where
  create_op : ℕ → CreateHandoffRequest → Op
  acknowledge_op : ℕ → String → String → Op
  escalate_op : ℕ → String → Op
  reassign_op : ℕ → String → String → Op
  evaluate_op : ℕ → ℕ → Op

module _ (sprint : String → ℕ → String) where
  unfoldable pub apply : Op → Fake → Fake
  apply (create_op now req) f = (create_handoff sprint now req f).1
  apply (acknowledge_op now i u) f = (acknowledge_handoff sprint now i u f).1
  apply (escalate_op now i) f = (escalate_handoff sprint now i f).1
  apply (reassign_op now i u) f = (reassign_handoff sprint now i u f).1
  apply (evaluate_op clock now) f = evaluate_slas sprint clock now f

  unfoldable pub apply_all : List Op → Fake → Fake
  unfolding apply
  apply_all [] f = f
  apply_all (o ∷ os) f = apply_all os (apply o f)

module _ (sprint : String → ℕ → String) (id : String) where
  -- The other operations raise no alarm.
  hand_to-Once :
      (req : CreateHandoffRequest) (t : String) (snap : ScoringSnapshot) (now : ℕ)
      (rep : Salesperson) (f : Fake)
      → Once id f
      → Once id (hand_to sprint req t snap now rep f).1
  unfolding hand_to
  hand_to-Once req t snap now rep f o =
      let g = (hand_to sprint req t snap now rep f).1 in
      (
        rw (quiet sprint id "rep" "sla_missed" _ f g refl refl) o.0,
        rw (quiet sprint id "manager" "sla_missed" _ f g refl refl) o.1,
        rw (quiet sprint id "tenant_owner" "alerted" _ f g refl refl) o.2,
      )

  on_rep-Once :
      (req : CreateHandoffRequest) (t : String) (snap : ScoringSnapshot) (now : ℕ)
      (r : Result Salesperson) (f : Fake)
      → Once id f
      → Once id (on_rep sprint req t snap now r f).1
  on_rep-Once req t snap now (err e) f o = o
  on_rep-Once req t snap now (ok rep) f o = hand_to-Once req t snap now rep f o

  on_snapshot-Once :
      (req : CreateHandoffRequest) (now : ℕ) (snap : ScoringSnapshot) (f : Fake)
      → Once id f
      → Once id (on_snapshot sprint req now snap f).1
  unfolding suggest_suppression
  on_snapshot-Once req now snap f o = elim (Bool-cases (is_no_buyer snap.buyer_type)) [
    | inl e ↦ rw e o
    | inr e ↦ rw e (on_rep-Once req _ snap now _ f o)
  ]

  -- What follows a lookup of the store that finds something.
  found-Once {ℓ} :
      {A : Type ℓ} (a : Option A) (k : A → Action Fake Handoff) (f : Fake)
      → Once id f
      → ((x : A) → Once id (k x f).1)
      → Once id (and_then (found a, f) k).1
  found-Once none k f o h = o
  found-Once (some x) k f o h = h x

  create_handoff-Once :
      (now : ℕ) (req : CreateHandoffRequest) (f : Fake)
      → Once id f
      → Once id (create_handoff sprint now req f).1
  unfolding create_handoff
  create_handoff-Once now req f o =
      elim (Bool-cases (req.lead_id == "" || req.scoring_snapshot_id == "")) [
        | inl e ↦ rw e o
        | inr e ↦ rw e (
            found-Once (lookup req.scoring_snapshot_id f.snapshots) (on_snapshot sprint req now) f o
              (λ s. on_snapshot-Once req now s f o))
      ]

  acknowledge_handoff-Once :
      (now : ℕ) (i u : String) (f : Fake)
      → Once id f
      → Once id (acknowledge_handoff sprint now i u f).1
  unfolding acknowledge_handoff
  acknowledge_handoff-Once now i u f o =
      found-Once (lookup i f.handoffs) (acknowledge_found sprint now u) f o
        (λ h. elim (Bool-cases (h.assigned_user_id == u)) [ inl e ↦ rw e o | inr e ↦ rw e o ])

  apply-Once : (op : Op) (f : Fake) → Once id f → Once id (apply sprint op f)
  unfolding apply escalate_handoff reassign_handoff evaluate_slas
  apply-Once (create_op now req) f o = create_handoff-Once now req f o
  apply-Once (acknowledge_op now i u) f o = acknowledge_handoff-Once now i u f o
  apply-Once (escalate_op now i) f o =
      found-Once (lookup i f.handoffs) _ f o (λ h. escalate-Once sprint id now h f o)
  apply-Once (reassign_op now i u) f o =
      found-Once (lookup i f.handoffs) (reassign_found sprint now u) f o (λ h. o)
  apply-Once (evaluate_op clock now) f o =
      evaluate_all-Once sprint id clock now (list_handoffs "" f) f o

  apply_all-Once_from : (ops : List Op) (f : Fake) → Once id f → Once id (apply_all sprint ops f)
  unfolding apply_all
  apply_all-Once_from [] f o = o
  apply_all-Once_from (op ∷ ops) f o =
      apply_all-Once_from ops (apply sprint op f) (apply-Once op f o)

  -- Over the in-memory store, from one without SLA events and after any sequence of the operations
  -- of the service, at any times: a handoff of any id has at most one event that its salesperson
  -- missed it, at most one that its manager did, and at most one that the owner was alerted.
  pub apply_all-Once :
      (ops : List Op) (f : Fake) → f.sla_events ≡ [] → Once id (apply_all sprint ops f)
  apply_all-Once ops f quiet_start =
      apply_all-Once_from ops f (rw quiet_start (omega arith, omega arith, omega arith))
