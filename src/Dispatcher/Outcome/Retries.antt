-- ===== src/Dispatcher/Outcome/Retries.antt =====
-- store_pgkv.go and outcome_consumer.go together: what one call costs, from
-- `MarkInFlight` to `onCallOutcome`.
use lead.Prelude.{
  ℕ, ◌+◌, ◌≡◌, ◌≢◌, ◌∙◌, sym, subst, String, false, some, arith, Dict, lookup, insert, values,
  lookup-insert, string_beq_refl, ◌==◌, string_eq, Result, ok, All, All-insert, All-lookup,
}
use lead.Pgkv.{Kv, up, bind-ok, ◌>>◌}
use lead.Dispatcher.Row.{DialRow, in_flight}
use lead.Dispatcher.Queue.{pgkv_store, recorded_event, mark_in_flight}
use lead.Dispatcher.Queue.Update.{update_row_found}
use lead.Dispatcher.Queue.Find.{find_row-none, find_row-insert_new}
use lead.Dispatcher.Call.Replies.{mark_in_flight_found}
use lead.Dispatcher.Outcome.{on_call_outcome, outcome_change}
use lead.Dispatcher.Outcome.Effect.{known_call, outcome_change-Retried, Retried, IsDelayed}

-- Neither the event nor the call is known to the queue.
abbrev pub IsFresh : String → String → Dict DialRow → Type 0
IsFresh event_id call_id t =
    All (λ r. recorded_event event_id r ≡ false) (values t)
    × All (λ r. (r.provider_call_id == call_id) ≡ false) (values t)

-- A row whose call was placed.
abbrev pub dialled : String → DialRow → DialRow
dialled call_id v = record v {
  status = in_flight;
  provider_call_id = call_id;
  attempts = v.attempts + 1;
}

module _ (event_id call_id status : String) (now : ℕ) (t : Dict DialRow) (v : DialRow) where
  -- One call of the row `v`: it is placed, and its outcome comes in.
  abbrev pub one_call : Result (Unit {0}) × Kv DialRow
  one_call =
      (mark_in_flight v.id call_id >> on_call_outcome pgkv_store event_id call_id status now) (up t)

  abbrev pub called : DialRow
  called = outcome_change event_id call_id status now (dialled call_id v) (dialled call_id v)

  pub one_call_table :
      lookup v.id t ≡ some v
      → IsFresh event_id call_id t
      → one_call ≡ (ok tt, up (insert v.id called (insert v.id (dialled call_id v) t)))
  one_call_table stored fresh =
      let d : DialRow = dialled call_id v in
      let t₁ : Dict DialRow = insert v.id d t in
      let stored₁ : lookup v.id t₁ ≡ some d =
        ground (arith, lookup-insert v.id v.id d t, string_beq_refl v.id) in
      bind-ok (mark_in_flight v.id call_id)
        (λ _. on_call_outcome pgkv_store event_id call_id status now) (up t)
        (mark_in_flight_found v.id call_id t {v = v} stored)
      ∙ (known_call event_id call_id status now t₁ {row = d} (
        find_row-none (recorded_event event_id) (values t₁) (
            All-insert (λ r. recorded_event event_id r ≡ false) v.id d t
              (All-lookup (λ r. recorded_event event_id r ≡ false) v.id {v = v} t fresh.0 stored)
              fresh.0),
        find_row-insert_new (λ r. r.provider_call_id == call_id) v.id d t (string_beq_refl call_id)
            fresh.1,
      )
          ∙ update_row_found v.id (outcome_change event_id call_id status now d) t₁ {v = d} stored₁)

  -- Over the durable store, a call of a stored row that was not answered, with a call id and an
  -- event that are new to the queue, raises its attempts by two: the row fails once two more than
  -- its attempts reach the limit, and before that waits for a retry after the delay of its policy.
  pub one_call_costs_two :
      lookup v.id t ≡ some v
      → IsFresh event_id call_id t
      → status ≢ "completed"
      → (row : DialRow) × (lookup v.id one_call.1.table ≡ some row)
        × Retried (IsDelayed status now v) (v.attempts + 2) v row
  one_call_costs_two stored fresh unanswered =
      let d : DialRow = dialled call_id v in
      let table : Dict DialRow = insert v.id called (insert v.id d t) in
      let found : lookup v.id table ≡ some called =
        ground (arith, lookup-insert v.id v.id called (insert v.id d t), string_beq_refl v.id) in
      (
        called,
        subst (λ p. lookup v.id p.1.table ≡ some called) (sym (one_call_table stored fresh)) found,
        ground (arith, outcome_change-Retried event_id call_id status now d unanswered),
      )
