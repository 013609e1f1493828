-- ===== src/Dispatcher/Tests/Outcomes.antt =====
-- Runs of call outcomes.
use lead.Prelude.{
  false, ◌==◌, string_eq, ◌+◌, ◌≤◌, [], ◌∷◌, eq_iff, ◌≡◌, refl, ◌≢◌, ◌⊎◌, String, some, arith,
  lookup,
}
use lead.Pgkv.{up}
use lead.Dispatcher.Row.{DialRow, in_flight, pending, done}
use lead.Dispatcher.Queue.{pgkv_store}
use lead.Dispatcher.Outcome.{on_call_outcome, outcome_change, retry_at, delay_nanos, add_nanos}
use lead.Dispatcher.Outcome.Effect.{outcome_change_lem, Retried, IsDelayed}
use lead.Dispatcher.Outcome.Ladder.{Call, call_all, HasEnded, call_all_ends}
use lead.Dispatcher.Retry.{extract_retry_policy}
use lead.Dispatcher.Outcome.Redelivery.{on_call_outcome_redelivered}
use lead.Dispatcher.Outcome.Retries.{one_call, one_call_costs_two}
use lead.Dispatcher.Tests.Fixtures.{eleven, row_of, queue_rows}

on_call_outcome_redelivered_example :
    let q = (on_call_outcome pgkv_store "e1" "call-b" "busy" eleven (up queue_rows)).1 in
    (on_call_outcome pgkv_store "e1" "call-b" "busy" 50000 q).1 ≡ q
on_call_outcome_redelivered_example =
    on_call_outcome_redelivered "e1" "call-b" "busy" eleven 50000 queue_rows

abbrev busy : String
busy = "busy"

outcome_change_lem_example :
    let row = row_of "b" in_flight "call-b" in
    let r = outcome_change "e1" "call-b" "busy" eleven row row in
    (((busy ≡ "completed") × (r.status ≡ done) × (r.disposition ≡ "answered") × (r.attempts ≡ 0))
      ⊎ ((busy ≢ "completed") × Retried (λ time. eleven + 60 ≤ time) 1 row r))
    × (r.id ≡ row.id)
    × (r.lead_id ≡ row.lead_id)
    × (r.campaign_id ≡ row.campaign_id)
unfolding extract_retry_policy lookup
outcome_change_lem_example =
    outcome_change_lem "e1" "call-b" "busy" eleven (row_of "b" in_flight "call-b")
      (omega arith, omega arith)

-- A busy line is tried again after 20 minutes; a delay of 200 million of them has wrapped around.
busy_later : (retry_at eleven (some 20) ≡ eleven + 1200) × (retry_at eleven (some 200000000) ≡ 0)
unfolding retry_at delay_nanos add_nanos
busy_later = (refl, refl)

one_call_costs_two_example :
    (row : DialRow) × (lookup "c:a"
        (one_call "e1" "call-a" "busy" eleven queue_rows (row_of "a" pending "")).1.table
      ≡ some row)
    × Retried (IsDelayed "busy" eleven (row_of "a" pending "")) 2 (row_of "a" pending "") row
unfolding lookup
one_call_costs_two_example =
    one_call_costs_two "e1" "call-a" "busy" eleven queue_rows (row_of "a" pending "") refl
      ((refl, (refl, tt)), (refl, (refl, tt))) (λ e. ground (arith, (eq_iff busy "completed").1 e))

abbrev a_call : Call
a_call = record { event_id = "e1"; call_id = "call-a"; status = "busy"; now = eleven }

-- The second call, with an event and a call id of its own.
abbrev later_call : Call
later_call = record { event_id = "e2"; call_id = "call-c"; status = "no-answer"; now = 60000 }

differ : (s t : String) → (s == t) ≡ false → s ≢ t
differ s t e same = let both = (eq_iff s t).1 same in cc

call_all_ends_example : HasEnded "c:a" (call_all (a_call ∷ later_call ∷ []) "c:a" (up queue_rows))
unfolding extract_retry_policy lookup
call_all_ends_example =
    call_all_ends a_call (later_call ∷ []) (row_of "a" pending "") queue_rows refl refl
      (
        ((refl, (refl, tt)), (refl, (refl, tt))),
        differ "call-a" "" refl,
        ((differ "e2" "e1" refl, differ "call-c" "call-a" refl), tt),
        (((refl, (refl, tt)), (refl, (refl, tt))), differ "call-c" "" refl, tt, tt),
      )
      (omega arith)
