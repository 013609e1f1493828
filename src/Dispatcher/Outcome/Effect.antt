-- ===== src/Dispatcher/Outcome/Effect.antt =====
-- outcome_consumer.go over the durable store: what one outcome makes of the row.
use lead.Prelude.{
  ℕ, ◌+◌, ◌*◌, ◌%◌, ◌≤◌, ◌<◌, ◌≡◌, refl, ◌≢◌, ◌⊎◌, inl, inr, String, true, false, none, some, [],
  arith, Dict, values, lookup-insert, string_beq_refl, leb, ◌==◌, string_eq, eq_iff, ok, Bool-cases,
}
use lead.Pgkv.{up, list}
use lead.Dispatcher.Row.{DialRow, pending, done, failed, read_str, str, Ctx}
use lead.Dispatcher.Retry.{extract_retry_policy, retry_delay_minutes, extract_retry_policy-pos}
use lead.Dispatcher.Queue.{
  pgkv_store, find_row, find_by_provider_call_id, find_by_last_outcome_event_id, recorded_event,
  is_text, update_row,
}
use lead.Dispatcher.Outcome.{
  on_call_outcome, outcome_change, completed_row, exhausted_row, retry_row, write_ctx, retry_at,
  delay_nanos, add_nanos,
}

-- The row that an event changes, if the event is new and its call is known.
abbrev pub Names : String → String → Dict DialRow → DialRow → Type 0
Names event_id call_id t row =
    (find_row (recorded_event event_id) (values t) ≡ none)
    × (find_row (λ r. r.provider_call_id == call_id) (values t) ≡ some row)

module _ (event_id call_id status : String) (now : ℕ) (t : Dict DialRow) where
  pub seen_before :
      {r : DialRow}
      → find_row (recorded_event event_id) (values t) ≡ some r
      → on_call_outcome pgkv_store event_id call_id status now (up t) ≡ (ok tt, up t)
  unfolding on_call_outcome find_by_last_outcome_event_id list
  seen_before e = rw e refl

  pub unknown_call :
      find_row (recorded_event event_id) (values t) ≡ none
      → find_row (λ r. r.provider_call_id == call_id) (values t) ≡ none
      → on_call_outcome pgkv_store event_id call_id status now (up t) ≡ (ok tt, up t)
  unfolding on_call_outcome find_by_last_outcome_event_id find_by_provider_call_id list
  unknown_call e e' = rw e (rw e' refl)

  pub known_call :
      {row : DialRow}
      → Names event_id call_id t row
      → on_call_outcome pgkv_store event_id call_id status now (up t)
        ≡ update_row row.id (outcome_change event_id call_id status now row) (up t)
  unfolding on_call_outcome find_by_last_outcome_event_id find_by_provider_call_id list
  known_call n = rw n.0 (rw n.1 refl)

recorded_in-write :
    (event_id : String) (c : Ctx)
    → is_text event_id
        (read_str "_last_outcome_event_id" (write_ctx "_last_outcome_event_id" (str event_id) c))
      ≡ true
recorded_in-write event_id none =
    let k : String = "_last_outcome_event_id" in
    ground (arith, lookup-insert k k (str event_id) [], string_beq_refl k, string_beq_refl event_id)
recorded_in-write event_id (some m) =
    let k : String = "_last_outcome_event_id" in
    ground (arith, lookup-insert k k (str event_id) m, string_beq_refl k, string_beq_refl event_id)

-- The event is on record in the row that it changed, whatever the context held.
pub recorded_event-outcome_change :
    (event_id call_id status : String) (now : ℕ) (row r : DialRow)
    → recorded_event event_id (outcome_change event_id call_id status now row r) ≡ true
unfolding outcome_change completed_row exhausted_row retry_row
recorded_event-outcome_change event_id call_id status now row r =
    let p = extract_retry_policy row.campaign_ctx in
    elim (Bool-cases (status == "completed")) [
      | inl e ↦ rw e (recorded_in-write event_id r.campaign_ctx)
      | inr e ↦ rw e (elim (Bool-cases (leb p.retry_max (row.attempts + 1))) [
        | inl e' ↦ rw e' (recorded_in-write event_id r.campaign_ctx)
        | inr e' ↦ rw e' (recorded_in-write event_id r.campaign_ctx)
      ])
    ]

-- The delays that the campaign sets are such that a duration in nanoseconds can hold them: 292 years.
abbrev pub HasShortDelays : DialRow → Type 0
HasShortDelays row =
    let p = extract_retry_policy row.campaign_ctx in
    (p.retry_busy_min ≤ 153722867) × (p.retry_no_answer_min ≤ 153722867)

short_delay : (now m : ℕ) → 0 < m → m ≤ 153722867 → now + 60 ≤ retry_at now (some m)
unfolding retry_at delay_nanos add_nanos
short_delay now m positive short =
    let same : m * 60000000000 % 18446744073709551616 ≡ m * 60000000000 = omega (arith, short) in
    let small : m * 60000000000 < 9223372036854775808 = omega (arith, short) in
    rw same (ground (arith, small, positive))

-- A retry waits for at least a minute.
retry_delay_pos :
    (status : String) (now : ℕ) (row : DialRow)
    → HasShortDelays row
    → (status == "completed") ≡ false
    → now + 60 ≤ retry_at now (retry_delay_minutes status (extract_retry_policy row.campaign_ctx))
unfolding retry_delay_minutes
retry_delay_pos status now row short h =
    let p = extract_retry_policy row.campaign_ctx in
    ground (
      arith,
      extract_retry_policy-pos row.campaign_ctx,
      short_delay now p.retry_busy_min,
      short_delay now p.retry_no_answer_min,
      short_delay now 30,
    )

-- A call that was not answered: its attempts, and `Later` of the time at which it is tried again.
abbrev pub Retried : (ℕ → Type 0) → ℕ → DialRow → DialRow → Type 0
Retried Later attempts row r =
    let retry_max = (extract_retry_policy row.campaign_ctx).retry_max in
    (r.attempts ≡ attempts)
    × (r.provider_call_id ≡ "")
    × (((retry_max ≤ attempts) × (r.status ≡ failed) × (r.disposition ≡ "exhausted"))
        ⊎ ((attempts < retry_max) × (r.status ≡ pending) × Later r.next_attempt_at))

-- The delay of the policy from now on.
abbrev pub IsDelayed : String → ℕ → DialRow → ℕ → Type 0
IsDelayed status now row time =
    time ≡ retry_at now (retry_delay_minutes status (extract_retry_policy row.campaign_ctx))

pub outcome_change-Retried :
    (event_id call_id status : String) (now : ℕ) (row : DialRow)
    → status ≢ "completed"
    → Retried
        (IsDelayed status now row)
        (row.attempts + 1)
        row
        (outcome_change event_id call_id status now row row)
unfolding outcome_change completed_row exhausted_row retry_row
outcome_change-Retried event_id call_id status now row unanswered =
    ground (arith, eq_iff status "completed", unanswered)

-- What an outcome asks of a row: an answered call is done and counts no attempt; any other outcome
-- counts one more attempt and frees the call id, and the row has failed if that was the last
-- attempt allowed, or else is pending again, at least a minute later if the delays of the campaign
-- are no longer than a duration can hold. The row's id, lead and campaign stay.
pub outcome_change_lem :
    (event_id call_id status : String) (now : ℕ) (row : DialRow)
    → HasShortDelays row
    → let r = outcome_change event_id call_id status now row row in
      (((status ≡ "completed")
          × (r.status ≡ done)
          × (r.disposition ≡ "answered")
          × (r.attempts ≡ row.attempts))
        ⊎ ((status ≢ "completed") × Retried (λ time. now + 60 ≤ time) (row.attempts + 1) row r))
      × (r.id ≡ row.id)
      × (r.lead_id ≡ row.lead_id)
      × (r.campaign_id ≡ row.campaign_id)
unfolding outcome_change completed_row exhausted_row retry_row
outcome_change_lem event_id call_id status now row short =
    ground (arith, eq_iff status "completed", retry_delay_pos status now row short)
