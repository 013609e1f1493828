-- ===== src/Dispatcher/Outcome.antt =====
-- outcome_consumer.go: call outcomes drive the rows of the dial queue. `now` is `time.Now()`.
pub mod Effect
pub mod Ladder
pub mod Redelivery
pub mod Retries
use lead.Prelude.{
  ℕ, suc, ◌+◌, ◌-◌, ◌*◌, ◌/◌, ◌%◌, ltb, ◌≡◌, String, Bool, true, false, ◌||◌, Option, none, some,
  List, [], ◌∷◌, arith, Dict, insert, leb, if◌then◌else◌, ◌==◌, string_eq, Result, ok, err,
}
use lead.Pgkv.{Action, ◌>>=◌, pure}
use lead.Dispatcher.Row.{Value, str, DialRow, pending, done, failed, Ctx}
use lead.Dispatcher.Retry.{RetryPolicy, extract_retry_policy, retry_delay_minutes}
use lead.Dispatcher.Queue.{DialQueueStore}

-- A write into a `nil` map follows a `make`.
abbrev pub write_ctx : String → Value → Ctx → Ctx
write_ctx k v none = some (insert k v [])
write_ctx k v (some m) = some (insert k v m)

unfoldable pub set_last_outcome_event_id : String → DialRow → DialRow
set_last_outcome_event_id event_id r = record r {
  campaign_ctx = write_ctx "_last_outcome_event_id" (str event_id) r.campaign_ctx;
}

-- The three changes of a row.
unfoldable pub completed_row : String → String → DialRow → DialRow
unfolding set_last_outcome_event_id
completed_row event_id call_id r =
    set_last_outcome_event_id event_id
      (record r { status = done; disposition = "answered"; provider_call_id = call_id })

unfoldable pub exhausted_row : String → ℕ → DialRow → DialRow
unfolding set_last_outcome_event_id
exhausted_row event_id attempts r = set_last_outcome_event_id event_id (record r {
  attempts = attempts;
  status = failed;
  disposition = "exhausted";
  provider_call_id = "";
})

unfoldable pub retry_row : String → ℕ → String → ℕ → DialRow → DialRow
unfolding set_last_outcome_event_id
retry_row event_id attempts status next_at r = set_last_outcome_event_id event_id (record r {
  attempts = attempts;
  status = pending;
  disposition = status;
  provider_call_id = "";
  next_attempt_at = next_at;
})

-- `time.Duration(delayMin) * time.Minute`: the bits of a signed number of nanoseconds, 64 of them.
unfoldable pub delay_nanos : ℕ → ℕ
delay_nanos m = m * 60000000000 % 18446744073709551616

-- `time.Now().Add(_)` in whole seconds, also of a delay that has wrapped around below zero.
unfoldable pub add_nanos : ℕ → ℕ → ℕ
add_nanos now d =
    if ltb d 9223372036854775808
    then now + d / 1000000000
    else now - (18446744073709551616 - d + 999999999) / 1000000000

-- The retry path is not reached with -1, here `none`.
unfoldable pub retry_at : ℕ → Option ℕ → ℕ
unfolding delay_nanos add_nanos
retry_at now none = now
retry_at now (some m) = add_nanos now (delay_nanos m)

-- The change that an outcome asks of the row that was read.
unfoldable pub outcome_change : String → String → String → ℕ → DialRow → DialRow → DialRow
outcome_change event_id call_id status now row r =
    let p = extract_retry_policy row.campaign_ctx in
    let attempts = row.attempts + 1 in
    if status == "completed"
    then completed_row event_id call_id r
    else (if leb p.retry_max attempts
        then exhausted_row event_id attempts r
        else retry_row event_id attempts status (retry_at now (retry_delay_minutes status p)) r)

module _ {Q : Type 0} (store : DialQueueStore Q) (event_id call_id status : String) (now : ℕ) where
  -- The row that was called, if it is known.
  on_row : Option DialRow → Action Q (Unit {0})
  on_row none = pure tt
  on_row (some row) = store.update_row row.id (outcome_change event_id call_id status now row)

  on_seen : Option DialRow → Action Q (Unit {0})
  unfolding on_row
  on_seen (some _) = pure tt
  on_seen none = do row ← store.find_by_provider_call_id call_id; on_row row

  pub on_call_outcome : Action Q (Unit {0})
  unfolding on_seen
  on_call_outcome = do seen ← store.find_by_last_outcome_event_id event_id; on_seen seen

-- A message of the stream CAPSY_CALL: its subject, and its payload if that is JSON.
pub record OutcomeEvent : Type 0 where
  pub event_id : String
  pub provider_call_id : String
  pub status : String

pub record Message : Type 0 where
  pub subject : String
  pub payload : Option OutcomeEvent

abbrev pub is_outcome_subject : String → Bool
is_outcome_subject s = s == "call.completed" || s == "call.failed"

module _ {Q : Type 0} (store : DialQueueStore Q) (now : ℕ) where
  -- The error of a handled event is only logged; every message is acknowledged.
  on_payload : Option OutcomeEvent → Q → Q
  unfolding on_call_outcome
  on_payload none q = q
  on_payload (some e) q =
      if e.provider_call_id == ""
      then q
      else (on_call_outcome store e.event_id e.provider_call_id e.status now q).1

  pub on_message : Message → Q → Q
  unfolding on_payload
  on_message m q = if is_outcome_subject m.subject then on_payload m.payload q else q
