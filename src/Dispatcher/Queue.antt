-- ===== src/Dispatcher/Queue.antt =====
-- dispatcher.go, the interface `DialQueueStore`, and store_pgkv.go, its durable implementation.
pub mod Update
pub mod Seed
pub mod Find
use lead.Prelude.{
  ℕ, suc, ◌+◌, String, ◌^^◌, Bool, true, false, ◌&&◌, ◌||◌, Option, none, some, List, [], ◌∷◌, leb,
  ltb, if◌then◌else◌, ◌==◌, string_eq, keep, count_if, Result, ok, err, not_found,
}
use lead.Pgkv.{Kv, Action, ◌>>=◌, ◌>>◌, pure, throw, put, get, list}
use lead.Dispatcher.Row.{DialRow, RowStatus, pending, in_flight, done, failed, suppressed, read_str}

pub record DialQueueStore (Q : Type 0) : Type 0 where
  pub seed_rows : List DialRow → Action Q (Unit {0})
  pub pending_rows : String → ℕ → Action Q (List DialRow)
  pub mark_in_flight : String → String → Action Q (Unit {0})
  pub mark_failed : String → Action Q (Unit {0})
  pub active_campaign_ids : Action Q (List String)
  pub find_by_provider_call_id : String → Action Q (Option DialRow)
  pub find_by_last_outcome_event_id : String → Action Q (Option DialRow)
  pub update_row : String → (DialRow → DialRow) → Action Q (Unit {0})
  pub counts_by_status : String → Action Q (RowStatus → ℕ)
  pub counts_by_disposition : String → Action Q (String → ℕ)

abbrev pub status_beq : RowStatus → RowStatus → Bool
status_beq pending pending = true
status_beq in_flight in_flight = true
status_beq done done = true
status_beq failed failed = true
status_beq suppressed suppressed = true
status_beq _ _ = false

-- The key of a row: one for each campaign and lead.
abbrev pub row_key : DialRow → String
row_key r = (r.campaign_id ^^ ":") ^^ r.lead_id

-- Pending, of the campaign, and `!NextAttemptAt.After(now)`.
abbrev pub is_due : String → ℕ → DialRow → Bool
is_due campaign_id now r =
    (r.campaign_id == campaign_id && status_beq r.status pending) && leb r.next_attempt_at now

abbrev pub is_active : DialRow → Bool
is_active r = status_beq r.status pending || status_beq r.status in_flight

-- The first row that passes a test.
unfoldable pub find_row : (DialRow → Bool) → List DialRow → Option DialRow
find_row p [] = none
find_row p (r ∷ rs) = if p r then some r else find_row p rs

abbrev pub is_text : String → Option String → Bool
is_text s none = false
is_text s (some v) = v == s

abbrev pub recorded_event : String → DialRow → Bool
recorded_event event_id r = is_text event_id (read_str "_last_outcome_event_id" r.campaign_ctx)

-- The keys of a Go set of texts: each text once.
unfoldable pub distinct : List String → List String
distinct [] = []
distinct (x ∷ xs) = x ∷ keep (λ y. if x == y then false else true) (distinct xs)

abbrev pub campaign_ids : List DialRow → List String
campaign_ids [] = []
campaign_ids (r ∷ rs) = r.campaign_id ∷ campaign_ids rs

abbrev pub store_changed :
    String → (DialRow → DialRow) → Option DialRow → Action (Kv DialRow) (Unit {0})
store_changed k f none = throw not_found
store_changed k f (some r) = put k (f r)

abbrev pub store_new : DialRow → Option DialRow → Action (Kv DialRow) (Unit {0})
store_new r none = put (row_key r) (record r { id = row_key r })
store_new r (some _) = pure tt

-- `updateRow`: fetch, change, store.
unfoldable pub update_row : String → (DialRow → DialRow) → Action (Kv DialRow) (Unit {0})
update_row row_id f = do found ← get row_id; store_changed row_id f found

unfoldable pub seed_row : DialRow → Action (Kv DialRow) (Unit {0})
seed_row r = do found ← get (row_key r); store_new r found

unfoldable pub seed_rows : List DialRow → Action (Kv DialRow) (Unit {0})
seed_rows [] = pure tt
seed_rows (r ∷ rs) = seed_row r >> seed_rows rs

unfoldable pub pending_rows : String → ℕ → Action (Kv DialRow) (List DialRow)
pending_rows campaign_id now = do rows ← list; pure (keep (is_due campaign_id now) rows)

unfoldable pub mark_in_flight : String → String → Action (Kv DialRow) (Unit {0})
unfolding update_row
mark_in_flight row_id call_id =
    update_row row_id
      λ r. record r { status = in_flight; provider_call_id = call_id; attempts = r.attempts + 1 }

unfoldable pub mark_failed : String → Action (Kv DialRow) (Unit {0})
unfolding update_row
mark_failed row_id = update_row row_id λ r. record r { status = failed }

unfoldable pub find_by_provider_call_id : String → Action (Kv DialRow) (Option DialRow)
unfolding find_row
find_by_provider_call_id call_id = do
  rows ← list
  pure (find_row (λ r. r.provider_call_id == call_id) rows)

unfoldable pub find_by_last_outcome_event_id : String → Action (Kv DialRow) (Option DialRow)
unfolding find_row
find_by_last_outcome_event_id event_id = do
  rows ← list
  pure (find_row (recorded_event event_id) rows)

unfoldable pub active_campaign_ids : Action (Kv DialRow) (List String)
unfolding distinct
active_campaign_ids = do rows ← list; pure (distinct (campaign_ids (keep is_active rows)))

unfoldable pub counts_by_status : String → Action (Kv DialRow) (RowStatus → ℕ)
counts_by_status campaign_id = do
  rows ← list
  pure (λ s. count_if (λ r. r.campaign_id == campaign_id && status_beq r.status s) rows)

unfoldable pub counts_by_disposition : String → Action (Kv DialRow) (String → ℕ)
counts_by_disposition campaign_id = do
  rows ← list
  pure (λ d. count_if (λ r. r.campaign_id == campaign_id && r.disposition == d) rows)

unfoldable pub count_pending_with_attempts : String → Action (Kv DialRow) ℕ
count_pending_with_attempts campaign_id = do
  rows ← list
  pure (
      count_if
        (λ r. (r.campaign_id == campaign_id && status_beq r.status pending) && ltb 0 r.attempts)
        rows)

abbrev pub pgkv_store : DialQueueStore (Kv DialRow)
pgkv_store = record {
  seed_rows = seed_rows;
  pending_rows = pending_rows;
  mark_in_flight = mark_in_flight;
  mark_failed = mark_failed;
  active_campaign_ids = active_campaign_ids;
  find_by_provider_call_id = find_by_provider_call_id;
  find_by_last_outcome_event_id = find_by_last_outcome_event_id;
  update_row = update_row;
  counts_by_status = counts_by_status;
  counts_by_disposition = counts_by_disposition;
}
