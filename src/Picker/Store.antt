-- ===== src/Picker/Store.antt =====
-- internal/model/model.go, internal/picker/picker.go and internal/store/fake.go: leads, and the
-- store that guards every operation by one mutex.
use lead.Prelude.{
  ℕ, suc, ◌+◌, String, Bool, true, false, ◌&&◌, not, Option, none, some, List, [], ◌∷◌, ℤ, pos,
  ltb_ℤ, ltb, if◌then◌else◌, ◌==◌, string_eq, nat_eq, Dict, lookup, insert, count_if, keep, take,
  sort_by, text_ltb, Result, ok, err, not_found,
}

-- `unset` is the empty status.
pub data LeadStatus : Type 0 where
  unset pending processing done failed : LeadStatus

-- `none` is the zero time.
pub record Lead : Type 0 where
  pub id : String
  pub campaign_id : String
  pub tenant_id : String
  pub priority_score : ℤ
  pub last_attempt_at : Option ℕ
  pub retry_count : ℕ
  pub status : LeadStatus
  pub processing_until : Option ℕ
  pub worker_id : String

abbrev pub is_pending : LeadStatus → Bool
is_pending pending = true
is_pending _ = false

-- Still leased to another worker: a lease that is set and lies after `now`.
abbrev pub is_leased : ℕ → Option ℕ → Bool
is_leased now none = false
is_leased now (some until) = ltb now until

abbrev pub is_eligible : String → ℕ → Lead → Bool
is_eligible campaign_id now l =
    l.campaign_id == campaign_id && (is_pending l.status && not (is_leased now l.processing_until))

-- The zero time lies before every other.
abbrev pub time_ltb : Option ℕ → Option ℕ → Bool
time_ltb t none = false
time_ltb none (some u) = true
time_ltb (some t) (some u) = ltb t u

-- Priority DESC, then last_attempt_at ASC, then id ASC.
unfoldable pub comes_before : Lead → Lead → Bool
comes_before a b =
    if ltb_ℤ b.priority_score a.priority_score
    then true
    else (if ltb_ℤ a.priority_score b.priority_score
        then false
        else (if time_ltb a.last_attempt_at b.last_attempt_at
            then true
            else (if time_ltb b.last_attempt_at a.last_attempt_at
                then false
                else text_ltb a.id b.id)))

-- The eligible leads, the best first, and the first of them.
unfoldable pub choose : String → ℕ → ℕ → List Lead → List Lead
choose campaign_id batch_size now leads =
    take batch_size (sort_by comes_before (keep (is_eligible campaign_id now) leads))

unfoldable pub leased : String → ℕ → Lead → Lead
leased worker_id until l = record l {
  processing_until = some until;
  worker_id = worker_id;
  status = processing;
}

-- The map holds each lead under its id, and the sessions the id of the lead that was called.
pub record Fake : Type 0 where
  pub leads : List Lead
  pub sessions : Dict String

abbrev pub is_among : String → List Lead → Bool
is_among id [] = false
is_among id (l ∷ ls) = if l.id == id then true else is_among id ls

abbrev pub lease_all : String → ℕ → List Lead → List Lead
lease_all worker_id until [] = []
lease_all worker_id until (l ∷ ls) = leased worker_id until l ∷ lease_all worker_id until ls

-- The leads of the map that are in the batch get the lease.
unfoldable pub stamp : String → ℕ → List Lead → List Lead → List Lead
stamp worker_id until batch [] = []
stamp worker_id until batch (l ∷ ls) =
    (if is_among l.id batch then leased worker_id until l else l) ∷ stamp worker_id until batch ls

-- `PickAndClaim`
unfoldable pub pick_and_claim : String → String → ℕ → ℕ → ℕ → Fake → List Lead × Fake
unfolding choose stamp
pick_and_claim campaign_id worker_id batch_size now lease_ttl f =
    let batch = choose campaign_id batch_size now f.leads in
    let until = now + lease_ttl in
    (lease_all worker_id until batch, record f { leads = stamp worker_id until batch f.leads })

abbrev pub at_least_one : ℤ → ℕ
at_least_one (pos (suc n)) = suc n
at_least_one z = 1

abbrev pub default_lease_ttl : ℕ
default_lease_ttl = 300

-- `Picker.PickNext`
unfoldable pub pick_next : String → String → ℤ → ℕ → Fake → List Lead × Fake
unfolding pick_and_claim
pick_next campaign_id worker_id batch_size now f =
    pick_and_claim campaign_id worker_id (at_least_one batch_size) now default_lease_ttl f

abbrev pub or_pending : LeadStatus → LeadStatus
or_pending unset = pending
or_pending s = s

-- A lead that comes without a status is pending.
unfoldable pub queued : Lead → Lead
queued l = record l { status = or_pending l.status }

-- A lead is written under its id.
unfoldable pub put_lead : Lead → List Lead → List Lead
put_lead l [] = l ∷ []
put_lead l (m ∷ ms) = if m.id == l.id then l ∷ ms else m ∷ put_lead l ms

-- `AddLeads`
unfoldable pub add_leads : List Lead → Fake → Fake
unfolding put_lead queued
add_leads [] f = f
add_leads (l ∷ ls) f = add_leads ls (record f { leads = put_lead (queued l) f.leads })

-- The status after a call.
unfoldable pub status_after : String → LeadStatus
status_after outcome =
    if outcome == "converted"
    then done
    else (if outcome == "suppressed"
        then done
        else (if outcome == "max_retries"
            then done
            else (if outcome == "failed" then failed else pending)))

unfoldable pub attempted : String → ℕ → Lead → Lead
unfolding status_after
attempted outcome now l = record l {
  last_attempt_at = some now;
  retry_count = l.retry_count + 1;
  processing_until = none;
  worker_id = "";
  status = status_after outcome;
}

-- The lead of an id is changed, or there is none.
unfoldable pub change_lead : String → (Lead → Lead) → List Lead → Result (List Lead)
change_lead id g [] = err not_found
change_lead id g (l ∷ ls) =
    if l.id == id
    then ok (g l ∷ ls)
    else elim (change_lead id g ls) [ err e ↦ err e | ok ms ↦ ok (l ∷ ms) ]

abbrev pub with_leads : Fake → Result (List Lead) → Result (Unit {0}) × Fake
with_leads f (err e) = (err e, f)
with_leads f (ok leads) = (ok tt, record f { leads = leads })

abbrev pub mark_session : String → ℕ → Option String → Fake → Result (Unit {0}) × Fake
mark_session outcome now none f = (err not_found, f)
mark_session outcome now (some id) f = with_leads f (change_lead id (attempted outcome now) f.leads)

-- `MarkAttempt`
unfoldable pub mark_attempt : String → String → ℕ → Fake → Result (Unit {0}) × Fake
mark_attempt call_session_id outcome now f =
    mark_session outcome now (lookup call_session_id f.sessions) f

-- `GetQueueDepth`
unfoldable pub get_queue_depth : String → Fake → ℕ
get_queue_depth tenant_id f =
    count_if (λ l. l.tenant_id == tenant_id && is_pending l.status) f.leads

-- `SetCallSession`
unfoldable pub set_call_session : String → String → Fake → Fake
set_call_session call_session_id lead_id f = record f {
  sessions = insert call_session_id lead_id f.sessions;
}
