-- ===== src/Picker/Durable.antt =====
-- internal/store/postgres.go: the leads and the call sessions in the key-value table.
use lead.Prelude.{
  ℕ, ◌+◌, String, ◌&&◌, Option, none, some, List, [], ◌∷◌, ◌==◌, string_eq, count_if, not_found,
}
use lead.Pgkv.{Kv, Action, ◌>>=◌, ◌>>◌, pure, throw, put, get, list}
use lead.Picker.Store.{Lead, is_pending, choose, leased, queued, attempted}

-- `AddLeads`: a fault ends the loop, and what was written stays.
unfoldable pub add_leads : List Lead → Action (Kv Lead) (Unit {0})
unfolding queued put
add_leads [] = pure tt
add_leads (l ∷ ls) = put l.id (queued l) >> add_leads ls

-- One write for each chosen lead.
unfoldable pub claim_all : String → ℕ → List Lead → Action (Kv Lead) (List Lead)
unfolding leased put
claim_all worker_id until [] = pure []
claim_all worker_id until (l ∷ ls) =
    put l.id (leased worker_id until l)
    >> (claim_all worker_id until ls >>= λ rest. pure (leased worker_id until l ∷ rest))

-- What `PickAndClaim` does once the leads are read.
unfoldable pub claim_read : String → String → ℕ → ℕ → ℕ → List Lead → Action (Kv Lead) (List Lead)
unfolding choose claim_all
claim_read campaign_id worker_id batch_size now lease_ttl leads =
    claim_all worker_id (now + lease_ttl) (choose campaign_id batch_size now leads)

-- `PickAndClaim`
unfoldable pub pick_and_claim : String → String → ℕ → ℕ → ℕ → Action (Kv Lead) (List Lead)
unfolding claim_read list
pick_and_claim campaign_id worker_id batch_size now lease_ttl =
    list >>= claim_read campaign_id worker_id batch_size now lease_ttl

-- The leads and the call sessions; a session holds the id of the lead that was called.
pub record Tables : Type 0 where
  pub leads : Kv Lead
  pub sessions : Kv String

abbrev pub on_leads {ℓ} : {A : Type ℓ} → Action (Kv Lead) A → Action Tables A
on_leads m q = let (r, s) = m q.leads in (r, record q { leads = s })

abbrev pub on_sessions {ℓ} : {A : Type ℓ} → Action (Kv String) A → Action Tables A
on_sessions m q = let (r, s) = m q.sessions in (r, record q { sessions = s })

abbrev pub found {ℓ} : {A : Type ℓ} → Option A → Action Tables A
found none = throw not_found
found (some a) = pure a

-- `MarkAttempt`
unfoldable pub mark_attempt : String → String → ℕ → Action Tables (Unit {0})
unfolding attempted get put
mark_attempt call_session_id outcome now =
    on_sessions (get call_session_id) >>= found >>= λ lead_id.
    on_leads (get lead_id) >>= found >>= λ l. on_leads (put l.id (attempted outcome now l))

-- `GetQueueDepth`
unfoldable pub get_queue_depth : String → Action (Kv Lead) ℕ
unfolding list
get_queue_depth tenant_id =
    list >>= λ leads. pure (count_if (λ l. l.tenant_id == tenant_id && is_pending l.status) leads)

-- `SetCallSession`
unfoldable pub set_call_session : String → String → Action (Kv String) (Unit {0})
unfolding put
set_call_session call_session_id lead_id = put call_session_id lead_id
