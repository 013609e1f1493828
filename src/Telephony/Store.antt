-- ===== src/Telephony/Store.antt =====
-- internal/model/model.go and internal/store/fake.go: what the router asks of its store, and the
-- in-memory store. A failure rate is a quotient, held as its two parts; the greatest rate of a rule
-- is held in hundredths.
use lead.Prelude.{
  ℕ, ◌+◌, ◌-◌, String, Bool, true, false, ◌&&◌, not, Option, none, some, List, [], ◌∷◌, ℤ, Dict,
  insert, values, count_if, ltb, if◌then◌else◌, ◌==◌, string_eq, Result, ok, err, not_found,
}

-- `ProviderRoutingRule`
pub record Rule : Type 0 where
  pub provider_id : String
  pub region : String
  pub priority : ℤ
  pub max_fail_rate : ℕ

pub record CallSession : Type 0 where
  pub id : String
  pub tenant_id : String
  pub provider_call_id : String
  pub provider_name : String
  pub from_number : String
  pub to_number : String
  pub status : String
  pub started_at : ℕ

pub record ProviderHealthCheck : Type 0 where
  pub provider_id : String
  pub healthy : Bool
  pub checked_at : ℕ

pub record ProviderFailure : Type 0 where
  pub provider_id : String
  pub occurred_at : ℕ

-- Failures among all that was seen.
pub record Rate : Type 0 where
  pub fails : ℕ
  pub total : ℕ

-- What the router uses of the interface `store.Store`: four reads and two writes.
pub record Store (S : Type 0) : Type 0 where
  pub list_routing_rules : S → Result (List Rule)
  pub failure_rate : ℕ → String → S → Result Rate
  pub session_by_provider_call_id : String → S → Result CallSession
  pub check_idempotency_key : String → S → Result Bool
  pub set_idempotency_key : String → S → Result (Unit {0}) × S
  pub store_call_session : CallSession → S → Result (Unit {0}) × S

pub record Fake : Type 0 where
  pub call_sessions : Dict CallSession
  pub routing_rules : List Rule
  pub health_checks : List ProviderHealthCheck
  pub provider_fails : List ProviderFailure
  pub idempotency_keys : List String

abbrev pub found : Option CallSession → Result CallSession
found none = err not_found
found (some s) = ok s

-- The range over the map yields any session with the id; here it is the first that was stored.
abbrev pub first_session : String → List CallSession → Option CallSession
first_session call_id [] = none
first_session call_id (s ∷ ss) =
    if s.provider_call_id == call_id then some s else first_session call_id ss

abbrev pub has_key : String → List String → Bool
has_key key [] = false
has_key key (k ∷ ks) = if k == key then true else has_key key ks

-- `After(cutoff)` for the checks and the failures of the provider, with the window in seconds.
unfoldable pub provider_failure_rate : ℕ → ℕ → String → Fake → Rate
provider_failure_rate now window provider_id f =
    let cutoff = now - window in
    let checks =
      count_if (λ c. c.provider_id == provider_id && ltb cutoff c.checked_at) f.health_checks in
    let unhealthy =
      count_if (λ c. (c.provider_id == provider_id && ltb cutoff c.checked_at) && not c.healthy)
        f.health_checks in
    let failures =
      count_if (λ p. p.provider_id == provider_id && ltb cutoff p.occurred_at) f.provider_fails in
    record { fails = unhealthy + failures; total = checks + failures }

unfoldable pub fake_set_idempotency_key : String → Fake → Result (Unit {0}) × Fake
fake_set_idempotency_key key f =
    if has_key key f.idempotency_keys
    then (ok tt, f)
    else (ok tt, record f { idempotency_keys = key ∷ f.idempotency_keys })

abbrev pub fake_store : ℕ → Store Fake
fake_store now = record {
  list_routing_rules = λ f. ok f.routing_rules;
  failure_rate = λ window provider_id f. ok (provider_failure_rate now window provider_id f);
  session_by_provider_call_id = λ call_id f. found (first_session call_id (values f.call_sessions));
  check_idempotency_key = λ key f. ok (has_key key f.idempotency_keys);
  set_idempotency_key = fake_set_idempotency_key;
  store_call_session = λ s f. (ok tt, record f { call_sessions = insert s.id s f.call_sessions });
}
