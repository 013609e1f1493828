-- ===== src/Telephony/Router.antt =====
-- internal/routing/routing.go: the choice of a provider, the placing of a call within the cap of
-- its tenant, and the release of its slot.
pub mod Choice
pub mod Demo
pub mod Slots
pub mod Release
use lead.Prelude.{
  ℕ, zero, suc, ◌+◌, ◌*◌, ◌≡◌, String, ◌^^◌, Bool, true, false, ◌&&◌, ◌||◌, Option, none, some,
  List, [], ◌∷◌, ℤ, leb_ℤ, ltb, ltb_ℤ, if◌then◌else◌, ◌==◌, string_eq, Result, ok, err, Error,
  not_found, rejected,
}
use lead.Telephony.FakeLimiter.{Limiter}
use lead.Telephony.Store.{Rule, Rate, CallSession, Store}

pub record CallRequest : Type 0 where
  pub session_id : String
  pub tenant_id : String
  pub from_number : String
  pub to_number : String
  pub callback_url : String
  pub region : String
  pub max_duration : ℤ
  pub demo : Bool

-- A provider as it answers while one call is handled.
pub record Telephony : Type 0 where
  pub name : String
  pub healthy : Bool
  pub place_call : CallRequest → Result String

-- The environment: `DEMO_MODE=1`, and `strings.ToLower(strings.TrimSpace(_))` of Go's library.
pub record Env : Type 0 where
  pub demo_flag : Bool
  pub normalize : String → String

-- What a router was created with. `window` is in seconds.
pub record Router (S L : Type 0) : Type 0 where
  pub store : Store S
  pub limiter : Limiter L
  pub adapters : List Telephony
  pub window : ℕ
  pub env : Env

abbrev pub or_this : Telephony → String → Option Telephony → Option Telephony
or_this a name (some b) = some b
or_this a name none = if a.name == name then some a else none

-- `r.adapters[name]`, a map that was filled from the list: the last of a name stays.
abbrev pub adapter : String → List Telephony → Option Telephony
adapter name [] = none
adapter name (a ∷ others) = or_this a name (adapter name others)

-- `sort.Slice` by priority. Rules of one priority keep their order here; Go leaves it open.
abbrev pub insert_rule : Rule → List Rule → List Rule
insert_rule r [] = r ∷ []
insert_rule r (s ∷ ss) =
    let rest = insert_rule r ss in if leb_ℤ r.priority s.priority then r ∷ s ∷ ss else s ∷ rest

unfoldable pub sort_rules : List Rule → List Rule
sort_rules [] = []
sort_rules (r ∷ rs) = insert_rule r (sort_rules rs)

-- `failRate > rule.MaxFailRate`, where a rate with nothing seen is 0.
abbrev pub exceeds : Rate → ℕ → Bool
exceeds rate max_fail_rate = ltb (max_fail_rate * rate.total) (100 * rate.fails)

unfoldable pub has_prefix : String → String → Bool
has_prefix String.[] s = true
has_prefix (String.◌∷◌ c p) String.[] = false
has_prefix (String.◌∷◌ c p) (String.◌∷◌ d s) =
    String.◌∷◌ c String.[] == String.◌∷◌ d String.[] && has_prefix p s

unfoldable pub has_suffix : String → String → Bool
has_suffix p String.[] = p == ""
has_suffix p (String.◌∷◌ c s) = p == String.◌∷◌ c s || has_suffix p s

unfoldable pub demo_mode : Env → String → Bool
unfolding has_prefix has_suffix
demo_mode env tenant_id =
    let normalized = env.normalize tenant_id in
    env.demo_flag
    || (normalized == "tenant-demo"
        || (normalized == "demo"
            || (has_prefix "demo-" normalized || has_suffix "-demo" normalized)))

module _ {S L : Type 0} (r : Router S L) where
  abbrev pub within : Rule → Result Rate → Bool
  within rule (ok rate) = if exceeds rate rule.max_fail_rate then false else true
  within rule (err e) = false

  -- The provider that a rule offers for a region, if it is registered, healthy and fails seldom.
  abbrev pub usable : Rule → S → Option Telephony → Option Telephony
  usable rule s none = none
  usable rule s (some a) =
      if a.healthy && within rule (r.store.failure_rate r.window rule.provider_id s)
      then some a
      else none

  unfoldable pub candidate : String → S → Rule → Option Telephony
  candidate region s rule =
      if rule.region == "" || rule.region == region
      then usable rule s (adapter rule.provider_id r.adapters)
      else none

  abbrev pub or_else : Option Telephony → Result Telephony → Result Telephony
  or_else (some a) rest = ok a
  or_else none rest = rest

  unfoldable pub first_candidate : String → S → List Rule → Result Telephony
  unfolding candidate
  first_candidate region s [] = err not_found
  first_candidate region s (rule ∷ rules) =
      or_else (candidate region s rule) (first_candidate region s rules)

  abbrev pub by_rules : String → S → Result (List Rule) → Result Telephony
  by_rules region s (ok rules) = first_candidate region s (sort_rules rules)
  by_rules region s (err e) = err e

  unfoldable pub select : String → S → Result Telephony
  unfolding first_candidate sort_rules
  select region s = by_rules region s (r.store.list_routing_rules s)

  abbrev pub mock_only : Option Telephony → Result Telephony
  mock_only none = err not_found
  mock_only (some mock) = if mock.healthy then ok mock else err rejected

  unfoldable pub select_for_call : CallRequest → S → Result Telephony
  unfolding select demo_mode
  select_for_call req s =
      if req.demo || demo_mode r.env req.tenant_id
      then mock_only (adapter "mock" r.adapters)
      else select req.region s

  -- The provider counts calls against the cap of the tenant.
  abbrev pub is_capped : Telephony → CallRequest → Bool
  is_capped a req = a.name == "vobiz" && (if req.tenant_id == "" then false else true)

  -- `session_id`s that are missing are made from the clock, here `fresh_id`.
  abbrev pub filled : String → CallRequest → CallRequest
  filled fresh_id req = record req {
    session_id = if req.session_id == "" then fresh_id else req.session_id;
    max_duration = if ltb_ℤ (ℤ.pos 0) req.max_duration then req.max_duration else ℤ.pos 300;
  }

  abbrev pub session_of : ℕ → CallRequest → Telephony → String → CallSession
  session_of now req a call_id = record {
    id = req.session_id;
    tenant_id = req.tenant_id;
    provider_call_id = call_id;
    provider_name = a.name;
    from_number = req.from_number;
    to_number = req.to_number;
    status = "queued";
    started_at = now;
  }

  abbrev pub stored : CallSession → Result (Unit {0}) × S → L → Result CallSession × S × L
  stored session (ok u, s) l = (ok session, s, l)
  stored session (err e, s) l = (err e, s, l)

  -- The provider has answered: a call that it refuses gives its slot back.
  abbrev pub on_answer :
      ℕ → CallRequest → Telephony → Result String → S → L → Result CallSession × S × L
  on_answer now req a (err e) s l =
      (err e, s, (if is_capped a req then r.limiter.decr req.tenant_id l else l))
  on_answer now req a (ok call_id) s l =
      let session = session_of now req a call_id in
      stored session (r.store.store_call_session session s) l

  abbrev pub on_slot :
      ℕ → CallRequest → Telephony → Result (Unit {0}) × L → S → Result CallSession × S × L
  on_slot now req a (err e, l) s = (err e, s, l)
  on_slot now req a (ok u, l) s = on_answer now req a (a.place_call req) s l

  unfoldable pub with_provider :
      ℕ → CallRequest → Result Telephony → S → L → Result CallSession × S × L
  with_provider now req (err e) s l = (err e, s, l)
  with_provider now req (ok a) s l =
      on_slot now req a (if is_capped a req then r.limiter.incr req.tenant_id l else (ok tt, l)) s

  unfoldable pub place_call : ℕ → String → CallRequest → S → L → Result CallSession × S × L
  unfolding select_for_call with_provider
  place_call now fresh_id req s l =
      with_provider now (filled fresh_id req) (select_for_call (filled fresh_id req) s) s l

  abbrev pub decr_key : String → String
  decr_key call_id = "vobiz:concurrency:decr:" ^^ call_id

  abbrev pub tenant_of : Result CallSession → String
  tenant_of (ok session) = session.tenant_id
  tenant_of (err e) = ""

  abbrev pub on_claim : String → Result (Unit {0}) × S → L → Result (Unit {0}) × S × L
  on_claim tenant_id (ok u, s) l = (ok tt, s, r.limiter.decr tenant_id l)
  on_claim tenant_id (err e, s) l = (err e, s, l)

  abbrev pub on_check : String → String → Result Bool → S → L → Result (Unit {0}) × S × L
  on_check call_id tenant_hint (err e) s l = (err e, s, l)
  on_check call_id tenant_hint (ok true) s l = (ok tt, s, l)
  on_check call_id tenant_hint (ok false) s l =
      let tenant_id =
        if tenant_hint == ""
        then tenant_of (r.store.session_by_provider_call_id call_id s)
        else tenant_hint in
      if tenant_id == ""
      then (ok tt, s, l)
      else on_claim tenant_id (r.store.set_idempotency_key (decr_key call_id) s) l

  unfoldable pub decr_concurrency_for_call : String → String → S → L → Result (Unit {0}) × S × L
  decr_concurrency_for_call call_id tenant_hint s l =
      if call_id == ""
      then (ok tt, s, (if tenant_hint == "" then l else r.limiter.decr tenant_hint l))
      else on_check call_id tenant_hint (r.store.check_idempotency_key (decr_key call_id) s) s l
