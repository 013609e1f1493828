-- ===== src/Telephony/Tests.antt =====
-- Runs of the limiter and the router at concrete inputs.
use lead.Prelude.{
  ◌≤◌, ◌≡◌, refl, ◌⊎◌, String, Bool, true, false, List, [], ◌∷◌, arith, pos, ok, eq_iff,
}
use lead.Telephony.Limiter.{
  Event, runs, loses, expires, run, step, advance, advance_at, give_up, start, slips,
}
use lead.Telephony.Limiter.Cap.{lives, cap_held}
use lead.Telephony.FakeLimiter.{FakeLimiter, fake_limiter}
use lead.Telephony.Store.{Fake, fake_store, provider_failure_rate}
use lead.Telephony.Router.{
  CallRequest, Telephony, Env, Router, place_call, select, candidate, filled,
  decr_concurrency_for_call,
}
use lead.Telephony.Router.Choice.{Chosen, select-Chosen}
use lead.Telephony.Router.Demo.{OnMock, demo_isolated}
use lead.Telephony.Router.Slots.{over_fake, Kept, place_call-Kept}
use lead.Telephony.Router.Release.{on_fake, decr_once}

-- Two calls under a cap of one: the second is rejected, and the first releases its slot.
abbrev two_calls : List Event
two_calls = runs 0 ∷ runs 1 ∷ runs 0 ∷ runs 1 ∷ runs 0 ∷ []

cap_held_example : lives (run 1 (runs 0 ∷ runs 1 ∷ loses 1 ∷ []) (start 2)).slots ≤ 1
unfolding slips step advance_at advance give_up
cap_held_example = cap_held 1 2 (runs 0 ∷ runs 1 ∷ loses 1 ∷ []) refl

-- A key that expires while its calls go on lets a second call in under a cap of one.
expiry_slips : lives (run 1 (runs 0 ∷ expires ∷ runs 1 ∷ []) (start 2)).slots ≡ 2
unfolding run
expiry_slips = refl

abbrev tenant : String
tenant = "t"

abbrev full : FakeLimiter
full = record { counts = ("t", 1) ∷ []; max = 1; incrted = [] }

abbrev vobiz : Telephony
vobiz = record { name = "vobiz"; healthy = true; place_call = λ req. ok "call-1" }

abbrev mock : Telephony
mock = record { name = "mock"; healthy = true; place_call = λ req. ok "mock-1" }

abbrev env : Env
env = record { demo_flag = false; normalize = λ s. s }

abbrev fresh : Fake
fresh = record {
  call_sessions = [];
  routing_rules =
      record { provider_id = "mock"; region = ""; priority = pos 5; max_fail_rate = 50 }
      ∷ record { provider_id = "vobiz"; region = ""; priority = pos 1; max_fail_rate = 50 }
      ∷ [];
  health_checks = [];
  provider_fails = [];
  idempotency_keys = [];
}

abbrev empty : FakeLimiter
empty = record { counts = []; max = 3; incrted = [] }

abbrev request : Bool → CallRequest
request demo = record {
  session_id = "s1";
  tenant_id = "t";
  from_number = "+912";
  to_number = "+911";
  callback_url = "https://hook";
  region = "in";
  max_duration = pos 0;
  demo = demo;
}

abbrev router : Router Fake FakeLimiter
router = over_fake (fake_store 1000) (mock ∷ vobiz ∷ []) 300 env

select-Chosen_example : Chosen router "in" fresh fresh.routing_rules vobiz
unfolding select candidate provider_failure_rate
select-Chosen_example = select-Chosen router "in" fresh fresh.routing_rules {a = vobiz} refl refl

demo_isolated_example :
    let (res, s, l) = place_call router 1000 "s2" (request true) fresh empty in
    OnMock res × (l ≡ empty)
demo_isolated_example = demo_isolated router 1000 "s2" (request true) fresh empty refl

place_call-Kept_example :
    let req = filled router "s2" (request false) in
    Kept
      (fake_store 1000)
      (mock ∷ vobiz ∷ [])
      300
      env
      req
      fresh
      empty
      (place_call router 1000 "s2" (request false) fresh empty).2
place_call-Kept_example =
    place_call-Kept (fake_store 1000) (mock ∷ vobiz ∷ []) 300 env 1000 "s2" (request false) fresh
      empty

decr_once_example :
    let r = on_fake fake_limiter (mock ∷ vobiz ∷ []) 300 env 1000 in
    let (_, s₁, l₁) = decr_concurrency_for_call r "call-1" "t" fresh full in
    let (_, s₂, l₂) = decr_concurrency_for_call r "call-1" "u" s₁ l₁ in
    (l₁ ≡ full) ⊎ ((l₂ ≡ l₁) × (s₂ ≡ s₁))
decr_once_example =
    decr_once fake_limiter (mock ∷ vobiz ∷ []) 300 env 1000 "call-1" "t" "u" fresh full
      (λ e. ground (arith, (eq_iff "call-1" "").1 e))
