-- ===== src/Dispatcher/RateLimit/Caps.antt =====
-- ratelimit.go: what the two limiters let through.
use lead.Prelude.{
  ℕ, ◌+◌, ◌<◌, ◌≡◌, ◌↔◌, ◌⊎◌, String, some, arith, ℤ, pos, ◌≤ℤ◌, ◌<ℤ◌, if◌then◌else◌, Dict, insert,
  lookup-insert, eq_iff, ◌^^◌, ◌==◌, string_eq,
}
use text.Mathlib.TextLemmas.{append_cancel_left, append_cancel_right}
use lead.Dispatcher.RateLimit.{
  Stamps, CounterStore, allow, effective_cap, counter, hour_key, day_key, cost_key, redis_allowed,
  FakeRateLimiter, hkey, dkey, fake_allowed, fake_record_call, hour_count_of, day_count_of,
  default_hourly_cap, default_daily_cap,
}

pub counter-insert :
    (k j : String) (n : ℕ) (m : Dict ℕ)
    → counter j (insert k n m) ≡ (if k == j then n else counter j m)
counter-insert k j n m = ground (arith, lookup-insert k j n m)

-- The key of a counter tells its campaign.
key_injective :
    (pre a b post : String) → (pre ^^ a) ^^ (":" ^^ post) ≡ (pre ^^ b) ^^ (":" ^^ post) → a ≡ b
key_injective pre a b post e =
    append_cancel_left pre a b (append_cancel_right (pre ^^ a) (pre ^^ b) (":" ^^ post) e)

module _ (st : Stamps) (now : ℕ) where
  pub hkey_injective : (a b : String) → hkey st now a ≡ hkey st now b → a ≡ b
  unfolding hkey
  hkey_injective a b = key_injective "campaign:hour:" a b (st.hour_stamp now)

  pub dkey_injective : (a b : String) → dkey st now a ≡ dkey st now b → a ≡ b
  unfolding dkey
  dkey_injective a b = key_injective "campaign:day:" a b (st.day_stamp now)

  -- Recording a call of a campaign `a` raises the hour count of a campaign `b` by one if they are the
  -- same campaign, and else leaves it.
  pub hour_count_of-record :
      (a b : String) (f : FakeRateLimiter)
      → hour_count_of st now b (fake_record_call st now a f)
        ≡ (if a == b then hour_count_of st now b f + 1 else hour_count_of st now b f)
  unfolding hour_count_of fake_record_call
  hour_count_of-record a b f = ground (
    arith,
    counter-insert (hkey st now a) (hkey st now b) (counter (hkey st now a) f.hour_count + 1)
        f.hour_count,
    eq_iff a b,
    eq_iff (hkey st now a) (hkey st now b),
    hkey_injective a b,
  )

  pub day_count_of-record :
      (a b : String) (f : FakeRateLimiter)
      → day_count_of st now b (fake_record_call st now a f)
        ≡ (if a == b then day_count_of st now b f + 1 else day_count_of st now b f)
  unfolding day_count_of fake_record_call
  day_count_of-record a b f = ground (
    arith,
    counter-insert (dkey st now a) (dkey st now b) (counter (dkey st now a) f.day_count + 1)
        f.day_count,
    eq_iff a b,
    eq_iff (dkey st now a) (dkey st now b),
    dkey_injective a b,
  )

  -- A call is allowed exactly when both counts of the campaign lie below their caps, where a cap
  -- of zero or less counts as 50 calls an hour or 500 a day.
  pub fake_allowed_iff :
      (id : String) (hourly_cap daily_cap cost_cap : ℤ) (f : FakeRateLimiter)
      → (fake_allowed st now id hourly_cap daily_cap cost_cap f ≡ allow) ↔ (
          (hour_count_of st now id f < effective_cap hourly_cap default_hourly_cap)
          × (day_count_of st now id f < effective_cap daily_cap default_daily_cap))
  unfolding fake_allowed hour_count_of day_count_of
  fake_allowed_iff id hourly_cap daily_cap cost_cap f = ground arith

  -- With all three counters readable, Redis lets a call through exactly when the hour and the day
  -- count lie below their caps (50 and 500 where a cap is not positive) and the spent paise
  -- below a positive cost cap.
  pub redis_allowed_iff :
      {R : Type 0} (redis : CounterStore R) (id : String)
      (hourly_cap daily_cap cost_cap hour day cost : ℤ) (r : R)
      → redis.get_count (hour_key st now id) r ≡ some hour
      → redis.get_count (day_key st now id) r ≡ some day
      → redis.get_count (cost_key st now id) r ≡ some cost
      → (redis_allowed st now redis id hourly_cap daily_cap cost_cap r ≡ allow) ↔ (
          (hour <ℤ pos (effective_cap hourly_cap default_hourly_cap))
          × (day <ℤ pos (effective_cap daily_cap default_daily_cap))
          × ((cost_cap ≤ℤ pos 0) ⊎ (cost <ℤ cost_cap)))
  unfolding redis_allowed
  redis_allowed_iff redis id hourly_cap daily_cap cost_cap hour day cost r eh ed ec = ground arith
