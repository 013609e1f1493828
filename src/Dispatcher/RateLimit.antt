-- ===== src/Dispatcher/RateLimit.antt =====
-- ratelimit.go: hourly, daily and cost caps for each campaign.
pub mod Caps
use lead.Prelude.{
  ℕ, suc, ◌+◌, ◌*◌, String, ◌^^◌, Bool, true, false, Option, none, some, arith, ℤ, pos, negsuc, ltb,
  leb_ℤ, ltb_ℤ, if◌then◌else◌, Dict, lookup, insert,
}
use lead.Dispatcher.Row.{Ctx, read_num, int_of}

abbrev pub default_hourly_cap : ℕ
default_hourly_cap = 50

abbrev pub default_daily_cap : ℕ
default_daily_cap = 500

-- `(true, "")`, or `(false, reason)` with the cap that was reached.
pub data Verdict : Type 0 where
  allow hourly_cap_reached daily_cap_reached cost_cap_reached : Verdict

-- The interface `RateLimiter`: caps are Go ints, the cost cap is in hundredths of a rupee.
pub record RateLimiter (S : Type 0) : Type 0 where
  pub allowed : String → ℤ → ℤ → ℤ → S → Verdict
  pub record_call : String → S → S

abbrev pub int_or_zero : Option ℤ → ℤ
int_or_zero none = pos 0
int_or_zero (some v) = int_of v

abbrev pub num_or_zero : Option ℤ → ℤ
num_or_zero none = pos 0
num_or_zero (some v) = v

-- `extractRateLimitCaps`
unfoldable pub extract_rate_limit_caps : Ctx → ℤ × ℤ × ℤ
extract_rate_limit_caps c = (
  int_or_zero (read_num "_hourly_call_cap" c),
  int_or_zero (read_num "_daily_call_cap" c),
  num_or_zero (read_num "_cost_cap_inr" c),
)

-- A cap of zero or less is not configured.
abbrev pub effective_cap : ℤ → ℕ → ℕ
effective_cap (pos (suc n)) d = suc n
effective_cap cap d = d

-- The texts of `time.Format` with the layouts 2006010215 and 20060102, in UTC.
pub record Stamps : Type 0 where
  pub hour_stamp : ℕ → String
  pub day_stamp : ℕ → String

-- A Go map of counters: a missing key reads 0.
abbrev pub counter : String → Dict ℕ → ℕ
counter k m = elim (lookup k m) [ none ↦ 0 | some n ↦ n ]

-- What the limiter asks of Redis: GET, which may fail, and the pipeline INCR, EXPIRE.
pub record CounterStore (R : Type 0) : Type 0 where
  pub get_count : String → R → Option ℤ
  pub incr_with_expire : String → ℕ → R → R

module _ (st : Stamps) (now : ℕ) where
  pub hour_key : String → String
  hour_key campaign_id = ("campaign:rate:hour:" ^^ campaign_id) ^^ (":" ^^ st.hour_stamp now)

  pub day_key : String → String
  day_key campaign_id = ("campaign:rate:day:" ^^ campaign_id) ^^ (":" ^^ st.day_stamp now)

  pub cost_key : String → String
  cost_key campaign_id = ("campaign:cost:day:" ^^ campaign_id) ^^ (":" ^^ st.day_stamp now)

  module _ {R : Type 0} (redis : CounterStore R) where
    -- The cost check: the counter holds paise.
    cost_allowed : String → ℤ → R → Verdict
    unfolding cost_key
    cost_allowed campaign_id cost_cap_inr r =
        if ltb_ℤ (pos 0) cost_cap_inr
        then elim (redis.get_count (cost_key campaign_id) r) [
          | none ↦ allow
          | some cost ↦ if leb_ℤ cost_cap_inr cost then cost_cap_reached else allow
        ]
        else allow

    -- `RedisRateLimiter.Allowed`: a read that fails lets the call through.
    unfoldable pub redis_allowed : String → ℤ → ℤ → ℤ → R → Verdict
    unfolding cost_allowed hour_key day_key
    redis_allowed campaign_id hourly_cap daily_cap cost_cap_inr r =
        elim (redis.get_count (hour_key campaign_id) r) [
          | none ↦ allow
          | some hour ↦
              if leb_ℤ (pos (effective_cap hourly_cap default_hourly_cap)) hour
              then hourly_cap_reached
              else elim (redis.get_count (day_key campaign_id) r) [
                | none ↦ allow
                | some day ↦
                    if leb_ℤ (pos (effective_cap daily_cap default_daily_cap)) day
                    then daily_cap_reached
                    else cost_allowed campaign_id cost_cap_inr r
              ]
        ]

    -- `RedisRateLimiter.RecordCall`
    unfoldable pub redis_record_call : String → R → R
    unfolding hour_key day_key
    redis_record_call campaign_id r =
        redis.incr_with_expire (day_key campaign_id) 86400
          (redis.incr_with_expire (hour_key campaign_id) 3600 r)

    abbrev pub redis_limiter : RateLimiter R
    redis_limiter = record { allowed = redis_allowed; record_call = redis_record_call }

-- `FakeRateLimiter`: two maps of counters. `st` and `now` are the clock that its calls read.
pub record FakeRateLimiter : Type 0 where
  pub hour_count : Dict ℕ
  pub day_count : Dict ℕ

module _ (st : Stamps) (now : ℕ) where
  pub hkey : String → String
  hkey campaign_id = ("campaign:hour:" ^^ campaign_id) ^^ (":" ^^ st.hour_stamp now)

  pub dkey : String → String
  dkey campaign_id = ("campaign:day:" ^^ campaign_id) ^^ (":" ^^ st.day_stamp now)

  unfoldable pub fake_allowed : String → ℤ → ℤ → ℤ → FakeRateLimiter → Verdict
  fake_allowed campaign_id hourly_cap daily_cap cost_cap_inr f =
      if ltb (counter (hkey campaign_id) f.hour_count) (effective_cap hourly_cap default_hourly_cap)
      then (if ltb (counter (dkey campaign_id) f.day_count)
            (effective_cap daily_cap default_daily_cap)
          then allow
          else daily_cap_reached)
      else hourly_cap_reached

  unfoldable pub fake_record_call : String → FakeRateLimiter → FakeRateLimiter
  fake_record_call campaign_id f = record f {
    hour_count =
        insert (hkey campaign_id) (counter (hkey campaign_id) f.hour_count + 1) f.hour_count;
    day_count = insert (dkey campaign_id) (counter (dkey campaign_id) f.day_count + 1) f.day_count;
  }

  abbrev pub fake_limiter : RateLimiter FakeRateLimiter
  fake_limiter = record { allowed = fake_allowed; record_call = fake_record_call }

  -- `HourCount`, `DayCount` and `SetHourCount`
  unfoldable pub hour_count_of : String → FakeRateLimiter → ℕ
  unfolding hkey
  hour_count_of campaign_id f = counter (hkey campaign_id) f.hour_count

  unfoldable pub day_count_of : String → FakeRateLimiter → ℕ
  unfolding dkey
  day_count_of campaign_id f = counter (dkey campaign_id) f.day_count

-- `NoopRateLimiter`
abbrev pub noop_limiter : RateLimiter (Unit {0})
noop_limiter = record { allowed = λ _ _ _ _ _. allow; record_call = λ _ s. s }
