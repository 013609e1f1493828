-- ===== src/Dispatcher/Launch/Limits.antt =====
-- dispatcher.go and compliance.go: the limits that a launch writes into the rows, and what the
-- dispatcher reads of them.
use lead.Prelude.{
  ℕ, zero, suc, ◌-◌, ◌*◌, ◌/◌, ◌<◌, ◌≡◌, refl, ap, some, arith, Dict, lookup, lookup-insert, ℤ, pos,
  negsuc, string_eq,
}
use lead.Dispatcher.Row.{Value, num, str, int_of, minus}
use lead.Dispatcher.Window.{positive, positive_int, nonneg_or_zero, configured_hours, window_hours}
use lead.Dispatcher.Retry.{extract_retry_policy, or_default}
use lead.Dispatcher.RateLimit.{extract_rate_limit_caps}
use lead.Dispatcher.Launch.{CampaignLimits, campaign_ctx_map, float_of, rounded}

-- The ints that a float64 holds exactly.
abbrev pub IsExact : ℤ → Type 0
IsExact (pos n) = n < 9007199254740992
IsExact (negsuc n) = suc n < 9007199254740992

rounded_exact : (n : ℕ) → n < 9007199254740992 → rounded 11 1 n ≡ n
unfolding rounded
rounded_exact n small = ground (arith, small)

-- A Go int of at most 53 bits survives the way through a JSON number.
pub int_of-float_of : (z : ℤ) → IsExact z → int_of (float_of z) ≡ z
unfolding int_of float_of
int_of-float_of (pos n) small =
    let e : n * 100 / 100 ≡ n = omega arith in rw (rounded_exact n small) (ap pos e)
int_of-float_of (negsuc n) small =
    let e : suc (suc n * 100 - 1) / 100 ≡ suc n = omega arith in
    rw (rounded_exact (suc n) small) (ap minus e)

-- Each key of the map holds what the launch wrote under it.
pub lookup-campaign_ctx_map :
    (context : Dict Value) (l : CampaignLimits)
    → let m = campaign_ctx_map context l in
      (lookup "_hourly_call_cap" m ≡ some (num (float_of l.hourly_call_cap)))
      × (lookup "_daily_call_cap" m ≡ some (num (float_of l.daily_call_cap)))
      × (lookup "_cost_cap_inr" m ≡ some (num l.cost_cap_inr))
      × (lookup "_retry_max" m ≡ some (num (float_of l.retry_max)))
      × (lookup "_retry_busy_min" m ≡ some (num (float_of l.retry_busy_min)))
      × (lookup "_retry_no_answer_min" m ≡ some (num (float_of l.retry_no_answer_min)))
      × (lookup "_call_window_start_hour" m ≡ some (num (float_of l.call_window_start_hour)))
      × (lookup "_call_window_end_hour" m ≡ some (num (float_of l.call_window_end_hour)))
      × (lookup "_timezone" m ≡ some (str l.timezone))
unfolding campaign_ctx_map
lookup-campaign_ctx_map context l = (
  simp lookup-insert,
  simp lookup-insert,
  simp lookup-insert,
  simp lookup-insert,
  simp lookup-insert,
  simp lookup-insert,
  simp lookup-insert,
  simp lookup-insert,
  simp lookup-insert,
)

-- A positive limit, or the default.
abbrev pub limit_or : ℤ → ℕ → ℕ
limit_or (pos (suc n)) d = suc n
limit_or z d = d

or_default-positive :
    (z : ℤ) (d : ℕ) → IsExact z → or_default (positive (some (float_of z))) d ≡ limit_or z d
or_default-positive z d exact = rw (int_of-float_of z exact) (limit z)
  where
    limit : (y : ℤ) → or_default (positive_int y) d ≡ limit_or y d
    limit (pos zero) = refl
    limit (pos (suc n)) = refl
    limit (negsuc n) = refl

-- The window that limits ask for: a positive end hour sets it, or else it is 10 to 19.
abbrev pub hours_of : ℤ → ℤ → ℕ × ℕ
hours_of start (pos (suc n)) = (nonneg_or_zero start, suc n)
hours_of start end = (10, 19)

configured :
    (s z : ℤ)
    → IsExact s
    → IsExact z
    → configured_hours (some (float_of s)) (positive (some (float_of z))) ≡ hours_of s z
configured s z exact_s exact_z = rw (int_of-float_of z exact_z) (hours z)
  where
    hours : (y : ℤ) → configured_hours (some (float_of s)) (positive_int y) ≡ hours_of s y
    hours (pos zero) = refl
    hours (pos (suc n)) = ap (λ x. (nonneg_or_zero x, suc n)) (int_of-float_of s exact_s)
    hours (negsuc n) = refl

-- The limits are ints that a float64 holds exactly.
abbrev pub AreExact : CampaignLimits → Type 0
AreExact l =
    IsExact l.hourly_call_cap
    × IsExact l.daily_call_cap
    × IsExact l.retry_max
    × IsExact l.retry_busy_min
    × IsExact l.retry_no_answer_min
    × IsExact l.call_window_start_hour
    × IsExact l.call_window_end_hour

-- If the limits are below 2^53, so that float64 holds them exactly, what a launch wrote is what the
-- dispatcher reads: the caps as they were set; each retry limit, or
-- its default where it is not positive; and the calling window as set, with a negative start read as
-- 0, or 10 to 19 if the end hour is not positive.
pub limits_roundtrip :
    (context : Dict Value) (l : CampaignLimits)
    → AreExact l
    → let c = some (campaign_ctx_map context l) in
      (extract_rate_limit_caps c ≡ (l.hourly_call_cap, l.daily_call_cap, l.cost_cap_inr))
      × ((extract_retry_policy c).retry_max ≡ limit_or l.retry_max 3)
      × ((extract_retry_policy c).retry_busy_min ≡ limit_or l.retry_busy_min 20)
      × ((extract_retry_policy c).retry_no_answer_min ≡ limit_or l.retry_no_answer_min 180)
      × (window_hours c ≡ hours_of l.call_window_start_hour l.call_window_end_hour)
unfolding extract_rate_limit_caps extract_retry_policy window_hours
limits_roundtrip context l (x_hourly, x_daily, x_max, x_busy, x_no_answer, x_start, x_end) =
    let (hourly, daily, cost, retries, busy, no_answer, start, end, _) =
      lookup-campaign_ctx_map context l in
    (
      rw (
        hourly,
        daily,
        cost,
        int_of-float_of l.hourly_call_cap x_hourly,
        int_of-float_of l.daily_call_cap x_daily,
      ),
      rw retries (or_default-positive l.retry_max 3 x_max),
      rw busy (or_default-positive l.retry_busy_min 20 x_busy),
      rw no_answer (or_default-positive l.retry_no_answer_min 180 x_no_answer),
      rw (start, end) (configured l.call_window_start_hour l.call_window_end_hour x_start x_end),
    )
