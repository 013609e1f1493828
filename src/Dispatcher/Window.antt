-- ===== src/Dispatcher/Window.antt =====
-- compliance.go: the TRAI calling window. Go's `time` package is a parameter.
pub mod Opening
use lead.Prelude.{
  ℕ, zero, suc, ◌+◌, ◌≤◌, ◌<◌, ◌≡◌, ◌⊎◌, String, Bool, ◌&&◌, not, Option, none, some, arith, ℤ, pos,
  negsuc, ltb, leb, if◌then◌else◌, ◌==◌, string_eq,
}
use lead.Dispatcher.Row.{Ctx, read_num, read_str, int_of}

abbrev pub default_call_window_start_hour : ℕ
default_call_window_start_hour = 10

abbrev pub default_call_window_end_hour : ℕ
default_call_window_end_hour = 19

abbrev pub default_timezone : String
default_timezone = "Asia/Kolkata"

-- What the code calls of the package `time`: the local calendar of a location. A date is given as
-- a number of days.
pub record Calendar (Location : Type 0) : Type 0 where
  pub utc : Location
  pub load_location : String → Option Location
  pub hour : ℕ → Location → ℕ
  pub day : ℕ → Location → ℕ
  pub date : ℕ → ℕ → Location → ℕ

-- Documented behaviour in a location whose clock is never put forward or back (as Asia/Kolkata):
-- the local clock follows the order of the instants, and `time.Date` is the first instant of the
-- hour that it names, here asked only for hours after the present one.
pub record IsSteady {L : Type 0} (cal : Calendar L) (loc : L) : Type 0 where
  pub day_mono : (t u : ℕ) → t ≤ u → cal.day t loc ≤ cal.day u loc
  pub hour_mono :
      (t u : ℕ) → t ≤ u → cal.day t loc ≡ cal.day u loc → cal.hour t loc ≤ cal.hour u loc
  pub date_day :
      (t d h : ℕ)
      → (cal.day t loc < d) ⊎ ((cal.day t loc ≡ d) × (cal.hour t loc < h))
      → h < 24
      → (cal.day (cal.date d h loc) loc ≡ d) × (cal.hour (cal.date d h loc) loc ≡ h)
  pub date_first :
      (t d h u : ℕ)
      → (cal.day t loc < d) ⊎ ((cal.day t loc ≡ d) × (cal.hour t loc < h))
      → h < 24
      → u < cal.date d h loc
      → (cal.day u loc < d) ⊎ ((cal.day u loc ≡ d) × (cal.hour u loc < h))

-- `int(v) > 0`, with the value.
abbrev pub positive_int : ℤ → Option ℕ
positive_int (pos (suc n)) = some (suc n)
positive_int z = none

abbrev pub positive : Option ℤ → Option ℕ
positive none = none
positive (some v) = positive_int (int_of v)

-- The start hour of a window whose end is configured: `int(v) >= 0`, or else 0.
abbrev pub nonneg_or_zero : ℤ → ℕ
nonneg_or_zero (pos n) = n
nonneg_or_zero (negsuc n) = 0

abbrev pub start_hour : Option ℤ → ℕ
start_hour none = 0
start_hour (some v) = nonneg_or_zero (int_of v)

abbrev pub configured_hours : Option ℤ → Option ℕ → ℕ × ℕ
configured_hours start none = (default_call_window_start_hour, default_call_window_end_hour)
configured_hours start (some end_h) = (start_hour start, end_h)

-- The first two results of `extractWindowParams`.
unfoldable pub window_hours : Ctx → ℕ × ℕ
window_hours c =
    configured_hours (read_num "_call_window_start_hour" c)
      (positive (read_num "_call_window_end_hour" c))

abbrev pub zone_or_default : Option String → String
zone_or_default none = default_timezone
zone_or_default (some v) = if v == "" then default_timezone else v

pub timezone : Ctx → String
timezone c = zone_or_default (read_str "_timezone" c)

module _ {L : Type 0} (cal : Calendar L) where
  -- The third result: an unknown zone is read as UTC.
  pub location_of : String → L
  location_of tz = elim (cal.load_location tz) [ none ↦ cal.utc | some loc ↦ loc ]

  unfoldable pub extract_window_params : Ctx → ℕ × ℕ × L
  unfolding window_hours timezone location_of
  extract_window_params c =
      let (start_h, end_h) = window_hours c in (start_h, end_h, location_of (timezone c))

  unfoldable pub in_calling_window : ℕ → ℕ → ℕ → L → Bool
  in_calling_window now start_h end_h loc = let h = cal.hour now loc in leb start_h h && ltb h end_h

  unfoldable pub next_window_open : ℕ → ℕ → L → ℕ
  next_window_open now start_h loc =
      let h = cal.hour now loc in
      let d = cal.day now loc in
      if ltb h start_h then cal.date d start_h loc else cal.date (d + 1) start_h loc
