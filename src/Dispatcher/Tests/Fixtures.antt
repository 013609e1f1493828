-- ===== src/Dispatcher/Tests/Fixtures.antt =====
-- The data of the runs: a campaign with two leads, a calendar in UTC, and a telephony adapter.
use lead.Prelude.{ℕ, ◌+◌, ◌*◌, ◌/◌, ◌%◌, String, ◌^^◌, true, some, [], ◌∷◌, arith, pos, Dict}
use lead.Pgkv.{Kv, up}
use lead.Dispatcher.Row.{num, DialRow, RowStatus, pending, in_flight}
use lead.Dispatcher.Window.{Calendar, IsSteady}
use lead.Dispatcher.RateLimit.{Stamps, FakeRateLimiter}
use lead.Dispatcher.Call.{Config, World, response}
use lead.Dispatcher.Launch.{Services, answer, CampaignLimits}

-- Days and hours since the epoch.
abbrev pub utc_calendar : Calendar (Unit {0})
utc_calendar = record {
  utc = tt;
  load_location = λ _. some tt;
  hour = λ t _. t % 86400 / 3600;
  day = λ t _. t / 86400;
  date = λ d h _. d * 86400 + h * 3600;
}

pub utc_calendar-IsSteady : IsSteady utc_calendar tt
utc_calendar-IsSteady = record {
  day_mono = λ t u le. omega arith;
  hour_mono = λ t u le same. omega arith;
  date_day = λ t d h later lt. (omega arith, omega arith);
  date_first = λ t d h u later lt before. ground arith;
}

abbrev pub eleven : ℕ
eleven = 39600

abbrev pub row_of : String → RowStatus → String → DialRow
row_of lead_id status call_id = record {
  id = "c:" ^^ lead_id;
  campaign_id = "c";
  tenant_id = "t";
  lead_id = lead_id;
  phone = "+911";
  project_id = "p";
  kb_version_id = "k";
  attempts = 0;
  status = status;
  next_attempt_at = 100;
  disposition = "";
  provider_call_id = call_id;
  campaign_ctx = some (("_daily_call_cap", num (pos 300)) ∷ []);
}

abbrev pub queue_rows : Dict DialRow
queue_rows = ("c:a", row_of "a" pending "") ∷ ("c:b", row_of "b" in_flight "call-b") ∷ []

abbrev pub cfg : Config
cfg = record {
  parses = λ _. true;
  telephony_url = "http://telephony/";
  from_number = "+912";
  public_webhook_base_url = "https://hook";
}

abbrev pub stamps : Stamps
stamps = record { hour_stamp = λ _. "1970010111"; day_stamp = λ _. "19700101" }

abbrev pub fresh_limiter : FakeRateLimiter
fresh_limiter = record { hour_count = []; day_count = [] }

-- The adapter accepts one call.
abbrev pub morning : World (Kv DialRow) FakeRateLimiter
morning = record {
  queue = up queue_rows;
  limiter = fresh_limiter;
  redis = up [];
  dnd = up [];
  replies = response 202 (some "call-a") ∷ [];
  session_ids = "s1" ∷ [];
  sent = [];
}

abbrev pub limits : CampaignLimits
limits = record {
  max_call_seconds = pos 300;
  hourly_call_cap = pos 7;
  daily_call_cap = pos 40;
  cost_cap_inr = pos 1250;
  retry_max = pos 5;
  retry_busy_min = pos 0;
  retry_no_answer_min = pos 90;
  call_window_start_hour = pos 9;
  call_window_end_hour = pos 18;
  timezone = "Asia/Kolkata";
}

-- Two leads, of which one has a phone.
abbrev pub services : Services
services = record {
  campaign = λ _.
      answer 200
        (some record { tenant_id = "t"; project_id = "p"; kb_version_id = "k"; context = [] });
  limits = λ _. answer 200 (some limits);
  leads = λ _. answer 200 (some ("a" ∷ "b" ∷ []));
  lead = λ _ _.
      answer 200 (some record { lead_phone = ""; lead_contact_phone = "+911"; contact_phone = "" });
}
