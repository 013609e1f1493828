-- ===== src/Dispatcher/Tests/Rounds.antt =====
-- Runs of rounds, calls and windows.
use lead.Prelude.{
  Dict, ◌≡◌, refl, false, some, List, [], ◌∷◌, arith, pos, ok, All, string_eq, lookup, subst, ap,
  Result, err,
}
use lead.Pgkv.{up, get, list}
use lead.Dispatcher.Row.{DialRow, pending, int_of}
use lead.Dispatcher.Window.{in_calling_window, next_window_open, extract_window_params}
use lead.Dispatcher.Window.Opening.{next_window_open_first}
use lead.Dispatcher.RateLimit.{
  fake_limiter, fake_allowed, hour_count_of, day_count_of, CounterStore, extract_rate_limit_caps,
}
use lead.Dispatcher.Queue.{pgkv_store, pending_rows}
use lead.Dispatcher.Call.{head_or, transport_error, place_call, call_request}
use lead.Dispatcher.Call.Replies.{Leaves, place_call-Leaves}
use lead.Dispatcher.Tick.{tick_at, dispatch_campaign_at}
use lead.Dispatcher.Suppression.{SuppressionEntry, suppression_key, pgkv_suppression, is_suppressed}
use lead.Dispatcher.Tick.Compliance.{durable}
use lead.Dispatcher.Tick.Budget.{dispatch_campaign_at-Within, Within, counted, CapsWithin}
use lead.Dispatcher.Tests.Fixtures.{
  utc_calendar, utc_calendar-IsSteady, eleven, row_of, queue_rows, cfg, stamps, morning,
}

-- A list with another phone on it.
abbrev a_list : Dict SuppressionEntry
a_list = (suppression_key "t" "+919", record { reason = "asked"; created_at = 5 }) ∷ []

-- The run sends one request.
tick_at_sends :
    (tick_at
      (durable (fake_limiter stamps eleven) utc_calendar cfg)
      ("c" ∷ [])
      eleven
      (record morning { dnd = up a_list })).sent
    ≡ call_request cfg "s1" (row_of "a" pending "") ∷ []
unfolding tick_at pending_rows list extract_window_params in_calling_window fake_allowed place_call
    extract_rate_limit_caps lookup int_of is_suppressed get
tick_at_sends = refl

abbrev rows_of : Result (List DialRow) → List DialRow
rows_of (ok rows) = rows
rows_of (err e) = []

-- The due row of the campaign asks for at most 50 calls an hour and 300 a day.
caps_within :
    (rows : List DialRow)
    → (pending_rows "c" eleven morning.queue).0 ≡ ok rows
    → All (CapsWithin 50 300) rows
unfolding pending_rows list extract_rate_limit_caps lookup int_of
caps_within rows e =
    subst (λ rs. All (CapsWithin 50 300) rs) (ap rows_of e) ((omega arith, omega arith), tt)

dispatch_campaign_at-Within_example :
    Within stamps eleven "c" 50 300
      (dispatch_campaign_at
        (counted pgkv_store stamps eleven pgkv_suppression utc_calendar cfg)
        "c"
        eleven
        morning).limiter
unfolding hour_count_of day_count_of lookup
dispatch_campaign_at-Within_example =
    dispatch_campaign_at-Within pgkv_store stamps eleven pgkv_suppression utc_calendar cfg "c"
      eleven 50 300 morning caps_within (omega arith, omega arith)

place_call-Leaves_example :
    let (p, w) = place_call pgkv_store cfg (row_of "a" pending "") morning in
    Leaves "c:b" "c:a" "s1"
      (head_or morning.replies transport_error)
      (row_of "a" pending "")
      queue_rows
      p
      w.queue
unfolding lookup
place_call-Leaves_example =
    place_call-Leaves (row_of "a" pending "") queue_rows {v = row_of "a" pending ""} refl "c:b" cfg
      morning refl refl

next_window_open_first_example : in_calling_window utc_calendar 80000 10 19 tt ≡ false
unfolding in_calling_window next_window_open
next_window_open_first_example =
    next_window_open_first utc_calendar tt utc_calendar-IsSteady 70000 10 19 80000 (omega arith)
      (omega arith) refl (omega arith) (omega arith)

-- A Redis in which every counter reads 9.
abbrev nines : CounterStore (Unit {0})
nines = record { get_count = λ k r. some (pos 9); incr_with_expire = λ k n r. r }
