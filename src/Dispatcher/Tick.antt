-- ===== src/Dispatcher/Tick.antt =====
-- dispatcher.go, `tickAt` and `dispatchCampaignAt`: one round over the due rows of the active
-- campaigns. The do-not-disturb list is read from its table. The
-- clock that the limiter reads is part of the limiter.
pub mod Compliance
pub mod Budget
use lead.Prelude.{
  ℕ, ◌≡◌, String, Bool, true, false, Option, none, some, List, [], ◌∷◌, arith, ℤ, if◌then◌else◌,
  Result, ok, err,
}
use lead.Pgkv.{Kv, Action}
use lead.Dispatcher.Row.{DialRow, suppressed}
use lead.Dispatcher.Window.{Calendar, extract_window_params, in_calling_window, next_window_open}
use lead.Dispatcher.RateLimit.{
  RateLimiter, Verdict, allow, hourly_cap_reached, daily_cap_reached, cost_cap_reached,
  extract_rate_limit_caps,
}
use lead.Dispatcher.Queue.{DialQueueStore}
use lead.Dispatcher.Suppression.{SuppressionEntry, SuppressionStore}
use lead.Dispatcher.Call.{Config, World, Placement, placed, stop, skipped, place_call}

-- What the dispatcher was created with.
pub record Deps (Q L Location : Type 0) : Type 0 where
  pub store : DialQueueStore Q
  pub ratelimit : RateLimiter L
  pub dnd : SuppressionStore (Kv SuppressionEntry)
  pub calendar : Calendar Location
  pub cfg : Config

module _ {Q L Location : Type 0} (d : Deps Q L Location) where
  -- A failed update is dropped.
  abbrev pub update : String → (DialRow → DialRow) → World Q L → World Q L
  update id f w = record w { queue = (d.store.update_row id f w.queue).1 }

  -- The row's gates. `true` goes on to the next row, `false` ends the campaign's round.
  after_call : String → Placement × World Q L → Bool × World Q L
  after_call campaign_id (stop, w) = (false, w)
  after_call campaign_id (placed, w) =
      (true, record w { limiter = d.ratelimit.record_call campaign_id w.limiter })
  after_call campaign_id (skipped, w) = (true, w)

  on_verdict : String → DialRow → Verdict → World Q L → Bool × World Q L
  unfolding after_call
  on_verdict campaign_id row allow w = after_call campaign_id (place_call d.store d.cfg row w)
  on_verdict campaign_id row _ w = (false, w)

  rate_gate : String → DialRow → World Q L → Bool × World Q L
  unfolding on_verdict
  rate_gate campaign_id row w =
      let (hourly, daily, cost) = extract_rate_limit_caps row.campaign_ctx in
      on_verdict campaign_id row (d.ratelimit.allowed campaign_id hourly daily cost w.limiter) w

  abbrev pub is_open : ℕ → DialRow → Bool
  is_open now row =
      let (start_h, end_h, loc) = extract_window_params d.calendar row.campaign_ctx in
      in_calling_window d.calendar now start_h end_h loc

  abbrev pub next_open : ℕ → DialRow → ℕ
  next_open now row =
      let (start_h, end_h, loc) = extract_window_params d.calendar row.campaign_ctx in
      next_window_open d.calendar now start_h loc

  pub dispatch_row : String → ℕ → DialRow → World Q L → Bool × World Q L
  unfolding rate_gate
  dispatch_row campaign_id now row w =
      let (listed, s) = d.dnd.is_suppressed row.tenant_id row.phone w.dnd in
      let w' = record w { dnd = s } in
      if listed
      then (true, update row.id (λ r. record r { status = suppressed; disposition = "dnd" }) w')
      else (if is_open now row
          then rate_gate campaign_id row w'
          else (true, update row.id (λ r. record r { next_attempt_at = next_open now row }) w'))

  pub dispatch_rows : String → ℕ → List DialRow → World Q L → World Q L
  unfolding dispatch_row
  dispatch_rows campaign_id now [] w = w
  dispatch_rows campaign_id now (row ∷ rows) w =
      let (more, w') = dispatch_row campaign_id now row w in
      let rest = dispatch_rows campaign_id now rows w' in if more then rest else w'

  -- The rows read, or the round given up on a store error.
  pub on_rows : String → ℕ → Result (List DialRow) → World Q L → World Q L
  unfolding dispatch_rows
  on_rows campaign_id now (ok rows) w = dispatch_rows campaign_id now rows w
  on_rows campaign_id now (err e) w = w

  pub dispatch_campaign_at : String → ℕ → World Q L → World Q L
  unfolding on_rows
  dispatch_campaign_at campaign_id now w =
      let (rows, q) = d.store.pending_rows campaign_id now w.queue in
      on_rows campaign_id now rows (record w { queue = q })

  -- `tickAt` over the keys of the map `active`, in the order in which the range yields them.
  unfoldable pub tick_at : List String → ℕ → World Q L → World Q L
  unfolding dispatch_campaign_at
  tick_at [] now w = w
  tick_at (id ∷ ids) now w = tick_at ids now (dispatch_campaign_at id now w)
