-- ===== src/Dispatcher/Tick/Budget.antt =====
-- dispatcher.go and ratelimit.go: what a round of a campaign spends of its caps.
use lead.Prelude.{
  ℕ, ◌≤◌, ◌≡◌, refl, ◌⊎◌, inl, inr, String, List, [], ◌∷◌, arith, ok, All, Bool-cases, Result-cases,
  string_eq, string_beq_refl, ap,
}
use lead.Pgkv.{Kv}
use lead.Dispatcher.Suppression.{SuppressionEntry, SuppressionStore}
use lead.Dispatcher.Row.{DialRow}
use lead.Dispatcher.Window.{Calendar}
use lead.Dispatcher.RateLimit.{
  Verdict, allow, extract_rate_limit_caps, Stamps, FakeRateLimiter, fake_limiter, hour_count_of,
  day_count_of, effective_cap, default_hourly_cap, default_daily_cap,
}
use lead.Dispatcher.RateLimit.Caps.{fake_allowed_iff, hour_count_of-record, day_count_of-record}
use lead.Dispatcher.Queue.{DialQueueStore}
use lead.Dispatcher.Call.{
  Config, World, Reply, Placement, placed, stop, skipped, place_call, on_reply, transport_error,
  response, head_or, call_request,
}
use lead.Dispatcher.Tick.{
  Deps, dispatch_row, rate_gate, on_verdict, after_call, dispatch_rows, dispatch_campaign_at,
  is_open,
}

module _ {Q L Location : Type 0} (d : Deps Q L Location) where
  -- `placeCall` does not touch the limiter.
  limiter-on_reply :
      (row : DialRow) (sid : String) (r : Reply) (w : World Q L)
      → (on_reply d.store d.cfg row sid r w).1.limiter ≡ w.limiter
  unfolding on_reply
  limiter-on_reply row sid transport_error w = refl
  limiter-on_reply row sid (response status body) w = ground arith

  limiter-place_call :
      (row : DialRow) (w : World Q L) → (place_call d.store d.cfg row w).1.limiter ≡ w.limiter
  unfolding place_call
  limiter-place_call row w =
      elim (Bool-cases (d.cfg.parses (call_request d.cfg (head_or w.session_ids "") row).url)) [
        | inl e ↦
            rw e (
              limiter-on_reply row (head_or w.session_ids "") (head_or w.replies transport_error) _)
        | inr e ↦ rw e
      ]

  -- The limiter is left alone, or it has let the call through and counted it.
  Spends : String → DialRow → L → L → Type 0
  Spends id row l l' =
      let (hourly, daily, cost) = extract_rate_limit_caps row.campaign_ctx in
      (l' ≡ l)
      ⊎ ((d.ratelimit.allowed id hourly daily cost l ≡ allow) × (l' ≡ d.ratelimit.record_call id l))

  spends_on_call :
      (id : String) (row : DialRow) (w : World Q L) (p : Placement) (w' : World Q L)
      → w'.limiter ≡ w.limiter
      → let l' = (after_call d id (p, w')).1.limiter in
        (l' ≡ w.limiter) ⊎ (l' ≡ d.ratelimit.record_call id w.limiter)
  unfolding after_call
  spends_on_call id row w placed w' e = inr (ap (d.ratelimit.record_call id) e)
  spends_on_call id row w stop w' e = inl e
  spends_on_call id row w skipped w' e = inl e

  spends_on_verdict :
      (id : String) (row : DialRow) (v : Verdict) (w : World Q L)
      → let l' = (on_verdict d id row v w).1.limiter in
        (l' ≡ w.limiter) ⊎ ((v ≡ allow) × (l' ≡ d.ratelimit.record_call id w.limiter))
  unfolding on_verdict
  spends_on_verdict id row allow w =
      let (p, w') = place_call d.store d.cfg row w in
      elim (spends_on_call id row w p w' (limiter-place_call row w)) [
        | inl e ↦ inl e
        | inr e ↦ inr (refl, e)
      ]
  spends_on_verdict id row _ w = inl refl

  dispatch_row-Spends :
      (id : String) (now : ℕ) (row : DialRow) (w : World Q L)
      → Spends id row w.limiter (dispatch_row d id now row w).1.limiter
  unfolding dispatch_row Spends rate_gate
  dispatch_row-Spends id now row w =
      elim (Bool-cases (d.dnd.is_suppressed row.tenant_id row.phone w.dnd).0) [
        | inl e ↦ rw e (inl refl)
        | inr quiet ↦ rw quiet (elim (Bool-cases (is_open d now row)) [
          | inr e ↦ rw e (inl refl)
          | inl open_now ↦
              let (hourly, daily, cost) = extract_rate_limit_caps row.campaign_ctx in
              rw open_now (
                spends_on_verdict id row (d.ratelimit.allowed id hourly daily cost w.limiter)
                  (record w { dnd = (d.dnd.is_suppressed row.tenant_id row.phone w.dnd).1 }))
        ])
      ]

-- The counts of a campaign lie within `hours` and `days`.
abbrev pub Within : Stamps → ℕ → String → ℕ → ℕ → FakeRateLimiter → Type 0
Within st clock id hours days l =
    (hour_count_of st clock id l ≤ hours) × (day_count_of st clock id l ≤ days)

-- The caps of a row, with the defaults put in, lie within `hours` and `days`.
abbrev pub CapsWithin : ℕ → ℕ → DialRow → Type 0
CapsWithin hours days row =
    let (hourly, daily, cost) = extract_rate_limit_caps row.campaign_ctx in
    (effective_cap hourly default_hourly_cap ≤ hours)
    × (effective_cap daily default_daily_cap ≤ days)

module _ {Q Location : Type 0} (store : DialQueueStore Q) (st : Stamps) (clock : ℕ)
    (dnd : SuppressionStore (Kv SuppressionEntry)) (calendar : Calendar Location)
    (cfg : Config) where
  abbrev pub counted : Deps Q FakeRateLimiter Location
  counted = record {
    store = store;
    ratelimit = fake_limiter st clock;
    dnd = dnd;
    calendar = calendar;
    cfg = cfg;
  }

  Spends-Within :
      (id : String) (row : DialRow) (hours days : ℕ) (l l' : FakeRateLimiter)
      → CapsWithin hours days row
      → Spends counted id row l l'
      → Within st clock id hours days l
      → Within st clock id hours days l'
  unfolding Spends
  Spends-Within id row hours days l l' caps (inl e) h = rw e h
  Spends-Within id row hours days l l' caps (inr (ok_, e)) h =
      let (hourly, daily, cost) = extract_rate_limit_caps row.campaign_ctx in
      let below = (fake_allowed_iff st clock id hourly daily cost l).0 ok_ in
      rw e (
        ground (
          arith,
          below,
          hour_count_of-record st clock id id l,
          day_count_of-record st clock id id l,
          string_beq_refl id,
        ))

  dispatch_rows-Within :
      (id : String) (now hours days : ℕ) (rows : List DialRow) (w : World Q FakeRateLimiter)
      → All (CapsWithin hours days) rows
      → Within st clock id hours days w.limiter
      → Within st clock id hours days (dispatch_rows counted id now rows w).limiter
  unfolding dispatch_rows
  dispatch_rows-Within id now hours days [] w caps h = h
  dispatch_rows-Within id now hours days (row ∷ rows) w caps h =
      let w' = (dispatch_row counted id now row w).1 in
      let one =
        Spends-Within id row hours days w.limiter w'.limiter caps.0
          (dispatch_row-Spends counted id now row w) h in
      elim (Bool-cases (dispatch_row counted id now row w).0) [
        | inl e ↦ rw e (dispatch_rows-Within id now hours days rows w' caps.1 one)
        | inr e ↦ rw e one
      ]

  -- With the in-memory limiter, at one reading of its clock: if the counts of a campaign and the
  -- caps on all its due rows lie within the same bounds, a round leaves the counts within them,
  -- whatever the store and the telephony adapter do.
  pub dispatch_campaign_at-Within :
      (id : String) (now hours days : ℕ) (w : World Q FakeRateLimiter)
      → ((rows : List DialRow)
          → (store.pending_rows id now w.queue).0 ≡ ok rows
          → All (CapsWithin hours days) rows)
      → Within st clock id hours days w.limiter
      → Within st clock id hours days (dispatch_campaign_at counted id now w).limiter
  unfolding dispatch_campaign_at
  dispatch_campaign_at-Within id now hours days w caps h =
      elim (Result-cases (store.pending_rows id now w.queue).0) [
        | inl (rows, e) ↦ rw e (
            dispatch_rows-Within id now hours days rows
              (record w { queue = (store.pending_rows id now w.queue).1 }) (caps rows e) h)
        | inr (x, e) ↦ rw e h
      ]
