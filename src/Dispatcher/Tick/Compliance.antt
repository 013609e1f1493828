-- ===== src/Dispatcher/Tick/Compliance.antt =====
-- dispatcher.go: the requests of a tick and the compliance gates.
use lead.Prelude.{
  none, Dict, lookup, Option-cases, ℕ, ◌≡◌, refl, ◌⊎◌, inl, inr, String, true, List, [], ◌∷◌, ◌++◌,
  arith, ok, All, All-append, leb, Bool-cases, Result-cases,
}
use lead.Dispatcher.Row.{DialRow, pending}
use lead.Dispatcher.Window.{Calendar}
use lead.Dispatcher.RateLimit.{RateLimiter, Verdict, allow, extract_rate_limit_caps}
use lead.Dispatcher.Queue.{pgkv_store}
use lead.Pgkv.{Kv, up}
use lead.Dispatcher.Suppression.{SuppressionEntry, suppression_key, is_entry, pgkv_suppression}
use lead.Dispatcher.Call.{
  Config, World, CallRequest, Reply, Placement, placed, stop, skipped, place_call, call_request,
  on_reply, transport_error, response, head_or,
}
use lead.Dispatcher.Tick.{
  Deps, dispatch_row, rate_gate, on_verdict, after_call, dispatch_rows, dispatch_campaign_at,
  is_open,
}

module _ {Q L Location : Type 0} (d : Deps Q L Location) where
  -- What a reply changes is neither the list of requests nor the do-not-disturb list.
  dnd-on_reply :
      (row : DialRow) (session_id : String) (r : Reply) (w : World Q L)
      → (on_reply d.store d.cfg row session_id r w).1.dnd ≡ w.dnd
  unfolding on_reply
  dnd-on_reply row session_id transport_error w = refl
  dnd-on_reply row session_id (response status body) w = ground arith

  sent-on_reply :
      (row : DialRow) (session_id : String) (r : Reply) (w : World Q L)
      → (on_reply d.store d.cfg row session_id r w).1.sent ≡ w.sent
  unfolding on_reply
  sent-on_reply row session_id transport_error w = refl
  sent-on_reply row session_id (response status body) w = ground arith

  -- A sequence of steps that sends nothing, or one request for `row`.
  SendsOne : DialRow → World Q L → World Q L → Type 0
  SendsOne row w w' =
      (w'.dnd ≡ w.dnd)
      × ((w'.sent ≡ w.sent)
          ⊎ (w'.sent ≡ w.sent ++ (call_request d.cfg (head_or w.session_ids "") row ∷ [])))

  sent-place_call :
      (row : DialRow) (w : World Q L) → SendsOne row w (place_call d.store d.cfg row w).1
  unfolding place_call SendsOne
  sent-place_call row w =
      let sid = head_or w.session_ids "" in
      let request = call_request d.cfg sid row in
      elim (Bool-cases (d.cfg.parses request.url)) [
        | inl e ↦ rw e (
          dnd-on_reply row sid (head_or w.replies transport_error) _,
          inr (sent-on_reply row sid (head_or w.replies transport_error) _),
        )
        | inr e ↦ rw e (refl, inl refl)
      ]

  dnd-after_call :
      (id : String) (p : Placement) (w : World Q L) → (after_call d id (p, w)).1.dnd ≡ w.dnd
  unfolding after_call
  dnd-after_call id placed w = refl
  dnd-after_call id stop w = refl
  dnd-after_call id skipped w = refl

  sent-after_call :
      (id : String) (p : Placement) (w : World Q L) → (after_call d id (p, w)).1.sent ≡ w.sent
  unfolding after_call
  sent-after_call id placed w = refl
  sent-after_call id stop w = refl
  sent-after_call id skipped w = refl

  sent-on_verdict :
      (id : String) (row : DialRow) (v : Verdict) (w : World Q L)
      → SendsOne row w (on_verdict d id row v w).1
  unfolding on_verdict SendsOne
  sent-on_verdict id row allow w =
      let p = place_call d.store d.cfg row w in
      rw (sent-after_call id p.0 p.1, dnd-after_call id p.0 p.1) (sent-place_call row w)
  sent-on_verdict id row _ w = (refl, inl refl)

  sent-rate_gate :
      (id : String) (row : DialRow) (w : World Q L) → SendsOne row w (rate_gate d id row w).1
  unfolding rate_gate SendsOne
  sent-rate_gate id row w =
      let (hourly, daily, cost) = extract_rate_limit_caps row.campaign_ctx in
      sent-on_verdict id row (d.ratelimit.allowed id hourly daily cost w.limiter) w

  -- What a request that was sent shows: it is the request for a row of which `Good` holds, which
  -- is not on the do-not-disturb list `list`, and whose calling window is open.
  abbrev pub Cleared : Dict SuppressionEntry → (DialRow → Type 0) → ℕ → CallRequest → Type 0
  Cleared list Good now request =
      (row : DialRow) × Good row
      × ((session_id : String) × (request ≡ call_request d.cfg session_id row))
      × (lookup (suppression_key row.tenant_id row.phone) list ≡ none)
      × (is_open d now row ≡ true)

  module _ (list : Dict SuppressionEntry)
      (reads : (tenant_id phone : String)
        → d.dnd.is_suppressed tenant_id phone (up list)
          ≡ (is_entry (lookup (suppression_key tenant_id phone) list), up list)) where
    -- The list can be read, and the requests so far are cleared.
    abbrev pub AllCleared : (DialRow → Type 0) → ℕ → World Q L → Type 0
    AllCleared Good now w = (w.dnd ≡ up list) × All (Cleared list Good now) w.sent

    gate :
        (id : String) (now : ℕ) (row : DialRow) (w : World Q L)
        → w.dnd ≡ up list
        → d.dnd.is_suppressed row.tenant_id row.phone w.dnd
          ≡ (is_entry (lookup (suppression_key row.tenant_id row.phone) list), up list)
    gate id now row w e = rw e (reads row.tenant_id row.phone)

    dispatch_row-AllCleared :
        (Good : DialRow → Type 0) (id : String) (now : ℕ) (row : DialRow) (w : World Q L)
        → Good row
        → AllCleared Good now w
        → AllCleared Good now (dispatch_row d id now row w).1
    unfolding dispatch_row SendsOne
    dispatch_row-AllCleared Good id now row w g (readable, h) =
        let w' = record w { dnd = up list } in
        rw (gate id now row w readable)
          (elim (Option-cases (lookup (suppression_key row.tenant_id row.phone) list)) [
            | inr (entry, e) ↦ rw e (refl, h)
            | inl quiet ↦ rw quiet (elim (Bool-cases (is_open d now row)) [
              | inr e ↦ rw e (refl, h)
              | inl open_now ↦
                  let (same, sent) = sent-rate_gate id row w' in
                  rw open_now (
                    same,
                    elim sent [
                      | inl e ↦ rw e h
                      | inr e ↦ rw e (
                          All-append (Cleared list Good now) w.sent _ h
                            ((row, g, (head_or w.session_ids "", refl), quiet, open_now), tt))
                    ],
                  )
            ])
          ])

    dispatch_rows-AllCleared :
        (Good : DialRow → Type 0) (id : String) (now : ℕ) (rows : List DialRow) (w : World Q L)
        → All Good rows
        → AllCleared Good now w
        → AllCleared Good now (dispatch_rows d id now rows w)
    unfolding dispatch_rows
    dispatch_rows-AllCleared Good id now [] w g h = h
    dispatch_rows-AllCleared Good id now (row ∷ rows) w g h =
        let one = dispatch_row-AllCleared Good id now row w g.0 h in
        elim (Bool-cases (dispatch_row d id now row w).0) [
          | inl e ↦
              rw e
                (dispatch_rows-AllCleared Good id now rows (dispatch_row d id now row w).1 g.1 one)
          | inr e ↦ rw e one
        ]

    -- Every request that a campaign's round sends is for a row that the store returned as pending,
    -- that is not on the do-not-disturb list, and whose calling window is open at that time; the
    -- requests sent before stay. This holds of any store of rows and any limiter.
    pub dispatch_campaign_at-AllCleared :
        (Good : DialRow → Type 0) (id : String) (now : ℕ) (w : World Q L)
        → ((rows : List DialRow)
            → (d.store.pending_rows id now w.queue).0 ≡ ok rows
            → All Good rows)
        → AllCleared Good now w
        → AllCleared Good now (dispatch_campaign_at d id now w)
    unfolding dispatch_campaign_at
    dispatch_campaign_at-AllCleared Good id now w good h =
        elim (Result-cases (d.store.pending_rows id now w.queue).0) [
          | inl (rows, e) ↦ rw e (
              dispatch_rows-AllCleared Good id now rows
                (record w { queue = (d.store.pending_rows id now w.queue).1 }) (good rows e) h)
          | inr (x, e) ↦ rw e h
        ]

-- Pending and due at `now`.
abbrev pub IsPendingAt : ℕ → DialRow → Type 0
IsPendingAt now r = (r.status ≡ pending) × (leb r.next_attempt_at now ≡ true)

-- The gates over the durable stores.
module _ {L Location : Type 0} (ratelimit : RateLimiter L) (calendar : Calendar Location)
    (cfg : Config) where
  abbrev pub durable : Deps (Kv DialRow) L Location
  durable = record {
    store = pgkv_store;
    ratelimit = ratelimit;
    dnd = pgkv_suppression;
    calendar = calendar;
    cfg = cfg;
  }
