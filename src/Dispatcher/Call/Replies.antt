-- ===== src/Dispatcher/Call/Replies.antt =====
-- dispatcher.go, `placeCall` over the durable store: what each reply makes of the row.
use lead.Prelude.{
  ℕ, ◌≤◌, ◌<◌, ◌+◌, ◌≡◌, refl, ◌≢◌, ◌⊎◌, inl, inr, String, true, Option, none, some, [], ◌∷◌, ◌++◌,
  arith, leb, if◌then◌else◌, ◌==◌, nat_eq, string_eq, eq_iff, Dict, lookup, insert, lookup-insert,
  Bool-cases, ok,
}
use lead.Pgkv.{Kv, up}
use lead.Dispatcher.Row.{DialRow, in_flight, failed}
use lead.Dispatcher.Queue.{pgkv_store, mark_failed, mark_in_flight}
use lead.Dispatcher.Queue.Update.{update_row_found}
use lead.Dispatcher.Call.{
  Config, World, Reply, transport_error, response, Placement, placed, stop, skipped, place_call,
  on_reply, on_body, head_or, rest_of, call_request,
}

pub mark_failed_found :
    (k : String) (t : Dict DialRow) {v : DialRow}
    → lookup k t ≡ some v
    → mark_failed k (up t) ≡ (ok tt, up (insert k (record v { status = failed }) t))
unfolding mark_failed
mark_failed_found k t e = update_row_found k (λ r. record r { status = failed }) t e

pub mark_in_flight_found :
    (k id : String) (t : Dict DialRow) {v : DialRow}
    → lookup k t ≡ some v
    → mark_in_flight k id (up t) ≡ (
      ok tt,
      up (
          insert k
            (record v { status = in_flight; provider_call_id = id; attempts = v.attempts + 1 })
            t),
    )
unfolding mark_in_flight
mark_in_flight_found k id t e =
    update_row_found k
      (λ r. record r { status = in_flight; provider_call_id = id; attempts = r.attempts + 1 }) t e

-- A row whose call was placed.
abbrev pub Placed : String → DialRow → DialRow → Type 0
Placed call_id v v' =
    (v'.status ≡ in_flight)
    × (v'.attempts ≡ v.attempts + 1)
    × (v'.next_attempt_at ≡ v.next_attempt_at)
    × (v'.provider_call_id ≡ call_id)

-- The call id that a body names, or else the id of the session.
abbrev pub call_id_of : String → String → String
call_id_of sid id = if id == "" then sid else id

-- What a reply of the adapter makes of the stored row `v`, and how the round goes on.
abbrev pub Expected : String → Reply → DialRow → Placement → DialRow → Type 0
Expected sid transport_error v p v' = (p ≡ skipped) × (v' ≡ record v { status = failed })
Expected sid (response status body) v p v' =
    ((status ≡ 503) × (p ≡ stop) × (v' ≡ v))
    ⊎ ((status ≢ 503)
        × ((300 ≤ status) ⊎ (body ≡ none))
        × (p ≡ skipped)
        × (v' ≡ record v { status = failed }))
    ⊎ ((status < 300)
        × ((id : String) × (body ≡ some id) × Placed (call_id_of sid id) v v')
        × (p ≡ placed))

-- What the queue holds after a reply: the row of key `k` as the reply asks, and the row of any
-- other key `j` as before.
abbrev pub Leaves :
    String → String → String → Reply → DialRow → Dict DialRow → Placement → Kv DialRow → Type 0
Leaves j k sid reply v t p q =
    (v' : DialRow) × (lookup j q.table ≡ (if k == j then some v' else lookup j t))
    × Expected sid reply v p v'

module _ (row : DialRow) (t : Dict DialRow) {v : DialRow} (stored : lookup row.id t ≡ some v)
    (j : String) where
  stays : lookup j t ≡ (if row.id == j then some v else lookup j t)
  stays = ground (arith, eq_iff row.id j)

  gives_up :
      lookup j (mark_failed row.id (up t)).1.table
      ≡ (if row.id == j then some (record v { status = failed }) else lookup j t)
  gives_up =
      rw (mark_failed_found row.id t stored)
        (lookup-insert row.id j (record v { status = failed }) t)

  accepts :
      (id : String)
      → let v' = record v {
        status = in_flight;
        provider_call_id = id;
        attempts = v.attempts + 1;
      } in
        lookup j (mark_in_flight row.id id (up t)).1.table
        ≡ (if row.id == j then some v' else lookup j t)
  accepts id =
      let v' = record v { status = in_flight; provider_call_id = id; attempts = v.attempts + 1 } in
      rw (mark_in_flight_found row.id id t stored) (lookup-insert row.id j v' t)

  body-Leaves :
      {L : Type 0} (cfg : Config) (sid : String) (status : ℕ) (body : Option String)
      (w : World (Kv DialRow) L)
      → w.queue ≡ up t
      → status ≢ 503
      → status < 300
      → let (p, w') = on_body pgkv_store cfg row sid body w in
        Leaves j row.id sid (response status body) v t p w'.queue
  unfolding on_body
  body-Leaves cfg sid status none w e other small =
      rw e (record v { status = failed }, gives_up, inr (inl (other, inr refl, refl, refl)))
  body-Leaves cfg sid status (some id) w e other small = rw e (
    record v {
      status = in_flight;
      provider_call_id = call_id_of sid id;
      attempts = v.attempts + 1;
    },
    accepts (call_id_of sid id),
    inr (inr (small, (id, refl, (refl, refl, refl, refl)), refl)),
  )

  on_reply-Leaves :
      {L : Type 0} (cfg : Config) (sid : String) (r : Reply) (w : World (Kv DialRow) L)
      → w.queue ≡ up t
      → let (p, w') = on_reply pgkv_store cfg row sid r w in Leaves j row.id sid r v t p w'.queue
  unfolding on_reply
  on_reply-Leaves cfg sid transport_error w e =
      rw e (record v { status = failed }, gives_up, (refl, refl))
  on_reply-Leaves cfg sid (response status body) w e = elim (Bool-cases (status == 503)) [
    | inl busy ↦ rw (busy, e) (v, stays, inl (ground (arith, busy), refl, refl))
    | inr other ↦
        let no_503 : status ≢ 503 = ground (arith, other) in
        rw other (elim (Bool-cases (leb 300 status)) [
          | inl bad ↦
              rw (bad, e)
                (
                  record v { status = failed },
                  gives_up,
                  inr (inl (no_503, inl (ground (arith, bad)), refl, refl)),
                )
          | inr good ↦ rw good (body-Leaves cfg sid status body w e no_503 (ground (arith, good)))
        ])
  ]

  -- Over a reachable database, a call for a stored row whose request could be made: if the adapter
  -- answers 503 (no free slot), the row stays as it was and the round stops; if it cannot be reached,
  -- answers another status of 300 or more, or answers less without JSON, the row is marked failed; if
  -- it answers less than 300 with JSON, the row is in flight with one more attempt, under the call id of
  -- the body or else the id of the session. No other row changes.
  pub place_call-Leaves :
      {L : Type 0} (cfg : Config) (w : World (Kv DialRow) L)
      → w.queue ≡ up t
      → cfg.parses (call_request cfg (head_or w.session_ids "") row).url ≡ true
      → let (p, w') = place_call pgkv_store cfg row w in
        Leaves j row.id
          (head_or w.session_ids "")
          (head_or w.replies transport_error)
          v
          t
          p
          w'.queue
  unfolding place_call
  place_call-Leaves cfg w e can = rw can (
      on_reply-Leaves cfg (head_or w.session_ids "") (head_or w.replies transport_error)
        (record w {
          session_ids = rest_of w.session_ids;
          replies = rest_of w.replies;
          sent = w.sent ++ (call_request cfg (head_or w.session_ids "") row ∷ []);
        })
        e)
