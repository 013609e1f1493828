-- ===== src/Dispatcher/Outcome/Ladder.antt =====
-- The retries of a row, from call to call (store_pgkv.go, outcome_consumer.go): the ladder has an end.
use lead.Prelude.{
  Bool, ◌≢◌, Option, Dict, All, All-insert, All-lookup, ap, sym, subst, string_beq_refl, eq_iff, ℕ,
  ◌+◌, ◌*◌, ◌≤◌, ◌<◌, ◌≡◌, refl, ◌⊎◌, inl, inr, String, none, some, List, [], ◌∷◌, arith, length,
  Bool-cases, if◌then◌else◌, ◌==◌, string_eq, lookup, insert, lookup-insert, leb, false,
}
use lead.Dispatcher.Row.{read_str, DialRow, Value, str, Ctx, pending, done, failed}
use lead.Pgkv.{Kv, up, ◌>>◌}
use lead.Dispatcher.Queue.{status_beq, is_text, recorded_event, pgkv_store, mark_in_flight}
use lead.Dispatcher.Retry.{extract_retry_policy}
use lead.Dispatcher.Outcome.{
  on_call_outcome, outcome_change, completed_row, exhausted_row, retry_row, write_ctx,
}
use lead.Dispatcher.Outcome.Retries.{IsFresh, dialled, one_call_table}

-- A call of a row and the outcome that comes in for it.
pub record Call : Type 0 where
  pub event_id : String
  pub call_id : String
  pub status : String
  pub now : ℕ

-- What a call and its outcome make of a row of the durable queue.
unfoldable pub placed : Call → DialRow → DialRow
unfolding outcome_change
placed c r =
    outcome_change c.event_id c.call_id c.status c.now (dialled c.call_id r) (dialled c.call_id r)

-- The limit that the row's campaign sets on its attempts.
abbrev pub retry_limit : DialRow → ℕ
retry_limit r = (extract_retry_policy r.campaign_ctx).retry_max

abbrev pub is_waiting : Option DialRow → Bool
is_waiting none = false
is_waiting (some r) = status_beq r.status pending

-- The durable queue after a call of the row of an id and its outcome.
abbrev pub call_once : Call → String → Kv DialRow → Kv DialRow
call_once c row_id q =
    ((mark_in_flight row_id c.call_id
        >> on_call_outcome pgkv_store c.event_id c.call_id c.status c.now)
      q).1

-- The row is called again as long as it is pending.
unfoldable pub call_all : List Call → String → Kv DialRow → Kv DialRow
call_all [] row_id q = q
call_all (c ∷ cs) row_id q =
    let rest = call_all cs row_id (call_once c row_id q) in
    if is_waiting (lookup row_id q.table) then rest else q

-- The calls have events and call ids of their own, which no row of the table has, and none is empty.
abbrev pub AreNew : List Call → Dict DialRow → Type 0
AreNew [] t = Unit
AreNew (c ∷ cs) t =
    IsFresh c.event_id c.call_id t
    × (c.call_id ≢ "")
    × All (λ d. (d.event_id ≢ c.event_id) × (d.call_id ≢ c.call_id)) cs
    × AreNew cs t

-- The id of an event does not change the limit.
retry_limit-write :
    (v : Value) (c : Ctx)
    → (extract_retry_policy (write_ctx "_last_outcome_event_id" v c)).retry_max
      ≡ (extract_retry_policy c).retry_max
unfolding extract_retry_policy
retry_limit-write v none = unfold lookup insert in refl
retry_limit-write v (some m) =
    ground (arith, lookup-insert "_last_outcome_event_id" "_retry_max" v m)

-- After a call the row is done with, or waits for another one below its limit.
placed-next :
    (c : Call) (r : DialRow)
    → ((placed c r).status ≡ done)
      ⊎ ((placed c r).status ≡ failed)
      ⊎ (((placed c r).status ≡ pending)
          × ((placed c r).attempts ≡ r.attempts + 2)
          × (r.attempts + 2 < retry_limit r)
          × (retry_limit (placed c r) ≡ retry_limit r))
unfolding placed completed_row exhausted_row retry_row
placed-next c r = elim (Bool-cases (c.status == "completed")) [
  | inl e ↦ rw e (inl refl)
  | inr e ↦ elim (Bool-cases (leb (retry_limit r) (r.attempts + 1 + 1))) [
    | inl k ↦ rw (e, k) (inr (inl refl))
    | inr k ↦
        rw (e, k)
          (inr (
            inr
              (refl, omega arith, ground arith, retry_limit-write (str c.event_id) r.campaign_ctx)))
  ]
]

recorded_as :
    (event_id other : String) (c : Ctx)
    → is_text other
        (read_str "_last_outcome_event_id" (write_ctx "_last_outcome_event_id" (str event_id) c))
      ≡ (event_id == other)
recorded_as event_id other none =
    let k : String = "_last_outcome_event_id" in
    ground (arith, lookup-insert k k (str event_id) [], string_beq_refl k)
recorded_as event_id other (some m) =
    let k : String = "_last_outcome_event_id" in
    ground (arith, lookup-insert k k (str event_id) m, string_beq_refl k)

-- A call leaves no trace of another one in the row.
placed-other :
    (c d : Call) (r : DialRow)
    → d.event_id ≢ c.event_id
    → d.call_id ≢ c.call_id
    → d.call_id ≢ ""
    → (recorded_event d.event_id (placed c r) ≡ false)
      × (((placed c r).provider_call_id == d.call_id) ≡ false)
unfolding placed completed_row exhausted_row retry_row
placed-other c d r event call named = ground (
  arith,
  recorded_as c.event_id d.event_id r.campaign_ctx,
  eq_iff c.event_id d.event_id,
  eq_iff c.call_id d.call_id,
  eq_iff "" d.call_id,
)

placed-id : (c : Call) (r : DialRow) → (placed c r).id ≡ r.id
unfolding placed completed_row exhausted_row retry_row
placed-id c r = ground arith

-- The table after a call.
abbrev table_after : Call → DialRow → Dict DialRow → Dict DialRow
table_after c r t = insert r.id (placed c r) (insert r.id (dialled c.call_id r) t)

table_after-stored :
    (c : Call) (r : DialRow) (t : Dict DialRow)
    → lookup r.id (table_after c r t) ≡ some (placed c r)
table_after-stored c r t = ground (
  arith,
  lookup-insert r.id r.id (placed c r) (insert r.id (dialled c.call_id r) t),
  string_beq_refl r.id,
)

table_after-IsFresh :
    (c d : Call) (r : DialRow) (t : Dict DialRow)
    → lookup r.id t ≡ some r
    → d.event_id ≢ c.event_id
    → d.call_id ≢ c.call_id
    → d.call_id ≢ ""
    → IsFresh d.event_id d.call_id t
    → IsFresh d.event_id d.call_id (table_after c r t)
table_after-IsFresh c d r t stored event call named (events, calls) =
    let seen : DialRow → Type 0 = λ x. recorded_event d.event_id x ≡ false in
    let called : DialRow → Type 0 = λ x. (x.provider_call_id == d.call_id) ≡ false in
    let (unseen, uncalled) = placed-other c d r event call named in
    (
      All-insert seen r.id (placed c r) _ unseen (
          All-insert seen r.id (dialled c.call_id r) t
            (All-lookup seen r.id {v = r} t events stored) events),
      All-insert called r.id (placed c r) _ uncalled (
          All-insert called r.id (dialled c.call_id r) t
            (ground (arith, eq_iff c.call_id d.call_id, call)) calls),
    )

table_after-AreNew :
    (c : Call) (ds : List Call) (r : DialRow) (t : Dict DialRow)
    → lookup r.id t ≡ some r
    → All (λ d. (d.event_id ≢ c.event_id) × (d.call_id ≢ c.call_id)) ds
    → AreNew ds t
    → AreNew ds (table_after c r t)
table_after-AreNew c [] r t stored apart new = tt
table_after-AreNew c (d ∷ ds) r t stored (here, apart) (fresh, named, others, new) = (
  table_after-IsFresh c d r t stored here.0 here.1 named fresh,
  named,
  others,
  table_after-AreNew c ds r t stored apart new,
)

call_once-table :
    (c : Call) (r : DialRow) (t : Dict DialRow)
    → lookup r.id t ≡ some r
    → IsFresh c.event_id c.call_id t
    → call_once c r.id (up t) ≡ up (table_after c r t)
unfolding placed
call_once-table c r t stored fresh =
    ap (λ p. p.1) (one_call_table c.event_id c.call_id c.status c.now t r stored fresh)

-- The row of an id has come to its end.
abbrev pub HasEnded : String → Kv DialRow → Type 0
HasEnded row_id q =
    (r : DialRow) × (lookup row_id q.table ≡ some r) × ((r.status ≡ done) ⊎ (r.status ≡ failed))

-- A row that is not pending any more is left as it is.
call_all_done :
    (cs : List Call) (r : DialRow) (row_id : String) (t : Dict DialRow)
    → lookup row_id t ≡ some r
    → ((r.status ≡ done) ⊎ (r.status ≡ failed))
    → HasEnded row_id (call_all cs row_id (up t))
unfolding call_all
call_all_done [] r row_id t stored ended = (r, stored, ended)
call_all_done (c ∷ cs) r row_id t stored (inl e) = rw (stored, e) (r, stored, inl e)
call_all_done (c ∷ cs) r row_id t stored (inr e) = rw (stored, e) (r, stored, inr e)

-- The retry ladder ends: over the durable queue on a reachable database, a stored and pending row
-- that is marked in flight and gets an outcome again and again, as often as it is pending then, by calls with events and call ids
-- that are new and differ, whatever their outcomes and times, is done or failed once two for each call
-- and the attempts it began with reach its limit, since the durable queue counts two attempts for a
-- call that was not answered.
pub call_all_ends :
    (c : Call) (cs : List Call) (r : DialRow) (t : Dict DialRow)
    → lookup r.id t ≡ some r
    → r.status ≡ pending
    → AreNew (c ∷ cs) t
    → retry_limit r ≤ r.attempts + 2 * length (c ∷ cs)
    → HasEnded r.id (call_all (c ∷ cs) r.id (up t))
unfolding call_all
call_all_ends c [] r t stored waiting (fresh, named, apart, new) enough =
    rw (stored, waiting, call_once-table c r t stored fresh)
      (elim (placed-next c r) [
        | inl e ↦ (placed c r, table_after-stored c r t, inl e)
        | inr (inl e) ↦ (placed c r, table_after-stored c r t, inr e)
        | inr (inr (again, count, below, limit)) ↦ absurd (omega (arith, below, enough))
      ])
call_all_ends c (d ∷ ds) r t stored waiting (fresh, named, apart, new) enough =
    let t' = table_after c r t in
    let stored' = table_after-stored c r t in
    rw (stored, waiting, call_once-table c r t stored fresh)
      (elim (placed-next c r) [
        | inl e ↦ call_all_done (d ∷ ds) (placed c r) r.id t' stored' (inl e)
        | inr (inl e) ↦ call_all_done (d ∷ ds) (placed c r) r.id t' stored' (inr e)
        | inr (inr (again, count, below, limit)) ↦
            subst (λ k. HasEnded k (call_all (d ∷ ds) k (up t'))) (placed-id c r)
              (call_all_ends d ds (placed c r) t'
                (subst (λ k. lookup k t' ≡ some (placed c r)) (sym (placed-id c r)) stored') again
                (table_after-AreNew c (d ∷ ds) r t stored apart new)
                (omega (arith, count, limit, enough)))
      ])
