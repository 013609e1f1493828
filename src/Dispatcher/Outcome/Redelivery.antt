-- ===== src/Dispatcher/Outcome/Redelivery.antt =====
-- outcome_consumer.go over the durable store: an event that is delivered again.
use lead.Prelude.{
  ℕ, ◌≡◌, inl, inr, ◌∙◌, ap, sym, subst, String, none, some, Dict, lookup, insert, values, ◌==◌,
  string_eq, Result, Option-cases,
}
use lead.Pgkv.{Kv, up}
use lead.Dispatcher.Row.{DialRow}
use lead.Dispatcher.Queue.{pgkv_store, find_row, recorded_event}
use lead.Dispatcher.Queue.Update.{update_row_found, update_row_missing}
use lead.Dispatcher.Queue.Find.{find_row-insert}
use lead.Dispatcher.Outcome.{on_call_outcome, outcome_change}
use lead.Dispatcher.Outcome.Effect.{
  seen_before, unknown_call, known_call, recorded_event-outcome_change,
}

module _ (event_id call_id status : String) (now later : ℕ) (t : Dict DialRow) where
  abbrev after : Kv DialRow
  after = (on_call_outcome pgkv_store event_id call_id status now (up t)).1

  abbrev again : Kv DialRow → Kv DialRow
  again q = (on_call_outcome pgkv_store event_id call_id status later q).1

  -- The queue is settled if the second delivery leaves it as the first did.
  settled :
      {r r' : Result (Unit {0})} (t' : Dict DialRow)
      → on_call_outcome pgkv_store event_id call_id status now (up t) ≡ (r, up t')
      → on_call_outcome pgkv_store event_id call_id status later (up t') ≡ (r', up t')
      → again after ≡ after
  settled t' e e' = subst (λ q. again q ≡ q) (sym (ap (λ p. p.1) e)) (ap (λ p. p.1) e')

  changed :
      (row : DialRow) {v : DialRow}
      → find_row (recorded_event event_id) (values t) ≡ none
      → find_row (λ r. r.provider_call_id == call_id) (values t) ≡ some row
      → lookup row.id t ≡ some v
      → again after ≡ after
  changed row {v} fresh known stored =
      let change = outcome_change event_id call_id status now row in
      let t' = insert row.id (change v) t in
      let (r, seen) =
        find_row-insert (recorded_event event_id) row.id (change v) t
          (recorded_event-outcome_change event_id call_id status now row v) in
      settled t'
        (known_call event_id call_id status now t {row = row} (fresh, known)
          ∙ update_row_found row.id change t stored)
        (seen_before event_id call_id status later t' {r = r} seen)

  -- An event that is delivered again, at any later time, leaves the queue as the first delivery
  -- left it, on a reachable database.
  pub on_call_outcome_redelivered : again after ≡ after
  on_call_outcome_redelivered =
      elim (Option-cases (find_row (recorded_event event_id) (values t))) [
        | inr (r, seen) ↦
            settled t (seen_before event_id call_id status now t {r = r} seen)
              (seen_before event_id call_id status later t {r = r} seen)
        | inl fresh ↦
            elim (Option-cases (find_row (λ r. r.provider_call_id == call_id) (values t))) [
              | inl unknown ↦
                  settled t (unknown_call event_id call_id status now t fresh unknown)
                    (unknown_call event_id call_id status later t fresh unknown)
              | inr (row, known) ↦ elim (Option-cases (lookup row.id t)) [
                | inl gone ↦
                    settled t
                      (known_call event_id call_id status now t {row = row} (fresh, known)
                        ∙ update_row_missing row.id (outcome_change event_id call_id status now row)
                            t gone)
                      (known_call event_id call_id status later t {row = row} (fresh, known)
                        ∙ update_row_missing row.id
                            (outcome_change event_id call_id status later row) t gone)
                | inr (v, stored) ↦ changed row {v = v} fresh known stored
              ]
            ]
      ]
