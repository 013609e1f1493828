-- ===== src/Dispatcher/Queue/Update.antt =====
-- store_pgkv.go: what an update of a row and a seed of rows leave in the table.
use lead.Prelude.{
  ◌≡◌, ◌≢◌, inl, inr, String, Option, none, some, [], arith, Dict, lookup, insert, lookup-insert,
  if◌then◌else◌, ◌==◌, string_eq, eq_iff, Result, ok, err, not_found, Option-cases,
}
use lead.Pgkv.{Kv, up, put, get}
use lead.Dispatcher.Row.{DialRow}
use lead.Dispatcher.Queue.{update_row}

pub update_row_missing :
    (k : String) (f : DialRow → DialRow) (t : Dict DialRow)
    → lookup k t ≡ none
    → update_row k f (up t) ≡ (err not_found, up t)
unfolding update_row get put
update_row_missing k f t e = ground arith

pub update_row_found :
    (k : String) (f : DialRow → DialRow) (t : Dict DialRow) {v : DialRow}
    → lookup k t ≡ some v
    → update_row k f (up t) ≡ (ok tt, up (insert k (f v) t))
unfolding update_row get put
update_row_found k f t e = ground arith

abbrev pub changed : (DialRow → DialRow) → Option DialRow → Option DialRow
changed f none = none
changed f (some v) = some (f v)

abbrev pub update_result : Option DialRow → Result (Unit {0})
update_result none = err not_found
update_result (some v) = ok tt

-- On a reachable database an update writes the changed row under its key and touches no other key;
-- of a missing row it reports that and changes nothing.
pub update_row_lem :
    (k j : String) (f : DialRow → DialRow) (t : Dict DialRow)
    → let (r, q) = update_row k f (up t) in
      (lookup j q.table ≡ (if k == j then changed f (lookup k t) else lookup j t))
      × (r ≡ update_result (lookup k t))
      × (q.faults ≡ [])
update_row_lem k j f t = elim (Option-cases (lookup k t)) [
  | inl e ↦ rw (update_row_missing k f t e) (ground (arith, eq_iff k j))
  | inr (v, e) ↦ rw (update_row_found k f t e) (ground (arith, lookup-insert k j (f v) t))
]

-- An update that reports an error has left the table as it was.
pub update_row_failed :
    (k : String) (f : DialRow → DialRow) (s : Kv DialRow)
    → (update_row k f s).0 ≢ ok tt
    → (update_row k f s).1.table ≡ s.table
unfolding update_row get put
update_row_failed k f s h = ground arith
