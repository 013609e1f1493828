-- ===== src/Dispatcher/Queue/Seed.antt =====
-- store_pgkv.go: seeding rows, and reading the rows that are due.
use lead.Prelude.{
  ◌⊎◌, sym, ℕ, ◌≡◌, refl, ◌∙◌, inl, inr, String, true, Option, none, some, List, [], ◌∷◌, arith,
  Dict, lookup, insert, values, lookup-insert, string_beq_refl, if◌then◌else◌, ◌==◌, string_eq,
  eq_iff, ok, All-keep, All, Option-cases, leb,
}
use lead.Pgkv.{Kv, up, put, get, list, bind-ok}
use lead.Dispatcher.Row.{DialRow, pending}
use lead.Dispatcher.Queue.{seed_row, seed_rows, row_key, is_due, pending_rows}

-- What a seed leaves at a key: the row that stood there, or else the new row under the key as its id.
abbrev pub seeded : DialRow → Option DialRow → DialRow
seeded r none = record r { id = row_key r }
seeded r (some v) = v

seed_row_lem :
    (r : DialRow) (t : Dict DialRow)
    → (t' : Dict DialRow) × (seed_row r (up t) ≡ (ok tt, up t'))
      × ((j : String)
          → lookup j t'
            ≡ (if row_key r == j then some (seeded r (lookup (row_key r) t)) else lookup j t))
unfolding seed_row get put
seed_row_lem r t = elim (Option-cases (lookup (row_key r) t)) [
  | inl e ↦ (
    insert (row_key r) (record r { id = row_key r }) t,
    ground arith,
    λ j. ground (arith, lookup-insert (row_key r) j (record r { id = row_key r }) t),
  )
  | inr (v, e) ↦ (t, ground arith, λ j. ground (arith, eq_iff (row_key r) j))
]

seed_row_present :
    (r : DialRow) (t : Dict DialRow) {v : DialRow}
    → lookup (row_key r) t ≡ some v
    → seed_row r (up t) ≡ (ok tt, up t)
unfolding seed_row get put
seed_row_present r t e = ground arith

abbrev pub IsPresent : Dict DialRow → DialRow → Type 0
IsPresent t r = (v : DialRow) × (lookup (row_key r) t ≡ some v)

pub seed_rows_present :
    (rs : List DialRow) (t : Dict DialRow)
    → All (IsPresent t) rs
    → seed_rows rs (up t) ≡ (ok tt, up t)
unfolding seed_rows
seed_rows_present [] t h = refl
seed_rows_present (r ∷ rs) t h =
    bind-ok (seed_row r) (λ _. seed_rows rs) (up t) (seed_row_present r t h.0.1)
    ∙ seed_rows_present rs t h.1

abbrev pub Keeps : Dict DialRow → Dict DialRow → Type 0
Keeps t t' = (j : String) (v : DialRow) → lookup j t ≡ some v → lookup j t' ≡ some v

seed_rows_lem :
    (rs : List DialRow) (t : Dict DialRow)
    → (t' : Dict DialRow) × (seed_rows rs (up t) ≡ (ok tt, up t'))
      × Keeps t t'
      × All (IsPresent t') rs
unfolding seed_rows
seed_rows_lem [] t = (t, refl, λ j v e. e, tt)
seed_rows_lem (r ∷ rs) t =
    let (t₁, run, look) = seed_row_lem r t in
    let (t₂, runs, keeps, all) = seed_rows_lem rs t₁ in
    (
      t₂,
      bind-ok (seed_row r) (λ _. seed_rows rs) (up t) run ∙ runs,
      λ j v e. keeps j v (ground (arith, look j, eq_iff (row_key r) j)),
      (
        (
          seeded r (lookup (row_key r) t),
          keeps (row_key r) (seeded r (lookup (row_key r) t))
              (ground (arith, look (row_key r), string_beq_refl (row_key r))),
        ),
        all,
      ),
    )

-- Seeding on a reachable database succeeds, leaves the row of any key `j` that was there as it
-- was, leaves a row for every lead that was given, and doing it again changes nothing.
pub seed_rows_idempotent :
    (rs : List DialRow) (t : Dict DialRow) (j : String)
    → (t' : Dict DialRow) × (seed_rows rs (up t) ≡ (ok tt, up t'))
      × ((lookup j t ≡ none) ⊎ (lookup j t' ≡ lookup j t))
      × All (IsPresent t') rs
      × (seed_rows rs (up t') ≡ (ok tt, up t'))
seed_rows_idempotent rs t j =
    let (t', run, keeps, all) = seed_rows_lem rs t in
    (
      t',
      run,
      elim (Option-cases (lookup j t)) [ inl e ↦ inl e | inr (v, e) ↦ inr (keeps j v e ∙ sym e) ],
      all,
      seed_rows_present rs t' all,
    )

-- What holds of a row that `pending_rows` returns for a campaign.
abbrev pub IsDue : String → ℕ → DialRow → Type 0
IsDue campaign_id now r =
    (r.campaign_id ≡ campaign_id) × (r.status ≡ pending) × (leb r.next_attempt_at now ≡ true)

is_due-IsDue :
    (campaign_id : String) (now : ℕ) (r : DialRow)
    → is_due campaign_id now r ≡ true
    → IsDue campaign_id now r
is_due-IsDue campaign_id now r h = ground (arith, eq_iff r.campaign_id campaign_id)

-- Every row returned belongs to the campaign, is pending and is due.
pub pending_rows-IsDue :
    (campaign_id : String) (now : ℕ) (s : Kv DialRow) {rs : List DialRow}
    → (pending_rows campaign_id now s).0 ≡ ok rs
    → All (IsDue campaign_id now) rs
unfolding pending_rows list
pending_rows-IsDue campaign_id now s h = ground (
  arith,
  All-keep (IsDue campaign_id now) (is_due campaign_id now) (is_due-IsDue campaign_id now)
      (values s.table),
)
