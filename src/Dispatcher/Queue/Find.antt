-- ===== src/Dispatcher/Queue/Find.antt =====
-- store_pgkv.go: searches for the first row that passes a test.
use lead.Prelude.{
  ◌≡◌, refl, inl, inr, String, Bool, true, false, none, some, List, [], ◌∷◌, Dict, insert, values,
  ◌==◌, string_eq, All, Bool-cases,
}
use lead.Dispatcher.Row.{DialRow}
use lead.Dispatcher.Queue.{find_row}

-- Nothing is found where no row passes.
pub find_row-none :
    (p : DialRow → Bool) (rs : List DialRow) → All (λ r. p r ≡ false) rs → find_row p rs ≡ none
unfolding find_row
find_row-none p [] h = refl
find_row-none p (r ∷ rs) h = rw h.0 (find_row-none p rs h.1)

-- A row that passes is found after it is written, though another may be found before it.
pub find_row-insert :
    (p : DialRow → Bool) (k : String) (v : DialRow) (t : Dict DialRow)
    → p v ≡ true
    → (r : DialRow) × (find_row p (values (insert k v t)) ≡ some r)
unfolding find_row insert
find_row-insert p k v [] h = (v, rw h)
find_row-insert p k v ((j, w) ∷ t) h =
    let (r, e) = find_row-insert p k v t h in
    elim (Bool-cases (j == k)) [
      | inl same ↦ (v, rw same (rw h))
      | inr other ↦ elim (Bool-cases (p w)) [
        | inl hit ↦ (w, rw other (rw hit))
        | inr miss ↦ (r, rw other (rw miss e))
      ]
    ]

-- If no row passed before, the row written is the one found.
pub find_row-insert_new :
    (p : DialRow → Bool) (k : String) (v : DialRow) (t : Dict DialRow)
    → p v ≡ true
    → All (λ r. p r ≡ false) (values t)
    → find_row p (values (insert k v t)) ≡ some v
unfolding find_row insert
find_row-insert_new p k v [] h none_passes = rw h
find_row-insert_new p k v ((j, w) ∷ t) h none_passes = elim (Bool-cases (j == k)) [
  | inl same ↦ rw same (rw h)
  | inr other ↦ rw other (rw none_passes.0 (find_row-insert_new p k v t h none_passes.1))
]
