-- ===== src/Import/Parser.antt =====
-- internal/parser: the rows of a file under the names that a mapping gives to its columns.
use lead.Prelude.{
  ℕ, suc, String, Option, none, some, List, [], ◌∷◌, Dict, lookup, insert, Result, ok, err,
  malformed, if◌then◌else◌, ◌==◌, string_eq,
}
use lead.Import.Store.{RowError}

-- `d[k]` of a Go map of texts.
abbrev pub found_text : Option String → String
found_text none = ""
found_text (some v) = v

unfoldable pub text_at : String → Dict String → String
unfolding lookup
text_at k d = found_text (lookup k d)

-- The name that a mapping gives to a column, or the column's own.
unfoldable pub canonical : Dict String → String → String
unfolding text_at
canonical mapping h = let name = text_at h mapping in if name == "" then h else name

-- The fields of a CSV record: a record that is short gives the first columns only.
unfoldable pub csv_fields : Dict String → List String → List String → Dict String → Dict String
unfolding canonical insert
csv_fields mapping [] record' fields = fields
csv_fields mapping (h ∷ hs) [] fields = fields
csv_fields mapping (h ∷ hs) (v ∷ vs) fields =
    csv_fields mapping hs vs (insert (canonical mapping h) v fields)

-- The fields of an XLSX record: what a short record lacks is empty.
unfoldable pub xlsx_fields : Dict String → List String → List String → Dict String → Dict String
unfolding canonical insert
xlsx_fields mapping [] cells fields = fields
xlsx_fields mapping (h ∷ hs) [] fields =
    xlsx_fields mapping hs [] (insert (canonical mapping h) "" fields)
xlsx_fields mapping (h ∷ hs) (v ∷ vs) fields =
    xlsx_fields mapping hs vs (insert (canonical mapping h) v fields)

module _ {ℓ} {S : Type ℓ} (on_row : ℕ → Dict String → S → S) where
  -- The rows of a CSV file after its header. `csv.Reader` gives each as a record or an error.
  unfoldable pub csv_rows :
      Dict String → List String → ℕ → List (Result (List String)) → S → S × List RowError
  unfolding csv_fields
  csv_rows mapping headers row_num [] s = (s, [])
  csv_rows mapping headers row_num (ok record' ∷ rs) s =
      csv_rows mapping headers (suc row_num) rs
        (on_row (suc row_num) (csv_fields mapping headers record' []) s)
  csv_rows mapping headers row_num (err e ∷ rs) s =
      let (s', errors) = csv_rows mapping headers (suc row_num) rs s in
      (s', record { row = suc row_num; message = e } ∷ errors)

  -- `ParseCSV`, on what `csv.Reader` reads: the header first.
  unfoldable pub parse_csv :
      Dict String → List (Result (List String)) → S → Result (List RowError) × S
  unfolding csv_rows
  parse_csv mapping [] s = (err malformed, s)
  parse_csv mapping (err e ∷ rs) s = (err e, s)
  parse_csv mapping (ok headers ∷ rs) s =
      let (s', errors) = csv_rows mapping headers 1 rs s in (ok errors, s')

  unfoldable pub xlsx_rows : Dict String → List String → ℕ → List (List String) → S → S
  unfolding xlsx_fields
  xlsx_rows mapping headers row_num [] s = s
  xlsx_rows mapping headers row_num (cells ∷ rs) s =
      xlsx_rows mapping headers (suc row_num) rs
        (on_row row_num (xlsx_fields mapping headers cells []) s)

  -- `ParseXLSX`, on the rows that excelize reads of the first sheet, if it can.
  unfoldable pub parse_xlsx :
      Dict String → Result (List (List String)) → S → Result (List RowError) × S
  unfolding xlsx_rows
  parse_xlsx mapping (err e) s = (err e, s)
  parse_xlsx mapping (ok []) s = (ok [], s)
  parse_xlsx mapping (ok (headers ∷ rs)) s = (ok [], xlsx_rows mapping headers 2 rs s)
