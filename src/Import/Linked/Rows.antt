-- ===== src/Import/Linked/Rows.antt =====
-- internal/service/service.go: the rows of a job or a file, one after another.
use lead.Prelude.{
  inl, inr, ℕ, suc, String, Option, none, some, List, [], ◌∷◌, Dict, Bool-cases, ◌==◌, string_eq,
  Result, ok, err,
}
use lead.Pgkv.{next_fails, insert_new}
use lead.Pgkv.Post.{Post, Post-and_then, Post-lift, Post-put, Post-state}
use lead.Identity.Phone.{PhoneNumbers}
use lead.Import.Store.{LeadImportJob}
use lead.Import.Parser.{parse_csv, csv_rows, parse_xlsx, xlsx_rows}
use lead.Import.Durable.{
  Tables, create_import_job, update_import_job, check_and_set_idempotency_key,
}
use lead.Import.Service.{
  ImportBody, File, csv, xlsx, Tally, nothing_yet, upsert_phone, upsert_contact_from_fields,
  import_row, import_rows, run_job, file_row, read_file, process_csv_import,
  handle_create_import_job, new_lead, apply_mapping,
}
use lead.Import.Linked.{IsLinked, Holds, upsert_contact-IsLinked, create_lead-IsLinked}

pub check_and_set-IsLinked :
    (key : String) (q : Tables)
    → IsLinked q
    → Post (λ b. IsLinked) IsLinked (check_and_set_idempotency_key key q)
unfolding check_and_set_idempotency_key insert_new
check_and_set-IsLinked key q h = elim (Bool-cases (next_fails q.idempotency_keys.faults)) [
  | inl e ↦ rw e h
  | inr e ↦ rw e h
]

module _ {Number : Type 0} (p : PhoneNumbers Number) where
  upsert_phone-IsLinked :
      (id : String) (now : ℕ) (tenant_id : String) (fields : Dict String) (r : Result String)
      (q : Tables)
      → IsLinked q
      → Post Holds IsLinked (upsert_phone p id now tenant_id fields r q)
  upsert_phone-IsLinked id now tenant_id fields (err e) q h = h
  upsert_phone-IsLinked id now tenant_id fields (ok e164) q h = upsert_contact-IsLinked id now _ q h

  pub upsert_fields-IsLinked :
      (id : String) (now : ℕ) (tenant_id : String) (fields : Dict String) (q : Tables)
      → IsLinked q
      → Post Holds IsLinked (upsert_contact_from_fields p id now tenant_id fields q)
  unfolding upsert_contact_from_fields
  upsert_fields-IsLinked id now tenant_id fields q h =
      upsert_phone-IsLinked id now tenant_id fields _ q h

  import_row-IsLinked :
      (ids : String × String) (now : ℕ) (tenant_id source_id : String) (fields : Dict String)
      (q : Tables)
      → IsLinked q
      → IsLinked (import_row p ids now tenant_id source_id fields q).1
  unfolding import_row
  import_row-IsLinked (contact_id, lead_id) now tenant_id source_id fields q h =
      Post-state IsLinked _ (
        Post-and_then Holds (λ l. IsLinked) IsLinked _ _
          (upsert_fields-IsLinked contact_id now tenant_id fields q h)
          λ c r (there, h').
            create_lead-IsLinked lead_id now (new_lead tenant_id source_id c) r h' there)

  module _ (ids : ℕ → String × String) (now : ℕ) (tenant_id : String) where
    import_rows-IsLinked :
        (source_id : String) (mapping : Dict String) (i : ℕ) (rows : List (Dict String)) (t : Tally)
        (q : Tables)
        → IsLinked q
        → IsLinked (import_rows p ids now tenant_id source_id mapping i rows t q).1
    unfolding import_rows
    import_rows-IsLinked source_id mapping i [] t q h = h
    import_rows-IsLinked source_id mapping i (row ∷ rows) t q h =
        import_rows-IsLinked source_id mapping (suc i) rows _ _ (
          import_row-IsLinked (ids (suc i)) now tenant_id source_id (apply_mapping row mapping) q h)

    update_job-IsLinked :
        (job : LeadImportJob) (q : Tables) → IsLinked q → IsLinked (update_import_job now job q).1
    unfolding update_import_job
    update_job-IsLinked job q h = h

    run_job-IsLinked :
        (b : ImportBody) (x : Result LeadImportJob × Tables)
        → IsLinked x.1
        → IsLinked (run_job p ids now tenant_id b x).1
    unfolding run_job
    run_job-IsLinked b (err e, q) h = h
    run_job-IsLinked b (ok job, q) h =
        update_job-IsLinked _ _
          (import_rows-IsLinked b.source_id b.mapping 0 b.rows nothing_yet q h)

    pub create_import-IsLinked :
        (id : String) (body : Option ImportBody) (q : Tables)
        → IsLinked q
        → IsLinked (handle_create_import_job p ids now tenant_id id body q).1
    unfolding handle_create_import_job create_import_job
    create_import-IsLinked id none q h = h
    create_import-IsLinked id (some b) q h = elim (Bool-cases (tenant_id == "")) [
      | inl e ↦ rw e h
      | inr e ↦ rw e (
          run_job-IsLinked b _ (
            Post-state IsLinked _ (
              Post-and_then (λ u. IsLinked) (λ j. IsLinked) IsLinked _ _
                (Post-lift (λ u. IsLinked) IsLinked (λ s. record q { import_jobs = s }) _
                  (Post-put _ _ _ _ q.import_jobs h h))
                λ u r g. g)))
    ]

    module _ (job : LeadImportJob) where
      file_row-IsLinked :
          (row_num : ℕ) (fields : Dict String) (s : Tally × Tables)
          → IsLinked s.1
          → IsLinked (file_row p ids now tenant_id job row_num fields s).1
      unfolding file_row
      file_row-IsLinked row_num fields (t, q) h =
          import_row-IsLinked (ids row_num) now tenant_id job.source_id _ q h

      csv_rows-IsLinked :
          (headers : List String) (i : ℕ) (rs : List (Result (List String))) (s : Tally × Tables)
          → IsLinked s.1
          → IsLinked (csv_rows (file_row p ids now tenant_id job) job.mapping headers i rs s).0.1
      unfolding csv_rows
      csv_rows-IsLinked headers i [] s h = h
      csv_rows-IsLinked headers i (ok cells ∷ rs) s h =
          csv_rows-IsLinked headers (suc i) rs _ (file_row-IsLinked (suc i) _ s h)
      csv_rows-IsLinked headers i (err e ∷ rs) s h = csv_rows-IsLinked headers (suc i) rs s h

      xlsx_rows-IsLinked :
          (headers : List String) (i : ℕ) (rs : List (List String)) (s : Tally × Tables)
          → IsLinked s.1
          → IsLinked (xlsx_rows (file_row p ids now tenant_id job) job.mapping headers i rs s).1
      unfolding xlsx_rows
      xlsx_rows-IsLinked headers i [] s h = h
      xlsx_rows-IsLinked headers i (cells ∷ rs) s h =
          xlsx_rows-IsLinked headers (suc i) rs _ (file_row-IsLinked i _ s h)

      read_file-IsLinked :
          (file : File) (q : Tables)
          → IsLinked q
          → IsLinked (read_file p ids now tenant_id job file q).1
      unfolding parse_csv parse_xlsx
      read_file-IsLinked (csv []) q h = h
      read_file-IsLinked (csv (err e ∷ rs)) q h = h
      read_file-IsLinked (csv (ok headers ∷ rs)) q h = csv_rows-IsLinked headers 1 rs _ h
      read_file-IsLinked (xlsx (err e)) q h = h
      read_file-IsLinked (xlsx (ok [])) q h = h
      read_file-IsLinked (xlsx (ok (headers ∷ rs))) q h = xlsx_rows-IsLinked headers 2 rs _ h

      pub process-IsLinked :
          (file : File) (q : Tables)
          → IsLinked q
          → IsLinked (process_csv_import p ids now tenant_id job file q)
      unfolding process_csv_import
      process-IsLinked file q h = update_job-IsLinked _ _ (read_file-IsLinked file q h)
