-- ===== src/Import/Linked/Requests.antt =====
-- internal/service/service.go: the requests, in any order.
use lead.Prelude.{
  inl, inr, ℕ, ℤ, String, Bool, Option, none, some, List, [], ◌∷◌, Dict, Bool-cases, ◌==◌, ◌^^◌,
  string_eq, Result, ok, err,
}
use lead.Pgkv.Post.{Post, Post-state}
use lead.Identity.Phone.{PhoneNumbers}
use lead.Import.Store.{Contact, Lead, LeadImportJob}
use lead.Import.Durable.{Tables, create_lead, check_and_set_idempotency_key, update_lead_score}
use lead.Import.Service.{
  ImportBody, LeadBody, File, process_csv_import, handle_create_import_job, on_lead, on_upsert,
  handle_ingest_api_lead, on_score, handle_update_lead_score, new_lead, handle_get_import_job,
  handle_list_leads, handle_get_lead, overlay, body_fields,
}
use lead.Import.Webhooks.{
  GooglePayload, is_known, on_fb_key, handle_fb_webhook, store_google_lead, take_google_lead,
  google_fields, columns, on_google_key, handle_google_webhook, google_key,
}
use lead.Import.Parser.{text_at}
use lead.Import.Linked.{IsLinked, Holds, create_lead-IsLinked, update_lead_score-IsLinked}
use lead.Import.Linked.Reads.{get_job-IsLinked, list-IsLinked, get_one-IsLinked}
use lead.Import.Linked.Rows.{
  check_and_set-IsLinked, upsert_fields-IsLinked, create_import-IsLinked, process-IsLinked,
}

-- What reaches the service, with the ids that `NewID` would make for it and the time.
pub data Request : Type 0 where
  create_job : (ℕ → String × String) → ℕ → String → String → Option ImportBody → Request
  process_file : (ℕ → String × String) → ℕ → String → LeadImportJob → File → Request
  ingest : String × String → ℕ → String → Option LeadBody → Request
  update_score : ℕ → String → String → Option ℤ → Request
  facebook : String → Option String → Request
  google : String × String → ℕ → String → Option GooglePayload → Request
  get_job : String → String → Request
  list_all : String → String → String → String → Request
  get_one : String → String → Request

module _ {Number : Type 0} (p : PhoneNumbers Number) where
  -- The tables after a request.
  abbrev pub serve : Request → Tables → Tables
  serve (create_job ids now tenant_id id b) q =
      (handle_create_import_job p ids now tenant_id id b q).1
  serve (process_file ids now tenant_id job file) q =
      process_csv_import p ids now tenant_id job file q
  serve (ingest ids now tenant_id b) q = (handle_ingest_api_lead p ids now tenant_id b q).1
  serve (update_score now tenant_id lead_id score) q =
      (handle_update_lead_score now tenant_id lead_id score q).1
  serve (facebook tenant_id b) q = (handle_fb_webhook tenant_id b q).1
  serve (google (contact_id, lead_id) now tenant_id b) q =
      (handle_google_webhook p contact_id lead_id now tenant_id b q).1
  serve (get_job tenant_id job_id) q = (handle_get_import_job tenant_id job_id q).1
  serve (list_all tenant_id status assigned_to source_id) q =
      (handle_list_leads tenant_id status assigned_to source_id q).1
  serve (get_one tenant_id lead_id) q = (handle_get_lead tenant_id lead_id q).1

  abbrev pub serve_all : List Request → Tables → Tables
  serve_all [] q = q
  serve_all (r ∷ rs) q = serve_all rs (serve r q)

  on_upsert-IsLinked :
      (id : String) (now : ℕ) (tenant_id source_id : String) (x : Result Contact × Tables)
      → Post Holds IsLinked x
      → IsLinked (on_upsert id now tenant_id source_id x).1
  on_upsert-IsLinked id now tenant_id source_id (err e, q) h = h
  on_upsert-IsLinked id now tenant_id source_id (ok c, q) (there, h) =
      ended (create_lead id now (new_lead tenant_id source_id c) q)
        (create_lead-IsLinked id now (new_lead tenant_id source_id c) q h there)
    where
      ended :
          (x : Result Lead × Tables) → Post (λ m. IsLinked) IsLinked x → IsLinked (on_lead c x).1
      ended (ok l, r) k = k
      ended (err e, r) k = k

  ingest-IsLinked :
      (ids : String × String) (now : ℕ) (tenant_id : String) (body : Option LeadBody) (q : Tables)
      → IsLinked q
      → IsLinked (handle_ingest_api_lead p ids now tenant_id body q).1
  unfolding handle_ingest_api_lead
  ingest-IsLinked (contact_id, lead_id) now tenant_id none q h = h
  ingest-IsLinked (contact_id, lead_id) now tenant_id (some b) q h =
      elim (Bool-cases (tenant_id == "")) [
        | inl e ↦ rw e h
        | inr e ↦ rw e (
            on_upsert-IsLinked lead_id now tenant_id b.source_id _ (
              upsert_fields-IsLinked p contact_id now tenant_id (overlay b.fields (body_fields b)) q
                h))
      ]

  module _ (contact_id lead_id : String) (now : ℕ) (tenant_id : String) where
    store_google-IsLinked :
        (x : Result Contact × Tables)
        → Post Holds IsLinked x
        → IsLinked (store_google_lead p contact_id lead_id now tenant_id x)
    store_google-IsLinked (err e, q) h = h
    store_google-IsLinked (ok c, q) (there, h) =
        Post-state IsLinked _ (create_lead-IsLinked lead_id now (new_lead tenant_id "" c) q h there)

    take_google-IsLinked :
        (fields : Dict String) (q : Tables)
        → IsLinked q
        → IsLinked (take_google_lead p contact_id lead_id now tenant_id fields q)
    unfolding take_google_lead
    take_google-IsLinked fields q h = elim (Bool-cases (text_at "PHONE_NUMBER" fields == "")) [
      | inl e ↦ rw e h
      | inr e ↦ rw e (
          store_google-IsLinked _
            (upsert_fields-IsLinked p contact_id now tenant_id (google_fields fields) q h))
    ]

    google_key-IsLinked :
        (b : GooglePayload) (x : Result Bool × Tables)
        → IsLinked x.1
        → IsLinked (on_google_key p contact_id lead_id now tenant_id b x).1
    google_key-IsLinked b (r, q) h = elim (Bool-cases (is_known r)) [
      | inl e ↦ rw e h
      | inr e ↦ rw e (take_google-IsLinked (columns b.user_column_data []) q h)
    ]

    google-IsLinked :
        (body : Option GooglePayload) (q : Tables)
        → IsLinked q
        → IsLinked (handle_google_webhook p contact_id lead_id now tenant_id body q).1
    unfolding handle_google_webhook
    google-IsLinked none q h = h
    google-IsLinked (some b) q h = elim (Bool-cases (tenant_id == "")) [
      | inl e ↦ rw e h
      | inr e ↦ rw e (
          google_key-IsLinked b (check_and_set_idempotency_key (google_key tenant_id b) q)
            (Post-state IsLinked _ (check_and_set-IsLinked (google_key tenant_id b) q h)))
    ]

  on_fb_key-IsLinked : (x : Result Bool × Tables) → IsLinked x.1 → IsLinked (on_fb_key x).1
  on_fb_key-IsLinked (r, q) h = elim (Bool-cases (is_known r)) [ inl e ↦ rw e h | inr e ↦ rw e h ]

  facebook-IsLinked :
      (tenant_id : String) (body : Option String) (q : Tables)
      → IsLinked q
      → IsLinked (handle_fb_webhook tenant_id body q).1
  unfolding handle_fb_webhook
  facebook-IsLinked tenant_id none q h = h
  facebook-IsLinked tenant_id (some leadgen_id) q h = elim (Bool-cases (tenant_id == "")) [
    | inl e ↦ rw e h
    | inr e ↦
        let key = "fb:" ^^ (tenant_id ^^ (":" ^^ leadgen_id)) in
        rw e (
          on_fb_key-IsLinked (check_and_set_idempotency_key key q)
            (Post-state IsLinked _ (check_and_set-IsLinked key q h)))
  ]

  on_score-IsLinked :
      (lead_id : String) (score : ℤ) (x : Result (Unit {0}) × Tables)
      → IsLinked x.1
      → IsLinked (on_score lead_id score x).1
  on_score-IsLinked lead_id score (err e, q) h = h
  on_score-IsLinked lead_id score (ok u, q) h = h

  score-IsLinked :
      (now : ℕ) (tenant_id lead_id : String) (body : Option ℤ) (q : Tables)
      → IsLinked q
      → IsLinked (handle_update_lead_score now tenant_id lead_id body q).1
  unfolding handle_update_lead_score
  score-IsLinked now tenant_id lead_id none q h = h
  score-IsLinked now tenant_id lead_id (some score) q h = elim (Bool-cases (tenant_id == "")) [
    | inl e ↦ rw e h
    | inr e ↦ rw e (
        on_score-IsLinked lead_id score (update_lead_score now tenant_id lead_id score q)
          (Post-state IsLinked _ (update_lead_score-IsLinked now tenant_id lead_id score q h)))
  ]

  serve-IsLinked : (r : Request) (q : Tables) → IsLinked q → IsLinked (serve r q)
  serve-IsLinked (create_job ids now tenant_id id b) q h =
      create_import-IsLinked p ids now tenant_id id b q h
  serve-IsLinked (process_file ids now tenant_id job file) q h =
      process-IsLinked p ids now tenant_id job file q h
  serve-IsLinked (ingest ids now tenant_id b) q h = ingest-IsLinked ids now tenant_id b q h
  serve-IsLinked (update_score now tenant_id lead_id score) q h =
      score-IsLinked now tenant_id lead_id score q h
  serve-IsLinked (facebook tenant_id b) q h = facebook-IsLinked tenant_id b q h
  serve-IsLinked (google (contact_id, lead_id) now tenant_id b) q h =
      google-IsLinked contact_id lead_id now tenant_id b q h
  serve-IsLinked (get_job tenant_id job_id) q h = get_job-IsLinked tenant_id job_id q h
  serve-IsLinked (list_all tenant_id status assigned_to source_id) q h =
      list-IsLinked tenant_id status assigned_to source_id q h
  serve-IsLinked (get_one tenant_id lead_id) q h = get_one-IsLinked tenant_id lead_id q h

  -- Whatever requests come, in whatever order, with whatever ids, and whichever statements the
  -- database fails between them: if at the start every lead names a contact that is stored, and so
  -- does every entry of the index by phone, then this is still so after the last request.
  pub serve_all-IsLinked : (rs : List Request) (q : Tables) → IsLinked q → IsLinked (serve_all rs q)
  serve_all-IsLinked [] q h = h
  serve_all-IsLinked (r ∷ rs) q h = serve_all-IsLinked rs (serve r q) (serve-IsLinked r q h)
