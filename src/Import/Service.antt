-- ===== src/Import/Service.antt =====
-- internal/service/service.go: the import of rows, and the requests on jobs and leads.
use lead.Prelude.{
  ℕ, suc, ℤ, pos, String, Option, none, some, List, [], ◌∷◌, ◌++◌, Dict, insert, length, Result, ok,
  err, malformed, if◌then◌else◌, ltb, ◌==◌, string_eq,
}
use lead.Pgkv.{Action, ◌>>=◌, throw}
use lead.Identity.Phone.{PhoneNumbers}
use lead.Import.Store.{Contact, Lead, RowError, LeadImportJob}
use lead.Import.Parser.{text_at, canonical, parse_csv, parse_xlsx}
use lead.Import.Durable.{
  Tables, create_import_job, get_import_job, update_import_job, upsert_contact, get_contact,
  create_lead, get_lead, list_leads, update_lead_score,
}

pub data Reply : Type 0 where
  bad_request not_there forbidden unprocessable server_error accepted duplicate : Reply
  imported : LeadImportJob → Reply
  found_job : LeadImportJob → Reply
  created : Lead → Contact → Reply
  listed : List Lead → Reply
  found_lead : Lead → Option Contact → Reply
  scored : String → ℤ → Reply
  previewed : List (Dict String) → List RowError → Reply
  challenge : String → Reply

-- A file by the kind that its name or its type tells: what `csv.Reader` or excelize reads of it.
pub data File : Type 0 where
  csv : List (Result (List String)) → File
  xlsx : Result (List (List String)) → File

pub record ImportBody : Type 0 where
  pub file_url : String
  pub rows : List (Dict String)
  pub mapping : Dict String
  pub source_id : String

pub record LeadBody : Type 0 where
  pub phone : String
  pub email : String
  pub name : String
  pub source_id : String
  pub fields : Dict String

-- What the loop over the rows has counted.
pub record Tally : Type 0 where
  pub total : ℕ
  pub imported : ℕ
  pub errors : List RowError

abbrev pub nothing_yet : Tally
nothing_yet = record { total = 0; imported = 0; errors = [] }

-- `out[canonical] = v` for each field.
unfoldable pub remap : Dict String → Dict String → Dict String → Dict String
unfolding canonical insert
remap mapping [] out = out
remap mapping ((k, v) ∷ d) out = remap mapping d (insert (canonical mapping k) v out)

-- `applyMapping`
unfoldable pub apply_mapping : Dict String → Dict String → Dict String
unfolding remap
apply_mapping fields [] = fields
apply_mapping fields (m ∷ ms) = remap (m ∷ ms) fields []

-- `for k, v := range req.Fields { fields[k] = v }`
unfoldable pub overlay : Dict String → Dict String → Dict String
unfolding insert
overlay [] fields = fields
overlay ((k, v) ∷ d) fields = overlay d (insert k v fields)

abbrev pub new_contact : String → String → String → String → Contact
new_contact tenant_id e164 email name = record {
  id = "";
  tenant_id = tenant_id;
  phone_e164 = e164;
  email = email;
  name = name;
  created_at = none;
  updated_at = none;
}

abbrev pub new_lead : String → String → Contact → Lead
new_lead tenant_id source_id c = record {
  id = "";
  tenant_id = tenant_id;
  contact_id = c.id;
  source_id = source_id;
  status = "new";
  score = pos 0;
  assigned_to = "";
  created_at = none;
  updated_at = none;
}

abbrev pub raw_phone : Dict String → String
raw_phone fields =
    let phone = text_at "phone" fields in if phone == "" then text_at "mobile" fields else phone

abbrev pub count_row : {A : Type 0} → ℕ → Result A → Tally → Tally
count_row row_num (ok l) t = record t { total = suc t.total; imported = suc t.imported }
count_row row_num (err e) t = record t {
  total = suc t.total;
  errors = t.errors ++ record { row = row_num; message = e } ∷ [];
}

abbrev pub finished : Tally → LeadImportJob → LeadImportJob
finished t job = record job {
  total_rows = t.total;
  imported_rows = t.imported;
  error_rows = length t.errors;
  errors = t.errors;
  status = "done";
}

abbrev pub on_lead : Contact → Result Lead × Tables → Reply × Tables
on_lead c (ok l, q) = (created l c, q)
on_lead c (err e, q) = (server_error, q)

abbrev pub on_upsert : String → ℕ → String → String → Result Contact × Tables → Reply × Tables
on_upsert id now tenant_id source_id (err e, q) = (unprocessable, q)
on_upsert id now tenant_id source_id (ok c, q) =
    on_lead c (create_lead id now (new_lead tenant_id source_id c) q)

abbrev pub body_fields : LeadBody → Dict String
body_fields b = ("phone", b.phone) ∷ ("email", b.email) ∷ ("name", b.name) ∷ []

module _ {Number : Type 0} (p : PhoneNumbers Number) where
  abbrev pub on_parsed : Option Number → Result String
  on_parsed none = err malformed
  on_parsed (some n) = if p.is_valid_number n then ok (p.format_e164 n) else err malformed

  -- `normalizePhone`
  unfoldable pub normalize_phone : String → Result String
  normalize_phone raw =
      let trimmed = p.trim_space raw in
      if trimmed == "" then err malformed else on_parsed (p.parse trimmed "IN")

  abbrev pub upsert_phone :
      String → ℕ → String → Dict String → Result String → Action Tables Contact
  upsert_phone id now tenant_id fields (err e) = throw e
  upsert_phone id now tenant_id fields (ok e164) =
      upsert_contact id now
        (new_contact tenant_id e164 (text_at "email" fields) (text_at "name" fields))

  -- `upsertContactFromFields`
  unfoldable pub upsert_contact_from_fields :
      String → ℕ → String → Dict String → Action Tables Contact
  unfolding normalize_phone text_at
  upsert_contact_from_fields id now tenant_id fields =
      upsert_phone id now tenant_id fields (normalize_phone (raw_phone fields))

  -- One row: its contact, then its lead. The ids are those that `NewID` makes for the row.
  unfoldable pub import_row :
      String × String → ℕ → String → String → Dict String → Action Tables Lead
  import_row (contact_id, lead_id) now tenant_id source_id fields =
      upsert_contact_from_fields contact_id now tenant_id fields >>= λ c.
      create_lead lead_id now (new_lead tenant_id source_id c)

  module _ (ids : ℕ → String × String) (now : ℕ) (tenant_id : String) where
    -- The loop of `handleCreateImportJob`: a row that fails is noted under its number.
    unfoldable pub import_rows :
        String → Dict String → ℕ → List (Dict String) → Tally → Tables → Tally × Tables
    unfolding apply_mapping
    import_rows source_id mapping i [] t q = (t, q)
    import_rows source_id mapping i (row ∷ rows) t q =
        let (r, q') =
          import_row (ids (suc i)) now tenant_id source_id (apply_mapping row mapping) q in
        import_rows source_id mapping (suc i) rows (count_row (suc i) r t) q'

    abbrev pub new_job : String → ImportBody → LeadImportJob
    new_job id b = record {
      id = id;
      tenant_id = tenant_id;
      source_id = b.source_id;
      file_url = b.file_url;
      mapping = b.mapping;
      status = "running";
      total_rows = 0;
      imported_rows = 0;
      error_rows = 0;
      errors = [];
      created_at = none;
      updated_at = none;
    }

    -- The rows of a job that is stored, and its end; an error of the last write is ignored.
    unfoldable pub run_job : ImportBody → Result LeadImportJob × Tables → Reply × Tables
    run_job b (err e, q) = (server_error, q)
    run_job b (ok job, q) =
        let (t, q') = import_rows b.source_id b.mapping 0 b.rows nothing_yet q in
        (imported (finished t job), (update_import_job now (finished t job) q').1)

    -- `handleCreateImportJob`; `none` is a body that does not decode.
    unfoldable pub handle_create_import_job : String → Option ImportBody → Tables → Reply × Tables
    handle_create_import_job id none q = (bad_request, q)
    handle_create_import_job id (some b) q =
        if tenant_id == ""
        then (bad_request, q)
        else run_job b (create_import_job "" now (new_job id b) q)

    -- A row of a file: its fields, which the parser has mapped, are mapped once more.
    unfoldable pub file_row : LeadImportJob → ℕ → Dict String → Tally × Tables → Tally × Tables
    unfolding apply_mapping
    file_row job row_num fields (t, q) =
        let (r, q') =
          import_row (ids row_num) now tenant_id job.source_id (apply_mapping fields job.mapping)
            q in
        (count_row row_num r t, q')

    abbrev pub read_file : LeadImportJob → File → Tables → Tally × Tables
    read_file job (csv rs) q = (parse_csv (file_row job) job.mapping rs (nothing_yet, q)).1
    read_file job (xlsx rs) q = (parse_xlsx (file_row job) job.mapping rs (nothing_yet, q)).1

    -- `processCSVImport`, which nothing calls yet; what the parser says went wrong is ignored.
    unfoldable pub process_csv_import : LeadImportJob → File → Tables → Tables
    process_csv_import job file q =
        let (t, q') = read_file job file q in (update_import_job now (finished t job) q').1

  -- `handleIngestApiLead`
  unfoldable pub handle_ingest_api_lead :
      String × String → ℕ → String → Option LeadBody → Tables → Reply × Tables
  unfolding overlay
  handle_ingest_api_lead ids now tenant_id none q = (bad_request, q)
  handle_ingest_api_lead (contact_id, lead_id) now tenant_id (some b) q =
      if tenant_id == ""
      then (bad_request, q)
      else on_upsert lead_id now tenant_id b.source_id
          (upsert_contact_from_fields contact_id now tenant_id (overlay b.fields (body_fields b)) q)

abbrev pub on_job : Result LeadImportJob × Tables → Reply × Tables
on_job (err e, q) = (not_there, q)
on_job (ok job, q) = (found_job job, q)

-- `handleGetImportJob`
unfoldable pub handle_get_import_job : String → String → Tables → Reply × Tables
handle_get_import_job tenant_id job_id q =
    if tenant_id == "" then (bad_request, q) else on_job (get_import_job tenant_id job_id q)

abbrev pub on_leads : Result (List Lead) × Tables → Reply × Tables
on_leads (err e, q) = (server_error, q)
on_leads (ok ls, q) = (listed ls, q)

-- `handleListLeads`, with the status, the assignee and the source of the query.
unfoldable pub handle_list_leads : String → String → String → String → Tables → Reply × Tables
handle_list_leads tenant_id status assigned_to source_id q =
    if tenant_id == ""
    then (bad_request, q)
    else on_leads (
        list_leads tenant_id
          (record {
            status = status;
            assigned_to = assigned_to;
            source_id = source_id;
            limit = pos 50;
            offset = pos 0;
          })
          q)

abbrev pub with_contact : Lead → Result Contact × Tables → Reply × Tables
with_contact l (ok c, q) = (found_lead l (some c), q)
with_contact l (err e, q) = (found_lead l none, q)

abbrev pub on_found : String → Result Lead × Tables → Reply × Tables
on_found tenant_id (err e, q) = (not_there, q)
on_found tenant_id (ok l, q) = with_contact l (get_contact tenant_id l.contact_id q)

-- `handleGetLead`
unfoldable pub handle_get_lead : String → String → Tables → Reply × Tables
handle_get_lead tenant_id lead_id q =
    if tenant_id == "" then (bad_request, q) else on_found tenant_id (get_lead tenant_id lead_id q)

abbrev pub on_score : String → ℤ → Result (Unit {0}) × Tables → Reply × Tables
on_score lead_id score (err e, q) = (not_there, q)
on_score lead_id score (ok u, q) = (scored lead_id score, q)

-- `handleUpdateLeadScore`
unfoldable pub handle_update_lead_score : ℕ → String → String → Option ℤ → Tables → Reply × Tables
handle_update_lead_score now tenant_id lead_id none q = (bad_request, q)
handle_update_lead_score now tenant_id lead_id (some score) q =
    if tenant_id == ""
    then (bad_request, q)
    else on_score lead_id score (update_lead_score now tenant_id lead_id score q)

-- The first 50 rows.
abbrev pub preview_row : ℕ → Dict String → List (Dict String) → List (Dict String)
preview_row row_num fields rows = if ltb (length rows) 50 then rows ++ fields ∷ [] else rows

abbrev pub on_preview : Result (List RowError) × List (Dict String) → Reply
on_preview (err e, rows) = unprocessable
on_preview (ok errors, rows) = previewed rows errors

-- `handlePreviewImport`; `none` is a form without a file.
unfoldable pub handle_preview_import : Dict String → Option File → Reply
handle_preview_import mapping none = bad_request
handle_preview_import mapping (some (csv rs)) = on_preview (parse_csv preview_row mapping rs [])
handle_preview_import mapping (some (xlsx rs)) = on_preview (parse_xlsx preview_row mapping rs [])
