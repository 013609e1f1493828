-- ===== src/Import/Tests.antt =====
-- services/lead-import: the theorems and the code on a small file and two webhooks.
use lead.Prelude.{
  ◌≡◌, refl, arith, ap, sym, ◌∙◌, ℕ, zero, suc, pos, String, true, some, [], ◌∷◌, Dict, ok, lookup,
  length, codes, values, keep,
}
use lead.Pgkv.{up, put, get}
use lead.Identity.Phone.{PhoneNumbers}
use lead.Import.Store.{Lead, LeadFilters}
use lead.Import.Durable.{Tables, list_leads, passes, upsert_contact, or_store, create_lead}
use lead.Import.Durable.Pages.{window, list_leads_lem}
use lead.Import.Service.{
  Reply, ImportBody, handle_create_import_job, upsert_contact_from_fields, import_row, import_rows,
  normalize_phone, nothing_yet,
}
use lead.Import.Counts.{AreFresh, AreDistinct, JobCounted, handle_create_import_job-Counted}
use lead.Import.Webhooks.{GooglePayload, handle_google_webhook}
use lead.Import.Redelivered.{with_keys, handle_google_webhook_once}
use lead.Import.Linked.{IsLinked}
use lead.Import.Linked.Requests.{create_job, google, serve_all, serve_all-IsLinked}

-- Phones that are given in their normal form.
abbrev plain : PhoneNumbers String
plain = record {
  trim_space = λ s. s;
  parse = λ s country. some s;
  is_valid_number = λ n. true;
  format_e164 = λ n. n;
}

-- A text of `n` letters.
abbrev letters : ℕ → String
letters zero = ""
letters (suc n) = String.◌∷◌ "x" (letters n)

abbrev new_ids : ℕ → String × String
new_ids n = (letters n, letters n)

length-letters : (n : ℕ) → length (codes (letters n)) ≡ n
length-letters zero = refl
length-letters (suc n) = omega (arith, length-letters n)

new_ids-AreDistinct : AreDistinct new_ids
new_ids-AreDistinct m n e =
    sym (length-letters m) ∙ (ap (λ s. length (codes s)) e ∙ length-letters n)

abbrev nothing_stored : Tables
nothing_stored = record {
  import_jobs = up [];
  contacts = up [];
  contacts_by_phone = up [];
  leads = up [];
  lead_activities = up [];
  lead_status_history = up [];
  idempotency_keys = up [];
}

-- The second row has no phone, and the third one's phone is in a column that the mapping names.
abbrev three_rows : ImportBody
three_rows = record {
  file_url = "";
  rows =
      (("phone", "+911") ∷ ("name", "Ann") ∷ [])
      ∷ (("name", "Bob") ∷ [])
      ∷ (("Tel", "+913") ∷ [])
      ∷ [];
  mapping = ("Tel", "phone") ∷ [];
  source_id = "s1";
}

three_rows_table :
    let (r, q) =
      import_rows plain new_ids 7 "acme" "s1" three_rows.mapping 0 three_rows.rows nothing_yet
        nothing_stored in
    (r.imported ≡ 2) × (length r.errors ≡ 1) × (length q.leads.table ≡ 2)
unfolding import_rows import_row upsert_contact_from_fields normalize_phone upsert_contact or_store
    create_lead put get lookup
three_rows_table = (refl, refl, refl)

handle_create_import_job-Counted_example :
    JobCounted 3 nothing_stored
      (handle_create_import_job plain new_ids 7 "acme" "j1" (some three_rows) nothing_stored)
unfolding lookup
handle_create_import_job-Counted_example =
    handle_create_import_job-Counted new_ids new_ids-AreDistinct plain 7 "acme" "j1" three_rows
      nothing_stored none_taken
  where
    none_taken : AreFresh new_ids 0 []
    none_taken n lt = refl

abbrev a_payload : GooglePayload
a_payload = record {
  lead_id = "g1";
  user_column_data = ("PHONE_NUMBER", "+915") ∷ ("FULL_NAME", "Eve") ∷ [];
}

handle_google_webhook_once_example :
    let q' =
      (handle_google_webhook plain "c1" "l1" 7 "acme"
        (some a_payload)
        (with_keys nothing_stored [])).1 in
    handle_google_webhook plain "c2" "l2" 8 "acme" (some a_payload) q' ≡ (Reply.duplicate, q')
handle_google_webhook_once_example =
    handle_google_webhook_once plain "acme" refl "c1" "l1" "c2" "l2" 7 8 a_payload a_payload
      nothing_stored [] refl

nothing-IsLinked : IsLinked nothing_stored
unfolding lookup
nothing-IsLinked = record { indexed = λ k c e. cc; linked = λ k l e. cc }

serve_all-IsLinked_example : IsLinked (
    serve_all plain
      (create_job new_ids 7 "acme" "j1" (some three_rows)
        ∷ google ("c9", "l9") 8 "acme" (some a_payload)
        ∷ [])
      nothing_stored)
serve_all-IsLinked_example =
    serve_all-IsLinked plain
      (create_job new_ids 7 "acme" "j1" (some three_rows)
        ∷ google ("c9", "l9") 8 "acme" (some a_payload)
        ∷ [])
      nothing_stored nothing-IsLinked

abbrev lead_with : String → String → Lead
lead_with id status = record {
  id = id;
  tenant_id = "acme";
  contact_id = "c1";
  source_id = "s1";
  status = status;
  score = pos 0;
  assigned_to = "";
  created_at = some 1;
  updated_at = some 1;
}

abbrev four_leads : Dict Lead
four_leads =
    ("a", lead_with "a" "new")
    ∷ ("b", lead_with "b" "new")
    ∷ ("c", lead_with "c" "lost")
    ∷ ("d", lead_with "d" "new")
    ∷ []

-- The second page of one lead each, of the new ones.
abbrev second_page : LeadFilters
second_page = record {
  status = "new";
  source_id = "";
  assigned_to = "";
  limit = pos 1;
  offset = pos 1;
}

abbrev leads_stored : Tables
leads_stored = record nothing_stored { leads = up four_leads }

list_leads_lem_example : list_leads "acme" second_page leads_stored ≡ (
  ok (window 1 1 (keep (passes "acme" second_page) (values four_leads))),
  record leads_stored { leads = up four_leads },
)
list_leads_lem_example = list_leads_lem "acme" second_page four_leads leads_stored refl

second_page_lead :
    window 1 1 (keep (passes "acme" second_page) (values four_leads)) ≡ lead_with "b" "new" ∷ []
second_page_lead = refl
