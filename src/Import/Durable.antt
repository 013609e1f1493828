-- ===== src/Import/Durable.antt =====
-- internal/store/postgres.go: the store over the key-value table.
pub mod Pages
pub mod Frame
use lead.Prelude.{
  ℕ, suc, zero, ◌+◌, ℤ, pos_part, String, Bool, true, false, ◌&&◌, ◌||◌, not, Option, none, some,
  List, [], ◌∷◌, ◌^^◌, if◌then◌else◌, ◌==◌, string_eq, ltb, leb, not_found,
}
use lead.Pgkv.{Kv, Action, ◌>>=◌, ◌>>◌, pure, throw, put, get, list, insert_new}
use lead.Import.Store.{
  Contact, Lead, LeadImportJob, LeadActivity, LeadStatusHistory, LeadFilters, or_now,
}

pub record Tables : Type 0 where
  pub import_jobs : Kv LeadImportJob
  pub contacts : Kv Contact
  pub contacts_by_phone : Kv Contact
  pub leads : Kv Lead
  pub lead_activities : Kv LeadActivity
  pub lead_status_history : Kv LeadStatusHistory
  pub idempotency_keys : Kv String

module _ {ℓ} {A : Type ℓ} where
  abbrev pub on_jobs : Action (Kv LeadImportJob) A → Action Tables A
  on_jobs m q = let (r, s) = m q.import_jobs in (r, record q { import_jobs = s })

  abbrev pub on_contacts : Action (Kv Contact) A → Action Tables A
  on_contacts m q = let (r, s) = m q.contacts in (r, record q { contacts = s })

  abbrev pub on_index : Action (Kv Contact) A → Action Tables A
  on_index m q = let (r, s) = m q.contacts_by_phone in (r, record q { contacts_by_phone = s })

  abbrev pub on_leads : Action (Kv Lead) A → Action Tables A
  on_leads m q = let (r, s) = m q.leads in (r, record q { leads = s })

  abbrev pub on_activities : Action (Kv LeadActivity) A → Action Tables A
  on_activities m q = let (r, s) = m q.lead_activities in (r, record q { lead_activities = s })

  abbrev pub on_history : Action (Kv LeadStatusHistory) A → Action Tables A
  on_history m q = let (r, s) = m q.lead_status_history in (r, record q { lead_status_history = s })

  abbrev pub on_keys : Action (Kv String) A → Action Tables A
  on_keys m q = let (r, s) = m q.idempotency_keys in (r, record q { idempotency_keys = s })

-- `if x.ID == "" { x.ID = pgkv.NewID("") }`, with the id that `NewID` makes.
abbrev pub or_id : String → String → String
or_id fresh id = if id == "" then fresh else id

-- `CreateImportJob`; the caller's job is changed too, so that it is returned.
unfoldable pub create_import_job : String → ℕ → LeadImportJob → Action Tables LeadImportJob
create_import_job fresh now job =
    let job' : LeadImportJob = record job {
      id = or_id fresh job.id;
      created_at = or_now now job.created_at;
      updated_at = some now;
    } in
    on_jobs (put job'.id job') >> pure job'

abbrev pub job_of : String → Option LeadImportJob → Action Tables LeadImportJob
job_of tenant_id none = throw not_found
job_of tenant_id (some job) = if job.tenant_id == tenant_id then pure job else throw not_found

-- `GetImportJob`
unfoldable pub get_import_job : String → String → Action Tables LeadImportJob
get_import_job tenant_id job_id = on_jobs (get job_id) >>= job_of tenant_id

-- `UpdateImportJob`
unfoldable pub update_import_job : ℕ → LeadImportJob → Action Tables (Unit {0})
update_import_job now job = on_jobs (put job.id (record job { updated_at = some now }))

abbrev pub phone_key : Contact → String
phone_key c = c.tenant_id ^^ (":" ^^ c.phone_e164)

-- The contact as it is stored.
abbrev pub stamped : String → ℕ → Contact → Contact
stamped fresh now c = record c {
  id = or_id fresh c.id;
  created_at = or_now now c.created_at;
  updated_at = some now;
}

-- A contact that is there stays as it is; a new one is written under its id, then under its phone.
unfoldable pub or_store : String → ℕ → Contact → Option Contact → Action Tables Contact
or_store fresh now c (some existing) = pure existing
or_store fresh now c none =
    on_contacts (put (stamped fresh now c).id (stamped fresh now c))
    >> on_index (put (phone_key c) (stamped fresh now c))
    >> pure (stamped fresh now c)

-- `UpsertContact`
unfoldable pub upsert_contact : String → ℕ → Contact → Action Tables Contact
upsert_contact fresh now c = on_index (get (phone_key c)) >>= or_store fresh now c

abbrev pub contact_of : String → Option Contact → Action Tables Contact
contact_of tenant_id none = throw not_found
contact_of tenant_id (some c) = if c.tenant_id == tenant_id then pure c else throw not_found

-- `GetContact`
unfoldable pub get_contact : String → String → Action Tables Contact
get_contact tenant_id contact_id = on_contacts (get contact_id) >>= contact_of tenant_id

abbrev pub stamped_lead : String → ℕ → Lead → Lead
stamped_lead fresh now l = record l {
  id = or_id fresh l.id;
  created_at = or_now now l.created_at;
  updated_at = some now;
}

-- `CreateLead`; the caller's lead is changed too, so that it is returned.
unfoldable pub create_lead : String → ℕ → Lead → Action Tables Lead
create_lead fresh now l =
    on_leads (put (stamped_lead fresh now l).id (stamped_lead fresh now l))
    >> pure (stamped_lead fresh now l)

abbrev pub lead_of : String → Option Lead → Action Tables Lead
lead_of tenant_id none = throw not_found
lead_of tenant_id (some l) = if l.tenant_id == tenant_id then pure l else throw not_found

-- `GetLead`
unfoldable pub get_lead : String → String → Action Tables Lead
get_lead tenant_id lead_id = on_leads (get lead_id) >>= lead_of tenant_id

-- A filter that is empty passes every lead.
abbrev pub meets : String → String → Bool
meets wanted found = wanted == "" || found == wanted

abbrev pub passes : String → LeadFilters → Lead → Bool
passes tenant_id f l =
    l.tenant_id == tenant_id
    && (meets f.status l.status
        && (meets f.source_id l.source_id && meets f.assigned_to l.assigned_to))

-- The loop of `ListLeads`: leads still to skip, the limit, and how many are in `out`.
unfoldable pub page : (Lead → Bool) → ℕ → ℕ → ℕ → List Lead → List Lead
page p start limit n [] = []
page p zero limit n (l ∷ ls) =
    let more = page p 0 limit (suc n) ls in
    let others = page p 0 limit n ls in
    if p l then (if ltb 0 limit && leb limit (suc n) then l ∷ [] else l ∷ more) else others
page p (suc start) limit n (l ∷ ls) =
    let skipped = page p start limit n ls in
    let others = page p (suc start) limit n ls in if p l then skipped else others

-- `ListLeads`; a negative offset counts as 0, and a limit that is not positive as no limit.
unfoldable pub list_leads : String → LeadFilters → Action Tables (List Lead)
unfolding page
list_leads tenant_id f = do
  ls ← on_leads list
  pure (page (passes tenant_id f) (pos_part f.offset) (pos_part f.limit) 0 ls)

-- `AppendActivity`
unfoldable pub append_activity : String → ℕ → LeadActivity → Action Tables (Unit {0})
append_activity fresh now act =
    let act' : LeadActivity = record act {
      id = or_id fresh act.id;
      occurred_at = or_now now act.occurred_at;
    } in
    on_activities (put act'.id act')

-- `AppendStatusHistory`
unfoldable pub append_status_history : String → ℕ → LeadStatusHistory → Action Tables (Unit {0})
append_status_history fresh now h =
    let h' : LeadStatusHistory = record h {
      id = or_id fresh h.id;
      changed_at = or_now now h.changed_at;
    } in
    on_history (put h'.id h')

abbrev pub scored : ℤ → ℕ → Lead → Lead
scored score now l = record l { score = score; updated_at = some now }

-- `UpdateLeadScore`
unfoldable pub update_lead_score : ℕ → String → String → ℤ → Action Tables (Unit {0})
update_lead_score now tenant_id lead_id score =
    get_lead tenant_id lead_id >>= λ l. on_leads (put l.id (scored score now l))

-- `CheckAndSetIdempotencyKey`: whether the key was there.
unfoldable pub check_and_set_idempotency_key : String → Action Tables Bool
check_and_set_idempotency_key key = do inserted ← on_keys (insert_new key key); pure (not inserted)
