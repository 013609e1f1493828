-- ===== src/Import/Linked/Reads.antt =====
-- internal/service/service.go: the requests that only read.
use lead.Prelude.{
  inl, inr, String, Option, none, some, List, Bool-cases, ◌==◌, string_eq, Result, ok, err,
}
use lead.Pgkv.Post.{Post, Post-and_then, Post-lift, Post-get, Post-list}
use lead.Import.Store.{Contact, Lead, LeadImportJob}
use lead.Import.Durable.{Tables, get_import_job, job_of, get_contact, contact_of, list_leads}
use lead.Import.Service.{
  handle_get_import_job, on_job, handle_list_leads, on_leads, on_found, with_contact,
  handle_get_lead,
}
use lead.Import.Linked.{IsLinked, HasContact, get_lead-HasContact}

job_of-IsLinked :
    (tenant_id : String) (found : Option LeadImportJob) (q : Tables)
    → IsLinked q
    → Post (λ j. IsLinked) IsLinked (job_of tenant_id found q)
job_of-IsLinked tenant_id none q h = h
job_of-IsLinked tenant_id (some job) q h = elim (Bool-cases (job.tenant_id == tenant_id)) [
  | inl e ↦ rw e h
  | inr e ↦ rw e h
]

on_job-IsLinked :
    (x : Result LeadImportJob × Tables) → Post (λ j. IsLinked) IsLinked x → IsLinked (on_job x).1
on_job-IsLinked (err e, q) h = h
on_job-IsLinked (ok job, q) h = h

pub get_job-IsLinked :
    (tenant_id job_id : String) (q : Tables)
    → IsLinked q
    → IsLinked (handle_get_import_job tenant_id job_id q).1
unfolding handle_get_import_job get_import_job
get_job-IsLinked tenant_id job_id q h = elim (Bool-cases (tenant_id == "")) [
  | inl e ↦ rw e h
  | inr e ↦ rw e (
      on_job-IsLinked _ (
        Post-and_then (λ f. IsLinked) (λ j. IsLinked) IsLinked _ _
          (Post-lift (λ f. IsLinked) IsLinked (λ s. record q { import_jobs = s }) _
            (Post-get _ _ _ q.import_jobs h h))
          (job_of-IsLinked tenant_id)))
]

on_leads-IsLinked :
    (x : Result (List Lead) × Tables) → Post (λ ls. IsLinked) IsLinked x → IsLinked (on_leads x).1
on_leads-IsLinked (err e, q) h = h
on_leads-IsLinked (ok ls, q) h = h

pub list-IsLinked :
    (tenant_id status assigned_to source_id : String) (q : Tables)
    → IsLinked q
    → IsLinked (handle_list_leads tenant_id status assigned_to source_id q).1
unfolding handle_list_leads list_leads
list-IsLinked tenant_id status assigned_to source_id q h = elim (Bool-cases (tenant_id == "")) [
  | inl e ↦ rw e h
  | inr e ↦ rw e (
      on_leads-IsLinked _ (
        Post-and_then (λ ls. IsLinked) (λ ls. IsLinked) IsLinked _ _
          (Post-lift (λ ls. IsLinked) IsLinked (λ s. record q { leads = s }) _
            (Post-list _ _ q.leads h h))
          λ ls r g. g))
]

contact_of-IsLinked :
    (tenant_id : String) (found : Option Contact) (q : Tables)
    → IsLinked q
    → Post (λ c. IsLinked) IsLinked (contact_of tenant_id found q)
contact_of-IsLinked tenant_id none q h = h
contact_of-IsLinked tenant_id (some c) q h = elim (Bool-cases (c.tenant_id == tenant_id)) [
  | inl e ↦ rw e h
  | inr e ↦ rw e h
]

with_contact-IsLinked :
    (l : Lead) (x : Result Contact × Tables)
    → Post (λ c. IsLinked) IsLinked x
    → IsLinked (with_contact l x).1
with_contact-IsLinked l (err e, q) h = h
with_contact-IsLinked l (ok c, q) h = h

on_found-IsLinked :
    (tenant_id : String) (x : Result Lead × Tables)
    → Post HasContact IsLinked x
    → IsLinked (on_found tenant_id x).1
unfolding get_contact
on_found-IsLinked tenant_id (err e, q) h = h
on_found-IsLinked tenant_id (ok l, q) (h, there) = with_contact-IsLinked l _ (
    Post-and_then (λ f. IsLinked) (λ c. IsLinked) IsLinked _ _
      (Post-lift (λ f. IsLinked) IsLinked (λ s. record q { contacts = s }) _
        (Post-get _ _ _ q.contacts h h))
      (contact_of-IsLinked tenant_id))

pub get_one-IsLinked :
    (tenant_id lead_id : String) (q : Tables)
    → IsLinked q
    → IsLinked (handle_get_lead tenant_id lead_id q).1
unfolding handle_get_lead
get_one-IsLinked tenant_id lead_id q h = elim (Bool-cases (tenant_id == "")) [
  | inl e ↦ rw e h
  | inr e ↦ rw e (on_found-IsLinked tenant_id _ (get_lead-HasContact tenant_id lead_id q h))
]
