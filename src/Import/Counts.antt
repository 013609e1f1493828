-- ===== src/Import/Counts.antt =====
-- internal/service/service.go: what an import job says of its rows.
use lead.Prelude.{
  ◌≡◌, refl, arith, inl, inr, ap, ℕ, suc, ◌+◌, ◌<◌, String, none, some, List, [], ◌∷◌, length,
  length-append, Dict, lookup, insert, lookup-insert, Bool-cases, ◌==◌, string_eq, eq_iff, Result,
  ok, err,
}
use lead.Pgkv.Post.{Post, Post-and_then, Post-lift, Post-put}
use lead.Identity.Phone.{PhoneNumbers}
use lead.Import.Store.{Contact, Lead, LeadImportJob}
use lead.Import.Durable.{
  Tables, upsert_contact, stamped_lead, create_lead, create_import_job, update_import_job,
}
use lead.Import.Durable.Frame.{upsert_contact-frame}
use lead.Import.Service.{
  Tally, count_row, import_row, import_rows, upsert_contact_from_fields, upsert_phone, new_lead,
  apply_mapping, nothing_yet, run_job, handle_create_import_job, Reply, imported, ImportBody,
}

length-insert :
    (k : String) (l : Lead) (d : Dict Lead)
    → lookup k d ≡ none
    → length (insert k l d) ≡ suc (length d)
unfolding lookup insert
length-insert k l [] e = refl
length-insert k l ((j, m) ∷ d) e = ground (arith, length-insert k l d)

module _ (q : Tables) where
  abbrev SameLeads : Tables → Type 0
  SameLeads q' = q'.leads.table ≡ q.leads.table

  -- A request for a contact leaves the leads alone, whatever fails.
  upsert_contact-leads :
      (fresh : String) (now : ℕ) (c : Contact)
      → Post (λ d. SameLeads) SameLeads (upsert_contact fresh now c q)
  upsert_contact-leads fresh now c =
      upsert_contact-frame SameLeads (λ r s h. h) (λ r s h. h) fresh now c q refl

  -- A row that fails leaves the leads alone; one that does not writes a lead under the row's id.
  abbrev WroteLead : String → Lead → Tables → Type 0
  WroteLead lead_id l q' = q'.leads.table ≡ insert lead_id l q.leads.table

  create_lead-Wrote :
      (lead_id tenant_id source_id : String) (now : ℕ) (c : Contact) (q' : Tables)
      → SameLeads q'
      → Post
          (WroteLead lead_id)
          SameLeads
          (create_lead lead_id now (new_lead tenant_id source_id c) q')
  unfolding create_lead
  create_lead-Wrote lead_id tenant_id source_id now c q' h =
      let l = stamped_lead lead_id now (new_lead tenant_id source_id c) in
      Post-and_then (λ u. WroteLead lead_id l) (WroteLead lead_id) SameLeads _ _
        (Post-lift (λ u. WroteLead lead_id l) SameLeads (λ s. record q' { leads = s }) _
          (Post-put _ _ _ _ q'.leads h (ap (insert lead_id l) h)))
        λ u r g. g

  module _ {Number : Type 0} (p : PhoneNumbers Number) where
    upsert_phone-leads :
        (id : String) (now : ℕ) (tenant_id : String) (fields : Dict String) (r : Result String)
        → Post (λ d. SameLeads) SameLeads (upsert_phone p id now tenant_id fields r q)
    upsert_phone-leads id now tenant_id fields (err e) = refl
    upsert_phone-leads id now tenant_id fields (ok e164) = upsert_contact-leads id now _

    import_row-Wrote :
        (contact_id lead_id : String) (now : ℕ) (tenant_id source_id : String)
        (fields : Dict String)
        → Post
            (WroteLead lead_id)
            SameLeads
            (import_row p (contact_id, lead_id) now tenant_id source_id fields q)
    unfolding import_row upsert_contact_from_fields
    import_row-Wrote contact_id lead_id now tenant_id source_id fields =
        Post-and_then (λ d. SameLeads) (WroteLead lead_id) SameLeads _ _
          (upsert_phone-leads contact_id now tenant_id fields _)
          (create_lead-Wrote lead_id tenant_id source_id now)

-- Of the rows after `i`, no id of a lead is taken.
abbrev pub AreFresh : (ℕ → String × String) → ℕ → Dict Lead → Type 0
AreFresh ids i d = (n : ℕ) → i < n → lookup (ids n).1 d ≡ none

abbrev pub AreDistinct : (ℕ → String × String) → Type 0
AreDistinct ids = (m n : ℕ) → (ids m).1 ≡ (ids n).1 → m ≡ n

-- What a job says of its rows, and what it did to the leads.
abbrev pub JobCounted : ℕ → Tables → Reply × Tables → Type 0
JobCounted rows q (imported job, q') =
    (job.total_rows ≡ rows)
    × (job.imported_rows + job.error_rows ≡ rows)
    × (length job.errors ≡ job.error_rows)
    × (length q'.leads.table ≡ length q.leads.table + job.imported_rows)
JobCounted rows q (reply, q') = q'.leads.table ≡ q.leads.table

module _ (ids : ℕ → String × String) (distinct : AreDistinct ids) where
  AreFresh-insert :
      (i : ℕ) (l : Lead) (d : Dict Lead)
      → AreFresh ids i d
      → AreFresh ids (suc i) (insert (ids (suc i)).1 l d)
  AreFresh-insert i l d h n lt = ground (
    arith,
    lookup-insert (ids (suc i)).1 (ids n).1 l d,
    eq_iff (ids (suc i)).1 (ids n).1,
    h n,
    distinct (suc i) n,
  )

  -- Totals and the table, from before a run of rows to after it.
  abbrev Counted : ℕ → Tally → Tables → Tally × Tables → Type 0
  Counted rows t q (t', q') =
      (t'.total ≡ t.total + rows)
      × (t'.imported + length t'.errors + t.total ≡ t'.total + t.imported + length t.errors)
      × (length q'.leads.table + t.imported ≡ length q.leads.table + t'.imported)

  row-Counted :
      (i : ℕ) (t : Tally) (q : Tables) (x : Result Lead × Tables)
      → AreFresh ids i q.leads.table
      → Post (WroteLead q (ids (suc i)).1) (SameLeads q) x
      → AreFresh ids (suc i) x.1.leads.table × Counted 1 t q (count_row (suc i) x.0 t, x.1)
  row-Counted i t q (ok l, q') fresh w = (
    rw w (AreFresh-insert i l q.leads.table fresh),
    (
      omega arith,
      omega arith,
      rw (w, length-insert (ids (suc i)).1 l q.leads.table (fresh (suc i) (omega arith)))
          (omega arith),
    ),
  )
  row-Counted i t q (err e, q') fresh w = (
    rw w (λ n lt. fresh n (omega arith)),
    (
      omega arith,
      omega (arith, length-append {0} t.errors (record { row = suc i; message = e } ∷ [])),
      rw w refl,
    ),
  )

  module _ {Number : Type 0} (p : PhoneNumbers Number) (now : ℕ)
      (tenant_id source_id : String) where
    import_rows-Counted :
        (mapping : Dict String) (i : ℕ) (rows : List (Dict String)) (t : Tally) (q : Tables)
        → AreFresh ids i q.leads.table
        → Counted (length rows) t q (import_rows p ids now tenant_id source_id mapping i rows t q)
    unfolding import_rows
    import_rows-Counted mapping i [] t q fresh = (omega arith, omega arith, omega arith)
    import_rows-Counted mapping i (row ∷ rows) t q fresh =
        let x = import_row p (ids (suc i)) now tenant_id source_id (apply_mapping row mapping) q in
        let (fresh', (a, b, c)) = row-Counted i t q x fresh (
          import_row-Wrote q p (ids (suc i)).0 (ids (suc i)).1 now tenant_id source_id
            (apply_mapping row mapping)) in
        let (a', b', c') =
          import_rows-Counted mapping (suc i) rows (count_row (suc i) x.0 t) x.1 fresh' in
        (omega arith, omega arith, omega arith)

    run_job-Counted :
        (b : ImportBody) (q : Tables) (x : Result LeadImportJob × Tables)
        → AreFresh ids 0 q.leads.table
        → source_id ≡ b.source_id
        → Post (λ job. SameLeads q) (SameLeads q) x
        → JobCounted (length b.rows) q (run_job p ids now tenant_id b x)
    unfolding run_job update_import_job
    run_job-Counted b q (err e, q') fresh source same = same
    run_job-Counted b q (ok job, q') fresh source same =
        let (total, sum, table) =
          import_rows-Counted b.mapping 0 b.rows nothing_yet q' (rw same fresh) in
        rw (← source) (omega arith, omega arith, refl, omega (arith, ap length same))

  -- Whatever statements of an import the database fails, and with lead ids that are all different
  -- and not yet taken, the job that the request answers with counts its rows right: the total is the
  -- number of rows of the request, each of them is imported or an error, there is one note for each
  -- error, and the leads have grown by exactly the imported rows. A request that is refused leaves the
  -- leads as they were.
  pub handle_create_import_job-Counted :
      {Number : Type 0} (p : PhoneNumbers Number) (now : ℕ) (tenant_id id : String) (b : ImportBody)
      (q : Tables)
      → AreFresh ids 0 q.leads.table
      → JobCounted (length b.rows) q (handle_create_import_job p ids now tenant_id id (some b) q)
  unfolding handle_create_import_job create_import_job
  handle_create_import_job-Counted p now tenant_id id b q fresh =
      elim (Bool-cases (tenant_id == "")) [
        | inl e ↦ rw e refl
        | inr e ↦ rw e (
            run_job-Counted p now tenant_id b.source_id b q _ fresh refl (
              Post-and_then (λ u. SameLeads q) (λ j. SameLeads q) (SameLeads q) _ _
                (Post-lift (λ u. SameLeads q) (SameLeads q) (λ s. record q { import_jobs = s }) _
                  (Post-put _ _ _ _ q.import_jobs refl refl))
                λ u r g. g))
      ]
