-- ===== src/Import/Linked.antt =====
-- internal/service/service.go and internal/store/postgres.go: every lead keeps its contact.
pub mod Rows
pub mod Reads
pub mod Requests
use lead.Prelude.{
  ◌≡◌, ◌≢◌, refl, arith, inl, inr, ap, ℕ, suc, ℤ, String, Bool, true, false, Option, none, some,
  List, [], ◌∷◌, Dict, lookup, insert, lookup-insert, Bool-cases, if◌then◌else◌, ◌==◌, string_eq,
  eq_iff, Result, ok, err,
}
use lead.Pgkv.Post.{Post, Post-and_then, Post-lift, Post-put, Post-get}
use lead.Identity.Phone.{PhoneNumbers}
use lead.Import.Store.{Contact, Lead, LeadImportJob}
use lead.Import.Durable.{
  Tables, upsert_contact, or_store, phone_key, stamped, stamped_lead, create_lead,
  create_import_job, update_import_job, get_lead, lead_of, scored, update_lead_score,
  check_and_set_idempotency_key,
}

-- Every contact of the index and every contact that a lead names is there.
pub record AreLinked (cs index : Dict Contact) (ls : Dict Lead) : Type 0 where
  pub indexed : (k : String) (c : Contact) → lookup k index ≡ some c → lookup c.id cs ≢ none
  pub linked : (k : String) (l : Lead) → lookup k ls ≡ some l → lookup l.contact_id cs ≢ none

abbrev pub IsLinked : Tables → Type 0
IsLinked q = AreLinked q.contacts.table q.contacts_by_phone.table q.leads.table

abbrev pub Holds : Contact → Tables → Type 0
Holds c q = (lookup c.id q.contacts.table ≢ none) × IsLinked q

-- A contact that was read is there, and so is that of a lead that was read.
abbrev FoundContact : Option Contact → Tables → Type 0
FoundContact found q =
    IsLinked q × ((c : Contact) → found ≡ some c → lookup c.id q.contacts.table ≢ none)

abbrev pub FoundLead : Option Lead → Tables → Type 0
FoundLead found q =
    IsLinked q × ((l : Lead) → found ≡ some l → lookup l.contact_id q.contacts.table ≢ none)

abbrev pub HasContact : Lead → Tables → Type 0
HasContact l q = IsLinked q × (lookup l.contact_id q.contacts.table ≢ none)

module _ (cs index : Dict Contact) (ls : Dict Lead) (h : AreLinked cs index ls) where
  still : (k j : String) (c : Contact) → lookup j cs ≢ none → lookup j (insert k c cs) ≢ none
  still k j c there gone = ground (arith, lookup-insert k j c cs, there, gone)

  insert_contact : (k : String) (c : Contact) → AreLinked (insert k c cs) index ls
  insert_contact k c = record {
    indexed = λ j d e. still k d.id c (h.indexed j d e);
    linked = λ j l e. still k l.contact_id c (h.linked j l e);
  }

  insert-index :
      (k : String) (c : Contact) → lookup c.id cs ≢ none → AreLinked cs (insert k c index) ls
  insert-index k c there = record {
    indexed =
        λ j d e gone. ground (arith, lookup-insert k j c index, e, h.indexed j d, there, gone);
    linked = h.linked;
  }

  insert_lead :
      (k : String) (l : Lead) → lookup l.contact_id cs ≢ none → AreLinked cs index (insert k l ls)
  insert_lead k l there = record {
    indexed = h.indexed;
    linked = λ j m e gone. ground (arith, lookup-insert k j l ls, e, h.linked j m, there, gone);
  }

or_store-IsLinked :
    (fresh : String) (now : ℕ) (c : Contact) (found : Option Contact) (q : Tables)
    → FoundContact found q
    → Post Holds IsLinked (or_store fresh now c found q)
unfolding or_store
or_store-IsLinked fresh now c (some d) q (h, there) = (there d refl, h)
or_store-IsLinked fresh now c none q (h, there) =
    let c' = stamped fresh now c in
    let held : lookup c'.id (insert c'.id c' q.contacts.table) ≢ none = λ gone.
      ground (arith, lookup-insert c'.id c'.id c' q.contacts.table, eq_iff c'.id c'.id, gone) in
    let grown =
      insert_contact q.contacts.table q.contacts_by_phone.table q.leads.table h c'.id c' in
    Post-and_then (λ u. Holds c') Holds IsLinked _ _
      (Post-and_then (λ u. Holds c') (λ u. Holds c') IsLinked _ _
        (Post-lift (λ u. Holds c') IsLinked (λ s. record q { contacts = s }) _
          (Post-put _ _ _ _ q.contacts h (held, grown)))
        λ u r (there', h').
          Post-lift (λ u. Holds c') IsLinked (λ s. record r { contacts_by_phone = s }) _
            (Post-put _ _ _ _ r.contacts_by_phone h' (
              there',
              insert-index r.contacts.table r.contacts_by_phone.table r.leads.table h' (phone_key c)
                  c' there',
            )))
      λ v t k. k

pub upsert_contact-IsLinked :
    (fresh : String) (now : ℕ) (c : Contact) (q : Tables)
    → IsLinked q
    → Post Holds IsLinked (upsert_contact fresh now c q)
unfolding upsert_contact
upsert_contact-IsLinked fresh now c q h =
    Post-and_then FoundContact Holds IsLinked _ _
      (Post-lift FoundContact IsLinked (λ s. record q { contacts_by_phone = s }) _
        (Post-get _ _ _ q.contacts_by_phone h (h, λ d e. h.indexed (phone_key c) d e)))
      λ found r g. or_store-IsLinked fresh now c found r g

pub create_lead-IsLinked :
    (fresh : String) (now : ℕ) (l : Lead) (q : Tables)
    → IsLinked q
    → lookup l.contact_id q.contacts.table ≢ none
    → Post (λ m. IsLinked) IsLinked (create_lead fresh now l q)
unfolding create_lead
create_lead-IsLinked fresh now l q h there =
    let m = stamped_lead fresh now l in
    Post-and_then (λ u. IsLinked) (λ m. IsLinked) IsLinked _ _
      (Post-lift (λ u. IsLinked) IsLinked (λ s. record q { leads = s }) _
        (Post-put _ _ _ _ q.leads h
          (insert_lead q.contacts.table q.contacts_by_phone.table q.leads.table h m.id m there)))
      λ u r g. g

pub lead_of-IsLinked :
    (tenant_id : String) (found : Option Lead) (q : Tables)
    → FoundLead found q
    → Post HasContact IsLinked (lead_of tenant_id found q)
lead_of-IsLinked tenant_id none q h = h.0
lead_of-IsLinked tenant_id (some l) q h = elim (Bool-cases (l.tenant_id == tenant_id)) [
  | inl e ↦ rw e (h.0, h.1 l refl)
  | inr e ↦ rw e h.0
]

pub get_lead-HasContact :
    (tenant_id lead_id : String) (q : Tables)
    → IsLinked q
    → Post HasContact IsLinked (get_lead tenant_id lead_id q)
unfolding get_lead
get_lead-HasContact tenant_id lead_id q h =
    Post-and_then FoundLead HasContact IsLinked _ _
      (Post-lift FoundLead IsLinked (λ s. record q { leads = s }) _
        (Post-get _ _ _ q.leads h (h, λ l e. h.linked lead_id l e)))
      λ found r g. lead_of-IsLinked tenant_id found r g

pub update_lead_score-IsLinked :
    (now : ℕ) (tenant_id lead_id : String) (score : ℤ) (q : Tables)
    → IsLinked q
    → Post (λ u. IsLinked) IsLinked (update_lead_score now tenant_id lead_id score q)
unfolding update_lead_score
update_lead_score-IsLinked now tenant_id lead_id score q h =
    Post-and_then HasContact (λ u. IsLinked) IsLinked _ _
      (get_lead-HasContact tenant_id lead_id q h)
      λ l r (h', there).
        Post-lift (λ u. IsLinked) IsLinked (λ s. record r { leads = s }) _
          (Post-put _ _ _ _ r.leads h' (
            insert_lead r.contacts.table r.contacts_by_phone.table r.leads.table h' l.id
              (scored score now l) there))
