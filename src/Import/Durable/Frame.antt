-- ===== src/Import/Durable/Frame.antt =====
-- internal/store/postgres.go: what the writes of contacts and leads leave alone.
use lead.Prelude.{ℕ, String, Option, none, some}
use lead.Pgkv.{Kv}
use lead.Pgkv.Post.{Post, Post-and_then, Post-lift, Post-put, Post-get}
use lead.Import.Store.{Contact, Lead}
use lead.Import.Durable.{Tables, upsert_contact, or_store, create_lead}

-- A fact that does not speak of the contacts and their index outlives a request for a contact.
module _ (P : Tables → Type 0)
    (on_contacts : (q : Tables) (s : Kv Contact) → P q → P (record q { contacts = s }))
    (on_index : (q : Tables) (s : Kv Contact) → P q → P (record q { contacts_by_phone = s })) where
  or_store-frame :
      (fresh : String) (now : ℕ) (c : Contact) (found : Option Contact) (q : Tables)
      → P q
      → Post (λ d. P) P (or_store fresh now c found q)
  unfolding or_store
  or_store-frame fresh now c (some d) q h = h
  or_store-frame fresh now c none q h =
      Post-and_then (λ u. P) (λ d. P) P _ _
        (Post-and_then (λ u. P) (λ d. P) P _ _
          (Post-lift (λ u. P) P (λ s. record q { contacts = s }) _
            (Post-put _ _ _ _ q.contacts (on_contacts q _ h) (on_contacts q _ h)))
          λ u r g.
            Post-lift (λ u. P) P (λ s. record r { contacts_by_phone = s }) _
              (Post-put _ _ _ _ r.contacts_by_phone (on_index r _ g) (on_index r _ g)))
        λ v t k. k

  pub upsert_contact-frame :
      (fresh : String) (now : ℕ) (c : Contact) (q : Tables)
      → P q
      → Post (λ d. P) P (upsert_contact fresh now c q)
  unfolding upsert_contact
  upsert_contact-frame fresh now c q h =
      Post-and_then (λ u. P) (λ d. P) P _ _
        (Post-lift (λ u. P) P (λ s. record q { contacts_by_phone = s }) _
          (Post-get _ _ _ q.contacts_by_phone (on_index q _ h) (on_index q _ h)))
        (or_store-frame fresh now c)

-- The same for a new lead.
pub create_lead-frame :
    (P : Tables → Type 0)
    → ((q : Tables) (s : Kv Lead) → P q → P (record q { leads = s }))
    → (fresh : String) (now : ℕ) (l : Lead) (q : Tables) → P q
    → Post (λ m. P) P (create_lead fresh now l q)
unfolding create_lead
create_lead-frame P on_leads fresh now l q h =
    Post-and_then (λ u. P) (λ m. P) P _ _
      (Post-lift (λ u. P) P (λ s. record q { leads = s }) _
        (Post-put _ _ _ _ q.leads (on_leads q _ h) (on_leads q _ h)))
      λ u r g. g
