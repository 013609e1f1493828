-- ===== src/Identity/Merged.antt =====
-- internal/store/postgres.go: whom a phone names, before and after a merge.
use lead.Prelude.{
  Option-cases, inl, inr, ℕ, ◌≡◌, refl, String, Bool, true, false, some, string_eq, string_beq_refl,
  ok, Dict, lookup, insert, erase, lookup-insert, lookup-erase,
}
use lead.Pgkv.{up}
use lead.Identity.Durable.{
  Contact, MergeAudit, Tables, phone_key, new_contact, get_or_create_contact, merge_contacts,
  merged,
}

-- A reachable database.
abbrev pub reachable : Dict Contact → Dict Contact → Dict MergeAudit → Tables
reachable cs index audit = record {
  contacts = up cs;
  contacts_by_phone = up index;
  merge_audit = up audit;
}

module _ (cs index : Dict Contact) (audit : Dict MergeAudit) (tenant_id phone : String) where
  -- On a reachable database, a phone of a tenant that is resolved twice, with whatever else the
  -- requests say, names the same contact both times, and the second time it is not new.
  pub get_or_create_contact_twice :
      (id id' : String) (now now' : ℕ) (email email' name name' : String)
      → let (r, q) =
          get_or_create_contact id now tenant_id phone email name (reachable cs index audit) in
        (c : Contact) × (created : Bool) × (r ≡ ok (c, created))
        × (get_or_create_contact id' now' tenant_id phone email' name' q ≡ (ok (c, false), q))
  unfolding get_or_create_contact
  get_or_create_contact_twice id id' now now' email email' name name' =
      elim (Option-cases (lookup (phone_key tenant_id phone) index)) [
        | inr (c, e) ↦ rw e (c, false, refl, rw e refl)
        | inl e ↦
            let c = new_contact id now tenant_id phone email name in
            rw e (
              c,
              true,
              refl,
              rw
                  (
                    lookup-insert (phone_key tenant_id phone) (phone_key tenant_id phone) c index,
                    string_beq_refl (phone_key tenant_id phone),
                  )
                  refl,
            )
      ]

module _ (cs index : Dict Contact) (audit : Dict MergeAudit) (dup : Contact) where
  abbrev own_key : String
  own_key = phone_key dup.tenant_id dup.phone_e164

  -- A merge of a stored contact.
  merge_contacts-stored :
      (audit_id primary_id actor_id duplicate_id : String) (now : ℕ)
      → lookup duplicate_id cs ≡ some dup
      → (audit' : Dict MergeAudit) × (merge_contacts audit_id now dup.tenant_id primary_id
            duplicate_id actor_id
            (reachable cs index audit)
          ≡ (
            ok tt,
            reachable
                (insert duplicate_id (merged primary_id now dup) cs)
                (erase own_key index)
                audit',
          ))
  unfolding merge_contacts
  merge_contacts-stored audit_id primary_id actor_id duplicate_id now stored =
      rw (stored, string_beq_refl dup.tenant_id) (_, refl)

  -- On a reachable database, a duplicate that is merged into a primary contact loses its phone: the
  -- merge succeeds and points the duplicate at the primary, but the next request for the duplicate's
  -- phone makes a new contact, with the new id, and does not find the primary.
  pub merged_phone_is_new :
      (audit_id id primary_id actor_id duplicate_id : String) (now now' : ℕ) (email name : String)
      → lookup duplicate_id cs ≡ some dup
      → let (r, q) =
          merge_contacts audit_id now dup.tenant_id primary_id duplicate_id actor_id
            (reachable cs index audit) in
        (r ≡ ok tt)
        × (lookup duplicate_id q.contacts.table ≡ some (merged primary_id now dup))
        × ((get_or_create_contact id now' dup.tenant_id dup.phone_e164 email name q).0
            ≡ ok (new_contact id now' dup.tenant_id dup.phone_e164 email name, true))
  unfolding get_or_create_contact
  merged_phone_is_new audit_id id primary_id actor_id duplicate_id now now' email name stored =
      let (audit', run) =
        merge_contacts-stored audit_id primary_id actor_id duplicate_id now stored in
      rw run (
        refl,
        rw
            (
              lookup-insert duplicate_id duplicate_id (merged primary_id now dup) cs,
              string_beq_refl duplicate_id,
            )
            refl,
        rw (lookup-erase own_key own_key index, string_beq_refl own_key) refl,
      )
