-- ===== src/Identity/Durable.antt =====
-- internal/model/model.go and internal/store/postgres.go: the contacts, and their copies under the
-- key of tenant and phone.
use lead.Prelude.{
  ℕ, String, Bool, true, false, Option, none, some, ◌^^◌, if◌then◌else◌, ◌==◌, string_eq, not_found,
}
use lead.Pgkv.{Kv, Action, ◌>>=◌, ◌>>◌, pure, throw, put, get, delete}

pub record Contact : Type 0 where
  pub id : String
  pub tenant_id : String
  pub phone_e164 : String
  pub email : String
  pub name : String
  pub merged_into : Option String
  pub created_at : ℕ
  pub updated_at : ℕ

pub record MergeAudit : Type 0 where
  pub id : String
  pub tenant_id : String
  pub primary_id : String
  pub duplicate_id : String
  pub actor_id : String
  pub merged_at : ℕ

pub record Tables : Type 0 where
  pub contacts : Kv Contact
  pub contacts_by_phone : Kv Contact
  pub merge_audit : Kv MergeAudit

abbrev pub on_contacts {ℓ} : {A : Type ℓ} → Action (Kv Contact) A → Action Tables A
on_contacts m q = let (r, s) = m q.contacts in (r, record q { contacts = s })

abbrev pub on_index {ℓ} : {A : Type ℓ} → Action (Kv Contact) A → Action Tables A
on_index m q = let (r, s) = m q.contacts_by_phone in (r, record q { contacts_by_phone = s })

abbrev pub on_audit {ℓ} : {A : Type ℓ} → Action (Kv MergeAudit) A → Action Tables A
on_audit m q = let (r, s) = m q.merge_audit in (r, record q { merge_audit = s })

abbrev pub phone_key : String → String → String
phone_key tenant_id phone = tenant_id ^^ (":" ^^ phone)

abbrev pub new_contact : String → ℕ → String → String → String → String → Contact
new_contact id now tenant_id phone email name = record {
  id = id;
  tenant_id = tenant_id;
  phone_e164 = phone;
  email = email;
  name = name;
  merged_into = none;
  created_at = now;
  updated_at = now;
}

-- A contact that is there, or a new one that is written under its id and under its key.
abbrev pub or_create : String → Contact → Option Contact → Action Tables (Contact × Bool)
or_create key c (some existing) = pure (existing, false)
or_create key c none = on_contacts (put c.id c) >> on_index (put key c) >> pure (c, true)

-- `GetOrCreateContact`, with the id that `NewID` makes and the time: the contact and whether it is new.
unfoldable pub get_or_create_contact :
    String → ℕ → String → String → String → String → Action Tables (Contact × Bool)
unfolding get put
get_or_create_contact id now tenant_id phone email name =
    on_index (get (phone_key tenant_id phone))
    >>= or_create (phone_key tenant_id phone) (new_contact id now tenant_id phone email name)

abbrev pub of_tenant : String → Option Contact → Action Tables Contact
of_tenant tenant_id none = throw not_found
of_tenant tenant_id (some c) = if c.tenant_id == tenant_id then pure c else throw not_found

-- `GetContact`
unfoldable pub get_contact : String → String → Action Tables Contact
unfolding get
get_contact tenant_id contact_id = on_contacts (get contact_id) >>= of_tenant tenant_id

abbrev pub merged : String → ℕ → Contact → Contact
merged primary_id now c = record c { merged_into = some primary_id; updated_at = now }

-- `MergeContacts`, with the id of the audit row and the time.
unfoldable pub merge_contacts :
    String → ℕ → String → String → String → String → Action Tables (Unit {0})
unfolding get_contact put delete
merge_contacts id now tenant_id primary_id duplicate_id actor_id =
    get_contact tenant_id duplicate_id >>= λ dup.
    on_contacts (put duplicate_id (merged primary_id now dup))
    >> on_index (delete (phone_key tenant_id dup.phone_e164))
    >> on_audit (
        put id (record {
          id = id;
          tenant_id = tenant_id;
          primary_id = primary_id;
          duplicate_id = duplicate_id;
          actor_id = actor_id;
          merged_at = now;
        }))
