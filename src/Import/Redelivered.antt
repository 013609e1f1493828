-- ===== src/Import/Redelivered.antt =====
-- internal/service/service.go: a webhook that is sent again.
use lead.Prelude.{
  ◌≡◌, refl, inl, inr, ℕ, String, false, none, some, Option-cases, Bool-cases, Dict, lookup, insert,
  lookup-insert, ◌==◌, string_eq, string_beq_refl, subst, [], Result, ok, err, sym, ◌^^◌,
}
use lead.Pgkv.{Kv, up, insert_new}
use lead.Pgkv.Post.{Post, Post-state}
use lead.Identity.Phone.{PhoneNumbers}
use lead.Import.Store.{Contact}
use lead.Import.Parser.{text_at}
use lead.Import.Durable.{Tables, check_and_set_idempotency_key}
use lead.Import.Durable.Frame.{upsert_contact-frame, create_lead-frame}
use lead.Import.Service.{accepted, duplicate, upsert_phone, upsert_contact_from_fields, new_lead}
use lead.Import.Webhooks.{
  GooglePayload, google_key, google_fields, take_google_lead, store_google_lead,
  handle_google_webhook, columns,
}

module _ (keys : Kv String) where
  abbrev HasKeys : Tables → Type 0
  HasKeys q = q.idempotency_keys ≡ keys

  module _ {Number : Type 0} (p : PhoneNumbers Number) (contact_id lead_id : String) (now : ℕ)
      (tenant_id : String) where
    upsert_phone-HasKeys :
        (fields : Dict String) (r : Result String) (q : Tables)
        → HasKeys q
        → Post (λ c. HasKeys) HasKeys (upsert_phone p contact_id now tenant_id fields r q)
    upsert_phone-HasKeys fields (err e) q h = h
    upsert_phone-HasKeys fields (ok e164) q h =
        upsert_contact-frame HasKeys (λ r s k. k) (λ r s k. k) contact_id now _ q h

    upsert_fields-HasKeys :
        (fields : Dict String) (q : Tables)
        → HasKeys q
        → Post
            (λ c. HasKeys)
            HasKeys
            (upsert_contact_from_fields p contact_id now tenant_id fields q)
    unfolding upsert_contact_from_fields
    upsert_fields-HasKeys fields q h = upsert_phone-HasKeys fields _ q h

    store-HasKeys :
        (x : Result Contact × Tables)
        → Post (λ c. HasKeys) HasKeys x
        → HasKeys (store_google_lead p contact_id lead_id now tenant_id x)
    store-HasKeys (err e, q) h = h
    store-HasKeys (ok c, q) h =
        Post-state HasKeys _
          (create_lead-frame HasKeys (λ r s k. k) lead_id now (new_lead tenant_id "" c) q h)

    -- The lead's own writes leave the keys alone, whatever fails.
    take_google_lead-HasKeys :
        (fields : Dict String) (q : Tables)
        → HasKeys q
        → HasKeys (take_google_lead p contact_id lead_id now tenant_id fields q)
    unfolding take_google_lead
    take_google_lead-HasKeys fields q h = elim (Bool-cases (text_at "PHONE_NUMBER" fields == "")) [
      | inl e ↦ rw e h
      | inr e ↦ rw e (
          store-HasKeys
            (upsert_contact_from_fields p contact_id now tenant_id (google_fields fields) q)
            (upsert_fields-HasKeys (google_fields fields) q h))
    ]

-- The tables with a table of keys that can be reached; the others may fail.
abbrev pub with_keys : Tables → Dict String → Tables
with_keys q ks = record q { idempotency_keys = up ks }

module _ {Number : Type 0} (p : PhoneNumbers Number) (tenant_id : String)
    (named : (tenant_id == "") ≡ false) where
  -- A payload whose key is there changes nothing.
  known_payload :
      (contact_id lead_id : String) (now : ℕ) (b : GooglePayload) (q : Tables) (ks : Dict String)
      (found : String)
      → lookup (google_key tenant_id b) ks ≡ some found
      → handle_google_webhook p contact_id lead_id now tenant_id (some b) (with_keys q ks)
        ≡ (duplicate, with_keys q ks)
  unfolding handle_google_webhook check_and_set_idempotency_key insert_new
  known_payload contact_id lead_id now b q ks found there = rw (named, there) refl

  known_again :
      (contact_id lead_id : String) (now : ℕ) (b b' : GooglePayload)
      → b'.lead_id ≡ b.lead_id
      → (q : Tables) (ks : Dict String) (found : String)
      → lookup (google_key tenant_id b) ks ≡ some found
      → q.idempotency_keys ≡ up ks
      → handle_google_webhook p contact_id lead_id now tenant_id (some b') q ≡ (duplicate, q)
  known_again contact_id lead_id now b b' same q ks found there keys =
      let at : Kv String → Type 0 = λ s.
        handle_google_webhook p contact_id lead_id now tenant_id (some b')
          (record q { idempotency_keys = s })
        ≡ (duplicate, record q { idempotency_keys = s }) in
      subst at (sym keys) (
        known_payload contact_id lead_id now b' q ks found (
          subst (λ i. lookup ("google:" ^^ (tenant_id ^^ (":" ^^ i))) ks ≡ some found) (sym same)
            there))

  -- A payload whose key is new.
  new_payload :
      (contact_id lead_id : String) (now : ℕ) (b : GooglePayload) (q : Tables) (ks : Dict String)
      → lookup (google_key tenant_id b) ks ≡ none
      → handle_google_webhook p contact_id lead_id now tenant_id (some b) (with_keys q ks) ≡ (
        accepted,
        take_google_lead p contact_id lead_id now tenant_id
            (columns b.user_column_data [])
            (with_keys q (insert (google_key tenant_id b) (google_key tenant_id b) ks)),
      )
  unfolding handle_google_webhook check_and_set_idempotency_key insert_new
  new_payload contact_id lead_id now b q ks there = rw (named, there) refl

  -- While the keys can be read and written, a Google payload counts once: after a delivery to a named
  -- tenant, whether or not its contact and its lead could be stored, a later delivery of a payload
  -- with the same lead id is answered as a duplicate and changes nothing.
  pub handle_google_webhook_once :
      (contact_id lead_id contact_id' lead_id' : String) (now now' : ℕ) (b b' : GooglePayload)
      (q : Tables) (ks : Dict String)
      → b'.lead_id ≡ b.lead_id
      → let q' =
          (handle_google_webhook p contact_id lead_id now tenant_id (some b) (with_keys q ks)).1 in
        handle_google_webhook p contact_id' lead_id' now' tenant_id (some b') q' ≡ (duplicate, q')
  handle_google_webhook_once contact_id lead_id contact_id' lead_id' now now' b b' q ks same =
      let key = google_key tenant_id b in
      let again : (r : Tables) (d : Dict String) (found : String)
          → lookup key d ≡ some found
          → r.idempotency_keys ≡ up d
          → handle_google_webhook p contact_id' lead_id' now' tenant_id (some b') r
            ≡ (duplicate, r) =
        λ r d found there keys.
          known_again contact_id' lead_id' now' b b' same r d found there keys in
      elim (Option-cases (lookup key ks)) [
        | inl e ↦ rw (new_payload contact_id lead_id now b q ks e) (
            again _ (insert key key ks) key
              (rw (lookup-insert key key key ks, string_beq_refl key) refl)
              (take_google_lead-HasKeys _ p contact_id lead_id now tenant_id
                (columns b.user_column_data []) _ refl))
        | inr (found, e) ↦
            rw (known_payload contact_id lead_id now b q ks found e) (again _ ks found e refl)
      ]
