-- ===== src/Identity/Service.antt =====
-- internal/service/service.go: the requests over HTTP.
use lead.Prelude.{
  ℕ, String, Bool, ◌||◌, Option, none, some, if◌then◌else◌, ◌==◌, string_eq, Result, ok, err,
}
use lead.Identity.Phone.{PhoneNumbers, normalize}
use lead.Identity.Durable.{Contact, Tables, get_or_create_contact, merge_contacts}

pub data Reply : Type 0 where
  bad_request unprocessable server_error : Reply
  normalized : String → Reply
  resolved : Contact → Bool → Reply
  merged_into : String → Reply

pub record ResolveBody : Type 0 where
  pub tenant_id : String
  pub phone : String
  pub email : String
  pub name : String

pub record MergeBody : Type 0 where
  pub tenant_id : String
  pub primary_id : String
  pub duplicate_id : String
  pub actor_id : String

abbrev pub on_normalized : Result String → Reply
on_normalized (err e) = unprocessable
on_normalized (ok e164) = normalized e164

abbrev pub on_contact : Result (Contact × Bool) × Tables → Reply × Tables
on_contact (err e, q) = (server_error, q)
on_contact (ok (c, created), q) = (resolved c created, q)

abbrev pub on_merge : String → Result (Unit {0}) × Tables → Reply × Tables
on_merge primary_id (err e, q) = (server_error, q)
on_merge primary_id (ok u, q) = (merged_into primary_id, q)

module _ {Number : Type 0} (p : PhoneNumbers Number) where
  -- `handleNormalizePhone`; `none` is a body that does not decode.
  unfoldable pub handle_normalize_phone : Option (String × String) → Reply
  unfolding normalize
  handle_normalize_phone none = bad_request
  handle_normalize_phone (some (phone, country)) =
      if phone == ""
      then bad_request
      else on_normalized (normalize p phone (if country == "" then "IN" else country))

  abbrev pub resolve_phone : String → ℕ → ResolveBody → Result String → Tables → Reply × Tables
  resolve_phone id now b (err e) q = (unprocessable, q)
  resolve_phone id now b (ok e164) q =
      on_contact (get_or_create_contact id now b.tenant_id e164 b.email b.name q)

  -- `handleResolveIdentity`
  unfoldable pub handle_resolve_identity : String → ℕ → Option ResolveBody → Tables → Reply × Tables
  handle_resolve_identity id now none q = (bad_request, q)
  handle_resolve_identity id now (some b) q =
      if b.tenant_id == "" || b.phone == ""
      then (bad_request, q)
      else resolve_phone id now b (normalize p b.phone "IN") q

-- `handleMergeContacts`
unfoldable pub handle_merge_contacts : String → ℕ → Option MergeBody → Tables → Reply × Tables
handle_merge_contacts id now none q = (bad_request, q)
handle_merge_contacts id now (some b) q =
    if b.tenant_id == "" || (b.primary_id == "" || b.duplicate_id == "")
    then (bad_request, q)
    else (if b.primary_id == b.duplicate_id
        then (bad_request, q)
        else on_merge b.primary_id
            (merge_contacts id now b.tenant_id b.primary_id b.duplicate_id b.actor_id q))
