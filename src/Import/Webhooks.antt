-- ===== src/Import/Webhooks.antt =====
-- internal/service/service.go: the webhooks of Facebook and Google.
use lead.Prelude.{
  ℕ, String, Bool, false, ◌&&◌, Option, none, some, List, [], ◌∷◌, ◌^^◌, Dict, insert, Result, ok,
  err, if◌then◌else◌, ◌==◌, string_eq,
}
use lead.Identity.Phone.{PhoneNumbers}
use lead.Import.Store.{Contact}
use lead.Import.Parser.{text_at}
use lead.Import.Durable.{Tables, create_lead, check_and_set_idempotency_key}
use lead.Import.Service.{
  Reply, bad_request, forbidden, challenge, accepted, duplicate, new_lead,
  upsert_contact_from_fields,
}

-- `exists, _ := CheckAndSetIdempotencyKey(…)`: a key that cannot be read counts as new.
abbrev pub is_known : Result Bool → Bool
is_known (ok b) = b
is_known (err e) = false

-- `handleFBWebhook` for GET, with the mode, the token, the challenge and the expected token.
unfoldable pub handle_fb_challenge : String → String → String → String → Reply
handle_fb_challenge mode token text expected =
    if mode == "subscribe" && token == expected then challenge text else forbidden

abbrev pub on_fb_key : Result Bool × Tables → Reply × Tables
on_fb_key (r, q) = if is_known r then (duplicate, q) else (accepted, q)

-- `handleFBWebhook` for POST: the payload's `leadgen_id` as `%v` prints it, or `none` for a body that
-- cannot be read or does not decode.
unfoldable pub handle_fb_webhook : String → Option String → Tables → Reply × Tables
handle_fb_webhook tenant_id none q = (bad_request, q)
handle_fb_webhook tenant_id (some leadgen_id) q =
    if tenant_id == ""
    then (bad_request, q)
    else on_fb_key (check_and_set_idempotency_key ("fb:" ^^ (tenant_id ^^ (":" ^^ leadgen_id))) q)

-- A payload's lead id, and its columns with their values.
pub record GooglePayload : Type 0 where
  pub lead_id : String
  pub user_column_data : List (String × String)

unfoldable pub columns : List (String × String) → Dict String → Dict String
unfolding insert
columns [] fields = fields
columns ((column_id, v) ∷ cs) fields = columns cs (insert column_id v fields)

abbrev pub google_fields : Dict String → Dict String
google_fields fields =
    ("phone", text_at "PHONE_NUMBER" fields)
    ∷ ("email", text_at "EMAIL" fields)
    ∷ ("name", text_at "FULL_NAME" fields)
    ∷ []

abbrev pub google_key : String → GooglePayload → String
google_key tenant_id b = "google:" ^^ (tenant_id ^^ (":" ^^ b.lead_id))

module _ {Number : Type 0} (p : PhoneNumbers Number) (contact_id lead_id : String) (now : ℕ) where
  -- An error on the way to the lead is ignored.
  abbrev pub store_google_lead : String → Result Contact × Tables → Tables
  store_google_lead tenant_id (err e, q) = q
  store_google_lead tenant_id (ok c, q) = (create_lead lead_id now (new_lead tenant_id "" c) q).1

  unfoldable pub take_google_lead : String → Dict String → Tables → Tables
  unfolding text_at
  take_google_lead tenant_id fields q =
      if text_at "PHONE_NUMBER" fields == ""
      then q
      else store_google_lead tenant_id
          (upsert_contact_from_fields p contact_id now tenant_id (google_fields fields) q)

  abbrev pub on_google_key : String → GooglePayload → Result Bool × Tables → Reply × Tables
  on_google_key tenant_id b (r, q) =
      if is_known r
      then (duplicate, q)
      else (accepted, take_google_lead tenant_id (columns b.user_column_data []) q)

  -- `handleGoogleWebhook`
  unfoldable pub handle_google_webhook : String → Option GooglePayload → Tables → Reply × Tables
  unfolding columns
  handle_google_webhook tenant_id none q = (bad_request, q)
  handle_google_webhook tenant_id (some b) q =
      if tenant_id == ""
      then (bad_request, q)
      else on_google_key tenant_id b (check_and_set_idempotency_key (google_key tenant_id b) q)
