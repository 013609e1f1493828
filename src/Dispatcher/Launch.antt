-- ===== src/Dispatcher/Launch.antt =====
-- dispatcher.go, `onCampaignLaunched` and the requests that it makes: the rows of a campaign are
-- built from the campaign, its limits and its leads, and seeded.
pub mod Limits
pub mod Rows
use lead.Prelude.{
  ℕ, zero, suc, ◌+◌, ◌-◌, ◌*◌, ◌/◌, ◌%◌, ◌&&◌, ltb, ◌≡◌, String, Bool, true, false, ◌||◌, Option,
  none, some, List, [], ◌∷◌, arith, Dict, insert, ℤ, pos, negsuc, if◌then◌else◌, ◌==◌, nat_eq,
  string_eq, Result, ok, err, Error, backend, rejected, malformed, not_found, keep,
}
use lead.Pgkv.{Action}
use lead.Dispatcher.Row.{Value, num, str, DialRow, pending}
use lead.Dispatcher.Queue.{DialQueueStore}

-- The answer to a GET: an error of the transport, or a status and the decoded body.
pub data Fetched (A : Type 0) : Type 0 where
  unreachable : Fetched A
  answer : ℕ → Option A → Fetched A

pub record CampaignResponse : Type 0 where
  pub tenant_id : String
  pub project_id : String
  pub kb_version_id : String
  pub context : Dict Value  -- already in the form of `campaignContextToMap`

pub record CampaignLimits : Type 0 where
  pub max_call_seconds : ℤ
  pub hourly_call_cap : ℤ
  pub daily_call_cap : ℤ
  pub cost_cap_inr : ℤ  -- in hundredths
  pub retry_max : ℤ
  pub retry_busy_min : ℤ
  pub retry_no_answer_min : ℤ
  pub call_window_start_hour : ℤ
  pub call_window_end_hour : ℤ
  pub timezone : String

-- The three places of the answer in which the phone may stand, empty where the field is absent.
pub record LeadResponse : Type 0 where
  pub lead_phone : String
  pub lead_contact_phone : String
  pub contact_phone : String

-- The other services, as they answer while one launch is handled.
pub record Services : Type 0 where
  pub campaign : String → Fetched CampaignResponse
  pub limits : String → Fetched CampaignLimits
  pub leads : String → Fetched (List String)
  pub lead : String → String → Fetched LeadResponse

-- `campaignLimitsResponse{MaxCallSeconds: 300}`
abbrev pub default_limits : CampaignLimits
default_limits = record {
  max_call_seconds = pos 300;
  hourly_call_cap = pos 0;
  daily_call_cap = pos 0;
  cost_cap_inr = pos 0;
  retry_max = pos 0;
  retry_busy_min = pos 0;
  retry_no_answer_min = pos 0;
  call_window_start_hour = pos 0;
  call_window_end_hour = pos 0;
  timezone = "";
}

abbrev pub decoded {ℓ} : {A : Type ℓ} → Option A → Result A
decoded none = err malformed
decoded (some a) = ok a

unfoldable pub fetch_campaign : Fetched CampaignResponse → Result CampaignResponse
fetch_campaign unreachable = err backend
fetch_campaign (answer status body) = if status == 200 then decoded body else err rejected

-- Limits are optional: only an error of the transport is one.
unfoldable pub fetch_limits : Fetched CampaignLimits → Result CampaignLimits
fetch_limits unreachable = err backend
fetch_limits (answer status none) = ok default_limits
fetch_limits (answer status (some l)) = if status == 200 then ok l else ok default_limits

abbrev pub is_filled : String → Bool
is_filled s = if s == "" then false else true

abbrev pub decoded_leads : Option (List String) → Result (List String)
decoded_leads none = err malformed
decoded_leads (some ids) = ok (keep is_filled ids)

unfoldable pub fetch_campaign_leads : Fetched (List String) → Result (List String)
fetch_campaign_leads unreachable = err backend
fetch_campaign_leads (answer status body) =
    if status == 200 then decoded_leads body else err rejected

abbrev pub first_phone : LeadResponse → String
first_phone out =
    if is_filled out.lead_phone
    then out.lead_phone
    else (if is_filled out.lead_contact_phone then out.lead_contact_phone else out.contact_phone)

abbrev pub phone_of : Option LeadResponse → Result String
phone_of none = err malformed
phone_of (some out) = if is_filled (first_phone out) then ok (first_phone out) else err not_found

unfoldable pub resolve_phone : Fetched LeadResponse → Result String
resolve_phone unreachable = err backend
resolve_phone (answer status body) = if status == 200 then phone_of body else err rejected

-- The multiple of a unit that is nearest to a number, and of two that are equally near the even one.
abbrev pub nearest : ℕ → ℕ → ℕ
nearest unit n =
    let q = n / unit in
    let r = n % unit in
    if ltb (2 * r) unit || (2 * r == unit && q % 2 == 0) then q * unit else (q + 1) * unit

-- `float64(n)`: 53 bits stay, the first unit at which they are enough is taken. Eleven units do for
-- every int of 64 bits.
unfoldable pub rounded : ℕ → ℕ → ℕ → ℕ
rounded zero unit n = nearest unit n
rounded (suc units) unit n =
    let rest = rounded units (2 * unit) n in
    if ltb n (9007199254740992 * unit) then nearest unit n else rest

-- `float64(n)`, in hundredths.
unfoldable pub float_of : ℤ → ℤ
unfolding rounded
float_of (pos n) = pos (rounded 11 1 n * 100)
float_of (negsuc n) = negsuc (rounded 11 1 (suc n) * 100 - 1)

-- The map that the rows of a launch carry.
unfoldable pub campaign_ctx_map : Dict Value → CampaignLimits → Dict Value
unfolding float_of
campaign_ctx_map context l = insert "_timezone" (str l.timezone) (
    insert "_call_window_end_hour" (num (float_of l.call_window_end_hour)) (
      insert "_call_window_start_hour" (num (float_of l.call_window_start_hour)) (
        insert "_retry_no_answer_min" (num (float_of l.retry_no_answer_min)) (
          insert "_retry_busy_min" (num (float_of l.retry_busy_min)) (
            insert "_retry_max" (num (float_of l.retry_max)) (
              insert "_cost_cap_inr" (num l.cost_cap_inr) (
                insert "_daily_call_cap" (num (float_of l.daily_call_cap))
                  (insert "_hourly_call_cap" (num (float_of l.hourly_call_cap)) context))))))))

module _ (services : Services) (campaign_id : String) (now : ℕ) where
  unfoldable pub new_row : String → CampaignResponse → Dict Value → String → String → DialRow
  new_row row_id c ctx lead_id phone = record {
    id = row_id;
    campaign_id = campaign_id;
    tenant_id = c.tenant_id;
    lead_id = lead_id;
    phone = phone;
    project_id = c.project_id;
    kb_version_id = c.kb_version_id;
    attempts = 0;
    status = pending;
    next_attempt_at = now;
    disposition = "";
    provider_call_id = "";
    campaign_ctx = some ctx;
  }

  -- A lead whose phone cannot be resolved is skipped. `uuid` stands for the random ids, by lead.
  add_row :
      (String → String)
      → CampaignResponse
      → Dict Value
      → String
      → Result String
      → List DialRow
      → List DialRow
  unfolding new_row
  add_row uuid c ctx lead_id (ok phone) rows = new_row (uuid lead_id) c ctx lead_id phone ∷ rows
  add_row uuid c ctx lead_id (err e) rows = rows

  pub build_rows : (String → String) → CampaignResponse → Dict Value → List String → List DialRow
  unfolding add_row resolve_phone
  build_rows uuid c ctx [] = []
  build_rows uuid c ctx (lead_id ∷ ids) =
      add_row uuid c ctx lead_id (resolve_phone (services.lead c.tenant_id lead_id))
        (build_rows uuid c ctx ids)

-- The set of active campaigns, `d.active[id] = true`.
abbrev pub activate : String → List String → List String
activate id [] = id ∷ []
activate id (x ∷ xs) = if x == id then x ∷ xs else x ∷ activate id xs

-- `resumeActive` with the ids that the store returned; an error leaves the set as it is.
unfoldable pub resume_active : Result (List String) → List String → List String
resume_active (err e) active = active
resume_active (ok []) active = active
resume_active (ok (id ∷ ids)) active = resume_active (ok ids) (activate id active)

module _ {Q : Type 0} (store : DialQueueStore Q) (services : Services) (uuid : String → String)
    (campaign_id : String) (now : ℕ) where
  -- The end of a launch: no row means that nothing is seeded and the campaign stays inactive.
  on_seeded : List String → Result (Unit {0}) × Q → Result (Unit {0}) × Q × List String
  on_seeded active (ok u, q) = (ok tt, q, activate campaign_id active)
  on_seeded active (err e, q) = (err e, q, active)

  seed : List DialRow → Q → List String → Result (Unit {0}) × Q × List String
  unfolding on_seeded
  seed [] q active = (ok tt, q, active)
  seed (r ∷ rs) q active = on_seeded active (store.seed_rows (r ∷ rs) q)

  launch_with :
      Result CampaignResponse
      → Result CampaignLimits
      → Result (List String)
      → Q
      → List String
      → Result (Unit {0}) × Q × List String
  unfolding seed build_rows campaign_ctx_map
  launch_with (err e) l ids q active = (err e, q, active)
  launch_with (ok c) (err e) ids q active = (err e, q, active)
  launch_with (ok c) (ok l) (err e) q active = (err e, q, active)
  launch_with (ok c) (ok l) (ok ids) q active =
      seed (build_rows services campaign_id now uuid c (campaign_ctx_map c.context l) ids) q active

  pub on_campaign_launched : Q → List String → Result (Unit {0}) × Q × List String
  unfolding launch_with fetch_campaign fetch_limits fetch_campaign_leads
  on_campaign_launched q active =
      launch_with (fetch_campaign (services.campaign campaign_id))
        (fetch_limits (services.limits campaign_id))
        (fetch_campaign_leads (services.leads campaign_id)) q active
