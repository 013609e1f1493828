-- ===== src/Campaign/Store.antt =====
-- internal/model/model.go and internal/store/fake.go: campaigns and what is known of their knowledge
-- bases, tenants, scripts and health. Amounts are in hundredths, rates in parts of ten thousand. Of limits,
-- health, leads, scripts and knowledge bases only what the operations read is kept.
use lead.Prelude.{
  ℕ, String, ◌^^◌, Bool, true, false, Option, none, some, List, [], ◌∷◌, ◌++◌, ℤ, pos, Dict, lookup,
  insert, Result, ok, err, not_found, if◌then◌else◌, ◌==◌, string_eq,
}

pub data Status : Type 0 where
  draft active paused archived preflight_failed : Status

-- Why a campaign stands as it does.
pub data Reason : Type 0 where
  no_reason : Reason
  manual : String → Reason
  preflight_reason : Reason
  cost_cap_reached : Reason
  suppression_rate_exceeded : Reason

pub record ObjectionResponse : Type 0 where
  pub objection : String
  pub response : String

pub record CampaignContext : Type 0 where
  pub product_description : String
  pub offer : String
  pub talking_points : List String
  pub objection_handling : List ObjectionResponse
  pub qualifying_questions : List String
  pub persona : String
  pub do_not_say : List String
  pub goal : String
  pub language : String
  pub business_hours : String

pub record Campaign : Type 0 where
  pub id : String
  pub name : String
  pub project_id : String
  pub tenant_id : String
  pub kb_version_id : String
  pub script_version_id : String
  pub prompt_version_id : String
  pub source_filter : String
  pub schedule : String
  pub status : Status
  pub pause_reason : Reason
  pub context : CampaignContext
  pub created_at : ℕ
  pub updated_at : ℕ

pub record Limits : Type 0 where
  pub campaign_id : String
  pub cost_cap_inr : ℤ

pub record HealthSnapshot : Type 0 where
  pub cost_burn_inr : ℤ
  pub suppression_hit_rate : ℕ

pub record KbVersion : Type 0 where
  pub status : String
  pub project_type : String
  pub has_rera : Bool
  pub has_brochure : Bool
  pub has_price_sheet : Bool

pub record TenantStatus : Type 0 where
  pub suspended : Bool
  pub billing_cap_inr : ℤ
  pub used_inr : ℤ

-- The store, with what `time.Now()` reads while an operation runs. Of a script and of a prompt only
-- their presence is read.
pub record Fake : Type 0 where
  pub now : ℕ
  pub campaigns : Dict Campaign
  pub leads : Dict (List String)
  pub limits : Dict Limits
  pub health_snapshots : Dict (List HealthSnapshot)
  pub scripts : Dict (Unit {0})
  pub prompts : Dict (Unit {0})
  pub kb_versions : Dict KbVersion
  pub tenants : Dict TenantStatus

abbrev pub or_not_found {ℓ} : {A : Type ℓ} → Option A → Result A
or_not_found none = err not_found
or_not_found (some a) = ok a

abbrev pub get_campaign : String → Fake → Result Campaign
get_campaign id f = or_not_found (lookup id f.campaigns)

unfoldable pub create_campaign : String → Campaign → Fake → Fake
create_campaign fresh_id c f =
    let id = if c.id == "" then fresh_id else c.id in
    record f {
      campaigns =
          insert id (record c { id = id; created_at = f.now; updated_at = f.now }) f.campaigns;
    }

abbrev pub change_found :
    String → (Campaign → Campaign) → Option Campaign → Fake → Result (Unit {0}) × Fake
change_found id g none f = (err not_found, f)
change_found id g (some c) f = (ok tt, record f { campaigns = insert id (g c) f.campaigns })

-- A change of a stored campaign, or an error if there is none.
abbrev pub change : String → (Campaign → Campaign) → Fake → Result (Unit {0}) × Fake
change id g f = change_found id g (lookup id f.campaigns) f

unfoldable pub update_campaign_status : String → Status → Reason → Fake → Result (Unit {0}) × Fake
update_campaign_status id status reason f =
    change id (λ c. record c { status = status; pause_reason = reason; updated_at = f.now }) f

unfoldable pub update_campaign_pinned_versions :
    String → String → String → Fake → Result (Unit {0}) × Fake
update_campaign_pinned_versions id script_id prompt_id f =
    change id
      (λ c. record c {
        script_version_id = script_id;
        prompt_version_id = prompt_id;
        updated_at = f.now;
      })
      f

abbrev pub leads_of : Option (List String) → List String
leads_of none = []
leads_of (some ids) = ids

unfoldable pub attach_leads : String → List String → Fake → Fake
attach_leads id lead_ids f = record f {
  leads = insert id (leads_of (lookup id f.leads) ++ lead_ids) f.leads;
}

unfoldable pub set_limits : Limits → Fake → Fake
set_limits l f = record f { limits = insert l.campaign_id l f.limits }

abbrev pub limits_of : String → Option Limits → Limits
limits_of id none = record { campaign_id = id; cost_cap_inr = pos 0 }
limits_of id (some l) = l

-- `GetLimits`: no caps where none are set.
abbrev pub get_limits : String → Fake → Limits
get_limits id f = limits_of id (lookup id f.limits)

abbrev pub last_of : HealthSnapshot → List HealthSnapshot → HealthSnapshot
last_of s [] = s
last_of s (t ∷ ts) = last_of t ts

abbrev pub no_health : HealthSnapshot
no_health = record { cost_burn_inr = pos 0; suppression_hit_rate = 0 }

abbrev pub health_of : Option (List HealthSnapshot) → HealthSnapshot
health_of none = no_health
health_of (some snaps) = last_of no_health snaps

-- `GetLatestHealth`
abbrev pub get_latest_health : String → Fake → HealthSnapshot
get_latest_health id f = health_of (lookup id f.health_snapshots)

abbrev pub is_there {ℓ} : {A : Type ℓ} → Option A → Bool
is_there none = false
is_there (some a) = true

-- Whether `GetScript` and `GetPromptVersion` find a version.
abbrev pub has_script : String → String → Fake → Bool
has_script id version f = is_there (lookup (id ^^ (":" ^^ version)) f.scripts)

abbrev pub has_prompt : String → String → Fake → Bool
has_prompt id version f = is_there (lookup (id ^^ (":" ^^ version)) f.prompts)

abbrev pub tenant_or_default : Option TenantStatus → TenantStatus
tenant_or_default none = record {
  suspended = false;
  billing_cap_inr = pos 10000000;
  used_inr = pos 0;
}
tenant_or_default (some t) = t

-- `GetTenantStatus`
abbrev pub get_tenant_status : String → Fake → TenantStatus
get_tenant_status id f = tenant_or_default (lookup id f.tenants)
