-- ===== src/Campaign/Tests.antt =====
-- Runs of the campaign service at concrete inputs.
use lead.Prelude.{◌≡◌, refl, ◌↔◌, true, false, [], ◌∷◌, pos, lookup, insert, some, ◌^^◌, inl}
use lead.Campaign.Store.{
  Campaign, CampaignContext, Status, draft, active, no_reason, Fake, update_campaign_status,
}
use lead.Campaign.Preflight.{preflight, passed, Ready, preflight-Ready}
use lead.Campaign.Service.{resume}
use lead.Campaign.Autopausing.{inactive}
use lead.Campaign.Vetting.{
  launches, waits_until, pauses, evaluates, apply_all, IsVetted, apply_all-IsVetted,
}

abbrev no_context : CampaignContext
no_context = record {
  product_description = "";
  offer = "";
  talking_points = [];
  objection_handling = [];
  qualifying_questions = [];
  persona = "";
  do_not_say = [];
  goal = "";
  language = "en";
  business_hours = "";
}

abbrev campaign : Status → Campaign
campaign status = record {
  id = "c";
  name = "spring";
  project_id = "p";
  tenant_id = "t";
  kb_version_id = "k";
  script_version_id = "1";
  prompt_version_id = "1";
  source_filter = "web";
  schedule = "10-19";
  status = status;
  pause_reason = no_reason;
  context = no_context;
  created_at = 1;
  updated_at = 1;
}

-- One campaign that is ready for a launch.
abbrev ready : Status → Fake
ready status = record {
  now = 2;
  campaigns = ("c", campaign status) ∷ [];
  leads = [];
  limits = ("c", record { campaign_id = "c"; cost_cap_inr = pos 1000 }) ∷ [];
  health_snapshots = ("c", record { cost_burn_inr = pos 1000; suppression_hit_rate = 0 } ∷ []) ∷ [];
  scripts = ("c" ^^ (":" ^^ "1"), tt) ∷ [];
  prompts = ("c" ^^ (":" ^^ "1"), tt) ∷ [];
  kb_versions =
      (
        "k",
        record {
          status = "approved";
          project_type = "saas";
          has_rera = false;
          has_brochure = false;
          has_price_sheet = false;
        },
      )
      ∷ [];
  tenants = [];
}

preflight-Ready_example :
    (passed (preflight (campaign draft) (ready draft)) ≡ true)
    ↔ Ready (ready draft) (campaign draft)
preflight-Ready_example = preflight-Ready (campaign draft) (ready draft)

apply_all-IsVetted_example :
    IsVetted
      (apply_all (launches "c" ∷ waits_until 9 ∷ evaluates "c" ∷ pauses "c" "" ∷ []) (ready draft))
apply_all-IsVetted_example =
    apply_all-IsVetted (launches "c" ∷ waits_until 9 ∷ evaluates "c" ∷ pauses "c" "" ∷ [])
      (ready draft) (inl (inactive draft refl), tt)

-- A draft that was never checked is active after a resume.
resume_unchecked :
    lookup "c" (resume "c" (ready draft)).1.campaigns
    ≡ some (record (campaign active) { updated_at = 2 })
unfolding resume update_campaign_status lookup insert
resume_unchecked = refl
