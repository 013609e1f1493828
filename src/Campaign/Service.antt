-- ===== src/Campaign/Service.antt =====
-- internal/campaign/service.go and internal/autopause/autopause.go: the operations on a campaign.
use lead.Prelude.{
  String, Bool, true, false, ◌&&◌, ◌||◌, List, [], ◌∷◌, pos, ltb, ltb_ℤ, leb_ℤ, if◌then◌else◌, ◌==◌,
  string_eq, Result, ok, err, rejected,
}
use lead.Campaign.Store.{
  Status, draft, active, paused, archived, preflight_failed, Reason, no_reason, manual,
  preflight_reason, cost_cap_reached, suppression_rate_exceeded, Campaign, Limits, HealthSnapshot,
  Fake, get_campaign, create_campaign, update_campaign_status, update_campaign_pinned_versions,
  attach_leads, set_limits, get_limits, get_latest_health,
}
use lead.Campaign.Preflight.{preflight, passed}

abbrev pub status_beq : Status → Status → Bool
status_beq draft draft = true
status_beq active active = true
status_beq paused paused = true
status_beq archived archived = true
status_beq preflight_failed preflight_failed = true
status_beq _ _ = false

abbrev pub is_named : Campaign → Bool
is_named c =
    if c.name == ""
    then false
    else (if c.project_id == "" then false else (if c.kb_version_id == "" then false else true))

-- `CreateCampaign`: whatever its status was, the new campaign is a draft.
unfoldable pub create : String → Campaign → Fake → Result (Unit {0}) × Fake
create fresh_id c f =
    if is_named c
    then (ok tt, create_campaign fresh_id (record c { status = draft }) f)
    else (err rejected, f)

unfoldable pub attach : String → List String → Fake → Result (Unit {0}) × Fake
attach id [] f = (err rejected, f)
attach id (lead_id ∷ lead_ids) f = (ok tt, attach_leads id (lead_id ∷ lead_ids) f)

abbrev pub then_fail : Result (Unit {0}) × Fake → Result (Unit {0}) × Fake
then_fail (ok u, f) = (err rejected, f)
then_fail (err e, f) = (err e, f)

abbrev pub then_activate : String → Result (Unit {0}) × Fake → Result (Unit {0}) × Fake
then_activate id (ok u, f) = update_campaign_status id active no_reason f
then_activate id (err e, f) = (err e, f)

abbrev pub launch_found : Bool → String → Result Campaign → Fake → Result (Unit {0}) × Fake
launch_found disabled id (err e) f = (err e, f)
launch_found disabled id (ok c) f =
    if passed (preflight c f) || disabled
    then then_activate id
        (update_campaign_pinned_versions id c.script_version_id c.prompt_version_id f)
    else then_fail (update_campaign_status id preflight_failed preflight_reason f)

-- `LaunchCampaign`. `disabled` is `CAMPAIGN_PREFLIGHT_DISABLED=1`.
unfoldable pub launch : Bool → String → Fake → Result (Unit {0}) × Fake
launch disabled id f = launch_found disabled id (get_campaign id f) f

unfoldable pub pause : String → String → Fake → Result (Unit {0}) × Fake
pause id reason f =
    update_campaign_status id paused (manual (if reason == "" then "manually paused" else reason)) f

unfoldable pub resume : String → Fake → Result (Unit {0}) × Fake
resume id f = update_campaign_status id active no_reason f

unfoldable pub archive : String → Fake → Result (Unit {0}) × Fake
archive id f = update_campaign_status id archived no_reason f

unfoldable pub set_campaign_limits : Limits → Fake → Result (Unit {0}) × Fake
set_campaign_limits l f = if l.campaign_id == "" then (err rejected, f) else (ok tt, set_limits l f)

-- The reason that the latest health gives for a pause; a rate of 30% is 3000.
unfoldable pub breach : Limits → HealthSnapshot → Reason
breach l h =
    if ltb_ℤ (pos 0) l.cost_cap_inr && leb_ℤ l.cost_cap_inr h.cost_burn_inr
    then cost_cap_reached
    else (if ltb 3000 h.suppression_hit_rate then suppression_rate_exceeded else no_reason)

abbrev pub pause_for : String → Reason → Fake → Result (Unit {0}) × Fake
pause_for id no_reason f = (ok tt, f)
pause_for id reason f = update_campaign_status id paused reason f

abbrev pub evaluate_found : String → Result Campaign → Fake → Result (Unit {0}) × Fake
evaluate_found id (err e) f = (err e, f)
evaluate_found id (ok c) f =
    if status_beq c.status active
    then pause_for id (breach (get_limits id f) (get_latest_health id f)) f
    else (ok tt, f)

-- `Evaluator.EvaluateAndPause`
unfoldable pub evaluate_auto_pause : String → Fake → Result (Unit {0}) × Fake
unfolding breach
evaluate_auto_pause id f = evaluate_found id (get_campaign id f) f
