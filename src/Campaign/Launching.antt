-- ===== src/Campaign/Launching.antt =====
-- internal/campaign/service.go: what a launch makes of a campaign.
use lead.Prelude.{
  ℕ, ◌≡◌, refl, ◌⊎◌, String, Bool, true, false, ◌||◌, none, some, arith, lookup, insert,
  lookup-insert, string_beq_refl, string_eq, ok, err, rejected,
}
use lead.Campaign.Store.{
  active, preflight_failed, no_reason, preflight_reason, Campaign, Fake, update_campaign_status,
  update_campaign_pinned_versions,
}
use lead.Campaign.Preflight.{preflight, passed, Ready}
use lead.Campaign.Service.{launch}

abbrev pub launched : ℕ → Campaign → Campaign
launched now c = record c { status = active; pause_reason = no_reason; updated_at = now }

abbrev pub pinned : ℕ → Campaign → Campaign
pinned now c = record c { updated_at = now }

abbrev pub refused : ℕ → Campaign → Campaign
refused now c = record c {
  status = preflight_failed;
  pause_reason = preflight_reason;
  updated_at = now;
}

-- A launch that passes the checks writes the campaign twice: pinned, and active.
pub launch_activates :
    (disabled : Bool) (id : String) (f : Fake) {c : Campaign}
    → lookup id f.campaigns ≡ some c
    → (passed (preflight c f) || disabled) ≡ true
    → launch disabled id f ≡ (
      ok tt,
      record f {
        campaigns = insert id (launched f.now c) (insert id (pinned f.now c) f.campaigns);
      },
    )
unfolding launch update_campaign_pinned_versions update_campaign_status
launch_activates disabled id f {c} e go =
    let p = pinned f.now c in
    let again : lookup id (insert id p f.campaigns) ≡ some p =
      ground (arith, lookup-insert id id p f.campaigns, string_beq_refl id) in
    rw e (rw go (rw e (rw again refl)))

pub launch_refuses :
    (disabled : Bool) (id : String) (f : Fake) {c : Campaign}
    → lookup id f.campaigns ≡ some c
    → (passed (preflight c f) || disabled) ≡ false
    → launch disabled id f
      ≡ (err rejected, (update_campaign_status id preflight_failed preflight_reason f).1)
unfolding launch update_campaign_status
launch_refuses disabled id f {c} e stop = rw e (rw stop (rw e refl))

pub launch_missing :
    (disabled : Bool) (id : String) (f : Fake)
    → lookup id f.campaigns ≡ none
    → (launch disabled id f).1 ≡ f
unfolding launch
launch_missing disabled id f e = rw e refl

-- What the stored campaign is after a launch.
abbrev pub AfterLaunch : Bool → Fake → Campaign → Campaign → Type 0
AfterLaunch disabled f c c' =
    ((c' ≡ launched f.now c) × ((disabled ≡ true) ⊎ Ready f c))
    ⊎ ((c' ≡ refused f.now c) × (disabled ≡ false) × ¬ (Ready f c))
