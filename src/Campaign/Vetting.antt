-- ===== src/Campaign/Vetting.antt =====
-- internal/campaign/service.go: which campaigns become active.
use lead.Prelude.{
  ℕ, refl, ◌≢◌, ◌⊎◌, inl, inr, String, false, ◌||◌, List, [], ◌∷◌, arith, lookup, insert, values,
  if◌then◌else◌, ◌==◌, string_eq, Result, ok, err, All, All-insert, All-lookup, Bool-cases,
  Option-cases,
}
use lead.Campaign.Store.{
  Status, draft, active, paused, archived, preflight_failed, Reason, no_reason, preflight_reason,
  Campaign, Limits, Fake, get_campaign, create_campaign, update_campaign_status, get_limits,
  get_latest_health, attach_leads, set_limits,
}
use lead.Campaign.Preflight.{preflight, passed, Ready, preflight-Ready}
use lead.Campaign.Launching.{launched, pinned, launch_activates, launch_refuses, launch_missing}
use lead.Campaign.Autopausing.{inactive}
use lead.Campaign.Service.{
  is_named, create, attach, launch, pause, archive, set_campaign_limits, breach, pause_for,
  evaluate_found, evaluate_auto_pause, status_beq,
}

-- The operations of the service, except for `ResumeCampaign`, with the checks enabled, and the passing
-- of time between them.
pub data Op : Type 0 where
  creates : String → Campaign → Op
  attaches : String → List String → Op
  launches : String → Op
  pauses : String → String → Op
  archives : String → Op
  limits_to : Limits → Op
  evaluates : String → Op
  waits_until : ℕ → Op

unfoldable pub apply : Op → Fake → Fake
apply (creates fresh_id c) f = (create fresh_id c f).1
apply (attaches id lead_ids) f = (attach id lead_ids f).1
apply (launches id) f = (launch false id f).1
apply (pauses id reason) f = (pause id reason f).1
apply (archives id) f = (archive id f).1
apply (limits_to l) f = (set_campaign_limits l f).1
apply (evaluates id) f = (evaluate_auto_pause id f).1
apply (waits_until now) f = record f { now = now }

unfoldable pub apply_all : List Op → Fake → Fake
unfolding apply
apply_all [] f = f
apply_all (op ∷ ops) f = apply_all ops (apply op f)

-- An active campaign meets the requirements of a launch.
abbrev pub Vetted : Fake → Campaign → Type 0
Vetted f c = (c.status ≢ active) ⊎ Ready f c

abbrev pub IsVetted : Fake → Type 0
IsVetted f = All (Vetted f) (values f.campaigns)

-- A status other than active needs no check.
update_campaign_status-IsVetted :
    (id : String) (status : Status) (reason : Reason) (f : Fake)
    → status ≢ active
    → IsVetted f
    → IsVetted (update_campaign_status id status reason f).1
unfolding update_campaign_status
update_campaign_status-IsVetted id status reason f other h =
    elim (Option-cases (lookup id f.campaigns)) [
      | inl e ↦ rw e h
      | inr (c, e) ↦ rw e (
          All-insert (Vetted f) id
            (record c { status = status; pause_reason = reason; updated_at = f.now }) f.campaigns
            (inl other) h)
    ]

launch-IsVetted : (id : String) (f : Fake) → IsVetted f → IsVetted (launch false id f).1
launch-IsVetted id f h = elim (Option-cases (lookup id f.campaigns)) [
  | inl e ↦ rw (launch_missing false id f e) h
  | inr (c, e) ↦ elim (Bool-cases (passed (preflight c f) || false)) [
    | inl go ↦ rw (launch_activates false id f {c = c} e go) (
        All-insert (Vetted f) id (launched f.now c) (insert id (pinned f.now c) f.campaigns)
          (inr ((preflight-Ready c f).0 (ground (arith, go))))
          (All-insert (Vetted f) id (pinned f.now c) f.campaigns
            (All-lookup (Vetted f) id {v = c} f.campaigns h e) h))
    | inr stop ↦ rw (launch_refuses false id f {c = c} e stop) (
        update_campaign_status-IsVetted id preflight_failed preflight_reason f
          (inactive preflight_failed refl) h)
  ]
]

create-IsVetted :
    (fresh_id : String) (c : Campaign) (f : Fake) → IsVetted f → IsVetted (create fresh_id c f).1
unfolding create create_campaign
create-IsVetted fresh_id c f h =
    let id = if c.id == "" then fresh_id else c.id in
    elim (Bool-cases (is_named c)) [
      | inl e ↦ rw e (
          All-insert (Vetted f) id
            (record c { status = draft; id = id; created_at = f.now; updated_at = f.now })
            f.campaigns (inl (inactive draft refl)) h)
      | inr e ↦ rw e h
    ]

pause_for-IsVetted :
    (id : String) (reason : Reason) (f : Fake) → IsVetted f → IsVetted (pause_for id reason f).1
pause_for-IsVetted id no_reason f h = h
pause_for-IsVetted id reason f h =
    update_campaign_status-IsVetted id paused reason f (inactive paused refl) h

evaluate_found-IsVetted :
    (id : String) (r : Result Campaign) (f : Fake) → IsVetted f → IsVetted (evaluate_found id r f).1
evaluate_found-IsVetted id (err e) f h = h
evaluate_found-IsVetted id (ok c) f h = elim (Bool-cases (status_beq c.status active)) [
  | inl e ↦ rw e (pause_for-IsVetted id (breach (get_limits id f) (get_latest_health id f)) f h)
  | inr e ↦ rw e h
]

set_campaign_limits-IsVetted :
    (l : Limits) (f : Fake) → IsVetted f → IsVetted (set_campaign_limits l f).1
unfolding set_campaign_limits set_limits
set_campaign_limits-IsVetted l f h = elim (Bool-cases (l.campaign_id == "")) [
  | inl e ↦ rw e h
  | inr e ↦ rw e h
]

apply-IsVetted : (op : Op) (f : Fake) → IsVetted f → IsVetted (apply op f)
unfolding apply attach attach_leads pause archive evaluate_auto_pause
apply-IsVetted (creates fresh_id c) f h = create-IsVetted fresh_id c f h
apply-IsVetted (attaches id []) f h = h
apply-IsVetted (attaches id (lead_id ∷ lead_ids)) f h = h
apply-IsVetted (launches id) f h = launch-IsVetted id f h
apply-IsVetted (pauses id reason) f h =
    update_campaign_status-IsVetted id paused _ f (inactive paused refl) h
apply-IsVetted (archives id) f h =
    update_campaign_status-IsVetted id archived no_reason f (inactive archived refl) h
apply-IsVetted (limits_to l) f h = set_campaign_limits-IsVetted l f h
apply-IsVetted (evaluates id) f h = evaluate_found-IsVetted id (get_campaign id f) f h
apply-IsVetted (waits_until now) f h = h

-- Whatever operations other than a resume run, in any order and with the checks enabled, every
-- active campaign meets the requirements of a launch if that held at the start.
pub apply_all-IsVetted : (ops : List Op) (f : Fake) → IsVetted f → IsVetted (apply_all ops f)
unfolding apply_all
apply_all-IsVetted [] f h = h
apply_all-IsVetted (op ∷ ops) f h = apply_all-IsVetted ops (apply op f) (apply-IsVetted op f h)
