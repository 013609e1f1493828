-- ===== src/Campaign/Autopausing.antt =====
-- internal/autopause/autopause.go: what an evaluation makes of a campaign.
use lead.Prelude.{
  ℕ, ◌≡◌, refl, ◌≢◌, ◌⊎◌, inl, inr, String, true, false, some, arith, pos, lookup, lookup-insert,
  string_beq_refl, string_eq, Bool-cases, ◌<◌, ◌≤ℤ◌, ◌<ℤ◌,
}
use lead.Campaign.Store.{
  Status, active, paused, Reason, no_reason, Campaign, Limits, Fake, update_campaign_status,
  get_limits, get_latest_health, HealthSnapshot,
}
use lead.Campaign.Service.{breach, pause_for, evaluate_auto_pause, status_beq}

pub inactive : (s : Status) → status_beq s active ≡ false → s ≢ active
inactive s h e = ground (arith, h, e)

-- What an evaluation leaves of the stored campaign `c`.
abbrev pub Evaluated : ℕ → Limits → HealthSnapshot → Campaign → Campaign → Type 0
Evaluated now l h c c' =
    ((c' ≡ c) × ((c.status ≢ active) ⊎ (breach l h ≡ no_reason)))
    ⊎ ((c' ≡ record c { status = paused; pause_reason = breach l h; updated_at = now })
        × (c.status ≡ active)
        × (((pos 0 <ℤ l.cost_cap_inr) × (l.cost_cap_inr ≤ℤ h.cost_burn_inr))
            ⊎ (3000 < h.suppression_hit_rate)))

paused_by :
    (id : String) (reason : Reason) (f : Fake) {c : Campaign}
    → lookup id f.campaigns ≡ some c
    → (lookup id (pause_for id reason f).1.campaigns ≡ some c) × (reason ≡ no_reason)
      ⊎ (lookup id (pause_for id reason f).1.campaigns
          ≡ some (record c { status = paused; pause_reason = reason; updated_at = f.now }))
unfolding update_campaign_status
paused_by id reason f {c} e = ground (
  arith,
  e,
  string_beq_refl id,
  lookup-insert id id (record c { status = paused; pause_reason = reason; updated_at = f.now })
      f.campaigns,
)

breach_cases :
    (l : Limits) (h : HealthSnapshot)
    → (breach l h ≡ no_reason)
      ⊎ ((breach l h ≢ no_reason)
          × (((pos 0 <ℤ l.cost_cap_inr) × (l.cost_cap_inr ≤ℤ h.cost_burn_inr))
              ⊎ (3000 < h.suppression_hit_rate)))
unfolding breach
breach_cases l h = ground arith

is_active_lem : (s : Status) → status_beq s active ≡ true → s ≡ active
is_active_lem s h = ground (arith, h)

evaluated :
    (id : String) (f : Fake) {c : Campaign}
    → lookup id f.campaigns ≡ some c
    → c.status ≡ active
    → let l = get_limits id f in
      let h = get_latest_health id f in
      (c' : Campaign) × (lookup id (pause_for id (breach l h) f).1.campaigns ≡ some c')
      × Evaluated f.now l h c c'
evaluated id f {c} e on =
    let l = get_limits id f in
    let h = get_latest_health id f in
    elim (paused_by id (breach l h) f {c = c} e) [
      | inl (same, quiet) ↦ (c, same, inl (refl, inr quiet))
      | inr written ↦ elim (breach_cases l h) [
        | inl quiet ↦ (c, rw quiet e, inl (refl, inr quiet))
        | inr (_, cause) ↦ (
          record c { status = paused; pause_reason = breach l h; updated_at = f.now },
          written,
          inr (refl, on, cause),
        )
      ]
    ]

-- An evaluation leaves a stored campaign as it was, because it is not active or its latest health
-- gives no reason, or pauses an active one for the reason that the health gives: it has burnt a
-- positive cost cap, or has more than 30% suppressed numbers.
pub evaluate_auto_pause_lem :
    (id : String) (f : Fake) {c : Campaign}
    → lookup id f.campaigns ≡ some c
    → (c' : Campaign) × (lookup id (evaluate_auto_pause id f).1.campaigns ≡ some c')
      × Evaluated f.now (get_limits id f) (get_latest_health id f) c c'
unfolding evaluate_auto_pause
evaluate_auto_pause_lem id f {c} e = elim (Bool-cases (status_beq c.status active)) [
  | inl on ↦ rw e (rw on (evaluated id f {c = c} e (is_active_lem c.status on)))
  | inr off ↦ rw e (rw off (c, e, inl (refl, inl (inactive c.status off))))
]
