-- ===== src/Consent/Faults.antt =====
-- internal/compliance over internal/store/postgres.go when the database cannot be reached.
use lead.Prelude.{
  ℕ, ◌≡◌, refl, String, true, ◌&&◌, not, Option, none, some, arith, if◌then◌else◌, ◌==◌, string_eq,
  inl, inr, Bool-cases, ap, ◌∙◌,
}
use lead.Pgkv.{next_fails}
use lead.Dispatcher.Window.{Calendar}
use lead.Consent.Durable.{Tables, durable_store}
use lead.Consent.Durable
use lead.Consent.Gates.{
  OutreachResult, allowed, blocked, OutreachRequest, or_next, then_gate, suppression_gate,
  opt_out_gate, check_rera_gate, time_gates, check_trai, check_outreach_allowed, real_estate,
}

-- A failed lookup uses up the fault of its collection and lets the request pass.
suppression_gate-fails :
    (phone : String) (q : Tables)
    → next_fails q.suppressions.faults ≡ true
    → ((suppression_gate durable_store phone q).0 ≡ allowed)
      × ((suppression_gate durable_store phone q).1.opt_outs ≡ q.opt_outs)
      × ((suppression_gate durable_store phone q).1.approved_kbs ≡ q.approved_kbs)
unfolding suppression_gate Durable.is_suppressed
suppression_gate-fails phone q h = ground arith

opt_out_gate-fails :
    (lead_id channel : String) (q : Tables)
    → next_fails q.opt_outs.faults ≡ true
    → ((opt_out_gate durable_store lead_id channel q).0 ≡ allowed)
      × ((opt_out_gate durable_store lead_id channel q).1.approved_kbs ≡ q.approved_kbs)
unfolding opt_out_gate Durable.is_opted_out
opt_out_gate-fails lead_id channel q h = ground arith

-- The last gate depends on one collection only.
check_rera_gate-same :
    (campaign_id campaign_type : String) (q q' : Tables)
    → q.approved_kbs ≡ q'.approved_kbs
    → (check_rera_gate durable_store campaign_id campaign_type q).0
      ≡ (check_rera_gate durable_store campaign_id campaign_type q').0
unfolding check_rera_gate Durable.get_approved_kb
check_rera_gate-same campaign_id campaign_type q q' h = ground arith

then_gate-allowed :
    (p : OutreachResult × Tables) (next : Tables → OutreachResult × Tables)
    → p.0 ≡ allowed
    → then_gate p next ≡ next p.1
then_gate-allowed (allowed, q) next h = refl
then_gate-allowed (blocked r, q) next h = ground arith

then_gate-same :
    (r : OutreachResult) (next : Tables → OutreachResult × Tables) (q q' : Tables)
    → (next q).0 ≡ (next q').0
    → (then_gate (r, q) next).0 ≡ (then_gate (r, q') next).0
then_gate-same allowed next q q' h = h
then_gate-same (blocked r) next q q' h = refl

module _ {L : Type 0} (cal : Calendar L) (ist : L) (req : OutreachRequest L) (q : Tables) where
  last_gate : Tables → OutreachResult × Tables
  last_gate q3 =
      if not (req.campaign_id == "") && req.campaign_type == real_estate
      then check_rera_gate durable_store req.campaign_id req.campaign_type q3
      else (allowed, q3)

  last_gate-same :
      (q3 q3' : Tables) → q3.approved_kbs ≡ q3'.approved_kbs → (last_gate q3).0 ≡ (last_gate q3').0
  unfolding last_gate
  last_gate-same q3 q3' h =
      elim (Bool-cases (not (req.campaign_id == "") && req.campaign_type == real_estate)) [
        | inl e ↦ rw e (check_rera_gate-same req.campaign_id req.campaign_type q3 q3' h)
        | inr e ↦ rw e refl
      ]

  unnamed : OutreachRequest L
  unnamed = record req { phone = ""; lead_id = "" }

  time_gates-unnamed : (at : Option ℕ) → time_gates cal ist req at ≡ time_gates cal ist unnamed at
  unfolding time_gates unnamed
  time_gates-unnamed none = refl
  time_gates-unnamed (some t) = refl

  -- If the statements that look the phone and the lead up fail, the check answers as if the request
  -- had named neither: no suppressed phone and no opt-out is held back.
  pub check_outreach_allowed-fails_open :
      next_fails q.suppressions.faults ≡ true
      → next_fails q.opt_outs.faults ≡ true
      → (check_outreach_allowed cal ist durable_store req q).0
        ≡ (check_outreach_allowed cal ist durable_store
            (record req { phone = ""; lead_id = "" })
            q).0
  unfolding check_outreach_allowed last_gate suppression_gate opt_out_gate unnamed
  check_outreach_allowed-fails_open no_list no_outs =
      let (e1, o1, k1) = suppression_gate-fails req.phone q no_list in
      let q1 = (suppression_gate durable_store req.phone q).1 in
      let (e2, k2) = opt_out_gate-fails req.lead_id req.channel q1 (rw o1 no_outs) in
      let q2 = (opt_out_gate durable_store req.lead_id req.channel q1).1 in
      let late : Tables → OutreachResult × Tables = λ t.
        then_gate
          (
            or_next (time_gates cal ist req req.at_time)
                (check_trai req.channel req.campaign_type req.caller_id),
            t,
          )
          last_gate in
      ap (λ (p : OutreachResult × Tables). p.0)
        (then_gate-allowed (suppression_gate durable_store req.phone q)
          (λ t. then_gate (opt_out_gate durable_store req.lead_id req.channel t) late) e1)
      ∙ ap (λ (p : OutreachResult × Tables). p.0)
          (then_gate-allowed (opt_out_gate durable_store req.lead_id req.channel q1) late e2)
      ∙ then_gate-same _ last_gate q2 q (last_gate-same q2 q (k2 ∙ k1))
      ∙ ap
          (λ (r : OutreachResult).
            (then_gate (or_next r (check_trai req.channel req.campaign_type req.caller_id), q)
              last_gate).0)
          (time_gates-unnamed req.at_time)
