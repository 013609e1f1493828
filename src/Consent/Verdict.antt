-- ===== src/Consent/Verdict.antt =====
-- internal/compliance/compliance.go over the in-memory store: what the verdict on an outreach says.
use lead.Prelude.{
  ℕ, ◌≡◌, refl, ◌≢◌, ◌⊎◌, inl, inr, true, ◌&&◌, not, Option, none, some, List, [], ◌∷◌, arith, ℤ,
  pos, ◌<ℤ◌, ◌≤ℤ◌, if◌then◌else◌, ◌==◌, string_eq, nat_eq, eq_iff, ok, lookup, All,
}
use lead.Dispatcher.Window.{Calendar}
use lead.Consent.Store.{KnowledgeBase, phone_channel, Fake, fake_store, opt_out_key}
use lead.Consent.Gates.{
  Reason, suppression, opt_out, calling_window, holiday, trai_140_series, rera_gate, OutreachResult,
  allowed, blocked, OutreachRequest, real_estate, is_140_series, check_trai, on_kb, check_rera_gate,
  suppression_gate, opt_out_gate, check_calling_window, check_holiday, time_gates,
  check_outreach_allowed,
}

abbrev pub Complete : KnowledgeBase → Type 0
Complete kb =
    (kb.approved ≡ true)
    × (kb.rera_number ≢ "")
    × (kb.has_brochure ≡ true)
    × (kb.has_price_sheet ≡ true)
    × (kb.has_disclaimers ≡ true)

abbrev pub CompleteKb : Option KnowledgeBase → Type 0
CompleteKb none = ⊥
CompleteKb (some kb) = Complete kb

on_kb_lem :
    (o : Option KnowledgeBase)
    → ((on_kb (ok o) ≡ allowed) × CompleteKb o)
      ⊎ ((on_kb (ok o) ≡ blocked rera_gate) × ¬ CompleteKb o)
on_kb_lem none = inr (refl, λ h. h)
on_kb_lem (some kb) = ground (arith, eq_iff kb.rera_number "")

module _ {L : Type 0} (cal : Calendar L) (ist : L) (req : OutreachRequest L) (f : Fake) where
  abbrev pub AtTimes : (ℕ → Type 0) → Option ℕ → Type 0
  AtTimes P none = Unit
  AtTimes P (some t) = P t

  -- The hour of the call, in the location of the window.
  abbrev pub hour_of : ℕ → ℤ
  hour_of t = pos (cal.hour t req.window_cfg.location)

  abbrev pub InWindow : ℕ → Type 0
  InWindow t = (req.window_cfg.start_hour ≤ℤ hour_of t) × (hour_of t <ℤ req.window_cfg.end_hour)

  abbrev pub NoHoliday : List ℕ → ℕ → Type 0
  NoHoliday hs t = All (λ h. cal.day t ist ≢ cal.day h ist) hs

  -- What each gate asks for, from the data alone.
  abbrev pub Passes : Reason → Type 0
  Passes suppression = (req.phone ≡ "") ⊎ (lookup req.phone f.suppressions ≡ none)
  Passes opt_out =
      (req.lead_id ≡ "") ⊎ (lookup (opt_out_key req.lead_id req.channel) f.opt_outs ≡ none)
  Passes calling_window = AtTimes InWindow req.at_time
  Passes holiday = AtTimes (NoHoliday req.holidays) req.at_time
  Passes trai_140_series =
      (req.campaign_type ≢ real_estate)
      ⊎ (req.channel ≢ phone_channel)
      ⊎ (is_140_series req.caller_id ≡ true)
  Passes rera_gate =
      (req.campaign_id ≡ "")
      ⊎ (req.campaign_type ≢ real_estate)
      ⊎ CompleteKb (lookup req.campaign_id f.kbs)

  -- The verdict names the first gate that is not passed, and is `allowed` if all are.
  abbrev pub Judged : OutreachResult → Type 0
  Judged allowed =
      Passes suppression
      × Passes opt_out
      × Passes calling_window
      × Passes holiday
      × Passes trai_140_series
      × Passes rera_gate
  Judged (blocked suppression) = ¬ Passes suppression
  Judged (blocked opt_out) = Passes suppression × ¬ Passes opt_out
  Judged (blocked calling_window) = Passes suppression × Passes opt_out × ¬ Passes calling_window
  Judged (blocked holiday) =
      Passes suppression × Passes opt_out × Passes calling_window × ¬ Passes holiday
  Judged (blocked trai_140_series) =
      Passes suppression
      × Passes opt_out
      × Passes calling_window
      × Passes holiday
      × ¬ Passes trai_140_series
  Judged (blocked rera_gate) =
      Passes suppression
      × Passes opt_out
      × Passes calling_window
      × Passes holiday
      × Passes trai_140_series
      × ¬ Passes rera_gate

  -- What one gate answers.
  Gated : Reason → OutreachResult × Fake → Type 0
  Gated r answer = ((answer ≡ (allowed, f)) × Passes r) ⊎ ((answer ≡ (blocked r, f)) × ¬ Passes r)

  suppression_gate_lem : Gated suppression (suppression_gate fake_store req.phone f)
  unfolding suppression_gate Gated
  suppression_gate_lem = ground (arith, eq_iff req.phone "")

  opt_out_gate_lem : Gated opt_out (opt_out_gate fake_store req.lead_id req.channel f)
  unfolding opt_out_gate Gated
  opt_out_gate_lem = ground (arith, eq_iff req.lead_id "")

  rera_gate_lem : Gated rera_gate (
      if not (req.campaign_id == "") && req.campaign_type == real_estate
      then check_rera_gate fake_store req.campaign_id req.campaign_type f
      else (allowed, f))
  unfolding check_rera_gate Gated
  rera_gate_lem = ground (
    arith,
    eq_iff req.campaign_id "",
    eq_iff req.campaign_type real_estate,
    on_kb_lem (lookup req.campaign_id f.kbs),
  )

  -- What a gate that reads no store answers.
  Decided : Reason → OutreachResult → Type 0
  Decided r answer = ((answer ≡ allowed) × Passes r) ⊎ ((answer ≡ blocked r) × ¬ Passes r)

  check_trai_lem : Decided trai_140_series (check_trai req.channel req.campaign_type req.caller_id)
  unfolding check_trai Decided
  check_trai_lem =
      ground (arith, eq_iff req.campaign_type real_estate, eq_iff req.channel phone_channel)

  check_calling_window_lem :
      (t : ℕ)
      → ((check_calling_window cal ist t req.window_cfg ≡ allowed) × InWindow t)
        ⊎ ((check_calling_window cal ist t req.window_cfg ≡ blocked calling_window) × ¬ InWindow t)
  unfolding check_calling_window
  check_calling_window_lem t = ground arith

  check_holiday_lem :
      (t : ℕ) (hs : List ℕ)
      → ((check_holiday cal ist t hs ≡ allowed) × NoHoliday hs t)
        ⊎ ((check_holiday cal ist t hs ≡ blocked holiday) × ¬ NoHoliday hs t)
  unfolding check_holiday
  check_holiday_lem t [] = inl (refl, tt)
  check_holiday_lem t (h ∷ hs) = ground (arith, check_holiday_lem t hs)

  TimeDecided : Option ℕ → OutreachResult → Type 0
  TimeDecided at answer =
      ((answer ≡ allowed) × AtTimes InWindow at × AtTimes (NoHoliday req.holidays) at)
      ⊎ ((answer ≡ blocked calling_window) × ¬ AtTimes InWindow at)
      ⊎ ((answer ≡ blocked holiday) × AtTimes InWindow at × ¬ AtTimes (NoHoliday req.holidays) at)

  time_gates_lem : (at : Option ℕ) → TimeDecided at (time_gates cal ist req at)
  unfolding TimeDecided time_gates
  time_gates_lem none = inl (refl, tt, tt)
  time_gates_lem (some t) = elim (check_calling_window_lem t) [
    | inr h ↦ inr (inl (rw h.0 refl, h.1))
    | inl h ↦ elim (check_holiday_lem t req.holidays) [
      | inl k ↦ inl (rw (h.0, k.0) refl, h.1, k.1)
      | inr k ↦ inr (inr (rw (h.0, k.0) refl, h.1, k.1))
    ]
  ]

  -- Over the in-memory store, for every request: the check allows the outreach exactly when all six
  -- gates are passed (the phone is not suppressed, the lead has not opted out of the channel, the
  -- hour lies in the window, the day is no holiday, a real-estate call comes from a 140 number, and
  -- a real-estate campaign with an id has a complete approved knowledge base), and otherwise names
  -- the first gate, in this order, that is not passed. A request without a phone or without a lead
  -- passes the gates on these, and one at the zero time those on the time.
  pub check_outreach_allowed_lem : Judged (check_outreach_allowed cal ist fake_store req f).0
  unfolding check_outreach_allowed TimeDecided Gated Decided
  check_outreach_allowed_lem = elim suppression_gate_lem [
    | inr h ↦ rw h.0 h.1
    | inl a ↦ rw a.0 (elim opt_out_gate_lem [
      | inr h ↦ rw h.0 (a.1, h.1)
      | inl b ↦ rw b.0 (elim (time_gates_lem req.at_time) [
        | inr (inl h) ↦ rw h.0 (a.1, b.1, h.1)
        | inr (inr h) ↦ rw h.0 (a.1, b.1, h.1, h.2)
        | inl c ↦ rw c.0 (elim check_trai_lem [
          | inr h ↦ rw h.0 (a.1, b.1, c.1, c.2, h.1)
          | inl d ↦ rw d.0 (elim rera_gate_lem [
            | inr h ↦ rw h.0 (a.1, b.1, c.1, c.2, d.1, h.1)
            | inl r ↦ rw r.0 (a.1, b.1, c.1, c.2, d.1, r.1)
          ])
        ])
      ])
    ])
  ]
