-- ===== src/Consent/Gates.antt =====
-- internal/compliance/compliance.go and the request that reaches it (internal/handler/handler.go):
-- the gates that an outreach must pass, in their order.
use lead.Prelude.{
  ℕ, String, Bool, true, false, ◌&&◌, ◌||◌, not, Option, none, some, List, [], ◌∷◌, ℤ, pos, ltb_ℤ,
  if◌then◌else◌, ◌==◌, string_eq, nat_eq, codes, Result, ok, err,
}
use lead.Dispatcher.Window.{Calendar}
use lead.Consent.Store.{Store, KnowledgeBase, phone_channel}

pub data Reason : Type 0 where
  suppression opt_out calling_window holiday trai_140_series rera_gate : Reason

pub data OutreachResult : Type 0 where
  allowed : OutreachResult
  blocked : Reason → OutreachResult

pub record WindowConfig (L : Type 0) : Type 0 where
  pub start_hour : ℤ
  pub end_hour : ℤ
  pub location : L

-- `none` is the zero time.
pub record OutreachRequest (L : Type 0) : Type 0 where
  pub lead_id : String
  pub phone : String
  pub channel : String
  pub at_time : Option ℕ
  pub campaign_id : String
  pub campaign_type : String
  pub caller_id : String
  pub holidays : List ℕ
  pub window_cfg : WindowConfig L

abbrev pub real_estate : String
real_estate = "real_estate"

-- The text begins with the other: `len(s) >= n && s[:n] == …`.
abbrev pub has_prefix : List ℕ → List ℕ → Bool
has_prefix [] s = true
has_prefix (c ∷ cs) [] = false
has_prefix (c ∷ cs) (d ∷ ds) = if c == d then has_prefix cs ds else false

abbrev pub is_140_series : String → Bool
is_140_series caller_id = has_prefix (codes "140") (codes caller_id)

-- `CheckTRAI`
unfoldable pub check_trai : String → String → String → OutreachResult
check_trai channel campaign_type caller_id =
    if campaign_type == real_estate && channel == phone_channel
    then (if is_140_series caller_id then allowed else blocked trai_140_series)
    else allowed

abbrev pub is_complete : KnowledgeBase → Bool
is_complete kb = not (
    not kb.approved
    || (kb.rera_number == ""
        || (not kb.has_brochure || (not kb.has_price_sheet || not kb.has_disclaimers))))

abbrev pub on_kb : Result (Option KnowledgeBase) → OutreachResult
on_kb (err e) = blocked rera_gate
on_kb (ok none) = blocked rera_gate
on_kb (ok (some kb)) = if is_complete kb then allowed else blocked rera_gate

-- A gate over a list: only the answer "yes" blocks, a failure of the store does not.
abbrev pub block_if : Reason → Result Bool → OutreachResult
block_if r (ok true) = blocked r
block_if r (ok false) = allowed
block_if r (err e) = allowed

-- The first gate that blocks decides.
abbrev pub or_next : OutreachResult → OutreachResult → OutreachResult
or_next allowed next = next
or_next (blocked r) next = blocked r

module _ {Q : Type 0} where
  abbrev pub then_gate : OutreachResult × Q → (Q → OutreachResult × Q) → OutreachResult × Q
  then_gate (allowed, q) next = next q
  then_gate (blocked r, q) next = (blocked r, q)

  -- `CheckRERAGate`
  unfoldable pub check_rera_gate : Store Q → String → String → Q → OutreachResult × Q
  check_rera_gate s campaign_id campaign_type q =
      if campaign_type == real_estate
      then (let (r, q') = s.get_approved_kb campaign_id q in (on_kb r, q'))
      else (allowed, q)

  unfoldable pub suppression_gate : Store Q → String → Q → OutreachResult × Q
  suppression_gate s phone q =
      if phone == ""
      then (allowed, q)
      else (let (r, q') = s.is_suppressed phone q in (block_if suppression r, q'))

  unfoldable pub opt_out_gate : Store Q → String → String → Q → OutreachResult × Q
  opt_out_gate s lead_id channel q =
      if lead_id == ""
      then (allowed, q)
      else (let (r, q') = s.is_opted_out lead_id channel q in (block_if opt_out r, q'))

-- `ist` is the location Asia/Kolkata.
module _ {L : Type 0} (cal : Calendar L) (ist : L) where
  -- `CheckCallingWindow`
  unfoldable pub check_calling_window : ℕ → WindowConfig L → OutreachResult
  check_calling_window t cfg =
      let h = pos (cal.hour t cfg.location) in
      if ltb_ℤ h cfg.start_hour || not (ltb_ℤ h cfg.end_hour)
      then blocked calling_window
      else allowed

  -- `CheckHoliday`: the calendar days in India are compared.
  unfoldable pub check_holiday : ℕ → List ℕ → OutreachResult
  check_holiday t [] = allowed
  check_holiday t (h ∷ hs) =
      if cal.day t ist == cal.day h ist then blocked holiday else check_holiday t hs

  -- The two gates that ask for the time of the call.
  unfoldable pub time_gates : OutreachRequest L → Option ℕ → OutreachResult
  unfolding check_calling_window check_holiday
  time_gates req none = allowed
  time_gates req (some t) =
      or_next (check_calling_window t req.window_cfg) (check_holiday t req.holidays)

  -- `CheckOutreachAllowed`
  unfoldable pub check_outreach_allowed :
      {Q : Type 0} → Store Q → OutreachRequest L → Q → OutreachResult × Q
  check_outreach_allowed s req q = then_gate (suppression_gate s req.phone q) λ q1.
      then_gate (opt_out_gate s req.lead_id req.channel q1) λ q2.
        then_gate
          (
            or_next (time_gates req req.at_time)
                (check_trai req.channel req.campaign_type req.caller_id),
            q2,
          )
          λ q3.
            if not (req.campaign_id == "") && req.campaign_type == real_estate
            then check_rera_gate s req.campaign_id req.campaign_type q3
            else (allowed, q3)

  -- `DefaultWindowConfig`
  abbrev pub default_window_config : WindowConfig L
  default_window_config = record { start_hour = pos 9; end_hour = pos 21; location = ist }

-- The time that a request over HTTP names: none, one that `time.Parse` reads, which may be the zero
-- time, or one it refuses.
pub data AtTime : Type 0 where
  unnamed : AtTime
  parsed : Option ℕ → AtTime
  unreadable : AtTime

pub record CheckBody : Type 0 where
  pub lead_id : String
  pub phone : String
  pub channel : String
  pub at_time : AtTime
  pub campaign_id : String
  pub campaign_type : String
  pub caller_id : String

pub data CheckReply : Type 0 where
  bad_request : CheckReply
  answer : OutreachResult → CheckReply

abbrev pub time_of : ℕ → AtTime → Option (Option ℕ)
time_of now unnamed = some (some now)
time_of now (parsed t) = some t
time_of now unreadable = none

module _ {L : Type 0} (cal : Calendar L) (ist : L) {Q : Type 0} (s : Store Q) where
  abbrev pub check_at : CheckBody → Option (Option ℕ) → Q → CheckReply × Q
  check_at b none q = (bad_request, q)
  check_at b (some t) q =
      let (r, q') =
        check_outreach_allowed cal ist s
          (record {
            lead_id = b.lead_id;
            phone = b.phone;
            channel = b.channel;
            at_time = t;
            campaign_id = b.campaign_id;
            campaign_type = b.campaign_type;
            caller_id = b.caller_id;
            holidays = [];
            window_cfg = default_window_config cal ist;
          })
          q in
      (answer r, q')

  -- `handleCheckOutreach`; `none` is a body that does not decode.
  unfoldable pub handle_check_outreach : ℕ → Option CheckBody → Q → CheckReply × Q
  unfolding check_outreach_allowed
  handle_check_outreach now none q = (bad_request, q)
  handle_check_outreach now (some b) q =
      if b.lead_id == "" || b.channel == ""
      then (bad_request, q)
      else check_at b (time_of now b.at_time) q
