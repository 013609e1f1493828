-- ===== src/Billing/Service.antt =====
-- internal/service/service.go, and the consumer that feeds it (cmd/server/consumer.go).
use lead.Prelude.{
  ℕ, suc, ◌*◌, ◌/◌, String, Bool, true, false, ◌||◌, Option, none, some, ℤ, pos, ltb_ℤ, leb,
  if◌then◌else◌, ◌==◌, string_eq, Result, ok, err, rejected,
}
use lead.Pgkv.{Action, ◌>>=◌, ◌>>◌, pure, throw}
use lead.Billing.Pricing.{
  call_cost, whatsapp_cost, tts_per_character, stt_per_second, llm_per_token,
}
use lead.Billing.Store.{
  UsageType, unset, call_completed, whatsapp, tts, stt, llm, other, UsageEvent, CostEvent,
  SignalType, cap_warning, cap_reached, auto_pause_requested, call_cutoff, Scope, tenant, campaign,
  Store, no_caps, no_usage,
}

-- `maxInt64(1, q)`
abbrev pub at_least_one : ℤ → ℕ
at_least_one (pos (suc n)) = suc n
at_least_one z = 1

abbrev pub nonzero : ℕ → ℕ
nonzero n = at_least_one (pos n)

abbrev pub is_unset : UsageType → Bool
is_unset unset = true
is_unset t = false

abbrev pub is_call : UsageType → Bool
is_call call_completed = true
is_call t = false

-- The quantity, the price of one and the total.
abbrev pub units : ℕ → ℕ → ℕ × ℕ × ℕ
units qty unit = (qty, unit, qty * unit)

unfoldable pub priced : ℤ → String → UsageType → ℕ × ℕ × ℕ
unfolding call_cost whatsapp_cost
priced q category call_completed =
    let (billed, total) = call_cost q in (billed, total / nonzero billed, total)
priced q category whatsapp = units (at_least_one q) (whatsapp_cost category)
priced q category tts = units (at_least_one q) tts_per_character
priced q category stt = units (at_least_one q) stt_per_second
priced q category llm = units (at_least_one q) llm_per_token
priced q category unset = (0, 0, 0)
priced q category (other t) = (0, 0, 0)

-- `costFor`
unfoldable pub cost_for : ℕ → UsageEvent → CostEvent
unfolding priced
cost_for now u =
    let (quantity, unit_cost, total) = priced u.quantity u.category u.type in
    record {
      id = "";
      tenant_id = u.tenant_id;
      campaign_id = u.campaign_id;
      usage_event_id = "";
      type = u.type;
      quantity = quantity;
      unit_cost = unit_cost;
      total = total;
      created_at = now;
    }

abbrev pub time_or : ℕ → Option ℕ → Option ℕ
time_or now none = some now
time_or now (some t) = some t

-- What the consumer reads of an event.
pub record CallEvent : Type 0 where
  pub session_id : String
  pub tenant_id : String
  pub campaign_id : String
  pub duration_seconds : ℤ
  pub ended_at : Option ℕ

-- The usage that an event stands for: it has no idempotency key.
abbrev pub usage_of : UsageType → CallEvent → UsageEvent
usage_of type ev = record {
  id = ev.session_id;
  tenant_id = ev.tenant_id;
  campaign_id = ev.campaign_id;
  type = type;
  quantity = ev.duration_seconds;
  category = "";
  occurred_at = ev.ended_at;
  idempotency_key = "";
}

-- An error of the store reads as the zero value.
abbrev pub or_else {ℓ} : {A : Type ℓ} → A → Result A → A
or_else z (ok a) = a
or_else z (err e) = z

abbrev pub positive : ℤ → Option ℕ
positive (pos (suc n)) = some (suc n)
positive z = none

module _ {Q : Type 0} (s : Store Q) (now : ℕ) where
  abbrev pub signal : String → String → SignalType → ℤ → ℤ → Action Q (Unit {0})
  signal tenant_id campaign_id type used limit =
      s.add_signal (record {
        id = "";
        tenant_id = tenant_id;
        campaign_id = campaign_id;
        type = type;
        used = used;
        limit = limit;
        created_at = now;
      })
      >>= λ _. pure tt

  -- `emitCapSignals`, for a cap of a positive amount: a warning from four fifths of it on.
  unfoldable pub emit_cap_signals : String → String → ℕ → ℕ → Action Q (Unit {0})
  emit_cap_signals tenant_id campaign_id cap used =
      (if leb (cap * 8) (used * 10)
        then signal tenant_id campaign_id cap_warning (pos used) (pos cap)
        else pure tt)
      >> (if leb cap used
          then (signal tenant_id campaign_id cap_reached (pos used) (pos cap)
              >> signal tenant_id campaign_id auto_pause_requested (pos used) (pos cap))
          else pure tt)

  -- One of the two caps; `none` is a cap that is not set.
  abbrev pub check_cap : Scope → String → String → String → Option ℕ → Action Q (Unit {0})
  check_cap scope scope_id tenant_id campaign_id none q = (ok tt, q)
  check_cap scope scope_id tenant_id campaign_id (some cap) q =
      let (r, q') = s.get_summary scope scope_id q in
      emit_cap_signals tenant_id campaign_id cap (or_else no_usage r).total_cost q'

  unfoldable pub evaluate_scope : Scope → String → String → String → Action Q (Unit {0})
  unfolding emit_cap_signals
  evaluate_scope scope scope_id tenant_id campaign_id q =
      let (r, q') = s.get_caps tenant_id campaign_id q in
      check_cap scope scope_id tenant_id campaign_id (positive (or_else no_caps r).monthly) q'

  -- `evaluateCaps`: the tenant's cap, and that of the campaign if there is one.
  unfoldable pub evaluate_caps : UsageEvent → Action Q (Unit {0})
  unfolding evaluate_scope
  evaluate_caps u =
      evaluate_scope tenant u.tenant_id u.tenant_id ""
      >> (if u.campaign_id == ""
          then pure tt
          else evaluate_scope campaign u.campaign_id u.tenant_id u.campaign_id)

  abbrev pub cut_off : UsageEvent → ℤ → Action Q (Unit {0})
  cut_off u max =
      if ltb_ℤ (pos 0) max
      then (if ltb_ℤ max u.quantity
          then signal u.tenant_id u.campaign_id call_cutoff u.quantity max
          else pure tt)
      else pure tt

  -- `evaluateRuntimeCutoff`
  unfoldable pub evaluate_runtime_cutoff : UsageEvent → Action Q (Unit {0})
  evaluate_runtime_cutoff u q =
      let (r, q') = s.get_caps u.tenant_id u.campaign_id q in
      cut_off u (or_else no_caps r).max_call_seconds q'

  -- What follows a write, if the usage was new.
  unfoldable pub after_record : UsageEvent → Bool → Action Q (Unit {0})
  unfolding evaluate_caps evaluate_runtime_cutoff
  after_record u false = pure tt
  after_record u true =
      evaluate_caps u >> (if is_call u.type then evaluate_runtime_cutoff u else pure tt)

  -- `RecordUsage`
  unfoldable pub record_usage : UsageEvent → Action Q CostEvent
  unfolding cost_for after_record
  record_usage usage =
      if usage.tenant_id == "" || is_unset usage.type
      then throw rejected
      else (let u = record usage { occurred_at = time_or now usage.occurred_at } in
          let cost = cost_for now u in
          s.record_usage_cost u cost >>= λ created. after_record u created >> pure cost)

  -- `handleUsage`: an event that cannot be parsed, or that names no tenant, is done with.
  unfoldable pub handle_usage : UsageType → Option CallEvent → Action Q (Unit {0})
  handle_usage type none = pure tt
  handle_usage type (some ev) =
      if ev.tenant_id == "" then pure tt else record_usage (usage_of type ev) >>= λ _. pure tt
