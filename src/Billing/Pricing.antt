-- ===== src/Billing/Pricing.antt =====
-- internal/pricing/pricing.go. An amount is a whole number of hundred-thousandths of a rupee, in which
-- every price of the code is whole.
use lead.Prelude.{
  ℕ, zero, suc, ◌+◌, ◌*◌, ◌/◌, ◌%◌, ◌≤◌, ◌<◌, ◌≡◌, String, arith, ℤ, pos, negsuc, if◌then◌else◌,
  ◌==◌, string_eq,
}

abbrev pub plivo_per_minute : ℕ
plivo_per_minute = 80000

abbrev pub ai_compute_per_minute : ℕ
ai_compute_per_minute = 35000

abbrev pub recording_per_minute : ℕ
recording_per_minute = 5000

abbrev pub tts_per_character : ℕ
tts_per_character = 8

abbrev pub stt_per_second : ℕ
stt_per_second = 400

abbrev pub llm_per_token : ℕ
llm_per_token = 60

-- `RoundPlivoSeconds`: whole minutes, rounded up.
unfoldable pub round_plivo_seconds : ℤ → ℕ
round_plivo_seconds (pos n) = (n + 59) / 60 * 60
round_plivo_seconds (negsuc n) = 0

-- `CallCostINR`: the billed seconds and the amount.
unfoldable pub call_cost : ℤ → ℕ × ℕ
unfolding round_plivo_seconds
call_cost seconds =
    let billed = round_plivo_seconds seconds in
    (billed, billed / 60 * (plivo_per_minute + ai_compute_per_minute + recording_per_minute))

-- `WhatsAppCostINR`: an unknown category costs what utility messages cost.
unfoldable pub whatsapp_cost : String → ℕ
whatsapp_cost category =
    if category == "marketing"
    then 78000
    else (if category == "authentication" then 28000 else 35000)

-- A call of at least one second is billed in whole minutes, no shorter than it was and less than a
-- minute longer, at 1.20 rupees for each; a call of no positive length is free.
pub call_cost_bounds :
    (n : ℕ)
    → (suc n ≤ (call_cost (pos (suc n))).0)
      × ((call_cost (pos (suc n))).0 < suc n + 60)
      × ((call_cost (pos (suc n))).0 % 60 ≡ 0)
      × ((call_cost (pos (suc n))).1 * 60 ≡ (call_cost (pos (suc n))).0 * 120000)
      × (call_cost (pos zero) ≡ (0, 0))
      × (call_cost (negsuc n) ≡ (0, 0))
unfolding call_cost
call_cost_bounds n =
    (omega arith, omega arith, omega arith, omega arith, ground arith, ground arith)
