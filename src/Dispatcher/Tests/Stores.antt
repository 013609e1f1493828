-- ===== src/Dispatcher/Tests/Stores.antt =====
-- Runs of the stores and of a launch.
use lead.Prelude.{refl, arith, ◌≡◌, some, [], pos}
use lead.Dispatcher.Retry.{extract_retry_policy}
use lead.Dispatcher.RateLimit.{extract_rate_limit_caps}
use lead.Dispatcher.Window.{window_hours}
use lead.Dispatcher.Launch.{float_of, CampaignResponse, campaign_ctx_map}
use lead.Dispatcher.Launch.Limits.{limits_roundtrip}
use lead.Dispatcher.Tests.Fixtures.{limits}

limits_roundtrip_example :
    let c = some (campaign_ctx_map [] limits) in
    (extract_rate_limit_caps c ≡ (pos 7, pos 40, pos 1250))
    × ((extract_retry_policy c).retry_max ≡ 5)
    × ((extract_retry_policy c).retry_busy_min ≡ 20)
    × ((extract_retry_policy c).retry_no_answer_min ≡ 90)
    × (window_hours c ≡ (9, 18))
limits_roundtrip_example =
    limits_roundtrip [] limits
      (omega arith, omega arith, omega arith, omega arith, omega arith, omega arith, omega arith)

-- A cap that a float64 does not hold, one between two that it holds, and the greatest int.
caps_rounded :
    (float_of (pos 9007199254740993) ≡ pos 900719925474099200)
    × (float_of (pos 9007199254740995) ≡ pos 900719925474099600)
    × (float_of (pos 9223372036854775807) ≡ pos 922337203685477580800)
unfolding float_of
caps_rounded = (refl, refl, refl)

abbrev campaign : CampaignResponse
campaign = record { tenant_id = "t"; project_id = "p"; kb_version_id = "k"; context = [] }
