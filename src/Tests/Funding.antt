-- ===== src/Tests/Funding.antt =====
-- Concrete runs of internal/funding.
use builder_code_bot.Prelude.{◌+◌, ◌≡◌, suc, Bool, true, false, none, [], ◌∷◌, if◌then◌else◌}
use builder_code_bot.Prelude.Text.{address_key}
use builder_code_bot.Funding.Run.{run_active_target, run_fuel}
use builder_code_bot.Funding.Payout.Submit.{submit_payout_attempt, replay_fuel}
use builder_code_bot.Funding.Fuel.Again.{run_active_target_enough}
use builder_code_bot.Funding.Fuel.Replay.{submit_payout_attempt_enough}
use builder_code_bot.Funding.RateLimit.{
  holds_account, update_rate_limit_alert, observe_user_rate_limit,
}
use builder_code_bot.Funding.RateLimit.Visible.{
  IsReliable, limit_queries, observe_user_rate_limit_lem,
}
use builder_code_bot.Funding.Action.Gives.{Given}
use builder_code_bot.Funding.Amount.{ManifestInput, build_manifest}
use builder_code_bot.Funding.Amount.Sorted.{IsSorted, count, build_manifest_lem}
use builder_code_bot.Funding.RateLimit.Latch.{
  update_rate_limit_alert_lem, alerts, rises, alerts_lem,
}
use builder_code_bot.Funding.Model.{Record, Phase, Trigger}
use builder_code_bot.Funding.Fresh.{run_new}
use builder_code_bot.Funding.Recovery.{recover_state}
use builder_code_bot.Funding.Safety.Journal.{IsJournaled}
use builder_code_bot.Funding.Safety.WriteAhead.{run_new-IsJournaled, recover_state-IsJournaled}
use builder_code_bot.Funding.Action.{ok}
use builder_code_bot.Funding.Env.{Env}
use builder_code_bot.Tests.World.{whole_numbers, world, start, run_at}

run_new-IsJournaled_example : IsJournaled (run_new world Trigger.utc_payout start).1.history
run_new-IsJournaled_example = run_new-IsJournaled world start Trigger.utc_payout tt

recover_state-IsJournaled_example :
    IsJournaled (recover_state world (run_at Phase.payout_prepared 1) false start).1.history
recover_state-IsJournaled_example =
    recover_state-IsJournaled world start (run_at Phase.payout_prepared 1) false tt

run_active_target_enough_example :
    run_active_target world 7 start ≡ run_active_target world run_fuel start
run_active_target_enough_example = run_active_target_enough world 5 start

submit_payout_attempt_enough_example :
    submit_payout_attempt world 5 (run_active_target world run_fuel) false start
    ≡ submit_payout_attempt world (suc replay_fuel) (run_active_target world run_fuel) false start
submit_payout_attempt_enough_example =
    submit_payout_attempt_enough world 3 (run_active_target world run_fuel) false start

update_rate_limit_alert_lem_example :
    ((update_rate_limit_alert "0xA" true []).0
      ≡ (if true then (if holds_account (address_key "0xA") [] then false else true) else false))
    × (holds_account (address_key "0xA") (update_rate_limit_alert "0xA" true []).1 ≡ true)
update_rate_limit_alert_lem_example = update_rate_limit_alert_lem "0xA" true []

alerts_lem_example :
    alerts "0xA" (true ∷ true ∷ false ∷ true ∷ []) []
    ≡ rises (holds_account (address_key "0xA") []) (true ∷ true ∷ false ∷ true ∷ [])
alerts_lem_example = alerts_lem "0xA" (true ∷ true ∷ false ∷ true ∷ []) []

-- The count stays among those that may hide an action.
abbrev near : Env
near = record world { user_rate_limit = λ _ _. ok 203 }

observe_user_rate_limit_lem_example :
    Given
      (λ o t. IsReliable o × (limit_queries t.history ≡ o.attempts + limit_queries start.history))
      (observe_user_rate_limit near "0xa" true start)
observe_user_rate_limit_lem_example = observe_user_rate_limit_lem near "0xa" start

-- The record of the later period comes first.
abbrev input : ManifestInput
input = record {
  records =
      record { id = 1; period_start_at = 9; amount = "3" }
      ∷ record { id = 2; period_start_at = 4; amount = "2" }
      ∷ [];
  token = none;
  settlement = "0xa";
  recipient = "0xb";
}

build_manifest_lem_example :
    IsSorted (build_manifest whole_numbers input false).0.records
    × ((p : Record → Bool)
        → count p (build_manifest whole_numbers input false).0.records ≡ count p input.records)
build_manifest_lem_example = build_manifest_lem whole_numbers input false
