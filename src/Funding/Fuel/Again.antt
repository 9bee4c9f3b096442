-- ===== src/Funding/Fuel/Again.antt =====
-- The chain of runActiveTarget and completeDatabase.
use builder_code_bot.Prelude.{
  ℕ, zero, suc, ◌≡◌, refl, ◌⊎◌, Bool, true, Option, none, some, String, arith, inl, inr,
}
use builder_code_bot.Funding.Model.{
  Phase, SpotBalanceAmounts, RunState, ActiveTarget, SubmitResult, active_payout_target,
  active_of_target,
}
use builder_code_bot.Funding.Action.{Failure, ◌>>=◌}
use builder_code_bot.Funding.Action.Keeps.{Keeps, keeps_rules}
use builder_code_bot.Funding.Action.Leads.{Leads-modify}
use builder_code_bot.Funding.Action.Same.{
  Same, Any, Same-bind, Same-then, Same-Keeps, Same-list, same_rules,
}
use builder_code_bot.Funding.Env.{Env}
use builder_code_bot.Funding.Session.{Session, Task, current_run, now, save}
use builder_code_bot.Funding.Progress.{sync_report, save_state, complete_database}
use builder_code_bot.Funding.Payout.Evidence.{Observed}
use builder_code_bot.Funding.Payout.Settle.{confirm_payout}
use builder_code_bot.Funding.Payout.Submit.{
  settle_attempt, attempt_body, after_observation, observe_body, replay_body, submit_payout_attempt,
  submit_prepared_payout, execute_payout,
}
use builder_code_bot.Funding.Run.{
  run_fuel, Funding, after_funds, run_positive, run_target, dispatch_active, run_active_target,
}

abbrev pub IsCompleted : {A : Type 0} → Session A → Type 0
IsCompleted s = s.target.phase ≡ Phase.completed

module _ (E : Env) where
  now-IsCompleted : Keeps IsCompleted (now E)
  unfolding now
  now-IsCompleted = record { at = λ s h. h }

  save-IsCompleted : (run : RunState) → Keeps IsCompleted (save E run)
  unfolding save
  save-IsCompleted run = record { at = λ s h. h }

  save_state-IsCompleted : Keeps IsCompleted (save_state E)
  unfolding save_state
  save_state-IsCompleted = search (keeps_rules, now-IsCompleted, save-IsCompleted) depth 12

  sync_report-IsCompleted : Keeps IsCompleted (sync_report E)
  unfolding sync_report
  sync_report-IsCompleted = search keeps_rules

  pub complete_database-Same :
      (again other : Task E (Unit {0}))
      → Same IsCompleted again other
      → Same Any (complete_database E again) (complete_database E other)
  unfolding complete_database
  complete_database-Same again other k = Same-then _ _ _ λ t. Same-then _ _ _ λ _.
      Same-bind {Q = IsCompleted} _ _ _ (Leads-modify _ λ s h. refl) λ _.
        Same-Keeps _ _ _ (search keeps_rules) λ _.
          Same-Keeps _ _ _ (search (keeps_rules, save_state-IsCompleted) depth 12)
            λ _. Same-Keeps _ _ _ (sync_report-IsCompleted) λ _. k

  pub confirm_payout-Same :
      (again other : Task E (Unit {0})) (evidence : String)
      → Same IsCompleted again other
      → Same Any (confirm_payout E again evidence) (confirm_payout E other evidence)
  unfolding confirm_payout
  confirm_payout-Same again other evidence k = search (same_rules, complete_database-Same) depth 20

  pub settle_attempt-Same :
      (again other observe watch : Task E (Unit {0})) (exact : Bool) (r : SubmitResult)
      (e : Option Failure)
      → Same IsCompleted again other
      → Same Any observe watch
      → Same Any (settle_attempt E again observe exact r e) (settle_attempt E other watch exact r e)
  unfolding settle_attempt
  settle_attempt-Same again other observe watch exact r (some e) k o = o
  settle_attempt-Same again other observe watch exact r none k o =
      search (same_rules, confirm_payout-Same)

  pub attempt_body-Same :
      (again other observe watch : Task E (Unit {0})) (exact : Bool)
      → Same IsCompleted again other
      → Same Any observe watch
      → Same Any (attempt_body E again observe exact) (attempt_body E other watch exact)
  unfolding attempt_body
  attempt_body-Same again other observe watch exact k o =
      search (same_rules, settle_attempt-Same) depth 12

  pub after_observation-Same :
      (again other replay repeat : Task E (Unit {0})) (seen : Observed)
      → Same IsCompleted again other
      → Same Any replay repeat
      → Same Any (after_observation E again replay seen) (after_observation E other repeat seen)
  unfolding after_observation
  after_observation-Same again other replay repeat (Observed.confirmed evidence) k r =
      search confirm_payout-Same
  after_observation-Same again other replay repeat (Observed.exhausted w) k r =
      search same_rules depth 12

  pub observe_body-Same :
      (again other replay repeat : Task E (Unit {0}))
      → Same IsCompleted again other
      → Same Any replay repeat
      → Same Any (observe_body E again replay) (observe_body E other repeat)
  unfolding observe_body
  observe_body-Same again other replay repeat k r =
      search (same_rules, after_observation-Same) depth 30

  pub replay_body-Same :
      (attempt other : Task E (Unit {0}))
      → Same Any attempt other
      → Same Any (replay_body E attempt) (replay_body E other)
  unfolding replay_body
  replay_body-Same attempt other k = search same_rules depth 20

  pub submit_payout_attempt-Same :
      (fuel : ℕ) (again other : Task E (Unit {0})) (exact : Bool)
      → Same IsCompleted again other
      → Same Any
          (submit_payout_attempt E fuel again exact)
          (submit_payout_attempt E fuel other exact)
  unfolding submit_payout_attempt
  submit_payout_attempt-Same zero again other exact k = search same_rules
  submit_payout_attempt-Same (suc fuel) again other exact k =
      attempt_body-Same again other _ _ exact k (
        observe_body-Same again other _ _ k
          (replay_body-Same _ _ (submit_payout_attempt-Same fuel again other true k)))

  pub submit_prepared_payout-Same :
      (again other : Task E (Unit {0}))
      → Same IsCompleted again other
      → Same Any (submit_prepared_payout E again) (submit_prepared_payout E other)
  unfolding submit_prepared_payout
  submit_prepared_payout-Same again other k =
      search (same_rules, submit_payout_attempt-Same) depth 30

  execute_payout-Same :
      (again other : Task E (Unit {0})) (before : SpotBalanceAmounts (E.Decimal))
      (amount : E.Decimal)
      → Same IsCompleted again other
      → Same Any (execute_payout E again before amount) (execute_payout E other before amount)
  unfolding execute_payout
  execute_payout-Same again other before amount k =
      search (same_rules, submit_prepared_payout-Same) depth 40

  after_funds-Same :
      (again other : Task E (Unit {0})) (payout : E.Decimal) (f : Funding (E.Decimal))
      → Same IsCompleted again other
      → Same Any (after_funds E again payout f) (after_funds E other payout f)
  unfolding after_funds
  after_funds-Same again other payout (Funding.funded b) k =
      execute_payout-Same again other b payout k
  after_funds-Same again other payout (Funding.unfunded f) k = search same_rules

  run_positive-Same :
      (again other : Task E (Unit {0}))
      → Same IsCompleted again other
      → Same Any (run_positive E again) (run_positive E other)
  unfolding run_positive
  run_positive-Same again other k = search (same_rules, after_funds-Same) depth 20

  run_target-Same :
      (again other : Task E (Unit {0}))
      → Same IsCompleted again other
      → Same Any (run_target E again) (run_target E other)
  unfolding run_target
  run_target-Same again other k = Same-then _ _ _ λ t.
      Same-list t.manifest.records _ _ _ _ (search (same_rules, complete_database-Same) depth 12)
        λ r rs. search (same_rules, complete_database-Same, run_positive-Same) depth 12

  -- A run whose target is completed has no active target.
  pub no_target :
      (s : Session (E.Decimal))
      → IsCompleted s
      → (active_payout_target (current_run s) ≡ ActiveTarget.unsupported)
        ⊎ (active_payout_target (current_run s) ≡ ActiveTarget.all_completed)
  unfolding active_payout_target active_of_target current_run
  no_target s h = ground arith

  dispatch_active-Same :
      (again other : Task E (Unit {0})) (a : ActiveTarget)
      → Same IsCompleted again other
      → Same Any (dispatch_active E again a) (dispatch_active E other a)
  unfolding dispatch_active
  dispatch_active-Same again other ActiveTarget.unsupported k = search same_rules
  dispatch_active-Same again other ActiveTarget.all_completed k = search same_rules
  dispatch_active-Same again other (ActiveTarget.active t) k = run_target-Same again other k

  second_round : (n : ℕ) → Same IsCompleted (run_active_target E (suc n)) (run_active_target E 1)
  unfolding run_active_target dispatch_active ◌>>=◌
  second_round n = record {
    at = λ s h. elim (no_target s h) [ inl q ↦ rw q refl | inr q ↦ rw q refl ];
  }

  -- Two rounds of runActiveTarget are enough: with any larger bound it does the same, from every state
  -- and in every environment, so the bound is never reached.
  pub run_active_target_enough :
      (n : ℕ) (s : Session (E.Decimal))
      → run_active_target E (suc (suc n)) s ≡ run_active_target E run_fuel s
  unfolding run_active_target
  run_active_target_enough n s =
      (Same-then _ _ _
          λ run. dispatch_active-Same _ _ (active_payout_target run) (second_round n)).at
        s tt
