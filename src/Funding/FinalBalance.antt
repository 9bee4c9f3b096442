-- ===== src/Funding/FinalBalance.antt =====
-- observeSettlementFinalBalance of internal/funding/report_observation.go.
use builder_code_bot.Prelude.{
  ℕ, zero, suc, Bool, true, false, ◌&&◌, ◌||◌, not, Option, none, some, List, [], ◌∷◌, String, ltb,
  leb, if◌then◌else◌,
}
use builder_code_bot.Prelude.Text.{trim_space, text_eq}
use builder_code_bot.Funding.Model.{Token, SpotBalanceAmounts}
use builder_code_bot.Funding.Action.{pure, gets, capture, on_result, on_option, ◌>>=◌, ◌>>◌}
use builder_code_bot.Funding.Env.{Env}
use builder_code_bot.Funding.Report.{ReportStepStatus, PayoutTargetReport, RunReport}
use builder_code_bot.Funding.Report.Update.{add_warning, bare_settlement}
use builder_code_bot.Funding.Session.{Task, sleep, canonical_usdc, spot_balance}
use builder_code_bot.Funding.Progress.{report}
use builder_code_bot.Funding.Payout.Evidence.{without_fee, with_fee}
use builder_code_bot.Funding.Consolidation.Baselines.{Repeat, repeat_balance}

abbrev final_observation_attempts : ℕ
final_observation_attempts = 5

abbrev pub final_query_attempts : ℕ
final_query_attempts = 20

abbrev final_observation_interval : ℕ
final_observation_interval = 1000

abbrev pub final_confirmations : ℕ
final_confirmations = 2

-- postPayoutBalanceBoundaries: no successful payout, one without a valid boundary, or the totals
-- that it may leave.
pub data Boundaries (A : Type 0) : Type 0 where
  not_required invalid : Boundaries A
  totals : List A → Boundaries A

-- The variables of the loop; `repeated` is `none` where consecutiveConfirmations is 0.
pub record FinalWatch (A : Type 0) : Type 0 where
  pub observed_any : Bool
  pub successful : ℕ
  pub limit : ℕ
  pub repeated : Option (Repeat A)

abbrev is_success : ReportStepStatus → Bool
is_success ReportStepStatus.success = true
is_success _ = false

reversed : List PayoutTargetReport → List PayoutTargetReport → List PayoutTargetReport
reversed acc [] = acc
reversed acc (t ∷ rest) = reversed (t ∷ acc) rest

module _ (E : Env) where
  open E use {Decimal}

  -- The boundary of one successful payout.
  boundary_of : Option Decimal → Option Decimal → Boundaries Decimal
  boundary_of (some amount) (some before) =
      let expected = without_fee E before amount in
      let charged = with_fee E before amount in
      if E.is_negative expected
      then Boundaries.invalid
      else if E.is_negative charged
      then Boundaries.totals (expected ∷ [])
      else Boundaries.totals (expected ∷ charged ∷ [])
  boundary_of (some amount) none = Boundaries.invalid
  boundary_of none before = Boundaries.invalid

  abbrev is_empty_payout : Option Decimal → Bool
  is_empty_payout none = false
  is_empty_payout (some amount) = not (E.is_positive amount)

  -- The last payout is the first of these.
  unfoldable pub payout_boundaries : List PayoutTargetReport → Boundaries Decimal
  unfolding boundary_of
  payout_boundaries [] = Boundaries.not_required
  payout_boundaries (t ∷ rest) =
      let amount = E.from_string t.payout.amount in
      let earlier = payout_boundaries rest in
      if is_success t.payout.status && not (is_empty_payout amount)
      then boundary_of amount (E.from_string t.payout.settlement_total_before)
      else earlier

  unfoldable pub matches_any : Decimal → List Decimal → Bool
  matches_any total [] = false
  matches_any total (b ∷ bs) = E.equal total b || matches_any total bs

  unfoldable pub record_final_balance : String → SpotBalanceAmounts Decimal → RunReport → RunReport
  record_final_balance settlement balance r = record r {
    settlement_balance = record (bare_settlement settlement false) {
      total = E.to_string balance.total;
      hold = E.to_string (E.sub balance.total balance.available);
      available = E.to_string balance.available;
      observed = true;
    };
  }

  unfoldable pub mark_query_failed : String → RunReport → RunReport
  mark_query_failed settlement r = add_warning "Settlement: 任务结束余额查询失败" (record r {
    settlement_balance = record (bare_settlement settlement false) { query_failed = true };
  })

  unfoldable pub mark_unconfirmed : String → String → RunReport → RunReport
  mark_unconfirmed settlement warning r =
      add_warning warning (record r { settlement_balance = bare_settlement settlement true })

  -- One balance: it repeats a total that the payout may leave, or it breaks the row. The budget
  -- grows by one where the first of a row comes at its end.
  unfoldable pub count_final :
      List Decimal → SpotBalanceAmounts Decimal → FinalWatch Decimal → FinalWatch Decimal
  unfolding matches_any
  count_final expected balance w =
      let successful = suc w.successful in
      if matches_any balance.total expected
      then (let r = repeat_balance E balance w.repeated in
          record {
            observed_any = true;
            successful = successful;
            limit =
                if ltb r.times final_confirmations
                  && (leb w.limit successful && ltb w.limit final_query_attempts)
                then suc w.limit
                else w.limit;
            repeated = some r;
          })
      else record { observed_any = true; successful = successful; limit = w.limit; repeated = none }

  abbrev confirmations : Option (Repeat Decimal) → ℕ
  confirmations none = 0
  confirmations (some r) = r.times

  -- After the loop.
  unfoldable pub final_exhausted : String → FinalWatch Decimal → Task E (Unit {0})
  final_exhausted settlement w =
      if w.observed_any
      then report E (mark_unconfirmed settlement "Settlement: Payout 后余额未在有限观察内更新，任务结束余额无法确认")
      else report E (mark_query_failed settlement)

  -- The queries that are left of `final_query_attempts`.
  unfoldable pub final_loop :
      String → Token → List Decimal → ℕ → FinalWatch Decimal → Task E (Unit {0})
  unfolding count_final final_exhausted
  final_loop settlement token expected zero w = final_exhausted settlement w
  final_loop settlement token expected (suc left) w =
      if ltb w.successful w.limit
      then (do
        slept ← capture (sleep E final_observation_interval)
        on_result slept
            (λ _. do
              answer ← capture (spot_balance E settlement token)
              on_result answer
                  (λ balance. do
                    let w' = count_final expected balance w
                    if leb final_confirmations (confirmations w'.repeated)
                        then report E (record_final_balance settlement balance)
                        else final_loop settlement token expected left w')
                  λ e. final_loop settlement token expected left (record w { repeated = none }))
            λ e. report E (mark_query_failed settlement))
      else final_exhausted settlement w

  unfoldable pub observe_boundaries : String → Token → Boundaries Decimal → Task E (Unit {0})
  unfolding final_loop
  observe_boundaries settlement token Boundaries.invalid =
      report E (mark_unconfirmed settlement "Settlement: Payout 已成功但付款后余额边界无效，任务结束余额无法确认")
  observe_boundaries settlement token Boundaries.not_required = do
    answer ← capture (spot_balance E settlement token)
    on_result answer (λ balance. report E (record_final_balance settlement balance))
        λ e. report E (mark_query_failed settlement)
  observe_boundaries settlement token (Boundaries.totals expected) =
      final_loop settlement token expected final_query_attempts (record {
        observed_any = false;
        successful = 0;
        limit = final_observation_attempts;
        repeated = none;
      })

  unfoldable pub observe_with_token : Token → Task E (Unit {0})
  unfolding observe_boundaries payout_boundaries reversed
  observe_with_token token = do
    r ← gets (λ s. s.report)
    let address = trim_space r.settlement_balance.address
    observe_boundaries (if text_eq address "" then E.settlement else address) token
        (payout_boundaries (reversed [] r.payouts))

  -- The report's token, or the one that is resolved now; `none` where the query fails.
  unfoldable pub final_token : Option Token → Task E (Option Token)
  final_token (some token) = pure (some token)
  final_token none = do
    answer ← capture (canonical_usdc E)
    on_result answer
        (λ token. do report E (λ r. record r { token = some token }); pure (some token))
        λ e. do
          report E (λ r. add_warning "Settlement: 任务结束余额查询失败" (record r {
            settlement_balance = record (r.settlement_balance) { query_failed = true };
          }))
          pure none

  unfoldable pub observe_settlement_final_balance : Task E (Unit {0})
  unfolding final_token observe_with_token
  observe_settlement_final_balance = do
    r ← gets (λ s. s.report)
    if r.settlement_balance.post_payout_unconfirmed
        then pure tt
        else (do found ← final_token r.token; on_option found (pure tt) observe_with_token)
