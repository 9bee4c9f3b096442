-- ===== src/Funding/Consolidation/Settled.antt =====
-- The balance that a sweep sends: loadSweepBalance of internal/funding/orchestrator.go.
use builder_code_bot.Prelude.{
  ℕ, suc, ◌≡◌, refl, Bool, true, false, Option, none, some, List, [], ◌∷◌, String, leb, arith,
}
use builder_code_bot.Funding.Model.{Token, SpotBalanceAmounts}
use builder_code_bot.Funding.Action.{Result, ok, Action, on_result, ◌>>=◌}
use builder_code_bot.Funding.Action.Gives.{Gives}
use builder_code_bot.Funding.Env.{Effect, History, Env}
use builder_code_bot.Funding.Session.{Session, Task, sleep, spot_balance}
use builder_code_bot.Funding.Run.{same_spot_balance}
use builder_code_bot.Funding.Consolidation.Baselines.{Repeat, repeat_balance}
use builder_code_bot.Funding.Consolidation.Observe.{record_builder_balance}
use builder_code_bot.Funding.Consolidation.Sweep.{load_sweep_balance, below_minimum}
use builder_code_bot.Prelude.Dict.{Dict}

-- The balance queries, the latest one first, with the accounts that they are about.
abbrev pub reads : {A : Type 0} → History A → List (String × Result (SpotBalanceAmounts A))
reads [] = []
reads (Effect.read_balance a r ∷ h) = (a, r) ∷ reads h
reads (e ∷ h) = reads h

module _ (E : Env) (token : Token) (b : String) where
  open E use {Decimal}

  abbrev Reads : Type 0
  Reads = List (String × Result (SpotBalanceAmounts Decimal))

  -- The two latest queries are about the builder and gave the same balance, which is not below the
  -- minimum.
  pub record IsSettled (x : SpotBalanceAmounts Decimal) (minimum : Option Decimal) (l : Reads)
      : Type 0 where
    pub before : SpotBalanceAmounts Decimal
    pub earlier : Reads
    pub latest : l ≡ (b, ok x) ∷ (b, ok before) ∷ earlier
    pub same_total : E.equal x.total before.total ≡ true
    pub same_available : E.equal x.available before.available ≡ true
    pub not_below : (m : Decimal) → minimum ≡ some m → E.less_than x.total m ≡ false

  abbrev Seen : Option (Repeat Decimal) → Reads → Type 0
  Seen none l = Unit {0}
  Seen (some r) l = (r.times ≡ 1) × ((k : Reads) × (l ≡ (b, ok r.candidate) ∷ k))

  abbrev On : (Reads → Type 0) → Session Decimal → Type 0
  On K s = K (reads s.history)

  abbrev Answered : Option (Repeat Decimal) → Result (SpotBalanceAmounts Decimal) → Reads → Type 0
  Answered seen r l = (k : Reads) × ((l ≡ (b, r) ∷ k) × Seen seen k)

  module _ (minimum : Option Decimal) where
    abbrev Settles : Task E (SpotBalanceAmounts Decimal) → (Reads → Type 0) → Type 0
    Settles m K = Gives (On K) m (λ x s. On (IsSettled x minimum) s)

  -- The total that the observation of the builder's claim has ended with, where it has converged and
  -- no request of the sweep is in doubt.
  abbrev pub known_floor :
      Bool → Option Decimal → Option (SpotBalanceAmounts Decimal) → Option Decimal
  known_floor false none (some y) = some y.total
  known_floor false none none = none
  known_floor false (some _) y = none
  known_floor true ambiguous y = none

  -- If every query about the builder gives one balance, which equals itself and is not below the
  -- minimum, and no sleep is interrupted, then two attempts and more return that balance.
  pub load_sweep_balance_returns :
      (minimum : Option Decimal) (left : ℕ) (x : SpotBalanceAmounts Decimal) (s : Session Decimal)
      → ((h : History Decimal) → E.spot_balance h b token ≡ ok x)
      → ((h : History Decimal) (ms : ℕ) → E.sleep h ms ≡ none)
      → same_spot_balance E x (some x) ≡ true
      → below_minimum E minimum x.total ≡ false
      → (load_sweep_balance E token b minimum (suc (suc left)) none none s).0 ≡ ok x
  unfolding load_sweep_balance spot_balance sleep record_builder_balance repeat_balance on_result
      ◌>>=◌
  load_sweep_balance_returns minimum left x s answers sleeps same floor =
      let more : leb 1 (suc left) ≡ true = ground arith in
      rw (answers s.history, floor, more, sleeps, answers, floor, same) refl
