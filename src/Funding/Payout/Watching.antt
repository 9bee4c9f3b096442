-- ===== src/Funding/Payout/Watching.antt =====
-- What has been observed when the loop of observeUncertainPayout ends in a confirmation.
use builder_code_bot.Prelude.{
  ℕ, zero, suc, ◌≤◌, ◌≡◌, refl, subst, inl, inr, true, Option, none, some, List, [], ◌∷◌, String,
  Bool-cases, ltb, leb→le, arith,
}
use text.Mathlib.TextEquality.{eq_iff}
use builder_code_bot.Prelude.Text.{text_eq}
use builder_code_bot.Funding.Action.Gives.{
  Given, Gives, Gives-pure, Gives-crash, Gives-if, Gives-bind,
}
use builder_code_bot.Funding.Model.{Token, SpotBalanceAmounts}
use builder_code_bot.Funding.Action.{
  Failure, Result, ok, err, panic, of_error, pure, capture, ◌>>=◌,
}
use builder_code_bot.Funding.Env.{Effect, History, Env}
use builder_code_bot.Funding.Session.{Session, Task, sleep, spot_balance, check_context}
use builder_code_bot.Funding.Payout.Evidence.{
  observation_attempts, Watch, Observed, fresh, settlement_evidence, count_evidence, observe_total,
  after_query, query, observe_round, observe_loop,
}

-- The answers to the balance queries, the latest first.
unfoldable pub balances : {A : Type 0} → History A → List (Result (SpotBalanceAmounts A))
balances [] = []
balances (Effect.read_balance a r ∷ h) = r ∷ balances h
balances (e ∷ h) = balances h

same : (s t : String) → text_eq s t ≡ true → s ≡ t
same s t h = (eq_iff s t).0 h

pub given :
    {S : Type 0} (Post : S → Type 0) (e : Option Failure) (s : S)
    → Post s
    → Given (λ _. Post) (of_error e, s)
given Post none s p = p
given Post (some e) s p = tt

module _ (E : Env) (before amount : E.Decimal) where
  abbrev pub evidence_of : Result (SpotBalanceAmounts (E.Decimal)) → Option String
  evidence_of (ok b) = settlement_evidence E b.total before amount
  evidence_of _ = none

  -- The latest answers, this many, all give this evidence.
  abbrev pub AllGive : ℕ → String → List (Result (SpotBalanceAmounts (E.Decimal))) → Type 0
  AllGive zero e l = Unit {0}
  AllGive (suc n) e [] = ⊥
  AllGive (suc n) e (r ∷ l) = (evidence_of r ≡ some e) × AllGive n e l

  abbrev IsCounted : Watch → Session (E.Decimal) → Type 0
  IsCounted w s = AllGive w.confirmations w.last_evidence (balances s.history)

  counted :
      (w : Watch) (o : Option String) (l : List (Result (SpotBalanceAmounts (E.Decimal))))
      (r : Result (SpotBalanceAmounts (E.Decimal)))
      → evidence_of r ≡ o
      → AllGive w.confirmations w.last_evidence l
      → AllGive (count_evidence E o w).confirmations (count_evidence E o w).last_evidence (r ∷ l)
  unfolding count_evidence
  counted w none l r e h = tt
  counted w (some x) l r e h = elim (Bool-cases (text_eq x w.last_evidence)) [
    | inl q ↦ rw q (subst (λ y. evidence_of r ≡ some y) (same x w.last_evidence q) e, h)
    | inr q ↦ rw q (e, tt)
  ]

  checked : {P : Session (E.Decimal) → Type 0} → Gives P (check_context E) (λ _ _. Unit {0})
  unfolding check_context
  checked = record { at = λ s h. given (λ _. Unit {0}) (E.context_error s.history) s tt }

  module _ (settlement : String) (token : Token) where
    -- What a query's answer adds to the history, and what the watch makes of it.
    IsAnswered : Watch → Result (SpotBalanceAmounts (E.Decimal)) → Session (E.Decimal) → Type 0
    IsAnswered w r s =
        (l : List (Result (SpotBalanceAmounts (E.Decimal)))) × (balances s.history ≡ r ∷ l)
        × AllGive w.confirmations w.last_evidence l

    answered :
        (w : Watch) → Gives (IsCounted w) (capture (spot_balance E settlement token)) (IsAnswered w)
    unfolding spot_balance balances IsAnswered ◌>>=◌
    answered w = record { at = λ s h. (balances s.history, refl, h) }

    after_query-Gives :
        (w : Watch) (r : Result (SpotBalanceAmounts (E.Decimal)))
        → Gives (IsAnswered w r) (after_query E settlement token before amount r w) IsCounted
    unfolding after_query observe_total IsAnswered
    after_query-Gives w (ok b) = Gives-pure _ λ s h. rw (h.1) (counted _ _ h.0 (ok b) refl h.2)
    after_query-Gives w (err e) =
        Gives-bind {Mid = λ _ _. Unit {0}} _ _ checked λ _. Gives-pure _ λ s h. tt
    after_query-Gives w panic = Gives-crash

    query-Gives :
        (w : Watch) → Gives (IsCounted w) (query E settlement token before amount w) IsCounted
    unfolding query
    query-Gives w = Gives-bind {Mid = IsAnswered w} _ _ (answered w) λ r. after_query-Gives w r

    slept : (ms : ℕ) (w : Watch) → Gives (IsCounted w) (sleep E ms) (λ _. IsCounted w)
    unfolding sleep balances
    slept ms w = record { at = λ s h. given (IsCounted w) (E.sleep s.history ms) _ h }

    -- A confirmation rests on the two latest answers.
    IsProven : Observed → Session (E.Decimal) → Type 0
    IsProven (Observed.confirmed evidence) s = AllGive 2 evidence (balances s.history)
    IsProven (Observed.exhausted w) s = Unit {0}

    two :
        (n : ℕ) (e : String) (l : List (Result (SpotBalanceAmounts (E.Decimal))))
        → 2 ≤ n
        → AllGive n e l
        → AllGive 2 e l
    two zero e l b h = ground arith
    two (suc zero) e l b h = ground arith
    two (suc (suc n)) e (r ∷ []) b h = (h.0, h.1)
    two (suc (suc n)) e (r ∷ q ∷ l) b h = (h.0, (h.1.0, tt))
    two (suc (suc n)) e [] b h = h

    observe_round-Gives :
        (rest : Watch → Task E Observed) (w : Watch)
        → ((w' : Watch) → Gives (IsCounted w') (rest w') IsProven)
        → Gives (IsCounted w) (observe_round E settlement token before amount rest w) IsProven
    unfolding observe_round IsProven
    observe_round-Gives rest w k = Gives-bind _ _ (slept _ w) λ _.
        Gives-bind _ _ (query-Gives w) λ w'.
          Gives-if _ _ _
            (λ q. Gives-pure _ λ s h. two w'.confirmations _ _ (leb→le 2 w'.confirmations q) h)
            λ _. k w'

    observe_loop-Gives :
        (left : ℕ) (w : Watch)
        → Gives (IsCounted w) (observe_loop E settlement token before amount left w) IsProven
    unfolding observe_loop IsProven
    observe_loop-Gives zero w = Gives-pure _ λ s h. tt
    observe_loop-Gives (suc left) w =
        Gives-if (ltb w.successful observation_attempts) _ (pure (Observed.exhausted w))
          (λ _. observe_round-Gives _ w λ w'. observe_loop-Gives left w')
          λ _. Gives-pure _ λ s h. tt

    returned :
        (r : Result Observed) (s : Session (E.Decimal)) (evidence : String)
        → r ≡ ok (Observed.confirmed evidence)
        → Given IsProven (r, s)
        → AllGive 2 evidence (balances s.history)
    unfolding IsProven
    returned r s evidence q h = subst (λ y. Given IsProven (y, s)) q h

    -- When the watch over the settlement balance ends in a confirmation, its two latest balance
    -- queries have succeeded and both have given that evidence, in every environment.
    pub observe_loop_confirmed :
        (left : ℕ) (s : Session (E.Decimal)) (evidence : String)
        → (observe_loop E settlement token before amount left fresh s).0
          ≡ ok (Observed.confirmed evidence)
        → AllGive 2 evidence
            (balances (observe_loop E settlement token before amount left fresh s).1.history)
    observe_loop_confirmed left s evidence q =
        returned _ _ evidence q ((observe_loop-Gives left fresh).at s tt)
