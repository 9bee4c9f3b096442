-- ===== src/Funding/Payout/Exhausted.antt =====
-- What has been observed when the loop of observeUncertainPayout uses up its budget.
use builder_code_bot.Prelude.{
  ℕ, zero, suc, ◌+◌, ◌≡◌, refl, ap, subst, sym, ◌∙◌, inl, inr, Bool, true, false, List, [], ◌∷◌,
  ◌++◌, String, Option, none, some, Bool-cases, ltb, leb, if◌then◌else◌, arith,
}
use builder_code_bot.Prelude.Text.{text_eq}
use builder_code_bot.Funding.Action.Gives.{
  Given, Gives, Gives-pure, Gives-crash, Gives-if, Gives-bind,
}
use builder_code_bot.Funding.Model.{Token, SpotBalanceAmounts}
use builder_code_bot.Funding.Action.{Failure, Result, ok, err, panic, pure, capture, ◌>>=◌}
use builder_code_bot.Funding.Env.{Env}
use builder_code_bot.Funding.Session.{Session, Task, sleep, spot_balance, check_context}
use builder_code_bot.Funding.Payout.Watching.{balances, given}
use builder_code_bot.Funding.Payout.Evidence.{
  observation_attempts, required_confirmations, Watch, Observed, fresh, settlement_evidence,
  count_evidence, observe_total, after_query, query, observe_round, observe_loop,
}

module _ (E : Env) (before amount : E.Decimal) where
  abbrev Answers : Type 0
  Answers = List (Result (SpotBalanceAmounts (E.Decimal)))

  -- How many of the answers are balances.
  abbrev pub successes : Answers → ℕ
  successes [] = 0
  successes (ok b ∷ l) = suc (successes l)
  successes (_ ∷ l) = successes l

  -- Every balance of the answers has this total.
  abbrev pub AllAt : Answers → Type 0
  AllAt [] = Unit {0}
  AllAt (ok b ∷ l) = (E.equal b.total before ≡ true) × AllAt l
  AllAt (_ ∷ l) = AllAt l

  -- What a watch says of the answers since these ones.
  pub record IsTally (start : Answers) (w : Watch) (l : Answers) : Type 0 where
    pub since : Answers
    pub answers : l ≡ since ++ start
    pub counted : successes since ≡ w.successful
    pub unmoved : w.all_at_before ≡ true → AllAt since

  same_count :
      (o : Option String) (w : Watch)
      → ((count_evidence E o w).successful ≡ w.successful)
        × ((count_evidence E o w).all_at_before ≡ w.all_at_before)
  unfolding count_evidence
  same_count none w = (refl, refl)
  same_count (some x) w = elim (Bool-cases (text_eq x w.last_evidence)) [
    | inl q ↦ rw q (refl, refl)
    | inr q ↦ rw q (refl, refl)
  ]

  both : (a w : Bool) → (if a then w else false) ≡ true → (a ≡ true) × (w ≡ true)
  both a w q = ground arith

  more :
      (start l : Answers) (w : Watch) (b : SpotBalanceAmounts (E.Decimal))
      → IsTally start w l
      → IsTally start (observe_total E before amount b.total w) (ok b ∷ l)
  unfolding observe_total
  more start l w b h =
      let e = same_count (settlement_evidence E b.total before amount) (record w {
        successful = w.successful + 1;
        all_at_before = if E.equal b.total before then w.all_at_before else false;
      }) in
      record {
        since = ok b ∷ h.since;
        answers = ap (λ x. ok b ∷ x) h.answers;
        counted = omega (arith, e.0, h.counted);
        unmoved = λ q. let p = both _ _ (sym (e.1) ∙ q) in (p.0, h.unmoved (p.1));
      }

  failed :
      (start l : Answers) (w : Watch) (e : Failure)
      → IsTally start w l
      → IsTally start
          (record w { confirmations = 0; query_errors = w.query_errors + 1; last_evidence = "" })
          (err e ∷ l)
  failed start l w e h = record {
    since = err e ∷ h.since;
    answers = ap (λ x. err e ∷ x) h.answers;
    counted = h.counted;
    unmoved = h.unmoved;
  }

  module _ (start : Answers) (settlement : String) (token : Token) where
    abbrev IsWatched : Watch → Session (E.Decimal) → Type 0
    IsWatched w s = IsTally start w (balances s.history)

    -- What a query's answer adds to the history, before it is counted.
    IsAnswered : Watch → Result (SpotBalanceAmounts (E.Decimal)) → Session (E.Decimal) → Type 0
    IsAnswered w r s = (l : Answers) × (balances s.history ≡ r ∷ l) × IsTally start w l

    answered :
        (w : Watch) → Gives (IsWatched w) (capture (spot_balance E settlement token)) (IsAnswered w)
    unfolding spot_balance balances IsAnswered ◌>>=◌
    answered w = record { at = λ s h. (balances s.history, refl, h) }

    checked : (P : Session (E.Decimal) → Type 0) → Gives P (check_context E) (λ _. P)
    unfolding check_context
    checked P = record { at = λ s h. given P (E.context_error s.history) s h }

    after_query-Gives :
        (w : Watch) (r : Result (SpotBalanceAmounts (E.Decimal)))
        → Gives (IsAnswered w r) (after_query E settlement token before amount r w) IsWatched
    unfolding after_query IsAnswered
    after_query-Gives w (ok b) = Gives-pure _ λ s h. rw (h.1) (more start h.0 w b h.2)
    after_query-Gives w (err e) =
        Gives-bind {Mid = λ _. IsAnswered w (err e)} _ _ (checked (IsAnswered w (err e)))
          λ _. Gives-pure _ λ s h. rw (h.1) (failed start h.0 w e h.2)
    after_query-Gives w panic = Gives-crash

    slept : (ms : ℕ) (w : Watch) → Gives (IsWatched w) (sleep E ms) (λ _. IsWatched w)
    unfolding sleep balances
    slept ms w = record { at = λ s h. given (IsWatched w) (E.sleep s.history ms) _ h }

    IsTallied : Observed → Session (E.Decimal) → Type 0
    IsTallied (Observed.confirmed evidence) s = Unit {0}
    IsTallied (Observed.exhausted w) s = IsTally start w (balances s.history)

    observe_round-Gives :
        (rest : Watch → Task E Observed) (w : Watch)
        → ((w' : Watch) → Gives (IsWatched w') (rest w') IsTallied)
        → Gives (IsWatched w) (observe_round E settlement token before amount rest w) IsTallied
    unfolding observe_round query IsTallied
    observe_round-Gives rest w k = Gives-bind _ _ (slept _ w) λ _.
        Gives-bind _ _ (Gives-bind {Mid = IsAnswered w} _ _ (answered w) λ r. after_query-Gives w r)
          λ w'.
            Gives-if (leb required_confirmations w'.confirmations)
              (pure (Observed.confirmed w'.last_evidence)) (rest w')
              (λ _. Gives-pure (Observed.confirmed w'.last_evidence) λ s h. tt) λ _. k w'

    observe_loop-Gives :
        (left : ℕ) (w : Watch)
        → Gives (IsWatched w) (observe_loop E settlement token before amount left w) IsTallied
    unfolding observe_loop IsTallied
    observe_loop-Gives zero w = Gives-pure _ λ s h. h
    observe_loop-Gives (suc left) w =
        Gives-if (ltb w.successful observation_attempts) _ (pure (Observed.exhausted w))
          (λ _. observe_round-Gives _ w λ w'. observe_loop-Gives left w') λ _. Gives-pure _ λ s h. h

    returned :
        (r : Result Observed) (s : Session (E.Decimal)) (w : Watch)
        → r ≡ ok (Observed.exhausted w)
        → Given IsTallied (r, s)
        → IsTally start w (balances s.history)
    unfolding IsTallied
    returned r s w q h = subst (λ y. Given IsTallied (y, s)) q h

  -- When the watch over the settlement balance uses up its budget, it has counted exactly the
  -- balances that its own queries returned, and if it then says that none of them has moved, each
  -- of them is equal to the balance before the payout: in every environment.
  pub observe_loop_exhausted :
      (settlement : String) (token : Token) (left : ℕ) (s : Session (E.Decimal)) (w : Watch)
      → (observe_loop E settlement token before amount left fresh s).0 ≡ ok (Observed.exhausted w)
      → IsTally
          (balances s.history)
          w
          (balances (observe_loop E settlement token before amount left fresh s).1.history)
  observe_loop_exhausted settlement token left s w q =
      returned (balances s.history) settlement token _ _ w q (
        (observe_loop-Gives (balances s.history) settlement token left fresh).at s
          (record { since = []; answers = refl; counted = refl; unmoved = λ _. tt }))
