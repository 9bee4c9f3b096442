-- ===== src/Funding/Run/Stable.antt =====
-- The balance queries of runPositive, before a payout: internal/funding/orchestrator.go.
use builder_code_bot.Prelude.{
  ℕ, zero, suc, ◌≤◌, ◌≡◌, refl, ap, subst, sym, ◌∙◌, inl, inr, Bool, true, false, not, ◌&&◌, Option,
  none, some, List, ◌∷◌, String, Bool-cases, leb, leb→le, arith,
}
use builder_code_bot.Funding.Action.Gives.{Given, Gives, Gives-pure, Gives-crash, Gives-bind}
use builder_code_bot.Funding.Model.{Token, SpotBalanceAmounts}
use builder_code_bot.Funding.Action.{Result, ok, err, panic, pure, capture, when, ◌>>=◌, ◌>>◌}
use builder_code_bot.Funding.Env.{Env}
use builder_code_bot.Funding.Session.{Session, Task, sleep, spot_balance}
use builder_code_bot.Funding.Payout.Watching.{balances, given}
use builder_code_bot.Funding.Run.{
  Funds, Funding, no_funds, settlement_query_interval, settlement_confirmations, is_funded,
  same_spot_balance, count_balance, count_answer, query_funds,
}

module _ (E : Env) (payout : E.Decimal) where
  abbrev Answers : Type 0
  Answers = List (Result (SpotBalanceAmounts (E.Decimal)))

  -- The latest answers, this many, are balances: the first of them `c`, the later ones equal to it.
  abbrev pub Streak : SpotBalanceAmounts (E.Decimal) → ℕ → Answers → Type 0
  Streak c zero l = Unit {0}
  Streak c (suc zero) (ok b ∷ l) = b ≡ c
  Streak c (suc (suc n)) (ok b ∷ l) = (same_spot_balance E b (some c) ≡ true) × Streak c (suc n) l
  Streak c (suc n) _ = ⊥

  -- A balance that covers the payout, and that at least two queries in a row have given.
  pub record IsStable (b : SpotBalanceAmounts (E.Decimal)) (l : Answers) : Type 0 where
    pub first : SpotBalanceAmounts (E.Decimal)
    pub times : ℕ
    pub earlier : Answers
    pub latest : l ≡ ok b ∷ earlier
    pub twice : 2 ≤ times
    pub repeated : Streak first times l
    pub sufficient : E.less_than b.available payout ≡ false

  abbrev Held : Option (SpotBalanceAmounts (E.Decimal)) → ℕ → Answers → Type 0
  Held none n l = n ≡ 0
  Held (some c) n l = Streak c n l

  abbrev IsHeld : Funds (E.Decimal) → Session (E.Decimal) → Type 0
  IsHeld f s = Held f.candidate f.stable (balances s.history)

  longer :
      (c b : SpotBalanceAmounts (E.Decimal)) (n : ℕ) (l : Answers)
      → leb 1 n ≡ true
      → same_spot_balance E b (some c) ≡ true
      → Streak c n l
      → Streak c (suc n) (ok b ∷ l)
  longer c b zero l h q k = ground arith
  longer c b (suc n) l h q k = (q, k)

  extended :
      (c : Option (SpotBalanceAmounts (E.Decimal))) (n : ℕ) (b : SpotBalanceAmounts (E.Decimal))
      (l : Answers)
      → (leb 1 n && same_spot_balance E b c) ≡ true
      → Held c n l
      → Held c (suc n) (ok b ∷ l)
  unfolding same_spot_balance
  extended none n b l q h = ground arith
  extended (some c) n b l q h = longer c b n l (ground arith) (ground arith) h

  counted :
      (b : SpotBalanceAmounts (E.Decimal)) (f : Funds (E.Decimal)) (l : Answers)
      → Held f.candidate f.stable l
      → Held (count_balance E payout b f).candidate (count_balance E payout b f).stable (ok b ∷ l)
  unfolding count_balance
  counted b f l h = elim (Bool-cases (leb 1 f.stable && same_spot_balance E b f.candidate)) [
    | inl q ↦ rw q (extended f.candidate f.stable b l q h)
    | inr q ↦ rw q refl
  ]

  module _ (settlement : String) (token : Token) where
    -- What an answer adds to the history, before it is counted.
    IsAnswered :
        Funds (E.Decimal) → Result (SpotBalanceAmounts (E.Decimal)) → Session (E.Decimal) → Type 0
    IsAnswered f r s = (l : Answers) × (balances s.history ≡ r ∷ l) × Held f.candidate f.stable l

    -- The counted answer: it is the latest one, and says whether the balance is sufficient.
    record IsCounted (r : Result (SpotBalanceAmounts (E.Decimal))) (f : Funds (E.Decimal))
        (s : Session (E.Decimal)) : Type 0 where
      before : Answers
      latest : balances s.history ≡ r ∷ before
      held : Held f.candidate f.stable (r ∷ before)
      covers :
          (b : SpotBalanceAmounts (E.Decimal))
          → r ≡ ok b
          → f.last_sufficient ≡ not (E.less_than b.available payout)

    IsFunding : Funding (E.Decimal) → Session (E.Decimal) → Type 0
    IsFunding (Funding.funded b) s = IsStable b (balances s.history)
    IsFunding (Funding.unfunded f) s = Unit {0}

    answered :
        (f : Funds (E.Decimal))
        → Gives (IsHeld f) (capture (spot_balance E settlement token)) (IsAnswered f)
    unfolding spot_balance balances IsAnswered ◌>>=◌
    answered f = record { at = λ s h. (balances s.history, refl, h) }

    void : (c : Option (SpotBalanceAmounts (E.Decimal))) (l : Answers) → Held c 0 l
    void none l = refl
    void (some c) l = tt

    covered :
        (b b' : SpotBalanceAmounts (E.Decimal)) (f : Funds (E.Decimal))
        → ok b ≡ ok b'
        → (count_balance E payout b f).last_sufficient ≡ not (E.less_than b'.available payout)
    unfolding count_balance
    covered b b' f q = cc

    count_answer-Gives :
        (r : Result (SpotBalanceAmounts (E.Decimal))) (f : Funds (E.Decimal))
        → Gives (IsAnswered f r) (count_answer E payout r f) (IsCounted r)
    unfolding count_answer IsAnswered
    count_answer-Gives (ok b) f = Gives-pure _ λ s h. record {
      before = h.0;
      latest = h.1;
      held = counted b f h.0 h.2;
      covers = λ b' q. covered b b' f q;
    }
    count_answer-Gives (err e) f =
        Gives-pure _ λ s h. record {
          before = h.0;
          latest = h.1;
          held = void f.candidate _;
          covers = λ b' q. cc;
        }
    count_answer-Gives panic f = Gives-crash

    Held-Streak :
        (c : Option (SpotBalanceAmounts (E.Decimal))) (n : ℕ) (l : Answers)
        → 2 ≤ n
        → Held c n l
        → (d : SpotBalanceAmounts (E.Decimal)) × Streak d n l
    Held-Streak none n l b h = ground arith
    Held-Streak (some c) n l b h = (c, h)

    -- A balance that ends the queries.
    accepted :
        (r : Result (SpotBalanceAmounts (E.Decimal))) (f : Funds (E.Decimal))
        (b : SpotBalanceAmounts (E.Decimal))
        → is_funded E r f ≡ some b
        → (r ≡ ok b) × (f.last_sufficient ≡ true) × (leb settlement_confirmations f.stable ≡ true)
    accepted (ok a) f b q = ground arith
    accepted (err e) f b q = ground arith
    accepted panic f b q = ground arith

    enough : (x y : Bool) → y ≡ true → y ≡ not x → x ≡ false
    enough x y p q = ground arith

    stable :
        (r : Result (SpotBalanceAmounts (E.Decimal))) (f : Funds (E.Decimal))
        (b : SpotBalanceAmounts (E.Decimal)) (s : Session (E.Decimal))
        → is_funded E r f ≡ some b
        → IsCounted r f s
        → IsStable b (balances s.history)
    stable r f b s q h =
        let a = accepted r f b q in
        let n = leb→le settlement_confirmations f.stable (a.2) in
        let d = Held-Streak f.candidate f.stable (r ∷ h.before) n h.held in
        record {
          first = d.0;
          times = f.stable;
          earlier = h.before;
          latest = h.latest ∙ ap (λ x. x ∷ h.before) (a.0);
          twice = n;
          repeated = subst (Streak d.0 f.stable) (sym h.latest) d.1;
          sufficient = enough _ _ (a.1) (h.covers b (a.0));
        }

    slept :
        (f : Funds (E.Decimal)) (b : Bool)
        → Gives (IsHeld f) (when b (sleep E settlement_query_interval)) (λ _. IsHeld f)
    unfolding sleep balances ◌>>=◌
    slept f true = record {
      at = λ s h. given (IsHeld f) (E.sleep s.history settlement_query_interval) _ h;
    }
    slept f false = record { at = λ s h. h }

    -- The rest of the queries, after an answer that does not end them.
    more : (left : ℕ) (f : Funds (E.Decimal)) → Task E (Funding (E.Decimal))
    more left f =
        when (leb 1 left) (sleep E settlement_query_interval)
        >> query_funds E settlement token payout left f

    decided :
        (left : ℕ) (r : Result (SpotBalanceAmounts (E.Decimal))) (f : Funds (E.Decimal))
        (o : Option (SpotBalanceAmounts (E.Decimal)))
        → is_funded E r f ≡ o
        → Gives (IsHeld f) (more left f) IsFunding
        → Gives
            (IsCounted r f)
            (elim o as (λ _. Task E (Funding (E.Decimal))) [
              | some b ↦ pure (Funding.funded b)
              | none ↦ more left f
            ])
            IsFunding
    unfolding IsFunding
    decided left r f (some b) q k = Gives-pure _ λ s h. stable r f b s q h
    decided left r f none q k = record {
      at = λ s h. k.at s (subst (Held f.candidate f.stable) (sym h.latest) h.held);
    }

    query_funds-Gives :
        (left : ℕ) (f : Funds (E.Decimal))
        → Gives (IsHeld f) (query_funds E settlement token payout left f) IsFunding
    unfolding query_funds IsFunding more
    query_funds-Gives zero f = Gives-pure _ λ s h. tt
    query_funds-Gives (suc left) f = Gives-bind {Mid = IsAnswered f} _ _ (answered f) λ r.
        Gives-bind {Mid = IsCounted r} _ _ (count_answer-Gives r f) λ f'.
          decided left r f' _ refl
            (Gives-bind {Mid = λ _. IsHeld f'} _ _ (slept f' _) λ _. query_funds-Gives left f')

    returned :
        (r : Result (Funding (E.Decimal))) (s : Session (E.Decimal))
        (b : SpotBalanceAmounts (E.Decimal))
        → r ≡ ok (Funding.funded b)
        → Given IsFunding (r, s)
        → IsStable b (balances s.history)
    unfolding IsFunding
    returned r s b q h = subst (λ y. Given IsFunding (y, s)) q h

    -- When the balance queries before a payout end with a balance to pay from, the latest answer is
    -- that balance, it is not below the payout, and it ends a streak of at least two successful
    -- answers in a row that agree with the first of them: in every environment, for any number of
    -- queries.
    pub query_funds_funded :
        (left : ℕ) (s : Session (E.Decimal)) (b : SpotBalanceAmounts (E.Decimal))
        → (query_funds E settlement token payout left no_funds s).0 ≡ ok (Funding.funded b)
        → IsStable b (balances (query_funds E settlement token payout left no_funds s).1.history)
    query_funds_funded left s b q = returned _ _ b q ((query_funds-Gives left no_funds).at s refl)
