-- ===== src/Mysql/Retry.antt =====
-- internal/repository/mysql/retry.go: Retryer.Do. A turn of its loop is what the context, the
-- operation and the wait answer in it. The jitter scales a delay inside the wait; the base delays are
-- recorded here. Observers are told what the events say.
use builder_code_bot.Prelude.{
  ℕ, zero, suc, ◌+◌, ◌≤◌, ◌<◌, ◌≡◌, refl, ap, subst, sym, ◌∙◌, ◌⊎◌, inl, inr, Bool, true, length,
  Option, none, some, List, [], ◌∷◌, ◌++◌, All, leb, if◌then◌else◌, arith,
}
use builder_code_bot.Funding.Action.{Failure}

-- `context` is ctx.Err() before the operation, `result` the error of the operation, `context_after`
-- ctx.Err() after it, `slept` the error of the wait and `context_late` ctx.Err() after that.
pub record Turn : Type 0 where
  pub context : Option Failure
  pub result : Option Failure
  pub context_after : Option Failure
  pub slept : Option Failure
  pub context_late : Option Failure

pub data Event : Type 0 where
  retry_started : Failure → Event
  retry_progress : ℕ → Failure → Event
  waited : ℕ → Event
  recovered : ℕ → Event

-- Still retrying after this many failures, or returned.
pub data Step : Type 0 where
  again : ℕ → Step
  returned : Option Failure → Step

abbrev retry_delays : List ℕ
retry_delays = 1000 ∷ 2000 ∷ 5000 ∷ 10000 ∷ 30000 ∷ []

delay_at : ℕ → List ℕ → ℕ
delay_at i [] = 0
delay_at zero (d ∷ ds) = d
delay_at (suc i) (d ∷ ds) = delay_at i ds

-- The base delay after this many failures, of which there is at least one: the last one serves for
-- all that follow.
unfoldable pub retry_delay : ℕ → ℕ
unfolding delay_at
retry_delay zero = 0
retry_delay (suc index) =
    if leb 5 index then delay_at 4 retry_delays else delay_at index retry_delays

unfoldable pub told : ℕ → Failure → Event
told zero e = Event.retry_started e
told (suc n) e = Event.retry_progress (suc (suc n)) e

unfoldable pub succeeded : ℕ → List Event → Step × List Event
succeeded zero log = (Step.returned none, log)
succeeded (suc n) log = (Step.returned none, Event.recovered (suc n) ∷ log)

after_wait : Turn → ℕ → List Event → Step × List Event
after_wait t failures log = elim t.slept [
  | none ↦ (Step.again failures, log)
  | some e ↦ elim t.context_late [
    | some x ↦ (Step.returned (some x), log)
    | none ↦ (Step.returned (some e), log)
  ]
]

-- The delays of a log, and the failures that its recoveries name, the latest first.
abbrev pub waits : List Event → List ℕ
waits [] = []
waits (Event.waited d ∷ log) = d ∷ waits log
waits (e ∷ log) = waits log

abbrev pub recoveries : List Event → List ℕ
recoveries [] = []
recoveries (Event.recovered n ∷ log) = n ∷ recoveries log
recoveries (e ∷ log) = recoveries log

-- The delays after this many failures, in milliseconds, the latest first.
abbrev pub backoff : ℕ → List ℕ
backoff zero = []
backoff (suc zero) = 1000 ∷ []
backoff (suc (suc zero)) = 2000 ∷ 1000 ∷ []
backoff (suc (suc (suc zero))) = 5000 ∷ 2000 ∷ 1000 ∷ []
backoff (suc (suc (suc (suc zero)))) = 10000 ∷ 5000 ∷ 2000 ∷ 1000 ∷ []
backoff (suc n) = 30000 ∷ backoff n

abbrev pub named : ℕ → List ℕ
named zero = []
named (suc n) = suc n ∷ []

-- Do has returned without an error, after this many failures.
abbrev pub HasRecovered : ℕ → Step × List Event → Type 0
HasRecovered failures (s, log) =
    (s ≡ Step.returned none) × (waits log ≡ backoff failures) × (recoveries log ≡ named failures)

delay_is : (n : ℕ) → retry_delay (suc n) ∷ backoff n ≡ backoff (suc n)
unfolding retry_delay delay_at
delay_is zero = refl
delay_is (suc zero) = refl
delay_is (suc (suc zero)) = refl
delay_is (suc (suc (suc zero))) = refl
delay_is (suc (suc (suc (suc zero)))) = refl
delay_is (suc (suc (suc (suc (suc n))))) =
    ap (λ d. d ∷ backoff (suc (suc (suc (suc (suc n)))))) (ground arith)

module _ (is_retryable : Failure → Bool) where
  after_failure : Turn → Failure → ℕ → List Event → Step × List Event
  unfolding after_wait retry_delay told
  after_failure t e failures log = elim t.context_after [
    | some x ↦ (Step.returned (some x), log)
    | none ↦
        if is_retryable e
        then after_wait t (suc failures)
            (Event.waited (retry_delay (suc failures)) ∷ told failures e ∷ log)
        else (Step.returned (some e), log)
  ]

  unfoldable pub turn : Turn → ℕ → List Event → Step × List Event
  unfolding after_failure succeeded
  turn t failures log = elim t.context [
    | some e ↦ (Step.returned (some e), log)
    | none ↦ elim t.result [
      | none ↦ succeeded failures log
      | some e ↦ after_failure t e failures log
    ]
  ]

  -- Retryer.Do, over the turns that there are; it goes on after the last of them.
  unfoldable pub run : List Turn → ℕ → List Event → Step × List Event
  unfolding turn
  run [] failures log = (Step.again failures, log)
  run (t ∷ ts) failures log =
      let (s, log') = turn t failures log in
      elim s [ Step.again n ↦ run ts n log' | Step.returned e ↦ (Step.returned e, log') ]

  -- The operation fails with an error that is retried, and nothing is cancelled.
  pub record IsTransient (t : Turn) : Type 0 where
    pub error : Failure
    pub runs : t.context ≡ none
    pub fails : t.result ≡ some error
    pub alive : t.context_after ≡ none
    pub retryable : is_retryable error ≡ true
    pub waits : t.slept ≡ none

  pub record IsSuccessful (t : Turn) : Type 0 where
    pub runs : t.context ≡ none
    pub succeeds : t.result ≡ none

  -- What a transient failure adds to the log.
  after_transient : Failure → ℕ → List Event → List Event
  unfolding retry_delay told
  after_transient e failures log = Event.waited (retry_delay (suc failures)) ∷ told failures e ∷ log

  transient_turn :
      (t : Turn) (failures : ℕ) (log : List Event)
      → (h : IsTransient t)
      → turn t failures log ≡ (Step.again (suc failures), after_transient h.error failures log)
  unfolding turn after_transient after_wait
  transient_turn t failures log h = rw (h.runs, h.fails, h.alive, h.retryable, h.waits) refl

  success_turn :
      (t : Turn) (failures : ℕ) (log : List Event)
      → IsSuccessful t
      → turn t failures log ≡ succeeded failures log
  unfolding turn
  success_turn t failures log h = rw (h.runs, h.succeeds) refl

  waited_after :
      (e : Failure) (failures : ℕ) (log : List Event)
      → waits (after_transient e failures log) ≡ retry_delay (suc failures) ∷ waits log
  unfolding after_transient told
  waited_after e zero log = refl
  waited_after e (suc n) log = refl

  recovered_after :
      (e : Failure) (failures : ℕ) (log : List Event)
      → recoveries (after_transient e failures log) ≡ recoveries log
  unfolding after_transient told
  recovered_after e zero log = refl
  recovered_after e (suc n) log = refl

  -- The log's delays are those of this many failures, and there is no recovery in it.
  abbrev Pending : ℕ → List Event → Type 0
  Pending failures log = (waits log ≡ backoff failures) × (recoveries log ≡ [])

  ended :
      (failures : ℕ) (log : List Event)
      → Pending failures log
      → HasRecovered failures (succeeded failures log)
  unfolding succeeded
  ended zero log (w, r) = (refl, w, r)
  ended (suc n) log (w, r) = (refl, w, ap (λ l. suc n ∷ l) r)

  -- What Do does after a turn.
  abbrev resume : List Turn → Step × List Event → Step × List Event
  resume ts x = elim x.0 [ Step.again n ↦ run ts n x.1 | Step.returned e ↦ (Step.returned e, x.1) ]

  run_first :
      (t : Turn) (ts : List Turn) (failures : ℕ) (log : List Event)
      → run (t ∷ ts) failures log ≡ resume ts (turn t failures log)
  unfolding run
  run_first t ts failures log = refl

  resumed :
      (ts : List Turn) (failures : ℕ) (log : List Event)
      → resume ts (succeeded failures log) ≡ succeeded failures log
  unfolding succeeded
  resumed ts zero log = refl
  resumed ts (suc n) log = refl

  recovers :
      (ts : List Turn) (t : Turn) (rest : List Turn) (failures : ℕ) (log : List Event)
      → All IsTransient ts
      → IsSuccessful t
      → Pending failures log
      → HasRecovered (length ts + failures) (run (ts ++ t ∷ rest) failures log)
  recovers [] t rest failures log h q p =
      let returns =
        run_first t rest failures log
        ∙ (ap (resume rest) (success_turn t failures log q) ∙ resumed rest failures log) in
      subst (λ n. HasRecovered n (run (t ∷ rest) failures log)) (omega arith)
        (subst (HasRecovered failures) (sym returns) (ended failures log p))
  recovers (u ∷ ts) t rest failures log h q (w, r) =
      let first =
        run_first u (ts ++ t ∷ rest) failures log
        ∙ ap (resume (ts ++ t ∷ rest)) (transient_turn u failures log h.0) in
      subst (HasRecovered (suc (length ts) + failures)) (sym first) (
        subst
          (λ n.
            HasRecovered n
              (run (ts ++ t ∷ rest) (suc failures) (after_transient h.0.error failures log)))
          (omega arith)
          (recovers ts t rest (suc failures) (after_transient h.0.error failures log) h.1 q (
            waited_after h.0.error failures log
                ∙ (ap (λ l. retry_delay (suc failures) ∷ l) w ∙ delay_is failures),
            recovered_after h.0.error failures log ∙ r,
          )))

  -- However many transient failures come first, Do returns without an error at the first attempt that
  -- succeeds: by then it has waited once after each of the failures, with base delays of one, two,
  -- five and ten seconds and of half a minute from the fifth failure on, and it has reported a
  -- recovery that names the number of failures if there was one.
  pub run_recovers :
      (ts : List Turn) (t : Turn) (rest : List Turn)
      → All IsTransient ts
      → IsSuccessful t
      → HasRecovered (length ts) (run (ts ++ t ∷ rest) 0 [])
  unfolding retry_delay
  run_recovers ts t rest h q =
      subst (λ n. HasRecovered n (run (ts ++ t ∷ rest) 0 [])) (omega arith)
        (recovers ts t rest 0 [] h q (refl, refl))

-- The base delay is one second after the first failure and half a minute from the fifth one on, and in
-- between each one is longer than the one before.
pub retry_delay_bounds :
    (n : ℕ)
    → (retry_delay 1 ≡ 1000)
      × ((retry_delay (suc n) < retry_delay (suc (suc n))) ⊎ (4 ≤ n))
      × (retry_delay (suc (suc (suc (suc (suc n))))) ≡ 30000)
unfolding retry_delay delay_at
retry_delay_bounds zero = (refl, inl (ground arith), refl)
retry_delay_bounds (suc zero) = (refl, inl (ground arith), ground arith)
retry_delay_bounds (suc (suc zero)) = (refl, inl (ground arith), ground arith)
retry_delay_bounds (suc (suc (suc zero))) = (refl, inl (ground arith), ground arith)
retry_delay_bounds (suc (suc (suc (suc n)))) = (refl, inr (omega arith), ground arith)
