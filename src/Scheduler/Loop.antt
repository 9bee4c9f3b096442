-- ===== src/Scheduler/Loop.antt =====
-- Scheduler.Run. A turn of its loop is what the clock, the timer, the context and the callbacks answer
-- in it. The checks for nil arguments before the loop are Go's alone.
use builder_code_bot.Prelude.{
  ℕ, zero, suc, ◌+◌, ◌≤◌, ◌≡◌, refl, Bool, true, false, Option, none, some, List, [], ◌∷◌, length,
  All, ap, ◌∙◌, subst, ltb, leb, if◌then◌else◌, arith,
}
use builder_code_bot.Funding.Action.{Failure, is_fatal}
use builder_code_bot.Scheduler.Calendar.{Task, next_scheduled_task_utc}

abbrev pub max_nonfatal_retries : ℕ
max_nonfatal_retries = 5

abbrev pub nonfatal_retry_delay : ℕ
nonfatal_retry_delay = 60000000000

-- `context` is ctx.Err() at the head of the loop; `done` is `none` if the timer fired and the error of
-- the context if that was done first; `outcome` is what the callback returns and `context_after` is
-- ctx.Err() after it.
pub record Turn : Type 0 where
  pub context : Option Failure
  pub now : ℕ
  pub timer_ready : Bool
  pub done : Option Failure
  pub outcome : Option Failure
  pub context_after : Option Failure

pub data Event : Type 0 where
  waited : Task → ℕ → Event
  ran : Task → ℕ → Event
  failed : Task → Failure → Event

pub data Stop : Type 0 where
  stopped : Failure → Stop
  exhausted : ℕ → Failure → Stop

-- the retries with which the loop goes on, or the end
pub data Step : Type 0 where
  again : ℕ → Step
  stop : Stop → Step

unfoldable pub task_at : ℕ → ℕ → Task × ℕ
task_at zero now = next_scheduled_task_utc now
task_at (suc retries) now = (Task.funding, now + nonfatal_retry_delay)

after_funding : Turn → ℕ → List Event → Step × List Event
after_funding t retries log = elim t.outcome [
  | none ↦ (Step.again 0, log)
  | some e ↦ elim t.context_after [
    | some x ↦ (Step.stop (Stop.stopped x), log)
    | none ↦
        if is_fatal e
        then (Step.stop (Stop.stopped e), Event.failed Task.funding e ∷ log)
        else if leb max_nonfatal_retries retries
        then (Step.stop (Stop.exhausted retries e), Event.failed Task.funding e ∷ log)
        else (Step.again (suc retries), Event.failed Task.funding e ∷ log)
  ]
]

after_consolidation : Turn → ℕ → List Event → Step × List Event
after_consolidation t retries log = elim t.outcome [
  | none ↦ (Step.again retries, log)
  | some e ↦ elim t.context_after [
    | some x ↦ (Step.stop (Stop.stopped x), log)
    | none ↦ (Step.again retries, Event.failed Task.consolidation e ∷ log)
  ]
]

run_task : Task → Turn → ℕ → List Event → Step × List Event
unfolding after_funding after_consolidation
run_task Task.consolidation t retries log = after_consolidation t retries log
run_task Task.funding t retries log = after_funding t retries log

wait : Turn → ℕ → List Event → Task × ℕ → Step × List Event
unfolding run_task
wait t retries log (task, at) =
    if ltb at t.now
    then (Step.stop (Stop.stopped (Failure.plain "next scheduled run precedes current time")), log)
    else elim t.timer_ready [
      | false ↦ (Step.stop (Stop.stopped (Failure.plain "scheduler timer is not initialized")), log)
      | true ↦ elim t.done [
        | some e ↦ (Step.stop (Stop.stopped e), Event.waited task at ∷ log)
        | none ↦ run_task task t retries (Event.ran task at ∷ Event.waited task at ∷ log)
      ]
    ]

unfoldable pub turn : Turn → ℕ → List Event → Step × List Event
unfolding wait task_at
turn t retries log = elim t.context [
  | some e ↦ (Step.stop (Stop.stopped e), log)
  | none ↦ wait t retries log (task_at retries t.now)
]

-- The loop over the turns that there are; it goes on after the last of them.
unfoldable pub run : List Turn → ℕ → List Event → Step × List Event
unfolding turn
run [] retries log = (Step.again retries, log)
run (t ∷ ts) retries log =
    let (s, log') = turn t retries log in
    elim s [ Step.again n ↦ run ts n log' | Step.stop x ↦ (Step.stop x, log') ]

-- A retry that may go on is one of the five.
abbrev pub IsBounded : Step → Type 0
IsBounded (Step.again n) = n ≤ max_nonfatal_retries
IsBounded (Step.stop (Stop.stopped e)) = Unit {0}
IsBounded (Step.stop (Stop.exhausted n e)) = n ≡ max_nonfatal_retries

turn-IsBounded :
    (t : Turn) (retries : ℕ) (log : List Event)
    → retries ≤ max_nonfatal_retries
    → IsBounded (turn t retries log).0
unfolding turn
turn-IsBounded t retries log h = ground arith

IsBounded-after :
    (s : Step) (log : List Event) (ts : List Turn)
    → IsBounded s
    → ((n : ℕ) (log : List Event) → n ≤ max_nonfatal_retries → IsBounded (run ts n log).0)
    → IsBounded
        (elim s as (λ _. Step × List Event) [
          | Step.again n ↦ run ts n log
          | Step.stop x ↦ (Step.stop x, log)
        ]).0
IsBounded-after (Step.again n) log ts h k = k n log h
IsBounded-after (Step.stop x) log ts h k = h

-- However many turns the loop makes, it never counts more than five retries, and it gives up with the
-- exhausted error exactly at the fifth.
pub run-IsBounded :
    (ts : List Turn) (retries : ℕ) (log : List Event)
    → retries ≤ max_nonfatal_retries
    → IsBounded (run ts retries log).0
unfolding run
run-IsBounded [] retries log h = h
run-IsBounded (t ∷ ts) retries log h =
    IsBounded-after (turn t retries log).0 (turn t retries log).1 ts
      (turn-IsBounded t retries log h) λ n l q. run-IsBounded ts n l q

-- The callback fails with an error that is not fatal, and nothing is cancelled.
pub record IsFailing (t : Turn) : Type 0 where
  pub error : Failure
  pub runs : t.context ≡ none
  pub ready : t.timer_ready ≡ true
  pub fires : t.done ≡ none
  pub fails : t.outcome ≡ some error
  pub nonfatal : is_fatal error ≡ false
  pub alive : t.context_after ≡ none

failing_turn :
    (t : Turn) (retries : ℕ) (log : List Event) (f : IsFailing t)
    → suc retries ≤ 4
    → (turn t (suc retries) log).0 ≡ Step.again (suc (suc retries))
unfolding turn
failing_turn t retries log f h =
    ground (arith, f.runs, f.ready, f.fires, f.fails, f.nonfatal, f.alive)

last_turn :
    (t : Turn) (log : List Event) (f : IsFailing t)
    → (turn t 5 log).0 ≡ Step.stop (Stop.exhausted 5 f.error)
unfolding turn
last_turn t log f = ground (arith, f.runs, f.ready, f.fires, f.fails, f.nonfatal, f.alive)

after_last :
    (s : Step) (log : List Event) (ts : List Turn) (x : Stop)
    → s ≡ Step.stop x
    → (elim s as (λ _. Step × List Event) [
      | Step.again n ↦ run ts n log
      | Step.stop x ↦ (Step.stop x, log)
    ]).0
      ≡ Step.stop x
after_last s log ts x e = rw e refl

after_retry :
    (s : Step) (log : List Event) (ts : List Turn) (n : ℕ)
    → s ≡ Step.again n
    → (elim s as (λ _. Step × List Event) [
      | Step.again n ↦ run ts n log
      | Step.stop x ↦ (Step.stop x, log)
    ])
      ≡ run ts n log
after_retry s log ts n e = rw e refl

-- A scheduled funding task that has failed already, and fails again each time it is retried, with
-- errors that are not fatal, is retried until five retries are used, and then the loop ends with the
-- exhausted error: it neither goes on for ever nor gives up earlier.
pub run_exhausted :
    (ts : List Turn) (retries : ℕ) (log : List Event)
    → All IsFailing ts
    → suc retries ≤ max_nonfatal_retries
    → suc retries + length ts ≡ 6
    → (e : Failure) × ((run ts (suc retries) log).0 ≡ Step.stop (Stop.exhausted 5 e))
unfolding run
run_exhausted [] retries log f b h = (Failure.canceled, ground arith)
run_exhausted (t ∷ []) retries log f b h =
    let q : 5 ≡ suc retries = omega (arith, h) in
    (
      f.0.error,
      after_last _ _ [] _ (
          subst (λ r. (turn t r log).0 ≡ Step.stop (Stop.exhausted 5 f.0.error)) q
            (last_turn t log f.0)),
    )
run_exhausted (t ∷ u ∷ ts) retries log f b h =
    let (e, q) =
      run_exhausted (u ∷ ts) (suc retries) (turn t (suc retries) log).1 f.1 (omega (arith, h))
        (omega (arith, h)) in
    (
      e,
      ap (λ x. x.0) (after_retry _ _ (u ∷ ts) _ (failing_turn t retries log f.0 (omega (arith, h))))
          ∙ q,
    )
