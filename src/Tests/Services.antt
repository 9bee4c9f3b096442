-- ===== src/Tests/Services.antt =====
-- Concrete inputs for the state store, the scheduler and the nonces.
use builder_code_bot.Prelude.{
  ◌<◌, ◌⊎◌, Bool, ℕ, suc, ◌≡◌, refl, ap, subst, ◌%◌, ◌≤◌, true, none, some, List, [], ◌∷◌, All,
  arith,
}
use builder_code_bot.Funding.Action.{Failure, Result, ok, err, is_fatal}
use builder_code_bot.State.Envelope.{
  Envelope, Codec, CodecLaws, marshal_envelope, unmarshal_envelope,
  unmarshal_envelope-marshal_envelope,
}
use builder_code_bot.State.Store.{
  File, Snapshot, Disk, Faults, load_snapshot, load_with_metadata, save, clear,
}
use builder_code_bot.State.Store.Recovery.{recovered, IsFine, save_lem}
use builder_code_bot.State.Store.Clearing.{IsLatest, clear_lem, survives}
use builder_code_bot.Signing.Nonce.{NonceGenerator, nonces, IsIncreasing, nonces-IsIncreasing}
use builder_code_bot.Scheduler.Calendar.{
  Task, hour, day, IsDue, next_scheduled_task_utc, next_daily_run_utc, next_scheduled_task_utc_lem,
  next_daily_run_utc_lem,
}
use builder_code_bot.Mysql.Retry
use builder_code_bot.Scheduler.Loop.{
  Turn, Stop, Step, run, IsBounded, IsFailing, run-IsBounded, run_exhausted,
}

decode : List ℕ → Result (Envelope ℕ)
decode (v ∷ s ∷ c) = ok (record { schema_version = v; checksum = c; state = s })
decode _ = err (Failure.plain "short")

bytes_of : Result (List ℕ) → List ℕ
bytes_of (ok b) = b
bytes_of _ = []

abbrev codec : Codec ℕ
codec = record {
  encode_state = λ n. ok (n ∷ []);
  encode_envelope = λ e. ok (e.schema_version ∷ e.state ∷ e.checksum);
  decode_envelope = decode;
  checksum = λ b. 9 ∷ b;
}

codec_laws : CodecLaws codec
unfolding decode bytes_of
codec_laws = record { decoded = λ e b h. subst (λ d. decode d ≡ ok e) (ap bytes_of h) refl }

abbrev quiet : Faults
quiet = record {
  context = none;
  prepare = none;
  prepare_history = none;
  create = none;
  chmod = none;
  write = none;
  flush = none;
  close = none;
  discard = none;
  rotate = none;
  install = none;
  sync = none;
  sync_history = none;
  remove_temp = none;
  remove_backup = none;
  remove_current = none;
}

abbrev snapshot : ℕ → File
snapshot n = File.node true 384 (ok (3 ∷ n ∷ 9 ∷ n ∷ []))

abbrev disk : Disk
disk = record { current = snapshot 5; backup = snapshot 4; temp = none; archived = []; points = [] }

reads : load_snapshot codec (snapshot 5) ≡ Snapshot.valid 5
unfolding load_snapshot unmarshal_envelope decode
reads = refl

unmarshal_envelope-marshal_envelope_example : unmarshal_envelope codec (3 ∷ 5 ∷ 9 ∷ 5 ∷ []) ≡ ok 5
unfolding marshal_envelope
unmarshal_envelope-marshal_envelope_example =
    unmarshal_envelope-marshal_envelope codec codec_laws 5 (3 ∷ 5 ∷ 9 ∷ 5 ∷ []) refl

starts : recovered codec (snapshot 5, snapshot 4) ≡ some 5
unfolding load_with_metadata
starts = rw reads refl

save_lem_example : All (IsFine codec 5 6) (save codec quiet 6 disk).1.points
save_lem_example = save_lem codec codec_laws quiet 5 6 disk starts refl

clear_lem_example : All (IsLatest codec 5) (clear codec quiet disk).1.points
clear_lem_example = clear_lem codec 5 quiet disk reads refl

lost : (s : ℕ) → load_snapshot codec File.missing ≡ Snapshot.valid s → s ≡ 5
unfolding load_snapshot
lost s h = cc

survives_example :
    (recovered codec (File.missing, snapshot 5) ≡ some 5)
    × (recovered codec (snapshot 5, File.missing) ≡ some 5)
survives_example = survives codec 5 (snapshot 5) (snapshot 5) File.missing reads reads lost

abbrev generator : NonceGenerator
generator = record { last = 10 }

nonces-IsIncreasing_example : IsIncreasing 10 (nonces (12 ∷ 12 ∷ 3 ∷ []) generator)
nonces-IsIncreasing_example =
    nonces-IsIncreasing (12 ∷ 12 ∷ 3 ∷ []) generator
      (omega arith, (omega arith, (omega arith, (omega arith, tt))))

abbrev morning : ℕ
morning = 1800000000000

next_scheduled_task_utc_lem_example :
    (morning ≤ (next_scheduled_task_utc morning).1)
    × IsDue (next_scheduled_task_utc morning).0 (next_scheduled_task_utc morning).1
    × ((task : Task) (t : ℕ) → morning ≤ t → IsDue task t → (next_scheduled_task_utc morning).1 ≤ t)
next_scheduled_task_utc_lem_example = next_scheduled_task_utc_lem morning

next_daily_run_utc_lem_example :
    (suc morning ≤ next_daily_run_utc morning)
    × (next_daily_run_utc morning % day ≡ hour)
    × ((t : ℕ) → suc morning ≤ t → t % day ≡ hour → next_daily_run_utc morning ≤ t)
next_daily_run_utc_lem_example = next_daily_run_utc_lem morning

abbrev failing : Turn
failing = record {
  context = none;
  now = morning;
  timer_ready = true;
  done = none;
  outcome = some (Failure.plain "x");
  context_after = none;
}

failing-IsFailing : IsFailing failing
unfolding is_fatal
failing-IsFailing = record {
  error = Failure.plain "x";
  runs = refl;
  ready = refl;
  fires = refl;
  fails = refl;
  nonfatal = refl;
  alive = refl;
}

run-IsBounded_example : IsBounded (run (failing ∷ failing ∷ []) 0 []).0
run-IsBounded_example = run-IsBounded (failing ∷ failing ∷ []) 0 [] (omega arith)

run_exhausted_example :
    (e : Failure) × ((run (failing ∷ failing ∷ failing ∷ []) 3 []).0
      ≡ Step.stop (Stop.exhausted 5 e))
run_exhausted_example =
    run_exhausted (failing ∷ failing ∷ failing ∷ []) 2 []
      (failing-IsFailing, (failing-IsFailing, (failing-IsFailing, tt))) (omega arith) (omega arith)

abbrev transient : Retry.Turn
transient = record {
  context = none;
  result = some (Failure.external "connection");
  context_after = none;
  slept = none;
  context_late = none;
}

abbrev success : Retry.Turn
success = record {
  context = none;
  result = none;
  context_after = none;
  slept = none;
  context_late = none;
}

abbrev always : Failure → Bool
always e = true

transient-IsTransient : Retry.IsTransient always transient
transient-IsTransient = record {
  error = Failure.external "connection";
  runs = refl;
  fails = refl;
  alive = refl;
  retryable = refl;
  waits = refl;
}

run_recovers_example :
    Retry.HasRecovered 2 (Retry.run always (transient ∷ transient ∷ success ∷ []) 0 [])
run_recovers_example =
    Retry.run_recovers always (transient ∷ transient ∷ []) success []
      (transient-IsTransient, (transient-IsTransient, tt)) (record { runs = refl; succeeds = refl })

retry_delay_bounds_example :
    (Retry.retry_delay 1 ≡ 1000)
    × ((Retry.retry_delay 3 < Retry.retry_delay 4) ⊎ (4 ≤ 2))
    × (Retry.retry_delay 7 ≡ 30000)
retry_delay_bounds_example = Retry.retry_delay_bounds 2
