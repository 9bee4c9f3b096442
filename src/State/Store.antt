-- ===== src/State/Store.antt =====
-- internal/state/store.go: two snapshots that rotate, and the archive. The file system is the
-- language's `os` package: each call that can fail has an answer in `Faults`, and `points` lists the
-- two snapshots as they stood after each change, the latest first: where a process may have stopped.
pub mod Recovery
pub mod Clearing
use builder_code_bot.Prelude.{
  ℕ, ◌%◌, Bool, true, false, ◌&&◌, Option, none, some, List, [], ◌∷◌, String, ◌==◌, if◌then◌else◌,
}
use builder_code_bot.Prelude.Text.{text_eq, ◌+++◌}
use builder_code_bot.Funding.Action.{
  Failure, Result, ok, err, panic, of_error, Action, pure, raise, crash, gets, lift, on_error,
  capture, modify, when, handle_result, ◌>>=◌, ◌>>◌,
}
use builder_code_bot.State.Envelope.{Codec, marshal_envelope, unmarshal_envelope}

-- What os.Stat and os.ReadFile say of a path. `perm` is info.Mode().Perm().
pub data File : Type 0 where
  missing : File
  unreadable : Failure → File
  node : (regular : Bool) → (perm : ℕ) → (bytes : Result (List ℕ)) → File

-- loadSnapshot: its state, whether the file exists and its error.
pub data Snapshot (S : Type 0) : Type 0 where
  absent : Snapshot S
  valid : S → Snapshot S
  invalid : Failure → Snapshot S

-- `temp` holds the bytes of the temporary file, while there is one.
pub record Disk : Type 0 where
  pub current : File
  pub backup : File
  pub temp : Option (List ℕ)
  pub archived : List (String × List ℕ)
  pub points : List (File × File)

-- The answers of the context and of `os` during one operation; `none` is a nil error. A removal of a
-- file that does not exist has no error here.
pub record Faults : Type 0 where
  pub context : Option Failure
  pub prepare : Option Failure
  pub prepare_history : Option Failure
  pub create : Option Failure
  pub chmod : Option Failure
  pub write : Option Failure
  pub flush : Option Failure
  pub close : Option Failure
  pub discard : Option Failure
  pub rotate : Option Failure
  pub install : Option Failure
  pub sync : Option Failure
  pub sync_history : Option Failure
  pub remove_temp : Option Failure
  pub remove_backup : Option Failure
  pub remove_current : Option Failure

abbrev private_mode : ℕ
private_mode = 384  -- 0o600

pub record LoadMetadata : Type 0 where
  pub recovered_from_backup : Bool
  pub primary_invalid : Bool
  pub primary_error : Option Failure

abbrev fresh_metadata : LoadMetadata
fresh_metadata = record {
  recovered_from_backup = false;
  primary_invalid = false;
  primary_error = none;
}

-- errors.Join of an error and another one, either of which may be nil
abbrev pub join : Option Failure → Option Failure → Option Failure
join none none = none
join (some e) none = some e
join none (some f) = some f
join (some e) (some f) = some (Failure.joined e f)

abbrev pub Storing : Type 0 → Type 0
Storing = Action Disk

-- `if err := call; err != nil { return fmt.Errorf(text, err) }`
abbrev pub try : String → Option Failure → Storing (Unit {0})
try text e = on_error (lift (of_error e)) λ x. raise (Failure.wrapped text x)

-- A change of the two snapshots.
abbrev pub change : (Disk → Disk) → Storing (Unit {0})
change f = modify (λ d. let d' = f d in record d' { points = (d'.current, d'.backup) ∷ d'.points })

unfoldable pub rotate_files : Disk → Disk
rotate_files d = record d { current = File.missing; backup = d.current }

unfoldable pub install_files : Disk → Disk
install_files d = elim d.temp [
  | none ↦ d
  | some bytes ↦ record d { current = File.node true private_mode (ok bytes); temp = none }
]

-- validateFilenamePart's test of a text without separators; `safe` is !strings.ContainsAny(…).
unfoldable pub validate_filename_part : (String → Bool) → String → String → Option Failure
validate_filename_part safe name value =
    if text_eq value ""
    then some (Failure.plain name)
    else if text_eq value "."
    then some (Failure.plain name)
    else if text_eq value ".."
    then some (Failure.plain name)
    else if safe value
    then none
    else some (Failure.plain name)

module _ {S : Type 0} (C : Codec S) where
  unfoldable pub load_bytes : Result (List ℕ) → Snapshot S
  load_bytes (err e) = Snapshot.invalid e
  load_bytes panic = Snapshot.invalid (Failure.plain "panic")
  load_bytes (ok bytes) = elim (unmarshal_envelope C bytes) [
    | ok state ↦ Snapshot.valid state
    | err e ↦ Snapshot.invalid e
    | panic ↦ Snapshot.invalid (Failure.plain "panic")
  ]

  -- No bit of 0o077 may be set: the lowest six bits of the mode are zero.
  unfoldable pub load_snapshot : File → Snapshot S
  unfolding load_bytes
  load_snapshot File.missing = Snapshot.absent
  load_snapshot (File.unreadable e) = Snapshot.invalid e
  load_snapshot (File.node false perm bytes) =
      Snapshot.invalid (Failure.plain "snapshot is not a regular file")
  load_snapshot (File.node true perm bytes) =
      if perm % 64 == 0
      then load_bytes bytes
      else Snapshot.invalid (Failure.plain "snapshot permissions allow group or other access")

  -- LoadWithMetadata, from what loadSnapshot returns of the two files
  unfoldable pub load_of : Snapshot S → Snapshot S → Result (Option S × LoadMetadata)
  load_of (Snapshot.valid state) backup = ok (some state, fresh_metadata)
  load_of Snapshot.absent (Snapshot.valid state) = ok (
    some state,
    record { recovered_from_backup = true; primary_invalid = false; primary_error = none },
  )
  load_of (Snapshot.invalid e) (Snapshot.valid state) = ok (
    some state,
    record {
      recovered_from_backup = true;
      primary_invalid = true;
      primary_error = some (Failure.wrapped "load current.json" e);
    },
  )
  load_of Snapshot.absent Snapshot.absent = ok (none, fresh_metadata)
  load_of (Snapshot.invalid e) (Snapshot.invalid f) = err (Failure.plain "load snapshots")
  load_of (Snapshot.invalid e) Snapshot.absent = err (Failure.wrapped "load current.json" e)
  load_of Snapshot.absent (Snapshot.invalid f) = err (Failure.wrapped "load current.json.bak" f)

  unfoldable pub load_with_metadata :
      Option Failure → File × File → Result (Option S × LoadMetadata)
  unfolding load_snapshot load_of
  load_with_metadata (some e) files = err e
  load_with_metadata none (current, backup) = load_of (load_snapshot current) (load_snapshot backup)

  module _ (F : Faults) where
    -- what the deferred close and removal make of the error of the steps before
    unfoldable pub after_temp : Result (List ℕ) → Storing (Unit {0})
    after_temp (ok bytes) = elim F.close [
      | none ↦ modify (λ d. record d { temp = some bytes })
      | some e ↦ lift (of_error (join (some e) F.discard))
    ]
    after_temp (err e) = lift (of_error (join (join (some e) F.close) F.discard))
    after_temp panic = crash

    abbrev pub steps : Result (List ℕ) → Result (List ℕ)
    steps r = elim F.chmod [
      | some e ↦ err e
      | none ↦ elim r [
        | err e ↦ err e
        | panic ↦ panic
        | ok bytes ↦ elim (F.write) [
          | some e ↦ err e
          | none ↦ elim F.flush [ some e ↦ err e | none ↦ ok bytes ]
        ]
      ]
    ]

    -- writeSyncedEnvelopeTemp
    unfoldable pub write_temp : String → S → Storing (Unit {0})
    unfolding after_temp
    write_temp text state = do
      try text F.create
      on_error (after_temp (steps (marshal_envelope C state))) λ e. raise (Failure.wrapped text e)

    -- The current snapshot is rotated if it is valid; one that is invalid is replaced only under a
    -- valid backup.
    unfoldable pub make_room : Snapshot S → Snapshot S → Storing (Unit {0})
    unfolding rotate_files
    make_room (Snapshot.valid _) backup = do
      try "rotate current snapshot to backup" F.rotate
      change rotate_files
    make_room Snapshot.absent backup = pure tt
    make_room (Snapshot.invalid e) (Snapshot.valid _) = pure tt
    make_room (Snapshot.invalid e) Snapshot.absent =
        raise
          (Failure.wrapped "refuse to replace invalid current snapshot without a valid backup" e)
    make_room (Snapshot.invalid e) (Snapshot.invalid f) = raise (
        Failure.wrapped "refuse to replace invalid current snapshot without a valid backup"
          (Failure.joined e f))

    unfoldable pub install_current : Storing (Unit {0})
    unfolding make_room install_files
    install_current = do
      d ← gets (λ d. d)
      make_room (load_snapshot d.current) (load_snapshot d.backup)
      try "install current snapshot" F.install
      change install_files
      try "sync state directory" F.sync

    -- the deferred removal of the temporary file, whose error joins that of the steps before
    unfoldable pub after_defer : Result (Unit {0}) → Storing (Unit {0})
    after_defer (ok _) = lift (of_error F.remove_temp)
    after_defer (err e) = lift (of_error (join (some e) F.remove_temp))
    after_defer panic = crash

    unfoldable pub save : S → Storing (Unit {0})
    unfolding write_temp install_current after_defer
    save state = do
      lift (of_error F.context)
      try "prepare state directory" F.prepare
      write_temp "write current snapshot temp file" state
      r ← capture install_current
      after_defer r

    install_history : String → Storing (Unit {0})
    install_history filename = do
      try "install history snapshot" F.install
      modify (λ d. elim d.temp [
        | none ↦ d
        | some bytes ↦ record d { archived = (filename, bytes) ∷ d.archived; temp = none }
      ])
      try "sync history directory" F.sync_history
      try "sync state directory" F.sync

    -- Archive of a state with this date and run id
    unfoldable pub archive :
        (safe : String → Bool) (utc_date run_id result : String) → S → Storing (Unit {0})
    unfolding validate_filename_part install_history after_defer
    archive safe utc_date run_id result state = do
      lift (of_error F.context)
      lift (of_error (validate_filename_part safe "UTC date" utc_date))
      lift (of_error (validate_filename_part safe "run ID" run_id))
      lift (of_error (validate_filename_part safe "result" result))
      try "prepare state directory" F.prepare
      try "prepare history directory" F.prepare_history
      write_temp "write history temp file" state
      r ← capture (install_history (utc_date +++ "-" +++ run_id +++ "-" +++ result +++ ".json"))
      after_defer r

    -- The backup is removed first.
    unfoldable pub clear : Storing (Unit {0})
    clear = do
      lift (of_error F.context)
      try "prepare state directory" F.prepare
      try "remove current.json.bak" F.remove_backup
      change (λ d. record d { backup = File.missing })
      try "remove current.json" F.remove_current
      change (λ d. record d { current = File.missing })
      try "sync state directory" F.sync
