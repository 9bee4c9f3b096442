-- ===== src/State/Daily.antt =====
-- internal/state/daily_consolidation.go: a file for the record of each day. `os` answers as in the
-- state store, and encoding/json and crypto/sha256 are the fields of `Codec`.
pub mod Kept
pub mod Answers
use builder_code_bot.Prelude.{
  ℕ, ◌%◌, Bool, true, false, Option, none, some, List, [], ◌∷◌, String, ◌==◌, if◌then◌else◌,
}
use builder_code_bot.Prelude.Text.{text_eq, codes_eq, ◌+++◌}
use builder_code_bot.Prelude.Dict.{Dict, find_or, put}
use builder_code_bot.Decimal.{Decimals}
use builder_code_bot.Funding.Action.{
  Failure, Result, ok, err, panic, of_error, Action, pure, raise, crash, lift, on_error, capture,
  modify, ◌>>=◌, ◌>>◌,
}
use builder_code_bot.Funding.Daily.{DailyConsolidation}
use builder_code_bot.Funding.Daily.Validate.{DailyError, validate}
use builder_code_bot.State.Envelope.{Codec, Envelope, and_then}
use builder_code_bot.State.Store.{File, join}

abbrev pub daily_schema_version : ℕ
daily_schema_version = 1

-- The files of the directory by their dates, and the temporary file, while there is one.
pub record DailyDisk : Type 0 where
  pub files : Dict File
  pub temp : Option (List ℕ)

-- The answers of the context and of `os` during one save.
pub record DailyFaults : Type 0 where
  pub context : Option Failure
  pub prepare : Option Failure
  pub prepare_directory : Option Failure
  pub create : Option Failure
  pub chmod : Option Failure
  pub write : Option Failure
  pub flush : Option Failure
  pub close : Option Failure
  pub discard : Option Failure
  pub install : Option Failure
  pub sync_directory : Option Failure
  pub sync : Option Failure
  pub remove_temp : Option Failure

abbrev pub private_mode : ℕ
private_mode = 384  -- 0o600

-- `if err := call; err != nil { return fmt.Errorf(text, err) }`
abbrev pub must : String → Option Failure → Action DailyDisk (Unit {0})
must text e = on_error (lift (of_error e)) λ x. raise (Failure.wrapped text x)

-- os.Rename of the temporary file to the file of the date
unfoldable pub install_daily : String → DailyDisk → DailyDisk
install_daily utc_date d = elim d.temp [
  | none ↦ d
  | some bytes ↦ record {
    files = put utc_date (File.node true private_mode (ok bytes)) d.files;
    temp = none;
  }
]

-- `invalid` makes the error of a failed check; `is_date` is time.Parse and Format of a date.
module _ (D : Decimals) (is_date : String → Bool) (invalid : DailyError → Failure)
    (C : Codec DailyConsolidation) where
  unfoldable pub marshal_daily : DailyConsolidation → Result (List ℕ)
  unfolding and_then
  marshal_daily c = and_then "encode daily consolidation" (C.encode_state c) λ json.
      and_then "encode daily consolidation envelope"
        (C.encode_envelope
          (record { schema_version = daily_schema_version; checksum = C.checksum json; state = c }))
        ok

  abbrev pub checked : DailyConsolidation → Option DailyError → Result DailyConsolidation
  checked c none = ok c
  checked c (some e) = err (invalid e)

  check_daily : Envelope DailyConsolidation → Result DailyConsolidation
  unfolding and_then
  check_daily saved =
      and_then "encode daily consolidation for checksum" (C.encode_state saved.state) λ json.
        if codes_eq saved.checksum (C.checksum json)
        then checked saved.state (validate D is_date saved.state)
        else err (Failure.plain "daily consolidation checksum mismatch")

  unfoldable pub unmarshal_daily : List ℕ → Result DailyConsolidation
  unfolding check_daily
  unmarshal_daily bytes =
      and_then "decode daily consolidation envelope" (C.decode_envelope bytes) λ saved.
        if saved.schema_version == daily_schema_version
        then check_daily saved
        else err (Failure.plain "unsupported daily consolidation schema version")

  abbrev pub read_record : Result (List ℕ) → Result (Option DailyConsolidation)
  read_record (err e) = err e
  read_record panic = panic
  read_record (ok bytes) = elim (unmarshal_daily bytes) [
    | ok c ↦ ok (some c)
    | err e ↦ err e
    | panic ↦ panic
  ]

  -- loadDailyConsolidation; `none` is a file that does not exist.
  unfoldable pub load_file : File → Result (Option DailyConsolidation)
  unfolding unmarshal_daily
  load_file File.missing = ok none
  load_file (File.unreadable e) = err e
  load_file (File.node false perm bytes) =
      err (Failure.plain "daily consolidation is not a regular file")
  load_file (File.node true perm bytes) =
      if perm % 64 == 0
      then read_record bytes
      else err (Failure.plain "daily consolidation permissions allow group or other access")

  abbrev pub for_date :
      String → Result (Option DailyConsolidation) → Result (Option DailyConsolidation)
  for_date utc_date (err e) = err (Failure.wrapped ("load daily consolidation " +++ utc_date) e)
  for_date utc_date panic = panic
  for_date utc_date (ok none) = ok none
  for_date utc_date (ok (some c)) =
      if text_eq c.utc_date utc_date
      then ok (some c)
      else err (Failure.plain "daily consolidation date does not match requested date")

  -- LoadDailyConsolidation, with the error of the context
  unfoldable pub load_daily_consolidation :
      Option Failure → String → DailyDisk → Result (Option DailyConsolidation)
  unfolding load_file
  load_daily_consolidation (some e) utc_date d = err e
  load_daily_consolidation none utc_date d =
      if is_date utc_date
      then for_date utc_date (load_file (find_or File.missing utc_date d.files))
      else err (Failure.plain "invalid UTC date")

  module _ (F : DailyFaults) where
    -- what the deferred close and removal make of the error of the steps before
    unfoldable pub close_temp : Result (List ℕ) → Action DailyDisk (Unit {0})
    close_temp (ok bytes) = elim F.close [
      | none ↦ modify (λ d. record d { temp = some bytes })
      | some e ↦ lift (of_error (join (some e) F.discard))
    ]
    close_temp (err e) = lift (of_error (join (join (some e) F.close) F.discard))
    close_temp panic = crash

    abbrev pub temp_steps : Result (List ℕ) → Result (List ℕ)
    temp_steps r = elim F.chmod [
      | some e ↦ err e
      | none ↦ elim r [
        | err e ↦ err e
        | panic ↦ panic
        | ok bytes ↦ elim (F.write) [
          | some e ↦ err e
          | none ↦ elim F.flush [ some e ↦ err e | none ↦ ok bytes ]
        ]
      ]
    ]

    -- writeSyncedDailyConsolidationTemp
    unfoldable pub write_daily_temp : DailyConsolidation → Action DailyDisk (Unit {0})
    unfolding close_temp marshal_daily
    write_daily_temp c = do
      must "write daily consolidation temp file" F.create
      on_error (close_temp (temp_steps (marshal_daily c)))
          λ e. raise (Failure.wrapped "write daily consolidation temp file" e)

    unfoldable pub rename_daily : String → Action DailyDisk (Unit {0})
    unfolding install_daily
    rename_daily utc_date = do
      must "install daily consolidation" F.install
      modify (install_daily utc_date)
      must "sync daily consolidation directory" F.sync_directory
      must "sync state directory" F.sync

    -- the deferred removal of the temporary file, whose error joins that of the steps before
    unfoldable pub remove_daily_temp : Result (Unit {0}) → Action DailyDisk (Unit {0})
    remove_daily_temp (ok _) = lift (of_error F.remove_temp)
    remove_daily_temp (err e) = lift (of_error (join (some e) F.remove_temp))
    remove_daily_temp panic = crash

    abbrev pub accepted : Option DailyError → Action DailyDisk (Unit {0})
    accepted none = pure tt
    accepted (some e) = raise (invalid e)

    -- SaveDailyConsolidation
    unfoldable pub save_daily_consolidation : DailyConsolidation → Action DailyDisk (Unit {0})
    unfolding write_daily_temp rename_daily remove_daily_temp
    save_daily_consolidation c = do
      lift (of_error F.context)
      accepted (validate D is_date c)
      must "prepare state directory" F.prepare
      must "prepare daily consolidation directory" F.prepare_directory
      write_daily_temp c
      r ← capture (rename_daily c.utc_date)
      remove_daily_temp r
