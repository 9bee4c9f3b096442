-- ===== src/State/Store/Recovery.antt =====
-- What can be loaded after a process has stopped at any point of Save or Clear.
use builder_code_bot.Prelude.{
  ℕ, ◌≡◌, refl, sym, ap, ◌∙◌, subst, ◌⊎◌, inl, inr, true, Option, none, some, List, [], ◌∷◌, String,
  All, arith,
}
use builder_code_bot.Funding.Action.{Failure, Result, ok, err, panic, of_error, lift}
use builder_code_bot.Funding.Action.Keeps.{Keeps, keeps_rules, Keeps-bind}
use builder_code_bot.Funding.Action.Leads.{
  Leads, Keeps-of_Leads, Leads-gets, Leads-bind, Leads-guard, Leads-option, Leads-failing,
  Leads-crash, Leads-pure, Leads-capture, Leads-modify, Leads-of_Keeps, Leads-raise, Leads-on_error,
}
use builder_code_bot.State.Envelope.{
  Codec, CodecLaws, unmarshal_envelope, unmarshal_envelope-marshal_envelope,
}
use builder_code_bot.State.Store.{
  join, File, Snapshot, Disk, Faults, try, rotate_files, install_files, load_snapshot, load_bytes,
  load_with_metadata, LoadMetadata, steps, after_temp, write_temp, make_room, install_current,
  after_defer, save,
}

-- The state that a load of the two files finds.
abbrev loaded : {S : Type 0} → Result (Option S × LoadMetadata) → Option S
loaded (ok (o, m)) = o
loaded (err e) = none
loaded panic = none

module _ {S : Type 0} (C : Codec S) where
  abbrev pub recovered : File × File → Option S
  recovered files = loaded (load_with_metadata C none files)

  module _ (old new : S) where
    abbrev pub IsFine : File × File → Type 0
    IsFine files = (recovered files ≡ some old) ⊎ (recovered files ≡ some new)

    record IsSafe (d : Disk) : Type 0 where
      now : IsFine (d.current, d.backup)
      always : All IsFine d.points

    -- The temporary file holds the new state.
    record IsWritten (d : Disk) : Type 0 where
      safe : IsSafe d
      bytes : List ℕ
      written : d.temp ≡ some bytes
      encoded : unmarshal_envelope C bytes ≡ ok new

module _ {S : Type 0} (C : Codec S) (L : CodecLaws C) (F : Faults) (old new : S) where
  try-Leads :
      {P : Disk → Type 0} (text : String) (e : Option Failure)
      → ((d : Disk) → P d → IsSafe C old new d)
      → Leads P (try text e) P (IsSafe C old new)
  try-Leads text e k = Leads-guard e _ (λ d _ p. p) λ x. Leads-raise _ λ d p. k d p

  steps_ok : (r : Result (List ℕ)) (bytes : List ℕ) → steps C F r ≡ ok bytes → r ≡ ok bytes
  steps_ok r bytes h = ground arith

  written :
      (bytes : List ℕ) (d : Disk)
      → unmarshal_envelope C bytes ≡ ok new
      → IsSafe C old new d
      → IsWritten C old new (record d { temp = some bytes })
  written bytes d e h = record {
    safe = record { now = h.now; always = h.always };
    bytes = bytes;
    written = refl;
    encoded = e;
  }

  joined-Leads :
      {Q : Disk → Type 0} (e : Failure) (x : Option Failure)
      → Leads
          (IsSafe C old new)
          (lift {A = Unit {0}} (of_error (join (some e) x)))
          Q
          (IsSafe C old new)
  joined-Leads e none = Leads-failing e λ d h. h
  joined-Leads e (some f) = Leads-failing _ λ d h. h

  joined_twice-Leads :
      {Q : Disk → Type 0} (e : Failure) (x y : Option Failure)
      → Leads
          (IsSafe C old new)
          (lift {A = Unit {0}} (of_error (join (join (some e) x) y)))
          Q
          (IsSafe C old new)
  joined_twice-Leads e none y = joined-Leads e y
  joined_twice-Leads e (some f) y = joined-Leads _ y

  after_temp-Leads :
      (r : Result (List ℕ))
      → ((bytes : List ℕ) → r ≡ ok bytes → unmarshal_envelope C bytes ≡ ok new)
      → Leads (IsSafe C old new) (after_temp C F r) (IsWritten C old new) (IsSafe C old new)
  unfolding after_temp
  after_temp-Leads (ok bytes) k =
      Leads-option F.close _ _ (Leads-modify _ λ d h. written bytes d (k bytes refl) h)
        λ e. joined-Leads e F.discard
  after_temp-Leads (err e) k = joined_twice-Leads e F.close F.discard
  after_temp-Leads panic k = Leads-crash λ d h. h

  write_temp-Leads :
      (text : String)
      → Leads (IsSafe C old new) (write_temp C F text new) (IsWritten C old new) (IsSafe C old new)
  unfolding write_temp
  write_temp-Leads text = Leads-bind _ _ (try-Leads text F.create λ d h. h) λ _.
      Leads-on_error _ _
        (after_temp-Leads _
          λ bytes e. unmarshal_envelope-marshal_envelope C L new bytes (steps_ok _ bytes e))
        λ e. Leads-raise _ λ d h. h

  -- A rotation of a valid snapshot leaves what is loaded.
  rotated :
      (c b : File) (state : S)
      → load_snapshot C c ≡ Snapshot.valid state
      → recovered C (File.missing, c) ≡ recovered C (c, b)
  unfolding load_with_metadata
  rotated c b state e = rw e refl

  rotate-IsWritten :
      (d : Disk) (state : S)
      → load_snapshot C d.current ≡ Snapshot.valid state
      → IsWritten C old new d
      → IsWritten C old new
          (let d' = rotate_files d in record d' { points = (d'.current, d'.backup) ∷ d'.points })
  unfolding rotate_files
  rotate-IsWritten d state e h =
      let fine : IsFine C old new (File.missing, d.current) =
        subst (λ o. (o ≡ some old) ⊎ (o ≡ some new)) (sym (rotated d.current d.backup state e))
          h.safe.now in
      record {
        safe = record { now = fine; always = (fine, h.safe.always) };
        bytes = h.bytes;
        written = h.written;
        encoded = h.encoded;
      }

  make_room-Leads :
      (d : Disk) (current backup : Snapshot S)
      → load_snapshot C d.current ≡ current
      → Leads
          (λ x. IsWritten C old new x × (x ≡ d))
          (make_room C F current backup)
          (IsWritten C old new)
          (IsSafe C old new)
  unfolding make_room
  make_room-Leads d (Snapshot.valid state) backup e =
      Leads-bind _ _ (try-Leads _ _ λ x h. h.0.safe) λ _.
        Leads-modify _
          λ x h. rotate-IsWritten x state (ap (λ y. load_snapshot C y.current) h.1 ∙ e) h.0
  make_room-Leads d Snapshot.absent backup e = Leads-pure _ λ x h. h.0
  make_room-Leads d (Snapshot.invalid x) (Snapshot.valid _) e = Leads-pure _ λ x h. h.0
  make_room-Leads d (Snapshot.invalid x) Snapshot.absent e = Leads-raise _ λ x h. h.0.safe
  make_room-Leads d (Snapshot.invalid x) (Snapshot.invalid y) e = Leads-raise _ λ x h. h.0.safe

  new_bytes :
      (bytes : List ℕ)
      → unmarshal_envelope C bytes ≡ ok new
      → load_bytes C (ok bytes) ≡ Snapshot.valid new
  unfolding load_bytes
  new_bytes bytes e = rw (e, load_bytes) refl

  private_node : (r : Result (List ℕ)) → load_snapshot C (File.node true 384 r) ≡ load_bytes C r
  unfolding load_snapshot
  private_node r = refl

  reads_new :
      (b : File) (bytes : List ℕ)
      → unmarshal_envelope C bytes ≡ ok new
      → recovered C (File.node true 384 (ok bytes), b) ≡ some new
  unfolding load_with_metadata
  reads_new b bytes e = rw (private_node (ok bytes) ∙ new_bytes bytes e) refl

  installed :
      (d : Disk)
      → IsWritten C old new d
      → IsSafe C old new
          (let d' = install_files d in record d' { points = (d'.current, d'.backup) ∷ d'.points })
  unfolding install_files
  installed d h = rw (h.written) (record {
    now = inr (reads_new d.backup h.bytes h.encoded);
    always = (inr (reads_new d.backup h.bytes h.encoded), h.safe.always);
  })

  install_current-Leads :
      Leads (IsWritten C old new) (install_current C F) (IsSafe C old new) (IsSafe C old new)
  unfolding install_current
  install_current-Leads = Leads-gets _ _ λ d.
      Leads-bind {Q = IsWritten C old new} _ _ (make_room-Leads d _ _ refl) λ _.
        Leads-bind {Q = IsWritten C old new} _ _ (try-Leads _ _ λ d h. h.safe) λ _.
          Leads-bind {Q = IsSafe C old new} _ _ (Leads-modify _ installed)
            λ _. try-Leads _ _ λ d h. h

  after_defer-Keeps : (r : Result (Unit {0})) → Keeps (IsSafe C old new) (after_defer C F r)
  unfolding after_defer
  after_defer-Keeps (ok _) = search keeps_rules
  after_defer-Keeps (err e) = search keeps_rules
  after_defer-Keeps panic = search keeps_rules

  save-Keeps : Keeps (IsSafe C old new) (save C F new)
  unfolding save
  save-Keeps = Keeps-bind _ _ (search keeps_rules) λ _. Keeps-bind _ _ (search keeps_rules) λ _.
      Keeps-of_Leads _ (
        Leads-bind _ _ (write_temp-Leads _) λ _.
          Leads-bind _ _ (Leads-capture _ install_current-Leads)
            λ r. Leads-of_Keeps _ (λ d h. h) (after_defer-Keeps r))

  -- A process may stop at any point of Save, and any call of the file system may fail: if a state
  -- could be loaded before, then what can be loaded at each point of Save is that state or the one
  -- that was to be saved.
  pub save_lem :
      (d : Disk)
      → recovered C (d.current, d.backup) ≡ some old
      → d.points ≡ []
      → All (IsFine C old new) (save C F new d).1.points
  save_lem d h p = (save-Keeps.at d (record { now = inl h; always = rw p tt })).always
