-- ===== src/State/Store/Clearing.antt =====
-- What can be loaded after a process has stopped at any point of Clear, and what two snapshots of one
-- state are good for.
use builder_code_bot.Prelude.{◌≡◌, refl, ◌⊎◌, inl, inr, Option, none, some, [], ◌∷◌, String, All}
use builder_code_bot.Funding.Action.{Failure}
use builder_code_bot.Funding.Action.Leads.{
  Leads, Leads-state, Leads-check, Leads-bind, Leads-guard, Leads-modify, Leads-raise,
}
use builder_code_bot.State.Envelope.{Codec}
use builder_code_bot.State.Store.{
  File, Snapshot, Disk, Faults, try, load_snapshot, load_with_metadata, clear,
}
use builder_code_bot.State.Store.Recovery.{recovered}

module _ {S : Type 0} (C : Codec S) (state : S) where
  -- The files hold this state, or nothing at all: never an older one.
  abbrev pub IsLatest : File × File → Type 0
  IsLatest files = (recovered C files ≡ some state) ⊎ (recovered C files ≡ none)

  record IsKept (d : Disk) : Type 0 where
    current : load_snapshot C d.current ≡ Snapshot.valid state
    always : All IsLatest d.points

  current_only :
      (c b : File) → load_snapshot C c ≡ Snapshot.valid state → recovered C (c, b) ≡ some state
  unfolding load_with_metadata
  current_only c b e = rw e refl

  empty : recovered C (File.missing, File.missing) ≡ none
  unfolding load_with_metadata load_snapshot
  empty = refl

  backup_serves :
      (damaged backup : File) (x : Snapshot S)
      → load_snapshot C damaged ≡ x
      → load_snapshot C backup ≡ Snapshot.valid state
      → ((s : S) → load_snapshot C damaged ≡ Snapshot.valid s → s ≡ state)
      → recovered C (damaged, backup) ≡ some state
  unfolding load_with_metadata
  backup_serves damaged backup (Snapshot.valid s) e b only = rw (e, only s e) refl
  backup_serves damaged backup Snapshot.absent e b only = rw (e, b) refl
  backup_serves damaged backup (Snapshot.invalid f) e b only = rw (e, b) refl

  -- When both snapshots hold one state, either of them may be lost or damaged, as long as it does not
  -- load as another state: what is loaded is still the state.
  pub survives :
      (current backup damaged : File)
      → load_snapshot C current ≡ Snapshot.valid state
      → load_snapshot C backup ≡ Snapshot.valid state
      → ((s : S) → load_snapshot C damaged ≡ Snapshot.valid s → s ≡ state)
      → (recovered C (damaged, backup) ≡ some state) × (recovered C (current, damaged) ≡ some state)
  survives current backup damaged c b only =
      (backup_serves damaged backup _ refl b only, current_only current damaged c)

  module _ (F : Faults) where
    abbrev Always : Disk → Type 0
    Always d = All IsLatest d.points

    abbrev IsAlone : Disk → Type 0
    IsAlone d = IsKept d × (d.backup ≡ File.missing)

    without_backup :
        (d : Disk)
        → IsKept d
        → IsAlone
            (record d { backup = File.missing; points = (d.current, File.missing) ∷ d.points })
    without_backup d h = (
      record {
        current = h.current;
        always = (inl (current_only d.current File.missing h.current), h.always);
      },
      refl,
    )

    without_current :
        (d : Disk)
        → IsAlone d
        → Always (record d { current = File.missing; points = (File.missing, d.backup) ∷ d.points })
    without_current d h = (inr (rw (h.1) empty), h.0.always)

    tried :
        {P : Disk → Type 0} (text : String) (e : Option Failure)
        → ((d : Disk) → P d → Always d)
        → Leads P (try text e) P Always
    tried text e k = Leads-guard e _ (λ d _ h. h) λ x. Leads-raise _ λ d h. k d h

    clear-Leads : Leads IsKept (clear C F) Always Always
    unfolding clear
    clear-Leads =
        Leads-bind {Q = IsKept} _ _ (Leads-check F.context (λ d h. h) λ d h. h.always) λ _.
          Leads-bind {Q = IsKept} _ _ (tried _ F.prepare λ d h. h.always) λ _.
            Leads-bind {Q = IsKept} _ _ (tried _ F.remove_backup λ d h. h.always) λ _.
              Leads-bind {Q = IsAlone} _ _ (Leads-modify _ without_backup) λ _.
                Leads-bind {Q = IsAlone} _ _ (tried _ F.remove_current λ d h. h.0.always) λ _.
                  Leads-bind {Q = Always} _ _ (Leads-modify _ without_current)
                    λ _. tried _ F.sync λ d h. h

    -- A process may stop at any point of Clear, and any call may fail: if the current snapshot is
    -- valid, then what can be loaded at each point is its state or nothing, whatever older state the
    -- backup holds.
    pub clear_lem :
        (d : Disk)
        → load_snapshot C d.current ≡ Snapshot.valid state
        → d.points ≡ []
        → All IsLatest (clear C F d).1.points
    clear_lem d c p = Leads-state _ clear-Leads d (record { current = c; always = rw p tt })
