-- ===== src/State/Daily/Kept.antt =====
-- A save of a day's record is all or nothing: internal/state/daily_consolidation.go.
use builder_code_bot.Prelude.{
  ℕ, ◌≡◌, refl, ◌∙◌, ◌⊎◌, inl, inr, Bool, true, Option, none, some, List, String,
}
use builder_code_bot.Prelude.Text.{codes_eq_refl}
use builder_code_bot.Prelude.Dict.{Dict, put}
use builder_code_bot.Decimal.{Decimals}
use builder_code_bot.Funding.Action.{
  Failure, Result, ok, err, panic, of_error, Action, lift, capture, modify, ◌>>=◌,
}
use builder_code_bot.Funding.Action.Leads.{
  Ends, Leads, Leads-bind, Leads-on_error, Leads-raise, Leads-pure, Leads-modify, Leads-check,
  Leads-failing, Leads-crash,
}
use builder_code_bot.Funding.Daily.{DailyConsolidation}
use builder_code_bot.Funding.Daily.Validate.{DailyError, validate}
use builder_code_bot.State.Envelope.{Codec, CodecLaws, Envelope, and_then}
use builder_code_bot.State.Store.{File, join}
use builder_code_bot.State.Daily.{
  DailyDisk, DailyFaults, must, install_daily, private_mode, marshal_daily, unmarshal_daily,
  close_temp, write_daily_temp, rename_daily, remove_daily_temp, accepted, save_daily_consolidation,
}

module _ (D : Decimals) (is_date : String → Bool) (invalid : DailyError → Failure)
    (C : Codec DailyConsolidation) (L : CodecLaws C) where
  abbrev sealed : DailyConsolidation → List ℕ → Envelope DailyConsolidation
  sealed c json = record { schema_version = 1; checksum = C.checksum json; state = c }

  read_back :
      (c : DailyConsolidation) (r : Result (List ℕ)) (json bytes : List ℕ)
      → validate D is_date c ≡ none
      → C.encode_state c ≡ ok json
      → C.encode_envelope (sealed c json) ≡ r
      → and_then "encode daily consolidation envelope" r ok ≡ ok bytes
      → unmarshal_daily D is_date invalid C bytes ≡ ok c
  unfolding unmarshal_daily and_then
  read_back c (ok d) json bytes v h q e =
      rw (L.decoded _ bytes (q ∙ e), h, codes_eq_refl (C.checksum json), v) refl
  read_back c (err x) json bytes v h q e = cc
  read_back c panic json bytes v h q e = cc

  marshaled :
      (c : DailyConsolidation) (r : Result (List ℕ)) (bytes : List ℕ)
      → validate D is_date c ≡ none
      → C.encode_state c ≡ r
      → and_then "encode daily consolidation" r (λ json.
        and_then "encode daily consolidation envelope" (C.encode_envelope (sealed c json)) ok)
        ≡ ok bytes
      → unmarshal_daily D is_date invalid C bytes ≡ ok c
  unfolding and_then
  marshaled c (ok json) bytes v h e = read_back c _ json bytes v h refl e
  marshaled c (err x) bytes v h e = cc
  marshaled c panic bytes v h e = cc

  unmarshal_daily-marshal_daily :
      (c : DailyConsolidation) (bytes : List ℕ)
      → validate D is_date c ≡ none
      → marshal_daily D is_date invalid C c ≡ ok bytes
      → unmarshal_daily D is_date invalid C bytes ≡ ok c
  unfolding marshal_daily
  unmarshal_daily-marshal_daily c bytes v e = marshaled c _ bytes v refl e

  module _ (F : DailyFaults) (c : DailyConsolidation) (old : Dict File) where
    -- The files are the old ones, or they have the record at its date.
    abbrev pub Kept : DailyDisk → Type 0
    Kept d = d.files ≡ old

    -- The bytes of the valid record.
    abbrev pub Reads : List ℕ → Type 0
    Reads bytes = (validate D is_date c ≡ none) × (unmarshal_daily D is_date invalid C bytes ≡ ok c)

    abbrev pub Stored : DailyDisk → Type 0
    Stored d =
        (bytes : List ℕ) × Reads bytes
        × (d.files ≡ put c.utc_date (File.node true private_mode (ok bytes)) old)

    abbrev pub Safe : DailyDisk → Type 0
    Safe d = Kept d ⊎ Stored d

    -- The temporary file holds the record.
    abbrev Ready : DailyDisk → Type 0
    Ready d = (bytes : List ℕ) × Reads bytes × ((d.temp ≡ some bytes) × Kept d)

    must-Leads :
        {P : DailyDisk → Type 0} (text : String) (e : Option Failure)
        → ((d : DailyDisk) → P d → Safe d)
        → Leads P (must text e) P Safe
    must-Leads text e k =
        Leads-on_error _ _ (Leads-check e (λ d p. p) k) λ x. Leads-raise _ λ d p. p

    failing-Leads :
        {P Q : DailyDisk → Type 0} (e : Failure) (o : Option Failure)
        → ((d : DailyDisk) → P d → Safe d)
        → Leads P (lift (of_error (join (some e) o))) Q Safe
    failing-Leads e none k = Leads-failing _ k
    failing-Leads e (some f) k = Leads-failing _ k

    abbrev Good : Result (List ℕ) → Type 0
    Good r = (bytes : List ℕ) → r ≡ ok bytes → Reads bytes

    closed-Leads :
        (bytes : List ℕ) (e discard : Option Failure)
        → Reads bytes
        → Leads Kept
            (elim e [
              | none ↦ modify (λ d. record d { temp = some bytes })
              | some x ↦ lift (of_error (join (some x) discard))
            ])
            Ready
            Safe
    closed-Leads bytes none discard u = Leads-modify _ λ d p. (bytes, u, (refl, p))
    closed-Leads bytes (some x) discard u = failing-Leads x discard λ d p. inl p

    joined-Leads :
        (e : Failure) (close discard : Option Failure)
        → Leads Kept (lift (of_error (join (join (some e) close) discard))) Ready Safe
    joined-Leads e none discard = failing-Leads e discard λ d p. inl p
    joined-Leads e (some f) discard = failing-Leads _ discard λ d p. inl p

    close_temp-Leads :
        (r : Result (List ℕ)) → Good r → Leads Kept (close_temp D is_date invalid C F r) Ready Safe
    unfolding close_temp
    close_temp-Leads (ok bytes) k = closed-Leads bytes F.close F.discard (k bytes refl)
    close_temp-Leads (err e) k = joined-Leads e F.close F.discard
    close_temp-Leads panic k = Leads-crash λ d p. inl p

    Good-steps :
        (chmod write flush : Option Failure) (r : Result (List ℕ))
        → Good r
        → Good (elim chmod [
          | some e ↦ err e
          | none ↦ elim r [
            | err e ↦ err e
            | panic ↦ panic
            | ok bytes ↦ elim write [
              | some e ↦ err e
              | none ↦ elim flush [ some e ↦ err e | none ↦ ok bytes ]
            ]
          ]
        ])
    Good-steps (some e) write flush r k bytes q = cc
    Good-steps none write flush (err e) k bytes q = cc
    Good-steps none write flush panic k bytes q = cc
    Good-steps none (some e) flush (ok b) k bytes q = cc
    Good-steps none none (some e) (ok b) k bytes q = cc
    Good-steps none none none (ok b) k bytes q = k bytes q

    write_daily_temp-Leads :
        validate D is_date c ≡ none
        → Leads Kept (write_daily_temp D is_date invalid C F c) Ready Safe
    unfolding write_daily_temp
    write_daily_temp-Leads v = Leads-bind _ _ (must-Leads _ _ λ d p. inl p) λ _.
        Leads-on_error _ _
          (close_temp-Leads _ (
            Good-steps F.chmod F.write F.flush _
              λ bytes q. (v, unmarshal_daily-marshal_daily c bytes v q)))
          λ e. Leads-raise _ λ d p. p

    installed : (d : DailyDisk) → Ready d → Stored (install_daily c.utc_date d)
    unfolding install_daily
    installed d (bytes, u, (t, p)) = (bytes, u, rw (t, p) refl)

    rename_daily-Leads : Leads Ready (rename_daily D is_date invalid C F c.utc_date) Stored Safe
    unfolding rename_daily
    rename_daily-Leads = Leads-bind _ _ (must-Leads _ _ λ d (b, u, (t, p)). inl p) λ _.
        Leads-bind _ _ (Leads-modify _ installed)
          λ _. Leads-bind _ _ (must-Leads _ _ λ d p. inr p) λ _. must-Leads _ _ λ d p. inr p

    removed :
        (r : Result (Unit {0})) (s : DailyDisk)
        → Ends Stored Safe (r, s)
        → Ends Stored Safe (remove_daily_temp D is_date invalid C F r s)
    unfolding remove_daily_temp ◌>>=◌
    removed (ok _) s p =
        (Leads-check {P = Stored} {Q = Stored} F.remove_temp (λ d p. p) λ d p. inr p).at s p
    removed (err e) s p = (failing-Leads {P = Safe} {Q = Stored} e F.remove_temp λ d p. p).at s p
    removed panic s p = p

    finish-Leads :
        Leads Ready
          (capture (rename_daily D is_date invalid C F c.utc_date) >>= λ r.
            remove_daily_temp D is_date invalid C F r)
          Stored
          Safe
    unfolding ◌>>=◌
    finish-Leads = record {
      at = λ s p.
          let (r, s') = rename_daily D is_date invalid C F c.utc_date s in
          removed r s' (rename_daily-Leads.at s p);
    }

    accepted-Leads :
        (o : Option DailyError) (m : Action DailyDisk (Unit {0}))
        → (o ≡ none → Leads Kept m Stored Safe)
        → Leads Kept (accepted D is_date invalid C F o >>= λ _. m) Stored Safe
    accepted-Leads none m k = Leads-bind _ _ (Leads-pure _ λ d p. p) λ _. k refl
    accepted-Leads (some e) m k =
        Leads-bind {Q = λ d. ⊥} _ _ (Leads-raise _ λ d p. inl p)
          λ _. record { at = λ s p. elim p [ ] }

    pub save-Leads : Leads Kept (save_daily_consolidation D is_date invalid C F c) Stored Safe
    unfolding save_daily_consolidation
    save-Leads = Leads-bind _ _ (Leads-check F.context (λ d p. p) λ d p. inl p) λ _.
        accepted-Leads (validate D is_date c) _ λ v.
          Leads-bind _ _ (must-Leads _ _ λ d p. inl p) λ _.
            Leads-bind _ _ (must-Leads _ _ λ d p. inl p)
              λ _. Leads-bind _ _ (write_daily_temp-Leads v) λ _. finish-Leads
