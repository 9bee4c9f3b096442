-- ===== src/State/Daily/Answers.antt =====
-- What the store answers after a save of a day's record: internal/state/daily_consolidation.go.
use text.Mathlib.TextPositions.{eq_refl}
use text.Mathlib.TextEquality.{eq_iff}
use builder_code_bot.Prelude.{
  ℕ, ◌≡◌, refl, ap, ◌∙◌, ◌⊎◌, inl, inr, Bool, true, false, Option, none, some, List, String,
  if◌then◌else◌,
}
use builder_code_bot.Prelude.Text.{text_eq}
use builder_code_bot.Prelude.Dict.{Dict, put}
use builder_code_bot.Decimal.{Decimals}
use builder_code_bot.Funding.Action.{Failure, Result, ok, err, panic}
use builder_code_bot.Funding.Action.Leads.{Ends}
use builder_code_bot.Funding.Daily.{DailyConsolidation}
use builder_code_bot.Funding.Daily.Validate.{DailyError, validate}
use builder_code_bot.Funding.Daily.Accepts.{validate_lem}
use builder_code_bot.State.Envelope.{Codec, CodecLaws}
use builder_code_bot.State.Daily.Kept.{Stored, Safe, save-Leads}
use builder_code_bot.Prelude.Dict.Laws.{find_or-put}
use builder_code_bot.State.Store.{File}
use builder_code_bot.State.Daily.{
  DailyDisk, DailyFaults, private_mode, unmarshal_daily, load_file, read_record,
  load_daily_consolidation, save_daily_consolidation,
}

module _ (D : Decimals) (is_date : String → Bool) (invalid : DailyError → Failure)
    (C : Codec DailyConsolidation) (L : CodecLaws C) where
  -- LoadDailyConsolidation without an error of the context
  abbrev Loaded : DailyDisk → String → Result (Option DailyConsolidation)
  Loaded d date = load_daily_consolidation D is_date invalid C none date d

  dated : (c : DailyConsolidation) → validate D is_date c ≡ none → is_date c.utc_date ≡ true
  dated c v = ((validate_lem D is_date c).0 v).date

  module _ (c : DailyConsolidation) (d : DailyDisk) (old : Dict File) (bytes : List ℕ) where
    abbrev node : File
    node = File.node true private_mode (ok bytes)

    loaded_at :
        (date : String) (b : Bool)
        → text_eq c.utc_date date ≡ b
        → validate D is_date c ≡ none
        → unmarshal_daily D is_date invalid C bytes ≡ ok c
        → d.files ≡ put c.utc_date node old
        → Loaded d date ≡ (if b then ok (some c) else Loaded (record d { files = old }) date)
    unfolding load_daily_consolidation load_file
    loaded_at date true e v u p =
        let q : is_date date ≡ true = cc (dated c v, (eq_iff c.utc_date date).0 e) in
        rw (p, find_or-put File.missing date c.utc_date node old, e, q, read_record, u, e) refl
    loaded_at date false e v u p = rw (p, find_or-put File.missing date c.utc_date node old, e) refl

  same_files :
      (d d' : DailyDisk) (date : String) → d'.files ≡ d.files → Loaded d' date ≡ Loaded d date
  unfolding load_daily_consolidation
  same_files d d' date p = rw p refl

  -- The record at its date, and the other dates as before.
  abbrev Updated : DailyConsolidation → DailyDisk → DailyDisk → Type 0
  Updated c d d' =
      (date : String)
      → Loaded d' date ≡ (if text_eq c.utc_date date then ok (some c) else Loaded d date)

  updated :
      (F : DailyFaults) (c : DailyConsolidation) (d d' : DailyDisk)
      → Stored D is_date invalid C L F c d.files d'
      → Updated c d d'
  updated F c d d' (bytes, (v, u), p) date =
      loaded_at c d' d.files bytes date (text_eq c.utc_date date) refl v u p
      ∙ ap (λ x. if text_eq c.utc_date date then ok (some c) else x)
          (same_files d (record d' { files = d.files }) date refl)

  answers :
      (F : DailyFaults) (c : DailyConsolidation) (d d' : DailyDisk)
      → Safe D is_date invalid C L F c d.files d'
      → ((date : String) → Loaded d' date ≡ Loaded d date) ⊎ Updated c d d'
  answers F c d d' (inl p) = inl λ date. same_files d d' date p
  answers F c d d' (inr q) = inr (updated F c d d' q)

  ended :
      (F : DailyFaults) (c : DailyConsolidation) (d d' : DailyDisk) (r : Result (Unit {0}))
      → Ends
          (Stored D is_date invalid C L F c d.files)
          (Safe D is_date invalid C L F c d.files)
          (r, d')
      → (((date : String) → Loaded d' date ≡ Loaded d date) ⊎ Updated c d d')
        × (r ≡ ok tt → Loaded d' c.utc_date ≡ ok (some c))
  ended F c d d' (ok _) p =
      (answers F c d d' (inr p), λ q. updated F c d d' p c.utc_date ∙ rw (eq_refl c.utc_date) refl)
  ended F c d d' (err e) p = (answers F c d d' p, λ q. cc)
  ended F c d d' panic p = (answers F c d d' p, λ q. cc)

  -- Whatever fails, a save of a day's record either changes no record that the store answers with, or
  -- makes it answer with the saved record at its date and leaves the other dates alone; if the save
  -- returns no error, the store answers with the saved record at its date. The condition is that
  -- json.Unmarshal reads what json.Marshal writes.
  pub save_daily_consolidation_lem :
      (F : DailyFaults) (c : DailyConsolidation) (d : DailyDisk)
      → let (r, d') = save_daily_consolidation D is_date invalid C F c d in
        (((date : String) → Loaded d' date ≡ Loaded d date)
          ⊎ ((date : String)
              → Loaded d' date ≡ (if text_eq c.utc_date date then ok (some c) else Loaded d date)))
        × (r ≡ ok tt → Loaded d' c.utc_date ≡ ok (some c))
  save_daily_consolidation_lem F c d =
      let (r, d') = save_daily_consolidation D is_date invalid C F c d in
      ended F c d d' r ((save-Leads D is_date invalid C L F c d.files).at d refl)
