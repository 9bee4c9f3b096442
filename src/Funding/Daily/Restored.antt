-- ===== src/Funding/Daily/Restored.antt =====
-- A report shows the record of the day: attachDailyConsolidation of
-- internal/funding/daily_consolidation.go.
use builder_code_bot.Prelude.{
  ℕ, suc, ◌+◌, ◌≡◌, ◌≢◌, refl, ap, sym, ◌∙◌, Bool, true, false, none, some, List, [], ◌∷◌, map,
  String, length, All, arith, if◌then◌else◌,
}
use builder_code_bot.Prelude.Text.{codes_eq_refl, address_key}
use builder_code_bot.Decimal.{Decimals}
use builder_code_bot.Funding.Report.{
  BuilderReport, DailyConsolidationStatus, DailyConsolidationReport, RunReport,
}
use builder_code_bot.Funding.Report.Update.{add_warning, set_stage}
use builder_code_bot.Funding.Report.Builders.{set_builder_stage}
use builder_code_bot.Funding.Daily.{
  DailyConsolidation, DailyConsolidationBuilder, daily_builder, daily_consolidation_from_report,
}
use builder_code_bot.Funding.Daily.Attach.{
  Tally, find_entry, attach_entry, attach_found, attach_builders, attach_record, show_record,
  record_warnings, is_utc, add_warnings, no_tally, is_completed,
}
use builder_code_bot.Funding.Daily.Valid.{IsDistinct}
use builder_code_bot.Funding.Daily.Accepts.{key_of, differ_iff}

missing :
    (k : List ℕ) (l : List DailyConsolidationBuilder)
    → All (λ j. k ≢ j) (map key_of l)
    → find_entry k l ≡ none
unfolding find_entry
missing k [] d = refl
missing k (b ∷ l) (d, ds) = rw (missing k l ds, (differ_iff (key_of b) k).1 (λ q. d (sym q))) refl

-- Every entry is found under its own address.
AreFound : List DailyConsolidationBuilder → List DailyConsolidationBuilder → Type 0
AreFound all l = All (λ e. find_entry (key_of e) all ≡ some e) l

found_later :
    (b : DailyConsolidationBuilder) (all l : List DailyConsolidationBuilder)
    → AreFound all l
    → AreFound (b ∷ all) l
unfolding AreFound find_entry
found_later b all [] f = tt
found_later b all (e ∷ l) (q, f) = (rw q refl, found_later b all l f)

found : (l : List DailyConsolidationBuilder) → IsDistinct (map key_of l) → AreFound l l
unfolding AreFound find_entry
found [] d = tt
found (b ∷ l) (d, ds) =
    (rw (missing (key_of b) l d, codes_eq_refl (key_of b)) refl, found_later b l l (found l ds))

-- The builders of a report and of a record are the same, in the same order.
abbrev pub SameAddresses : List BuilderReport → List DailyConsolidationBuilder → Type 0
SameAddresses [] [] = Unit {0}
SameAddresses (b ∷ bs) (e ∷ es) = (b.address ≡ e.address) × SameAddresses bs es
SameAddresses _ _ = ⊥

module _ (D : Decimals) where
  open D use {Decimal}

  one_entry :
      (b : BuilderReport) (e : DailyConsolidationBuilder) (t : Tally Decimal)
      → b.address ≡ e.address
      → (daily_builder (attach_found D true (some e) b t).0 ≡ e)
        × ((attach_found D true (some e) b t).1.recorded ≡ suc t.recorded)
  unfolding attach_found attach_entry
  one_entry b e t q = (ap (λ a. record e { address = a }) q, refl)

  restored :
      (c : DailyConsolidation) (bs : List BuilderReport) (es : List DailyConsolidationBuilder)
      (t : Tally Decimal)
      → c.status ≡ DailyConsolidationStatus.completed
      → SameAddresses bs es
      → AreFound c.builders es
      → (map daily_builder (attach_builders D c bs t).0 ≡ es)
        × ((attach_builders D c bs t).1.recorded ≡ length bs + t.recorded)
  unfolding attach_builders AreFound
  restored c [] [] t p s f = (refl, omega arith)
  restored c [] (e ∷ es) t p s f = elim s [ ]
  restored c (b ∷ bs) [] t p s f = elim s [ ]
  restored c (b ∷ bs) (e ∷ es) t p (q, s) (g, f) =
      let key : find_entry (address_key b.address) c.builders ≡ some e = cc (q, g) in
      let done : is_completed c.status ≡ true = ap is_completed p in
      let (x, y) = one_entry b e t q in
      let (v, w) = restored c bs es (attach_found D true (some e) b t).1 p s f in
      rw (key, done) (cc (x, v), omega (arith, w, y))

-- What a warning leaves alone.
abbrev Shown : RunReport → RunReport → Type 0
Shown r q = (q.builders ≡ r.builders) × (q.daily_consolidation ≡ r.daily_consolidation)

chosen-Shown : (b : Bool) (r p q : RunReport) → Shown r p → Shown r q → Shown r (if b then p else q)
chosen-Shown true r p q x y = x
chosen-Shown false r p q x y = y

add_warning-Shown : (w : String) (r : RunReport) → Shown r (add_warning w r)
unfolding add_warning
add_warning-Shown w r = chosen-Shown _ r _ _ (refl, refl) (refl, refl)

add_warnings-Shown : (l : List String) (r : RunReport) → Shown r (add_warnings l r)
unfolding add_warnings
add_warnings-Shown [] r = (refl, refl)
add_warnings-Shown (w ∷ l) r =
    let (p, q) = add_warnings-Shown l (add_warning w r) in
    let (x, y) = add_warning-Shown w r in (p ∙ x, q ∙ y)

module _ (D : Decimals) where
  open D use {Decimal}

  pub attach_record-Shown :
      (date : String) (c : DailyConsolidation) (r : RunReport)
      → Shown (show_record D date c r) (attach_record D date c r)
  unfolding attach_record
  attach_record-Shown date c r =
      let shown = show_record D date c r in
      let warnings = record_warnings shown.daily_consolidation in
      chosen-Shown (is_utc r.trigger) shown (add_warnings warnings shown) shown
        (add_warnings-Shown warnings shown) (refl, refl)

  shown_builders :
      (date : String) (c : DailyConsolidation) (r : RunReport)
      → (show_record D date c r).builders ≡ (attach_builders D c r.builders (no_tally D)).0
  unfolding show_record set_builder_stage set_stage
  shown_builders date c r =
      let (builders, t) = attach_builders D c r.builders (no_tally D) in
      (add_warnings-Shown t.warnings (record r { builders = builders })).0

  -- The counters of the summary.
  abbrev pub Counts : DailyConsolidationReport → ℕ → Tally Decimal → Type 0
  Counts s n t =
      (s.builder_count ≡ n)
      × ((s.recorded_builders ≡ t.recorded)
          × ((s.observed_builders ≡ t.observed) × (s.uncertain_claims ≡ t.uncertain)))

  pub shown-Counts :
      (date : String) (c : DailyConsolidation) (r : RunReport)
      → Counts
          (show_record D date c r).daily_consolidation
          (length r.builders)
          (attach_builders D c r.builders (no_tally D)).1
  unfolding show_record set_builder_stage set_stage
  shown-Counts date c r = (refl, (refl, (refl, refl)))

  -- A completed daily record that is made from the report of a consolidation brings back the builders'
  -- claims and sweeps of that report in the payout's report, and the summary counts every builder as
  -- recorded. The conditions are that the builders of the two reports have the same addresses in the
  -- same order, and different address keys.
  pub attach_record-daily_consolidation_from_report :
      (date : String) (completed_at : ℕ) (source target : RunReport)
      → IsDistinct (map key_of (map daily_builder source.builders))
      → SameAddresses target.builders (map daily_builder source.builders)
      → let shown =
          attach_record D date
            (daily_consolidation_from_report date DailyConsolidationStatus.completed completed_at
              source)
            target in
        (map daily_builder shown.builders ≡ map daily_builder source.builders)
        × (shown.daily_consolidation.recorded_builders ≡ shown.daily_consolidation.builder_count)
  unfolding daily_consolidation_from_report
  attach_record-daily_consolidation_from_report date n source target d s =
      let c = daily_consolidation_from_report date DailyConsolidationStatus.completed n source in
      let (x, y) = attach_record-Shown date c target in
      let (p, q) =
        restored D c target.builders (map daily_builder source.builders) (no_tally D) refl s
          (found _ d) in
      let (count, (recorded, _)) = shown-Counts date c target in
      (rw (x, shown_builders date c target) p, rw y omega (arith, count, recorded, q))
