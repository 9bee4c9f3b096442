-- ===== src/Funding/Daily/Counts.antt =====
-- The counters of the summary that attachDailyConsolidation of
-- internal/funding/daily_consolidation.go shows.
use builder_code_bot.Prelude.{
  ℕ, ◌+◌, ◌≡◌, Bool, true, false, Option, none, some, List, [], ◌∷◌, String, length, arith,
  if◌then◌else◌,
}
use builder_code_bot.Prelude.Text.{address_key}
use builder_code_bot.Decimal.{Decimals}
use builder_code_bot.Funding.Report.{BuilderReport, RunReport}
use builder_code_bot.Funding.Daily.{DailyConsolidation, DailyConsolidationBuilder}
use builder_code_bot.Funding.Daily.Attach.{
  Tally, find_entry, attach_entry, attach_found, attach_builders, attach_record, no_tally,
  is_completed,
}
use builder_code_bot.Funding.Daily.Restored.{attach_record-Shown, shown-Counts}

abbrev matches : (DailyConsolidationBuilder → Bool) → Option DailyConsolidationBuilder → Bool
matches p none = false
matches p (some e) = p e

-- How many builders of a report have an entry in the record that passes a test.
abbrev pub count_entries :
    (DailyConsolidationBuilder → Bool) → DailyConsolidation → List BuilderReport → ℕ
count_entries p c [] = 0
count_entries p c (b ∷ l) =
    (if matches p (find_entry (address_key b.address) c.builders) then 1 else 0)
    + count_entries p c l

module _ (D : Decimals) where
  one_more :
      (completed : Bool) (o : Option DailyConsolidationBuilder) (b : BuilderReport)
      (t : Tally (D.Decimal))
      → let u = (attach_found D completed o b t).1 in
        (u.recorded ≡ (if matches (λ _. true) o then 1 else 0) + t.recorded)
        × ((u.observed ≡ (if matches (λ e. e.claimable_observed) o then 1 else 0) + t.observed)
            × (u.uncertain ≡ (if matches (λ e. e.claim_uncertain) o then 1 else 0) + t.uncertain))
  unfolding attach_found attach_entry
  one_more completed none b t = (omega arith, (omega arith, omega arith))
  one_more completed (some e) b t = (omega arith, (ground arith, ground arith))

  counted :
      (c : DailyConsolidation) (l : List BuilderReport) (t : Tally (D.Decimal))
      → let u = (attach_builders D c l t).1 in
        (u.recorded ≡ count_entries (λ _. true) c l + t.recorded)
        × ((u.observed ≡ count_entries (λ e. e.claimable_observed) c l + t.observed)
            × (u.uncertain ≡ count_entries (λ e. e.claim_uncertain) c l + t.uncertain))
  unfolding attach_builders
  counted c [] t = (omega arith, (omega arith, omega arith))
  counted c (b ∷ l) t =
      let o = find_entry (address_key b.address) c.builders in
      let (x, (y, z)) = one_more (is_completed c.status) o b t in
      let (x', (y', z')) = counted c l (attach_found D (is_completed c.status) o b t).1 in
      (omega (arith, x, x'), (omega (arith, y, y'), omega (arith, z, z')))

  -- Whatever the record holds, the summary of the payout's report counts as recorded the report's
  -- builders that have an entry in the record, as observed those whose entry has an observed
  -- claimable, and as uncertain those whose entry has an uncertain claim.
  pub attach_record_counts :
      (date : String) (c : DailyConsolidation) (r : RunReport)
      → let s = (attach_record D date c r).daily_consolidation in
        (s.builder_count ≡ length r.builders)
        × ((s.recorded_builders ≡ count_entries (λ _. true) c r.builders)
            × ((s.observed_builders ≡ count_entries (λ e. e.claimable_observed) c r.builders)
                × (s.uncertain_claims ≡ count_entries (λ e. e.claim_uncertain) c r.builders)))
  attach_record_counts date c r =
      let (n, (m, (o, u))) = shown-Counts D date c r in
      let (x, (y, z)) = counted c r.builders (no_tally D) in
      rw ((attach_record-Shown D date c r).1)
        (n, (omega (arith, m, x), (omega (arith, o, y), omega (arith, u, z))))
