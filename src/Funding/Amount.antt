-- ===== src/Funding/Amount.antt =====
-- internal/funding/amount.go and internal/funding/manifest.go: the totals of the pending records,
-- and the manifest that freezes them. sort.Slice is an insertion sort here: records that agree in
-- both keys may come out in another order, and a record's id is the table's primary key.
pub mod Sorted
use builder_code_bot.Prelude.{
  Bool, true, false, ◌&&◌, not, Option, none, some, List, [], ◌∷◌, String, ltb, ◌==◌, if◌then◌else◌,
}
use builder_code_bot.Decimal.{Decimals}
use builder_code_bot.Funding.Model.{Record, Token, Manifest}
use builder_code_bot.Funding.Action.{Failure, Result, ok, err, panic}

unfoldable pub record_before : Record → Record → Bool
record_before a b =
    if a.period_start_at == b.period_start_at
    then ltb a.id b.id
    else ltb a.period_start_at b.period_start_at

insert_record : Record → List Record → List Record
unfolding record_before
insert_record r [] = r ∷ []
insert_record r (x ∷ xs) = if record_before x r then x ∷ insert_record r xs else r ∷ x ∷ xs

unfoldable pub sort_records : List Record → List Record
unfolding insert_record
sort_records [] = []
sort_records (r ∷ rs) = insert_record r (sort_records rs)

pub record ManifestInput : Type 0 where
  pub records : List Record
  pub token : Option Token
  pub settlement : String
  pub recipient : String

abbrev pub is_some : Option Token → Bool
is_some none = false
is_some (some _) = true

module _ (D : Decimals) where
  open D use {Decimal}

  add_record : Decimal → Record → Result Decimal
  add_record total r = elim (D.from_string r.amount) [
    | none ↦ err (Failure.wrapped "parse funding record amount" (Failure.external "decimal"))
    | some amount ↦
        if D.is_negative amount
        then err (Failure.wrapped "funding record" (Failure.plain "negative funding amount"))
        else ok (D.add total amount)
  ]

  unfoldable pub sum_records : Decimal → List Record → Result Decimal
  unfolding add_record
  sum_records total [] = ok total
  sum_records total (r ∷ rs) = elim (add_record total r) [
    | ok next ↦ sum_records next rs
    | err e ↦ err e
    | panic ↦ panic
  ]

  -- The payout is the total rounded up to six decimal places.
  unfoldable pub round_payout : Decimal → Decimal
  round_payout total = D.shift_down 6 (D.ceil (D.shift_up 6 total))

  unfoldable pub calculate_totals : List Record → Result (String × String)
  unfolding sum_records round_payout
  calculate_totals records = elim (sum_records (D.from_int 0) records) [
    | ok total ↦ ok (D.string_fixed 18 total, D.to_string (round_payout total))
    | err e ↦ err e
    | panic ↦ panic
  ]

  finish_manifest : ManifestInput → Bool → Manifest → String × String → Manifest × Option Failure
  finish_manifest input require_token manifest (raw, payout) = elim (D.from_string payout) [
    | none ↦ (manifest, some (Failure.wrapped "parse payout total" (Failure.external "decimal")))
    | some amount ↦
        if require_token && D.is_positive amount && not (is_some input.token)
        then (manifest, some (Failure.plain "canonical token is required for a positive payout"))
        else (record manifest { raw_total = raw; payout_total = payout; token = input.token }, none)
  ]

  -- The manifest comes back beside an error too, as far as it was built.
  unfoldable pub build_manifest : ManifestInput → Bool → Manifest × Option Failure
  unfolding sort_records calculate_totals finish_manifest
  build_manifest input require_token =
      let records = sort_records input.records in
      let manifest : Manifest = record {
        records = records;
        raw_total = "";
        payout_total = "";
        token = none;
        settlement = input.settlement;
        recipient = input.recipient;
      } in
      elim (calculate_totals records) [
        | ok totals ↦ finish_manifest input require_token manifest totals
        | err e ↦ (manifest, some e)
        | panic ↦ (manifest, none)
      ]
