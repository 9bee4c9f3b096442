-- ===== src/Funding/Amount/Sorted.antt =====
-- The order of a manifest's records.
use builder_code_bot.Prelude.{
  ℕ, ◌+◌, ◌≡◌, ◌≤◌, ◌<◌, ◌⊎◌, refl, ap, ◌∙◌, subst, inl, inr, Bool, true, false, Option, none, some,
  List, [], ◌∷◌, if◌then◌else◌, Bool-cases, arith, String, ltb,
}
use builder_code_bot.Decimal.{Decimals}
use builder_code_bot.Funding.Model.{Record, Manifest}
use builder_code_bot.Funding.Action.{Failure, Result, ok, err, panic}
use builder_code_bot.Funding.Amount.{
  record_before, insert_record, sort_records, calculate_totals, ManifestInput, finish_manifest,
  build_manifest,
}

-- By the start of the period, and by the id where two periods start at one time.
abbrev pub InOrder : Record → Record → Type 0
InOrder a b =
    (a.period_start_at < b.period_start_at)
    ⊎ ((a.period_start_at ≡ b.period_start_at) × (a.id ≤ b.id))

abbrev pub IsSorted : List Record → Type 0
IsSorted [] = Unit {0}
IsSorted (a ∷ []) = Unit {0}
IsSorted (a ∷ b ∷ l) = InOrder a b × IsSorted (b ∷ l)

not_before : (a b : Record) → record_before b a ≡ false → InOrder a b
unfolding record_before
not_before a b h = elim (Bool-cases (ltb a.period_start_at b.period_start_at)) [
  | inl q ↦ inl (ground arith)
  | inr q ↦ inr (ground arith, ground arith)
]

-- How many records pass a test.
abbrev pub count : (Record → Bool) → List Record → ℕ
count p [] = 0
count p (r ∷ l) = (if p r then 1 else 0) + count p l

asymmetric : (a b : Record) → record_before a b ≡ true → record_before b a ≡ false
unfolding record_before
asymmetric a b h = ground arith

-- What is inserted behind a record that may stand before it.
behind :
    (x r : Record) (l : List Record)
    → InOrder x r
    → IsSorted (x ∷ l)
    → IsSorted (insert_record r l)
    → IsSorted (x ∷ insert_record r l)
unfolding insert_record
behind x r [] f h k = (f, tt)
behind x r (y ∷ l) f h k = elim (Bool-cases (record_before y r)) [
  | inl q ↦ rw q (h.0, subst (λ b. IsSorted (if b then y ∷ insert_record r l else r ∷ y ∷ l)) q k)
  | inr q ↦ rw q (f, subst (λ b. IsSorted (if b then y ∷ insert_record r l else r ∷ y ∷ l)) q k)
]

tail : (x : Record) (l : List Record) → IsSorted (x ∷ l) → IsSorted l
tail x [] h = tt
tail x (y ∷ l) h = h.1

before_all :
    (x r : Record) (l : List Record) → InOrder r x → IsSorted (x ∷ l) → IsSorted (r ∷ x ∷ l)
before_all x r l f h = (f, h)

insert-IsSorted : (r : Record) (l : List Record) → IsSorted l → IsSorted (insert_record r l)
unfolding insert_record
insert-IsSorted r [] h = tt
insert-IsSorted r (x ∷ l) h = elim (Bool-cases (record_before x r)) [
  | inl q ↦
      rw q (behind x r l (not_before x r (asymmetric x r q)) h (insert-IsSorted r l (tail x l h)))
  | inr q ↦ rw q (before_all x r l (not_before r x q) h)
]

sort_records-IsSorted : (l : List Record) → IsSorted (sort_records l)
unfolding sort_records
sort_records-IsSorted [] = tt
sort_records-IsSorted (r ∷ l) = insert-IsSorted r (sort_records l) (sort_records-IsSorted l)

count-insert_record :
    (p : Record → Bool) (r : Record) (l : List Record)
    → count p (insert_record r l) ≡ (if p r then 1 else 0) + count p l
unfolding insert_record
count-insert_record p r [] = refl
count-insert_record p r (x ∷ l) = elim (Bool-cases (record_before x r)) [
  | inl q ↦ rw q (omega (arith, count-insert_record p r l))
  | inr q ↦ rw q refl
]

count-sort_records : (p : Record → Bool) (l : List Record) → count p (sort_records l) ≡ count p l
unfolding sort_records
count-sort_records p [] = refl
count-sort_records p (r ∷ l) =
    count-insert_record p r (sort_records l)
    ∙ ap (λ n. (if p r then 1 else 0) + n) (count-sort_records p l)

module _ (D : Decimals) where
  of_totals :
      (input : ManifestInput) (require_token : Bool) (m : Manifest) (t : String × String)
      → (finish_manifest D input require_token m t).0.records ≡ m.records
  unfolding finish_manifest
  of_totals input require_token m (raw, payout) = ground arith

  built :
      (input : ManifestInput) (require_token : Bool) (m : Manifest) (r : Result (String × String))
      → (elim r as (λ _. Manifest × Option Failure) [
        | ok totals ↦ finish_manifest D input require_token m totals
        | err e ↦ (m, some e)
        | panic ↦ (m, none)
      ]).0.records
        ≡ m.records
  built input require_token m (ok totals) = of_totals input require_token m totals
  built input require_token m (err e) = refl
  built input require_token m panic = refl

  records_of :
      (input : ManifestInput) (require_token : Bool)
      → (build_manifest D input require_token).0.records ≡ sort_records input.records
  unfolding build_manifest
  records_of input require_token =
      built input require_token _ (calculate_totals D (sort_records input.records))

  -- Whether buildManifest succeeds or fails, its manifest holds the records it was given, each as
  -- often as before, ordered by the start of their period and then by their id.
  pub build_manifest_lem :
      (input : ManifestInput) (require_token : Bool)
      → IsSorted (build_manifest D input require_token).0.records
        × ((p : Record → Bool)
            → count p (build_manifest D input require_token).0.records ≡ count p input.records)
  build_manifest_lem input require_token =
      rw (records_of input require_token)
        (sort_records-IsSorted input.records, λ p. count-sort_records p input.records)
