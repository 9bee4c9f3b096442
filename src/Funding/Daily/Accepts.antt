-- ===== src/Funding/Daily/Accepts.antt =====
-- Validate of internal/funding/daily_consolidation.go on a whole record.
use builder_code_bot.Prelude.{
  ℕ, ◌≡◌, ◌≢◌, ◌↔◌, ◌⊎◌, inl, inr, refl, Bool, true, false, ◌||◌, not, Option, none, List, [], ◌∷◌,
  map, String, ◌==◌, All, ==_iff, Bool-cases, arith,
}
use builder_code_bot.Prelude.Text.{codes_eq, codes_eq_refl, address_key}
use builder_code_bot.Decimal.{Decimals}
use builder_code_bot.Funding.Report.{DailyConsolidationStatus}
use builder_code_bot.Funding.Daily.{DailyConsolidation, DailyConsolidationBuilder}
use builder_code_bot.Funding.Daily.Validate.{
  DailyError, require, holds_address, is_empty, is_captured, builder_checks, validate_builder,
  validate_builders, validate_status, validate,
}
use builder_code_bot.Funding.Daily.Valid.{
  IsDistinct, IsValidBuilder, checks_iff, require_iff, and_iff, builder_sound, builder_complete,
}

abbrev pub key_of : DailyConsolidationBuilder → List ℕ
key_of b = address_key b.address

codes_eq_sound : (j k : List ℕ) → codes_eq j k ≡ true → j ≡ k
codes_eq_sound [] [] h = refl
codes_eq_sound (a ∷ j) (b ∷ k) h =
    let (p, q) = (and_iff (a == b) (codes_eq j k)).0 h in
    cc ((==_iff a b).0 p, codes_eq_sound j k q)
codes_eq_sound [] (b ∷ k) h = cc
codes_eq_sound (a ∷ j) [] h = cc

pub differ_iff : (j k : List ℕ) → (codes_eq j k ≡ false) ↔ (j ≢ k)
differ_iff j k = (
  λ h q. cc (h, q, codes_eq_refl k),
  λ h. elim (Bool-cases (codes_eq j k)) [ inl e ↦ elim (h (codes_eq_sound j k e)) [ ] | inr e ↦ e ],
)

or_iff : (a b : Bool) → ((a || b) ≡ false) ↔ ((a ≡ false) × (b ≡ false))
or_iff true b = (λ h. cc, λ h. cc)
or_iff false b = (λ h. (refl, h), λ h. h.1)

-- The addresses that the checks before have seen.
abbrev Fresh : List (List ℕ) → List DailyConsolidationBuilder → Type 0
Fresh seen l = All (λ b. holds_address (key_of b) seen ≡ false) l

Fresh-iff :
    (k : List ℕ) (seen : List (List ℕ)) (l : List DailyConsolidationBuilder)
    → Fresh (k ∷ seen) l ↔ (All (λ j. k ≢ j) (map key_of l) × Fresh seen l)
Fresh-iff k seen [] = (λ h. (tt, tt), λ h. tt)
Fresh-iff k seen (b ∷ l) = (
  λ (h, r).
      let (d, f) = (or_iff _ _).0 h in
      let (ds, fs) = (Fresh-iff k seen l).0 r in (((differ_iff _ _).0 d, ds), (f, fs)),
  λ ((d, ds), (f, fs)). ((or_iff _ _).1 ((differ_iff _ _).1 d, f), (Fresh-iff k seen l).1 (ds, fs)),
)

-- A daily record that may be stored and loaded.
pub record IsValid (D : Decimals) (is_date : String → Bool) (c : DailyConsolidation) : Type 0 where
  pub date : is_date c.utc_date ≡ true
  pub started : c.started_at ≢ 0
  pub captured : c.claimables_captured_at ≢ 0
  pub finished :
      ((c.status ≡ DailyConsolidationStatus.claimables_captured) × (c.completed_at ≡ 0))
      ⊎ ((c.status ≡ DailyConsolidationStatus.completed) × (c.completed_at ≢ 0))
  pub nonempty : c.builders ≢ []
  pub valid : All (IsValidBuilder D (is_captured c.status)) c.builders
  pub distinct : IsDistinct (map key_of c.builders)

module _ (D : Decimals) (is_date : String → Bool) where
  builders_iff :
      (captured : Bool) (seen : List (List ℕ)) (l : List DailyConsolidationBuilder)
      → (validate_builders D is_date captured seen l ≡ none)
        ↔ (All (IsValidBuilder D captured) l × (Fresh seen l × IsDistinct (map key_of l)))
  unfolding validate_builders validate_builder
  builders_iff captured seen [] = (λ h. (tt, (tt, tt)), λ h. refl)
  builders_iff captured seen (b ∷ l) = (
    λ h.
        let (first, (rest, _)) =
          (checks_iff (
              validate_builder D is_date captured seen b
              ∷ validate_builders D is_date captured (key_of b ∷ seen) l
              ∷ [])).0
            h in
        let (f, v) =
          builder_sound D is_date captured seen b
            ((checks_iff (builder_checks D is_date captured seen b)).0 first) in
        let (vs, (fs, ds)) = (builders_iff captured (key_of b ∷ seen) l).0 rest in
        let (d, gs) = (Fresh-iff (key_of b) seen l).0 fs in ((v, vs), ((f, gs), (d, ds))),
    λ ((v, vs), ((f, gs), (d, ds))).
        (checks_iff (
            validate_builder D is_date captured seen b
            ∷ validate_builders D is_date captured (key_of b ∷ seen) l
            ∷ [])).1
          (
            (checks_iff (builder_checks D is_date captured seen b)).1
                (builder_complete D is_date captured seen b f v),
            (
              (builders_iff captured (key_of b ∷ seen) l).1
                  (vs, ((Fresh-iff (key_of b) seen l).1 (d, gs), ds)),
              tt,
            ),
          ),
  )

  Fresh-none : (l : List DailyConsolidationBuilder) → Fresh [] l
  Fresh-none [] = tt
  Fresh-none (b ∷ l) = (refl, Fresh-none l)

  zero_iff : (n : ℕ) → (not (n == 0) ≡ true) ↔ (n ≢ 0)
  zero_iff n = ground arith

  times_iff : (n m : ℕ) → (not (n == 0 || m == 0) ≡ true) ↔ ((n ≢ 0) × (m ≢ 0))
  times_iff n m = ground arith

  empty_iff : (l : List DailyConsolidationBuilder) → (not (is_empty l) ≡ true) ↔ (l ≢ [])
  empty_iff [] = (λ h. cc, λ h. elim (h refl) [ ])
  empty_iff (b ∷ l) = (λ h q. cc, λ h. refl)

  status_iff :
      (s : DailyConsolidationStatus) (n : ℕ)
      → (validate_status D is_date s n ≡ none) ↔ (
          ((s ≡ DailyConsolidationStatus.claimables_captured) × (n ≡ 0))
          ⊎ ((s ≡ DailyConsolidationStatus.completed) × (n ≢ 0)))
  unfolding validate_status
  status_iff DailyConsolidationStatus.claimables_captured n = (
    λ h. inl (refl, (==_iff n 0).0 ((require_iff _ _).0 h)),
    λ h. (require_iff _ _).1 ((==_iff n 0).1 (elim h [ inl (p, q) ↦ q | inr (p, q) ↦ cc p ])),
  )
  status_iff DailyConsolidationStatus.completed n = (
    λ h. inr (refl, (zero_iff n).0 ((require_iff _ _).0 h)),
    λ h. (require_iff _ _).1 ((zero_iff n).1 (elim h [ inl (p, q) ↦ cc p | inr (p, q) ↦ q ])),
  )
  status_iff (DailyConsolidationStatus.unknown x) n =
      (λ h. cc, λ h. elim h [ inl (p, q) ↦ cc p | inr (p, q) ↦ cc p ])

  abbrev record_checks : DailyConsolidation → List (Option DailyError)
  record_checks c =
      require (is_date c.utc_date) DailyError.invalid_date
      ∷ require (not (c.started_at == 0 || c.claimables_captured_at == 0)) DailyError.times_required
      ∷ validate_status D is_date c.status c.completed_at
      ∷ require (not (is_empty c.builders)) DailyError.builders_required
      ∷ validate_builders D is_date (is_captured c.status) [] c.builders
      ∷ []

  -- The validation accepts exactly the valid daily records. These have a date, the times of the start
  -- and of the capture, a completion time if and only if they are completed, and builders with
  -- different non-empty addresses; each builder has been queried, its claimable is a number that is not
  -- negative if it was observed and blank otherwise, its claim attempts are not negative, its swept
  -- amount is blank or a number that is not negative, its steps have not failed and are pending only
  -- before the completion, and an uncertain claim has a warning.
  pub validate_lem : (c : DailyConsolidation) → (validate D is_date c ≡ none) ↔ IsValid D is_date c
  unfolding validate
  validate_lem c = (
    λ h.
        let (h1, (h2, (h3, (h4, (h5, _))))) = (checks_iff (record_checks c)).0 h in
        let (s, t) = (times_iff c.started_at c.claimables_captured_at).0 ((require_iff _ _).0 h2) in
        let (v, (_, d)) = (builders_iff (is_captured c.status) [] c.builders).0 h5 in
        record {
          date = (require_iff _ _).0 h1;
          started = s;
          captured = t;
          finished = (status_iff c.status c.completed_at).0 h3;
          nonempty = (empty_iff c.builders).0 ((require_iff _ _).0 h4);
          valid = v;
          distinct = d;
        },
    λ v. (checks_iff (record_checks c)).1 (
      (require_iff _ _).1 v.date,
      (
        (require_iff _ _).1
            ((times_iff c.started_at c.claimables_captured_at).1 (v.started, v.captured)),
        (
          (status_iff c.status c.completed_at).1 v.finished,
          (
            (require_iff _ _).1 ((empty_iff c.builders).1 v.nonempty),
            (
              (builders_iff (is_captured c.status) [] c.builders).1
                  (v.valid, (Fresh-none c.builders, v.distinct)),
              tt,
            ),
          ),
        ),
      ),
    ),
  )
