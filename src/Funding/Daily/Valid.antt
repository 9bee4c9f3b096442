-- ===== src/Funding/Daily/Valid.antt =====
-- What a valid daily record is: Validate of internal/funding/daily_consolidation.go accepts exactly
-- these.
use builder_code_bot.Prelude.{
  ℕ, zero, suc, ◌≡◌, ◌≢◌, ◌↔◌, refl, Bool, true, false, ◌&&◌, not, Option, none, some, List, [],
  ◌∷◌, String, All, arith, if◌then◌else◌,
}
use builder_code_bot.Prelude.Int.{ℤ, pos, negsuc}
use builder_code_bot.Prelude.Text.{codes_eq, address_key, is_blank}
use builder_code_bot.Decimal.{Decimals}
use builder_code_bot.Funding.Report.{ReportStepStatus}
use builder_code_bot.Funding.Daily.{DailyConsolidationBuilder}
use builder_code_bot.Funding.Daily.Validate.{
  DailyError, valid_daily_step, require, is_warning, is_positive, is_nonnegative, holds_address,
  builder_checks, valid_optional_amount, valid_required_amount, first_error,
}

-- A step of a known status that has not failed, and is pending only before the completion.
pub record IsStep (captured : Bool) (s : ReportStepStatus) : Type 0 where
  pub is_known : (u : String) → s ≢ ReportStepStatus.unknown u
  pub not_failed : s ≢ ReportStepStatus.failed
  pub not_pending : s ≡ ReportStepStatus.pending → captured ≡ true

-- Every element differs from the later ones.
abbrev pub IsDistinct : {A : Type 0} → List A → Type 0
IsDistinct [] = Unit {0}
IsDistinct (x ∷ l) = All (λ y. x ≢ y) l × IsDistinct l

module _ (D : Decimals) where
  pub record IsAmount (text : String) : Type 0 where
    pub amount : D.Decimal
    pub parsed : D.from_string text ≡ some amount
    pub not_negative : D.is_negative amount ≡ false

  pub record IsValidBuilder (captured : Bool) (b : DailyConsolidationBuilder) : Type 0 where
    pub has_address : address_key b.address ≢ []
    pub attempts : ℕ
    pub attempted : b.claimable_query_attempts ≡ pos (suc attempts)
    pub observed : b.claimable_observed ≡ true → IsAmount b.claimable_usdc
    pub observed_text : b.claimable_observed ≡ true → is_blank b.claimable_usdc ≡ false
    pub unobserved : b.claimable_observed ≡ false → is_blank b.claimable_usdc ≡ true
    pub claims : ℕ
    pub claimed : b.claim_attempts ≡ pos claims
    pub swept : is_blank b.sweep_amount ≡ false → IsAmount b.sweep_amount
    pub claim_step : IsStep captured b.claim_status
    pub sweep_step : IsStep captured b.sweep_status
    pub uncertain : b.claim_uncertain ≡ true → b.claim_status ≡ ReportStepStatus.warning

pub checks_iff : (l : List (Option DailyError)) → (first_error l ≡ none) ↔ All (λ c. c ≡ none) l
checks_iff [] = (λ h. tt, λ h. refl)
checks_iff (none ∷ l) = (λ h. (refl, (checks_iff l).0 h), λ h. (checks_iff l).1 h.1)
checks_iff (some e ∷ l) = (λ h. cc, λ h. cc (h.0))

pub require_iff : (b : Bool) (e : DailyError) → (require b e ≡ none) ↔ (b ≡ true)
require_iff true e = (λ h. refl, λ h. refl)
require_iff false e = (λ h. cc, λ h. cc)

choice_iff :
    (o x y : Bool) (e f : DailyError)
    → ((if o then require x e else require y f) ≡ none)
      ↔ ((o ≡ true → x ≡ true) × (o ≡ false → y ≡ true))
choice_iff true x y e f =
    (λ h. (λ _. (require_iff x e).0 h, λ q. cc), λ h. (require_iff x e).1 (h.0 refl))
choice_iff false x y e f =
    (λ h. (λ q. cc, λ _. (require_iff y f).0 h), λ h. (require_iff y f).1 (h.1 refl))

IsStep-iff :
    (captured : Bool) (s : ReportStepStatus)
    → (valid_daily_step s captured ≡ true) ↔ IsStep captured s
unfolding valid_daily_step
IsStep-iff captured ReportStepStatus.pending = (
  λ h. record { is_known = λ u q. cc; not_failed = λ q. cc; not_pending = λ _. h },
  λ v. v.not_pending refl,
)
IsStep-iff captured ReportStepStatus.failed = (λ h. cc, λ v. elim (v.not_failed refl) [ ])
IsStep-iff captured (ReportStepStatus.unknown u) = (λ h. cc, λ v. elim (v.is_known u refl) [ ])
IsStep-iff captured s =
    (λ h. record { is_known = λ u q. cc; not_failed = λ q. cc; not_pending = λ q. cc }, λ v. refl)

pub and_iff : (a b : Bool) → ((a && b) ≡ true) ↔ ((a ≡ true) × (b ≡ true))
and_iff true b = (λ h. (refl, h), λ h. h.1)
and_iff false b = (λ h. cc, λ h. cc)

pub not_iff : (a : Bool) → (not a ≡ true) ↔ (a ≡ false)
not_iff true = (λ h. cc, λ h. cc)
not_iff false = (λ h. refl, λ h. refl)

positive_iff : (z : ℤ) → (is_positive z ≡ true) ↔ ((n : ℕ) × (z ≡ pos (suc n)))
positive_iff (pos zero) = (λ h. cc, λ (n, q). cc)
positive_iff (pos (suc n)) = (λ h. (n, refl), λ h. ground arith)
positive_iff (negsuc n) = (λ h. cc, λ (m, q). cc)

nonnegative_iff : (z : ℤ) → (is_nonnegative z ≡ true) ↔ ((n : ℕ) × (z ≡ pos n))
nonnegative_iff (pos n) = (λ h. (n, refl), λ h. refl)
nonnegative_iff (negsuc n) = (λ h. cc, λ (m, q). cc)

warning_iff :
    (u : Bool) (s : ReportStepStatus)
    → (not (u && not (is_warning s)) ≡ true) ↔ (u ≡ true → s ≡ ReportStepStatus.warning)
warning_iff false s = (λ h q. cc, λ h. refl)
warning_iff true ReportStepStatus.warning = (λ h _. refl, λ h. refl)
warning_iff true s = (λ h _. cc, λ h. cc (h refl))

address_iff :
    (b : DailyConsolidationBuilder)
    → (not (codes_eq (address_key b.address) []) ≡ true) ↔ (address_key b.address ≢ [])
address_iff b = empty_iff (address_key b.address)
  where
    empty_iff : (k : List ℕ) → (not (codes_eq k []) ≡ true) ↔ (k ≢ [])
    empty_iff [] = (λ h. cc, λ h. elim (h refl) [ ])
    empty_iff (c ∷ k) = (λ h q. cc, λ h. refl)

module _ (D : Decimals) (is_date : String → Bool) where
  parsed_iff :
      (text : String) (o : Option D.Decimal)
      → D.from_string text ≡ o
      → ((elim o [ none ↦ false | some x ↦ not (D.is_negative x) ]) ≡ true) ↔ IsAmount D text
  parsed_iff text none q = (λ h. cc, λ a. cc (q, a.parsed))
  parsed_iff text (some x) q = (
    λ h. record { amount = x; parsed = q; not_negative = (not_iff (D.is_negative x)).0 h },
    λ a. (not_iff (D.is_negative x)).1 (cc (q, a.parsed, a.not_negative)),
  )

  blank_iff :
      (blank t : Bool) (A : Type 0)
      → (t ≡ true) ↔ A
      → ((if blank then true else t) ≡ true) ↔ (blank ≡ false → A)
  blank_iff true t A k = (λ h q. cc, λ h. refl)
  blank_iff false t A k = (λ h q. k.0 h, λ h. k.1 (h refl))

  optional_iff :
      (text : String)
      → (valid_optional_amount D is_date text ≡ true) ↔ (is_blank text ≡ false → IsAmount D text)
  unfolding valid_optional_amount
  optional_iff text = blank_iff (is_blank text) _ _ (parsed_iff text (D.from_string text) refl)

  filled_iff :
      (blank t : Bool) (A : Type 0)
      → (t ≡ true) ↔ (blank ≡ false → A)
      → ((if blank then false else t) ≡ true) ↔ ((blank ≡ false) × A)
  filled_iff true t A k = (λ h. cc, λ h. cc)
  filled_iff false t A k = (λ h. (refl, k.0 h refl), λ h. k.1 λ _. h.1)

  required_iff :
      (text : String)
      → (valid_required_amount D is_date text ≡ true) ↔ ((is_blank text ≡ false) × IsAmount D text)
  unfolding valid_required_amount
  required_iff text = filled_iff (is_blank text) _ _ (optional_iff text)

  pub builder_sound :
      (captured : Bool) (seen : List (List ℕ)) (b : DailyConsolidationBuilder)
      → All (λ c. c ≡ none) (builder_checks D is_date captured seen b)
      → (holds_address (address_key b.address) seen ≡ false) × IsValidBuilder D captured b
  builder_sound captured seen b (h1, (h2, (h3, (h4, (h5, (h6, (h7, (h8, _)))))))) =
      let claimable = (choice_iff b.claimable_observed _ _ _ _).0 h4 in
      let (claim, sweep) = (and_iff _ _).0 ((require_iff _ _).0 h7) in
      let (n, q) = (positive_iff b.claimable_query_attempts).0 ((require_iff _ _).0 h3) in
      let (m, p) = (nonnegative_iff b.claim_attempts).0 ((require_iff _ _).0 h5) in
      (
        (not_iff _).0 ((require_iff _ _).0 h2),
        record {
          has_address = (address_iff b).0 ((require_iff _ _).0 h1);
          attempts = n;
          attempted = q;
          observed = λ o. ((required_iff b.claimable_usdc).0 (claimable.0 o)).1;
          observed_text = λ o. ((required_iff b.claimable_usdc).0 (claimable.0 o)).0;
          unobserved = claimable.1;
          claims = m;
          claimed = p;
          swept = (optional_iff b.sweep_amount).0 ((require_iff _ _).0 h6);
          claim_step = (IsStep-iff captured b.claim_status).0 claim;
          sweep_step = (IsStep-iff captured b.sweep_status).0 sweep;
          uncertain = (warning_iff b.claim_uncertain b.claim_status).0 ((require_iff _ _).0 h8);
        },
      )

  pub builder_complete :
      (captured : Bool) (seen : List (List ℕ)) (b : DailyConsolidationBuilder)
      → holds_address (address_key b.address) seen ≡ false
      → IsValidBuilder D captured b
      → All (λ c. c ≡ none) (builder_checks D is_date captured seen b)
  builder_complete captured seen b fresh v = (
    (require_iff _ _).1 ((address_iff b).1 v.has_address),
    (
      (require_iff _ _).1 ((not_iff _).1 fresh),
      (
        (require_iff _ _).1 ((positive_iff b.claimable_query_attempts).1 (v.attempts, v.attempted)),
        (
          (choice_iff b.claimable_observed _ _ _ _).1 (
            λ o. (required_iff b.claimable_usdc).1 (v.observed_text o, v.observed o),
            v.unobserved,
          ),
          (
            (require_iff _ _).1 ((nonnegative_iff b.claim_attempts).1 (v.claims, v.claimed)),
            (
              (require_iff _ _).1 ((optional_iff b.sweep_amount).1 v.swept),
              (
                (require_iff _ _).1 (
                    (and_iff _ _).1 (
                      (IsStep-iff captured b.claim_status).1 v.claim_step,
                      (IsStep-iff captured b.sweep_status).1 v.sweep_step,
                    )),
                (
                  (require_iff _ _).1
                      ((warning_iff b.claim_uncertain b.claim_status).1 v.uncertain),
                  tt,
                ),
              ),
            ),
          ),
        ),
      ),
    ),
  )
