-- ===== src/Tests/Codec.antt =====
-- A codec for the daily records that encodes one of them.
use text.Mathlib.TextEquality.{eq_iff}
use builder_code_bot.Prelude.{
  ℕ, ◌≡◌, refl, ap, sym, subst, Bool, true, false, Option, none, some, List, [], ◌∷◌, String, ◌==◌,
  ==_iff, Bool-cases, inl, inr,
}
use builder_code_bot.Prelude.Int.{ℤ, pos, negsuc}
use builder_code_bot.Prelude.Text.{text_eq}
use builder_code_bot.Funding.Action.{Failure, Result, ok, err}
use builder_code_bot.Funding.Report.{ReportStepStatus, DailyConsolidationStatus}
use builder_code_bot.Funding.Daily.{DailyConsolidationBuilder, DailyConsolidation}
use builder_code_bot.State.Envelope.{Codec, CodecLaws, Envelope}

abbrev claimed : DailyConsolidationBuilder
claimed = record {
  address = "0xc";
  claimable_usdc = "3";
  claimable_observed = true;
  claimable_query_attempts = pos 1;
  claim_attempts = pos 1;
  claim_uncertain = false;
  claim_status = ReportStepStatus.success;
  claim_summary = "";
  sweep_amount = "3";
  sweep_status = ReportStepStatus.success;
  sweep_summary = "";
}

abbrev pub recorded : DailyConsolidation
recorded = record {
  utc_date = "2026-01-01";
  status = DailyConsolidationStatus.completed;
  started_at = 1;
  claimables_captured_at = 2;
  completed_at = 3;
  builders = claimed ∷ [];
}

same_text : (s t : String) → Option (s ≡ t)
same_text s t = elim (Bool-cases (text_eq s t)) [ inl h ↦ some ((eq_iff s t).0 h) | inr h ↦ none ]

same_number : (n m : ℕ) → Option (n ≡ m)
same_number n m = elim (Bool-cases (n == m)) [ inl h ↦ some ((==_iff n m).0 h) | inr h ↦ none ]

same_one : (z : ℤ) → Option (z ≡ pos 1)
same_one (pos n) = elim (same_number n 1) [ none ↦ none | some p ↦ some (ap pos p) ]
same_one (negsuc n) = none

same_true : (b : Bool) → Option (b ≡ true)
same_true true = some refl
same_true false = none

same_false : (b : Bool) → Option (b ≡ false)
same_false true = none
same_false false = some refl

same_success : (s : ReportStepStatus) → Option (s ≡ ReportStepStatus.success)
same_success ReportStepStatus.success = some refl
same_success s = none

same_completed : (s : DailyConsolidationStatus) → Option (s ≡ DailyConsolidationStatus.completed)
same_completed DailyConsolidationStatus.completed = some refl
same_completed s = none

infixr 5 ◌also◌
◌also◌ : {A B : Type 0} → Option A → Option B → Option (A × B)
none also q = none
(some a) also none = none
(some a) also (some b) = some (a, b)

same_builder : (b : DailyConsolidationBuilder) → Option (b ≡ claimed)
same_builder b =
    elim (same_text b.address "0xc"
      also same_text b.claimable_usdc "3"
      also same_true b.claimable_observed
      also same_one b.claimable_query_attempts
      also same_one b.claim_attempts
      also same_false b.claim_uncertain
      also same_success b.claim_status
      also same_text b.claim_summary ""
      also same_text b.sweep_amount "3"
      also same_success b.sweep_status
      also same_text b.sweep_summary "") [
        | none ↦ none
        | some (p0, (p1, (p2, (p3, (p4, (p5, (p6, (p7, (p8, (p9, p10)))))))))) ↦ some λ i. record {
          address = p0 i;
          claimable_usdc = p1 i;
          claimable_observed = p2 i;
          claimable_query_attempts = p3 i;
          claim_attempts = p4 i;
          claim_uncertain = p5 i;
          claim_status = p6 i;
          claim_summary = p7 i;
          sweep_amount = p8 i;
          sweep_status = p9 i;
          sweep_summary = p10 i;
        }
      ]

same_builders : (l : List DailyConsolidationBuilder) → Option (l ≡ claimed ∷ [])
same_builders [] = none
same_builders (b ∷ []) = elim (same_builder b) [ none ↦ none | some p ↦ some (ap (λ x. x ∷ []) p) ]
same_builders (b ∷ c ∷ l) = none

pub same_record : (c : DailyConsolidation) → Option (c ≡ recorded)
same_record c =
    elim (same_text c.utc_date "2026-01-01"
      also same_completed c.status
      also same_number c.started_at 1
      also same_number c.claimables_captured_at 2
      also same_number c.completed_at 3
      also same_builders c.builders) [
        | none ↦ none
        | some (p0, (p1, (p2, (p3, (p4, p5))))) ↦ some λ i. record {
          utc_date = p0 i;
          status = p1 i;
          started_at = p2 i;
          claimables_captured_at = p3 i;
          completed_at = p4 i;
          builders = p5 i;
        }
      ]

pub encoded : (e : Envelope DailyConsolidation) → Option (e.state ≡ recorded) → Result (List ℕ)
encoded e none = err (Failure.external "json")
encoded e (some p) = ok (e.schema_version ∷ e.checksum)

pub decoded : List ℕ → Result (Envelope DailyConsolidation)
decoded [] = err (Failure.external "json")
decoded (n ∷ checksum) = ok (record { schema_version = n; checksum = checksum; state = recorded })

-- Only the envelopes of `recorded` are encoded.
abbrev pub daily_codec : Codec DailyConsolidation
daily_codec = record {
  encode_state = λ c. ok (7 ∷ []);
  encode_envelope = λ e. encoded e (same_record e.state);
  decode_envelope = decoded;
  checksum = λ b. 9 ∷ b;
}

bytes_of : Result (List ℕ) → List ℕ
bytes_of (ok b) = b
bytes_of _ = []

read_back :
    (e : Envelope DailyConsolidation) (o : Option (e.state ≡ recorded)) (bytes : List ℕ)
    → encoded e o ≡ ok bytes
    → decoded bytes ≡ ok e
unfolding encoded decoded bytes_of
read_back e none bytes h = cc
read_back e (some p) bytes h =
    subst (λ b. decoded b ≡ ok e) (ap bytes_of h)
      (ap (λ c. ok (record { schema_version = e.schema_version; checksum = e.checksum; state = c }))
        (sym p))

pub daily_codec_laws : CodecLaws daily_codec
daily_codec_laws = record { decoded = λ e b h. read_back e (same_record e.state) b h }
