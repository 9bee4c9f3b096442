-- ===== src/Funding/RateLimit/Latch.antt =====
-- The latch of the rate limit alerts of internal/funding/rate_limit.go.
use builder_code_bot.Prelude.{
  ℕ, ◌≡◌, refl, inl, inr, Bool, true, false, List, [], ◌∷◌, String, if◌then◌else◌, Bool-cases,
}
use builder_code_bot.Prelude.Text.{address_key, codes_eq, codes_eq_refl}
use builder_code_bot.Funding.RateLimit.{holds_account, delete_account, update_rate_limit_alert}

deleted :
    (key : List ℕ) (keys : List (List ℕ)) → holds_account key (delete_account key keys) ≡ false
deleted key [] = refl
deleted key (k ∷ keys) = elim (Bool-cases (codes_eq k key)) [
  | inl q ↦ rw q (deleted key keys)
  | inr q ↦ rw (q, q) (deleted key keys)
]

risen : (key : List ℕ) (keys : List (List ℕ)) → holds_account key (key ∷ keys) ≡ true
risen key keys = rw (codes_eq_refl key) refl

-- the latch of an account after one observation
abbrev latched : String → Bool → List (List ℕ) → Bool
latched address at_risk keys =
    holds_account (address_key address) (update_rate_limit_alert address at_risk keys).1

-- updateRateLimitAlert alerts exactly when the account is at risk and was not before; afterwards its
-- latch tells whether it is at risk.
pub update_rate_limit_alert_lem :
    (address : String) (at_risk : Bool) (keys : List (List ℕ))
    → ((update_rate_limit_alert address at_risk keys).0 ≡ (
        if at_risk
        then (if holds_account (address_key address) keys then false else true)
        else false))
      × (latched address at_risk keys ≡ at_risk)
unfolding update_rate_limit_alert
update_rate_limit_alert_lem address false keys = (refl, deleted (address_key address) keys)
update_rate_limit_alert_lem address true keys =
    elim (Bool-cases (holds_account (address_key address) keys)) [
      | inl q ↦ (rw q refl, rw q q)
      | inr q ↦ (rw q refl, rw q (risen (address_key address) keys))
    ]

-- the alerts that a sequence of observations of one account raises
unfoldable pub alerts : String → List Bool → List (List ℕ) → List Bool
unfolding update_rate_limit_alert
alerts address [] keys = []
alerts address (risk ∷ risks) keys =
    let (now, keys') = update_rate_limit_alert address risk keys in now ∷ alerts address risks keys'

-- one alert for each change from healthy to at risk
abbrev pub rises : Bool → List Bool → List Bool
rises before [] = []
rises before (risk ∷ risks) =
    (if risk then (if before then false else true) else false) ∷ rises risk risks

-- Over any sequence of observations of an account, the alerts that are raised are the changes of that
-- account from healthy to at risk.
pub alerts_lem :
    (address : String) (risks : List Bool) (keys : List (List ℕ))
    → alerts address risks keys ≡ rises (holds_account (address_key address) keys) risks
unfolding alerts
alerts_lem address [] keys = refl
alerts_lem address (risk ∷ risks) keys =
    let (now, then') = update_rate_limit_alert_lem address risk keys in
    rw (now, alerts_lem address risks (update_rate_limit_alert address risk keys).1, then') refl
