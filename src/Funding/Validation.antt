-- ===== src/Funding/Validation.antt =====
-- internal/funding/action_validation.go, and the test on a blocked target of
-- internal/funding/payout.go. `none` is a nil error.
pub mod Sound
use builder_code_bot.Prelude.{
  ℕ, Bool, true, false, ◌&&◌, not, Option, none, some, [], ◌∷◌, String, leb, ◌==◌,
}
use builder_code_bot.Prelude.Text.{text_eq, has_prefix, equal_fold}
use builder_code_bot.Funding.Model.{
  Token, PreparedAction, PayoutJournal, PayoutTargetState, RunState, Phase, ActiveTarget,
  active_payout_target,
}
use builder_code_bot.Funding.Action.{Failure}
use builder_code_bot.Funding.Env.{RequestBody, Env}

abbrev pub uncertain_prefix : String
uncertain_prefix = "final payout result remained uncertain"

unfoldable pub is_uncertain_payout_block : PayoutTargetState → Bool
is_uncertain_payout_block target = elim target.payout [
  | none ↦ false
  | some _ ↦ has_prefix target.blocked_reason uncertain_prefix
]

-- `if !b { return fmt.Errorf(message) }`, and then the rest
abbrev pub require : Bool → String → Option Failure → Option Failure
require true message rest = rest
require false message rest = some (Failure.plain message)

phase_text : Phase → String
phase_text Phase.prepared = "prepared"
phase_text Phase.payout_prepared = "payout_prepared"
phase_text Phase.payout_submitting = "payout_submitting"
phase_text Phase.payout_replaying = "payout_replaying"
phase_text Phase.payout_confirmed = "payout_confirmed"
phase_text Phase.completed = "completed"
phase_text Phase.blocked = "blocked"
phase_text (Phase.other p) = p

-- The attempts that a phase with a journal requires.
unfoldable pub attempts_fit : Phase → ℕ → Option Failure
unfolding phase_text
attempts_fit Phase.payout_prepared n =
    require (n == 1) "payout_prepared requires exactly one reserved submit attempt" none
attempts_fit Phase.payout_submitting n =
    require (n == 1) "payout_submitting requires exactly one reserved submit attempt" none
attempts_fit Phase.payout_replaying n =
    require (n == 2) "payout replaying requires exactly two reserved submit attempts" none
attempts_fit _ n = none

module _ (E : Env) where
  open E use {Decimal}

  -- Both texts are decimals, of one value.
  unfoldable pub amounts_equal : String → String → Bool
  amounts_equal a b = elim (E.from_string a) [
    | none ↦ false
    | some x ↦ elim (E.from_string b) [ none ↦ false | some y ↦ E.equal x y ]
  ]

  body_fits : RequestBody → PreparedAction → Bool
  unfolding amounts_equal
  body_fits body action =
      amounts_equal body.amount action.amount
      && text_eq body.action_type "spotSend"
      && equal_fold body.destination action.destination
      && text_eq body.token action.token
      && body.nonce == action.nonce
      && body.time == action.nonce

  validate_body : PreparedAction → Option Failure
  unfolding body_fits
  validate_body action = elim action.request_body [
    | [] ↦ some (Failure.plain "prepared payout request body is empty")
    | _ ∷ _ ↦ elim (E.decode_body action.request_body) [
      | none ↦
          some (Failure.wrapped "decode prepared payout request" (Failure.external "encoding/json"))
      | some body ↦
          require (body_fits body action)
            "prepared payout request body does not match persisted action" none
    ]
  ]

  manifest_fits : PayoutTargetState → Token → PreparedAction → Bool
  manifest_fits target token action =
      text_eq action.kind "spotSend"
      && equal_fold action.signer target.manifest.settlement
      && equal_fold action.destination target.manifest.recipient
      && text_eq action.token token.wire_token

  unfoldable pub validate_prepared_payout : PayoutTargetState → PreparedAction → Option Failure
  unfolding validate_body manifest_fits amounts_equal
  validate_prepared_payout target action = elim target.manifest.token [
    | none ↦ some (Failure.plain "payout manifest token is missing")
    | some token ↦
        require (manifest_fits target token action)
          "prepared payout does not match immutable manifest"
          (require (amounts_equal action.amount target.manifest.payout_total)
            "prepared payout amount does not match immutable manifest" (validate_body action))
  ]

  validate_total_before : PayoutTargetState → PayoutJournal → Option Failure
  validate_total_before target journal = elim (E.from_string journal.total_before) [
    | none ↦ some (Failure.plain "payout settlement total-before boundary is invalid")
    | some before ↦
        require (not (E.is_negative before)) "payout settlement total-before boundary is invalid"
          (elim (E.from_string target.manifest.payout_total) [
            | none ↦ some (Failure.plain "payout amount is invalid")
            | some amount ↦ require (E.is_positive amount) "payout amount is invalid" (
                require (not (E.less_than before amount))
                  "payout settlement total-before boundary is below payout amount"
                  (require (leb 1 journal.submit_attempts && leb journal.submit_attempts 2)
                    "payout submit attempts must be one or two" none))
          ])
  ]

  -- an error that is there is returned, otherwise the rest is checked
  abbrev pub after : Option Failure → Option Failure → Option Failure
  after none rest = rest
  after (some e) rest = some e

  unfoldable pub validate_payout_journal : PayoutTargetState → Option Failure
  unfolding validate_prepared_payout validate_total_before
  validate_payout_journal target = elim target.payout [
    | none ↦ some (Failure.plain "payout journal is missing")
    | some journal ↦
        after (validate_prepared_payout target journal.prepared)
          (validate_total_before target journal)
  ]

  unfoldable pub validate_confirmed_payout_state : PayoutTargetState → Option Failure
  unfolding validate_payout_journal
  validate_confirmed_payout_state = validate_payout_journal

  -- The pointer comparison of the code holds: `run` has `target` as its only element.
  unfoldable pub validate_target_progress : RunState → PayoutTargetState → Option Failure
  unfolding validate_payout_journal attempts_fit
  validate_target_progress run target = elim (active_payout_target run) [
    | ActiveTarget.unsupported ↦
        some (Failure.plain "funding run must contain only the referral payout target")
    | ActiveTarget.all_completed ↦
        some (Failure.plain "active payout target does not match persisted progress")
    | ActiveTarget.active _ ↦ elim target.payout [
      | none ↦ none
      | some journal ↦
          after (validate_payout_journal target) (attempts_fit target.phase journal.submit_attempts)
    ]
  ]
