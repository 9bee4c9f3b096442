-- ===== src/Funding/Model.antt =====
-- internal/funding/model.go, and the types of internal/hyperliquid/exchange/types.go and
-- internal/hyperliquid/info/types.go that it persists.
use builder_code_bot.Prelude.{ℕ, Bool, true, false, Option, List, [], ◌∷◌, String}
use builder_code_bot.Prelude.Int.{ℤ}

pub record Record : Type 0 where
  pub id : ℕ  -- uint64
  pub period_start_at : ℕ  -- uint64
  pub amount : String

-- `other` is a text of the persisted state that names no phase of this version.
pub data Phase : Type 0 where
  prepared payout_prepared payout_submitting payout_replaying payout_confirmed : Phase
  completed blocked : Phase
  other : String → Phase

abbrev pub is_completed : Phase → Bool
is_completed Phase.completed = true
is_completed _ = false

pub data Trigger : Type 0 where
  utc_payout utc_consolidation run_on_start consolidate_only : Trigger

pub data PayoutKind : Type 0 where
  referral : PayoutKind
  retired : String → PayoutKind

abbrev pub is_referral : PayoutKind → Bool
is_referral PayoutKind.referral = true
is_referral _ = false

pub record Token : Type 0 where
  pub name : String
  pub token_id : String
  pub index : ℤ
  pub wei_decimals : ℤ
  pub wire_token : String

-- A signed request, ready to be sent byte for byte.
pub record PreparedAction : Type 0 where
  pub kind : String
  pub signer : String
  pub destination : String
  pub token : String
  pub amount : String
  pub nonce : ℕ  -- uint64
  pub request_body : List ℕ  -- bytes

pub record SubmitResult : Type 0 where
  pub accepted : Bool
  pub rejected : Bool
  pub response : List ℕ  -- bytes

pub record SpotBalanceAmounts (A : Type 0) : Type 0 where
  pub total : A
  pub available : A

pub record Manifest : Type 0 where
  pub records : List Record
  pub raw_total : String
  pub payout_total : String
  pub token : Option Token  -- nil until a positive payout has resolved it
  pub settlement : String
  pub recipient : String

pub record PayoutJournal : Type 0 where
  pub prepared : PreparedAction
  pub total_before : String
  pub submit_attempts : ℕ  -- int; only 1 and 2 pass the validation

pub record PayoutTargetState : Type 0 where
  pub kind : PayoutKind
  pub phase : Phase
  pub manifest : Manifest
  pub payout : Option PayoutJournal
  pub blocked_reason : String
  pub confirmation_evidence : String

-- Times are nanoseconds. The transient Manifest of the consolidation path is a parameter there.
pub record RunState : Type 0 where
  pub run_id : String
  pub trigger : Trigger
  pub utc_date : String
  pub targets : List PayoutTargetState
  pub created_at : ℕ
  pub updated_at : ℕ

-- What activePayoutTarget returns: an error, no target left, or the active one. A run has a single
-- target, so the index that the code returns beside it is 0.
pub data ActiveTarget : Type 0 where
  unsupported : ActiveTarget
  all_completed : ActiveTarget
  active : PayoutTargetState → ActiveTarget

unfoldable pub active_of_target : PayoutTargetState → ActiveTarget
active_of_target t = elim (is_referral t.kind) [
  | false ↦ ActiveTarget.unsupported
  | true ↦ elim (is_completed t.phase) [
    | true ↦ ActiveTarget.all_completed
    | false ↦ ActiveTarget.active t
  ]
]

unfoldable pub active_payout_target : RunState → ActiveTarget
unfolding active_of_target
active_payout_target run = elim run.targets [
  | [] ↦ ActiveTarget.unsupported
  | t ∷ rest ↦ elim rest [ [] ↦ active_of_target t | _ ∷ _ ↦ ActiveTarget.unsupported ]
]
