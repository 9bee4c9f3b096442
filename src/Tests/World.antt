-- ===== src/Tests/World.antt =====
-- A concrete environment: whole numbers for amounts, an exchange that leaves the first request
-- unanswered and accepts the second one, and a store that always succeeds.
use builder_code_bot.Prelude.{
  ℕ, zero, suc, ◌+◌, ◌-◌, ◌*◌, true, false, ◌&&◌, Option, none, some, List, [], ◌∷◌, String, leb,
  if◌then◌else◌,
}
use builder_code_bot.Prelude.Int.{ℤ, pos, negsuc, ◌+ℤ◌, ◌-ℤ◌, ltb_ℤ, eqb_ℤ}
use builder_code_bot.Prelude.Text.{codes, int_text}
use builder_code_bot.Decimal.{Decimals}
use builder_code_bot.Funding.Model.{
  Phase, PayoutKind, Trigger, Token, PreparedAction, SubmitResult, Manifest, PayoutTargetState,
  RunState,
}
use builder_code_bot.Funding.Action.{Failure, ok, err}
use builder_code_bot.Funding.Env.{Effect, History, Env}
use builder_code_bot.Funding.Report.Builders.{no_daily}
use builder_code_bot.Funding.Report.{ReportStatus, RunReport}
use builder_code_bot.Funding.Session.{Session}

digits_value : ℕ → List ℕ → Option ℕ
digits_value acc [] = some acc
digits_value acc (c ∷ cs) =
    let rest = digits_value (acc * 10 + (c - 48)) cs in if leb 48 c && leb c 57 then rest else none

unfoldable pub parse_whole : List ℕ → Option ℤ
unfolding digits_value
parse_whole [] = none
parse_whole (c ∷ cs) = elim (digits_value 0 (c ∷ cs)) [ none ↦ none | some n ↦ some (pos n) ]

unfoldable pub whole_text : ℤ → String
unfolding int_text
whole_text (pos n) = int_text n
whole_text (negsuc n) = "-"

abbrev pub whole_numbers : Decimals
whole_numbers = record {
  Decimal = ℤ;
  from_int = pos;
  from_string = λ s. parse_whole (codes s);
  to_string = whole_text;
  string_fixed = λ _ x. whole_text x;
  add = ◌+ℤ◌;
  sub = ◌-ℤ◌;
  shift_up = λ _ x. x;
  shift_down = λ _ x. x;
  ceil = λ x. x;
  truncate = λ _ x. x;
  equal = eqb_ℤ;
  less_than = ltb_ℤ;
  is_negative = λ x. ltb_ℤ x (pos 0);
  is_positive = λ x. ltb_ℤ (pos 0) x;
}

abbrev pub usdc : Token
usdc = record {
  name = "USDC";
  token_id = "0x1";
  index = pos 0;
  wei_decimals = pos 8;
  wire_token = "USDC:0x1";
}

abbrev pub request : PreparedAction
request = record {
  kind = "spotSend";
  signer = "0xa";
  destination = "0xb";
  token = "USDC:0x1";
  amount = "5";
  nonce = 7;
  request_body = 1 ∷ [];
}

abbrev submissions : History ℤ → ℕ
submissions [] = 0
submissions (Effect.submitted p r e ∷ h) = suc (submissions h)
submissions (e ∷ h) = submissions h

abbrev answer : ℕ → SubmitResult
answer zero = record { accepted = false; rejected = false; response = [] }
answer (suc n) = record { accepted = true; rejected = false; response = [] }

abbrev pub world : Env
world = record {
  numbers = whole_numbers;
  context_error = λ _. none;
  now = λ _. 0;
  next_nonce = λ _. 7;
  sleep = λ _ _. none;
  canonical_usdc = λ _. ok usdc;
  claimable_usdc = λ _ _ _. ok (pos 0);
  spot_balance = λ _ _ _. ok (record { total = pos 20; available = pos 20 });
  user_rate_limit = λ _ _. ok 1000;
  prepare_claim = λ _ _ _. err Failure.canceled;
  prepare_spot_send = λ _ _ _ _ _ _. ok request;
  submit = λ h _. (answer (submissions h), none);
  load_current = λ _. record { current = none; recovered_from_backup = false; error = none };
  save = λ _ _. none;
  archive = λ _ _ _. none;
  clear = λ _. none;
  list_pending = λ _. ok (record { id = 1; period_start_at = 100; amount = "5" } ∷ []);
  complete = λ _ _. none;
  settlement = "0xa";
  recipient = "0xb";
  builders = "0xc" ∷ "0xd" ∷ [];
  builder_name = λ _. "";
  network = "testnet";
  schedule = λ _ _. 0;
  load_daily = λ _ _. ok none;
  save_daily = λ _ _. none;
  is_date = λ _. true;
  decode_rejection = λ _. none;
  decode_text = λ _. none;
  new_run_id = λ _. ok "run";
  date_only = λ _. "2026-01-01";
  decode_body = λ _. some (record {
    action_type = "spotSend";
    destination = "0xb";
    token = "USDC:0x1";
    amount = "5";
    time = 7;
    nonce = 7;
  });
}

abbrev pub manifest : Manifest
manifest = record {
  records = record { id = 1; period_start_at = 100; amount = "5" } ∷ [];
  raw_total = "5";
  payout_total = "5";
  token = some usdc;
  settlement = "0xa";
  recipient = "0xb";
}

abbrev pub target_at : Phase → ℕ → PayoutTargetState
target_at phase attempts = record {
  kind = PayoutKind.referral;
  phase = phase;
  manifest = manifest;
  payout = some (record { prepared = request; total_before = "20"; submit_attempts = attempts });
  blocked_reason = "";
  confirmation_evidence = "";
}

abbrev pub run_at : Phase → ℕ → RunState
run_at phase attempts = record {
  run_id = "run";
  trigger = Trigger.utc_payout;
  utc_date = "2026-01-01";
  targets = target_at phase attempts ∷ [];
  created_at = 0;
  updated_at = 0;
}

abbrev pub new_report : RunReport
new_report = record {
  status = ReportStatus.unset;
  compact = false;
  trigger = Trigger.utc_payout;
  outcome = "";
  attempt = 1;
  max_attempts = 5;
  recovery = false;
  network = "";
  run_id = "";
  utc_date = "";
  phase = none;
  started_at = 0;
  claimables_captured_at = 0;
  finished_at = 0;
  record_count = 0;
  records_read = false;
  raw_total = "";
  payout_total = "";
  stages = [];
  builders = [];
  daily_consolidation = no_daily;
  payouts = [];
  settlement_balance = record {
    address = "0xa";
    total = "";
    hold = "";
    available = "";
    observed = false;
    query_failed = false;
    post_payout_unconfirmed = false;
  };
  settlement_rate_limit_remaining = 0;
  settlement_rate_limit_observed = false;
  settlement_rate_limit_query_failed = false;
  settlement_rate_limit_visibility_unconfirmed = false;
  warnings = [];
  failure_stage = "";
  failure_summary = "";
  next_action = "";
  token = none;
  submitted_accounts = [];
}

abbrev pub start : Session ℤ
start = record {
  run = run_at Phase.prepared 1;
  target = target_at Phase.prepared 1;
  report = new_report;
  alerts = [];
  low_limits = [];
  history = [];
}
