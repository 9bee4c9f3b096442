-- ===== src/Funding/Validation/Sound.antt =====
-- What a payout journal is that passes validatePayoutJournal.
use builder_code_bot.Prelude.{
  ◌≤◌, ◌≡◌, ◌≢◌, ◌↔◌, refl, true, false, none, some, [], leb, ◌==◌, arith, inl, inr, Option-cases,
  List-cases,
}
use builder_code_bot.Prelude.Text.{text_eq, equal_fold}
use builder_code_bot.Funding.Model.{Token, PreparedAction, PayoutJournal, PayoutTargetState}
use builder_code_bot.Funding.Env.{RequestBody, Env}
use builder_code_bot.Funding.Validation.{
  validate_prepared_payout, validate_payout_journal, manifest_fits, validate_body, body_fits,
  amounts_equal, validate_total_before,
}

-- The signed request pays the manifest's amount from its settlement account to its recipient, and
-- nothing else: the body that is sent says so too.
pub record IsFaithful (E : Env) (t : PayoutTargetState) (a : PreparedAction) : Type 0 where
  pub token : Token
  pub resolved : t.manifest.token ≡ some token
  pub kind : text_eq a.kind "spotSend" ≡ true
  pub signer : equal_fold a.signer t.manifest.settlement ≡ true
  pub destination : equal_fold a.destination t.manifest.recipient ≡ true
  pub wire_token : text_eq a.token token.wire_token ≡ true
  pub amount : amounts_equal E a.amount t.manifest.payout_total ≡ true
  pub body : RequestBody
  pub not_empty : a.request_body ≢ []
  pub decoded : E.decode_body a.request_body ≡ some body
  pub body_type : text_eq body.action_type "spotSend" ≡ true
  pub body_destination : equal_fold body.destination a.destination ≡ true
  pub body_token : text_eq body.token a.token ≡ true
  pub body_amount : amounts_equal E body.amount a.amount ≡ true
  pub body_nonce : body.nonce ≡ a.nonce
  pub body_time : body.time ≡ a.nonce

-- The settlement total that was frozen before the request is a sum that the positive payout amount does not
-- exceed, and the request was sent or reserved once or twice.
pub record IsFrozen (E : Env) (t : PayoutTargetState) (j : PayoutJournal) : Type 0 where
  pub before : E.Decimal
  pub total_before : E.from_string j.total_before ≡ some before
  pub not_negative : E.is_negative before ≡ false
  pub payout : E.Decimal
  pub payout_total : E.from_string t.manifest.payout_total ≡ some payout
  pub pays : E.is_positive payout ≡ true
  pub covered : E.less_than before payout ≡ false
  pub least : 1 ≤ j.submit_attempts
  pub most : j.submit_attempts ≤ 2

module _ (E : Env) where
  body_of :
      (a : PreparedAction)
      → validate_body E a ≡ none
      → (b : RequestBody) × (E.decode_body a.request_body ≡ some b)
        × (body_fits E b a ≡ true)
        × (a.request_body ≢ [])
  unfolding validate_body
  body_of a h = elim (List-cases a.request_body) [
    | inl q ↦ cc
    | inr (c, cs, q) ↦ elim (Option-cases (E.decode_body a.request_body)) [
      | inl d ↦ cc
      | inr (b, d) ↦ (b, d, ground arith, λ e. cc (e, q))
    ]
  ]

  token_found :
      (t : PayoutTargetState) (a : PreparedAction)
      → validate_prepared_payout E t a ≡ none
      → (k : Token) × (t.manifest.token ≡ some k)
        × (manifest_fits E t k a ≡ true)
        × (amounts_equal E a.amount t.manifest.payout_total ≡ true)
        × (validate_body E a ≡ none)
  unfolding validate_prepared_payout
  token_found t a h = elim (Option-cases t.manifest.token) [
    | inl q ↦ cc
    | inr (k, q) ↦ (k, q, ground arith, ground arith, ground arith)
  ]

  frozen :
      (t : PayoutTargetState) (j : PayoutJournal)
      → validate_total_before E t j ≡ none
      → IsFrozen E t j
  unfolding validate_total_before
  frozen t j h = elim (Option-cases (E.from_string j.total_before)) [
    | inl q ↦ cc
    | inr (x, q) ↦ elim (Option-cases (E.from_string t.manifest.payout_total)) [
      | inl p ↦ ground arith
      | inr (y, p) ↦ record {
        before = x;
        total_before = q;
        not_negative = ground arith;
        payout = y;
        payout_total = p;
        pays = ground arith;
        covered = ground arith;
        least = ground arith;
        most = ground arith;
      }
    ]
  ]

  fits_destination :
      (b : RequestBody) (a : PreparedAction)
      → body_fits E b a ≡ true
      → (equal_fold b.destination a.destination ≡ true)
        × (text_eq b.token a.token ≡ true)
        × (amounts_equal E b.amount a.amount ≡ true)
        × (b.nonce ≡ a.nonce)
        × (text_eq b.action_type "spotSend" ≡ true)
        × (b.time ≡ a.nonce)
  unfolding body_fits
  fits_destination b a h =
      (ground arith, ground arith, ground arith, ground arith, ground arith, ground arith)

  fits_manifest :
      (t : PayoutTargetState) (k : Token) (a : PreparedAction)
      → manifest_fits E t k a ≡ true
      → (equal_fold a.signer t.manifest.settlement ≡ true)
        × (equal_fold a.destination t.manifest.recipient ≡ true)
        × (text_eq a.token k.wire_token ≡ true)
        × (text_eq a.kind "spotSend" ≡ true)
  unfolding manifest_fits
  fits_manifest t k a h = (ground arith, ground arith, ground arith, ground arith)

  sound :
      (t : PayoutTargetState) (a : PreparedAction)
      → validate_prepared_payout E t a ≡ none
      → IsFaithful E t a
  sound t a h =
      let (k, resolved, fits, amount, valid) = token_found t a h in
      let (signer, destination, wire_token, kind) = fits_manifest t k a fits in
      let (b, decoded, agrees, not_empty) = body_of a valid in
      let (body_destination, body_token, body_amount, body_nonce, body_type, body_time) =
        fits_destination b a agrees in
      record {
        token = k;
        resolved = resolved;
        kind = kind;
        signer = signer;
        destination = destination;
        wire_token = wire_token;
        amount = amount;
        body = b;
        not_empty = not_empty;
        decoded = decoded;
        body_type = body_type;
        body_destination = body_destination;
        body_token = body_token;
        body_amount = body_amount;
        body_nonce = body_nonce;
        body_time = body_time;
      }

  faithful_body :
      (t : PayoutTargetState) (a : PreparedAction) → IsFaithful E t a → validate_body E a ≡ none
  unfolding validate_body body_fits
  faithful_body t a f = elim (List-cases a.request_body) [
    | inl q ↦ elim (f.not_empty q) [ ]
    | inr (c, cs, q) ↦
        let nonce : (f.body.nonce == a.nonce) ≡ true = ground (arith, f.body_nonce) in
        let time : (f.body.time == a.nonce) ≡ true = ground (arith, f.body_time) in
        rw
          (
            validate_body, q, f.decoded, f.body_amount, f.body_type, f.body_destination,
            f.body_token, nonce, time,
          )
          refl
  ]

  complete :
      (t : PayoutTargetState) (a : PreparedAction)
      → IsFaithful E t a
      → validate_prepared_payout E t a ≡ none
  unfolding validate_prepared_payout manifest_fits
  complete t a f =
      rw (f.resolved, f.kind, f.signer, f.destination, f.wire_token, f.amount, faithful_body t a f)
        refl

  -- validatePreparedPayout accepts exactly the requests that send the manifest's amount from the settlement
  -- account to the recipient in the manifest's token, and whose body, the bytes that are sent, decodes
  -- to that same spot send with the request's nonce and time.
  pub validate_prepared_payout_lem :
      (t : PayoutTargetState) (a : PreparedAction)
      → (validate_prepared_payout E t a ≡ none) ↔ IsFaithful E t a
  validate_prepared_payout_lem t a = (sound t a, complete t a)

  journal_checked :
      (t : PayoutTargetState)
      → validate_payout_journal E t ≡ none
      → (j : PayoutJournal) × (t.payout ≡ some j) × IsFaithful E t j.prepared × IsFrozen E t j
  unfolding validate_payout_journal
  journal_checked t h = elim (Option-cases t.payout) [
    | inl q ↦ cc
    | inr (j, q) ↦ (j, q, sound t j.prepared (ground arith), frozen t j (ground arith))
  ]

  frozen_accepted :
      (t : PayoutTargetState) (j : PayoutJournal)
      → IsFrozen E t j
      → validate_total_before E t j ≡ none
  unfolding validate_total_before
  frozen_accepted t j f =
      let least : leb 1 j.submit_attempts ≡ true = ground (arith, f.least) in
      let most : leb j.submit_attempts 2 ≡ true = ground (arith, f.most) in
      rw
        (
          validate_total_before, f.total_before, f.not_negative, f.payout_total, f.pays, f.covered,
          least, most,
        )
        refl

  journal_accepted :
      (t : PayoutTargetState)
      → ((j : PayoutJournal) × (t.payout ≡ some j) × IsFaithful E t j.prepared × IsFrozen E t j)
      → validate_payout_journal E t ≡ none
  unfolding validate_payout_journal
  journal_accepted t (j, q, f, b) = rw (q, complete t j.prepared f, frozen_accepted t j b) refl

  -- validatePayoutJournal accepts exactly the targets with a journal whose request is faithful to the
  -- manifest, whose total before the payout covers the positive payout amount, and which counts one or two
  -- attempts.
  pub validate_payout_journal_lem :
      (t : PayoutTargetState)
      → (validate_payout_journal E t ≡ none)
        ↔ ((j : PayoutJournal) × (t.payout ≡ some j) × IsFaithful E t j.prepared × IsFrozen E t j)
  validate_payout_journal_lem t = (journal_checked t, journal_accepted t)
