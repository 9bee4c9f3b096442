-- ===== src/State/Envelope.antt =====
-- internal/state/envelope.go: a run's state with its schema version and its checksum. `S` is the
-- type funding.RunState; encoding/json and crypto/sha256 are the fields of `Codec`.
use builder_code_bot.Prelude.{ℕ, ◌≡◌, refl, ◌∙◌, List, String, ◌==◌, if◌then◌else◌}
use builder_code_bot.Prelude.Text.{codes_eq, codes_eq_refl}
use builder_code_bot.Funding.Action.{Failure, Result, ok, err, panic}

abbrev pub schema_version : ℕ
schema_version = 3

-- The checksum is a text of hexadecimal digits, given by its codes.
pub record Envelope (S : Type 0) : Type 0 where
  pub schema_version : ℕ
  pub checksum : List ℕ
  pub state : S

-- json.Marshal of a state and of an envelope, json.Unmarshal of an envelope, and
-- hex.EncodeToString of sha256.Sum256.
pub record Codec (S : Type 0) : Type 0 where
  pub encode_state : S → Result (List ℕ)
  pub encode_envelope : Envelope S → Result (List ℕ)
  pub decode_envelope : List ℕ → Result (Envelope S)
  pub checksum : List ℕ → List ℕ

-- What json.Marshal has written of an envelope, json.Unmarshal reads back.
pub record CodecLaws {S : Type 0} (C : Codec S) : Type 0 where
  pub decoded :
      (e : Envelope S) (bytes : List ℕ)
      → C.encode_envelope e ≡ ok bytes
      → C.decode_envelope bytes ≡ ok e

-- `return …, fmt.Errorf(text, err)` on an error, and otherwise what follows
unfoldable pub and_then : {A B : Type 0} → String → Result A → (A → Result B) → Result B
and_then text (ok a) f = f a
and_then text (err e) f = err (Failure.wrapped text e)
and_then text panic f = panic

module _ {S : Type 0} (C : Codec S) where
  unfoldable pub marshal_envelope : S → Result (List ℕ)
  unfolding and_then
  marshal_envelope state = and_then "encode run state" (C.encode_state state) λ state_json.
      and_then "encode state envelope"
        (C.encode_envelope (record {
          schema_version = schema_version;
          checksum = C.checksum state_json;
          state = state;
        }))
        ok

  check_sum : Envelope S → Result S
  unfolding and_then
  check_sum saved = and_then "encode state for checksum" (C.encode_state saved.state) λ state_json.
      if codes_eq saved.checksum (C.checksum state_json)
      then ok saved.state
      else err (Failure.plain "state checksum mismatch")

  unfoldable pub unmarshal_envelope : List ℕ → Result S
  unfolding check_sum
  unmarshal_envelope bytes = and_then "decode state envelope" (C.decode_envelope bytes) λ saved.
      if saved.schema_version == schema_version
      then check_sum saved
      else err (Failure.plain "unsupported state schema version")

  module _ (L : CodecLaws C) where
    read_back :
        (state : S) (r : Result (List ℕ)) (json bytes : List ℕ)
        → C.encode_state state ≡ ok json
        → C.encode_envelope
            (record { schema_version = schema_version; checksum = C.checksum json; state = state })
          ≡ r
        → and_then "encode state envelope" r ok ≡ ok bytes
        → unmarshal_envelope bytes ≡ ok state
    unfolding unmarshal_envelope and_then
    read_back state (ok d) json bytes h q e =
        rw (L.decoded _ bytes (q ∙ e), h, codes_eq_refl (C.checksum json)) refl
    read_back state (err x) json bytes h q e = cc
    read_back state panic json bytes h q e = cc

    marshaled :
        (state : S) (r : Result (List ℕ)) (bytes : List ℕ)
        → C.encode_state state ≡ r
        → and_then "encode run state" r (λ json.
          and_then "encode state envelope"
            (C.encode_envelope (record {
              schema_version = schema_version;
              checksum = C.checksum json;
              state = state;
            }))
            ok)
          ≡ ok bytes
        → unmarshal_envelope bytes ≡ ok state
    unfolding and_then
    marshaled state (ok json) bytes h e = read_back state _ json bytes h refl e
    marshaled state (err x) bytes h e = cc
    marshaled state panic bytes h e = cc

    -- Whatever state marshalEnvelope has encoded, unmarshalEnvelope reads from the bytes, when
    -- json.Unmarshal reads what json.Marshal writes.
    pub unmarshal_envelope-marshal_envelope :
        (state : S) (bytes : List ℕ)
        → marshal_envelope state ≡ ok bytes
        → unmarshal_envelope bytes ≡ ok state
    unfolding marshal_envelope
    unmarshal_envelope-marshal_envelope state bytes e = marshaled state _ bytes refl e
