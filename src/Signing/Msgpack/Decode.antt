-- ===== src/Signing/Msgpack/Decode.antt =====
-- A decoder of the msgpack format, against which the encoder of
-- internal/hyperliquid/signing/msgpack.go is proved.
use builder_code_bot.Prelude.{
  ℕ, zero, suc, ◌+◌, ◌-◌, ◌*◌, true, false, Option, none, some, List, [], ◌∷◌, leb, ◌==◌, length,
  take, drop, if◌then◌else◌,
}
use builder_code_bot.Prelude.Int.{negsuc}
use builder_code_bot.Signing.Msgpack.{Value, Fields, Items}

abbrev pub Parsed : Type 0 → Type 0
Parsed A = Option (A × List ℕ)

module _ {A B : Type 0} where
  abbrev pub then_read : Parsed A → (A → List ℕ → Parsed B) → Parsed B
  then_read none f = none
  then_read (some (a, r)) f = f a r

abbrev pub number8 : List ℕ → Parsed ℕ
number8 (a ∷ r) = some (a, r)
number8 _ = none

abbrev pub number16 : List ℕ → Parsed ℕ
number16 (a ∷ b ∷ r) = some (a * 256 + b, r)
number16 _ = none

abbrev pub number32 : List ℕ → Parsed ℕ
number32 (a ∷ b ∷ c ∷ d ∷ r) = some (a * 16777216 + b * 65536 + c * 256 + d, r)
number32 _ = none

abbrev pub number64 : List ℕ → Parsed ℕ
number64 l =
    then_read (number32 l)
      λ high r. then_read (number32 r) λ low q. some (high * 4294967296 + low, q)

abbrev pub some_bytes : ℕ → List ℕ → Parsed (List ℕ)
some_bytes n r = if leb n (length r) then some (take n r, drop n r) else none

-- What the first byte says.
pub data Head : Type 0 where
  small negative map_of array_of text_of code : ℕ → Head

unfoldable pub head_of : ℕ → Head
head_of c =
    if leb c 127
    then Head.small c
    else if leb c 143
    then Head.map_of (c - 128)
    else if leb c 159
    then Head.array_of (c - 144)
    else if leb c 191
    then Head.text_of (c - 160)
    else if leb 224 c
    then Head.negative (255 - c)
    else Head.code c

abbrev pub text_code : ℕ → List ℕ → Parsed (List ℕ)
text_code c r =
    if c == 217
    then then_read (number8 r) some_bytes
    else if c == 218
    then then_read (number16 r) some_bytes
    else if c == 219
    then then_read (number32 r) some_bytes
    else none

abbrev pub text_head : Head → List ℕ → Parsed (List ℕ)
text_head (Head.text_of n) r = some_bytes n r
text_head (Head.code c) r = text_code c r
text_head _ r = none

unfoldable pub decode_string : List ℕ → Parsed (List ℕ)
unfolding head_of
decode_string [] = none
decode_string (c ∷ r) = text_head (head_of c) r

abbrev pub value_of : {A : Type 0} → (A → Value) → Parsed A → Parsed Value
value_of f none = none
value_of f (some (a, r)) = some (f a, r)

-- A value of w bits whose sign bit is set: 2 ^ w - 1 less the value is what -(n + 1) has for n.
abbrev pub negative_of : ℕ → ℕ → Value
negative_of top n = Value.signed (negsuc (top - n))

module _ (maps : ℕ → List ℕ → Parsed Fields) (arrays : ℕ → List ℕ → Parsed Items) where
  abbrev pub decode_code : ℕ → List ℕ → Parsed Value
  decode_code c r =
      if c == 192
      then some (Value.nothing, r)
      else if c == 194
      then some (Value.truth false, r)
      else if c == 195
      then some (Value.truth true, r)
      else if c == 204
      then value_of Value.unsigned (number8 r)
      else if c == 205
      then value_of Value.unsigned (number16 r)
      else if c == 206
      then value_of Value.unsigned (number32 r)
      else if c == 207
      then value_of Value.unsigned (number64 r)
      else if c == 208
      then value_of (negative_of 255) (number8 r)
      else if c == 209
      then value_of (negative_of 65535) (number16 r)
      else if c == 210
      then value_of (negative_of 4294967295) (number32 r)
      else if c == 211
      then value_of (negative_of 18446744073709551615) (number64 r)
      else if c == 220
      then then_read (number16 r) (λ n q. value_of Value.array (arrays n q))
      else if c == 221
      then then_read (number32 r) (λ n q. value_of Value.array (arrays n q))
      else if c == 222
      then then_read (number16 r) (λ n q. value_of Value.object (maps n q))
      else if c == 223
      then then_read (number32 r) (λ n q. value_of Value.object (maps n q))
      else value_of Value.text (text_code c r)

  abbrev pub decode_head : Head → List ℕ → Parsed Value
  decode_head (Head.small n) r = some (Value.unsigned n, r)
  decode_head (Head.negative n) r = some (Value.signed (negsuc n), r)
  decode_head (Head.map_of n) r = value_of Value.object (maps n r)
  decode_head (Head.array_of n) r = value_of Value.array (arrays n r)
  decode_head (Head.text_of n) r = value_of Value.text (some_bytes n r)
  decode_head (Head.code c) r = decode_code c r

  unfoldable pub decode_with : List ℕ → Parsed Value
  unfolding head_of
  decode_with [] = none
  decode_with (c ∷ r) = decode_head (head_of c) r

-- The first argument is the fuel.
unfoldable mutual
  unfolding decode_with decode_string

  pub decode : ℕ → List ℕ → Parsed Value
  decode zero r = none
  decode (suc f) r = decode_with (decode_fields f) (decode_items f) r

  pub decode_fields : ℕ → ℕ → List ℕ → Parsed Fields
  decode_fields zero n r = none
  decode_fields (suc f) zero r = some (Fields.end, r)
  decode_fields (suc f) (suc n) r = then_read (decode_string r) λ key q.
      then_read (decode f q)
        λ v p. then_read (decode_fields f n p) λ fs o. some (Fields.field key v fs, o)

  pub decode_items : ℕ → ℕ → List ℕ → Parsed Items
  decode_items zero n r = none
  decode_items (suc f) zero r = some (Items.nil, r)
  decode_items (suc f) (suc n) r =
      then_read (decode f r) λ v p. then_read (decode_items f n p) λ xs o. some (Items.item v xs, o)
