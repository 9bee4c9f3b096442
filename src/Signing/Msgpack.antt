-- ===== src/Signing/Msgpack.antt =====
-- internal/hyperliquid/signing/msgpack.go, on the values of internal/hyperliquid/wire.
pub mod Decode
pub mod Back
pub mod Whole
pub mod Packable
use builder_code_bot.Prelude.{
  ℕ, zero, suc, ◌+◌, ◌-◌, ◌*◌, ◌/◌, ◌%◌, ◌^◌, Bool, true, false, List, [], ◌∷◌, ◌++◌, leb, length,
  if◌then◌else◌,
}
use builder_code_bot.Prelude.Int.{ℤ, pos, negsuc}
use builder_code_bot.Funding.Action.{Failure, Result, ok, err, panic}

-- What a Go value of type `any` is to the encoder: a text is given by its bytes, an integer of a
-- signed type by its value, and `other` is a value of a type that is not supported.
mutual
  pub data Value : Type 0 where
    nothing : Value
    object : Fields → Value
    array : Items → Value
    text : List ℕ → Value
    truth : Bool → Value
    signed : ℤ → Value
    unsigned : ℕ → Value
    other : Value

  pub data Fields : Type 0 where
    end : Fields
    field : List ℕ → Value → Fields → Fields

  pub data Items : Type 0 where
    nil : Items
    item : Value → Items → Items

-- byte(x), and the big-endian bytes of writeUint16, writeUint32 and writeUint64
abbrev pub byte : ℕ → ℕ
byte x = x % 256

abbrev pub bytes16 : ℕ → List ℕ
bytes16 x = byte (x / 256) ∷ byte x ∷ []

abbrev pub bytes32 : ℕ → List ℕ
bytes32 x = byte (x / 16777216) ∷ byte (x / 65536) ∷ bytes16 x

abbrev pub bytes64 : ℕ → List ℕ
bytes64 x = bytes32 (x / 4294967296) ++ bytes32 x

unfoldable pub encode_uint : ℕ → List ℕ
encode_uint value =
    if leb value 127
    then value ∷ []
    else if leb value 255
    then 204 ∷ byte value ∷ []
    else if leb value 65535
    then 205 ∷ bytes16 value
    else if leb value 4294967295
    then 206 ∷ bytes32 value
    else 207 ∷ bytes64 value

-- A negative value -(n + 1) has the two's complement 2 ^ w - 1 - n in w bits.
unfoldable pub encode_int : ℤ → List ℕ
unfolding encode_uint
encode_int (pos n) = encode_uint n
encode_int (negsuc n) =
    if leb n 31
    then (255 - n) ∷ []
    else if leb n 127
    then 208 ∷ (255 - n) ∷ []
    else if leb n 32767
    then 209 ∷ bytes16 (65535 - n)
    else if leb n 2147483647
    then 210 ∷ bytes32 (4294967295 - n)
    else 211 ∷ bytes64 (18446744073709551615 - n)

-- The bits of 0xa0, 0x80 and 0x90 are disjoint from those of a short length.
unfoldable pub encode_string : List ℕ → List ℕ
encode_string value =
    let n = length value in
    if leb n 31
    then (160 + n) ∷ value
    else if leb n 255
    then 217 ∷ byte n ∷ value
    else if leb n 65535
    then 218 ∷ bytes16 n ++ value
    else 219 ∷ bytes32 n ++ value

-- A length is never negative.
unfoldable pub encode_map_len : ℕ → List ℕ
encode_map_len n =
    if leb n 15 then (128 + n) ∷ [] else if leb n 65535 then 222 ∷ bytes16 n else 223 ∷ bytes32 n

unfoldable pub encode_array_len : ℕ → List ℕ
encode_array_len n =
    if leb n 15 then (144 + n) ∷ [] else if leb n 65535 then 220 ∷ bytes16 n else 221 ∷ bytes32 n

abbrev pub count_fields : Fields → ℕ
count_fields end = 0
count_fields (field key v fs) = suc (count_fields fs)

abbrev pub count_items : Items → ℕ
count_items nil = 0
count_items (item v xs) = suc (count_items xs)

-- `first` and then `rest`, unless one of them fails.
abbrev pub after : List ℕ → Result (List ℕ) → Result (List ℕ)
after first (ok rest) = ok (first ++ rest)
after first (err e) = err e
after first panic = panic

abbrev pub both : Result (List ℕ) → Result (List ℕ) → Result (List ℕ)
both (ok first) rest = after first rest
both (err e) rest = err (Failure.wrapped "encode" e)
both panic rest = panic

unfoldable mutual
  unfolding encode_string encode_int encode_uint encode_map_len encode_array_len

  pub encode_value : Value → Result (List ℕ)
  encode_value nothing = ok (192 ∷ [])
  encode_value (object fs) = after (encode_map_len (count_fields fs)) (encode_fields fs)
  encode_value (array xs) = after (encode_array_len (count_items xs)) (encode_items xs)
  encode_value (text s) = ok (encode_string s)
  encode_value (truth true) = ok (195 ∷ [])
  encode_value (truth false) = ok (194 ∷ [])
  encode_value (signed z) = ok (encode_int z)
  encode_value (unsigned n) = ok (encode_uint n)
  encode_value other = err (Failure.plain "unsupported msgpack value type")

  pub encode_fields : Fields → Result (List ℕ)
  encode_fields end = ok []
  encode_fields (field [] v fs) = err (Failure.plain "msgpack object field key is empty")
  encode_fields (field (c ∷ key) v fs) =
      after (encode_string (c ∷ key)) (both (encode_value v) (encode_fields fs))

  pub encode_items : Items → Result (List ℕ)
  encode_items nil = ok []
  encode_items (item v xs) = both (encode_value v) (encode_items xs)
