-- ===== src/Signing/Msgpack/Back.antt =====
-- What the encoder of internal/hyperliquid/signing/msgpack.go has written of a number or a text is
-- read back.
use builder_code_bot.Prelude.{
  ℕ, ◌+◌, ◌-◌, ◌<◌, ◌≡◌, ◌≤◌, refl, ap, inl, inr, true, false, some, List, ◌++◌, leb, leb→le,
  length, length-append, take-append, drop-append, Bool-cases, arith,
}
use builder_code_bot.Prelude.Int.{negsuc}
use builder_code_bot.Signing.Msgpack.{
  Value, Fields, Items, byte, bytes16, bytes32, bytes64, encode_uint, encode_int, encode_string,
  encode_map_len, encode_array_len,
}
use builder_code_bot.Signing.Msgpack.Decode.{
  Parsed, Head, head_of, number16, number32, number64, some_bytes, decode_string, decode_with,
  value_of,
}

byte_back : (x : ℕ) → x < 256 → byte x ≡ x
byte_back x h = omega arith

number16-bytes16 : (x : ℕ) (r : List ℕ) → x < 65536 → number16 (bytes16 x ++ r) ≡ some (x, r)
number16-bytes16 x r h = ap (λ n. some (n, r)) (omega arith)

number32-bytes32 : (x : ℕ) (r : List ℕ) → x < 4294967296 → number32 (bytes32 x ++ r) ≡ some (x, r)
number32-bytes32 x r h = ap (λ n. some (n, r)) (omega arith)

number64-bytes64 :
    (x : ℕ) (r : List ℕ) → x < 18446744073709551616 → number64 (bytes64 x ++ r) ≡ some (x, r)
number64-bytes64 x r h = ap (λ n. some (n, r)) (omega arith)

above : (x n : ℕ) → leb x n ≡ false → n < x
above x n h = ground arith

-- What the first byte says where it holds a short length or a small negative number.
head_of-text : (n : ℕ) → n ≤ 31 → head_of (160 + n) ≡ Head.text_of n
unfolding head_of
head_of-text n h =
    let a : leb (160 + n) 127 ≡ false = ground arith in
    let b : leb (160 + n) 143 ≡ false = ground arith in
    let c : leb (160 + n) 159 ≡ false = ground arith in
    let d : leb (160 + n) 191 ≡ true = ground arith in
    rw (a, b, c, d) (ap Head.text_of (omega arith))

head_of-map : (n : ℕ) → n ≤ 15 → head_of (128 + n) ≡ Head.map_of n
unfolding head_of
head_of-map n h =
    let a : leb (128 + n) 127 ≡ false = ground arith in
    let b : leb (128 + n) 143 ≡ true = ground arith in rw (a, b) (ap Head.map_of (omega arith))

head_of-array : (n : ℕ) → n ≤ 15 → head_of (144 + n) ≡ Head.array_of n
unfolding head_of
head_of-array n h =
    let a : leb (144 + n) 127 ≡ false = ground arith in
    let b : leb (144 + n) 143 ≡ false = ground arith in
    let c : leb (144 + n) 159 ≡ true = ground arith in rw (a, b, c) (ap Head.array_of (omega arith))

head_of-negative : (n : ℕ) → n ≤ 31 → head_of (255 - n) ≡ Head.negative n
unfolding head_of
head_of-negative n h =
    let a : leb (255 - n) 127 ≡ false = ground arith in
    let b : leb (255 - n) 143 ≡ false = ground arith in
    let c : leb (255 - n) 159 ≡ false = ground arith in
    let d : leb (255 - n) 191 ≡ false = ground arith in
    let f : leb 224 (255 - n) ≡ true = ground arith in
    rw (a, b, c, d, f) (ap Head.negative (omega arith))

module _ (maps : ℕ → List ℕ → Parsed Fields) (arrays : ℕ → List ℕ → Parsed Items) where
  pub uint_back :
      (x : ℕ) (r : List ℕ)
      → x < 18446744073709551616
      → decode_with maps arrays (encode_uint x ++ r) ≡ some (Value.unsigned x, r)
  unfolding decode_with encode_uint
  uint_back x r h = elim (Bool-cases (leb x 127)) [
    | inl e ↦ rw (e, head_of, e) refl
    | inr e ↦ elim (Bool-cases (leb x 255)) [
      | inl f ↦ rw (e, f, byte_back x (ground arith)) refl
      | inr f ↦ elim (Bool-cases (leb x 65535)) [
        | inl g ↦
            rw (e, f, g) (ap (λ n. some (Value.unsigned n, r)) (omega (arith, leb→le x 65535 g)))
        | inr g ↦ elim (Bool-cases (leb x 4294967295)) [
          | inl k ↦
              rw (e, f, g, k)
                (ap (λ n. some (Value.unsigned n, r)) (omega (arith, leb→le x 4294967295 k)))
          | inr k ↦ rw (e, f, g, k) (ap (λ n. some (Value.unsigned n, r)) (omega (arith, h)))
        ]
      ]
    ]
  ]

  pub negative_back :
      (n : ℕ) (r : List ℕ)
      → n < 9223372036854775808
      → decode_with maps arrays (encode_int (negsuc n) ++ r) ≡ some (Value.signed (negsuc n), r)
  unfolding decode_with encode_int
  negative_back n r h = elim (Bool-cases (leb n 31)) [
    | inl e ↦ rw (e, head_of-negative n (leb→le n 31 e)) refl
    | inr e ↦ elim (Bool-cases (leb n 127)) [
      | inl f ↦
          rw (e, f) (ap (λ m. some (Value.signed (negsuc m), r)) (omega (arith, leb→le n 127 f)))
      | inr f ↦ elim (Bool-cases (leb n 32767)) [
        | inl g ↦
            rw (e, f, g)
              (ap (λ m. some (Value.signed (negsuc m), r)) (omega (arith, leb→le n 32767 g)))
        | inr g ↦ elim (Bool-cases (leb n 2147483647)) [
          | inl k ↦
              rw (e, f, g, k)
                (ap (λ m. some (Value.signed (negsuc m), r)) (omega (arith, leb→le n 2147483647 k)))
          | inr k ↦ rw (e, f, g, k) (ap (λ m. some (Value.signed (negsuc m), r)) (omega (arith, h)))
        ]
      ]
    ]
  ]

taken : (m : ℕ) (s r : List ℕ) → m ≡ length s → some_bytes m (s ++ r) ≡ some (s, r)
taken m s r p =
    let fits : leb (length s) (length (s ++ r)) ≡ true = ground (arith, length-append s r) in
    rw (p, fits, take-append s r, drop-append s r) refl

-- The four ways in which a length stands before a text.
module _ (s r : List ℕ) (h : length s < 4294967296) where
  pub string_back : decode_string (encode_string s ++ r) ≡ some (s, r)
  unfolding decode_string encode_string
  string_back = elim (Bool-cases (leb (length s) 31)) [
    | inl e ↦ rw (e, head_of-text (length s) (leb→le (length s) 31 e)) (taken _ s r refl)
    | inr e ↦ elim (Bool-cases (leb (length s) 255)) [
      | inl f ↦ rw (e, f) (taken _ s r (omega (arith, leb→le (length s) 255 f)))
      | inr f ↦ elim (Bool-cases (leb (length s) 65535)) [
        | inl g ↦ rw (e, f, g) (taken _ s r (omega (arith, leb→le (length s) 65535 g)))
        | inr g ↦ rw (e, f, g) (taken _ s r (omega (arith, h)))
      ]
    ]
  ]

  module _ (maps : ℕ → List ℕ → Parsed Fields) (arrays : ℕ → List ℕ → Parsed Items) where
    pub text_back : decode_with maps arrays (encode_string s ++ r) ≡ some (Value.text s, r)
    unfolding decode_with encode_string
    text_back = elim (Bool-cases (leb (length s) 31)) [
      | inl e ↦
          rw (e, head_of-text (length s) (leb→le (length s) 31 e))
            (ap (value_of Value.text) (taken _ s r refl))
      | inr e ↦ elim (Bool-cases (leb (length s) 255)) [
        | inl f ↦
            rw (e, f)
              (ap (value_of Value.text) (taken _ s r (omega (arith, leb→le (length s) 255 f))))
        | inr f ↦ elim (Bool-cases (leb (length s) 65535)) [
          | inl g ↦
              rw (e, f, g)
                (ap (value_of Value.text) (taken _ s r (omega (arith, leb→le (length s) 65535 g))))
          | inr g ↦ rw (e, f, g) (ap (value_of Value.text) (taken _ s r (omega (arith, h))))
        ]
      ]
    ]

module _ (maps : ℕ → List ℕ → Parsed Fields) (arrays : ℕ → List ℕ → Parsed Items) (n : ℕ)
    (h : n < 4294967296) (r : List ℕ) where
  pub map_back : decode_with maps arrays (encode_map_len n ++ r) ≡ value_of Value.object (maps n r)
  unfolding decode_with encode_map_len
  map_back = elim (Bool-cases (leb n 15)) [
    | inl e ↦ rw (e, head_of-map n (leb→le n 15 e)) refl
    | inr e ↦ elim (Bool-cases (leb n 65535)) [
      | inl f ↦
          rw (e, f) (ap (λ m. value_of Value.object (maps m r)) (omega (arith, leb→le n 65535 f)))
      | inr f ↦ rw (e, f) (ap (λ m. value_of Value.object (maps m r)) (omega (arith, h)))
    ]
  ]

  pub array_back :
      decode_with maps arrays (encode_array_len n ++ r) ≡ value_of Value.array (arrays n r)
  unfolding decode_with encode_array_len
  array_back = elim (Bool-cases (leb n 15)) [
    | inl e ↦ rw (e, head_of-array n (leb→le n 15 e)) refl
    | inr e ↦ elim (Bool-cases (leb n 65535)) [
      | inl f ↦
          rw (e, f) (ap (λ m. value_of Value.array (arrays m r)) (omega (arith, leb→le n 65535 f)))
      | inr f ↦ rw (e, f) (ap (λ m. value_of Value.array (arrays m r)) (omega (arith, h)))
    ]
  ]
