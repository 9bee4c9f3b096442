-- ===== src/Signing/Msgpack/Whole.antt =====
-- The values of internal/hyperliquid/signing/msgpack.go, packed and read back.
use builder_code_bot.Prelude.{
  ℕ, zero, suc, ◌+◌, ◌≤◌, ◌<◌, ◌≡◌, refl, ap, sym, ◌∙◌, true, false, some, List, [], ◌∷◌, ◌++◌,
  length, arith,
}
use builder_code_bot.Prelude.Int.{pos, negsuc}
use builder_code_bot.Funding.Action.{Result, ok, err, panic}
use builder_code_bot.Signing.Msgpack.{
  Value, Fields, Items, encode_int, encode_string, encode_map_len, encode_array_len, count_fields,
  count_items, after, both, encode_value, encode_fields, encode_items,
}
use builder_code_bot.Signing.Msgpack.Decode.{
  decode, decode_fields, decode_items, value_of, then_read,
}
use builder_code_bot.Signing.Msgpack.Back.{
  uint_back, negative_back, string_back, text_back, map_back, array_back,
}

-- A reader cannot tell a signed type's integer that is not negative from an unsigned one.
unfoldable mutual
  pub canonical : Value → Value
  canonical (Value.object fs) = Value.object (canonical_fields fs)
  canonical (Value.array xs) = Value.array (canonical_items xs)
  canonical (Value.signed (pos n)) = Value.unsigned n
  canonical v = v

  pub canonical_fields : Fields → Fields
  canonical_fields Fields.end = Fields.end
  canonical_fields (Fields.field key v fs) = Fields.field key (canonical v) (canonical_fields fs)

  pub canonical_items : Items → Items
  canonical_items Items.nil = Items.nil
  canonical_items (Items.item v xs) = Items.item (canonical v) (canonical_items xs)

-- The integers are of 64 bits, and the lengths are below 2 ^ 32.
unfoldable mutual
  pub Fits : Value → Type 0
  Fits (Value.object fs) = (count_fields fs < 4294967296) × FieldsFit fs
  Fits (Value.array xs) = (count_items xs < 4294967296) × ItemsFit xs
  Fits (Value.text s) = length s < 4294967296
  Fits (Value.signed (pos n)) = n < 9223372036854775808
  Fits (Value.signed (negsuc n)) = n < 9223372036854775808
  Fits (Value.unsigned n) = n < 18446744073709551616
  Fits v = Unit

  pub FieldsFit : Fields → Type 0
  FieldsFit Fields.end = Unit
  FieldsFit (Fields.field key v fs) = (length key < 4294967296) × Fits v × FieldsFit fs

  pub ItemsFit : Items → Type 0
  ItemsFit Items.nil = Unit
  ItemsFit (Items.item v xs) = Fits v × ItemsFit xs

-- The fuel that reading a value takes, less one.
unfoldable mutual
  pub room : Value → ℕ
  room (Value.object fs) = suc (room_fields fs)
  room (Value.array xs) = suc (room_items xs)
  room v = 0

  pub room_fields : Fields → ℕ
  room_fields Fields.end = 0
  room_fields (Fields.field key v fs) = suc (room v + room_fields fs)

  pub room_items : Items → ℕ
  room_items Items.nil = 0
  room_items (Items.item v xs) = suc (room v + room_items xs)

abbrev packed : Result (List ℕ) → List ℕ
packed (ok b) = b
packed x = []

same_bytes : {a b : List ℕ} → ok a ≡ ok b → a ≡ b
same_bytes e = ap packed e

-- What was written is one part and then the other.
pub after_ok :
    (first : List ℕ) (x : Result (List ℕ)) (b : List ℕ)
    → after first x ≡ ok b
    → (rest : List ℕ) × (x ≡ ok rest) × (first ++ rest ≡ b)
after_ok first (ok rest) b e = (rest, refl, same_bytes e)
after_ok first (err f) b e = cc
after_ok first panic b e = cc

pub both_ok :
    (x y : Result (List ℕ)) (b : List ℕ)
    → both x y ≡ ok b
    → (p : List ℕ) × (q : List ℕ) × (x ≡ ok p) × (y ≡ ok q) × (p ++ q ≡ b)
both_ok (ok p) y b e = let (q, f, g) = after_ok p y b e in (p, q, refl, f, g)
both_ok (err f) y b e = cc
both_ok panic y b e = cc

append_assoc : (a b c : List ℕ) → (a ++ b) ++ c ≡ a ++ (b ++ c)
append_assoc [] b c = refl
append_assoc (x ∷ a) b c = ap (λ r. x ∷ r) (append_assoc a b c)

-- A part that is read, and what is read of the bytes after it.
read_part :
    {A : Type 0} (read : List ℕ → A) (a b w r : List ℕ) (x : A)
    → a ++ b ≡ w
    → read (a ++ (b ++ r)) ≡ x
    → read (w ++ r) ≡ x
read_part read a b w r x e h = ap (λ t. read (t ++ r)) (sym e) ∙ (ap read (append_assoc a b r) ∙ h)

mutual
  unfolding encode_value encode_fields encode_items encode_int decode decode_fields decode_items
      canonical canonical_fields canonical_items Fits FieldsFit ItemsFit room room_fields room_items

  value_back :
      (v : Value) (f : ℕ) (b r : List ℕ)
      → encode_value v ≡ ok b
      → Fits v
      → room v ≤ f
      → decode (suc f) (b ++ r) ≡ some (canonical v, r)
  value_back Value.nothing f b r e h m = rw (sym (same_bytes e)) refl
  value_back (Value.object fs) zero b r e h m = ground arith
  value_back (Value.object fs) (suc f) b r e h m =
      let (q, g, w) = after_ok (encode_map_len (count_fields fs)) (encode_fields fs) b e in
      read_part (decode (suc (suc f))) _ q b r _ w (
        map_back _ _ (count_fields fs) h.0 (q ++ r)
        ∙ ap (value_of Value.object) (fields_back fs f q r g h.1 (omega (arith, m))))
  value_back (Value.array xs) zero b r e h m = ground arith
  value_back (Value.array xs) (suc f) b r e h m =
      let (q, g, w) = after_ok (encode_array_len (count_items xs)) (encode_items xs) b e in
      read_part (decode (suc (suc f))) _ q b r _ w (
        array_back _ _ (count_items xs) h.0 (q ++ r)
        ∙ ap (value_of Value.array) (items_back xs f q r g h.1 (omega (arith, m))))
  value_back (Value.text s) f b r e h m = rw (sym (same_bytes e)) (text_back s r h _ _)
  value_back (Value.truth true) f b r e h m = rw (sym (same_bytes e)) refl
  value_back (Value.truth false) f b r e h m = rw (sym (same_bytes e)) refl
  value_back (Value.signed (pos n)) f b r e h m =
      rw (sym (same_bytes e)) (uint_back _ _ n r (omega (arith, h)))
  value_back (Value.signed (negsuc n)) f b r e h m =
      rw (sym (same_bytes e)) (negative_back _ _ n r h)
  value_back (Value.unsigned n) f b r e h m = rw (sym (same_bytes e)) (uint_back _ _ n r h)
  value_back Value.other f b r e h m = cc

  fields_back :
      (fs : Fields) (f : ℕ) (b r : List ℕ)
      → encode_fields fs ≡ ok b
      → FieldsFit fs
      → room_fields fs ≤ f
      → decode_fields (suc f) (count_fields fs) (b ++ r) ≡ some (canonical_fields fs, r)
  fields_back Fields.end f b r e h m = rw (sym (same_bytes e)) refl
  fields_back (Fields.field [] v fs) f b r e h m = cc
  fields_back (Fields.field (c ∷ k) v fs) zero b r e h m = ground arith
  fields_back (Fields.field (c ∷ k) v fs) (suc f) b r e h m =
      let (q, g, w) = after_ok (encode_string (c ∷ k)) _ b e in
      let (x, y, gx, gy, z) = both_ok (encode_value v) (encode_fields fs) q g in
      read_part (decode_fields (suc (suc f)) (suc (count_fields fs))) _ q b r _ w (
        rw (string_back (c ∷ k) (q ++ r) h.0) (
          read_part
            (λ t. then_read (decode (suc f) t) λ o p.
              then_read (decode_fields (suc f) (count_fields fs) p)
                λ os u. some (Fields.field (c ∷ k) o os, u))
            x y q r _ z
            (rw
              (
                value_back v f x (y ++ r) gx h.1 (omega (arith, m)),
                fields_back fs f y r gy h.2 (omega (arith, m)),
              )
              refl)))

  items_back :
      (xs : Items) (f : ℕ) (b r : List ℕ)
      → encode_items xs ≡ ok b
      → ItemsFit xs
      → room_items xs ≤ f
      → decode_items (suc f) (count_items xs) (b ++ r) ≡ some (canonical_items xs, r)
  items_back Items.nil f b r e h m = rw (sym (same_bytes e)) refl
  items_back (Items.item v xs) zero b r e h m = ground arith
  items_back (Items.item v xs) (suc f) b r e h m =
      let (x, y, gx, gy, z) = both_ok (encode_value v) (encode_items xs) b e in
      read_part (decode_items (suc (suc f)) (suc (count_items xs))) x y b r _ z (
        rw
          (
            value_back v f x (y ++ r) gx h.0 (omega (arith, m)),
            items_back xs f y r gy h.1 (omega (arith, m)),
          )
          refl)

-- What the encoder writes of a value, with any bytes after it, is read back as the value, in its
-- canonical form, and the reader stops where those bytes begin: for a value whose integers are of
-- 64 bits and whose lengths are below 2 ^ 32, with any fuel above the value's room.
pub encode_value-decode :
    (v : Value) (fuel : ℕ) (bytes rest : List ℕ)
    → encode_value v ≡ ok bytes
    → Fits v
    → room v ≤ fuel
    → decode (suc fuel) (bytes ++ rest) ≡ some (canonical v, rest)
encode_value-decode v fuel bytes rest e h m = value_back v fuel bytes rest e h m
