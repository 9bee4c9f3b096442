-- ===== src/Signing/Msgpack/Packable.antt =====
-- Which values the encoder of internal/hyperliquid/signing/msgpack.go accepts.
use builder_code_bot.Prelude.{true, false, ℕ, ◌≡◌, refl, ap, ◌↔◌, List, [], ◌∷◌, ◌++◌}
use builder_code_bot.Funding.Action.{Result, ok}
use builder_code_bot.Signing.Msgpack.{
  Value, Fields, Items, encode_string, encode_map_len, encode_array_len, count_fields, count_items,
  after, both, encode_value, encode_fields, encode_items, encode_int,
}
use builder_code_bot.Signing.Msgpack.Whole.{after_ok, both_ok}

-- Every type is supported, and no key is empty.
unfoldable mutual
  pub IsPackable : Value → Type 0
  IsPackable (Value.object fs) = ArePackable fs
  IsPackable (Value.array xs) = AllPackable xs
  IsPackable Value.other = ⊥
  IsPackable v = Unit

  pub ArePackable : Fields → Type 0
  ArePackable Fields.end = Unit
  ArePackable (Fields.field [] v fs) = ⊥
  ArePackable (Fields.field (c ∷ key) v fs) = IsPackable v × ArePackable fs

  pub AllPackable : Items → Type 0
  AllPackable Items.nil = Unit
  AllPackable (Items.item v xs) = IsPackable v × AllPackable xs

abbrev Succeeds : Result (List ℕ) → Type 0
Succeeds x = (b : List ℕ) × (x ≡ ok b)

after-Succeeds : (first : List ℕ) (x : Result (List ℕ)) → Succeeds x → Succeeds (after first x)
after-Succeeds first x (b, e) = (first ++ b, ap (after first) e)

both-Succeeds : (x y : Result (List ℕ)) → Succeeds x → Succeeds y → Succeeds (both x y)
both-Succeeds x y (b, e) (c, f) = (b ++ c, rw (e, f) refl)

mutual
  unfolding encode_value encode_fields encode_items encode_int IsPackable ArePackable AllPackable

  packed_value : (v : Value) → IsPackable v → Succeeds (encode_value v)
  packed_value Value.nothing h = (_, refl)
  packed_value (Value.object fs) h = after-Succeeds _ _ (packed_fields fs h)
  packed_value (Value.array xs) h = after-Succeeds _ _ (packed_items xs h)
  packed_value (Value.text s) h = (_, refl)
  packed_value (Value.truth true) h = (_, refl)
  packed_value (Value.truth false) h = (_, refl)
  packed_value (Value.signed z) h = (_, refl)
  packed_value (Value.unsigned n) h = (_, refl)
  packed_value Value.other h = elim h [ ]

  packed_fields : (fs : Fields) → ArePackable fs → Succeeds (encode_fields fs)
  packed_fields Fields.end h = (_, refl)
  packed_fields (Fields.field [] v fs) h = elim h [ ]
  packed_fields (Fields.field (c ∷ key) v fs) h =
      after-Succeeds _ _ (both-Succeeds _ _ (packed_value v h.0) (packed_fields fs h.1))

  packed_items : (xs : Items) → AllPackable xs → Succeeds (encode_items xs)
  packed_items Items.nil h = (_, refl)
  packed_items (Items.item v xs) h = both-Succeeds _ _ (packed_value v h.0) (packed_items xs h.1)

mutual
  unfolding encode_value encode_fields encode_items encode_int IsPackable ArePackable AllPackable

  value-IsPackable : (v : Value) → Succeeds (encode_value v) → IsPackable v
  value-IsPackable (Value.object fs) (b, e) =
      let (r, h, p) = after_ok (encode_map_len (count_fields fs)) (encode_fields fs) b e in
      fields-ArePackable fs (r, h)
  value-IsPackable (Value.array xs) (b, e) =
      let (r, h, p) = after_ok (encode_array_len (count_items xs)) (encode_items xs) b e in
      items-AllPackable xs (r, h)
  value-IsPackable Value.other (b, e) = cc
  value-IsPackable Value.nothing s = tt
  value-IsPackable (Value.text t) s = tt
  value-IsPackable (Value.truth t) s = tt
  value-IsPackable (Value.signed z) s = tt
  value-IsPackable (Value.unsigned n) s = tt

  fields-ArePackable : (fs : Fields) → Succeeds (encode_fields fs) → ArePackable fs
  fields-ArePackable Fields.end s = tt
  fields-ArePackable (Fields.field [] v fs) (b, e) = cc
  fields-ArePackable (Fields.field (c ∷ key) v fs) (b, e) =
      let (r, h, w) =
        after_ok (encode_string (c ∷ key)) (both (encode_value v) (encode_fields fs)) b e in
      let (p, q, f, g, z) = both_ok (encode_value v) (encode_fields fs) r h in
      (value-IsPackable v (p, f), fields-ArePackable fs (q, g))

  items-AllPackable : (xs : Items) → Succeeds (encode_items xs) → AllPackable xs
  items-AllPackable Items.nil s = tt
  items-AllPackable (Items.item v xs) (b, e) =
      let (p, q, f, g, z) = both_ok (encode_value v) (encode_items xs) b e in
      (value-IsPackable v (p, f), items-AllPackable xs (q, g))

-- The encoder succeeds on a value exactly when all the types in it are supported and none of its
-- objects has an empty key.
pub encode_value_iff : (v : Value) → IsPackable v ↔ ((b : List ℕ) × (encode_value v ≡ ok b))
encode_value_iff v = (packed_value v, value-IsPackable v)
