-- ===== src/Tests/Msgpack.antt =====
-- Concrete inputs for the msgpack encoding.
use builder_code_bot.Prelude.{ℕ, ◌≡◌, refl, ◌↔◌, true, some, List, [], ◌∷◌, ◌++◌, arith}
use builder_code_bot.Prelude.Int.{pos, negsuc}
use builder_code_bot.Funding.Action.{ok}
use builder_code_bot.Signing.Msgpack.{
  Value, Fields, Items, encode_value, encode_fields, encode_items, encode_int, encode_uint,
  encode_string, encode_map_len, encode_array_len,
}
use builder_code_bot.Signing.Msgpack.Decode.{decode}
use builder_code_bot.Signing.Msgpack.Whole.{
  canonical, Fits, FieldsFit, ItemsFit, room, room_fields, room_items, encode_value-decode,
}
use builder_code_bot.Signing.Msgpack.Packable.{IsPackable, encode_value_iff}

-- {"a": [300, -200, true], "b": "x"}
abbrev numbers : Items
numbers =
    Items.item (Value.signed (pos 300))
      (Items.item (Value.signed (negsuc 199)) (Items.item (Value.truth true) Items.nil))

abbrev action : Value
action = Value.object (
    Fields.field (97 ∷ []) (Value.array numbers)
      (Fields.field (98 ∷ []) (Value.text (120 ∷ [])) Fields.end))

abbrev written : List ℕ
written = 130 ∷ 161 ∷ 97 ∷ 147 ∷ 205 ∷ 1 ∷ 44 ∷ 209 ∷ 255 ∷ 56 ∷ 195 ∷ 161 ∷ 98 ∷ 161 ∷ 120 ∷ []

action_written : encode_value action ≡ ok written
unfolding encode_value encode_fields encode_items encode_int encode_uint encode_string
    encode_map_len encode_array_len
action_written = refl

action-Fits : Fits action
unfolding Fits FieldsFit ItemsFit
action-Fits =
    let a : ItemsFit numbers = (omega arith, (omega arith, (tt, tt))) in
    (omega arith, (omega arith, (omega arith, a), (omega arith, omega arith, tt)))

encode_value-decode_example : decode 9 (written ++ (7 ∷ [])) ≡ some (canonical action, 7 ∷ [])
unfolding room room_fields room_items
encode_value-decode_example =
    encode_value-decode action 8 written (7 ∷ []) action_written action-Fits (omega arith)

encode_value_iff_example : IsPackable action ↔ ((b : List ℕ) × (encode_value action ≡ ok b))
encode_value_iff_example = encode_value_iff action
