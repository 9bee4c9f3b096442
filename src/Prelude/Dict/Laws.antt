-- ===== src/Prelude/Dict/Laws.antt =====
-- What a map of texts holds after a change.
use Prim.Native.String.{String}
use mathlib.Core.Path.{◌≡◌, refl}
use mathlib.Core.Logic.{inl, inr}
use mathlib.Core.Bool.{false}
use mathlib.Core.Option.{some}
use mathlib.Core.List.{[], ◌∷◌}
use text.Mathlib.TextEquality.{eq_iff}
use builder_code_bot.Prelude.Tests.{if◌then◌else◌, Bool-cases}
use builder_code_bot.Prelude.Text.{text_eq}
use builder_code_bot.Prelude.Dict.{Dict, find, find_or, put}

module _ {V : Type 0} where
  pub find-put :
      (j k : String) (v : V) (m : Dict V)
      → find j (put k v m) ≡ (if text_eq k j then some v else find j m)
  unfolding find put
  find-put j k v [] = refl
  find-put j k v ((i, w) ∷ m) = elim (Bool-cases (text_eq i k)) [
    | inl e ↦
        rw (e, (eq_iff i k).0 e)
          elim (Bool-cases (text_eq k j)) [ inl f ↦ rw f refl | inr f ↦ rw f refl ]
    | inr e ↦ elim (Bool-cases (text_eq k j)) [
      | inl f ↦
          let g : text_eq i j ≡ false = cc (e, (eq_iff k j).0 f) in
          rw (e, f, g, find-put j k v m, f) refl
      | inr f ↦ rw (e, f, find-put j k v m, f) refl
    ]
  ]

  pub find_or-put :
      (d : V) (j k : String) (v : V) (m : Dict V)
      → find_or d j (put k v m) ≡ (if text_eq k j then v else find_or d j m)
  unfolding find_or
  find_or-put d j k v m =
      rw (find_or, find-put j k v m)
        elim (Bool-cases (text_eq k j)) [ inl f ↦ rw f refl | inr f ↦ rw f refl ]
