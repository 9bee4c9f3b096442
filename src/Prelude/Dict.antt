-- ===== src/Prelude/Dict.antt =====
-- Go's maps with text keys, as association lists.
pub mod Laws
use Prim.Native.String.{String}
use mathlib.Core.Bool.{Bool, true, false}
use mathlib.Core.Option.{Option, none, some}
use mathlib.Core.List.{List, [], ◌∷◌}
use builder_code_bot.Prelude.Tests.{if◌then◌else◌}
use builder_code_bot.Prelude.Text.{text_eq}

abbrev pub Dict : Type 0 → Type 0
Dict V = List (String × V)

module _ {V : Type 0} where
  unfoldable pub find : String → Dict V → Option V
  find k [] = none
  find k ((j, v) ∷ m) = if text_eq j k then some v else find k m

  unfoldable pub put : String → V → Dict V → Dict V
  put k v [] = (k, v) ∷ []
  put k v ((j, w) ∷ m) = if text_eq j k then (j, v) ∷ m else (j, w) ∷ put k v m

  unfoldable pub remove : String → Dict V → Dict V
  remove k [] = []
  remove k ((j, w) ∷ m) = let rest = remove k m in if text_eq j k then rest else (j, w) ∷ rest

  unfoldable pub find_or : V → String → Dict V → V
  unfolding find
  find_or d k m = elim (find k m) [ none ↦ d | some v ↦ v ]

  unfoldable pub has_key : String → Dict V → Bool
  unfolding find
  has_key k m = elim (find k m) [ none ↦ false | some v ↦ true ]
