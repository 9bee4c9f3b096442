-- ===== src/Prelude/Text.antt =====
-- Go's text functions as the program uses them, on ASCII texts: strings.ToLower, TrimSpace and
-- EqualFold, and the printing of an integer by %d.
use Prim.Native.Nat.{ℕ, zero, suc, ◌+◌, ◌/◌, ◌%◌}
use Prim.Native.Char.{Char, code}
use Prim.Native.String.{String, ◌++◌ as text_append}
use mathlib.Core.Path.{◌≡◌, refl}
use mathlib.Core.Bool.{Bool, true, false, ◌&&◌, ◌||◌}
use mathlib.Core.List.{List, [], ◌∷◌, map}
use text.Mathlib.Text.{◌==◌ as equal_texts, starts_with}
use builder_code_bot.Prelude.Tests.{leb, ◌==◌, ==-refl, if◌then◌else◌}

-- The code points of a text: its bytes, if it is ASCII. `String` has its own `[]` and `∷`.
abbrev pub codes : String → List ℕ
codes String.[] = []
codes (String.◌∷◌ c s) = code c ∷ codes s

abbrev pub text_eq : String → String → Bool
text_eq = equal_texts

abbrev pub has_prefix : String → String → Bool
has_prefix = starts_with

infixr 66 ◌+++◌
abbrev pub ◌+++◌ : String → String → String
s +++ t = text_append s t

abbrev pub codes_eq : List ℕ → List ℕ → Bool
codes_eq [] [] = true
codes_eq (a ∷ s) (b ∷ t) = a == b && codes_eq s t
codes_eq _ _ = false

lower_code : ℕ → ℕ
lower_code c = if leb b'A' c && leb c b'Z' then c + 32 else c

is_space : ℕ → Bool
is_space c = (leb 9 c && leb c 13) || c == 32

trim_left : String → String
unfolding is_space
trim_left String.[] = String.[]
trim_left (String.◌∷◌ c s) =
    let rest = trim_left s in if is_space (code c) then rest else String.◌∷◌ c s

reverse_onto : String → String → String
reverse_onto acc String.[] = acc
reverse_onto acc (String.◌∷◌ c s) = reverse_onto (String.◌∷◌ c acc) s

-- strings.TrimSpace
unfoldable pub trim_space : String → String
unfolding trim_left reverse_onto
trim_space s = reverse_onto "" (trim_left (reverse_onto "" (trim_left s)))

-- strings.ToLower
unfoldable pub to_lower : List ℕ → List ℕ
unfolding lower_code
to_lower = map lower_code

translate : String → String → Char → Char
translate (String.◌∷◌ c s) (String.◌∷◌ d t) x = if code c == code x then d else translate s t x
translate _ _ x = x

-- strings.ToLower, as a text
unfoldable pub lower_text : String → String
unfolding translate
lower_text String.[] = String.[]
lower_text (String.◌∷◌ c s) =
    String.◌∷◌ (translate "ABCDEFGHIJKLMNOPQRSTUVWXYZ" "abcdefghijklmnopqrstuvwxyz" c)
      (lower_text s)

-- strings.EqualFold
unfoldable pub equal_fold : String → String → Bool
unfolding to_lower
equal_fold s t = codes_eq (to_lower (codes s)) (to_lower (codes t))

-- strings.ToLower(strings.TrimSpace(s)): the key under which the program files an address
unfoldable pub address_key : String → List ℕ
unfolding to_lower trim_space
address_key s = to_lower (codes (trim_space s))

unfoldable pub is_blank : String → Bool
unfolding trim_space
is_blank s = text_eq (trim_space s) ""

abbrev digit_text : ℕ → String
digit_text d =
    if d == 0
    then "0"
    else if d == 1
    then "1"
    else if d == 2
    then "2"
    else if d == 3
    then "3"
    else if d == 4
    then "4"
    else if d == 5
    then "5"
    else if d == 6
    then "6"
    else if d == 7
    then "7"
    else if d == 8
    then "8"
    else "9"

digits_text : ℕ → ℕ → String → String
digits_text zero n acc = acc
digits_text (suc f) n acc =
    let rest = digits_text f (n / 10) (digit_text (n % 10) +++ acc) in
    if n / 10 == 0 then digit_text (n % 10) +++ acc else rest

-- %d of a non-negative integer; it has at most n + 1 digits
unfoldable pub int_text : ℕ → String
unfolding digits_text
int_text n = digits_text (suc n) n ""

int_text_example : int_text 207 +++ "!" +++ "?" ≡ "207!?"
unfolding int_text
int_text_example = refl

address_key_example : address_key " 0xAb " ≡ codes "0xab"
unfolding address_key
address_key_example = refl

pub codes_eq_refl : (s : List ℕ) → codes_eq s s ≡ true
codes_eq_refl [] = refl
codes_eq_refl (c ∷ s) = rw (==-refl c, codes_eq_refl s) refl

lower_text_example : lower_text "0xAbZ" ≡ "0xabz"
unfolding lower_text
lower_text_example = refl
