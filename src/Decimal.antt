-- ===== src/Decimal.antt =====
-- github.com/shopspring/decimal, the library behind every amount of the program. Its code is not
-- part of the repository: the operations that the program calls are the fields of `Decimals`, a
-- parameter of the models.
use builder_code_bot.Prelude.{ℕ, Bool, Option, String}

pub record Decimals : Type 1 where
  pub Decimal : Type 0
  -- decimal.Zero and decimal.NewFromInt, at a non-negative integer
  pub from_int : ℕ → Decimal
  -- decimal.NewFromString; `none` is its error
  pub from_string : String → Option Decimal
  -- String and StringFixed(places)
  pub to_string : Decimal → String
  pub string_fixed : ℕ → Decimal → String
  -- Add and Sub
  pub add : Decimal → Decimal → Decimal
  pub sub : Decimal → Decimal → Decimal
  -- Shift(n) and Shift(-n)
  pub shift_up : ℕ → Decimal → Decimal
  pub shift_down : ℕ → Decimal → Decimal
  pub ceil : Decimal → Decimal
  pub truncate : ℕ → Decimal → Decimal
  -- Equal and LessThan compare the numbers, not their representations
  pub equal : Decimal → Decimal → Bool
  pub less_than : Decimal → Decimal → Bool
  pub is_negative : Decimal → Bool
  pub is_positive : Decimal → Bool
