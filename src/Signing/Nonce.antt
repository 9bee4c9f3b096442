-- ===== src/Signing/Nonce.antt =====
-- internal/hyperliquid/signing/nonce.go. The mutex makes one call of Next follow another, so a
-- sequence of calls is a list of clock readings, each the uint64 of UnixMilli.
use builder_code_bot.Prelude.{
  ℕ, suc, ◌+◌, ◌%◌, ◌<◌, List, [], ◌∷◌, length, All, leb, if◌then◌else◌, arith,
}

pub record NonceGenerator : Type 0 where
  pub last : ℕ

abbrev pub word : ℕ
word = 18446744073709551616  -- 2 ^ 64

-- Next: the addition wraps at 64 bits.
unfoldable pub next : ℕ → NonceGenerator → ℕ × NonceGenerator
next clock g =
    let current = if leb clock g.last then (g.last + 1) % word else clock in
    (current, record { last = current })

unfoldable pub nonces : List ℕ → NonceGenerator → List ℕ
unfolding next
nonces [] g = []
nonces (t ∷ ts) g = let (n, g') = next t g in n ∷ nonces ts g'

-- Each element is above the one before it, and the first is above the bound.
abbrev pub IsIncreasing : ℕ → List ℕ → Type 0
IsIncreasing bound [] = Unit {0}
IsIncreasing bound (n ∷ ns) = (bound < n) × IsIncreasing n ns

-- No overflow: the readings and the last nonce leave room for all the calls.
abbrev pub HasRoom : ℕ → List ℕ → Type 0
HasRoom last ts = (last + length ts < word) × All (λ t. t + length ts < word) ts

weaker : (k : ℕ) (ts : List ℕ) → All (λ t. t + suc k < word) ts → All (λ t. t + k < word) ts
weaker k [] h = tt
weaker k (t ∷ ts) h = (omega (arith, h.0), weaker k ts h.1)

above : (t last : ℕ) → last + 1 < word → last < (if leb t last then (last + 1) % word else t)
above t last h = ground arith

room :
    (t last k : ℕ)
    → last + suc k < word
    → t + suc k < word
    → (if leb t last then (last + 1) % word else t) + k < word
room t last k h q = ground arith

-- The nonces of any sequence of calls increase strictly, from the last one before them, whatever the
-- clock reads, as long as no reading is so close to 2 ^ 64 that counting on would overflow.
pub nonces-IsIncreasing :
    (ts : List ℕ) (g : NonceGenerator) → HasRoom g.last ts → IsIncreasing g.last (nonces ts g)
unfolding nonces
nonces-IsIncreasing [] g h = tt
nonces-IsIncreasing (t ∷ ts) g h = (
  above t g.last (omega (arith, h.0)),
  nonces-IsIncreasing ts _ (room t g.last (length ts) h.0 h.1.0, weaker (length ts) ts h.1.1),
)
