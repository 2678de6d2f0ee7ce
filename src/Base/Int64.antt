-- ===== src/Base/Int64.antt =====
-- An `int64` (and `int`, 64 bits wide) is its bit pattern, a number below 2 ^ 64, in two's
-- complement; `add` wraps, and `lt` is the signed order.
use Prim.Native.Nat.{ℕ, ◌+◌, ◌-◌, ◌%◌, ◌^◌, ◌≤◌, ◌<◌}
use mathlib.Core.Path.{◌≡◌}
use mathlib.Core.Bool.{Bool, true}
use native.Mathlib.Omega.{arith}
use go_gather.Base.Tests.{ltb}

abbrev pub word : ℕ
word = 2 ^ 64

-- `math.MaxInt64`
abbrev pub max_int : ℕ
max_int = 2 ^ 63 - 1

-- The pattern of -1.
abbrev pub minus_one : ℕ
minus_one = 2 ^ 64 - 1

unfoldable pub add : ℕ → ℕ → ℕ
add a b = (a + b) % word

unfoldable pub is_neg : ℕ → Bool
is_neg a = ltb max_int a

-- a < b, both signed.
unfoldable pub lt : ℕ → ℕ → Bool
lt a b = ltb ((a + 2 ^ 63) % word) ((b + 2 ^ 63) % word)

-- On patterns of numbers that are not negative the order is that of ℕ.
pub lt-eq-ltb : (a b : ℕ) → a ≤ max_int → b ≤ max_int → lt a b ≡ ltb a b
unfolding lt
lt-eq-ltb a b h k = ground arith

pub add-eq-sum : (a b : ℕ) → a + b < word → add a b ≡ a + b
unfolding add
add-eq-sum a b h = omega arith

-- A negative number is below every number that is not.
pub is_neg-lt : (a b : ℕ) → a < word → is_neg a ≡ true → b ≤ max_int → lt a b ≡ true
unfolding is_neg lt
is_neg-lt a b h n k = ground arith
