-- ===== src/Prelude/Words.antt =====
-- Go's int64, kept as its bit pattern: a number below 2 ^ 64, where 2 ^ 63 and above stand for the
-- negative values. Addition and subtraction wrap around.
use Prim.Native.Nat.{ℕ, ◌+◌, ◌-◌, ◌%◌, ◌≤◌, ◌<◌}
use mathlib.Core.Path.{◌≡◌}
use mathlib.Core.Bool.{Bool}
use native.Mathlib.Omega.{arith}
use draftea_payment.Prelude.Tests.{ltb}

abbrev pub Int64 : Type 0
Int64 = ℕ

-- 2 ^ 64
abbrev pub word : ℕ
word = 18446744073709551616

-- 2 ^ 63
abbrev pub half : ℕ
half = 9223372036854775808

unfoldable pub add64 : Int64 → Int64 → Int64
add64 a b = (a + b) % word

unfoldable pub sub64 : Int64 → Int64 → Int64
sub64 a b = (a + word - b) % word

-- The signed `a < b`: shifting by 2 ^ 63 turns it into the order of the patterns.
unfoldable pub lt64 : Int64 → Int64 → Bool
lt64 a b = ltb ((a + half) % word) ((b + half) % word)

-- The pattern of a value that is not negative.
abbrev pub IsNonneg : Int64 → Type 0
IsNonneg a = a < half

pub add64_small : (a b : Int64) → a + b < half → add64 a b ≡ a + b
unfolding add64
add64_small a b h = omega arith

pub sub64_small : (a b : Int64) → a < half → b ≤ a → sub64 a b ≡ a - b
unfolding sub64
sub64_small a b h k = omega arith

pub lt64_small : (a b : Int64) → a < half → b < half → lt64 a b ≡ ltb a b
unfolding lt64
lt64_small a b h k = ground arith

-- Wrapping subtraction undoes wrapping addition, also past the ends of the range.
pub add64-sub64 : (a b : Int64) → a < word → b < word → add64 (sub64 a b) b ≡ a
unfolding add64 sub64
add64-sub64 a b h k = omega arith

pub add64-lt-word : (a b : Int64) → add64 a b < word
unfolding add64
add64-lt-word a b = omega arith

pub sub64-lt-word : (a b : Int64) → sub64 a b < word
unfolding sub64
sub64-lt-word a b = omega arith
