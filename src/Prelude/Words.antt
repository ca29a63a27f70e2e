-- ===== src/Prelude/Words.antt =====
-- Go's 64-bit words. A Go `int` is its bit pattern below 2 ^ 64 (two's complement), so that `n--` at
-- 0 gives the pattern of -1; a pattern below 2 ^ 63 stands for itself.
use Prim.Native.Nat.{ℕ, ◌+◌, ◌-◌, ◌*◌, ◌%◌, ◌^◌, ◌<◌}
use mathlib.Core.Path.{◌≡◌}
use native.Mathlib.Omega.{arith}

abbrev pub word : ℕ
word = 2 ^ 64

-- `n++`
abbrev pub inc : ℕ → ℕ
inc n = (n + 1) % word

-- `n--`
abbrev pub dec : ℕ → ℕ
dec n = (n + (word - 1)) % word

abbrev pub add64 : ℕ → ℕ → ℕ
add64 a b = (a + b) % word

-- `a - b`, on uint64
abbrev pub sub64 : ℕ → ℕ → ℕ
sub64 a b = (a + word - b) % word

abbrev pub mul64 : ℕ → ℕ → ℕ
mul64 a b = a * b % word

pub dec-inc : (n : ℕ) → n < word → dec (inc n) ≡ n
dec-inc n h = omega arith
