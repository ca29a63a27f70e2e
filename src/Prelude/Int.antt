-- ===== src/Prelude/Int.antt =====
-- Signed numbers: `negsuc n` is -(n + 1). An `int32` status code is one of these.
use Prim.Native.Nat.{ℕ, zero, suc, ◌/◌, ◌%◌}
use Prim.Native.String.{String, ◌++◌ as ◌<>◌}
use mathlib.Core.Path.{◌≡◌, refl}
use mathlib.Core.Bool.{Bool, true, false}
use native.Mathlib.Omega.{arith}
use zigo.Prelude.Tests.{◌==◌, if◌then◌else◌}

pub data ℤ : Type 0 where
  pos : ℕ → ℤ
  negsuc : ℕ → ℤ

abbrev pub ==ℤ : ℤ → ℤ → Bool
==ℤ (pos a) (pos b) = a == b
==ℤ (negsuc a) (negsuc b) = a == b
==ℤ _ _ = false

pub ==ℤ_refl : (a : ℤ) → ==ℤ a a ≡ true
==ℤ_refl (pos a) = ground arith
==ℤ_refl (negsuc a) = ground arith

digit : ℕ → String
digit n =
    if n == 0
    then "0"
    else if n == 1
    then "1"
    else if n == 2
    then "2"
    else if n == 3
    then "3"
    else if n == 4
    then "4"
    else if n == 5
    then "5"
    else if n == 6
    then "6"
    else if n == 7
    then "7"
    else if n == 8
    then "8"
    else "9"

-- A number has at most as many decimal digits as its value, so `n` rounds print `n`.
decimal : ℕ → ℕ → String
unfolding digit
decimal zero n = ""
decimal (suc rounds) n =
    let front = decimal rounds (n / 10) in if n == 0 then "" else front <> digit (n % 10)

print_nat : ℕ → String
unfolding decimal
print_nat n = if n == 0 then "0" else decimal n n

-- `strconv.Itoa`
unfoldable pub itoa : ℤ → String
unfolding print_nat
itoa (pos n) = print_nat n
itoa (negsuc n) = "-" <> print_nat (suc n)

itoa_examples : (itoa (pos 1207) ≡ "1207") × (itoa (negsuc 255) ≡ "-256")
unfolding itoa
itoa_examples = (refl, refl)
