-- ===== src/Prelude/Bits.antt =====
-- `v | b << k` where `v` lies below the shifted bits, and masks of the low bits.
use Prim.Native.Nat.{
  ℕ, zero, suc, ◌+◌, ◌*◌, ◌/◌, ◌%◌, ◌^◌, ◌≤◌, ◌<◌, min, max, bit_and, bit_or, digits,
  bit_and-bitwise, bit_or-bitwise,
}
use mathlib.Core.Path.{◌≡◌, refl, ap, sym, ◌∙◌}
use native.Mathlib.Nat.{pow-suc, mul-add-mod_self_right, mod-lt, mod-eq_of_lt, div-add-mod'}
use native.Mathlib.Omega.{arith}

-- The recursion on binary digits that `bit_or` stands for, with its fuel.
abbrev or_digits : ℕ → ℕ → ℕ → ℕ
or_digits rounds a b = digits (λ b. b) max rounds a b

or_digits_rounds : (n m a b : ℕ) → a ≤ n → a ≤ m → or_digits n a b ≡ or_digits m a b
or_digits_rounds zero zero a b p q = refl
or_digits_rounds zero (suc m) zero b p q = refl
or_digits_rounds zero (suc m) (suc a) b p q = absurd (omega arith)
or_digits_rounds (suc n) zero zero b p q = refl
or_digits_rounds (suc n) zero (suc a) b p q = absurd (omega arith)
or_digits_rounds (suc n) (suc m) zero b p q = refl
or_digits_rounds (suc n) (suc m) (suc a) b p q =
    omega (arith, or_digits_rounds n m (suc a / 2) (b / 2) (omega arith) (omega arith))

zero-bit_or : (b : ℕ) → bit_or 0 b ≡ b
zero-bit_or b = bit_or-bitwise 0 b

bit_or-low_digit : (a b : ℕ) → bit_or a b ≡ bit_or (a / 2) (b / 2) * 2 + max (a % 2) (b % 2)
bit_or-low_digit zero b = omega (arith, zero-bit_or b, zero-bit_or (b / 2))
bit_or-low_digit (suc a) b = omega (
  arith,
  bit_or-bitwise (suc a) b,
  bit_or-bitwise (suc a / 2) (b / 2),
  or_digits_rounds a (suc a / 2) (suc a / 2) (b / 2) (omega arith) (omega arith),
)

halves : (x : ℕ) → x * 2 / 2 ≡ x
halves x = omega arith

bit_or-doubled : (v x : ℕ) → bit_or v (x * 2) ≡ bit_or (v / 2) x * 2 + v % 2
bit_or-doubled v x = rw (bit_or-low_digit v (x * 2), halves x) (omega arith)

pub bit_or-shifted : (k v b : ℕ) → v < 2 ^ k → bit_or v (b * 2 ^ k) ≡ v + b * 2 ^ k
bit_or-shifted zero zero b h = omega (arith, zero-bit_or (b * 2 ^ 0))
bit_or-shifted zero (suc v) b h = absurd (omega arith)
bit_or-shifted (suc k) v b h =
    let doubled : b * 2 ^ suc k ≡ (b * 2 ^ k) * 2 = rw (pow-suc 2 k) (omega arith) in
    rw doubled (
      omega (
        arith,
        bit_or-doubled v (b * 2 ^ k),
        bit_or-shifted k (v / 2) b (omega (arith, pow-suc 2 k)),
      ))

-- The same recursion for `bit_and`
abbrev and_digits : ℕ → ℕ → ℕ → ℕ
and_digits rounds a b = digits (λ b. zero) min rounds a b

and_digits_rounds : (n m a b : ℕ) → a ≤ n → a ≤ m → and_digits n a b ≡ and_digits m a b
and_digits_rounds zero zero a b p q = refl
and_digits_rounds zero (suc m) zero b p q = refl
and_digits_rounds zero (suc m) (suc a) b p q = absurd (omega arith)
and_digits_rounds (suc n) zero zero b p q = refl
and_digits_rounds (suc n) zero (suc a) b p q = absurd (omega arith)
and_digits_rounds (suc n) (suc m) zero b p q = refl
and_digits_rounds (suc n) (suc m) (suc a) b p q =
    omega (arith, and_digits_rounds n m (suc a / 2) (b / 2) (omega arith) (omega arith))

bit_and-low_digit : (a b : ℕ) → bit_and a b ≡ bit_and (a / 2) (b / 2) * 2 + min (a % 2) (b % 2)
bit_and-low_digit zero b = omega (arith, bit_and-bitwise 0 b, bit_and-bitwise 0 (b / 2))
bit_and-low_digit (suc a) b = omega (
  arith,
  bit_and-bitwise (suc a) b,
  bit_and-bitwise (suc a / 2) (b / 2),
  and_digits_rounds a (suc a / 2) (suc a / 2) (b / 2) (omega arith) (omega arith),
)

-- `k` ones
abbrev pub ones : ℕ → ℕ
ones zero = 0
ones (suc k) = ones k * 2 + 1

bit_and-zero_rounds : (n a : ℕ) → a ≤ n → bit_and a 0 ≡ 0
bit_and-zero_rounds n zero h = refl
bit_and-zero_rounds zero (suc a) h = absurd (omega arith)
bit_and-zero_rounds (suc n) (suc a) h =
    omega (arith, bit_and-low_digit (suc a) 0, bit_and-zero_rounds n (suc a / 2) (omega arith))

mod_unique : (q m r : ℕ) → r < m → (q * m + r) % m ≡ r
mod_unique q m r h = mul-add-mod_self_right q m r ∙ mod-eq_of_lt h

mod-doubled : (a m : ℕ) → 0 < m → a % (m * 2) ≡ a / 2 % m * 2 + a % 2
mod-doubled a m h =
    let q : ℕ = a / 2 / m in
    let r : ℕ = a / 2 % m in
    let bound : r < m = mod-lt (a / 2) h in
    let whole : a / 2 ≡ q * m + r = sym (div-add-mod' (a / 2) m) in
    let split : a ≡ q * (m * 2) + (r * 2 + a % 2) = omega (arith, whole) in
    ap (λ x. x % (m * 2)) split ∙ mod_unique q (m * 2) (r * 2 + a % 2) (omega (arith, bound))

pow_pos : (k : ℕ) → 0 < 2 ^ k
pow_pos zero = omega arith
pow_pos (suc k) = omega (arith, pow-suc 2 k, pow_pos k)

pub bit_and-ones : (k a : ℕ) → bit_and a (ones k) ≡ a % 2 ^ k
bit_and-ones zero a = omega (arith, bit_and-zero_rounds a a (omega arith))
bit_and-ones (suc k) a =
    let half : (ones k * 2 + 1) / 2 ≡ ones k = omega arith in
    let doubled : 2 ^ suc k ≡ 2 ^ k * 2 = rw (pow-suc 2 k) (omega arith) in
    rw (bit_and-low_digit a (ones k * 2 + 1), half, bit_and-ones k (a / 2), doubled)
      (omega (arith, mod-doubled a (2 ^ k) (pow_pos k)))
