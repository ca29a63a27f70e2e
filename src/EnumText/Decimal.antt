-- ===== src/EnumText/Decimal.antt =====
-- Decimal digits, printed and read.
use zigo.Prelude.{
  ℕ, zero, suc, ◌+◌, ◌-◌, ◌*◌, ◌/◌, ◌%◌, ◌^◌, ◌<◌, ◌≤◌, ◌≡◌, refl, Option, none, some, [], ◌∷◌,
  ◌++◌, arith,
}
use zigo.EnumText.{Bytes, decimal, itoa, scan, parse_uint}

abbrev and_then : Option ℕ → (ℕ → Option ℕ) → Option ℕ
and_then none f = none
and_then (some n) f = f n

scan-append :
    (max : ℕ) (s t : Bytes) (n : ℕ) → scan max (s ++ t) n ≡ and_then (scan max s n) (scan max t)
unfolding scan
scan-append max [] t n = refl
scan-append max (c ∷ s) t n = let d = c - b'0' in ground (arith, scan-append max s t (n * 10 + d))

scan-nil : (max : ℕ) → scan max [] 0 ≡ some 0
unfolding scan
scan-nil max = refl

scan-digit : (max n : ℕ) → n ≤ max → scan max ((b'0' + n % 10) ∷ []) (n / 10) ≡ some n
unfolding scan
scan-digit max n small = ground arith

scan-decimal : (max rounds n : ℕ) → n ≤ rounds → n ≤ max → scan max (decimal rounds n) 0 ≡ some n
unfolding decimal
scan-decimal max zero n fuel small = ground (arith, scan-nil max)
scan-decimal max (suc rounds) n fuel small =
    let front = scan-decimal max rounds (n / 10) (omega arith) (omega arith) in
    let last = (b'0' + n % 10) ∷ [] in
    ground (
      arith,
      front,
      scan-nil max,
      scan-append max (decimal rounds (n / 10)) last 0,
      scan-digit max n small,
    )

parse_uint-append :
    (bits c : ℕ) (s : Bytes)
    → parse_uint bits (s ++ (c ∷ [])) ≡ scan (2 ^ bits - 1) (s ++ (c ∷ [])) 0
unfolding parse_uint
parse_uint-append bits c [] = refl
parse_uint-append bits c (d ∷ s) = refl

parse_uint-zero : (bits : ℕ) → parse_uint bits (b'0' ∷ []) ≡ some 0
unfolding parse_uint scan
parse_uint-zero bits = ground arith

parse_uint-decimal :
    (bits rounds n : ℕ)
    → 0 < n
    → n ≤ suc rounds
    → n < 2 ^ bits
    → parse_uint bits (decimal (suc rounds) n) ≡ some n
unfolding decimal
parse_uint-decimal bits rounds n positive fuel small = ground (
  arith,
  scan-decimal (2 ^ bits - 1) (suc rounds) n fuel (omega arith),
  parse_uint-append bits (b'0' + n % 10) (decimal rounds (n / 10)),
)

-- Every number below 2 ^ bits is read back from what `Itoa` prints.
pub parse_uint-itoa : (bits n : ℕ) → n < 2 ^ bits → parse_uint bits (itoa n) ≡ some n
unfolding itoa
parse_uint-itoa bits zero small = parse_uint-zero bits
parse_uint-itoa bits (suc n) small =
    ground (arith, parse_uint-decimal bits n (suc n) (omega arith) (omega arith) small)
