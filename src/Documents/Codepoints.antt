-- ===== src/Documents/Codepoints.antt =====
-- Code points across the boundary: a `[]rune` of Go is read as the `[]uint32` of the raw layer
-- (examples/11-io-streams/go/streams/streams_gen.go, lines 358-388).
-- A `rune` is an `int32`, a signed number from -2 ^ 31 to 2 ^ 31 - 1; a `uint32` is its value.
use zigo.Prelude.{
  ℕ, ◌-◌, ◌^◌, ◌≤◌, ◌<◌, ◌≡◌, refl, Bool, true, false, ◌||◌, List, [], ◌∷◌, map, if◌then◌else◌,
  if_cases, ltb, arith,
}
use zigo.Prelude.Int.{ℤ, pos, negsuc}
use zigo.Errors.{range_error}
use zigo.Handle.Common.{Result, ok, err}

-- One element of the view `zigoRunesToUint32`
unfoldable pub rune_bits : ℤ → ℕ
rune_bits (pos n) = n
rune_bits (negsuc n) = 2 ^ 32 - 1 - n

-- One element of the view `zigoUint32ToRunes`
unfoldable pub rune_of_bits : ℕ → ℤ
rune_of_bits n = if ltb n (2 ^ 31) then pos n else negsuc (2 ^ 32 - 1 - n)

-- `zigoRunesToUint32`
abbrev pub runes_to_uint32 : List ℤ → List ℕ
runes_to_uint32 values = map rune_bits values

-- `zigoUint32ToRunes`
abbrev pub uint32_to_runes : List ℕ → List ℤ
uint32_to_runes values = map rune_of_bits values

-- `zigoValue < 0 || zigoValue > 1114111`
abbrev pub is_out_of_range : ℤ → Bool
is_out_of_range (pos n) = ltb 1_114_111 n
is_out_of_range (negsuc n) = true

-- The loop of `SumCodepoints`: whether some value is out of range
unfoldable pub any_out_of_range : List ℤ → Bool
any_out_of_range [] = false
any_out_of_range (value ∷ values) =
    let rest = any_out_of_range values in is_out_of_range value || rest

-- `SumCodepoints`
unfoldable pub sum_codepoints : (List ℕ → ℕ) → List ℤ → Result ℕ
sum_codepoints native values =
    if any_out_of_range values
    then err (range_error "SumCodepoints" "values" "codepoint")
    else ok (native (runes_to_uint32 values))

-- `FillCodepoints`: the native side writes through the view.
unfoldable pub fill_codepoints : (List ℕ → List ℕ) → List ℤ → List ℤ
fill_codepoints native output = uint32_to_runes (native (runes_to_uint32 output))

-- `TakeCodepoints`
unfoldable pub take_codepoints : List ℕ → List ℤ
take_codepoints native = uint32_to_runes native

-- The values of a `rune`
abbrev pub IsRune : ℤ → Type 0
IsRune (pos n) = n < 2 ^ 31
IsRune (negsuc n) = n < 2 ^ 31

abbrev pub Each {ℓ} : {A : Type ℓ} → (A → Type 0) → List A → Type 0
Each P [] = Unit {0}
Each P (x ∷ xs) = P x × Each P xs

rune_of_bits-rune_bits : (v : ℤ) → IsRune v → rune_of_bits (rune_bits v) ≡ v
unfolding rune_of_bits rune_bits
rune_of_bits-rune_bits (pos n) h = ground arith
rune_of_bits-rune_bits (negsuc n) h = ground arith

rune_bits-rune_of_bits : (n : ℕ) → n < 2 ^ 32 → rune_bits (rune_of_bits n) ≡ n
unfolding rune_of_bits rune_bits
rune_bits-rune_of_bits n h = ground arith

-- The two views of a slice are inverse to each other: runes read as `uint32` and back are the same runes,
-- and 32-bit integers read as runes and back are the same integers.
pub uint32_to_runes-runes_to_uint32 :
    (values : List ℤ) (bits : List ℕ)
    → Each IsRune values
    → Each (λ n. n < 2 ^ 32) bits
    → (uint32_to_runes (runes_to_uint32 values) ≡ values)
      × (runes_to_uint32 (uint32_to_runes bits) ≡ bits)
uint32_to_runes-runes_to_uint32 values bits h k = (runes values h, integers bits k)
  where
    runes :
        (values : List ℤ) → Each IsRune values → uint32_to_runes (runes_to_uint32 values) ≡ values
    runes [] h = refl
    runes (v ∷ values) (h, rest) = λ i. rune_of_bits-rune_bits v h i ∷ runes values rest i

    integers :
        (bits : List ℕ)
        → Each (λ n. n < 2 ^ 32) bits
        → runes_to_uint32 (uint32_to_runes bits) ≡ bits
    integers [] k = refl
    integers (n ∷ bits) (k, rest) = λ i. rune_bits-rune_of_bits n k i ∷ integers bits rest i

-- What native code gets of a slice of code points
abbrev pub Spelled : List ℤ → List ℕ → Type 0
Spelled [] [] = Unit {0}
Spelled (v ∷ values) (n ∷ bits) = (v ≡ pos n) × (n ≤ 1_114_111) × Spelled values bits
Spelled _ _ = ⊥

in_range-Spelled :
    (values : List ℤ) → any_out_of_range values ≡ false → Spelled values (runes_to_uint32 values)
unfolding any_out_of_range rune_bits
in_range-Spelled [] e = tt
in_range-Spelled (pos n ∷ values) e = ground (arith, in_range-Spelled values)
in_range-Spelled (negsuc n ∷ values) e = ground arith

-- How a call of `SumCodepoints` ends: with the sum of a slice that spells the very values, each at most
-- 0x10ffff, or with the range error for a slice that has another value in it.
abbrev pub IsChecked : (List ℕ → ℕ) → List ℤ → Result ℕ → Type 0
IsChecked native values (ok sum) =
    (sum ≡ native (runes_to_uint32 values)) × Spelled values (runes_to_uint32 values)
IsChecked native values (err e) =
    (e ≡ range_error "SumCodepoints" "values" "codepoint") × (any_out_of_range values ≡ true)

-- `SumCodepoints` hands a slice to native code only when every value is from 0 to 0x10ffff, and then these
-- very values; otherwise native code is not called and the error is the range error.
pub sum_codepoints-IsChecked :
    (native : List ℕ → ℕ) (values : List ℤ) → IsChecked native values (sum_codepoints native values)
unfolding sum_codepoints
sum_codepoints-IsChecked native values =
    if_cases (IsChecked native values) (any_out_of_range values) (λ out. (refl, out))
      (λ within. (refl, in_range-Spelled values within))
