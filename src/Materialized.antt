-- ===== src/Materialized.antt =====
-- The decoder of materialized results
-- (examples/12-materialized/go/materialized/materialized_structs_gen.go). This file has the readers
-- of lines 46-86, which every decoder of a struct is made of.
-- A `[]byte` is a list of numbers below 256, a `uint64` a number below 2 ^ 64. The buffer is shorter
-- than 2 ^ 63, so `int(x)` of a value up to its length is that value; a larger one gives an index
-- that Go's slicing refuses, as it does here.
pub mod Leaves
pub mod Probes
pub mod Readers
pub mod Word
pub mod Safety
pub mod Reuse
use Prim.Native.Nat.{bit_or}
use zigo.Prelude.{
  ℕ, zero, suc, ◌+◌, ◌-◌, ◌*◌, ◌/◌, ◌%◌, ◌^◌, Bool, true, false, not, ◌&&◌, ◌||◌, List, [], ◌∷◌,
  length, take, drop, if◌then◌else◌, ltb, leb, ◌==◌, word, add64, sub64, mul64,
}

abbrev pub Buffer : Type 0
Buffer = List ℕ

-- `invalid_buffer` is the panic "zigo: invalid materialized result buffer"; `runtime_error` one that
-- the Go runtime raises: an index or slice out of bounds, a length of `make`, a division by zero.
pub data Panic : Type 0 where
  invalid_buffer runtime_error : Panic

pub data Outcome {ℓ} (A : Type ℓ) : Type ℓ where
  returns : A → Outcome A
  panics : Panic → Outcome A

infixl 5 ◌>>=◌
abbrev pub ◌>>=◌ {ℓ κ} : {A : Type ℓ} {B : Type κ} → Outcome A → (A → Outcome B) → Outcome B
returns a >>= f = f a
panics p >>= f = panics p

-- `b[lo:hi]`; the slices of this file never reach past the length, so the capacity does not matter
unfoldable pub slice : Buffer → ℕ → ℕ → Outcome Buffer
slice b lo hi =
    if leb lo hi && leb hi (length b)
    then returns (take (hi - lo) (drop lo b))
    else panics runtime_error

-- `binary.LittleEndian`
unfoldable pub little_endian : List ℕ → ℕ
little_endian [] = 0
little_endian (b ∷ bs) = b + 256 * little_endian bs

abbrev pub magic_version : ℕ
magic_version = 0x00024f47495a

-- `zigoMaterializedU64`
unfoldable pub u64 : Buffer → ℕ → Outcome ℕ
unfolding slice
u64 buffer offset =
    if ltb (length buffer) offset || ltb (sub64 (length buffer) offset) 8
    then panics invalid_buffer
    else (do bytes ← slice buffer offset (add64 offset 8); returns (little_endian bytes))

-- `zigoMaterializedBytes`
unfoldable pub bytes_at : Buffer → ℕ → ℕ → Outcome Buffer
unfolding slice
bytes_at buffer offset len =
    if ltb (length buffer) offset || ltb (sub64 (length buffer) offset) len
    then panics invalid_buffer
    else slice buffer offset (add64 offset len)

-- `value |= uint64(b) << (8 * uint(i))`, for the bytes from index `i` on
unfoldable pub word_loop : ℕ → ℕ → List ℕ → ℕ
word_loop i value [] = value
word_loop i value (b ∷ bs) = word_loop (i + 1) (bit_or value (b * 2 ^ (8 * i) % word)) bs

-- `zigoMaterializedWord`
unfoldable pub word_at : Buffer → ℕ → ℕ → Outcome ℕ
word_at buffer offset width = do bytes ← bytes_at buffer offset width; returns (word_loop 0 0 bytes)

-- `zigoMaterializedArray`
unfoldable pub array : Buffer → ℕ → ℕ → ℕ → Outcome Buffer
array buffer offset count stride =
    if ltb (length buffer) offset
    then panics invalid_buffer
    else if stride == 0
    then panics runtime_error
    else if ltb (sub64 (length buffer) offset / stride) count
    then panics invalid_buffer
    else bytes_at buffer offset (mul64 count stride)

-- A test of `zigoMaterializedHeader`, which `||` makes only if those before it passed
abbrev pub check : Bool → Outcome (Unit {0})
check true = returns tt
check false = panics invalid_buffer

infixl 5 ◌>>◌
abbrev ◌>>◌ {ℓ} : {B : Type ℓ} → Outcome (Unit {0}) → Outcome B → Outcome B
m >> k = m >>= λ _. k

-- `zigoMaterializedHeader`: the offset and the count of the root
unfoldable pub header : Buffer → ℕ → Outcome (ℕ × ℕ)
header buffer layout = do
  check (not (ltb (length buffer) 40))
  magic ← u64 buffer 0
  check (magic == magic_version)
  found ← u64 buffer 8
  check (found == layout)
  size ← u64 buffer 32
  check (size == length buffer)
  offset ← u64 buffer 24
  count ← u64 buffer 16
  returns (offset, count)

-- `make([]T, int(count))`
unfoldable pub make_len : ℕ → Outcome ℕ
make_len count = if ltb count (2 ^ 63) then returns count else panics runtime_error

-- `for i := range result { result[i] = … }` over a slice that `make` returned
unfoldable pub for_range {ℓ} : {A : Type ℓ} → ℕ → ℕ → (ℕ → Outcome A) → Outcome (List A)
for_range i zero body = returns []
for_range i (suc left) body =
    body i >>= λ a. for_range (i + 1) left body >>= λ rest. returns (a ∷ rest)
