-- ===== src/Materialized/Leaves.antt =====
-- The decoder of `Leaf` and the blocks that decoders of structs are made of
-- (materialized_structs_gen.go, lines 16-22, 88-109).
-- An `int32` is its bit pattern, a `float64` the pattern that `math.Float64frombits` takes, a string
-- its bytes. A decoder writes through a pointer: it takes the struct as it was and returns what the
-- pointer holds at the end. On a panic nobody reads that struct, and it is left out.
use zigo.Prelude.{
  ℕ, Bool, false, not, Option, none, some, List, [], if◌then◌else◌, ◌==◌, add64, mul64,
}
use zigo.Materialized.{
  Buffer, Outcome, returns, ◌>>=◌, u64, bytes_at, word_at, array, make_len, for_range,
}

pub record Leaf : Type 0 where
  pub value : ℕ
  pub enabled : Bool
  pub label : List ℕ
  pub samples : List ℕ
  pub alias : Option (List ℕ)

-- The zero values that `var zigoVal0 Leaf`, `make([]Leaf, n)` and `var result Probe` start from
abbrev pub zero_leaf : Leaf
zero_leaf = record { value = 0; enabled = false; label = []; samples = []; alias = none }

-- `zigoMaterializedWord(buffer, at, 1) != 0`
unfoldable pub bool_at : Buffer → ℕ → Outcome Bool
bool_at buffer at = do w ← word_at buffer at 1; returns (not (w == 0))

-- `string(zigoMaterializedBytes(buffer, U64(at), U64(at+8)))`, and the copy of `Raw` the same
unfoldable pub text_at : Buffer → ℕ → Outcome (List ℕ)
text_at buffer at = do off ← u64 buffer at; len ← u64 buffer (add64 at 8); bytes_at buffer off len

-- A block that fills a slice: offset and count at `at`, and one element for each stride.
unfoldable pub slice_at {ℓ} : {A : Type ℓ} → Buffer → ℕ → ℕ → (ℕ → Outcome A) → Outcome (List A)
slice_at buffer at stride element = do
  off ← u64 buffer at
  count ← u64 buffer (add64 at 8)
  _ ← array buffer off count stride
  n ← make_len count
  for_range 0 n (λ i. element (add64 off (mul64 i stride)))

-- `if zigoOff0 != 0 { … }` for a field that is a pointer to a string, which `old` was before
unfoldable pub optional_text_at : Buffer → ℕ → Option (List ℕ) → Outcome (Option (List ℕ))
optional_text_at buffer at old = do
  off ← u64 buffer at
  let present = u64 buffer (add64 at 8) >>= λ len. bytes_at buffer off len >>= λ s. returns (some s)
  if off == 0 then returns old else present

-- `zigoDecodeLeafInto`
unfoldable pub decode_leaf_into : Buffer → ℕ → Leaf → Outcome Leaf
decode_leaf_into buffer offset result = do
  _ ← bytes_at buffer offset 56
  value ← word_at buffer (add64 offset 0) 4
  enabled ← bool_at buffer (add64 offset 4)
  label ← text_at buffer (add64 offset 8)
  samples ← slice_at buffer (add64 offset 24) 8 (u64 buffer)
  alias ← optional_text_at buffer (add64 offset 40) result.alias
  returns
      (record { value = value; enabled = enabled; label = label; samples = samples; alias = alias })

-- `if zigoOff0 != 0 { … }` for a field that is a pointer to a `Leaf`
unfoldable pub optional_leaf_at : Buffer → ℕ → Option Leaf → Outcome (Option Leaf)
optional_leaf_at buffer at old = do
  off ← u64 buffer at
  let present = decode_leaf_into buffer off zero_leaf >>= λ leaf. returns (some leaf)
  if off == 0 then returns old else present

-- A `Leaf` behind a pointer at `at`, decoded over `old`
unfoldable pub leaf_at : Buffer → Leaf → ℕ → Outcome Leaf
leaf_at buffer old at = do off ← u64 buffer at; decode_leaf_into buffer off old
