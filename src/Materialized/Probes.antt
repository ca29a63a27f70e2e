-- ===== src/Materialized/Probes.antt =====
-- The decoder of `Probe` and of buffers of probes
-- (materialized_structs_gen.go, lines 24-44 and 111-238).
use zigo.Prelude.{
  ℕ, zero, suc, ◌+◌, Bool, false, Option, none, some, List, [], ◌∷◌, length, if◌then◌else◌, ltb,
  ◌==◌, add64, mul64,
}
use zigo.Materialized.{
  Buffer, Outcome, returns, panics, invalid_buffer, ◌>>=◌, u64, bytes_at, word_at, array, header,
  make_len, for_range,
}
use zigo.Materialized.Leaves.{
  Leaf, zero_leaf, bool_at, text_at, slice_at, optional_text_at, optional_leaf_at, leaf_at,
}

pub record Point : Type 0 where
  pub x : ℕ
  pub y : ℕ

pub record Probe : Type 0 where
  pub id : ℕ
  pub active : Bool
  pub status : ℕ
  pub name : List ℕ
  pub codes : List ℕ
  pub tags : List (List ℕ)
  pub embedded : Leaf
  pub child : Option Leaf
  pub maybe : Option Leaf
  pub children : List Leaf
  pub weight : Option ℕ
  pub note : Option (List ℕ)
  pub origin : Point
  pub matrix : List (List ℕ)
  pub raw : List ℕ
  pub flags : List Bool
  pub spare : Option Leaf

abbrev pub zero_probe : Probe
zero_probe = record {
  id = 0;
  active = false;
  status = 0;
  name = [];
  codes = [];
  tags = [];
  embedded = zero_leaf;
  child = none;
  maybe = none;
  children = [];
  weight = none;
  note = none;
  origin = record { x = 0; y = 0 };
  matrix = [];
  raw = [];
  flags = [];
  spare = none;
}

-- The block of `Weight`: a byte that says whether the number is there, and the number
unfoldable pub optional_float_at : Buffer → ℕ → Option ℕ → Outcome (Option ℕ)
optional_float_at buffer at old = do
  has ← bool_at buffer at
  let present = u64 buffer (add64 at 8) >>= λ bits. returns (some bits)
  if has then present else returns old

-- `zigoDecodeProbeInto`
unfoldable pub decode_probe_into : Buffer → ℕ → Probe → Outcome Probe
decode_probe_into buffer offset result = do
  _ ← bytes_at buffer offset 200
  id ← u64 buffer (add64 offset 0)
  active ← bool_at buffer (add64 offset 8)
  status ← word_at buffer (add64 offset 9) 1
  name ← text_at buffer (add64 offset 16)
  codes ← slice_at buffer (add64 offset 32) 2 (λ at. word_at buffer at 2)
  tags ← slice_at buffer (add64 offset 48) 16 (text_at buffer)
  embedded ← leaf_at buffer result.embedded (add64 offset 64)
  child ← leaf_at buffer zero_leaf (add64 offset 72)
  maybe ← optional_leaf_at buffer (add64 offset 80) result.maybe
  children ← slice_at buffer (add64 offset 88) 8 (leaf_at buffer zero_leaf)
  weight ← optional_float_at buffer (add64 offset 104) result.weight
  note ← optional_text_at buffer (add64 offset 120) result.note
  x ← word_at buffer (add64 offset 136) 4
  y ← word_at buffer (add64 offset 140) 4
  matrix ←
      slice_at buffer (add64 offset 144) 16
        (λ at. slice_at buffer at 4 (λ cell. word_at buffer cell 4))
  raw ← text_at buffer (add64 offset 160)
  flags ← slice_at buffer (add64 offset 176) 1 (bool_at buffer)
  spare ← optional_leaf_at buffer (add64 offset 192) result.spare
  returns (record {
    id = id;
    active = active;
    status = status;
    name = name;
    codes = codes;
    tags = tags;
    embedded = embedded;
    child = some child;
    maybe = maybe;
    children = children;
    weight = weight;
    note = note;
    origin = record { x = x; y = y };
    matrix = matrix;
    raw = raw;
    flags = flags;
    spare = spare;
  })

-- `zigoDecodeProbeBuffer`
unfoldable pub decode_probe_buffer : Buffer → Outcome Probe
decode_probe_buffer buffer = do
  (offset, count) ← header buffer 1
  if count == 1 then decode_probe_into buffer offset zero_probe else panics invalid_buffer

-- A root pointer of the array at `offset`, decoded over `old`
unfoldable pub probe_at : Buffer → ℕ → Probe → Outcome Probe
probe_at buffer at old = do off ← u64 buffer at; decode_probe_into buffer off old

-- `zigoDecodeProbeSliceBuffer`
unfoldable pub decode_probe_slice_buffer : Buffer → Outcome (List Probe)
decode_probe_slice_buffer buffer = do
  (offset, count) ← header buffer 1
  _ ← array buffer offset count 8
  n ← make_len count
  for_range 0 n (λ i. probe_at buffer (add64 offset (mul64 i 8)) zero_probe)

-- The loop of `zigoDecodeProbeSliceInto`: at most `left` elements from index `i` on are written over,
-- the others keep what they hold.
unfoldable pub decode_over : Buffer → ℕ → ℕ → ℕ → List Probe → Outcome (List Probe)
decode_over buffer offset i zero output = returns output
decode_over buffer offset i (suc left) [] = returns []
decode_over buffer offset i (suc left) (old ∷ output) =
    probe_at buffer (add64 offset (mul64 i 8)) old >>= λ p.
    decode_over buffer offset (i + 1) left output >>= λ rest. returns (p ∷ rest)

-- `zigoDecodeProbeSliceInto`
unfoldable pub decode_probe_slice_into : Buffer → List Probe → Outcome (List Probe)
decode_probe_slice_into [] output = returns output
decode_probe_slice_into (b ∷ bs) output = do
  (offset, count) ← header (b ∷ bs) 1
  _ ← array (b ∷ bs) offset count 8
  decode_over (b ∷ bs) offset 0 (if ltb (length output) count then length output else count) output
