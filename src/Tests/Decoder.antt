-- ===== src/Tests/Decoder.antt =====
-- Whole buffers for the decoder of materialized_structs_gen.go.
use zigo.Prelude.{
  some, ℕ, zero, suc, ◌*◌, ◌/◌, ◌%◌, ◌≤◌, ◌≡◌, refl, Bool, true, false, List, [], ◌∷◌, ◌++◌, length,
  replicate, if◌then◌else◌, ltb, arith,
}
use zigo.Materialized.{
  Buffer, Outcome, returns, panics, little_endian, u64, bytes_at, array, word_at, magic_version,
  word_loop, header, make_len, for_range, slice,
}
use zigo.Materialized.Leaves.{
  Leaf, decode_leaf_into, zero_leaf, bool_at, text_at, slice_at, optional_text_at, optional_leaf_at,
  leaf_at,
}
use zigo.Materialized.Probes.{
  Probe, decode_probe_into, decode_probe_buffer, decode_probe_slice_buffer, probe_at,
  optional_float_at,
}
use zigo.Materialized.Reuse.{after, filled, decode_leaf_into-after}
use zigo.Materialized.Word.{AllBytes}
use zigo.Materialized.Safety.{Ensures, Everywhere}
use zigo.Materialized.Safety.Decoders.{Fits}
use zigo.Materialized.Safety.Buffers.{
  decode_probe_buffer-Ensures, decode_probe_slice_buffer-Ensures,
}

abbrev all_below : List ℕ → Bool
all_below [] = true
all_below (b ∷ bs) = let rest = all_below bs in if ltb b 256 then rest else false

AllBytes-all_below : (bs : List ℕ) → all_below bs ≡ true → AllBytes bs
AllBytes-all_below [] h = tt
AllBytes-all_below (b ∷ bs) h = (ground arith, AllBytes-all_below bs (ground arith))

abbrev le_bytes : ℕ → ℕ → List ℕ
le_bytes zero n = []
le_bytes (suc width) n = n % 256 ∷ le_bytes width (n / 256)

abbrev header_bytes : ℕ → ℕ → ℕ → List ℕ
header_bytes count offset size =
    le_bytes 8 magic_version
    ++ le_bytes 8 1
    ++ le_bytes 8 count
    ++ le_bytes 8 offset
    ++ le_bytes 8 size

-- A probe whose two leaves both stand at `leaf`
abbrev probe_bytes : ℕ → ℕ → List ℕ
probe_bytes id leaf =
    le_bytes 8 id
    ++ (1 ∷ 2 ∷ [])
    ++ replicate 54 0
    ++ le_bytes 8 leaf
    ++ le_bytes 8 leaf
    ++ replicate 120 0

abbrev leaf_bytes : List ℕ
leaf_bytes = le_bytes 4 5 ++ (1 ∷ []) ++ replicate 51 0

abbrev one_probe : Buffer
one_probe = header_bytes 1 40 296 ++ probe_bytes 7 240 ++ leaf_bytes

-- Two root pointers to the same probe
abbrev two_probes : Buffer
two_probes =
    header_bytes 2 40 312 ++ le_bytes 8 56 ++ le_bytes 8 56 ++ probe_bytes 9 256 ++ leaf_bytes

decoded : Outcome Probe → ℕ
decoded (returns p) = p.id
decoded (panics q) = 0

decoded_all : Outcome (List Probe) → List ℕ
decoded_all (returns []) = []
decoded_all (returns (p ∷ rest)) = p.id ∷ decoded_all (returns rest)
decoded_all (panics q) = []

one_probe_decodes : decoded (decode_probe_buffer one_probe) ≡ 7
unfolding decoded decode_probe_buffer header u64 slice little_endian decode_probe_into bytes_at
    bool_at word_at word_loop text_at slice_at array make_len for_range leaf_at decode_leaf_into
    optional_text_at optional_leaf_at optional_float_at
one_probe_decodes = refl

two_probes_decode : decoded_all (decode_probe_slice_buffer two_probes) ≡ 9 ∷ 9 ∷ []
unfolding decoded_all probe_at decode_probe_slice_buffer header u64 slice little_endian
    decode_probe_into bytes_at bool_at word_at word_loop text_at slice_at array make_len for_range
    leaf_at decode_leaf_into optional_text_at optional_leaf_at optional_float_at
two_probes_decode = refl

decode_probe_buffer-Ensures_example : Ensures (Fits one_probe) (decode_probe_buffer one_probe)
decode_probe_buffer-Ensures_example =
    decode_probe_buffer-Ensures one_probe (AllBytes-all_below one_probe refl) (omega arith)

decode_probe_slice_buffer-Ensures_example :
    Ensures
      (λ probes. (length probes * 8 ≤ length two_probes) × Everywhere (Fits two_probes) probes)
      (decode_probe_slice_buffer two_probes)
decode_probe_slice_buffer-Ensures_example =
    decode_probe_slice_buffer-Ensures two_probes (AllBytes-all_below two_probes refl) (omega arith)

-- The leaf of `one_probe` has no alias; the leaf decoded over had one.
abbrev used_leaf : Leaf
used_leaf = record zero_leaf { alias = some (104 ∷ 105 ∷ []) }

decode_leaf_into-after_example :
    decode_leaf_into one_probe 240 used_leaf
    ≡ after (filled used_leaf) (decode_leaf_into one_probe 240 zero_leaf)
decode_leaf_into-after_example = decode_leaf_into-after one_probe 240 used_leaf
