-- ===== src/Materialized/Safety/Decoders.antt =====
-- The decoders of structs and of whole buffers.
use zigo.Prelude.{
  ℕ, ◌*◌, ◌^◌, ◌≤◌, ◌<◌, ◌≡◌, ◌⊎◌, inl, inr, refl, Option, length, if_intro, ◌==◌, word, add64,
  arith,
}
use zigo.Materialized.{Buffer, Outcome, u64, bytes_at, word_at}
use zigo.Materialized.Leaves.{
  Leaf, zero_leaf, bool_at, text_at, slice_at, optional_text_at, decode_leaf_into, optional_leaf_at,
  leaf_at,
}
use zigo.Materialized.Probes.{Probe, zero_probe, optional_float_at, decode_probe_into}
use zigo.Materialized.Word.{AllBytes}
use zigo.Materialized.Safety.{Ensures, Anything, Ensures->>=, Ensures-weaken, Everywhere, IfPresent}
use zigo.Materialized.Safety.Values.{
  u64-Ensures, bytes_at-Ensures, word_at-Ensures, bool_at-Ensures, text_at-Ensures,
  slice_at-Ensures, optional_text_at-Ensures,
}

-- The samples of a decoded leaf take no more room than the buffer has.
abbrev pub LeafFits : Buffer → Leaf → Type 0
LeafFits buffer leaf = length leaf.samples * 8 ≤ length buffer

-- An optional leaf is the one that was there before, or it fits.
abbrev pub KeptOrFits : Buffer → Option Leaf → Option Leaf → Type 0
KeptOrFits buffer old leaf = (leaf ≡ old) ⊎ IfPresent (LeafFits buffer) leaf

-- Every slice that a probe decoded over `old` has of its own, the rows of the matrix and the samples of the
-- leaves among them, takes no more room than the buffer has for its elements.
abbrev pub FitsOver : Buffer → Probe → Probe → Type 0
FitsOver buffer old p =
    (length p.codes * 2 ≤ length buffer)
    × (length p.tags * 16 ≤ length buffer)
    × Everywhere (λ tag. length tag ≤ length buffer) p.tags
    × LeafFits buffer p.embedded
    × IfPresent (LeafFits buffer) p.child
    × KeptOrFits buffer old.maybe p.maybe
    × (length p.children * 8 ≤ length buffer)
    × Everywhere (LeafFits buffer) p.children
    × (length p.matrix * 16 ≤ length buffer)
    × Everywhere (λ row. length row * 4 ≤ length buffer) p.matrix
    × (length p.raw ≤ length buffer)
    × (length p.flags * 1 ≤ length buffer)
    × KeptOrFits buffer old.spare p.spare

-- So do those of a probe that was decoded over the zero value.
abbrev pub Fits : Buffer → Probe → Type 0
Fits buffer = FitsOver buffer zero_probe

module _ (buffer : Buffer) (bytes : AllBytes buffer) (small : length buffer < 2 ^ 63) where
  -- a read at an offset that `add64` gave, which is a word
  word_in : (at width : ℕ) → at < word → width ≤ 8 → Ensures Anything (word_at buffer at width)
  word_in = word_at-Ensures buffer bytes small

  bool_in : (at : ℕ) → at < word → Ensures Anything (bool_at buffer at)
  bool_in = bool_at-Ensures buffer bytes small

  text_in : (at : ℕ) → at < word → Ensures (λ s. length s ≤ length buffer) (text_at buffer at)
  text_in = text_at-Ensures buffer bytes small

  slice_in {ℓ} :
      {A : Type ℓ} (P : A → Type 0) (at stride : ℕ) (element : ℕ → Outcome A)
      → at < word
      → 0 < stride
      → ((a : ℕ) → a < word → Ensures P (element a))
      → Ensures
          (λ xs. (length xs * stride ≤ length buffer) × Everywhere P xs)
          (slice_at buffer at stride element)
  slice_in = slice_at-Ensures buffer bytes small

  pub decode_leaf_into-Ensures :
      (offset : ℕ) (old : Leaf)
      → offset < word
      → Ensures (LeafFits buffer) (decode_leaf_into buffer offset old)
  unfolding decode_leaf_into
  decode_leaf_into-Ensures offset old o =
      Ensures->>= _ _ (bytes_at buffer offset 56) _
        (bytes_at-Ensures buffer bytes small _ _ o (omega arith))
        λ _ _.
          Ensures->>= _ _ (word_at buffer (add64 offset 0) 4) _
            (word_in _ _ (omega arith) (omega arith))
            λ _ _.
              Ensures->>= _ _ (bool_at buffer (add64 offset 4)) _ (bool_in _ (omega arith)) λ _ _.
                Ensures->>= _ _ (text_at buffer (add64 offset 8)) _ (text_in _ (omega arith)) λ _ _.
                  Ensures->>= _ _ (slice_at buffer (add64 offset 24) 8 (u64 buffer)) _
                    (slice_in _ _ _ _ (omega arith) (omega arith) (u64-Ensures buffer bytes small))
                    λ _ fits.
                      Ensures->>= _ _ (optional_text_at buffer (add64 offset 40) old.alias) _
                        (optional_text_at-Ensures buffer bytes small _ _ (omega arith))
                        λ _ _. fits.0

  leaf_at-Ensures :
      (old : Leaf) (at : ℕ) → at < word → Ensures (LeafFits buffer) (leaf_at buffer old at)
  unfolding leaf_at
  leaf_at-Ensures old at o =
      Ensures->>= _ _ (u64 buffer at) _ (u64-Ensures buffer bytes small at o)
        λ off off_small. decode_leaf_into-Ensures off old off_small

  optional_leaf_at-Ensures :
      (at : ℕ) (old : Option Leaf)
      → at < word
      → Ensures (KeptOrFits buffer old) (optional_leaf_at buffer at old)
  unfolding optional_leaf_at
  optional_leaf_at-Ensures at old o =
      Ensures->>= _ _ (u64 buffer at) _ (u64-Ensures buffer bytes small at o) λ off off_small.
        if_intro (Ensures (KeptOrFits buffer old)) (off == 0) (λ _. inl refl)
          (Ensures->>= _ (KeptOrFits buffer old) (decode_leaf_into buffer off zero_leaf) _
            (decode_leaf_into-Ensures off zero_leaf off_small) λ _ fits. inr fits)

  optional_float_at-Ensures :
      (at : ℕ) (old : Option ℕ) → at < word → Ensures Anything (optional_float_at buffer at old)
  unfolding optional_float_at
  optional_float_at-Ensures at old o = Ensures->>= _ _ (bool_at buffer at) _ (bool_in at o) λ has _.
      if_intro (Ensures Anything) has
        (λ _.
          Ensures->>= _ Anything (u64 buffer (add64 at 8)) _
            (u64-Ensures buffer bytes small _ (omega arith)) λ _ _. tt)
        tt

  -- The rows of the matrix, each a slice of its own
  matrix_at :
      (at : ℕ)
      → at < word
      → Ensures
          (λ rows.
            (length rows * 16 ≤ length buffer)
            × Everywhere (λ row. length row * 4 ≤ length buffer) rows)
          (slice_at buffer at 16 (λ row. slice_at buffer row 4 (λ cell. word_at buffer cell 4)))
  matrix_at at o =
      slice_in (λ row. length row * 4 ≤ length buffer) at 16 _ o (omega arith)
        λ a h.
          Ensures-weaken _ _ (slice_at buffer a 4 _) (λ row fits. fits.0)
            (slice_in Anything a 4 (λ cell. word_at buffer cell 4) h (omega arith)
              λ c k. word_in c 4 k (omega arith))

  pub decode_probe_into-Ensures :
      (offset : ℕ) (old : Probe)
      → offset < word
      → Ensures (FitsOver buffer old) (decode_probe_into buffer offset old)
  unfolding decode_probe_into
  decode_probe_into-Ensures offset old o =
      Ensures->>= _ _ (bytes_at buffer offset 200) _
        (bytes_at-Ensures buffer bytes small _ _ o (omega arith))
        λ _ _.
          Ensures->>= _ _ (u64 buffer _) _ (u64-Ensures buffer bytes small _ (omega arith)) λ _ _.
            Ensures->>= _ _ (bool_at buffer _) _ (bool_in _ (omega arith)) λ _ _.
              Ensures->>= _ _ (word_at buffer _ 1) _ (word_in _ _ (omega arith) (omega arith))
                λ _ _. Ensures->>= _ _ (text_at buffer _) _ (text_in _ (omega arith)) λ _ _.
                  Ensures->>= _ _ (slice_at buffer _ 2 _) _
                    (slice_in Anything _ _ _ (omega arith) (omega arith)
                      λ a h. word_in a 2 h (omega arith))
                    λ _ codes.
                      Ensures->>= _ _ (slice_at buffer _ 16 _) _
                        (slice_in _ _ _ _ (omega arith) (omega arith) text_in)
                        λ _ tags.
                          Ensures->>= _ _ (leaf_at buffer _ _) _ (leaf_at-Ensures _ _ (omega arith))
                            λ _ embedded.
                              Ensures->>= _ _ (leaf_at buffer _ _) _
                                (leaf_at-Ensures _ _ (omega arith))
                                λ _ child.
                                  Ensures->>= _ _ (optional_leaf_at buffer _ _) _
                                    (optional_leaf_at-Ensures _ _ (omega arith))
                                    λ _ maybe.
                                      Ensures->>= _ _ (slice_at buffer _ 8 _) _
                                        (slice_in (LeafFits buffer) _ _ _ (omega arith)
                                          (omega arith) (leaf_at-Ensures zero_leaf))
                                        λ _ children.
                                          Ensures->>= _ _ (optional_float_at buffer _ _) _
                                            (optional_float_at-Ensures _ _ (omega arith))
                                            λ _ _.
                                              Ensures->>= _ _ (optional_text_at buffer _ _) _
                                                (optional_text_at-Ensures buffer bytes small _ _
                                                  (omega arith))
                                                λ _ _.
                                                  Ensures->>= _ _ (word_at buffer _ 4) _
                                                    (word_in _ _ (omega arith) (omega arith))
                                                    λ _ _.
                                                      Ensures->>= _ _ (word_at buffer _ 4) _
                                                        (word_in _ _ (omega arith) (omega arith))
                                                        λ _ _.
                                                          Ensures->>= _ _ (slice_at buffer _ 16 _) _
                                                            (matrix_at _ (omega arith))
                                                            λ _ matrix.
                                                            Ensures->>= _ _ (text_at buffer _) _
                                                            (text_in _ (omega arith))
                                                            λ _ raw.
                                                            Ensures->>= _ _ (slice_at buffer _ 1 _)
                                                            _
                                                            (slice_in Anything _ _ _ (omega arith)
                                                            (omega arith) bool_in)
                                                            λ _ flags.
                                                            Ensures->>= _ (FitsOver buffer old)
                                                            (optional_leaf_at buffer _ _) _
                                                            (optional_leaf_at-Ensures _ _
                                                            (omega arith))
                                                            λ _ spare. (
                                                            codes.0, tags.0, tags.1, embedded,
                                                            child, maybe, children.0, children.1,
                                                            matrix.0, matrix.1, raw, flags.0, spare,
                                                            )
