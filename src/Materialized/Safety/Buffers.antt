-- ===== src/Materialized/Safety/Buffers.antt =====
-- The entry points, which a caller hands a whole buffer.
use zigo.Prelude.{
  ℕ, zero, suc, ◌+◌, ◌*◌, ◌^◌, ◌≤◌, ◌<◌, ◌≡◌, refl, Bool, true, false, not, List, [], ◌∷◌, length,
  if_intro, ltb, ◌==◌, word, arith,
}
use zigo.Materialized.{Buffer, u64, array, header, magic_version, check, make_len, for_range}
use zigo.Materialized.Probes.{
  Probe, decode_probe_buffer, probe_at, decode_probe_slice_buffer, decode_over,
  decode_probe_slice_into, zero_probe,
}
use zigo.Materialized.Word.{AllBytes}
use zigo.Materialized.Safety.{Ensures, Anything, Ensures->>=, Ensures-weaken, Everywhere}
use zigo.Materialized.Safety.Values.{
  u64-Ensures, array-Ensures, make_len-Ensures, for_range-Ensures,
}
use zigo.Materialized.Safety.Decoders.{Fits, FitsOver, decode_probe_into-Ensures}

module _ (buffer : Buffer) (bytes : AllBytes buffer) (small : length buffer < 2 ^ 63) where
  check-Ensures : (b : Bool) → Ensures Anything (check b)
  check-Ensures true = tt
  check-Ensures false = tt

  u64_in : (at : ℕ) → at < word → Ensures (λ v. v < word) (u64 buffer at)
  u64_in = u64-Ensures buffer bytes small

  header-Ensures : (layout : ℕ) → Ensures (λ root. root.0 < word) (header buffer layout)
  unfolding header
  header-Ensures layout =
      Ensures->>= Anything _ (check (not (ltb (length buffer) 40))) _ (check-Ensures _) λ _ _.
        Ensures->>= _ _ (u64 buffer 0) _ (u64_in 0 (omega arith)) λ magic _.
          Ensures->>= Anything _ (check (magic == magic_version)) _ (check-Ensures _) λ _ _.
            Ensures->>= _ _ (u64 buffer 8) _ (u64_in 8 (omega arith)) λ found _.
              Ensures->>= Anything _ (check (found == layout)) _ (check-Ensures _) λ _ _.
                Ensures->>= _ _ (u64 buffer 32) _ (u64_in 32 (omega arith)) λ size _.
                  Ensures->>= Anything _ (check (size == length buffer)) _ (check-Ensures _) λ _ _.
                    Ensures->>= _ _ (u64 buffer 24) _ (u64_in 24 (omega arith)) λ offset h.
                      Ensures->>= _ _ (u64 buffer 16) _ (u64_in 16 (omega arith)) λ _ _. h

  probe_at-Ensures :
      (at : ℕ) (old : Probe) → at < word → Ensures (FitsOver buffer old) (probe_at buffer at old)
  unfolding probe_at
  probe_at-Ensures at old o =
      Ensures->>= _ _ (u64 buffer at) _ (u64-Ensures buffer bytes small at o)
        λ off off_small. decode_probe_into-Ensures buffer bytes small off old off_small

  decode_over-Ensures :
      (offset i left : ℕ) (output : List Probe)
      → Ensures (λ result. length result ≡ length output) (decode_over buffer offset i left output)
  unfolding decode_over
  decode_over-Ensures offset i zero output = refl
  decode_over-Ensures offset i (suc left) [] = refl
  decode_over-Ensures offset i (suc left) (old ∷ output) =
      Ensures->>= _ _ (probe_at buffer _ old) _ (probe_at-Ensures _ old (omega arith)) λ _ _.
        Ensures->>= _ _ (decode_over buffer offset (i + 1) left output) _
          (decode_over-Ensures offset (i + 1) left output) λ rest e. omega (arith, e)

  -- `zigoDecodeProbeBuffer` on any bytes, fewer than 2 ^ 63, returns a probe or panics with the
  -- decoder's own message: no index, slice or `make` of it fails, whatever offsets and counts
  -- the buffer has. No slice of the probe has more elements than the buffer has room for: its codes,
  -- tags, children, matrix, raw bytes and flags, the bytes of every tag, the cells of every row of the
  -- matrix, and the samples of every leaf.
  pub decode_probe_buffer-Ensures : Ensures (Fits buffer) (decode_probe_buffer buffer)
  unfolding decode_probe_buffer
  decode_probe_buffer-Ensures =
      Ensures->>= _ _ (header buffer 1) _ (header-Ensures 1) λ (offset, count) h.
        if_intro (Ensures (Fits buffer)) (count == 1)
          (λ _. decode_probe_into-Ensures buffer bytes small offset zero_probe h) tt

  -- `zigoDecodeProbeSliceBuffer` on any bytes, fewer than 2 ^ 63, returns no more probes than the
  -- buffer has room for pointers to, at eight bytes each, and no slice of theirs has more elements than
  -- it has room for; or it panics with the decoder's own message.
  pub decode_probe_slice_buffer-Ensures :
      Ensures
        (λ probes. (length probes * 8 ≤ length buffer) × Everywhere (Fits buffer) probes)
        (decode_probe_slice_buffer buffer)
  unfolding decode_probe_slice_buffer
  decode_probe_slice_buffer-Ensures =
      Ensures->>= _ _ (header buffer 1) _ (header-Ensures 1) λ (offset, count) h.
        Ensures->>= _ _ (array buffer offset count 8) _
          (array-Ensures buffer bytes small offset count 8 h (omega arith))
          λ _ fits.
            Ensures->>= _ _ (make_len count) _
              (make_len-Ensures buffer bytes small count (omega (arith, fits)))
              λ n e.
                Ensures-weaken (λ probes. (length probes ≡ n) × Everywhere (Fits buffer) probes) _
                  (for_range 0 n _) (λ probes m. (omega (arith, m.0, e, fits), m.1))
                  (for_range-Ensures (Fits buffer) 0 n _
                    λ i. probe_at-Ensures _ zero_probe (omega arith))

-- `zigoDecodeProbeSliceInto` on any bytes, fewer than 2 ^ 63, writes over elements of `output`
-- and keeps its length, or panics with the decoder's own message.
pub decode_probe_slice_into-Ensures :
    (buffer : Buffer)
    → AllBytes buffer
    → length buffer < 2 ^ 63
    → (output : List Probe)
    → Ensures (λ result. length result ≡ length output) (decode_probe_slice_into buffer output)
unfolding decode_probe_slice_into
decode_probe_slice_into-Ensures [] bytes small output = refl
decode_probe_slice_into-Ensures (b ∷ bs) bytes small output =
    Ensures->>= _ _ (header (b ∷ bs) 1) _ (header-Ensures (b ∷ bs) bytes small 1)
      λ (offset, count) h.
        Ensures->>= _ _ (array (b ∷ bs) offset count 8) _
          (array-Ensures (b ∷ bs) bytes small offset count 8 h (omega arith))
          λ _ _. decode_over-Ensures (b ∷ bs) bytes small offset 0 _ output
