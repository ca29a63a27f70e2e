-- ===== src/Materialized/Safety/Values.antt =====
-- The readers and the blocks that fill one field.
use native.Mathlib.Nat.{pow-le-pow_right}
use zigo.Prelude.{
  ℕ, zero, suc, ◌+◌, ◌*◌, ◌^◌, ◌≤◌, ◌<◌, ◌≡◌, refl, ap, sym, subst, ◌∙◌, Option, List, length,
  length-take, drop, if_intro, leb, leb→le, ◌==◌, word, add64, arith,
}
use zigo.Materialized.{
  Buffer, Outcome, u64, bytes_at, word_at, array, little_endian, make_len, for_range,
}
use zigo.Materialized.Leaves.{bool_at, text_at, slice_at, optional_text_at}
use zigo.Materialized.Readers.{range, bytes_at_lem, u64_lem, array_lem}
use zigo.Materialized.Word.{AllBytes, AllBytes-range, little_endian-lt, word_at_lem}
use zigo.Materialized.Safety.{Ensures, Anything, Ensures->>=, Ensures-weaken, Everywhere}

pub for_range-Ensures {ℓ} :
    {A : Type ℓ} (P : A → Type 0) (i n : ℕ) (body : ℕ → Outcome A)
    → ((j : ℕ) → Ensures P (body j))
    → Ensures (λ xs. (length xs ≡ n) × Everywhere P xs) (for_range i n body)
unfolding for_range
for_range-Ensures P i zero body h = (refl, tt)
for_range-Ensures P i (suc n) body h = Ensures->>= P _ (body i) _ (h i) λ a p.
    Ensures->>= _ _ (for_range (i + 1) n body) _ (for_range-Ensures P (i + 1) n body h)
      λ rest e. (ap suc e.0, (p, e.1))

module _ (buffer : Buffer) (bytes : AllBytes buffer) (small : length buffer < 2 ^ 63) where
  length-range-le : (offset n : ℕ) → length (range buffer offset n) ≤ n
  length-range-le offset n = omega (arith, length-take n (drop offset buffer))

  little_endian-range-lt : (offset : ℕ) → little_endian (range buffer offset 8) < word
  little_endian-range-lt offset =
      let bound : 256 ^ length (range buffer offset 8) ≤ 256 ^ 8 =
        pow-le-pow_right (omega arith) {j = 8} (length-range-le offset 8) in
      omega (arith, bound, little_endian-lt _ (AllBytes-range offset 8 buffer bytes))

  pub u64-Ensures : (offset : ℕ) → offset < word → Ensures (λ v. v < word) (u64 buffer offset)
  u64-Ensures offset o = rw (u64_lem buffer offset small o) (
      if_intro (Ensures (λ v. v < word)) (leb (offset + 8) (length buffer))
        (λ _. little_endian-range-lt offset) tt)

  pub bytes_at-Ensures :
      (offset n : ℕ)
      → offset < word
      → n < word
      → Ensures (λ bs. length bs ≤ length buffer) (bytes_at buffer offset n)
  bytes_at-Ensures offset n o m = rw (bytes_at_lem buffer offset n small o m) (
      if_intro (Ensures (λ bs. length bs ≤ length buffer)) (leb (offset + n) (length buffer))
        (λ fits. omega (arith, length-range-le offset n, leb→le _ _ fits)) tt)

  pub word_at-Ensures :
      (offset width : ℕ)
      → offset < word
      → width ≤ 8
      → Ensures Anything (word_at buffer offset width)
  word_at-Ensures offset width o w =
      rw (word_at_lem buffer offset width bytes small o w)
        (if_intro (Ensures Anything) (leb (offset + width) (length buffer)) (λ _. tt) tt)

  pub bool_at-Ensures : (at : ℕ) → at < word → Ensures Anything (bool_at buffer at)
  unfolding bool_at
  bool_at-Ensures at o =
      Ensures->>= Anything Anything (word_at buffer at 1) _ (word_at-Ensures at 1 o (omega arith))
        λ w _. tt

  pub text_at-Ensures :
      (at : ℕ) → at < word → Ensures (λ s. length s ≤ length buffer) (text_at buffer at)
  unfolding text_at
  text_at-Ensures at o = Ensures->>= _ _ (u64 buffer at) _ (u64-Ensures at o) λ off off_small.
      Ensures->>= _ _ (u64 buffer (add64 at 8)) _ (u64-Ensures (add64 at 8) (omega arith))
        λ n n_small. bytes_at-Ensures off n off_small n_small

  pub array-Ensures :
      (offset count stride : ℕ)
      → offset < word
      → 0 < stride
      → Ensures (λ _. offset + count * stride ≤ length buffer) (array buffer offset count stride)
  array-Ensures offset count stride o s = rw (array_lem buffer offset count stride small o s) (
      if_intro (Ensures (λ _. offset + count * stride ≤ length buffer))
        (leb (offset + count * stride) (length buffer)) (λ fits. leb→le _ _ fits) tt)

  pub make_len-Ensures : (count : ℕ) → count < 2 ^ 63 → Ensures (λ n. n ≡ count) (make_len count)
  unfolding make_len
  make_len-Ensures count h = ground arith

  pub slice_at-Ensures {ℓ} :
      {A : Type ℓ} (P : A → Type 0) (at stride : ℕ) (element : ℕ → Outcome A)
      → at < word
      → 0 < stride
      → ((a : ℕ) → a < word → Ensures P (element a))
      → Ensures
          (λ xs. (length xs * stride ≤ length buffer) × Everywhere P xs)
          (slice_at buffer at stride element)
  unfolding slice_at
  slice_at-Ensures P at stride element o s h =
      Ensures->>= _ _ (u64 buffer at) _ (u64-Ensures at o) λ off off_small.
        Ensures->>= _ _ (u64 buffer (add64 at 8)) _ (u64-Ensures (add64 at 8) (omega arith))
          λ count _.
            Ensures->>= _ _ (array buffer off count stride) _
              (array-Ensures off count stride off_small s)
              λ _ fits.
                let few : count < 2 ^ 63 = grind arith in
                Ensures->>= _ _ (make_len count) _ (make_len-Ensures count few) λ n e.
                  Ensures-weaken (λ xs. (length xs ≡ n) × Everywhere P xs) _ (for_range 0 n _)
                    (λ xs m. (
                      subst (λ l. l * stride ≤ length buffer) (sym (m.0 ∙ e)) (omega (arith, fits)),
                      m.1,
                    ))
                    (for_range-Ensures P 0 n _ λ i. h _ (omega arith))

  pub optional_text_at-Ensures :
      (at : ℕ) (old : Option (List ℕ))
      → at < word
      → Ensures Anything (optional_text_at buffer at old)
  unfolding optional_text_at
  optional_text_at-Ensures at old o =
      Ensures->>= _ _ (u64 buffer at) _ (u64-Ensures at o) λ off off_small.
        if_intro (Ensures Anything) (off == 0) (λ _. tt)
          (Ensures->>= _ Anything (u64 buffer (add64 at 8)) _
            (u64-Ensures (add64 at 8) (omega arith))
            λ n n_small.
              Ensures->>= _ Anything (bytes_at buffer off n) _
                (bytes_at-Ensures off n off_small n_small) λ s _. tt)
