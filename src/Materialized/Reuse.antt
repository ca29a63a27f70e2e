-- ===== src/Materialized/Reuse.antt =====
-- Decoding over an element that was decoded into before, as `zigoDecodeProbeSliceInto` does.
use zigo.Prelude.{
  ◌≡◌, refl, ap, ℕ, List, Option, none, some, add64, Bool, true, false, ◌==◌, if◌then◌else◌,
}
use zigo.Materialized.{Buffer, Outcome, returns, panics, ◌>>=◌, u64, bytes_at, word_at}
use zigo.Materialized.Leaves.{
  Leaf, zero_leaf, bool_at, text_at, slice_at, optional_text_at, decode_leaf_into,
}

-- The value of the first, or if it has none that of the second
abbrev pub or_old : Option (List ℕ) → Option (List ℕ) → Option (List ℕ)
or_old none old = old
or_old (some s) old = some s

-- A leaf decoded on its own, with the alias of an older leaf where it has none
abbrev pub filled : Leaf → Leaf → Leaf
filled old leaf = record leaf { alias = or_old leaf.alias old.alias }

-- What becomes of a run's value
abbrev pub after {ℓ κ} : {A : Type ℓ} {B : Type κ} → (A → B) → Outcome A → Outcome B
after f (returns a) = returns (f a)
after f (panics p) = panics p

after->>= {ℓ κ μ} :
    {A : Type ℓ} {B : Type κ} {C : Type μ} (h : B → C) (m : Outcome A) (f : A → Outcome C)
    (g : A → Outcome B)
    → ((a : A) → f a ≡ after h (g a))
    → (m >>= f) ≡ after h (m >>= g)
after->>= h (returns a) f g same = same a
after->>= h (panics p) f g same = refl

present_text-after :
    (old : Option (List ℕ)) (m : Outcome (List ℕ))
    → (m >>= λ s. returns (some s)) ≡ after (λ s. or_old s old) (m >>= λ s. returns (some s))
present_text-after old (returns s) = refl
present_text-after old (panics p) = refl

optional_text_at-after :
    (buffer : Buffer) (at : ℕ) (old : Option (List ℕ))
    → optional_text_at buffer at old ≡ after (λ s. or_old s old) (optional_text_at buffer at none)
unfolding optional_text_at
optional_text_at-after buffer at old =
    after->>= (λ s. or_old s old) (u64 buffer at) _ _
      λ off.
        let present =
          after->>= (λ s. or_old s old) (u64 buffer (add64 at 8)) _ _
            λ len. present_text-after old (bytes_at buffer off len) in
        absent_or _ _ (off == 0) present
  where
    absent_or :
        (p q : Outcome (Option (List ℕ))) (b : Bool)
        → p ≡ after (λ s. or_old s old) q
        → (if b then returns old else p) ≡ after (λ s. or_old s old) (if b then returns none else q)
    absent_or p q true same = refl
    absent_or p q false same = same

alias-after :
    (leaf : Leaf) (old : Leaf) (m n : Outcome (Option (List ℕ)))
    → m ≡ after (λ s. or_old s old.alias) n
    → (m >>= λ s. returns (record leaf { alias = s }))
      ≡ after (filled old) (n >>= λ s. returns (record leaf { alias = s }))
alias-after leaf old m (returns s) e = ap (λ o. o >>= λ s. returns (record leaf { alias = s })) e
alias-after leaf old m (panics p) e = ap (λ o. o >>= λ s. returns (record leaf { alias = s })) e

-- `zigoDecodeLeafInto` over a leaf that is in use, for any buffer and offset: it panics exactly as it does
-- over a zero leaf, and otherwise returns what it returns there, but for an alias that the buffer says is
-- absent: that is the one of the leaf that was there before.
pub decode_leaf_into-after :
    (buffer : Buffer) (offset : ℕ) (old : Leaf)
    → decode_leaf_into buffer offset old
      ≡ after (filled old) (decode_leaf_into buffer offset zero_leaf)
unfolding decode_leaf_into
decode_leaf_into-after buffer offset old =
    after->>= (filled old) (bytes_at buffer offset 56) _ _ λ _.
      after->>= (filled old) (word_at buffer (add64 offset 0) 4) _ _ λ value.
        after->>= (filled old) (bool_at buffer (add64 offset 4)) _ _ λ enabled.
          after->>= (filled old) (text_at buffer (add64 offset 8)) _ _ λ label.
            after->>= (filled old) (slice_at buffer (add64 offset 24) 8 (u64 buffer)) _ _ λ samples.
              alias-after
                (record {
                  value = value;
                  enabled = enabled;
                  label = label;
                  samples = samples;
                  alias = none;
                })
                old _ _ (optional_text_at-after buffer (add64 offset 40) old.alias)
