-- ===== src/Materialized/Safety.antt =====
-- What a run of a decoder may end in, and the rule for a chain of reads.
pub mod Values
pub mod Decoders
pub mod Buffers
use zigo.Prelude.{List, [], ◌∷◌, Option, none, some}
use zigo.Materialized.{Outcome, returns, panics, invalid_buffer, runtime_error, ◌>>=◌}

-- A run returns a value with `P`, or panics with "zigo: invalid materialized result buffer".
abbrev pub Ensures {ℓ} : {A : Type ℓ} → (A → Type 0) → Outcome A → Type 0
Ensures P (returns a) = P a
Ensures P (panics invalid_buffer) = Unit {0}
Ensures P (panics runtime_error) = ⊥

abbrev pub Anything {ℓ} : {A : Type ℓ} → A → Type 0
Anything a = Unit {0}

module _ {ℓ κ} {A : Type ℓ} {B : Type κ} where
  pub Ensures->>= :
      (P : A → Type 0) (Q : B → Type 0) (m : Outcome A) (f : A → Outcome B)
      → Ensures P m
      → ((a : A) → P a → Ensures Q (f a))
      → Ensures Q (m >>= f)
  Ensures->>= P Q (returns a) f h k = k a h
  Ensures->>= P Q (panics invalid_buffer) f h k = tt
  Ensures->>= P Q (panics runtime_error) f h k = h

pub Ensures-weaken {ℓ} :
    {A : Type ℓ} (P Q : A → Type 0) (m : Outcome A)
    → ((a : A) → P a → Q a)
    → Ensures P m
    → Ensures Q m
Ensures-weaken P Q (returns a) k h = k a h
Ensures-weaken P Q (panics invalid_buffer) k h = tt
Ensures-weaken P Q (panics runtime_error) k h = h

-- What holds of every element of a slice, and of a pointer that is not nil
abbrev pub Everywhere {ℓ} : {A : Type ℓ} → (A → Type 0) → List A → Type 0
Everywhere P [] = Unit {0}
Everywhere P (x ∷ rest) = P x × Everywhere P rest

abbrev pub IfPresent {ℓ} : {A : Type ℓ} → (A → Type 0) → Option A → Type 0
IfPresent P none = Unit {0}
IfPresent P (some x) = P x
