-- ===== src/Tests/Values.antt =====
-- Handles, references and projections of the tagged union package.
use zigo.Prelude.{◌≡◌, refl, ◌⊎◌, true, none, some, [], ◌∷◌, String, arith}
use zigo.Prelude.Int.{ℤ, pos, negsuc}
use zigo.Errors.{NativePanicError}
use zigo.Handle.Common.{ok, deinit}
use zigo.PackedStructs.{Flags}
use zigo.TaggedUnion.Handles.{
  Owned, new, acquire, release, close, poison, owned, acquire_reference, release_reference,
  take_locked,
}
use zigo.TaggedUnion.Handles.Keeping.{borrowed_from, close-borrowed, owned_laws}
use zigo.TaggedUnion.Methods.Children.{set_child, set_child-both}
use zigo.TaggedUnion.Values.{RawValue, value_integer, value_samples, value_tag, value_variant}
use zigo.TaggedUnion.Values.Reading.{Contains, seen, value_variant-seen}
use zigo.TaggedUnion.Values.Restoring.{Calm, value_variant-Kept}

abbrev panic_message : ℤ → String
panic_message code = "reached unreachable code"

abbrev value : Owned
value = new (some 7) none

-- The native side of a union that holds `samples`, and of one that holds an integer
abbrev samples : RawValue
samples = record {
  project_tag = λ p. (4, pos 1);
  project_integer = λ p. (0, pos 0);
  project_flag = λ p. (0, pos 0);
  project_mode = λ p. (0, pos 0);
  project_samples = λ p. (3 ∷ 5 ∷ [], pos 1);
  project_child = λ p. (none, pos 0);
  project_mutable_samples = λ p. ([], pos 0);
}

abbrev number : RawValue
number = record samples {
  project_tag = λ p. (1, pos 1);
  project_integer = λ p. (42, pos 1);
  project_samples = λ p. ([], pos 0);
}

samples_contain : Contains samples (some 7) (value_samples (3 ∷ 5 ∷ []))
samples_contain = record {
  tag = refl;
  integer = refl;
  flag = refl;
  mode = refl;
  samples = (refl, refl);
  child = refl;
  mutable_samples = refl;
}

number_contain : Contains number (some 7) (value_integer 42)
number_contain = record {
  tag = refl;
  integer = (refl, refl);
  flag = refl;
  mode = refl;
  samples = refl;
  child = refl;
  mutable_samples = refl;
}

-- The variant changes between the two reads.
value_variant-seen_example :
    ((value_variant (owned "Value") panic_message samples number (λ v. v) value).1
      ≡ seen panic_message (value_samples (3 ∷ 5 ∷ [])) (value_integer 42))
    × (seen panic_message (value_samples (3 ∷ 5 ∷ [])) (value_samples (3 ∷ 5 ∷ []))
        ≡ ok (value_samples (3 ∷ 5 ∷ [])))
unfolding acquire release new take_locked
value_variant-seen_example =
    value_variant-seen (owned "Value") panic_message samples number (λ v. v) value (some 7)
      (value_samples (3 ∷ 5 ∷ [])) (value_integer 42) refl (λ op. refl) samples_contain
      number_contain

calm : Calm samples
calm = record {
  tag = λ p. refl;
  integer = λ p. refl;
  flag = λ p. refl;
  mode = λ p. refl;
  samples = λ p. refl;
  child = λ p. refl;
  mutable_samples = λ p. refl;
}

value_variant-Kept_example :
    let r =
      value_variant
        (owned "Value")
        panic_message
        samples
        samples
        (λ v. (close "Value" v).0)
        value in
    ((value_tag (owned "Value") panic_message samples value).0 ≡ value)
    × ((r.0 ≡ value) ⊎ (r.0 ≡ (close "Value" value).0))
    × (r.2 ≡ [])
unfolding new close take_locked
value_variant-Kept_example =
    value_variant-Kept (owned "Value") panic_message (owned_laws "Value") samples samples
      (λ v. (close "Value" v).0) value (omega arith) (omega arith) calm calm

close-borrowed_example :
    let (r, answer, effects) =
      acquire_reference (owned "Value") "Value.Tag receiver" (borrowed_from (some 9) value) in
    let entered = (acquire "Value.Tag receiver" value).0 in
    let (closed, failure, released) = close "Value" entered in
    (answer ≡ ok (some 9))
    × (r ≡ borrowed_from (some 9) entered)
    × (released ≡ [])
    × ((release_reference (owned "Value") (borrowed_from (some 9) closed)).1 ≡ deinit 7 ∷ [])
unfolding new
close-borrowed_example =
    close-borrowed "Value" "Value.Tag receiver" value 7 9 refl refl refl (omega arith)

abbrev cause : NativePanicError
cause = record { operation = "Value.SetChild"; message = "reached unreachable code" }

-- The native call ends in a panic.
set_child-both_example :
    let r = set_child panic_message (λ p q. negsuc 299) value (new (some 8) none) in
    (r.0 ≡ (poison cause value, poison cause (new (some 8) none))) × (r.2 ≡ [])
unfolding new
set_child-both_example =
    set_child-both panic_message (λ p q. negsuc 299) value (new (some 8) none) (omega arith)
      (omega arith)

abbrev flags : Flags
flags = record { enabled = true; level = 13; mode = 2; reserved = 1 }
