-- ===== src/TaggedUnion/Values.antt =====
-- The projections of `Value`, which read the union one payload at a time
-- (examples/10-tagged-union/go/tagged_union/tagged_union_union_value_gen.go).
-- The receiver is any handle type, a `*Value` or a `*ValueRef`, behind the interface of Handle.Lifecycle.
-- The calls of the raw package are the parameter `RawValue`: a value beside a status. An `int64` or
-- `int16` is its bit pattern, a `*ChildRef` its pointer: its parent is the receiver.
pub mod Reading
pub mod Restoring
use zigo.Prelude.{
  ℕ, Bool, true, false, not, Option, none, some, List, [], ◌∷◌, ◌++◌, String, ◌<>◌, if◌then◌else◌,
  ◌==◌,
}
use zigo.Prelude.Int.{ℤ, pos, ==ℤ}
use zigo.Errors.{GoError}
use zigo.Errors.Classify.{poison_after_panic}
use zigo.Handle.Common.{Pointer, Result, ok, err, Effect}
use zigo.Handle.Lifecycle.{Lifecycle}
use zigo.TaggedUnion.{projection_mismatch, projection_success, projection_error}

pub record RawValue : Type 0 where
  pub project_tag : Pointer → ℕ × ℤ
  pub project_integer : Pointer → ℕ × ℤ
  pub project_flag : Pointer → ℕ × ℤ
  pub project_mode : Pointer → ℕ × ℤ
  pub project_samples : Pointer → List ℕ × ℤ
  pub project_child : Pointer → Pointer × ℤ
  pub project_mutable_samples : Pointer → List ℕ × ℤ

-- `ValueVariant`, with its implementations in the order of the tags
pub data ValueVariant : Type 0 where
  value_none : ValueVariant
  value_integer : ℕ → ValueVariant
  value_flag : Bool → ValueVariant
  value_mode : ℕ → ValueVariant
  value_samples : List ℕ → ValueVariant
  value_child : Pointer → ValueVariant
  value_mutable_samples : List ℕ → ValueVariant

-- The handle afterwards, what the call returned, and what it called out
abbrev pub Read : Type 0 → Type 0 → Type 0
Read H A = H × Result A × List Effect

abbrev pub leaving : {H A : Type 0} → Result A → H × List Effect → Read H A
leaving result (h, effects) = (h, result, effects)

-- `append([]int16(nil), result...)`
abbrev pub copied : List ℕ → List ℕ
copied [] = []
copied (sample ∷ samples) = sample ∷ copied samples

module _ {H : Type 0} (l : Lifecycle H) (panic_message : ℤ → String) where
  -- A failed projection: the receiver is poisoned after a panic, and released last.
  unfoldable pub failed : {A : Type 0} → String → ℤ → H → Read H A
  failed operation status h =
      let e = projection_error panic_message operation status in
      leaving (err e) (l.release (poison_after_panic l.poison e h))

  unfoldable pub tag_answered : ℕ × ℤ → H → Read H ℕ
  unfolding failed
  tag_answered (result, status) h =
      if not (==ℤ status projection_success)
      then failed "Value.Tag" status h
      else leaving (ok result) (l.release h)

  -- `zigoValueTag`
  unfoldable pub value_tag : RawValue → H → Read H ℕ
  value_tag raw receiver =
      let (held, acquired, effects) = l.acquire "Value.Tag receiver" receiver in
      elim acquired [
        | err e ↦ (held, err e, effects)
        | ok ptr ↦ tag_answered (raw.project_tag ptr) held
      ]

  unfoldable pub payload_answered :
      {A B : Type 0} → String → (A → B) → A × ℤ → H → Read H (Option B)
  unfolding failed
  payload_answered operation convert (result, status) h =
      if ==ℤ status projection_mismatch
      then leaving (ok none) (l.release h)
      else if not (==ℤ status projection_success)
      then failed operation status h
      else leaving (ok (some (convert result))) (l.release h)

  -- The body that the six `zigoValueAs…` share; a mismatch is `none`
  unfoldable pub value_as :
      {A B : Type 0} → String → (Pointer → A × ℤ) → (A → B) → H → Read H (Option B)
  value_as operation project convert receiver =
      let (held, acquired, effects) = l.acquire (operation <> " receiver") receiver in
      elim acquired [
        | err e ↦ (held, err e, effects)
        | ok ptr ↦ payload_answered operation convert (project ptr) held
      ]

  abbrev pub value_as_integer : RawValue → H → Read H (Option ℕ)
  value_as_integer raw = value_as "Value.AsInteger" raw.project_integer (λ result. result)

  abbrev pub value_as_flag : RawValue → H → Read H (Option Bool)
  value_as_flag raw = value_as "Value.AsFlag" raw.project_flag (λ result. not (result == 0))

  abbrev pub value_as_mode : RawValue → H → Read H (Option ℕ)
  value_as_mode raw = value_as "Value.AsMode" raw.project_mode (λ result. result)

  abbrev pub value_as_samples : RawValue → H → Read H (Option (List ℕ))
  value_as_samples raw = value_as "Value.AsSamples" raw.project_samples copied

  abbrev pub value_as_child : RawValue → H → Read H (Option Pointer)
  value_as_child raw = value_as "Value.AsChild" raw.project_child (λ result. result)

  abbrev pub value_as_mutable_samples : RawValue → H → Read H (Option (List ℕ))
  value_as_mutable_samples raw =
      value_as "Value.AsMutableSamples" raw.project_mutable_samples copied

  -- The error of a union that has changed its variant
  abbrev pub changed : {A : Type 0} → Result A
  changed = err (projection_error panic_message "Value.Variant" projection_mismatch)

  -- One case of the switch, once its payload was read
  unfoldable pub with_payload :
      {A : Type 0} → (A → ValueVariant) → Read H (Option A) → Read H ValueVariant
  with_payload build (h, err e, effects) = (h, err e, effects)
  with_payload build (h, ok none, effects) = (h, changed, effects)
  with_payload build (h, ok (some payload), effects) = (h, ok (build payload), effects)

  -- The switch on the tag. `before` is the handle after the first call, `h` as the second one finds it.
  unfoldable pub switch : ℕ → RawValue → H → H → Read H ValueVariant
  unfolding with_payload
  switch tag raw before h =
      if tag == 0
      then (before, ok value_none, [])
      else if tag == 1
      then with_payload value_integer (value_as_integer raw h)
      else if tag == 2
      then with_payload value_flag (value_as_flag raw h)
      else if tag == 3
      then with_payload value_mode (value_as_mode raw h)
      else if tag == 4
      then with_payload value_samples (value_as_samples raw h)
      else if tag == 5
      then with_payload value_child (value_as_child raw h)
      else if tag == 6
      then with_payload value_mutable_samples (value_as_mutable_samples raw h)
      else (before, changed, [])

  abbrev after : List Effect → Read H ValueVariant → Read H ValueVariant
  after earlier (h, result, effects) = (h, result, earlier ++ effects)

  -- What follows the read of the tag
  unfoldable pub chosen : RawValue → (H → H) → Read H ℕ → Read H ValueVariant
  chosen second between (h, err e, effects) = (h, err e, effects)
  chosen second between (h, ok tag, effects) = after effects (switch tag second h (between h))

  -- `zigoValueVariant`. Its two calls are two critical sections: the native side answers the first as
  -- `first` and the second as `second`, and `between` is what other goroutines make of the handle
  -- in the meantime.
  unfoldable pub value_variant : RawValue → RawValue → (H → H) → H → Read H ValueVariant
  value_variant first second between receiver = chosen second between (value_tag first receiver)
