-- ===== src/TaggedUnion/Methods/Children.antt =====
-- `Value.SetChild`, the method of two handles, and the functions that take none
-- (examples/10-tagged-union/go/tagged_union/tagged_union_gen.go, lines 245-266 and 393-417).
use zigo.Prelude.{
  ℕ, ◌+◌, ◌<◌, ◌≡◌, Bool, not, ◌&&◌, List, [], ◌++◌, String, if◌then◌else◌, word, arith,
}
use zigo.Prelude.Int.{ℤ, pos, ==ℤ}
use zigo.Errors.{NativePanicError}
use zigo.Errors.Classify.{is_panic_code, poison_after_panic}
use zigo.Handle.Common.{Pointer, is_nil, Result, ok, err, Effect}
use zigo.TaggedUnion.Codes.{union_error_for_code}
use zigo.TaggedUnion.Handles.{Owned, acquire, release, poison, take_locked}

-- The value and the child afterwards, the error, and what was called out
abbrev pub Both : Type 0
Both = (Owned × Owned) × Result (Unit {0}) × List Effect

module _ (panic_message : ℤ → String) where
  -- The two deferred releases, the child's first
  unfoldable pub released_both : Result (Unit {0}) → Owned × Owned → Both
  released_both result (v, child) =
      let (child', of_child) = release "Child" child in
      let (v', of_value) = release "Value" v in ((v', child'), result, of_child ++ of_value)

  abbrev poison_both : NativePanicError → Owned × Owned → Owned × Owned
  poison_both cause (v, child) = (poison cause v, poison cause child)

  -- What follows the native call
  unfoldable pub child_set : ℤ → Owned → Owned → Both
  unfolding released_both
  child_set code v child =
      let e = union_error_for_code panic_message "Value.SetChild" code in
      if not (==ℤ code (pos 0))
      then released_both (err e) (poison_after_panic poison_both e (v, child))
      else released_both (ok tt) (v, child)

  -- What follows the read of the receiver's pointer
  unfoldable pub with_child : (Pointer → ℤ) → Owned → Owned → Both
  with_child native v child =
      let (child', acquired) = acquire "Value.SetChild parameter child" child in
      elim acquired [
        | err e ↦ let (v', effects) = release "Value" v in ((v', child'), err e, effects)
        | ok child_ptr ↦ child_set (native child_ptr) v child'
      ]

  -- `Value.SetChild`
  unfoldable pub set_child : (Pointer → Pointer → ℤ) → Owned → Owned → Both
  unfolding with_child
  set_child native v child =
      let (v', acquired) = acquire "Value.SetChild receiver" v in
      elim acquired [ err e ↦ ((v', child), err e, []) | ok ptr ↦ with_child (native ptr) v' child ]

  -- `Divide`
  unfoldable pub divide : (ℕ → ℕ → ℕ × ℤ) → ℕ → ℕ → Result ℕ
  divide native numerator denominator =
      let (result, code) = native numerator denominator in
      if not (==ℤ code (pos 0))
      then err (union_error_for_code panic_message "Divide" code)
      else ok result

  -- `PanicError`
  unfoldable pub panic_error : ℤ → Result (Unit {0})
  panic_error code =
      if not (==ℤ code (pos 0))
      then err (union_error_for_code panic_message "PanicError" code)
      else ok tt

  -- The handle lets a call in.
  abbrev pub lets_in : Owned → Bool
  lets_in v = not v.closed && (not (is_nil v.ptr) && is_nil v.poison)

  -- `SetChild` with a value and a child that have room for a call each: nothing is released, and both handles
  -- are as they were, whichever refuses and whatever the native side answers, with one exception: when
  -- both let the call in and it ended in a Zig panic, both are poisoned by it.
  pub set_child-both :
      (native : Pointer → Pointer → ℤ) (v child : Owned)
      → v.active + 1 < word
      → child.active + 1 < word
      → let r = set_child native v child in
        let code = native v.ptr child.ptr in
        let cause : NativePanicError = record {
          operation = "Value.SetChild";
          message = panic_message code;
        } in
        (r.0 ≡ (
          if lets_in v && lets_in child && is_panic_code code
          then (poison cause v, poison cause child)
          else (v, child)))
        × (r.2 ≡ [])
  unfolding set_child with_child child_set released_both acquire release take_locked poison
      union_error_for_code poison_after_panic
  set_child-both native v child room_v room_child = ground arith
