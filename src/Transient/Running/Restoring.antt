-- ===== src/Transient/Running/Restoring.antt =====
-- What a call on a context leaves of it.
use zigo.Prelude.{
  ℕ, ◌<◌, ◌≡◌, ◌∙◌, refl, ap, false, Option, none, some, List, [], String, word, if_cases, arith,
}
use zigo.Prelude.Int.{ℤ, pos, ==ℤ}
use zigo.Errors.{
  GoError, NativePanicError, PanicValue, callback_error, callback_panic_error, sentinel,
  nil_callback,
}
use zigo.Errors.Classify.{is_panic_code, poison_after_panic}
use zigo.Handle.Common.{Pointer, Result, ok, err, Effect}
use zigo.Handle.Lifecycle.{Lifecycle, Undoable, Laws}
use zigo.Methods.{Outcome, returns, fails, panics}
use zigo.Transient.{Calls, new_handle, delete_handle, error_for_code}
use zigo.Transient.Running.{
  Inspected, inspected, with_inspector, inspect, optional_context, release_context, poison_context,
  ended,
}

-- A code above -256 poisons nothing.
error_for_code-calm :
    {H : Type 0} (message : ℤ → String) (poison : NativePanicError → H → H) (operation : String)
    (code : ℤ) (h : H)
    → is_panic_code code ≡ false
    → poison_after_panic poison (error_for_code message operation code) h ≡ h
unfolding error_for_code poison_after_panic
error_for_code-calm message poison operation code h calm = ground arith

deleted :
    (handle : ℕ) (s : Calls)
    → 0 < handle
    → s.active < word
    → delete_handle handle (new_handle s) ≡ s
unfolding delete_handle
deleted handle s issued small = ground arith

-- The callback handle that a caller's inspector gets is not 0.
abbrev pub IsIssued : Option ℕ → Type 0
IsIssued none = Unit {0}
IsIssued (some handle) = 0 < handle

-- A context that is there has room for a call.
abbrev pub IfThere : {C : Type 0} → (C → Type 0) → Option C → Type 0
IfThere HasRoom none = Unit {0}
IfThere HasRoom (some c) = HasRoom c

module _ {C : Type 0} (l : Lifecycle C) (slot : C → ℕ) (message : ℤ → String) where
  -- The context and the count of callback handles are as they were, and nothing was called out.
  abbrev pub Left : Option C → Calls → Option C × Calls × Outcome ℤ × List Effect → Type 0
  Left ctx s r = (r.0 ≡ ctx) × (r.1 ≡ s) × (r.3 ≡ [])

  ended-Left :
      (ctx c : Option C) (s : Calls) (outcome : Outcome ℤ)
      → release_context l slot message c ≡ (ctx, [])
      → Left ctx s (ended l slot message outcome c s)
  ended-Left ctx c s outcome back = (ap (λ r. r.0) back, refl, ap (λ r. r.1) back)

  poison_context-calm :
      (code : ℤ) (c : Option C)
      → is_panic_code code ≡ false
      → poison_context l slot message (error_for_code message "Inspect" code) c ≡ c
  poison_context-calm code none calm = refl
  poison_context-calm code (some c) calm =
      ap (λ c. some c) (error_for_code-calm message l.poison "Inspect" code c calm)

  inspected-Left :
      (native : Inspected) (ctx c : Option C) (s : Calls) (p q : Option PanicValue)
      (failure : Option GoError)
      → is_panic_code native.code ≡ false
      → release_context l slot message c ≡ (ctx, [])
      → Left ctx s (inspected l slot message native c s p q failure)
  unfolding inspected
  inspected-Left native ctx c s (some v) q failure calm back =
      ended-Left ctx c s (panics (callback_panic_error "Inspect" v)) back
  inspected-Left native ctx c s none (some v) failure calm back =
      ended-Left ctx c s (panics (callback_panic_error "Inspect" v)) back
  inspected-Left native ctx c s none none (some e) calm back =
      ended-Left ctx c s (fails (callback_error "Inspect" "callback" e)) back
  inspected-Left native ctx c s none none none calm back =
      if_cases (Left ctx s) (==ℤ native.code (pos 0))
        (λ is_zero. ended-Left ctx c s (returns native.result) back)
        (λ is_other.
          ended-Left ctx
            (poison_context l slot message (error_for_code message "Inspect" native.code) c) s
            (fails (error_for_code message "Inspect" native.code))
            (ap (release_context l slot message) (poison_context-calm native.code c calm) ∙ back))

  with_inspector-Left :
      (native : ℕ → Pointer → Inspected) (inspector : Option ℕ) (ptr : Pointer) (ctx c : Option C)
      (s : Calls)
      → IsIssued inspector
      → s.active < word
      → ((handle : ℕ) (p : Pointer) → is_panic_code (native handle p).code ≡ false)
      → release_context l slot message c ≡ (ctx, [])
      → Left ctx s (with_inspector l slot message native inspector ptr c s)
  unfolding with_inspector
  with_inspector-Left native none ptr ctx c s issued small calm back =
      ended-Left ctx c s (fails (callback_error "Inspect" "inspector" (sentinel nil_callback))) back
  with_inspector-Left native (some handle) ptr ctx c s issued small calm back =
      rw (deleted handle s issued small)
        (inspected-Left (native handle ptr) ctx c s _ _ _ (calm handle ptr) back)

  acquired-Left :
      (native : ℕ → Pointer → Inspected) (inspector : Option ℕ) (h : C) (s : Calls)
      (answer : C × Result Pointer × List Effect)
      → IsIssued inspector
      → s.active < word
      → ((handle : ℕ) (p : Pointer) → is_panic_code (native handle p).code ≡ false)
      → Undoable l h answer
      → Left (some h) s (elim answer.1 as (λ x. Option C × Calls × Outcome ℤ × List Effect) [
        | err e ↦ (some answer.0, s, fails e, answer.2)
        | ok ptr ↦ with_inspector l slot message native inspector ptr (some answer.0) s
      ])
  unfolding release_context
  acquired-Left native inspector h s (c, err e, effects) issued small calm undo =
      (ap (λ c. some c) undo.0, refl, undo.1)
  acquired-Left native inspector h s (c, ok ptr, effects) issued small calm undo =
      with_inspector-Left native inspector ptr (some h) (some c) s issued small calm
        (ap (λ (r : C × List Effect). (some r.0, r.1)) undo.0)

  -- `Inspect` leaves the context that it is given as it was, releases nothing and leaves no callback handle behind,
  -- whichever way it ends: the context refuses the call, no inspector is given, the inspector or the
  -- context's callback panicked, the callback failed, the native side reports an error, or success; and
  -- the same without a context. The native call does not end in a Zig panic, the context has room for one
  -- more call, and the count of callback handles is below 2 ^ 64.
  pub inspect-Left :
      (HasRoom : C → Type 0) (laws : Laws l HasRoom) (native : ℕ → Pointer → Inspected)
      (ctx : Option C) (inspector : Option ℕ) (s : Calls)
      → IfThere HasRoom ctx
      → IsIssued inspector
      → s.active < word
      → ((handle : ℕ) (p : Pointer) → is_panic_code (native handle p).code ≡ false)
      → Left ctx s (inspect l slot message native ctx inspector s)
  unfolding inspect optional_context release_context
  inspect-Left HasRoom laws native none inspector s room issued small calm =
      with_inspector-Left native inspector none none none s issued small calm refl
  inspect-Left HasRoom laws native (some h) inspector s room issued small calm =
      acquired-Left native inspector h s (l.acquire "Inspect parameter context" h) issued small calm
        (laws.undoable "Inspect parameter context" h room)
