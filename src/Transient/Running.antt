-- ===== src/Transient/Running.antt =====
-- The methods of `CallbackContext`, its constructor, and `Inspect`
-- (examples/04-callback/go/callback_gen.go, lines 22-119 and 350-383).
-- A context, with its owner, is behind the interface of Handle.Lifecycle, and `slot` is its
-- `zigoCallbackHandle(0)`. The native side is a parameter: what it returned, with what it left behind the
-- callback handles.
pub mod Restoring
use zigo.Prelude.{
  ℕ, Bool, true, false, not, Option, none, some, List, [], ◌∷◌, String, ◌<>◌, if◌then◌else◌, ◌==◌,
}
use zigo.Prelude.Int.{ℤ, pos, ==ℤ}
use zigo.Errors.{GoError, PanicValue, callback_error, callback_panic_error, sentinel, nil_callback}
use zigo.Errors.Classify.{poison_after_panic}
use zigo.Handle.Common.{Pointer, Result, ok, err, Effect}
use zigo.Handle.Lifecycle.{Lifecycle}
use zigo.Methods.{Outcome, returns, fails, panics}
use zigo.Transient.{Ran, raised, Calls, new_handle, delete_handle, error_for_code}
use zigo.Transient.Contexts as Contexts
use zigo.Transient.Contexts.{CallbackContext}

-- `zigoRethrowCallbackPanic` and `zigoCallbackError` find nothing behind the handle 0.
abbrev pub behind : {A : Type 0} → ℕ → Option A → Option A
behind handle found = if handle == 0 then none else found

-- `NewCallbackContext`, of a callback with the handle that `cgo.NewHandle` gives out
unfoldable pub created :
    (ℤ → String)
    → ℕ
    → Option String
    → Ran Pointer
    → Calls
    → Option PanicValue
    → Option GoError
    → Calls × Outcome CallbackContext
created message handle site ran s (some value) failure =
    (s, panics (callback_panic_error "NewCallbackContext" value))
created message handle site ran s none (some e) =
    (delete_handle handle s, fails (callback_error "NewCallbackContext" "callback" e))
created message handle site ran s none none =
    if ==ℤ ran.code (pos 0)
    then (s, returns (Contexts.new ran.result (handle ∷ []) site))
    else (delete_handle handle s, fails (error_for_code message "NewCallbackContext" ran.code))

unfoldable pub new_callback_context :
    (ℤ → String)
    → Option String
    → (ℕ → Ran Pointer)
    → Option ℕ
    → Calls
    → Calls × Outcome CallbackContext
unfolding created
new_callback_context message site native none s =
    (s, fails (callback_error "NewCallbackContext" "callback" (sentinel nil_callback)))
new_callback_context message site native (some handle) s =
    let ran = native handle in
    created message handle site ran (new_handle s) (behind handle (raised ran))
      (behind handle ran.failure)

-- What a call of `Inspect` returned: the inspector's panic, and what is behind the context's slot
pub record Inspected : Type 0 where
  pub result : ℤ
  pub code : ℤ
  pub pending : ℕ
  pub inspector : Option PanicValue
  pub panic : Option PanicValue
  pub failure : Option GoError

module _ {C : Type 0} (l : Lifecycle C) (slot : C → ℕ) (panic_message : ℤ → String) where
  -- The deferred release, last
  abbrev let_go : {A : Type 0} → Outcome A → C → C × Outcome A × List Effect
  let_go outcome c = let (c', effects) = l.release c in (c', outcome, effects)

  -- What follows the native call: a panic of the callback, its error, then the code
  unfoldable pub ran_through :
      {A : Type 0}
      → String
      → Ran A
      → C
      → Option PanicValue
      → Option GoError
      → C × Outcome A × List Effect
  ran_through operation ran c (some value) failure =
      let_go (panics (callback_panic_error operation value)) c
  ran_through operation ran c none (some e) =
      let_go (fails (callback_error operation "callback" e)) c
  ran_through operation ran c none none =
      let e = error_for_code panic_message operation ran.code in
      if ==ℤ ran.code (pos 0)
      then let_go (returns ran.result) c
      else let_go (fails e) (poison_after_panic l.poison e c)

  -- The body that the methods share
  unfoldable pub context_call :
      {A : Type 0} → String → (Pointer → Ran A) → C → C × Outcome A × List Effect
  unfolding ran_through
  context_call operation native receiver =
      let (c, acquired, effects) = l.acquire (operation <> " receiver") receiver in
      elim acquired [
        | err e ↦ (c, fails e, effects)
        | ok ptr ↦
            let ran = native ptr in
            ran_through operation ran c (behind (slot c) (raised ran)) (behind (slot c) ran.failure)
      ]

  -- `CallbackContext.Run`
  unfoldable pub run : (ℤ → Pointer → Ran ℤ) → ℤ → C → C × Outcome ℤ × List Effect
  run native value = context_call "CallbackContext.Run" (native value)

  -- `CallbackContext.RunCount`
  unfoldable pub run_count : (Pointer → Ran ℕ) → C → C × Outcome ℕ × List Effect
  run_count native = context_call "CallbackContext.RunCount" native

  -- `CallbackContext.SetRunCount`
  unfoldable pub set_run_count :
      (ℕ → Pointer → Ran (Unit {0})) → ℕ → C → C × Outcome (Unit {0}) × List Effect
  set_run_count native v = context_call "CallbackContext.SetRunCount" (native v)

  -- `zigoOptionalPointer` of the context; `none` is nil.
  unfoldable pub optional_context : Option C → Option C × Result Pointer × List Effect
  optional_context none = (none, ok none, [])
  optional_context (some receiver) =
      let (c, acquired, effects) = l.acquire "Inspect parameter context" receiver in
      (some c, acquired, effects)

  -- The deferred `zigoRelease`, of a context that may be nil
  unfoldable pub release_context : Option C → Option C × List Effect
  release_context none = (none, [])
  release_context (some c) = let (c', effects) = l.release c in (some c', effects)

  abbrev poison_context : GoError → Option C → Option C
  poison_context e none = none
  poison_context e (some c) = some (poison_after_panic l.poison e c)

  abbrev slot_of : Option C → ℕ
  slot_of none = 0
  slot_of (some c) = slot c

  -- How `Inspect` ends: the context, the handles, the outcome, and what was called out
  abbrev Inspecting : Type 0
  Inspecting = Option C × Calls × Outcome ℤ × List Effect

  abbrev ended : Outcome ℤ → Option C → Calls → Inspecting
  ended outcome c s = let (c', effects) = release_context c in (c', s, outcome, effects)

  -- The inspector's panic, the panic of the context's callback, its error, then the code
  unfoldable pub inspected :
      Inspected
      → Option C
      → Calls
      → Option PanicValue
      → Option PanicValue
      → Option GoError
      → Inspecting
  unfolding release_context
  inspected native c s (some value) panic failure =
      ended (panics (callback_panic_error "Inspect" value)) c s
  inspected native c s none (some value) failure =
      ended (panics (callback_panic_error "Inspect" value)) c s
  inspected native c s none none (some e) =
      ended (fails (callback_error "Inspect" "callback" e)) c s
  inspected native c s none none none =
      let e = error_for_code panic_message "Inspect" native.code in
      if ==ℤ native.code (pos 0)
      then ended (returns native.result) c s
      else ended (fails e) (poison_context e c) s

  -- The context was acquired: the inspector is looked at, and lent to the native call.
  unfoldable pub with_inspector :
      (ℕ → Pointer → Inspected) → Option ℕ → Pointer → Option C → Calls → Inspecting
  unfolding inspected
  with_inspector native none ptr c s =
      ended (fails (callback_error "Inspect" "inspector" (sentinel nil_callback))) c s
  with_inspector native (some handle) ptr c s =
      let ran = native handle ptr in
      let found = λ (v : Option PanicValue). if ran.pending == 0 then none else v in
      inspected ran c (delete_handle handle (new_handle s)) (behind handle (found ran.inspector))
        (behind (slot_of c) (found ran.panic)) (behind (slot_of c) ran.failure)

  -- `Inspect`; `none` is a nil context, or a nil inspector.
  unfoldable pub inspect : (ℕ → Pointer → Inspected) → Option C → Option ℕ → Calls → Inspecting
  unfolding with_inspector optional_context
  inspect native ctx inspector s =
      let (c, acquired, effects) = optional_context ctx in
      elim acquired [
        | err e ↦ (c, s, fails e, effects)
        | ok ptr ↦ with_inspector native inspector ptr c s
      ]
