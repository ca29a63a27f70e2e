-- ===== src/Methods.antt =====
-- The generated methods that own callback handles and children
-- (examples/07-event-queue/go/event_queue/event_queue_gen.go, lines 26-40, 82-105, 111-127 and
-- 187-219, with event_queue_runtime_gen.go, lines 65-101).
-- Each method runs with no other goroutine at the handle. A native call is a parameter: `Native` has
-- what it returned and what the callbacks that it ran left in their states. A new callback handle, which
-- `cgo.NewHandle` gives out, is an argument.
pub mod Calls
pub mod Cloning
pub mod Constructors
pub mod Queries
pub mod Merging
pub mod Observers
pub mod Panics
pub mod Plain
pub mod Terminals
use zigo.Prelude.{
  ℕ, zero, suc, ◌+◌, ◌-◌, Bool, true, false, not, Option, none, some, List, [], ◌∷◌, String, ◌<>◌,
  if◌then◌else◌, ◌==◌, inc, dec,
}
use zigo.Prelude.Int.{ℤ, pos, ==ℤ}
use zigo.Errors.{GoError, PanicValue, callback_error, callback_panic_error, sentinel, nil_callback}
use zigo.Errors.Classify.{error_for_code, poison_after_panic}
use zigo.Handle.Common.{Pointer, Result, ok, err, Effect}
use zigo.Handle.EventQueue as Queue
use zigo.Handle.EventQueue.{EventQueue}

-- `active` is `zigoActiveCallbackHandles`; `recorded` has the panic that the state behind a callback
-- handle has recorded.
pub record Runtime : Type 0 where
  pub queue : EventQueue
  pub active : ℕ  -- atomic.Int64
  pub recorded : ℕ → Option PanicValue

-- `pending` is `raw.PendingCallbackPanics()` after the call.
pub record Native : Type 0 where
  pub pointer : Pointer
  pub code : ℤ
  pub recorded : ℕ → Option PanicValue
  pub pending : ℕ

-- How a method ends: with a value, an error or a Go panic
pub data Outcome {ℓ} (A : Type ℓ) : Type ℓ where
  returns : A → Outcome A
  fails : GoError → Outcome A
  panics : GoError → Outcome A

-- `zigoDeleteCallbackHandle`
unfoldable pub delete_handle : ℕ → Runtime → Runtime
delete_handle handle s = if handle == 0 then s else record s { active = dec s.active }

-- `zigoNewObserverHandle`
abbrev pub new_handle : Runtime → Runtime
new_handle s = record s { active = inc s.active }

abbrev cleared : (ℕ → Option PanicValue) → ℕ → ℕ → Option PanicValue
cleared f handle j = if handle == j then none else f j

-- The chain of `zigoRethrowCallbackPanic` over some handles: the first recorded panic is taken.
abbrev rethrow_one :
    String → ℕ → Runtime → Option PanicValue → Runtime × Option GoError → Runtime × Option GoError
rethrow_one operation handle s (some value) rest =
    (record s { recorded = cleared s.recorded handle }, some (callback_panic_error operation value))
rethrow_one operation handle s none rest = rest

unfoldable pub rethrow : String → List ℕ → Runtime → Runtime × Option GoError
rethrow operation [] s = (s, none)
rethrow operation (handle ∷ handles) s =
    let rest = rethrow operation handles s in
    if handle == 0 then rest else rethrow_one operation handle s (s.recorded handle) rest

-- `if zigoCallbackPanicPending() { … }` after a native call, over the handles that it names
unfoldable pub sweep : String → Native → List ℕ → Runtime → Runtime × Option GoError
sweep operation native handles s =
    if native.pending == 0
    then (record s { recorded = native.recorded }, none)
    else rethrow operation handles (record s { recorded = native.recorded })

abbrev pub slots : EventQueue → List ℕ
slots e = Queue.callback_handle e 0 ∷ Queue.callback_handle e 1 ∷ Queue.callback_handle e 2 ∷ []

-- the deferred `e.zigoRelease()`
unfoldable pub released : Runtime → Runtime
released s = record s { queue = (Queue.release s.queue).0 }

module _ (panic_message : ℤ → String) where
  unfoldable pub failed : String → ℤ → Runtime → Runtime
  failed operation code s = record s {
    queue = poison_after_panic Queue.poison (error_for_code panic_message operation code) s.queue;
  }

  unfoldable pub answered {ℓ} :
      {A : Type ℓ} → String → Native → A → Runtime × Option GoError → Runtime × Outcome A
  answered operation native value (s, some e) = (released s, panics e)
  answered operation native value (s, none) =
      if ==ℤ native.code (pos 0) then (released s, returns value) else (
        released (failed operation native.code s),
        fails (error_for_code panic_message operation native.code),
      )

  -- The text of `Enqueue`, and of every method whose native call gives one value or none: `value` is
  -- what the method makes of it.
  unfoldable pub call {ℓ} : {A : Type ℓ} → String → Native → A → Runtime → Runtime × Outcome A
  call operation native value s =
      let (queue, acquired) = Queue.acquire (operation <> " receiver") s.queue in
      elim acquired [
        | err e ↦ (s, fails e)
        | ok p ↦
            answered operation native value
              (sweep operation native (slots queue) (record s { queue = queue }))
      ]

  -- `Enqueue`
  abbrev pub enqueue : Native → Runtime → Runtime × Outcome (Unit {0})
  enqueue native = call "EventQueue.Enqueue" native tt

  abbrev dropped : Runtime → Runtime
  dropped s = record s { queue = Queue.drop_child s.queue }

  unfoldable pub opened_stream : Native → Runtime × Option GoError → Runtime × Outcome Pointer
  opened_stream native (s, some e) = (dropped (released s), panics e)
  opened_stream native (s, none) =
      if ==ℤ native.code (pos 0) then (released s, returns native.pointer) else (
        dropped (released (failed "EventQueue.NewStream" native.code s)),
        fails (error_for_code panic_message "EventQueue.NewStream" native.code),
      )

  -- `NewStream`, up to the handle that it makes of the pointer
  unfoldable pub new_stream : Native → Runtime → Runtime × Outcome Pointer
  unfolding opened_stream
  new_stream native s =
      let (queue, acquired) = Queue.acquire_child "EventQueue.NewStream receiver" s.queue in
      elim acquired [
        | err e ↦ (s, fails e)
        | ok p ↦
            opened_stream native
              (sweep "EventQueue.NewStream" native (slots queue) (record s { queue = queue }))
      ]

  unfoldable pub observed : ℕ → Native → Runtime × Option GoError → Runtime × Outcome (Unit {0})
  observed handle native (s, some e) = (released (delete_handle handle s), panics e)
  observed handle native (s, none) =
      let (queue, previous) = Queue.replace_callback_handle s.queue 2 handle in
      if ==ℤ native.code (pos 0)
      then (released (delete_handle previous (record s { queue = queue })), returns tt)
      else (
        released (delete_handle handle (failed "EventQueue.SetObserver" native.code s)),
        fails (error_for_code panic_message "EventQueue.SetObserver" native.code),
      )

  -- `SetObserver`; `none` is a nil observer, and `some handle` the handle made for it
  unfoldable pub set_observer : Option ℕ → Native → Runtime → Runtime × Outcome (Unit {0})
  unfolding observed
  set_observer observer native s =
      let (queue, acquired) = Queue.acquire "EventQueue.SetObserver receiver" s.queue in
      let entered : Runtime = record s { queue = queue } in
      elim acquired [
        | err e ↦ (s, fails e)
        | ok p ↦ elim observer [
          | none ↦ (
            released entered,
            fails (callback_error "EventQueue.SetObserver" "observer" (sentinel nil_callback)),
          )
          | some handle ↦
              observed handle native
                (sweep "EventQueue.SetObserver" native (handle ∷ slots queue) (new_handle entered))
        ]
      ]

  unfoldable pub created :
      String → ℕ → Native → Runtime × Option GoError → Runtime × Outcome Pointer
  created operation handle native (s, some e) = (s, panics e)
  created operation handle native (s, none) =
      if ==ℤ native.code (pos 0)
      then (s, returns native.pointer)
      else (delete_handle handle s, fails (error_for_code panic_message operation native.code))

  -- `NewEventQueue`, up to the handle that it makes of the pointer and of the callback handles
  -- `[observer, 0, 0]`; the observer as in `set_observer`. No queue exists yet, and `s.queue` is not used.
  unfoldable pub new_event_queue : Option ℕ → Native → Runtime → Runtime × Outcome Pointer
  unfolding created
  new_event_queue none native s =
      (s, fails (callback_error "NewEventQueue" "observer" (sentinel nil_callback)))
  new_event_queue (some handle) native s =
      created "NewEventQueue" handle native
        (sweep "NewEventQueue" native (handle ∷ []) (new_handle s))

abbrev pub is_success {ℓ} : {A : Type ℓ} → Outcome A → Bool
is_success (returns a) = true
is_success _ = false
