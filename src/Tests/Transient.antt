-- ===== src/Tests/Transient.antt =====
-- A call whose context ends while native code runs.
use zigo.Prelude.{
  ℕ, Bool, ◌+◌, ◌<◌, ◌≡◌, refl, true, false, none, some, List, [], ◌∷◌, String, word, arith,
}
use zigo.Prelude.Int.{ℤ, pos}
use zigo.Errors.{sentinel, other, panic_value}
use zigo.Methods.{fails}
use zigo.Handle.Common.{Pointer}
use zigo.Handle.Lifecycle.Instances.{terminal, terminal_laws}
use zigo.Handle.Terminal as Terminals
use zigo.Handle.Terminal.{Terminal}
use zigo.Transient.Contexts as Contexts
use zigo.Transient.Contexts.{CallbackContext, new_borrowed}
use zigo.Transient.Running.{Inspected, inspect}
use zigo.Transient.Running.Restoring.{Left, inspect-Left}
use zigo.Transient.Trampolines as Trampolines
use zigo.Transient.Trampolines.{
  Crossing, gave, failed, panicked, Process, crossings, take_callback_panic, take_callback_error,
  crossings_lem,
}
use zigo.Transient.{Calls, Ran, Context, apply_until_cancelled}
use zigo.Transient.Restoring.{Same, apply_until_cancelled-Same, apply_until_cancelled-ending}

message : ℤ → String
message code = "panic"

abbrev idle : Calls
idle = record { active = 2; cancels = λ handle. false; watches = 0 }

-- The context is cancelled during the call.
abbrev ctx : Context
ctx = record { before = none; after = some (sentinel (other 5)) }

-- The native side polls the flag and reports `Canceled`.
abbrev native : Bool → Ran ℕ
native flag = record { result = 0; code = pos 2; pending = 0; panic = none; failure = none }

apply_until_cancelled-Same_example :
    Same 9 idle (apply_until_cancelled message ctx native (some 9) idle).0
apply_until_cancelled-Same_example =
    apply_until_cancelled-Same message ctx native (some 9) 9 idle (omega arith, refl) (omega arith)
      (omega arith)

context_error :
    (apply_until_cancelled message ctx native (some 9) idle).1 ≡ fails (sentinel (other 5))
context_error = apply_until_cancelled-ending message ctx native 9 idle refl refl refl

-- Three runs of a callback: it gives a value, fails, and panics.
abbrev runs : List Crossing
runs =
    gave (pos 3)
    ∷ failed (sentinel (other 1))
    ∷ panicked (panic_value 8)
    ∷ panicked (panic_value 9)
    ∷ []

abbrev process : Process
process = record {
  state = record { panicked = none; failure = none; cancel = some 64 };
  panics = 2;
  memory = λ address. 0;
}

crossings_lem_example :
    let q = crossings runs process in
    let (r, panic) = take_callback_panic q in
    let (s, failure) = take_callback_error r in
    (panic ≡ some (panic_value 8))
    × (failure ≡ some (sentinel (other 1)))
    × Trampolines.IsFresh s
    × (s.panics ≡ 2)
    × (s.memory 64 ≡ 1)
crossings_lem_example = crossings_lem runs process 64 (refl, refl) refl (omega arith)

-- A context that was borrowed from a terminal
abbrev borrowed : CallbackContext
borrowed = new_borrowed (some 5) true

abbrev owner : Terminal
owner = Terminals.new (some 7) none

-- The callback of the context panicked.
abbrev looked : ℕ → Pointer → Inspected
looked handle p = record {
  result = pos 0;
  code = pos 0;
  pending = 1;
  inspector = none;
  panic = some (panic_value 4);
  failure = none;
}

inspect-Left_example :
    Left terminal
      (λ t. 3)
      message
      (some owner)
      idle
      (inspect terminal (λ t. 3) message looked (some owner) (some 9) idle)
unfolding Terminals.new
inspect-Left_example =
    inspect-Left terminal (λ t. 3) message (λ (t : Terminal). t.active + 1 < word) terminal_laws
      looked (some owner) (some 9) idle (omega arith) (omega arith) (omega arith) (λ handle p. refl)
