-- ===== src/Tests/Methods.antt =====
-- The methods of `EventQueue` that make one native call, `MergeFrom`, `Clone` and `NewTerminal`.
use zigo.Prelude.{
  ◌==◌, ℕ, ◌+◌, ◌≡◌, refl, Option, none, some, List, [], ◌∷◌, String, if◌then◌else◌, arith,
}
use zigo.Prelude.Int.{ℤ, pos, negsuc}
use zigo.Errors.{callback_panic_error, panic_value}
use zigo.Handle.Common.{Pointer}
use zigo.Handle.EventQueue as Queue
use zigo.Handle.EventQueue.{EventQueue}
use zigo.Methods.{Runtime, Native, panics, call}
use zigo.Methods.Calls.{call-queue}
use zigo.Methods.Merging.{Store, merge_from}
use zigo.Methods.Merging.Balance.{merge_from-active}
use zigo.Methods.Plain.{Raw}
use zigo.Methods.Terminals.{Choice, rows, blink_interval_ms, last_choice, rows_of}

message : ℤ → String
message code = "panic"

abbrev runtime : Runtime
runtime = record {
  queue = Queue.new (some 7) (11 ∷ 0 ∷ 12 ∷ []) none;
  active = 2;
  recorded = λ handle. none;
}

-- A call that ended in a Zig panic
abbrev panicked : Native
panicked = record { pointer = none; code = negsuc 255; recorded = λ handle. none; pending = 0 }

-- A call during which the callback behind the third slot panicked
abbrev third_panicked : Native
third_panicked = record {
  pointer = none;
  code = negsuc 255;
  recorded = λ handle. if handle == 12 then some (panic_value 9) else none;
  pending = 1;
}

call-queue_example :
    let (s', outcome) = call message {A = ℕ} "EventQueue.Len" third_panicked 0 runtime in
    (s'.queue.active ≡ runtime.queue.active)
    × (s'.queue.ptr ≡ runtime.queue.ptr)
    × (s'.queue.callback_handles ≡ runtime.queue.callback_handles)
    × (s'.active ≡ runtime.active)
    × (s'.queue.poison ≡ none)
    × (outcome ≡ panics (callback_panic_error "EventQueue.Len" (panic_value 9)))
unfolding Queue.new
call-queue_example =
    call-queue {A = ℕ} message "EventQueue.Len" third_panicked 0 11 0 12 runtime
      (refl, refl, refl, omega arith, omega arith) refl

abbrev two_queues : Store
two_queues = record {
  queues = λ i. Queue.new (some i) (11 ∷ 0 ∷ 0 ∷ []) none;
  active = 2;
  recorded = λ handle. none;
}

-- A queue that is merged into itself, in a call that ends in a Zig panic
merge_from-active_example :
    ((merge_from message 1 (some 1) panicked 0 two_queues).0.queues 1).active
    ≡ (two_queues.queues 1).active
unfolding Queue.new
merge_from-active_example =
    merge_from-active message 1 (some 1) panicked 0 1 two_queues refl (omega arith)

abbrev copied : Native
copied = record { pointer = some 21; code = pos 0; recorded = λ handle. none; pending = 0 }

-- A terminal whose address tells how it was made
abbrev make : ℕ → ℕ → ℕ → Option ℕ → Raw Pointer
make cols n bytes none = (some (cols + n), pos 0)
make cols n bytes (some interval) = (none, pos 8)

abbrev choices : List Choice
choices = rows 30 ∷ blink_interval_ms none ∷ rows 40 ∷ []

last_wins : last_choice rows_of 24 choices ≡ 40
last_wins = refl
