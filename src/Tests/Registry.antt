-- ===== src/Tests/Registry.antt =====
-- Handles of registered types that are poisoned together.
use zigo.Prelude.{ℕ, List, none, some, [], ◌∷◌, arith}
use zigo.Errors.{NativePanicError, native_panic_error}
use zigo.Handle.BorrowBox as Box
use zigo.Handle.Common.{ok}
use zigo.Handle.EventQueue as Queue
use zigo.Handle.Stream as Streams
use zigo.Handle.Terminal as Terminals
use zigo.Registry.{Handle, Methods, poison_after_panic}
use zigo.Registry.Dispatch.{All, Comes}
use zigo.Registry.Instances.{Handles, registry, IsKnown, IsPoisoned, poison_after_panic-registered}

-- Methods that do nothing
abbrev idle : ℕ → Methods Handles
idle key = record {
  acquire = λ address operation w. (w, ok (some address));
  release = λ address w. w;
  poison = λ address cause w. w;
  acquire_child = none;
  drop_child = λ address w. w;
}

abbrev world : Handles
world = record {
  queues = λ i. Queue.new (some i) [] none;
  streams = λ i. Streams.new (some i) none;
  parents = λ i. 10;
  boxes = λ i. Box.new (some i) none;
  terminals = λ i. Terminals.new (some i) none;
}

abbrev cause : NativePanicError
cause = record { operation = "EventQueue.MergeFrom"; message = "integer overflow" }

-- A queue, nil, a stream of this queue, a nil pointer to a terminal, and the queue again
abbrev handles : List Handle
handles =
    some (record { type_of = 1; address = 10 })
    ∷ none
    ∷ some (record { type_of = 2; address = 20 })
    ∷ some (record { type_of = 4; address = 0 })
    ∷ some (record { type_of = 1; address = 10 })
    ∷ []

handles-IsKnown : All IsKnown handles
handles-IsKnown = (
  (omega arith, omega arith),
  ((omega arith, omega arith), ((omega arith, omega arith), ((omega arith, omega arith), tt))),
)

poison_after_panic-registered_example :
    Comes
      (λ w'. All (λ h. IsPoisoned h w') handles)
      (poison_after_panic (registry idle) (native_panic_error cause) handles world)
poison_after_panic-registered_example =
    poison_after_panic-registered idle cause handles world handles-IsKnown
