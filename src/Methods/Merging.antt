-- ===== src/Methods/Merging.antt =====
-- `MergeFrom` (event_queue_gen.go, lines 132-158), which takes a second queue or nil. The two may be
-- one and the same handle, so the queues live in a store under their numbers.
-- A nil source is a typed nil in a `Handle`, which the lifecycle package dispatches to methods that
-- do nothing with it.
pub mod Balance
use zigo.Prelude.{
  ℕ, Bool, true, false, Option, none, some, List, [], ◌∷◌, ◌++◌, String, if◌then◌else◌, ◌==◌,
}
use zigo.Prelude.Int.{ℤ, pos, ==ℤ}
use zigo.Errors.{GoError, PanicValue}
use zigo.Errors.Classify.{error_for_code, poison_after_panic}
use zigo.Handle.Common.{Pointer, Result, ok, err}
use zigo.Handle.EventQueue as Queue
use zigo.Handle.EventQueue.{EventQueue}
use zigo.Callbacks.{update}
use zigo.Methods.{Native, Outcome, returns, fails, panics, slots, Runtime, sweep}

pub record Store : Type 0 where
  pub queues : ℕ → EventQueue
  pub active : ℕ  -- atomic.Int64
  pub recorded : ℕ → Option PanicValue

abbrev pub put : Store → ℕ → EventQueue → Store
put s i e = record s { queues = update s.queues i e }

-- `e.zigoAcquire`
unfoldable pub acquire_at : String → ℕ → Store → Store × Result Pointer
acquire_at operation i s =
    let (e, acquired) = Queue.acquire operation (s.queues i) in (put s i e, acquired)

-- `e.zigoRelease`
unfoldable pub release_at : ℕ → Store → Store
release_at i s = put s i (Queue.release (s.queues i)).0

-- `zigoOptionalPointer`, and the release and the poisoning of a source that may be nil
unfoldable pub acquire_optional : String → Option ℕ → Store → Store × Result Pointer
acquire_optional operation none s = (s, ok none)
acquire_optional operation (some j) s = acquire_at operation j s

unfoldable pub release_optional : Option ℕ → Store → Store
release_optional none s = s
release_optional (some j) s = release_at j s

unfoldable pub poison_at : GoError → ℕ → Store → Store
poison_at e i s = put s i (poison_after_panic Queue.poison e (s.queues i))

unfoldable pub poison_optional : GoError → Option ℕ → Store → Store
poison_optional e none s = s
poison_optional e (some j) s = poison_at e j s

abbrev slots_optional : Option ℕ → Store → List ℕ
slots_optional none s = []
slots_optional (some j) s = slots (s.queues j)

-- `sweep` over the store
unfoldable pub sweep_all : Native → List ℕ → Store → Store × Option GoError
sweep_all native handles s =
    let (r, e) =
      sweep "EventQueue.MergeFrom" native handles
        (record { queue = s.queues 0; active = s.active; recorded = s.recorded }) in
    (record s { recorded = r.recorded }, e)

-- The deferred calls, the last first
unfoldable pub let_go : ℕ → Option ℕ → Store → Store
let_go i source s = release_at i (release_optional source s)

module _ (panic_message : ℤ → String) where
  unfoldable pub merged : ℕ → Option ℕ → Native → ℕ → Store × Option GoError → Store × Outcome ℕ
  merged i source native result (s, some e) = (let_go i source s, panics e)
  merged i source native result (s, none) =
      let e = error_for_code panic_message "EventQueue.MergeFrom" native.code in
      if ==ℤ native.code (pos 0)
      then (let_go i source s, returns result)
      else (let_go i source (poison_optional e source (poison_at e i s)), fails e)

  unfoldable pub merge_with : ℕ → Option ℕ → Native → ℕ → Store × Result Pointer → Store × Outcome ℕ
  merge_with i source native result (s, err e) = (release_at i s, fails e)
  merge_with i source native result (s, ok p) =
      merged i source native result
        (sweep_all native (slots (s.queues i) ++ slots_optional source s) s)

  -- `MergeFrom` of the queue `i`, with what the native call returned
  unfoldable pub merge_from : ℕ → Option ℕ → Native → ℕ → Store → Store × Outcome ℕ
  merge_from i source native result s =
      let (entered, acquired) = acquire_at "EventQueue.MergeFrom receiver" i s in
      elim acquired [
        | err e ↦ (s, fails e)
        | ok p ↦
            merge_with i source native result
              (acquire_optional "EventQueue.MergeFrom parameter source" source entered)
      ]
