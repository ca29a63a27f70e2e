-- ===== src/Handle/EventQueue/Concurrent/Safety.antt =====
-- What the interleavings of an `EventQueue`'s critical sections guarantee.
use zigo.Prelude.{ℕ, ◌≤◌, ◌<◌, ◌≡◌, ◌⊎◌, true, Option, some, List, String, arith}
use zigo.Handle.Common.{is_nil}
use zigo.Handle.EventQueue.{new}
use zigo.Handle.EventQueue.Concurrent.{World, Action, start, run, freed}
use zigo.Handle.EventQueue.Concurrent.Invariant.{Inv, owed, run-start-Inv}

abbrev pub after : ℕ → List ℕ → Option String → List Action → World
after p hs site schedule = run (start (new (some p) hs site)) schedule

Inv-in_use : (w : World) → Inv w → (0 < w.calls) ⊎ (0 < w.reserved) → freed w ≡ 0
Inv-in_use w v h = ground arith

Inv-freed : (w : World) → Inv w → freed w ≤ 1
Inv-freed w v = ground arith

-- In every interleaving, as long as a call is inside native code or a child holds its reservation,
-- the native object has not been released, nor is its release on the way.
pub no_release_in_use :
    (p : ℕ) (hs : List ℕ) (site : Option String) (schedule : List Action)
    → (0 < (after p hs site schedule).calls) ⊎ (0 < (after p hs site schedule).reserved)
    → freed (after p hs site schedule) ≡ 0
no_release_in_use p hs site schedule = Inv-in_use _ (run-start-Inv p hs site schedule)

-- In every interleaving the native object is released once at most, by `Close`, by the last call to
-- return, or by the garbage collector.
pub released_at_most_once :
    (p : ℕ) (hs : List ℕ) (site : Option String) (schedule : List Action)
    → freed (after p hs site schedule) ≤ 1
released_at_most_once p hs site schedule = Inv-freed _ (run-start-Inv p hs site schedule)

-- Once the handle is closed, still reachable, and no call is left inside, its pointer is nil and
-- its native object has been released exactly once (or is about to be), unless a Zig panic
-- poisoned the handle: then never.
pub closed_releases :
    (p : ℕ) (hs : List ℕ) (site : Option String) (schedule : List Action)
    → (after p hs site schedule).reachable ≡ true
    → (after p hs site schedule).handle.closed ≡ true
    → (after p hs site schedule).calls ≡ 0
    → let w = after p hs site schedule in
      (is_nil w.handle.ptr ≡ true) × (freed w ≡ owed w.handle.poison)
closed_releases p hs site schedule = (run-start-Inv p hs site schedule).released
