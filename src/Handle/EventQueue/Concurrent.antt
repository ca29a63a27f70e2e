-- ===== src/Handle/EventQueue/Concurrent.antt =====
-- Goroutines that share one `EventQueue`, as a sequence of critical sections in any order.
-- `calls` counts the calls between their acquire and their release, `reserved` the children that have
-- not dropped their reservation. `pending` is what a goroutine that has left `Unlock` behind still
-- has to call, and `done` what has been called, latest first.
pub mod Draining
pub mod Effects
pub mod Invariant
pub mod Safety
use zigo.Prelude.{
  ℕ, zero, suc, ◌+◌, ◌≤◌, ◌<◌, ◌^◌, ◌≡◌, refl, Bool, true, false, ◌&&◌, Option, none, some, List,
  [], ◌∷◌, ◌++◌, String, if◌then◌else◌, ◌==◌, ltb, arith,
}
use zigo.Errors.{NativePanicError}
use zigo.Handle.Common.{
  is_nil, Result, ok, err, Effect, deinit, delete_callback, report, delete_callback_handles,
  delete_callback_handle, deinit_pointer, report_leak,
}
use zigo.Handle.EventQueue.{
  EventQueue, CleanupState, replace_callback_handle, acquire, acquire_child, drop_child, poison,
  release, close, collect, cleanup,
}

pub record World : Type 0 where
  pub handle : EventQueue
  pub calls : ℕ
  pub reserved : ℕ
  pub reachable : Bool
  pub pending : List Effect
  pub done : List Effect

pub data Action : Type 0 where
  -- a goroutine begins a call, and one that makes a child
  enter : String → Action
  enter_child : String → Action
  -- a call returns
  leave : Action
  -- a call ended in a Zig panic
  panics : NativePanicError → Action
  -- a call puts a callback in a slot
  replace : ℕ → ℕ → Action
  -- a child that was made, or could not be made, gives its reservation back
  drop : Action
  closes : Action
  -- the next call after an `Unlock`
  call_out : Action
  -- the collector finds the handle unreachable
  collects : Action

abbrev pub start : EventQueue → World
start e = record { handle = e; calls = 0; reserved = 0; reachable = true; pending = []; done = [] }

-- More goroutines than this do not fit in memory; below it `active` and `children` do not wrap.
abbrev pub limit : ℕ
limit = 2 ^ 63

entered : World → EventQueue × Result (Option ℕ) → ℕ → World
entered w (e, ok p) extra = record w {
  handle = e;
  calls = suc w.calls;
  reserved = w.reserved + extra;
}
entered w (e, err x) extra = record w { handle = e }

left : World → ℕ → World
left w zero = w
left w (suc n) =
    let (e, effects) = release w.handle in
    record w { handle = e; calls = n; pending = w.pending ++ effects }

dropped : World → ℕ → World
dropped w zero = w
dropped w (suc n) = record w { handle = drop_child w.handle; reserved = n }

called_out : World → List Effect → World
called_out w [] = w
called_out w (x ∷ rest) = record w { pending = rest; done = x ∷ w.done }

collected : World → EventQueue × List Effect → World
collected w (e, effects) = record w {
  handle = e;
  reachable = false;
  pending = w.pending ++ effects;
}

-- One critical section, by some goroutine that is where it can make it; an action that nobody can
-- take changes nothing. An unreachable handle is called by nobody.
dispatch : Action → World → World
unfolding entered left dropped called_out collected
dispatch (enter op) w = if ltb (suc w.calls) limit then entered w (acquire op w.handle) 0 else w
dispatch (enter_child op) w =
    if ltb (suc w.calls) limit && ltb (suc w.reserved) limit
    then entered w (acquire_child op w.handle) 1
    else w
dispatch leave w = left w w.calls
dispatch (panics cause) w = if ltb 0 w.calls then record w { handle = poison cause w.handle } else w
dispatch (replace slot h) w =
    if ltb 0 w.calls then record w { handle = (replace_callback_handle w.handle slot h).0 } else w
dispatch drop w = dropped w w.reserved
dispatch closes w =
    let (e, _, effects) = close w.handle in record w { handle = e; pending = w.pending ++ effects }
dispatch call_out w = called_out w w.pending
dispatch collects w =
    if (w.calls == 0) && (w.reserved == 0) then collected w (collect w.handle) else w

unfoldable pub step : World → Action → World
unfolding dispatch
step w call_out = dispatch call_out w
step w a = if w.reachable then dispatch a w else w

unfoldable pub run : World → List Action → World
run w [] = w
run w (a ∷ rest) = run (step w a) rest

abbrev pub deinits : List Effect → ℕ
deinits [] = 0
deinits (deinit p ∷ rest) = suc (deinits rest)
deinits (_ ∷ rest) = deinits rest

-- How often the native object has been released, or is about to be.
abbrev pub freed : World → ℕ
freed w = deinits w.pending + deinits w.done
