-- ===== src/Handle/EventQueue/Concurrent/Invariant.antt =====
-- What holds of an `EventQueue` between two critical sections, whatever goroutines ran before.
use zigo.Prelude.{
  ℕ, ◌≤◌, ◌<◌, ◌≡◌, true, false, Option, none, some, List, [], ◌∷◌, String, if◌then◌else◌, if_intro,
  arith,
}
use zigo.Errors.{NativePanicError}
use zigo.Handle.Common.{is_nil}
use zigo.Handle.EventQueue.{
  new, replace_callback_handle, acquire, acquire_child, drop_child, poison, release, close, collect,
}
use zigo.Handle.EventQueue.Concurrent.{
  World, Action, enter, enter_child, leave, panics, replace, drop, closes, call_out, collects,
  start, limit, dispatch, step, run, freed,
}
use zigo.Handle.EventQueue.Concurrent.Effects.{deinits-append, deinits-cleanup, deinits-collect}

-- What the object was worth releasing: not once a panic has left it half-changed.
abbrev pub owed : Option NativePanicError → ℕ
owed none = 1
owed (some _) = 0

pub record Inv (w : World) : Type 0 where
  pub calls_small : w.calls < limit
  pub reserved_small : w.reserved < limit
  pub active : w.handle.active ≡ w.calls
  pub children : w.handle.children ≡ w.reserved
  pub live : w.reachable ≡ true → is_nil w.handle.ptr ≡ false → freed w ≡ 0
  pub closed : w.handle.closed ≡ true → w.reserved ≡ 0
  pub stopped : w.handle.closed ≡ true → is_nil w.handle.cleanup ≡ true
  pub poisoned : is_nil w.handle.poison ≡ false → is_nil w.handle.cleanup ≡ true
  pub gone : is_nil w.handle.ptr ≡ true → (w.handle.closed ≡ true) × (w.calls ≡ 0)
  pub released :
      w.reachable ≡ true
      → w.handle.closed ≡ true
      → w.calls ≡ 0
      → (is_nil w.handle.ptr ≡ true) × (freed w ≡ owed w.handle.poison)
  pub collected : w.reachable ≡ false → (w.calls ≡ 0) × (w.reserved ≡ 0) × (freed w ≤ 1)

enter-Inv : (op : String) (w : World) → Inv w → w.reachable ≡ true → Inv (dispatch (enter op) w)
unfolding dispatch acquire
enter-Inv op w v r = ground arith

enter_child-Inv :
    (op : String) (w : World) → Inv w → w.reachable ≡ true → Inv (dispatch (enter_child op) w)
unfolding dispatch acquire_child
enter_child-Inv op w v r = ground arith

panics-Inv :
    (c : NativePanicError) (w : World) → Inv w → w.reachable ≡ true → Inv (dispatch (panics c) w)
unfolding dispatch poison
panics-Inv c w v r = ground arith

replace-Inv :
    (slot h : ℕ) (w : World) → Inv w → w.reachable ≡ true → Inv (dispatch (replace slot h) w)
unfolding dispatch replace_callback_handle
replace-Inv slot h w v r = ground arith

drop-Inv : (w : World) → Inv w → w.reachable ≡ true → Inv (dispatch drop w)
unfolding dispatch drop_child
drop-Inv w v r = ground arith

leave-Inv : (w : World) → Inv w → w.reachable ≡ true → Inv (dispatch leave w)
unfolding dispatch release
leave-Inv w v r = ground (
  arith,
  deinits-append w.pending (release w.handle).1,
  deinits-cleanup (record {
    ptr = if is_nil w.handle.poison then w.handle.ptr else none;
    callback_handles = w.handle.callback_handles;
    site = none;
  }),
)

closes-Inv : (w : World) → Inv w → w.reachable ≡ true → Inv (dispatch closes w)
unfolding dispatch close
closes-Inv w v r = ground (
  arith,
  deinits-append w.pending (close w.handle).2,
  deinits-cleanup (record {
    ptr = if is_nil w.handle.poison then w.handle.ptr else none;
    callback_handles = w.handle.callback_handles;
    site = none;
  }),
)

collects-Inv : (w : World) → Inv w → w.reachable ≡ true → Inv (dispatch collects w)
unfolding dispatch collect
collects-Inv w v r =
    ground (arith, deinits-append w.pending (collect w.handle).1, deinits-collect w.handle)

call_out-Inv : (w : World) → Inv w → Inv (dispatch call_out w)
unfolding dispatch
call_out-Inv w v = ground (arith)

guarded :
    (a : Action) (w : World)
    → Inv w
    → (w.reachable ≡ true → Inv (dispatch a w))
    → Inv (if w.reachable then dispatch a w else w)
guarded a w v h = if_intro Inv w.reachable h v

pub step-Inv : (w : World) (a : Action) → Inv w → Inv (step w a)
unfolding step
step-Inv w (enter op) v = guarded (enter op) w v (enter-Inv op w v)
step-Inv w (enter_child op) v = guarded (enter_child op) w v (enter_child-Inv op w v)
step-Inv w leave v = guarded leave w v (leave-Inv w v)
step-Inv w (panics cause) v = guarded (panics cause) w v (panics-Inv cause w v)
step-Inv w (replace slot h) v = guarded (replace slot h) w v (replace-Inv slot h w v)
step-Inv w drop v = guarded drop w v (drop-Inv w v)
step-Inv w closes v = guarded closes w v (closes-Inv w v)
step-Inv w call_out v = call_out-Inv w v
step-Inv w collects v = guarded collects w v (collects-Inv w v)

start-Inv : (p : ℕ) (hs : List ℕ) (site : Option String) → Inv (start (new (some p) hs site))
unfolding new
start-Inv p hs site = ground arith

run-Inv : (w : World) (schedule : List Action) → Inv w → Inv (run w schedule)
unfolding run
run-Inv w [] v = v
run-Inv w (a ∷ rest) v = run-Inv (step w a) rest (step-Inv w a v)

pub run-start-Inv :
    (p : ℕ) (hs : List ℕ) (site : Option String) (schedule : List Action)
    → Inv (run (start (new (some p) hs site)) schedule)
run-start-Inv p hs site schedule = run-Inv _ schedule (start-Inv p hs site)
