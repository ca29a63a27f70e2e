-- ===== src/Handle/EventQueue/Concurrent/Draining.antt =====
-- How a shared `EventQueue` comes to rest: a `Close`, the returns of the calls that are inside, and
-- the calls that the goroutines still owe.
use zigo.Prelude.{
  ℕ, Bool, zero, suc, ◌+◌, ◌≡◌, refl, true, Option, List, [], ◌∷◌, String, arith, ◌∙◌, ap,
}
use zigo.Errors.{NativePanicError}
use zigo.Handle.Common.{Effect, deinit, delete_callback, report, is_nil}
use zigo.Handle.EventQueue.{EventQueue, close, release}
use zigo.Handle.EventQueue.Concurrent.{
  World, Action, leave, closes, call_out, dispatch, step, run, deinits, freed,
}
use zigo.Handle.EventQueue.Concurrent.Invariant.{Inv, owed, step-Inv, run-start-Inv}
use zigo.Handle.EventQueue.Concurrent.Safety.{after}

abbrev pub times : Action → ℕ → List Action
times a zero = []
times a (suc n) = a ∷ times a n

abbrev pub how_many : List Effect → ℕ
how_many [] = 0
how_many (x ∷ rest) = suc (how_many rest)

-- A `Close`, and the return of each call that is inside
abbrev pub shut : World → World
shut w = run w (closes ∷ times leave w.calls)

-- Then every call that an `Unlock` left to make
abbrev pub drained : World → World
drained w = run (shut w) (times call_out (how_many (shut w).pending))

record Closed (cause : Option NativePanicError) (w : World) : Type 0 where
  pub inv : Inv w
  pub reachable : w.reachable ≡ true
  pub closed : w.handle.closed ≡ true
  pub poison : w.handle.poison ≡ cause

closes-Closed :
    (w : World)
    → Inv w
    → w.reachable ≡ true
    → w.reserved ≡ 0
    → Closed w.handle.poison (step w closes) × ((step w closes).calls ≡ w.calls)
unfolding step dispatch close
closes-Closed w v r none_left =
    let facts : ((step w closes).reachable ≡ true)
        × ((step w closes).handle.closed ≡ true)
        × ((step w closes).handle.poison ≡ w.handle.poison)
        × ((step w closes).calls ≡ w.calls) =
      ground arith in
    let (open_still, closed, poison, calls) = facts in
    (
      record {
        inv = step-Inv w closes v;
        reachable = open_still;
        closed = closed;
        poison = poison;
      },
      calls,
    )

leave-Closed :
    (cause : Option NativePanicError) (w : World) (n : ℕ)
    → Closed cause w
    → w.calls ≡ suc n
    → Closed cause (step w leave) × ((step w leave).calls ≡ n)
unfolding step dispatch release
leave-Closed cause w n c h =
    let facts : ((step w leave).reachable ≡ true)
        × ((step w leave).handle.closed ≡ true)
        × ((step w leave).handle.poison ≡ cause)
        × ((step w leave).calls ≡ n) =
      ground (arith) in
    let (open_still, closed, poison, calls) = facts in
    (
      record {
        inv = step-Inv w leave c.inv;
        reachable = open_still;
        closed = closed;
        poison = poison;
      },
      calls,
    )

leaves-Closed :
    (cause : Option NativePanicError) (n : ℕ) (w : World)
    → Closed cause w
    → w.calls ≡ n
    → Closed cause (run w (times leave n)) × ((run w (times leave n)).calls ≡ 0)
unfolding run
leaves-Closed cause zero w c h = (c, h)
leaves-Closed cause (suc n) w c h =
    let next = leave-Closed cause w n c h in leaves-Closed cause n (step w leave) next.0 next.1

deinits-move :
    (x : Effect) (rest done : List Effect)
    → deinits rest + deinits (x ∷ done) ≡ deinits (x ∷ rest) + deinits done
deinits-move (deinit p) rest done = omega arith
deinits-move (delete_callback h) rest done = refl
deinits-move (report t site) rest done = refl

-- Calling out moves the releases that are on the way among those that were made.
call_outs-freed :
    (handle : EventQueue) (calls reserved : ℕ) (reachable : Bool) (pending done : List Effect)
    → let w : World = record {
      handle = handle;
      calls = calls;
      reserved = reserved;
      reachable = reachable;
      pending = pending;
      done = done;
    } in
      let w' = run w (times call_out (how_many pending)) in
      (w'.pending ≡ []) × (deinits w'.done ≡ freed w) × (w'.handle ≡ handle)
unfolding run step dispatch
call_outs-freed handle calls reserved reachable [] done = (refl, omega arith, refl)
call_outs-freed handle calls reserved reachable (x ∷ rest) done =
    let more = call_outs-freed handle calls reserved reachable rest (x ∷ done) in
    (more.0, more.1 ∙ deinits-move x rest done, more.2)

-- In every interleaving, if the handle is still reachable and no child holds a reservation, then a
-- `Close`, the return of the calls that are inside, and the calls that these left to make, bring the
-- handle to rest. (The `Close` is let in also while calls are inside: the code refuses it for children only,
-- although its doc comment names calls too.) Nothing is left to call, its pointer is nil, and its native object has been released
-- exactly once, or never if a Zig panic had poisoned the handle.
pub drained_lem :
    (p : ℕ) (hs : List ℕ) (site : Option String) (schedule : List Action)
    → (after p hs site schedule).reachable ≡ true
    → (after p hs site schedule).reserved ≡ 0
    → let w = after p hs site schedule in
      ((drained w).pending ≡ [])
      × (is_nil (drained w).handle.ptr ≡ true)
      × (deinits (drained w).done ≡ owed w.handle.poison)
unfolding run
drained_lem p hs site schedule r none_left =
    let w = after p hs site schedule in
    let closing = closes-Closed w (run-start-Inv p hs site schedule) r none_left in
    let (c, calls) = leaves-Closed w.handle.poison w.calls (step w closes) closing.0 closing.1 in
    let s = shut w in
    let out = call_outs-freed s.handle s.calls s.reserved s.reachable s.pending s.done in
    let end = c.inv.released c.reachable c.closed calls in
    (
      out.0,
      ap (λ (q : EventQueue). is_nil q.ptr) out.2 ∙ end.0,
      out.1 ∙ end.1 ∙ ap (λ (o : Option NativePanicError). owed o) c.poison,
    )
