-- ===== src/Methods/Observers.antt =====
-- What the methods of an open queue leave behind, on every way out.
use zigo.Prelude.{
  ℕ, ◌+◌, ◌<◌, ◌≡◌, refl, false, Option, none, some, List, [], ◌∷◌, String, if◌then◌else◌, ◌==◌,
  word, inc, dec, arith,
}
use zigo.Prelude.Int.{ℤ}
use zigo.Errors.{GoError}
use zigo.Errors.Classify.{poison_after_panic, error_for_code}
use zigo.Handle.Common.{is_nil}
use zigo.Handle.EventQueue as Queue
use zigo.Handle.EventQueue.{EventQueue}
use zigo.Methods.{
  Runtime, Native, delete_handle, new_handle, slots, rethrow, sweep, released, failed, is_success,
  new_stream, observed, opened_stream, set_observer,
}

-- The callback handles that a queue's slots own
abbrev pub owned : List ℕ → ℕ
owned [] = 0
owned (handle ∷ rest) = (if handle == 0 then 0 else 1) + owned rest

-- A queue that can be called: open, not poisoned, and with room for one more call and child
abbrev pub IsCallable : EventQueue → Type 0
IsCallable e =
    (e.closed ≡ false)
    × (is_nil e.ptr ≡ false)
    × (e.poison ≡ none)
    × (e.active + 1 < word)
    × (e.children + 1 < word)

-- Nothing about the queue or the count of handles depends on the panics recorded.
abbrev pub Same : Runtime → Runtime → Type 0
Same s s' = (s'.queue ≡ s.queue) × (s'.active ≡ s.active)

rethrow-Same : (op : String) (handles : List ℕ) (s : Runtime) → Same s (rethrow op handles s).0
unfolding rethrow
rethrow-Same op [] s = (refl, refl)
rethrow-Same op (handle ∷ rest) s = ground (arith, rethrow-Same op rest s)

pub sweep-Same :
    (op : String) (n : Native) (handles : List ℕ) (s : Runtime) → Same s (sweep op n handles s).0
unfolding sweep
sweep-Same op n handles s =
    ground (arith, rethrow-Same op handles (record s { recorded = n.recorded }))

-- What a failed call does to the queue: it may poison it, and no more.
unfoldable pub IsPoisoning : EventQueue → EventQueue → Type 0
IsPoisoning e e' =
    (e'.closed ≡ e.closed)
    × (e'.active ≡ e.active)
    × (e'.children ≡ e.children)
    × (e'.callback_handles ≡ e.callback_handles)
    × (e'.ptr ≡ e.ptr)

pub poison_after_panic-IsPoisoning :
    (x : GoError) (e : EventQueue) → IsPoisoning e (poison_after_panic Queue.poison x e)
unfolding poison_after_panic IsPoisoning Queue.poison
poison_after_panic-IsPoisoning x e = ground arith

observed-owned :
    (message : ℤ → String) (handle a b c : ℕ) (native : Native) (s : Runtime) (r : Option GoError)
    → 0 < handle
    → s.queue.closed ≡ false
    → s.queue.callback_handles ≡ a ∷ b ∷ c ∷ []
    → 0 < s.active
    → s.active < word
    → let (s', outcome) = observed message handle native (s, r) in
      (s'.active + owned s.queue.callback_handles + 1 ≡ s.active + owned s'.queue.callback_handles)
      × (s'.queue.active ≡ dec s.queue.active)
      × (s'.queue.callback_handles
          ≡ (if is_success outcome then a ∷ b ∷ handle ∷ [] else s.queue.callback_handles))
unfolding observed released delete_handle failed Queue.release Queue.take_locked
    Queue.replace_callback_handle IsPoisoning
observed-owned message handle a b c native s (some x) h o three some_active small = ground arith
observed-owned message handle a b c native s none h o three some_active small = ground (
  arith,
  poison_after_panic-IsPoisoning (error_for_code message "EventQueue.SetObserver" native.code)
      s.queue,
)

-- `SetObserver` on an open, unpoisoned queue with its three slots, whichever way it ends (an error, a callback's
-- panic, success): the count of active callback handles moves by exactly the handles that the queue's
-- slots gained, so none leaks and none is deleted twice; the call is no longer counted as inside; and
-- the new handle is in the third slot exactly after a success.
pub set_observer-owned :
    (message : ℤ → String) (handle a b c : ℕ) (native : Native) (s : Runtime)
    → 0 < handle
    → IsCallable s.queue
    → s.queue.callback_handles ≡ a ∷ b ∷ c ∷ []
    → s.active + 1 < word
    → let (s', outcome) = set_observer message (some handle) native s in
      (s'.active + owned s.queue.callback_handles ≡ s.active + owned s'.queue.callback_handles)
      × (s'.queue.active ≡ s.queue.active)
      × (s'.queue.callback_handles
          ≡ (if is_success outcome then a ∷ b ∷ handle ∷ [] else s.queue.callback_handles))
unfolding set_observer Queue.acquire
set_observer-owned message handle a b c native s h callable three small =
    let entered : Runtime =
      new_handle (record s { queue = record s.queue { active = inc s.queue.active } }) in
    let handles = handle ∷ slots entered.queue in
    let r = sweep "EventQueue.SetObserver" native handles entered in
    let same = sweep-Same "EventQueue.SetObserver" native handles entered in
    let kept =
      observed-owned message handle a b c native r.0 r.1 h (ground (arith, same))
        (ground (arith, same)) (ground (arith, same)) (ground (arith, same)) in
    ground (arith, same, kept)

opened_stream-children :
    (message : ℤ → String) (native : Native) (s : Runtime) (r : Option GoError)
    → s.queue.closed ≡ false
    → let (s', outcome) = opened_stream message native (s, r) in
      (s'.queue.active ≡ dec s.queue.active)
      × (s'.queue.children
          ≡ (if is_success outcome then s.queue.children else dec s.queue.children))
unfolding opened_stream released failed Queue.release Queue.take_locked Queue.drop_child IsPoisoning
opened_stream-children message native s (some x) o = ground arith
opened_stream-children message native s none o = ground (
  arith,
  poison_after_panic-IsPoisoning (error_for_code message "EventQueue.NewStream" native.code)
      s.queue,
)

-- `NewStream` on an open, unpoisoned queue, whichever way it ends: the queue counts one child more exactly if the
-- caller got a stream, and the call is no longer counted as inside.
pub new_stream-children :
    (message : ℤ → String) (native : Native) (s : Runtime)
    → IsCallable s.queue
    → let (s', outcome) = new_stream message native s in
      (s'.queue.active ≡ s.queue.active)
      × (s'.queue.children
          ≡ (if is_success outcome then s.queue.children + 1 else s.queue.children))
unfolding new_stream Queue.acquire_child
new_stream-children message native s callable =
    let entered : Runtime = record s {
      queue = record s.queue { active = inc s.queue.active; children = inc s.queue.children };
    } in
    let handles = slots entered.queue in
    let r = sweep "EventQueue.NewStream" native handles entered in
    let same = sweep-Same "EventQueue.NewStream" native handles entered in
    let kept = opened_stream-children message native r.0 r.1 (ground (arith, same)) in
    ground (arith, same, kept)
