-- ===== src/Methods/Calls.antt =====
-- Every method of the form `call`, on every way out.
use zigo.Prelude.{
  ℕ, [], ◌∷◌, refl, ◌≡◌, false, Option, none, some, String, if◌then◌else◌, inc, dec, dec-inc, ap,
  ◌∙◌, arith, not, ◌&&◌,
}
use zigo.Prelude.Int.{ℤ, pos, ==ℤ}
use zigo.Errors.{GoError, NativePanicError}
use zigo.Errors.Classify.{error_for_code, is_panic_code, error_for_code-is}
use zigo.Handle.Common.{is_nil}
use zigo.Handle.EventQueue as Queue
use zigo.Handle.EventQueue.{EventQueue}
use zigo.Methods.{
  Runtime, Native, returns, fails, panics, slots, sweep, released, failed, answered, call,
}
use zigo.Methods.Observers.{IsCallable, sweep-Same}
use zigo.Methods.Panics.{raised, sweep-raised}

-- The cause that a failed call poisons its handle with
abbrev pub cause_of : (ℤ → String) → String → ℤ → Option NativePanicError
cause_of message operation code =
    if is_panic_code code
    then some (record { operation = operation; message = message code })
    else none

answered-queue {ℓ} :
    {A : Type ℓ} (message : ℤ → String) (operation : String) (native : Native) (value : A)
    (s : Runtime) (panic : Option GoError)
    → s.queue.closed ≡ false
    → s.queue.poison ≡ none
    → let (s', outcome) = answered message operation native value (s, panic) in
      (s'.queue.active ≡ dec s.queue.active)
      × (s'.queue.ptr ≡ s.queue.ptr)
      × (s'.queue.callback_handles ≡ s.queue.callback_handles)
      × (s'.active ≡ s.active)
      × (s'.queue.poison ≡ (
          if is_nil panic && not (==ℤ native.code (pos 0))
          then cause_of message operation native.code
          else none))
      × (outcome ≡ (elim panic [
        | some e ↦ panics e
        | none ↦
            if ==ℤ native.code (pos 0)
            then returns value
            else fails (error_for_code message operation native.code)
      ]))
unfolding answered released failed Queue.release Queue.take_locked Queue.poison
answered-queue message operation native value s none o p =
    ground (arith, (error_for_code-is message Queue.poison operation native.code (pos 0) s.queue).2)
answered-queue message operation native value s (some e) o p = ground arith

slots-three :
    (e : EventQueue) (a b c : ℕ) → e.callback_handles ≡ a ∷ b ∷ c ∷ [] → slots e ≡ a ∷ b ∷ c ∷ []
unfolding Queue.callback_handle
slots-three e a b c three = rw three refl

call-enters {ℓ} :
    {A : Type ℓ} (message : ℤ → String) (operation : String) (native : Native) (value : A)
    (s : Runtime)
    → IsCallable s.queue
    → call message operation native value s
      ≡ answered message operation native value (
          sweep operation native
            (slots s.queue)
            (record s { queue = record s.queue { active = inc s.queue.active } }))
unfolding call Queue.acquire Queue.callback_handle
call-enters message operation native value s callable = ground arith

-- A method of the form `call` on an open, unpoisoned queue with its three slots: if a panic is pending, the
-- first one that is recorded behind a slot is resumed, as an error that names the method; without one, the
-- caller gets the value exactly for the code 0, and otherwise the error of the code. On every way out the
-- call is no longer counted as inside and the queue keeps its native object and its callbacks; it is
-- poisoned exactly by a code of -256 or below that no callback's panic hides.
pub call-queue {ℓ} :
    {A : Type ℓ} (message : ℤ → String) (operation : String) (native : Native) (value : A)
    (a b c : ℕ) (s : Runtime)
    → IsCallable s.queue
    → s.queue.callback_handles ≡ a ∷ b ∷ c ∷ []
    → let (s', outcome) = call message operation native value s in
      let panic = raised operation native (a ∷ b ∷ c ∷ []) in
      (s'.queue.active ≡ s.queue.active)
      × (s'.queue.ptr ≡ s.queue.ptr)
      × (s'.queue.callback_handles ≡ s.queue.callback_handles)
      × (s'.active ≡ s.active)
      × (s'.queue.poison ≡ (
          if is_nil panic && not (==ℤ native.code (pos 0))
          then cause_of message operation native.code
          else none))
      × (outcome ≡ (elim panic [
        | some e ↦ panics e
        | none ↦
            if ==ℤ native.code (pos 0)
            then returns value
            else fails (error_for_code message operation native.code)
      ]))
call-queue message operation native value a b c s callable three =
    let entered : Runtime = record s { queue = record s.queue { active = inc s.queue.active } } in
    let r = sweep operation native (slots s.queue) entered in
    let same = sweep-Same operation native (slots s.queue) entered in
    let kept =
      answered-queue message operation native value r.0 r.1 (ground (arith, same))
        (ground (arith, same)) in
    let found : r.1 ≡ raised operation native (a ∷ b ∷ c ∷ []) =
      sweep-raised operation native (slots s.queue) entered
      ∙ ap (raised operation native) (slots-three s.queue a b c three) in
    rw (call-enters message operation native value s callable, ← found)
      (
        kept.0
            ∙ ap (λ (q : EventQueue). dec q.active) same.0
            ∙ dec-inc s.queue.active (omega (arith, callable.3)),
        kept.1 ∙ ap (λ (q : EventQueue). q.ptr) same.0,
        kept.2 ∙ ap (λ (q : EventQueue). q.callback_handles) same.0,
        kept.3 ∙ same.1,
        kept.4,
        kept.5,
      )
