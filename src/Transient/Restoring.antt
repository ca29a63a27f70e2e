-- ===== src/Transient/Restoring.antt =====
-- What is left of a call that was lent a callback.
use zigo.Prelude.{
  ℕ, ◌<◌, ◌≡◌, refl, ap, Bool, true, false, not, Option, none, some, String, word, arith,
}
use zigo.Prelude.Int.{ℤ, pos}
use zigo.Errors.{GoError, PanicValue, is, zig_error}
use zigo.Handle.Common.{is_nil}
use zigo.Methods.{fails}
use zigo.Transient.{
  Calls, Ran, Context, new_handle, delete_handle, set_cancel, raised, watch, stop, cancelled,
  until_cancelled, apply_until_cancelled, error_for_code,
}

-- The counts, and the flag of the handle `k`
abbrev pub Same : ℕ → Calls → Calls → Type 0
Same k s s' = (s'.active ≡ s.active) × (s'.watches ≡ s.watches) × (s'.cancels k ≡ s.cancels k)

left-Same :
    (ctx : Context) (handle k : ℕ) (s : Calls)
    → 0 < handle
    → s.active < word
    → s.watches < word
    → s.cancels handle ≡ false
    → Same k s (
        stop ctx (
          delete_handle handle
            (set_cancel handle false (set_cancel handle true (new_handle (watch ctx s))))))
unfolding watch stop set_cancel delete_handle
left-Same ctx handle k s some_handle small few fresh = ground arith

-- A handle that `cgo.NewHandle` can give out: not 0, and with no flag
abbrev pub IsFresh : Calls → Option ℕ → Type 0
IsFresh s none = Unit {0}
IsFresh s (some handle) = (0 < handle) × (s.cancels handle ≡ false)

until_cancelled-state :
    (message : ℤ → String) (ctx : Context) (ran : Ran ℕ) (s : Calls) (panic : Option PanicValue)
    (failure : Option GoError)
    → (until_cancelled message ctx ran s panic failure).0 ≡ s
unfolding until_cancelled
until_cancelled-state message ctx ran s (some v) failure = refl
until_cancelled-state message ctx ran s none (some e) = refl
until_cancelled-state message ctx ran s none none = ground arith

watched-Same :
    (ctx : Context) (k : ℕ) (s : Calls) → s.watches < word → Same k s (stop ctx (watch ctx s))
unfolding watch stop
watched-Same ctx k s few = ground arith

-- `ApplyUntilCancelled` leaves nothing behind, whichever way it ends (no callback given, a panic or an
-- error of the callback, an error of the native side, a context that was done before or ends meanwhile,
-- success): no callback handle, no cancellation flag at any handle, and nothing that waits for the
-- context. The handle of the callback is fresh, and the counts are below 2 ^ 64.
pub apply_until_cancelled-Same :
    (message : ℤ → String) (ctx : Context) (native : Bool → Ran ℕ) (callback : Option ℕ) (k : ℕ)
    (s : Calls)
    → IsFresh s callback
    → s.active < word
    → s.watches < word
    → Same k s (apply_until_cancelled message ctx native callback s).0
unfolding apply_until_cancelled
apply_until_cancelled-Same message ctx native none k s fresh small few = watched-Same ctx k s few
apply_until_cancelled-Same message ctx native (some handle) k s fresh small few =
    let ran = native (not (is_nil ctx.before)) in
    rw (until_cancelled-state message ctx ran _ (raised ran) ran.failure)
      (left-Same ctx handle k s fresh.0 small few fresh.1)

-- The context's error once it has one
abbrev pub ending : Option GoError → GoError
ending none = zig_error (pos 2) "Canceled" "ApplyUntilCancelled"
ending (some e) = e

cancelled-ending :
    (after : Option GoError)
    → cancelled (zig_error (pos 2) "Canceled" "ApplyUntilCancelled") after ≡ ending after
unfolding cancelled is
cancelled-ending none = refl
cancelled-ending (some e) = refl

-- A call that the native side ended as cancelled, with no panic and no error of the callback, fails with the
-- error of the context if that has ended, and with the native one otherwise.
pub apply_until_cancelled-ending :
    (message : ℤ → String) (ctx : Context) (native : Bool → Ran ℕ) (handle : ℕ) (s : Calls)
    → raised (native (not (is_nil ctx.before))) ≡ none
    → (native (not (is_nil ctx.before))).failure ≡ none
    → (native (not (is_nil ctx.before))).code ≡ pos 2
    → (apply_until_cancelled message ctx native (some handle) s).1 ≡ fails (ending ctx.after)
unfolding apply_until_cancelled until_cancelled error_for_code
apply_until_cancelled-ending message ctx native handle s no_panic no_failure code =
    rw (no_panic, no_failure, code) (ap (λ (e : GoError). fails e) (cancelled-ending ctx.after))
