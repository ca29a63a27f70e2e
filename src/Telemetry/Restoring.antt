-- ===== src/Telemetry/Restoring.antt =====
-- What the methods of `TelemetryHub` leave of the hub, on every way out.
use zigo.Prelude.{
  inl, inr, ℕ, ◌+◌, ◌<◌, ◌≡◌, ◌∙◌, refl, ap, Bool, true, false, not, Option, none, some, [], String,
  ◌<>◌, if◌then◌else◌, inc, word, arith,
}
use zigo.Prelude.{Bool-cases}
use zigo.Prelude.Int.{ℤ, pos, negsuc, ==ℤ}
use zigo.Errors.{GoError, poisoned, NativePanicError, PanicValue, callback_panic_error}
use zigo.Errors.Classify.{is_panic_code, poison_after_panic}
use zigo.Handle.Common.{Pointer, is_nil, ok}
use zigo.Methods.{Outcome, returns, fails, panics}
use zigo.Transient.{Calls, Context, watch, stop}
use zigo.Telemetry as Hub
use zigo.Telemetry.{TelemetryHub}
use zigo.Telemetry.Calls.{
  HubAnswer, HubEnd, hub_panic, hub_call, hub_entered, hub_answered, hub_panic, hub_error_for_code,
  hub_error_for_code-panic, hub_error_for_code-calm, hub_error_for_code-cancelled,
}
use zigo.Telemetry.Reducing.{hub_reduce, reduce_error}

-- The hub lets a call in, and has room for it.
pub record IsOpen (t : TelemetryHub) : Type 0 where
  pub not_closed : t.closed ≡ false
  pub not_poisoned : t.poison ≡ none
  pub present : is_nil t.ptr ≡ false
  pub room : t.active + 1 < word

-- How a call that was let in leaves the hub: poisoned by `cause` if there is one, and otherwise as it was
abbrev pub hub_after : TelemetryHub → Option NativePanicError → TelemetryHub
hub_after t none = t
hub_after t (some cause) = Hub.poison cause t

-- The cause that a failed call poisons its hub with, unless a panic of the observer hides it
abbrev pub hub_cause : (ℤ → String) → String → ℤ → Option PanicValue → Option NativePanicError
hub_cause message operation code (some value) = none
hub_cause message operation code none =
    if is_panic_code code
    then some (record { operation = operation; message = message code })
    else none

-- A failed call poisons its hub for a panic of the native side only.
hub_after-cause :
    (message : ℤ → String) (operation : String) (code : ℤ) (t : TelemetryHub)
    → poison_after_panic Hub.poison (hub_error_for_code message operation code) t
      ≡ hub_after t (hub_cause message operation code none)
hub_after-cause message operation code t = elim (Bool-cases (is_panic_code code)) [
  | inl b ↦ rw (hub_error_for_code-panic message Hub.poison operation code t b, b) refl
  | inr b ↦ rw (hub_error_for_code-calm message Hub.poison operation code t b, b) refl
]

counted : TelemetryHub → TelemetryHub
counted t = record t { active = inc t.active }

release-after :
    (t : TelemetryHub) (cause : Option NativePanicError)
    → IsOpen t
    → Hub.release (hub_after (counted t) cause) ≡ (hub_after t cause, [])
unfolding Hub.release Hub.poison counted
release-after t none o = ground arith
release-after t (some cause) o = ground arith

-- What a caller gets of a call that was let in
abbrev pub hub_outcome :
    {A B : Type 0}
    → (ℤ → String)
    → String
    → (GoError → GoError)
    → (A → B)
    → HubAnswer A
    → Option PanicValue
    → Outcome B
hub_outcome message operation translate convert answer (some value) =
    panics (callback_panic_error operation value)
hub_outcome message operation translate convert answer none =
    if ==ℤ answer.code (pos 0)
    then returns (convert answer.result)
    else fails (translate (hub_error_for_code message operation answer.code))

==ℤ-is_panic_code : (code : ℤ) → ==ℤ code (pos 0) ≡ true → is_panic_code code ≡ false
==ℤ-is_panic_code (pos n) z = refl
==ℤ-is_panic_code (negsuc n) z = ground arith

answered_lem :
    {A B : Type 0} (message : ℤ → String) (operation : String) (translate : GoError → GoError)
    (convert : A → B) (answer : HubAnswer A) (t : TelemetryHub) (panic : Option PanicValue)
    → IsOpen t
    → hub_answered message operation translate convert answer (counted t) panic ≡ (
      hub_after t (hub_cause message operation answer.code panic),
      hub_outcome message operation translate convert answer panic,
      [],
    )
unfolding hub_answered
answered_lem message operation translate convert answer t (some value) o =
    rw (release-after t none o) refl
answered_lem message operation translate convert answer t none o =
    elim (Bool-cases (==ℤ answer.code (pos 0))) [
      | inl z ↦ rw (z, ==ℤ-is_panic_code answer.code z, release-after t none o) refl
      | inr z ↦
          rw
            (
              z,
              hub_after-cause message operation answer.code (counted t),
              release-after t (hub_cause message operation answer.code none) o,
            )
            refl
    ]

acquire-open :
    (operation : String) (t : TelemetryHub)
    → IsOpen t
    → Hub.acquire operation t ≡ (counted t, ok t.ptr)
unfolding Hub.acquire counted
acquire-open operation t o = ground arith

entered_lem :
    {A B : Type 0} (message : ℤ → String) (operation : String) (translate : GoError → GoError)
    (native : Pointer → HubAnswer A) (convert : A → B) (t : TelemetryHub)
    → IsOpen t
    → let answer = native t.ptr in
      let panic = hub_panic t answer in
      hub_entered message operation translate native convert
        (Hub.acquire (operation <> " receiver") t)
      ≡ (
        hub_after t (hub_cause message operation answer.code panic),
        hub_outcome message operation translate convert answer panic,
        [],
      )
unfolding hub_entered counted
entered_lem message operation translate native convert t o =
    rw (acquire-open (operation <> " receiver") t o) (
      answered_lem message operation translate convert (native t.ptr) t (hub_panic t (native t.ptr))
        o)

-- How the next method of a hub ends, when `cause` is what the call before it left
abbrev pub hub_next :
    {A : Type 0} → Option NativePanicError → TelemetryHub → String → HubEnd A → HubEnd A
hub_next none t operation done = done
hub_next (some cause) t operation done =
    (Hub.poison cause t, fails (poisoned cause (operation <> " receiver")), [])

call-hub_after :
    {A B : Type 0} (message : ℤ → String) (operation : String) (native : Pointer → HubAnswer A)
    (convert : A → B) (t : TelemetryHub) (cause : Option NativePanicError)
    → IsOpen t
    → hub_call message operation native convert (hub_after t cause)
      ≡ hub_next cause t operation (hub_call message operation native convert t)
unfolding hub_call hub_entered Hub.acquire Hub.poison
call-hub_after message operation native convert t none o = refl
call-hub_after message operation native convert t (some cause) o = ground arith

-- A method that finds the hub open and does not end in a panic of the native side leaves the hub as it
-- found it, with nothing called out, and returns what the code, or a panic of the observer, says. After
-- such a panic, if no panic of the observer is resumed first, the hub is poisoned by it, and the next
-- method is refused with that cause before it makes
-- its native call; otherwise the next method does what it would have done first.
pub hub_call-next :
    {A B C D : Type 0} (message : ℤ → String) (first second : String)
    (native : Pointer → HubAnswer A) (convert : A → B) (native' : Pointer → HubAnswer C)
    (convert' : C → D) (t : TelemetryHub)
    → IsOpen t
    → let answer = native t.ptr in
      let panic = hub_panic t answer in
      let cause = hub_cause message first answer.code panic in
      let end = hub_call message first native convert t in
      (end ≡ (hub_after t cause, hub_outcome message first (λ e. e) convert answer panic, []))
      × (hub_call message second native' convert' end.0
          ≡ hub_next cause t second (hub_call message second native' convert' t))
unfolding hub_call
hub_call-next message first second native convert native' convert' t o =
    let end = entered_lem message first (λ e. e) native convert t o in
    (
      end,
      ap (λ r. hub_call message second native' convert' r.0) end
          ∙ call-hub_after message second native' convert' t _ o,
    )

abbrev pub ended_error : Option GoError → GoError → GoError
ended_error none own = own
ended_error (some ended) own = ended

reduce_error-code :
    (message : ℤ → String) (operation : String) (code : ℤ) (after : Option GoError)
    → let own = hub_error_for_code message operation code in
      reduce_error after own ≡ (if ==ℤ code (pos 12) then ended_error after own else own)
unfolding reduce_error
reduce_error-code message operation code none = ground arith
reduce_error-code message operation code (some ended) =
    rw (hub_error_for_code-cancelled message operation code) refl

reduce-outcome :
    {A : Type 0} (message : ℤ → String) (operation : String) (after : Option GoError)
    (answer : HubAnswer A) (panic : Option PanicValue)
    → hub_outcome message operation (reduce_error after) (λ result. result) answer panic
      ≡ hub_outcome message operation
          (λ own. if ==ℤ answer.code (pos 12) then ended_error after own else own)
          (λ result. result)
          answer
          panic
reduce-outcome message operation after answer (some value) = refl
reduce-outcome message operation after answer none =
    rw (reduce_error-code message operation answer.code after) refl

stop-watch : (ctx : Context) (s : Calls) → s.watches + 1 < word → stop ctx (watch ctx s) ≡ s
unfolding watch stop
stop-watch ctx s room = ground arith

-- `Reduce` on an open hub, whether the context ended before it, during it or not at all, stops the
-- function that waits for the context if it started one, and leaves the hub as any other method does. For
-- the code 12, `Cancelled`, it returns the error of the context if that has ended, and the package's own
-- error otherwise; for every other code other than 0 it returns the error of that code, ended or not.
pub hub_reduce-stopped :
    (message : ℤ → String) (native : Bool → ℕ → Pointer → HubAnswer ℕ) (ctx : Context) (rounds : ℕ)
    (t : TelemetryHub) (s : Calls)
    → IsOpen t
    → s.watches + 1 < word
    → let answer = native (not (is_nil ctx.before)) rounds t.ptr in
      let panic = hub_panic t answer in
      let operation : String = "TelemetryHub.Reduce" in
      hub_reduce message native ctx rounds t s ≡ (
        (
          hub_after t (hub_cause message operation answer.code panic),
          hub_outcome message operation
              (λ own. if ==ℤ answer.code (pos 12) then ended_error ctx.after own else own)
              (λ result. result)
              answer
              panic,
          [],
        ),
        s,
      )
unfolding hub_reduce
hub_reduce-stopped message native ctx rounds t s o room =
    let native' : Pointer → HubAnswer ℕ = native (not (is_nil ctx.before)) rounds in
    rw
      (
        entered_lem message "TelemetryHub.Reduce" (reduce_error ctx.after) native'
            (λ result. result) t o,
        reduce-outcome message "TelemetryHub.Reduce" ctx.after (native' t.ptr)
            (hub_panic t (native' t.ptr)),
        stop-watch ctx s room,
      )
      refl
