-- ===== src/Telemetry/Creating.antt =====
-- What `NewTelemetryHub` leaves of the callback handle that it makes for the observer.
use zigo.Prelude.{
  ℕ, ◌+◌, ◌<◌, ◌≡◌, refl, true, false, Option, none, some, [], ◌∷◌, ◌++◌, String, if◌then◌else◌,
  ◌==◌, word, inl, inr, Bool-cases, arith,
}
use zigo.Prelude.Int.{ℤ, pos, ==ℤ}
use zigo.Errors.{PanicValue}
use zigo.Handle.Common.{Pointer, is_nil, deinit_pointer, delete_callback_handle}
use zigo.Methods.{Outcome, returns, fails, panics}
use zigo.Transient.{Calls, new_handle, delete_handle}
use zigo.Transient.Running.{behind}
use zigo.Telemetry as Hub
use zigo.Telemetry.{TelemetryHub}
use zigo.Telemetry.Calls.{HubAnswer, new_telemetry_hub, hub_created}

-- Who has the callback handle when `NewTelemetryHub`, called in `s`, has ended, and what the native side
-- answered then: after a failure, which is a code other than 0, nobody, since it is deleted; after a
-- success the hub, whose `Close` releases the native object and deletes the handle; after a panic, which
-- some callback must have left pending, nobody, although it is still active.
pub Creates : Calls → ℕ → HubAnswer Pointer → Calls × Outcome TelemetryHub → Type 0
Creates s handle answer (s', fails e) = (==ℤ answer.code (pos 0) ≡ false) × (s' ≡ s)
Creates s handle answer (s', panics e) = ((answer.pending == 0) ≡ false) × (s' ≡ new_handle s)
Creates s handle answer (s', returns t) =
    (==ℤ answer.code (pos 0) ≡ true)
    × (s' ≡ new_handle s)
    × ((Hub.close t).2 ≡ deinit_pointer answer.result ++ delete_callback_handle handle)

close-new :
    (ptr : Pointer) (handle : ℕ) (site : Option String)
    → (handle == 0) ≡ false
    → is_nil ptr ≡ false
    → (Hub.close (Hub.new ptr (handle ∷ []) site)).2
      ≡ deinit_pointer ptr ++ delete_callback_handle handle
unfolding Hub.close Hub.take_locked Hub.new Hub.cleanup
close-new none handle site given made = ground arith
close-new (some p) handle site given made = rw given refl

deleted-new :
    (handle : ℕ) (s : Calls)
    → (handle == 0) ≡ false
    → s.active + 1 < word
    → delete_handle handle (new_handle s) ≡ s
unfolding delete_handle
deleted-new handle s given room = ground arith

-- What the sweep of the handle found
abbrev found : ℕ → HubAnswer Pointer → Option PanicValue
found handle answer = behind handle (if answer.pending == 0 then none else answer.panic)

hub_created-Creates :
    (message : ℤ → String) (handle : ℕ) (site : Option String) (answer : HubAnswer Pointer)
    (s : Calls) (panic : Option PanicValue)
    → found handle answer ≡ panic
    → (handle == 0) ≡ false
    → s.active + 1 < word
    → is_nil answer.result ≡ false
    → Creates s handle answer (hub_created message handle site answer (new_handle s) panic)
unfolding hub_created Creates
hub_created-Creates message handle site answer s (some value) taken given room made =
    (ground arith, refl)
hub_created-Creates message handle site answer s none taken given room made =
    elim (Bool-cases (==ℤ answer.code (pos 0))) [
      | inl z ↦ rw z (z, refl, close-new answer.result handle site given made)
      | inr z ↦ rw z (z, deleted-new handle s given room)
    ]

-- `NewTelemetryHub` with an observer whose handle is not 0, when the native side does not hand out a nil
-- pointer: it fails for a code other than 0 only, and then deletes the handle; after a success the hub has
-- it, and `Close` releases the native object and deletes it. Only a panic that a callback left pending is resumed, and then
-- the handle is active and nobody has it.
pub new_telemetry_hub-Creates :
    (message : ℤ → String) (site : Option String)
    (native : String → ℕ → ℕ → ℕ → ℕ → HubAnswer Pointer) (input_name : String)
    (max_samples initial_mode overflow_policy handle : ℕ) (s : Calls)
    → (handle == 0) ≡ false
    → s.active + 1 < word
    → is_nil (native input_name max_samples initial_mode overflow_policy handle).result ≡ false
    → Creates s handle (native input_name max_samples initial_mode overflow_policy handle) (
        new_telemetry_hub message site native input_name max_samples initial_mode overflow_policy
          (some handle)
          s)
unfolding new_telemetry_hub
new_telemetry_hub-Creates message site native input_name max_samples initial_mode overflow_policy
      handle s given room made =
    hub_created-Creates message handle site
      (native input_name max_samples initial_mode overflow_policy handle) s _ refl given room made
