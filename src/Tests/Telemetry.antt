-- ===== src/Tests/Telemetry.antt =====
-- The methods of `TelemetryHub` on concrete hubs.
use zigo.Prelude.{ℕ, ◌≡◌, refl, Bool, none, some, [], ◌∷◌, String, false, arith}
use zigo.Prelude.Int.{ℤ, pos, negsuc}
use zigo.Errors.{zig_error, poisoned, sentinel, handle_in_use}
use zigo.Handle.Common.{Pointer, deinit, delete_callback}
use zigo.Methods.{fails}
use zigo.Transient.{Calls, Context}
use zigo.Telemetry.{TelemetryHub, cleanup, acquire, release, close, poison}
use zigo.Telemetry.Calls.{
  HubAnswer, hub_call, new_telemetry_hub, hub_entered, hub_answered, hub_error_for_code,
}
use zigo.Errors.Classify.{poison_after_panic}
use zigo.Telemetry.Creating.{Creates, new_telemetry_hub-Creates}
use zigo.Telemetry.Controls.{hub_set_enabled}
use zigo.Telemetry.Reducing.{hub_reduce}
use zigo.Telemetry.Restoring.{IsOpen, hub_call-next, hub_reduce-stopped}

abbrev panic_message : ℤ → String
panic_message code = "integer overflow"

abbrev telemetry : TelemetryHub
telemetry = record {
  ptr = some 5;
  active = 0;
  closed = false;
  poison = none;
  callback_handles = 9 ∷ [];
  cleanup = some none;
}

telemetry-IsOpen : IsOpen telemetry
telemetry-IsOpen = record {
  not_closed = refl;
  not_poisoned = refl;
  present = refl;
  room = ground arith;
}

-- What the native side answers with a code, when no panic of the observer is pending
abbrev answered : ℕ → ℤ → Pointer → HubAnswer ℕ
answered result code p = record { result = result; code = code; pending = 0; panic = none }

hub_call-next_example :
    hub_call panic_message "TelemetryHub.Len"
      (answered 3 (pos 0))
      (λ n. n)
      (hub_call panic_message "TelemetryHub.Sum" (answered 7 (negsuc 300)) (λ n. n) telemetry).0
    ≡ (
      poison (record { operation = "TelemetryHub.Sum"; message = "integer overflow" }) telemetry,
      fails (
          poisoned
            (record { operation = "TelemetryHub.Sum"; message = "integer overflow" })
            "TelemetryHub.Len receiver"),
      [],
    )
hub_call-next_example =
    (hub_call-next panic_message "TelemetryHub.Sum" "TelemetryHub.Len" (answered 7 (negsuc 300))
      (λ n. n) (answered 3 (pos 0)) (λ n. n) telemetry telemetry-IsOpen).1

-- A context that ends while `Reduce` runs
abbrev ends_during : Context
ends_during = record { before = none; after = some (sentinel handle_in_use) }

abbrev quiet : Calls
quiet = record { active = 0; cancels = λ n. false; watches = 0 }

abbrev cancelled_reduce : Bool → ℕ → Pointer → HubAnswer ℕ
cancelled_reduce flag rounds = answered 0 (pos 12)

hub_reduce-stopped_example :
    hub_reduce panic_message cancelled_reduce ends_during 4 telemetry quiet
    ≡ ((telemetry, fails (sentinel handle_in_use), []), quiet)
hub_reduce-stopped_example =
    hub_reduce-stopped panic_message cancelled_reduce ends_during 4 telemetry quiet telemetry-IsOpen
      (ground arith)

-- A native side that makes the object 3
abbrev creates : String → ℕ → ℕ → ℕ → ℕ → HubAnswer Pointer
creates input_name max_samples initial_mode overflow_policy handle = record {
  result = some 3;
  code = pos 0;
  pending = 0;
  panic = none;
}

new_telemetry_hub-Creates_example :
    Creates quiet 9
      (creates "hub" 16 0 1 9)
      (new_telemetry_hub panic_message none creates "hub" 16 0 1 (some 9) quiet)
new_telemetry_hub-Creates_example =
    new_telemetry_hub-Creates panic_message none creates "hub" 16 0 1 9 quiet refl (ground arith)
      refl

-- Runs of the definitions

set_enabled_run :
    hub_set_enabled panic_message (λ n. answered n (pos 10)) false telemetry
    ≡ (telemetry, fails (zig_error (pos 10) "ObserverPanicked" "TelemetryHub.SetEnabled"), [])
unfolding hub_set_enabled hub_call hub_entered acquire hub_answered release hub_error_for_code
    poison_after_panic
set_enabled_run = refl

close_run : (close telemetry).2 ≡ deinit 5 ∷ delete_callback 9 ∷ []
unfolding close cleanup
close_run = refl
