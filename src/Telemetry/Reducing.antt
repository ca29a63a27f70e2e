-- ===== src/Telemetry/Reducing.antt =====
-- `TelemetryHub.Reduce`, which a context can cancel
-- (examples/08-telemetry-hub/go/telemetry_hub/telemetry_hub_gen.go, lines 77-110).
use zigo.Prelude.{ℕ, not, Option, none, some, String, if◌then◌else◌, Bool}
use zigo.Prelude.Int.{ℤ, pos}
use zigo.Errors.{GoError, is, is_zig}
use zigo.Handle.Common.{Pointer, is_nil}
use zigo.Transient.{Calls, Context, watch, stop}
use zigo.Telemetry as Hub
use zigo.Telemetry.{TelemetryHub}
use zigo.Telemetry.Calls.{HubAnswer, HubEnd, hub_entered}

-- The error that `Reduce` returns for its own, when `ctx.Err()` then answers `after`
unfoldable pub reduce_error : Option GoError → GoError → GoError
reduce_error none e = e
reduce_error (some ended) e = if is e (is_zig (pos 12)) then ended else e

-- `TelemetryHub.Reduce`. The native side is told whether the flag is set when it begins. The watch on the
-- context is the first deferred call, so it ends last.
unfoldable pub hub_reduce :
    (ℤ → String)
    → (Bool → ℕ → Pointer → HubAnswer ℕ)
    → Context
    → ℕ
    → TelemetryHub
    → Calls
    → HubEnd ℕ × Calls
hub_reduce panic_message native ctx rounds t s = (
  hub_entered panic_message "TelemetryHub.Reduce" (reduce_error ctx.after)
      (native (not (is_nil ctx.before)) rounds) (λ result. result)
      (Hub.acquire "TelemetryHub.Reduce receiver" t),
  stop ctx (watch ctx s),
)
