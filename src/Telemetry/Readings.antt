-- ===== src/Telemetry/Readings.antt =====
-- The methods of `TelemetryHub` that read a value
-- (examples/08-telemetry-hub/go/telemetry_hub/telemetry_hub_gen.go). A `float64` is its bit pattern, and
-- an enum its number.
use zigo.Prelude.{ℕ, Bool, not, String, ◌==◌}
use zigo.Prelude.Int.{ℤ}
use zigo.Handle.Common.{Pointer}
use zigo.Telemetry.{TelemetryHub}
use zigo.Telemetry.Calls.{HubAnswer, HubEnd, hub_call}

module _ (panic_message : ℤ → String) where
  -- `TelemetryHub.Name`
  unfoldable pub hub_name : (Pointer → HubAnswer String) → TelemetryHub → HubEnd String
  hub_name native = hub_call panic_message "TelemetryHub.Name" native (λ result. result)

  -- `TelemetryHub.Capacity`
  unfoldable pub hub_capacity : (Pointer → HubAnswer ℕ) → TelemetryHub → HubEnd ℕ
  hub_capacity native = hub_call panic_message "TelemetryHub.Capacity" native (λ result. result)

  -- `TelemetryHub.Len`
  unfoldable pub hub_len : (Pointer → HubAnswer ℕ) → TelemetryHub → HubEnd ℕ
  hub_len native = hub_call panic_message "TelemetryHub.Len" native (λ result. result)

  -- `TelemetryHub.IsEmpty`
  unfoldable pub hub_is_empty : (Pointer → HubAnswer ℕ) → TelemetryHub → HubEnd Bool
  hub_is_empty native =
      hub_call panic_message "TelemetryHub.IsEmpty" native (λ result. not (result == 0))

  -- `TelemetryHub.IsFull`
  unfoldable pub hub_is_full : (Pointer → HubAnswer ℕ) → TelemetryHub → HubEnd Bool
  hub_is_full native =
      hub_call panic_message "TelemetryHub.IsFull" native (λ result. not (result == 0))

  -- `TelemetryHub.Mode`
  unfoldable pub hub_mode : (Pointer → HubAnswer ℕ) → TelemetryHub → HubEnd ℕ
  hub_mode native = hub_call panic_message "TelemetryHub.Mode" native (λ result. result)

  -- `TelemetryHub.OverflowPolicy`
  unfoldable pub hub_overflow_policy : (Pointer → HubAnswer ℕ) → TelemetryHub → HubEnd ℕ
  hub_overflow_policy native =
      hub_call panic_message "TelemetryHub.OverflowPolicy" native (λ result. result)

  -- `TelemetryHub.Enabled`
  unfoldable pub hub_enabled : (Pointer → HubAnswer ℕ) → TelemetryHub → HubEnd Bool
  hub_enabled native =
      hub_call panic_message "TelemetryHub.Enabled" native (λ result. not (result == 0))

  -- `TelemetryHub.Threshold`
  unfoldable pub hub_threshold : (Pointer → HubAnswer ℕ) → TelemetryHub → HubEnd ℕ
  hub_threshold native = hub_call panic_message "TelemetryHub.Threshold" native (λ result. result)

  -- `TelemetryHub.ScaleFactor`
  unfoldable pub hub_scale_factor : (Pointer → HubAnswer ℕ) → TelemetryHub → HubEnd ℕ
  hub_scale_factor native =
      hub_call panic_message "TelemetryHub.ScaleFactor" native (λ result. result)

  -- `TelemetryHub.Offset`
  unfoldable pub hub_offset : (Pointer → HubAnswer ℕ) → TelemetryHub → HubEnd ℕ
  hub_offset native = hub_call panic_message "TelemetryHub.Offset" native (λ result. result)

  -- `TelemetryHub.Accepted`
  unfoldable pub hub_accepted : (Pointer → HubAnswer ℕ) → TelemetryHub → HubEnd ℕ
  hub_accepted native = hub_call panic_message "TelemetryHub.Accepted" native (λ result. result)

  -- `TelemetryHub.Rejected`
  unfoldable pub hub_rejected : (Pointer → HubAnswer ℕ) → TelemetryHub → HubEnd ℕ
  hub_rejected native = hub_call panic_message "TelemetryHub.Rejected" native (λ result. result)

  -- `TelemetryHub.Dropped`
  unfoldable pub hub_dropped : (Pointer → HubAnswer ℕ) → TelemetryHub → HubEnd ℕ
  hub_dropped native = hub_call panic_message "TelemetryHub.Dropped" native (λ result. result)

  -- `TelemetryHub.Processed`
  unfoldable pub hub_processed : (Pointer → HubAnswer ℕ) → TelemetryHub → HubEnd ℕ
  hub_processed native = hub_call panic_message "TelemetryHub.Processed" native (λ result. result)

  -- `TelemetryHub.Filtered`
  unfoldable pub hub_filtered : (Pointer → HubAnswer ℕ) → TelemetryHub → HubEnd ℕ
  hub_filtered native = hub_call panic_message "TelemetryHub.Filtered" native (λ result. result)

  -- `TelemetryHub.Sum`
  unfoldable pub hub_sum : (Pointer → HubAnswer ℕ) → TelemetryHub → HubEnd ℕ
  hub_sum native = hub_call panic_message "TelemetryHub.Sum" native (λ result. result)

  -- `TelemetryHub.Minimum`
  unfoldable pub hub_minimum : (Pointer → HubAnswer ℕ) → TelemetryHub → HubEnd ℕ
  hub_minimum native = hub_call panic_message "TelemetryHub.Minimum" native (λ result. result)

  -- `TelemetryHub.Maximum`
  unfoldable pub hub_maximum : (Pointer → HubAnswer ℕ) → TelemetryHub → HubEnd ℕ
  hub_maximum native = hub_call panic_message "TelemetryHub.Maximum" native (λ result. result)

  -- `TelemetryHub.Average`
  unfoldable pub hub_average : (Pointer → HubAnswer ℕ) → TelemetryHub → HubEnd ℕ
  hub_average native = hub_call panic_message "TelemetryHub.Average" native (λ result. result)

  -- `TelemetryHub.FirstID`
  unfoldable pub hub_first_id : (Pointer → HubAnswer ℕ) → TelemetryHub → HubEnd ℕ
  hub_first_id native = hub_call panic_message "TelemetryHub.FirstID" native (λ result. result)

  -- `TelemetryHub.FirstValue`
  unfoldable pub hub_first_value : (Pointer → HubAnswer ℕ) → TelemetryHub → HubEnd ℕ
  hub_first_value native =
      hub_call panic_message "TelemetryHub.FirstValue" native (λ result. result)

  -- `TelemetryHub.LastID`
  unfoldable pub hub_last_id : (Pointer → HubAnswer ℕ) → TelemetryHub → HubEnd ℕ
  hub_last_id native = hub_call panic_message "TelemetryHub.LastID" native (λ result. result)

  -- `TelemetryHub.LastValue`
  unfoldable pub hub_last_value : (Pointer → HubAnswer ℕ) → TelemetryHub → HubEnd ℕ
  hub_last_value native = hub_call panic_message "TelemetryHub.LastValue" native (λ result. result)

  -- `TelemetryHub.LastSeverity`
  unfoldable pub hub_last_severity : (Pointer → HubAnswer ℕ) → TelemetryHub → HubEnd ℕ
  hub_last_severity native =
      hub_call panic_message "TelemetryHub.LastSeverity" native (λ result. result)
