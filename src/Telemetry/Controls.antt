-- ===== src/Telemetry/Controls.antt =====
-- The methods of `TelemetryHub` that take arguments or change the hub
-- (examples/08-telemetry-hub/go/telemetry_hub/telemetry_hub_gen.go). A `float64` is its bit pattern, and
-- an enum its number.
use zigo.Prelude.{ℕ, Bool, not, List, String, ◌==◌}
use zigo.Prelude.Int.{ℤ}
use zigo.Handle.Common.{Pointer}
use zigo.Conversions.{bool_to_uint8}
use zigo.Telemetry.{TelemetryHub}
use zigo.Telemetry.Calls.{HubAnswer, HubEnd, hub_call}

module _ (panic_message : ℤ → String) where
  -- `TelemetryHub.Rename`
  unfoldable pub hub_rename :
      (String → Pointer → HubAnswer (Unit {0})) → String → TelemetryHub → HubEnd (Unit {0})
  hub_rename native new_name =
      hub_call panic_message "TelemetryHub.Rename" (native new_name) (λ u. u)

  -- `TelemetryHub.SetMode`
  unfoldable pub hub_set_mode : (ℕ → Pointer → HubAnswer ℕ) → ℕ → TelemetryHub → HubEnd ℕ
  hub_set_mode native new_mode =
      hub_call panic_message "TelemetryHub.SetMode" (native new_mode) (λ result. result)

  -- `TelemetryHub.SetOverflowPolicy`
  unfoldable pub hub_set_overflow_policy : (ℕ → Pointer → HubAnswer ℕ) → ℕ → TelemetryHub → HubEnd ℕ
  hub_set_overflow_policy native new_policy =
      hub_call panic_message "TelemetryHub.SetOverflowPolicy" (native new_policy) (λ result. result)

  -- `TelemetryHub.SetEnabled`
  unfoldable pub hub_set_enabled : (ℕ → Pointer → HubAnswer ℕ) → Bool → TelemetryHub → HubEnd Bool
  hub_set_enabled native new_enabled =
      hub_call panic_message "TelemetryHub.SetEnabled" (native (bool_to_uint8 new_enabled))
        (λ result. not (result == 0))

  -- `TelemetryHub.SetThreshold`
  unfoldable pub hub_set_threshold :
      (ℕ → Pointer → HubAnswer (Unit {0})) → ℕ → TelemetryHub → HubEnd (Unit {0})
  hub_set_threshold native new_threshold =
      hub_call panic_message "TelemetryHub.SetThreshold" (native new_threshold) (λ u. u)

  -- `TelemetryHub.SetScaleFactor`
  unfoldable pub hub_set_scale_factor :
      (ℕ → Pointer → HubAnswer (Unit {0})) → ℕ → TelemetryHub → HubEnd (Unit {0})
  hub_set_scale_factor native new_factor =
      hub_call panic_message "TelemetryHub.SetScaleFactor" (native new_factor) (λ u. u)

  -- `TelemetryHub.SetOffset`
  unfoldable pub hub_set_offset :
      (ℕ → Pointer → HubAnswer (Unit {0})) → ℕ → TelemetryHub → HubEnd (Unit {0})
  hub_set_offset native new_offset =
      hub_call panic_message "TelemetryHub.SetOffset" (native new_offset) (λ u. u)

  -- `TelemetryHub.Push`
  unfoldable pub hub_push :
      (ℕ → ℕ → Pointer → HubAnswer (Unit {0})) → ℕ → ℕ → TelemetryHub → HubEnd (Unit {0})
  hub_push native id value = hub_call panic_message "TelemetryHub.Push" (native id value) (λ u. u)

  -- `TelemetryHub.PushWithSeverity`
  unfoldable pub hub_push_with_severity :
      (ℕ → ℕ → ℕ → Pointer → HubAnswer (Unit {0})) → ℕ → ℕ → ℕ → TelemetryHub → HubEnd (Unit {0})
  hub_push_with_severity native id value severity =
      hub_call panic_message "TelemetryHub.PushWithSeverity" (native id value severity) (λ u. u)

  -- `TelemetryHub.PushBatch`
  unfoldable pub hub_push_batch :
      (List ℕ → Pointer → HubAnswer (Unit {0})) → List ℕ → TelemetryHub → HubEnd (Unit {0})
  hub_push_batch native values =
      hub_call panic_message "TelemetryHub.PushBatch" (native values) (λ u. u)

  -- `TelemetryHub.Process`
  unfoldable pub hub_process : (ℕ → Pointer → HubAnswer ℕ) → ℕ → TelemetryHub → HubEnd ℕ
  hub_process native limit =
      hub_call panic_message "TelemetryHub.Process" (native limit) (λ result. result)

  -- `TelemetryHub.ProcessAll`
  unfoldable pub hub_process_all : (Pointer → HubAnswer ℕ) → TelemetryHub → HubEnd ℕ
  hub_process_all native =
      hub_call panic_message "TelemetryHub.ProcessAll" native (λ result. result)

  -- `TelemetryHub.Clear`
  unfoldable pub hub_clear : (Pointer → HubAnswer ℕ) → TelemetryHub → HubEnd ℕ
  hub_clear native = hub_call panic_message "TelemetryHub.Clear" native (λ result. result)

  -- `TelemetryHub.ResetStatistics`
  unfoldable pub hub_reset_statistics :
      (Pointer → HubAnswer (Unit {0})) → TelemetryHub → HubEnd (Unit {0})
  hub_reset_statistics native =
      hub_call panic_message "TelemetryHub.ResetStatistics" native (λ u. u)

  -- `TelemetryHub.CountAbove`
  unfoldable pub hub_count_above : (ℕ → Pointer → HubAnswer ℕ) → ℕ → TelemetryHub → HubEnd ℕ
  hub_count_above native boundary =
      hub_call panic_message "TelemetryHub.CountAbove" (native boundary) (λ result. result)

  -- `TelemetryHub.CountBelow`
  unfoldable pub hub_count_below : (ℕ → Pointer → HubAnswer ℕ) → ℕ → TelemetryHub → HubEnd ℕ
  hub_count_below native boundary =
      hub_call panic_message "TelemetryHub.CountBelow" (native boundary) (λ result. result)

  -- `TelemetryHub.ContainsAbove`
  unfoldable pub hub_contains_above : (ℕ → Pointer → HubAnswer ℕ) → ℕ → TelemetryHub → HubEnd Bool
  hub_contains_above native boundary =
      hub_call panic_message "TelemetryHub.ContainsAbove" (native boundary)
        (λ result. not (result == 0))

  -- `TelemetryHub.ContainsBelow`
  unfoldable pub hub_contains_below : (ℕ → Pointer → HubAnswer ℕ) → ℕ → TelemetryHub → HubEnd Bool
  hub_contains_below native boundary =
      hub_call panic_message "TelemetryHub.ContainsBelow" (native boundary)
        (λ result. not (result == 0))

  -- `TelemetryHub.ScaleValues`
  unfoldable pub hub_scale_values :
      (ℕ → Pointer → HubAnswer (Unit {0})) → ℕ → TelemetryHub → HubEnd (Unit {0})
  hub_scale_values native factor =
      hub_call panic_message "TelemetryHub.ScaleValues" (native factor) (λ u. u)

  -- `TelemetryHub.OffsetValues`
  unfoldable pub hub_offset_values :
      (ℕ → Pointer → HubAnswer (Unit {0})) → ℕ → TelemetryHub → HubEnd (Unit {0})
  hub_offset_values native delta =
      hub_call panic_message "TelemetryHub.OffsetValues" (native delta) (λ u. u)

  -- `TelemetryHub.ClampValues`
  unfoldable pub hub_clamp_values :
      (ℕ → ℕ → Pointer → HubAnswer (Unit {0})) → ℕ → ℕ → TelemetryHub → HubEnd (Unit {0})
  hub_clamp_values native lower upper =
      hub_call panic_message "TelemetryHub.ClampValues" (native lower upper) (λ u. u)

  -- `TelemetryHub.AbsoluteValues`
  unfoldable pub hub_absolute_values :
      (Pointer → HubAnswer (Unit {0})) → TelemetryHub → HubEnd (Unit {0})
  hub_absolute_values native = hub_call panic_message "TelemetryHub.AbsoluteValues" native (λ u. u)

  -- `TelemetryHub.NegateValues`
  unfoldable pub hub_negate_values :
      (Pointer → HubAnswer (Unit {0})) → TelemetryHub → HubEnd (Unit {0})
  hub_negate_values native = hub_call panic_message "TelemetryHub.NegateValues" native (λ u. u)
