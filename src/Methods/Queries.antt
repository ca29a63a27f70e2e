-- ===== src/Methods/Queries.antt =====
-- The methods of the form `call` (event_queue_gen.go). The argument `native` is what the raw
-- function returned, and the next one the value beside the code, as the raw layer hands it out.
use zigo.Prelude.{ℕ, Bool, List, map, String}
use zigo.Prelude.Int.{ℤ}
use zigo.Conversions.{
  Stats, StatsData, Limits, LimitsData, stats_from_raw, stats_slice_to_raw, stats_slice_from_raw,
  stats_slice_copy_from_raw, limits_to_raw, limits_from_raw, limits_slice_view, to_int,
}
use zigo.Handle.Common.{Pointer, Result, ok, err}
use zigo.Handle.EventQueue as Queue
use zigo.Handle.EventQueue.{EventQueue}
use zigo.Methods.{Runtime, Native, Outcome, returns, fails, panics, call}

-- `zigoMust`: an error is raised as a panic
unfoldable pub must {ℓ} : {A : Type ℓ} → Outcome A → Outcome A
must (returns value) = returns value
must (fails e) = panics e
must (panics e) = panics e

-- A buffer that the raw function writes, and that a refused call leaves alone
abbrev if_entered : {A : Type 0} → EventQueue × Result Pointer → A → A → A
if_entered (queue, ok p) before after = after
if_entered (queue, err e) before after = before

module _ (panic_message : ℤ → String) where
  -- `Process`
  abbrev pub queue_process : Native → ℕ → Runtime → Runtime × Outcome ℕ
  queue_process native result = call panic_message "EventQueue.Process" native result

  -- `Name`
  abbrev pub queue_name : Native → String → Runtime → Runtime × Outcome String
  queue_name native result = call panic_message "EventQueue.Name" native result

  -- `SampleValues`
  abbrev pub queue_sample_values : Native → List ℕ → Runtime → Runtime × Outcome (List ℕ)
  queue_sample_values native result = call panic_message "EventQueue.SampleValues" native result

  -- `SampleValuesChecked`
  abbrev pub queue_sample_values_checked : Native → List ℕ → Runtime → Runtime × Outcome (List ℕ)
  queue_sample_values_checked native result =
      call panic_message "EventQueue.SampleValuesChecked" native result

  -- `SelectionString`
  abbrev pub queue_selection_string :
      Native → (List ℕ × Bool) → Runtime → Runtime × Outcome (List ℕ × Bool)
  queue_selection_string native result =
      call panic_message "EventQueue.SelectionString" native result

  -- `ExtractSamples`
  abbrev pub queue_extract_samples : Native → List ℕ → Runtime → Runtime × Outcome (List ℕ)
  queue_extract_samples native result = call panic_message "EventQueue.ExtractSamples" native result

  -- `ExtractSamplesChecked`
  abbrev pub queue_extract_samples_checked : Native → List ℕ → Runtime → Runtime × Outcome (List ℕ)
  queue_extract_samples_checked native result =
      call panic_message "EventQueue.ExtractSamplesChecked" native result

  -- `ExtractLimits`
  abbrev pub queue_extract_limits :
      Native → List LimitsData → Runtime → Runtime × Outcome (List Limits)
  queue_extract_limits native result =
      call panic_message "EventQueue.ExtractLimits" native (limits_slice_view result)

  -- `ExtractSamplesInto`: the raw function writes `dst` in place, if the call gets in.
  unfoldable pub queue_extract_samples_into :
      (List ℕ → Native × ℕ × List ℕ) → List ℕ → Runtime → Runtime × Outcome ℕ × List ℕ
  queue_extract_samples_into raw dst s =
      let (native, result, written) = raw dst in
      let (s', outcome) = call panic_message "EventQueue.ExtractSamplesInto" native result s in
      (
        s',
        outcome,
        if_entered (Queue.acquire "EventQueue.ExtractSamplesInto receiver" s.queue) dst written,
      )

  -- `LimitsInto`, which hands on the memory of `dst` as raw rows
  unfoldable pub queue_limits_into :
      (List LimitsData → Native × ℕ × List LimitsData)
      → List Limits
      → Runtime
      → Runtime × Outcome ℕ × List Limits
  queue_limits_into raw dst s =
      let (native, result, written) = raw (map limits_to_raw dst) in
      let (s', outcome) = call panic_message "EventQueue.LimitsInto" native result s in
      (
        s',
        outcome,
        if_entered (Queue.acquire "EventQueue.LimitsInto receiver" s.queue) dst
            (limits_slice_view written),
      )

  -- `SampleStats`
  abbrev pub queue_sample_stats : Native → List StatsData → Runtime → Runtime × Outcome (List Stats)
  queue_sample_stats native result =
      call panic_message "EventQueue.SampleStats" native (stats_slice_from_raw result)

  -- `SampleLimits`
  abbrev pub queue_sample_limits :
      Native → List LimitsData → Runtime → Runtime × Outcome (List Limits)
  queue_sample_limits native result =
      call panic_message "EventQueue.SampleLimits" native (limits_slice_view result)

  -- `Len`
  abbrev pub queue_len : Native → ℕ → Runtime → Runtime × Outcome ℕ
  queue_len native result = call panic_message "EventQueue.Len" native result

  -- `Capacity`
  abbrev pub queue_capacity : Native → ℕ → Runtime → Runtime × Outcome ℕ
  queue_capacity native result = call panic_message "EventQueue.Capacity" native result

  -- `Policy`
  abbrev pub queue_policy : Native → ℕ → Runtime → Runtime × Outcome ℕ
  queue_policy native result = call panic_message "EventQueue.Policy" native result

  -- `Dropped`
  abbrev pub queue_dropped : Native → ℕ → Runtime → Runtime × Outcome ℕ
  queue_dropped native result = call panic_message "EventQueue.Dropped" native result

  -- `Processed`
  abbrev pub queue_processed : Native → ℕ → Runtime → Runtime × Outcome ℕ
  queue_processed native result = call panic_message "EventQueue.Processed" native result

  -- `Stats`
  abbrev pub queue_stats : Native → StatsData → Runtime → Runtime × Outcome Stats
  queue_stats native result = call panic_message "EventQueue.Stats" native (stats_from_raw result)

  -- `Limits`
  abbrev pub queue_limits : Native → LimitsData → Runtime → Runtime × Outcome Limits
  queue_limits native result =
      call panic_message "EventQueue.Limits" native (limits_from_raw result)

  -- `Clear`
  abbrev pub queue_clear : Native → ℕ → Runtime → Runtime × Outcome ℕ
  queue_clear native result = call panic_message "EventQueue.Clear" native result

  -- `ApplyLimits`, with the raw function of the limits that it is given
  abbrev pub queue_apply_limits :
      (LimitsData → Native) → Limits → Runtime → Runtime × Outcome (Unit {0})
  queue_apply_limits raw updated =
      call panic_message "EventQueue.ApplyLimits" (raw (limits_to_raw updated)) tt

  -- `AcceptStats`
  abbrev pub queue_accept_stats :
      (List StatsData → Native × ℕ) → List Stats → Runtime → Runtime × Outcome ℕ
  queue_accept_stats raw values =
      let (native, result) = raw (stats_slice_to_raw values) in
      call panic_message "EventQueue.AcceptStats" native result

  -- `Estimate`: the raw function writes the lent buffer, given as `scratch`, and what it leaves there is
  -- copied to `output` after a success.
  abbrev pub estimated :
      List Stats → List StatsData → Runtime × Outcome ℕ → Runtime × Outcome ℕ × List Stats
  estimated output written (s, returns result) =
      (s, returns result, stats_slice_copy_from_raw output written (to_int result))
  estimated output written (s, fails e) = (s, fails e, output)
  estimated output written (s, panics e) = (s, panics e, output)

  unfoldable pub queue_estimate :
      (List StatsData → Native × ℕ × List StatsData)
      → List StatsData
      → List Stats
      → Runtime
      → Runtime × Outcome ℕ × List Stats
  queue_estimate raw scratch output s =
      let (native, result, written) = raw scratch in
      estimated output written (call panic_message "EventQueue.Estimate" native result s)
