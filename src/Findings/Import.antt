-- ===== src/Findings/Import.antt =====
-- What an agent's result does to the findings: `importAgentResultToState` of runtime-batch-state.ts.
use trade_compliance_classif.Prelude.{
  inl, inr, Bool, true, false, not, ◌&&◌, ◌||◌, List, ◌++◌, map, String, if◌then◌else◌, Bool-cases,
  filter,
}
use trade_compliance_classif.Types.{Batch, BatchResult, is_success}
use trade_compliance_classif.Findings.{RuntimeFinding, RuntimeBatchState, get}
use trade_compliance_classif.Findings.Evidence.{
  is_runtime_only_result, has_passing_command_evidence,
}
use trade_compliance_classif.Findings.Close.{
  is_bugfix, is_validate, normalize_finding, normalize_canonical_findings, merge_findings,
  quarantine_runtime_owned, close_by_flags, can_result_close_findings_by_flag, reconcile_findings,
  active_blocking, close_on_validation, close_findings_on_successful_validation, close_aggregate,
  close_aggregate_findings, quarantine_tooling,
  rebuild_active_findings_from_trusted_latest_evidence, is_trusted_successful_recovery_evidence,
}
use trade_compliance_classif.Findings.State.{
  canonicalize_batch_result_for_runtime, findings_from_result, import_findings,
  import_agent_result_to_state,
}
use trade_compliance_classif.Flags.{is_blocking_flag}
use trade_compliance_classif.Findings.Maps.{
  last, get-merge_findings, Retains, Retains-status, Retains-map,
}
use trade_compliance_classif.Findings.Passes.{
  normalize_finding-Closes, quarantine_runtime_owned-Closes, close_by_flags-Closes,
  close_on_validation-Closes, close_aggregate-Closes, quarantine_tooling-Closes,
}

-- A property of the findings goes through the passes of an import if it goes through each.
module _ {ℓ} (P : List RuntimeFinding → Type ℓ) (now source : String) (result : BatchResult)
    (owned : (fs : List RuntimeFinding) → P fs → P (map (quarantine_runtime_owned now) fs))
    (flagged : (fs : List RuntimeFinding) → P fs → P (map (close_by_flags result.flags now) fs))
    (validated : (fs : List RuntimeFinding)
      → P fs
      → P (map (close_on_validation (active_blocking result) now) fs))
    (aggregate : (wiring : Bool) (fs : List RuntimeFinding)
      → P fs
      → P (map (close_aggregate wiring now) fs))
    (tooling : (active : List String) (fs : List RuntimeFinding)
      → P fs
      → P (map (quarantine_tooling active now) fs))
    (normal : (fs : List RuntimeFinding) → P fs → P (map (normalize_finding now) fs)) where
  rebuilt :
      (fs : List RuntimeFinding)
      → P fs
      → P (rebuild_active_findings_from_trusted_latest_evidence now fs result source)
  unfolding rebuild_active_findings_from_trusted_latest_evidence
  rebuilt fs h = elim (Bool-cases (is_trusted_successful_recovery_evidence result source)) [
    | inl trusted ↦ rw trusted (tooling (filter is_blocking_flag result.flags) fs h)
    | inr untrusted ↦ rw untrusted h
  ]

  closed :
      (fs : List RuntimeFinding)
      → P fs
      → P (close_findings_on_successful_validation now fs result source)
  unfolding close_findings_on_successful_validation
  closed fs h =
      elim (Bool-cases (
        not (is_validate source)
        || not (is_success result.status)
        || not (has_passing_command_evidence result))) [
          | inl idle ↦ rw idle h
          | inr passing ↦ rw passing (validated fs h)
        ]

  quarantined :
      (b : Bool) (fs : List RuntimeFinding)
      → P fs
      → P (if b then map (quarantine_runtime_owned now) fs else fs)
  quarantined true fs h = owned fs h
  quarantined false fs h = h

  reconciled :
      (fs : List RuntimeFinding)
      → P (merge_findings fs)
      → P (reconcile_findings now fs result source)
  unfolding reconcile_findings
  reconciled fs h =
      let h' =
        quarantined
          (is_bugfix source && is_runtime_only_result result && has_passing_command_evidence result)
          (merge_findings fs) h in
      elim (Bool-cases (can_result_close_findings_by_flag result source)) [
        | inl can ↦ rw can (flagged _ h')
        | inr cannot ↦ rw cannot h'
      ]

  pub through_import :
      (fs : List RuntimeFinding)
      → P (merge_findings (fs ++ findings_from_result now source result))
      → P (import_findings now fs result source)
  unfolding import_findings close_aggregate_findings normalize_canonical_findings
  through_import fs h = normal _ (rebuilt _ (aggregate _ _ (closed _ (reconciled _ h))))

-- The findings before an import with those of the result behind them.
abbrev pub with_result :
    String → Batch → String → BatchResult → RuntimeBatchState → List RuntimeFinding
with_result now batch source raw base =
    base.findings
    ++ findings_from_result now source
        (canonicalize_batch_result_for_runtime batch raw base.findings)

-- An import loses no finding, and opens only what the result reports: whatever was held under an id,
-- by the state or else by the findings of the canonical result, is still held, and is open only if it
-- was open there; and what neither holds is not held afterwards.
pub import_agent_result_to_state-Settles :
    (now : String) (batch : Batch) (source : String) (raw : BatchResult) (base : RuntimeBatchState)
    (id : String)
    → Retains
        (last id (with_result now batch source raw base))
        (get id (import_agent_result_to_state now batch source raw base).findings)
unfolding import_agent_result_to_state
import_agent_result_to_state-Settles now batch source raw base id =
    let result = canonicalize_batch_result_for_runtime batch raw base.findings in
    let before = last id (with_result now batch source raw base) in
    through_import (λ fs. Retains before (get id fs)) now source result
      (λ fs h.
        Retains-map (quarantine_runtime_owned now) id fs before
          (quarantine_runtime_owned-Closes now) h)
      (λ fs h.
        Retains-map (close_by_flags result.flags now) id fs before
          (close_by_flags-Closes result.flags now) h)
      (λ fs h.
        Retains-map (close_on_validation (active_blocking result) now) id fs before
          (close_on_validation-Closes (active_blocking result) now) h)
      (λ wiring fs h.
        Retains-map (close_aggregate wiring now) id fs before (close_aggregate-Closes wiring now) h)
      (λ active fs h.
        Retains-map (quarantine_tooling active now) id fs before
          (quarantine_tooling-Closes active now) h)
      (λ fs h. Retains-map (normalize_finding now) id fs before (normalize_finding-Closes now) h)
      base.findings
      (Retains-status before _ (get-merge_findings id (with_result now batch source raw base)))
