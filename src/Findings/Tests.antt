-- ===== src/Findings/Tests.antt =====
-- A batch's state in use: runs of runtime-batch-state.ts, and its theorems at concrete states.
use trade_compliance_classif.Prelude.{
  filter, ◌≡◌, refl, inl, true, false, not, ◌&&◌, none, some, List, [], ◌∷◌, String, All,
}
use trade_compliance_classif.Prelude.Sets.{has, IsDistinct, dedup}
use trade_compliance_classif.Prelude.Text.{text_runs}
use trade_compliance_classif.Types.{success, AgentRole, Batch, BatchType, BatchResult, GateResult}
use trade_compliance_classif.Flags.{is_blocking_flag, runs}
use trade_compliance_classif.Findings.{
  FindingStatus, open_finding, fixed, RiskClass, RuntimeFinding, RuntimeBatchState, get, put, by_id,
}
use trade_compliance_classif.Findings.Evidence.{
  has_fix_evidence_from_flags, fixed_prefixes, invalid_placeholder, has_passing_command_evidence,
  is_passing, is_runtime_only_artifact_path, is_runtime_only_result, finding_matches_fixed_prefix,
  positive_flag_closes_finding, is_stale_blocking_flag, match_entrypoint, code_closes,
  entrypoint_closes, normalize_finding_token, drop_article, drop_outer_underscores, special_closes,
  business_closes, match_business, business_group, strip_one_of, flag_detail,
  entrypoint_subject_matches, singularize_finding_token, business_subject_matches,
}
use trade_compliance_classif.Findings.Close.{
  is_product_owned_finding, is_product_code, normalize_finding, normalize_canonical_findings,
  merge_findings, reconcile_findings, can_result_close_findings_by_flag, close_by_flags,
  close_findings_on_successful_validation, close_aggregate_findings, close_aggregate,
  has_open_wiring, rebuild_active_findings_from_trusted_latest_evidence,
  is_trusted_successful_recovery_evidence, quarantine_tooling,
  is_runtime_support_or_tooling_finding, is_open_wiring_finding_except_aggregate,
  quarantine_runtime_owned, is_runtime_owned_finding, active_blocking, close_on_validation,
}
use trade_compliance_classif.Findings.State.{
  settled_ids, canonical_flags, canonicalize_batch_result_for_runtime, findings_from_result,
  import_findings, import_agent_result_to_state, hard_flags, cleared_flags, all_cleared,
  all_warnings, gate_state, raise_flags, gate_round, gate_rounds, close_cleared,
  transition_findings_for_gates, record_gate_state, written_state, finding_summary,
  closure_traces_from_diff, normalize_artifacts, evidence_for_finding,
}
use trade_compliance_classif.Findings.Maps.{last, Settles, Retains, IsOpenIn}
use trade_compliance_classif.Findings.Passes.{IsProductId}
use trade_compliance_classif.Findings.Gates.{record_gate_state-Settles}
use trade_compliance_classif.Findings.Raising.{record_gate_state_open}
use trade_compliance_classif.Findings.Import.{with_result, import_agent_result_to_state-Settles}
use trade_compliance_classif.Findings.Reporting.{import_agent_result_to_state_open}
use trade_compliance_classif.Findings.Canonical.{
  IsCanonical, IsClosure, stays, told, statuses, became_closed, findings-IsCanonical,
  canonicalize_batch_result_for_runtime-IsLive, closure_traces_from_diff-IsClosure,
}

-- All that a run computes with.
unfoldable findings_run : Unit {0}
unfolding runs text_runs by_id dedup get put has_fix_evidence_from_flags fixed_prefixes
    invalid_placeholder has_passing_command_evidence is_passing is_runtime_only_artifact_path
    is_runtime_only_result finding_matches_fixed_prefix positive_flag_closes_finding
    is_stale_blocking_flag match_entrypoint code_closes entrypoint_closes normalize_finding_token
    drop_article drop_outer_underscores special_closes business_closes match_business business_group
    strip_one_of flag_detail entrypoint_subject_matches singularize_finding_token
    business_subject_matches is_product_owned_finding is_product_code normalize_finding
    normalize_canonical_findings merge_findings reconcile_findings can_result_close_findings_by_flag
    close_by_flags close_findings_on_successful_validation close_aggregate_findings close_aggregate
    has_open_wiring rebuild_active_findings_from_trusted_latest_evidence
    is_trusted_successful_recovery_evidence quarantine_tooling is_runtime_support_or_tooling_finding
    is_open_wiring_finding_except_aggregate quarantine_runtime_owned is_runtime_owned_finding
    active_blocking close_on_validation settled_ids canonical_flags
    canonicalize_batch_result_for_runtime findings_from_result import_findings
    import_agent_result_to_state hard_flags cleared_flags all_cleared all_warnings gate_state
    raise_flags gate_round gate_rounds close_cleared transition_findings_for_gates record_gate_state
    finding_summary normalize_artifacts evidence_for_finding
findings_run = tt

abbrev result_with : List String → BatchResult
result_with flags = record {
  schema_version = 1;
  agent = AgentRole.implement;
  batch = 3;
  status = success;
  items_completed = [];
  files_changed = "a.ts" ∷ [];
  tests = [];
  wiring = none;
  project_local_checks = none;
  business_logic = none;
  artifacts = [];
  local_only_files = none;
  inbox = none;
  failure_type = none;
  flags = flags;
  commit = none;
}

abbrev tenant_gap : String
tenant_gap = "TENANT_CHECK_MISSING:a.ts"

abbrev a_finding : String → FindingStatus → RuntimeFinding
a_finding id status = record {
  id = id;
  source = "implement";
  status = status;
  evidence = [];
  last_checked_at = "t0";
}

abbrev state_with : List RuntimeFinding → RuntimeBatchState
state_with findings = record {
  batch = 3;
  selected_items = [];
  changed_files = [];
  risk = record { class = RiskClass.low; reasons = [] };
  current_result = result_with [];
  findings = findings;
  commands = [];
  gates = [];
  closure_traces = [];
  open_explanations = [];
  updated_at = "t0";
}

abbrev batch_3 : Batch
batch_3 = record {
  number = 3;
  items = [];
  type = BatchType.implement;
  support_kind = none;
  support_scope = none;
}

abbrev wiring_gate : GateResult
wiring_gate = record { name = "wiring"; passed = false; flags = tenant_gap ∷ "WORKER_PASS" ∷ [] }

evidence_run :
    (has_fix_evidence_from_flags
        ("ENTRYPOINT_VERIFIED_SYNC_WORKERS" ∷ [])
        "ENTRYPOINT_UNVERIFIED_SYNC_WORKER"
      ≡ true)
    × (has_fix_evidence_from_flags
          ("BUSINESS_LOGIC_PRICING_PASS" ∷ [])
          "BUSINESS_LOGIC_GAP_PRICING_X"
        ≡ true)
    × (has_fix_evidence_from_flags ("TENANT_CHECK_FIXED" ∷ []) "TENANT_CHECK_MISSING" ≡ true)
    × (has_fix_evidence_from_flags ("OTHER_PASS" ∷ []) tenant_gap ≡ false)
unfolding findings_run
evidence_run = (refl, refl, refl, refl)

product_gap : IsProductId tenant_gap
unfolding findings_run
product_gap = record { owned = refl; not_positive = refl; not_recovered = refl }

record_gate_state_run :
    get tenant_gap (record_gate_state "t1" (state_with []) (wiring_gate ∷ [])).findings
    ≡ some (record {
      id = tenant_gap;
      source = "gate:wiring";
      status = open_finding;
      evidence = tenant_gap ∷ "WORKER_PASS" ∷ [];
      last_checked_at = "t1";
    })
unfolding findings_run
record_gate_state_run = refl

record_gate_state_open_example :
    IsOpenIn tenant_gap (record_gate_state "t1" (state_with []) (wiring_gate ∷ [])).findings
unfolding findings_run
record_gate_state_open_example =
    record_gate_state_open tenant_gap "t1" (state_with []) (wiring_gate ∷ []) product_gap tt
      (inl refl) refl refl refl

record_gate_state-Settles_example :
    Settles (last tenant_gap (state_with (a_finding tenant_gap fixed ∷ [])).findings) (
      get tenant_gap
        (record_gate_state "t1"
          (state_with (a_finding tenant_gap fixed ∷ []))
          (wiring_gate ∷ [])).findings)
record_gate_state-Settles_example =
    record_gate_state-Settles "t1" (state_with (a_finding tenant_gap fixed ∷ [])) (wiring_gate ∷ [])
      tenant_gap

import_agent_result_to_state-Settles_example :
    Retains
      (last tenant_gap (
        with_result "t1" batch_3 "validate"
          (result_with [])
          (state_with (a_finding tenant_gap fixed ∷ []))))
      (get tenant_gap
        (import_agent_result_to_state "t1" batch_3 "validate"
          (result_with [])
          (state_with (a_finding tenant_gap fixed ∷ []))).findings)
import_agent_result_to_state-Settles_example =
    import_agent_result_to_state-Settles "t1" batch_3 "validate" (result_with [])
      (state_with (a_finding tenant_gap fixed ∷ [])) tenant_gap

import_agent_result_to_state_open_example :
    IsOpenIn tenant_gap
      (import_agent_result_to_state "t1" batch_3 "bugfix"
        (result_with (tenant_gap ∷ []))
        (state_with [])).findings
unfolding findings_run
import_agent_result_to_state_open_example =
    import_agent_result_to_state_open tenant_gap "t1" batch_3 "bugfix"
      (result_with (tenant_gap ∷ [])) (state_with []) product_gap (inl refl) refl

findings-IsCanonical_example :
    All IsCanonical
      (import_agent_result_to_state "t1" batch_3 "validate"
        (result_with [])
        (state_with [])).findings
    × All IsCanonical (record_gate_state "t1" (state_with []) (wiring_gate ∷ [])).findings
    × All IsCanonical (written_state "t1" (state_with [])).findings
findings-IsCanonical_example =
    findings-IsCanonical "t1" batch_3 "validate" (result_with []) (state_with []) (wiring_gate ∷ [])

canonicalize_batch_result_for_runtime-IsLive_example :
    let result =
      canonicalize_batch_result_for_runtime batch_3 (result_with (tenant_gap ∷ "none" ∷ [])) [] in
    ((flag : String)
      → (has result.flags flag && is_blocking_flag flag) ≡ (
          has (tenant_gap ∷ "none" ∷ []) flag
          && is_blocking_flag flag
          && stays (settled_ids []) (fixed_prefixes (tenant_gap ∷ "none" ∷ [])) flag))
    × IsDistinct result.files_changed
    × ((file : String)
        → has result.files_changed file
          ≡ (has ("a.ts" ∷ []) file && not (invalid_placeholder file)))
canonicalize_batch_result_for_runtime-IsLive_example =
    canonicalize_batch_result_for_runtime-IsLive batch_3 (result_with (tenant_gap ∷ "none" ∷ [])) []

closure_traces_from_diff-IsClosure_example :
    let before = a_finding tenant_gap open_finding ∷ [] in
    let after = a_finding tenant_gap fixed ∷ [] in
    let traces = closure_traces_from_diff before after "validate-evidence" [] "t1" in
    (told traces ≡ statuses (filter (became_closed before) after)) × All (IsClosure before) traces
closure_traces_from_diff-IsClosure_example =
    closure_traces_from_diff-IsClosure (a_finding tenant_gap open_finding ∷ [])
      (a_finding tenant_gap fixed ∷ []) "validate-evidence" [] "t1"

summary_run :
    ((finding_summary (state_with (a_finding tenant_gap fixed ∷ []))).fixed_count ≡ 1)
    × ((finding_summary (state_with (a_finding tenant_gap fixed ∷ []))).open_count ≡ 0)
unfolding finding_summary findings_run
summary_run = (refl, refl)
