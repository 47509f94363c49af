-- ===== src/Findings/State.antt =====
-- The operations of runtime-batch-state.ts on a batch's state: an agent's result comes in, or the
-- gates' verdicts do.
use trade_compliance_classif.Prelude.{
  ℕ, suc, Bool, true, false, not, ◌&&◌, ◌||◌, Option, none, some, List, [], ◌∷◌, ◌++◌, map, String,
  ◌==◌, if◌then◌else◌, any, all, filter, is_empty,
}
use trade_compliance_classif.Prelude.Text.{◌⧺◌, text_eq, starts_with, includes, drop_text}
use trade_compliance_classif.Prelude.Sets.{has, dedup, set_add_all}
use trade_compliance_classif.Types.{Batch, Artifact, BusinessLogic, BatchResult, GateResult}
use trade_compliance_classif.Flags.{
  is_positive_flag, is_blocking_flag, is_warning_flag, fixed_finding_prefix, recovered_source,
}
use trade_compliance_classif.Findings.{
  FindingStatus, open_finding, fixed, stale, accepted, human, RuntimeFinding,
  RuntimeCommandEvidence, RuntimeClosureTrace, RuntimeOpenExplanation, GateState, RuntimeBatchState,
  is_open, get, put, by_id,
}
use trade_compliance_classif.Findings.Evidence.{
  is_source_path, is_runtime_only_result, has_passing_command_evidence, invalid_placeholder,
  fixed_prefixes, has_fix_evidence_from_flags, positive_flag_closes_finding, is_stale_blocking_flag,
  is_nonempty,
}
use trade_compliance_classif.Findings.Close.{
  is_bugfix, is_validate, closed_as, normalize_canonical_findings, reconcile_findings,
  close_findings_on_successful_validation, close_aggregate_findings, close_by_flags, aggregate_id,
  rebuild_active_findings_from_trusted_latest_evidence,
}

-- `status === "fixed" || status === "stale" || status === "accepted"`
abbrev pub is_settled : FindingStatus → Bool
is_settled fixed = true
is_settled stale = true
is_settled accepted = true
is_settled _ = false

ids : List RuntimeFinding → List String
ids fs = map (λ f. f.id) fs

unfoldable pub settled_ids : List RuntimeFinding → List String
unfolding ids
settled_ids fs = ids (filter (λ f. is_settled f.status) fs)

abbrev pub demote : List String → List String → String → String
demote settled fixes flag =
    if has settled flag || has fixes flag then recovered_source ⧺ flag else flag

unfoldable pub canonical_flags : List String → List String → List String → List String
canonical_flags settled fixes flags =
    filter (λ flag. not (is_stale_blocking_flag fixes flag))
      (map (demote settled fixes) (filter (λ flag. not (invalid_placeholder flag)) flags))

unfoldable pub normalize_artifacts : List Artifact → List Artifact
normalize_artifacts artifacts = filter (λ a. not (invalid_placeholder a.path)) artifacts

unfoldable pub canonicalize_batch_result_for_runtime :
    Batch → BatchResult → List RuntimeFinding → BatchResult
canonicalize_batch_result_for_runtime batch result findings = record result {
  schema_version = 1;
  batch = if result.batch == 0 then batch.number else result.batch;
  files_changed = dedup (filter (λ file. not (invalid_placeholder file)) result.files_changed);
  artifacts = normalize_artifacts result.artifacts;
  flags = canonical_flags (settled_ids findings) (fixed_prefixes result.flags) result.flags;
}

-- `[result.failureType, ...flags, result.businessLogic?.test]`, where it is defined and holds the id.
abbrev option_list : Option String → List String
option_list none = []
option_list (some s) = s ∷ []

abbrev business_test : Option BusinessLogic → List String
business_test none = []
business_test (some b) = b.test ∷ []

unfoldable pub evidence_for_finding : BatchResult → String → List String
evidence_for_finding result id =
    filter (λ value. (not (text_eq value "") && includes value id) || text_eq value id)
      (option_list result.failure_type ++ result.flags ++ business_test result.business_logic)

abbrev pub truthy_list : Option String → List String
truthy_list none = []
truthy_list (some s) = if text_eq s "" then [] else s ∷ []

unfoldable pub findings_from_result : String → String → BatchResult → List RuntimeFinding
findings_from_result now source result =
    map
      (λ id. record {
        id = id;
        source = source;
        status = open_finding;
        evidence = evidence_for_finding result id;
        last_checked_at = now;
      })
      (set_add_all (truthy_list result.failure_type) (filter is_blocking_flag result.flags))

unfoldable pub commands_from_result : String → String → BatchResult → List RuntimeCommandEvidence
commands_from_result now source result =
    map
      (λ entry. record {
        phase = entry.0;
        command = entry.1.command;
        exit_code = entry.1.exit_code;
        source = source;
        completed_at = now;
      })
      (filter
        (λ entry. not (text_eq entry.1.command "") && not (invalid_placeholder entry.1.command))
        result.tests)

unfoldable pub blocking_open_findings : RuntimeBatchState → List RuntimeFinding
blocking_open_findings state =
    filter (λ f. is_open f.status && not (is_warning_flag none f.id) && not (is_positive_flag f.id))
      state.findings

unfoldable pub open_finding_reason : BatchResult → RuntimeFinding → String
open_finding_reason result f =
    if any (λ flag. positive_flag_closes_finding flag f.id) result.flags
    then "positive evidence is present but closure guard rejected it; check runtime-only command evidence and recovery merge filtering"
    else if starts_with f.source "gate:"
    then "latest gate evidence still marks " ⧺ drop_text 5 f.source ⧺ " as blocking"
    else if is_runtime_only_result result && not (has_passing_command_evidence result)
    then "runtime-only result lacks passing command evidence required to close canonical findings"
    else "no matching accepted positive evidence has closed this finding"

unfoldable pub explain_open_findings : String → RuntimeBatchState → List RuntimeOpenExplanation
explain_open_findings now state =
    map
      (λ f. record {
        finding_id = f.id;
        reason = open_finding_reason state.current_result f;
        evidence = f.evidence;
        at = now;
      })
      (blocking_open_findings state)

pub FindingStatus-discrete : Discrete FindingStatus
FindingStatus-discrete = hlevel

abbrev pub same_status : FindingStatus → FindingStatus → Bool
same_status s t = elim (FindingStatus-discrete s t) [ yes _ ↦ true | no _ ↦ false ]

unfoldable pub trace_of :
    Option RuntimeFinding
    → String
    → List String
    → String
    → RuntimeFinding
    → List RuntimeClosureTrace
trace_of none cause evidence now f = []
trace_of (some previous) cause evidence now f =
    if same_status previous.status f.status || is_open f.status
    then []
    else record {
      finding_id = f.id;
      from = previous.status;
      to = f.status;
      cause = if text_eq f.id aggregate_id then "aggregate-wiring-closed" else cause;
      evidence = dedup (evidence ++ f.evidence);
      at = now;
    }
      ∷ []

-- `get` on the map of the findings before, whose later duplicates overwrite the earlier ones.
unfoldable pub closure_traces_from_diff :
    List RuntimeFinding
    → List RuntimeFinding
    → String
    → List String
    → String
    → List RuntimeClosureTrace
closure_traces_from_diff before [] cause evidence now = []
closure_traces_from_diff before (f ∷ fs) cause evidence now =
    trace_of (get f.id (by_id before)) cause evidence now f
    ++ closure_traces_from_diff before fs cause evidence now

unfoldable pub result_closure_cause : BatchResult → String → String
result_closure_cause result source =
    if is_bugfix source
      && not (any is_source_path result.files_changed)
      && has_passing_command_evidence result
    then "artifact-command-evidence"
    else if is_bugfix source
    then "bugfix-semantic-evidence"
    else if is_validate source
    then "validate-evidence"
    else source ⧺ "-evidence"

-- The findings after `importAgentResultToState`, from those before and the canonical result.
unfoldable pub import_findings :
    String → List RuntimeFinding → BatchResult → String → List RuntimeFinding
import_findings now findings result source = normalize_canonical_findings now (
    rebuild_active_findings_from_trusted_latest_evidence now
      (close_aggregate_findings now (
        close_findings_on_successful_validation now
          (reconcile_findings now (findings ++ findings_from_result now source result) result
            source)
          result source))
      result source)

-- `writeRuntimeBatchState` as it changes what it is given: what the file then holds.
unfoldable pub written_state : String → RuntimeBatchState → RuntimeBatchState
written_state now state =
    let findings = normalize_canonical_findings now state.findings in
    record state {
      findings = findings;
      open_explanations = explain_open_findings now (record state { findings = findings });
      updated_at = now;
    }

-- The state that is returned; the file gets its `written_state`.
unfoldable pub import_agent_result_to_state :
    String → Batch → String → BatchResult → RuntimeBatchState → RuntimeBatchState
import_agent_result_to_state now batch source raw base =
    let result = canonicalize_batch_result_for_runtime batch raw base.findings in
    let findings = import_findings now base.findings result source in
    record base {
      changed_files = dedup (base.changed_files ++ result.files_changed);
      current_result = result;
      findings = findings;
      commands = base.commands ++ commands_from_result now source result;
      closure_traces =
          base.closure_traces
          ++ closure_traces_from_diff base.findings findings (result_closure_cause result source)
              result.flags now;
      open_explanations =
          explain_open_findings now (record base { findings = findings; current_result = result });
      updated_at = now;
    }

-- `state.gates[name]`
unfoldable pub gate_state : String → List GateState → Option GateState
gate_state name [] = none
gate_state name (g ∷ gs) =
    let rest = gate_state name gs in if text_eq g.name name then some g else rest

unfoldable pub set_gate : GateResult → List GateState → List GateState
set_gate gate [] = record { name = gate.name; passed = gate.passed; flags = gate.flags } ∷ []
set_gate gate (g ∷ gs) =
    let rest = set_gate gate gs in
    if text_eq g.name gate.name
    then record { name = gate.name; passed = gate.passed; flags = gate.flags } ∷ gs
    else g ∷ rest

unfoldable pub set_gates : List GateResult → List GateState → List GateState
set_gates [] states = states
set_gates (gate ∷ gates) states = set_gates gates (set_gate gate states)

unfoldable pub hard_flags : GateResult → List String
hard_flags gate =
    filter
      (λ flag.
        not (is_warning_flag (some gate.name) flag)
        && not (is_positive_flag flag)
        && not (starts_with flag "RECOVERED_"))
      gate.flags

abbrev pub is_fix_flag : String → Bool
is_fix_flag flag = is_nonempty (truthy_list (fixed_finding_prefix flag)) || is_positive_flag flag

unfoldable pub all_warnings : GateResult → Bool
all_warnings gate = all (is_warning_flag (some gate.name)) gate.flags

abbrev prior_flags : Option GateState → List String
prior_flags none = []
prior_flags (some g) = g.flags

-- The flags that a passing gate clears: its own of the last time, and the findings that it opened.
unfoldable pub cleared_flags : RuntimeBatchState → GateResult → List String
cleared_flags state gate =
    if gate.passed
      && is_empty (hard_flags gate)
      && not (is_nonempty gate.flags && all_warnings gate)
    then prior_flags (gate_state gate.name state.gates)
      ++ map (λ f. f.id) (filter (λ f. text_eq f.source ("gate:" ⧺ gate.name)) state.findings)
    else []

abbrev pub status_or_open : Option RuntimeFinding → FindingStatus
status_or_open none = open_finding
status_or_open (some f) = f.status

abbrev pub evidence_or_none : Option RuntimeFinding → List String
evidence_or_none none = []
evidence_or_none (some f) = f.evidence

abbrev pub gate_finding : String → GateResult → String → List RuntimeFinding → RuntimeFinding
gate_finding now gate flag fs = record {
  id = flag;
  source = "gate:" ⧺ gate.name;
  status = status_or_open (get flag fs);
  evidence = dedup (evidence_or_none (get flag fs) ++ gate.flags);
  last_checked_at = now;
}

unfoldable pub raise_flags :
    String → GateResult → List String → List RuntimeFinding → List RuntimeFinding
raise_flags now gate [] fs = fs
raise_flags now gate (flag ∷ flags) fs =
    raise_flags now gate flags (put (gate_finding now gate flag fs) fs)

-- A round of the loop over the gates, on the map of the findings.
unfoldable pub gate_round : String → GateResult → List RuntimeFinding → List RuntimeFinding
gate_round now gate fs =
    let raised = raise_flags now gate (hard_flags gate) fs in
    if not gate.passed && all_warnings gate
    then fs
    else if any is_fix_flag gate.flags
    then map (close_by_flags gate.flags now) raised
    else raised

unfoldable pub gate_rounds : String → List GateResult → List RuntimeFinding → List RuntimeFinding
gate_rounds now [] fs = fs
gate_rounds now (gate ∷ gates) fs = gate_rounds now gates (gate_round now gate fs)

unfoldable pub all_cleared : RuntimeBatchState → List GateResult → List String
all_cleared state [] = []
all_cleared state (gate ∷ gates) = cleared_flags state gate ++ all_cleared state gates

unfoldable pub close_cleared : List String → BatchResult → String → RuntimeFinding → RuntimeFinding
close_cleared cleared result now f =
    if not (is_open f.status)
    then f
    else if has cleared f.id || has_fix_evidence_from_flags result.flags f.id
    then closed_as fixed now f
    else f

unfoldable pub gate_evidence : List GateResult → List String
gate_evidence [] = []
gate_evidence (gate ∷ gates) =
    map (λ flag. gate.name ⧺ ":" ⧺ flag) gate.flags ++ gate_evidence gates

unfoldable pub transition_findings_for_gates :
    String → RuntimeBatchState → List GateResult → RuntimeBatchState
transition_findings_for_gates now state gates =
    let raised = gate_rounds now gates (by_id state.findings) in
    let next =
      rebuild_active_findings_from_trusted_latest_evidence now
        (close_aggregate_findings now
          (map (close_cleared (all_cleared state gates) state.current_result now) raised))
        state.current_result "gate" in
    record state {
      findings = next;
      closure_traces =
          state.closure_traces
          ++ closure_traces_from_diff state.findings next "gate-reconciliation"
              (gate_evidence gates) now;
      updated_at = now;
    }

unfoldable pub record_gate_state : String → RuntimeBatchState → List GateResult → RuntimeBatchState
record_gate_state now state gates =
    let transitioned = transition_findings_for_gates now state gates in
    let findings = normalize_canonical_findings now transitioned.findings in
    record transitioned {
      findings = findings;
      gates = set_gates gates state.gates;
      open_explanations = explain_open_findings now (record transitioned { findings = findings });
      updated_at = now;
    }

-- The five counts of `findingSummary`.
pub record FindingSummary : Type 0 where
  pub open_count : ℕ
  pub fixed_count : ℕ
  pub stale_count : ℕ
  pub accepted_count : ℕ
  pub human_count : ℕ

abbrev pub count_in : FindingStatus → FindingSummary → FindingSummary
count_in open_finding s = record s { open_count = suc s.open_count }
count_in fixed s = record s { fixed_count = suc s.fixed_count }
count_in stale s = record s { stale_count = suc s.stale_count }
count_in accepted s = record s { accepted_count = suc s.accepted_count }
count_in human s = record s { human_count = suc s.human_count }

unfoldable pub summary_from : FindingSummary → List RuntimeFinding → FindingSummary
summary_from s [] = s
summary_from s (f ∷ fs) = summary_from (count_in f.status s) fs

unfoldable pub finding_summary : RuntimeBatchState → FindingSummary
unfolding summary_from
finding_summary state =
    summary_from
      (record {
        open_count = 0;
        fixed_count = 0;
        stale_count = 0;
        accepted_count = 0;
        human_count = 0;
      })
      state.findings
