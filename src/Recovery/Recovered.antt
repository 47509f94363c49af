-- ===== src/Recovery/Recovered.antt =====
-- tools/klevar-yolo-runtime/src/recovery-merge.ts: the flags of a recovered result, and the whole of it.
-- Reading a corrected manifest is a function on its path.
pub mod Laws
use trade_compliance_classif.Prelude.{
  ℕ, Bool, true, false, not, ◌&&◌, ◌||◌, Option, none, some, List, [], ◌∷◌, ◌++◌, map, String, ◌==◌,
  if◌then◌else◌, any, filter,
}
use trade_compliance_classif.Prelude.Text.{◌⧺◌, text_eq, trim, starts_with}
use trade_compliance_classif.Prelude.Sets.{has, dedup}
use trade_compliance_classif.Prelude.Regex.{
  Re, eps, seq, or, star, dot, anything, plus, lit, lit_i, lits, lits_i, matches, begins, ends,
}
use trade_compliance_classif.Types.{
  ResultStatus, success, failure, partial_success, bug_found, invalid_result, is_success,
  TestEvidence, Artifact, BatchResult,
}
use trade_compliance_classif.Flags.{recovered_source}
use trade_compliance_classif.Recovery.Merge
use trade_compliance_classif.Recovery.Parts
use trade_compliance_classif.Recovery.Merge.{
  normalize_rel, corrected_source_manifest_path, touches_any_source_manifest,
  bugfix_can_replace_red_evidence, bugfix_has_semantic_change, stale_paths_fixed_by_bugfix,
  merge_files_changed, merge_artifacts,
}
use trade_compliance_classif.Recovery.Parts.{
  merge_recovered_tests, merge_recovered_wiring, merge_project_local_checks, merge_business_logic,
  merge_local_only_files,
}

-- `(^|_)(a|b|…)(_|$|:)`
abbrev word_in_code : List String → Re
word_in_code words =
    seq (or eps (seq anything (lit "_")))
      (seq (lits words) (or eps (seq (lits ("_" ∷ ":" ∷ [])) anything)))

abbrev is_the_type : String → Option String → Bool
is_the_type flag none = false
is_the_type flag (some type) = text_eq flag type

unfoldable pub is_active_failure_flag : String → Option String → Bool
is_active_failure_flag flag failure_type =
    if text_eq flag ""
    then false
    else if is_the_type flag failure_type
    then true
    else if starts_with flag "RESULT_STATUS_FAILURE:"
    then true
    else if has
        ("BUG_FOUND" ∷ "INVALID_RESULT" ∷ "FAILURE_WITHOUT_FAILURE_TYPE" ∷ "COMMIT_CLAIMED_BY_AGENT"
          ∷ [])
        flag
    then true
    else if begins
        (seq
          (lits (
            "BLOCKED_PATH" ∷ "PROTECTED_PATH" ∷ "SECRET_PATTERN" ∷ "ARTIFACT_MISSING"
            ∷ "CHANGED_FILE_MISSING" ∷ "LOCAL_ONLY_FILE_MISSING" ∷ "WIRING_VERIFIER_FILE_MISSING"
            ∷ []))
          (lit ":"))
        flag
    then true
    else matches
        (word_in_code (
          "FAILURE" ∷ "FAILED" ∷ "REJECTED" ∷ "MISSING" ∷ "GAP" ∷ "INVALID" ∷ "BLOCKING"
          ∷ "FINDINGS" ∷ []))
        flag
      && not (
          matches
            (word_in_code
              ("FIXED" ∷ "PASS" ∷ "PASSED" ∷ "NORMALIZED" ∷ "RECORDED" ∷ "NOT_APPLICABLE" ∷ []))
            flag)

unfoldable pub demote_recovered_source_flag : Option String → String → String
demote_recovered_source_flag failure_type flag =
    if is_active_failure_flag flag failure_type then recovered_source ⧺ flag else flag

unfoldable pub is_semantic_fix_flag : String → Bool
is_semantic_fix_flag flag =
    ends
      (lits_i (
        "_FIXED" ∷ "_PASS" ∷ "_PASSED" ∷ "_ALLOWLISTED" ∷ "_SATISFIED" ∷ "_ENFORCED" ∷ "_REJECTED"
        ∷ "_COVERED" ∷ []))
      flag

unfoldable pub is_runtime_recovery_evidence_flag : String → Bool
is_runtime_recovery_evidence_flag flag =
    matches
      (seq (lit_i "BUSINESS_LOGIC_EVIDENCE_")
        (seq (plus dot) (seq (lit_i "_") (lits_i ("PASS" ∷ "PASSED" ∷ "VERIFIED" ∷ [])))))
      flag
    || matches
        (lits_i (
          "BUSINESS_LOGIC_DRIFT_SWEEP_PASS" ∷ "TENANT_FAIRNESS_RATE_LIMIT_RETRY_PASS"
          ∷ "GENERATED_FILE_DRIFT_REVERTED" ∷ []))
        flag

unfoldable pub bugfix_has_passing_command_evidence : BatchResult → Bool
bugfix_has_passing_command_evidence bugfix =
    any
      (λ (test : String × TestEvidence).
        test.1.exit_code == 0 && not (text_eq (trim test.1.command) ""))
      bugfix.tests

unfoldable pub normalize_recovered_bugfix_flag : Bool → Bool → String → Option String
normalize_recovered_bugfix_flag semantic evidence_backed flag =
    if starts_with flag "RESULT_STATUS_FAILURE:"
    then some ("RECOVERED_BUGFIX_HISTORY:" ⧺ flag)
    else if not semantic
        && is_semantic_fix_flag flag
        && not (evidence_backed && is_runtime_recovery_evidence_flag flag)
    then none
    else some flag

abbrev pub and_rest : Option String → List String → List String
and_rest none flags = flags
and_rest (some flag) flags = flag ∷ flags

unfoldable pub bugfix_flags : Bool → Bool → List String → List String
bugfix_flags semantic evidence_backed [] = []
bugfix_flags semantic evidence_backed (flag ∷ flags) =
    and_rest (normalize_recovered_bugfix_flag semantic evidence_backed flag)
      (bugfix_flags semantic evidence_backed flags)

abbrev pub recovered_from : Option String → List String
recovered_from none = []
recovered_from (some type) = if text_eq type "" then [] else ("RECOVERED_FROM:" ⧺ type) ∷ []

unfoldable pub recovered_flags : BatchResult → BatchResult → Bool → List String
recovered_flags implementation bugfix semantic =
    let evidence_backed = not semantic && bugfix_has_passing_command_evidence bugfix in
    dedup (
      filter (λ flag. not (text_eq flag ""))
        (recovered_from implementation.failure_type
          ++ (map (demote_recovered_source_flag implementation.failure_type) implementation.flags
              ++ ("BUGFIX_RECOVERY_APPLIED" ∷ bugfix_flags semantic evidence_backed bugfix.flags))))

abbrev or_inbox : Option (List String) → Option (List String) → Option (List String)
or_inbox none other = other
or_inbox (some ids) other = some ids

unfoldable pub merge_recovered_result : BatchResult → BatchResult → BatchResult
merge_recovered_result implementation bugfix =
    let corrected = touches_any_source_manifest implementation bugfix in
    let removed =
      stale_paths_fixed_by_bugfix implementation ++ stale_paths_fixed_by_bugfix bugfix in
    let semantic = bugfix_has_semantic_change bugfix in
    record implementation {
      schema_version = 1;
      status = success;
      items_completed = dedup (implementation.items_completed ++ bugfix.items_completed);
      files_changed = merge_files_changed implementation bugfix corrected removed;
      tests =
          merge_recovered_tests implementation.tests bugfix.tests
            (bugfix_can_replace_red_evidence bugfix);
      wiring = merge_recovered_wiring implementation.wiring bugfix.wiring semantic;
      project_local_checks =
          merge_project_local_checks implementation.project_local_checks
            bugfix.project_local_checks;
      business_logic =
          merge_business_logic implementation.business_logic bugfix.business_logic semantic;
      artifacts = merge_artifacts implementation bugfix removed;
      local_only_files =
          some (
            merge_local_only_files implementation.local_only_files bugfix.local_only_files
              semantic);
      inbox = or_inbox bugfix.inbox implementation.inbox;
      failure_type = none;
      flags = recovered_flags implementation bugfix semantic;
      commit = none;
    }

abbrev pub without_manifest : String → BatchResult → BatchResult
without_manifest path bugfix = record bugfix {
  files_changed = filter (λ file. not (text_eq (normalize_rel file) path)) bugfix.files_changed;
}

abbrev is_invalid_status : ResultStatus → Bool
is_invalid_status invalid_result = true
is_invalid_status _ = false

-- A manifest that cannot be read, or that names itself invalid.
abbrev pub is_unusable : BatchResult → Bool
is_unusable result =
    is_invalid_status result.status
    || not (is_success result.status) && is_the_type "INVALID_RESULT" result.failure_type

abbrev merge_from : (String → BatchResult) → Option String → BatchResult → BatchResult → BatchResult
merge_from read none implementation bugfix = merge_recovered_result implementation bugfix
merge_from read (some path) implementation bugfix =
    merge_recovered_result (if is_unusable (read path) then implementation else read path)
      (without_manifest path bugfix)

unfoldable pub merge_recovered_result_from_disk :
    (String → BatchResult) → ℕ → BatchResult → BatchResult → BatchResult
merge_recovered_result_from_disk read number implementation bugfix =
    merge_from read (corrected_source_manifest_path number implementation bugfix) implementation
      bugfix

-- All that a run computes with.
unfoldable pub runs : Unit {0}
unfolding is_active_failure_flag demote_recovered_source_flag is_semantic_fix_flag
    is_runtime_recovery_evidence_flag bugfix_has_passing_command_evidence
    normalize_recovered_bugfix_flag bugfix_flags recovered_flags merge_recovered_result
    merge_recovered_result_from_disk Merge.runs Parts.runs matches begins ends dedup
runs = tt
