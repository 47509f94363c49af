-- ===== src/Findings/Close.antt =====
-- The passes of runtime-batch-state.ts that open and close findings. Each goes over the findings and
-- leaves their order and ids as they are.
use trade_compliance_classif.Prelude.{
  Bool, true, false, not, ◌&&◌, ◌||◌, Option, none, some, List, [], ◌∷◌, ◌++◌, map, String,
  if◌then◌else◌, any, filter,
}
use trade_compliance_classif.Prelude.Text.{
  ◌⧺◌, text_eq, to_upper, starts_with, ends_with, includes, join, replace_char,
}
use trade_compliance_classif.Prelude.Sets.{has, dedup}
use trade_compliance_classif.Prelude.Regex.{seq, lit, lit_i, lits, lits_i, begins, search_in}
use trade_compliance_classif.Types.{BatchResult, is_success}
use trade_compliance_classif.Flags.{
  flag_code, is_positive_flag, is_blocking_flag, detail_after_colon,
}
use trade_compliance_classif.Findings.{
  FindingStatus, fixed, stale, RuntimeFinding, is_open, get, put,
}
use trade_compliance_classif.Findings.Evidence.{
  is_source_path, is_runtime_only_artifact_path, is_runtime_only_result,
  has_passing_command_evidence, has_fix_evidence_from_flags,
}

abbrev pub is_validate : String → Bool
is_validate source = text_eq source "validate"

abbrev pub is_bugfix : String → Bool
is_bugfix source = text_eq source "bugfix"

unfoldable pub is_product_code : String → Bool
is_product_code code =
    begins
      (lits (
        "BUSINESS_LOGIC" ∷ "ENTRYPOINT" ∷ "AUTH" ∷ "AUTHORIZATION" ∷ "SECURITY" ∷ "TENANT"
        ∷ "PAYMENT" ∷ "PRICING" ∷ "API" ∷ "DB" ∷ "DATABASE" ∷ "SCHEMA" ∷ "E2E_SETUP_MISSING" ∷ []))
      code

unfoldable pub is_product_owned_finding : String → Bool
is_product_owned_finding id = is_product_code (to_upper (flag_code id))

unfoldable pub is_open_wiring_finding_except_aggregate : String → Bool
is_open_wiring_finding_except_aggregate id =
    let code = to_upper (flag_code id) in
    if text_eq code "UNWIRED_WORKER_ENTRYPOINTS"
    then false
    else begins (seq (lit "ENTRYPOINT_") (seq (lits ("UNWIRED" ∷ "UNVERIFIED" ∷ [])) (lit "_")))
        code
      || ends_with code "_NOT_WIRED"
      || includes code "UNWIRED"

abbrev pub runtime_codes : List String
runtime_codes =
    "RUNTIME_GATES_REJECTED" ∷ "RUNTIME_GATES_REJECTED_AFTER_VALIDATION_BUGFIX"
    ∷ "RUNTIME_ONLY_PATH" ∷ "RUNTIME_ONLY_PATH_LEAKAGE" ∷ "BUGFIX_RESULT_INVALID"
    ∷ "CONTRACT_SCHEMA_MISMATCH" ∷ "CONTRACT_FAILURE" ∷ []

abbrev pub path_codes : List String
path_codes =
    "WORKTREE_CHANGED_FILES_UNDECLARED" ∷ "ARTIFACT_MISSING" ∷ "CHANGED_FILE_MISSING"
    ∷ "CHANGED_FILE_MISSING_METADATA" ∷ "LOCAL_ONLY_FILE_MISSING" ∷ "WIRING_VERIFIER_FILE_MISSING"
    ∷ []

abbrev pub protected_codes : List String
protected_codes = "TEMPLATE_MANAGED_PROTECTED_PATH" ∷ "PROTECTED_PATH" ∷ "SUPPORT_LOOP_STALE" ∷ []

unfoldable pub is_runtime_owned_finding : String → Bool
is_runtime_owned_finding id =
    let normalized = replace_char 92 b'/' id in
    let code = to_upper (flag_code id) in
    if any (text_eq code) runtime_codes
    then true
    else if any (text_eq code) path_codes
    then is_runtime_only_artifact_path (detail_after_colon normalized)
    else if any (text_eq code) protected_codes
    then true
    else text_eq code "PLAN_REJECTED"
      && search_in
          (seq (lit_i ".yolo/") (
            seq (lits_i ("batch-results" ∷ "gates" ∷ "runtime" ∷ "logs" ∷ "events" ∷ []))
              (lit_i "/")))
          normalized

unfoldable pub is_runtime_support_or_tooling_finding : RuntimeFinding → Bool
is_runtime_support_or_tooling_finding f =
    let text = to_upper (f.id ⧺ "\n" ⧺ f.source ⧺ "\n" ⧺ join "\n" f.evidence) in
    if is_product_owned_finding f.id
    then false
    else search_in
        (lits (
          "RUNTIME" ∷ "TOOLING" ∷ "SUPPORT" ∷ "PROTECTED_PATH" ∷ "TEMPLATE_MANAGED" ∷ "WORKTREE_"
          ∷ "CHANGED_FILE_MISSING_METADATA" ∷ "MODULARITY_RULE_FILE" ∷ "PLAN_REJECTED"
          ∷ "VALIDATOR_REJECTED" ∷ "RUNTIME_GATES_REJECTED" ∷ "ARTIFACT_MISSING:.YOLO"
          ∷ "RUNTIME_ONLY_PATH" ∷ "LOCAL_ONLY_PATH" ∷ "GENERATED_FILE_DRIFT" ∷ "COMMAND_EVIDENCE"
          ∷ "JOURNAL" ∷ "GATE_FILE" ∷ []))
        text

abbrev pub closed_as : FindingStatus → String → RuntimeFinding → RuntimeFinding
closed_as status now f = record f { status = status; last_checked_at = now }

abbrev pub noted : String → FindingStatus → String → RuntimeFinding → RuntimeFinding
noted note status now f = record f {
  status = status;
  evidence = dedup (f.evidence ++ note ∷ []);
  last_checked_at = now;
}

-- One finding of `normalizeCanonicalFindings`.
unfoldable pub normalize_finding : String → RuntimeFinding → RuntimeFinding
normalize_finding now f =
    if not (is_open f.status)
    then f
    else if not (is_positive_flag f.id) && not (starts_with f.id "RECOVERED_")
    then f
    else noted "positive-or-recovered-flag-not-open-canonical-finding" fixed now f

unfoldable pub normalize_canonical_findings : String → List RuntimeFinding → List RuntimeFinding
normalize_canonical_findings now fs = map (normalize_finding now) fs

-- The first loop of `reconcileFindings`: of two findings with one id the later one stands, with the
-- evidence of both.
abbrev pub evidence_of : Option RuntimeFinding → List String
evidence_of none = []
evidence_of (some f) = f.evidence

unfoldable pub merge_into : List RuntimeFinding → List RuntimeFinding → List RuntimeFinding
merge_into acc [] = acc
merge_into acc (f ∷ fs) =
    merge_into (put (record f { evidence = dedup (evidence_of (get f.id acc) ++ f.evidence) }) acc)
      fs

unfoldable pub merge_findings : List RuntimeFinding → List RuntimeFinding
unfolding merge_into
merge_findings fs = merge_into [] fs

unfoldable pub quarantine_runtime_owned : String → RuntimeFinding → RuntimeFinding
quarantine_runtime_owned now f =
    if is_open f.status && is_runtime_owned_finding f.id
    then noted "stale-runtime-owned-finding-quarantined-by-passing-recovery-command" stale now f
    else f

unfoldable pub close_by_flags : List String → String → RuntimeFinding → RuntimeFinding
close_by_flags flags now f =
    if has_fix_evidence_from_flags flags f.id then closed_as fixed now f else f

unfoldable pub can_result_close_findings_by_flag : BatchResult → String → Bool
can_result_close_findings_by_flag result source =
    if is_validate source
    then true
    else if not (is_bugfix source)
    then true
    else if any is_source_path result.files_changed
    then true
    else has_passing_command_evidence result && any is_positive_flag result.flags

unfoldable pub reconcile_findings :
    String → List RuntimeFinding → BatchResult → String → List RuntimeFinding
reconcile_findings now fs result source =
    let merged = merge_findings fs in
    let quarantined =
      if is_bugfix source && is_runtime_only_result result && has_passing_command_evidence result
      then map (quarantine_runtime_owned now) merged
      else merged in
    if not (can_result_close_findings_by_flag result source)
    then quarantined
    else map (close_by_flags result.flags now) quarantined

-- `[result.failureType, ...flags].filter(isBlockingFlag)`
abbrev failure_flags : Option String → List String → List String
failure_flags none flags = flags
failure_flags (some t) flags = t ∷ flags

unfoldable pub active_blocking : BatchResult → List String
active_blocking result = filter is_blocking_flag (failure_flags result.failure_type result.flags)

unfoldable pub close_on_validation : List String → String → RuntimeFinding → RuntimeFinding
close_on_validation active now f =
    if not (is_open f.status) || has active f.id || is_product_owned_finding f.id
    then f
    else closed_as fixed now f

unfoldable pub close_findings_on_successful_validation :
    String → List RuntimeFinding → BatchResult → String → List RuntimeFinding
close_findings_on_successful_validation now fs result source =
    if not (is_validate source)
      || not (is_success result.status)
      || not (has_passing_command_evidence result)
    then fs
    else map (close_on_validation (active_blocking result) now) fs

abbrev pub aggregate_id : String
aggregate_id = "UNWIRED_WORKER_ENTRYPOINTS"

unfoldable pub has_open_wiring : List RuntimeFinding → Bool
has_open_wiring fs = any (λ f. is_open f.status && is_open_wiring_finding_except_aggregate f.id) fs

unfoldable pub close_aggregate : Bool → String → RuntimeFinding → RuntimeFinding
close_aggregate wiring_open now f =
    if not (is_open f.status)
    then f
    else if text_eq f.id aggregate_id && not wiring_open
    then closed_as fixed now f
    else f

unfoldable pub close_aggregate_findings : String → List RuntimeFinding → List RuntimeFinding
close_aggregate_findings now fs = map (close_aggregate (has_open_wiring fs) now) fs

unfoldable pub is_trusted_successful_recovery_evidence : BatchResult → String → Bool
is_trusted_successful_recovery_evidence result source =
    if not (is_success result.status)
    then false
    else if not (is_bugfix source) && not (text_eq source "gate")
    then false
    else if any is_blocking_flag result.flags
    then false
    else if any is_source_path result.files_changed
    then true
    else has_passing_command_evidence result

unfoldable pub quarantine_tooling : List String → String → RuntimeFinding → RuntimeFinding
quarantine_tooling active now f =
    if not (is_open f.status) || has active f.id || not (is_runtime_support_or_tooling_finding f)
    then f
    else noted "quarantined-by-latest-trusted-recovery-evidence" stale now f

unfoldable pub rebuild_active_findings_from_trusted_latest_evidence :
    String → List RuntimeFinding → BatchResult → String → List RuntimeFinding
rebuild_active_findings_from_trusted_latest_evidence now fs result source =
    if not (is_trusted_successful_recovery_evidence result source)
    then fs
    else map (quarantine_tooling (filter is_blocking_flag result.flags) now) fs
