-- ===== src/Flags.antt =====
-- tools/klevar-yolo-runtime/src/flag-classification.ts: what a gate's or an agent's flag says. The
-- expressions are those of the source; the flag `i` is read on the ASCII letters.
pub mod Laws
mod Tests
use trade_compliance_classif.Prelude.{
  Bool, true, false, not, ◌&&◌, ◌||◌, Option, none, some, List, [], ◌∷◌, String, if◌then◌else◌, any,
}
use trade_compliance_classif.Prelude.Text.{
  ◌⧺◌, text_eq, trim, before, after?, starts_with, ends_with, replace_char, strip_repeated_i,
}
use trade_compliance_classif.Prelude.Regex.{
  Re, eps, seq, or, star, dot, anything, lit_i, lits_i, optional, matches, begins, ends, search_in,
  cut_suffix,
}

abbrev blocking_code : Re
blocking_code = lits_i (
    "FAILURE" ∷ "FAILED" ∷ "REJECTED" ∷ "MISSING" ∷ "GAP" ∷ "INVALID" ∷ "BLOCKING" ∷ "DRIFT"
    ∷ "LEAKAGE" ∷ "FINDINGS" ∷ "UNWIRED" ∷ "UNVERIFIED" ∷ "NOT_WIRED" ∷ "MISMATCH" ∷ "UNVALIDATED"
    ∷ [])

abbrev positive_code_suffix : Re
positive_code_suffix = seq (lit_i "_") (
    lits_i (
      "PASS" ∷ "PASSED" ∷ "FIXED" ∷ "RECOVERED" ∷ "RESOLVED" ∷ "WIRED" ∷ "PROPAGATED" ∷ "SATISFIED"
      ∷ "COVERED" ∷ "ENFORCED" ∷ "VERIFIED" ∷ "ALLOWLISTED" ∷ "NORMALIZED" ∷ "RECORDED"
      ∷ "EVIDENCE_RECORDED" ∷ "REVERTED" ∷ "PRESERVED" ∷ "NOT_APPLICABLE" ∷ "NO_LEAKS" ∷ "UNTOUCHED"
      ∷ "NO_FINDINGS" ∷ "NO_BLOCKING_FINDINGS" ∷ "RECORDED_AS_MANUAL_NOT_FINDINGS" ∷ []))

abbrev fix_evidence_suffix : Re
fix_evidence_suffix = seq (lit_i "_") (
    lits_i (
      "FIXED" ∷ "RECOVERED" ∷ "RESOLVED" ∷ "PASS" ∷ "PASSED" ∷ "ALLOWLISTED" ∷ "SATISFIED"
      ∷ "ENFORCED" ∷ "COVERED" ∷ "WIRED" ∷ "VERIFIED" ∷ "PROPAGATED" ∷ "REVERTED" ∷ "PRESERVED"
      ∷ []))

abbrev guarded_subjects : List String
guarded_subjects =
    "VALIDATOR" ∷ "JOURNAL" ∷ "RUNTIME_GATES" ∷ "BUGFIX" ∷ "AUDIT" ∷ "ADVERSARIAL_VALIDATION"
    ∷ "RESULT_STATUS" ∷ "CONTRACT" ∷ "GATE" ∷ "SECURITY" ∷ "SECRET" ∷ "AUTH" ∷ "TENANT"
    ∷ "EXTERNAL_OPS" ∷ []

-- `(?:_|$)`
abbrev to_boundary : Re
to_boundary = or eps (seq (lit_i "_") anything)

abbrev negative_rejection_code : Re
negative_rejection_code = seq (lits_i guarded_subjects) (seq (lit_i "_REJECTED") to_boundary)

abbrev business_rule_rejected_code : Re
business_rule_rejected_code =
    seq
      (lits_i (
        "CROSS_ORDER" ∷ "BUSINESS_RULE" ∷ "DOMAIN_RULE" ∷ "INPUT_RULE" ∷ "PAYMENT_RULE"
        ∷ "MATCHING_RULE" ∷ "VALIDATION_CASE" ∷ []))
      (seq (lit_i "_") (seq (star dot) (lit_i "_REJECTED")))

abbrev dangerous_non_blocking_code : Re
dangerous_non_blocking_code =
    seq (or (lits_i guarded_subjects) (lits_i ("COMMAND" ∷ "ARTIFACT" ∷ [])))
      (seq (optional (seq (lit_i "_") (star dot))) (lit_i "_NON_BLOCKING"))

-- `(?:^|_)NON_BLOCKING(?:_|$)`
abbrev non_blocking_word : Re
non_blocking_word = seq (or eps (seq anything (lit_i "_"))) (seq (lit_i "NON_BLOCKING") to_boundary)

abbrev pub recovered_source : String
recovered_source = "RECOVERED_SOURCE_FLAG:"

unfoldable pub flag_code : String → String
flag_code flag = trim (before b':' (strip_repeated_i recovered_source flag))

-- `value.includes(":") ? value.slice(value.indexOf(":") + 1).trim() : ""`
unfoldable pub detail_after_colon : String → String
detail_after_colon value = elim (after? b':' value) [ none ↦ "" | some rest ↦ trim rest ]

unfoldable pub is_template_managed_metadata_detail : String → Bool
is_template_managed_metadata_detail flag =
    let detail = detail_after_colon (replace_char 92 b'/' flag) in
    not (text_eq detail "")
    && (starts_with detail ".agent/rules/"
        || starts_with detail ".agent/guides/"
        || starts_with detail ".agent/workflows/"
        || starts_with detail ".agent/agents/"
        || text_eq detail "AGENTS.md"
        || text_eq detail "CLAUDE.md"
        || text_eq detail "docs/progress.md")

unfoldable pub is_runtime_recovery_meta_flag : String → Bool
is_runtime_recovery_meta_flag flag =
    matches
      (lits_i (
        "BUGFIX_RECOVERY_APPLIED" ∷ "RUNTIME_GATES_REJECTED_RECOVERED" ∷ "RECOVERED_FROM"
        ∷ "RECOVERED_BUGFIX_HISTORY" ∷ []))
      (flag_code flag)

abbrev warning_codes : List String
warning_codes =
    "QUALITY_WARNING" ∷ "NO_ACTIVE_PROJECT_LOCAL_CHECKS" ∷ "IMPECCABLE_DETECTOR_UNAVAILABLE"
    ∷ "WORKFLOW_INFERRED_VALIDATE_PRD_RUNTIME_PLACEHOLDER_UNAVAILABLE"
    ∷ "PHASE_SCOPE_LIMITED_TO_PHASE_1_CLOSEOUT"
    ∷ "FUTURE_PHASE_SUCCESS_CRITERIA_RECORDED_AS_MANUAL_NOT_FINDINGS" ∷ []

abbrev is_gate : Option String → String → Bool
is_gate none name = false
is_gate (some gate) name = text_eq gate name

-- The tests of `isWarningFlag` on the code, in its order.
unfoldable pub is_warning_code : Option String → String → String → Bool
is_warning_code gate flag code =
    any (text_eq code) warning_codes
    || (text_eq code "MODULARITY_RULE_FILE_LIMIT_VIOLATION"
        && is_template_managed_metadata_detail flag)
    || text_eq code "TENANT_NEUTRALITY_SWEEP_NO_LEAKS"
    || (matches non_blocking_word code && not (matches dangerous_non_blocking_code code))
    || (is_gate gate "business-logic" && text_eq code "BUSINESS_LOGIC_UNTOUCHED_DOCS")
    || starts_with flag "QUALITY_WARNING:"
    || ends_with code "_LOW_FINDING"
    || ends_with code "_MEDIUM_FINDING"

unfoldable pub is_warning_flag : Option String → String → Bool
is_warning_flag gate flag = is_warning_code gate flag (flag_code flag)

-- The tests of `isPositiveFlag` on the code, in its order.
unfoldable pub is_positive_code : String → String → Bool
is_positive_code flag code =
    if matches (lits_i ("NO_FINDINGS" ∷ "NO_BLOCKING_FINDINGS" ∷ [])) code
    then true
    else if text_eq code "CHANGED_FILE_MISSING_METADATA_REMOVED"
        && is_template_managed_metadata_detail flag
    then true
    else if text_eq code "PROTECTED_PATH_METADATA_REMOVED"
    then true
    else if text_eq code "MODULARITY_RULE_FILE_WARNING_ROUTED_NON_BLOCKING"
    then true
    else if text_eq code "NO_PRODUCTION_SOURCE_REFACTOR"
    then true
    else if matches negative_rejection_code code
    then false
    else if ends (lit_i "_NOT_WIRED") code
    then false
    else if ends_with code "_REJECTED"
    then matches business_rule_rejected_code code
    else if begins
        (seq (lit_i "ENTRYPOINT_") (seq (lits_i ("VERIFIED" ∷ "WIRED" ∷ [])) (lit_i "_"))) code
    then true
    else ends positive_code_suffix code

unfoldable pub is_positive_flag : String → Bool
is_positive_flag flag = is_positive_code flag (flag_code flag)

unfoldable pub is_blocking_flag : String → Bool
is_blocking_flag flag =
    if text_eq (flag_code flag) "" || starts_with flag "RECOVERED_"
    then false
    else if is_runtime_recovery_meta_flag flag || is_warning_flag none flag || is_positive_flag flag
    then false
    else search_in blocking_code (flag_code flag)

-- `clean.includes(":") ? clean.slice(clean.indexOf(":")) : ""`
abbrev with_colon : Option String → String
with_colon none = ""
with_colon (some rest) = ":" ⧺ rest

unfoldable pub fixed_finding_prefix : String → Option String
fixed_finding_prefix flag =
    let clean = trim (strip_repeated_i recovered_source flag) in
    let code = flag_code flag in
    let detail = with_colon (after? b':' clean) in
    if ends (lit_i "_VERIFIED") code
    then some (cut_suffix (lit_i "_VERIFIED") code ⧺ "_UNVERIFIED" ⧺ detail)
    else if ends (lit_i "_WIRED") code
    then some (cut_suffix (lit_i "_WIRED") code ⧺ "_UNWIRED" ⧺ detail)
    else if ends fix_evidence_suffix code
    then some (cut_suffix fix_evidence_suffix code)
    else none

-- All that a run of the classification computes with.
unfoldable pub runs : Unit {0}
unfolding flag_code detail_after_colon is_template_managed_metadata_detail
    is_runtime_recovery_meta_flag is_warning_code is_warning_flag is_positive_code is_positive_flag
    is_blocking_flag fixed_finding_prefix trim before after? starts_with ends_with replace_char
    strip_repeated_i matches begins ends search_in cut_suffix
runs = tt
