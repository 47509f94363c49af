-- ===== src/Verdicts.antt =====
-- tools/klevar-yolo-runtime/src/gate-findings.ts and adjudication.ts: how grave the flags of the gates
-- are, and what an adjudication of the doubtful ones leads to.
pub mod Sorting
mod Tests
use trade_compliance_classif.Prelude.{
  ℕ, Bool, true, false, not, ◌&&◌, ◌||◌, Option, none, some, List, [], ◌∷◌, ◌++◌, String, ◌==◌,
  if◌then◌else◌, length, is_empty, filter, map,
}
use trade_compliance_classif.Prelude.Text.{
  ◌⧺◌, text_eq, trim, starts_with, includes, replace_char, split_on, join, after?, is_upper,
  is_lower, is_digit, text_runs,
}
use trade_compliance_classif.Prelude.Sets.{has}
use trade_compliance_classif.Prelude.Regex.{
  Re, eps, one, seq, or, anything, lit, lit_i, lits, lits_i, matches, ends, search_in,
}
use trade_compliance_classif.Types.{GateResult, ResultStatus, success}
use trade_compliance_classif.Flags
use trade_compliance_classif.Flags.{flag_code, is_positive_flag, is_warning_flag}
use trade_compliance_classif.Paths
use trade_compliance_classif.Paths.{
  RuntimePathClassification, RuntimePathOwner, product, runtime, runtime_artifact, tooling,
  generated, environment, is_excluded, classify_runtime_path, matches_any_policy_pattern,
}

pub data FindingSeverity : Type 0 where
  hard_fail ambiguous warning pass : FindingSeverity

pub data RecommendedAction : Type 0 where
  bugfix adjudicate log_only ask_human : RecommendedAction

pub record FindingDetails : Type 0 where
  pub path : Option String
  pub command : Option String
  pub evidence : Option String

pub record GateFinding : Type 0 where
  pub gate : String
  pub code : String
  pub severity : FindingSeverity
  pub message : String
  pub details : FindingDetails
  pub recommended_action : RecommendedAction

pub record GateFindingReport : Type 0 where
  pub hard_failures : List GateFinding
  pub ambiguities : List GateFinding
  pub warnings : List GateFinding

abbrev first_part : List String → String
first_part [] = ""
first_part (part ∷ parts) = part

abbrev without_first : List String → List String
without_first [] = []
without_first (part ∷ parts) = parts

-- `parts.slice(0, -1)`, and `parts.at(-1)`.
abbrev without_last : List String → List String
without_last [] = []
without_last (part ∷ []) = []
without_last (part ∷ next ∷ parts) = part ∷ without_last (next ∷ parts)

abbrev last_part : List String → Option String
last_part [] = none
last_part (part ∷ []) = some part
last_part (part ∷ next ∷ parts) = last_part (next ∷ parts)

-- A text has a part in front of its first colon, so the first part is always defined.
unfoldable pub details_for : String → FindingDetails
details_for flag =
    let parts = split_on b':' flag in
    if text_eq (first_part parts) "COMMAND_RERUN_FAILED"
    then record {
      path = none;
      command = some (join ":" (without_first (without_first (without_last parts))));
      evidence = last_part parts;
    }
    else if starts_with (first_part parts) "IMPECCABLE_"
    then record { path = none; command = none; evidence = some flag }
    else if ends (seq (lit "_") (lits ("MISSING" ∷ "PATTERN" ∷ []))) (first_part parts)
        || includes (first_part parts) "FILE"
        || includes (first_part parts) "ARTIFACT"
    then record { path = some (join ":" (without_first parts)); command = none; evidence = none }
    else record { path = none; command = none; evidence = some flag }

unfoldable pub is_frontend_recovery_code : String → Bool
is_frontend_recovery_code code =
    has
      ("IMPECCABLE_DETECTOR_FINDINGS" ∷ "IMPECCABLE_DETECTOR_FAILED"
        ∷ "IMPECCABLE_DETECTOR_NOT_CONFIGURED" ∷ "MISSING_PRODUCT_CONTEXT"
        ∷ "MISSING_DESIGN_CONTEXT" ∷ "MISSING_FRONTEND_IMPECCABLE_AUDIT_PASS"
        ∷ "MISSING_FRONTEND_IMPECCABLE_POLISH_PASS" ∷ "FRONTEND_IMPECCABLE_BLOCKING_FINDINGS" ∷ [])
      code

abbrev in_word : ℕ → Bool
in_word c = is_upper c || is_lower c || is_digit c || c == b'_'

-- `/:e2e:(?:not run|not applicable|skipped|N\/A)\b/i`; each alternative ends in a letter.
unfoldable pub is_idle_e2e : String → Bool
is_idle_e2e flag =
    matches
      (seq anything (
        seq (lit_i ":e2e:") (
          seq (lits_i ("not run" ∷ "not applicable" ∷ "skipped" ∷ "N/A" ∷ []))
            (or eps (seq (one (λ c. not (in_word c))) anything)))))
      flag

unfoldable pub severity_for : String → String → String → FindingSeverity
severity_for gate flag code =
    if is_warning_flag (some gate) flag
    then warning
    else if is_positive_flag flag
    then pass
    else if is_frontend_recovery_code code
    then hard_fail
    else if has
        ("INVALID_FLAGS_SHAPE" ∷ "INVALID_LOCAL_ONLY_FILES_SHAPE" ∷ "INVALID_ARTIFACTS_SHAPE" ∷ [])
        code
    then ambiguous
    else if text_eq code "COMMAND_RERUN_FAILED" && is_idle_e2e flag
    then ambiguous
    else if has ("INVALID_FILES_CHANGED_SHAPE" ∷ "INVALID_ITEMS_COMPLETED_SHAPE" ∷ []) code
    then ambiguous
    else hard_fail

unfoldable pub is_non_recoverable_runtime_code : String → Bool
is_non_recoverable_runtime_code code =
    has
      ("PROTECTED_PATH" ∷ "TEMPLATE_MANAGED_PROTECTED_PATH" ∷ "BLOCKED_PATH" ∷ "UNSAFE_PATH"
        ∷ "PROTECTED_COORDINATION_FILE_MODULARITY_FINDING" ∷ "TOOLING_HUMAN_REQUIRED_SYNC_CONTEXT"
        ∷ [])
      code

unfoldable pub is_missing_path_evidence_code : String → Bool
is_missing_path_evidence_code code =
    has
      ("CHANGED_FILE_MISSING" ∷ "ARTIFACT_MISSING" ∷ "LOCAL_ONLY_FILE_MISSING"
        ∷ "WIRING_VERIFIER_FILE_MISSING" ∷ [])
      code

abbrev path_of : Option String → Option String
path_of none = none
path_of (some rest) = some (replace_char b'\\' b'/' (trim rest))

unfoldable pub flag_path_payload : String → Option String
flag_path_payload flag = path_of (after? b':' flag)

-- `[...defaultConfig.policy.protectedPaths, ...defaultConfig.policy.blockedPaths]`
abbrev guarded_paths : List String
guarded_paths =
    ".agent/rules/" ∷ ".agent/workflows/" ∷ ".agent/guides/" ∷ ".agent/agents/" ∷ "AGENTS.md"
    ∷ "CLAUDE.md" ∷ ".cursorrules" ∷ ".yolo/runtime.config.json" ∷ ".env" ∷ ".env.*" ∷ ".git/"
    ∷ "node_modules/" ∷ "*.pem" ∷ "*.key" ∷ []

abbrev is_foreign : RuntimePathOwner → Bool
is_foreign runtime = true
is_foreign environment = true
is_foreign generated = true
is_foreign _ = false

abbrev is_guarded : Option String → Bool
is_guarded none = false
is_guarded (some path) =
    let c = classify_runtime_path path in
    if text_eq path ""
    then false
    else if not c.safe || is_excluded c.sync
    then true
    else if is_foreign c.owner
    then true
    else matches_any_policy_pattern c.path guarded_paths

unfoldable pub is_non_recoverable_runtime_flag : String → Bool
is_non_recoverable_runtime_flag flag =
    if is_non_recoverable_runtime_code (flag_code flag)
    then true
    else if not (is_missing_path_evidence_code (flag_code flag))
    then false
    else is_guarded (flag_path_payload flag)

abbrev action_of : FindingSeverity → RecommendedAction
action_of hard_fail = bugfix
action_of ambiguous = adjudicate
action_of _ = log_only

unfoldable pub action_for : String → String → FindingSeverity → RecommendedAction
action_for flag code severity =
    if text_eq code "IMPECCABLE_DETECTOR_UNAVAILABLE"
    then log_only
    else if is_non_recoverable_runtime_flag flag
    then ask_human
    else if is_frontend_recovery_code code
    then bugfix
    else action_of severity

unfoldable pub classify_flag : String → String → GateFinding
classify_flag gate flag =
    let code = flag_code flag in
    let severity = severity_for gate flag code in
    record {
      gate = gate;
      code = code;
      severity = severity;
      message = flag;
      details = details_for flag;
      recommended_action = action_for flag code severity;
    }

abbrev pub is_hard : FindingSeverity → Bool
is_hard hard_fail = true
is_hard _ = false

abbrev pub is_ambiguous : FindingSeverity → Bool
is_ambiguous ambiguous = true
is_ambiguous _ = false

abbrev pub is_warning : FindingSeverity → Bool
is_warning warning = true
is_warning _ = false

abbrev pub add_finding : FindingSeverity → GateFinding → GateFindingReport → GateFindingReport
add_finding hard_fail f report = record report { hard_failures = report.hard_failures ++ f ∷ [] }
add_finding ambiguous f report = record report { ambiguities = report.ambiguities ++ f ∷ [] }
add_finding warning f report = record report { warnings = report.warnings ++ f ∷ [] }
add_finding pass f report = report

unfoldable pub add_flags : String → List String → GateFindingReport → GateFindingReport
add_flags gate [] report = report
add_flags gate (flag ∷ flags) report =
    add_flags gate flags
      (add_finding (classify_flag gate flag).severity (classify_flag gate flag) report)

unfoldable pub add_gates : List GateResult → GateFindingReport → GateFindingReport
add_gates [] report = report
add_gates (gate ∷ gates) report = add_gates gates (add_flags gate.name gate.flags report)

unfoldable pub classify_gate_findings : List GateResult → GateFindingReport
classify_gate_findings gates =
    add_gates gates (record { hard_failures = []; ambiguities = []; warnings = [] })

pub data AdjudicationDecision : Type 0 where
  accept accept_with_warnings require_bugfix escalate_to_user : AdjudicationDecision

pub record AdjudicationResult : Type 0 where
  pub schema_version : ℕ
  pub batch : ℕ
  pub status : ResultStatus
  pub decision : AdjudicationDecision
  pub accepted_ambiguities : List String
  pub requires_bugfix : Bool
  pub requires_human : Bool
  pub rationale : String
  pub flags : List String

unfoldable pub adjudication_allowed : List GateResult → Bool
adjudication_allowed gates =
    let report = classify_gate_findings gates in
    is_empty report.hard_failures && not (is_empty report.ambiguities)

abbrev is_success : ResultStatus → Bool
is_success success = true
is_success _ = false

abbrev accepts : AdjudicationDecision → Bool
accepts accept = true
accepts accept_with_warnings = true
accepts _ = false

abbrev demands_bugfix : AdjudicationDecision → Bool
demands_bugfix require_bugfix = true
demands_bugfix _ = false

abbrev escalates : AdjudicationDecision → Bool
escalates escalate_to_user = true
escalates _ = false

unfoldable pub adjudication_accepted : AdjudicationResult → Bool
adjudication_accepted result =
    is_success result.status
    && accepts result.decision
    && not result.requires_bugfix
    && not result.requires_human

unfoldable pub adjudication_needs_bugfix : AdjudicationResult → Bool
adjudication_needs_bugfix result =
    is_success result.status && (demands_bugfix result.decision || result.requires_bugfix)

unfoldable pub adjudication_needs_human : AdjudicationResult → Bool
adjudication_needs_human result =
    not (is_success result.status) || escalates result.decision || result.requires_human

-- All that a run computes with.
unfoldable pub runs : Unit {0}
unfolding details_for is_frontend_recovery_code is_idle_e2e severity_for
    is_non_recoverable_runtime_code is_missing_path_evidence_code flag_path_payload
    is_non_recoverable_runtime_flag action_for classify_flag add_flags add_gates
    classify_gate_findings adjudication_allowed adjudication_accepted adjudication_needs_bugfix
    adjudication_needs_human ends search_in matches text_runs Flags.runs Paths.runs
runs = tt
