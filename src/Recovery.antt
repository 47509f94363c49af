-- ===== src/Recovery.antt =====
-- tools/klevar-yolo-runtime/src/runtime.ts: which flags a recovery works on, and the signature by which
-- it tells whether an attempt changed anything.
pub mod Signatures
pub mod Merge
pub mod Parts
pub mod Evidence
pub mod Recovered
mod Tests
use trade_compliance_classif.Prelude.{
  ℕ, Bool, true, false, not, ◌&&◌, ◌||◌, Option, none, some, List, [], ◌∷◌, String, ◌==◌,
  if◌then◌else◌, any, all, filter, map, is_empty,
}
use trade_compliance_classif.Prelude.Text.{
  ◌⧺◌, text_eq, trim, starts_with, strip_prefix, replace_char, split_on, join, after?, text_runs,
}
use trade_compliance_classif.Prelude.Sets.{has, set_add, dedup}
use trade_compliance_classif.Prelude.Sorting.{sort_texts, text_leb}
use trade_compliance_classif.Prelude.Regex.{
  Re, eps, seq, or, star, dot, anything, lit, lit_i, lits_i, matches, begins, ends,
}
use trade_compliance_classif.Flags
use trade_compliance_classif.Flags.{
  flag_code, is_positive_flag, is_warning_flag, is_runtime_recovery_meta_flag,
}
use trade_compliance_classif.Paths
use trade_compliance_classif.Verdicts
use trade_compliance_classif.Verdicts.{is_non_recoverable_runtime_flag}

abbrev without_mark : Option String → String → String
without_mark none flag = flag
without_mark (some rest) flag = rest

unfoldable pub normalize_recovery_flag : String → Option String
normalize_recovery_flag flag =
    let value = trim (without_mark (strip_prefix "RECOVERED_SOURCE_FLAG:" flag) flag) in
    if text_eq value ""
    then none
    else if is_runtime_recovery_meta_flag value
    then none
    else if is_positive_flag value || is_warning_flag none value
    then none
    else if ends (seq (lit_i "_") (seq (lits_i ("LOW" ∷ "MEDIUM" ∷ [])) (lit_i "_FINDING"))) value
    then none
    else some value

-- The set with a flag's normal form, if it has one.
abbrev pub add_some : Option String → List String → List String
add_some none flags = flags
add_some (some flag) flags = set_add flags flag

unfoldable pub add_normalized : List String → List String → List String
add_normalized acc [] = acc
add_normalized acc (flag ∷ flags) =
    add_normalized (add_some (normalize_recovery_flag flag) acc) flags

abbrev pub type_or_unknown : Option String → String
type_or_unknown none = "UNKNOWN_FAILURE"
type_or_unknown (some type) = type

unfoldable pub blocking_recovery_flags : List String → Option String → List String
blocking_recovery_flags flags failure_type =
    add_normalized [] (type_or_unknown failure_type ∷ flags)

unfoldable pub failure_signature : List String → Option String → String
failure_signature flags failure_type =
    let normalized = join "|" (sort_texts (blocking_recovery_flags flags failure_type)) in
    if text_eq normalized "" then "UNKNOWN_FAILURE" else normalized

-- `(?:_|$)`
abbrev word_end : Re
word_end = or eps (seq (lit "_") anything)

abbrev path_of_flag : Option String → String
path_of_flag none = ""
path_of_flag (some rest) = replace_char b'\\' b'/' rest

abbrev is_runtime_path : String → Bool
is_runtime_path path =
    starts_with path ".yolo/"
    || starts_with path ".pi/"
    || starts_with path ".agent/"
    || text_eq path "AGENTS.md"
    || text_eq path "CLAUDE.md"
    || text_eq path "docs/progress.md"

owner_words : List String
owner_words =
    "VALIDATOR_REJECTED" ∷ "PLAN_REJECTED" ∷ "RUNTIME" ∷ "BUGFIX" ∷ "CONTRACT" ∷ "RESULT_STATUS"
    ∷ "GATE" ∷ "JOURNAL" ∷ "AGENT" ∷ "WORKTREE" ∷ "COMMAND_RERUN" ∷ "ADJUDICATION" ∷ []

unfoldable pub is_runtime_owned_recovery_flag : String → Bool
unfolding owner_words
is_runtime_owned_recovery_flag flag =
    let code = flag_code flag in
    if is_non_recoverable_runtime_flag flag
    then true
    else if matches (seq (lits_i owner_words) word_end) code
    then true
    else if begins
        (seq (lits_i ("MISSING_" ∷ "INVALID_" ∷ [])) (
          seq (star dot) (
            lits_i
              ("ARTIFACT" ∷ "MANIFEST" ∷ "RESULT" ∷ "GATE" ∷ "JOURNAL" ∷ "REPORT" ∷ "SHAPE" ∷ []))))
        code
    then true
    else if matches
        (seq
          (lits_i ("ARTIFACT" ∷ "CHANGED_FILE" ∷ "LOCAL_ONLY_FILE" ∷ "WIRING_VERIFIER_FILE" ∷ []))
          (seq (lit_i "_") (lits_i ("MISSING" ∷ "MISSING_METADATA" ∷ []))))
        code
    then is_runtime_path (path_of_flag (after? b':' flag))
    else if matches
        (lits_i (
          "TEMPLATE_MANAGED_PROTECTED_PATH" ∷ "PROTECTED_PATH" ∷ "RUNTIME_ONLY_PATH"
          ∷ "SUPPORT_LOOP_STALE" ∷ []))
        code
    then true
    else matches
        (lits_i (
          "MODULARITY_RULE_FILE_LIMIT_VIOLATION"
          ∷ "FUTURE_PHASE_SUCCESS_CRITERIA_RECORDED_AS_MANUAL_NOT_FINDINGS"
          ∷ "WORKFLOW_INFERRED_VALIDATE_PRD_RUNTIME_PLACEHOLDER_UNAVAILABLE" ∷ []))
        code

abbrev signature_flags : String → List String
signature_flags signature =
    filter (λ flag. not (text_eq flag "")) (map trim (split_on b'|' signature))

unfoldable pub is_runtime_owned_recovery_signature : String → Bool
is_runtime_owned_recovery_signature signature =
    if is_empty (signature_flags signature)
    then false
    else all is_runtime_owned_recovery_flag (signature_flags signature)

unfoldable pub runtime_owned_failure_requires_stop : String → Bool
runtime_owned_failure_requires_stop signature = is_runtime_owned_recovery_signature signature

pub record RuntimePoisonedRecoveryLoop : Type 0 where
  pub signature : String
  pub flags : List String

unfoldable pub runtime_poisoned_recovery_loop :
    String → List String → Option String → Option RuntimePoisonedRecoveryLoop
runtime_poisoned_recovery_loop previous flags failure_type =
    let signature = failure_signature flags failure_type in
    let blocking = blocking_recovery_flags flags failure_type in
    if not (text_eq signature previous)
    then none
    else if is_empty blocking
    then none
    else if not (all is_runtime_owned_recovery_flag blocking)
    then none
    else some (record { signature = signature; flags = blocking })

unfoldable pub requires_human_security_approval : List String → Bool
requires_human_security_approval flags =
    any
      (λ flag.
        starts_with flag "EXTERNAL_MUTATION_NOT_ALLOWED:"
        || starts_with flag "EXTERNAL_MUTATION_COMMAND_NOT_ALLOWED:"
        || starts_with flag "EXTERNAL_MUTATION_EVIDENCE_NOT_ALLOWED:")
      flags

unfoldable pub has_non_recoverable_runtime_blocker : List String → Bool
has_non_recoverable_runtime_blocker flags = any is_non_recoverable_runtime_flag flags

unfoldable pub should_capture_poisoned_batch_incident_fixture : List String → Option String → Bool
should_capture_poisoned_batch_incident_fixture flags failure_type =
    has flags "RUNTIME_POISONED_RECOVERY_LOOP"
    || runtime_owned_failure_requires_stop (failure_signature flags failure_type)

-- All that a run computes with.
unfoldable pub runs : Unit {0}
unfolding normalize_recovery_flag add_normalized blocking_recovery_flags failure_signature
    is_runtime_owned_recovery_flag is_runtime_owned_recovery_signature
    runtime_owned_failure_requires_stop runtime_poisoned_recovery_loop
    requires_human_security_approval has_non_recoverable_runtime_blocker
    should_capture_poisoned_batch_incident_fixture set_add sort_texts text_leb Verdicts.runs begins
    ends
runs = tt
