-- ===== src/Gating/Evidence.antt =====
-- The validators of tools/klevar-yolo-runtime/src/validators/ that judge the evidence of a result: evidence-policy.ts,
-- tdd-validator.ts, e2e-validator.ts and project-check-validator.ts. `json` is JSON.stringify on the
-- tests; `claimed` is the field `required` of the end-to-end evidence, which it alone has.
use trade_compliance_classif.Prelude.{
  ℕ, Bool, false, not, ◌&&◌, ◌||◌, Option, none, some, List, [], ◌∷◌, ◌++◌, map, String, ◌==◌, ltb,
  if◌then◌else◌, any, all, is_empty,
}
use trade_compliance_classif.Prelude.Text.{
  ◌⧺◌, text_eq, text_runs, to_lower, show, is_blank, is_upper, is_lower, is_digit,
}
use trade_compliance_classif.Prelude.Sets.{when, has}
use trade_compliance_classif.Prelude.Regex.{
  Re, eps, one, seq, or, star, anything, plus, optional, lit, lit_i, lits_i, matches, begins,
  search_in,
}
use trade_compliance_classif.Types.{
  ProgressItem, Batch, TestEvidence, Entrypoint, Wiring, ProjectLocalChecks, BatchResult,
  GateResult,
}
use trade_compliance_classif.Recovery.Parts
use trade_compliance_classif.Recovery.Parts.{Tests as Phases, phase, is_runnable_test_evidence}
use trade_compliance_classif.Gating.Validators.{gate_of}

abbrev pub is_runnable_evidence : Option TestEvidence → Bool
is_runnable_evidence none = false
is_runnable_evidence (some e) = is_runnable_test_evidence e

abbrev pub is_passing_runnable_evidence : Option TestEvidence → Bool
is_passing_runnable_evidence none = false
is_passing_runnable_evidence (some e) = is_runnable_test_evidence e && e.exit_code == 0

unfoldable pub has_dishonest_skip_claim : String → Bool
has_dishonest_skip_claim text =
    search_in
      (lits_i (
        "covered by integration" ∷ "deferred" ∷ "not needed" ∷ "manual only" ∷ "manual testing only"
        ∷ "manually verified" ∷ "manual check" ∷ "will do later" ∷ "not enough time" ∷ []))
      text

abbrev is_word : ℕ → Bool
is_word c = is_upper c || is_lower c || is_digit c || c == b'_'

abbrev blanks : Re
blanks = star (one is_blank)

abbrev outside : Re
outside = one (λ c. not (is_word c))

-- `\b` before a word, and after one, with what stands around the match.
abbrev from_word : Re → Re
from_word r = seq (or eps (seq anything outside)) r

abbrev to_word_end : Re → Re
to_word_end r = seq r (or eps (seq outside anything))

-- `test\s+!?\s*-e`
abbrev file_test : String → Re
file_test flag =
    seq (lit_i "test")
      (seq (plus (one is_blank)) (seq (optional (lit "!")) (seq blanks (lit_i flag))))

abbrev hyphen_or_blank : Re
hyphen_or_blank = optional (one (λ c. c == b'-' || c == b' '))

unfoldable pub is_failing_state_probe : String → String → Bool
is_failing_state_probe command evidence =
    let text = command ⧺ ("\n" ⧺ evidence) in
    let probe = from_word (
      or (seq (or (file_test "-e") (file_test "-f")) anything)
        (to_word_end (lits_i ("grep" ∷ "rg" ∷ "curl" ∷ "ssh" ∷ "SELECT" ∷ "SHOW" ∷ [])))) in
    let earlier = from_word (
      to_word_end (
        or (seq (lit_i "pre") (seq hyphen_or_blank (lit_i "fix"))) (
          lits_i (
            "before" ∷ "reproduc" ∷ "returned" ∷ "reported" ∷ "observed"
            ∷ "matching validator failure" ∷ "failing acceptance condition" ∷ [])))) in
    let state = from_word (
      to_word_end (
        lits_i (
          "present" ∷ "absent" ∷ "found" ∷ "missing" ∷ "exists" ∷ "not found" ∷ "failure" ∷ "failed"
          ∷ "invalid" ∷ "drift" ∷ "blocked" ∷ []))) in
    let later = from_word (
      to_word_end (
        or (seq (lit_i "post") (seq hyphen_or_blank (lit_i "fix")))
          (lits_i ("after" ∷ "green" ∷ "passed after" ∷ [])))) in
    matches probe command
    && (matches earlier evidence && matches state evidence)
    && not (matches later text)

abbrev missing : Option TestEvidence → String → List String
missing none flag = flag ∷ []
missing (some e) flag = []

abbrev red_flags : Option TestEvidence → Bool → List String
red_flags none setup = []
red_flags (some e) setup =
    when (e.exit_code == 0 && not setup && not (is_failing_state_probe e.command e.evidence))
      "RED_DID_NOT_FAIL"

abbrev failed_flags : Option TestEvidence → String → List String
failed_flags none flag = []
failed_flags (some e) flag = when (not (e.exit_code == 0)) flag

abbrev red_fails : Option TestEvidence → Bool
red_fails none = false
red_fails (some e) = not (e.exit_code == 0)

unfoldable pub has_complete_objective_evidence : BatchResult → Bool
has_complete_objective_evidence result =
    red_fails (phase "red" result.tests)
    && is_passing_runnable_evidence (phase "green" result.tests)
    && is_passing_runnable_evidence (phase "regression" result.tests)

unfoldable pub validate_tdd : (Phases → String) → BatchResult → Bool → GateResult
validate_tdd json result required =
    let red = phase "red" result.tests in
    let green = phase "green" result.tests in
    let regression = phase "regression" result.tests in
    let flags =
      missing red "MISSING_RED_EVIDENCE"
      ++ (missing green "MISSING_GREEN_EVIDENCE"
          ++ (missing regression "MISSING_REGRESSION_EVIDENCE"
              ++ (red_flags red (has result.flags "SETUP_TDD_EXCEPTION")
                  ++ (failed_flags green "GREEN_DID_NOT_PASS"
                      ++ (failed_flags regression "REGRESSION_DID_NOT_PASS"
                          ++ when
                              (has_dishonest_skip_claim (json result.tests)
                                && not (has_complete_objective_evidence result))
                              "DISHONEST_TEST_SKIP_LANGUAGE"))))) in
    gate_of "tdd" (if required then flags else [])

entrypoint_tags : List String
entrypoint_tags = "[API]" ∷ "[UI]" ∷ "[JOB]" ∷ "[INTEGRATION]" ∷ []

unfoldable pub needs_e2e : Batch → Bool
unfolding entrypoint_tags
needs_e2e batch = any (λ (item : ProgressItem). has entrypoint_tags item.tag) batch.items

abbrev entrypoints_of : Option Wiring → List Entrypoint
entrypoints_of none = []
entrypoints_of (some wiring) = wiring.entrypoints

abbrev dotted_part : Re
dotted_part = plus (one (λ c. is_word c || c == b'.'))

unfoldable pub is_module_entry : Entrypoint → Bool
is_module_entry entry =
    text_eq (to_lower entry.type) "module"
    || begins (seq dotted_part (seq (lit ".") dotted_part)) entry.path

abbrev is_declined : Option Bool → Bool
is_declined none = false
is_declined (some required) = not required

unfoldable pub has_passing_module_boundary_evidence :
    Batch → BatchResult → Option Bool → TestEvidence → Bool
has_passing_module_boundary_evidence batch result claimed evidence =
    let entrypoints = entrypoints_of result.wiring in
    is_declined claimed
    && evidence.exit_code == 0
    && not (needs_e2e batch)
    && (is_passing_runnable_evidence (phase "green" result.tests)
        || is_passing_runnable_evidence (phase "regression" result.tests))
    && not (is_empty entrypoints)
    && all is_module_entry entrypoints

unfoldable pub e2e_flags : Batch → BatchResult → Option Bool → Option TestEvidence → List String
e2e_flags batch result claimed none = "MISSING_E2E_EVIDENCE" ∷ []
e2e_flags batch result claimed (some e) =
    let boundary = has_passing_module_boundary_evidence batch result claimed e in
    when (not (is_runnable_test_evidence e) && not boundary) "MISSING_RUNNABLE_E2E_COMMAND"
    ++ (when (is_runnable_test_evidence e && not (e.exit_code == 0)) "E2E_DID_NOT_PASS"
        ++ when
            (has_dishonest_skip_claim e.evidence
              && not (is_passing_runnable_evidence (some e))
              && not boundary)
            "E2E_DISHONEST_SKIP")

unfoldable pub validate_e2e : Batch → BatchResult → Option Bool → Bool → GateResult
validate_e2e batch result claimed required =
    gate_of "e2e"
      (if required then e2e_flags batch result claimed (phase "e2e" result.tests) else [])

unfoldable pub check_flags : ℕ → Option ProjectLocalChecks → List String
check_flags expected none = "MISSING_PROJECT_LOCAL_CHECK_EVIDENCE" ∷ []
check_flags expected (some checks) =
    when (ltb checks.evaluated expected)
      ("PROJECT_LOCAL_CHECKS_UNDER_EVALUATED:" ⧺ show checks.evaluated ⧺ "/" ⧺ show expected)
    ++ map (λ triggered. "PROJECT_LOCAL_CHECK_TRIGGERED:" ⧺ triggered) checks.triggered

-- `expected` is the number of the project's checks.
unfoldable pub validate_project_checks : ℕ → BatchResult → GateResult
validate_project_checks expected result =
    gate_of "project-local-checks"
      (if expected == 0 then [] else check_flags expected result.project_local_checks)

-- All that a run computes with.
unfoldable pub runs : Unit {0}
unfolding has_dishonest_skip_claim is_failing_state_probe has_complete_objective_evidence
    validate_tdd needs_e2e is_module_entry has_passing_module_boundary_evidence e2e_flags
    validate_e2e check_flags validate_project_checks Parts.runs begins search_in matches text_runs
    entrypoint_tags
runs = tt
