-- ===== src/Recovery/Tests.antt =====
-- Runs of the recovery: its flags, its signatures and the results it merges.
use trade_compliance_classif.Prelude.{
  ◌≡◌, refl, ◌⊎◌, true, false, not, ◌&&◌, ◌||◌, none, some, List, [], ◌∷◌, String, arith,
}
use trade_compliance_classif.Prelude.Text.{starts_with}
use trade_compliance_classif.Prelude.Sets.{has}
use trade_compliance_classif.Types.{AgentRole, ResultStatus, TestEvidence, BatchResult}
use trade_compliance_classif.Flags
use trade_compliance_classif.Flags.{is_blocking_flag}
use trade_compliance_classif.Recovery
use trade_compliance_classif.Recovery.{failure_signature, runtime_owned_failure_requires_stop}
use trade_compliance_classif.Recovery.Signatures.{failure_signature-has}
use trade_compliance_classif.Recovery.Merge.{normalize_rel, is_test_like_path}
use trade_compliance_classif.Recovery.Parts.{phase, runs_and_passes, stronger_test_evidence}
use trade_compliance_classif.Recovery.Evidence.{
  KeepsPassing, IsReplaced, merge_recovered_result_from_disk-tests,
}
use trade_compliance_classif.Recovery.Recovered.{
  recovered_flags, is_active_failure_flag, is_semantic_fix_flag,
  bugfix_has_passing_command_evidence, is_runtime_recovery_evidence_flag, merge_recovered_result,
  merge_recovered_result_from_disk, runs,
}
use trade_compliance_classif.Recovery.Recovered.Laws.{has-recovered_flags}

abbrev two_flags : List String
two_flags = "WIRING_MISSING:a" ∷ "TESTS_FAILED" ∷ []

abbrev same_two_flags : List String
same_two_flags = "TESTS_FAILED" ∷ "WIRING_MISSING:a" ∷ "TESTS_FAILED" ∷ []

signatures_run :
    (failure_signature two_flags (some "RUNTIME_GATES_REJECTED")
      ≡ "RUNTIME_GATES_REJECTED|TESTS_FAILED|WIRING_MISSING:a")
    × (runtime_owned_failure_requires_stop
          (failure_signature two_flags (some "RUNTIME_GATES_REJECTED"))
        ≡ false)
    × (runtime_owned_failure_requires_stop
          (failure_signature ("CONTRACT_X" ∷ []) (some "GATE_FAILED"))
        ≡ true)
unfolding Recovery.runs
signatures_run = (refl, refl, refl)

same_members : (x : String) → has two_flags x ≡ has same_two_flags x
same_members x = ground arith

failure_signature-has_example :
    failure_signature two_flags (some "RUNTIME_GATES_REJECTED")
    ≡ failure_signature same_two_flags (some "RUNTIME_GATES_REJECTED")
failure_signature-has_example =
    failure_signature-has two_flags same_two_flags (some "RUNTIME_GATES_REJECTED") same_members

abbrev passed : TestEvidence
passed = record { command = "npm test"; exit_code = 0; evidence = "ok" }

abbrev skipped : TestEvidence
skipped = record { command = "N/A"; exit_code = 0; evidence = "" }

abbrev result_of :
    AgentRole → List String → List String → List (String × TestEvidence) → BatchResult
result_of agent files flags tests = record {
  schema_version = 1;
  agent = agent;
  batch = 12;
  status = ResultStatus.success;
  items_completed = [];
  files_changed = files;
  tests = tests;
  wiring = none;
  project_local_checks = none;
  business_logic = none;
  artifacts = [];
  local_only_files = none;
  inbox = none;
  failure_type = some "GATE_REJECTED";
  flags = flags;
  commit = none;
}

abbrev before_fix : BatchResult
before_fix =
    result_of AgentRole.implement ("src/a.ts" ∷ []) ("WIRING_MISSING:a" ∷ "SCOPE_DRIFT" ∷ [])
      (("green", passed) ∷ [])

abbrev the_fix : BatchResult
the_fix =
    result_of AgentRole.bugfix ("tests/a.test.ts" ∷ [])
      ("RESULT_STATUS_FAILURE:x" ∷ "WIRING_FIXED" ∷ []) (("green", skipped) ∷ [])

merge_run :
    (recovered_flags before_fix the_fix true
      ≡ "RECOVERED_FROM:GATE_REJECTED" ∷ "RECOVERED_SOURCE_FLAG:WIRING_MISSING:a" ∷ "SCOPE_DRIFT"
        ∷ "BUGFIX_RECOVERY_APPLIED" ∷ "RECOVERED_BUGFIX_HISTORY:RESULT_STATUS_FAILURE:x"
        ∷ "WIRING_FIXED" ∷ [])
    × ((merge_recovered_result before_fix the_fix).files_changed
        ≡ "src/a.ts" ∷ "tests/a.test.ts" ∷ [])
    × (phase "green" (merge_recovered_result before_fix the_fix).tests ≡ some passed)
    × (normalize_rel "C:\\work\\.yolo\\gates\\a.md" ≡ ".yolo/gates/a.md")
    × (is_test_like_path "src/a.spec.ts" ≡ true)
unfolding runs
merge_run = (refl, refl, refl, refl, refl)

drift_blocks : is_blocking_flag "SCOPE_DRIFT" ≡ true
unfolding Flags.runs
drift_blocks = refl

has-recovered_flags_example : has (recovered_flags before_fix the_fix true) "SCOPE_DRIFT" ≡ (
    has before_fix.flags "SCOPE_DRIFT"
      && not (is_active_failure_flag "SCOPE_DRIFT" before_fix.failure_type)
    || has the_fix.flags "SCOPE_DRIFT"
      && (not (starts_with "SCOPE_DRIFT" "RESULT_STATUS_FAILURE:")
          && (true
              || not (is_semantic_fix_flag "SCOPE_DRIFT")
              || not true
                && bugfix_has_passing_command_evidence the_fix
                && is_runtime_recovery_evidence_flag "SCOPE_DRIFT")))
has-recovered_flags_example = has-recovered_flags before_fix the_fix true "SCOPE_DRIFT" drift_blocks

green_before : phase "green" before_fix.tests ≡ some passed
unfolding runs
green_before = refl

passed_passes : runs_and_passes passed ≡ true
unfolding runs
passed_passes = refl

merge_recovered_result_from_disk-tests_example :
    let merged = merge_recovered_result_from_disk (λ path. the_fix) 12 before_fix the_fix in
    KeepsPassing "green" passed the_fix merged
    ⊎ ((corrected : BatchResult) × IsReplaced (λ path. the_fix) 12 before_fix the_fix corrected
        × (phase "green" merged.tests
            ≡ stronger_test_evidence (phase "green" corrected.tests) (phase "green" the_fix.tests)))
merge_recovered_result_from_disk-tests_example =
    merge_recovered_result_from_disk-tests (λ path. the_fix) 12 before_fix the_fix "green" passed
      refl green_before passed_passes
