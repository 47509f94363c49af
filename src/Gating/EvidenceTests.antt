-- ===== src/Gating/EvidenceTests.antt =====
-- Runs of the validators of evidence and of business logic.
use trade_compliance_classif.Prelude.{
  ◌≡◌, refl, true, false, Option, none, some, List, [], ◌∷◌, ℕ, String,
}
use trade_compliance_classif.Types.{
  AgentRole, ResultStatus, TestEvidence, ProjectLocalChecks, BusinessLogic, BatchResult, BatchType,
  Batch,
}
use trade_compliance_classif.Gating.Business
use trade_compliance_classif.Gating.Business.{is_business_source, validate_business_logic}
use trade_compliance_classif.Gating.Evidence
use trade_compliance_classif.Gating.Evidence.{
  has_dishonest_skip_claim, is_failing_state_probe, is_module_entry, validate_tdd,
  validate_project_checks,
}

abbrev run_of : String → ℕ → TestEvidence
run_of command exit_code = record {
  command = command;
  exit_code = exit_code;
  evidence = "manual only";
}

abbrev result_of : List (String × TestEvidence) → Option ProjectLocalChecks → BatchResult
result_of tests checks = record {
  schema_version = 1;
  agent = AgentRole.implement;
  batch = 12;
  status = ResultStatus.success;
  items_completed = [];
  files_changed = [];
  tests = tests;
  wiring = none;
  project_local_checks = checks;
  business_logic = none;
  artifacts = [];
  local_only_files = none;
  inbox = none;
  failure_type = none;
  flags = [];
  commit = none;
}

evidence_run :
    (has_dishonest_skip_claim "It was Manually verified." ≡ true)
    × (is_failing_state_probe "ssh host test -e /x" "observed: missing" ≡ true)
    × (is_failing_state_probe "egrepper" "observed: missing" ≡ false)
    × (is_failing_state_probe "grep x y" "observed: missing, then green" ≡ false)
    × (is_module_entry (record { type = "py"; path = "a.b"; verified_by = "" }) ≡ true)
    × ((validate_tdd
          (λ tests. "manual only")
          (result_of (("red", run_of "npm test" 0) ∷ ("green", run_of "npm test" 1) ∷ []) none)
          true).flags
        ≡ "MISSING_REGRESSION_EVIDENCE" ∷ "RED_DID_NOT_FAIL" ∷ "GREEN_DID_NOT_PASS"
          ∷ "DISHONEST_TEST_SKIP_LANGUAGE" ∷ [])
    × ((validate_project_checks 3 (result_of [] none)).flags
        ≡ "MISSING_PROJECT_LOCAL_CHECK_EVIDENCE" ∷ [])
unfolding Evidence.runs
evidence_run = (refl, refl, refl, refl, refl, refl, refl)

abbrev model_batch : Batch
model_batch = record {
  number = 12;
  items =
      record {
        raw = "";
        tag = "[MODEL]";
        title = "";
        phase = "";
        checked = false;
        details = [];
        affected_files = [];
      }
      ∷ [];
  type = BatchType.implement;
  support_kind = none;
  support_scope = none;
}

abbrev with_business : List String → Option BusinessLogic → BatchResult
with_business files evidence = record (result_of [] none) {
  files_changed = files;
  business_logic = evidence;
}

abbrev no_rule : BusinessLogic
no_rule = record { rule = ""; source_of_truth = "prd"; observable_paths = "/a" ∷ []; test = "t" }

business_run :
    (is_business_source "web\\SRC\\a.ts" ≡ true)
    × (is_business_source "src/__tests__/a.ts" ≡ false)
    × ((validate_business_logic (λ a. "") none model_batch (with_business [] none)).flags
        ≡ "MISSING_BUSINESS_LOGIC_EVIDENCE" ∷ [])
    × ((validate_business_logic
          (λ a. "")
          (some false)
          model_batch
          (with_business [] (some no_rule))).flags
        ≡ [])
    × ((validate_business_logic
          (λ a. "")
          (some false)
          model_batch
          (with_business ("api/a.ts" ∷ []) (some no_rule))).flags
        ≡ "BUSINESS_LOGIC_UNTOUCHED_CONTRADICTS_BATCH_SCOPE" ∷ "BUSINESS_LOGIC_RULE_MISSING" ∷ [])
unfolding Business.runs
business_run = (refl, refl, refl, refl, refl)
