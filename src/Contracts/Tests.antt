-- ===== src/Contracts/Tests.antt =====
-- Runs of the contracts of results, and of the deterministic journal.
use trade_compliance_classif.Prelude.{◌≡◌, ◌↔◌, refl, true, false, none, List, [], ◌∷◌, String}
use trade_compliance_classif.Types.{
  AgentRole, ResultStatus, success, failure, Batch, BatchType, BatchResult,
}
use trade_compliance_classif.Contracts.{
  validate_contract, validate_journal_contract, deterministic_journal_eligible,
  deterministic_journal_result, runs,
}
use trade_compliance_classif.Contracts.Journal.{IsSound, validate_contract-IsSound}

abbrev plain_batch : Batch
plain_batch = record {
  number = 12;
  items = [];
  type = BatchType.implement;
  support_kind = none;
  support_scope = none;
}

abbrev result_with : ResultStatus → List String → BatchResult
result_with status flags = record {
  schema_version = 1;
  agent = AgentRole.implement;
  batch = 12;
  status = status;
  items_completed = [];
  files_changed = [];
  tests = [];
  wiring = none;
  project_local_checks = none;
  business_logic = none;
  artifacts = [];
  local_only_files = none;
  inbox = none;
  failure_type = none;
  flags = flags;
  commit = none;
}

contracts_run :
    ((validate_contract (result_with success [])).passed ≡ true)
    × ((validate_contract (result_with failure ("INVALID_TESTS_SHAPE" ∷ []))).flags
        ≡ "INVALID_TESTS_SHAPE" ∷ "FAILURE_WITHOUT_FAILURE_TYPE" ∷ [])
    × ((validate_journal_contract false true (result_with success [])).flags
        ≡ "INVALID_JOURNAL_AGENT" ∷ "JOURNAL_ENTRY_NOT_CONFIRMED" ∷ [])
    × (deterministic_journal_eligible true plain_batch (result_with success []) [] ≡ true)
    × (deterministic_journal_eligible true plain_batch
          (result_with success ("E2E_MISSING:a" ∷ []))
          []
        ≡ false)
    × ((deterministic_journal_result plain_batch).files_changed
        ≡ "docs/build-journal/012-batch.md" ∷ ".yolo/gates/journal-batch-012.md" ∷ [])
unfolding runs
contracts_run = (refl, refl, refl, refl, refl, refl)

validate_contract-IsSound_example :
    ((validate_contract (result_with success [])).passed ≡ true) ↔ IsSound (result_with success [])
validate_contract-IsSound_example = validate_contract-IsSound (result_with success [])
