-- ===== src/Paths/Tests.antt =====
-- Runs of path-policy.ts and affected-tests.ts.
use trade_compliance_classif.Prelude.{◌≡◌, refl, true, false, none, List, [], ◌∷◌, ◌++◌, String}
use trade_compliance_classif.Types.{AgentRole, ResultStatus, BatchType, Batch, BatchResult}
use trade_compliance_classif.Paths.{
  classify_runtime_path, normalize_comparable_path, is_runtime_operational_path,
  matches_policy_pattern, matches_any_policy_pattern, copy, runs,
}
use trade_compliance_classif.Paths.Affected
use trade_compliance_classif.Paths.Affected.{listed_files, plan_affected_tests}
use trade_compliance_classif.Paths.Delivered.{
  rejected_paths, IsForDelivered, plan_affected_tests-IsForDelivered,
}
use trade_compliance_classif.Paths.Ownership.{IsConsistent, classify_runtime_path-IsConsistent}

-- The last but one path is called safe although it is absolute once it is normalised.
paths_run :
    ((classify_runtime_path " './src\\main.rs' ").path ≡ "src/main.rs")
    × ((classify_runtime_path "src/../../a").reason ≡ "unsafe-relative-path")
    × ((classify_runtime_path "C:\\a").reason ≡ "unsafe-relative-path")
    × ((classify_runtime_path ".YOLO/events/a.json").reason ≡ "runtime-control-plane")
    × ((classify_runtime_path ".yolo/gates/e2e-batch-001.md").reason
        ≡ "runtime-artifact-deliverable")
    × ((classify_runtime_path "web/node_modules/a.js").reason ≡ "generated-local-output")
    × ((classify_runtime_path "tools/klevar-pi-package/dist/a.js").reason
        ≡ "vendored-klevar-tooling")
    × (normalize_comparable_path "a//" ≡ "a/")
    × (is_runtime_operational_path ".yolo/command-cache.json" ≡ true)
    × (matches_policy_pattern "a/secrets/b" "secrets/" ≡ true)
    × (matches_policy_pattern "a/secrets/b" "a/b*" ≡ false)
    × (matches_any_policy_pattern "config/prod.env" ("docs" ∷ "*.env" ∷ []) ≡ true)
    × ((classify_runtime_path ".//etc/passwd").path ≡ "/etc/passwd")
    × ((classify_runtime_path ".//etc/passwd").sync ≡ copy)
unfolding runs
paths_run = (refl, refl, refl, refl, refl, refl, refl, refl, refl, refl, refl, refl, refl, refl)

classify_runtime_path-IsConsistent_example :
    IsConsistent ".agent/rules/a.md" (classify_runtime_path ".agent/rules/a.md")
classify_runtime_path-IsConsistent_example = classify_runtime_path-IsConsistent ".agent/rules/a.md"

abbrev reviewed : Batch
reviewed = record {
  number = 3;
  items =
      record {
        raw = "";
        tag = "[API]";
        title = "";
        phase = "";
        checked = false;
        details = [];
        affected_files = "./src/b.ts" ∷ "src/a_test.py" ∷ [];
      }
      ∷ [];
  type = BatchType.implement;
  support_kind = none;
  support_scope = none;
}

abbrev changed : List String → BatchResult
changed files = record {
  schema_version = 1;
  agent = AgentRole.implement;
  batch = 3;
  status = ResultStatus.success;
  items_completed = [];
  files_changed = files;
  tests = [];
  wiring = none;
  project_local_checks = none;
  business_logic = none;
  artifacts = [];
  local_only_files = none;
  inbox = none;
  failure_type = none;
  flags = [];
  commit = none;
}

abbrev some_files : List String
some_files = "src/b.ts" ∷ ".env" ∷ "tests/a.scala" ∷ "../c.rs" ∷ []

affected_run :
    ((plan_affected_tests reviewed (changed some_files)).files
      ≡ "src/a_test.py" ∷ "src/b.ts" ∷ "tests/a.scala" ∷ [])
    × ((plan_affected_tests reviewed (changed some_files)).candidate_commands
        ≡ "pytest src/a_test.py" ∷ "npm test" ∷ "test tests/a.scala" ∷ "./gradlew test" ∷ [])
    × (rejected_paths (plan_affected_tests reviewed (changed some_files)).rejected
        ≡ ".env" ∷ "../c.rs" ∷ [])
unfolding Affected.runs
affected_run = (refl, refl, refl)

plan_affected_tests-IsForDelivered_example :
    IsForDelivered
      (listed_files reviewed.items ++ some_files)
      (plan_affected_tests reviewed (changed some_files))
plan_affected_tests-IsForDelivered_example =
    plan_affected_tests-IsForDelivered reviewed (changed some_files)
