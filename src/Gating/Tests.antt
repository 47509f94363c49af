-- ===== src/Gating/Tests.antt =====
-- Runs of the gates, with a world that lists the telemetry marks.
use trade_compliance_classif.Prelude.{
  ◌-◌, ◌<◌, ◌≡◌, refl, true, false, ◌&&◌, ◌||◌, Option, none, some, List, [], ◌∷◌, ◌++◌, String,
  is_empty, arith,
}
use trade_compliance_classif.Prelude.Text.{◌⧺◌}
use trade_compliance_classif.Prelude.Sets.{has}
use trade_compliance_classif.Types.{AgentRole, ResultStatus, Artifact, BatchResult}
use trade_compliance_classif.Risk.{ValidationMode}
use trade_compliance_classif.Flags
use trade_compliance_classif.Gating.{
  GateTask, gates_passed, gate_passes, blocking_gate_names, run_gate_task, skipped_gate, run_tasks,
  skip_tasks, validate_gates,
}
use trade_compliance_classif.Gating.Pipeline.{validate_gates-run_tasks}
use trade_compliance_classif.Gating.Previous.{
  gate_path, result_path, has_batch_result, has_completed_batch_commit, tells_of_completion,
  verify_previous_batch_gates,
}
use trade_compliance_classif.Gating.Previous
use trade_compliance_classif.Gating.Previous.Repair.{verify_previous_batch_gates-is_empty}
use trade_compliance_classif.Gating.Validators
use trade_compliance_classif.Gating.Validators.{
  PathPolicy, validate_paths, validate_artifacts, validate_local_only_files, validate_secrets,
}

abbrev Marks : Type 0
Marks = List String

abbrev note : String → String → String → Marks → Marks
note name status detail marks = marks ++ ((name ⧺ ":" ⧺ status) ∷ [])

abbrev passing : String → GateTask Marks
passing name = record {
  name = name;
  run = λ w. (record { name = name; passed = true; flags = [] }, w);
}

abbrev failing : String → GateTask Marks
failing name = record {
  name = name;
  run = λ w. (record { name = name; passed = false; flags = "TESTS_FAILED" ∷ [] }, w);
}

gates_run :
    ((validate_gates note none (failing "tdd" ∷ []) (passing "wiring" ∷ []) []).1
      ≡ "tdd:started" ∷ "tdd:failed" ∷ "wiring:skipped" ∷ [])
    × ((validate_gates note
          (some ValidationMode.safe)
          (failing "tdd" ∷ [])
          (passing "wiring" ∷ [])
          []).1
        ≡ "tdd:started" ∷ "tdd:failed" ∷ "wiring:started" ∷ "wiring:passed" ∷ [])
    × (gates_passed (validate_gates note none (passing "tdd" ∷ []) (passing "wiring" ∷ []) []).0
        ≡ true)
    × (gates_passed (validate_gates note none (failing "tdd" ∷ []) (passing "wiring" ∷ []) []).0
        ≡ false)
unfolding validate_gates run_tasks skip_tasks run_gate_task skipped_gate blocking_gate_names
    gates_passed gate_passes Flags.runs
gates_run = (refl, refl, refl, refl)

validate_gates-run_tasks_example :
    validate_gates note none (passing "tdd" ∷ []) (passing "wiring" ∷ []) []
    ≡ run_tasks note ((passing "tdd" ∷ []) ++ (passing "wiring" ∷ [])) []
validate_gates-run_tasks_example =
    validate_gates-run_tasks note none (passing "tdd" ∷ []) (passing "wiring" ∷ []) [] (gates_run.2)

abbrev gate_files : List String
gate_files = gate_path "e2e" 4 ∷ gate_path "journal" 4 ∷ result_path 4 "bugfix" ∷ []

abbrev commits : Option String
commits = some "chore: x\nfeat(yolo): complete batch 004\r\n"

previous_run :
    (has_completed_batch_commit commits 4 ≡ true)
    × (has_completed_batch_commit commits 5 ≡ false)
    × (tells_of_completion 4 "batch 004 incomplete" ≡ false)
    × ((verify_previous_batch_gates commits 5 gate_files).0 ≡ [])
    × ((verify_previous_batch_gates none 5 gate_files).0 ≡ ".yolo/gates/closeout-batch-004.md" ∷ [])
unfolding Previous.runs
previous_run = (refl, refl, refl, refl, refl)

after_the_first : 1 < 5
after_the_first = omega arith

verify_previous_batch_gates-is_empty_example :
    is_empty (verify_previous_batch_gates commits 5 gate_files).0 ≡ (
      has gate_files (gate_path "e2e" (5 - 1))
      && has gate_files (gate_path "journal" (5 - 1))
      && (has gate_files (gate_path "closeout" (5 - 1))
          || has_batch_result gate_files (5 - 1) && has_completed_batch_commit commits (5 - 1)))
verify_previous_batch_gates-is_empty_example =
    verify_previous_batch_gates-is_empty commits 5 gate_files after_the_first

abbrev policy : PathPolicy
policy = record {
  allowed_generated_paths = [];
  blocked_paths = "dist/" ∷ [];
  protected_paths = ".env" ∷ [];
  local_only_paths = "notes.md" ∷ [];
}

abbrev result_with : List String → List Artifact → Option (List String) → BatchResult
result_with files artifacts local = record {
  schema_version = 1;
  agent = AgentRole.implement;
  batch = 12;
  status = ResultStatus.success;
  items_completed = [];
  files_changed = files;
  tests = [];
  wiring = none;
  project_local_checks = none;
  business_logic = none;
  artifacts = artifacts;
  local_only_files = local;
  inbox = none;
  failure_type = none;
  flags = [];
  commit = none;
}

abbrev drawing : String → Artifact
drawing path = record { path = path; description = none }

validators_run :
    ((validate_paths policy
        (λ r. "")
        ("src/a.ts" ∷ "../b.ts" ∷ ".yolo/runtime/state.json" ∷ [])
        (result_with [] [] none)).flags
      ≡ "UNSAFE_PATH:../b.ts" ∷ "RUNTIME_ONLY_PATH:.yolo/runtime/state.json" ∷ [])
    × ((validate_artifacts
          (λ path. some "h")
          (result_with [] (drawing "a.pdf" ∷ drawing "n/a" ∷ drawing "b.pdf" ∷ []) none)).flags
        ≡ "ARTIFACT_DUPLICATE_DETECTED:a.pdf:b.pdf" ∷ [])
    × ((validate_local_only_files policy
          (λ file. true)
          (λ file. false)
          (result_with [] [] (some ("notes.md" ∷ [])))).flags
        ≡ "LOCAL_ONLY_NOT_GITIGNORED:notes.md" ∷ [])
    × ((validate_secrets
          (λ file. some "key = AKIA0123456789ABCDEF;")
          (result_with ("a.ts" ∷ "https://x" ∷ []) [] none)).flags
        ≡ "SECRET_PATTERN:a.ts" ∷ [])
unfolding Validators.runs
validators_run = (refl, refl, refl, refl)
