-- ===== src/Failures/Tests.antt =====
-- Runs of failure-patterns.ts, and its theorems at concrete records.
use trade_compliance_classif.Prelude.{ℕ, ◌≡◌, refl, none, some, List, [], ◌∷◌}
use trade_compliance_classif.Types.{failure, AgentRole, Batch, BatchType, BatchResult}
use trade_compliance_classif.Failures.{failure_key, record_failure, find_record}
use trade_compliance_classif.Failures.History.{
  Tracks, update_after, is_reinforced, record_failure-Tracks,
}
use trade_compliance_classif.Failures.Operations.{
  Operation, failed, reinforce, forget, operate_all, remember_all, operate_all-Tracks,
}

abbrev batch_of : ℕ → Batch
batch_of n = record {
  number = n;
  items = [];
  type = BatchType.implement;
  support_kind = none;
  support_scope = none;
}

abbrev failing : BatchResult
failing = record {
  schema_version = 1;
  agent = AgentRole.implement;
  batch = 1;
  status = failure;
  items_completed = [];
  files_changed = [];
  tests = [];
  wiring = none;
  project_local_checks = none;
  business_logic = none;
  artifacts = [];
  local_only_files = none;
  inbox = none;
  failure_type = some "GATE MISSING";
  flags = "E2E_MISSING:a" ∷ [];
  commit = none;
}

key_run : failure_key failing ≡ "GATE MISSING::e2e_missing:a|gate-missing"
unfolding failure_key
key_run = refl

no_failures : Tracks [] []
unfolding find_record
no_failures = record { valid = tt; same = λ key. refl }

record_failure-Tracks_example :
    Tracks ((failure_key failing, 4) ∷ []) (record_failure "t" 1 (batch_of 4) failing []).0
    × ((record_failure "t" 1 (batch_of 4) failing []).1
        ≡ some (update_after 1 0 (failure_key failing) (is_reinforced (failure_key failing) [])))
record_failure-Tracks_example =
    record_failure-Tracks "t" 1 (batch_of 4) failing [] [] no_failures refl

abbrev some_operations : List Operation
some_operations =
    failed (batch_of 4) failing
    ∷ failed (batch_of 5) failing
    ∷ reinforce (failure_key failing)
    ∷ forget 4
    ∷ []

operate_all-Tracks_example :
    Tracks (remember_all some_operations []) (operate_all "t" 3 some_operations [])
operate_all-Tracks_example = operate_all-Tracks "t" 3 some_operations [] [] no_failures

history_run : remember_all some_operations [] ≡ (failure_key failing, 5) ∷ []
unfolding remember_all
history_run = refl
