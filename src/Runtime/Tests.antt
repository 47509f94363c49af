-- ===== src/Runtime/Tests.antt =====
-- Runs of the runtime in a world that logs the events of a batch and counts the bugfix agents sent. The
-- gates fail until the first of those.
use trade_compliance_classif.Prelude.{
  ℕ, zero, suc, ◌+◌, ◌*◌, ◌≤◌, ◌≡◌, refl, true, false, ◌||◌, none, some, List, [], ◌∷◌, ◌++◌,
  if◌then◌else◌,
}
use trade_compliance_classif.Prelude.Text.{◌⧺◌, text_eq}
use trade_compliance_classif.Support.{kind_text}
use trade_compliance_classif.Types.{
  SupportKind, AgentRole, ResultStatus, Batch, BatchType, BatchResult, GateResult,
}
use trade_compliance_classif.Findings.{RuntimeBatchState, RiskClass}
use trade_compliance_classif.Recovery.{
  requires_human_security_approval, has_non_recoverable_runtime_blocker,
  runtime_owned_failure_requires_stop, failure_signature,
}
use trade_compliance_classif.Runtime.{Runtime}
use trade_compliance_classif.Runtime.Recover.{rejected, recover_gate_failure, runs}
use trade_compliance_classif.Runtime.Recover.Checked.{IsChecked, recover_gate_failure-IsChecked}
use trade_compliance_classif.Runtime.Recover.Measure.{IsMeasure}
use trade_compliance_classif.Runtime.Recover.Budget.{IsCount, recover_gate_failure-count}
use trade_compliance_classif.Risk
use trade_compliance_classif.Findings.State.{record_gate_state}
use trade_compliance_classif.Runtime.Adversarial.{validate_adversarial}
use trade_compliance_classif.Runtime.Single
use trade_compliance_classif.Runtime.Single.{
  complete, selected, implement, settle_gates, block, recheck, challenge, run_merge_readiness_gate,
  merge_batch, commit_batch, pre_journal_sync_candidates, final_sync_candidates, Surroundings,
  Settings, run_single_batch,
}
use trade_compliance_classif.Runtime.Single.Events.{
  Event, synced, synced_local, ticked, due_marked, inbox_reconciled, closed, claim_done, committed,
  IsLog,
}
use trade_compliance_classif.Runtime.Single.Course.{events_of, run_single_batch-events}

record World : Type 0 where
  events : List Event
  sent : ℕ

abbrev calm : World
calm = record { events = []; sent = 0 }

abbrev log_event : Event → World → World
log_event event w = record w { events = w.events ++ (event ∷ []) }

abbrev a_result : AgentRole → BatchResult
a_result agent = record {
  schema_version = 1;
  agent = agent;
  batch = 12;
  status = ResultStatus.success;
  items_completed = [];
  files_changed = "src/a.ts" ∷ [];
  tests = [];
  wiring = none;
  project_local_checks = none;
  business_logic = none;
  artifacts = [];
  local_only_files = none;
  inbox = none;
  failure_type = none;
  flags = [];
  commit = none;
}

abbrev a_state : BatchResult → RuntimeBatchState
a_state result = record {
  batch = 12;
  selected_items = [];
  changed_files = [];
  risk = record { class = RiskClass.low; reasons = [] };
  current_result = result;
  findings = [];
  commands = [];
  gates = [];
  closure_traces = [];
  open_explanations = [];
  updated_at = "";
}

abbrev gates_after : ℕ → List GateResult
gates_after zero = record { name = "tdd"; passed = false; flags = "TESTS_FAILED" ∷ [] } ∷ []
gates_after (suc n) = record { name = "tdd"; passed = true; flags = [] } ∷ []

abbrev calm_runtime : Runtime World
calm_runtime = record {
  set_phase = λ p w. w;
  set_checkpoint = λ c v w. w;
  finish_runtime = λ s w. w;
  reject_batch = λ flags w. w;
  set_gates = λ gates w. w;
  write_runtime_gates = λ gates w. w;
  write_gate = λ g r w. if text_eq g "closeout" then log_event closed w else w;
  run_bugfix_agent = λ v flags n w. (a_result AgentRole.bugfix, record w { sent = suc w.sent });
  run_validator = λ w. (a_result AgentRole.validate, w);
  run_adjudication_agent = λ r w. w;
  read_existing_adjudication = λ w. none;
  read_adjudication_file = λ w. none;
  copy_adjudication = λ w. w;
  canonicalize_batch_result_manifests = λ w. w;
  read_batch_result = λ w path. a_result AgentRole.implement;
  import_agent_result_to_state = λ source r w. (a_state (a_result AgentRole.implement), w);
  validate_all_with_state = λ r w. (gates_after w.sent, a_state r, w);
  exec_command = λ c w. (0, w);
  json_of_entrypoint = λ entry. entry.path;
}

abbrev a_batch : Batch
a_batch = record {
  number = 12;
  items =
      record {
        raw = "- [ ] [API] Quote";
        tag = "[API]";
        title = "Quote";
        phase = "Phase 1";
        checked = false;
        details = [];
        affected_files = [];
      }
      ∷ [];
  type = BatchType.implement;
  support_kind = none;
  support_scope = none;
}

abbrev calm_surroundings : Surroundings World
calm_surroundings = record {
  runtime = calm_runtime;
  make_batch = λ w. (a_batch, w);
  reset_runtime_state = λ w. w;
  verify_previous_batch_gates = λ n w. ([], w);
  prepare_runtime_claim = λ b w. (record { name = "claims"; passed = true; flags = [] }, w);
  mark_runtime_claim = λ s w. if text_eq s "done" then log_event claim_done w else w;
  create_worktree = λ w. w;
  build_visible_batch_context = λ w. w;
  run_implementation_agent = λ w. (a_result AgentRole.implement, w);
  record_speed_observations = λ r w. w;
  copy_batch_result_artifacts = λ w. w;
  write_runtime_batch_state = λ s w. w;
  append_journal = λ r gates w. w;
  validate_worktree_merge_readiness =
      λ files w. (record { name = "merge"; passed = true; flags = [] }, w);
  reuse_or_run_journal_agent = λ r w. (some (a_result AgentRole.journal), w);
  handle_rejected = λ r flags w. w;
  sync_worktree_changes_to_root = λ files w. log_event synced w;
  sync_local_only_files_to_root = λ files w. log_event synced_local w;
  tick_progress_items = λ b w. log_event ticked w;
  mark_phase_support_due = λ b w. log_event due_marked w;
  reconcile_inbox = λ r w. log_event inbox_reconciled w;
  cleanup_docker = λ w. w;
  create_commit = λ m w. log_event committed w;
  prune_successful_worktrees = λ w. w;
}

abbrev plain_settings : Settings
plain_settings = record {
  dry_run = false;
  max_bugfix_attempts = some 2;
  validation_mode = none;
  require_adversarial_validation = true;
  now = "2026-01-01";
}

recovered_run :
    (recover_gate_failure calm_runtime 12 2
      (a_result AgentRole.implement)
      ("TESTS_FAILED" ∷ [])
      calm).0.result
    ≡ some (a_result AgentRole.implement)
unfolding runs
recovered_run = refl

recover_gate_failure-IsChecked_example :
    IsChecked calm_runtime 12 2
      (a_result AgentRole.implement)
      ("TESTS_FAILED" ∷ [])
      calm
      (a_result AgentRole.implement)
      (recover_gate_failure calm_runtime 12 2
        (a_result AgentRole.implement)
        ("TESTS_FAILED" ∷ [])
        calm).1
recover_gate_failure-IsChecked_example =
    recover_gate_failure-IsChecked calm_runtime 12 2 (a_result AgentRole.implement)
      ("TESTS_FAILED" ∷ []) calm (a_result AgentRole.implement) recovered_run

calm-IsCount : IsCount calm_runtime (λ w. w.sent)
calm-IsCount = record {
  bugfix_counts = λ v flags n w. refl;
  phase_keeps = λ p w. refl;
  finish_keeps = λ s w. refl;
  gates_keep = λ gates w. refl;
  runtime_gates_keep = λ gates w. refl;
  gate_keeps = λ w. refl;
  adjudicator_keeps = λ r w. refl;
  copy_keeps = λ w. refl;
  canonicalize_keeps = λ w. refl;
  import_keeps = λ s r w. refl;
  reject_keeps = λ flags w. refl;
  exec_keeps = λ command w. refl;
  validator_keeps = λ w. refl;
  validate_keeps = λ r w. refl;
}

recover_gate_failure-count_example :
    (0
      ≤ (recover_gate_failure calm_runtime 12 2
          (a_result AgentRole.implement)
          ("TESTS_FAILED" ∷ [])
          calm).1.sent)
    × ((recover_gate_failure calm_runtime 12 2
          (a_result AgentRole.implement)
          ("TESTS_FAILED" ∷ [])
          calm).1.sent
        ≤ 0
          + (if requires_human_security_approval ("TESTS_FAILED" ∷ [])
                || has_non_recoverable_runtime_blocker ("TESTS_FAILED" ∷ [])
                || runtime_owned_failure_requires_stop
                    (failure_signature ("TESTS_FAILED" ∷ []) rejected)
              then 0
              else 2 * 4))
recover_gate_failure-count_example =
    recover_gate_failure-count calm_runtime (λ w. w.sent) calm-IsCount 12 2
      (a_result AgentRole.implement) ("TESTS_FAILED" ∷ []) calm

calm-IsMeasure : IsMeasure calm_runtime (λ w. w.events) (λ events. events)
calm-IsMeasure = record {
  bugfix_counts = λ v flags n w. refl;
  phase_keeps = λ p w. refl;
  finish_keeps = λ s w. refl;
  gates_keep = λ gates w. refl;
  runtime_gates_keep = λ gates w. refl;
  gate_keeps = λ w. refl;
  adjudicator_keeps = λ r w. refl;
  copy_keeps = λ w. refl;
  canonicalize_keeps = λ w. refl;
  import_keeps = λ s r w. refl;
  reject_keeps = λ flags w. refl;
  exec_keeps = λ command w. refl;
  validator_keeps = λ w. refl;
  validate_keeps = λ r w. refl;
}

support_silent :
    (kind : SupportKind) (w : World)
    → (calm_runtime.write_gate ("support-" ⧺ kind_text kind) "PASS" w).events ≡ w.events
support_silent SupportKind.modularity w = refl
support_silent SupportKind.validate_prd w = refl
support_silent SupportKind.security_audit w = refl

calm-IsLog : IsLog calm_surroundings (λ w. w.events)
calm-IsLog = record {
  runtime_keeps = calm-IsMeasure;
  sync_logs = λ files w. refl;
  local_logs = λ files w. refl;
  tick_logs = λ b w. refl;
  due_logs = λ b w. refl;
  inbox_logs = λ r w. refl;
  closeout_logs = λ w. refl;
  done_logs = λ w. refl;
  commit_logs = λ m w. refl;
  findings_keep = λ w. refl;
  support_keeps = support_silent;
  blocked_keeps = λ w. refl;
  checkpoint_keeps = λ c v w. refl;
  make_keeps = λ w. refl;
  reset_keeps = λ w. refl;
  previous_keeps = λ n w. refl;
  claim_keeps = λ b w. refl;
  worktree_keeps = λ w. refl;
  context_keeps = λ w. refl;
  implement_keeps = λ w. refl;
  observe_keeps = λ r w. refl;
  copy_keeps = λ w. refl;
  state_keeps = λ b w. refl;
  journal_keeps = λ r gates w. refl;
  readiness_keeps = λ files w. refl;
  agent_keeps = λ r w. refl;
  rejected_keeps = λ r flags w. refl;
  docker_keeps = λ w. refl;
  prune_keeps = λ w. refl;
}

run_single_batch-events_example :
    (run_single_batch calm_surroundings plain_settings calm).1.events
    ≡ []
      ++ (if false
          then []
          else events_of (run_single_batch calm_surroundings plain_settings calm).0)
run_single_batch-events_example =
    run_single_batch-events calm_surroundings (λ w. w.events) calm-IsLog plain_settings calm

single_run :
    ((run_single_batch calm_surroundings plain_settings calm).0 ≡ complete)
    × ((run_single_batch calm_surroundings (record plain_settings { dry_run = true }) calm).1.events
        ≡ [])
unfolding runs run_single_batch selected Single.claimed implement settle_gates block recheck
    challenge run_merge_readiness_gate merge_batch commit_batch validate_adversarial
    record_gate_state Risk.runs pre_journal_sync_candidates final_sync_candidates
single_run = (refl, refl)
