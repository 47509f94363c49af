-- ===== src/Runtime/Single.antt =====
-- runSingleBatch of tools/klevar-yolo-runtime/src/runtime.ts: one batch from its selection to its commit. What it
-- calls beyond the recovery is a record of functions on the state of the world; telemetry's timings are
-- left out.
pub mod Events
pub mod Course
use trade_compliance_classif.Prelude.{
  ℕ, Bool, true, false, not, ◌&&◌, ◌||◌, Option, none, some, List, [], ◌∷◌, ◌++◌, map, String,
  if◌then◌else◌, filter, is_empty,
}
use trade_compliance_classif.Prelude.Text.{◌⧺◌, text_eq, trim, replace_char, join, pad3}
use trade_compliance_classif.Prelude.Sets.{dedup}
use trade_compliance_classif.Types.{AgentRole, Batch, BatchResult, GateResult}
use trade_compliance_classif.Findings.{RuntimeBatchState}
use trade_compliance_classif.Findings.State.{blocking_open_findings, record_gate_state}
use trade_compliance_classif.Gating.{gates_passed}
use trade_compliance_classif.Risk.{ValidationMode, validation_policy_for}
use trade_compliance_classif.Support.{kind_text}
use trade_compliance_classif.Runtime.{Runtime, Verdict, accepted, adjudicate_if_possible}
use trade_compliance_classif.Runtime.Adversarial.{validate_adversarial}
use trade_compliance_classif.Runtime.Recover.{
  Recovery, finding_ids, gate_flags, max_attempts, recover_gate_failure,
}

pub data Outcome : Type 0 where
  complete nothing_left failed : Outcome

pub record Surroundings (W : Type 0) : Type 0 where
  pub runtime : Runtime W
  pub make_batch : W → Batch × W
  pub reset_runtime_state : W → W
  pub verify_previous_batch_gates : ℕ → W → List String × W
  pub prepare_runtime_claim : Batch → W → GateResult × W
  pub mark_runtime_claim : String → W → W
  pub create_worktree : W → W
  pub build_visible_batch_context : W → W
  pub run_implementation_agent : W → BatchResult × W
  pub record_speed_observations : BatchResult → W → W
  pub copy_batch_result_artifacts : W → W
  pub write_runtime_batch_state : RuntimeBatchState → W → W
  pub append_journal : BatchResult → List GateResult → W → W
  pub validate_worktree_merge_readiness : List String → W → GateResult × W
  pub reuse_or_run_journal_agent : BatchResult → W → Option BatchResult × W
  pub handle_rejected : BatchResult → List String → W → W
  pub sync_worktree_changes_to_root : List String → W → W
  pub sync_local_only_files_to_root : List String → W → W
  pub tick_progress_items : Batch → W → W
  pub mark_phase_support_due : Batch → W → W
  pub reconcile_inbox : BatchResult → W → W
  pub cleanup_docker : W → W
  pub create_commit : String → W → W
  pub prune_successful_worktrees : W → W

-- `dry_run`, and of the configuration `recovery.maxBugfixAttempts`, `validationMode` and
-- `gates.requireAdversarialValidation`; `now` is the time of the gates' verdict.
pub record Settings : Type 0 where
  pub dry_run : Bool
  pub max_bugfix_attempts : Option ℕ
  pub validation_mode : Option ValidationMode
  pub require_adversarial_validation : Bool
  pub now : String

-- A stage stops the batch, which has failed, or hands over what the batch has become.
pub data Stage (W : Type 0) : Type 0 where
  stopped : W → Stage W
  ready : RuntimeBatchState → BatchResult → W → Stage W

abbrev agent_text : AgentRole → String
agent_text AgentRole.master = "master"
agent_text AgentRole.knowledge = "knowledge"
agent_text AgentRole.inbox = "inbox"
agent_text AgentRole.implement = "implement"
agent_text AgentRole.validate = "validate"
agent_text AgentRole.journal = "journal"
agent_text AgentRole.audit = "audit"
agent_text AgentRole.bugfix = "bugfix"
agent_text AgentRole.adjudicate = "adjudicate"

unfoldable pub unique_paths : List String → List String
unique_paths paths = dedup (
    filter (λ path. not (text_eq path ""))
      (map (λ path. trim (replace_char b'\\' b'/' path)) paths))

unfoldable pub final_sync_candidates : RuntimeBatchState → BatchResult → BatchResult → List String
final_sync_candidates state result journal =
    unique_paths (state.changed_files ++ (result.files_changed ++ journal.files_changed))

unfoldable pub pre_journal_sync_candidates : RuntimeBatchState → BatchResult → List String
pre_journal_sync_candidates state result =
    unique_paths (state.changed_files ++ result.files_changed)

abbrev or_else : List String → List String → List String
or_else [] other = other
or_else (flag ∷ flags) other = flag ∷ flags

abbrev local_files : Option (List String) → List String
local_files none = []
local_files (some files) = files

module _ {W : Type 0} (s : Surroundings W) (settings : Settings) (batch : Batch) where
  abbrev pub recover : BatchResult → List String → W → Recovery × W
  recover result flags w =
      recover_gate_failure s.runtime batch.number (max_attempts settings.max_bugfix_attempts) result
        flags w

  unfoldable pub block : BatchResult → List String → W → Stage W
  block result flags w = stopped (s.handle_rejected result flags (s.mark_runtime_claim "blocked" w))

  abbrev pub marked_gates : List GateResult → W → W
  marked_gates gates w = s.runtime.write_runtime_gates gates (s.runtime.set_gates gates w)

  unfoldable pub recheck : BatchResult → W → Stage W
  recheck recovered w =
      let (state, imported) = s.runtime.import_agent_result_to_state "bugfix" recovered w in
      let result = state.current_result in
      let (gates, after, validated) = s.runtime.validate_all_with_state result imported in
      let marked = marked_gates gates validated in
      let findings = blocking_open_findings after in
      if not (gates_passed gates) || not (is_empty findings)
      then block result (or_else (finding_ids findings) (gate_flags gates)) marked
      else ready state result marked

  abbrev pub after_finding_recovery : BatchResult → List String → Recovery × W → Stage W
  after_finding_recovery result ids (recovery, w) = elim recovery.result [
    | none ↦ block result (or_else recovery.flags ids) w
    | some recovered ↦ recheck recovered w
  ]

  abbrev pub after_gate_recovery : BatchResult → List GateResult → Recovery × W → Stage W
  after_gate_recovery result gates (recovery, w) = elim recovery.result [
    | none ↦ block result (or_else recovery.flags (gate_flags gates)) w
    | some recovered ↦
        let (state, imported) = s.runtime.import_agent_result_to_state "bugfix" recovered w in
        ready state state.current_result (s.runtime.set_checkpoint "runtimeGates" "passed" imported)
  ]

  abbrev pub after_adjudication :
      RuntimeBatchState → BatchResult → List GateResult → Verdict × W → Stage W
  after_adjudication state result gates (accepted, w) =
      ready state result (s.runtime.set_checkpoint "runtimeGates" "passed" w)
  after_adjudication state result gates (verdict, w) =
      after_gate_recovery result gates (recover result (gate_flags gates) w)

  -- The gates of the implementation, and what they ask for: nothing, a recovery from open findings, an
  -- adjudication, or a recovery from the gates.
  unfoldable pub settle_gates :
      RuntimeBatchState → RuntimeBatchState → BatchResult → List GateResult → W → Stage W
  settle_gates state gate_state result gates w =
      let findings = blocking_open_findings gate_state in
      if gates_passed gates
      then (if is_empty findings
          then ready state result w
          else after_finding_recovery result (finding_ids findings)
              (recover result (finding_ids findings) w))
      else let noted = if is_empty findings then s.runtime.write_gate "findings" "PASS" w else w in
        after_adjudication state result gates (adjudicate_if_possible s.runtime result gates noted)

  unfoldable pub implement : GateResult → W → Stage W
  implement claim_gate w =
      let prepared = s.build_visible_batch_context (
        s.runtime.set_checkpoint "worktree" "passed"
          (s.create_worktree (s.runtime.set_phase "worktree" w))) in
      let (raw, built) = s.run_implementation_agent (s.runtime.set_phase "implement" prepared) in
      let (state, imported) =
        s.runtime.import_agent_result_to_state (agent_text raw.agent) raw built in
      let result = state.current_result in
      let copied = s.copy_batch_result_artifacts (s.record_speed_observations result imported) in
      let noted =
        s.runtime.set_phase "validate" (s.runtime.set_checkpoint "implement" "passed" copied) in
      let (validated_gates, validated_state, validated) =
        s.runtime.validate_all_with_state result noted in
      let gates = claim_gate ∷ validated_gates in
      let gate_state = record_gate_state settings.now validated_state gates in
      let marked = marked_gates gates (s.write_runtime_batch_state gate_state validated) in
      let checked =
        s.runtime.set_checkpoint "runtimeGates" (if gates_passed gates then "passed" else "failed")
          marked in
      settle_gates state gate_state result gates (s.append_journal result gates checked)

  abbrev pub after_adversarial : Option BatchResult × W → Stage W
  after_adversarial (none, w) = stopped (s.mark_runtime_claim "blocked" w)
  after_adversarial (some recovered, w) =
      let (state, imported) = s.runtime.import_agent_result_to_state "validate" recovered w in
      ready state state.current_result (s.runtime.set_checkpoint "validate" "passed" imported)

  unfoldable pub challenge : RuntimeBatchState → BatchResult → W → Stage W
  challenge state result w =
      let policy =
        validation_policy_for batch result settings.validation_mode
          settings.require_adversarial_validation in
      if policy.require_adversarial_validation
      then after_adversarial (
          validate_adversarial s.runtime batch.number (max_attempts settings.max_bugfix_attempts)
            result (s.runtime.set_phase "validate" w))
      else ready state result (s.runtime.set_checkpoint "validate" "passed" w)

  unfoldable pub run_merge_readiness_gate : RuntimeBatchState → BatchResult → W → Stage W
  run_merge_readiness_gate state result w =
      let (gate, seen) =
        s.validate_worktree_merge_readiness (pre_journal_sync_candidates state result)
          (s.runtime.set_phase "merge" w) in
      let marked =
        s.runtime.set_checkpoint "merge" (if gate.passed then "passed" else "failed")
          (marked_gates (gate ∷ []) seen) in
      if gate.passed then ready state result marked else block result gate.flags marked

  abbrev support_gate : W → W
  support_gate w = elim batch.support_kind [
    | none ↦ w
    | some kind ↦ elim batch.support_scope [
      | none ↦ w
      | some scope ↦
          if text_eq scope ""
          then w
          else s.runtime.write_gate ("support-" ⧺ kind_text kind) "PASS" w
    ]
  ]

  abbrev closeout_gate : GateResult
  closeout_gate = record { name = "closeout"; passed = true; flags = [] }

  unfoldable pub merge_batch : RuntimeBatchState → BatchResult → BatchResult → W → W
  merge_batch state result journal w =
      let noted = s.runtime.set_phase "merge" (s.runtime.set_checkpoint "journal" "passed" w) in
      let synced =
        s.sync_worktree_changes_to_root (final_sync_candidates state result journal) noted in
      let local = s.sync_local_only_files_to_root (local_files result.local_only_files) synced in
      let ticked = s.mark_phase_support_due batch (s.tick_progress_items batch local) in
      s.runtime.set_checkpoint "merge" "passed" (s.reconcile_inbox result ticked)

  unfoldable pub commit_batch : W → W
  commit_batch w =
      let closed =
        s.runtime.set_gates (closeout_gate ∷ [])
          (support_gate (s.runtime.write_gate "closeout" "PASS" w)) in
      let cleaned = s.cleanup_docker (s.mark_runtime_claim "done" closed) in
      let committed =
        s.create_commit ("feat(yolo): complete batch " ⧺ pad3 batch.number)
          (s.runtime.set_phase "commit" cleaned) in
      s.runtime.finish_runtime "complete"
        (s.prune_successful_worktrees (s.runtime.set_checkpoint "commit" "passed" committed))

  abbrev pub after_journal : RuntimeBatchState → BatchResult → Option BatchResult × W → Outcome × W
  after_journal state result (none, w) = (failed, s.mark_runtime_claim "blocked" w)
  after_journal state result (some journal, w) =
      (complete, commit_batch (merge_batch state result journal w))

  abbrev pub after_merge_readiness : Stage W → Outcome × W
  after_merge_readiness (stopped w) = (failed, w)
  after_merge_readiness (ready state result w) =
      after_journal state result (s.reuse_or_run_journal_agent result w)

  abbrev pub after_challenge : Stage W → Outcome × W
  after_challenge (stopped w) = (failed, w)
  after_challenge (ready state result w) =
      after_merge_readiness (run_merge_readiness_gate state result w)

  abbrev pub after_gates : Stage W → Outcome × W
  after_gates (stopped w) = (failed, w)
  after_gates (ready state result w) = after_challenge (challenge state result w)

  unfoldable pub claimed : GateResult × W → Outcome × W
  claimed (gate, w) =
      let marked = marked_gates (gate ∷ []) w in
      if gate.passed
      then after_gates (implement gate marked)
      else (failed, s.runtime.reject_batch gate.flags (s.runtime.finish_runtime "failed" marked))

  unfoldable pub selected : List String × W → Outcome × W
  selected (missing, w) =
      if not (is_empty missing)
      then (
        failed,
        s.runtime.reject_batch (("MISSING_PREVIOUS_BATCH_GATES:" ⧺ join "|" missing) ∷ [])
            (s.runtime.finish_runtime "failed" w),
      )
      else if settings.dry_run
      then (complete, s.runtime.finish_runtime "complete" w)
      else claimed (s.prepare_runtime_claim batch w)

unfoldable pub run_single_batch : {W : Type 0} → Surroundings W → Settings → W → Outcome × W
run_single_batch s settings w =
    let (batch, made) = s.make_batch w in
    if is_empty batch.items
    then (nothing_left, made)
    else selected s settings batch
        (s.verify_previous_batch_gates batch.number (s.reset_runtime_state made))
