-- ===== src/Runtime/Single/Events.antt =====
-- What a batch does to the project, and in which order.
use trade_compliance_classif.Prelude.{
  ℕ, ◌≡◌, refl, ap, ◌∙◌, inl, inr, not, ◌||◌, List, [], ◌∷◌, ◌++◌, append_assoc, String,
  if◌then◌else◌, is_empty, arith, Bool-cases, Option-cases,
}
use trade_compliance_classif.Types.{Batch, BatchResult, GateResult}
use trade_compliance_classif.Findings.{RuntimeBatchState}
use trade_compliance_classif.Findings.State.{blocking_open_findings}
use trade_compliance_classif.Gating.{gates_passed}
use trade_compliance_classif.Runtime.{
  Verdict, accepted, needs_bugfix, needs_human, undecided, adjudicate_if_possible,
}
use trade_compliance_classif.Runtime.Recover.{Recovery, max_attempts, finding_ids, gate_flags}
use trade_compliance_classif.Runtime.Recover.Measure.{
  IsMeasure, adjudicate_if_possible-count, recover_gate_failure_keeps,
}
use trade_compliance_classif.Support.{kind_text}
use trade_compliance_classif.Types.{SupportKind}
use trade_compliance_classif.Prelude.Text.{◌⧺◌}
use trade_compliance_classif.Runtime.Single.{
  or_else, Surroundings, Settings, Stage, stopped, ready, recover, block, marked_gates, recheck,
  after_finding_recovery, after_gate_recovery, after_adjudication, settle_gates, support_gate,
  merge_batch, commit_batch,
}

-- What of the project's own state changes.
pub data Event : Type 0 where
  synced synced_local ticked due_marked inbox_reconciled closed claim_done committed : Event

abbrev pub closing : List Event
closing =
    synced ∷ synced_local ∷ ticked ∷ due_marked ∷ inbox_reconciled ∷ closed ∷ claim_done ∷ committed
    ∷ []

abbrev with_event : List Event → Event → List Event
with_event events event = events ++ (event ∷ [])

-- A log of the events: each of the eight calls that change the project adds its event, and nothing else that a
-- batch calls changes the log.
pub record IsLog {W : Type 0} (s : Surroundings W) (log : W → List Event) : Type 0 where
  pub runtime_keeps : IsMeasure s.runtime log (λ events. events)
  pub sync_logs :
      (files : List String) (w : W)
      → log (s.sync_worktree_changes_to_root files w) ≡ with_event (log w) synced
  pub local_logs :
      (files : List String) (w : W)
      → log (s.sync_local_only_files_to_root files w) ≡ with_event (log w) synced_local
  pub tick_logs : (b : Batch) (w : W) → log (s.tick_progress_items b w) ≡ with_event (log w) ticked
  pub due_logs :
      (b : Batch) (w : W) → log (s.mark_phase_support_due b w) ≡ with_event (log w) due_marked
  pub inbox_logs :
      (r : BatchResult) (w : W) → log (s.reconcile_inbox r w) ≡ with_event (log w) inbox_reconciled
  pub closeout_logs :
      (w : W) → log (s.runtime.write_gate "closeout" "PASS" w) ≡ with_event (log w) closed
  pub done_logs : (w : W) → log (s.mark_runtime_claim "done" w) ≡ with_event (log w) claim_done
  pub commit_logs : (m : String) (w : W) → log (s.create_commit m w) ≡ with_event (log w) committed
  pub findings_keep : (w : W) → log (s.runtime.write_gate "findings" "PASS" w) ≡ log w
  pub support_keeps :
      (kind : SupportKind) (w : W)
      → log (s.runtime.write_gate ("support-" ⧺ kind_text kind) "PASS" w) ≡ log w
  pub blocked_keeps : (w : W) → log (s.mark_runtime_claim "blocked" w) ≡ log w
  pub checkpoint_keeps : (c v : String) (w : W) → log (s.runtime.set_checkpoint c v w) ≡ log w
  pub make_keeps : (w : W) → log (s.make_batch w).1 ≡ log w
  pub reset_keeps : (w : W) → log (s.reset_runtime_state w) ≡ log w
  pub previous_keeps : (n : ℕ) (w : W) → log (s.verify_previous_batch_gates n w).1 ≡ log w
  pub claim_keeps : (b : Batch) (w : W) → log (s.prepare_runtime_claim b w).1 ≡ log w
  pub worktree_keeps : (w : W) → log (s.create_worktree w) ≡ log w
  pub context_keeps : (w : W) → log (s.build_visible_batch_context w) ≡ log w
  pub implement_keeps : (w : W) → log (s.run_implementation_agent w).1 ≡ log w
  pub observe_keeps : (r : BatchResult) (w : W) → log (s.record_speed_observations r w) ≡ log w
  pub copy_keeps : (w : W) → log (s.copy_batch_result_artifacts w) ≡ log w
  pub state_keeps : (b : RuntimeBatchState) (w : W) → log (s.write_runtime_batch_state b w) ≡ log w
  pub journal_keeps :
      (r : BatchResult) (gates : List GateResult) (w : W) → log (s.append_journal r gates w) ≡ log w
  pub readiness_keeps :
      (files : List String) (w : W) → log (s.validate_worktree_merge_readiness files w).1 ≡ log w
  pub agent_keeps : (r : BatchResult) (w : W) → log (s.reuse_or_run_journal_agent r w).1 ≡ log w
  pub rejected_keeps :
      (r : BatchResult) (flags : List String) (w : W) → log (s.handle_rejected r flags w) ≡ log w
  pub docker_keeps : (w : W) → log (s.cleanup_docker w) ≡ log w
  pub prune_keeps : (w : W) → log (s.prune_successful_worktrees w) ≡ log w

snoc :
    (before more events : List Event) (event : Event)
    → events ≡ before ++ more
    → with_event events event ≡ before ++ (more ++ (event ∷ []))
snoc before more events event same =
    ap (λ l. with_event l event) same ∙ append_assoc before more (event ∷ [])

module _ {W : Type 0} (s : Surroundings W) (log : W → List Event) (laws : IsLog s log)
    (settings : Settings) (batch : Batch) where
  pub marked-log :
      (gates : List GateResult) (w : W) → log (marked_gates s settings batch gates w) ≡ log w
  marked-log gates w =
      laws.runtime_keeps.runtime_gates_keep gates (s.runtime.set_gates gates w)
      ∙ laws.runtime_keeps.gates_keep gates w

  support-log : (w : W) → log (support_gate s settings batch w) ≡ log w
  support-log w = elim (Option-cases batch.support_kind) [
    | inl no_kind ↦ rw no_kind refl
    | inr (kind, k) ↦ elim (Option-cases batch.support_scope) [
      | inl no_scope ↦ rw (k, no_scope) refl
      | inr (scope, c) ↦ rw (k, c) (ground (arith, laws.support_keeps kind w))
    ]
  ]

  pub merge-log :
      (state : RuntimeBatchState) (result journal : BatchResult) (w : W)
      → log (merge_batch s settings batch state result journal w)
        ≡ log w ++ (synced ∷ synced_local ∷ ticked ∷ due_marked ∷ inbox_reconciled ∷ [])
  unfolding merge_batch
  merge-log state result journal w =
      laws.checkpoint_keeps "merge" "passed" _
      ∙ laws.inbox_logs result _
      ∙ snoc (log w) (synced ∷ synced_local ∷ ticked ∷ due_marked ∷ []) _ inbox_reconciled (
          laws.due_logs batch _
          ∙ snoc (log w) (synced ∷ synced_local ∷ ticked ∷ []) _ due_marked (
              laws.tick_logs batch _
              ∙ snoc (log w) (synced ∷ synced_local ∷ []) _ ticked (
                  laws.local_logs _ _
                  ∙ snoc (log w) (synced ∷ []) _ synced_local (
                      laws.sync_logs _ _
                      ∙ ap (λ l. with_event l synced)
                          (laws.runtime_keeps.phase_keeps "merge" _
                            ∙ laws.checkpoint_keeps "journal" "passed" w)))))

  pub commit-log :
      (w : W)
      → log (commit_batch s settings batch w) ≡ log w ++ (closed ∷ claim_done ∷ committed ∷ [])
  unfolding commit_batch
  commit-log w =
      laws.runtime_keeps.finish_keeps "complete" _
      ∙ laws.prune_keeps _
      ∙ laws.checkpoint_keeps "commit" "passed" _
      ∙ laws.commit_logs _ _
      ∙ snoc (log w) (closed ∷ claim_done ∷ []) _ committed (
          laws.runtime_keeps.phase_keeps "commit" _
          ∙ laws.docker_keeps _
          ∙ laws.done_logs _
          ∙ snoc (log w) (closed ∷ []) _ claim_done
              (laws.runtime_keeps.gates_keep _ _ ∙ support-log _ ∙ laws.closeout_logs w))

  unfoldable pub stage_log : Stage W → List Event
  stage_log (stopped w) = log w
  stage_log (ready state result w) = log w

  pub block-log :
      (result : BatchResult) (flags : List String) (w : W)
      → stage_log (block s settings batch result flags w) ≡ log w
  unfolding block stage_log
  block-log result flags w = laws.rejected_keeps result flags _ ∙ laws.blocked_keeps w

  recheck-log :
      (recovered : BatchResult) (w : W) → stage_log (recheck s settings batch recovered w) ≡ log w
  unfolding recheck stage_log
  recheck-log recovered w =
      let (state, imported) = s.runtime.import_agent_result_to_state "bugfix" recovered w in
      let result = state.current_result in
      let (gates, after, validated) = s.runtime.validate_all_with_state result imported in
      let marked = marked_gates s settings batch gates validated in
      let findings = blocking_open_findings after in
      let same : log marked ≡ log w =
        marked-log gates validated
        ∙ laws.runtime_keeps.validate_keeps result imported
        ∙ laws.runtime_keeps.import_keeps "bugfix" recovered w in
      elim (Bool-cases (not (gates_passed gates) || not (is_empty findings))) [
        | inl bad ↦
            rw bad
              (block-log result (or_else (finding_ids findings) (gate_flags gates)) marked ∙ same)
        | inr good ↦ rw good same
      ]

  recover-log :
      (result : BatchResult) (flags : List String) (w : W)
      → log (recover s settings batch result flags w).1 ≡ log w
  recover-log result flags w =
      recover_gate_failure_keeps s.runtime log (λ l. l) laws.runtime_keeps batch.number
        (max_attempts settings.max_bugfix_attempts) result (λ l. refl) flags w

  after_finding_recovery-log :
      (result : BatchResult) (ids : List String) (recovery : Recovery) (w : W)
      → stage_log (after_finding_recovery s settings batch result ids (recovery, w)) ≡ log w
  after_finding_recovery-log result ids recovery w = elim (Option-cases recovery.result) [
    | inl gone ↦ rw gone (block-log result (or_else recovery.flags ids) w)
    | inr (recovered, found) ↦ rw found (recheck-log recovered w)
  ]

  after_gate_recovery-log :
      (result : BatchResult) (gates : List GateResult) (recovery : Recovery) (w : W)
      → stage_log (after_gate_recovery s settings batch result gates (recovery, w)) ≡ log w
  unfolding stage_log
  after_gate_recovery-log result gates recovery w = elim (Option-cases recovery.result) [
    | inl gone ↦ rw gone (block-log result (or_else recovery.flags (gate_flags gates)) w)
    | inr (recovered, found) ↦ rw found (
        laws.checkpoint_keeps "runtimeGates" "passed" _
        ∙ laws.runtime_keeps.import_keeps "bugfix" recovered w)
  ]

  recover_gates-log :
      (result : BatchResult) (gates : List GateResult) (w : W)
      → stage_log (
          after_gate_recovery s settings batch result gates
            (recover s settings batch result (gate_flags gates) w))
        ≡ log w
  recover_gates-log result gates w =
      let (recovery, after) = recover s settings batch result (gate_flags gates) w in
      after_gate_recovery-log result gates recovery after ∙ recover-log result (gate_flags gates) w

  after_adjudication-log :
      (state : RuntimeBatchState) (result : BatchResult) (gates : List GateResult) (v : Verdict)
      (w : W)
      → stage_log (after_adjudication s settings batch state result gates (v, w)) ≡ log w
  unfolding stage_log
  after_adjudication-log state result gates accepted w =
      laws.checkpoint_keeps "runtimeGates" "passed" w
  after_adjudication-log state result gates needs_bugfix w = recover_gates-log result gates w
  after_adjudication-log state result gates needs_human w = recover_gates-log result gates w
  after_adjudication-log state result gates undecided w = recover_gates-log result gates w

  pub settle_gates-log :
      (state gate_state : RuntimeBatchState) (result : BatchResult) (gates : List GateResult)
      (w : W)
      → stage_log (settle_gates s settings batch state gate_state result gates w) ≡ log w
  unfolding settle_gates stage_log
  settle_gates-log state gate_state result gates w =
      let findings = blocking_open_findings gate_state in
      let noted = if is_empty findings then s.runtime.write_gate "findings" "PASS" w else w in
      let (recovery, recovered) = recover s settings batch result (finding_ids findings) w in
      let (verdict, judged) = adjudicate_if_possible s.runtime result gates noted in
      let noted-log : log noted ≡ log w = ground (arith, laws.findings_keep w) in
      elim (Bool-cases (gates_passed gates)) [
        | inl pass ↦ elim (Bool-cases (is_empty findings)) [
          | inl closed_all ↦ rw (pass, closed_all) refl
          | inr left ↦
              rw (pass, left)
                (after_finding_recovery-log result (finding_ids findings) recovery recovered
                  ∙ recover-log result (finding_ids findings) w)
        ]
        | inr fail ↦ rw fail (
            after_adjudication-log state result gates verdict judged
            ∙ adjudicate_if_possible-count s.runtime log (λ l. l) laws.runtime_keeps result gates
                noted
            ∙ noted-log)
      ]
