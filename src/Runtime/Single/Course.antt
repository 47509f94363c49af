-- ===== src/Runtime/Single/Course.antt =====
-- A batch from its selection on, seen by the log of its events.
use trade_compliance_classif.Prelude.{
  ◌≡◌, refl, sym, ap, ◌∙◌, inl, inr, Bool, true, false, not, Option, none, some, List, [], ◌∷◌,
  ◌++◌, append-nil, append_assoc, String, if◌then◌else◌, is_empty, arith, Bool-cases,
}
use trade_compliance_classif.Types.{Batch, BatchResult, GateResult}
use trade_compliance_classif.Findings.{RuntimeBatchState}
use trade_compliance_classif.Risk.{validation_policy_for}
use trade_compliance_classif.Prelude.Text.{◌⧺◌, join}
use trade_compliance_classif.Runtime.Recover.{max_attempts}
use trade_compliance_classif.Runtime.Adversarial.{validate_adversarial}
use trade_compliance_classif.Runtime.Adversarial.Kept.{validate_adversarial_keeps}
use trade_compliance_classif.Runtime.Single.{
  pre_journal_sync_candidates, Outcome, complete, nothing_left, failed, Surroundings, Settings,
  Stage, stopped, ready, block, marked_gates, implement, after_adversarial, challenge,
  run_merge_readiness_gate, after_journal, after_merge_readiness, after_challenge, after_gates,
  claimed, selected, run_single_batch,
}
use trade_compliance_classif.Runtime.Single.Events.{
  Event, synced, synced_local, ticked, due_marked, inbox_reconciled, closed, claim_done, committed,
  closing, IsLog, stage_log, marked-log, merge-log, commit-log, block-log, settle_gates-log,
}

-- The events of a batch with an outcome.
abbrev pub events_of : Outcome → List Event
events_of complete = closing
events_of nothing_left = []
events_of failed = []

module _ {W : Type 0} (s : Surroundings W) (log : W → List Event) (laws : IsLog s log)
    (settings : Settings) (batch : Batch) where
  -- What a stage or a whole batch leaves is what it found and the events of its outcome.
  IsCourse : List Event → Outcome × W → Type 0
  IsCourse before (outcome, w) = log w ≡ before ++ events_of outcome

  fails : (w : W) (before : List Event) → log w ≡ before → log w ≡ before ++ []
  fails w before same = same ∙ sym (append-nil before)

  either_stage :
      (b : Bool) (x y : Stage W) (before : List Event)
      → stage_log s log laws settings batch x ≡ before
      → stage_log s log laws settings batch y ≡ before
      → stage_log s log laws settings batch (if b then x else y) ≡ before
  either_stage true x y before first second = first
  either_stage false x y before first second = second

  either-IsCourse :
      (b : Bool) (x y : Outcome × W) (before : List Event)
      → IsCourse before x
      → IsCourse before y
      → IsCourse before (if b then x else y)
  either-IsCourse true x y before first second = first
  either-IsCourse false x y before first second = second

  implement-log :
      (gate : GateResult) (w : W)
      → stage_log s log laws settings batch (implement s settings batch gate w) ≡ log w
  unfolding implement
  implement-log gate w =
      settle_gates-log s log laws settings batch _ _ _ _ _
      ∙ laws.journal_keeps _ _ _
      ∙ laws.checkpoint_keeps "runtimeGates" _ _
      ∙ marked-log s log laws settings batch _ _
      ∙ laws.state_keeps _ _
      ∙ laws.runtime_keeps.validate_keeps _ _
      ∙ laws.runtime_keeps.phase_keeps "validate" _
      ∙ laws.checkpoint_keeps "implement" "passed" _
      ∙ laws.copy_keeps _
      ∙ laws.observe_keeps _ _
      ∙ laws.runtime_keeps.import_keeps _ _ _
      ∙ laws.implement_keeps _
      ∙ laws.runtime_keeps.phase_keeps "implement" _
      ∙ laws.context_keeps _
      ∙ laws.checkpoint_keeps "worktree" "passed" _
      ∙ laws.worktree_keeps _
      ∙ laws.runtime_keeps.phase_keeps "worktree" w

  adversarial-log :
      (o : Option BatchResult) (w : W)
      → stage_log s log laws settings batch (after_adversarial s settings batch (o, w)) ≡ log w
  unfolding stage_log
  adversarial-log none w = laws.blocked_keeps w
  adversarial-log (some recovered) w =
      laws.checkpoint_keeps "validate" "passed" _
      ∙ laws.runtime_keeps.import_keeps "validate" recovered w

  challenge-log :
      (state : RuntimeBatchState) (result : BatchResult) (w : W)
      → stage_log s log laws settings batch (challenge s settings batch state result w) ≡ log w
  unfolding challenge stage_log
  challenge-log state result w =
      let policy =
        validation_policy_for batch result settings.validation_mode
          settings.require_adversarial_validation in
      let (o, after) =
        validate_adversarial s.runtime batch.number (max_attempts settings.max_bugfix_attempts)
          result (s.runtime.set_phase "validate" w) in
      elim (Bool-cases policy.require_adversarial_validation) [
        | inl required ↦ rw required (
            adversarial-log o after
            ∙ validate_adversarial_keeps s.runtime log laws.runtime_keeps batch.number
                (max_attempts settings.max_bugfix_attempts) result _
            ∙ laws.runtime_keeps.phase_keeps "validate" w)
        | inr waived ↦ rw waived (laws.checkpoint_keeps "validate" "passed" w)
      ]

  readiness-log :
      (state : RuntimeBatchState) (result : BatchResult) (w : W)
      → stage_log s log laws settings batch
          (run_merge_readiness_gate s settings batch state result w)
        ≡ log w
  unfolding run_merge_readiness_gate stage_log
  readiness-log state result w =
      let (gate, seen) =
        s.validate_worktree_merge_readiness (pre_journal_sync_candidates state result)
          (s.runtime.set_phase "merge" w) in
      let word : String = if gate.passed then "passed" else "failed" in
      let marked =
        s.runtime.set_checkpoint "merge" word (marked_gates s settings batch (gate ∷ []) seen) in
      let same : log marked ≡ log w =
        laws.checkpoint_keeps "merge" word _
        ∙ marked-log s log laws settings batch (gate ∷ []) seen
        ∙ laws.readiness_keeps _ _
        ∙ laws.runtime_keeps.phase_keeps "merge" w in
      either_stage gate.passed (ready state result marked)
        (block s settings batch result gate.flags marked) (log w) same
        (block-log s log laws settings batch result gate.flags marked ∙ same)

  journal-IsCourse :
      (state : RuntimeBatchState) (result : BatchResult) (o : Option BatchResult) (w : W)
      → IsCourse (log w) (after_journal s settings batch state result (o, w))
  unfolding IsCourse
  journal-IsCourse state result none w = fails _ (log w) (laws.blocked_keeps w)
  journal-IsCourse state result (some journal) w =
      commit-log s log laws settings batch _
      ∙ ap (λ l. l ++ (closed ∷ claim_done ∷ committed ∷ []))
          (merge-log s log laws settings batch state result journal w)
      ∙ append_assoc (log w) (synced ∷ synced_local ∷ ticked ∷ due_marked ∷ inbox_reconciled ∷ [])
          (closed ∷ claim_done ∷ committed ∷ [])

  readiness-IsCourse :
      (stage : Stage W)
      → IsCourse
          (stage_log s log laws settings batch stage)
          (after_merge_readiness s settings batch stage)
  unfolding IsCourse stage_log
  readiness-IsCourse (stopped w) = fails w (log w) refl
  readiness-IsCourse (ready state result w) =
      let (o, after) = s.reuse_or_run_journal_agent result w in
      journal-IsCourse state result o after
      ∙ ap (λ l. l ++ events_of (after_journal s settings batch state result (o, after)).0)
          (laws.agent_keeps result w)

  challenge-IsCourse :
      (stage : Stage W)
      → IsCourse
          (stage_log s log laws settings batch stage)
          (after_challenge s settings batch stage)
  unfolding IsCourse stage_log
  challenge-IsCourse (stopped w) = fails w (log w) refl
  challenge-IsCourse (ready state result w) =
      let next = run_merge_readiness_gate s settings batch state result w in
      readiness-IsCourse next
      ∙ ap (λ l. l ++ events_of (after_merge_readiness s settings batch next).0)
          (readiness-log state result w)

  gates-IsCourse :
      (stage : Stage W)
      → IsCourse (stage_log s log laws settings batch stage) (after_gates s settings batch stage)
  unfolding IsCourse stage_log
  gates-IsCourse (stopped w) = fails w (log w) refl
  gates-IsCourse (ready state result w) =
      let next = challenge s settings batch state result w in
      challenge-IsCourse next
      ∙ ap (λ l. l ++ events_of (after_challenge s settings batch next).0)
          (challenge-log state result w)

  claimed-IsCourse :
      (gate : GateResult) (w : W) → IsCourse (log w) (claimed s settings batch (gate, w))
  unfolding IsCourse claimed
  claimed-IsCourse gate w =
      let marked = marked_gates s settings batch (gate ∷ []) w in
      let same = marked-log s log laws settings batch (gate ∷ []) w in
      let next = implement s settings batch gate marked in
      either-IsCourse gate.passed (after_gates s settings batch next)
        (failed, s.runtime.reject_batch gate.flags (s.runtime.finish_runtime "failed" marked))
        (log w)
        (gates-IsCourse next
          ∙ ap (λ l. l ++ events_of (after_gates s settings batch next).0)
              (implement-log gate marked ∙ same))
        (fails _ (log w) (
          laws.runtime_keeps.reject_keeps gate.flags _
          ∙ laws.runtime_keeps.finish_keeps "failed" marked
          ∙ same))

  abbrev events_unless : Bool → Outcome → List Event
  events_unless dry outcome = if dry then [] else events_of outcome

  unless_dry :
      (dry : Bool) (x y : Outcome × W) (before : List Event)
      → log x.1 ≡ before ++ []
      → IsCourse before y
      → log (if dry then x else y).1 ≡ before ++ events_unless dry (if dry then x else y).0
  unfolding IsCourse
  unless_dry true x y before first second = first
  unless_dry false x y before first second = second

  selected-events :
      (missing : List String) (w : W)
      → log (selected s settings batch (missing, w)).1
        ≡ log w ++ events_unless settings.dry_run (selected s settings batch (missing, w)).0
  unfolding selected IsCourse
  selected-events missing w =
      let (gate, claim) = s.prepare_runtime_claim batch w in
      let next = claimed s settings batch (gate, claim) in
      let finished : log (s.runtime.finish_runtime "complete" w) ≡ log w ++ [] =
        fails _ (log w) (laws.runtime_keeps.finish_keeps "complete" w) in
      elim (Bool-cases (not (is_empty missing))) [
        | inl some_missing ↦
            let same =
              laws.runtime_keeps.reject_keeps
                (("MISSING_PREVIOUS_BATCH_GATES:" ⧺ join "|" missing) ∷ []) _
              ∙ laws.runtime_keeps.finish_keeps "failed" w in
            rw some_missing (fails _ (log w) same ∙ ap (λ l. log w ++ l) (ground arith))
        | inr none_missing ↦ rw none_missing (
            unless_dry settings.dry_run (complete, s.runtime.finish_runtime "complete" w) next
              (log w) finished
              (claimed-IsCourse gate claim
                ∙ ap (λ l. l ++ events_of next.0) (laws.claim_keeps batch w)))
      ]

module _ {W : Type 0} (s : Surroundings W) (log : W → List Event) (laws : IsLog s log)
    (settings : Settings) where
  -- A batch that completes, and is no dry run, changes the project once and in this order: the worktree's files come
  -- to the project, then the files kept local; the items are ticked, the support due is marked, the inbox is
  -- reconciled; the closeout gate is written, the claim is marked done, and the commit comes last. A batch
  -- that fails, at whatever point, one that finds nothing to do and a dry run change none of it.
  pub run_single_batch-events :
      (w : W)
      → log (run_single_batch s settings w).1
        ≡ log w ++ (if settings.dry_run then [] else events_of (run_single_batch s settings w).0)
  unfolding run_single_batch
  run_single_batch-events w =
      let (batch, made) = s.make_batch w in
      let (missing, before) =
        s.verify_previous_batch_gates batch.number (s.reset_runtime_state made) in
      let next = selected s settings batch (missing, before) in
      let same : log before ≡ log w =
        laws.previous_keeps batch.number _ ∙ laws.reset_keeps made ∙ laws.make_keeps w in
      elim (Bool-cases (is_empty batch.items)) [
        | inl nothing ↦
            rw nothing
              (laws.make_keeps w ∙ sym (append-nil (log w)) ∙ ap (λ l. log w ++ l) (ground arith))
        | inr work ↦ rw work (
            selected-events s log laws settings batch missing before
            ∙ ap (λ l. l ++ (if settings.dry_run then [] else events_of next.0)) same)
      ]
