-- ===== src/Runtime/Recover/Measure.antt =====
-- Anything that is read off the state of the world and that only the bugfix agents change, through a recovery.
use trade_compliance_classif.Prelude.{
  ℕ, zero, suc, ◌*◌, ◌≡◌, refl, ap, ◌∙◌, ◌⊎◌, inl, inr, not, ◌&&◌, ◌||◌, Option, none, some, List,
  String, leb, is_empty, arith, Bool-cases,
}
use trade_compliance_classif.Types.{BatchResult, GateResult, ResultStatus, is_success}
use trade_compliance_classif.Contracts.{validate_contract}
use trade_compliance_classif.Findings.State.{blocking_open_findings}
use trade_compliance_classif.Gating.{gates_passed}
use trade_compliance_classif.Recovery.{
  RuntimePoisonedRecoveryLoop, runtime_poisoned_recovery_loop, failure_signature,
  runtime_owned_failure_requires_stop, is_runtime_owned_recovery_signature, blocking_recovery_flags,
  requires_human_security_approval, has_non_recoverable_runtime_blocker,
}
use trade_compliance_classif.Recovery.Recovered.{merge_recovered_result_from_disk}
use trade_compliance_classif.Verdicts.{AdjudicationResult, adjudication_allowed}
use trade_compliance_classif.Runtime.{
  Runtime, Verdict, accepted, needs_bugfix, needs_human, undecided, settle_adjudication, settle_new,
  ask_adjudicator, reuse_or_ask, adjudicate_if_possible,
}
use trade_compliance_classif.Runtime.Recover.{
  Recovery, Attempts, Round, ended, broken, again, rejected, gate_flags, finding_ids, poisoned_or,
  break_off, for_signature, one_more, after_verdict, judge, dispatch, round, go_on, attempts_of,
  recovery_rounds, recover_gate_failure, first_attempts,
}

-- A measure of the state that sending a bugfix agent changes by `next`, and that nothing else that the recovery
-- calls changes.
pub record IsMeasure {W A : Type 0} (runtime : Runtime W) (count : W → A) (next : A → A)
    : Type 0 where
  pub bugfix_counts :
      (v : BatchResult) (flags : List String) (n : ℕ) (w : W)
      → count (runtime.run_bugfix_agent v flags n w).1 ≡ next (count w)
  pub phase_keeps : (p : String) (w : W) → count (runtime.set_phase p w) ≡ count w
  pub finish_keeps : (s : String) (w : W) → count (runtime.finish_runtime s w) ≡ count w
  pub gates_keep : (gates : List GateResult) (w : W) → count (runtime.set_gates gates w) ≡ count w
  pub runtime_gates_keep :
      (gates : List GateResult) (w : W) → count (runtime.write_runtime_gates gates w) ≡ count w
  pub gate_keeps : (w : W) → count (runtime.write_gate "adjudication" "PASS" w) ≡ count w
  pub adjudicator_keeps :
      (r : BatchResult) (w : W) → count (runtime.run_adjudication_agent r w) ≡ count w
  pub copy_keeps : (w : W) → count (runtime.copy_adjudication w) ≡ count w
  pub canonicalize_keeps : (w : W) → count (runtime.canonicalize_batch_result_manifests w) ≡ count w
  pub import_keeps :
      (s : String) (r : BatchResult) (w : W)
      → count (runtime.import_agent_result_to_state s r w).1 ≡ count w
  pub reject_keeps : (flags : List String) (w : W) → count (runtime.reject_batch flags w) ≡ count w
  pub exec_keeps : (command : String) (w : W) → count (runtime.exec_command command w).1 ≡ count w
  pub validator_keeps : (w : W) → count (runtime.run_validator w).1 ≡ count w
  pub validate_keeps :
      (r : BatchResult) (w : W) → count (runtime.validate_all_with_state r w).2 ≡ count w

abbrev pub world_of {ℓ} : {W : Type 0} {A : Type ℓ} → (W → A) → Round W → A
world_of f (ended recovery w) = f w
world_of f (broken s w) = f w
world_of f (again s w) = f w

module _ {W A : Type 0} (runtime : Runtime W) (count : W → A) (next : A → A)
    (counts : IsMeasure runtime count next) where
  settle_adjudication-count :
      (a : AdjudicationResult) (w : W) → count (settle_adjudication runtime a w).1 ≡ count w
  unfolding settle_adjudication
  settle_adjudication-count a w =
      ground (arith, counts.gate_keeps w, counts.finish_keeps "failed" w)

  settle_new-count :
      (o : Option AdjudicationResult) (w : W) → count (settle_new runtime o w).1 ≡ count w
  settle_new-count none w = refl
  settle_new-count (some a) w =
      settle_adjudication-count a (runtime.copy_adjudication w) ∙ counts.copy_keeps w

  ask_adjudicator-count :
      (r : BatchResult) (w : W) → count (ask_adjudicator runtime r w).1 ≡ count w
  unfolding ask_adjudicator
  ask_adjudicator-count r w =
      let asked = runtime.run_adjudication_agent r (runtime.set_phase "validate" w) in
      settle_new-count (runtime.read_adjudication_file asked) asked
      ∙ counts.adjudicator_keeps r (runtime.set_phase "validate" w)
      ∙ counts.phase_keeps "validate" w

  reuse_or_ask-count :
      (o : Option AdjudicationResult) (r : BatchResult) (w : W)
      → count (reuse_or_ask runtime o r w).1 ≡ count w
  reuse_or_ask-count none r w = ask_adjudicator-count r w
  reuse_or_ask-count (some a) r w =
      ground (arith, counts.gate_keeps w, counts.finish_keeps "failed" w, ask_adjudicator-count r w)

  pub adjudicate_if_possible-count :
      (r : BatchResult) (gates : List GateResult) (w : W)
      → count (adjudicate_if_possible runtime r gates w).1 ≡ count w
  unfolding adjudicate_if_possible
  adjudicate_if_possible-count r gates w = elim (Bool-cases (adjudication_allowed gates)) [
    | inl yes_allowed ↦
        rw yes_allowed (reuse_or_ask-count (runtime.read_existing_adjudication w) r w)
    | inr other ↦ rw other refl
  ]

  module _ (number attempts : ℕ) (implementation : BatchResult) where
    abbrev pub after : Round W → A
    after r = world_of count r

    poisoned_or-count :
        (p : Option RuntimePoisonedRecoveryLoop) (v : Verdict) (later : Attempts) (w : W)
        → after (poisoned_or runtime number attempts implementation p v later w) ≡ count w
    poisoned_or-count (some p) v later w = counts.finish_keeps "failed" w
    poisoned_or-count none needs_human later w = refl
    poisoned_or-count none needs_bugfix later w = refl
    poisoned_or-count none accepted later w = refl
    poisoned_or-count none undecided later w = refl

    after_verdict-count :
        (v : Verdict) (flags : List String) (later : Attempts) (w : W)
        → after (after_verdict runtime number attempts implementation v flags later w) ≡ count w
    after_verdict-count accepted flags later w = refl
    after_verdict-count needs_human flags later w =
        poisoned_or-count (runtime_poisoned_recovery_loop later.current_signature flags rejected)
          needs_human (record later { current_flags = flags }) w
    after_verdict-count needs_bugfix flags later w =
        poisoned_or-count (runtime_poisoned_recovery_loop later.current_signature flags rejected)
          needs_bugfix (record later { current_flags = flags }) w
    after_verdict-count undecided flags later w =
        poisoned_or-count (runtime_poisoned_recovery_loop later.current_signature flags rejected)
          undecided (record later { current_flags = flags }) w

    judge-count :
        (later : Attempts) (w : W)
        → after (judge runtime number attempts implementation later w) ≡ count w
    unfolding judge
    judge-count later w =
        let before = runtime.set_phase "validate" w in
        let (gates, state, validated) = runtime.validate_all_with_state later.recovered before in
        let marked = runtime.write_runtime_gates gates (runtime.set_gates gates validated) in
        let findings = blocking_open_findings state in
        let (verdict, judged) = adjudicate_if_possible runtime later.recovered gates marked in
        let same : count marked ≡ count w =
          counts.runtime_gates_keep gates (runtime.set_gates gates validated)
          ∙ counts.gates_keep gates validated
          ∙ counts.validate_keeps later.recovered before
          ∙ counts.phase_keeps "validate" w in
        elim (Bool-cases (gates_passed gates)) [
          | inl pass ↦ elim (Bool-cases (is_empty findings)) [
            | inl closed ↦ rw (pass, closed) same
            | inr left ↦
                rw (pass, left)
                  (after_verdict-count undecided (finding_ids findings) later marked ∙ same)
          ]
          | inr fail ↦ rw fail (
              after_verdict-count verdict (gate_flags gates) later judged
              ∙ adjudicate_if_possible-count later.recovered gates marked
              ∙ same)
        ]

    pub dispatch-count :
        (s : Attempts) (w : W)
        → after (dispatch runtime number attempts implementation s w) ≡ next (count w)
    unfolding dispatch
    dispatch-count s w =
        let flags = blocking_recovery_flags s.current_flags rejected in
        let pseudo : BatchResult = record implementation {
          status = ResultStatus.failure;
          failure_type = rejected;
          flags = flags;
        } in
        let (bugfix, fixed) =
          runtime.run_bugfix_agent pseudo flags s.total_attempts (runtime.set_phase "bugfix" w) in
        let canonical = runtime.canonicalize_batch_result_manifests fixed in
        let merged =
          merge_recovered_result_from_disk (runtime.read_batch_result canonical) number s.recovered
            bugfix in
        let (state, imported) = runtime.import_agent_result_to_state "bugfix" merged canonical in
        let sent : count fixed ≡ next (count w) =
          counts.bugfix_counts pseudo flags s.total_attempts (runtime.set_phase "bugfix" w)
          ∙ ap next (counts.phase_keeps "bugfix" w) in
        elim (Bool-cases
          (not (validate_contract bugfix).passed || not (is_success bugfix.status))) [
            | inl fail ↦ rw fail sent
            | inr pass ↦ rw pass (
                judge-count (record s { recovered = state.current_result }) imported
                ∙ counts.import_keeps "bugfix" merged canonical
                ∙ counts.canonicalize_keeps fixed
                ∙ sent)
          ]

    pub break_off-count :
        (p : Option RuntimePoisonedRecoveryLoop) (s : Attempts) (w : W)
        → after (break_off runtime number attempts implementation p s w) ≡ count w
    break_off-count (some p) s w = refl
    break_off-count none s w = refl

    -- A round sends one agent at most.
    pub round-count :
        (s : Attempts) (w : W)
        → (after (round runtime number attempts implementation s w) ≡ count w)
          ⊎ (after (round runtime number attempts implementation s w) ≡ next (count w))
    unfolding round
    round-count s w =
        let signature = failure_signature s.current_flags rejected in
        let now = for_signature runtime number attempts implementation s signature in
        let owned = is_runtime_owned_recovery_signature now.current_signature in
        let spent =
          leb attempts (attempts_of now.current_signature now.attempts_by_owned_signature) in
        elim (Bool-cases (runtime_owned_failure_requires_stop signature)) [
          | inl stop ↦ rw stop (inl (counts.finish_keeps "failed" w))
          | inr go ↦ elim (Bool-cases (leb attempts now.attempt_for_signature || owned && spent)) [
            | inl over ↦
                rw (go, over)
                  (inl (
                    break_off-count
                      (runtime_poisoned_recovery_loop now.current_signature now.current_flags
                        rejected)
                      now w))
            | inr more ↦
                rw (go, more)
                  (inr (dispatch-count (one_more runtime number attempts implementation now) w))
          ]
        ]

    module _ (still : (a : A) → next a ≡ a) where
      go_on_keeps :
          (more : Attempts → W → Recovery × W) (r : Round W)
          → ((s : Attempts) (w : W) → count (more s w).1 ≡ count w)
          → count (go_on runtime number attempts implementation more r).1 ≡ after r
      go_on_keeps more (ended recovery w) h = refl
      go_on_keeps more (broken s w) h = counts.finish_keeps "failed" w
      go_on_keeps more (again s w) h = h s w

      rounds_keep :
          (left : ℕ) (s : Attempts) (w : W)
          → count (recovery_rounds runtime number attempts implementation left s w).1 ≡ count w
      unfolding recovery_rounds
      rounds_keep zero s w = counts.finish_keeps "failed" w
      rounds_keep (suc left) s w =
          let same =
            go_on_keeps (recovery_rounds runtime number attempts implementation left)
              (round runtime number attempts implementation s w)
              (λ later v. rounds_keep left later v) in
          elim (round-count s w) [
            | inl kept ↦ same ∙ kept
            | inr moved ↦ same ∙ moved ∙ still (count w)
          ]

      -- What no bugfix agent changes either, no recovery changes.
      pub recover_gate_failure_keeps :
          (flags : List String) (w : W)
          → count (recover_gate_failure runtime number attempts implementation flags w).1 ≡ count w
      unfolding recover_gate_failure
      recover_gate_failure_keeps flags w =
          elim (Bool-cases
            (requires_human_security_approval flags || has_non_recoverable_runtime_blocker flags)) [
              | inl stop ↦ rw stop (counts.finish_keeps "failed" w)
              | inr go ↦ rw go (
                  rounds_keep (attempts * 4)
                    (first_attempts runtime number attempts implementation flags) w)
            ]
