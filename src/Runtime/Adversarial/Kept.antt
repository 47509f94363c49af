-- ===== src/Runtime/Adversarial/Kept.antt =====
-- What an adversarial validation leaves as it is.
use trade_compliance_classif.Prelude.{
  ℕ, zero, suc, ◌*◌, ◌≡◌, refl, ◌∙◌, inl, inr, not, ◌&&◌, ◌||◌, Option, none, some, List, ◌∷◌,
  String, leb, arith, Bool-cases,
}
use trade_compliance_classif.Types.{TestEvidence, BatchResult, is_success}
use trade_compliance_classif.Contracts.{validate_contract, is_failure}
use trade_compliance_classif.Gating.{gates_passed}
use trade_compliance_classif.Recovery.{
  RuntimePoisonedRecoveryLoop, failure_signature, blocking_recovery_flags,
  runtime_owned_failure_requires_stop, is_runtime_owned_recovery_signature,
  runtime_poisoned_recovery_loop, has_non_recoverable_runtime_blocker,
}
use trade_compliance_classif.Recovery.Parts.{phase}
use trade_compliance_classif.Recovery.Recovered.{merge_recovered_result_from_disk}
use trade_compliance_classif.Runtime.{
  Runtime, Verdict, accepted, needs_bugfix, needs_human, undecided, adjudicate_if_possible,
}
use trade_compliance_classif.Runtime.Contradiction.{
  validation_failure_contradicted_by_recovered_evidence,
}
use trade_compliance_classif.Runtime.Recover.{attempts_of, for_signature, one_more, gate_flags}
use trade_compliance_classif.Runtime.Recover.Measure.{IsMeasure, adjudicate_if_possible-count}
use trade_compliance_classif.Runtime.Adversarial.{
  Challenge, Bout, settled, stuck, further, rejection, turn_down, red_runs_green,
  validation_failure_looks_stale, poisoned_or_further, rejoin, after_gates_verdict, revalidate,
  answer, poisoned_or_stuck, bout, after_bout, bouts, first_challenge, validate_adversarial,
}

module _ {W A : Type 0} (runtime : Runtime W) (view : W → A)
    (laws : IsMeasure runtime view (λ a. a)) (number attempts : ℕ)
    (implementation : BatchResult) where
  bout_view : Bout W → A
  bout_view (settled result w) = view w
  bout_view (stuck c w) = view w
  bout_view (further c w) = view w

  turn_down_keeps :
      (flags : List String) (w : W)
      → view (turn_down runtime number attempts implementation flags w) ≡ view w
  turn_down_keeps flags w =
      laws.reject_keeps flags (runtime.finish_runtime "failed" w) ∙ laws.finish_keeps "failed" w

  red_runs_green_keeps :
      (red : Option TestEvidence) (w : W)
      → view (red_runs_green runtime number attempts implementation red w).1 ≡ view w
  red_runs_green_keeps none w = refl
  red_runs_green_keeps (some red) w = ground (arith, laws.exec_keeps red.command w)

  stale_keeps :
      (validation : BatchResult) (w : W)
      → view (validation_failure_looks_stale runtime number attempts implementation validation w).1
        ≡ view w
  unfolding validation_failure_looks_stale
  stale_keeps validation w = red_runs_green_keeps (phase "red" validation.tests) w

  poisoned_or_further_keeps :
      (p : Option RuntimePoisonedRecoveryLoop) (c : Challenge) (w : W)
      → bout_view (poisoned_or_further runtime number attempts implementation p c w) ≡ view w
  unfolding bout_view
  poisoned_or_further_keeps (some p) c w =
      turn_down_keeps ("RUNTIME_POISONED_RECOVERY_LOOP" ∷ c.attempts.current_flags) w
  poisoned_or_further_keeps none c w = refl

  rejoin_keeps :
      (c : Challenge) (bugfix : BatchResult) (w : W)
      → bout_view (rejoin runtime number attempts implementation c bugfix w) ≡ view w
  unfolding rejoin bout_view
  rejoin_keeps c bugfix w =
      let (raw, asked) = runtime.run_validator (runtime.set_phase "validate" w) in
      let (state, imported) = runtime.import_agent_result_to_state "validate" raw asked in
      let validation = state.current_result in
      let (stale, ran) =
        validation_failure_looks_stale runtime number attempts implementation validation imported in
      let same : view imported ≡ view w =
        laws.import_keeps "validate" raw asked
        ∙ laws.validator_keeps _
        ∙ laws.phase_keeps "validate" w in
      let same_ran : view ran ≡ view w = stale_keeps validation imported ∙ same in
      let gate = validate_contract validation in
      let flags = rejection "VALIDATOR_REJECTED_AFTER_BUGFIX" gate validation in
      let next : Challenge = record {
        attempts = record c.attempts { current_flags = flags };
        validation = validation;
      } in
      let poisoned =
        runtime_poisoned_recovery_loop c.attempts.current_signature flags validation.failure_type in
      let contradicted =
        validation_failure_contradicted_by_recovered_evidence runtime.json_of_entrypoint validation
          c.attempts.recovered bugfix in
      elim (Bool-cases (gate.passed && is_success validation.status)) [
        | inl taken ↦ rw taken same
        | inr challenged ↦ elim (Bool-cases (gate.passed && is_failure validation.status)) [
          | inl failing ↦ elim (Bool-cases (stale || contradicted)) [
            | inl refuted ↦ rw (challenged, failing, refuted) same_ran
            | inr stands ↦
                rw (challenged, failing, stands)
                  (poisoned_or_further_keeps poisoned next ran ∙ same_ran)
          ]
          | inr other ↦
              rw (challenged, other) (poisoned_or_further_keeps poisoned next imported ∙ same)
        ]
      ]

  verdict_keeps :
      (v : Verdict) (flags : List String) (c : Challenge) (w : W)
      → bout_view (after_gates_verdict runtime number attempts implementation v flags c w) ≡ view w
  unfolding bout_view
  verdict_keeps accepted flags c w = refl
  verdict_keeps needs_human flags c w = refl
  verdict_keeps needs_bugfix flags c w = refl
  verdict_keeps undecided flags c w = refl

  revalidate_keeps :
      (c : Challenge) (bugfix : BatchResult) (w : W)
      → bout_view (revalidate runtime number attempts implementation c bugfix w) ≡ view w
  unfolding revalidate
  revalidate_keeps c bugfix w =
      let (gates, state, validated) =
        runtime.validate_all_with_state c.attempts.recovered (runtime.set_phase "validate" w) in
      let marked = runtime.write_runtime_gates gates (runtime.set_gates gates validated) in
      let (verdict, judged) = adjudicate_if_possible runtime c.attempts.recovered gates marked in
      let same : view marked ≡ view w =
        laws.runtime_gates_keep gates _
        ∙ laws.gates_keep gates validated
        ∙ laws.validate_keeps _ _
        ∙ laws.phase_keeps "validate" w in
      elim (Bool-cases (gates_passed gates)) [
        | inl pass ↦ rw pass (rejoin_keeps c bugfix marked ∙ same)
        | inr fail ↦ rw fail (
            verdict_keeps verdict (gate_flags gates) c judged
            ∙ adjudicate_if_possible-count runtime view (λ a. a) laws c.attempts.recovered gates
                marked
            ∙ same)
      ]

  answer_keeps :
      (c : Challenge) (w : W)
      → bout_view (answer runtime number attempts implementation c w) ≡ view w
  unfolding answer bout_view
  answer_keeps c w =
      let flags = blocking_recovery_flags c.attempts.current_flags c.validation.failure_type in
      let (bugfix, fixed) =
        runtime.run_bugfix_agent c.validation flags c.attempts.total_attempts
          (runtime.set_phase "bugfix" w) in
      let canonical = runtime.canonicalize_batch_result_manifests fixed in
      let merged =
        merge_recovered_result_from_disk (runtime.read_batch_result canonical) number
          c.attempts.recovered bugfix in
      let (state, imported) = runtime.import_agent_result_to_state "bugfix" merged canonical in
      let sent : view fixed ≡ view w = laws.bugfix_counts _ _ _ _ ∙ laws.phase_keeps "bugfix" w in
      elim (Bool-cases (not (validate_contract bugfix).passed || not (is_success bugfix.status))) [
        | inl fail ↦ rw fail sent
        | inr pass ↦ rw pass (
            revalidate_keeps
              (record c { attempts = record c.attempts { recovered = state.current_result } })
              bugfix imported
            ∙ laws.import_keeps "bugfix" merged canonical
            ∙ laws.canonicalize_keeps fixed
            ∙ sent)
      ]

  poisoned_or_stuck_keeps :
      (p : Option RuntimePoisonedRecoveryLoop) (c : Challenge) (w : W)
      → bout_view (poisoned_or_stuck runtime number attempts implementation p c w) ≡ view w
  unfolding bout_view
  poisoned_or_stuck_keeps (some p) c w =
      turn_down_keeps ("RUNTIME_POISONED_RECOVERY_LOOP" ∷ p.flags) w
  poisoned_or_stuck_keeps none c w = refl

  bout_keeps :
      (c : Challenge) (w : W) → bout_view (bout runtime number attempts implementation c w) ≡ view w
  unfolding bout bout_view
  bout_keeps c w =
      let flags = c.attempts.current_flags in
      let type = c.validation.failure_type in
      let signature = failure_signature flags type in
      let now = for_signature runtime number attempts implementation c.attempts signature in
      let owned = is_runtime_owned_recovery_signature now.current_signature in
      let spent =
        leb attempts (attempts_of now.current_signature now.attempts_by_owned_signature) in
      elim (Bool-cases (has_non_recoverable_runtime_blocker flags)) [
        | inl hopeless ↦ rw hopeless (turn_down_keeps flags w)
        | inr hopeful ↦ elim (Bool-cases (runtime_owned_failure_requires_stop signature)) [
          | inl stop ↦ rw (hopeful, stop) (turn_down_keeps (blocking_recovery_flags flags type) w)
          | inr go ↦ elim (Bool-cases (leb attempts now.attempt_for_signature || owned && spent)) [
            | inl over ↦
                rw (hopeful, go, over)
                  (poisoned_or_stuck_keeps
                    (runtime_poisoned_recovery_loop now.current_signature flags type)
                    (record c { attempts = now }) w)
            | inr more ↦
                rw (hopeful, go, more)
                  (answer_keeps
                    (record c { attempts = one_more runtime number attempts implementation now }) w)
          ]
        ]
      ]

  after_bout_keeps :
      (more : Challenge → W → Option BatchResult × W) (b : Bout W)
      → ((c : Challenge) (w : W) → view (more c w).1 ≡ view w)
      → view (after_bout runtime number attempts implementation more b).1 ≡ bout_view b
  unfolding bout_view
  after_bout_keeps more (settled result w) h = refl
  after_bout_keeps more (stuck c w) h = turn_down_keeps c.attempts.current_flags w
  after_bout_keeps more (further c w) h = h c w

  bouts_keep :
      (left : ℕ) (c : Challenge) (w : W)
      → view (bouts runtime number attempts implementation left c w).1 ≡ view w
  unfolding bouts
  bouts_keep zero c w = turn_down_keeps c.attempts.current_flags w
  bouts_keep (suc left) c w =
      after_bout_keeps (bouts runtime number attempts implementation left)
        (bout runtime number attempts implementation c w) (λ later v. bouts_keep left later v)
      ∙ bout_keeps c w

  -- What none of the calls changes, an adversarial validation does not change.
  pub validate_adversarial_keeps :
      (w : W) → view (validate_adversarial runtime number attempts implementation w).1 ≡ view w
  unfolding validate_adversarial
  validate_adversarial_keeps w =
      let (raw, asked) = runtime.run_validator (runtime.set_phase "validate" w) in
      let (state, imported) = runtime.import_agent_result_to_state "validate" raw asked in
      let validation = state.current_result in
      let gate = validate_contract validation in
      let same : view imported ≡ view w =
        laws.import_keeps "validate" raw asked
        ∙ laws.validator_keeps _
        ∙ laws.phase_keeps "validate" w in
      elim (Bool-cases (gate.passed && is_success validation.status)) [
        | inl taken ↦ rw taken same
        | inr challenged ↦ rw challenged (
            bouts_keep (attempts * 4)
              (first_challenge runtime number attempts implementation validation
                (rejection "VALIDATOR_REJECTED" gate validation))
              imported
            ∙ same)
      ]
