-- ===== src/Runtime/Recover/Checked.antt =====
-- What a recovery that returns a result has seen of it.
use mathlib.Core.Path.{subst}
use trade_compliance_classif.Prelude.{
  ℕ, zero, suc, ◌*◌, ◌≡◌, refl, ◌⊎◌, inl, inr, true, false, not, ◌&&◌, ◌||◌, Option, none, some,
  List, [], ◌∷◌, String, is_empty, leb, arith, Bool-cases,
}
use trade_compliance_classif.Types.{BatchResult, GateResult, ResultStatus, is_success}
use trade_compliance_classif.Contracts.{validate_contract}
use trade_compliance_classif.Recovery.Recovered.{merge_recovered_result_from_disk}
use trade_compliance_classif.Findings.{RuntimeBatchState}
use trade_compliance_classif.Findings.State.{blocking_open_findings}
use trade_compliance_classif.Gating.{gates_passed}
use trade_compliance_classif.Verdicts.{adjudication_allowed}
use trade_compliance_classif.Recovery.{
  RuntimePoisonedRecoveryLoop, runtime_poisoned_recovery_loop, failure_signature,
  runtime_owned_failure_requires_stop, is_runtime_owned_recovery_signature, blocking_recovery_flags,
  requires_human_security_approval, has_non_recoverable_runtime_blocker,
}
use trade_compliance_classif.Runtime.{
  Runtime, Verdict, accepted, needs_bugfix, needs_human, undecided, adjudicate_if_possible,
}
use trade_compliance_classif.Runtime.Recover.{
  Recovery, Attempts, Round, ended, broken, again, given_up, rejected, gate_flags, finding_ids,
  after_verdict, poisoned_or, break_off, for_signature, one_more, judge, dispatch, round, go_on,
  recovery_rounds, attempts_of, recover_gate_failure, first_attempts,
}

module _ {W : Type 0} (runtime : Runtime W) (number attempts : ℕ)
    (implementation : BatchResult) where
  -- The validation of a result in a world, and what is written of its gates.
  abbrev validated : BatchResult → W → List GateResult × RuntimeBatchState × W
  validated result w = runtime.validate_all_with_state result (runtime.set_phase "validate" w)

  abbrev marked : List GateResult → W → W
  marked gates w = runtime.write_runtime_gates gates (runtime.set_gates gates w)

  -- Validation of the result in `w` gave gates that pass and a state without a blocking open finding, and
  -- what is written of the gates leaves `final`; or gates that do not pass, of which adjudication is
  -- allowed, accepts, and leaves `final`.
  abbrev pub IsJudged : BatchResult → W → W → Type 0
  IsJudged result w final =
      let (gates, state, after) = validated result w in
      ((gates_passed gates ≡ true)
        × (blocking_open_findings state ≡ [])
        × (marked gates after ≡ final))
      ⊎ ((gates_passed gates ≡ false)
          × (adjudication_allowed gates ≡ true)
          × ((adjudicate_if_possible runtime result gates (marked gates after)).0 ≡ accepted)
          × ((adjudicate_if_possible runtime result gates (marked gates after)).1 ≡ final))

  -- The bugfix that answers the flags of an attempt, and the import of the result that it is merged into.
  abbrev bugfix_of : Attempts → W → BatchResult × W
  bugfix_of s w =
      let flags = blocking_recovery_flags s.current_flags rejected in
      runtime.run_bugfix_agent
        (record implementation {
          status = ResultStatus.failure;
          failure_type = rejected;
          flags = flags;
        })
        flags s.total_attempts (runtime.set_phase "bugfix" w)

  abbrev import_of : Attempts → BatchResult → W → RuntimeBatchState × W
  import_of s bugfix fixed =
      let canonical = runtime.canonicalize_batch_result_manifests fixed in
      runtime.import_agent_result_to_state "bugfix"
        (merge_recovered_result_from_disk (runtime.read_batch_result canonical) number s.recovered
          bugfix)
        canonical

  -- An attempt in `w` whose bugfix succeeds and keeps its contract; `result` is that of the state that
  -- the import of the merged result leaves, and is judged in the world that the import leaves.
  abbrev pub IsAttempted : Attempts → W → BatchResult → W → Type 0
  IsAttempted s w result final =
      let (bugfix, fixed) = bugfix_of s w in
      let (state, imported) = import_of s bugfix fixed in
      ((validate_contract bugfix).passed ≡ true)
      × (is_success bugfix.status ≡ true)
      × (result ≡ state.current_result)
      × IsJudged result imported final

  -- The attempts and the worlds from which the rounds of a recovery start.
  pub data Reached (flags : List String) (start : W) : Attempts → W → Type 0 where
    first : Reached flags start (first_attempts runtime number attempts implementation flags) start
    next :
        {s s' : Attempts} {w w' : W}
        → Reached flags start s w
        → round runtime number attempts implementation s w ≡ again s' w'
        → Reached flags start s' w'

  -- The attempt that a round makes.
  abbrev pub attempt_of : Attempts → Attempts
  attempt_of s = one_more runtime number attempts implementation (
      for_signature runtime number attempts implementation s
        (failure_signature s.current_flags rejected))

  -- A round of the recovery attempted the result, and the recovery ended in the world that was left.
  abbrev pub IsChecked : List String → W → BatchResult → W → Type 0
  IsChecked flags start result final =
      (s : Attempts) × (w : W) × Reached flags start s w × IsAttempted (attempt_of s) w result final

  accepted-adjudication_allowed :
      (result : BatchResult) (gates : List GateResult) (w : W)
      → (adjudicate_if_possible runtime result gates w).0 ≡ accepted
      → adjudication_allowed gates ≡ true
  unfolding adjudicate_if_possible
  accepted-adjudication_allowed result gates w h = elim (Bool-cases (adjudication_allowed gates)) [
    | inl allowed ↦ allowed
    | inr other ↦ let bad : undecided ≡ accepted = rw other at h in absurd cc
  ]

  none_empty {ℓ} : {A : Type ℓ} (xs : List A) → is_empty xs ≡ true → xs ≡ []
  none_empty [] h = refl
  none_empty (x ∷ xs) h = absurd (ground arith)

  -- What is known of a result with which a recovery may end, and of the world that it leaves.
  module _ (Known : BatchResult → W → Type 0) where
    abbrev IsFair : Round W → Type 0
    IsFair (ended recovery w) =
        (result : BatchResult) → recovery.result ≡ some result → Known result w
    IsFair (broken s w) = Unit
    IsFair (again s w) = Unit

    no_result : (flags : List String) (w : W) → IsFair (ended (given_up flags) w)
    no_result flags w result h = absurd cc

    some_result : (a b : BatchResult) (w : W) → Known a w → some a ≡ some b → Known b w
    some_result a b w known same = subst (λ r. Known r w) (cc) known

    poisoned_or-IsFair :
        (poisoned : Option RuntimePoisonedRecoveryLoop) (verdict : Verdict) (s : Attempts) (w : W)
        → IsFair (poisoned_or runtime number attempts implementation poisoned verdict s w)
    poisoned_or-IsFair (some p) verdict s w =
        no_result ("RUNTIME_POISONED_RECOVERY_LOOP" ∷ s.current_flags)
          (runtime.finish_runtime "failed" w)
    poisoned_or-IsFair none needs_human s w = no_result s.current_flags w
    poisoned_or-IsFair none needs_bugfix s w = tt
    poisoned_or-IsFair none accepted s w = tt
    poisoned_or-IsFair none undecided s w = tt

    after_verdict-IsFair :
        (verdict : Verdict) (flags : List String) (s : Attempts) (w : W)
        → (verdict ≡ accepted → Known s.recovered w)
        → IsFair (after_verdict runtime number attempts implementation verdict flags s w)
    after_verdict-IsFair accepted flags s w h =
        λ result same. some_result s.recovered result w (h refl) same
    after_verdict-IsFair needs_human flags s w h =
        poisoned_or-IsFair (runtime_poisoned_recovery_loop s.current_signature flags rejected)
          needs_human (record s { current_flags = flags }) w
    after_verdict-IsFair needs_bugfix flags s w h =
        poisoned_or-IsFair (runtime_poisoned_recovery_loop s.current_signature flags rejected)
          needs_bugfix (record s { current_flags = flags }) w
    after_verdict-IsFair undecided flags s w h =
        poisoned_or-IsFair (runtime_poisoned_recovery_loop s.current_signature flags rejected)
          undecided (record s { current_flags = flags }) w

    judge-IsFair :
        (s : Attempts) (w : W)
        → ((final : W) → IsJudged s.recovered w final → Known s.recovered final)
        → IsFair (judge runtime number attempts implementation s w)
    unfolding judge
    judge-IsFair s w know =
        let (gates, state, after) = validated s.recovered w in
        let written = marked gates after in
        let findings = blocking_open_findings state in
        let (verdict, judged) = adjudicate_if_possible runtime s.recovered gates written in
        elim (Bool-cases (gates_passed gates)) [
          | inl pass ↦ elim (Bool-cases (is_empty findings)) [
            | inl closed ↦
                rw (pass, closed)
                  (λ result same.
                    some_result s.recovered result written
                      (know written (inl (pass, none_empty findings closed, refl))) same)
            | inr left ↦
                rw (pass, left)
                  (after_verdict-IsFair undecided (finding_ids findings) s written
                    (λ same. absurd cc))
          ]
          | inr fail ↦ rw fail (
              after_verdict-IsFair verdict (gate_flags gates) s judged (λ same. know judged (
                inr (
                  fail,
                  accepted-adjudication_allowed s.recovered gates written same,
                  same,
                  refl,
                ))))
        ]

    dispatch-IsFair :
        (s : Attempts) (w : W)
        → ((result : BatchResult) (final : W) → IsAttempted s w result final → Known result final)
        → IsFair (dispatch runtime number attempts implementation s w)
    unfolding dispatch
    dispatch-IsFair s w know =
        let (bugfix, fixed) = bugfix_of s w in
        let (state, imported) = import_of s bugfix fixed in
        elim (Bool-cases
          (not (validate_contract bugfix).passed || not (is_success bugfix.status))) [
            | inl fail ↦ rw fail tt
            | inr pass ↦ rw pass (
                judge-IsFair (record s { recovered = state.current_result }) imported
                  (λ final judged.
                    know state.current_result final (ground arith, ground arith, refl, judged)))
          ]

    break_off-IsFair :
        (poisoned : Option RuntimePoisonedRecoveryLoop) (s : Attempts) (w : W)
        → IsFair (break_off runtime number attempts implementation poisoned s w)
    break_off-IsFair (some p) s w = no_result ("RUNTIME_POISONED_RECOVERY_LOOP" ∷ p.flags) w
    break_off-IsFair none s w = tt

    round-IsFair :
        (s : Attempts) (w : W)
        → ((result : BatchResult) (final : W)
            → IsAttempted (attempt_of s) w result final
            → Known result final)
        → IsFair (round runtime number attempts implementation s w)
    unfolding round
    round-IsFair s w know =
        let signature = failure_signature s.current_flags rejected in
        let now = for_signature runtime number attempts implementation s signature in
        let owned = is_runtime_owned_recovery_signature now.current_signature in
        let spent =
          leb attempts (attempts_of now.current_signature now.attempts_by_owned_signature) in
        elim (Bool-cases (runtime_owned_failure_requires_stop signature)) [
          | inl stop ↦ rw stop (
              no_result (blocking_recovery_flags s.current_flags rejected)
                (runtime.finish_runtime "failed" w))
          | inr go ↦ elim (Bool-cases (leb attempts now.attempt_for_signature || owned && spent)) [
            | inl over ↦
                rw (go, over)
                  (break_off-IsFair
                    (runtime_poisoned_recovery_loop now.current_signature now.current_flags
                      rejected)
                    now w)
            | inr more ↦ rw (go, more) (dispatch-IsFair (attempt_of s) w know)
          ]
        ]

    go_on-Known :
        (more : Attempts → W → Recovery × W) (r : Round W) (result : BatchResult)
        → IsFair r
        → ((s : Attempts) (w : W)
            → r ≡ again s w
            → (more s w).0.result ≡ some result
            → Known result (more s w).1)
        → (go_on runtime number attempts implementation more r).0.result ≡ some result
        → Known result (go_on runtime number attempts implementation more r).1
    go_on-Known more (ended recovery w) result fair later same = fair result same
    go_on-Known more (broken s w) result fair later same = absurd cc
    go_on-Known more (again s w) result fair later same = later s w refl same

  rounds-IsChecked :
      (left : ℕ) (flags : List String) (start : W) (s : Attempts) (w : W) (result : BatchResult)
      → Reached flags start s w
      → (recovery_rounds runtime number attempts implementation left s w).0.result ≡ some result
      → IsChecked flags start result
          (recovery_rounds runtime number attempts implementation left s w).1
  unfolding recovery_rounds
  rounds-IsChecked zero flags start s w result reached same = absurd cc
  rounds-IsChecked (suc left) flags start s w result reached same =
      go_on-Known (IsChecked flags start)
        (recovery_rounds runtime number attempts implementation left)
        (round runtime number attempts implementation s w) result
        (round-IsFair (IsChecked flags start) s w
          (λ result final attempted. (s, w, reached, attempted)))
        (λ s' w' again. rounds-IsChecked left flags start s' w' result (next reached again)) same

  -- A result that the recovery returns was attempted in a round that the recovery came to: the round's bugfix
  -- kept its contract and succeeded, and the result is that of the state after its import. The result was
  -- validated in the world that the import left: its gates passed and no blocking finding was open, or
  -- they did not pass, and an adjudication that they allow accepted them, by a new file or by one that
  -- was there. The recovery ends in the world that this left.
  pub recover_gate_failure-IsChecked :
      (flags : List String) (w : W) (result : BatchResult)
      → (recover_gate_failure runtime number attempts implementation flags w).0.result ≡ some result
      → IsChecked flags w result
          (recover_gate_failure runtime number attempts implementation flags w).1
  unfolding recover_gate_failure
  recover_gate_failure-IsChecked flags w result same =
      elim (Bool-cases
        (requires_human_security_approval flags || has_non_recoverable_runtime_blocker flags)) [
          | inl stop ↦ let bad : none ≡ some result = rw stop at same in absurd cc
          | inr go ↦ rw go (
              rounds-IsChecked (attempts * 4) flags w
                (first_attempts runtime number attempts implementation flags) w result first
                (rw go at same))
        ]
