-- ===== src/Runtime/Adversarial.antt =====
-- validateAdversarial of tools/klevar-yolo-runtime/src/runtime.ts: a validator challenges a result, and bugfix agents
-- answer it, until the validator, or an adjudication, takes the result or the budget is spent. The loop
-- runs on what is left of its total of attempts.
pub mod Kept
use trade_compliance_classif.Prelude.{
  ℕ, zero, suc, ◌*◌, Bool, true, false, not, ◌&&◌, ◌||◌, Option, none, some, List, [], ◌∷◌, ◌++◌,
  String, ◌==◌, leb, if◌then◌else◌,
}
use trade_compliance_classif.Types.{TestEvidence, BatchResult, GateResult, ResultStatus, is_success}
use trade_compliance_classif.Contracts.{validate_contract, is_failure}
use trade_compliance_classif.Gating.{gates_passed}
use trade_compliance_classif.Recovery.{
  RuntimePoisonedRecoveryLoop, failure_signature, blocking_recovery_flags,
  runtime_owned_failure_requires_stop, is_runtime_owned_recovery_signature,
  runtime_poisoned_recovery_loop, has_non_recoverable_runtime_blocker,
}
use trade_compliance_classif.Recovery.Parts.{phase}
use trade_compliance_classif.Recovery.Recovered.{merge_recovered_result_from_disk}
use trade_compliance_classif.Runtime.{
  Runtime, Verdict, accepted, needs_human, needs_bugfix, undecided, adjudicate_if_possible,
}
use trade_compliance_classif.Runtime.Contradiction.{
  is_runnable_validation_command, validation_failure_contradicted_by_recovered_evidence,
}
use trade_compliance_classif.Runtime.Recover.{
  Attempts, attempts_of, for_signature, one_more, gate_flags, bugfix_failure_flags,
}

-- What is tried, and the validation that it answers.
pub record Challenge : Type 0 where
  pub attempts : Attempts
  pub validation : BatchResult

pub data Bout (W : Type 0) : Type 0 where
  settled : Option BatchResult → W → Bout W
  stuck : Challenge → W → Bout W
  further : Challenge → W → Bout W

abbrev or_type : String → Option String → String
or_type type none = type
or_type type (some given) = given

-- The flags of a validation that was not passed.
abbrev rejection : String → GateResult → BatchResult → List String
rejection type gate validation =
    gate.flags ++ (validation.flags ++ (or_type type validation.failure_type ∷ []))

abbrev with_flags : Challenge → List String → Challenge
with_flags c flags = record c { attempts = record c.attempts { current_flags = flags } }

-- A validation that fails with a type and flags, for the next bout.
abbrev failed_as : Challenge → String → List String → Challenge
failed_as c type flags = record c {
  attempts = record c.attempts { current_flags = flags };
  validation = record c.validation {
    status = ResultStatus.failure;
    failure_type = some type;
    flags = flags;
  };
}

module _ {W : Type 0} (runtime : Runtime W) (number attempts : ℕ)
    (implementation : BatchResult) where
  abbrev pub turn_down : List String → W → W
  turn_down flags w = runtime.reject_batch flags (runtime.finish_runtime "failed" w)

  abbrev pub red_runs_green : Option TestEvidence → W → Bool × W
  red_runs_green none w = (false, w)
  red_runs_green (some red) w =
      let (exit_code, ran) = runtime.exec_command red.command w in
      if red.exit_code == 0 || not (is_runnable_validation_command red.command)
      then (false, w)
      else (exit_code == 0, ran)

  unfoldable pub validation_failure_looks_stale : BatchResult → W → Bool × W
  validation_failure_looks_stale validation w = red_runs_green (phase "red" validation.tests) w

  abbrev pub poisoned_or_further : Option RuntimePoisonedRecoveryLoop → Challenge → W → Bout W
  poisoned_or_further (some poisoned) c w =
      settled none (turn_down ("RUNTIME_POISONED_RECOVERY_LOOP" ∷ c.attempts.current_flags) w)
  poisoned_or_further none c w = further c w

  -- The validator's second opinion.
  unfoldable pub rejoin : Challenge → BatchResult → W → Bout W
  rejoin c bugfix w =
      let (raw, asked) = runtime.run_validator (runtime.set_phase "validate" w) in
      let (state, imported) = runtime.import_agent_result_to_state "validate" raw asked in
      let validation = state.current_result in
      let gate = validate_contract validation in
      let (stale, ran) = validation_failure_looks_stale validation imported in
      let flags = rejection "VALIDATOR_REJECTED_AFTER_BUGFIX" gate validation in
      let next : Challenge = record {
        attempts = record c.attempts { current_flags = flags };
        validation = validation;
      } in
      let poisoned =
        runtime_poisoned_recovery_loop c.attempts.current_signature flags validation.failure_type in
      let contradicted =
        validation_failure_contradicted_by_recovered_evidence runtime.json_of_entrypoint validation
          c.attempts.recovered bugfix in
      if gate.passed && is_success validation.status
      then settled (some c.attempts.recovered) imported
      else if gate.passed && is_failure validation.status
      then (if stale || contradicted
          then settled (some c.attempts.recovered) ran
          else poisoned_or_further poisoned next ran)
      else poisoned_or_further poisoned next imported

  abbrev pub after_gates_verdict : Verdict → List String → Challenge → W → Bout W
  after_gates_verdict accepted flags c w = settled (some c.attempts.recovered) w
  after_gates_verdict needs_human flags c w = settled none w
  after_gates_verdict needs_bugfix flags c w =
      further (failed_as c "RUNTIME_GATES_REJECTED_AFTER_VALIDATION_BUGFIX" flags) w
  after_gates_verdict undecided flags c w =
      further (failed_as c "RUNTIME_GATES_REJECTED_AFTER_VALIDATION_BUGFIX" flags) w

  unfoldable pub revalidate : Challenge → BatchResult → W → Bout W
  revalidate c bugfix w =
      let (gates, state, validated) =
        runtime.validate_all_with_state c.attempts.recovered (runtime.set_phase "validate" w) in
      let marked = runtime.write_runtime_gates gates (runtime.set_gates gates validated) in
      let (verdict, judged) = adjudicate_if_possible runtime c.attempts.recovered gates marked in
      if gates_passed gates
      then rejoin c bugfix marked
      else after_gates_verdict verdict (gate_flags gates) c judged

  unfoldable pub answer : Challenge → W → Bout W
  answer c w =
      let flags = blocking_recovery_flags c.attempts.current_flags c.validation.failure_type in
      let (bugfix, fixed) =
        runtime.run_bugfix_agent c.validation flags c.attempts.total_attempts
          (runtime.set_phase "bugfix" w) in
      let gate = validate_contract bugfix in
      let canonical = runtime.canonicalize_batch_result_manifests fixed in
      let merged =
        merge_recovered_result_from_disk (runtime.read_batch_result canonical) number
          c.attempts.recovered bugfix in
      let (state, imported) = runtime.import_agent_result_to_state "bugfix" merged canonical in
      if not gate.passed || not (is_success bugfix.status)
      then further (failed_as c "BUGFIX_RESULT_INVALID" (bugfix_failure_flags gate bugfix)) fixed
      else revalidate
          (record c { attempts = record c.attempts { recovered = state.current_result } }) bugfix
          imported

  abbrev pub poisoned_or_stuck : Option RuntimePoisonedRecoveryLoop → Challenge → W → Bout W
  poisoned_or_stuck (some poisoned) c w =
      settled none (turn_down ("RUNTIME_POISONED_RECOVERY_LOOP" ∷ poisoned.flags) w)
  poisoned_or_stuck none c w = stuck c w

  unfoldable pub bout : Challenge → W → Bout W
  bout c w =
      let flags = c.attempts.current_flags in
      let type = c.validation.failure_type in
      let signature = failure_signature flags type in
      let now = for_signature runtime number attempts implementation c.attempts signature in
      let owned = is_runtime_owned_recovery_signature now.current_signature in
      let spent =
        leb attempts (attempts_of now.current_signature now.attempts_by_owned_signature) in
      if has_non_recoverable_runtime_blocker flags
      then settled none (turn_down flags w)
      else if runtime_owned_failure_requires_stop signature
      then settled none (turn_down (blocking_recovery_flags flags type) w)
      else if leb attempts now.attempt_for_signature || owned && spent
      then poisoned_or_stuck (runtime_poisoned_recovery_loop now.current_signature flags type)
          (record c { attempts = now }) w
      else answer (record c { attempts = one_more runtime number attempts implementation now }) w

  abbrev pub out_of_budget : Challenge → W → Option BatchResult × W
  out_of_budget c w = (none, turn_down c.attempts.current_flags w)

  abbrev pub after_bout : (Challenge → W → Option BatchResult × W) → Bout W → Option BatchResult × W
  after_bout more (settled result w) = (result, w)
  after_bout more (stuck c w) = out_of_budget c w
  after_bout more (further c w) = more c w

  unfoldable pub bouts : ℕ → Challenge → W → Option BatchResult × W
  bouts zero c w = out_of_budget c w
  bouts (suc left) c w = after_bout (bouts left) (bout c w)

  abbrev pub first_challenge : BatchResult → List String → Challenge
  first_challenge validation flags = record {
    attempts = record {
      recovered = implementation;
      current_flags = flags;
      current_signature = failure_signature flags validation.failure_type;
      attempt_for_signature = 0;
      total_attempts = 0;
      attempts_by_owned_signature = [];
    };
    validation = validation;
  }

  unfoldable pub validate_adversarial : W → Option BatchResult × W
  validate_adversarial w =
      let (raw, asked) = runtime.run_validator (runtime.set_phase "validate" w) in
      let (state, imported) = runtime.import_agent_result_to_state "validate" raw asked in
      let validation = state.current_result in
      let gate = validate_contract validation in
      if gate.passed && is_success validation.status
      then (some implementation, imported)
      else bouts (attempts * 4)
          (first_challenge validation (rejection "VALIDATOR_REJECTED" gate validation)) imported
