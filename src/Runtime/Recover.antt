-- ===== src/Runtime/Recover.antt =====
-- recoverGateFailure of tools/klevar-yolo-runtime/src/runtime.ts: bugfix agents are sent after the flags of a
-- batch's gates, round by round, until the gates let the result pass or the budget is spent. The loop runs on
-- what is left of its total of attempts, which every further round lowers by one.
pub mod Checked
pub mod Measure
pub mod Budget
use trade_compliance_classif.Prelude.{
  ℕ, zero, suc, ◌+◌, ◌*◌, max, Bool, true, false, not, ◌&&◌, ◌||◌, Option, none, some, List, [],
  ◌∷◌, ◌++◌, map, String, leb, if◌then◌else◌, is_empty,
}
use trade_compliance_classif.Prelude.Text.{◌⧺◌, text_eq, show}
use trade_compliance_classif.Types.{BatchResult, GateResult, ResultStatus, is_success}
use trade_compliance_classif.Contracts.{validate_contract}
use trade_compliance_classif.Findings.{RuntimeFinding, RuntimeBatchState}
use trade_compliance_classif.Findings.State.{blocking_open_findings}
use trade_compliance_classif.Gating.{gate_passes, gates_passed}
use trade_compliance_classif.Recovery.Recovered
use trade_compliance_classif.Contracts
use trade_compliance_classif.Verdicts
use trade_compliance_classif.Recovery.{
  runs as recovery_runs, RuntimePoisonedRecoveryLoop, failure_signature, blocking_recovery_flags,
  runtime_owned_failure_requires_stop, is_runtime_owned_recovery_signature,
  runtime_poisoned_recovery_loop, requires_human_security_approval,
  has_non_recoverable_runtime_blocker,
}
use trade_compliance_classif.Recovery.Recovered.{merge_recovered_result_from_disk}
use trade_compliance_classif.Runtime.{
  Runtime, Verdict, accepted, needs_human, undecided, adjudicate_if_possible,
}

pub record Recovery : Type 0 where
  pub result : Option BatchResult
  pub flags : List String

pub record Attempts : Type 0 where
  pub recovered : BatchResult
  pub current_flags : List String
  pub current_signature : String
  pub attempt_for_signature : ℕ
  pub total_attempts : ℕ
  pub attempts_by_owned_signature : List (String × ℕ)

-- How a round ends: the recovery does, the loop breaks off, or another round follows.
pub data Round (W : Type 0) : Type 0 where
  ended : Recovery → W → Round W
  broken : Attempts → W → Round W
  again : Attempts → W → Round W

abbrev pub rejected : Option String
rejected = some "RUNTIME_GATES_REJECTED"

abbrev pub given_up : List String → Recovery
given_up flags = record { result = none; flags = flags }

abbrev pub recovered_as : BatchResult → Recovery
recovered_as result = record { result = some result; flags = [] }

unfoldable pub attempts_of : String → List (String × ℕ) → ℕ
attempts_of signature [] = 0
attempts_of signature ((s, n) ∷ more) =
    let rest = attempts_of signature more in if text_eq s signature then n else rest

unfoldable pub set_attempts : String → ℕ → List (String × ℕ) → List (String × ℕ)
set_attempts signature n [] = (signature, n) ∷ []
set_attempts signature n ((s, m) ∷ more) =
    let rest = set_attempts signature n more in
    if text_eq s signature then (s, n) ∷ more else (s, m) ∷ rest

abbrev pub gate_flags : List GateResult → List String
gate_flags [] = []
gate_flags (gate ∷ gates) = gate.flags ++ gate_flags gates

abbrev pub finding_ids : List RuntimeFinding → List String
finding_ids findings = map (λ (f : RuntimeFinding). f.id) findings

abbrev or_failed : Option String → String
or_failed none = "BUGFIX_RECOVERY_FAILED"
or_failed (some type) = type

-- The flags of a bugfix that failed.
abbrev pub bugfix_failure_flags : GateResult → BatchResult → List String
bugfix_failure_flags gate bugfix =
    gate.flags ++ (bugfix.flags ++ (or_failed bugfix.failure_type ∷ []))

unfoldable pub max_attempts : Option ℕ → ℕ
max_attempts none = 1
max_attempts (some n) = max 1 n

module _ {W : Type 0} (runtime : Runtime W) (number attempts : ℕ)
    (implementation : BatchResult) where
  abbrev pub poisoned_or : Option RuntimePoisonedRecoveryLoop → Verdict → Attempts → W → Round W
  poisoned_or (some poisoned) verdict next w =
      ended (given_up ("RUNTIME_POISONED_RECOVERY_LOOP" ∷ next.current_flags))
        (runtime.finish_runtime "failed" w)
  poisoned_or none needs_human next w = ended (given_up next.current_flags) w
  poisoned_or none verdict next w = again next w

  abbrev pub after_verdict : Verdict → List String → Attempts → W → Round W
  after_verdict accepted flags next w = ended (recovered_as next.recovered) w
  after_verdict verdict flags next w =
      poisoned_or (runtime_poisoned_recovery_loop next.current_signature flags rejected) verdict
        (record next { current_flags = flags }) w

  -- The gates of the merged result, from which its recovery ends or goes on.
  unfoldable pub judge : Attempts → W → Round W
  judge next w =
      let (gates, state, validated) =
        runtime.validate_all_with_state next.recovered (runtime.set_phase "validate" w) in
      let marked = runtime.write_runtime_gates gates (runtime.set_gates gates validated) in
      let findings = blocking_open_findings state in
      let (verdict, judged) = adjudicate_if_possible runtime next.recovered gates marked in
      if gates_passed gates
      then (if is_empty findings
          then ended (recovered_as next.recovered) marked
          else after_verdict undecided (finding_ids findings) next marked)
      else after_verdict verdict (gate_flags gates) next judged

  unfoldable pub dispatch : Attempts → W → Round W
  dispatch s w =
      let flags = blocking_recovery_flags s.current_flags rejected in
      let pseudo : BatchResult = record implementation {
        status = ResultStatus.failure;
        failure_type = rejected;
        flags = flags;
      } in
      let (bugfix, fixed) =
        runtime.run_bugfix_agent pseudo flags s.total_attempts (runtime.set_phase "bugfix" w) in
      let gate = validate_contract bugfix in
      let canonical = runtime.canonicalize_batch_result_manifests fixed in
      let merged =
        merge_recovered_result_from_disk (runtime.read_batch_result canonical) number s.recovered
          bugfix in
      let (state, imported) = runtime.import_agent_result_to_state "bugfix" merged canonical in
      if not gate.passed || not (is_success bugfix.status)
      then again (record s { current_flags = bugfix_failure_flags gate bugfix }) fixed
      else judge (record s { recovered = state.current_result }) imported

  abbrev pub for_signature : Attempts → String → Attempts
  for_signature s signature =
      if text_eq signature s.current_signature
      then s
      else record s { current_signature = signature; attempt_for_signature = 0 }

  abbrev pub one_more : Attempts → Attempts
  one_more s = record s {
    attempt_for_signature = suc s.attempt_for_signature;
    total_attempts = suc s.total_attempts;
    attempts_by_owned_signature =
        if is_runtime_owned_recovery_signature s.current_signature
        then set_attempts s.current_signature
            (suc (attempts_of s.current_signature s.attempts_by_owned_signature))
            s.attempts_by_owned_signature
        else s.attempts_by_owned_signature;
  }

  abbrev pub break_off : Option RuntimePoisonedRecoveryLoop → Attempts → W → Round W
  break_off (some poisoned) s w =
      ended (given_up ("RUNTIME_POISONED_RECOVERY_LOOP" ∷ poisoned.flags)) w
  break_off none s w = broken s w

  unfoldable pub round : Attempts → W → Round W
  round s w =
      let signature = failure_signature s.current_flags rejected in
      let now = for_signature s signature in
      let owned = is_runtime_owned_recovery_signature now.current_signature in
      let spent =
        leb attempts (attempts_of now.current_signature now.attempts_by_owned_signature) in
      if runtime_owned_failure_requires_stop signature
      then ended (given_up (blocking_recovery_flags s.current_flags rejected))
          (runtime.finish_runtime "failed" w)
      else if leb attempts now.attempt_for_signature || owned && spent
      then break_off
          (runtime_poisoned_recovery_loop now.current_signature now.current_flags rejected) now w
      else dispatch (one_more now) w

  unfoldable pub exhausted_flags : Attempts → List String
  exhausted_flags s =
      "RECOVERY_ATTEMPTS_EXHAUSTED"
      ∷ ("RECOVERY_SIGNATURE:" ⧺ s.current_signature)
      ∷ ("RECOVERY_ATTEMPTS:" ⧺ show attempts ⧺ "/" ⧺ show attempts)
      ∷ ("RECOVERY_TOTAL_ATTEMPTS:" ⧺ show s.total_attempts)
      ∷ blocking_recovery_flags s.current_flags rejected

  abbrev pub exhausted : Attempts → W → Recovery × W
  exhausted s w = (given_up (exhausted_flags s), runtime.finish_runtime "failed" w)

  abbrev pub go_on : (Attempts → W → Recovery × W) → Round W → Recovery × W
  go_on more (ended recovery w) = (recovery, w)
  go_on more (broken s w) = exhausted s w
  go_on more (again s w) = more s w

  unfoldable pub recovery_rounds : ℕ → Attempts → W → Recovery × W
  recovery_rounds zero s w = exhausted s w
  recovery_rounds (suc left) s w = go_on (recovery_rounds left) (round s w)

  abbrev pub first_attempts : List String → Attempts
  first_attempts flags = record {
    recovered = implementation;
    current_flags = flags;
    current_signature = failure_signature flags rejected;
    attempt_for_signature = 0;
    total_attempts = 0;
    attempts_by_owned_signature = [];
  }

  unfoldable pub recover_gate_failure : List String → W → Recovery × W
  recover_gate_failure flags w =
      if requires_human_security_approval flags || has_non_recoverable_runtime_blocker flags
      then (given_up flags, runtime.finish_runtime "failed" w)
      else recovery_rounds (attempts * 4) (first_attempts flags) w

-- All that a run computes with.
unfoldable pub runs : Unit {0}
unfolding attempts_of set_attempts max_attempts judge dispatch round exhausted_flags recovery_rounds
    recover_gate_failure adjudicate_if_possible recovery_runs Contracts.runs Verdicts.runs
    gates_passed gate_passes blocking_open_findings merge_recovered_result_from_disk Recovered.runs
    show
runs = tt
