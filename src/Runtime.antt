-- ===== src/Runtime.antt =====
-- tools/klevar-yolo-runtime/src/runtime.ts: what the runtime calls of its surroundings, and the adjudication of
-- gates that did not pass. The surroundings are a state `W`, and each call is a function on it; the
-- texts of messages, prompts and recommendations are left out. The paths of root and worktree, the batch
-- and the configuration are fixed in a call.
pub mod Recover
pub mod Contradiction
pub mod Adversarial
pub mod Single
mod Tests
use trade_compliance_classif.Prelude.{
  ℕ, Bool, true, false, not, Option, none, some, List, [], ◌∷◌, String, if◌then◌else◌,
}
use trade_compliance_classif.Types.{Entrypoint, BatchResult, GateResult}
use trade_compliance_classif.Findings.{RuntimeBatchState}
use trade_compliance_classif.Verdicts.{
  AdjudicationResult, adjudication_allowed, adjudication_accepted, adjudication_needs_bugfix,
  adjudication_needs_human,
}

pub data Verdict : Type 0 where
  accepted needs_bugfix needs_human undecided : Verdict

-- The agents and the files that a running batch works with.
pub record Runtime (W : Type 0) : Type 0 where
  pub set_phase : String → W → W
  pub set_checkpoint : String → String → W → W
  pub finish_runtime : String → W → W
  pub reject_batch : List String → W → W
  pub set_gates : List GateResult → W → W
  pub write_runtime_gates : List GateResult → W → W
  pub write_gate : String → String → W → W
  pub run_bugfix_agent : BatchResult → List String → ℕ → W → BatchResult × W
  pub run_validator : W → BatchResult × W
  pub run_adjudication_agent : BatchResult → W → W
  pub read_existing_adjudication : W → Option AdjudicationResult
  pub read_adjudication_file : W → Option AdjudicationResult
  pub copy_adjudication : W → W
  pub canonicalize_batch_result_manifests : W → W
  pub read_batch_result : W → String → BatchResult
  pub import_agent_result_to_state : String → BatchResult → W → RuntimeBatchState × W
  pub validate_all_with_state : BatchResult → W → List GateResult × RuntimeBatchState × W
  pub exec_command : String → W → ℕ × W
  pub json_of_entrypoint : Entrypoint → String

module _ {W : Type 0} (runtime : Runtime W) where
  settle_adjudication : AdjudicationResult → W → Verdict × W
  settle_adjudication adjudication w =
      if adjudication_accepted adjudication
      then (accepted, runtime.write_gate "adjudication" "PASS" w)
      else if adjudication_needs_bugfix adjudication
      then (needs_bugfix, w)
      else (needs_human, runtime.finish_runtime "failed" w)

  abbrev settle_new : Option AdjudicationResult → W → Verdict × W
  settle_new none w = (undecided, w)
  settle_new (some adjudication) w = settle_adjudication adjudication (runtime.copy_adjudication w)

  ask_adjudicator : BatchResult → W → Verdict × W
  ask_adjudicator result w =
      let asked = runtime.run_adjudication_agent result (runtime.set_phase "validate" w) in
      settle_new (runtime.read_adjudication_file asked) asked

  abbrev reuse_or_ask : Option AdjudicationResult → BatchResult → W → Verdict × W
  reuse_or_ask none result w = ask_adjudicator result w
  reuse_or_ask (some existing) result w =
      if adjudication_accepted existing
      then (accepted, runtime.write_gate "adjudication" "PASS" w)
      else if adjudication_needs_bugfix existing
      then (needs_bugfix, w)
      else if adjudication_needs_human existing
      then (needs_human, runtime.finish_runtime "failed" w)
      else ask_adjudicator result w

  unfoldable pub adjudicate_if_possible : BatchResult → List GateResult → W → Verdict × W
  unfolding settle_adjudication ask_adjudicator
  adjudicate_if_possible result gates w =
      if adjudication_allowed gates
      then reuse_or_ask (runtime.read_existing_adjudication w) result w
      else (undecided, w)
