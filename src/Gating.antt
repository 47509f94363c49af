-- ===== src/Gating.antt =====
-- tools/klevar-yolo-runtime/src/validators/index.ts: the validators of a result, run one after another, and
-- whether their gates let the batch pass. A validator is a function on a state of the world, which telemetry
-- marks change as well.
pub mod Pipeline
pub mod Validators
pub mod Previous
pub mod Evidence
pub mod Business
mod EvidenceTests
mod Tests
use trade_compliance_classif.Prelude.{
  ℕ, Bool, true, false, not, ◌&&◌, ◌||◌, Option, none, some, List, [], ◌∷◌, ◌++◌, map, String,
  if◌then◌else◌, any, all, filter, is_empty,
}
use trade_compliance_classif.Prelude.Text.{◌⧺◌, join}
use trade_compliance_classif.Types.{GateResult}
use trade_compliance_classif.Flags.{is_blocking_flag, is_warning_flag, is_positive_flag}
use trade_compliance_classif.Risk.{ValidationMode, mode_or_balanced, is_safe}

unfoldable pub gate_passes : GateResult → Bool
gate_passes gate =
    not (any is_blocking_flag gate.flags)
    && (gate.passed
        || all (λ flag. is_warning_flag (some gate.name) flag || is_positive_flag flag) gate.flags)

unfoldable pub gates_passed : List GateResult → Bool
gates_passed gates = all gate_passes gates

unfoldable pub blocking_gate_names : List GateResult → List String
blocking_gate_names gates =
    map (λ (gate : GateResult). gate.name)
      (filter
        (λ (gate : GateResult).
          any is_blocking_flag gate.flags || not gate.passed && is_empty gate.flags)
        gates)

pub record GateTask (W : Type 0) : Type 0 where
  pub name : String
  pub run : W → GateResult × W

abbrev pub skipped_flag : List String → String
skipped_flag blockers = "SKIPPED_EXPENSIVE_GATE_DUE_TO_CHEAP_BLOCKERS:" ⧺ join "|" blockers

abbrev pub outcome : GateResult → String
outcome gate = if gate.passed then "passed" else "failed"

-- `mark` is `markValidator`, of the validator's name, its status and a detail.
module _ {W : Type 0} (mark : String → String → String → W → W) where
  unfoldable pub run_gate_task : GateTask W → W → GateResult × W
  run_gate_task task w =
      let (gate, after) = task.run (mark task.name "started" "" w) in
      (gate, mark gate.name (outcome gate) (join ", " gate.flags) after)

  unfoldable pub skipped_gate : String → List String → W → GateResult × W
  skipped_gate name blockers w = (
    record { name = name; passed = false; flags = skipped_flag blockers ∷ [] },
    mark name "skipped" (skipped_flag blockers) w,
  )

  unfoldable pub run_tasks : List (GateTask W) → W → List GateResult × W
  run_tasks [] w = ([], w)
  run_tasks (task ∷ tasks) w =
      let (gate, after) = run_gate_task task w in
      let (gates, last) = run_tasks tasks after in (gate ∷ gates, last)

  unfoldable pub skip_tasks : List (GateTask W) → List String → W → List GateResult × W
  skip_tasks [] blockers w = ([], w)
  skip_tasks (task ∷ tasks) blockers w =
      let (gate, after) = skipped_gate task.name blockers w in
      let (gates, last) = skip_tasks tasks blockers after in (gate ∷ gates, last)

  unfoldable pub validate_gates :
      Option ValidationMode → List (GateTask W) → List (GateTask W) → W → List GateResult × W
  validate_gates mode cheap expensive w =
      let (gates, after) = run_tasks cheap w in
      let blockers = blocking_gate_names gates in
      let (skipped, marked) = skip_tasks expensive blockers after in
      let (more, last) = run_tasks expensive after in
      if not (is_safe (mode_or_balanced mode)) && not (is_empty blockers)
      then (gates ++ skipped, marked)
      else (gates ++ more, last)
