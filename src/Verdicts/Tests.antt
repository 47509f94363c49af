-- ===== src/Verdicts/Tests.antt =====
-- Runs of gate-findings.ts and adjudication.ts.
use trade_compliance_classif.Prelude.{
  ◌≡◌, refl, true, false, not, ◌&&◌, ◌||◌, some, List, [], ◌∷◌, any,
}
use trade_compliance_classif.Types.{GateResult, success}
use trade_compliance_classif.Verdicts.{
  GateFinding, hard_fail, ambiguous, pass, ask_human, adjudicate, is_hard, is_ambiguous,
  classify_flag, details_for, classify_gate_findings, adjudication_allowed, AdjudicationResult,
  accept_with_warnings, adjudication_accepted, adjudication_needs_bugfix, adjudication_needs_human,
  runs,
}
use trade_compliance_classif.Verdicts.Sorting.{
  findings_of, IsSorted, classify_gate_findings-IsSorted, adjudication_allowed-accepted,
}

abbrev two_gates : List GateResult
two_gates =
    record {
      name = "e2e";
      passed = false;
      flags = "COMMAND_RERUN_FAILED:e2e:skipped" ∷ "WIRING_FIXED" ∷ [];
    }
    ∷ record { name = "schema"; passed = false; flags = "INVALID_FLAGS_SHAPE" ∷ [] }
    ∷ []

abbrev accepted_result : AdjudicationResult
accepted_result = record {
  schema_version = 1;
  batch = 2;
  status = success;
  decision = accept_with_warnings;
  accepted_ambiguities = [];
  requires_bugfix = false;
  requires_human = true;
  rationale = "r";
  flags = [];
}

verdicts_run :
    ((classify_flag "e2e" "COMMAND_RERUN_FAILED:e2e:skipped").severity ≡ ambiguous)
    × ((classify_flag "e2e" "COMMAND_RERUN_FAILED:e2e:skipped").recommended_action ≡ adjudicate)
    × ((classify_flag "e2e" "COMMAND_RERUN_FAILED:green:npm test:1").details.command
        ≡ some "npm test")
    × ((classify_flag "paths" "CHANGED_FILE_MISSING:.env").recommended_action ≡ ask_human)
    × ((classify_flag "paths" "CHANGED_FILE_MISSING:src/a.rs").severity ≡ hard_fail)
    × ((classify_flag "wiring" "WIRING_FIXED").severity ≡ pass)
    × ((details_for "ARTIFACT_MISSING:a:b").path ≡ some "a:b")
    × (adjudication_allowed two_gates ≡ true)
    × (adjudication_accepted accepted_result ≡ false)
    × (adjudication_needs_human accepted_result ≡ true)
unfolding runs
verdicts_run = (refl, refl, refl, refl, refl, refl, refl, refl, refl, refl)

classify_gate_findings-IsSorted_example : IsSorted two_gates (classify_gate_findings two_gates)
classify_gate_findings-IsSorted_example = classify_gate_findings-IsSorted two_gates

adjudication_allowed-accepted_example :
    (adjudication_allowed two_gates ≡ (
      any (λ (f : GateFinding). is_ambiguous f.severity) (findings_of two_gates)
      && not (any (λ (f : GateFinding). is_hard f.severity) (findings_of two_gates))))
    × (adjudication_accepted accepted_result
        ≡ not
            (adjudication_needs_bugfix accepted_result || adjudication_needs_human accepted_result))
adjudication_allowed-accepted_example = adjudication_allowed-accepted two_gates accepted_result
