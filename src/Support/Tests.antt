-- ===== src/Support/Tests.antt =====
-- Runs of support-scheduler.ts, and its theorems at concrete phases.
use trade_compliance_classif.Prelude.{
  ◌≡◌, refl, arith, Bool, true, false, not, ◌&&◌, ◌||◌, some, none, List, [], ◌∷◌, String, map,
}
use trade_compliance_classif.Prelude.Sets.{has}
use trade_compliance_classif.Types.{
  ProgressItem, Batch, BatchType, modularity, validate_prd, security_audit,
}
use trade_compliance_classif.Support.{
  support_gate_name, make_support_plan, read_due, is_completed, is_support, next_support_plan,
  mark_phase_support_due, runs,
}
use trade_compliance_classif.Support.Due.{mark_phase_support_due-has}
use trade_compliance_classif.Support.Schedule.{
  IsNext, next_support_plan-IsNext, missing, missing_due, outstanding, support_rounds,
  support_rounds-end,
}

abbrev phase_item : String → Bool → ProgressItem
phase_item phase checked = record {
  raw = "";
  tag = "[API]";
  title = "Work";
  phase = phase;
  checked = checked;
  details = [];
  affected_files = [];
}

abbrev first_batch : Batch
first_batch = record {
  number = 1;
  items = phase_item "Phase 1" true ∷ [];
  type = BatchType.implement;
  support_kind = none;
  support_scope = none;
}

abbrev phase_items : List ProgressItem
phase_items = phase_item "Phase 1" true ∷ phase_item "Phase 2" false ∷ []

abbrev one_gate : List String
one_gate = "support-modularity-phase-1.md" ∷ []

support_run :
    (support_gate_name security_audit " Phase 1: Core! " ≡ "support-security-audit-phase-1-core.md")
    × (support_gate_name modularity "—" ≡ "support-modularity-project.md")
    × (mark_phase_support_due first_batch phase_items none ≡ some ("Phase 1" ∷ []))
    × (next_support_plan one_gate (some ("Phase 1" ∷ [])) phase_items
        ≡ some (make_support_plan validate_prd "Phase 1" (some "Phase 1")))
    × ((make_support_plan validate_prd "Phase 1" (some "Phase 1")).item.title
        ≡ "Phase 1 support — run PRD validation sweep — PRD N/A (runtime support)")
    × (next_support_plan one_gate none phase_items ≡ none)
unfolding runs
support_run = (refl, refl, refl, refl, refl, refl)

mark_phase_support_due-has_example :
    has
      (read_due (mark_phase_support_due first_batch phase_items (some ("Phase 0" ∷ []))))
      "Phase 1"
    ≡ (true
        && (has (read_due (some ("Phase 0" ∷ []))) "Phase 1"
            || (not (is_support none)
                && (has (map (λ (item : ProgressItem). item.phase) first_batch.items) "Phase 1"
                    && (not false && is_completed phase_items "Phase 1")))))
unfolding runs
mark_phase_support_due-has_example =
    mark_phase_support_due-has first_batch phase_items (some ("Phase 0" ∷ [])) "Phase 1"

next_support_plan-IsNext_example :
    IsNext one_gate
      (read_due (some ("Phase 1" ∷ [])))
      phase_items
      (next_support_plan one_gate (some ("Phase 1" ∷ [])) phase_items)
next_support_plan-IsNext_example =
    next_support_plan-IsNext one_gate (some ("Phase 1" ∷ [])) phase_items

support_rounds-end_example :
    next_support_plan
      (support_rounds 5 one_gate (some ("Phase 1" ∷ [])) phase_items)
      (some ("Phase 1" ∷ []))
      phase_items
    ≡ none
unfolding runs missing missing_due outstanding
support_rounds-end_example =
    support_rounds-end 5 one_gate (some ("Phase 1" ∷ [])) phase_items (omega arith)
