-- ===== src/Progress/Tests.antt =====
-- Runs of progress-parser.ts.
use trade_compliance_classif.Prelude.{◌≡◌, refl, true, false, List, [], ◌∷◌, String}
use trade_compliance_classif.Types.{ProgressItem}
use trade_compliance_classif.Progress.{
  is_phase_closeout, is_matrix_coverage_audit, audit_isolated, runs,
}
use trade_compliance_classif.Progress.Batches.{IsBatch, audit_isolated-IsBatch}

abbrev item_of : String → String → List String → ProgressItem
item_of tag title details = record {
  raw = "- [ ] ";
  tag = tag;
  title = title;
  phase = "Phase 1";
  checked = false;
  details = details;
  affected_files = [];
}

abbrev three_items : List ProgressItem
three_items =
    item_of "[API]" "Search" []
    ∷ item_of "[UI]" "Page" []
    ∷ item_of "[FIX]" "Phase 2 Close-Out" []
    ∷ []

progress_run :
    (is_phase_closeout (item_of "[FIX]" "Phase 2 Close-Out" []) ≡ true)
    × (is_matrix_coverage_audit (item_of "[API]" "A" ("- **Audit Type:** Matrix-Coverage" ∷ []))
        ≡ true)
    × (audit_isolated three_items 5 ≡ item_of "[API]" "Search" [] ∷ item_of "[UI]" "Page" [] ∷ [])
    × (audit_isolated three_items 1 ≡ item_of "[API]" "Search" [] ∷ [])
unfolding runs
progress_run = (refl, refl, refl, refl)

audit_isolated-IsBatch_example : IsBatch 1 three_items (audit_isolated three_items 1)
audit_isolated-IsBatch_example = audit_isolated-IsBatch three_items 1
