-- ===== src/Progress.antt =====
-- tools/klevar-yolo-runtime/src/progress-parser.ts: which items a batch takes.
pub mod Batches
mod Tests
use trade_compliance_classif.Prelude.{ℕ, Bool, ◌||◌, List, [], ◌∷◌, if◌then◌else◌, take}
use trade_compliance_classif.Prelude.Text.{◌⧺◌, text_eq, is_blank, is_digit, join, text_runs}
use trade_compliance_classif.Prelude.Regex.{seq, star, plus, one, lit_i, matches, search_in}
use trade_compliance_classif.Types.{ProgressItem}

-- `/phase\s+\d+\s+close-out/i`
unfoldable pub is_phase_closeout : ProgressItem → Bool
is_phase_closeout item =
    search_in
      (seq (lit_i "phase") (
        seq (plus (one is_blank))
          (seq (plus (one is_digit)) (seq (plus (one is_blank)) (lit_i "close-out")))))
      (item.title ⧺ "\n" ⧺ item.raw)

-- `/audit\s+type:\*\*\s*matrix-coverage/i` in the details, or `/matrix-coverage/i` in the line.
unfoldable pub is_matrix_coverage_audit : ProgressItem → Bool
is_matrix_coverage_audit item =
    search_in
      (seq (lit_i "audit") (
        seq (plus (one is_blank))
          (seq (lit_i "type:**") (seq (star (one is_blank)) (lit_i "matrix-coverage")))))
      (join "\n" item.details)
    || search_in (lit_i "matrix-coverage") item.raw

unfoldable pub is_audit_item : ProgressItem → Bool
is_audit_item item =
    text_eq item.tag "[AUDIT]" || is_phase_closeout item || is_matrix_coverage_audit item

-- The items in front of the first audit item.
unfoldable pub before_audit : List ProgressItem → List ProgressItem
before_audit [] = []
before_audit (item ∷ items) =
    let rest = before_audit items in if is_audit_item item then [] else item ∷ rest

unfoldable pub audit_isolated : List ProgressItem → ℕ → List ProgressItem
audit_isolated [] limit = []
audit_isolated (first ∷ items) limit =
    if is_audit_item first then first ∷ [] else take limit (before_audit (first ∷ items))

-- All that a run computes with.
unfoldable pub runs : Unit {0}
unfolding is_phase_closeout is_matrix_coverage_audit is_audit_item before_audit audit_isolated
    search_in matches text_runs
runs = tt
