-- ===== src/Paths/Delivered.antt =====
-- Which files tools/klevar-yolo-runtime/src/affected-tests.ts plans tests for.
use trade_compliance_classif.Prelude.{
  ◌≡◌, refl, ◌∙◌, Bool, not, ◌&&◌, List, [], ◌∷◌, ◌++◌, String, any, map, filter, arith,
}
use trade_compliance_classif.Prelude.Text.{text_eq}
use trade_compliance_classif.Prelude.Sets.{has, dedup, has-append, has-dedup, dedup-IsDistinct}
use trade_compliance_classif.Prelude.Sorting.{
  sort_texts, Ascending, has-sort_texts, sort_texts-Ascending,
}
use trade_compliance_classif.Types.{Batch, BatchResult}
use trade_compliance_classif.Paths.{normalize_runtime_path, classify_runtime_path, is_excluded}
use trade_compliance_classif.Paths.Ownership.{is_delivered, classify_runtime_path-IsConsistent}
use trade_compliance_classif.Paths.Affected.{
  RejectedPath, AffectedTestPlan, is_unaffecting, taken_files, rejected_files, listed_files,
  all_commands, plan_affected_tests, candidate_commands_for_file,
}

abbrev pub leaves : String → Bool
leaves raw = is_delivered raw (normalize_runtime_path raw)

-- The paths of what is rejected.
abbrev pub rejected_paths : List RejectedPath → List String
rejected_paths rejected = map (λ (r : RejectedPath). r.path) rejected

-- A plan for the files that leave a worktree: they are sorted and stand once, every other file is
-- rejected, in order, and a command is a candidate when it is one of a file's.
pub record IsForDelivered (raw_files : List String) (plan : AffectedTestPlan) : Type 0 where
  pub taken :
      (p : String)
      → has plan.files p
        ≡ any (λ raw. leaves raw && text_eq (normalize_runtime_path raw) p) raw_files
  pub ordered : Ascending plan.files
  pub others :
      rejected_paths plan.rejected
      ≡ map normalize_runtime_path (filter (λ raw. not (leaves raw)) raw_files)
  pub commands :
      (c : String)
      → has plan.candidate_commands c
        ≡ any (λ file. has (candidate_commands_for_file file) c) plan.files

unaffecting_excluded :
    (raw : String)
    → is_unaffecting (classify_runtime_path raw) ≡ is_excluded (classify_runtime_path raw).sync
unfolding is_unaffecting classify_runtime_path
unaffecting_excluded raw = ground arith

unaffecting_leaves : (raw : String) → is_unaffecting (classify_runtime_path raw) ≡ not (leaves raw)
unaffecting_leaves raw =
    let c = classify_runtime_path-IsConsistent raw in
    ground (arith, unaffecting_excluded raw, c.synced, c.delivered)

has-taken_files :
    (raw_files : List String) (p : String)
    → has (taken_files raw_files) p
      ≡ any (λ raw. leaves raw && text_eq (normalize_runtime_path raw) p) raw_files
unfolding taken_files
has-taken_files [] p = refl
has-taken_files (raw ∷ files) p =
    let path = (classify_runtime_path-IsConsistent raw).path in
    rw path (ground (arith, unaffecting_leaves raw, has-taken_files files p))

rejected_paths-rejected_files :
    (raw_files : List String)
    → rejected_paths (rejected_files raw_files)
      ≡ map normalize_runtime_path (filter (λ raw. not (leaves raw)) raw_files)
unfolding rejected_files
rejected_paths-rejected_files [] = refl
rejected_paths-rejected_files (raw ∷ files) =
    ground (arith, unaffecting_leaves raw, rejected_paths-rejected_files files)

has-all_commands :
    (files : List String) (c : String)
    → has (all_commands files) c ≡ any (λ file. has (candidate_commands_for_file file) c) files
unfolding all_commands
has-all_commands [] c = refl
has-all_commands (file ∷ files) c =
    has-append (candidate_commands_for_file file) (all_commands files) c
    ∙ ground (arith, has-all_commands files c)

-- The plan takes the files of the batch's items and of its result whose path is delivered, sorted and
-- once each; it rejects the others in the order in which they are listed; and its commands are those of
-- the files it takes.
pub plan_affected_tests-IsForDelivered :
    (batch : Batch) (result : BatchResult)
    → IsForDelivered
        (listed_files batch.items ++ result.files_changed)
        (plan_affected_tests batch result)
unfolding plan_affected_tests
plan_affected_tests-IsForDelivered batch result =
    let raw_files = listed_files batch.items ++ result.files_changed in
    let taken = taken_files raw_files in
    record {
      taken =
          λ p. has-sort_texts (dedup taken) p ∙ (has-dedup taken p ∙ has-taken_files raw_files p);
      ordered = sort_texts-Ascending (dedup taken) (dedup-IsDistinct taken);
      others = rejected_paths-rejected_files raw_files;
      commands = λ c.
          has-dedup (all_commands (sort_texts (dedup taken))) c
          ∙ has-all_commands (sort_texts (dedup taken)) c;
    }
