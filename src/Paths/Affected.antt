-- ===== src/Paths/Affected.antt =====
-- tools/klevar-yolo-runtime/src/affected-tests.ts: the tests that the files of a result suggest.
use trade_compliance_classif.Prelude.{
  Bool, true, false, not, ◌&&◌, ◌||◌, List, [], ◌∷◌, ◌++◌, String, if◌then◌else◌, is_empty,
}
use trade_compliance_classif.Prelude.Text.{◌⧺◌}
use trade_compliance_classif.Prelude.Sets.{when, dedup}
use trade_compliance_classif.Prelude.Sorting.{sort_texts, text_leb}
use trade_compliance_classif.Prelude.Regex.{
  Re, eps, seq, or, anything, optional, lit, lit_i, lits, lits_i, ends, matches, search_in,
}
use trade_compliance_classif.Types.{ProgressItem, Batch, BatchResult}
use trade_compliance_classif.Paths
use trade_compliance_classif.Paths.{
  RuntimePathOwner, RuntimePathSyncDisposition, RuntimePathClassification, classify_runtime_path,
  normalize_runtime_path,
}

pub data Confidence : Type 0 where
  unfounded low medium : Confidence

pub record RejectedPath : Type 0 where
  pub path : String
  pub reason : String

pub record AffectedTestPlan : Type 0 where
  pub confidence : Confidence
  pub files : List String
  pub candidate_commands : List String
  pub rejected : List RejectedPath

-- `\.[cm]?[jt]sx?` and `\.(?:test|spec)\.[cm]?[jt]sx?`, in small letters or in either case.
abbrev script : (String → Re) → Re
script word = seq (lit ".") (
    seq (optional (or (word "c") (word "m")))
      (seq (or (word "j") (word "t")) (seq (word "s") (optional (word "x")))))

abbrev test_directory : Re
test_directory = seq (or eps (seq anything (lit "/"))) (
    seq (lits_i ("__tests__" ∷ "test" ∷ "tests" ∷ "spec" ∷ "it" ∷ []))
      (or eps (seq (lit "/") anything)))

abbrev test_name : Re
test_name = seq anything (
    or (seq (lits_i (".test" ∷ ".spec" ∷ [])) (script lit_i))
      (seq (lits_i ("_test" ∷ "_spec" ∷ [])) (lits_i (".py" ∷ ".rb" ∷ []))))

unfoldable pub is_test_file : String → Bool
is_test_file file = matches (or test_directory test_name) file

unfoldable pub is_script : String → Bool
is_script file = ends (script lit) file

unfoldable pub has_extension : List String → String → Bool
has_extension extensions file = ends (lits extensions) file

unfoldable pub own_command : String → String
own_command file =
    if is_script file
    then "npm test -- " ⧺ file
    else if has_extension (".py" ∷ []) file
    then "pytest " ⧺ file
    else if has_extension (".rb" ∷ []) file
    then "bundle exec ruby " ⧺ file
    else "test " ⧺ file

unfoldable pub candidate_commands_for_file : String → List String
candidate_commands_for_file file =
    let test_file = is_test_file file in
    when test_file (own_command file)
    ++ (when (has_extension (".ts" ∷ ".tsx" ∷ ".js" ∷ ".jsx" ∷ []) file && not test_file) "npm test"
        ++ (when (has_extension (".py" ∷ []) file && not test_file) "pytest"
            ++ (when (has_extension (".rs" ∷ []) file) "cargo test"
                ++ (when (has_extension (".go" ∷ []) file) "go test ./..."
                    ++ when (has_extension (".scala" ∷ ".java" ∷ ".kt" ∷ []) file)
                        "./gradlew test"))))

abbrev pub is_foreign : RuntimePathOwner → Bool
is_foreign RuntimePathOwner.runtime = true
is_foreign RuntimePathOwner.generated = true
is_foreign RuntimePathOwner.environment = true
is_foreign _ = false

abbrev is_rejecting : RuntimePathSyncDisposition → Bool
is_rejecting RuntimePathSyncDisposition.reject = true
is_rejecting _ = false

unfoldable pub is_unaffecting : RuntimePathClassification → Bool
is_unaffecting c = not c.safe || is_rejecting c.sync || is_foreign c.owner

unfoldable pub taken_files : List String → List String
taken_files [] = []
taken_files (raw ∷ files) =
    let rest = taken_files files in
    let c = classify_runtime_path raw in if is_unaffecting c then rest else c.path ∷ rest

unfoldable pub rejected_files : List String → List RejectedPath
rejected_files [] = []
rejected_files (raw ∷ files) =
    let rest = rejected_files files in
    let c = classify_runtime_path raw in
    if is_unaffecting c
    then record { path = normalize_runtime_path raw; reason = c.reason } ∷ rest
    else rest

unfoldable pub listed_files : List ProgressItem → List String
listed_files [] = []
listed_files (item ∷ items) = item.affected_files ++ listed_files items

unfoldable pub all_commands : List String → List String
all_commands [] = []
all_commands (file ∷ files) = candidate_commands_for_file file ++ all_commands files

unfoldable pub confidence_in : List String → List String → Confidence
confidence_in commands files =
    if not (is_empty commands)
    then Confidence.medium
    else if not (is_empty files)
    then Confidence.low
    else Confidence.unfounded

unfoldable pub plan_affected_tests : Batch → BatchResult → AffectedTestPlan
plan_affected_tests batch result =
    let raw_files = listed_files batch.items ++ result.files_changed in
    let files = sort_texts (dedup (taken_files raw_files)) in
    let commands = dedup (all_commands files) in
    record {
      confidence = confidence_in commands files;
      files = files;
      candidate_commands = commands;
      rejected = rejected_files raw_files;
    }

-- All that a run computes with.
unfoldable pub runs : Unit {0}
unfolding is_test_file is_script has_extension own_command candidate_commands_for_file
    is_unaffecting taken_files rejected_files listed_files all_commands confidence_in
    plan_affected_tests dedup sort_texts text_leb Paths.runs search_in matches ends
runs = tt
