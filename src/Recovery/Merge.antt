-- ===== src/Recovery/Merge.antt =====
-- tools/klevar-yolo-runtime/src/recovery-merge.ts: the result of a batch after a bugfix, out of the result
-- before and the bugfix's own: which files and artifacts it has.
use Prim.Native.Char.{code}
use trade_compliance_classif.Prelude.{
  ℕ, Bool, true, false, not, ◌&&◌, ◌||◌, Option, none, some, List, [], ◌∷◌, ◌++◌, map, String, ◌==◌,
  if◌then◌else◌, any, filter,
}
use trade_compliance_classif.Prelude.Text.{
  ◌⧺◌, text_eq, is_blank, is_digit, is_upper, is_lower, starts_with, strip_prefix, replace_char,
  pad3,
}
use trade_compliance_classif.Prelude.Sets.{has, set_add, dedup}
use trade_compliance_classif.Prelude.Regex.{
  Re, eps, one, seq, or, plus, anything, lit, lit_i, lits_i, matches, begins, ends, search_in,
}
use trade_compliance_classif.Types.{AgentRole, Artifact, BatchResult}
use trade_compliance_classif.Paths
use trade_compliance_classif.Paths.{is_runtime_owned_path}

abbrev is_line_end : ℕ → Bool
is_line_end c = c == 10 || c == 13 || c == 8232 || c == 8233

abbrev first_of : Option String → Option String → Option String
first_of none other = other
first_of (some s) other = some s

-- What `/^.*(\.yolo\/)/` leaves from its group on: the last `.yolo/` of the first line.
from_last_yolo : String → Option String
from_last_yolo String.[] = none
from_last_yolo (String.◌∷◌ c s) =
    let later = from_last_yolo s in
    let here : Option String =
      if starts_with (String.◌∷◌ c s) ".yolo/" then some (String.◌∷◌ c s) else none in
    if is_line_end (code c) then here else first_of later here

abbrev or_else : Option String → String → String
or_else none s = s
or_else (some t) s = t

unfoldable pub normalize_rel : String → String
unfolding from_last_yolo
normalize_rel file =
    let slashed = replace_char b'\\' b'/' file in
    let normalized = or_else (strip_prefix "./" slashed) slashed in
    if starts_with normalized ".yolo/"
    then normalized
    else or_else (from_last_yolo normalized) normalized

-- The agent's suffix in the name of the manifest.
abbrev source_suffix : AgentRole → String
source_suffix AgentRole.audit = "audit"
source_suffix AgentRole.validate = "validate"
source_suffix _ = "implement"

unfoldable pub corrected_source_manifest_path : ℕ → BatchResult → BatchResult → Option String
corrected_source_manifest_path number source bugfix =
    let expected =
      ".yolo/batch-results/batch-" ⧺ pad3 number ⧺ "-" ⧺ source_suffix source.agent ⧺ ".json" in
    if has (map normalize_rel bugfix.files_changed) expected then some expected else none

abbrev is_some_path : Option String → Bool
is_some_path none = false
is_some_path (some path) = true

unfoldable pub touches_any_source_manifest : BatchResult → BatchResult → Bool
touches_any_source_manifest source bugfix =
    is_some_path (corrected_source_manifest_path source.batch source bugfix)

unfoldable pub is_runtime_artifact_path : String → Bool
is_runtime_artifact_path file =
    begins
      (seq (lit_i ".yolo/")
        (seq (lits_i ("batch-results" ∷ "gates" ∷ "runtime" ∷ "logs" ∷ "events" ∷ [])) (lit "/")))
      file
    || is_runtime_owned_path file

abbrev not_slash : Re
not_slash = one (λ c. not (c == b'/'))

unfoldable pub is_test_like_path : String → Bool
is_test_like_path file =
    matches
      (seq (or eps (seq anything (lit "/"))) (
        seq (lits_i ("test" ∷ "tests" ∷ "spec" ∷ "__tests__" ∷ "cypress" ∷ "playwright" ∷ []))
          (or eps (seq (lit "/") anything))))
      file
    || matches
        (seq (or eps (seq anything (lit "/"))) (
          seq (plus not_slash)
            (seq (lit ".") (seq (lits_i ("test" ∷ "spec" ∷ [])) (seq (lit ".") (plus not_slash))))))
        file

unfoldable pub bugfix_can_replace_red_evidence : BatchResult → Bool
bugfix_can_replace_red_evidence bugfix =
    any
      (λ file.
        is_test_like_path (normalize_rel file)
        && not (is_runtime_artifact_path (normalize_rel file)))
      bugfix.files_changed

unfoldable pub bugfix_has_semantic_change : BatchResult → Bool
bugfix_has_semantic_change bugfix =
    any (λ file. not (is_runtime_artifact_path (normalize_rel file))) bugfix.files_changed

-- `[^\s,]+` at the start of a text, with what follows it.
token : String → String × String
token String.[] = (String.[], String.[])
token (String.◌∷◌ c s) =
    let (first, rest) = token s in
    if is_blank (code c) || code c == b','
    then (String.[], String.◌∷◌ c s)
    else (String.◌∷◌ c first, rest)

in_word : ℕ → Bool
in_word c = is_upper c || is_lower c || is_digit c || c == b'_'

abbrev boundary : String → Bool
boundary String.[] = true
boundary (String.◌∷◌ c s) = not (in_word (code c))

abbrev fixed_after : Option String → Bool
fixed_after none = false
fixed_after (some rest) = boundary rest

-- The path of `X:path fixed` for the mark `X:` in front of a text.
abbrev fixed_path : Option String → Option String
fixed_path none = none
fixed_path (some rest) =
    let (path, after) = token rest in
    if not (text_eq path "") && fixed_after (strip_prefix " fixed" after) then some path else none

-- The first match in a text of the expression for a path that a flag calls fixed.
fixed_mention : String → Option String
fixed_mention String.[] = none
fixed_mention (String.◌∷◌ c s) =
    let later = fixed_mention s in
    first_of (fixed_path (strip_prefix "CHANGED_FILE_MISSING:" (String.◌∷◌ c s)))
      (first_of (fixed_path (strip_prefix "ARTIFACT_MISSING:" (String.◌∷◌ c s))) later)

abbrev missing_path : Option String → Option String
missing_path none = none
missing_path (some rest) =
    let (path, after) = token rest in if text_eq path "" then none else some path

abbrev add_path : Option String → List String → List String
add_path none paths = paths
add_path (some path) paths = set_add paths (replace_char b'\\' b'/' path)

add_fixed : List String → List String → List String
add_fixed paths [] = paths
add_fixed paths (flag ∷ flags) = add_fixed (add_path (fixed_mention flag) paths) flags

add_missing : List String → List String → List String
add_missing paths [] = paths
add_missing paths (flag ∷ flags) =
    add_missing (add_path (missing_path (strip_prefix "CHANGED_FILE_MISSING:" flag)) paths) flags

unfoldable pub stale_paths_fixed_by_bugfix : BatchResult → List String
unfolding add_fixed add_missing fixed_mention token in_word
stale_paths_fixed_by_bugfix bugfix = add_missing (add_fixed [] bugfix.flags) bugfix.flags

unfoldable pub merge_files_changed : BatchResult → BatchResult → Bool → List String → List String
merge_files_changed implementation bugfix corrected removed =
    let source =
      if corrected
      then bugfix.files_changed
      else implementation.files_changed ++ bugfix.files_changed in
    filter
      (λ file.
        not (has removed (normalize_rel file))
        || has (map normalize_rel bugfix.files_changed) (normalize_rel file))
      (filter (λ file. not (is_runtime_owned_path (normalize_rel file))) (dedup source))

unfoldable pub merge_artifacts : BatchResult → BatchResult → List String → List Artifact
merge_artifacts implementation bugfix removed =
    filter (λ (a : Artifact). not (has removed (replace_char b'\\' b'/' a.path)))
      (implementation.artifacts ++ bugfix.artifacts)

-- All that a run computes with.
unfoldable pub runs : Unit {0}
unfolding normalize_rel corrected_source_manifest_path touches_any_source_manifest
    is_runtime_artifact_path is_test_like_path bugfix_can_replace_red_evidence
    bugfix_has_semantic_change stale_paths_fixed_by_bugfix merge_files_changed merge_artifacts
    Paths.runs begins ends search_in dedup from_last_yolo add_fixed add_missing fixed_mention token
    in_word
runs = tt
