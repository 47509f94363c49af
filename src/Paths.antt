-- ===== src/Paths.antt =====
-- tools/klevar-yolo-runtime/src/path-policy.ts: whose a path is, and whether it leaves a worktree. A
-- path is absolute as the platform's `path` library says: by a slash, and on Windows by a backslash or by
-- a drive as well.
pub mod Ownership
pub mod Affected
pub mod Delivered
mod Tests
use Prim.Native.Char.{code}
use Prim.Native.String
use trade_compliance_classif.Prelude.{
  ℕ, Bool, true, false, not, ◌&&◌, ◌||◌, none, some, List, [], ◌∷◌, String, ◌==◌, if◌then◌else◌,
  any,
}
use trade_compliance_classif.Prelude.Text.{
  ◌⧺◌, text_eq, trim, to_lower, starts_with, ends_with, includes, strip_prefix, replace_char,
  split_on, is_upper, is_lower, text_runs,
}
use trade_compliance_classif.Prelude.Sets.{has}
use trade_compliance_classif.Prelude.Regex.{
  Re, eps, one, seq, or, star, plus, dot, anything, lit, lit_i, lits_i, matches, begins,
}

abbrev is_quote : ℕ → Bool
is_quote c = c == b'\'' || c == b'"'

-- `/^['"]/`
abbrev without_first_quote : String → String
without_first_quote String.[] = String.[]
without_first_quote (String.◌∷◌ c s) = if is_quote (code c) then s else String.◌∷◌ c s

-- `/['"]$/`
without_last_quote : String → String
without_last_quote String.[] = String.[]
without_last_quote (String.◌∷◌ c s) =
    let rest = without_last_quote s in
    if is_quote (code c) && text_eq s "" then String.[] else String.◌∷◌ c rest

unfoldable pub unquoted : String → String
unfolding without_last_quote
unquoted value = without_last_quote (without_first_quote (trim value))

unfoldable pub slashes : String → String
slashes s = replace_char b'\\' b'/' s

abbrev without_prefix : String → String → String
without_prefix p s = elim (strip_prefix p s) [ none ↦ s | some rest ↦ rest ]

unfoldable pub normalize_runtime_path : String → String
normalize_runtime_path value = without_prefix "./" (slashes (unquoted value))

-- `/\/+$/`
unfoldable pub without_last_slashes : String → String
without_last_slashes String.[] = String.[]
without_last_slashes (String.◌∷◌ c s) =
    let rest = without_last_slashes s in
    if code c == b'/' && text_eq rest "" then String.[] else String.◌∷◌ c rest

-- `value.replace(/\/+$/, "/")`
unfoldable pub normalize_comparable_path : String → String
normalize_comparable_path value =
    let file = normalize_runtime_path value in
    if ends_with file "/" then without_last_slashes file ⧺ "/" else file

abbrev is_letter : ℕ → Bool
is_letter c = is_upper c || is_lower c

-- `/^[A-Za-z]:[\\/]/`
unfoldable pub has_drive : String → Bool
has_drive s = begins (seq (one is_letter) (seq (lit ":") (one (λ c. c == b'\\' || c == b'/')))) s

unfoldable pub is_absolute_posix : String → Bool
is_absolute_posix s = starts_with s "/"

unfoldable pub is_absolute_windows : String → Bool
is_absolute_windows s = starts_with s "/" || starts_with s "\\" || has_drive s

-- The platform's own test is one of the two.
unfoldable pub is_absolute_any : String → Bool
is_absolute_any s =
    is_absolute_posix (slashes s) || is_absolute_windows s || has_drive s || starts_with s "\\\\"

unfoldable pub is_safe_relative_path : String → String → Bool
is_safe_relative_path raw normalized =
    if text_eq raw "" || includes raw "\0"
    then false
    else if is_absolute_any (unquoted raw)
    then false
    else not (has (split_on b'/' normalized) "..")

pub data RuntimePathOwner : Type 0 where
  product runtime runtime_artifact tooling generated environment : RuntimePathOwner

pub data RuntimePathSyncDisposition : Type 0 where
  copy ignore reject artifact_sync : RuntimePathSyncDisposition

pub record RuntimePathClassification : Type 0 where
  pub path : String
  pub safe : Bool
  pub owner : RuntimePathOwner
  pub sync : RuntimePathSyncDisposition
  pub deliverable : Bool
  pub local_only_allowed : Bool
  pub reason : String

-- `(?:\/|$)` and what may follow it.
abbrev path_end : Re
path_end = or eps (seq (lit "/") anything)

abbrev lower_path : String → String
lower_path value = to_lower (normalize_runtime_path value)

unfoldable pub is_runtime_owned_path : String → Bool
is_runtime_owned_path value =
    text_eq (lower_path value) ".yolo/runtime-state.json"
    || text_eq (lower_path value) ".yolo/runtime-lock.json"
    || text_eq (lower_path value) ".yolo/runtime.config.json"
    || matches
        (seq (lit_i ".yolo/") (
          seq
            (lits_i (
              "runtime" ∷ "events" ∷ "logs" ∷ "worktrees" ∷ "pi-sessions" ∷ "subagent-prompts"
              ∷ "subagent-runs" ∷ "incidents" ∷ []))
            path_end))
        (lower_path value)

unfoldable pub is_template_managed_protected_path : String → Bool
is_template_managed_protected_path value =
    text_eq (lower_path value) "agents.md"
    || text_eq (lower_path value) "claude.md"
    || text_eq (lower_path value) ".cursorrules"
    || matches
        (seq (lit_i ".agent/")
          (seq (lits_i ("rules" ∷ "workflows" ∷ "guides" ∷ "agents" ∷ [])) path_end))
        (lower_path value)

unfoldable pub is_vendored_klevar_tooling_path : String → Bool
is_vendored_klevar_tooling_path value =
    matches
      (seq (lit_i "tools/")
        (seq (lits_i ("klevar-yolo-runtime" ∷ "klevar-pi-package" ∷ [])) path_end))
      (lower_path value)

unfoldable pub is_runtime_artifact_deliverable_path : String → Bool
is_runtime_artifact_deliverable_path value =
    matches
      (seq (lit_i ".yolo/") (
        seq (lits_i ("batch-results" ∷ "gates" ∷ [])) (
          seq (lit "/") (
            seq (plus (one (λ c. not (c == b'/'))))
              (seq (lit ".") (lits_i ("json" ∷ "md" ∷ "jsonl" ∷ "txt" ∷ [])))))))
      (lower_path value)

unfoldable pub is_runtime_operational_path : String → Bool
is_runtime_operational_path value =
    let file = normalize_runtime_path value in
    is_runtime_owned_path file
    || is_vendored_klevar_tooling_path file
    || text_eq file ".yolo/command-cache.json"

-- `(^|\/)(?:…)(?:\/|$)`
has_folder : List String → String → Bool
has_folder names file =
    matches (seq (or eps (seq anything (lit "/"))) (seq (lits_i names) path_end)) file

unfoldable pub is_generated_dependency_path : String → Bool
unfolding has_folder
is_generated_dependency_path value =
    let file = without_last_slashes (normalize_comparable_path value) in
    has_folder ("node_modules" ∷ ".pnpm" ∷ "vendor/bundle" ∷ []) file
    || has_folder ("dist" ∷ "build" ∷ "coverage" ∷ ".next" ∷ []) file

abbrev pub is_git : String → Bool
is_git file = text_eq file ".git" || starts_with file ".git/"

abbrev pub is_env : String → Bool
is_env file = text_eq file ".env" || starts_with file ".env."

abbrev classified :
    String
    → Bool
    → RuntimePathOwner
    → RuntimePathSyncDisposition
    → Bool
    → Bool
    → String
    → RuntimePathClassification
classified path safe owner sync deliverable local_only reason = record {
  path = path;
  safe = safe;
  owner = owner;
  sync = sync;
  deliverable = deliverable;
  local_only_allowed = local_only;
  reason = reason;
}

unfoldable pub classify_runtime_path : String → RuntimePathClassification
classify_runtime_path value =
    let file = normalize_runtime_path value in
    if not (is_safe_relative_path value file)
    then classified file false product reject false false "unsafe-relative-path"
    else if is_git file
    then classified file true runtime reject false false "git-control-plane"
    else if is_env file
    then classified file true environment ignore false true "environment-local-only"
    else if is_runtime_owned_path file
    then classified file true runtime ignore false false "runtime-control-plane"
    else if is_template_managed_protected_path file
    then classified file true tooling reject false false "template-managed-protected"
    else if is_runtime_artifact_deliverable_path file
    then classified file true runtime_artifact artifact_sync true false
        "runtime-artifact-deliverable"
    else if is_vendored_klevar_tooling_path file
    then classified file true tooling copy true false "vendored-klevar-tooling"
    else if is_generated_dependency_path file
    then classified file true generated ignore false true "generated-local-output"
    else classified file true product copy true false "product-deliverable"

abbrev pub is_excluded : RuntimePathSyncDisposition → Bool
is_excluded ignore = true
is_excluded reject = true
is_excluded _ = false

unfoldable pub is_sync_excluded_path : String → Bool
is_sync_excluded_path value = is_excluded (classify_runtime_path value).sync

unfoldable pub matches_directory_pattern : String → String → Bool
matches_directory_pattern file pattern =
    let directory = without_last_slashes pattern in
    if text_eq directory ""
    then false
    else if includes directory "/"
    then text_eq file directory || starts_with file (directory ⧺ "/")
    else text_eq file directory
      || starts_with file (directory ⧺ "/")
      || includes file ("/" ⧺ directory ⧺ "/")
      || ends_with file ("/" ⧺ directory)

-- The parts between the stars, with `.*` between them.
unfoldable pub glob : List String → Re
glob [] = eps
glob (part ∷ []) = lit part
glob (part ∷ next ∷ parts) = seq (lit part) (seq (star dot) (glob (next ∷ parts)))

unfoldable pub matches_policy_pattern : String → String → Bool
matches_policy_pattern file pattern =
    let normalized_file = to_lower (normalize_runtime_path file) in
    let normalized_pattern = to_lower (normalize_runtime_path pattern) in
    if ends_with normalized_pattern "/"
    then matches_directory_pattern normalized_file normalized_pattern
    else if includes normalized_pattern "*"
    then matches (glob (split_on b'*' normalized_pattern)) normalized_file
    else text_eq normalized_file normalized_pattern
      || starts_with normalized_file (normalized_pattern ⧺ "/")

unfoldable pub matches_any_policy_pattern : String → List String → Bool
matches_any_policy_pattern file patterns = any (matches_policy_pattern file) patterns

-- All that a run computes with.
unfoldable pub runs : Unit {0}
unfolding unquoted slashes normalize_runtime_path without_last_slashes normalize_comparable_path
    has_drive is_absolute_posix is_absolute_windows is_absolute_any is_safe_relative_path
    is_runtime_owned_path is_template_managed_protected_path is_vendored_klevar_tooling_path
    is_runtime_artifact_deliverable_path is_runtime_operational_path is_generated_dependency_path
    classify_runtime_path is_sync_excluded_path matches_directory_pattern glob
    matches_policy_pattern matches_any_policy_pattern begins matches text_runs
runs = tt
