-- ===== src/Gating/Validators.antt =====
-- The validators of tools/klevar-yolo-runtime/src/validators/ that read the files of a result:
-- path-validator.ts, artifact-validator.ts, local-only-validator.ts and secret-validator.ts. What the file
-- system holds, what git ignores, the hash of a file and JSON.stringify are functions.
pub mod Clear
use Prim.Native.Char.{code}
use Prim.Native.String
use trade_compliance_classif.Prelude.{
  ℕ, Bool, true, false, not, ◌&&◌, ◌||◌, Option, none, some, List, [], ◌∷◌, ◌++◌, map, String, ◌==◌,
  if◌then◌else◌, any, filter, is_empty,
}
use trade_compliance_classif.Prelude.Text.{
  ◌⧺◌, text_eq, trim, is_blank, is_digit, is_upper, is_lower, starts_with, to_lower, replace_char,
  split_on,
}
use trade_compliance_classif.Prelude.Sets.{when, has, dedup}
use trade_compliance_classif.Prelude.Regex.{
  Re, eps, one, seq, or, star, dot, anything, plus, optional, lit, lit_i, lits, lits_i, matches,
  begins, ends, search_in, cut_suffix,
}
use trade_compliance_classif.Types.{Artifact, BatchResult, GateResult}
use trade_compliance_classif.Paths
use trade_compliance_classif.Paths.{
  unquoted, normalize_runtime_path, normalize_comparable_path, without_last_slashes,
  is_absolute_any, is_safe_relative_path, is_runtime_owned_path, is_template_managed_protected_path,
  is_generated_dependency_path, matches_any_policy_pattern,
}

pub record PathPolicy : Type 0 where
  pub allowed_generated_paths : List String
  pub blocked_paths : List String
  pub protected_paths : List String
  pub local_only_paths : List String

abbrev pub gate_of : String → List String → GateResult
gate_of name flags = record { name = name; passed = is_empty flags; flags = flags }

-- `text` is the JSON of the result's flags, items, tests and business logic.
unfoldable pub is_evidence_backed_protected_context_update : String → String → Bool
is_evidence_backed_protected_context_update file text =
    text_eq file ".agent/rules/CODEBASE_CONTEXT.md"
    && (search_in (seq (lit_i "BROKEN_DOCUMENTED_") (seq (star dot) (lit_i "COMMAND"))) text
        || search_in
            (seq (lit_i "DOCUMENTED_")
              (seq (star dot) (seq (lit_i "COMMAND_") (lits_i ("PASS" ∷ "FIXED" ∷ [])))))
            text
        || search_in (lit_i "DOCUMENTED_CHECK_FAILED") text
        || search_in (seq (lit_i "documented ") (seq (star dot) (lit_i "command"))) text)
    && (search_in (seq (lit_i "exitCode") (seq (optional (lit "\"")) (lit ":0"))) text
        || search_in
            (seq (lit_i "\"exitCode\"")
              (seq (star (one is_blank)) (seq (lit ":") (seq (star (one is_blank)) (lit "0")))))
            text
        || search_in (lits_i ("passed" ∷ "PASS" ∷ [])) text)
    && search_in (lits_i ("command" ∷ "test" ∷ "check" ∷ [])) text

unfoldable pub path_flags : PathPolicy → String → String → List String
path_flags policy text raw =
    let file = normalize_runtime_path raw in
    let policy_file = to_lower file in
    let evidence_allowed = is_evidence_backed_protected_context_update file text in
    let free =
      matches_any_policy_pattern policy_file policy.allowed_generated_paths || evidence_allowed in
    let blocked = not free && matches_any_policy_pattern policy_file policy.blocked_paths in
    if not (is_safe_relative_path raw file)
    then ("UNSAFE_PATH:" ⧺ raw) ∷ []
    else if is_runtime_owned_path policy_file
    then ("RUNTIME_ONLY_PATH:" ⧺ raw) ∷ []
    else if is_template_managed_protected_path policy_file && not evidence_allowed
    then ("TEMPLATE_MANAGED_PROTECTED_PATH:" ⧺ raw) ∷ []
    else when blocked ("BLOCKED_PATH:" ⧺ raw)
      ++ (when (not free && matches_any_policy_pattern policy_file policy.protected_paths)
            ("PROTECTED_PATH:" ⧺ raw)
          ++ when (not blocked && not free && is_generated_dependency_path policy_file)
              ("GENERATED_DEPENDENCY_PATH:" ⧺ raw))

unfoldable pub all_path_flags : PathPolicy → String → List String → List String
all_path_flags policy text [] = []
all_path_flags policy text (file ∷ files) =
    path_flags policy text file ++ all_path_flags policy text files

unfoldable pub validate_paths :
    PathPolicy → (BatchResult → String) → List String → BatchResult → GateResult
validate_paths policy json files result =
    gate_of "paths" (all_path_flags policy (json result) files)

unfoldable pub artifact_path : Artifact → Option String
artifact_path artifact =
    let trimmed = unquoted artifact.path in
    if text_eq trimmed ""
      || matches
          (or
            (lits_i ("unknown" ∷ "not applicable" ∷ "none" ∷ "manual" ∷ "tbd" ∷ "todo" ∷ "-" ∷ []))
            (seq (lit_i "n") (seq (optional (lit "/")) (lit_i "a"))))
          trimmed
    then none
    else some trimmed

abbrev some_paths : Option String → List String → List String
some_paths none paths = paths
some_paths (some path) paths = path ∷ paths

artifact_paths : List Artifact → List String
artifact_paths [] = []
artifact_paths (artifact ∷ artifacts) =
    some_paths (artifact_path artifact) (artifact_paths artifacts)

has_nul : String → Bool
has_nul String.[] = false
has_nul (String.◌∷◌ c s) = code c == 0 || has_nul s

unfoldable pub is_safe_relative_artifact_path : String → Bool
unfolding has_nul
is_safe_relative_artifact_path value =
    let normalized = replace_char b'\\' b'/' value in
    not (text_eq normalized "")
    && not (has_nul normalized)
    && not (is_absolute_any value)
    && not (starts_with normalized "/")
    && not (has (split_on b'/' normalized) "..")

-- The path that a hash was last seen at.
abbrev duplicate : Option String → String → List String
duplicate none path = []
duplicate (some prior) path = ("ARTIFACT_DUPLICATE_DETECTED:" ⧺ prior ⧺ ":" ⧺ path) ∷ []

seen_at : String → List (String × String) → Option String
seen_at hash [] = none
seen_at hash ((h, path) ∷ seen) =
    let rest = seen_at hash seen in if text_eq h hash then some path else rest

-- `content` is the hash of the file at a path, where there is one. The newest path of a hash stands first.
artifact_flags : (String → Option String) → List (String × String) → List String → List String
unfolding seen_at
artifact_flags content seen [] = []
artifact_flags content seen (path ∷ paths) =
    let skipped = artifact_flags content seen paths in
    elim (content path) [
      | none ↦
          (if is_safe_relative_artifact_path path
            then "ARTIFACT_MISSING:" ⧺ path
            else "ARTIFACT_UNSAFE_PATH:" ⧺ path)
          ∷ skipped
      | some hash ↦
          let more = artifact_flags content ((hash, path) ∷ seen) paths in
          if is_safe_relative_artifact_path path
          then duplicate (seen_at hash seen) path ++ more
          else ("ARTIFACT_UNSAFE_PATH:" ⧺ path) ∷ skipped
    ]

unfoldable pub validate_artifacts : (String → Option String) → BatchResult → GateResult
unfolding artifact_flags artifact_paths
validate_artifacts content result =
    gate_of "artifacts" (artifact_flags content [] (dedup (artifact_paths result.artifacts)))

unfoldable pub path_contains : String → String → Bool
path_contains parent child =
    not (text_eq (without_last_slashes parent) "")
    && starts_with (without_last_slashes child) (without_last_slashes parent ⧺ "/")

unfoldable pub local_only_flags :
    PathPolicy → (String → Bool) → (String → Bool) → List String → String → List String
local_only_flags policy exists ignored changed file =
    when (is_runtime_owned_path file) ("LOCAL_ONLY_PATH_UNSAFE:" ⧺ file)
    ++ (when
          (not (matches_any_policy_pattern file policy.local_only_paths)
            && not (is_generated_dependency_path file))
          ("LOCAL_ONLY_PATH_NOT_ALLOWED:" ⧺ file)
        ++ (when
              (has changed file
                || has changed (without_last_slashes file)
                || any (λ c. path_contains file c || path_contains (without_last_slashes file) c)
                    changed)
              ("LOCAL_ONLY_LISTED_AS_CHANGED:" ⧺ file)
            ++ (when (not (is_generated_dependency_path file) && not (exists file))
                  ("LOCAL_ONLY_FILE_MISSING:" ⧺ file)
                ++ when (not (ignored file)) ("LOCAL_ONLY_NOT_GITIGNORED:" ⧺ file))))

abbrev files_or_none : Option (List String) → List String
files_or_none none = []
files_or_none (some files) = files

all_local_only_flags :
    PathPolicy → (String → Bool) → (String → Bool) → List String → List String → List String
all_local_only_flags policy exists ignored changed [] = []
all_local_only_flags policy exists ignored changed (file ∷ files) =
    local_only_flags policy exists ignored changed file
    ++ all_local_only_flags policy exists ignored changed files

unfoldable pub validate_local_only_files :
    PathPolicy → (String → Bool) → (String → Bool) → BatchResult → GateResult
unfolding all_local_only_flags
validate_local_only_files policy exists ignored result = gate_of "local-only" (
    all_local_only_flags policy exists ignored
      (dedup (map normalize_comparable_path result.files_changed))
      (dedup (map normalize_comparable_path (files_or_none result.local_only_files))))

abbrev is_letter_or_digit : ℕ → Bool
is_letter_or_digit c = is_upper c || is_lower c || is_digit c

abbrev upper_or_digit : Re
upper_or_digit = one (λ c. is_upper c || is_digit c)

abbrev four_of : Re → Re
four_of r = seq r (seq r (seq r r))

secret_patterns : List Re
secret_patterns =
    seq (lit "sk_live_") (one is_letter_or_digit)
    ∷ seq (lit "sk-ant-") (one (λ c. is_letter_or_digit c || c == b'_' || c == b'-'))
    ∷ seq (lit "ghp_") (one (λ c. is_letter_or_digit c || c == b'_'))
    ∷ seq (lit "AKIA") (four_of (four_of upper_or_digit))
    ∷ seq (lit "-----BEGIN ")
        (seq (optional (lits ("RSA " ∷ "EC " ∷ "OPENSSH " ∷ []))) (lit "PRIVATE KEY-----"))
    ∷ []

unfoldable pub has_secret : String → Bool
unfolding secret_patterns
has_secret text = any (λ pattern. search_in pattern text) secret_patterns

unfoldable pub is_external_operation_marker : String → Bool
is_external_operation_marker file =
    begins (seq (lits_i ("remote" ∷ "ssh" ∷ "s3" ∷ "gs" ∷ "az" ∷ "http" ∷ "https" ∷ [])) (lit ":"))
      file
    || begins (lit_i "deleted:") file
    || ends (seq (one is_blank) (lit_i "(deleted)")) file

abbrev secret_flag : String → Option String → List String
secret_flag file none = ("CHANGED_FILE_MISSING:" ⧺ file) ∷ []
secret_flag file (some text) = when (has_secret text) ("SECRET_PATTERN:" ⧺ file)

unfoldable pub secret_flags : (String → Option String) → List String → List String
secret_flags read [] = []
secret_flags read (file ∷ files) =
    let rest = secret_flags read files in
    if is_external_operation_marker file then rest else secret_flag file (read file) ++ rest

unfoldable pub validate_secrets : (String → Option String) → BatchResult → GateResult
validate_secrets read result = gate_of "secrets" (secret_flags read result.files_changed)

-- All that a run computes with.
unfoldable pub runs : Unit {0}
unfolding is_evidence_backed_protected_context_update path_flags all_path_flags validate_paths
    artifact_path is_safe_relative_artifact_path validate_artifacts path_contains local_only_flags
    validate_local_only_files has_secret is_external_operation_marker secret_flags validate_secrets
    artifact_flags artifact_paths seen_at has_nul all_local_only_flags secret_patterns Paths.runs
    dedup ends search_in
runs = tt
