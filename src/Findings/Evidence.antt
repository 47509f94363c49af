-- ===== src/Findings/Evidence.antt =====
-- Which evidence of a result closes which finding: the tests at the end of runtime-batch-state.ts.
use trade_compliance_classif.Prelude.{
  ℕ, ◌-◌, Bool, true, false, not, ◌&&◌, ◌||◌, Option, none, some, List, [], ◌∷◌, map, String, ltb,
  ◌==◌, if◌then◌else◌, any,
}
use trade_compliance_classif.Prelude.Text.{
  ◌⧺◌, text_eq, trim, to_upper, starts_with, ends_with, after?, drop_text, take_text, text_length,
  replace_char, replace_runs, strip_prefix, strip_prefix_i, split_on, join, is_upper, is_lower,
  is_digit,
}
use trade_compliance_classif.Prelude.Regex.{
  Re, eps, seq, or, dot, anything, lit, lit_i, lits, lits_i, optional, plus, matches, begins,
  cut_suffix,
}
use trade_compliance_classif.Types.{TestEvidence, BatchResult}
use trade_compliance_classif.Flags.{
  recovered_source, flag_code, is_positive_flag, is_blocking_flag, fixed_finding_prefix,
}

unfoldable pub is_runtime_only_artifact_path : String → Bool
is_runtime_only_artifact_path file =
    let slashed = replace_char 92 b'/' file in
    let normalized : String = elim (strip_prefix "./" slashed) [
      | none ↦ slashed
      | some rest ↦ rest
    ] in
    begins
      (seq (lit_i ".yolo/")
        (seq (lits_i ("batch-results" ∷ "gates" ∷ "runtime" ∷ "logs" ∷ "events" ∷ [])) (lit_i "/")))
      normalized

abbrev pub is_source_path : String → Bool
is_source_path file = not (is_runtime_only_artifact_path file)

abbrev pub is_nonempty {ℓ} : {A : Type ℓ} → List A → Bool
is_nonempty [] = false
is_nonempty (x ∷ xs) = true

unfoldable pub is_runtime_only_result : BatchResult → Bool
is_runtime_only_result result =
    is_nonempty result.files_changed && not (any is_source_path result.files_changed)

unfoldable pub is_passing : String × TestEvidence → Bool
is_passing (phase, evidence) = evidence.exit_code == 0 && not (text_eq (trim evidence.command) "")

unfoldable pub has_passing_command_evidence : BatchResult → Bool
has_passing_command_evidence result = any is_passing result.tests

unfoldable pub invalid_placeholder : String → Bool
invalid_placeholder value =
    matches
      (or (lits_i ("unknown" ∷ "not applicable" ∷ "none" ∷ "manual" ∷ "tbd" ∷ "todo" ∷ "-" ∷ []))
        (seq (lit_i "n") (seq (optional (lit_i "/")) (lit_i "a"))))
      (trim value)

abbrev is_token : ℕ → Bool
is_token c = is_upper c || is_lower c || is_digit c

-- `value.replace(/^(?:THE|A|AN)_/i, "")`
unfoldable pub drop_article : String → String
drop_article s = elim (strip_prefix_i "THE_" s) [
  | some rest ↦ rest
  | none ↦ elim (strip_prefix_i "A_" s) [
    | some rest ↦ rest
    | none ↦ elim (strip_prefix_i "AN_" s) [ some rest ↦ rest | none ↦ s ]
  ]
]

-- `value.replace(/^_|_$/g, "")`
unfoldable pub drop_outer_underscores : String → String
drop_outer_underscores s =
    cut_suffix (lit "_") (elim (strip_prefix "_" s) [ none ↦ s | some rest ↦ rest ])

abbrev not_underscore : ℕ → Bool
not_underscore c = not (c == b'_')

unfoldable pub normalize_finding_token : String → String
normalize_finding_token value = to_upper (
    drop_outer_underscores (
      replace_runs not_underscore "_" false (drop_article (replace_runs is_token "_" false value))))

-- `part.length > 3 && part.endsWith("S") ? part.slice(0, -1) : part`
abbrev singular : String → String
singular part =
    if ltb 3 (text_length part) && ends_with part "S"
    then take_text (text_length part - 1) part
    else part

unfoldable pub singularize_finding_token : String → String
singularize_finding_token value = join "_" (map singular (split_on b'_' value))

unfoldable pub entrypoint_subject_matches : String → String → Bool
entrypoint_subject_matches target subject =
    let bare =
      cut_suffix (seq (lit_i "_") (lits_i ("WIRING" ∷ "ENTRYPOINT" ∷ "WORKER" ∷ []))) target in
    if text_eq target "" || text_eq subject ""
    then false
    else text_eq target subject
      || ends_with target ("_" ⧺ subject)
      || text_eq (singularize_finding_token bare) (singularize_finding_token subject)

-- The text behind the first colon, with one leading `RECOVERED_SOURCE_FLAG:` taken off before.
unfoldable pub flag_detail : String → String
flag_detail flag =
    let clean =
      trim (elim (strip_prefix_i recovered_source flag) [ none ↦ flag | some rest ↦ rest ]) in
    elim (after? b':' clean) [ none ↦ "" | some rest ↦ rest ]

-- The first prefix of a list that a text has, taken off.
unfoldable pub strip_one_of : List String → String → Option String
strip_one_of [] s = none
strip_one_of (p ∷ ps) s = elim (strip_prefix p s) [
  | some rest ↦ some rest
  | none ↦ strip_one_of ps s
]

-- `/^ENTRYPOINT_(?:VERIFIED|WIRED)(?:_(.+))?$/`: no match, a match without the group, or the group.
pub data EntrypointMatch : Type 0 where
  no_match : EntrypointMatch
  bare_match : EntrypointMatch
  subject_match : String → EntrypointMatch

abbrev entrypoint_rest : String → EntrypointMatch
entrypoint_rest rest =
    if text_eq rest ""
    then bare_match
    else if matches (seq (lit "_") (plus dot)) rest
    then subject_match (drop_text 1 rest)
    else no_match

unfoldable pub match_entrypoint : String → EntrypointMatch
match_entrypoint code = elim (strip_one_of ("ENTRYPOINT_VERIFIED" ∷ "ENTRYPOINT_WIRED" ∷ []) code) [
  | none ↦ no_match
  | some rest ↦ entrypoint_rest rest
]

abbrev entrypoint_negatives : List String
entrypoint_negatives = "ENTRYPOINT_UNVERIFIED" ∷ "ENTRYPOINT_UNWIRED" ∷ []

abbrev entrypoint_negatives_ : List String
entrypoint_negatives_ = "ENTRYPOINT_UNVERIFIED_" ∷ "ENTRYPOINT_UNWIRED_" ∷ []

-- The verdict on a target; `none` where the code goes on to the other rules.
unfoldable pub entrypoint_closes : String → String → String → Option Bool
entrypoint_closes target finding id =
    if text_eq target ""
    then some false
    else if any (text_eq finding) entrypoint_negatives
    then some (entrypoint_subject_matches target (normalize_finding_token (flag_detail id)))
    else elim (strip_one_of entrypoint_negatives_ finding) [
      | some subject ↦ some (entrypoint_subject_matches target (normalize_finding_token subject))
      | none ↦
          if ends_with finding "_NOT_WIRED"
          then some (
              entrypoint_subject_matches target
                (normalize_finding_token (cut_suffix (lit "_NOT_WIRED") finding)))
          else none
    ]

abbrev business_suffix : Re
business_suffix = seq (lit "_") (lits ("PASS" ∷ "PASSED" ∷ "VERIFIED" ∷ "FIXED" ∷ []))

-- `(.+)_(?:PASS|PASSED|VERIFIED|FIXED)$`: the group, if the whole text matches.
unfoldable pub business_group : String → Option String
business_group s =
    if matches (seq (plus dot) business_suffix) s then some (cut_suffix business_suffix s) else none

-- `/^BUSINESS_LOGIC(?:_EVIDENCE)?_(.+)_(?:…)$/`, with the optional part tried first.
unfoldable pub match_business : String → Option String
match_business code =
    let plain : Option String = elim (strip_prefix "BUSINESS_LOGIC_" code) [
      | none ↦ none
      | some rest ↦ business_group rest
    ] in
    elim (strip_prefix "BUSINESS_LOGIC_EVIDENCE_" code) [
      | none ↦ plain
      | some rest ↦ elim (business_group rest) [ none ↦ plain | some group ↦ some group ]
    ]

abbrev business_negatives : List String
business_negatives =
    "BUSINESS_LOGIC_DRIFT_" ∷ "BUSINESS_LOGIC_GAP_" ∷ "BUSINESS_LOGIC_MISSING_"
    ∷ "BUSINESS_LOGIC_UNVERIFIED_" ∷ "BUSINESS_LOGIC_UNVALIDATED_" ∷ []

unfoldable pub business_subject_matches : String → String → Bool
business_subject_matches target subject =
    text_eq target subject
    || ends_with target ("_" ⧺ subject)
    || starts_with subject (target ⧺ "_")
    || (starts_with target "TENANT_FAIRNESS_" && starts_with subject "TENANT_FAIRNESS_")

unfoldable pub business_closes : String → String → Bool
business_closes code finding = elim (match_business code) [
  | none ↦ false
  | some group ↦ elim (strip_one_of business_negatives finding) [
    | none ↦ false
    | some subject ↦
        business_subject_matches (normalize_finding_token group) (normalize_finding_token subject)
  ]
]

-- The rules that name one code of evidence each.
unfoldable pub special_closes : String → String → Bool
special_closes code finding =
    (text_eq code "BUSINESS_LOGIC_DRIFT_SWEEP_PASS" && starts_with finding "BUSINESS_LOGIC_DRIFT_")
    || (text_eq code "TENANT_FAIRNESS_RATE_LIMIT_RETRY_PASS"
        && starts_with finding "BUSINESS_LOGIC_DRIFT_TENANT_FAIRNESS_")
    || (text_eq code "GENERATED_FILE_DRIFT_REVERTED" && starts_with finding "GENERATED_FILE_DRIFT_")
    || (text_eq code "PROTECTED_PATH_METADATA_REMOVED"
        && text_eq finding "CHANGED_FILE_MISSING_METADATA_REMOVED")
    || (text_eq code "MODULARITY_RULE_FILE_WARNING_ROUTED_NON_BLOCKING"
        && text_eq finding "MODULARITY_RULE_FILE_LIMIT_VIOLATION")

abbrev or_else : Option Bool → Bool → Bool
or_else none b = b
or_else (some a) b = a

unfoldable pub code_closes : EntrypointMatch → String → String → String → String → Bool
code_closes no_match flag code finding id =
    special_closes code finding || business_closes code finding
code_closes bare_match flag code finding id =
    or_else (entrypoint_closes (normalize_finding_token (flag_detail flag)) finding id)
      (special_closes code finding || business_closes code finding)
code_closes (subject_match s) flag code finding id =
    or_else (entrypoint_closes (normalize_finding_token s) finding id)
      (special_closes code finding || business_closes code finding)

unfoldable pub positive_flag_closes_finding : String → String → Bool
positive_flag_closes_finding flag id =
    let code = to_upper (flag_code flag) in
    if not (is_positive_flag flag)
    then false
    else code_closes (match_entrypoint code) flag code (to_upper (flag_code id)) id

-- `/^(?:GAP|MISSING|…)(?:_|$)/i`
abbrev fixed_remainder : Re
fixed_remainder =
    seq
      (lits_i (
        "GAP" ∷ "MISSING" ∷ "DRIFT" ∷ "UNVERIFIED" ∷ "UNVALIDATED" ∷ "UNWIRED" ∷ "NOT_WIRED"
        ∷ "FINDING" ∷ "FINDINGS" ∷ "FAIL" ∷ "FAILED" ∷ "FAILURE" ∷ "INVALID" ∷ "MISMATCH" ∷ []))
      (or eps (seq (lit_i "_") anything))

unfoldable pub finding_matches_fixed_prefix : String → String → Bool
finding_matches_fixed_prefix id prefix =
    let remainder : String = elim (strip_prefix (prefix ⧺ "_") id) [
      | none ↦ ""
      | some rest ↦ rest
    ] in
    if ltb (text_length prefix) 8
    then false
    else text_eq id prefix
      || starts_with id (prefix ⧺ ":")
      || starts_with prefix (id ⧺ ":")
      || matches fixed_remainder remainder

-- `flags.map(fixedFindingPrefix).filter(Boolean)`
unfoldable pub fixed_prefixes : List String → List String
fixed_prefixes [] = []
fixed_prefixes (flag ∷ flags) = elim (fixed_finding_prefix flag) [
  | none ↦ fixed_prefixes flags
  | some prefix ↦ if text_eq prefix "" then fixed_prefixes flags else prefix ∷ fixed_prefixes flags
]

unfoldable pub has_fix_evidence_from_flags : List String → String → Bool
has_fix_evidence_from_flags flags id =
    any (λ prefix. text_eq prefix id) (fixed_prefixes flags)
    || any (finding_matches_fixed_prefix id) (fixed_prefixes flags)
    || any (λ flag. positive_flag_closes_finding flag id) flags

unfoldable pub is_stale_blocking_flag : List String → String → Bool
is_stale_blocking_flag prefixes flag =
    if not (is_blocking_flag flag) || starts_with flag "RECOVERED_"
    then false
    else any (finding_matches_fixed_prefix flag) prefixes
