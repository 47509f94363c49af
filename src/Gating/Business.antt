-- ===== src/Gating/Business.antt =====
-- tools/klevar-yolo-runtime/src/validators/business-logic-validator.ts. `touched` is the field of that
-- name of the evidence, where it is a Boolean, and `kind` an artifact's field `kind` or `type`; the
-- types of the result have neither.
use trade_compliance_classif.Prelude.{
  Bool, false, not, ◌&&◌, ◌||◌, Option, none, some, List, [], ◌∷◌, ◌++◌, String, if◌then◌else◌, any,
  is_empty,
}
use trade_compliance_classif.Prelude.Text.{text_eq, text_runs}
use trade_compliance_classif.Prelude.Sets.{when, has}
use trade_compliance_classif.Prelude.Regex.{
  Re, eps, seq, or, anything, lit, lits_i, matches, begins, search_in,
}
use trade_compliance_classif.Types.{
  ProgressItem, Batch, BusinessLogic, Artifact, BatchResult, GateResult,
}
use trade_compliance_classif.Paths.{slashes}
use trade_compliance_classif.Gating.Validators.{gate_of}

business_tags : List String
business_tags = "[API]" ∷ "[UI]" ∷ "[JOB]" ∷ "[INTEGRATION]" ∷ "[DATA]" ∷ "[MODEL]" ∷ "[DB]" ∷ []

-- `/(?:^|\/)(?:a|b|…)\//i`
abbrev in_directory : List String → Re
in_directory names = seq (or eps (seq anything (lit "/"))) (seq (lits_i names) (lit "/"))

unfoldable pub is_business_source : String → Bool
is_business_source file =
    begins
      (in_directory (
        "src" ∷ "app" ∷ "apps" ∷ "packages" ∷ "lib" ∷ "server" ∷ "worker" ∷ "api" ∷ "db"
        ∷ "database" ∷ []))
      (slashes file)
    && not (begins (in_directory ("test" ∷ "tests" ∷ "spec" ∷ "__tests__" ∷ [])) (slashes file))

unfoldable pub has_business_source_change : BatchResult → Bool
has_business_source_change result = any is_business_source result.files_changed

unfoldable pub has_business_artifacts : (Artifact → String) → BatchResult → Bool
has_business_artifacts kind result =
    any
      (λ artifact.
        search_in
          (lits_i ("report" ∷ "export" ∷ "invoice" ∷ "email" ∷ "pdf" ∷ "domain" ∷ "business" ∷ []))
          (kind artifact))
      result.artifacts

unfoldable pub evidence_flags : Option BusinessLogic → List String
evidence_flags none = "MISSING_BUSINESS_LOGIC_EVIDENCE" ∷ []
evidence_flags (some e) =
    when (text_eq e.rule "") "BUSINESS_LOGIC_RULE_MISSING"
    ++ (when (text_eq e.source_of_truth "") "BUSINESS_LOGIC_SOURCE_OF_TRUTH_MISSING"
        ++ (when (text_eq e.test "") "BUSINESS_LOGIC_TEST_MISSING"
            ++ when (is_empty e.observable_paths) "BUSINESS_LOGIC_OBSERVABLE_PATHS_MISSING"))

abbrev is_explicitly_untouched : Option BusinessLogic → Option Bool → Bool
is_explicitly_untouched (some e) (some touched) = not touched
is_explicitly_untouched _ _ = false

unfoldable pub is_business_batch : (Artifact → String) → Batch → BatchResult → Bool
unfolding business_tags
is_business_batch kind batch result =
    any (λ (item : ProgressItem). has business_tags item.tag) batch.items
    || has_business_artifacts kind result

unfoldable pub validate_business_logic :
    (Artifact → String) → Option Bool → Batch → BatchResult → GateResult
validate_business_logic kind touched batch result =
    let untouched = is_explicitly_untouched result.business_logic touched in
    let changed = has_business_source_change result in
    gate_of "business-logic" (
      if not (is_business_batch kind batch result)
      then []
      else if untouched && not changed
      then []
      else when untouched "BUSINESS_LOGIC_UNTOUCHED_CONTRADICTS_BATCH_SCOPE"
        ++ evidence_flags result.business_logic)

-- All that a run computes with.
unfoldable pub runs : Unit {0}
unfolding is_business_source has_business_source_change has_business_artifacts evidence_flags
    is_business_batch validate_business_logic business_tags slashes begins matches search_in
    text_runs
runs = tt
