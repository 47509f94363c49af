-- ===== src/Risk.antt =====
-- The risk of a batch (tools/klevar-yolo-runtime/src/runtime-batch-state.ts, speed-risk.ts) and the
-- validation that it asks for (validation-policy.ts).
pub mod Policy
mod Tests
use trade_compliance_classif.Prelude.{
  Bool, true, false, not, ◌&&◌, ◌||◌, Option, none, some, List, [], ◌∷◌, ◌++◌, map, String,
  if◌then◌else◌, filter, is_empty,
}
use trade_compliance_classif.Prelude.Text.{◌⧺◌, to_lower, includes, join, text_runs}
use trade_compliance_classif.Types.{ProgressItem, Batch, BatchType, BatchResult}
use trade_compliance_classif.Findings.{RiskClass, low, medium, high, critical, Risk}

abbrev type_text : BatchType → String
type_text BatchType.implement = "implement"
type_text BatchType.audit = "audit"

abbrev changed_of : Option BatchResult → List String
changed_of none = []
changed_of (some result) = result.files_changed

-- `text`
unfoldable pub risk_text : Batch → Option BatchResult → String
risk_text batch result = to_lower (
    join "\n" (
      type_text batch.type
      ∷ (map
            (λ (item : ProgressItem).
              item.tag ⧺ " " ⧺ item.title ⧺ " " ⧺ join " " item.affected_files)
            batch.items
          ++ changed_of result)))

-- Each pattern is a plain text; with its source.
abbrev Pattern : Type 0
Pattern = String × String

abbrev plain : List String → List Pattern
plain words = map (λ word. (word, word)) words

abbrev pub critical_patterns : List (String × String)
critical_patterns = plain (
    "auth" ∷ "tenant" ∷ "security" ∷ "secret" ∷ "migration" ∷ "schema" ∷ "payment" ∷ "permission"
    ∷ "role" ∷ "rate-limit" ∷ "external mutation" ∷ [])

abbrev pub high_patterns : List (String × String)
high_patterns =
    plain ("api" ∷ "route" ∷ "openapi" ∷ "database" ∷ [])
    ++ ("db/", "db\\/") ∷ plain ("worker" ∷ "job" ∷ "integration" ∷ "public contract" ∷ [])

abbrev pub medium_patterns : List (String × String)
medium_patterns =
    plain ("ui" ∷ "frontend" ∷ "component" ∷ "solver" ∷ "planner" ∷ "business" ∷ "service" ∷ [])

unfoldable pub reasons_of : String → String → List (String × String) → List String
reasons_of level text patterns =
    map (λ (p : String × String). level ⧺ ":" ⧺ p.1)
      (filter (λ (p : String × String). includes text p.0) patterns)

unfoldable pub classify_text : String → Risk
classify_text text =
    let critical_reasons = reasons_of "critical" text critical_patterns in
    let high_reasons = reasons_of "high" text high_patterns in
    let medium_reasons = reasons_of "medium" text medium_patterns in
    if not (is_empty critical_reasons)
    then record { class = critical; reasons = critical_reasons }
    else if not (is_empty high_reasons)
    then record { class = high; reasons = high_reasons }
    else if not (is_empty medium_reasons)
    then record { class = medium; reasons = medium_reasons }
    else record { class = low; reasons = "no high-risk surfaces detected" ∷ [] }

unfoldable pub classify_batch_risk : Batch → Option BatchResult → Risk
classify_batch_risk batch result = classify_text (risk_text batch result)

pub data ValidationMode : Type 0 where
  safe balanced fast : ValidationMode

pub record ValidationPolicy : Type 0 where
  pub mode : ValidationMode
  pub risk : RiskClass
  pub require_adversarial_validation : Bool
  pub allow_regression_cache : Bool
  pub require_full_regression : Bool
  pub reasons : List String

abbrev pub mode_or_balanced : Option ValidationMode → ValidationMode
mode_or_balanced none = balanced
mode_or_balanced (some mode) = mode

abbrev pub is_safe : ValidationMode → Bool
is_safe safe = true
is_safe _ = false

abbrev is_balanced : ValidationMode → Bool
is_balanced balanced = true
is_balanced _ = false

abbrev is_fast : ValidationMode → Bool
is_fast fast = true
is_fast _ = false

abbrev is_critical : RiskClass → Bool
is_critical critical = true
is_critical _ = false

abbrev is_high : RiskClass → Bool
is_high high = true
is_high _ = false

-- The configuration gives `validationMode` and `gates.requireAdversarialValidation`.
unfoldable pub validation_policy_for :
    Batch → BatchResult → Option ValidationMode → Bool → ValidationPolicy
validation_policy_for batch result configured adversarial =
    let risk = classify_batch_risk batch (some result) in
    let mode = mode_or_balanced configured in
    let strict = is_safe mode || is_critical risk.class in
    let is_high_risk = is_high risk.class in
    record {
      mode = mode;
      risk = risk.class;
      require_adversarial_validation =
          adversarial && (strict || is_high_risk || not (is_fast mode));
      allow_regression_cache = not (is_safe mode) && not (is_critical risk.class);
      require_full_regression = strict || is_high_risk || is_balanced mode;
      reasons = risk.reasons;
    }

-- All that a run computes with.
unfoldable pub runs : Unit {0}
unfolding risk_text reasons_of classify_text classify_batch_risk validation_policy_for text_runs
runs = tt
