-- ===== src/Risk/Policy.antt =====
-- What the validation policy of a batch guarantees, by its risk.
use trade_compliance_classif.Prelude.{
  ◌≡◌, refl, Bool, true, false, not, ◌&&◌, ◌||◌, Option, some, List, [], ◌∷◌, String, any, is_empty,
  arith,
}
use trade_compliance_classif.Prelude.Text.{includes}
use trade_compliance_classif.Types.{Batch, BatchResult}
use trade_compliance_classif.Risk.{
  risk_text, critical_patterns, high_patterns, reasons_of, classify_text, classify_batch_risk,
  ValidationMode, safe, balanced, fast, ValidationPolicy, validation_policy_for, is_critical,
  is_high, is_fast, is_safe, is_balanced, mode_or_balanced,
}

-- Whether a text names one of the patterns.
abbrev pub names : List (String × String) → String → Bool
names patterns text = any (λ (p : String × String). includes text p.0) patterns

no_reasons :
    (level text : String) (patterns : List (String × String))
    → is_empty (reasons_of level text patterns) ≡ not (names patterns text)
unfolding reasons_of
no_reasons level text [] = refl
no_reasons level text (p ∷ patterns) = ground (arith, no_reasons level text patterns)

critical_class :
    (text : String) → is_critical (classify_text text).class ≡ names critical_patterns text
unfolding classify_text
critical_class text = ground (arith, no_reasons "critical" text critical_patterns)

high_class :
    (text : String)
    → is_high (classify_text text).class
      ≡ (not (names critical_patterns text) && names high_patterns text)
unfolding classify_text
high_class text =
    ground
      (arith, no_reasons "critical" text critical_patterns, no_reasons "high" text high_patterns)

one_mode : (mode : ValidationMode) → (is_safe mode || is_balanced mode || is_fast mode) ≡ true
one_mode safe = refl
one_mode balanced = refl
one_mode fast = refl

-- What a policy asks for, by the text of the batch and its result.
pub record IsStrict (text : String) (mode : ValidationMode) (adversarial : Bool)
    (policy : ValidationPolicy) : Type 0 where
  pub grave :
      (names critical_patterns text || names high_patterns text) ≡ true
      → (policy.require_full_regression ≡ true)
        × (policy.require_adversarial_validation ≡ adversarial)
  pub fresh : names critical_patterns text ≡ true → policy.allow_regression_cache ≡ false
  pub relaxed :
      policy.require_full_regression ≡ false
      → (is_fast mode ≡ true) × ((names critical_patterns text || names high_patterns text) ≡ false)
  pub slow : is_fast mode ≡ false → policy.require_adversarial_validation ≡ adversarial

-- In every mode, a batch whose text names a critical or a high surface gets the full regression and the
-- adversarial validation that the configuration has, and a critical one no cached regression; only the fast mode goes
-- without the full regression, and only for a batch that names neither; any other mode keeps the
-- adversarial validation.
pub validation_policy_for-IsStrict :
    (batch : Batch) (result : BatchResult) (configured : Option ValidationMode) (adversarial : Bool)
    → IsStrict
        (risk_text batch (some result))
        (mode_or_balanced configured)
        adversarial
        (validation_policy_for batch result configured adversarial)
unfolding validation_policy_for classify_batch_risk
validation_policy_for-IsStrict batch result configured adversarial =
    let c = critical_class (risk_text batch (some result)) in
    let h = high_class (risk_text batch (some result)) in
    let m = one_mode (mode_or_balanced configured) in
    record {
      grave = λ g. (ground arith, ground arith);
      fresh = λ g. ground arith;
      relaxed = λ g. (ground arith, ground arith);
      slow = λ g. ground arith;
    }
