-- ===== src/Findings/Passes.antt =====
-- Each pass of runtime-batch-state.ts only closes findings, and which it leaves open.
use trade_compliance_classif.Prelude.{◌≡◌, refl, Bool, true, false, List, String, arith}
use trade_compliance_classif.Prelude.Text.{eq_iff, starts_with, to_upper}
use trade_compliance_classif.Prelude.Sets.{has}
use trade_compliance_classif.Types.{BatchResult}
use trade_compliance_classif.Flags.{is_positive_flag, runs}
use trade_compliance_classif.Findings.{RuntimeFinding, is_open}
use trade_compliance_classif.Findings.Maps.{Closes}
use trade_compliance_classif.Findings.Evidence.{has_fix_evidence_from_flags}
use trade_compliance_classif.Findings.Close.{
  is_product_owned_finding, is_product_code, is_runtime_support_or_tooling_finding,
  normalize_finding, quarantine_runtime_owned, close_by_flags, close_on_validation, close_aggregate,
  aggregate_id, quarantine_tooling, is_runtime_owned_finding,
}
use trade_compliance_classif.Findings.State.{close_cleared}

pub normalize_finding-Closes : (now : String) → Closes (normalize_finding now)
unfolding normalize_finding
normalize_finding-Closes now = record {
  same_id = λ f. ground arith;
  only_closes = λ f e. ground arith;
}

pub quarantine_runtime_owned-Closes : (now : String) → Closes (quarantine_runtime_owned now)
unfolding quarantine_runtime_owned
quarantine_runtime_owned-Closes now = record {
  same_id = λ f. ground arith;
  only_closes = λ f e. ground arith;
}

pub close_by_flags-Closes : (flags : List String) (now : String) → Closes (close_by_flags flags now)
unfolding close_by_flags
close_by_flags-Closes flags now = record {
  same_id = λ f. ground arith;
  only_closes = λ f e. ground arith;
}

pub close_on_validation-Closes :
    (active : List String) (now : String) → Closes (close_on_validation active now)
unfolding close_on_validation
close_on_validation-Closes active now = record {
  same_id = λ f. ground arith;
  only_closes = λ f e. ground arith;
}

pub close_aggregate-Closes : (wiring : Bool) (now : String) → Closes (close_aggregate wiring now)
unfolding close_aggregate
close_aggregate-Closes wiring now = record {
  same_id = λ f. ground arith;
  only_closes = λ f e. ground arith;
}

pub quarantine_tooling-Closes :
    (active : List String) (now : String) → Closes (quarantine_tooling active now)
unfolding quarantine_tooling
quarantine_tooling-Closes active now = record {
  same_id = λ f. ground arith;
  only_closes = λ f e. ground arith;
}

pub close_cleared-Closes :
    (cleared : List String) (result : BatchResult) (now : String)
    → Closes (close_cleared cleared result now)
unfolding close_cleared
close_cleared-Closes cleared result now = record {
  same_id = λ f. ground arith;
  only_closes = λ f e. ground arith;
}

-- An id that only evidence about it can close: the product's own, and not a sign of success.
pub record IsProductId (id : String) : Type 0 where
  pub owned : is_product_owned_finding id ≡ true
  pub not_positive : is_positive_flag id ≡ false
  pub not_recovered : starts_with id "RECOVERED_" ≡ false

aggregate_not_owned : is_product_owned_finding aggregate_id ≡ false
unfolding is_product_owned_finding is_product_code runs to_upper
aggregate_not_owned = refl

module _ (id now : String) (p : IsProductId id) (f : RuntimeFinding) (same : f.id ≡ id)
    (opened : is_open f.status ≡ true) where
  pub normalize_finding-open : is_open (normalize_finding now f).status ≡ true
  unfolding normalize_finding
  normalize_finding-open = ground arith

  pub quarantine_runtime_owned-open :
      is_runtime_owned_finding id ≡ false → is_open (quarantine_runtime_owned now f).status ≡ true
  unfolding quarantine_runtime_owned
  quarantine_runtime_owned-open h = ground arith

  pub close_by_flags-open :
      (flags : List String)
      → has_fix_evidence_from_flags flags id ≡ false
      → is_open (close_by_flags flags now f).status ≡ true
  unfolding close_by_flags
  close_by_flags-open flags h = ground arith

  pub close_on_validation-open :
      (active : List String) → is_open (close_on_validation active now f).status ≡ true
  unfolding close_on_validation
  close_on_validation-open active = ground arith

  pub close_aggregate-open : (wiring : Bool) → is_open (close_aggregate wiring now f).status ≡ true
  unfolding close_aggregate
  close_aggregate-open wiring = ground (arith, eq_iff f.id aggregate_id, aggregate_not_owned)

  pub quarantine_tooling-open :
      (active : List String) → is_open (quarantine_tooling active now f).status ≡ true
  unfolding quarantine_tooling is_runtime_support_or_tooling_finding
  quarantine_tooling-open active = ground arith

  pub close_cleared-open :
      (cleared : List String) (result : BatchResult)
      → has cleared id ≡ false
      → has_fix_evidence_from_flags result.flags id ≡ false
      → is_open (close_cleared cleared result now f).status ≡ true
  unfolding close_cleared
  close_cleared-open cleared result h k = ground arith
