-- ===== src/Flags/Tests.antt =====
-- Runs of flag-classification.ts.
use trade_compliance_classif.Prelude.{◌≡◌, refl, true, false, none, some}
use trade_compliance_classif.Prelude.Text.{◌⧺◌}
use trade_compliance_classif.Flags.Laws.{demoted_flag}
use trade_compliance_classif.Flags.{
  flag_code, is_warning_flag, is_positive_flag, is_blocking_flag, fixed_finding_prefix, runs,
}

flags_run :
    (flag_code "RECOVERED_SOURCE_FLAG:recovered_source_flag:E2E_MISSING: a" ≡ "E2E_MISSING")
    × (is_blocking_flag "E2E_MISSING:a" ≡ true)
    × (is_positive_flag "WIRING_FIXED" ≡ true)
    × (is_positive_flag "AUTH_REJECTED_PASS" ≡ false)
    × (is_positive_flag "PAYMENT_RULE_X_REJECTED" ≡ true)
    × (is_warning_flag none "DOCS_NON_BLOCKING" ≡ true)
    × (is_warning_flag none "AUTH_X_NON_BLOCKING" ≡ false)
    × (fixed_finding_prefix "ENTRYPOINT_VERIFIED:a.ts" ≡ some "ENTRYPOINT_UNVERIFIED:a.ts")
    × (fixed_finding_prefix "GAP_A_FIXED:x" ≡ some "GAP_A")
    × (fixed_finding_prefix "GAP_A" ≡ none)
unfolding runs
flags_run = (refl, refl, refl, refl, refl, refl, refl, refl, refl, refl)

demoted_flag_example :
    (flag_code ("RECOVERED_SOURCE_FLAG:" ⧺ "E2E_MISSING:a") ≡ flag_code "E2E_MISSING:a")
    × (is_blocking_flag ("RECOVERED_SOURCE_FLAG:" ⧺ "E2E_MISSING:a") ≡ false)
demoted_flag_example = demoted_flag "E2E_MISSING:a"
