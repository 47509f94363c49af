-- ===== src/Risk/Tests.antt =====
-- Runs of the risk of a batch and of the validation policy.
use trade_compliance_classif.Prelude.{◌≡◌, refl, true, false, none, some, List, [], ◌∷◌, String}
use trade_compliance_classif.Types.{success, AgentRole, Batch, BatchType, BatchResult}
use trade_compliance_classif.Findings.{critical, low}
use trade_compliance_classif.Risk.{
  risk_text, classify_batch_risk, fast, validation_policy_for, runs,
}
use trade_compliance_classif.Risk.Policy.{IsStrict, validation_policy_for-IsStrict}

abbrev page_batch : Batch
page_batch = record {
  number = 3;
  items =
      record {
        raw = "";
        tag = "[X]";
        title = "Text";
        phase = "1";
        checked = false;
        details = [];
        affected_files = [];
      }
      ∷ [];
  type = BatchType.audit;
  support_kind = none;
  support_scope = none;
}

abbrev result_of : List String → BatchResult
result_of files = record {
  schema_version = 1;
  agent = AgentRole.implement;
  batch = 3;
  status = success;
  items_completed = [];
  files_changed = files;
  tests = [];
  wiring = none;
  project_local_checks = none;
  business_logic = none;
  artifacts = [];
  local_only_files = none;
  inbox = none;
  failure_type = none;
  flags = [];
  commit = none;
}

risk_run :
    (classify_batch_risk page_batch none
      ≡ record { class = low; reasons = "no high-risk surfaces detected" ∷ [] })
    × (classify_batch_risk page_batch (some (result_of ("db/Auth.sql" ∷ [])))
        ≡ record { class = critical; reasons = "critical:auth" ∷ [] })
    × ((validation_policy_for page_batch (result_of []) (some fast) true).require_full_regression
        ≡ false)
    × ((validation_policy_for page_batch (result_of ("db/a.sql" ∷ [])) (some fast) true).reasons
        ≡ "high:db\\/" ∷ [])
    × ((validation_policy_for page_batch
          (result_of ("roles.rs" ∷ []))
          none
          true).allow_regression_cache
        ≡ false)
unfolding runs
risk_run = (refl, refl, refl, refl, refl)

validation_policy_for-IsStrict_example :
    IsStrict
      (risk_text page_batch (some (result_of ("roles.rs" ∷ []))))
      fast
      true
      (validation_policy_for page_batch (result_of ("roles.rs" ∷ [])) (some fast) true)
validation_policy_for-IsStrict_example =
    validation_policy_for-IsStrict page_batch (result_of ("roles.rs" ∷ [])) (some fast) true
