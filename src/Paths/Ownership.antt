-- ===== src/Paths/Ownership.antt =====
-- Which paths leave a worktree, by path-policy.ts.
use trade_compliance_classif.Prelude.{◌≡◌, Bool, true, false, not, ◌&&◌, ◌||◌, String, arith}
use trade_compliance_classif.Prelude.Text.{split_on}
use trade_compliance_classif.Prelude.Sets.{has}
use trade_compliance_classif.Paths.{
  RuntimePathClassification, normalize_runtime_path, is_safe_relative_path, is_git, is_env,
  is_runtime_owned_path, is_template_managed_protected_path, is_runtime_artifact_deliverable_path,
  is_vendored_klevar_tooling_path, is_generated_dependency_path, classify_runtime_path, is_excluded,
}

-- Which paths are delivered: safe ones, neither git's nor the environment's nor the runtime's nor the
-- template's, and generated ones only as an artifact of the runtime or in its vendored tools.
unfoldable pub is_delivered : String → String → Bool
is_delivered value file =
    is_safe_relative_path value file
    && not (
        is_git file
        || is_env file
        || is_runtime_owned_path file
        || is_template_managed_protected_path file)
    && (is_runtime_artifact_deliverable_path file
        || is_vendored_klevar_tooling_path file
        || not (is_generated_dependency_path file))

-- A classification that agrees with itself and with what is delivered.
pub record IsConsistent (value : String) (c : RuntimePathClassification) : Type 0 where
  pub path : c.path ≡ normalize_runtime_path value
  pub delivered : c.deliverable ≡ is_delivered value (normalize_runtime_path value)
  pub synced : is_excluded c.sync ≡ not c.deliverable
  pub local : c.local_only_allowed ≡ true → c.deliverable ≡ false
  pub confined :
      c.deliverable ≡ true → has (split_on b'/' (normalize_runtime_path value)) ".." ≡ false

-- The class of every path is consistent: it is delivered exactly when it is safe, not under the control
-- of git, the environment, the runtime or the template, and not generated unless an artifact or a vendored
-- tool; it is excluded from synchronisation exactly when it is not delivered; what may stay local is not
-- delivered; and no delivered path has a segment `..`.
pub classify_runtime_path-IsConsistent :
    (value : String) → IsConsistent value (classify_runtime_path value)
unfolding classify_runtime_path is_delivered is_safe_relative_path
classify_runtime_path-IsConsistent value = record {
  path = ground arith;
  delivered = ground arith;
  synced = ground arith;
  local = λ h. ground arith;
  confined = λ h. ground arith;
}
