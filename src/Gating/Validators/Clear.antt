-- ===== src/Gating/Validators/Clear.antt =====
-- What the gate for the changed paths lets through.
use trade_compliance_classif.Prelude.{
  ◌≡◌, refl, Bool, not, ◌&&◌, ◌||◌, List, [], ◌∷◌, ◌++◌, String, all, is_empty, arith,
}
use trade_compliance_classif.Prelude.Text.{to_lower}
use trade_compliance_classif.Types.{BatchResult}
use trade_compliance_classif.Paths.{
  normalize_runtime_path, is_safe_relative_path, is_runtime_owned_path,
  is_template_managed_protected_path, is_generated_dependency_path, matches_any_policy_pattern,
}
use trade_compliance_classif.Gating.Validators.{
  PathPolicy, is_evidence_backed_protected_context_update, path_flags, all_path_flags,
  validate_paths,
}

abbrev is_hit : PathPolicy → String → Bool
is_hit policy file =
    matches_any_policy_pattern file policy.blocked_paths
    || matches_any_policy_pattern file policy.protected_paths
    || is_generated_dependency_path file

-- A safe path, not the runtime's own; and either the result gives the evidence of an update of the protected
-- context for it, or it is not managed by the template and the policy lists it as allowed or has nothing
-- against it.
abbrev pub is_clear : PathPolicy → String → String → Bool
is_clear policy text raw =
    let file = normalize_runtime_path raw in
    let policy_file = to_lower file in
    is_safe_relative_path raw file
    && not (is_runtime_owned_path policy_file)
    && (is_evidence_backed_protected_context_update file text
        || not (is_template_managed_protected_path policy_file)
          && (matches_any_policy_pattern policy_file policy.allowed_generated_paths
              || not (is_hit policy policy_file)))

path_flags-is_clear :
    (policy : PathPolicy) (text raw : String)
    → is_empty (path_flags policy text raw) ≡ is_clear policy text raw
unfolding path_flags
path_flags-is_clear policy text raw = ground arith

is_empty-append : (xs ys : List String) → is_empty (xs ++ ys) ≡ (is_empty xs && is_empty ys)
is_empty-append [] ys = refl
is_empty-append (x ∷ xs) ys = refl

-- The gate for the changed paths passes exactly when each path is clear.
pub validate_paths-is_clear :
    (policy : PathPolicy) (json : BatchResult → String) (files : List String) (result : BatchResult)
    → (validate_paths policy json files result).passed ≡ all (is_clear policy (json result)) files
unfolding validate_paths all_path_flags
validate_paths-is_clear policy json [] result = refl
validate_paths-is_clear policy json (file ∷ files) result = ground (
  arith,
  is_empty-append (path_flags policy (json result) file)
      (all_path_flags policy (json result) files),
  path_flags-is_clear policy (json result) file,
  validate_paths-is_clear policy json files result,
)
