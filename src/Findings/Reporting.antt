-- ===== src/Findings/Reporting.antt =====
-- Which findings are open once an agent's result is imported: what it reports stays open until there
-- is evidence about it.
use trade_compliance_classif.Prelude.{
  ◌≡◌, refl, ap, ◌∙◌, ◌⊎◌, inl, inr, true, false, Option, none, some, List, [], ◌∷◌, ◌++◌, map,
  String, arith, Bool-cases, or-true, Option-cases, any, All, filter,
}
use trade_compliance_classif.Prelude.Text.{text_eq, eq_iff, to_upper}
use trade_compliance_classif.Prelude.Sets.{has, set_add_all, has-set_add_all}
use trade_compliance_classif.Types.{Batch, BatchResult}
use trade_compliance_classif.Findings.{
  open_finding, RuntimeFinding, RuntimeBatchState, is_open, get,
}
use trade_compliance_classif.Findings.Evidence.{has_fix_evidence_from_flags}
use trade_compliance_classif.Findings.Close.{
  normalize_finding, merge_findings, quarantine_runtime_owned, close_by_flags, active_blocking,
  close_on_validation, close_aggregate, quarantine_tooling, is_product_owned_finding,
  is_product_code, is_runtime_owned_finding, runtime_codes, path_codes, protected_codes,
}
use trade_compliance_classif.Findings.State.{
  canonicalize_batch_result_for_runtime, truthy_list, evidence_for_finding, findings_from_result,
  import_agent_result_to_state,
}
use trade_compliance_classif.Flags.{flag_code, is_blocking_flag, runs}
use trade_compliance_classif.Findings.Maps.{
  last, status_of, last-append, get-merge_findings, IsOpenIn, map-IsOpenIn,
}
use trade_compliance_classif.Findings.Passes.{
  normalize_finding-Closes, quarantine_runtime_owned-Closes, close_by_flags-Closes,
  close_on_validation-Closes, close_aggregate-Closes, quarantine_tooling-Closes, IsProductId,
  normalize_finding-open, quarantine_runtime_owned-open, close_by_flags-open,
  close_on_validation-open, close_aggregate-open, quarantine_tooling-open,
}
use trade_compliance_classif.Findings.Import.{through_import}

not_product_codes :
    All (λ c. is_product_code c ≡ false) runtime_codes
    × All (λ c. is_product_code c ≡ false) path_codes
    × All (λ c. is_product_code c ≡ false) protected_codes
    × (is_product_code "PLAN_REJECTED" ≡ false)
unfolding is_product_code runs
not_product_codes = (
  (refl, (refl, (refl, (refl, (refl, (refl, (refl, tt))))))),
  (refl, (refl, (refl, (refl, (refl, (refl, tt)))))),
  (refl, (refl, (refl, tt))),
  refl,
)

module _ (id : String) where
  any_code :
      (codes : List String)
      → any (text_eq (to_upper (flag_code id))) codes ≡ true
      → All (λ c. is_product_code c ≡ false) codes
      → is_product_owned_finding id ≡ false
  unfolding is_product_owned_finding
  any_code [] h a = cc
  any_code (c ∷ codes) h (n, a) = elim (Bool-cases (text_eq (to_upper (flag_code id)) c)) [
    | inl e ↦ rw ((eq_iff (to_upper (flag_code id)) c).0 e) n
    | inr e ↦ any_code codes (rw e at h) a
  ]

  not_any :
      (codes : List String)
      → is_product_owned_finding id ≡ true
      → All (λ c. is_product_code c ≡ false) codes
      → any (text_eq (to_upper (flag_code id))) codes ≡ false
  not_any codes owned a = elim (Bool-cases (any (text_eq (to_upper (flag_code id))) codes)) [
    | inl h ↦ absurd (cc (any_code codes h a))
    | inr h ↦ h
  ]

  not_planned :
      is_product_owned_finding id ≡ true → text_eq (to_upper (flag_code id)) "PLAN_REJECTED" ≡ false
  not_planned owned = ground (arith, not_any ("PLAN_REJECTED" ∷ []) owned (not_product_codes.3, tt))

  -- No finding is both the product's and the runtime's.
  product_not_runtime : is_product_owned_finding id ≡ true → is_runtime_owned_finding id ≡ false
  unfolding is_runtime_owned_finding
  product_not_runtime owned = rw (
    not_any runtime_codes owned not_product_codes.0,
    not_any path_codes owned not_product_codes.1,
    not_any protected_codes owned not_product_codes.2,
    not_planned owned,
  )

last-map :
    (make : String → RuntimeFinding)
    → ((i : String) → (make i).id ≡ i)
    → ((i : String) → is_open (make i).status ≡ true)
    → (id : String) (ids : List String)
    → (has ids id ≡ true → (f : RuntimeFinding) × (last id (map make ids) ≡ some f))
      × ((f : RuntimeFinding) → last id (map make ids) ≡ some f → is_open f.status ≡ true)
last-map make named opened id [] = (λ h. cc, λ f e. cc)
last-map make named opened id (i ∷ ids) = (
  λ h. elim (Option-cases (last id (map make ids))) [
    | inl none_later ↦
        (make i, ground (arith, named i, eq_iff i id, (last-map make named opened id ids).0))
    | inr (f, later) ↦ (f, rw later)
  ],
  λ f e. ground (arith, opened i, (last-map make named opened id ids).1 f),
)

-- The findings of a result are open, and there is one for each of its blocking flags.
reported :
    (now source id : String) (result : BatchResult)
    → (has (filter is_blocking_flag result.flags) id ≡ true
        → (f : RuntimeFinding) × (last id (findings_from_result now source result) ≡ some f))
      × ((f : RuntimeFinding)
          → last id (findings_from_result now source result) ≡ some f
          → is_open f.status ≡ true)
unfolding findings_from_result
reported now source id result =
    let ids =
      set_add_all (truthy_list result.failure_type) (filter is_blocking_flag result.flags) in
    let law =
      last-map
        (λ i. record {
          id = i;
          source = source;
          status = open_finding;
          evidence = evidence_for_finding result i;
          last_checked_at = now;
        })
        (λ i. refl) (λ i. refl) id ids in
    (
      λ h. law.0 (
          has-set_add_all (truthy_list result.failure_type) (filter is_blocking_flag result.flags)
            id
          ∙ or-true (has (truthy_list result.failure_type) id) _ h),
      law.1,
    )

merged-open :
    (id : String) (fs : List RuntimeFinding) (f : RuntimeFinding)
    → last id fs ≡ some f
    → is_open f.status ≡ true
    → IsOpenIn id (merge_findings fs)
merged-open id fs f e o =
    found (get id (merge_findings fs)) refl (get-merge_findings id fs ∙ ap status_of e)
  where
    found :
        (m : Option RuntimeFinding)
        → get id (merge_findings fs) ≡ m
        → status_of m ≡ some f.status
        → IsOpenIn id (merge_findings fs)
    found none at_id s = cc
    found (some g) at_id s = (g, at_id, ground arith)

-- What an agent reports about the product, or has reported before, stays reported: an id of the
-- product's own that is a blocking flag of the canonical result, or that was open in the state, is
-- open once the result is imported, unless a flag of the canonical result is evidence of its fix.
pub import_agent_result_to_state_open :
    (id now : String) (batch : Batch) (source : String) (raw : BatchResult)
    (base : RuntimeBatchState)
    → IsProductId id
    → (has
          (filter is_blocking_flag
            (canonicalize_batch_result_for_runtime batch raw base.findings).flags)
          id
        ≡ true)
      ⊎ ((f : RuntimeFinding) × (last id base.findings ≡ some f) × (is_open f.status ≡ true))
    → has_fix_evidence_from_flags
        (canonicalize_batch_result_for_runtime batch raw base.findings).flags
        id
      ≡ false
    → IsOpenIn id (import_agent_result_to_state now batch source raw base).findings
unfolding import_agent_result_to_state
import_agent_result_to_state_open id now batch source raw base p why unfixed =
    through_import (IsOpenIn id) now source result
      (λ fs.
        map-IsOpenIn (quarantine_runtime_owned now) id fs
          (quarantine_runtime_owned-Closes now).same_id
          (λ f same o.
            quarantine_runtime_owned-open id now p f same o (product_not_runtime id p.owned)))
      (λ fs.
        map-IsOpenIn (close_by_flags result.flags now) id fs
          (close_by_flags-Closes result.flags now).same_id
          (λ f same o. close_by_flags-open id now p f same o result.flags unfixed))
      (λ fs.
        map-IsOpenIn (close_on_validation (active_blocking result) now) id fs
          (close_on_validation-Closes (active_blocking result) now).same_id
          (λ f same o. close_on_validation-open id now p f same o (active_blocking result)))
      (λ wiring fs.
        map-IsOpenIn (close_aggregate wiring now) id fs (close_aggregate-Closes wiring now).same_id
          (λ f same o. close_aggregate-open id now p f same o wiring))
      (λ active fs.
        map-IsOpenIn (quarantine_tooling active now) id fs
          (quarantine_tooling-Closes active now).same_id
          (λ f same o. quarantine_tooling-open id now p f same o active))
      (λ fs.
        map-IsOpenIn (normalize_finding now) id fs (normalize_finding-Closes now).same_id
          (λ f same o. normalize_finding-open id now p f same o))
      base.findings (started why)
  where
    result : BatchResult
    result = canonicalize_batch_result_for_runtime batch raw base.findings

    new : List RuntimeFinding
    new = findings_from_result now source result

    started :
        (has (filter is_blocking_flag result.flags) id ≡ true)
          ⊎ ((f : RuntimeFinding) × (last id base.findings ≡ some f) × (is_open f.status ≡ true))
        → IsOpenIn id (merge_findings (base.findings ++ new))
    started (inl h) =
        let (f, e) = (reported now source id result).0 h in
        merged-open id (base.findings ++ new) f (last-append id base.findings new ∙ rw e)
          ((reported now source id result).1 f e)
    started (inr (f, e, o)) = elim (Option-cases (last id new)) [
      | inl absent ↦
          merged-open id (base.findings ++ new) f (last-append id base.findings new ∙ rw absent e) o
      | inr (g, e') ↦
          merged-open id (base.findings ++ new) g (last-append id base.findings new ∙ rw e')
            ((reported now source id result).1 g e')
    ]
