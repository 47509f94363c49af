-- ===== src/Contracts/Journal.antt =====
-- What the contracts of results promise.
use trade_compliance_classif.Prelude.{
  ◌≡◌, ◌↔◌, refl, Bool, true, false, not, ◌&&◌, Option, none, some, List, [], ◌∷◌, ◌++◌, String,
  ◌==◌, ==_iff, any, filter, is_empty, if◌then◌else◌, arith,
}
use trade_compliance_classif.Prelude.Text.{to_upper}
use trade_compliance_classif.Prelude.Regex.{matches}
use trade_compliance_classif.Types.{
  ResultStatus, success, partial_success, failure, bug_found, invalid_result, BatchResult, Batch,
}
use trade_compliance_classif.Findings.{RuntimeFinding}
use trade_compliance_classif.Contracts.{
  truthy, is_failure, invalid_shape, failure_flags, commit_flags, contract_flags, validate_contract,
  validate_journal_contract, journal_flags, journal_entry_confirmed, journal_gate_confirmed,
  deterministic_journal_result, deterministic_journal_eligible, write_deterministic_journal,
  has_flag,
}

abbrev pub is_none : Option String → Bool
is_none none = true
is_none (some s) = false

-- A result that the contract accepts: supported, with no word of a malformed part, with a failure type
-- only if it failed, and without a commit of its own. A failure never is accepted.
pub record IsSound (result : BatchResult) : Type 0 where
  pub schema : result.schema_version ≡ 1
  pub shape : any (matches invalid_shape) result.flags ≡ false
  pub lucky : is_failure result.status ≡ false
  pub untyped : is_none (truthy result.failure_type) ≡ true
  pub uncommitted : is_none result.commit ≡ true

filter-none : {A : Type 0} (p : A → Bool) (xs : List A) → is_empty (filter p xs) ≡ not (any p xs)
filter-none p [] = refl
filter-none p (x ∷ xs) = ground (arith, filter-none p xs)

is_empty-append : {A : Type 0} (xs ys : List A) → is_empty (xs ++ ys) ≡ (is_empty xs && is_empty ys)
is_empty-append [] ys = refl
is_empty-append (x ∷ xs) ys = refl

failure_flags-empty :
    (s : ResultStatus) (t : Option String)
    → is_empty (failure_flags s t) ≡ (not (is_failure s) && is_none t)
failure_flags-empty failure none = refl
failure_flags-empty failure (some t) = refl
failure_flags-empty success none = refl
failure_flags-empty success (some t) = refl
failure_flags-empty partial_success none = refl
failure_flags-empty partial_success (some t) = refl
failure_flags-empty bug_found none = refl
failure_flags-empty bug_found (some t) = refl
failure_flags-empty invalid_result none = refl
failure_flags-empty invalid_result (some t) = refl

commit_flags-empty : (c : Option String) → is_empty (commit_flags c) ≡ is_none c
commit_flags-empty none = refl
commit_flags-empty (some c) = refl

contract_passed :
    (result : BatchResult)
    → (validate_contract result).passed ≡ (
        (result.schema_version == 1)
        && (not (any (matches invalid_shape) result.flags)
            && ((not (is_failure result.status) && is_none (truthy result.failure_type))
                && is_none result.commit)))
unfolding validate_contract contract_flags
contract_passed result =
    rw
      (
        is_empty-append,
        is_empty-append,
        is_empty-append,
        filter-none (matches invalid_shape) result.flags,
        failure_flags-empty result.status (truthy result.failure_type),
        commit_flags-empty result.commit,
      )
      (ground arith)

-- The contract accepts a result if and only if it is sound.
pub validate_contract-IsSound :
    (result : BatchResult) → ((validate_contract result).passed ≡ true) ↔ IsSound result
validate_contract-IsSound result =
    let same = contract_passed result in
    (
      λ h. record {
        schema = (==_iff result.schema_version 1).0 (ground arith);
        shape = ground arith;
        lucky = ground arith;
        untyped = ground arith;
        uncommitted = ground arith;
      },
      λ s.
          let e = (==_iff result.schema_version 1).1 s.schema in
          ground (arith, s.shape, s.lucky, s.untyped, s.uncommitted),
    )

-- The result of the deterministic journal always meets the journal's contract, with the confirmations it
-- carries and also without them: its flags tell. So the fast path answers whenever the batch is eligible.
pub write_deterministic_journal-eligible :
    (enabled : Bool) (batch : Batch) (result : BatchResult) (findings : List RuntimeFinding)
    → ((validate_journal_contract false false (deterministic_journal_result batch)).passed ≡ true)
      × (write_deterministic_journal enabled batch result findings ≡ (
          if deterministic_journal_eligible enabled batch result findings
          then some (deterministic_journal_result batch)
          else none))
unfolding write_deterministic_journal validate_journal_contract journal_flags
    journal_entry_confirmed journal_gate_confirmed deterministic_journal_result has_flag to_upper
write_deterministic_journal-eligible enabled batch result findings = (refl, ground arith)
