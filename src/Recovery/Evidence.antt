-- ===== src/Recovery/Evidence.antt =====
-- What a recovery does to the test evidence of a result.
use trade_compliance_classif.Prelude.{
  ℕ, false, Option-cases, ◌≡◌, refl, ap, ◌∙◌, ◌⊎◌, inl, inr, Bool, true, Option, none, some, List,
  [], ◌∷◌, String, if◌then◌else◌, arith, Bool-cases,
}
use trade_compliance_classif.Prelude.Text.{text_eq, eq_iff}
use trade_compliance_classif.Prelude.Sets.{has}
use trade_compliance_classif.Types.{TestEvidence, BatchResult}
use trade_compliance_classif.Recovery.Merge.{
  bugfix_can_replace_red_evidence, corrected_source_manifest_path,
}
use trade_compliance_classif.Recovery.Parts.{
  Tests, phase, set_phase, unset_phase, assign, runs_and_passes, stronger_test_evidence,
  merge_recovered_tests,
}
use trade_compliance_classif.Recovery.Recovered.{
  is_unusable, without_manifest, merge_recovered_result, merge_recovered_result_from_disk,
}

phase-set_phase :
    (m n : String) (e : TestEvidence) (tests : Tests)
    → phase m (set_phase n e tests) ≡ (if text_eq n m then some e else phase m tests)
unfolding phase set_phase
phase-set_phase m n e [] = ground arith
phase-set_phase m n e ((k, old) ∷ tests) =
    ground (arith, phase-set_phase m n e tests, eq_iff k n, eq_iff k m, eq_iff n m)

phase-unset_phase :
    (m n : String) (tests : Tests)
    → phase m (unset_phase n tests) ≡ (if text_eq n m then none else phase m tests)
unfolding phase unset_phase
phase-unset_phase m n [] = ground arith
phase-unset_phase m n ((k, e) ∷ tests) =
    ground (arith, phase-unset_phase m n tests, eq_iff k n, eq_iff k m, eq_iff n m)

phase-assign :
    (m n : String) (o : Option TestEvidence) (tests : Tests)
    → phase m (assign n o tests) ≡ (if text_eq n m then o else phase m tests)
phase-assign m n none tests = phase-unset_phase m n tests
phase-assign m n (some e) tests = phase-set_phase m n e tests

abbrev proofs : List String
proofs = "green" ∷ "regression" ∷ "e2e" ∷ []

-- The evidence that three assignments leave, where they are all that can set the phase.
phase-assign_thrice :
    (m : String) (o : String → Option TestEvidence) (tests : Tests)
    → has proofs m ≡ true
    → phase m (
        assign "e2e"
          (o "e2e")
          (assign "regression" (o "regression") (assign "green" (o "green") tests)))
      ≡ o m
phase-assign_thrice m o tests h =
    let green = assign "green" (o "green") tests in
    let regression = assign "regression" (o "regression") green in
    elim (Bool-cases (text_eq "e2e" m)) [
      | inl same ↦
          rw (phase-assign m "e2e" (o "e2e") regression, same) (ap o ((eq_iff "e2e" m).0 same))
      | inr n1 ↦
          rw (phase-assign m "e2e" (o "e2e") regression, n1)
            (elim (Bool-cases (text_eq "regression" m)) [
              | inl same ↦
                  rw (phase-assign m "regression" (o "regression") green, same)
                    (ap o ((eq_iff "regression" m).0 same))
              | inr n2 ↦
                  rw (phase-assign m "regression" (o "regression") green, n2)
                    let same : text_eq "green" m ≡ true = ground arith in
                      rw (phase-assign m "green" (o "green") tests, same)
                        (ap o ((eq_iff "green" m).0 same))
            ])
    ]

phase-merge_recovered_tests :
    (name : String) (i b : Tests) (allow : Bool)
    → has proofs name ≡ true
    → phase name (merge_recovered_tests i b allow)
      ≡ stronger_test_evidence (phase name i) (phase name b)
unfolding merge_recovered_tests
phase-merge_recovered_tests name i b allow h =
    phase-assign_thrice name (λ n. stronger_test_evidence (phase n i) (phase n b)) _ h

stronger_keeps :
    (o : Option TestEvidence) (e : TestEvidence)
    → runs_and_passes e ≡ true
    → (kept : TestEvidence) × (stronger_test_evidence (some e) o ≡ some kept)
      × (runs_and_passes kept ≡ true)
      × ((kept ≡ e) ⊎ (o ≡ some kept))
stronger_keeps none e h = (e, refl, h, inl refl)
stronger_keeps (some c) e h = elim (Bool-cases (runs_and_passes c)) [
  | inl good ↦ (c, rw good (ground arith), good, inr refl)
  | inr bad ↦ (e, ground arith, h, inl refl)
]

merged_tests :
    (implementation bugfix : BatchResult) (name : String)
    → has proofs name ≡ true
    → phase name (merge_recovered_result implementation bugfix).tests
      ≡ stronger_test_evidence (phase name implementation.tests) (phase name bugfix.tests)
unfolding merge_recovered_result
merged_tests i b name h =
    phase-merge_recovered_tests name i.tests b.tests (bugfix_can_replace_red_evidence b) h

-- What a recovery keeps of passing evidence of a phase, and whose evidence it is then.
abbrev pub KeepsPassing : String → TestEvidence → BatchResult → BatchResult → Type 0
KeepsPassing name e bugfix merged =
    (kept : TestEvidence) × (phase name merged.tests ≡ some kept)
    × (runs_and_passes kept ≡ true)
    × ((kept ≡ e) ⊎ (phase name bugfix.tests ≡ some kept))

-- A manifest of the batch that the bugfix corrected and that can be used takes the place of the result.
abbrev pub IsReplaced :
    (String → BatchResult) → ℕ → BatchResult → BatchResult → BatchResult → Type 0
IsReplaced read number implementation bugfix corrected =
    (path : String) × (corrected_source_manifest_path number implementation bugfix ≡ some path)
    × (corrected ≡ read path)
    × (is_unusable corrected ≡ false)

-- Evidence of the phases green, regression and e2e that names a command to run and its passing is kept by
-- a recovery, or gives way to the bugfix's that names such a command and its passing, unless a usable
-- manifest that the bugfix corrected replaces the result: then the evidence is the stronger one of the
-- manifest's and the bugfix's.
pub merge_recovered_result_from_disk-tests :
    (read : String → BatchResult) (number : ℕ) (implementation bugfix : BatchResult) (name : String)
    (e : TestEvidence)
    → has ("green" ∷ "regression" ∷ "e2e" ∷ []) name ≡ true
    → phase name implementation.tests ≡ some e
    → runs_and_passes e ≡ true
    → let merged = merge_recovered_result_from_disk read number implementation bugfix in
      KeepsPassing name e bugfix merged
      ⊎ ((corrected : BatchResult) × IsReplaced read number implementation bugfix corrected
          × (phase name merged.tests
              ≡ stronger_test_evidence (phase name corrected.tests) (phase name bugfix.tests)))
unfolding merge_recovered_result_from_disk
merge_recovered_result_from_disk-tests read number i b name e h before good =
    let (kept, same, passes, origin) = stronger_keeps (phase name b.tests) e good in
    elim (Option-cases (corrected_source_manifest_path number i b)) [
      | inl nothing ↦
          rw nothing (inl (kept, merged_tests i b name h ∙ rw before same, passes, origin))
      | inr (path, found) ↦ elim (Bool-cases (is_unusable (read path))) [
        | inl bad ↦
            rw (found, bad)
              (inl (
                kept,
                merged_tests i (without_manifest path b) name h ∙ rw before same,
                passes,
                origin,
              ))
        | inr usable ↦
            rw (found, usable)
              (inr (
                read path,
                (path, refl, refl, usable),
                merged_tests (read path) (without_manifest path b) name h,
              ))
      ]
    ]
