-- ===== src/Runtime/Recover/Budget.antt =====
-- How many bugfix agents a recovery sends.
use trade_compliance_classif.Prelude.{
  ℕ, zero, suc, ◌+◌, ◌*◌, ◌≤◌, ◌≡◌, ◌⊎◌, inl, inr, true, ◌||◌, List, String, if◌then◌else◌, arith,
  Bool-cases,
}
use trade_compliance_classif.Types.{BatchResult}
use trade_compliance_classif.Recovery.{
  failure_signature, runtime_owned_failure_requires_stop, requires_human_security_approval,
  has_non_recoverable_runtime_blocker,
}
use trade_compliance_classif.Runtime.{Runtime}
use trade_compliance_classif.Runtime.Recover.Measure.{IsMeasure, world_of, round-count}
use trade_compliance_classif.Runtime.Recover.{
  Recovery, Attempts, Round, ended, broken, again, rejected, round, go_on, recovery_rounds,
  recover_gate_failure, first_attempts,
}

-- A count of the bugfix agents that were sent: sending one adds one, and nothing else that the recovery calls
-- changes it.
abbrev pub IsCount : {W : Type 0} → Runtime W → (W → ℕ) → Type 0
IsCount runtime count = IsMeasure runtime count suc

module _ {W : Type 0} (runtime : Runtime W) (count : W → ℕ) (counts : IsCount runtime count) where
  module _ (number attempts : ℕ) (implementation : BatchResult) where
    abbrev after : Round W → ℕ
    after r = world_of count r

    one_round :
        (s : Attempts) (w : W)
        → (after (round runtime number attempts implementation s w) ≡ count w)
          ⊎ (after (round runtime number attempts implementation s w) ≡ suc (count w))
    one_round s w = round-count runtime count suc counts number attempts implementation s w

    round-bounds :
        (s : Attempts) (w : W)
        → (count w ≤ after (round runtime number attempts implementation s w))
          × (after (round runtime number attempts implementation s w) ≤ count w + 1)
    round-bounds s w = elim (one_round s w) [
      | inl same ↦ (omega (arith, same), omega (arith, same))
      | inr more ↦ (omega (arith, more), omega (arith, more))
    ]

    go_on-count :
        (most : ℕ) (more : Attempts → W → Recovery × W) (r : Round W)
        → ((s : Attempts) (w : W)
            → (count w ≤ count (more s w).1) × (count (more s w).1 ≤ count w + most))
        → (after r ≤ count (go_on runtime number attempts implementation more r).1)
          × (count (go_on runtime number attempts implementation more r).1 ≤ after r + most)
    go_on-count most more (ended recovery w) h = (omega arith, omega arith)
    go_on-count most more (broken s w) h = (
      omega (arith, counts.finish_keeps "failed" w),
      omega (arith, counts.finish_keeps "failed" w),
    )
    go_on-count most more (again s w) h = h s w

    rounds-count :
        (left : ℕ) (s : Attempts) (w : W)
        → (count w ≤ count (recovery_rounds runtime number attempts implementation left s w).1)
          × (count (recovery_rounds runtime number attempts implementation left s w).1
              ≤ count w + left)
    unfolding recovery_rounds
    rounds-count zero s w = (
      omega (arith, counts.finish_keeps "failed" w),
      omega (arith, counts.finish_keeps "failed" w),
    )
    rounds-count (suc left) s w =
        let (low, high) = round-bounds s w in
        let (up, down) =
          go_on-count left (recovery_rounds runtime number attempts implementation left)
            (round runtime number attempts implementation s w)
            (λ later v. rounds-count left later v) in
        (ground (arith, low, up), ground (arith, high, down))

    rounds-owned :
        (left : ℕ) (s : Attempts) (w : W)
        → runtime_owned_failure_requires_stop (failure_signature s.current_flags rejected) ≡ true
        → count (recovery_rounds runtime number attempts implementation left s w).1 ≡ count w
    unfolding recovery_rounds round
    rounds-owned zero s w stop = counts.finish_keeps "failed" w
    rounds-owned (suc left) s w stop = rw stop (counts.finish_keeps "failed" w)

    -- A recovery sends no bugfix agent when a flag asks for the approval of a human, when one is not recoverable, or when
    -- the runtime itself owns all that failed; otherwise it sends at most four times the attempts that one
    -- signature has, whatever the agents, the validators and the adjudicators answer.
    pub recover_gate_failure-count :
        (flags : List String) (w : W)
        → (count w ≤ count (recover_gate_failure runtime number attempts implementation flags w).1)
          × (count (recover_gate_failure runtime number attempts implementation flags w).1
              ≤ count w
                + (if requires_human_security_approval flags
                      || has_non_recoverable_runtime_blocker flags
                      || runtime_owned_failure_requires_stop (failure_signature flags rejected)
                    then 0
                    else attempts * 4))
    unfolding recover_gate_failure
    recover_gate_failure-count flags w =
        let first = first_attempts runtime number attempts implementation flags in
        let (low, high) = rounds-count (attempts * 4) first w in
        elim (Bool-cases
          (requires_human_security_approval flags || has_non_recoverable_runtime_blocker flags)) [
            | inl stop ↦ (
              ground (arith, stop, counts.finish_keeps "failed" w),
              ground (arith, stop, counts.finish_keeps "failed" w),
            )
            | inr go ↦
                elim (Bool-cases
                  (runtime_owned_failure_requires_stop (failure_signature flags rejected))) [
                    | inl owned ↦
                        let same = rounds-owned (attempts * 4) first w owned in
                        (ground (arith, go, owned, same), ground (arith, go, owned, same))
                    | inr free ↦ (ground (arith, go, low), ground (arith, go, free, high))
                  ]
          ]
