-- ===== src/Findings/Gates.antt =====
-- What the gates' verdicts do to the findings: `recordGateState` of runtime-batch-state.ts.
use trade_compliance_classif.Prelude.{
  ◌≡◌, ap, ◌⊎◌, inl, inr, Bool, true, false, not, ◌&&◌, Option, none, some, List, [], ◌∷◌, map,
  String, Bool-cases, any, filter,
}
use trade_compliance_classif.Prelude.Text.{text_eq, eq_iff}
use trade_compliance_classif.Types.{GateResult}
use trade_compliance_classif.Findings.{RuntimeFinding, RuntimeBatchState, get, put, by_id}
use trade_compliance_classif.Findings.Close.{
  normalize_finding, normalize_canonical_findings, close_by_flags, close_aggregate,
  close_aggregate_findings, quarantine_tooling,
  rebuild_active_findings_from_trusted_latest_evidence, is_trusted_successful_recovery_evidence,
}
use trade_compliance_classif.Findings.State.{
  status_or_open, hard_flags, is_fix_flag, all_warnings, gate_finding, raise_flags, gate_round,
  gate_rounds, all_cleared, close_cleared, transition_findings_for_gates, record_gate_state,
}
use trade_compliance_classif.Flags.{is_blocking_flag}
use trade_compliance_classif.Findings.Maps.{
  last, get-put, get-by_id, Closes, Settles, Settles-refl, Settles-trans, Settles-map,
}
use trade_compliance_classif.Findings.Passes.{
  normalize_finding-Closes, close_by_flags-Closes, close_aggregate-Closes,
  quarantine_tooling-Closes, close_cleared-Closes,
}

-- The findings that the passes after the loop are given.
abbrev pub after_rounds : String → RuntimeBatchState → List GateResult → List RuntimeFinding
after_rounds now state gates = gate_rounds now gates (by_id state.findings)

-- A property of the findings goes through the passes after the loop if it goes through each.
module _ {ℓ} (P : List RuntimeFinding → Type ℓ) (now : String) (state : RuntimeBatchState)
    (gates : List GateResult)
    (cleared : (fs : List RuntimeFinding)
      → P fs
      → P (map (close_cleared (all_cleared state gates) state.current_result now) fs))
    (aggregate : (wiring : Bool) (fs : List RuntimeFinding)
      → P fs
      → P (map (close_aggregate wiring now) fs))
    (tooling : (active : List String) (fs : List RuntimeFinding)
      → P fs
      → P (map (quarantine_tooling active now) fs))
    (normal : (fs : List RuntimeFinding) → P fs → P (map (normalize_finding now) fs)) where
  rebuilt :
      (fs : List RuntimeFinding)
      → P fs
      → P (rebuild_active_findings_from_trusted_latest_evidence now fs state.current_result "gate")
  unfolding rebuild_active_findings_from_trusted_latest_evidence
  rebuilt fs h =
      elim (Bool-cases (is_trusted_successful_recovery_evidence state.current_result "gate")) [
        | inl trusted ↦
            rw trusted (tooling (filter is_blocking_flag state.current_result.flags) fs h)
        | inr untrusted ↦ rw untrusted h
      ]

  pub through_passes :
      P (after_rounds now state gates) → P (record_gate_state now state gates).findings
  unfolding record_gate_state transition_findings_for_gates normalize_canonical_findings
      close_aggregate_findings
  through_passes h = normal _ (rebuilt _ (aggregate _ _ (cleared _ h)))

status_or_open-Settles :
    (o : Option RuntimeFinding) (g : RuntimeFinding)
    → g.status ≡ status_or_open o
    → Settles o (some g)
status_or_open-Settles none g e = tt
status_or_open-Settles (some f) g e = λ h. rw e at h

raise-Settles :
    (now : String) (gate : GateResult) (flags : List String) (id : String)
    (fs : List RuntimeFinding)
    → Settles (get id fs) (get id (raise_flags now gate flags fs))
unfolding raise_flags
raise-Settles now gate [] id fs = Settles-refl (get id fs)
raise-Settles now gate (flag ∷ flags) id fs =
    Settles-trans (get id fs) (get id (put (gate_finding now gate flag fs) fs)) _
      (raised (Bool-cases (text_eq flag id)))
      (raise-Settles now gate flags id (put (gate_finding now gate flag fs) fs))
  where
    raised :
        (text_eq flag id ≡ true) ⊎ (text_eq flag id ≡ false)
        → Settles (get id fs) (get id (put (gate_finding now gate flag fs) fs))
    raised (inl here) =
        rw (get-put id (gate_finding now gate flag fs) fs, here)
          (status_or_open-Settles (get id fs) (gate_finding now gate flag fs)
            (ap (λ i. status_or_open (get i fs)) ((eq_iff flag id).0 here)))
    raised (inr there) =
        rw (get-put id (gate_finding now gate flag fs) fs, there) (Settles-refl (get id fs))

gate_round-Settles :
    (now : String) (gate : GateResult) (id : String) (fs : List RuntimeFinding)
    → Settles (get id fs) (get id (gate_round now gate fs))
unfolding gate_round
gate_round-Settles now gate id fs =
    round (Bool-cases (not gate.passed && all_warnings gate))
      (Bool-cases (any is_fix_flag gate.flags))
  where
    raised : List RuntimeFinding
    raised = raise_flags now gate (hard_flags gate) fs

    round :
        ((not gate.passed && all_warnings gate) ≡ true)
          ⊎ ((not gate.passed && all_warnings gate) ≡ false)
        → (any is_fix_flag gate.flags ≡ true) ⊎ (any is_fix_flag gate.flags ≡ false)
        → Settles (get id fs) (get id (gate_round now gate fs))
    round (inl skip) b = rw skip (Settles-refl (get id fs))
    round (inr go) (inl fix) =
        rw (go, fix)
          (Settles-trans (get id fs) (get id raised) _
            (raise-Settles now gate (hard_flags gate) id fs)
            (Settles-map (close_by_flags gate.flags now) id raised
              (close_by_flags-Closes gate.flags now)))
    round (inr go) (inr plain) = rw (go, plain) (raise-Settles now gate (hard_flags gate) id fs)

gate_rounds-Settles :
    (now : String) (gates : List GateResult) (id : String) (fs : List RuntimeFinding)
    → Settles (get id fs) (get id (gate_rounds now gates fs))
unfolding gate_rounds
gate_rounds-Settles now [] id fs = Settles-refl (get id fs)
gate_rounds-Settles now (gate ∷ gates) id fs =
    Settles-trans (get id fs) (get id (gate_round now gate fs)) _
      (gate_round-Settles now gate id fs)
      (gate_rounds-Settles now gates id (gate_round now gate fs))

-- The gates' verdicts lose no finding and reopen none: whatever the state held under an id is still
-- held, and is open only if it was open before.
pub record_gate_state-Settles :
    (now : String) (state : RuntimeBatchState) (gates : List GateResult) (id : String)
    → Settles (last id state.findings) (get id (record_gate_state now state gates).findings)
record_gate_state-Settles now state gates id =
    through_passes (λ fs. Settles (last id state.findings) (get id fs)) now state gates
      (λ fs h.
        then_map (close_cleared (all_cleared state gates) state.current_result now) fs
          (close_cleared-Closes (all_cleared state gates) state.current_result now) h)
      (λ wiring fs h.
        then_map (close_aggregate wiring now) fs (close_aggregate-Closes wiring now) h)
      (λ active fs h.
        then_map (quarantine_tooling active now) fs (quarantine_tooling-Closes active now) h)
      (λ fs h. then_map (normalize_finding now) fs (normalize_finding-Closes now) h)
      (rw (get-by_id id state.findings) at
        (gate_rounds-Settles now gates id (by_id state.findings)))
  where
    then_map :
        (h : RuntimeFinding → RuntimeFinding) (fs : List RuntimeFinding)
        → Closes h
        → Settles (last id state.findings) (get id fs)
        → Settles (last id state.findings) (get id (map h fs))
    then_map h fs c s =
        Settles-trans (last id state.findings) (get id fs) (get id (map h fs)) s
          (Settles-map h id fs c)
