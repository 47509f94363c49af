-- ===== src/Findings/Raising.antt =====
-- Which findings are open once the gates' verdicts are recorded: what a gate reports stays open until
-- there is evidence about it.
use trade_compliance_classif.Prelude.{
  ◌≡◌, refl, sym, ap, ◌∙◌, ◌⊎◌, inl, inr, Bool, true, false, not, ◌&&◌, Option, none, some, List,
  [], ◌∷◌, map, String, arith, Bool-cases, Option-cases, any, all, filter,
}
use trade_compliance_classif.Prelude.Text.{text_eq, eq_iff, starts_with}
use trade_compliance_classif.Prelude.Sets.{has}
use trade_compliance_classif.Types.{GateResult}
use trade_compliance_classif.Findings.{RuntimeFinding, RuntimeBatchState, is_open, get, put, by_id}
use trade_compliance_classif.Findings.Evidence.{has_fix_evidence_from_flags}
use trade_compliance_classif.Findings.Close.{
  normalize_finding, close_by_flags, close_aggregate, quarantine_tooling,
}
use trade_compliance_classif.Findings.State.{
  status_or_open, hard_flags, is_fix_flag, all_warnings, gate_finding, raise_flags, gate_round,
  gate_rounds, all_cleared, close_cleared, record_gate_state,
}
use trade_compliance_classif.Flags.{is_warning_flag, is_positive_flag}
use trade_compliance_classif.Findings.Maps.{
  last, map_option, get-put, get-by_id, get-map, IsOpenIn, map-IsOpenIn,
}
use trade_compliance_classif.Findings.Passes.{
  normalize_finding-Closes, close_by_flags-Closes, close_aggregate-Closes,
  quarantine_tooling-Closes, close_cleared-Closes, IsProductId, normalize_finding-open,
  close_by_flags-open, close_aggregate-open, quarantine_tooling-open, close_cleared-open,
}
use trade_compliance_classif.Findings.Gates.{through_passes}

-- Under the id there is an open finding, or none yet.
abbrev pub NotClosed : Option RuntimeFinding → Type 0
NotClosed none = Unit
NotClosed (some f) = is_open f.status ≡ true

no_hard_flags_in :
    (gate : String) (id : String) (flags : List String)
    → all (is_warning_flag (some gate)) flags ≡ true
    → has
        (filter
          (λ flag.
            not (is_warning_flag (some gate) flag)
            && not (is_positive_flag flag)
            && not (starts_with flag "RECOVERED_"))
          flags)
        id
      ≡ false
no_hard_flags_in gate id [] h = refl
no_hard_flags_in gate id (flag ∷ flags) h = ground (arith, no_hard_flags_in gate id flags)

no_hard_flags :
    (gate : GateResult) (id : String) → all_warnings gate ≡ true → has (hard_flags gate) id ≡ false
unfolding all_warnings hard_flags
no_hard_flags gate id h = no_hard_flags_in gate.name id gate.flags h

open-NotClosed : (id : String) (fs : List RuntimeFinding) → IsOpenIn id fs → NotClosed (get id fs)
open-NotClosed id fs (f, found, o) = rw found o

module _ (id now : String) (p : IsProductId id) where
  put-open :
      (gate : GateResult) (flag : String) (fs : List RuntimeFinding)
      → NotClosed (get id fs)
      → (text_eq flag id ≡ true) ⊎ IsOpenIn id fs
      → IsOpenIn id (put (gate_finding now gate flag fs) fs)
  put-open gate flag fs n why = elim (Bool-cases (text_eq flag id)) [
    | inl here ↦ (
      gate_finding now gate flag fs,
      get-put id (gate_finding now gate flag fs) fs ∙ rw here,
      rw ((eq_iff flag id).0 here) (opened (get id fs) n),
    )
    | inr there ↦ elim why [
      | inl here ↦ absurd' (sym here ∙ there)
      | inr (f, found, o) ↦ (f, get-put id (gate_finding now gate flag fs) fs ∙ rw there found, o)
    ]
  ]
    where
      opened : (o : Option RuntimeFinding) → NotClosed o → is_open (status_or_open o) ≡ true
      opened none h = refl
      opened (some f) h = h

      absurd' : {A : Type 0} → true ≡ false → A
      absurd' e = cc

  put-none :
      (gate : GateResult) (flag : String) (fs : List RuntimeFinding)
      → text_eq flag id ≡ false
      → get id (put (gate_finding now gate flag fs) fs) ≡ get id fs
  put-none gate flag fs there = get-put id (gate_finding now gate flag fs) fs ∙ rw there

  -- Raising flags keeps what is open open, and opens what is among them.
  raise-open :
      (gate : GateResult) (flags : List String) (fs : List RuntimeFinding)
      → NotClosed (get id fs)
      → (has flags id ≡ true) ⊎ IsOpenIn id fs
      → IsOpenIn id (raise_flags now gate flags fs)
  unfolding raise_flags
  raise-open gate [] fs n (inl h) = cc
  raise-open gate [] fs n (inr o) = o
  raise-open gate (flag ∷ flags) fs n why = elim (Bool-cases (text_eq flag id)) [
    | inl here ↦
        let o = put-open gate flag fs n (inl here) in
        raise-open gate flags (put (gate_finding now gate flag fs) fs) (open-NotClosed id _ o)
          (inr o)
    | inr there ↦ elim why [
      | inl h ↦
          raise-open gate flags (put (gate_finding now gate flag fs) fs)
            (rw (put-none gate flag fs there) n) (inl (ground arith))
      | inr before ↦
          let o = put-open gate flag fs n (inr before) in
          raise-open gate flags (put (gate_finding now gate flag fs) fs) (open-NotClosed id _ o)
            (inr o)
    ]
  ]

  raise-absent :
      (gate : GateResult) (flags : List String) (fs : List RuntimeFinding)
      → has flags id ≡ false
      → get id (raise_flags now gate flags fs) ≡ get id fs
  unfolding raise_flags
  raise-absent gate [] fs h = refl
  raise-absent gate (flag ∷ flags) fs h =
      raise-absent gate flags (put (gate_finding now gate flag fs) fs) (ground arith)
      ∙ put-none gate flag fs (ground arith)

  -- A round of the loop, for a gate whose flags hold no evidence about the id.
  module _ (gate : GateResult) (fs : List RuntimeFinding) (n : NotClosed (get id fs))
      (unfixed : has_fix_evidence_from_flags gate.flags id ≡ false) where
    fixing-open :
        (gs : List RuntimeFinding)
        → IsOpenIn id gs
        → IsOpenIn id (map (close_by_flags gate.flags now) gs)
    fixing-open gs =
        map-IsOpenIn (close_by_flags gate.flags now) id gs
          (close_by_flags-Closes gate.flags now).same_id
          (λ f same o. close_by_flags-open id now p f same o gate.flags unfixed)

    round-open :
        (has (hard_flags gate) id ≡ true) ⊎ IsOpenIn id fs → IsOpenIn id (gate_round now gate fs)
    unfolding gate_round
    round-open why = elim (Bool-cases (not gate.passed && all_warnings gate)) [
      | inl skip ↦ rw skip (elim why [
        | inl h ↦ absurd (hard_but_skipped (all_warnings gate) skip refl h)
        | inr o ↦ o
      ])
      | inr go ↦ elim (Bool-cases (any is_fix_flag gate.flags)) [
        | inl fix ↦ rw (go, fix) (fixing-open _ (raise-open gate (hard_flags gate) fs n why))
        | inr plain ↦ rw (go, plain) (raise-open gate (hard_flags gate) fs n why)
      ]
    ]
      where
        hard_but_skipped :
            (b : Bool)
            → (not gate.passed && b) ≡ true
            → all_warnings gate ≡ b
            → has (hard_flags gate) id ≡ true
            → ⊥
        hard_but_skipped true skip e h = cc (no_hard_flags gate id e)
        hard_but_skipped false skip e h = ground arith

  round-absent :
      (gate : GateResult) (fs : List RuntimeFinding)
      → has (hard_flags gate) id ≡ false
      → get id fs ≡ none
      → get id (gate_round now gate fs) ≡ none
  unfolding gate_round
  round-absent gate fs h e = elim (Bool-cases (not gate.passed && all_warnings gate)) [
    | inl skip ↦ rw skip e
    | inr go ↦ elim (Bool-cases (any is_fix_flag gate.flags)) [
      | inl fix ↦
          rw (go, fix)
            (get-map (close_by_flags gate.flags now) id _
                (close_by_flags-Closes gate.flags now).same_id
              ∙ ap (map_option (close_by_flags gate.flags now))
                  (raise-absent gate (hard_flags gate) fs h ∙ e))
      | inr plain ↦ rw (go, plain) (raise-absent gate (hard_flags gate) fs h ∙ e)
    ]
  ]

  rounds-open :
      (gates : List GateResult) (fs : List RuntimeFinding)
      → NotClosed (get id fs)
      → any (λ g. has_fix_evidence_from_flags g.flags id) gates ≡ false
      → (any (λ g. has (hard_flags g) id) gates ≡ true) ⊎ IsOpenIn id fs
      → IsOpenIn id (gate_rounds now gates fs)
  unfolding gate_rounds
  rounds-open [] fs n u (inl h) = cc
  rounds-open [] fs n u (inr o) = o
  rounds-open (gate ∷ gates) fs n u (inr o) =
      let o' = round-open gate fs n (ground arith) (inr o) in
      rounds-open gates (gate_round now gate fs) (open-NotClosed id _ o') (ground arith) (inr o')
  rounds-open (gate ∷ gates) fs n u (inl h) = elim (Bool-cases (has (hard_flags gate) id)) [
    | inl here ↦
        let o = round-open gate fs n (ground arith) (inl here) in
        rounds-open gates (gate_round now gate fs) (open-NotClosed id _ o) (ground arith) (inr o)
    | inr there ↦ elim (Option-cases (get id fs)) [
      | inl absent ↦
          rounds-open gates (gate_round now gate fs) (rw (round-absent gate fs there absent) tt)
            (ground arith) (inl (ground arith))
      | inr (f, found) ↦
          let o = round-open gate fs n (ground arith) (inr (f, found, rw found at n)) in
          rounds-open gates (gate_round now gate fs) (open-NotClosed id _ o) (ground arith) (inr o)
    ]
  ]

-- What a gate reports about the product stays reported: an id of the product's own that was open, or
-- that was not closed and that a gate now reports as a hard flag, is open once the verdicts are
-- recorded, unless a passing gate clears it or a flag of a gate or of the current result is evidence
-- of its fix.
pub record_gate_state_open :
    (id now : String) (state : RuntimeBatchState) (gates : List GateResult)
    → IsProductId id
    → NotClosed (last id state.findings)
    → (any (λ g. has (hard_flags g) id) gates ≡ true)
      ⊎ ((f : RuntimeFinding) × (last id state.findings ≡ some f))
    → has (all_cleared state gates) id ≡ false
    → has_fix_evidence_from_flags state.current_result.flags id ≡ false
    → any (λ g. has_fix_evidence_from_flags g.flags id) gates ≡ false
    → IsOpenIn id (record_gate_state now state gates).findings
record_gate_state_open id now state gates p n why uncleared unfixed quiet =
    through_passes (IsOpenIn id) now state gates
      (λ fs.
        map-IsOpenIn (close_cleared (all_cleared state gates) state.current_result now) id fs
          (close_cleared-Closes (all_cleared state gates) state.current_result now).same_id
          (λ f same o.
            close_cleared-open id now p f same o (all_cleared state gates) state.current_result
              uncleared unfixed))
      (λ wiring fs.
        map-IsOpenIn (close_aggregate wiring now) id fs (close_aggregate-Closes wiring now).same_id
          (λ f same o. close_aggregate-open id now p f same o wiring))
      (λ active fs.
        map-IsOpenIn (quarantine_tooling active now) id fs
          (quarantine_tooling-Closes active now).same_id
          (λ f same o. quarantine_tooling-open id now p f same o active))
      (λ fs.
        map-IsOpenIn (normalize_finding now) id fs (normalize_finding-Closes now).same_id
          (λ f same o. normalize_finding-open id now p f same o))
      (rounds-open id now p gates (by_id state.findings) (rw (get-by_id id state.findings) n) quiet
        (started why))
  where
    started :
        (any (λ g. has (hard_flags g) id) gates ≡ true)
          ⊎ ((f : RuntimeFinding) × (last id state.findings ≡ some f))
        → (any (λ g. has (hard_flags g) id) gates ≡ true) ⊎ IsOpenIn id (by_id state.findings)
    started (inl h) = inl h
    started (inr (f, e)) = inr (f, get-by_id id state.findings ∙ e, rw e at n)
