-- ===== src/Verdicts/Sorting.antt =====
-- What the sorting of the gates' flags tells, in gate-findings.ts and adjudication.ts.
use trade_compliance_classif.Prelude.{
  ◌≡◌, refl, sym, ap, ◌∙◌, inl, inr, Bool, true, false, not, ◌&&◌, ◌||◌, some, List, [], ◌∷◌, ◌++◌,
  map, String, filter, filter-append, is_empty, any, append-nil, append_assoc, All, All-append,
  Bool-cases, arith,
}
use trade_compliance_classif.Types.{GateResult}
use trade_compliance_classif.Flags.{is_positive_flag, is_warning_flag}
use trade_compliance_classif.Verdicts.{
  FindingSeverity, hard_fail, ambiguous, warning, pass, GateFinding, GateFindingReport, is_hard,
  is_ambiguous, is_warning, severity_for, classify_flag, add_finding, add_flags, add_gates,
  classify_gate_findings, adjudication_allowed, AdjudicationResult, AdjudicationDecision, accept,
  accept_with_warnings, require_bugfix, escalate_to_user, accepts, demands_bugfix, escalates,
  adjudication_accepted, adjudication_needs_bugfix, adjudication_needs_human,
}

unfoldable pub findings_of : List GateResult → List GateFinding
findings_of [] = []
findings_of (gate ∷ gates) = map (classify_flag gate.name) gate.flags ++ findings_of gates

abbrev with_findings : GateFindingReport → List GateFinding → GateFindingReport
with_findings report fs = record {
  hard_failures = report.hard_failures ++ filter (λ (f : GateFinding). is_hard f.severity) fs;
  ambiguities = report.ambiguities ++ filter (λ (f : GateFinding). is_ambiguous f.severity) fs;
  warnings = report.warnings ++ filter (λ (f : GateFinding). is_warning f.severity) fs;
}

with_findings-append :
    (report : GateFindingReport) (fs gs : List GateFinding)
    → with_findings (with_findings report fs) gs ≡ with_findings report (fs ++ gs)
with_findings-append report fs gs =
    rw
      (
        filter-append (λ (f : GateFinding). is_hard f.severity) fs gs,
        filter-append (λ (f : GateFinding). is_ambiguous f.severity) fs gs,
        filter-append (λ (f : GateFinding). is_warning f.severity) fs gs,
      )
      (simp (append_assoc))

with_findings-nil : (report : GateFindingReport) → with_findings report [] ≡ report
with_findings-nil report = simp (append-nil)

add_finding-with :
    (f : GateFinding) (report : GateFindingReport)
    → add_finding f.severity f report ≡ with_findings report (f ∷ [])
add_finding-with f report = go f.severity refl
  where
    go :
        (s : FindingSeverity)
        → f.severity ≡ s
        → add_finding s f report ≡ with_findings report (f ∷ [])
    go hard_fail e = rw e (simp (append-nil))
    go ambiguous e = rw e (simp (append-nil))
    go warning e = rw e (simp (append-nil))
    go pass e = rw e (simp (append-nil))

add_flags-with :
    (gate : String) (flags : List String) (report : GateFindingReport)
    → add_flags gate flags report ≡ with_findings report (map (classify_flag gate) flags)
unfolding add_flags
add_flags-with gate [] report = sym (with_findings-nil report)
add_flags-with gate (flag ∷ flags) report =
    add_flags-with gate flags
      (add_finding (classify_flag gate flag).severity (classify_flag gate flag) report)
    ∙ ap (λ r. with_findings r (map (classify_flag gate) flags))
        (add_finding-with (classify_flag gate flag) report)
    ∙ with_findings-append report (classify_flag gate flag ∷ []) (map (classify_flag gate) flags)

add_gates-with :
    (gates : List GateResult) (report : GateFindingReport)
    → add_gates gates report ≡ with_findings report (findings_of gates)
unfolding add_gates findings_of
add_gates-with [] report = sym (with_findings-nil report)
add_gates-with (gate ∷ gates) report =
    add_gates-with gates (add_flags gate.name gate.flags report)
    ∙ ap (λ r. with_findings r (findings_of gates)) (add_flags-with gate.name gate.flags report)
    ∙ with_findings-append report (map (classify_flag gate.name) gate.flags) (findings_of gates)

-- A hard or ambiguous finding is neither a warning nor a sign of success.
abbrev pub IsGrave : GateFinding → Type 0
IsGrave f = (is_warning_flag (some f.gate) f.message ≡ false) × (is_positive_flag f.message ≡ false)

-- What the report holds of the findings of all flags, in their order.
pub record IsSorted (gates : List GateResult) (report : GateFindingReport) : Type 0 where
  pub hard :
      report.hard_failures ≡ filter (λ (f : GateFinding). is_hard f.severity) (findings_of gates)
  pub doubtful :
      report.ambiguities ≡ filter (λ (f : GateFinding). is_ambiguous f.severity) (findings_of gates)
  pub warned :
      report.warnings ≡ filter (λ (f : GateFinding). is_warning f.severity) (findings_of gates)
  pub grave : All IsGrave (report.hard_failures ++ report.ambiguities)

IsGrave-flag :
    (p : FindingSeverity → Bool) (gate flag : String)
    → p warning ≡ false
    → p pass ≡ false
    → p (classify_flag gate flag).severity ≡ true
    → IsGrave (classify_flag gate flag)
unfolding classify_flag severity_for
IsGrave-flag p gate flag w q h = (
  elim (Bool-cases (is_warning_flag (some gate) flag)) [
    | inl yes_warning ↦ absurd (ground arith)
    | inr none_warning ↦ none_warning
  ],
  elim (Bool-cases (is_positive_flag flag)) [
    | inl positive ↦ absurd (ground arith)
    | inr negative ↦ negative
  ],
)

IsGrave-flags :
    (p : FindingSeverity → Bool) (gate : String) (flags : List String)
    → p warning ≡ false
    → p pass ≡ false
    → All IsGrave (filter (λ (f : GateFinding). p f.severity) (map (classify_flag gate) flags))
IsGrave-flags p gate [] w q = tt
IsGrave-flags p gate (flag ∷ flags) w q = elim (Bool-cases (p (classify_flag gate flag).severity)) [
  | inl kept ↦ rw kept (IsGrave-flag p gate flag w q kept, IsGrave-flags p gate flags w q)
  | inr gone ↦ rw gone (IsGrave-flags p gate flags w q)
]

IsGrave-findings :
    (p : FindingSeverity → Bool) (gates : List GateResult)
    → p warning ≡ false
    → p pass ≡ false
    → All IsGrave (filter (λ (f : GateFinding). p f.severity) (findings_of gates))
unfolding findings_of
IsGrave-findings p [] w q = tt
IsGrave-findings p (gate ∷ gates) w q =
    rw
      (filter-append (λ (f : GateFinding). p f.severity) (map (classify_flag gate.name) gate.flags)
        (findings_of gates))
      (All-append IsGrave _ _ (IsGrave-flags p gate.name gate.flags w q)
        (IsGrave-findings p gates w q))

-- The report sorts the findings of all flags by their severity, in the order of the gates and their
-- flags, and no hard or ambiguous one is a warning or a sign of success.
pub classify_gate_findings-IsSorted :
    (gates : List GateResult) → IsSorted gates (classify_gate_findings gates)
unfolding classify_gate_findings
classify_gate_findings-IsSorted gates =
    let same =
      add_gates-with gates (record { hard_failures = []; ambiguities = []; warnings = [] }) in
    rw same (record {
      hard = refl;
      doubtful = refl;
      warned = refl;
      grave =
          All-append IsGrave _ _ (IsGrave-findings is_hard gates refl refl)
            (IsGrave-findings is_ambiguous gates refl refl);
    })

any-filter-empty :
    (p : GateFinding → Bool) (fs : List GateFinding) → is_empty (filter p fs) ≡ not (any p fs)
any-filter-empty p [] = refl
any-filter-empty p (f ∷ fs) = ground (arith, any-filter-empty p fs)

accepts-decided :
    (d : AdjudicationDecision) → accepts d ≡ (not (demands_bugfix d) && not (escalates d))
accepts-decided accept = refl
accepts-decided accept_with_warnings = refl
accepts-decided require_bugfix = refl
accepts-decided escalate_to_user = refl

-- An adjudication is asked for exactly when some flag of the gates is ambiguous and none is a hard
-- failure; and a result of one is accepted exactly when it needs neither a bugfix nor a human.
pub adjudication_allowed-accepted :
    (gates : List GateResult) (result : AdjudicationResult)
    → (adjudication_allowed gates ≡ (
        any (λ (f : GateFinding). is_ambiguous f.severity) (findings_of gates)
        && not (any (λ (f : GateFinding). is_hard f.severity) (findings_of gates))))
      × (adjudication_accepted result
          ≡ not (adjudication_needs_bugfix result || adjudication_needs_human result))
unfolding adjudication_allowed adjudication_accepted adjudication_needs_bugfix
    adjudication_needs_human
adjudication_allowed-accepted gates result =
    let sorted = classify_gate_findings-IsSorted gates in
    (
      rw (sorted.hard, sorted.doubtful)
          (ground (
            arith,
            any-filter-empty (λ (f : GateFinding). is_hard f.severity) (findings_of gates),
            any-filter-empty (λ (f : GateFinding). is_ambiguous f.severity) (findings_of gates),
          )),
      ground (arith, accepts-decided result.decision),
    )
