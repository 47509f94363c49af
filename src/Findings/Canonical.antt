-- ===== src/Findings/Canonical.antt =====
-- What holds of every state and result that runtime-batch-state.ts hands on: the canonical forms.
use trade_compliance_classif.Prelude.{
  ◌≡◌, refl, sym, ◌∙◌, inl, inr, true, false, not, ◌&&◌, ◌||◌, Option, none, some, List, [], ◌∷◌,
  ◌++◌, map, Bool, ap, String, arith, Bool-cases, or-false, All, All-append, filter,
}
use trade_compliance_classif.Prelude.Text.{◌⧺◌, text_eq, eq_iff, starts_with}
use trade_compliance_classif.Prelude.Sets.{has-filter, has, IsDistinct, dedup-IsDistinct, has-dedup}
use trade_compliance_classif.Types.{Batch, BatchResult, GateResult}
use trade_compliance_classif.Flags.{is_positive_flag, is_blocking_flag, recovered_source}
use trade_compliance_classif.Flags.Laws.{demoted_flag}
use trade_compliance_classif.Findings.{
  FindingStatus, RuntimeFinding, RuntimeClosureTrace, RuntimeBatchState, is_open, get, by_id,
}
use trade_compliance_classif.Findings.Evidence.{
  invalid_placeholder, fixed_prefixes, is_stale_blocking_flag,
}
use trade_compliance_classif.Findings.Close.{normalize_finding, normalize_canonical_findings}
use trade_compliance_classif.Findings.State.{
  settled_ids, demote, canonical_flags, canonicalize_batch_result_for_runtime, import_findings,
  import_agent_result_to_state, record_gate_state, written_state, same_status, trace_of,
  closure_traces_from_diff,
}
use trade_compliance_classif.Findings.Maps.{last, get-by_id}

-- If the finding is open, its id is no sign of success.
abbrev pub IsCanonical : RuntimeFinding → Type 0
IsCanonical f =
    is_open f.status ≡ true
    → (is_positive_flag f.id ≡ false) × (starts_with f.id "RECOVERED_" ≡ false)

normalize_finding-IsCanonical :
    (now : String) (f : RuntimeFinding) → IsCanonical (normalize_finding now f)
unfolding normalize_finding
normalize_finding-IsCanonical now f = λ o. (ground arith, ground arith)

normalize-All :
    (now : String) (fs : List RuntimeFinding) → All IsCanonical (map (normalize_finding now) fs)
normalize-All now [] = tt
normalize-All now (f ∷ fs) = (normalize_finding-IsCanonical now f, normalize-All now fs)

-- In every state that an import or the gates' verdicts leave, and in every state that is written, no
-- open finding has an id that is positive or that says it was recovered from.
pub findings-IsCanonical :
    (now : String) (batch : Batch) (source : String) (raw : BatchResult) (state : RuntimeBatchState)
    (gates : List GateResult)
    → All IsCanonical (import_agent_result_to_state now batch source raw state).findings
      × All IsCanonical (record_gate_state now state gates).findings
      × All IsCanonical (written_state now state).findings
unfolding import_agent_result_to_state import_findings record_gate_state written_state
    normalize_canonical_findings
findings-IsCanonical now batch source raw state gates =
    (normalize-All now _, normalize-All now _, normalize-All now _)

-- Whether a flag of the raw result stays: it is no placeholder, names no settled finding and nothing that
-- a flag says was fixed, and is no stale form of what was fixed.
abbrev pub stays : List String → List String → String → Bool
stays settled fixes flag =
    not (invalid_placeholder flag)
    && not (has settled flag || has fixes flag)
    && not (is_stale_blocking_flag fixes flag)

demoted_step :
    (settled fixes : List String) (g flag : String)
    → (text_eq (demote settled fixes g) flag && is_blocking_flag flag)
      ≡ (text_eq g flag && is_blocking_flag flag && not (has settled flag || has fixes flag))
demoted_step settled fixes g flag = elim (Bool-cases (has settled g || has fixes g)) [
  | inl history ↦
      rw history
        (ground (arith, eq_iff g flag, eq_iff (recovered_source ⧺ g) flag, (demoted_flag g).1))
  | inr live ↦ rw live (ground (arith, eq_iff g flag))
]

has-demoted :
    (settled fixes flags : List String) (flag : String)
    → (has (map (demote settled fixes) flags) flag && is_blocking_flag flag)
      ≡ (has flags flag && is_blocking_flag flag && not (has settled flag || has fixes flag))
has-demoted settled fixes [] flag = refl
has-demoted settled fixes (g ∷ flags) flag =
    or_and (text_eq (demote settled fixes g) flag) (text_eq g flag) _ _ _ _
      (demoted_step settled fixes g flag) (has-demoted settled fixes flags flag)
  where
    or_and :
        (a b c d e f : Bool)
        → (a && e) ≡ (b && e && f)
        → (c && e) ≡ (d && e && f)
        → ((a || c) && e) ≡ ((b || d) && e && f)
    or_and a b c d e f h k = ground arith

has-canonical_flags :
    (settled fixes flags : List String) (flag : String)
    → (has (canonical_flags settled fixes flags) flag && is_blocking_flag flag)
      ≡ (has flags flag && is_blocking_flag flag && stays settled fixes flag)
unfolding canonical_flags
has-canonical_flags settled fixes flags flag =
    let placed = filter (λ flag. not (invalid_placeholder flag)) flags in
    let demoted = map (demote settled fixes) placed in
    rw (has-filter (λ flag. not (is_stale_blocking_flag fixes flag)) demoted flag) (
      ground (
        arith,
        has-demoted settled fixes placed flag,
        has-filter (λ flag. not (invalid_placeholder flag)) flags flag,
      ))

-- The flags that block in a canonical result are exactly the blocking flags of the raw result that are
-- no placeholders, name no settled finding and nothing that a flag says was fixed, and are no stale form
-- of what was fixed; the demoted ones never block. The changed files are those of the raw result that
-- are no placeholders, each once.
pub canonicalize_batch_result_for_runtime-IsLive :
    (batch : Batch) (raw : BatchResult) (findings : List RuntimeFinding)
    → let result = canonicalize_batch_result_for_runtime batch raw findings in
      ((flag : String)
        → (has result.flags flag && is_blocking_flag flag) ≡ (
            has raw.flags flag
            && is_blocking_flag flag
            && stays (settled_ids findings) (fixed_prefixes raw.flags) flag))
      × IsDistinct result.files_changed
      × ((file : String)
          → has result.files_changed file
            ≡ (has raw.files_changed file && not (invalid_placeholder file)))
unfolding canonicalize_batch_result_for_runtime
canonicalize_batch_result_for_runtime-IsLive batch raw findings = (
  λ flag. has-canonical_flags (settled_ids findings) (fixed_prefixes raw.flags) raw.flags flag,
  dedup-IsDistinct (filter (λ file. not (invalid_placeholder file)) raw.files_changed),
  λ file.
      has-dedup (filter (λ file. not (invalid_placeholder file)) raw.files_changed) file
      ∙ has-filter (λ file. not (invalid_placeholder file)) raw.files_changed file,
)

-- A trace tells of a finding that is closed, and by whose last version it had another status before.
pub record IsClosure (before : List RuntimeFinding) (t : RuntimeClosureTrace) : Type 0 where
  pub previous : RuntimeFinding
  pub known : last t.finding_id before ≡ some previous
  pub started : t.from ≡ previous.status
  pub changed : same_status t.from t.to ≡ false
  pub ended : is_open t.to ≡ false

trace-IsClosure :
    (before : List RuntimeFinding) (o : Option RuntimeFinding) (cause : String)
    (evidence : List String) (now : String) (f : RuntimeFinding)
    → last f.id before ≡ o
    → All (IsClosure before) (trace_of o cause evidence now f)
unfolding trace_of
trace-IsClosure before none cause evidence now f e = tt
trace-IsClosure before (some previous) cause evidence now f e =
    elim (Bool-cases (same_status previous.status f.status || is_open f.status)) [
      | inl idle ↦ rw idle tt
      | inr moved ↦ rw moved (
        (record {
          previous = previous;
          known = e;
          started = refl;
          changed = (or-false _ _ moved).0;
          ended = ground arith;
        }),
        tt,
      )
    ]

-- What became closed: a finding that is closed, and by whose last version before had another status.
abbrev pub became_closed : List RuntimeFinding → RuntimeFinding → Bool
became_closed before f = elim (last f.id before) [
  | none ↦ false
  | some previous ↦ not (same_status previous.status f.status) && not (is_open f.status)
]

-- The findings and the statuses that the traces end with, of one finding and of all.
abbrev pub told : List RuntimeClosureTrace → List (String × FindingStatus)
told traces = map (λ (t : RuntimeClosureTrace). (t.finding_id, t.to)) traces

abbrev pub statuses : List RuntimeFinding → List (String × FindingStatus)
statuses fs = map (λ (f : RuntimeFinding). (f.id, f.status)) fs

told-append : (xs ys : List RuntimeClosureTrace) → told (xs ++ ys) ≡ told xs ++ told ys
told-append [] ys = refl
told-append (x ∷ xs) ys = rw (told-append xs ys) refl

told-trace_of :
    (before : List RuntimeFinding) (o : Option RuntimeFinding) (cause : String)
    (evidence : List String) (now : String) (f : RuntimeFinding) (after : List RuntimeFinding)
    → last f.id before ≡ o
    → told (trace_of o cause evidence now f) ++ statuses (filter (became_closed before) after)
      ≡ statuses (filter (became_closed before) (f ∷ after))
unfolding trace_of
told-trace_of before none cause evidence now f after e = rw (became_closed, e) refl
told-trace_of before (some previous) cause evidence now f after e =
    rw (became_closed, e)
      (elim (Bool-cases (same_status previous.status f.status)) [
        | inl same ↦ rw same refl
        | inr moved ↦ rw moved (elim (Bool-cases (is_open f.status)) [
          | inl opened ↦ rw opened refl
          | inr closed ↦ rw closed refl
        ])
      ])

-- The traces of a change tell, in the order of the findings after it, of exactly those that became
-- closed by it: each names such a finding and the status that it has afterwards, and, as the status it
-- had before, that of its last version before, which is another one.
pub closure_traces_from_diff-IsClosure :
    (before after : List RuntimeFinding) (cause : String) (evidence : List String) (now : String)
    → (told (closure_traces_from_diff before after cause evidence now)
        ≡ statuses (filter (became_closed before) after))
      × All (IsClosure before) (closure_traces_from_diff before after cause evidence now)
unfolding closure_traces_from_diff
closure_traces_from_diff-IsClosure before [] cause evidence now = (refl, tt)
closure_traces_from_diff-IsClosure before (f ∷ after) cause evidence now =
    let found = get f.id (by_id before) in
    let known : last f.id before ≡ found = sym (get-by_id f.id before) in
    let traces = closure_traces_from_diff before after cause evidence now in
    let (exact, all) = closure_traces_from_diff-IsClosure before after cause evidence now in
    (
      told-append (trace_of found cause evidence now f) traces
          ∙ ap (λ rest. told (trace_of found cause evidence now f) ++ rest) exact
          ∙ told-trace_of before found cause evidence now f after known,
      All-append (IsClosure before) (trace_of found cause evidence now f) traces
          (trace-IsClosure before found cause evidence now f known) all,
    )
