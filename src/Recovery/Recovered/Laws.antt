-- ===== src/Recovery/Recovered/Laws.antt =====
-- Which flags of a recovered result block.
use text.Mathlib.TextLemmas.{append_assoc}
use trade_compliance_classif.Prelude.{
  ◌≡◌, refl, ap, ◌∙◌, inl, inr, Bool, true, false, not, ◌&&◌, ◌||◌, Option, none, some, List, [],
  ◌∷◌, ◌++◌, map, String, filter, arith, Bool-cases,
}
use trade_compliance_classif.Prelude.Text.{◌⧺◌, text_eq, eq_iff, eq_refl, starts_with}
use trade_compliance_classif.Prelude.Sets.{has-filter, has, has-append, has-dedup}
use trade_compliance_classif.Types.{BatchResult}
use trade_compliance_classif.Flags
use trade_compliance_classif.Flags.{recovered_source, is_blocking_flag, flag_code}
use trade_compliance_classif.Flags.Laws.{demoted_flag, starts_with-append}
use trade_compliance_classif.Recovery.Recovered.{
  is_active_failure_flag, demote_recovered_source_flag, is_semantic_fix_flag,
  is_runtime_recovery_evidence_flag, bugfix_has_passing_command_evidence,
  normalize_recovered_bugfix_flag, and_rest, bugfix_flags, recovered_from, recovered_flags,
}

-- A text that does not block is no flag that does.
not_same :
    (a flag : String)
    → is_blocking_flag a ≡ false
    → is_blocking_flag flag ≡ true
    → text_eq a flag ≡ false
not_same a flag low high = elim (Bool-cases (text_eq a flag)) [
  | inl same ↦ absurd (ground (arith, ap is_blocking_flag ((eq_iff a flag).0 same)))
  | inr other ↦ other
]

recovered_low :
    (rest : String) → starts_with rest "RECOVERED_" ≡ true → is_blocking_flag rest ≡ false
unfolding is_blocking_flag
recovered_low rest h = ground arith

demoted :
    (type : Option String) (f flag : String)
    → is_blocking_flag flag ≡ true
    → text_eq (demote_recovered_source_flag type f) flag
      ≡ (text_eq f flag && not (is_active_failure_flag flag type))
unfolding demote_recovered_source_flag
demoted type f flag b = elim (Bool-cases (text_eq f flag)) [
  | inl same ↦ rw ((eq_iff f flag).0 same) (
      ground (arith, eq_refl flag, not_same (recovered_source ⧺ flag) flag (demoted_flag flag).1 b))
  | inr other ↦ ground (arith, not_same (recovered_source ⧺ f) flag (demoted_flag f).1 b)
]

has-demoted :
    (type : Option String) (fs : List String) (flag : String)
    → is_blocking_flag flag ≡ true
    → has (map (demote_recovered_source_flag type) fs) flag
      ≡ (has fs flag && not (is_active_failure_flag flag type))
has-demoted type [] flag b = refl
has-demoted type (f ∷ fs) flag b = ground (arith, demoted type f flag b, has-demoted type fs flag b)

abbrev is_kept : Bool → Bool → String → Bool
is_kept semantic evidence flag =
    not (starts_with flag "RESULT_STATUS_FAILURE:")
    && (semantic
        || not (is_semantic_fix_flag flag)
        || evidence && is_runtime_recovery_evidence_flag flag)

history_low : (f : String) → is_blocking_flag ("RECOVERED_BUGFIX_HISTORY:" ⧺ f) ≡ false
history_low f = recovered_low ("RECOVERED_BUGFIX_HISTORY:" ⧺ f) (
    rw (append_assoc "RECOVERED_" "BUGFIX_HISTORY:" f)
      (starts_with-append "RECOVERED_" ("BUGFIX_HISTORY:" ⧺ f)))

kept_one :
    (semantic evidence : Bool) (f : String) (rest : List String) (flag : String)
    → is_blocking_flag flag ≡ true
    → has (and_rest (normalize_recovered_bugfix_flag semantic evidence f) rest) flag
      ≡ (text_eq f flag && is_kept semantic evidence flag || has rest flag)
unfolding normalize_recovered_bugfix_flag
kept_one semantic evidence f rest flag b = elim (Bool-cases (text_eq f flag)) [
  | inl same ↦ rw ((eq_iff f flag).0 same) (
      ground (
        arith,
        eq_refl flag,
        not_same ("RECOVERED_BUGFIX_HISTORY:" ⧺ flag) flag (history_low flag) b,
      ))
  | inr other ↦ ground (arith, not_same ("RECOVERED_BUGFIX_HISTORY:" ⧺ f) flag (history_low f) b)
]

has-bugfix_flags :
    (semantic evidence : Bool) (fs : List String) (flag : String)
    → is_blocking_flag flag ≡ true
    → has (bugfix_flags semantic evidence fs) flag ≡ (has fs flag && is_kept semantic evidence flag)
unfolding bugfix_flags
has-bugfix_flags semantic evidence [] flag b = refl
has-bugfix_flags semantic evidence (f ∷ fs) flag b = ground (
  arith,
  kept_one semantic evidence f (bugfix_flags semantic evidence fs) flag b,
  has-bugfix_flags semantic evidence fs flag b,
)

from_low :
    (type flag : String)
    → is_blocking_flag flag ≡ true
    → text_eq ("RECOVERED_FROM:" ⧺ type) flag ≡ false
from_low type flag b =
    not_same ("RECOVERED_FROM:" ⧺ type) flag
      (recovered_low ("RECOVERED_FROM:" ⧺ type) (
        rw (append_assoc "RECOVERED_" "FROM:" type)
          (starts_with-append "RECOVERED_" ("FROM:" ⧺ type))))
      b

has-recovered_from :
    (type : Option String) (flag : String)
    → is_blocking_flag flag ≡ true
    → has (recovered_from type) flag ≡ false
has-recovered_from none flag b = refl
has-recovered_from (some type) flag b = ground (arith, from_low type flag b)

applied_low : is_blocking_flag "BUGFIX_RECOVERY_APPLIED" ≡ false
unfolding Flags.runs
applied_low = refl

empty_low : is_blocking_flag "" ≡ false
unfolding Flags.runs
empty_low = refl

-- A blocking flag is a flag of the recovered result exactly when it is a flag of the result before that does
-- not count as an active failure, or a flag of the bugfix that tells of no failed status and that, where the
-- bugfix changed no product file, claims no fix, or claims it with the evidence of a command that passed
-- and as one of the flags of a runtime recovery.
pub has-recovered_flags :
    (implementation bugfix : BatchResult) (semantic : Bool) (flag : String)
    → is_blocking_flag flag ≡ true
    → has (recovered_flags implementation bugfix semantic) flag ≡ (
        has implementation.flags flag
          && not (is_active_failure_flag flag implementation.failure_type)
        || has bugfix.flags flag
          && (not (starts_with flag "RESULT_STATUS_FAILURE:")
              && (semantic
                  || not (is_semantic_fix_flag flag)
                  || not semantic
                    && bugfix_has_passing_command_evidence bugfix
                    && is_runtime_recovery_evidence_flag flag)))
unfolding recovered_flags
has-recovered_flags i b semantic flag blocking =
    let evidence = not semantic && bugfix_has_passing_command_evidence b in
    let demoted_flags = map (demote_recovered_source_flag i.failure_type) i.flags in
    let more = bugfix_flags semantic evidence b.flags in
    let last = "BUGFIX_RECOVERY_APPLIED" ∷ more in
    let flags = recovered_from i.failure_type ++ (demoted_flags ++ last) in
    has-dedup (filter (λ f. not (text_eq f "")) flags) flag
    ∙ has-filter (λ f. not (text_eq f "")) flags flag
    ∙ ground (
      arith,
      has-append (recovered_from i.failure_type) (demoted_flags ++ last) flag,
      has-append demoted_flags last flag,
      has-recovered_from i.failure_type flag blocking,
      has-demoted i.failure_type i.flags flag blocking,
      has-bugfix_flags semantic evidence b.flags flag blocking,
      not_same "" flag empty_low blocking,
      eq_iff flag "",
      eq_iff "" flag,
      not_same "BUGFIX_RECOVERY_APPLIED" flag applied_low blocking,
    )
