-- ===== src/Runtime/Contradiction.antt =====
-- tools/klevar-yolo-runtime/src/runtime.ts: whether the evidence of a bugfix contradicts what a validator rejected.
-- `json` is JSON.stringify on an entrypoint.
use Prim.Native.Char.{code}
use trade_compliance_classif.Prelude.{
  Bool, false, not, ◌&&◌, ◌||◌, Option, none, some, List, [], ◌∷◌, ◌++◌, String, ◌==◌,
  if◌then◌else◌, any, all, filter, is_empty,
}
use trade_compliance_classif.Prelude.Text.{
  text_eq, trim, to_lower, includes, strip_prefix, is_upper, is_lower, is_digit,
}
use trade_compliance_classif.Prelude.Regex.{
  Re, eps, one, seq, or, anything, lits_i, matches, search_in, cut_suffix,
}
use trade_compliance_classif.Types.{TestEvidence, Entrypoint, Wiring, BatchResult}
use trade_compliance_classif.Flags.{is_positive_flag}
use trade_compliance_classif.Contracts.{is_failure}
use trade_compliance_classif.Recovery.Parts.{phase}

-- `value.toLowerCase().replace(/[^a-z0-9]+/g, "")`
letters_and_digits : String → String
letters_and_digits String.[] = String.[]
letters_and_digits (String.◌∷◌ c s) =
    let rest = letters_and_digits s in
    if is_lower (code c) || is_digit (code c) then String.◌∷◌ c rest else rest

unfoldable pub evidence_key : String → String
unfolding letters_and_digits
evidence_key value = letters_and_digits (to_lower value)

abbrev not_word : Re
not_word = one (λ c. not (is_upper c || is_lower c || is_digit c || c == b'_'))

unfoldable pub is_runnable_validation_command : String → Bool
is_runnable_validation_command command =
    let value = trim command in
    not (text_eq value "")
    && not (
        matches
          (lits_i
            ("not applicable" ∷ "n/a" ∷ "none" ∷ "skippe" ∷ "skipped" ∷ "manual" ∷ "unknown" ∷ []))
          value)
    && matches
        (seq
          (lits_i (
            "node" ∷ "npm" ∷ "npx" ∷ "bash" ∷ "sh" ∷ "python" ∷ "python3" ∷ "ruby" ∷ "go" ∷ "cargo"
            ∷ "pytest" ∷ "julia" ∷ "nim" ∷ "deno" ∷ "bun" ∷ "pnpm" ∷ "yarn" ∷ []))
          (or eps (seq not_word anything)))
        value

abbrev passes_e2e : Option TestEvidence → Bool
passes_e2e none = false
passes_e2e (some e) =
    not (text_eq e.command "") && e.exit_code == 0 && is_runnable_validation_command e.command

unfoldable pub has_passing_runnable_e2e : BatchResult → Bool
has_passing_runnable_e2e result = passes_e2e (phase "e2e" result.tests)

unfoldable pub has_passing_validation_evidence : BatchResult → Bool
has_passing_validation_evidence result =
    any (λ (test : String × TestEvidence). not (text_eq test.1.command "") && test.1.exit_code == 0)
      result.tests

abbrev entrypoints_of : Option Wiring → List Entrypoint
entrypoints_of none = []
entrypoints_of (some wiring) = wiring.entrypoints

unfoldable pub has_wiring_entrypoint_evidence : (Entrypoint → String) → BatchResult → String → Bool
has_wiring_entrypoint_evidence json result expected =
    any (λ (entry : Entrypoint). includes (evidence_key (json entry)) (evidence_key expected))
      (entrypoints_of result.wiring)

abbrev without_prefix : Option String → String → String
without_prefix none flag = flag
without_prefix (some rest) flag = rest

unfoldable pub has_explicit_related_fix_flag : String → BatchResult → Bool
has_explicit_related_fix_flag flag bugfix =
    let blocker = evidence_key (without_prefix (strip_prefix "RESULT_STATUS_FAILURE:" flag) flag) in
    any
      (λ fixed_flag.
        let fixed = evidence_key (
          cut_suffix
            (lits_i (
              "FIXED" ∷ "PASS" ∷ "PASSED" ∷ "WIRED" ∷ "PROPAGATED" ∷ "SATISFIED" ∷ "COVERED"
              ∷ "ENFORCED" ∷ "RECOVERED" ∷ "VERIFIED" ∷ []))
            fixed_flag) in
        is_positive_flag fixed_flag
        && not (text_eq fixed "")
        && not (text_eq blocker "")
        && (includes blocker fixed || includes fixed blocker))
      bugfix.flags

abbrev names_entrypoint :
    (Entrypoint → String) → Option String → BatchResult → BatchResult → Bool → Bool
names_entrypoint json none recovered bugfix otherwise = otherwise
names_entrypoint json (some entrypoint) recovered bugfix otherwise =
    has_wiring_entrypoint_evidence json recovered entrypoint
    || has_wiring_entrypoint_evidence json bugfix entrypoint

unfoldable pub recovered_evidence_contradicts_flag :
    (Entrypoint → String) → String → BatchResult → BatchResult → Bool
recovered_evidence_contradicts_flag json flag recovered bugfix =
    if text_eq flag "MISSING_RUNNABLE_E2E_COMMAND"
    then has_passing_runnable_e2e recovered || has_passing_runnable_e2e bugfix
    else names_entrypoint json (strip_prefix "ENTRYPOINT_UNVERIFIED:" flag) recovered bugfix (
        if search_in (lits_i ("UNWIRED" ∷ "DRIFT" ∷ "NOT_PROPAGATED" ∷ "MISSING" ∷ "GAP" ∷ [])) flag
        then (if search_in
              (lits_i (
                "BUSINESS_LOGIC_DRIFT" ∷ "AUTHORITY" ∷ "ALLOWLIST" ∷ "PAYMENT" ∷ "TENANT"
                ∷ "SECURITY" ∷ "SECRET" ∷ "COMMERCIAL" ∷ "PRICING" ∷ "BILLING" ∷ []))
              flag
            then has_explicit_related_fix_flag flag bugfix
            else has_passing_validation_evidence bugfix
              && any
                  (search_in (
                    lits_i (
                      "WIRED" ∷ "PROPAGATED" ∷ "FIXED" ∷ "PASS" ∷ "RECOVERED" ∷ "COVERED"
                      ∷ "VERIFIED" ∷ [])))
                  bugfix.flags)
        else false)

abbrev type_flags : Option String → List String
type_flags none = []
type_flags (some type) = type ∷ []

unfoldable pub validation_failure_contradicted_by_recovered_evidence :
    (Entrypoint → String) → BatchResult → BatchResult → BatchResult → Bool
validation_failure_contradicted_by_recovered_evidence json validation recovered bugfix =
    let flags =
      filter (λ flag. not (text_eq flag ""))
        (validation.flags ++ type_flags validation.failure_type) in
    let blocking = filter (λ flag. not (is_positive_flag flag)) flags in
    is_failure validation.status
    && not (is_empty blocking)
    && all (λ flag. recovered_evidence_contradicts_flag json flag recovered bugfix) blocking
