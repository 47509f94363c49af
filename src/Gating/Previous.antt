-- ===== src/Gating/Previous.antt =====
-- tools/klevar-yolo-runtime/src/gates.ts: whether the batch before has its gates, and the repair of its closeout
-- gate out of what the files and the log of commits show. The files are a list of paths; the time in a gate's
-- body is not modelled. `git` is the subjects that `git log` prints, where the repository has a head and the
-- call succeeds.
pub mod Repair
use trade_compliance_classif.Prelude.{
  ℕ, ◌-◌, Bool, true, false, not, ◌&&◌, ◌||◌, Option, none, some, List, [], ◌∷◌, ◌++◌, map, String,
  ◌==◌, leb, if◌then◌else◌, any, filter, is_empty,
}
use trade_compliance_classif.Prelude.Text.{
  ◌⧺◌, trim, to_lower, includes, split_on, pad3, is_upper, is_lower, is_digit,
}
use trade_compliance_classif.Prelude.Sets.{has, set_add}
use trade_compliance_classif.Prelude.Regex.{Re, eps, one, seq, or, anything, lits, matches}

abbrev pub gate_path : String → ℕ → String
gate_path gate number = ".yolo/gates/" ⧺ gate ⧺ "-batch-" ⧺ pad3 number ⧺ ".md"

abbrev pub result_path : ℕ → String → String
result_path number suffix = ".yolo/batch-results/batch-" ⧺ pad3 number ⧺ "-" ⧺ suffix ⧺ ".json"

unfoldable pub has_batch_result : List String → ℕ → Bool
has_batch_result files number =
    any (λ suffix. has files (result_path number suffix))
      ("implement" ∷ "audit" ∷ "validate" ∷ "bugfix" ∷ "bugfix-2" ∷ [])

abbrev outside_word : Re
outside_word = one (λ c. not (is_upper c || is_lower c || is_digit c || c == b'_'))

-- `/\b(a|b|…)\b/`
abbrev whole_word : List String → Re
whole_word words =
    seq (or eps (seq anything outside_word)) (seq (lits words) (or eps (seq outside_word anything)))

unfoldable pub tells_of_completion : ℕ → String → Bool
tells_of_completion number subject =
    let normalized = to_lower (trim subject) in
    includes normalized ("batch " ⧺ pad3 number)
    && matches
        (whole_word
          ("complete" ∷ "completed" ∷ "reconcile" ∷ "closeout" ∷ "recovery" ∷ "manual" ∷ []))
        normalized

abbrev log_of : Option String → String
log_of none = ""
log_of (some log) = log

-- A carriage return at the end of a line goes with the trimming of the subject.
unfoldable pub has_completed_batch_commit : Option String → ℕ → Bool
has_completed_batch_commit git number = any (tells_of_completion number) (split_on 10 (log_of git))

-- Whether the gate was written, and the files then.
unfoldable pub repair_committed_closeout_gate : Option String → ℕ → List String → Bool × List String
repair_committed_closeout_gate git number files =
    if has files (gate_path "closeout" number)
    then (false, files)
    else if not (has files (gate_path "journal" number))
        || not (has_batch_result files number)
        || not (has_completed_batch_commit git number)
    then (false, files)
    else (true, set_add files (gate_path "closeout" number))

unfoldable pub verify_previous_batch_gates :
    Option String → ℕ → List String → List String × List String
verify_previous_batch_gates git number files =
    let (repaired, after) = repair_committed_closeout_gate git (number - 1) files in
    if leb number 1 then ([], files) else (
      filter (λ path. not (has after path))
          (map (λ gate. gate_path gate (number - 1)) ("e2e" ∷ "journal" ∷ "closeout" ∷ [])),
      after,
    )

-- All that a run computes with.
unfoldable pub runs : Unit {0}
unfolding has_batch_result tells_of_completion has_completed_batch_commit
    repair_committed_closeout_gate verify_previous_batch_gates to_lower trim includes split_on pad3
    matches set_add
runs = tt
