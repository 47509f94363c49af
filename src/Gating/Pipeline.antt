-- ===== src/Gating/Pipeline.antt =====
-- When the gates of a result let it pass, and what ran for it.
use Prim.Native.Char.{code}
use text.Mathlib.TextLemmas.{nil-append, cons-append, append_assoc}
use trade_compliance_classif.Prelude.{
  ◌==◌, ℕ, ◌≤◌, ◌≡◌, refl, sym, ap, ◌∙◌, inl, inr, Bool, true, false, not, ◌&&◌, Option, none, some,
  List, [], ◌∷◌, ◌++◌, String, is_empty, arith, Bool-cases,
}
use trade_compliance_classif.Prelude.Text.{
  ◌⧺◌, join, before, trim, starts_with, strip_repeated_i, strip_prefix_i, text_length, ends_with,
}
use trade_compliance_classif.Prelude.Regex.{matches, begins, ends}
use trade_compliance_classif.Types.{GateResult}
use trade_compliance_classif.Flags
use trade_compliance_classif.Flags.Laws.{strip_rounds_stop}
use trade_compliance_classif.Flags.{
  flag_code, recovered_source, is_warning_flag, is_positive_flag, is_warning_code, is_positive_code,
}
use trade_compliance_classif.Risk.{ValidationMode, mode_or_balanced, is_safe}
use trade_compliance_classif.Gating.{
  gate_passes, gates_passed, blocking_gate_names, GateTask, run_gate_task, skipped_flag,
  skipped_gate, run_tasks, skip_tasks, validate_gates,
}

abbrev skipped_code : String
skipped_code = "SKIPPED_EXPENSIVE_GATE_DUE_TO_CHEAP_BLOCKERS"

abbrev has_no : ℕ → String → Bool
has_no sep String.[] = true
has_no sep (String.◌∷◌ c s) = not (code c == sep) && has_no sep s

abbrev first_is : ℕ → String → Bool
first_is sep String.[] = false
first_is sep (String.◌∷◌ c s) = code c == sep

before_first : (sep : ℕ) (s rest : String) → first_is sep s ≡ true → before sep (s ⧺ rest) ≡ ""
unfolding before
before_first sep String.[] rest h = absurd (ground arith)
before_first sep (String.◌∷◌ c s) rest h = rw (cons-append c s rest) (ground arith)

before-append :
    (sep : ℕ) (p rest : String)
    → has_no sep p ≡ true
    → before sep rest ≡ ""
    → before sep (p ⧺ rest) ≡ p
unfolding before
before-append sep String.[] rest h e = rw (nil-append rest) e
before-append sep (String.◌∷◌ c p) rest h e =
    rw (cons-append c p rest) (ground (arith, before-append sep p rest))

colon : (rest : String) → before b':' (":" ⧺ rest) ≡ ""
colon rest = before_first b':' ":" rest refl

no_prefix-append :
    (p q rest : String)
    → strip_prefix_i p q ≡ none
    → text_length p ≤ text_length q
    → strip_prefix_i p (q ⧺ rest) ≡ none
unfolding strip_prefix_i text_length
no_prefix-append String.[] q rest h l = absurd (ground arith)
no_prefix-append (String.◌∷◌ d p) String.[] rest h l = absurd (omega arith)
no_prefix-append (String.◌∷◌ d p) (String.◌∷◌ c q) rest h l =
    rw (cons-append c q rest) (ground (arith, no_prefix-append p q rest))

code_of :
    (code rest : String)
    → strip_prefix_i recovered_source code ≡ none
    → text_length recovered_source ≤ text_length code
    → has_no b':' code ≡ true
    → trim code ≡ code
    → flag_code (code ⧺ (":" ⧺ rest)) ≡ code
unfolding flag_code strip_repeated_i before
code_of code rest h l n t =
    let flag = code ⧺ (":" ⧺ rest) in
    ap (λ s. trim (before b':' s))
      (strip_rounds_stop (text_length flag) recovered_source flag
        (no_prefix-append recovered_source code (":" ⧺ rest) h l))
    ∙ ap trim (before-append b':' code (":" ⧺ rest) n (colon rest))
    ∙ t

skipped-flag_code : (blockers : List String) → flag_code (skipped_flag blockers) ≡ skipped_code
unfolding Flags.runs strip_prefix_i text_length
skipped-flag_code blockers =
    rw (append_assoc skipped_code ":" (join "|" blockers))
      (code_of skipped_code (join "|" blockers) refl (omega arith) refl refl)

pub starts_with-longer :
    (p q rest : String)
    → starts_with p q ≡ false
    → text_length q ≤ text_length p
    → starts_with (p ⧺ rest) q ≡ false
unfolding starts_with text_length
starts_with-longer p String.[] rest h l = absurd (ground arith)
starts_with-longer String.[] (String.◌∷◌ d q) rest h l = absurd (omega arith)
starts_with-longer (String.◌∷◌ c p) (String.◌∷◌ d q) rest h l =
    rw (cons-append c p rest) (ground (arith, starts_with-longer p q rest))

skipped-starts_with :
    (blockers : List String) → starts_with (skipped_flag blockers) "QUALITY_WARNING:" ≡ false
unfolding Flags.runs text_length
skipped-starts_with blockers = rw (append_assoc skipped_code ":" (join "|" blockers)) (
    starts_with-longer skipped_code "QUALITY_WARNING:" (":" ⧺ join "|" blockers) refl (omega arith))

skipped-is_warning_flag :
    (gate : Option String) (blockers : List String)
    → is_warning_flag gate (skipped_flag blockers) ≡ false
unfolding is_warning_flag is_warning_code matches ends_with
skipped-is_warning_flag gate blockers =
    rw (skipped-flag_code blockers, skipped-starts_with blockers) (ground arith)

skipped-is_positive_flag :
    (blockers : List String) → is_positive_flag (skipped_flag blockers) ≡ false
unfolding is_positive_flag is_positive_code matches begins ends ends_with
skipped-is_positive_flag blockers = rw (skipped-flag_code blockers) refl

all-append :
    (xs ys : List GateResult) → gates_passed (xs ++ ys) ≡ (gates_passed xs && gates_passed ys)
unfolding gates_passed
all-append [] ys = refl
all-append (x ∷ xs) ys = ground (arith, all-append xs ys)

module _ {W : Type 0} (mark : String → String → String → W → W) where
  skip_tasks_fail :
      (task : GateTask W) (tasks : List (GateTask W)) (blockers : List String) (w : W)
      → gates_passed (skip_tasks mark (task ∷ tasks) blockers w).0 ≡ false
  unfolding skip_tasks skipped_gate gates_passed gate_passes
  skip_tasks_fail task tasks blockers w =
      ground (
        arith,
        skipped-is_warning_flag (some task.name) blockers,
        skipped-is_positive_flag blockers,
      )

  run_tasks-append :
      (first more : List (GateTask W)) (w : W)
      → run_tasks mark (first ++ more) w ≡ (
        (run_tasks mark first w).0 ++ (run_tasks mark more (run_tasks mark first w).1).0,
        (run_tasks mark more (run_tasks mark first w).1).1,
      )
  unfolding run_tasks
  run_tasks-append [] more w = refl
  run_tasks-append (task ∷ first) more w =
      rw (run_tasks-append first more (run_gate_task mark task w).1) refl

  none_to_skip :
      (cheap : List (GateTask W)) (blockers : List String) (w : W)
      → (
        (run_tasks mark cheap w).0 ++ (skip_tasks mark [] blockers (run_tasks mark cheap w).1).0,
        (skip_tasks mark [] blockers (run_tasks mark cheap w).1).1,
      )
        ≡ run_tasks mark (cheap ++ []) w
  unfolding skip_tasks run_tasks
  none_to_skip cheap blockers w = sym (run_tasks-append cheap [] w)

  run_tasks-skip_tasks :
      (cheap expensive : List (GateTask W)) (blockers : List String) (w : W)
      → gates_passed (
          (run_tasks mark cheap w).0
          ++ (skip_tasks mark expensive blockers (run_tasks mark cheap w).1).0)
        ≡ true
      → (
        (run_tasks mark cheap w).0
            ++ (skip_tasks mark expensive blockers (run_tasks mark cheap w).1).0,
        (skip_tasks mark expensive blockers (run_tasks mark cheap w).1).1,
      )
        ≡ run_tasks mark (cheap ++ expensive) w
  run_tasks-skip_tasks cheap [] blockers w pass = none_to_skip cheap blockers w
  run_tasks-skip_tasks cheap (task ∷ tasks) blockers w pass =
      let after = (run_tasks mark cheap w).1 in
      absurd (
        ground (
          arith,
          all-append (run_tasks mark cheap w).0 (skip_tasks mark (task ∷ tasks) blockers after).0,
          skip_tasks_fail task tasks blockers after,
        ))

  -- Gates that pass are those of all validators: whatever the validation mode, if the gates of a result pass,
  -- then no validator was skipped, and the gates and the state after them are what comes of running the cheap
  -- validators and then the expensive ones, in their order.
  pub validate_gates-run_tasks :
      (mode : Option ValidationMode) (cheap expensive : List (GateTask W)) (w : W)
      → gates_passed (validate_gates mark mode cheap expensive w).0 ≡ true
      → validate_gates mark mode cheap expensive w ≡ run_tasks mark (cheap ++ expensive) w
  unfolding validate_gates
  validate_gates-run_tasks mode cheap expensive w pass =
      let blockers = blocking_gate_names (run_tasks mark cheap w).0 in
      elim (Bool-cases (not (is_safe (mode_or_balanced mode)) && not (is_empty blockers))) [
        | inl skip ↦ rw skip (run_tasks-skip_tasks cheap expensive blockers w (rw skip at pass))
        | inr go ↦ rw go (sym (run_tasks-append cheap expensive w))
      ]
