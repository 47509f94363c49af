-- ===== src/Gating/Previous/Repair.antt =====
-- When a batch may start after the one before.
use text.Mathlib.TextLemmas.{append_assoc}
use trade_compliance_classif.Prelude.{
  ℕ, ◌-◌, ◌<◌, ◌≤◌, ◌≡◌, refl, ap, sym, inl, inr, true, false, not, ◌&&◌, ◌||◌, Option, List, [],
  ◌∷◌, String, is_empty, filter, arith, Bool-cases,
}
use trade_compliance_classif.Prelude.Text.{
  ◌⧺◌, pad3, text_length, starts_with, text_eq, eq_iff, eq_refl,
}
use trade_compliance_classif.Prelude.Sets.{has, has-set_add}
use trade_compliance_classif.Flags.Laws.{starts_with-append}
use trade_compliance_classif.Gating.Pipeline.{starts_with-longer}
use trade_compliance_classif.Gating.Previous.{
  gate_path, has_batch_result, has_completed_batch_commit, repair_committed_closeout_gate,
  verify_previous_batch_gates,
}

-- Two texts of which only one begins in a certain way.
text_eq_apart :
    (a b start : String)
    → starts_with a start ≡ true
    → starts_with b start ≡ false
    → text_eq a b ≡ false
text_eq_apart a b start ha hb = elim (Bool-cases (text_eq a b)) [
  | inl same ↦ absurd (ground (arith, ap (λ s. starts_with s start) ((eq_iff a b).0 same)))
  | inr other ↦ other
]

closeout_starts :
    (number : ℕ) → starts_with (gate_path "closeout" number) ".yolo/gates/closeout" ≡ true
closeout_starts number =
    rw (sym (append_assoc ".yolo/gates/" "closeout" ("-batch-" ⧺ pad3 number ⧺ ".md")))
      (starts_with-append ".yolo/gates/closeout" ("-batch-" ⧺ pad3 number ⧺ ".md"))

-- `stem` is the path up to the batch, as long as that of the closeout gate at least.
other_starts :
    (gate : String) (number : ℕ)
    → starts_with (".yolo/gates/" ⧺ gate ⧺ "-batch-") ".yolo/gates/closeout" ≡ false
    → text_length ".yolo/gates/closeout" ≤ text_length (".yolo/gates/" ⧺ gate ⧺ "-batch-")
    → starts_with (gate_path gate number) ".yolo/gates/closeout" ≡ false
other_starts gate number h l =
    let rest = pad3 number ⧺ ".md" in
    rw
      (
        sym (append_assoc gate "-batch-" rest),
        sym (append_assoc ".yolo/gates/" (gate ⧺ "-batch-") rest),
      )
      (starts_with-longer (".yolo/gates/" ⧺ gate ⧺ "-batch-") ".yolo/gates/closeout" rest h l)

not_e2e : (number : ℕ) → text_eq (gate_path "closeout" number) (gate_path "e2e" number) ≡ false
unfolding starts_with text_length
not_e2e number =
    text_eq_apart (gate_path "closeout" number) (gate_path "e2e" number) ".yolo/gates/closeout"
      (closeout_starts number) (other_starts "e2e" number refl (omega arith))

not_journal :
    (number : ℕ) → text_eq (gate_path "closeout" number) (gate_path "journal" number) ≡ false
unfolding starts_with text_length
not_journal number =
    text_eq_apart (gate_path "closeout" number) (gate_path "journal" number) ".yolo/gates/closeout"
      (closeout_starts number) (other_starts "journal" number refl (omega arith))

has-repair :
    (git : Option String) (number : ℕ) (files : List String) (path : String)
    → has (repair_committed_closeout_gate git number files).1 path ≡ (
        has files path
        || text_eq (gate_path "closeout" number) path
          && (has files (gate_path "closeout" number)
              || has files (gate_path "journal" number)
                && has_batch_result files number
                && has_completed_batch_commit git number))
unfolding repair_committed_closeout_gate
has-repair git number files path = ground (
  arith,
  has-set_add files (gate_path "closeout" number) path,
  eq_iff (gate_path "closeout" number) path,
)

missing_none :
    (after : List String) (a b c : String)
    → is_empty (filter (λ path. not (has after path)) (a ∷ b ∷ c ∷ []))
      ≡ (has after a && has after b && has after c)
missing_none after a b c = ground arith

-- After the first batch, no gate of the batch before is missing exactly when its e2e and journal gates are
-- among the files and either its closeout gate is, or a result of that batch and a commit that tells of its
-- completion stand in for it.
pub verify_previous_batch_gates-is_empty :
    (git : Option String) (number : ℕ) (files : List String)
    → 1 < number
    → is_empty (verify_previous_batch_gates git number files).0 ≡ (
        has files (gate_path "e2e" (number - 1))
        && has files (gate_path "journal" (number - 1))
        && (has files (gate_path "closeout" (number - 1))
            || has_batch_result files (number - 1) && has_completed_batch_commit git (number - 1)))
unfolding verify_previous_batch_gates
verify_previous_batch_gates-is_empty git number files h =
    let previous = number - 1 in
    let after = (repair_committed_closeout_gate git previous files).1 in
    let e2e = gate_path "e2e" previous in
    let journal = gate_path "journal" previous in
    let closeout = gate_path "closeout" previous in
    ground (
      arith,
      missing_none after e2e journal closeout,
      has-repair git previous files e2e,
      has-repair git previous files journal,
      has-repair git previous files closeout,
      not_e2e previous,
      not_journal previous,
      eq_refl closeout,
    )
