-- ===== src/Support/Due.antt =====
-- Which phases are due for support, in support-scheduler.ts.
use trade_compliance_classif.Prelude.{
  ◌≡◌, refl, inl, inr, none, true, false, not, ◌&&◌, ◌||◌, Option, some, List, [], ◌∷◌, ◌++◌, map,
  String, filter, is_empty, Bool-cases, arith,
}
use trade_compliance_classif.Prelude.Text.{text_eq, trim}
use trade_compliance_classif.Prelude.Sets.{has-filter, has, has-append, dedup, has-dedup}
use trade_compliance_classif.Types.{ProgressItem, Batch}
use trade_compliance_classif.Support.{
  read_due, is_completed, completed_phases, is_support, mark_phase_support_due,
}

has-empty : (xs : List String) (x : String) → is_empty xs ≡ true → has xs x ≡ false
has-empty [] x h = refl
has-empty (y ∷ xs) x h = cc

has-completed :
    (batch : Batch) (items : List ProgressItem) (phase : String)
    → has (completed_phases batch items) phase ≡ (
        has (map (λ (item : ProgressItem). item.phase) batch.items) phase
        && (not (text_eq phase "") && is_completed items phase))
unfolding completed_phases
has-completed batch items phase =
    let phases = map (λ (item : ProgressItem). item.phase) batch.items in
    ground (
      arith,
      has-filter (is_completed items) (dedup (filter (λ p. not (text_eq p "")) phases)) phase,
      has-dedup (filter (λ p. not (text_eq p "")) phases) phase,
      has-filter (λ p. not (text_eq p "")) phases phase,
    )

has-written :
    (phases : List String) (phase : String)
    → has (read_due (some (dedup phases))) phase
      ≡ (has phases phase && not (text_eq (trim phase) ""))
unfolding read_due
has-written phases phase = ground (
  arith,
  has-filter (λ p. not (text_eq (trim p) "")) (dedup phases) phase,
  has-dedup phases phase,
)

-- What is read holds no blank phase.
has-read_due :
    (due : Option (List String)) (phase : String)
    → has (read_due due) phase ≡ (has (read_due due) phase && not (text_eq (trim phase) ""))
unfolding read_due
has-read_due none phase = refl
has-read_due (some phases) phase =
    ground (arith, has-filter (λ p. not (text_eq (trim p) "")) phases phase)

-- After a batch, the due phases are those that were due and, unless it was a support batch, the
-- phases of its items whose every item is checked; a phase of blanks only is never due.
pub mark_phase_support_due-has :
    (batch : Batch) (items : List ProgressItem) (due : Option (List String)) (phase : String)
    → has (read_due (mark_phase_support_due batch items due)) phase ≡ (
        not (text_eq (trim phase) "")
        && (has (read_due due) phase
            || (not (is_support batch.support_kind)
                && (has (map (λ (item : ProgressItem). item.phase) batch.items) phase
                    && (not (text_eq phase "") && is_completed items phase)))))
unfolding mark_phase_support_due
mark_phase_support_due-has batch items due phase =
    elim (Bool-cases (is_support batch.support_kind)) [
      | inl support ↦ rw support (ground (arith, has-read_due due phase))
      | inr product ↦ elim (Bool-cases (is_empty (completed_phases batch items))) [
        | inl nothing ↦
            rw (product, nothing)
              (ground (
                arith,
                has-empty (completed_phases batch items) phase nothing,
                has-completed batch items phase,
                has-read_due due phase,
              ))
        | inr some_phase ↦
            rw (product, some_phase)
              (ground (
                arith,
                has-written (read_due due ++ completed_phases batch items) phase,
                has-append (read_due due) (completed_phases batch items) phase,
                has-completed batch items phase,
              ))
      ]
    ]
