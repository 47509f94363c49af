-- ===== src/Support/Schedule.antt =====
-- Which support work comes next, in support-scheduler.ts, and that it comes to an end.
use trade_compliance_classif.Prelude.{
  ℕ, zero, suc, ◌+◌, ◌≤◌, ◌<◌, ◌≡◌, ◌⊎◌, refl, inl, inr, true, false, not, Option, none, some, List,
  [], ◌∷◌, String, any, Bool-cases, Option-cases, arith, if◌then◌else◌,
}
use trade_compliance_classif.Prelude.Text.{eq_iff}
use trade_compliance_classif.Prelude.Sets.{has, set_add, has-set_add}
use trade_compliance_classif.Types.{ProgressItem, SupportKind}
use trade_compliance_classif.Support.{
  SupportPlan, support_sequence, support_gate_name, support_gate_exists, make_support_plan,
  read_due, first_missing, due_support, next_due_phase_support, final_plan, plan_of,
  next_support_plan,
}

-- How many gates of a scope are missing.
unfoldable pub missing : List String → String → List SupportKind → ℕ
missing gates scope [] = 0
missing gates scope (kind ∷ kinds) =
    (if support_gate_exists gates kind scope then 0 else 1) + missing gates scope kinds

unfoldable pub missing_due : List String → List String → ℕ
missing_due gates [] = 0
missing_due gates (phase ∷ phases) = missing gates phase support_sequence + missing_due gates phases

-- The gates that are still to come, of the due phases and of the whole project.
unfoldable pub outstanding : List String → List String → ℕ
outstanding gates due = missing_due gates due + missing gates "final" support_sequence

-- The gate file that a plan's work leaves.
abbrev pub with_gate : List String → SupportPlan → List String
with_gate gates plan = set_add gates (support_gate_name plan.kind plan.scope)

first_missing-missing :
    (gates : List String) (scope : String) (kinds : List SupportKind)
    → first_missing gates scope kinds ≡ none
    → missing gates scope kinds ≡ 0
unfolding first_missing missing
first_missing-missing gates scope [] h = refl
first_missing-missing gates scope (kind ∷ kinds) h =
    ground (arith, first_missing-missing gates scope kinds)

-- More gates leave no more missing.
missing-set_add :
    (gates : List String) (gate scope : String) (kinds : List SupportKind)
    → missing (set_add gates gate) scope kinds ≤ missing gates scope kinds
unfolding missing support_gate_exists
missing-set_add gates gate scope [] = omega arith
missing-set_add gates gate scope (kind ∷ kinds) = ground (
  arith,
  missing-set_add gates gate scope kinds,
  has-set_add gates gate (support_gate_name kind scope),
)

missing_due-set_add :
    (gates : List String) (gate : String) (due : List String)
    → missing_due (set_add gates gate) due ≤ missing_due gates due
unfolding missing_due
missing_due-set_add gates gate [] = omega arith
missing_due-set_add gates gate (phase ∷ due) =
    omega
      (arith, missing-set_add gates gate phase support_sequence, missing_due-set_add gates gate due)

-- The first missing gate is missing no more when it is there.
first_missing-less :
    (gates : List String) (scope : String) (kind : SupportKind) (kinds : List SupportKind)
    → first_missing gates scope kinds ≡ some kind
    → missing (set_add gates (support_gate_name kind scope)) scope kinds < missing gates scope kinds
unfolding first_missing missing support_gate_exists
first_missing-less gates scope kind [] h = cc
first_missing-less gates scope kind (k ∷ kinds) h =
    let gate = support_gate_name kind scope in
    elim (Bool-cases (has gates (support_gate_name k scope))) [
      | inl there ↦
          rw (there, has-set_add gates gate (support_gate_name k scope), there)
            (omega (arith, first_missing-less gates scope kind kinds (ground arith)))
      | inr lacks ↦ ground (
        arith,
        missing-set_add gates gate scope kinds,
        has-set_add gates gate (support_gate_name k scope),
        eq_iff gate (support_gate_name k scope),
      )
    ]

first_missing-lacks :
    (gates : List String) (scope : String) (kind : SupportKind) (kinds : List SupportKind)
    → first_missing gates scope kinds ≡ some kind
    → support_gate_exists gates kind scope ≡ false
unfolding first_missing
first_missing-lacks gates scope kind [] h = cc
first_missing-lacks gates scope kind (k ∷ kinds) h =
    elim (Bool-cases (support_gate_exists gates k scope)) [
      | inl there ↦ first_missing-lacks gates scope kind kinds (ground arith)
      | inr lacks ↦ ground arith
    ]

-- A phase that is due and a kind of support that it lacks.
record IsLacking (gates due : List String) (phase : String) (kind : SupportKind) : Type 0 where
  lacks : support_gate_exists gates kind phase ≡ false
  less : missing_due (set_add gates (support_gate_name kind phase)) due < missing_due gates due

IsLacking-here :
    (gates due : List String) (phase : String) (kind : SupportKind)
    → first_missing gates phase support_sequence ≡ some kind
    → IsLacking gates (phase ∷ due) phase kind
unfolding missing_due
IsLacking-here gates due phase kind e = record {
  lacks = first_missing-lacks gates phase kind support_sequence e;
  less = omega (
    arith,
    first_missing-less gates phase kind support_sequence e,
    missing_due-set_add gates (support_gate_name kind phase) due,
  );
}

next_due-IsLacking :
    (gates due : List String) (phase : String) (kind : SupportKind)
    → next_due_phase_support gates due ≡ some (phase, kind)
    → IsLacking gates due phase kind
unfolding next_due_phase_support missing_due
next_due-IsLacking gates [] phase kind h = absurd (ground arith)
next_due-IsLacking gates (p ∷ due) phase kind h =
    found (first_missing gates p support_sequence) refl h (next_due-IsLacking gates due phase kind)
  where
    found :
        (o : Option SupportKind)
        → first_missing gates p support_sequence ≡ o
        → due_support p o (next_due_phase_support gates due) ≡ some (phase, kind)
        → (next_due_phase_support gates due ≡ some (phase, kind) → IsLacking gates due phase kind)
        → IsLacking gates (p ∷ due) phase kind
    found none e r ih = record {
      lacks = (ih r).lacks;
      less = omega (
        arith,
        (ih r).less,
        missing-set_add gates (support_gate_name kind phase) p support_sequence,
      );
    }
    found (some k) e r ih =
        let same_phase : phase ≡ p = cc in
        let same_kind : kind ≡ k = cc in rw (same_phase, same_kind) (IsLacking-here gates due p k e)

next_due_complete :
    (gates due : List String) → next_due_phase_support gates due ≡ none → missing_due gates due ≡ 0
unfolding next_due_phase_support missing_due
next_due_complete gates [] h = refl
next_due_complete gates (p ∷ due) h = elim (Option-cases (first_missing gates p support_sequence)) [
  | inl e ↦ omega (
    arith,
    first_missing-missing gates p support_sequence e,
    next_due_complete gates due (ground arith),
  )
  | inr (k, e) ↦ absurd (ground arith)
]

-- What the plan that comes next says of the gate files and of the items.
pub record IsNext (gates due : List String) (items : List ProgressItem) (next : Option SupportPlan)
    : Type 0 where
  pub planned :
      (plan : SupportPlan)
      → next ≡ some plan
      → (support_gate_exists gates plan.kind plan.scope ≡ false)
        × (outstanding (with_gate gates plan) due < outstanding gates due)
  pub finished :
      next ≡ none
      → (missing_due gates due ≡ 0)
        × ((any (λ (item : ProgressItem). not item.checked) items ≡ true)
            ⊎ (outstanding gates due ≡ 0))
  pub at_end : outstanding gates due ≡ 0 → next ≡ none

final-less :
    (gates due : List String) (kind : SupportKind)
    → first_missing gates "final" support_sequence ≡ some kind
    → outstanding (set_add gates (support_gate_name kind "final")) due < outstanding gates due
unfolding outstanding
final-less gates due kind e = omega (
  arith,
  first_missing-less gates "final" kind support_sequence e,
  missing_due-set_add gates (support_gate_name kind "final") due,
)

due-less :
    (gates due : List String) (phase : String) (kind : SupportKind)
    → IsLacking gates due phase kind
    → outstanding (set_add gates (support_gate_name kind phase)) due < outstanding gates due
unfolding outstanding
due-less gates due phase kind l =
    omega
      (arith, l.less, missing-set_add gates (support_gate_name kind phase) "final" support_sequence)

promised :
    (gates due : List String) (kind : SupportKind) (scope : String) (phase : Option String)
    (plan : SupportPlan)
    → support_gate_exists gates kind scope ≡ false
    → outstanding (set_add gates (support_gate_name kind scope)) due < outstanding gates due
    → some (make_support_plan kind scope phase) ≡ some plan
    → (support_gate_exists gates plan.kind plan.scope ≡ false)
      × (outstanding (with_gate gates plan) due < outstanding gates due)
unfolding make_support_plan
promised gates due kind scope phase plan lacks less h =
    let same : plan ≡ make_support_plan kind scope phase = cc in rw same (lacks, less)

plan-IsNext :
    (gates due : List String) (items : List ProgressItem) (o : Option (String × SupportKind))
    → next_due_phase_support gates due ≡ o
    → IsNext gates due items (plan_of gates items o)
unfolding outstanding
plan-IsNext gates due items (some (phase, kind)) e =
    let l = next_due-IsLacking gates due phase kind e in
    record {
      planned = λ plan h.
          promised gates due kind phase (some phase) plan l.lacks (due-less gates due phase kind l)
            h;
      finished = λ h. absurd (ground arith);
      at_end = λ z. absurd (omega (arith, l.less));
    }
plan-IsNext gates due items none e =
    elim (Bool-cases (any (λ (item : ProgressItem). not item.checked) items)) [
      | inl unfinished ↦ rw unfinished (record {
        planned = λ plan h. absurd (ground arith);
        finished = λ h. (next_due_complete gates due e, inl unfinished);
        at_end = λ z. refl;
      })
      | inr all_done ↦ rw all_done (final (first_missing gates "final" support_sequence) refl)
    ]
  where
    final :
        (o : Option SupportKind)
        → first_missing gates "final" support_sequence ≡ o
        → IsNext gates due items (final_plan o)
    final none f = record {
      planned = λ plan h. absurd (ground arith);
      finished = λ h. (
        next_due_complete gates due e,
        inr (
            omega (
              arith,
              next_due_complete gates due e,
              first_missing-missing gates "final" support_sequence f,
            )),
      );
      at_end = λ z. refl;
    }
    final (some kind) f = record {
      planned = λ plan h.
          promised gates due kind "final" none plan
            (first_missing-lacks gates "final" kind support_sequence f)
            (final-less gates due kind f) h;
      finished = λ h. absurd (ground arith);
      at_end = λ z. absurd (omega (arith, final-less gates due kind f));
    }

-- The next support plan is always for a gate file that is missing, and that file brings the work
-- nearer to its end: fewer gates are outstanding. There is none only when no due phase lacks a gate and either an
-- item is unchecked or no gate is outstanding at all, and none when no gate is outstanding.
pub next_support_plan-IsNext :
    (gates : List String) (due : Option (List String)) (items : List ProgressItem)
    → IsNext gates (read_due due) items (next_support_plan gates due items)
unfolding next_support_plan
next_support_plan-IsNext gates due items =
    plan-IsNext gates (read_due due) items (next_due_phase_support gates (read_due due)) refl

abbrev pub after_plan : List String → Option SupportPlan → List String
after_plan gates none = gates
after_plan gates (some plan) = with_gate gates plan

-- Support runs one after the other, each of which leaves its gate file.
unfoldable pub support_rounds :
    ℕ → List String → Option (List String) → List ProgressItem → List String
support_rounds zero gates due items = gates
support_rounds (suc n) gates due items =
    support_rounds n (after_plan gates (next_support_plan gates due items)) due items

-- Support work ends: after as many runs as gates are outstanding, each of which leaves its gate file, no plan is
-- left.
pub support_rounds-end :
    (n : ℕ) (gates : List String) (due : Option (List String)) (items : List ProgressItem)
    → outstanding gates (read_due due) ≤ n
    → next_support_plan (support_rounds n gates due items) due items ≡ none
unfolding support_rounds
support_rounds-end zero gates due items h =
    (next_support_plan-IsNext gates due items).at_end (omega arith)
support_rounds-end (suc n) gates due items h =
    elim (Option-cases (next_support_plan gates due items)) [
      | inl e ↦ rw e (stays n e)
      | inr (plan, e) ↦ rw e (
          support_rounds-end n (with_gate gates plan) due items
            (omega (arith, ((next_support_plan-IsNext gates due items).planned plan e).1)))
    ]
  where
    stays :
        (m : ℕ)
        → next_support_plan gates due items ≡ none
        → next_support_plan (support_rounds m gates due items) due items ≡ none
    stays zero e = e
    stays (suc m) e = rw e (stays m e)
