-- ===== src/Support.antt =====
-- tools/klevar-yolo-runtime/src/support-scheduler.ts: the support work that follows a phase. The
-- directory of gate files is the list of its names; the file of due phases is the texts of its list, or
-- nothing where it is missing or no such JSON.
pub mod Schedule
pub mod Due
mod Tests
use Prim.Native.Char.{code}
use Prim.Native.String
use trade_compliance_classif.Prelude.{
  ℕ, Bool, true, false, not, ◌&&◌, ◌||◌, Option, none, some, List, [], ◌∷◌, ◌++◌, map, String, ◌==◌,
  if◌then◌else◌, any, all, filter, is_empty,
}
use trade_compliance_classif.Prelude.Text.{
  ◌⧺◌, text_eq, trim, to_lower, is_lower, is_digit, replace_runs, split_on, join, text_runs,
}
use trade_compliance_classif.Prelude.Sets.{has, dedup}
use trade_compliance_classif.Types.{
  ProgressItem, SupportKind, modularity, validate_prd, security_audit, Batch, BatchType,
}

pub record SupportPlan : Type 0 where
  pub kind : SupportKind
  pub scope : String
  pub phase : Option String
  pub item : ProgressItem

abbrev pub support_sequence : List SupportKind
support_sequence = modularity ∷ validate_prd ∷ security_audit ∷ []

abbrev pub kind_text : SupportKind → String
kind_text modularity = "modularity"
kind_text validate_prd = "validate-prd"
kind_text security_audit = "security-audit"

in_scope : ℕ → Bool
in_scope c = is_lower c || is_digit c

-- `/^-+/`
drop_dashes : String → String
drop_dashes String.[] = String.[]
drop_dashes (String.◌∷◌ c s) =
    let rest = drop_dashes s in if code c == b'-' then rest else String.◌∷◌ c s

-- `/-+$/`
drop_last_dashes : String → String
drop_last_dashes String.[] = String.[]
drop_last_dashes (String.◌∷◌ c s) =
    let rest = drop_last_dashes s in
    if code c == b'-' && text_eq rest "" then String.[] else String.◌∷◌ c rest

unfoldable pub support_gate_stem : String → String
unfolding in_scope drop_dashes drop_last_dashes
support_gate_stem scope =
    let stem = drop_last_dashes (drop_dashes (replace_runs in_scope "-" false (to_lower scope))) in
    if text_eq stem "" then "project" else stem

unfoldable pub support_gate_name : SupportKind → String → String
support_gate_name kind scope = "support-" ⧺ kind_text kind ⧺ "-" ⧺ support_gate_stem scope ⧺ ".md"

unfoldable pub support_gate_exists : List String → SupportKind → String → Bool
support_gate_exists gates kind scope = has gates (support_gate_name kind scope)

abbrev label_of : Option String → String
label_of none = "Final project"
label_of (some phase) = phase

abbrev phase_of : Option String → String
phase_of none = "Runtime Support"
phase_of (some phase) = phase

abbrev task_of : SupportKind → String
task_of modularity = "run modularity check and safe refactor sweep"
task_of validate_prd = "run PRD validation sweep"
task_of security_audit = "run security audit sweep"

abbrev guidance_of : SupportKind → String
guidance_of modularity =
    "Run structural/modularity checks. Only refactor when an objective violation is found. Preserve behavior and public contracts; run targeted and full regression evidence."
guidance_of validate_prd =
    "Compare implementation against docs/progress.md and the PRD. Fix only objective gaps or record human/manual criteria clearly."
guidance_of security_audit =
    "Run a security/privacy/secrets/access-control audit. Fix only objective findings with tests or document manual follow-up when runtime evidence is impossible."

abbrev without_first : List String → List String
without_first [] = []
without_first (line ∷ lines) = lines

unfoldable pub make_support_plan : SupportKind → String → Option String → SupportPlan
make_support_plan kind scope phase =
    let title = label_of phase ⧺ " support — " ⧺ task_of kind in
    let raw = join "\n" (
      ("- [ ] [FIX] " ⧺ title ⧺ " — PRD N/A (runtime support)")
      ∷ ("  - **Support workflow:** " ⧺ kind_text kind)
      ∷ ("  - **Support scope:** " ⧺ scope)
      ∷ ("  - **Runtime guardrails:** " ⧺ guidance_of kind)
      ∷ []) in
    record {
      kind = kind;
      scope = scope;
      phase = phase;
      item = record {
        raw = raw;
        tag = "[FIX]";
        title = title ⧺ " — PRD N/A (runtime support)";
        phase = phase_of phase;
        checked = false;
        details = map trim (without_first (split_on b'\n' raw));
        affected_files = [];
      };
    }

unfoldable pub read_due : Option (List String) → List String
read_due none = []
read_due (some phases) = filter (λ phase. not (text_eq (trim phase) "")) phases

-- The first kind of support whose gate a scope lacks.
unfoldable pub first_missing : List String → String → List SupportKind → Option SupportKind
first_missing gates scope [] = none
first_missing gates scope (kind ∷ kinds) =
    let rest = first_missing gates scope kinds in
    if support_gate_exists gates kind scope then rest else some kind

abbrev pub due_support :
    String → Option SupportKind → Option (String × SupportKind) → Option (String × SupportKind)
due_support phase none rest = rest
due_support phase (some kind) rest = some (phase, kind)

unfoldable pub next_due_phase_support : List String → List String → Option (String × SupportKind)
next_due_phase_support gates [] = none
next_due_phase_support gates (phase ∷ phases) =
    due_support phase (first_missing gates phase support_sequence)
      (next_due_phase_support gates phases)

abbrev pub final_plan : Option SupportKind → Option SupportPlan
final_plan none = none
final_plan (some kind) = some (make_support_plan kind "final" none)

abbrev pub plan_of :
    List String → List ProgressItem → Option (String × SupportKind) → Option SupportPlan
plan_of gates items (some (phase, kind)) = some (make_support_plan kind phase (some phase))
plan_of gates items none =
    if any (λ (item : ProgressItem). not item.checked) items
    then none
    else final_plan (first_missing gates "final" support_sequence)

unfoldable pub next_support_plan :
    List String → Option (List String) → List ProgressItem → Option SupportPlan
next_support_plan gates due items =
    plan_of gates items (next_due_phase_support gates (read_due due))

abbrev pub is_of : String → ProgressItem → Bool
is_of phase item = text_eq item.phase phase

unfoldable pub is_completed : List ProgressItem → String → Bool
is_completed items phase =
    any (is_of phase) items
    && all (λ (item : ProgressItem). item.checked) (filter (is_of phase) items)

unfoldable pub completed_phases : Batch → List ProgressItem → List String
completed_phases batch items = filter (is_completed items) (
    dedup (
      filter (λ phase. not (text_eq phase ""))
        (map (λ (item : ProgressItem). item.phase) batch.items)))

abbrev pub is_support : Option SupportKind → Bool
is_support none = false
is_support (some kind) = true

unfoldable pub mark_phase_support_due :
    Batch → List ProgressItem → Option (List String) → Option (List String)
mark_phase_support_due batch items due =
    let completed = completed_phases batch items in
    if is_support batch.support_kind
    then due
    else if is_empty completed
    then due
    else some (dedup (read_due due ++ completed))

unfoldable pub apply_support_plan : Batch → Option SupportPlan → Batch
apply_support_plan batch none = batch
apply_support_plan batch (some plan) = record batch {
  items = plan.item ∷ [];
  type = BatchType.implement;
  support_kind = some plan.kind;
  support_scope = some plan.scope;
}

-- All that a run computes with.
unfoldable pub runs : Unit {0}
unfolding support_gate_stem support_gate_name support_gate_exists make_support_plan read_due
    first_missing next_due_phase_support next_support_plan is_completed completed_phases
    mark_phase_support_due apply_support_plan dedup text_runs
runs = tt
