-- ===== src/Recovery/Parts.antt =====
-- tools/klevar-yolo-runtime/src/recovery-merge.ts: the test evidence, the wiring, the checks and the business logic of a
-- result merged with those of its bugfix. Tests and entrypoints are as `readBatchResult` gives them, so
-- normalising them again changes nothing; the length of a text counts its characters.
use trade_compliance_classif.Prelude.{
  max, Bool, true, not, ◌&&◌, ◌||◌, Option, none, some, List, [], ◌∷◌, ◌++◌, String, leb, ◌==◌,
  if◌then◌else◌, is_empty,
}
use trade_compliance_classif.Prelude.Text.{text_runs, text_eq, trim, join, text_length}
use trade_compliance_classif.Prelude.Sets.{dedup}
use trade_compliance_classif.Prelude.Regex.{
  seq, or, optional, lit, lit_i, lits_i, matches, search_in,
}
use trade_compliance_classif.Types.{
  TestEvidence, Entrypoint, Wiring, ProjectLocalChecks, BusinessLogic,
}

abbrev pub Tests : Type 0
Tests = List (String × TestEvidence)

unfoldable pub phase : String → Tests → Option TestEvidence
phase name [] = none
phase name ((n, e) ∷ tests) = let rest = phase name tests in if text_eq n name then some e else rest

unfoldable pub set_phase : String → TestEvidence → Tests → Tests
set_phase name e [] = (name, e) ∷ []
set_phase name e ((n, old) ∷ tests) =
    let rest = set_phase name e tests in if text_eq n name then (n, e) ∷ tests else (n, old) ∷ rest

unfoldable pub unset_phase : String → Tests → Tests
unset_phase name [] = []
unset_phase name ((n, e) ∷ tests) =
    let rest = unset_phase name tests in if text_eq n name then rest else (n, e) ∷ rest

abbrev pub assign : String → Option TestEvidence → Tests → Tests
assign name none tests = unset_phase name tests
assign name (some e) tests = set_phase name e tests

-- `{ ...implementation, ...bugfix }`
unfoldable pub spread : Tests → Tests → Tests
spread tests [] = tests
spread tests ((name, e) ∷ more) = spread (set_phase name e tests) more

unfoldable pub is_runnable_test_evidence : TestEvidence → Bool
is_runnable_test_evidence e =
    let command = trim e.command in
    not (text_eq command "")
    && not (
        matches
          (or (seq (lit_i "N") (seq (optional (lit "/")) (lit_i "A")))
            (lits_i ("not applicable" ∷ "not run" ∷ "skipped" ∷ "none" ∷ "manual" ∷ [])))
          command)

abbrev pub runs_and_passes : TestEvidence → Bool
runs_and_passes e = is_runnable_test_evidence e && e.exit_code == 0

abbrev pub stronger_test_evidence : Option TestEvidence → Option TestEvidence → Option TestEvidence
stronger_test_evidence existing none = existing
stronger_test_evidence none (some candidate) = some candidate
stronger_test_evidence (some existing) (some candidate) =
    if runs_and_passes existing && not (runs_and_passes candidate)
    then some existing
    else some candidate

abbrev or_evidence : Option TestEvidence → Option TestEvidence → Option TestEvidence
or_evidence none other = other
or_evidence (some e) other = some e

unfoldable pub merge_recovered_tests : Tests → Tests → Bool → Tests
merge_recovered_tests implementation bugfix allow_red =
    let red =
      if allow_red
      then or_evidence (phase "red" bugfix) (phase "red" implementation)
      else phase "red" implementation in
    assign "e2e" (stronger_test_evidence (phase "e2e" implementation) (phase "e2e" bugfix)) (
      assign "regression"
        (stronger_test_evidence (phase "regression" implementation) (phase "regression" bugfix))
        (assign "green"
          (stronger_test_evidence (phase "green" implementation) (phase "green" bugfix))
          (assign "red" red (spread implementation bugfix))))

abbrev or_text : String → String → String
or_text s t = if text_eq s "" then t else s

abbrev merged_entry : Option Entrypoint → Entrypoint → Entrypoint
merged_entry none entry = record entry { type = or_text entry.type "entrypoint" }
merged_entry (some prior) entry = record {
  type = or_text entry.type (or_text prior.type "entrypoint");
  path = entry.path;
  verified_by = or_text entry.verified_by prior.verified_by;
}

unfoldable pub entry_at : String → List Entrypoint → Option Entrypoint
entry_at path [] = none
entry_at path (entry ∷ entries) =
    let rest = entry_at path entries in if text_eq entry.path path then some entry else rest

unfoldable pub put_entry : Entrypoint → List Entrypoint → List Entrypoint
put_entry entry [] = entry ∷ []
put_entry entry (e ∷ entries) =
    let rest = put_entry entry entries in
    if text_eq e.path entry.path then entry ∷ entries else e ∷ rest

entries_by_path : List Entrypoint → List Entrypoint → List Entrypoint
entries_by_path acc [] = acc
entries_by_path acc (entry ∷ entries) = entries_by_path (put_entry entry acc) entries

add_entries : List Entrypoint → List Entrypoint → List Entrypoint
add_entries acc [] = acc
add_entries acc (entry ∷ entries) =
    add_entries (put_entry (merged_entry (entry_at entry.path acc) entry) acc) entries

abbrev merge_wirings : Wiring → Wiring → Wiring
merge_wirings implementation bugfix =
    let entrypoints =
      add_entries (entries_by_path [] implementation.entrypoints) bugfix.entrypoints in
    if is_empty implementation.entrypoints then bugfix else record {
      required = implementation.required || bugfix.required || not (is_empty entrypoints);
      entrypoints = entrypoints;
    }

unfoldable pub merge_recovered_wiring : Option Wiring → Option Wiring → Bool → Option Wiring
unfolding entries_by_path add_entries
merge_recovered_wiring implementation none allow = implementation
merge_recovered_wiring none (some bugfix) allow = if allow then some bugfix else none
merge_recovered_wiring (some implementation) (some bugfix) allow =
    if allow then some (merge_wirings implementation bugfix) else some implementation

abbrev note_of : Option String → List String
note_of none = []
note_of (some s) = if text_eq s "" then [] else s ∷ []

abbrev notes_or_none : String → Option String
notes_or_none s = if text_eq s "" then none else some s

unfoldable pub merge_project_local_checks :
    Option ProjectLocalChecks → Option ProjectLocalChecks → Option ProjectLocalChecks
merge_project_local_checks implementation none = implementation
merge_project_local_checks none (some b) = some (record {
  evaluated = b.evaluated;
  triggered = dedup b.triggered;
  notes = notes_or_none (join " | " (note_of b.notes));
})
merge_project_local_checks (some a) (some b) = some (record {
  evaluated = max a.evaluated b.evaluated;
  triggered = dedup (a.triggered ++ b.triggered);
  notes = notes_or_none (join " | " (note_of a.notes ++ note_of b.notes));
})

unfoldable pub richer_text : String → String → String
richer_text candidate fallback =
    if text_eq candidate ""
    then fallback
    else if text_eq fallback ""
    then candidate
    else if leb (text_length fallback) (text_length candidate)
        || search_in (lits_i ("fixed" ∷ "verified" ∷ "regression" ∷ "e2e" ∷ "passed" ∷ []))
            candidate
    then candidate
    else fallback

unfoldable pub merge_business_logic :
    Option BusinessLogic → Option BusinessLogic → Bool → Option BusinessLogic
merge_business_logic implementation none allow = implementation
merge_business_logic none (some b) allow = if allow then some b else none
merge_business_logic (some a) (some b) allow =
    if allow
    then some (record {
      rule = richer_text b.rule a.rule;
      source_of_truth = richer_text b.source_of_truth a.source_of_truth;
      observable_paths = dedup (a.observable_paths ++ b.observable_paths);
      test = richer_text b.test a.test;
    })
    else some a

abbrev files_or_none : Option (List String) → List String
files_or_none none = []
files_or_none (some files) = files

unfoldable pub merge_local_only_files :
    Option (List String) → Option (List String) → Bool → List String
merge_local_only_files implementation (some bugfix) true = dedup bugfix
merge_local_only_files implementation bugfix allow = dedup (files_or_none implementation)

-- All that a run computes with.
unfoldable pub runs : Unit {0}
unfolding phase set_phase unset_phase spread is_runnable_test_evidence merge_recovered_tests
    entry_at put_entry merge_recovered_wiring merge_project_local_checks richer_text
    merge_business_logic merge_local_only_files search_in matches dedup entries_by_path add_entries
    text_runs
runs = tt
