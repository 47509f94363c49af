-- ===== src/Contracts.antt =====
-- tools/klevar-yolo-runtime/src/result-contracts.ts and journal-contract.ts, with the deterministic journal
-- of journal-fast-path.ts: what a result has to be to count. A result has the shape of its type here, so the
-- tests of shapes never fail; the two confirmations that a journal's result may carry beside its fields
-- are arguments.
pub mod Journal
mod Tests
use trade_compliance_classif.Prelude.{
  ℕ, Bool, true, false, not, ◌&&◌, ◌||◌, Option, none, some, List, [], ◌∷◌, ◌++◌, map, String, ◌==◌,
  if◌then◌else◌, any, filter, is_empty,
}
use trade_compliance_classif.Prelude.Text.{
  ◌⧺◌, text_eq, to_lower, to_upper, pad3, replace_char, text_runs,
}
use trade_compliance_classif.Prelude.Regex.{
  Re, or, seq, star, dot, optional, lit, lit_i, matches, search_in,
}
use trade_compliance_classif.Flags
use trade_compliance_classif.Flags.{is_blocking_flag}
use trade_compliance_classif.Types.{
  AgentRole, journal, ResultStatus, success, partial_success, failure, bug_found, invalid_result,
  is_success, ProgressItem, BatchType, Batch, Artifact, BatchResult, GateResult,
}
use trade_compliance_classif.Findings.{RuntimeFinding, RiskClass, low, medium, is_open}
use trade_compliance_classif.Risk
use trade_compliance_classif.Risk.{classify_batch_risk}

abbrev pub status_text : ResultStatus → String
status_text success = "SUCCESS"
status_text partial_success = "PARTIAL_SUCCESS"
status_text failure = "FAILURE"
status_text bug_found = "BUG_FOUND"
status_text invalid_result = "INVALID_RESULT"

abbrev pub is_failure : ResultStatus → Bool
is_failure failure = true
is_failure _ = false

-- `failureType`, where it is a text that is not empty.
abbrev pub truthy : Option String → Option String
truthy none = none
truthy (some s) = if text_eq s "" then none else some s

-- `/^INVALID_(?:STATUS|.*_SHAPE)$/`
abbrev invalid_shape : Re
invalid_shape = seq (lit "INVALID_") (or (lit "STATUS") (seq (star dot) (lit "_SHAPE")))

abbrev pub failure_flags : ResultStatus → Option String → List String
failure_flags failure none = "FAILURE_WITHOUT_FAILURE_TYPE" ∷ []
failure_flags failure (some type) = ("RESULT_STATUS_FAILURE:" ⧺ type) ∷ []
failure_flags status none = []
failure_flags status (some type) = ("FAILURE_TYPE_WITH_" ⧺ status_text status) ∷ []

abbrev pub commit_flags : Option String → List String
commit_flags none = []
commit_flags (some commit) = "COMMIT_CLAIMED_BY_AGENT" ∷ []

unfoldable pub contract_flags : BatchResult → List String
contract_flags result =
    (if result.schema_version == 1 then [] else "INVALID_SCHEMA_VERSION" ∷ [])
    ++ (filter (matches invalid_shape) result.flags
        ++ (failure_flags result.status (truthy result.failure_type) ++ commit_flags result.commit))

unfoldable pub validate_contract : BatchResult → GateResult
validate_contract result = record {
  name = "contract";
  passed = is_empty (contract_flags result);
  flags = contract_flags result;
}

abbrev is_journal : AgentRole → Bool
is_journal journal = true
is_journal _ = false

unfoldable pub has_flag : BatchResult → String → Bool
has_flag result flag = any (λ item. text_eq (to_upper item) flag) result.flags

unfoldable pub has_changed_or_artifact : BatchResult → String → Bool
has_changed_or_artifact result target =
    any (λ file. text_eq (replace_char b'\\' b'/' file) target) result.files_changed
    || any (λ (a : Artifact). text_eq (replace_char b'\\' b'/' a.path) target) result.artifacts

abbrev pub journal_path : ℕ → String
journal_path n = "docs/build-journal/" ⧺ (pad3 n ⧺ "-batch.md")

abbrev pub gate_path : ℕ → String
gate_path n = ".yolo/gates/journal-batch-" ⧺ (pad3 n ⧺ ".md")

unfoldable pub journal_entry_confirmed : Bool → BatchResult → Bool
journal_entry_confirmed written result =
    written
    || has_flag result "JOURNAL_ENTRY_WRITTEN"
    || has_changed_or_artifact result (journal_path result.batch)

unfoldable pub journal_gate_confirmed : Bool → BatchResult → Bool
journal_gate_confirmed written result =
    written
    || has_flag result "JOURNAL_GATE_WRITTEN"
    || has_flag result "GATE_FILE_WRITTEN"
    || has_changed_or_artifact result (gate_path result.batch)

abbrev flag_unless : Bool → String → List String
flag_unless ok flag = if ok then [] else flag ∷ []

abbrev missing_type : ResultStatus → Option String → List String
missing_type failure none = "FAILURE_WITHOUT_FAILURE_TYPE" ∷ []
missing_type _ _ = []

unfoldable pub journal_flags : Bool → Bool → BatchResult → List String
journal_flags entry gate result =
    flag_unless (result.schema_version == 1) "INVALID_SCHEMA_VERSION"
    ++ (flag_unless (is_journal result.agent) "INVALID_JOURNAL_AGENT"
        ++ (missing_type result.status (truthy result.failure_type)
            ++ (flag_unless (not (is_success result.status) || journal_entry_confirmed entry result)
                  "JOURNAL_ENTRY_NOT_CONFIRMED"
                ++ (flag_unless
                      (not (is_success result.status) || journal_gate_confirmed gate result)
                      "JOURNAL_GATE_NOT_CONFIRMED"
                    ++ commit_flags result.commit))))

pub record ContractResult : Type 0 where
  pub passed : Bool
  pub flags : List String

unfoldable pub validate_journal_contract : Bool → Bool → BatchResult → ContractResult
validate_journal_contract entry gate result = record {
  passed = is_empty (journal_flags entry gate result);
  flags = journal_flags entry gate result;
}

-- `/close-?out|audit/i`
abbrev closing : Re
closing = or (seq (lit_i "close") (seq (optional (lit "-")) (lit_i "out"))) (lit_i "audit")

abbrev is_support_batch : Batch → Bool
is_support_batch batch = elim batch.support_kind [ none ↦ false | some _ ↦ true ]

abbrev is_implement : BatchType → Bool
is_implement BatchType.implement = true
is_implement BatchType.audit = false

abbrev is_modest : RiskClass → Bool
is_modest low = true
is_modest medium = true
is_modest _ = false

-- The configuration gives `speed.deterministicJournal !== false`; the findings are the state's, if there
-- is one.
unfoldable pub deterministic_journal_eligible :
    Bool → Batch → BatchResult → List RuntimeFinding → Bool
deterministic_journal_eligible enabled batch result findings =
    if not enabled
    then false
    else if not (is_implement batch.type) || is_support_batch batch
    then false
    else if any
        (λ (item : ProgressItem). search_in closing item.title || text_eq item.tag "[AUDIT]")
        batch.items
    then false
    else if not (is_success result.status)
    then false
    else if any is_blocking_flag result.flags
    then false
    else if any (λ (f : RuntimeFinding). is_open f.status) findings
    then false
    else is_modest (classify_batch_risk batch (some result)).class

unfoldable pub deterministic_journal_result : Batch → BatchResult
deterministic_journal_result batch = record {
  schema_version = 1;
  agent = journal;
  batch = batch.number;
  status = success;
  items_completed = map (λ (item : ProgressItem). item.title) batch.items;
  files_changed = journal_path batch.number ∷ gate_path batch.number ∷ [];
  tests = [];
  wiring = none;
  project_local_checks = none;
  business_logic = none;
  artifacts =
      record {
        path = journal_path batch.number;
        description = some "Deterministic build-journal entry";
      }
      ∷ record { path = gate_path batch.number; description = some "Deterministic journal gate" }
      ∷ [];
  local_only_files = none;
  inbox = none;
  failure_type = none;
  flags = "JOURNAL_ENTRY_WRITTEN" ∷ "JOURNAL_GATE_WRITTEN" ∷ "DETERMINISTIC_JOURNAL_FAST_PATH" ∷ [];
  commit = none;
}

-- What `writeDeterministicJournal` answers; the journal and the gate file that it writes are not kept.
unfoldable pub write_deterministic_journal :
    Bool → Batch → BatchResult → List RuntimeFinding → Option BatchResult
write_deterministic_journal enabled batch result findings =
    if not (deterministic_journal_eligible enabled batch result findings)
    then none
    else if (validate_journal_contract true true (deterministic_journal_result batch)).passed
    then some (deterministic_journal_result batch)
    else none

-- All that a run computes with.
unfoldable pub runs : Unit {0}
unfolding contract_flags validate_contract has_flag has_changed_or_artifact journal_entry_confirmed
    journal_gate_confirmed journal_flags validate_journal_contract deterministic_journal_eligible
    deterministic_journal_result write_deterministic_journal matches search_in text_runs Flags.runs
    Risk.runs
runs = tt
