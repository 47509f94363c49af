-- ===== src/Claims/Tests.antt =====
-- Runs of collaboration/claims.ts, and its theorems at concrete claims.
use trade_compliance_classif.Prelude.{
  ◌≡◌, refl, ◌↔◌, true, none, some, List, [], ◌∷◌, String, is_empty, false, ◌==◌, if◌then◌else◌,
}
use trade_compliance_classif.Types.{Batch, BatchType}
use trade_compliance_classif.Claims.{
  Claim, ClaimStatus, active, done, ClaimSet, parsed, broken, Directory, normalize_task, same_task,
  validate_claims, validate_claim_shape, load_claims, prepare_runtime_claim, batch_of_name,
  reconcile_committed_runtime_claim, runtime_claim, runs,
}
use trade_compliance_classif.Claims.Batches.{completed_yolo_batches, batch_of_subject, whole_number}
use trade_compliance_classif.Claims.Batches.Roundtrip.{reconcile_committed_runtime_claim-done}
use trade_compliance_classif.Prelude.Text.{◌⧺◌, text_eq, pad3, text_runs}
use trade_compliance_classif.Prelude.Sets.{has}
use trade_compliance_classif.Claims.Contract.{IsExclusive, validate_claims-IsExclusive}
use trade_compliance_classif.Prelude.Regex.{lit_i, cut_suffix}
use trade_compliance_classif.Claims.Normal
use trade_compliance_classif.Claims.Normal.{
  RawClaim, absent, text, number, array, text_item, named_item, other_item, schema_of, object_of,
  normalize_claim, IsClean, normalize_claim-object_of, validate_claim_shape-normalize_claim,
}
use trade_compliance_classif.Claims.Prepare.{IsPrepared, prepare_runtime_claim-IsPrepared}

abbrev claim_of : String → String → List String → ClaimStatus → Claim
claim_of task operator files status = record {
  schema_version = 1;
  task = task;
  operator = operator;
  tool = "klevar-yolo-runtime";
  branch = "claims/a";
  status = status;
  started_at = "t";
  expected_files = files;
}

abbrev search_batch : Batch
search_batch = record {
  number = 4;
  items =
      record {
        raw = "";
        tag = "[API]";
        title = "Search";
        phase = "1";
        checked = false;
        details = [];
        affected_files = "src/a.rs" ∷ [];
      }
      ∷ [];
  type = BatchType.implement;
  support_kind = none;
  support_scope = none;
}

abbrev two_files : Directory
two_files =
    ("bad.json", broken "Unexpected end")
    ∷ ("yolo-batch-003.json", parsed (claim_of "Page" "operator:pi-yolo" ("web/a.ts" ∷ []) active))
    ∷ []

abbrev one_file : Directory
one_file = ("ada.json", parsed (claim_of "[API] search — PRD 4" "operator:ada" [] active)) ∷ []

abbrev twice : ClaimSet
twice = record {
  claims = claim_of "Page" "operator:ada" ("web/a.ts" ∷ "web/a.ts" ∷ []) active ∷ [];
  errors = [];
}

-- A single claim conflicts with itself when it lists a file twice.
claims_run :
    (normalize_task "[API] Search — PRD 4" ≡ "search")
    × (same_task "Full search" "[UI] SEARCH" ≡ true)
    × (batch_of_name "yolo-batch-012.json" ≡ some 12)
    × (batch_of_name "yolo-batch-.json" ≡ none)
    × ((load_claims (3 ∷ []) two_files).0.claims
        ≡ claim_of "Page" "operator:pi-yolo" ("web/a.ts" ∷ []) done ∷ [])
    × ((load_claims [] two_files).0.errors ≡ "CLAIM_JSON_INVALID:bad.json:Unexpected end" ∷ [])
    × ((prepare_runtime_claim true "t" [] search_batch one_file).1.flags
        ≡ "EXTERNALLY_CLAIMED:Search" ∷ [])
    × ((validate_claims twice).flags ≡ "CLAIM_FILE_CONFLICT:web/a.ts" ∷ [])
unfolding runs
claims_run = (refl, refl, refl, refl, refl, refl, refl, refl)

validate_claims-IsExclusive_example :
    ((validate_claims twice).passed ≡ true)
    ↔ ((is_empty twice.errors ≡ true) × IsExclusive twice.claims)
validate_claims-IsExclusive_example = validate_claims-IsExclusive twice

prepare_runtime_claim-IsPrepared_example :
    IsPrepared "t" search_batch
      (load_claims [] one_file).0
      (load_claims [] one_file).1
      (prepare_runtime_claim true "t" [] search_batch one_file)
prepare_runtime_claim-IsPrepared_example =
    prepare_runtime_claim-IsPrepared "t" [] search_batch one_file

abbrev log_subjects : List String
log_subjects = "chore: x" ∷ "feat(yolo): complete batch 004" ∷ []

subjects_run :
    (completed_yolo_batches
        ("Feat(yolo): complete batch 0012 " ∷ "feat(yolo): complete batch 7x" ∷ [])
      ≡ 12 ∷ [])
    × (completed_yolo_batches log_subjects ≡ 4 ∷ [])
    × (has log_subjects ("feat(yolo): complete batch " ⧺ pad3 search_batch.number) ≡ true)
unfolding runs completed_yolo_batches batch_of_subject whole_number text_runs
subjects_run = (refl, refl, refl)

reconcile_committed_runtime_claim-done_example :
    reconcile_committed_runtime_claim
      (runtime_claim "t" search_batch active)
      ("yolo-batch-" ⧺ pad3 4 ⧺ ".json")
      (completed_yolo_batches log_subjects)
    ≡ runtime_claim "t" search_batch done
reconcile_committed_runtime_claim-done_example =
    reconcile_committed_runtime_claim-done "t" search_batch active log_subjects refl
      (subjects_run.2)

abbrev clean_claim : Claim
clean_claim = claim_of "Build search" "ana" ("src/a.ts" ∷ "src/b.ts" ∷ []) ClaimStatus.blocked

clean_claim-IsClean : IsClean clean_claim
unfolding text_runs
clean_claim-IsClean = record {
  task = (refl, refl);
  operator = (refl, refl);
  tool = refl;
  branch = (refl, refl);
  started_at = (refl, refl);
  files = ((refl, refl), ((refl, refl), tt));
}

normalize_claim-object_of_example :
    normalize_claim (object_of clean_claim) "a.json" "now" ≡ clean_claim
normalize_claim-object_of_example =
    normalize_claim-object_of clean_claim "a.json" "now" clean_claim-IsClean

abbrev scant : RawClaim
scant = record (object_of clean_claim) {
  task = absent;
  description = text " Add: Search! ";
  branch = number 3;
  status = text " Closed ";
  expected_files = array (text_item "src\\a.ts" ∷ other_item ∷ named_item "b.ts" ∷ []);
}

normalize_run :
    ((normalize_claim scant "a.json" "now").task ≡ "Add: Search!")
    × ((normalize_claim scant "a.json" "now").branch ≡ "claims/add-search")
    × ((normalize_claim scant "a.json" "now").status ≡ ClaimStatus.done)
    × ((normalize_claim scant "a.json" "now").expected_files ≡ "src/a.ts" ∷ "b.ts" ∷ [])
unfolding Normal.runs
normalize_run = (refl, refl, refl, refl)

json_stem : text_eq (cut_suffix (lit_i ".json") "a.json") "" ≡ false
unfolding Normal.runs
json_stem = refl

validate_claim_shape-normalize_claim_example :
    validate_claim_shape (normalize_claim scant "a.json" "now") "a.json" ≡ (
      if schema_of scant.schema_version == 1
      then []
      else ("CLAIM_SCHEMA_UNSUPPORTED:" ⧺ "a.json") ∷ [])
validate_claim_shape-normalize_claim_example =
    validate_claim_shape-normalize_claim scant "a.json" "now" json_stem refl
