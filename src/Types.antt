-- ===== src/Types.antt =====
-- tools/klevar-yolo-runtime/src/types.ts: the records that the runtime's parts exchange. An optional
-- field whose absence the code reads as an empty list is a list; any other is an `Option`. Test
-- evidence is kept in the order of the object's keys.
use trade_compliance_classif.Prelude.{ℕ, Bool, true, false, Option, List, String}

pub data AgentRole : Type 0 where
  master knowledge inbox implement validate journal audit bugfix adjudicate : AgentRole

pub data ResultStatus : Type 0 where
  success partial_success failure bug_found invalid_result : ResultStatus

pub record ProgressItem : Type 0 where
  pub raw : String
  pub tag : String
  pub title : String
  pub phase : String
  pub checked : Bool
  pub details : List String
  pub affected_files : List String

pub data BatchType : Type 0 where
  implement audit : BatchType

pub data SupportKind : Type 0 where
  modularity validate_prd security_audit : SupportKind

pub record Batch : Type 0 where
  pub number : ℕ
  pub items : List ProgressItem
  pub type : BatchType
  pub support_kind : Option SupportKind
  pub support_scope : Option String

pub record TestEvidence : Type 0 where
  pub command : String
  pub exit_code : ℕ
  pub evidence : String

pub record Entrypoint : Type 0 where
  pub type : String
  pub path : String
  pub verified_by : String

pub record Wiring : Type 0 where
  pub required : Bool
  pub entrypoints : List Entrypoint

pub record ProjectLocalChecks : Type 0 where
  pub evaluated : ℕ
  pub triggered : List String
  pub notes : Option String

pub record BusinessLogic : Type 0 where
  pub rule : String
  pub source_of_truth : String
  pub observable_paths : List String
  pub test : String

pub record Artifact : Type 0 where
  pub path : String
  pub description : Option String

pub record BatchResult : Type 0 where
  pub schema_version : ℕ
  pub agent : AgentRole
  pub batch : ℕ
  pub status : ResultStatus
  pub items_completed : List String
  pub files_changed : List String
  pub tests : List (String × TestEvidence)
  pub wiring : Option Wiring
  pub project_local_checks : Option ProjectLocalChecks
  pub business_logic : Option BusinessLogic
  pub artifacts : List Artifact
  pub local_only_files : Option (List String)
  pub inbox : Option (List String)
  pub failure_type : Option String
  pub flags : List String
  pub commit : Option String

pub record GateResult : Type 0 where
  pub name : String
  pub passed : Bool
  pub flags : List String

abbrev pub is_success : ResultStatus → Bool
is_success ResultStatus.success = true
is_success _ = false
