-- ===== src/Findings.antt =====
-- tools/klevar-yolo-runtime/src/runtime-batch-state.ts: the state that the runtime keeps of a batch,
-- above all its findings and which of them are open. A map from ids to findings is the list of its
-- findings in the order of insertion. The clock readings of one operation are one time, an argument.
pub mod Evidence
pub mod Close
pub mod State
pub mod Maps
pub mod Passes
pub mod Gates
pub mod Raising
pub mod Import
pub mod Reporting
pub mod Canonical
mod Tests
use trade_compliance_classif.Prelude.{
  ℕ, Bool, true, false, not, Option, none, some, List, [], ◌∷◌, ◌++◌, String, if◌then◌else◌,
}
use trade_compliance_classif.Prelude.Text.{text_eq}
use trade_compliance_classif.Types.{BatchResult}

pub data FindingStatus : Type 0 where
  open_finding fixed stale accepted human : FindingStatus

pub data RiskClass : Type 0 where
  low medium high critical : RiskClass

pub record RuntimeFinding : Type 0 where
  pub id : String
  pub source : String
  pub status : FindingStatus
  pub evidence : List String
  pub last_checked_at : String

pub record RuntimeCommandEvidence : Type 0 where
  pub phase : String
  pub command : String
  pub exit_code : ℕ
  pub source : String
  pub completed_at : String

pub record RuntimeClosureTrace : Type 0 where
  pub finding_id : String
  pub from : FindingStatus
  pub to : FindingStatus
  pub cause : String
  pub evidence : List String
  pub at : String

pub record RuntimeOpenExplanation : Type 0 where
  pub finding_id : String
  pub reason : String
  pub evidence : List String
  pub at : String

pub record Risk : Type 0 where
  pub class : RiskClass
  pub reasons : List String

pub record GateState : Type 0 where
  pub name : String
  pub passed : Bool
  pub flags : List String

pub record RuntimeBatchState : Type 0 where
  pub batch : ℕ
  pub selected_items : List String
  pub changed_files : List String
  pub risk : Risk
  pub current_result : BatchResult
  pub findings : List RuntimeFinding
  pub commands : List RuntimeCommandEvidence
  pub gates : List GateState
  pub closure_traces : List RuntimeClosureTrace
  pub open_explanations : List RuntimeOpenExplanation
  pub updated_at : String

abbrev pub is_open : FindingStatus → Bool
is_open FindingStatus.open_finding = true
is_open _ = false

-- `byId.get(id)`
unfoldable pub get : String → List RuntimeFinding → Option RuntimeFinding
get id [] = none
get id (f ∷ fs) = let rest = get id fs in if text_eq f.id id then some f else rest

-- `byId.set(f.id, f)`: in the place of the finding with that id, or at the end.
unfoldable pub put : RuntimeFinding → List RuntimeFinding → List RuntimeFinding
put f [] = f ∷ []
put f (g ∷ gs) = let rest = put f gs in if text_eq g.id f.id then f ∷ gs else g ∷ rest

-- `new Map(findings.map((finding) => [finding.id, finding]))`
unfoldable pub put_all : List RuntimeFinding → List RuntimeFinding → List RuntimeFinding
unfolding put
put_all acc [] = acc
put_all acc (f ∷ fs) = put_all (put f acc) fs

unfoldable pub by_id : List RuntimeFinding → List RuntimeFinding
unfolding put_all
by_id fs = put_all [] fs
