-- ===== src/Claims/Batches.antt =====
-- completedYoloBatches of tools/klevar-yolo-runtime/src/collaboration/claims.ts: the batches that the log of
-- commits tells to be complete. The subjects are the lines that `git log` printed.
pub mod Roundtrip
use Prim.Native.Char.{code}
use Prim.Native.String
use trade_compliance_classif.Prelude.{
  ℕ, ◌+◌, ◌-◌, ◌*◌, Bool, true, false, Option, none, some, List, [], ◌∷◌, String, if◌then◌else◌,
}
use trade_compliance_classif.Prelude.Text.{◌⧺◌, trim, is_digit, strip_prefix_i, pad3}

-- `/^0*(\d+)$/`, with the number that the digits write.
unfoldable pub whole_number : Bool → ℕ → String → Option ℕ
whole_number seen n String.[] = if seen then some n else none
whole_number seen n (String.◌∷◌ c s) =
    let more = whole_number true (n * 10 + (code c - 48)) s in
    if is_digit (code c) then more else none

unfoldable pub batch_of_subject : String → Option ℕ
batch_of_subject subject = elim (strip_prefix_i "feat(yolo): complete batch " (trim subject)) [
  | none ↦ none
  | some rest ↦ whole_number false 0 rest
]

abbrev pub add_number : Option ℕ → List ℕ → List ℕ
add_number none numbers = numbers
add_number (some n) numbers = n ∷ numbers

unfoldable pub completed_yolo_batches : List String → List ℕ
completed_yolo_batches [] = []
completed_yolo_batches (subject ∷ subjects) =
    add_number (batch_of_subject subject) (completed_yolo_batches subjects)
