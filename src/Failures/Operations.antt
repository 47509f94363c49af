-- ===== src/Failures/Operations.antt =====
-- The operations of failure-patterns.ts in any order.
use trade_compliance_classif.Prelude.{
  ℕ, ◌≡◌, refl, ◌∙◌, inl, inr, false, none, List, [], ◌∷◌, ◌++◌, String, if◌then◌else◌, arith,
  Bool-cases,
}
use trade_compliance_classif.Prelude.Text.{text_eq}
use trade_compliance_classif.Types.{Batch, BatchResult}
use trade_compliance_classif.Failures.{
  FailureRecord, find_record, prune_failure_patterns_for_batch, mark_reinforced, record_failure,
  failure_key, is_failure,
}
use trade_compliance_classif.Failures.History.{
  History, batches_in, IsValid, Tracks, record_failure-Tracks,
}
use trade_compliance_classif.Failures.Prune.{without, prune_failure_patterns_for_batch-Tracks}

find-mark :
    (key k : String) (rs : List FailureRecord)
    → batches_in k (mark_reinforced key rs) ≡ batches_in k rs
unfolding mark_reinforced find_record
find-mark key k [] = refl
find-mark key k (r ∷ rs) = ground (arith, find-mark key k rs)

mark-absent :
    (key k : String) (rs : List FailureRecord)
    → find_record k rs ≡ none
    → find_record k (mark_reinforced key rs) ≡ none
unfolding mark_reinforced find_record
mark-absent key k [] h = refl
mark-absent key k (r ∷ rs) h = ground (arith, mark-absent key k rs)

mark-IsValid :
    (key : String) (rs : List FailureRecord) → IsValid rs → IsValid (mark_reinforced key rs)
unfolding mark_reinforced
mark-IsValid key [] v = tt
mark-IsValid key (r ∷ rs) v = elim (Bool-cases (text_eq r.key key)) [
  | inl e ↦ rw e (mark-absent key r.key rs v.0, v.1, v.2, mark-IsValid key rs v.3)
  | inr e ↦ rw e (mark-absent key r.key rs v.0, v.1, v.2, mark-IsValid key rs v.3)
]

-- Marking a key as reinforced keeps the history that the records stand for.
pub mark_reinforced-Tracks :
    (key : String) (h : History) (rs : List FailureRecord)
    → Tracks h rs
    → Tracks h (mark_reinforced key rs)
mark_reinforced-Tracks key h rs t = record {
  valid = mark-IsValid key rs t.valid;
  same = λ k. find-mark key k rs ∙ t.same k;
}

-- The operations in any order, and the history that they leave.
pub data Operation : Type 0 where
  failed : Batch → BatchResult → Operation
  reinforce : String → Operation
  forget : ℕ → Operation

unfoldable pub operate : String → ℕ → Operation → List FailureRecord → List FailureRecord
unfolding prune_failure_patterns_for_batch mark_reinforced
operate now threshold (failed batch result) rs = (record_failure now threshold batch result rs).0
operate now threshold (reinforce key) rs = mark_reinforced key rs
operate now threshold (forget b) rs = (prune_failure_patterns_for_batch b rs).0

unfoldable pub remember : Operation → History → History
remember (failed batch result) h =
    if is_failure result.status then h ++ (failure_key result, batch.number) ∷ [] else h
remember (reinforce key) h = h
remember (forget b) h = without b h

unfoldable pub operate_all : String → ℕ → List Operation → List FailureRecord → List FailureRecord
unfolding operate
operate_all now threshold [] rs = rs
operate_all now threshold (op ∷ ops) rs =
    operate_all now threshold ops (operate now threshold op rs)

unfoldable pub remember_all : List Operation → History → History
unfolding remember
remember_all [] h = h
remember_all (op ∷ ops) h = remember_all ops (remember op h)

unchanged :
    (now : String) (threshold : ℕ) (batch : Batch) (result : BatchResult) (rs : List FailureRecord)
    → is_failure result.status ≡ false
    → (record_failure now threshold batch result rs).0 ≡ rs
unfolding record_failure
unchanged now threshold batch result rs ok = rw ok

operate-Tracks :
    (now : String) (threshold : ℕ) (op : Operation) (h : History) (rs : List FailureRecord)
    → Tracks h rs
    → Tracks (remember op h) (operate now threshold op rs)
unfolding operate remember
operate-Tracks now threshold (failed batch result) h rs t =
    elim (Bool-cases (is_failure result.status)) [
      | inl bad ↦ rw bad (record_failure-Tracks now threshold batch result h rs t bad).0
      | inr ok ↦ rw (ok, unchanged now threshold batch result rs ok) t
    ]
operate-Tracks now threshold (reinforce key) h rs t = mark_reinforced-Tracks key h rs t
operate-Tracks now threshold (forget b) h rs t = prune_failure_patterns_for_batch-Tracks b h rs t

-- Whatever is recorded, reinforced and pruned, in any order, the records stand for the history of the
-- failures recorded and not pruned since; in particular each counts its batches, and no key has two.
pub operate_all-Tracks :
    (now : String) (threshold : ℕ) (ops : List Operation) (h : History) (rs : List FailureRecord)
    → Tracks h rs
    → Tracks (remember_all ops h) (operate_all now threshold ops rs)
unfolding operate_all remember_all
operate_all-Tracks now threshold [] h rs t = t
operate_all-Tracks now threshold (op ∷ ops) h rs t =
    operate_all-Tracks now threshold ops (remember op h) (operate now threshold op rs)
      (operate-Tracks now threshold op h rs t)
