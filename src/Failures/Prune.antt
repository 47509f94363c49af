-- ===== src/Failures/Prune.antt =====
-- Forgetting a batch in failure-patterns.ts.
use trade_compliance_classif.Prelude.{
  ℕ, ◌-◌, ◌<◌, ◌≡◌, refl, ap, sym, ◌∙◌, inl, inr, true, Option, none, some, List, [], ◌∷◌, String,
  if◌then◌else◌, length, filter, is_empty, arith, Bool-cases, length-filter-le,
}
use trade_compliance_classif.Prelude.Text.{text_eq, eq_iff}
use trade_compliance_classif.Failures.{
  FailureRecord, find_record, other_than, prune_record, cons?, prune_loop,
  prune_failure_patterns_for_batch,
}
use trade_compliance_classif.Failures.History.{
  History, batches_of, found_batches, batches_in, IsValid, Tracks,
}

-- The history without the failures of a batch.
abbrev pub without : ℕ → History → History
without b [] = []
without b ((k, n) ∷ h) = let rest = without b h in if other_than b n then (k, n) ∷ rest else rest

batches_of-without :
    (key : String) (b : ℕ) (h : History)
    → batches_of key (without b h) ≡ filter (other_than b) (batches_of key h)
batches_of-without key b [] = refl
batches_of-without key b ((k, n) ∷ h) = ground (arith, batches_of-without key b h)

filter_all :
    (b : ℕ) (ns : List ℕ)
    → length ns - length (filter (other_than b) ns) ≡ 0
    → filter (other_than b) ns ≡ ns
filter_all b [] h = refl
filter_all b (n ∷ ns) h = ground (arith, filter_all b ns, length-filter-le (other_than b) ns)

-- What a round of the loop leaves of a valid record: the batches without the one that is forgotten,
-- counted, or nothing if there are none.
record Pruned (b : ℕ) (r : FailureRecord) (kept : Option FailureRecord) : Type 0 where
  left : found_batches kept ≡ filter (other_than b) r.batches
  named : (r' : FailureRecord) → kept ≡ some r' → r'.key ≡ r.key
  counted : (r' : FailureRecord) → kept ≡ some r' → r'.count ≡ length r'.batches
  positive : (r' : FailureRecord) → kept ≡ some r' → 0 < r'.count

length-eq-zero : (ns : List ℕ) → length ns ≡ 0 → ns ≡ []
length-eq-zero [] h = refl
length-eq-zero (n ∷ ns) h = absurd (omega arith)

prune_record-Pruned :
    (b : ℕ) (r : FailureRecord)
    → r.count ≡ length r.batches
    → 0 < r.count
    → Pruned b r (prune_record b r).0
unfolding prune_record
prune_record-Pruned b r c p = record {
  left = ground (arith, filter_all b r.batches, length-eq-zero (filter (other_than b) r.batches));
  named = λ r' e. ground arith;
  counted = λ r' e. ground (arith, length-filter-le (other_than b) r.batches);
  positive = λ r' e. ground (arith, length-filter-le (other_than b) r.batches);
}

find-cons? :
    (key : String) (r : FailureRecord) (kept : Option FailureRecord) (next : List FailureRecord)
    → ((r' : FailureRecord) → kept ≡ some r' → r'.key ≡ r.key)
    → find_record r.key next ≡ none
    → batches_in key (cons? kept next)
      ≡ (if text_eq r.key key then found_batches kept else batches_in key next)
unfolding find_record
find-cons? key r none next named absent = ground (arith, eq_iff r.key key)
find-cons? key r (some r') next named absent = ground (arith, named r' refl)

prune_loop-absent :
    (b : ℕ) (key : String) (rs : List FailureRecord)
    → IsValid rs
    → find_record key rs ≡ none
    → find_record key (prune_loop b rs).0 ≡ none
unfolding prune_loop find_record
prune_loop-absent b key [] v h = refl
prune_loop-absent b key (r ∷ rs) v h =
    absent (prune_record b r).0 (prune_record-Pruned b r v.1 v.2)
      (prune_loop-absent b key rs v.3 (ground arith))
  where
    absent :
        (kept : Option FailureRecord)
        → Pruned b r kept
        → find_record key (prune_loop b rs).0 ≡ none
        → find_record key (cons? kept (prune_loop b rs).0) ≡ none
    absent none q ih = ih
    absent (some r') q ih = ground (arith, q.named r' refl)

cons?-IsValid :
    (b : ℕ) (r : FailureRecord) (kept : Option FailureRecord) (next : List FailureRecord)
    → Pruned b r kept
    → find_record r.key next ≡ none
    → IsValid next
    → IsValid (cons? kept next)
cons?-IsValid b r none next q absent v = v
cons?-IsValid b r (some r') next q absent v =
    (rw (q.named r' refl) absent, q.counted r' refl, q.positive r' refl, v)

prune_loop-IsValid : (b : ℕ) (rs : List FailureRecord) → IsValid rs → IsValid (prune_loop b rs).0
unfolding prune_loop
prune_loop-IsValid b [] v = tt
prune_loop-IsValid b (r ∷ rs) v =
    cons?-IsValid b r (prune_record b r).0 (prune_loop b rs).0 (prune_record-Pruned b r v.1 v.2)
      (prune_loop-absent b r.key rs v.3 v.0) (prune_loop-IsValid b rs v.3)

prune_loop-batches :
    (b : ℕ) (key : String) (rs : List FailureRecord)
    → IsValid rs
    → batches_in key (prune_loop b rs).0 ≡ filter (other_than b) (batches_in key rs)
unfolding prune_loop find_record
prune_loop-batches b key [] v = refl
prune_loop-batches b key (r ∷ rs) v =
    let q = prune_record-Pruned b r v.1 v.2 in
    find-cons? key r (prune_record b r).0 (prune_loop b rs).0 q.named
      (prune_loop-absent b r.key rs v.3 v.0)
    ∙ ground (arith, q.left, prune_loop-batches b key rs v.3)

-- Without an action no record was changed.
prune_loop-idle :
    (b : ℕ) (rs : List FailureRecord)
    → is_empty (prune_loop b rs).1 ≡ true
    → (prune_loop b rs).0 ≡ rs
unfolding prune_loop prune_record
prune_loop-idle b [] h = refl
prune_loop-idle b (r ∷ rs) h = ground (arith, prune_loop-idle b rs)

prune-loop :
    (b : ℕ) (rs : List FailureRecord)
    → (prune_failure_patterns_for_batch b rs).0 ≡ (prune_loop b rs).0
unfolding prune_failure_patterns_for_batch
prune-loop b rs = elim (Bool-cases (is_empty (prune_loop b rs).1)) [
  | inl idle ↦ rw idle (sym (prune_loop-idle b rs idle))
  | inr busy ↦ rw busy
]

-- Pruning a batch leaves the records that stand for the history without that batch's failures, as
-- though the batch had never been recorded.
pub prune_failure_patterns_for_batch-Tracks :
    (b : ℕ) (h : History) (rs : List FailureRecord)
    → Tracks h rs
    → Tracks (without b h) (prune_failure_patterns_for_batch b rs).0
prune_failure_patterns_for_batch-Tracks b h rs t = rw (prune-loop b rs) (record {
  valid = prune_loop-IsValid b rs t.valid;
  same = λ key.
      prune_loop-batches b key rs t.valid
      ∙ ap (filter (other_than b)) (t.same key)
      ∙ sym (batches_of-without key b h);
})
