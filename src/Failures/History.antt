-- ===== src/Failures/History.antt =====
-- What the records of failure-patterns.ts stand for: the history of the failures that were recorded.
use trade_compliance_classif.Prelude.{
  ℕ, ◌+◌, ◌<◌, ◌≡◌, refl, ap, ◌∙◌, inl, inr, Bool, true, false, Option, none, some, List, [],
  append-nil, sym, ◌∷◌, ◌++◌, String, leb, if◌then◌else◌, length, length-append, arith, Bool-cases,
}
use trade_compliance_classif.Prelude.Text.{text_eq, eq_iff}
use trade_compliance_classif.Types.{Batch, BatchResult}
use trade_compliance_classif.Failures.{
  FailureRecord, FailureUpdate, failure_key, is_failure, find_record, sighted, update_or_push,
  fresh_record, existing_or, record_failure,
}

-- The failures in the order in which they were recorded: the key, and the number of the batch.
abbrev pub History : Type 0
History = List (String × ℕ)

abbrev pub batches_of : String → History → List ℕ
batches_of key [] = []
batches_of key ((k, b) ∷ h) =
    let rest = batches_of key h in if text_eq k key then b ∷ rest else rest

abbrev pub found_batches : Option FailureRecord → List ℕ
found_batches none = []
found_batches (some r) = r.batches

abbrev pub batches_in : String → List FailureRecord → List ℕ
batches_in key rs = found_batches (find_record key rs)

-- No two records have a key in common, and each counts its batches, of which it has at least one.
abbrev pub IsValid : List FailureRecord → Type 0
IsValid [] = Unit
IsValid (r ∷ rs) =
    (find_record r.key rs ≡ none) × (r.count ≡ length r.batches) × (0 < r.count) × IsValid rs

pub record Tracks (h : History) (rs : List FailureRecord) : Type 0 where
  pub valid : IsValid rs
  pub same : (key : String) → batches_in key rs ≡ batches_of key h

pub batches_of-append :
    (key : String) (g h : History) → batches_of key (g ++ h) ≡ batches_of key g ++ batches_of key h
batches_of-append key [] h = refl
batches_of-append key ((k, b) ∷ g) h = ground (arith, batches_of-append key g h)

module _ (key : String) (f : FailureRecord → FailureRecord) (new : FailureRecord)
    (named : new.key ≡ key) where
  find-update :
      (k : String) (rs : List FailureRecord)
      → ((r : FailureRecord) → (f r).key ≡ r.key)
      → find_record k (update_or_push key f new rs) ≡ (
          if text_eq key k
          then some (elim (find_record key rs) [ none ↦ new | some r ↦ f r ])
          else find_record k rs)
  unfolding find_record update_or_push
  find-update k [] same = ground (arith, eq_iff key k, eq_iff new.key k)
  find-update k (r ∷ rs) same = ground (
    arith,
    find-update k rs same,
    same r,
    eq_iff r.key key,
    eq_iff key k,
    eq_iff r.key k,
    eq_iff (f r).key k,
  )

module _ (b : ℕ) (now : String) (fresh : FailureRecord) (empty : fresh.batches ≡ [])
    (zeroed : fresh.count ≡ 0) where
  sighted-IsValid :
      (rs : List FailureRecord)
      → IsValid rs
      → IsValid (update_or_push fresh.key (sighted b now) (sighted b now fresh) rs)
  unfolding update_or_push find_record
  sighted-IsValid [] v = ground (arith, ap (λ (l : List ℕ). length (l ++ b ∷ [])) empty)
  sighted-IsValid (r ∷ rs) v = elim (Bool-cases (text_eq r.key fresh.key)) [
    | inl here ↦ rw here (v.0, ground (arith, length-append r.batches (b ∷ [])), ground arith, v.3)
    | inr there ↦ rw there (
      ground (
        arith,
        v.0,
        there,
        find-update fresh.key (sighted b now) (sighted b now fresh) refl r.key rs (λ _. refl),
        eq_iff fresh.key r.key,
        eq_iff r.key fresh.key,
      ),
      v.1,
      v.2,
      sighted-IsValid rs v.3,
    )
  ]

  sighted-batches :
      (key : String) (rs : List FailureRecord)
      → batches_in key (update_or_push fresh.key (sighted b now) (sighted b now fresh) rs)
        ≡ batches_in key rs ++ (if text_eq fresh.key key then b ∷ [] else [])
  sighted-batches key rs =
      rw (find-update fresh.key (sighted b now) (sighted b now fresh) refl key rs (λ _. refl))
        (ground (arith, eq_iff fresh.key key, empty, append-nil (batches_in key rs)))

existing-count :
    (key : String) (fresh : FailureRecord) (rs : List FailureRecord)
    → fresh.count ≡ 0
    → IsValid rs
    → (existing_or fresh (find_record key rs)).count ≡ length (batches_in key rs)
unfolding find_record
existing-count key fresh [] z v = z
existing-count key fresh (r ∷ rs) z v = ground (arith, existing-count key fresh rs z v.3)

abbrev pub is_reinforced : String → List FailureRecord → Bool
is_reinforced key rs = (elim (find_record key rs) as (λ _. Bool) [
  | none ↦ false
  | some r ↦ r.reinforced
])

existing-reinforced :
    (key : String) (fresh : FailureRecord) (rs : List FailureRecord)
    → fresh.reinforced ≡ false
    → (existing_or fresh (find_record key rs)).reinforced ≡ is_reinforced key rs
existing-reinforced key fresh rs f = ground arith

-- The answer to a failure that is the first with its key after `n` others.
abbrev pub update_after : ℕ → ℕ → String → Bool → FailureUpdate
update_after threshold n key reinforced = record {
  key = key;
  count = n + 1;
  threshold_reached = leb threshold (n + 1);
  reinforced = reinforced;
}

module _ (now : String) (threshold : ℕ) (batch : Batch) (result : BatchResult) (h : History)
    (rs : List FailureRecord) (t : Tracks h rs) where
  -- Recording a failure appends it to the history that the records stand for; the answer counts the
  -- failures of its key, this one among them, tells whether they reach the threshold, and whether the
  -- key was reinforced before.
  pub record_failure-Tracks :
      is_failure result.status ≡ true
      → Tracks
          (h ++ (failure_key result, batch.number) ∷ [])
          (record_failure now threshold batch result rs).0
        × ((record_failure now threshold batch result rs).1
            ≡ some (
                update_after threshold
                  (length (batches_of (failure_key result) h))
                  (failure_key result)
                  (is_reinforced (failure_key result) rs)))
  unfolding record_failure
  record_failure-Tracks failed =
      let key = failure_key result in
      let fresh = fresh_record result in
      rw failed (
        record {
          valid = sighted-IsValid batch.number now fresh refl refl rs t.valid;
          same = λ k.
              sighted-batches batch.number now fresh refl refl k rs
              ∙ ap (λ l. l ++ (if text_eq key k then batch.number ∷ [] else [])) (t.same k)
              ∙ sym (batches_of-append k h ((key, batch.number) ∷ []));
        },
        ground (
          arith,
          existing-count key fresh rs refl t.valid,
          existing-reinforced key fresh rs refl,
          ap length (t.same key),
        ),
      )
