-- ===== src/Progress/Batches.antt =====
-- Which items of a progress list make a batch, in progress-parser.ts.
use trade_compliance_classif.Prelude.{
  ℕ, zero, suc, max, ◌≤◌, ◌<◌, ◌≡◌, ◌⊎◌, refl, ap, ◌∙◌, inl, inr, Bool, true, false, List, [], ◌∷◌,
  ◌++◌, take, length, any, append_assoc, Bool-cases, arith,
}
use trade_compliance_classif.Types.{ProgressItem}
use trade_compliance_classif.Progress.{is_audit_item, before_audit, audit_isolated}

-- Whether a list starts with an audit item, or is empty.
abbrev pub stops : List ProgressItem → Bool
stops [] = true
stops (item ∷ items) = is_audit_item item

-- The items in front of the first audit item, and the rest.
record IsFront (items front : List ProgressItem) : Type 0 where
  rest : List ProgressItem
  splits : items ≡ front ++ rest
  no_audit : any is_audit_item front ≡ false
  stop : stops rest ≡ true

before_audit-IsFront : (items : List ProgressItem) → IsFront items (before_audit items)
unfolding before_audit
before_audit-IsFront [] = record { rest = []; splits = refl; no_audit = refl; stop = refl }
before_audit-IsFront (item ∷ items) =
    let ih = before_audit-IsFront items in
    elim (Bool-cases (is_audit_item item)) [
      | inl audit ↦
          rw audit (record { rest = item ∷ items; splits = refl; no_audit = refl; stop = audit })
      | inr work ↦ rw work (record {
        rest = ih.rest;
        splits = ap (λ r. item ∷ r) ih.splits;
        no_audit = ground (arith, ih.no_audit);
        stop = ih.stop;
      })
    ]

-- The first items of a list, up to a limit.
record IsTaken (limit : ℕ) (items front : List ProgressItem) : Type 0 where
  rest : List ProgressItem
  splits : items ≡ front ++ rest
  no_audit : any is_audit_item items ≡ false → any is_audit_item front ≡ false
  bound : length front ≤ limit
  full : length front < limit → rest ≡ []

take-IsTaken : (limit : ℕ) (items : List ProgressItem) → IsTaken limit items (take limit items)
take-IsTaken zero items = record {
  rest = items;
  splits = refl;
  no_audit = λ h. refl;
  bound = omega arith;
  full = λ h. absurd (omega arith);
}
take-IsTaken (suc n) [] = record {
  rest = [];
  splits = refl;
  no_audit = λ h. refl;
  bound = omega arith;
  full = λ h. refl;
}
take-IsTaken (suc n) (item ∷ items) =
    let ih = take-IsTaken n items in
    record {
      rest = ih.rest;
      splits = ap (λ r. item ∷ r) ih.splits;
      no_audit = λ h. ground (arith, ih.no_audit (ground arith));
      bound = omega (arith, ih.bound);
      full = λ h. ih.full (omega arith);
    }

-- A batch of a list of items.
pub record IsBatch (limit : ℕ) (items batch : List ProgressItem) : Type 0 where
  pub rest : List ProgressItem
  pub splits : items ≡ batch ++ rest
  pub isolated : (length batch ≡ 1) ⊎ (any is_audit_item batch ≡ false)
  pub bound : length batch ≤ max 1 limit
  pub full : length batch < limit → (stops rest ≡ true) ⊎ (stops items ≡ true)

front-IsBatch :
    (limit : ℕ) (items front : List ProgressItem)
    → IsFront items front
    → IsBatch limit items (take limit front)
front-IsBatch limit items front f =
    let t = take-IsTaken limit front in
    record {
      rest = t.rest ++ f.rest;
      splits =
          f.splits ∙ ap (λ r. r ++ f.rest) t.splits ∙ append_assoc (take limit front) t.rest f.rest;
      isolated = inr (t.no_audit f.no_audit);
      bound = omega (arith, t.bound);
      full = λ h. inl (rw (t.full h) f.stop);
    }

-- A batch of a list is its first items: an audit item stands alone in its batch and no other batch
-- has one; a batch has at most as many items as the limit, or one; and when it has fewer than the limit, the list
-- ends there, or an audit item follows or was first.
pub audit_isolated-IsBatch :
    (items : List ProgressItem) (limit : ℕ) → IsBatch limit items (audit_isolated items limit)
unfolding audit_isolated
audit_isolated-IsBatch [] limit = record {
  rest = [];
  splits = refl;
  isolated = inr refl;
  bound = omega arith;
  full = λ h. inl refl;
}
audit_isolated-IsBatch (first ∷ items) limit = elim (Bool-cases (is_audit_item first)) [
  | inl audit ↦ rw audit (record {
    rest = items;
    splits = refl;
    isolated = inl (omega arith);
    bound = omega arith;
    full = λ h. inr audit;
  })
  | inr work ↦ rw work (
      front-IsBatch limit (first ∷ items) (before_audit (first ∷ items))
        (before_audit-IsFront (first ∷ items)))
]
