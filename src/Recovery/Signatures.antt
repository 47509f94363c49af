-- ===== src/Recovery/Signatures.antt =====
-- When two failures count as the same one, in the recovery of runtime.ts.
use trade_compliance_classif.Prelude.{
  ◌≡◌, refl, sym, ◌∙◌, inl, inr, Bool, true, false, ◌||◌, Option, none, some, List, [], ◌∷◌, String,
  any, Bool-cases, Bool-eq_of_iff, arith,
}
use trade_compliance_classif.Prelude.Text.{text_eq, eq_iff, eq_refl}
use trade_compliance_classif.Prelude.Sets.{has, has-set_add, IsDistinct, set_add-IsDistinct}
use trade_compliance_classif.Prelude.Sorting.{sort_texts, sort_texts-eq}
use trade_compliance_classif.Recovery.{
  normalize_recovery_flag, add_some, add_normalized, type_or_unknown, blocking_recovery_flags,
  failure_signature,
}

-- Whether a flag's normal form is a given text.
abbrev is_some_text : String → Option String → Bool
is_some_text x none = false
is_some_text x (some y) = text_eq y x

abbrev normalizes_to : String → String → Bool
normalizes_to x flag = is_some_text x (normalize_recovery_flag flag)

has-add_some :
    (o : Option String) (acc : List String) (x : String)
    → has (add_some o acc) x ≡ (has acc x || is_some_text x o)
has-add_some none acc x = ground arith
has-add_some (some y) acc x = has-set_add acc y x

has-add_normalized :
    (acc flags : List String) (x : String)
    → has (add_normalized acc flags) x ≡ (has acc x || any (normalizes_to x) flags)
unfolding add_normalized
has-add_normalized acc [] x = ground arith
has-add_normalized acc (flag ∷ flags) x = ground (
  arith,
  has-add_normalized (add_some (normalize_recovery_flag flag) acc) flags x,
  has-add_some (normalize_recovery_flag flag) acc x,
)

add_some-IsDistinct :
    (o : Option String) (acc : List String) → IsDistinct acc → IsDistinct (add_some o acc)
add_some-IsDistinct none acc d = d
add_some-IsDistinct (some y) acc d = set_add-IsDistinct acc y d

add_normalized-IsDistinct :
    (acc flags : List String) → IsDistinct acc → IsDistinct (add_normalized acc flags)
unfolding add_normalized
add_normalized-IsDistinct acc [] d = d
add_normalized-IsDistinct acc (flag ∷ flags) d =
    add_normalized-IsDistinct (add_some (normalize_recovery_flag flag) acc) flags
      (add_some-IsDistinct (normalize_recovery_flag flag) acc d)

any_member :
    (p : String → Bool) (xs : List String) (x : String)
    → has xs x ≡ true
    → p x ≡ true
    → any p xs ≡ true
any_member p [] x h e = cc
any_member p (y ∷ xs) x h e = elim (Bool-cases (text_eq y x)) [
  | inl same ↦ rw (((eq_iff y x).0 same), e) refl
  | inr other ↦ ground (arith, any_member p xs x (ground arith) e)
]

any_subset :
    (p : String → Bool) (xs ys : List String)
    → ((x : String) → has xs x ≡ true → has ys x ≡ true)
    → any p xs ≡ true
    → any p ys ≡ true
any_subset p [] ys sub h = cc
any_subset p (x ∷ xs) ys sub h = elim (Bool-cases (p x)) [
  | inl e ↦ any_member p ys x (sub x (ground (arith, eq_refl x))) e
  | inr n ↦ any_subset p xs ys (λ z m. sub z (ground arith)) (ground arith)
]

-- The signature of a failure is a function of the set of its flags: neither their order nor how often
-- each stands counts, and two reports with the same flags and failure type have one signature.
pub failure_signature-has :
    (flags flags' : List String) (failure_type : Option String)
    → ((x : String) → has flags x ≡ has flags' x)
    → failure_signature flags failure_type ≡ failure_signature flags' failure_type
unfolding failure_signature blocking_recovery_flags
failure_signature-has flags flags' failure_type same =
    let first = type_or_unknown failure_type in
    let sorted : sort_texts (add_normalized [] (first ∷ flags))
        ≡ sort_texts (add_normalized [] (first ∷ flags')) =
      sort_texts-eq (add_normalized [] (first ∷ flags)) (add_normalized [] (first ∷ flags'))
        (add_normalized-IsDistinct [] (first ∷ flags) tt)
        (add_normalized-IsDistinct [] (first ∷ flags') tt)
        (λ z.
          has-add_normalized [] (first ∷ flags) z
          ∙ Bool-eq_of_iff (any (normalizes_to z) (first ∷ flags))
              (any (normalizes_to z) (first ∷ flags'))
              (any_subset (normalizes_to z) (first ∷ flags) (first ∷ flags')
                (λ x m. ground (arith, same x)))
              (any_subset (normalizes_to z) (first ∷ flags') (first ∷ flags)
                (λ x m. ground (arith, same x)))
          ∙ sym (has-add_normalized [] (first ∷ flags') z)) in
    rw sorted refl
