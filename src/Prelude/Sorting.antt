-- ===== src/Prelude/Sorting.antt =====
-- `xs.sort()` on texts: in the order of their characters' codes, which is JavaScript's order for texts
-- without surrogate pairs.
use Prim.Native.Char.{code}
use Prim.Native.String.{String}
use mathlib.Core.Path.{◌≡◌, refl, sym, ap, ◌∙◌}
use mathlib.Core.Logic.{◌⊎◌, inl, inr}
use mathlib.Core.Bool.{Bool, true, false, ◌||◌}
use mathlib.Core.List.{List, [], ◌∷◌}
use text.Mathlib.TextEquality.{Char-path}
use native.Mathlib.Omega.{arith}
use trade_compliance_classif.Prelude.Tests.{ltb, ◌==◌, if◌then◌else◌, Bool-cases}
use trade_compliance_classif.Prelude.Text.{text_eq, eq_iff, eq_refl}
use trade_compliance_classif.Prelude.Sets.{has, IsDistinct}

unfoldable pub text_leb : String → String → Bool
text_leb String.[] t = true
text_leb (String.◌∷◌ c s) String.[] = false
text_leb (String.◌∷◌ c s) (String.◌∷◌ d t) =
    let rest = text_leb s t in
    if ltb (code c) (code d) then true else if code c == code d then rest else false

unfoldable pub insert_text : String → List String → List String
insert_text x [] = x ∷ []
insert_text x (y ∷ ys) =
    let rest = insert_text x ys in if text_leb x y then x ∷ y ∷ ys else y ∷ rest

unfoldable pub sort_texts : List String → List String
unfolding insert_text
sort_texts [] = []
sort_texts (x ∷ xs) = insert_text x (sort_texts xs)

leb_refl : (s : String) → text_leb s s ≡ true
unfolding text_leb
leb_refl String.[] = refl
leb_refl (String.◌∷◌ c s) = ground (arith, leb_refl s)

leb_total : (s t : String) → text_leb s t ≡ false → text_leb t s ≡ true
unfolding text_leb
leb_total String.[] t h = cc
leb_total (String.◌∷◌ c s) String.[] h = refl
leb_total (String.◌∷◌ c s) (String.◌∷◌ d t) h = ground (arith, leb_total s t)

leb_trans : (s t u : String) → text_leb s t ≡ true → text_leb t u ≡ true → text_leb s u ≡ true
unfolding text_leb
leb_trans String.[] t u h k = refl
leb_trans (String.◌∷◌ c s) String.[] u h k = cc
leb_trans (String.◌∷◌ c s) (String.◌∷◌ d t) String.[] h k = cc
leb_trans (String.◌∷◌ c s) (String.◌∷◌ d t) (String.◌∷◌ e u) h k = ground (arith, leb_trans s t u)

-- Every text in front of another is below it.
abbrev pub Ascending : List String → Type 0
Ascending [] = Unit
Ascending (x ∷ xs) = ((y : String) → has xs y ≡ true → text_leb y x ≡ false) × Ascending xs

pub has-insert_text :
    (x : String) (xs : List String) (y : String)
    → has (insert_text x xs) y ≡ (text_eq x y || has xs y)
unfolding insert_text
has-insert_text x [] y = refl
has-insert_text x (z ∷ xs) y = ground (arith, has-insert_text x xs y)

pub has-sort_texts : (xs : List String) (y : String) → has (sort_texts xs) y ≡ has xs y
unfolding sort_texts
has-sort_texts [] y = refl
has-sort_texts (x ∷ xs) y = ground (arith, has-insert_text x (sort_texts xs) y, has-sort_texts xs y)

leb_antisymm : (s t : String) → text_leb s t ≡ true → text_leb t s ≡ true → s ≡ t
unfolding text_leb
leb_antisymm String.[] String.[] h k = refl
leb_antisymm String.[] (String.◌∷◌ d t) h k = cc
leb_antisymm (String.◌∷◌ c s) String.[] h k = cc
leb_antisymm (String.◌∷◌ c s) (String.◌∷◌ d t) h k =
    let same : code c ≡ code d = ground arith in
    let first : c ≡ d = Char-path c d same in
    let rest : s ≡ t = leb_antisymm s t (ground arith) (ground arith) in rw (first, rest) refl

-- What is not below a new first text is not below it either, when it is first in order.
above_first :
    (x z y : String) (xs : List String)
    → text_leb x z ≡ true
    → ((y : String) → has xs y ≡ true → text_leb y z ≡ false)
    → has (z ∷ xs) x ≡ false
    → has (z ∷ xs) y ≡ true
    → text_leb y x ≡ false
above_first x z y xs le below new m = elim (Bool-cases (text_leb y x)) [
  | inr above ↦ above
  | inl yx ↦ elim (Bool-cases (text_eq z y)) [
    | inl same ↦ absurd (
        ground (
          arith,
          leb_antisymm x z le (rw ((eq_iff z y).0 same) yx),
          eq_refl z,
          eq_iff z y,
          eq_iff z x,
        ))
    | inr other ↦ absurd (ground (arith, below y (ground arith), leb_trans y x z yx le))
  ]
]

insert_text-Ascending :
    (x : String) (xs : List String) → Ascending xs → has xs x ≡ false → Ascending (insert_text x xs)
unfolding insert_text
insert_text-Ascending x [] a h = (λ y m. cc, tt)
insert_text-Ascending x (z ∷ xs) (below, a) h = elim (Bool-cases (text_leb x z)) [
  | inl le ↦ rw le ((λ y m. above_first x z y xs le below h m), (below, a))
  | inr gt ↦ rw gt (
    (λ y m. elim (Bool-cases (text_eq x y)) [
      | inl same ↦ rw (sym ((eq_iff x y).0 same)) gt
      | inr other ↦ below y (ground (arith, has-insert_text x xs y))
    ]),
    insert_text-Ascending x xs a (ground arith),
  )
]

pub sort_texts-Ascending : (xs : List String) → IsDistinct xs → Ascending (sort_texts xs)
unfolding sort_texts
sort_texts-Ascending [] d = tt
sort_texts-Ascending (x ∷ xs) (new, d) =
    insert_text-Ascending x (sort_texts xs) (sort_texts-Ascending xs d) (has-sort_texts xs x ∙ new)

first_same :
    (x y : String) (xs ys : List String)
    → Ascending (x ∷ xs)
    → Ascending (y ∷ ys)
    → ((z : String) → has (x ∷ xs) z ≡ has (y ∷ ys) z)
    → x ≡ y
first_same x y xs ys (a, p) (b, q) same = elim (Bool-cases (text_eq x y)) [
  | inl e ↦ (eq_iff x y).0 e
  | inr n ↦ absurd (
      ground (
        arith,
        a y (ground (arith, same y, eq_refl y)),
        b x (ground (arith, same x, eq_refl x, eq_iff x y, eq_iff y x)),
        leb_total x y,
      ))
]

not_below_self :
    (x : String) (xs : List String)
    → ((y : String) → has xs y ≡ true → text_leb y x ≡ false)
    → has xs x ≡ false
not_below_self x xs below = elim (Bool-cases (has xs x)) [
  | inl m ↦ absurd (ground (arith, below x m, leb_refl x))
  | inr n ↦ n
]

-- Ascending texts are told by their members.
Ascending-eq :
    (xs ys : List String)
    → Ascending xs
    → Ascending ys
    → ((z : String) → has xs z ≡ has ys z)
    → xs ≡ ys
Ascending-eq [] [] a b same = refl
Ascending-eq [] (y ∷ ys) a b same = absurd (ground (arith, same y, eq_refl y))
Ascending-eq (x ∷ xs) [] a b same = absurd (ground (arith, same x, eq_refl x))
Ascending-eq (x ∷ xs) (y ∷ ys) (a, p) (b, q) same =
    let first = first_same x y xs ys (a, p) (b, q) same in
    let rest = Ascending-eq xs ys p q (λ z. tails z (Bool-cases (text_eq x z)) first) in
    rw (first, rest) refl
  where
    tails :
        (z : String) → (text_eq x z ≡ true) ⊎ (text_eq x z ≡ false) → x ≡ y → has xs z ≡ has ys z
    tails z (inl e) first =
        let z_first : z ≡ x = sym ((eq_iff x z).0 e) in
        let z_other : z ≡ y = z_first ∙ first in
        (ap (has xs) z_first ∙ not_below_self x xs a)
        ∙ sym (ap (has ys) z_other ∙ not_below_self y ys b)
    tails z (inr n) first = ground (arith, same z)

-- The sorted list of a list without repetition depends on its members only.
pub sort_texts-eq :
    (xs ys : List String)
    → IsDistinct xs
    → IsDistinct ys
    → ((z : String) → has xs z ≡ has ys z)
    → sort_texts xs ≡ sort_texts ys
sort_texts-eq xs ys d e same =
    Ascending-eq (sort_texts xs) (sort_texts ys) (sort_texts-Ascending xs d)
      (sort_texts-Ascending ys e) (λ z. has-sort_texts xs z ∙ same z ∙ sym (has-sort_texts ys z))
