-- ===== src/Prelude/Sets.antt =====
-- JavaScript's `Set` of texts as the list of its members in the order of insertion.
use Prim.Native.String.{String}
use mathlib.Core.Path.{◌≡◌, refl}
use mathlib.Core.Logic.{inl, inr}
use mathlib.Core.Bool.{Bool, true, false, ◌&&◌, ◌||◌}
use mathlib.Core.List.{List, [], ◌∷◌, ◌++◌}
use native.Mathlib.Omega.{arith}
use trade_compliance_classif.Prelude.Tests.{if◌then◌else◌, Bool-cases}
use trade_compliance_classif.Prelude.Lists.{filter}
use trade_compliance_classif.Prelude.Text.{text_eq, eq_iff, eq_refl}

-- `xs.includes(x)` on an array, `xs.has(x)` on a set.
abbrev pub has : List String → String → Bool
has [] x = false
has (y ∷ ys) x = text_eq y x || has ys x

-- `if (test) xs.push(x)`, as what is pushed.
abbrev pub when : Bool → String → List String
when test x = if test then x ∷ [] else []

-- `xs.add(x)`
unfoldable pub set_add : List String → String → List String
set_add xs x = if has xs x then xs else xs ++ x ∷ []

unfoldable pub set_add_all : List String → List String → List String
unfolding set_add
set_add_all acc [] = acc
set_add_all acc (x ∷ xs) = set_add_all (set_add acc x) xs

-- `[...new Set(xs)]`
unfoldable pub dedup : List String → List String
unfolding set_add_all
dedup xs = set_add_all [] xs

-- No member stands twice.
abbrev pub IsDistinct : List String → Type 0
IsDistinct [] = Unit
IsDistinct (x ∷ xs) = (has xs x ≡ false) × IsDistinct xs

-- No member of the one is a member of the other.
abbrev pub Disjoint : List String → List String → Type 0
Disjoint [] ys = Unit
Disjoint (x ∷ xs) ys = (has ys x ≡ false) × Disjoint xs ys

pub has-append : (xs ys : List String) (x : String) → has (xs ++ ys) x ≡ (has xs x || has ys x)
has-append [] ys x = refl
has-append (y ∷ xs) ys x = ground (arith, has-append xs ys x)

pub has-filter :
    (p : String → Bool) (xs : List String) (x : String) → has (filter p xs) x ≡ (has xs x && p x)
has-filter p [] x = refl
has-filter p (y ∷ xs) x = elim (Bool-cases (text_eq y x)) [
  | inl same ↦ rw ((eq_iff y x).0 same) (ground (arith, has-filter p xs x))
  | inr other ↦ ground (arith, has-filter p xs x)
]

pub has-set_add :
    (xs : List String) (x y : String) → has (set_add xs x) y ≡ (has xs y || text_eq x y)
unfolding set_add
has-set_add xs x y = ground (arith, has-append xs (x ∷ []) y, eq_iff x y)

pub has-set_add_all :
    (acc xs : List String) (x : String) → has (set_add_all acc xs) x ≡ (has acc x || has xs x)
unfolding set_add_all
has-set_add_all acc [] x = ground arith
has-set_add_all acc (y ∷ xs) x =
    ground (arith, has-set_add_all (set_add acc y) xs x, has-set_add acc y x)

-- A set has the members of the list that it is made from.
pub has-dedup : (xs : List String) (x : String) → has (dedup xs) x ≡ has xs x
unfolding dedup
has-dedup xs x = has-set_add_all [] xs x

IsDistinct-snoc :
    (xs : List String) (x : String) → IsDistinct xs → has xs x ≡ false → IsDistinct (xs ++ x ∷ [])
IsDistinct-snoc [] x d h = (refl, tt)
IsDistinct-snoc (y ∷ xs) x (n, d) h = (
  ground (arith, has-append xs (x ∷ []) y, eq_iff x y, eq_iff y x),
  IsDistinct-snoc xs x d (ground arith),
)

pub set_add-IsDistinct : (xs : List String) (x : String) → IsDistinct xs → IsDistinct (set_add xs x)
unfolding set_add
set_add-IsDistinct xs x d = elim (Bool-cases (has xs x)) [
  | inl h ↦ rw h d
  | inr h ↦ rw h (IsDistinct-snoc xs x d h)
]

set_add_all-IsDistinct : (acc xs : List String) → IsDistinct acc → IsDistinct (set_add_all acc xs)
unfolding set_add_all
set_add_all-IsDistinct acc [] d = d
set_add_all-IsDistinct acc (x ∷ xs) d =
    set_add_all-IsDistinct (set_add acc x) xs (set_add-IsDistinct acc x d)

pub dedup-IsDistinct : (xs : List String) → IsDistinct (dedup xs)
unfolding dedup
dedup-IsDistinct xs = set_add_all-IsDistinct [] xs tt

pub Disjoint-intro :
    (xs ys : List String) → ((x : String) → has xs x ≡ true → has ys x ≡ false) → Disjoint xs ys
Disjoint-intro [] ys h = tt
Disjoint-intro (x ∷ xs) ys h =
    (h x (ground (arith, eq_refl x)), Disjoint-intro xs ys (λ y m. h y (ground arith)))

pub Disjoint-has :
    (xs ys : List String) (x : String) → Disjoint xs ys → has xs x ≡ true → has ys x ≡ false
Disjoint-has [] ys x d h = cc
Disjoint-has (y ∷ xs) ys x (n, d) h = ground (arith, eq_iff y x, Disjoint-has xs ys x d)
