-- ===== src/Prelude/Regex.antt =====
-- Regular expressions as the code writes them, matched by derivatives. A class tests a character's
-- number. `search` is `re.test(s)` for an expression with neither anchor; the anchors are written
-- into the expression, `^r$` as `matches r`, `^r` as `begins r`, `r$` as `ends r`.
use Prim.Native.Nat.{ℕ}
use Prim.Native.Char.{code}
use Prim.Native.String.{String}
use mathlib.Core.Path.{◌≡◌, refl}
use mathlib.Core.Bool.{Bool, true, false, not, ◌&&◌, ◌||◌}
use mathlib.Core.List.{List, [], ◌∷◌}
use trade_compliance_classif.Prelude.Tests.{◌==◌, if◌then◌else◌}
use trade_compliance_classif.Prelude.Text.{same_letter}

pub data Re : Type 0 where
  void : Re
  eps : Re
  one : (ℕ → Bool) → Re
  seq : Re → Re → Re
  or : Re → Re → Re
  star : Re → Re

-- Whether the empty text matches.
unfoldable pub nullable : Re → Bool
nullable void = false
nullable eps = true
nullable (one p) = false
nullable (seq r s) = nullable r && nullable s
nullable (or r s) = nullable r || nullable s
nullable (star r) = true

-- `seq` and `or` that drop what cannot match.
mk_seq : Re → Re → Re
mk_seq void s = void
mk_seq eps s = s
mk_seq r s = seq r s

mk_or : Re → Re → Re
mk_or void s = s
mk_or r void = r
mk_or r s = or r s

derive_seq : Bool → Re → Re → Re → Re
unfolding mk_seq mk_or
derive_seq true dr s ds = mk_or (mk_seq dr s) ds
derive_seq false dr s ds = mk_seq dr s

-- What has to follow once `c` is read.
unfoldable pub derive : ℕ → Re → Re
unfolding derive_seq nullable
derive c void = void
derive c eps = void
derive c (one p) = if p c then eps else void
derive c (seq r s) = derive_seq (nullable r) (derive c r) s (derive c s)
derive c (or r s) = mk_or (derive c r) (derive c s)
derive c (star r) = mk_seq (derive c r) (star r)

-- The whole text matches.
unfoldable pub matches : Re → String → Bool
unfolding derive same_letter
matches r String.[] = nullable r
matches r (String.◌∷◌ c s) = matches (derive (code c) r) s

abbrev pub any_char : Re
any_char = one (λ c. true)

abbrev pub anything : Re
anything = star any_char

-- `.`, which stops at a line end.
abbrev pub dot : Re
dot = one (λ c. not (c == 10 || c == 13 || c == 8232 || c == 8233))

-- A literal, as it is written and with the flag `i`.
abbrev pub lit : String → Re
lit String.[] = eps
lit (String.◌∷◌ c s) = seq (one (λ d. d == code c)) (lit s)

abbrev pub lit_i : String → Re
lit_i String.[] = eps
lit_i (String.◌∷◌ c s) = seq (one (λ d. same_letter d (code c))) (lit_i s)

-- `(?:a|b|…)`
abbrev pub alts : List Re → Re
alts [] = void
alts (r ∷ rs) = or r (alts rs)

abbrev pub lits_i : List String → Re
lits_i [] = void
lits_i (s ∷ ss) = or (lit_i s) (lits_i ss)

abbrev pub lits : List String → Re
lits [] = void
lits (s ∷ ss) = or (lit s) (lits ss)

abbrev pub optional : Re → Re
optional r = or r eps

abbrev pub plus : Re → Re
plus r = seq r (star r)

unfoldable pub begins : Re → String → Bool
unfolding matches
begins r s = matches (seq r anything) s

unfoldable pub ends : Re → String → Bool
unfolding matches
ends r s = matches (seq anything r) s

unfoldable pub search_in : Re → String → Bool
unfolding matches
search_in r s = matches (seq anything (seq r anything)) s

-- `s.replace(/r$/, "")`: the leftmost suffix that matches is cut.
unfoldable pub cut_suffix : Re → String → String
unfolding matches
cut_suffix r String.[] = String.[]
cut_suffix r (String.◌∷◌ c s) =
    let rest = cut_suffix r s in if matches r (String.◌∷◌ c s) then String.[] else String.◌∷◌ c rest

regex_runs :
    (ends (seq (lit_i "_") (lits_i ("PASS" ∷ "FIXED" ∷ []))) "WIRING_fixed" ≡ true)
    × (begins (lit ".yolo/") ".yolo/runtime" ≡ true)
    × (search_in (seq (lit "a") (seq (star (lit "b")) (lit "c"))) "xxabbbcd" ≡ true)
    × (search_in (lit "abd") "xxabbbcd" ≡ false)
    × (cut_suffix (seq (lit "_") (lit "PASS")) "A_PASS" ≡ "A")
unfolding ends begins search_in cut_suffix
regex_runs = (refl, refl, refl, refl, refl)
