-- ===== src/Prelude/Text.antt =====
-- JavaScript's string operations on the native texts. A position counts characters. The case maps
-- change the ASCII letters and no other character.
pub mod Digits
use Prim.Native.Nat.{ℕ, zero, suc, ◌+◌, ◌-◌, ◌/◌, ◌%◌, compare, Ordering}
use Prim.Native.Char.{Char, char, code, nul, IsScalar}
use Prim.Native.String
use Prim.Native.String.{String}
use mathlib.Core.Path.{◌≡◌, refl}
use mathlib.Core.Bool.{Bool, true, false, ◌&&◌, ◌||◌}
use mathlib.Core.List.{List, [], ◌∷◌}
use mathlib.Core.Option.{Option, none, some}
use trade_compliance_classif.Prelude.Tests.{leb, ltb, ◌==◌, if◌then◌else◌}
pub use text.Mathlib.Text.{◌==◌ as text_eq}
pub use text.Mathlib.TextEquality.{eq_iff}
pub use text.Mathlib.TextPositions.{eq_refl}

infixr 65 ◌⧺◌
abbrev pub ◌⧺◌ : String → String → String
s ⧺ t = String.◌++◌ s t

abbrev pub is_blank : ℕ → Bool
is_blank c = c == 32 || leb 9 c && leb c 13 || c == 160 || c == 65279

abbrev pub is_upper : ℕ → Bool
is_upper c = leb b'A' c && leb c b'Z'

abbrev pub is_lower : ℕ → Bool
is_lower c = leb b'a' c && leb c b'z'

abbrev pub is_digit : ℕ → Bool
is_digit c = leb b'0' c && leb c b'9'

-- Case-blind code of a character: the lower-case letter's.
abbrev pub fold_case : ℕ → ℕ
fold_case c = if is_upper c then c + 32 else c

-- Whether two characters are one letter in either case, or the same character.
unfoldable pub same_letter : ℕ → ℕ → Bool
same_letter a b = fold_case a == fold_case b

scalar_below : (n : ℕ) → compare n 55296 ≡ Ordering.lt → IsScalar n
scalar_below n h = rw h tt

char_in : (n : ℕ) (o : Ordering) → compare n 55296 ≡ o → Char
char_in n Ordering.lt h = char n (scalar_below n h)
char_in n Ordering.eq h = nul
char_in n Ordering.gt h = nul

-- The character of a number below the surrogates.
unfoldable pub char_of : ℕ → Char
unfolding char_in scalar_below
char_of n = char_in n (compare n 55296) refl

-- `s.toLowerCase()`
unfoldable pub to_lower : String → String
unfolding char_of
to_lower String.[] = String.[]
to_lower (String.◌∷◌ c s) =
    String.◌∷◌ (if is_upper (code c) then char_of (code c + 32) else c) (to_lower s)

-- `s.toUpperCase()`
unfoldable pub to_upper : String → String
unfolding char_of
to_upper String.[] = String.[]
to_upper (String.◌∷◌ c s) =
    String.◌∷◌ (if is_lower (code c) then char_of (code c - 32) else c) (to_upper s)

-- `s.startsWith(t)`
unfoldable pub starts_with : String → String → Bool
starts_with s String.[] = true
starts_with String.[] (String.◌∷◌ d t) = false
starts_with (String.◌∷◌ c s) (String.◌∷◌ d t) = code c == code d && starts_with s t

-- `s.endsWith(t)`
unfoldable pub ends_with : String → String → Bool
ends_with String.[] t = text_eq String.[] t
ends_with (String.◌∷◌ c s) t = text_eq (String.◌∷◌ c s) t || ends_with s t

-- `s.includes(t)`
unfoldable pub includes : String → String → Bool
unfolding starts_with
includes String.[] t = starts_with String.[] t
includes (String.◌∷◌ c s) t = starts_with (String.◌∷◌ c s) t || includes s t

-- `s.slice(n)`
unfoldable pub drop_text : ℕ → String → String
drop_text zero s = s
drop_text (suc n) String.[] = String.[]
drop_text (suc n) (String.◌∷◌ c s) = drop_text n s

-- `s.slice(0, n)`
unfoldable pub take_text : ℕ → String → String
take_text zero s = String.[]
take_text (suc n) String.[] = String.[]
take_text (suc n) (String.◌∷◌ c s) = String.◌∷◌ c (take_text n s)

-- `s.length`
unfoldable pub text_length : String → ℕ
text_length String.[] = 0
text_length (String.◌∷◌ c s) = suc (text_length s)

unfoldable pub trim_start : String → String
trim_start String.[] = String.[]
trim_start (String.◌∷◌ c s) =
    let rest = trim_start s in if is_blank (code c) then rest else String.◌∷◌ c s

-- A character in front of a text whose end is trimmed.
abbrev pub cons_unless_blank : Char → String → String
cons_unless_blank c String.[] = if is_blank (code c) then String.[] else String.◌∷◌ c String.[]
cons_unless_blank c (String.◌∷◌ d s) = String.◌∷◌ c (String.◌∷◌ d s)

unfoldable pub trim_end : String → String
trim_end String.[] = String.[]
trim_end (String.◌∷◌ c s) = cons_unless_blank c (trim_end s)

-- `s.trim()`
unfoldable pub trim : String → String
unfolding trim_start trim_end
trim s = trim_end (trim_start s)

-- `s.split(":")[0]`, for any separating character: the part before its first occurrence.
unfoldable pub before : ℕ → String → String
before sep String.[] = String.[]
before sep (String.◌∷◌ c s) =
    let rest = before sep s in if code c == sep then String.[] else String.◌∷◌ c rest

-- `s.slice(s.indexOf(":") + 1)` where the separator occurs; `none` where it does not.
unfoldable pub after? : ℕ → String → Option String
after? sep String.[] = none
after? sep (String.◌∷◌ c s) = let rest = after? sep s in if code c == sep then some s else rest

-- Every occurrence of one character by another: `s.replace(/\\/g, "/")`.
unfoldable pub replace_char : ℕ → ℕ → String → String
unfolding char_of
replace_char old new String.[] = String.[]
replace_char old new (String.◌∷◌ c s) =
    String.◌∷◌ (if code c == old then char_of new else c) (replace_char old new s)

-- `s.split("/")` for a separating character.
cons_first : Char → List String → List String
cons_first c [] = String.◌∷◌ c String.[] ∷ []
cons_first c (s ∷ rest) = String.◌∷◌ c s ∷ rest

unfoldable pub split_on : ℕ → String → List String
unfolding cons_first
split_on sep String.[] = String.[] ∷ []
split_on sep (String.◌∷◌ c s) =
    let rest = split_on sep s in if code c == sep then String.[] ∷ rest else cons_first c rest

-- The rest after a prefix, read with the flag `i`.
unfoldable pub strip_prefix_i : String → String → Option String
strip_prefix_i String.[] s = some s
strip_prefix_i (String.◌∷◌ d p) String.[] = none
strip_prefix_i (String.◌∷◌ d p) (String.◌∷◌ c s) =
    let rest = strip_prefix_i p s in if same_letter (code d) (code c) then rest else none

-- `s.replace(/^(?:p)+/i, "")`. Each round takes a character off, so the length is fuel enough.
unfoldable pub strip_rounds : ℕ → String → String → String
strip_rounds zero p s = s
strip_rounds (suc fuel) p s = elim (strip_prefix_i p s) [
  | none ↦ s
  | some rest ↦ strip_rounds fuel p rest
]

unfoldable pub strip_repeated_i : String → String → String
unfolding strip_rounds strip_prefix_i text_length same_letter
strip_repeated_i p s = strip_rounds (text_length s) p s

-- The rest after a prefix, in its own case.
unfoldable pub strip_prefix : String → String → Option String
strip_prefix String.[] s = some s
strip_prefix (String.◌∷◌ d p) String.[] = none
strip_prefix (String.◌∷◌ d p) (String.◌∷◌ c s) =
    let rest = strip_prefix p s in if code d == code c then rest else none

-- `s.replace(/[^…]+/g, by)`: each longest run of characters outside the class becomes one `by`. The
-- flag tells whether the character before was outside.
unfoldable pub replace_runs : (ℕ → Bool) → String → Bool → String → String
replace_runs keep by outside String.[] = String.[]
replace_runs keep by outside (String.◌∷◌ c s) =
    let inside = replace_runs keep by false s in
    let run = replace_runs keep by true s in
    if keep (code c) then String.◌∷◌ c inside else if outside then run else by ⧺ run

-- `parts.join(sep)`
unfoldable pub join : String → List String → String
join sep [] = ""
join sep (s ∷ []) = s
join sep (s ∷ t ∷ rest) = s ⧺ sep ⧺ join sep (t ∷ rest)

abbrev pub digit_text : ℕ → String
digit_text d = String.◌∷◌ (char_of (48 + d)) String.[]

digits_from : ℕ → ℕ → String → String
digits_from zero n acc = acc
digits_from (suc fuel) n acc =
    let more = digits_from fuel (n / 10) (digit_text (n % 10) ⧺ acc) in
    if ltb n 10 then digit_text n ⧺ acc else more

-- `String(n)`. The fuel `n + 1` exceeds the number of decimal digits.
unfoldable pub show : ℕ → String
unfolding digits_from char_of
show n = digits_from (suc n) n ""

pad_zeros : ℕ → String → String
pad_zeros zero s = s
pad_zeros (suc n) s = "0" ⧺ pad_zeros n s

-- `String(n).padStart(3, "0")`
unfoldable pub pad3 : ℕ → String
unfolding show pad_zeros text_length
pad3 n = let s = show n in pad_zeros (3 - text_length s) s

texts_run :
    (to_lower "ABc-Z" ≡ "abc-z")
    × (to_upper "abc_9" ≡ "ABC_9")
    × (trim "  a b \n" ≡ "a b")
    × (starts_with "abc" "ab" ≡ true)
    × (ends_with "abc" "bc" ≡ true)
    × (includes "abcd" "bc" ≡ true)
    × (before b':' "A:b:c" ≡ "A")
    × (after? b':' "A:b:c" ≡ some "b:c")
    × (pad3 7 ≡ "007")
    × (split_on b'/' "a/../b" ≡ "a" ∷ ".." ∷ "b" ∷ [])
    × (strip_repeated_i "R:" "r:R:x" ≡ "x")
    × (show 1205 ≡ "1205")
    × (replace_char 92 b'/' "a\\b" ≡ "a/b")
    × (join "|" ("a" ∷ "b" ∷ []) ≡ "a|b")
unfolding to_lower to_upper trim starts_with ends_with includes before after? pad3 replace_char join
    split_on strip_repeated_i
texts_run = (refl, refl, refl, refl, refl, refl, refl, refl, refl, refl, refl, refl, refl, refl)

-- All that a run on texts computes with.
unfoldable pub text_runs : Unit {0}
unfolding char_of to_lower to_upper starts_with ends_with includes drop_text take_text text_length
    trim before after? replace_char split_on strip_prefix_i strip_repeated_i same_letter
    strip_prefix replace_runs join show pad3
text_runs = tt
