-- ===== src/Flags/Laws.antt =====
-- What demoting a flag, by `RECOVERED_SOURCE_FLAG:` in front of it, does to its classification.
use Prim.Native.Char.{code}
use text.Mathlib.TextLemmas.{nil-append, cons-append, append_assoc}
use trade_compliance_classif.Prelude.{
  ℕ, zero, suc, ◌+◌, ◌≤◌, ◌<◌, ◌≡◌, refl, sym, ap, ◌∙◌, inl, inr, true, false, none, some, String,
  ==_iff, arith, Option-cases,
}
use trade_compliance_classif.Prelude.Text.{
  ◌⧺◌, before, trim, text_length, fold_case, same_letter, starts_with, strip_prefix_i, strip_rounds,
  strip_repeated_i,
}
use trade_compliance_classif.Flags.{recovered_source, flag_code, is_blocking_flag}

length-strip :
    (p s rest : String)
    → strip_prefix_i p s ≡ some rest
    → text_length rest + text_length p ≡ text_length s
unfolding strip_prefix_i text_length
length-strip String.[] s rest h = ground arith
length-strip (String.◌∷◌ d p) String.[] rest h = ground arith
length-strip (String.◌∷◌ d p) (String.◌∷◌ c s) rest h = ground (arith, length-strip p s rest)

same_letter_self : (a : ℕ) → same_letter a a ≡ true
unfolding same_letter
same_letter_self a = (==_iff (fold_case a) (fold_case a)).1 refl

pub strip-append : (p s : String) → strip_prefix_i p (p ⧺ s) ≡ some s
unfolding strip_prefix_i
strip-append String.[] s = ap some (nil-append s)
strip-append (String.◌∷◌ d p) s =
    rw (cons-append d p s, same_letter_self (code d)) (strip-append p s)

no_strip : (p s : String) → 0 < text_length p → text_length s ≡ 0 → strip_prefix_i p s ≡ none
no_strip p s pos z = elim (Option-cases (strip_prefix_i p s)) [
  | inl h ↦ h
  | inr (rest, h) ↦ absurd (omega (arith, length-strip p s rest h))
]

pub strip_rounds_stop : (n : ℕ) (p s : String) → strip_prefix_i p s ≡ none → strip_rounds n p s ≡ s
unfolding strip_rounds
strip_rounds_stop zero p s h = refl
strip_rounds_stop (suc n) p s h = rw (h, strip_rounds)

strip_rounds_step :
    (n : ℕ) (p s rest : String)
    → strip_prefix_i p s ≡ some rest
    → strip_rounds (suc n) p s ≡ strip_rounds n p rest
unfolding strip_rounds
strip_rounds_step n p s rest h = rw (h, strip_rounds)

strip_rounds_enough :
    (n m : ℕ) (p s : String)
    → 0 < text_length p
    → text_length s ≤ n
    → text_length s ≤ m
    → strip_rounds n p s ≡ strip_rounds m p s
strip_rounds_enough zero m p s pos hn hm =
    let stop = no_strip p s pos (omega arith) in
    strip_rounds_stop zero p s stop ∙ sym (strip_rounds_stop m p s stop)
strip_rounds_enough (suc n) zero p s pos hn hm =
    let stop = no_strip p s pos (omega arith) in
    strip_rounds_stop (suc n) p s stop ∙ sym (strip_rounds_stop zero p s stop)
strip_rounds_enough (suc n) (suc m) p s pos hn hm = elim (Option-cases (strip_prefix_i p s)) [
  | inl stop ↦ strip_rounds_stop (suc n) p s stop ∙ sym (strip_rounds_stop (suc m) p s stop)
  | inr (rest, h) ↦
      strip_rounds_step n p s rest h
      ∙ strip_rounds_enough n m p rest pos (omega (arith, length-strip p s rest h))
          (omega (arith, length-strip p s rest h))
      ∙ sym (strip_rounds_step m p s rest h)
]

-- A prefix in front of a text is one more to strip.
strip_repeated_i-append :
    (p s : String) → 0 < text_length p → strip_repeated_i p (p ⧺ s) ≡ strip_repeated_i p s
unfolding strip_repeated_i
strip_repeated_i-append p s pos =
    strip_rounds_enough (text_length (p ⧺ s)) (suc (text_length (p ⧺ s))) p (p ⧺ s) pos
      (omega arith) (omega arith)
    ∙ strip_rounds_step (text_length (p ⧺ s)) p (p ⧺ s) s (strip-append p s)
    ∙ strip_rounds_enough (text_length (p ⧺ s)) (text_length s) p s pos
        (omega (arith, length-strip p (p ⧺ s) s (strip-append p s))) (omega arith)

recovered-pos : 0 < text_length recovered_source
unfolding text_length
recovered-pos = omega arith

pub starts_with-append : (p s : String) → starts_with (p ⧺ s) p ≡ true
unfolding starts_with
starts_with-append String.[] s = refl
starts_with-append (String.◌∷◌ c p) s =
    rw (cons-append c p s) (ground (arith, starts_with-append p s))

recovered_split : (f : String) → recovered_source ⧺ f ≡ "RECOVERED_" ⧺ ("SOURCE_FLAG:" ⧺ f)
recovered_split f = append_assoc "RECOVERED_" "SOURCE_FLAG:" f

demoted_starts : (f : String) → starts_with (recovered_source ⧺ f) "RECOVERED_" ≡ true
demoted_starts f = rw (recovered_split f) (starts_with-append "RECOVERED_" ("SOURCE_FLAG:" ⧺ f))

-- A demoted flag has the code of the flag that it demotes, however often that one is demoted already, and
-- it never blocks.
pub demoted_flag :
    (flag : String)
    → (flag_code (recovered_source ⧺ flag) ≡ flag_code flag)
      × (is_blocking_flag (recovered_source ⧺ flag) ≡ false)
unfolding flag_code is_blocking_flag
demoted_flag flag = (
  ap (λ s. trim (before b':' s)) (strip_repeated_i-append recovered_source flag recovered-pos),
  ground (arith, demoted_starts flag),
)
