-- ===== src/Prelude/Text/Digits.antt =====
-- Reading the decimal digits of a number back.
use Prim.Native.Nat.{ℕ, zero, suc, ◌+◌, ◌*◌, ◌-◌, ◌/◌, ◌%◌, ◌<◌}
use Prim.Native.Char.{Char, code}
use Prim.Native.String.{String}
use text.Mathlib.TextLemmas.{nil-append, cons-append, append_assoc}
use mathlib.Core.Path.{◌≡◌, refl, ap, ◌∙◌}
use mathlib.Core.Logic.{inl, inr}
use mathlib.Core.Bool.{Bool, true, false}
use native.Mathlib.Omega.{arith}
use trade_compliance_classif.Prelude.Tests.{ltb, Bool-cases}
use trade_compliance_classif.Prelude.Text.{
  ◌⧺◌, char_of, digit_text, digits_from, pad_zeros, show, pad3, text_length,
}

digit-code : (d : ℕ) → d < 10 → code (char_of (48 + d)) ≡ 48 + d
unfolding char_of
digit-code zero h = refl
digit-code (suc zero) h = refl
digit-code (suc (suc zero)) h = refl
digit-code (suc (suc (suc zero))) h = refl
digit-code (suc (suc (suc (suc zero)))) h = refl
digit-code (suc (suc (suc (suc (suc zero))))) h = refl
digit-code (suc (suc (suc (suc (suc (suc zero)))))) h = refl
digit-code (suc (suc (suc (suc (suc (suc (suc zero))))))) h = refl
digit-code (suc (suc (suc (suc (suc (suc (suc (suc zero)))))))) h = refl
digit-code (suc (suc (suc (suc (suc (suc (suc (suc (suc zero))))))))) h = refl
digit-code (suc (suc (suc (suc (suc (suc (suc (suc (suc (suc d)))))))))) h = absurd (omega arith)

digit-append : (d : ℕ) (s : String) → digit_text d ⧺ s ≡ String.◌∷◌ (char_of (48 + d)) s
digit-append d s =
    cons-append (char_of (48 + d)) String.[] s ∙ ap (String.◌∷◌ (char_of (48 + d))) (nil-append s)

digits_from-append :
    (fuel n : ℕ) (acc rest : String)
    → digits_from fuel n acc ⧺ rest ≡ digits_from fuel n (acc ⧺ rest)
unfolding digits_from
digits_from-append zero n acc rest = refl
digits_from-append (suc fuel) n acc rest = elim (Bool-cases (ltb n 10)) [
  | inl last ↦ rw last (append_assoc (digit_text n) acc rest)
  | inr more ↦ rw more (
      digits_from-append fuel (n / 10) (digit_text (n % 10) ⧺ acc) rest
      ∙ ap (digits_from fuel (n / 10)) (append_assoc (digit_text (n % 10)) acc rest))
]

pad_zeros-append : (k : ℕ) (s rest : String) → pad_zeros k s ⧺ rest ≡ pad_zeros k (s ⧺ rest)
unfolding pad_zeros
pad_zeros-append zero s rest = refl
pad_zeros-append (suc k) s rest =
    append_assoc "0" (pad_zeros k s) rest ∙ ap (λ t. "0" ⧺ t) (pad_zeros-append k s rest)

show-append : (n : ℕ) (rest : String) → show n ⧺ rest ≡ digits_from (suc n) n rest
unfolding show
show-append n rest =
    digits_from-append (suc n) n "" rest ∙ ap (digits_from (suc n) n) (nil-append rest)

zero_text : "0" ≡ digit_text 0
unfolding char_of
zero_text = refl

-- A reader of digits, which takes whether it has met one and the number so far.
module _ {ℓ} {A : Type ℓ} (read : Bool → ℕ → String → A)
    (digit : (seen : Bool) (n : ℕ) (c : Char) (s : String) (d : ℕ)
      → d < 10
      → code c ≡ 48 + d
      → read seen n (String.◌∷◌ c s) ≡ read true (n * 10 + d) s) where
  read-digit_text :
      (seen : Bool) (n d : ℕ) (s : String)
      → d < 10
      → read seen n (digit_text d ⧺ s) ≡ read true (n * 10 + d) s
  read-digit_text seen n d s h =
      rw (digit-append d s) (digit seen n (char_of (48 + d)) s d h (digit-code d h))

  read-digits_from :
      (fuel n : ℕ) (seen : Bool) (acc : String)
      → n < fuel
      → read seen 0 (digits_from fuel n acc) ≡ read true n acc
  unfolding digits_from
  read-digits_from zero n seen acc h = absurd (omega arith)
  read-digits_from (suc fuel) n seen acc h = elim (Bool-cases (ltb n 10)) [
    | inl last ↦ rw last (
        read-digit_text seen 0 n acc (ground (arith, last))
        ∙ ap (λ m. read true m acc) (omega arith))
    | inr more ↦
        let large : 9 < n = ground (arith, more) in
        rw more (
          read-digits_from fuel (n / 10) seen (digit_text (n % 10) ⧺ acc) (omega arith)
          ∙ read-digit_text true (n / 10) (n % 10) acc (omega arith)
          ∙ ap (λ m. read true m acc) (omega arith))
  ]

  read-pad_zeros :
      (k n fuel : ℕ) (seen : Bool) (acc : String)
      → n < fuel
      → read seen 0 (pad_zeros k (digits_from fuel n acc)) ≡ read true n acc
  unfolding pad_zeros
  read-pad_zeros zero n fuel seen acc h = read-digits_from fuel n seen acc h
  read-pad_zeros (suc k) n fuel seen acc h =
      ap (λ z. read seen 0 (z ⧺ pad_zeros k (digits_from fuel n acc))) zero_text
      ∙ read-digit_text seen 0 0 (pad_zeros k (digits_from fuel n acc)) (omega arith)
      ∙ read-pad_zeros k n fuel true acc h

  -- It reads a padded number back, whatever follows it.
  pub read-pad3 : (n : ℕ) (rest : String) → read false 0 (pad3 n ⧺ rest) ≡ read true n rest
  unfolding pad3
  read-pad3 n rest =
      let k = 3 - text_length (show n) in
      ap (read false 0) (pad_zeros-append k (show n) rest ∙ ap (pad_zeros k) (show-append n rest))
      ∙ read-pad_zeros k n (suc n) false rest (omega arith)
