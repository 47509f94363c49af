-- ===== src/Claims/Batches/Roundtrip.antt =====
-- A batch's number through the name of its claim file and through the subject of its commit.
use Prim.Native.Char.{Char, code}
use text.Mathlib.TextLemmas.{nil-append, append-nil, cons-append}
use trade_compliance_classif.Prelude.{
  ℕ, ◌+◌, ◌*◌, ◌<◌, ◌≡◌, refl, sym, ap, ◌∙◌, inl, inr, Bool, true, false, not, Option, none, some,
  List, [], ◌∷◌, String, ==_iff, arith, Bool-cases,
}
use trade_compliance_classif.Prelude.Text.{
  ◌⧺◌, text_eq, eq_iff, trim, trim_start, trim_end, cons_unless_blank, is_blank, is_digit,
  strip_prefix_i, pad3, starts_with,
}
use trade_compliance_classif.Prelude.Text.Digits.{read-pad3}
use trade_compliance_classif.Prelude.Sets.{has}
use trade_compliance_classif.Types.{Batch}
use trade_compliance_classif.Flags.Laws.{strip-append}
use trade_compliance_classif.Claims
use trade_compliance_classif.Claims.{
  ClaimStatus, active, blocked, done, released, Claim, is_active, digits_value, batch_of_name,
  has_number, reconcile_committed_runtime_claim, runtime_claim,
}
use trade_compliance_classif.Claims.Batches.{
  whole_number, batch_of_subject, add_number, completed_yolo_batches,
}

-- Whether a text, after characters of which the last was solid or not, ends in a character that is not blank.
solid : Bool → String → Bool
solid seen String.[] = seen
solid seen (String.◌∷◌ c s) = solid (not (is_blank (code c))) s

solid-append : (p s : String) (seen : Bool) → solid false s ≡ true → solid seen (p ⧺ s) ≡ true
unfolding solid
solid-append String.[] String.[] seen h = absurd (ground arith)
solid-append String.[] (String.◌∷◌ c s) seen h = rw (nil-append (String.◌∷◌ c s)) h
solid-append (String.◌∷◌ c p) s seen h =
    rw (cons-append c p s) (solid-append p s (not (is_blank (code c))) h)

trim_end-solid :
    (c : Char) (s : String)
    → solid false (String.◌∷◌ c s) ≡ true
    → trim_end (String.◌∷◌ c s) ≡ String.◌∷◌ c s
unfolding solid trim_end
trim_end-solid c String.[] h = ground arith
trim_end-solid c (String.◌∷◌ d s) h = ap (cons_unless_blank c) (trim_end-solid d s h)

trim_end_whole : (s : String) → solid false s ≡ true → trim_end s ≡ s
unfolding solid trim_end
trim_end_whole String.[] h = refl
trim_end_whole (String.◌∷◌ c s) h = trim_end-solid c s h

abbrev starts_solid : String → Bool
starts_solid String.[] = false
starts_solid (String.◌∷◌ c s) = not (is_blank (code c))

trim_start-append : (p s : String) → starts_solid p ≡ true → trim_start (p ⧺ s) ≡ p ⧺ s
unfolding trim_start
trim_start-append String.[] s h = absurd (ground arith)
trim_start-append (String.◌∷◌ c p) s h = rw (cons-append c p s) (ground arith)

solid-digit :
    (seen : Bool) (n : ℕ) (c : Char) (s : String) (d : ℕ)
    → d < 10
    → code c ≡ 48 + d
    → solid seen (String.◌∷◌ c s) ≡ solid true s
unfolding solid
solid-digit seen n c s d h e = ap (λ b. solid b s) (ground arith)

pad3-solid : (n : ℕ) → solid false (pad3 n) ≡ true
unfolding solid
pad3-solid n =
    ap (solid false) (sym (append-nil (pad3 n)))
    ∙ read-pad3 (λ seen m s. solid seen s) solid-digit n String.[]

abbrev subject_of : ℕ → String
subject_of number = "feat(yolo): complete batch " ⧺ pad3 number

trim-subject_of : (n : ℕ) → trim (subject_of n) ≡ subject_of n
unfolding trim
trim-subject_of n =
    ap trim_end (trim_start-append "feat(yolo): complete batch " (pad3 n) refl)
    ∙ trim_end_whole (subject_of n)
        (solid-append "feat(yolo): complete batch " (pad3 n) false (pad3-solid n))

whole_number-digit :
    (seen : Bool) (n : ℕ) (c : Char) (s : String) (d : ℕ)
    → d < 10
    → code c ≡ 48 + d
    → whole_number seen n (String.◌∷◌ c s) ≡ whole_number true (n * 10 + d) s
unfolding whole_number
whole_number-digit seen n c s d h e =
    let digit : is_digit (code c) ≡ true = ground arith in
    rw digit (ap (λ m. whole_number true m s) (omega arith))

digits_value-digit :
    (seen : Bool) (n : ℕ) (c : Char) (s : String) (d : ℕ)
    → d < 10
    → code c ≡ 48 + d
    → digits_value seen n (String.◌∷◌ c s) ≡ digits_value true (n * 10 + d) s
unfolding digits_value
digits_value-digit seen n c s d h e =
    let digit : is_digit (code c) ≡ true = ground arith in
    rw digit (ap (λ m. digits_value true m s) (omega arith))

abbrev file_of : ℕ → String
file_of number = "yolo-batch-" ⧺ pad3 number ⧺ ".json"

batch_of_name_rest :
    (name rest : String)
    → strip_prefix_i "yolo-batch-" name ≡ some rest
    → batch_of_name name ≡ digits_value false 0 rest
unfolding batch_of_name
batch_of_name_rest name rest h = rw (h, batch_of_name) refl

json-digits_value : (n : ℕ) → digits_value true n ".json" ≡ some n
unfolding Claims.runs digits_value
json-digits_value n = refl

batch_of_name-file_of : (n : ℕ) → batch_of_name (file_of n) ≡ some n
batch_of_name-file_of n =
    batch_of_name_rest (file_of n) (pad3 n ⧺ ".json")
      (strip-append "yolo-batch-" (pad3 n ⧺ ".json"))
    ∙ read-pad3 digits_value digits_value-digit n ".json"
    ∙ json-digits_value n

batch_of_subject_rest :
    (subject rest : String)
    → strip_prefix_i "feat(yolo): complete batch " (trim subject) ≡ some rest
    → batch_of_subject subject ≡ whole_number false 0 rest
unfolding batch_of_subject
batch_of_subject_rest subject rest h = rw (h, batch_of_subject) refl

whole_number-pad3 : (n : ℕ) → whole_number false 0 (pad3 n) ≡ some n
unfolding whole_number
whole_number-pad3 n =
    ap (whole_number false 0) (sym (append-nil (pad3 n)))
    ∙ read-pad3 whole_number whole_number-digit n String.[]

batch_of_subject-subject_of : (n : ℕ) → batch_of_subject (subject_of n) ≡ some n
batch_of_subject-subject_of n =
    batch_of_subject_rest (subject_of n) (pad3 n) (
      ap (strip_prefix_i "feat(yolo): complete batch ") (trim-subject_of n)
      ∙ strip-append "feat(yolo): complete batch " (pad3 n))
    ∙ whole_number-pad3 n

completed-has_number :
    (subjects : List String) (n : ℕ)
    → has subjects (subject_of n) ≡ true
    → has_number (some n) (completed_yolo_batches subjects) ≡ true
unfolding completed_yolo_batches
completed-has_number [] n h = absurd (ground arith)
completed-has_number (s ∷ subjects) n h = elim (Bool-cases (text_eq s (subject_of n))) [
  | inl same ↦
      rw ((eq_iff s (subject_of n)).0 same, batch_of_subject-subject_of n)
        (ground (arith, ==_iff n n))
  | inr other ↦ later (batch_of_subject s) (completed-has_number subjects n (ground arith))
]
  where
    later :
        (o : Option ℕ)
        → has_number (some n) (completed_yolo_batches subjects) ≡ true
        → has_number (some n) (add_number o (completed_yolo_batches subjects)) ≡ true
    later none h = h
    later (some m) h = ground (arith, h)

reconciled :
    (now : String) (batch : Batch) (status : ClaimStatus) (name : String) (completed : List ℕ)
    → is_active status ≡ true
    → has_number (batch_of_name name) completed ≡ true
    → reconcile_committed_runtime_claim (runtime_claim now batch status) name completed
      ≡ runtime_claim now batch done
unfolding reconcile_committed_runtime_claim runtime_claim starts_with
reconciled now batch active name completed live member = rw member refl
reconciled now batch blocked name completed live member = rw member refl
reconciled now batch done name completed live member = absurd (ground arith)
reconciled now batch released name completed live member = absurd (ground arith)

-- A batch whose commit is in the log is done: whatever its number, the claim that the runtime wrote for it, active or
-- blocked, and its file's name and the subject of its commit, which both write the number out, are read so
-- that the claim comes out with the status done and with nothing else changed.
pub reconcile_committed_runtime_claim-done :
    (now : String) (batch : Batch) (status : ClaimStatus) (subjects : List String)
    → is_active status ≡ true
    → has subjects ("feat(yolo): complete batch " ⧺ pad3 batch.number) ≡ true
    → reconcile_committed_runtime_claim
        (runtime_claim now batch status)
        ("yolo-batch-" ⧺ pad3 batch.number ⧺ ".json")
        (completed_yolo_batches subjects)
      ≡ runtime_claim now batch done
reconcile_committed_runtime_claim-done now batch status subjects live committed =
    reconciled now batch status (file_of batch.number) (completed_yolo_batches subjects) live (
      ap (λ o. has_number o (completed_yolo_batches subjects)) (batch_of_name-file_of batch.number)
      ∙ completed-has_number subjects batch.number committed)
