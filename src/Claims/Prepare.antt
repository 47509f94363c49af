-- ===== src/Claims/Prepare.antt =====
-- What loading the claims and preparing a claim of the runtime's own do, in collaboration/claims.ts.
use trade_compliance_classif.Prelude.{
  ℕ, ◌≡◌, refl, sym, ◌∙◌, ◌↔◌, inl, inr, Bool, true, false, ◌&&◌, Option, none, some, List, [], ◌∷◌,
  ◌++◌, map, String, filter, is_empty, any, All, Bool-cases, arith, if◌then◌else◌,
}
use trade_compliance_classif.Prelude.Text.{◌⧺◌, text_eq, eq_iff, eq_refl, pad3}
use trade_compliance_classif.Prelude.Sets.{
  has, dedup, has-dedup, Disjoint, Disjoint-intro, Disjoint-has,
}
use trade_compliance_classif.Types.{ProgressItem, Batch, GateResult}
use trade_compliance_classif.Claims.{
  Claim, active, ClaimSet, claim_flags, ClaimFile, parsed, Directory, active_claims, is_external,
  same_task, is_claimed_by_external_operator, external_files, conflicts_with_claimed_files,
  validate_claims, item_files, claimed_titles, runtime_claim_conflicts, load_claims, runtime_claim,
  write_file, write_runtime_claim, prepare_runtime_claim,
}
use trade_compliance_classif.Claims.Contract.{
  IsExclusive, is_empty-append, length-is_empty, validate_claims-IsExclusive,
}

-- No external operator's claim is in the way of a batch.
pub record IsUnclaimed (claims : List Claim) (batch : Batch) : Type 0 where
  pub items :
      All
        (λ (item : ProgressItem). is_claimed_by_external_operator item.title claims ≡ false)
        batch.items
  pub files : Disjoint (item_files batch.items) (external_files claims)

any-filter : (p q : Claim → Bool) (cs : List Claim) → any p (filter q cs) ≡ any (λ c. p c && q c) cs
any-filter p q [] = refl
any-filter p q (c ∷ cs) = ground (arith, any-filter p q cs)

claimed_titles-unclaimed :
    (claims : List Claim) (items : List ProgressItem)
    → (is_empty (claimed_titles (filter is_external (active_claims claims)) items) ≡ true)
      ↔ All
          (λ (item : ProgressItem). is_claimed_by_external_operator item.title claims ≡ false)
          items
unfolding claimed_titles is_claimed_by_external_operator
claimed_titles-unclaimed claims [] = (λ h. tt, λ h. refl)
claimed_titles-unclaimed claims (item ∷ items) =
    let rest = claimed_titles-unclaimed claims items in
    let here =
      any-filter (λ (c : Claim). same_task item.title c.task) is_external (active_claims claims) in
    (λ h. (ground arith, rest.0 (ground arith)), λ (u, h). let r = rest.1 h in ground arith)

filter-Disjoint :
    (taken files : List String)
    → (is_empty (filter (has taken) files) ≡ true) ↔ Disjoint files taken
filter-Disjoint taken [] = (λ h. tt, λ h. refl)
filter-Disjoint taken (file ∷ files) =
    let rest = filter-Disjoint taken files in
    (λ h. (ground arith, rest.0 (ground arith)), λ (u, h). let r = rest.1 h in ground arith)

is_empty-map : {A B : Type 0} → (f : A → B) (xs : List A) → is_empty (map f xs) ≡ is_empty xs
is_empty-map f [] = refl
is_empty-map f (x ∷ xs) = refl

dedup-Disjoint : (xs ys : List String) → Disjoint (dedup xs) ys ↔ Disjoint xs ys
dedup-Disjoint xs ys = (
  λ d.
      Disjoint-intro xs ys (λ x m. Disjoint-has (dedup xs) ys x d (ground (arith, has-dedup xs x))),
  λ d.
      Disjoint-intro (dedup xs) ys (λ x m. Disjoint-has xs ys x d (ground (arith, has-dedup xs x))),
)

conflicts-IsUnclaimed :
    (batch : Batch) (claims : List Claim)
    → (is_empty (runtime_claim_conflicts batch claims) ≡ true) ↔ IsUnclaimed claims batch
unfolding runtime_claim_conflicts conflicts_with_claimed_files
conflicts-IsUnclaimed batch claims =
    let titles = claimed_titles-unclaimed claims batch.items in
    let free = filter-Disjoint (external_files claims) (dedup (item_files batch.items)) in
    let split =
      is_empty-append (claimed_titles (filter is_external (active_claims claims)) batch.items) (
        map (λ file. "CLAIM_FILE_CONFLICT:" ⧺ file)
          (filter (has (external_files claims)) (dedup (item_files batch.items)))) in
    let mapped =
      is_empty-map (λ file. "CLAIM_FILE_CONFLICT:" ⧺ file)
        (filter (has (external_files claims)) (dedup (item_files batch.items))) in
    (
      λ h. record {
        items = titles.0 (ground arith);
        files =
            (dedup-Disjoint (item_files batch.items) (external_files claims)).0
              (free.0 (ground arith));
      },
      λ u.
          let t = titles.1 u.items in
          let f =
            free.1 ((dedup-Disjoint (item_files batch.items) (external_files claims)).1 u.files) in
          ground arith,
    )

abbrev pub content : String → Directory → Option ClaimFile
content name [] = none
content name ((n, c) ∷ files) =
    let rest = content name files in if text_eq n name then some c else rest

content-write_file :
    (name n : String) (c : ClaimFile) (files : Directory)
    → content n (write_file name c files) ≡ (if text_eq name n then some c else content n files)
unfolding write_file
content-write_file name n c [] = refl
content-write_file name n c ((k, d) ∷ files) =
    ground (arith, eq_iff k name, eq_iff k n, eq_iff name n, content-write_file name n c files)

abbrev pub own_file : Batch → String
own_file batch = "yolo-batch-" ⧺ pad3 batch.number ⧺ ".json"

-- What preparing a claim leaves, for the claims that were loaded and the directory after loading them.
pub record IsPrepared (now : String) (batch : Batch) (set : ClaimSet) (loaded : Directory)
    (out : Directory × GateResult) : Type 0 where
  pub accepts :
      (out.1.passed ≡ true)
      ↔ ((is_empty set.errors ≡ true) × IsExclusive set.claims × IsUnclaimed set.claims batch)
  pub flags : is_empty out.1.flags ≡ out.1.passed
  pub own : content (own_file batch) out.0 ≡ (
      if out.1.passed
      then some (parsed (runtime_claim now batch active))
      else content (own_file batch) loaded)
  pub others :
      (name : String)
      → text_eq (own_file batch) name ≡ false
      → content name out.0 ≡ content name loaded

passed-flags :
    (set : ClaimSet) → is_empty (validate_claims set).flags ≡ (validate_claims set).passed
unfolding validate_claims
passed-flags set = sym (length-is_empty (claim_flags set))

accepted :
    (batch : Batch) (set : ClaimSet)
    → (is_empty ((validate_claims set).flags ++ runtime_claim_conflicts batch set.claims) ≡ true)
      ↔ ((is_empty set.errors ≡ true) × IsExclusive set.claims × IsUnclaimed set.claims batch)
accepted batch set =
    let split =
      is_empty-append (validate_claims set).flags (runtime_claim_conflicts batch set.claims) in
    let same = passed-flags set in
    let exclusive = validate_claims-IsExclusive set in
    let unclaimed = conflicts-IsUnclaimed batch set.claims in
    (
      λ h. let (e, x) = exclusive.0 (ground arith) in (e, x, unclaimed.0 (ground arith)),
      λ (e, x, u). let p = exclusive.1 (e, x) in let q = unclaimed.1 u in ground arith,
    )

-- With collaboration enabled, a claim is prepared if and only if no claim file was refused, the
-- active claims are exclusive and no external claim covers a task or a file of the batch. It then
-- stands in the batch's own file as active; otherwise flags say why and that file is as loading left
-- it. Every other file is as loading left it.
pub prepare_runtime_claim-IsPrepared :
    (now : String) (completed : List ℕ) (batch : Batch) (files : Directory)
    → IsPrepared now batch
        (load_claims completed files).0
        (load_claims completed files).1
        (prepare_runtime_claim true now completed batch files)
unfolding prepare_runtime_claim write_runtime_claim
prepare_runtime_claim-IsPrepared now completed batch files =
    let (set, loaded) = load_claims completed files in
    let ok = accepted batch set in
    elim (Bool-cases
      (is_empty ((validate_claims set).flags ++ runtime_claim_conflicts batch set.claims))) [
        | inl free ↦ rw free (record {
          accepts = (λ h. ok.0 free, λ h. refl);
          flags = refl;
          own =
              content-write_file (own_file batch) (own_file batch)
                (parsed (runtime_claim now batch active)) loaded
              ∙ ground (arith, eq_refl (own_file batch));
          others = λ name differ. ground (
            arith,
            content-write_file (own_file batch) name (parsed (runtime_claim now batch active))
                loaded,
          );
        })
        | inr taken ↦ rw taken (record {
          accepts = (λ h. absurd (ground arith), λ h. absurd (let e = ok.1 h in ground arith));
          flags = taken;
          own = refl;
          others = λ name differ. refl;
        })
      ]
