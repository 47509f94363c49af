-- ===== src/Claims/Contract.antt =====
-- What the claims contract of collaboration/claims.ts promises.
use trade_compliance_classif.Prelude.{
  ◌<◌, ◌≡◌, refl, sym, ap, ◌∙◌, ◌↔◌, inl, inr, true, not, ◌&&◌, ◌||◌, List, [], ◌∷◌, ◌++◌, map,
  String, ◌==◌, length, is_empty, All, length-append, Bool-cases, arith,
}
use trade_compliance_classif.Prelude.Text.{text_eq, eq_iff, eq_refl}
use trade_compliance_classif.Prelude.Sets.{has, IsDistinct, Disjoint, Disjoint-intro, Disjoint-has}
use trade_compliance_classif.Claims.{
  Claim, ClaimSet, active_claims, files_of, Owners, add_owner, owners_by_task, add_files,
  owners_by_file, shared_keys, claim_flags, validate_claims,
}

-- Claims that are added one by one under their keys.
add_all : List (String × Claim) → Owners → Owners
add_all [] owners = owners
add_all ((key, c) ∷ more) owners = add_all more (add_owner key c owners)

abbrev keys : {A : Type 0} → List (String × A) → List String
keys [] = []
keys ((key, a) ∷ more) = key ∷ keys more

-- Every key has a claim.
abbrev Filled : Owners → Type 0
Filled owners = All (λ (o : String × List Claim). 0 < length o.1) owners

add_owner-Filled :
    (key : String) (c : Claim) (owners : Owners) → Filled owners → Filled (add_owner key c owners)
unfolding add_owner
add_owner-Filled key c [] h = (omega arith, tt)
add_owner-Filled key c ((k, cs) ∷ owners) (p, h) =
    ground (arith, length-append cs (c ∷ []), add_owner-Filled key c owners h)

keys-add_owner :
    (key : String) (c : Claim) (owners : Owners) (x : String)
    → has (keys (add_owner key c owners)) x ≡ (has (keys owners) x || text_eq key x)
unfolding add_owner
keys-add_owner key c [] x = ground arith
keys-add_owner key c ((k, cs) ∷ owners) x =
    ground (arith, eq_iff k key, keys-add_owner key c owners x)

-- A claim is shared when its key was there.
shared-add_owner :
    (label key : String) (c : Claim) (owners : Owners)
    → Filled owners
    → is_empty (shared_keys label (add_owner key c owners))
      ≡ (is_empty (shared_keys label owners) && not (has (keys owners) key))
unfolding add_owner shared_keys
shared-add_owner label key c [] h = refl
shared-add_owner label key c ((k, cs) ∷ owners) (p, h) =
    ground (arith, length-append cs (c ∷ []), shared-add_owner label key c owners h)

no_repeats :
    (label : String) (more : List (String × Claim)) (owners : Owners)
    → Filled owners
    → is_empty (shared_keys label (add_all more owners)) ≡ true
    → (is_empty (shared_keys label owners) ≡ true)
      × IsDistinct (keys more)
      × Disjoint (keys more) (keys owners)
unfolding add_all
no_repeats label [] owners f h = (h, tt, tt)
no_repeats label ((key, c) ∷ more) owners f h =
    let (e, d, apart) =
      no_repeats label more (add_owner key c owners) (add_owner-Filled key c owners f) h in
    (
      ground (arith, shared-add_owner label key c owners f),
      (
        elim (Bool-cases (has (keys more) key)) [
          | inl m ↦ absurd (
              ground (
                arith,
                Disjoint-has (keys more) (keys (add_owner key c owners)) key apart m,
                keys-add_owner key c owners key,
                eq_refl key,
              ))
          | inr n ↦ n
        ],
        d,
      ),
      (
        ground (arith, shared-add_owner label key c owners f),
        Disjoint-intro (keys more) (keys owners) (λ x m. ground (
          arith,
          Disjoint-has (keys more) (keys (add_owner key c owners)) x apart m,
          keys-add_owner key c owners x,
        )),
      ),
    )

no_sharing :
    (label : String) (more : List (String × Claim)) (owners : Owners)
    → Filled owners
    → is_empty (shared_keys label owners) ≡ true
    → IsDistinct (keys more)
    → Disjoint (keys more) (keys owners)
    → is_empty (shared_keys label (add_all more owners)) ≡ true
unfolding add_all
no_sharing label [] owners f h d a = h
no_sharing label ((key, c) ∷ more) owners f h (n, d) (m, a) =
    no_sharing label more (add_owner key c owners) (add_owner-Filled key c owners f)
      (ground (arith, shared-add_owner label key c owners f)) d
      (Disjoint-intro (keys more) (keys (add_owner key c owners)) (λ x k. ground (
        arith,
        Disjoint-has (keys more) (keys owners) x a k,
        keys-add_owner key c owners x,
        eq_iff key x,
      )))

owners_by_task-add_all :
    (cs : List Claim) (owners : Owners)
    → owners_by_task owners cs ≡ add_all (map (λ (c : Claim). (c.task, c)) cs) owners
unfolding owners_by_task add_all
owners_by_task-add_all [] owners = refl
owners_by_task-add_all (c ∷ cs) owners = owners_by_task-add_all cs (add_owner c.task c owners)

claimed_files : List Claim → List (String × Claim)
claimed_files [] = []
claimed_files (c ∷ cs) = map (λ file. (file, c)) c.expected_files ++ claimed_files cs

add_files-add_all :
    (c : Claim) (files : List String) (more : List (String × Claim)) (owners : Owners)
    → add_all more (add_files c files owners)
      ≡ add_all (map (λ file. (file, c)) files ++ more) owners
unfolding add_files add_all
add_files-add_all c [] more owners = refl
add_files-add_all c (file ∷ files) more owners =
    add_files-add_all c files more (add_owner file c owners)

owners_by_file-add_all :
    (cs : List Claim) (owners : Owners)
    → owners_by_file owners cs ≡ add_all (claimed_files cs) owners
unfolding owners_by_file add_all claimed_files
owners_by_file-add_all [] owners = refl
owners_by_file-add_all (c ∷ cs) owners =
    owners_by_file-add_all cs (add_files c c.expected_files owners)
    ∙ add_files-add_all c c.expected_files (claimed_files cs) owners

keys-task :
    (cs : List Claim) → keys (map (λ (c : Claim). (c.task, c)) cs) ≡ map (λ (c : Claim). c.task) cs
keys-task [] = refl
keys-task (c ∷ cs) = ap (λ r. c.task ∷ r) (keys-task cs)

keys-append-files :
    (c : Claim) (files : List String) (more : List (String × Claim))
    → keys (map (λ file. (file, c)) files ++ more) ≡ files ++ keys more
keys-append-files c [] more = refl
keys-append-files c (file ∷ files) more = ap (λ r. file ∷ r) (keys-append-files c files more)

keys-claimed_files : (cs : List Claim) → keys (claimed_files cs) ≡ files_of cs
unfolding claimed_files
keys-claimed_files [] = refl
keys-claimed_files (c ∷ cs) =
    keys-append-files c c.expected_files (claimed_files cs)
    ∙ ap (λ r. c.expected_files ++ r) (keys-claimed_files cs)

-- A list of keys is without a flag when none stands twice.
unshared :
    (label : String) (more : List (String × Claim))
    → (is_empty (shared_keys label (add_all more [])) ≡ true) ↔ IsDistinct (keys more)
unfolding shared_keys
unshared label more = (
  λ h. (no_repeats label more [] tt h).1,
  λ d. no_sharing label more [] tt refl d (Disjoint-intro (keys more) [] (λ x m. refl)),
)

pub is_empty-append :
    {A : Type 0} → (xs ys : List A) → is_empty (xs ++ ys) ≡ (is_empty xs && is_empty ys)
is_empty-append [] ys = refl
is_empty-append (x ∷ xs) ys = refl

pub length-is_empty : {A : Type 0} → (xs : List A) → (length xs == 0) ≡ is_empty xs
length-is_empty [] = refl
length-is_empty (x ∷ xs) = ground arith

-- Two claims share nothing: every active claim has its own task, and every file that an active claim
-- lists is listed once, over all the active claims together.
pub record IsExclusive (claims : List Claim) : Type 0 where
  pub tasks : IsDistinct (map (λ (c : Claim). c.task) (active_claims claims))
  pub files : IsDistinct (files_of (active_claims claims))

validate_claims-flags :
    (set : ClaimSet)
    → (validate_claims set).passed ≡ (
        is_empty set.errors
        && (is_empty (
              shared_keys "DUPLICATE_ACTIVE_CLAIM:"
                (add_all (map (λ (c : Claim). (c.task, c)) (active_claims set.claims)) []))
            && is_empty (
                shared_keys "CLAIM_FILE_CONFLICT:"
                  (add_all (claimed_files (active_claims set.claims)) []))))
unfolding validate_claims claim_flags
validate_claims-flags set =
    rw
      (
        length-is_empty,
        is_empty-append,
        is_empty-append,
        owners_by_task-add_all (active_claims set.claims) [],
        owners_by_file-add_all (active_claims set.claims) [],
      )
      refl

-- The contract passes for a set of claims if and only if no claim file was refused and the active
-- claims are exclusive: no task and no file stands twice among them.
pub validate_claims-IsExclusive :
    (set : ClaimSet)
    → ((validate_claims set).passed ≡ true)
      ↔ ((is_empty set.errors ≡ true) × IsExclusive set.claims)
validate_claims-IsExclusive set =
    let by_task =
      unshared "DUPLICATE_ACTIVE_CLAIM:"
        (map (λ (c : Claim). (c.task, c)) (active_claims set.claims)) in
    let by_file = unshared "CLAIM_FILE_CONFLICT:" (claimed_files (active_claims set.claims)) in
    let flags = validate_claims-flags set in
    (
      λ h. (
        ground arith,
        record {
          tasks = rw (sym (keys-task (active_claims set.claims))) (by_task.0 (ground arith));
          files =
              rw (sym (keys-claimed_files (active_claims set.claims))) (by_file.0 (ground arith));
        },
      ),
      λ (e, x).
          let t = by_task.1 (rw (keys-task (active_claims set.claims)) x.tasks) in
          let f = by_file.1 (rw (keys-claimed_files (active_claims set.claims)) x.files) in
          ground arith,
    )
