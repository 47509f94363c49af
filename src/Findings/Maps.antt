-- ===== src/Findings/Maps.antt =====
-- Laws of the maps from ids to findings of runtime-batch-state.ts, and of passes over them.
use trade_compliance_classif.Prelude.{
  ◌≡◌, refl, ap, ◌∙◌, true, Option, none, some, List, [], ◌∷◌, ◌++◌, map, String, if◌then◌else◌,
  arith,
}
use trade_compliance_classif.Prelude.Text.{text_eq, eq_iff}
use trade_compliance_classif.Prelude.Sets.{dedup}
use trade_compliance_classif.Findings.{
  FindingStatus, RuntimeFinding, is_open, get, put, put_all, by_id,
}
use trade_compliance_classif.Findings.Close.{evidence_of, merge_into, merge_findings}

-- The last finding with an id, which is the one that a map made of the list holds.
abbrev pub last : String → List RuntimeFinding → Option RuntimeFinding
last id [] = none
last id (f ∷ fs) = elim (last id fs) [
  | some g ↦ some g
  | none ↦ if text_eq f.id id then some f else none
]

abbrev pub status_of : Option RuntimeFinding → Option FindingStatus
status_of none = none
status_of (some f) = some f.status

abbrev pub map_option :
    (RuntimeFinding → RuntimeFinding) → Option RuntimeFinding → Option RuntimeFinding
map_option h none = none
map_option h (some f) = some (h f)

abbrev pub or_get : Option RuntimeFinding → Option RuntimeFinding → Option RuntimeFinding
or_get none o = o
or_get (some f) o = some f

pub get-put :
    (id : String) (f : RuntimeFinding) (gs : List RuntimeFinding)
    → get id (put f gs) ≡ (if text_eq f.id id then some f else get id gs)
unfolding get put
get-put id f [] = refl
get-put id f (g ∷ gs) =
    ground (arith, eq_iff g.id f.id, eq_iff g.id id, eq_iff f.id id, get-put id f gs)

get-put_all :
    (id : String) (acc fs : List RuntimeFinding)
    → get id (put_all acc fs) ≡ or_get (last id fs) (get id acc)
unfolding put_all
get-put_all id acc [] = refl
get-put_all id acc (f ∷ fs) = ground (arith, get-put_all id (put f acc) fs, get-put id f acc)

pub get-by_id : (id : String) (fs : List RuntimeFinding) → get id (by_id fs) ≡ last id fs
unfolding by_id get
get-by_id id fs = ground (arith, get-put_all id [] fs)

get-merge_into :
    (id : String) (acc fs : List RuntimeFinding)
    → status_of (get id (merge_into acc fs)) ≡ status_of (or_get (last id fs) (get id acc))
unfolding merge_into
get-merge_into id acc [] = refl
get-merge_into id acc (f ∷ fs) =
    let f' : RuntimeFinding = record f {
      evidence = dedup (evidence_of (get f.id acc) ++ f.evidence);
    } in
    ground (arith, get-merge_into id (put f' acc) fs, get-put id f' acc)

pub get-merge_findings :
    (id : String) (fs : List RuntimeFinding)
    → status_of (get id (merge_findings fs)) ≡ status_of (last id fs)
unfolding merge_findings get
get-merge_findings id fs = ground (arith, get-merge_into id [] fs)

pub get-id :
    (id : String) (fs : List RuntimeFinding) (f : RuntimeFinding) → get id fs ≡ some f → f.id ≡ id
unfolding get
get-id id [] f h = cc
get-id id (g ∷ fs) f h = ground (arith, eq_iff g.id id, get-id id fs f)

pub last-append :
    (id : String) (fs gs : List RuntimeFinding)
    → last id (fs ++ gs) ≡ or_get (last id gs) (last id fs)
last-append id [] gs = ground arith
last-append id (f ∷ fs) gs = ground (arith, last-append id fs gs)

-- A pass: it leaves the ids, and what is open after it was left as it was.
pub record Closes (h : RuntimeFinding → RuntimeFinding) : Type 0 where
  pub same_id : (f : RuntimeFinding) → (h f).id ≡ f.id
  pub only_closes : (f : RuntimeFinding) → is_open (h f).status ≡ true → h f ≡ f

pub get-map :
    (h : RuntimeFinding → RuntimeFinding) (id : String) (fs : List RuntimeFinding)
    → ((f : RuntimeFinding) → (h f).id ≡ f.id)
    → get id (map h fs) ≡ map_option h (get id fs)
unfolding get
get-map h id [] same = refl
get-map h id (f ∷ fs) same = ground (arith, same f, get-map h id fs same)

-- What a map holds under an id afterwards: whatever it held is still there, and is open only if it was
-- open before.
abbrev pub Settles : Option RuntimeFinding → Option RuntimeFinding → Type 0
Settles none after = Unit
Settles (some f) none = ⊥
Settles (some f) (some f') = is_open f'.status ≡ true → is_open f.status ≡ true

pub Settles-refl : (o : Option RuntimeFinding) → Settles o o
Settles-refl none = tt
Settles-refl (some f) = λ h. h

pub Settles-trans : (a b c : Option RuntimeFinding) → Settles a b → Settles b c → Settles a c
Settles-trans none b c h k = tt
Settles-trans (some f) none c h k = absurd h
Settles-trans (some f) (some g) none h k = k
Settles-trans (some f) (some g) (some g') h k = λ e. h (k e)

pub Settles-map :
    (h : RuntimeFinding → RuntimeFinding) (id : String) (fs : List RuntimeFinding)
    → Closes h
    → Settles (get id fs) (get id (map h fs))
Settles-map h id fs c = rw (get-map h id fs c.same_id) (settles (get id fs))
  where
    settles : (o : Option RuntimeFinding) → Settles o (map_option h o)
    settles none = tt
    settles (some f) =
        λ e. rw (ap (λ (g : RuntimeFinding). is_open g.status) (c.only_closes f e)) at e

-- What a map holds under an id, if it holds no other ids than before: nothing where it held nothing, and
-- otherwise what is open only if it was open before.
abbrev pub Retains : Option RuntimeFinding → Option RuntimeFinding → Type 0
Retains none none = Unit
Retains none (some f) = ⊥
Retains (some f) after = Settles (some f) after

pub Retains-status : (a b : Option RuntimeFinding) → status_of b ≡ status_of a → Retains a b
Retains-status none none e = tt
Retains-status none (some f) e = cc
Retains-status (some f) none e = cc
Retains-status (some f) (some g) e = λ h. ground arith

pub Retains-map :
    (h : RuntimeFinding → RuntimeFinding) (id : String) (fs : List RuntimeFinding)
    (before : Option RuntimeFinding)
    → Closes h
    → Retains before (get id fs)
    → Retains before (get id (map h fs))
Retains-map h id fs none c r = rw (get-map h id fs c.same_id) (none_left (get id fs) r)
  where
    none_left : (o : Option RuntimeFinding) → Retains none o → Retains none (map_option h o)
    none_left none r = tt
    none_left (some f) r = absurd r
Retains-map h id fs (some f) c r =
    Settles-trans (some f) (get id fs) (get id (map h fs)) r (Settles-map h id fs c)

-- A map holds an open finding under an id.
abbrev pub IsOpenIn : String → List RuntimeFinding → Type 0
IsOpenIn id fs = (f : RuntimeFinding) × (get id fs ≡ some f) × (is_open f.status ≡ true)

pub map-IsOpenIn :
    (h : RuntimeFinding → RuntimeFinding) (id : String) (fs : List RuntimeFinding)
    → ((f : RuntimeFinding) → (h f).id ≡ f.id)
    → ((f : RuntimeFinding) → f.id ≡ id → is_open f.status ≡ true → is_open (h f).status ≡ true)
    → IsOpenIn id fs
    → IsOpenIn id (map h fs)
map-IsOpenIn h id fs same keep (f, found, opened) =
    (h f, get-map h id fs same ∙ ap (map_option h) found, keep f (get-id id fs f found) opened)
