-- ===== src/Parallel/Plan.antt =====
-- What a plan of collaboration/scheduler.ts promises: its shards can run at once.
use trade_compliance_classif.Prelude.{
  ℕ, ◌+◌, ◌≤◌, ◌<◌, ◌≡◌, refl, sym, ap, ◌∙◌, inl, inr, true, false, not, Option, none, some, List,
  [], ◌∷◌, ◌++◌, map, String, ltb, leb, filter, length, is_empty, any, All, All-append, All-map,
  length-append, append-nil, append_assoc, Bool-cases, Option-cases, arith,
}
use trade_compliance_classif.Prelude.Text.{text_eq, eq_iff}
use trade_compliance_classif.Prelude.Sets.{
  has, has-set_add, has-set_add_all, Disjoint, Disjoint-intro,
}
use trade_compliance_classif.Types.{ProgressItem}
use trade_compliance_classif.Progress.{is_audit_item}
use trade_compliance_classif.Claims.{
  Claim, active_claims, is_claimed_by_external_operator, conflicts_with_claimed_files,
}
use trade_compliance_classif.Parallel.{
  ParallelPlan, Planning, domain_of, is_shared_file, skip_reason, shard_of, place, plan_loop,
  most_shards, start, plan_parallel_batches,
}

-- An item that an agent may work on beside others: no audit, not claimed by another operator, and
-- with neither a claimed nor a shared file.
pub record IsFree (claims : List Claim) (item : ProgressItem) : Type 0 where
  pub no_audit : is_audit_item item ≡ false
  pub unclaimed : is_claimed_by_external_operator item.title claims ≡ false
  pub no_conflict :
      is_empty (conflicts_with_claimed_files item.affected_files (active_claims claims)) ≡ true
  pub unshared : any is_shared_file item.affected_files ≡ false

-- An item and a later one: no file of both, and the later one has another domain when it names no file.
pub record Apart (earlier later : ProgressItem) : Type 0 where
  pub files : Disjoint earlier.affected_files later.affected_files
  pub domains :
      is_empty later.affected_files ≡ true
      → text_eq (domain_of earlier.tag) (domain_of later.tag) ≡ false

abbrev pub AllApart : List ProgressItem → Type 0
AllApart [] = Unit
AllApart (item ∷ items) = All (Apart item) items × AllApart items

-- The first list is taken from the second, in its order.
pub data Chosen : List ProgressItem → List ProgressItem → Type 0 where
  done : {items : List ProgressItem} → Chosen [] items
  skip : {xs ys : List ProgressItem} {y : ProgressItem} → Chosen xs ys → Chosen xs (y ∷ ys)
  keep : {xs ys : List ProgressItem} {y : ProgressItem} → Chosen xs ys → Chosen (y ∷ xs) (y ∷ ys)

-- The sets of the loop know an item.
record Known (st : Planning) (item : ProgressItem) : Type 0 where
  files : (file : String) → has item.affected_files file ≡ true → has st.used_files file ≡ true
  domain : has st.used_domains (domain_of item.tag) ≡ true

-- The invariant of the loop, with the items of the shards so far.
record Holds (most number : ℕ) (claims : List Claim) (st : Planning) (items : List ProgressItem)
    : Type 0 where
  shards : st.shards ≡ map (shard_of number) items
  bound : length st.shards ≤ most
  free : All (IsFree claims) items
  apart : AllApart items
  known : All (Known st) items

-- What the tests of the loop leave.
record Passes (claims : List Claim) (st : Planning) (item : ProgressItem) : Type 0 where
  free : IsFree claims item
  unused : any (has st.used_files) item.affected_files ≡ false
  new_domain :
      has st.used_domains (domain_of item.tag) ≡ true → is_empty item.affected_files ≡ false

reason-Passes :
    (claims : List Claim) (st : Planning) (item : ProgressItem)
    → skip_reason claims st item ≡ none
    → Passes claims st item
unfolding skip_reason
reason-Passes claims st item h = record {
  free = record {
    no_audit = ground arith;
    unclaimed = ground arith;
    no_conflict = ground arith;
    unshared = ground arith;
  };
  unused = ground arith;
  new_domain = λ d. ground arith;
}

AllApart-snoc :
    (items : List ProgressItem) (item : ProgressItem)
    → AllApart items
    → All (λ e. Apart e item) items
    → AllApart (items ++ item ∷ [])
AllApart-snoc [] item a h = (tt, tt)
AllApart-snoc (x ∷ items) item (a, more) (h, hs) =
    (All-append (Apart x) items (item ∷ []) a (h, tt), AllApart-snoc items item more hs)

any-has :
    (used files : List String) (x : String)
    → any (has used) files ≡ false
    → has used x ≡ true
    → has files x ≡ false
any-has used [] x h u = refl
any-has used (f ∷ files) x h u = ground (arith, eq_iff f x, any-has used files x)

Known-Apart :
    (claims : List Claim) (st : Planning) (item earlier : ProgressItem)
    → Passes claims st item
    → Known st earlier
    → Apart earlier item
Known-Apart claims st item earlier p k = record {
  files =
      Disjoint-intro earlier.affected_files item.affected_files
        (λ x m. any-has st.used_files item.affected_files x p.unused (k.files x m));
  domains = λ e. elim (Bool-cases (text_eq (domain_of earlier.tag) (domain_of item.tag))) [
    | inl same ↦ absurd (
        ground (arith, eq_iff (domain_of earlier.tag) (domain_of item.tag), p.new_domain, k.domain))
    | inr differ ↦ differ
  ];
}

map-snoc :
    (number : ℕ) (items : List ProgressItem) (item : ProgressItem)
    → map (shard_of number) (items ++ item ∷ [])
      ≡ map (shard_of number) items ++ shard_of number item ∷ []
map-snoc number [] item = refl
map-snoc number (x ∷ items) item = ap (λ r. shard_of number x ∷ r) (map-snoc number items item)

place-Holds :
    (most number : ℕ) (claims : List Claim) (st : Planning) (items : List ProgressItem)
    (item : ProgressItem)
    → Holds most number claims st items
    → length st.shards < most
    → Passes claims st item
    → Holds most number claims (place number st item none) (items ++ item ∷ [])
place-Holds most number claims st items item h room p = record {
  shards = ap (λ r. r ++ shard_of number item ∷ []) h.shards ∙ sym (map-snoc number items item);
  bound = omega (arith, length-append st.shards (shard_of number item ∷ []));
  free = All-append (IsFree claims) items (item ∷ []) h.free (p.free, tt);
  apart =
      AllApart-snoc items item h.apart
        (All-map (λ e k. Known-Apart claims st item e p k) items h.known);
  known =
      All-append (Known _) items (item ∷ [])
        (All-map
          (λ e k. record {
            files = λ x m.
                ground (arith, has-set_add_all st.used_files item.affected_files x, k.files x m);
            domain = ground (
              arith,
              has-set_add st.used_domains (domain_of item.tag) (domain_of e.tag),
              k.domain,
            );
          })
          items h.known)
        (
          record {
            files = λ x m. ground (arith, has-set_add_all st.used_files item.affected_files x);
            domain = ground (
              arith,
              has-set_add st.used_domains (domain_of item.tag) (domain_of item.tag),
              eq_iff (domain_of item.tag) (domain_of item.tag),
            );
          },
          tt,
        );
}

-- How many more items the loop has accounted for.
counted : Planning → ℕ
counted st = length st.shards + length st.skipped

-- What the loop has when it ends: its invariant, for the items in front of it and some that it took.
record Ends (most number : ℕ) (claims : List Claim) (st : Planning)
    (before items : List ProgressItem) (out : Planning) : Type 0 where
  new : List ProgressItem
  taken : Chosen new items
  holds : Holds most number claims out (before ++ new)
  counts : length out.shards < most → counted out ≡ counted st + length items

stopped :
    (most number : ℕ) (claims : List Claim) (st : Planning) (before items : List ProgressItem)
    → Holds most number claims st before
    → (length st.shards < most → items ≡ [])
    → Ends most number claims st before items st
unfolding counted
stopped most number claims st before items h e = record {
  new = [];
  taken = done;
  holds = rw (append-nil before) h;
  counts = λ l. rw (e l) (omega arith);
}

skipped_Holds :
    (most number : ℕ) (claims : List Claim) (st : Planning) (before : List ProgressItem)
    (item : ProgressItem) (reason : String)
    → Holds most number claims st before
    → Holds most number claims (place number st item (some reason)) before
skipped_Holds most number claims st before item reason h = record {
  shards = h.shards;
  bound = h.bound;
  free = h.free;
  apart = h.apart;
  known = All-map (λ e k. record { files = k.files; domain = k.domain }) before h.known;
}

skip_step :
    (most number : ℕ) (claims : List Claim) (st : Planning) (before items : List ProgressItem)
    (item : ProgressItem) (reason : String) (out : Planning)
    → Ends most number claims (place number st item (some reason)) before items out
    → Ends most number claims st before (item ∷ items) out
unfolding counted
skip_step most number claims st before items item reason out rest = record {
  new = rest.new;
  taken = skip rest.taken;
  holds = rest.holds;
  counts = λ l. omega (arith, rest.counts l, length-append st.skipped (reason ∷ []));
}

keep_step :
    (most number : ℕ) (claims : List Claim) (st : Planning) (before items : List ProgressItem)
    (item : ProgressItem) (out : Planning)
    → Ends most number claims (place number st item none) (before ++ item ∷ []) items out
    → Ends most number claims st before (item ∷ items) out
unfolding counted
keep_step most number claims st before items item out rest = record {
  new = item ∷ rest.new;
  taken = keep rest.taken;
  holds = rw (sym (append_assoc before (item ∷ []) rest.new)) rest.holds;
  counts = λ l. omega (arith, rest.counts l, length-append st.shards (shard_of number item ∷ []));
}

plan_loop-Ends :
    (most number : ℕ) (claims : List Claim) (st : Planning) (before items : List ProgressItem)
    → Holds most number claims st before
    → Ends most number claims st before items (plan_loop most number claims st items)
unfolding plan_loop
plan_loop-Ends most number claims st before [] h =
    stopped most number claims st before [] h (λ l. refl)
plan_loop-Ends most number claims st before (item ∷ items) h =
    elim (Bool-cases (leb most (length st.shards))) [
      | inl full ↦
          rw full
            (stopped most number claims st before (item ∷ items) h (λ l. absurd (ground arith)))
      | inr room ↦ elim (Option-cases (skip_reason claims st item)) [
        | inr (reason, e) ↦
            rw (room, e)
              (skip_step most number claims st before items item reason _ (
                plan_loop-Ends most number claims (place number st item (some reason)) before items
                  (skipped_Holds most number claims st before item reason h)))
        | inl e ↦
            rw (room, e)
              (keep_step most number claims st before items item _ (
                plan_loop-Ends most number claims (place number st item none) (before ++ item ∷ [])
                  items
                  (place-Holds most number claims st before item h (ground arith)
                    (reason-Passes claims st item e))))
      ]
    ]

-- A plan for parallel work on a list of items.
pub record IsPlan (most number : ℕ) (claims : List Claim) (items : List ProgressItem)
    (plan : ParallelPlan) : Type 0 where
  pub chosen : List ProgressItem
  pub in_order : Chosen chosen items
  pub shards : plan.shards ≡ map (shard_of number) chosen
  pub free : All (IsFree claims) chosen
  pub apart : AllApart chosen
  pub bound : length plan.shards ≤ most
  pub complete : length plan.shards < most → length plan.shards + length plan.skipped ≡ length items
  pub flagged : is_empty plan.flags ≡ not (ltb (length plan.shards) 2)

-- Every plan is of this kind for the unchecked items: its shards are one item each, taken in the order of
-- the list, free for parallel work, pairwise without a common file, a later one without files in
-- another domain than those before it; they are at most two or as many as asked for, whichever is more; every item is in a shard or
-- skipped with a reason when the plan has room left; and it is flagged when it has less than two shards.
pub plan_parallel_batches-IsPlan :
    (items : List ProgressItem) (number count : ℕ) (agents : Option ℕ) (claims : List Claim)
    → IsPlan
        (most_shards count agents)
        number
        claims
        (filter (λ item. not item.checked) items)
        (plan_parallel_batches items number count agents claims)
unfolding plan_parallel_batches counted
plan_parallel_batches-IsPlan items number count agents claims =
    let open_items = filter (λ (item : ProgressItem). not item.checked) items in
    let ends =
      plan_loop-Ends (most_shards count agents) number claims start [] open_items
        (record { shards = refl; bound = omega arith; free = tt; apart = tt; known = tt }) in
    record {
      chosen = ends.new;
      in_order = ends.taken;
      shards = ends.holds.shards;
      free = ends.holds.free;
      apart = ends.holds.apart;
      bound = ends.holds.bound;
      complete = λ l. omega (arith, ends.counts l);
      flagged = ground arith;
    }
