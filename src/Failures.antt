-- ===== src/Failures.antt =====
-- tools/klevar-yolo-runtime/src/failure-patterns.ts: the failures seen so far, one record for each
-- key, as kept in `.yolo/failure-patterns.json`. The time of a sighting is an argument.
pub mod History
pub mod Prune
pub mod Operations
mod Tests
use trade_compliance_classif.Prelude.{
  ℕ, ◌+◌, ◌-◌, max, Bool, true, false, not, ◌&&◌, ◌||◌, Option, none, some, List, [], ◌∷◌, ◌++◌,
  map, String, leb, ◌==◌, if◌then◌else◌, length, is_empty, filter,
}
use trade_compliance_classif.Prelude.Text.{
  ◌⧺◌, text_eq, to_lower, take_text, replace_runs, join, pad3, is_lower, is_digit,
}
use trade_compliance_classif.Types.{ResultStatus, failure, invalid_result, Batch, BatchResult}

pub record FailureRecord : Type 0 where
  pub key : String
  pub failure_type : String
  pub signature : String
  pub count : ℕ
  pub batches : List ℕ
  pub reinforced : Bool
  pub last_seen : String

pub record FailureUpdate : Type 0 where
  pub key : String
  pub count : ℕ
  pub threshold_reached : Bool
  pub reinforced : Bool

abbrev in_signature : ℕ → Bool
in_signature c = is_lower c || is_digit c || c == b'|' || c == b':' || c == b'_' || c == b'-'

-- `text || fallback`
abbrev pub text_or : String → String → String
text_or s fallback = if text_eq s "" then fallback else s

-- `value ?? fallback`
abbrev pub get_or : Option String → String → String
get_or none fallback = fallback
get_or (some s) fallback = s

abbrev pub head? : List String → Option String
head? [] = none
head? (x ∷ xs) = some x

unfoldable pub signature_for : BatchResult → String
unfolding replace_runs to_lower take_text join
signature_for result =
    let text = join "|" (result.flags ++ get_or result.failure_type "" ∷ []) in
    text_or (take_text 120 (replace_runs in_signature "-" false (to_lower text))) "no-signature"

unfoldable pub failure_type_of : BatchResult → String
failure_type_of result = get_or result.failure_type (get_or (head? result.flags) "UNKNOWN_FAILURE")

unfoldable pub failure_key : BatchResult → String
unfolding failure_type_of signature_for
failure_key result = failure_type_of result ⧺ "::" ⧺ signature_for result

abbrev pub is_failure : ResultStatus → Bool
is_failure failure = true
is_failure invalid_result = true
is_failure _ = false

-- `records.find((record) => record.key === key)`
unfoldable pub find_record : String → List FailureRecord → Option FailureRecord
find_record key [] = none
find_record key (r ∷ rs) =
    let rest = find_record key rs in if text_eq r.key key then some r else rest

abbrev pub sighted : ℕ → String → FailureRecord → FailureRecord
sighted batch now r = record r {
  count = r.count + 1;
  batches = r.batches ++ batch ∷ [];
  last_seen = now;
}

-- The record that `find` gives is changed in place; where there is none a new one is appended.
unfoldable pub update_or_push :
    String
    → (FailureRecord → FailureRecord)
    → FailureRecord
    → List FailureRecord
    → List FailureRecord
update_or_push key change new [] = new ∷ []
update_or_push key change new (r ∷ rs) =
    let rest = update_or_push key change new rs in
    if text_eq r.key key then change r ∷ rs else r ∷ rest

abbrev pub fresh_record : BatchResult → FailureRecord
fresh_record result = record {
  key = failure_key result;
  failure_type = failure_type_of result;
  signature = signature_for result;
  count = 0;
  batches = [];
  reinforced = false;
  last_seen = "";
}

-- `existing ?? { key, … }`
abbrev pub existing_or : FailureRecord → Option FailureRecord → FailureRecord
existing_or fresh none = fresh
existing_or fresh (some r) = r

unfoldable pub record_failure :
    String
    → ℕ
    → Batch
    → BatchResult
    → List FailureRecord
    → List FailureRecord × Option FailureUpdate
unfolding find_record update_or_push
record_failure now threshold batch result records =
    let key = failure_key result in
    let fresh = fresh_record result in
    let r = sighted batch.number now (existing_or fresh (find_record key records)) in
    if not (is_failure result.status) then (records, none) else (
      update_or_push key (sighted batch.number now) (sighted batch.number now fresh) records,
      some (record {
        key = key;
        count = r.count;
        threshold_reached = leb threshold r.count;
        reinforced = r.reinforced;
      }),
    )

unfoldable pub mark_reinforced : String → List FailureRecord → List FailureRecord
mark_reinforced key [] = []
mark_reinforced key (r ∷ rs) =
    (if text_eq r.key key then record r { reinforced = true } else r) ∷ mark_reinforced key rs

abbrev pub other_than : ℕ → ℕ → Bool
other_than b n = not (n == b)

-- One round of the pruning loop: what becomes of a record, and the action that is noted.
unfoldable pub prune_record : ℕ → FailureRecord → Option FailureRecord × Option String
prune_record batch r =
    let remaining = filter (other_than batch) r.batches in
    let removed = length r.batches - length remaining in
    if removed == 0
    then (some r, none)
    else if length remaining == 0
    then (none, some ("removed failure pattern " ⧺ r.key))
    else (
      some (record r { batches = remaining; count = max (length remaining) (r.count - removed) }),
      some ("pruned batch-" ⧺ pad3 batch ⧺ " from failure pattern " ⧺ r.key),
    )

abbrev pub cons? {ℓ} : {A : Type ℓ} → Option A → List A → List A
cons? none xs = xs
cons? (some x) xs = x ∷ xs

unfoldable pub prune_loop : ℕ → List FailureRecord → List FailureRecord × List String
unfolding prune_record
prune_loop batch [] = ([], [])
prune_loop batch (r ∷ rs) =
    let (next, actions) = prune_loop batch rs in
    let (kept, action) = prune_record batch r in (cons? kept next, cons? action actions)

-- The file is written only if something was done.
unfoldable pub prune_failure_patterns_for_batch :
    ℕ → List FailureRecord → List FailureRecord × List String
unfolding prune_loop
prune_failure_patterns_for_batch batch records =
    let (next, actions) = prune_loop batch records in
    (if is_empty actions then records else next, actions)
