-- ===== src/Claims.antt =====
-- tools/klevar-yolo-runtime/src/collaboration/claims.ts: who works on which task and which files. A
-- claim file is its name with the claim that its JSON gives after `normalizeClaim`, or the message of
-- the failure to read it; the subjects of the commits are what `git log` printed.
pub mod Contract
pub mod Batches
pub mod Prepare
pub mod Normal
mod Tests
use Prim.Native.Char.{code}
use Prim.Native.String
use trade_compliance_classif.Prelude.{
  ℕ, suc, ◌+◌, ◌-◌, ◌*◌, Bool, true, false, not, ◌&&◌, ◌||◌, Option, none, some, List, [], ◌∷◌,
  ◌++◌, map, String, ltb, leb, ◌==◌, if◌then◌else◌, any, filter, length, is_empty,
}
use trade_compliance_classif.Prelude.Text.{
  ◌⧺◌, text_eq, trim, trim_start, to_lower, starts_with, includes, join, pad3, is_blank, is_digit,
  is_upper, strip_prefix_i, text_runs,
}
use trade_compliance_classif.Prelude.Sets.{has, dedup}
use trade_compliance_classif.Prelude.Regex.{
  Re, seq, star, plus, one, dot, lit, lit_i, matches, cut_suffix,
}
use trade_compliance_classif.Types.{ProgressItem, Batch, GateResult}

pub data ClaimStatus : Type 0 where
  active blocked done released : ClaimStatus

pub record Claim : Type 0 where
  pub schema_version : ℕ
  pub task : String
  pub operator : String
  pub tool : String
  pub branch : String
  pub status : ClaimStatus
  pub started_at : String
  pub expected_files : List String

pub record ClaimSet : Type 0 where
  pub claims : List Claim
  pub errors : List String

abbrev pub is_active : ClaimStatus → Bool
is_active active = true
is_active blocked = true
is_active _ = false

unfoldable pub active_claims : List Claim → List Claim
active_claims claims = filter (λ c. is_active c.status) claims

abbrev pub is_runtime_operator : String → Bool
is_runtime_operator operator = starts_with operator "operator:pi-yolo"

abbrev pub is_external : Claim → Bool
is_external c = not (is_runtime_operator c.operator)

-- `/^\[[A-Z-]+\]\s+/`: what follows the tag, if there is one.
in_tag : ℕ → Bool
in_tag c = is_upper c || c == b'-'

abbrev after_bracket : String → Option String
after_bracket String.[] = none
after_bracket (String.◌∷◌ c s) = if is_blank (code c) then some (trim_start s) else none

tag_rest : Bool → String → Option String
tag_rest seen String.[] = none
tag_rest seen (String.◌∷◌ c s) =
    let more = tag_rest true s in
    if in_tag (code c) then more else if seen && code c == b']' then after_bracket s else none

abbrev bracket_rest : String → Option String
bracket_rest String.[] = none
bracket_rest (String.◌∷◌ c s) = if code c == b'[' then tag_rest false s else none

abbrev pub or_text : Option String → String → String
or_text none s = s
or_text (some t) s = t

-- `—\s*PRD\s+.+$`
abbrev prd_suffix : Re
prd_suffix =
    seq (lit "—")
      (seq (star (one is_blank)) (seq (lit_i "PRD") (seq (plus (one is_blank)) (plus dot))))

unfoldable pub normalize_task : String → String
unfolding tag_rest in_tag
normalize_task value = to_lower (trim (cut_suffix prd_suffix (or_text (bracket_rest value) value)))

unfoldable pub same_task : String → String → Bool
same_task a b =
    includes (normalize_task a) (normalize_task b) || includes (normalize_task b) (normalize_task a)

unfoldable pub is_claimed_by_external_operator : String → List Claim → Bool
is_claimed_by_external_operator title claims =
    any (λ c. same_task title c.task && is_external c) (active_claims claims)

abbrev pub files_of : List Claim → List String
files_of [] = []
files_of (c ∷ cs) = c.expected_files ++ files_of cs

unfoldable pub external_files : List Claim → List String
external_files claims = files_of (filter is_external (active_claims claims))

unfoldable pub conflicts_with_claimed_files : List String → List Claim → List String
conflicts_with_claimed_files files claims = filter (has (external_files claims)) files

-- A map from a key to the claims that have it, in the order of insertion.
abbrev pub Owners : Type 0
Owners = List (String × List Claim)

unfoldable pub add_owner : String → Claim → Owners → Owners
add_owner key c [] = (key, c ∷ []) ∷ []
add_owner key c ((k, cs) ∷ owners) =
    let rest = add_owner key c owners in
    if text_eq k key then (k, cs ++ c ∷ []) ∷ owners else (k, cs) ∷ rest

unfoldable pub owners_by_task : Owners → List Claim → Owners
owners_by_task owners [] = owners
owners_by_task owners (c ∷ cs) = owners_by_task (add_owner c.task c owners) cs

unfoldable pub add_files : Claim → List String → Owners → Owners
add_files c [] owners = owners
add_files c (file ∷ files) owners = add_files c files (add_owner file c owners)

unfoldable pub owners_by_file : Owners → List Claim → Owners
owners_by_file owners [] = owners
owners_by_file owners (c ∷ cs) = owners_by_file (add_files c c.expected_files owners) cs

unfoldable pub shared_keys : String → Owners → List String
shared_keys code [] = []
shared_keys code ((key, cs) ∷ owners) =
    let rest = shared_keys code owners in if ltb 1 (length cs) then (code ⧺ key) ∷ rest else rest

unfoldable pub claim_flags : ClaimSet → List String
claim_flags set =
    set.errors
    ++ (shared_keys "DUPLICATE_ACTIVE_CLAIM:" (owners_by_task [] (active_claims set.claims))
        ++ shared_keys "CLAIM_FILE_CONFLICT:" (owners_by_file [] (active_claims set.claims)))

unfoldable pub validate_claims : ClaimSet → GateResult
validate_claims set = record {
  name = "claims-contract";
  passed = length (claim_flags set) == 0;
  flags = claim_flags set;
}

abbrev pub item_files : List ProgressItem → List String
item_files [] = []
item_files (item ∷ items) = item.affected_files ++ item_files items

claimed_titles : List Claim → List ProgressItem → List String
claimed_titles external [] = []
claimed_titles external (item ∷ items) =
    let rest = claimed_titles external items in
    if any (λ c. same_task item.title c.task) external
    then ("EXTERNALLY_CLAIMED:" ⧺ item.title) ∷ rest
    else rest

unfoldable pub runtime_claim_conflicts : Batch → List Claim → List String
unfolding claimed_titles
runtime_claim_conflicts batch claims =
    claimed_titles (filter is_external (active_claims claims)) batch.items
    ++ map (λ file. "CLAIM_FILE_CONFLICT:" ⧺ file)
        (conflicts_with_claimed_files (dedup (item_files batch.items)) claims)

pub data ClaimFile : Type 0 where
  parsed : Claim → ClaimFile
  broken : String → ClaimFile

-- The claims directory: the names of its `.json` files, in order, with what they hold.
abbrev pub Directory : Type 0
Directory = List (String × ClaimFile)

-- `/^yolo-batch-(\d+)\.json$/i`, with the number that the digits write.
digits_value : Bool → ℕ → String → Option ℕ
digits_value seen n String.[] = none
digits_value seen n (String.◌∷◌ c s) =
    let more = digits_value true (n * 10 + (code c - 48)) s in
    if is_digit (code c)
    then more
    else if seen && text_eq (to_lower (String.◌∷◌ c s)) ".json"
    then some n
    else none

unfoldable pub batch_of_name : String → Option ℕ
unfolding digits_value
batch_of_name name = elim (strip_prefix_i "yolo-batch-" name) [
  | none ↦ none
  | some rest ↦ digits_value false 0 rest
]

abbrev pub has_number : Option ℕ → List ℕ → Bool
has_number none ns = false
has_number (some n) ns = any (λ m. m == n) ns

unfoldable pub reconcile_committed_runtime_claim : Claim → String → List ℕ → Claim
reconcile_committed_runtime_claim c name completed =
    if not (has_number (batch_of_name name) completed)
    then c
    else if not (text_eq c.tool "klevar-yolo-runtime") || not (is_runtime_operator c.operator)
    then c
    else if not (is_active c.status)
    then c
    else record c { status = done }

abbrev missing_field : String → String → String → List String
missing_field value key name =
    if text_eq value "" then ("CLAIM_MISSING_" ⧺ key ⧺ ":" ⧺ name) ∷ [] else []

-- The status is one of the four by its type, so the tests of it never fail.
unfoldable pub validate_claim_shape : Claim → String → List String
validate_claim_shape c name =
    (if c.schema_version == 1 then [] else ("CLAIM_SCHEMA_UNSUPPORTED:" ⧺ name) ∷ [])
    ++ (missing_field c.task "TASK" name
        ++ (missing_field c.operator "OPERATOR" name
            ++ (missing_field c.branch "BRANCH" name
                ++ missing_field c.started_at "STARTEDAT" name)))

-- The claims that are read, and the directory with the valid ones written back.
unfoldable pub load_claims : List ℕ → Directory → ClaimSet × Directory
load_claims completed [] = (record { claims = []; errors = [] }, [])
load_claims completed ((name, broken message) ∷ files) =
    let (set, after) = load_claims completed files in
    (
      record set { errors = ("CLAIM_JSON_INVALID:" ⧺ name ⧺ ":" ⧺ message) ∷ set.errors },
      (name, broken message) ∷ after,
    )
load_claims completed ((name, parsed c) ∷ files) =
    let (set, after) = load_claims completed files in
    let c' = reconcile_committed_runtime_claim c name completed in
    let invalid = validate_claim_shape c' name in
    if is_empty invalid
    then (record set { claims = c' ∷ set.claims }, (name, parsed c') ∷ after)
    else (record set { errors = invalid ++ set.errors }, (name, parsed c) ∷ after)

unfoldable pub runtime_claim : String → Batch → ClaimStatus → Claim
runtime_claim now batch status = record {
  schema_version = 1;
  task = join " | " (map (λ (item : ProgressItem). item.title) batch.items);
  operator = "operator:pi-yolo";
  tool = "klevar-yolo-runtime";
  branch = "klevar/yolo-batch-" ⧺ pad3 batch.number;
  status = status;
  started_at = now;
  expected_files = dedup (item_files batch.items);
}

-- A write keeps the directory in the order of its names only if the name is there; a new name is
-- listed last, and the directory is listed anew, sorted, before it is read again.
unfoldable pub write_file : String → ClaimFile → Directory → Directory
write_file name content [] = (name, content) ∷ []
write_file name content ((n, c) ∷ files) =
    let rest = write_file name content files in
    if text_eq n name then (n, content) ∷ files else (n, c) ∷ rest

unfoldable pub write_runtime_claim : String → Batch → ClaimStatus → Directory → Directory
write_runtime_claim now batch status files =
    write_file ("yolo-batch-" ⧺ pad3 batch.number ⧺ ".json")
      (parsed (runtime_claim now batch status)) files

abbrev pub claims_gate : Bool → List String → GateResult
claims_gate passed flags = record { name = "claims-contract"; passed = passed; flags = flags }

-- `enabled` is `config.collaboration?.enabled`.
unfoldable pub prepare_runtime_claim :
    Bool → String → List ℕ → Batch → Directory → Directory × GateResult
prepare_runtime_claim enabled now completed batch files =
    let (set, after) = load_claims completed files in
    let flags = (validate_claims set).flags ++ runtime_claim_conflicts batch set.claims in
    if not enabled
    then (files, claims_gate true [])
    else if not (is_empty flags)
    then (after, claims_gate false flags)
    else (write_runtime_claim now batch active after, claims_gate true [])

unfoldable pub mark_runtime_claim : Bool → String → Batch → ClaimStatus → Directory → Directory
mark_runtime_claim enabled now batch status files =
    if not enabled then files else write_runtime_claim now batch status files

-- All that a run computes with.
unfoldable pub runs : Unit {0}
unfolding active_claims normalize_task same_task is_claimed_by_external_operator external_files
    conflicts_with_claimed_files add_owner owners_by_task add_files owners_by_file shared_keys
    claim_flags validate_claims runtime_claim_conflicts batch_of_name
    reconcile_committed_runtime_claim validate_claim_shape load_claims runtime_claim write_file
    write_runtime_claim prepare_runtime_claim mark_runtime_claim dedup cut_suffix matches text_runs
runs = tt
