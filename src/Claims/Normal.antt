-- ===== src/Claims/Normal.antt =====
-- `normalizeClaim` of tools/klevar-yolo-runtime/src/collaboration/claims.ts, on the object that a claim file's JSON
-- gives. A field that is missing or null is `absent`; `other` is a value that is no text, number
-- or array; the items of an array are texts, objects by their `path` or else `file`, or others. `now` is the
-- text of the present time.
use trade_compliance_classif.Prelude.{
  ℕ, ◌≡◌, refl, sym, ◌∙◌, ap, true, false, not, ◌||◌, List, [], ◌∷◌, map, String, ◌==◌,
  if◌then◌else◌, filter, All, arith, Bool-cases, inl, inr,
}
use trade_compliance_classif.Prelude.Text.{
  ◌⧺◌, text_eq, trim, to_lower, replace_runs, replace_char, take_text, is_blank, is_lower, is_digit,
  strip_prefix, starts_with, eq_iff, text_runs,
}
use trade_compliance_classif.Prelude.Sets.{has}
use trade_compliance_classif.Prelude.Regex.{lit, lit_i, matches, cut_suffix}
use trade_compliance_classif.Flags.Laws.{starts_with-append}
use trade_compliance_classif.Claims.{
  ClaimStatus, active, blocked, done, released, Claim, or_text, validate_claim_shape,
}

pub data RawItem : Type 0 where
  text_item named_item : String → RawItem
  other_item : RawItem

pub data RawField : Type 0 where
  absent other : RawField
  text : String → RawField
  number : ℕ → RawField
  array : List RawItem → RawField

pub record RawClaim : Type 0 where
  pub schema_version : RawField
  pub task : RawField
  pub title : RawField
  pub item : RawField
  pub description : RawField
  pub operator : RawField
  pub owner : RawField
  pub claimant : RawField
  pub user : RawField
  pub tool : RawField
  pub branch : RawField
  pub status : RawField
  pub state : RawField
  pub started_at : RawField
  pub started_at_snake : RawField
  pub created_at : RawField
  pub created_at_snake : RawField
  pub expected_files : RawField
  pub files : RawField
  pub paths : RawField
  pub expected_files_snake : RawField

-- `a ?? b`
abbrev pub or_field : RawField → RawField → RawField
or_field absent b = b
or_field a b = a

-- `a || b`
abbrev pub or_default : String → String → String
or_default a b = if text_eq a "" then b else a

abbrev pub string_field : RawField → String
string_field (text s) = trim s
string_field _ = ""

abbrev pub item_text : RawItem → String
item_text (text_item s) = s
item_text (named_item s) = s
item_text other_item = ""

abbrev pub string_list : RawField → List String
string_list (array items) = filter (λ s. not (text_eq s "")) (map item_text items)
string_list (text s) = s ∷ []
string_list _ = []

abbrev pub status_of_text : String → ClaimStatus
status_of_text normalized =
    if has ("done" ∷ "complete" ∷ "completed" ∷ "closed" ∷ []) normalized
    then done
    else if has ("release" ∷ "released" ∷ "cancelled" ∷ "canceled" ∷ []) normalized
    then released
    else if has ("block" ∷ "blocked" ∷ "stalled" ∷ []) normalized
    then blocked
    else active

unfoldable pub normalize_claim_status : RawField → ClaimStatus
normalize_claim_status (text s) =
    status_of_text (replace_runs (λ c. not (is_blank c || c == b'-')) "_" false (to_lower (trim s)))
normalize_claim_status _ = active

abbrev without_first_dash : String → String
without_first_dash s = or_text (strip_prefix "-" s) s

unfoldable pub slug : String → String
slug value =
    let dashed = replace_runs (λ c. is_lower c || is_digit c) "-" false (to_lower value) in
    or_default (take_text 60 (cut_suffix (lit "-") (without_first_dash dashed))) "claim"

abbrev pub schema_of : RawField → ℕ
schema_of (number n) = n
schema_of _ = 1

unfoldable pub normalize_claim : RawClaim → String → String → Claim
normalize_claim raw name now =
    let task =
      or_default
        (string_field (or_field raw.task (or_field raw.title (or_field raw.item raw.description))))
        (cut_suffix (lit_i ".json") name) in
    record {
      schema_version = schema_of raw.schema_version;
      task = task;
      operator =
          or_default
            (string_field
              (or_field raw.operator (or_field raw.owner (or_field raw.claimant raw.user))))
            "unknown";
      tool = string_field raw.tool;
      branch = or_default (string_field raw.branch) ("claims/" ⧺ slug task);
      status = normalize_claim_status (or_field raw.status raw.state);
      started_at =
          or_default
            (string_field (
              or_field raw.started_at
                (or_field raw.started_at_snake (or_field raw.created_at raw.created_at_snake))))
            now;
      expected_files = map (replace_char b'\\' b'/') (
          string_list (
            or_field raw.expected_files
              (or_field raw.files (or_field raw.paths raw.expected_files_snake))));
    }

abbrev pub status_text : ClaimStatus → String
status_text active = "active"
status_text blocked = "blocked"
status_text done = "done"
status_text released = "released"

-- The object that `JSON.stringify` writes of a claim, read back.
abbrev pub object_of : Claim → RawClaim
object_of c = record {
  schema_version = number c.schema_version;
  task = text c.task;
  title = absent;
  item = absent;
  description = absent;
  operator = text c.operator;
  owner = absent;
  claimant = absent;
  user = absent;
  tool = text c.tool;
  branch = text c.branch;
  status = text (status_text c.status);
  state = absent;
  started_at = text c.started_at;
  started_at_snake = absent;
  created_at = absent;
  created_at_snake = absent;
  expected_files = array (map text_item c.expected_files);
  files = absent;
  paths = absent;
  expected_files_snake = absent;
}

-- A claim whose texts are trimmed, whose required ones are not empty, and whose files are named and
-- have no backslash.
pub record IsClean (c : Claim) : Type 0 where
  pub task : (trim c.task ≡ c.task) × (text_eq c.task "" ≡ false)
  pub operator : (trim c.operator ≡ c.operator) × (text_eq c.operator "" ≡ false)
  pub tool : trim c.tool ≡ c.tool
  pub branch : (trim c.branch ≡ c.branch) × (text_eq c.branch "" ≡ false)
  pub started_at : (trim c.started_at ≡ c.started_at) × (text_eq c.started_at "" ≡ false)
  pub files :
      All
        (λ (file : String). (replace_char b'\\' b'/' file ≡ file) × (text_eq file "" ≡ false))
        c.expected_files

kept : (s d : String) → trim s ≡ s → text_eq s "" ≡ false → or_default (trim s) d ≡ s
kept s d same full = rw (same, full) refl

status_kept : (status : ClaimStatus) → normalize_claim_status (text (status_text status)) ≡ status
unfolding normalize_claim_status text_runs
status_kept active = refl
status_kept blocked = refl
status_kept done = refl
status_kept released = refl

files_kept :
    (files : List String)
    → All
        (λ (file : String). (replace_char b'\\' b'/' file ≡ file) × (text_eq file "" ≡ false))
        files
    → map (replace_char b'\\' b'/') (string_list (array (map text_item files))) ≡ files
files_kept [] h = refl
files_kept (file ∷ files) ((same, full), h) = rw (full, same, files_kept files h) refl

claim_ext :
    (c d : Claim)
    → c.schema_version ≡ d.schema_version
    → c.task ≡ d.task
    → c.operator ≡ d.operator
    → c.tool ≡ d.tool
    → c.branch ≡ d.branch
    → c.status ≡ d.status
    → c.started_at ≡ d.started_at
    → c.expected_files ≡ d.expected_files
    → c ≡ d
claim_ext c d e1 e2 e3 e4 e5 e6 e7 e8 = cc

-- A claim whose texts are trimmed, whose task, operator, branch and start are not empty, and whose files
-- are named and have no backslash is read back as it is from the object that is written of it, under
-- every file name and at every time.
pub normalize_claim-object_of :
    (c : Claim) (name now : String) → IsClean c → normalize_claim (object_of c) name now ≡ c
unfolding normalize_claim
normalize_claim-object_of c name now clean =
    claim_ext (normalize_claim (object_of c) name now) c refl
      (kept c.task (cut_suffix (lit_i ".json") name) clean.task.0 clean.task.1)
      (kept c.operator "unknown" clean.operator.0 clean.operator.1) clean.tool
      (kept c.branch _ clean.branch.0 clean.branch.1) (status_kept c.status)
      (kept c.started_at now clean.started_at.0 clean.started_at.1)
      (files_kept c.expected_files clean.files)

or_default_full : (a b : String) → text_eq b "" ≡ false → text_eq (or_default a b) "" ≡ false
or_default_full a b full = ground arith

shape_of_full :
    (c : Claim) (name : String)
    → text_eq c.task "" ≡ false
    → text_eq c.operator "" ≡ false
    → text_eq c.branch "" ≡ false
    → text_eq c.started_at "" ≡ false
    → validate_claim_shape c name
      ≡ (if c.schema_version == 1 then [] else ("CLAIM_SCHEMA_UNSUPPORTED:" ⧺ name) ∷ [])
unfolding validate_claim_shape
shape_of_full c name h1 h2 h3 h4 =
    rw (h1, h2, h3, h4)
      (elim (Bool-cases (c.schema_version == 1)) [
        | inl one ↦ rw one refl
        | inr unsupported ↦ rw unsupported refl
      ])

full_claims_branch : (s : String) → text_eq ("claims/" ⧺ s) "" ≡ false
unfolding starts_with
full_claims_branch s = elim (Bool-cases (text_eq ("claims/" ⧺ s) "")) [
  | inl blank ↦
      let bad : false ≡ true =
        sym (ap (λ t. starts_with t "claims/") ((eq_iff ("claims/" ⧺ s) "").0 blank))
        ∙ starts_with-append "claims/" s in
      absurd cc
  | inr full ↦ full
]

-- Whatever the object of a claim file is, the claim that is made of it has every required field, if the
-- file's name has more than its extension and the time has a text: the schema's number is the only thing
-- that the shape of the claim can fail by.
pub validate_claim_shape-normalize_claim :
    (raw : RawClaim) (name now : String)
    → text_eq (cut_suffix (lit_i ".json") name) "" ≡ false
    → text_eq now "" ≡ false
    → validate_claim_shape (normalize_claim raw name now) name ≡ (
        if schema_of raw.schema_version == 1 then [] else ("CLAIM_SCHEMA_UNSUPPORTED:" ⧺ name) ∷ [])
unfolding normalize_claim
validate_claim_shape-normalize_claim raw name now stem time =
    let task = or_field raw.task (or_field raw.title (or_field raw.item raw.description)) in
    let operator = or_field raw.operator (or_field raw.owner (or_field raw.claimant raw.user)) in
    let start =
      or_field raw.started_at
        (or_field raw.started_at_snake (or_field raw.created_at raw.created_at_snake)) in
    let stem_text = cut_suffix (lit_i ".json") name in
    shape_of_full (normalize_claim raw name now) name
      (or_default_full (string_field task) stem_text stem)
      (or_default_full (string_field operator) "unknown" refl)
      (or_default_full (string_field raw.branch)
        ("claims/" ⧺ slug (or_default (string_field task) stem_text))
        (full_claims_branch (slug (or_default (string_field task) stem_text))))
      (or_default_full (string_field start) now time)

-- All that a run computes with.
unfoldable pub runs : Unit {0}
unfolding normalize_claim_status slug normalize_claim text_runs cut_suffix matches
runs = tt
