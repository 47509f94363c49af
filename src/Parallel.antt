-- ===== src/Parallel.antt =====
-- tools/klevar-yolo-runtime/src/collaboration/scheduler.ts: the shards of a parallel run.
pub mod Plan
mod Tests
use trade_compliance_classif.Prelude.{
  ℕ, min, max, Bool, true, false, not, ◌&&◌, ◌||◌, Option, none, some, List, [], ◌∷◌, ◌++◌, String,
  ltb, leb, if◌then◌else◌, any, filter, length, is_empty,
}
use trade_compliance_classif.Prelude.Text.{◌⧺◌, text_eq, starts_with, ends_with, join}
use trade_compliance_classif.Prelude.Sets.{has, set_add, set_add_all}
use trade_compliance_classif.Types.{ProgressItem, Batch, BatchType}
use trade_compliance_classif.Progress.{is_audit_item}
use trade_compliance_classif.Claims
use trade_compliance_classif.Progress
use trade_compliance_classif.Claims.{
  Claim, active_claims, is_claimed_by_external_operator, conflicts_with_claimed_files,
}

pub record ParallelPlan : Type 0 where
  pub shards : List Batch
  pub skipped : List String
  pub flags : List String

-- `DOMAIN_BY_TAG[item.tag] ?? item.tag`
unfoldable pub domain_of : String → String
domain_of tag =
    if text_eq tag "[UI]"
    then "frontend"
    else if text_eq tag "[API]" || text_eq tag "[JOB]"
    then "backend"
    else if text_eq tag "[INTEGRATION]"
    then "integration"
    else if text_eq tag "[DATA]"
    then "data"
    else if text_eq tag "[SETUP]"
    then "setup"
    else if text_eq tag "[FEATURE]"
    then "feature"
    else if text_eq tag "[FIX]"
    then "fix"
    else if text_eq tag "[BUG]"
    then "bug"
    else if text_eq tag "[AUDIT]"
    then "audit"
    else tag

shared_file_prefixes : List String
shared_file_prefixes =
    "package.json" ∷ "package-lock.json" ∷ "pnpm-lock.yaml" ∷ "yarn.lock" ∷ "bun.lockb"
    ∷ "deno.lock" ∷ "pom.xml" ∷ "build.gradle" ∷ "build.gradle.kts" ∷ "settings.gradle"
    ∷ "settings.gradle.kts" ∷ "gradle/" ∷ "gradlew" ∷ "gradlew.bat" ∷ "Cargo.toml" ∷ "Cargo.lock"
    ∷ "go.mod" ∷ "go.sum" ∷ "pyproject.toml" ∷ "poetry.lock" ∷ "Pipfile" ∷ "Pipfile.lock"
    ∷ "requirements.txt" ∷ "Gemfile" ∷ "Gemfile.lock" ∷ "composer.json" ∷ "composer.lock"
    ∷ "mix.exs" ∷ "mix.lock" ∷ "pubspec.yaml" ∷ "pubspec.lock" ∷ ".csproj" ∷ ".fsproj" ∷ ".sln"
    ∷ "Makefile" ∷ "CMakeLists.txt" ∷ "Dockerfile" ∷ "docker-compose" ∷ ".github/workflows/"
    ∷ ".yolo/" ∷ ".agent/rules/" ∷ ".agent/agents/" ∷ ".agent/workflows/" ∷ ".agent/guides/" ∷ []

unfoldable pub is_shared_file : String → Bool
unfolding shared_file_prefixes
is_shared_file file =
    any
      (λ prefix.
        text_eq file prefix
        || starts_with file prefix
        || (starts_with prefix "." && ends_with file prefix))
      shared_file_prefixes

-- The variables of the loop.
pub record Planning : Type 0 where
  pub shards : List Batch
  pub skipped : List String
  pub used_files : List String
  pub used_domains : List String

-- The reason for which an item is passed over, by the loop's tests in their order.
unfoldable pub skip_reason : List Claim → Planning → ProgressItem → Option String
skip_reason claims st item =
    let conflicts = conflicts_with_claimed_files item.affected_files (active_claims claims) in
    if is_audit_item item
    then some ("AUDIT_NOT_PARALLEL:" ⧺ item.title)
    else if is_claimed_by_external_operator item.title claims
    then some ("EXTERNALLY_CLAIMED:" ⧺ item.title)
    else if not (is_empty conflicts)
    then some ("CLAIM_FILE_CONFLICT:" ⧺ item.title ⧺ ":" ⧺ join "|" conflicts)
    else if any is_shared_file item.affected_files
    then some ("SHARED_FILE_NOT_PARALLEL:" ⧺ item.title)
    else if any (has st.used_files) item.affected_files
    then some ("LOCAL_FILE_CONFLICT:" ⧺ item.title)
    else if has st.used_domains (domain_of item.tag) && is_empty item.affected_files
    then some ("UNKNOWN_FILES_SAME_DOMAIN:" ⧺ item.title)
    else none

abbrev pub shard_of : ℕ → ProgressItem → Batch
shard_of number item = record {
  number = number;
  items = item ∷ [];
  type = BatchType.implement;
  support_kind = none;
  support_scope = none;
}

abbrev pub place : ℕ → Planning → ProgressItem → Option String → Planning
place number st item (some reason) = record st { skipped = st.skipped ++ reason ∷ [] }
place number st item none = record st {
  shards = st.shards ++ shard_of number item ∷ [];
  used_files = set_add_all st.used_files item.affected_files;
  used_domains = set_add st.used_domains (domain_of item.tag);
}

unfoldable pub plan_loop : ℕ → ℕ → List Claim → Planning → List ProgressItem → Planning
plan_loop most number claims st [] = st
plan_loop most number claims st (item ∷ items) =
    let rest =
      plan_loop most number claims (place number st item (skip_reason claims st item)) items in
    if leb most (length st.shards) then st else rest

abbrev pub agents_or_two : Option ℕ → ℕ
agents_or_two none = 2
agents_or_two (some n) = n

-- `Math.max(2, Math.min(count, config.collaboration?.maxParallelAgents ?? 2))`
abbrev pub most_shards : ℕ → Option ℕ → ℕ
most_shards count agents = max 2 (min count (agents_or_two agents))

abbrev pub start : Planning
start = record { shards = []; skipped = []; used_files = []; used_domains = [] }

unfoldable pub plan_parallel_batches :
    List ProgressItem → ℕ → ℕ → Option ℕ → List Claim → ParallelPlan
plan_parallel_batches items number count agents claims =
    let st =
      plan_loop (most_shards count agents) number claims start
        (filter (λ item. not item.checked) items) in
    record {
      shards = st.shards;
      skipped = st.skipped;
      flags =
          if ltb (length st.shards) 2
          then "PARALLEL_PLAN_INSUFFICIENT_INDEPENDENT_WORK" ∷ []
          else [];
    }

-- All that a run computes with.
unfoldable pub runs : Unit {0}
unfolding domain_of is_shared_file skip_reason plan_loop plan_parallel_batches set_add_all
    Claims.runs Progress.runs
runs = tt
