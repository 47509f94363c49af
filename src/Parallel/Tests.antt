-- ===== src/Parallel/Tests.antt =====
-- Runs of collaboration/scheduler.ts.
use trade_compliance_classif.Prelude.{
  ◌≡◌, refl, Bool, true, false, not, some, List, [], ◌∷◌, String, filter,
}
use trade_compliance_classif.Prelude.Text.{◌⧺◌}
use trade_compliance_classif.Types.{ProgressItem}
use trade_compliance_classif.Claims.{Claim, active}
use trade_compliance_classif.Parallel.{shard_of, most_shards, plan_parallel_batches, runs}
use trade_compliance_classif.Parallel.Plan.{IsPlan, plan_parallel_batches-IsPlan}

abbrev task : String → String → List String → Bool → ProgressItem
task tag title files checked = record {
  raw = "- [ ] " ⧺ tag ⧺ " " ⧺ title;
  tag = tag;
  title = title;
  phase = "1";
  checked = checked;
  details = [];
  affected_files = files;
}

abbrev claimed : Claim
claimed = record {
  schema_version = 1;
  task = "[API] Search";
  operator = "operator:ada";
  tool = "";
  branch = "claims/search";
  status = active;
  started_at = "t";
  expected_files = "src/search.rs" ∷ [];
}

abbrev some_tasks : List ProgressItem
some_tasks =
    task "[API]" "Search" [] false
    ∷ task "[UI]" "Page" ("web/page.ts" ∷ []) false
    ∷ task "[UI]" "Other page" [] false
    ∷ task "[DATA]" "Seen" [] true
    ∷ task "[API]" "Query" ("src/search.rs" ∷ []) false
    ∷ task "[SETUP]" "Packages" ("Cargo.toml" ∷ []) false
    ∷ task "[AUDIT]" "Check" [] false
    ∷ task "[JOB]" "Nightly" [] false
    ∷ []

plan_run : plan_parallel_batches some_tasks 7 3 (some 3) (claimed ∷ []) ≡ record {
  shards =
      shard_of 7 (task "[UI]" "Page" ("web/page.ts" ∷ []) false)
      ∷ shard_of 7 (task "[JOB]" "Nightly" [] false)
      ∷ [];
  skipped =
      "EXTERNALLY_CLAIMED:Search" ∷ "UNKNOWN_FILES_SAME_DOMAIN:Other page"
      ∷ "CLAIM_FILE_CONFLICT:Query:src/search.rs" ∷ "SHARED_FILE_NOT_PARALLEL:Packages"
      ∷ "AUDIT_NOT_PARALLEL:Check" ∷ [];
  flags = [];
}
unfolding runs
plan_run = refl

plan_parallel_batches-IsPlan_example :
    IsPlan
      (most_shards 3 (some 3))
      7
      (claimed ∷ [])
      (filter (λ item. not item.checked) some_tasks)
      (plan_parallel_batches some_tasks 7 3 (some 3) (claimed ∷ []))
plan_parallel_batches-IsPlan_example =
    plan_parallel_batches-IsPlan some_tasks 7 3 (some 3) (claimed ∷ [])
