-- ===== src/Healing.antt =====
-- tools/klevar-yolo-runtime/src/self-healing.ts: what kind of failure an error is, and the loop that
-- heals and tries again. An error is its text, the message with the stack; the action and the healing are
-- functions on a state of the world.
pub mod Retries
mod Tests
use trade_compliance_classif.Prelude.{
  ℕ, zero, suc, Bool, true, false, not, ◌&&◌, ◌||◌, ◌⊎◌, inl, inr, List, [], ◌∷◌, String, ◌==◌,
  if◌then◌else◌, any, is_empty,
}
use trade_compliance_classif.Prelude.Regex.{
  Re, one, seq, or, star, dot, lit_i, lits_i, matches, search_in,
}

pub data SelfHealKind : Type 0 where
  journal runtime_state worktree_cleanup tooling_transient safety unknown : SelfHealKind

safety_blockers : List Re
safety_blockers =
    lits_i ("SECRET" ∷ "CREDENTIAL" ∷ "TOKEN" ∷ "KEY_LEAK" ∷ [])
    ∷ lits_i ("EXTERNAL_MUTATION" ∷ "REMOTE_MUTATION" ∷ "PRODUCTION" ∷ "LIVE_SERVICE" ∷ [])
    ∷ lits_i ("EXTERNALLY_CLAIMED" ∷ "CLAIMS_CONTRACT" ∷ "CLAIM_CONFLICT" ∷ "HUMAN" ∷ [])
    ∷ lits_i ("PROTECTED_PATH" ∷ "BLOCKED_PATH" ∷ "UNSAFE_PATH" ∷ ".env" ∷ ".git/" ∷ [])
    ∷ lits_i
        ("AUTH" ∷ "TENANT" ∷ "PAYMENT" ∷ "PERMISSION" ∷ "PRIVACY" ∷ "SECURITY" ∷ "RATE_LIMIT" ∷ [])
    ∷ lits_i (
        "MERGE_CONFLICT" ∷ "ROOT_DIRTY_PATH_CONFLICT" ∷ "NON_YOLO_HEAD" ∷ "COMMIT_FAILED"
        ∷ "PUSH_FAILED" ∷ [])
    ∷ lits_i ("MIGRATION" ∷ "SCHEMA" ∷ "DESTRUCTIVE" ∷ [])
    ∷ []

unfoldable pub is_self_healing_safety_blocker : List String → Bool
unfolding safety_blockers
is_self_healing_safety_blocker flags =
    any (λ flag. any (λ pattern. search_in pattern flag) safety_blockers) flags

unfoldable pub classify_self_heal_error : String → SelfHealKind
classify_self_heal_error message =
    if is_self_healing_safety_blocker (message ∷ [])
    then safety
    else if search_in
        (lits_i
          ("journal" ∷ "build-journal" ∷ "journal_entry" ∷ "gate_file" ∷ "JOURNAL_REJECTED" ∷ []))
        message
    then journal
    else if search_in (lits_i ("runtime-state.json" ∷ "Unexpected token" ∷ "JSON.parse" ∷ []))
        message
    then runtime_state
    else if search_in
        (or (lits_i ("EBUSY" ∷ "EPERM" ∷ "ENOTEMPTY" ∷ "resource busy" ∷ "locked" ∷ []))
          (seq (lit_i "worktree") (seq (star dot) (lits_i ("remove" ∷ "cleanup" ∷ "prune" ∷ [])))))
        message
    then worktree_cleanup
    else if search_in (lits_i ("ENOENT" ∷ "missing" ∷ [])) message
        && search_in
            (seq (lit_i ".yolo") (
              seq (one (λ c. c == b'/' || c == b'\\'))
                (lits_i ("batch-results" ∷ "gates" ∷ "runtime" ∷ []))))
            message
    then tooling_transient
    else unknown

abbrev pub is_final : SelfHealKind → Bool
is_final safety = true
is_final unknown = true
is_final _ = false

module _ {W T : Type 0} (action : W → (String ⊎ T) × W)
    (heal : SelfHealKind → String → W → List String × W) where
  -- What follows an attempt that is not the last one: its value, or its error when healing is off, its
  -- kind is final or nothing was healed, or else another attempt.
  abbrev pub retried : Bool → (W → (String ⊎ T) × W) → String ⊎ T → W → (String ⊎ T) × W
  retried enabled again (inr value) w = (inr value, w)
  retried enabled again (inl error) w =
      let kind = classify_self_heal_error error in
      let (actions, healed) = heal kind error w in
      let next = again healed in
      if not enabled || is_final kind
      then (inl error, w)
      else if is_empty actions
      then (inl error, healed)
      else next

  -- The number counts the attempts after this one, and `enabled` is `config.recovery.selfHealRuntime`.
  unfoldable pub with_runtime_self_healing : ℕ → Bool → W → (String ⊎ T) × W
  with_runtime_self_healing zero enabled w = action w
  with_runtime_self_healing (suc left) enabled w =
      let (outcome, after) = action w in
      retried enabled (with_runtime_self_healing left enabled) outcome after

-- All that a run computes with.
unfoldable pub runs : Unit {0}
unfolding is_self_healing_safety_blocker classify_self_heal_error with_runtime_self_healing
    search_in matches
runs = tt
