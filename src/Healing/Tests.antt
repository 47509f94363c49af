-- ===== src/Healing/Tests.antt =====
-- Runs of self-healing.ts, with an action that counts its runs and fails twice.
use trade_compliance_classif.Prelude.{
  ℕ, suc, ◌+◌, ◌≤◌, ◌≡◌, refl, ◌⊎◌, inl, inr, true, List, [], ◌∷◌, String, ltb, if◌then◌else◌,
}
use trade_compliance_classif.Healing.{
  SelfHealKind, journal, runtime_state, worktree_cleanup, tooling_transient, safety, unknown,
  classify_self_heal_error, with_runtime_self_healing, runs,
}
use trade_compliance_classif.Healing.Retries.{with_runtime_self_healing_count}

abbrev flaky : ℕ → (String ⊎ ℕ) × ℕ
flaky n = (if ltb n 2 then inl "EBUSY: resource busy" else inr n, suc n)

abbrev forbidden : ℕ → (String ⊎ ℕ) × ℕ
forbidden n = (inl "AUTH failed", suc n)

abbrev wait_for_it : SelfHealKind → String → ℕ → List String × ℕ
wait_for_it kind error n = ("waited" ∷ [], n)

-- The message of a failed `JSON.parse` has the word of a safety blocker, `token`.
healing_run :
    (classify_self_heal_error "SyntaxError: Unexpected token }" ≡ safety)
    × (classify_self_heal_error "runtime-state.json: Unexpected end of JSON input" ≡ runtime_state)
    × (classify_self_heal_error "ENOENT: .yolo\\gates\\a.md" ≡ tooling_transient)
    × (classify_self_heal_error "worktree 3 could not be pruned" ≡ worktree_cleanup)
    × (classify_self_heal_error "journal_entry with a TOKEN" ≡ safety)
    × (classify_self_heal_error "journal_entry" ≡ journal)
    × (classify_self_heal_error "boom" ≡ unknown)
    × (with_runtime_self_healing flaky wait_for_it 2 true 0 ≡ (inr 2, 3))
    × (with_runtime_self_healing flaky wait_for_it 1 true 0 ≡ (inl "EBUSY: resource busy", 2))
    × (with_runtime_self_healing forbidden wait_for_it 5 true 0 ≡ (inl "AUTH failed", 1))
unfolding runs
healing_run = (refl, refl, refl, refl, refl, refl, refl, refl, refl, refl)

with_runtime_self_healing_count_example :
    (suc 0 ≤ (with_runtime_self_healing flaky wait_for_it 2 true 0).1)
    × ((with_runtime_self_healing flaky wait_for_it 2 true 0).1 ≤ suc 0 + 2)
with_runtime_self_healing_count_example =
    with_runtime_self_healing_count flaky wait_for_it (λ n. n) (λ w. refl) (λ k e w. refl) 2 true 0
