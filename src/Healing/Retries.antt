-- ===== src/Healing/Retries.antt =====
-- What the retries of self-healing.ts promise.
use trade_compliance_classif.Prelude.{
  ℕ, zero, suc, ◌+◌, ◌≤◌, ◌≡◌, ◌⊎◌, inl, inr, Bool, not, ◌||◌, List, String, is_empty, Bool-cases,
  arith,
}
use trade_compliance_classif.Healing.{
  SelfHealKind, classify_self_heal_error, is_final, retried, with_runtime_self_healing,
}

module _ {W T : Type 0} (action : W → (String ⊎ T) × W)
    (heal : SelfHealKind → String → W → List String × W) (count : W → ℕ)
    (once : (w : W) → count (action w).1 ≡ suc (count w))
    (still : (k : SelfHealKind) (e : String) (w : W) → count (heal k e w).1 ≡ count w) where
  retried-count :
      (most : ℕ) (enabled : Bool) (again : W → (String ⊎ T) × W) (o : String ⊎ T) (w : W)
      → ((v : W) → (count v ≤ count (again v).1) × (count (again v).1 ≤ count v + most))
      → (count w ≤ count (retried action heal enabled again o w).1)
        × (count (retried action heal enabled again o w).1 ≤ count w + most)
  retried-count most enabled again (inr value) w h = (omega arith, omega arith)
  retried-count most enabled again (inl error) w h =
      let kind = classify_self_heal_error error in
      let (actions, healed) = heal kind error w in
      let same = still kind error w in
      let (low, high) = h healed in
      elim (Bool-cases (not enabled || is_final kind)) [
        | inl stop ↦ rw stop (omega arith, omega arith)
        | inr go ↦ elim (Bool-cases (is_empty actions)) [
          | inl nothing ↦ rw (go, nothing) (omega arith, omega arith)
          | inr done ↦ rw (go, done) (omega arith, omega arith)
        ]
      ]

  -- The action runs at least once and at most once more than there are retries, whatever fails and
  -- whatever is healed, when each run of it counts one and healing counts none.
  pub with_runtime_self_healing_count :
      (left : ℕ) (enabled : Bool) (w : W)
      → (suc (count w) ≤ count (with_runtime_self_healing action heal left enabled w).1)
        × (count (with_runtime_self_healing action heal left enabled w).1 ≤ suc (count w) + left)
  unfolding with_runtime_self_healing
  with_runtime_self_healing_count zero enabled w = (omega (arith, once w), omega (arith, once w))
  with_runtime_self_healing_count (suc left) enabled w =
      let (outcome, after) = action w in
      let (low, high) =
        retried-count (suc left) enabled (with_runtime_self_healing action heal left enabled)
          outcome after
          (λ v.
            let (l, u) = with_runtime_self_healing_count left enabled v in
            (omega (arith, l), omega (arith, u))) in
      (omega (arith, once w, low), omega (arith, once w, high))
