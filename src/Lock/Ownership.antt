-- ===== src/Lock/Ownership.antt =====
-- Who owns the lock file after each operation of runtime-lock.ts.
use trade_compliance_classif.Prelude.{ℕ, ◌+◌, ◌<◌, ◌≡◌, ◌≢◌, ◌↔◌, ap, true, some, String, arith}
use trade_compliance_classif.Lock.{
  RuntimeLock, held, World, acquired, Acquired, refused, refusal, acquire_runtime_lock,
  release_runtime_lock, new_lock,
}

-- The lock blocks everybody but its owner at the time `now`: the owner is alive, and was heard of
-- less than `stale_ms` ago.
pub record Blocks (stale_ms now : ℕ) (l : RuntimeLock) (w : World) : Type 0 where
  pub beat : ℕ
  pub heard : l.heartbeat_at ≡ some beat
  pub recent : now < beat + stale_ms
  pub living : w.alive l.pid ≡ true

module _ (me : ℕ) (scope : String) (stale_ms now : ℕ) (w : World) where
  -- An acquisition that succeeds leaves the returned lock in the file, owned by the caller, with the
  -- caller's scope and the current time as its heartbeat.
  pub acquire_runtime_lock_owner :
      {l : RuntimeLock}
      → (acquire_runtime_lock me scope stale_ms now w).1 ≡ acquired l
      → ((acquire_runtime_lock me scope stale_ms now w).0.file ≡ held l)
        × (l.pid ≡ me)
        × (l.scope ≡ scope)
        × (l.heartbeat_at ≡ some now)
  unfolding acquire_runtime_lock
  acquire_runtime_lock_owner h = ground arith

  pub acquire_blocked :
      (l : RuntimeLock)
      → w.file ≡ held l
      → l.pid ≢ me
      → Blocks stale_ms now l w
      → acquire_runtime_lock me scope stale_ms now w ≡ (w, refused (refusal l))
  unfolding acquire_runtime_lock
  acquire_blocked l h other b = ground arith

  acquire_refused :
      (r : String)
      → (acquire_runtime_lock me scope stale_ms now w).1 ≡ refused r
      → (l : RuntimeLock) × (w.file ≡ held l) × (l.pid ≢ me) × Blocks stale_ms now l w
  unfolding acquire_runtime_lock
  acquire_refused r h = ground arith

  -- An acquisition is refused exactly when the file holds a lock of another process that is alive and
  -- was heard of less than `stale_ms` ago.
  pub acquire_runtime_lock-refused_iff :
      ((r : String) × ((acquire_runtime_lock me scope stale_ms now w).1 ≡ refused r))
      ↔ ((l : RuntimeLock) × (w.file ≡ held l) × (l.pid ≢ me) × Blocks stale_ms now l w)
  acquire_runtime_lock-refused_iff = (
    λ p. acquire_refused p.0 p.1,
    λ p. (refusal p.0, ap (λ (r : World × Acquired). r.1) (acquire_blocked p.0 p.1 p.2 p.3)),
  )

  -- Releasing a lock that one has acquired frees it: any process, at any time and with any limit, then
  -- acquires a new lock, and no process is signalled.
  pub release_runtime_lock-acquire :
      {l : RuntimeLock} (other : ℕ) (scope' : String) (stale' now' : ℕ)
      → (acquire_runtime_lock me scope stale_ms now w).1 ≡ acquired l
      → acquire_runtime_lock other scope' stale' now'
          (release_runtime_lock me (acquire_runtime_lock me scope stale_ms now w).0)
        ≡ (
          record {
            file = held (new_lock other scope' now');
            alive = w.alive;
            signalled = (acquire_runtime_lock me scope stale_ms now w).0.signalled;
          },
          acquired (new_lock other scope' now'),
        )
  unfolding acquire_runtime_lock release_runtime_lock
  release_runtime_lock-acquire other scope' stale' now' h = ground arith
