-- ===== src/Lock/Race.antt =====
-- Acquisition reads the file and then writes it, in two steps that other processes may come between.
use trade_compliance_classif.Prelude.{
  ℕ, ◌+◌, ◌≡◌, sym, ap, ◌∙◌, Option, ◌≢◌, true, none, some, String, ◌<◌, arith,
}
use trade_compliance_classif.Lock.{
  held, RuntimeLock, World, Acquired, acquired, refused, refusal, read_runtime_lock, acquire_read,
  acquire_runtime_lock, release_runtime_lock,
}
use trade_compliance_classif.Lock.Ownership.{Blocks, acquire_runtime_lock_owner, acquire_blocked}

-- What is granted does not depend on who took the lock since the file was read.
granted_anyway :
    (r : Option RuntimeLock) (q : ℕ) (scope : String) (stale_ms now : ℕ) (w v : World)
    (b : RuntimeLock)
    → v.alive ≡ w.alive
    → (acquire_read r q scope stale_ms now w).1 ≡ acquired b
    → ((acquire_read r q scope stale_ms now v).1 ≡ acquired b)
      × ((acquire_read r q scope stale_ms now v).0.file ≡ held b)
unfolding acquire_read
granted_anyway none q scope stale_ms now w v b same h = ground arith
granted_anyway (some lock) q scope stale_ms now w v b same h = ground arith

alive_kept :
    (p : ℕ) (scope : String) (stale_ms now : ℕ) (w : World)
    → (acquire_runtime_lock p scope stale_ms now w).0.alive ≡ w.alive
unfolding acquire_runtime_lock
alive_kept p scope stale_ms now w = ground arith

release_other :
    (p : ℕ) (w : World) (l : RuntimeLock)
    → w.file ≡ held l
    → l.pid ≢ p
    → (release_runtime_lock p w).file ≡ held l
unfolding release_runtime_lock
release_other p w l h ne = ground arith

-- Of two processes, each of which would be granted the lock by what the file says, the first takes it and
-- lives. If the other had read the file before, it is granted the lock as well: the file names the other
-- alone, and a release by the first leaves it so. If the other reads the file only now, within its
-- limit of the first one's heartbeat, it is refused.
pub acquire_read_race :
    (p q : ℕ) (scope scope' : String) (stale_ms stale' now now' : ℕ) (w : World) (a b : RuntimeLock)
    → p ≢ q
    → w.alive p ≡ true
    → now' < now + stale'
    → (acquire_runtime_lock p scope stale_ms now w).1 ≡ acquired a
    → (acquire_runtime_lock q scope' stale' now' w).1 ≡ acquired b
    → let first = (acquire_runtime_lock p scope stale_ms now w).0 in
      let raced = acquire_read (read_runtime_lock w.file) q scope' stale' now' first in
      (raced.1 ≡ acquired b)
      × (raced.0.file ≡ held b)
      × ((release_runtime_lock p raced.0).file ≡ held b)
      × ((acquire_runtime_lock q scope' stale' now' first).1 ≡ refused (refusal a))
unfolding acquire_runtime_lock
acquire_read_race p q scope scope' stale_ms stale' now now' w a b ne alive soon ha hb =
    let first = (acquire_runtime_lock p scope stale_ms now w).0 in
    let (mine, pid, _, beat) = acquire_runtime_lock_owner p scope stale_ms now w ha in
    let (_, pid', _, _) = acquire_runtime_lock_owner q scope' stale' now' w hb in
    let kept = alive_kept p scope stale_ms now w in
    let (granted, written) =
      granted_anyway (read_runtime_lock w.file) q scope' stale' now' w first b kept hb in
    let blocks : Blocks stale' now' a first = record {
      beat = now;
      heard = beat;
      recent = soon;
      living = ap (λ f. f a.pid) kept ∙ ap w.alive pid ∙ alive;
    } in
    (
      granted,
      written,
      release_other p _ b written (λ same. ne (sym same ∙ pid')),
      ap (λ (r : World × Acquired). r.1)
          (acquire_blocked q scope' stale' now' first a mine (λ same. ne (sym pid ∙ same)) blocks),
    )
