-- ===== src/Lock/Trace.antt =====
-- Sequences of lock operations by many processes, each operation taken as one step.
use trade_compliance_classif.Prelude.{
  ℕ, ◌+◌, ◌<◌, ◌≡◌, sym, ◌≢◌, true, false, some, inl, inr, Bool-cases, List, [], ◌∷◌, String, arith,
  ◌==◌, if◌then◌else◌, ap, refl,
}
use trade_compliance_classif.Lock.{
  RuntimeLock, held, World, Acquired, acquire_runtime_lock, heartbeat_runtime_lock,
  release_runtime_lock,
}
use trade_compliance_classif.Lock.Ownership.{acquire_blocked}

-- An operation with the process that makes it; a time is the time of the operation.
pub data Op : Type 0 where
  acquire : ℕ → String → ℕ → Op
  heartbeat : ℕ → ℕ → Op
  release : ℕ → Op

unfoldable pub perform : ℕ → Op → World → World
unfolding acquire_runtime_lock heartbeat_runtime_lock release_runtime_lock
perform stale_ms (acquire pid scope now) w = (acquire_runtime_lock pid scope stale_ms now w).0
perform stale_ms (heartbeat pid now) w = heartbeat_runtime_lock pid now w
perform stale_ms (release pid) w = release_runtime_lock pid w

unfoldable pub run : ℕ → List Op → World → World
unfolding perform
run stale_ms [] w = w
run stale_ms (op ∷ ops) w = run stale_ms ops (perform stale_ms op w)

-- The owner neither acquires again nor releases, and at each attempt of another process to acquire
-- the owner's last heartbeat, at first `beat`, is less than `stale_ms` old.
abbrev pub IsAttended : ℕ → ℕ → ℕ → List Op → Type 0
IsAttended owner stale_ms beat [] = Unit
IsAttended owner stale_ms beat (acquire pid scope now ∷ ops) =
    (pid ≢ owner) × (now < beat + stale_ms) × IsAttended owner stale_ms beat ops
IsAttended owner stale_ms beat (heartbeat pid now ∷ ops) =
    IsAttended owner stale_ms (if pid == owner then now else beat) ops
IsAttended owner stale_ms beat (release pid ∷ ops) =
    (pid ≢ owner) × IsAttended owner stale_ms beat ops

-- A world that only the owner's heartbeats have changed.
pub record Keeps (l : RuntimeLock) (before after : World) : Type 0 where
  pub lock : RuntimeLock
  pub kept : after.file ≡ held lock
  pub owner : lock.pid ≡ l.pid
  pub scope : lock.scope ≡ l.scope
  pub started : lock.started_at ≡ l.started_at
  pub quiet : after.signalled ≡ before.signalled

heartbeat_own :
    (l : RuntimeLock) (pid now : ℕ) (w : World)
    → w.file ≡ held l
    → (pid == l.pid) ≡ true
    → heartbeat_runtime_lock pid now w
      ≡ record w { file = held (record l { heartbeat_at = some now }) }
unfolding heartbeat_runtime_lock
heartbeat_own l pid now w h own = ground arith

heartbeat_other :
    (l : RuntimeLock) (pid now : ℕ) (w : World)
    → w.file ≡ held l
    → (pid == l.pid) ≡ false
    → heartbeat_runtime_lock pid now w ≡ w
unfolding heartbeat_runtime_lock
heartbeat_other l pid now w h other = ground arith

release_file :
    (l : RuntimeLock) (pid : ℕ) (w : World)
    → w.file ≡ held l
    → pid ≢ l.pid
    → release_runtime_lock pid w ≡ w
unfolding release_runtime_lock
release_file l pid w h other = ground arith

-- While the owner's heartbeats are recent and the owner is alive, no sequence of operations takes the
-- lock from it: the file holds the owner's lock, with the same scope and start, and no process has
-- been signalled.
pub run-Keeps :
    (stale_ms beat : ℕ) (ops : List Op) (l : RuntimeLock) (w : World)
    → w.file ≡ held l
    → l.heartbeat_at ≡ some beat
    → w.alive l.pid ≡ true
    → IsAttended l.pid stale_ms beat ops
    → Keeps l w (run stale_ms ops w)
unfolding run
run-Keeps stale_ms beat [] l w h b a at = record {
  lock = l;
  kept = h;
  owner = refl;
  scope = refl;
  started = refl;
  quiet = refl;
}
run-Keeps stale_ms beat (acquire pid scope now ∷ ops) l w h b a (ne, fresh, rest) =
    let blocked =
      acquire_blocked pid scope stale_ms now w l h (λ e. ne (sym e))
        (record { beat = beat; heard = b; recent = fresh; living = a }) in
    rw (ap (λ (r : World × Acquired). r.0) blocked) (run-Keeps stale_ms beat ops l w h b a rest)
run-Keeps stale_ms beat (heartbeat pid now ∷ ops) l w h b a rest =
    elim (Bool-cases (pid == l.pid)) [
      | inl own ↦
          let l' : RuntimeLock = record l { heartbeat_at = some now } in
          let later =
            run-Keeps stale_ms now ops l' (record w { file = held l' }) refl refl a
              (rw own at rest) in
          rw (heartbeat_own l pid now w h own) (record {
            lock = later.lock;
            kept = later.kept;
            owner = later.owner;
            scope = later.scope;
            started = later.started;
            quiet = later.quiet;
          })
      | inr other ↦
          rw (heartbeat_other l pid now w h other)
            (run-Keeps stale_ms beat ops l w h b a (rw other at rest))
    ]
run-Keeps stale_ms beat (release pid ∷ ops) l w h b a (ne, rest) =
    rw (release_file l pid w h ne) (run-Keeps stale_ms beat ops l w h b a rest)
