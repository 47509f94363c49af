-- ===== src/Lock.antt =====
-- tools/klevar-yolo-runtime/src/runtime-lock.ts: the lock file that keeps two runtimes of one
-- working copy apart. A time is a number of milliseconds; a lock's own times are what `Date.parse`
-- makes of its text, `none` for NaN. Signalling a process is best effort, so its effect on the
-- process is the environment's and only the request is kept.
pub mod Ownership
pub mod Trace
pub mod Race
mod Tests
use trade_compliance_classif.Prelude.{
  ℕ, ◌+◌, Bool, true, false, not, ◌&&◌, Option, none, some, List, [], ◌∷◌, String, ltb, ◌==◌,
  if◌then◌else◌,
}
use trade_compliance_classif.Prelude.Text.{◌⧺◌, show}

pub record RuntimeLock : Type 0 where
  pub pid : ℕ
  pub started_at : Option ℕ
  pub heartbeat_at : Option ℕ
  pub scope : String
  pub batch : Option ℕ

-- The file `.yolo/runtime-lock.json`: missing, not JSON, or a lock.
pub data LockFile : Type 0 where
  missing unreadable : LockFile
  held : RuntimeLock → LockFile

pub record World : Type 0 where
  pub file : LockFile
  pub alive : ℕ → Bool
  pub signalled : List ℕ

pub data Acquired : Type 0 where
  acquired : RuntimeLock → Acquired
  refused : String → Acquired

unfoldable pub read_runtime_lock : LockFile → Option RuntimeLock
read_runtime_lock missing = none
read_runtime_lock unreadable = none
read_runtime_lock (held lock) = some lock

unfoldable pub write_runtime_lock : RuntimeLock → World → World
write_runtime_lock lock w = record w { file = held lock }

unfoldable pub clear_runtime_lock : World → World
clear_runtime_lock w = record w { file = missing }

unfoldable pub stop_process_tree : ℕ → World → World
stop_process_tree pid w = record w { signalled = pid ∷ w.signalled }

-- `Date.now() - Date.parse(heartbeatAt) < staleMs`, which is false at NaN.
unfoldable pub is_fresh : ℕ → ℕ → RuntimeLock → Bool
is_fresh stale_ms now lock = elim lock.heartbeat_at [
  | none ↦ false
  | some beat ↦ ltb now (beat + stale_ms)
]

unfoldable pub new_lock : ℕ → String → ℕ → RuntimeLock
new_lock me scope now = record {
  pid = me;
  started_at = some now;
  heartbeat_at = some now;
  scope = scope;
  batch = none;
}

-- The reason of a refusal.
abbrev pub refusal : RuntimeLock → String
refusal lock = "active runtime pid " ⧺ show lock.pid ⧺ " (" ⧺ lock.scope ⧺ ")"

-- The part of `acquireRuntimeLock` after the own-lock test, for a lock that was read.
unfoldable pub displace : ℕ → String → ℕ → ℕ → RuntimeLock → World → World × Acquired
unfolding is_fresh new_lock stop_process_tree clear_runtime_lock write_runtime_lock
displace me scope stale_ms now lock w =
    let fresh = new_lock me scope now in
    let stopped = if w.alive lock.pid then stop_process_tree lock.pid w else w in
    if w.alive lock.pid && is_fresh stale_ms now lock
    then (w, refused (refusal lock))
    else (write_runtime_lock fresh (clear_runtime_lock stopped), acquired fresh)

unfoldable pub renewed : RuntimeLock → String → ℕ → RuntimeLock
renewed lock scope now = record lock { heartbeat_at = some now; scope = scope }

-- What is done once the lock file has been read.
unfoldable pub acquire_read : Option RuntimeLock → ℕ → String → ℕ → ℕ → World → World × Acquired
unfolding displace renewed
acquire_read none me scope stale_ms now w =
    let fresh = new_lock me scope now in (write_runtime_lock fresh w, acquired fresh)
acquire_read (some lock) me scope stale_ms now w =
    let own = renewed lock scope now in
    if lock.pid == me
    then (write_runtime_lock own w, acquired own)
    else displace me scope stale_ms now lock w

unfoldable pub acquire_runtime_lock : ℕ → String → ℕ → ℕ → World → World × Acquired
unfolding acquire_read read_runtime_lock
acquire_runtime_lock me scope stale_ms now w =
    acquire_read (read_runtime_lock w.file) me scope stale_ms now w

heartbeat_read : Option RuntimeLock → ℕ → ℕ → World → World
unfolding write_runtime_lock
heartbeat_read none me now w = w
heartbeat_read (some lock) me now w =
    if not (lock.pid == me)
    then w
    else write_runtime_lock (record lock { heartbeat_at = some now }) w

unfoldable pub heartbeat_runtime_lock : ℕ → ℕ → World → World
unfolding heartbeat_read read_runtime_lock
heartbeat_runtime_lock me now w = heartbeat_read (read_runtime_lock w.file) me now w

release_read : Option RuntimeLock → ℕ → World → World
unfolding clear_runtime_lock
release_read none me w = clear_runtime_lock w
release_read (some lock) me w = if lock.pid == me then clear_runtime_lock w else w

unfoldable pub release_runtime_lock : ℕ → World → World
unfolding release_read read_runtime_lock
release_runtime_lock me w = release_read (read_runtime_lock w.file) me w
