-- ===== src/Lock/Tests.antt =====
-- Runs of the lock's operations, and its theorems at concrete worlds.
use trade_compliance_classif.Prelude.{◌≡◌, refl, ◌≢◌, ◌↔◌, true, some, List, [], ◌∷◌, String, arith}
use trade_compliance_classif.Lock.{
  refusal, RuntimeLock, missing, held, World, acquired, refused, read_runtime_lock, acquire_read,
  acquire_runtime_lock, release_runtime_lock, new_lock,
}
use trade_compliance_classif.Lock.Ownership.{
  Blocks, acquire_runtime_lock_owner, acquire_runtime_lock-refused_iff,
  release_runtime_lock-acquire,
}
use trade_compliance_classif.Lock.Trace.{Op, acquire, heartbeat, release, run, Keeps, run-Keeps}
use trade_compliance_classif.Lock.Race.{acquire_read_race}
use trade_compliance_classif.Prelude.Text.{show}

abbrev lock_of_7 : RuntimeLock
lock_of_7 = new_lock 7 "full" 1000

abbrev owned : World
owned = record { file = held lock_of_7; alive = λ p. true; signalled = [] }

abbrev empty : World
empty = record { file = missing; alive = λ p. true; signalled = [] }

refusal_run :
    (acquire_runtime_lock 8 "next 1" 600 1100 owned).1 ≡ refused "active runtime pid 7 (full)"
unfolding acquire_runtime_lock new_lock show
refusal_run = refl

takeover_run : (acquire_runtime_lock 8 "next 1" 600 1600 owned).0.signalled ≡ 7 ∷ []
unfolding acquire_runtime_lock new_lock
takeover_run = refl

acquire_runtime_lock_owner_example :
    ((acquire_runtime_lock 8 "next 1" 600 1600 owned).0.file ≡ held (new_lock 8 "next 1" 1600))
    × ((new_lock 8 "next 1" 1600).pid ≡ 8)
    × ((new_lock 8 "next 1" 1600).scope ≡ "next 1")
    × ((new_lock 8 "next 1" 1600).heartbeat_at ≡ some 1600)
unfolding acquire_runtime_lock new_lock
acquire_runtime_lock_owner_example = acquire_runtime_lock_owner 8 "next 1" 600 1600 owned refl

acquire_runtime_lock-refused_iff_example :
    ((r : String) × ((acquire_runtime_lock 8 "next 1" 600 1100 owned).1 ≡ refused r))
    ↔ ((l : RuntimeLock) × (owned.file ≡ held l) × (l.pid ≢ 8) × Blocks 600 1100 l owned)
acquire_runtime_lock-refused_iff_example =
    acquire_runtime_lock-refused_iff 8 "next 1" 600 1100 owned

release_runtime_lock-acquire_example :
    acquire_runtime_lock 9 "full" 600 1700
      (release_runtime_lock 8 (acquire_runtime_lock 8 "next 1" 600 1600 owned).0)
    ≡ (
      record {
        file = held (new_lock 9 "full" 1700);
        alive = λ p. true;
        signalled = (acquire_runtime_lock 8 "next 1" 600 1600 owned).0.signalled;
      },
      acquired (new_lock 9 "full" 1700),
    )
unfolding acquire_runtime_lock
release_runtime_lock-acquire_example =
    release_runtime_lock-acquire 8 "next 1" 600 1600 owned 9 "full" 600 1700 refl

abbrev intrusion : List Op
intrusion = acquire 8 "next 1" 1500 ∷ heartbeat 7 1550 ∷ release 8 ∷ acquire 9 "full" 2100 ∷ []

run-Keeps_example : Keeps lock_of_7 owned (run 600 intrusion owned)
unfolding new_lock
run-Keeps_example = run-Keeps 600 1000 intrusion lock_of_7 owned refl refl refl (ground arith)

acquire_read_race_example :
    let first = (acquire_runtime_lock 7 "full" 600 1000 empty).0 in
    let raced = acquire_read (read_runtime_lock missing) 8 "full" 600 1001 first in
    (raced.1 ≡ acquired (new_lock 8 "full" 1001))
    × (raced.0.file ≡ held (new_lock 8 "full" 1001))
    × ((release_runtime_lock 7 raced.0).file ≡ held (new_lock 8 "full" 1001))
    × ((acquire_runtime_lock 8 "full" 600 1001 first).1
        ≡ refused (refusal (new_lock 7 "full" 1000)))
unfolding acquire_runtime_lock
acquire_read_race_example =
    acquire_read_race 7 8 "full" "full" 600 600 1000 1001 empty (new_lock 7 "full" 1000)
      (new_lock 8 "full" 1001) (omega arith) refl (omega arith) refl refl
