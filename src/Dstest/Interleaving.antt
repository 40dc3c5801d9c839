-- ===== src/Dstest/Interleaving.antt =====
-- gcpapi/datastore/dstest/datastore_emulator.go: what processes do to lock files, one system call at a
-- time, in any order. A process is within `tryLockEmulator`, within `startEmulator`, or works with an
-- emulator; all calls that touch no lock are the step `calls`.
pub mod Ownership
mod Scenarios
use gcp_emulator_pool.Common.{ℕ, ◌≡◌, ◌≢◌, inl, inr, Option, none, some, Str, update}
use gcp_emulator_pool.Dstest.Os.{Os, Flocks}
use gcp_emulator_pool.Dstest.Locking.Starting.{DatastoreEmulator}

-- Where a process is with its lock file: not open, opened by `tryLockEmulator`, created by
-- `startEmulator`, locked, about to be closed, or that of an emulator the process works with.
pub data Stage : Type 0 where
  idle : Stage
  opened created taken closing : ℕ → Stage
  owns : DatastoreEmulator → Stage

-- The descriptor of the lock file.
abbrev pub descriptor : Stage → Option ℕ
descriptor idle = none
descriptor (opened f) = some f
descriptor (created f) = some f
descriptor (taken f) = some f
descriptor (closing f) = some f
descriptor (owns em) = some em.lock_file

pub record Processes (os : Os) : Type 0 where
  pub world : os.World
  pub stage : ℕ → Stage

-- No process has the descriptor open as its lock file.
abbrev pub IsUnused : {os : Os} → Processes os → ℕ → Type 0
IsUnused s f = (j : ℕ) → descriptor (s.stage j) ≢ some f

abbrev pub moves : {os : Os} → Processes os → ℕ → Stage → os.World → Processes os
moves s i st w = record { world = w; stage = update s.stage i st }

-- The system calls of `tryLockEmulator` on a lock file: `os.Open`, under a descriptor that is not
-- open, and `syscall.Flock` with its two results.
pub data TryLockCall (os : Os) (locks : Flocks os) (s : Processes os) : Processes os → Type 0 where
  opens :
      (i : ℕ) (path : Str) (f : ℕ)
      → s.stage i ≡ idle
      → (os.open_file path s.world).0 ≡ inr f
      → IsUnused s f
      → TryLockCall os locks s (moves s i (opened f) (os.open_file path s.world).1)
  locks_opened :
      (i f : ℕ)
      → s.stage i ≡ opened f
      → (os.try_flock f s.world).0 ≡ inr tt
      → TryLockCall os locks s (moves s i (taken f) (os.try_flock f s.world).1)
  is_refused :
      (i f : ℕ) (e : os.Error)
      → s.stage i ≡ opened f
      → (os.try_flock f s.world).0 ≡ inl e
      → TryLockCall os locks s (moves s i (closing f) (os.try_flock f s.world).1)

-- Those of `startEmulator`: `os.Create` and a `syscall.Flock` that waits.
pub data StartCall (os : Os) (locks : Flocks os) (s : Processes os) : Processes os → Type 0 where
  creates :
      (i : ℕ) (path : Str) (f : ℕ)
      → s.stage i ≡ idle
      → (os.create_file path s.world).0 ≡ inr f
      → IsUnused s f
      → StartCall os locks s (moves s i (created f) (os.create_file path s.world).1)
  locks_created :
      (i f : ℕ)
      → s.stage i ≡ created f
      → (os.flock f s.world).0 ≡ inr tt
      → StartCall os locks s (moves s i (taken f) (os.flock f s.world).1)
  fails :
      (i f : ℕ) (e : os.Error)
      → s.stage i ≡ created f
      → (os.flock f s.world).0 ≡ inl e
      → StartCall os locks s (moves s i (closing f) (os.flock f s.world).1)

-- Any step: those calls, and what comes behind them and in `Release`.
pub data Call (os : Os) (locks : Flocks os) (s : Processes os) : Processes os → Type 0 where
  tries : {t : Processes os} → TryLockCall os locks s t → Call os locks s t
  begins : {t : Processes os} → StartCall os locks s t → Call os locks s t
  -- The emulator of the file is returned, or found dead, and the file is closed on an error.
  returns :
      (i : ℕ) (em : DatastoreEmulator)
      → s.stage i ≡ taken em.lock_file
      → Call os locks s (moves s i (owns em) s.world)
  rejects : (i f : ℕ) → s.stage i ≡ taken f → Call os locks s (moves s i (closing f) s.world)
  closes :
      (i f : ℕ) → s.stage i ≡ closing f → Call os locks s (moves s i idle (os.close_file f s.world))
  -- `Release` unlocks, and then closes; a `Release` that fails, and a `Reset` that fails in
  -- `acquireDatastoreEmulator`, let go of the emulator with its lock file open.
  unlocks :
      (i : ℕ) (em : DatastoreEmulator)
      → s.stage i ≡ owns em
      → Call os locks s (moves s i (closing em.lock_file) (os.unlock em.lock_file s.world).1)
  lets_go :
      (i : ℕ) (em : DatastoreEmulator)
      → s.stage i ≡ owns em
      → Call os locks s (moves s i idle s.world)
  -- A process ends, in any stage, and the system closes its lock file.
  exits :
      (i f : ℕ)
      → descriptor (s.stage i) ≡ some f
      → Call os locks s (moves s i idle (os.close_file f s.world))
  -- A call that touches no lock.
  calls :
      (w : os.World)
      → ((g : ℕ) → locks.holds w g ≡ locks.holds s.world g)
      → Call os locks s (record { world = w; stage = s.stage })

pub data Trace (os : Os) (locks : Flocks os) : Processes os → Type 0 where
  start : (w : os.World) → Trace os locks (record { world = w; stage = λ i. idle })
  then_call : {s t : Processes os} → Trace os locks s → Call os locks s t → Trace os locks t
