-- ===== src/Dstest/Interleaving/Scenarios.antt =====
-- Two processes on a small system that take turns, to which a theorem of
-- gcpapi/datastore/dstest/datastore_emulator.go is applied.
use gcp_emulator_pool.Common.{ℕ, ◌≡◌, ◌≢◌, refl, arith, ℕ_discrete, false, some, [], pos, update}
use gcp_emulator_pool.Dstest.Os.{Os}
use gcp_emulator_pool.Dstest.Locking.Starting.{DatastoreEmulator}
use gcp_emulator_pool.Dstest.Interleaving.{
  idle, opened, created, taken, owns, Processes, IsUnused, moves, Trace, start, opens, creates,
  locks_opened, locks_created, returns, then_call, tries, begins,
}
use gcp_emulator_pool.Dstest.Interleaving.Ownership.{owners_apart}
use gcp_emulator_pool.Dstest.Scenarios.Toy.{World, config, toy, toy_locks}

abbrev boot : World
boot = record { next = 0; taken = λ f. false; clock = 5 }

abbrev healthy : Os
healthy = toy (pos 200)

abbrev em : ℕ → DatastoreEmulator
em f = record { config = config; lock_file = f }

-- One creates its file, and the other opens another, before they lock them.
abbrev none_open : Processes healthy
none_open = record { world = boot; stage = λ i. idle }

abbrev one_created : Processes healthy
one_created = moves none_open 0 (created 0) (healthy.create_file [] boot).1

abbrev other_opened : Processes healthy
other_opened = moves one_created 1 (opened 1) (healthy.open_file [] one_created.world).1

abbrev one_locked : Processes healthy
one_locked = moves other_opened 0 (taken 0) (healthy.flock 0 other_opened.world).1

abbrev other_locked : Processes healthy
other_locked = moves one_locked 1 (taken 1) (healthy.try_flock 1 one_locked.world).1

abbrev both_own : Processes healthy
both_own =
    let one_owns = moves other_locked 0 (owns (em 0)) other_locked.world in
    moves one_owns 1 (owns (em 1)) one_owns.world

one-IsUnused : IsUnused one_created 1
unfolding update
one-IsUnused j h = ground arith

both_own-Trace : Trace healthy (toy_locks (pos 200)) both_own
unfolding update ℕ_discrete
both_own-Trace =
    then_call
      (then_call
        (then_call
          (then_call
            (then_call (then_call (start boot) (begins (creates 0 [] 0 refl refl (λ j h. cc))))
              (tries (opens 1 [] 1 refl refl one-IsUnused)))
            (begins (locks_created 0 0 refl refl)))
          (tries (locks_opened 1 1 refl refl)))
        (returns 0 (em 0) refl))
      (returns 1 (em 1) refl)

owners_apart_example :
    (n : ℕ) × (m : ℕ) × ((toy_locks (pos 200)).holds both_own.world 0 ≡ some n)
    × ((toy_locks (pos 200)).holds both_own.world 1 ≡ some m)
    × (n ≢ m)
unfolding update ℕ_discrete
owners_apart_example =
    owners_apart healthy (toy_locks (pos 200)) 0 1 (em 0) (em 1) both_own-Trace refl refl (λ h. cc)
