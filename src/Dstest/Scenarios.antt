-- ===== src/Dstest/Scenarios.antt =====
-- Processes on a small system, to which the theorems of gcpapi/datastore/dstest are applied.
pub mod Toy
use mathlib.Core.Logic.{ite}
use gcp_emulator_pool.Common.{
  ℕ, suc, ◌+◌, ◌≡◌, ◌≢◌, refl, inl, inr, arith, ℕ_discrete, str_discrete, Bool, true, false, Option,
  none, some, [], ◌∷◌, ◌++◌, if◌then◌else◌, ltb, ℤ, pos, Str, bytes, lookup, insert, ◌⊎◌, ◌↔◌,
  sort_strings, insert_sorted, str_leb, update, ℤ-discrete,
}
use gcp_emulator_pool.Dstest.Os.{Os, Answer, Flocks, Timers, EmulatorConfig, Index}
use gcp_emulator_pool.Dstest.Calls.{
  fail, done, hangs, bind, call, on_error, wrapping, has_suffix, join_strings,
}
use gcp_emulator_pool.Dstest.Indexes.{
  missing_composite_indexes, composite_indexes, read_index, clear_index_xml_file, set_difference,
  index_strings, keep_unlisted, index_string, property_string,
}
use gcp_emulator_pool.Dstest.Indexes.Missing.{unlisted, set_difference-unlisted, index_string_swap}
use gcp_emulator_pool.Dstest.Startup.{check_emulator_connection, connect, wait_for_startup}
use gcp_emulator_pool.Dstest.Startup.Polling.{wait_for_startup_ends}
use gcp_emulator_pool.Dstest.Locking.Starting.{DatastoreEmulator, datadir}
use gcp_emulator_pool.Dstest.Locking.{
  reset, release, uses_missing, emulator_from_file, check_locked, try_lock_emulator, or_continue,
  lock_first, lock_running_emulator, start_new, reset_running, reset_or_start,
  acquire_datastore_emulator,
}
use gcp_emulator_pool.Dstest.Locking.Pool.{Pool, Reach, acquires, start, later, emulators_apart}
use gcp_emulator_pool.Dstest.Locking.Leaks.{release_refused, acquire_unclean}
use gcp_emulator_pool.Dstest.Client.{TempClient, close}
use gcp_emulator_pool.Dstest.Client.Closing.{close_unlocks}
use gcp_emulator_pool.Dstest.Scenarios.Toy.{
  World, holding, config, used, toy, toy_locks, toy_timers,
}

abbrev boot : World
boot = record { next = 0; taken = λ f. false; clock = 5 }

abbrev healthy : Os
healthy = toy (pos 200)

abbrev em : ℕ → DatastoreEmulator
em f = record { config = config; lock_file = f }

abbrev first : World
first = (acquire_datastore_emulator healthy [] boot).1

abbrev second : World
second = (acquire_datastore_emulator healthy [] first).1

first_acquired : acquire_datastore_emulator healthy [] boot ≡ (done (em 0), first)
unfolding acquire_datastore_emulator reset_or_start lock_running_emulator lock_first or_continue
    try_lock_emulator check_locked emulator_from_file reset_running reset start_new wait_for_startup
    connect check_emulator_connection bind call wrapping on_error has_suffix str_discrete ℕ_discrete
    ℤ-discrete
first_acquired = refl

second_acquired : acquire_datastore_emulator healthy [] first ≡ (done (em 2), second)
unfolding acquire_datastore_emulator reset_or_start lock_running_emulator lock_first
    clear_index_xml_file or_continue try_lock_emulator check_locked emulator_from_file reset_running
    reset start_new wait_for_startup connect check_emulator_connection bind call wrapping on_error
    has_suffix str_discrete ℕ_discrete ℤ-discrete
second_acquired = refl

abbrev both : Pool healthy
both = record { world = second; held = update (update (λ i. none) 0 (some (em 0))) 1 (some (em 2)) }

both-Reach : Reach healthy both
unfolding update ℕ_discrete
both-Reach =
    later (later (start boot) (acquires 0 [] (em 0) first refl first_acquired))
      (acquires 1 [] (em 2) second refl second_acquired)

emulators_apart_example :
    (n : ℕ) × (m : ℕ) × ((toy_locks (pos 200)).holds second 0 ≡ some n)
    × ((toy_locks (pos 200)).holds second 2 ≡ some m)
    × (n ≢ m)
unfolding update ℕ_discrete
emulators_apart_example =
    emulators_apart healthy (toy_locks (pos 200)) 0 1 (em 0) (em 2) both-Reach refl refl (λ h. cc)

wait_for_startup_ends_example :
    (wait_for_startup healthy (bytes "localhost:8081") (bytes "e.out") boot).0 ≢ hangs
wait_for_startup_ends_example =
    wait_for_startup_ends healthy (toy_timers (pos 200)) (bytes "localhost:8081") (bytes "e.out")
      boot

abbrev report : Str
report = index_string used

abbrev checked : World
checked = (missing_composite_indexes healthy [] (datadir (em 0)) first).1

used_missing : missing_composite_indexes healthy [] (datadir (em 0)) first ≡ (done report, checked)
unfolding missing_composite_indexes composite_indexes read_index bind call wrapping set_difference
    index_strings keep_unlisted lookup index_string join_strings
used_missing = refl

report_cons : report ≢ []
unfolding index_string
report_cons h = cc

release_refused_example :
    (release healthy [] [] (em 0) first ≡ (fail (uses_missing healthy report), checked))
    × ((toy_locks (pos 200)).holds checked 0 ≡ (toy_locks (pos 200)).holds first 0)
release_refused_example =
    release_refused healthy (toy_locks (pos 200)) [] [] report (em 0) first checked 0 used_missing
      report_cons

abbrev broken : Os
broken = toy (pos 500)

abbrev locked : World
locked = (lock_running_emulator broken boot).1

lock_there : lock_running_emulator broken boot ≡ (done (em 0), locked)
unfolding lock_running_emulator lock_first or_continue try_lock_emulator check_locked
    emulator_from_file wait_for_startup connect check_emulator_connection bind call wrapping
    on_error has_suffix str_discrete ℕ_discrete ℤ-discrete
lock_there = refl

abbrev unclean : Str
unclean = bytes "Invalid status code resetting datastore emulator"

reset_there : reset broken (em 0) locked ≡ (fail unclean, locked)
unfolding reset call str_discrete ℕ_discrete ℤ-discrete
reset_there = refl

acquire_unclean_example :
    (acquire_datastore_emulator broken [] boot
      ≡ (fail (broken.wrap unclean (bytes "unable to reset emulator")), locked))
    × ((n : ℕ) × ((toy_locks (pos 500)).holds locked 0 ≡ some n))
    × ((toy_locks (pos 500)).holds boot 0 ≡ none)
acquire_unclean_example =
    acquire_unclean broken (toy_locks (pos 500)) [] (em 0) boot locked locked unclean lock_there
      reset_there

set_difference-unlisted_example :
    set_difference (used ∷ used ∷ []) (used ∷ []) ≡ unlisted (used ∷ used ∷ []) (used ∷ [])
set_difference-unlisted_example = set_difference-unlisted (used ∷ used ∷ []) (used ∷ [])

index_string_swap_example :
    index_string used
    ≡ index_string (record {
      kind = bytes "User";
      ancestor = [];
      property = (bytes "b", []) ∷ (bytes "a", bytes "asc") ∷ [];
    })
index_string_swap_example =
    index_string_swap (bytes "User") [] [] [] (bytes "a", bytes "asc") (bytes "b", [])

abbrev a_client : TempClient ℕ
a_client = record { emulator = em 0; ds_client = 0 }

-- A client library whose close fails.
abbrev opens_client : Str → Str → World → Answer Str ℕ × World
opens_client project addr w = (inr 0, w)

abbrev close_fails : ℕ → World → Answer Str Unit × World
close_fails c w = (inl (bytes "closed"), w)

all_listed :
    missing_composite_indexes healthy (used ∷ []) (datadir (em 0)) first ≡ (done [], checked)
unfolding missing_composite_indexes composite_indexes read_index bind call wrapping set_difference
    index_strings keep_unlisted lookup insert index_string join_strings property_string sort_strings
    insert_sorted str_leb str_discrete ℕ_discrete
all_listed = refl

close_unlocks_example :
    ((toy_locks (pos 200)).holds
        (close healthy
          (λ k v w. w)
          opens_client
          close_fails
          (λ w. w)
          (used ∷ [])
          []
          a_client
          first).1
        0
      ≡ none)
    × (((close healthy
            (λ k v w. w)
            opens_client
            close_fails
            (λ w. w)
            (used ∷ [])
            []
            a_client
            first).0
          ≡ done tt)
        ↔ (((close_fails 0 first).0 ≡ inr tt) × ((healthy.unlock 0 checked).0 ≡ inr tt)))
close_unlocks_example =
    close_unlocks healthy (toy_locks (pos 200)) (λ k v w. w) opens_client close_fails (λ w. w)
      (used ∷ []) [] a_client first checked all_listed
