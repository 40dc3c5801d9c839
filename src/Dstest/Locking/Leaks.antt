-- ===== src/Dstest/Locking/Leaks.antt =====
-- Errors on which `Release` and `acquireDatastoreEmulator` keep a lock
-- (gcpapi/datastore/dstest/datastore_emulator.go).
use gcp_emulator_pool.Common.{
  ℕ, ◌≡◌, ◌≢◌, refl, ◌∙◌, subst, if_neg, none, some, List, [], Str, str_discrete, bytes,
}
use gcp_emulator_pool.Dstest.Os.{Os, Flocks, Index}
use gcp_emulator_pool.Dstest.Calls.{fail, done, bind, wrapping}
use gcp_emulator_pool.Dstest.Calls.Outcome.{After, Leaves-After}
use gcp_emulator_pool.Dstest.Indexes.{missing_composite_indexes}
use gcp_emulator_pool.Dstest.Locking.Starting.{DatastoreEmulator, datadir}
use gcp_emulator_pool.Dstest.Locking.{
  reset, release, uses_missing, lock_running_emulator, reset_or_start, reset_running,
  acquire_datastore_emulator,
}
use gcp_emulator_pool.Dstest.Locking.Locks.{Keeps}
use gcp_emulator_pool.Dstest.Locking.Acquiring.{lock_running_Leaves, reset_Leaves, missing_Leaves}

module _ (os : Os) (locks : Flocks os) where
  open os use {World, Error}
  open locks use {holds}

  -- A release that finds indexes missing from index.yaml fails and keeps every lock, that of the
  -- emulator included.
  pub release_refused :
      (yaml : List Index) (name missing : Str) (em : DatastoreEmulator) (w v : World) (g : ℕ)
      → missing_composite_indexes os yaml (datadir em) w ≡ (done missing, v)
      → missing ≢ []
      → (release os yaml name em w ≡ (fail (uses_missing os missing), v)) × (holds v g ≡ holds w g)
  unfolding release bind
  release_refused yaml name missing em w v g h ne = (
    rw (h, if_neg (str_discrete missing []) ne) refl,
    subst (After (Keeps os locks w) (λ _. Keeps os locks w)) h
        (Leaves-After (missing_Leaves os locks yaml (datadir em) w)) g,
  )

module _ (os : Os) (locks : Flocks os) where
  open os use {World, Error}
  open locks use {holds}

  -- If a running emulator was locked and its reset fails, acquiring returns an error and the lock
  -- stays taken.
  pub acquire_unclean :
      (project_id : Str) (em : DatastoreEmulator) (w u v : World) (e : Error)
      → lock_running_emulator os w ≡ (done em, u)
      → reset os em u ≡ (fail e, v)
      → (acquire_datastore_emulator os project_id w
          ≡ (fail (os.wrap e (bytes "unable to reset emulator")), v))
        × ((n : ℕ) × (holds v em.lock_file ≡ some n))
        × (holds w em.lock_file ≡ none)
  unfolding acquire_datastore_emulator reset_or_start reset_running bind wrapping
  acquire_unclean project_id em w u v e locked unclean =
      let took = subst (After _ _) locked (Leaves-After (lock_running_Leaves os locks w)) in
      let kept =
        subst (After (Keeps os locks u) (λ _. Keeps os locks u)) unclean
          (Leaves-After (reset_Leaves os locks em u)) in
      let (n, l) = took.1 in (rw (locked, unclean) refl, (n, kept em.lock_file ∙ l), took.0)
