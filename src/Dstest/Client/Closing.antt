-- ===== src/Dstest/Client/Closing.antt =====
-- `Close` of a client gives its emulator back (gcpapi/datastore/dstest/temp_client.go).
use gcp_emulator_pool.Common.{◌≡◌, ◌↔◌, refl, ap, ◌∙◌, inl, inr, none, List, [], Str, str_discrete}
use gcp_emulator_pool.Dstest.Os.{Os, Flocks, Index, Answer}
use gcp_emulator_pool.Dstest.Calls.{Try, fail, done, hangs, bind, call}
use gcp_emulator_pool.Dstest.Indexes.{missing_composite_indexes}
use gcp_emulator_pool.Dstest.Locking.Starting.{datadir}
use gcp_emulator_pool.Dstest.Locking.{release}
use gcp_emulator_pool.Dstest.Client.{TempClient, close, close_error}

module _ (os : Os) (locks : Flocks os) {C : Type 0} (setenv : Str → Str → os.World → os.World)
    (new_client : Str → Str → os.World → Answer os.Error C × os.World)
    (close_client : C → os.World → Answer os.Error Unit × os.World)
    (load_index_yaml : os.World → os.World) where
  open os use {World, Error, unlock, close_file}
  open locks use {holds}

  -- What a call that wraps an error makes of an answer, where nothing follows.
  ending :
      (f : Error → Error) (a : Answer Error Unit) (w : World)
      → ((call f (a, w) (λ _ w. (done tt, w))).1 ≡ w)
        × (((call f (a, w) (λ _ w. (done tt, w))).0 ≡ done tt) ↔ (a ≡ inr tt))
  unfolding call
  ending f (inl e) w = (refl, (λ h. cc, λ h. cc))
  ending f (inr u) w = (refl, (λ h. refl, λ h. refl))

  release_ends :
      (yaml : List Index) (name : Str) (client : TempClient C) (w v : World)
      → missing_composite_indexes os yaml (datadir client.emulator) w ≡ (done [], v)
      → ((release os yaml name client.emulator w).1
          ≡ close_file client.emulator.lock_file (unlock client.emulator.lock_file v).1)
        × (((release os yaml name client.emulator w).0 ≡ done tt)
            ↔ ((unlock client.emulator.lock_file v).0 ≡ inr tt))
  unfolding release bind str_discrete
  release_ends yaml name client w v h = rw h (ending _ (unlock client.emulator.lock_file v).0 _)

  close_error_done :
      (a : Answer Error Unit) (t : Try Error Unit)
      → (close_error os setenv new_client close_client load_index_yaml a t ≡ done tt)
        ↔ ((a ≡ inr tt) × (t ≡ done tt))
  unfolding close_error
  close_error_done a hangs = (λ h. cc, λ h. cc)
  close_error_done a (fail e) = (λ h. cc, λ h. cc)
  close_error_done (inl e) (done u) = (λ h. cc, λ h. cc)
  close_error_done (inr x) (done u) = (λ h. (refl, refl), λ h. refl)

  -- If the indexes of the test are all listed, Close gives up the lock of the emulator, whether or not
  -- the client and the unlocking fail, and it succeeds if and only if both succeed.
  pub close_unlocks :
      (yaml : List Index) (name : Str) (client : TempClient C) (w v : World)
      → missing_composite_indexes os yaml
          (datadir client.emulator)
          (close_client client.ds_client w).1
        ≡ (done [], v)
      → (holds
            (close os setenv new_client close_client load_index_yaml yaml name client w).1
            client.emulator.lock_file
          ≡ none)
        × (((close os setenv new_client close_client load_index_yaml yaml name client w).0
              ≡ done tt)
            ↔ (((close_client client.ds_client w).0 ≡ inr tt)
                × ((unlock client.emulator.lock_file v).0 ≡ inr tt)))
  unfolding close
  close_unlocks yaml name client w v h =
      let closed = close_client client.ds_client w in
      let ends = release_ends yaml name client closed.1 v h in
      let both = close_error_done closed.0 (release os yaml name client.emulator closed.1).0 in
      (
        ap (λ u. holds u client.emulator.lock_file) ends.0
            ∙ locks.close_drops (unlock client.emulator.lock_file v).1 client.emulator.lock_file,
        (λ d. ((both.0 d).0, ends.1.0 (both.0 d).1), λ p. both.1 (p.0, ends.1.1 p.1)),
      )
