-- ===== src/Dstest/Client.antt =====
-- gcpapi/datastore/dstest/temp_client.go: a Datastore client on an emulator of the pool. The client
-- library is a parameter.
pub mod Closing
use gcp_emulator_pool.Common.{inl, inr, Option, none, some, List, [], map, Str, bytes}
use gcp_emulator_pool.Dstest.Os.{Os, Index, Answer}
use gcp_emulator_pool.Dstest.Calls.{Try, fail, done, hangs, bind, call, wrapping}
use gcp_emulator_pool.Dstest.Indexes.{index_string, composite_indexes}
use gcp_emulator_pool.Dstest.Locking.Starting.{DatastoreEmulator, datadir}
use gcp_emulator_pool.Dstest.Locking.{reset, release, acquire_datastore_emulator}

-- `TempDSClient`, over the clients `C` of the library.
pub record TempClient (C : Type 0) : Type 0 where
  pub emulator : DatastoreEmulator
  pub ds_client : C

module _ (os : Os) {C : Type 0} (setenv : Str → Str → os.World → os.World)
    (new_client : Str → Str → os.World → Answer os.Error C × os.World)
    (close_client : C → os.World → Answer os.Error Unit × os.World)
    (load_index_yaml : os.World → os.World) where
  open os use {World, Error, service, wrap}

  -- `NewTempClient`.
  unfoldable pub new_temp_client : World → Try Error (TempClient C) × World
  new_temp_client w =
      let project_id = bytes "khan-test" in
      let w = setenv (bytes "GOOGLE_CLOUD_PROJECT") project_id w in
      bind
        (wrapping (λ e. wrap e (bytes "Error starting datastore emulator"))
          (acquire_datastore_emulator os project_id w))
        λ emulator w.
          call (λ e. wrap e (bytes "Unable to Create Emulator Datastore Client"))
            (new_client project_id emulator.config.addr w)
            λ client w.
              (done (record { emulator = emulator; ds_client = client }), load_index_yaml w)

  -- `Reset`.
  unfoldable pub reset_client : TempClient C → World → Try Error Unit × World
  reset_client client w = reset os client.emulator w

  -- `UsedCompositeIndexes`: the strings and the error.
  unfoldable pub used_composite_indexes : TempClient C → World → (List Str × Option Error) × World
  used_composite_indexes client w =
      let (read, w) = composite_indexes os (datadir client.emulator) w in
      elim read [
        | done indexes ↦ ((map index_string indexes, none), w)
        | fail e ↦ (([], some e), w)
        | hangs ↦ (([], none), w)
      ]

  -- The error of `Close`: that of the emulator comes first.
  unfoldable pub close_error : Answer Error Unit → Try Error Unit → Try Error Unit
  close_error client_err hangs = hangs
  close_error client_err (fail e) = fail (service (bytes "could not close emulator") (some e) [])
  close_error (inl e) (done _) =
      fail (service (bytes "could not close emulator-dsClient") (some e) [])
  close_error (inr _) (done _) = done tt

  -- `Close`.
  unfoldable pub close : List Index → Str → TempClient C → World → Try Error Unit × World
  unfolding close_error
  close yaml_indexes file_name client w =
      let (client_err, w) = close_client client.ds_client w in
      let (emulator_err, w) = release os yaml_indexes file_name client.emulator w in
      (close_error client_err emulator_err, w)
