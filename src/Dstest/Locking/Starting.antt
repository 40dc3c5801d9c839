-- ===== src/Dstest/Locking/Starting.antt =====
-- gcpapi/datastore/dstest/datastore_emulator.go: the emulator and `startEmulator`.
use gcp_emulator_pool.Common.{if◌then◌else◌, ℕ, List, [], ◌∷◌, ◌++◌, ℤ, pos, Str, bytes}
use gcp_emulator_pool.Testutil.Paging.{itoa_ℤ}
use gcp_emulator_pool.Common.{some}
use gcp_emulator_pool.Dstest.Os.{Os, EmulatorConfig}
use gcp_emulator_pool.Dstest.Calls.{
  Try, done, hangs, bind, call, on_error, wrapping, replace_first, join_strings,
}
use gcp_emulator_pool.Dstest.Startup.{wait_for_startup}

-- `DatastoreEmulator`; the lock file is a descriptor.
pub record DatastoreEmulator : Type 0 where
  pub config : EmulatorConfig
  pub lock_file : ℕ

-- `datadir`.
unfoldable pub datadir : DatastoreEmulator → Str
datadir emulator = replace_first emulator.config.log_filename (bytes ".out") (bytes ".data")

module _ (os : Os) where
  open os use {
    World, Error, internal, with_stack, wrap_with_fields, marshal, lock_dir_path, create_file,
    temp_file, write_file, close_file, remove_file, make_dirs, flock, flock_blocks, look_path,
    start_command, listen, close_listener,
  }

  -- `findFreePort`.
  unfoldable pub find_free_port : World → Try Error ℤ × World
  find_free_port w =
      call with_stack (listen w) λ port w. call with_stack (close_listener w) λ _ w. (done port, w)

  abbrev pub start_args : Str → Str → Str → List Str
  start_args project_id addr log =
      bytes "beta"
      ∷ bytes "emulators"
      ∷ bytes "datastore"
      ∷ bytes "start"
      ∷ (bytes "--project=" ++ project_id)
      ∷ (bytes "--host-port=" ++ addr)
      ∷ (bytes "--data-dir=" ++ replace_first log (bytes ".out") (bytes ".data"))
      ∷ bytes "--no-store-on-disk"
      ∷ bytes "--consistency=1"
      ∷ []

  -- `startEmulator` from the creation of the lock file on, for an emulator that answers.
  unfoldable pub write_lock_file : Str → ℤ → Str → World → Try Error DatastoreEmulator × World
  write_lock_file addr pid log w =
      let lockfile_path = replace_first log (bytes ".out") (bytes ".lockfile.json") in
      call with_stack (create_file lockfile_path w) λ lock_file w.
        on_error (λ w. remove_file lockfile_path (close_file lock_file w))
          (if flock_blocks lock_file w
            then (hangs, w)
            else call with_stack (flock lock_file w) λ _ w.
              let config : EmulatorConfig = record {
                addr = addr;
                pid = pid;
                lock_expiration_time = pos 0;
                log_filename = log;
              } in
              call with_stack (marshal config, w)
                λ emulator_data w.
                  call with_stack (write_file lock_file emulator_data w)
                    λ _ w. (done (record { config = config; lock_file = lock_file }), w))

  -- `startEmulator` with the output file open.
  unfoldable pub run_gcloud : Str → Str → ℕ × Str → World → Try Error DatastoreEmulator × World
  unfolding write_lock_file
  run_gcloud project_id addr gcloud_output w =
      call (λ e. internal (bytes "Could not find gcloud executable") (some e) [])
        (look_path (bytes "gcloud") w)
        λ cmd_path w.
          let args = start_args project_id addr gcloud_output.1 in
          let with_command : Error → Error = λ e.
            wrap_with_fields e (
              (bytes "emulator_cmd", cmd_path ++ bytes " " ++ join_strings (bytes " ") args)
              ∷ []) in
          call with_command (start_command cmd_path args gcloud_output.0 w) λ pid w.
            bind (wrapping with_command (wait_for_startup os addr gcloud_output.1 w))
              λ _ w. write_lock_file addr pid gcloud_output.1 w

  -- `startEmulator`.
  unfoldable pub start_emulator : Str → World → Try Error DatastoreEmulator × World
  unfolding find_free_port run_gcloud
  start_emulator project_id w =
      bind
        (wrapping (λ e. internal (bytes "Could not find a free port to start emulator") (some e) [])
          (find_free_port w))
        λ emulator_port w. call with_stack (make_dirs lock_dir_path w) λ _ w.
          call with_stack (temp_file lock_dir_path (bytes "emulator-*.out") w) λ gcloud_output w.
            on_error (close_file gcloud_output.0)
              (run_gcloud project_id (bytes "localhost:" ++ itoa_ℤ emulator_port) gcloud_output w)
