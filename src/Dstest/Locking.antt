-- ===== src/Dstest/Locking.antt =====
-- gcpapi/datastore/dstest/datastore_emulator.go: locking an emulator that runs, starting a new one,
-- and releasing it; gcpapi/datastore/dstest/temp_client.go on top. What is printed is left out.
pub mod Starting
pub mod Locks
pub mod Taking
pub mod Acquiring
pub mod Pool
pub mod Leaks
use gcp_emulator_pool.Common.{
  ℕ, inl, inr, Bool, true, false, ◌||◌, Option, none, some, List, [], ◌∷◌, ◌++◌, if◌then◌else◌, ite,
  ℤ, pos, ℤ-discrete, Str, bytes, str_discrete,
}
use gcp_emulator_pool.Strconv.{itoa}
use gcp_emulator_pool.Testutil.Paging.{itoa_ℤ}
use gcp_emulator_pool.Dstest.Os.{Os, EmulatorConfig, Index}
use gcp_emulator_pool.Dstest.Calls.{
  Try, fail, done, hangs, bind, call, on_error, wrapping, has_suffix, replace_first,
}
use gcp_emulator_pool.Dstest.Indexes.{missing_composite_indexes, clear_index_xml_file}
use gcp_emulator_pool.Dstest.Startup.{wait_for_startup}
use gcp_emulator_pool.Dstest.Locking.Starting.{DatastoreEmulator, datadir, start_emulator}

module _ (os : Os) where
  open os use {
    World, Error, internal, service, transient_khan_service, wrap, is_transient, is_would_block,
    join, unmarshal, lock_dir_path, read_dir, open_file, read_all, close_file, remove_file,
    try_flock, unlock, kill, new_request, request, request_blocks,
  }

  -- `Reset`. Its request has the context of the caller, and no timeout of its own.
  unfoldable pub reset : DatastoreEmulator → World → Try Error Unit × World
  reset emulator w =
      let url = bytes "http://" ++ emulator.config.addr ++ bytes "/reset" in
      let failed : Error → Error =
        λ e. service (bytes "Error resetting datastore emulator") (some e) [] in
      call failed (new_request (bytes "POST") url, w)
        λ _ w.
          if request_blocks (bytes "POST") url w
          then (hangs, w)
          else call failed (request (bytes "POST") url w) λ status_code w.
            ite (ℤ-discrete status_code (pos 200)) (done tt, w)
              (
                fail (
                    service (bytes "Invalid status code resetting datastore emulator") none
                      ((bytes "statusCode", itoa_ℤ status_code) ∷ [])),
                w,
              )

  abbrev pub uses_missing : Str → Error
  uses_missing missing =
      internal
        (bytes
          "Test uses composite indexes that are missing from index.yaml (and Go datastore queries should always have perfect indexes).")
        none ((bytes "indexes", missing) ∷ [])

  -- `Release`. `file_name` is the name of the lock file.
  unfoldable pub release : List Index → Str → DatastoreEmulator → World → Try Error Unit × World
  release yaml_indexes file_name emulator w =
      bind (missing_composite_indexes os yaml_indexes (datadir emulator) w) λ missing w.
        ite (str_discrete missing [])
          (let (unlocked, w) = unlock emulator.lock_file w in
            call
              (λ e.
                service (bytes "unable to release emulator") (some e)
                  ((bytes "filename", file_name) ∷ (bytes "fd", itoa emulator.lock_file) ∷ []))
              (unlocked, close_file emulator.lock_file w) λ _ w. (done tt, w))
          (fail (uses_missing missing), w)

  -- `emulatorFromFile`. `name` is the name under which the file was opened.
  unfoldable pub emulator_from_file : Str → ℕ → World → Try Error DatastoreEmulator × World
  emulator_from_file name file w =
      call (λ e. internal (bytes "Could not read lockfile") (some e) []) (read_all file w)
        λ json_data w.
          call (λ e. internal (bytes "Could not unmarshal lockfile") (some e) [])
            (unmarshal json_data, w)
            λ config w.
              ite (ℤ-discrete config.pid (pos 0))
                (fail (internal (bytes "Lockfile contains invalid data") none []), w)
                (ite (str_discrete config.addr [])
                  (fail (internal (bytes "Lockfile contains invalid data") none []), w)
                  (call
                    (λ e.
                      internal (bytes "Process no longer running") none
                        ((bytes "pid", itoa_ℤ config.pid) ∷ []))
                    (kill config.pid w)
                    λ _ w.
                      let log_name =
                        ite (str_discrete config.log_filename [])
                          (replace_first name (bytes ".lockfile.json") (bytes ".out"))
                          config.log_filename in
                      bind
                        (wrapping
                          (λ e.
                            internal (bytes "Could not contact emulator") (some e)
                              ((bytes "addr", config.addr) ∷ []))
                          (wait_for_startup os config.addr log_name w))
                        λ _ w. (done (record { config = config; lock_file = file }), w)))

  abbrev pub unavailable : Error → Error
  unavailable e =
      service [] (some e) ((bytes "message", bytes "This particular emulator is unavailable") ∷ [])

  -- `tryLockEmulator` behind the call of `Flock`, whose error is `locked`.
  unfoldable pub check_locked : Str → ℕ → World → Try Error DatastoreEmulator × World
  unfolding emulator_from_file
  check_locked file_path file w = wrapping unavailable (
      on_error
        (λ w.
          remove_file (replace_first file_path (bytes ".lockfile.json") (bytes ".out"))
            (remove_file file_path w))
        (emulator_from_file file_path file w))

  -- `tryLockEmulator`.
  unfoldable pub try_lock_emulator : Str → World → Try Error DatastoreEmulator × World
  unfolding check_locked
  try_lock_emulator file_path w =
      call
        (λ e.
          internal (bytes "Error trying to open file") (some e)
            ((bytes "filePath", file_path) ∷ []))
        (open_file file_path w)
        λ file w. on_error (close_file file) (
          call
            (λ e.
              if is_would_block e
              then unavailable e
              else internal (bytes "Error trying to flock file") (some e)
                  ((bytes "filePath", file_path) ∷ []))
            (try_flock file w) λ _ w. check_locked file_path file w)

  -- The body of that loop: an error goes on to the next file.
  unfoldable pub or_continue :
      Try Error DatastoreEmulator × World
      → (World → Try Error (Option DatastoreEmulator) × World)
      → Try Error (Option DatastoreEmulator) × World
  or_continue (hangs, w) next = (hangs, w)
  or_continue (fail _, w) next = next w
  or_continue (done emulator, w) next = (done (some emulator), w)

  -- The loop of `lockRunningEmulator`; none if no file is left.
  unfoldable pub lock_first : List Str → World → Try Error (Option DatastoreEmulator) × World
  unfolding try_lock_emulator or_continue
  lock_first [] w = (done none, w)
  lock_first (name ∷ names) w =
      if has_suffix name (bytes ".json")
      then or_continue (try_lock_emulator (join lock_dir_path name) w) (lock_first names)
      else lock_first names w

  -- `lockRunningEmulator`. Behind the loop its variable `err` is still nil.
  unfoldable pub lock_running_emulator : World → Try Error DatastoreEmulator × World
  unfolding lock_first
  lock_running_emulator w =
      call
        (λ e.
          transient_khan_service (some e)
            ((bytes "message", bytes "Lockfile Directory does not exist") ∷ []))
        (read_dir lock_dir_path w)
        λ files w. bind (lock_first files w) λ found w. elim found [
          | some emulator ↦ (done emulator, w)
          | none ↦ (
            fail (
                transient_khan_service none
                  ((bytes "message", bytes "no lock files available") ∷ [])),
            w,
          )
        ]

  -- The two ways of `acquireDatastoreEmulator` to an emulator.
  unfoldable pub start_new : Str → World → Try Error DatastoreEmulator × World
  start_new project_id w =
      wrapping (λ e. wrap e (bytes "unable to start new emulator")) (start_emulator os project_id w)

  unfoldable pub reset_running : DatastoreEmulator → World → Try Error DatastoreEmulator × World
  unfolding reset
  reset_running emulator w =
      bind (wrapping (λ e. wrap e (bytes "unable to reset emulator")) (reset emulator w))
        λ _ w. (done emulator, w)

  unfoldable pub reset_or_start :
      Str → Try Error DatastoreEmulator × World → Try Error DatastoreEmulator × World
  unfolding start_new reset_running
  reset_or_start project_id (hangs, w) = (hangs, w)
  reset_or_start project_id (done emulator, w) = reset_running emulator w
  reset_or_start project_id (fail e, w) =
      if is_transient e
      then start_new project_id w
      else (fail (wrap e (bytes "unable to lock emulator")), w)

  -- `acquireDatastoreEmulator`.
  unfoldable pub acquire_datastore_emulator : Str → World → Try Error DatastoreEmulator × World
  unfolding lock_running_emulator reset_or_start
  acquire_datastore_emulator project_id w =
      bind (reset_or_start project_id (lock_running_emulator w))
        λ emulator w. (done emulator, clear_index_xml_file os (datadir emulator) w)
