-- ===== src/Dstest/Locking/Taking.antt =====
-- `tryLockEmulator` and `startEmulator` (gcpapi/datastore/dstest/datastore_emulator.go) take one lock
-- or none.
use gcp_emulator_pool.Common.{
  ℕ, ◌≡◌, refl, sym, ◌∙◌, [], Str, bytes, ℤ, pos, ℤ-discrete, str_discrete, subst,
}
use gcp_emulator_pool.Dstest.Os.{Os, Flocks, EmulatorConfig}
use gcp_emulator_pool.Dstest.Calls.{replace_first}
use gcp_emulator_pool.Dstest.Calls.Outcome.{
  Leaves, failed, gave, Leaves-wrapping, Leaves-on_error, Leaves-bind, Leaves-call, Leaves-ite,
  Leaves-imp, Leaves-blocking,
}
use gcp_emulator_pool.Dstest.Locking.Starting.{
  DatastoreEmulator, find_free_port, write_lock_file, run_gcloud, start_args, start_emulator,
}
use gcp_emulator_pool.Dstest.Locking.{emulator_from_file, check_locked, try_lock_emulator}
use gcp_emulator_pool.Dstest.Locking.Locks.{
  Keeps, Others, Took, Took-before, Took-after, close-Keeps, close-Others, wait_Leaves,
}

module _ (os : Os) (locks : Flocks os) where
  open os use {World, open_file, read_all, close_file, try_flock, kill, unmarshal}
  open locks use {holds}

  -- An emulator that stands on the descriptor `f`, with the locks of `w`.
  abbrev StandsOn : World → ℕ → DatastoreEmulator → World → Type 0
  StandsOn w f em v = (em.lock_file ≡ f) × Keeps os locks w v

  emulator_from_file_Leaves :
      (name : Str) (f : ℕ) (w : World)
      → Leaves (Keeps os locks w) (StandsOn w f) (emulator_from_file os name f w)
  unfolding emulator_from_file
  emulator_from_file_Leaves name f w =
      Leaves-call _ (read_all f w) _ (λ e h. locks.read_keeps w f)
        λ json h.
          Leaves-call _ (unmarshal json, (read_all f w).1) _ (λ e h. locks.read_keeps w f)
            λ config h.
              Leaves-ite (ℤ-discrete config.pid (pos 0)) (failed _ _ (locks.read_keeps w f)) (
                Leaves-ite (str_discrete config.addr []) (failed _ _ (locks.read_keeps w f)) (
                  Leaves-call _ (kill config.pid (read_all f w).1) _ (λ e h. killed config)
                    λ _ h.
                      Leaves-bind _
                        (Leaves-wrapping _ (
                          Leaves-imp
                            (wait_Leaves os locks config.addr _
                              (kill config.pid (read_all f w).1).1)
                            (λ v k g. k g ∙ killed config g) (λ _ v k g. k g ∙ killed config g)))
                        λ _ v k. gave _ v (refl, k)))
    where
      killed : (config : EmulatorConfig) → Keeps os locks w (kill config.pid (read_all f w).1).1
      killed config g = locks.kill_keeps (read_all f w).1 config.pid g ∙ locks.read_keeps w f g

  check_locked_Leaves :
      (path : Str) (f : ℕ) (w : World)
      → Leaves (Keeps os locks w) (StandsOn w f) (check_locked os path f w)
  unfolding check_locked
  check_locked_Leaves path f w = Leaves-wrapping _ (
      Leaves-on_error _ (emulator_from_file_Leaves path f w)
        λ v k g. locks.remove_keeps (os.remove_file path v) _ g ∙ locks.remove_keeps v path g ∙ k g)

  -- An emulator that stands on a descriptor that took its lock since `w`.
  abbrev pub Acquired : World → DatastoreEmulator → World → Type 0
  Acquired w em v = Took os locks w em.lock_file v

  pub try_lock_Leaves :
      (path : Str) (w : World)
      → Leaves (Keeps os locks w) (Acquired w) (try_lock_emulator os path w)
  unfolding try_lock_emulator
  try_lock_Leaves path w =
      Leaves-call _ (open_file path w) _ (λ e h. locks.open_keeps w path)
        λ f h.
          let opened = (open_file path w).1 in
          let free = locks.open_fresh w path f h in
          let locked = try_flock f opened in
          let others : Others os locks w f locked.1 =
            λ g ne. locks.try_flock_others opened f g ne ∙ locks.open_keeps w path g in
          Leaves-on_error (close_file f)
            (Leaves-call _ locked _ (λ e h. others)
              λ _ h.
                Leaves-imp (check_locked_Leaves path f locked.1) (λ v k g ne. k g ∙ others g ne)
                  λ em v found.
                    Took-after os locks w locked.1 v em.lock_file
                      (subst (λ l. Took os locks w l locked.1) (sym found.0)
                        (free, locks.try_flock_takes opened f h, others))
                      found.1)
            λ v k. close-Others os locks w v f free k

  write_lock_file_Leaves :
      (addr : Str) (pid : ℤ) (log : Str) (w : World)
      → Leaves (Keeps os locks w) (Acquired w) (write_lock_file os addr pid log w)
  unfolding write_lock_file
  write_lock_file_Leaves addr pid log w =
      let path = replace_first log (bytes ".out") (bytes ".lockfile.json") in
      Leaves-call _ (os.create_file path w) _ (λ e h. locks.create_keeps w path)
        λ f h.
          let created = (os.create_file path w).1 in
          let free = locks.create_fresh w path f h in
          let locked = os.flock f created in
          let others : Others os locks w f locked.1 =
            λ g ne. locks.flock_others created f g ne ∙ locks.create_keeps w path g in
          Leaves-on_error (λ v. os.remove_file path (close_file f v))
            (Leaves-blocking (os.flock_blocks f created) created (
              Leaves-call _ locked _ (λ e h. others)
                λ _ taken.
                  Leaves-call _ (os.marshal _, locked.1) _ (λ e h. others)
                    λ text h.
                      Leaves-call _ (os.write_file f text locked.1) _
                        (λ e h g ne. locks.write_keeps locked.1 f text g ∙ others g ne)
                        λ _ h. gave _ _ (
                          Took-after os locks w locked.1 (os.write_file f text locked.1).1 f
                            (free, locks.flock_takes created f taken, others)
                            (locks.write_keeps locked.1 f text))))
            λ v k g.
              locks.remove_keeps (close_file f v) path g ∙ close-Others os locks w v f free k g

  find_free_port_Leaves :
      (w : World) → Leaves (Keeps os locks w) (λ _. Keeps os locks w) (find_free_port os w)
  unfolding find_free_port
  find_free_port_Leaves w =
      let closed : Keeps os locks w (os.close_listener (os.listen w).1).1 =
        λ g. locks.close_listener_keeps (os.listen w).1 g ∙ locks.listen_keeps w g in
      Leaves-call _ (os.listen w) _ (λ e h. locks.listen_keeps w)
        λ port h.
          Leaves-call _ (os.close_listener (os.listen w).1) _ (λ e h. closed) λ _ h. gave _ _ closed

  -- `startEmulator` behind the search for a port.
  run_gcloud_Leaves :
      (project_id addr : Str) (out : ℕ × Str) (w : World)
      → Leaves (Keeps os locks w) (Acquired w) (run_gcloud os project_id addr out w)
  unfolding run_gcloud
  run_gcloud_Leaves project_id addr out w =
      let gcloud = bytes "gcloud" in
      let looked = os.look_path gcloud w in
      Leaves-call _ looked _ (λ e h. locks.look_path_keeps w gcloud)
        λ cmd h.
          let args = start_args os project_id addr out.1 in
          let started = os.start_command cmd args out.0 looked.1 in
          let kept : Keeps os locks w started.1 =
            λ g. locks.start_keeps looked.1 cmd args out.0 g ∙ locks.look_path_keeps w gcloud g in
          Leaves-call _ started _ (λ e h. kept)
            λ pid h.
              Leaves-bind _
                (Leaves-wrapping _ (
                  Leaves-imp (wait_Leaves os locks addr out.1 started.1) (λ v k g. k g ∙ kept g)
                    (λ _ v k g. k g ∙ kept g)))
                λ _ v k.
                  Leaves-imp (write_lock_file_Leaves addr pid out.1 v) (λ u l g. l g ∙ k g)
                    λ em u took. Took-before os locks w v u em.lock_file k took

  pub start_emulator_Leaves :
      (project_id : Str) (w : World)
      → Leaves (Keeps os locks w) (Acquired w) (start_emulator os project_id w)
  unfolding start_emulator
  start_emulator_Leaves project_id w =
      Leaves-bind _ (Leaves-wrapping _ (find_free_port_Leaves w)) λ port u k.
        let dir = os.lock_dir_path in
        let made = os.make_dirs dir u in
        let kept : Keeps os locks w made.1 = λ g. locks.make_dirs_keeps u dir g ∙ k g in
        Leaves-call _ made _ (λ e h. kept)
          λ _ h.
            let template = bytes "emulator-*.out" in
            let temp = os.temp_file dir template made.1 in
            let opened : Keeps os locks w temp.1 =
              λ g. locks.temp_keeps made.1 dir template g ∙ kept g in
            Leaves-call _ temp _ (λ e h. opened)
              λ out h.
                Leaves-on_error (close_file out.0)
                  (Leaves-imp (run_gcloud_Leaves project_id _ out temp.1) (λ v l g. l g ∙ opened g)
                    λ em v took. Took-before os locks w temp.1 v em.lock_file opened took)
                  λ v l.
                    close-Keeps os locks w v out.0
                      (sym (kept out.0) ∙ locks.temp_fresh made.1 dir template out h) l
