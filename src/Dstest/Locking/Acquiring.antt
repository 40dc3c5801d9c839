-- ===== src/Dstest/Locking/Acquiring.antt =====
-- `acquireDatastoreEmulator` and `Release` (gcpapi/datastore/dstest/datastore_emulator.go).
use gcp_emulator_pool.Common.{
  ℕ, ℕ_discrete, ◌≡◌, refl, sym, ◌∙◌, inl, inr, List, [], ◌∷◌, Str, bytes, pos, ℤ-discrete,
  str_discrete, ◌++◌, Option, none, some, subst, ◌≢◌, Sum-cases, Bool-cases,
}
use gcp_emulator_pool.Dstest.Os.{Os, Answer, Flocks, Index}
use gcp_emulator_pool.Dstest.Calls.{Try, fail, done, has_suffix}
use gcp_emulator_pool.Dstest.Calls.Outcome.{
  Leaves, failed, gave, hung, Leaves-blocking, Leaves-wrapping, Leaves-bind, Leaves-call,
  Leaves-ite, Leaves-imp,
}
use gcp_emulator_pool.Dstest.Indexes.{
  missing_composite_indexes, composite_indexes, read_index, clear_index_xml_file, index_xml,
}
use gcp_emulator_pool.Dstest.Locking.Starting.{DatastoreEmulator, datadir}
use gcp_emulator_pool.Dstest.Locking.{
  reset, release, or_continue, reset_or_start, try_lock_emulator, lock_first, lock_running_emulator,
  start_new, reset_running, acquire_datastore_emulator,
}
use gcp_emulator_pool.Dstest.Locking.Locks.{
  Keeps, Others, Took, Took-before, Took-after, close-Keeps,
}
use gcp_emulator_pool.Dstest.Locking.Taking.{Acquired, try_lock_Leaves, start_emulator_Leaves}

module _ (os : Os) (locks : Flocks os) where
  open os use {World, Error, request, open_file, read_all, close_file}
  open locks use {holds}

  pub reset_Leaves :
      (em : DatastoreEmulator) (w : World)
      → Leaves (Keeps os locks w) (λ _. Keeps os locks w) (reset os em w)
  unfolding reset
  reset_Leaves em w =
      let url = bytes "http://" ++ em.config.addr ++ bytes "/reset" in
      let answered = request (bytes "POST") url w in
      let kept : Keeps os locks w answered.1 = locks.request_keeps w (bytes "POST") url in
      Leaves-call _ (os.new_request (bytes "POST") url, w) _ (λ e h g. refl)
        λ _ h. Leaves-blocking (os.request_blocks (bytes "POST") url w) w (
          Leaves-call _ answered _ (λ e h. kept)
            λ status_code h.
              Leaves-ite (ℤ-discrete status_code (pos 200)) (gave _ _ kept) (failed _ _ kept))

  clear-Keeps : (datadir : Str) (w : World) → Keeps os locks w (clear_index_xml_file os datadir w)
  unfolding clear_index_xml_file
  clear-Keeps datadir w g = elim (Sum-cases created.0) [
    | inl (e, h) ↦ rw (h, clear_index_xml_file) (kept g)
    | inr (f, h) ↦
        rw (h, clear_index_xml_file)
          (close-Keeps os locks w _ f (sym (made_Keeps f) ∙ locks.create_fresh made.1 filename f h)
            (λ k. locks.write_keeps created.1 f _ k ∙ kept k) g)
  ]
    where
      dirname : Str
      dirname = os.join datadir (bytes "WEB-INF/appengine-generated")

      filename : Str
      filename = os.join dirname (bytes "datastore-indexes-auto.xml")

      made : Answer Error Unit × World
      made = os.make_dirs dirname w

      created : Answer Error ℕ × World
      created = os.create_file filename made.1

      made_Keeps : Keeps os locks w made.1
      made_Keeps = locks.make_dirs_keeps w dirname

      kept : Keeps os locks w created.1
      kept g = locks.create_keeps made.1 filename g ∙ made_Keeps g

  read_index_Leaves :
      (path : Str) (w : World)
      → Leaves (Keeps os locks w) (λ _. Keeps os locks w) (read_index os path w)
  unfolding read_index
  read_index_Leaves path w =
      let opened = open_file path w in
      Leaves-call _ opened _ (λ e h. locks.open_keeps w path)
        λ f h.
          let read = read_all f opened.1 in
          let closed : Keeps os locks w (close_file f read.1) =
            close-Keeps os locks w read.1 f (locks.open_fresh w path f h)
              (λ g. locks.read_keeps opened.1 f g ∙ locks.open_keeps w path g) in
          Leaves-call _ (read.0, close_file f read.1) _ (λ e h. closed)
            λ text h.
              Leaves-call _ (os.unmarshal_xml text, close_file f read.1) _ (λ e h. closed)
                λ _ h. gave _ _ closed

  pub missing_Leaves :
      (yaml : List Index) (datadir : Str) (w : World)
      → Leaves
          (Keeps os locks w)
          (λ _. Keeps os locks w)
          (missing_composite_indexes os yaml datadir w)
  unfolding missing_composite_indexes composite_indexes
  missing_Leaves yaml datadir w =
      Leaves-bind _ (Leaves-wrapping _ (read_index_Leaves (index_xml os datadir) w))
        λ xml v k. gave _ v k

  -- Release changes no lock but that of the emulator's own lock file.
  pub release_Leaves :
      (yaml : List Index) (name : Str) (em : DatastoreEmulator) (w : World)
      → Leaves
          (Others os locks w em.lock_file)
          (λ _. Others os locks w em.lock_file)
          (release os yaml name em w)
  unfolding release
  release_Leaves yaml name em w =
      Leaves-bind _
        (Leaves-imp (missing_Leaves yaml (datadir em) w) (λ v k g ne. k g) (λ missing v k. k))
        λ missing v k.
          Leaves-ite (str_discrete missing [])
            (Leaves-call _ (_, close_file em.lock_file (os.unlock em.lock_file v).1) _
              (λ e h. closed v k) λ _ h. gave _ _ (closed v k))
            (failed _ v (λ g ne. k g))
    where
      closed :
          (v : World)
          → Keeps os locks w v
          → Others os locks w em.lock_file (close_file em.lock_file (os.unlock em.lock_file v).1)
      closed v k g ne =
          locks.close_others (os.unlock em.lock_file v).1 em.lock_file g ne
          ∙ locks.unlock_others v em.lock_file g ne
          ∙ k g

module _ (os : Os) (locks : Flocks os) where
  open os use {World, Error}
  open locks use {holds}

  -- An emulator that was locked, or none and the locks of `w`.
  abbrev Scanned : World → Option DatastoreEmulator → World → Type 0
  Scanned w none v = Keeps os locks w v
  Scanned w (some em) v = Acquired os locks w em v

  or_continue_Leaves :
      (w : World) (p : Try Error DatastoreEmulator × World)
      (next : World → Try Error (Option DatastoreEmulator) × World)
      → Leaves (Keeps os locks w) (Acquired os locks w) p
      → ((u : World) → Keeps os locks w u → Leaves (Keeps os locks w) (Scanned w) (next u))
      → Leaves (Keeps os locks w) (Scanned w) (or_continue os p next)
  unfolding or_continue
  or_continue_Leaves w _ next (failed e u k) go = go u k
  or_continue_Leaves w _ next (gave em u took) go = gave (some em) u took
  or_continue_Leaves w _ next (hung u) go = hung u

  lock_first_Leaves :
      (names : List Str) (w : World) → Leaves (Keeps os locks w) (Scanned w) (lock_first os names w)
  unfolding lock_first
  lock_first_Leaves [] w = gave none w (λ g. refl)
  lock_first_Leaves (name ∷ names) w = elim (Bool-cases (has_suffix name (bytes ".json"))) [
    | inr other ↦ rw other (lock_first_Leaves names w)
    | inl lockfile ↦ rw lockfile (
        or_continue_Leaves w (try_lock_emulator os (os.join os.lock_dir_path name) w) _
          (try_lock_Leaves os locks (os.join os.lock_dir_path name) w)
          λ u k.
            Leaves-imp (lock_first_Leaves names u) (λ v l g. l g ∙ k g)
              (λ found v. after u v k found))
  ]
    where
      after :
          (u v : World)
          → Keeps os locks w u
          → (found : Option DatastoreEmulator) → Scanned u found v
          → Scanned w found v
      after u v k none l = λ g. l g ∙ k g
      after u v k (some em) took = Took-before os locks w u v em.lock_file k took

  pub lock_running_Leaves :
      (w : World) → Leaves (Keeps os locks w) (Acquired os locks w) (lock_running_emulator os w)
  unfolding lock_running_emulator
  lock_running_Leaves w =
      let files = os.read_dir os.lock_dir_path w in
      let kept = locks.read_dir_keeps w os.lock_dir_path in
      Leaves-call _ files _ (λ e h. kept)
        λ names h.
          Leaves-bind _
            (Leaves-imp (lock_first_Leaves names files.1) (λ v k g. k g ∙ kept g) (λ found v r. r))
            λ found v r. chosen files.1 kept found v r
    where
      chosen :
          (u : World)
          → Keeps os locks w u
          → (found : Option DatastoreEmulator) (v : World) → Scanned u found v
          → Leaves {E = Error} (Keeps os locks w) (Acquired os locks w) (elim found [
            | some emulator ↦ (done emulator, v)
            | none ↦ (
              fail (
                  os.transient_khan_service none
                    ((bytes "message", bytes "no lock files available") ∷ [])),
              v,
            )
          ])
      chosen u k none v l = failed _ v (λ g. l g ∙ k g)
      chosen u k (some em) v took = gave em v (Took-before os locks w u v em.lock_file k took)

  -- Every lock that is held stays held.
  abbrev pub Grows : World → World → Type 0
  Grows w v = (g n : ℕ) → holds w g ≡ some n → holds v g ≡ some n

  pub Took-Grows : (w v : World) (f : ℕ) → Took os locks w f v → Grows w v
  Took-Grows w v f (free, taken, others) g n h = elim (ℕ_discrete f g) [
    | yes e ↦ absurd (subst (λ k. holds w k ≢ some n) e (λ q. cc) h)
    | no ne ↦ others g ne ∙ h
  ]

  reset_or_start_Leaves :
      (project_id : Str) (w : World) (p : Try Error DatastoreEmulator × World)
      → Leaves (Keeps os locks w) (Acquired os locks w) p
      → Leaves (Grows w) (Acquired os locks w) (reset_or_start os project_id p)
  unfolding reset_or_start start_new reset_running
  reset_or_start_Leaves project_id w _ (failed e u k) = elim (Bool-cases (os.is_transient e)) [
    | inl again ↦ rw again (
        Leaves-imp (Leaves-wrapping _ (start_emulator_Leaves os locks project_id u))
          (λ v l g n h. l g ∙ k g ∙ h)
          (λ em v took. Took-before os locks w u v em.lock_file k took))
    | inr stop ↦ rw stop (failed _ u (λ g n h. k g ∙ h))
  ]
  reset_or_start_Leaves project_id w _ (gave em u took) =
      Leaves-bind _
        (Leaves-wrapping _ (
          Leaves-imp (reset_Leaves os locks em u)
            (λ v k g n h. k g ∙ Took-Grows w u em.lock_file took g n h) (λ _ v k. k)))
        λ _ v k. gave em v (Took-after os locks w u v em.lock_file took k)
  reset_or_start_Leaves project_id w _ (hung u) = hung u

  -- If acquiring returns with an emulator, its lock was taken and the others stay; with an error all
  -- locks stay.
  pub acquire_Leaves :
      (project_id : Str) (w : World)
      → Leaves (Grows w) (Acquired os locks w) (acquire_datastore_emulator os project_id w)
  unfolding acquire_datastore_emulator
  acquire_Leaves project_id w =
      Leaves-bind _
        (reset_or_start_Leaves project_id w (lock_running_emulator os w) (lock_running_Leaves w))
        λ em v took.
          gave em _
            (Took-after os locks w v _ em.lock_file took (clear-Keeps os locks (datadir em) v))
