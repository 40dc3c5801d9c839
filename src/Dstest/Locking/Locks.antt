-- ===== src/Dstest/Locking/Locks.antt =====
-- Which locks the functions of gcpapi/datastore/dstest/datastore_emulator.go take and leave.
use gcp_emulator_pool.Common.{
  ℕ, zero, suc, ◌+◌, ◌≡◌, ◌≢◌, refl, sym, subst, ◌∙◌, ℕ_discrete, arith, inl, inr, Option, none,
  some, Str, bytes, Bool-cases, Sum-cases, ◌++◌,
}
use gcp_emulator_pool.Dstest.Os.{Os, Flocks}
use gcp_emulator_pool.Dstest.Calls.{Try-cases}
use gcp_emulator_pool.Dstest.Calls.Outcome.{Leaves, Leaves-always}
use gcp_emulator_pool.Dstest.Startup.{
  check_emulator_connection, poll, connect, attach_logs, wait_for_startup, startup_timeout,
  polling_interval, max_polls, returned,
}

module _ (os : Os) (locks : Flocks os) where
  open os use {World, Error, await, request, open_file, read_all, close_file}
  open locks use {holds}

  -- No lock is taken or dropped between the two states.
  abbrev pub Keeps : World → World → Type 0
  Keeps w v = (g : ℕ) → holds v g ≡ holds w g

  check-Keeps : (addr : Str) (w : World) → Keeps w (check_emulator_connection os addr w).1
  unfolding check_emulator_connection
  check-Keeps addr w g =
      ground (arith, locks.request_keeps w (bytes "GET") (bytes "http://" ++ addr) g)

  poll-Keeps : (n deadline : ℕ) (addr : Str) (w : World) → Keeps w (poll os n deadline addr w).1
  unfolding poll
  poll-Keeps zero deadline addr w g = refl
  poll-Keeps (suc n) deadline addr w g =
      let ticked = (await polling_interval deadline w).1 in
      let checked = check_emulator_connection os addr ticked in
      ground (
        arith,
        locks.await_keeps w polling_interval deadline g,
        check-Keeps addr ticked g,
        poll-Keeps n deadline addr checked.1 g,
      )

  -- A file that is opened without a lock can be closed again.
  pub close-Keeps : (w v : World) (f : ℕ) → holds w f ≡ none → Keeps w v → Keeps w (close_file f v)
  close-Keeps w v f fresh same g = elim (ℕ_discrete f g) [
    | yes e ↦
        subst (λ k. holds (close_file f v) k ≡ holds w k) e (locks.close_drops v f ∙ sym fresh)
    | no ne ↦ locks.close_others v f g ne ∙ same g
  ]

  connect-Keeps : (addr : Str) (w : World) → Keeps w (connect os addr w).1
  unfolding connect
  connect-Keeps addr w =
      let checked = check_emulator_connection os addr w in
      elim (Bool-cases checked.0.0) [
        | inr stop ↦ rw stop (returned_Keeps checked.0.1 checked.1 (check-Keeps addr w))
        | inl again ↦ rw again (λ g.
            poll-Keeps max_polls (os.now w + startup_timeout) addr checked.1 g
            ∙ check-Keeps addr w g)
      ]
    where
      returned_Keeps : (err : Option Error) (v : World) → Keeps w v → Keeps w (returned os err v).1
      returned_Keeps none v h = h
      returned_Keeps (some e) v h = h

  attach_logs-Keeps : (name : Str) (e : Error) (w : World) → Keeps w (attach_logs os name e w).1
  unfolding attach_logs
  attach_logs-Keeps name e w g = elim (Sum-cases (open_file name w).0) [
    | inl (_, h) ↦ rw (h, attach_logs) (locks.open_keeps w name g)
    | inr (f, h) ↦
        rw (h, attach_logs)
          (ground (
            arith,
            close-Keeps w (read_all f (open_file name w).1).1 f (locks.open_fresh w name f h)
                (λ k. locks.read_keeps (open_file name w).1 f k ∙ locks.open_keeps w name k) g,
          ))
  ]

  wait-Keeps : (addr name : Str) (w : World) → Keeps w (wait_for_startup os addr name w).1
  unfolding wait_for_startup
  wait-Keeps addr name w g = elim (Try-cases (connect os addr w).0) [
    | inl (e, h) ↦
        rw (h, wait_for_startup)
          (attach_logs-Keeps name e (connect os addr w).1 g ∙ connect-Keeps addr w g)
    | inr (inl (a, h)) ↦ rw (h, wait_for_startup) (connect-Keeps addr w g)
    | inr (inr h) ↦ rw (h, wait_for_startup) (connect-Keeps addr w g)
  ]

  -- The locks other than that of `f` are what they were.
  abbrev pub Others : World → ℕ → World → Type 0
  Others w f v = (g : ℕ) → f ≢ g → holds v g ≡ holds w g

  -- From `w` to `v` the descriptor `f`, which held no lock, takes one, and no other lock changes.
  abbrev pub Took : World → ℕ → World → Type 0
  Took w f v = (holds w f ≡ none) × ((n : ℕ) × (holds v f ≡ some n)) × Others w f v

  pub Took-before : (w u v : World) (f : ℕ) → Keeps w u → Took u f v → Took w f v
  Took-before w u v f k (free, held, rest) = (sym (k f) ∙ free, held, λ g ne. rest g ne ∙ k g)

  pub Took-after : (w u v : World) (f : ℕ) → Took w f u → Keeps u v → Took w f v
  Took-after w u v f (free, (n, held), rest) k = (free, (n, k f ∙ held), λ g ne. k g ∙ rest g ne)

  pub close-Others :
      (w v : World) (f : ℕ) → holds w f ≡ none → Others w f v → Keeps w (close_file f v)
  close-Others w v f fresh same g = elim (ℕ_discrete f g) [
    | yes e ↦
        subst (λ k. holds (close_file f v) k ≡ holds w k) e (locks.close_drops v f ∙ sym fresh)
    | no ne ↦ locks.close_others v f g ne ∙ same g ne
  ]

  -- The wait for an emulator takes and drops no lock.
  pub wait_Leaves :
      (addr name : Str) (w : os.World)
      → Leaves (Keeps w) (λ _. Keeps w) (wait_for_startup os addr name w)
  wait_Leaves addr name w = Leaves-always (wait_for_startup os addr name w) (wait-Keeps addr name w)
