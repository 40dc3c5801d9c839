-- ===== src/Dstest/Interleaving/Ownership.antt =====
-- Two processes do not work with the same lock file, however their system calls interleave
-- (gcpapi/datastore/dstest/datastore_emulator.go).
use gcp_emulator_pool.Common.{
  ℕ, ℕ_discrete, ◌≡◌, ◌≢◌, ◌⊎◌, refl, sym, ap, subst, ◌∙◌, inl, inr, Option, none, some, update,
  update_at, update_ne,
}
use gcp_emulator_pool.Dstest.Os.{Os, Flocks}
use gcp_emulator_pool.Dstest.Locking.Starting.{DatastoreEmulator}
use gcp_emulator_pool.Dstest.Interleaving.{
  Stage, idle, opened, created, taken, closing, owns, descriptor, Processes, IsUnused, moves, Call,
  TryLockCall, StartCall, tries, begins, exits, opens, creates, locks_opened, is_refused,
  locks_created, fails, returns, rejects, closes, unlocks, lets_go, calls, Trace, start, then_call,
}

-- The descriptor, where it must hold its file's lock.
abbrev locked_descriptor : Stage → Option ℕ
locked_descriptor (taken f) = some f
locked_descriptor (owns em) = some em.lock_file
locked_descriptor st = none

locked_descriptor-descriptor :
    (st : Stage) (f : ℕ) → locked_descriptor st ≡ some f → descriptor st ≡ some f
locked_descriptor-descriptor idle f h = absurd (cc)
locked_descriptor-descriptor (opened g) f h = absurd (cc)
locked_descriptor-descriptor (created g) f h = absurd (cc)
locked_descriptor-descriptor (taken g) f h = h
locked_descriptor-descriptor (closing g) f h = absurd (cc)
locked_descriptor-descriptor (owns em) f h = h

module _ (os : Os) (locks : Flocks os) where
  open locks use {holds}

  record Owned (s : Processes os) : Type 0 where
    pub locked :
        (i f : ℕ) → locked_descriptor (s.stage i) ≡ some f → (n : ℕ) × (holds s.world f ≡ some n)
    pub own :
        (i j f : ℕ) → descriptor (s.stage i) ≡ some f → descriptor (s.stage j) ≡ some f → i ≡ j

  -- A step of the process `i` to the stage `st` and the world `w`.
  moves-Owned :
      (s : Processes os) (i : ℕ) (st : Stage) (w : os.World)
      → ((f : ℕ) → descriptor st ≡ some f → (descriptor (s.stage i) ≡ some f) ⊎ IsUnused s f)
      → ((j f : ℕ) → i ≢ j → descriptor (s.stage j) ≡ some f → holds w f ≡ holds s.world f)
      → ((f : ℕ) → locked_descriptor st ≡ some f → (n : ℕ) × (holds w f ≡ some n))
      → Owned s
      → Owned (moves s i st w)
  moves-Owned s i st w kept others mine inv = record {
    locked = λ j f h. elim (ℕ_discrete i j) [
      | yes e ↦ mine f (sym (ap locked_descriptor (update_at s.stage i st j e)) ∙ h)
      | no ne ↦
          let h' = sym (ap locked_descriptor (update_ne s.stage i j st ne)) ∙ h in
          let (n, l) = inv.locked j f h' in
          (n, others j f ne (locked_descriptor-descriptor (s.stage j) f h') ∙ l)
    ];
    own = λ j k f h h'. elim (ℕ_discrete i j) [
      | yes e ↦ elim (ℕ_discrete i k) [
        | yes e' ↦ sym e ∙ e'
        | no ne' ↦ sym e ∙ at_other k f ne' (here j f e h) (there k f ne' h')
      ]
      | no ne ↦ elim (ℕ_discrete i k) [
        | yes e' ↦ sym (at_other j f ne (here k f e' h') (there j f ne h)) ∙ e'
        | no ne' ↦ inv.own j k f (there j f ne h) (there k f ne' h')
      ]
    ];
  }
    where
      here :
          (j f : ℕ) → i ≡ j → descriptor (update s.stage i st j) ≡ some f → descriptor st ≡ some f
      here j f e h = sym (ap descriptor (update_at s.stage i st j e)) ∙ h

      there :
          (j f : ℕ)
          → i ≢ j
          → descriptor (update s.stage i st j) ≡ some f
          → descriptor (s.stage j) ≡ some f
      there j f ne h = sym (ap descriptor (update_ne s.stage i j st ne)) ∙ h

      at_other :
          (j f : ℕ) → i ≢ j → descriptor st ≡ some f → descriptor (s.stage j) ≡ some f → i ≡ j
      at_other j f ne h h' = elim (kept f h) [
        | inl same ↦ inv.own i j f same h'
        | inr unused ↦ absurd (unused j h')
      ]

  -- A descriptor that the process keeps, and one that it takes from the unused ones.
  keeps_it :
      (s : Processes os) (i f : ℕ)
      → descriptor (s.stage i) ≡ some f
      → (g : ℕ) → some f ≡ some g
      → (descriptor (s.stage i) ≡ some g) ⊎ IsUnused s g
  keeps_it s i f h g e = inl (h ∙ e)

  takes_it :
      (s : Processes os) (i f : ℕ)
      → IsUnused s f
      → (g : ℕ) → some f ≡ some g
      → (descriptor (s.stage i) ≡ some g) ⊎ IsUnused s g
  takes_it s i f unused g e = inr (λ j h. unused j (h ∙ sym e))

  -- The descriptors of two processes differ.
  differ :
      (s : Processes os) (i j f g : ℕ)
      → Owned s
      → descriptor (s.stage i) ≡ some f
      → i ≢ j
      → descriptor (s.stage j) ≡ some g
      → f ≢ g
  differ s i j f g inv h ne h' e = ne (inv.own i j g (h ∙ ap some e) h')

  held_by :
      (w : os.World) (f : ℕ)
      → (n : ℕ) × (holds w f ≡ some n)
      → (g : ℕ) → some f ≡ some g
      → (n : ℕ) × (holds w g ≡ some n)
  held_by w f h g e = subst (λ k. (n : ℕ) × (holds w k ≡ some n)) (cc) h

  TryLockCall-Owned : {s t : Processes os} → TryLockCall os locks s t → Owned s → Owned t
  TryLockCall-Owned {s} (opens i path f h ok unused) inv =
      moves-Owned s i (opened f) _ (takes_it s i f unused)
        (λ j g ne h'. locks.open_keeps s.world path g) (λ g q. absurd (cc)) inv
  TryLockCall-Owned {s} (locks_opened i f h ok) inv =
      moves-Owned s i (taken f) _ (keeps_it s i f (ap descriptor h))
        (λ j g ne h'.
          locks.try_flock_others s.world f g (differ s i j f g inv (ap descriptor h) ne h'))
        (held_by _ f (locks.try_flock_takes s.world f ok)) inv
  TryLockCall-Owned {s} (is_refused i f e h ok) inv =
      moves-Owned s i (closing f) _ (keeps_it s i f (ap descriptor h))
        (λ j g ne h'.
          locks.try_flock_others s.world f g (differ s i j f g inv (ap descriptor h) ne h'))
        (λ g q. absurd (cc)) inv

  StartCall-Owned : {s t : Processes os} → StartCall os locks s t → Owned s → Owned t
  StartCall-Owned {s} (creates i path f h ok unused) inv =
      moves-Owned s i (created f) _ (takes_it s i f unused)
        (λ j g ne h'. locks.create_keeps s.world path g) (λ g q. absurd (cc)) inv
  StartCall-Owned {s} (locks_created i f h ok) inv =
      moves-Owned s i (taken f) _ (keeps_it s i f (ap descriptor h))
        (λ j g ne h'. locks.flock_others s.world f g (differ s i j f g inv (ap descriptor h) ne h'))
        (held_by _ f (locks.flock_takes s.world f ok)) inv
  StartCall-Owned {s} (fails i f e h ok) inv =
      moves-Owned s i (closing f) _ (keeps_it s i f (ap descriptor h))
        (λ j g ne h'. locks.flock_others s.world f g (differ s i j f g inv (ap descriptor h) ne h'))
        (λ g q. absurd (cc)) inv

  Call-Owned : {s t : Processes os} → Call os locks s t → Owned s → Owned t
  Call-Owned (tries c) inv = TryLockCall-Owned c inv
  Call-Owned (begins c) inv = StartCall-Owned c inv
  Call-Owned {s} (returns i em h) inv =
      moves-Owned s i (owns em) s.world (keeps_it s i em.lock_file (ap descriptor h))
        (λ j g ne h'. refl)
        (held_by s.world em.lock_file (inv.locked i em.lock_file (ap locked_descriptor h))) inv
  Call-Owned {s} (rejects i f h) inv =
      moves-Owned s i (closing f) s.world (keeps_it s i f (ap descriptor h)) (λ j g ne h'. refl)
        (λ g q. absurd (cc)) inv
  Call-Owned {s} (closes i f h) inv =
      moves-Owned s i idle _ (λ g q. absurd (cc))
        (λ j g ne h'. locks.close_others s.world f g (differ s i j f g inv (ap descriptor h) ne h'))
        (λ g q. absurd (cc)) inv
  Call-Owned {s} (exits i f h) inv =
      moves-Owned s i idle _ (λ g q. absurd (cc))
        (λ j g ne h'. locks.close_others s.world f g (differ s i j f g inv h ne h'))
        (λ g q. absurd (cc)) inv
  Call-Owned {s} (unlocks i em h) inv =
      moves-Owned s i (closing em.lock_file) _ (keeps_it s i em.lock_file (ap descriptor h))
        (λ j g ne h'.
          locks.unlock_others s.world em.lock_file g
            (differ s i j em.lock_file g inv (ap descriptor h) ne h'))
        (λ g q. absurd (cc)) inv
  Call-Owned {s} (lets_go i em h) inv =
      moves-Owned s i idle s.world (λ g q. absurd (cc)) (λ j g ne h'. refl) (λ g q. absurd (cc)) inv
  Call-Owned {s} (calls w same) inv = record {
    locked = λ i f h. let (n, l) = inv.locked i f h in (n, same f ∙ l);
    own = inv.own;
  }

  Trace-Owned : {s : Processes os} → Trace os locks s → Owned s
  Trace-Owned (start w) = record { locked = λ i f h. absurd (cc); own = λ i j f h h'. absurd (cc) }
  Trace-Owned (then_call r c) = Call-Owned c (Trace-Owned r)

  -- No two processes work with one lock file, even if they take turns after every system call: two
  -- that work with an emulator hold the locks of two different files.
  pub owners_apart :
      {s : Processes os} (i j : ℕ) (em em' : DatastoreEmulator)
      → Trace os locks s
      → s.stage i ≡ owns em
      → s.stage j ≡ owns em'
      → i ≢ j
      → (n : ℕ) × (m : ℕ) × (holds s.world em.lock_file ≡ some n)
        × (holds s.world em'.lock_file ≡ some m)
        × (n ≢ m)
  owners_apart {s} i j em em' r h h' ne =
      let inv = Trace-Owned r in
      let (n, l) = inv.locked i em.lock_file (ap locked_descriptor h) in
      let (m, l') = inv.locked j em'.lock_file (ap locked_descriptor h') in
      (
        n,
        m,
        l,
        l',
        λ e. differ s i j em.lock_file em'.lock_file inv (ap descriptor h) ne (ap descriptor h') (
            locks.exclusive s.world em.lock_file em'.lock_file n l
              (subst (λ k. holds s.world em'.lock_file ≡ some k) (sym e) l')),
      )
