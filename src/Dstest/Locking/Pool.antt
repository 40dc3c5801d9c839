-- ===== src/Dstest/Locking/Pool.antt =====
-- The pool: processes that acquire, reset and release emulators, in any order
-- (gcpapi/datastore/dstest/datastore_emulator.go).
use gcp_emulator_pool.Common.{
  ℕ, ℕ_discrete, ◌≡◌, ◌≢◌, sym, ◌∙◌, ◌⊎◌, inl, inr, subst, Option, none, some, List, Str, update,
  update_at, update_ne,
}
use gcp_emulator_pool.Dstest.Os.{Os, Flocks, Index}
use gcp_emulator_pool.Dstest.Calls.{Try, fail, done, hangs}
use gcp_emulator_pool.Dstest.Calls.Outcome.{After, Leaves, Leaves-After, Leaves-returned}
use gcp_emulator_pool.Dstest.Locking.Starting.{DatastoreEmulator}
use gcp_emulator_pool.Dstest.Locking.{reset, release, acquire_datastore_emulator}
use gcp_emulator_pool.Dstest.Locking.Locks.{Others, Took}
use gcp_emulator_pool.Dstest.Locking.Acquiring.{
  Grows, Took-Grows, acquire_Leaves, reset_Leaves, release_Leaves,
}

-- `held i` is the emulator that the process `i` works with.
pub record Pool (os : Os) : Type 0 where
  pub world : os.World
  pub held : ℕ → Option DatastoreEmulator

-- A call of one process that returns. A release that fails lets go of the emulator as well, and a
-- process that ends has its lock file closed.
pub data Step (os : Os) (s : Pool os) : Pool os → Type 0 where
  acquires :
      (i : ℕ) (project_id : Str) (em : DatastoreEmulator) (w : os.World)
      → s.held i ≡ none
      → acquire_datastore_emulator os project_id s.world ≡ (done em, w)
      → Step os s (record { world = w; held = update s.held i (some em) })
  fails :
      (project_id : Str) (e : os.Error) (w : os.World)
      → acquire_datastore_emulator os project_id s.world ≡ (fail e, w)
      → Step os s (record { world = w; held = s.held })
  resets :
      (i : ℕ) (em : DatastoreEmulator) (result : Try os.Error Unit) (w : os.World)
      → s.held i ≡ some em
      → reset os em s.world ≡ (result, w)
      → result ≢ hangs
      → Step os s (record { world = w; held = s.held })
  releases :
      (i : ℕ) (em : DatastoreEmulator) (yaml : List Index) (name : Str) (result : Try os.Error Unit)
      (w : os.World)
      → s.held i ≡ some em
      → release os yaml name em s.world ≡ (result, w)
      → result ≢ hangs
      → Step os s (record { world = w; held = update s.held i none })
  ends :
      (i : ℕ) (em : DatastoreEmulator)
      → s.held i ≡ some em
      → Step os s
          (record { world = os.close_file em.lock_file s.world; held = update s.held i none })

pub data Reach (os : Os) : Pool os → Type 0 where
  start : (w : os.World) → Reach os (record { world = w; held = λ i. none })
  later : {s t : Pool os} → Reach os s → Step os s t → Reach os t

updated :
    {A : Type 0} (h : ℕ → Option A) (i : ℕ) (a : Option A) (j : ℕ) {b : A}
    → update h i a j ≡ some b
    → ((i ≡ j) × (a ≡ some b)) ⊎ ((i ≢ j) × (h j ≡ some b))
updated h i a j e = elim (ℕ_discrete i j) [
  | yes same ↦ inl (same, sym (update_at h i a j same) ∙ e)
  | no other ↦ inr (other, sym (update_ne h i j a other) ∙ e)
]

module _ (os : Os) (locks : Flocks os) where
  open locks use {holds}

  -- Every process holds the lock of its emulator, on a descriptor of its own.
  record Apart (s : Pool os) : Type 0 where
    pub locked :
        (i : ℕ) (em : DatastoreEmulator)
        → s.held i ≡ some em
        → (n : ℕ) × (holds s.world em.lock_file ≡ some n)
    pub own :
        (i j : ℕ) (em em' : DatastoreEmulator)
        → s.held i ≡ some em
        → s.held j ≡ some em'
        → em.lock_file ≡ em'.lock_file
        → i ≡ j

  Grows-Apart :
      (s : Pool os) (w : os.World)
      → Grows os locks s.world w
      → Apart s
      → Apart (record { world = w; held = s.held })
  Grows-Apart s w g inv = record {
    locked = λ i em h. let (n, l) = inv.locked i em h in (n, g em.lock_file n l);
    own = inv.own;
  }

  acquires-Apart :
      (s : Pool os) (i : ℕ) (em : DatastoreEmulator) (w : os.World)
      → Took os locks s.world em.lock_file w
      → Apart s
      → Apart (record { world = w; held = update s.held i (some em) })
  acquires-Apart s i em w took inv = record {
    locked = λ j em' h. elim (updated s.held i (some em) j h) [
      | inl (_, e) ↦ subst (λ m. (n : ℕ) × (holds w m.lock_file ≡ some n)) (same e) took.1
      | inr (_, e) ↦
          let (n, l) = inv.locked j em' e in
          (n, Took-Grows os locks s.world w em.lock_file took em'.lock_file n l)
    ];
    own = λ j k em' em'' h h' e. elim (updated s.held i (some em) j h) [
      | inl (p, a) ↦ elim (updated s.held i (some em) k h') [
        | inl (q, b) ↦ sym p ∙ q
        | inr (q, b) ↦
            absurd (fresh k em'' b (subst (λ m. m.lock_file ≡ em''.lock_file) (sym (same a)) e))
      ]
      | inr (p, a) ↦ elim (updated s.held i (some em) k h') [
        | inl (q, b) ↦
            absurd (fresh j em' a (subst (λ m. m.lock_file ≡ em'.lock_file) (sym (same b)) (sym e)))
        | inr (q, b) ↦ inv.own j k em' em'' a b e
      ]
    ];
  }
    where
      same : {a b : DatastoreEmulator} → some a ≡ some b → a ≡ b
      same e = cc

      fresh : (j : ℕ) (em' : DatastoreEmulator) → s.held j ≡ some em' → em.lock_file ≢ em'.lock_file
      fresh j em' h e =
          let (n, l) = inv.locked j em' h in subst (λ f. holds s.world f ≢ some n) e (λ q. cc) l

  lets_go-Apart :
      (s : Pool os) (i : ℕ) (em : DatastoreEmulator) (w : os.World)
      → s.held i ≡ some em
      → Others os locks s.world em.lock_file w
      → Apart s
      → Apart (record { world = w; held = update s.held i none })
  lets_go-Apart s i em w h others inv = record {
    locked = λ j em' h'. elim (updated s.held i none j h') [
      | inl (_, e) ↦ absurd (cc)
      | inr (p, e) ↦
          let (n, l) = inv.locked j em' e in
          (n, others em'.lock_file (λ f. p (inv.own i j em em' h e f)) ∙ l)
    ];
    own = λ j k em' em'' h' h'' e. elim (updated s.held i none j h') [
      | inl (_, a) ↦ absurd (cc)
      | inr (_, a) ↦ elim (updated s.held i none k h'') [
        | inl (_, b) ↦ absurd (cc)
        | inr (_, b) ↦ inv.own j k em' em'' a b e
      ]
    ];
  }

  Step-Apart : {s t : Pool os} → Step os s t → Apart s → Apart t
  Step-Apart {s} (acquires i project_id em w free e) inv =
      acquires-Apart s i em w
        (subst (After _ _) e (Leaves-After (acquire_Leaves os locks project_id s.world))) inv
  Step-Apart {s} (fails project_id e w f) inv =
      Grows-Apart s w
        (subst (After _ _) f (Leaves-After (acquire_Leaves os locks project_id s.world))) inv
  Step-Apart {s} (resets i em result w h e back) inv =
      Grows-Apart s w
        (λ g n l.
          Leaves-returned (subst (Leaves _ _) e (reset_Leaves os locks em s.world)) back g ∙ l)
        inv
  Step-Apart {s} (releases i em yaml name result w h e back) inv =
      lets_go-Apart s i em w h
        (Leaves-returned (subst (Leaves _ _) e (release_Leaves os locks yaml name em s.world)) back)
        inv
  Step-Apart {s} (ends i em h) inv =
      lets_go-Apart s i em _ h (locks.close_others s.world em.lock_file) inv

  Reach-Apart : {s : Pool os} → Reach os s → Apart s
  Reach-Apart (start w) = record { locked = λ i em h. cc; own = λ i j em em' h h' e. cc }
  Reach-Apart (later r st) = Step-Apart st (Reach-Apart r)

  -- Two processes never work with one emulator's lock file: however processes acquire, fail to
  -- acquire, reset, release and end, in any order, two that have an emulator hold the locks of two
  -- different files. It is for calls that run one after the other.
  pub emulators_apart :
      {s : Pool os} (i j : ℕ) (em em' : DatastoreEmulator)
      → Reach os s
      → s.held i ≡ some em
      → s.held j ≡ some em'
      → i ≢ j
      → (n : ℕ) × (m : ℕ) × (holds s.world em.lock_file ≡ some n)
        × (holds s.world em'.lock_file ≡ some m)
        × (n ≢ m)
  emulators_apart {s} i j em em' r h h' ne =
      let (n, l) = (Reach-Apart r).locked i em h in
      let (m, l') = (Reach-Apart r).locked j em' h' in
      (
        n,
        m,
        l,
        l',
        λ e. ne (
            (Reach-Apart r).own i j em em' h h' (
              locks.exclusive s.world em.lock_file em'.lock_file n l
                (subst (λ k. holds s.world em'.lock_file ≡ some k) (sym e) l'))),
      )
