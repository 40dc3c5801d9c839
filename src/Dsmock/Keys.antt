-- ===== src/Dsmock/Keys.antt =====
-- gcpapi/datastore/dsmock/dsmock.go, `valid`, and `datastore.Key` as far as it reads it. A parent is
-- a pointer; the parent of a key is allocated before it.
use gcp_emulator_pool.Common.{
  ℕ, zero, suc, ◌<◌, ◌≡◌, refl, ap, arith, ℕ_discrete, Bool, true, false, Option, none, some, [],
  if◌then◌else◌, ite, ℤ, pos, ℤ-discrete, Str, str_discrete,
}

pub record Key : Type 0 where
  pub kind : Str
  pub id : ℤ
  pub name : Str
  pub parent : Option ℕ
  pub namespace : Str

-- Go's `==` on keys, which the map uses.
unfoldable pub Key-discrete : Discrete Key
Key-discrete = hlevel (ℕ_discrete, str_discrete, ℤ-discrete)

module _ (incomplete : Key → Bool) (heap : ℕ → Key) where
  -- One round of the loop of `valid`; `rest` are the rounds from the parent on.
  unfoldable pub valid_key : Key → Bool → Bool
  valid_key k rest = ite (str_discrete k.kind []) false (
      ite (str_discrete k.name []) (check_parent k.parent)
        (ite (ℤ-discrete k.id (pos 0)) (check_parent k.parent) false))
    where
      check_parent : Option ℕ → Bool
      check_parent none = true
      check_parent (some p) =
          if incomplete (heap p)
          then false
          else ite (str_discrete (heap p).namespace k.namespace) rest false

  -- The loop, on fuel for the keys up the chain.
  unfoldable pub valid_upto : ℕ → ℕ → Bool
  unfolding valid_key
  valid_upto zero r = false
  valid_upto (suc n) r =
      valid_key (heap r) (elim (heap r).parent [ none ↦ true | some p ↦ valid_upto n p ])

  -- `valid` for a pointer that is not nil: the chain from the key `r` has at most `r + 1` keys.
  unfoldable pub valid : ℕ → Bool
  unfolding valid_upto
  valid r = valid_upto (suc r) r

  -- A key's parent is allocated before the key.
  abbrev pub IsAcyclic : Type 0
  IsAcyclic = (r p : ℕ) → (heap r).parent ≡ some p → p < r

  same_up :
      {f g : ℕ → Bool} (q : Option ℕ)
      → ((p : ℕ) → q ≡ some p → f p ≡ g p)
      → ◌≡◌ {A = Bool}
          (elim q [ none ↦ true | some p ↦ f p ])
          (elim q [ none ↦ true | some p ↦ g p ])
  same_up none up = refl
  same_up (some p) up = up p refl

  valid_upto_stable : IsAcyclic → (n m r : ℕ) → r < n → r < m → valid_upto n r ≡ valid_upto m r
  unfolding valid_upto
  valid_upto_stable h zero m r lt lt' = absurd (omega arith)
  valid_upto_stable h (suc n) zero r lt lt' = absurd (omega arith)
  valid_upto_stable h (suc n) (suc m) r lt lt' = ap (valid_key (heap r)) (
      same_up (heap r).parent
        λ p e. let below = h r p e in valid_upto_stable h n m p (omega arith) (omega arith))

  -- More fuel changes nothing, so the loop of `valid` ends with its answer.
  pub valid_upto-valid : IsAcyclic → (n r : ℕ) → r < n → valid_upto n r ≡ valid r
  unfolding valid
  valid_upto-valid h n r lt = valid_upto_stable h n (suc r) r lt (omega arith)
