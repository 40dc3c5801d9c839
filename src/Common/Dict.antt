-- ===== src/Common/Dict.antt =====
-- Go maps as association lists, a key at most once (`IsMap`), and heaps of mutable objects. A loop
-- `range m` visits the entries in the order of the list. Go leaves that order open, so a statement
-- over every list of entries covers every order.
use Prim.Native.Nat.{ℕ}
use mathlib.Core.Path.{◌≡◌, refl, ap, subst, ◌∙◌}
use mathlib.Core.Logic.{◌≢◌, ite, if_pos, if_neg}
use mathlib.Core.Option.{Option, none, some}
use mathlib.Core.List.{List, [], ◌∷◌}
use native.Mathlib.Omega.{arith}
use gcp_emulator_pool.Common.Lists.{All}
use native.Mathlib.Decide.{ℕ_discrete}

module _ {ℓ} {K V : Type ℓ} (dec : Discrete K) where
  unfoldable pub lookup : K → List (K × V) → Option V
  lookup k [] = none
  lookup k ((j, v) ∷ m) = ite (dec j k) (some v) (lookup k m)

  unfoldable pub insert : K → V → List (K × V) → List (K × V)
  insert k v [] = (k, v) ∷ []
  insert k v ((j, w) ∷ m) = ite (dec j k) ((k, v) ∷ m) ((j, w) ∷ insert k v m)

  unfoldable pub delete : K → List (K × V) → List (K × V)
  delete k [] = []
  delete k ((j, w) ∷ m) = ite (dec j k) (delete k m) ((j, w) ∷ delete k m)

  abbrev pub IsMap : List (K × V) → Type ℓ
  IsMap [] = Unit
  IsMap ((k, v) ∷ m) = (lookup k m ≡ none) × IsMap m

  pub lookup-insert :
      (k j : K) (v : V) (m : List (K × V))
      → lookup j (insert k v m) ≡ ite (dec k j) (some v) (lookup j m)
  unfolding lookup insert
  lookup-insert k j v [] = refl
  lookup-insert k j v ((i, w) ∷ m) = ground (arith, lookup-insert k j v m)

  pub lookup-delete :
      (k j : K) (m : List (K × V)) → lookup j (delete k m) ≡ ite (dec k j) none (lookup j m)
  unfolding lookup delete
  lookup-delete k j [] = ground arith
  lookup-delete k j ((i, w) ∷ m) = ground (arith, lookup-delete k j m)

  pub insert-IsMap : (k : K) (v : V) (m : List (K × V)) → IsMap m → IsMap (insert k v m)
  unfolding insert lookup
  insert-IsMap k v [] h = (refl, tt)
  insert-IsMap k v ((i, w) ∷ m) h = ground (arith, lookup-insert k i v m, insert-IsMap k v m)

  pub delete-IsMap : (k : K) (m : List (K × V)) → IsMap m → IsMap (delete k m)
  unfolding delete
  delete-IsMap k [] h = tt
  delete-IsMap k ((i, w) ∷ m) h = ground (arith, lookup-delete k i m, delete-IsMap k m)

  -- The keys in the order of the list.
  abbrev pub keys : List (K × V) → List K
  keys [] = []
  keys ((k, v) ∷ m) = k ∷ keys m

  -- A loop `range m` whose body may change the entry, or delete it (`none`).
  unfoldable pub update_entries : (K → V → Option V) → List (K × V) → List (K × V)
  update_entries f [] = []
  update_entries f ((k, v) ∷ m) =
      let rest = update_entries f m in elim (f k v) [ none ↦ rest | some w ↦ (k, w) ∷ rest ]

  -- What such a loop leaves at a key depends on the entry there alone, in whatever order it ran.
  pub lookup-update_entries :
      (f : K → V → Option V) (k : K) (m : List (K × V))
      → IsMap m
      → lookup k (update_entries f m) ≡ elim (lookup k m) [ none ↦ none | some v ↦ f k v ]
  unfolding lookup update_entries
  lookup-update_entries f k [] h = refl
  lookup-update_entries f k ((j, v) ∷ m) h = ground (arith, lookup-update_entries f k m h.1)

  pub update_entries-IsMap :
      (f : K → V → Option V) (m : List (K × V)) → IsMap m → IsMap (update_entries f m)
  unfolding update_entries
  update_entries-IsMap f [] h = tt
  update_entries-IsMap f ((j, v) ∷ m) h =
      ground (arith, update_entries-IsMap f m h.1, lookup-update_entries f j m h.1)

module _ {ℓ κ} {K V : Type ℓ} (dec : Discrete K) (P : K × V → Type κ) where
  pub All-insert :
      (k : K) (v : V) (m : List (K × V)) → P (k, v) → All P m → All P (insert dec k v m)
  unfolding insert
  All-insert k v [] p h = (p, tt)
  All-insert k v ((j, w) ∷ m) p h = elim (dec j k) [
    | yes e ↦ rw (if_pos _ e) (p, h.1)
    | no ne ↦ rw (if_neg _ ne) (h.0, All-insert k v m p h.1)
  ]

  pub All-delete : (k : K) (m : List (K × V)) → All P m → All P (delete dec k m)
  unfolding delete
  All-delete k [] h = tt
  All-delete k ((j, w) ∷ m) h = elim (dec j k) [
    | yes e ↦ rw (if_pos _ e) (All-delete k m h.1)
    | no ne ↦ rw (if_neg _ ne) (h.0, All-delete k m h.1)
  ]

  pub All-lookup : (k : K) (m : List (K × V)) {v : V} → All P m → lookup dec k m ≡ some v → P (k, v)
  unfolding lookup
  All-lookup k [] h e = absurd (cc)
  All-lookup k ((j, w) ∷ m) {v} h e = elim (dec j k) [
    | yes eq ↦ subst P (ground arith) h.0
    | no ne ↦ All-lookup k m h.1 (ground arith)
  ]

-- A heap holds the objects that pointers name. The references below a counter of the state are
-- allocated; the value at any other reference is never read.
unfoldable pub update {ℓ} : {A : Type ℓ} → (ℕ → A) → ℕ → A → ℕ → A
update heap r a q = ite (ℕ_discrete r q) a (heap q)

pub update_self {ℓ} : {A : Type ℓ} (heap : ℕ → A) (r : ℕ) (a : A) → update heap r a r ≡ a
unfolding update
update_self heap r a = if_pos _ refl a (heap r)

pub update_at {ℓ} :
    {A : Type ℓ} (heap : ℕ → A) (r : ℕ) (a : A) (q : ℕ) → r ≡ q → update heap r a q ≡ a
unfolding update
update_at heap r a q e = if_pos _ e a (heap q)

pub update_ne {ℓ} :
    {A : Type ℓ} (heap : ℕ → A) (r q : ℕ) (a : A) → r ≢ q → update heap r a q ≡ heap q
unfolding update
update_ne heap r q a h = if_neg _ h a (heap q)

-- A field that a write leaves as it was is the same at every reference.
pub update_field {ℓ κ} :
    {A : Type ℓ} {B : Type κ} (f : A → B) (heap : ℕ → A) (r : ℕ) (a : A)
    → f a ≡ f (heap r)
    → (q : ℕ) → f (update heap r a q) ≡ f (heap q)
update_field f heap r a h q = elim (ℕ_discrete r q) [
  | yes e ↦ subst (λ k. f (update heap r a k) ≡ f (heap k)) e (ap f (update_self heap r a) ∙ h)
  | no ne ↦ ap f (update_ne heap r q a ne)
]
