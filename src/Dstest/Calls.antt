-- ===== src/Dstest/Calls.antt =====
-- Sequences of calls, as the functions of gcpapi/datastore/dstest make them: an early return on an
-- error, and deferred clean-up. The strings functions of Go that they use.
pub mod Outcome
use gcp_emulator_pool.Common.{
  ℕ, ◌≡◌, refl, ◌⊎◌, inl, inr, Bool, true, false, ◌||◌, Option, none, some, List, [], ◌∷◌, ◌++◌,
  if◌then◌else◌, Str, has_prefix, str_discrete, drop, length, ite,
}
use gcp_emulator_pool.Dstest.Os.{Answer}

-- The result of a function: an error, a value, or no result, as its loop did not end.
pub data Try (E A : Type 0) : Type 0 where
  fail : E → Try E A
  done : A → Try E A
  hangs : Try E A

pub Try-cases :
    {E A : Type 0} (t : Try E A)
    → ((e : E) × (t ≡ fail e)) ⊎ (((a : A) × (t ≡ done a)) ⊎ (t ≡ hangs))
Try-cases (fail e) = inl (e, refl)
Try-cases (done a) = inr (inl (a, refl))
Try-cases hangs = inr (inr refl)

module _ {W E A B : Type 0} where
  -- `a, err := ...; if err != nil { return err }`
  unfoldable pub bind : Try E A × W → (A → W → Try E B × W) → Try E B × W
  bind (fail e, w) k = (fail e, w)
  bind (done a, w) k = k a w
  bind (hangs, w) k = (hangs, w)

  -- The same for a call of the system, whose error is returned as `f` wraps it.
  unfoldable pub call : (E → E) → Answer E A × W → (A → W → Try E B × W) → Try E B × W
  call f (inl e, w) k = (fail (f e), w)
  call f (inr a, w) k = k a w

module _ {W E A : Type 0} where
  -- A function whose deferred clean-up runs if it returns an error.
  unfoldable pub on_error : (W → W) → Try E A × W → Try E A × W
  on_error f (fail e, w) = (fail e, f w)
  on_error f (done a, w) = (done a, w)
  on_error f (hangs, w) = (hangs, w)

  -- `if err != nil { return errors.Wrap(err, ...) }`
  unfoldable pub wrapping : (E → E) → Try E A × W → Try E A × W
  wrapping f (fail e, w) = (fail (f e), w)
  wrapping f (done a, w) = (done a, w)
  wrapping f (hangs, w) = (hangs, w)

-- `strings.HasSuffix`.
unfoldable pub has_suffix : Str → Str → Bool
has_suffix [] p = ite (str_discrete [] p) true false
has_suffix (c ∷ s) p = ite (str_discrete (c ∷ s) p) true (has_suffix s p)

-- `strings.Contains`.
unfoldable pub contains : Str → Str → Bool
contains [] p = has_prefix [] p
contains (c ∷ s) p = has_prefix (c ∷ s) p || contains s p

-- `strings.Replace(s, old, new, 1)`.
unfoldable pub replace_first : Str → Str → Str → Str
replace_first [] old new = if has_prefix [] old then new else []
replace_first (c ∷ s) old new =
    let rest = replace_first s old new in
    if has_prefix (c ∷ s) old then new ++ drop (length old) (c ∷ s) else c ∷ rest

-- `strings.Join`.
unfoldable pub join_strings : Str → List Str → Str
join_strings sep [] = []
join_strings sep (s ∷ []) = s
join_strings sep (s ∷ t ∷ ss) = s ++ sep ++ join_strings sep (t ∷ ss)
