-- ===== src/PubsubInfo/Batches/Settling.antt =====
-- What a batch of `SendPubSubMessages` (gcpapi/pubsub.go) leaves in the arrays, in whatever order its
-- results are read.
use gcp_emulator_pool.Common.{
  ℕ, suc, ◌+◌, ◌≤◌, ◌<◌, ◌≡◌, refl, sym, ap, ◌∙◌, inl, inr, arith, Option, none, some, List, [],
  ◌∷◌, ◌++◌, map, Str, lookup, IsMap, length, ℕ_discrete, Option-cases,
}
use gcp_emulator_pool.PubsubInfo.{
  Service, Arrays, slice_of, publish_message, publish_batch, await_all,
}
use gcp_emulator_pool.PubsubInfo.Batches.Cells.{
  Outcome, Cell, cell, enter, outcome_at, outcome_at_below, outcome_at_self, outcome_at_ne,
  outcome_at-append, publish_each, publish_batch-Published, cell-await_all, awaited, entered,
}

pub outcome_at_within :
    {A : Type 0} (i : ℕ) (os : List A) (j : ℕ) (o : A)
    → outcome_at i os j ≡ some o
    → (i ≤ j) × (j < i + length os)
unfolding outcome_at
outcome_at_within i [] j o h = absurd (cc)
outcome_at_within i (q ∷ os) j o h = elim (ℕ_discrete i j) [
  | yes e ↦ (omega arith, omega arith)
  | no ne ↦
      let within = outcome_at_within (suc i) os j o (sym (outcome_at_ne i q os j ne) ∙ h) in
      (omega (arith, within.0), omega (arith, within.1))
]

-- An array that holds `g o` where the outcome is `o`, from the first to the last of them.
pub slice_of-map :
    {A B : Type 0} (f : ℕ → B) (g : A → B) (i : ℕ) (os : List A)
    → ((j : ℕ) (o : A) → outcome_at i os j ≡ some o → f j ≡ g o)
    → slice_of f i (length os) ≡ map g os
slice_of-map f g i [] h = refl
slice_of-map f g i (o ∷ os) h =
    ap (λ b. b ∷ slice_of f (suc i) (length os)) (h i o (outcome_at_self i o os i refl))
    ∙ ap (◌∷◌ (g o)) (
        slice_of-map f g (suc i) os λ j q e. h j q (
          outcome_at_ne i o os j (λ same. omega (arith, (outcome_at_within (suc i) os j q e).0))
          ∙ e))

module _ (s : Service) where
  open s use {World, Error, Topic, Message, Result, result_of}

  pub publish_each-append :
      (secret : Str) (t : Topic) (ms ns : List Message) (w : World)
      → publish_each s secret t (ms ++ ns) w ≡ (
        (publish_each s secret t ms w).0
            ++ (publish_each s secret t ns (publish_each s secret t ms w).1).0,
        (publish_each s secret t ns (publish_each s secret t ms w).1).1,
      )
  unfolding publish_each
  publish_each-append secret t [] ns w = refl
  publish_each-append secret t (m ∷ ms) ns w =
      let sent = publish_message s secret t m w in
      ap (λ p. (sent.0 ∷ p.0, p.1)) (publish_each-append secret t ms ns sent.1)

  pub length-publish_each :
      (secret : Str) (t : Topic) (ms : List Message) (w : World)
      → length (publish_each s secret t ms w).0 ≡ length ms
  unfolding publish_each
  length-publish_each secret t [] w = refl
  length-publish_each secret t (m ∷ ms) w =
      ap suc (length-publish_each secret t ms (publish_message s secret t m w).1)

  -- The cell that an outcome, or none, makes of a cell.
  abbrev pub settled : Option (Outcome s) → Cell s → Cell s
  settled none c = c
  settled (some o) c = enter s o c

  -- From `a` to `b` the outcomes were entered, the first at the index `i`.
  abbrev pub Settled : ℕ → List (Outcome s) → Arrays Error → Arrays Error → Type 0
  Settled i os a b = (j : ℕ) → cell s b j ≡ settled (outcome_at i os j) (cell s a j)

  pub Settled-append :
      (i : ℕ) (os qs : List (Outcome s)) (a b c : Arrays Error)
      → Settled i os a b
      → Settled (i + length os) qs b c
      → Settled i (os ++ qs) a c
  Settled-append i os qs a b c h k j = elim (Option-cases (outcome_at i os j)) [
    | inl e ↦
        rw (outcome_at-append i os qs j, e)
          (k j ∙ ap (settled (outcome_at (i + length os) qs j)) (h j ∙ rw e refl))
    | inr (o, e) ↦
        rw (outcome_at-append i os qs j, e)
          (k j
            ∙ rw (outcome_at_below (i + length os) qs j (outcome_at_within i os j o e).1)
                (h j ∙ rw e refl))
  ]

  -- The cell after a result, or none, was waited for.
  abbrev resolved : Option Result → Cell s → Cell s
  resolved none c = c
  resolved (some r) c = enter s (inr r) c

  waited :
      (o : Option (Outcome s)) (c : Cell s) → resolved (awaited s o) (entered s o c) ≡ settled o c
  waited none c = refl
  waited (some (inl e)) c = refl
  waited (some (inr r)) c = refl

  resolves :
      (q : List (ℕ × Result)) (a : Arrays Error) (j : ℕ)
      → IsMap ℕ_discrete q
      → cell s (await_all s q a) j ≡ resolved (lookup ℕ_discrete j q) (cell s a j)
  resolves q a j once = elim (Option-cases (lookup ℕ_discrete j q)) [
    | inl e ↦ cell-await_all s q a j once ∙ rw e refl
    | inr (r, e) ↦ cell-await_all s q a j once ∙ rw e refl
  ]

  -- The results of a batch can be read in any order.
  pub batch_Settled :
      (secret : Str) (t : Topic) (i : ℕ) (ms : List Message) (a : Arrays Error) (w : World)
      (q : List (ℕ × Result))
      → IsMap ℕ_discrete q
      → ((j : ℕ)
          → lookup ℕ_discrete j q ≡ lookup ℕ_discrete j (publish_batch s secret t i ms a w).0.0)
      → Settled i
          (publish_each s secret t ms w).0
          a
          (await_all s q (publish_batch s secret t i ms a w).0.1)
  batch_Settled secret t i ms a w q once same j =
      let p = publish_batch-Published s secret t i ms a w in
      let published = (publish_batch s secret t i ms a w).0.1 in
      resolves q published j once
      ∙ ap (λ o. resolved o (cell s published j)) (same j ∙ p.pending j)
      ∙ ap (resolved (awaited s (outcome_at i (publish_each s secret t ms w).0 j))) (p.cells j)
      ∙ waited (outcome_at i (publish_each s secret t ms w).0 j) (cell s a j)
