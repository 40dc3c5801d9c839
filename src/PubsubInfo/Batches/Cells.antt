-- ===== src/PubsubInfo/Batches/Cells.antt =====
-- What the arrays of `SendPubSubMessages` (gcpapi/pubsub.go) hold at an index.
use gcp_emulator_pool.Common.{
  ℕ, suc, ◌+◌, ◌<◌, ◌≡◌, ◌≢◌, refl, ap, subst, ◌∙◌, ◌⊎◌, inl, inr, arith, Option, none, some, List,
  [], ◌∷◌, ◌++◌, if_pos, if_neg, ite, Str, lookup, IsMap, length, update, ℕ_discrete, Sum-cases,
}
use gcp_emulator_pool.PubsubInfo.{
  Service, Arrays, publish_message, publish_batch, await_result, await_all,
}

-- The outcome at `j`, if the first one has the index `i`.
unfoldable pub outcome_at {ℓ} : {A : Type ℓ} → ℕ → List A → ℕ → Option A
outcome_at i [] j = none
outcome_at i (o ∷ os) j = ite (ℕ_discrete i j) (some o) (outcome_at (suc i) os j)

pub outcome_at_below {ℓ} :
    {A : Type ℓ} (i : ℕ) (os : List A) (j : ℕ) → j < i → outcome_at i os j ≡ none
unfolding outcome_at
outcome_at_below i [] j lt = refl
outcome_at_below i (o ∷ os) j lt = ground (arith, outcome_at_below (suc i) os j (omega arith))

pub outcome_at_self {ℓ} :
    {A : Type ℓ} (i : ℕ) (o : A) (os : List A) (j : ℕ) → i ≡ j → outcome_at i (o ∷ os) j ≡ some o
unfolding outcome_at
outcome_at_self i o os j e = if_pos (ℕ_discrete i j) e (some o) (outcome_at (suc i) os j)

pub outcome_at_ne {ℓ} :
    {A : Type ℓ} (i : ℕ) (o : A) (os : List A) (j : ℕ)
    → i ≢ j
    → outcome_at i (o ∷ os) j ≡ outcome_at (suc i) os j
unfolding outcome_at
outcome_at_ne i o os j ne = if_neg (ℕ_discrete i j) ne (some o) (outcome_at (suc i) os j)

pub outcome_at-append {ℓ} :
    {A : Type ℓ} (i : ℕ) (os qs : List A) (j : ℕ)
    → outcome_at i (os ++ qs) j
      ≡ elim (outcome_at i os j) [ none ↦ outcome_at (i + length os) qs j | some o ↦ some o ]
unfolding outcome_at
outcome_at-append i [] qs j = ap (λ k. outcome_at k qs j) (omega arith)
outcome_at-append i (o ∷ os) qs j = elim (ℕ_discrete i j) [
  | yes e ↦
      rw
        (
          if_pos (ℕ_discrete i j) e (some o) (outcome_at (suc i) (os ++ qs) j),
          if_pos (ℕ_discrete i j) e (some o) (outcome_at (suc i) os j),
        )
        refl
  | no ne ↦
      rw
        (
          if_neg (ℕ_discrete i j) ne (some o) (outcome_at (suc i) (os ++ qs) j),
          if_neg (ℕ_discrete i j) ne (some o) (outcome_at (suc i) os j),
        )
        (outcome_at-append (suc i) os qs j
          ∙ ap (λ k. elim (outcome_at (suc i) os j) [ none ↦ outcome_at k qs j | some o ↦ some o ])
              (omega arith))
]

module _ (s : Service) where
  open s use {World, Error, Topic, Message, Result, result_of}

  abbrev pub Outcome : Type 0
  Outcome = Error ⊎ Result

  abbrev pub Cell : Type 0
  Cell = Option Error × Str

  abbrev pub cell : Arrays Error → ℕ → Cell
  cell a j = (a.errors j, a.ids j)

  -- What an outcome makes of the cell of its message.
  abbrev pub enter : Outcome → Cell → Cell
  enter (inl e) (err, id) = (some e, id)
  enter (inr r) (err, id) = (elim (result_of r).1 [ none ↦ err | some e ↦ some e ], (result_of r).0)

  cell-await_result_self :
      (i : ℕ) (r : Result) (a : Arrays Error) (j : ℕ)
      → i ≡ j
      → cell (await_result s i r a) j ≡ enter (inr r) (cell a j)
  unfolding await_result update
  cell-await_result_self i r a j e = ground arith

  cell-await_result_ne :
      (i : ℕ) (r : Result) (a : Arrays Error) (j : ℕ)
      → i ≢ j
      → cell (await_result s i r a) j ≡ cell a j
  unfolding await_result update
  cell-await_result_ne i r a j ne = ground arith

  pub cell-await_all :
      (q : List (ℕ × Result)) (a : Arrays Error) (j : ℕ)
      → IsMap ℕ_discrete q
      → cell (await_all s q a) j
        ≡ elim (lookup ℕ_discrete j q) [ none ↦ cell a j | some r ↦ enter (inr r) (cell a j) ]
  unfolding await_all lookup
  cell-await_all [] a j h = refl
  cell-await_all ((i, r) ∷ q) a j h = elim (ℕ_discrete i j) [
    | yes e ↦ rw (if_pos (ℕ_discrete i j) e (some r) (lookup ℕ_discrete j q)) (
        cell-await_all q (await_result s i r a) j h.1
        ∙ rw (subst (λ k. lookup ℕ_discrete k q ≡ none) e h.0) (cell-await_result_self i r a j e))
    | no ne ↦ rw (if_neg (ℕ_discrete i j) ne (some r) (lookup ℕ_discrete j q)) (
        cell-await_all q (await_result s i r a) j h.1
        ∙ ap (λ c. elim (lookup ℕ_discrete j q) [ none ↦ c | some r ↦ enter (inr r) c ])
            (cell-await_result_ne i r a j ne))
  ]

  -- The messages published one after the other.
  unfoldable pub publish_each : Str → Topic → List Message → World → List Outcome × World
  publish_each secret t [] w = ([], w)
  publish_each secret t (m ∷ ms) w =
      let (o, w) = publish_message s secret t m w in
      let (os, w) = publish_each secret t ms w in (o ∷ os, w)

  -- The result that is waited for at an index.
  abbrev pub awaited : Option Outcome → Option Result
  awaited none = none
  awaited (some (inl e)) = none
  awaited (some (inr r)) = some r

  -- The cell after the loop that publishes.
  abbrev pub entered : Option Outcome → Cell → Cell
  entered none c = c
  entered (some (inl e)) c = enter (inl e) c
  entered (some (inr r)) c = c

  -- What `publish_batch` leaves: the pending results, the cells, and the world.
  pub record Published (i : ℕ) (os : List Outcome) (a : Arrays Error)
      (out : (List (ℕ × Result) × Arrays Error) × World) (w : World) : Type 0 where
    pub once : IsMap ℕ_discrete out.0.0
    pub pending : (j : ℕ) → lookup ℕ_discrete j out.0.0 ≡ awaited (outcome_at i os j)
    pub cells : (j : ℕ) → cell out.0.1 j ≡ entered (outcome_at i os j) (cell a j)
    pub same_world : out.1 ≡ w

  refused :
      (i : ℕ) (e : Error) (a : Arrays Error) {out : (List (ℕ × Result) × Arrays Error) × World}
      {v : World} {os : List Outcome}
      → Published (suc i) os (record a { errors = update a.errors i (some e) }) out v
      → Published i (inl e ∷ os) a out v
  unfolding update
  refused i e a {os = os} p = record {
    once = p.once;
    pending = λ j. elim (ℕ_discrete i j) [
      | yes q ↦
          rw (outcome_at_self i (inl e) os j q)
            (p.pending j ∙ ap awaited (outcome_at_below (suc i) os j (omega arith)))
      | no ne ↦ rw (outcome_at_ne i (inl e) os j ne) (p.pending j)
    ];
    cells = λ j. elim (ℕ_discrete i j) [
      | yes q ↦
          rw (outcome_at_self i (inl e) os j q)
            (p.cells j ∙ rw (outcome_at_below (suc i) os j (omega arith)) (ground arith))
      | no ne ↦
          rw (outcome_at_ne i (inl e) os j ne)
            (p.cells j ∙ ap (entered (outcome_at (suc i) os j)) (ground arith))
    ];
    same_world = p.same_world;
  }

  accepted :
      (i : ℕ) (r : Result) (a : Arrays Error) {out : (List (ℕ × Result) × Arrays Error) × World}
      {v : World} {os : List Outcome}
      → Published (suc i) os a out v
      → Published i (inr r ∷ os) a (((i, r) ∷ out.0.0, out.0.1), out.1) v
  unfolding lookup
  accepted i r a {out = out} {os = os} p = record {
    once = (p.pending i ∙ ap awaited (outcome_at_below (suc i) os i (omega arith)), p.once);
    pending = λ j. elim (ℕ_discrete i j) [
      | yes q ↦
          rw (outcome_at_self i (inr r) os j q)
            (if_pos (ℕ_discrete i j) q (some r) (lookup ℕ_discrete j out.0.0))
      | no ne ↦
          rw (outcome_at_ne i (inr r) os j ne)
            (if_neg (ℕ_discrete i j) ne (some r) (lookup ℕ_discrete j out.0.0) ∙ p.pending j)
    ];
    cells = λ j. elim (ℕ_discrete i j) [
      | yes q ↦
          rw (outcome_at_self i (inr r) os j q)
            (p.cells j ∙ rw (outcome_at_below (suc i) os j (omega arith)) refl)
      | no ne ↦ rw (outcome_at_ne i (inr r) os j ne) (p.cells j)
    ];
    same_world = p.same_world;
  }

  pub publish_batch-Published :
      (secret : Str) (t : Topic) (i : ℕ) (ms : List Message) (a : Arrays Error) (w : World)
      → Published i
          (publish_each secret t ms w).0
          a
          (publish_batch s secret t i ms a w)
          (publish_each secret t ms w).1
  unfolding publish_batch publish_each lookup outcome_at
  publish_batch-Published secret t i [] a w = record {
    once = tt;
    pending = λ j. refl;
    cells = λ j. refl;
    same_world = refl;
  }
  publish_batch-Published secret t i (m ∷ ms) a w =
      let sent = publish_message s secret t m w in
      elim (Sum-cases sent.0) [
        | inl (e, h) ↦
            rw (h, publish_batch)
              (refused i e a (publish_batch-Published secret t (suc i) ms _ sent.1))
        | inr (r, h) ↦
            rw (h, publish_batch)
              (accepted i r a (publish_batch-Published secret t (suc i) ms a sent.1))
      ]
