-- ===== src/PubsubInfo/Batches.antt =====
-- `SendPubSubMessages` against publishing one message after the other (gcpapi/pubsub.go).
pub mod Cells
mod Settling
use gcp_emulator_pool.Common.{
  ℕ, zero, suc, ◌+◌, ◌-◌, ◌≤◌, ◌<◌, ◌≡◌, ◌≢◌, refl, sym, ap, subst, ◌∙◌, ◌⊎◌, inl, inr, arith, Bool,
  true, false, Option, none, some, List, [], ◌∷◌, ◌++◌, map, if◌then◌else◌, ite, ltb, Str, lookup,
  IsMap, length, take, drop, take-append-drop, drop-drop, drop_all, length-take, length-drop,
  ℕ_discrete, Sum-cases, Bool-cases, Option-cases,
}
use gcp_emulator_pool.PubsubInfo.{
  Service, Info, Arrays, batch_size, slice_of, append_ids, get_topic, publish_message,
  publish_batch, await_result, await_all, send_batches, any_error, record_sent, send_to_topic,
  finish, send_pub_sub_messages,
}
use gcp_emulator_pool.PubsubInfo.Batches.Cells.{
  Outcome, Cell, cell, enter, outcome_at, outcome_at_below, outcome_at_self, outcome_at_ne,
  outcome_at-append, publish_each, Published, publish_batch-Published, cell-await_all, awaited,
  entered,
}
use gcp_emulator_pool.PubsubInfo.Batches.Settling.{
  slice_of-map, publish_each-append, length-publish_each, Settled, Settled-append, batch_Settled,
}

module _ (s : Service) where
  open s use {World, Error, Topic, Message, Result, result_of}

  -- A schedule keeps the results that are waited for, each at most once.
  abbrev pub IsSchedule : (List (ℕ × Result) → List (ℕ × Result)) → Type 0
  IsSchedule schedule =
      (q : List (ℕ × Result))
      → IsMap ℕ_discrete q
      → IsMap ℕ_discrete (schedule q)
        × ((j : ℕ) → lookup ℕ_discrete j (schedule q) ≡ lookup ℕ_discrete j q)

  -- The end of a batch.
  abbrev stop_of : ℕ → ℕ → ℕ
  stop_of start n = if ltb n (start + batch_size) then n else start + batch_size

  stop_after : (start n : ℕ) → start < n → (start < stop_of start n) × (stop_of start n ≤ n)
  stop_after start n lt = ground arith

  -- Publishing from `start` on is publishing the batch, and then the rest.
  publish_rest :
      (secret : Str) (t : Topic) (messages : List Message) (start stop : ℕ) (w : World)
      → start ≤ stop
      → publish_each s secret t (drop start messages) w ≡ (
        (publish_each s secret t (take (stop - start) (drop start messages)) w).0
            ++ (publish_each s secret t
                (drop stop messages)
                (publish_each s secret t (take (stop - start) (drop start messages)) w).1).0,
        (publish_each s secret t
            (drop stop messages)
            (publish_each s secret t (take (stop - start) (drop start messages)) w).1).1,
      )
  publish_rest secret t messages start stop w le =
      let chunk = take (stop - start) (drop start messages) in
      ap (λ l. publish_each s secret t l w)
        (sym (take-append-drop (stop - start) (drop start messages))
          ∙ ap (λ l. chunk ++ l)
              (drop-drop (stop - start) start messages
                ∙ ap (λ k. drop k messages)
                    (let e : start + (stop - start) ≡ stop = omega arith in e)))
      ∙ publish_each-append s secret t chunk (drop stop messages) w

  length_chunk :
      (secret : Str) (t : Topic) (messages : List Message) (start stop : ℕ) (w : World)
      → start ≤ stop
      → stop ≤ length messages
      → stop
        ≡ start + length (publish_each s secret t (take (stop - start) (drop start messages)) w).0
  length_chunk secret t messages start stop w le within = omega (
    arith,
    length-publish_each s secret t (take (stop - start) (drop start messages)) w,
    length-take (stop - start) (drop start messages),
    length-drop start messages,
  )

  send_batches_all :
      (fuel : ℕ) (schedule : List (ℕ × Result) → List (ℕ × Result)) (secret : Str) (t : Topic)
      (messages : List Message) (start : ℕ) (a : Arrays Error) (w : World)
      → IsSchedule schedule
      → length messages - start < fuel
      → (b : Arrays Error) × (send_batches s fuel schedule secret t messages start a w
          ≡ (some b, (publish_each s secret t (drop start messages) w).1))
        × Settled s start (publish_each s secret t (drop start messages) w).0 a b
  unfolding send_batches publish_each outcome_at
  send_batches_all zero schedule secret t messages start a w fair lt = absurd (omega arith)
  send_batches_all (suc fuel) schedule secret t messages start a w fair lt =
      elim (Bool-cases (ltb start (length messages))) [
        | inr past ↦
            rw (past, send_batches, drop_all start messages (ground arith)) (a, refl, λ j. refl)
        | inl more ↦
            let n = length messages in
            let stop = stop_of start n in
            let within = stop_after start n (ground arith) in
            let chunk = take (stop - start) (drop start messages) in
            let batch = publish_batch s secret t start chunk a w in
            let p = publish_batch-Published s secret t start chunk a w in
            let order = fair batch.0.0 p.once in
            let settled_batch = await_all s (schedule batch.0.0) batch.0.1 in
            let (b, sent, ends) =
              send_batches_all fuel schedule secret t messages stop settled_batch batch.1 fair
                (omega (arith, lt, within.0, within.1)) in
            let whole = publish_rest secret t messages start stop w (omega (arith, within.0)) in
            let first = publish_each s secret t chunk w in
            (
              b,
              rw (more, send_batches)
                  (sent
                    ∙ ap (λ u. (some b, (publish_each s secret t (drop stop messages) u).1))
                        p.same_world
                    ∙ sym (ap (λ r. (some b, r.1)) whole)),
              subst (λ r. Settled s start r.0 a b) (sym whole)
                  (Settled-append s start first.0
                    (publish_each s secret t (drop stop messages) first.1).0 a settled_batch b
                    (batch_Settled s secret t start chunk a w (schedule batch.0.0) order.0 order.1)
                    (subst
                      (λ k.
                        Settled s k (publish_each s secret t (drop stop messages) first.1).0
                          settled_batch b)
                      (length_chunk secret t messages start stop w (omega (arith, within.0))
                        within.1)
                      (subst
                        (λ u.
                          Settled s stop (publish_each s secret t (drop stop messages) u).0
                            settled_batch b)
                        p.same_world ends))),
            )
      ]

  abbrev pub error_of : Outcome s → Option Error
  error_of (inl e) = some e
  error_of (inr r) = (result_of r).1

  abbrev pub id_of : Outcome s → Str
  id_of (inl e) = []
  id_of (inr r) = (result_of r).0

  enter_new : (o : Outcome s) → ◌≡◌ {A = Cell s} (enter s o (none, [])) (error_of o, id_of o)
  enter_new (inl e) = refl
  enter_new (inr r) = elim (Option-cases (result_of r).1) [
    | inl e ↦ rw e refl
    | inr (x, e) ↦ rw e refl
  ]

  -- The errors and the flag for the outcomes, and the info with the ids if there is no error.
  abbrev pub tally : Str → List (Outcome s) → Info Topic → (List (Option Error) × Bool) × Info Topic
  tally name os p =
      let errors = map error_of os in
      if any_error s errors
      then ((errors, true), p)
      else ((errors, false), append_ids name (map id_of os) p)

  record_sent-tally :
      (name : Str) (n : ℕ) (os : List (Outcome s)) (b : Arrays Error) (p : Info Topic)
      → n ≡ length os
      → Settled s 0 os (record { errors = λ i. none; ids = λ i. [] }) b
      → record_sent s name n b p ≡ tally name os p
  unfolding record_sent
  record_sent-tally name n os b p same h =
      let entry : (j : ℕ) (o : Outcome s)
          → outcome_at 0 os j ≡ some o
          → cell s b j ≡ (error_of o, id_of o) =
        λ j o e. h j ∙ rw e (enter_new o) in
      rw
        (
          same,
          slice_of-map b.errors error_of 0 os (λ j o e. ap (λ c. c.0) (entry j o e)),
          slice_of-map b.ids id_of 0 os (λ j o e. ap (λ c. c.1) (entry j o e)),
        )
        refl

  send_to_topic_all :
      (schedule : List (ℕ × Result) → List (ℕ × Result)) (name : Str) (messages : List Message)
      (t : Topic) (q : Info Topic) (v : World)
      → IsSchedule schedule
      → send_to_topic s schedule name messages t q v ≡ (
        some (tally name (publish_each s q.secret_key t messages v).0 q),
        (publish_each s q.secret_key t messages v).1,
      )
  unfolding send_to_topic finish
  send_to_topic_all schedule name messages t q v fair =
      let (b, sent, settled_all) =
        send_batches_all (suc (length messages)) schedule q.secret_key t messages 0
          (record { errors = λ i. none; ids = λ i. [] }) v fair (omega arith) in
      ap (finish s name (length messages) q) sent
      ∙ (ap (λ r. (some r, (publish_each s q.secret_key t messages v).1))
          (record_sent-tally name (length messages) (publish_each s q.secret_key t messages v).0 b q
            (sym (length-publish_each s q.secret_key t messages v)) settled_all))

  -- Sending in batches is publishing one message after the other: for at least one message, and in
  -- whatever order the results of a batch are read, it ends, the errors are those of the messages in
  -- their order, the flag says whether there is one, and if there is none the ids are recorded in
  -- the order of the messages.
  pub send_pub_sub_messages-publish_each :
      (schedule : List (ℕ × Result) → List (ℕ × Result)) (name : Str) (m : Message)
      (ms : List Message) (p : Info Topic) (w : World) (t : Topic) (q : Info Topic) (v : World)
      → IsSchedule schedule
      → get_topic s name p w ≡ ((t, q), v)
      → send_pub_sub_messages s schedule name (m ∷ ms) p w ≡ (
        some (tally name (publish_each s q.secret_key t (m ∷ ms) v).0 q),
        (publish_each s q.secret_key t (m ∷ ms) v).1,
      )
  unfolding send_pub_sub_messages
  send_pub_sub_messages-publish_each schedule name m ms p w t q v fair e =
      ap (λ g. send_to_topic s schedule name (m ∷ ms) g.0.0 g.0.1 g.1) e
      ∙ send_to_topic_all schedule name (m ∷ ms) t q v fair
