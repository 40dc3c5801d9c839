-- ===== src/Pstest/Acknowledgement.antt =====
-- What Acknowledge and ModifyAckDeadline do to the messages of a subscription
-- (gcpapi/pubsub/pstest/fake.go).
use gcp_emulator_pool.Common.{
  if_neg, ℕ_discrete, sym, ℕ, suc, ◌≡◌, ◌≢◌, refl, ap, ◌∙◌, Bool, true, false, none, some, List, [],
  ◌∷◌, arith, Str, str_discrete, inl, inr, ℤ, pos, lookup, lookup-insert, lookup-delete, update,
  ◌⊎◌, update_self, update_ne, ite, Option-cases, ◌+ℤ◌, ℤ-discrete, if_pos,
}
use gcp_emulator_pool.Pstest.Pb.{empty_res}
use gcp_emulator_pool.Pstest.State.{SubMessage, Subscription, GServer, zero_time, success, panic}
use gcp_emulator_pool.Pstest.Publishing.{clear_messages}
use gcp_emulator_pool.Pstest.Delivery.{
  count_ack, ack, ack_all, set_deadline, modify_one, record_modacks, modify_ack_deadline_body,
}

-- The messages of the subscription behind the one that is acknowledged.
ack-lookup :
    (id : Str) (r : ℕ) (s : GServer) (k : Str)
    → lookup str_discrete k ((ack id r s).sub_heap r).msgs
      ≡ ite (str_discrete id k) none (lookup str_discrete k (s.sub_heap r).msgs)
unfolding ack update
ack-lookup id r s k = ground (arith, lookup-delete str_discrete id k (s.sub_heap r).msgs)

ack_out : (id : Str) (r : ℕ) (s : GServer) (q : ℕ) → r ≢ q → (ack id r s).sub_heap q ≡ s.sub_heap q
unfolding ack update
ack_out id r s q h = ground arith

-- Whether an id is in a list.
unfoldable pub names_id : Str → List Str → Bool
names_id k [] = false
names_id k (id ∷ ids) = ite (str_discrete id k) true (names_id k ids)

ack_all_parts :
    (ids : List Str) (r : ℕ) (s : GServer)
    → ((k : Str)
        → lookup str_discrete k ((ack_all ids r s).sub_heap r).msgs ≡ (elim (names_id k ids) [
          | true ↦ none
          | false ↦ lookup str_discrete k (s.sub_heap r).msgs
        ]))
      × ((q : ℕ) → r ≢ q → (ack_all ids r s).sub_heap q ≡ s.sub_heap q)
unfolding ack_all names_id
ack_all_parts [] r s = ((λ k. refl), λ q h. refl)
ack_all_parts (id ∷ ids) r s =
    let (here, out) = ack_all_parts ids r (ack id r s) in
    ((λ k. ground (arith, here k, ack-lookup id r s k)), λ q h. out q h ∙ ack_out id r s q h)

-- After an Acknowledge of some ids, the subscription holds none of them, and every other message as
-- before, whether or not the ids were there; no other subscription changes.
pub ack_all-lookup :
    (ids : List Str) (r : ℕ) (s : GServer) (k : Str) (q : ℕ)
    → (lookup str_discrete k ((ack_all ids r s).sub_heap r).msgs ≡ (elim (names_id k ids) [
      | true ↦ none
      | false ↦ lookup str_discrete k (s.sub_heap r).msgs
    ]))
      × ((ack_all ids r s).sub_heap q
          ≡ ite (ℕ_discrete r q) ((ack_all ids r s).sub_heap r) (s.sub_heap q))
ack_all-lookup ids r s k q =
    let (here, out) = ack_all_parts ids r s in
    (
      here k,
      elim (ℕ_discrete r q) [
        | yes e ↦ ap (ack_all ids r s).sub_heap (sym e) ∙ sym (if_pos (ℕ_discrete r q) e _ _)
        | no ne ↦ out q ne ∙ sym (if_neg (ℕ_discrete r q) ne _ _)
      ],
    )

ack_counter :
    (id : Str) (r : ℕ) (s : GServer) {m : SubMessage}
    → lookup str_discrete id (s.sub_heap r).msgs ≡ some m
    → (((ack id r s).message_heap m.counters).acks ≡ suc (s.message_heap m.counters).acks)
      × ((q : ℕ) → m.counters ≢ q → (ack id r s).message_heap q ≡ s.message_heap q)
unfolding ack
ack_counter id r s {m} here =
    let heap : (ack id r s).message_heap ≡ count_ack m.counters s.message_heap =
      ground (arith, here) in
    (
      ap (λ f. (f m.counters).acks) heap
          ∙ ap (λ x. x.acks) (update_self s.message_heap m.counters _),
      λ q h. ap (λ f. f q) heap ∙ update_ne s.message_heap m.counters q _ h,
    )

ack_absent :
    (id : Str) (r : ℕ) (s : GServer)
    → lookup str_discrete id (s.sub_heap r).msgs ≡ none
    → ack id r s ≡ s
unfolding ack
ack_absent id r s gone = ground (arith, gone)

-- Acknowledging one id counts one acknowledgement of its message, exactly if the subscription holds
-- it; then the id is gone, so that acknowledging it again changes nothing.
pub ack_counts_once :
    (id : Str) (r : ℕ) (s : GServer) {m : SubMessage}
    → lookup str_discrete id (s.sub_heap r).msgs ≡ some m
    → (((ack id r s).message_heap m.counters).acks ≡ suc (s.message_heap m.counters).acks)
      × ((q : ℕ)
          → (ack id r s).message_heap q
            ≡ ite
                (ℕ_discrete m.counters q)
                ((ack id r s).message_heap m.counters)
                (s.message_heap q))
      × (ack id r (ack id r s) ≡ ack id r s)
ack_counts_once id r s {m} here =
    let (one, others) = ack_counter id r s here in
    (
      one,
      λ q. elim (ℕ_discrete m.counters q) [
        | yes e ↦
            ap (ack id r s).message_heap (sym e) ∙ sym (if_pos (ℕ_discrete m.counters q) e _ _)
        | no ne ↦ others q ne ∙ sym (if_neg (ℕ_discrete m.counters q) ne _ _)
      ],
      ack_absent id r (ack id r s) (ack-lookup id r s id ∙ if_pos (str_discrete id id) refl none _),
    )

-- A modified deadline changes one message of the subscription, if it is there at all, and no other
-- message: zero makes it available, and any other duration puts the deadline that far from
-- now.
pub modify_one-lookup :
    (now : ℤ) (id : Str) (d : ℤ) (sub : Subscription) (k : Str)
    → lookup str_discrete k (modify_one now id d sub).msgs
      ≡ (elim (lookup str_discrete k sub.msgs) [
        | none ↦ none
        | some m ↦ some (record m {
          ack_deadline =
              ite
                (str_discrete id k)
                (ite (ℤ-discrete d (pos 0)) zero_time (now +ℤ d))
                m.ack_deadline;
        })
      ])
unfolding modify_one set_deadline
modify_one-lookup now id d sub k = elim (Option-cases (lookup str_discrete id sub.msgs)) [
  | inl gone ↦ ground (arith, gone, ap (λ x. lookup str_discrete x sub.msgs) {x = id} {y = k})
  | inr (m, here) ↦ ground (
    arith,
    here,
    lookup-insert str_discrete id k (set_deadline now d m) sub.msgs,
    ap (λ x. lookup str_discrete x sub.msgs) {x = id} {y = k},
  )
]

-- Whether the server knows all of the ids.
unfoldable pub all_known : List Str → List (Str × ℕ) → Bool
all_known [] known = true
all_known (id ∷ ids) known = elim (lookup str_discrete id known) [
  | none ↦ false
  | some r ↦ all_known ids known
]

record_modacks-all_known :
    (received_at secs : ℤ) (ids : List Str) (s : GServer)
    → ((all_known ids s.msgs_by_id ≡ true)
        × ((s' : GServer) × (record_modacks received_at secs ids s ≡ some s')))
      ⊎ ((all_known ids s.msgs_by_id ≡ false) × (record_modacks received_at secs ids s ≡ none))
unfolding all_known record_modacks
record_modacks-all_known received_at secs [] s = inl (refl, (s, refl))
record_modacks-all_known received_at secs (id ∷ ids) s =
    elim (Option-cases (lookup str_discrete id s.msgs_by_id)) [
      | inl unknown ↦ inr (rw (unknown, all_known) refl, rw (unknown, record_modacks) refl)
      | inr (r, known) ↦
          rw (known, all_known, record_modacks) (record_modacks-all_known received_at secs ids _)
    ]

-- ModifyAckDeadline of a list of ids succeeds if every id is that of a message in the server's log,
-- and panics otherwise, whether or not the subscription holds the messages. ClearMessages clears the
-- log and leaves every subscription as it is, so that from then on ModifyAckDeadline panics for the
-- messages that the subscriptions still hold.
pub modify_ack_deadline_body_outcome :
    (received_at : ℤ) (clock : ℕ → ℤ) (ids : List Str) (id : Str) (secs : ℤ) (r : ℕ) (s : GServer)
    → ((modify_ack_deadline_body received_at clock ids secs r s).0
        ≡ (elim (all_known ids s.msgs_by_id) [ true ↦ success empty_res | false ↦ panic ]))
      × ((clear_messages s).sub_heap ≡ s.sub_heap)
      × ((modify_ack_deadline_body received_at clock (id ∷ ids) secs r (clear_messages s)).0
          ≡ panic)
unfolding modify_ack_deadline_body record_modacks clear_messages lookup
modify_ack_deadline_body_outcome received_at clock ids id secs r s = (
  elim (record_modacks-all_known received_at secs ids s) [
    | inl (known, (s', recorded)) ↦ rw (known, recorded, modify_ack_deadline_body) refl
    | inr (unknown, stuck) ↦ rw (unknown, stuck, modify_ack_deadline_body) refl
  ],
  refl,
  refl,
)
