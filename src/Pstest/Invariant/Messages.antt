-- ===== src/Pstest/Invariant/Messages.antt =====
-- The calls that move messages keep the registry as it is and the ledger in order.
use gcp_emulator_pool.Common.{
  ℕ, suc, ◌<◌, ◌≡◌, refl, ap, subst, ◌∙◌, some, List, [], ◌∷◌, ◌++◌, arith, Str, str_discrete, inl,
  inr, ℤ, lookup, All-lookup, update, update_field, Option-cases, Bool-cases, ltb_ℤ, ◌+ℤ◌,
}
use gcp_emulator_pool.Pstest.Pb.{ReceivedMessage}
use gcp_emulator_pool.Pstest.State.{Modack, Message, SubMessage, Subscription, GServer}
use gcp_emulator_pool.Pstest.Delivery.{
  maintain_messages, pull_entries, count_deliveries, pull_subscription, count_ack, ack, ack_all,
  modify_one, modify_at, set_deadline, modify_all, record_modacks,
}
use gcp_emulator_pool.Pstest.Seeking.{count_dropped, seek_body}
use gcp_emulator_pool.Pstest.Streams.{Meanwhile, deliver, deliver_entries}
use gcp_emulator_pool.Pstest.Invariant.Registry.{
  Registry, SameRegistry-trans, SameRegistry-Registry, update_sub-SameRegistry,
}
use gcp_emulator_pool.Pstest.Invariant.Inbox.{
  Held, IsInbox, insert-IsInbox, delete-IsInbox, Sweeps-IsInbox, maintain_messages-Sweeps,
  pull_entries-Sweeps, keep_since-Sweeps, deliver_entries-Sweeps, replay_since-IsInbox,
}
use gcp_emulator_pool.Pstest.Invariant.Ledger.{Ledger, Ledger-step, IsInbox-update}

pub record IsConsistent (s : GServer) : Type 0 where
  pub registry : Registry s
  pub ledger : Ledger s

-- The messages of one subscription and the counters of some messages are written.
write-IsConsistent :
    (s : GServer) (messages : ℕ → Message) (r : ℕ) (sub : Subscription)
    → IsConsistent s
    → ((q : ℕ) → (messages q).id ≡ (s.message_heap q).id)
    → sub.proto.name ≡ (s.sub_heap r).proto.name
    → sub.topic ≡ (s.sub_heap r).topic
    → (r < s.next_sub → IsInbox s.next_message sub.msgs)
    → IsConsistent (record s { message_heap = messages; sub_heap = update s.sub_heap r sub })
write-IsConsistent s messages r sub c same named back held = record {
  registry =
      SameRegistry-Registry
        (SameRegistry-trans
          (record {
            same_topics = refl;
            same_subs = refl;
            same_next_topic = refl;
            same_next_sub = refl;
            same_topic_name = λ t. refl;
            same_topic_subs = λ t. refl;
            same_sub_name = λ r. refl;
            same_sub_topic = λ r. refl;
          })
          (update_sub-SameRegistry (record s { message_heap = messages }) r sub named back))
        c.registry;
  ledger =
      Ledger-step s messages (update s.sub_heap r sub) c.ledger same
        (IsInbox-update s.next_message s.next_sub r s.sub_heap sub c.ledger.inbox held);
}

count_deliveries-id :
    (rs : List ℕ) (heap : ℕ → Message) (q : ℕ) → (count_deliveries rs heap q).id ≡ (heap q).id
unfolding count_deliveries
count_deliveries-id [] heap q = refl
count_deliveries-id (r ∷ rs) heap q =
    count_deliveries-id rs _ q ∙ update_field (λ m. m.id) heap r _ refl q

pub pull_subscription-IsConsistent :
    (now : ℤ) (max r : ℕ) (s : GServer) {protos : List ReceivedMessage} {s' : GServer}
    → IsConsistent s
    → pull_subscription now max r s ≡ some (protos, s')
    → IsConsistent s'
unfolding pull_subscription
pull_subscription-IsConsistent now max r s {protos} {s'} c e =
    elim (Option-cases (maintain_messages now (s.sub_heap r).msgs)) [
      | inl broken ↦ absurd (ground (arith, broken))
      | inr (ms, kept) ↦
          let p = pull_entries max (now +ℤ (s.sub_heap r).ack_timeout) ms in
          subst IsConsistent (ground (arith, kept)) (
            write-IsConsistent s (count_deliveries p.counted s.message_heap) r
              (record (s.sub_heap r) { msgs = p.entries }) c
              (count_deliveries-id p.counted s.message_heap) refl refl
              (λ lt.
                Sweeps-IsInbox (pull_entries-Sweeps max (now +ℤ (s.sub_heap r).ack_timeout) ms) (
                  Sweeps-IsInbox (maintain_messages-Sweeps now (s.sub_heap r).msgs kept)
                    (c.ledger.inbox r lt))))
    ]

pub deliver-IsConsistent :
    (meanwhile : Meanwhile) (now : ℤ) (r : ℕ) (s : GServer) {s' : GServer}
    → IsConsistent s
    → deliver meanwhile now r s ≡ some s'
    → IsConsistent s'
unfolding deliver
deliver-IsConsistent meanwhile now r s {s'} c e =
    elim (Option-cases (maintain_messages now (s.sub_heap r).msgs)) [
      | inl broken ↦ absurd (ground (arith, broken))
      | inr (ms, kept) ↦
          let d = deliver_entries meanwhile now 0 (s.sub_heap r).streams ms in
          subst IsConsistent (ground (arith, kept)) (
            write-IsConsistent s (count_deliveries d.counted s.message_heap) r
              (record (s.sub_heap r) { msgs = d.entries; streams = d.streams }) c
              (count_deliveries-id d.counted s.message_heap) refl refl
              (λ lt.
                Sweeps-IsInbox (deliver_entries-Sweeps meanwhile now 0 (s.sub_heap r).streams ms) (
                  Sweeps-IsInbox (maintain_messages-Sweeps now (s.sub_heap r).msgs kept)
                    (c.ledger.inbox r lt))))
    ]

pub ack-IsConsistent : (id : Str) (r : ℕ) (s : GServer) → IsConsistent s → IsConsistent (ack id r s)
unfolding ack
ack-IsConsistent id r s c = elim (Option-cases (lookup str_discrete id (s.sub_heap r).msgs)) [
  | inl gone ↦ rw (gone, ack) c
  | inr (m, here) ↦
      rw (here, ack)
        (write-IsConsistent s (count_ack m.counters s.message_heap) r
          (record (s.sub_heap r) { msgs = _ }) c
          (update_field (λ x. x.id) s.message_heap m.counters _ refl) refl refl
          (λ lt. delete-IsInbox s.next_message id (s.sub_heap r).msgs (c.ledger.inbox r lt)))
]

pub ack_all-IsConsistent :
    (ids : List Str) (r : ℕ) (s : GServer) → IsConsistent s → IsConsistent (ack_all ids r s)
unfolding ack_all
ack_all-IsConsistent [] r s c = c
ack_all-IsConsistent (id ∷ ids) r s c =
    ack_all-IsConsistent ids r (ack id r s) (ack-IsConsistent id r s c)

set_deadline-Held :
    (n : ℕ) (now d : ℤ) (id : Str) (m : SubMessage)
    → Held n (id, m)
    → Held n (id, set_deadline now d m)
unfolding set_deadline
set_deadline-Held n now d id m h = ground arith

modify_one-IsInbox :
    (n : ℕ) (now : ℤ) (id : Str) (d : ℤ) (sub : Subscription)
    → IsInbox n sub.msgs
    → IsInbox n (modify_one now id d sub).msgs
unfolding modify_one
modify_one-IsInbox n now id d sub b = elim (Option-cases (lookup str_discrete id sub.msgs)) [
  | inl gone ↦ rw (gone, modify_one) b
  | inr (m, here) ↦
      let held : Held n (id, m) = All-lookup str_discrete (Held n) id sub.msgs b.held here in
      rw (here, modify_one)
        (insert-IsInbox n id (set_deadline now d m) sub.msgs (set_deadline-Held n now d id m held)
          b)
]

modify_one_same :
    (now : ℤ) (id : Str) (d : ℤ) (sub : Subscription)
    → ((modify_one now id d sub).proto ≡ sub.proto) × ((modify_one now id d sub).topic ≡ sub.topic)
unfolding modify_one
modify_one_same now id d sub = ground arith

pub modify_at-IsConsistent :
    (now : ℤ) (id : Str) (d : ℤ) (r : ℕ) (s : GServer)
    → IsConsistent s
    → IsConsistent (modify_at now id d r s)
modify_at-IsConsistent now id d r s c =
    let (p, t) = modify_one_same now id d (s.sub_heap r) in
    write-IsConsistent s s.message_heap r (modify_one now id d (s.sub_heap r)) c (λ q. refl)
      (ap (λ x. x.name) p) t
      (λ lt. modify_one-IsInbox s.next_message now id d (s.sub_heap r) (c.ledger.inbox r lt))

pub modify_all-IsConsistent :
    (clock : ℕ → ℤ) (k : ℕ) (ids : List Str) (d : ℤ) (r : ℕ) (s : GServer)
    → IsConsistent s
    → IsConsistent (modify_all clock k ids d r s)
unfolding modify_all
modify_all-IsConsistent clock k [] d r s c = c
modify_all-IsConsistent clock k (id ∷ ids) d r s c =
    modify_all-IsConsistent clock (suc k) ids d r _ (modify_at-IsConsistent (clock k) id d r s c)

-- Counters of messages are written.
pub counters-IsConsistent :
    (s : GServer) (messages : ℕ → Message)
    → IsConsistent s
    → ((q : ℕ) → (messages q).id ≡ (s.message_heap q).id)
    → IsConsistent (record s { message_heap = messages })
counters-IsConsistent s messages c same = record {
  registry = record {
    topic_named = c.registry.topic_named;
    sub_named = c.registry.sub_named;
    attached = c.registry.attached;
  };
  ledger = Ledger-step s messages s.sub_heap c.ledger same c.ledger.inbox;
}

pub record_modacks-IsConsistent :
    (received_at secs : ℤ) (ids : List Str) (s : GServer) {s' : GServer}
    → IsConsistent s
    → record_modacks received_at secs ids s ≡ some s'
    → IsConsistent s'
unfolding record_modacks
record_modacks-IsConsistent received_at secs [] s c e = subst IsConsistent (ground arith) c
record_modacks-IsConsistent received_at secs (id ∷ ids) s c e =
    elim (Option-cases (lookup str_discrete id s.msgs_by_id)) [
      | inl unknown_id ↦ absurd (ground (arith, unknown_id))
      | inr (r, known) ↦
          let modack : Modack = record {
            ack_id = id;
            ack_deadline = secs;
            received_at = received_at;
          } in
          let m = s.message_heap r in
          let m' : Message = record m { modacks = m.modacks ++ modack ∷ [] } in
          record_modacks-IsConsistent received_at secs ids
            (record s { message_heap = update s.message_heap r m' })
            (counters-IsConsistent s (update s.message_heap r m') c
              (update_field (λ x. x.id) s.message_heap r m' refl))
            (ground (arith, known))
    ]

count_dropped-id :
    (target : ℤ) (ms : List (Str × SubMessage)) (heap : ℕ → Message) (q : ℕ)
    → (count_dropped target ms heap q).id ≡ (heap q).id
unfolding count_dropped
count_dropped-id target [] heap q = refl
count_dropped-id target ((id, m) ∷ ms) heap q = elim (Bool-cases (ltb_ℤ m.publish_time target)) [
  | inl old ↦
      rw (old, count_dropped)
        (count_dropped-id target ms _ q ∙ update_field (λ x. x.id) heap m.counters _ refl q)
  | inr new ↦ rw (new, count_dropped) (count_dropped-id target ms heap q)
]

pub seek_body-IsConsistent :
    (target : ℤ) (r : ℕ) (s : GServer) → IsConsistent s → IsConsistent (seek_body target r s).1
unfolding seek_body
seek_body-IsConsistent target r s c =
    let heap = count_dropped target (s.sub_heap r).msgs s.message_heap in
    let same = count_dropped-id target (s.sub_heap r).msgs s.message_heap in
    write-IsConsistent s heap r (record (s.sub_heap r) { msgs = _ }) c same refl refl
      (λ lt.
        replay_since-IsInbox s.next_message target heap s.msgs _
          (λ q h. same q ∙ c.ledger.named q h) c.ledger.logged
          (Sweeps-IsInbox (keep_since-Sweeps target (s.sub_heap r).msgs) (c.ledger.inbox r lt)))
