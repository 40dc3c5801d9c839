-- ===== src/Pstest/Invariant/Publish.antt =====
-- Publishing keeps the registry as it is and the ledger in order.
use gcp_emulator_pool.Common.{
  ℕ, suc, ◌<◌, ◌≡◌, refl, ap, ◌∙◌, List, [], ◌∷◌, arith, Str, str_discrete, ℤ, ℕ_discrete,
  All-append, All-imp, lookup-insert, update, update_at, update_ne, update_field,
}
use gcp_emulator_pool.Pstest.Pb.{PubsubMessage}
use gcp_emulator_pool.Pstest.State.{SubMessage, Subscription, GServer}
use gcp_emulator_pool.Pstest.Publishing.{
  message_id, publish_to, publish_one, publish_loop, receive, new_message, new_sub_message, stamp,
}
use gcp_emulator_pool.Pstest.Invariant.Registry.{SameRegistry, SameRegistry-Registry}
use gcp_emulator_pool.Pstest.Invariant.Inbox.{Held, Held-mono, IsInbox, insert-IsInbox}
use gcp_emulator_pool.Pstest.Invariant.Ledger.{Ledger, IsInbox-update}
use gcp_emulator_pool.Pstest.Invariant.Messages.{IsConsistent}

publish_to_same :
    (subs : List (Str × ℕ)) (id : Str) (m : SubMessage) (heap : ℕ → Subscription) (q : ℕ)
    → ((publish_to subs id m heap q).proto ≡ (heap q).proto)
      × ((publish_to subs id m heap q).topic ≡ (heap q).topic)
unfolding publish_to
publish_to_same [] id m heap q = (refl, refl)
publish_to_same ((name, r) ∷ subs) id m heap q =
    let (p, t) = publish_to_same subs id m (update heap r (receive id m (heap r))) q in
    (
      p ∙ update_field (λ x. x.proto) heap r (receive id m (heap r)) refl q,
      t ∙ update_field (λ x. x.topic) heap r (receive id m (heap r)) refl q,
    )

publish_to-IsInbox :
    (n bound : ℕ) (subs : List (Str × ℕ)) (id : Str) (m : SubMessage) (heap : ℕ → Subscription)
    → Held n (id, m)
    → ((q : ℕ) → q < bound → IsInbox n (heap q).msgs)
    → (q : ℕ) → q < bound
    → IsInbox n (publish_to subs id m heap q).msgs
unfolding publish_to
publish_to-IsInbox n bound [] id m heap held old q h = old q h
publish_to-IsInbox n bound ((name, r) ∷ subs) id m heap held old q h =
    publish_to-IsInbox n bound subs id m _ held
      (IsInbox-update n bound r heap (receive id m (heap r)) old
        (λ lt. insert-IsInbox n id m (heap r).msgs held (old r lt)))
      q h

publish_one-SameRegistry :
    (clock : ℕ → ℤ) (top : ℕ) (pm : PubsubMessage) (s : GServer)
    → SameRegistry s (publish_one clock top pm s)
unfolding publish_one
publish_one-SameRegistry clock top pm s = record {
  same_topics = refl;
  same_subs = refl;
  same_next_topic = refl;
  same_next_sub = refl;
  same_topic_name = λ t. refl;
  same_topic_subs = λ t. refl;
  same_sub_name =
      λ r. ap (λ p. p.name) (publish_to_same (s.topic_heap top).subs _ _ s.sub_heap r).0;
  same_sub_topic = λ r. (publish_to_same (s.topic_heap top).subs _ _ s.sub_heap r).1;
}

publish_one-Ledger :
    (clock : ℕ → ℤ) (top : ℕ) (pm : PubsubMessage) (s : GServer)
    → Ledger s
    → Ledger (publish_one clock top pm s)
unfolding publish_one
publish_one-Ledger clock top pm s l =
    let n = s.next_message in
    let id = message_id s.next_id in
    let t = clock s.next_id in
    let e : id ≡ message_id n = ap message_id l.numbered in
    record {
      numbered = ap suc l.numbered;
      named = λ r h. elim (ℕ_discrete n r) [
        | yes eq ↦
            ap (λ m. m.id) (update_at s.message_heap n (new_message id pm t) r eq)
            ∙ e
            ∙ ap message_id eq
        | no ne ↦
            ap (λ m. m.id) (update_ne s.message_heap n r (new_message id pm t) ne)
            ∙ l.named r (omega arith)
      ];
      logged =
          All-append (λ r. r < suc n) s.msgs (n ∷ [])
            (All-imp (λ r. r < n) (λ r. r < suc n) (λ r h. omega arith) s.msgs l.logged)
            (omega arith, tt);
      recorded = λ k r h.
          ground (arith, lookup-insert str_discrete id k n s.msgs_by_id, l.recorded k r, e);
      inbox =
          publish_to-IsInbox (suc n) s.next_sub (s.topic_heap top).subs id
            (new_sub_message (stamp id t pm) t n) s.sub_heap (omega arith, e, refl)
            (λ q h.
              let b = l.inbox q h in
              record {
                held = Held-mono n (suc n) (omega arith) (s.sub_heap q).msgs b.held;
                unique = b.unique;
              });
    }

pub publish_one-IsConsistent :
    (clock : ℕ → ℤ) (top : ℕ) (pm : PubsubMessage) (s : GServer)
    → IsConsistent s
    → IsConsistent (publish_one clock top pm s)
publish_one-IsConsistent clock top pm s c = record {
  registry = SameRegistry-Registry (publish_one-SameRegistry clock top pm s) c.registry;
  ledger = publish_one-Ledger clock top pm s c.ledger;
}

pub publish_loop-IsConsistent :
    (clock : ℕ → ℤ) (top : ℕ) (pms : List PubsubMessage) (ids : List Str) (s : GServer)
    → IsConsistent s
    → IsConsistent (publish_loop clock top pms ids s).1
unfolding publish_loop
publish_loop-IsConsistent clock top [] ids s c = c
publish_loop-IsConsistent clock top (pm ∷ pms) ids s c =
    publish_loop-IsConsistent clock top pms _ _ (publish_one-IsConsistent clock top pm s c)
