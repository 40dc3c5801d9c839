-- ===== src/Pstest/Invariant/RegistryCalls.antt =====
-- The calls that change the registry keep it consistent.
use gcp_emulator_pool.Common.{
  ℕ, suc, ◌<◌, ◌≡◌, ◌≢◌, refl, ap, ◌∙◌, none, some, List, [], ◌∷◌, arith, Str, str_discrete, inl,
  inr, ℕ_discrete, lookup, insert, delete, lookup-insert, lookup-delete, update, update_at,
  update_ne, update_field, Option-cases, Bool-cases, true,
}
use gcp_emulator_pool.Pstest.Pb.{PbTopic, PbSubscription}
use gcp_emulator_pool.Pstest.State.{Topic, Subscription, GServer}
use gcp_emulator_pool.Pstest.Topics.{
  new_topic, create_topic_body, delete_topic_body, stop_topic, orphan,
}
use gcp_emulator_pool.Pstest.Subscriptions.{
  add_subscription, delete_sub, delete_subscription_body, detach_subscription_body,
}
use gcp_emulator_pool.Pstest.Invariant.Registry.{
  Registry, SameRegistry-Registry, update_sub-SameRegistry,
}

abbrev add_topic : PbTopic → GServer → GServer
add_topic t s = record s {
  topics = insert str_discrete t.name s.next_topic s.topics;
  topic_heap = update s.topic_heap s.next_topic (new_topic t);
  next_topic = suc s.next_topic;
}

-- A subscription of the heap with a new topic is one of the heap before.
lookup-new_topic :
    (heap : ℕ → Topic) (new : ℕ) (t : PbTopic) (u : ℕ) (n : Str) (r : ℕ)
    → lookup str_discrete n (update heap new (new_topic t) u).subs ≡ some r
    → (new ≢ u) × (lookup str_discrete n (heap u).subs ≡ some r)
unfolding update new_topic lookup
lookup-new_topic heap new t u n r h = elim (ℕ_discrete new u) [
  | yes e ↦
      absurd (cc (ap (λ x. lookup str_discrete n x.subs) (update_at heap new (new_topic t) u e)))
  | no ne ↦ (ne, cc (update_ne heap new u (new_topic t) ne))
]

add_topic-Registry : (t : PbTopic) (s : GServer) → Registry s → Registry (add_topic t s)
unfolding update new_topic
add_topic-Registry t s g = record {
  topic_named = λ n r h.
      ground (arith, lookup-insert str_discrete t.name n s.next_topic s.topics, g.topic_named n r);
  sub_named = λ n r h. ground (arith, g.sub_named n r h);
  attached = λ u n r lt h.
      ground (arith, g.attached u n r, lookup-new_topic s.topic_heap s.next_topic t u n r h);
}

pub create_topic_body-Registry :
    (t : PbTopic) (s : GServer) → Registry s → Registry (create_topic_body t s).1
unfolding create_topic_body
create_topic_body-Registry t s g = elim (Option-cases (lookup str_discrete t.name s.topics)) [
  | inl e ↦ rw (e, create_topic_body) (add_topic-Registry t s g)
  | inr (r, e) ↦ rw (e, create_topic_body) g
]

-- `topic.stop` changes only the topic that the settings name.
stop_topic_same :
    (subs : List (Str × ℕ)) (heap : ℕ → Subscription) (r : ℕ)
    → ((stop_topic subs heap r).proto.name ≡ (heap r).proto.name)
      × ((stop_topic subs heap r).topic ≡ (heap r).topic)
unfolding stop_topic
stop_topic_same [] heap r = (refl, refl)
stop_topic_same ((name, q) ∷ subs) heap r =
    let (a, b) = stop_topic_same subs (update heap q (orphan (heap q))) r in
    (
      a ∙ update_field (λ x. x.proto.name) heap q (orphan (heap q)) refl r,
      b ∙ update_field (λ x. x.topic) heap q (orphan (heap q)) refl r,
    )

remove_topic-Registry :
    (n : Str) (subs : List (Str × ℕ)) (s : GServer)
    → Registry s
    → Registry (record s {
      sub_heap = stop_topic subs s.sub_heap;
      topics = delete str_discrete n s.topics;
    })
remove_topic-Registry n subs s g = record {
  topic_named = λ m r h. ground (arith, lookup-delete str_discrete n m s.topics, g.topic_named m r);
  sub_named = λ m r h. ground (arith, stop_topic_same subs s.sub_heap r, g.sub_named m r h);
  attached = λ u m r lt h. ground (arith, stop_topic_same subs s.sub_heap r, g.attached u m r lt h);
}

pub delete_topic_body-Registry :
    (n : Str) (s : GServer) → Registry s → Registry (delete_topic_body n s).1
unfolding delete_topic_body
delete_topic_body-Registry n s g = elim (Option-cases (lookup str_discrete n s.topics)) [
  | inl e ↦ rw (e, delete_topic_body) g
  | inr (r, e) ↦ rw (e, delete_topic_body) (remove_topic-Registry n (s.topic_heap r).subs s g)
]

pub add_subscription-Registry :
    (top : ℕ) (ps : PbSubscription) (s : GServer)
    → Registry s
    → top < s.next_topic
    → lookup str_discrete ps.name s.subs ≡ none
    → Registry (add_subscription top ps s)
unfolding add_subscription update
add_subscription-Registry top ps s g lt new = record {
  topic_named = λ n r h. ground (arith, g.topic_named n r h);
  sub_named = λ n r h.
      ground (arith, lookup-insert str_discrete ps.name n s.next_sub s.subs, g.sub_named n r);
  attached = λ u n r ltu h. ground (
    arith,
    lookup-insert str_discrete ps.name n s.next_sub s.subs,
    lookup-insert str_discrete ps.name n s.next_sub (s.topic_heap top).subs,
    g.attached u n r ltu,
    g.sub_named n r,
  );
}

-- A subscription leaves the `subs` of its topic.
delete_sub-Registry :
    (r : ℕ) (s : GServer)
    → Registry s
    → Registry (record s { topic_heap = delete_sub (s.sub_heap r) s.topic_heap })
unfolding delete_sub update
delete_sub-Registry r s g = record {
  topic_named = λ n q h. ground (arith, g.topic_named n q h);
  sub_named = λ n q h. g.sub_named n q h;
  attached = λ u n q lt h. ground (
    arith,
    lookup-delete str_discrete (s.sub_heap r).proto.name n (s.topic_heap (s.sub_heap r).topic).subs,
    g.attached u n q lt,
  );
}

pub detach_subscription_body-Registry :
    (r : ℕ) (s : GServer) → Registry s → Registry (detach_subscription_body r s).1
unfolding detach_subscription_body
detach_subscription_body-Registry r s g = delete_sub-Registry r s g

-- A registered subscription leaves both maps.
remove_subscription-Registry :
    (name : Str) (r : ℕ) (s : GServer)
    → Registry s
    → lookup str_discrete name s.subs ≡ some r
    → Registry (record s {
      subs = delete str_discrete name s.subs;
      topic_heap = delete_sub (s.sub_heap r) s.topic_heap;
    })
unfolding delete_sub update
remove_subscription-Registry name r s g h = record {
  topic_named = λ n q k. ground (arith, g.topic_named n q k);
  sub_named = λ n q k. ground (arith, lookup-delete str_discrete name n s.subs, g.sub_named n q);
  attached = λ u n q lt k. ground (
    arith,
    lookup-delete str_discrete (s.sub_heap r).proto.name n (s.topic_heap (s.sub_heap r).topic).subs,
    lookup-delete str_discrete name n s.subs,
    g.attached u n q lt,
    g.sub_named name r h,
  );
}

pub delete_subscription_body-Registry :
    (name : Str) (r : ℕ) (s : GServer)
    → Registry s
    → lookup str_discrete name s.subs ≡ some r
    → Registry (delete_subscription_body name r s).1
unfolding delete_subscription_body
delete_subscription_body-Registry name r s g h = elim (Bool-cases (s.sub_heap r).done) [
  | inl e ↦ rw e g
  | inr e ↦ rw e (
      SameRegistry-Registry
        (update_sub-SameRegistry
          (record s {
            subs = delete str_discrete name s.subs;
            topic_heap = delete_sub (s.sub_heap r) s.topic_heap;
          })
          r (record (s.sub_heap r) { done = true }) refl refl)
        (remove_subscription-Registry name r s g h))
]
