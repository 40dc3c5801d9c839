-- ===== src/Pstest/Invariant/Registry.antt =====
-- The registry of topics and subscriptions: what `topics`, `subs`, the `subs` of each topic and the
-- `topic` of each subscription say about one another.
use gcp_emulator_pool.Common.{
  ℕ, ◌<◌, ◌≡◌, refl, ◌∙◌, some, arith, Str, str_discrete, lookup, update, update_field,
}
use gcp_emulator_pool.Pstest.State.{Subscription, GServer}

-- Pointers are to allocated objects, a map leads to objects of the name that it is asked for, and
-- an entry of a topic's `subs` is a registered subscription that points back to the topic.
pub record Registry (s : GServer) : Type 0 where
  pub topic_named :
      (n : Str) (r : ℕ)
      → lookup str_discrete n s.topics ≡ some r
      → (r < s.next_topic) × ((s.topic_heap r).proto.name ≡ n)
  pub sub_named :
      (n : Str) (r : ℕ)
      → lookup str_discrete n s.subs ≡ some r
      → (r < s.next_sub) × ((s.sub_heap r).proto.name ≡ n) × ((s.sub_heap r).topic < s.next_topic)
  pub attached :
      (t : ℕ) (n : Str) (r : ℕ)
      → t < s.next_topic
      → lookup str_discrete n (s.topic_heap t).subs ≡ some r
      → (lookup str_discrete n s.subs ≡ some r) × ((s.sub_heap r).topic ≡ t)

-- What a call that only moves messages or changes settings leaves alone.
pub record SameRegistry (s s' : GServer) : Type 0 where
  pub same_topics : s'.topics ≡ s.topics
  pub same_subs : s'.subs ≡ s.subs
  pub same_next_topic : s'.next_topic ≡ s.next_topic
  pub same_next_sub : s'.next_sub ≡ s.next_sub
  pub same_topic_name : (t : ℕ) → (s'.topic_heap t).proto.name ≡ (s.topic_heap t).proto.name
  pub same_topic_subs : (t : ℕ) → (s'.topic_heap t).subs ≡ (s.topic_heap t).subs
  pub same_sub_name : (r : ℕ) → (s'.sub_heap r).proto.name ≡ (s.sub_heap r).proto.name
  pub same_sub_topic : (r : ℕ) → (s'.sub_heap r).topic ≡ (s.sub_heap r).topic

pub SameRegistry-refl : (s : GServer) → SameRegistry s s
SameRegistry-refl s = record {
  same_topics = refl;
  same_subs = refl;
  same_next_topic = refl;
  same_next_sub = refl;
  same_topic_name = λ t. refl;
  same_topic_subs = λ t. refl;
  same_sub_name = λ r. refl;
  same_sub_topic = λ r. refl;
}

pub SameRegistry-trans : {s t u : GServer} → SameRegistry s t → SameRegistry t u → SameRegistry s u
SameRegistry-trans a b = record {
  same_topics = b.same_topics ∙ a.same_topics;
  same_subs = b.same_subs ∙ a.same_subs;
  same_next_topic = b.same_next_topic ∙ a.same_next_topic;
  same_next_sub = b.same_next_sub ∙ a.same_next_sub;
  same_topic_name = λ t. b.same_topic_name t ∙ a.same_topic_name t;
  same_topic_subs = λ t. b.same_topic_subs t ∙ a.same_topic_subs t;
  same_sub_name = λ r. b.same_sub_name r ∙ a.same_sub_name r;
  same_sub_topic = λ r. b.same_sub_topic r ∙ a.same_sub_topic r;
}

pub SameRegistry-Registry : {s s' : GServer} → SameRegistry s s' → Registry s → Registry s'
SameRegistry-Registry {s} {s'} same g = record {
  topic_named = λ n r h.
      let (lt, named) = g.topic_named n r (cc (same.same_topics)) in
      (omega (arith, same.same_next_topic), same.same_topic_name r ∙ named);
  sub_named = λ n r h.
      let (lt, named, bound) = g.sub_named n r (cc (same.same_subs)) in
      (
        omega (arith, same.same_next_sub),
        same.same_sub_name r ∙ named,
        omega (arith, same.same_sub_topic r, same.same_next_topic),
      );
  attached = λ t n r lt h.
      let (registered, back) =
        g.attached t n r (omega (arith, same.same_next_topic)) (cc (same.same_topic_subs t)) in
      (cc (same.same_subs), same.same_sub_topic r ∙ back);
}

-- A write to one subscription that keeps its name and its topic.
pub update_sub-SameRegistry :
    (s : GServer) (r : ℕ) (sub : Subscription)
    → sub.proto.name ≡ (s.sub_heap r).proto.name
    → sub.topic ≡ (s.sub_heap r).topic
    → SameRegistry s (record s { sub_heap = update s.sub_heap r sub })
update_sub-SameRegistry s r sub named back = record {
  same_topics = refl;
  same_subs = refl;
  same_next_topic = refl;
  same_next_sub = refl;
  same_topic_name = λ t. refl;
  same_topic_subs = λ t. refl;
  same_sub_name = update_field (λ x. x.proto.name) s.sub_heap r sub named;
  same_sub_topic = update_field (λ x. x.topic) s.sub_heap r sub back;
}
