-- ===== src/Pstest/Lifecycle.antt =====
-- The life of topics and subscriptions: what creation and deletion leave for the calls behind them
-- (gcpapi/pubsub/pstest/fake.go).
use gcp_emulator_pool.Common.{
  ℕ, suc, ◌≡◌, ◌≢◌, refl, sym, ap, ◌∙◌, true, false, none, some, List, [], ◌∷◌, arith, Str,
  str_discrete, inl, inr, ℤ, lookup, insert, delete, lookup-insert, lookup-delete, update,
  update_at, ℕ_discrete, ◌<◌, update_self, update_ne, update_field, ite, Option-cases, if_pos,
  if_neg, length, sort_strings, bytes,
}
use gcp_emulator_pool.Testutil.Paging.{page_bounds}
use gcp_emulator_pool.Pstest.Pb.{PbTopic, Code, topic_res, empty_res}
use gcp_emulator_pool.Pstest.State.{Subscription, GServer, success, failure}
use gcp_emulator_pool.Pstest.Topics.{
  create_topic_body, get_topic_body, delete_topic_body, stop_topic, orphan, new_topic,
  list_topic_subscriptions_body, names_where, is_topic_of, topic_subscriptions_page,
}
use gcp_emulator_pool.Pstest.Subscriptions.{delete_subscription_body, delete_sub}
use gcp_emulator_pool.Pstest.Invariant.Registry.{Registry}
use gcp_emulator_pool.Pstest.Publication.{reaches}

abbrev with_topic : PbTopic → GServer → GServer
with_topic t s = record s {
  topics = insert str_discrete t.name s.next_topic s.topics;
  topic_heap = update s.topic_heap s.next_topic (new_topic t);
  next_topic = suc s.next_topic;
}

create_topic_body_new :
    (t : PbTopic) (s : GServer)
    → lookup str_discrete t.name s.topics ≡ none
    → create_topic_body t s ≡ (success (topic_res t), with_topic t s)
unfolding create_topic_body
create_topic_body_new t s fresh = ground (arith, fresh)

create_topic_body_taken :
    (t : PbTopic) (s : GServer) {r : ℕ}
    → lookup str_discrete t.name s.topics ≡ some r
    → create_topic_body t s ≡ (failure Code.already_exists, s)
unfolding create_topic_body
create_topic_body_taken t s taken = ground (arith, taken)

get_topic_body_found :
    (name : Str) (s : GServer) {r : ℕ}
    → lookup str_discrete name s.topics ≡ some r
    → (get_topic_body name s).0 ≡ success (topic_res (s.topic_heap r).proto)
unfolding get_topic_body
get_topic_body_found name s here = ground (arith, here)

get_topic_body_missing :
    (name : Str) (s : GServer)
    → lookup str_discrete name s.topics ≡ none
    → (get_topic_body name s).0 ≡ failure Code.not_found
unfolding get_topic_body
get_topic_body_missing name s gone = ground (arith, gone)

with_topic-lookup :
    (t : PbTopic) (s : GServer) (n : Str)
    → lookup str_discrete n (with_topic t s).topics
      ≡ ite (str_discrete t.name n) (some s.next_topic) (lookup str_discrete n s.topics)
with_topic-lookup t s n = lookup-insert str_discrete t.name n s.next_topic s.topics

with_topic_at :
    (t : PbTopic) (s : GServer)
    → lookup str_discrete t.name (with_topic t s).topics ≡ some s.next_topic
with_topic_at t s = with_topic-lookup t s t.name ∙ if_pos (str_discrete t.name t.name) refl _ _

with_topic_elsewhere :
    (t : PbTopic) (s : GServer) (n : Str)
    → Registry s
    → t.name ≢ n
    → (get_topic_body n (with_topic t s)).0 ≡ (get_topic_body n s).0
with_topic_elsewhere t s n reg ne =
    let same = with_topic-lookup t s n ∙ if_neg (str_discrete t.name n) ne (some s.next_topic) _ in
    elim (Option-cases (lookup str_discrete n s.topics)) [
      | inl gone ↦
          get_topic_body_missing n (with_topic t s) (same ∙ gone)
          ∙ sym (get_topic_body_missing n s gone)
      | inr (r, here) ↦
          let (lt, _) = reg.topic_named n r here in
          get_topic_body_found n (with_topic t s) (same ∙ here)
          ∙ ap (λ x. success (topic_res x.proto))
              (update_ne s.topic_heap s.next_topic r (new_topic t) (λ e. omega arith))
          ∙ sym (get_topic_body_found n s here)
    ]

-- After a topic of a new name is created, GetTopic answers it under its name, and answers every
-- other name as before, if the registry is in order; a second creation under the name fails with
-- AlreadyExists and changes nothing.
pub create_topic_body-get_topic_body :
    (t t' : PbTopic) (s : GServer) (n : Str)
    → Registry s
    → lookup str_discrete t.name s.topics ≡ none
    → t'.name ≡ t.name
    → ((get_topic_body n (create_topic_body t s).1).0
        ≡ ite (str_discrete t.name n) (success (topic_res t)) (get_topic_body n s).0)
      × (create_topic_body t' (create_topic_body t s).1
          ≡ (failure Code.already_exists, (create_topic_body t s).1))
unfolding new_topic
create_topic_body-get_topic_body t t' s n reg fresh e =
    let itself =
      get_topic_body_found t.name (with_topic t s) (with_topic_at t s)
      ∙ ap (λ x. success (topic_res x.proto))
          (update_self s.topic_heap s.next_topic (new_topic t)) in
    rw (create_topic_body_new t s fresh) (
      elim (str_discrete t.name n) [
        | yes eq ↦
            ap (λ x. (get_topic_body x (with_topic t s)).0) (sym eq)
            ∙ itself
            ∙ sym (if_pos (str_discrete t.name n) eq _ _)
        | no ne ↦ with_topic_elsewhere t s n reg ne ∙ sym (if_neg (str_discrete t.name n) ne _ _)
      ],
      create_topic_body_taken t' (with_topic t s)
          (ap (λ x. lookup str_discrete x (with_topic t s).topics) e ∙ with_topic_at t s),
    )

abbrev without_topic : Str → ℕ → GServer → GServer
without_topic name top s = record s {
  sub_heap = stop_topic (s.topic_heap top).subs s.sub_heap;
  topics = delete str_discrete name s.topics;
}

delete_topic_body_found :
    (name : Str) (s : GServer) {top : ℕ}
    → lookup str_discrete name s.topics ≡ some top
    → delete_topic_body name s ≡ (success empty_res, without_topic name top s)
unfolding delete_topic_body
delete_topic_body_found name s here = ground (arith, here)

without_topic-lookup :
    (name : Str) (top : ℕ) (s : GServer)
    → lookup str_discrete name (without_topic name top s).topics ≡ none
without_topic-lookup name top s =
    lookup-delete str_discrete name name s.topics ∙ if_pos (str_discrete name name) refl _ _

stop_topic-topic :
    (subs : List (Str × ℕ)) (heap : ℕ → Subscription) (q : ℕ)
    → (stop_topic subs heap q).topic ≡ (heap q).topic
unfolding stop_topic
stop_topic-topic [] heap q = refl
stop_topic-topic ((name, r) ∷ subs) heap q =
    stop_topic-topic subs (update heap r (orphan (heap r))) q
    ∙ update_field (λ x. x.topic) heap r (orphan (heap r)) refl q

-- The subscriptions listed under a name depend on the topics that they point to.
names_where_same :
    (s s' : GServer) (n : Str) (m : List (Str × ℕ))
    → s'.topic_heap ≡ s.topic_heap
    → ((r : ℕ) → (s'.sub_heap r).topic ≡ (s.sub_heap r).topic)
    → names_where (λ _ r. is_topic_of s' n r) m ≡ names_where (λ _ r. is_topic_of s n r) m
names_where_same s s' n m heap back = ap (λ f. names_where f m) (λ i _ r. is_same r i)
  where
    is_same : (r : ℕ) → is_topic_of s' n r ≡ is_topic_of s n r
    is_same r =
        ap (λ x. ite (str_discrete x n) true false)
          (ap (λ h. (h (s'.sub_heap r).topic).proto.name) heap
            ∙ ap (λ t. (s.topic_heap t).proto.name) (back r))

stop_topic-lem :
    (subs : List (Str × ℕ)) (heap : ℕ → Subscription) (q : ℕ)
    → stop_topic subs heap q ≡ (elim (reaches subs q) [ true ↦ orphan (heap q) | false ↦ heap q ])
unfolding stop_topic reaches update
stop_topic-lem [] heap q = refl
stop_topic-lem ((name, r) ∷ subs) heap q =
    ground (arith, stop_topic-lem subs (update heap r (orphan (heap r))) q)

-- DeleteTopic unregisters the topic and marks each subscription of the topic with the name
-- `_deleted-topic_` in place of its topic's, but it leaves the subscriptions registered, their messages and streams included,
-- and every other subscription as it was. Each subscription still points to the old topic, so that
-- ListTopicSubscriptions answers for any name what it answered before.
pub delete_topic_body_orphans :
    (name : Str) (s : GServer) {top : ℕ}
    → lookup str_discrete name s.topics ≡ some top
    → ((delete_topic_body name s).0 ≡ success empty_res)
      × (lookup str_discrete name (delete_topic_body name s).1.topics ≡ none)
      × ((delete_topic_body name s).1.subs ≡ s.subs)
      × ((q : ℕ)
          → (delete_topic_body name s).1.sub_heap q ≡ (elim (reaches (s.topic_heap top).subs q) [
            | true ↦ record (s.sub_heap q) {
              proto = record (s.sub_heap q).proto { topic = bytes "_deleted-topic_" };
            }
            | false ↦ s.sub_heap q
          ]))
      × ((n : Str) (size : ℤ) (token : Str)
          → (list_topic_subscriptions_body n size token (delete_topic_body name s).1).0
            ≡ (list_topic_subscriptions_body n size token s).0)
unfolding list_topic_subscriptions_body
delete_topic_body_orphans name s {top} here = rw (delete_topic_body_found name s here) (
  refl,
  without_topic-lookup name top s,
  refl,
  λ q. stop_topic-lem (s.topic_heap top).subs s.sub_heap q,
  λ n size token.
      ap (λ names. topic_subscriptions_page names (page_bounds size token (length names)))
        (ap sort_strings (
          names_where_same s (without_topic name top s) n s.subs refl
            (stop_topic-topic (s.topic_heap top).subs s.sub_heap))),
)

-- A topic that is created again under the name of a deleted one has no subscriptions, so that
-- publishing to it reaches none of the old ones.
pub delete_topic_body-create_topic_body :
    (t : PbTopic) (s : GServer) {old : ℕ}
    → lookup str_discrete t.name s.topics ≡ some old
    → (top : ℕ) × (lookup str_discrete t.name
          (create_topic_body t (delete_topic_body t.name s).1).1.topics
        ≡ some top)
      × ((q : ℕ)
          → reaches ((create_topic_body t (delete_topic_body t.name s).1).1.topic_heap top).subs q
            ≡ false)
unfolding reaches new_topic
delete_topic_body-create_topic_body t s {old} here =
    let s' = without_topic t.name old s in
    rw (delete_topic_body_found t.name s here) (
      rw (create_topic_body_new t s' (without_topic-lookup t.name old s)) (
        s.next_topic,
        with_topic_at t s',
        λ q. ap (λ x. reaches x.subs q) (update_self s.topic_heap s.next_topic (new_topic t)),
      ))

-- The map of the subscription's topic loses the name, and no other has it.
detached :
    (name : Str) (s : GServer) (r t : ℕ)
    → Registry s
    → lookup str_discrete name s.subs ≡ some r
    → t < s.next_topic
    → lookup str_discrete name (delete_sub (s.sub_heap r) s.topic_heap t).subs ≡ none
unfolding delete_sub
detached name s r t reg here lt =
    let sub = s.sub_heap r in
    let (_, named, _) = reg.sub_named name r here in
    elim (ℕ_discrete sub.topic t) [
      | yes e ↦
          ap (λ x. lookup str_discrete name x.subs) (update_at s.topic_heap sub.topic _ t e)
          ∙ lookup-delete str_discrete sub.proto.name name (s.topic_heap sub.topic).subs
          ∙ if_pos (str_discrete sub.proto.name name) named none _
      | no ne ↦
          ap (λ x. lookup str_discrete name x.subs) (update_ne s.topic_heap sub.topic t _ ne)
          ∙ (elim (Option-cases (lookup str_discrete name (s.topic_heap t).subs)) [
            | inl none_there ↦ none_there
            | inr (q, there) ↦
                let (registered, back) = reg.attached t name q lt there in
                let same : r ≡ q = ground arith in
                absurd (ne (ap (λ x. (s.sub_heap x).topic) same ∙ back))
          ])
    ]

-- DeleteSubscription of a registered subscription that is not stopped yet unregisters it and stops
-- it, and the map of no allocated topic leads to its name any more, so that publishing reaches it no
-- more; every other subscription is as it was. This holds if the registry is in order.
pub delete_subscription_body_unregisters :
    (name : Str) (s : GServer) (t q : ℕ) {r : ℕ}
    → Registry s
    → lookup str_discrete name s.subs ≡ some r
    → (s.sub_heap r).done ≡ false
    → t < s.next_topic
    → ((delete_subscription_body name r s).0 ≡ success empty_res)
      × (lookup str_discrete name (delete_subscription_body name r s).1.subs ≡ none)
      × (lookup str_discrete name ((delete_subscription_body name r s).1.topic_heap t).subs ≡ none)
      × ((delete_subscription_body name r s).1.sub_heap q
          ≡ ite (ℕ_discrete r q) (record (s.sub_heap r) { done = true }) (s.sub_heap q))
unfolding delete_subscription_body update
delete_subscription_body_unregisters name s t q {r} reg here open_yet lt =
    rw (open_yet, delete_subscription_body)
      (
        refl,
        lookup-delete str_discrete name name s.subs ∙ if_pos (str_discrete name name) refl _ _,
        detached name s r t reg here lt,
        refl,
      )
