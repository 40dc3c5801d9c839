-- ===== src/Pstest/Topics.antt =====
-- The RPCs on topics, and `topic`, of gcpapi/pubsub/pstest/fake.go.
use gcp_emulator_pool.Common.{
  ℕ, suc, Bool, Option, none, some, List, [], ◌∷◌, if◌then◌else◌, ite, ℤ, Str, str_discrete,
  has_prefix, sort_strings, lookup, insert, delete, update, bytes, length,
}
use gcp_emulator_pool.Testutil.Paging.{Bounds, page_bounds, slice, collect, rounds}
use gcp_emulator_pool.Pstest.Pb.{
  PbTopic, Code, create_topic_req, get_topic_req, update_topic_req, list_topics_req,
  list_topic_subscriptions_req, delete_topic_req, topic_res, topics_res, topic_subscriptions_res,
  empty_res,
}
use gcp_emulator_pool.Pstest.State.{
  Topic, Subscription, GServer, Outcome, success, failure, panic, Handler,
}
use gcp_emulator_pool.Pstest.Reactors.{intercept}

abbrev pub empty_topic : PbTopic
empty_topic = record { name = []; labels = []; message_storage_policy = none }

unfoldable pub new_topic : PbTopic → Topic
new_topic pt = record { proto = pt; subs = [] }

unfoldable pub create_topic_body : PbTopic → Handler
unfolding new_topic
create_topic_body t s = elim (lookup str_discrete t.name s.topics) [
  | some _ ↦ (failure Code.already_exists, s)
  | none ↦ (
    success (topic_res t),
    record s {
      topics = insert str_discrete t.name s.next_topic s.topics;
      topic_heap = update s.topic_heap s.next_topic (new_topic t);
      next_topic = suc s.next_topic;
    },
  )
]

unfoldable pub create_topic : PbTopic → Handler
create_topic t =
    intercept (bytes "CreateTopic") (create_topic_req t) (topic_res empty_topic)
      (create_topic_body t)

unfoldable pub get_topic_body : Str → Handler
get_topic_body name s = elim (lookup str_discrete name s.topics) [
  | some r ↦ (success (topic_res (s.topic_heap r).proto), s)
  | none ↦ (failure Code.not_found, s)
]

unfoldable pub get_topic : Str → Handler
get_topic name =
    intercept (bytes "GetTopic") (get_topic_req name) (topic_res empty_topic) (get_topic_body name)

-- The loop over the paths of the mask: the topic as far as it is updated, and the error.
unfoldable pub update_topic_paths : PbTopic → List Str → PbTopic → PbTopic × Option Code
update_topic_paths req [] t = (t, none)
update_topic_paths req (path ∷ paths) t =
    let with_labels = update_topic_paths req paths (record t { labels = req.labels }) in
    let with_policy =
      update_topic_paths req paths
        (record t { message_storage_policy = req.message_storage_policy }) in
    ite (str_discrete path (bytes "labels")) with_labels (
      ite (str_discrete path (bytes "message_storage_policy")) with_policy
        (t, some Code.invalid_argument))

unfoldable pub store_topic : ℕ → PbTopic × Option Code → Handler
store_topic r (t, err) s =
    let s' = record s {
      topic_heap = update s.topic_heap r (record (s.topic_heap r) { proto = t });
    } in
    elim err [ none ↦ (success (topic_res t), s') | some code ↦ (failure code, s') ]

-- A request with no topic, or with no mask for a topic that is there, dereferences nil.
unfoldable pub update_topic_body : Option PbTopic → Option (List Str) → Handler
unfolding store_topic
update_topic_body none mask s = (panic, s)
update_topic_body (some req) mask s = elim (lookup str_discrete req.name s.topics) [
  | none ↦ (failure Code.not_found, s)
  | some r ↦ elim mask [
    | none ↦ (panic, s)
    | some paths ↦ store_topic r (update_topic_paths req paths (s.topic_heap r).proto) s
  ]
]

unfoldable pub update_topic : Option PbTopic → Option (List Str) → Handler
update_topic req mask =
    intercept (bytes "UpdateTopic") (update_topic_req req mask) (topic_res empty_topic)
      (update_topic_body req mask)

-- The loop over a map that gathers the names that pass a test.
unfoldable pub names_where : (Str → ℕ → Bool) → List (Str × ℕ) → List Str
names_where test [] = []
names_where test ((n, r) ∷ m) = if test n r then n ∷ names_where test m else names_where test m

-- `s.topics[n].proto`. Every name that the handler looks up comes from the map.
unfoldable pub topic_at : GServer → Str → PbTopic
topic_at s name = elim (lookup str_discrete name s.topics) [
  | some r ↦ (s.topic_heap r).proto
  | none ↦ empty_topic
]

abbrev pub map_topics : (Str → PbTopic) → List Str → List PbTopic
map_topics f [] = []
map_topics f (n ∷ ns) = f n ∷ map_topics f ns

-- The answer of ListTopics once the page is known.
unfoldable pub topics_page : GServer → List Str → Option Bounds → Outcome
topics_page s names none = failure Code.invalid_argument
topics_page s names (some b) = elim (collect names b.from (rounds b.from b.to)) [
  | none ↦ panic
  | some page ↦ success (topics_res (map_topics (topic_at s) page) b.next_page_token)
]

abbrev pub topic_names : GServer → Str → List Str
topic_names s project = sort_strings (names_where (λ n _. has_prefix n project) s.topics)

unfoldable pub list_topics_body : Str → ℤ → Str → Handler
unfolding topics_page names_where
list_topics_body project page_size page_token s =
    let names = topic_names s project in
    (topics_page s names (page_bounds page_size page_token (length names)), s)

unfoldable pub list_topics : Str → ℤ → Str → Handler
list_topics project page_size page_token =
    intercept (bytes "ListTopics") (list_topics_req project page_size page_token) (topics_res [] [])
      (list_topics_body project page_size page_token)

abbrev pub is_topic_of : GServer → Str → ℕ → Bool
is_topic_of s name r =
    ite (str_discrete (s.topic_heap (s.sub_heap r).topic).proto.name name) Bool.true Bool.false

unfoldable pub topic_subscriptions_page : List Str → Option Bounds → Outcome
topic_subscriptions_page names none = failure Code.invalid_argument
topic_subscriptions_page names (some b) = elim (slice names b.from b.to) [
  | none ↦ panic
  | some page ↦ success (topic_subscriptions_res page b.next_page_token)
]

abbrev pub topic_subscription_names : GServer → Str → List Str
topic_subscription_names s name = sort_strings (names_where (λ _ r. is_topic_of s name r) s.subs)

unfoldable pub list_topic_subscriptions_body : Str → ℤ → Str → Handler
unfolding topic_subscriptions_page names_where
list_topic_subscriptions_body name page_size page_token s =
    let names = topic_subscription_names s name in
    (topic_subscriptions_page names (page_bounds page_size page_token (length names)), s)

unfoldable pub list_topic_subscriptions : Str → ℤ → Str → Handler
list_topic_subscriptions name page_size page_token =
    intercept (bytes "ListTopicSubscriptions")
      (list_topic_subscriptions_req name page_size page_token) (topic_subscriptions_res [] [])
      (list_topic_subscriptions_body name page_size page_token)

abbrev pub deleted_topic : Str
deleted_topic = bytes "_deleted-topic_"

abbrev pub orphan : Subscription → Subscription
orphan sub = record sub { proto = record (sub.proto) { topic = deleted_topic } }

-- `topic.stop`.
unfoldable pub stop_topic : List (Str × ℕ) → (ℕ → Subscription) → ℕ → Subscription
stop_topic [] heap = heap
stop_topic ((name, r) ∷ subs) heap = stop_topic subs (update heap r (orphan (heap r)))

unfoldable pub delete_topic_body : Str → Handler
delete_topic_body name s = elim (lookup str_discrete name s.topics) [
  | none ↦ (failure Code.not_found, s)
  | some r ↦ (
    success empty_res,
    record s {
      sub_heap = stop_topic (s.topic_heap r).subs s.sub_heap;
      topics = delete str_discrete name s.topics;
    },
  )
]

unfoldable pub delete_topic : Str → Handler
delete_topic name =
    intercept (bytes "DeleteTopic") (delete_topic_req name) empty_res (delete_topic_body name)
