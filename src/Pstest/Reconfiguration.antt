-- ===== src/Pstest/Reconfiguration.antt =====
-- What UpdateTopic stores when it fails, and what UpdateSubscription leaves (gcpapi/pubsub/pstest/fake.go).
use gcp_emulator_pool.Common.{
  ℕ, ◌≡◌, ◌≢◌, refl, ap, Option, none, some, List, [], ◌∷◌, arith, Str, str_discrete, lookup,
  update, update_self, bytes,
}
use gcp_emulator_pool.Pstest.Pb.{PbTopic, PbSubscription, Code, topic_res}
use gcp_emulator_pool.Pstest.State.{GServer, success, failure}
use gcp_emulator_pool.Pstest.Topics.{
  update_topic_paths, update_topic_body, store_topic, get_topic_body,
}
use gcp_emulator_pool.Pstest.Settings.{update_paths, update_subscription_body, store_subscription}

store_topic_refused :
    (r : ℕ) (t : PbTopic) (code : Code) (s : GServer)
    → ((store_topic r (t, some code) s).0 ≡ failure code)
      × ((name : Str)
          → lookup str_discrete name s.topics ≡ some r
          → (get_topic_body name (store_topic r (t, some code) s).1).0 ≡ success (topic_res t))
unfolding store_topic get_topic_body
store_topic_refused r t code s = (
  refl,
  λ name here.
      rw (here, get_topic_body)
        (ap (λ x. success (topic_res x.proto))
          (update_self s.topic_heap r (record (s.topic_heap r) { proto = t }))),
)

labels_then :
    (req : PbTopic) (path : Str) (t : PbTopic)
    → path ≢ bytes "labels"
    → path ≢ bytes "message_storage_policy"
    → update_topic_paths req (bytes "labels" ∷ path ∷ []) t
      ≡ (record t { labels = req.labels }, some Code.invalid_argument)
unfolding update_topic_paths
labels_then req path t a b = ground arith

-- UpdateTopic stores what it has done so far when it meets a path that it does not know: with the
-- labels in front of such a path in the mask, it fails with InvalidArgument, and GetTopic answers
-- the labels of the refused request.
pub update_topic_body_partial :
    (req : PbTopic) (path : Str) (s : GServer) {r : ℕ}
    → lookup str_discrete req.name s.topics ≡ some r
    → path ≢ bytes "labels"
    → path ≢ bytes "message_storage_policy"
    → ((update_topic_body (some req) (some (bytes "labels" ∷ path ∷ [])) s).0
        ≡ failure Code.invalid_argument)
      × ((get_topic_body req.name
            (update_topic_body (some req) (some (bytes "labels" ∷ path ∷ [])) s).1).0
          ≡ success (topic_res (record (s.topic_heap r).proto { labels = req.labels })))
unfolding update_topic_body
update_topic_body_partial req path s {r} here a b =
    let (answer, stored) =
      store_topic_refused r (record (s.topic_heap r).proto { labels = req.labels })
        Code.invalid_argument s in
    let e : update_topic_body (some req) (some (bytes "labels" ∷ path ∷ [])) s
        ≡ store_topic r
            (record (s.topic_heap r).proto { labels = req.labels }, some Code.invalid_argument) s =
      rw (here, update_topic_body)
        (ap (λ x. store_topic r x s) (labels_then req path (s.topic_heap r).proto a b)) in
    rw e (answer, stored req.name here)

store_keeps :
    (r : ℕ) (result : PbSubscription × Option Code) (s : GServer) (q : ℕ)
    → (((store_subscription r result s).1.sub_heap q).ack_timeout ≡ (s.sub_heap q).ack_timeout)
      × (((store_subscription r result s).1.sub_heap q).msgs ≡ (s.sub_heap q).msgs)
      × (((store_subscription r result s).1.sub_heap q).streams ≡ (s.sub_heap q).streams)
unfolding store_subscription update
store_keeps r (p, none) s q = ground arith
store_keeps r (p, some code) s q = ground arith

-- UpdateSubscription never changes a subscription's own timeout, nor its messages or streams, so a
-- new acknowledgement deadline has no effect on the deadlines that Pull gives out.
pub update_subscription_body_timeout :
    (req : PbSubscription) (mask : Option (List Str)) (r : ℕ) (s : GServer) (q : ℕ)
    → (((update_subscription_body req mask r s).1.sub_heap q).ack_timeout
        ≡ (s.sub_heap q).ack_timeout)
      × (((update_subscription_body req mask r s).1.sub_heap q).msgs ≡ (s.sub_heap q).msgs)
      × (((update_subscription_body req mask r s).1.sub_heap q).streams ≡ (s.sub_heap q).streams)
unfolding update_subscription_body store_subscription
update_subscription_body_timeout req none r s q = (refl, refl, refl)
update_subscription_body_timeout req (some paths) r s q =
    store_keeps r (update_paths s.min_ack_deadline_secs req paths (s.sub_heap r).proto) s q
