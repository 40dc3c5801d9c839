-- ===== src/Pstest/Publication.antt =====
-- What publishing does to the subscriptions: `Publish` and `topic.publish`
-- (gcpapi/pubsub/pstest/fake.go).
use gcp_emulator_pool.Common.{
  ℕ, zero, suc, ◌≡◌, ◌≢◌, refl, ◌∙◌, Bool, true, false, some, List, [], ◌∷◌, arith, Str,
  str_discrete, ℤ, lookup, update, ite, ℕ_discrete, pos, negsuc,
}
use gcp_emulator_pool.Strconv.{itoa}
use gcp_emulator_pool.Pstest.Pb.{PubsubMessage, publish_res}
use gcp_emulator_pool.Pstest.State.{SubMessage, Subscription, GServer, success}
use gcp_emulator_pool.Pstest.Publishing.{
  message_id, receive, publish_to, publish_one, publish_loop, publish_body,
}

-- Whether a topic's map leads to the subscription `q`.
unfoldable pub reaches : List (Str × ℕ) → ℕ → Bool
reaches [] q = false
reaches ((name, r) ∷ subs) q = ite (ℕ_discrete r q) true (reaches subs q)

publish_to_out :
    (subs : List (Str × ℕ)) (id : Str) (m : SubMessage) (heap : ℕ → Subscription) (q : ℕ)
    → reaches subs q ≡ false
    → publish_to subs id m heap q ≡ heap q
unfolding publish_to reaches update
publish_to_out [] id m heap q h = refl
publish_to_out ((name, r) ∷ subs) id m heap q h =
    ground (arith, publish_to_out subs id m (update heap r (receive id m (heap r))) q)

-- The ids of `k` messages, from the number `n` on.
unfoldable pub numbered_ids : ℕ → ℕ → List Str
numbered_ids n zero = []
numbered_ids n (suc k) = (b'm' ∷ itoa n) ∷ numbered_ids (suc n) k

-- The message of the round with number `n`, as each subscription should get it: with the data of the
-- request, its id and time, no deadline and no stream.
abbrev pub delivered_copy : (ℕ → ℤ) → ℕ → ℕ → PubsubMessage → SubMessage
delivered_copy clock n r pm = record {
  proto = record {
    ack_id = b'm' ∷ itoa n;
    message = some (record {
      message_data = pm.message_data;
      attributes = pm.attributes;
      message_id = b'm' ∷ itoa n;
      publish_time = some (clock n);
      ordering_key = pm.ordering_key;
    });
  };
  publish_time = clock n;
  ack_deadline = pos 0;
  counters = r;
  stream_index = negsuc 0;
}

publish_one-reaches :
    (clock : ℕ → ℤ) (top : ℕ) (pm : PubsubMessage) (s : GServer) (q : ℕ)
    → reaches ((publish_one clock top pm s).topic_heap top).subs q
      ≡ reaches (s.topic_heap top).subs q
unfolding publish_one
publish_one-reaches clock top pm s q = refl

publish_loop_out :
    (clock : ℕ → ℤ) (top : ℕ) (pms : List PubsubMessage) (ids : List Str) (s : GServer) (q : ℕ)
    → reaches (s.topic_heap top).subs q ≡ false
    → (publish_loop clock top pms ids s).1.sub_heap q ≡ s.sub_heap q
unfolding publish_loop publish_one
publish_loop_out clock top [] ids s q h = refl
publish_loop_out clock top (pm ∷ pms) ids s q h =
    publish_loop_out clock top pms _ (publish_one clock top pm s) q
      (publish_one-reaches clock top pm s q ∙ h)
    ∙ publish_to_out (s.topic_heap top).subs _ _ s.sub_heap q h

publish_body_found :
    (clock : ℕ → ℤ) (topic : Str) (pms : List PubsubMessage) (s : GServer) {top : ℕ}
    → topic ≢ []
    → lookup str_discrete topic s.topics ≡ some top
    → publish_body clock topic pms s ≡ (
      success (publish_res (publish_loop clock top pms [] s).0),
      (publish_loop clock top pms [] s).1,
    )
unfolding publish_body
publish_body_found clock topic pms s named here = ground (arith, here)

-- Publish leaves every subscription that the topic's map does not lead to as it was.
pub publish_body_elsewhere :
    (clock : ℕ → ℤ) (topic : Str) (pms : List PubsubMessage) (s : GServer) (q : ℕ) {top : ℕ}
    → topic ≢ []
    → lookup str_discrete topic s.topics ≡ some top
    → reaches (s.topic_heap top).subs q ≡ false
    → (publish_body clock topic pms s).1.sub_heap q ≡ s.sub_heap q
publish_body_elsewhere clock topic pms s q {top} named here apart =
    rw (publish_body_found clock topic pms s named here)
      (publish_loop_out clock top pms [] s q apart)
