-- ===== src/Pstest/Failures.antt =====
-- What a failed RPC leaves (gcpapi/pubsub/pstest/fake.go).
use gcp_emulator_pool.Common.{
  ◌≡◌, refl, List, arith, Str, inl, inr, ℕ, Bool-cases, ◌||◌, Bool, true, false, ℤ,
}
use gcp_emulator_pool.Pstest.Pb.{
  Code, PbTopic, PbSubscription, PubsubMessage, Request, Response, create_topic_req, get_topic_req,
  update_topic_req, list_topics_req, list_topic_subscriptions_req, delete_topic_req,
  create_subscription_req, get_subscription_req, update_subscription_req, list_subscriptions_req,
  delete_subscription_req, detach_subscription_req, publish_req, acknowledge_req,
  modify_ack_deadline_req, pull_req, seek_req, missing, time, snapshot,
}
use gcp_emulator_pool.Pstest.State.{GServer, Handler, failure}
use gcp_emulator_pool.Pstest.Reactors.{intercept, run_reactor, is_some}
use gcp_emulator_pool.Pstest.Topics.{
  create_topic, get_topic, list_topics, list_topic_subscriptions, delete_topic, create_topic_body,
  get_topic_body, list_topics_body, list_topic_subscriptions_body, delete_topic_body,
}
use gcp_emulator_pool.Pstest.Subscriptions.{
  create_subscription, get_subscription, delete_subscription, detach_subscription,
  create_subscription_body, get_subscription_body, delete_subscription_body,
  detach_subscription_body, with_subscription, find_subscription,
}
use gcp_emulator_pool.Pstest.Settings.{list_subscriptions, list_subscriptions_body}
use gcp_emulator_pool.Pstest.Publishing.{publish, publish_body}
use gcp_emulator_pool.Pstest.Delivery.{acknowledge, modify_ack_deadline, modify_ack_deadline_body}
use gcp_emulator_pool.Pstest.Seeking.{seek, seek_body}
use gcp_emulator_pool.Pstest.Server.{Env, serve}
use gcp_emulator_pool.Pstest.Invariant.Calls.{Found-cases}

-- An RPC that does nothing when it fails.
abbrev pub IsAtomic : Handler → Type 0
IsAtomic h = (s : GServer) (code : Code) → (h s).0 ≡ failure code → (h s).1 ≡ s

intercept-IsAtomic :
    (name : Str) (req : Request) (d : Response) (h : Handler)
    → IsAtomic h
    → IsAtomic (intercept name req d h)
unfolding intercept
intercept-IsAtomic name req d h atomic s code e =
    elim (Bool-cases ((run_reactor s req name d).0 || is_some (run_reactor s req name d).2)) [
      | inl handled ↦ rw handled refl
      | inr on ↦ rw on (atomic s code (rw on at e))
    ]

with_subscription-IsAtomic :
    (name : Str) (rest : ℕ → Handler)
    → ((r : ℕ) → IsAtomic (rest r))
    → IsAtomic (with_subscription name rest)
unfolding with_subscription
with_subscription-IsAtomic name rest atomic s code e =
    elim (Found-cases (find_subscription name s)) [
      | inl (c, f) ↦ rw (f, with_subscription) refl
      | inr (r, f) ↦ rw (f, with_subscription) (atomic r s code (rw (f, with_subscription) at e))
    ]

create_topic_body-IsAtomic : (t : PbTopic) → IsAtomic (create_topic_body t)
unfolding create_topic_body
create_topic_body-IsAtomic t s code e = ground arith

get_topic_body-IsAtomic : (name : Str) → IsAtomic (get_topic_body name)
unfolding get_topic_body
get_topic_body-IsAtomic t s code e = ground arith

delete_topic_body-IsAtomic : (name : Str) → IsAtomic (delete_topic_body name)
unfolding delete_topic_body
delete_topic_body-IsAtomic t s code e = ground arith

create_subscription_body-IsAtomic : (ps : PbSubscription) → IsAtomic (create_subscription_body ps)
unfolding create_subscription_body
create_subscription_body-IsAtomic ps s code e = ground arith

delete_subscription_body-IsAtomic :
    (name : Str) (r : ℕ) → IsAtomic (delete_subscription_body name r)
unfolding delete_subscription_body
delete_subscription_body-IsAtomic name r s code e = ground arith

publish_body-IsAtomic :
    (clock : ℕ → ℤ) (topic : Str) (pms : List PubsubMessage)
    → IsAtomic (publish_body clock topic pms)
unfolding publish_body
publish_body-IsAtomic clock topic pms s code e = ground arith

modify_ack_deadline_body-IsAtomic :
    (received_at : ℤ) (clock : ℕ → ℤ) (ids : List Str) (secs : ℤ) (r : ℕ)
    → IsAtomic (modify_ack_deadline_body received_at clock ids secs r)
unfolding modify_ack_deadline_body
modify_ack_deadline_body-IsAtomic received_at clock ids secs r s code e = ground arith

-- The calls that may change the server and then fail: the updates stop at the first wrong path, and
-- a Pull keeps up the messages before it waits.
abbrev pub may_write : Request → Bool
may_write (update_topic_req t mask) = true
may_write (update_subscription_req ps mask) = true
may_write (pull_req name max at_once) = true
may_write req = false

serve-IsAtomic : (env : Env) (req : Request) → may_write req ≡ false → IsAtomic (serve env req)
unfolding serve create_topic get_topic list_topics list_topics_body list_topic_subscriptions
    list_topic_subscriptions_body delete_topic create_subscription get_subscription
    get_subscription_body list_subscriptions list_subscriptions_body delete_subscription
    detach_subscription detach_subscription_body publish acknowledge modify_ack_deadline seek
    seek_body
serve-IsAtomic env (create_topic_req t) h =
    intercept-IsAtomic _ _ _ _ (create_topic_body-IsAtomic t)
serve-IsAtomic env (get_topic_req name) h =
    intercept-IsAtomic _ _ _ _ (get_topic_body-IsAtomic name)
serve-IsAtomic env (update_topic_req t mask) h = absurd (cc)
serve-IsAtomic env (list_topics_req project size token) h =
    intercept-IsAtomic _ _ _ _ (λ s code e. refl)
serve-IsAtomic env (list_topic_subscriptions_req name size token) h =
    intercept-IsAtomic _ _ _ _ (λ s code e. refl)
serve-IsAtomic env (delete_topic_req name) h =
    intercept-IsAtomic _ _ _ _ (delete_topic_body-IsAtomic name)
serve-IsAtomic env (create_subscription_req ps) h =
    intercept-IsAtomic _ _ _ _ (create_subscription_body-IsAtomic ps)
serve-IsAtomic env (get_subscription_req name) h =
    intercept-IsAtomic _ _ _ _ (with_subscription-IsAtomic name _ (λ r s code e. refl))
serve-IsAtomic env (update_subscription_req ps mask) h = absurd (cc)
serve-IsAtomic env (list_subscriptions_req project size token) h =
    intercept-IsAtomic _ _ _ _ (λ s code e. refl)
serve-IsAtomic env (delete_subscription_req name) h =
    intercept-IsAtomic _ _ _ _
      (with_subscription-IsAtomic name _ (delete_subscription_body-IsAtomic name))
serve-IsAtomic env (detach_subscription_req name) h =
    intercept-IsAtomic _ _ _ _ (with_subscription-IsAtomic name _ (λ r s code e. absurd (cc)))
serve-IsAtomic env (publish_req topic pms) h =
    intercept-IsAtomic _ _ _ _ (publish_body-IsAtomic env.clock topic pms)
serve-IsAtomic env (acknowledge_req name ids) h =
    intercept-IsAtomic _ _ _ _ (with_subscription-IsAtomic name _ (λ r s code e. absurd (cc)))
serve-IsAtomic env (modify_ack_deadline_req name ids secs) h = intercept-IsAtomic _ _ _ _ (
    with_subscription-IsAtomic name _
      (modify_ack_deadline_body-IsAtomic env.received_at env.clock ids secs))
serve-IsAtomic env (pull_req name max now_only) h = absurd (cc)
serve-IsAtomic env (seek_req name missing) h = λ s code e. refl
serve-IsAtomic env (seek_req name (snapshot n)) h = λ s code e. refl
serve-IsAtomic env (seek_req name (time target)) h =
    intercept-IsAtomic _ _ _ _ (with_subscription-IsAtomic name _ (λ r s code e. absurd (cc)))

-- A call of CreateTopic, GetTopic, ListTopics, ListTopicSubscriptions, DeleteTopic,
-- CreateSubscription, GetSubscription, ListSubscriptions, DeleteSubscription, DetachSubscription,
-- Publish, Acknowledge, ModifyAckDeadline or Seek that fails leaves the server as it was, whether an
-- argument is wrong, an object is missing or there already, or a reactor injects the error.
pub serve_fails :
    (env : Env) (req : Request) (s : GServer) (code : Code)
    → may_write req ≡ false
    → (serve env req s).0 ≡ failure code
    → (serve env req s).1 ≡ s
serve_fails env req s code atomic failed = serve-IsAtomic env req atomic s code failed
