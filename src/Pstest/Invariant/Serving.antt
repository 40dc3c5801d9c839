-- ===== src/Pstest/Invariant/Serving.antt =====
-- Every RPC keeps the server consistent.
use gcp_emulator_pool.Common.{◌≡◌, sym, subst, none, some, arith, Str, ℤ}
use gcp_emulator_pool.Pstest.Pb.{
  Request, create_topic_req, get_topic_req, update_topic_req, list_topics_req,
  list_topic_subscriptions_req, delete_topic_req, create_subscription_req, get_subscription_req,
  update_subscription_req, list_subscriptions_req, delete_subscription_req, detach_subscription_req,
  publish_req, acknowledge_req, modify_ack_deadline_req, pull_req, seek_req, missing, time,
  snapshot,
}
use gcp_emulator_pool.Pstest.State.{GServer}
use gcp_emulator_pool.Pstest.Topics.{
  create_topic, get_topic, get_topic_body, update_topic, list_topics, list_topics_body,
  list_topic_subscriptions, list_topic_subscriptions_body, delete_topic,
}
use gcp_emulator_pool.Pstest.Subscriptions.{
  create_subscription, get_subscription, get_subscription_body, delete_subscription,
  detach_subscription,
}
use gcp_emulator_pool.Pstest.Settings.{
  update_subscription, list_subscriptions, list_subscriptions_body,
}
use gcp_emulator_pool.Pstest.Publishing.{publish}
use gcp_emulator_pool.Pstest.Delivery.{Wait, elapsed, pull, acknowledge, modify_ack_deadline}
use gcp_emulator_pool.Pstest.Seeking.{seek}
use gcp_emulator_pool.Pstest.Server.{Env, serve}
use gcp_emulator_pool.Pstest.Invariant.Messages.{
  IsConsistent, ack_all-IsConsistent, seek_body-IsConsistent,
}
use gcp_emulator_pool.Pstest.Invariant.Calls.{
  intercept_keeps, with_subscription_keeps, create_topic_body-IsConsistent,
  update_topic_body-IsConsistent, delete_topic_body-IsConsistent,
}
use gcp_emulator_pool.Pstest.Invariant.SubscriptionCalls.{
  update_subscription_body-IsConsistent, create_subscription_body-IsConsistent,
  delete_subscription_body-IsConsistent, detach_subscription_body-IsConsistent,
  publish_body-IsConsistent, pull_body-IsConsistent, modify_ack_deadline_body-IsConsistent,
}

abbrev pub OthersKeep : Wait → Type 0
OthersKeep wait =
    (others : GServer → GServer) (now : ℤ) (t : GServer)
    → wait ≡ elapsed others now
    → IsConsistent t
    → IsConsistent (others t)

get_topic_body_same : (name : Str) (s : GServer) → (get_topic_body name s).1 ≡ s
unfolding get_topic_body
get_topic_body_same name s = ground arith

-- Every RPC keeps the server consistent, on every branch, if what other calls do while a Pull waits
-- keeps it so.
pub serve-IsConsistent :
    (env : Env) (req : Request) (s : GServer)
    → OthersKeep env.wait
    → IsConsistent s
    → IsConsistent (serve env req s).1
unfolding serve create_topic get_topic update_topic list_topics list_topics_body
    list_topic_subscriptions list_topic_subscriptions_body delete_topic create_subscription
    get_subscription get_subscription_body update_subscription list_subscriptions
    list_subscriptions_body delete_subscription detach_subscription publish acknowledge
    modify_ack_deadline pull seek
serve-IsConsistent env (create_topic_req t) s w c =
    intercept_keeps IsConsistent _ _ _ _ s c (create_topic_body-IsConsistent t s c)
serve-IsConsistent env (get_topic_req name) s w c =
    intercept_keeps IsConsistent _ _ _ _ s c
      (subst IsConsistent (sym (get_topic_body_same name s)) c)
serve-IsConsistent env (update_topic_req t mask) s w c =
    intercept_keeps IsConsistent _ _ _ _ s c (update_topic_body-IsConsistent t mask s c)
serve-IsConsistent env (list_topics_req project size token) s w c =
    intercept_keeps IsConsistent _ _ _ _ s c c
serve-IsConsistent env (list_topic_subscriptions_req name size token) s w c =
    intercept_keeps IsConsistent _ _ _ _ s c c
serve-IsConsistent env (delete_topic_req name) s w c =
    intercept_keeps IsConsistent _ _ _ _ s c (delete_topic_body-IsConsistent name s c)
serve-IsConsistent env (create_subscription_req ps) s w c =
    intercept_keeps IsConsistent _ _ _ _ s c (create_subscription_body-IsConsistent ps s c)
serve-IsConsistent env (get_subscription_req name) s w c =
    intercept_keeps IsConsistent _ _ _ _ s c
      (with_subscription_keeps IsConsistent name _ s c (λ r h. c))
serve-IsConsistent env (update_subscription_req none mask) s w c = c
serve-IsConsistent env (update_subscription_req (some req) mask) s w c =
    intercept_keeps IsConsistent _ _ _ _ s c (
      with_subscription_keeps IsConsistent req.name _ s c
        (λ r h. update_subscription_body-IsConsistent req mask r s c))
serve-IsConsistent env (list_subscriptions_req project size token) s w c =
    intercept_keeps IsConsistent _ _ _ _ s c c
serve-IsConsistent env (delete_subscription_req name) s w c =
    intercept_keeps IsConsistent _ _ _ _ s c (
      with_subscription_keeps IsConsistent name _ s c
        (λ r h. delete_subscription_body-IsConsistent name r s c h))
serve-IsConsistent env (detach_subscription_req name) s w c =
    intercept_keeps IsConsistent _ _ _ _ s c (
      with_subscription_keeps IsConsistent name _ s c
        (λ r h. detach_subscription_body-IsConsistent r s c))
serve-IsConsistent env (publish_req topic pms) s w c =
    intercept_keeps IsConsistent _ _ _ _ s c (publish_body-IsConsistent env.clock topic pms s c)
serve-IsConsistent env (acknowledge_req name ids) s w c =
    intercept_keeps IsConsistent _ _ _ _ s c
      (with_subscription_keeps IsConsistent name _ s c (λ r h. ack_all-IsConsistent ids r s c))
serve-IsConsistent env (modify_ack_deadline_req name ids secs) s w c =
    intercept_keeps IsConsistent _ _ _ _ s c (
      with_subscription_keeps IsConsistent name _ s c
        (λ r h. modify_ack_deadline_body-IsConsistent env.received_at env.clock ids secs r s c))
serve-IsConsistent env (pull_req name max now_only) s w c =
    intercept_keeps IsConsistent _ _ _ _ s c (
      with_subscription_keeps IsConsistent name _ s c
        (λ r h. pull_body-IsConsistent env.wait r s w c env.now max now_only))
serve-IsConsistent env (seek_req name missing) s w c = c
serve-IsConsistent env (seek_req name (snapshot n)) s w c = c
serve-IsConsistent env (seek_req name (time target)) s w c =
    intercept_keeps IsConsistent _ _ _ _ s c
      (with_subscription_keeps IsConsistent name _ s c (λ r h. seek_body-IsConsistent target r s c))
