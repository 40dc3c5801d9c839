-- ===== src/Pstest/Injection.antt =====
-- What reactors do to an RPC: `NewServer` with `WithErrorInjection`
-- (gcpapi/pubsub/pstest/fake.go).
use gcp_emulator_pool.Common.{
  sym, ◌≡◌, refl, ap, ◌∙◌, none, some, [], ◌∷◌, arith, Str, str_discrete, lookup, insert, ite,
  Option, if_pos, if_neg, Bool, true, false, bytes,
}
use gcp_emulator_pool.Pstest.Pb.{
  Code, Request, Response, kind, kind_discrete, create_topic_req, get_topic_req, update_topic_req,
  list_topics_req, list_topic_subscriptions_req, delete_topic_req, create_subscription_req,
  get_subscription_req, update_subscription_req, list_subscriptions_req, delete_subscription_req,
  detach_subscription_req, publish_req, acknowledge_req, modify_ack_deadline_req, pull_req,
  seek_req, missing, time, snapshot, topic_res, topics_res, topic_subscriptions_res,
  subscription_res, subscriptions_res, detach_res, empty_res, publish_res, pull_res, seek_res,
}
use gcp_emulator_pool.Pstest.State.{GServer, success, failure, panic, Handler}
use gcp_emulator_pool.Pstest.Reactors.{
  intercept, run_reactor, react_first, add_reactors, with_error_injection, error_injection_reactor,
  errorf, assert_kind,
}
use gcp_emulator_pool.Pstest.Server.{Env, serve, new_server}
use gcp_emulator_pool.Pstest.Topics.{
  create_topic, get_topic, update_topic, update_topic_body, list_topics, list_topic_subscriptions,
  delete_topic, create_topic_body, get_topic_body, list_topics_body, list_topic_subscriptions_body,
  delete_topic_body, empty_topic,
}
use gcp_emulator_pool.Pstest.Subscriptions.{
  create_subscription, get_subscription, delete_subscription, detach_subscription,
  create_subscription_body, get_subscription_body, delete_subscription_body,
  detach_subscription_body, with_subscription, empty_subscription,
}
use gcp_emulator_pool.Pstest.Settings.{
  list_subscriptions, list_subscriptions_body, update_subscription, update_subscription_body,
}
use gcp_emulator_pool.Pstest.Publishing.{publish, publish_body}
use gcp_emulator_pool.Pstest.Delivery.{
  acknowledge, ack_all, modify_ack_deadline, modify_ack_deadline_body, pull, pull_body,
}
use gcp_emulator_pool.Pstest.Seeking.{seek, seek_body}

injected_options :
    (name : Str) (code : Code) (k : Str)
    → lookup str_discrete k (add_reactors (with_error_injection name code ∷ []) [])
      ≡ ite (str_discrete name k) (some (error_injection_reactor code ∷ [])) none
unfolding add_reactors with_error_injection lookup insert
injected_options name code k = refl

assert_kind_default :
    (d : Response) (err : Option Code)
    → assert_kind (kind d) (some d) err ≡ (elim err [ none ↦ success d | some c ↦ failure c ])
unfolding assert_kind
assert_kind_default d none = if_pos (kind_discrete (kind d) (kind d)) refl (success d) panic
assert_kind_default d (some c) = if_pos (kind_discrete (kind d) (kind d)) refl (failure c) panic

injected_self :
    (name : Str) (code : Code) (req : Request) (d : Response) (h : Handler) (s : GServer)
    → lookup str_discrete name s.reactor_options ≡ some (error_injection_reactor code ∷ [])
    → intercept name req d h s ≡ (elim (errorf code) [ none ↦ success d | some c ↦ failure c ], s)
unfolding intercept run_reactor react_first error_injection_reactor
injected_self name code req d h s named = ground (arith, named, assert_kind_default d (errorf code))

injected_other :
    (other : Str) (req : Request) (d : Response) (h : Handler) (s : GServer)
    → lookup str_discrete other s.reactor_options ≡ none
    → intercept other req d h s ≡ h s
unfolding intercept run_reactor
injected_other other req d h s missed = ground (arith, missed)

intercept_injected :
    (name other : Str) (code : Code) (req : Request) (d : Response) (h : Handler) (s : GServer)
    → s.reactor_options ≡ (new_server (with_error_injection name code ∷ [])).reactor_options
    → intercept other req d h s
      ≡ ite
          (str_discrete name other)
          (elim (errorf code) [ none ↦ success d | some c ↦ failure c ], s)
          (h s)
unfolding new_server
intercept_injected name other code req d h s e =
    let reactors = ap (lookup str_discrete other) e ∙ injected_options name code other in
    let only = some (error_injection_reactor code ∷ []) in
    elim (str_discrete name other) [
      | yes eq ↦
          injected_self other code req d h s
            (reactors ∙ if_pos (str_discrete name other) eq only none)
          ∙ sym (if_pos (str_discrete name other) eq _ (h s))
      | no ne ↦
          injected_other other req d h s (reactors ∙ if_neg (str_discrete name other) ne only none)
          ∙ sym (if_neg (str_discrete name other) ne _ (h s))
    ]

-- The function of the service that a request calls, and its empty answer.
abbrev pub function_of : Request → Str
function_of (create_topic_req t) = bytes "CreateTopic"
function_of (get_topic_req name) = bytes "GetTopic"
function_of (update_topic_req t mask) = bytes "UpdateTopic"
function_of (list_topics_req project size token) = bytes "ListTopics"
function_of (list_topic_subscriptions_req name size token) = bytes "ListTopicSubscriptions"
function_of (delete_topic_req name) = bytes "DeleteTopic"
function_of (create_subscription_req ps) = bytes "CreateSubscription"
function_of (get_subscription_req name) = bytes "GetSubscription"
function_of (update_subscription_req ps mask) = bytes "UpdateSubscription"
function_of (list_subscriptions_req project size token) = bytes "ListSubscriptions"
function_of (delete_subscription_req name) = bytes "DeleteSubscription"
function_of (detach_subscription_req name) = bytes "DetachSubscription"
function_of (publish_req topic pms) = bytes "Publish"
function_of (acknowledge_req name ids) = bytes "Acknowledge"
function_of (modify_ack_deadline_req name ids secs) = bytes "ModifyAckDeadline"
function_of (pull_req name max now_only) = bytes "Pull"
function_of (seek_req name target) = bytes "Seek"

abbrev pub default_of : Request → Response
default_of (create_topic_req t) = topic_res empty_topic
default_of (get_topic_req name) = topic_res empty_topic
default_of (update_topic_req t mask) = topic_res empty_topic
default_of (list_topics_req project size token) = topics_res [] []
default_of (list_topic_subscriptions_req name size token) = topic_subscriptions_res [] []
default_of (delete_topic_req name) = empty_res
default_of (create_subscription_req ps) = subscription_res empty_subscription
default_of (get_subscription_req name) = subscription_res empty_subscription
default_of (update_subscription_req ps mask) = subscription_res empty_subscription
default_of (list_subscriptions_req project size token) = subscriptions_res [] []
default_of (delete_subscription_req name) = empty_res
default_of (detach_subscription_req name) = detach_res
default_of (publish_req topic pms) = publish_res []
default_of (acknowledge_req name ids) = empty_res
default_of (modify_ack_deadline_req name ids secs) = empty_res
default_of (pull_req name max now_only) = pull_res []
default_of (seek_req name target) = seek_res

-- The requests that are refused before any reactor sees them: UpdateSubscription without a
-- subscription, and Seek to anything but a time.
abbrev pub is_refused_early : Request → Bool
is_refused_early (update_subscription_req none mask) = true
is_refused_early (seek_req name missing) = true
is_refused_early (seek_req name (snapshot n)) = true
is_refused_early req = false

-- What a request does on a server without reactors.
unfoldable pub unhindered : Env → Request → Handler
unhindered env (create_topic_req t) = create_topic_body t
unhindered env (get_topic_req name) = get_topic_body name
unhindered env (update_topic_req t mask) = update_topic_body t mask
unhindered env (list_topics_req project size token) = list_topics_body project size token
unhindered env (list_topic_subscriptions_req name size token) =
    list_topic_subscriptions_body name size token
unhindered env (delete_topic_req name) = delete_topic_body name
unhindered env (create_subscription_req ps) = create_subscription_body ps
unhindered env (get_subscription_req name) = with_subscription name get_subscription_body
unhindered env (update_subscription_req none mask) = λ s. (failure Code.invalid_argument, s)
unhindered env (update_subscription_req (some ps) mask) =
    with_subscription ps.name (update_subscription_body ps mask)
unhindered env (list_subscriptions_req project size token) =
    list_subscriptions_body project size token
unhindered env (delete_subscription_req name) =
    with_subscription name (delete_subscription_body name)
unhindered env (detach_subscription_req name) = with_subscription name detach_subscription_body
unhindered env (publish_req topic pms) = publish_body env.clock topic pms
unhindered env (acknowledge_req name ids) =
    with_subscription name (λ r s. (success empty_res, ack_all ids r s))
unhindered env (modify_ack_deadline_req name ids secs) =
    with_subscription name (modify_ack_deadline_body env.received_at env.clock ids secs)
unhindered env (pull_req name max now_only) =
    with_subscription name (pull_body env.now env.wait max now_only)
unhindered env (seek_req name missing) = λ s. (failure Code.invalid_argument, s)
unhindered env (seek_req name (snapshot n)) = λ s. (failure Code.unimplemented, s)
unhindered env (seek_req name (time target)) = with_subscription name (seek_body target)

-- With an error injected into one function, every request that calls that function fails with the
-- code of the error and does not touch the server, or gets the function's empty answer if the code
-- is OK; every other request is served as on a server without reactors. The requests are those of
-- the service's functions other than StreamingPull, but for the ones that are refused before any
-- reactor sees them: UpdateSubscription without a subscription, and Seek to anything but a time.
pub serve_injected :
    (env : Env) (into : Str) (code : Code) (req : Request) (s : GServer)
    → s.reactor_options ≡ (new_server (with_error_injection into code ∷ [])).reactor_options
    → is_refused_early req ≡ false
    → serve env req s
      ≡ ite
          (str_discrete into (function_of req))
          (elim (errorf code) [ none ↦ success (default_of req) | some c ↦ failure c ], s)
          (unhindered env req s)
unfolding serve unhindered create_topic get_topic update_topic list_topics list_topic_subscriptions
    delete_topic create_subscription get_subscription update_subscription list_subscriptions
    delete_subscription detach_subscription publish acknowledge modify_ack_deadline pull seek
serve_injected env into code (create_topic_req t) s e h = intercept_injected into _ code _ _ _ s e
serve_injected env into code (get_topic_req name) s e h = intercept_injected into _ code _ _ _ s e
serve_injected env into code (update_topic_req t mask) s e h =
    intercept_injected into _ code _ _ _ s e
serve_injected env into code (list_topics_req project size token) s e h =
    intercept_injected into _ code _ _ _ s e
serve_injected env into code (list_topic_subscriptions_req name size token) s e h =
    intercept_injected into _ code _ _ _ s e
serve_injected env into code (delete_topic_req name) s e h =
    intercept_injected into _ code _ _ _ s e
serve_injected env into code (create_subscription_req ps) s e h =
    intercept_injected into _ code _ _ _ s e
serve_injected env into code (get_subscription_req name) s e h =
    intercept_injected into _ code _ _ _ s e
serve_injected env into code (update_subscription_req none mask) s e h = absurd (cc)
serve_injected env into code (update_subscription_req (some ps) mask) s e h =
    intercept_injected into _ code _ _ _ s e
serve_injected env into code (list_subscriptions_req project size token) s e h =
    intercept_injected into _ code _ _ _ s e
serve_injected env into code (delete_subscription_req name) s e h =
    intercept_injected into _ code _ _ _ s e
serve_injected env into code (detach_subscription_req name) s e h =
    intercept_injected into _ code _ _ _ s e
serve_injected env into code (publish_req topic pms) s e h =
    intercept_injected into _ code _ _ _ s e
serve_injected env into code (acknowledge_req name ids) s e h =
    intercept_injected into _ code _ _ _ s e
serve_injected env into code (modify_ack_deadline_req name ids secs) s e h =
    intercept_injected into _ code _ _ _ s e
serve_injected env into code (pull_req name max now_only) s e h =
    intercept_injected into _ code _ _ _ s e
serve_injected env into code (seek_req name missing) s e h = absurd (cc)
serve_injected env into code (seek_req name (snapshot n)) s e h = absurd (cc)
serve_injected env into code (seek_req name (time target)) s e h =
    intercept_injected into _ code _ _ _ s e
