-- ===== src/Pstest/Server.antt =====
-- The server as a whole: `NewServer`, the dispatch of a request to its RPC, and the events that
-- change the state (gcpapi/pubsub/pstest/fake.go).
use gcp_emulator_pool.Common.{ℕ, ℤ, pos, Str, Option, none, some, List, [], ◌∷◌, update}
use gcp_emulator_pool.Pstest.Pb.{
  Blob, Labels, ReceivedMessage, Code, Request, create_topic_req, get_topic_req, update_topic_req,
  list_topics_req, list_topic_subscriptions_req, delete_topic_req, create_subscription_req,
  get_subscription_req, update_subscription_req, list_subscriptions_req, delete_subscription_req,
  detach_subscription_req, publish_req, acknowledge_req, modify_ack_deadline_req, pull_req,
  seek_req,
}
use gcp_emulator_pool.Pstest.State.{Message, Stream, Subscription, Reactor, GServer, Handler}
use gcp_emulator_pool.Pstest.Reactors.{add_reactors}
use gcp_emulator_pool.Pstest.Topics.{
  empty_topic, create_topic, get_topic, update_topic, list_topics, list_topic_subscriptions,
  delete_topic, new_topic,
}
use gcp_emulator_pool.Pstest.Subscriptions.{
  empty_subscription, new_subscription, create_subscription, get_subscription, delete_subscription,
  detach_subscription, set_min_ack_deadline, reset_min_ack_deadline,
}
use gcp_emulator_pool.Pstest.Settings.{update_subscription, list_subscriptions}
use gcp_emulator_pool.Pstest.Publishing.{
  publish, publish_ordered, messages, message_by_id, clear_messages, close, set_stream_timeout,
}
use gcp_emulator_pool.Pstest.Delivery.{
  Wait, cancelled, pull, pull_subscription, acknowledge, modify_ack_deadline,
}
use gcp_emulator_pool.Pstest.Seeking.{seek}
use gcp_emulator_pool.Pstest.Streams.{
  Meanwhile, deliver, new_stream, delete_stream, handle_streaming_pull_request, change_stream_at,
}

-- What stands on a heap at a reference that is not allocated; it is never read.
abbrev blank_message : Message
blank_message = record {
  id = [];
  message_data = [];
  attributes = [];
  publish_time = pos 0;
  ordering_key = [];
  deliveries = 0;
  acks = 0;
  modacks = [];
  shown_deliveries = 0;
  shown_acks = 0;
  shown_modacks = [];
}

-- `NewServer`, with the options for its reactors.
unfoldable pub new_server : List (Str × Reactor) → GServer
unfolding new_topic new_subscription
new_server opts = record {
  topics = [];
  subs = [];
  reactor_options = add_reactors opts [];
  msgs_by_id = [];
  msgs = [];
  next_id = 0;
  stream_timeout = pos 0;
  topic_heap = λ _. new_topic empty_topic;
  next_topic = 0;
  sub_heap = λ _. new_subscription 0 empty_subscription;
  next_sub = 0;
  message_heap = λ _. blank_message;
  next_message = 0;
  min_ack_deadline_secs = pos 10;
}

-- What a request finds outside the server: the clock of the server for each message published or
-- modified, the system's time, the reading of the clock by a Pull, and how the wait of a Pull ends.
pub record Env : Type 0 where
  pub clock : ℕ → ℤ
  pub received_at : ℤ
  pub now : ℤ
  pub wait : Wait

unfoldable pub serve : Env → Request → Handler
serve env (create_topic_req t) = create_topic t
serve env (get_topic_req name) = get_topic name
serve env (update_topic_req t mask) = update_topic t mask
serve env (list_topics_req project size token) = list_topics project size token
serve env (list_topic_subscriptions_req name size token) = list_topic_subscriptions name size token
serve env (delete_topic_req name) = delete_topic name
serve env (create_subscription_req ps) = create_subscription ps
serve env (get_subscription_req name) = get_subscription name
serve env (update_subscription_req ps mask) = update_subscription ps mask
serve env (list_subscriptions_req project size token) = list_subscriptions project size token
serve env (delete_subscription_req name) = delete_subscription name
serve env (detach_subscription_req name) = detach_subscription name
serve env (publish_req topic ms) = publish env.clock topic ms
serve env (acknowledge_req name ids) = acknowledge name ids
serve env (modify_ack_deadline_req name ids secs) =
    modify_ack_deadline env.received_at env.clock name ids secs
serve env (pull_req name max at_once) = pull env.now env.wait name max at_once
serve env (seek_req name target) = seek name target

-- An event takes the lock of the server once. So a Pull that waits is two events: the RPC, whose
-- wait is taken to end at once, and the second pull behind the events of the meantime. `deliver` is
-- called by the goroutine of a subscription; the streams are served by those of StreamingPull, whose
-- channels change on their own.
pub data Event : Type 0 where
  rpc : (ℕ → ℤ) → ℤ → ℤ → Request → Event
  pulls_again : ℤ → ℕ → ℕ → Event
  delivers : Meanwhile → ℤ → ℕ → Event
  opens_stream : ℕ → ℕ → Event
  stream_changes : (Stream → Stream) → ℕ → ℕ → Event
  stream_request : (ℕ → ℤ) → ℕ → List Str → List Str → List ℤ → ℤ → ℕ → Event
  closes_stream : ℕ → ℕ → Event
  publishes : (ℕ → ℤ) → Str → Blob → Labels → Str → Event
  lists_messages : Event
  shows_message : Str → Event
  clears_messages : Event
  closes : Event
  sets_stream_timeout : ℤ → Event
  sets_min_ack_deadline : ℤ → Event
  resets_min_ack_deadline : Event

abbrev pub or_same : GServer → Option GServer → GServer
or_same s none = s
or_same s (some s') = s'

abbrev pub change_sub : (Subscription → Subscription) → ℕ → GServer → GServer
change_sub f r s = record s { sub_heap = update s.sub_heap r (f (s.sub_heap r)) }

abbrev pub at_once : (ℕ → ℤ) → ℤ → ℤ → Env
at_once clock received_at now = record {
  clock = clock;
  received_at = received_at;
  now = now;
  wait = cancelled Code.canceled;
}

abbrev pub change_streams : (List Stream → List Stream) → Subscription → Subscription
change_streams f sub = record sub { streams = f sub.streams }

abbrev pub pulled_state : GServer → Option (List ReceivedMessage × GServer) → GServer
pulled_state s none = s
pulled_state s (some (protos, s')) = s'

-- A panic ends the process; here it leaves the state as it was.
unfoldable pub step : Event → GServer → GServer
step (rpc clock received_at now req) s = (serve (at_once clock received_at now) req s).1
step (pulls_again now max r) s = pulled_state s (pull_subscription now max r s)
step (delivers meanwhile now r) s = or_same s (deliver meanwhile now r s)
step (opens_stream r stream_id) s = change_sub (new_stream stream_id s.stream_timeout) r s
step (stream_changes f i r) s = change_sub (change_streams (λ sts. change_stream_at f sts i)) r s
step (stream_request clock stream_id acks mods secs deadline r) s =
    or_same s (handle_streaming_pull_request clock stream_id acks mods secs deadline r s)
step (closes_stream r stream_id) s = change_sub (delete_stream stream_id) r s
step (publishes clock topic content attrs key) s =
    (publish_ordered clock topic content attrs key s).1
step lists_messages s = record s { message_heap = (messages s.msgs s.message_heap).1 }
step (shows_message id) s = (message_by_id id s).1
step clears_messages s = clear_messages s
step closes s = or_same s (close s)
step (sets_stream_timeout d) s = set_stream_timeout d s
step (sets_min_ack_deadline d) s = or_same s (set_min_ack_deadline d s)
step resets_min_ack_deadline s = reset_min_ack_deadline s

unfoldable pub run : List Event → GServer → GServer
run [] s = s
run (e ∷ es) s = run es (step e s)
