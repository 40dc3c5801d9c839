-- ===== src/Scenarios/Servers.antt =====
-- A small server, and what holds of it.
use gcp_emulator_pool.Common.{
  ℕ, ◌+◌, ◌≡◌, ◌≢◌, ℕ_discrete, ℤ-discrete, ◌-ℤ◌, refl, ap, subst, arith, true, false, none, some,
  List, [], ◌∷◌, ℤ, pos, negsuc, ◌+ℤ◌, Str, bytes, str_discrete, lookup, IsMap,
}
use gcp_emulator_pool.Strconv.{atoi}
use gcp_emulator_pool.Testutil.Paging.Pages.{IsToken}
use gcp_emulator_pool.Pstest.Pb.{
  PbTopic, PbSubscription, PubsubMessage, ReceivedMessage, Code, create_topic_req,
  create_subscription_req, publish_req, pull_req, acknowledge_req, delete_topic_req, get_topic_req,
}
use gcp_emulator_pool.Pstest.State.{
  failure, Message, SubMessage, Stream, Subscription, Reactor, GServer, zero_time,
}
use gcp_emulator_pool.Pstest.Reactors.{with_error_injection, add_reactors}
use gcp_emulator_pool.Pstest.Delivery.{
  Wait, elapsed, is_outstanding, expire, is_stale, maintain_messages, pull_subscription,
}
use gcp_emulator_pool.Pstest.Streams.{try_streams, try_deliver_message}
use gcp_emulator_pool.Pstest.Topics.{get_topic, get_topic_body}
use gcp_emulator_pool.Pstest.Reactors.{intercept, run_reactor}
use gcp_emulator_pool.Pstest.Publication.{reaches}
use gcp_emulator_pool.Pstest.Server.{serve, Env, Event, rpc, delivers, new_server}
use gcp_emulator_pool.Pstest.Invariant.Registry.{Registry}
use gcp_emulator_pool.Pstest.Invariant.Messages.{IsConsistent}
use gcp_emulator_pool.Pstest.Invariant.Serving.{OthersKeep}

abbrev pub a_topic : PbTopic
a_topic = record { name = bytes "t"; labels = []; message_storage_policy = none }

abbrev pub a_sub : PbSubscription
a_sub = record {
  name = bytes "s";
  topic = bytes "t";
  push_config = none;
  ack_deadline_seconds = pos 20;
  retain_acked_messages = false;
  message_retention_duration = none;
  labels = [];
  expiration_policy = none;
  dead_letter_policy = none;
  retry_policy = none;
  filter = [];
}

abbrev pub a_message : PubsubMessage
a_message = record {
  message_data = bytes "hello";
  attributes = [];
  message_id = bytes "m0";
  publish_time = some (pos 1000);
  ordering_key = [];
}

abbrev pub ticks : ℕ → ℤ
ticks n = pos (1000 + n)

abbrev pub held_message : SubMessage
held_message = record {
  proto = record { ack_id = bytes "m0"; message = some a_message };
  publish_time = pos 1000;
  ack_deadline = pos 0;
  counters = 0;
  stream_index = negsuc 0;
}

abbrev pub held : List (Str × SubMessage)
held = (bytes "m0", held_message) ∷ []

abbrev pub a_stream : Stream
a_stream = record {
  stream_id = 7;
  done = false;
  ready = true;
  sent = [];
  ack_timeout = pos 20;
  timeout = pos 0;
}

abbrev pub server_sub : Subscription
server_sub = record {
  topic = 0;
  proto = a_sub;
  msgs = held;
  done = false;
  streams = a_stream ∷ [];
  ack_timeout = pos 20;
}

abbrev pub logged_message : Message
logged_message = record {
  id = bytes "m0";
  message_data = bytes "hello";
  attributes = [];
  publish_time = pos 1000;
  ordering_key = [];
  deliveries = 0;
  acks = 0;
  modacks = [];
  shown_deliveries = 0;
  shown_acks = 0;
  shown_modacks = [];
}

-- One topic, one subscription, and one message that is not acknowledged.
abbrev pub small : GServer
small = record {
  topics = (bytes "t", 0) ∷ [];
  subs = (bytes "s", 0) ∷ [];
  reactor_options = [];
  msgs_by_id = (bytes "m0", 0) ∷ [];
  msgs = 0 ∷ [];
  next_id = 1;
  stream_timeout = pos 0;
  topic_heap = λ _. record { proto = a_topic; subs = (bytes "s", 0) ∷ [] };
  next_topic = 1;
  sub_heap = λ _. server_sub;
  next_sub = 1;
  message_heap = λ _. logged_message;
  next_message = 1;
  min_ack_deadline_secs = pos 10;
}

abbrev pub no_reactors : List (Str × Reactor)
no_reactors = []

abbrev pub busy_day : List Event
busy_day =
    rpc ticks (pos 5) (pos 5) (create_topic_req a_topic)
    ∷ rpc ticks (pos 6) (pos 6) (create_subscription_req a_sub)
    ∷ rpc ticks (pos 7) (pos 7) (publish_req (bytes "t") (a_message ∷ a_message ∷ []))
    ∷ rpc ticks (pos 8) (pos 8) (pull_req (bytes "s") (pos 1) true)
    ∷ rpc ticks (pos 9) (pos 9) (acknowledge_req (bytes "s") (bytes "m0" ∷ []))
    ∷ delivers (λ k st. st) (pos 10) 0
    ∷ rpc ticks (pos 11) (pos 11) (delete_topic_req (bytes "t"))
    ∷ []

abbrev pub idle : Env
idle = record { clock = ticks; received_at = pos 5; now = pos 5; wait = elapsed (λ s. s) (pos 6) }

abbrev pub others_of : Wait → GServer → GServer
others_of (Wait.cancelled code) s = s
others_of (elapsed others now) s = others s

pub idle_keeps : OthersKeep (elapsed (λ s. s) (pos 6))
idle_keeps others now s e c = subst (λ f. IsConsistent (f s)) (ap others_of e) c

pub small-Registry : Registry small
unfolding lookup
small-Registry = record {
  topic_named = λ n r h. (ground arith, ground arith);
  sub_named = λ n r h. (ground arith, ground arith, omega arith);
  attached = λ i n r lt h. (h, omega arith);
}

pub topic_there : lookup str_discrete (bytes "t") small.topics ≡ some 0
unfolding lookup str_discrete ℕ_discrete
topic_there = refl

pub sub_there : lookup str_discrete (bytes "s") small.subs ≡ some 0
unfolding lookup str_discrete ℕ_discrete
sub_there = refl

pub message_there : lookup str_discrete (bytes "m0") held ≡ some held_message
unfolding lookup str_discrete ℕ_discrete
message_there = refl

pub absent :
    (lookup str_discrete (bytes "t") (new_server []).topics ≡ none)
    × (lookup str_discrete (bytes "m9") small.msgs_by_id ≡ none)
unfolding lookup str_discrete ℕ_discrete new_server add_reactors
absent = (refl, refl)

pub upkept : maintain_messages (pos 2000) held ≡ some held
unfolding maintain_messages expire is_stale ◌-ℤ◌ ℤ-discrete ℕ_discrete
upkept = refl

abbrev pub pulled : List ReceivedMessage × GServer
pulled = elim (pull_subscription (pos 2000) 1 0 small) [ none ↦ ([], small) | some p ↦ p ]

pub pulls : pull_subscription (pos 2000) 1 0 small ≡ some pulled
unfolding pull_subscription maintain_messages expire is_stale ◌-ℤ◌ ℤ-discrete ℕ_discrete
pulls = refl

pub not_zero : pos 2000 +ℤ pos 20 ≢ zero_time
unfolding ◌+ℤ◌
not_zero h = cc

pub taken : (try_deliver_message held_message.proto 0 (a_stream ∷ [])).taker ≡ some (0, pos 20)
unfolding try_deliver_message try_streams
taken = refl

abbrev pub given : SubMessage
given = record held_message { stream_index = pos 0 }

abbrev pub injected : GServer
injected = new_server (with_error_injection (bytes "Pull") Code.unavailable ∷ [])

pub minus_five : atoi (bytes "-5") ≡ some (negsuc 4)
unfolding atoi
minus_five = refl

pub second-IsToken : IsToken (bytes "1")
unfolding atoi
second-IsToken = (1, refl)

pub once : IsMap str_discrete held
unfolding lookup
once = (refl, tt)

pub free : is_outstanding given ≡ false
unfolding ℤ-discrete ℕ_discrete
free = refl

pub not_found_yet :
    (serve idle (get_topic_req (bytes "t")) (new_server [])).0 ≡ failure Code.not_found
unfolding serve get_topic intercept run_reactor get_topic_body new_server add_reactors lookup
not_found_yet = refl

pub reached : reaches (small.topic_heap 0).subs 0 ≡ true
unfolding reaches ℕ_discrete
reached = refl

pub not_reached : reaches (small.topic_heap 0).subs 1 ≡ false
unfolding reaches ℕ_discrete
not_reached = refl
