-- ===== src/Pstest/State.antt =====
-- The state of the server in gcpapi/pubsub/pstest/fake.go: `GServer`, the objects that its maps
-- point to, and what an RPC comes to. Topics, subscriptions and messages are shared by pointers, so
-- they stand on three heaps, and a pointer is a reference into one.
use gcp_emulator_pool.Common.{ℕ, ℤ, pos, Bool, Str, Option, List}
use gcp_emulator_pool.Pstest.Pb.{
  Blob, Labels, PbTopic, PbSubscription, ReceivedMessage, Code, Request, Response,
}

pub record Modack : Type 0 where
  pub ack_id : Str
  pub ack_deadline : ℤ
  pub received_at : ℤ

-- The three counters that a caller sees (`Deliveries`, `Acks`, `Modacks`) are copies of the three
-- that the server keeps, made by `Messages` and `Message`.
pub record Message : Type 0 where
  pub id : Str
  pub message_data : Blob
  pub attributes : Labels
  pub publish_time : ℤ
  pub ordering_key : Str
  pub deliveries : ℕ
  pub acks : ℕ
  pub modacks : List Modack
  pub shown_deliveries : ℕ
  pub shown_acks : ℕ
  pub shown_modacks : List Modack

-- `message`: a message in the hands of one subscription. `counters` is the `Message` whose
-- `deliveries` and `acks` it points to.
pub record SubMessage : Type 0 where
  pub proto : ReceivedMessage
  pub publish_time : ℤ
  pub ack_deadline : ℤ
  pub counters : ℕ
  pub stream_index : ℤ

-- Go's zero time.
abbrev pub zero_time : ℤ
zero_time = pos 0

-- `msgc` is unbuffered: `ready` says that `sendLoop` waits to receive from it, and `sent` is what
-- it has received. Streams are told apart by their pointer, here `stream_id`.
pub record Stream : Type 0 where
  pub stream_id : ℕ
  pub done : Bool
  pub ready : Bool
  pub sent : List ReceivedMessage
  pub ack_timeout : ℤ
  pub timeout : ℤ

pub record Subscription : Type 0 where
  pub topic : ℕ
  pub proto : PbSubscription
  pub msgs : List (Str × SubMessage)
  pub done : Bool
  pub streams : List Stream
  pub ack_timeout : ℤ

pub record Topic : Type 0 where
  pub proto : PbTopic
  pub subs : List (Str × ℕ)

-- `React`: whether the call is handled, the returned object, and the error. A reactor is taken to
-- answer from the request alone.
abbrev pub Reactor : Type 0
Reactor = Request → Bool × Option Response × Option Code

pub record GServer : Type 0 where
  pub topics : List (Str × ℕ)
  pub subs : List (Str × ℕ)
  pub reactor_options : List (Str × List Reactor)
  pub msgs_by_id : List (Str × ℕ)
  pub msgs : List ℕ
  pub next_id : ℕ
  pub stream_timeout : ℤ
  pub topic_heap : ℕ → Topic
  pub next_topic : ℕ
  pub sub_heap : ℕ → Subscription
  pub next_sub : ℕ
  pub message_heap : ℕ → Message
  pub next_message : ℕ
  pub min_ack_deadline_secs : ℤ  -- a variable of the package

-- How a call ends. The texts of the errors are left out.
pub data Outcome : Type 0 where
  success : Response → Outcome
  failure : Code → Outcome
  panic : Outcome

-- An RPC. A panic ends the process, so the state beside it does not matter.
abbrev pub Handler : Type 0
Handler = GServer → Outcome × GServer
