-- ===== src/Pstest/Pb.antt =====
-- The protobuf messages that gcpapi/pubsub/pstest/fake.go reads and stores, and the requests and
-- responses of its RPCs. A pointer that may be nil is an `Option`. Durations and times are in
-- nanoseconds, a time from Go's zero time on. A `Blob` is the contents of a message that the server
-- stores and never looks into.
use gcp_emulator_pool.Common.{ℕ, ℤ, Bool, Str, Option, List}

abbrev pub Blob : Type 0
Blob = List ℕ

abbrev pub Labels : Type 0
Labels = List (Str × Str)

pub record PbTopic : Type 0 where
  pub name : Str
  pub labels : Labels
  pub message_storage_policy : Option Blob

pub record PbSubscription : Type 0 where
  pub name : Str
  pub topic : Str
  pub push_config : Option Blob
  pub ack_deadline_seconds : ℤ  -- int32
  pub retain_acked_messages : Bool
  pub message_retention_duration : Option ℤ
  pub labels : Labels
  pub expiration_policy : Option Blob
  pub dead_letter_policy : Option Blob
  pub retry_policy : Option Blob
  pub filter : Str

pub record PubsubMessage : Type 0 where
  pub message_data : Blob
  pub attributes : Labels
  pub message_id : Str
  pub publish_time : Option ℤ
  pub ordering_key : Str

pub record ReceivedMessage : Type 0 where
  pub ack_id : Str
  pub message : Option PubsubMessage

-- `google.golang.org/grpc/codes`.
pub data Code : Type 0 where
  ok canceled unknown invalid_argument deadline_exceeded not_found already_exists : Code
  permission_denied resource_exhausted failed_precondition aborted out_of_range : Code
  unimplemented internal unavailable data_loss unauthenticated : Code

-- The field `Target` of a SeekRequest.
pub data Target : Type 0 where
  missing : Target
  time : ℤ → Target
  snapshot : Str → Target

pub data Request : Type 0 where
  create_topic_req : PbTopic → Request
  get_topic_req : Str → Request
  update_topic_req : Option PbTopic → Option (List Str) → Request
  list_topics_req : Str → ℤ → Str → Request
  list_topic_subscriptions_req : Str → ℤ → Str → Request
  delete_topic_req : Str → Request
  create_subscription_req : PbSubscription → Request
  get_subscription_req : Str → Request
  update_subscription_req : Option PbSubscription → Option (List Str) → Request
  list_subscriptions_req : Str → ℤ → Str → Request
  delete_subscription_req : Str → Request
  detach_subscription_req : Str → Request
  publish_req : Str → List PubsubMessage → Request
  acknowledge_req : Str → List Str → Request
  modify_ack_deadline_req : Str → List Str → ℤ → Request
  pull_req : Str → ℤ → Bool → Request
  seek_req : Str → Target → Request

pub data Response : Type 0 where
  topic_res : PbTopic → Response
  topics_res : List PbTopic → Str → Response
  topic_subscriptions_res : List Str → Str → Response
  subscription_res : PbSubscription → Response
  subscriptions_res : List PbSubscription → Str → Response
  detach_res : Response
  publish_res : List Str → Response
  pull_res : List ReceivedMessage → Response
  seek_res : Response
  empty_res : Response

-- The dynamic type of a response.
pub data Kind : Type 0 where
  topic topics topic_subscriptions subscription subscriptions detach publish pull seek empty : Kind

unfoldable pub kind_discrete : Discrete Kind
kind_discrete = hlevel

abbrev pub kind : Response → Kind
kind (topic_res t) = Kind.topic
kind (topics_res ts token) = Kind.topics
kind (topic_subscriptions_res names token) = Kind.topic_subscriptions
kind (subscription_res s) = Kind.subscription
kind (subscriptions_res ss token) = Kind.subscriptions
kind detach_res = Kind.detach
kind (publish_res ids) = Kind.publish
kind (pull_res ms) = Kind.pull
kind seek_res = Kind.seek
kind empty_res = Kind.empty
