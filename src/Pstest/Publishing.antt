-- ===== src/Pstest/Publishing.antt =====
-- Publish, `topic.publish`, and what the test's own process asks of the server (`Publish` and
-- `PublishOrdered` of `Server`, `Messages`, `Message`, `ClearMessages`, `Close`), of
-- gcpapi/pubsub/pstest/fake.go. The clock is an argument: `clock k` is the time at which the message
-- with number `k` is published.
use gcp_emulator_pool.Common.{
  ℕ, suc, Bool, true, false, Option, none, some, List, [], ◌∷◌, ◌++◌, if◌then◌else◌, ite, ◌==◌, ℤ,
  negsuc, Str, str_discrete, lookup, insert, update, bytes,
}
use gcp_emulator_pool.Strconv.{itoa}
use gcp_emulator_pool.Pstest.Pb.{Blob, Labels, PubsubMessage, Code, publish_req, publish_res}
use gcp_emulator_pool.Pstest.State.{
  Message, SubMessage, zero_time, Subscription, GServer, Outcome, success, failure, panic, Handler,
}
use gcp_emulator_pool.Pstest.Topics.{create_topic}
use gcp_emulator_pool.Pstest.Reactors.{intercept}

-- `fmt.Sprintf("m%d", n)`.
unfoldable pub message_id : ℕ → Str
message_id n = b'm' ∷ itoa n

-- The message that `topic.publish` hands to one subscription.
abbrev pub new_sub_message : PubsubMessage → ℤ → ℕ → SubMessage
new_sub_message pm publish_time r = record {
  proto = record { ack_id = pm.message_id; message = some pm };
  publish_time = publish_time;
  ack_deadline = zero_time;
  counters = r;
  stream_index = negsuc 0;
}

abbrev pub receive : Str → SubMessage → Subscription → Subscription
receive id m sub = record sub { msgs = insert str_discrete id m sub.msgs }

-- `topic.publish`, over the subscriptions of the topic.
unfoldable pub publish_to :
    List (Str × ℕ) → Str → SubMessage → (ℕ → Subscription) → ℕ → Subscription
publish_to [] id m heap = heap
publish_to ((name, r) ∷ subs) id m heap =
    publish_to subs id m (update heap r (receive id m (heap r)))

abbrev pub new_message : Str → PubsubMessage → ℤ → Message
new_message id pm pub_time = record {
  id = id;
  message_data = pm.message_data;
  attributes = pm.attributes;
  publish_time = pub_time;
  ordering_key = pm.ordering_key;
  deliveries = 0;
  acks = 0;
  modacks = [];
  shown_deliveries = 0;
  shown_acks = 0;
  shown_modacks = [];
}

abbrev pub stamp : Str → ℤ → PubsubMessage → PubsubMessage
stamp id pub_time pm = record pm { message_id = id; publish_time = some pub_time }

-- One round of the loop of Publish, for the topic at `top`.
unfoldable pub publish_one : (ℕ → ℤ) → ℕ → PubsubMessage → GServer → GServer
unfolding publish_to message_id
publish_one clock top pm s =
    let id = message_id s.next_id in
    let pub_time = clock s.next_id in
    let r = s.next_message in
    record s {
      next_id = suc s.next_id;
      message_heap = update s.message_heap r (new_message id pm pub_time);
      next_message = suc r;
      sub_heap =
          publish_to (s.topic_heap top).subs id (new_sub_message (stamp id pub_time pm) pub_time r)
            s.sub_heap;
      msgs = s.msgs ++ r ∷ [];
      msgs_by_id = insert str_discrete id r s.msgs_by_id;
    }

unfoldable pub publish_loop :
    (ℕ → ℤ) → ℕ → List PubsubMessage → List Str → GServer → List Str × GServer
unfolding message_id
publish_loop clock top [] ids s = (ids, s)
publish_loop clock top (pm ∷ pms) ids s =
    publish_loop clock top pms (ids ++ message_id s.next_id ∷ []) (publish_one clock top pm s)

unfoldable pub publish_body : (ℕ → ℤ) → Str → List PubsubMessage → Handler
publish_body clock topic messages s =
    ite (str_discrete topic []) (failure Code.invalid_argument, s)
      (elim (lookup str_discrete topic s.topics) [
        | none ↦ (failure Code.not_found, s)
        | some top ↦
            let (ids, s') = publish_loop clock top messages [] s in (success (publish_res ids), s')
      ])

unfoldable pub publish : (ℕ → ℤ) → Str → List PubsubMessage → Handler
publish clock topic messages =
    intercept (bytes "Publish") (publish_req topic messages) (publish_res [])
      (publish_body clock topic messages)

-- The copies that `Messages` and `Message` make.
abbrev pub show : Message → Message
show m = record m {
  shown_deliveries = m.deliveries;
  shown_acks = m.acks;
  shown_modacks = m.modacks;
}

-- `Messages` of `Server`.
unfoldable pub messages : List ℕ → (ℕ → Message) → List Message × (ℕ → Message)
messages [] heap = ([], heap)
messages (r ∷ rs) heap =
    let (ms, heap') = messages rs (update heap r (show (heap r))) in (show (heap r) ∷ ms, heap')

-- `Message` of `Server`.
unfoldable pub message_by_id : Str → GServer → Option Message × GServer
message_by_id id s = elim (lookup str_discrete id s.msgs_by_id) [
  | none ↦ (none, s)
  | some r ↦ (
    some (show (s.message_heap r)),
    record s { message_heap = update s.message_heap r (show (s.message_heap r)) },
  )
]

-- `ClearMessages`: the subscriptions keep theirs.
unfoldable pub clear_messages : GServer → GServer
clear_messages s = record s { msgs = []; msgs_by_id = [] }

-- The loop of `Close` over the subscriptions; `none` is the panic of closing a channel twice.
unfoldable pub stop_all : List (Str × ℕ) → (ℕ → Subscription) → Option (ℕ → Subscription)
stop_all [] heap = some heap
stop_all ((name, r) ∷ subs) heap =
    let rest = stop_all subs (update heap r (record (heap r) { done = true })) in
    if (heap r).done then none else rest

unfoldable pub close : GServer → Option GServer
close s = elim (stop_all s.subs s.sub_heap) [
  | none ↦ none
  | some heap ↦ some (record s { sub_heap = heap })
]

-- `SetStreamTimeout`.
unfoldable pub set_stream_timeout : ℤ → GServer → GServer
set_stream_timeout d s = record s { stream_timeout = d }

-- Whether a string is `rest` with no slash in it: what the last `*` of a pattern matches.
unfoldable pub no_slash : Str → Bool
no_slash [] = true
no_slash (c ∷ s) = if c == b'/' then false else no_slash s

unfoldable pub after_prefix : Str → Str → Option Str
after_prefix [] s = some s
after_prefix (p ∷ ps) [] = none
after_prefix (p ∷ ps) (c ∷ s) = if p == c then after_prefix ps s else none

-- The string from its first slash on.
unfoldable pub from_slash : Str → Str
from_slash [] = []
from_slash (c ∷ s) = if c == b'/' then c ∷ s else from_slash s

-- `path.Match("projects/*/topics/*", topic)`: a `*` matches a run of bytes other than the slash.
unfoldable pub is_topic_name : Str → Bool
unfolding no_slash after_prefix from_slash
is_topic_name topic = elim (after_prefix (bytes "projects/") topic) [
  | none ↦ false
  | some s ↦ elim (after_prefix (bytes "/topics/") (from_slash s)) [
    | none ↦ false
    | some t ↦ no_slash t
  ]
]

-- `res.MessageIds[0]`, with the panic on an error.
unfoldable pub first_id : Outcome → Option Str
first_id (success (publish_res (id ∷ ids))) = some id
first_id _ = none

-- A panic within CreateTopic, whose answer and error are otherwise not looked at.
abbrev pub unless_panicked : Outcome → GServer → Option Str × GServer → Option Str × GServer
unless_panicked panic s rest = (none, s)
unless_panicked (success r) s rest = rest
unless_panicked (failure c) s rest = rest

-- `PublishOrdered` of `Server`; `none` is its panic. `Publish` is the case of an empty key.
unfoldable pub publish_ordered :
    (ℕ → ℤ) → Str → Blob → Labels → Str → GServer → Option Str × GServer
unfolding first_id
publish_ordered clock topic content attrs ordering_key s =
    let created =
      create_topic (record { name = topic; labels = []; message_storage_policy = none }) s in
    let pm : PubsubMessage = record {
      message_data = content;
      attributes = attrs;
      message_id = [];
      publish_time = none;
      ordering_key = ordering_key;
    } in
    let (out, s') = publish clock topic (pm ∷ []) created.1 in
    if is_topic_name topic
    then unless_panicked created.0 created.1 (first_id out, s')
    else (none, s)
