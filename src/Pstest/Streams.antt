-- ===== src/Pstest/Streams.antt =====
-- The delivery to streams: `deliver`, `tryDeliverMessage`, `deleteStreamAt`, `newStream`,
-- `deleteStream` and `handleStreamingPullRequest` of gcpapi/pubsub/pstest/fake.go.
use gcp_emulator_pool.Common.{
  ℕ, zero, suc, ◌+◌, ◌%◌, true, false, Option, none, some, List, [], ◌∷◌, ◌++◌, if◌then◌else◌, ◌==◌,
  ltb, ℤ, pos, negsuc, ◌+ℤ◌, ltb_ℤ, Str, update, length, get_elem?, map,
}
use gcp_emulator_pool.Pstest.Pb.{ReceivedMessage}
use gcp_emulator_pool.Pstest.State.{SubMessage, Stream, Subscription, GServer}
use gcp_emulator_pool.Pstest.Subscriptions.{secs_to_dur}
use gcp_emulator_pool.Pstest.Delivery.{
  is_outstanding, maintain_messages, count_deliveries, ack_all, modify_at,
}

unfoldable pub delete_stream_at : List Stream → ℕ → List Stream
delete_stream_at [] i = []
delete_stream_at (st ∷ sts) zero = sts
delete_stream_at (st ∷ sts) (suc i) = st ∷ delete_stream_at sts i

-- The stream at an index, changed.
unfoldable pub change_stream_at : (Stream → Stream) → List Stream → ℕ → List Stream
change_stream_at f [] i = []
change_stream_at f (st ∷ sts) zero = f st ∷ sts
change_stream_at f (st ∷ sts) (suc i) = st ∷ change_stream_at f sts i

-- What a `select` on a stream finds: `done` is closed, `sendLoop` waits for a message, or neither.
-- Closing `done` wakes `sendLoop`, so a stream that is done is not ready.
pub data Readiness : Type 0 where
  closed waiting busy : Readiness

abbrev pub readiness : Stream → Readiness
readiness st = if st.done then closed else if st.ready then waiting else busy

abbrev pub hand_over : ReceivedMessage → Stream → Stream
hand_over proto st = record st { ready = false; sent = st.sent ++ proto ∷ [] }

-- The streams that are left, and the index of the stream that took the message with its
-- `ackTimeout`.
pub record Tried : Type 0 where
  pub streams : List Stream
  pub taker : Option (ℕ × ℤ)

-- The loop of `tryDeliverMessage`. A round removes a stream or increments `i`, so as many rounds as
-- there are streams suffice.
unfoldable pub try_streams : ℕ → ReceivedMessage → ℕ → ℕ → List Stream → Tried
try_streams zero proto start i sts = record { streams = sts; taker = none }
try_streams (suc fuel) proto start i sts =
    let idx = (i + start) % length sts in
    let without = try_streams fuel proto start i (delete_stream_at sts idx) in
    let onward = try_streams fuel proto start (suc i) sts in
    if ltb i (length sts)
    then elim (get_elem? sts idx) [
      | none ↦ record { streams = sts; taker = none }
      | some st ↦ elim (readiness st) [
        | closed ↦ without
        | waiting ↦ record {
          streams = change_stream_at (hand_over proto) sts idx;
          taker = some (idx, st.ack_timeout);
        }
        | busy ↦ onward
      ]
    ]
    else record { streams = sts; taker = none }

unfoldable pub try_deliver_message : ReceivedMessage → ℕ → List Stream → Tried
unfolding try_streams
try_deliver_message proto start sts = try_streams (length sts) proto start 0 sts

-- What the loop of `deliver` works on: the streams, the entries it leaves, and the messages whose
-- `deliveries` it increments.
pub record Delivered : Type 0 where
  pub streams : List Stream
  pub entries : List (Str × SubMessage)
  pub counted : List ℕ

abbrev pub pass : Str → SubMessage → Delivered → Delivered
pass id m d = record d { entries = (id, m) ∷ d.entries }

abbrev pub took : Str → SubMessage → ℤ → ℤ → Delivered → Delivered
took id m deadline stream_index d = record d {
  entries = (id, record m { ack_deadline = deadline; stream_index = stream_index }) ∷ d.entries;
  counted = m.counters ∷ d.counted;
}

-- A message that was never delivered starts at `cur_index`, and any other at its `streamIndex`.
abbrev pub start_of : ℤ → ℕ → ℕ
start_of (pos i) cur_index = i
start_of (negsuc _) cur_index = cur_index

-- `curIndex` behind a delivery at `del_index`.
abbrev pub next_cur : ℤ → ℕ → ℕ → ℕ
next_cur (pos i) cur_index del_index = cur_index
next_cur (negsuc _) cur_index del_index = suc del_index

-- `m.streamIndex` behind a delivery at `del_index`.
abbrev pub next_stream_index : ℤ → ℕ → ℤ
next_stream_index (pos i) del_index = pos del_index
next_stream_index (negsuc _) del_index = pos (suc del_index)

-- What the goroutines of the streams do by themselves while `deliver` runs: `meanwhile k st` is the
-- stream `st` when the turn comes of the message that has `k` messages behind it. So a `sendLoop`
-- may wait for a message again, and a stream may be done.
abbrev pub Meanwhile : Type 0
Meanwhile = ℕ → Stream → Stream

-- The loop of `deliver`.
unfoldable pub deliver_entries :
    Meanwhile → ℤ → ℕ → List Stream → List (Str × SubMessage) → Delivered
unfolding try_deliver_message
deliver_entries meanwhile now cur_index sts [] = record {
  streams = sts;
  entries = [];
  counted = [];
}
deliver_entries meanwhile now cur_index sts ((id, m) ∷ ms) =
    let found = map (meanwhile (length ms)) sts in
    let t = try_deliver_message m.proto (start_of m.stream_index cur_index) found in
    let same = deliver_entries meanwhile now cur_index found ms in
    elim (is_outstanding m) [
      | true ↦ pass id m same
      | false ↦ elim t.taker [
        | none ↦ record { streams = t.streams; entries = (id, m) ∷ ms; counted = [] }
        | some (idx, timeout) ↦
            took id m (now +ℤ timeout) (next_stream_index m.stream_index idx)
              (deliver_entries meanwhile now (next_cur m.stream_index cur_index idx) t.streams ms)
      ]
    ]

-- `deliver` at the subscription `r`, as its goroutine calls it; `none` is a panic.
unfoldable pub deliver : Meanwhile → ℤ → ℕ → GServer → Option GServer
unfolding deliver_entries
deliver meanwhile now r s =
    let sub = s.sub_heap r in
    elim (maintain_messages now sub.msgs) [
      | none ↦ none
      | some ms ↦
          let d = deliver_entries meanwhile now 0 sub.streams ms in
          some (record s {
            sub_heap = update s.sub_heap r (record sub { msgs = d.entries; streams = d.streams });
            message_heap = count_deliveries d.counted s.message_heap;
          })
    ]

-- `newStream`; the pointer to the new stream is `stream_id`.
unfoldable pub new_stream : ℕ → ℤ → Subscription → Subscription
new_stream stream_id timeout sub =
    let st : Stream = record {
      stream_id = stream_id;
      done = false;
      ready = false;
      sent = [];
      ack_timeout = sub.ack_timeout;
      timeout = timeout;
    } in
    record sub { streams = sub.streams ++ st ∷ [] }

-- The search of `deleteStream`: the index of the stream, or the length of the list.
unfoldable pub index_of : ℕ → List Stream → ℕ
index_of stream_id [] = 0
index_of stream_id (st ∷ sts) =
    let rest = index_of stream_id sts in if st.stream_id == stream_id then 0 else suc rest

unfoldable pub delete_stream : ℕ → Subscription → Subscription
unfolding index_of delete_stream_at
delete_stream stream_id sub =
    let i = index_of stream_id sub.streams in
    if ltb i (length sub.streams)
    then record sub { streams = delete_stream_at sub.streams i }
    else sub

-- The loop over ModifyDeadlineAckIds; `none` is the panic of an index past the end of
-- ModifyDeadlineSeconds.
unfoldable pub modify_each : (ℕ → ℤ) → ℕ → List Str → List ℤ → ℕ → GServer → Option GServer
modify_each clock k [] secs r s = some s
modify_each clock k (id ∷ ids) [] r s = none
modify_each clock k (id ∷ ids) (n ∷ ns) r s =
    modify_each clock (suc k) ids ns r (modify_at (clock k) id (secs_to_dur n) r s)

abbrev pub set_ack_timeout : ℤ → Stream → Stream
set_ack_timeout d st = record st { ack_timeout = d }

-- `handleStreamingPullRequest` for the stream `stream_id` of the subscription `r`.
unfoldable pub handle_streaming_pull_request :
    (ℕ → ℤ) → ℕ → List Str → List Str → List ℤ → ℤ → ℕ → GServer → Option GServer
unfolding modify_each
handle_streaming_pull_request clock stream_id ack_ids modify_ids modify_secs deadline_secs r s =
    elim (modify_each clock 0 modify_ids modify_secs r (ack_all ack_ids r s)) [
      | none ↦ none
      | some s' ↦
          let sub = s'.sub_heap r in
          let sts =
            change_stream_at (set_ack_timeout (secs_to_dur deadline_secs)) sub.streams
              (index_of stream_id sub.streams) in
          some (
            if ltb_ℤ (pos 0) deadline_secs
            then record s' { sub_heap = update s'.sub_heap r (record sub { streams = sts }) }
            else s')
    ]
