-- ===== src/Pstest/Seeking.antt =====
-- Seek of gcpapi/pubsub/pstest/fake.go.
use gcp_emulator_pool.Common.{
  ℕ, none, List, [], ◌∷◌, if◌then◌else◌, ℤ, negsuc, ltb_ℤ, Str, str_discrete, insert, update, bytes,
}
use gcp_emulator_pool.Pstest.Pb.{Code, Target, missing, time, snapshot, seek_req, seek_res}
use gcp_emulator_pool.Pstest.State.{Message, SubMessage, zero_time, success, failure, Handler}
use gcp_emulator_pool.Pstest.Reactors.{intercept}
use gcp_emulator_pool.Pstest.Subscriptions.{with_subscription}
use gcp_emulator_pool.Pstest.Delivery.{count_ack}

-- What the first loop leaves: the entries published at the target or later, and the messages whose
-- `acks` it increments.
unfoldable pub keep_since : ℤ → List (Str × SubMessage) → List (Str × SubMessage)
keep_since target [] = []
keep_since target ((id, m) ∷ ms) =
    let rest = keep_since target ms in if ltb_ℤ m.publish_time target then rest else (id, m) ∷ rest

unfoldable pub count_dropped : ℤ → List (Str × SubMessage) → (ℕ → Message) → ℕ → Message
count_dropped target [] heap = heap
count_dropped target ((id, m) ∷ ms) heap =
    count_dropped target ms
      (if ltb_ℤ m.publish_time target then count_ack m.counters heap else heap)

-- The message that the second loop makes. Its `proto` has no `Message`.
abbrev pub replay : ℕ → Message → SubMessage
replay r m = record {
  proto = record { ack_id = m.id; message = none };
  publish_time = m.publish_time;
  ack_deadline = zero_time;
  counters = r;
  stream_index = negsuc 0;
}

-- The second loop, over the published messages.
unfoldable pub replay_since :
    ℤ → (ℕ → Message) → List ℕ → List (Str × SubMessage) → List (Str × SubMessage)
replay_since target heap [] ms = ms
replay_since target heap (r ∷ rs) ms = replay_since target heap rs (
    if ltb_ℤ (heap r).publish_time target
    then ms
    else insert str_discrete (heap r).id (replay r (heap r)) ms)

unfoldable pub seek_body : ℤ → ℕ → Handler
unfolding keep_since count_dropped replay_since
seek_body target r s =
    let sub = s.sub_heap r in
    let heap = count_dropped target sub.msgs s.message_heap in
    let ms = replay_since target heap s.msgs (keep_since target sub.msgs) in
    (
      success seek_res,
      record s { message_heap = heap; sub_heap = update s.sub_heap r (record sub { msgs = ms }) },
    )

unfoldable pub seek : Str → Target → Handler
seek name missing s = (failure Code.invalid_argument, s)
seek name (snapshot n) s = (failure Code.unimplemented, s)
seek name (time target) s =
    intercept (bytes "Seek") (seek_req name (time target)) seek_res
      (with_subscription name (seek_body target)) s
