-- ===== src/Pstest/Subscriptions.antt =====
-- The RPCs that manage subscriptions, and the checks of their settings, of
-- gcpapi/pubsub/pstest/fake.go.
use gcp_emulator_pool.Common.{
  ℕ, suc, ◌-◌, ◌*◌, ◌/◌, ◌%◌, ◌^◌, true, false, ◌||◌, Option, none, some, [], if◌then◌else◌, ite, ℤ,
  pos, negsuc, ◌*ℤ◌, ltb, ltb_ℤ, ℤ-discrete, Str, str_discrete, lookup, insert, delete, update,
  bytes,
}
use gcp_emulator_pool.Pstest.Pb.{
  PbSubscription, Code, create_subscription_req, get_subscription_req, delete_subscription_req,
  detach_subscription_req, subscription_res, detach_res, empty_res,
}
use gcp_emulator_pool.Pstest.State.{Topic, Subscription, GServer, success, failure, panic, Handler}
use gcp_emulator_pool.Pstest.Reactors.{intercept}

-- Nanoseconds.
abbrev pub second : ℕ
second = 1000000000

-- `secsToDur`, and the conversion in `newSubscription`.
unfoldable pub secs_to_dur : ℤ → ℤ
secs_to_dur secs = secs *ℤ pos second

-- A conversion to `int32` keeps the low 32 bits.
unfoldable pub int32 : ℕ → ℤ
int32 n = let low = n % 2 ^ 32 in if ltb low (2 ^ 31) then pos low else negsuc (2 ^ 32 - low - 1)

-- `SetMinAckDeadline`; `none` is its panic.
unfoldable pub set_min_ack_deadline : ℤ → GServer → Option GServer
set_min_ack_deadline (negsuc n) s = none
set_min_ack_deadline (pos n) s =
    if ltb n second then none else some (record s { min_ack_deadline_secs = int32 (n / second) })

-- `ResetMinAckDeadline`.
unfoldable pub reset_min_ack_deadline : GServer → GServer
reset_min_ack_deadline s = record s { min_ack_deadline_secs = pos 10 }

unfoldable pub check_ack_deadline : ℤ → ℤ → Option Code
check_ack_deadline min_secs ads =
    if ltb_ℤ ads min_secs || ltb_ℤ (pos 600) ads then some Code.unknown else none

abbrev pub min_message_retention_duration : ℤ
min_message_retention_duration = pos (10 * 60 * 1000000000)

abbrev pub max_message_retention_duration : ℤ
max_message_retention_duration = pos (168 * 3600 * 1000000000)

-- `AsDuration` of nil is 0.
abbrev pub as_duration : Option ℤ → ℤ
as_duration none = pos 0
as_duration (some d) = d

unfoldable pub check_mrd : Option ℤ → Option Code
check_mrd pmrd =
    if ltb_ℤ (as_duration pmrd) min_message_retention_duration
      || ltb_ℤ max_message_retention_duration (as_duration pmrd)
    then some Code.invalid_argument
    else none

abbrev pub or_else {ℓ} : {A : Type ℓ} → Option A → A → Option A
or_else none a = some a
or_else (some b) a = some b

-- The two settings that CreateSubscription fills in. A PushConfig that was nil becomes empty.
unfoldable pub with_defaults : PbSubscription → PbSubscription
with_defaults ps = record ps {
  message_retention_duration = or_else ps.message_retention_duration max_message_retention_duration;
  push_config = or_else ps.push_config [];
}

unfoldable pub new_subscription : ℕ → PbSubscription → Subscription
unfolding secs_to_dur
new_subscription top ps = record {
  topic = top;
  proto = ps;
  msgs = [];
  done = false;
  streams = [];
  ack_timeout =
      let at = secs_to_dur ps.ack_deadline_seconds in
      ite (ℤ-discrete at (pos 0)) (pos (10 * second)) at;
}

-- The end of CreateSubscription: the new subscription goes into both maps.
unfoldable pub add_subscription : ℕ → PbSubscription → GServer → GServer
unfolding new_subscription
add_subscription top ps s =
    let r = s.next_sub in
    let t = s.topic_heap top in
    record s {
      sub_heap = update s.sub_heap r (new_subscription top ps);
      next_sub = suc r;
      topic_heap =
          update s.topic_heap top (record t { subs = insert str_discrete ps.name r t.subs });
      subs = insert str_discrete ps.name r s.subs;
    }

-- The checks behind the look-up of the topic.
unfoldable pub check_subscription : ℤ → PbSubscription → Option Code
check_subscription min_secs ps = elim (check_ack_deadline min_secs ps.ack_deadline_seconds) [
  | some code ↦ some code
  | none ↦ check_mrd (with_defaults ps).message_retention_duration
]

unfoldable pub create_subscription_body : PbSubscription → Handler
unfolding add_subscription check_subscription
create_subscription_body ps s =
    ite (str_discrete ps.name []) (failure Code.invalid_argument, s)
      (elim (lookup str_discrete ps.name s.subs) [
        | some _ ↦ (failure Code.already_exists, s)
        | none ↦
            ite (str_discrete ps.topic []) (failure Code.invalid_argument, s)
              (elim (lookup str_discrete ps.topic s.topics) [
                | none ↦ (failure Code.not_found, s)
                | some top ↦ elim (check_subscription s.min_ack_deadline_secs ps) [
                  | some code ↦ (failure code, s)
                  | none ↦ (
                    success (subscription_res (with_defaults ps)),
                    add_subscription top (with_defaults ps) s,
                  )
                ]
              ])
      ])

abbrev pub empty_subscription : PbSubscription
empty_subscription = record {
  name = [];
  topic = [];
  push_config = none;
  ack_deadline_seconds = pos 0;
  retain_acked_messages = false;
  message_retention_duration = none;
  labels = [];
  expiration_policy = none;
  dead_letter_policy = none;
  retry_policy = none;
  filter = [];
}

unfoldable pub create_subscription : PbSubscription → Handler
create_subscription ps =
    intercept (bytes "CreateSubscription") (create_subscription_req ps)
      (subscription_res empty_subscription) (create_subscription_body ps)

-- `findSubscription`: the reference, or the error.
pub data Found : Type 0 where
  found : ℕ → Found
  fails : Code → Found

unfoldable pub find_subscription : Str → GServer → Found
find_subscription name s =
    ite (str_discrete name []) (fails Code.invalid_argument)
      (elim (lookup str_discrete name s.subs) [ none ↦ fails Code.not_found | some r ↦ found r ])

-- `sub, err := s.findSubscription(name)` and the return on its error, in front of the rest.
unfoldable pub with_subscription : Str → (ℕ → Handler) → Handler
unfolding find_subscription
with_subscription name rest s = elim (find_subscription name s) [
  | fails code ↦ (failure code, s)
  | found r ↦ rest r s
]

unfoldable pub get_subscription_body : ℕ → Handler
get_subscription_body r s = (success (subscription_res (s.sub_heap r).proto), s)

unfoldable pub get_subscription : Str → Handler
get_subscription name =
    intercept (bytes "GetSubscription") (get_subscription_req name)
      (subscription_res empty_subscription) (with_subscription name get_subscription_body)

-- `delete(t.subs, sub.proto.Name)` of `deleteSub`, at the topic that the subscription points to.
unfoldable pub delete_sub : Subscription → (ℕ → Topic) → ℕ → Topic
delete_sub sub heap =
    let t = heap sub.topic in
    update heap sub.topic (record t { subs = delete str_discrete sub.proto.name t.subs })

-- `sub.stop` closes `done`, which panics if it is closed already.
unfoldable pub delete_subscription_body : Str → ℕ → Handler
unfolding delete_sub
delete_subscription_body name r s =
    let sub = s.sub_heap r in
    if sub.done then (panic, s) else (
      success empty_res,
      record s {
        sub_heap = update s.sub_heap r (record sub { done = true });
        subs = delete str_discrete name s.subs;
        topic_heap = delete_sub sub s.topic_heap;
      },
    )

unfoldable pub delete_subscription : Str → Handler
delete_subscription name =
    intercept (bytes "DeleteSubscription") (delete_subscription_req name) empty_res
      (with_subscription name (delete_subscription_body name))

unfoldable pub detach_subscription_body : ℕ → Handler
unfolding delete_sub
detach_subscription_body r s =
    (success detach_res, record s { topic_heap = delete_sub (s.sub_heap r) s.topic_heap })

unfoldable pub detach_subscription : Str → Handler
detach_subscription name =
    intercept (bytes "DetachSubscription") (detach_subscription_req name) detach_res
      (with_subscription name detach_subscription_body)
