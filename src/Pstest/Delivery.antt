-- ===== src/Pstest/Delivery.antt =====
-- What happens to a message in the hands of a subscription: `maintainMessages`, `pull`, `ack`,
-- `modifyAckDeadline`, and the RPCs Acknowledge, ModifyAckDeadline, Pull and Seek, of
-- gcpapi/pubsub/pstest/fake.go. The readings of the clock are arguments.
use gcp_emulator_pool.Common.{
  ℕ, zero, suc, ◌-◌, ◌*◌, Bool, true, false, ◌&&◌, not, Option, none, some, List, [], ◌∷◌, ◌++◌,
  if◌then◌else◌, ite, ℤ, pos, negsuc, ◌+ℤ◌, ◌-ℤ◌, leb, ltb_ℤ, ℤ-discrete, Str, str_discrete, lookup,
  insert, delete, update, bytes,
}
use gcp_emulator_pool.Pstest.Pb.{
  ReceivedMessage, Code, acknowledge_req, modify_ack_deadline_req, pull_req, pull_res, empty_res,
}
use gcp_emulator_pool.Pstest.State.{
  Modack, Message, SubMessage, zero_time, Subscription, GServer, success, failure, panic, Handler,
}
use gcp_emulator_pool.Pstest.Reactors.{intercept}
use gcp_emulator_pool.Pstest.Subscriptions.{secs_to_dur, with_subscription}

-- `m.outstanding()`.
abbrev pub is_outstanding : SubMessage → Bool
is_outstanding m = ite (ℤ-discrete m.ack_deadline zero_time) false true

abbrev pub make_available : SubMessage → SubMessage
make_available m = record m { ack_deadline = zero_time }

abbrev pub retention_duration : ℤ
retention_duration = pos (10 * 60 * 1000000000)

-- 1970-01-01, which is `AsTime` of nil.
abbrev pub unix_epoch : ℤ
unix_epoch = pos (62135596800 * 1000000000)

abbrev pub as_time : Option ℤ → ℤ
as_time none = unix_epoch
as_time (some t) = t

-- The first `if` of the loop in `maintainMessages`.
unfoldable pub expire : ℤ → SubMessage → SubMessage
expire now m = if is_outstanding m && ltb_ℤ m.ack_deadline now then make_available m else m

-- The second one.
unfoldable pub is_stale : ℤ → ℤ → SubMessage → Bool
is_stale now pub_time m = not (is_outstanding m) && ltb_ℤ retention_duration (now -ℤ pub_time)

-- `maintainMessages`. `none` is its panic: `m.proto.Message.PublishTime` reads through a pointer
-- that Seek leaves nil.
unfoldable pub maintain_messages : ℤ → List (Str × SubMessage) → Option (List (Str × SubMessage))
unfolding expire is_stale
maintain_messages now [] = some []
maintain_messages now ((id, m) ∷ ms) =
    let rest = maintain_messages now ms in
    elim m.proto.message [
      | none ↦ none
      | some pm ↦ elim rest [
        | none ↦ none
        | some ms' ↦
            let m' = expire now m in
            if is_stale now (as_time pm.publish_time) m' then some ms' else some ((id, m') ∷ ms')
      ]
    ]

-- What the loop of `subscription.pull` does: the entries it leaves, the messages it returns, and
-- the messages whose `deliveries` it increments.
pub record Pulled : Type 0 where
  pub entries : List (Str × SubMessage)
  pub protos : List ReceivedMessage
  pub counted : List ℕ

abbrev pub skip : Str → SubMessage → Pulled → Pulled
skip id m p = record p { entries = (id, m) ∷ p.entries }

abbrev pub take_one : Str → SubMessage → ℤ → Pulled → Pulled
take_one id m deadline p = record {
  entries = (id, record m { ack_deadline = deadline }) ∷ p.entries;
  protos = m.proto ∷ p.protos;
  counted = m.counters ∷ p.counted;
}

abbrev pub untouched : List (Str × SubMessage) → Pulled
untouched ms = record { entries = ms; protos = []; counted = [] }

-- `left` is how many messages are still wanted, at least one: the loop breaks behind the last.
unfoldable pub pull_entries : ℕ → ℤ → List (Str × SubMessage) → Pulled
pull_entries left deadline [] = untouched []
pull_entries left deadline ((id, m) ∷ ms) =
    let same = pull_entries left deadline ms in
    let fewer = pull_entries (left - 1) deadline ms in
    if is_outstanding m
    then skip id m same
    else if leb left 1
    then take_one id m deadline (untouched ms)
    else take_one id m deadline fewer

unfoldable pub count_deliveries : List ℕ → (ℕ → Message) → ℕ → Message
count_deliveries [] heap = heap
count_deliveries (r ∷ rs) heap =
    count_deliveries rs (update heap r (record (heap r) { deliveries = suc (heap r).deliveries }))

-- `subscription.pull` at the subscription `r`; `none` is the panic of `maintainMessages`.
unfoldable pub pull_subscription : ℤ → ℕ → ℕ → GServer → Option (List ReceivedMessage × GServer)
pull_subscription now max r s =
    let sub = s.sub_heap r in
    elim (maintain_messages now sub.msgs) [
      | none ↦ none
      | some ms ↦
          let p = pull_entries max (now +ℤ sub.ack_timeout) ms in
          some (
            p.protos,
            record s {
              sub_heap = update s.sub_heap r (record sub { msgs = p.entries });
              message_heap = count_deliveries p.counted s.message_heap;
            },
          )
    ]

-- What the environment does to a Pull that found no message: its context ends with an error, or
-- half a second passes, in which other calls change the server, and the clock is read again.
pub data Wait : Type 0 where
  cancelled : Code → Wait
  elapsed : (GServer → GServer) → ℤ → Wait

unfoldable pub pull_again : Wait → ℕ → ℕ → Handler
pull_again (cancelled code) max r s = (failure code, s)
pull_again (elapsed others now) max r s = elim (pull_subscription now max r (others s)) [
  | none ↦ (panic, others s)
  | some (protos, s') ↦ (success (pull_res protos), s')
]

unfoldable pub pull_once : ℤ → Wait → ℕ → Bool → ℕ → Handler
unfolding pull_again
pull_once now wait max return_immediately r s = elim (pull_subscription now max r s) [
  | none ↦ (panic, s)
  | some ([], s') ↦
      if return_immediately then (success (pull_res []), s') else pull_again wait max r s'
  | some (proto ∷ protos, s') ↦ (success (pull_res (proto ∷ protos)), s')
]

-- MaxMessages is an int32; 0 stands for 1000.
unfoldable pub pull_body : ℤ → Wait → ℤ → Bool → ℕ → Handler
unfolding pull_once
pull_body now wait (negsuc n) return_immediately r s = (failure Code.invalid_argument, s)
pull_body now wait (pos zero) return_immediately r s =
    pull_once now wait 1000 return_immediately r s
pull_body now wait (pos (suc n)) return_immediately r s =
    pull_once now wait (suc n) return_immediately r s

unfoldable pub pull : ℤ → Wait → Str → ℤ → Bool → Handler
pull now wait name max_messages return_immediately =
    intercept (bytes "Pull") (pull_req name max_messages return_immediately) (pull_res [])
      (with_subscription name (pull_body now wait max_messages return_immediately))

abbrev pub count_ack : ℕ → (ℕ → Message) → ℕ → Message
count_ack r heap = update heap r (record (heap r) { acks = suc (heap r).acks })

-- `ack`: an id that is not there is ignored.
unfoldable pub ack : Str → ℕ → GServer → GServer
ack id r s =
    let sub = s.sub_heap r in
    elim (lookup str_discrete id sub.msgs) [
      | none ↦ s
      | some m ↦ record s {
        message_heap = count_ack m.counters s.message_heap;
        sub_heap = update s.sub_heap r (record sub { msgs = delete str_discrete id sub.msgs });
      }
    ]

unfoldable pub ack_all : List Str → ℕ → GServer → GServer
ack_all [] r s = s
ack_all (id ∷ ids) r s = ack_all ids r (ack id r s)

unfoldable pub acknowledge : Str → List Str → Handler
acknowledge name ack_ids =
    intercept (bytes "Acknowledge") (acknowledge_req name ack_ids) empty_res
      (with_subscription name (λ r s. (success empty_res, ack_all ack_ids r s)))

-- A nack, or a new deadline.
unfoldable pub set_deadline : ℤ → ℤ → SubMessage → SubMessage
set_deadline now d m =
    ite (ℤ-discrete d (pos 0)) (make_available m) (record m { ack_deadline = now +ℤ d })

-- `modifyAckDeadline`, with the time at which it reads the clock.
unfoldable pub modify_one : ℤ → Str → ℤ → Subscription → Subscription
modify_one now id d sub = elim (lookup str_discrete id sub.msgs) [
  | none ↦ sub
  | some m ↦ record sub { msgs = insert str_discrete id (set_deadline now d m) sub.msgs }
]

abbrev pub modify_at : ℤ → Str → ℤ → ℕ → GServer → GServer
modify_at now id d r s = record s {
  sub_heap = update s.sub_heap r (modify_one now id d (s.sub_heap r));
}

-- The loop of ModifyAckDeadline over `sub.modifyAckDeadline`; `clock k` is the reading of the round
-- with number `k`.
unfoldable pub modify_all : (ℕ → ℤ) → ℕ → List Str → ℤ → ℕ → GServer → GServer
unfolding modify_one
modify_all clock k [] d r s = s
modify_all clock k (id ∷ ids) d r s =
    modify_all clock (suc k) ids d r (modify_at (clock k) id d r s)

-- The loop that records the modacks; `none` is the panic at an id that no message has.
unfoldable pub record_modacks : ℤ → ℤ → List Str → GServer → Option GServer
record_modacks received_at secs [] s = some s
record_modacks received_at secs (id ∷ ids) s = elim (lookup str_discrete id s.msgs_by_id) [
  | none ↦ none
  | some r ↦
      let m = s.message_heap r in
      let modack : Modack = record {
        ack_id = id;
        ack_deadline = secs;
        received_at = received_at;
      } in
      record_modacks received_at secs ids (record s {
        message_heap = update s.message_heap r (record m { modacks = m.modacks ++ modack ∷ [] });
      })
]

-- `received_at` is `time.Now()`, and `clock` the clock of the server.
unfoldable pub modify_ack_deadline_body : ℤ → (ℕ → ℤ) → List Str → ℤ → ℕ → Handler
unfolding modify_all record_modacks
modify_ack_deadline_body received_at clock ack_ids secs r s =
    elim (record_modacks received_at secs ack_ids s) [
      | none ↦ (panic, s)
      | some s' ↦ (success empty_res, modify_all clock 0 ack_ids (secs_to_dur secs) r s')
    ]

unfoldable pub modify_ack_deadline : ℤ → (ℕ → ℤ) → Str → List Str → ℤ → Handler
modify_ack_deadline received_at clock name ack_ids secs =
    intercept (bytes "ModifyAckDeadline") (modify_ack_deadline_req name ack_ids secs) empty_res
      (with_subscription name (modify_ack_deadline_body received_at clock ack_ids secs))
