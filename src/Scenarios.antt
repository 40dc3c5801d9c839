-- ===== src/Scenarios.antt =====
-- The theorems on a small server.
mod Servers
use gcp_emulator_pool.Common.{
  ℕ, zero, suc, ◌-◌, ◌%◌, ◌≤◌, ◌<◌, ◌≡◌, ◌≢◌, ◌↔◌, ◌⊎◌, ℕ_discrete, ℤ-discrete, ◌-ℤ◌, inl, inr,
  refl, ap, subst, ite, arith, Bool, true, false, Option, none, some, List, [], ◌∷◌, ℤ, pos, negsuc,
  ◌+ℤ◌, Str, bytes, str_discrete, lookup, keys, length, get_elem?, take, drop, has_prefix, IsMap,
}
use gcp_emulator_pool.Strconv.{atoi, max_int}
use gcp_emulator_pool.Testutil.Paging.{Bounds, page_bounds, slice}
use gcp_emulator_pool.Testutil.Paging.Pages.{
  IsPage, IsToken, page_bounds-IsPage, page_bounds_negative, page_bounds-eq-none_iff,
}
use gcp_emulator_pool.Testutil.Paging.Walk.{walk, walk_all}
use gcp_emulator_pool.Pstest.Pb.{
  PbTopic, PbSubscription, PubsubMessage, ReceivedMessage, Code, Request, Response,
  create_topic_req, create_subscription_req, publish_req, pull_req, acknowledge_req,
  delete_topic_req, get_topic_req, topic_res, subscription_res, empty_res, seek_req, time,
}
use gcp_emulator_pool.Pstest.State.{
  Message, SubMessage, Stream, Subscription, Topic, Reactor, GServer, success, failure, panic,
  zero_time, Handler,
}
use gcp_emulator_pool.Pstest.Reactors.{intercept, errorf, with_error_injection, add_reactors}
use gcp_emulator_pool.Pstest.Topics.{
  create_topic_body, get_topic_body, delete_topic_body, update_topic_body,
  list_topic_subscriptions_body, names_where, orphan, empty_topic,
}
use gcp_emulator_pool.Pstest.Subscriptions.{
  create_subscription_body, with_defaults, get_subscription_body, with_subscription,
  delete_subscription_body, empty_subscription,
}
use gcp_emulator_pool.Pstest.Settings.{Field, update_subscription_body}
use gcp_emulator_pool.Pstest.Publishing.{clear_messages}
use gcp_emulator_pool.Pstest.Delivery.{
  Wait, elapsed, is_outstanding, expire, is_stale, as_time, maintain_messages, pull_subscription,
  ack, ack_all, modify_ack_deadline_body, modify_one,
}
use gcp_emulator_pool.Pstest.Seeking.{seek_body}
use gcp_emulator_pool.Pstest.Streams.{
  Readiness, readiness, try_streams, try_deliver_message, deliver_entries, deliver, Meanwhile,
}
use gcp_emulator_pool.Pstest.Server.{
  Env, serve, Event, rpc, delivers, pulls_again, closes, new_server, run,
}
use gcp_emulator_pool.Pstest.Leasing.{
  available, maintained, lookup-maintain_messages, pull_subscription_leases,
}
use gcp_emulator_pool.Pstest.Publication.{publish_body_elsewhere, reaches}
use gcp_emulator_pool.Pstest.Acknowledgement.{
  names_id, ack_all-lookup, ack_counts_once, modify_one-lookup, modify_ack_deadline_body_outcome,
  all_known,
}
use gcp_emulator_pool.Pstest.Replay.{seek_breaks_pull}
use gcp_emulator_pool.Pstest.Injection.{function_of, default_of, unhindered, serve_injected}
use gcp_emulator_pool.Pstest.Lifecycle.{
  create_topic_body-get_topic_body, delete_topic_body_orphans, delete_topic_body-create_topic_body,
  delete_subscription_body_unregisters,
}
use gcp_emulator_pool.Pstest.Admission.{IsAccepted, filled, create_subscription_body_outcome}
use gcp_emulator_pool.Pstest.Reconfiguration.{
  update_subscription_body_timeout, update_topic_body_partial,
}
use gcp_emulator_pool.Pstest.Updates.{update_subscription_body_outcome}
use gcp_emulator_pool.Pstest.Updates.Fields.{all_allowed, updated}
use gcp_emulator_pool.Pstest.Dispatch.{
  Took, try_deliver_message-Took, try_deliver_message_rounds, redelivery_stays,
}
use gcp_emulator_pool.Pstest.Failures.{may_write, serve_fails}
use gcp_emulator_pool.Pstest.Invariant.Registry.{Registry}
use gcp_emulator_pool.Pstest.Invariant.Messages.{IsConsistent}
use gcp_emulator_pool.Pstest.Invariant.Serving.{OthersKeep, serve-IsConsistent}
use gcp_emulator_pool.Pstest.Invariant.Events.{run-IsConsistent, new_server-IsConsistent}
use gcp_emulator_pool.Scenarios.Servers.{
  not_reached, a_topic, a_sub, ticks, held_message, held, a_stream, server_sub, logged_message,
  small, no_reactors, busy_day, idle, others_of, idle_keeps, small-Registry, topic_there, sub_there,
  message_there, absent, upkept, pulled, pulls, not_found_yet, not_zero, taken, given, injected,
  minus_five, once, free,
}

run-IsConsistent_example : IsConsistent (run busy_day (new_server no_reactors))
run-IsConsistent_example = run-IsConsistent no_reactors busy_day

pull_subscription_leases_example :
    (ms : List (Str × SubMessage)) × (maintain_messages (pos 2000) (small.sub_heap 0).msgs
      ≡ some ms)
    × (pulled.0 ≡ take 1 (available ms))
    × (available (pulled.1.sub_heap 0).msgs ≡ drop 1 (available ms))
    × (keys str_discrete (pulled.1.sub_heap 0).msgs ≡ keys str_discrete ms)
    × ((q : ℕ)
        → pulled.1.sub_heap q ≡ ite (ℕ_discrete 0 q) (pulled.1.sub_heap 0) (small.sub_heap q))
pull_subscription_leases_example =
    pull_subscription_leases (pos 2000) 1 0 small (omega arith) not_zero pulls

lookup-maintain_messages_example :
    lookup str_discrete (bytes "m0") held
    ≡ maintained (pos 2000) (lookup str_discrete (bytes "m0") held)
lookup-maintain_messages_example = lookup-maintain_messages (pos 2000) held once upkept (bytes "m0")

ack_all-lookup_example :
    (lookup str_discrete
        (bytes "m0")
        ((ack_all (bytes "m0" ∷ bytes "m9" ∷ []) 0 small).sub_heap 0).msgs
      ≡ (elim (names_id (bytes "m0") (bytes "m0" ∷ bytes "m9" ∷ [])) [
        | true ↦ none
        | false ↦ lookup str_discrete (bytes "m0") (small.sub_heap 0).msgs
      ]))
    × ((ack_all (bytes "m0" ∷ bytes "m9" ∷ []) 0 small).sub_heap 1
        ≡ ite
            (ℕ_discrete 0 1)
            ((ack_all (bytes "m0" ∷ bytes "m9" ∷ []) 0 small).sub_heap 0)
            (small.sub_heap 1))
ack_all-lookup_example = ack_all-lookup (bytes "m0" ∷ bytes "m9" ∷ []) 0 small (bytes "m0") 1

ack_counts_once_example :
    (((ack (bytes "m0") 0 small).message_heap held_message.counters).acks
      ≡ suc (small.message_heap held_message.counters).acks)
    × ((q : ℕ)
        → (ack (bytes "m0") 0 small).message_heap q
          ≡ ite
              (ℕ_discrete held_message.counters q)
              ((ack (bytes "m0") 0 small).message_heap held_message.counters)
              (small.message_heap q))
    × (ack (bytes "m0") 0 (ack (bytes "m0") 0 small) ≡ ack (bytes "m0") 0 small)
ack_counts_once_example = ack_counts_once (bytes "m0") 0 small message_there

modify_one-lookup_example :
    lookup str_discrete (bytes "m0") (modify_one (pos 2000) (bytes "m0") (pos 0) server_sub).msgs
    ≡ (elim (lookup str_discrete (bytes "m0") server_sub.msgs) [
      | none ↦ none
      | some m ↦ some (record m {
        ack_deadline =
            ite
              (str_discrete (bytes "m0") (bytes "m0"))
              (ite (ℤ-discrete (pos 0) (pos 0)) zero_time ((pos 2000) +ℤ (pos 0)))
              m.ack_deadline;
      })
    ])
modify_one-lookup_example =
    modify_one-lookup (pos 2000) (bytes "m0") (pos 0) server_sub (bytes "m0")

modify_ack_deadline_body_outcome_example :
    ((modify_ack_deadline_body (pos 5) ticks (bytes "m0" ∷ []) (pos 10) 0 small).0
      ≡ (elim (all_known (bytes "m0" ∷ []) small.msgs_by_id) [
        | true ↦ success empty_res
        | false ↦ panic
      ]))
    × ((clear_messages small).sub_heap ≡ small.sub_heap)
    × ((modify_ack_deadline_body
          (pos 5)
          ticks
          (bytes "m0" ∷ bytes "m0" ∷ [])
          (pos 10)
          0
          (clear_messages small)).0
        ≡ panic)
modify_ack_deadline_body_outcome_example =
    modify_ack_deadline_body_outcome (pos 5) ticks (bytes "m0" ∷ []) (bytes "m0") (pos 10) 0 small

seek_breaks_pull_example :
    ((now : ℤ) (max : ℕ) → pull_subscription now max 0 (seek_body (pos 500) 0 small).1 ≡ none)
    × ((meanwhile : Meanwhile) (now : ℤ)
        → deliver meanwhile now 0 (seek_body (pos 500) 0 small).1 ≡ none)
seek_breaks_pull_example = seek_breaks_pull (pos 500) 0 small 0 0 refl refl

serve_injected_example :
    serve idle (pull_req (bytes "s") (pos 1) true) injected
    ≡ ite
        (str_discrete (bytes "Pull") (function_of (pull_req (bytes "s") (pos 1) true)))
        (
          elim (errorf Code.unavailable) [
            | none ↦ success (default_of (pull_req (bytes "s") (pos 1) true))
            | some c ↦ failure c
          ],
          injected,
        )
        (unhindered idle (pull_req (bytes "s") (pos 1) true) injected)
serve_injected_example =
    serve_injected idle (bytes "Pull") Code.unavailable (pull_req (bytes "s") (pos 1) true) injected
      refl refl

delete_topic_body_orphans_example :
    ((delete_topic_body (bytes "t") small).0 ≡ success empty_res)
    × (lookup str_discrete (bytes "t") (delete_topic_body (bytes "t") small).1.topics ≡ none)
    × ((delete_topic_body (bytes "t") small).1.subs ≡ small.subs)
    × ((q : ℕ)
        → (delete_topic_body (bytes "t") small).1.sub_heap q
          ≡ (elim (reaches (small.topic_heap 0).subs q) [
            | true ↦ record (small.sub_heap q) {
              proto = record (small.sub_heap q).proto { topic = bytes "_deleted-topic_" };
            }
            | false ↦ small.sub_heap q
          ]))
    × ((n : Str) (size : ℤ) (token : Str)
        → (list_topic_subscriptions_body n size token (delete_topic_body (bytes "t") small).1).0
          ≡ (list_topic_subscriptions_body n size token small).0)
delete_topic_body_orphans_example = delete_topic_body_orphans (bytes "t") small topic_there

delete_subscription_body_unregisters_example :
    ((delete_subscription_body (bytes "s") 0 small).0 ≡ success empty_res)
    × (lookup str_discrete (bytes "s") (delete_subscription_body (bytes "s") 0 small).1.subs ≡ none)
    × (lookup str_discrete
          (bytes "s")
          ((delete_subscription_body (bytes "s") 0 small).1.topic_heap 0).subs
        ≡ none)
    × ((delete_subscription_body (bytes "s") 0 small).1.sub_heap 1
        ≡ ite (ℕ_discrete 0 1) (record (small.sub_heap 0) { done = true }) (small.sub_heap 1))
delete_subscription_body_unregisters_example =
    delete_subscription_body_unregisters (bytes "s") small 0 1 small-Registry sub_there refl
      (omega arith)

create_subscription_body_outcome_example :
    (IsAccepted a_sub small
      × ((create_subscription_body a_sub small).0 ≡ success (subscription_res (filled a_sub)))
      × ((with_subscription a_sub.name get_subscription_body
            (create_subscription_body a_sub small).1).0
          ≡ success (subscription_res (filled a_sub))))
    ⊎ ((¬ IsAccepted a_sub small)
        × ((code : Code) × (create_subscription_body a_sub small ≡ (failure code, small))))
create_subscription_body_outcome_example = create_subscription_body_outcome a_sub small

serve_fails_example : (serve idle (get_topic_req (bytes "t")) (new_server [])).1 ≡ new_server []
serve_fails_example =
    serve_fails idle (get_topic_req (bytes "t")) (new_server []) Code.not_found refl not_found_yet

update_subscription_body_outcome_example :
    ((all_allowed small.min_ack_deadline_secs a_sub (bytes "labels" ∷ []) ≡ true)
      × ((update_subscription_body a_sub (some (bytes "labels" ∷ [])) 0 small).0
          ≡ success
              (subscription_res (updated a_sub (bytes "labels" ∷ []) (small.sub_heap 0).proto)))
      × ((get_subscription_body 0
            (update_subscription_body a_sub (some (bytes "labels" ∷ [])) 0 small).1).0
          ≡ success
              (subscription_res (updated a_sub (bytes "labels" ∷ []) (small.sub_heap 0).proto))))
    ⊎ ((all_allowed small.min_ack_deadline_secs a_sub (bytes "labels" ∷ []) ≡ false)
        × ((code : Code) × ((update_subscription_body a_sub (some (bytes "labels" ∷ [])) 0 small).0
              ≡ failure code)))
update_subscription_body_outcome_example =
    update_subscription_body_outcome a_sub (bytes "labels" ∷ []) 0 small

update_subscription_body_timeout_example :
    (((update_subscription_body a_sub (some (bytes "ack_deadline_seconds" ∷ [])) 0 small).1.sub_heap
        0).ack_timeout
      ≡ (small.sub_heap 0).ack_timeout)
    × (((update_subscription_body a_sub
            (some (bytes "ack_deadline_seconds" ∷ []))
            0
            small).1.sub_heap
          0).msgs
        ≡ (small.sub_heap 0).msgs)
    × (((update_subscription_body a_sub
            (some (bytes "ack_deadline_seconds" ∷ []))
            0
            small).1.sub_heap
          0).streams
        ≡ (small.sub_heap 0).streams)
update_subscription_body_timeout_example =
    update_subscription_body_timeout a_sub (some (bytes "ack_deadline_seconds" ∷ [])) 0 small 0

update_topic_body_partial_example :
    ((update_topic_body (some a_topic) (some (bytes "labels" ∷ (bytes "name") ∷ [])) small).0
      ≡ failure Code.invalid_argument)
    × ((get_topic_body a_topic.name
          (update_topic_body
            (some a_topic)
            (some (bytes "labels" ∷ (bytes "name") ∷ []))
            small).1).0
        ≡ success (topic_res (record (small.topic_heap 0).proto { labels = a_topic.labels })))
update_topic_body_partial_example =
    update_topic_body_partial a_topic (bytes "name") small topic_there (λ e. cc) (λ e. cc)

try_deliver_message-Took_example :
    Took held_message.proto
      (a_stream ∷ [])
      (try_deliver_message held_message.proto 0 (a_stream ∷ []))
      0
      (pos 20)
try_deliver_message-Took_example =
    try_deliver_message-Took held_message.proto 0 (a_stream ∷ []) taken

redelivery_stays_example :
    (rest : List (Str × SubMessage)) × ((deliver_entries
        (λ k st. st)
        (pos 2000)
        0
        (a_stream ∷ [])
        (((bytes "m0"), given) ∷ [])).entries
      ≡ (
        (bytes "m0"),
        record given {
          ack_deadline = (pos 2000) +ℤ a_stream.ack_timeout;
          stream_index = pos (0 % length (a_stream ∷ []));
        },
      )
        ∷ rest)
redelivery_stays_example =
    redelivery_stays (λ k st. st) (pos 2000) 0 0 (a_stream ∷ []) (bytes "m0") given [] refl free
      refl refl

walk_all_example :
    walk
      (suc (length (bytes "a" ∷ bytes "b" ∷ bytes "c" ∷ [])))
      (pos 2)
      []
      (bytes "a" ∷ bytes "b" ∷ bytes "c" ∷ [])
    ≡ some (bytes "a" ∷ bytes "b" ∷ bytes "c" ∷ [])
walk_all_example = walk_all 2 (bytes "a" ∷ bytes "b" ∷ bytes "c" ∷ []) (omega arith) (omega arith)

page_bounds_negative_example :
    (b : Bounds) × (page_bounds (pos 2) (bytes "-5") (length (bytes "a" ∷ [])) ≡ some b)
    × (b.from ≡ negsuc 4)
    × (slice (bytes "a" ∷ []) b.from b.to ≡ none)
page_bounds_negative_example =
    page_bounds_negative (pos 2) (bytes "-5") (bytes "a" ∷ []) 4 minus_five
