-- ===== src/Pstest/Invariant/Events.antt =====
-- The server is consistent after any events.
use gcp_emulator_pool.Common.{
  ℕ, suc, ◌/◌, ◌≡◌, refl, ap, subst, ◌∙◌, Option, none, some, List, [], ◌∷◌, arith, Str,
  str_discrete, inl, inr, ℤ, pos, negsuc, ltb, ltb_ℤ, lookup, update, update_field, Option-cases,
  Bool-cases, true,
}
use gcp_emulator_pool.Pstest.Pb.{Labels}
use gcp_emulator_pool.Pstest.State.{
  Message, Subscription, Reactor, GServer, Outcome, success, failure, panic,
}
use gcp_emulator_pool.Pstest.Topics.{create_topic}
use gcp_emulator_pool.Pstest.Subscriptions.{
  set_min_ack_deadline, reset_min_ack_deadline, second, secs_to_dur, int32,
}
use gcp_emulator_pool.Pstest.Publishing.{
  publish, publish_ordered, unless_panicked, is_topic_name, messages, message_by_id, clear_messages,
  stop_all, close, set_stream_timeout, show,
}
use gcp_emulator_pool.Pstest.Delivery.{ack_all, pull_subscription}
use gcp_emulator_pool.Pstest.Streams.{
  deliver, new_stream, delete_stream, modify_each, handle_streaming_pull_request, change_stream_at,
  index_of, set_ack_timeout,
}
use gcp_emulator_pool.Pstest.Server.{
  Event, rpc, pulls_again, delivers, opens_stream, stream_changes, stream_request, closes_stream,
  publishes, lists_messages, shows_message, clears_messages, closes, sets_stream_timeout,
  change_streams, sets_min_ack_deadline, resets_min_ack_deadline, at_once, or_same, step, run,
  new_server,
}
use gcp_emulator_pool.Pstest.Invariant.Messages.{
  IsConsistent, pull_subscription-IsConsistent, deliver-IsConsistent, ack_all-IsConsistent,
  modify_at-IsConsistent, counters-IsConsistent,
}
use gcp_emulator_pool.Pstest.Invariant.Calls.{intercept_keeps, create_topic_body-IsConsistent}
use gcp_emulator_pool.Pstest.Invariant.SubscriptionCalls.{
  settings-IsConsistent, publish_body-IsConsistent,
}
use gcp_emulator_pool.Pstest.Invariant.Serving.{serve-IsConsistent}

messages-id : (rs : List ℕ) (heap : ℕ → Message) (q : ℕ) → ((messages rs heap).1 q).id ≡ (heap q).id
unfolding messages
messages-id [] heap q = refl
messages-id (r ∷ rs) heap q =
    messages-id rs _ q ∙ update_field (λ m. m.id) heap r (show (heap r)) refl q

message_by_id-IsConsistent :
    (id : Str) (s : GServer) → IsConsistent s → IsConsistent (message_by_id id s).1
unfolding message_by_id
message_by_id-IsConsistent id s c = elim (Option-cases (lookup str_discrete id s.msgs_by_id)) [
  | inl gone ↦ rw (gone, message_by_id) c
  | inr (r, here) ↦
      rw (here, message_by_id)
        (counters-IsConsistent s _ c
          (update_field (λ m. m.id) s.message_heap r (show (s.message_heap r)) refl))
]

-- Fields of the server that its maps and objects do not depend on.
other_fields :
    (s : GServer) (timeout min_secs : ℤ)
    → IsConsistent s
    → IsConsistent (record s { stream_timeout = timeout; min_ack_deadline_secs = min_secs })
other_fields s timeout min_secs c = record {
  registry = record {
    topic_named = c.registry.topic_named;
    sub_named = c.registry.sub_named;
    attached = c.registry.attached;
  };
  ledger = record {
    numbered = c.ledger.numbered;
    named = c.ledger.named;
    logged = c.ledger.logged;
    recorded = c.ledger.recorded;
    inbox = c.ledger.inbox;
  };
}

clear_messages-IsConsistent : (s : GServer) → IsConsistent s → IsConsistent (clear_messages s)
unfolding clear_messages lookup
clear_messages-IsConsistent s c = record {
  registry = record {
    topic_named = c.registry.topic_named;
    sub_named = c.registry.sub_named;
    attached = c.registry.attached;
  };
  ledger = record {
    numbered = c.ledger.numbered;
    named = c.ledger.named;
    logged = tt;
    recorded = λ id r h. absurd (cc);
    inbox = c.ledger.inbox;
  };
}

stop_all-IsConsistent :
    (subs : List (Str × ℕ)) (s : GServer) {heap : ℕ → Subscription}
    → IsConsistent s
    → stop_all subs s.sub_heap ≡ some heap
    → IsConsistent (record s { sub_heap = heap })
unfolding stop_all
stop_all-IsConsistent [] s {heap} c e =
    subst (λ h. IsConsistent (record s { sub_heap = h })) {x = s.sub_heap} (ground arith) c
stop_all-IsConsistent ((name, r) ∷ subs) s {heap} c e = elim (Bool-cases (s.sub_heap r).done) [
  | inl closed ↦ absurd (ground (arith, closed))
  | inr open_yet ↦
      stop_all-IsConsistent subs
        (record s { sub_heap = update s.sub_heap r (record (s.sub_heap r) { done = true }) })
        (settings-IsConsistent s r (record (s.sub_heap r) { done = true }) c refl refl refl)
        (ground (arith, open_yet))
]

set_min_ack_deadline-IsConsistent :
    (d : ℤ) (s : GServer) {s' : GServer}
    → IsConsistent s
    → set_min_ack_deadline d s ≡ some s'
    → IsConsistent s'
unfolding set_min_ack_deadline
set_min_ack_deadline-IsConsistent (negsuc n) s c e = absurd (cc)
set_min_ack_deadline-IsConsistent (pos n) s c e = elim (Bool-cases (ltb n second)) [
  | inl small ↦ absurd (ground (arith, small))
  | inr fine ↦
      subst IsConsistent (ground (arith, fine))
        (other_fields s s.stream_timeout (int32 (n / second)) c)
]

modify_each-IsConsistent :
    (clock : ℕ → ℤ) (k : ℕ) (ids : List Str) (secs : List ℤ) (r : ℕ) (s : GServer) {s' : GServer}
    → IsConsistent s
    → modify_each clock k ids secs r s ≡ some s'
    → IsConsistent s'
unfolding modify_each
modify_each-IsConsistent clock k [] secs r s c e = subst IsConsistent (ground arith) c
modify_each-IsConsistent clock k (id ∷ ids) [] r s c e = absurd (cc)
modify_each-IsConsistent clock k (id ∷ ids) (n ∷ ns) r s c e =
    modify_each-IsConsistent clock (suc k) ids ns r _ (modify_at-IsConsistent (clock k) id _ r s c)
      e

handle_streaming_pull_request-IsConsistent :
    (clock : ℕ → ℤ) (stream_id : ℕ) (acks mods : List Str) (secs : List ℤ) (deadline : ℤ) (r : ℕ)
    (s : GServer) {s' : GServer}
    → IsConsistent s
    → handle_streaming_pull_request clock stream_id acks mods secs deadline r s ≡ some s'
    → IsConsistent s'
unfolding handle_streaming_pull_request
handle_streaming_pull_request-IsConsistent clock stream_id acks mods secs deadline r s c e =
    elim (Option-cases (modify_each clock 0 mods secs r (ack_all acks r s))) [
      | inl broken ↦ absurd (ground (arith, broken))
      | inr (t, modified) ↦
          let kept : IsConsistent t =
            modify_each-IsConsistent clock 0 mods secs r _ (ack_all-IsConsistent acks r s c)
              modified in
          elim (Bool-cases (ltb_ℤ (pos 0) deadline)) [
            | inl set ↦ subst IsConsistent (ground (arith, modified, set)) (
                settings-IsConsistent t r
                  (record (t.sub_heap r) {
                    streams =
                        change_stream_at (set_ack_timeout (secs_to_dur deadline))
                          (t.sub_heap r).streams (index_of stream_id (t.sub_heap r).streams);
                  })
                  kept refl refl refl)
            | inr left ↦ subst IsConsistent (ground (arith, modified, left)) kept
          ]
    ]

or_same-IsConsistent :
    (s : GServer) (o : Option GServer)
    → IsConsistent s
    → ((s' : GServer) → o ≡ some s' → IsConsistent s')
    → IsConsistent (or_same s o)
or_same-IsConsistent s none c h = c
or_same-IsConsistent s (some s') c h = h s' refl

close-IsConsistent :
    (s : GServer) {s' : GServer} → IsConsistent s → close s ≡ some s' → IsConsistent s'
unfolding close
close-IsConsistent s c e = elim (Option-cases (stop_all s.subs s.sub_heap)) [
  | inl broken ↦ absurd (ground (arith, broken))
  | inr (heap, stopped) ↦
      subst IsConsistent (ground (arith, stopped)) (stop_all-IsConsistent s.subs s c stopped)
]

unless_panicked-IsConsistent :
    (out : Outcome) (s : GServer) (rest : Option Str × GServer)
    → IsConsistent s
    → IsConsistent rest.1
    → IsConsistent (unless_panicked out s rest).1
unless_panicked-IsConsistent panic s rest c d = c
unless_panicked-IsConsistent (success r) s rest c d = d
unless_panicked-IsConsistent (failure e) s rest c d = d

publish_ordered-IsConsistent :
    (clock : ℕ → ℤ) (topic content : Str) (attrs : Labels) (key : Str) (s : GServer)
    → IsConsistent s
    → IsConsistent (publish_ordered clock topic content attrs key s).1
unfolding publish_ordered create_topic publish
publish_ordered-IsConsistent clock topic content attrs key s c =
    let made : IsConsistent
        (create_topic (record { name = topic; labels = []; message_storage_policy = none }) s).1 =
      intercept_keeps IsConsistent _ _ _ _ s c (create_topic_body-IsConsistent _ s c) in
    elim (Bool-cases (is_topic_name topic)) [
      | inl valid ↦
          rw (valid, publish_ordered)
            (unless_panicked-IsConsistent _ _ _ made (
              intercept_keeps IsConsistent _ _ _ _ _ made
                (publish_body-IsConsistent clock topic _ _ made)))
      | inr invalid ↦ rw (invalid, publish_ordered) c
    ]

delete_stream_same :
    (stream_id : ℕ) (sub : Subscription)
    → ((delete_stream stream_id sub).proto ≡ sub.proto)
      × ((delete_stream stream_id sub).topic ≡ sub.topic)
      × ((delete_stream stream_id sub).msgs ≡ sub.msgs)
unfolding delete_stream
delete_stream_same stream_id sub = ground arith

pub step-IsConsistent : (e : Event) (s : GServer) → IsConsistent s → IsConsistent (step e s)
unfolding step close publish_ordered create_topic publish set_stream_timeout reset_min_ack_deadline
    new_stream delete_stream
step-IsConsistent (rpc clock received_at now req) s c =
    serve-IsConsistent (at_once clock received_at now) req s (λ others n t e h. absurd (cc)) c
step-IsConsistent (pulls_again now max r) s c =
    elim (Option-cases (pull_subscription now max r s)) [
      | inl broken ↦ rw (broken, step) c
      | inr ((protos, s'), pulled) ↦
          rw (pulled, step) (pull_subscription-IsConsistent now max r s c pulled)
    ]
step-IsConsistent (delivers meanwhile now r) s c =
    or_same-IsConsistent s (deliver meanwhile now r s) c
      (λ t e. deliver-IsConsistent meanwhile now r s c e)
step-IsConsistent (opens_stream r stream_id) s c =
    settings-IsConsistent s r (new_stream stream_id s.stream_timeout (s.sub_heap r)) c refl refl
      refl
step-IsConsistent (stream_changes f i r) s c =
    settings-IsConsistent s r (change_streams (λ sts. change_stream_at f sts i) (s.sub_heap r)) c
      refl refl refl
step-IsConsistent (stream_request clock stream_id acks mods secs deadline r) s c =
    or_same-IsConsistent s _ c (λ t e.
      handle_streaming_pull_request-IsConsistent clock stream_id acks mods secs deadline r s c e)
step-IsConsistent (closes_stream r stream_id) s c =
    let (p, t, m) = delete_stream_same stream_id (s.sub_heap r) in
    settings-IsConsistent s r (delete_stream stream_id (s.sub_heap r)) c (ap (λ x. x.name) p) t m
step-IsConsistent (publishes clock topic content attrs key) s c =
    publish_ordered-IsConsistent clock topic content attrs key s c
step-IsConsistent lists_messages s c =
    counters-IsConsistent s (messages s.msgs s.message_heap).1 c (messages-id s.msgs s.message_heap)
step-IsConsistent (shows_message id) s c = message_by_id-IsConsistent id s c
step-IsConsistent clears_messages s c = clear_messages-IsConsistent s c
step-IsConsistent closes s c = or_same-IsConsistent s (close s) c (λ t e. close-IsConsistent s c e)
step-IsConsistent (sets_stream_timeout d) s c = other_fields s d s.min_ack_deadline_secs c
step-IsConsistent (sets_min_ack_deadline d) s c =
    or_same-IsConsistent s (set_min_ack_deadline d s) c
      (λ t e. set_min_ack_deadline-IsConsistent d s c e)
step-IsConsistent resets_min_ack_deadline s c = other_fields s s.stream_timeout (pos 10) c

pub new_server-IsConsistent : (opts : List (Str × Reactor)) → IsConsistent (new_server opts)
unfolding new_server lookup
new_server-IsConsistent opts = record {
  registry = record {
    topic_named = λ n r h. absurd (cc);
    sub_named = λ n r h. absurd (cc);
    attached = λ t n r lt h. absurd (omega arith);
  };
  ledger = record {
    numbered = refl;
    named = λ r h. absurd (omega arith);
    logged = tt;
    recorded = λ id r h. absurd (cc);
    inbox = λ r h. absurd (omega arith);
  };
}

run_keeps : (es : List Event) (s : GServer) → IsConsistent s → IsConsistent (run es s)
unfolding run
run_keeps [] s c = c
run_keeps (e ∷ es) s c = run_keeps es (step e s) (step-IsConsistent e s c)

-- After any events on a new server, the server is consistent: the maps lead to allocated topics and
-- subscriptions of the names that they are asked for, an entry of a topic's `subs` is a registered
-- subscription that points back to the topic, the ids of the messages are those of their numbers,
-- and every subscription holds a message at most once, under its own id.
pub run-IsConsistent :
    (opts : List (Str × Reactor)) (es : List Event) → IsConsistent (run es (new_server opts))
run-IsConsistent opts es = run_keeps es (new_server opts) (new_server-IsConsistent opts)
