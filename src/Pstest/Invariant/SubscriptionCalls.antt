-- ===== src/Pstest/Invariant/SubscriptionCalls.antt =====
-- The RPCs on subscriptions and their messages keep the server consistent.
use gcp_emulator_pool.Common.{
  ℕ, zero, suc, ◌≡◌, refl, sym, ap, subst, ◌∙◌, ◌⊎◌, Option, none, some, List, [], ◌∷◌, arith, Str,
  str_discrete, inl, inr, ℤ, pos, negsuc, Bool, lookup, update, update_field, update_at, update_ne,
  ℕ_discrete, Option-cases, Bool-cases,
}
use gcp_emulator_pool.Pstest.Pb.{PbSubscription, PubsubMessage, Code}
use gcp_emulator_pool.Pstest.State.{Subscription, GServer}
use gcp_emulator_pool.Pstest.Subscriptions.{
  secs_to_dur, add_subscription, new_subscription, with_defaults, create_subscription_body,
  delete_subscription_body, detach_subscription_body,
}
use gcp_emulator_pool.Pstest.Settings.{
  Field, push_config, field_of, check_field, set_field, update_paths, store_subscription,
  update_subscription_body,
}
use gcp_emulator_pool.Pstest.Publishing.{publish_body, publish_loop}
use gcp_emulator_pool.Pstest.Delivery.{
  Wait, cancelled, elapsed, pull_subscription, pull_again, pull_once, pull_body,
  modify_ack_deadline_body, record_modacks,
}
use gcp_emulator_pool.Pstest.Invariant.Registry.{SameRegistry-Registry, update_sub-SameRegistry}
use gcp_emulator_pool.Pstest.Invariant.RegistryCalls.{
  add_subscription-Registry, delete_subscription_body-Registry, detach_subscription_body-Registry,
}
use gcp_emulator_pool.Pstest.Invariant.Inbox.{IsInbox}
use gcp_emulator_pool.Pstest.Invariant.Ledger.{Ledger}
use gcp_emulator_pool.Pstest.Invariant.Messages.{
  IsConsistent, pull_subscription-IsConsistent, modify_all-IsConsistent,
  record_modacks-IsConsistent,
}
use gcp_emulator_pool.Pstest.Invariant.Publish.{publish_loop-IsConsistent}
use gcp_emulator_pool.Pstest.Invariant.Calls.{registry_step}

-- A write to one subscription that keeps its name, its topic and its messages.
pub settings-IsConsistent :
    (s : GServer) (r : ℕ) (sub : Subscription)
    → IsConsistent s
    → sub.proto.name ≡ (s.sub_heap r).proto.name
    → sub.topic ≡ (s.sub_heap r).topic
    → sub.msgs ≡ (s.sub_heap r).msgs
    → IsConsistent (record s { sub_heap = update s.sub_heap r sub })
settings-IsConsistent s r sub c named back same = record {
  registry = SameRegistry-Registry (update_sub-SameRegistry s r sub named back) c.registry;
  ledger =
      registry_step s s.topics s.subs s.topic_heap s.next_topic (update s.sub_heap r sub) c.ledger
        (update_field (λ x. x.msgs) s.sub_heap r sub same);
}

set_field-name :
    (req : PbSubscription) (f : Field) (p : PbSubscription) → (set_field req f p).name ≡ p.name
unfolding set_field
set_field-name req push_config p = refl
set_field-name req _ p = refl

update_paths-name :
    (min_secs : ℤ) (req : PbSubscription) (paths : List Str) (p : PbSubscription)
    → (update_paths min_secs req paths p).0.name ≡ p.name
unfolding update_paths
update_paths-name min_secs req [] p = refl
update_paths-name min_secs req (path ∷ paths) p = elim (Option-cases (field_of path)) [
  | inl unknown_path ↦ rw (unknown_path, update_paths)
  | inr (f, named) ↦
      rw (named, update_paths)
        (elim (Option-cases (check_field min_secs req f)) [
          | inl fine ↦
              rw (fine, update_paths)
                (update_paths-name min_secs req paths (set_field req f p) ∙ set_field-name req f p)
          | inr (code, bad) ↦ rw (bad, update_paths)
        ])
]

store_subscription-IsConsistent :
    (r : ℕ) (p : PbSubscription) (err : Option Code) (s : GServer)
    → p.name ≡ (s.sub_heap r).proto.name
    → IsConsistent s
    → IsConsistent (store_subscription r (p, err) s).1
unfolding store_subscription
store_subscription-IsConsistent r p none s named c = settings-IsConsistent s r _ c named refl refl
store_subscription-IsConsistent r p (some code) s named c =
    settings-IsConsistent s r _ c named refl refl

pub update_subscription_body-IsConsistent :
    (req : PbSubscription) (mask : Option (List Str)) (r : ℕ) (s : GServer)
    → IsConsistent s
    → IsConsistent (update_subscription_body req mask r s).1
unfolding update_subscription_body
update_subscription_body-IsConsistent req none r s c = c
update_subscription_body-IsConsistent req (some paths) r s c =
    store_subscription-IsConsistent r _ _ s
      (update_paths-name s.min_ack_deadline_secs req paths (s.sub_heap r).proto) c

add_subscription-Ledger :
    (top : ℕ) (ps : PbSubscription) (s : GServer) → Ledger s → Ledger (add_subscription top ps s)
unfolding add_subscription new_subscription
add_subscription-Ledger top ps s l = record {
  numbered = l.numbered;
  named = l.named;
  logged = l.logged;
  recorded = l.recorded;
  inbox = λ q h. elim (ℕ_discrete s.next_sub q) [
    | yes e ↦
        subst (λ x. IsInbox s.next_message x.msgs)
          (sym (update_at s.sub_heap s.next_sub (new_subscription top ps) q e))
          (record { held = tt; unique = tt })
    | no ne ↦
        subst (λ x. IsInbox s.next_message x.msgs)
          (sym (update_ne s.sub_heap s.next_sub q (new_subscription top ps) ne))
          (l.inbox q (omega arith))
  ];
}

-- CreateSubscription changes nothing, or adds a subscription to a topic that is there.
create_subscription_cases :
    (ps : PbSubscription) (s : GServer)
    → ((create_subscription_body ps s).1 ≡ s)
      ⊎ ((top : ℕ) × (lookup str_discrete ps.topic s.topics ≡ some top)
          × (lookup str_discrete ps.name s.subs ≡ none)
          × ((create_subscription_body ps s).1 ≡ add_subscription top (with_defaults ps) s))
unfolding create_subscription_body
create_subscription_cases ps s = ground arith

with_defaults-name : (ps : PbSubscription) → (with_defaults ps).name ≡ ps.name
unfolding with_defaults
with_defaults-name ps = refl

pub create_subscription_body-IsConsistent :
    (ps : PbSubscription) (s : GServer)
    → IsConsistent s
    → IsConsistent (create_subscription_body ps s).1
create_subscription_body-IsConsistent ps s c = elim (create_subscription_cases ps s) [
  | inl e ↦ subst IsConsistent (sym e) c
  | inr (top, there, new, e) ↦ subst IsConsistent (sym e) (record {
    registry =
        add_subscription-Registry top (with_defaults ps) s c.registry
          (c.registry.topic_named ps.topic top there).0
          (ap (λ n. lookup str_discrete n s.subs) (with_defaults-name ps) ∙ new);
    ledger = add_subscription-Ledger top (with_defaults ps) s c.ledger;
  })
]

pub delete_subscription_body-IsConsistent :
    (name : Str) (r : ℕ) (s : GServer)
    → IsConsistent s
    → lookup str_discrete name s.subs ≡ some r
    → IsConsistent (delete_subscription_body name r s).1
unfolding delete_subscription_body
delete_subscription_body-IsConsistent name r s c here = record {
  registry = delete_subscription_body-Registry name r s c.registry here;
  ledger = elim (Bool-cases (s.sub_heap r).done) [
    | inl closed ↦ rw closed c.ledger
    | inr open_yet ↦
        rw open_yet
          (registry_step s _ _ _ _ _ c.ledger (update_field (λ x. x.msgs) s.sub_heap r _ refl))
  ];
}

pub detach_subscription_body-IsConsistent :
    (r : ℕ) (s : GServer) → IsConsistent s → IsConsistent (detach_subscription_body r s).1
unfolding detach_subscription_body
detach_subscription_body-IsConsistent r s c = record {
  registry = detach_subscription_body-Registry r s c.registry;
  ledger = registry_step s _ _ _ _ s.sub_heap c.ledger (λ q. refl);
}

publish_body_cases :
    (clock : ℕ → ℤ) (topic : Str) (pms : List PubsubMessage) (s : GServer)
    → ((publish_body clock topic pms s).1 ≡ s)
      ⊎ ((top : ℕ) × (lookup str_discrete topic s.topics ≡ some top)
          × ((publish_body clock topic pms s).1 ≡ (publish_loop clock top pms [] s).1))
unfolding publish_body
publish_body_cases clock topic pms s = ground arith

pub publish_body-IsConsistent :
    (clock : ℕ → ℤ) (topic : Str) (pms : List PubsubMessage) (s : GServer)
    → IsConsistent s
    → IsConsistent (publish_body clock topic pms s).1
publish_body-IsConsistent clock topic pms s c = elim (publish_body_cases clock topic pms s) [
  | inl e ↦ subst IsConsistent (sym e) c
  | inr (top, there, e) ↦
      subst IsConsistent (sym e) (publish_loop-IsConsistent clock top pms [] s c)
]

pub pull_again-IsConsistent :
    (wait : Wait) (max r : ℕ) (s : GServer)
    → ((others : GServer → GServer) (now : ℤ) → wait ≡ elapsed others now → IsConsistent (others s))
    → IsConsistent s
    → IsConsistent (pull_again wait max r s).1
unfolding pull_again
pull_again-IsConsistent (cancelled code) max r s w c = c
pull_again-IsConsistent (elapsed others now) max r s w c =
    elim (Option-cases (pull_subscription now max r (others s))) [
      | inl broken ↦ rw (broken, pull_again) (w others now refl)
      | inr ((protos, s'), e) ↦
          rw (e, pull_again)
            (pull_subscription-IsConsistent now max r (others s) (w others now refl) e)
    ]

module _ (wait : Wait) (r : ℕ) (s : GServer)
    (others_keep : (others : GServer → GServer) (now : ℤ) (t : GServer)
      → wait ≡ elapsed others now
      → IsConsistent t
      → IsConsistent (others t))
    (c : IsConsistent s) where
  pull_once-IsConsistent :
      (now : ℤ) (max : ℕ) (at_once : Bool) → IsConsistent (pull_once now wait max at_once r s).1
  unfolding pull_once
  pull_once-IsConsistent now max at_once = elim (Option-cases (pull_subscription now max r s)) [
    | inl broken ↦ rw (broken, pull_once) c
    | inr ((proto ∷ protos, s'), e) ↦
        rw (e, pull_once) (pull_subscription-IsConsistent now max r s c e)
    | inr (([], s'), e) ↦
        let kept : IsConsistent s' = pull_subscription-IsConsistent now max r s c e in
        rw (e, pull_once)
          (elim (Bool-cases at_once) [
            | inl go ↦ rw go kept
            | inr stay ↦ rw stay (
                pull_again-IsConsistent wait max r s'
                  (λ others now w. others_keep others now s' w kept) kept)
          ])
  ]

  pub pull_body-IsConsistent :
      (now max : ℤ) (at_once : Bool) → IsConsistent (pull_body now wait max at_once r s).1
  unfolding pull_body
  pull_body-IsConsistent now (negsuc n) at_once = c
  pull_body-IsConsistent now (pos zero) at_once = pull_once-IsConsistent now 1000 at_once
  pull_body-IsConsistent now (pos (suc n)) at_once = pull_once-IsConsistent now (suc n) at_once

pub modify_ack_deadline_body-IsConsistent :
    (received_at : ℤ) (clock : ℕ → ℤ) (ids : List Str) (secs : ℤ) (r : ℕ) (s : GServer)
    → IsConsistent s
    → IsConsistent (modify_ack_deadline_body received_at clock ids secs r s).1
unfolding modify_ack_deadline_body
modify_ack_deadline_body-IsConsistent received_at clock ids secs r s c =
    elim (Option-cases (record_modacks received_at secs ids s)) [
      | inl unknown_id ↦ rw (unknown_id, modify_ack_deadline_body) c
      | inr (s', e) ↦
          rw (e, modify_ack_deadline_body)
            (modify_all-IsConsistent clock 0 ids (secs_to_dur secs) r s'
              (record_modacks-IsConsistent received_at secs ids s c e))
    ]
