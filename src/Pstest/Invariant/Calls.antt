-- ===== src/Pstest/Invariant/Calls.antt =====
-- Every RPC keeps the server consistent.
use gcp_emulator_pool.Common.{
  ℕ, ◌≡◌, refl, sym, subst, ◌∙◌, ◌⊎◌, Option, none, some, List, [], ◌∷◌, arith, Str, str_discrete,
  inl, inr, lookup, update, update_field, Option-cases, Bool-cases, ◌||◌,
}
use gcp_emulator_pool.Pstest.Pb.{PbTopic, Code, Request, Response}
use gcp_emulator_pool.Pstest.State.{Topic, Subscription, GServer, Outcome, Handler}
use gcp_emulator_pool.Pstest.Reactors.{intercept, run_reactor, is_some}
use gcp_emulator_pool.Pstest.Topics.{
  create_topic_body, update_topic_paths, store_topic, update_topic_body, delete_topic_body,
  stop_topic, orphan,
}
use gcp_emulator_pool.Pstest.Subscriptions.{
  Found, found, fails, find_subscription, with_subscription,
}
use gcp_emulator_pool.Pstest.Invariant.Registry.{SameRegistry-Registry}
use gcp_emulator_pool.Pstest.Invariant.RegistryCalls.{
  create_topic_body-Registry, delete_topic_body-Registry,
}
use gcp_emulator_pool.Pstest.Invariant.Inbox.{IsInbox}
use gcp_emulator_pool.Pstest.Invariant.Ledger.{Ledger}
use gcp_emulator_pool.Pstest.Invariant.Messages.{IsConsistent}

-- A predicate that a handler keeps is kept with reactors in front of it.
pub intercept_keeps {ℓ} :
    (P : GServer → Type ℓ) (name : Str) (req : Request) (d : Response) (h : Handler) (s : GServer)
    → P s
    → P (h s).1
    → P (intercept name req d h s).1
unfolding intercept
intercept_keeps P name req d h s p q =
    elim (Bool-cases ((run_reactor s req name d).0 || is_some (run_reactor s req name d).2)) [
      | inl handled ↦ rw handled p
      | inr on ↦ rw on q
    ]

pub Found-cases : (f : Found) → ((code : Code) × (f ≡ fails code)) ⊎ ((r : ℕ) × (f ≡ found r))
Found-cases (fails code) = inl (code, refl)
Found-cases (found r) = inr (r, refl)

pub found-lookup :
    (name : Str) (s : GServer) {r : ℕ}
    → find_subscription name s ≡ found r
    → lookup str_discrete name s.subs ≡ some r
unfolding find_subscription
found-lookup name s e = ground arith

-- And behind the look-up of a subscription.
pub with_subscription_keeps {ℓ} :
    (P : GServer → Type ℓ) (name : Str) (rest : ℕ → Handler) (s : GServer)
    → P s
    → ((r : ℕ) → lookup str_discrete name s.subs ≡ some r → P (rest r s).1)
    → P (with_subscription name rest s).1
unfolding with_subscription
with_subscription_keeps P name rest s p q = elim (Found-cases (find_subscription name s)) [
  | inl (code, e) ↦ rw (e, with_subscription) p
  | inr (r, e) ↦ rw (e, with_subscription) (q r (found-lookup name s e))
]

-- Calls that do not look at the messages.
pub registry_step :
    (s : GServer) (topics subs : List (Str × ℕ)) (topic_heap : ℕ → Topic) (next_topic : ℕ)
    (sub_heap : ℕ → Subscription)
    → Ledger s
    → ((q : ℕ) → (sub_heap q).msgs ≡ (s.sub_heap q).msgs)
    → Ledger (record s {
      topics = topics;
      subs = subs;
      topic_heap = topic_heap;
      next_topic = next_topic;
      sub_heap = sub_heap;
    })
registry_step s topics subs topic_heap next_topic sub_heap l same = record {
  numbered = l.numbered;
  named = l.named;
  logged = l.logged;
  recorded = l.recorded;
  inbox = λ q h. subst (IsInbox s.next_message) (sym (same q)) (l.inbox q h);
}

pub create_topic_body-IsConsistent :
    (t : PbTopic) (s : GServer) → IsConsistent s → IsConsistent (create_topic_body t s).1
unfolding create_topic_body
create_topic_body-IsConsistent t s c = record {
  registry = create_topic_body-Registry t s c.registry;
  ledger = elim (Option-cases (lookup str_discrete t.name s.topics)) [
    | inl e ↦ rw (e, create_topic_body) (registry_step s _ _ _ _ s.sub_heap c.ledger (λ q. refl))
    | inr (r, e) ↦ rw (e, create_topic_body) c.ledger
  ];
}

update_topic_paths-name :
    (req : PbTopic) (paths : List Str) (t : PbTopic)
    → (update_topic_paths req paths t).0.name ≡ t.name
unfolding update_topic_paths
update_topic_paths-name req [] t = refl
update_topic_paths-name req (path ∷ paths) t = ground (
  arith,
  update_topic_paths-name req paths (record t { labels = req.labels }),
  update_topic_paths-name req paths
      (record t { message_storage_policy = req.message_storage_policy }),
)

store_topic-IsConsistent :
    (r : ℕ) (t : PbTopic) (err : Option Code) (s : GServer)
    → t.name ≡ (s.topic_heap r).proto.name
    → IsConsistent s
    → IsConsistent (store_topic r (t, err) s).1
unfolding store_topic
store_topic-IsConsistent r t err s named c =
    elim err as (λ o. IsConsistent (store_topic r (t, o) s).1) [ none ↦ kept | some code ↦ kept ]
  where
    kept :
        IsConsistent
          (record s { topic_heap = update s.topic_heap r (record (s.topic_heap r) { proto = t }) })
    kept = record {
      registry =
          SameRegistry-Registry
            (record {
              same_topics = refl;
              same_subs = refl;
              same_next_topic = refl;
              same_next_sub = refl;
              same_topic_name = update_field (λ x. x.proto.name) s.topic_heap r _ named;
              same_topic_subs = update_field (λ x. x.subs) s.topic_heap r _ refl;
              same_sub_name = λ q. refl;
              same_sub_topic = λ q. refl;
            })
            c.registry;
      ledger = registry_step s _ _ _ _ s.sub_heap c.ledger (λ q. refl);
    }

pub update_topic_body-IsConsistent :
    (req : Option PbTopic) (mask : Option (List Str)) (s : GServer)
    → IsConsistent s
    → IsConsistent (update_topic_body req mask s).1
unfolding update_topic_body
update_topic_body-IsConsistent none mask s c = c
update_topic_body-IsConsistent (some req) mask s c =
    elim (Option-cases (lookup str_discrete req.name s.topics)) [
      | inl e ↦ rw (e, update_topic_body) c
      | inr (r, e) ↦
          rw (e, update_topic_body)
            (elim mask as (λ o. IsConsistent (masked r o).1) [
              | none ↦ c
              | some paths ↦
                  store_topic-IsConsistent r _ _ s
                    (update_topic_paths-name req paths (s.topic_heap r).proto) c
            ])
    ]
  where
    masked : ℕ → Option (List Str) → Outcome × GServer
    masked r none = (Outcome.panic, s)
    masked r (some paths) = store_topic r (update_topic_paths req paths (s.topic_heap r).proto) s

stop_topic-msgs :
    (subs : List (Str × ℕ)) (heap : ℕ → Subscription) (q : ℕ)
    → (stop_topic subs heap q).msgs ≡ (heap q).msgs
unfolding stop_topic
stop_topic-msgs [] heap q = refl
stop_topic-msgs ((name, r) ∷ subs) heap q =
    stop_topic-msgs subs _ q ∙ update_field (λ x. x.msgs) heap r (orphan (heap r)) refl q

pub delete_topic_body-IsConsistent :
    (name : Str) (s : GServer) → IsConsistent s → IsConsistent (delete_topic_body name s).1
unfolding delete_topic_body
delete_topic_body-IsConsistent name s c = record {
  registry = delete_topic_body-Registry name s c.registry;
  ledger = elim (Option-cases (lookup str_discrete name s.topics)) [
    | inl e ↦ rw (e, delete_topic_body) c.ledger
    | inr (r, e) ↦
        rw (e, delete_topic_body)
          (registry_step s _ _ _ _ _ c.ledger (stop_topic-msgs (s.topic_heap r).subs s.sub_heap))
  ];
}
