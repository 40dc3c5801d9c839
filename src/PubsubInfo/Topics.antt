-- ===== src/PubsubInfo/Topics.antt =====
-- The cache of topics (gcpapi/pubsub.go).
use gcp_emulator_pool.Common.{
  ◌≡◌, refl, ◌∙◌, inl, inr, none, some, List, [], Str, str_discrete, lookup, insert, lookup-insert,
  if_pos, Option-cases,
}
use gcp_emulator_pool.PubsubInfo.{Service, Info, get_topic}

module _ (s : Service) where
  open s use {World, Topic}

  -- The cache, that of an info without one being empty.
  abbrev cached : Info Topic → List (Str × Topic)
  cached p = elim p.topic_cache [ none ↦ [] | some m ↦ m ]

  get_topic_known :
      (name : Str) (p : Info Topic) (t : Topic) (w : World)
      → lookup str_discrete name (cached p) ≡ some t
      → get_topic s name p w ≡ ((t, record p { topic_cache = some (cached p) }), w)
  unfolding get_topic
  get_topic_known name p t w h = rw (h, get_topic) refl

  get_topic_new :
      (name : Str) (p : Info Topic) (w : World)
      → lookup str_discrete name (cached p) ≡ none
      → get_topic s name p w ≡ (
        (
          (s.topic name w).0,
          record p { topic_cache = some (insert str_discrete name (s.topic name w).0 (cached p)) },
        ),
        (s.topic name w).1,
      )
  unfolding get_topic
  get_topic_new name p w h = rw (h, get_topic) refl

  -- The client is asked for a topic at most once: when the topic was fetched, fetching it again, at
  -- any later time, returns the same topic, and changes neither the info nor the world.
  pub get_topic_again :
      (name : Str) (p : Info Topic) (w v : World)
      → get_topic s name (get_topic s name p w).0.1 v ≡ ((get_topic s name p w).0, v)
  get_topic_again name p w v = elim (Option-cases (lookup str_discrete name (cached p))) [
    | inl gone ↦
        let t = (s.topic name w).0 in
        rw (get_topic_new name p w gone) (
          get_topic_known name _ t v (
            lookup-insert str_discrete name name t (cached p)
            ∙ if_pos (str_discrete name name) refl (some t) (lookup str_discrete name (cached p))))
    | inr (t, there) ↦ rw (get_topic_known name p t w there) (get_topic_known name _ t v there)
  ]
