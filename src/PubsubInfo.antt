-- ===== src/PubsubInfo.antt =====
-- gcpapi/pubsub.go: the wrapper of the Pub/Sub client, which signs messages, publishes them in
-- batches, and keeps topics and sent ids. The client library and the codecs are a parameter
-- (`Service`). `SendPubSubMessages` reads the results of a batch in goroutines: they run here in an
-- order that `schedule` picks, and what a result holds does not depend on when it is read.
pub mod Batches
pub mod Topics
pub mod Scenarios
use gcp_emulator_pool.Common.{
  ℕ, zero, suc, ◌+◌, ◌-◌, ◌⊎◌, inl, inr, Bool, true, false, Option, none, some, List, [], ◌∷◌, ◌++◌,
  if◌then◌else◌, ltb, Str, bytes, str_discrete, lookup, insert, update, length, take, drop,
}

-- What is called and not implemented. `result_of` is `Get` of a result: the id and the error.
pub record Service : Type 1 where
  pub World : Type 0
  pub Error : Type 0
  pub Topic : Type 0
  pub Message : Type 0
  pub Result : Type 0
  pub topic : Str → World → Topic × World
  pub marshal : Message → Error ⊎ Str
  pub base64 : Str → Str
  -- The MAC of a text under a key, or the error of writing to it.
  pub mac : Str → Str → Error ⊎ Str
  pub publish : Topic → Str → List (Str × Str) → World → Result × World
  pub result_of : Result → Str × Option Error
  pub close_client : World → World
  pub close_server : World → World
  pub clear_messages : World → World

-- `PubSubInfo`; the cache is nil before its first use.
pub record Info (T : Type 0) : Type 0 where
  pub has_client : Bool
  pub secret_key : Str
  pub topic_cache : Option (List (Str × T))
  pub has_test_server : Bool
  pub sent_message_ids_by_topic : List (Str × List Str)

abbrev pub batch_size : ℕ
batch_size = 500

-- The slices `errors` and `ids`, by index.
pub record Arrays (E : Type 0) : Type 0 where
  pub errors : ℕ → Option E
  pub ids : ℕ → Str

-- The first `n` elements from the index `i` on.
abbrev pub slice_of {ℓ} : {A : Type ℓ} → (ℕ → A) → ℕ → ℕ → List A
slice_of f i zero = []
slice_of f i (suc n) = f i ∷ slice_of f (suc i) n

-- The ids of a topic; none were sent if it is not in the map.
abbrev pub ids_of : Str → List (Str × List Str) → List Str
ids_of name m = elim (lookup str_discrete name m) [ none ↦ [] | some ids ↦ ids ]

unfoldable pub append_ids : {T : Type 0} → Str → List Str → Info T → Info T
append_ids name new p = record p {
  sent_message_ids_by_topic =
      insert str_discrete name (ids_of name p.sent_message_ids_by_topic ++ new)
        p.sent_message_ids_by_topic;
}

module _ (s : Service) where
  open s use {
    World, Error, Topic, Message, Result, topic, marshal, base64, mac, publish, result_of,
    close_client, close_server, clear_messages,
  }

  -- `Close`; a pointer to the info that is nil is none.
  unfoldable pub close : Option (Info Topic) → World → World
  close none w = w
  close (some p) w =
      let w = if p.has_client then close_client w else w in
      if p.has_test_server then close_server w else w

  -- `GetTopic`.
  unfoldable pub get_topic : Str → Info Topic → World → (Topic × Info Topic) × World
  get_topic name p w =
      let cache : List (Str × Topic) = elim p.topic_cache [ none ↦ [] | some m ↦ m ] in
      elim (lookup str_discrete name cache) [
        | some t ↦ ((t, record p { topic_cache = some cache }), w)
        | none ↦
            let (t, w) = topic name w in
            ((t, record p { topic_cache = some (insert str_discrete name t cache) }), w)
      ]

  -- `ComputeSignatureWithSecret`.
  unfoldable pub compute_signature_with_secret : Str → Str → Error ⊎ Str
  compute_signature_with_secret secret_key msg_bytes = elim (mac secret_key (base64 msg_bytes)) [
    | inl e ↦ inl e
    | inr sum ↦ inr (base64 sum)
  ]

  -- `publishMessage`.
  unfoldable pub publish_message : Str → Topic → Message → World → (Error ⊎ Result) × World
  unfolding compute_signature_with_secret
  publish_message secret_key t message w = elim (marshal message) [
    | inl e ↦ (inl e, w)
    | inr text ↦ elim (compute_signature_with_secret secret_key text) [
      | inl e ↦ (inl e, w)
      | inr signature ↦
          let (r, w) = publish t text ((bytes "signature", signature) ∷ []) w in (inr r, w)
    ]
  ]

  -- `SendPubSubMessage`. The id is recorded whether or not there is an error.
  unfoldable pub send_pub_sub_message :
      Str → Message → Info Topic → World → (Option Error × Info Topic) × World
  unfolding get_topic publish_message append_ids
  send_pub_sub_message name message p w =
      let ((t, p), w) = get_topic name p w in
      let (published, w) = publish_message p.secret_key t message w in
      elim published [
        | inl e ↦ ((some e, p), w)
        | inr r ↦
            let (server_id, err) = result_of r in ((err, append_ids name (server_id ∷ []) p), w)
      ]

  -- `ClearTestMessages`.
  unfoldable pub clear_test_messages : Info Topic → World → Info Topic × World
  clear_test_messages p w = (record p { sent_message_ids_by_topic = [] }, clear_messages w)

  -- The loop that publishes a batch: the results to wait for, by index.
  unfoldable pub publish_batch :
      Str
      → Topic
      → ℕ
      → List Message
      → Arrays Error
      → World
      → (List (ℕ × Result) × Arrays Error) × World
  unfolding publish_message
  publish_batch secret t index [] a w = (([], a), w)
  publish_batch secret t index (m ∷ ms) a w =
      let (published, w) = publish_message secret t m w in
      elim published [
        | inl e ↦
            publish_batch secret t (suc index) ms
              (record a { errors = update a.errors index (some e) }) w
        | inr r ↦
            let ((pending, a), w) = publish_batch secret t (suc index) ms a w in
            (((index, r) ∷ pending, a), w)
      ]

  -- What the goroutine of an index writes.
  unfoldable pub await_result : ℕ → Result → Arrays Error → Arrays Error
  await_result index r a =
      let (server_id, err) = result_of r in
      record {
        errors = elim err [ none ↦ a.errors | some e ↦ update a.errors index (some e) ];
        ids = update a.ids index server_id;
      }

  -- The goroutines, in the order of the list.
  unfoldable pub await_all : List (ℕ × Result) → Arrays Error → Arrays Error
  unfolding await_result
  await_all [] a = a
  await_all ((i, r) ∷ q) a = await_all q (await_result i r a)

  -- The loop of `SendPubSubMessages` from `start` on, or none without fuel.
  unfoldable pub send_batches :
      ℕ
      → (List (ℕ × Result) → List (ℕ × Result))
      → Str
      → Topic
      → List Message
      → ℕ
      → Arrays Error
      → World
      → Option (Arrays Error) × World
  unfolding publish_batch await_all
  send_batches zero schedule secret t messages start a w = (none, w)
  send_batches (suc fuel) schedule secret t messages start a w =
      let past = start + batch_size in
      let stop = if ltb (length messages) past then length messages else past in
      let ((pending, published), after) =
        publish_batch secret t start (take (stop - start) (drop start messages)) a w in
      let rest =
        send_batches fuel schedule secret t messages stop (await_all (schedule pending) published)
          after in
      if ltb start (length messages) then rest else (some a, w)

  abbrev pub any_error : List (Option Error) → Bool
  any_error [] = false
  any_error (none ∷ es) = any_error es
  any_error (some e ∷ es) = true

  -- `SendPubSubMessages` behind its loop.
  unfoldable pub record_sent :
      Str → ℕ → Arrays Error → Info Topic → (List (Option Error) × Bool) × Info Topic
  unfolding append_ids
  record_sent name n a p =
      let errors = slice_of a.errors 0 n in
      if any_error errors
      then ((errors, true), p)
      else ((errors, false), append_ids name (slice_of a.ids 0 n) p)

  unfoldable pub finish :
      Str
      → ℕ
      → Info Topic
      → Option (Arrays Error) × World
      → Option ((List (Option Error) × Bool) × Info Topic) × World
  unfolding record_sent
  finish name n p (none, w) = (none, w)
  finish name n p (some a, w) = (some (record_sent name n a p), w)

  -- `SendPubSubMessages` with the topic; there is fuel for a batch per message and the last test.
  unfoldable pub send_to_topic :
      (List (ℕ × Result) → List (ℕ × Result))
      → Str
      → List Message
      → Topic
      → Info Topic
      → World
      → Option ((List (Option Error) × Bool) × Info Topic) × World
  unfolding send_batches finish
  send_to_topic schedule name messages t p w = finish name (length messages) p (
      send_batches (suc (length messages)) schedule p.secret_key t messages 0
        (record { errors = λ i. none; ids = λ i. [] }) w)

  -- `SendPubSubMessages`.
  unfoldable pub send_pub_sub_messages :
      (List (ℕ × Result) → List (ℕ × Result))
      → Str
      → List Message
      → Info Topic
      → World
      → Option ((List (Option Error) × Bool) × Info Topic) × World
  unfolding get_topic send_to_topic
  send_pub_sub_messages schedule name [] p w = (some (([], true), p), w)
  send_pub_sub_messages schedule name (m ∷ ms) p w =
      let ((t, p), w) = get_topic name p w in send_to_topic schedule name (m ∷ ms) t p w
